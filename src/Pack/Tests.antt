-- ===== src/Pack/Tests.antt =====
-- Runs of the pack files.
use backup_shield.Base.{◌≡◌, refl, false, some, [], ◌∷◌, Bytes, arith, eq_bytes}
use backup_shield.Base.Result.{ok}
use backup_shield.Hash.{compute_hash}
use backup_shield.Hash.Toy.{toy}
use backup_shield.Pack.Name.{pack_filename, temp_filename}
use backup_shield.Pack.Disk.{Disk, read_file, write_file}
use backup_shield.Pack.Format.{pack_body, locations, stored_size}
use backup_shield.Pack.Writer.{PackWriter, FlushResult, Io, flush}
use backup_shield.Pack.Writer.Atomic.{Outcome, flush-Outcome}
use backup_shield.Pack.Reader.{read_chunk, verify_pack, list_chunks}
use backup_shield.Pack.RoundTrip.{Located}
use backup_shield.Pack.Stored.{read_chunk-flush, list_chunks-flush, verify_pack-flush}
use backup_shield.Pack.Sound.{read_chunk_sound, IsPackFile, verify_pack_sound}

abbrev works : Io
works = record { fails = λ step. false; written = 0; list_fails = false }

abbrev seven : Bytes
seven = 7 ∷ 8 ∷ []

abbrev seven_hash : Bytes
seven_hash = compute_hash toy seven

abbrev writer : PackWriter
writer = record {
  target_size = 100;
  next_pack_id = 3;
  buffer = (seven_hash, seven) ∷ [];
  buffer_bytes = 71;
}

abbrev old_disk : Disk
old_disk = (pack_filename 2, 1 ∷ []) ∷ []

abbrev result : FlushResult
result = record {
  pack_id = 3;
  pack_file = pack_filename 3;
  chunk_count = 1;
  chunk_locations = (seven_hash, 14, 2) ∷ [];
}

abbrev after : Disk
after = (flush toy works writer old_disk).disk

flushed : (flush toy works writer old_disk).result ≡ ok (some result)
unfolding flush pack_filename temp_filename write_file read_file pack_body locations eq_bytes
    stored_size
flushed = refl

flush-Outcome_example :
    Outcome toy writer old_disk
      (flush toy works writer old_disk)
      (flush toy works writer old_disk).result
flush-Outcome_example = flush-Outcome toy works writer old_disk

read_chunk-flush_example : Located toy after 3 ((seven_hash, 14, 2) ∷ []) ((seven_hash, seven) ∷ [])
read_chunk-flush_example =
    read_chunk-flush toy works writer old_disk result (omega arith) flushed
      ((refl, omega arith), tt)

list_chunks-flush_example : list_chunks after 3 ≡ ok ((seven_hash, 14, 2) ∷ [])
list_chunks-flush_example =
    list_chunks-flush toy works writer old_disk result (omega arith) flushed
      ((refl, omega arith), tt)

verify_pack-flush_example : verify_pack toy after 3 ≡ ok tt
verify_pack-flush_example = verify_pack-flush toy works writer old_disk result (omega arith) flushed

stored : read_chunk toy after 3 14 seven_hash ≡ ok seven
stored =
    (read_chunk-flush toy works writer old_disk result (omega arith) flushed
      ((refl, omega arith), tt)).2

read_chunk_sound_example : compute_hash toy seven ≡ seven_hash
read_chunk_sound_example = read_chunk_sound toy after 3 14 seven_hash seven stored

verified : verify_pack toy after 3 ≡ ok tt
verified = verify_pack-flush toy works writer old_disk result (omega arith) flushed

verify_pack_sound_example :
    (file : Bytes) × (read_file after (pack_filename 3) ≡ some file) × IsPackFile toy file
verify_pack_sound_example = verify_pack_sound toy after 3 verified

two_found : read_file old_disk (pack_filename 2) ≡ some (1 ∷ [])
unfolding read_file pack_filename eq_bytes
two_found = refl
