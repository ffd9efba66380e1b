-- ===== src/Verify/Scrub/Tests.antt =====
-- A repair by the scrubber: of a group of two chunks with two parity chunks, the first is missing.
use backup_shield.Base.{ℕ, ◌≡◌, refl, false, Option, none, some, [], ◌∷◌, Bytes, arith, eq_bytes}
use backup_shield.Base.Result.{Result, ok, err}
use backup_shield.Base.{to_le_bytes, from_le_bytes, for_each}
use backup_shield.Base.Utf8.{is_utf8}
use backup_shield.Hash.{compute_hash, compute_checksum}
use backup_shield.Hash.Toy.{toy}
use backup_shield.Pack.Name.{pack_filename, temp_filename, pack_id_of}
use backup_shield.Pack.Disk.{Disk, read_file, write_file, remove_file, rename_file, file_names}
use backup_shield.Pack.Reader as Reader
use backup_shield.Pack.Reader.{max_pack_id, list_pack_ids, largest, sort_ids, insert_id, ids_of}
use backup_shield.Pack.Format.{pack_body, header, entries, stored_size, locations}
use backup_shield.Pack.Writer.{
  add_chunk, new_writer, flush, flush_body, flush_read_back, flush_checksum, flush_rename,
}
use backup_shield.Repository as Repo
use backup_shield.Repository.{
  Repository, open_repository, save_index, write_repaired_chunk, repaired_flushed, place,
}
use backup_shield.Repository.Index.{ChunkMeta, ChunkIndex, get, modify}
use backup_shield.Repository.Rewritten.{Stands, StandsIn}
use backup_shield.Ecc.Parity.{
  ParityIndex, lift_error, new_parity_manager, find_group_by_hash, find_group, first_group,
  has_hash, total_chunks, repair_chunks, place_chunks, resize,
}
use backup_shield.Ecc.Field.{new_gf256, fill_tables, repeat_powers, next_power, gf_mul, gf_inv}
use backup_shield.Ecc.Matrix as Matrix
use backup_shield.Ecc.Matrix.{
  new_matrix, put, for_range, augment, find_pivot, swap_rows, scale_row, eliminate_row,
  eliminate_column, eliminate, right_half, invert, vandermonde, build_encoding_matrix,
}
use backup_shield.Ecc.Codec.{
  new_reed_solomon, combine, combine_rows, xor_scaled, indices_of, shard_length, check_present,
  sub_matrix, contents, fill_missing, fill_data, recover, reconstruct,
}
use backup_shield.Verify.Report.{parsed, load_index, increment}
use backup_shield.Verify.Chunks.{read_chunk_from_index, lift_pack_error}
use backup_shield.Verify.Checker.{all_hashes}
use backup_shield.Verify.Scrub.{
  ScrubResult, new_progress, start_progress, increment_progress, report_bad, scrub_read,
  scrub_chunk, scrub_chunks,
}
use backup_shield.Verify.Scrub.Repair.{
  RepairIo, BadGroups, ScrubInput, Scrubbed, ScrubFailure, load_parity_index, scrub_and_repair,
  prepare, lift_index, lift_manager, scrub_prepared, repair_bad, repair_opened, repair_groups,
  group_bad, push_bad, repair_group, repair_known, gather_available, enumerate, repair_all,
  repair_one, write_back, count_repaired, cut_to_size, saved_in, save_repaired, finish_scrub,
}
use backup_shield.Verify.Scrub.Safe.{SmallSizes, room, room_known}
use backup_shield.Verify.Scrub.Kept.{visited, scrub_and_repair-Stands}

abbrev lost : Bytes
lost = 1 ∷ 2 ∷ []

abbrev left : Bytes
left = 3 ∷ 4 ∷ []

abbrev parity_chunk : Bytes
parity_chunk = 13 ∷ 18 ∷ []

abbrev hash_of : Bytes → Bytes
hash_of = compute_hash toy

abbrev disk : Disk
disk =
    (
      pack_filename 1,
      pack_body 1 ((hash_of left, left) ∷ (hash_of parity_chunk, parity_chunk) ∷ []),
    )
    ∷ []

abbrev at_offset : Bytes → ℕ → ℕ → ChunkMeta
at_offset bytes pack_id offset = record {
  hash = hash_of bytes;
  size = 2;
  compressed_size = 2;
  refs = 1;
  parity_group = 0;
  pack_id = pack_id;
  pack_offset = offset;
}

abbrev index : ChunkIndex
index = record {
  entries =
      (hash_of lost, at_offset lost 9 14)
      ∷ (hash_of left, at_offset left 1 14)
      ∷ (hash_of parity_chunk, at_offset parity_chunk 1 85)
      ∷ [];
}

abbrev parity : ParityIndex
parity = record {
  groups =
      record {
        group_id = 1;
        data_chunk_hashes = hash_of lost ∷ hash_of left ∷ [];
        parity_chunk_hashes = hash_of parity_chunk ∷ hash_of (25 ∷ 34 ∷ []) ∷ [];
        chunk_size = 2;
      }
      ∷ [];
}

abbrev works : RepairIo
works = record {
  flush_io = λ hash. record { fails = λ step. false; written = 0; list_fails = false };
  save_fails = λ hash. false;
  last_save_fails = false;
}

abbrev input : ScrubInput
input = record {
  disk = disk;
  index_file = parsed index;
  parity_file = parsed parity;
  config = some (record { ecc_data_shards = 2; ecc_parity_shards = 2; pack_target_size = 1000 });
  locked = false;
  list_fails = false;
}

abbrev same : BadGroups → BadGroups
same groups = groups

abbrev outcome : Scrubbed
outcome = scrub_and_repair toy works same input new_progress

abbrev repo_in : Option Repository → Repository
repo_in none = record { index = index; pack_writer = none; disk = []; saved_index = none }
repo_in (some repo) = repo

abbrev count_in : Result ScrubFailure ScrubResult → ℕ
count_in (ok r) = r.repaired_count
count_in (err e) = 0

opened_repo : (outcome.repo ≡ some (repo_in outcome.repo)) × (count_in outcome.result ≡ 1)
unfolding scrub_and_repair prepare load_index lift_index load_parity_index lift_manager
    new_parity_manager lift_error new_reed_solomon scrub_prepared repair_bad scrub_chunks all_hashes
    scrub_chunk scrub_read report_bad read_chunk_from_index lift_pack_error Reader.read_chunk
    Reader.read_entry Reader.read_exact Reader.read_marker is_utf8 get read_file pack_filename
    pack_body header entries stored_size to_le_bytes from_le_bytes eq_bytes compute_hash
    increment_progress increment start_progress for_each repair_opened repair_groups group_bad
    push_bad find_group_by_hash first_group has_hash repair_group find_group repair_known
    gather_available enumerate repair_all repair_one write_back count_repaired cut_to_size
    open_repository Repo.load_index saved_in save_index save_repaired finish_scrub
    write_repaired_chunk repaired_flushed add_chunk new_writer flush flush_body flush_read_back
    flush_checksum flush_rename max_pack_id list_pack_ids largest sort_ids insert_id ids_of
    file_names pack_id_of write_file remove_file rename_file temp_filename compute_checksum
    locations modify place total_chunks repair_chunks place_chunks resize reconstruct recover
    indices_of shard_length check_present sub_matrix contents fill_missing fill_data combine_rows
    combine xor_scaled invert eliminate eliminate_column find_pivot swap_rows scale_row
    eliminate_row augment right_half build_encoding_matrix vandermonde new_matrix Matrix.get put
    for_range gf_mul gf_inv new_gf256 fill_tables repeat_powers next_power
opened_repo = (refl, refl)

loads : load_index (parsed index) ≡ ok index
unfolding load_index
loads = refl

loads_parity : load_parity_index (parsed parity) ≡ ok parity
unfolding load_parity_index
loads_parity = refl

small_sizes : SmallSizes index
unfolding get
small_sizes hash meta found = ground arith

largest_id : max_pack_id disk ≡ 1
unfolding max_pack_id list_pack_ids largest sort_ids insert_id ids_of file_names pack_id_of
    pack_filename eq_bytes
largest_id = refl

four : room parity (visited toy same input index parity new_progress) ≡ 4
unfolding scrub_chunks all_hashes scrub_chunk scrub_read report_bad read_chunk_from_index
    lift_pack_error Reader.read_chunk Reader.read_entry Reader.read_exact Reader.read_marker is_utf8
    get read_file pack_filename pack_body header entries stored_size to_le_bytes from_le_bytes
    eq_bytes compute_hash increment_progress increment start_progress for_each group_bad push_bad
    find_group_by_hash first_group has_hash find_group room room_known
four = refl

left_stands : StandsIn toy disk index (hash_of left)
unfolding Reader.read_chunk Reader.read_entry Reader.read_exact Reader.read_marker is_utf8 get
    read_file pack_filename pack_body header entries stored_size to_le_bytes from_le_bytes eq_bytes
    compute_hash
left_stands = (at_offset left 1 14, refl, omega arith, omega arith, left, refl)

scrub_and_repair-Stands_example : Stands toy (repo_in outcome.repo) (hash_of left)
scrub_and_repair-Stands_example =
    scrub_and_repair-Stands toy works same (λ index groups all. all) input new_progress index parity
      (hash_of left) loads small_sizes (omega (arith, largest_id, four)) left_stands
      (repo_in outcome.repo) loads_parity opened_repo.0
