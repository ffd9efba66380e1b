-- ===== src/Compact/Tests.antt =====
-- Runs of the compaction.
use backup_shield.Base.{
  ℕ, ◌+◌, ◌^◌, ◌<◌, ◌≡◌, ◌≢◌, refl, sym, ap, ◌∙◌, subst, inl, inr, Bool, true, false, some, [], ◌∷◌,
  ◌++◌, length, Bytes, arith, eq_bytes, Bool-cases, to_le_bytes, from_le_bytes,
}
use backup_shield.Base.Result.{Result, ok}
use backup_shield.Base.Utf8.{is_utf8}
use backup_shield.Hash.{compute_hash, compute_checksum}
use backup_shield.Hash.Toy.{toy}
use backup_shield.Pack.Name.{pack_filename, temp_filename, pack_id_of}
use backup_shield.Pack.Disk.{Disk, read_file, write_file, remove_file, rename_file, file_names}
use backup_shield.Pack.Format.{pack_body, header, entry, entries, locations, stored_size}
use backup_shield.Pack.Writer.{Io, flush, finish, add_chunk, new_writer}
use backup_shield.Pack.Reader.{
  read_chunk, read_entry, read_exact, read_marker, list_chunks, list_loop, list_entry,
  list_pack_ids, insert_id, sort_ids, ids_of, largest,
}
use backup_shield.Repository.Index.{ChunkMeta, ChunkIndex, get, modify, remove}
use backup_shield.Compact.{
  CompactError, CompactResult, Gathered, nothing_gathered, gather_packs, gather_pack, gather_chunks,
  gather_chunk, keep_chunk, discard_chunk, IndexIo, compact_packs, compact_ids, after_gather,
  after_rewrite, index_and_delete, save_compacted, delete_packs, finish_compaction, rewrite_packs,
  rewrite_chunks, rewrite_chunk, record_flush, in_pack, compact_index, move_entries, moved, orphans,
  remove_entries,
}
use backup_shield.Compact.Gather.{AreBytes, FilesOfBytes}
use backup_shield.Compact.Safe.{ReadableAt, InPack, compact_packs-ReadableAt}
use backup_shield.Compact.Cleaned.{Cleaned, compact_packs-Cleaned}

abbrev seven : Bytes
seven = 7 ∷ 8 ∷ []

abbrev nine : Bytes
nine = 9 ∷ []

abbrev seven_hash : Bytes
seven_hash = compute_hash toy seven

abbrev nine_hash : Bytes
nine_hash = compute_hash toy nine

abbrev file : Bytes
file =
    pack_body 3 ((nine_hash, nine) ∷ (seven_hash, seven) ∷ [])
    ++ compute_checksum toy (pack_body 3 ((nine_hash, nine) ∷ (seven_hash, seven) ∷ []))

abbrev disk : Disk
disk = (pack_filename 3, file) ∷ []

abbrev seven_meta : ChunkMeta
seven_meta = record {
  hash = seven_hash;
  size = 2;
  compressed_size = 2;
  refs = 1;
  parity_group = 0;
  pack_id = 3;
  pack_offset = 84;
}

abbrev index : ChunkIndex
index = record {
  entries =
      (nine_hash, record seven_meta { hash = nine_hash; pack_offset = 14 })
      ∷ (seven_hash, seven_meta)
      ∷ [];
}

abbrev works : ℕ → Io
works id = record { fails = λ step. false; written = 0; list_fails = false }

abbrev no_failure : IndexIo
no_failure = record {
  list_fails = false;
  stat_fails = false;
  read_fails = false;
  save_fails = false;
  pack_stat_fails = λ id. false;
  delete_fails = λ id. false;
}

abbrev live : Bytes → Bool
live h = eq_bytes h seven_hash

refl_live : live seven_hash ≡ true
unfolding eq_bytes compute_hash
refl_live = refl

InPack-three : InPack toy disk index seven_hash
unfolding read_chunk read_entry read_exact read_marker list_chunks list_loop list_entry get
    read_file pack_filename pack_body header entry entries stored_size eq_bytes to_le_bytes
    from_le_bytes is_utf8 compute_hash compute_checksum
InPack-three = record {
  meta = seven_meta;
  bytes = seven;
  chunk_list = (nine_hash, 14, 1) ∷ (seven_hash, 84, 2) ∷ [];
  entry = refl;
  fits = omega arith;
  readable = refl;
  listing = refl;
  listed = inr (inl refl);
}

file_bytes : AreBytes file
unfolding pack_body header entry entries stored_size to_le_bytes compute_hash compute_checksum
file_bytes = omega arith

disk_files : FilesOfBytes toy disk
unfolding read_file
disk_files name content found = elim (Bool-cases (eq_bytes (pack_filename 3) name)) [
  | inl same ↦ subst AreBytes (cc (rw (same, read_file) at found)) file_bytes
  | inr other ↦ absurd (cc (rw (other, read_file) at found))
]

abbrev gathered : Gathered
gathered = record {
  live_chunks = (seven_hash, seven) ∷ [];
  chunks_kept = 1;
  chunks_discarded = 1;
  bytes_freed = 1;
}

gathering : gather_packs toy live disk (list_pack_ids disk) nothing_gathered ≡ ok gathered
unfolding gather_packs gather_pack gather_chunks gather_chunk keep_chunk discard_chunk list_pack_ids
    sort_ids insert_id ids_of file_names pack_id_of read_chunk read_entry read_exact read_marker
    list_chunks list_loop list_entry read_file pack_filename pack_body header entry entries
    stored_size eq_bytes to_le_bytes from_le_bytes is_utf8 compute_hash compute_checksum
gathering = refl

largest_id : largest (list_pack_ids disk) ≡ 3
unfolding list_pack_ids largest sort_ids insert_id ids_of file_names pack_id_of pack_filename
    eq_bytes
largest_id = refl

room :
    (g : Gathered)
    → gather_packs toy live disk (list_pack_ids disk) nothing_gathered ≡ ok g
    → largest (list_pack_ids disk) + 1 + length g.live_chunks < 2 ^ 64
room g e =
    subst (λ t. largest (list_pack_ids disk) + 1 + length t.live_chunks < 2 ^ 64)
      (same_gathered g (sym gathering ∙ e)) (omega (arith, largest_id))
  where
    same_gathered :
        (g : Gathered) → ◌≡◌ {A = Result CompactError Gathered} (ok gathered) (ok g) → gathered ≡ g
    same_gathered g e = cc

compact_packs-ReadableAt_example :
    let after = compact_packs toy works no_failure live false 100 disk (some index) in
    ReadableAt toy after.disk after.saved_index seven_hash
compact_packs-ReadableAt_example =
    compact_packs-ReadableAt toy works no_failure live false 100 disk index seven_hash disk_files
      room refl refl_live InPack-three

listed : list_pack_ids disk ≡ 3 ∷ []
unfolding list_pack_ids sort_ids insert_id ids_of file_names pack_id_of pack_filename eq_bytes
listed = refl

a_pack : list_pack_ids disk ≢ []
a_pack e = absurd (omega (arith, sym three ∙ ap length e))
  where
    three : length (list_pack_ids disk) ≡ 1
    three = ap length listed

abbrev compacted : CompactResult
compacted = record {
  packs_before = 1;
  packs_after = 1;
  chunks_kept = 1;
  chunks_discarded = 1;
  bytes_freed = 1;
}

succeeded :
    (compact_packs toy works no_failure live false 100 disk (some index)).result ≡ ok compacted
unfolding compact_packs compact_ids after_gather after_rewrite index_and_delete save_compacted
    delete_packs finish_compaction rewrite_packs rewrite_chunks rewrite_chunk record_flush in_pack
    compact_index move_entries moved orphans remove_entries largest flush finish add_chunk
    new_writer write_file remove_file rename_file locations temp_filename modify remove gather_packs
    gather_pack gather_chunks gather_chunk keep_chunk discard_chunk list_pack_ids sort_ids insert_id
    ids_of file_names pack_id_of read_chunk read_entry read_exact read_marker list_chunks list_loop
    list_entry read_file pack_filename pack_body header entry entries stored_size eq_bytes
    to_le_bytes from_le_bytes is_utf8 compute_hash compute_checksum
succeeded = refl

compact_packs-Cleaned_example :
    let after = compact_packs toy works no_failure live false 100 disk (some index) in
    Cleaned live (list_pack_ids disk) after.disk after.saved_index
compact_packs-Cleaned_example =
    compact_packs-Cleaned toy works no_failure live index refl (λ id. refl) false 100 disk compacted
      a_pack succeeded
