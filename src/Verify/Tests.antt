-- ===== src/Verify/Tests.antt =====
-- Runs of the checker and of the scrubber.
use backup_shield.Base.{
  ◌≡◌, ◌↔◌, refl, subst, inl, inr, true, false, eq_bytes, eq_of_eq_bytes, Bool-cases, none, some,
  [], ◌∷◌, All, Bytes,
}
use backup_shield.Base.Result.{ok}
use backup_shield.Hash.{compute_hash}
use backup_shield.Hash.Toy.{toy}
use backup_shield.Pack.Name.{pack_filename}
use backup_shield.Pack.Disk.{Disk}
use backup_shield.Pack.Format.{pack_body}
use backup_shield.Repository.Index.{ChunkMeta, ChunkIndex, get, get-cons, size_of}
use backup_shield.Snapshot.{Snapshot, all_chunk_hashes}
use backup_shield.Snapshot.Node.{SnapshotNode, file, directory, child, no_more}
use backup_shield.Verify.Report.{full, VerifyResult, parsed, is_ok, load_index}
use backup_shield.Verify.Files.{compute_file_hash}
use backup_shield.Verify.Checker.{Stored, verify, verify_at, verify_snapshot}
use backup_shield.Verify.Clean.{Readable}
use backup_shield.Verify.Intact.{FilesHashed}
use backup_shield.Verify.Sound.{IsIntact, verify-IsIntact}
use backup_shield.Verify.Restorable.{verify_snapshot_restorable}
use backup_shield.Verify.Counted.{Counts, chunks_at, verify_at-Counts}
use backup_shield.Verify.Scrub.{ScrubResult, new_progress, scrub}
use mathlib.Core.List.Permᴰ as Permᴰ
use backup_shield.Verify.Scrub.Order.{SameMap}
use backup_shield.Verify.Scrub.Agrees.{IsAgreed, scrub-verify}

abbrev seven : Bytes
seven = 7 ∷ 8 ∷ []

abbrev seven_hash : Bytes
seven_hash = compute_hash toy seven

-- A pack with the chunk.
abbrev disk : Disk
disk = (pack_filename 1, pack_body 1 ((seven_hash, seven) ∷ [])) ∷ []

abbrev seven_meta : ChunkMeta
seven_meta = record {
  hash = seven_hash;
  size = 2;
  compressed_size = 2;
  refs = 1;
  parity_group = 0;
  pack_id = 1;
  pack_offset = 14;
}

abbrev index : ChunkIndex
index = record { entries = (seven_hash, seven_meta) ∷ [] }

abbrev tree : SnapshotNode
tree = directory (b'd' ∷ []) 0 0 (
    child
      (file (record {
        name = b'f' ∷ [];
        size = 2;
        modified = 0;
        mode = 0;
        chunk_hashes = seven_hash ∷ [];
        file_hash = compute_file_hash toy (seven_hash ∷ []);
        versions = [];
      }))
      no_more)

abbrev snap : Snapshot
snap = record {
  id = b's' ∷ [];
  timestamp = 0;
  hostname = [];
  tags = [];
  root = tree;
  total_size = 2;
  total_chunks = 1;
  parent_snapshot_id = none;
}

abbrev stored : Stored
stored = record {
  disk = disk;
  list_fails = false;
  index_file = parsed index;
  snapshot_files = some ((b's' ∷ b'.' ∷ b'j' ∷ b's' ∷ b'o' ∷ b'n' ∷ [], ok snap) ∷ []);
}

loads : load_index (parsed index) ≡ ok index
unfolding load_index
loads = refl

verify-IsIntact_example :
    (r : VerifyResult) × (verify toy (λ hashes. hashes) stored full ≡ ok r)
    × ((is_ok r ≡ true) ↔ IsIntact toy (λ hashes. hashes) stored index)
verify-IsIntact_example = verify-IsIntact toy (λ hashes. hashes) stored index loads refl

verify_snapshot_restorable_example :
    (r : VerifyResult) × (verify_snapshot toy disk (parsed index) snap.id (ok snap) ≡ ok r)
    × ((is_ok r ≡ true)
        ↔ (All (Readable toy disk index) (all_chunk_hashes snap) × FilesHashed toy snap))
verify_snapshot_restorable_example =
    verify_snapshot_restorable toy disk (parsed index) index snap.id snap loads

verify_at-Counts_example :
    Counts (chunks_at full (size_of index)) (verify_at toy (λ hashes. hashes) stored full index)
verify_at-Counts_example =
    verify_at-Counts toy (λ hashes. hashes) stored full index (λ hashes. refl)

abbrev nine_hash : Bytes
nine_hash = compute_hash toy (9 ∷ [])

abbrev nine_meta : ChunkMeta
nine_meta = record seven_meta { hash = nine_hash; pack_id = 2 }

-- The index with an entry whose pack is missing, and the same map in another order.
abbrev two : ChunkIndex
two = record { entries = (nine_hash, nine_meta) ∷ (seven_hash, seven_meta) ∷ [] }

abbrev two_reordered : ChunkIndex
two_reordered = record { entries = (seven_hash, seven_meta) ∷ (nine_hash, nine_meta) ∷ [] }

abbrev two_stored : Stored
two_stored = record stored { index_file = parsed two }

swapped_entries :
    (k j : Bytes) (m n : ChunkMeta) (h : Bytes)
    → eq_bytes k h ≡ false
    → get (record { entries = (k, m) ∷ (j, n) ∷ [] }) h
      ≡ get (record { entries = (j, n) ∷ (k, m) ∷ [] }) h
swapped_entries k j m n h differ =
    rw
      (
        get-cons k h m ((j, n) ∷ []),
        get-cons j h n ((k, m) ∷ []),
        get-cons j h n [],
        get-cons k h m [],
        differ,
      )
      refl

same_entries : (h : Bytes) → get two_reordered h ≡ get two h
unfolding get compute_hash eq_bytes
same_entries h = elim (Bool-cases (eq_bytes seven_hash h)) [
  | inl same ↦ subst (λ k. get two_reordered k ≡ get two k) (eq_of_eq_bytes seven_hash h same) refl
  | inr other ↦ swapped_entries seven_hash nine_hash seven_meta nine_meta h other
]

two-SameMap : SameMap two two_reordered
two-SameMap = record { entries = Permᴰ.swap refl refl; lookup = same_entries }

loads_two : (i : ChunkIndex) → load_index (parsed i) ≡ ok i
unfolding load_index
loads_two i = refl

scrub-verify_example :
    (v : VerifyResult) × (s : ScrubResult) × (verify toy (λ hashes. hashes) two_stored full ≡ ok v)
    × (scrub toy disk false (parsed two_reordered) new_progress ≡ ok (s.progress, s))
    × IsAgreed v s
scrub-verify_example =
    scrub-verify toy (λ hashes. hashes) two_stored two two_reordered (parsed two_reordered)
      new_progress (loads_two two) (loads_two two_reordered) two-SameMap refl
