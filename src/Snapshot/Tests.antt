-- ===== src/Snapshot/Tests.antt =====
-- Runs of the snapshots: two snapshots that share a chunk.
use backup_shield.Base.{
  ℕ, ◌%◌, ◌^◌, ◌<◌, ◌≡◌, ◌≢◌, Any, refl, true, false, none, List, [], ◌∷◌, length, Bytes, eq_bytes,
  eq_bytes_iff, arith,
}
use backup_shield.Repository.Index.{ChunkMeta, get, contains}
use backup_shield.Snapshot.Node.{
  SnapshotNode, SnapshotFile, file, directory, no_more, child, compute_stats, collect_chunk_hashes,
  collect_children,
}
use backup_shield.Snapshot.{
  Snapshot, Store, all_chunk_hashes, remove_snapshot, drop_snapshot, find_by_id, delete_loop,
  delete_snapshots,
}
use backup_shield.Snapshot.Stats.{compute_stats-all_chunk_hashes}
use backup_shield.Snapshot.References.{
  count, uses, Covered, delete_snapshots-Covered, contains-delete_snapshots,
}
use backup_shield.Snapshot.Retention.{Calendar, Policy, prune_snapshots}
use backup_shield.Snapshot.Retention.Newest.{NoneLater, newest-prune_snapshots}
use backup_shield.Snapshot.Retention.Uses.{prune_snapshots-Covered}

abbrev shared : Bytes
shared = 1 ∷ []

abbrev own : Bytes
own = 2 ∷ []

abbrev plain : List Bytes → SnapshotFile
plain hashes = record {
  name = 7 ∷ [];
  size = 10;
  modified = 0;
  mode = 420;
  chunk_hashes = hashes;
  file_hash = [];
  versions = [];
}

abbrev tree : SnapshotNode
tree =
    directory (5 ∷ []) 0 493
      (child (file (plain (shared ∷ own ∷ []))) (child (file (plain [])) no_more))

abbrev monday : Snapshot
monday = record {
  id = 10 ∷ [];
  timestamp = 1;
  hostname = [];
  tags = [];
  root = tree;
  total_size = 20;
  total_chunks = 2;
  parent_snapshot_id = none;
}

abbrev tuesday : Snapshot
tuesday = record monday { id = 11 ∷ []; timestamp = 2; root = file (plain (shared ∷ [])) }

abbrev meta : Bytes → ℕ → ChunkMeta
meta hash refs = record {
  hash = hash;
  size = 5;
  compressed_size = 5;
  refs = refs;
  parity_group = 0;
  pack_id = 1;
  pack_offset = 14;
}

abbrev store : Store
store = record {
  index = record { entries = (shared, meta shared 2) ∷ (own, meta own 1) ∷ [] };
  snapshots = monday ∷ tuesday ∷ [];
}

store-Covered : Covered store
unfolding uses count all_chunk_hashes collect_chunk_hashes collect_children get
store-Covered h = ground (arith, eq_bytes_iff shared h, eq_bytes_iff own h)

compute_stats-all_chunk_hashes_example :
    (compute_stats monday.root).1 % 2 ^ 64 ≡ length (all_chunk_hashes monday) % 2 ^ 64
compute_stats-all_chunk_hashes_example = compute_stats-all_chunk_hashes monday

delete_snapshots-Covered_example : Covered (delete_snapshots (monday.id ∷ []) store).0
delete_snapshots-Covered_example =
    delete_snapshots-Covered (monday.id ∷ []) store (tt, tt) store-Covered

still_used : 0 < uses shared (delete_snapshots (monday.id ∷ []) store).0.snapshots
unfolding delete_snapshots delete_loop find_by_id drop_snapshot remove_snapshot uses count
    all_chunk_hashes collect_chunk_hashes eq_bytes
still_used = omega arith

contains-delete_snapshots_example :
    contains (delete_snapshots (monday.id ∷ []) store).0.index shared ≡ true
contains-delete_snapshots_example =
    contains-delete_snapshots (monday.id ∷ []) store shared (tt, tt) store-Covered still_used

abbrev calendar : Calendar
calendar = record { year = λ t. 2026; month = λ t. 11; day = λ t. t; iso_week = λ t. 48 }

abbrev weekly : Policy
weekly = record { keep_daily = 0; keep_weekly = 1; keep_monthly = 0 }

some_snapshot : store.snapshots ≢ []
some_snapshot e = absurd (cc e)

newest-prune_snapshots_example :
    (newest : Snapshot) × Any (λ s. s ≡ newest) store.snapshots
    × NoneLater newest store.snapshots
    × (find_by_id newest.id (prune_snapshots calendar weekly store).0.snapshots
        ≡ find_by_id newest.id store.snapshots)
newest-prune_snapshots_example =
    newest-prune_snapshots calendar weekly store some_snapshot (omega arith)

apart : eq_bytes monday.id tuesday.id ≡ false
unfolding eq_bytes
apart = refl

prune_snapshots-Covered_example : Covered (prune_snapshots calendar weekly store).0
prune_snapshots-Covered_example =
    prune_snapshots-Covered calendar weekly store ((apart, tt), (tt, tt)) store-Covered
