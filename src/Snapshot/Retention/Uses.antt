-- ===== src/Snapshot/Retention/Uses.antt =====
-- Pruning leaves every chunk of the snapshots that stay in the index.
use backup_shield.Base.{
  ◌≡◌, refl, ◌∙◌, inl, inr, false, some, List, [], ◌∷◌, Bytes, eq_bytes, eq_bytes_iff,
  eq_bytes_refl, All, arith, Bool-cases, leb,
}
use backup_shield.Snapshot.{Snapshot, Store, drop_snapshot, remove_snapshot, is_among, find_by_id}
use backup_shield.Snapshot.References.{Covered, drop_snapshot-Covered, find-remove_snapshot}
use backup_shield.Snapshot.Retention.{
  Calendar, Policy, insert_newest, newest_first, prune_loop, prune_snapshots,
}

-- No two snapshots of the list have one id.
abbrev pub Apart : List Snapshot → Type 0
Apart [] = Unit
Apart (s ∷ snaps) = All (λ t. eq_bytes s.id t.id ≡ false) snaps × Apart snaps

module _ {ℓ} (P : Snapshot → Type ℓ) where
  All-insert_newest :
      (snap : Snapshot) (snaps : List Snapshot)
      → P snap
      → All P snaps
      → All P (insert_newest snap snaps)
  unfolding insert_newest
  All-insert_newest snap [] p ps = (p, tt)
  All-insert_newest snap (s ∷ snaps) p ps = elim (Bool-cases (leb s.timestamp snap.timestamp)) [
    | inl first ↦ rw first (p, ps)
    | inr later ↦ rw later (ps.0, All-insert_newest snap snaps p ps.1)
  ]

  All-newest_first : (snaps : List Snapshot) → All P snaps → All P (newest_first snaps)
  unfolding newest_first
  All-newest_first [] ps = tt
  All-newest_first (s ∷ snaps) ps =
      All-insert_newest s (newest_first snaps) ps.0 (All-newest_first snaps ps.1)

eq_bytes_sym : (a b : Bytes) → eq_bytes a b ≡ false → eq_bytes b a ≡ false
eq_bytes_sym a b e = ground (arith, eq_bytes_iff a b, eq_bytes_iff b a)

Apart-insert_newest :
    (snap : Snapshot) (snaps : List Snapshot)
    → All (λ t. eq_bytes snap.id t.id ≡ false) snaps
    → Apart snaps
    → Apart (insert_newest snap snaps)
unfolding insert_newest
Apart-insert_newest snap [] d a = (tt, tt)
Apart-insert_newest snap (s ∷ snaps) d a = elim (Bool-cases (leb s.timestamp snap.timestamp)) [
  | inl first ↦ rw first (d, a)
  | inr later ↦ rw later (
    All-insert_newest (λ t. eq_bytes s.id t.id ≡ false) snap snaps (eq_bytes_sym snap.id s.id d.0)
        a.0,
    Apart-insert_newest snap snaps d.1 a.1,
  )
]

Apart-newest_first : (snaps : List Snapshot) → Apart snaps → Apart (newest_first snaps)
unfolding newest_first
Apart-newest_first [] a = tt
Apart-newest_first (s ∷ snaps) a =
    Apart-insert_newest s (newest_first snaps)
      (All-newest_first (λ t. eq_bytes s.id t.id ≡ false) snaps a.0) (Apart-newest_first snaps a.1)

-- The snapshots of the list are those that are found by their ids.
abbrev Found : List Snapshot → List Snapshot → Type 0
Found snaps all = All (λ s. find_by_id s.id all ≡ some s) snaps

find-later :
    (s : Snapshot) (all snaps : List Snapshot)
    → All (λ t. eq_bytes s.id t.id ≡ false) snaps
    → Found snaps all
    → Found snaps (s ∷ all)
unfolding find_by_id
find-later s all [] d f = tt
find-later s all (t ∷ snaps) d f = (rw (d.0, find_by_id) f.0, find-later s all snaps d.1 f.1)

Found-self : (snaps : List Snapshot) → Apart snaps → Found snaps snaps
unfolding find_by_id
Found-self [] a = tt
Found-self (s ∷ snaps) a =
    (rw (eq_bytes_refl s.id) refl, find-later s snaps snaps a.0 (Found-self snaps a.1))

Found-remove_snapshot :
    (snap : Snapshot) (snaps all : List Snapshot)
    → All (λ t. eq_bytes snap.id t.id ≡ false) snaps
    → Found snaps all
    → Found snaps (remove_snapshot snap.id all)
Found-remove_snapshot snap [] all d f = tt
Found-remove_snapshot snap (t ∷ snaps) all d f =
    (find-remove_snapshot snap.id t.id all d.0 ∙ f.0, Found-remove_snapshot snap snaps all d.1 f.1)

prune_loop-Covered :
    (kept : List Bytes) (snaps : List Snapshot) (st : Store)
    → Apart snaps
    → Found snaps st.snapshots
    → Covered st
    → Covered (prune_loop kept snaps st).0
unfolding prune_loop
prune_loop-Covered kept [] st a f covered = covered
prune_loop-Covered kept (snap ∷ snaps) st a f covered = elim (Bool-cases (is_among snap.id kept)) [
  | inl stays ↦ rw stays (prune_loop-Covered kept snaps st a.1 f.1 covered)
  | inr goes ↦ rw goes (
      prune_loop-Covered kept snaps (drop_snapshot snap st) a.1
        (unfold drop_snapshot in Found-remove_snapshot snap snaps st.snapshots a.0 f.1)
        (drop_snapshot-Covered snap st f.0 covered))
]

-- If the index counts at least as many references of every chunk as the snapshots have uses of
-- it, and no two snapshots have one id, then the same holds after `prune_snapshots`, for every
-- policy and the snapshots that are left.
pub prune_snapshots-Covered :
    (cal : Calendar) (policy : Policy) (st : Store)
    → Apart st.snapshots
    → Covered st
    → Covered (prune_snapshots cal policy st).0
unfolding prune_snapshots
prune_snapshots-Covered cal policy st a covered =
    prune_loop-Covered _ (newest_first st.snapshots) st (Apart-newest_first st.snapshots a)
      (All-newest_first (λ s. find_by_id s.id st.snapshots ≡ some s) st.snapshots
        (Found-self st.snapshots a))
      covered
