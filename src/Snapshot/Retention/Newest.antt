-- ===== src/Snapshot/Retention/Newest.antt =====
-- The newest snapshot survives every pruning by a policy that keeps anything.
use backup_shield.Base.{
  ℕ, ◌+◌, ◌≤◌, ◌<◌, ◌≡◌, ◌≢◌, refl, sym, ap, subst, All, Any, leb, ◌∙◌, inl, inr, true, false, List,
  [], ◌∷◌, Bytes, eq_bytes, eq_bytes_refl, eq_of_eq_bytes, arith, Bool-cases, ltb,
}
use backup_shield.Snapshot.{Snapshot, Store, drop_snapshot, is_among, find_by_id}
use backup_shield.Snapshot.References.{find-remove_snapshot}
use backup_shield.Snapshot.Retention.{
  Calendar, Policy, take_slot, insert_newest, newest_first, classify, keep_loop, to_keep,
  prune_loop, prune_snapshots,
}

first_slot : (keep : ℕ) (key : List ℕ) → (take_slot keep key []).1 ≡ ltb 0 keep
unfolding take_slot
first_slot keep key = ground arith

first-to_keep :
    (cal : Calendar) (policy : Policy) (snap : Snapshot) (rest : List Snapshot)
    → 0 < policy.keep_daily + policy.keep_weekly + policy.keep_monthly
    → is_among snap.id (to_keep cal policy (snap ∷ rest)) ≡ true
unfolding to_keep keep_loop classify is_among take_slot
first-to_keep cal policy snap rest some_kept = ground (arith, eq_bytes_refl snap.id)

differs :
    (kept : List Bytes) (a b : Bytes)
    → is_among a kept ≡ true
    → is_among b kept ≡ false
    → eq_bytes b a ≡ false
differs kept a b yes_a no_b = elim (Bool-cases (eq_bytes b a)) [
  | inl same ↦ absurd (ground (arith, ap (λ t. is_among t kept) (eq_of_eq_bytes b a same)))
  | inr other ↦ other
]

find-prune_loop :
    (kept : List Bytes) (snaps : List Snapshot) (st : Store) (id : Bytes)
    → is_among id kept ≡ true
    → find_by_id id (prune_loop kept snaps st).0.snapshots ≡ find_by_id id st.snapshots
unfolding prune_loop drop_snapshot
find-prune_loop kept [] st id among = refl
find-prune_loop kept (snap ∷ snaps) st id among = elim (Bool-cases (is_among snap.id kept)) [
  | inl stays ↦ rw stays (find-prune_loop kept snaps st id among)
  | inr goes ↦ rw goes (
      find-prune_loop kept snaps (drop_snapshot snap st) id among
      ∙ find-remove_snapshot snap.id id st.snapshots (differs kept id snap.id among goes))
]

-- No snapshot of the list is newer.
abbrev pub NoneLater : Snapshot → List Snapshot → Type 0
NoneLater newest snaps = All (λ s. s.timestamp ≤ newest.timestamp) snaps

insert_newest-All :
    (P : Snapshot → Type 0) (snap : Snapshot) (snaps : List Snapshot)
    → P snap
    → All P snaps
    → All P (insert_newest snap snaps)
unfolding insert_newest
insert_newest-All P snap [] h all = (h, tt)
insert_newest-All P snap (s ∷ snaps) h all = elim (Bool-cases (leb s.timestamp snap.timestamp)) [
  | inl older ↦ rw older (h, all)
  | inr newer ↦ rw newer (all.0, insert_newest-All P snap snaps h all.1)
]

-- What holds of the list that is sorted so far: it starts with a newest one.
abbrev Starts : List Snapshot → List Snapshot → Type 0
Starts [] snaps = snaps ≡ []
Starts (first ∷ rest) snaps =
    NoneLater first snaps × NoneLater first rest × Any (λ s. s ≡ first) snaps

newest-insert_newest :
    (snap : Snapshot) (sorted snaps : List Snapshot)
    → Starts sorted snaps
    → Starts (insert_newest snap sorted) (snap ∷ snaps)
unfolding insert_newest
newest-insert_newest snap [] snaps none_left =
    ((omega arith, subst (NoneLater snap) (sym none_left) tt), tt, inl refl)
newest-insert_newest snap (first ∷ rest) snaps (newest, sorted, among) =
    elim (Bool-cases (leb first.timestamp snap.timestamp)) [
      | inl older ↦
          let le : first.timestamp ≤ snap.timestamp = ground (arith, older) in
          rw older (
            (omega arith, weaken snap first snaps le newest),
            (le, weaken snap first rest le sorted),
            inl refl,
          )
      | inr newer ↦
          let le : snap.timestamp ≤ first.timestamp = ground (arith, newer) in
          rw newer (
            (le, newest),
            insert_newest-All (λ s. s.timestamp ≤ first.timestamp) snap rest le sorted,
            inr among,
          )
    ]
  where
    weaken :
        (a b : Snapshot) (l : List Snapshot)
        → b.timestamp ≤ a.timestamp
        → NoneLater b l
        → NoneLater a l
    weaken a b [] le all = tt
    weaken a b (s ∷ l) le all = (omega (arith, all.0, le), weaken a b l le all.1)

newest-newest_first : (snaps : List Snapshot) → Starts (newest_first snaps) snaps
unfolding newest_first
newest-newest_first [] = refl
newest-newest_first (snap ∷ snaps) =
    newest-insert_newest snap (newest_first snaps) snaps (newest-newest_first snaps)

-- By a policy that keeps anything, of a list of snapshots that is not empty, `prune_snapshots`
-- leaves a newest one: for some snapshot of the list, such that none of the list has a later
-- time, what is found under its id is what was found before.
pub newest-prune_snapshots :
    (cal : Calendar) (policy : Policy) (st : Store)
    → st.snapshots ≢ []
    → 0 < policy.keep_daily + policy.keep_weekly + policy.keep_monthly
    → (newest : Snapshot) × Any (λ s. s ≡ newest) st.snapshots
      × NoneLater newest st.snapshots
      × (find_by_id newest.id (prune_snapshots cal policy st).0.snapshots
          ≡ find_by_id newest.id st.snapshots)
unfolding prune_snapshots
newest-prune_snapshots cal policy st some_snapshot some_kept =
    by_order (newest_first st.snapshots) refl (newest-newest_first st.snapshots)
  where
    by_order :
        (order : List Snapshot)
        → newest_first st.snapshots ≡ order
        → Starts order st.snapshots
        → (newest : Snapshot) × Any (λ s. s ≡ newest) st.snapshots
          × NoneLater newest st.snapshots
          × (find_by_id newest.id
                (prune_loop
                  (to_keep cal policy (newest_first st.snapshots))
                  (newest_first st.snapshots)
                  st).0.snapshots
              ≡ find_by_id newest.id st.snapshots)
    by_order [] is none_left = absurd (some_snapshot none_left)
    by_order (newest ∷ rest) is (highest, sorted, among) = (
      newest,
      among,
      highest,
      find-prune_loop _ _ st newest.id (rw is (first-to_keep cal policy newest rest some_kept)),
    )
