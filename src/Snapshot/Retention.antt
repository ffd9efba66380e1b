-- ===== src/Snapshot/Retention.antt =====
-- `prune_snapshots` of crates/core/src/snapshot.rs: which snapshots a retention policy keeps.
pub mod Newest
pub mod Uses
use backup_shield.Base.{
  ℕ, ◌+◌, Bool, true, false, List, [], ◌∷◌, ◌||◌, leb, ltb, if◌then◌else◌, Bytes, eq_bytes,
}
use backup_shield.Snapshot.{Snapshot, Store, drop_snapshot, is_among}

-- What `chrono` says of a time: a parameter.
pub record Calendar : Type 0 where
  pub year : ℕ → ℕ
  pub month : ℕ → ℕ
  pub day : ℕ → ℕ
  pub iso_week : ℕ → ℕ

-- A `BTreeMap` from the parts of a date to a number.
abbrev pub Counts : Type 0
Counts = List (List ℕ × ℕ)

-- `entry(key).or_insert(0)`, the test against the policy, and the increment.
unfoldable pub take_slot : ℕ → List ℕ → Counts → Counts × Bool
take_slot keep key [] = if ltb 0 keep then ((key, 1) ∷ [], true) else ((key, 0) ∷ [], false)
take_slot keep key ((k, n) ∷ counts) =
    let (later, taken) = take_slot keep key counts in
    if eq_bytes k key
    then (if ltb n keep then ((k, n + 1) ∷ counts, true) else ((k, n) ∷ counts, false))
    else ((k, n) ∷ later, taken)

pub record Policy : Type 0 where
  pub keep_daily : ℕ
  pub keep_weekly : ℕ
  pub keep_monthly : ℕ

pub record Slots : Type 0 where
  pub daily : Counts
  pub weekly : Counts
  pub monthly : Counts

-- `sort_by` on the time, newest first; the sort is stable.
unfoldable pub insert_newest : Snapshot → List Snapshot → List Snapshot
insert_newest snap [] = snap ∷ []
insert_newest snap (s ∷ snaps) =
    if leb s.timestamp snap.timestamp then snap ∷ s ∷ snaps else s ∷ insert_newest snap snaps

unfoldable pub newest_first : List Snapshot → List Snapshot
newest_first [] = []
newest_first (snap ∷ snaps) = insert_newest snap (newest_first snaps)

module _ (cal : Calendar) (policy : Policy) where
  open cal use {year, month, day, iso_week}
  open policy use {keep_daily, keep_weekly, keep_monthly}

  -- One round of the loop: the counters, and whether the snapshot is kept.
  unfoldable pub classify : Snapshot → Slots → Slots × Bool
  classify snap slots =
      let t = snap.timestamp in
      let (daily, by_day) = take_slot keep_daily (year t ∷ month t ∷ day t ∷ []) slots.daily in
      let (weekly, by_week) = take_slot keep_weekly (year t ∷ iso_week t ∷ []) slots.weekly in
      let (monthly, by_month) = take_slot keep_monthly (year t ∷ month t ∷ []) slots.monthly in
      (
        record { daily = daily; weekly = weekly; monthly = monthly },
        by_day || (by_week || by_month),
      )

  -- The ids to keep.
  unfoldable pub keep_loop : List Snapshot → Slots → List Bytes
  keep_loop [] slots = []
  keep_loop (snap ∷ snaps) slots =
      let (after, should_keep) = classify snap slots in
      let rest = keep_loop snaps after in if should_keep then snap.id ∷ rest else rest

  unfoldable pub to_keep : List Snapshot → List Bytes
  to_keep snaps = keep_loop snaps (record { daily = []; weekly = []; monthly = [] })

-- The removal of all the others. The log line of each shows the first 12 bytes of the id, and
-- panics on a shorter one; the ids that the program makes are UUIDs, of 36 bytes.
unfoldable pub prune_loop : List Bytes → List Snapshot → Store → Store × List Bytes
prune_loop kept [] st = (st, [])
prune_loop kept (snap ∷ snaps) st =
    let (after, removed) = prune_loop kept snaps (drop_snapshot snap st) in
    let skipped = prune_loop kept snaps st in
    if is_among snap.id kept then skipped else (after, snap.id ∷ removed)

unfoldable pub prune_snapshots : Calendar → Policy → Store → Store × List Bytes
prune_snapshots cal policy st =
    let snapshots = newest_first st.snapshots in
    prune_loop (to_keep cal policy snapshots) snapshots st
