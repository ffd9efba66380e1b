-- ===== src/Snapshot/Stats.antt =====
-- The number of chunks that a snapshot states, and the references that its removal gives back.
use backup_shield.Base.{
  ℕ, ◌+◌, ◌%◌, ◌^◌, ◌≡◌, refl, sym, ap, ◌∙◌, List, [], ◌++◌, append-nil, append_assoc, length,
  length-append, Bytes, arith,
}
use backup_shield.Snapshot.{Snapshot, all_chunk_hashes}
use backup_shield.Snapshot.Node.{
  SnapshotNode, SnapshotNodes, file, directory, symlink, no_more, child, collect_chunk_hashes,
  collect_children, compute_stats, sum_children,
}

mutual
  unfolding collect_chunk_hashes collect_children

  collect-append :
      (node : SnapshotNode) (hashes : List Bytes)
      → collect_chunk_hashes node hashes ≡ hashes ++ collect_chunk_hashes node []
  collect-append (file f) hashes = refl
  collect-append (directory name modified mode children) hashes =
      collect_children-append children hashes
  collect-append (symlink s) hashes = sym (append-nil hashes)

  collect_children-append :
      (nodes : SnapshotNodes) (hashes : List Bytes)
      → collect_children nodes hashes ≡ hashes ++ collect_children nodes []
  collect_children-append no_more hashes = sym (append-nil hashes)
  collect_children-append (child node nodes) hashes =
      collect_children-append nodes (collect_chunk_hashes node hashes)
      ∙ ap (λ t. t ++ collect_children nodes []) (collect-append node hashes)
      ∙ append_assoc hashes (collect_chunk_hashes node []) (collect_children nodes [])
      ∙ ap (λ t. hashes ++ t) (sym (collect_children-append nodes (collect_chunk_hashes node [])))

mutual
  unfolding collect_chunk_hashes collect_children compute_stats sum_children

  compute_stats-hashes :
      (node : SnapshotNode)
      → (compute_stats node).1 % 2 ^ 64 ≡ length (collect_chunk_hashes node []) % 2 ^ 64
  compute_stats-hashes (file f) = refl
  compute_stats-hashes (directory name modified mode children) =
      omega (arith, sum_children-hashes children 0 0)
  compute_stats-hashes (symlink s) = refl

  sum_children-hashes :
      (nodes : SnapshotNodes) (total_size total_chunks : ℕ)
      → (sum_children nodes total_size total_chunks).1 % 2 ^ 64
        ≡ (total_chunks + length (collect_children nodes [])) % 2 ^ 64
  sum_children-hashes no_more total_size total_chunks = omega arith
  sum_children-hashes (child node nodes) total_size total_chunks = omega (
    arith,
    sum_children-hashes nodes ((total_size + (compute_stats node).0) % 2 ^ 64)
        ((total_chunks + (compute_stats node).1) % 2 ^ 64),
    compute_stats-hashes node,
    ap length (collect_children-append nodes (collect_chunk_hashes node [])),
    length-append (collect_chunk_hashes node []) (collect_children nodes []),
  )

-- The number of chunks that `compute_stats` states for the tree of a snapshot is, modulo 2^64,
-- the number of hashes that `all_chunk_hashes` lists for it.
pub compute_stats-all_chunk_hashes :
    (snap : Snapshot)
    → (compute_stats snap.root).1 % 2 ^ 64 ≡ length (all_chunk_hashes snap) % 2 ^ 64
unfolding all_chunk_hashes
compute_stats-all_chunk_hashes snap = compute_stats-hashes snap.root
