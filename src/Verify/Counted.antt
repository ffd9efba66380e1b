-- ===== src/Verify/Counted.antt =====
-- The counters of a verification.
use backup_shield.Base.{
  ℕ, ◌+◌, ◌%◌, ◌^◌, ◌≡◌, refl, ap, inl, inr, not, List, [], ◌∷◌, ◌==◌, min, length, length-take,
  for_each, for_each-keeps, Bytes, eq_bytes_iff, Bool-cases, Option-cases, arith, subst, suc,
}
use backup_shield.Base.Result.{Result, ok, err, ensure, ok_or, >>=-eq-ok}
use backup_shield.Hash.{Hashes, compute_hash}
use backup_shield.Pack.Name.{pack_filename}
use backup_shield.Pack.Disk.{Disk, read_file}
use backup_shield.Pack.Reader as Reader
use backup_shield.Pack.Reader.{PackError}
use backup_shield.Pack.Sound.{read_chunk_sound}
use backup_shield.Repository.Index.{ChunkMeta, ChunkIndex, get, size_of}
use backup_shield.Verify.Report.{VerifyLevel, quick, full, sample, VerifyResult, increment}
use backup_shield.Verify.Chunks.{
  Tally, ReadError, lift_pack_error, tally_ok, tally_missing, quick_chunk, read_chunk_from_index,
  check_read, check_chunk, check_chunks,
}
use backup_shield.Verify.Checker.{
  Stored, all_hashes, start, report, check_packs, hashes_to_verify, quick_chunks, quick_verify,
  deep_verify, verify_at,
}

-- Every chunk was counted once as checked and once as fine or missing, none as corrupt.
pub record IsCounted (t : Tally) : Type 0 where
  pub parts : (t.chunks_ok + t.chunks_missing) % 2 ^ 64 ≡ t.chunks_checked
  pub none_corrupt : t.chunks_corrupt ≡ 0

-- The same behind the count of a chunk that is not yet classed.
record IsOpen (t : Tally) : Type 0 where
  parts : (t.chunks_ok + t.chunks_missing + 1) % 2 ^ 64 ≡ t.chunks_checked
  none_corrupt : t.chunks_corrupt ≡ 0

tally_ok-IsCounted : (t : Tally) → IsOpen t → IsCounted (tally_ok t)
unfolding tally_ok increment
tally_ok-IsCounted t h = record { parts = omega (arith, h.parts); none_corrupt = h.none_corrupt }

tally_missing-IsCounted : (hash : Bytes) (t : Tally) → IsOpen t → IsCounted (tally_missing hash t)
unfolding tally_missing increment
tally_missing-IsCounted hash t h = record {
  parts = omega (arith, h.parts);
  none_corrupt = h.none_corrupt;
}

opened : Tally → Tally
opened t = record t { chunks_checked = increment t.chunks_checked }

opened-IsOpen : (t : Tally) → IsCounted t → IsOpen (opened t)
unfolding opened increment
opened-IsOpen t h = record { parts = omega (arith, h.parts); none_corrupt = h.none_corrupt }

quick_chunk-IsCounted :
    (disk : Disk) (e : Bytes × ChunkMeta) (t : Tally)
    → IsCounted t
    → IsCounted (quick_chunk disk e t)
unfolding quick_chunk opened
quick_chunk-IsCounted disk (hash, meta) t h = elim (Bool-cases (meta.pack_id == 0)) [
  | inl pending ↦ rw pending (tally_ok-IsCounted (opened t) (opened-IsOpen t h))
  | inr stored ↦ elim (Option-cases (read_file disk (pack_filename meta.pack_id))) [
    | inl absent ↦
        rw (stored, absent, quick_chunk)
          (tally_missing-IsCounted hash (opened t) (opened-IsOpen t h))
    | inr (file, found) ↦
        rw (stored, found, quick_chunk) (tally_ok-IsCounted (opened t) (opened-IsOpen t h))
  ]
]

module _ (H : Hashes) (disk : Disk) where
  lift-eq-ok :
      (r : Result PackError Bytes) (bytes : Bytes) → lift_pack_error r ≡ ok bytes → r ≡ ok bytes
  unfolding lift_pack_error
  lift-eq-ok (ok b) bytes h = cc
  lift-eq-ok (err e) bytes h = cc

  pub read_chunk_from_index_sound :
      (index : ChunkIndex) (hash bytes : Bytes)
      → read_chunk_from_index H disk index hash ≡ ok bytes
      → compute_hash H bytes ≡ hash
  unfolding read_chunk_from_index
  read_chunk_from_index_sound index hash bytes h =
      let (meta, found, later) = >>=-eq-ok (ok_or (get index hash) _) _ h in
      let (unit, stored, last) = >>=-eq-ok (ensure (not (meta.pack_id == 0)) _) _ later in
      read_chunk_sound H disk meta.pack_id meta.pack_offset hash bytes
        (lift-eq-ok (Reader.read_chunk H disk meta.pack_id meta.pack_offset hash) bytes last)

  check_read-IsCounted :
      (hash : Bytes) (r : Result ReadError Bytes) (t : Tally)
      → ((bytes : Bytes) → r ≡ ok bytes → compute_hash H bytes ≡ hash)
      → IsOpen t
      → IsCounted (check_read H disk hash r t)
  unfolding check_read
  check_read-IsCounted hash (err e) t sound h = tally_missing-IsCounted hash t h
  check_read-IsCounted hash (ok bytes) t sound h =
      rw ((eq_bytes_iff (compute_hash H bytes) hash).1 (sound bytes refl)) (tally_ok-IsCounted t h)

  check_chunk-IsCounted :
      (index : ChunkIndex) (hash : Bytes) (t : Tally)
      → IsCounted t
      → IsCounted (check_chunk H disk index hash t)
  unfolding check_chunk opened
  check_chunk-IsCounted index hash t h =
      check_read-IsCounted hash (read_chunk_from_index H disk index hash) (opened t)
        (λ bytes. read_chunk_from_index_sound index hash bytes) (opened-IsOpen t h)

  check_read-checked :
      (hash : Bytes) (r : Result ReadError Bytes) (t : Tally)
      → (check_read H disk hash r t).chunks_checked ≡ t.chunks_checked
  unfolding check_read tally_ok tally_missing
  check_read-checked hash (err e) t = refl
  check_read-checked hash (ok bytes) t = ground arith

  check_chunks-checked :
      (index : ChunkIndex) (hashes : List Bytes) (t : Tally)
      → t.chunks_checked % 2 ^ 64 ≡ t.chunks_checked
      → (check_chunks H disk index hashes t).chunks_checked
        ≡ (t.chunks_checked + length hashes) % 2 ^ 64
  unfolding check_chunks check_chunk for_each increment
  check_chunks-checked index [] t h = omega arith
  check_chunks-checked index (hash ∷ hashes) t h =
      let step =
        check_read-checked hash (read_chunk_from_index H disk index hash)
          (record t { chunks_checked = increment t.chunks_checked }) in
      omega (
        arith,
        step,
        check_chunks-checked index hashes (check_chunk H disk index hash t) (omega (arith, step)),
      )

quick_chunk-checked :
    (disk : Disk) (e : Bytes × ChunkMeta) (t : Tally)
    → (quick_chunk disk e t).chunks_checked ≡ (t.chunks_checked + 1) % 2 ^ 64
unfolding quick_chunk tally_ok tally_missing increment
quick_chunk-checked disk (hash, meta) t = ground arith

quick_loop-checked :
    (disk : Disk) (entries : List (Bytes × ChunkMeta)) (t : Tally)
    → t.chunks_checked % 2 ^ 64 ≡ t.chunks_checked
    → (for_each (quick_chunk disk) entries t).chunks_checked
      ≡ (t.chunks_checked + length entries) % 2 ^ 64
unfolding for_each
quick_loop-checked disk [] t h = omega arith
quick_loop-checked disk (e ∷ entries) t h =
    let step = quick_chunk-checked disk e t in
    omega
      (arith, step, quick_loop-checked disk entries (quick_chunk disk e t) (omega (arith, step)))

length-all_hashes :
    (entries : List (Bytes × ChunkMeta))
    → length (all_hashes (record { entries = entries })) ≡ length entries
unfolding all_hashes
length-all_hashes [] = refl
length-all_hashes (e ∷ entries) = ap suc (length-all_hashes entries)

-- How many chunks a level looks at.
unfoldable pub chunks_at : VerifyLevel → ℕ → ℕ
chunks_at quick n = n
chunks_at full n = n
chunks_at (sample k) n = min k n

-- The counters of a result for so many chunks.
pub record Counts (n : ℕ) (r : VerifyResult) : Type 0 where
  pub checked : r.chunks_checked ≡ n % 2 ^ 64
  pub parts : (r.chunks_ok + r.chunks_missing) % 2 ^ 64 ≡ r.chunks_checked
  pub none_corrupt : r.chunks_corrupt ≡ 0

module _ (H : Hashes) (shuffle : List Bytes → List Bytes) (st : Stored) where
  quick_verify-Counts :
      (index : ChunkIndex) → Counts (size_of index) (quick_verify H shuffle st index)
  unfolding quick_verify report quick_chunks size_of
  quick_verify-Counts index =
      let t0 = start (check_packs H shuffle st) in
      let counted =
        for_each-keeps (quick_chunk st.disk) IsCounted (quick_chunk-IsCounted st.disk) index.entries
          t0 (record { parts = omega arith; none_corrupt = refl }) in
      record {
        checked = omega (arith, quick_loop-checked st.disk index.entries t0 refl);
        parts = counted.parts;
        none_corrupt = counted.none_corrupt;
      }

  deep_verify-Counts :
      (level : VerifyLevel) (index : ChunkIndex)
      → Counts
          (length (hashes_to_verify H shuffle st level (all_hashes index)))
          (deep_verify H shuffle st level index)
  unfolding deep_verify report check_chunks
  deep_verify-Counts level index =
      let t0 = start (check_packs H shuffle st) in
      let hashes = hashes_to_verify H shuffle st level (all_hashes index) in
      let counted =
        for_each-keeps (check_chunk H st.disk index) IsCounted
          (check_chunk-IsCounted H st.disk index) hashes t0
          (record { parts = omega arith; none_corrupt = refl }) in
      record {
        checked = omega (arith, check_chunks-checked H st.disk index hashes t0 refl);
        parts = counted.parts;
        none_corrupt = counted.none_corrupt;
      }

  -- At every level the chunks checked are, modulo 2^64, all of the index, or in a sample as many
  -- as were asked for, at most all; those found fine and those missing add up to them modulo
  -- 2^64, and no chunk is ever counted as corrupt. The shuffle keeps the number of hashes.
  pub verify_at-Counts :
      (level : VerifyLevel) (index : ChunkIndex)
      → ((hashes : List Bytes) → length (shuffle hashes) ≡ length hashes)
      → Counts (chunks_at level (size_of index)) (verify_at H shuffle st level index)
  unfolding verify_at chunks_at hashes_to_verify size_of
  verify_at-Counts quick index same = quick_verify-Counts index
  verify_at-Counts full index same =
      subst (λ n. Counts n (deep_verify H shuffle st full index)) (full_size index)
        (deep_verify-Counts full index)
    where
      full_size :
          (index : ChunkIndex)
          → length (hashes_to_verify H shuffle st full (all_hashes index)) ≡ size_of index
      full_size index = length-all_hashes index.entries
  verify_at-Counts (sample k) index same =
      subst (λ n. Counts n (deep_verify H shuffle st (sample k) index)) (sample_size index)
        (deep_verify-Counts (sample k) index)
    where
      sample_size :
          (index : ChunkIndex)
          → length (hashes_to_verify H shuffle st (sample k) (all_hashes index))
            ≡ min k (size_of index)
      sample_size index = omega (
        arith,
        length-take (min k (length (all_hashes index))) (shuffle (all_hashes index)),
        same (all_hashes index),
        length-all_hashes index.entries,
      )
