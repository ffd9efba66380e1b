-- ===== src/Ecc/Parity/RoundTrip.antt =====
-- `repair_chunks` on what is left of the chunks that `compute_parity` has protected.
use backup_shield.Base.{
  ℕ, zero, suc, ◌+◌, ◌-◌, ◌≤◌, ◌<◌, ◌≡◌, ◌⊎◌, sym, ap, ◌∙◌, subst, inl, inr, Bool, true, false,
  Option, none, some, List, [], ◌∷◌, ◌++◌, ◌==◌, get_or, length, replicate, take, map, Bytes, arith,
}
use backup_shield.Base.Result.{ok, err, ◌>>=◌}
use backup_shield.Ecc.Matrix.{singular}
use backup_shield.Ecc.Codec.{new_reed_solomon, ReedSolomon, not_invertible, encode, reconstruct}
use backup_shield.Ecc.Codec.Combine.{get_or-zeros}
use backup_shield.Ecc.Codec.Codeword.{AreBytes, encode-Codeword}
use backup_shield.Ecc.Codec.RoundTrip.{reconstruct-encode, new_codec}
use backup_shield.Ecc.Parity.{
  ParityManager, codec_failed, new_parity_manager, compute_parity, max_length, place_chunks, resize,
  repair_chunks, lift_error, or_empty,
}
use backup_shield.Ecc.Parity.Repaired.{
  Distinct, Undamaged, place_chunks-Placed, none-Placed, or_empty-some, manager_parts,
  parity_encoded, stored_shards,
}

get_or-take_byte :
    (k b : ℕ) (chunk rest : Bytes)
    → ((b : ℕ) → get_or chunk b 0 < 256)
    → ((b : ℕ) → get_or rest b 0 < 256)
    → get_or (take k chunk ++ rest) b 0 < 256
get_or-take_byte zero b chunk rest bytes padding = padding b
get_or-take_byte (suc k) b [] rest bytes padding = padding b
get_or-take_byte (suc k) zero (x ∷ chunk) rest bytes padding = bytes 0
get_or-take_byte (suc k) (suc b) (x ∷ chunk) rest bytes padding =
    get_or-take_byte k b chunk rest (λ b. bytes (suc b)) padding

map-resize_bytes :
    (size : ℕ) (chunks : List Bytes) → AreBytes chunks → AreBytes (map (resize size) chunks)
unfolding resize
map-resize_bytes size [] bytes j b = bytes j b
map-resize_bytes size (chunk ∷ chunks) bytes zero b =
    get_or-take_byte size b chunk (replicate (size - length chunk) 0) (bytes 0)
      (λ b. subst (λ t. t < 256) (sym (get_or-zeros (size - length chunk) b)) (omega arith))
map-resize_bytes size (chunk ∷ chunks) bytes (suc j) b =
    map-resize_bytes size chunks (λ j b. bytes (suc j) b) j b

-- What `repair_chunks` returns once the codec has returned.
repair_result :
    (pm : ParityManager) (available : List (ℕ × Bytes)) (total shard_len : ℕ)
    (shards : List (Option Bytes)) (flags : List Bool)
    → total ≡ pm.data_shards + pm.parity_shards
    → place_chunks total shard_len available (replicate total none) (replicate total false)
      ≡ ok (shards, flags)
    → repair_chunks pm available total shard_len
      ≡ (lift_error (reconstruct pm.rs shards flags) >>= λ after. ok (map or_empty after))
unfolding repair_chunks
repair_result pm available total shard_len shards flags same placed =
    let right_total : (total == pm.data_shards + pm.parity_shards) ≡ true = ground arith in
    rw (right_total, placed)

after_repair :
    (rs : ReedSolomon) (shards : List (Option Bytes)) (flags : List Bool) (all : List Bytes)
    → reconstruct rs shards flags ≡ ok (map some all)
    → (lift_error (reconstruct rs shards flags) >>= λ after. ok (map or_empty after)) ≡ ok all
unfolding lift_error
after_repair rs shards flags all done = rw done (ap ok (or_empty-some all))

after_failure :
    (rs : ReedSolomon) (shards : List (Option Bytes)) (flags : List Bool) (c : ℕ)
    → reconstruct rs shards flags ≡ err (not_invertible (singular c))
    → (lift_error (reconstruct rs shards flags) >>= λ after. ok (map or_empty after))
      ≡ err (codec_failed (not_invertible (singular c)))
unfolding lift_error
after_failure rs shards flags c failed = rw failed

stored_count :
    (n p : ℕ) (rs : ReedSolomon) (chunks parity : List Bytes)
    → new_reed_solomon n p ≡ ok rs
    → AreBytes chunks
    → encode rs (map (resize (max_length chunks)) chunks) ≡ ok parity
    → length (stored_shards chunks parity) ≡ n + p
stored_count n p rs chunks parity made bytes encoded =
    (encode-Codeword n p (map (resize (max_length chunks)) chunks)
      (map-resize_bytes (max_length chunks) chunks bytes) parity
      (subst (λ t. encode t (map (resize (max_length chunks)) chunks) ≡ ok parity)
        (sym (new_codec n p rs made).1) encoded)).total

-- Let `compute_parity` of a manager that `new` made return the parity of chunks of bytes, and let
-- as many chunks as there are data shards at least be available under distinct indices, each of
-- them, at the length of the longest chunk, what was stored under its index. Then `repair_chunks`
-- with the length of the longest chunk returns every chunk, filled with zeros to that length, and
-- every parity chunk, or it fails because a matrix is singular; it fails in no other way.
pub repair_chunks-compute_parity :
    (n p : ℕ) (pm : ParityManager) (chunks parity : List Bytes) (available : List (ℕ × Bytes))
    → new_parity_manager n p ≡ ok pm
    → AreBytes chunks
    → compute_parity pm chunks ≡ ok parity
    → Distinct available
    → Undamaged (max_length chunks) (stored_shards chunks parity) available
    → n ≤ length available
    → (repair_chunks pm available (n + p) (max_length chunks) ≡ ok (stored_shards chunks parity))
      ⊎ ((c : ℕ) × (repair_chunks pm available (n + p) (max_length chunks)
            ≡ err (codec_failed (not_invertible (singular c)))))
repair_chunks-compute_parity n p pm chunks parity available made bytes computed distinct undamaged
      enough =
    let (made_rs, data_n, parity_p) = manager_parts n p pm made in
    let encoded = parity_encoded pm chunks parity computed in
    let shard_len = max_length chunks in
    let all = stored_shards chunks parity in
    let size = stored_count n p pm.rs chunks parity made_rs bytes encoded in
    let (shards, flags, placed, at, count) =
      place_chunks-Placed shard_len all available (replicate (n + p) none) (replicate (n + p) false)
        (none-Placed shard_len (n + p) all available size distinct undamaged) in
    let result =
      repair_result pm available (n + p) shard_len shards flags (omega (arith, data_n, parity_p)) (
        ap
          (λ t.
            place_chunks t shard_len available (replicate (n + p) none) (replicate (n + p) false))
          (sym size)
        ∙ placed) in
    elim (reconstruct-encode n p pm.rs (map (resize shard_len) chunks) parity shards flags made_rs
      (map-resize_bytes shard_len chunks bytes) encoded (at.slots ∙ size) (at.flag_count ∙ size)
      (omega (arith, enough, count)) at.right) [
        | inl repaired ↦ inl (result ∙ after_repair pm.rs shards flags all repaired)
        | inr (c, singular_rows) ↦
            inr (c, result ∙ after_failure pm.rs shards flags c singular_rows)
      ]
