-- ===== src/Ecc/Matrix/Encoding.antt =====
-- `build_encoding_matrix`: the identity over rows of bytes.
use backup_shield.Base.{ℕ, ◌+◌, ◌*◌, ◌%◌, ◌<◌, refl, ◌==◌, ◌||◌, ltb, if◌then◌else◌, arith}
use backup_shield.Ecc.Field.Tables.{power, log-power}
use backup_shield.Ecc.Matrix.{get, vandermonde, build_encoding_matrix}
use backup_shield.Ecc.Matrix.Cells.{Shows, Shows-congruent, new_matrix-Shows}
use backup_shield.Ecc.Matrix.Loops.{fill_loop-Shows, rows_loop-Shows}

vandermonde_entry : ℕ → ℕ → ℕ
vandermonde_entry i j = if i == 0 || j == 0 then 1 else power ((i * j) % 255)

vandermonde_entry_byte : (i j : ℕ) → vandermonde_entry i j < 256
unfolding vandermonde_entry
vandermonde_entry_byte i j = ground (arith, (log-power ((i * j) % 255) (omega arith)).2)

vandermonde-Shows : (rows cols : ℕ) → Shows rows cols vandermonde_entry (vandermonde rows cols)
unfolding vandermonde vandermonde_entry
vandermonde-Shows rows cols =
    fill_loop-Shows rows cols vandermonde_entry vandermonde_entry (λ i j small low. refl)

-- The identity over rows of powers.
unfoldable pub encoding_entry : ℕ → ℕ → ℕ → ℕ
unfolding vandermonde_entry
encoding_entry data_shards r c =
    if ltb r data_shards then (if r == c then 1 else 0) else vandermonde_entry r c

pub encoding_entry_byte : (n r c : ℕ) → encoding_entry n r c < 256
unfolding encoding_entry
encoding_entry_byte n r c = ground (arith, vandermonde_entry_byte r c)

pub build_encoding_matrix-Shows :
    (data_shards parity_shards : ℕ)
    → Shows
        (data_shards + parity_shards)
        data_shards
        (encoding_entry data_shards)
        (build_encoding_matrix data_shards parity_shards)
unfolding build_encoding_matrix encoding_entry
build_encoding_matrix-Shows n p =
    Shows-congruent (n + p) n _ (encoding_entry n) _
      (rows_loop-Shows (n + p) n p n (λ i. n + i) (λ i j. get (vandermonde (n + p) n) (n + i) j)
        vandermonde_entry _ _ (λ i. refl) (omega arith)
        (λ i j small low. (vandermonde-Shows (n + p) n).entries (n + i) j (omega arith) low)
        (rows_loop-Shows (n + p) n n 0 (λ i. i) (λ i j. if i == j then 1 else 0)
          (λ i j. if i == j then 1 else 0) (λ r c. 0) _ (λ i. omega arith) (omega arith)
          (λ i j small low. refl) (new_matrix-Shows (n + p) n)))
      (λ r c below inside. ground arith)
