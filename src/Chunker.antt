-- ===== src/Chunker.antt =====
-- crates/core/src/chunker.rs: the Buzhash rolling hash and the content-defined chunker.
-- A `u8`, `u32`, `u64` or `usize` is a number with its wrap-around written out.
pub mod Reference
pub mod Sizes
pub mod Mask
pub mod Total
pub mod Restart
mod Tests
use backup_shield.Base.{
  ℕ, zero, suc, ◌+◌, ◌-◌, ◌*◌, ◌/◌, ◌%◌, ◌^◌, bit_xor, List, [], ◌∷◌, ◌++◌, ltb, leb, ◌==◌,
  if◌then◌else◌, ◌||◌, Bool, get_or, set, take, drop, replicate, length, Bytes,
}
use backup_shield.Base.Result.{Result, ok, err, ◌>>=◌}

pub record Buzhash : Type 0 where
  pub hash : ℕ
  pub window : Bytes
  pub window_pos : ℕ
  pub table : List ℕ

-- One round of the 64-bit xorshift of `init_table`.
unfoldable pub xorshift : ℕ → ℕ
xorshift state =
    let a = bit_xor state (state * 2 ^ 13 % 2 ^ 64) in
    let b = bit_xor a (a / 2 ^ 7) in bit_xor b (b * 2 ^ 17 % 2 ^ 64)

-- `for entry in self.table.iter_mut()`: one entry for each round, `state as u32`.
unfoldable pub fill_table : ℕ → ℕ → List ℕ
fill_table zero state = []
fill_table (suc n) state = let next = xorshift state in (next % 2 ^ 32) ∷ fill_table n next

unfoldable pub init_table : Buzhash → Buzhash
unfolding fill_table xorshift
init_table bh = record bh { table = fill_table (length bh.table) 0x0123456789abcdef }

unfoldable pub new_buzhash : Buzhash
unfolding init_table
new_buzhash =
    init_table
      (record { hash = 0; window = replicate 32 0; window_pos = 0; table = replicate 256 0 })

unfoldable pub reset : Buzhash → Buzhash
reset bh = record bh { hash = 0; window = replicate 32 0; window_pos = 0 }

-- `u32::rotate_left` by fewer than 32 bits: the two fields do not overlap, so `|` is a sum.
unfoldable pub rotate_left : ℕ → ℕ → ℕ
rotate_left v n = v * 2 ^ n % 2 ^ 32 + v / 2 ^ (32 - n)

unfoldable pub update : Buzhash → ℕ → Buzhash
unfolding rotate_left
update bh byte =
    let oldest = get_or bh.window bh.window_pos 0 in
    let without = bit_xor bh.hash (rotate_left (get_or bh.table oldest 0) 31) in
    let shifted = rotate_left without 1 in
    record bh {
      hash = bit_xor shifted (get_or bh.table byte 0);
      window = set bh.window bh.window_pos byte;
      window_pos = (bh.window_pos + 1) % 32;
    }

unfoldable pub hash_value : Buzhash → ℕ
hash_value bh = bh.hash

pub record Chunker : Type 0 where
  pub min_size : ℕ
  pub max_size : ℕ
  pub target_size : ℕ
  pub mask : ℕ

pub data SizeError : Type 0 where
  min_is_zero max_not_above_min target_out_of_range : SizeError

-- `usize::next_power_of_two`: the powers up to 2 ^ 63 are tried; past them the result wraps to 0,
-- as in a release build.
unfoldable pub power_from : ℕ → ℕ → ℕ → ℕ
power_from zero p n = 0
power_from (suc rounds) p n =
    let larger = power_from rounds (p * 2) n in if leb n p then p else larger

unfoldable pub next_power_of_two : ℕ → ℕ
unfolding power_from
next_power_of_two n = power_from 64 1 n

unfoldable pub derive_mask : ℕ → ℕ
derive_mask target_size =
    let half = next_power_of_two target_size / 2 in (if half == 0 then 1 else half) % 2 ^ 32

unfoldable pub new_chunker : ℕ → ℕ → ℕ → Result SizeError Chunker
new_chunker min_size max_size target_size =
    if min_size == 0
    then err min_is_zero
    else if leb max_size min_size
    then err max_not_above_min
    else if ltb target_size min_size || ltb max_size target_size
    then err target_out_of_range
    else ok (record {
      min_size = min_size;
      max_size = max_size;
      target_size = target_size;
      mask = derive_mask target_size;
    })

-- `hash % mask` panics when the mask is 0.
pub data Panic : Type 0 where
  remainder_by_zero : Panic

-- The three locals of `chunk_data`.
pub record ChunkState : Type 0 where
  pub buzhash : Buzhash
  pub chunks : List Bytes
  pub chunk_start : ℕ

-- `data[from..=i]`
unfoldable pub slice_to : Bytes → ℕ → ℕ → Bytes
slice_to bytes from i = take (i + 1 - from) (drop from bytes)

-- `chunks.push(data[chunk_start..=i].to_vec()); chunk_start = i + 1; buzhash.reset();`
unfoldable pub cut : Bytes → ℕ → ChunkState → ChunkState
unfolding slice_to reset
cut bytes i st = record {
  buzhash = reset st.buzhash;
  chunks = st.chunks ++ slice_to bytes st.chunk_start i ∷ [];
  chunk_start = i + 1;
}

-- The rolling-hash test, `h % self.mask == self.mask - 1`.
unfoldable pub at_boundary : Chunker → ℕ → Result Panic Bool
at_boundary c h = if c.mask == 0 then err remainder_by_zero else ok (h % c.mask == c.mask - 1)

-- The body of the loop over the bytes.
unfoldable pub chunk_step : Chunker → Bytes → ℕ → ℕ → ChunkState → Result Panic ChunkState
unfolding hash_value
chunk_step c bytes i byte st =
    let pos_in_chunk = i - st.chunk_start in
    let slid = record st { buzhash = update st.buzhash byte } in
    if ltb (pos_in_chunk + 1) c.min_size
    then ok slid
    else if leb c.max_size (pos_in_chunk + 1)
    then ok (cut bytes i slid)
    else if leb c.min_size (pos_in_chunk + 1)
    then (at_boundary c (hash_value slid.buzhash) >>= λ hit.
        ok (if hit then cut bytes i slid else slid))
    else ok slid

unfoldable pub chunk_loop : Chunker → Bytes → ℕ → Bytes → ChunkState → Result Panic ChunkState
chunk_loop c bytes i [] st = ok st
chunk_loop c bytes i (byte ∷ rest) st = do
  next ← chunk_step c bytes i byte st
  chunk_loop c bytes (i + 1) rest next

-- "Remaining bytes form the last chunk (if any)."
unfoldable pub last_chunk : Bytes → ChunkState → List Bytes
last_chunk bytes st =
    if ltb st.chunk_start (length bytes)
    then st.chunks ++ drop st.chunk_start bytes ∷ []
    else st.chunks

unfoldable pub chunk_data : Chunker → Bytes → Result Panic (List Bytes)
chunk_data c [] = ok []
chunk_data c (byte ∷ rest) = do
  st ←
      chunk_loop c (byte ∷ rest) 0 (byte ∷ rest)
        (record { buzhash = new_buzhash; chunks = []; chunk_start = 0 })
  ok (last_chunk (byte ∷ rest) st)
