-- ===== src/Pack/Name/Distinct.antt =====
-- The names that one flush uses differ from one another and from those of other packs.
use backup_shield.Base.{
  ℕ, ◌-◌, ◌^◌, ◌<◌, ◌≡◌, refl, sym, ap, ◌∙◌, true, false, Bool-cases, inl, inr, none, [], ◌∷◌, ◌++◌,
  length, take, drop, take-append-drop, Bytes, arith, eq_bytes, eq_of_eq_bytes,
}
use backup_shield.Pack.Name.{suffix, pack_filename, temp_filename, ends_with, pack_id_of}
use backup_shield.Pack.Name.RoundTrip.{pack_id_of-pack_filename}

-- Two ids below 2^64 whose packs have the same file name are equal.
pub pack_filename-injective :
    (a b : ℕ) → a < 2 ^ 64 → b < 2 ^ 64 → pack_filename a ≡ pack_filename b → a ≡ b
pack_filename-injective a b p q e = cc (pack_id_of-pack_filename a p, pack_id_of-pack_filename b q)

last : Bytes → ℕ
last [] = 0
last (b ∷ []) = b
last (b ∷ c ∷ rest) = last (c ∷ rest)

last-append : (xs : Bytes) (b : ℕ) (ys : Bytes) → last (xs ++ b ∷ ys) ≡ last (b ∷ ys)
unfolding last
last-append [] b ys = refl
last-append (x ∷ []) b ys = refl
last-append (x ∷ y ∷ rest) b ys = last-append (y ∷ rest) b ys

last_of_ends_with : (name : Bytes) → ends_with name suffix ≡ true → last name ≡ 107
unfolding ends_with
last_of_ends_with name h =
    let tail : drop (length name - 5) name ≡ suffix =
      eq_of_eq_bytes (drop (length name - 5) name) suffix (ground arith) in
    ap last (
      sym (take-append-drop (length name - 5) name)
      ∙ ap (λ t. take (length name - 5) name ++ t) tail)
    ∙ (last-append (take (length name - 5) name) 46 _ ∙ unfold last in refl)

last-temp_filename : (id : ℕ) → last (temp_filename id) ≡ 112
unfolding temp_filename
last-temp_filename id = last-append (pack_filename id) 46 _ ∙ unfold last in refl

-- The scan of `list_pack_ids` passes over the temporary file of every pack id.
pub pack_id_of-temp_filename : (id : ℕ) → pack_id_of (temp_filename id) ≡ none
unfolding pack_id_of
pack_id_of-temp_filename id = elim (Bool-cases (ends_with (temp_filename id) suffix)) [
  | inl h ↦ absurd (omega (arith, last_of_ends_with (temp_filename id) h, last-temp_filename id))
  | inr h ↦ rw h (ground arith)
]

pub temp_ne_pack : (a b : ℕ) → b < 2 ^ 64 → eq_bytes (temp_filename a) (pack_filename b) ≡ false
temp_ne_pack a b p = elim (Bool-cases (eq_bytes (temp_filename a) (pack_filename b))) [
  | inl e ↦ absurd (
      cc (
        pack_id_of-temp_filename a,
        pack_id_of-pack_filename b p,
        eq_of_eq_bytes (temp_filename a) (pack_filename b) e,
      ))
  | inr e ↦ e
]
