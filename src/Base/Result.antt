-- ===== src/Base/Result.antt =====
-- Results of fallible code: `anyhow::Result`, with the model's own type of errors.
use mathlib.Core.Path.{◌≡◌, refl, subst}
use mathlib.Core.Logic.{◌⊎◌, inl, inr}
use mathlib.Core.Bool.{Bool, true, false}
use mathlib.Core.Option.{Option, none, some}

pub data Result {κ ℓ} (E : Type ℓ) (A : Type κ) : Type (κ ⊔ ℓ) where
  err : E → Result E A
  ok : A → Result E A

-- The operator `?`: an error ends the function.
infixl 5 ◌>>=◌
abbrev pub ◌>>=◌ {κ ℓ ν} :
    {E : Type κ} {X : Type ℓ} {Y : Type ν} (first : Result E X) (next : X → Result E Y) → Result E Y
err failure >>= next = err failure
ok value >>= next = next value

infixl 5 ◌>>◌
abbrev pub ◌>>◌ {κ ν} :
    {E : Type κ} {Y : Type ν} (first : Result E (Unit {0})) (then_result : Result E Y) → Result E Y
first >> then_result = first >>= λ nothing. then_result

-- `if !test { bail!(e) }`
abbrev pub ensure {μ} : {E : Type μ} → Bool → E → Result E (Unit {0})
ensure true e = ok tt
ensure false e = err e

-- `ok_or(e)`
abbrev pub ok_or {ℓ μ} : {E : Type μ} {A : Type ℓ} → Option A → E → Result E A
ok_or none e = err e
ok_or (some a) e = ok a

-- A chain that returns has returned at each link.
pub >>=-eq-ok {κ ℓ ν} :
    {E : Type κ} {X : Type ℓ} {Y : Type ν} (first : Result E X) (next : X → Result E Y) {y : Y}
    → first >>= next ≡ ok y
    → (x : X) × (first ≡ ok x) × (next x ≡ ok y)
>>=-eq-ok (err failure) next returned = cc
>>=-eq-ok (ok value) next returned = (value, refl, returned)

-- To split on a computed result and keep the equation.
pub Result-cases {κ ℓ} :
    {E : Type ℓ} {A : Type κ} (r : Result E A) → ((e : E) × (r ≡ err e)) ⊎ ((a : A) × (r ≡ ok a))
Result-cases (err e) = inl (e, refl)
Result-cases (ok a) = inr (a, refl)

pub bind_assoc {ℓ κ ν μ} :
    {E : Type μ} {A : Type ℓ} {B : Type κ} {C : Type ν} (m : Result E A) (f : A → Result E B)
    (g : B → Result E C)
    → ((m >>= f) >>= g) ≡ (m >>= λ a. f a >>= g)
bind_assoc (ok a) f g = refl
bind_assoc (err e) f g = refl

-- What a successful result satisfies. The constructors are rules for `search`.
pub data Post {ℓ κ μ} {E : Type μ} {A : Type ℓ} (P : A → Type κ)
    : Result E A → Type (ℓ ⊔ κ ⊔ μ) where
  holds : (a : A) → P a → Post P (ok a)
  fails : (e : E) → Post P (err e)

pub Post-bind {ℓ κ ν μ} :
    {E : Type μ} {A : Type ℓ} {B : Type κ} {P : B → Type ν} (m : Result E A) (f : A → Result E B)
    → ((a : A) → Post P (f a))
    → Post P (m >>= f)
Post-bind (ok a) f h = h a
Post-bind (err e) f h = fails e

pub Post-ensure {κ ν μ} :
    {E : Type μ} {B : Type κ} {P : B → Type ν} (b : Bool) (e : E) (m : Result E B)
    → (b ≡ true → Post P m)
    → Post P (ensure b e >> m)
Post-ensure true e m h = h refl
Post-ensure false e m h = fails e

pub Post-ok {ℓ κ μ} :
    {E : Type μ} {A : Type ℓ} {P : A → Type κ} {r : Result E A} {a : A} → Post P r → r ≡ ok a → P a
Post-ok {P} (holds b h) e = subst P (cc) h
Post-ok (fails x) e = cc

pub ruleset post_rules = (holds, fails, Post-bind, Post-ensure)
