-- ===== src/Base/Loops.antt =====
-- A loop over a collection, and the rule for what a clean end says about every round.
use mathlib.Core.Logic.{◌↔◌}
use mathlib.Core.List.{List, [], ◌∷◌}
use backup_shield.Base.Lists.{All}

-- `for x in xs { ... }` over the state that its body changes.
unfoldable pub for_each {ℓ κ} : {A : Type ℓ} {S : Type κ} → (A → S → S) → List A → S → S
for_each body [] s = s
for_each body (x ∷ xs) s = for_each body xs (body x s)

-- If a round ends clean exactly when it started clean and its element passes, then so does the loop
-- for all elements.
pub for_each-clean {ℓ κ} :
    {A : Type ℓ} {S : Type κ} (body : A → S → S) (Clean : S → Type 0) (Passes : A → Type 0)
    → ((x : A) (s : S) → Clean (body x s) ↔ (Clean s × Passes x))
    → (xs : List A) (s : S) → Clean (for_each body xs s) ↔ (Clean s × All Passes xs)
unfolding for_each
for_each-clean body Clean Passes each [] s = (λ c. (c, tt), λ c. c.0)
for_each-clean body Clean Passes each (x ∷ xs) s =
    let later = for_each-clean body Clean Passes each xs (body x s) in
    (
      λ c. (((each x s).0 (later.0 c).0).0, (((each x s).0 (later.0 c).0).1, (later.0 c).1)),
      λ c. later.1 ((each x s).1 (c.0, c.1.0), c.1.1),
    )

-- What every round keeps, the loop keeps.
pub for_each-keeps {ℓ κ} :
    {A : Type ℓ} {S : Type κ} (body : A → S → S) (Holds : S → Type 0)
    → ((x : A) (s : S) → Holds s → Holds (body x s))
    → (xs : List A) (s : S) → Holds s
    → Holds (for_each body xs s)
unfolding for_each
for_each-keeps body Holds each [] s h = h
for_each-keeps body Holds each (x ∷ xs) s h =
    for_each-keeps body Holds each xs (body x s) (each x s h)

-- If no round turns an unclean state clean, the loop does not.
pub for_each-back {ℓ κ} :
    {A : Type ℓ} {S : Type κ} (body : A → S → S) (Clean : S → Type 0)
    → ((x : A) (s : S) → Clean (body x s) → Clean s)
    → (xs : List A) (s : S) → Clean (for_each body xs s)
    → Clean s
unfolding for_each
for_each-back body Clean each [] s c = c
for_each-back body Clean each (x ∷ xs) s c =
    each x s (for_each-back body Clean each xs (body x s) c)

-- The same, where the elements have a property that the rounds need.
pub for_each-keeps_all {ℓ κ} :
    {A : Type ℓ} {S : Type κ} (body : A → S → S) (P : A → Type 0) (Holds : S → Type 0)
    → ((x : A) (s : S) → P x → Holds s → Holds (body x s))
    → (xs : List A) (s : S) → All P xs
    → Holds s
    → Holds (for_each body xs s)
unfolding for_each
for_each-keeps_all body P Holds each [] s p h = h
for_each-keeps_all body P Holds each (x ∷ xs) s p h =
    for_each-keeps_all body P Holds each xs (body x s) p.1 (each x s p.0 h)
