-- ===== src/Prelude/Lists.antt =====
-- Lists: lengths by native numbers, slices, JavaScript's `at(-1)`, `some` and `every`, and a predicate on
-- all items.
use Prim.Native.Nat.{ℕ, zero, suc, ◌+◌}
use mathlib.Core.Path.{◌≡◌, refl, ap}
use mathlib.Core.Logic.{◌↔◌}
use mathlib.Core.Bool.{Bool, true, false, ◌&&◌, ◌||◌}
use mathlib.Core.List.{List, [], ◌∷◌, ◌++◌}
use mathlib.Core.Option.{Option, none, some}
use native.Mathlib.Omega.{arith}

module _ {ℓ} {A : Type ℓ} where
  abbrev pub length : List A → ℕ
  length [] = 0
  length (x ∷ xs) = suc (length xs)

  -- `slice(0, n)` and `slice(n)`.
  abbrev pub take : ℕ → List A → List A
  take zero xs = []
  take (suc n) [] = []
  take (suc n) (x ∷ xs) = x ∷ take n xs

  abbrev pub drop : ℕ → List A → List A
  drop zero xs = xs
  drop (suc n) [] = []
  drop (suc n) (x ∷ xs) = drop n xs

  pub take-append : (xs ys : List A) → take (length xs) (xs ++ ys) ≡ xs
  take-append [] ys = refl
  take-append (x ∷ xs) ys = ap (λ rest. x ∷ rest) (take-append xs ys)

  pub drop-append : (xs ys : List A) → drop (length xs) (xs ++ ys) ≡ ys
  drop-append [] ys = refl
  drop-append (x ∷ xs) ys = drop-append xs ys

  pub length-append : (xs ys : List A) → length (xs ++ ys) ≡ length xs + length ys
  length-append [] ys = omega arith
  length-append (x ∷ xs) ys = omega (arith, length-append xs ys)

  -- `xs.at(-1)`.
  abbrev pub get_last? : List A → Option A
  get_last? [] = none
  get_last? (x ∷ []) = some x
  get_last? (x ∷ y ∷ xs) = get_last? (y ∷ xs)

  -- What a write through the object `xs.at(-1)` leaves behind.
  abbrev pub set_last : List A → A → List A
  set_last [] v = []
  set_last (x ∷ []) v = v ∷ []
  set_last (x ∷ y ∷ xs) v = x ∷ set_last (y ∷ xs) v

  -- `xs.some(p)`, `xs.every(p)`, `xs.find(p)`, `xs.filter(p)`.
  abbrev pub any : (A → Bool) → List A → Bool
  any p [] = false
  any p (x ∷ xs) = p x || any p xs

  abbrev pub all : (A → Bool) → List A → Bool
  all p [] = true
  all p (x ∷ xs) = p x && all p xs

  pub length-set_last : (xs : List A) (v : A) → length (set_last xs v) ≡ length xs
  length-set_last [] v = refl
  length-set_last (x ∷ []) v = refl
  length-set_last (x ∷ y ∷ xs) v = ap suc (length-set_last (y ∷ xs) v)

  pub get_last?-append : (xs : List A) (v : A) → get_last? (xs ++ v ∷ []) ≡ some v
  get_last?-append [] v = refl
  get_last?-append (x ∷ []) v = refl
  get_last?-append (x ∷ y ∷ xs) v = get_last?-append (y ∷ xs) v

  pub get_last?-set_last :
      (xs : List A) {a : A} (v : A) → get_last? xs ≡ some a → get_last? (set_last xs v) ≡ some v
  get_last?-set_last [] v h = cc
  get_last?-set_last (x ∷ []) v h = refl
  get_last?-set_last (x ∷ y ∷ []) v h = refl
  get_last?-set_last (x ∷ y ∷ z ∷ xs) v h = get_last?-set_last (y ∷ z ∷ xs) v h

pub append_empty {ℓ} : {A : Type ℓ} (xs ys : List A) → (xs ++ ys ≡ []) ↔ ((xs ≡ []) × (ys ≡ []))
append_empty [] ys = (λ h. (refl, h), λ (h, k). k)
append_empty (x ∷ xs) ys = (λ h. cc, λ (h, k). cc)

module _ {ℓ κ} {A : Type ℓ} (P : A → Type κ) where
  -- Every item satisfies `P`.
  abbrev pub All : List A → Type κ
  All [] = Unit
  All (x ∷ xs) = P x × All xs

  pub All-append : (xs ys : List A) → All xs → All ys → All (xs ++ ys)
  All-append [] ys hx hy = hy
  All-append (x ∷ xs) ys hx hy = (hx.0, All-append xs ys hx.1 hy)

  pub All-get_last? : (xs : List A) {a : A} → All xs → get_last? xs ≡ some a → P a
  All-get_last? [] h e = cc
  All-get_last? (x ∷ []) {a} h e = ground (arith, h.0)
  All-get_last? (x ∷ y ∷ xs) h e = All-get_last? (y ∷ xs) h.1 e

  pub All-set_last : (xs : List A) (v : A) → All xs → P v → All (set_last xs v)
  All-set_last [] v h p = h
  All-set_last (x ∷ []) v h p = (p, h.1)
  All-set_last (x ∷ y ∷ xs) v h p = (h.0, All-set_last (y ∷ xs) v h.1 p)

abbrev pub concat {ℓ} : {A : Type ℓ} → List (List A) → List A
concat [] = []
concat (xs ∷ xss) = xs ++ concat xss
