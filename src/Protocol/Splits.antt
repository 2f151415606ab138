-- ===== src/Protocol/Splits.antt =====
-- Prefixes of bytes, and the size that a frame begins with.
use anastom.Prelude.{
  ℕ, zero, suc, ◌≤◌, ◌<◌, ◌≡◌, refl, sym, ap, List, [], ◌∷◌, ◌++◌, length, take, drop, arith,
}
use anastom.Protocol.Frames.{read_uint32, write_uint32}

module _ {ℓ} {A : Type ℓ} where
  -- Two ways to split one list: the shorter front begins the longer one.
  pub append_split :
      (front back long rest : List A)
      → front ++ back ≡ long ++ rest
      → length front ≤ length long
      → (middle : List A) × (long ≡ front ++ middle) × (middle ++ rest ≡ back)
  append_split [] back long rest e h = (long, refl, sym e)
  append_split (x ∷ front) back [] rest e h = absurd (omega arith)
  append_split (x ∷ front) back (y ∷ long) rest e h =
      let same : x ≡ y = cc in
      let (middle, whole, left) = append_split front back long rest (cc) (omega arith) in
      (middle, cc, left)

  pub take-front : (xs ys : List A) (n : ℕ) → length xs ≡ n → take n (xs ++ ys) ≡ xs
  take-front [] ys zero h = refl
  take-front [] ys (suc n) h = absurd (omega arith)
  take-front (x ∷ xs) ys zero h = absurd (omega arith)
  take-front (x ∷ xs) ys (suc n) h = ap (λ r. x ∷ r) (take-front xs ys n (omega arith))

  pub drop-front : (xs ys : List A) (n : ℕ) → length xs ≡ n → drop n (xs ++ ys) ≡ ys
  drop-front [] ys zero h = refl
  drop-front [] ys (suc n) h = absurd (omega arith)
  drop-front (x ∷ xs) ys zero h = absurd (omega arith)
  drop-front (x ∷ xs) ys (suc n) h = drop-front xs ys n (omega arith)

  pub length-drop-le : (n : ℕ) (xs : List A) → length (drop n xs) ≤ length xs
  length-drop-le zero xs = omega arith
  length-drop-le (suc n) [] = omega arith
  length-drop-le (suc n) (x ∷ xs) = omega (arith, length-drop-le n xs)

pub read_uint32-write_uint32 :
    (n : ℕ) (rest : List ℕ) → n < 4_294_967_296 → read_uint32 (write_uint32 n ++ rest) ≡ n
unfolding read_uint32
read_uint32-write_uint32 n rest h = omega arith
