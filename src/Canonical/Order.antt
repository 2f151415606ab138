-- ===== src/Canonical/Order.antt =====
-- Orders of texts, and the order by code points.
use anastom.Prelude.{
  ℕ, Bool, true, false, ◌≡◌, refl, ap₂, String, List, [], ◌∷◌, number_equality, arith,
}
use text.Mathlib.TextEquality.{codes_equal}
use Prim.Native.Char.{Char, code}
use anastom.Store.Checks.{codes}
use anastom.Store.Snapshots.{codes_le}

-- What is asked of the order of texts.
pub record TextOrder (before : String → String → Bool) : Type 0 where
  pub total : (a b : String) → before a b ≡ false → before b a ≡ true
  pub antisymmetric : (a b : String) → before a b ≡ true → before b a ≡ true → a ≡ b
  pub transitive : (a b c : String) → before a b ≡ true → before b c ≡ true → before a c ≡ true

codes_le_total : (xs ys : List ℕ) → codes_le xs ys ≡ false → codes_le ys xs ≡ true
unfolding codes_le
codes_le_total [] ys h = cc
codes_le_total (x ∷ xs) [] h = refl
codes_le_total (x ∷ xs) (y ∷ ys) h = ground (arith, codes_le_total xs ys)

codes_le_antisymmetric : (xs ys : List ℕ) → codes_le xs ys ≡ true → codes_le ys xs ≡ true → xs ≡ ys
unfolding codes_le
codes_le_antisymmetric [] [] h k = refl
codes_le_antisymmetric [] (y ∷ ys) h k = cc
codes_le_antisymmetric (x ∷ xs) [] h k = cc
codes_le_antisymmetric (x ∷ xs) (y ∷ ys) h k = ground (arith, codes_le_antisymmetric xs ys)

codes_le_transitive :
    (xs ys zs : List ℕ) → codes_le xs ys ≡ true → codes_le ys zs ≡ true → codes_le xs zs ≡ true
unfolding codes_le
codes_le_transitive [] ys zs h k = refl
codes_le_transitive (x ∷ xs) [] zs h k = cc
codes_le_transitive (x ∷ xs) (y ∷ ys) [] h k = cc
codes_le_transitive (x ∷ xs) (y ∷ ys) (z ∷ zs) h k = ground (arith, codes_le_transitive xs ys zs)

abbrev pub by_codes : String → String → Bool
by_codes a b = codes_le (codes a) (codes b)

code_injective : (c d : Char) → code c ≡ code d → c ≡ d
code_injective c d h = codes_equal c d (ground arith)

codes_injective : (s t : String) → codes s ≡ codes t → s ≡ t
unfolding codes
codes_injective String.[] String.[] h = refl
codes_injective String.[] (String.◌∷◌ d t) h = cc
codes_injective (String.◌∷◌ c s) String.[] h = cc
codes_injective (String.◌∷◌ c s) (String.◌∷◌ d t) h =
    ap₂ String.◌∷◌ (code_injective c d (ground arith)) (codes_injective s t (ground arith))

pub by_codes-TextOrder : TextOrder by_codes
by_codes-TextOrder = record {
  total = λ a b. codes_le_total (codes a) (codes b);
  antisymmetric = λ a b h k. codes_injective a b (codes_le_antisymmetric (codes a) (codes b) h k);
  transitive = λ a b c. codes_le_transitive (codes a) (codes b) (codes c);
}
