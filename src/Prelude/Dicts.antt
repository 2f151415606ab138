-- ===== src/Prelude/Dicts.antt =====
-- A JavaScript object or `Map` with text keys, as an association list in insertion order.
use Prim.Native.String.{String}
use mathlib.Core.Path.{◌≡◌, refl}
use mathlib.Core.Bool.{true, false}
use mathlib.Core.List.{List, [], ◌∷◌}
use mathlib.Core.Option.{Option, none, some}
use native.Mathlib.Omega.{arith}
use text.Mathlib.TextEquality.{eq_iff}
use anastom.Prelude.Tests.{◌==◌, text_equality, if◌then◌else◌}
use anastom.Prelude.Lists.{All}

abbrev pub Dict {ℓ} : Type ℓ → Type ℓ
Dict V = List (String × V)

module _ {ℓ} {V : Type ℓ} where
  -- The value under a key, if the key is there.
  abbrev pub lookup : String → Dict V → Option V
  lookup key [] = none
  lookup key ((head, value) ∷ rest) = if head == key then some value else lookup key rest

  -- A write to a key: in place if it is there, at the end if not.
  abbrev pub insert : String → V → Dict V → Dict V
  insert key new [] = (key, new) ∷ []
  insert key new ((head, value) ∷ rest) =
      if head == key then (head, new) ∷ rest else (head, value) ∷ insert key new rest

  abbrev pub keys : Dict V → List String
  keys [] = []
  keys ((k, v) ∷ m) = k ∷ keys m

  abbrev pub values : Dict V → List V
  values [] = []
  values ((k, v) ∷ m) = v ∷ values m

  -- Reading behind a write.
  pub lookup-insert :
      (key other : String) (new : V) (entries : Dict V)
      → lookup other (insert key new entries)
        ≡ (if key == other then some new else lookup other entries)
  lookup-insert key other new [] = refl
  lookup-insert key other new ((head, value) ∷ rest) = ground (
    arith,
    lookup-insert key other new rest,
    eq_iff head other,
    eq_iff head key,
    eq_iff key other,
  )

  -- A write to a present key keeps the keys.
  pub keys-insert :
      (k : String) (v : V) (m : Dict V) {w : V} → lookup k m ≡ some w → keys (insert k v m) ≡ keys m
  keys-insert k v [] h = cc
  keys-insert k v ((j, u) ∷ m) {w} h = ground (arith, keys-insert k v m {w = w})

  pub All-values-insert {κ} :
      (P : V → Type κ) (k : String) (v : V) (m : Dict V)
      → All P (values m)
      → P v
      → All P (values (insert k v m))
  All-values-insert P k v [] h p = (p, h)
  All-values-insert P k v ((j, u) ∷ m) h p =
      elim (j == k) as (λ b. All P (values (if b then (j, v) ∷ m else (j, u) ∷ insert k v m))) [
        | true ↦ (p, h.1)
        | false ↦ (h.0, All-values-insert P k v m h.1 p)
      ]

  pub All-lookup {κ} :
      (P : V → Type κ) (k : String) (m : Dict V) {v : V}
      → All P (values m)
      → lookup k m ≡ some v
      → P v
  All-lookup P k [] h e = cc
  All-lookup P k ((j, u) ∷ m) {v} h e = ground (arith, h.0, All-lookup P k m {v = v} h.1)
