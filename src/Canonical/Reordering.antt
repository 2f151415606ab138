-- ===== src/Canonical/Reordering.antt =====
-- Canonical JSON does not depend on the order in which fields were inserted
-- (packages/core/src/canonical.ts).
use anastom.Prelude.{
  ℕ, Bool, true, false, ◌≡◌, ◌≢◌, ◌∙◌, refl, ap, ap₂, String, List, [], ◌∷◌, ◌++◌, arith, ◌⊎◌, inl,
  inr, Bool-cases,
}
use anastom.Json.{JsonValue, JsonItems, JsonFields, array, object, no_items, item, no_fields, field}
use anastom.Canonical.Order.{TextOrder}
use anastom.Canonical.{
  canonical_json, canonical_items, canonical_fields, insert_key, comma_joined, members, sort_keys,
}

-- The same value with the fields of its objects, at any depth, in another order.
mutual
  pub data Reordered : JsonValue → JsonValue → Type 0 where
    same : (v : JsonValue) → Reordered v v
    in_array : {xs ys : JsonItems} → ReorderedItems xs ys → Reordered (array xs) (array ys)
    in_object : {fs gs : JsonFields} → ReorderedFields fs gs → Reordered (object fs) (object gs)

  pub data ReorderedItems : JsonItems → JsonItems → Type 0 where
    no_more_items : ReorderedItems no_items no_items
    each_item :
        {v w : JsonValue} {xs ys : JsonItems}
        → Reordered v w
        → ReorderedItems xs ys
        → ReorderedItems (item v xs) (item w ys)

  pub data ReorderedFields : JsonFields → JsonFields → Type 0 where
    no_more_fields : ReorderedFields no_fields no_fields
    each_field :
        (k : String) {v w : JsonValue} {fs gs : JsonFields}
        → Reordered v w
        → ReorderedFields fs gs
        → ReorderedFields (field k v fs) (field k w gs)
    swapped :
        (j k : String) (v w : JsonValue) (fs : JsonFields)
        → j ≢ k
        → ReorderedFields (field j v (field k w fs)) (field k w (field j v fs))
    then_reordered :
        {fs gs hs : JsonFields}
        → ReorderedFields fs gs
        → ReorderedFields gs hs
        → ReorderedFields fs hs

module _ (quote : String → List ℕ) (before : String → String → Bool)
    (order : TextOrder before) where
  -- Of two different keys exactly one stands before the other.
  one_way :
      (j k : String)
      → j ≢ k
      → ((before j k ≡ true) × (before k j ≡ false)) ⊎ ((before j k ≡ false) × (before k j ≡ true))
  one_way j k other = elim (Bool-cases (before j k)) [
    | inr behind ↦ inr (behind, order.total j k behind)
    | inl h ↦ elim (Bool-cases (before k j)) [
      | inl g ↦ absurd (other (order.antisymmetric j k h g))
      | inr g ↦ inl (h, g)
    ]
  ]

  -- The order of two insertions of different keys does not matter.
  insert_key_comm :
      (m n : String × List ℕ) (ms : List (String × List ℕ))
      → m.0 ≢ n.0
      → insert_key quote before m (insert_key quote before n ms)
        ≡ insert_key quote before n (insert_key quote before m ms)
  unfolding insert_key
  insert_key_comm m n [] other = ground (arith, one_way m.0 n.0 other)
  insert_key_comm m n (x ∷ ms) other = ground (
    arith,
    one_way m.0 n.0 other,
    order.transitive m.0 n.0 x.0,
    order.transitive n.0 m.0 x.0,
    insert_key_comm m n ms other,
  )

  mutual
    unfolding canonical_json canonical_items canonical_fields sort_keys

    Reordered-same_text :
        {v w : JsonValue}
        → Reordered v w
        → canonical_json quote before v ≡ canonical_json quote before w
    Reordered-same_text (same v) = refl
    Reordered-same_text (in_array r) =
        ap (λ ts. b'[' ∷ (comma_joined ts ++ b']' ∷ [])) (ReorderedItems-same_texts r)
    Reordered-same_text (in_object r) =
        ap (λ ms. b'{' ∷ (comma_joined (members quote before ms) ++ b'}' ∷ []))
          (ReorderedFields-same_texts r)

    ReorderedItems-same_texts :
        {xs ys : JsonItems}
        → ReorderedItems xs ys
        → canonical_items quote before xs ≡ canonical_items quote before ys
    ReorderedItems-same_texts no_more_items = refl
    ReorderedItems-same_texts (each_item r rs) =
        ap₂ (λ t ts. t ∷ ts) (Reordered-same_text r) (ReorderedItems-same_texts rs)

    ReorderedFields-same_texts :
        {fs gs : JsonFields}
        → ReorderedFields fs gs
        → sort_keys quote before (canonical_fields quote before fs)
          ≡ sort_keys quote before (canonical_fields quote before gs)
    ReorderedFields-same_texts no_more_fields = refl
    ReorderedFields-same_texts (each_field k r rs) =
        ap₂ (λ t ms. insert_key quote before (k, t) ms) (Reordered-same_text r)
          (ReorderedFields-same_texts rs)
    ReorderedFields-same_texts (swapped j k v w fs other) =
        insert_key_comm (j, canonical_json quote before v) (k, canonical_json quote before w)
          (sort_keys quote before (canonical_fields quote before fs)) other
    ReorderedFields-same_texts (then_reordered r q) =
        ReorderedFields-same_texts r ∙ ReorderedFields-same_texts q

  -- Values that differ only in the order in which the fields of their objects, at any depth, were
  -- inserted have the same canonical text, if the order of texts is total, antisymmetric and
  -- transitive.
  pub canonical_json_reordered :
      {v w : JsonValue}
      → Reordered v w
      → canonical_json quote before v ≡ canonical_json quote before w
  canonical_json_reordered r = Reordered-same_text r
