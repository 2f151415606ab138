-- ===== src/Canonical/Tests.antt =====
-- Canonical JSON of two concrete values.
use anastom.Prelude.{ℕ, String, ◌≡◌, ◌≢◌, refl, List, [], ◌∷◌, ◌++◌, false, true, eq_iff}
use anastom.Json.{JsonValue, field, no_fields, no_items, item}
use anastom.Store.Checks.{codes}
use anastom.Store.Snapshots.{codes_le}
use anastom.Canonical.{canonical_json}
use anastom.Canonical.Order.{by_codes, by_codes-TextOrder}
use anastom.Canonical.Reordering.{
  canonical_json_reordered, each_item, in_array, in_object, no_more_items, swapped,
}

-- Texts without characters that need an escape.
abbrev in_quotes : String → List ℕ
in_quotes t = b'"' ∷ (codes t ++ b'"' ∷ [])

abbrev inserted : JsonValue
inserted =
    JsonValue.object
      (field "b" (JsonValue.number "1") (field "a" (JsonValue.boolean true) no_fields))

abbrev sorted : JsonValue
sorted =
    JsonValue.object
      (field "a" (JsonValue.boolean true) (field "b" (JsonValue.number "1") no_fields))

printed :
    canonical_json in_quotes by_codes (JsonValue.array (item inserted no_items))
    ≡ codes "[{\"a\":true,\"b\":1}]"
unfolding canonical_json codes codes_le
printed = refl

keys_differ : ◌≢◌ {A = String} "b" "a"
keys_differ h = let clash : false ≡ true = (eq_iff "b" "a").1 h in cc

canonical_json_reordered_example :
    canonical_json in_quotes by_codes (JsonValue.array (item inserted no_items))
    ≡ canonical_json in_quotes by_codes (JsonValue.array (item sorted no_items))
canonical_json_reordered_example = canonical_json_reordered in_quotes by_codes by_codes-TextOrder (
    in_array (
      each_item
        (in_object
          (swapped "b" "a" (JsonValue.number "1") (JsonValue.boolean true) no_fields keys_differ))
        no_more_items))
