-- ===== src/Canonical.antt =====
-- Canonical JSON (packages/core/src/canonical.ts, `canonicalJson`). Texts that are printed are lists of
-- code points. Printing a text in quotes and the order of texts are the language's: `quote` stands for
-- `JSON.stringify` of a text, and `before` for the order by which `sort` compares texts.
use anastom.Prelude.{ℕ, Bool, true, false, String, List, [], ◌∷◌, ◌++◌, if◌then◌else◌}
use anastom.Json.{
  JsonValue, JsonItems, JsonFields, null, boolean, number, text, array, object, no_items, item,
  no_fields, field,
}
use anastom.Store.Checks.{codes}
pub mod Order
pub mod Reordering
pub mod Tests

-- `join(",")`.
abbrev commas_behind : List (List ℕ) → List ℕ
commas_behind [] = []
commas_behind (t ∷ ts) = b',' ∷ (t ++ commas_behind ts)

abbrev pub comma_joined : List (List ℕ) → List ℕ
comma_joined [] = []
comma_joined (t ∷ ts) = t ++ commas_behind ts

module _ (quote : String → List ℕ) (before : String → String → Bool) where
  -- The keys in their order, each with the text of its value.
  unfoldable pub insert_key : String × List ℕ → List (String × List ℕ) → List (String × List ℕ)
  insert_key m [] = m ∷ []
  insert_key m (n ∷ ns) = if before m.0 n.0 then m ∷ n ∷ ns else n ∷ insert_key m ns

  unfoldable pub sort_keys : List (String × List ℕ) → List (String × List ℕ)
  unfolding insert_key
  sort_keys [] = []
  sort_keys (m ∷ ms) = insert_key m (sort_keys ms)

  abbrev pub members : List (String × List ℕ) → List (List ℕ)
  members [] = []
  members ((k, t) ∷ ms) = (quote k ++ b':' ∷ t) ∷ members ms

  mutual
    unfolding sort_keys codes

    pub canonical_json : JsonValue → List ℕ
    canonical_json null = codes "null"
    canonical_json (boolean true) = codes "true"
    canonical_json (boolean false) = codes "false"
    canonical_json (number n) = codes n
    canonical_json (text t) = quote t
    canonical_json (array xs) = b'[' ∷ (comma_joined (canonical_items xs) ++ b']' ∷ [])
    canonical_json (object fs) =
        b'{' ∷ (comma_joined (members (sort_keys (canonical_fields fs))) ++ b'}' ∷ [])

    pub canonical_items : JsonItems → List (List ℕ)
    canonical_items no_items = []
    canonical_items (item v xs) = canonical_json v ∷ canonical_items xs

    pub canonical_fields : JsonFields → List (String × List ℕ)
    canonical_fields no_fields = []
    canonical_fields (field k v fs) = (k, canonical_json v) ∷ canonical_fields fs
