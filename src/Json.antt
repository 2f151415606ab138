-- ===== src/Json.antt =====
-- JSON values at workflow boundaries (packages/core/src/types.ts).
use anastom.Prelude.{Bool, String}

-- A finite number is kept by the text that `JSON.stringify` prints for it.
mutual
  pub data JsonValue : Type 0 where
    null : JsonValue
    boolean : Bool → JsonValue
    number : String → JsonValue
    text : String → JsonValue
    array : JsonItems → JsonValue
    object : JsonFields → JsonValue

  pub data JsonItems : Type 0 where
    no_items : JsonItems
    item : JsonValue → JsonItems → JsonItems

  pub data JsonFields : Type 0 where
    no_fields : JsonFields
    field : String → JsonValue → JsonFields → JsonFields
