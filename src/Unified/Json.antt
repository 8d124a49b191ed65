-- ===== src/Unified/Json.antt =====
-- What `json.Unmarshal` makes of a JSON text in a variable of type `any`. Numbers keep their text.
use llmadapter.Prelude.{String, Bool, ◌==◌, string_eq, if◌then◌else◌, Option, none, some}

mutual
  pub data JsonValue : Type 0 where
    null : JsonValue
    boolean : Bool → JsonValue
    number : String → JsonValue
    text : String → JsonValue
    array : JsonItems → JsonValue
    object : JsonFields → JsonValue

  pub data JsonItems : Type 0 where
    nil : JsonItems
    cons : JsonValue → JsonItems → JsonItems

  pub data JsonFields : Type 0 where
    end : JsonFields
    field : String → JsonValue → JsonFields → JsonFields

-- The value of a key.
unfoldable pub value_of : String → JsonFields → Option JsonValue
value_of key end = none
value_of key (field other value rest) =
    let later = value_of key rest in if other == key then some value else later
