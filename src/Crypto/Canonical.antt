-- ===== src/Crypto/Canonical.antt =====
-- `canonical_json_value`: the text that is hashed and signed. A `serde_json::Map` keeps its fields in
-- the order of their keys, which is the order of `Fields`.
pub mod Head
pub mod Parts
pub mod Injective
use Prim.Native.String.{◌++◌}
use oan_protocol_common.Base.{String, true, false}
use oan_protocol_common.Json.{
  Value, null, boolean, number, string, array, object, Values, no_values, value, Fields, no_fields,
  field,
}
use oan_protocol_common.Crypto.Primitives.{Primitives}

module _ (primitives : Primitives) where
  -- `join(",")` is the first item and a comma before each other.
  unfoldable mutual
    pub canonical_json_value : Value → String
    canonical_json_value null = "null"
    canonical_json_value (boolean true) = "true"
    canonical_json_value (boolean false) = "false"
    canonical_json_value (number n) = n
    canonical_json_value (string s) = primitives.json_string s
    canonical_json_value (array values) = "[" ++ (items values ++ "]")
    canonical_json_value (object map) = "{" ++ (entries map ++ "}")

    pub items : Values → String
    items no_values = ""
    items (value v vs) = canonical_json_value v ++ more_items vs

    pub more_items : Values → String
    more_items no_values = ""
    more_items (value v vs) = "," ++ (canonical_json_value v ++ more_items vs)

    pub entries : Fields → String
    entries no_fields = ""
    entries (field key v map) =
        primitives.json_string key ++ (":" ++ (canonical_json_value v ++ more_entries map))

    pub more_entries : Fields → String
    more_entries no_fields = ""
    more_entries (field key v map) =
        "," ++ (primitives.json_string key ++ (":" ++ (canonical_json_value v ++ more_entries map)))
