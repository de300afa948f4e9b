-- ===== src/Json.antt =====
-- `serde_json::Value`. A number is the text that serde_json prints for it.
pub mod Equality
use Prim.Native.Nat.{Ordering}
use Prim.Native.String.{compare}
use oan_protocol_common.Base.{String, Bool, Option, none, some, ◌==◌, string_eq, if◌then◌else◌}

mutual
  pub data Value : Type 0 where
    null : Value
    boolean : Bool → Value
    number : String → Value
    string : String → Value
    array : Values → Value
    object : Fields → Value

  pub data Values : Type 0 where
    no_values : Values
    value : Value → Values → Values

  pub data Fields : Type 0 where
    no_fields : Fields
    field : String → Value → Fields → Fields

-- `Map::get`
unfoldable pub find_field : String → Fields → Option Value
find_field key no_fields = none
find_field key (field k v map) = if k == key then some v else find_field key map

-- `Value::get` with a key
unfoldable pub get : Value → String → Option Value
unfolding find_field
get (object map) key = find_field key map
get _ key = none

-- `as_str` of an optional value
abbrev pub as_str : Option Value → Option String
as_str (some (string s)) = some s
as_str _ = none

-- `as_array`, and its items
abbrev pub array_items : Option Value → Values
array_items (some (array values)) = values
array_items _ = no_values

-- `iter().find`
unfoldable pub find_value : (Value → Bool) → Values → Option Value
find_value p no_values = none
find_value p (value v vs) = if p v then some v else find_value p vs

-- `Map::insert`: the fields stay in the order of their keys.
unfoldable pub insert_field : String → Value → Fields → Fields
insert_field key v no_fields = field key v no_fields
insert_field key v (field k w map) =
    let later = insert_field key v map in
    elim (compare key k) [
      | Ordering.lt ↦ field key v (field k w map)
      | Ordering.eq ↦ field key v map
      | Ordering.gt ↦ field k w later
    ]

-- `Map::remove`
unfoldable pub remove_field : String → Fields → Fields
remove_field key no_fields = no_fields
remove_field key (field k v map) =
    let later = remove_field key map in if k == key then map else field k v later
