-- ===== src/Remote/Json.antt =====
-- JSON objects as the messages of src/remote_device use them. Qt reads and writes their texts.
use text.Mathlib.Text.{◌==◌ as str_eq}
use ausweis_app2_omapi.Prelude.{Bool, true, false, if◌then◌else◌, Option, none, some, String, ℤ}

mutual
  pub data JsonValue : Type 0 where
    json_null : JsonValue
    json_bool : Bool → JsonValue
    json_number : ℤ → JsonValue
    json_string : String → JsonValue
    json_array : JsonArray → JsonValue
    json_object : JsonObject → JsonValue

  pub data JsonArray : Type 0 where
    no_entry : JsonArray
    entry : JsonValue → JsonArray → JsonArray

  pub data JsonObject : Type 0 where
    no_member : JsonObject
    member : String → JsonValue → JsonObject → JsonObject

-- `contains` and `value`.
unfoldable pub value_of : JsonObject → String → Option JsonValue
value_of no_member name = none
value_of (member n v o) name = if str_eq n name then some v else value_of o name

-- `object[name] = value`
unfoldable pub put : String → JsonValue → JsonObject → JsonObject
put name v no_member = member name v no_member
put name v (member n w o) =
    let rest = put name v o in if str_eq n name then member n v o else member n w rest

-- `RemoteMessage::getStringValue` and `getBoolValue`: the value, and whether it is usable; where it is
-- missing or of another type, the message is marked as incomplete.
unfoldable pub get_string_value : JsonObject → String → String × Bool
unfolding value_of
get_string_value o name = elim (value_of o name) [
  | some (json_string s) ↦ (s, true)
  | _ ↦ ("", false)
]

unfoldable pub get_bool_value : JsonObject → String → Bool × Bool
unfolding value_of
get_bool_value o name = elim (value_of o name) [
  | some (json_bool b) ↦ (b, true)
  | _ ↦ (false, false)
]
