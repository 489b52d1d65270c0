-- ===== src/Remote/Messages.antt =====
-- src/remote_device/messages: the messages between a program and a remote reader, as JSON objects. The
-- texts of hexadecimal digits (`QByteArray::fromHex`, `toHex`) are parameters.
pub mod RoundTrip
use text.Mathlib.Text.{◌==◌ as str_eq}
use ausweis_app2_omapi.Prelude.{
  Bool, true, false, not, ◌&&◌, if◌then◌else◌, String, Bytes, List, [], ◌∷◌, Option, none, some,
}
use ausweis_app2_omapi.Global.Status.{Origin}
use ausweis_app2_omapi.Global.Minor.{Major, Minor, minor_eq}
use ausweis_app2_omapi.Global.Result.{create, parse_major, parse_minor, major_string, minor_string}
use ausweis_app2_omapi.Remote.Json.{
  JsonValue, JsonArray, JsonObject, json_null, json_bool, json_string, json_array, json_object,
  no_entry, entry, no_member, value_of, put, get_string_value, get_bool_value,
}

pub data RemoteCardMessageType : Type 0 where
  ifd_establish_context ifd_establish_context_response ifd_get_status : RemoteCardMessageType
  ifd_status ifd_connect ifd_connect_response ifd_disconnect : RemoteCardMessageType
  ifd_disconnect_response ifd_error ifd_transmit ifd_transmit_response : RemoteCardMessageType
  ifd_establish_pace_channel ifd_establish_pace_channel_response : RemoteCardMessageType
  ifd_modify_pin ifd_modify_pin_response undefined : RemoteCardMessageType

-- `getEnumName`
unfoldable pub type_name : RemoteCardMessageType → String
type_name ifd_establish_context = "IFDEstablishContext"
type_name ifd_establish_context_response = "IFDEstablishContextResponse"
type_name ifd_get_status = "IFDGetStatus"
type_name ifd_status = "IFDStatus"
type_name ifd_connect = "IFDConnect"
type_name ifd_connect_response = "IFDConnectResponse"
type_name ifd_disconnect = "IFDDisconnect"
type_name ifd_disconnect_response = "IFDDisconnectResponse"
type_name ifd_error = "IFDError"
type_name ifd_transmit = "IFDTransmit"
type_name ifd_transmit_response = "IFDTransmitResponse"
type_name ifd_establish_pace_channel = "IFDEstablishPACEChannel"
type_name ifd_establish_pace_channel_response = "IFDEstablishPACEChannelResponse"
type_name ifd_modify_pin = "IFDModifyPIN"
type_name ifd_modify_pin_response = "IFDModifyPINResponse"
type_name undefined = "UNDEFINED"

abbrev pub all_types : List RemoteCardMessageType
all_types =
    ifd_establish_context ∷ ifd_establish_context_response ∷ ifd_get_status ∷ ifd_status
    ∷ ifd_connect ∷ ifd_connect_response ∷ ifd_disconnect ∷ ifd_disconnect_response ∷ ifd_error
    ∷ ifd_transmit ∷ ifd_transmit_response ∷ ifd_establish_pace_channel
    ∷ ifd_establish_pace_channel_response ∷ ifd_modify_pin ∷ ifd_modify_pin_response ∷ undefined
    ∷ []

find_type : String → List RemoteCardMessageType → RemoteCardMessageType
unfolding type_name
find_type s [] = undefined
find_type s (t ∷ l) = let rest = find_type s l in if str_eq (type_name t) s then t else rest

-- `Enum<RemoteCardMessageType>::fromString`
unfoldable pub type_of_name : String → RemoteCardMessageType
unfolding find_type
type_of_name s = find_type s all_types

abbrev pub is_establish_context : RemoteCardMessageType → Bool
is_establish_context ifd_establish_context = true
is_establish_context _ = false

abbrev pub is_undefined : RemoteCardMessageType → Bool
is_undefined undefined = true
is_undefined _ = false

pub record RemoteMessage : Type 0 where
  pub complete : Bool
  pub message_type : RemoteCardMessageType
  pub context_handle : String

unfoldable pub parse_message : JsonObject → RemoteMessage
unfolding get_string_value type_of_name
parse_message o =
    let msg_type = get_string_value o "msg" in
    let t = type_of_name msg_type.0 in
    let handle =
      if is_establish_context t then ("", true) else get_string_value o "ContextHandle" in
    record {
      complete = msg_type.1 && not (is_undefined t) && handle.1;
      message_type = t;
      context_handle = handle.0;
    }

unfoldable pub create_message_body : RemoteCardMessageType → String → JsonObject
unfolding put type_name
create_message_body t handle =
    let body = put "msg" (json_string (type_name t)) no_member in
    if is_establish_context t then body else put "ContextHandle" (json_string handle) body

-- The results of a response.
pub record RemoteMessageResponse : Type 0 where
  pub message : RemoteMessage
  pub result_major : Major
  pub result_minor : Minor

abbrev pub major_of : Minor → Major
major_of Minor.null = Major.ok
major_of _ = Major.error

abbrev pub has_error : Major → Bool
has_error Major.ok = false
has_error _ = true

unfoldable pub create_response_body : RemoteCardMessageType → Minor → String → JsonObject
unfolding create_message_body create major_string minor_string minor_eq
create_response_body t minor handle =
    let result = create "" (major_of minor) minor "" Origin.client in
    let named =
      put "ResultMajor" (json_string (major_string result.major)) (create_message_body t handle) in
    put "ResultMinor"
      (if minor_eq minor Minor.null then json_null else json_string (minor_string result.minor))
      named

unfoldable pub parse_response : JsonObject → RemoteMessageResponse
unfolding parse_message get_string_value parse_major parse_minor
parse_response o =
    let m = parse_message o in
    let major = get_string_value o "ResultMajor" in
    let minor = get_string_value o "ResultMinor" in
    let failed = has_error (parse_major major.0) in
    record {
      message = record m { complete = m.complete && major.1 && (if failed then minor.1 else true) };
      result_major = parse_major major.0;
      result_minor = if failed then parse_minor minor.0 else Minor.null;
    }

-- Requests with the name of a slot, or with the handle of one: what a class reads, in the order of its
-- constructor, and whether the message is complete.
pub record Request : Type 0 where
  pub message : RemoteMessage
  pub slot : String
  pub input : Bytes
  pub exclusive : Bool

-- `IfdGetStatus`, `IfdDisconnect`: one text of the given name, and the type that is expected.
unfoldable pub parse_slot : RemoteCardMessageType → String → JsonObject → Request
unfolding parse_message get_string_value type_name
parse_slot expected name o =
    let m = parse_message o in
    let slot = get_string_value o name in
    record {
      message = record m {
        complete = m.complete && slot.1 && str_eq (type_name m.message_type) (type_name expected);
      };
      slot = slot.0;
      input = [];
      exclusive = false;
    }

unfoldable pub parse_get_status : JsonObject → Request
unfolding parse_slot
parse_get_status o = parse_slot ifd_get_status "SlotName" o

unfoldable pub parse_disconnect : JsonObject → Request
unfolding parse_slot
parse_disconnect o = parse_slot ifd_disconnect "SlotHandle" o

unfoldable pub parse_connect : JsonObject → Request
unfolding parse_slot get_bool_value
parse_connect o =
    let r = parse_slot ifd_connect "SlotName" o in
    let e = get_bool_value o "exclusive" in
    let m : RemoteMessage = r.message in
    record r { message = record m { complete = m.complete && e.1 }; exclusive = e.0 }

unfoldable pub slot_body : RemoteCardMessageType → String → String → String → JsonObject
unfolding create_message_body put
slot_body t name slot handle = put name (json_string slot) (create_message_body t handle)

unfoldable pub get_status_to_json : String → String → JsonObject
unfolding slot_body
get_status_to_json slot handle = slot_body ifd_get_status "SlotName" slot handle

unfoldable pub disconnect_to_json : String → String → JsonObject
unfolding slot_body
disconnect_to_json slot handle = slot_body ifd_disconnect "SlotHandle" slot handle

unfoldable pub connect_to_json : String → Bool → String → JsonObject
unfolding slot_body put
connect_to_json slot exclusive handle =
    put "exclusive" (json_bool exclusive) (slot_body ifd_connect "SlotName" slot handle)

module _ (from_hex : String → Bytes) (to_hex : Bytes → String) where
  -- `IfdTransmit::parseCommandApdu` at the first entry of the array; there may be none.
  unfoldable pub parse_command_apdu : JsonArray → Bytes × Bool
  unfolding get_string_value
  parse_command_apdu (entry (json_object o) rest) =
      let s = get_string_value o "InputAPDU" in (from_hex s.0, s.1)
  parse_command_apdu _ = ([], false)

  unfoldable pub parse_transmit : JsonObject → Request
  unfolding parse_slot parse_command_apdu value_of
  parse_transmit o =
      let r = parse_slot ifd_transmit "SlotHandle" o in
      let m : RemoteMessage = r.message in
      let apdu : Bytes × Bool = elim (value_of o "CommandAPDUs") [
        | some (json_array a) ↦ parse_command_apdu a
        | _ ↦ ([], false)
      ] in
      record r { message = record m { complete = m.complete && apdu.1 }; input = apdu.0 }

  unfoldable pub transmit_to_json : String → Bytes → String → JsonObject
  unfolding slot_body put
  transmit_to_json slot apdu handle =
      let command =
        put "AcceptableStatusCodes" json_null
          (put "InputAPDU" (json_string (to_hex apdu)) no_member) in
      put "CommandAPDUs" (json_array (entry (json_object command) no_entry))
        (slot_body ifd_transmit "SlotHandle" slot handle)

  -- `IfdEstablishPaceChannel` and `IfdModifyPin`
  unfoldable pub parse_input : RemoteCardMessageType → JsonObject → Request
  unfolding parse_slot get_string_value
  parse_input expected o =
      let r = parse_slot expected "SlotHandle" o in
      let m : RemoteMessage = r.message in
      let data_text = get_string_value o "InputData" in
      record r {
        message = record m { complete = m.complete && data_text.1 };
        input = from_hex data_text.0;
      }

  unfoldable pub input_to_json : RemoteCardMessageType → String → Bytes → String → JsonObject
  unfolding slot_body put
  input_to_json t slot input handle =
      put "InputData" (json_string (to_hex input)) (slot_body t "SlotHandle" slot handle)
