-- ===== src/Remote/Dispatcher.antt =====
-- src/remote_device/RemoteDispatcher.cpp, RemoteDispatcherServer.cpp, RemoteDispatcherClient.cpp and
-- messages/IfdVersion.cpp: the context of a connection. The identifiers that `QUuid` makes are
-- arguments.
pub mod Context
use text.Mathlib.Text.{◌==◌ as str_eq}
use ausweis_app2_omapi.Prelude.{
  Bool, true, false, not, ◌||◌, if◌then◌else◌, String, List, [], ◌∷◌, ◌++◌,
}
use ausweis_app2_omapi.Global.Minor.{Minor, minor_eq}
use ausweis_app2_omapi.Remote.Json.{JsonObject, get_string_value}
use ausweis_app2_omapi.Remote.Messages.{
  RemoteCardMessageType, ifd_establish_context, ifd_establish_context_response, is_undefined,
  parse_message, parse_response, has_error,
}

-- The version of a build without debugging.
pub data Version : Type 0 where
  unknown_version v0 : Version

unfoldable pub version_to_string : Version → String
version_to_string unknown_version = ""
version_to_string v0 = "IFDInterface_WebSocket_v0"

unfoldable pub version_from_string : String → Version
unfolding version_to_string
version_from_string s = if str_eq s (version_to_string v0) then v0 else unknown_version

abbrev pub supported : List Version
supported = v0 ∷ []

abbrev pub version_eq : Version → Version → Bool
version_eq unknown_version unknown_version = true
version_eq v0 v0 = true
version_eq _ _ = false

is_among : Version → List Version → Bool
is_among v [] = false
is_among v (w ∷ l) = if version_eq v w then true else is_among v l

unfoldable pub is_supported : Version → Bool
unfolding is_among
is_supported v = is_among v supported

last_supported : Version → List Version → Version
unfolding is_supported
last_supported latest [] = latest
last_supported latest (v ∷ l) =
    if is_supported v then last_supported v l else last_supported latest l

unfoldable pub select_latest_supported : List Version → Version
unfolding last_supported
select_latest_supported l = last_supported unknown_version l

-- What a dispatcher does: it sends an error or the answer to the request for a context, tells that a
-- context is established, or passes a message on.
pub data Effect : Type 0 where
  send_error : Minor → Effect
  send_context_response : Minor → Effect
  context_established : String → Effect
  save_remote_name : String → Effect
  received : RemoteCardMessageType → JsonObject → Effect

pub data Side : Type 0 where
  server_side client_side : Side

abbrev pub is_empty_string : String → Bool
is_empty_string s = str_eq s ""

-- Why a context is refused: there is one already, or its protocol is not supported.
unfoldable pub context_failure : Bool → Bool → Minor
context_failure established protocol_supported =
    let fail = if established then Minor.al_unknown_error else Minor.null in
    if not protocol_supported then Minor.al_unknown_error else fail

-- `createAndSendContext` at the handle that is held and the one that is new.
unfoldable pub create_and_send_context : String → String → JsonObject → String × List Effect
unfolding get_string_value version_from_string is_supported minor_eq context_failure
create_and_send_context new_handle held o =
    let fail =
      context_failure (not (is_empty_string held))
        (is_supported (version_from_string (get_string_value o "Protocol").0)) in
    if not (minor_eq fail Minor.null)
    then (held, send_context_response fail ∷ [])
    else (new_handle, send_context_response Minor.null ∷ context_established new_handle ∷ [])

-- `processContext` on either side: the handle, what happens, and whether the message is used up.
unfoldable pub process_context :
    Side → String → String → RemoteCardMessageType → JsonObject → (String × List Effect) × Bool
unfolding create_and_send_context get_string_value parse_response
process_context server_side new_handle held ifd_establish_context o =
    let r = create_and_send_context new_handle held o in
    ((r.0, save_remote_name (get_string_value o "UDName").0 ∷ r.1), true)
process_context client_side new_handle held ifd_establish_context_response o =
    let r = parse_response o in
    if has_error r.result_major
    then ((held, []), true)
    else ((r.message.context_handle, context_established r.message.context_handle ∷ []), true)
process_context _ new_handle held _ o = ((held, []), false)

-- `onReceived` at the object that Qt has parsed.
unfoldable pub on_received : Side → String → String → JsonObject → String × List Effect
unfolding parse_message process_context
on_received side new_handle held o =
    let m = parse_message o in
    let context = process_context side new_handle held m.message_type o in
    if is_undefined m.message_type
    then (held, send_error Minor.al_unkown_api_function ∷ [])
    else if context.1
    then context.0
    else if is_empty_string m.context_handle || not (str_eq held m.context_handle)
    then (held, [])
    else (held, received m.message_type o ∷ [])
