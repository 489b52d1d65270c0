-- ===== src/Remote/Server/Handlers.antt =====
-- The handlers of the server: what comes back is the connections, and what happens, in order.
use text.Mathlib.Text.{◌==◌ as str_eq}
use ausweis_app2_omapi.Prelude.{
  Bool, true, false, not, ◌&&◌, if◌then◌else◌, String, Bytes, Option, none, some, List, [], ◌∷◌,
}
use ausweis_app2_omapi.Global.Minor.{Minor}
use ausweis_app2_omapi.Apdu.Command.{is_secure_messaging}
use ausweis_app2_omapi.Remote.Json.{JsonObject}
use ausweis_app2_omapi.Remote.Messages.{
  RemoteCardMessageType, Request, parse_get_status, parse_connect, parse_disconnect, parse_transmit,
  parse_input, ifd_establish_pace_channel, ifd_modify_pin, ifd_error, undefined,
  ifd_establish_context, ifd_establish_context_response, ifd_status, ifd_connect_response,
  ifd_disconnect_response, ifd_transmit_response, ifd_establish_pace_channel_response,
  ifd_modify_pin_response, ifd_get_status, ifd_connect, ifd_transmit, ifd_disconnect,
}
use ausweis_app2_omapi.Remote.Server.Connections.{
  ReaderInfo, CardConnection, Connections, find_connection, is_connected, remove_connection,
  uses_reader, convert_slot_handle_backwards_compatibility, stop_secure_messaging,
}

-- A message that is sent, a command to the readers or a card, or a signal.
pub data Effect : Type 0 where
  send_status : ReaderInfo → Effect
  send_reader_removed : String → Effect
  send_connect_response : String → Minor → Effect
  send_disconnect_response : String → Minor → Effect
  send_transmit_response : String → Bytes → Minor → Effect
  send_pace_response : String → Bytes → Minor → Effect
  send_modify_pin_response : String → Bytes → Minor → Effect
  send_error : Minor → Effect
  call_create_card_connection : String → Effect
  call_transmit : CardConnection → Bytes → String → Effect
  fire_establish_pace_channel : Request → CardConnection → Effect
  fire_modify_pin : Request → CardConnection → Effect
  fire_secure_messaging_stopped : Effect
  fire_closed : Effect

pub record Environment : Type 0 where
  pub reader_info : String → ReaderInfo
  pub reader_infos : List ReaderInfo
  pub pin_pad_mode : Bool

unfoldable pub basic_readers : List ReaderInfo → List Effect
basic_readers [] = []
basic_readers (i ∷ l) =
    let rest = basic_readers l in if not i.basic_reader then rest else send_status i ∷ rest

unfoldable pub handle_ifd_get_status : Environment → JsonObject → List Effect
unfolding parse_get_status basic_readers
handle_ifd_get_status e o =
    let slot = (parse_get_status o).slot in
    if not (str_eq slot "")
    then send_status (e.reader_info slot) ∷ []
    else basic_readers e.reader_infos

unfoldable pub handle_ifd_connect : Environment → Connections → JsonObject → List Effect
unfolding parse_connect uses_reader
handle_ifd_connect e l o =
    let slot = (parse_connect o).slot in
    let info = e.reader_info slot in
    if not info.connected
    then send_connect_response slot Minor.ifdl_unknown_slot ∷ []
    else if not info.eid_card
    then send_connect_response slot Minor.al_unknown_error ∷ []
    else if uses_reader l slot
    then send_connect_response slot Minor.ifdl_ifd_sharing_violation ∷ []
    else call_create_card_connection slot ∷ []

unfoldable pub handle_ifd_disconnect : Connections → JsonObject → Connections × List Effect
unfolding parse_disconnect convert_slot_handle_backwards_compatibility is_connected
    remove_connection
handle_ifd_disconnect l o =
    let handle = convert_slot_handle_backwards_compatibility l (parse_disconnect o).slot in
    if not (is_connected l handle)
    then (l, send_disconnect_response handle Minor.ifdl_invalid_slot_handle ∷ [])
    else (remove_connection l handle, send_disconnect_response handle Minor.null ∷ [])

-- `handleIfdTransmit` where the connection is there: whether the command is one of secure messaging in
-- the PIN pad mode, and whether the connection has a channel of its own.
unfoldable pub transmit_choice :
    Bool → Bool → Connections → CardConnection → Bytes → String → Connections × List Effect
unfolding stop_secure_messaging
transmit_choice true true l c apdu handle =
    let stopped : CardConnection = record c { secure_messaging = false } in
    (
      stop_secure_messaging l handle,
      fire_secure_messaging_stopped ∷ call_transmit stopped apdu handle ∷ [],
    )
transmit_choice true false l c apdu handle = (l, call_transmit c apdu handle ∷ [])
transmit_choice false channel l c apdu handle = (l, call_transmit c apdu handle ∷ [])

unfoldable pub transmit_to :
    Environment → Connections → Bytes → String → Option CardConnection → Connections × List Effect
unfolding is_secure_messaging transmit_choice
transmit_to e l apdu handle none =
    (l, send_transmit_response handle [] Minor.ifdl_invalid_slot_handle ∷ [])
transmit_to e l apdu handle (some c) =
    transmit_choice (e.pin_pad_mode && is_secure_messaging apdu) c.secure_messaging l c apdu handle

unfoldable pub establish_pace_channel_with :
    Environment → Request → String → Option CardConnection → List Effect
establish_pace_channel_with e r handle none =
    send_pace_response handle [] Minor.ifdl_invalid_slot_handle ∷ []
establish_pace_channel_with e r handle (some c) =
    if c.reader.basic_reader && not e.pin_pad_mode
    then send_pace_response handle [] Minor.al_unknown_error ∷ []
    else fire_establish_pace_channel r c ∷ []

unfoldable pub modify_pin_with : Request → Option CardConnection → List Effect
modify_pin_with r none = send_modify_pin_response r.slot [] Minor.ifdl_invalid_slot_handle ∷ []
modify_pin_with r (some c) = fire_modify_pin r c ∷ []

module _ (from_hex : String → Bytes) (to_hex : Bytes → String) where
  unfoldable pub handle_ifd_transmit :
      Environment → Connections → JsonObject → Connections × List Effect
  unfolding parse_transmit convert_slot_handle_backwards_compatibility find_connection transmit_to
  handle_ifd_transmit e l o =
      let r = parse_transmit from_hex to_hex o in
      let handle = convert_slot_handle_backwards_compatibility l r.slot in
      transmit_to e l r.input handle (find_connection l handle)

  unfoldable pub handle_ifd_establish_pace_channel :
      Environment → Connections → JsonObject → List Effect
  unfolding parse_input convert_slot_handle_backwards_compatibility find_connection
      establish_pace_channel_with
  handle_ifd_establish_pace_channel e l o =
      let r = parse_input from_hex to_hex ifd_establish_pace_channel o in
      let handle = convert_slot_handle_backwards_compatibility l r.slot in
      establish_pace_channel_with e r handle (find_connection l handle)

  unfoldable pub handle_ifd_modify_pin : Environment → Connections → JsonObject → List Effect
  unfolding parse_input find_connection modify_pin_with
  handle_ifd_modify_pin e l o =
      let r = parse_input from_hex to_hex ifd_modify_pin o in
      if not e.pin_pad_mode
      then send_modify_pin_response r.slot [] Minor.al_unknown_error ∷ []
      else modify_pin_with r (find_connection l r.slot)

  unfoldable pub on_remote_message :
      Environment → Connections → RemoteCardMessageType → JsonObject → Connections × List Effect
  unfolding handle_ifd_get_status handle_ifd_connect handle_ifd_disconnect handle_ifd_transmit
      handle_ifd_establish_pace_channel handle_ifd_modify_pin
  on_remote_message e l ifd_error o = (l, [])
  on_remote_message e l undefined o = (l, [])
  on_remote_message e l ifd_establish_context o = (l, [])
  on_remote_message e l ifd_establish_context_response o = (l, [])
  on_remote_message e l ifd_status o = (l, send_error Minor.al_unkown_api_function ∷ [])
  on_remote_message e l ifd_connect_response o = (l, send_error Minor.al_unkown_api_function ∷ [])
  on_remote_message e l ifd_disconnect_response o =
      (l, send_error Minor.al_unkown_api_function ∷ [])
  on_remote_message e l ifd_transmit_response o = (l, send_error Minor.al_unkown_api_function ∷ [])
  on_remote_message e l ifd_establish_pace_channel_response o =
      (l, send_error Minor.al_unkown_api_function ∷ [])
  on_remote_message e l ifd_modify_pin_response o =
      (l, send_error Minor.al_unkown_api_function ∷ [])
  on_remote_message e l ifd_get_status o = (l, handle_ifd_get_status e o)
  on_remote_message e l ifd_connect o = (l, handle_ifd_connect e l o)
  on_remote_message e l ifd_transmit o = handle_ifd_transmit e l o
  on_remote_message e l ifd_disconnect o = handle_ifd_disconnect l o
  on_remote_message e l ifd_establish_pace_channel o = (l, handle_ifd_establish_pace_channel e l o)
  on_remote_message e l ifd_modify_pin o = (l, handle_ifd_modify_pin e l o)
