-- ===== src/Remote/Server/Completions.antt =====
-- What the server does when a command has run, a reader changes or the connection ends.
use ausweis_app2_omapi.Prelude.{
  ℕ, Bool, not, ◌==◌, if◌then◌else◌, String, Bytes, Option, none, some, List, [], ◌∷◌,
}
use ausweis_app2_omapi.Global.Minor.{Minor}
use ausweis_app2_omapi.Global.ReturnCode.{CardReturnCode}
use ausweis_app2_omapi.Apdu.Response.{ResponseApdu, get_return_code}
use ausweis_app2_omapi.Apdu.StatusCode.{
  empty, success, input_timeout, input_cancelled, passwords_differ, password_outof_range,
}
use ausweis_app2_omapi.Card.PaceOutput.{EstablishPaceChannelOutput}
use ausweis_app2_omapi.Remote.Server.Connections.{
  CardConnection, Connections, insert_connection, remove_connection, slot_handle_for_reader_name,
  convert_slot_handle_backwards_compatibility,
}
use ausweis_app2_omapi.Remote.Server.Handlers.{
  Effect, Environment, send_connect_response, send_status, send_reader_removed,
  send_transmit_response, send_pace_response, send_modify_pin_response, fire_closed,
}

-- The connection that the command has made, if any, and the identifier that is new.
unfoldable pub on_create_card_connection_command_done :
    (String → String → Bool)
    → String
    → String
    → Option CardConnection
    → Connections
    → Connections × List Effect
unfolding insert_connection
on_create_card_connection_command_done before new_handle reader none l =
    (l, send_connect_response reader Minor.al_unknown_error ∷ [])
on_create_card_connection_command_done before new_handle reader (some c) l =
    (insert_connection before new_handle c l, send_connect_response new_handle Minor.null ∷ [])

-- The answer to a transmission; none where the command failed.
unfoldable pub on_transmit_card_command_done :
    Connections → String → CardReturnCode → List Bytes → List Effect
unfolding convert_slot_handle_backwards_compatibility
on_transmit_card_command_done l slot CardReturnCode.ok (output ∷ []) =
    send_transmit_response (convert_slot_handle_backwards_compatibility l slot) output Minor.null
    ∷ []
on_transmit_card_command_done l slot CardReturnCode.ok outputs =
    send_transmit_response (convert_slot_handle_backwards_compatibility l slot) [] Minor.null ∷ []
on_transmit_card_command_done l slot code outputs =
    send_transmit_response (convert_slot_handle_backwards_compatibility l slot) []
      Minor.al_unknown_error
    ∷ []

-- `toCcid` of the output of PACE is an encoding by OpenSSL, the first argument.
unfoldable pub send_establish_pace_channel_response :
    (EstablishPaceChannelOutput → Bytes) → String → EstablishPaceChannelOutput → Effect
send_establish_pace_channel_response to_ccid slot output =
    send_pace_response slot (to_ccid output) (elim output.pace_return_code [
      | CardReturnCode.unknown ↦ Minor.al_unknown_error
      | CardReturnCode.card_not_found ↦ Minor.ifdl_terminal_no_card
      | _ ↦ Minor.null
    ])

unfoldable pub modify_pin_minor : ℕ → Minor
modify_pin_minor code =
    if code == success
    then Minor.null
    else if code == empty
    then Minor.ifdl_terminal_no_card
    else if code == input_timeout
    then Minor.ifdl_timeout_error
    else if code == input_cancelled
    then Minor.ifdl_cancellation_by_user
    else if code == passwords_differ
    then Minor.ifdl_io_repeated_data_mismatch
    else if code == password_outof_range
    then Minor.ifdl_io_unknown_pin_format
    else Minor.al_unknown_error

unfoldable pub answer_modify_pin : String → ResponseApdu → Effect
unfolding modify_pin_minor get_return_code
answer_modify_pin slot response =
    send_modify_pin_response slot response.buffer (modify_pin_minor (get_return_code response))

unfoldable pub on_closed : Connections → Connections × List Effect
on_closed l = ([], fire_closed ∷ [])

unfoldable pub on_reader_changed : Environment → Connections → String → Connections × List Effect
unfolding slot_handle_for_reader_name remove_connection
on_reader_changed e l name =
    let info = e.reader_info name in
    let handle = slot_handle_for_reader_name l name in
    (if not info.eid_card then remove_connection l handle else l, send_status info ∷ [])

unfoldable pub on_reader_removed : Connections → String → Connections × List Effect
on_reader_removed l name = (l, send_reader_removed name ∷ [])
