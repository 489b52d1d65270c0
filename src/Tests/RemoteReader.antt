-- ===== src/Tests/RemoteReader.antt =====
-- The messages of a remote reader and its server: src/remote_device.
use text.Mathlib.Text.{◌==◌ as str_eq}
use ausweis_app2_omapi.Prelude.{
  Bool, true, false, ◌≡◌, refl, none, some, List, [], ◌∷◌, Bytes, String, All, if◌then◌else◌, ◌==◌,
}
use ausweis_app2_omapi.Global.Minor.{Minor}
use ausweis_app2_omapi.Global.ReturnCode.{CardReturnCode}
use ausweis_app2_omapi.Apdu.Response.{ResponseApdu, get_return_code}
use ausweis_app2_omapi.Apdu.StatusCode.{empty}
use ausweis_app2_omapi.Remote.PinChange.{
  set_eid_pin, modify_pin_response_to_json, invalid_datafield, status_code_to_card_return_code,
}
use ausweis_app2_omapi.Remote.PinChange.EndToEnd.{set_eid_pin-status_code_to_card_return_code}
use ausweis_app2_omapi.Remote.Server.Completions.{modify_pin_minor}
use ausweis_app2_omapi.Remote.Json.{JsonObject}
use ausweis_app2_omapi.Remote.Messages.{
  ifd_status, ifd_connect, ifd_transmit, ifd_get_status, ifd_disconnect, ifd_establish_pace_channel,
  ifd_modify_pin, create_response_body, parse_response, parse_get_status, parse_disconnect,
  parse_connect, parse_transmit, parse_input, get_status_to_json, disconnect_to_json,
  connect_to_json, transmit_to_json, input_to_json, major_of, parse_message,
}
use ausweis_app2_omapi.Remote.Messages.RoundTrip.{
  asked, response, parse_requests, parse_response-create_response_body,
}
use ausweis_app2_omapi.Remote.Dispatcher.{
  server_side, is_empty_string, on_received, process_context,
}
use ausweis_app2_omapi.Remote.Dispatcher.Context.{
  passes_on, run, on_received-passes_on, run-keeps_context,
}
use ausweis_app2_omapi.Remote.Server.Connections.{
  ReaderInfo, CardConnection, Connections, find_connection, uses_reader,
  slot_handle_for_reader_name,
}
use ausweis_app2_omapi.Remote.Server.Handlers.{
  Environment, handle_ifd_connect, call_create_card_connection, on_remote_message,
}
use ausweis_app2_omapi.Remote.Server.Completions.{
  on_create_card_connection_command_done, on_reader_changed, on_transmit_card_command_done,
  send_establish_pace_channel_response, answer_modify_pin,
}
use ausweis_app2_omapi.Card.PaceOutput.{EstablishPaceChannelOutput, new_output}
use ausweis_app2_omapi.Remote.Server.Answers.{
  responds, count_responses, count_answers, on_remote_message_answers,
}
use ausweis_app2_omapi.Remote.Server.Held.{IsHeld, on_remote_message-IsHeld}
use ausweis_app2_omapi.Remote.Server.Removal.{IsUnshared, on_reader_changed-uses_reader}

parse_response-create_response_body_example :
    parse_response (create_response_body ifd_status Minor.ifdl_unknown_slot "context")
    ≡ response ifd_status "context" (major_of Minor.ifdl_unknown_slot) Minor.ifdl_unknown_slot
parse_response-create_response_body_example =
    parse_response-create_response_body ifd_status Minor.ifdl_unknown_slot "context"

-- A stand-in for the hexadecimal digits that reads back one array.
abbrev one_command : Bytes
one_command = 0x0c ∷ 0xa4 ∷ []

abbrev from_hex : String → Bytes
from_hex s = if str_eq s "0ca4" then one_command else []

abbrev bytes_of_text : Bytes → String
bytes_of_text bs = "0ca4"

parse_requests_example :
    (parse_get_status (get_status_to_json "slot" "context")
      ≡ asked ifd_get_status "context" "slot" [] false)
    × (parse_disconnect (disconnect_to_json "slot" "context")
        ≡ asked ifd_disconnect "context" "slot" [] false)
    × (parse_connect (connect_to_json "slot" true "context")
        ≡ asked ifd_connect "context" "slot" [] true)
    × (parse_transmit from_hex bytes_of_text
          (transmit_to_json from_hex bytes_of_text "slot" one_command "context")
        ≡ asked ifd_transmit "context" "slot" one_command false)
    × (parse_input from_hex bytes_of_text ifd_establish_pace_channel (
          input_to_json from_hex bytes_of_text ifd_establish_pace_channel "slot" one_command
            "context")
        ≡ asked ifd_establish_pace_channel "context" "slot" one_command false)
    × (parse_input from_hex bytes_of_text ifd_modify_pin
          (input_to_json from_hex bytes_of_text ifd_modify_pin "slot" one_command "context")
        ≡ asked ifd_modify_pin "context" "slot" one_command false)
parse_requests_example =
    parse_requests from_hex bytes_of_text "slot" one_command true "context" refl

abbrev disconnect_slot : JsonObject
disconnect_slot = disconnect_to_json "slot" "context"

passed_on : passes_on (on_received server_side "new" "context" disconnect_slot).1 ≡ true
unfolding on_received process_context disconnect_to_json parse_message
passed_on = refl

on_received-passes_on_example :
    (is_empty_string (parse_message disconnect_slot).context_handle ≡ false)
    × (str_eq "context" (parse_message disconnect_slot).context_handle ≡ true)
    × ((on_received server_side "new" "context" disconnect_slot).0 ≡ "context")
on_received-passes_on_example =
    on_received-passes_on server_side "new" "context" disconnect_slot passed_on

abbrev two_messages : List (String × JsonObject)
two_messages = ("first", disconnect_slot) ∷ ("second", disconnect_slot) ∷ []

run-keeps_context_example : (run "context" two_messages).0 ≡ "context"
run-keeps_context_example = run-keeps_context "context" two_messages refl

abbrev wave : ReaderInfo
wave = record { name = "slot"; connected = true; basic_reader = true; eid_card = true }

abbrev wave_without_card : ReaderInfo
wave_without_card = record {
  name = "slot";
  connected = true;
  basic_reader = true;
  eid_card = false;
}

abbrev connection : CardConnection
connection = record { reader = wave; secure_messaging = true }

abbrev held : Connections
held = ("handle", connection) ∷ []

abbrev with_card : Environment
with_card = record { reader_info = λ name. wave; reader_infos = wave ∷ []; pin_pad_mode = true }

abbrev without_card : Environment
without_card = record {
  reader_info = λ name. wave_without_card;
  reader_infos = wave_without_card ∷ [];
  pin_pad_mode = true;
}

abbrev transmission : JsonObject
transmission = transmit_to_json from_hex bytes_of_text "handle" one_command "context"

abbrev failed : ResponseApdu
failed = record { buffer = [] }

abbrev no_ccid : EstablishPaceChannelOutput → Bytes
no_ccid output = []

on_remote_message_answers_example :
    (count_answers ifd_transmit
        (on_remote_message from_hex bytes_of_text with_card held ifd_transmit transmission).1
      ≡ 1)
    × (count_responses ifd_connect
          (on_create_card_connection_command_done str_eq "new" "slot" (some connection) held).1
        ≡ 1)
    × (count_responses ifd_transmit
          (on_transmit_card_command_done held "slot" CardReturnCode.card_not_found [])
        ≡ 1)
    × (responds ifd_establish_pace_channel
          (send_establish_pace_channel_response no_ccid "slot" new_output)
        ≡ true)
    × (responds ifd_modify_pin (answer_modify_pin "slot" failed) ≡ true)
on_remote_message_answers_example =
    on_remote_message_answers from_hex bytes_of_text with_card held held ifd_transmit transmission
      str_eq "new" "slot" (some connection) CardReturnCode.card_not_found [] no_ccid new_output
      failed refl

on_remote_message-IsHeld_example :
    All
      (IsHeld with_card
        (on_remote_message from_hex bytes_of_text with_card held ifd_transmit transmission).0)
      (on_remote_message from_hex bytes_of_text with_card held ifd_transmit transmission).1
on_remote_message-IsHeld_example =
    on_remote_message-IsHeld from_hex bytes_of_text with_card held ifd_transmit transmission

held-IsUnshared : IsUnshared held
unfolding uses_reader
held-IsUnshared = (refl, tt)

on_reader_changed-uses_reader_example :
    (uses_reader (on_reader_changed without_card held "slot").0 "slot" ≡ false)
    × (find_connection (on_reader_changed without_card held "slot").0 "handle" ≡ (
        if str_eq (slot_handle_for_reader_name held "slot") "handle"
        then none
        else find_connection held "handle"))
on_reader_changed-uses_reader_example =
    on_reader_changed-uses_reader without_card held "slot" "handle" held-IsUnshared refl

-- Two requests to connect one reader that come in before the first command has run.
abbrev connect_slot : JsonObject
connect_slot = connect_to_json "slot" true "context"

abbrev in_order : String → String → Bool
in_order a b = str_eq a "first"

abbrev connected_twice : Connections
connected_twice =
    (on_create_card_connection_command_done in_order "second" "slot" (some connection)
      (on_create_card_connection_command_done in_order "first" "slot" (some connection) []).0).0

both_accepted :
    handle_ifd_connect with_card [] connect_slot ≡ call_create_card_connection "slot" ∷ []
unfolding handle_ifd_connect connect_to_json
both_accepted = refl

-- When the card goes, one of the two connections stays.
one_stays : uses_reader (on_reader_changed without_card connected_twice "slot").0 "slot" ≡ true
unfolding on_reader_changed on_create_card_connection_command_done uses_reader
one_stays = refl

-- A card that found the data of the command invalid.
abbrev invalid_data : ResponseApdu
invalid_data = record { buffer = 0x6a ∷ 0x80 ∷ [] }

abbrev from_hex_status : String → Bytes
from_hex_status s = 0x6a ∷ 0x80 ∷ []

abbrev status_text : Bytes → String
status_text bs = "6a80"

set_eid_pin-status_code_to_card_return_code_example :
    (set_eid_pin from_hex_status status_text (
      some (
        modify_pin_response_to_json from_hex_status status_text "slot" invalid_data.buffer
          (modify_pin_minor (get_return_code invalid_data))
          "context"))).0
    ≡ (if get_return_code invalid_data == empty
        then CardReturnCode.card_not_found
        else if get_return_code invalid_data == invalid_datafield
        then CardReturnCode.unknown
        else status_code_to_card_return_code invalid_data.buffer)
set_eid_pin-status_code_to_card_return_code_example =
    set_eid_pin-status_code_to_card_return_code from_hex_status status_text "slot" "context"
      invalid_data refl refl
