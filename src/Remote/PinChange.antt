-- ===== src/Remote/PinChange.antt =====
-- The change of a PIN at a remote reader: src/remote_device/messages/IfdModifyPinResponse.cpp,
-- src/remote_device/plugin/RemoteCard.cpp (`setEidPin`) and src/card/base/PinModifyOutput.cpp.
pub mod EndToEnd
use ausweis_app2_omapi.Prelude.{
  ℕ, Bool, true, false, not, ◌&&◌, ◌==◌, if◌then◌else◌, Option, none, some, List, [], ◌∷◌, Bytes,
  String, length,
}
use ausweis_app2_omapi.Global.Minor.{Minor}
use ausweis_app2_omapi.Global.ReturnCode.{CardReturnCode}
use ausweis_app2_omapi.Apdu.Response.{ResponseApdu, get_return_code}
use ausweis_app2_omapi.Apdu.StatusCode.{
  success, input_timeout, input_cancelled, passwords_differ, password_outof_range,
}
use ausweis_app2_omapi.Remote.Json.{JsonObject, json_string, put, get_string_value}
use ausweis_app2_omapi.Remote.Messages.{
  RemoteMessageResponse, ifd_modify_pin_response, create_response_body, parse_response, has_error,
  type_name,
}
use text.Mathlib.Text.{◌==◌ as str_eq}

abbrev pub invalid_datafield : ℕ
invalid_datafield = 0x6a80

unfoldable pub code_of_status : ℕ → CardReturnCode
code_of_status code =
    if code == input_timeout
    then CardReturnCode.input_time_out
    else if code == input_cancelled
    then CardReturnCode.cancellation_by_user
    else if code == passwords_differ
    then CardReturnCode.new_pin_mismatch
    else if code == password_outof_range
    then CardReturnCode.new_pin_invalid_length
    else if code == invalid_datafield
    then CardReturnCode.command_failed
    else if code == success
    then CardReturnCode.ok
    else CardReturnCode.unknown

-- `PinModifyOutput::getReturnCode`: at two bytes, the status is the one of the response.
unfoldable pub status_code_to_card_return_code : Bytes → CardReturnCode
unfolding code_of_status get_return_code
status_code_to_card_return_code buffer =
    if not (length buffer == 2)
    then CardReturnCode.unknown
    else code_of_status (get_return_code (record { buffer = buffer }))

-- `IfdModifyPinResponse::getReturnCode`
unfoldable pub code_of_minor : Minor → CardReturnCode
code_of_minor Minor.ifdl_timeout_error = CardReturnCode.input_time_out
code_of_minor Minor.ifdl_cancellation_by_user = CardReturnCode.cancellation_by_user
code_of_minor Minor.ifdl_io_repeated_data_mismatch = CardReturnCode.new_pin_mismatch
code_of_minor Minor.ifdl_io_unknown_pin_format = CardReturnCode.new_pin_invalid_length
code_of_minor Minor.ifdl_terminal_no_card = CardReturnCode.card_not_found
code_of_minor Minor.al_unkown_api_function = CardReturnCode.protocol_error
code_of_minor Minor.al_unknown_error = CardReturnCode.unknown
code_of_minor _ = CardReturnCode.command_failed

unfoldable pub return_code_of_response : RemoteMessageResponse → CardReturnCode
unfolding code_of_minor
return_code_of_response r =
    if not (has_error r.result_major) then CardReturnCode.ok else code_of_minor r.result_minor

module _ (from_hex : String → Bytes) (to_hex : Bytes → String) where
  unfoldable pub modify_pin_response_to_json : String → Bytes → Minor → String → JsonObject
  unfolding put create_response_body
  modify_pin_response_to_json slot output minor handle =
      put "OutputData" (json_string (to_hex output)) (
        put "SlotHandle" (json_string slot)
          (create_response_body ifd_modify_pin_response minor handle))

  -- `IfdModifyPinResponse`: the result, the bytes, and whether the message is complete.
  unfoldable pub parse_modify_pin_response : JsonObject → RemoteMessageResponse × (Bytes × Bool)
  unfolding parse_response get_string_value type_name
  parse_modify_pin_response o =
      let r = parse_response o in
      let slot = get_string_value o "SlotHandle" in
      let output = get_string_value o "OutputData" in
      (
        r,
        (
          from_hex output.0,
          r.message.complete
              && slot.1
              && output.1
              && str_eq (type_name r.message.message_type) (type_name ifd_modify_pin_response),
        ),
      )

  -- `RemoteCard::setEidPin` at the answer that came in time, if one did: the return code, and the
  -- response, if it is set.
  unfoldable pub set_eid_pin : Option JsonObject → CardReturnCode × Option ResponseApdu
  unfolding parse_modify_pin_response return_code_of_response status_code_to_card_return_code
  set_eid_pin none = (CardReturnCode.input_time_out, none)
  set_eid_pin (some o) =
      let r = parse_modify_pin_response o in
      if has_error r.0.result_major
      then (return_code_of_response r.0, none)
      else if r.1.1
      then (status_code_to_card_return_code r.1.0, some (record { buffer = r.1.0 }))
      else (CardReturnCode.command_failed, none)
