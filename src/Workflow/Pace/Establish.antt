-- ===== src/Workflow/Pace/Establish.antt =====
-- src/core/states/StateEstablishPaceChannel.cpp. The member `mPasswordId` is the password that `run`
-- took from the context; it is an argument of the handlers.
use text.Mathlib.Text.{◌==◌ as str_eq}
use ausweis_app2_omapi.Prelude.{
  ℕ, Bool, if◌then◌else◌, ◌&&◌, ◌||◌, [], Option, none, some, String, Bytes, ℤ, pos, minus_one,
  int_eq,
}
use ausweis_app2_omapi.Global.ReturnCode.{CardReturnCode, return_code_eq, to_global_status}
use ausweis_app2_omapi.Card.PasswordId.{PacePasswordId, password_id_eq}
use ausweis_app2_omapi.Card.PaceOutput.{EstablishPaceChannelOutput}
use ausweis_app2_omapi.Workflow.Context.Fields.{
  WorkflowContext, CardConnection, ContextKind, auth_context,
}
use ausweis_app2_omapi.Workflow.Context.{
  reset_pace_passwords, reset_last_pace_result, set_last_pace_result, set_expected_retry_counter,
  set_establish_pace_channel_type, set_npa_position_verified, handle_wrong_npa_position,
  is_npa_repositioning_required, set_pace_output_data, set_success_message, update_status,
}
use ausweis_app2_omapi.Workflow.Pace.{on_user_cancelled}
use ausweis_app2_omapi.Workflow.Pace.Signals.{
  fire_continue, fire_abort, fire_pace_channel_established, fire_pace_puk_established,
  fire_abort_and_unfortunate_card_position, call_establish_pace_channel, call_unblock_pin, Outcome,
  fires, calls, unreachable,
}

unfoldable pub abort : WorkflowContext → Outcome
abort c = fires fire_abort (reset_last_pace_result c)

-- The password is a PIN, or a CAN that stands for one.
abbrev pub authorises : PacePasswordId → WorkflowContext → Bool
authorises p c =
    password_id_eq p PacePasswordId.pace_pin
    || password_id_eq p PacePasswordId.pace_can && c.can_allowed_mode

abbrev description_of : ContextKind → Bytes
description_of (auth_context description chat) = description
description_of _ = []

abbrev chat_of : ContextKind → Bytes
chat_of (auth_context description chat) = chat
chat_of _ = []

abbrev pub password_of : PacePasswordId → WorkflowContext → String
password_of PacePasswordId.pace_can c = c.can
password_of PacePasswordId.pace_pin c = c.pin
password_of PacePasswordId.pace_puk c = c.puk
password_of PacePasswordId.pace_mrz c = ""
password_of PacePasswordId.unknown c = ""

abbrev call_with : PacePasswordId → String → WorkflowContext → Outcome
call_with p password c =
    let chat = if authorises p c then chat_of c.kind else [] in
    let description = if authorises p c then description_of c.kind else [] in
    if password_id_eq p PacePasswordId.pace_puk
    then calls (call_unblock_pin password) c
    else calls (call_establish_pace_channel p password chat description) c

abbrev pub establish_with : Option CardConnection → PacePasswordId → WorkflowContext → Outcome
establish_with none p c = abort c
establish_with (some connection) p c =
    let taken = set_establish_pace_channel_type PacePasswordId.unknown c in
    let password = password_of p taken in
    if str_eq password "" && connection.basic_reader
    then abort (reset_pace_passwords taken)
    else call_with p password taken

unfoldable pub run_establish_pace_channel : WorkflowContext → Outcome
unfolding set_establish_pace_channel_type password_id_eq
run_establish_pace_channel c = establish_with c.card_connection c.establish_pace_channel_type c

unfoldable pub on_establish_user_cancelled : WorkflowContext → Outcome
unfolding on_user_cancelled
on_establish_user_cancelled c =
    on_user_cancelled (set_last_pace_result CardReturnCode.cancellation_by_user c)

unfoldable pub handle_npa_position : ℕ → CardReturnCode → WorkflowContext → WorkflowContext
handle_npa_position now r c =
    if return_code_eq r CardReturnCode.card_not_found
      || return_code_eq r CardReturnCode.retry_allowed
    then handle_wrong_npa_position now c
    else set_npa_position_verified c

-- The expected retry counter after a success.
unfoldable pub expect_counter : PacePasswordId → CardReturnCode → WorkflowContext → WorkflowContext
expect_counter PacePasswordId.pace_pin CardReturnCode.ok c = set_expected_retry_counter (pos 3) c
expect_counter PacePasswordId.pace_puk CardReturnCode.ok c =
    set_expected_retry_counter minus_one (reset_pace_passwords c)
expect_counter p r c = c

unfoldable pub established : PacePasswordId → WorkflowContext → Outcome
unfolding password_id_eq
established p c =
    if authorises p c
    then fires fire_pace_channel_established c
    else if password_id_eq p PacePasswordId.pace_puk
    then fires fire_pace_puk_established (
        set_success_message "PIN successfully unblocked"
          (set_last_pace_result CardReturnCode.ok_puk c))
    else fires fire_continue c

-- The third wrong PIN is told apart from the second by what the card counts now.
abbrev wrong_pin_result : ℤ → CardReturnCode
wrong_pin_result counter =
    if int_eq counter (pos 2)
    then CardReturnCode.invalid_pin_2
    else if int_eq counter (pos 1)
    then CardReturnCode.invalid_pin_3
    else CardReturnCode.invalid_pin

-- The connection is used unchecked.
abbrev wrong_pin : Option CardConnection → WorkflowContext → Outcome
wrong_pin none c = unreachable
wrong_pin (some connection) c =
    fires fire_abort (set_last_pace_result (wrong_pin_result connection.retry_counter) c)

unfoldable pub by_return_code : ℕ → PacePasswordId → CardReturnCode → WorkflowContext → Outcome
unfolding established
by_return_code now p CardReturnCode.ok c = established p c
by_return_code now p CardReturnCode.puk_inoperative c =
    fires fire_abort (update_status (to_global_status CardReturnCode.puk_inoperative) c)
by_return_code now p CardReturnCode.cancellation_by_user c =
    fires fire_abort (update_status (to_global_status CardReturnCode.cancellation_by_user) c)
by_return_code now p CardReturnCode.invalid_pin c = wrong_pin c.card_connection c
by_return_code now p r c =
    if is_npa_repositioning_required now c
    then fires fire_abort_and_unfortunate_card_position c
    else fires fire_abort c

-- `onEstablishConnectionDone`: the output is taken from a command that was no unblocking.
unfoldable pub on_establish_connection_done :
    ℕ → PacePasswordId → CardReturnCode → EstablishPaceChannelOutput → WorkflowContext → Outcome
unfolding password_id_eq handle_npa_position expect_counter by_return_code
on_establish_connection_done now p r output c =
    let stored =
      if password_id_eq p PacePasswordId.pace_puk then c else set_pace_output_data output c in
    let placed = handle_npa_position now r (set_last_pace_result r stored) in
    by_return_code now p r (expect_counter p r placed)
