-- ===== src/Workflow/Pace.antt =====
-- src/core/states: the states inside CompositeStatePace. `run` is what a state does when it is approved:
-- it fires a signal, or it calls the card and goes on when the command is done. `Q_ASSERT` is not
-- compiled into a release build and is left out; `Q_UNREACHABLE` is the outcome `unreachable`.
pub mod Signals
pub mod Establish
pub mod Machine
pub mod Total
pub mod Passwords
pub mod Safety
pub mod Counter
pub mod Established
use text.Mathlib.Text.{◌==◌ as str_eq}
use ausweis_app2_omapi.Prelude.{
  ℕ, Bool, true, false, not, if◌then◌else◌, ◌&&◌, ◌||◌, [], Option, none, some, String, Bytes, ℤ,
  pos, minus_one, int_eq,
}
use ausweis_app2_omapi.Global.Status.{is_error, of_code, Code}
use ausweis_app2_omapi.Global.ReturnCode.{CardReturnCode, return_code_eq, to_global_status}
use ausweis_app2_omapi.Card.PasswordId.{PacePasswordId}
use ausweis_app2_omapi.Workflow.Context.Fields.{
  WorkflowContext, CardConnection, ContextKind, auth_context, change_pin_context, other_context,
}
use ausweis_app2_omapi.Workflow.Context.{
  reset_pace_passwords, reset_card_connection, reset_last_pace_result, set_last_pace_result,
  set_expected_retry_counter, remember_reader, is_expected_reader, set_establish_pace_channel_type,
  set_npa_position_verified, handle_wrong_npa_position, is_npa_repositioning_required,
  set_pace_output_data, set_success_message, update_status,
}
use Signals.{
  Signal, fire_continue, fire_abort, fire_no_card_connection, fire_force_update_retry_counter,
  fire_enter_pace_password, fire_establish_pace_channel, fire_pace_channel_established,
  fire_pace_puk_established, fire_abort_and_unfortunate_card_position, CardCommand,
  call_update_retry_counter, call_establish_pace_channel, call_unblock_pin,
  call_destroy_pace_channel, Outcome, fires, calls, waits, unreachable,
}

-- AbstractState.cpp: the user cancels, or the card in use is removed.
unfoldable pub on_user_cancelled : WorkflowContext → Outcome
on_user_cancelled c =
    fires fire_abort (update_status (of_code Code.workflow_cancellation_by_user) c)

unfoldable pub on_card_removed : String → WorkflowContext → Option Outcome
on_card_removed reader c =
    if str_eq reader c.reader_name
    then some (fires fire_abort (update_status (of_code Code.workflow_card_removed) c))
    else none

abbrev pub is_connected : Option CardConnection → Bool
is_connected none = false
is_connected (some connection) = true

-- StateMaintainCardConnection.cpp, behind the `switch`.
unfoldable pub maintain_rest : WorkflowContext → Outcome
maintain_rest c =
    if is_connected c.card_connection
    then fires fire_continue c
    else fires fire_no_card_connection c

unfoldable pub maintain_wrong : WorkflowContext → Outcome
maintain_wrong c =
    let cleared = reset_pace_passwords c in
    if is_connected cleared.card_connection
    then fires fire_force_update_retry_counter cleared
    else fires fire_no_card_connection cleared

unfoldable pub maintain_failed : CardReturnCode → WorkflowContext → Outcome
maintain_failed result c = fires fire_abort (update_status (to_global_status result) c)

-- The `switch` over the last result.
unfoldable pub maintain_by_result : CardReturnCode → WorkflowContext → Outcome
unfolding maintain_wrong maintain_rest maintain_failed
maintain_by_result CardReturnCode.cancellation_by_user c =
    maintain_failed CardReturnCode.cancellation_by_user c
maintain_by_result CardReturnCode.puk_inoperative c =
    maintain_failed CardReturnCode.puk_inoperative c
maintain_by_result CardReturnCode.input_time_out c = maintain_failed CardReturnCode.input_time_out c
maintain_by_result CardReturnCode.unknown c = maintain_failed CardReturnCode.unknown c
maintain_by_result CardReturnCode.undefined c = maintain_failed CardReturnCode.undefined c
maintain_by_result CardReturnCode.command_failed c = maintain_failed CardReturnCode.command_failed c
maintain_by_result CardReturnCode.protocol_error c = maintain_failed CardReturnCode.protocol_error c
maintain_by_result CardReturnCode.unexpected_transmit_status c =
    maintain_failed CardReturnCode.unexpected_transmit_status c
maintain_by_result CardReturnCode.invalid_can c = maintain_wrong c
maintain_by_result CardReturnCode.invalid_pin c = maintain_wrong c
maintain_by_result CardReturnCode.invalid_pin_2 c = maintain_wrong c
maintain_by_result CardReturnCode.invalid_pin_3 c = maintain_wrong c
maintain_by_result CardReturnCode.invalid_puk c = maintain_wrong c
maintain_by_result CardReturnCode.new_pin_mismatch c = maintain_wrong c
maintain_by_result CardReturnCode.new_pin_invalid_length c = maintain_wrong c
maintain_by_result CardReturnCode.pin_not_blocked c = maintain_wrong c
maintain_by_result CardReturnCode.pin_blocked c = maintain_wrong c
maintain_by_result CardReturnCode.retry_allowed c =
    maintain_rest (reset_last_pace_result (reset_card_connection c))
maintain_by_result CardReturnCode.card_not_found c =
    maintain_rest (reset_last_pace_result (reset_card_connection c))
maintain_by_result CardReturnCode.ok c = maintain_rest c
maintain_by_result CardReturnCode.ok_puk c =
    fires fire_force_update_retry_counter (reset_last_pace_result c)

unfoldable pub run_maintain_card_connection : WorkflowContext → Outcome
run_maintain_card_connection c =
    if is_error c.status then fires fire_abort c else maintain_by_result c.last_pace_result c

-- StateClearPacePasswords.cpp
unfoldable pub run_clear_pace_passwords : WorkflowContext → Outcome
run_clear_pace_passwords c = fires fire_continue (reset_pace_passwords c)

-- StateUpdateRetryCounter.cpp
unfoldable pub run_update_retry_counter : WorkflowContext → Outcome
run_update_retry_counter c =
    if is_connected c.card_connection then calls call_update_retry_counter c else fires fire_abort c

unfoldable pub on_update_retry_counter_done : CardReturnCode → WorkflowContext → Outcome
on_update_retry_counter_done result c =
    if return_code_eq result CardReturnCode.ok
    then fires fire_continue c
    else fires fire_abort (reset_card_connection c)

-- StateVerifyRetryCounter.cpp, with a connection whose card counts `current`.
unfoldable pub verify_counter : ℤ → WorkflowContext → WorkflowContext
unfolding is_expected_reader remember_reader set_expected_retry_counter
verify_counter current c =
    let forgotten = set_expected_retry_counter current (remember_reader (reset_pace_passwords c)) in
    let checked =
      if not (is_expected_reader c) || not (int_eq c.expected_retry_counter current)
      then forgotten
      else c in
    if int_eq checked.expected_retry_counter minus_one
    then set_expected_retry_counter current (remember_reader checked)
    else checked

abbrev pub verify_with : Option CardConnection → WorkflowContext → Outcome
verify_with none c = fires fire_abort c
verify_with (some connection) c = fires fire_continue (verify_counter connection.retry_counter c)

unfoldable pub run_verify_retry_counter : WorkflowContext → Outcome
run_verify_retry_counter c = verify_with c.card_connection c

-- StatePreparePace.cpp: ask for the password of this kind, or go on with the one at hand.
abbrev ask_or_establish : String → WorkflowContext → Outcome
ask_or_establish password c =
    if str_eq password ""
    then fires fire_enter_pace_password c
    else fires fire_establish_pace_channel c

abbrev as_puk : WorkflowContext → Outcome
as_puk c =
    let typed = set_establish_pace_channel_type PacePasswordId.pace_puk c in
    ask_or_establish typed.puk typed

abbrev as_pin : CardConnection → WorkflowContext → Outcome
as_pin connection c =
    let typed = set_establish_pace_channel_type PacePasswordId.pace_pin c in
    if connection.pace_pin_successful then unreachable else ask_or_establish typed.pin typed

-- `requestPaceCanIfStillRequired`; `otherwise` is what follows where it returns false.
abbrev as_can : CardConnection → WorkflowContext → (WorkflowContext → Outcome) → Outcome
as_can connection c otherwise =
    let typed = set_establish_pace_channel_type PacePasswordId.pace_can c in
    if connection.pace_can_successful then otherwise typed else ask_or_establish typed.can typed

unfoldable pub prepare_with : CardConnection → WorkflowContext → Outcome
unfolding set_establish_pace_channel_type
prepare_with connection c =
    if c.can_allowed_mode
    then as_can connection c (λ typed. fires fire_continue typed)
    else if int_eq connection.retry_counter (pos 0)
    then as_puk c
    else if int_eq connection.retry_counter (pos 1)
    then as_can connection c (as_pin connection)
    else as_pin connection c

abbrev pub prepare_if : Option CardConnection → WorkflowContext → Outcome
prepare_if none c = fires fire_abort c
prepare_if (some connection) c = prepare_with connection c

unfoldable pub run_prepare_pace : WorkflowContext → Outcome
unfolding prepare_with
run_prepare_pace c = prepare_if c.card_connection c

-- StateUnfortunateCardPosition.cpp
unfoldable pub run_unfortunate_card_position : WorkflowContext → Outcome
run_unfortunate_card_position c = fires fire_continue (set_npa_position_verified c)

-- StateEnterPacePassword.cpp; the user interface sets the password before it approves the state.
unfoldable pub run_enter_pace_password : WorkflowContext → Outcome
run_enter_pace_password c = fires fire_continue c

-- StateDestroyPace.cpp, which uses the connection unchecked.
unfoldable pub run_destroy_pace : WorkflowContext → Outcome
run_destroy_pace c =
    if is_connected c.card_connection then calls call_destroy_pace_channel c else unreachable

unfoldable pub on_destroy_pace_done : WorkflowContext → Outcome
on_destroy_pace_done c = fires fire_continue c
