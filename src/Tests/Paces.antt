-- ===== src/Tests/Paces.antt =====
-- The PACE part, the change of a PIN, and the context: src/core.
use ausweis_app2_omapi.Prelude.{true, false, ◌≡◌, ◌⊎◌, refl, List, [], ◌∷◌, some, pos}
use ausweis_app2_omapi.Global.Status.{GlobalStatus, Code, of_code, is_no_error, is_error}
use ausweis_app2_omapi.Global.ReturnCode.{
  CardReturnCode, equals_wrong_pace_password, return_code_eq,
}
use ausweis_app2_omapi.Card.PaceOutput.{new_output}
use ausweis_app2_omapi.Workflow.Pace.Establish.{on_establish_connection_done}
use ausweis_app2_omapi.Workflow.Pace.Established.{
  is_established, on_establish_connection_done-is_established,
}
use ausweis_app2_omapi.Card.PasswordId.{password_id_eq, PacePasswordId}
use ausweis_app2_omapi.Workflow.Context.Fields.{
  WorkflowContext, CardConnection, ContextKind, new_context,
}
use ausweis_app2_omapi.Workflow.Context.{reset_pace_passwords, is_expected_reader}
use ausweis_app2_omapi.Workflow.Context.Laws.{updated, updated-first_error}
use ausweis_app2_omapi.Workflow.Pace.{
  run_maintain_card_connection, verify_counter, prepare_with, maintain_by_result,
}
use ausweis_app2_omapi.Workflow.Pace.Signals.{fire_force_update_retry_counter}
use ausweis_app2_omapi.Workflow.Pace.Machine.{
  maintain_card_connection, update_retry_counter, establish_pace_channel, transition, run, ran,
  step, entered,
}
use ausweis_app2_omapi.Workflow.Pace.Passwords.{no_passwords}
use ausweis_app2_omapi.Workflow.Pace.Safety.{
  asks, Unattended, here, further, rejected_password_not_sent,
}
use ausweis_app2_omapi.Workflow.Pace.Total.{is_handled, Ends-is_handled}
use ausweis_app2_omapi.Workflow.Pace.Counter.{verify_counter-forgets, used, prepare_with-used}
use ausweis_app2_omapi.Workflow.ChangePin.States.{
  on_set_eid_pin_done, change_pin_states-is_handled, run_prepare_change_pin, run_enter_new_pace_pin,
  run_change_pin, on_user_cancelled,
}
use ausweis_app2_omapi.Workflow.ChangePin.States.{is_handled as is_pin_handled}
use ausweis_app2_omapi.Workflow.ChangePin.{prepare_change_pin, enter_new_pace_pin, change_pin}

abbrev last_try_card : CardConnection
last_try_card = record {
  identity = 1;
  retry_counter = pos 1;
  basic_reader = true;
  pace_can_successful = false;
  pace_pin_successful = false;
}

abbrev fresh : WorkflowContext
fresh = new_context "de" ContextKind.other_context

abbrev rejected : WorkflowContext
rejected = record fresh {
  pin = "123456";
  last_pace_result = CardReturnCode.invalid_pin;
  card_connection = some last_try_card;
}

is_rejected : equals_wrong_pace_password rejected.last_pace_result ≡ true
unfolding equals_wrong_pace_password
is_rejected = refl

first_walk :
    Unattended maintain_card_connection rejected update_retry_counter
      (entered update_retry_counter (reset_pace_passwords rejected))
unfolding run transition run_maintain_card_connection maintain_by_result is_error new_context
    of_code reset_pace_passwords
first_walk =
    further maintain_card_connection maintain_card_connection update_retry_counter rejected rejected
      (entered update_retry_counter (reset_pace_passwords rejected))
      (step maintain_card_connection update_retry_counter rejected (reset_pace_passwords rejected)
        fire_force_update_retry_counter (ran maintain_card_connection rejected) refl)
      (here maintain_card_connection rejected) refl

rejected_password_not_sent_example :
    (¬ (update_retry_counter ≡ establish_pace_channel))
    × ((asks update_retry_counter ≡ false)
        ⊎ (no_passwords (entered update_retry_counter (reset_pace_passwords rejected)) ≡ true))
rejected_password_not_sent_example =
    rejected_password_not_sent rejected
      (entered update_retry_counter (reset_pace_passwords rejected)) update_retry_counter
      is_rejected first_walk

Ends-is_handled_example :
    is_handled maintain_card_connection (run maintain_card_connection rejected) ≡ true
Ends-is_handled_example =
    Ends-is_handled maintain_card_connection rejected (run maintain_card_connection rejected)
      (ran maintain_card_connection rejected)

prepare_with-used_example :
    prepare_with last_try_card rejected ≡ used PacePasswordId.pace_can rejected
unfolding new_context
prepare_with-used_example = prepare_with-used last_try_card rejected refl refl

verify_counter-forgets_example : no_passwords (verify_counter (pos 2) rejected) ≡ true
unfolding is_expected_reader new_context
verify_counter-forgets_example = verify_counter-forgets (pos 2) rejected refl

abbrev reports : List GlobalStatus
reports =
    of_code Code.no_error
    ∷ of_code Code.workflow_card_removed
    ∷ of_code Code.workflow_processing_error
    ∷ []

fresh-is_no_error : is_no_error fresh.status ≡ true
unfolding is_no_error new_context of_code
fresh-is_no_error = refl

updated-first_error_example : (updated reports fresh).status ≡ of_code Code.workflow_card_removed
unfolding is_error of_code new_context
updated-first_error_example = updated-first_error reports fresh fresh-is_no_error

change_pin_states-is_handled_example :
    (is_pin_handled prepare_change_pin (run_prepare_change_pin rejected) ≡ true)
    × (is_pin_handled enter_new_pace_pin (run_enter_new_pace_pin rejected) ≡ true)
    × (is_pin_handled change_pin (run_change_pin rejected) ≡ true)
    × (is_pin_handled change_pin (on_set_eid_pin_done CardReturnCode.ok rejected) ≡ true)
    × (is_pin_handled enter_new_pace_pin (on_user_cancelled rejected) ≡ true)
change_pin_states-is_handled_example =
    change_pin_states-is_handled CardReturnCode.ok rejected enter_new_pace_pin refl

on_establish_connection_done-is_established_example :
    is_established
      (on_establish_connection_done 0 PacePasswordId.pace_can CardReturnCode.ok new_output rejected)
    ≡ false
unfolding return_code_eq password_id_eq new_context
on_establish_connection_done-is_established_example =
    on_establish_connection_done-is_established 0 PacePasswordId.pace_can CardReturnCode.ok
      new_output rejected
