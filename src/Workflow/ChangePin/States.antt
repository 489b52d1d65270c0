-- ===== src/Workflow/ChangePin/States.antt =====
-- src/core/states/StatePrepareChangePin.cpp, StateEnterNewPacePin.cpp, StateChangePin.cpp, and what
-- AbstractState.cpp does in each state of the controller when the user cancels. These states are
-- constructed such that they do not listen for the removal of a card.
use text.Mathlib.Text.{◌==◌ as str_eq}
use ausweis_app2_omapi.Prelude.{
  Bool, true, false, ◌≡◌, refl, if◌then◌else◌, Option, none, some, String, arith,
}
use mathlib.Core.Bool.{false≢true}
use ausweis_app2_omapi.Global.Status.{Code, of_code}
use ausweis_app2_omapi.Global.ReturnCode.{CardReturnCode, return_code_eq, to_global_status}
use ausweis_app2_omapi.Workflow.Context.Fields.{
  WorkflowContext, ContextKind, change_pin_context, CardConnection,
}
use ausweis_app2_omapi.Workflow.Context.{set_last_pace_result, set_success_message, update_status}
use ausweis_app2_omapi.Workflow.ChangePin.{
  ChangePinState, pace, final, prepare_change_pin, enter_new_pace_pin, change_pin, ChangePinSignal,
  fire_abort, fire_continue, fire_enter_new_pace_pin, fire_invalid_pin, transition,
}

pub data ChangePinOutcome : Type 0 where
  fires : ChangePinSignal → WorkflowContext → ChangePinOutcome
  calls_set_eid_pin : String → WorkflowContext → ChangePinOutcome
  unreachable : ChangePinOutcome

-- The cast to ChangePinContext gives a null pointer for another context, which is not checked.
unfoldable pub prepare_by_kind : ContextKind → WorkflowContext → ChangePinOutcome
prepare_by_kind (change_pin_context new_pin message) c =
    if str_eq new_pin "" then fires fire_enter_new_pace_pin c else fires fire_continue c
prepare_by_kind _ c = unreachable

unfoldable pub run_prepare_change_pin : WorkflowContext → ChangePinOutcome
unfolding prepare_by_kind
run_prepare_change_pin c = prepare_by_kind c.kind c

-- The user interface sets the new PIN before it approves the state.
unfoldable pub run_enter_new_pace_pin : WorkflowContext → ChangePinOutcome
run_enter_new_pace_pin c = fires fire_continue c

unfoldable pub change_by_kind :
    Option CardConnection → ContextKind → WorkflowContext → ChangePinOutcome
change_by_kind (some connection) (change_pin_context new_pin message) c =
    calls_set_eid_pin new_pin c
change_by_kind _ _ c = unreachable

unfoldable pub run_change_pin : WorkflowContext → ChangePinOutcome
unfolding change_by_kind
run_change_pin c = change_by_kind c.card_connection c.kind c

-- The text is the key of the translation.
unfoldable pub set_eid_pin_by_code : CardReturnCode → WorkflowContext → ChangePinOutcome
set_eid_pin_by_code CardReturnCode.ok c =
    fires fire_continue (set_success_message "You have successfully changed your PIN." c)
set_eid_pin_by_code CardReturnCode.cancellation_by_user c =
    fires fire_abort (update_status (to_global_status CardReturnCode.cancellation_by_user) c)
set_eid_pin_by_code CardReturnCode.new_pin_mismatch c =
    fires fire_invalid_pin (update_status (to_global_status CardReturnCode.new_pin_mismatch) c)
set_eid_pin_by_code _ c = fires fire_abort c

unfoldable pub on_set_eid_pin_done : CardReturnCode → WorkflowContext → ChangePinOutcome
unfolding set_eid_pin_by_code
on_set_eid_pin_done r c = set_eid_pin_by_code r (set_last_pace_result r c)

unfoldable pub on_user_cancelled : WorkflowContext → ChangePinOutcome
on_user_cancelled c =
    fires fire_abort (update_status (of_code Code.workflow_cancellation_by_user) c)

abbrev pub is_continue : ChangePinOutcome → Bool
is_continue (fires fire_continue c) = true
is_continue _ = false

abbrev is_some : Option ChangePinState → Bool
is_some none = false
is_some (some s) = true

abbrev pub is_handled : ChangePinState → ChangePinOutcome → Bool
is_handled s (fires signal c) = is_some (transition s signal)
is_handled s _ = true

continues :
    (r : CardReturnCode) (c : WorkflowContext)
    → is_continue (set_eid_pin_by_code r c) ≡ return_code_eq r CardReturnCode.ok
unfolding set_eid_pin_by_code return_code_eq
continues CardReturnCode.ok c = refl
continues _ c = refl

-- The machine goes on to the end of the PACE channel just if the card took the new PIN.
pub on_set_eid_pin_done-continues :
    (r : CardReturnCode) (c : WorkflowContext)
    → is_continue (on_set_eid_pin_done r c) ≡ return_code_eq r CardReturnCode.ok
unfolding on_set_eid_pin_done
on_set_eid_pin_done-continues r c = continues r (set_last_pace_result r c)

code_handled :
    (r : CardReturnCode) (c : WorkflowContext)
    → is_handled change_pin (set_eid_pin_by_code r c) ≡ true
unfolding set_eid_pin_by_code transition
code_handled CardReturnCode.ok c = refl
code_handled _ c = refl

change_handled :
    (connection : Option CardConnection) (kind : ContextKind) (c : WorkflowContext)
    → is_handled change_pin (change_by_kind connection kind c) ≡ true
unfolding change_by_kind
change_handled (some connection) (change_pin_context new_pin message) c = refl
change_handled _ _ c = refl

prepare_handled :
    (kind : ContextKind) (c : WorkflowContext)
    → is_handled prepare_change_pin (prepare_by_kind kind c) ≡ true
unfolding prepare_by_kind transition
prepare_handled (change_pin_context new_pin message) c = ground arith
prepare_handled _ c = refl

-- The states of the controller but its end and the composite state of PACE, which has states of its own.
abbrev pub is_single : ChangePinState → Bool
is_single pace = false
is_single final = false
is_single _ = true

abort_handled :
    (s : ChangePinState) (c : WorkflowContext)
    → is_single s ≡ true
    → is_handled s (fires fire_abort c) ≡ true
unfolding transition
abort_handled pace c h = absurd (false≢true h)
abort_handled final c h = absurd (false≢true h)
abort_handled _ c h = refl

-- The controller has a transition for every signal that the three states of the change of a PIN fire
-- when they run or their command ends, and for the one that any of its states, but the composite state
-- of PACE and the end, fires when the user cancels.
pub change_pin_states-is_handled :
    (r : CardReturnCode) (c : WorkflowContext) (s : ChangePinState)
    → is_single s ≡ true
    → (is_handled prepare_change_pin (run_prepare_change_pin c) ≡ true)
      × (is_handled enter_new_pace_pin (run_enter_new_pace_pin c) ≡ true)
      × (is_handled change_pin (run_change_pin c) ≡ true)
      × (is_handled change_pin (on_set_eid_pin_done r c) ≡ true)
      × (is_handled s (on_user_cancelled c) ≡ true)
unfolding run_prepare_change_pin run_enter_new_pace_pin on_set_eid_pin_done transition
    on_user_cancelled run_change_pin
change_pin_states-is_handled r c s h = (
  prepare_handled c.kind c,
  refl,
  change_handled c.card_connection c.kind c,
  code_handled r (set_last_pace_result r c),
  abort_handled s (update_status (of_code Code.workflow_cancellation_by_user) c) h,
)
