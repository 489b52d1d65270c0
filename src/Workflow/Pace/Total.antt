-- ===== src/Workflow/Pace/Total.antt =====
-- No signal that a state fires is lost.
use ausweis_app2_omapi.Prelude.{
  ℕ, Bool, true, false, ◌≡◌, refl, String, subst, Option, none, some, arith,
}
use ausweis_app2_omapi.Global.Status.{Code, of_code}
use ausweis_app2_omapi.Workflow.Context.{update_status}
use ausweis_app2_omapi.Global.ReturnCode.{CardReturnCode}
use ausweis_app2_omapi.Card.PasswordId.{PacePasswordId}
use ausweis_app2_omapi.Card.PaceOutput.{EstablishPaceChannelOutput}
use ausweis_app2_omapi.Workflow.Context.Fields.{WorkflowContext, CardConnection}
use ausweis_app2_omapi.Workflow.Pace.{
  maintain_by_result, run_maintain_card_connection, run_update_retry_counter,
  run_verify_retry_counter, prepare_with, prepare_if, verify_with, run_prepare_pace,
  on_update_retry_counter_done, on_user_cancelled, on_card_removed, run_destroy_pace,
  run_clear_pace_passwords, run_unfortunate_card_position, run_enter_pace_password,
  on_destroy_pace_done,
}
use ausweis_app2_omapi.Workflow.Pace.Establish.{
  run_establish_pace_channel, establish_with, abort, by_return_code, on_establish_connection_done,
  on_establish_user_cancelled,
}
use ausweis_app2_omapi.Workflow.Pace.Passwords.{on_card_removed_lem}
use ausweis_app2_omapi.Workflow.Pace.Signals.{fire_abort, Outcome, fires}
use ausweis_app2_omapi.Workflow.Pace.Machine.{
  PaceState, maintain_card_connection, clear_pace_passwords_on_error, select_card,
  update_retry_counter, verify_retry_counter, prepare_pace, unfortunate_card_position,
  enter_pace_password, establish_pace_channel, clear_pace_passwords_before_destroy, destroy_pace,
  transition, run, cancel, Ends, ran, password_entered, retry_counter_updated, channel_done,
  destroyed, card_selected, selection_aborted, cancelled, cancelled_meanwhile, card_removed,
  card_removed_meanwhile,
}

abbrev is_some {ℓ} : {A : Type ℓ} → Option A → Bool
is_some none = false
is_some (some a) = true

-- The state has a transition for the signal that it fires, if it fires one.
abbrev pub is_handled : PaceState → Outcome → Bool
is_handled s (fires signal c) = is_some (transition s signal)
is_handled s _ = true

maintain_handled :
    (r : CardReturnCode) (c : WorkflowContext)
    → is_handled maintain_card_connection (maintain_by_result r c) ≡ true
unfolding transition maintain_by_result
maintain_handled CardReturnCode.ok c = ground arith
maintain_handled _ c = ground arith

prepare_handled :
    (connection : CardConnection) (c : WorkflowContext)
    → is_handled prepare_pace (prepare_with connection c) ≡ true
unfolding transition prepare_with
prepare_handled connection c = ground arith

establish_handled :
    (connection : Option CardConnection) (p : PacePasswordId) (c : WorkflowContext)
    → is_handled establish_pace_channel (establish_with connection p c) ≡ true
unfolding transition abort
establish_handled none p c = refl
establish_handled (some connection) p c = ground arith

return_code_handled :
    (now : ℕ) (p : PacePasswordId) (r : CardReturnCode) (c : WorkflowContext)
    → is_handled establish_pace_channel (by_return_code now p r c) ≡ true
unfolding transition by_return_code
return_code_handled now p CardReturnCode.ok c = ground arith
return_code_handled now p _ c = ground arith

update_handled :
    (r : CardReturnCode) (c : WorkflowContext)
    → is_handled update_retry_counter (on_update_retry_counter_done r c) ≡ true
unfolding transition on_update_retry_counter_done
update_handled r c = ground arith

run_maintain_handled :
    (c : WorkflowContext)
    → is_handled maintain_card_connection (run_maintain_card_connection c) ≡ true
unfolding run_maintain_card_connection transition
run_maintain_handled c =
    let switch : is_handled maintain_card_connection (maintain_by_result c.last_pace_result c)
        ≡ true =
      maintain_handled c.last_pace_result c in
    ground arith

verify_handled :
    (connection : Option CardConnection) (c : WorkflowContext)
    → is_handled verify_retry_counter (verify_with connection c) ≡ true
unfolding transition
verify_handled none c = refl
verify_handled (some connection) c = refl

prepare_if_handled :
    (connection : Option CardConnection) (c : WorkflowContext)
    → is_handled prepare_pace (prepare_if connection c) ≡ true
prepare_if_handled none c = unfold transition in refl
prepare_if_handled (some connection) c = prepare_handled connection c

channel_done_handled :
    (now : ℕ) (p : PacePasswordId) (r : CardReturnCode) (output : EstablishPaceChannelOutput)
    (c : WorkflowContext)
    → is_handled establish_pace_channel (on_establish_connection_done now p r output c) ≡ true
unfolding on_establish_connection_done
channel_done_handled now p r output c = return_code_handled now p r _

run_update_handled :
    (c : WorkflowContext) → is_handled update_retry_counter (run_update_retry_counter c) ≡ true
unfolding transition run_update_retry_counter
run_update_handled c = ground arith

run_destroy_handled : (c : WorkflowContext) → is_handled destroy_pace (run_destroy_pace c) ≡ true
unfolding transition run_destroy_pace
run_destroy_handled c = ground arith

run_handled : (s : PaceState) (c : WorkflowContext) → is_handled s (run s c) ≡ true
unfolding run
run_handled maintain_card_connection c = run_maintain_handled c
run_handled clear_pace_passwords_on_error c = unfold transition run_clear_pace_passwords in refl
run_handled select_card c = refl
run_handled update_retry_counter c = run_update_handled c
run_handled verify_retry_counter c =
    unfold run_verify_retry_counter in verify_handled c.card_connection c
run_handled prepare_pace c = unfold run_prepare_pace in prepare_if_handled c.card_connection c
run_handled unfortunate_card_position c = unfold transition run_unfortunate_card_position in refl
run_handled enter_pace_password c = unfold transition run_enter_pace_password in refl
run_handled establish_pace_channel c =
    unfold run_establish_pace_channel in
    establish_handled c.card_connection c.establish_pace_channel_type c
run_handled clear_pace_passwords_before_destroy c =
    unfold transition run_clear_pace_passwords in refl
run_handled destroy_pace c = run_destroy_handled c

cancel_handled : (s : PaceState) (c : WorkflowContext) → is_handled s (cancel s c) ≡ true
unfolding cancel transition on_user_cancelled on_establish_user_cancelled
cancel_handled establish_pace_channel c = refl
cancel_handled _ c = refl

abort_handled : (s : PaceState) (c : WorkflowContext) → is_handled s (fires fire_abort c) ≡ true
unfolding transition
abort_handled establish_pace_channel c = refl
abort_handled _ c = refl

removed_handled :
    (s : PaceState) (reader : String) (c : WorkflowContext) (o : Outcome)
    → on_card_removed reader c ≡ some o
    → is_handled s o ≡ true
removed_handled s reader c o e =
    subst (λ x. is_handled s x ≡ true) (on_card_removed_lem reader c o e)
      (abort_handled s (update_status (of_code Code.workflow_card_removed) c))

-- However a state of the PACE part ends (it runs, its card command returns any code, its selection of a
-- card ends, the user cancels, or the card is removed), the machine has a transition for the signal that
-- it fires.
pub Ends-is_handled :
    (s : PaceState) (c : WorkflowContext) (o : Outcome) → Ends s c o → is_handled s o ≡ true
Ends-is_handled s c o (ran _ _) = run_handled s c
Ends-is_handled s c o (password_entered can pin puk _) =
    unfold transition run_enter_pace_password in refl
Ends-is_handled s c o (retry_counter_updated connection r _ c' e) = update_handled r _
Ends-is_handled s c o (channel_done now command connection r output _ c' e) =
    channel_done_handled now c.establish_pace_channel_type r output _
Ends-is_handled s c o (destroyed connection _ c' e) = unfold transition on_destroy_pace_done in refl
Ends-is_handled s c o (card_selected reader connection _) = unfold transition in refl
Ends-is_handled s c o (selection_aborted reader connection _) = unfold transition in refl
Ends-is_handled s c o (cancelled _ _) = cancel_handled s c
Ends-is_handled s c o (cancelled_meanwhile _ command _ c' e) = cancel_handled s c'
Ends-is_handled s c o (card_removed _ reader _ _ e) = removed_handled s reader c o e
Ends-is_handled s c o (card_removed_meanwhile _ reader command _ c' _ e r) =
    removed_handled s reader c' o r
