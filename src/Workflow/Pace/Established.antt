-- ===== src/Workflow/Pace/Established.antt =====
-- When the PACE part reports an established channel.
use ausweis_app2_omapi.Prelude.{
  ℕ, Bool, true, false, ◌≡◌, refl, ap, ◌∙◌, ◌&&◌, ◌||◌, if◌then◌else◌, arith,
}
use ausweis_app2_omapi.Global.ReturnCode.{CardReturnCode, return_code_eq}
use ausweis_app2_omapi.Card.PasswordId.{PacePasswordId, password_id_eq}
use ausweis_app2_omapi.Card.PaceOutput.{EstablishPaceChannelOutput}
use ausweis_app2_omapi.Workflow.Context.Fields.{WorkflowContext}
use ausweis_app2_omapi.Workflow.Context.{
  set_last_pace_result, set_pace_output_data, handle_wrong_npa_position, set_npa_position_verified,
  reset_pace_passwords, set_expected_retry_counter,
}
use ausweis_app2_omapi.Workflow.Pace.Establish.{
  authorises, handle_npa_position, expect_counter, by_return_code, on_establish_connection_done,
}
use ausweis_app2_omapi.Workflow.Pace.Signals.{Outcome, fires, fire_pace_channel_established}

abbrev pub is_established : Outcome → Bool
is_established (fires fire_pace_channel_established c) = true
is_established _ = false

result_keeps_mode :
    (r : CardReturnCode) (c : WorkflowContext)
    → (set_last_pace_result r c).can_allowed_mode ≡ c.can_allowed_mode
unfolding set_last_pace_result
result_keeps_mode r c = ground arith

reset_keeps_mode :
    (c : WorkflowContext) → (reset_pace_passwords c).can_allowed_mode ≡ c.can_allowed_mode
unfolding reset_pace_passwords
reset_keeps_mode c = ground arith

position_keeps_mode :
    (now : ℕ) (r : CardReturnCode) (c : WorkflowContext)
    → (handle_npa_position now r c).can_allowed_mode ≡ c.can_allowed_mode
unfolding handle_npa_position handle_wrong_npa_position set_npa_position_verified
position_keeps_mode now r c = ground arith

counter_keeps_mode :
    (p : PacePasswordId) (r : CardReturnCode) (c : WorkflowContext)
    → (expect_counter p r c).can_allowed_mode ≡ c.can_allowed_mode
unfolding expect_counter set_expected_retry_counter
counter_keeps_mode PacePasswordId.pace_puk CardReturnCode.ok c = reset_keeps_mode c
counter_keeps_mode PacePasswordId.pace_puk _ c = refl
counter_keeps_mode PacePasswordId.pace_pin CardReturnCode.ok c = refl
counter_keeps_mode PacePasswordId.pace_pin _ c = refl
counter_keeps_mode _ r c = refl

-- What the answer leaves before the `switch` over the return code.
abbrev stored : PacePasswordId → EstablishPaceChannelOutput → WorkflowContext → WorkflowContext
stored p output c =
    if password_id_eq p PacePasswordId.pace_puk then c else set_pace_output_data output c

stored_keeps_mode :
    (p : PacePasswordId) (output : EstablishPaceChannelOutput) (c : WorkflowContext)
    → (stored p output c).can_allowed_mode ≡ c.can_allowed_mode
unfolding set_pace_output_data
stored_keeps_mode p output c = ground arith

by_code_established :
    (now : ℕ) (p : PacePasswordId) (r : CardReturnCode) (c : WorkflowContext)
    → is_established (by_return_code now p r c)
      ≡ return_code_eq r CardReturnCode.ok && authorises p c
unfolding by_return_code return_code_eq
by_code_established now p CardReturnCode.ok c = ground arith
by_code_established now p _ c = ground arith

-- The answer to a PACE command makes the state report an established channel just if the card returned
-- OK and the password was the PIN, or the CAN where it is allowed instead.
pub on_establish_connection_done-is_established :
    (now : ℕ) (p : PacePasswordId) (r : CardReturnCode) (output : EstablishPaceChannelOutput)
    (c : WorkflowContext)
    → is_established (on_establish_connection_done now p r output c)
      ≡ return_code_eq r CardReturnCode.ok
        && (password_id_eq p PacePasswordId.pace_pin
            || password_id_eq p PacePasswordId.pace_can && c.can_allowed_mode)
unfolding on_establish_connection_done
on_establish_connection_done-is_established now p r output c =
    let kept = stored p output c in
    let resulted = set_last_pace_result r kept in
    let placed = handle_npa_position now r resulted in
    by_code_established now p r (expect_counter p r placed)
    ∙ ap
        (λ mode.
          return_code_eq r CardReturnCode.ok
          && (password_id_eq p PacePasswordId.pace_pin
              || password_id_eq p PacePasswordId.pace_can && mode))
        (counter_keeps_mode p r placed
          ∙ position_keeps_mode now r resulted
          ∙ result_keeps_mode r kept
          ∙ stored_keeps_mode p output c)
