-- ===== src/Workflow/Pace/Counter.antt =====
-- What the check of the retry counter leaves, and which password is used at which counter.
use text.Mathlib.Text.{◌==◌ as str_eq}
use ausweis_app2_omapi.Prelude.{
  Bool, minus_one, true, false, ◌≡◌, if◌then◌else◌, ◌&&◌, ◌||◌, not, ℤ, pos, int_eq, negsuc, arith,
}
use ausweis_app2_omapi.Card.PasswordId.{PacePasswordId}
use ausweis_app2_omapi.Workflow.Context.Fields.{WorkflowContext, CardConnection}
use ausweis_app2_omapi.Workflow.Context.{is_expected_reader, set_establish_pace_channel_type}
use ausweis_app2_omapi.Workflow.Pace.{verify_counter, prepare_with}
use ausweis_app2_omapi.Workflow.Pace.Establish.{password_of}
use ausweis_app2_omapi.Workflow.Pace.Passwords.{no_passwords, cleared}
use ausweis_app2_omapi.Workflow.Pace.Signals.{
  Outcome, fires, fire_enter_pace_password, fire_establish_pace_channel,
}

int_eq_refl : (n : ℤ) → int_eq n n ≡ true
int_eq_refl (pos n) = ground arith
int_eq_refl (negsuc n) = ground arith

-- Behind the check, the counter that the context expects is the one of the card.
pub verify_counter-expected :
    (current : ℤ) (c : WorkflowContext)
    → int_eq (verify_counter current c).expected_retry_counter current ≡ true
unfolding verify_counter
verify_counter-expected current c = let same = int_eq_refl current in ground arith

-- Where the card counts something else than expected, or another reader is used, the check leaves no
-- password.
pub verify_counter-forgets :
    (current : ℤ) (c : WorkflowContext)
    → is_expected_reader c && int_eq c.expected_retry_counter current ≡ false
    → no_passwords (verify_counter current c) ≡ true
unfolding verify_counter
verify_counter-forgets current c h = let after = cleared c in ground arith

-- The password for a card that counts `counter`.
abbrev pub needed : CardConnection → WorkflowContext → PacePasswordId
needed connection c =
    if c.can_allowed_mode
      || int_eq connection.retry_counter (pos 1) && not connection.pace_can_successful
    then PacePasswordId.pace_can
    else if int_eq connection.retry_counter (pos 0)
    then PacePasswordId.pace_puk
    else PacePasswordId.pace_pin

-- The secret of that kind is used at once if the context has it, and is asked for if not.
abbrev pub used : PacePasswordId → WorkflowContext → Outcome
used p c =
    if str_eq (password_of p c) ""
    then fires fire_enter_pace_password (set_establish_pace_channel_type p c)
    else fires fire_establish_pace_channel (set_establish_pace_channel_type p c)

-- Whether the card already accepted the password.
abbrev pub accepted : PacePasswordId → CardConnection → Bool
accepted PacePasswordId.pace_can connection = connection.pace_can_successful
accepted PacePasswordId.pace_pin connection = connection.pace_pin_successful
accepted _ connection = false

-- Where the counter is known, or the CAN is allowed instead of the PIN, and the CAN or the PIN, if it is
-- the password in question, was not already accepted, PACE is prepared as follows: for the CAN where it
-- is allowed instead of the PIN, or where one attempt is left and the CAN was not accepted, for the PUK
-- where no attempt is left, and else for the PIN; the password is asked for if the context has none.
pub prepare_with-used :
    (connection : CardConnection) (c : WorkflowContext)
    → c.can_allowed_mode || not (int_eq connection.retry_counter minus_one) ≡ true
    → accepted (needed connection c) connection ≡ false
    → prepare_with connection c ≡ used (needed connection c) c
unfolding prepare_with set_establish_pace_channel_type
prepare_with-used connection c known unused = ground arith
