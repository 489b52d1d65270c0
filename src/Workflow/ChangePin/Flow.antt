-- ===== src/Workflow/ChangePin/Flow.antt =====
-- How the change of a PIN ends, and what it passes.
use mathlib.Core.Bool.{false≢true}
use ausweis_app2_omapi.Prelude.{Bool, true, false, ◌≡◌, refl, ap, sym, ◌∙◌}
use ausweis_app2_omapi.Workflow.Graph.{repeated, Walk, keeps, Walk-invariant}
use ausweis_app2_omapi.Workflow.ChangePin.{
  ChangePinState, pace, prepare_change_pin, enter_new_pace_pin, change_pin, clear_pace_passwords,
  destroy_pace, update_retry_counter_final, clean_up_reader_manager, final, ChangePinSignal,
  fire_pace_channel_established, fire_pace_puk_established, fire_abort, fire_continue,
  fire_enter_new_pace_pin, fire_invalid_pin, initial, transition,
}

-- From any state of the change of a PIN, six signals `fireAbort` lead to its end.
pub change_pin_abort_ends : (s : ChangePinState) → repeated transition 6 fire_abort s ≡ final
unfolding repeated transition
change_pin_abort_ends pace = refl
change_pin_abort_ends _ = refl

abbrev pub not_clear : ChangePinState → Bool
not_clear clear_pace_passwords = false
not_clear _ = true

abbrev before_clear : ChangePinState → Bool
before_clear update_retry_counter_final = false
before_clear clean_up_reader_manager = false
before_clear final = false
before_clear _ = true

before_clear_kept :
    (s : ChangePinState) (signal : ChangePinSignal)
    → keeps transition not_clear before_clear s signal ≡ true
unfolding transition
before_clear_kept pace fire_pace_channel_established = refl
before_clear_kept _ fire_pace_channel_established = refl
before_clear_kept pace fire_pace_puk_established = refl
before_clear_kept _ fire_pace_puk_established = refl
before_clear_kept pace fire_abort = refl
before_clear_kept _ fire_abort = refl
before_clear_kept pace fire_continue = refl
before_clear_kept _ fire_continue = refl
before_clear_kept pace fire_enter_new_pace_pin = refl
before_clear_kept _ fire_enter_new_pace_pin = refl
before_clear_kept pace fire_invalid_pin = refl
before_clear_kept _ fire_invalid_pin = refl

-- The change of a PIN does not come to its end without the state that clears the passwords.
pub final_clears_passwords :
    (s : ChangePinState) → Walk transition not_clear initial s → ¬ (s ≡ final)
final_clears_passwords s walk e = false≢true (
    ap before_clear (sym e)
    ∙ Walk-invariant transition not_clear before_clear before_clear_kept initial s walk refl)

abbrev pub not_prepare : ChangePinState → Bool
not_prepare prepare_change_pin = false
not_prepare _ = true

abbrev before_prepare : ChangePinState → Bool
before_prepare enter_new_pace_pin = false
before_prepare change_pin = false
before_prepare destroy_pace = false
before_prepare _ = true

before_prepare_kept :
    (s : ChangePinState) (signal : ChangePinSignal)
    → keeps transition not_prepare before_prepare s signal ≡ true
unfolding transition
before_prepare_kept pace fire_pace_channel_established = refl
before_prepare_kept _ fire_pace_channel_established = refl
before_prepare_kept pace fire_pace_puk_established = refl
before_prepare_kept _ fire_pace_puk_established = refl
before_prepare_kept pace fire_abort = refl
before_prepare_kept _ fire_abort = refl
before_prepare_kept pace fire_continue = refl
before_prepare_kept _ fire_continue = refl
before_prepare_kept pace fire_enter_new_pace_pin = refl
before_prepare_kept _ fire_enter_new_pace_pin = refl
before_prepare_kept pace fire_invalid_pin = refl
before_prepare_kept _ fire_invalid_pin = refl

-- The change of a PIN does not come to the state ChangePin, which sends the new PIN, without the state
-- PrepareChangePin.
pub pin_changed_behind_pace :
    (s : ChangePinState) → Walk transition not_prepare initial s → ¬ (s ≡ change_pin)
pin_changed_behind_pace s walk e = false≢true (
    ap before_prepare (sym e)
    ∙ Walk-invariant transition not_prepare before_prepare before_prepare_kept initial s walk refl)
