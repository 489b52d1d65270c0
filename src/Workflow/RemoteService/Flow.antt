-- ===== src/Workflow/RemoteService/Flow.antt =====
-- How a remote service ends, and what it passes.
use mathlib.Core.Bool.{false≢true}
use ausweis_app2_omapi.Prelude.{Bool, true, false, ◌≡◌, refl, ap, sym, ◌∙◌}
use ausweis_app2_omapi.Workflow.Graph.{repeated, Walk, keeps, Walk-invariant}
use ausweis_app2_omapi.Workflow.RemoteService.{
  RemoteServiceState, start_remote_service, verify_retry_counter, prepare_pace_remote,
  enter_pace_password_remote, establish_pace_channel_remote, stop_remote_service, final,
  RemoteServiceSignal, fire_continue, fire_abort, fire_establish_pace_channel, fire_modify_pin,
  fire_secure_messaging_stopped, fire_enter_pace_password, fire_wrong_pace_password,
  fire_enter_new_pace_pin, fire_pace_password_modified, initial, transition,
}

-- From any state of a remote service, six signals `fireAbort` lead to its end.
pub remote_service_abort_ends :
    (s : RemoteServiceState) → repeated transition 6 fire_abort s ≡ final
unfolding repeated transition
remote_service_abort_ends start_remote_service = refl
remote_service_abort_ends _ = refl

abbrev pub not_verify : RemoteServiceState → Bool
not_verify verify_retry_counter = false
not_verify _ = true

abbrev before_verify : RemoteServiceState → Bool
before_verify prepare_pace_remote = false
before_verify enter_pace_password_remote = false
before_verify establish_pace_channel_remote = false
before_verify _ = true

before_verify_kept :
    (s : RemoteServiceState) (signal : RemoteServiceSignal)
    → keeps transition not_verify before_verify s signal ≡ true
unfolding transition
before_verify_kept start_remote_service fire_continue = refl
before_verify_kept _ fire_continue = refl
before_verify_kept start_remote_service fire_abort = refl
before_verify_kept _ fire_abort = refl
before_verify_kept start_remote_service fire_establish_pace_channel = refl
before_verify_kept _ fire_establish_pace_channel = refl
before_verify_kept start_remote_service fire_modify_pin = refl
before_verify_kept _ fire_modify_pin = refl
before_verify_kept start_remote_service fire_secure_messaging_stopped = refl
before_verify_kept _ fire_secure_messaging_stopped = refl
before_verify_kept start_remote_service fire_enter_pace_password = refl
before_verify_kept _ fire_enter_pace_password = refl
before_verify_kept start_remote_service fire_wrong_pace_password = refl
before_verify_kept _ fire_wrong_pace_password = refl
before_verify_kept start_remote_service fire_enter_new_pace_pin = refl
before_verify_kept _ fire_enter_new_pace_pin = refl
before_verify_kept start_remote_service fire_pace_password_modified = refl
before_verify_kept _ fire_pace_password_modified = refl

-- A remote service does not come to the state EstablishPaceChannelRemote without the state that verifies
-- the retry counter.
pub card_used_behind_counter :
    (s : RemoteServiceState)
    → Walk transition not_verify initial s
    → ¬ (s ≡ establish_pace_channel_remote)
card_used_behind_counter s walk e = false≢true (
    ap before_verify (sym e)
    ∙ Walk-invariant transition not_verify before_verify before_verify_kept initial s walk refl)

abbrev pub not_stop : RemoteServiceState → Bool
not_stop stop_remote_service = false
not_stop _ = true

abbrev before_stop : RemoteServiceState → Bool
before_stop final = false
before_stop _ = true

before_stop_kept :
    (s : RemoteServiceState) (signal : RemoteServiceSignal)
    → keeps transition not_stop before_stop s signal ≡ true
unfolding transition
before_stop_kept start_remote_service fire_continue = refl
before_stop_kept _ fire_continue = refl
before_stop_kept start_remote_service fire_abort = refl
before_stop_kept _ fire_abort = refl
before_stop_kept start_remote_service fire_establish_pace_channel = refl
before_stop_kept _ fire_establish_pace_channel = refl
before_stop_kept start_remote_service fire_modify_pin = refl
before_stop_kept _ fire_modify_pin = refl
before_stop_kept start_remote_service fire_secure_messaging_stopped = refl
before_stop_kept _ fire_secure_messaging_stopped = refl
before_stop_kept start_remote_service fire_enter_pace_password = refl
before_stop_kept _ fire_enter_pace_password = refl
before_stop_kept start_remote_service fire_wrong_pace_password = refl
before_stop_kept _ fire_wrong_pace_password = refl
before_stop_kept start_remote_service fire_enter_new_pace_pin = refl
before_stop_kept _ fire_enter_new_pace_pin = refl
before_stop_kept start_remote_service fire_pace_password_modified = refl
before_stop_kept _ fire_pace_password_modified = refl

-- A remote service does not come to its end without the state StopRemoteService.
pub remote_service_stops :
    (s : RemoteServiceState) → Walk transition not_stop initial s → ¬ (s ≡ final)
remote_service_stops s walk e = false≢true (
    ap before_stop (sym e)
    ∙ Walk-invariant transition not_stop before_stop before_stop_kept initial s walk refl)
