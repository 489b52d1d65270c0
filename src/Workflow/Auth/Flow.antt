-- ===== src/Workflow/Auth/Flow.antt =====
-- How an authentication ends, and what it passes.
use mathlib.Core.Bool.{false≢true}
use ausweis_app2_omapi.Prelude.{Bool, true, false, ◌≡◌, refl, ap, sym, ◌∙◌}
use ausweis_app2_omapi.Workflow.Graph.{repeated, Walk, keeps, Walk-invariant}
use ausweis_app2_omapi.Workflow.Auth.{
  AuthState, processing, process_cvcs_and_set_rights, pace, clear_pace_passwords,
  did_authenticate_eac1, send_did_authenticate_response_eac1, eac_additional_input_type,
  send_did_authenticate_response_eac_additional_input, process_certificates_from_eac2,
  did_authenticate_eac2, send_did_authenticate_response_eac2, transmit, send_transmit_response,
  check_refresh_address, activate_store_feedback_dialog, write_history, redirect_browser,
  clean_up_reader_manager, send_whitelist_survey, final, AuthSignal, fire_continue, fire_abort,
  fire_received_did_list, fire_received_extract_cvcs_from_eac1_input_type,
  fire_received_start_paos_response, fire_received_disconnect, fire_pace_channel_established,
  fire_pace_puk_established, fire_send_did_authenticat_response, initial, transition,
}

-- From any state of an authentication, eight signals `fireAbort` lead to its end.
pub auth_abort_ends : (s : AuthState) → repeated transition 8 fire_abort s ≡ final
unfolding repeated transition
auth_abort_ends processing = refl
auth_abort_ends _ = refl

abbrev pub not_clean_up : AuthState → Bool
not_clean_up clean_up_reader_manager = false
not_clean_up _ = true

abbrev before_clean_up : AuthState → Bool
before_clean_up check_refresh_address = false
before_clean_up activate_store_feedback_dialog = false
before_clean_up write_history = false
before_clean_up send_whitelist_survey = false
before_clean_up redirect_browser = false
before_clean_up final = false
before_clean_up _ = true

before_clean_up_kept :
    (s : AuthState) (signal : AuthSignal)
    → keeps transition not_clean_up before_clean_up s signal ≡ true
unfolding transition
before_clean_up_kept processing fire_continue = refl
before_clean_up_kept _ fire_continue = refl
before_clean_up_kept processing fire_abort = refl
before_clean_up_kept _ fire_abort = refl
before_clean_up_kept processing fire_received_did_list = refl
before_clean_up_kept _ fire_received_did_list = refl
before_clean_up_kept processing fire_received_extract_cvcs_from_eac1_input_type = refl
before_clean_up_kept _ fire_received_extract_cvcs_from_eac1_input_type = refl
before_clean_up_kept processing fire_received_start_paos_response = refl
before_clean_up_kept _ fire_received_start_paos_response = refl
before_clean_up_kept processing fire_received_disconnect = refl
before_clean_up_kept _ fire_received_disconnect = refl
before_clean_up_kept processing fire_pace_channel_established = refl
before_clean_up_kept _ fire_pace_channel_established = refl
before_clean_up_kept processing fire_pace_puk_established = refl
before_clean_up_kept _ fire_pace_puk_established = refl
before_clean_up_kept processing fire_send_did_authenticat_response = refl
before_clean_up_kept _ fire_send_did_authenticat_response = refl

-- An authentication does not come to its end without the state CleanUpReaderManager.
pub auth_cleans_up : (s : AuthState) → Walk transition not_clean_up initial s → ¬ (s ≡ final)
auth_cleans_up s walk e = false≢true (
    ap before_clean_up (sym e)
    ∙ Walk-invariant transition not_clean_up before_clean_up before_clean_up_kept initial s walk
        refl)

abbrev pub not_clear : AuthState → Bool
not_clear clear_pace_passwords = false
not_clear _ = true

abbrev before_clear : AuthState → Bool
before_clear did_authenticate_eac1 = false
before_clear _ = true

before_clear_kept :
    (s : AuthState) (signal : AuthSignal) → keeps transition not_clear before_clear s signal ≡ true
unfolding transition
before_clear_kept processing fire_continue = refl
before_clear_kept _ fire_continue = refl
before_clear_kept processing fire_abort = refl
before_clear_kept _ fire_abort = refl
before_clear_kept processing fire_received_did_list = refl
before_clear_kept _ fire_received_did_list = refl
before_clear_kept processing fire_received_extract_cvcs_from_eac1_input_type = refl
before_clear_kept _ fire_received_extract_cvcs_from_eac1_input_type = refl
before_clear_kept processing fire_received_start_paos_response = refl
before_clear_kept _ fire_received_start_paos_response = refl
before_clear_kept processing fire_received_disconnect = refl
before_clear_kept _ fire_received_disconnect = refl
before_clear_kept processing fire_pace_channel_established = refl
before_clear_kept _ fire_pace_channel_established = refl
before_clear_kept processing fire_pace_puk_established = refl
before_clear_kept _ fire_pace_puk_established = refl
before_clear_kept processing fire_send_did_authenticat_response = refl
before_clear_kept _ fire_send_did_authenticat_response = refl

-- An authentication does not come to the state DidAuthenticateEac1 without the state that clears the
-- passwords.
pub eac1_clears_passwords :
    (s : AuthState) → Walk transition not_clear initial s → ¬ (s ≡ did_authenticate_eac1)
eac1_clears_passwords s walk e = false≢true (
    ap before_clear (sym e)
    ∙ Walk-invariant transition not_clear before_clear before_clear_kept initial s walk refl)

abbrev pub not_rights : AuthState → Bool
not_rights process_cvcs_and_set_rights = false
not_rights _ = true

abbrev before_rights : AuthState → Bool
before_rights pace = false
before_rights clear_pace_passwords = false
before_rights did_authenticate_eac1 = false
before_rights send_did_authenticate_response_eac1 = false
before_rights eac_additional_input_type = false
before_rights send_did_authenticate_response_eac_additional_input = false
before_rights process_certificates_from_eac2 = false
before_rights did_authenticate_eac2 = false
before_rights send_did_authenticate_response_eac2 = false
before_rights transmit = false
before_rights send_transmit_response = false
before_rights _ = true

before_rights_kept :
    (s : AuthState) (signal : AuthSignal)
    → keeps transition not_rights before_rights s signal ≡ true
unfolding transition
before_rights_kept processing fire_continue = refl
before_rights_kept _ fire_continue = refl
before_rights_kept processing fire_abort = refl
before_rights_kept _ fire_abort = refl
before_rights_kept processing fire_received_did_list = refl
before_rights_kept _ fire_received_did_list = refl
before_rights_kept processing fire_received_extract_cvcs_from_eac1_input_type = refl
before_rights_kept _ fire_received_extract_cvcs_from_eac1_input_type = refl
before_rights_kept processing fire_received_start_paos_response = refl
before_rights_kept _ fire_received_start_paos_response = refl
before_rights_kept processing fire_received_disconnect = refl
before_rights_kept _ fire_received_disconnect = refl
before_rights_kept processing fire_pace_channel_established = refl
before_rights_kept _ fire_pace_channel_established = refl
before_rights_kept processing fire_pace_puk_established = refl
before_rights_kept _ fire_pace_puk_established = refl
before_rights_kept processing fire_send_did_authenticat_response = refl
before_rights_kept _ fire_send_did_authenticat_response = refl

-- An authentication does not come to the PACE part without the state that checks the certificates and
-- lets the user choose the rights.
pub card_not_used_before_rights :
    (s : AuthState) → Walk transition not_rights initial s → ¬ (s ≡ pace)
card_not_used_before_rights s walk e = false≢true (
    ap before_rights (sym e)
    ∙ Walk-invariant transition not_rights before_rights before_rights_kept initial s walk refl)
