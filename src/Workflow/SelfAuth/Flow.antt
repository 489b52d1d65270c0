-- ===== src/Workflow/SelfAuth/Flow.antt =====
-- How a self authentication ends, and what it passes.
use mathlib.Core.Bool.{false≢true}
use ausweis_app2_omapi.Prelude.{Bool, true, false, ◌≡◌, refl, ap, sym, ◌∙◌}
use ausweis_app2_omapi.Workflow.Graph.{repeated, Walk, keeps, Walk-invariant}
use ausweis_app2_omapi.Workflow.SelfAuth.{
  SelfAuthState, load_tc_token_url, check_error_epilogue, check_refresh_address,
  activate_store_feedback_dialog, write_history, send_whitelist_survey,
  get_self_authentication_data, clean_up_reader_manager, show_self_info, final, SelfAuthSignal,
  fire_continue, fire_abort, fire_received_did_list,
  fire_received_extract_cvcs_from_eac1_input_type, fire_received_start_paos_response,
  fire_received_disconnect, fire_pace_channel_established, fire_pace_puk_established,
  fire_send_did_authenticat_response, initial, transition,
}

-- From any state of a self authentication, eight signals `fireAbort` lead to its end.
pub self_auth_abort_ends : (s : SelfAuthState) → repeated transition 8 fire_abort s ≡ final
unfolding repeated transition
self_auth_abort_ends load_tc_token_url = refl
self_auth_abort_ends _ = refl

abbrev pub not_clean_up : SelfAuthState → Bool
not_clean_up clean_up_reader_manager = false
not_clean_up _ = true

abbrev before_clean_up : SelfAuthState → Bool
before_clean_up check_error_epilogue = false
before_clean_up check_refresh_address = false
before_clean_up activate_store_feedback_dialog = false
before_clean_up write_history = false
before_clean_up get_self_authentication_data = false
before_clean_up show_self_info = false
before_clean_up send_whitelist_survey = false
before_clean_up final = false
before_clean_up _ = true

before_clean_up_kept :
    (s : SelfAuthState) (signal : SelfAuthSignal)
    → keeps transition not_clean_up before_clean_up s signal ≡ true
unfolding transition
before_clean_up_kept load_tc_token_url fire_continue = refl
before_clean_up_kept _ fire_continue = refl
before_clean_up_kept load_tc_token_url fire_abort = refl
before_clean_up_kept _ fire_abort = refl
before_clean_up_kept load_tc_token_url fire_received_did_list = refl
before_clean_up_kept _ fire_received_did_list = refl
before_clean_up_kept load_tc_token_url fire_received_extract_cvcs_from_eac1_input_type = refl
before_clean_up_kept _ fire_received_extract_cvcs_from_eac1_input_type = refl
before_clean_up_kept load_tc_token_url fire_received_start_paos_response = refl
before_clean_up_kept _ fire_received_start_paos_response = refl
before_clean_up_kept load_tc_token_url fire_received_disconnect = refl
before_clean_up_kept _ fire_received_disconnect = refl
before_clean_up_kept load_tc_token_url fire_pace_channel_established = refl
before_clean_up_kept _ fire_pace_channel_established = refl
before_clean_up_kept load_tc_token_url fire_pace_puk_established = refl
before_clean_up_kept _ fire_pace_puk_established = refl
before_clean_up_kept load_tc_token_url fire_send_did_authenticat_response = refl
before_clean_up_kept _ fire_send_did_authenticat_response = refl

-- A self authentication does not come to its end without the state CleanUpReaderManager.
pub self_auth_cleans_up :
    (s : SelfAuthState) → Walk transition not_clean_up initial s → ¬ (s ≡ final)
self_auth_cleans_up s walk e = false≢true (
    ap before_clean_up (sym e)
    ∙ Walk-invariant transition not_clean_up before_clean_up before_clean_up_kept initial s walk
        refl)
