-- ===== src/Workflow/Auth.antt =====
-- src/core/controller/AuthController.cpp: the states of an authentication and the transitions between them.
pub mod Flow
use ausweis_app2_omapi.Prelude.{Option, none, some}

pub data AuthState : Type 0 where
  processing parse_tc_token_url get_tc_token start_paos send_start_paos : AuthState
  initialize_framework send_initialize_framework_response did_list : AuthState
  send_did_list_response process_cvcs_and_set_rights pace : AuthState
  clear_pace_passwords did_authenticate_eac1 : AuthState
  send_did_authenticate_response_eac1 eac_additional_input_type : AuthState
  send_did_authenticate_response_eac_additional_input : AuthState
  process_certificates_from_eac2 did_authenticate_eac2 : AuthState
  send_did_authenticate_response_eac2 transmit send_transmit_response : AuthState
  send_disconnect_response start_paos_response check_refresh_address : AuthState
  activate_store_feedback_dialog write_history redirect_browser : AuthState
  update_retry_counter_final clean_up_reader_manager send_whitelist_survey : AuthState
  final : AuthState

pub data AuthSignal : Type 0 where
  fire_continue fire_abort fire_received_did_list : AuthSignal
  fire_received_extract_cvcs_from_eac1_input_type : AuthSignal
  fire_received_start_paos_response fire_received_disconnect : AuthSignal
  fire_pace_channel_established fire_pace_puk_established : AuthSignal
  fire_send_did_authenticat_response : AuthSignal

abbrev pub initial : AuthState
initial = processing

-- `none`: the state ignores the signal.
unfoldable pub transition : AuthState → AuthSignal → Option AuthState
transition processing fire_continue = some parse_tc_token_url
transition processing fire_abort = some clean_up_reader_manager
transition parse_tc_token_url fire_continue = some get_tc_token
transition parse_tc_token_url fire_abort = some clean_up_reader_manager
transition get_tc_token fire_continue = some start_paos
transition get_tc_token fire_abort = some clean_up_reader_manager
transition start_paos fire_continue = some send_start_paos
transition start_paos fire_abort = some clean_up_reader_manager
transition send_start_paos fire_continue = some initialize_framework
transition send_start_paos fire_abort = some clean_up_reader_manager
transition send_start_paos fire_received_did_list = some did_list
transition send_start_paos fire_received_extract_cvcs_from_eac1_input_type =
    some process_cvcs_and_set_rights
transition send_start_paos fire_received_start_paos_response = some start_paos_response
transition initialize_framework fire_continue = some send_initialize_framework_response
transition initialize_framework fire_abort = some send_initialize_framework_response
transition send_initialize_framework_response fire_continue = some did_list
transition send_initialize_framework_response fire_abort = some clean_up_reader_manager
transition send_initialize_framework_response fire_received_extract_cvcs_from_eac1_input_type =
    some process_cvcs_and_set_rights
transition send_initialize_framework_response fire_received_start_paos_response =
    some start_paos_response
transition did_list fire_continue = some send_did_list_response
transition did_list fire_abort = some send_did_list_response
transition send_did_list_response fire_continue = some process_cvcs_and_set_rights
transition send_did_list_response fire_abort = some clean_up_reader_manager
transition send_did_list_response fire_received_disconnect = some send_disconnect_response
transition send_did_list_response fire_received_start_paos_response = some start_paos_response
transition process_cvcs_and_set_rights fire_continue = some pace
transition process_cvcs_and_set_rights fire_abort = some send_did_authenticate_response_eac1
transition pace fire_pace_channel_established = some clear_pace_passwords
transition pace fire_pace_puk_established = some pace
transition pace fire_abort = some send_did_authenticate_response_eac1
transition clear_pace_passwords fire_continue = some did_authenticate_eac1
transition clear_pace_passwords fire_abort = some did_authenticate_eac1
transition did_authenticate_eac1 fire_continue = some send_did_authenticate_response_eac1
transition did_authenticate_eac1 fire_abort = some send_did_authenticate_response_eac1
transition send_did_authenticate_response_eac1 fire_continue = some eac_additional_input_type
transition send_did_authenticate_response_eac1 fire_abort = some update_retry_counter_final
transition send_did_authenticate_response_eac1 fire_received_disconnect =
    some send_disconnect_response
transition send_did_authenticate_response_eac1 fire_received_start_paos_response =
    some start_paos_response
transition eac_additional_input_type fire_continue = some process_certificates_from_eac2
transition eac_additional_input_type fire_abort =
    some send_did_authenticate_response_eac_additional_input
transition eac_additional_input_type fire_send_did_authenticat_response =
    some send_did_authenticate_response_eac_additional_input
transition send_did_authenticate_response_eac_additional_input fire_continue =
    some process_certificates_from_eac2
transition send_did_authenticate_response_eac_additional_input fire_abort =
    some update_retry_counter_final
transition send_did_authenticate_response_eac_additional_input fire_received_start_paos_response =
    some start_paos_response
transition process_certificates_from_eac2 fire_continue = some did_authenticate_eac2
transition process_certificates_from_eac2 fire_abort = some send_did_authenticate_response_eac2
transition did_authenticate_eac2 fire_continue = some send_did_authenticate_response_eac2
transition did_authenticate_eac2 fire_abort = some send_did_authenticate_response_eac2
transition send_did_authenticate_response_eac2 fire_continue = some transmit
transition send_did_authenticate_response_eac2 fire_abort = some update_retry_counter_final
transition send_did_authenticate_response_eac2 fire_received_disconnect =
    some send_disconnect_response
transition send_did_authenticate_response_eac2 fire_received_start_paos_response =
    some start_paos_response
transition transmit fire_continue = some send_transmit_response
transition transmit fire_abort = some send_transmit_response
transition send_transmit_response fire_continue = some transmit
transition send_transmit_response fire_abort = some update_retry_counter_final
transition send_transmit_response fire_received_disconnect = some send_disconnect_response
transition send_transmit_response fire_received_start_paos_response = some start_paos_response
transition send_disconnect_response fire_continue = some start_paos_response
transition send_disconnect_response fire_abort = some update_retry_counter_final
transition start_paos_response fire_continue = some update_retry_counter_final
transition start_paos_response fire_abort = some update_retry_counter_final
transition check_refresh_address fire_continue = some activate_store_feedback_dialog
transition check_refresh_address fire_abort = some redirect_browser
transition activate_store_feedback_dialog fire_continue = some write_history
transition activate_store_feedback_dialog fire_abort = some write_history
transition write_history fire_continue = some send_whitelist_survey
transition write_history fire_abort = some redirect_browser
transition redirect_browser fire_continue = some final
transition redirect_browser fire_abort = some final
transition update_retry_counter_final fire_continue = some clean_up_reader_manager
transition update_retry_counter_final fire_abort = some clean_up_reader_manager
transition clean_up_reader_manager fire_continue = some check_refresh_address
transition clean_up_reader_manager fire_abort = some check_refresh_address
transition send_whitelist_survey fire_continue = some redirect_browser
transition send_whitelist_survey fire_abort = some redirect_browser
transition _ _ = none
