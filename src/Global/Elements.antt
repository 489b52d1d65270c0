-- ===== src/Global/Elements.antt =====
-- The calls of `ECardApiResult::initConversionMaps`, in their order.
use ausweis_app2_omapi.Prelude.{List, [], ◌∷◌}
use ausweis_app2_omapi.Global.Status.{
  Code, unknown_error, no_error, network_service_unavailable, network_ssl_establishment_error,
  network_time_out, network_proxy_error, network_other_error, downloader_file_not_found,
  downloader_cannot_save_file, downloader_data_corrupted, workflow_already_in_progress_error,
  workflow_communication_missing_redirect_url, workflow_cancellation_by_user, workflow_card_removed,
  workflow_cannot_confirm_id_card_authenticity, workflow_unknown_paos_form_eid_server,
  workflow_unexpected_message_from_eid_server, workflow_pin_blocked_and_puk_objectionable,
  workflow_preverification_developermode_error, workflow_preverification_error,
  workflow_no_unique_at_cvc, workflow_no_unique_dv_cvc, workflow_no_permission_error,
  workflow_certificate_no_description, workflow_certificate_no_url_in_description,
  workflow_certificate_hash_error, workflow_certificate_sop_error,
  workflow_error_page_transmission_error, workflow_redirect_transmission_error,
  workflow_processing_error, workflow_trusted_channel_establishment_error,
  workflow_trusted_channel_error_from_server, workflow_trusted_channel_hash_not_in_description,
  workflow_trusted_channel_no_data_received,
  workflow_trusted_channel_ssl_certificate_unsupported_algorithm_or_length,
  workflow_trusted_channel_service_unavailable, workflow_trusted_channel_time_out,
  workflow_trusted_channel_proxy_error, workflow_trusted_channel_ssl_establishment_error,
  workflow_trusted_channel_server_format_error, workflow_trusted_channel_other_network_error,
  workflow_reader_became_inaccessible, workflow_reader_communication_error,
  workflow_server_incomplete_information_provided,
  workflow_network_ssl_connection_unsupported_algorithm_or_length,
  workflow_network_ssl_certificate_unsupported_algorithm_or_length,
  workflow_nerwork_ssl_hash_not_in_certificate_description, workflow_network_empty_redirect_url,
  workflow_network_expected_redirect, workflow_network_invalid_scheme,
  workflow_network_malformed_redirect_url, workflow_wrong_parameter_invocation,
  paos_unexpected_warning, paos_generic_server_error, paos_error_al_unknown_error,
  paos_error_al_internal_error, paos_error_al_communication_error,
  paos_error_dp_trusted_channel_establishment_failed, paos_error_sal_cancellation_by_user,
  paos_error_sal_invalid_key, workflow_reader_device_connection_error,
  workflow_reader_device_scan_error, card_not_found, card_communication_error, card_protocol_error,
  card_unexpected_transmit_status, card_cancellation_by_user, card_input_time_out, card_invalid_pin,
  card_invalid_can, card_invalid_puk, card_pin_blocked, card_pin_not_blocked, card_puk_blocked,
  card_new_pin_mismatch, card_new_pin_invalid_length, remote_reader_close_code_normal_close,
  remote_reader_close_code_abnormal_close, remote_reader_close_code_undefined,
  remote_connector_invalid_request, remote_connector_empty_password,
  remote_connector_no_supported_api_level, remote_connector_connection_timeout,
  remote_connector_connection_error, remote_connector_remote_host_refused_connection,
}
use ausweis_app2_omapi.Global.Minor.{
  Minor, null, al_unknown_error, al_no_permission, al_internal_error, al_parameter_error,
  al_unkown_api_function, al_not_initialized, al_warning_connection_disconnected,
  al_session_terminated_warning, al_communication_error, dp_timeout_error,
  dp_unknown_channel_handle, dp_communication_error, dp_trusted_channel_establishment_failed,
  dp_unknown_protocol, dp_unknown_cipher_suite, dp_unknown_webservice_binding,
  dp_node_not_reachable, ifdl_timeout_error, ifdl_unknown_slot, ifdl_invalid_slot_handle,
  ifdl_cancellation_by_user, ifdl_ifd_sharing_violation, ifdl_terminal_no_card,
  ifdl_io_repeated_data_mismatch, ifdl_io_unknown_pin_format, il_signature_invalid_certificate_path,
  key_key_generation_not_possible, sal_cancellation_by_user, sal_invalid_key,
  sal_security_condition_not_satisfied, sal_meac_age_verification_failed_warning,
  sal_meac_community_verification_failed_warning, sal_meac_document_validity_verification_failed,
}

unfoldable pub conversion_elements : List (Code × Minor)
conversion_elements =
    (paos_error_al_unknown_error, al_unknown_error)
    ∷ (paos_unexpected_warning, al_unknown_error)
    ∷ (unknown_error, al_unknown_error)
    ∷ (card_unexpected_transmit_status, al_unknown_error)
    ∷ (no_error, null)
    ∷ (remote_reader_close_code_normal_close, null)
    ∷ (workflow_card_removed, ifdl_cancellation_by_user)
    ∷ (workflow_no_unique_dv_cvc, il_signature_invalid_certificate_path)
    ∷ (workflow_no_unique_at_cvc, il_signature_invalid_certificate_path)
    ∷ (workflow_preverification_error, il_signature_invalid_certificate_path)
    ∷ (workflow_preverification_developermode_error, il_signature_invalid_certificate_path)
    ∷ (workflow_certificate_no_description, al_parameter_error)
    ∷ (workflow_certificate_no_url_in_description, al_parameter_error)
    ∷ (workflow_certificate_hash_error, al_parameter_error)
    ∷ (workflow_certificate_sop_error, al_parameter_error)
    ∷ (paos_error_dp_trusted_channel_establishment_failed, dp_trusted_channel_establishment_failed)
    ∷ (workflow_trusted_channel_establishment_error, dp_trusted_channel_establishment_failed)
    ∷ (workflow_trusted_channel_error_from_server, dp_trusted_channel_establishment_failed)
    ∷ (workflow_trusted_channel_hash_not_in_description, dp_trusted_channel_establishment_failed)
    ∷ (workflow_trusted_channel_no_data_received, dp_trusted_channel_establishment_failed)
    ∷ (
      workflow_trusted_channel_ssl_certificate_unsupported_algorithm_or_length,
      dp_trusted_channel_establishment_failed,
    )
    ∷ (workflow_trusted_channel_service_unavailable, dp_trusted_channel_establishment_failed)
    ∷ (workflow_trusted_channel_time_out, dp_trusted_channel_establishment_failed)
    ∷ (workflow_trusted_channel_proxy_error, dp_trusted_channel_establishment_failed)
    ∷ (workflow_trusted_channel_ssl_establishment_error, dp_trusted_channel_establishment_failed)
    ∷ (workflow_trusted_channel_server_format_error, dp_trusted_channel_establishment_failed)
    ∷ (workflow_trusted_channel_other_network_error, dp_trusted_channel_establishment_failed)
    ∷ (paos_error_sal_cancellation_by_user, sal_cancellation_by_user)
    ∷ (workflow_cancellation_by_user, sal_cancellation_by_user)
    ∷ (card_cancellation_by_user, sal_cancellation_by_user)
    ∷ (workflow_no_permission_error, al_no_permission)
    ∷ (paos_error_al_communication_error, al_communication_error)
    ∷ (workflow_communication_missing_redirect_url, al_communication_error)
    ∷ (workflow_error_page_transmission_error, al_communication_error)
    ∷ (workflow_redirect_transmission_error, al_communication_error)
    ∷ (workflow_processing_error, al_communication_error)
    ∷ (workflow_reader_became_inaccessible, al_communication_error)
    ∷ (workflow_reader_communication_error, al_communication_error)
    ∷ (workflow_reader_device_connection_error, al_communication_error)
    ∷ (workflow_reader_device_scan_error, al_communication_error)
    ∷ (workflow_server_incomplete_information_provided, al_communication_error)
    ∷ (network_ssl_establishment_error, al_communication_error)
    ∷ (workflow_network_ssl_connection_unsupported_algorithm_or_length, al_communication_error)
    ∷ (workflow_network_ssl_certificate_unsupported_algorithm_or_length, al_communication_error)
    ∷ (workflow_nerwork_ssl_hash_not_in_certificate_description, al_communication_error)
    ∷ (workflow_network_empty_redirect_url, al_communication_error)
    ∷ (workflow_network_expected_redirect, al_communication_error)
    ∷ (workflow_network_invalid_scheme, al_communication_error)
    ∷ (workflow_network_malformed_redirect_url, al_communication_error)
    ∷ (network_service_unavailable, al_communication_error)
    ∷ (network_time_out, al_communication_error)
    ∷ (network_proxy_error, al_communication_error)
    ∷ (network_other_error, al_communication_error)
    ∷ (workflow_wrong_parameter_invocation, al_communication_error)
    ∷ (card_invalid_pin, al_communication_error)
    ∷ (card_invalid_can, al_communication_error)
    ∷ (card_invalid_puk, al_communication_error)
    ∷ (card_puk_blocked, al_communication_error)
    ∷ (card_new_pin_invalid_length, al_unknown_error)
    ∷ (workflow_already_in_progress_error, al_unknown_error)
    ∷ (card_not_found, al_unknown_error)
    ∷ (card_communication_error, al_unknown_error)
    ∷ (card_input_time_out, al_unknown_error)
    ∷ (card_pin_blocked, al_unknown_error)
    ∷ (card_pin_not_blocked, al_unknown_error)
    ∷ (card_new_pin_mismatch, al_unknown_error)
    ∷ (paos_error_al_internal_error, al_internal_error)
    ∷ (workflow_cannot_confirm_id_card_authenticity, al_internal_error)
    ∷ (workflow_unknown_paos_form_eid_server, al_internal_error)
    ∷ (workflow_unexpected_message_from_eid_server, al_internal_error)
    ∷ (workflow_pin_blocked_and_puk_objectionable, al_internal_error)
    ∷ (card_protocol_error, al_internal_error)
    ∷ (paos_generic_server_error, al_unkown_api_function)
    ∷ (paos_generic_server_error, al_not_initialized)
    ∷ (paos_generic_server_error, al_warning_connection_disconnected)
    ∷ (paos_generic_server_error, al_session_terminated_warning)
    ∷ (paos_generic_server_error, dp_timeout_error)
    ∷ (paos_generic_server_error, dp_unknown_channel_handle)
    ∷ (paos_generic_server_error, dp_communication_error)
    ∷ (paos_generic_server_error, dp_unknown_protocol)
    ∷ (paos_generic_server_error, dp_unknown_cipher_suite)
    ∷ (paos_generic_server_error, dp_unknown_webservice_binding)
    ∷ (paos_generic_server_error, dp_node_not_reachable)
    ∷ (paos_generic_server_error, ifdl_timeout_error)
    ∷ (paos_generic_server_error, ifdl_unknown_slot)
    ∷ (paos_generic_server_error, ifdl_invalid_slot_handle)
    ∷ (paos_generic_server_error, ifdl_ifd_sharing_violation)
    ∷ (paos_generic_server_error, ifdl_terminal_no_card)
    ∷ (paos_generic_server_error, ifdl_io_repeated_data_mismatch)
    ∷ (paos_generic_server_error, ifdl_io_unknown_pin_format)
    ∷ (paos_generic_server_error, key_key_generation_not_possible)
    ∷ (paos_generic_server_error, il_signature_invalid_certificate_path)
    ∷ (paos_generic_server_error, sal_security_condition_not_satisfied)
    ∷ (paos_generic_server_error, sal_meac_age_verification_failed_warning)
    ∷ (paos_generic_server_error, sal_meac_community_verification_failed_warning)
    ∷ (paos_generic_server_error, sal_meac_document_validity_verification_failed)
    ∷ (paos_error_sal_invalid_key, sal_invalid_key)
    ∷ (downloader_data_corrupted, al_unknown_error)
    ∷ (remote_reader_close_code_abnormal_close, al_unknown_error)
    ∷ (remote_reader_close_code_undefined, al_unknown_error)
    ∷ (remote_connector_invalid_request, al_unknown_error)
    ∷ (remote_connector_empty_password, al_unknown_error)
    ∷ (remote_connector_no_supported_api_level, al_unknown_error)
    ∷ (remote_connector_connection_timeout, al_unknown_error)
    ∷ (remote_connector_connection_error, al_unknown_error)
    ∷ (remote_connector_remote_host_refused_connection, al_unknown_error)
    ∷ (downloader_file_not_found, al_unknown_error)
    ∷ (downloader_cannot_save_file, al_unknown_error)
    ∷ []
