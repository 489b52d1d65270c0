-- ===== src/Global/Status.antt =====
-- src/global/GlobalStatus.h and GlobalStatus.cpp: the status of a workflow. The translated texts of
-- `toErrorDescriptionInternal` are not modelled; `external_information` is kept as it is given.
use ausweis_app2_omapi.Prelude.{ℕ, Bool, true, false, not, ◌||◌, ◌==◌, List, [], String}

pub data Code : Type 0 where
  unknown_error no_error network_service_unavailable network_ssl_establishment_error : Code
  network_time_out network_proxy_error network_other_error downloader_file_not_found : Code
  downloader_cannot_save_file downloader_data_corrupted workflow_already_in_progress_error : Code
  workflow_communication_missing_redirect_url workflow_cancellation_by_user : Code
  workflow_card_removed workflow_cannot_confirm_id_card_authenticity : Code
  workflow_unknown_paos_form_eid_server workflow_unexpected_message_from_eid_server : Code
  workflow_pin_blocked_and_puk_objectionable workflow_preverification_developermode_error : Code
  workflow_preverification_error workflow_no_unique_at_cvc workflow_no_unique_dv_cvc : Code
  workflow_no_permission_error workflow_certificate_no_description : Code
  workflow_certificate_no_url_in_description workflow_certificate_hash_error : Code
  workflow_certificate_sop_error workflow_error_page_transmission_error : Code
  workflow_redirect_transmission_error workflow_processing_error : Code
  workflow_trusted_channel_establishment_error workflow_trusted_channel_error_from_server : Code
  workflow_trusted_channel_hash_not_in_description : Code
  workflow_trusted_channel_no_data_received : Code
  workflow_trusted_channel_ssl_certificate_unsupported_algorithm_or_length : Code
  workflow_trusted_channel_service_unavailable workflow_trusted_channel_time_out : Code
  workflow_trusted_channel_proxy_error workflow_trusted_channel_ssl_establishment_error : Code
  workflow_trusted_channel_server_format_error workflow_trusted_channel_other_network_error : Code
  workflow_reader_became_inaccessible workflow_reader_communication_error : Code
  workflow_server_incomplete_information_provided : Code
  workflow_network_ssl_connection_unsupported_algorithm_or_length : Code
  workflow_network_ssl_certificate_unsupported_algorithm_or_length : Code
  workflow_nerwork_ssl_hash_not_in_certificate_description : Code
  workflow_network_empty_redirect_url workflow_network_expected_redirect : Code
  workflow_network_invalid_scheme workflow_network_malformed_redirect_url : Code
  workflow_wrong_parameter_invocation paos_unexpected_warning paos_generic_server_error : Code
  paos_error_al_unknown_error paos_error_al_internal_error : Code
  paos_error_al_communication_error paos_error_dp_trusted_channel_establishment_failed : Code
  paos_error_sal_cancellation_by_user paos_error_sal_invalid_key : Code
  workflow_reader_device_connection_error workflow_reader_device_scan_error card_not_found : Code
  card_communication_error card_protocol_error card_unexpected_transmit_status : Code
  card_cancellation_by_user card_input_time_out card_invalid_pin card_invalid_can : Code
  card_invalid_puk card_pin_blocked card_pin_not_blocked card_puk_blocked : Code
  card_new_pin_mismatch card_new_pin_invalid_length remote_reader_close_code_normal_close : Code
  remote_reader_close_code_abnormal_close remote_reader_close_code_undefined : Code
  remote_connector_invalid_request remote_connector_empty_password : Code
  remote_connector_no_supported_api_level remote_connector_connection_timeout : Code
  remote_connector_connection_error remote_connector_remote_host_refused_connection : Code

-- `Code::c` as the number that the enumeration gives it.
unfoldable pub code_index : Code → ℕ
code_index unknown_error = 0
code_index no_error = 1
code_index network_service_unavailable = 2
code_index network_ssl_establishment_error = 3
code_index network_time_out = 4
code_index network_proxy_error = 5
code_index network_other_error = 6
code_index downloader_file_not_found = 7
code_index downloader_cannot_save_file = 8
code_index downloader_data_corrupted = 9
code_index workflow_already_in_progress_error = 10
code_index workflow_communication_missing_redirect_url = 11
code_index workflow_cancellation_by_user = 12
code_index workflow_card_removed = 13
code_index workflow_cannot_confirm_id_card_authenticity = 14
code_index workflow_unknown_paos_form_eid_server = 15
code_index workflow_unexpected_message_from_eid_server = 16
code_index workflow_pin_blocked_and_puk_objectionable = 17
code_index workflow_preverification_developermode_error = 18
code_index workflow_preverification_error = 19
code_index workflow_no_unique_at_cvc = 20
code_index workflow_no_unique_dv_cvc = 21
code_index workflow_no_permission_error = 22
code_index workflow_certificate_no_description = 23
code_index workflow_certificate_no_url_in_description = 24
code_index workflow_certificate_hash_error = 25
code_index workflow_certificate_sop_error = 26
code_index workflow_error_page_transmission_error = 27
code_index workflow_redirect_transmission_error = 28
code_index workflow_processing_error = 29
code_index workflow_trusted_channel_establishment_error = 30
code_index workflow_trusted_channel_error_from_server = 31
code_index workflow_trusted_channel_hash_not_in_description = 32
code_index workflow_trusted_channel_no_data_received = 33
code_index workflow_trusted_channel_ssl_certificate_unsupported_algorithm_or_length = 34
code_index workflow_trusted_channel_service_unavailable = 35
code_index workflow_trusted_channel_time_out = 36
code_index workflow_trusted_channel_proxy_error = 37
code_index workflow_trusted_channel_ssl_establishment_error = 38
code_index workflow_trusted_channel_server_format_error = 39
code_index workflow_trusted_channel_other_network_error = 40
code_index workflow_reader_became_inaccessible = 41
code_index workflow_reader_communication_error = 42
code_index workflow_server_incomplete_information_provided = 43
code_index workflow_network_ssl_connection_unsupported_algorithm_or_length = 44
code_index workflow_network_ssl_certificate_unsupported_algorithm_or_length = 45
code_index workflow_nerwork_ssl_hash_not_in_certificate_description = 46
code_index workflow_network_empty_redirect_url = 47
code_index workflow_network_expected_redirect = 48
code_index workflow_network_invalid_scheme = 49
code_index workflow_network_malformed_redirect_url = 50
code_index workflow_wrong_parameter_invocation = 51
code_index paos_unexpected_warning = 52
code_index paos_generic_server_error = 53
code_index paos_error_al_unknown_error = 54
code_index paos_error_al_internal_error = 55
code_index paos_error_al_communication_error = 56
code_index paos_error_dp_trusted_channel_establishment_failed = 57
code_index paos_error_sal_cancellation_by_user = 58
code_index paos_error_sal_invalid_key = 59
code_index workflow_reader_device_connection_error = 60
code_index workflow_reader_device_scan_error = 61
code_index card_not_found = 62
code_index card_communication_error = 63
code_index card_protocol_error = 64
code_index card_unexpected_transmit_status = 65
code_index card_cancellation_by_user = 66
code_index card_input_time_out = 67
code_index card_invalid_pin = 68
code_index card_invalid_can = 69
code_index card_invalid_puk = 70
code_index card_pin_blocked = 71
code_index card_pin_not_blocked = 72
code_index card_puk_blocked = 73
code_index card_new_pin_mismatch = 74
code_index card_new_pin_invalid_length = 75
code_index remote_reader_close_code_normal_close = 76
code_index remote_reader_close_code_abnormal_close = 77
code_index remote_reader_close_code_undefined = 78
code_index remote_connector_invalid_request = 79
code_index remote_connector_empty_password = 80
code_index remote_connector_no_supported_api_level = 81
code_index remote_connector_connection_timeout = 82
code_index remote_connector_connection_error = 83
code_index remote_connector_remote_host_refused_connection = 84

unfoldable pub code_eq : Code → Code → Bool
unfolding code_index
code_eq a b = code_index a == code_index b

pub data Origin : Type 0 where
  server client : Origin

pub record GlobalStatus : Type 0 where
  pub status_code : Code
  pub external_information : List String
  pub origin : Origin

-- The conversion from a code: no information, and the client for the origin.
unfoldable pub of_code : Code → GlobalStatus
of_code c = record { status_code = c; external_information = []; origin = client }

abbrev is_server : Origin → Bool
is_server server = true
is_server client = false

unfoldable pub is_origin_server : GlobalStatus → Bool
is_origin_server s = is_server s.origin

unfoldable pub is_no_error : GlobalStatus → Bool
unfolding code_eq
is_no_error s = code_eq s.status_code no_error

unfoldable pub is_error : GlobalStatus → Bool
unfolding is_no_error
is_error s = not (is_no_error s)

unfoldable pub is_cancellation_by_user : GlobalStatus → Bool
unfolding code_eq
is_cancellation_by_user s =
    code_eq s.status_code workflow_cancellation_by_user
    || code_eq s.status_code card_cancellation_by_user
    || code_eq s.status_code paos_error_sal_cancellation_by_user

abbrev masked : Code → Bool
masked workflow_unknown_paos_form_eid_server = true
masked workflow_unexpected_message_from_eid_server = true
masked workflow_preverification_error = true
masked workflow_no_unique_at_cvc = true
masked workflow_no_unique_dv_cvc = true
masked workflow_certificate_no_description = true
masked workflow_certificate_no_url_in_description = true
masked workflow_certificate_hash_error = true
masked workflow_certificate_sop_error = true
masked workflow_error_page_transmission_error = true
masked workflow_processing_error = true
masked workflow_redirect_transmission_error = true
masked workflow_trusted_channel_establishment_error = true
masked workflow_trusted_channel_error_from_server = true
masked workflow_trusted_channel_no_data_received = true
masked network_time_out = true
masked workflow_trusted_channel_time_out = true
masked network_proxy_error = true
masked workflow_trusted_channel_proxy_error = true
masked workflow_trusted_channel_server_format_error = true
masked network_ssl_establishment_error = true
masked workflow_trusted_channel_ssl_establishment_error = true
masked workflow_wrong_parameter_invocation = true
masked network_other_error = true
masked workflow_trusted_channel_other_network_error = true
masked workflow_network_ssl_connection_unsupported_algorithm_or_length = true
masked workflow_network_empty_redirect_url = true
masked workflow_network_expected_redirect = true
masked workflow_network_invalid_scheme = true
masked workflow_network_malformed_redirect_url = true
masked _ = false

unfoldable pub is_message_masked : GlobalStatus → Bool
is_message_masked s = masked s.status_code
