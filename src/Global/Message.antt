-- ===== src/Global/Message.antt =====
-- src/global/ECardApiResult.cpp, `ECardApiResult::getMessage(Minor)`: the English texts, which `tr` translates.
use ausweis_app2_omapi.Prelude.{String}
use ausweis_app2_omapi.Global.Minor.{
  Minor, null, al_unknown_error, al_no_permission, al_internal_error, al_parameter_error,
  al_unkown_api_function, al_not_initialized, al_warning_connection_disconnected,
  al_session_terminated_warning, al_communication_error, dp_timeout_error,
  dp_unknown_channel_handle, dp_communication_error, dp_trusted_channel_establishment_failed,
  dp_unknown_protocol, dp_unknown_cipher_suite, dp_unknown_webservice_binding,
  dp_node_not_reachable, ifdl_timeout_error, ifdl_unknown_slot, ifdl_invalid_slot_handle,
  ifdl_cancellation_by_user, ifdl_ifd_sharing_violation, ifdl_terminal_no_card,
  ifdl_io_repeated_data_mismatch, ifdl_io_unknown_pin_format, il_signature_invalid_certificate_path,
  key_key_generation_not_possible, sal_cancellation_by_user, sal_invalid_key,
  sal_security_condition_not_satisfied, sal_meac_age_verification_failed_warning,
  sal_meac_community_verification_failed_warning, sal_meac_document_validity_verification_failed,
}

-- `tr` is Qt's translation of a text.
unfoldable pub minor_message : (String → String) → Minor → String
minor_message translate al_unknown_error =
    translate "An unexpected error has occurred during processing."
minor_message translate al_no_permission =
    translate "Use of the function by the client application is not permitted."
minor_message translate al_internal_error =
    translate "An internal error has occurred during processing."
minor_message translate al_parameter_error =
    translate "There was some problem with a provided or omitted parameter."
minor_message translate al_unkown_api_function = translate "The API function is unknown."
minor_message translate al_not_initialized =
    translate "The framework or layer has not been initialized."
minor_message translate al_warning_connection_disconnected =
    translate "The active session has been terminated."
minor_message translate al_session_terminated_warning =
    translate "The active session has been terminated."
minor_message translate al_communication_error =
    translate "A Communication error occurred during processing."
minor_message translate dp_timeout_error =
    translate "The operation was terminated as the set time was exceeded."
minor_message translate dp_unknown_channel_handle =
    translate "The operation was aborted as an invalid channel handle was used."
minor_message translate dp_communication_error =
    translate "A Communication error occurred during processing."
minor_message translate dp_trusted_channel_establishment_failed =
    translate "A trusted channel could not be opened."
minor_message translate dp_unknown_protocol =
    translate "The operation was aborted as an unknown protocol was used."
minor_message translate dp_unknown_cipher_suite =
    translate "The operation was aborted as an unknown cipher suite was used."
minor_message translate dp_unknown_webservice_binding =
    translate "The operation was aborted as an unknown web service binding was used."
minor_message translate dp_node_not_reachable =
    translate "A Communication error occurred during processing."
minor_message translate ifdl_timeout_error =
    translate "The operation was terminated as the set time was exceeded."
minor_message translate ifdl_terminal_no_card = translate "The card is missing or was removed."
minor_message translate ifdl_io_repeated_data_mismatch =
    translate "The new PIN and the confirmation do not match."
minor_message translate ifdl_io_unknown_pin_format = translate "The format of the PIN is wrong."
minor_message translate key_key_generation_not_possible =
    translate "Signature certificate key generation is not possible."
minor_message translate sal_cancellation_by_user =
    translate "The process was cancelled by the user."
minor_message translate il_signature_invalid_certificate_path =
    translate
      "One or more certificate checks failed. The operation will be aborted due to security reasons."
minor_message translate sal_invalid_key =
    translate
      "This action cannot be performed. The online identification function of your ID card is deactivated. Please contact the authority responsible for issuing your identification document to activate the online identification function."
minor_message translate sal_security_condition_not_satisfied =
    translate
      "The authenticity of your ID card could not be verified. Please make sure that you are using a genuine ID card. Please note that test applications require the use of a test ID card."
minor_message translate sal_meac_age_verification_failed_warning =
    translate "The age verification failed."
minor_message translate sal_meac_community_verification_failed_warning =
    translate "The community verification failed."
minor_message translate sal_meac_document_validity_verification_failed =
    translate "The ID card is invalid or disabled."
minor_message translate null = ""
minor_message translate ifdl_unknown_slot = ""
minor_message translate ifdl_invalid_slot_handle = ""
minor_message translate ifdl_cancellation_by_user = ""
minor_message translate ifdl_ifd_sharing_violation = ""
