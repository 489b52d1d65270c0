-- ===== src/Global/Minor.antt =====
-- src/global/ECardApiResult.h: the major and minor codes of a result, and the texts that stand for them.
use ausweis_app2_omapi.Prelude.{ℕ, Bool, ◌==◌, String, List, [], ◌∷◌}

pub data Major : Type 0 where
  unknown ok warning error : Major

pub data Minor : Type 0 where
  null al_unknown_error al_no_permission al_internal_error al_parameter_error : Minor
  al_unkown_api_function al_not_initialized al_warning_connection_disconnected : Minor
  al_session_terminated_warning al_communication_error dp_timeout_error : Minor
  dp_unknown_channel_handle dp_communication_error dp_trusted_channel_establishment_failed : Minor
  dp_unknown_protocol dp_unknown_cipher_suite dp_unknown_webservice_binding : Minor
  dp_node_not_reachable ifdl_timeout_error ifdl_unknown_slot ifdl_invalid_slot_handle : Minor
  ifdl_cancellation_by_user ifdl_ifd_sharing_violation ifdl_terminal_no_card : Minor
  ifdl_io_repeated_data_mismatch ifdl_io_unknown_pin_format : Minor
  il_signature_invalid_certificate_path key_key_generation_not_possible : Minor
  sal_cancellation_by_user sal_invalid_key sal_security_condition_not_satisfied : Minor
  sal_meac_age_verification_failed_warning sal_meac_community_verification_failed_warning : Minor
  sal_meac_document_validity_verification_failed : Minor

-- `Minor::m` as the number that the enumeration gives it.
unfoldable pub minor_index : Minor → ℕ
minor_index null = 0
minor_index al_unknown_error = 1
minor_index al_no_permission = 2
minor_index al_internal_error = 3
minor_index al_parameter_error = 4
minor_index al_unkown_api_function = 5
minor_index al_not_initialized = 6
minor_index al_warning_connection_disconnected = 7
minor_index al_session_terminated_warning = 8
minor_index al_communication_error = 9
minor_index dp_timeout_error = 10
minor_index dp_unknown_channel_handle = 11
minor_index dp_communication_error = 12
minor_index dp_trusted_channel_establishment_failed = 13
minor_index dp_unknown_protocol = 14
minor_index dp_unknown_cipher_suite = 15
minor_index dp_unknown_webservice_binding = 16
minor_index dp_node_not_reachable = 17
minor_index ifdl_timeout_error = 18
minor_index ifdl_unknown_slot = 19
minor_index ifdl_invalid_slot_handle = 20
minor_index ifdl_cancellation_by_user = 21
minor_index ifdl_ifd_sharing_violation = 22
minor_index ifdl_terminal_no_card = 23
minor_index ifdl_io_repeated_data_mismatch = 24
minor_index ifdl_io_unknown_pin_format = 25
minor_index il_signature_invalid_certificate_path = 26
minor_index key_key_generation_not_possible = 27
minor_index sal_cancellation_by_user = 28
minor_index sal_invalid_key = 29
minor_index sal_security_condition_not_satisfied = 30
minor_index sal_meac_age_verification_failed_warning = 31
minor_index sal_meac_community_verification_failed_warning = 32
minor_index sal_meac_document_validity_verification_failed = 33

unfoldable pub minor_eq : Minor → Minor → Bool
unfolding minor_index
minor_eq a b = minor_index a == minor_index b

-- `cMajorResults`, in the order of its keys.
unfoldable pub major_results : List (Major × String)
major_results =
    (ok, "http://www.bsi.bund.de/ecard/api/1.1/resultmajor#ok")
    ∷ (warning, "http://www.bsi.bund.de/ecard/api/1.1/resultmajor#warning")
    ∷ (error, "http://www.bsi.bund.de/ecard/api/1.1/resultmajor#error")
    ∷ []

-- `cMinorResults`, in the order of its keys.
unfoldable pub minor_results : List (Minor × String)
minor_results =
    (al_unknown_error, "http://www.bsi.bund.de/ecard/api/1.1/resultminor/al/common#unknownError")
    ∷ (al_no_permission, "http://www.bsi.bund.de/ecard/api/1.1/resultminor/al/common#noPermission")
    ∷ (
      al_internal_error, "http://www.bsi.bund.de/ecard/api/1.1/resultminor/al/common#internalError",
    )
    ∷ (
      al_parameter_error,
      "http://www.bsi.bund.de/ecard/api/1.1/resultminor/al/common#parameterError",
    )
    ∷ (
      al_unkown_api_function,
      "http://www.bsi.bund.de/ecard/api/1.1/resultminor/al/common#unknownAPIFunction",
    )
    ∷ (
      al_not_initialized,
      "http://www.bsi.bund.de/ecard/api/1.1/resultminor/al/common#notInitialized",
    )
    ∷ (
      al_warning_connection_disconnected,
      "http://www.bsi.bund.de/ecard/api/1.1/resultminor/al/common#warningConnectionDisconnected",
    )
    ∷ (
      al_session_terminated_warning,
      "http://www.bsi.bund.de/ecard/api/1.1/resultminor/al/common#SessionTerminatedWarning",
    )
    ∷ (
      al_communication_error,
      "http://www.bsi.bund.de/ecard/api/1.1/resultminor/al/common#communicationError",
    )
    ∷ (dp_timeout_error, "http://www.bsi.bund.de/ecard/api/1.1/resultminor/dp#timeout")
    ∷ (
      dp_unknown_channel_handle,
      "http://www.bsi.bund.de/ecard/api/1.1/resultminor/dp#unknownChannelHandle",
    )
    ∷ (
      dp_communication_error,
      "http://www.bsi.bund.de/ecard/api/1.1/resultminor/dp#communicationError",
    )
    ∷ (
      dp_trusted_channel_establishment_failed,
      "http://www.bsi.bund.de/ecard/api/1.1/resultminor/dp#trustedChannelEstablishmentFailed",
    )
    ∷ (dp_unknown_protocol, "http://www.bsi.bund.de/ecard/api/1.1/resultminor/dp#unknownProtocol")
    ∷ (
      dp_unknown_cipher_suite,
      "http://www.bsi.bund.de/ecard/api/1.1/resultminor/dp#unknownCipherSuite",
    )
    ∷ (
      dp_unknown_webservice_binding,
      "http://www.bsi.bund.de/ecard/api/1.1/resultminor/dp#unknownWebserviceBinding",
    )
    ∷ (
      dp_node_not_reachable, "http://www.bsi.bund.de/ecard/api/1.1/resultminor/dp#nodeNotReachable",
    )
    ∷ (
      ifdl_timeout_error,
      "http://www.bsi.bund.de/ecard/api/1.1/resultminor/ifdl/common#timeoutError",
    )
    ∷ (
      ifdl_unknown_slot,
      "http://www.bsi.bund.de/ecard/api/1.1/resultminor/ifdl/terminal#unknownSlot",
    )
    ∷ (
      ifdl_invalid_slot_handle,
      "http://www.bsi.bund.de/ecard/api/1.1/resultminor/ifdl/common#invalidSlotHandle",
    )
    ∷ (
      ifdl_cancellation_by_user,
      "http://www.bsi.bund.de/ecard/api/1.1/resultminor/ifdl#cancellationByUser",
    )
    ∷ (
      ifdl_ifd_sharing_violation,
      "http://www.bsi.bund.de/ecard/api/1.1/resultminorifdl/terminal#IFDSharingViolation",
    )
    ∷ (
      ifdl_terminal_no_card,
      "http://www.bsi.bund.de/ecard/api/1.1/resultminor/ifdl/terminal#noCard",
    )
    ∷ (
      ifdl_io_repeated_data_mismatch,
      "http://www.bsi.bund.de/ecard/api/1.1/resultminor/ifdl/IO#repeatedDataMismatch",
    )
    ∷ (
      ifdl_io_unknown_pin_format,
      "http://www.bsi.bund.de/ecard/api/1.1/resultminor/ifdl/IO#unknownPINFormat",
    )
    ∷ (
      il_signature_invalid_certificate_path,
      "http://www.bsi.bund.de/ecard/api/1.1/resultminor/il/signature#invalidCertificatePath",
    )
    ∷ (
      key_key_generation_not_possible,
      "http://www.bsi.bund.de/ecard/api/1.1/resultminor/il/key#keyGenerationNotPossible",
    )
    ∷ (
      sal_cancellation_by_user,
      "http://www.bsi.bund.de/ecard/api/1.1/resultminor/sal#cancellationByUser",
    )
    ∷ (sal_invalid_key, "http://www.bsi.bund.de/ecard/api/1.1/resultminor/sal#invalidKey")
    ∷ (
      sal_security_condition_not_satisfied,
      "http://www.bsi.bund.de/ecard/api/1.1/resultminor/sal#securityConditionNotSatisfied",
    )
    ∷ (
      sal_meac_age_verification_failed_warning,
      "http://www.bsi.bund.de/ecard/api/1.1/resultminor/sal/mEAC#AgeVerificationFailedWarning",
    )
    ∷ (
      sal_meac_community_verification_failed_warning,
      "http://www.bsi.bund.de/ecard/api/1.1/resultminor/sal/mEAC#CommunityVerificationFailedWarning",
    )
    ∷ (
      sal_meac_document_validity_verification_failed,
      "http://www.bsi.bund.de/ecard/api/1.1/resultminor/sal/mEAC#DocumentValidityVerificationFailed",
    )
    ∷ []
