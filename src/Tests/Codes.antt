-- ===== src/Tests/Codes.antt =====
-- Results and status codes: src/global.
use ausweis_app2_omapi.Prelude.{true, false, ◌≡◌, refl, inl, String, some, not}
use ausweis_app2_omapi.Global.Status.{
  GlobalStatus, Code, Origin, code_eq, is_cancellation_by_user, of_code, is_no_error, is_error,
}
use ausweis_app2_omapi.Global.Minor.{Major, Minor, minor_eq}
use ausweis_app2_omapi.Global.Conversion.{
  empty_maps, init_conversion_maps, lookup_minor, lookup_code, to_code, from_code,
}
use ausweis_app2_omapi.Global.Conversion.Total.{conversion_total, cancellation_survives}
use ausweis_app2_omapi.Global.Result.{
  EcardApiResult, create, is_valid, is_ok, to_status, of_strings, major_string, parse_minor,
}
use ausweis_app2_omapi.Global.Result.Laws.{to_status-is_error, error_without_minor}

abbrev same_text : String → String
same_text s = s

conversion_total_example :
    ((c : Code)
      → (m : Minor) × (lookup_minor c (init_conversion_maps empty_maps).minor_of ≡ some m))
    × ((m : Minor)
        → (c : Code) × (lookup_code m (init_conversion_maps empty_maps).code_of ≡ some c))
conversion_total_example = conversion_total empty_maps (inl refl)

cancellation_survives_example :
    (minor_eq (from_code empty_maps Code.workflow_card_removed) Minor.sal_cancellation_by_user
      ≡ is_cancellation_by_user (of_code Code.workflow_card_removed))
    × (minor_eq (from_code empty_maps Code.workflow_card_removed) Minor.ifdl_cancellation_by_user
        ≡ code_eq Code.workflow_card_removed Code.workflow_card_removed)
    × (is_cancellation_by_user
          (of_code (to_code empty_maps (from_code empty_maps Code.workflow_card_removed)))
        ≡ is_cancellation_by_user (of_code Code.workflow_card_removed))
cancellation_survives_example =
    cancellation_survives empty_maps Code.workflow_card_removed (inl refl)

abbrev internal_error : EcardApiResult
internal_error = create "de" Major.error Minor.al_internal_error "broken" Origin.server

internal_error-is_valid : is_valid internal_error ≡ true
unfolding create is_valid minor_eq
internal_error-is_valid = refl

to_status-is_error_example :
    is_error (to_status same_text empty_maps internal_error) ≡ not (is_ok internal_error)
to_status-is_error_example =
    to_status-is_error same_text empty_maps internal_error (inl refl) internal_error-is_valid

empty_text : parse_minor "" ≡ Minor.null
unfolding parse_minor
empty_text = refl

error_without_minor_example :
    let r = of_strings "de" (major_string Major.error) "" "broken" Origin.server in
    (is_ok r ≡ false) × (is_no_error (to_status same_text empty_maps r) ≡ true)
error_without_minor_example =
    error_without_minor same_text empty_maps "de" "" "broken" Origin.server (inl refl) empty_text

abbrev no_description : GlobalStatus → String
no_description s = "error"
