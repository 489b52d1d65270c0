-- ===== src/Global/Result.antt =====
-- src/global/ECardApiResult.cpp: a result of the eCard-API, its texts and its conversion from and to
-- a status. `translate` is Qt's `tr`, `description` stands for `GlobalStatus::toErrorDescription`, and
-- `language` for the two letters of the locale in use.
pub mod Laws
use text.Mathlib.Text.{◌==◌ as str_eq}
use ausweis_app2_omapi.Prelude.{
  Bool, true, false, not, ◌&&◌, ◌||◌, if◌then◌else◌, List, [], ◌∷◌, ◌++◌, String,
}
use ausweis_app2_omapi.Global.Status.{
  Code, GlobalStatus, Origin, client, server, no_error, unknown_error, paos_unexpected_warning,
  remote_reader_close_code_normal_close, of_code, code_eq,
}
use ausweis_app2_omapi.Global.Minor.{
  Major, unknown, ok, warning, error, Minor, null, al_internal_error, minor_eq, major_results,
  minor_results,
}
use ausweis_app2_omapi.Global.Message.{minor_message}
use ausweis_app2_omapi.Global.Conversion.{ConversionMaps, to_code, from_code}

pub record EcardApiResult : Type 0 where
  pub major : Major
  pub minor : Minor
  pub message : String
  pub message_lang : String
  pub origin : Origin

abbrev is_ok_major : Major → Bool
is_ok_major ok = true
is_ok_major _ = false

unfoldable pub parse_major_in : List (Major × String) → String → Major
parse_major_in [] text = unknown
parse_major_in ((k, s) ∷ rest) text = if str_eq text s then k else parse_major_in rest text

unfoldable pub parse_major : String → Major
unfolding parse_major_in major_results
parse_major = parse_major_in major_results

unfoldable pub parse_minor_in : List (Minor × String) → String → Minor
parse_minor_in [] text = null
parse_minor_in ((k, s) ∷ rest) text = if str_eq text s then k else parse_minor_in rest text

unfoldable pub parse_minor : String → Minor
unfolding parse_minor_in minor_results
parse_minor = parse_minor_in minor_results

-- `QMap::value`: the empty text for a key that is not there.
unfoldable pub minor_string_in : List (Minor × String) → Minor → String
unfolding minor_eq
minor_string_in [] m = ""
minor_string_in ((k, s) ∷ rest) m = if minor_eq k m then s else minor_string_in rest m

unfoldable pub minor_string : Minor → String
unfolding minor_string_in minor_results
minor_string = minor_string_in minor_results

abbrev same_major : Major → Major → Bool
same_major unknown unknown = true
same_major ok ok = true
same_major warning warning = true
same_major error error = true
same_major _ _ = false

unfoldable pub major_string_in : List (Major × String) → Major → String
major_string_in [] m = ""
major_string_in ((k, s) ∷ rest) m = if same_major k m then s else major_string_in rest m

unfoldable pub major_string : Major → String
unfolding major_string_in major_results
major_string = major_string_in major_results

unfoldable pub is_major : String → Bool
unfolding parse_major
is_major text = not (same_major unknown (parse_major text))

unfoldable pub is_minor : String → Bool
unfolding parse_minor minor_eq
is_minor text = not (minor_eq null (parse_minor text))

-- An impossible pair of major and minor becomes an internal error.
unfoldable pub create : String → Major → Minor → String → Origin → EcardApiResult
unfolding minor_eq
create language major minor message origin =
    let null_without_ok = not (is_ok_major major) && minor_eq minor null in
    let ok_without_null = is_ok_major major && not (minor_eq minor null) in
    if null_without_ok || ok_without_null
    then record {
      major = error;
      minor = al_internal_error;
      message = message;
      message_lang = language;
      origin = origin;
    }
    else record {
      major = major;
      minor = minor;
      message = message;
      message_lang = language;
      origin = origin;
    }

-- The constructor from two texts, which does not look at the pair.
unfoldable pub of_strings : String → String → String → String → Origin → EcardApiResult
unfolding parse_major parse_minor
of_strings language major minor message origin = record {
  major = parse_major major;
  minor = parse_minor minor;
  message = message;
  message_lang = language;
  origin = origin;
}

unfoldable pub create_ok : String → EcardApiResult
unfolding create
create_ok language = create language ok null "" client

-- `fromStatus(const GlobalStatus&)`; the two `Origin` enumerations are one type here.
unfoldable pub from_status :
    (GlobalStatus → String) → String → ConversionMaps → GlobalStatus → EcardApiResult
unfolding create_ok code_eq
from_status description language maps s =
    if code_eq s.status_code no_error || code_eq s.status_code remote_reader_close_code_normal_close
    then create_ok language
    else create language error (from_code maps s.status_code) (description s) s.origin

abbrev valid_pair : Major → Minor → Bool
valid_pair unknown m = false
valid_pair ok m = minor_eq m null
valid_pair _ m = not (minor_eq m null)

unfoldable pub is_valid : EcardApiResult → Bool
unfolding minor_eq
is_valid r = valid_pair r.major r.minor

unfoldable pub is_ok : EcardApiResult → Bool
unfolding minor_eq
is_ok r = is_ok_major r.major && minor_eq r.minor null

abbrev is_server : Origin → Bool
is_server server = true
is_server client = false

unfoldable pub is_origin_server : EcardApiResult → Bool
is_origin_server r = is_server r.origin

-- What the user is told: the own text, or that of the minor if there is none or a server wrote it.
unfoldable pub status_message : (String → String) → EcardApiResult → String
unfolding is_origin_server
status_message translate r =
    if str_eq r.message "" || is_origin_server r then minor_message translate r.minor else r.message

abbrev error_status : ConversionMaps → Minor → String → Origin → GlobalStatus
error_status maps m message origin = record {
  status_code = to_code maps m;
  external_information = message ∷ [];
  origin = origin;
}

-- The `switch` of `toStatus`; `ok` falls through to `error` unless the result is ok.
abbrev status_by_major : Major → ConversionMaps → EcardApiResult → String → GlobalStatus
status_by_major unknown maps r message = record {
  status_code = unknown_error;
  external_information = message ∷ [];
  origin = client;
}
status_by_major ok maps r message =
    if is_ok r then of_code no_error else error_status maps r.minor message r.origin
status_by_major error maps r message = error_status maps r.minor message r.origin
status_by_major warning maps r message = record {
  status_code = paos_unexpected_warning;
  external_information = message ∷ [];
  origin = client;
}

unfoldable pub to_status : (String → String) → ConversionMaps → EcardApiResult → GlobalStatus
unfolding is_ok of_code
to_status translate maps r = status_by_major r.major maps r (status_message translate r)

abbrev when_filled : String → String → List (String × String)
when_filled key value = if str_eq value "" then [] else (key, value) ∷ []

-- The keys that `toJson` sets, in the order of its code.
unfoldable pub to_json : (String → String) → EcardApiResult → List (String × String)
unfolding major_string minor_string minor_message minor_eq
to_json translate r =
    let minor_desc = minor_message translate r.minor in
    ("major", major_string r.major)
    ∷ ((if minor_eq r.minor null then [] else ("minor", minor_string r.minor) ∷ [])
        ++ (when_filled "message" r.message
            ++ (when_filled "description" minor_desc
                ++ (if not (str_eq r.message_lang "")
                      && (not (str_eq r.message "") || not (str_eq minor_desc ""))
                    then ("language", r.message_lang) ∷ []
                    else []))))
