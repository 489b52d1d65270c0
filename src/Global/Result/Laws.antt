-- ===== src/Global/Result/Laws.antt =====
-- What results promise: texts that read back, valid pairs, and a status that tells errors from success.
use ausweis_app2_omapi.Prelude.{
  if◌then◌else◌, ◌||◌, Bool, true, false, not, ◌≡◌, refl, sym, ap, ◌∙◌, ◌≢◌, String, arith,
}
use ausweis_app2_omapi.Global.Status.{
  code_eq, Code, GlobalStatus, Origin, is_no_error, is_error, of_code,
}
use ausweis_app2_omapi.Global.Minor.{Major, unknown, ok, warning, error, Minor, null, minor_eq}
use ausweis_app2_omapi.Global.Conversion.{from_code, ConversionMaps}
use ausweis_app2_omapi.Global.Conversion.Total.{AreMaps, no_error-to_code}
use ausweis_app2_omapi.Global.Result.{
  from_status, create_ok, EcardApiResult, parse_major, parse_minor, major_string, minor_string,
  create, is_valid, is_ok, to_status, of_strings, valid_pair,
}

parse_minor-minor_string : (m : Minor) → parse_minor (minor_string m) ≡ m
unfolding parse_minor minor_string
parse_minor-minor_string null = refl
parse_minor-minor_string _ = refl

parse_major-major_string : (m : Major) → parse_major (major_string m) ≡ m
unfolding parse_major major_string
parse_major-major_string unknown = refl
parse_major-major_string _ = refl

-- Both codes of every result are read back from the texts that stand for them; the codes without a
-- text, `unknown` and `null`, from the empty text.
pub parse-strings :
    (a : Major) (m : Minor)
    → (parse_major (major_string a) ≡ a) × (parse_minor (minor_string m) ≡ m)
parse-strings a m = (parse_major-major_string a, parse_minor-minor_string m)

-- The constructor from two codes makes a valid result of every pair whose major is known, and keeps
-- the message and the origin.
pub create-is_valid :
    (language : String) (a : Major) (m : Minor) (message : String) (o : Origin)
    → a ≢ unknown
    → (is_valid (create language a m message o) ≡ true)
      × ((create language a m message o).message ≡ message)
      × ((create language a m message o).origin ≡ o)
unfolding is_valid create
create-is_valid language a m message o h = ground arith

is_error_no_error : (s : GlobalStatus) → is_error s ≡ not (is_no_error s)
unfolding is_error
is_error_no_error s = refl

is_no_error_code : (s : GlobalStatus) → is_no_error s ≡ is_no_error (of_code s.status_code)
unfolding is_no_error of_code
is_no_error_code s = refl

negated_true : (b : Bool) → not b ≡ true → b ≡ false
negated_true true h = sym h
negated_true false h = refl

to_status_fields :
    (translate : String → String) (maps : ConversionMaps) (a : Major) (m : Minor)
    (message language : String) (o : Origin)
    → AreMaps maps
    → valid_pair a m ≡ true
    → let r : EcardApiResult = record {
      major = a;
      minor = m;
      message = message;
      message_lang = language;
      origin = o;
    } in
      is_no_error (to_status translate maps r) ≡ is_ok r
unfolding to_status
to_status_fields translate maps unknown m message language o h v = cc
to_status_fields translate maps ok m message language o h v =
    rw v (unfold is_no_error of_code in refl)
to_status_fields translate maps warning m message language o h v = unfold is_no_error in refl
to_status_fields translate maps error m message language o h v =
    is_no_error_code _ ∙ no_error-to_code maps m h ∙ negated_true _ v

-- The status of a valid result is an error exactly when the result is not ok.
pub to_status-is_error :
    (translate : String → String) (maps : ConversionMaps) (r : EcardApiResult)
    → AreMaps maps
    → is_valid r ≡ true
    → is_error (to_status translate maps r) ≡ not (is_ok r)
unfolding is_valid
to_status-is_error translate maps r h v =
    is_error_no_error (to_status translate maps r)
    ∙ ap not (to_status_fields translate maps r.major r.minor r.message r.message_lang r.origin h v)

error_null :
    (translate : String → String) (maps : ConversionMaps) (a : Major) (m : Minor)
    (message language : String) (o : Origin)
    → AreMaps maps
    → a ≡ error
    → m ≡ null
    → let r : EcardApiResult = record {
      major = a;
      minor = m;
      message = message;
      message_lang = language;
      origin = o;
    } in
      (is_ok r ≡ false) × (is_no_error (to_status translate maps r) ≡ true)
unfolding to_status
error_null translate maps a m message language o h p q =
    rw (p, q) (refl, is_no_error_code _ ∙ no_error-to_code maps null h ∙ unfold minor_eq in refl)

-- A result that is read from the major text for "error" and a minor text that stands for no minor
-- code is not ok, and is converted to the status "no error" all the same.
pub error_without_minor :
    (translate : String → String) (maps : ConversionMaps) (language text message : String)
    (o : Origin)
    → AreMaps maps
    → parse_minor text ≡ null
    → let r = of_strings language (major_string error) text message o in
      (is_ok r ≡ false) × (is_no_error (to_status translate maps r) ≡ true)
unfolding of_strings
error_without_minor translate maps language text message o h e =
    error_null translate maps _ _ message language o h (parse_major-major_string error) e

created :
    (language : String) (m : Minor) (message : String) (o : Origin)
    → (is_valid (create language error m message o) ≡ true)
      × (is_ok (create language error m message o) ≡ false)
unfolding is_valid is_ok create
created language m message o = ground arith

created_ok :
    (language : String)
    → (is_valid (create_ok language) ≡ true) × (is_ok (create_ok language) ≡ true)
unfolding is_valid is_ok create_ok create minor_eq
created_ok language = (refl, refl)

by_code :
    (b : Bool) (x y : EcardApiResult)
    → (is_valid x ≡ true) × (is_ok x ≡ true)
    → (is_valid y ≡ true) × (is_ok y ≡ false)
    → (is_valid (if b then x else y) ≡ true) × (is_ok (if b then x else y) ≡ b)
by_code true x y h k = h
by_code false x y h k = k

-- The result that a status is converted to is valid, and it is ok just for the status without an error
-- and for the normal end of a connection to a remote reader.
pub from_status-is_ok :
    (description : GlobalStatus → String) (language : String) (maps : ConversionMaps)
    (s : GlobalStatus)
    → (is_valid (from_status description language maps s) ≡ true)
      × (is_ok (from_status description language maps s)
          ≡ code_eq s.status_code Code.no_error
            || code_eq s.status_code Code.remote_reader_close_code_normal_close)
unfolding from_status
from_status-is_ok description language maps s =
    by_code
      (code_eq s.status_code Code.no_error
        || code_eq s.status_code Code.remote_reader_close_code_normal_close)
      (create_ok language) _ (created_ok language)
      (created language (from_code maps s.status_code) (description s) s.origin)
