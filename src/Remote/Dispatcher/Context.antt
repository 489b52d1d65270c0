-- ===== src/Remote/Dispatcher/Context.antt =====
-- A message is passed on only in the context that is established, and a server establishes one context.
use text.Mathlib.Text.{◌==◌ as str_eq}
use ausweis_app2_omapi.Prelude.{
  Bool, true, false, not, ◌||◌, if◌then◌else◌, String, List, [], ◌∷◌, ◌++◌, ◌≡◌, refl, ap, sym, ◌∙◌,
}
use mathlib.Core.Bool.{false≢true}
use ausweis_app2_omapi.Global.Minor.{Minor, minor_eq}
use ausweis_app2_omapi.Remote.Json.{JsonObject, get_string_value}
use ausweis_app2_omapi.Remote.Messages.{
  RemoteCardMessageType, parse_message, parse_response, has_error, is_undefined,
  ifd_establish_context, ifd_establish_context_response,
}
use ausweis_app2_omapi.Remote.Dispatcher.{
  Effect, Side, received, send_error, server_side, client_side, is_empty_string, process_context,
  create_and_send_context, on_received, send_context_response, context_established, context_failure,
  is_supported, version_from_string,
}

abbrev pub passes_on : List Effect → Bool
passes_on [] = false
passes_on (received t o ∷ l) = true
passes_on (_ ∷ l) = passes_on l

-- A choice between two outcomes, at their types.
abbrev either_used :
    Bool
    → (String × List Effect) × Bool
    → (String × List Effect) × Bool
    → (String × List Effect) × Bool
either_used b c d = if b then c else d

abbrev either : Bool → String × List Effect → String × List Effect → String × List Effect
either b c d = if b then c else d

quiet_used :
    (b : Bool) (c d : (String × List Effect) × Bool)
    → passes_on c.0.1 ≡ false
    → passes_on d.0.1 ≡ false
    → passes_on (either_used b c d).0.1 ≡ false
quiet_used true c d p q = p
quiet_used false c d p q = q

abbrev failure_of : String → JsonObject → Minor
failure_of held o =
    context_failure (not (is_empty_string held))
      (is_supported (version_from_string (get_string_value o "Protocol").0))

quiet :
    (b : Bool) (c d : String × List Effect)
    → passes_on c.1 ≡ false
    → passes_on d.1 ≡ false
    → passes_on (either b c d).1 ≡ false
quiet true c d p q = p
quiet false c d p q = q

process_context_passes_nothing :
    (side : Side) (new_handle held : String) (t : RemoteCardMessageType) (o : JsonObject)
    → passes_on (process_context side new_handle held t o).0.1 ≡ false
unfolding process_context create_and_send_context minor_eq
process_context_passes_nothing server_side new_handle held ifd_establish_context o =
    quiet (not (minor_eq (failure_of held o) Minor.null))
      (held, send_context_response (failure_of held o) ∷ [])
      (new_handle, send_context_response Minor.null ∷ context_established new_handle ∷ []) refl refl
process_context_passes_nothing server_side new_handle held _ o = refl
process_context_passes_nothing client_side new_handle held ifd_establish_context_response o =
    let h = (parse_response o).message.context_handle in
    quiet_used (has_error (parse_response o).result_major) ((held, []), true)
      ((h, context_established h ∷ []), true) refl refl
process_context_passes_nothing client_side new_handle held _ o = refl

-- The choice of `on_received`, with its conditions as arguments.
abbrev chosen :
    Bool
    → Bool
    → Bool
    → String × List Effect
    → String
    → RemoteCardMessageType
    → JsonObject
    → String × List Effect
chosen undefined_type used refused context held t o =
    if undefined_type
    then (held, send_error Minor.al_unkown_api_function ∷ [])
    else if used
    then context
    else if refused
    then (held, [])
    else (held, received t o ∷ [])

passed :
    (a b e same : Bool) (c : String × List Effect) (held : String) (t : RemoteCardMessageType)
    (o : JsonObject)
    → passes_on c.1 ≡ false
    → passes_on (chosen a b (e || not same) c held t o).1 ≡ true
    → (e ≡ false) × (same ≡ true) × ((chosen a b (e || not same) c held t o).0 ≡ held)
passed true b e same c held t o q h = elim (false≢true h) [ ]
passed false true e same c held t o q h = elim (false≢true (sym q ∙ h)) [ ]
passed false false true same c held t o q h = elim (false≢true h) [ ]
passed false false false true c held t o q h = (refl, refl, refl)
passed false false false false c held t o q h = elim (false≢true h) [ ]

-- A dispatcher passes a message on only if its handle is not empty and is the one that is held, and the
-- handle stays as it is.
pub on_received-passes_on :
    (side : Side) (new_handle held : String) (o : JsonObject)
    → passes_on (on_received side new_handle held o).1 ≡ true
    → (is_empty_string (parse_message o).context_handle ≡ false)
      × (str_eq held (parse_message o).context_handle ≡ true)
      × ((on_received side new_handle held o).0 ≡ held)
unfolding on_received
on_received-passes_on side new_handle held o h =
    let m = parse_message o in
    passed (is_undefined m.message_type) (process_context side new_handle held m.message_type o).1
      (is_empty_string m.context_handle) (str_eq held m.context_handle)
      (process_context side new_handle held m.message_type o).0 held m.message_type o
      (process_context_passes_nothing side new_handle held m.message_type o) h

established_refused : (b : Bool) → minor_eq (context_failure true b) Minor.null ≡ false
unfolding minor_eq context_failure
established_refused true = refl
established_refused false = refl

kept :
    (b e : Bool) (held new_handle : String)
    → e ≡ false
    → (either
        (not (minor_eq (context_failure (not e) b) Minor.null))
        (held, send_context_response (context_failure (not e) b) ∷ [])
        (new_handle, send_context_response Minor.null ∷ context_established new_handle ∷ [])).0
      ≡ held
kept b true held new_handle h = elim (false≢true (sym h)) [ ]
kept b false held new_handle h =
    ap
      (λ x.
        (either (not x) (held, send_context_response (context_failure true b) ∷ [])
          (new_handle, send_context_response Minor.null ∷ context_established new_handle ∷ [])).0)
      (established_refused b)

-- A server that holds a handle.
keeps_context :
    (new_handle held : String) (t : RemoteCardMessageType) (o : JsonObject)
    → is_empty_string held ≡ false
    → (process_context server_side new_handle held t o).0.0 ≡ held
unfolding process_context create_and_send_context minor_eq
keeps_context new_handle held ifd_establish_context o h =
    kept (is_supported (version_from_string (get_string_value o "Protocol").0))
      (is_empty_string held) held new_handle h
keeps_context new_handle held _ o h = refl

chosen_handle :
    (a b r : Bool) (c : String × List Effect) (held : String) (t : RemoteCardMessageType)
    (o : JsonObject)
    → c.0 ≡ held
    → (chosen a b r c held t o).0 ≡ held
chosen_handle true b r c held t o q = refl
chosen_handle false true r c held t o q = q
chosen_handle false false true c held t o q = refl
chosen_handle false false false c held t o q = refl

-- The messages that come in, each with the handle that a new context would have, and what is passed on.
unfoldable pub run : String → List (String × JsonObject) → String × List Effect
unfolding on_received
run held [] = (held, [])
run held (m ∷ l) =
    let r = on_received server_side m.0 held m.1 in let rest = run r.0 l in (rest.0, r.1 ++ rest.1)

-- A server that has established a context keeps it, whatever messages come in.
pub run-keeps_context :
    (held : String) (l : List (String × JsonObject))
    → is_empty_string held ≡ false
    → (run held l).0 ≡ held
unfolding run on_received
run-keeps_context held [] h = refl
run-keeps_context held (m ∷ l) h =
    let t = (parse_message m.1).message_type in
    let kept_one : (on_received server_side m.0 held m.1).0 ≡ held =
      chosen_handle (is_undefined t) (process_context server_side m.0 held t m.1).1
        (is_empty_string (parse_message m.1).context_handle
          || not (str_eq held (parse_message m.1).context_handle))
        (process_context server_side m.0 held t m.1).0 held t m.1
        (keeps_context m.0 held t m.1 h) in
    ap (λ x. (run x l).0) kept_one ∙ run-keeps_context held l h
