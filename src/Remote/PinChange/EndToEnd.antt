-- ===== src/Remote/PinChange/EndToEnd.antt =====
-- What the program learns of a change of a PIN at a remote reader.
use ausweis_app2_omapi.Prelude.{
  ℕ, not, ◌==◌, if◌then◌else◌, some, Bytes, String, length, ◌≡◌, refl, ap, sym, ◌∙◌, arith,
}
use ausweis_app2_omapi.Global.Minor.{Major, Minor}
use ausweis_app2_omapi.Global.Result.Laws.{parse-strings}
use ausweis_app2_omapi.Global.ReturnCode.{CardReturnCode}
use ausweis_app2_omapi.Apdu.Response.{ResponseApdu, get_return_code}
use ausweis_app2_omapi.Apdu.StatusCode.{empty}
use ausweis_app2_omapi.Remote.Messages.{create_response_body}
use ausweis_app2_omapi.Remote.Server.Completions.{modify_pin_minor}
use ausweis_app2_omapi.Remote.PinChange.{
  invalid_datafield, code_of_status, status_code_to_card_return_code, code_of_minor,
  modify_pin_response_to_json, set_eid_pin,
}

-- The code that a client reads from a minor code and the code of the status.
abbrev by_minor : Minor → CardReturnCode → CardReturnCode
by_minor Minor.null code = code
by_minor m code = code_of_minor m

status_agrees :
    (code : ℕ)
    → by_minor (modify_pin_minor code) (code_of_status code) ≡ (
        if code == empty
        then CardReturnCode.card_not_found
        else if code == invalid_datafield
        then CardReturnCode.unknown
        else code_of_status code)
unfolding modify_pin_minor code_of_status code_of_minor
status_agrees code = ground arith

status_of_two :
    (r : ResponseApdu)
    → length r.buffer ≡ 2
    → status_code_to_card_return_code r.buffer ≡ code_of_status (get_return_code r)
unfolding status_code_to_card_return_code
status_of_two r h =
    ap (λ n. if not (n == 2) then CardReturnCode.unknown else code_of_status (get_return_code r)) h

module _ (from_hex : String → Bytes) (to_hex : Bytes → String) where
  -- The answer of the server is read back.
  set_eid_pin-modify_pin_response_to_json :
      (slot : String) (output : Bytes) (m : Minor) (handle : String)
      → from_hex (to_hex output) ≡ output
      → (set_eid_pin from_hex to_hex
          (some (modify_pin_response_to_json from_hex to_hex slot output m handle))).0
        ≡ by_minor m (status_code_to_card_return_code output)
  unfolding set_eid_pin modify_pin_response_to_json create_response_body
  set_eid_pin-modify_pin_response_to_json slot output Minor.null handle h =
      ap status_code_to_card_return_code h
  set_eid_pin-modify_pin_response_to_json slot output Minor.al_unknown_error handle h = refl
  set_eid_pin-modify_pin_response_to_json slot output m handle h =
      ap code_of_minor (parse-strings Major.error m).1

  -- Where a card has answered the change of a PIN with a status of two bytes, what the client reads from
  -- the answer of the server is what it would read from the status itself, but for two statuses: the
  -- status zero is a missing card, and invalid data are an unknown error.
  pub set_eid_pin-status_code_to_card_return_code :
      (slot handle : String) (r : ResponseApdu)
      → from_hex (to_hex r.buffer) ≡ r.buffer
      → length r.buffer ≡ 2
      → (set_eid_pin from_hex to_hex (
          some (
            modify_pin_response_to_json from_hex to_hex slot r.buffer
              (modify_pin_minor (get_return_code r))
              handle))).0
        ≡ (if get_return_code r == empty
            then CardReturnCode.card_not_found
            else if get_return_code r == invalid_datafield
            then CardReturnCode.unknown
            else status_code_to_card_return_code r.buffer)
  set_eid_pin-status_code_to_card_return_code slot handle r h two =
      let code = get_return_code r in
      set_eid_pin-modify_pin_response_to_json slot r.buffer (modify_pin_minor code) handle h
      ∙ ap (by_minor (modify_pin_minor code)) (status_of_two r two)
      ∙ status_agrees code
      ∙ ap
          (λ c.
            if code == empty
            then CardReturnCode.card_not_found
            else if code == invalid_datafield
            then CardReturnCode.unknown
            else c)
          (sym (status_of_two r two))
