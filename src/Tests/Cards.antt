-- ===== src/Tests/Cards.antt =====
-- Commands, responses and reader answers: src/card.
use ausweis_app2_omapi.Prelude.{
  ℕ, ◌≡◌, ◌≢◌, ◌↔◌, refl, inl, none, some, [], ◌∷◌, arith, Bytes, pos, is_empty, ap,
}
use mathlib.Core.Bool.{false≢true}
use ausweis_app2_omapi.Global.ReturnCode.{CardReturnCode}
use ausweis_app2_omapi.Card.PasswordId.{PacePasswordId}
use ausweis_app2_omapi.Card.PaceOutput.{new_output, parse}
use ausweis_app2_omapi.Card.PaceOutput.Codes.{parse_return_code}
use ausweis_app2_omapi.Card.PaceOutput.Layout.{answer, parse-answer, parse_overread}
use ausweis_app2_omapi.Apdu.Command.{create, get_lc, get_le}
use ausweis_app2_omapi.Apdu.Command.{get_data as get_command_data}
use ausweis_app2_omapi.Apdu.Command.RoundTrip.{ReadsBack, create-ReadsBack, extended_le_lost}
use ausweis_app2_omapi.Apdu.Response.{
  ResponseApdu, get_data, get_return_code, get_sw1, get_sw2, get_retry_counter,
  get_card_return_code,
}
use ausweis_app2_omapi.Apdu.Response.Status.{
  status-append, get_retry_counter-get_card_return_code, IsRetryCounter,
}
use ausweis_app2_omapi.Apdu.StatusCode.{is_value}

abbrev two_bytes : Bytes
two_bytes = 1 ∷ 2 ∷ []

not_empty : two_bytes ≢ []
not_empty e = false≢true (ap is_empty e)

create-ReadsBack_example :
    ReadsBack (create 0 0xa4 4 12 two_bytes 0x1000) 0 0xa4 4 12 two_bytes 0x1000
create-ReadsBack_example =
    create-ReadsBack 0 0xa4 4 12 two_bytes 0x1000 (omega arith) (omega arith) (inl not_empty)

extended_le_lost_example :
    (get_lc (create 0 0xb0 0 0 [] 0x200) ≡ 0x200)
    × (get_le (create 0 0xb0 0 0 [] 0x200) ≡ 0)
    × (get_command_data (create 0 0xb0 0 0 [] 0x200) ≡ [])
extended_le_lost_example = extended_le_lost 0 0xb0 0 0 0x200 (omega arith) (omega arith)

abbrev answered : ResponseApdu
answered = record { buffer = 5 ∷ 0x90 ∷ 0 ∷ [] }

status-append_example :
    (get_data answered ≡ 5 ∷ [])
    × (get_return_code answered ≡ 0x9000)
    × (get_sw1 answered ≡ 0x90)
    × (get_sw2 answered ≡ 0)
unfolding is_value
status-append_example = status-append (5 ∷ []) 0x90 0

get_retry_counter-get_card_return_code_example :
    ((get_card_return_code answered ≡ CardReturnCode.ok) ↔ (get_retry_counter answered ≡ pos 3))
    × IsRetryCounter (get_retry_counter answered)
get_retry_counter-get_card_return_code_example = get_retry_counter-get_card_return_code answered

abbrev odd_number : ℕ
odd_number = 3

parse-answer_example :
    parse new_output (answer 0 0x90 0 (1 ∷ 2 ∷ []) (3 ∷ []) [] (4 ∷ 5 ∷ [])) PacePasswordId.pace_pin
    ≡ some (record new_output {
      pace_return_code = parse_return_code 0 PacePasswordId.pace_pin;
      ef_card_access = 1 ∷ 2 ∷ [];
      car_curr = 3 ∷ [];
      car_prev = [];
      id_icc = 4 ∷ 5 ∷ [];
    })
parse-answer_example =
    parse-answer new_output PacePasswordId.pace_pin 0 0x90 0 (1 ∷ 2 ∷ []) (3 ∷ []) [] (4 ∷ 5 ∷ [])
      (omega arith) (omega arith) (omega arith) (omega arith)

parse_overread_example :
    parse new_output (0 ∷ 0 ∷ 0 ∷ 0 ∷ 2 ∷ 0 ∷ 0x90 ∷ 0 ∷ []) PacePasswordId.pace_pin ≡ none
parse_overread_example =
    parse_overread new_output PacePasswordId.pace_pin 0 0 0 0 2 0 0x90 (0 ∷ []) refl (omega arith)
