-- ===== src/Apdu/Response.antt =====
-- src/card/base/ResponseApdu.cpp. A response is its buffer; the last two bytes are the status.
pub mod Status
use ausweis_app2_omapi.Prelude.{
  ℕ, ◌+◌, ◌-◌, ◌≡◌, Bool, if◌then◌else◌, ltb, ◌==◌, ◌||◌, List, [], ◌∷◌, Bytes, length, get_or,
  take, drop, is_empty, high_byte, low_byte, big_endian, ℤ, pos, minus_one,
}
use ausweis_app2_omapi.Global.ReturnCode.{CardReturnCode}
use ausweis_app2_omapi.Apdu.StatusCode.{
  empty, invalid, success, pin_deactivated, input_timeout, input_cancelled, passwords_differ,
  password_outof_range, pin_blocked, pin_suspended, pin_retry_count_2, status_codes, sw1_values,
  is_value,
}

pub record ResponseApdu : Type 0 where
  pub buffer : Bytes

-- The constructor from a status code: its two bytes, high byte first.
unfoldable pub of_status : ℕ → ResponseApdu
of_status code = record { buffer = high_byte code ∷ low_byte code ∷ [] }

unfoldable pub set_buffer : ResponseApdu → Bytes → ResponseApdu
set_buffer r buffer = record r { buffer = buffer }

-- `length() - RETURN_CODE_LENGTH`, where it is not negative.
unfoldable pub get_data_length : ResponseApdu → ℕ
get_data_length r = length r.buffer - 2

unfoldable pub get_data : ResponseApdu → Bytes
unfolding get_data_length
get_data r = if ltb (length r.buffer) 2 then [] else take (get_data_length r) r.buffer

-- `right(2)`
abbrev right_two : Bytes → Bytes
right_two buffer = drop (length buffer - 2) buffer

-- `toHex().toInt(nullptr, 16)` of at most two bytes.
abbrev number_of : Bytes → ℕ
number_of [] = 0
number_of (a ∷ []) = a
number_of (a ∷ b ∷ rest) = big_endian a b

unfoldable pub get_return_code : ResponseApdu → ℕ
get_return_code r =
    let code = number_of (right_two r.buffer) in
    if is_empty r.buffer then empty else if is_value status_codes code then code else invalid

unfoldable pub retry_counter_of : ℕ → ℤ
retry_counter_of code =
    if code == success
    then pos 3
    else if code == pin_retry_count_2
    then pos 2
    else if code == pin_suspended
    then pos 1
    else if code == pin_blocked || code == pin_deactivated
    then pos 0
    else minus_one

unfoldable pub get_retry_counter : ResponseApdu → ℤ
unfolding get_return_code retry_counter_of
get_retry_counter r = retry_counter_of (get_return_code r)

-- `SW1::INVALID` is 0.
unfoldable pub get_sw1 : ResponseApdu → ℕ
get_sw1 r =
    let value = get_or r.buffer (length r.buffer - 2) 0 in
    if ltb (length r.buffer) 2 then 0 else if is_value sw1_values value then value else 0

unfoldable pub get_sw2 : ResponseApdu → ℕ
get_sw2 r = if ltb (length r.buffer) 1 then 0 else get_or r.buffer (length r.buffer - 1) 0

-- The `switch` of `getCardReturnCode`.
unfoldable pub card_return_code_of : ℕ → CardReturnCode
card_return_code_of code =
    if code == success
    then CardReturnCode.ok
    else if code == input_timeout
    then CardReturnCode.input_time_out
    else if code == input_cancelled
    then CardReturnCode.cancellation_by_user
    else if code == passwords_differ
    then CardReturnCode.new_pin_mismatch
    else if code == password_outof_range
    then CardReturnCode.new_pin_invalid_length
    else if code == pin_blocked
    then CardReturnCode.pin_blocked
    else CardReturnCode.protocol_error

unfoldable pub get_card_return_code : ResponseApdu → CardReturnCode
unfolding get_return_code card_return_code_of
get_card_return_code r = card_return_code_of (get_return_code r)
