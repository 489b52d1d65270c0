-- ===== src/Card/PaceOutput/Codes.antt =====
-- `parseReturnCode` and `generateReturnCode`, with src/card/base/pace/EstablishPaceChannelCode.h.
use ausweis_app2_omapi.Prelude.{
  ℕ, ◌/◌, ◌%◌, ◌≡◌, Bool, true, if◌then◌else◌, ◌==◌, ◌||◌, ◌&&◌, ◌≤◌, ◌↔◌, arith,
}
use ausweis_app2_omapi.Global.ReturnCode.{CardReturnCode, equals_wrong_pace_password}
use ausweis_app2_omapi.Card.PasswordId.{PacePasswordId}

abbrev pub no_error : ℕ
no_error = 0x00000000

abbrev pub unexpected_data_in_input : ℕ
unexpected_data_in_input = 0xD0000002

abbrev pub general_authenticate_warning : ℕ
general_authenticate_warning = 0xf0066300

abbrev pub communication_abort : ℕ
communication_abort = 0xF0100001

abbrev pub no_card : ℕ
no_card = 0xF0100002

abbrev pub abort : ℕ
abort = 0xF0200001

abbrev pub timeout : ℕ
timeout = 0xF0200002

-- The code that a warning of General Authenticate means for the password that was used.
abbrev invalid_password : PacePasswordId → CardReturnCode
invalid_password PacePasswordId.pace_mrz = CardReturnCode.invalid_can
invalid_password PacePasswordId.pace_can = CardReturnCode.invalid_can
invalid_password PacePasswordId.pace_pin = CardReturnCode.invalid_pin
invalid_password PacePasswordId.pace_puk = CardReturnCode.invalid_puk
invalid_password PacePasswordId.unknown = CardReturnCode.unknown

abbrev is_command_failed : ℕ → Bool
is_command_failed code =
    code == 0xD0000001
    || code == 0xD0000002
    || code == 0xD0000003
    || code == 0xE0000001
    || code == 0xE0000002
    || code == 0xE0000003
    || code == 0xE0000006
    || code == 0xF0100001

-- The upper half of a code of General Authenticate, steps 1 to 4.
abbrev is_general_authenticate : ℕ → Bool
is_general_authenticate high = high == 0xf003 || high == 0xf004 || high == 0xf005 || high == 0xf006

-- A quint32 is a number below 2 ^ 32, so its upper half is the quotient by 2 ^ 16.
unfoldable pub parse_return_code : ℕ → PacePasswordId → CardReturnCode
parse_return_code code password =
    if code == no_error
    then CardReturnCode.ok
    else if is_command_failed code
    then CardReturnCode.command_failed
    else if code == no_card
    then CardReturnCode.card_not_found
    else if code == abort
    then CardReturnCode.cancellation_by_user
    else if code == timeout
    then CardReturnCode.input_time_out
    else if is_general_authenticate (code / 65536) && code / 256 % 256 == 0x63
    then invalid_password password
    else CardReturnCode.unknown

unfoldable pub generate_return_code : CardReturnCode → ℕ
generate_return_code CardReturnCode.invalid_can = general_authenticate_warning
generate_return_code CardReturnCode.invalid_pin = general_authenticate_warning
generate_return_code CardReturnCode.invalid_pin_2 = general_authenticate_warning
generate_return_code CardReturnCode.invalid_pin_3 = general_authenticate_warning
generate_return_code CardReturnCode.invalid_puk = general_authenticate_warning
generate_return_code CardReturnCode.ok = no_error
generate_return_code CardReturnCode.ok_puk = no_error
generate_return_code CardReturnCode.card_not_found = no_card
generate_return_code CardReturnCode.retry_allowed = no_card
generate_return_code CardReturnCode.input_time_out = timeout
generate_return_code CardReturnCode.command_failed = communication_abort
generate_return_code CardReturnCode.cancellation_by_user = abort
generate_return_code _ = unexpected_data_in_input

-- What a remote reader's return code becomes on its way over the wire, for the password that was used.
abbrev pub relayed : PacePasswordId → CardReturnCode → CardReturnCode
relayed p CardReturnCode.ok = CardReturnCode.ok
relayed p CardReturnCode.ok_puk = CardReturnCode.ok
relayed p CardReturnCode.card_not_found = CardReturnCode.card_not_found
relayed p CardReturnCode.retry_allowed = CardReturnCode.card_not_found
relayed p CardReturnCode.input_time_out = CardReturnCode.input_time_out
relayed p CardReturnCode.cancellation_by_user = CardReturnCode.cancellation_by_user
relayed p CardReturnCode.invalid_can = invalid_password p
relayed p CardReturnCode.invalid_pin = invalid_password p
relayed p CardReturnCode.invalid_pin_2 = invalid_password p
relayed p CardReturnCode.invalid_pin_3 = invalid_password p
relayed p CardReturnCode.invalid_puk = invalid_password p
relayed p _ = CardReturnCode.command_failed

-- A reader's number means success just if it is zero.
pub parse_return_code-ok :
    (code : ℕ) (p : PacePasswordId) → (parse_return_code code p ≡ CardReturnCode.ok) ↔ (code ≡ 0)
unfolding parse_return_code
parse_return_code-ok code p = (λ h. ground arith, λ h. ground arith)

-- Where a reader's number means a wrong password, it is a warning (SW1 = 0x63) of General Authenticate,
-- steps 1 to 4.
pub parse_return_code-wrong :
    (code : ℕ) (p : PacePasswordId)
    → equals_wrong_pace_password (parse_return_code code p) ≡ true
    → (0xf003 ≤ code / 65536) × (code / 65536 ≤ 0xf006) × (code / 256 % 256 ≡ 0x63)
unfolding parse_return_code equals_wrong_pace_password
parse_return_code-wrong code p h = ground arith
