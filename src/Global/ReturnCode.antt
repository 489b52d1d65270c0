-- ===== src/Global/ReturnCode.antt =====
-- src/global/CardReturnCode.h and CardReturnCode.cpp: what a card command returns.
use ausweis_app2_omapi.Prelude.{ℕ, Bool, true, false, ◌==◌}
use ausweis_app2_omapi.Global.Status.{Code, GlobalStatus, of_code}

pub data CardReturnCode : Type 0 where
  undefined ok ok_puk retry_allowed card_not_found unknown input_time_out invalid_can :
      CardReturnCode
  invalid_pin invalid_pin_2 invalid_pin_3 invalid_puk command_failed cancellation_by_user :
      CardReturnCode
  new_pin_mismatch new_pin_invalid_length pin_blocked pin_not_blocked puk_inoperative :
      CardReturnCode
  protocol_error unexpected_transmit_status : CardReturnCode

unfoldable pub return_code_index : CardReturnCode → ℕ
return_code_index undefined = 0
return_code_index ok = 1
return_code_index ok_puk = 2
return_code_index retry_allowed = 3
return_code_index card_not_found = 4
return_code_index unknown = 5
return_code_index input_time_out = 6
return_code_index invalid_can = 7
return_code_index invalid_pin = 8
return_code_index invalid_pin_2 = 9
return_code_index invalid_pin_3 = 10
return_code_index invalid_puk = 11
return_code_index command_failed = 12
return_code_index cancellation_by_user = 13
return_code_index new_pin_mismatch = 14
return_code_index new_pin_invalid_length = 15
return_code_index pin_blocked = 16
return_code_index pin_not_blocked = 17
return_code_index puk_inoperative = 18
return_code_index protocol_error = 19
return_code_index unexpected_transmit_status = 20

unfoldable pub return_code_eq : CardReturnCode → CardReturnCode → Bool
unfolding return_code_index
return_code_eq a b = return_code_index a == return_code_index b

unfoldable pub to_global_status : CardReturnCode → GlobalStatus
unfolding of_code
to_global_status ok = of_code Code.no_error
to_global_status ok_puk = of_code Code.no_error
to_global_status undefined = of_code Code.unknown_error
to_global_status unknown = of_code Code.unknown_error
to_global_status card_not_found = of_code Code.card_not_found
to_global_status retry_allowed = of_code Code.card_not_found
to_global_status command_failed = of_code Code.card_communication_error
to_global_status protocol_error = of_code Code.card_protocol_error
to_global_status unexpected_transmit_status = of_code Code.card_unexpected_transmit_status
to_global_status cancellation_by_user = of_code Code.card_cancellation_by_user
to_global_status input_time_out = of_code Code.card_input_time_out
to_global_status invalid_pin = of_code Code.card_invalid_pin
to_global_status invalid_pin_2 = of_code Code.card_invalid_pin
to_global_status invalid_pin_3 = of_code Code.card_invalid_pin
to_global_status invalid_can = of_code Code.card_invalid_can
to_global_status invalid_puk = of_code Code.card_invalid_puk
to_global_status new_pin_mismatch = of_code Code.card_new_pin_mismatch
to_global_status new_pin_invalid_length = of_code Code.card_new_pin_invalid_length
to_global_status pin_blocked = of_code Code.card_pin_blocked
to_global_status pin_not_blocked = of_code Code.card_pin_not_blocked
to_global_status puk_inoperative = of_code Code.card_puk_blocked

unfoldable pub equals_wrong_pace_password : CardReturnCode → Bool
equals_wrong_pace_password invalid_can = true
equals_wrong_pace_password invalid_pin = true
equals_wrong_pace_password invalid_pin_2 = true
equals_wrong_pace_password invalid_pin_3 = true
equals_wrong_pace_password invalid_puk = true
equals_wrong_pace_password new_pin_mismatch = true
equals_wrong_pace_password new_pin_invalid_length = true
equals_wrong_pace_password pin_not_blocked = true
equals_wrong_pace_password pin_blocked = true
equals_wrong_pace_password _ = false
