-- ===== src/Workflow/ChangePin.antt =====
-- src/core/controller/ChangePinController.cpp: the states of a change of the PIN and the transitions
-- between them.
pub mod Flow
pub mod States
use ausweis_app2_omapi.Prelude.{Option, none, some}

pub data ChangePinState : Type 0 where
  pace prepare_change_pin enter_new_pace_pin change_pin clear_pace_passwords : ChangePinState
  destroy_pace update_retry_counter_final clean_up_reader_manager final : ChangePinState

pub data ChangePinSignal : Type 0 where
  fire_pace_channel_established fire_pace_puk_established fire_abort : ChangePinSignal
  fire_continue fire_enter_new_pace_pin fire_invalid_pin : ChangePinSignal

abbrev pub initial : ChangePinState
initial = pace

-- `none`: the state ignores the signal.
unfoldable pub transition : ChangePinState → ChangePinSignal → Option ChangePinState
transition pace fire_pace_channel_established = some prepare_change_pin
transition pace fire_pace_puk_established = some clear_pace_passwords
transition pace fire_abort = some clear_pace_passwords
transition prepare_change_pin fire_continue = some change_pin
transition prepare_change_pin fire_enter_new_pace_pin = some enter_new_pace_pin
transition prepare_change_pin fire_abort = some pace
transition enter_new_pace_pin fire_continue = some change_pin
transition enter_new_pace_pin fire_abort = some pace
transition change_pin fire_continue = some destroy_pace
transition change_pin fire_invalid_pin = some clear_pace_passwords
transition change_pin fire_abort = some pace
transition clear_pace_passwords fire_continue = some update_retry_counter_final
transition clear_pace_passwords fire_abort = some update_retry_counter_final
transition destroy_pace fire_continue = some clear_pace_passwords
transition destroy_pace fire_abort = some clear_pace_passwords
transition update_retry_counter_final fire_continue = some clean_up_reader_manager
transition update_retry_counter_final fire_abort = some clean_up_reader_manager
transition clean_up_reader_manager fire_continue = some final
transition clean_up_reader_manager fire_abort = some final
transition _ _ = none
