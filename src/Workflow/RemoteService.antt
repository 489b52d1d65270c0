-- ===== src/Workflow/RemoteService.antt =====
-- src/core/controller/RemoteServiceController.cpp: the states of a device that serves as a remote card
-- reader, and the transitions between them.
pub mod Flow
use ausweis_app2_omapi.Prelude.{Option, none, some}

pub data RemoteServiceState : Type 0 where
  start_remote_service process_remote_messages update_retry_counter : RemoteServiceState
  verify_retry_counter prepare_pace_remote enter_pace_password_remote : RemoteServiceState
  establish_pace_channel_remote establish_pace_channel_response : RemoteServiceState
  prepare_change_pin_remote enter_new_pace_pin_remote change_pin_remote : RemoteServiceState
  change_pin_response clear_pace_passwords stop_remote_service final : RemoteServiceState

pub data RemoteServiceSignal : Type 0 where
  fire_continue fire_abort fire_establish_pace_channel fire_modify_pin : RemoteServiceSignal
  fire_secure_messaging_stopped fire_enter_pace_password : RemoteServiceSignal
  fire_wrong_pace_password fire_enter_new_pace_pin : RemoteServiceSignal
  fire_pace_password_modified : RemoteServiceSignal

abbrev pub initial : RemoteServiceState
initial = start_remote_service

-- `none`: the state ignores the signal.
unfoldable pub transition : RemoteServiceState → RemoteServiceSignal → Option RemoteServiceState
transition start_remote_service fire_continue = some process_remote_messages
transition start_remote_service fire_abort = some stop_remote_service
transition process_remote_messages fire_abort = some stop_remote_service
transition process_remote_messages fire_establish_pace_channel = some update_retry_counter
transition process_remote_messages fire_modify_pin = some prepare_change_pin_remote
transition process_remote_messages fire_secure_messaging_stopped = some clear_pace_passwords
transition update_retry_counter fire_continue = some verify_retry_counter
transition update_retry_counter fire_abort = some establish_pace_channel_response
transition verify_retry_counter fire_continue = some prepare_pace_remote
transition verify_retry_counter fire_abort = some establish_pace_channel_response
transition prepare_pace_remote fire_continue = some establish_pace_channel_remote
transition prepare_pace_remote fire_enter_pace_password = some enter_pace_password_remote
transition prepare_pace_remote fire_abort = some establish_pace_channel_remote
transition enter_pace_password_remote fire_continue = some establish_pace_channel_remote
transition enter_pace_password_remote fire_abort = some establish_pace_channel_response
transition establish_pace_channel_remote fire_continue = some establish_pace_channel_response
transition establish_pace_channel_remote fire_abort = some establish_pace_channel_response
transition establish_pace_channel_response fire_continue = some process_remote_messages
transition establish_pace_channel_response fire_wrong_pace_password = some clear_pace_passwords
transition establish_pace_channel_response fire_abort = some process_remote_messages
transition prepare_change_pin_remote fire_continue = some change_pin_remote
transition prepare_change_pin_remote fire_enter_new_pace_pin = some enter_new_pace_pin_remote
transition prepare_change_pin_remote fire_abort = some change_pin_remote
transition enter_new_pace_pin_remote fire_continue = some change_pin_remote
transition enter_new_pace_pin_remote fire_abort = some change_pin_response
transition change_pin_remote fire_continue = some change_pin_response
transition change_pin_remote fire_abort = some change_pin_response
transition change_pin_response fire_continue = some process_remote_messages
transition change_pin_response fire_pace_password_modified = some clear_pace_passwords
transition change_pin_response fire_abort = some process_remote_messages
transition clear_pace_passwords fire_continue = some process_remote_messages
transition clear_pace_passwords fire_abort = some process_remote_messages
transition stop_remote_service fire_continue = some final
transition stop_remote_service fire_abort = some final
transition _ _ = none
