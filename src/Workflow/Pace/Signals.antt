-- ===== src/Workflow/Pace/Signals.antt =====
-- The signals of the states inside CompositeStatePace, the card commands that they call, and what a
-- state does when it runs.
use ausweis_app2_omapi.Prelude.{String, Bytes}
use ausweis_app2_omapi.Card.PasswordId.{PacePasswordId}
use ausweis_app2_omapi.Workflow.Context.Fields.{WorkflowContext}

pub data Signal : Type 0 where
  fire_continue fire_abort fire_no_card_connection fire_force_update_retry_counter : Signal
  fire_enter_pace_password fire_establish_pace_channel fire_pace_channel_established : Signal
  fire_pace_puk_established fire_abort_and_unfortunate_card_position : Signal

-- The password, the effective CHAT and the certificate description.
pub data CardCommand : Type 0 where
  call_update_retry_counter call_destroy_pace_channel : CardCommand
  call_unblock_pin : String → CardCommand
  call_establish_pace_channel : PacePasswordId → String → Bytes → Bytes → CardCommand

pub data Outcome : Type 0 where
  fires : Signal → WorkflowContext → Outcome
  calls : CardCommand → WorkflowContext → Outcome
  waits unreachable : Outcome
