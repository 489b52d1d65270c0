-- ===== src/Workflow/Pace/Machine.antt =====
-- src/core/states/CompositeStatePace.cpp: the transitions between the states, and the machine's steps.
use ausweis_app2_omapi.Prelude.{ℕ, ◌≡◌, Option, none, some, String}
use ausweis_app2_omapi.Global.ReturnCode.{CardReturnCode}
use ausweis_app2_omapi.Card.PaceOutput.{EstablishPaceChannelOutput}
use ausweis_app2_omapi.Workflow.Context.Fields.{WorkflowContext, CardConnection}
use ausweis_app2_omapi.Workflow.Context.{on_entry, on_exit}
use ausweis_app2_omapi.Workflow.Pace.{
  run_maintain_card_connection, run_clear_pace_passwords, run_update_retry_counter,
  on_update_retry_counter_done, run_verify_retry_counter, run_prepare_pace,
  run_unfortunate_card_position, run_enter_pace_password, run_destroy_pace, on_destroy_pace_done,
  on_user_cancelled, on_card_removed,
}
use ausweis_app2_omapi.Workflow.Pace.Establish.{
  run_establish_pace_channel, on_establish_connection_done, on_establish_user_cancelled,
}
use ausweis_app2_omapi.Workflow.Pace.Signals.{
  Signal, fire_continue, fire_abort, fire_no_card_connection, fire_force_update_retry_counter,
  fire_enter_pace_password, fire_establish_pace_channel, fire_pace_channel_established,
  fire_pace_puk_established, fire_abort_and_unfortunate_card_position, CardCommand,
  call_update_retry_counter, call_destroy_pace_channel, Outcome, fires, calls, waits,
}

pub data PaceState : Type 0 where
  maintain_card_connection clear_pace_passwords_on_error select_card : PaceState
  update_retry_counter verify_retry_counter prepare_pace : PaceState
  unfortunate_card_position enter_pace_password establish_pace_channel : PaceState
  clear_pace_passwords_before_destroy destroy_pace : PaceState

-- The signals of CompositeStatePace itself.
pub data PaceExit : Type 0 where
  pace_channel_established pace_puk_established pace_abort : PaceExit

pub data Target : Type 0 where
  enters : PaceState → Target
  leaves : PaceExit → Target

-- `none`: the state ignores the signal.
unfoldable pub transition : PaceState → Signal → Option Target
transition maintain_card_connection fire_continue = some (enters verify_retry_counter)
transition maintain_card_connection fire_no_card_connection = some (enters select_card)
transition maintain_card_connection fire_force_update_retry_counter =
    some (enters update_retry_counter)
transition maintain_card_connection fire_abort = some (enters clear_pace_passwords_on_error)
transition clear_pace_passwords_on_error fire_continue = some (leaves pace_abort)
transition clear_pace_passwords_on_error fire_abort = some (leaves pace_abort)
transition select_card fire_continue = some (enters update_retry_counter)
transition select_card fire_abort = some (enters maintain_card_connection)
transition update_retry_counter fire_continue = some (enters verify_retry_counter)
transition update_retry_counter fire_abort = some (enters maintain_card_connection)
transition verify_retry_counter fire_continue = some (enters prepare_pace)
transition verify_retry_counter fire_abort = some (enters maintain_card_connection)
transition prepare_pace fire_enter_pace_password = some (enters enter_pace_password)
transition prepare_pace fire_establish_pace_channel = some (enters establish_pace_channel)
transition prepare_pace fire_continue = some (enters maintain_card_connection)
transition prepare_pace fire_abort = some (enters maintain_card_connection)
transition enter_pace_password fire_continue = some (enters establish_pace_channel)
transition enter_pace_password fire_abort = some (enters maintain_card_connection)
transition establish_pace_channel fire_continue = some (enters maintain_card_connection)
transition establish_pace_channel fire_pace_channel_established =
    some (leaves pace_channel_established)
transition establish_pace_channel fire_pace_puk_established =
    some (enters clear_pace_passwords_before_destroy)
transition establish_pace_channel fire_abort_and_unfortunate_card_position =
    some (enters unfortunate_card_position)
transition establish_pace_channel fire_abort = some (enters maintain_card_connection)
transition unfortunate_card_position fire_continue = some (enters maintain_card_connection)
transition unfortunate_card_position fire_abort = some (enters maintain_card_connection)
transition clear_pace_passwords_before_destroy fire_continue = some (enters destroy_pace)
transition clear_pace_passwords_before_destroy fire_abort = some (enters destroy_pace)
transition destroy_pace fire_continue = some (leaves pace_puk_established)
transition destroy_pace fire_abort = some (leaves pace_abort)
transition _ _ = none

-- CompositeStateSelectCard has states of its own, and waits for a reader and a card.
unfoldable pub run : PaceState → WorkflowContext → Outcome
run maintain_card_connection c = run_maintain_card_connection c
run clear_pace_passwords_on_error c = run_clear_pace_passwords c
run select_card c = waits
run update_retry_counter c = run_update_retry_counter c
run verify_retry_counter c = run_verify_retry_counter c
run prepare_pace c = run_prepare_pace c
run unfortunate_card_position c = run_unfortunate_card_position c
run enter_pace_password c = run_enter_pace_password c
run establish_pace_channel c = run_establish_pace_channel c
run clear_pace_passwords_before_destroy c = run_clear_pace_passwords c
run destroy_pace c = run_destroy_pace c

-- `onUserCancelled`, which one state overrides.
unfoldable pub cancel : PaceState → WorkflowContext → Outcome
cancel establish_pace_channel c = on_establish_user_cancelled c
cancel _ c = on_user_cancelled c

-- The names under which the states tell of themselves.
abbrev pub state_name : PaceState → String
state_name maintain_card_connection = "StateMaintainCardConnection"
state_name clear_pace_passwords_on_error = "StateClearPacePasswords"
state_name select_card = "CompositeStateSelectCard"
state_name update_retry_counter = "StateUpdateRetryCounter"
state_name verify_retry_counter = "StateVerifyRetryCounter"
state_name prepare_pace = "StatePreparePace"
state_name unfortunate_card_position = "StateUnfortunateCardPosition"
state_name enter_pace_password = "StateEnterPacePassword"
state_name establish_pace_channel = "StateEstablishPaceChannel"
state_name clear_pace_passwords_before_destroy = "StateClearPacePasswords"
state_name destroy_pace = "StateDestroyPace"

-- The context behind a transition: the old state is left, and the new one is entered.
abbrev pub entered : PaceState → WorkflowContext → WorkflowContext
entered s c = on_entry (state_name s) (on_exit c)

-- What a card command gives: the connection as it is afterwards (its counter is read anew), and a code.
abbrev with_connection : Option CardConnection → WorkflowContext → WorkflowContext
with_connection connection c = record c { card_connection = connection }

-- What selecting a card may change: the reader and the connection.
abbrev with_card : String → Option CardConnection → WorkflowContext → WorkflowContext
with_card reader connection c = record c { reader_name = reader; card_connection = connection }

-- What the user may enter before a state is approved.
abbrev with_passwords : String → String → String → WorkflowContext → WorkflowContext
with_passwords can pin puk c = record c { can = can; pin = pin; puk = puk }

-- How a state ends in an outcome: it runs, its card command returns, its selection of a card ends, the
-- user cancels, or the card is removed, the last two also while a card command runs. The card, the
-- reader, the clock and the user are free. The removal is more than the code has: these states are
-- constructed such that they do not listen for it.
pub data Ends : PaceState → WorkflowContext → Outcome → Type 0 where
  ran : (s : PaceState) (c : WorkflowContext) → Ends s c (run s c)
  password_entered :
      (can pin puk : String) (c : WorkflowContext)
      → Ends enter_pace_password c (run_enter_pace_password (with_passwords can pin puk c))
  retry_counter_updated :
      (connection : Option CardConnection) (r : CardReturnCode) (c c' : WorkflowContext)
      → run_update_retry_counter c ≡ calls call_update_retry_counter c'
      → Ends update_retry_counter c (on_update_retry_counter_done r (with_connection connection c'))
  channel_done :
      (now : ℕ) (command : CardCommand) (connection : Option CardConnection) (r : CardReturnCode)
      (output : EstablishPaceChannelOutput) (c c' : WorkflowContext)
      → run_establish_pace_channel c ≡ calls command c'
      → Ends establish_pace_channel c (
          on_establish_connection_done now c.establish_pace_channel_type r output
            (with_connection connection c'))
  destroyed :
      (connection : Option CardConnection) (c c' : WorkflowContext)
      → run_destroy_pace c ≡ calls call_destroy_pace_channel c'
      → Ends destroy_pace c (on_destroy_pace_done (with_connection connection c'))
  card_selected :
      (reader : String) (connection : Option CardConnection) (c : WorkflowContext)
      → Ends select_card c (fires fire_continue (with_card reader connection c))
  selection_aborted :
      (reader : String) (connection : Option CardConnection) (c : WorkflowContext)
      → Ends select_card c (fires fire_abort (with_card reader connection c))
  cancelled : (s : PaceState) (c : WorkflowContext) → Ends s c (cancel s c)
  cancelled_meanwhile :
      (s : PaceState) (command : CardCommand) (c c' : WorkflowContext)
      → run s c ≡ calls command c'
      → Ends s c (cancel s c')
  card_removed :
      (s : PaceState) (reader : String) (c : WorkflowContext) (o : Outcome)
      → on_card_removed reader c ≡ some o
      → Ends s c o
  card_removed_meanwhile :
      (s : PaceState) (reader : String) (command : CardCommand) (c c' : WorkflowContext)
      (o : Outcome)
      → run s c ≡ calls command c'
      → on_card_removed reader c' ≡ some o
      → Ends s c o

-- A step of the machine between two of its states.
pub data Step : PaceState → WorkflowContext → PaceState → WorkflowContext → Type 0 where
  step :
      (s t : PaceState) (c d : WorkflowContext) (signal : Signal)
      → Ends s c (fires signal d)
      → transition s signal ≡ some (enters t)
      → Step s c t (entered t d)
