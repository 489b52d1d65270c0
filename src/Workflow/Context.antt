-- ===== src/Workflow/Context.antt =====
-- src/core/context/WorkflowContext.cpp: what the states of a workflow share. A setter returns the new
-- context. `emitted` lists what the context sent, newest first: its signals, and the calls of the reader
-- manager, which runs in another thread. Time is in milliseconds and an argument.
pub mod Fields
pub mod Laws
use text.Mathlib.Text.{◌==◌ as str_eq}
use ausweis_app2_omapi.Prelude.{
  ℕ, ◌+◌, ◌-◌, Bool, true, false, if◌then◌else◌, ltb, leb, ◌==◌, ◌||◌, ◌&&◌, not, List, ◌∷◌, Option,
  none, some, String, ℤ, pos, int_eq, bytes_eq,
}
use ausweis_app2_omapi.Global.Status.{GlobalStatus, of_code, Code, is_error, is_no_error}
use ausweis_app2_omapi.Global.Result.{EcardApiResult, is_ok, to_status}
use ausweis_app2_omapi.Global.Conversion.{ConversionMaps}
use ausweis_app2_omapi.Global.ReturnCode.{CardReturnCode, return_code_eq}
use ausweis_app2_omapi.Card.PasswordId.{PacePasswordId}
use ausweis_app2_omapi.Card.PaceOutput.{EstablishPaceChannelOutput}
use Fields.{
  CardConnection, ContextSignal, state_approved_changed, cancel_workflow,
  reader_plug_in_types_changed, reader_name_changed, card_connection_changed, puk_changed,
  can_changed, pin_changed, last_pace_result_changed, result_changed, can_allowed_mode_changed,
  next_workflow_pending_changed, state_changed, update_reader_info, WorkflowContext, emit, bool_eq,
  ContextKind, auth_context, change_pin_context, other_context,
}

unfoldable pub is_error_reported_to_user : WorkflowContext → Bool
is_error_reported_to_user c = c.error_reported_to_user || c.workflow_killed

unfoldable pub set_error_reported_to_user : Bool → WorkflowContext → WorkflowContext
set_error_reported_to_user b c = record c { error_reported_to_user = b }

unfoldable pub set_pace_result_reported_to_user : Bool → WorkflowContext → WorkflowContext
set_pace_result_reported_to_user b c = record c { pace_result_reported_to_user = b }

-- The signal makes the current state run, if the state is approved now; that call is not made here.
unfoldable pub set_state_approved : Bool → WorkflowContext → WorkflowContext
set_state_approved b c =
    if bool_eq c.state_approved b
    then c
    else emit state_approved_changed (record c { state_approved = b })

-- `fireCancelWorkflow` reaches `onWorkflowCancelled`, which stands in the constructor's `connect`.
unfoldable pub on_workflow_cancelled : WorkflowContext → WorkflowContext
on_workflow_cancelled c = record c { workflow_cancelled = true }

unfoldable pub kill_workflow : WorkflowContext → WorkflowContext
unfolding set_state_approved on_workflow_cancelled
kill_workflow c =
    let killed : WorkflowContext = record c {
      workflow_killed = true;
      status = of_code Code.card_cancellation_by_user;
    } in
    let approved = if c.state_approved then killed else set_state_approved true killed in
    on_workflow_cancelled (emit cancel_workflow approved)

unfoldable pub set_current_state : String → WorkflowContext → WorkflowContext
unfolding set_state_approved
set_current_state name c =
    let moved = emit (state_changed name) (record c { current_state = name }) in
    if c.workflow_killed then set_state_approved true moved else moved

unfoldable pub set_reader_plug_in_types : List ℕ → WorkflowContext → WorkflowContext
set_reader_plug_in_types types c =
    if bytes_eq c.reader_plug_in_types types
    then c
    else emit reader_plug_in_types_changed (record c { reader_plug_in_types = types })

unfoldable pub set_reader_name : String → WorkflowContext → WorkflowContext
set_reader_name name c =
    if str_eq c.reader_name name
    then c
    else emit reader_name_changed (record c { reader_name = name })

abbrev same_connection : Option CardConnection → Option CardConnection → Bool
same_connection none none = true
same_connection (some a) (some b) = a.identity == b.identity
same_connection _ _ = false

unfoldable pub set_card_connection : Option CardConnection → WorkflowContext → WorkflowContext
set_card_connection connection c =
    if same_connection c.card_connection connection
    then c
    else emit card_connection_changed (record c { card_connection = connection })

unfoldable pub reset_card_connection : WorkflowContext → WorkflowContext
unfolding set_card_connection
reset_card_connection c =
    let gone = set_card_connection none c in
    if str_eq c.reader_name "" then gone else emit (update_reader_info c.reader_name) gone

abbrev pub timer_elapsed : ℕ → Option ℕ → Bool
timer_elapsed now none = false
timer_elapsed now (some start) = ltb 4000 (now - start)

unfoldable pub is_npa_repositioning_required : ℕ → WorkflowContext → Bool
is_npa_repositioning_required now c =
    leb 10 c.card_vanished_count || timer_elapsed now c.card_vanished_timer

unfoldable pub set_npa_position_verified : WorkflowContext → WorkflowContext
set_npa_position_verified c = record c { card_vanished_count = 0; card_vanished_timer = none }

abbrev pub started_timer : ℕ → ℕ → Option ℕ → Option ℕ
started_timer now count none = if ltb 0 count then some now else none
started_timer now count (some start) = some start

-- `QElapsedTimer::restart` is called on a timer that is not valid, which Qt does not define; it is taken
-- for a start here.
unfoldable pub handle_wrong_npa_position : ℕ → WorkflowContext → WorkflowContext
unfolding reset_card_connection
handle_wrong_npa_position now c = reset_card_connection (record c {
  card_vanished_timer = started_timer now c.card_vanished_count c.card_vanished_timer;
  card_vanished_count = c.card_vanished_count + 1;
})

abbrev counter_is_zero : Option CardConnection → Bool
counter_is_zero none = false
counter_is_zero (some connection) = int_eq connection.retry_counter (pos 0)

unfoldable pub is_pin_blocked : WorkflowContext → Bool
is_pin_blocked c = counter_is_zero c.card_connection

unfoldable pub set_puk : String → WorkflowContext → WorkflowContext
set_puk s c = if str_eq c.puk s then c else emit puk_changed (record c { puk = s })

unfoldable pub set_can : String → WorkflowContext → WorkflowContext
set_can s c = if str_eq c.can s then c else emit can_changed (record c { can = s })

unfoldable pub set_pin : String → WorkflowContext → WorkflowContext
set_pin s c = if str_eq c.pin s then c else emit pin_changed (record c { pin = s })

unfoldable pub set_establish_pace_channel_type : PacePasswordId → WorkflowContext → WorkflowContext
set_establish_pace_channel_type p c = record c { establish_pace_channel_type = p }

unfoldable pub reset_pace_passwords : WorkflowContext → WorkflowContext
unfolding set_can set_pin set_puk
reset_pace_passwords c = set_puk "" (set_pin "" (set_can "" c))

unfoldable pub set_pace_output_data : EstablishPaceChannelOutput → WorkflowContext → WorkflowContext
set_pace_output_data o c = record c { pace_output_data = some o }

unfoldable pub set_last_pace_result : CardReturnCode → WorkflowContext → WorkflowContext
set_last_pace_result r c =
    let unreported : WorkflowContext = record c { pace_result_reported_to_user = false } in
    if return_code_eq c.last_pace_result r
    then unreported
    else emit last_pace_result_changed (record unreported { last_pace_result = r })

unfoldable pub reset_last_pace_result : WorkflowContext → WorkflowContext
unfolding set_last_pace_result
reset_last_pace_result = set_last_pace_result CardReturnCode.ok

unfoldable pub is_expected_reader : WorkflowContext → Bool
is_expected_reader c = str_eq c.expected_reader_name c.reader_name

unfoldable pub remember_reader : WorkflowContext → WorkflowContext
remember_reader c = record c { expected_reader_name = c.reader_name }

unfoldable pub set_expected_retry_counter : ℤ → WorkflowContext → WorkflowContext
set_expected_retry_counter n c = record c { expected_retry_counter = n }

unfoldable pub set_status : GlobalStatus → WorkflowContext → WorkflowContext
set_status s c = emit result_changed (record c { status = s; error_reported_to_user = false })

unfoldable pub set_start_paos_result : EcardApiResult → WorkflowContext → WorkflowContext
set_start_paos_result r c = record c { start_paos_result = r }

unfoldable pub set_workflow_finished : Bool → WorkflowContext → WorkflowContext
set_workflow_finished b c = record c { workflow_finished = b }

unfoldable pub set_can_allowed_mode : Bool → WorkflowContext → WorkflowContext
set_can_allowed_mode b c = emit can_allowed_mode_changed (record c { can_allowed_mode = b })

unfoldable pub set_next_workflow_pending : Bool → WorkflowContext → WorkflowContext
set_next_workflow_pending b c =
    if bool_eq b c.next_workflow_pending
    then c
    else emit next_workflow_pending_changed (record c { next_workflow_pending = b })

abbrev with_message : String → ContextKind → ContextKind
with_message s (auth_context description chat) = auth_context description chat
with_message s (change_pin_context new_pin message) = change_pin_context new_pin s
with_message s other_context = other_context

-- `ChangePinContext::setSuccessMessage`, behind the cast to that class.
unfoldable pub set_success_message : String → WorkflowContext → WorkflowContext
set_success_message s c = record c { kind = with_message s c.kind }

-- src/core/states/AbstractState.cpp: what every state does with the context. The first error stays.
unfoldable pub update_status : GlobalStatus → WorkflowContext → WorkflowContext
unfolding set_status
update_status s c = if is_error s && is_no_error c.status then set_status s c else c

unfoldable pub update_start_paos_result :
    (String → String) → ConversionMaps → EcardApiResult → WorkflowContext → WorkflowContext
unfolding set_start_paos_result update_status
update_start_paos_result translate maps r c =
    if not (is_ok r) && is_ok c.start_paos_result
    then update_status (to_status translate maps r) (set_start_paos_result r c)
    else c

-- A state that is entered tells its name; one that is left takes the approval back.
unfoldable pub on_entry : String → WorkflowContext → WorkflowContext
unfolding set_current_state
on_entry = set_current_state

unfoldable pub on_exit : WorkflowContext → WorkflowContext
unfolding set_state_approved
on_exit = set_state_approved false
