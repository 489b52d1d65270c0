-- ===== src/Workflow/Context/Fields.antt =====
-- src/core/context/WorkflowContext.h and the constructor of WorkflowContext.cpp.
use ausweis_app2_omapi.Prelude.{
  ℕ, Bool, true, false, not, List, [], ◌∷◌, Option, none, String, ℤ, minus_one, Bytes,
}
use ausweis_app2_omapi.Global.Status.{GlobalStatus, of_code, Code}
use ausweis_app2_omapi.Global.Result.{EcardApiResult, create_ok}
use ausweis_app2_omapi.Global.ReturnCode.{CardReturnCode}
use ausweis_app2_omapi.Card.PasswordId.{PacePasswordId}
use ausweis_app2_omapi.Card.PaceOutput.{EstablishPaceChannelOutput}

-- What the states read of a card connection. The pointer is compared by `identity`.
pub record CardConnection : Type 0 where
  pub identity : ℕ
  pub retry_counter : ℤ
  pub basic_reader : Bool
  pub pace_can_successful : Bool
  pub pace_pin_successful : Bool

pub data ContextSignal : Type 0 where
  state_approved_changed cancel_workflow reader_plug_in_types_changed : ContextSignal
  reader_name_changed card_connection_changed puk_changed can_changed : ContextSignal
  pin_changed last_pace_result_changed result_changed can_allowed_mode_changed : ContextSignal
  next_workflow_pending_changed : ContextSignal
  state_changed : String → ContextSignal
  update_reader_info : String → ContextSignal

-- The subclasses that the PACE states ask for: an AuthContext with its certificate description and its
-- encoded effective CHAT, a ChangePinContext with its new PIN and its success message, or another.
pub data ContextKind : Type 0 where
  auth_context : Bytes → Bytes → ContextKind
  change_pin_context : String → String → ContextKind
  other_context : ContextKind

pub record WorkflowContext : Type 0 where
  pub state_approved : Bool
  pub workflow_killed : Bool
  pub current_state : String
  pub reader_plug_in_types : List ℕ
  pub reader_name : String
  pub card_connection : Option CardConnection
  pub card_vanished_count : ℕ
  pub card_vanished_timer : Option ℕ
  pub can : String
  pub pin : String
  pub puk : String
  pub establish_pace_channel_type : PacePasswordId
  pub pace_output_data : Option EstablishPaceChannelOutput
  pub expected_reader_name : String
  pub expected_retry_counter : ℤ
  pub last_pace_result : CardReturnCode
  pub status : GlobalStatus
  pub start_paos_result : EcardApiResult
  pub error_reported_to_user : Bool
  pub pace_result_reported_to_user : Bool
  pub workflow_finished : Bool
  pub workflow_cancelled : Bool
  pub can_allowed_mode : Bool
  pub next_workflow_pending : Bool
  pub kind : ContextKind
  pub emitted : List ContextSignal

-- The constructor; `language` is that of `ECardApiResult::createOk`.
unfoldable pub new_context : String → ContextKind → WorkflowContext
new_context language kind = record {
  state_approved = false;
  workflow_killed = false;
  current_state = "";
  reader_plug_in_types = [];
  reader_name = "";
  card_connection = none;
  card_vanished_count = 0;
  card_vanished_timer = none;
  can = "";
  pin = "";
  puk = "";
  establish_pace_channel_type = PacePasswordId.unknown;
  pace_output_data = none;
  expected_reader_name = "";
  expected_retry_counter = minus_one;
  last_pace_result = CardReturnCode.ok;
  status = of_code Code.no_error;
  start_paos_result = create_ok language;
  error_reported_to_user = true;
  pace_result_reported_to_user = false;
  workflow_finished = false;
  workflow_cancelled = false;
  can_allowed_mode = false;
  next_workflow_pending = false;
  kind = kind;
  emitted = [];
}

abbrev pub emit : ContextSignal → WorkflowContext → WorkflowContext
emit s c = record c { emitted = s ∷ c.emitted }

abbrev pub bool_eq : Bool → Bool → Bool
bool_eq true b = b
bool_eq false b = not b
