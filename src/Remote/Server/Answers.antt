-- ===== src/Remote/Server/Answers.antt =====
-- What a request leads to, and what the end of a command sends.
use ausweis_app2_omapi.Prelude.{
  ℕ, suc, Bool, true, false, not, ◌&&◌, if◌then◌else◌, String, Bytes, Option, none, some, List, [],
  ◌∷◌, ◌≡◌, refl, ap,
}
use mathlib.Core.Bool.{false≢true}
use ausweis_app2_omapi.Global.Minor.{Minor}
use ausweis_app2_omapi.Apdu.Command.{is_secure_messaging}
use ausweis_app2_omapi.Apdu.Response.{ResponseApdu}
use ausweis_app2_omapi.Global.ReturnCode.{CardReturnCode}
use ausweis_app2_omapi.Card.PaceOutput.{EstablishPaceChannelOutput}
use ausweis_app2_omapi.Remote.Server.Completions.{
  on_create_card_connection_command_done, on_transmit_card_command_done,
  send_establish_pace_channel_response, answer_modify_pin,
}
use ausweis_app2_omapi.Remote.Json.{JsonObject}
use ausweis_app2_omapi.Remote.Messages.{
  RemoteCardMessageType, Request, ifd_connect, ifd_disconnect, ifd_transmit,
  ifd_establish_pace_channel, ifd_modify_pin, ifd_get_status, parse_connect, parse_disconnect,
  parse_transmit, parse_input,
}
use ausweis_app2_omapi.Remote.Server.Connections.{
  CardConnection, Connections, find_connection, is_connected, remove_connection, uses_reader,
  convert_slot_handle_backwards_compatibility,
}
use ausweis_app2_omapi.Remote.Server.Handlers.{
  Effect, Environment, send_connect_response, send_disconnect_response, send_transmit_response,
  send_pace_response, send_modify_pin_response, call_create_card_connection, call_transmit,
  fire_establish_pace_channel, fire_modify_pin, transmit_choice, transmit_to,
  establish_pace_channel_with, modify_pin_with, handle_ifd_connect, handle_ifd_disconnect,
  handle_ifd_transmit, handle_ifd_establish_pace_channel, handle_ifd_modify_pin, on_remote_message,
}

-- The response to a request.
abbrev pub responds : RemoteCardMessageType → Effect → Bool
responds ifd_connect (send_connect_response h m) = true
responds ifd_disconnect (send_disconnect_response h m) = true
responds ifd_transmit (send_transmit_response h b m) = true
responds ifd_establish_pace_channel (send_pace_response h b m) = true
responds ifd_modify_pin (send_modify_pin_response h b m) = true
responds _ _ = false

abbrev pub count_responses : RemoteCardMessageType → List Effect → ℕ
count_responses t [] = 0
count_responses t (e ∷ l) =
    let rest = count_responses t l in if responds t e then suc rest else rest

-- The response to a request, or the command or signal that stands for it.
abbrev pub answers : RemoteCardMessageType → Effect → Bool
answers ifd_connect (send_connect_response h m) = true
answers ifd_connect (call_create_card_connection n) = true
answers ifd_disconnect (send_disconnect_response h m) = true
answers ifd_transmit (send_transmit_response h b m) = true
answers ifd_transmit (call_transmit c b h) = true
answers ifd_establish_pace_channel (send_pace_response h b m) = true
answers ifd_establish_pace_channel (fire_establish_pace_channel r c) = true
answers ifd_modify_pin (send_modify_pin_response h b m) = true
answers ifd_modify_pin (fire_modify_pin r c) = true
answers _ _ = false

abbrev pub is_request : RemoteCardMessageType → Bool
is_request ifd_connect = true
is_request ifd_disconnect = true
is_request ifd_transmit = true
is_request ifd_establish_pace_channel = true
is_request ifd_modify_pin = true
is_request _ = false

abbrev pub count_answers : RemoteCardMessageType → List Effect → ℕ
count_answers t [] = 0
count_answers t (e ∷ l) = let rest = count_answers t l in if answers t e then suc rest else rest

-- A choice between effects.
abbrev effects : Bool → List Effect → List Effect → List Effect
effects b x y = if b then x else y

one_of :
    (t : RemoteCardMessageType) (b : Bool) (x y : List Effect)
    → count_answers t x ≡ 1
    → count_answers t y ≡ 1
    → count_answers t (effects b x y) ≡ 1
one_of t true x y p q = p
one_of t false x y p q = q

chosen :
    (b channel : Bool) (l : Connections) (c : CardConnection) (apdu : Bytes) (handle : String)
    → count_answers ifd_transmit (transmit_choice b channel l c apdu handle).1 ≡ 1
unfolding transmit_choice
chosen true true l c apdu handle = refl
chosen true false l c apdu handle = refl
chosen false channel l c apdu handle = refl

transmit_answers :
    (e : Environment) (l : Connections) (apdu : Bytes) (handle : String) (o : Option CardConnection)
    → count_answers ifd_transmit (transmit_to e l apdu handle o).1 ≡ 1
unfolding transmit_to
transmit_answers e l apdu handle none = refl
transmit_answers e l apdu handle (some c) =
    chosen (e.pin_pad_mode && is_secure_messaging apdu) c.secure_messaging l c apdu handle

pace_answers :
    (e : Environment) (r : Request) (handle : String) (o : Option CardConnection)
    → count_answers ifd_establish_pace_channel (establish_pace_channel_with e r handle o) ≡ 1
unfolding establish_pace_channel_with
pace_answers e r handle none = refl
pace_answers e r handle (some c) =
    one_of ifd_establish_pace_channel (c.reader.basic_reader && not e.pin_pad_mode)
      (send_pace_response handle [] Minor.al_unknown_error ∷ [])
      (fire_establish_pace_channel r c ∷ []) refl refl

modify_answers :
    (r : Request) (o : Option CardConnection)
    → count_answers ifd_modify_pin (modify_pin_with r o) ≡ 1
unfolding modify_pin_with
modify_answers r none = refl
modify_answers r (some c) = refl

connect_answers :
    (e : Environment) (l : Connections) (o : JsonObject)
    → count_answers ifd_connect (handle_ifd_connect e l o) ≡ 1
unfolding handle_ifd_connect
connect_answers e l o =
    let slot = (parse_connect o).slot in
    one_of ifd_connect (not (e.reader_info slot).connected)
      (send_connect_response slot Minor.ifdl_unknown_slot ∷ [])
      (effects (not (e.reader_info slot).eid_card)
        (send_connect_response slot Minor.al_unknown_error ∷ [])
        (effects (uses_reader l slot)
          (send_connect_response slot Minor.ifdl_ifd_sharing_violation ∷ [])
          (call_create_card_connection slot ∷ [])))
      refl
      (one_of ifd_connect (not (e.reader_info slot).eid_card)
        (send_connect_response slot Minor.al_unknown_error ∷ [])
        (effects (uses_reader l slot)
          (send_connect_response slot Minor.ifdl_ifd_sharing_violation ∷ [])
          (call_create_card_connection slot ∷ []))
        refl
        (one_of ifd_connect (uses_reader l slot)
          (send_connect_response slot Minor.ifdl_ifd_sharing_violation ∷ [])
          (call_create_card_connection slot ∷ []) refl refl))

abbrev either :
    Bool → Connections × List Effect → Connections × List Effect → Connections × List Effect
either b x y = if b then x else y

either-answers :
    (b : Bool) (l m : Connections) (x y : Effect)
    → answers ifd_disconnect x ≡ true
    → answers ifd_disconnect y ≡ true
    → count_answers ifd_disconnect (either b (l, x ∷ []) (m, y ∷ [])).1 ≡ 1
either-answers true l m x y p q = ap (λ b. if b then 1 else 0) p
either-answers false l m x y p q = ap (λ b. if b then 1 else 0) q

disconnect_answers :
    (l : Connections) (o : JsonObject)
    → count_answers ifd_disconnect (handle_ifd_disconnect l o).1 ≡ 1
unfolding handle_ifd_disconnect
disconnect_answers l o =
    let h = convert_slot_handle_backwards_compatibility l (parse_disconnect o).slot in
    either-answers (not (is_connected l h)) l (remove_connection l h)
      (send_disconnect_response h Minor.ifdl_invalid_slot_handle)
      (send_disconnect_response h Minor.null) refl refl

create_responds :
    (before : String → String → Bool) (new_handle reader : String) (made : Option CardConnection)
    (l : Connections)
    → count_responses ifd_connect
        (on_create_card_connection_command_done before new_handle reader made l).1
      ≡ 1
unfolding on_create_card_connection_command_done
create_responds before new_handle reader none l = refl
create_responds before new_handle reader (some c) l = refl

transmit_responds :
    (l : Connections) (slot : String) (code : CardReturnCode) (outputs : List Bytes)
    → count_responses ifd_transmit (on_transmit_card_command_done l slot code outputs) ≡ 1
unfolding on_transmit_card_command_done
transmit_responds l slot CardReturnCode.ok [] = refl
transmit_responds l slot CardReturnCode.ok (output ∷ []) = refl
transmit_responds l slot CardReturnCode.ok (output ∷ next ∷ outputs) = refl
transmit_responds l slot _ outputs = refl

module _ (from_hex : String → Bytes) (to_hex : Bytes → String) where
  request_answers :
      (e : Environment) (l : Connections) (t : RemoteCardMessageType) (o : JsonObject)
      → is_request t ≡ true
      → count_answers t (on_remote_message from_hex to_hex e l t o).1 ≡ 1
  unfolding on_remote_message handle_ifd_transmit handle_ifd_establish_pace_channel
      handle_ifd_modify_pin
  request_answers e l ifd_connect o h = connect_answers e l o
  request_answers e l ifd_disconnect o h = disconnect_answers l o
  request_answers e l ifd_transmit o h =
      let r = parse_transmit from_hex to_hex o in
      let handle = convert_slot_handle_backwards_compatibility l r.slot in
      transmit_answers e l r.input handle (find_connection l handle)
  request_answers e l ifd_establish_pace_channel o h =
      let r = parse_input from_hex to_hex ifd_establish_pace_channel o in
      let handle = convert_slot_handle_backwards_compatibility l r.slot in
      pace_answers e r handle (find_connection l handle)
  request_answers e l ifd_modify_pin o h =
      let r = parse_input from_hex to_hex ifd_modify_pin o in
      one_of ifd_modify_pin (not e.pin_pad_mode)
        (send_modify_pin_response r.slot [] Minor.al_unknown_error ∷ [])
        (modify_pin_with r (find_connection l r.slot)) refl
        (modify_answers r (find_connection l r.slot))
  request_answers e l ifd_get_status o h = elim (false≢true h) [ ]
  request_answers e l _ o h = elim (false≢true h) [ ]

  -- A request to connect, disconnect, transmit, establish a PACE channel or modify the PIN leads to
  -- exactly one response of its kind, or one command or signal in its place, whatever is connected. The
  -- end of the command for a connection, and of the one for a transmission, sends exactly one response
  -- of its kind, whether it succeeded or not, and so does each of the two calls by which the workflow
  -- answers a signal. That the workflow takes a signal and makes that call is not stated.
  pub on_remote_message_answers :
      (e : Environment) (l m : Connections) (t : RemoteCardMessageType) (o : JsonObject)
      (before : String → String → Bool) (new_handle slot : String) (made : Option CardConnection)
      (code : CardReturnCode) (outputs : List Bytes) (to_ccid : EstablishPaceChannelOutput → Bytes)
      (output : EstablishPaceChannelOutput) (response : ResponseApdu)
      → is_request t ≡ true
      → (count_answers t (on_remote_message from_hex to_hex e l t o).1 ≡ 1)
        × (count_responses ifd_connect
              (on_create_card_connection_command_done before new_handle slot made m).1
            ≡ 1)
        × (count_responses ifd_transmit (on_transmit_card_command_done m slot code outputs) ≡ 1)
        × (responds ifd_establish_pace_channel
              (send_establish_pace_channel_response to_ccid slot output)
            ≡ true)
        × (responds ifd_modify_pin (answer_modify_pin slot response) ≡ true)
  unfolding send_establish_pace_channel_response answer_modify_pin
  on_remote_message_answers e l m t o before new_handle slot made code outputs to_ccid output
        response h =
      (
        request_answers e l t o h,
        create_responds before new_handle slot made m,
        transmit_responds m slot code outputs,
        refl,
        refl,
      )
