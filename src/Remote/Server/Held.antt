-- ===== src/Remote/Server/Held.antt =====
-- Commands run only on connections that are held, under the handle with which they are held.
use text.Mathlib.Text.{◌==◌ as str_eq}
use ausweis_app2_omapi.Prelude.{
  Bool, true, false, not, ◌&&◌, if◌then◌else◌, String, Bytes, Option, none, some, List, [], ◌∷◌,
  All, ◌≡◌, refl, ap, ◌∙◌,
}
use ausweis_app2_omapi.Global.Minor.{Minor}
use ausweis_app2_omapi.Apdu.Command.{is_secure_messaging}
use ausweis_app2_omapi.Remote.Json.{JsonObject}
use ausweis_app2_omapi.Remote.Messages.{
  RemoteCardMessageType, Request, ifd_connect, ifd_disconnect, ifd_transmit, ifd_error,
  ifd_establish_pace_channel, ifd_modify_pin, ifd_get_status, undefined, ifd_establish_context,
  ifd_establish_context_response, parse_connect, parse_disconnect, parse_transmit, parse_input,
  parse_get_status,
}
use ausweis_app2_omapi.Remote.Server.Connections.{
  ReaderInfo, CardConnection, Connections, find_connection, is_connected, remove_connection,
  uses_reader, convert_slot_handle_backwards_compatibility,
}
use ausweis_app2_omapi.Remote.Server.Lookup.{find_connection-stop_secure_messaging}
use ausweis_app2_omapi.Remote.Server.Handlers.{
  Effect, Environment, call_transmit, fire_establish_pace_channel, fire_modify_pin, send_status,
  send_disconnect_response, transmit_choice, transmit_to, establish_pace_channel_with,
  modify_pin_with, handle_ifd_connect, handle_ifd_disconnect, handle_ifd_transmit,
  handle_ifd_establish_pace_channel, handle_ifd_modify_pin, handle_ifd_get_status, basic_readers,
  on_remote_message,
}

-- What an effect uses is held: the connection of a command under its handle, where a command of secure
-- messaging in the PIN pad mode has no channel below it; the connections of the two signals under the
-- handle that is asked for.
abbrev pub IsHeld : Environment → Connections → Effect → Type 0
IsHeld e l (call_transmit c apdu handle) =
    (find_connection l handle ≡ some c)
    × ((e.pin_pad_mode && is_secure_messaging apdu) && c.secure_messaging ≡ false)
IsHeld e l (fire_establish_pace_channel r c) =
    find_connection l (convert_slot_handle_backwards_compatibility l r.slot) ≡ some c
IsHeld e l (fire_modify_pin r c) = find_connection l r.slot ≡ some c
IsHeld e l _ = Unit

abbrev AllHeld : Environment → Connections × List Effect → Type 0
AllHeld e r = All (IsHeld e r.0) r.1

no_channel : (b : Bool) → b && false ≡ false
no_channel true = refl
no_channel false = refl

choice-AllHeld :
    (e : Environment) (b channel : Bool) (l : Connections) (c : CardConnection) (apdu : Bytes)
    (handle : String)
    → find_connection l handle ≡ some c
    → e.pin_pad_mode && is_secure_messaging apdu ≡ b
    → c.secure_messaging ≡ channel
    → AllHeld e (transmit_choice b channel l c apdu handle)
unfolding transmit_choice
choice-AllHeld e true true l c apdu handle h p q = (
  tt,
  (
    (
      find_connection-stop_secure_messaging l handle c h,
      no_channel (e.pin_pad_mode && is_secure_messaging apdu),
    ),
    tt,
  ),
)
choice-AllHeld e true false l c apdu handle h p q = (
  (
    h,
    ap (λ x. (e.pin_pad_mode && is_secure_messaging apdu) && x) q
        ∙ no_channel (e.pin_pad_mode && is_secure_messaging apdu),
  ),
  tt,
)
choice-AllHeld e false channel l c apdu handle h p q =
    ((h, ap (λ x. x && c.secure_messaging) p), tt)

transmit-AllHeld :
    (e : Environment) (l : Connections) (apdu : Bytes) (handle : String) (o : Option CardConnection)
    → find_connection l handle ≡ o
    → AllHeld e (transmit_to e l apdu handle o)
unfolding transmit_to
transmit-AllHeld e l apdu handle none h = (tt, tt)
transmit-AllHeld e l apdu handle (some c) h =
    choice-AllHeld e (e.pin_pad_mode && is_secure_messaging apdu) c.secure_messaging l c apdu handle
      h refl refl

one-IsHeld :
    (e : Environment) (l : Connections) (b : Bool) (x y : List Effect)
    → All (IsHeld e l) x
    → All (IsHeld e l) y
    → All (IsHeld e l) (if b then x else y)
one-IsHeld e l true x y p q = p
one-IsHeld e l false x y p q = q

pace-AllHeld :
    (e : Environment) (l : Connections) (r : Request) (o : Option CardConnection)
    → find_connection l (convert_slot_handle_backwards_compatibility l r.slot) ≡ o
    → AllHeld e (
      l,
      establish_pace_channel_with e r (convert_slot_handle_backwards_compatibility l r.slot) o,
    )
unfolding establish_pace_channel_with
pace-AllHeld e l r none h = (tt, tt)
pace-AllHeld e l r (some c) h =
    one-IsHeld e l (c.reader.basic_reader && not e.pin_pad_mode) _
      (fire_establish_pace_channel r c ∷ []) (tt, tt) (h, tt)

modify-AllHeld :
    (e : Environment) (l : Connections) (r : Request) (o : Option CardConnection)
    → find_connection l r.slot ≡ o
    → AllHeld e (l, modify_pin_with r o)
unfolding modify_pin_with
modify-AllHeld e l r none h = (tt, tt)
modify-AllHeld e l r (some c) h = (h, tt)

statuses-AllHeld :
    (e : Environment) (l : Connections) (i : List ReaderInfo) → AllHeld e (l, basic_readers i)
unfolding basic_readers
statuses-AllHeld e l [] = tt
statuses-AllHeld e l (i ∷ infos) =
    let rest : AllHeld e (l, basic_readers infos) = statuses-AllHeld e l infos in
    one-IsHeld e l (not i.basic_reader) (basic_readers infos) (send_status i ∷ basic_readers infos)
      rest (tt, rest)

connect-AllHeld :
    (e : Environment) (l : Connections) (o : JsonObject) → AllHeld e (l, handle_ifd_connect e l o)
unfolding handle_ifd_connect
connect-AllHeld e l o =
    let slot = (parse_connect o).slot in
    one-IsHeld e l (not (e.reader_info slot).connected) _ _ (tt, tt)
      (one-IsHeld e l (not (e.reader_info slot).eid_card) _ _ (tt, tt)
        (one-IsHeld e l (uses_reader l slot) _ _ (tt, tt) (tt, tt)))

abbrev either :
    Bool → Connections × List Effect → Connections × List Effect → Connections × List Effect
either b x y = if b then x else y

either-AllHeld :
    (e : Environment) (b : Bool) (x y : Connections × List Effect)
    → AllHeld e x
    → AllHeld e y
    → AllHeld e (either b x y)
either-AllHeld e true x y p q = p
either-AllHeld e false x y p q = q

disconnect-AllHeld :
    (e : Environment) (l : Connections) (o : JsonObject) → AllHeld e (handle_ifd_disconnect l o)
unfolding handle_ifd_disconnect
disconnect-AllHeld e l o =
    let h = convert_slot_handle_backwards_compatibility l (parse_disconnect o).slot in
    either-AllHeld e (not (is_connected l h))
      (l, send_disconnect_response h Minor.ifdl_invalid_slot_handle ∷ [])
      (remove_connection l h, send_disconnect_response h Minor.null ∷ []) (tt, tt) (tt, tt)

module _ (from_hex : String → Bytes) (to_hex : Bytes → String) where
  -- Whatever message comes in, a command or a signal uses only connections that are held then: a
  -- transmission under its handle, with no channel of the connection left where the command is one of
  -- secure messaging in the PIN pad mode, and PACE and the change of a PIN under the handle asked for.
  pub on_remote_message-IsHeld :
      (e : Environment) (l : Connections) (t : RemoteCardMessageType) (o : JsonObject)
      → All
          (IsHeld e (on_remote_message from_hex to_hex e l t o).0)
          (on_remote_message from_hex to_hex e l t o).1
  unfolding on_remote_message handle_ifd_transmit handle_ifd_establish_pace_channel
      handle_ifd_modify_pin handle_ifd_get_status
  on_remote_message-IsHeld e l ifd_connect o = connect-AllHeld e l o
  on_remote_message-IsHeld e l ifd_disconnect o = disconnect-AllHeld e l o
  on_remote_message-IsHeld e l ifd_transmit o =
      let r = parse_transmit from_hex to_hex o in
      let handle = convert_slot_handle_backwards_compatibility l r.slot in
      transmit-AllHeld e l r.input handle (find_connection l handle) refl
  on_remote_message-IsHeld e l ifd_establish_pace_channel o =
      let r = parse_input from_hex to_hex ifd_establish_pace_channel o in
      let handle = convert_slot_handle_backwards_compatibility l r.slot in
      pace-AllHeld e l r (find_connection l handle) refl
  on_remote_message-IsHeld e l ifd_modify_pin o =
      let r = parse_input from_hex to_hex ifd_modify_pin o in
      one-IsHeld e l (not e.pin_pad_mode) _ (modify_pin_with r (find_connection l r.slot)) (tt, tt)
        (modify-AllHeld e l r (find_connection l r.slot) refl)
  on_remote_message-IsHeld e l ifd_get_status o =
      let slot = (parse_get_status o).slot in
      one-IsHeld e l (not (str_eq slot "")) (send_status (e.reader_info slot) ∷ [])
        (basic_readers e.reader_infos) (tt, tt) (statuses-AllHeld e l e.reader_infos)
  on_remote_message-IsHeld e l ifd_error o = tt
  on_remote_message-IsHeld e l undefined o = tt
  on_remote_message-IsHeld e l ifd_establish_context o = tt
  on_remote_message-IsHeld e l ifd_establish_context_response o = tt
  on_remote_message-IsHeld e l _ o = (tt, tt)
