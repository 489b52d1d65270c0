-- ===== src/Card/Connection.antt =====
-- src/card/base/CardConnectionWorker.cpp: what is run on a card. The card and its driver are a machine
-- `exchange` from a state and a command to a state, a return code and a response; the channel of secure
-- messaging (SecureMessaging.cpp) is given by what it does with a command and with a response.
pub mod ReadFile
use ausweis_app2_omapi.Prelude.{
  ℕ, zero, suc, Bool, true, false, not, ◌||◌, ◌==◌, if◌then◌else◌, Option, none, some, List, [],
  ◌∷◌, ◌++◌, Bytes, length, is_empty,
}
use ausweis_app2_omapi.Global.ReturnCode.{CardReturnCode}
use ausweis_app2_omapi.Apdu.Command.{CommandApdu}
use ausweis_app2_omapi.Apdu.Response.{ResponseApdu, get_data, get_return_code}
use ausweis_app2_omapi.Card.Commands.{
  FileRef, select, read_binary, reset_retry_counter, new_mse_builder, mse_build,
}

-- The state of a connection: whether there is a card, whether the reader is a basic one, the channel, and
-- the state of the card.
pub record Worker (Card Channel : Type 0) : Type 0 where
  pub has_card : Bool
  pub basic_reader : Bool
  pub channel : Option Channel
  pub card : Card

abbrev pub Answer : Type 0
Answer = CardReturnCode × ResponseApdu

abbrev pub no_response : ResponseApdu
no_response = record { buffer = [] }

abbrev pub is_ok : CardReturnCode → Bool
is_ok CardReturnCode.ok = true
is_ok _ = false

abbrev pub end_of_file : ℕ
end_of_file = 0x6282

abbrev pub success : ℕ
success = 0x9000

module _ {Card Channel : Type 0} (exchange : Card → CommandApdu → Card × Answer)
    (encrypt : Channel → CommandApdu → Channel × CommandApdu)
    (decrypt : Channel → ResponseApdu → Channel × Option ResponseApdu) where
  abbrev decrypted : CardReturnCode → Option ResponseApdu → Answer
  decrypted code none = (CardReturnCode.command_failed, no_response)
  decrypted code (some r) = (code, r)

  -- A command over a channel.
  unfoldable pub transmit_secured :
      Worker Card Channel → Channel → CommandApdu → Worker Card Channel × Answer
  transmit_secured w c command =
      let secured = encrypt c command in
      let answer = exchange w.card secured.1 in
      let opened = decrypt secured.0 answer.1.1 in
      if is_empty (secured.1).buffer
      then (record w { channel = some secured.0 }, (CardReturnCode.command_failed, no_response))
      else (record w { channel = some opened.0; card = answer.0 }, decrypted answer.1.0 opened.1)

  unfoldable pub transmit : Worker Card Channel → CommandApdu → Worker Card Channel × Answer
  unfolding transmit_secured
  transmit w command =
      let answer = exchange w.card command in
      let sent : Worker Card Channel × Answer = elim w.channel [
        | some c ↦ transmit_secured w c command
        | none ↦ (record w { card = answer.0 }, answer.1)
      ] in
      if not w.has_card then (w, (CardReturnCode.card_not_found, no_response)) else sent

  -- One round of `readFile`, at the content that is read, the rounds that follow, and the answer.
  unfoldable pub read_step :
      (Worker Card Channel → Bytes → Option (Worker Card Channel × (CardReturnCode × Bytes)))
      → Bytes
      → Worker Card Channel × Answer
      → Option (Worker Card Channel × (CardReturnCode × Bytes))
  read_step loop content r =
      let more = content ++ get_data r.1.1 in
      let rest = loop r.0 more in
      if not (is_ok r.1.0)
      then some (r.0, (CardReturnCode.command_failed, content))
      else if get_return_code r.1.1 == end_of_file
      then some (r.0, (CardReturnCode.ok, more))
      else if not (get_return_code r.1.1 == success)
      then some (r.0, (CardReturnCode.command_failed, more))
      else rest

  -- The loop of `readFile` on fuel.
  unfoldable pub read_loop :
      ℕ → Worker Card Channel → Bytes → Option (Worker Card Channel × (CardReturnCode × Bytes))
  unfolding transmit read_step
  read_loop zero w content = none
  read_loop (suc n) w content =
      read_step (read_loop n) content (transmit w (read_binary (length content) 0xff))

  unfoldable pub read_file :
      ℕ
      → Worker Card Channel
      → FileRef
      → Bytes
      → Option (Worker Card Channel × (CardReturnCode × Bytes))
  unfolding transmit read_loop
  read_file n w file content =
      let r = transmit w (select file) in
      let rest = read_loop n r.0 content in
      if not w.has_card
      then some (w, (CardReturnCode.card_not_found, content))
      else if not (is_ok r.1.0) || not (get_return_code r.1.1 == success)
      then some (r.0, (CardReturnCode.command_failed, content))
      else rest

  unfoldable pub stop_secure_messaging : Worker Card Channel → Worker Card Channel × Bool
  stop_secure_messaging w =
      (record w { channel = none }, elim w.channel [ some c ↦ true | none ↦ false ])

  -- The second argument is the driver's `destroyPaceChannel`.
  unfoldable pub destroy_pace_channel :
      (Card → Card × CardReturnCode) → Worker Card Channel → Worker Card Channel × CardReturnCode
  unfolding stop_secure_messaging
  destroy_pace_channel destroy w =
      let stopped = (stop_secure_messaging w).0 in
      let answer = exchange w.card (mse_build (new_mse_builder 0xf4 1)) in
      let destroyed = destroy w.card in
      if not w.has_card
      then (w, CardReturnCode.card_not_found)
      else if w.basic_reader
      then (record stopped { card = answer.0 }, answer.1.0)
      else (record w { card = destroyed.0 }, destroyed.1)

  -- The second argument is the driver's `setEidPin`, with the timeout in seconds.
  unfoldable pub set_eid_pin :
      (Card → ℕ → Card × Answer)
      → Worker Card Channel
      → Option Bytes
      → ℕ
      → Worker Card Channel × Answer
  unfolding transmit
  set_eid_pin set_pin w new_pin timeout =
      let r = transmit w (reset_retry_counter new_pin) in
      let by_reader = set_pin w.card timeout in
      let code =
        if not (is_ok r.1.0) || not (get_return_code r.1.1 == success)
        then CardReturnCode.command_failed
        else CardReturnCode.ok in
      if not w.has_card
      then (w, (CardReturnCode.card_not_found, no_response))
      else if w.basic_reader
      then (r.0, (code, r.1.1))
      else (record w { card = by_reader.0 }, by_reader.1)
