-- ===== src/Card/Bluetooth.antt =====
-- src/card/bluetooth/messages: the messages of the SIM access protocol between the program and a card
-- reader. A `char` is its bit pattern; the codes of messages and parameters are kept as such. The classes
-- that `createMessage` and `createMessageParameter` choose differ in how they show their content only.
pub mod Order
pub mod Fuel
pub mod RoundTrip
use ausweis_app2_omapi.Prelude.{
  ℕ, zero, suc, ◌+◌, ◌-◌, ◌%◌, Bool, if◌then◌else◌, ltb, ◌==◌, Option, none, some, List, [], ◌∷◌,
  ◌++◌, Bytes, length, take, drop, replicate, high_byte, low_byte, big_endian,
}

pub record Parameter : Type 0 where
  pub parameter_id : ℕ
  pub value : Bytes

pub record Message : Type 0 where
  pub msg_id : ℕ
  pub parameters : List Parameter

-- The values of a QMap in the order of its keys, which are signed.
abbrev pub signed_key : Parameter → ℕ
signed_key p = (p.parameter_id + 128) % 256

-- `insertMulti`: of equal keys, the newest value comes first.
unfoldable pub insert_multi : Parameter → List Parameter → List Parameter
insert_multi p [] = p ∷ []
insert_multi p (q ∷ l) =
    if ltb (signed_key q) (signed_key p) then q ∷ insert_multi p l else p ∷ q ∷ l

unfoldable pub add_parameter : Parameter → Message → Message
unfolding insert_multi
add_parameter p m = record m { parameters = insert_multi p m.parameters }

-- `BluetoothUtils::getPaddingLength` with a padding to multiples of four.
unfoldable pub get_padding_length : ℕ → ℕ
get_padding_length n = let needs = 4 - n % 4 in if needs == 4 then 0 else needs

unfoldable pub add_padding : Bytes → Bytes → Bytes
unfolding get_padding_length
add_padding bs content =
    if ltb 65535 (length content)
    then bs
    else bs ++ replicate (get_padding_length (length content)) 0

-- `BluetoothMessageParameter::toData`
unfoldable pub parameter_to_data : Parameter → Bytes
unfolding add_padding
parameter_to_data p =
    let size = length p.value in
    if ltb 65535 size
    then []
    else add_padding (p.parameter_id ∷ 0 ∷ high_byte size ∷ low_byte size ∷ p.value) p.value

unfoldable pub parameters_to_data : List Parameter → Bytes
unfolding parameter_to_data
parameters_to_data [] = []
parameters_to_data (p ∷ l) = parameter_to_data p ++ parameters_to_data l

-- `BluetoothMessage::toData`; `CHAR_MAX` is 127.
unfoldable pub to_data : Message → Bytes
unfolding parameters_to_data
to_data m =
    let size = length m.parameters in
    if ltb 127 size then [] else m.msg_id ∷ size ∷ 0 ∷ 0 ∷ parameters_to_data m.parameters

-- `parseParameter` behind the header of the message: the message with `n` more parameters, and the data
-- that remain.
unfoldable pub parse_parameter : ℕ → Message → Bytes → Option (Message × Bytes)
unfolding add_parameter get_padding_length
parse_parameter zero m input = some (m, input)
parse_parameter (suc n) m (id ∷ reserved ∷ high ∷ low ∷ input) =
    let size = big_endian high low in
    let padded = size + get_padding_length size in
    let p : Parameter = record { parameter_id = id; value = take size input } in
    if ltb (length input) padded
    then none
    else parse_parameter n (add_parameter p m) (drop padded input)
parse_parameter (suc n) m _ = none

-- A `char` above 127 is negative, and the loop over the parameters does not run.
abbrev pub loop_count : ℕ → ℕ
loop_count count = if ltb count 128 then count else 0

abbrev pub prepend : Message → List Message × Bytes → List Message × Bytes
prepend m (messages, remaining) = (m ∷ messages, remaining)

abbrev pub parse_next :
    Bytes → (Bytes → List Message × Bytes) → Option (Message × Bytes) → List Message × Bytes
parse_next whole next none = ([], whole)
parse_next whole next (some (m, remaining)) = prepend m (next remaining)

-- The loop of `parse`, with `fuel` for its runs: the messages, and the bytes that remain.
unfoldable pub parse_loop : ℕ → Bytes → List Message × Bytes
unfolding parse_parameter
parse_loop zero input = ([], input)
parse_loop (suc fuel) (id ∷ count ∷ a ∷ b ∷ input) =
    parse_next (id ∷ count ∷ a ∷ b ∷ input) (parse_loop fuel)
      (parse_parameter (loop_count count) (record { msg_id = id; parameters = [] }) input)
parse_loop (suc fuel) input = ([], input)

-- `BluetoothMessageParser`: a run takes at least the four bytes of a header.
unfoldable pub parse_messages : Bytes → List Message × Bytes
unfolding parse_loop
parse_messages input = parse_loop (length input) input
