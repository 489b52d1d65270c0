-- ===== src/Card/Bluetooth/RoundTrip.antt =====
-- The parser of messages reads back what `to_data` writes.
use ausweis_app2_omapi.Prelude.{
  ℕ, zero, suc, ◌+◌, ◌≤◌, ◌<◌, ◌≡◌, refl, sym, ap, ◌∙◌, false, if◌then◌else◌, ltb, Option, none,
  some, List, [], ◌∷◌, ◌++◌, append_assoc, Bytes, length, length-append, take, drop, take-append,
  drop-append, replicate, length-replicate, high_byte, low_byte, big_endian, big_endian-high_byte,
  All, arith,
}
use ausweis_app2_omapi.Card.Bluetooth.{
  Parameter, Message, get_padding_length, add_padding, parameter_to_data, parameters_to_data,
  to_data, add_parameter, parse_parameter, loop_count, prepend, parse_next, parse_loop,
  parse_messages,
}
use ausweis_app2_omapi.Card.Bluetooth.Order.{IsAscending, add_all, add_all-ascending}

parameter_bytes :
    (p : Parameter) (rest : Bytes)
    → length p.value ≤ 65535
    → parameter_to_data p ++ rest
      ≡ p.parameter_id
        ∷ 0
        ∷ high_byte (length p.value)
        ∷ low_byte (length p.value)
        ∷ ((p.value ++ replicate (get_padding_length (length p.value)) 0) ++ rest)
unfolding parameter_to_data add_padding
parameter_bytes p rest h = ground arith

-- What the parser does with a header that announces `size` bytes.
abbrev parsed : ℕ → Message → ℕ → Bytes → ℕ → Option (Message × Bytes)
parsed n m id input size =
    let padded = size + get_padding_length size in
    let p : Parameter = record { parameter_id = id; value = take size input } in
    if ltb (length input) padded
    then none
    else parse_parameter n (add_parameter p m) (drop padded input)

parsed_there :
    (n : ℕ) (m : Message) (p : Parameter) (pad rest : Bytes)
    → length pad ≡ get_padding_length (length p.value)
    → parsed n m p.parameter_id ((p.value ++ pad) ++ rest) (length p.value)
      ≡ parse_parameter n (add_parameter p m) rest
parsed_there n m p pad rest e =
    let input = (p.value ++ pad) ++ rest in
    let size = length p.value in
    let padded : length (p.value ++ pad) ≡ size + get_padding_length size =
      length-append p.value pad ∙ ap (λ k. size + k) e in
    let enough : ltb (length input) (size + get_padding_length size) ≡ false =
      ground (arith, length-append (p.value ++ pad) rest, padded) in
    let found : take size input ≡ p.value =
      ap (take size) (append_assoc p.value pad rest) ∙ take-append p.value (pad ++ rest) in
    let left : drop (size + get_padding_length size) input ≡ rest =
      ap (λ k. drop k input) (sym padded) ∙ drop-append (p.value ++ pad) rest in
    let taken : ℕ → Bytes → Bytes → Option (Message × Bytes) = λ k v r.
      parse_parameter n (add_parameter (record { parameter_id = p.parameter_id; value = v }) m) r in
    ap
      (λ b.
        if b then none else taken 0 (take size input) (drop (size + get_padding_length size) input))
      enough
    ∙ ap (λ v. taken 0 v (drop (size + get_padding_length size) input)) found
    ∙ ap (taken 0 p.value) left

parse_parameter-append :
    (n : ℕ) (m : Message) (p : Parameter) (rest : Bytes)
    → length p.value ≤ 65535
    → parse_parameter (suc n) m (parameter_to_data p ++ rest)
      ≡ parse_parameter n (add_parameter p m) rest
parse_parameter-append n m p rest h =
    let size = length p.value in
    let pad : Bytes = replicate (get_padding_length size) 0 in
    let padding : length pad ≡ get_padding_length size =
      length-replicate (get_padding_length size) 0 in
    let announced : big_endian (high_byte size) (low_byte size) ≡ size =
      big_endian-high_byte size (omega arith) in
    ap (parse_parameter (suc n) m) (parameter_bytes p rest h)
    ∙ unfold parse_parameter in
      ap (parsed n m p.parameter_id ((p.value ++ pad) ++ rest)) announced
      ∙ parsed_there n m p pad rest padding

parse_parameters-append :
    (l : List Parameter) (m : Message) (rest : Bytes)
    → All (λ p. length p.value ≤ 65535) l
    → parse_parameter (length l) m (parameters_to_data l ++ rest) ≡ some (add_all l m, rest)
unfolding parameters_to_data
parse_parameters-append [] m rest h = unfold parse_parameter in refl
parse_parameters-append (p ∷ l) m rest h =
    ap (parse_parameter (suc (length l)) m)
      (append_assoc (parameter_to_data p) (parameters_to_data l) rest)
    ∙ parse_parameter-append (length l) m p (parameters_to_data l ++ rest) h.0
    ∙ parse_parameters-append l (add_parameter p m) rest h.1

abbrev pub IsMessage : Message → Type 0
IsMessage m =
    (length m.parameters ≤ 127)
    × All (λ p. length p.value ≤ 65535) m.parameters
    × IsAscending m.parameters

abbrev pub messages_to_data : List Message → Bytes
messages_to_data [] = []
messages_to_data (m ∷ ms) = to_data m ++ messages_to_data ms

data_bytes :
    (m : Message) (rest : Bytes)
    → length m.parameters ≤ 127
    → to_data m ++ rest
      ≡ m.msg_id ∷ length m.parameters ∷ 0 ∷ 0 ∷ (parameters_to_data m.parameters ++ rest)
unfolding to_data
data_bytes m rest h = ground arith

loop_message :
    (fuel : ℕ) (m : Message) (rest : Bytes)
    → IsMessage m
    → parse_loop (suc fuel) (to_data m ++ rest) ≡ prepend m (parse_loop fuel rest)
loop_message fuel m rest h =
    let n = length m.parameters in
    let empty : Message = record { msg_id = m.msg_id; parameters = [] } in
    let whole = m.msg_id ∷ n ∷ 0 ∷ 0 ∷ (parameters_to_data m.parameters ++ rest) in
    let count : loop_count n ≡ n = ground (arith, h.0) in
    let added : add_all m.parameters empty ≡ m = add_all-ascending m.msg_id m.parameters h.2 in
    ap (parse_loop (suc fuel)) (data_bytes m rest h.0)
    ∙ unfold parse_loop in
      ap
        (λ k.
          parse_next whole (parse_loop fuel)
            (parse_parameter k empty (parameters_to_data m.parameters ++ rest)))
        count
      ∙ ap (parse_next whole (parse_loop fuel))
          (parse_parameters-append m.parameters empty rest h.1)
      ∙ ap (λ x. prepend x (parse_loop fuel rest)) added

loop_short : (fuel : ℕ) (rest : Bytes) → length rest < 4 → parse_loop fuel rest ≡ ([], rest)
unfolding parse_loop
loop_short zero rest h = refl
loop_short (suc fuel) [] h = refl
loop_short (suc fuel) (a ∷ []) h = refl
loop_short (suc fuel) (a ∷ b ∷ []) h = refl
loop_short (suc fuel) (a ∷ b ∷ c ∷ []) h = refl
loop_short (suc fuel) (a ∷ b ∷ c ∷ d ∷ rest) h = absurd (omega arith)

data_length :
    (m : Message) (rest : Bytes)
    → length m.parameters ≤ 127
    → length rest < length (to_data m ++ rest)
data_length m rest h =
    let counted : length (to_data m ++ rest)
        ≡ suc (suc (suc (suc (length (parameters_to_data m.parameters ++ rest))))) =
      ap length (data_bytes m rest h) in
    omega (arith, counted, length-append (parameters_to_data m.parameters) rest)

loop_back :
    (fuel : ℕ) (ms : List Message) (rest : Bytes)
    → All IsMessage ms
    → length rest < 4
    → length (messages_to_data ms ++ rest) ≤ fuel
    → parse_loop fuel (messages_to_data ms ++ rest) ≡ (ms, rest)
loop_back fuel [] rest all short enough = loop_short fuel rest short
loop_back zero (m ∷ ms) rest all short enough =
    let behind = messages_to_data ms ++ rest in
    let moved = append_assoc (to_data m) (messages_to_data ms) rest in
    let more : length behind < length (to_data m ++ behind) = data_length m behind all.0.0 in
    let total : length ((to_data m ++ messages_to_data ms) ++ rest) ≡ length (to_data m ++ behind) =
      ap length moved in
    absurd (omega arith)
loop_back (suc fuel) (m ∷ ms) rest all short enough =
    let behind = messages_to_data ms ++ rest in
    let moved = append_assoc (to_data m) (messages_to_data ms) rest in
    let more : length behind < length (to_data m ++ behind) = data_length m behind all.0.0 in
    let total : length ((to_data m ++ messages_to_data ms) ++ rest) ≡ length (to_data m ++ behind) =
      ap length moved in
    ap (parse_loop (suc fuel)) moved
    ∙ loop_message fuel m behind all.0
    ∙ ap (prepend m) (loop_back fuel ms rest all.1 short (omega arith))

-- The parser reads back any sequence of messages, and leaves what stands behind them if that is shorter
-- than a header: for messages with at most 127 parameters, whose keys ascend, and whose values fit 16
-- bits of length.
pub parse_messages-messages_to_data :
    (ms : List Message) (rest : Bytes)
    → All IsMessage ms
    → length rest < 4
    → parse_messages (messages_to_data ms ++ rest) ≡ (ms, rest)
unfolding parse_messages
parse_messages-messages_to_data ms rest all short =
    loop_back (length (messages_to_data ms ++ rest)) ms rest all short (omega arith)
