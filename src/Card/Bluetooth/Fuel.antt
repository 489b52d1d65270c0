-- ===== src/Card/Bluetooth/Fuel.antt =====
-- The loop of the parser of messages ends.
use ausweis_app2_omapi.Prelude.{
  ℕ, zero, suc, ◌+◌, ◌≤◌, ◌≡◌, refl, ap, Bool, true, false, if◌then◌else◌, ltb, Option, none, some,
  List, [], ◌∷◌, Bytes, length, length-drop, take, drop, big_endian, arith,
}
use ausweis_app2_omapi.Card.Bluetooth.{
  Parameter, Message, get_padding_length, add_parameter, parse_parameter, loop_count, prepend,
  parse_next, parse_loop, parse_messages,
}

abbrev Within : ℕ → Option (Message × Bytes) → Type 0
Within n none = Unit
Within n (some (m, remaining)) = length remaining ≤ n

Within-if :
    (n : ℕ) (b : Bool) (o : Option (Message × Bytes))
    → Within n o
    → Within n (if b then none else o)
Within-if n true o h = tt
Within-if n false o h = h

Within-less : (k n : ℕ) (o : Option (Message × Bytes)) → k ≤ n → Within k o → Within n o
Within-less k n none h w = tt
Within-less k n (some (m, remaining)) h w = omega arith

parse_parameter-Within :
    (n : ℕ) (m : Message) (input : Bytes) → Within (length input) (parse_parameter n m input)
unfolding parse_parameter
parse_parameter-Within zero m input = omega arith
parse_parameter-Within (suc n) m [] = tt
parse_parameter-Within (suc n) m (a ∷ []) = tt
parse_parameter-Within (suc n) m (a ∷ b ∷ []) = tt
parse_parameter-Within (suc n) m (a ∷ b ∷ c ∷ []) = tt
parse_parameter-Within (suc n) m (id ∷ reserved ∷ high ∷ low ∷ input) =
    let size = big_endian high low in
    let padded = size + get_padding_length size in
    let p : Parameter = record { parameter_id = id; value = take size input } in
    Within-if (length (id ∷ reserved ∷ high ∷ low ∷ input)) (ltb (length input) padded) _ (
      Within-less (length (drop padded input)) (length (id ∷ reserved ∷ high ∷ low ∷ input)) _
        (omega (arith, length-drop padded input))
        (parse_parameter-Within n (add_parameter p m) (drop padded input)))

parse_next_same :
    (whole : Bytes) (n : ℕ) (f g : Bytes → List Message × Bytes) (o : Option (Message × Bytes))
    → Within n o
    → ((r : Bytes) → length r ≤ n → f r ≡ g r)
    → parse_next whole f o ≡ parse_next whole g o
parse_next_same whole n f g none w same = refl
parse_next_same whole n f g (some (m, remaining)) w same = ap (prepend m) (same remaining w)

fuel_same :
    (f g : ℕ) (input : Bytes)
    → length input ≤ f
    → length input ≤ g
    → parse_loop f input ≡ parse_loop g input
unfolding parse_loop
fuel_same zero zero input h k = refl
fuel_same zero (suc g) [] h k = refl
fuel_same zero (suc g) (a ∷ input) h k = absurd (omega arith)
fuel_same (suc f) zero [] h k = refl
fuel_same (suc f) zero (a ∷ input) h k = absurd (omega arith)
fuel_same (suc f) (suc g) [] h k = refl
fuel_same (suc f) (suc g) (a ∷ []) h k = refl
fuel_same (suc f) (suc g) (a ∷ b ∷ []) h k = refl
fuel_same (suc f) (suc g) (a ∷ b ∷ c ∷ []) h k = refl
fuel_same (suc f) (suc g) (a ∷ b ∷ c ∷ d ∷ input) h k =
    parse_next_same (a ∷ b ∷ c ∷ d ∷ input) (length input) (parse_loop f) (parse_loop g) _
      (parse_parameter-Within (loop_count b) _ input)
      (λ r e. fuel_same f g r (omega arith) (omega arith))

-- The loop of the parser ends: more runs than the input has bytes change nothing.
pub parse_loop_ends :
    (fuel : ℕ) (input : Bytes) → length input ≤ fuel → parse_loop fuel input ≡ parse_messages input
unfolding parse_messages
parse_loop_ends fuel input h = fuel_same fuel (length input) input h (omega arith)
