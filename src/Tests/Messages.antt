-- ===== src/Tests/Messages.antt =====
-- Bluetooth messages and secured commands: src/card.
use ausweis_app2_omapi.Prelude.{
  ◌≡◌, [], ◌∷◌, ◌++◌, Bytes, length, All, arith, true, take, ℕ, drop, Option, some, none,
  if◌then◌else◌, ◌==◌,
}
use ausweis_app2_omapi.Apdu.Command.{CommandApdu}
use ausweis_app2_omapi.Card.SecureMessaging.Receiver.{Decoder}
use ausweis_app2_omapi.Card.Bluetooth.{Parameter, Message, parse_messages, parse_loop}
use ausweis_app2_omapi.Card.Bluetooth.RoundTrip.{
  IsMessage, messages_to_data, parse_messages-messages_to_data,
}
use ausweis_app2_omapi.Card.Bluetooth.Fuel.{parse_loop_ends}
use ausweis_app2_omapi.Card.SecureMessaging.{
  Crypto, pad_to_cipher_block_size, unpad_from_cipher_block_size,
}
use ausweis_app2_omapi.Card.SecureMessaging.Padding.{unpad-pad_to_cipher_block_size}

abbrev result_code : Parameter
result_code = record { parameter_id = 2; value = 0 ∷ [] }

abbrev response_apdu : Parameter
response_apdu = record { parameter_id = 5; value = 0x6a ∷ 0x80 ∷ 0x90 ∷ 0 ∷ 1 ∷ [] }

abbrev apdu_response : Message
apdu_response = record { msg_id = 6; parameters = result_code ∷ response_apdu ∷ [] }

abbrev disconnected : Message
disconnected = record { msg_id = 3; parameters = [] }

two_messages-IsMessage : All IsMessage (apdu_response ∷ disconnected ∷ [])
two_messages-IsMessage = omega arith

parse_messages-messages_to_data_example :
    parse_messages (messages_to_data (apdu_response ∷ disconnected ∷ []) ++ 6 ∷ 1 ∷ [])
    ≡ (apdu_response ∷ disconnected ∷ [], 6 ∷ 1 ∷ [])
parse_messages-messages_to_data_example =
    parse_messages-messages_to_data (apdu_response ∷ disconnected ∷ []) (6 ∷ 1 ∷ [])
      two_messages-IsMessage (omega arith)

abbrev short_input : Bytes
short_input = 3 ∷ 0 ∷ 0 ∷ 0 ∷ 7 ∷ []

parse_loop_ends_example : parse_loop 9 short_input ≡ parse_messages short_input
parse_loop_ends_example = parse_loop_ends 9 short_input (omega arith)

unpad-pad_to_cipher_block_size_example :
    unpad_from_cipher_block_size 16 (pad_to_cipher_block_size 16 short_input) ≡ short_input
unpad-pad_to_cipher_block_size_example = unpad-pad_to_cipher_block_size 16 short_input (omega arith)

-- A block "cipher" and a "MAC" that are not secret at all.
abbrev plain_crypto : Crypto
plain_crypto = record {
  is_initialized = true;
  block_size = 16;
  encrypt_block = λ iv bs. bs;
  generate_mac = λ bs. take 8 bs;
  encode_encrypted_data = λ bs. 0x87 ∷ length bs ∷ bs;
  encode_protected_le = λ bs. 0x97 ∷ length bs ∷ bs;
  encode_checksum = λ bs. 0x8e ∷ length bs ∷ bs;
}

abbrev select : CommandApdu
select = record { buffer = 0 ∷ 0xa4 ∷ 4 ∷ 12 ∷ 2 ∷ 0x3f ∷ 0 ∷ [] }

abbrev take_object : ℕ → Bytes → Option (Bytes × Bytes)
take_object tag (t ∷ n ∷ rest) = if t == tag then some (take n rest, drop n rest) else none
take_object tag _ = none

abbrev plain_decoder : Decoder
plain_decoder = record {
  decrypt_block = λ iv bs. bs;
  take_encrypted_data = take_object 0x87;
  take_protected_le = take_object 0x97;
  take_checksum = take_object 0x8e;
}

abbrev cut : Bytes → Bytes → Bytes × Bytes
cut bs whole = (take (length bs) whole, drop (length bs) whole)
