-- ===== src/Card/SecureMessaging/Received.antt =====
-- A card gets from a secured command what the plain one asks for.
use ausweis_app2_omapi.Prelude.{ℕ, if◌then◌else◌, ltb, Option, none, some, [], ◌∷◌, ◌++◌, Bytes}
use ausweis_app2_omapi.Card.SecureMessaging.{
  pad_to_cipher_block_size, Crypto, create_secured_le, create_mac, or_nothing,
  get_send_sequence_counter, get_encrypted_iv,
}
use ausweis_app2_omapi.Card.SecureMessaging.Receiver.{coded, authenticated}

-- The objects of a command, before they are encoded.
abbrev content_object : Crypto → ℕ → Bytes → Option Bytes
content_object crypto n [] = none
content_object crypto n (b ∷ bs) = some (
    1
    ∷ crypto.encrypt_block (get_encrypted_iv crypto n)
        (pad_to_cipher_block_size crypto.block_size (b ∷ bs)))

abbrev le_object : ℕ → Option Bytes
le_object le = if ltb 0 le then some (create_secured_le le) else none

-- The data of a secured command, as its objects and the checksum of the header and these.
abbrev sealed : Crypto → ℕ → Bytes → Option Bytes → Option Bytes → Bytes
sealed crypto n header e l =
    or_nothing (coded crypto.encode_encrypted_data e)
    ++ (or_nothing (coded crypto.encode_protected_le l)
        ++ crypto.encode_checksum (
            crypto.generate_mac
              (get_send_sequence_counter crypto n ++ authenticated crypto header e l)))

abbrev sealed_by : Crypto → ℕ → Bytes → Option Bytes → Option Bytes → Bytes
sealed_by crypto n header e l = or_nothing e ++ (or_nothing l ++ create_mac crypto n header e l)
