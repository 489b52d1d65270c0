-- ===== src/Card/SecureMessaging.antt =====
-- src/card/base/pace/SecureMessaging.cpp: how a command is secured. The cipher, the MAC and the ASN.1
-- encodings, which rest on OpenSSL, are a parameter. A null QByteArray is `none`.
pub mod Padding
pub mod Receiver
pub mod Received
use ausweis_app2_omapi.Prelude.{
  ℕ, zero, suc, ◌+◌, ◌-◌, ◌*◌, ◌/◌, ◌%◌, ◌^◌, Bool, true, false, not, if◌then◌else◌, ltb, ◌==◌,
  Option, none, some, List, [], ◌∷◌, ◌++◌, Bytes, length, take, replicate, is_empty,
}
use ausweis_app2_omapi.Apdu.Command.{
  CommandApdu, create, create_with_header, get_cla, get_ins, get_p1, get_p2, get_le, get_data,
  needs_extended_length, no_le, short_max_le, extended_max_le,
}

abbrev pub iso_leading_pad_byte : ℕ
iso_leading_pad_byte = 0x80

abbrev pub padding_size : ℕ → ℕ → ℕ
padding_size block_size n =
    let remainder = n % block_size in if remainder == 0 then block_size else block_size - remainder

-- `padToCipherBlockSize`
unfoldable pub pad_to_cipher_block_size : ℕ → Bytes → Bytes
pad_to_cipher_block_size block_size bs =
    bs ++ (iso_leading_pad_byte ∷ replicate (padding_size block_size (length bs) - 1) 0)

abbrev behind : Bool → Option ℕ → Option ℕ
behind here none = if here then some 0 else none
behind here (some i) = some (suc i)

-- `QByteArray::lastIndexOf`
unfoldable pub last_index_of : ℕ → Bytes → Option ℕ
last_index_of b [] = none
last_index_of b (x ∷ xs) = behind (x == b) (last_index_of b xs)

abbrev pub cut_at : Option ℕ → Bytes → Bytes
cut_at none bs = []
cut_at (some position) bs = take position bs

-- `unpadFromCipherBlockSize`
unfoldable pub unpad_from_cipher_block_size : ℕ → Bytes → Bytes
unfolding last_index_of
unpad_from_cipher_block_size block_size bs =
    if not (length bs % block_size == 0)
    then []
    else cut_at (last_index_of iso_leading_pad_byte bs) bs

-- What OpenSSL does: the block cipher with an initial vector, the MAC, and the DER encodings of
-- SM_ENCRYPTED_DATA, SM_PROTECTED_LE and SM_CHECKSUM.
pub record Crypto : Type 0 where
  pub is_initialized : Bool
  pub block_size : ℕ
  pub encrypt_block : Bytes → Bytes → Bytes
  pub generate_mac : Bytes → Bytes
  pub encode_encrypted_data : Bytes → Bytes
  pub encode_protected_le : Bytes → Bytes
  pub encode_checksum : Bytes → Bytes

-- `getSendSequenceCounter`; the counter is a quint32.
unfoldable pub get_send_sequence_counter : Crypto → ℕ → Bytes
get_send_sequence_counter crypto n =
    replicate (crypto.block_size - 4) 0
    ++ (n / 16777216 % 256 ∷ n / 65536 % 256 ∷ n / 256 % 256 ∷ n % 256 ∷ [])

unfoldable pub get_encrypted_iv : Crypto → ℕ → Bytes
unfolding get_send_sequence_counter
get_encrypted_iv crypto n =
    crypto.encrypt_block (replicate crypto.block_size 0) (get_send_sequence_counter crypto n)

-- `(CLA & 0xF0) | CLA_SECURE_MESSAGING` of a byte.
abbrev pub secured_cla : ℕ → ℕ
secured_cla cla = cla / 16 % 16 * 16 + 12

unfoldable pub create_secured_header : CommandApdu → Bytes
unfolding get_cla get_ins get_p1 get_p2
create_secured_header c = secured_cla (get_cla c) ∷ get_ins c ∷ get_p1 c ∷ get_p2 c ∷ []

unfoldable pub create_secured_le : ℕ → Bytes
create_secured_le le =
    if ltb no_le le
    then (if ltb short_max_le le then le / 256 % 256 ∷ le % 256 ∷ [] else le % 256 ∷ [])
    else []

abbrev pub or_nothing : Option Bytes → Bytes
or_nothing none = []
or_nothing (some bs) = bs

abbrev are_null : Option Bytes → Option Bytes → Bool
are_null none none = true
are_null _ _ = false

unfoldable pub create_mac : Crypto → ℕ → Bytes → Option Bytes → Option Bytes → Bytes
unfolding pad_to_cipher_block_size get_send_sequence_counter
create_mac crypto n header encrypted le =
    let whole =
      pad_to_cipher_block_size crypto.block_size header
      ++ (or_nothing encrypted ++ or_nothing le) in
    let padded =
      if are_null encrypted le then whole else pad_to_cipher_block_size crypto.block_size whole in
    crypto.encode_checksum (crypto.generate_mac (get_send_sequence_counter crypto n ++ padded))

unfoldable pub create_new_le : Bytes → ℕ → ℕ
unfolding needs_extended_length
create_new_le secured old_le =
    if needs_extended_length secured old_le then extended_max_le else short_max_le

-- The data of the command, if there are data.
unfoldable pub formatted_encrypted_data : Crypto → ℕ → Bytes → Option Bytes
unfolding pad_to_cipher_block_size get_encrypted_iv
formatted_encrypted_data crypto n bs =
    let padded = pad_to_cipher_block_size crypto.block_size bs in
    if is_empty bs
    then none
    else some
        (crypto.encode_encrypted_data (1 ∷ crypto.encrypt_block (get_encrypted_iv crypto n) padded))

unfoldable pub secured_le : Crypto → ℕ → Option Bytes
unfolding create_secured_le
secured_le crypto le =
    if ltb no_le le then some (crypto.encode_protected_le (create_secured_le le)) else none

-- The data of the secured command, under the counter `n`.
unfoldable pub secured_data : Crypto → ℕ → CommandApdu → Bytes
unfolding formatted_encrypted_data secured_le create_mac create_secured_header get_data get_le
secured_data crypto n c =
    let encrypted = formatted_encrypted_data crypto n (get_data c) in
    let le = secured_le crypto (get_le c) in
    or_nothing encrypted
    ++ (or_nothing le ++ create_mac crypto n (create_secured_header c) encrypted le)

-- `encrypt`: the command, and the counter behind it.
unfoldable pub encrypt : Crypto → ℕ → CommandApdu → CommandApdu × ℕ
unfolding secured_data create_secured_header create_with_header create_new_le get_le
encrypt crypto counter c =
    let n = (counter + 1) % 2 ^ 32 in
    let secured = secured_data crypto n c in
    if crypto.is_initialized
    then (
      create_with_header (create_secured_header c) secured (create_new_le secured (get_le c)),
      n,
    )
    else (record { buffer = [] }, counter)
