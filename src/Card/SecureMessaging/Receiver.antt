-- ===== src/Card/SecureMessaging/Receiver.antt =====
-- How a card takes a secured command apart: the counterpart of `encrypt`, which is not part of the
-- program.
use ausweis_app2_omapi.Prelude.{
  ℕ, ◌+◌, ◌*◌, ◌/◌, ◌%◌, ◌<◌, ◌≡◌, if◌then◌else◌, ◌&&◌, ◌==◌, Option, none, some, [], ◌∷◌, ◌++◌,
  Bytes, bytes_eq, length,
}
use ausweis_app2_omapi.Apdu.Command.{CommandApdu, get_ins, get_p1, get_p2, get_cla, get_data}
use ausweis_app2_omapi.Card.SecureMessaging.{
  pad_to_cipher_block_size, unpad_from_cipher_block_size, Crypto, or_nothing,
  get_send_sequence_counter, get_encrypted_iv,
}

-- What a card does to take back what `Crypto` makes: an object is taken from the front of the data.
pub record Decoder : Type 0 where
  pub decrypt_block : Bytes → Bytes → Bytes
  pub take_encrypted_data : Bytes → Option (Bytes × Bytes)
  pub take_protected_le : Bytes → Option (Bytes × Bytes)
  pub take_checksum : Bytes → Option (Bytes × Bytes)

-- The cipher is inverted on whole blocks, and an object is known from the others.
pub record Decodes (crypto : Crypto) (d : Decoder) : Type 0 where
  pub some_block : 0 < crypto.block_size
  pub inverted :
      (iv bs : Bytes)
      → length bs % crypto.block_size ≡ 0
      → d.decrypt_block iv (crypto.encrypt_block iv bs) ≡ bs
  pub encrypted_first :
      (bs rest : Bytes)
      → d.take_encrypted_data (crypto.encode_encrypted_data bs ++ rest) ≡ some (bs, rest)
  pub le_not_encrypted :
      (bs rest : Bytes) → d.take_encrypted_data (crypto.encode_protected_le bs ++ rest) ≡ none
  pub checksum_not_encrypted :
      (bs : Bytes) → d.take_encrypted_data (crypto.encode_checksum bs) ≡ none
  pub le_first :
      (bs rest : Bytes)
      → d.take_protected_le (crypto.encode_protected_le bs ++ rest) ≡ some (bs, rest)
  pub checksum_not_le : (bs : Bytes) → d.take_protected_le (crypto.encode_checksum bs) ≡ none
  pub checksum_first : (bs : Bytes) → d.take_checksum (crypto.encode_checksum bs) ≡ some (bs, [])

-- What a command asks for: the upper half of its class, its instruction and parameters, its data, and
-- the length that it expects.
pub record Plain : Type 0 where
  pub upper_class : ℕ
  pub ins : ℕ
  pub p1 : ℕ
  pub p2 : ℕ
  pub content : Bytes
  pub le : ℕ

abbrev pub coded : (Bytes → Bytes) → Option Bytes → Option Bytes
coded f none = none
coded f (some bs) = some (f bs)

abbrev pub end_parts :
    Option Bytes
    → Option Bytes
    → Option (Bytes × Bytes)
    → Option (Option Bytes × (Option Bytes × Bytes))
end_parts e l (some (mac, [])) = some (e, (l, mac))
end_parts e l _ = none

abbrev pub le_parts :
    Decoder
    → Option Bytes
    → Bytes
    → Option (Bytes × Bytes)
    → Option (Option Bytes × (Option Bytes × Bytes))
le_parts d e whole none = end_parts e none (d.take_checksum whole)
le_parts d e whole (some (l, rest)) = end_parts e (some l) (d.take_checksum rest)

abbrev pub all_parts :
    Decoder → Bytes → Option (Bytes × Bytes) → Option (Option Bytes × (Option Bytes × Bytes))
all_parts d whole none = le_parts d none whole (d.take_protected_le whole)
all_parts d whole (some (e, rest)) = le_parts d (some e) rest (d.take_protected_le rest)

-- The encrypted data and the protected length, each of which may be missing, and the checksum, behind
-- which nothing stands.
abbrev pub parts : Decoder → Bytes → Option (Option Bytes × (Option Bytes × Bytes))
parts d whole = all_parts d whole (d.take_encrypted_data whole)

-- What the MAC is made of, behind the counter.
abbrev pub authenticated : Crypto → Bytes → Option Bytes → Option Bytes → Bytes
authenticated crypto header none none = pad_to_cipher_block_size crypto.block_size header
authenticated crypto header encrypted le = pad_to_cipher_block_size crypto.block_size (
    pad_to_cipher_block_size crypto.block_size header
    ++ (or_nothing (coded crypto.encode_encrypted_data encrypted)
        ++ or_nothing (coded crypto.encode_protected_le le)))

-- The data behind the byte that names the padding.
abbrev pub decrypted : Crypto → Decoder → ℕ → Option Bytes → Option Bytes
decrypted crypto d n none = some []
decrypted crypto d n (some []) = none
decrypted crypto d n (some (padding ∷ bs)) =
    if padding == 1
    then some (
        unpad_from_cipher_block_size crypto.block_size
          (d.decrypt_block (get_encrypted_iv crypto n) bs))
    else none

-- A length of zero stands for the longest of its size.
abbrev pub read_le : Option Bytes → Option ℕ
read_le none = some 0
read_le (some (b ∷ [])) = some (if b == 0 then 256 else b)
read_le (some (hi ∷ lo ∷ [])) = some (if hi * 256 + lo == 0 then 65536 else hi * 256 + lo)
read_le (some _) = none

abbrev pub both : Plain → Option Bytes → Option ℕ → Option Plain
both p (some bs) (some n) = some (record p { content = bs; le = n })
both p _ _ = none

-- What a card makes of the header and the parts, where the class has the mark of secure messaging and
-- the MAC is right.
abbrev pub receive_parts :
    Crypto
    → Decoder
    → (n cla ins p1 p2 : ℕ) → Option (Option Bytes × (Option Bytes × Bytes))
    → Option Plain
receive_parts crypto d n cla ins p1 p2 none = none
receive_parts crypto d n cla ins p1 p2 (some (encrypted, (le, mac))) =
    let right = crypto.generate_mac (
      get_send_sequence_counter crypto n
      ++ authenticated crypto (cla ∷ ins ∷ p1 ∷ p2 ∷ []) encrypted le) in
    let plain : Plain = record {
      upper_class = cla / 16;
      ins = ins;
      p1 = p1;
      p2 = p2;
      content = [];
      le = 0;
    } in
    if cla % 16 == 12 && bytes_eq mac right
    then both plain (decrypted crypto d n encrypted) (read_le le)
    else none

abbrev pub receive : Crypto → Decoder → ℕ → CommandApdu → Option Plain
receive crypto d n c =
    receive_parts crypto d n (get_cla c) (get_ins c) (get_p1 c) (get_p2 c) (parts d (get_data c))
