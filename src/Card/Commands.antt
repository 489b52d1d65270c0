-- ===== src/Card/Commands.antt =====
-- src/card/base/Commands.cpp, EstablishPaceChannel.cpp and PinModify.cpp: the commands to a card and to
-- a reader. `encode` stands for `Asn1Util::encode`, which is OpenSSL's; a QByteArray that may be null is
-- an option.
pub mod Bounds
use ausweis_app2_omapi.Prelude.{
  ℕ, ◌+◌, ◌/◌, ◌%◌, Bool, true, false, if◌then◌else◌, ltb, Option, none, some, List, [], ◌∷◌, ◌++◌,
  Bytes, length, high_byte, low_byte,
}
use ausweis_app2_omapi.Apdu.Command.{CommandApdu, create}
use ausweis_app2_omapi.Card.PasswordId.{PacePasswordId, password_id_value}

pub record FileRef : Type 0 where
  pub file_type : ℕ
  pub path : Bytes

abbrev pub ef_card_access : FileRef
ef_card_access = record { file_type = 2; path = 0x01 ∷ 0x1c ∷ [] }

unfoldable pub select : FileRef → CommandApdu
unfolding create
select f = create 0 0xa4 f.file_type 0x0c f.path 0

unfoldable pub get_challenge : CommandApdu
unfolding create
get_challenge = create 0 0x84 0 0 [] 8

unfoldable pub read_binary : ℕ → ℕ → CommandApdu
unfolding create
read_binary offset le = create 0 0xb0 (high_byte offset) (low_byte offset) [] le

unfoldable pub reset_retry_counter : Option Bytes → CommandApdu
unfolding create
reset_retry_counter none = create 0 0x2c 3 3 [] 0
reset_retry_counter (some pin) = create 0 0x2c 2 3 pin 0

unfoldable pub pso : ℕ → ℕ → Bytes → Bytes → CommandApdu
unfolding create
pso p1 p2 body signature = create 0 0x2a p1 p2 (body ++ signature) 0

unfoldable pub external_authenticate : Bytes → CommandApdu
unfolding create
external_authenticate signature = create 0 0x82 0 0 signature 0

-- `MSEBuilder`: the fields that were set, encoded; the others are empty.
pub record MseBuilder : Type 0 where
  pub p1 : ℕ
  pub p2 : ℕ
  pub auxiliary_data : Bytes
  pub oid : Bytes
  pub public_key : Bytes
  pub private_key : Bytes
  pub ephemeral_public_key : Bytes
  pub chat : Bytes

unfoldable pub new_mse_builder : ℕ → ℕ → MseBuilder
new_mse_builder p1 p2 = record {
  p1 = p1;
  p2 = p2;
  auxiliary_data = [];
  oid = [];
  public_key = [];
  private_key = [];
  ephemeral_public_key = [];
  chat = [];
}

unfoldable pub mse_build : MseBuilder → CommandApdu
unfolding create
mse_build b =
    create 0 0x22 b.p1 b.p2
      (b.oid ++ b.public_key ++ b.private_key ++ b.auxiliary_data ++ b.ephemeral_public_key
        ++ b.chat)
      0

module _ (encode : ℕ → Bytes → Bytes) where
  unfoldable pub set_oid : Bytes → MseBuilder → MseBuilder
  set_oid bs b = record b { oid = encode 0x80 bs }

  unfoldable pub set_public_key : Bytes → MseBuilder → MseBuilder
  set_public_key bs b = record b { public_key = encode 0x83 bs }

  unfoldable pub set_password : PacePasswordId → MseBuilder → MseBuilder
  unfolding password_id_value
  set_password p b = record b { public_key = encode 0x83 (password_id_value p ∷ []) }

  unfoldable pub set_private_key : Bytes → MseBuilder → MseBuilder
  set_private_key bs b = record b { private_key = encode 0x84 bs }

  unfoldable pub set_ephemeral_public_key : Bytes → MseBuilder → MseBuilder
  set_ephemeral_public_key bs b = record b { ephemeral_public_key = encode 0x91 bs }

  -- `GABuilder::build` at the four fields, each of which may be null.
  unfoldable pub general_authenticate :
      ℕ → Option Bytes → Option Bytes → Option Bytes → Option Bytes → CommandApdu
  unfolding create
  general_authenticate class_byte (some k) m e t = create class_byte 0x86 0 0 (encode 0x7c k) 0x100
  general_authenticate class_byte none (some m) e t =
      create class_byte 0x86 0 0 (encode 0x7c m) 0x100
  general_authenticate class_byte none none (some e) t =
      create class_byte 0x86 0 0 (encode 0x7c e) 0x100
  general_authenticate class_byte none none none (some t) =
      create class_byte 0x86 0 0 (encode 0x7c t) 0x100
  general_authenticate class_byte none none none none =
      create class_byte 0x86 0 0 (encode 0x7c []) 0x100

-- `EstablishPaceChannel::createCommandData`: empty where a part is too long. The part behind the index
-- and its length, and the whole.
unfoldable pub pace_input_data : PacePasswordId → Bytes → Bytes → Bytes
unfolding password_id_value
pace_input_data password chat description =
    password_id_value password
    ∷ low_byte (length chat)
    ∷ (chat ++ 0 ∷ low_byte (length description) ∷ high_byte (length description) ∷ description)

unfoldable pub create_command_data : PacePasswordId → Bytes → Bytes → Bytes
unfolding pace_input_data
create_command_data password chat description =
    let input = pace_input_data password chat description in
    if ltb 0xff (length chat)
    then []
    else if ltb 0xffff (length description)
    then []
    else if ltb 0xffff (length input)
    then []
    else 2 ∷ low_byte (length input) ∷ high_byte (length input) ∷ input

pub data ProtocolType : Type 0 where
  pcsc bluetooth : ProtocolType

-- `PinModify`: the timeout in seconds, and the structure for the reader.
unfoldable pub parse_timeout : Bytes → ℕ
parse_timeout [] = 0
parse_timeout (b ∷ bs) = b

abbrev reset_command : Bytes
reset_command = 0x00 ∷ 0x2c ∷ 0x02 ∷ 0x03 ∷ []

abbrev pin_structure : Bytes
pin_structure = 0x82 ∷ 0 ∷ 0 ∷ 0 ∷ 0 ∷ 6 ∷ 6 ∷ 1 ∷ 2 ∷ 2 ∷ 7 ∷ 4 ∷ 0 ∷ 1 ∷ 2 ∷ 0 ∷ 0 ∷ 0 ∷ []

unfoldable pub create_pin_modification_data_structure : ProtocolType → ℕ → Bytes
create_pin_modification_data_structure pcsc timeout =
    timeout ∷ timeout ∷ (pin_structure ++ 4 ∷ 0 ∷ 0 ∷ 0 ∷ reset_command)
create_pin_modification_data_structure bluetooth timeout =
    timeout ∷ (pin_structure ++ reset_command)

unfoldable pub create_ccid_for_pcsc : ℕ → Bytes
unfolding create_pin_modification_data_structure
create_ccid_for_pcsc timeout = create_pin_modification_data_structure pcsc timeout

unfoldable pub create_ccid_for_remote : ℕ → Bytes
unfolding create_ccid_for_pcsc
create_ccid_for_remote timeout = create_ccid_for_pcsc timeout

unfoldable pub create_ccid_for_bluetooth : ℕ → CommandApdu
unfolding create create_pin_modification_data_structure
create_ccid_for_bluetooth timeout =
    create 0xff 0x9a 0x04 0x10 (1 ∷ create_pin_modification_data_structure bluetooth timeout) 0
