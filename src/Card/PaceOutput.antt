-- ===== src/Card/PaceOutput.antt =====
-- src/card/base/EstablishPaceChannelOutput.cpp: the answer of a reader that runs PACE itself, in the
-- layout of PC/SC part 10. The ASN.1 layout (`toCcid`, `parseFromCcid`) rests on OpenSSL's templates and
-- is not modelled.
pub mod Codes
pub mod Layout
use ausweis_app2_omapi.Prelude.{
  ℕ, ◌+◌, ◌*◌, ◌/◌, ◌%◌, Bool, if◌then◌else◌, ltb, leb, ◌==◌, ◌||◌, Option, none, some, List, [],
  ◌∷◌, Bytes, length, get_or, mid, ◌>>=◌,
}
use ausweis_app2_omapi.Global.ReturnCode.{CardReturnCode}
use ausweis_app2_omapi.Card.PasswordId.{PacePasswordId}
use Codes.{parse_return_code}

pub record EstablishPaceChannelOutput : Type 0 where
  pub pace_return_code : CardReturnCode
  pub ef_card_access : Bytes
  pub car_curr : Bytes
  pub car_prev : Bytes
  pub id_icc : Bytes
  pub status_mse_set_at : Bytes

unfoldable pub new_output : EstablishPaceChannelOutput
new_output = record {
  pace_return_code = CardReturnCode.unknown;
  ef_card_access = [];
  car_curr = [];
  car_prev = [];
  id_icc = [];
  status_mse_set_at = [];
}

-- `none` stands for a read outside the array: undefined behaviour. The byte behind the last one may be
-- read, since a QByteArray ends in a zero that its size does not count.
unfoldable pub read_byte : Bytes → ℕ → Option ℕ
read_byte input i = if leb i (length input) then some (get_or input i 0) else none

-- `qFromLittleEndian<quint16>`
unfoldable pub read_u16 : Bytes → ℕ → Option ℕ
unfolding read_byte
read_u16 input i = do lo ← read_byte input i; hi ← read_byte input (i + 1); some (lo + 256 * hi)

-- `qFromLittleEndian<quint32>`
unfoldable pub read_u32 : Bytes → ℕ → Option ℕ
unfolding read_u16
read_u32 input i = do lo ← read_u16 input i; hi ← read_u16 input (i + 2); some (lo + 65536 * hi)

abbrev chunk : Bytes → ℕ → ℕ → Bytes × ℕ
chunk input offset size = (mid input offset size, offset + size)

-- `readByteArray<quint8>` and `readByteArray<quint16>`: the bytes, and the new offset.
unfoldable pub read_byte_array8 : Bytes → ℕ → Option (Bytes × ℕ)
unfolding read_byte
read_byte_array8 input offset = do
  size ← read_byte input offset
  some (chunk input (offset + 1) (size % 256))

unfoldable pub read_byte_array16 : Bytes → ℕ → Option (Bytes × ℕ)
unfolding read_u16
read_byte_array16 input offset = do
  size ← read_u16 input offset
  some (chunk input (offset + 2) size)

unfoldable pub parse_references :
    EstablishPaceChannelOutput → Bytes → ℕ → Option EstablishPaceChannelOutput
parse_references o input it = do
  (curr, it1) ← read_byte_array8 input it
  (prev, it2) ← read_byte_array8 input it1
  (icc, it3) ← read_byte_array16 input it2
  some (record o { car_curr = curr; car_prev = prev; id_icc = icc })

-- What stands behind the status; the two bytes of the status are read and only logged.
unfoldable pub parse_data : EstablishPaceChannelOutput → Bytes → Option EstablishPaceChannelOutput
parse_data o input = do
  status ← read_u16 input 6
  (access, it) ← read_byte_array16 input 8
  let o' : EstablishPaceChannelOutput = record o { ef_card_access = access }
  if leb (length input) it then some o' else parse_references o' input it

-- What stands behind the check of the size.
unfoldable pub parse_sized :
    EstablishPaceChannelOutput → Bytes → PacePasswordId → Option EstablishPaceChannelOutput
parse_sized o input password = do
  code ← read_u32 input 0
  data_length ← read_u16 input 4
  let o' : EstablishPaceChannelOutput = record o {
    pace_return_code = parse_return_code code password;
  }
  if ltb (length input) (6 + data_length) || data_length == 0 then some o' else parse_data o' input

unfoldable pub parse :
    EstablishPaceChannelOutput → Bytes → PacePasswordId → Option EstablishPaceChannelOutput
parse o input password = if ltb (length input) 6 then some o else parse_sized o input password
