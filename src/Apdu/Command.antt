-- ===== src/Apdu/Command.antt =====
-- src/card/base/CommandApdu.h and CommandApdu.cpp. A command is its buffer. A `char` is its bit
-- pattern, a number below 256; lengths are not negative and below 2 ^ 31.
pub mod RoundTrip
use Prim.Native.Nat.{bit_and}
use ausweis_app2_omapi.Prelude.{
  ℕ, zero, suc, ◌+◌, ◌*◌, Bool, true, false, not, ◌&&◌, ◌||◌, if◌then◌else◌, ltb, leb, ◌==◌, List,
  [], ◌∷◌, ◌++◌, Bytes, length, get_or, mid, is_empty, high_byte, low_byte, big_endian,
}

pub record CommandApdu : Type 0 where
  pub buffer : Bytes

abbrev pub no_le : ℕ
no_le = 0

abbrev pub short_max_lc : ℕ
short_max_lc = 0xff

abbrev pub short_max_le : ℕ
short_max_le = 0x0100

abbrev pub extended_max_lc : ℕ
extended_max_lc = 0x00ffff

abbrev pub extended_max_le : ℕ
extended_max_le = 0x010000

abbrev pub cla_secure_messaging : ℕ
cla_secure_messaging = 0x0c

-- The static `isExtendedLength(pData, pLe)`.
unfoldable pub needs_extended_length : Bytes → ℕ → Bool
needs_extended_length bs le = ltb short_max_lc (length bs) || ltb short_max_le le

-- The member `isExtendedLength()`.
unfoldable pub is_extended_length : Bytes → Bool
is_extended_length buffer = ltb 5 (length buffer) && get_or buffer 4 0 == 0

unfoldable pub is_secure_messaging : Bytes → Bool
is_secure_messaging buffer =
    not (is_empty buffer) && bit_and (get_or buffer 0 0) 0x0f == cla_secure_messaging

-- The length field and the data, if there are data.
unfoldable pub lc_field : Bytes → ℕ → Bytes
unfolding needs_extended_length
lc_field [] le = []
lc_field (b ∷ bs) le =
    let size = length (b ∷ bs) in
    if needs_extended_length (b ∷ bs) le
    then 0 ∷ high_byte size ∷ low_byte size ∷ b ∷ bs
    else low_byte size ∷ b ∷ bs

-- The expected length, if there is one.
unfoldable pub le_field : Bytes → ℕ → Bytes
unfolding needs_extended_length
le_field bs le =
    let high = high_byte le ∷ low_byte le ∷ [] in
    if ltb 0 le
    then (if needs_extended_length bs le
        then (if is_empty bs then 0 ∷ high else high)
        else low_byte le ∷ [])
    else []

-- The constructor from the parts of a command.
unfoldable pub create : ℕ → ℕ → ℕ → ℕ → Bytes → ℕ → CommandApdu
unfolding lc_field le_field
create cla ins p1 p2 bs le =
    if ltb extended_max_lc (length bs)
    then record { buffer = [] }
    else if ltb extended_max_le le
    then record { buffer = [] }
    else record { buffer = cla ∷ ins ∷ p1 ∷ p2 ∷ (lc_field bs le ++ le_field bs le) }

-- The constructor from a header of four bytes.
unfoldable pub create_with_header : Bytes → Bytes → ℕ → CommandApdu
unfolding create
create_with_header header bs le =
    create (get_or header 0 0) (get_or header 1 0) (get_or header 2 0) (get_or header 3 0) bs le

unfoldable pub get_cla : CommandApdu → ℕ
get_cla c = get_or c.buffer 0 0

unfoldable pub get_ins : CommandApdu → ℕ
get_ins c = get_or c.buffer 1 0

unfoldable pub get_p1 : CommandApdu → ℕ
get_p1 c = get_or c.buffer 2 0

unfoldable pub get_p2 : CommandApdu → ℕ
get_p2 c = get_or c.buffer 3 0

-- `readLength`, which reads two bytes that its callers have checked to be there.
abbrev pub read_length : Bytes → ℕ → ℕ
read_length buffer offset = big_endian (get_or buffer offset 0) (get_or buffer (offset + 1) 0)

unfoldable pub lc_of : Bytes → ℕ
unfolding is_extended_length
lc_of buffer =
    if leb (length buffer) 5
    then 0
    else if not (is_extended_length buffer)
    then get_or buffer 4 0
    else if leb (length buffer) 6
    then 0
    else read_length buffer 5

unfoldable pub get_lc : CommandApdu → ℕ
unfolding lc_of
get_lc c = lc_of c.buffer

abbrev or_max : ℕ → ℕ → ℕ
or_max le max_le = if le == 0 then max_le else le

unfoldable pub le_of : Bytes → ℕ → ℕ
unfolding is_extended_length
le_of buffer lc =
    let extended_offset = if lc == 0 then 5 else 7 + lc in
    let offset = if lc == 0 then 4 else 5 + lc in
    if is_extended_length buffer
    then (if ltb (length buffer) (extended_offset + 2)
        then 0
        else or_max (read_length buffer extended_offset) extended_max_le)
    else if ltb (length buffer) (offset + 1)
    then 0
    else or_max (get_or buffer offset 0) short_max_le

unfoldable pub get_le : CommandApdu → ℕ
unfolding lc_of le_of
get_le c = le_of c.buffer (lc_of c.buffer)

unfoldable pub data_of : Bytes → ℕ → Bytes
unfolding is_extended_length
data_of buffer lc =
    if lc == 0 then [] else if is_extended_length buffer then mid buffer 7 lc else mid buffer 5 lc

unfoldable pub get_data : CommandApdu → Bytes
unfolding lc_of data_of
get_data c = data_of c.buffer (lc_of c.buffer)
