-- ===== src/Card/Commands/Bounds.antt =====
-- The command data for a reader fit their length field, and are bytes.
use ausweis_app2_omapi.Prelude.{
  ℕ, ◌+◌, ◌*◌, ◌<◌, Bool, true, false, not, if◌then◌else◌, ◌&&◌, ◌==◌, leb, [], ◌∷◌, ◌++◌, Bytes,
  length, All, Option, none, some, take, drop, take-append, drop-append, length-append, is_empty,
  high_byte, low_byte, ◌≡◌, refl, ap, sym, subst, ◌∙◌, arith,
}
use ausweis_app2_omapi.Card.PasswordId.{PacePasswordId, password_id_value}
use ausweis_app2_omapi.Card.Chains.Building.{All-append}
use ausweis_app2_omapi.Card.Commands.{pace_input_data, create_command_data}

abbrev pub IsByte : ℕ → Type 0
IsByte b = b < 256

-- How a reader takes the data apart, by PC/SC part 10: an index byte of 2, the length of the rest in two
-- bytes, low byte first; then the password, the CHAT behind its length in one byte, the length of a PIN
-- that is 0, and the description of the certificate behind its length in two bytes.
abbrev read_description : ℕ → Bytes → Bytes → Option (ℕ × (Bytes × Bytes))
read_description password chat (no_pin ∷ lo ∷ hi ∷ rest) =
    if no_pin == 0 && (length rest == lo + 256 * hi) then some (password, (chat, rest)) else none
read_description password chat _ = none

abbrev read_input : Bytes → Option (ℕ × (Bytes × Bytes))
read_input (password ∷ n ∷ rest) = read_description password (take n rest) (drop n rest)
read_input _ = none

abbrev pub read_command : Bytes → Option (ℕ × (Bytes × Bytes))
read_command (index ∷ lo ∷ hi ∷ rest) =
    if index == 2 && (length rest == lo + 256 * hi) then read_input rest else none
read_command _ = none

-- The lengths have their places.
abbrev pub fits : Bytes → Bytes → Bool
fits chat description = leb (length chat) 255 && leb (length chat + length description + 5) 65535

low_byte-IsByte : (n : ℕ) → IsByte (low_byte n)
low_byte-IsByte n = omega arith

high_byte-IsByte : (n : ℕ) → IsByte (high_byte n)
high_byte-IsByte n = omega arith

password-IsByte : (p : PacePasswordId) → IsByte (password_id_value p)
unfolding password_id_value
password-IsByte PacePasswordId.unknown = omega arith
password-IsByte _ = omega arith

input-All :
    (p : PacePasswordId) (chat description : Bytes)
    → All IsByte chat
    → All IsByte description
    → All IsByte (pace_input_data p chat description)
unfolding pace_input_data
input-All p chat description c d = (
  password-IsByte p,
  (
    low_byte-IsByte (length chat),
    All-append IsByte chat
        (0 ∷ low_byte (length description) ∷ high_byte (length description) ∷ description) c
        (
          omega arith,
          (low_byte-IsByte (length description), (high_byte-IsByte (length description), d)),
        ),
  ),
)

length-input :
    (p : PacePasswordId) (chat description : Bytes)
    → length (pace_input_data p chat description) ≡ length chat + length description + 5
unfolding pace_input_data
length-input p chat description =
    let tail = 0 ∷ low_byte (length description) ∷ high_byte (length description) ∷ description in
    omega (arith, length-append chat tail)

-- The data where the lengths fit.
abbrev framed : PacePasswordId → Bytes → Bytes → Bytes
framed p chat description =
    let input = pace_input_data p chat description in
    2 ∷ low_byte (length input) ∷ high_byte (length input) ∷ input

created :
    (p : PacePasswordId) (chat description : Bytes)
    → create_command_data p chat description
      ≡ (if fits chat description then framed p chat description else [])
unfolding create_command_data
created p chat description = ground (arith, length-input p chat description)

read_description-append :
    (password : ℕ) (chat description : Bytes)
    → length description < 65536
    → read_description password chat
        (0 ∷ low_byte (length description) ∷ high_byte (length description) ∷ description)
      ≡ some (password, (chat, description))
read_description-append password chat description h = ground arith

read_input-append :
    (p : PacePasswordId) (chat description : Bytes)
    → length chat < 256
    → length description < 65536
    → read_input (pace_input_data p chat description)
      ≡ some (password_id_value p, (chat, description))
unfolding pace_input_data
read_input-append p chat description h k =
    let tail = 0 ∷ low_byte (length description) ∷ high_byte (length description) ∷ description in
    let size : low_byte (length chat) ≡ length chat = omega arith in
    let value = password_id_value p in
    ap (λ n. read_description value (take n (chat ++ tail)) (drop n (chat ++ tail))) size
    ∙ ap (λ c. read_description value c (drop (length chat) (chat ++ tail))) (take-append chat tail)
    ∙ ap (read_description value chat) (drop-append chat tail)
    ∙ read_description-append value chat description k

read_framed :
    (p : PacePasswordId) (chat description : Bytes)
    → fits chat description ≡ true
    → read_command (framed p chat description) ≡ some (password_id_value p, (chat, description))
read_framed p chat description h =
    let size = length-input p chat description in
    let n = length (pace_input_data p chat description) in
    let small : n < 65536 = ground (arith, size, h) in
    let whole : (n == low_byte n + 256 * high_byte n) ≡ true = ground (arith, small) in
    ap (λ b. if b then read_input (pace_input_data p chat description) else none) whole
    ∙ read_input-append p chat description (ground (arith, h)) (ground (arith, h))

framed-All :
    (p : PacePasswordId) (chat description : Bytes)
    → All IsByte chat
    → All IsByte description
    → All IsByte (framed p chat description)
framed-All p chat description c d =
    let n = length (pace_input_data p chat description) in
    (omega arith, (low_byte-IsByte n, (high_byte-IsByte n, input-All p chat description c d)))

abbrev WellMade : PacePasswordId → Bytes → Bytes → Bytes → Bool → Type 0
WellMade p chat description made b =
    (read_command made ≡ (if b then some (password_id_value p, (chat, description)) else none))
    × (not b ≡ is_empty made)
    × All IsByte made

chosen-WellMade :
    (p : PacePasswordId) (chat description : Bytes) (b : Bool)
    → fits chat description ≡ b
    → All IsByte chat
    → All IsByte description
    → WellMade p chat description (if b then framed p chat description else []) b
chosen-WellMade p chat description true h c d =
    (read_framed p chat description h, refl, framed-All p chat description c d)
chosen-WellMade p chat description false h c d = (refl, refl, tt)

-- For a CHAT and a description of a certificate that are bytes: if the CHAT has at most 255 bytes, and
-- both together at most 65530, a reader takes the password, the CHAT and the description back from the
-- command data; if not, the command data are empty. The command data are bytes.
pub create_command_data-read_command :
    (p : PacePasswordId) (chat description : Bytes)
    → All IsByte chat
    → All IsByte description
    → (read_command (create_command_data p chat description)
        ≡ (if fits chat description then some (password_id_value p, (chat, description)) else none))
      × (not (fits chat description) ≡ is_empty (create_command_data p chat description))
      × All IsByte (create_command_data p chat description)
create_command_data-read_command p chat description c d =
    subst (λ made. WellMade p chat description made (fits chat description))
      (sym (created p chat description))
      (chosen-WellMade p chat description (fits chat description) refl c d)
