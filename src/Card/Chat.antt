-- ===== src/Card/Chat.antt =====
-- src/card/base/asn1/Chat: the certificate holder authorization template, five bytes that hold the role
-- of a terminal in the two highest bits and its rights in the bits below.
pub mod Number
pub mod LowBytes
pub mod Places
pub mod Laws
pub mod Rights
pub mod Refinement
use ausweis_app2_omapi.Prelude.{
  ℕ, zero, suc, ◌+◌, ◌-◌, ◌*◌, ◌/◌, ◌%◌, ◌^◌, Bool, true, false, if◌then◌else◌, ltb, leb, ◌==◌,
  Option, none, some, List, [], ◌∷◌, Bytes, length, replicate, bytes_eq, not, ◌>>=◌,
}
use ausweis_app2_omapi.Prelude.Bits.{test_bit, write_bit}
use ausweis_app2_omapi.Card.AccessRight.{AccessRight, AccessRole, right_value, right_eq, all_rights}

-- The type is the text of its object identifier.
pub record Chat : Type 0 where
  pub chat_type : Bytes
  pub template : Bytes

-- `data[byteNumber] |= bit` or `&= ~bit`; none where there is no such byte, where the source's
-- behaviour is undefined.
unfoldable pub write_byte : ℕ → ℕ → Bool → Bytes → Option Bytes
write_byte n bit on [] = none
write_byte zero bit on (x ∷ t) = some (write_bit x bit on % 256 ∷ t)
write_byte (suc n) bit on (x ∷ t) = elim (write_byte n bit on t) [
  | some u ↦ some (x ∷ u)
  | none ↦ none
]

unfoldable pub set_template_bit : ℕ → Bool → Bytes → Option Bytes
unfolding write_byte
set_template_bit i on t =
    if ltb 39 i
    then some t
    else write_byte (4 - i / 8) (i % 8) on (if length t == 0 then replicate 5 0 else t)

-- The value of the enumerator; `unknown` is -1 and is never asked for it.
abbrev pub role_value : AccessRole → ℕ
role_value AccessRole.cvca = 3
role_value AccessRole.dv_od = 2
role_value AccessRole.dv_no_f = 1
role_value AccessRole.at = 0
role_value AccessRole.unknown = 0

unfoldable pub set_access_role : AccessRole → Bytes → Option Bytes
unfolding set_template_bit
set_access_role AccessRole.unknown t = some t
set_access_role role t = do
  u ← set_template_bit 38 (role_value role % 2 == 1) t
  set_template_bit 39 (leb 2 (role_value role)) u

-- `AccessRole(n)`; a byte shifted by six bits is below 4.
unfoldable pub to_role : ℕ → AccessRole
to_role n =
    if n == 0
    then AccessRole.at
    else if n == 1
    then AccessRole.dv_no_f
    else if n == 2
    then AccessRole.dv_od
    else if n == 3
    then AccessRole.cvca
    else AccessRole.unknown

unfoldable pub get_access_role : Bytes → AccessRole
unfolding to_role
get_access_role [] = AccessRole.unknown
get_access_role (x ∷ t) = to_role (x / 64)

-- The loop over the bytes, on 64 bits.
unfoldable pub to_number : ℕ → Bytes → ℕ
to_number n [] = n
to_number n (x ∷ t) = to_number ((n * 256 % 2 ^ 64 + x) % 2 ^ 64) t

unfoldable pub filter_rights : ℕ → List AccessRight → List AccessRight
filter_rights n [] = []
filter_rights n (r ∷ l) =
    let rest = filter_rights n l in if test_bit n (right_value r) then r ∷ rest else rest

-- The set of rights, as the list of its elements in the order in which they are inserted.
unfoldable pub get_access_rights : Bytes → List AccessRight
unfolding to_number filter_rights
get_access_rights t = filter_rights (to_number 0 t) all_rights

unfoldable pub contains : List AccessRight → AccessRight → Bool
contains [] r = false
contains (x ∷ l) r = if right_eq x r then true else contains l r

unfoldable pub has_access_right : AccessRight → Bytes → Bool
unfolding get_access_rights contains
has_access_right r t = contains (get_access_rights t) r

unfoldable pub set_access_right : AccessRight → Bytes → Option Bytes
unfolding set_template_bit
set_access_right r t = set_template_bit (right_value r) true t

unfoldable pub remove_access_right : AccessRight → Bytes → Option Bytes
unfolding set_template_bit
remove_access_right r t = set_template_bit (right_value r) false t

-- The rights in the order in which the set is iterated.
unfoldable pub set_access_rights : List AccessRight → Bytes → Option Bytes
unfolding set_access_right
set_access_rights [] t = some t
set_access_rights (r ∷ l) t = do u ← set_access_right r t; set_access_rights l u

unfoldable pub remove_rights : List AccessRight → Bytes → Option Bytes
unfolding remove_access_right
remove_rights [] t = some t
remove_rights (r ∷ l) t = do u ← remove_access_right r t; remove_rights l u

unfoldable pub remove_all_access_rights : Bytes → Option Bytes
unfolding remove_rights get_access_rights
remove_all_access_rights t = remove_rights (get_access_rights t) t

-- `decodeCallback` after the template library has decoded a value: what is kept of it. The first
-- argument is the text of `KnownOIDs::CHATType::ID_AT`.
unfoldable pub decode_callback : Bytes → Chat → Option Chat
decode_callback id_at chat =
    if not (length chat.template == 5)
    then none
    else if not (bytes_eq chat.chat_type id_at)
    then none
    else some chat
