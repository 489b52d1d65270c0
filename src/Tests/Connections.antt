-- ===== src/Tests/Connections.antt =====
-- The commands to readers and the connection to a card: src/card/base.
use ausweis_app2_omapi.Prelude.{
  ℕ, ◌*◌, ◌+◌, ◌≤◌, ◌<◌, true, false, is_empty, if◌then◌else◌, ◌==◌, ◌≡◌, refl, Option, none, some,
  [], ◌∷◌, Bytes, All, drop, arith, ◌⊎◌, inl, inr, sym, subst,
}
use ausweis_app2_omapi.Global.ReturnCode.{CardReturnCode}
use ausweis_app2_omapi.Apdu.Command.{CommandApdu, get_ins, get_p1, get_p2}
use ausweis_app2_omapi.Apdu.Response.{ResponseApdu}
use ausweis_app2_omapi.Card.PasswordId.{PacePasswordId, password_id_value}
use ausweis_app2_omapi.Card.Commands.{ef_card_access, select, read_binary, create_command_data}
use ausweis_app2_omapi.Card.Commands.Bounds.{IsByte, read_command, create_command_data-read_command}
use ausweis_app2_omapi.Card.Connection.{Answer, read_file, read_loop}
use ausweis_app2_omapi.Card.Connection.ReadFile.{
  with_status, chunk, ready, read_file_lem, read_loop_endless,
}

-- A card with one file of two bytes.
abbrev file : Bytes
file = 5 ∷ 6 ∷ []

abbrev card : ℕ → CommandApdu → ℕ × Answer
card s c =
    if get_ins c == 0xa4
    then (1, (CardReturnCode.ok, with_status [] 0x90 0x00))
    else (s, (CardReturnCode.ok, chunk (drop (get_p1 c * 256 + get_p2 c) file)))

abbrev no_encryption : ℕ → CommandApdu → ℕ × CommandApdu
no_encryption c command = (c, command)

abbrev no_decryption : ℕ → ResponseApdu → ℕ × Option ResponseApdu
no_decryption c r = (c, some r)

selects : card 0 (select ef_card_access) ≡ (1, (CardReturnCode.ok, with_status [] 0x90 0x00))
unfolding select get_ins
selects = refl

offsets : (offset : ℕ) → offset ≤ 2 → (offset ≡ 0) ⊎ ((offset ≡ 1) ⊎ (offset ≡ 2))
offsets offset h = omega arith

abbrev Reads : ℕ → Type 0
Reads offset = card 1 (read_binary offset 255) ≡ (1, (CardReturnCode.ok, chunk (drop offset file)))

reads : (offset : ℕ) → offset ≤ 2 → offset < 0x8000 → Reads offset
unfolding read_binary get_ins get_p1 get_p2
reads offset h small = elim (offsets offset h) [
  | inl e ↦ subst Reads (sym e) refl
  | inr (inl e) ↦ subst Reads (sym e) refl
  | inr (inr e) ↦ subst Reads (sym e) refl
]

read_file_example :
    read_file card no_encryption no_decryption 1
      (ready card no_encryption no_decryption true 0)
      ef_card_access
      []
    ≡ some (ready card no_encryption no_decryption true 1, (CardReturnCode.ok, file))
read_file_example =
    read_file_lem card no_encryption no_decryption true 0 1 ef_card_access file (omega arith)
      selects reads

-- A card that has no end.
abbrev endless_card : ℕ → CommandApdu → ℕ × Answer
endless_card s c = (s, (CardReturnCode.ok, with_status [] 0x90 0x00))

read_loop_endless_example :
    read_loop endless_card no_encryption no_decryption 100
      (ready endless_card no_encryption no_decryption true 0)
      []
    ≡ none
read_loop_endless_example =
    read_loop_endless endless_card no_encryption no_decryption true 0 (λ offset. refl) 100

create_command_data-read_command_example :
    let made = create_command_data PacePasswordId.pace_can (7 ∷ []) (8 ∷ []) in
    (read_command made ≡ some (2, (7 ∷ [], 8 ∷ []))) × (false ≡ is_empty made) × All IsByte made
unfolding password_id_value
create_command_data-read_command_example =
    create_command_data-read_command PacePasswordId.pace_can (7 ∷ []) (8 ∷ []) (omega arith, tt)
      (omega arith, tt)

data_of_two :
    create_command_data PacePasswordId.pace_can (7 ∷ []) (8 ∷ [])
    ≡ 2 ∷ 7 ∷ 0 ∷ 2 ∷ 1 ∷ 7 ∷ 0 ∷ 1 ∷ 0 ∷ 8 ∷ []
unfolding create_command_data password_id_value
data_of_two = refl
