-- ===== src/Card/Chat/Laws.antt =====
-- The role and the rights of a template are bits of its number.
use ausweis_app2_omapi.Prelude.{
  ℕ, ◌+◌, ◌*◌, ◌/◌, ◌%◌, ◌<◌, Bool, true, false, if◌then◌else◌, ◌==◌, List, [], ◌∷◌, Bytes, ◌≡◌,
  refl, ap, sym, ◌∙◌, inl, inr, arith, ◌&&◌, ◌⊎◌, subst,
}
use ausweis_app2_omapi.Prelude.Bits.{test_bit, test_bit-high}
use ausweis_app2_omapi.Card.AccessRight.{AccessRight, AccessRole, right_value, right_eq, all_rights}
use ausweis_app2_omapi.Card.Chat.{
  contains, filter_rights, get_access_rights, to_role, get_access_role,
}
use ausweis_app2_omapi.Card.Chat.Number.{Holds, IsByte, number, to_number-Holds}

pub right_value_bound : (r : AccessRight) → right_value r < 38
unfolding right_value
right_value_bound AccessRight.write_dg17 = omega arith
right_value_bound _ = omega arith

same_value :
    (x r : AccessRight) (n : ℕ)
    → right_eq x r ≡ true
    → test_bit n (right_value x) ≡ test_bit n (right_value r)
unfolding right_eq
same_value x r n e = let v : right_value x ≡ right_value r = ground (arith, e) in ap (test_bit n) v

both : (c : Bool) → c && false ≡ false
both true = refl
both false = refl

-- One step of the filter.
keep :
    (b p e c : Bool) (x : AccessRight) (m : List AccessRight) (r : AccessRight)
    → contains m r ≡ c && p
    → (e ≡ true → b ≡ p)
    → right_eq x r ≡ e
    → contains (if b then x ∷ m else m) r ≡ (if e then true else c) && p
unfolding contains
keep true p true c x m r h q d = ap (λ y. if y then true else contains m r) d ∙ q refl
keep true p false c x m r h q d = ap (λ y. if y then true else contains m r) d ∙ h
keep false p true c x m r h q d = h ∙ ap (λ y. c && y) (sym (q refl)) ∙ both c ∙ q refl
keep false p false c x m r h q d = h

contains-filter_rights :
    (n : ℕ) (l : List AccessRight) (r : AccessRight)
    → contains (filter_rights n l) r ≡ contains l r && test_bit n (right_value r)
unfolding contains filter_rights right_eq
contains-filter_rights n [] r = refl
contains-filter_rights n (x ∷ l) r =
    let rest : contains (filter_rights n l) r ≡ contains l r && test_bit n (right_value r) =
      contains-filter_rights n l r in
    keep (test_bit n (right_value x)) (test_bit n (right_value r)) (right_eq x r) (contains l r) x
      (filter_rights n l) r rest (same_value x r n) refl

contains-all_rights : (r : AccessRight) → contains all_rights r ≡ true
unfolding contains right_eq right_value
contains-all_rights AccessRight.write_dg17 = refl
contains-all_rights _ = refl

pub contains-get_access_rights :
    (t : Bytes) (n : ℕ) (r : AccessRight)
    → Holds t n
    → contains (get_access_rights t) r ≡ test_bit n (right_value r)
unfolding get_access_rights
contains-get_access_rights t n r h =
    ap (λ m. contains (filter_rights m all_rights) r) (to_number-Holds t n h)
    ∙ contains-filter_rights n all_rights r
    ∙ ap (λ b. b && test_bit n (right_value r)) (contains-all_rights r)

abbrev pub role_of_bits : Bool → Bool → AccessRole
role_of_bits true true = AccessRole.cvca
role_of_bits true false = AccessRole.dv_od
role_of_bits false true = AccessRole.dv_no_f
role_of_bits false false = AccessRole.at

abbrev Agrees : ℕ → Type 0
unfolding to_role
Agrees k = to_role k ≡ role_of_bits (k / 2 == 1) (k % 2 == 1)

role_of_number : (k : ℕ) → k < 4 → to_role k ≡ role_of_bits (k / 2 == 1) (k % 2 == 1)
unfolding to_role
role_of_number k h =
    let four : (k ≡ 0) ⊎ ((k ≡ 1) ⊎ ((k ≡ 2) ⊎ (k ≡ 3))) = omega arith in
    elim four [
      | inl e ↦ subst Agrees (sym e) refl
      | inr (inl e) ↦ subst Agrees (sym e) refl
      | inr (inr (inl e)) ↦ subst Agrees (sym e) refl
      | inr (inr (inr e)) ↦ subst Agrees (sym e) refl
    ]

role_of_byte : (a : ℕ) → IsByte a → to_role (a / 64) ≡ role_of_bits (test_bit a 7) (test_bit a 6)
unfolding test_bit
role_of_byte a h =
    let high : a / 64 / 2 ≡ a / 2 / 2 / 2 / 2 / 2 / 2 / 2 % 2 = omega arith in
    let low : a / 64 % 2 ≡ a / 2 / 2 / 2 / 2 / 2 / 2 % 2 = omega arith in
    role_of_number (a / 64) (omega arith)
    ∙ ap (λ k. role_of_bits (k == 1) (a / 64 % 2 == 1)) high
    ∙ ap (λ k. role_of_bits (test_bit a 7) (k == 1)) low

-- The bits of the first byte of five.
abbrev IsShort : ℕ → Type 0
IsShort n = n < 4294967296

high_bit :
    (i a b c d e : ℕ)
    → IsByte b
    → IsByte c
    → IsByte d
    → IsByte e
    → test_bit a i ≡ test_bit (number a b c d e) (32 + i)
high_bit i a b c d e hb hc hd he =
    let low : IsShort (((b * 256 + c) * 256 + d) * 256 + e) = omega arith in
    sym (
      ap (λ m. test_bit m (32 + i)) (omega arith)
      ∙ test_bit-high 32 i a (((b * 256 + c) * 256 + d) * 256 + e) low)

pub get_access_role-Holds :
    (t : Bytes) (n : ℕ)
    → Holds t n
    → get_access_role t ≡ role_of_bits (test_bit n 39) (test_bit n 38)
unfolding get_access_role
get_access_role-Holds t n h =
    ap get_access_role h.is_five
    ∙ role_of_byte h.b4 h.is_byte4
    ∙ ap (λ b. role_of_bits b (test_bit h.b4 6))
        (high_bit 7 h.b4 h.b3 h.b2 h.b1 h.b0 h.is_byte3 h.is_byte2 h.is_byte1 h.is_byte0)
    ∙ ap (λ b. role_of_bits (test_bit (number h.b4 h.b3 h.b2 h.b1 h.b0) 39) b)
        (high_bit 6 h.b4 h.b3 h.b2 h.b1 h.b0 h.is_byte3 h.is_byte2 h.is_byte1 h.is_byte0)
    ∙ ap (λ m. role_of_bits (test_bit m 39) (test_bit m 38)) (sym h.is_number)
