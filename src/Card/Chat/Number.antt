-- ===== src/Card/Chat/Number.antt =====
-- A template of five bytes is a number of forty bits, and writing a bit of it writes that bit of the
-- number.
use ausweis_app2_omapi.Prelude.{
  ℕ, ◌+◌, ◌*◌, ◌%◌, ◌<◌, Bool, some, [], ◌∷◌, Bytes, ◌≡◌, ap, sym, ◌∙◌, arith,
}
use ausweis_app2_omapi.Prelude.Bits.{write_bit, write_bit-low, write_bit-high, write_bit_bound}
use ausweis_app2_omapi.Card.Chat.{set_template_bit, to_number}

abbrev pub five : ℕ → ℕ → ℕ → ℕ → ℕ → Bytes
five a b c d e = a ∷ b ∷ c ∷ d ∷ e ∷ []

abbrev pub number : ℕ → ℕ → ℕ → ℕ → ℕ → ℕ
number a b c d e = (((a * 256 + b) * 256 + c) * 256 + d) * 256 + e

abbrev pub IsByte : ℕ → Type 0
IsByte x = x < 256

pub to_number-five :
    (a b c d e : ℕ)
    → IsByte a
    → IsByte b
    → IsByte c
    → IsByte d
    → IsByte e
    → to_number 0 (five a b c d e) ≡ number a b c d e
unfolding to_number
to_number-five a b c d e ha hb hc hd he = omega arith

pub byte_low :
    (i a b : ℕ) (on : Bool) → i < 8 → write_bit (a * 256 + b) i on ≡ a * 256 + write_bit b i on
byte_low i a b on h = write_bit-low 8 i a b on h

pub byte_high :
    (i a b : ℕ) (on : Bool)
    → IsByte b
    → write_bit (a * 256 + b) (8 + i) on ≡ write_bit a i on * 256 + b
byte_high i a b on h = write_bit-high 8 i a b on h

pub bounded : (i x : ℕ) (on : Bool) → i < 8 → IsByte x → IsByte (write_bit x i on)
bounded i x on h l = write_bit_bound 8 i x on h l

-- The bytes hold the number.
pub record Holds (t : Bytes) (n : ℕ) : Type 0 where
  pub b4 : ℕ
  pub b3 : ℕ
  pub b2 : ℕ
  pub b1 : ℕ
  pub b0 : ℕ
  pub is_byte4 : IsByte b4
  pub is_byte3 : IsByte b3
  pub is_byte2 : IsByte b2
  pub is_byte1 : IsByte b1
  pub is_byte0 : IsByte b0
  pub is_five : t ≡ five b4 b3 b2 b1 b0
  pub is_number : n ≡ number b4 b3 b2 b1 b0

-- The write succeeds, and the number has the bit.
abbrev pub Writes : Bytes → ℕ → ℕ → Bool → Type 0
Writes t n i on = (u : Bytes) × (set_template_bit i on t ≡ some u) × Holds u (write_bit n i on)

pub fits : (i x : ℕ) (on : Bool) → i < 8 → IsByte x → write_bit x i on % 256 ≡ write_bit x i on
fits i x on h l = let b : IsByte (write_bit x i on) = bounded i x on h l in omega (arith, b)

pub to_number-Holds : (t : Bytes) (n : ℕ) → Holds t n → to_number 0 t ≡ n
to_number-Holds t n x =
    ap (to_number 0) x.is_five
    ∙ to_number-five x.b4 x.b3 x.b2 x.b1 x.b0 x.is_byte4 x.is_byte3 x.is_byte2 x.is_byte1 x.is_byte0
    ∙ sym x.is_number
