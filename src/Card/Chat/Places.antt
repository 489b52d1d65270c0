-- ===== src/Card/Chat/Places.antt =====
-- Writing any of the forty bits of a template.
use ausweis_app2_omapi.Prelude.{
  ℕ, ◌+◌, ◌*◌, ◌/◌, ◌%◌, ◌<◌, Bool, some, Bytes, ◌≡◌, refl, ap, sym, ◌∙◌, arith, ◌-◌, ltb,
  if◌then◌else◌, false, ◌⊎◌, inl, inr, subst,
}
use ausweis_app2_omapi.Prelude.Bits.{write_bit}
use ausweis_app2_omapi.Card.Chat.{set_template_bit, write_byte}
use ausweis_app2_omapi.Card.Chat.Number.{
  five, number, IsByte, byte_low, byte_high, bounded, Holds, Writes, fits,
}
use ausweis_app2_omapi.Card.Chat.LowBytes.{place0, place1, place2}

place3 :
    (i : ℕ) (on : Bool) (a b c d e : ℕ)
    → IsByte a
    → IsByte b
    → IsByte c
    → IsByte d
    → IsByte e
    → i / 8 ≡ 3
    → Writes (five a b c d e) (number a b c d e) i on
unfolding set_template_bit write_byte
place3 i on a b c d e ha hb hc hd he h =
    let low : i % 8 < 8 = omega arith in
    let place : i ≡ 8 + (8 + (8 + i % 8)) = omega arith in
    let n : write_bit (number a b c d e) i on ≡ number a (write_bit b (i % 8) on) c d e =
      ap (λ j. write_bit (number a b c d e) j on) place
      ∙ byte_high (8 + (8 + i % 8)) (((a * 256 + b) * 256 + c) * 256 + d) e on he
      ∙ ap (λ m. m * 256 + e) (byte_high (8 + i % 8) ((a * 256 + b) * 256 + c) d on hd)
      ∙ ap (λ m. (m * 256 + d) * 256 + e) (byte_high (i % 8) (a * 256 + b) c on hc)
      ∙ ap (λ m. ((m * 256 + c) * 256 + d) * 256 + e) (byte_low (i % 8) (a) b on low) in
    let small : ltb 39 i ≡ false = ground (arith, h) in
    let w : IsByte (write_bit b (i % 8) on) = bounded (i % 8) b on low hb in
    let f : write_bit b (i % 8) on % 256 ≡ write_bit b (i % 8) on = fits (i % 8) b on low hb in
    (
      five a (write_bit b (i % 8) on) c d e,
      ap
            (λ g.
              if g
              then some (five a b c d e)
              else write_byte (4 - i / 8) (i % 8) on (five a b c d e))
            small
          ∙ ap (λ p. write_byte (4 - p) (i % 8) on (five a b c d e)) h
          ∙ ap (λ x. some (five a x c d e)) f,
      record {
        b4 = a;
        b3 = (write_bit b (i % 8) on);
        b2 = c;
        b1 = d;
        b0 = e;
        is_byte4 = ha;
        is_byte3 = w;
        is_byte2 = hc;
        is_byte1 = hd;
        is_byte0 = he;
        is_five = refl;
        is_number = n;
      },
    )

place4 :
    (i : ℕ) (on : Bool) (a b c d e : ℕ)
    → IsByte a
    → IsByte b
    → IsByte c
    → IsByte d
    → IsByte e
    → i / 8 ≡ 4
    → Writes (five a b c d e) (number a b c d e) i on
unfolding set_template_bit write_byte
place4 i on a b c d e ha hb hc hd he h =
    let low : i % 8 < 8 = omega arith in
    let place : i ≡ 8 + (8 + (8 + (8 + i % 8))) = omega arith in
    let n : write_bit (number a b c d e) i on ≡ number (write_bit a (i % 8) on) b c d e =
      ap (λ j. write_bit (number a b c d e) j on) place
      ∙ byte_high (8 + (8 + (8 + i % 8))) (((a * 256 + b) * 256 + c) * 256 + d) e on he
      ∙ ap (λ m. m * 256 + e) (byte_high (8 + (8 + i % 8)) ((a * 256 + b) * 256 + c) d on hd)
      ∙ ap (λ m. (m * 256 + d) * 256 + e) (byte_high (8 + i % 8) (a * 256 + b) c on hc)
      ∙ ap (λ m. ((m * 256 + c) * 256 + d) * 256 + e) (byte_high (i % 8) (a) b on hb) in
    let small : ltb 39 i ≡ false = ground (arith, h) in
    let w : IsByte (write_bit a (i % 8) on) = bounded (i % 8) a on low ha in
    let f : write_bit a (i % 8) on % 256 ≡ write_bit a (i % 8) on = fits (i % 8) a on low ha in
    (
      five (write_bit a (i % 8) on) b c d e,
      ap
            (λ g.
              if g
              then some (five a b c d e)
              else write_byte (4 - i / 8) (i % 8) on (five a b c d e))
            small
          ∙ ap (λ p. write_byte (4 - p) (i % 8) on (five a b c d e)) h
          ∙ ap (λ x. some (five x b c d e)) f,
      record {
        b4 = (write_bit a (i % 8) on);
        b3 = b;
        b2 = c;
        b1 = d;
        b0 = e;
        is_byte4 = w;
        is_byte3 = hb;
        is_byte2 = hc;
        is_byte1 = hd;
        is_byte0 = he;
        is_five = refl;
        is_number = n;
      },
    )

quotients :
    (i : ℕ) → i < 40 → (i / 8 ≡ 0) ⊎ ((i / 8 ≡ 1) ⊎ ((i / 8 ≡ 2) ⊎ ((i / 8 ≡ 3) ⊎ (i / 8 ≡ 4))))
quotients i h = omega arith

five-Writes :
    (i : ℕ) (on : Bool) (a b c d e : ℕ)
    → IsByte a
    → IsByte b
    → IsByte c
    → IsByte d
    → IsByte e
    → i < 40
    → Writes (five a b c d e) (number a b c d e) i on
five-Writes i on a b c d e ha hb hc hd he h = elim (quotients i h) [
  | inl h0 ↦ place0 i on a b c d e ha hb hc hd he h0
  | inr (inl h1) ↦ place1 i on a b c d e ha hb hc hd he h1
  | inr (inr (inl h2)) ↦ place2 i on a b c d e ha hb hc hd he h2
  | inr (inr (inr (inl h3))) ↦ place3 i on a b c d e ha hb hc hd he h3
  | inr (inr (inr (inr h4))) ↦ place4 i on a b c d e ha hb hc hd he h4
]

-- Writing a bit of a template writes that bit of its number.
pub set_template_bit-Holds :
    (i : ℕ) (on : Bool) (t : Bytes) (n : ℕ) → i < 40 → Holds t n → Writes t n i on
set_template_bit-Holds i on t n h x =
    subst (λ u. Writes u n i on) (sym x.is_five)
      (subst (λ m. Writes (five x.b4 x.b3 x.b2 x.b1 x.b0) m i on) (sym x.is_number)
        (five-Writes i on x.b4 x.b3 x.b2 x.b1 x.b0 x.is_byte4 x.is_byte3 x.is_byte2 x.is_byte1
          x.is_byte0 h))
