-- ===== src/Card/Chat/LowBytes.antt =====
-- Writing a bit of one of the three low bytes of a template.
use ausweis_app2_omapi.Prelude.{
  ℕ, ◌+◌, ◌*◌, ◌/◌, ◌%◌, ◌<◌, Bool, some, ◌≡◌, refl, ap, ◌∙◌, arith, ◌-◌, ltb, if◌then◌else◌, false,
}
use ausweis_app2_omapi.Prelude.Bits.{write_bit}
use ausweis_app2_omapi.Card.Chat.{set_template_bit, write_byte}
use ausweis_app2_omapi.Card.Chat.Number.{
  five, number, IsByte, byte_low, byte_high, bounded, Writes, fits,
}

pub place0 :
    (i : ℕ) (on : Bool) (a b c d e : ℕ)
    → IsByte a
    → IsByte b
    → IsByte c
    → IsByte d
    → IsByte e
    → i / 8 ≡ 0
    → Writes (five a b c d e) (number a b c d e) i on
unfolding set_template_bit write_byte
place0 i on a b c d e ha hb hc hd he h =
    let low : i % 8 < 8 = omega arith in
    let place : i ≡ i % 8 = omega arith in
    let n : write_bit (number a b c d e) i on ≡ number a b c d (write_bit e (i % 8) on) =
      ap (λ j. write_bit (number a b c d e) j on) place
      ∙ byte_low (i % 8) (((a * 256 + b) * 256 + c) * 256 + d) e on low in
    let small : ltb 39 i ≡ false = ground (arith, h) in
    let w : IsByte (write_bit e (i % 8) on) = bounded (i % 8) e on low he in
    let f : write_bit e (i % 8) on % 256 ≡ write_bit e (i % 8) on = fits (i % 8) e on low he in
    (
      five a b c d (write_bit e (i % 8) on),
      ap
            (λ g.
              if g
              then some (five a b c d e)
              else write_byte (4 - i / 8) (i % 8) on (five a b c d e))
            small
          ∙ ap (λ p. write_byte (4 - p) (i % 8) on (five a b c d e)) h
          ∙ ap (λ x. some (five a b c d x)) f,
      record {
        b4 = a;
        b3 = b;
        b2 = c;
        b1 = d;
        b0 = (write_bit e (i % 8) on);
        is_byte4 = ha;
        is_byte3 = hb;
        is_byte2 = hc;
        is_byte1 = hd;
        is_byte0 = w;
        is_five = refl;
        is_number = n;
      },
    )

pub place1 :
    (i : ℕ) (on : Bool) (a b c d e : ℕ)
    → IsByte a
    → IsByte b
    → IsByte c
    → IsByte d
    → IsByte e
    → i / 8 ≡ 1
    → Writes (five a b c d e) (number a b c d e) i on
unfolding set_template_bit write_byte
place1 i on a b c d e ha hb hc hd he h =
    let low : i % 8 < 8 = omega arith in
    let place : i ≡ 8 + i % 8 = omega arith in
    let n : write_bit (number a b c d e) i on ≡ number a b c (write_bit d (i % 8) on) e =
      ap (λ j. write_bit (number a b c d e) j on) place
      ∙ byte_high (i % 8) (((a * 256 + b) * 256 + c) * 256 + d) e on he
      ∙ ap (λ m. m * 256 + e) (byte_low (i % 8) ((a * 256 + b) * 256 + c) d on low) in
    let small : ltb 39 i ≡ false = ground (arith, h) in
    let w : IsByte (write_bit d (i % 8) on) = bounded (i % 8) d on low hd in
    let f : write_bit d (i % 8) on % 256 ≡ write_bit d (i % 8) on = fits (i % 8) d on low hd in
    (
      five a b c (write_bit d (i % 8) on) e,
      ap
            (λ g.
              if g
              then some (five a b c d e)
              else write_byte (4 - i / 8) (i % 8) on (five a b c d e))
            small
          ∙ ap (λ p. write_byte (4 - p) (i % 8) on (five a b c d e)) h
          ∙ ap (λ x. some (five a b c x e)) f,
      record {
        b4 = a;
        b3 = b;
        b2 = c;
        b1 = (write_bit d (i % 8) on);
        b0 = e;
        is_byte4 = ha;
        is_byte3 = hb;
        is_byte2 = hc;
        is_byte1 = w;
        is_byte0 = he;
        is_five = refl;
        is_number = n;
      },
    )

pub place2 :
    (i : ℕ) (on : Bool) (a b c d e : ℕ)
    → IsByte a
    → IsByte b
    → IsByte c
    → IsByte d
    → IsByte e
    → i / 8 ≡ 2
    → Writes (five a b c d e) (number a b c d e) i on
unfolding set_template_bit write_byte
place2 i on a b c d e ha hb hc hd he h =
    let low : i % 8 < 8 = omega arith in
    let place : i ≡ 8 + (8 + i % 8) = omega arith in
    let n : write_bit (number a b c d e) i on ≡ number a b (write_bit c (i % 8) on) d e =
      ap (λ j. write_bit (number a b c d e) j on) place
      ∙ byte_high (8 + i % 8) (((a * 256 + b) * 256 + c) * 256 + d) e on he
      ∙ ap (λ m. m * 256 + e) (byte_high (i % 8) ((a * 256 + b) * 256 + c) d on hd)
      ∙ ap (λ m. (m * 256 + d) * 256 + e) (byte_low (i % 8) (a * 256 + b) c on low) in
    let small : ltb 39 i ≡ false = ground (arith, h) in
    let w : IsByte (write_bit c (i % 8) on) = bounded (i % 8) c on low hc in
    let f : write_bit c (i % 8) on % 256 ≡ write_bit c (i % 8) on = fits (i % 8) c on low hc in
    (
      five a b (write_bit c (i % 8) on) d e,
      ap
            (λ g.
              if g
              then some (five a b c d e)
              else write_byte (4 - i / 8) (i % 8) on (five a b c d e))
            small
          ∙ ap (λ p. write_byte (4 - p) (i % 8) on (five a b c d e)) h
          ∙ ap (λ x. some (five a b x d e)) f,
      record {
        b4 = a;
        b3 = b;
        b2 = (write_bit c (i % 8) on);
        b1 = d;
        b0 = e;
        is_byte4 = ha;
        is_byte3 = hb;
        is_byte2 = w;
        is_byte1 = hd;
        is_byte0 = he;
        is_five = refl;
        is_number = n;
      },
    )
