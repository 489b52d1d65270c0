-- ===== src/Card/PaceOutput/Layout.antt =====
-- The layout of PC/SC part 10 that `parse` reads, and where `parse` reads outside of its input.
use ausweis_app2_omapi.Prelude.{
  ℕ, ◌+◌, ◌*◌, ◌/◌, ◌%◌, ◌^◌, ◌≤◌, ◌<◌, ◌≡◌, refl, sym, ap, ◌∙◌, false, leb, none, some, [], ◌∷◌,
  ◌++◌, append_assoc, Bytes, length, length-append, get_or-append, take, drop-behind, mid,
  take-append, arith,
}
use ausweis_app2_omapi.Card.PasswordId.{PacePasswordId}
use ausweis_app2_omapi.Card.PaceOutput.Codes.{parse_return_code}
use ausweis_app2_omapi.Card.PaceOutput.{
  EstablishPaceChannelOutput, read_byte, read_u16, read_u32, read_byte_array8, read_byte_array16,
  parse_references, parse_data, parse_sized, parse,
}

abbrev pub bytes16 : ℕ → Bytes
bytes16 n = n % 256 ∷ n / 256 ∷ []

abbrev pub bytes32 : ℕ → Bytes
bytes32 n = n % 256 ∷ n / 256 % 256 ∷ n / 65536 % 256 ∷ n / 16777216 ∷ []

-- A read in the second part of an array.
read_byte-append :
    (front : Bytes) (b : ℕ) (back : Bytes) → read_byte (front ++ b ∷ back) (length front) ≡ some b
unfolding read_byte
read_byte-append front b back =
    ground (arith, length-append front (b ∷ back), get_or-append front (b ∷ back) 0 0)

read_u16-append :
    (front : Bytes) (n : ℕ) (back : Bytes)
    → n < 65536
    → read_u16 (front ++ n % 256 ∷ n / 256 ∷ back) (length front) ≡ some n
unfolding read_u16
read_u16-append front n back h =
    let bytes = n % 256 ∷ n / 256 ∷ back in
    ground (
      arith,
      length-append front bytes,
      get_or-append front bytes 0 0,
      get_or-append front bytes 1 0,
    )

read_byte_array16-append :
    (front c back : Bytes)
    → length c < 65536
    → read_byte_array16 (front ++ (bytes16 (length c) ++ (c ++ back))) (length front)
      ≡ some (c, length front + 2 + length c)
unfolding read_byte_array16
read_byte_array16-append front c back h =
    let rest = bytes16 (length c) ++ (c ++ back) in
    let cut : mid (front ++ rest) (length front + 2) (length c) ≡ c =
      ap (take (length c)) (drop-behind front rest 2) ∙ take-append c back in
    rw (read_u16-append front (length c) (c ++ back) h)
      (ap (λ bytes. some (bytes, length front + 2 + length c)) cut)

read_byte_array8-append :
    (front c back : Bytes)
    → length c < 256
    → read_byte_array8 (front ++ (length c ∷ (c ++ back))) (length front)
      ≡ some (c, length front + 1 + length c)
unfolding read_byte_array8
read_byte_array8-append front c back h =
    let rest = length c ∷ (c ++ back) in
    let cut : mid (front ++ rest) (length front + 1) (length c) ≡ c =
      ap (take (length c)) (drop-behind front rest 1) ∙ take-append c back in
    let size : length c % 256 ≡ length c = omega arith in
    rw (read_byte-append front (length c) (c ++ back), size)
      (ap (λ bytes. some (bytes, length front + 1 + length c)) cut)

-- The three fields behind EF.CardAccess.
abbrev pub references : (curr prev icc : Bytes) → Bytes
references curr prev icc =
    length curr ∷ (curr ++ (length prev ∷ (prev ++ (bytes16 (length icc) ++ (icc ++ [])))))

-- The same where the input and the offset are only known to be equal to such.
read_byte_array8_at :
    (input front c back : Bytes) (i : ℕ)
    → input ≡ front ++ (length c ∷ (c ++ back))
    → i ≡ length front
    → length c < 256
    → read_byte_array8 input i ≡ some (c, i + 1 + length c)
read_byte_array8_at input front c back i e n h = rw (e, n) (read_byte_array8-append front c back h)

read_byte_array16_at :
    (input front c back : Bytes) (i : ℕ)
    → input ≡ front ++ (bytes16 (length c) ++ (c ++ back))
    → i ≡ length front
    → length c < 65536
    → read_byte_array16 input i ≡ some (c, i + 2 + length c)
read_byte_array16_at input front c back i e n h =
    rw (e, n) (read_byte_array16-append front c back h)

counted : (front c : Bytes) (n : ℕ) → length (front ++ n ∷ c) ≡ length front + 1 + length c
counted front c n = omega (arith, length-append front (n ∷ c))

parse_references-append :
    (o : EstablishPaceChannelOutput) (front curr prev icc : Bytes)
    → length curr < 256
    → length prev < 256
    → length icc < 65536
    → parse_references o (front ++ references curr prev icc) (length front)
      ≡ some (record o { car_curr = curr; car_prev = prev; id_icc = icc })
unfolding parse_references
parse_references-append o front curr prev icc hc hp h =
    let input = front ++ references curr prev icc in
    let back1 = bytes16 (length icc) ++ (icc ++ []) in
    let back0 = length prev ∷ (prev ++ back1) in
    let front1 = front ++ length curr ∷ curr in
    let front2 = front1 ++ length prev ∷ prev in
    let i1 = length front + 1 + length curr in
    let i2 = i1 + 1 + length prev in
    let n1 : i1 ≡ length front1 = sym (counted front curr (length curr)) in
    let n2 : i2 ≡ length front2 = omega (arith, n1, counted front1 prev (length prev)) in
    let e0 = read_byte_array8_at input front curr back0 (length front) refl refl hc in
    let e1 = read_byte_array8_at input front1 prev back1 i1 (simp append_assoc) n1 hp in
    let e2 = read_byte_array16_at input front2 icc [] i2 (simp append_assoc) n2 h in rw (e0, e1, e2)

-- An answer of a reader: the return code, the length of the rest, the status, and four fields, each
-- behind its length.
abbrev pub answer : (code sw1 sw2 : ℕ) (access curr prev icc : Bytes) → Bytes
answer code sw1 sw2 access curr prev icc =
    let body = sw1 ∷ sw2 ∷ (bytes16 (length access) ++ (access ++ references curr prev icc)) in
    bytes32 code ++ (bytes16 (length body) ++ body)

header_u16 :
    (a b c d e f g h : ℕ) (back : Bytes)
    → (read_u16 (a ∷ b ∷ c ∷ d ∷ e ∷ f ∷ g ∷ h ∷ back) 6 ≡ some (g + 256 * h))
      × (read_u16 (a ∷ b ∷ c ∷ d ∷ e ∷ f ∷ g ∷ h ∷ back) 4 ≡ some (e + 256 * f))
      × (read_u32 (a ∷ b ∷ c ∷ d ∷ e ∷ f ∷ g ∷ h ∷ back) 0
          ≡ some (a + 256 * b + 65536 * (c + 256 * d)))
unfolding read_u16 read_u32 read_byte
header_u16 a b c d e f g h back = (ground arith, ground arith, ground arith)

-- `parse_references` where the input is only known to be equal to such.
parse_references_at :
    (o : EstablishPaceChannelOutput) (input front curr prev icc : Bytes) (i : ℕ)
    → input ≡ front ++ references curr prev icc
    → i ≡ length front
    → length curr < 256
    → length prev < 256
    → length icc < 65536
    → parse_references o input i
      ≡ some (record o { car_curr = curr; car_prev = prev; id_icc = icc })
parse_references_at o input front curr prev icc i e n hc hp h =
    rw (e, n) (parse_references-append o front curr prev icc hc hp h)

behind_access :
    (access back : Bytes) (b : ℕ) (n : ℕ)
    → n ≡ length (access ++ b ∷ back)
    → leb (10 + n) (8 + 2 + length access) ≡ false
behind_access access back b n e = ground (arith, length-append access (b ∷ back))

parse_data-answer :
    (o : EstablishPaceChannelOutput) (a b c d e f sw1 sw2 : ℕ) (access curr prev icc : Bytes)
    → length access < 65536
    → length curr < 256
    → length prev < 256
    → length icc < 65536
    → parse_data o (
        a
        ∷ b
        ∷ c
        ∷ d
        ∷ e
        ∷ f
        ∷ sw1
        ∷ sw2
        ∷ (bytes16 (length access) ++ (access ++ references curr prev icc)))
      ≡ some (record o { ef_card_access = access; car_curr = curr; car_prev = prev; id_icc = icc })
unfolding parse_data
parse_data-answer o a b c d e f sw1 sw2 access curr prev icc ha hc hp hi =
    let header = a ∷ b ∷ c ∷ d ∷ e ∷ f ∷ sw1 ∷ sw2 ∷ [] in
    let back = references curr prev icc in
    let front = header ++ (bytes16 (length access) ++ access) in
    let input = header ++ (bytes16 (length access) ++ (access ++ back)) in
    let o' : EstablishPaceChannelOutput = record o { ef_card_access = access } in
    let e0 = (header_u16 a b c d e f sw1 sw2 (bytes16 (length access) ++ (access ++ back))).0 in
    let e1 = read_byte_array16_at input header access back 8 refl refl ha in
    let some_left : leb (length input) (8 + 2 + length access) ≡ false =
      ground (arith, length-append access back) in
    let e2 =
      parse_references_at o' input front curr prev icc (8 + 2 + length access) (simp append_assoc)
        (omega arith) hc hp hi in
    rw (e0, e1, some_left) e2

length-references :
    (curr prev icc : Bytes)
    → length (references curr prev icc) ≡ length curr + length prev + length icc + 4
length-references curr prev icc =
    let last = icc ++ [] in
    let back1 = bytes16 (length icc) ++ last in
    omega (
      arith,
      length-append curr (length prev ∷ (prev ++ back1)),
      length-append prev back1,
      length-append icc [],
    )

parse_sized-answer :
    (o : EstablishPaceChannelOutput) (p : PacePasswordId) (code size : ℕ) (input : Bytes)
    → read_u32 input 0 ≡ some code
    → read_u16 input 4 ≡ some size
    → length input ≡ 6 + size
    → 0 < size
    → parse o input p ≡ parse_data (record o { pace_return_code = parse_return_code code p }) input
unfolding parse parse_sized
parse_sized-answer o p code size input e0 e4 h k = ground arith

-- `parse` reads back what the layout holds: for a return code of 32 bits, two references of certification
-- authorities of at most 255 bytes, and fields whose total fits the 16 bits of the length, the four
-- fields are found, and the return code is the one that
-- `parse_return_code` gives; the status bytes do not matter.
pub parse-answer :
    (o : EstablishPaceChannelOutput) (p : PacePasswordId) (code sw1 sw2 : ℕ)
    (access curr prev icc : Bytes)
    → code < 2 ^ 32
    → length curr < 256
    → length prev < 256
    → length access + length curr + length prev + length icc + 8 < 65536
    → parse o (answer code sw1 sw2 access curr prev icc) p
      ≡ some (record o {
        pace_return_code = parse_return_code code p;
        ef_card_access = access;
        car_curr = curr;
        car_prev = prev;
        id_icc = icc;
      })
parse-answer o p code sw1 sw2 access curr prev icc h hc hp k =
    let back = references curr prev icc in
    let tail = bytes16 (length access) ++ (access ++ back) in
    let size = length (sw1 ∷ sw2 ∷ tail) in
    let size_lt : size < 65536 =
      omega (arith, length-append access back, length-references curr prev icc) in
    let a = code % 256 in
    let b = code / 256 % 256 in
    let c = code / 65536 % 256 in
    let d = code / 16777216 in
    let input = answer code sw1 sw2 access curr prev icc in
    let o' : EstablishPaceChannelOutput = record o {
      pace_return_code = parse_return_code code p;
    } in
    let (_, e4, e0) = header_u16 a b c d (size % 256) (size / 256) sw1 sw2 tail in
    let whole : a + 256 * b + 65536 * (c + 256 * d) ≡ code = omega arith in
    let sized : size % 256 + 256 * (size / 256) ≡ size = omega arith in
    parse_sized-answer o p code size input (e0 ∙ ap some whole) (e4 ∙ ap some sized) (omega arith)
      (omega arith)
    ∙ parse_data-answer o' a b c d (size % 256) (size / 256) sw1 sw2 access curr prev icc
        (omega arith) hc hp (omega arith)

-- An answer that announces one or two bytes of data, and holds just these, makes `parse` read behind
-- the end of the array.
pub parse_overread :
    (o : EstablishPaceChannelOutput) (p : PacePasswordId) (a b c d e f sw1 : ℕ) (sw2 : Bytes)
    → e + 256 * f ≡ 1 + length sw2
    → length sw2 ≤ 1
    → parse o (a ∷ b ∷ c ∷ d ∷ e ∷ f ∷ sw1 ∷ sw2) p ≡ none
unfolding parse parse_sized parse_data read_u32 read_u16 read_byte read_byte_array16
parse_overread o p a b c d e f sw1 [] h k = ground arith
parse_overread o p a b c d e f sw1 (sw2 ∷ []) h k = ground arith
parse_overread o p a b c d e f sw1 (sw2 ∷ x ∷ rest) h k = absurd (omega arith)
