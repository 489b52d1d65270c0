-- ===== src/Apdu/Command/RoundTrip.antt =====
-- What the accessors read back from a command that the constructor wrote.
use ausweis_app2_omapi.Prelude.{
  ℕ, ◌+◌, ◌≤◌, ◌<◌, ◌≡◌, refl, ap, ◌∙◌, ◌≢◌, ◌⊎◌, inl, inr, ◌∷◌, [], ◌++◌, Bytes, length, arith,
  ltb, ◌||◌, Bool-cases, length-append, get_or-behind, take-append, take-nil, high_byte, low_byte,
  if◌then◌else◌,
}
use ausweis_app2_omapi.Apdu.Command.{
  CommandApdu, create, get_cla, get_ins, get_p1, get_p2, get_lc, get_le, get_data, le_field, le_of,
  data_of,
}

-- The parts that were put in come out again.
pub record ReadsBack (c : CommandApdu) (cla ins p1 p2 : ℕ) (bs : Bytes) (le : ℕ) : Type 0 where
  pub cla_back : get_cla c ≡ cla
  pub ins_back : get_ins c ≡ ins
  pub p1_back : get_p1 c ≡ p1
  pub p2_back : get_p2 c ≡ p2
  pub lc_back : get_lc c ≡ length bs
  pub data_back : get_data c ≡ bs
  pub le_back : get_le c ≡ le

no_data :
    (cla ins p1 p2 le : ℕ)
    → (le ≤ 256) ⊎ (le ≡ 65536)
    → ReadsBack (create cla ins p1 p2 [] le) cla ins p1 p2 [] le
unfolding create get_cla get_ins get_p1 get_p2 get_lc get_le get_data
no_data cla ins p1 p2 le h = ground arith

short_data :
    (cla ins p1 p2 b : ℕ) (bs : Bytes) (le : ℕ)
    → length (b ∷ bs) ≤ 255
    → le ≤ 256
    → ReadsBack (create cla ins p1 p2 (b ∷ bs) le) cla ins p1 p2 (b ∷ bs) le
unfolding create get_cla get_ins get_p1 get_p2 get_lc get_le get_data
short_data cla ins p1 p2 b bs le h k = ground (
  arith,
  length-append bs (le_field (b ∷ bs) le),
  get_or-behind bs (le_field (b ∷ bs) le) (length bs) 0 0,
  take-append bs (le_field (b ∷ bs) le),
)

-- The buffer of a command with an extended length, and what stands behind its data.
abbrev extended : (cla ins p1 p2 b : ℕ) (bs rest : Bytes) → CommandApdu
extended cla ins p1 p2 b bs rest = record {
  buffer =
      cla
      ∷ ins
      ∷ p1
      ∷ p2
      ∷ 0
      ∷ high_byte (length (b ∷ bs))
      ∷ low_byte (length (b ∷ bs))
      ∷ b
      ∷ (bs ++ rest);
}

abbrev extended_le : ℕ → Bytes
extended_le le = if ltb 0 le then high_byte le ∷ low_byte le ∷ [] else []

extended_shape :
    (cla ins p1 p2 b : ℕ) (bs : Bytes) (le : ℕ)
    → length (b ∷ bs) ≤ 65535
    → le ≤ 65536
    → (256 ≤ length (b ∷ bs)) ⊎ (257 ≤ le)
    → create cla ins p1 p2 (b ∷ bs) le ≡ extended cla ins p1 p2 b bs (extended_le le)
unfolding create
extended_shape cla ins p1 p2 b bs le h k e = ground arith

extended_lc :
    (cla ins p1 p2 b : ℕ) (bs rest : Bytes)
    → length (b ∷ bs) ≤ 65535
    → get_lc (extended cla ins p1 p2 b bs rest) ≡ length (b ∷ bs)
unfolding get_lc
extended_lc cla ins p1 p2 b bs rest h = ground (arith, length-append bs rest)

extended_back :
    (cla ins p1 p2 b : ℕ) (bs : Bytes) (le : ℕ)
    → length (b ∷ bs) ≤ 65535
    → le ≤ 65536
    → le_of (extended cla ins p1 p2 b bs (extended_le le)).buffer (length (b ∷ bs)) ≡ le
unfolding le_of
extended_back cla ins p1 p2 b bs le h k =
    let rest = extended_le le in
    ground (
      arith,
      length-append bs rest,
      get_or-behind bs rest (length bs) 0 0,
      get_or-behind bs rest (length bs + 1) 1 0,
    )

extended_bytes :
    (cla ins p1 p2 b : ℕ) (bs rest : Bytes)
    → data_of (extended cla ins p1 p2 b bs rest).buffer (length (b ∷ bs)) ≡ b ∷ bs
unfolding data_of
extended_bytes cla ins p1 p2 b bs rest = ground (arith, take-append bs rest)

get_data_lem : (c : CommandApdu) → get_data c ≡ data_of c.buffer (get_lc c)
unfolding get_data get_lc
get_data_lem c = refl

get_le_lem : (c : CommandApdu) → get_le c ≡ le_of c.buffer (get_lc c)
unfolding get_le get_lc
get_le_lem c = refl

extended-ReadsBack :
    (cla ins p1 p2 b : ℕ) (bs : Bytes) (le : ℕ)
    → length (b ∷ bs) ≤ 65535
    → le ≤ 65536
    → ReadsBack (extended cla ins p1 p2 b bs (extended_le le)) cla ins p1 p2 (b ∷ bs) le
unfolding get_cla get_ins get_p1 get_p2
extended-ReadsBack cla ins p1 p2 b bs le h k = record {
  cla_back = refl;
  ins_back = refl;
  p1_back = refl;
  p2_back = refl;
  lc_back = counted;
  data_back =
      get_data_lem c
      ∙ ap (data_of c.buffer) counted
      ∙ extended_bytes cla ins p1 p2 b bs (extended_le le);
  le_back = get_le_lem c ∙ ap (le_of c.buffer) counted ∙ extended_back cla ins p1 p2 b bs le h k;
}
  where
    c : CommandApdu
    c = extended cla ins p1 p2 b bs (extended_le le)

    counted : get_lc c ≡ length (b ∷ bs)
    counted = extended_lc cla ins p1 p2 b bs (extended_le le) h

-- The constructor and the accessors fit: of data of at most 0xFFFF bytes and an expected length of at
-- most 0x10000, the header, the data, their length and the expected length are read back, unless the
-- data are empty and the expected length lies strictly between 0x100 and 0x10000.
pub create-ReadsBack :
    (cla ins p1 p2 : ℕ) (bs : Bytes) (le : ℕ)
    → length bs ≤ 65535
    → le ≤ 65536
    → (bs ≢ []) ⊎ ((le ≤ 256) ⊎ (le ≡ 65536))
    → ReadsBack (create cla ins p1 p2 bs le) cla ins p1 p2 bs le
create-ReadsBack cla ins p1 p2 [] le h k (inl some_data) = absurd (some_data refl)
create-ReadsBack cla ins p1 p2 [] le h k (inr fits) = no_data cla ins p1 p2 le fits
create-ReadsBack cla ins p1 p2 (b ∷ bs) le h k _ =
    elim (Bool-cases (ltb 255 (length (b ∷ bs)) || ltb 256 le)) [
      | inl e ↦
          rw (extended_shape cla ins p1 p2 b bs le h k (ground arith))
            (extended-ReadsBack cla ins p1 p2 b bs le h k)
      | inr e ↦ short_data cla ins p1 p2 b bs le (ground arith) (ground arith)
    ]

-- The case that is left out: without data, an expected length between 0x100 and 0x10000 is taken for
-- the length of the data, and both the expected length and the data are lost.
pub extended_le_lost :
    (cla ins p1 p2 le : ℕ)
    → 256 < le
    → le < 65536
    → let c = create cla ins p1 p2 [] le in (get_lc c ≡ le) × (get_le c ≡ 0) × (get_data c ≡ [])
unfolding create get_lc get_le get_data
extended_le_lost cla ins p1 p2 le h k = ground (arith, take-nil {A = ℕ} le)
