-- ===== src/Apdu/StatusCode.antt =====
-- src/card/base/ResponseApdu.h: the two enumerations of a response. Their values are numbers, since the
-- code casts any 16 bits to `StatusCode`.
use ausweis_app2_omapi.Prelude.{ℕ, Bool, false, ◌||◌, ◌==◌, List, [], ◌∷◌}

abbrev pub empty : ℕ
empty = 0x0000

abbrev pub invalid : ℕ
invalid = 0x0001

abbrev pub success : ℕ
success = 0x9000

abbrev pub pin_deactivated : ℕ
pin_deactivated = 0x6283

abbrev pub input_timeout : ℕ
input_timeout = 0x6400

abbrev pub input_cancelled : ℕ
input_cancelled = 0x6401

abbrev pub passwords_differ : ℕ
passwords_differ = 0x6402

abbrev pub password_outof_range : ℕ
password_outof_range = 0x6403

abbrev pub pin_blocked : ℕ
pin_blocked = 0x63c0

abbrev pub pin_suspended : ℕ
pin_suspended = 0x63c1

abbrev pub pin_retry_count_2 : ℕ
pin_retry_count_2 = 0x63c2

-- The enumerators of `StatusCode`, in their order.
abbrev pub status_codes : List ℕ
status_codes =
    0x0000 ∷ 0x0001 ∷ 0x9000 ∷ 0x6200 ∷ 0x6282 ∷ 0x6283 ∷ 0x6284 ∷ 0x6300 ∷ 0x6400 ∷ 0x6401 ∷ 0x6402
    ∷ 0x6403 ∷ 0x64a2 ∷ 0x6581 ∷ 0x6600 ∷ 0x6700 ∷ 0x6981 ∷ 0x6883 ∷ 0x6982 ∷ 0x6983 ∷ 0x6984
    ∷ 0x6985 ∷ 0x6985 ∷ 0x6986 ∷ 0x6987 ∷ 0x6988 ∷ 0x69f0 ∷ 0x6a80 ∷ 0x6a81 ∷ 0x6a82 ∷ 0x6a83
    ∷ 0x6a86 ∷ 0x6a87 ∷ 0x6a88 ∷ 0x6b00 ∷ 0x6e00 ∷ 0x6410 ∷ 0x6a00 ∷ 0x6d00 ∷ 0x63c0 ∷ 0x63c1
    ∷ 0x63c2 ∷ []

-- The enumerators of `SW1`, in their order.
abbrev pub sw1_values : List ℕ
sw1_values =
    0x00 ∷ 0x61 ∷ 0x62 ∷ 0x63 ∷ 0x64 ∷ 0x65 ∷ 0x66 ∷ 0x67 ∷ 0x68 ∷ 0x69 ∷ 0x6a ∷ 0x6b ∷ 0x6c ∷ 0x6d
    ∷ 0x6e ∷ 0x6f ∷ 0x90 ∷ []

-- `Enum<T>::isValue`
unfoldable pub is_value : List ℕ → ℕ → Bool
is_value [] v = false
is_value (x ∷ xs) v = x == v || is_value xs v
