-- ===== src/Apdu/Response/Status.antt =====
-- What a response with a status at its end tells.
use ausweis_app2_omapi.Prelude.{
  ℕ, ◌+◌, ◌-◌, ◌<◌, ◌≡◌, refl, ap, ◌∙◌, true, false, if◌then◌else◌, List, [], ◌∷◌, ◌++◌, Bytes,
  arith, All, is_empty, big_endian-high_byte, ◌↔◌, ◌≤◌, length, length-append, take-append,
  drop-append, get_or-behind, high_byte, low_byte, big_endian, ℤ, pos, negsuc, take, drop,
}
use ausweis_app2_omapi.Global.ReturnCode.{CardReturnCode}
use ausweis_app2_omapi.Apdu.StatusCode.{status_codes, sw1_values, is_value, invalid}
use ausweis_app2_omapi.Apdu.Response.{
  ResponseApdu, of_status, get_data, get_return_code, get_sw1, get_sw2, get_retry_counter,
  get_card_return_code, right_two, retry_counter_of, card_return_code_of,
}

abbrev with_status : Bytes → ℕ → ℕ → ResponseApdu
with_status bs hi lo = record { buffer = bs ++ hi ∷ lo ∷ [] }

two_more : (bs : Bytes) (hi lo : ℕ) → length (bs ++ hi ∷ lo ∷ []) ≡ length bs + 2
two_more bs hi lo = length-append bs (hi ∷ lo ∷ [])

right_two-append : (bs : Bytes) (hi lo : ℕ) → right_two (bs ++ hi ∷ lo ∷ []) ≡ hi ∷ lo ∷ []
right_two-append bs hi lo =
    ap (λ n. drop n (bs ++ hi ∷ lo ∷ [])) (omega (arith, two_more bs hi lo))
    ∙ drop-append bs (hi ∷ lo ∷ [])

is_empty-append : (bs : Bytes) (b : ℕ) (rest : Bytes) → is_empty (bs ++ b ∷ rest) ≡ false
is_empty-append [] b rest = refl
is_empty-append (x ∷ bs) b rest = refl

get_data-append : (bs : Bytes) (hi lo : ℕ) → get_data (with_status bs hi lo) ≡ bs
unfolding get_data
get_data-append bs hi lo =
    let all = bs ++ hi ∷ lo ∷ [] in
    let counted : length all - 2 ≡ length bs = omega (arith, two_more bs hi lo) in
    let cut : take (length all - 2) all ≡ bs =
      ap (λ n. take n all) counted ∙ take-append bs (hi ∷ lo ∷ []) in
    ground (arith, two_more bs hi lo, cut)

get_return_code-append :
    (bs : Bytes) (hi lo : ℕ)
    → get_return_code (with_status bs hi lo)
      ≡ (if is_value status_codes (big_endian hi lo) then big_endian hi lo else invalid)
unfolding get_return_code
get_return_code-append bs hi lo = rw (is_empty-append bs hi (lo ∷ []), right_two-append bs hi lo)

-- Data followed by two status bytes: the accessors split them again. The data come back, the return
-- code is the number of the two bytes if the enumeration has it and `INVALID` if not, and SW1 and SW2
-- are the two bytes, SW1 replaced by zero where its enumeration lacks it.
pub status-append :
    (bs : Bytes) (hi lo : ℕ)
    → let r = with_status bs hi lo in
      (get_data r ≡ bs)
      × (get_return_code r
          ≡ (if is_value status_codes (big_endian hi lo) then big_endian hi lo else invalid))
      × (get_sw1 r ≡ (if is_value sw1_values hi then hi else 0))
      × (get_sw2 r ≡ lo)
unfolding get_sw1 get_sw2
status-append bs hi lo =
    let size = length (bs ++ hi ∷ lo ∷ []) in
    (
      get_data-append bs hi lo,
      get_return_code-append bs hi lo,
      ground (arith, two_more bs hi lo, get_or-behind bs (hi ∷ lo ∷ []) (size - 2) 0 0),
      ground (arith, two_more bs hi lo, get_or-behind bs (hi ∷ lo ∷ []) (size - 1) 1 0),
    )

is_value_below : (n v : ℕ) (xs : List ℕ) → All (λ x. x < n) xs → is_value xs v ≡ true → v < n
unfolding is_value
is_value_below n v [] all h = cc
is_value_below n v (x ∷ xs) all h = ground (arith, is_value_below n v xs all.1)

status_codes_below : All (λ x. x < 65536) status_codes
status_codes_below = omega arith

-- A response that is made of a status code of the enumeration has no data, and gives the code back.
pub get_return_code-of_status :
    (code : ℕ)
    → is_value status_codes code ≡ true
    → (get_return_code (of_status code) ≡ code) × (get_data (of_status code) ≡ [])
unfolding of_status
get_return_code-of_status code h =
    let below : code < 65536 = is_value_below 65536 code status_codes status_codes_below h in
    let same : big_endian (high_byte code) (low_byte code) ≡ code =
      big_endian-high_byte code below in
    (
      get_return_code-append [] (high_byte code) (low_byte code) ∙ rw (same, h),
      get_data-append [] (high_byte code) (low_byte code),
    )

-- -1, or a number of tries up to 3.
abbrev pub IsRetryCounter : ℤ → Type 0
IsRetryCounter (pos n) = n ≤ 3
IsRetryCounter (negsuc n) = n ≡ 0

codes_agree :
    (code : ℕ)
    → ((card_return_code_of code ≡ CardReturnCode.ok) ↔ (retry_counter_of code ≡ pos 3))
      × IsRetryCounter (retry_counter_of code)
unfolding card_return_code_of retry_counter_of
codes_agree code = ((λ h. ground arith, λ h. ground arith), ground arith)

-- Whatever bytes a card sends, the retry counter is 3 exactly when the command was successful, and it is
-- -1 or at most 3.
pub get_retry_counter-get_card_return_code :
    (r : ResponseApdu)
    → ((get_card_return_code r ≡ CardReturnCode.ok) ↔ (get_retry_counter r ≡ pos 3))
      × IsRetryCounter (get_retry_counter r)
unfolding get_card_return_code get_retry_counter
get_retry_counter-get_card_return_code r = codes_agree (get_return_code r)

blocked_code :
    (code : ℕ)
    → card_return_code_of code ≡ CardReturnCode.pin_blocked
    → retry_counter_of code ≡ pos 0
unfolding card_return_code_of retry_counter_of
blocked_code code h = ground arith

-- Where a response reports that the PIN is blocked, the retry counter is 0.
pub get_retry_counter-blocked :
    (r : ResponseApdu)
    → get_card_return_code r ≡ CardReturnCode.pin_blocked
    → get_retry_counter r ≡ pos 0
unfolding get_card_return_code get_retry_counter
get_retry_counter-blocked r h = blocked_code (get_return_code r) h
