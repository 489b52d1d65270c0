-- ===== src/Card/SecureMessaging/Padding.antt =====
-- The padding can be taken off again, and the parts of a secured command can be read.
use native.Mathlib.Nat.{mod-add-mod, mod_self, mod-lt}
use ausweis_app2_omapi.Prelude.{
  ℕ, zero, suc, ◌+◌, ◌-◌, ◌%◌, ◌^◌, ◌≤◌, ◌<◌, ◌≡◌, refl, ap, sym, ◌∙◌, ◌⊎◌, inr, true, false, not,
  if◌then◌else◌, ◌==◌, none, some, [], ◌∷◌, ◌++◌, Bytes, length, length-append, take, take-append,
  replicate, length-replicate, arith,
}
use ausweis_app2_omapi.Apdu.Command.{
  CommandApdu, create, create_with_header, get_ins, get_p1, get_p2, get_cla, get_le,
}
use ausweis_app2_omapi.Apdu.Command.RoundTrip.{ReadsBack, create-ReadsBack}
use ausweis_app2_omapi.Card.SecureMessaging.{
  iso_leading_pad_byte, padding_size, pad_to_cipher_block_size, last_index_of, cut_at,
  unpad_from_cipher_block_size, Crypto, encrypt, secured_data, secured_cla, create_new_le,
  create_secured_header,
}

no_pad_byte : (k : ℕ) → last_index_of iso_leading_pad_byte (replicate k 0) ≡ none
unfolding last_index_of
no_pad_byte zero = refl
no_pad_byte (suc k) = let rest = no_pad_byte k in ground (arith, rest)

last_index_of-append :
    (bs : Bytes) (k : ℕ)
    → last_index_of iso_leading_pad_byte (bs ++ (iso_leading_pad_byte ∷ replicate k 0))
      ≡ some (length bs)
unfolding last_index_of
last_index_of-append [] k = let rest = no_pad_byte k in ground (arith, rest)
last_index_of-append (b ∷ bs) k = let rest = last_index_of-append bs k in ground (arith, rest)

padded_length :
    (n : ℕ) (bs : Bytes)
    → 0 < n
    → length (pad_to_cipher_block_size n bs) ≡ length bs + padding_size n (length bs)
unfolding pad_to_cipher_block_size
padded_length n bs h =
    let size = length bs in
    let rest : Bytes = replicate (padding_size n size - 1) 0 in
    let filled : length rest ≡ padding_size n size - 1 =
      length-replicate (padding_size n size - 1) 0 in
    let below : size % n < n = mod-lt size h in
    let some_pad : 0 < padding_size n size = ground (arith, below) in
    let split : length (bs ++ (iso_leading_pad_byte ∷ rest)) ≡ size + suc (length rest) =
      length-append bs (iso_leading_pad_byte ∷ rest) in
    split ∙ (let e : size + suc (length rest) ≡ size + padding_size n size = omega arith in e)

full_block : (n r : ℕ) → r < n → (r + (if r == 0 then n else n - r)) % n ≡ 0
full_block n r h =
    let whole : r + (if r == 0 then n else n - r) ≡ n = ground arith in
    ap (λ k. k % n) whole ∙ mod_self n

-- The padding fills the last block.
pub length-pad_to_cipher_block_size :
    (n : ℕ) (bs : Bytes) → 0 < n → length (pad_to_cipher_block_size n bs) % n ≡ 0
length-pad_to_cipher_block_size n bs h =
    let size = length bs in
    ap (λ k. k % n) (padded_length n bs h)
    ∙ sym (mod-add-mod size n (padding_size n size))
    ∙ full_block n (size % n) (mod-lt size h)

-- For a block size that is not zero, data that are padded and unpadded are the data again.
pub unpad-pad_to_cipher_block_size :
    (n : ℕ) (bs : Bytes)
    → 0 < n
    → unpad_from_cipher_block_size n (pad_to_cipher_block_size n bs) ≡ bs
unfolding unpad_from_cipher_block_size
unpad-pad_to_cipher_block_size n bs h =
    let padded = pad_to_cipher_block_size n bs in
    let blocks : not (length padded % n == 0) ≡ false =
      ap (λ k. not (k == 0)) (length-pad_to_cipher_block_size n bs h) in
    let found : cut_at (last_index_of iso_leading_pad_byte padded) padded
        ≡ take (length bs) padded =
      unfold pad_to_cipher_block_size in ap (λ o. cut_at o padded) (last_index_of-append bs _) in
    let cut : take (length bs) padded ≡ bs = unfold pad_to_cipher_block_size in take-append bs _ in
    ap (λ b. if b then [] else cut_at (last_index_of iso_leading_pad_byte padded) padded) blocks
    ∙ found
    ∙ cut

new_le_cases :
    (secured : Bytes) (old_le : ℕ)
    → (create_new_le secured old_le ≤ 65536)
      × ((create_new_le secured old_le ≤ 256) ⊎ (create_new_le secured old_le ≡ 65536))
unfolding create_new_le
new_le_cases secured old_le = ground arith

secured_command :
    (crypto : Crypto) (counter : ℕ) (c : CommandApdu)
    → crypto.is_initialized ≡ true
    → (encrypt crypto counter c).0
      ≡ create
          (secured_cla (get_cla c))
          (get_ins c)
          (get_p1 c)
          (get_p2 c)
          (secured_data crypto ((counter + 1) % 2 ^ 32) c)
          (create_new_le (secured_data crypto ((counter + 1) % 2 ^ 32) c) (get_le c))
unfolding encrypt create_with_header create_secured_header
secured_command crypto counter c h = rw h refl

-- Where the cipher and the MAC are initialized and the secured data fit a command, the secured command
-- has the instruction and the parameters of the plain one, the class with the mark of secure messaging,
-- and the expected length that `create_new_le` chooses; its data are the secured data under the next
-- counter.
pub encrypt-ReadsBack :
    (crypto : Crypto) (counter : ℕ) (c : CommandApdu)
    → crypto.is_initialized ≡ true
    → length (secured_data crypto ((counter + 1) % 2 ^ 32) c) ≤ 65535
    → ReadsBack
        ((encrypt crypto counter c).0)
        (secured_cla (get_cla c))
        (get_ins c)
        (get_p1 c)
        (get_p2 c)
        (secured_data crypto ((counter + 1) % 2 ^ 32) c)
        (create_new_le (secured_data crypto ((counter + 1) % 2 ^ 32) c) (get_le c))
encrypt-ReadsBack crypto counter c h fits =
    let secured = secured_data crypto ((counter + 1) % 2 ^ 32) c in
    let (bound, cases) = new_le_cases secured (get_le c) in
    rw (secured_command crypto counter c h) (
      create-ReadsBack (secured_cla (get_cla c)) (get_ins c) (get_p1 c) (get_p2 c) secured
        (create_new_le secured (get_le c)) fits bound (inr cases))
