-- ===== src/Prelude/Bits.antt =====
-- The bits of a number, by position from the lowest.
use Prim.Native.Nat.{ℕ, zero, suc, ◌+◌, ◌*◌, ◌/◌, ◌%◌, ◌^◌, ◌<◌}
use mathlib.Core.Path.{◌≡◌, ap, ◌∙◌}
use mathlib.Core.Bool.{Bool, true, false}
use native.Mathlib.Omega.{arith}
use ausweis_app2_omapi.Prelude.Tests.{◌==◌, if◌then◌else◌}

-- `(n & (1 << i)) == (1 << i)`
unfoldable pub test_bit : ℕ → ℕ → Bool
test_bit n zero = n % 2 == 1
test_bit n (suc i) = test_bit (n / 2) i

-- `n | (1 << i)` and `n & ~(1 << i)`
unfoldable pub write_bit : ℕ → ℕ → Bool → ℕ
write_bit n zero true = n / 2 * 2 + 1
write_bit n zero false = n / 2 * 2
write_bit n (suc i) on = write_bit (n / 2) i on * 2 + n % 2

half : (n r : ℕ) → r < 2 → (n * 2 + r) / 2 ≡ n
half n r h = omega arith

pub test_bit-write_bit :
    (i j : ℕ) (n : ℕ) (on : Bool)
    → test_bit (write_bit n i on) j ≡ (if i == j then on else test_bit n j)
unfolding test_bit write_bit
test_bit-write_bit zero zero n true = ground arith
test_bit-write_bit zero zero n false = ground arith
test_bit-write_bit zero (suc j) n true =
    let same : (n / 2 * 2 + 1) / 2 ≡ n / 2 = omega arith in
    let e : test_bit ((n / 2 * 2 + 1) / 2) j ≡ test_bit (n / 2) j = ap (λ m. test_bit m j) same in
    ground (arith, e)
test_bit-write_bit zero (suc j) n false =
    let same : n / 2 * 2 / 2 ≡ n / 2 = omega arith in
    let e : test_bit (n / 2 * 2 / 2) j ≡ test_bit (n / 2) j = ap (λ m. test_bit m j) same in
    ground (arith, e)
test_bit-write_bit (suc i) zero n on =
    let e : (write_bit (n / 2) i on * 2 + n % 2) % 2 ≡ n % 2 = omega arith in ground (arith, e)
test_bit-write_bit (suc i) (suc j) n on =
    let same : (write_bit (n / 2) i on * 2 + n % 2) / 2 ≡ write_bit (n / 2) i on =
      half (write_bit (n / 2) i on) (n % 2) (omega arith) in
    let e : test_bit ((write_bit (n / 2) i on * 2 + n % 2) / 2) j
        ≡ (if i == j then on else test_bit (n / 2) j) =
      ap (λ m. test_bit m j) same ∙ test_bit-write_bit i j (n / 2) on in
    ground (arith, e)

pub write_bit_bound : (k i n : ℕ) (on : Bool) → i < k → n < 2 ^ k → write_bit n i on < 2 ^ k
unfolding write_bit
write_bit_bound zero i n on h l = omega arith
write_bit_bound (suc k) zero n true h l = omega arith
write_bit_bound (suc k) zero n false h l = omega arith
write_bit_bound (suc k) (suc i) n on h l =
    let rest : write_bit (n / 2) i on < 2 ^ k =
      write_bit_bound k i (n / 2) on (omega arith) (omega arith) in
    omega (arith, rest)

double : (a k : ℕ) → a * 2 ^ suc k ≡ a * 2 ^ k * 2
double a k = grind arith

-- A number of k bits below another number.
pub test_bit-low : (k i a b : ℕ) → i < k → test_bit (a * 2 ^ k + b) i ≡ test_bit b i
unfolding test_bit
test_bit-low zero i a b h = grind arith
test_bit-low (suc k) zero a b h =
    let d : a * 2 ^ suc k ≡ a * 2 ^ k * 2 = double a k in
    let e : (a * 2 ^ suc k + b) % 2 ≡ b % 2 = omega (arith, d) in ap (λ m. m == 1) e
test_bit-low (suc k) (suc i) a b h =
    let d : a * 2 ^ suc k ≡ a * 2 ^ k * 2 = double a k in
    let e : (a * 2 ^ suc k + b) / 2 ≡ a * 2 ^ k + b / 2 = omega (arith, d) in
    ap (λ m. test_bit m i) e ∙ test_bit-low k i a (b / 2) (omega arith)

pub test_bit-high : (k i a b : ℕ) → b < 2 ^ k → test_bit (a * 2 ^ k + b) (k + i) ≡ test_bit a i
unfolding test_bit
test_bit-high zero i a b h =
    let e : a * 2 ^ 0 + b ≡ a = omega arith in
    let e2 : 0 + i ≡ i = omega arith in ap (λ m. test_bit m (0 + i)) e ∙ ap (test_bit a) e2
test_bit-high (suc k) i a b h =
    let e : suc k + i ≡ suc (k + i) = omega arith in
    let d : a * 2 ^ suc k ≡ a * 2 ^ k * 2 = double a k in
    let e2 : (a * 2 ^ suc k + b) / 2 ≡ a * 2 ^ k + b / 2 = omega (arith, d) in
    ap (test_bit (a * 2 ^ suc k + b)) e
    ∙ ap (λ m. test_bit m (k + i)) e2
    ∙ test_bit-high k i a (b / 2) (omega arith)

pub write_bit-low :
    (k i a b : ℕ) (on : Bool)
    → i < k
    → write_bit (a * 2 ^ k + b) i on ≡ a * 2 ^ k + write_bit b i on
unfolding write_bit
write_bit-low zero i a b on h = grind arith
write_bit-low (suc k) zero a b true h =
    let d : a * 2 ^ suc k ≡ a * 2 ^ k * 2 = double a k in omega (arith, d)
write_bit-low (suc k) zero a b false h =
    let d : a * 2 ^ suc k ≡ a * 2 ^ k * 2 = double a k in omega (arith, d)
write_bit-low (suc k) (suc i) a b on h =
    let d : a * 2 ^ suc k ≡ a * 2 ^ k * 2 = double a k in
    let e : (a * 2 ^ suc k + b) / 2 ≡ a * 2 ^ k + b / 2 = omega (arith, d) in
    let rest : write_bit ((a * 2 ^ suc k + b) / 2) i on ≡ a * 2 ^ k + write_bit (b / 2) i on =
      ap (λ m. write_bit m i on) e ∙ write_bit-low k i a (b / 2) on (omega arith) in
    omega (arith, d, rest)

pub write_bit-high :
    (k i a b : ℕ) (on : Bool)
    → b < 2 ^ k
    → write_bit (a * 2 ^ k + b) (k + i) on ≡ write_bit a i on * 2 ^ k + b
unfolding write_bit
write_bit-high zero i a b on h =
    let e : a * 2 ^ 0 + b ≡ a = omega arith in
    let e2 : 0 + i ≡ i = omega arith in
    let rest : write_bit (a * 2 ^ 0 + b) (0 + i) on ≡ write_bit a i on =
      ap (λ m. write_bit m (0 + i) on) e ∙ ap (λ j. write_bit a j on) e2 in
    omega (arith, rest)
write_bit-high (suc k) i a b on h =
    let e : suc k + i ≡ suc (k + i) = omega arith in
    let d : a * 2 ^ suc k ≡ a * 2 ^ k * 2 = double a k in
    let d2 : write_bit a i on * 2 ^ suc k ≡ write_bit a i on * 2 ^ k * 2 =
      double (write_bit a i on) k in
    let e2 : (a * 2 ^ suc k + b) / 2 ≡ a * 2 ^ k + b / 2 = omega (arith, d) in
    let rest : write_bit ((a * 2 ^ suc k + b) / 2) (k + i) on ≡ write_bit a i on * 2 ^ k + b / 2 =
      ap (λ m. write_bit m (k + i) on) e2 ∙ write_bit-high k i a (b / 2) on (omega arith) in
    ap (λ j. write_bit (a * 2 ^ suc k + b) j on) e
    ∙ (let last : write_bit (a * 2 ^ suc k + b) (suc (k + i)) on
            ≡ write_bit a i on * 2 ^ suc k + b =
          omega (arith, d, d2, rest) in
        last)
