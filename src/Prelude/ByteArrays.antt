-- ===== src/Prelude/ByteArrays.antt =====
-- Byte arrays: a QByteArray is a list of numbers below 256, and a `char` is its bit pattern.
use Prim.Native.Nat.{ℕ, ◌+◌, ◌*◌, ◌/◌, ◌%◌, ◌<◌}
use mathlib.Core.Path.{◌≡◌}
use mathlib.Core.List.{List, [], ◌∷◌}
use mathlib.Core.Bool.{Bool, true, false, ◌&&◌}
use native.Mathlib.Omega.{arith}
use ausweis_app2_omapi.Prelude.Tests.{◌==◌}
use ausweis_app2_omapi.Prelude.Lists.{take, drop}

abbrev pub Bytes : Type 0
Bytes = List ℕ

-- `QByteArray::mid(pos, len)` at a start that is not negative: cut at the end of the array.
abbrev pub mid : Bytes → ℕ → ℕ → Bytes
mid bs pos len = take len (drop pos bs)

abbrev pub is_empty {ℓ} : {A : Type ℓ} → List A → Bool
is_empty [] = true
is_empty (x ∷ xs) = false

-- `QByteArray::operator==`
abbrev pub bytes_eq : Bytes → Bytes → Bool
bytes_eq [] [] = true
bytes_eq (x ∷ xs) (y ∷ ys) = x == y && bytes_eq xs ys
bytes_eq _ _ = false

-- The two bytes of a number below 2 ^ 16, high byte first: `static_cast<char>(n >> 8 & 0xff)` and
-- `static_cast<char>(n & 0xff)`.
abbrev pub high_byte : ℕ → ℕ
high_byte n = n / 256 % 256

abbrev pub low_byte : ℕ → ℕ
low_byte n = n % 256

-- `qFromBigEndian<quint16>` at two bytes.
abbrev pub big_endian : ℕ → ℕ → ℕ
big_endian hi lo = hi * 256 + lo

pub big_endian-high_byte : (n : ℕ) → n < 65536 → big_endian (high_byte n) (low_byte n) ≡ n
big_endian-high_byte n h = omega arith
