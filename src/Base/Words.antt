-- ===== src/Base/Words.antt =====
-- Casts to the fixed widths and shifts. A C++ value of an unsigned type is the number, a value of
-- a signed type its two's complement bit pattern, so that a cast between `intN_t` and `uintN_t`
-- is the identity. A byte buffer is a list of numbers.
use Prim.Native.Nat.{ℕ, ◌*◌, ◌/◌, ◌%◌, ◌^◌, ◌<◌}
use mathlib.Core.List.{List}
use quadrf_mesh.Base.Lists.{length, All}

abbrev pub u8 : ℕ → ℕ
u8 n = n % 2 ^ 8

abbrev pub u16 : ℕ → ℕ
u16 n = n % 2 ^ 16

abbrev pub u32 : ℕ → ℕ
u32 n = n % 2 ^ 32

abbrev pub u64 : ℕ → ℕ
u64 n = n % 2 ^ 64

abbrev pub shl : ℕ → ℕ → ℕ
shl x k = x * 2 ^ k

abbrev pub shr : ℕ → ℕ → ℕ
shr x k = x / 2 ^ k

-- `x & (2^k - 1)`.
abbrev pub low_bits : ℕ → ℕ → ℕ
low_bits x k = x % 2 ^ k

abbrev pub IsByte : ℕ → Type 0
IsByte b = b < 256

abbrev pub IsBytes : List ℕ → Type 0
IsBytes = All IsByte

-- The arguments `const uint8_t* data, size_t length` of a function: a null pointer with the
-- length that comes with it, or the bytes that the pointer leads to.
pub data Span : Type 0 where
  null : ℕ → Span
  bytes : List ℕ → Span

abbrev pub span_length : Span → ℕ
span_length (null n) = n
span_length (bytes xs) = length xs
