-- ===== src/Base/Bits.antt =====
-- The bit operations of C++ at variables: the law of the lowest digit for each, then disjoint
-- fields joined by `|`, and the cancellation of `^`.
use Prim.Native.Nat.{ℕ, zero, suc, ◌+◌, ◌-◌, ◌*◌, ◌/◌, ◌%◌, ◌^◌, ◌≤◌, ◌<◌, max, differ, digits}
use Prim.Native.Nat.{bit_or, bit_xor, bit_or-bitwise, bit_xor-bitwise}
use mathlib.Core.Path.{◌≡◌, refl, sym, ap, ◌∙◌}
use native.Mathlib.Nat.{pow-suc}
use native.Mathlib.Omega.{arith}

-- `d` added to `n` by successors.
abbrev more : ℕ → ℕ → ℕ
more zero n = n
more (suc d) n = suc (more d n)

more_sum : (d n : ℕ) → more d n ≡ d + n
more_sum zero n = omega arith
more_sum (suc d) n = omega (arith, more_sum d n)

module _ (f : ℕ → ℕ → ℕ) where
  -- The digits of `x` and `y` joined by `f`, in as many rounds as the fuel allows.
  abbrev joined : ℕ → ℕ → ℕ → ℕ
  joined fuel x y = digits (λ rest. rest) f fuel x y

  -- Once the fuel reaches `x`, one round more changes nothing, and so do any number of them.
  one_more : (fuel x y : ℕ) → x ≤ fuel → joined (suc fuel) x y ≡ joined fuel x y
  one_more zero (suc x) y enough = absurd (omega arith)
  one_more (suc fuel) (suc x) y enough =
      ap (λ (t : ℕ). t * 2 + f (suc x % 2) (y % 2))
        (one_more fuel (suc x / 2) (y / 2) (omega arith))
  one_more zero zero y enough = refl
  one_more (suc fuel) zero y enough = refl

  spare : (d fuel x y : ℕ) → x ≤ fuel → joined (more d fuel) x y ≡ joined fuel x y
  spare zero fuel x y enough = refl
  spare (suc d) fuel x y enough =
      one_more (more d fuel) x y (omega (arith, more_sum d fuel)) ∙ spare d fuel x y enough

  joined-suc :
      (x y : ℕ)
      → joined (suc x) (suc x) y
        ≡ f (suc x % 2) (y % 2) + 2 * joined (suc x / 2) (suc x / 2) (y / 2)
  joined-suc x y =
      let half = suc x / 2 in
      let all_fuel : more (x - half) half ≡ x = omega (arith, more_sum (x - half) half) in
      omega (
        arith,
        ap (λ (t : ℕ). joined t half (y / 2)) all_fuel,
        spare (x - half) half half (y / 2) (omega arith),
      )

pub bit_or_halves : (x y : ℕ) → bit_or x y ≡ max (x % 2) (y % 2) + 2 * bit_or (x / 2) (y / 2)
bit_or_halves zero y = simp bit_or-bitwise (omega arith)
bit_or_halves (suc x) y = simp bit_or-bitwise (joined-suc max x y)

differ-zero : (b : ℕ) → differ 0 b ≡ b
differ-zero b = refl

pub bit_xor_halves : (x y : ℕ) → bit_xor x y ≡ differ (x % 2) (y % 2) + 2 * bit_xor (x / 2) (y / 2)
bit_xor_halves zero y = simp bit_xor-bitwise (omega (arith, differ-zero (y % 2)))
bit_xor_halves (suc x) y = simp bit_xor-bitwise (joined-suc differ x y)

zero-bit_or : (x : ℕ) → bit_or 0 x ≡ x
zero-bit_or x = simp bit_or-bitwise

-- Downwards from a bound, as the law halves its arguments.
or-zero_under : (bound x : ℕ) → x < suc bound → x ≡ bit_or x 0
or-zero_under zero x under =
    omega (arith, bit_or_halves x 0, ap (λ (t : ℕ). bit_or t 0) (halved x under), zero-bit_or 0)
  where
    halved : (x : ℕ) → x < 1 → x / 2 ≡ 0
    halved x under = omega arith
or-zero_under (suc bound) zero under = refl
or-zero_under (suc bound) (suc x) under =
    omega (arith, or-zero_under bound (suc x / 2) (omega arith), bit_or_halves (suc x) 0)

pub bit_or-zero : (x : ℕ) → bit_or x 0 ≡ x
bit_or-zero x = sym (or-zero_under x x (omega arith))

double : (q k : ℕ) → q * 2 ^ suc k ≡ 2 * (q * 2 ^ k)
double q k = omega (arith, ap (λ (t : ℕ). q * t) (pow-suc 2 k))

-- A field above `k` bits and a field within them, in either order.
pub bit_or-high_low : (k q r : ℕ) → r < 2 ^ k → bit_or (q * 2 ^ k) r ≡ q * 2 ^ k + r
bit_or-high_low zero q r fits = ground (arith, bit_or-zero q)
bit_or-high_low (suc k) q r fits = ground (
  arith,
  bit_or_halves (q * 2 ^ suc k) r,
  double q k,
  pow-suc 2 k,
  bit_or-high_low k q (r / 2) (omega (arith, pow-suc 2 k)),
)

pub bit_or-low_high : (k q r : ℕ) → r < 2 ^ k → bit_or r (q * 2 ^ k) ≡ q * 2 ^ k + r
bit_or-low_high zero q r fits = ground (arith, zero-bit_or q)
bit_or-low_high (suc k) q r fits = ground (
  arith,
  bit_or_halves r (q * 2 ^ suc k),
  double q k,
  pow-suc 2 k,
  bit_or-low_high k q (r / 2) (omega (arith, pow-suc 2 k)),
)

digit_cancel : (x y : ℕ) → x < 2 → y < 2 → (differ (differ x y) y ≡ x) × (differ x y < 2)
digit_cancel zero zero h k = omega arith
digit_cancel zero (suc zero) h k = omega arith
digit_cancel zero (suc (suc y)) h k = absurd (omega arith)
digit_cancel (suc zero) zero h k = omega arith
digit_cancel (suc zero) (suc zero) h k = omega arith
digit_cancel (suc zero) (suc (suc y)) h k = absurd (omega arith)
digit_cancel (suc (suc x)) y h k = absurd (omega arith)

xor_halves :
    (a b : ℕ)
    → (bit_xor a b / 2 ≡ bit_xor (a / 2) (b / 2)) × (bit_xor a b % 2 ≡ differ (a % 2) (b % 2))
xor_halves a b =
    let d = digit_cancel (a % 2) (b % 2) (omega arith) (omega arith) in
    (omega (arith, bit_xor_halves a b, d.1), omega (arith, bit_xor_halves a b, d.1))

-- A word of `k` bits is given by its digits: induction on the width.
pub bit_xor-lt : (k a b : ℕ) → a < 2 ^ k → b < 2 ^ k → bit_xor a b < 2 ^ k
bit_xor-lt zero zero zero h l = omega (arith, bit_xor-bitwise 0 0)
bit_xor-lt zero zero (suc b) h l = absurd (omega arith)
bit_xor-lt zero (suc a) b h l = absurd (omega arith)
bit_xor-lt (suc k) a b h l = omega (
  arith,
  pow-suc 2 k,
  xor_halves a b,
  bit_xor-lt k (a / 2) (b / 2) (omega (arith, pow-suc 2 k)) (omega (arith, pow-suc 2 k)),
)

xor_cancel_width : (k a b : ℕ) → a < 2 ^ k → b < 2 ^ k → bit_xor (bit_xor a b) b ≡ a
xor_cancel_width zero zero zero h l = refl
xor_cancel_width zero zero (suc b) h l = absurd (omega arith)
xor_cancel_width zero (suc a) b h l = absurd (omega arith)
xor_cancel_width (suc k) a b h l =
    let d = digit_cancel (a % 2) (b % 2) (omega arith) (omega arith) in
    let (top, low) = xor_halves a b in
    omega (
      arith,
      pow-suc 2 k,
      bit_xor_halves (bit_xor a b) b,
      ap (λ t. bit_xor t (b / 2)) top,
      ap (λ t. differ t (b % 2)) low,
      d.0,
      xor_cancel_width k (a / 2) (b / 2) (omega (arith, pow-suc 2 k)) (omega (arith, pow-suc 2 k)),
    )

-- `(a ^ b) ^ b` is `a`, for bytes.
pub xor_cancel : (a b : ℕ) → a < 256 → b < 256 → bit_xor (bit_xor a b) b ≡ a
xor_cancel a b h l = xor_cancel_width 8 a b h l
