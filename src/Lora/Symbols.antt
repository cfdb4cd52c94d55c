-- ===== src/Lora/Symbols.antt =====
-- src/lora/coding.cpp: what one interleaved symbol holds, and what the chip value made from it
-- gives back.
use quadrf_mesh.Base.{
  ℕ, zero, suc, ◌+◌, ◌-◌, ◌*◌, ◌/◌, ◌%◌, ◌^◌, ◌≤◌, ◌<◌, ◌≡◌, refl, sym, ap, ◌∙◌, arith, Bool, true,
  false, bit_or, ◌==◌, ==_iff, ◌⊎◌, inl, inr, List, get_or, if◌then◌else◌,
}
use native.Mathlib.Nat.{pow-suc, div-div-eq-div-mul, pow-le-pow_right}
use quadrf_mesh.Base.Bits.{bit_or-high_low}
use quadrf_mesh.Base.Table.{all_below, all_below_sound}
use quadrf_mesh.Base.Words.{u16, u32, shl, shr, low_bits}
use quadrf_mesh.Lora.Gray.{gray_encode, gray_decode, gray_loop, reduced_value}
use quadrf_mesh.Lora.Blocks.{symbol_loop, diagonal, interleave_symbol}
use quadrf_mesh.Lora.Frame.{symbol_value}

pub shr-suc : (x k : ℕ) → x / 2 ^ suc k ≡ x / 2 ^ k / 2
shr-suc x k = ap (λ t. x / t) (pow-suc 2 k) ∙ sym (div-div-eq-div-mul x (2 ^ k) 2)

-- The bit that a symbol takes from the codewords in round `j`.
abbrev pub cell : List ℕ → ℕ → ℕ → ℕ → ℕ → ℕ
cell cw sf_app cw_len i j = low_bits (shr (get_or cw (diagonal sf_app i j) 0) (cw_len - 1 - i)) 1

double : (j : ℕ) → 2 ^ (j + 1) ≡ 2 * 2 ^ j
double j = ap (λ t. 2 ^ t) (plus_one j) ∙ omega (arith, pow-suc 2 j)
  where
    plus_one : (j : ℕ) → j + 1 ≡ suc j
    plus_one j = omega arith

small : (s j : ℕ) → s < 2 ^ j → j ≤ 31 → s < 2 ^ 31
small s j fits narrow =
    omega (arith, pow-le-pow_right {n = 2} (omega arith) {i = j} {j = 31} narrow)

plus_zero : (j : ℕ) → j + 0 ≡ j
plus_zero j = omega arith

moved : (j left : ℕ) → j + 1 + left ≡ j + suc left
moved j left = omega arith

shifted : (j left q : ℕ) → j + suc left - 1 - q ≡ j + 1 + left - 1 - q
shifted j left q = omega arith

last_place : (j left q : ℕ) → j ≡ q → j + suc left - 1 - q ≡ left
last_place j left q now = omega arith

split : (j q : ℕ) → j ≤ q → (j ≡ q) ⊎ (j + 1 ≤ q)
split j q lo = omega arith

-- The sum of the lowest `n` digits.
abbrev pub digit_sum : ℕ → ℕ → ℕ
digit_sum zero x = 0
digit_sum (suc n) x = x / 2 ^ n % 2 + digit_sum n x

module _ (cw : List ℕ) (sf_app cw_len i : ℕ) where
  abbrev bits : ℕ → ℕ → ℕ → ℕ → ℕ × ℕ
  bits left j s ones = symbol_loop cw sf_app cw_len i left j s ones

  pushed : (s b : ℕ) → s < 2 ^ 31 → b < 2 → bit_or (u32 (shl s 1)) b ≡ 2 * s + b
  pushed s b fits digit =
      omega (arith, ap (λ (t : ℕ). bit_or t b) (narrow s fits), bit_or-high_low 1 s b (omega arith))
    where
      narrow : (s : ℕ) → s < 2 ^ 31 → u32 (shl s 1) ≡ s * 2 ^ 1
      narrow s fits = omega arith

  step :
      (left j s ones : ℕ)
      → s < 2 ^ 31
      → let b = cell cw sf_app cw_len i j in
        bits (suc left) j s ones ≡ bits left (j + 1) (2 * s + b) (ones + b)
  unfolding symbol_loop
  step left j s ones narrow =
      let b = cell cw sf_app cw_len i j in
      ap (λ t. bits left (j + 1) t (ones + b)) (pushed s b narrow (omega arith))

  -- The digits of the symbol: those pushed before the rounds that are left, then one a round.
  symbol_loop-high :
      (left j s ones : ℕ)
      → s < 2 ^ j
      → j + left ≤ 31
      → ((bits left j s ones).0 / 2 ^ left ≡ s) × ((bits left j s ones).0 < 2 ^ (j + left))
  symbol_loop-high zero j s ones fits narrow =
      unfold symbol_loop in (omega arith, omega (arith, ap (λ t. 2 ^ t) (plus_zero j)))
  symbol_loop-high (suc left) j s ones fits narrow =
      let b = cell cw sf_app cw_len i j in
      let (high, low) =
        symbol_loop-high left (j + 1) (2 * s + b) (ones + b) (omega (arith, double j))
          (omega arith) in
      rw (step left j s ones (small s j fits (omega arith))) (
        shr-suc (bits left (j + 1) (2 * s + b) (ones + b)).0 left
            ∙ omega (arith, ap (λ t. t / 2) high),
        omega (arith, low, ap (λ t. 2 ^ t) (moved j left)),
      )

  -- The digit that round `q` pushes stands at its place in the symbol.
  symbol_loop-digit :
      (left j s ones q : ℕ)
      → s < 2 ^ j
      → j + left ≤ 31
      → j ≤ q
      → q < j + left
      → (bits left j s ones).0 / 2 ^ (j + left - 1 - q) % 2 ≡ cell cw sf_app cw_len i q
  symbol_loop-digit zero j s ones q fits narrow lo hi = absurd (omega arith)
  symbol_loop-digit (suc left) j s ones q fits narrow lo hi =
      let b = cell cw sf_app cw_len i j in
      let r = (bits left (j + 1) (2 * s + b) (ones + b)).0 in
      let grown : 2 * s + b < 2 ^ (j + 1) = omega (arith, double j) in
      let (high, low) = symbol_loop-high left (j + 1) (2 * s + b) (ones + b) grown (omega arith) in
      rw (step left j s ones (small s j fits (omega arith))) (elim (split j q lo) [
        | inl now ↦ omega (
          arith,
          ap (λ t. r / 2 ^ t % 2) (last_place j left q now),
          high,
          ap (λ t. cell cw sf_app cw_len i t) now,
        )
        | inr later ↦
            ap (λ t. r / 2 ^ t % 2) (shifted j left q)
            ∙ symbol_loop-digit left (j + 1) (2 * s + b) (ones + b) q grown (omega arith)
                (omega arith) (omega arith)
      ])

  -- `ones` counts the digits that are 1.
  symbol_loop-ones :
      (left j s ones : ℕ)
      → s < 2 ^ j
      → j + left ≤ 31
      → (bits left j s ones).1 ≡ ones + digit_sum left (bits left j s ones).0
  symbol_loop-ones zero j s ones fits narrow = unfold symbol_loop in omega arith
  symbol_loop-ones (suc left) j s ones fits narrow =
      let b = cell cw sf_app cw_len i j in
      let grown : 2 * s + b < 2 ^ (j + 1) = omega (arith, double j) in
      rw (step left j s ones (small s j fits (omega arith))) (
        omega (
          arith,
          symbol_loop-ones left (j + 1) (2 * s + b) (ones + b) grown (omega arith),
          symbol_loop-high left (j + 1) (2 * s + b) (ones + b) grown (omega arith),
        ))

-- The word that a symbol carries.
abbrev pub carried : List ℕ → ℕ → ℕ → ℕ → ℕ
carried cw sf_app cw_len i = (symbol_loop cw sf_app cw_len i sf_app 0 0 0).0

pub carried-lt :
    (cw : List ℕ) (sf_app cw_len i : ℕ) → sf_app ≤ 31 → carried cw sf_app cw_len i < 2 ^ sf_app
carried-lt cw sf_app cw_len i narrow = omega (
  arith,
  symbol_loop-high cw sf_app cw_len i sf_app 0 0 0 (omega arith) (omega arith),
  ap (λ t. 2 ^ t) (from_zero sf_app),
)
  where
    from_zero : (n : ℕ) → 0 + n ≡ n
    from_zero n = omega arith

pub carried-digit :
    (cw : List ℕ) (sf_app cw_len i q : ℕ)
    → sf_app ≤ 31
    → q < sf_app
    → carried cw sf_app cw_len i / 2 ^ (sf_app - 1 - q) % 2 ≡ cell cw sf_app cw_len i q
carried-digit cw sf_app cw_len i q narrow lo =
    ap (λ t. carried cw sf_app cw_len i / 2 ^ t % 2) (from_zero sf_app q)
    ∙ symbol_loop-digit cw sf_app cw_len i sf_app 0 0 0 q (omega arith) (omega arith) (omega arith)
        (omega arith)
  where
    from_zero : (n q : ℕ) → n - 1 - q ≡ 0 + n - 1 - q
    from_zero n q = omega arith

-- The symbol made from a word: as it is, or with its parity and a zero.
abbrev pub symbol_of : ℕ → ℕ → Bool → ℕ → ℕ
symbol_of sf sf_app reduced r = u16 (
    if reduced
    then u32 (shl (bit_or (u32 (shl r 1)) (digit_sum sf_app r % 2)) (sf - sf_app - 1))
    else r)

pub interleave_symbol_lem :
    (cw : List ℕ) (sf sf_app cw_len : ℕ) (reduced : Bool) (i : ℕ)
    → sf_app ≤ 31
    → interleave_symbol cw sf sf_app cw_len reduced i
      ≡ symbol_of sf sf_app reduced (carried cw sf_app cw_len i)
unfolding interleave_symbol
interleave_symbol_lem cw sf sf_app cw_len reduced i narrow =
    let n = symbol_loop-ones cw sf_app cw_len i sf_app 0 0 0 (omega arith) (omega arith) in
    let r = carried cw sf_app cw_len i in
    ap
      (λ (t : ℕ).
        u16 (if reduced then u32 (shl (bit_or (u32 (shl r 1)) (t % 2)) (sf - sf_app - 1)) else r))
      (omega (arith, n))

-- The chip value of a symbol, and the word that the receiver makes of a chip value.
abbrev pub chip_of : ℕ → ℕ → ℕ
chip_of sf s = u16 ((gray_decode s sf + 1) % 2 ^ sf)

abbrev pub word_of : ℕ → Bool → ℕ → ℕ
word_of sf reduced chip = u16 (gray_encode (symbol_value reduced (2 ^ sf) chip))

abbrev plain : ℕ → ℕ → Bool
plain sf r = word_of sf false (chip_of sf (symbol_of sf sf false r)) == r

plain_table : all_below 13 (λ sf. all_below (2 ^ sf) (plain sf)) ≡ true
unfolding all_below gray_encode gray_decode gray_loop symbol_value
plain_table = refl

-- An offset of -1 to 2 chips, written from 0 to 3.
abbrev pub offset : ℕ → ℕ → ℕ → ℕ
offset sf chip d = (chip + 2 ^ sf + d - 1) % 2 ^ sf

abbrev reduced_at : ℕ → ℕ → ℕ → Bool
reduced_at w d r =
    word_of (w + 2) true (offset (w + 2) (chip_of (w + 2) (symbol_of (w + 2) w true r)) d) == r

reduced_table : all_below 11 (λ w. all_below 4 (λ d. all_below (2 ^ w) (reduced_at w d))) ≡ true
unfolding all_below gray_encode gray_decode gray_loop symbol_value reduced_value
reduced_table = refl

-- A symbol of full width gives its word back when its chip value is read.
pub word_of-plain :
    (sf r : ℕ) → sf ≤ 12 → r < 2 ^ sf → word_of sf false (chip_of sf (symbol_of sf sf false r)) ≡ r
word_of-plain sf r narrow fits =
    (==_iff _ _).0 (
      all_below_sound (2 ^ sf) (plain sf) r (all_below_sound 13 _ sf plain_table (omega arith))
        fits)

-- A reduced symbol gives its word back also when the chip value is read between one too low and
-- two too high.
pub word_of-reduced :
    (w d r : ℕ)
    → w ≤ 10
    → d < 4
    → r < 2 ^ w
    → word_of (w + 2) true (offset (w + 2) (chip_of (w + 2) (symbol_of (w + 2) w true r)) d) ≡ r
word_of-reduced w d r narrow near fits = (==_iff _ _).0 (
    all_below_sound (2 ^ w) (reduced_at w d) r
      (all_below_sound 4 _ d (all_below_sound 11 _ w reduced_table (omega arith)) near) fits)
