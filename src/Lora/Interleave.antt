-- ===== src/Lora/Interleave.antt =====
-- src/lora/coding.cpp: the deinterleaver on the words that the interleaver's symbols carry.
use quadrf_mesh.Base.{
  ℕ, zero, suc, ◌+◌, ◌-◌, ◌*◌, ◌/◌, ◌%◌, ◌^◌, ◌≤◌, ◌<◌, ◌≡◌, ◌≢◌, refl, sym, ap, ◌∙◌, arith, Bool,
  true, ◌||◌, ◌&&◌, bit_or, ltb, leb, ◌==◌, ==_iff, ◌⊎◌, inl, inr, List, get_or, set, length,
  length-set, get_or-set_self, get_or-set_ne, get_or_ext, if◌then◌else◌,
}
use native.Mathlib.Nat.{pow-le-pow_right, div-eq_of_lt}
use quadrf_mesh.Base.Table.{all_below, all_below_sound}
use quadrf_mesh.Base.Words.{u8, shl, shr, low_bits}
use quadrf_mesh.Lora.Blocks.{zeros, diagonal, spread, spread_all, deinterleave_block}
use quadrf_mesh.Lora.Symbols.{carried, carried-digit}

-- Blocks have at most 12 codewords of at most 8 bits.
involution : ℕ → ℕ → ℕ → Bool
involution i s j = leb s j || (ltb (diagonal s i j) s && (diagonal s i (diagonal s i j) == j))

involution_table : all_below 8 (λ i. all_below 13 (λ s. all_below 12 (involution i s))) ≡ true
unfolding all_below involution diagonal
involution_table = refl

-- The diagonal is its own inverse.
diagonal_twice :
    (s i j : ℕ)
    → s ≤ 12
    → i < 8
    → j < s
    → (diagonal s i j < s) × (diagonal s i (diagonal s i j) ≡ j)
unfolding involution
diagonal_twice s i j narrow short lo =
    let row : involution i s j ≡ true =
      all_below_sound 12 _ j
        (all_below_sound 13 _ s (all_below_sound 8 _ i involution_table short) (omega arith))
        (omega arith) in
    ground (arith, row)

-- One write of `spread`.
abbrev written : ℕ → ℕ → ℕ → ℕ → ℕ → ℕ → ℕ
written symbol s len i q old =
    u8 (bit_or old (shl (low_bits (shr symbol (s - 1 - q)) 1) (len - 1 - i)))

length-spread :
    (symbol s len i left j : ℕ) (out : List ℕ)
    → length (spread symbol s len i left j out) ≡ length out
unfolding spread
length-spread symbol s len i zero j out = refl
length-spread symbol s len i (suc left) j out =
    length-spread symbol s len i left (j + 1) (set out (diagonal s i j) _) ∙ length-set out _ _

eq_or_ne : (a b : ℕ) → (a ≡ b) ⊎ (a ≢ b)
eq_or_ne a b = ground arith

-- The round of index `q` writes codeword `diagonal s i q`, and no other does.
get_or-spread :
    (symbol s len i left j : ℕ) (out : List ℕ) (k : ℕ)
    → s ≤ 12
    → i < 8
    → j + left ≡ s
    → length out ≡ s
    → k < s
    → get_or (spread symbol s len i left j out) k 0 ≡ (
        if leb j (diagonal s i k)
        then written symbol s len i (diagonal s i k) (get_or out k 0)
        else get_or out k 0)
unfolding spread
get_or-spread symbol s len i zero j out k narrow short all size lo =
    ground (arith, diagonal_twice s i k narrow short lo)
get_or-spread symbol s len i (suc left) j out k narrow short all size lo =
    let dst = diagonal s i j in
    let new = written symbol s len i j (get_or out dst 0) in
    let ih =
      get_or-spread symbol s len i left (j + 1) (set out dst new) k narrow short (omega arith)
        (length-set out dst new ∙ size) lo in
    ih ∙ elim (eq_or_ne dst k) [
      | inl hit ↦
          let back : diagonal s i k ≡ j =
            ap (diagonal s i) (sym hit) ∙ (diagonal_twice s i j narrow short (omega arith)).1 in
          let stored : get_or (set out dst new) k 0 ≡ new =
            ap (λ t. get_or (set out dst new) t 0) (sym hit)
            ∙ get_or-set_self out dst new 0
                (omega (arith, (diagonal_twice s i j narrow short (omega arith)).0)) in
          ground (arith, back, stored, hit)
      | inr miss ↦
          let other : j ≢ diagonal s i k =
            λ e. miss (ap (diagonal s i) e ∙ (diagonal_twice s i k narrow short lo).1) in
          ground (arith, get_or-set_ne out dst k new 0 miss)
    ]

-- A codeword without its lowest `m` bits, and the bit that the next round adds.
join_bit : ℕ → ℕ → Bool
join_bit m c =
    u8 (bit_or (c / 2 ^ suc m * 2 ^ suc m) (shl (low_bits (shr c m) 1) m)) == c / 2 ^ m * 2 ^ m

join_table : all_below 8 (λ m. all_below 256 (join_bit m)) ≡ true
unfolding all_below join_bit
join_table = refl

join_bit_lem :
    (m c : ℕ)
    → m < 8
    → c < 256
    → u8 (bit_or (c / 2 ^ suc m * 2 ^ suc m) (shl (low_bits (shr c m) 1) m)) ≡ c / 2 ^ m * 2 ^ m
unfolding join_bit
join_bit_lem m c short byte =
    (==_iff _ _).0 (all_below_sound 256 _ c (all_below_sound 8 _ m join_table short) byte)

length-spread_all :
    (symbols : List ℕ) (s len left i : ℕ) (out : List ℕ)
    → length (spread_all symbols s len left i out) ≡ length out
unfolding spread_all
length-spread_all symbols s len zero i out = refl
length-spread_all symbols s len (suc left) i out =
    length-spread_all symbols s len left (i + 1) _ ∙ length-spread _ s len i s 0 out

place : (i left : ℕ) {len : ℕ} → i + suc left ≡ len → len - 1 - i ≡ left
place i left all = omega arith

always : {A : Type 0} (j q : ℕ) (x y : A) {z : A} → j ≤ q → z ≡ (if leb j q then x else y) → z ≡ x
always j q x y h e = ground arith

byte_of : (len c : ℕ) → len ≤ 8 → c < 2 ^ len → c < 256
byte_of len c short fits =
    omega (arith, pow-le-pow_right {n = 2} (omega arith) {i = len} {j = 8} short)

empty : (len c : ℕ) → c < 2 ^ len → c / 2 ^ len * 2 ^ len ≡ 0
empty len c fits = omega (arith, ap (λ (t : ℕ). t * 2 ^ len) (div-eq_of_lt fits))

module _ (cw : List ℕ) (s len : ℕ) (narrow : s ≤ 12) (short : len ≤ 8) where
  -- The first `len - left` bits of every codeword are there; the other rounds add theirs.
  get_or-spread_all :
      (symbols : List ℕ) (left i : ℕ) (out : List ℕ) (k : ℕ)
      → ((r : ℕ) → r < len → get_or symbols r 0 ≡ carried cw s len r)
      → i + left ≡ len
      → length out ≡ s
      → k < s
      → get_or cw k 0 < 256
      → get_or out k 0 ≡ get_or cw k 0 / 2 ^ left * 2 ^ left
      → get_or (spread_all symbols s len left i out) k 0 ≡ get_or cw k 0
  unfolding spread_all
  get_or-spread_all symbols zero i out k carries all size lo byte start = omega (arith, start)
  get_or-spread_all symbols (suc left) i out k carries all size lo byte start =
      let q = diagonal s i k in
      let c = get_or cw k 0 in
      let next = spread (get_or symbols i 0) s len i s 0 out in
      let (inside, back) = diagonal_twice s i k narrow (omega arith) lo in
      let round =
        get_or-spread (get_or symbols i 0) s len i s 0 out k narrow (omega arith) (omega arith) size
          lo in
      let bit : low_bits (shr (get_or symbols i 0) (s - 1 - q)) 1
          ≡ low_bits (shr (get_or cw k 0) left) 1 =
        ap (λ t. t / 2 ^ (s - 1 - q) % 2) (carries i (omega arith))
        ∙ carried-digit cw s len i q (omega arith) inside
        ∙ ap (λ t. get_or cw t 0 / 2 ^ (len - 1 - i) % 2) back
        ∙ ap (λ t. get_or cw k 0 / 2 ^ t % 2) (place i left all) in
      get_or-spread_all symbols left (i + 1) next k carries (omega arith)
        (length-spread _ s len i s 0 out ∙ size) lo byte
        (always 0 q _ _ (omega arith) round
          ∙ ap
              (λ t.
                u8 (
                  bit_or t (shl (low_bits (shr (get_or symbols i 0) (s - 1 - q)) 1) (len - 1 - i))))
              start
          ∙ ap (λ t. u8 (bit_or (c / 2 ^ suc left * 2 ^ suc left) (shl t (len - 1 - i)))) bit
          ∙ ap
              (λ t. u8 (bit_or (c / 2 ^ suc left * 2 ^ suc left) (shl (low_bits (shr c left) 1) t)))
              (place i left all)
          ∙ join_bit_lem left c (omega arith) byte)

  zeros-get_or : (n k : ℕ) → get_or (zeros n) k 0 ≡ 0
  zeros-get_or zero k = refl
  zeros-get_or (suc n) zero = refl
  zeros-get_or (suc n) (suc k) = zeros-get_or n k

  length-zeros : (n : ℕ) → length (zeros n) ≡ n
  length-zeros zero = refl
  length-zeros (suc n) = ap suc (length-zeros n)

  -- The deinterleaver gives the codewords back from the words that the symbols carry.
  pub deinterleave_block_lem :
      (symbols : List ℕ)
      → length cw ≡ s
      → ((r : ℕ) → r < len → get_or symbols r 0 ≡ carried cw s len r)
      → ((k : ℕ) → k < s → get_or cw k 0 < 2 ^ len)
      → deinterleave_block symbols s len ≡ cw
  unfolding deinterleave_block
  deinterleave_block_lem symbols size carries fits =
      let e : length (deinterleave_block symbols s len) ≡ s =
        length-spread_all symbols s len len 0 (zeros s) ∙ length-zeros s in
      get_or_ext 0 _ _ (e ∙ sym size) (λ k h.
        let lo : k < s = omega (arith, h, e) in
        get_or-spread_all symbols len 0 (zeros s) k carries (omega arith) (length-zeros s) lo
          (byte_of len (get_or cw k 0) short (fits k lo))
          (zeros-get_or s k ∙ sym (empty len (get_or cw k 0) (fits k lo))))
