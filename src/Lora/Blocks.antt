-- ===== src/Lora/Blocks.antt =====
-- src/lora/coding.cpp: the diagonal interleaver. The arrays of 16 entries are lists of the entries
-- in use; `((i - j - 1) % n + n) % n`, of an `int` not below -n, is written with n added first.
use quadrf_mesh.Base.{
  ℕ, zero, suc, ◌+◌, ◌-◌, ◌%◌, ◌≡◌, refl, arith, Bool, ap, bit_or, List, [], ◌∷◌, map,
  if◌then◌else◌, length, get_or, set,
}
use quadrf_mesh.Base.Words.{u8, u16, u32, shl, shr, low_bits}

-- The numbers from `i` on, `count` of them.
abbrev pub upto : ℕ → ℕ → List ℕ
upto i zero = []
upto i (suc count) = i ∷ upto (i + 1) count

unfoldable pub diagonal : ℕ → ℕ → ℕ → ℕ
diagonal sf_app i j = (i + sf_app - j - 1) % sf_app

-- `sym` and `ones`, from `j` on, with the number of rounds left.
unfoldable pub symbol_loop : List ℕ → ℕ → ℕ → ℕ → ℕ → ℕ → ℕ → ℕ → ℕ × ℕ
symbol_loop cw sf_app cw_len i zero j sym ones = (sym, ones)
symbol_loop cw sf_app cw_len i (suc left) j sym ones =
    let bit = low_bits (shr (get_or cw (diagonal sf_app i j) 0) (cw_len - 1 - i)) 1 in
    symbol_loop cw sf_app cw_len i left (j + 1) (bit_or (u32 (shl sym 1)) bit) (ones + bit)

unfoldable pub interleave_symbol : List ℕ → ℕ → ℕ → ℕ → Bool → ℕ → ℕ
interleave_symbol cw sf sf_app cw_len reduced i =
    let (sym, ones) = symbol_loop cw sf_app cw_len i sf_app 0 0 0 in
    u16 (if reduced then u32 (shl (bit_or (u32 (shl sym 1)) (ones % 2)) (sf - sf_app - 1)) else sym)

unfoldable pub interleave_block : List ℕ → ℕ → ℕ → ℕ → Bool → List ℕ
interleave_block cw sf sf_app cw_len reduced =
    map (interleave_symbol cw sf sf_app cw_len reduced) (upto 0 cw_len)

-- The inner loop of `deinterleaveBlock`, from `j` on.
unfoldable pub spread : ℕ → ℕ → ℕ → ℕ → ℕ → ℕ → List ℕ → List ℕ
spread symbol sf_app cw_len i zero j out = out
spread symbol sf_app cw_len i (suc left) j out =
    let bit = low_bits (shr symbol (sf_app - 1 - j)) 1 in
    let dst = diagonal sf_app i j in
    spread symbol sf_app cw_len i left (j + 1)
      (set out dst (u8 (bit_or (get_or out dst 0) (shl bit (cw_len - 1 - i)))))

-- The outer loop, from `i` on.
unfoldable pub spread_all : List ℕ → ℕ → ℕ → ℕ → ℕ → List ℕ → List ℕ
spread_all symbols sf_app cw_len zero i out = out
spread_all symbols sf_app cw_len (suc left) i out =
    spread_all symbols sf_app cw_len left (i + 1)
      (spread (get_or symbols i 0) sf_app cw_len i sf_app 0 out)

abbrev pub zeros : ℕ → List ℕ
zeros zero = []
zeros (suc n) = 0 ∷ zeros n

unfoldable pub deinterleave_block : List ℕ → ℕ → ℕ → List ℕ
deinterleave_block symbols sf_app cw_len = spread_all symbols sf_app cw_len cw_len 0 (zeros sf_app)

pub length-map {ℓ κ} :
    {A : Type ℓ} {B : Type κ} (f : A → B) (xs : List A) → length (map f xs) ≡ length xs
length-map f [] = refl
length-map f (x ∷ xs) = ap suc (length-map f xs)

pub length-upto : (i n : ℕ) → length (upto i n) ≡ n
length-upto i zero = refl
length-upto i (suc n) = ap suc (length-upto (i + 1) n)

pub length-interleave_block :
    (cw : List ℕ) (sf sf_app cw_len : ℕ) (reduced : Bool)
    → length (interleave_block cw sf sf_app cw_len reduced) ≡ cw_len
unfolding interleave_block
length-interleave_block cw sf sf_app cw_len reduced = omega (
  arith,
  length-map (interleave_symbol cw sf sf_app cw_len reduced) (upto 0 cw_len),
  length-upto 0 cw_len,
)
