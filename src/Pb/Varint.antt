-- ===== src/Pb/Varint.antt =====
-- `writeVarint` and `readVarint` are inverse on uint64_t.
use quadrf_mesh.Base.{
  ℕ, zero, suc, ◌+◌, ◌*◌, ◌/◌, ◌%◌, ◌^◌, ◌≤◌, ◌<◌, ◌≡◌, refl, ap, ◌∙◌, arith, bit_or, bit_and, true,
  List, [], ◌∷◌, ◌++◌, some, ◌==◌, ==_iff,
}
use quadrf_mesh.Base.Bits.{bit_or-low_high}
use quadrf_mesh.Base.Table.{all_below, all_below_sound}
use quadrf_mesh.Base.Order.{lt_wf}
use quadrf_mesh.Pb.Wire.{varint_loop, write_varint, read_varint_loop, read_varint, shift_shrinks}
use mathlib.Core.Logic.{dif_pos}
use native.Mathlib.Decide.{dec_lt}
use mathlib.Core.WellFounded.{Acc}
use native.Mathlib.Nat.{div-add-mod, pow-suc}
use native.Mathlib.Bridge.{le_prop}
use native.Mathlib.Numerals.{towards_suc}

top_bit : (b : ℕ) → b < 256 → bit_and b 0x80 ≡ b / 128 * 128
top_bit b h = (==_iff _ _).0 (all_below_sound 256 _ b table h)
  where
    table : all_below 256 (λ b. bit_and b 0x80 == b / 128 * 128) ≡ true
    table = unfold all_below in refl

eighth_bit : (g : ℕ) → g < 128 → bit_or g 0x80 ≡ g + 128
eighth_bit g h = omega (arith, bit_or-low_high 7 1 g h)

-- A group of seven bits put above the `s` bits read so far.
add_group :
    (acc g s : ℕ)
    → acc < 2 ^ s
    → g * 2 ^ s < 2 ^ 64
    → bit_or acc (g * 2 ^ s % 2 ^ 64) ≡ g * 2 ^ s + acc
add_group acc g s h fits =
    let small : g * 2 ^ s % 2 ^ 64 ≡ g * 2 ^ s = omega arith in rw small (bit_or-low_high s g acc h)

two_pow_add_seven : (s : ℕ) → 2 ^ (s + 7) ≡ 128 * 2 ^ s
two_pow_add_seven s = simp towards_suc (omega arith)

split_low : (v s : ℕ) → v * 2 ^ s ≡ v % 128 * 2 ^ s + v / 128 * 2 ^ (s + 7)
split_low v s = omega (
  arith,
  ap (λ (t : ℕ). t * 2 ^ s) (div-add-mod v 128),
  ap (λ (t : ℕ). v / 128 * t) (two_pow_add_seven s),
)

below_next : (g p acc : ℕ) → g < 128 → acc < p → g * p + acc < 128 * p
below_next g p acc h k = grind arith

last_byte :
    (b s acc : ℕ) (rest : List ℕ)
    → b < 128
    → s ≤ 63
    → acc < 2 ^ s
    → b * 2 ^ s < 2 ^ 64
    → read_varint_loop (b ∷ rest) s acc ≡ some (b * 2 ^ s + acc, rest)
unfolding read_varint_loop
last_byte b s acc rest hb hs ha fits =
    let low : b % 2 ^ 7 ≡ b = omega arith in
    rw (low, add_group acc b s ha fits) (ground (arith, top_bit b))

more_byte :
    (g s acc : ℕ) (rest : List ℕ)
    → g < 128
    → s ≤ 63
    → acc < 2 ^ s
    → g * 2 ^ s < 2 ^ 64
    → read_varint_loop ((g + 128) ∷ rest) s acc ≡ read_varint_loop rest (s + 7) (g * 2 ^ s + acc)
unfolding read_varint_loop
more_byte g s acc rest hb hs ha fits =
    let low : (g + 128) % 2 ^ 7 ≡ g = omega arith in
    rw (low, add_group acc g s ha fits) (ground (arith, top_bit (g + 128)))

-- One round of the writing loop.
varint_loop_low : (v : ℕ) (w : Acc ◌<◌ v) → v < 128 → varint_loop v w ≡ v ∷ []
unfolding varint_loop
varint_loop_low v (Acc.intro _ smaller) h = ground arith

varint_loop_high :
    (v : ℕ) (w : Acc ◌<◌ v)
    → 128 ≤ v
    → (w' : Acc ◌<◌ (v / 2 ^ 7)) × (varint_loop v w ≡ (v % 128 + 128) ∷ varint_loop (v / 2 ^ 7) w')
unfolding varint_loop
varint_loop_high v (Acc.intro _ smaller) h =
    let byte : bit_or (v % 2 ^ 7) 0x80 % 2 ^ 8 ≡ v % 128 + 128 =
      omega (arith, eighth_bit (v % 128) (omega arith)) in
    (smaller (v / 2 ^ 7) (shift_shrinks v h), rw (dif_pos (dec_lt 0x7f v) le_prop h, byte))

read_varint_loop-varint_loop :
    (k v : ℕ) (w : Acc ◌<◌ v) (s acc : ℕ) (rest : List ℕ)
    → s + 7 * k ≡ 63
    → v < 128 ^ suc k
    → acc < 2 ^ s
    → v * 2 ^ s + acc < 2 ^ 64
    → read_varint_loop (varint_loop v w ++ rest) s acc ≡ some (v * 2 ^ s + acc, rest)
read_varint_loop-varint_loop zero v w s acc rest hs hv ha fits =
    rw (varint_loop_low v w (omega arith))
      (last_byte v s acc rest (omega arith) (omega arith) ha (omega arith))
read_varint_loop-varint_loop (suc k) v w s acc rest hs hv ha fits = elim (dec_lt v 128) [
  | yes low ↦
      rw (varint_loop_low v w low) (last_byte v s acc rest low (omega arith) ha (omega arith))
  | no high ↦
      let (w', e) = varint_loop_high v w (omega arith) in
      let parts = split_low v s in
      let grown : v % 128 * 2 ^ s + acc < 2 ^ (s + 7) =
        omega (arith, two_pow_add_seven s, below_next (v % 128) (2 ^ s) acc (omega arith) ha) in
      rw (e, more_byte (v % 128) s acc _ (omega arith) (omega arith) ha (omega arith))
        (read_varint_loop-varint_loop k (v / 2 ^ 7) w' (s + 7) (v % 128 * 2 ^ s + acc) rest
            (omega arith) (omega (arith, pow-suc 128 (suc k))) grown (omega arith)
          ∙ ground (arith, parts))
]

-- A uint64_t that `writeVarint` wrote is what `readVarint` reads, and what follows it is left.
pub read_varint-write_varint :
    (v : ℕ) (rest : List ℕ) → v < 2 ^ 64 → read_varint (write_varint v ++ rest) ≡ some (v, rest)
unfolding read_varint write_varint
read_varint-write_varint v rest h =
    read_varint_loop-varint_loop 9 v (lt_wf.apply v) 0 0 rest (omega arith) (omega arith)
      (omega arith) (omega arith)
    ∙ ground arith
