-- ===== src/AirIpc/Endian.antt =====
-- Little-endian fields: what is written is read back, whatever follows it.
use quadrf_mesh.Base.{ℕ, ◌*◌, ◌/◌, ◌%◌, ◌^◌, ◌<◌, ◌≡◌, refl, arith, List, ◌++◌, length, bit_or}
use quadrf_mesh.Base.Bits.{bit_or-low_high}
use quadrf_mesh.AirIpc.Wire.{write_le16, read_le16, write_le32, read_le32, write_le64, read_le64}

pub read_le16-write_le16 :
    (v : ℕ) (rest : List ℕ) → v < 2 ^ 16 → read_le16 (write_le16 v ++ rest) ≡ v
unfolding read_le16 write_le16
read_le16-write_le16 v rest h = omega (arith, bit_or-low_high 8 (v / 2 ^ 8 % 2 ^ 8) (v % 2 ^ 8))

-- The byte at bit `k` of a word joins the bytes below it, for the first three bytes.
join_low :
    (v : ℕ)
    → (bit_or 0 (v / 2 ^ 0 % 2 ^ 8 * 2 ^ 0) ≡ v % 2 ^ 8)
      × (bit_or (v % 2 ^ 8) (v / 2 ^ 8 % 2 ^ 8 * 2 ^ 8) ≡ v % 2 ^ 16)
      × (bit_or (v % 2 ^ 16) (v / 2 ^ 16 % 2 ^ 8 * 2 ^ 16) ≡ v % 2 ^ 24)
      × (bit_or (v % 2 ^ 24) (v / 2 ^ 24 % 2 ^ 8 * 2 ^ 24) ≡ v % 2 ^ 32)
join_low v = (
  omega (arith, bit_or-low_high 0 (v / 2 ^ 0 % 2 ^ 8) 0 (omega arith)),
  omega (arith, bit_or-low_high 8 (v / 2 ^ 8 % 2 ^ 8) (v % 2 ^ 8) (omega arith)),
  omega (arith, bit_or-low_high 16 (v / 2 ^ 16 % 2 ^ 8) (v % 2 ^ 16) (omega arith)),
  omega (arith, bit_or-low_high 24 (v / 2 ^ 24 % 2 ^ 8) (v % 2 ^ 24) (omega arith)),
)

join_high :
    (v : ℕ)
    → (bit_or (v % 2 ^ 32) (v / 2 ^ 32 % 2 ^ 8 * 2 ^ 32) ≡ v % 2 ^ 40)
      × (bit_or (v % 2 ^ 40) (v / 2 ^ 40 % 2 ^ 8 * 2 ^ 40) ≡ v % 2 ^ 48)
      × (bit_or (v % 2 ^ 48) (v / 2 ^ 48 % 2 ^ 8 * 2 ^ 48) ≡ v % 2 ^ 56)
      × (bit_or (v % 2 ^ 56) (v / 2 ^ 56 % 2 ^ 8 * 2 ^ 56) ≡ v % 2 ^ 64)
join_high v = (
  omega (arith, bit_or-low_high 32 (v / 2 ^ 32 % 2 ^ 8) (v % 2 ^ 32) (omega arith)),
  omega (arith, bit_or-low_high 40 (v / 2 ^ 40 % 2 ^ 8) (v % 2 ^ 40) (omega arith)),
  omega (arith, bit_or-low_high 48 (v / 2 ^ 48 % 2 ^ 8) (v % 2 ^ 48) (omega arith)),
  omega (arith, bit_or-low_high 56 (v / 2 ^ 56 % 2 ^ 8) (v % 2 ^ 56) (omega arith)),
)

pub read_le32-write_le32 :
    (v : ℕ) (rest : List ℕ) → v < 2 ^ 32 → read_le32 (write_le32 v ++ rest) ≡ v
unfolding read_le32 write_le32
read_le32-write_le32 v rest h = let (a, b, c, d) = join_low v in rw (a, b, c, d) (omega arith)

pub read_le64-write_le64 :
    (v : ℕ) (rest : List ℕ) → v < 2 ^ 64 → read_le64 (write_le64 v ++ rest) ≡ v
unfolding read_le64 write_le64
read_le64-write_le64 v rest h =
    let (a, b, c, d) = join_low v in
    let (e, f, g, i) = join_high v in rw (a, b, c, d, e, f, g, i) (omega arith)

pub length-write_le64 : (v : ℕ) → length (write_le64 v) ≡ 8
unfolding write_le64
length-write_le64 v = refl
