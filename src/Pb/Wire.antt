-- ===== src/Pb/Wire.antt =====
-- src/bridge/pb_wire.cpp. The writers only append to their vector, so a writer is the bytes that it
-- appends, and calls in a row are concatenation. A reader that returns false is `none`: its callers
-- then return false too, and read nothing that it has set. The value of a `float` is its bit
-- pattern (the source asserts IEEE single precision and copies it with memcpy).
use quadrf_mesh.Base.{
  ℕ, zero, suc, ◌+◌, ◌%◌, ◌^◌, ◌<◌, bit_or, bit_and, Bool, ◌&&◌, not, Option, none, some, List, [],
  ◌∷◌, ◌++◌, ltb, leb, ◌==◌, if◌then◌else◌, length, take, drop, get_or, arith,
}
use quadrf_mesh.Base.Words.{u8, u32, u64, shl, shr, low_bits, Span, null, bytes}
use quadrf_mesh.Base.Order.{lt_wf}
use mathlib.Core.WellFounded.{Acc}
use mathlib.Core.Logic.{dite}
use native.Mathlib.Decide.{dec_lt}

-- `WireType`: its value; a type_ read from the wire may be any number up to 7.
abbrev pub varint_type : ℕ
varint_type = 0

abbrev pub fixed64_type : ℕ
fixed64_type = 1

abbrev pub length_type : ℕ
length_type = 2

abbrev pub fixed32_type : ℕ
fixed32_type = 5

unfoldable pub tag : ℕ → ℕ → ℕ
tag field wt = bit_or (u32 (shl field 3)) wt

pub shift_shrinks : (v : ℕ) → 0x7f < v → shr v 7 < v
shift_shrinks v h = omega arith

-- `while (v >= 0x80) { push((v & 0x7F) | 0x80); v >>= 7; } push(v)`.
unfoldable pub varint_loop : (v : ℕ) → Acc ◌<◌ v → List ℕ
varint_loop v (Acc.intro _ smaller) =
    dite (dec_lt 0x7f v)
      (λ more.
        u8 (bit_or (low_bits v 7) 0x80)
        ∷ varint_loop (shr v 7) (smaller (shr v 7) (shift_shrinks v more)))
      (λ _. u8 v ∷ [])

unfoldable pub write_varint : ℕ → List ℕ
unfolding varint_loop lt_wf dec_lt
write_varint v = varint_loop v (lt_wf.apply v)

unfoldable pub write_tag : ℕ → ℕ → List ℕ
write_tag field wt = write_varint (tag field wt)

unfoldable pub write_u32 : ℕ → ℕ → List ℕ
write_u32 field v = if v == 0 then [] else (write_tag field varint_type ++ write_varint v)

unfoldable pub write_bool : ℕ → Bool → List ℕ
write_bool field v = if not v then [] else (write_tag field varint_type ++ write_varint 1)

unfoldable pub write_fixed32 : ℕ → ℕ → List ℕ
write_fixed32 field v =
    if v == 0
    then []
    else (write_tag field fixed32_type
        ++ (u8 v ∷ u8 (shr v 8) ∷ u8 (shr v 16) ∷ u8 (shr v 24) ∷ []))

-- `v == 0.0f` holds of both zeros, the patterns 0 and 0x80000000.
unfoldable pub write_float : ℕ → ℕ → List ℕ
write_float field v =
    if v % 2 ^ 31 == 0
    then []
    else (write_tag field fixed32_type
        ++ (u8 v ∷ u8 (shr v 8) ∷ u8 (shr v 16) ∷ u8 (shr v 24) ∷ []))

unfoldable pub write_bytes : ℕ → Span → Bool → List ℕ
write_bytes field (null len) force =
    if not force then [] else (write_tag field length_type ++ write_varint len)
write_bytes field (bytes data_in) force =
    if not force && (length data_in == 0)
    then []
    else (write_tag field length_type ++ (write_varint (length data_in) ++ data_in))

-- The loop of `readVarint` over what lies before `end`.
unfoldable pub read_varint_loop : List ℕ → ℕ → ℕ → Option (ℕ × List ℕ)
read_varint_loop [] shift v = none
read_varint_loop (b ∷ rest) shift v =
    let v' = bit_or v (u64 (shl (low_bits b 7) shift)) in
    let more = read_varint_loop rest (shift + 7) v' in
    if leb shift 63 then (if bit_and b 0x80 == 0 then some (v', rest) else more) else none

unfoldable pub read_varint : List ℕ → Option (ℕ × List ℕ)
unfolding read_varint_loop
read_varint p = read_varint_loop p 0 0

-- `payload` is the pair `data`, `len`.
pub record Field : Type 0 where
  pub number : ℕ
  pub type : ℕ
  pub varint : ℕ
  pub fixed32 : ℕ
  pub fixed64 : ℕ
  pub payload : List ℕ

infixl 5 ◌>>=◌
abbrev pub ◌>>=◌ {ℓ κ} : {A : Type ℓ} {B : Type κ} → Option A → (A → Option B) → Option B
none >>= f = none
some a >>= f = f a

-- Four and eight bytes, lowest first; the callers have checked that they are there.
unfoldable pub fixed32_at : List ℕ → ℕ
fixed32_at p =
    bit_or (bit_or (bit_or (get_or p 0 0) (shl (get_or p 1 0) 8)) (shl (get_or p 2 0) 16))
      (shl (get_or p 3 0) 24)

unfoldable pub fixed64_at : List ℕ → ℕ
unfolding fixed32_at
fixed64_at p =
    bit_or
      (bit_or (bit_or (bit_or (fixed32_at p) (shl (get_or p 4 0) 32)) (shl (get_or p 5 0) 40))
        (shl (get_or p 6 0) 48))
      (shl (get_or p 7 0) 56)

-- The switch on the wire type, for the field `f` whose tag has been read.
unfoldable pub parse_payload : Field → List ℕ → Option (Field × List ℕ)
parse_payload f p =
    if f.type == varint_type
    then (do (v, rest) ← read_varint p; some (record f { varint = v }, rest))
    else if f.type == fixed64_type
    then if ltb (length p) 8 then none else some (record f { fixed64 = fixed64_at p }, drop 8 p)
    else if f.type == length_type
    then (do
      (slen, rest) ← read_varint p
      if ltb (length rest) slen
          then none
          else some (record f { payload = take slen rest }, drop slen rest))
    else if f.type == fixed32_type
    then if ltb (length p) 4 then none else some (record f { fixed32 = fixed32_at p }, drop 4 p)
    else none

-- One round of the loop of `parseFields`.
unfoldable pub parse_field : List ℕ → Option (Field × List ℕ)
parse_field p = do
  (raw_tag, rest) ← read_varint p
  let f : Field = record {
    number = u32 (shr raw_tag 3);
    type = low_bits raw_tag 3;
    varint = 0;
    fixed32 = 0;
    fixed64 = 0;
    payload = [];
  }
  parse_payload f rest

-- `while (p < end)`, on fuel; `parse_fields` gives it a round for each byte.
unfoldable pub parse_loop : ℕ → List ℕ → List Field → Option (List Field)
parse_loop fuel [] out = some out
parse_loop zero (b ∷ p) out = none
parse_loop (suc fuel) (b ∷ p) out = do
  (f, rest) ← parse_field (b ∷ p)
  parse_loop fuel rest (out ++ (f ∷ []))

unfoldable pub parse_fields : Span → Option (List Field)
parse_fields (null len) = if not (len == 0) then none else some []
parse_fields (bytes p) = parse_loop (length p) p []
