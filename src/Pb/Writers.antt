-- ===== src/Pb/Writers.antt =====
-- The bytes of each writer parse as the field that it was given, or as none for a default.
use quadrf_mesh.Base.{
  ℕ, ◌+◌, ◌*◌, ◌/◌, ◌%◌, ◌^◌, ◌<◌, ◌≡◌, arith, bit_or, Bool, true, false, List, [], ◌∷◌, ◌++◌, some,
  length, length-append, append_assoc, ◌==◌, not, ◌&&◌, if◌then◌else◌, take-append, drop-append,
  inl, inr, Bool-cases,
}
use quadrf_mesh.Base.Bits.{bit_or-high_low, bit_or-low_high}
use quadrf_mesh.Base.Words.{bytes}
use quadrf_mesh.Pb.Wire.{
  varint_type, length_type, fixed32_type, tag, write_varint, write_tag, write_u32, write_bool,
  write_fixed32, write_float, write_bytes, Field, fixed32_at, parse_payload, parse_field,
}
use quadrf_mesh.Pb.Varint.{read_varint-write_varint}
use quadrf_mesh.Pb.Fields.{Writes, Writes-nil, Writes-one}

abbrev pub blank : ℕ → ℕ → Field
blank n type = record {
  number = n;
  type = type;
  varint = 0;
  fixed32 = 0;
  fixed64 = 0;
  payload = [];
}

abbrev pub varint_field : ℕ → ℕ → Field
varint_field n v = record (blank n varint_type) { varint = v }

abbrev pub fixed32_field : ℕ → ℕ → Field
fixed32_field n v = record (blank n fixed32_type) { fixed32 = v }

abbrev pub length_field : ℕ → List ℕ → Field
length_field n xs = record (blank n length_type) { payload = xs }

-- A tag is read back as the field number and the wire type.
parse_field-write_tag :
    (n type : ℕ) (rest : List ℕ)
    → n < 2 ^ 29
    → type < 8
    → parse_field (write_tag n type ++ rest) ≡ parse_payload (blank n type) rest
unfolding parse_field write_tag tag
parse_field-write_tag n type rest hn ht =
    let small : n * 2 ^ 3 % 2 ^ 32 ≡ n * 2 ^ 3 = omega arith in
    let joined : bit_or (n * 2 ^ 3 % 2 ^ 32) type ≡ n * 2 ^ 3 + type =
      rw small (bit_or-high_low 3 n type ht) in
    let number : (n * 2 ^ 3 + type) / 2 ^ 3 % 2 ^ 32 ≡ n = omega arith in
    let wire : (n * 2 ^ 3 + type) % 2 ^ 3 ≡ type = omega arith in
    rw (joined, read_varint-write_varint (n * 2 ^ 3 + type) rest (omega arith)) (rw (number, wire))

Writes-varint :
    (n v : ℕ)
    → n < 2 ^ 29
    → v < 2 ^ 64
    → Writes (write_tag n varint_type ++ write_varint v) (varint_field n v ∷ [])
Writes-varint n v hn hv = Writes-one _ (varint_field n v) read_back
  where
    read_back :
        (rest : List ℕ)
        → parse_field ((write_tag n varint_type ++ write_varint v) ++ rest)
          ≡ some (varint_field n v, rest)
    read_back rest =
        rw
          (
            append_assoc (write_tag n varint_type) (write_varint v) rest,
            parse_field-write_tag n varint_type (write_varint v ++ rest) hn (omega arith),
          )
          (unfold parse_payload in rw (read_varint-write_varint v rest hv))

abbrev four_bytes : ℕ → List ℕ
four_bytes v = v % 2 ^ 8 ∷ v / 2 ^ 8 % 2 ^ 8 ∷ v / 2 ^ 16 % 2 ^ 8 ∷ v / 2 ^ 24 % 2 ^ 8 ∷ []

fixed32_at-four_bytes : (v : ℕ) (rest : List ℕ) → v < 2 ^ 32 → fixed32_at (four_bytes v ++ rest) ≡ v
unfolding fixed32_at
fixed32_at-four_bytes v rest h =
    rw
      (
        bit_or-low_high 8 (v / 2 ^ 8 % 2 ^ 8) (v % 2 ^ 8) (omega arith),
        bit_or-low_high 16 (v / 2 ^ 16 % 2 ^ 8) (v / 2 ^ 8 % 2 ^ 8 * 2 ^ 8 + v % 2 ^ 8)
            (omega arith),
        bit_or-low_high 24 (v / 2 ^ 24 % 2 ^ 8)
            (v / 2 ^ 16 % 2 ^ 8 * 2 ^ 16 + (v / 2 ^ 8 % 2 ^ 8 * 2 ^ 8 + v % 2 ^ 8)) (omega arith),
      )
      (omega arith)

Writes-fixed32 :
    (n v : ℕ)
    → n < 2 ^ 29
    → v < 2 ^ 32
    → Writes (write_tag n fixed32_type ++ four_bytes v) (fixed32_field n v ∷ [])
Writes-fixed32 n v hn hv = Writes-one _ (fixed32_field n v) read_back
  where
    read_back :
        (rest : List ℕ)
        → parse_field ((write_tag n fixed32_type ++ four_bytes v) ++ rest)
          ≡ some (fixed32_field n v, rest)
    read_back rest =
        rw
          (
            append_assoc (write_tag n fixed32_type) (four_bytes v) rest,
            parse_field-write_tag n fixed32_type (four_bytes v ++ rest) hn (omega arith),
          )
          (unfold parse_payload in ground (arith, fixed32_at-four_bytes v rest hv))

Writes-length :
    (n : ℕ) (xs : List ℕ)
    → n < 2 ^ 29
    → length xs < 2 ^ 64
    → Writes (write_tag n length_type ++ (write_varint (length xs) ++ xs)) (length_field n xs ∷ [])
Writes-length n xs hn hx = Writes-one _ (length_field n xs) read_back
  where
    read_back :
        (rest : List ℕ)
        → parse_field ((write_tag n length_type ++ (write_varint (length xs) ++ xs)) ++ rest)
          ≡ some (length_field n xs, rest)
    read_back rest =
        rw
          (
            append_assoc (write_tag n length_type) (write_varint (length xs) ++ xs) rest,
            append_assoc (write_varint (length xs)) xs rest,
            parse_field-write_tag n length_type (write_varint (length xs) ++ (xs ++ rest)) hn
                (omega arith),
          )
          (unfold parse_payload in
            rw (read_varint-write_varint (length xs) (xs ++ rest) hx)
              (ground (arith, length-append xs rest, take-append xs rest, drop-append xs rest)))

-- The fields that the writers write: none for a default value.
abbrev pub u32_fields : ℕ → ℕ → List Field
u32_fields n v = if v == 0 then [] else (varint_field n v ∷ [])

abbrev pub bool_fields : ℕ → Bool → List Field
bool_fields n v = if not v then [] else (varint_field n 1 ∷ [])

abbrev pub fixed32_fields : ℕ → ℕ → List Field
fixed32_fields n v = if v == 0 then [] else (fixed32_field n v ∷ [])

abbrev pub float_fields : ℕ → ℕ → List Field
float_fields n v = if v % 2 ^ 31 == 0 then [] else (fixed32_field n v ∷ [])

abbrev pub bytes_fields : ℕ → List ℕ → Bool → List Field
bytes_fields n xs force = if not force && (length xs == 0) then [] else (length_field n xs ∷ [])

module _ (n : ℕ) (small : n < 2 ^ 29) where
  pub Writes-write_u32 : (v : ℕ) → v < 2 ^ 64 → Writes (write_u32 n v) (u32_fields n v)
  unfolding write_u32
  Writes-write_u32 v h = elim (Bool-cases (v == 0)) [
    | inl z ↦ rw z Writes-nil
    | inr nz ↦ rw nz (Writes-varint n v small h)
  ]

  pub Writes-write_bool : (v : Bool) → Writes (write_bool n v) (bool_fields n v)
  unfolding write_bool
  Writes-write_bool false = Writes-nil
  Writes-write_bool true = Writes-varint n 1 small (omega arith)

  pub Writes-write_fixed32 : (v : ℕ) → v < 2 ^ 32 → Writes (write_fixed32 n v) (fixed32_fields n v)
  unfolding write_fixed32
  Writes-write_fixed32 v h = elim (Bool-cases (v == 0)) [
    | inl z ↦ rw z Writes-nil
    | inr nz ↦ rw nz (Writes-fixed32 n v small h)
  ]

  pub Writes-write_float : (v : ℕ) → v < 2 ^ 32 → Writes (write_float n v) (float_fields n v)
  unfolding write_float
  Writes-write_float v h = elim (Bool-cases (v % 2 ^ 31 == 0)) [
    | inl z ↦ rw z Writes-nil
    | inr nz ↦ rw nz (Writes-fixed32 n v small h)
  ]

  pub Writes-write_bytes :
      (xs : List ℕ) (force : Bool)
      → length xs < 2 ^ 64
      → Writes (write_bytes n (bytes xs) force) (bytes_fields n xs force)
  unfolding write_bytes
  Writes-write_bytes xs force h = elim (Bool-cases (not force && (length xs == 0))) [
    | inl z ↦ rw z Writes-nil
    | inr nz ↦ rw nz (Writes-length n xs small h)
  ]
