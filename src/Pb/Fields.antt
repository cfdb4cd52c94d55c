-- ===== src/Pb/Fields.antt =====
-- What `parseFields` makes of bytes that the writers wrote, field by field.
use quadrf_mesh.Base.{
  ℕ, zero, suc, ◌+◌, ◌-◌, ◌*◌, ◌/◌, ◌%◌, ◌^◌, ◌≤◌, ◌<◌, ◌≡◌, ◌⊎◌, refl, sym, Option, none, ap, ◌∙◌,
  arith, bit_or, List, [], ◌∷◌, ◌++◌, some, length, length-append, append_assoc, append-nil,
  length-drop, inl, inr, Option-cases,
}
use quadrf_mesh.Base.Words.{bytes}
use quadrf_mesh.Pb.Wire.{
  read_varint, read_varint_loop, Field, parse_payload, parse_field, parse_loop, parse_fields,
}

read_varint_loop_takes :
    (p : List ℕ) (shift v w : ℕ) (rest : List ℕ)
    → read_varint_loop p shift v ≡ some (w, rest)
    → length rest < length p
unfolding read_varint_loop
read_varint_loop_takes [] shift v w rest e = cc
read_varint_loop_takes (b ∷ p) shift v w rest e =
    let v' = bit_or v (b % 2 ^ 7 * 2 ^ shift % 2 ^ 64) in
    ground (arith, read_varint_loop_takes p (shift + 7) v' w rest)

read_varint_takes :
    (p : List ℕ) (w : ℕ) (rest : List ℕ) → read_varint p ≡ some (w, rest) → length rest < length p
unfolding read_varint
read_varint_takes p w rest e = read_varint_loop_takes p 0 0 w rest e

parse_payload_takes :
    (f g : Field) (p rest : List ℕ) → parse_payload f p ≡ some (g, rest) → length rest ≤ length p
unfolding parse_payload
parse_payload_takes f g p rest e = elim (Option-cases (read_varint p)) [
  | inl e0 ↦ ground (arith, length-drop 8 p, length-drop 4 p)
  | inr ((w, r), e1) ↦
      ground (arith, read_varint_takes p w r e1, length-drop 8 p, length-drop 4 p, length-drop w r)
]

parse_field_takes :
    (p : List ℕ) (f : Field) (rest : List ℕ)
    → parse_field p ≡ some (f, rest)
    → length rest < length p
unfolding parse_field
parse_field_takes p f rest e = elim (Option-cases (read_varint p)) [
  | inl e0 ↦ ground arith
  | inr ((w, r), e1) ↦
      let blank : Field = record {
        number = w / 2 ^ 3 % 2 ^ 32;
        type = w % 2 ^ 3;
        varint = 0;
        fixed32 = 0;
        fixed64 = 0;
        payload = [];
      } in
      ground (arith, read_varint_takes p w r e1, parse_payload_takes blank f r rest)
]

-- `Parses p fs`: with a round for each byte, or more, the loop reads exactly `fs` from `p`.
abbrev pub Parses : List ℕ → List Field → Type 0
Parses p fs =
    (fuel : ℕ) (out : List Field) → length p ≤ fuel → parse_loop fuel p out ≡ some (out ++ fs)

Parses-nil : Parses [] []
unfolding parse_loop
Parses-nil zero out h = ground (arith, append-nil out)
Parses-nil (suc fuel) out h = ground (arith, append-nil out)

-- `Writes bs fs`: in front of anything that parses, the bytes read as these fields.
abbrev pub Writes : List ℕ → List Field → Type 0
Writes bs fs =
    (rest : List ℕ) (more : List Field) → Parses rest more → Parses (bs ++ rest) (fs ++ more)

pub Writes-append :
    (xs ys : List ℕ) (fs gs : List Field)
    → Writes xs fs
    → Writes ys gs
    → Writes (xs ++ ys) (fs ++ gs)
Writes-append xs ys fs gs h k rest more p =
    rw (append_assoc xs ys rest, append_assoc fs gs more)
      (h (ys ++ rest) (gs ++ more) (k rest more p))

pub Writes-nil : Writes [] []
Writes-nil rest more p = p

Writes-cons :
    (b : ℕ) (bs : List ℕ) (f : Field)
    → ((rest : List ℕ) → parse_field (b ∷ (bs ++ rest)) ≡ some (f, rest))
    → Writes (b ∷ bs) (f ∷ [])
unfolding parse_loop
Writes-cons b bs f h rest more p zero out le = absurd (omega arith)
Writes-cons b bs f h rest more p (suc fuel) out le = rw (h rest) (
    p fuel (out ++ (f ∷ [])) (omega (arith, length-append bs rest))
    ∙ ap some (append_assoc out (f ∷ []) more))

-- Bytes that are read as one field, whatever follows.
pub Writes-one :
    (bs : List ℕ) (f : Field)
    → ((rest : List ℕ) → parse_field (bs ++ rest) ≡ some (f, rest))
    → Writes bs (f ∷ [])
Writes-one [] f h = absurd (omega (arith, parse_field_takes [] f [] (h [])))
Writes-one (b ∷ bs) f h = Writes-cons b bs f h

suc_add : (m n : ℕ) → suc m + n ≡ suc (m + n)
suc_add m n = omega arith

parse_loop_fuel :
    (fuel more : ℕ) (p : List ℕ) (out : List Field)
    → length p ≤ fuel
    → parse_loop (fuel + more) p out ≡ parse_loop fuel p out
unfolding parse_loop
parse_loop_fuel zero more [] out h = ground arith
parse_loop_fuel (suc fuel) more [] out h = ground arith
parse_loop_fuel zero more (b ∷ p) out h = absurd (omega arith)
parse_loop_fuel (suc fuel) more (b ∷ p) out h =
    rw (suc_add fuel more) (elim (Option-cases (parse_field (b ∷ p))) [
      | inl e ↦ rw e
      | inr ((f, rest), e) ↦ rw e (
          parse_loop_fuel fuel more rest (out ++ (f ∷ []))
            (omega (arith, parse_field_takes (b ∷ p) f rest e)))
    ])

-- `Reads p fs rest`: from `p` the fields `fs` are read one after the other, and `rest` is left.
pub data Reads : List ℕ → List Field → List ℕ → Type 0 where
  stop : (p : List ℕ) → Reads p [] p
  next :
      {fs : List Field} {rest : List ℕ} (b : ℕ) (p : List ℕ) (f : Field) (later : List ℕ)
      → parse_field (b ∷ p) ≡ some (f, later)
      → Reads later fs rest
      → Reads (b ∷ p) (f ∷ fs) rest

-- Either the input is read to its end, or a field at which some bytes are left cannot be read.
abbrev pub Outcome : List ℕ → List Field → Option (List Field) → Type 0
Outcome p out result =
    ((fs : List Field) × Reads p fs [] × (result ≡ some (out ++ fs)))
    ⊎ ((fs : List Field) × (b : ℕ) × (rest : List ℕ) × Reads p fs (b ∷ rest)
        × (parse_field (b ∷ rest) ≡ none)
        × (result ≡ none))

Outcome-next :
    (b : ℕ) (p : List ℕ) (f : Field) (later : List ℕ) (out : List Field)
    (result : Option (List Field))
    → parse_field (b ∷ p) ≡ some (f, later)
    → Outcome later (out ++ (f ∷ [])) result
    → Outcome (b ∷ p) out result
Outcome-next b p f later out result e (inl (fs, reads, same)) =
    inl (f ∷ fs, Reads.next b p f later e reads, same ∙ ap some (append_assoc out (f ∷ []) fs))
Outcome-next b p f later out result e (inr (fs, c, rest, reads, bad, same)) =
    inr (f ∷ fs, c, rest, Reads.next b p f later e reads, bad, same)

parse_loop-Outcome :
    (fuel : ℕ) (p : List ℕ) (out : List Field)
    → length p ≤ fuel
    → Outcome p out (parse_loop fuel p out)
unfolding parse_loop
parse_loop-Outcome zero [] out h = inl ([], Reads.stop [], ap some (sym (append-nil out)))
parse_loop-Outcome (suc fuel) [] out h = inl ([], Reads.stop [], ap some (sym (append-nil out)))
parse_loop-Outcome zero (b ∷ p) out h = absurd (omega arith)
parse_loop-Outcome (suc fuel) (b ∷ p) out h = elim (Option-cases (parse_field (b ∷ p))) [
  | inl e ↦ rw e (inr ([], b, p, Reads.stop (b ∷ p), e, refl))
  | inr ((f, rest), e) ↦ rw e (
      Outcome-next b p f rest out (parse_loop fuel rest (out ++ (f ∷ []))) e (
        parse_loop-Outcome fuel rest (out ++ (f ∷ []))
          (omega (arith, parse_field_takes (b ∷ p) f rest e))))
]

-- `parseFields` terminates: a round for each byte is enough, and more never change the result. It
-- returns the fields read one after the other to the end of the input, or refuses it at a field
-- that cannot be read, with bytes left.
pub parse_fields_terminates :
    (p : List ℕ) (fuel : ℕ)
    → length p ≤ fuel
    → (parse_loop fuel p [] ≡ parse_fields (bytes p)) × Outcome p [] (parse_fields (bytes p))
unfolding parse_fields
parse_fields_terminates p fuel h =
    let e : fuel ≡ length p + (fuel - length p) = omega arith in
    (
      rw e (parse_loop_fuel (length p) (fuel - length p) p [] (omega arith)),
      parse_loop-Outcome (length p) p [] (omega arith),
    )

-- Bytes that write some fields parse as these fields.
pub parse_fields-Writes :
    (bs : List ℕ) (fs : List Field) → Writes bs fs → parse_fields (bytes bs) ≡ some fs
unfolding parse_fields
parse_fields-Writes bs fs h =
    rw (append-nil bs, append-nil fs) at (h [] [] Parses-nil (length (bs ++ [])) [] (omega arith))
