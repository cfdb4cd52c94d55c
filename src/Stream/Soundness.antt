-- ===== src/Stream/Soundness.antt =====
-- Whatever the bytes are, a payload that the StreamAPI deframer appends stood framed on the wire.
use quadrf_mesh.Base.{
  ℕ, ◌+◌, ◌*◌, ◌/◌, ◌%◌, ◌^◌, ◌≤◌, ◌<◌, ◌≡◌, refl, ap, arith, List, [], ◌∷◌, ◌++◌, some, length,
  length-append, append_assoc, append-nil, inl, inr, ltb, leb, Bool-cases, ◌==◌, if◌then◌else◌, All,
  All-append, bit_or,
}
use quadrf_mesh.Base.Bits.{bit_or-high_low}
use quadrf_mesh.Base.Words.{u64, bytes, IsBytes}
use quadrf_mesh.Stream.Framer.{
  max_payload, frame, State, Deframer, Fed, on_byte, feed_loop, feed, fresh,
}
use quadrf_mesh.Stream.Framing.{header, frame_lem, on_byte_shift, feed_loop-cons}

-- `seen` ends with `tail`.
abbrev Ends : List ℕ → List ℕ → Type 0
Ends tail seen = (front : List ℕ) × (seen ≡ front ++ tail)

Ends-push :
    (tail seen : List ℕ) (b : ℕ) → Ends tail seen → Ends (tail ++ (b ∷ [])) (seen ++ (b ∷ []))
Ends-push tail seen b (front, e) = (front, rw e (append_assoc front tail (b ∷ [])))

-- What `frame` makes of the payload is a segment of the bytes.
abbrev pub OnWire : List ℕ → List ℕ → Type 0
OnWire seen payload =
    (front : List ℕ) × (sent : List ℕ) × (back : List ℕ) × (seen ≡ front ++ (sent ++ back))
    × (frame (bytes payload) ≡ some sent)

-- What the bytes so far end with, state by state.
abbrev Trace : State → Deframer → List ℕ → Type 0
Trace State.scan_start1 d seen = Unit
Trace State.expect_start2 d seen = Ends (0x94 ∷ []) seen
Trace State.len_hi d seen = Ends (0x94 ∷ 0xc3 ∷ []) seen
Trace State.len_lo d seen =
    Ends (0x94 ∷ 0xc3 ∷ d.len / 2 ^ 8 ∷ []) seen × (d.len % 2 ^ 8 ≡ 0) × (d.len < 2 ^ 16)
Trace State.payload d seen =
    Ends (0x94 ∷ 0xc3 ∷ d.len / 2 ^ 8 ∷ d.len % 2 ^ 8 ∷ d.buf) seen
    × (length d.buf < d.len)
    × (d.len ≤ max_payload)

abbrev Sound : Fed → List ℕ → Type 0
Sound f seen = Trace f.deframer.state f.deframer seen × All (OnWire seen) f.output

All-OnWire-push :
    (ps : List (List ℕ)) (seen : List ℕ) (b : ℕ)
    → All (OnWire seen) ps
    → All (OnWire (seen ++ (b ∷ []))) ps
All-OnWire-push [] seen b h = tt
All-OnWire-push (p ∷ ps) seen b ((front, sent, back, e, enc), h) = (
  (
    front,
    sent,
    back ++ (b ∷ []),
    rw (e, append_assoc front (sent ++ back) (b ∷ []), append_assoc sent back (b ∷ [])),
    enc,
  ),
  All-OnWire-push ps seen b h,
)

-- A payload whose frame ends here is on the wire.
Ends-OnWire :
    (payload seen : List ℕ)
    → length payload ≤ max_payload
    → Ends (header (length payload) ++ payload) seen
    → OnWire seen payload
Ends-OnWire payload seen hi (front, e) = (
  front,
  header (length payload) ++ payload,
  [],
  rw (e, append-nil),
  (frame_lem payload _).1 (hi, refl),
)

on_byte-scan :
    (d : Deframer) (seen : List ℕ) (b : ℕ)
    → d.state ≡ State.scan_start1
    → let d' = (on_byte State.scan_start1 d [] 0 b).deframer in Trace d'.state d' (seen ++ (b ∷ []))
unfolding on_byte
on_byte-scan d seen b s = elim (Bool-cases (b == 0x94)) [
  | inl e ↦ let is : b ≡ 0x94 = ground arith in rw e (rw is (seen, refl))
  | inr e ↦ rw (e, s) tt
]

on_byte-expect :
    (d : Deframer) (seen : List ℕ) (b : ℕ)
    → d.state ≡ State.expect_start2
    → Trace State.expect_start2 d seen
    → let d' = (on_byte State.expect_start2 d [] 0 b).deframer in
      Trace d'.state d' (seen ++ (b ∷ []))
unfolding on_byte
on_byte-expect d seen b s h = elim (Bool-cases (b == 0xc3)) [
  | inl e ↦ let is : b ≡ 0xc3 = ground arith in rw e (rw is (Ends-push _ seen 0xc3 h))
  | inr e ↦ elim (Bool-cases (b == 0x94)) [
    | inl m ↦ let is : b ≡ 0x94 = ground arith in rw (e, m, s) (rw is (seen, refl))
    | inr m ↦ rw (e, m) tt
  ]
]

on_byte-len_hi :
    (d : Deframer) (seen : List ℕ) (b : ℕ)
    → b < 256
    → Trace State.len_hi d seen
    → let d' = (on_byte State.len_hi d [] 0 b).deframer in Trace d'.state d' (seen ++ (b ∷ []))
unfolding on_byte
on_byte-len_hi d seen b byte h =
    let e : b * 2 ^ 8 % 2 ^ 16 / 2 ^ 8 ≡ b = omega arith in
    (rw e (Ends-push _ seen b h), omega arith, omega arith)

-- The last length byte, with the length that it completes.
abbrev sized : Deframer → List (List ℕ) → ℕ → Fed
sized d output n =
    if ltb max_payload n
    then record {
      deframer = record d {
        frames_rejected = u64 (d.frames_rejected + 1);
        state = State.scan_start1;
        len = 0;
      };
      output = output;
      produced = 0;
    }
    else if n == 0
    then record {
      deframer = record d { len = n; frames_ok = u64 (d.frames_ok + 1); state = State.scan_start1 };
      output = output ++ ([] ∷ []);
      produced = 0 + 1;
    }
    else record {
      deframer = record d { len = n; buf = []; state = State.payload };
      output = output;
      produced = 0;
    }

sized-Sound :
    (d : Deframer) (out : List (List ℕ)) (seen : List ℕ) (b n : ℕ)
    → b < 256
    → n ≡ d.len / 2 ^ 8 * 2 ^ 8 + b
    → Trace State.len_lo d seen
    → All (OnWire seen) out
    → Sound (sized d out n) (seen ++ (b ∷ []))
sized-Sound d out seen b n byte e t h =
    let hi : n / 2 ^ 8 ≡ d.len / 2 ^ 8 = omega arith in
    let lo : n % 2 ^ 8 ≡ b = omega arith in
    let old = All-OnWire-push out seen b h in
    let ends : Ends (0x94 ∷ 0xc3 ∷ n / 2 ^ 8 ∷ n % 2 ^ 8 ∷ []) (seen ++ (b ∷ [])) =
      rw (hi, lo) (Ends-push _ seen b t.0) in
    elim (Bool-cases (ltb max_payload n)) [
      | inl big ↦ rw big (tt, old)
      | inr fits ↦ elim (Bool-cases (n == 0)) [
        | inl z ↦
            let zero_len : n ≡ 0 = ground arith in
            let here = Ends-OnWire [] (seen ++ (b ∷ [])) (omega arith) (rw zero_len at ends) in
            rw (fits, z) (tt, All-append (OnWire (seen ++ (b ∷ []))) out _ old (here, tt))
        | inr more ↦ rw (fits, more) ((ends, ground arith, ground arith), old)
      ]
    ]

on_byte-len_lo :
    (d : Deframer) (out : List (List ℕ)) (seen : List ℕ) (b : ℕ)
    → b < 256
    → Trace State.len_lo d seen
    → All (OnWire seen) out
    → Sound (on_byte State.len_lo d out 0 b) (seen ++ (b ∷ []))
unfolding on_byte
on_byte-len_lo d out seen b byte t h =
    let q = d.len / 2 ^ 8 in
    let split : q * 2 ^ 8 ≡ d.len = omega arith in
    let n : bit_or d.len b % 2 ^ 16 ≡ q * 2 ^ 8 + b =
      omega (arith, bit_or-high_low 8 q b byte, ap (λ t. bit_or t b) split) in
    sized-Sound d out seen b (bit_or d.len b % 2 ^ 16) byte n t h

on_byte-payload :
    (d : Deframer) (out : List (List ℕ)) (seen : List ℕ) (b : ℕ)
    → d.state ≡ State.payload
    → Trace State.payload d seen
    → All (OnWire seen) out
    → Sound (on_byte State.payload d out 0 b) (seen ++ (b ∷ []))
unfolding on_byte
on_byte-payload d out seen b s (ends, short, fits) h =
    let pushed = d.buf ++ (b ∷ []) in
    let grown : length pushed ≡ length d.buf + 1 = length-append d.buf (b ∷ []) in
    let old = All-OnWire-push out seen b h in
    let ends' = Ends-push _ seen b ends in
    elim (Bool-cases (leb d.len (length pushed))) [
      | inl full ↦
          let n : length pushed ≡ d.len = ground arith in
          let here = Ends-OnWire pushed (seen ++ (b ∷ [])) (omega arith) (rw n ends') in
          rw full (tt, All-append (OnWire (seen ++ (b ∷ []))) out _ old (here, tt))
      | inr more ↦ rw (more, s) ((ends', ground arith, fits), old)
    ]

on_byte-Sound :
    (st : State) (d : Deframer) (out : List (List ℕ)) (seen : List ℕ) (b : ℕ)
    → d.state ≡ st
    → b < 256
    → Trace st d seen
    → All (OnWire seen) out
    → Sound (on_byte st d out 0 b) (seen ++ (b ∷ []))
unfolding on_byte
on_byte-Sound State.scan_start1 d out seen b s byte t h =
    (on_byte-scan d seen b s, All-OnWire-push out seen b h)
on_byte-Sound State.expect_start2 d out seen b s byte t h =
    (on_byte-expect d seen b s t, All-OnWire-push out seen b h)
on_byte-Sound State.len_hi d out seen b s byte t h =
    (on_byte-len_hi d seen b byte t, All-OnWire-push out seen b h)
on_byte-Sound State.len_lo d out seen b s byte t h = on_byte-len_lo d out seen b byte t h
on_byte-Sound State.payload d out seen b s byte t h = on_byte-payload d out seen b s t h

feed_loop-Sound :
    (xs : List ℕ) (f : Fed) (seen : List ℕ)
    → IsBytes xs
    → Sound f seen
    → Sound (feed_loop f xs) (seen ++ xs)
feed_loop-Sound [] f seen h s = unfold feed_loop in rw append-nil s
feed_loop-Sound (b ∷ bs) f seen h s =
    let d = f.deframer in
    let step : Sound (on_byte d.state d f.output f.produced b) (seen ++ (b ∷ [])) =
      rw (on_byte_shift d.state d f.output f.produced b)
        (on_byte-Sound d.state d f.output seen b refl h.0 s.0 s.1) in
    rw (feed_loop-cons f b bs) (
      rw (append_assoc seen (b ∷ []) bs) at
        (feed_loop-Sound bs (on_byte d.state d f.output f.produced b) (seen ++ (b ∷ [])) h.1 step))

-- Every payload that a fresh StreamAPI deframer appends, on any bytes, stood on the wire in one
-- piece as `frame` writes it.
pub stream_feed-OnWire :
    (wire : List ℕ) → IsBytes wire → All (OnWire wire) (feed fresh (bytes wire) []).output
unfolding feed fresh
stream_feed-OnWire wire h =
    (feed_loop-Sound wire (record { deframer = fresh; output = []; produced = 0 }) [] h (tt, tt)).1
