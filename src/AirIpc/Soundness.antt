-- ===== src/AirIpc/Soundness.antt =====
-- Whatever the bytes are, a frame that the Air-IPC deframer appends stood on the wire.
use quadrf_mesh.Base.{
  ℕ, ◌+◌, ◌*◌, ◌/◌, ◌%◌, ◌^◌, ◌≤◌, ◌<◌, ◌≡◌, refl, ap, arith, List, [], ◌∷◌, ◌++◌, some, length,
  length-append, append_assoc, append-nil, true, inl, inr, ◌||◌, ltb, Bool-cases, ◌==◌,
  if◌then◌else◌, All, All-append, bit_or,
}
use quadrf_mesh.Base.Bits.{bit_or-high_low}
use quadrf_mesh.Base.Words.{u64, bytes, IsBytes}
use quadrf_mesh.AirIpc.Wire.{max_body_len, message_type_known, encode_frame}
use quadrf_mesh.AirIpc.Framing.{header, encode_frame_legal, on_byte_shift, feed_loop-cons}
use quadrf_mesh.AirIpc.Deframer.{
  State, Frame, Deframer, Fed, on_byte, reject_and_resync, feed_loop, feed, fresh,
}

-- `seen` ends with `tail`.
abbrev Ends : List ℕ → List ℕ → Type 0
Ends tail seen = (front : List ℕ) × (seen ≡ front ++ tail)

Ends-push :
    (tail seen : List ℕ) (b : ℕ) → Ends tail seen → Ends (tail ++ (b ∷ [])) (seen ++ (b ∷ []))
Ends-push tail seen b (front, e) = (front, rw e (append_assoc front tail (b ∷ [])))

Ends-self : (seen : List ℕ) (b : ℕ) → Ends (b ∷ []) (seen ++ (b ∷ []))
Ends-self seen b = (seen, refl)

-- The frame's encoding is a segment of the bytes.
abbrev pub OnWire : List ℕ → Frame → Type 0
OnWire seen f =
    (front : List ℕ) × (sent : List ℕ) × (back : List ℕ) × (seen ≡ front ++ (sent ++ back))
    × (encode_frame f.type (bytes f.body) ≡ some sent)
    × (message_type_known f.type ≡ true)

-- What the bytes so far end with, state by state.
abbrev Trace : State → Deframer → List ℕ → Type 0
Trace State.scan_magic0 d seen = Unit
Trace State.expect_magic1 d seen = Ends (0x51 ∷ []) seen
Trace State.version d seen = Ends (0x51 ∷ 0x46 ∷ []) seen
Trace State.type d seen = Ends (0x51 ∷ 0x46 ∷ 1 ∷ []) seen
Trace State.len_hi d seen =
    Ends (0x51 ∷ 0x46 ∷ 1 ∷ d.type ∷ []) seen × (message_type_known d.type ≡ true)
Trace State.len_lo d seen =
    Ends (0x51 ∷ 0x46 ∷ 1 ∷ d.type ∷ d.body_length / 2 ^ 8 ∷ []) seen
    × (message_type_known d.type ≡ true)
    × (d.body_length % 2 ^ 8 ≡ 0)
    × (d.body_length < 2 ^ 16)
Trace State.body d seen =
    Ends (0x51 ∷ 0x46 ∷ 1 ∷ d.type ∷ d.body_length / 2 ^ 8 ∷ d.body_length % 2 ^ 8 ∷ d.body) seen
    × (message_type_known d.type ≡ true)
    × (length d.body < d.body_length)
    × (d.body_length ≤ max_body_len)

abbrev Sound : Fed → List ℕ → Type 0
Sound f seen = Trace f.deframer.state f.deframer seen × All (OnWire seen) f.output

OnWire-push : (seen : List ℕ) (b : ℕ) (f : Frame) → OnWire seen f → OnWire (seen ++ (b ∷ [])) f
OnWire-push seen b f (front, sent, back, e, enc, known) = (
  front,
  sent,
  back ++ (b ∷ []),
  rw (e, append_assoc front (sent ++ back) (b ∷ []), append_assoc sent back (b ∷ [])),
  enc,
  known,
)

All-OnWire-push :
    (fs : List Frame) (seen : List ℕ) (b : ℕ)
    → All (OnWire seen) fs
    → All (OnWire (seen ++ (b ∷ []))) fs
All-OnWire-push [] seen b h = tt
All-OnWire-push (f ∷ fs) seen b h = (OnWire-push seen b f h.0, All-OnWire-push fs seen b h.1)

-- `reject_and_resync` keeps a first magic byte.
resync-Trace :
    (d : Deframer) (seen : List ℕ) (b : ℕ)
    → let d' = reject_and_resync d b in Trace d'.state d' (seen ++ (b ∷ []))
unfolding reject_and_resync
resync-Trace d seen b = elim (Bool-cases (b == 0x51)) [
  | inl e ↦ let is : b ≡ 0x51 = ground arith in rw e (rw is (Ends-self seen 0x51))
  | inr e ↦ rw e tt
]

on_byte-scan :
    (d : Deframer) (seen : List ℕ) (b : ℕ)
    → let d' = (on_byte State.scan_magic0 d [] 0 b).deframer in
      d.state ≡ State.scan_magic0 → Trace d'.state d' (seen ++ (b ∷ []))
unfolding on_byte
on_byte-scan d seen b s = elim (Bool-cases (b == 0x51)) [
  | inl e ↦ let is : b ≡ 0x51 = ground arith in rw e (rw is (Ends-self seen 0x51))
  | inr e ↦ rw (e, s) tt
]

on_byte-expect :
    (d : Deframer) (seen : List ℕ) (b : ℕ)
    → let d' = (on_byte State.expect_magic1 d [] 0 b).deframer in
      d.state ≡ State.expect_magic1
      → Trace State.expect_magic1 d seen
      → Trace d'.state d' (seen ++ (b ∷ []))
unfolding on_byte
on_byte-expect d seen b s h = elim (Bool-cases (b == 0x46)) [
  | inl e ↦ let is : b ≡ 0x46 = ground arith in rw e (rw is (Ends-push _ seen 0x46 h))
  | inr e ↦ elim (Bool-cases (b == 0x51)) [
    | inl m ↦ let is : b ≡ 0x51 = ground arith in rw (e, m, s) (rw is (Ends-self seen 0x51))
    | inr m ↦ rw (e, m) tt
  ]
]

on_byte-version :
    (d : Deframer) (seen : List ℕ) (b : ℕ)
    → let d' = (on_byte State.version d [] 0 b).deframer in
      Trace State.version d seen → Trace d'.state d' (seen ++ (b ∷ []))
unfolding on_byte
on_byte-version d seen b h = elim (Bool-cases (b == 1)) [
  | inl e ↦ let is : b ≡ 1 = ground arith in rw e (rw is (Ends-push _ seen 1 h))
  | inr e ↦ rw e (resync-Trace d seen b)
]

on_byte-type :
    (d : Deframer) (seen : List ℕ) (b : ℕ)
    → let d' = (on_byte State.type d [] 0 b).deframer in
      Trace State.type d seen → Trace d'.state d' (seen ++ (b ∷ []))
unfolding on_byte
on_byte-type d seen b h = elim (Bool-cases (message_type_known b)) [
  | inl e ↦ rw e (Ends-push _ seen b h, e)
  | inr e ↦ rw e (resync-Trace d seen b)
]

on_byte-len_hi :
    (d : Deframer) (seen : List ℕ) (b : ℕ)
    → let d' = (on_byte State.len_hi d [] 0 b).deframer in
      b < 256 → Trace State.len_hi d seen → Trace d'.state d' (seen ++ (b ∷ []))
unfolding on_byte
on_byte-len_hi d seen b byte h =
    let e : b * 2 ^ 8 % 2 ^ 16 / 2 ^ 8 ≡ b = omega arith in
    (rw e (Ends-push _ seen b h.0), h.1, omega arith, omega arith)

abbrev sized : Deframer → ℕ → Deframer
sized d n =
    if n == 0 || ltb max_body_len n
    then record d {
      frames_rejected = u64 (d.frames_rejected + 1);
      state = State.scan_magic0;
      body_length = 0;
    }
    else record d { body_length = n; body = []; state = State.body }

sized-Trace :
    (d : Deframer) (seen : List ℕ) (b n : ℕ)
    → b < 256
    → n ≡ d.body_length / 2 ^ 8 * 2 ^ 8 + b
    → Trace State.len_lo d seen
    → Trace (sized d n).state (sized d n) (seen ++ (b ∷ []))
sized-Trace d seen b n byte e h = elim (Bool-cases (n == 0 || ltb max_body_len n)) [
  | inl bad ↦ rw bad tt
  | inr fits ↦
      let hi : n / 2 ^ 8 ≡ d.body_length / 2 ^ 8 = omega arith in
      let lo : n % 2 ^ 8 ≡ b = omega arith in
      rw fits (rw (hi, lo) (Ends-push _ seen b h.0), h.1, ground arith, ground arith)
]

on_byte-len_lo :
    (d : Deframer) (seen : List ℕ) (b : ℕ)
    → let d' = (on_byte State.len_lo d [] 0 b).deframer in
      b < 256 → Trace State.len_lo d seen → Trace d'.state d' (seen ++ (b ∷ []))
unfolding on_byte
on_byte-len_lo d seen b byte h =
    let q = d.body_length / 2 ^ 8 in
    let split : q * 2 ^ 8 ≡ d.body_length = omega arith in
    let n : bit_or d.body_length b % 2 ^ 16 ≡ q * 2 ^ 8 + b =
      omega (arith, bit_or-high_low 8 q b byte, ap (λ t. bit_or t b) split) in
    sized-Trace d seen b (bit_or d.body_length b % 2 ^ 16) byte n h

-- The only case that appends a frame.
on_byte-body :
    (d : Deframer) (out : List Frame) (seen : List ℕ) (b : ℕ)
    → d.state ≡ State.body
    → Trace State.body d seen
    → All (OnWire seen) out
    → Sound (on_byte State.body d out 0 b) (seen ++ (b ∷ []))
unfolding on_byte
on_byte-body d out seen b s ((front, e), known, short, fits) h =
    let pushed = d.body ++ (b ∷ []) in
    let grown : length pushed ≡ length d.body + 1 = length-append d.body (b ∷ []) in
    let old = All-OnWire-push out seen b h in
    elim (Bool-cases (length pushed == d.body_length)) [
      | inl full ↦
          let n : length pushed ≡ d.body_length = ground arith in
          let enc = encode_frame_legal d.type pushed (ground arith) (omega arith) (omega arith) in
          let here : seen ++ (b ∷ []) ≡ front ++ ((header d.type d.body_length ++ pushed) ++ []) =
            rw (e, append-nil) (append_assoc front _ (b ∷ [])) in
          rw full (
            tt,
            All-append (OnWire (seen ++ (b ∷ []))) out _ old
                ((front, header d.type d.body_length ++ pushed, [], here, rw (← n) enc, known), tt),
          )
      | inr more ↦
          let ends = Ends-push _ seen b (front, e) in
          rw (more, s) ((ends, known, ground arith, fits), old)
    ]

on_byte-Sound :
    (st : State) (d : Deframer) (out : List Frame) (seen : List ℕ) (b : ℕ)
    → d.state ≡ st
    → b < 256
    → Trace st d seen
    → All (OnWire seen) out
    → Sound (on_byte st d out 0 b) (seen ++ (b ∷ []))
unfolding on_byte
on_byte-Sound State.scan_magic0 d out seen b s byte t h =
    (on_byte-scan d seen b s, All-OnWire-push out seen b h)
on_byte-Sound State.expect_magic1 d out seen b s byte t h =
    (on_byte-expect d seen b s t, All-OnWire-push out seen b h)
on_byte-Sound State.version d out seen b s byte t h =
    (on_byte-version d seen b t, All-OnWire-push out seen b h)
on_byte-Sound State.type d out seen b s byte t h =
    (on_byte-type d seen b t, All-OnWire-push out seen b h)
on_byte-Sound State.len_hi d out seen b s byte t h =
    (on_byte-len_hi d seen b byte t, All-OnWire-push out seen b h)
on_byte-Sound State.len_lo d out seen b s byte t h =
    (on_byte-len_lo d seen b byte t, All-OnWire-push out seen b h)
on_byte-Sound State.body d out seen b s byte t h = on_byte-body d out seen b s t h

feed_loop-Sound :
    (xs : List ℕ) (f : Fed) (seen : List ℕ)
    → IsBytes xs
    → Sound f seen
    → Sound (feed_loop f xs) (seen ++ xs)
feed_loop-Sound [] f seen h s = unfold feed_loop in rw append-nil s
feed_loop-Sound (b ∷ bs) f seen h s =
    let d = f.deframer in
    let step : Sound (on_byte d.state d f.output f.produced b) (seen ++ (b ∷ [])) =
      rw (on_byte_shift d.state d f.output f.produced b)
        (on_byte-Sound d.state d f.output seen b refl h.0 s.0 s.1) in
    rw (feed_loop-cons f b bs) (
      rw (append_assoc seen (b ∷ []) bs) at
        (feed_loop-Sound bs (on_byte d.state d f.output f.produced b) (seen ++ (b ∷ [])) h.1 step))

-- Every frame that a fresh deframer appends, on any bytes, is of a known type, and its encoding
-- stands on the wire as one piece.
pub feed-OnWire :
    (wire : List ℕ) → IsBytes wire → All (OnWire wire) (feed fresh (bytes wire) []).output
unfolding feed fresh
feed-OnWire wire h =
    (feed_loop-Sound wire (record { deframer = fresh; output = []; produced = 0 }) [] h (tt, tt)).1
