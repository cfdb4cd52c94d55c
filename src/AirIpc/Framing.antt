-- ===== src/AirIpc/Framing.antt =====
-- What the Air-IPC deframer does with the bytes that the encoder writes, however they are cut.
use quadrf_mesh.Base.{
  ℕ, suc, ◌+◌, ◌≢◌, append-nil, All, ◌/◌, ◌%◌, ◌^◌, ◌≤◌, ◌<◌, ◌≡◌, refl, ◌∙◌, arith, List, [], ◌∷◌,
  ◌++◌, some, length, length-append, append_assoc, bit_or, ◌*◌, true,
}
use quadrf_mesh.Base.Bits.{bit_or-high_low}
use quadrf_mesh.Base.Words.{u64, bytes}
use quadrf_mesh.AirIpc.Wire.{magic0, max_body_len, message_type_known, encode_frame}
use quadrf_mesh.AirIpc.Deframer.{State, Frame, Deframer, Fed, on_byte, feed_loop, feed}

-- A call of the loop on a concatenation is the loop on one part and then on the other.
feed_loop-append :
    (xs ys : List ℕ) (f : Fed) → feed_loop f (xs ++ ys) ≡ feed_loop (feed_loop f xs) ys
unfolding feed_loop
feed_loop-append [] ys f = refl
feed_loop-append (x ∷ xs) ys f = feed_loop-append xs ys _

abbrev in_body : ℕ → ℕ → List ℕ → ℕ → ℕ → Deframer
in_body type n body ok rejected = record {
  state = State.body;
  type = type;
  body_length = n;
  body = body;
  frames_ok = ok;
  frames_rejected = rejected;
}

abbrev pub scanning : ℕ → ℕ → ℕ → Deframer
scanning type ok rejected = record {
  state = State.scan_magic0;
  type = type;
  body_length = 0;
  body = [];
  frames_ok = ok;
  frames_rejected = rejected;
}

abbrev pub emit : ℕ → List ℕ → List Frame → List Frame
emit type body output = output ++ (record { type = type; body = body } ∷ [])

feed_loop-body :
    (t n ok r p : ℕ) (acc : List ℕ) (out : List Frame) (x : ℕ) (xs : List ℕ)
    → length acc + length (x ∷ xs) ≡ n
    → feed_loop (record { deframer = in_body t n acc ok r; output = out; produced = p }) (x ∷ xs)
      ≡ record {
        deframer = scanning t (u64 (ok + 1)) r;
        output = emit t (acc ++ (x ∷ xs)) out;
        produced = p + 1;
      }
unfolding feed_loop
feed_loop-body t n ok r p acc out x [] h = ground (arith, length-append acc (x ∷ []))
feed_loop-body t n ok r p acc out x (y ∷ ys) h = ground (
  arith,
  length-append acc (x ∷ []),
  append_assoc acc (x ∷ []) (y ∷ ys),
  feed_loop-body t n ok r p (acc ++ (x ∷ [])) out y ys,
)

-- The six header bytes of a frame with a legal length.
abbrev pub header : ℕ → ℕ → List ℕ
header t n = 0x51 ∷ 0x46 ∷ 1 ∷ t ∷ n / 2 ^ 8 ∷ n % 2 ^ 8 ∷ []

feed_loop-header :
    (t n t₀ ok r p : ℕ) (out : List Frame)
    → message_type_known t ≡ true
    → 0 < n
    → n ≤ max_body_len
    → feed_loop (record { deframer = scanning t₀ ok r; output = out; produced = p }) (header t n)
      ≡ record { deframer = in_body t n [] ok r; output = out; produced = p }
unfolding feed_loop
feed_loop-header t n t₀ ok r p out known lo hi =
    let joined : bit_or (n / 2 ^ 8 * 2 ^ 8) (n % 2 ^ 8) ≡ n =
      omega (arith, bit_or-high_low 8 (n / 2 ^ 8) (n % 2 ^ 8) (omega arith)) in
    let small : n / 2 ^ 8 * 2 ^ 8 % 2 ^ 16 ≡ n / 2 ^ 8 * 2 ^ 8 = omega arith in
    let whole : n % 2 ^ 16 ≡ n = omega arith in rw (known, small, joined, whole) (ground arith)

-- What `encode_frame` writes: header and body, exactly for bodies of 1 to 279 bytes.
pub encode_frame-header :
    (t : ℕ) (body wire : List ℕ)
    → t < 256
    → encode_frame t (bytes body) ≡ some wire
    → (wire ≡ header t (length body) ++ body) × (0 < length body) × (length body ≤ max_body_len)
unfolding encode_frame
encode_frame-header t body wire ht h = ground arith

pub encode_frame_legal :
    (t : ℕ) (body : List ℕ)
    → t < 256
    → 0 < length body
    → length body ≤ max_body_len
    → encode_frame t (bytes body) ≡ some (header t (length body) ++ body)
unfolding encode_frame
encode_frame_legal t body ht lo hi = ground arith

pub feed_loop-frame :
    (t : ℕ) (body wire : List ℕ) (t₀ ok r p : ℕ) (out : List Frame)
    → message_type_known t ≡ true
    → encode_frame t (bytes body) ≡ some wire
    → feed_loop (record { deframer = scanning t₀ ok r; output = out; produced = p }) wire ≡ record {
      deframer = scanning t (u64 (ok + 1)) r;
      output = emit t body out;
      produced = p + 1;
    }
feed_loop-frame t [] wire t₀ ok r p out known h =
    absurd (omega (arith, encode_frame-header t [] wire (ground arith) h))
feed_loop-frame t (x ∷ xs) wire t₀ ok r p out known h =
    let (e, lo, hi) = encode_frame-header t (x ∷ xs) wire (ground arith) h in
    rw
      (
        e,
        feed_loop-append (header t (length (x ∷ xs))) (x ∷ xs),
        feed_loop-header t (length (x ∷ xs)) t₀ ok r p out known lo hi,
      )
      (feed_loop-body t (length (x ∷ xs)) ok r p [] out x xs (omega arith))

-- While it scans, bytes other than the first magic byte are skipped.
abbrev pub IsNoise : List ℕ → Type 0
IsNoise = All (λ byte. byte ≢ magic0)

feed_loop-noise :
    (noise : List ℕ) (t ok r p : ℕ) (out : List Frame)
    → IsNoise noise
    → feed_loop (record { deframer = scanning t ok r; output = out; produced = p }) noise
      ≡ record { deframer = scanning t ok r; output = out; produced = p }
unfolding feed_loop
feed_loop-noise [] t ok r p out h = refl
feed_loop-noise (b ∷ bs) t ok r p out h = ground (arith, feed_loop-noise bs t ok r p out h.1)

-- A wire image of frames with noise in front of each: `Wire frames wire`.
pub data Wire : List Frame → List ℕ → Type 0 where
  done : (noise : List ℕ) → IsNoise noise → Wire [] noise
  next :
      {frames : List Frame} {rest : List ℕ} (noise : List ℕ) (f : Frame) (sent : List ℕ)
      → IsNoise noise
      → message_type_known f.type ≡ true
      → encode_frame f.type (bytes f.body) ≡ some sent
      → Wire frames rest
      → Wire (f ∷ frames) (noise ++ (sent ++ rest))

-- The type of the last frame, which the object keeps.
abbrev pub last_type : ℕ → List Frame → ℕ
last_type t [] = t
last_type t (f ∷ fs) = last_type f.type fs

feed_loop-Wire :
    {frames : List Frame} {wire : List ℕ} (t ok r p : ℕ) (out : List Frame)
    → ok < 2 ^ 64
    → Wire frames wire
    → feed_loop (record { deframer = scanning t ok r; output = out; produced = p }) wire ≡ record {
      deframer = scanning (last_type t frames) (u64 (ok + length frames)) r;
      output = out ++ frames;
      produced = p + length frames;
    }
feed_loop-Wire t ok r p out fits (done noise h) =
    let same : u64 (ok + 0) ≡ ok = omega arith in
    feed_loop-noise noise t ok r p out h ∙ rw same (ground (arith, append-nil out))
feed_loop-Wire t ok r p out fits (next {frames} {rest} noise f sent h known e w) =
    let total : u64 (u64 (ok + 1) + length frames) ≡ u64 (ok + suc (length frames)) = omega arith in
    rw
      (
        feed_loop-append noise (sent ++ rest),
        feed_loop-noise noise t ok r p out h,
        feed_loop-append sent rest,
        feed_loop-frame f.type f.body sent t ok r p out known e,
        feed_loop-Wire f.type (u64 (ok + 1)) r (p + 1) (emit f.type f.body out) (omega arith) w,
        total,
      )
      (ground (arith, append_assoc out (f ∷ []) frames))

-- A scanning deframer that is fed a wire image of frames, with bytes other than 0x51 before,
-- between and behind them, appends exactly these frames in order, returns their number, counts
-- them as good, modulo 2^64 on a count that fits its type, rejects none, and scans again.
pub feed-Wire :
    {frames : List Frame} {wire : List ℕ} (t ok rejected : ℕ) (output : List Frame)
    → ok < 2 ^ 64
    → Wire frames wire
    → feed (scanning t ok rejected) (bytes wire) output ≡ record {
      deframer = scanning (last_type t frames) (u64 (ok + length frames)) rejected;
      output = output ++ frames;
      produced = length frames;
    }
unfolding feed
feed-Wire t ok r out fits w = ground (arith, feed_loop-Wire t ok r 0 out fits w)

-- `produced` is only added to.
pub on_byte_shift :
    (st : State) (d : Deframer) (out : List Frame) (p b : ℕ)
    → let f = on_byte st d out 0 b in
      on_byte st d out p b
      ≡ record { deframer = f.deframer; output = f.output; produced = p + f.produced }
unfolding on_byte
on_byte_shift State.scan_magic0 d out p b = ground arith
on_byte_shift State.expect_magic1 d out p b = ground arith
on_byte_shift State.version d out p b = ground arith
on_byte_shift State.type d out p b = ground arith
on_byte_shift State.len_hi d out p b = ground arith
on_byte_shift State.len_lo d out p b = ground arith
on_byte_shift State.body d out p b = ground arith

pub feed_loop-cons :
    (f : Fed) (b : ℕ) (bs : List ℕ)
    → feed_loop f (b ∷ bs)
      ≡ feed_loop (on_byte f.deframer.state f.deframer f.output f.produced b) bs
unfolding feed_loop
feed_loop-cons f b bs = refl

feed_loop_shift :
    (xs : List ℕ) (d : Deframer) (out : List Frame) (p q : ℕ)
    → let f = feed_loop (record { deframer = d; output = out; produced = p }) xs in
      let g = feed_loop (record { deframer = d; output = out; produced = q }) xs in
      (f.deframer ≡ g.deframer) × (f.output ≡ g.output) × (f.produced + q ≡ g.produced + p)
feed_loop_shift [] d out p q = unfold feed_loop in (refl, refl, omega arith)
feed_loop_shift (b ∷ bs) d out p q =
    let f = on_byte d.state d out 0 b in
    let ih = feed_loop_shift bs f.deframer f.output (p + f.produced) (q + f.produced) in
    simp (feed_loop-cons, on_byte_shift d.state d out p b, on_byte_shift d.state d out q b)
      (ih.0, ih.1, omega (arith, ih.2))

-- The cut of the input into calls of `feed` does not matter: a call on a concatenation leaves the
-- object and the output that two calls in a row leave, and it counts the frames of both.
pub feed-append :
    (xs ys : List ℕ) (d : Deframer) (output : List Frame)
    → let first = feed d (bytes xs) output in
      let second = feed first.deframer (bytes ys) first.output in
      feed d (bytes (xs ++ ys)) output ≡ record {
        deframer = second.deframer;
        output = second.output;
        produced = first.produced + second.produced;
      }
unfolding feed
feed-append xs ys d out =
    let first = feed_loop (record { deframer = d; output = out; produced = 0 }) xs in
    let s = feed_loop_shift ys first.deframer first.output first.produced 0 in
    feed_loop-append xs ys _ ∙ ground (arith, s)
