-- ===== src/Stream/Framing.antt =====
-- What the StreamAPI deframer does with the bytes that `frame` writes, however they are cut.
use quadrf_mesh.Base.{
  ℕ, suc, ◌+◌, ◌*◌, ◌/◌, ◌%◌, ◌^◌, ◌≤◌, ◌<◌, ◌≡◌, ◌≢◌, ◌↔◌, refl, ◌∙◌, arith, List, [], ◌∷◌, ◌++◌,
  some, length, length-append, append_assoc, append-nil, All, bit_or,
}
use quadrf_mesh.Base.Bits.{bit_or-high_low}
use quadrf_mesh.Base.Words.{u64, bytes}
use quadrf_mesh.Stream.Framer.{
  start1, max_payload, framed, frame, State, Deframer, Fed, on_byte, feed_loop, feed,
}

pub feed_loop-cons :
    (f : Fed) (b : ℕ) (bs : List ℕ)
    → feed_loop f (b ∷ bs)
      ≡ feed_loop (on_byte f.deframer.state f.deframer f.output f.produced b) bs
unfolding feed_loop
feed_loop-cons f b bs = refl

feed_loop-append :
    (xs ys : List ℕ) (f : Fed) → feed_loop f (xs ++ ys) ≡ feed_loop (feed_loop f xs) ys
unfolding feed_loop
feed_loop-append [] ys f = refl
feed_loop-append (x ∷ xs) ys f = feed_loop-append xs ys _

abbrev in_payload : ℕ → List ℕ → ℕ → ℕ → Deframer
in_payload n buf ok rejected = record {
  state = State.payload;
  len = n;
  buf = buf;
  frames_ok = ok;
  frames_rejected = rejected;
}

abbrev pub scanning : ℕ → ℕ → Deframer
scanning ok rejected = record {
  state = State.scan_start1;
  len = 0;
  buf = [];
  frames_ok = ok;
  frames_rejected = rejected;
}

feed_loop-payload :
    (n ok r p : ℕ) (acc : List ℕ) (out : List (List ℕ)) (x : ℕ) (xs : List ℕ)
    → length acc + length (x ∷ xs) ≡ n
    → feed_loop (record { deframer = in_payload n acc ok r; output = out; produced = p }) (x ∷ xs)
      ≡ record {
        deframer = scanning (u64 (ok + 1)) r;
        output = out ++ ((acc ++ (x ∷ xs)) ∷ []);
        produced = p + 1;
      }
unfolding feed_loop
feed_loop-payload n ok r p acc out x [] h = ground (arith, length-append acc (x ∷ []))
feed_loop-payload n ok r p acc out x (y ∷ ys) h = ground (
  arith,
  length-append acc (x ∷ []),
  append_assoc acc (x ∷ []) (y ∷ ys),
  feed_loop-payload n ok r p (acc ++ (x ∷ [])) out y ys,
)

abbrev pub header : ℕ → List ℕ
header n = 0x94 ∷ 0xc3 ∷ n / 2 ^ 8 ∷ n % 2 ^ 8 ∷ []

join_length :
    (n : ℕ) → n ≤ max_payload → bit_or (n / 2 ^ 8 * 2 ^ 8 % 2 ^ 16) (n % 2 ^ 8) % 2 ^ 16 ≡ n
join_length n hi =
    let small : n / 2 ^ 8 * 2 ^ 8 % 2 ^ 16 ≡ n / 2 ^ 8 * 2 ^ 8 = omega arith in
    rw small (omega (arith, bit_or-high_low 8 (n / 2 ^ 8) (n % 2 ^ 8) (omega arith)))

feed_loop-header :
    (n ok r p : ℕ) (out : List (List ℕ))
    → 0 < n
    → n ≤ max_payload
    → feed_loop (record { deframer = scanning ok r; output = out; produced = p }) (header n)
      ≡ record { deframer = in_payload n [] ok r; output = out; produced = p }
unfolding feed_loop
feed_loop-header n ok r p out lo hi = rw (join_length n hi) (ground arith)

feed_loop-empty :
    (ok r p : ℕ) (out : List (List ℕ))
    → feed_loop (record { deframer = scanning ok r; output = out; produced = p }) (header 0)
      ≡ record { deframer = scanning (u64 (ok + 1)) r; output = out ++ ([] ∷ []); produced = p + 1 }
unfolding feed_loop
feed_loop-empty ok r p out = refl

-- `frame` writes a 4-byte header and the payload, and refuses exactly payloads over 512 bytes.
pub frame_lem :
    (payload wire : List ℕ)
    → (frame (bytes payload) ≡ some wire)
      ↔ ((length payload ≤ max_payload) × (wire ≡ header (length payload) ++ payload))
unfolding frame framed
frame_lem payload wire = ground arith

feed_loop-frame :
    (payload wire : List ℕ) (ok r p : ℕ) (out : List (List ℕ))
    → frame (bytes payload) ≡ some wire
    → feed_loop (record { deframer = scanning ok r; output = out; produced = p }) wire ≡ record {
      deframer = scanning (u64 (ok + 1)) r;
      output = out ++ (payload ∷ []);
      produced = p + 1;
    }
feed_loop-frame [] wire ok r p out h =
    let (hi, e) = (frame_lem [] wire).0 h in rw e (feed_loop-empty ok r p out)
feed_loop-frame (x ∷ xs) wire ok r p out h =
    let (hi, e) = (frame_lem (x ∷ xs) wire).0 h in
    rw
      (
        e,
        feed_loop-append (header (length (x ∷ xs))) (x ∷ xs),
        feed_loop-header (length (x ∷ xs)) ok r p out (omega arith) hi,
      )
      (feed_loop-payload (length (x ∷ xs)) ok r p [] out x xs (omega arith))

abbrev pub IsNoise : List ℕ → Type 0
IsNoise = All (λ b. b ≢ start1)

feed_loop-noise :
    (noise : List ℕ) (ok r p : ℕ) (out : List (List ℕ))
    → IsNoise noise
    → feed_loop (record { deframer = scanning ok r; output = out; produced = p }) noise
      ≡ record { deframer = scanning ok r; output = out; produced = p }
unfolding feed_loop
feed_loop-noise [] ok r p out h = refl
feed_loop-noise (b ∷ bs) ok r p out h = ground (arith, feed_loop-noise bs ok r p out h.1)

-- A wire image of payloads: noise, which holds no START1, in front of each frame and at the end.
pub data Wire : List (List ℕ) → List ℕ → Type 0 where
  done : (noise : List ℕ) → IsNoise noise → Wire [] noise
  next :
      {payloads : List (List ℕ)} {rest : List ℕ} (noise payload sent : List ℕ)
      → IsNoise noise
      → frame (bytes payload) ≡ some sent
      → Wire payloads rest
      → Wire (payload ∷ payloads) (noise ++ (sent ++ rest))

feed_loop-Wire :
    {payloads : List (List ℕ)} {wire : List ℕ} (ok r p : ℕ) (out : List (List ℕ))
    → ok < 2 ^ 64
    → Wire payloads wire
    → feed_loop (record { deframer = scanning ok r; output = out; produced = p }) wire ≡ record {
      deframer = scanning (u64 (ok + length payloads)) r;
      output = out ++ payloads;
      produced = p + length payloads;
    }
feed_loop-Wire ok r p out fits (done noise h) =
    let same : u64 (ok + 0) ≡ ok = omega arith in
    feed_loop-noise noise ok r p out h ∙ rw same (ground (arith, append-nil out))
feed_loop-Wire ok r p out fits (next {payloads} {rest} noise payload sent h e w) =
    let total : u64 (u64 (ok + 1) + length payloads) ≡ u64 (ok + suc (length payloads)) =
      omega arith in
    rw
      (
        feed_loop-append noise (sent ++ rest),
        feed_loop-noise noise ok r p out h,
        feed_loop-append sent rest,
        feed_loop-frame payload sent ok r p out e,
        feed_loop-Wire (u64 (ok + 1)) r (p + 1) (out ++ (payload ∷ [])) (omega arith) w,
        total,
      )
      (ground (arith, append_assoc out (payload ∷ []) payloads))

-- A scanning StreamAPI deframer that is fed a wire image of payloads, with bytes other than START1
-- before, between and behind the frames, appends exactly these payloads in order, the empty one
-- included, returns their number, counts them as good, modulo 2^64 on a count
-- that fits its type, rejects none, and scans again.
pub stream_feed-Wire :
    {payloads : List (List ℕ)} {wire : List ℕ} (ok rejected : ℕ) (output : List (List ℕ))
    → ok < 2 ^ 64
    → Wire payloads wire
    → feed (scanning ok rejected) (bytes wire) output ≡ record {
      deframer = scanning (u64 (ok + length payloads)) rejected;
      output = output ++ payloads;
      produced = length payloads;
    }
unfolding feed
stream_feed-Wire ok r out fits w = ground (arith, feed_loop-Wire ok r 0 out fits w)

-- `produced` is only added to.
pub on_byte_shift :
    (st : State) (d : Deframer) (out : List (List ℕ)) (p b : ℕ)
    → let f = on_byte st d out 0 b in
      on_byte st d out p b
      ≡ record { deframer = f.deframer; output = f.output; produced = p + f.produced }
unfolding on_byte
on_byte_shift State.scan_start1 d out p b = ground arith
on_byte_shift State.expect_start2 d out p b = ground arith
on_byte_shift State.len_hi d out p b = ground arith
on_byte_shift State.len_lo d out p b = ground arith
on_byte_shift State.payload d out p b = ground arith

feed_loop_shift :
    (xs : List ℕ) (d : Deframer) (out : List (List ℕ)) (p q : ℕ)
    → let f = feed_loop (record { deframer = d; output = out; produced = p }) xs in
      let g = feed_loop (record { deframer = d; output = out; produced = q }) xs in
      (f.deframer ≡ g.deframer) × (f.output ≡ g.output) × (f.produced + q ≡ g.produced + p)
feed_loop_shift [] d out p q = unfold feed_loop in (refl, refl, omega arith)
feed_loop_shift (b ∷ bs) d out p q =
    let f = on_byte d.state d out 0 b in
    let ih = feed_loop_shift bs f.deframer f.output (p + f.produced) (q + f.produced) in
    simp (feed_loop-cons, on_byte_shift d.state d out p b, on_byte_shift d.state d out q b)
      (ih.0, ih.1, omega (arith, ih.2))

-- The cut of a StreamAPI byte stream into calls of `feed` does not matter: a call on a
-- concatenation leaves the object and the output of two calls in a row, and counts the frames of
-- both.
pub stream_feed-append :
    (xs ys : List ℕ) (d : Deframer) (output : List (List ℕ))
    → let first = feed d (bytes xs) output in
      let second = feed first.deframer (bytes ys) first.output in
      feed d (bytes (xs ++ ys)) output ≡ record {
        deframer = second.deframer;
        output = second.output;
        produced = first.produced + second.produced;
      }
unfolding feed
stream_feed-append xs ys d out =
    let first = feed_loop (record { deframer = d; output = out; produced = 0 }) xs in
    let s = feed_loop_shift ys first.deframer first.output first.produced 0 in
    feed_loop-append xs ys _ ∙ ground (arith, s)
