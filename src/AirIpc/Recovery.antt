-- ===== src/AirIpc/Recovery.antt =====
-- The invariant of the Air-IPC deframer, and how it gets back to scanning.
use quadrf_mesh.Base.{
  ℕ, ◌+◌, ◌-◌, ◌≤◌, ◌<◌, ◌≡◌, ◌≢◌, ◌^◌, refl, arith, List, [], ◌∷◌, ◌++◌, length, length-append,
  ◌==◌, ◌||◌, ltb, bit_or, if◌then◌else◌,
}
use mathlib.Core.Path.{subst}
use quadrf_mesh.Base.Words.{u16, u64, bytes, null, Span, span_length}
use quadrf_mesh.AirIpc.Wire.{max_body_len, magic0, protocol_version, message_type_known}
use quadrf_mesh.AirIpc.Deframer.{State, Frame, Deframer, Fed, on_byte, feed_loop, feed}
use quadrf_mesh.AirIpc.Framing.{IsNoise, feed_loop-cons, on_byte_shift}

-- In a body the announced length is legal and not yet reached.
abbrev pub BodyBound : State → Deframer → Type 0
BodyBound State.body d = (length d.body < d.body_length) × (d.body_length ≤ max_body_len)
BodyBound _ d = Unit

abbrev pub IsValid : Deframer → Type 0
IsValid d = BodyBound d.state d

in_body : (d : Deframer) → d.state ≡ State.body → IsValid d → BodyBound State.body d
in_body d s v = subst (λ st. BodyBound st d) s v

-- Both counters in the range of their type.
pub record InRange (d : Deframer) : Type 0 where
  pub ok : d.frames_ok < 2 ^ 64
  pub rejected : d.frames_rejected < 2 ^ 64

-- Every frame counted: what `feed` returns, what it appends and what `framesOk` grows by agree, and
-- `framesRejected` grows by so many that no byte ends two frames, good or bad.
abbrev pub Counted : ℕ → Deframer → List Frame → Fed → Type 0
Counted n d output f =
    (length f.output ≡ length output + f.produced)
    × (f.deframer.frames_ok ≡ u64 (d.frames_ok + f.produced))
    × ((rejects : ℕ) × (f.deframer.frames_rejected ≡ u64 (d.frames_rejected + rejects))
        × (f.produced + rejects ≤ n))

on_byte-IsValid :
    (st : State) (d : Deframer) (b : ℕ)
    → d.state ≡ st
    → IsValid d
    → IsValid (on_byte st d [] 0 b).deframer
unfolding on_byte
on_byte-IsValid State.scan_magic0 d b s v = ground arith
on_byte-IsValid State.body d b s v = ground (arith, length-append d.body (b ∷ []))
on_byte-IsValid _ d b s v = ground arith

on_byte-Counted :
    (st : State) (d : Deframer) (out : List Frame) (b : ℕ)
    → InRange d
    → Counted 1 d out (on_byte st d out 0 b)
unfolding on_byte
on_byte-Counted State.scan_magic0 d out b r =
    (ground arith, ground (arith, r.ok), (0, ground (arith, r.rejected), omega arith))
on_byte-Counted State.expect_magic1 d out b r =
    (ground arith, ground (arith, r.ok), (0, ground (arith, r.rejected), omega arith))
on_byte-Counted State.version d out b r = (
  ground arith,
  ground (arith, r.ok),
  (if b == protocol_version then 0 else 1, ground (arith, r.rejected), ground arith),
)
on_byte-Counted State.type d out b r = (
  ground arith,
  ground (arith, r.ok),
  (if message_type_known b then 0 else 1, ground (arith, r.rejected), ground arith),
)
on_byte-Counted State.len_hi d out b r =
    (ground arith, ground (arith, r.ok), (0, ground (arith, r.rejected), omega arith))
on_byte-Counted State.len_lo d out b r =
    let n = u16 (bit_or d.body_length b) in
    (
      ground arith,
      ground (arith, r.ok),
      (if n == 0 || ltb max_body_len n then 1 else 0, ground (arith, r.rejected), ground arith),
    )
on_byte-Counted State.body d out b r =
    let one = length-append out (record { type = d.type; body = d.body ++ (b ∷ []) } ∷ []) in
    (ground (arith, one), ground (arith, r.ok), (0, ground (arith, r.rejected), ground arith))

Counted-InRange :
    (n : ℕ) (d : Deframer) (out : List Frame) (f : Fed) → Counted n d out f → InRange f.deframer
Counted-InRange n d out f c = record { ok = omega (arith, c.1); rejected = omega (arith, c.2.1) }

-- Bytes until the deframer scans again, if none of them is a first magic byte.
abbrev distance : State → Deframer → ℕ
distance State.scan_magic0 d = 0
distance State.expect_magic1 d = 284
distance State.version d = 283
distance State.type d = 282
distance State.len_hi d = 281
distance State.len_lo d = 280
distance State.body d = d.body_length - length d.body

on_byte-distance :
    (st : State) (d : Deframer) (b : ℕ)
    → d.state ≡ st
    → b ≢ magic0
    → let d' = (on_byte st d [] 0 b).deframer in distance d'.state d' ≤ distance st d - 1
unfolding on_byte
on_byte-distance State.scan_magic0 d b s ne = ground arith
on_byte-distance State.body d b s ne = ground (arith, length-append d.body (b ∷ []))
on_byte-distance _ d b s ne = ground arith

-- One round of the loop, with what it appends and leaves written from no output and a zero count.
round :
    (d : Deframer) (out : List Frame) (p b : ℕ) (bs : List ℕ)
    → let f = on_byte d.state d out 0 b in
      feed_loop (record { deframer = d; output = out; produced = p }) (b ∷ bs)
      ≡ feed_loop
          (record { deframer = f.deframer; output = f.output; produced = p + f.produced })
          bs
round d out p b bs = rw (feed_loop-cons, on_byte_shift d.state d out p b)

same_deframer :
    (st : State) (d : Deframer) (out : List Frame) (b : ℕ)
    → (on_byte st d out 0 b).deframer ≡ (on_byte st d [] 0 b).deframer
unfolding on_byte
same_deframer State.body d out b = ground arith
same_deframer State.scan_magic0 d out b = refl
same_deframer _ d out b = refl

feed_loop-IsValid :
    (bs : List ℕ) (d : Deframer) (out : List Frame) (p : ℕ)
    → IsValid d
    → IsValid (feed_loop (record { deframer = d; output = out; produced = p }) bs).deframer
feed_loop-IsValid [] d out p v = unfold feed_loop in v
feed_loop-IsValid (b ∷ bs) d out p v =
    let f = on_byte d.state d out 0 b in
    let valid : IsValid f.deframer =
      rw (same_deframer d.state d out b) (on_byte-IsValid d.state d b refl v) in
    rw (round d out p b bs) (feed_loop-IsValid bs f.deframer f.output (p + f.produced) valid)

-- The same from a count of `p` frames.
abbrev CountedFrom : ℕ → ℕ → Deframer → List Frame → Fed → Type 0
CountedFrom p n d output f =
    (more : ℕ) × (f.produced ≡ p + more)
    × (length f.output ≡ length output + more)
    × (f.deframer.frames_ok ≡ u64 (d.frames_ok + more))
    × ((rejects : ℕ) × (f.deframer.frames_rejected ≡ u64 (d.frames_rejected + rejects))
        × (more + rejects ≤ n))

feed_loop-Counted :
    (bs : List ℕ) (d : Deframer) (out : List Frame) (p : ℕ)
    → InRange d
    → CountedFrom p
        (length bs)
        d
        out
        (feed_loop (record { deframer = d; output = out; produced = p }) bs)
feed_loop-Counted [] d out p r =
    unfold feed_loop in
    (0, omega arith, omega arith, omega (arith, r.ok), (0, omega (arith, r.rejected), omega arith))
feed_loop-Counted (b ∷ bs) d out p r =
    let f = on_byte d.state d out 0 b in
    let (appended, oks, (k, bad, bound)) = on_byte-Counted d.state d out b r in
    let range = Counted-InRange 1 d out f (appended, oks, (k, bad, bound)) in
    let (more, same, out_more, ok_more, (j, bad_more, bound_more)) =
      feed_loop-Counted bs f.deframer f.output (p + f.produced) range in
    rw (round d out p b bs) (
      f.produced + more,
      omega (arith, same),
      omega (arith, appended, out_more),
      omega (arith, oks, ok_more),
      (k + j, omega (arith, bad, bad_more), omega (arith, bound, bound_more)),
    )

-- On any input, from any valid object: the object stays valid, the number of frames appended, the
-- number returned and the growth of `framesOk` are one, and `framesRejected` grows by so many that
-- frames and rejects together are no more than the bytes. The counters are size_t, and grow modulo
-- 2^64.
pub feed-Counted :
    (d : Deframer) (input : Span) (output : List Frame)
    → IsValid d
    → InRange d
    → IsValid (feed d input output).deframer
      × Counted (span_length input) d output (feed d input output)
unfolding feed
feed-Counted d (null n) output v r =
    (v, (omega arith, omega (arith, r.ok), (0, omega (arith, r.rejected), omega arith)))
feed-Counted d (bytes bs) output v r =
    let (more, same, out_more, ok_more, (j, bad_more, bound)) = feed_loop-Counted bs d output 0 r in
    (
      feed_loop-IsValid bs d output 0 v,
      (
        omega (arith, same, out_more),
        omega (arith, same, ok_more),
        (j, bad_more, omega (arith, same, bound)),
      ),
    )

feed_loop-distance :
    (bs : List ℕ) (d : Deframer) (out : List Frame) (p : ℕ)
    → IsNoise bs
    → let d' = (feed_loop (record { deframer = d; output = out; produced = p }) bs).deframer in
      distance d'.state d' ≤ distance d.state d - length bs
feed_loop-distance [] d out p h = unfold feed_loop in omega arith
feed_loop-distance (b ∷ bs) d out p h =
    let f = on_byte d.state d out 0 b in
    let step : distance f.deframer.state f.deframer ≤ distance d.state d - 1 =
      rw (same_deframer d.state d out b) (on_byte-distance d.state d b refl h.0) in
    rw (round d out p b bs)
      (omega (arith, step, feed_loop-distance bs f.deframer f.output (p + f.produced) h.1))

distance-le : (st : State) (d : Deframer) → d.state ≡ st → IsValid d → distance st d ≤ 284
distance-le State.body d s v = omega (arith, in_body d s v)
distance-le State.scan_magic0 d s v = omega arith
distance-le _ d s v = omega arith

distance_zero :
    (st : State) (d : Deframer)
    → d.state ≡ st
    → IsValid d
    → distance st d ≤ 0
    → st ≡ State.scan_magic0
distance_zero State.scan_magic0 d s v z = refl
distance_zero State.body d s v z = absurd (omega (arith, in_body d s v))
distance_zero _ d s v z = absurd (omega arith)

-- From every valid object, whatever it was in the middle of, 284 bytes that are not the first magic
-- byte bring the deframer back to scanning.
pub feed_recovers :
    (d : Deframer) (noise : List ℕ) (output : List Frame)
    → IsValid d
    → IsNoise noise
    → 284 ≤ length noise
    → (feed d (bytes noise) output).deframer.state ≡ State.scan_magic0
unfolding feed
feed_recovers d noise output v h long =
    let f = feed_loop (record { deframer = d; output = output; produced = 0 }) noise in
    distance_zero f.deframer.state f.deframer refl (feed_loop-IsValid noise d output 0 v)
      (omega (arith, feed_loop-distance noise d output 0 h, distance-le d.state d refl v))
