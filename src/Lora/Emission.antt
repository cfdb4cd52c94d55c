-- ===== src/Lora/Emission.antt =====
-- src/lora/transmitter.cpp: the samples that `pull` writes, against a stream that is known in
-- advance.
use mathlib.Core.Path.{subst}
use quadrf_mesh.Base.{
  ℕ, zero, suc, ◌+◌, ◌-◌, ◌≤◌, ◌<◌, ◌≡◌, refl, sym, ap, ap₂, ◌∙◌, arith, inl, inr, ◌⊎◌, false, List,
  [], ◌∷◌, ◌++◌, append_assoc, append-nil, min, ltb, leb, ◌==◌, if◌then◌else◌, length, take, drop,
  length-append, length-drop, length-take, drop-drop, drop-append_short, drop-nil, no_items, All,
  Bool-cases,
}
use quadrf_mesh.Lora.Modulator.{repeated}
use quadrf_mesh.Lora.Transmitter.{
  Transmitter, Setup, assemble, start_from, start_next_burst, fill_from_burst, pull_loop, pull,
}

module _ {ℓ} {S : Type ℓ} where
  -- The next `n` samples of a stream of which `xs` is left: silence once nothing is.
  abbrev pub emitted : S → ℕ → List S → List S
  emitted silence zero xs = []
  emitted silence (suc n) [] = silence ∷ emitted silence n []
  emitted silence (suc n) (x ∷ xs) = x ∷ emitted silence n xs

  -- The bursts of some queued frames.
  unfoldable pub bursts : Setup S → List (List S) → List S
  bursts c [] = []
  bursts c (samples ∷ queue) = assemble c samples ++ bursts c queue

  -- What is left of the burst on the air, and the bursts of the queue.
  unfoldable pub pending : Transmitter S → List S
  pending s = drop s.burst_pos s.burst ++ bursts s.setup s.queue

  unfoldable pub HasSamples : List S → Type 0
  HasSamples samples = 0 < length samples

  -- The position is within the burst, and no queued frame is empty.
  unfoldable pub IsWellFormed : Transmitter S → Type 0
  IsWellFormed s = (s.burst_pos ≤ length s.burst) × All HasSamples s.queue

  pub emitted-silence : (silence : S) (n : ℕ) → emitted silence n [] ≡ repeated n (silence ∷ [])
  unfolding repeated
  emitted-silence silence zero = refl
  emitted-silence silence (suc n) = ap (◌∷◌ silence) (emitted-silence silence n)

  length-emitted : (silence : S) (n : ℕ) (xs : List S) → length (emitted silence n xs) ≡ n
  length-emitted silence zero xs = refl
  length-emitted silence (suc n) [] = ap suc (length-emitted silence n [])
  length-emitted silence (suc n) (x ∷ xs) = ap suc (length-emitted silence n xs)

  emitted_split :
      (silence : S) (k n : ℕ) (xs : List S)
      → k ≤ length xs
      → emitted silence (k + n) xs ≡ take k xs ++ emitted silence n (drop k xs)
  emitted_split silence zero n xs h =
      ap (λ t. emitted silence t xs) {x = 0 + n} {y = n} (omega arith)
  emitted_split silence (suc k) n [] h = absurd (omega arith)
  emitted_split silence (suc k) n (x ∷ xs) h =
      ap (λ t. emitted silence t (x ∷ xs)) (more k n)
      ∙ ap (◌∷◌ x) (emitted_split silence k n xs (omega arith))
    where
      more : (k n : ℕ) → suc k + n ≡ suc (k + n)
      more k n = omega arith

  pub emitted-add :
      (silence : S) (k n : ℕ) (xs : List S)
      → emitted silence (k + n) xs ≡ emitted silence k xs ++ emitted silence n (drop k xs)
  emitted-add silence zero n xs = ap (λ t. emitted silence t xs) {x = 0 + n} {y = n} (omega arith)
  emitted-add silence (suc k) n [] =
      ap (λ t. emitted silence t []) {x = suc k + n} {y = suc (k + n)} (omega arith)
      ∙ ap (◌∷◌ silence) (
          emitted-add silence k n []
          ∙ ap (λ t. emitted silence k [] ++ emitted silence n t) (drop-nil k))
  emitted-add silence (suc k) n (x ∷ xs) =
      ap (λ t. emitted silence t (x ∷ xs)) {x = suc k + n} {y = suc (k + n)} (omega arith)
      ∙ ap (◌∷◌ x) (emitted-add silence k n xs)

  pub drop_all : (n : ℕ) (xs : List S) → length xs ≤ n → drop n xs ≡ []
  drop_all n xs h = no_items (drop n xs) (omega (arith, length-drop n xs))

  pub assemble-HasSamples :
      (c : Setup S) (samples : List S) → HasSamples samples → HasSamples (assemble c samples)
  unfolding assemble HasSamples
  assemble-HasSamples c samples h = omega (
    arith,
    length-append (repeated _ (c.carrier ∷ [])) (samples ++ repeated _ (c.silence ∷ [])),
    length-append samples (repeated _ (c.silence ∷ [])),
    h,
  )

  take-append_short : (k : ℕ) (xs ys : List S) → k ≤ length xs → take k (xs ++ ys) ≡ take k xs
  take-append_short zero xs ys h = refl
  take-append_short (suc k) [] ys h = absurd (omega arith)
  take-append_short (suc k) (x ∷ xs) ys h = ap (◌∷◌ x) (take-append_short k xs ys (omega arith))

  -- Ready for the next samples: as `s`, and with samples on the air unless nothing is left.
  abbrev IsReady : Transmitter S → Transmitter S → Type ℓ
  IsReady s t =
      (pending t ≡ pending s)
      × (t.setup ≡ s.setup)
      × IsWellFormed t
      × ((t.burst_pos < length t.burst) ⊎ (pending t ≡ []))

  start_from-IsReady :
      (queue : List (List S)) (s : Transmitter S)
      → s.queue ≡ queue
      → IsWellFormed s
      → length s.burst ≤ s.burst_pos
      → IsReady s (start_from queue s)
  unfolding start_from pending bursts IsWellFormed HasSamples
  start_from-IsReady [] s e wf spent =
      (refl, refl, wf, inr (ap₂ ◌++◌ (drop_all s.burst_pos s.burst spent) (ap (bursts s.setup) e)))
  start_from-IsReady (samples ∷ queue) s e wf spent =
      let over : ltb s.burst_pos (length s.burst) ≡ false = ground (arith, spent) in
      let frames : All HasSamples (samples ∷ queue) = subst (λ t. All HasSamples t) e wf.1 in
      rw over (
        sym (ap₂ ◌++◌ (drop_all s.burst_pos s.burst spent) (ap (bursts s.setup) e)),
        refl,
        (omega arith, frames.1),
        inl (assemble-HasSamples s.setup samples frames.0),
      )

  ready_lem :
      (s : Transmitter S)
      → IsWellFormed s
      → IsReady s (if leb (length s.burst) s.burst_pos then start_next_burst s else s)
  unfolding start_next_burst IsWellFormed
  ready_lem s wf = elim (Bool-cases (leb (length s.burst) s.burst_pos)) [
    | inl spent ↦ rw spent (start_from-IsReady s.queue s refl wf (ground (arith, spent)))
    | inr more ↦ rw more (refl, refl, wf, inl (ground (arith, more)))
  ]

  -- `count` samples of `s` were appended to `out`, and `r` is left.
  abbrev Writes : ℕ → List S → Transmitter S → List S × Transmitter S → Type ℓ
  Writes count out s r =
      (r.0 ≡ out ++ emitted s.setup.silence count (pending s))
      × (pending r.1 ≡ drop count (pending s))
      × (r.1.setup ≡ s.setup)
      × IsWellFormed r.1

  fill_from_burst_lem :
      (n : ℕ) (out : List S) (s : Transmitter S)
      → IsWellFormed s
      → let count = min (n - length out) (length s.burst - s.burst_pos) in
        let r = fill_from_burst n out s in
        (r.0 ≡ out ++ take count (pending s))
        × (pending r.1 ≡ drop count (pending s))
        × (r.1.setup ≡ s.setup)
        × IsWellFormed r.1
  unfolding fill_from_burst pending IsWellFormed
  fill_from_burst_lem n out s wf =
      let left = drop s.burst_pos s.burst in
      let k = min (n - length out) (length s.burst - s.burst_pos) in
      let later = bursts s.setup s.queue in
      let short : k ≤ length left = omega (arith, length-drop s.burst_pos s.burst) in
      let samples = take-append_short k left later short in
      let rest =
        drop-append_short k left later short
        ∙ ap (λ t. t ++ later) (drop-drop k s.burst_pos s.burst) in
      elim (Bool-cases (k == 0)) [
        | inl none_fit ↦
            let none : k ≡ 0 = ground (arith, none_fit) in
            rw (none_fit, none) (sym (append-nil out), refl, refl, wf)
        | inr some_fit ↦ elim (Bool-cases (leb (length s.burst) (s.burst_pos + k))) [
          | inl full ↦
              rw (some_fit, full)
                (
                  ap (◌++◌ out) (sym samples),
                  sym (
                      rest
                      ∙ ap (λ t. t ++ later)
                          (drop_all (s.burst_pos + k) s.burst (ground (arith, full)))),
                  refl,
                  (omega arith, wf.1),
                )
          | inr more ↦
              rw (some_fit, more)
                (ap (◌++◌ out) (sym samples), sym rest, refl, (ground (arith, more), wf.1))
        ]
      ]

  fits :
      (n : ℕ) (out : List S) (s : Transmitter S)
      → min (n - length out) (length s.burst - s.burst_pos) ≤ length (pending s)
  unfolding pending
  fits n out s = omega (
    arith,
    length-append (drop s.burst_pos s.burst) (bursts s.setup s.queue),
    length-drop s.burst_pos s.burst,
  )

  length-fill_from_burst :
      (n : ℕ) (out : List S) (s : Transmitter S)
      → IsWellFormed s
      → length (fill_from_burst n out s).0
        ≡ length out + min (n - length out) (length s.burst - s.burst_pos)
  length-fill_from_burst n out s wf =
      let k = min (n - length out) (length s.burst - s.burst_pos) in
      omega (
        arith,
        ap length (fill_from_burst_lem n out s wf).0,
        length-append out (take k (pending s)),
        length-take k (pending s),
        fits n out s,
      )

  Writes-done :
      (n : ℕ) (out : List S) (s : Transmitter S)
      → IsWellFormed s
      → n ≤ length out
      → Writes (n - length out) out s (out, s)
  Writes-done n out s wf done =
      let nothing : n - length out ≡ 0 = omega arith in
      rw nothing (sym (append-nil out), refl, refl, wf)

  -- Nothing is left: silence to the end.
  Writes-silence :
      (n : ℕ) (out : List S) (s t : Transmitter S)
      → IsReady s t
      → pending t ≡ []
      → Writes (n - length out) out s (out ++ repeated (n - length out) (t.setup.silence ∷ []), t)
  Writes-silence n out s t (same, setup, wf, more) idle =
      let m = n - length out in
      let empty : pending s ≡ [] = sym same ∙ idle in
      (
        ap (◌++◌ out) (
            ap (λ c. repeated m (c.silence ∷ [])) setup
            ∙ sym (emitted-silence s.setup.silence m)
            ∙ ap (emitted s.setup.silence m) (sym empty)),
        idle ∙ sym (drop-nil m) ∙ ap (drop m) (sym empty),
        setup,
        wf,
      )

  -- A round that fills from the burst, and the rounds behind it.
  Writes-fill :
      (n : ℕ) (out : List S) (s t : Transmitter S) (r : List S × Transmitter S)
      → IsReady s t
      → let k = min (n - length out) (length t.burst - t.burst_pos) in
        let filled = fill_from_burst n out t in
        Writes (n - length filled.0) filled.0 filled.1 r → Writes (n - length out) out s r
  unfolding IsWellFormed pending
  Writes-fill n out s t r (same, setup, wf, more) (written, left, kept, good) =
      let k = min (n - length out) (length t.burst - t.burst_pos) in
      let filled = fill_from_burst n out t in
      let (taken, rest, setup', wf') = fill_from_burst_lem n out t wf in
      let bound : k ≤ length (pending t) = fits n out t in
      let size : length filled.0 ≡ length out + k = length-fill_from_burst n out t wf in
      let m = n - length filled.0 in
      let sum : k + m ≡ n - length out = omega (arith, size) in
      let c = s.setup.silence in
      let P = pending s in
      (
        written
            ∙ ap₂ ◌++◌ taken
                (ap₂ (λ d Q. emitted d.silence m Q) (setup' ∙ setup) (rest ∙ ap (drop k) same))
            ∙ ap (λ Q. (out ++ take k Q) ++ emitted c m (drop k P)) same
            ∙ append_assoc out (take k P) (emitted c m (drop k P))
            ∙ ap (◌++◌ out) (
                sym (emitted_split c k m P (omega (arith, bound, ap length same)))
                ∙ ap (λ i. emitted c i P) sum),
        left ∙ ap (drop m) (rest ∙ ap (drop k) same) ∙ drop-drop m k P ∙ ap (λ i. drop i P) sum,
        kept ∙ setup' ∙ setup,
        good,
      )

  pull_loop_lem :
      (fuel n : ℕ) (out : List S) (s : Transmitter S)
      → IsWellFormed s
      → n ≤ length out + fuel
      → Writes (n - length out) out s (pull_loop fuel n out s)
  unfolding pull_loop
  pull_loop_lem zero n out s wf enough = Writes-done n out s wf (omega arith)
  pull_loop_lem (suc fuel) n out s wf enough =
      let t = if leb (length s.burst) s.burst_pos then start_next_burst s else s in
      let ready = ready_lem s wf in
      elim (Bool-cases (ltb (length out) n)) [
        | inr done ↦ rw done (Writes-done n out s wf (ground (arith, done)))
        | inl more ↦ elim (Bool-cases (ltb t.burst_pos (length t.burst))) [
          | inr idle ↦
              rw (more, idle)
                (Writes-silence n out s t ready (elim ready.3 [
                  | inl busy ↦ absurd (ground (arith, busy, idle))
                  | inr empty ↦ empty
                ]))
          | inl busy ↦
              let filled = fill_from_burst n out t in
              let size = length-fill_from_burst n out t ready.2 in
              let good = (fill_from_burst_lem n out t ready.2).3 in
              rw (more, busy)
                (Writes-fill n out s t (pull_loop fuel n filled.0 filled.1) ready (
                  pull_loop_lem fuel n filled.0 filled.1 good
                    (ground (arith, size, busy, more, enough))))
        ]
      ]

  -- In a well-formed state `pull` writes exactly `n` samples, within `n` rounds: the next ones of what
  -- is left of the burst on the air and the bursts of the queue in order, each its warmup, frame and
  -- gap, and silence once nothing is left. What it leaves is what follows them, well-formed again.
  pub pull_lem :
      (n : ℕ) (s : Transmitter S)
      → IsWellFormed s
      → (length (pull n s).0 ≡ n)
        × ((pull n s).0 ≡ emitted s.setup.silence n (pending s))
        × (pending (pull n s).1 ≡ drop n (pending s))
        × ((pull n s).1.setup ≡ s.setup)
        × IsWellFormed (pull n s).1
  unfolding pull pending IsWellFormed
  pull_lem n s wf =
      let (samples, rest, kept, good) = pull_loop_lem n n [] s wf (omega arith) in
      let c = s.setup.silence in
      let all : n - 0 ≡ n = omega arith in
      let exact = samples ∙ ap (λ i. emitted c i (pending s)) all in
      (
        ap length exact ∙ length-emitted c n (pending s),
        exact,
        rest ∙ ap (λ i. drop i (pending s)) all,
        kept,
        good,
      )
