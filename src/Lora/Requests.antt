-- ===== src/Lora/Requests.antt =====
-- src/lora/transmitter.cpp: sequences of requests to the transmitter and of pulls of the radio
-- thread, against the one stream of samples that they put on the air.
use mathlib.Core.Path.{subst}
use quadrf_mesh.Base.{
  ℕ, ◌≤◌, ◌<◌, ◌≡◌, ◌↔◌, refl, sym, ap, ap₂, ◌∙◌, arith, inl, inr, true, false, none, some, List,
  [], ◌∷◌, ◌++◌, append_assoc, append-nil, ltb, leb, if◌then◌else◌, length, drop, length-append,
  length-drop, no_items, All, All-append, Bool-cases,
}
use quadrf_mesh.Lora.Modulator.{samples_per_symbol}
use quadrf_mesh.Lora.Airtime.{length-frame}
use quadrf_mesh.Lora.Frame.{encode_frame}
use quadrf_mesh.Lora.Transmitter.{
  Transmitter, Setup, modulated, assemble, enqueue, enqueue_frame, clear_queue, is_idle, pull,
}
use quadrf_mesh.Lora.Emission.{
  emitted, bursts, pending, HasSamples, IsWellFormed, pull_lem, drop_all, assemble-HasSamples,
}

pub data Request {ℓ} (S : Type ℓ) : Type ℓ where
  submit : List ℕ → Request S
  submit_frame : List S → Request S
  emit : ℕ → Request S

module _ {ℓ} {S : Type ℓ} where
  -- A payload that is refused changes nothing.
  unfoldable pub submitted : List ℕ → Transmitter S → Transmitter S
  submitted payload s = elim (enqueue payload s) [ none ↦ s | some t ↦ t ]

  -- The samples that each `emit` gets, where the transmitter serves the requests one by one.
  unfoldable pub serve_requests : List (Request S) → Transmitter S → List (List S)
  serve_requests [] s = []
  serve_requests (submit payload ∷ requests) s = serve_requests requests (submitted payload s)
  serve_requests (submit_frame samples ∷ requests) s =
      serve_requests requests (enqueue_frame samples s)
  serve_requests (emit n ∷ requests) s = (pull n s).0 ∷ serve_requests requests (pull n s).1

  -- The same from one stream: a payload of up to 255 bytes adds a burst to its end.
  unfoldable pub play : Setup S → List (Request S) → List S → List (List S)
  play c [] xs = []
  play c (submit payload ∷ requests) xs =
      let burst = assemble c (modulated c payload) in
      play c requests (if leb (length payload) 255 then xs ++ burst else xs)
  play c (submit_frame samples ∷ requests) xs = play c requests (xs ++ assemble c samples)
  play c (emit n ∷ requests) xs = emitted c.silence n xs ∷ play c requests (drop n xs)

  -- A frame that is submitted has samples.
  unfoldable pub IsFit : Request S → Type 0
  IsFit (submit payload) = Unit
  IsFit (submit_frame samples) = HasSamples samples
  IsFit (emit n) = Unit

  bursts-append :
      (c : Setup S) (queue : List (List S)) (samples : List S)
      → bursts c (queue ++ (samples ∷ [])) ≡ bursts c queue ++ assemble c samples
  unfolding bursts
  bursts-append c [] samples = append-nil (assemble c samples)
  bursts-append c (x ∷ queue) samples =
      ap (◌++◌ (assemble c x)) (bursts-append c queue samples)
      ∙ sym (append_assoc (assemble c x) (bursts c queue) (assemble c samples))

  pending-enqueue_frame :
      (samples : List S) (s : Transmitter S)
      → pending (enqueue_frame samples s) ≡ pending s ++ assemble s.setup samples
  unfolding pending enqueue_frame
  pending-enqueue_frame samples s =
      let left = drop s.burst_pos s.burst in
      ap (◌++◌ left) (bursts-append s.setup s.queue samples)
      ∙ sym (append_assoc left (bursts s.setup s.queue) (assemble s.setup samples))

  pub enqueue_frame-IsWellFormed :
      (samples : List S) (s : Transmitter S)
      → IsWellFormed s
      → HasSamples samples
      → IsWellFormed (enqueue_frame samples s)
  unfolding IsWellFormed enqueue_frame
  enqueue_frame-IsWellFormed samples s wf h =
      (wf.0, All-append HasSamples s.queue (samples ∷ []) wf.1 (h, _))

  pub modulated-HasSamples :
      (c : Setup S) (payload : List ℕ)
      → 0 < samples_per_symbol c.modulator
      → HasSamples (modulated c payload)
  unfolding HasSamples modulated
  modulated-HasSamples c payload pos =
      let chips = encode_frame c.modulator.params payload in
      omega (arith, length-frame c.modulator chips, pos)

  submitted_lem :
      (payload : List ℕ) (s : Transmitter S)
      → IsWellFormed s
      → 0 < samples_per_symbol s.setup.modulator
      → let burst = assemble s.setup (modulated s.setup payload) in
        (pending (submitted payload s)
          ≡ (if leb (length payload) 255 then pending s ++ burst else pending s))
        × ((submitted payload s).setup ≡ s.setup)
        × IsWellFormed (submitted payload s)
  unfolding submitted enqueue enqueue_frame
  submitted_lem payload s wf pos = elim (Bool-cases (ltb 255 (length payload))) [
    | inl long ↦
        let refused : leb (length payload) 255 ≡ false = ground (arith, long) in
        rw (submitted, enqueue, long, refused) (refl, refl, wf)
    | inr short ↦
        let accepted : leb (length payload) 255 ≡ true = ground (arith, short) in
        let samples = modulated s.setup payload in
        rw (submitted, enqueue, short, accepted)
          (
            pending-enqueue_frame samples s,
            refl,
            enqueue_frame-IsWellFormed samples s wf (modulated-HasSamples s.setup payload pos),
          )
  ]

  -- From a well-formed state the transmitter puts on the air exactly what the one stream gives, for
  -- any sequence of payloads, frames that are not empty and pulls of any sizes, in any order: a
  -- payload above 255 bytes adds nothing, and how the pulls cut the stream changes no sample.
  pub serve_requests-play :
      (requests : List (Request S)) (s : Transmitter S)
      → All IsFit requests
      → IsWellFormed s
      → 0 < samples_per_symbol s.setup.modulator
      → serve_requests requests s ≡ play s.setup requests (pending s)
  unfolding serve_requests play IsFit enqueue_frame
  serve_requests-play [] s fit wf pos = refl
  serve_requests-play (submit payload ∷ requests) s fit wf pos =
      let (next, kept, good) = submitted_lem payload s wf pos in
      serve_requests-play requests (submitted payload s) fit.1 good
        (subst (λ c. 0 < samples_per_symbol c.modulator) (sym kept) pos)
      ∙ ap₂ (λ c xs. play c requests xs) kept next
  serve_requests-play (submit_frame samples ∷ requests) s fit wf pos =
      serve_requests-play requests (enqueue_frame samples s) fit.1
        (enqueue_frame-IsWellFormed samples s wf fit.0) pos
      ∙ ap (play s.setup requests) (pending-enqueue_frame samples s)
  serve_requests-play (emit n ∷ requests) s fit wf pos =
      let (size, samples, rest, kept, good) = pull_lem n s wf in
      let next =
        serve_requests-play requests (pull n s).1 fit.1 good
          (subst (λ c. 0 < samples_per_symbol c.modulator) (sym kept) pos) in
      ap₂ ◌∷◌ samples (next ∙ ap₂ (λ c xs. play c requests xs) kept rest)

  no_bursts :
      (c : Setup S) (queue : List (List S))
      → All HasSamples queue
      → length (bursts c queue) ≡ 0
      → length queue ≡ 0
  unfolding bursts HasSamples
  no_bursts c [] frames none_left = refl
  no_bursts c (samples ∷ queue) frames none_left = absurd (
      omega (
        arith,
        none_left,
        length-append (assemble c samples) (bursts c queue),
        assemble-HasSamples c samples frames.0,
      ))

  idle_iff : (s : Transmitter S) → IsWellFormed s → (is_idle s ≡ true) ↔ (pending s ≡ [])
  unfolding is_idle IsWellFormed pending bursts
  idle_iff s wf =
      let left = drop s.burst_pos s.burst in
      (
        (λ idle.
            ap₂ ◌++◌ (drop_all s.burst_pos s.burst (ground (arith, idle)))
              (ap (bursts s.setup) (no_items s.queue (ground (arith, idle))))),
        (λ empty.
            let none_left = length-append left (bursts s.setup s.queue) in
            let queue =
              no_bursts s.setup s.queue wf.1 (omega (arith, none_left, ap length empty)) in
            let over : length s.burst ≤ s.burst_pos =
              omega (arith, none_left, ap length empty, length-drop s.burst_pos s.burst) in
            ground (arith, queue, over)),
      )

  -- A well-formed transmitter is idle exactly when no sample is left, and it is when all of them have
  -- been pulled.
  pub is_idle_lem :
      (s : Transmitter S)
      → IsWellFormed s
      → ((is_idle s ≡ true) ↔ (pending s ≡ [])) × (is_idle (pull (length (pending s)) s).1 ≡ true)
  is_idle_lem s wf =
      let n = length (pending s) in
      let (size, samples, rest, kept, good) = pull_lem n s wf in
      let nothing = no_items (drop n (pending s)) (omega (arith, length-drop n (pending s))) in
      (idle_iff s wf, (idle_iff (pull n s).1 good).1 (rest ∙ nothing))

  -- What is left behind `clearQueue` is the burst on the air.
  pub pending-clear_queue : (s : Transmitter S) → pending (clear_queue s) ≡ drop s.burst_pos s.burst
  unfolding pending clear_queue bursts
  pending-clear_queue s = append-nil (drop s.burst_pos s.burst)
