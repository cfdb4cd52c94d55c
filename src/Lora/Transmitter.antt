-- ===== src/Lora/Transmitter.antt =====
-- src/lora/transmitter.cpp and include/phy/lora/transmitter.hpp: the transmitter between the
-- payloads of the upper layers and the sample stream of the radio. Each operation is what it does
-- under the lock. The samples of the carrier and of silence are parameters, like those of a chirp.
use quadrf_mesh.Base.{
  ℕ, zero, suc, ◌+◌, ◌-◌, ◌*◌, Bool, ◌&&◌, Option, none, some, List, [], ◌∷◌, ◌++◌, min, ◌==◌, ltb,
  leb, if◌then◌else◌, length, take, drop,
}
use quadrf_mesh.Base.Words.{u64}
use quadrf_mesh.Lora.Frame.{encode_frame}
use quadrf_mesh.Lora.Modulator.{Modulator, samples_per_symbol, frame, repeated}

-- The members that the transmission of a frame reads but does not change.
pub record Setup {ℓ} (S : Type ℓ) : Type ℓ where
  pub modulator : Modulator S
  pub carrier : S
  pub silence : S
  pub warmup_syms : ℕ
  pub gap_syms : ℕ

pub record Transmitter {ℓ} (S : Type ℓ) : Type ℓ where
  pub setup : Setup S
  pub queue : List (List S)
  pub burst : List S
  pub burst_pos : ℕ
  pub frames_started : ℕ
  pub samples_emitted : ℕ

module _ {ℓ} {S : Type ℓ} where
  unfoldable pub set_warmup_symbols : ℕ → Transmitter S → Transmitter S
  set_warmup_symbols n s = record s { setup = record s.setup { warmup_syms = n } }

  unfoldable pub set_gap_symbols : ℕ → Transmitter S → Transmitter S
  set_gap_symbols n s = record s { setup = record s.setup { gap_syms = n } }

  unfoldable pub enqueue_frame : List S → Transmitter S → Transmitter S
  enqueue_frame samples s = record s { queue = s.queue ++ (samples ∷ []) }

  unfoldable pub modulated : Setup S → List ℕ → List S
  modulated c payload = frame c.modulator (encode_frame c.modulator.params payload)

  unfoldable pub enqueue : List ℕ → Transmitter S → Option (Transmitter S)
  enqueue payload s =
      if ltb 255 (length payload) then none else some (enqueue_frame (modulated s.setup payload) s)

  unfoldable pub queued : Transmitter S → ℕ
  queued s = length s.queue

  unfoldable pub is_idle : Transmitter S → Bool
  is_idle s = length s.queue == 0 && leb (length s.burst) s.burst_pos

  unfoldable pub clear_queue : Transmitter S → Transmitter S
  clear_queue s = record s { queue = [] }

  -- Warmup, frame and gap of one frame.
  unfoldable pub assemble : Setup S → List S → List S
  assemble c samples =
      let sps = samples_per_symbol c.modulator in
      let warmup_n = u64 (c.warmup_syms * sps) in
      let gap_n = u64 (c.gap_syms * sps) in
      repeated warmup_n (c.carrier ∷ []) ++ (samples ++ repeated gap_n (c.silence ∷ []))

  -- With the queue as the first argument.
  unfoldable pub start_from : List (List S) → Transmitter S → Transmitter S
  start_from [] s = s
  start_from (samples ∷ queue) s = if ltb s.burst_pos (length s.burst) then s else record s {
    queue = queue;
    burst = assemble s.setup samples;
    burst_pos = 0;
    frames_started = u64 (s.frames_started + 1);
  }

  unfoldable pub start_next_burst : Transmitter S → Transmitter S
  start_next_burst s = start_from s.queue s

  -- The samples written so far are `out`.
  unfoldable pub fill_from_burst : ℕ → List S → Transmitter S → List S × Transmitter S
  fill_from_burst n out s =
      let avail = length s.burst - s.burst_pos in
      let count = min (n - length out) avail in
      let next = s.burst_pos + count in
      if count == 0 then (out, s) else (
        out ++ take count (drop s.burst_pos s.burst),
        (if leb (length s.burst) next
            then record s { burst = []; burst_pos = 0 }
            else record s { burst_pos = next }),
      )

  -- The loop of `pull`, with a bound on its rounds.
  unfoldable pub pull_loop : ℕ → ℕ → List S → Transmitter S → List S × Transmitter S
  pull_loop zero n out s = (out, s)
  pull_loop (suc fuel) n out s =
      let ready = if leb (length s.burst) s.burst_pos then start_next_burst s else s in
      let filled = fill_from_burst n out ready in
      let rest = pull_loop fuel n filled.0 filled.1 in
      if ltb (length out) n
      then (if ltb ready.burst_pos (length ready.burst)
          then rest
          else (out ++ repeated (n - length out) (ready.setup.silence ∷ []), ready))
      else (out, s)

  unfoldable pub pull : ℕ → Transmitter S → List S × Transmitter S
  pull n s =
      let r = pull_loop n n [] s in
      (r.0, record r.1 { samples_emitted = u64 (r.1.samples_emitted + n) })

  -- The constructor.
  unfoldable pub new_transmitter : Modulator S → S → S → Transmitter S
  new_transmitter modulator carrier silence = record {
    setup = record {
      modulator = modulator;
      carrier = carrier;
      silence = silence;
      warmup_syms = 0;
      gap_syms = 12;
    };
    queue = [];
    burst = [];
    burst_pos = 0;
    frames_started = 0;
    samples_emitted = 0;
  }
