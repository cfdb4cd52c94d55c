-- ===== src/Examples/Transmitter.antt =====
-- The transmitter with numbers as samples: the chirp of a value is a ramp that starts at it.
use quadrf_mesh.Base.{
  ℕ, ◌+◌, ◌*◌, ◌/◌, ◌≡◌, ◌↔◌, arith, true, false, ◌<◌, All, List, [], ◌∷◌, length, drop,
}
use quadrf_mesh.Lora.Frame.{LoraParams, frame_symbol_count}
use quadrf_mesh.Lora.Modulator.{Modulator, samples_per_symbol}
use quadrf_mesh.Lora.Transmitter.{Setup, Transmitter, modulated, is_idle, pull}
use quadrf_mesh.Lora.Emission.{emitted, pending, HasSamples, IsWellFormed, pull_lem}
use quadrf_mesh.Lora.Airtime.{length-modulated}
use quadrf_mesh.Lora.Requests.{
  Request, submit, submit_frame, emit, IsFit, serve_requests, play, serve_requests-play,
  is_idle_lem,
}

abbrev params : LoraParams
params = record { spreading_factor = 7; cr = 1; has_crc = true; ldro = false }

abbrev ramps : Modulator ℕ
ramps = record {
  params = params;
  sync_word = 0x2b;
  preamble_len = 16;
  os_factor = 2;
  chirp_sample = λ id folded n. id + n;
  conj = λ x. x + 1000;
}

abbrev setup : Setup ℕ
setup = record { modulator = ramps; carrier = 500; silence = 0; warmup_syms = 1; gap_syms = 1 }

abbrev fresh : Transmitter ℕ
fresh = record {
  setup = setup;
  queue = [];
  burst = 8 ∷ 9 ∷ [];
  burst_pos = 1;
  frames_started = 1;
  samples_emitted = 1;
}

fresh-IsWellFormed : IsWellFormed fresh
unfolding IsWellFormed
fresh-IsWellFormed = (omega arith, _)

sps_pos : 1 < samples_per_symbol ramps
unfolding samples_per_symbol quadrf_mesh.Lora.Frame.chip_count
sps_pos = omega arith

pull_lem_example :
    (length (pull 3 fresh).0 ≡ 3)
    × ((pull 3 fresh).0 ≡ emitted 0 3 (pending fresh))
    × (pending (pull 3 fresh).1 ≡ drop 3 (pending fresh))
    × ((pull 3 fresh).1.setup ≡ setup)
    × IsWellFormed (pull 3 fresh).1
pull_lem_example = pull_lem 3 fresh fresh-IsWellFormed

abbrev requests : List (Request ℕ)
requests = emit 2 ∷ submit (1 ∷ 2 ∷ []) ∷ emit 7 ∷ submit_frame (4 ∷ []) ∷ emit 5 ∷ []

fit : All IsFit requests
unfolding IsFit HasSamples
fit = (_, (_, (_, (omega arith, (_, _)))))

serve_requests-play_example : serve_requests requests fresh ≡ play setup requests (pending fresh)
serve_requests-play_example =
    serve_requests-play requests fresh fit fresh-IsWellFormed (omega (arith, sps_pos))

is_idle_lem_example :
    ((is_idle fresh ≡ true) ↔ (pending fresh ≡ []))
    × (is_idle (pull (length (pending fresh)) fresh).1 ≡ true)
is_idle_lem_example = is_idle_lem fresh fresh-IsWellFormed

length-modulated_example :
    length (modulated setup (1 ∷ 2 ∷ 3 ∷ []))
    ≡ (16 + 4 + frame_symbol_count params 3) * samples_per_symbol ramps
      + samples_per_symbol ramps / 4
length-modulated_example = length-modulated setup (1 ∷ 2 ∷ 3 ∷ []) (omega arith) (omega arith)
