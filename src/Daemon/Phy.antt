-- ===== src/Daemon/Phy.antt =====
-- apps/quadrf_lora_phy.cpp: the main loop's state, the change of the modem preset, and the frames of
-- a client. Status lines for telemetry clients and the log are left out, and so is the session of
-- `--legacy-pty`. What is computed in floating point is a parameter: the chirps, the decimating
-- filter (`Ddc`) that `makeDdc` builds or refuses, the receiver, and `scaledSymbols`.
use quadrf_mesh.Base.{
  ℕ, ◌+◌, ◌*◌, ◌/◌, Bool, true, false, not, ◌&&◌, Option, none, some, List, [], ◌∷◌, ◌==◌,
  if◌then◌else◌,
}
use quadrf_mesh.Base.Words.{u32, bytes}
use quadrf_mesh.AirIpc.Wire.{tx_enqueue, set_modem}
use quadrf_mesh.AirIpc.Messages.{decode_tx, decode_set_modem}
use quadrf_mesh.AirIpc.Deframer.{Frame, Deframer, feed, reset, fresh}
use quadrf_mesh.Lora.Frame.{LoraParams}
use quadrf_mesh.Lora.Modulator.{Modulator}
use quadrf_mesh.Lora.Transmitter.{
  Transmitter, new_transmitter, set_warmup_symbols, set_gap_symbols, clear_queue, enqueue, pull,
}
use quadrf_mesh.Lora.Presets.{
  MeshtasticPreset, meshtastic_preset_from_id, meshtastic_preset_info, parse_meshtastic_preset,
  meshtastic_params,
}
use quadrf_mesh.Daemon.Queues.{ChunkQueue, TxState, flush, push, enqueue_air}

-- `LoraParams` with the fields that the daemon compares and the modulator reads.
pub record PhyParams : Type 0 where
  pub coding : LoraParams
  pub sync_word : ℕ
  pub preamble_len : ℕ
  pub bandwidth_hz : ℕ
  pub sample_rate_hz : ℕ

-- The quotient, rounded, as `uint32_t(sample_rate_hz / bandwidth_hz + 0.5)` of whole numbers.
unfoldable pub os_factor : PhyParams → ℕ
os_factor p = u32 ((2 * p.sample_rate_hz + p.bandwidth_hz) / (2 * p.bandwidth_hz))

unfoldable pub preset_params : MeshtasticPreset → ℕ → PhyParams
preset_params preset sample_rate_hz = record {
  coding = meshtastic_params preset;
  sync_word = 0x2b;
  preamble_len = 16;
  bandwidth_hz = (meshtastic_preset_info preset).bandwidth_hz;
  sample_rate_hz = sample_rate_hz;
}

unfoldable pub preset_key_from_id : ℕ → Option (List ℕ)
preset_key_from_id id = elim (meshtastic_preset_from_id id) [
  | none ↦ none
  | some preset ↦ some (meshtastic_preset_info preset).key
]

-- With the default sample rate.
unfoldable pub parse_preset : List ℕ → Option PhyParams
parse_preset name = elim (parse_meshtastic_preset name) [
  | none ↦ none
  | some preset ↦ some (preset_params preset 1000000)
]

unfoldable pub same_modem : PhyParams → PhyParams → Bool
same_modem next params =
    next.bandwidth_hz == params.bandwidth_hz
    && next.coding.spreading_factor == params.coding.spreading_factor
    && next.coding.cr == params.coding.cr

-- The command line, as far as it is used here, and the floating-point parts.
pub record Platform (S Ddc Rx : Type 0) : Type 0 where
  pub rx_only : Bool
  pub warmup_syms : ℕ
  pub gap_syms : ℕ
  pub carrier : S
  pub silence : S
  pub chirp_sample : PhyParams → ℕ → Bool → ℕ → S
  pub conj : S → S
  pub scaled_symbols : ℕ → PhyParams → Bool → ℕ
  pub make_ddc : PhyParams → Option Ddc
  pub new_receiver : PhyParams → Rx

-- `written` is what the client that is connected has been sent.
pub record Phy (S Ddc Rx : Type 0) : Type 0 where
  pub params : PhyParams
  pub preset_name : List ℕ
  pub sender : TxState (Transmitter S)
  pub chunks : ChunkQueue S
  pub ddc : Ddc
  pub receiver : Rx
  pub center_hz : ℕ
  pub client : Option ℕ
  pub ipc_deframer : Deframer
  pub written : List ℕ
  pub rx_delivered : ℕ

unfoldable pub frequency_request_accepted : ℕ → ℕ → Bool
frequency_request_accepted requested_hz configured_hz = true

module _ {S Ddc Rx : Type 0} where
  unfoldable pub modulator_for : Platform S Ddc Rx → PhyParams → Modulator S
  modulator_for platform p = record {
    params = p.coding;
    sync_word = p.sync_word;
    preamble_len = p.preamble_len;
    os_factor = os_factor p;
    chirp_sample = platform.chirp_sample p;
    conj = platform.conj;
  }

  unfoldable pub transmitter_for : Platform S Ddc Rx → PhyParams → Transmitter S
  transmitter_for platform p = set_gap_symbols (platform.scaled_symbols platform.gap_syms p true) (
      set_warmup_symbols (platform.scaled_symbols platform.warmup_syms p false)
        (new_transmitter (modulator_for platform p) platform.carrier platform.silence))

  -- The rest of `applyModem` once the parameters are known to differ.
  unfoldable pub switch_modem : Platform S Ddc Rx → List ℕ → PhyParams → Phy S Ddc Rx → Phy S Ddc Rx
  switch_modem platform name next s =
      let cleared = record s { sender = record s.sender { tx = clear_queue s.sender.tx } } in
      elim (platform.make_ddc next) [
        | none ↦ cleared
        | some ddc ↦ record s {
          params = next;
          preset_name = name;
          sender = record s.sender { tx = transmitter_for platform next };
          chunks = flush s.chunks;
          ddc = ddc;
          receiver = platform.new_receiver next;
        }
      ]

  unfoldable pub apply_parsed : Platform S Ddc Rx → List ℕ → PhyParams → Phy S Ddc Rx → Phy S Ddc Rx
  apply_parsed platform name parsed s =
      let next = record parsed { sample_rate_hz = s.params.sample_rate_hz } in
      if same_modem next s.params then s else switch_modem platform name next s

  unfoldable pub apply_modem : Platform S Ddc Rx → ℕ → Phy S Ddc Rx → Phy S Ddc Rx
  apply_modem platform preset_id s = elim (preset_key_from_id preset_id) [
    | none ↦ s
    | some name ↦ elim (parse_preset name) [
      | none ↦ s
      | some parsed ↦ apply_parsed platform name parsed s
    ]
  ]

  unfoldable pub enqueue_air_tx : Platform S Ddc Rx → List ℕ → Phy S Ddc Rx → Phy S Ddc Rx
  enqueue_air_tx platform air s = record s {
    sender = (enqueue_air enqueue platform.rx_only air s.sender).1;
  }

  unfoldable pub handle_set_modem : Platform S Ddc Rx → List ℕ → Phy S Ddc Rx → Phy S Ddc Rx
  handle_set_modem platform body s = elim (decode_set_modem (bytes body)) [
    | none ↦ s
    | some sm ↦ apply_modem platform sm.preset s
  ]

  unfoldable pub handle_tx_enqueue : Platform S Ddc Rx → List ℕ → Phy S Ddc Rx → Phy S Ddc Rx
  handle_tx_enqueue platform body s = elim (decode_tx (bytes body)) [
    | none ↦ s
    | some txm ↦
        if frequency_request_accepted txm.freq_hz s.center_hz
        then enqueue_air_tx platform txm.air s
        else s
  ]

  unfoldable pub handle_ipc_frame : Platform S Ddc Rx → Frame → Phy S Ddc Rx → Phy S Ddc Rx
  handle_ipc_frame platform fr s =
      if fr.type == set_modem
      then handle_set_modem platform fr.body s
      else if not (fr.type == tx_enqueue)
      then s
      else handle_tx_enqueue platform fr.body s

  unfoldable pub handle_ipc_frames : Platform S Ddc Rx → List Frame → Phy S Ddc Rx → Phy S Ddc Rx
  handle_ipc_frames platform [] s = s
  handle_ipc_frames platform (fr ∷ frames) s =
      handle_ipc_frames platform frames (handle_ipc_frame platform fr s)

  -- A new connection replaces the one that there was.
  unfoldable pub accept_client : ℕ → Phy S Ddc Rx → Phy S Ddc Rx
  accept_client fd s = record s {
    client = some fd;
    ipc_deframer = reset s.ipc_deframer;
    written = [];
  }

  unfoldable pub drop_client : Phy S Ddc Rx → Phy S Ddc Rx
  drop_client s = record s { client = none }

  -- What a read of the client's socket returned, nothing on its end or an error.
  unfoldable pub client_read : Platform S Ddc Rx → List ℕ → Phy S Ddc Rx → Phy S Ddc Rx
  client_read platform [] s = drop_client s
  client_read platform (b ∷ sock_buf) s =
      let fed = feed s.ipc_deframer (bytes (b ∷ sock_buf)) [] in
      handle_ipc_frames platform fed.output (record s { ipc_deframer = fed.deframer })

  -- The state at the start of the main loop.
  unfoldable pub initial : Platform S Ddc Rx → List ℕ → ℕ → PhyParams → Ddc → Phy S Ddc Rx
  initial platform name center_hz params ddc = record {
    params = params;
    preset_name = name;
    sender = record { tx = transmitter_for platform params; recent_tx = []; tx_enqueued = 0 };
    chunks = record { q = []; dropped = 0 };
    ddc = ddc;
    receiver = platform.new_receiver params;
    center_hz = center_hz;
    client = none;
    ipc_deframer = fresh;
    written = [];
    rx_delivered = 0;
  }

  -- Nothing where the name or the filter is refused.
  unfoldable pub start_phy : Platform S Ddc Rx → List ℕ → ℕ → Option (Phy S Ddc Rx)
  start_phy platform name center_hz = elim (parse_preset name) [
    | none ↦ none
    | some params ↦ elim (platform.make_ddc params) [
      | none ↦ none
      | some ddc ↦ some (initial platform name center_hz params ddc)
    ]
  ]

  -- The transmit thread takes the next samples.
  unfoldable pub tx_pull : ℕ → Phy S Ddc Rx → List S × Phy S Ddc Rx
  tx_pull chunk_len s =
      let r = pull chunk_len s.sender.tx in
      (r.0, record s { sender = record s.sender { tx = r.1 } })

  -- The receive thread adds a chunk.
  unfoldable pub rx_push : List S → Phy S Ddc Rx → Phy S Ddc Rx
  rx_push chunk s = record s { chunks = push chunk s.chunks }
