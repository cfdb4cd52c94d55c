-- ===== src/Daemon/Events.antt =====
-- apps/quadrf_lora_phy.cpp: what the main loop and the threads of samples do, in any order.
use mathlib.Core.Path.{subst}
use quadrf_mesh.Base.{
  ℕ, ◌+◌, ◌<◌, ◌≡◌, ◌⊎◌, inl, inr, refl, sym, ap, ◌∙◌, arith, Bool, true, false, none, some, List,
  [], ◌∷◌, ◌==◌, length, ltb, Option-cases, Bool-cases,
}
use quadrf_mesh.Base.Words.{u64, bytes}
use quadrf_mesh.AirIpc.Messages.{decode_tx, decode_set_modem}
use quadrf_mesh.AirIpc.Wire.{tx_enqueue, set_modem}
use quadrf_mesh.AirIpc.Deframer.{Frame, feed}
use quadrf_mesh.Lora.Presets.{
  MeshtasticPreset, meshtastic_preset_from_id, meshtastic_preset_info, meshtastic_preset_infos,
  find_info, preset_id, parse_meshtastic_preset, meshtastic_params, short_turbo, short_fast,
  short_slow, medium_fast, medium_slow, long_fast, long_moderate, long_slow, very_long_slow,
  long_turbo,
}
use quadrf_mesh.Lora.Frame.{chip_count}
use quadrf_mesh.Lora.Modulator.{samples_per_symbol}
use quadrf_mesh.Lora.Transmitter.{
  Transmitter, enqueue, enqueue_frame, modulated, clear_queue, new_transmitter, set_gap_symbols,
  set_warmup_symbols,
}
use quadrf_mesh.Lora.Emission.{IsWellFormed, pull_lem}
use quadrf_mesh.Lora.Requests.{enqueue_frame-IsWellFormed, modulated-HasSamples}
use quadrf_mesh.Daemon.Queues.{TxState, enqueue_air, remember_tx}
use quadrf_mesh.Daemon.Phy.{
  Phy, PhyParams, Platform, preset_params, parse_preset, same_modem, os_factor, modulator_for,
  transmitter_for, switch_modem, apply_modem, enqueue_air_tx, handle_set_modem, handle_tx_enqueue,
  handle_ipc_frame, handle_ipc_frames, client_read, accept_client, drop_client,
  frequency_request_accepted, initial, start_phy, tx_pull, rx_push,
}
use quadrf_mesh.Daemon.ModemLaws.{
  IsConsistent, wanted_setup, transmitter_for-wanted_setup, wanted, switched, apply_modem_known,
  apply_modem_unknown, switched-IsConsistent,
}

module _ {S Ddc Rx : Type 0} (platform : Platform S Ddc Rx) where
  -- One event after another from a start with some preset.
  pub data Reachable : Phy S Ddc Rx → Type 0 where
    started :
        (name : List ℕ) (center_hz : ℕ) (s : Phy S Ddc Rx)
        → start_phy platform name center_hz ≡ some s
        → Reachable s
    connected : (fd : ℕ) (s : Phy S Ddc Rx) → Reachable s → Reachable (accept_client fd s)
    read : (xs : List ℕ) (s : Phy S Ddc Rx) → Reachable s → Reachable (client_read platform xs s)
    pulled : (n : ℕ) (s : Phy S Ddc Rx) → Reachable s → Reachable (tx_pull n s).1
    captured : (chunk : List S) (s : Phy S Ddc Rx) → Reachable s → Reachable (rx_push chunk s)
    heard :
        (ddc : Ddc) (receiver : Rx) (s : Phy S Ddc Rx)
        → Reachable s
        → Reachable (record s { ddc = ddc; receiver = receiver })

  -- The transmitter is well formed and sends with the parameters of the preset that runs, at the
  -- sample rate that the presets have.
  pub record IsSound (s : Phy S Ddc Rx) : Type 0 where
    pub consistent : IsConsistent platform s
    pub well_formed : IsWellFormed s.sender.tx
    pub rate : s.params.sample_rate_hz ≡ 1000000

  preset_sps :
      (preset : MeshtasticPreset)
      → 0 < samples_per_symbol (modulator_for platform (preset_params preset 1000000))
  unfolding samples_per_symbol modulator_for preset_params os_factor chip_count meshtastic_params
      meshtastic_preset_info find_info meshtastic_preset_infos preset_id
  preset_sps short_turbo = omega arith
  preset_sps short_fast = omega arith
  preset_sps short_slow = omega arith
  preset_sps medium_fast = omega arith
  preset_sps medium_slow = omega arith
  preset_sps long_fast = omega arith
  preset_sps long_moderate = omega arith
  preset_sps long_slow = omega arith
  preset_sps very_long_slow = omega arith
  preset_sps long_turbo = omega arith

  sps_pos : (s : Phy S Ddc Rx) → IsSound s → 0 < samples_per_symbol s.sender.tx.setup.modulator
  unfolding transmitter_for set_gap_symbols set_warmup_symbols new_transmitter modulator_for
      os_factor
  sps_pos s sound =
      let c = sound.consistent in
      let params : s.params ≡ preset_params c.running 1000000 =
        c.same_params ∙ ap (preset_params c.running) sound.rate in
      subst (λ u. 0 < samples_per_symbol u.modulator) (sym c.same_setup)
        (subst (λ p. 0 < samples_per_symbol (modulator_for platform p)) (sym params)
          (preset_sps c.running))

  -- An air frame for the transmitter is refused or queued.
  enqueue_air-cases :
      (rx_only : Bool) (air : List ℕ) (t : TxState (Transmitter S))
      → ((enqueue_air enqueue rx_only air t).1 ≡ t)
        ⊎ ((enqueue_air enqueue rx_only air t).1 ≡ record {
          tx = enqueue_frame (modulated t.tx.setup air) t.tx;
          recent_tx = remember_tx air t.recent_tx;
          tx_enqueued = u64 (t.tx_enqueued + 1);
        })
  unfolding enqueue_air enqueue
  enqueue_air-cases true air t = inl refl
  enqueue_air-cases false air t = elim (Bool-cases (ltb 255 (length air))) [
    | inl long ↦ inl (rw (enqueue_air, enqueue, long) refl)
    | inr short ↦ inr (rw (enqueue_air, enqueue, short) refl)
  ]

  enqueue_air_tx-IsSound :
      (air : List ℕ) (s : Phy S Ddc Rx) → IsSound s → IsSound (enqueue_air_tx platform air s)
  unfolding enqueue_air_tx enqueue_frame
  enqueue_air_tx-IsSound air s sound =
      let with_sender : TxState (Transmitter S) → Phy S Ddc Rx = λ t. record s { sender = t } in
      elim (enqueue_air-cases platform.rx_only air s.sender) [
        | inl refused ↦ subst (λ t. IsSound (with_sender t)) (sym refused) sound
        | inr queued ↦
            let samples = modulated s.sender.tx.setup air in
            subst (λ t. IsSound (with_sender t)) (sym queued)
              (record {
                consistent = record {
                  running = sound.consistent.running;
                  same_params = sound.consistent.same_params;
                  same_setup = sound.consistent.same_setup;
                };
                well_formed =
                    enqueue_frame-IsWellFormed samples s.sender.tx sound.well_formed
                      (modulated-HasSamples s.sender.tx.setup air (sps_pos s sound));
                rate = sound.rate;
              })
      ]

  switched_rest :
      (preset : MeshtasticPreset) (s : Phy S Ddc Rx)
      → IsSound s
      → let t = switched platform preset s in
        IsWellFormed t.sender.tx × (t.params.sample_rate_hz ≡ 1000000)
  unfolding switch_modem clear_queue IsWellFormed preset_params transmitter_for set_gap_symbols
      set_warmup_symbols new_transmitter
  switched_rest preset s sound =
      elim (Option-cases (platform.make_ddc (wanted platform preset s))) [
        | inl refused ↦ rw (switch_modem, refused) ((sound.well_formed.0, _), sound.rate)
        | inr (ddc, made) ↦ rw (switch_modem, made) ((omega arith, _), sound.rate)
      ]

  switched-IsSound :
      (preset : MeshtasticPreset) (s : Phy S Ddc Rx)
      → IsSound s
      → IsSound (switched platform preset s)
  switched-IsSound preset s sound =
      let (well_formed, rate) = switched_rest preset s sound in
      record {
        consistent = switched-IsConsistent platform preset s sound.consistent;
        well_formed = well_formed;
        rate = rate;
      }

  apply_modem-IsSound :
      (id : ℕ) (s : Phy S Ddc Rx) → IsSound s → IsSound (apply_modem platform id s)
  apply_modem-IsSound id s sound = elim (Option-cases (meshtastic_preset_from_id id)) [
    | inl unknown ↦ subst IsSound (sym (apply_modem_unknown platform id s unknown)) sound
    | inr (preset, known) ↦
        subst IsSound (sym (apply_modem_known platform id preset s known))
          (elim (Bool-cases (same_modem (wanted platform preset s) s.params)) [
            | inl same ↦ rw same sound
            | inr other ↦ rw other (switched-IsSound preset s sound)
          ])
  ]

  handle_set_modem-IsSound :
      (body : List ℕ) (s : Phy S Ddc Rx) → IsSound s → IsSound (handle_set_modem platform body s)
  unfolding handle_set_modem
  handle_set_modem-IsSound body s sound = elim (Option-cases (decode_set_modem (bytes body))) [
    | inl bad ↦ rw (handle_set_modem, bad) sound
    | inr (m, good) ↦ rw (handle_set_modem, good) (apply_modem-IsSound m.preset s sound)
  ]

  handle_tx_enqueue-IsSound :
      (body : List ℕ) (s : Phy S Ddc Rx) → IsSound s → IsSound (handle_tx_enqueue platform body s)
  unfolding handle_tx_enqueue frequency_request_accepted
  handle_tx_enqueue-IsSound body s sound = elim (Option-cases (decode_tx (bytes body))) [
    | inl bad ↦ rw (handle_tx_enqueue, bad) sound
    | inr (m, good) ↦ rw (handle_tx_enqueue, good) (enqueue_air_tx-IsSound m.air s sound)
  ]

  handle_ipc_frames-IsSound :
      (frames : List Frame) (s : Phy S Ddc Rx)
      → IsSound s
      → IsSound (handle_ipc_frames platform frames s)
  unfolding handle_ipc_frames handle_ipc_frame
  handle_ipc_frames-IsSound [] s sound = sound
  handle_ipc_frames-IsSound (fr ∷ frames) s sound =
      handle_ipc_frames-IsSound frames (handle_ipc_frame platform fr s)
        (elim (Bool-cases (fr.type == set_modem)) [
          | inl is_set ↦ rw is_set (handle_set_modem-IsSound fr.body s sound)
          | inr not_set ↦ elim (Bool-cases (fr.type == tx_enqueue)) [
            | inl is_tx ↦ rw (not_set, is_tx) (handle_tx_enqueue-IsSound fr.body s sound)
            | inr not_tx ↦ rw (not_set, not_tx) sound
          ]
        ])

  -- It hangs on the parameters and the transmitter alone.
  IsSound-same :
      (s t : Phy S Ddc Rx)
      → t.params ≡ s.params
      → t.sender.tx.setup ≡ s.sender.tx.setup
      → IsWellFormed t.sender.tx
      → IsSound s
      → IsSound t
  IsSound-same s t params setup well_formed sound =
      let c = sound.consistent in
      record {
        consistent = record {
          running = c.running;
          same_params =
              subst (λ p. p ≡ preset_params c.running p.sample_rate_hz) (sym params) c.same_params;
          same_setup = setup ∙ c.same_setup ∙ ap (wanted_setup platform) (sym params);
        };
        well_formed = well_formed;
        rate = ap (λ (p : PhyParams). p.sample_rate_hz) params ∙ sound.rate;
      }

  client_read-IsSound :
      (xs : List ℕ) (s : Phy S Ddc Rx) → IsSound s → IsSound (client_read platform xs s)
  unfolding client_read drop_client
  client_read-IsSound [] s sound = IsSound-same s (drop_client s) refl refl sound.well_formed sound
  client_read-IsSound (b ∷ sock_buf) s sound =
      let fed = feed s.ipc_deframer (bytes (b ∷ sock_buf)) [] in
      let t : Phy S Ddc Rx = record s { ipc_deframer = fed.deframer } in
      handle_ipc_frames-IsSound fed.output t (IsSound-same s t refl refl sound.well_formed sound)

  initial-IsSound :
      (name : List ℕ) (center_hz : ℕ) (preset : MeshtasticPreset) (ddc : Ddc)
      → IsSound (initial platform name center_hz (preset_params preset 1000000) ddc)
  unfolding initial preset_params transmitter_for set_gap_symbols set_warmup_symbols new_transmitter
      IsWellFormed
  initial-IsSound name center_hz preset ddc = record {
    consistent = record {
      running = preset;
      same_params = refl;
      same_setup = transmitter_for-wanted_setup platform (preset_params preset 1000000);
    };
    well_formed = (omega arith, _);
    rate = refl;
  }

  start_phy-IsSound :
      (name : List ℕ) (center_hz : ℕ) (s : Phy S Ddc Rx)
      → start_phy platform name center_hz ≡ some s
      → IsSound s
  unfolding start_phy parse_preset
  start_phy-IsSound name center_hz s e = elim (Option-cases (parse_meshtastic_preset name)) [
    | inl bad ↦
        let unknown : parse_preset name ≡ none = rw (parse_preset, bad) refl in
        let refused : start_phy platform name center_hz ≡ none = rw (start_phy, unknown) refl in
        absurd (cc)
    | inr (preset, good) ↦
        let params = preset_params preset 1000000 in
        let parsed : parse_preset name ≡ some params = rw (parse_preset, good) refl in
        elim (Option-cases (platform.make_ddc params)) [
          | inl bad ↦
              let refused : start_phy platform name center_hz ≡ none =
                rw (start_phy, parsed, bad) refl in
              absurd (cc)
          | inr (ddc, made) ↦
              let accepted : start_phy platform name center_hz
                  ≡ some (initial platform name center_hz params ddc) =
                rw (start_phy, parsed, made) refl in
              let same : initial platform name center_hz params ddc ≡ s = cc in
              subst IsSound same (initial-IsSound name center_hz preset ddc)
        ]
  ]

  -- In every state that the daemon comes to, by connections, reads of any bytes, pulls of the transmit
  -- thread and chunks of the receive thread in any order, it runs one of the presets, its transmitter
  -- is set up for exactly that one, and the transmitter is well formed.
  pub Reachable-IsSound : {s : Phy S Ddc Rx} → Reachable s → IsSound s
  unfolding accept_client tx_pull rx_push
  Reachable-IsSound (started name center_hz s e) = start_phy-IsSound name center_hz s e
  Reachable-IsSound (connected fd s before) =
      let sound = Reachable-IsSound before in
      IsSound-same s (accept_client fd s) refl refl sound.well_formed sound
  Reachable-IsSound (read xs s before) = client_read-IsSound xs s (Reachable-IsSound before)
  Reachable-IsSound (pulled n s before) =
      let sound = Reachable-IsSound before in
      let (size, samples, rest, kept, good) = pull_lem n s.sender.tx sound.well_formed in
      IsSound-same s (tx_pull n s).1 refl kept good sound
  Reachable-IsSound (captured chunk s before) =
      let sound = Reachable-IsSound before in
      IsSound-same s (rx_push chunk s) refl refl sound.well_formed sound
  Reachable-IsSound (heard ddc receiver s before) =
      let sound = Reachable-IsSound before in
      IsSound-same s (record s { ddc = ddc; receiver = receiver }) refl refl sound.well_formed sound
