-- ===== src/Daemon/ModemLaws.antt =====
-- apps/quadrf_lora_phy.cpp: which modem the daemon runs.
use mathlib.Core.Path.{subst}
use quadrf_mesh.Base.{
  ℕ, ◌+◌, ◌*◌, ◌/◌, ◌%◌, ◌^◌, false, ◌≡◌, inl, inr, refl, sym, ap, ◌∙◌, arith, if◌then◌else◌, true,
  none, some, leb, Option-cases, Bool-cases,
}
use quadrf_mesh.Base.Words.{shl}
use quadrf_mesh.Lora.Presets.{
  MeshtasticPreset, meshtastic_preset_from_id, meshtastic_preset_info, meshtastic_preset_infos,
  find_info, preset_id, parse_meshtastic_preset, preset_key, tolower, find_key, same_key,
  meshtastic_params, short_turbo, short_fast, short_slow, medium_fast, medium_slow, long_fast,
  long_moderate, long_slow, very_long_slow, long_turbo,
}
use quadrf_mesh.Lora.Transmitter.{
  Setup, clear_queue, set_gap_symbols, set_warmup_symbols, new_transmitter,
}
use quadrf_mesh.Daemon.Phy.{
  Phy, PhyParams, Platform, preset_params, preset_key_from_id, parse_preset, same_modem,
  transmitter_for, modulator_for, os_factor, switch_modem, apply_parsed, apply_modem,
}

parse_own_key :
    (preset : MeshtasticPreset)
    → parse_meshtastic_preset (meshtastic_preset_info preset).key ≡ some preset
unfolding parse_meshtastic_preset preset_key tolower find_key same_key meshtastic_preset_infos
    meshtastic_preset_info find_info preset_id
parse_own_key short_turbo = refl
parse_own_key short_fast = refl
parse_own_key short_slow = refl
parse_own_key medium_fast = refl
parse_own_key medium_slow = refl
parse_own_key long_fast = refl
parse_own_key long_moderate = refl
parse_own_key long_slow = refl
parse_own_key very_long_slow = refl
parse_own_key long_turbo = refl

-- The parameters of a preset hang on its three numbers.
abbrev of_numbers : ℕ → ℕ → ℕ → ℕ → PhyParams
of_numbers sample_rate_hz bandwidth_hz sf cr = record {
  coding = record {
    spreading_factor = sf;
    cr = cr;
    has_crc = true;
    ldro = leb (16384 * bandwidth_hz) (shl 1 sf * 1000000);
  };
  sync_word = 0x2b;
  preamble_len = 16;
  bandwidth_hz = bandwidth_hz;
  sample_rate_hz = sample_rate_hz;
}

same_modem_sound :
    (preset other : MeshtasticPreset) (rate : ℕ)
    → same_modem (preset_params preset rate) (preset_params other rate) ≡ true
    → preset_params preset rate ≡ preset_params other rate
unfolding same_modem preset_params meshtastic_params
same_modem_sound preset other rate same =
    let a = meshtastic_preset_info preset in
    let b = meshtastic_preset_info other in
    let bw : a.bandwidth_hz ≡ b.bandwidth_hz = ground (arith, same) in
    let sf : a.sf ≡ b.sf = ground (arith, same) in
    let cr : a.cr ≡ b.cr = ground (arith, same) in
    ap (λ x. of_numbers rate x a.sf a.cr) bw
    ∙ ap (λ x. of_numbers rate b.bandwidth_hz x a.cr) sf
    ∙ ap (λ x. of_numbers rate b.bandwidth_hz b.sf x) cr

module _ {S Ddc Rx : Type 0} (platform : Platform S Ddc Rx) where
  -- A transmitter for these parameters: a modulator with their coding, sync word, preamble and
  -- rounded number of samples to a chip, and the warmup and the gap of the command line, each scaled
  -- on its own.
  abbrev pub wanted_setup : PhyParams → Setup S
  wanted_setup p = record {
    modulator = record {
      params = p.coding;
      sync_word = p.sync_word;
      preamble_len = p.preamble_len;
      os_factor = (2 * p.sample_rate_hz + p.bandwidth_hz) / (2 * p.bandwidth_hz) % 2 ^ 32;
      chirp_sample = platform.chirp_sample p;
      conj = platform.conj;
    };
    carrier = platform.carrier;
    silence = platform.silence;
    warmup_syms = platform.scaled_symbols platform.warmup_syms p false;
    gap_syms = platform.scaled_symbols platform.gap_syms p true;
  }

  pub transmitter_for-wanted_setup :
      (p : PhyParams) → (transmitter_for platform p).setup ≡ wanted_setup p
  unfolding transmitter_for modulator_for os_factor set_gap_symbols set_warmup_symbols
      new_transmitter
  transmitter_for-wanted_setup p = refl

  -- The daemon runs a preset, and its transmitter sends with it.
  pub record IsConsistent (s : Phy S Ddc Rx) : Type 0 where
    pub running : MeshtasticPreset
    pub same_params : s.params ≡ preset_params running s.params.sample_rate_hz
    pub same_setup : s.sender.tx.setup ≡ wanted_setup s.params

  -- What the preset is with the sample rate that the daemon runs at.
  abbrev pub wanted : MeshtasticPreset → Phy S Ddc Rx → PhyParams
  wanted preset s = preset_params preset s.params.sample_rate_hz

  abbrev pub switched : MeshtasticPreset → Phy S Ddc Rx → Phy S Ddc Rx
  switched preset s = switch_modem platform (meshtastic_preset_info preset).key (wanted preset s) s

  pub apply_modem_known :
      (id : ℕ) (preset : MeshtasticPreset) (s : Phy S Ddc Rx)
      → meshtastic_preset_from_id id ≡ some preset
      → apply_modem platform id s
        ≡ (if same_modem (wanted preset s) s.params then s else switched preset s)
  unfolding apply_modem parse_preset preset_key_from_id apply_parsed preset_params
  apply_modem_known id preset s e =
      let named : preset_key_from_id id ≡ some (meshtastic_preset_info preset).key =
        rw (preset_key_from_id, e) refl in
      let parsed : parse_preset (meshtastic_preset_info preset).key
          ≡ some (preset_params preset 1000000) =
        rw (parse_preset, parse_own_key preset) refl in
      rw (apply_modem, named, parsed) refl

  pub apply_modem_unknown :
      (id : ℕ) (s : Phy S Ddc Rx)
      → meshtastic_preset_from_id id ≡ none
      → apply_modem platform id s ≡ s
  unfolding apply_modem preset_key_from_id
  apply_modem_unknown id s e =
      let unnamed : preset_key_from_id id ≡ none = rw (preset_key_from_id, e) refl in
      rw (apply_modem, unnamed) refl

  pub switched-IsConsistent :
      (preset : MeshtasticPreset) (s : Phy S Ddc Rx)
      → IsConsistent s
      → IsConsistent (switched preset s)
  unfolding preset_params switch_modem clear_queue
  switched-IsConsistent preset s c = elim (Option-cases (platform.make_ddc (wanted preset s))) [
    | inl refused ↦
        rw (switch_modem, refused)
          (record { running = c.running; same_params = c.same_params; same_setup = c.same_setup })
    | inr (ddc, made) ↦
        rw (switch_modem, made)
          (record {
            running = preset;
            same_params = refl;
            same_setup = transmitter_for-wanted_setup (wanted preset s);
          })
  ]

  pub apply_modem-IsConsistent :
      (id : ℕ) (s : Phy S Ddc Rx) → IsConsistent s → IsConsistent (apply_modem platform id s)
  apply_modem-IsConsistent id s c = elim (Option-cases (meshtastic_preset_from_id id)) [
    | inl unknown ↦ subst IsConsistent (sym (apply_modem_unknown id s unknown)) c
    | inr (preset, known) ↦
        subst IsConsistent (sym (apply_modem_known id preset s known))
          (elim (Bool-cases (same_modem (wanted preset s) s.params)) [
            | inl same ↦ rw same c
            | inr other ↦ rw other (switched-IsConsistent preset s c)
          ])
  ]

  -- A known preset that the filter can be built for is what the daemon then runs.
  pub apply_modem-params :
      (id : ℕ) (preset : MeshtasticPreset) (ddc : Ddc) (s : Phy S Ddc Rx)
      → IsConsistent s
      → meshtastic_preset_from_id id ≡ some preset
      → platform.make_ddc (wanted preset s) ≡ some ddc
      → (apply_modem platform id s).params ≡ wanted preset s
  unfolding switch_modem
  apply_modem-params id preset ddc s c known made =
      ap (λ (t : Phy S Ddc Rx). t.params) (apply_modem_known id preset s known)
      ∙ elim (Bool-cases (same_modem (wanted preset s) s.params)) [
        | inl same ↦ rw same (
            c.same_params
            ∙ sym (
                same_modem_sound preset c.running s.params.sample_rate_hz
                  (subst (λ p. same_modem (wanted preset s) p ≡ true) c.same_params same)))
        | inr other ↦ rw (other, switch_modem, made) refl
      ]
