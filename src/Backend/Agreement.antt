-- ===== src/Backend/Agreement.antt =====
-- integrations/meshtastic/backend/QuadRFRadio.cpp with include/phy/lora/presets.hpp: the backend
-- computes with the modem parameters that the PHY runs.
use quadrf_mesh.Base.{
  ℕ, ◌+◌, ◌≡◌, refl, sym, ap, ◌∙◌, arith, inl, inr, Bool, true, false, not, ◌&&◌, some, List, [],
  ◌∷◌, All, leb, ◌==◌, if◌then◌else◌, Bool-cases, Option-cases,
}
use mathlib.Core.Path.{subst}
use quadrf_mesh.Lora.Presets as Phy
use quadrf_mesh.Lora.Presets.{
  MeshtasticPreset, preset_id, meshtastic_preset_infos, find_info, meshtastic_preset_info,
  meshtastic_preset_from_id,
}
use quadrf_mesh.Backend.Modem.{
  ModemPreset, short_turbo, very_long_slow, modem_preset_tag, PhyPreset, phy_presets, first_preset,
  phy_preset_for, near, phy_preset_for_params, LoraConfig, Modem, Settings, save_to_disk,
  clear_override_frequency, revert_to_short_turbo, interface_reconfigure,
  phy_preset_from_meshtastic, apply_phy_modem_timing, push_modem_to_phy, reconfigure,
}

-- The PHY runs the modem's parameters when it gets the id: its bandwidth to half a kHz, its
-- spreading factor and its code rate, which the PHY counts from 1 and the backend from 5.
pub record Agrees (id : ℕ) (modem : Modem) : Type 0 where
  pub preset : MeshtasticPreset
  pub known : meshtastic_preset_from_id id ≡ some preset
  pub same_bw : near (meshtastic_preset_info preset).bandwidth_hz modem.bw ≡ true
  pub same_sf : (meshtastic_preset_info preset).sf ≡ modem.sf
  pub same_cr : (meshtastic_preset_info preset).cr + 4 ≡ modem.cr

-- A row of the backend's table has the numbers of the PHY's row.
record IsRow (p : PhyPreset) : Type 0 where
  preset : MeshtasticPreset
  known : meshtastic_preset_from_id p.id ≡ some preset
  same_bw : (meshtastic_preset_info preset).bandwidth_hz ≡ p.bw_hz
  same_sf : (meshtastic_preset_info preset).sf ≡ p.sf
  same_cr : (meshtastic_preset_info preset).cr + 4 ≡ p.cr

abbrev numbers : PhyPreset → Modem
numbers p = record { bw = p.bw_hz; sf = p.sf; cr = p.cr }

table : All IsRow phy_presets
unfolding phy_presets meshtastic_preset_from_id meshtastic_preset_info find_info preset_id
    meshtastic_preset_infos
table = (
  record { preset = Phy.short_turbo; known = refl; same_bw = refl; same_sf = refl; same_cr = refl },
  (
    record {
      preset = Phy.short_fast;
      known = refl;
      same_bw = refl;
      same_sf = refl;
      same_cr = refl;
    },
    (
      record {
        preset = Phy.short_slow;
        known = refl;
        same_bw = refl;
        same_sf = refl;
        same_cr = refl;
      },
      (
        record {
          preset = Phy.medium_fast;
          known = refl;
          same_bw = refl;
          same_sf = refl;
          same_cr = refl;
        },
        (
          record {
            preset = Phy.medium_slow;
            known = refl;
            same_bw = refl;
            same_sf = refl;
            same_cr = refl;
          },
          (
            record {
              preset = Phy.long_fast;
              known = refl;
              same_bw = refl;
              same_sf = refl;
              same_cr = refl;
            },
            (
              record {
                preset = Phy.long_moderate;
                known = refl;
                same_bw = refl;
                same_sf = refl;
                same_cr = refl;
              },
              (
                record {
                  preset = Phy.long_slow;
                  known = refl;
                  same_bw = refl;
                  same_sf = refl;
                  same_cr = refl;
                },
                (
                  record {
                    preset = Phy.very_long_slow;
                    known = refl;
                    same_bw = refl;
                    same_sf = refl;
                    same_cr = refl;
                  },
                  (
                    record {
                      preset = Phy.long_turbo;
                      known = refl;
                      same_bw = refl;
                      same_sf = refl;
                      same_cr = refl;
                    },
                    tt,
                  ),
                ),
              ),
            ),
          ),
        ),
      ),
    ),
  ),
)

first_preset_sound :
    (test : PhyPreset → Bool) (presets : List PhyPreset) (p : PhyPreset)
    → All IsRow presets
    → first_preset test presets ≡ some p
    → IsRow p × (test p ≡ true)
unfolding first_preset
first_preset_sound test [] p rows h = absurd (cc)
first_preset_sound test (q ∷ presets) p rows h =
    go (test q) refl h (first_preset_sound test presets p rows.1)
  where
    go :
        (b : Bool)
        → test q ≡ b
        → (if b then some q else first_preset test presets) ≡ some p
        → (first_preset test presets ≡ some p → IsRow p × (test p ≡ true))
        → IsRow p × (test p ≡ true)
    go true e found later =
        let same : q ≡ p = cc in (subst IsRow same rows.0, ap test (sym same) ∙ e)
    go false e found later = later found

abbrev turbo : PhyPreset
turbo = record { preset = short_turbo; id = 0; bw_hz = 500000; sf = 7; cr = 5 }

save_to_disk-config : (s : Settings) → (save_to_disk s).config ≡ s.config
unfolding save_to_disk
save_to_disk-config s = elim (Bool-cases s.node_db) [ inl on ↦ rw on refl | inr off ↦ rw off refl ]

IsRow-Agrees : (p : PhyPreset) (modem : Modem) → IsRow p → modem ≡ numbers p → Agrees p.id modem
unfolding near
IsRow-Agrees p modem row e = record {
  preset = row.preset;
  known = row.known;
  same_bw = ground (arith, row.same_bw, ap (λ (m : Modem). m.bw) e);
  same_sf = row.same_sf ∙ sym (ap (λ (m : Modem). m.sf) e);
  same_cr = row.same_cr ∙ sym (ap (λ (m : Modem). m.cr) e);
}

module _ (modem_of : LoraConfig → Modem) (slot_time_of : Modem → ℕ)
    (documented : (c : LoraConfig) (p : PhyPreset)
      → c.use_preset ≡ true
      → phy_preset_for c.modem_preset ≡ some p
      → (modem_preset_tag c.modem_preset == modem_preset_tag very_long_slow) ≡ false
      → modem_of c ≡ record {
        bw = p.bw_hz;
        sf = p.sf;
        cr = if leb 5 c.coding_rate && leb c.coding_rate 8 then c.coding_rate else p.cr;
      }) where
  -- With a preset of the table, the timing leaves that preset's numbers.
  timing_lem :
      (s : Settings) (p : PhyPreset)
      → s.config.use_preset ≡ true
      → phy_preset_for s.config.modem_preset ≡ some p
      → s.modem ≡ modem_of s.config
      → (leb 5 s.config.coding_rate
          && leb s.config.coding_rate 8
          && not (s.config.coding_rate == p.cr))
        ≡ false
      → (apply_phy_modem_timing modem_of slot_time_of s).modem ≡ numbers p
  unfolding apply_phy_modem_timing
  timing_lem s p on found made rate =
      elim (Bool-cases
        (modem_preset_tag s.config.modem_preset == modem_preset_tag very_long_slow)) [
          | inl slow ↦ rw (on, slow, found) refl
          | inr plain ↦
              rw (on, plain)
                (made
                  ∙ documented s.config p on found plain
                  ∙ ap (λ t. record { bw = p.bw_hz; sf = p.sf; cr = t })
                      (chosen s.config.coding_rate p.cr rate))
        ]
    where
      chosen :
          (rate cr : ℕ)
          → (leb 5 rate && leb rate 8 && not (rate == cr)) ≡ false
          → (if leb 5 rate && leb rate 8 then rate else cr) ≡ cr
      chosen rate cr h = ground (arith, h)

  -- The rows that the searches find.
  preset-IsRow : (preset : ModemPreset) (p : PhyPreset) → phy_preset_for preset ≡ some p → IsRow p
  unfolding phy_preset_for
  preset-IsRow preset p found = (first_preset_sound _ phy_presets p table found).0

  custom_row :
      (modem : Modem) (p : PhyPreset)
      → phy_preset_for_params modem.bw modem.sf modem.cr ≡ some p
      → Agrees p.id modem
  unfolding phy_preset_for_params near
  custom_row modem p found =
      let (row, test) = first_preset_sound _ phy_presets p table found in
      record {
        preset = row.preset;
        known = row.known;
        same_bw = ground (arith, row.same_bw, test);
        same_sf = ground (arith, row.same_sf, test);
        same_cr = ground (arith, row.same_cr, test);
      }

  turbo_found : phy_preset_for short_turbo ≡ some turbo
  unfolding phy_preset_for first_preset phy_presets modem_preset_tag
  turbo_found = refl

  turbo-IsRow : IsRow turbo
  turbo-IsRow = preset-IsRow short_turbo turbo turbo_found

  -- A revert leaves Short Turbo.
  reverted_lem :
      (s : Settings)
      → Agrees 0
          (apply_phy_modem_timing modem_of slot_time_of
            (interface_reconfigure modem_of slot_time_of (revert_to_short_turbo s))).modem
  unfolding interface_reconfigure revert_to_short_turbo
  reverted_lem s =
      let next = record s.config {
        use_preset = true;
        modem_preset = short_turbo;
        coding_rate = 0;
      } in
      let e : (revert_to_short_turbo s).config ≡ next =
        save_to_disk-config (record s { config = next }) in
      IsRow-Agrees turbo _ turbo-IsRow (
        timing_lem (interface_reconfigure modem_of slot_time_of (revert_to_short_turbo s)) turbo
          (ap (λ (c : LoraConfig). c.use_preset) e)
          (ap (λ (c : LoraConfig). phy_preset_for c.modem_preset) e ∙ turbo_found) refl
          (ap
            (λ (c : LoraConfig).
              leb 5 c.coding_rate && leb c.coding_rate 8 && not (c.coding_rate == 5))
            e))

  -- A code rate that the preset does not have is dropped.
  dropped_lem :
      (s : Settings) (p : PhyPreset)
      → s.config.use_preset ≡ true
      → phy_preset_for s.config.modem_preset ≡ some p
      → Agrees p.id
          (apply_phy_modem_timing modem_of slot_time_of (
            interface_reconfigure modem_of slot_time_of
              (save_to_disk (record s { config = record s.config { coding_rate = 0 } })))).modem
  unfolding interface_reconfigure
  dropped_lem s p on found =
      let next = record s.config { coding_rate = 0 } in
      let saved = save_to_disk (record s { config = next }) in
      let e : saved.config ≡ next = save_to_disk-config (record s { config = next }) in
      IsRow-Agrees p _ (preset-IsRow s.config.modem_preset p found) (
        timing_lem (interface_reconfigure modem_of slot_time_of saved) p
          (ap (λ (c : LoraConfig). c.use_preset) e ∙ on)
          (ap (λ (c : LoraConfig). phy_preset_for c.modem_preset) e ∙ found) refl
          (ap
            (λ (c : LoraConfig).
              leb 5 c.coding_rate && leb c.coding_rate 8 && not (c.coding_rate == p.cr))
            e))

  timing_custom :
      (s : Settings)
      → s.config.use_preset ≡ false
      → (apply_phy_modem_timing modem_of slot_time_of s).modem ≡ s.modem
  unfolding apply_phy_modem_timing
  timing_custom s off = rw off refl

  push_modem_to_phy_lem :
      (s : Settings)
      → s.modem ≡ modem_of s.config
      → let out = push_modem_to_phy modem_of slot_time_of s in Agrees out.0.preset out.1.modem
  unfolding push_modem_to_phy phy_preset_from_meshtastic
  push_modem_to_phy_lem s made = elim (Bool-cases s.config.use_preset) [
    | inl on ↦ elim (Option-cases (phy_preset_for s.config.modem_preset)) [
      | inl missing ↦ rw (on, missing) (reverted_lem s)
      | inr (p, found) ↦
          elim (Bool-cases (
            leb 5 s.config.coding_rate
            && leb s.config.coding_rate 8
            && not (s.config.coding_rate == p.cr))) [
              | inl custom ↦ rw (on, found, custom) (dropped_lem s p on found)
              | inr plain ↦
                  rw (on, found, plain)
                    (IsRow-Agrees p _ (preset-IsRow s.config.modem_preset p found)
                      (timing_lem s p on found made plain))
            ]
    ]
    | inr off ↦ elim (Option-cases (phy_preset_for_params s.modem.bw s.modem.sf s.modem.cr)) [
      | inl missing ↦ rw (off, missing) (reverted_lem s)
      | inr (p, found) ↦
          rw (off, found)
            (subst (Agrees p.id) (sym (timing_custom s off)) (custom_row s.modem p found))
    ]
  ]

  -- After a reconfiguration from any configuration, valid, unknown or custom, the preset that the
  -- message names is one that the PHY knows, and the bandwidth, the spreading factor and the code
  -- rate that the backend computes with are those that the PHY runs for it. The condition is that
  -- the firmware gives a preset of the table its numbers, with the configured code rate where that
  -- is 4/5 to 4/8, except for VERY_LONG_SLOW, of which nothing is asked.
  pub reconfigure-Agrees :
      (s : Settings)
      → let out = reconfigure modem_of slot_time_of s in Agrees out.0.preset out.1.modem
  unfolding reconfigure interface_reconfigure
  reconfigure-Agrees s =
      push_modem_to_phy_lem
        (interface_reconfigure modem_of slot_time_of (clear_override_frequency s)) refl
