-- ===== src/Lora/PresetRoundTrip.antt =====
-- include/phy/lora/presets.hpp: names and ids of the presets, and frames at each of them.
use quadrf_mesh.Base.{
  ℕ, ◌≤◌, ◌<◌, ◌≡◌, refl, ap, ap₂, ◌∙◌, arith, ◌↔◌, Bool, true, false, ◌&&◌, some, List, [], ◌∷◌,
  All, leb, if◌then◌else◌, length,
}
use quadrf_mesh.Base.Words.{IsBytes}
use quadrf_mesh.Lora.Frame.{encode_frame, decode_frame, frame_symbol_count}
use quadrf_mesh.Lora.BlockRoundTrip.{InRange}
use quadrf_mesh.Lora.PayloadRoundTrip.{arrived}
use quadrf_mesh.Lora.FrameRoundTrip.{decode_frame-encode_frame}
use quadrf_mesh.Lora.Presets.{
  MeshtasticPreset, short_turbo, short_fast, short_slow, medium_fast, medium_slow, long_fast,
  long_moderate, long_slow, very_long_slow, long_turbo, preset_id, MeshtasticPresetInfo,
  meshtastic_preset_infos, find_info, meshtastic_preset_info, preset_key, same_key, find_key,
  parse_meshtastic_preset, meshtastic_params,
}

-- A test of every preset.
abbrev pub every : (MeshtasticPreset → Bool) → Bool
every test =
    test short_turbo
    && test short_fast
    && test short_slow
    && test medium_fast
    && test medium_slow
    && test long_fast
    && test long_moderate
    && test long_slow
    && test very_long_slow
    && test long_turbo

pub every_sound :
    (test : MeshtasticPreset → Bool)
    → every test ≡ true
    → (preset : MeshtasticPreset) → test preset ≡ true
every_sound test h short_turbo = ground arith
every_sound test h short_fast = ground arith
every_sound test h short_slow = ground arith
every_sound test h medium_fast = ground arith
every_sound test h medium_slow = ground arith
every_sound test h long_fast = ground arith
every_sound test h long_moderate = ground arith
every_sound test h long_slow = ground arith
every_sound test h very_long_slow = ground arith
every_sound test h long_turbo = ground arith

within : MeshtasticPreset → Bool
within preset =
    let p = meshtastic_params preset in
    leb 7 p.spreading_factor && leb p.spreading_factor 12 && leb 1 p.cr && leb p.cr 4

all_within : every within ≡ true
unfolding within meshtastic_params meshtastic_preset_info find_info meshtastic_preset_infos
    preset_id
all_within = refl

pub meshtastic_params-InRange : (preset : MeshtasticPreset) → InRange (meshtastic_params preset)
unfolding within
meshtastic_params-InRange preset =
    let h = every_sound within all_within preset in
    record {
      sf_low = ground (arith, h);
      sf_high = ground (arith, h);
      cr_low = ground (arith, h);
      cr_high = ground (arith, h);
    }

-- At every preset, with the reduced blocks that it has, a frame of 1 to 255 bytes is decoded to the
-- bytes that it was encoded from, with a valid header and a CRC that agrees.
pub decode_frame-meshtastic_params :
    (preset : MeshtasticPreset) (payload : List ℕ)
    → IsBytes payload
    → 1 ≤ length payload
    → length payload < 256
    → let p = meshtastic_params preset in
      decode_frame p (encode_frame p payload)
      ≡ arrived p payload (frame_symbol_count p (length payload))
decode_frame-meshtastic_params preset payload small some_bytes fits =
    decode_frame-encode_frame (meshtastic_params preset) (meshtastic_params-InRange preset) payload
      small some_bytes fits

same_key_sound : (xs ys : List ℕ) → same_key xs ys ≡ true → xs ≡ ys
unfolding same_key
same_key_sound [] [] h = refl
same_key_sound [] (y ∷ ys) h = absurd (ground arith)
same_key_sound (x ∷ xs) [] h = absurd (ground arith)
same_key_sound (x ∷ xs) (y ∷ ys) h =
    ap₂ ◌∷◌ (ground (arith, h)) (same_key_sound xs ys (ground (arith, h)))

Consistent : MeshtasticPresetInfo → Type 0
Consistent info = info.key ≡ (meshtastic_preset_info info.preset).key

all_Consistent : All Consistent meshtastic_preset_infos
unfolding meshtastic_preset_infos Consistent meshtastic_preset_info find_info preset_id
all_Consistent = (refl, (refl, (refl, (refl, (refl, (refl, (refl, (refl, (refl, (refl, tt))))))))))

find_key_sound :
    (key : List ℕ) (infos : List MeshtasticPresetInfo) (preset : MeshtasticPreset)
    → All Consistent infos
    → find_key key infos ≡ some preset
    → key ≡ (meshtastic_preset_info preset).key
unfolding find_key Consistent
find_key_sound key [] preset ok h = absurd (cc)
find_key_sound key (info ∷ infos) preset ok h =
    go (same_key key info.key) refl h (find_key_sound key infos preset ok.1)
  where
    go :
        (b : Bool)
        → same_key key info.key ≡ b
        → (if b then some info.preset else find_key key infos) ≡ some preset
        → (find_key key infos ≡ some preset → key ≡ (meshtastic_preset_info preset).key)
        → key ≡ (meshtastic_preset_info preset).key
    go true e found later =
        same_key_sound key info.key e ∙ ok.0 ∙ ap (λ t. (meshtastic_preset_info t).key) (cc)
    go false e found later = later found

find_key_complete :
    (preset : MeshtasticPreset)
    → find_key (meshtastic_preset_info preset).key meshtastic_preset_infos ≡ some preset
unfolding find_key same_key meshtastic_preset_infos meshtastic_preset_info find_info preset_id
find_key_complete short_turbo = refl
find_key_complete short_fast = refl
find_key_complete short_slow = refl
find_key_complete medium_fast = refl
find_key_complete medium_slow = refl
find_key_complete long_fast = refl
find_key_complete long_moderate = refl
find_key_complete long_slow = refl
find_key_complete very_long_slow = refl
find_key_complete long_turbo = refl

-- A name is parsed to a preset exactly when its letters, without dashes, underscores and blanks
-- and in lower case, spell that preset's key.
pub parse_meshtastic_preset_lem :
    (name : List ℕ) (preset : MeshtasticPreset)
    → (parse_meshtastic_preset name ≡ some preset)
      ↔ (preset_key name ≡ (meshtastic_preset_info preset).key)
unfolding parse_meshtastic_preset
parse_meshtastic_preset_lem name preset = (
  find_key_sound (preset_key name) meshtastic_preset_infos preset all_Consistent,
  λ e. ap (λ t. find_key t meshtastic_preset_infos) e ∙ find_key_complete preset,
)
