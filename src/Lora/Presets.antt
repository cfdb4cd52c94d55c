-- ===== src/Lora/Presets.antt =====
-- include/phy/lora/presets.hpp: the modem presets. A bandwidth is a whole number of Hz; of
-- `LoraParams` the fields of the integer coding; `std::tolower` is that of the "C" locale.
use quadrf_mesh.Base.{
  ℕ, ◌+◌, ◌*◌, Bool, true, false, ◌&&◌, ◌||◌, Option, none, some, List, [], ◌∷◌, ◌==◌, leb,
  if◌then◌else◌, length, get_or,
}
use quadrf_mesh.Base.Words.{shl}
use quadrf_mesh.Lora.Frame.{LoraParams}

pub data MeshtasticPreset : Type 0 where
  short_turbo short_fast short_slow medium_fast medium_slow : MeshtasticPreset
  long_fast long_moderate long_slow very_long_slow long_turbo : MeshtasticPreset

unfoldable pub preset_id : MeshtasticPreset → ℕ
preset_id short_turbo = 0
preset_id short_fast = 1
preset_id short_slow = 2
preset_id medium_fast = 3
preset_id medium_slow = 4
preset_id long_fast = 5
preset_id long_moderate = 6
preset_id long_slow = 7
preset_id very_long_slow = 8
preset_id long_turbo = 9

abbrev pub meshtastic_presets : List MeshtasticPreset
meshtastic_presets =
    short_turbo ∷ short_fast ∷ short_slow ∷ medium_fast ∷ medium_slow ∷ long_fast ∷ long_moderate
    ∷ long_slow ∷ very_long_slow ∷ long_turbo ∷ []

pub record MeshtasticPresetInfo : Type 0 where
  pub preset : MeshtasticPreset
  pub key : List ℕ
  pub modem_name : List ℕ
  pub bandwidth_hz : ℕ
  pub sf : ℕ
  pub cr : ℕ

abbrev row : MeshtasticPreset → List ℕ → List ℕ → ℕ → ℕ → ℕ → MeshtasticPresetInfo
row preset key modem_name bandwidth_hz sf cr = record {
  preset = preset;
  key = key;
  modem_name = modem_name;
  bandwidth_hz = bandwidth_hz;
  sf = sf;
  cr = cr;
}

unfoldable pub meshtastic_preset_infos : List MeshtasticPresetInfo
meshtastic_preset_infos =
    row short_turbo (b's' ∷ b'h' ∷ b'o' ∷ b'r' ∷ b't' ∷ b't' ∷ b'u' ∷ b'r' ∷ b'b' ∷ b'o' ∷ [])
      (b'S' ∷ b'H' ∷ b'O' ∷ b'R' ∷ b'T' ∷ b'_' ∷ b'T' ∷ b'U' ∷ b'R' ∷ b'B' ∷ b'O' ∷ []) 500000 7 1
    ∷ row short_fast (b's' ∷ b'h' ∷ b'o' ∷ b'r' ∷ b't' ∷ b'f' ∷ b'a' ∷ b's' ∷ b't' ∷ [])
        (b'S' ∷ b'H' ∷ b'O' ∷ b'R' ∷ b'T' ∷ b'_' ∷ b'F' ∷ b'A' ∷ b'S' ∷ b'T' ∷ []) 250000 7 1
    ∷ row short_slow (b's' ∷ b'h' ∷ b'o' ∷ b'r' ∷ b't' ∷ b's' ∷ b'l' ∷ b'o' ∷ b'w' ∷ [])
        (b'S' ∷ b'H' ∷ b'O' ∷ b'R' ∷ b'T' ∷ b'_' ∷ b'S' ∷ b'L' ∷ b'O' ∷ b'W' ∷ []) 250000 8 1
    ∷ row medium_fast (b'm' ∷ b'e' ∷ b'd' ∷ b'i' ∷ b'u' ∷ b'm' ∷ b'f' ∷ b'a' ∷ b's' ∷ b't' ∷ [])
        (b'M' ∷ b'E' ∷ b'D' ∷ b'I' ∷ b'U' ∷ b'M' ∷ b'_' ∷ b'F' ∷ b'A' ∷ b'S' ∷ b'T' ∷ []) 250000 9 1
    ∷ row medium_slow (b'm' ∷ b'e' ∷ b'd' ∷ b'i' ∷ b'u' ∷ b'm' ∷ b's' ∷ b'l' ∷ b'o' ∷ b'w' ∷ [])
        (b'M' ∷ b'E' ∷ b'D' ∷ b'I' ∷ b'U' ∷ b'M' ∷ b'_' ∷ b'S' ∷ b'L' ∷ b'O' ∷ b'W' ∷ []) 250000 10
        1
    ∷ row long_fast (b'l' ∷ b'o' ∷ b'n' ∷ b'g' ∷ b'f' ∷ b'a' ∷ b's' ∷ b't' ∷ [])
        (b'L' ∷ b'O' ∷ b'N' ∷ b'G' ∷ b'_' ∷ b'F' ∷ b'A' ∷ b'S' ∷ b'T' ∷ []) 250000 11 1
    ∷ row long_moderate
        (b'l' ∷ b'o' ∷ b'n' ∷ b'g' ∷ b'm' ∷ b'o' ∷ b'd' ∷ b'e' ∷ b'r' ∷ b'a' ∷ b't' ∷ b'e' ∷ [])
        (b'L' ∷ b'O' ∷ b'N' ∷ b'G' ∷ b'_' ∷ b'M' ∷ b'O' ∷ b'D' ∷ b'E' ∷ b'R' ∷ b'A' ∷ b'T' ∷ b'E'
          ∷ [])
        125000 11 4
    ∷ row long_slow (b'l' ∷ b'o' ∷ b'n' ∷ b'g' ∷ b's' ∷ b'l' ∷ b'o' ∷ b'w' ∷ [])
        (b'L' ∷ b'O' ∷ b'N' ∷ b'G' ∷ b'_' ∷ b'S' ∷ b'L' ∷ b'O' ∷ b'W' ∷ []) 125000 12 4
    ∷ row very_long_slow
        (b'v' ∷ b'e' ∷ b'r' ∷ b'y' ∷ b'l' ∷ b'o' ∷ b'n' ∷ b'g' ∷ b's' ∷ b'l' ∷ b'o' ∷ b'w' ∷ [])
        (b'V' ∷ b'E' ∷ b'R' ∷ b'Y' ∷ b'_' ∷ b'L' ∷ b'O' ∷ b'N' ∷ b'G' ∷ b'_' ∷ b'S' ∷ b'L' ∷ b'O'
          ∷ b'W' ∷ [])
        62500 12 4
    ∷ row long_turbo (b'l' ∷ b'o' ∷ b'n' ∷ b'g' ∷ b't' ∷ b'u' ∷ b'r' ∷ b'b' ∷ b'o' ∷ [])
        (b'L' ∷ b'O' ∷ b'N' ∷ b'G' ∷ b'_' ∷ b'T' ∷ b'U' ∷ b'R' ∷ b'B' ∷ b'O' ∷ []) 500000 11 4
    ∷ []

-- The first row of the preset; the table's first row where there is none.
unfoldable pub find_info : MeshtasticPreset → List MeshtasticPresetInfo → MeshtasticPresetInfo
find_info preset [] =
    row short_turbo (b's' ∷ b'h' ∷ b'o' ∷ b'r' ∷ b't' ∷ b't' ∷ b'u' ∷ b'r' ∷ b'b' ∷ b'o' ∷ [])
      (b'S' ∷ b'H' ∷ b'O' ∷ b'R' ∷ b'T' ∷ b'_' ∷ b'T' ∷ b'U' ∷ b'R' ∷ b'B' ∷ b'O' ∷ []) 500000 7 1
find_info preset (info ∷ infos) =
    let rest = find_info preset infos in
    if preset_id info.preset == preset_id preset then info else rest

unfoldable pub meshtastic_preset_info : MeshtasticPreset → MeshtasticPresetInfo
meshtastic_preset_info preset = find_info preset meshtastic_preset_infos

unfoldable pub meshtastic_preset_from_id : ℕ → Option MeshtasticPreset
meshtastic_preset_from_id id =
    if leb (length meshtastic_preset_infos) id
    then none
    else some (get_or meshtastic_presets id short_turbo)

unfoldable pub tolower : ℕ → ℕ
tolower c = if leb b'A' c && leb c b'Z' then c + 32 else c

-- The key of a name: without dashes, underscores and blanks, in lower case.
unfoldable pub preset_key : List ℕ → List ℕ
preset_key [] = []
preset_key (c ∷ name) =
    let rest = preset_key name in
    if c == b'-' || c == b'_' || c == b' ' then rest else tolower c ∷ rest

unfoldable pub same_key : List ℕ → List ℕ → Bool
same_key [] [] = true
same_key (c ∷ xs) (d ∷ ys) = c == d && same_key xs ys
same_key xs ys = false

unfoldable pub find_key : List ℕ → List MeshtasticPresetInfo → Option MeshtasticPreset
find_key key [] = none
find_key key (info ∷ infos) =
    let rest = find_key key infos in if same_key key info.key then some info.preset else rest

unfoldable pub parse_meshtastic_preset : List ℕ → Option MeshtasticPreset
parse_meshtastic_preset name = find_key (preset_key name) meshtastic_preset_infos

-- The symbol of a preset with reduced blocks lasts 16.384 ms or longer.
unfoldable pub meshtastic_params : MeshtasticPreset → LoraParams
meshtastic_params preset =
    let info = meshtastic_preset_info preset in
    record {
      spreading_factor = info.sf;
      cr = info.cr;
      has_crc = true;
      ldro = leb (16384 * info.bandwidth_hz) (shl 1 info.sf * 1000000);
    }
