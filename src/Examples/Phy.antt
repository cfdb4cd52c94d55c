-- ===== src/Examples/Phy.antt =====
-- The daemon with numbers as samples, and a filter that can be built for every preset.
use quadrf_mesh.Base.{ℕ, ◌+◌, ◌<◌, ◌^◌, ◌≡◌, refl, arith, Bool, true, false, some, List, [], ◌∷◌}
use quadrf_mesh.AirIpc.Wire.{encode_frame, air_length_is_valid, write_le64, write_le_loop}
use quadrf_mesh.AirIpc.Messages.{encode_tx, encode_set_modem}
use quadrf_mesh.Lora.Presets.{
  short_turbo, parse_meshtastic_preset, preset_key, tolower, find_key, same_key,
  meshtastic_preset_infos,
}
use quadrf_mesh.Daemon.Phy.{
  Phy, Platform, preset_params, initial, start_phy, parse_preset, accept_client, tx_pull,
  client_read,
}
use quadrf_mesh.Daemon.Messages.{
  Message, use_preset, send_air, Written, message, nothing, serve_all,
}
use quadrf_mesh.Daemon.Reads.{all_bytes, behind_messages, client_reads, client_reads-serve_all}
use quadrf_mesh.Daemon.Reception.{ReceivedFrame, WriteResult, would_block, interrupted, accepted}
use quadrf_mesh.Daemon.Heard.{Received}
use quadrf_mesh.AirIpc.Deframer.{fresh}
use quadrf_mesh.Examples.AirIpc.{hundredths}
use quadrf_mesh.Daemon.Events.{Reachable, started, read, pulled, IsSound, Reachable-IsSound}

abbrev pub platform : Platform ℕ ℕ ℕ
platform = record {
  rx_only = false;
  warmup_syms = 2;
  gap_syms = 64;
  carrier = 500;
  silence = 0;
  chirp_sample = λ p id folded n. id + n;
  conj = λ x. x + 1000;
  scaled_symbols = λ syms p up. syms;
  make_ddc = λ p. some 7;
  new_receiver = λ p. 0;
}

abbrev pub turbo : List ℕ
turbo = b's' ∷ b'h' ∷ b'o' ∷ b'r' ∷ b't' ∷ b't' ∷ b'u' ∷ b'r' ∷ b'b' ∷ b'o' ∷ []

abbrev pub listening : Phy ℕ ℕ ℕ
listening = initial platform turbo 5800000000 (preset_params short_turbo 1000000) 7

listening-start_phy : start_phy platform turbo 5800000000 ≡ some listening
unfolding start_phy parse_preset parse_meshtastic_preset preset_key tolower find_key same_key
    meshtastic_preset_infos
listening-start_phy = refl

pub listening-Reachable : Reachable platform listening
listening-Reachable = started turbo 5800000000 listening listening-start_phy

pub listening_fits : listening.ipc_deframer.frames_ok < 2 ^ 64
unfolding initial fresh
listening_fits = omega arith

abbrev after : Phy ℕ ℕ ℕ
after = (tx_pull 700 (client_read platform (0x51 ∷ 0x46 ∷ 1 ∷ 3 ∷ 0 ∷ 1 ∷ 5 ∷ []) listening)).1

Reachable-IsSound_example : IsSound platform after
Reachable-IsSound_example = Reachable-IsSound platform (
    pulled 700 (client_read platform (0x51 ∷ 0x46 ∷ 1 ∷ 3 ∷ 0 ∷ 1 ∷ 5 ∷ []) listening)
      (read (0x51 ∷ 0x46 ∷ 1 ∷ 3 ∷ 0 ∷ 1 ∷ 5 ∷ []) listening listening-Reachable))

abbrev air : List ℕ
air = 1 ∷ 2 ∷ 3 ∷ 4 ∷ 5 ∷ 6 ∷ 7 ∷ 8 ∷ 9 ∷ 10 ∷ 11 ∷ 12 ∷ 13 ∷ 14 ∷ 15 ∷ 16 ∷ []

abbrev messages : List Message
messages = use_preset (record { preset = 5 }) ∷ send_air (record { freq_hz = 0; air = air }) ∷ []

-- The two messages, cut inside both.
abbrev reads : List (List ℕ)
reads =
    (0x51 ∷ 0x46 ∷ 1 ∷ [])
    ∷ (3 ∷ 0 ∷ 1 ∷ 5 ∷ 0x51 ∷ 0x46 ∷ 1 ∷ 1 ∷ 0 ∷ 24 ∷ 0 ∷ 0 ∷ 0 ∷ [])
    ∷ (0 ∷ 0 ∷ 0 ∷ 0 ∷ 0 ∷ air)
    ∷ []

abbrev set_bytes : List ℕ
set_bytes = 0x51 ∷ 0x46 ∷ 1 ∷ 3 ∷ 0 ∷ 1 ∷ 5 ∷ []

abbrev air_bytes : List ℕ
air_bytes = 0x51 ∷ 0x46 ∷ 1 ∷ 1 ∷ 0 ∷ 24 ∷ 0 ∷ 0 ∷ 0 ∷ 0 ∷ 0 ∷ 0 ∷ 0 ∷ 0 ∷ air

messages-Written : Written messages (all_bytes reads)
unfolding all_bytes encode_set_modem encode_tx encode_frame air_length_is_valid write_le64
    write_le_loop
messages-Written =
    message (use_preset (record { preset = 5 })) set_bytes (omega arith) refl
      (message (send_air (record { freq_hz = 0; air = air })) air_bytes (omega arith) refl nothing)

client_reads-serve_all_example :
    client_reads platform reads (accept_client 6 listening)
    ≡ record (serve_all platform messages (accept_client 6 listening)) {
      ipc_deframer = behind_messages messages listening.ipc_deframer;
    }
client_reads-serve_all_example =
    client_reads-serve_all platform 6 reads listening listening_fits
      (omega arith, (omega arith, (omega arith, _))) messages-Written

-- A frame that was decoded well, one with a bad CRC, and the echo of a frame sent last.
abbrev received_frame : Bool → List ℕ → ReceivedFrame ℕ
received_frame crc_ok payload = record {
  synced = true;
  decode = record {
    header = record { valid = true; payload_len = 16; cr = 1; has_crc = true };
    crc_ok = crc_ok;
    crc_expected = 9;
    crc_received = 9;
    payload = payload;
    symbols_consumed = 40;
  };
  snr_db = 725;
  cfo_hz = 13000;
  rate_ppm = 200;
  sir_db = 4000;
  lvl_dbfs = 100;
}

abbrev took_all : List WriteResult
took_all = would_block ∷ accepted 10 ∷ interrupted ∷ accepted 300 ∷ []

abbrev heard : List (Received hundredths)
heard =
    (received_frame true air, took_all)
    ∷ (received_frame false air, [])
    ∷ (received_frame true (0 ∷ air), took_all)
    ∷ []

abbrev with_client : Phy ℕ ℕ ℕ
with_client =
    accept_client 6
      (record listening { sender = record listening.sender { recent_tx = (0 ∷ air) ∷ [] } })
