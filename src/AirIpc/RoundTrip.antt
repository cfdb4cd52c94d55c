-- ===== src/AirIpc/RoundTrip.antt =====
-- The Air-IPC messages through encoder, deframer and decoder, and the lengths they accept.
use quadrf_mesh.Base.{
  ℕ, ◌+◌, ◌^◌, ◌≤◌, ◌<◌, ◌≡◌, refl, arith, List, [], ◌∷◌, ◌++◌, none, some, length, ◌↔◌, ◌⊎◌, drop,
}
use quadrf_mesh.Base.Words.{u64, bytes}
use quadrf_mesh.AirIpc.Floats.{FloatOps}
use quadrf_mesh.AirIpc.Wire.{
  tx_enqueue, rx_indicate, set_modem, encode_frame, air_length_is_valid, write_le16, write_le32,
  write_le64,
}
use quadrf_mesh.AirIpc.Messages.{
  TxEnqueue, SetModem, RxIndicate, encode_tx, decode_tx, encode_set_modem, decode_set_modem,
  encode_rx, decode_rx, snr_to_centi, snr_from_centi, rate_to_centi, rate_from_centi,
}
use quadrf_mesh.AirIpc.Endian.{read_le16-write_le16, read_le32-write_le32, read_le64-write_le64}
use quadrf_mesh.AirIpc.Deframer.{Frame, feed}
use quadrf_mesh.AirIpc.Framing.{header, encode_frame_legal, scanning, emit, feed_loop-frame}

-- The call of `feed` appends this one frame, and leaves the object scanning.
abbrev pub Delivers : ℕ → List ℕ → List ℕ → ℕ → ℕ → ℕ → List Frame → Type 0
Delivers type body wire t ok rejected output =
    feed (scanning t ok rejected) (bytes wire) output ≡ record {
      deframer = scanning type (u64 (ok + 1)) rejected;
      output = emit type body output;
      produced = 1;
    }

delivered :
    (type : ℕ) (body wire : List ℕ) (t ok rejected : ℕ) (output : List Frame)
    → type < 4
    → 0 < type
    → encode_frame type (bytes body) ≡ some wire
    → Delivers type body wire t ok rejected output
unfolding feed
delivered type body wire t ok rejected output lo hi e =
    feed_loop-frame type body wire t ok rejected 0 output (ground arith) e

-- The decoder reads a message from the fields that the encoder writes.
pub decode_tx_written :
    (m : TxEnqueue)
    → 16 ≤ length m.air
    → length m.air ≤ 255
    → m.freq_hz < 2 ^ 64
    → decode_tx (bytes (write_le64 m.freq_hz ++ m.air)) ≡ some m
unfolding decode_tx air_length_is_valid
decode_tx_written m lo hi freq =
    let body = write_le64 m.freq_hz ++ m.air in
    let size : length body ≡ 8 + length m.air = unfold write_le64 in omega arith in
    let rest : drop 8 body ≡ m.air = unfold write_le64 in refl in
    ground (arith, read_le64-write_le64 m.freq_hz m.air freq, rest)

-- A TxEnqueue whose air frame has 16 to 255 bytes, with a frequency below 2^64, is encoded, a scanning
-- deframer delivers its body in one TxEnqueue frame, and the decoder reads the same message from that
-- body.
pub decode_tx-encode_tx :
    (m : TxEnqueue) (t ok rejected : ℕ) (output : List Frame)
    → 16 ≤ length m.air
    → length m.air ≤ 255
    → m.freq_hz < 2 ^ 64
    → (body : List ℕ) × (wire : List ℕ) × (encode_tx m ≡ some wire)
      × Delivers tx_enqueue body wire t ok rejected output
      × (decode_tx (bytes body) ≡ some m)
unfolding encode_tx air_length_is_valid
decode_tx-encode_tx m t ok rejected output lo hi freq =
    let body = write_le64 m.freq_hz ++ m.air in
    let size : length body ≡ 8 + length m.air = unfold write_le64 in omega arith in
    let framed = encode_frame_legal tx_enqueue body (omega arith) (omega arith) (omega arith) in
    (
      body,
      header tx_enqueue (length body) ++ body,
      ground (arith, framed),
      delivered tx_enqueue body _ t ok rejected output (omega arith) (omega arith) framed,
      decode_tx_written m lo hi freq,
    )

-- A SetModem is encoded, delivered in one SetModem frame, and decoded to the same message.
pub decode_set_modem-encode_set_modem :
    (m : SetModem) (t ok rejected : ℕ) (output : List Frame)
    → (wire : List ℕ) × (encode_set_modem m ≡ some wire)
      × Delivers set_modem (m.preset ∷ []) wire t ok rejected output
      × (decode_set_modem (bytes (m.preset ∷ [])) ≡ some m)
unfolding encode_set_modem decode_set_modem
decode_set_modem-encode_set_modem m t ok rejected output =
    let body : List ℕ = m.preset ∷ [] in
    let framed = encode_frame_legal set_modem body (omega arith) (omega arith) (omega arith) in
    (
      header set_modem 1 ++ body,
      framed,
      delivered set_modem body _ t ok rejected output (omega arith) (omega arith) framed,
      refl,
    )

-- `encode_tx` fails exactly on an air frame shorter than 16 or longer than 255 bytes.
pub encode_tx_rejects :
    (m : TxEnqueue) → (encode_tx m ≡ none) ↔ ((length m.air < 16) ⊎ (255 < length m.air))
unfolding encode_tx encode_frame air_length_is_valid write_le64
encode_tx_rejects m = ground arith

-- `decode_tx` fails exactly on a body shorter than 24 or longer than 263 bytes.
pub decode_tx_rejects :
    (body : List ℕ) → (decode_tx (bytes body) ≡ none) ↔ ((length body < 24) ⊎ (263 < length body))
unfolding decode_tx air_length_is_valid
decode_tx_rejects body = ground arith

module _ (ops : FloatOps) where
  open ops use {Float}

  -- The message as the receiver sees it: the float fields in hundredths.
  abbrev pub in_centi : RxIndicate Float → RxIndicate Float
  in_centi m = record m {
    snr_db = snr_from_centi ops (snr_to_centi ops m.snr_db);
    rate_ppm = rate_from_centi ops (rate_to_centi ops m.rate_ppm);
    sir_db = snr_from_centi ops (snr_to_centi ops m.sir_db);
    lvl_dbfs = snr_from_centi ops (snr_to_centi ops m.lvl_dbfs);
  }

  snr_to_centi-lt : (x : Float) → snr_to_centi ops x < 2 ^ 16
  unfolding snr_to_centi
  snr_to_centi-lt x = ground (arith, ops.to_i16-lt (ops.mul x ops.hundred))

  rate_to_centi-lt : (x : Float) → rate_to_centi ops x < 2 ^ 32
  unfolding rate_to_centi
  rate_to_centi-lt x =
      let y = ops.mul x ops.hundred in
      ground (arith, ops.to_i32-lt (ops.add y ops.half), ops.to_i32-lt (ops.sub y ops.half))

  -- The fields of an RxIndicate as the encoder writes them.
  abbrev pub rx_body : RxIndicate Float → List ℕ
  rx_body m =
      write_le16 (snr_to_centi ops m.snr_db)
      ++ (write_le16 m.rssi_dbm
          ++ (write_le32 m.cfo_hz
              ++ (write_le32 (rate_to_centi ops m.rate_ppm)
                  ++ (write_le64 m.freq_hz
                      ++ (write_le16 (snr_to_centi ops m.sir_db)
                          ++ (write_le16 (snr_to_centi ops m.lvl_dbfs) ++ m.air))))))

  length-rx_body : (m : RxIndicate Float) → length (rx_body m) ≡ 24 + length m.air
  length-rx_body m = unfold write_le16 write_le32 write_le64 in omega arith

  pub encode_rx_written :
      (m : RxIndicate Float)
      → 16 ≤ length m.air
      → length m.air ≤ 255
      → (encode_rx ops m ≡ some (header rx_indicate (length (rx_body m)) ++ rx_body m))
        × (encode_frame rx_indicate (bytes (rx_body m))
            ≡ some (header rx_indicate (length (rx_body m)) ++ rx_body m))
  unfolding encode_rx air_length_is_valid
  encode_rx_written m lo hi =
      let size = length-rx_body m in
      let framed =
        encode_frame_legal rx_indicate (rx_body m) (omega arith) (omega (arith, size))
          (omega (arith, size)) in
      (ground (arith, framed), framed)

  -- The decoder reads a message from these fields.
  pub decode_rx_written :
      (m : RxIndicate Float)
      → 16 ≤ length m.air
      → length m.air ≤ 255
      → m.rssi_dbm < 2 ^ 16
      → m.cfo_hz < 2 ^ 32
      → m.freq_hz < 2 ^ 64
      → decode_rx ops (bytes (rx_body m)) ≡ some (in_centi m)
  unfolding decode_rx air_length_is_valid
  decode_rx_written m lo hi rssi cfo freq =
      let snr = write_le16 (snr_to_centi ops m.snr_db) in
      let rate = write_le32 (rate_to_centi ops m.rate_ppm) in
      let sir = write_le16 (snr_to_centi ops m.sir_db) in
      let lvl = write_le16 (snr_to_centi ops m.lvl_dbfs) in
      let after_sir = lvl ++ m.air in
      let after_freq = sir ++ after_sir in
      let after_rate = write_le64 m.freq_hz ++ after_freq in
      let after_cfo = rate ++ after_rate in
      let after_rssi = write_le32 m.cfo_hz ++ after_cfo in
      let after_snr = write_le16 m.rssi_dbm ++ after_rssi in
      let body = rx_body m in
      let size = length-rx_body m in
      let d2 : drop 2 body ≡ after_snr = unfold write_le16 in refl in
      let d4 : drop 4 body ≡ after_rssi = unfold write_le16 in refl in
      let d8 : drop 8 body ≡ after_cfo = unfold write_le16 write_le32 in refl in
      let d12 : drop 12 body ≡ after_rate = unfold write_le16 write_le32 in refl in
      let d20 : drop 20 body ≡ after_freq = unfold write_le16 write_le32 write_le64 in refl in
      let d22 : drop 22 body ≡ after_sir = unfold write_le16 write_le32 write_le64 in refl in
      let d24 : drop 24 body ≡ m.air = unfold write_le16 write_le32 write_le64 in refl in
      ground (
        arith,
        read_le16-write_le16 (snr_to_centi ops m.snr_db) after_snr (snr_to_centi-lt m.snr_db),
        read_le16-write_le16 m.rssi_dbm after_rssi rssi,
        read_le32-write_le32 m.cfo_hz after_cfo cfo,
        read_le32-write_le32 (rate_to_centi ops m.rate_ppm) after_rate
            (rate_to_centi-lt m.rate_ppm),
        read_le64-write_le64 m.freq_hz after_freq freq,
        read_le16-write_le16 (snr_to_centi ops m.sir_db) after_sir (snr_to_centi-lt m.sir_db),
        read_le16-write_le16 (snr_to_centi ops m.lvl_dbfs) m.air (snr_to_centi-lt m.lvl_dbfs),
      )

  -- An RxIndicate with an air frame of 16 to 255 bytes arrives with every integer field and the air
  -- frame unchanged, and its float fields rounded to hundredths.
  pub decode_rx-encode_rx :
      (m : RxIndicate Float) (t ok rejected : ℕ) (output : List Frame)
      → 16 ≤ length m.air
      → length m.air ≤ 255
      → m.rssi_dbm < 2 ^ 16
      → m.cfo_hz < 2 ^ 32
      → m.freq_hz < 2 ^ 64
      → (body : List ℕ) × (wire : List ℕ) × (encode_rx ops m ≡ some wire)
        × Delivers rx_indicate body wire t ok rejected output
        × (decode_rx ops (bytes body) ≡ some (in_centi m))
  decode_rx-encode_rx m t ok rejected output lo hi rssi cfo freq =
      let (sent, framed) = encode_rx_written m lo hi in
      (
        rx_body m,
        header rx_indicate (length (rx_body m)) ++ rx_body m,
        sent,
        delivered rx_indicate (rx_body m) _ t ok rejected output (omega arith) (omega arith) framed,
        decode_rx_written m lo hi rssi cfo freq,
      )
