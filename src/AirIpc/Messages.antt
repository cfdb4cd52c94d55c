-- ===== src/AirIpc/Messages.antt =====
-- include/quadrf/air_ipc.hpp: the messages with their encoders and decoders. `int16_t` and
-- `int32_t` fields are bit patterns. A body, which the source fills field by field, is the
-- concatenation of its fields.
use quadrf_mesh.Base.{
  ℕ, ◌-◌, ◌^◌, Option, none, some, List, [], ◌∷◌, ◌++◌, ltb, ◌==◌, if◌then◌else◌, length, drop,
  get_or, not,
}
use quadrf_mesh.Base.Words.{Span, null, bytes}
use quadrf_mesh.AirIpc.Floats.{FloatOps}
use quadrf_mesh.AirIpc.Wire.{
  tx_enqueue, rx_indicate, set_modem, tx_meta_len, rx_meta_len, write_le16, read_le16, write_le32,
  read_le32, write_le64, read_le64, air_length_is_valid, encode_frame,
}

pub record TxEnqueue : Type 0 where
  pub freq_hz : ℕ
  pub air : List ℕ

pub record SetModem : Type 0 where
  pub preset : ℕ

unfoldable pub encode_tx : TxEnqueue → Option (List ℕ)
encode_tx message =
    if not (air_length_is_valid (length message.air))
    then none
    else encode_frame tx_enqueue (bytes (write_le64 message.freq_hz ++ message.air))

unfoldable pub decode_tx : Span → Option TxEnqueue
decode_tx (null n) = none
decode_tx (bytes body) =
    if ltb (length body) tx_meta_len
    then none
    else if not (air_length_is_valid (length body - tx_meta_len))
    then none
    else some (record { freq_hz = read_le64 body; air = drop tx_meta_len body })

unfoldable pub encode_set_modem : SetModem → Option (List ℕ)
encode_set_modem message = encode_frame set_modem (bytes (message.preset ∷ []))

unfoldable pub decode_set_modem : Span → Option SetModem
decode_set_modem (null n) = none
decode_set_modem (bytes body) =
    if length body == 1 then some (record { preset = get_or body 0 0 }) else none

pub record RxIndicate (Float : Type 0) : Type 0 where
  pub snr_db : Float
  pub rssi_dbm : ℕ
  pub cfo_hz : ℕ
  pub rate_ppm : Float
  pub freq_hz : ℕ
  pub sir_db : Float
  pub lvl_dbfs : Float
  pub air : List ℕ

module _ (ops : FloatOps) where
  open ops use {Float}

  unfoldable pub snr_to_centi : Float → ℕ
  snr_to_centi snr_db =
      let scaled = ops.mul snr_db ops.hundred in
      if ops.lt ops.i16_max scaled
      then 32767
      else if ops.lt scaled ops.i16_min
      then 2 ^ 16 - 32768
      else ops.to_i16 scaled

  unfoldable pub snr_from_centi : ℕ → Float
  snr_from_centi centi = ops.mul (ops.of_i16 centi) ops.hundredth

  unfoldable pub rate_to_centi : Float → ℕ
  rate_to_centi rate_ppm =
      let scaled = ops.mul rate_ppm ops.hundred in
      if ops.lt ops.i32_max scaled
      then 2147483647
      else if ops.lt scaled ops.i32_min
      then 2 ^ 32 - 2147483648
      else ops.to_i32
          (if ops.le ops.zero_f scaled then ops.add scaled ops.half else ops.sub scaled ops.half)

  unfoldable pub rate_from_centi : ℕ → Float
  rate_from_centi centi = ops.mul (ops.of_i32 centi) ops.hundredth

  unfoldable pub encode_rx : RxIndicate Float → Option (List ℕ)
  encode_rx message =
      if not (air_length_is_valid (length message.air))
      then none
      else encode_frame rx_indicate (
          bytes (
            write_le16 (snr_to_centi message.snr_db)
            ++ (write_le16 message.rssi_dbm
                ++ (write_le32 message.cfo_hz
                    ++ (write_le32 (rate_to_centi message.rate_ppm)
                        ++ (write_le64 message.freq_hz
                            ++ (write_le16 (snr_to_centi message.sir_db)
                                ++ (write_le16 (snr_to_centi message.lvl_dbfs)
                                    ++ message.air))))))))

  unfoldable pub decode_rx : Span → Option (RxIndicate Float)
  decode_rx (null n) = none
  decode_rx (bytes body) =
      if ltb (length body) rx_meta_len
      then none
      else if not (air_length_is_valid (length body - rx_meta_len))
      then none
      else some (record {
        snr_db = snr_from_centi (read_le16 body);
        rssi_dbm = read_le16 (drop 2 body);
        cfo_hz = read_le32 (drop 4 body);
        rate_ppm = rate_from_centi (read_le32 (drop 8 body));
        freq_hz = read_le64 (drop 12 body);
        sir_db = snr_from_centi (read_le16 (drop 20 body));
        lvl_dbfs = snr_from_centi (read_le16 (drop 22 body));
        air = drop rx_meta_len body;
      })
