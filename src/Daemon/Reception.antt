-- ===== src/Daemon/Reception.antt =====
-- apps/quadrf_lora_phy.cpp: the received frames on their way to the client. The telemetry and the log
-- are left out, and so is the session of `--legacy-pty`. The measurements of a frame are what the
-- daemon casts them to, `float` and, for the carrier offset, `int32_t` as its bit pattern.
use quadrf_mesh.Base.{
  ℕ, ◌+◌, Bool, true, false, not, ◌&&◌, ◌||◌, Option, none, some, List, [], ◌∷◌, ◌++◌, ◌==◌,
  if◌then◌else◌, length, take, drop,
}
use quadrf_mesh.Base.Words.{u64}
use quadrf_mesh.AirIpc.Floats.{FloatOps}
use quadrf_mesh.AirIpc.Messages.{RxIndicate, encode_rx}
use quadrf_mesh.Lora.Frame.{DecodeResult}
use quadrf_mesh.Daemon.Queues.{is_recent_tx_echo}
use quadrf_mesh.Daemon.Phy.{Phy, drop_client}

-- What a call of `write` returns: it was interrupted, it would have blocked, it failed, or it took
-- some of the bytes.
pub data WriteResult : Type 0 where
  interrupted would_block failed : WriteResult
  accepted : ℕ → WriteResult

-- The loop on the bytes that are left. The results end where `g_running` does; `write` takes no
-- more than it is given.
unfoldable pub write_all : List WriteResult → List ℕ → Bool × List ℕ
write_all [] left = (length left == 0, [])
write_all (r ∷ results) [] = (true, [])
write_all (interrupted ∷ results) (b ∷ left) = write_all results (b ∷ left)
write_all (would_block ∷ results) (b ∷ left) = write_all results (b ∷ left)
write_all (failed ∷ results) (b ∷ left) = (false, [])
write_all (accepted n ∷ results) (b ∷ left) =
    let rest = write_all results (drop n (b ∷ left)) in (rest.0, take n (b ∷ left) ++ rest.1)

pub record ReceivedFrame (Float : Type 0) : Type 0 where
  pub synced : Bool
  pub decode : DecodeResult
  pub snr_db : Float
  pub cfo_hz : ℕ
  pub rate_ppm : Float
  pub sir_db : Float
  pub lvl_dbfs : Float

module _ (ops : FloatOps) where
  open ops use {Float}

  unfoldable pub indication : ℕ → ReceivedFrame Float → RxIndicate Float
  indication center_hz r = record {
    snr_db = r.snr_db;
    rssi_dbm = 0;
    cfo_hz = r.cfo_hz;
    rate_ppm = r.rate_ppm;
    freq_hz = center_hz;
    sir_db = r.sir_db;
    lvl_dbfs = r.lvl_dbfs;
    air = r.decode.payload;
  }

  -- The frames that the loop lets through.
  unfoldable pub is_passed : Bool → List (List ℕ) → ReceivedFrame Float → Bool
  is_passed selftest recent_tx r =
      let drops = not r.synced || not r.decode.header.valid || not r.decode.crc_ok in
      let echo = not selftest && is_recent_tx_echo r.decode.payload recent_tx in
      not drops && not echo

module _ {S Ddc Rx : Type 0} where
  -- To the client that there is, the frame that could be encoded.
  unfoldable pub send_framed :
      Option ℕ → Option (List ℕ) → List WriteResult → Phy S Ddc Rx → Phy S Ddc Rx
  send_framed none framed results s = s
  send_framed (some fd) none results s = s
  send_framed (some fd) (some framed) results s =
      let r = write_all results framed in
      if r.0 then record s { written = s.written ++ r.1 } else drop_client s

module _ {S Ddc Rx : Type 0} (ops : FloatOps) where
  open ops use {Float}

  unfoldable pub send_rx_indicate :
      List WriteResult → ReceivedFrame Float → Phy S Ddc Rx → Phy S Ddc Rx
  send_rx_indicate results r s =
      let counted = record s { rx_delivered = u64 (s.rx_delivered + 1) } in
      send_framed s.client (encode_rx ops (indication ops s.center_hz r)) results counted

  -- The frames that the receiver has, each with the results of the writes for it.
  unfoldable pub drain_rx :
      Bool → List (ReceivedFrame Float × List WriteResult) → Phy S Ddc Rx → Phy S Ddc Rx
  drain_rx selftest [] s = s
  drain_rx selftest ((r, results) ∷ received) s =
      drain_rx selftest received
        (if is_passed ops selftest s.sender.recent_tx r then send_rx_indicate results r s else s)
