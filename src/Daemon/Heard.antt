-- ===== src/Daemon/Heard.antt =====
-- apps/quadrf_lora_phy.cpp: what the client reads of the frames that were received.
use mathlib.Core.Path.{subst}
use quadrf_mesh.Daemon.Queues.{is_recent_tx_echo}
use quadrf_mesh.Base.{
  not, ◌&&◌, ◌||◌, ℕ, ◌+◌, ◌≡◌, ◌⊎◌, refl, sym, ap, ap₂, ◌∙◌, arith, inl, inr, Bool, true, false,
  Option, none, some, List, [], ◌∷◌, ◌++◌, append_assoc, append-nil, length, take, drop,
  take-append-drop, if◌then◌else◌, Bool-cases,
}
use quadrf_mesh.Base.Words.{u64}
use quadrf_mesh.AirIpc.Floats.{FloatOps}
use quadrf_mesh.AirIpc.Wire.{air_length_is_valid, rx_indicate}
use quadrf_mesh.AirIpc.Messages.{RxIndicate, encode_rx}
use quadrf_mesh.AirIpc.Deframer.{Frame}
use quadrf_mesh.AirIpc.Framing.{header}
use quadrf_mesh.AirIpc.RoundTrip.{rx_body, encode_rx_written}
use quadrf_mesh.Daemon.Phy.{Phy, drop_client}
use quadrf_mesh.Daemon.Reception.{
  WriteResult, interrupted, would_block, failed, accepted, write_all, ReceivedFrame, indication,
  is_passed, send_framed, send_rx_indicate, drain_rx,
}

-- Where `writeAll` returns true, it has written everything.
write_all_lem :
    (results : List WriteResult) (left : List ℕ)
    → (write_all results left).0 ≡ true
    → (write_all results left).1 ≡ left
unfolding write_all
write_all_lem [] [] e = refl
write_all_lem [] (b ∷ left) e = absurd (ground (arith, e))
write_all_lem (r ∷ results) [] e = refl
write_all_lem (interrupted ∷ results) (b ∷ left) e = write_all_lem results (b ∷ left) e
write_all_lem (would_block ∷ results) (b ∷ left) e = write_all_lem results (b ∷ left) e
write_all_lem (failed ∷ results) (b ∷ left) e = absurd (ground (arith, e))
write_all_lem (accepted n ∷ results) (b ∷ left) e =
    ap (◌++◌ (take n (b ∷ left))) (write_all_lem results (drop n (b ∷ left)) e)
    ∙ take-append-drop n (b ∷ left)

module _ (ops : FloatOps) where
  open ops use {Float}

  abbrev pub Received : Type 0
  Received = ReceivedFrame Float × List WriteResult

  -- Received well and, but for the self-test, not an echo of what was sent last.
  unfoldable pub is_wanted : Bool → List (List ℕ) → ReceivedFrame Float → Bool
  is_wanted selftest recent_tx r =
      r.synced
      && r.decode.header.valid
      && r.decode.crc_ok
      && (selftest || not (is_recent_tx_echo r.decode.payload recent_tx))

  pub is_passed-is_wanted :
      (selftest : Bool) (recent_tx : List (List ℕ)) (r : ReceivedFrame Float)
      → is_passed ops selftest recent_tx r ≡ is_wanted selftest recent_tx r
  unfolding is_passed is_wanted
  is_passed-is_wanted selftest recent_tx r =
      same r.synced r.decode.header.valid r.decode.crc_ok selftest
        (is_recent_tx_echo r.decode.payload recent_tx)
    where
      same :
          (a b c d e : Bool)
          → (not (not a || not b || not c) && not (not d && e)) ≡ (a && b && c && (d || not e))
      same false b c d e = refl
      same true false c d e = refl
      same true true false d e = refl
      same true true true true e = refl
      same true true true false e = refl

  -- What a client is to hear of a frame: the payload byte for byte, each measurement in its own
  -- field, no signal strength, and the frequency that the daemon listens on.
  unfoldable pub heard_message : ℕ → ReceivedFrame Float → RxIndicate Float
  heard_message center_hz r = record {
    air = r.decode.payload;
    freq_hz = center_hz;
    snr_db = r.snr_db;
    sir_db = r.sir_db;
    lvl_dbfs = r.lvl_dbfs;
    cfo_hz = r.cfo_hz;
    rate_ppm = r.rate_ppm;
    rssi_dbm = 0;
  }

  -- The indications that the loop comes to, and of these the ones with a legal air frame.
  unfoldable pub indications : Bool → List (List ℕ) → ℕ → List Received → List (RxIndicate Float)
  indications selftest recent_tx center_hz [] = []
  indications selftest recent_tx center_hz ((r, results) ∷ received) =
      let rest = indications selftest recent_tx center_hz received in
      if is_wanted selftest recent_tx r then heard_message center_hz r ∷ rest else rest

  unfoldable pub legal : List (RxIndicate Float) → List (RxIndicate Float)
  legal [] = []
  legal (m ∷ messages) =
      let rest = legal messages in if air_length_is_valid (length m.air) then m ∷ rest else rest

  -- The frames of some messages on the wire.
  abbrev pub frame_of : RxIndicate Float → Frame
  frame_of m = record { type = rx_indicate; body = rx_body ops m }

  unfoldable pub on_the_wire : List (RxIndicate Float) → List ℕ
  on_the_wire [] = []
  on_the_wire (m ∷ messages) =
      (header rx_indicate (length (rx_body ops m)) ++ rx_body ops m) ++ on_the_wire messages

settled :
    {S Ddc Rx : Type 0} (whole : Bool) (out wire : List ℕ) (s : Phy S Ddc Rx) (fd : ℕ)
    → (whole ≡ true → out ≡ wire)
    → let t = if whole then record s { written = s.written ++ out } else drop_client s in
      t.client ≡ some fd → (s.client ≡ some fd) × (t.written ≡ s.written ++ wire)
unfolding drop_client
settled true out wire s fd h there = (there, ap (◌++◌ s.written) (h refl))
settled false out wire s fd h there = absurd (cc)

-- A client that is still there has been written the whole frame.
send_framed_lem :
    {S Ddc Rx : Type 0} (client : Option ℕ) (sent : Option (List ℕ)) (wire : List ℕ)
    (results : List WriteResult) (s : Phy S Ddc Rx) (fd : ℕ)
    → s.client ≡ client
    → ((sent ≡ some wire) ⊎ ((sent ≡ none) × (wire ≡ [])))
    → let t = send_framed client sent results s in
      t.client ≡ some fd → (s.client ≡ some fd) × (t.written ≡ s.written ++ wire)
unfolding send_framed drop_client
send_framed_lem none sent wire results s fd e coded there = absurd (cc)
send_framed_lem (some k) none wire results s fd e (inl some_sent) there = absurd (cc)
send_framed_lem (some k) none wire results s fd e (inr (h, nothing)) there =
    (there, sym (ap (◌++◌ s.written) nothing ∙ append-nil s.written))
send_framed_lem (some k) (some framed_bytes) wire results s fd e (inr (h, nothing)) there =
    absurd (cc)
send_framed_lem (some k) (some framed_bytes) wire results s fd e (inl h) there =
    let same : framed_bytes ≡ wire = cc in
    let r = write_all results framed_bytes in
    settled r.0 r.1 wire s fd (λ whole. write_all_lem results framed_bytes whole ∙ same) there

-- What a call of `sendRxIndicate` does not change, and what it counts.
send_framed-same :
    {S Ddc Rx : Type 0} (client : Option ℕ) (sent : Option (List ℕ)) (results : List WriteResult)
    (s : Phy S Ddc Rx)
    → let t = send_framed client sent results s in
      (t.center_hz ≡ s.center_hz) × (t.sender ≡ s.sender) × (t.rx_delivered ≡ s.rx_delivered)
unfolding send_framed drop_client
send_framed-same none sent results s = (refl, refl, refl)
send_framed-same (some k) none results s = (refl, refl, refl)
send_framed-same (some k) (some wire) results s =
    ends (write_all results wire).0 (write_all results wire).1
  where
    ends :
        (whole : Bool) (out : List ℕ)
        → let t = if whole then record s { written = s.written ++ out } else drop_client s in
          (t.center_hz ≡ s.center_hz) × (t.sender ≡ s.sender) × (t.rx_delivered ≡ s.rx_delivered)
    ends true out = (refl, refl, refl)
    ends false out = (refl, refl, refl)

module _ (ops : FloatOps) where
  open ops use {Float}

  -- The encoder accepts exactly the legal messages.
  encoded :
      (m : RxIndicate Float)
      → (encode_rx ops m ≡ some (on_the_wire ops (legal ops (m ∷ []))))
        ⊎ ((encode_rx ops m ≡ none) × (on_the_wire ops (legal ops (m ∷ [])) ≡ []))
  unfolding legal on_the_wire encode_rx air_length_is_valid
  encoded m = elim (Bool-cases (air_length_is_valid (length m.air))) [
    | inl good ↦
        let wire = header rx_indicate (length (rx_body ops m)) ++ rx_body ops m in
        let sent = (encode_rx_written ops m (ground (arith, good)) (ground (arith, good))).0 in
        let whole : on_the_wire ops (legal ops (m ∷ [])) ≡ wire =
          rw (legal, good) (append-nil wire) in
        inl (sent ∙ ap some (sym whole))
    | inr bad ↦ inr (rw (encode_rx, bad) refl, rw (legal, bad) refl)
  ]

  on_the_wire-legal_cons :
      (m : RxIndicate Float) (messages : List (RxIndicate Float))
      → on_the_wire ops (legal ops (m ∷ messages))
        ≡ on_the_wire ops (legal ops (m ∷ [])) ++ on_the_wire ops (legal ops messages)
  unfolding legal on_the_wire
  on_the_wire-legal_cons m messages = elim (Bool-cases (air_length_is_valid (length m.air))) [
    | inl good ↦
        let wire = header rx_indicate (length (rx_body ops m)) ++ rx_body ops m in
        rw good (ap (λ w. w ++ on_the_wire ops (legal ops messages)) (sym (append-nil wire)))
    | inr bad ↦ rw bad refl
  ]

  -- One frame that is let through.
  send_rx_indicate_lem :
      {S Ddc Rx : Type 0} (results : List WriteResult) (r : ReceivedFrame Float) (s : Phy S Ddc Rx)
      (fd : ℕ)
      → let t = send_rx_indicate ops results r s in
        let m = indication ops s.center_hz r in
        (t.client ≡ some fd
          → (s.client ≡ some fd) × (t.written ≡ s.written ++ on_the_wire ops (legal ops (m ∷ []))))
        × (t.center_hz ≡ s.center_hz)
        × (t.sender ≡ s.sender)
        × (t.rx_delivered ≡ u64 (s.rx_delivered + 1))
  unfolding send_rx_indicate
  send_rx_indicate_lem {S} {Ddc} {Rx} results r s fd =
      let counted : Phy S Ddc Rx = record s { rx_delivered = u64 (s.rx_delivered + 1) } in
      let m = indication ops s.center_hz r in
      let wire = on_the_wire ops (legal ops (m ∷ [])) in
      let same = send_framed-same s.client (encode_rx ops m) results counted in
      (
        send_framed_lem s.client (encode_rx ops m) wire results counted fd refl (encoded m),
        same.0,
        same.1,
        same.2,
      )

  -- Between two states some messages were delivered, to a client that is there afterwards.
  abbrev pub Delivered :
      {S Ddc Rx : Type 0} → Phy S Ddc Rx → Phy S Ddc Rx → List (RxIndicate Float) → ℕ → Type 0
  Delivered t s messages fd =
      (t.client ≡ some fd
        → (s.client ≡ some fd) × (t.written ≡ s.written ++ on_the_wire ops (legal ops messages)))
      × (u64 t.rx_delivered ≡ u64 (s.rx_delivered + length messages))

  one_round :
      {S Ddc Rx : Type 0} (selftest passed : Bool) (r : ReceivedFrame Float)
      (results : List WriteResult) (received : List (Received ops)) (t s : Phy S Ddc Rx) (fd : ℕ)
      → let u = if passed then send_rx_indicate ops results r s else s in
        let rest = indications ops selftest s.sender.recent_tx s.center_hz received in
        Delivered t u (indications ops selftest u.sender.recent_tx u.center_hz received) fd
        → Delivered t s (if passed then indication ops s.center_hz r ∷ rest else rest) fd
  one_round selftest false r results received t s fd h = h
  one_round selftest true r results received t s fd (later, counts) =
      let m = indication ops s.center_hz r in
      let rest = indications ops selftest s.sender.recent_tx s.center_hz received in
      let u = send_rx_indicate ops results r s in
      let (sent, center, sender, count) = send_rx_indicate_lem results r s fd in
      let same : indications ops selftest u.sender.recent_tx u.center_hz received ≡ rest =
        ap₂ (λ p c. indications ops selftest p.recent_tx c received) sender center in
      (
        (λ there.
            let (kept, wrote) = later there in
            let (before, first) = sent kept in
            (
              before,
              wrote
                  ∙ ap₂ (λ w q. w ++ on_the_wire ops (legal ops q)) first same
                  ∙ append_assoc s.written (on_the_wire ops (legal ops (m ∷ [])))
                      (on_the_wire ops (legal ops rest))
                  ∙ ap (◌++◌ s.written) (sym (on_the_wire-legal_cons m rest)),
            )),
        omega (arith, counts, count, ap length same),
      )

  pub drain_rx_lem :
      {S Ddc Rx : Type 0} (selftest : Bool) (received : List (Received ops)) (s : Phy S Ddc Rx)
      (fd : ℕ)
      → Delivered
          (drain_rx ops selftest received s)
          s
          (indications ops selftest s.sender.recent_tx s.center_hz received)
          fd
  unfolding drain_rx indications legal on_the_wire heard_message indication
  drain_rx_lem selftest [] s fd = ((λ there. (there, sym (append-nil s.written))), omega arith)
  drain_rx_lem {S} {Ddc} {Rx} selftest ((r, results) ∷ received) s fd =
      let after : Bool → Phy S Ddc Rx =
        λ passed. if passed then send_rx_indicate ops results r s else s in
      let wanted = is_wanted ops selftest s.sender.recent_tx r in
      let messages =
        indications ops selftest s.sender.recent_tx s.center_hz ((r, results) ∷ received) in
      subst (λ passed. Delivered (drain_rx ops selftest received (after passed)) s messages fd)
        (sym (is_passed-is_wanted ops selftest s.sender.recent_tx r))
        (one_round selftest wanted r results received
          (drain_rx ops selftest received (after wanted)) s fd
          (drain_rx_lem selftest received (after wanted) fd))
