-- ===== src/Backend/Metrics.antt =====
-- integrations/meshtastic/backend/QuadRFRadio.cpp: the measurements of the last packets.
use quadrf_mesh.Base.{
  ℕ, ◌-◌, ◌≤◌, ◌≡◌, refl, ap, ◌∙◌, arith, inl, inr, true, false, not, ◌&&◌, some, List, [], ◌∷◌,
  ◌++◌, ◌==◌, ltb, length, length-append, Bool-cases,
}
use quadrf_mesh.Backend.Radio.{Firmware, RxFrame, Radio}
use quadrf_mesh.Backend.Transmit.{emit, millis}
use quadrf_mesh.Backend.Receive.{
  is_own, contains, push_metrics, find_metrics, metrics_of, accept_frame, receive_frame,
  get_rx_metrics,
}
use quadrf_mesh.Backend.Deliveries.{is_wanted}
use quadrf_mesh.Backend.Greeting.{send_all-Leaves}

module _ {A : Type 0} where
  find_metrics_last :
      (xs : List (ℕ × A)) (id : ℕ) (m : A) → find_metrics (xs ++ ((id, m) ∷ [])) id ≡ some m
  unfolding find_metrics
  find_metrics_last [] id m = let same : (id == id) ≡ true = ground arith in rw same refl
  find_metrics_last (x ∷ xs) id m = rw (find_metrics_last xs id m) refl

  find_metrics-push_metrics :
      (xs : List (ℕ × A)) (id : ℕ) (m : A) → find_metrics (push_metrics xs (id, m)) id ≡ some m
  unfolding push_metrics
  find_metrics-push_metrics [] id m = find_metrics_last [] id m
  find_metrics-push_metrics (x ∷ xs) id m =
      elim (Bool-cases (ltb 64 (length (x ∷ (xs ++ ((id, m) ∷ [])))))) [
        | inl full ↦ rw full (find_metrics_last xs id m)
        | inr room ↦ rw room (find_metrics_last (x ∷ xs) id m)
      ]

  -- The newest measurements are kept, at most 64.
  length-push_metrics : (xs : List A) (x : A) → length xs ≤ 64 → length (push_metrics xs x) ≤ 64
  unfolding push_metrics
  length-push_metrics [] x h = omega arith
  length-push_metrics (y ∷ xs) x h = elim (Bool-cases (ltb 64 (length (y ∷ (xs ++ (x ∷ [])))))) [
    | inl full ↦ rw full (omega (arith, length-append xs (x ∷ [])))
    | inr room ↦ rw room (ground (arith, room))
  ]

module _ (fw : Firmware) {Float : Type 0} where
  accept_frame-metrics :
      (rx : RxFrame Float) (s : Radio fw Float)
      → let id = (fw.buffer_header rx.air).id in
        (accept_frame fw rx s).recent_metrics
        ≡ push_metrics s.recent_metrics (id, metrics_of fw rx (millis fw s).0)
  unfolding accept_frame emit
  accept_frame-metrics rx s =
      elim (Bool-cases
        (not (contains s.greeted_peers (fw.buffer_header rx.air).from) && s.has_node_info)) [
          | inl greet ↦ rw greet (send_all-Leaves fw _ _).same_metrics
          | inr quiet ↦ rw quiet refl
        ]

  wanted_frame :
      (rx : RxFrame Float) (s : Radio fw Float)
      → is_wanted fw s.node_num rx ≡ true
      → receive_frame fw rx s ≡ accept_frame fw rx s
  unfolding is_wanted receive_frame
  wanted_frame rx s ok =
      let n = length rx.air in
      let from = (fw.buffer_header rx.air).from in
      let long_enough : ltb n fw.header_size ≡ false = ground (arith, ok) in
      let fits : ltb fw.buffer_payload (n - fw.header_size) ≡ false = ground (arith, ok) in
      let named : (from == 0) ≡ false = ground (arith, ok) in
      let foreign : is_own s.node_num from ≡ false = ground (arith, ok) in
      rw (long_enough, fits, named, foreign) refl

  -- A frame that is delivered can be asked for by its packet id at once: the answer is the
  -- measurements of that frame, each in its own field, and the time, also where an older packet had the same id. No more than 64
  -- entries are kept, if no more than 64 were there.
  pub get_rx_metrics-receive_frame :
      (rx : RxFrame Float) (s : Radio fw Float)
      → is_wanted fw s.node_num rx ≡ true
      → length s.recent_metrics ≤ 64
      → let t = receive_frame fw rx s in
        (get_rx_metrics fw t (fw.buffer_header rx.air).id
          ≡ some (record {
            snr_db = rx.snr_db;
            rssi_dbm = rx.rssi_dbm;
            cfo_hz = rx.cfo_hz;
            rate_ppm = rx.rate_ppm;
            sir_db = rx.sir_db;
            lvl_dbfs = rx.lvl_dbfs;
            timestamp_ms = (millis fw s).0;
          }))
        × (length t.recent_metrics ≤ 64)
  unfolding get_rx_metrics metrics_of
  get_rx_metrics-receive_frame rx s ok bound =
      let id = (fw.buffer_header rx.air).id in
      let m = metrics_of fw rx (millis fw s).0 in
      let e =
        ap (λ (t : Radio fw Float). t.recent_metrics) (wanted_frame rx s ok)
        ∙ accept_frame-metrics rx s in
      (
        ap (λ xs. find_metrics xs id) e ∙ find_metrics-push_metrics s.recent_metrics id m,
        omega (arith, ap length e, length-push_metrics s.recent_metrics (id, m) bound),
      )
