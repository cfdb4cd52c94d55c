-- ===== src/Backend/Deliveries.antt =====
-- integrations/meshtastic/backend/QuadRFRadio.cpp: which frames from the PHY reach the router.
use quadrf_mesh.Base.{
  ℕ, ◌+◌, ◌-◌, ◌≡◌, refl, sym, ap, ap₂, ◌∙◌, arith, inl, inr, Bool, true, false, not, ◌&&◌, Option,
  List, [], ◌∷◌, ◌++◌, append-nil, append_assoc, ◌==◌, ltb, leb, if◌then◌else◌, length,
  length-append, drop, Bool-cases, Option-cases,
}
use mathlib.Core.Path.{subst}
use quadrf_mesh.Base.Words.{u32}
use quadrf_mesh.Backend.Radio.{
  Firmware, RxFrame, ReceivedPacket, Radio, Event, delivered, greeted, started, wrote,
  queue_status_sent, tx_airtime, rx_airtime, completed, config_reloaded,
}
use quadrf_mesh.Backend.Transmit.{
  emit, millis, is_some, complete_packet, complete_sending, handle_transmit_interrupt,
  check_tx_complete,
}
use quadrf_mesh.Backend.Cases.{complete_sending_idle, complete_sending_busy}
use quadrf_mesh.Backend.Receive.{
  is_own, contains, received_packet, accept_frame, receive_frame, receive_frames,
  handle_receive_interrupt,
}
use quadrf_mesh.Backend.Greeting.{Leaves, send_all-Leaves}

module _ (fw : Firmware) {Float : Type 0} where
  unfoldable pub deliveries : List (Event fw Float) → List (ℕ × ℕ × ℕ × List ℕ)
  deliveries [] = []
  deliveries (delivered mp ∷ events) = (mp.from, mp.to, mp.id, mp.encrypted) ∷ deliveries events
  deliveries (greeted from ∷ events) = deliveries events
  deliveries (started p ∷ events) = deliveries events
  deliveries (wrote frame ∷ events) = deliveries events
  deliveries (queue_status_sent ∷ events) = deliveries events
  deliveries (tx_airtime t ∷ events) = deliveries events
  deliveries (rx_airtime t ∷ events) = deliveries events
  deliveries (completed p ∷ events) = deliveries events
  deliveries (config_reloaded c ∷ events) = deliveries events

  deliveries-append :
      (xs ys : List (Event fw Float)) → deliveries (xs ++ ys) ≡ deliveries xs ++ deliveries ys
  unfolding deliveries
  deliveries-append [] ys = refl
  deliveries-append (delivered mp ∷ xs) ys =
      ap (◌∷◌ (mp.from, mp.to, mp.id, mp.encrypted)) (deliveries-append xs ys)
  deliveries-append (greeted from ∷ xs) ys = deliveries-append xs ys
  deliveries-append (started p ∷ xs) ys = deliveries-append xs ys
  deliveries-append (wrote frame ∷ xs) ys = deliveries-append xs ys
  deliveries-append (queue_status_sent ∷ xs) ys = deliveries-append xs ys
  deliveries-append (tx_airtime t ∷ xs) ys = deliveries-append xs ys
  deliveries-append (rx_airtime t ∷ xs) ys = deliveries-append xs ys
  deliveries-append (completed p ∷ xs) ys = deliveries-append xs ys
  deliveries-append (config_reloaded c ∷ xs) ys = deliveries-append xs ys

  -- A frame for the router: of a size that fits the buffer, with a sender, which is not this node.
  unfoldable pub is_wanted : Option ℕ → RxFrame Float → Bool
  is_wanted own rx =
      let from = (fw.buffer_header rx.air).from in
      leb fw.header_size (length rx.air)
      && leb (length rx.air) (fw.header_size + fw.buffer_payload)
      && not (from == 0)
      && not (is_own own from)

  unfoldable pub wanted : Option ℕ → List (RxFrame Float) → List (ℕ × ℕ × ℕ × List ℕ)
  wanted own [] = []
  wanted own (rx ∷ frames) =
      let h = fw.buffer_header rx.air in
      let rest = wanted own frames in
      if is_wanted own rx then (h.from, h.to, h.id, drop fw.header_size rx.air) ∷ rest else rest

  -- The state behind some frames, compared with the state before them.
  record Received (s t : Radio fw Float) (news : List (ℕ × ℕ × ℕ × List ℕ)) : Type 0 where
    same_node : t.node_num ≡ s.node_num
    in_order : deliveries t.events ≡ deliveries s.events ++ news
    counted : u32 t.rx_good ≡ u32 (s.rx_good + length news)

  -- Events of other kinds before and behind a delivery do not show.
  deliver_one :
      (xs before after : List (Event fw Float)) (mp : ReceivedPacket Float)
      → deliveries before ≡ []
      → deliveries after ≡ []
      → deliveries (((xs ++ before) ++ (delivered mp ∷ [])) ++ after)
        ≡ deliveries xs ++ ((mp.from, mp.to, mp.id, mp.encrypted) ∷ [])
  deliver_one xs before after mp quiet silent =
      deliveries-append ((xs ++ before) ++ (delivered mp ∷ [])) after
      ∙ ap₂ ◌++◌
          (deliveries-append (xs ++ before) (delivered mp ∷ [])
            ∙ ap₂ ◌++◌
                (deliveries-append xs before
                  ∙ ap (λ t. deliveries xs ++ t) quiet
                  ∙ append-nil (deliveries xs))
                one)
          silent
      ∙ append-nil _
    where
      one : deliveries (delivered mp ∷ []) ≡ (mp.from, mp.to, mp.id, mp.encrypted) ∷ []
      one = unfold deliveries in refl

  unchanged : (s : Radio fw Float) → Received s s []
  unchanged s = record {
    same_node = refl;
    in_order = sym (append-nil _);
    counted = ap u32 (omega arith);
  }

  left :
      (s t u : Radio fw Float) (news : List (ℕ × ℕ × ℕ × List ℕ))
      → Received s t news
      → Leaves fw t u
      → Received s u news
  left s t u news a b = record {
    same_node = b.same_node ∙ a.same_node;
    in_order = ap deliveries b.same_events ∙ a.in_order;
    counted = ap u32 b.same_good ∙ a.counted;
  }

  accept_frame-Received :
      (rx : RxFrame Float) (s : Radio fw Float)
      → let h = fw.buffer_header rx.air in
        Received s (accept_frame fw rx s) ((h.from, h.to, h.id, drop fw.header_size rx.air) ∷ [])
  unfolding accept_frame emit millis received_packet deliveries
  accept_frame-Received rx s =
      let one = deliver_one s.events (rx_airtime (fw.air_time (length rx.air)) ∷ []) in
      let mp = received_packet fw rx (fw.valid_time s.clock_reads) in
      elim (Bool-cases
        (not (contains s.greeted_peers (fw.buffer_header rx.air).from) && s.has_node_info)) [
          | inl greet ↦ rw greet (
              left s _ _ _
                (record {
                  same_node = refl;
                  in_order = one (greeted (fw.buffer_header rx.air).from ∷ []) mp refl refl;
                  counted = omega arith;
                })
                (send_all-Leaves fw _ _))
          | inr quiet ↦ rw quiet (record {
            same_node = refl;
            in_order =
                ap deliveries (
                  sym (
                    append-nil (
                      (s.events ++ (rx_airtime (fw.air_time (length rx.air)) ∷ []))
                      ++ (delivered mp ∷ []))))
                ∙ one [] mp refl refl;
            counted = omega arith;
          })
        ]

  bad_frame : (s : Radio fw Float) → Received s (record s { rx_bad = u32 (s.rx_bad + 1) }) []
  bad_frame s = record {
    same_node = refl;
    in_order = sym (append-nil _);
    counted = ap u32 (omega arith);
  }

  sender :
      (rx : RxFrame Float) (s : Radio fw Float)
      → let h = fw.buffer_header rx.air in
        Received s
          (if h.from == 0 then s else if is_own s.node_num h.from then s else accept_frame fw rx s)
          (if not (h.from == 0) && not (is_own s.node_num h.from)
            then (h.from, h.to, h.id, drop fw.header_size rx.air) ∷ []
            else [])
  sender rx s =
      let from = (fw.buffer_header rx.air).from in
      elim (Bool-cases (from == 0)) [
        | inl nobody ↦ rw nobody (unchanged s)
        | inr somebody ↦ elim (Bool-cases (is_own s.node_num from)) [
          | inl own ↦ rw (somebody, own) (unchanged s)
          | inr other ↦ rw (somebody, other) (accept_frame-Received rx s)
        ]
      ]

  receive_frame-Received :
      (rx : RxFrame Float) (s : Radio fw Float)
      → Received s (receive_frame fw rx s) (wanted s.node_num (rx ∷ []))
  unfolding receive_frame wanted is_wanted
  receive_frame-Received rx s =
      let n = length rx.air in
      elim (Bool-cases (ltb n fw.header_size)) [
        | inl short ↦
            let out : leb fw.header_size n ≡ false = ground (arith, short) in
            rw (short, out) (bad_frame s)
        | inr enough ↦
            let in_low : leb fw.header_size n ≡ true = ground (arith, enough) in
            elim (Bool-cases (ltb fw.buffer_payload (n - fw.header_size))) [
              | inl long ↦
                  let out : leb n (fw.header_size + fw.buffer_payload) ≡ false =
                    ground (arith, enough, long) in
                  rw (enough, long, in_low, out) (bad_frame s)
              | inr fits ↦
                  let in_high : leb n (fw.header_size + fw.buffer_payload) ≡ true =
                    ground (arith, enough, fits) in
                  rw (enough, fits, in_low, in_high) (sender rx s)
            ]
      ]

  wanted-cons :
      (own : Option ℕ) (rx : RxFrame Float) (frames : List (RxFrame Float))
      → wanted own (rx ∷ frames) ≡ wanted own (rx ∷ []) ++ wanted own frames
  unfolding wanted
  wanted-cons own rx frames = elim (Bool-cases (is_wanted own rx)) [
    | inl ok ↦ rw ok refl
    | inr not_ok ↦ rw not_ok refl
  ]

  trans_lem :
      (s t u : Radio fw Float) (news more : List (ℕ × ℕ × ℕ × List ℕ))
      → Received s t news
      → Received t u more
      → Received s u (news ++ more)
  trans_lem s t u news more a b = record {
    same_node = b.same_node ∙ a.same_node;
    in_order =
        b.in_order
        ∙ ap (λ xs. xs ++ more) a.in_order
        ∙ append_assoc (deliveries s.events) news more;
    counted = omega (arith, a.counted, b.counted, length-append news more);
  }

  receive_frames-Received :
      (frames : List (RxFrame Float)) (s : Radio fw Float)
      → Received s (receive_frames fw frames s) (wanted s.node_num frames)
  unfolding receive_frames wanted
  receive_frames-Received [] s = record {
    same_node = refl;
    in_order = sym (append-nil (deliveries s.events));
    counted = ap u32 (omega arith);
  }
  receive_frames-Received (rx ∷ frames) s =
      let first = receive_frame-Received rx s in
      let next = receive_frame fw rx s in
      rw (wanted-cons s.node_num rx frames) (
        trans_lem s next (receive_frames fw frames next) (wanted s.node_num (rx ∷ []))
          (wanted s.node_num frames) first
          (subst (λ t. Received next (receive_frames fw frames next) (wanted t frames))
            first.same_node (receive_frames-Received frames next)))

  receive_frames-empty :
      (frames : List (RxFrame Float)) (s : Radio fw Float) → (receive_frames fw frames s).rx_q ≡ []
  unfolding receive_frames
  receive_frames-empty [] s = refl
  receive_frames-empty (rx ∷ frames) s = receive_frames-empty frames (receive_frame fw rx s)

  complete_packet-Received :
      (p : fw.TxPacket) (s : Radio fw Float)
      → Received s (complete_packet fw p s) [] × ((complete_packet fw p s).rx_q ≡ s.rx_q)
  unfolding complete_packet emit deliveries
  complete_packet-Received p s = (
    record {
      same_node = refl;
      in_order = deliveries-append s.events (completed p ∷ []);
      counted = ap u32 (omega arith);
    },
    refl,
  )

  complete_sending-Received :
      (s : Radio fw Float)
      → Received s (complete_sending fw s) [] × ((complete_sending fw s).rx_q ≡ s.rx_q)
  complete_sending-Received s = elim (Option-cases s.sending_packet) [
    | inl idle ↦
        subst (λ t. Received s t [] × (t.rx_q ≡ s.rx_q)) (sym (complete_sending_idle fw s idle))
          (unchanged s, refl)
    | inr (p, busy) ↦
        subst (λ t. Received s t [] × (t.rx_q ≡ s.rx_q)) (sym (complete_sending_busy fw s p busy))
          (complete_packet-Received p s)
  ]

  check_tx_complete-Received :
      (s : Radio fw Float)
      → Received s (check_tx_complete fw s) [] × ((check_tx_complete fw s).rx_q ≡ s.rx_q)
  unfolding check_tx_complete handle_transmit_interrupt millis
  check_tx_complete-Received s =
      let ticked = (millis fw s).1 in
      let (done, queue) = complete_sending-Received ticked in
      elim (Bool-cases (is_some s.sending_packet)) [
        | inl busy ↦ elim (Bool-cases (leb s.tx_end_time_ms (millis fw s).0)) [
          | inl over ↦
              rw (busy, over)
                (
                  record {
                    same_node = done.same_node;
                    in_order = done.in_order;
                    counted = done.counted;
                  },
                  queue,
                )
          | inr early ↦
              rw (busy, early)
                (
                  record {
                    same_node = refl;
                    in_order = sym (append-nil (deliveries s.events));
                    counted = ap u32 (omega arith);
                  },
                  refl,
                )
        ]
        | inr idle ↦ rw idle (unchanged s, refl)
      ]

  -- The handler leaves no frame in the queue, and has delivered, in their order and with their
  -- sender, addressee, id and payload, exactly the frames of it that have a whole header, fit the
  -- buffer, and name a sender other than this node; the counter of good frames has grown by their
  -- number, modulo 2^32. This holds in every state, also where a transmission ends meanwhile.
  pub handle_receive_interrupt_lem :
      (s : Radio fw Float)
      → let t = handle_receive_interrupt fw s in
        (t.rx_q ≡ [])
        × (deliveries t.events ≡ deliveries s.events ++ wanted s.node_num s.rx_q)
        × (u32 t.rx_good ≡ u32 (s.rx_good + length (wanted s.node_num s.rx_q)))
  unfolding handle_receive_interrupt
  handle_receive_interrupt_lem s =
      let checked = check_tx_complete fw s in
      let (quiet, queue) = check_tx_complete-Received s in
      let all =
        trans_lem s checked (receive_frames fw checked.rx_q checked) []
          (wanted checked.node_num checked.rx_q) quiet
          (receive_frames-Received checked.rx_q checked) in
      let same = ap₂ wanted quiet.same_node queue in
      (
        receive_frames-empty checked.rx_q checked,
        all.in_order ∙ ap (λ t. deliveries s.events ++ t) same,
        all.counted ∙ ap (λ (t : List (ℕ × ℕ × ℕ × List ℕ)). u32 (s.rx_good + length t)) same,
      )
