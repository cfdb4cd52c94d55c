-- ===== src/Backend/Waiting.antt =====
-- integrations/meshtastic/backend/QuadRFRadio.cpp: packets do not wait without a timer.
use quadrf_mesh.Base.{
  ℕ, ◌+◌, ◌≤◌, ◌≡◌, sym, ap, ◌∙◌, arith, ◌⊎◌, inl, inr, Bool, true, false, not, ◌||◌, if◌then◌else◌,
  ◌==◌, Bool-cases, Option-cases,
}
use quadrf_mesh.Backend.Radio.{Firmware, Radio}
use quadrf_mesh.Backend.Transmit.{
  is_some, is_empty, start_transmit_timer, start_transmit_timer_rebroadcast, set_transmit_delay,
  send, cancel_sending, check_tx_complete,
}
use quadrf_mesh.Backend.Cases.{can_send_immediately-tx_queue}
use quadrf_mesh.Backend.Receive.{enqueue_rx, handle_receive_interrupt}
use quadrf_mesh.Backend.Notify.{
  on_notify, on_transmit_delay, transmit_next, can_send_immediately, is_actively_receiving,
}
use quadrf_mesh.Backend.Steps.{
  PendingIsr, rx_notification, tx_notification, delay_notification, notification_number, Step,
  send_step, cancel_step, rx_step, notify_step, Reachable, initial, next,
}

smaller :
    (fw : Firmware) (q r : fw.Queue)
    → fw.queue_size r ≤ fw.queue_size q
    → is_empty fw q ≡ true
    → is_empty fw r ≡ true
smaller fw q r le empty = ground (arith, le, empty)

module _ (fw : Firmware) (armed : fw.Slot → Bool)
    (notify_arms : (n : ℕ) (slot : fw.Slot) → armed (fw.notify n true slot) ≡ true)
    (notify_later_arms : (delay n : ℕ) (slot : fw.Slot)
      → armed (fw.notify_later delay n false slot) ≡ true)
    (front_lem : (q : fw.Queue) → is_some (fw.get_front q) ≡ not (is_empty fw q))
    (dequeue_lem : (q : fw.Queue) → is_some (fw.dequeue q) ≡ not (is_empty fw q))
    (remove_lem : (q : fw.Queue) (from id : ℕ)
      → fw.queue_size (fw.remove q from id).1 ≤ fw.queue_size q)
    (enqueue_lem : (q : fw.Queue) (p : fw.TxPacket)
      → let (accepted, dropped, queue) = fw.enqueue q p in
        fw.queue_size queue ≤ fw.queue_size q + (if accepted then 1 else 0))
    {Float : Type 0} where
  -- A timer runs, or no packet waits.
  abbrev pub IsServed : Radio fw Float → Type 0
  IsServed s = (is_empty fw s.tx_queue ≡ true) ⊎ (armed s.slot ≡ true)

  start_transmit_timer-IsServed :
      (with_delay : Bool) (s : Radio fw Float) → IsServed (start_transmit_timer fw with_delay s)
  unfolding start_transmit_timer
  start_transmit_timer-IsServed with_delay s = elim (Bool-cases (is_empty fw s.tx_queue)) [
    | inl nothing ↦ rw nothing (inl nothing)
    | inr packets ↦ rw packets (inr (notify_later_arms _ _ _))
  ]

  rebroadcast-IsServed :
      (p : fw.TxPacket) (s : Radio fw Float) → IsServed (start_transmit_timer_rebroadcast fw p s)
  unfolding start_transmit_timer_rebroadcast
  rebroadcast-IsServed p s = elim (Bool-cases (is_empty fw s.tx_queue)) [
    | inl nothing ↦ rw nothing (inl nothing)
    | inr packets ↦ rw packets (inr (notify_later_arms _ _ _))
  ]

  set_transmit_delay-IsServed : (s : Radio fw Float) → IsServed (set_transmit_delay fw s)
  unfolding set_transmit_delay
  set_transmit_delay-IsServed s = elim (Option-cases (fw.get_front s.tx_queue)) [
    | inl nothing ↦
        let h = sym (front_lem s.tx_queue) ∙ ap is_some nothing in
        rw (set_transmit_delay, nothing) (inl (ground (arith, h)))
    | inr (p, front) ↦ elim (Bool-cases (fw.was_heard p)) [
      | inl heard ↦ rw (set_transmit_delay, front, heard) (rebroadcast-IsServed p s)
      | inr fresh ↦ rw (set_transmit_delay, front, fresh) (start_transmit_timer-IsServed true s)
    ]
  ]

  transmit_next-IsServed :
      (s : Radio fw Float) → is_empty fw s.tx_queue ≡ false → IsServed (transmit_next fw s)
  unfolding transmit_next
  transmit_next-IsServed s packets = elim (Option-cases (fw.dequeue s.tx_queue)) [
    | inl nothing ↦
        let h = sym (dequeue_lem s.tx_queue) ∙ ap is_some nothing in
        absurd (ground (arith, h, packets))
    | inr (found, front) ↦ rw (transmit_next, front) (inr (notify_later_arms _ _ _))
  ]

  on_transmit_delay-IsServed : (s : Radio fw Float) → IsServed (on_transmit_delay fw s)
  unfolding on_transmit_delay
  on_transmit_delay-IsServed s =
      let received = handle_receive_interrupt fw (check_tx_complete fw s) in
      let ready = can_send_immediately fw received in
      elim (Bool-cases (is_empty fw received.tx_queue)) [
        | inl nothing ↦ rw nothing (inl nothing)
        | inr packets ↦ elim (Bool-cases (not ready.0 || is_actively_receiving fw ready.1)) [
          | inl busy ↦ rw (packets, busy) (set_transmit_delay-IsServed ready.1)
          | inr free ↦
              rw (packets, free)
                (transmit_next-IsServed ready.1 (
                  ap (λ t. fw.queue_size t == 0) (can_send_immediately-tx_queue fw received)
                  ∙ packets))
        ]
      ]

  on_notify-IsServed :
      (pending : PendingIsr) (s : Radio fw Float)
      → IsServed (on_notify fw (notification_number pending) s)
  unfolding on_notify notification_number
  on_notify-IsServed rx_notification s = start_transmit_timer-IsServed true _
  on_notify-IsServed tx_notification s = start_transmit_timer-IsServed true _
  on_notify-IsServed delay_notification s = on_transmit_delay-IsServed _

  send-IsServed : (p : fw.TxPacket) (s : Radio fw Float) → IsServed s → IsServed (send fw p s).1
  unfolding send
  send-IsServed p s served = elim (Bool-cases (fw.enqueue s.tx_queue p).0) [
    | inl accepted ↦ rw accepted (set_transmit_delay-IsServed _)
    | inr refused ↦
        let le : fw.queue_size (fw.enqueue s.tx_queue p).2 ≤ fw.queue_size s.tx_queue =
          ground (arith, enqueue_lem s.tx_queue p, refused) in
        rw refused (elim served [
          | inl empty ↦ inl (smaller fw s.tx_queue (fw.enqueue s.tx_queue p).2 le empty)
          | inr timer ↦ inr timer
        ])
  ]

  Step-IsServed : {s t : Radio fw Float} → IsServed s → Step fw s t → IsServed t
  unfolding cancel_sending enqueue_rx
  Step-IsServed served (send_step {s = s} p) = send-IsServed p s served
  Step-IsServed served (cancel_step {s = s} from id) = elim served [
    | inl empty ↦ inl (
        smaller fw s.tx_queue (fw.remove s.tx_queue from id).1 (remove_lem s.tx_queue from id)
          empty)
    | inr timer ↦ inr timer
  ]
  Step-IsServed served (rx_step rx) = inr (notify_arms _ _)
  Step-IsServed served (notify_step pending taken) = on_notify-IsServed pending _

  -- However sends, cancellations, received frames and notifications follow each other from an empty
  -- queue, and whatever the clock and the delays are: when packets wait in the queue to be sent, a
  -- notification of the worker thread is due. The conditions are that a notification with the
  -- overwrite flag and a delayed one leave one due, and that the firmware's queue has a front and
  -- can be dequeued when it is not empty, and grows by nothing but the packets it accepts.
  pub Reachable-IsServed : {s : Radio fw Float} → Reachable fw s → IsServed s
  Reachable-IsServed (initial empty) = inl empty
  Reachable-IsServed (next before step) = Step-IsServed (Reachable-IsServed before) step
