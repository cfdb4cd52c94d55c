-- ===== src/Backend/Steps.antt =====
-- integrations/meshtastic/backend/QuadRFRadio.cpp: the backend at work. A step is a call of the
-- firmware, a frame from the reader thread, or a notification that the worker thread takes; the
-- slot that the worker leaves is any.
use quadrf_mesh.Base.{ℕ, ◌≡◌, true}
use quadrf_mesh.Backend.Radio.{Firmware, RxFrame, Radio}
use quadrf_mesh.Backend.Transmit.{
  isr_rx, isr_tx, transmit_delay_completed, is_empty, send, cancel_sending,
}
use quadrf_mesh.Backend.Receive.{enqueue_rx}
use quadrf_mesh.Backend.Notify.{on_notify}

pub data PendingIsr : Type 0 where
  rx_notification tx_notification delay_notification : PendingIsr

unfoldable pub notification_number : PendingIsr → ℕ
notification_number rx_notification = isr_rx
notification_number tx_notification = isr_tx
notification_number delay_notification = transmit_delay_completed

module _ (fw : Firmware) {Float : Type 0} where
  pub data Step : Radio fw Float → Radio fw Float → Type 0 where
    send_step : {s : Radio fw Float} (p : fw.TxPacket) → Step s (send fw p s).1
    cancel_step : {s : Radio fw Float} (from id : ℕ) → Step s (cancel_sending fw from id s).1
    rx_step : {s : Radio fw Float} (rx : RxFrame Float) → Step s (enqueue_rx fw rx s)
    notify_step :
        {s : Radio fw Float} (pending : PendingIsr) (taken : fw.Slot)
        → Step s (on_notify fw (notification_number pending) (record s { slot = taken }))

  pub data Reachable : Radio fw Float → Type 0 where
    initial : {s : Radio fw Float} → is_empty fw s.tx_queue ≡ true → Reachable s
    next : {s t : Radio fw Float} → Reachable s → Step s t → Reachable t
