-- ===== src/Daemon/Messages.antt =====
-- apps/quadrf_lora_phy.cpp: the messages of a client, from its encoders over the stream to what the
-- daemon does with them.
use quadrf_mesh.Base.{
  ℕ, ◌^◌, ◌≤◌, ◌<◌, ◌≡◌, refl, ap, ◌∙◌, arith, true, Option, some, List, [], ◌∷◌, ◌++◌, length,
}
use quadrf_mesh.Base.Words.{bytes}
use quadrf_mesh.AirIpc.Wire.{
  write_le64, tx_enqueue, set_modem, encode_frame, message_type_known, air_length_is_valid,
}
use quadrf_mesh.AirIpc.Messages.{
  TxEnqueue, SetModem, encode_tx, decode_tx, encode_set_modem, decode_set_modem,
}
use quadrf_mesh.AirIpc.Deframer.{Frame}
use quadrf_mesh.AirIpc.Framing.{Wire, next, done}
use quadrf_mesh.AirIpc.RoundTrip.{decode_tx_written}
use quadrf_mesh.Daemon.Phy.{
  Phy, Platform, apply_modem, enqueue_air_tx, handle_set_modem, handle_tx_enqueue, handle_ipc_frame,
  handle_ipc_frames, frequency_request_accepted,
}

pub data Message : Type 0 where
  use_preset : SetModem → Message
  send_air : TxEnqueue → Message

abbrev pub encode_message : Message → Option (List ℕ)
encode_message (use_preset m) = encode_set_modem m
encode_message (send_air m) = encode_tx m

-- The fields fit their types.
abbrev pub InRange : Message → Type 0
InRange (use_preset m) = m.preset < 2 ^ 8
InRange (send_air m) = m.freq_hz < 2 ^ 64

-- The bytes of some messages, each as its encoder accepts and writes it.
pub data Written : List Message → List ℕ → Type 0 where
  nothing : Written [] []
  message :
      {messages : List Message} {rest : List ℕ} (m : Message) (wire : List ℕ)
      → InRange m
      → encode_message m ≡ some wire
      → Written messages rest
      → Written (m ∷ messages) (wire ++ rest)

module _ {S Ddc Rx : Type 0} (platform : Platform S Ddc Rx) where
  -- What each message asks for.
  unfoldable pub serve : Message → Phy S Ddc Rx → Phy S Ddc Rx
  serve (use_preset m) s = apply_modem platform m.preset s
  serve (send_air m) s = enqueue_air_tx platform m.air s

  unfoldable pub serve_all : List Message → Phy S Ddc Rx → Phy S Ddc Rx
  serve_all [] s = s
  serve_all (m ∷ messages) s = serve_all messages (serve m s)

-- The frame of a message: its type and its body.
abbrev frame_of : Message → Frame
frame_of (use_preset m) = record { type = set_modem; body = m.preset ∷ [] }
frame_of (send_air m) = record { type = tx_enqueue; body = write_le64 m.freq_hz ++ m.air }

encode_message-frame_of :
    (m : Message) (wire : List ℕ)
    → encode_message m ≡ some wire
    → encode_frame (frame_of m).type (bytes (frame_of m).body) ≡ some wire
unfolding encode_tx encode_set_modem
encode_message-frame_of (use_preset m) wire e = e
encode_message-frame_of (send_air m) wire e = ground (arith, e)

lengths :
    (m : TxEnqueue) (wire : List ℕ)
    → encode_tx m ≡ some wire
    → (16 ≤ length m.air) × (length m.air ≤ 255)
unfolding encode_tx air_length_is_valid
lengths m wire e = (ground (arith, e), ground (arith, e))

unfoldable pub frames_of : List Message → List Frame
frames_of [] = []
frames_of (m ∷ messages) = frame_of m ∷ frames_of messages

pub Written-Wire :
    {messages : List Message} {wire : List ℕ}
    → Written messages wire
    → Wire (frames_of messages) wire
unfolding frames_of
Written-Wire nothing = done [] _
Written-Wire (message m wire fits e written) =
    next [] (frame_of m) wire _ (known m) (encode_message-frame_of m wire e) (Written-Wire written)
  where
    known : (m : Message) → message_type_known (frame_of m).type ≡ true
    known (use_preset m) = refl
    known (send_air m) = refl

module _ {S Ddc Rx : Type 0} (platform : Platform S Ddc Rx) where
  handle_tx_accepted :
      (body : List ℕ) (m : TxEnqueue) (s : Phy S Ddc Rx)
      → decode_tx (bytes body) ≡ some m
      → handle_tx_enqueue platform body s ≡ enqueue_air_tx platform m.air s
  unfolding handle_tx_enqueue frequency_request_accepted
  handle_tx_accepted body m s e = rw (handle_tx_enqueue, e) refl

  handle_ipc_frame-frame_of :
      (m : Message) (wire : List ℕ) (s : Phy S Ddc Rx)
      → InRange m
      → encode_message m ≡ some wire
      → handle_ipc_frame platform (frame_of m) s ≡ serve platform m s
  unfolding handle_ipc_frame serve handle_set_modem decode_set_modem
  handle_ipc_frame-frame_of (use_preset m) wire s fits e = refl
  handle_ipc_frame-frame_of (send_air m) wire s fits e =
      let (lo, hi) = lengths m wire e in
      handle_tx_accepted (write_le64 m.freq_hz ++ m.air) m s (decode_tx_written m lo hi fits)

  pub handle_ipc_frames-frames_of :
      {messages : List Message} {wire : List ℕ} (s : Phy S Ddc Rx)
      → Written messages wire
      → handle_ipc_frames platform (frames_of messages) s ≡ serve_all platform messages s
  unfolding handle_ipc_frames serve_all frames_of
  handle_ipc_frames-frames_of s nothing = refl
  handle_ipc_frames-frames_of s (message {messages} m wire fits e written) =
      ap (handle_ipc_frames platform (frames_of messages))
        (handle_ipc_frame-frame_of m wire s fits e)
      ∙ handle_ipc_frames-frames_of (serve platform m s) written
