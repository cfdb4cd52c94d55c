-- ===== src/Daemon/Reads.antt =====
-- apps/quadrf_lora_phy.cpp: the reads of a client's socket, however they cut its messages.
use quadrf_mesh.Base.{
  ℕ, ◌+◌, ◌^◌, ◌<◌, ◌≡◌, refl, sym, ap, ap₂, suc, ◌∙◌, arith, List, [], ◌∷◌, ◌++◌, ◌==◌, length,
  inl, inr, Option-cases, Bool-cases, All,
}
use quadrf_mesh.Base.Words.{u64, bytes}
use quadrf_mesh.AirIpc.Wire.{tx_enqueue, set_modem}
use quadrf_mesh.AirIpc.Messages.{decode_tx, decode_set_modem}
use quadrf_mesh.AirIpc.Deframer.{Frame, Deframer, Fed, feed_loop, feed, reset}
use quadrf_mesh.AirIpc.Framing.{scanning, last_type, feed-Wire}
use quadrf_mesh.Daemon.Phy.{
  Phy, Platform, apply_modem, enqueue_air_tx, handle_set_modem, handle_tx_enqueue, handle_ipc_frame,
  handle_ipc_frames, client_read, accept_client, frequency_request_accepted, PhyParams,
  switch_modem, apply_parsed, same_modem, preset_key_from_id, parse_preset,
}
use quadrf_mesh.AirIpc.Appending.{feed-append_fresh}
use quadrf_mesh.Daemon.Messages.{
  Message, Written, frames_of, Written-Wire, serve_all, handle_ipc_frames-frames_of,
}

-- The deframer of a connection behind some messages.
abbrev pub behind_messages : List Message → Deframer → Deframer
behind_messages messages d =
    scanning (last_type tx_enqueue (frames_of messages)) (u64 (d.frames_ok + length messages))
      d.frames_rejected

-- What some reads returned, none of them the end.
unfoldable pub all_bytes : List (List ℕ) → List ℕ
all_bytes [] = []
all_bytes (xs ∷ reads) = xs ++ all_bytes reads

abbrev pub IsRead : List ℕ → Type 0
IsRead xs = 0 < length xs

module _ {S Ddc Rx : Type 0} (platform : Platform S Ddc Rx) where
  -- The frames of a client do not touch its deframer.
  abbrev with_deframer : Deframer → Phy S Ddc Rx → Phy S Ddc Rx
  with_deframer d s = record s { ipc_deframer = d }

  switch_modem-with_deframer :
      (name : List ℕ) (params : PhyParams) (d : Deframer) (s : Phy S Ddc Rx)
      → switch_modem platform name params (with_deframer d s)
        ≡ with_deframer d (switch_modem platform name params s)
  unfolding switch_modem
  switch_modem-with_deframer name params d s = elim (Option-cases (platform.make_ddc params)) [
    | inl e ↦ rw (switch_modem, e) refl
    | inr (ddc, e) ↦ rw (switch_modem, e) refl
  ]

  apply_parsed-with_deframer :
      (name : List ℕ) (parsed : PhyParams) (d : Deframer) (s : Phy S Ddc Rx)
      → apply_parsed platform name parsed (with_deframer d s)
        ≡ with_deframer d (apply_parsed platform name parsed s)
  unfolding apply_parsed
  apply_parsed-with_deframer name parsed d s =
      let params = record parsed { sample_rate_hz = s.params.sample_rate_hz } in
      elim (Bool-cases (same_modem params s.params)) [
        | inl e ↦ rw e refl
        | inr e ↦ rw e (switch_modem-with_deframer name params d s)
      ]

  apply_modem-with_deframer :
      (id : ℕ) (d : Deframer) (s : Phy S Ddc Rx)
      → apply_modem platform id (with_deframer d s) ≡ with_deframer d (apply_modem platform id s)
  unfolding apply_modem
  apply_modem-with_deframer id d s = elim (Option-cases (preset_key_from_id id)) [
    | inl e ↦ rw (apply_modem, e) refl
    | inr (name, e) ↦ elim (Option-cases (parse_preset name)) [
      | inl p ↦ rw (apply_modem, e, p) refl
      | inr (parsed, p) ↦ rw (apply_modem, e, p) (apply_parsed-with_deframer name parsed d s)
    ]
  ]

  handle_tx_enqueue-with_deframer :
      (body : List ℕ) (d : Deframer) (s : Phy S Ddc Rx)
      → handle_tx_enqueue platform body (with_deframer d s)
        ≡ with_deframer d (handle_tx_enqueue platform body s)
  unfolding handle_tx_enqueue frequency_request_accepted enqueue_air_tx
  handle_tx_enqueue-with_deframer body d s = elim (Option-cases (decode_tx (bytes body))) [
    | inl e ↦ rw (handle_tx_enqueue, e) refl
    | inr (m, e) ↦ rw (handle_tx_enqueue, e) refl
  ]

  handle_set_modem-with_deframer :
      (body : List ℕ) (d : Deframer) (s : Phy S Ddc Rx)
      → handle_set_modem platform body (with_deframer d s)
        ≡ with_deframer d (handle_set_modem platform body s)
  unfolding handle_set_modem
  handle_set_modem-with_deframer body d s = elim (Option-cases (decode_set_modem (bytes body))) [
    | inl e ↦ rw (handle_set_modem, e) refl
    | inr (m, e) ↦ rw (handle_set_modem, e) (apply_modem-with_deframer m.preset d s)
  ]

  handle_ipc_frame-with_deframer :
      (fr : Frame) (d : Deframer) (s : Phy S Ddc Rx)
      → handle_ipc_frame platform fr (with_deframer d s)
        ≡ with_deframer d (handle_ipc_frame platform fr s)
  unfolding handle_ipc_frame
  handle_ipc_frame-with_deframer fr d s = elim (Bool-cases (fr.type == set_modem)) [
    | inl e ↦ rw e (handle_set_modem-with_deframer fr.body d s)
    | inr e ↦ elim (Bool-cases (fr.type == tx_enqueue)) [
      | inl h ↦ rw (e, h) (handle_tx_enqueue-with_deframer fr.body d s)
      | inr h ↦ rw (e, h) refl
    ]
  ]

  handle_ipc_frames-with_deframer :
      (frames : List Frame) (d : Deframer) (s : Phy S Ddc Rx)
      → handle_ipc_frames platform frames (with_deframer d s)
        ≡ with_deframer d (handle_ipc_frames platform frames s)
  unfolding handle_ipc_frames
  handle_ipc_frames-with_deframer [] d s = refl
  handle_ipc_frames-with_deframer (fr ∷ frames) d s =
      ap (handle_ipc_frames platform frames) (handle_ipc_frame-with_deframer fr d s)
      ∙ handle_ipc_frames-with_deframer frames d (handle_ipc_frame platform fr s)

  -- The same with the frames that the deframer finds.
  abbrev handled : Fed → Phy S Ddc Rx → Phy S Ddc Rx
  handled fed s = with_deframer fed.deframer (handle_ipc_frames platform fed.output s)

  client_read_lem :
      (xs : List ℕ) (s : Phy S Ddc Rx)
      → 0 < length xs
      → client_read platform xs s ≡ handled (feed s.ipc_deframer (bytes xs) []) s
  unfolding client_read
  client_read_lem [] s some_bytes = absurd (omega arith)
  client_read_lem (b ∷ sock_buf) s some_bytes =
      let fed = feed s.ipc_deframer (bytes (b ∷ sock_buf)) [] in
      handle_ipc_frames-with_deframer fed.output fed.deframer s

  -- Reads of these bytes, one behind the other.
  unfoldable pub client_reads : List (List ℕ) → Phy S Ddc Rx → Phy S Ddc Rx
  client_reads [] s = s
  client_reads (xs ∷ reads) s = client_reads reads (client_read platform xs s)

  handle_ipc_frames-append :
      (xs ys : List Frame) (s : Phy S Ddc Rx)
      → handle_ipc_frames platform (xs ++ ys) s
        ≡ handle_ipc_frames platform ys (handle_ipc_frames platform xs s)
  unfolding handle_ipc_frames
  handle_ipc_frames-append [] ys s = refl
  handle_ipc_frames-append (x ∷ xs) ys s =
      handle_ipc_frames-append xs ys (handle_ipc_frame platform x s)

  client_reads_lem :
      (reads : List (List ℕ)) (s : Phy S Ddc Rx)
      → All IsRead reads
      → client_reads reads s ≡ handled (feed s.ipc_deframer (bytes (all_bytes reads)) []) s
  unfolding client_reads all_bytes
  client_reads_lem [] s some_bytes = unfold feed feed_loop handle_ipc_frames in refl
  client_reads_lem (xs ∷ reads) s some_bytes =
      let fed = feed s.ipc_deframer (bytes xs) [] in
      let rest = all_bytes reads in
      let later = feed fed.deframer (bytes rest) [] in
      let (object, frames) = feed-append_fresh xs rest s.ipc_deframer in
      ap (client_reads reads) (client_read_lem xs s some_bytes.0)
      ∙ client_reads_lem reads (handled fed s) some_bytes.1
      ∙ ap (with_deframer later.deframer) (
          handle_ipc_frames-with_deframer later.output fed.deframer
            (handle_ipc_frames platform fed.output s))
      ∙ ap (with_deframer later.deframer) (sym (handle_ipc_frames-append fed.output later.output s))
      ∙ ap₂ (λ d frames. with_deframer d (handle_ipc_frames platform frames s)) (sym object)
          (sym frames)

  length-frames_of : (messages : List Message) → length (frames_of messages) ≡ length messages
  unfolding frames_of
  length-frames_of [] = refl
  length-frames_of (m ∷ messages) = ap suc (length-frames_of messages)

  -- A client connects and sends any messages that its encoders accept. However the reads cut the
  -- stream, the daemon does for each message in order what it asks for, a change of the preset or a
  -- frame for the transmitter; its deframer has counted the messages, modulo 2^64, on a count that
  -- fits its type, and scans for the next one.
  pub client_reads-serve_all :
      {messages : List Message} (fd : ℕ) (reads : List (List ℕ)) (s : Phy S Ddc Rx)
      → s.ipc_deframer.frames_ok < 2 ^ 64
      → All IsRead reads
      → Written messages (all_bytes reads)
      → let connected = accept_client fd s in
        client_reads reads connected ≡ record (serve_all platform messages connected) {
          ipc_deframer = behind_messages messages s.ipc_deframer;
        }
  unfolding accept_client reset
  client_reads-serve_all {messages} fd reads s fits some_bytes written =
      let connected = accept_client fd s in
      let d = s.ipc_deframer in
      let fed = feed-Wire tx_enqueue d.frames_ok d.frames_rejected [] fits (Written-Wire written) in
      client_reads_lem reads connected some_bytes
      ∙ ap (λ r. handled r connected) fed
      ∙ ap₂
          (λ n t.
            with_deframer
              (scanning (last_type tx_enqueue (frames_of messages)) (u64 (d.frames_ok + n))
                d.frames_rejected)
              t)
          (length-frames_of messages) (handle_ipc_frames-frames_of platform connected written)
