-- ===== src/AirIpc/Deframer.antt =====
-- include/quadrf/air_ipc.hpp: class `Deframer`. `output` is the vector that `feed` appends to.
use quadrf_mesh.Base.{
  ℕ, ◌+◌, bit_or, List, [], ◌∷◌, ◌++◌, ltb, ◌==◌, ◌||◌, not, if◌then◌else◌, length,
}
use quadrf_mesh.Base.Words.{u16, u64, shl, Span, null, bytes}
use quadrf_mesh.AirIpc.Wire.{
  magic0, magic1, protocol_version, max_body_len, tx_enqueue, message_type_known,
}

pub data State : Type 0 where
  scan_magic0 expect_magic1 version type len_hi len_lo body : State

pub record Frame : Type 0 where
  pub type : ℕ
  pub body : List ℕ

pub record Deframer : Type 0 where
  pub state : State
  pub type : ℕ
  pub body_length : ℕ
  pub body : List ℕ
  pub frames_ok : ℕ
  pub frames_rejected : ℕ

unfoldable pub fresh : Deframer
fresh = record {
  state = State.scan_magic0;
  type = tx_enqueue;
  body_length = 0;
  body = [];
  frames_ok = 0;
  frames_rejected = 0;
}

-- The counters survive a reset.
unfoldable pub reset : Deframer → Deframer
reset d = record d { state = State.scan_magic0; type = tx_enqueue; body_length = 0; body = [] }

unfoldable pub reject_and_resync : Deframer → ℕ → Deframer
reject_and_resync d byte = record d {
  frames_rejected = u64 (d.frames_rejected + 1);
  state = if byte == magic0 then State.expect_magic1 else State.scan_magic0;
}

-- What a call of `feed` has done so far: the object, the frames appended, and `produced`.
pub record Fed : Type 0 where
  pub deframer : Deframer
  pub output : List Frame
  pub produced : ℕ

-- The body of the loop over the bytes: one case for each state.
unfoldable pub on_byte : State → Deframer → List Frame → ℕ → ℕ → Fed
unfolding reject_and_resync
on_byte State.scan_magic0 d output produced byte = record {
  deframer = if byte == magic0 then record d { state = State.expect_magic1 } else d;
  output = output;
  produced = produced;
}
on_byte State.expect_magic1 d output produced byte = record {
  deframer =
      if byte == magic1
      then record d { state = State.version }
      else if not (byte == magic0)
      then record d { state = State.scan_magic0 }
      else d;
  output = output;
  produced = produced;
}
on_byte State.version d output produced byte = record {
  deframer =
      if not (byte == protocol_version)
      then reject_and_resync d byte
      else record d { state = State.type };
  output = output;
  produced = produced;
}
on_byte State.type d output produced byte = record {
  deframer =
      if not (message_type_known byte)
      then reject_and_resync d byte
      else record d { type = byte; state = State.len_hi };
  output = output;
  produced = produced;
}
on_byte State.len_hi d output produced byte = record {
  deframer = record d { body_length = u16 (shl byte 8); state = State.len_lo };
  output = output;
  produced = produced;
}
on_byte State.len_lo d output produced byte =
    let n = u16 (bit_or d.body_length byte) in
    record {
      deframer =
          if n == 0 || ltb max_body_len n
          then record d {
            frames_rejected = u64 (d.frames_rejected + 1);
            state = State.scan_magic0;
            body_length = 0;
          }
          else record d { body_length = n; body = []; state = State.body };
      output = output;
      produced = produced;
    }
on_byte State.body d output produced byte =
    let pushed = d.body ++ (byte ∷ []) in
    if length pushed == d.body_length
    then record {
      deframer = record d {
        body = [];
        frames_ok = u64 (d.frames_ok + 1);
        state = State.scan_magic0;
        body_length = 0;
      };
      output = output ++ (record { type = d.type; body = pushed } ∷ []);
      produced = produced + 1;
    }
    else record { deframer = record d { body = pushed }; output = output; produced = produced }

unfoldable pub feed_loop : Fed → List ℕ → Fed
unfolding on_byte
feed_loop f [] = f
feed_loop f (byte ∷ rest) =
    feed_loop (on_byte f.deframer.state f.deframer f.output f.produced byte) rest

unfoldable pub feed : Deframer → Span → List Frame → Fed
unfolding feed_loop
feed d (null n) output = record { deframer = d; output = output; produced = 0 }
feed d (bytes data_in) output =
    feed_loop (record { deframer = d; output = output; produced = 0 }) data_in
