-- ===== src/Stream/Framer.antt =====
-- src/stream/framer.cpp: `frame` and the class `Deframer`. `none` stands for a return of false.
use quadrf_mesh.Base.{
  ℕ, ◌+◌, bit_or, Option, none, some, List, [], ◌∷◌, ◌++◌, ltb, leb, ◌==◌, not, if◌then◌else◌,
  length,
}
use quadrf_mesh.Base.Words.{u8, u16, u64, shl, shr, low_bits, Span, null, bytes}

abbrev pub start1 : ℕ
start1 = 0x94

abbrev pub start2 : ℕ
start2 = 0xc3

abbrev pub header_len : ℕ
header_len = 4

abbrev pub max_payload : ℕ
max_payload = 512

unfoldable pub framed : List ℕ → Option (List ℕ)
framed payload =
    let len = length payload in
    if ltb max_payload len
    then none
    else some (start1 ∷ start2 ∷ u8 (low_bits (shr len 8) 8) ∷ u8 (low_bits len 8) ∷ payload)

-- A null pointer is accepted with length 0 only.
unfoldable pub frame : Span → Option (List ℕ)
unfolding framed
frame (null len) = if not (len == 0) then none else framed []
frame (bytes payload) = framed payload

pub data State : Type 0 where
  scan_start1 expect_start2 len_hi len_lo payload : State

pub record Deframer : Type 0 where
  pub state : State
  pub len : ℕ
  pub buf : List ℕ
  pub frames_ok : ℕ
  pub frames_rejected : ℕ

unfoldable pub fresh : Deframer
fresh = record { state = State.scan_start1; len = 0; buf = []; frames_ok = 0; frames_rejected = 0 }

unfoldable pub reset : Deframer → Deframer
reset d = record d { state = State.scan_start1; len = 0; buf = [] }

-- What a call of `feed` has done so far: the object, the payloads appended, and `produced`.
pub record Fed : Type 0 where
  pub deframer : Deframer
  pub output : List (List ℕ)
  pub produced : ℕ

-- The body of the loop over the bytes: one case for each state.
unfoldable pub on_byte : State → Deframer → List (List ℕ) → ℕ → ℕ → Fed
on_byte State.scan_start1 d output produced b = record {
  deframer = if b == start1 then record d { state = State.expect_start2 } else d;
  output = output;
  produced = produced;
}
on_byte State.expect_start2 d output produced b = record {
  deframer =
      if b == start2
      then record d { state = State.len_hi }
      else if b == start1
      then d
      else record d { state = State.scan_start1 };
  output = output;
  produced = produced;
}
on_byte State.len_hi d output produced b = record {
  deframer = record d { len = u16 (shl b 8); state = State.len_lo };
  output = output;
  produced = produced;
}
on_byte State.len_lo d output produced b =
    let n = u16 (bit_or d.len b) in
    if ltb max_payload n
    then record {
      deframer = record d {
        frames_rejected = u64 (d.frames_rejected + 1);
        state = State.scan_start1;
        len = 0;
      };
      output = output;
      produced = produced;
    }
    else if n == 0
    then record {
      deframer = record d { len = n; frames_ok = u64 (d.frames_ok + 1); state = State.scan_start1 };
      output = output ++ ([] ∷ []);
      produced = produced + 1;
    }
    else record {
      deframer = record d { len = n; buf = []; state = State.payload };
      output = output;
      produced = produced;
    }
on_byte State.payload d output produced b =
    let pushed = d.buf ++ (b ∷ []) in
    if leb d.len (length pushed)
    then record {
      deframer = record d {
        buf = [];
        frames_ok = u64 (d.frames_ok + 1);
        state = State.scan_start1;
        len = 0;
      };
      output = output ++ (pushed ∷ []);
      produced = produced + 1;
    }
    else record { deframer = record d { buf = pushed }; output = output; produced = produced }

unfoldable pub feed_loop : Fed → List ℕ → Fed
unfolding on_byte
feed_loop f [] = f
feed_loop f (b ∷ rest) = feed_loop (on_byte f.deframer.state f.deframer f.output f.produced b) rest

unfoldable pub feed : Deframer → Span → List (List ℕ) → Fed
unfolding feed_loop
feed d (null n) output = record { deframer = d; output = output; produced = 0 }
feed d (bytes data_in) output =
    feed_loop (record { deframer = d; output = output; produced = 0 }) data_in
