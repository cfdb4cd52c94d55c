-- ===== src/Bridge/DataRoundTrip.antt =====
-- `encodeData` and `decodeData` are inverse.
use quadrf_mesh.Base.{ℕ, ◌^◌, ◌<◌, ◌≡◌, refl, arith, Bool, false, List, [], ◌∷◌, ◌++◌, some, length}
use quadrf_mesh.Base.Words.{bytes}
use quadrf_mesh.Pb.Wire.{Field}
use quadrf_mesh.Pb.Fields.{Writes, Writes-append, parse_fields-Writes}
use quadrf_mesh.Pb.Writers.{
  u32_fields, bool_fields, fixed32_fields, bytes_fields, Writes-write_u32, Writes-write_bool,
  Writes-write_fixed32, Writes-write_bytes,
}
use quadrf_mesh.Bridge.Types.{Data, blank_data}
use quadrf_mesh.Bridge.Encode.{encode_data}
use quadrf_mesh.Bridge.Decode.{on_data_field, on_data_fields, decode_data}

-- The ranges of the C++ types.
pub record IsValid (d : Data) : Type 0 where
  pub portnum : d.portnum < 2 ^ 32
  pub payload : length d.payload < 2 ^ 32
  pub dest : d.dest < 2 ^ 32
  pub source : d.source < 2 ^ 32
  pub request_id : d.request_id < 2 ^ 32
  pub reply_id : d.reply_id < 2 ^ 32

abbrev data_fields : Data → List Field
data_fields d =
    u32_fields 1 d.portnum
    ++ (bytes_fields 2 d.payload false
        ++ (bool_fields 3 d.want_response
            ++ (fixed32_fields 4 d.dest
                ++ (fixed32_fields 5 d.source
                    ++ (fixed32_fields 6 d.request_id ++ fixed32_fields 7 d.reply_id)))))

Writes-encode_data : (d : Data) → IsValid d → Writes (encode_data d) (data_fields d)
unfolding encode_data
Writes-encode_data d v =
    Writes-append _ _ _ _ (Writes-write_u32 1 (omega arith) d.portnum (omega (arith, v.portnum))) (
      Writes-append _ _ _ _
        (Writes-write_bytes 2 (omega arith) d.payload false (omega (arith, v.payload)))
        (Writes-append _ _ _ _ (Writes-write_bool 3 (omega arith) d.want_response) (
          Writes-append _ _ _ _ (Writes-write_fixed32 4 (omega arith) d.dest v.dest) (
            Writes-append _ _ _ _ (Writes-write_fixed32 5 (omega arith) d.source v.source) (
              Writes-append _ _ _ _ (Writes-write_fixed32 6 (omega arith) d.request_id v.request_id)
                (Writes-write_fixed32 7 (omega arith) d.reply_id v.reply_id))))))

on_data_fields-append :
    (out : Data) (fs gs : List Field)
    → on_data_fields out (fs ++ gs) ≡ on_data_fields (on_data_fields out fs) gs
unfolding on_data_fields
on_data_fields-append out [] gs = refl
on_data_fields-append out (f ∷ fs) gs = on_data_fields-append (on_data_field out f) fs gs

-- Each writer's fields set the field of the message that they came from.
module _ (out : Data) where
  set_portnum :
      (v : ℕ)
      → out.portnum ≡ 0
      → v < 2 ^ 32
      → on_data_fields out (u32_fields 1 v) ≡ record out { portnum = v }
  unfolding on_data_fields on_data_field
  set_portnum v z h = ground arith

  set_payload :
      (xs : List ℕ)
      → out.payload ≡ []
      → on_data_fields out (bytes_fields 2 xs false) ≡ record out { payload = xs }
  unfolding on_data_fields on_data_field
  set_payload [] z = ground arith
  set_payload (x ∷ xs) z = ground arith

  set_want_response :
      (v : Bool)
      → out.want_response ≡ false
      → on_data_fields out (bool_fields 3 v) ≡ record out { want_response = v }
  unfolding on_data_fields on_data_field
  set_want_response v z = ground arith

  set_dest :
      (v : ℕ) → out.dest ≡ 0 → on_data_fields out (fixed32_fields 4 v) ≡ record out { dest = v }
  unfolding on_data_fields on_data_field
  set_dest v z = ground arith

  set_source :
      (v : ℕ) → out.source ≡ 0 → on_data_fields out (fixed32_fields 5 v) ≡ record out { source = v }
  unfolding on_data_fields on_data_field
  set_source v z = ground arith

  set_request_id :
      (v : ℕ)
      → out.request_id ≡ 0
      → on_data_fields out (fixed32_fields 6 v) ≡ record out { request_id = v }
  unfolding on_data_fields on_data_field
  set_request_id v z = ground arith

  set_reply_id :
      (v : ℕ)
      → out.reply_id ≡ 0
      → on_data_fields out (fixed32_fields 7 v) ≡ record out { reply_id = v }
  unfolding on_data_fields on_data_field
  set_reply_id v z = ground arith

on_data_fields-data_fields : (d : Data) → IsValid d → on_data_fields blank_data (data_fields d) ≡ d
on_data_fields-data_fields d v = simp (
  on_data_fields-append,
  set_portnum blank_data d.portnum refl v.portnum,
  set_payload,
  set_want_response,
  set_dest,
  set_source,
  set_request_id,
  set_reply_id,
)

-- Decoding what `encodeData` wrote gives the message back, with any fields at their defaults too.
pub decode_data-encode_data : (d : Data) → IsValid d → decode_data (bytes (encode_data d)) ≡ some d
unfolding decode_data
decode_data-encode_data d v = rw (
  parse_fields-Writes (encode_data d) (data_fields d) (Writes-encode_data d v),
  on_data_fields-data_fields d v,
)
