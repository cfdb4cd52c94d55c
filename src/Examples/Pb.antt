-- ===== src/Examples/Pb.antt =====
-- Concrete bytes for src/bridge/pb_wire.cpp.
use quadrf_mesh.Base.{◌≡◌, arith, [], ◌∷◌}
use quadrf_mesh.Base.Words.{bytes}
use quadrf_mesh.Pb.Wire.{parse_loop, parse_fields}
use quadrf_mesh.Pb.Fields.{Outcome, parse_fields_terminates}

parse_fields_terminates_example :
    (parse_loop 100 (8 ∷ 1 ∷ 16 ∷ 2 ∷ []) [] ≡ parse_fields (bytes (8 ∷ 1 ∷ 16 ∷ 2 ∷ [])))
    × Outcome (8 ∷ 1 ∷ 16 ∷ 2 ∷ []) [] (parse_fields (bytes (8 ∷ 1 ∷ 16 ∷ 2 ∷ [])))
parse_fields_terminates_example = parse_fields_terminates (8 ∷ 1 ∷ 16 ∷ 2 ∷ []) 100 (omega arith)
