-- ===== src/Examples/Stream.antt =====
-- Concrete byte streams of src/stream/framer.cpp.
use quadrf_mesh.Base.{ℕ, ◌≡◌, refl, arith, List, [], ◌∷◌, All}
use quadrf_mesh.Base.Words.{bytes}
use quadrf_mesh.Stream.Framer.{frame, framed, feed, fresh}
use quadrf_mesh.Stream.Framing.{Wire, scanning, stream_feed-Wire}
use quadrf_mesh.Stream.Soundness.{OnWire, stream_feed-OnWire}

abbrev two_frames : List ℕ
two_frames = 5 ∷ 0x94 ∷ 0xc3 ∷ 0 ∷ 2 ∷ 0x94 ∷ 7 ∷ 0x94 ∷ 0xc3 ∷ 0 ∷ 0 ∷ 6 ∷ []

two_frames-Wire : Wire ((0x94 ∷ 7 ∷ []) ∷ [] ∷ []) two_frames
unfolding frame framed
two_frames-Wire =
    Wire.next (5 ∷ []) (0x94 ∷ 7 ∷ []) (0x94 ∷ 0xc3 ∷ 0 ∷ 2 ∷ 0x94 ∷ 7 ∷ []) (omega arith, _) refl
      (Wire.next [] [] (0x94 ∷ 0xc3 ∷ 0 ∷ 0 ∷ []) _ refl (Wire.done (6 ∷ []) (omega arith, _)))

stream_feed-Wire_example :
    feed (scanning 3 1) (bytes two_frames) []
    ≡ record { deframer = scanning 5 1; output = (0x94 ∷ 7 ∷ []) ∷ [] ∷ []; produced = 2 }
stream_feed-Wire_example = stream_feed-Wire 3 1 [] (omega arith) two_frames-Wire

stream_feed-OnWire_example : All (OnWire two_frames) (feed fresh (bytes two_frames) []).output
stream_feed-OnWire_example = stream_feed-OnWire two_frames (ground arith)

abbrev seven : List ℕ
seven = 7 ∷ []

abbrev framed_seven : List ℕ
framed_seven = 0x94 ∷ 0xc3 ∷ 0 ∷ 1 ∷ 7 ∷ []
