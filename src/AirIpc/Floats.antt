-- ===== src/AirIpc/Floats.antt =====
-- Single precision floats: the operations that include/quadrf/air_ipc.hpp uses of the
-- implementation's `float`, which is no code of the repository, so all of them are parameters.
-- The laws say only that a cast to `intN_t` gives an N-bit pattern.
use quadrf_mesh.Base.{ℕ, ◌^◌, ◌<◌, Bool}

pub record FloatOps : Type 1 where
  pub Float : Type 0
  pub mul : Float → Float → Float
  pub add : Float → Float → Float
  pub sub : Float → Float → Float
  pub lt : Float → Float → Bool
  pub le : Float → Float → Bool
  -- 100.0f, 0.01f, 0.0f, 0.5f, and the limits of int16_t and int32_t as floats.
  pub hundred : Float
  pub hundredth : Float
  pub zero_f : Float
  pub half : Float
  pub i16_max : Float
  pub i16_min : Float
  pub i32_max : Float
  pub i32_min : Float
  pub of_i16 : ℕ → Float
  pub of_i32 : ℕ → Float
  pub to_i16 : Float → ℕ
  pub to_i32 : Float → ℕ
  pub to_i16-lt : (x : Float) → to_i16 x < 2 ^ 16
  pub to_i32-lt : (x : Float) → to_i32 x < 2 ^ 32
