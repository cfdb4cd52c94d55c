-- ===== src/Lora/Modulator.antt =====
-- src/lora/modulator.cpp with include/phy/lora/params.hpp: the samples of a frame. `S` is the type
-- of a sample. The sample of a chirp, computed in floating point from the chip value, the side of
-- the fold and the index, is the parameter `chirp_sample`, and `std::conj` the parameter `conj`.
use quadrf_mesh.Base.{
  ℕ, zero, suc, ◌+◌, ◌-◌, ◌*◌, ◌/◌, Bool, not, List, [], ◌∷◌, ◌++◌, map, ltb, take,
}
use quadrf_mesh.Base.Words.{u16, u32, shl, shr, low_bits}
use quadrf_mesh.Lora.Frame.{LoraParams, chip_count}
use quadrf_mesh.Lora.Blocks.{upto}

-- The members of a modulator, and of its `LoraParams` those that the coding does not read.
-- `os_factor` is the rounded quotient of the sample rate and the bandwidth.
pub record Modulator {ℓ} (S : Type ℓ) : Type ℓ where
  pub params : LoraParams
  pub sync_word : ℕ
  pub preamble_len : ℕ
  pub os_factor : ℕ
  pub chirp_sample : ℕ → Bool → ℕ → S
  pub conj : S → S

unfoldable pub sync_chip0 : ℕ → ℕ
sync_chip0 sync_word = u16 (shl (low_bits (shr sync_word 4) 4) 3)

unfoldable pub sync_chip1 : ℕ → ℕ
sync_chip1 sync_word = u16 (shl (low_bits sync_word 4) 3)

module _ {ℓ} {S : Type ℓ} where
  unfoldable pub samples_per_symbol : Modulator S → ℕ
  samples_per_symbol m = u32 (chip_count m.params * m.os_factor)

  unfoldable pub build_upchirp : Modulator S → ℕ → List S
  build_upchirp m id =
      let total = u32 (chip_count m.params * m.os_factor) in
      let n_fold = u32 (total + shl 1 32 - u32 (id * m.os_factor)) in
      map (λ n. m.chirp_sample id (not (ltb n n_fold)) n) (upto 0 total)

  unfoldable pub up_chirp : Modulator S → List S
  up_chirp m = build_upchirp m 0

  unfoldable pub down_chirp : Modulator S → List S
  down_chirp m = map m.conj (up_chirp m)

  -- The same samples, `n` times.
  unfoldable pub repeated : ℕ → List S → List S
  repeated zero xs = []
  repeated (suc n) xs = xs ++ repeated n xs

  unfoldable pub data_chirps : Modulator S → List ℕ → List S
  data_chirps m [] = []
  data_chirps m (chip ∷ chips) = build_upchirp m chip ++ data_chirps m chips

  unfoldable pub frame : Modulator S → List ℕ → List S
  frame m chips =
      repeated m.preamble_len (up_chirp m)
      ++ (build_upchirp m (sync_chip0 m.sync_word)
          ++ (build_upchirp m (sync_chip1 m.sync_word)
              ++ (down_chirp m
                  ++ (down_chirp m
                      ++ (take (samples_per_symbol m / 4) (down_chirp m) ++ data_chirps m chips)))))
