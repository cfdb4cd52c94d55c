-- ===== src/Lora/Airtime.antt =====
-- src/lora/modulator.cpp: how many samples a frame has.
use quadrf_mesh.Base.{
  ℕ, zero, suc, ◌+◌, ◌*◌, ◌/◌, ◌≤◌, ◌≡◌, ap, ◌∙◌, arith, List, [], ◌∷◌, ◌++◌, length, take,
  length-append, length-take,
}
use quadrf_mesh.Lora.Frame.{encode_frame, frame_symbol_count}
use quadrf_mesh.Lora.Blocks.{length-map, length-upto}
use quadrf_mesh.Lora.Length.{length-encode_frame}
use quadrf_mesh.Lora.Modulator.{
  Modulator, samples_per_symbol, build_upchirp, up_chirp, down_chirp, repeated, data_chirps, frame,
  sync_chip0, sync_chip1,
}
use quadrf_mesh.Lora.Transmitter.{Setup, modulated}

module _ {ℓ} {S : Type ℓ} where
  length-build_upchirp :
      (m : Modulator S) (id : ℕ) → length (build_upchirp m id) ≡ samples_per_symbol m
  unfolding build_upchirp samples_per_symbol
  length-build_upchirp m id = length-map _ _ ∙ length-upto _ _

  length-down_chirp : (m : Modulator S) → length (down_chirp m) ≡ samples_per_symbol m
  unfolding down_chirp up_chirp
  length-down_chirp m = length-map _ _ ∙ length-build_upchirp m 0

  length-repeated : (n : ℕ) (xs : List S) → length (repeated n xs) ≡ n * length xs
  unfolding repeated
  length-repeated zero xs = omega arith
  length-repeated (suc n) xs =
      omega (arith, length-append xs (repeated n xs), length-repeated n xs, suc_mul n (length xs))
    where
      suc_mul : (n k : ℕ) → suc n * k ≡ k + n * k
      suc_mul n k = omega arith

  length-data_chirps :
      (m : Modulator S) (chips : List ℕ)
      → length (data_chirps m chips) ≡ length chips * samples_per_symbol m
  unfolding data_chirps
  length-data_chirps m [] = omega arith
  length-data_chirps m (chip ∷ chips) = omega (
    arith,
    length-append (build_upchirp m chip) (data_chirps m chips),
    length-build_upchirp m chip,
    length-data_chirps m chips,
  )

  -- The samples of a frame are as many as `Modulator::frame` reserves.
  pub length-frame :
      (m : Modulator S) (chips : List ℕ)
      → let sps = samples_per_symbol m in
        length (frame m chips) ≡ (m.preamble_len + 4 + length chips) * sps + sps / 4
  unfolding frame up_chirp
  length-frame m chips =
      let sps = samples_per_symbol m in
      let up = build_upchirp m 0 in
      let down = down_chirp m in
      let tail = data_chirps m chips in
      let part = take (sps / 4) down in
      let sync0 = build_upchirp m (sync_chip0 m.sync_word) in
      let sync1 = build_upchirp m (sync_chip1 m.sync_word) in
      omega (
        arith,
        length-append (repeated m.preamble_len up)
            (sync0 ++ (sync1 ++ (down ++ (down ++ (part ++ tail))))),
        length-append sync0 (sync1 ++ (down ++ (down ++ (part ++ tail)))),
        length-append sync1 (down ++ (down ++ (part ++ tail))),
        length-append down (down ++ (part ++ tail)),
        length-append down (part ++ tail),
        length-append part tail,
        length-take (sps / 4) down,
        length-repeated m.preamble_len up,
        ap (◌*◌ m.preamble_len) (length-build_upchirp m 0),
        length-build_upchirp m (sync_chip0 m.sync_word),
        length-build_upchirp m (sync_chip1 m.sync_word),
        length-down_chirp m,
        length-data_chirps m chips,
      )

  -- The samples of a payload are as many as the symbols that `frameSymbolCount` predicts need, with
  -- the preamble, the sync word and the 2.25 downchirps before them, at every spreading factor above
  -- 2 and every rate.
  pub length-modulated :
      (c : Setup S) (payload : List ℕ)
      → let m = c.modulator in
        let sps = samples_per_symbol m in
        3 ≤ m.params.spreading_factor
        → m.params.cr ≤ 4
        → length (modulated c payload)
          ≡ (m.preamble_len + 4 + frame_symbol_count m.params (length payload)) * sps + sps / 4
  unfolding modulated
  length-modulated c payload sf four =
      let m = c.modulator in
      let sps = samples_per_symbol m in
      length-frame m (encode_frame m.params payload)
      ∙ ap (λ (t : ℕ). (m.preamble_len + 4 + t) * sps + sps / 4)
          (length-encode_frame m.params payload sf four)
