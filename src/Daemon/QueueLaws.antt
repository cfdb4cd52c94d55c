-- ===== src/Daemon/QueueLaws.antt =====
-- apps/quadrf_lora_phy.cpp: what the queue of chunks keeps, and which frames count as echoes.
use quadrf_mesh.Base.{
  drop-drop, drop-append_short, append-nil, ℕ, suc, ◌+◌, ◌-◌, ◌≤◌, ◌<◌, ◌^◌, ◌≡◌, refl, sym, ap,
  ap₂, ◌∙◌, arith, inl, inr, Bool, true, false, ◌||◌, List, [], ◌∷◌, ◌++◌, append_assoc, ltb, leb,
  length, length-append, length-drop, drop, Bool-cases,
}
use quadrf_mesh.Base.Words.{u64}
use quadrf_mesh.Daemon.Queues.{
  max_chunks, ChunkQueue, push, max_recent_tx, trim_recent, remember_tx, same_air,
  is_recent_tx_echo,
}

module _ {ℓ} {A : Type ℓ} where
  unfoldable pub push_all : List (List A) → ChunkQueue A → ChunkQueue A
  push_all [] s = s
  push_all (c ∷ chunks) s = push_all chunks (push c s)

  -- One push keeps the newest chunks.
  push_lem :
      (c : List A) (s : ChunkQueue A)
      → length s.q ≤ max_chunks
      → s.dropped < 2 ^ 64
      → ((push c s).q ≡ drop (length s.q + 1 - max_chunks) (s.q ++ (c ∷ [])))
        × ((push c s).dropped ≡ u64 (s.dropped + (length s.q + 1 - max_chunks)))
  unfolding push
  push_lem c s bound fits = elim (Bool-cases (leb max_chunks (length s.q))) [
    | inl full ↦
        let one : length s.q + 1 - max_chunks ≡ 1 = ground (arith, full, bound) in
        rw (full, one) (sym (drop-append_short 1 s.q (c ∷ []) (ground (arith, full))), refl)
    | inr room ↦
        let nothing : length s.q + 1 - max_chunks ≡ 0 = ground (arith, room) in
        rw (room, nothing) (refl, omega arith)
  ]

  -- The queue behind some pushes, with no pop between them, is the newest 32 of the chunks that it
  -- held and those that were pushed, oldest first, and `dropped` counts the others, modulo
  -- 2^64. Before them the queue holds no more than 32, and the count fits its type.
  pub push_all_lem :
      (chunks : List (List A)) (s : ChunkQueue A)
      → length s.q ≤ max_chunks
      → s.dropped < 2 ^ 64
      → let over = length s.q + length chunks - max_chunks in
        ((push_all chunks s).q ≡ drop over (s.q ++ chunks))
        × ((push_all chunks s).dropped ≡ u64 (s.dropped + over))
  unfolding push_all
  push_all_lem [] s bound fits =
      let nothing : length s.q + 0 - max_chunks ≡ 0 = omega arith in
      rw nothing (sym (append-nil s.q), omega arith)
  push_all_lem (c ∷ chunks) s bound fits =
      let a = length s.q + 1 - max_chunks in
      let (one, count) = push_lem c s bound fits in
      let whole = length-append s.q (c ∷ []) in
      let size : length (push c s).q ≡ length s.q + 1 - a =
        omega (arith, ap length one, length-drop a (s.q ++ (c ∷ [])), whole) in
      let (rest, counts) =
        push_all_lem chunks (push c s) (omega (arith, size)) (omega (arith, count)) in
      let b = length (push c s).q + length chunks - max_chunks in
      let both : a + b ≡ length s.q + suc (length chunks) - max_chunks = omega (arith, size) in
      (
        rest
            ∙ ap (λ t. drop b (t ++ chunks)) one
            ∙ ap (drop b)
                (sym (drop-append_short a (s.q ++ (c ∷ [])) chunks (omega (arith, whole))))
            ∙ drop-drop b a ((s.q ++ (c ∷ [])) ++ chunks)
            ∙ ap₂ drop both (append_assoc s.q (c ∷ []) chunks),
        counts ∙ omega (arith, count, both),
      )

unfoldable pub remember_all : List (List ℕ) → List (List ℕ) → List (List ℕ)
remember_all [] recent = recent
remember_all (air ∷ airs) recent = remember_all airs (remember_tx air recent)

trim_recent_lem :
    (recent : List (List ℕ)) → trim_recent recent ≡ drop (length recent - max_recent_tx) recent
unfolding trim_recent
trim_recent_lem [] = refl
trim_recent_lem (air ∷ recent) = elim (Bool-cases (ltb max_recent_tx (length (air ∷ recent)))) [
  | inl long ↦
      let more : length (air ∷ recent) - max_recent_tx ≡ suc (length recent - max_recent_tx) =
        ground (arith, long) in
      rw (long, more) (trim_recent_lem recent)
  | inr short ↦
      let nothing : length (air ∷ recent) - max_recent_tx ≡ 0 = ground (arith, short) in
      rw (short, nothing) refl
]

same_air_refl : (air : List ℕ) → same_air air air ≡ true
unfolding same_air
same_air_refl [] = refl
same_air_refl (x ∷ air) = ground (arith, same_air_refl air)

echo_of : (xs ys : List (List ℕ)) (air : List ℕ) → is_recent_tx_echo air (xs ++ (air ∷ ys)) ≡ true
unfolding is_recent_tx_echo
echo_of [] ys air = rw (same_air_refl air) refl
echo_of (x ∷ xs) ys air = rw (echo_of xs ys air) (or_true (same_air x air))
  where
    or_true : (b : Bool) → (b || true) ≡ true
    or_true true = refl
    or_true false = refl

-- A frame that stands in the list with fewer than 8 behind it, is found after the next ones.
echo_after :
    (airs xs ys : List (List ℕ)) (air : List ℕ)
    → length ys + length airs < max_recent_tx
    → is_recent_tx_echo air (remember_all airs (xs ++ (air ∷ ys))) ≡ true
unfolding remember_all remember_tx
echo_after [] xs ys air room = echo_of xs ys air
echo_after (next ∷ airs) xs ys air room =
    let whole = (xs ++ (air ∷ ys)) ++ (next ∷ []) in
    let k = length whole - max_recent_tx in
    let moved : whole ≡ xs ++ (air ∷ (ys ++ (next ∷ []))) =
      append_assoc xs (air ∷ ys) (next ∷ []) in
    let size = length-append xs (air ∷ (ys ++ (next ∷ []))) in
    let last = length-append ys (next ∷ []) in
    let fits : k ≤ length xs = omega (arith, ap length moved, size, last, room) in
    let kept : trim_recent whole ≡ drop k xs ++ (air ∷ (ys ++ (next ∷ []))) =
      trim_recent_lem whole
      ∙ ap (drop k) moved
      ∙ drop-append_short k xs (air ∷ (ys ++ (next ∷ []))) fits in
    ap (λ t. is_recent_tx_echo air (remember_all airs t)) kept
    ∙ echo_after airs (drop k xs) (ys ++ (next ∷ [])) air (omega (arith, last, room))

-- A frame that was remembered as sent counts as an echo when it is received, while up to 7 other
-- frames have been remembered behind it.
pub is_recent_tx_echo-remember_all :
    (air : List ℕ) (recent airs : List (List ℕ))
    → length airs < max_recent_tx
    → is_recent_tx_echo air (remember_all airs (remember_tx air recent)) ≡ true
unfolding remember_tx
is_recent_tx_echo-remember_all air recent airs few =
    let whole = recent ++ (air ∷ []) in
    let k = length whole - max_recent_tx in
    let size = length-append recent (air ∷ []) in
    ap (λ t. is_recent_tx_echo air (remember_all airs t))
      (trim_recent_lem whole ∙ drop-append_short k recent (air ∷ []) (omega (arith, size)))
    ∙ echo_after airs (drop k recent) [] air (omega (arith, few))
