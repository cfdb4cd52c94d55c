-- ===== src/AirIpc/Appending.antt =====
-- include/quadrf/air_ipc.hpp: the vector that `feed` appends to does not matter to the deframer.
use quadrf_mesh.Base.{
  ℕ, ◌≡◌, refl, sym, ap, ◌∙◌, List, [], ◌∷◌, ◌++◌, append-nil, append_assoc, ◌==◌, length,
  Bool-cases, inl, inr,
}
use quadrf_mesh.Base.Words.{bytes}
use quadrf_mesh.AirIpc.Deframer.{State, Frame, Deframer, Fed, on_byte, feed_loop, feed}
use quadrf_mesh.AirIpc.Framing.{feed_loop-cons, feed-append}

-- `fed` behind what `output` held.
abbrev behind : List Frame → Fed → Fed
behind output fed = record fed { output = output ++ fed.output }

on_byte-behind :
    (st : State) (d : Deframer) (output : List Frame) (p b : ℕ)
    → on_byte st d output p b ≡ behind output (on_byte st d [] p b)
unfolding on_byte
on_byte-behind State.scan_magic0 d output p b = simp append-nil refl
on_byte-behind State.expect_magic1 d output p b = simp append-nil refl
on_byte-behind State.version d output p b = simp append-nil refl
on_byte-behind State.type d output p b = simp append-nil refl
on_byte-behind State.len_hi d output p b = simp append-nil refl
on_byte-behind State.len_lo d output p b = simp append-nil refl
on_byte-behind State.body d output p b =
    elim (Bool-cases (length (d.body ++ (b ∷ [])) == d.body_length)) [
      | inl full ↦ rw full refl
      | inr more ↦ rw more (simp append-nil refl)
    ]

feed_loop-behind :
    (xs : List ℕ) (d : Deframer) (output : List Frame) (p : ℕ)
    → feed_loop (record { deframer = d; output = output; produced = p }) xs
      ≡ behind output (feed_loop (record { deframer = d; output = []; produced = p }) xs)
feed_loop-behind [] d output p = unfold feed_loop in simp append-nil refl
feed_loop-behind (b ∷ bs) d output p =
    let f = on_byte d.state d [] p b in
    let r = feed_loop (record f { output = [] }) bs in
    simp (feed_loop-cons, on_byte-behind d.state d output p b)
      (feed_loop-behind bs f.deframer (output ++ f.output) f.produced
        ∙ ap (λ t. record r { output = t }) (append_assoc output f.output r.output)
        ∙ ap (behind output) (sym (feed_loop-behind bs f.deframer f.output f.produced)))

-- Two calls in a row leave the object, and the frames of both in order, that one call on the
-- concatenation leaves.
pub feed-append_fresh :
    (xs ys : List ℕ) (d : Deframer)
    → let first = feed d (bytes xs) [] in
      let second = feed first.deframer (bytes ys) [] in
      ((feed d (bytes (xs ++ ys)) []).deframer ≡ second.deframer)
      × ((feed d (bytes (xs ++ ys)) []).output ≡ first.output ++ second.output)
unfolding feed
feed-append_fresh xs ys d =
    let first = feed d (bytes xs) [] in
    let whole = feed-append xs ys d [] in
    let later = feed_loop-behind ys first.deframer first.output 0 in
    (
      ap (λ (r : Fed). r.deframer) whole ∙ ap (λ (r : Fed). r.deframer) later,
      ap (λ (r : Fed). r.output) whole ∙ ap (λ (r : Fed). r.output) later,
    )
