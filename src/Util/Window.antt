-- ===== src/Util/Window.antt =====
-- include/phy/util/ring_buffer.hpp: the part of the vector that holds samples.
use quadrf_mesh.Base.{
  ℕ, zero, suc, ◌+◌, ◌-◌, ◌%◌, ◌≤◌, ◌<◌, ◌≡◌, ◌≢◌, refl, ap, ap₂, ◌∙◌, arith, ◌⊎◌, inl, inr, List,
  [], ◌∷◌, ◌++◌, length, get_or, set, take, drop, length-set, get_or-set_self, get_or-set_ne,
}
use native.Mathlib.Nat.{mod-eq_of_lt, mod_self}
use quadrf_mesh.Util.RingBuffer.{next_pos, read_samples}

next_pos-inside : (c pos : ℕ) → pos + 1 < c → next_pos c pos ≡ pos + 1
unfolding next_pos
next_pos-inside c pos h = mod-eq_of_lt h

next_pos-end : (c pos : ℕ) → pos + 1 ≡ c → next_pos c pos ≡ 0
unfolding next_pos
next_pos-end c pos h = ap (λ t. t % c) h ∙ mod_self c

-- The position `m` places ahead.
abbrev pub ahead : ℕ → ℕ → ℕ → ℕ
ahead c pos zero = pos
ahead c pos (suc m) = ahead c (next_pos c pos) m

pub ahead_lem :
    (c pos m : ℕ)
    → pos < c
    → m < c
    → ((ahead c pos m ≡ pos + m) × (pos + m < c)) ⊎ ((ahead c pos m + c ≡ pos + m) × (c ≤ pos + m))
ahead_lem c pos zero h k = inl (omega arith, omega arith)
ahead_lem c pos (suc m) h k = elim (side (pos + 1) c (omega arith)) [
  | inl less ↦
      let e = next_pos-inside c pos less in
      omega (arith, e, ahead_lem c (next_pos c pos) m (omega (arith, e)) (omega arith))
  | inr last ↦
      let e = next_pos-end c pos last in
      omega (arith, e, ahead_lem c (next_pos c pos) m (omega (arith, e)) (omega arith))
]
  where
    side : (a c : ℕ) → a ≤ c → (a < c) ⊎ (a ≡ c)
    side a c h = omega arith

pub ahead-lt : (c pos m : ℕ) → pos < c → m < c → ahead c pos m < c
ahead-lt c pos m h k = omega (arith, ahead_lem c pos m h k)

-- A place ahead is another place, within one turn.
ahead-ne : (c pos m : ℕ) → pos < c → suc m < c → ahead c pos (suc m) ≢ pos
ahead-ne c pos m h k e = omega (arith, ahead_lem c pos (suc m) h k, e)

pub next_pos-ahead : (c pos m : ℕ) → next_pos c (ahead c pos m) ≡ ahead c pos (suc m)
next_pos-ahead c pos zero = refl
next_pos-ahead c pos (suc m) = next_pos-ahead c (next_pos c pos) m

next_pos-lt : (c pos : ℕ) → pos < c → next_pos c pos < c
next_pos-lt c pos h = elim (side (pos + 1) c (omega arith)) [
  | inl less ↦ omega (arith, next_pos-inside c pos less)
  | inr last ↦ omega (arith, next_pos-end c pos last)
]
  where
    side : (a c : ℕ) → a ≤ c → (a < c) ⊎ (a ≡ c)
    side a c h = omega arith

-- A whole turn.
pub ahead-lt_suc : (c pos m : ℕ) → pos < c → m ≤ c → ahead c pos m < c
ahead-lt_suc c pos zero h k = h
ahead-lt_suc c pos (suc m) h k = ahead-lt c (next_pos c pos) m (next_pos-lt c pos h) (omega arith)

pub ahead-ahead : (c pos n m : ℕ) → ahead c (ahead c pos n) m ≡ ahead c pos (n + m)
ahead-ahead c pos zero m = ap (ahead c pos) {x = m} {y = 0 + m} (omega arith)
ahead-ahead c pos (suc n) m = ahead-ahead c (next_pos c pos) n m ∙ ap (ahead c pos) (more n m)
  where
    more : (n m : ℕ) → suc (n + m) ≡ suc n + m
    more n m = omega arith

module _ {ℓ} {A : Type ℓ} (blank : A) where
  -- The `n` samples from `pos` on.
  abbrev pub window : List A → ℕ → ℕ → List A
  window xs pos n = (read_samples xs blank pos n).0

  pub length-window : (xs : List A) (pos n : ℕ) → length (window xs pos n) ≡ n
  unfolding read_samples
  length-window xs pos zero = refl
  length-window xs pos (suc n) = omega (arith, length-window xs (next_pos (length xs) pos) n)

  pub read_samples_end :
      (xs : List A) (pos n : ℕ) → (read_samples xs blank pos n).1 ≡ ahead (length xs) pos n
  unfolding read_samples
  read_samples_end xs pos zero = refl
  read_samples_end xs pos (suc n) = read_samples_end xs (next_pos (length xs) pos) n

  pub take-window : (xs : List A) (pos n m : ℕ) → n ≤ m → take n (window xs pos m) ≡ window xs pos n
  unfolding read_samples
  take-window xs pos zero m h = refl
  take-window xs pos (suc n) zero h = absurd (omega arith)
  take-window xs pos (suc n) (suc m) h =
      ap (◌∷◌ (get_or xs pos blank)) (take-window xs (next_pos (length xs) pos) n m (omega arith))

  pub drop-window :
      (xs : List A) (pos n m : ℕ)
      → n ≤ m
      → drop n (window xs pos m) ≡ window xs (ahead (length xs) pos n) (m - n)
  unfolding read_samples
  drop-window xs pos zero m h = ap (window xs pos) (omega arith)
  drop-window xs pos (suc n) zero h = absurd (omega arith)
  drop-window xs pos (suc n) (suc m) h =
      drop-window xs (next_pos (length xs) pos) n m (omega arith)
      ∙ ap (window xs (ahead (length xs) (next_pos (length xs) pos) n)) (omega arith)

  -- One more sample at the window's end.
  window-suc :
      (xs : List A) (pos n : ℕ)
      → window xs pos (suc n) ≡ window xs pos n ++ (get_or xs (ahead (length xs) pos n) blank ∷ [])
  unfolding read_samples
  window-suc xs pos zero = refl
  window-suc xs pos (suc n) =
      ap (◌∷◌ (get_or xs pos blank)) (window-suc xs (next_pos (length xs) pos) n)

  -- A write behind the window leaves it.
  window-set :
      (xs : List A) (v : A) (pos n m : ℕ)
      → pos < length xs
      → n ≤ m
      → m < length xs
      → window (set xs (ahead (length xs) pos m) v) pos n ≡ window xs pos n
  unfolding read_samples
  window-set xs v pos zero m h k l = refl
  window-set xs v pos (suc n) zero h k l = absurd (omega arith)
  window-set xs v pos (suc n) (suc m) h k l = rw (length-set xs (ahead (length xs) pos (suc m)) v) (
      ap₂ ◌∷◌
        (get_or-set_ne xs (ahead (length xs) pos (suc m)) pos v blank
          (ahead-ne (length xs) pos m h l))
        (window-set xs v (next_pos (length xs) pos) n m (next_pos-lt (length xs) pos h)
          (omega arith) (omega arith)))

  -- The write of `push` adds its sample at the end of the window.
  pub window-push :
      (xs : List A) (v : A) (pos n : ℕ)
      → pos < length xs
      → n < length xs
      → window (set xs (ahead (length xs) pos n) v) pos (suc n) ≡ window xs pos n ++ (v ∷ [])
  window-push xs v pos n h k =
      let at = ahead (length xs) pos n in
      let size = length-set xs at v in
      window-suc (set xs at v) pos n
      ∙ ap₂ (λ front last. front ++ (last ∷ [])) (window-set xs v pos n n h (omega arith) k)
          (ap (λ t. get_or (set xs at v) (ahead t pos n) blank) size
            ∙ get_or-set_self xs at v blank (ahead-lt (length xs) pos n h k))
