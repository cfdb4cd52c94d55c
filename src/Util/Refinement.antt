-- ===== src/Util/Refinement.antt =====
-- include/phy/util/ring_buffer.hpp: the ring is a bounded queue, whatever the order in which the
-- two threads enter their operations.
use quadrf_mesh.Base.{
  take-nil, no_items, take-min, drop-min, drop-nil, ℕ, zero, suc, ◌+◌, ◌-◌, ◌≤◌, ◌<◌, ◌≡◌, refl,
  sym, ap, ap₂, ◌∙◌, arith, ◌⊎◌, inl, inr, min, true, false, List, [], ◌∷◌, ◌++◌, length, set, take,
  drop, length-set, append_assoc, append-nil, ltb, ◌==◌,
}
use quadrf_mesh.Util.RingBuffer.{
  RingBuffer, filled, new_ring, free_locked, next_pos, write_samples, push, read_samples, pop,
}
use quadrf_mesh.Util.Queue.{Op, push_op, pop_op, Reply, pushed, popped, queue_step, queue_run}
use quadrf_mesh.Util.Window.{
  ahead, ahead-ahead, next_pos-ahead, ahead-lt_suc, window, length-window, read_samples_end,
  take-window, drop-window, window-push,
}

module _ {ℓ} {A : Type ℓ} (blank : A) where
  unfoldable pub ring_step : RingBuffer A → Op A → Reply A × RingBuffer A
  ring_step r (push_op samples) = let out = push r samples in (pushed out.0, out.1)
  ring_step r (pop_op max_count) = let out = pop blank r max_count in (popped out.0, out.1)

  unfoldable pub ring_run : RingBuffer A → List (Op A) → List (Reply A)
  ring_run r [] = []
  ring_run r (op ∷ ops) = let next = ring_step r op in next.0 ∷ ring_run next.1 ops

  abbrev pub contents : RingBuffer A → List A
  contents r = window blank r.data_ r.read_pos r.size

  pub record IsRing (capacity : ℕ) (r : RingBuffer A) : Type ℓ where
    pub whole : length r.data_ ≡ capacity
    pub reads : r.read_pos < capacity
    pub held : r.size ≤ capacity
    pub writes : r.write_pos ≡ ahead capacity r.read_pos r.size

  length-filled : (n : ℕ) → length (filled n blank) ≡ n
  unfolding filled
  length-filled zero = refl
  length-filled (suc n) = omega (arith, length-filled n)

  new_ring-IsRing : (capacity : ℕ) → 0 < capacity → IsRing capacity (new_ring capacity blank)
  unfolding new_ring
  new_ring-IsRing capacity pos = record {
    whole = length-filled capacity;
    reads = pos;
    held = omega arith;
    writes = refl;
  }

  -- What the loop of `push` leaves, `n` samples being stored before it.
  record Written (r s : RingBuffer A) (n : ℕ) (samples : List A) : Type ℓ where
    whole : length s.data_ ≡ length r.data_
    reads : s.read_pos ≡ r.read_pos
    writes : s.write_pos ≡ ahead (length r.data_) r.read_pos (n + length samples)
    stored :
        window blank s.data_ r.read_pos (n + length samples)
        ≡ window blank r.data_ r.read_pos n ++ samples

  write_samples_lem :
      (r : RingBuffer A) (n : ℕ) (samples : List A)
      → r.read_pos < length r.data_
      → n + length samples ≤ length r.data_
      → r.write_pos ≡ ahead (length r.data_) r.read_pos n
      → Written r (write_samples r samples) n samples
  unfolding write_samples
  write_samples_lem r n [] inside room at = record {
    whole = refl;
    reads = refl;
    writes = at ∙ ap (ahead (length r.data_) r.read_pos) (nothing n);
    stored = ap (window blank r.data_ r.read_pos) (sym (nothing n)) ∙ sym (append-nil _);
  }
    where
      nothing : (n : ℕ) → n ≡ n + 0
      nothing n = omega arith
  write_samples_lem r n (x ∷ samples) inside room at =
      let one = record r {
        data_ = set r.data_ r.write_pos x;
        write_pos = next_pos (length r.data_) r.write_pos;
      } in
      let size : length one.data_ ≡ length r.data_ = length-set r.data_ r.write_pos x in
      let rest =
        write_samples_lem one (suc n) samples (omega (arith, size, inside))
          (omega (arith, size, room))
          (ap (next_pos (length r.data_)) at
            ∙ next_pos-ahead (length r.data_) r.read_pos n
            ∙ ap (λ t. ahead t r.read_pos (suc n)) (sym size)) in
      let first : window blank one.data_ r.read_pos (suc n)
          ≡ window blank r.data_ r.read_pos n ++ (x ∷ []) =
        ap (λ t. window blank (set r.data_ t x) r.read_pos (suc n)) at
        ∙ window-push blank r.data_ x r.read_pos n inside (omega (arith, room)) in
      record {
        whole = rest.whole ∙ size;
        reads = rest.reads;
        writes = rest.writes ∙ ap₂ (λ t m. ahead t r.read_pos m) size (more n (length samples));
        stored =
            ap (window blank _ r.read_pos) (sym (more n (length samples)))
            ∙ rest.stored
            ∙ ap (λ t. t ++ samples) first
            ∙ append_assoc (window blank r.data_ r.read_pos n) (x ∷ []) samples;
      }
    where
      more : (n m : ℕ) → suc n + m ≡ n + suc m
      more n m = omega arith

  -- One operation: the reply and the contents are the queue's, and the ring stays well formed.
  record Refines (capacity : ℕ) (ring : Reply A × RingBuffer A) (queue : Reply A × List A)
      : Type ℓ where
    same_reply : ring.0 ≡ queue.0
    same_contents : contents ring.1 ≡ queue.1
    still : IsRing capacity ring.1

  push-Refines :
      (capacity : ℕ) (r : RingBuffer A) (samples : List A)
      → IsRing capacity r
      → Refines capacity
          (ring_step r (push_op samples))
          (queue_step capacity (contents r) (push_op samples))
  unfolding ring_step queue_step push free_locked
  push-Refines capacity r samples ok =
      let size : length (contents r) ≡ r.size = length-window blank r.data_ r.read_pos r.size in
      elim (side (r.size + length samples) capacity) [
        | inl room ↦
            let fits : ltb (length r.data_ - r.size) (length samples) ≡ false =
              ground (arith, ok.whole, ok.held, room) in
            let fits_q : ltb capacity (length (contents r) + length samples) ≡ false =
              ground (arith, size, room) in
            let w =
              write_samples_lem r r.size samples (omega (arith, ok.whole, ok.reads))
                (omega (arith, ok.whole, room))
                (ok.writes ∙ ap (λ t. ahead t r.read_pos r.size) (sym ok.whole)) in
            rw (fits, fits_q)
              (record {
                same_reply = refl;
                same_contents =
                    ap
                      (λ t.
                        window blank (write_samples r samples).data_ t (r.size + length samples))
                      w.reads
                    ∙ w.stored;
                still = record {
                  whole = w.whole ∙ ok.whole;
                  reads = omega (arith, w.reads, ok.reads);
                  held = room;
                  writes =
                      w.writes
                      ∙ ap₂ (λ c t. ahead c t (r.size + length samples)) ok.whole (sym w.reads);
                };
              })
        | inr full ↦
            let fits : ltb (length r.data_ - r.size) (length samples) ≡ true =
              ground (arith, ok.whole, ok.held, full) in
            let fits_q : ltb capacity (length (contents r) + length samples) ≡ true =
              ground (arith, size, full) in
            rw (fits, fits_q) (record { same_reply = refl; same_contents = refl; still = ok })
      ]
    where
      side : (n m : ℕ) → (n ≤ m) ⊎ (m < n)
      side n m = omega arith

  pop-Refines :
      (capacity : ℕ) (r : RingBuffer A) (max_count : ℕ)
      → IsRing capacity r
      → Refines capacity
          (ring_step r (pop_op max_count))
          (queue_step capacity (contents r) (pop_op max_count))
  unfolding ring_step queue_step pop
  pop-Refines capacity r max_count ok =
      let n = min max_count r.size in
      let whole_window = window blank r.data_ r.read_pos r.size in
      let size : length whole_window ≡ r.size = length-window blank r.data_ r.read_pos r.size in
      let bound : n ≤ r.size = omega arith in
      let taken : take max_count whole_window ≡ window blank r.data_ r.read_pos n =
        take-min max_count whole_window
        ∙ ap (λ t. take (min max_count t) whole_window) size
        ∙ take-window blank r.data_ r.read_pos n r.size bound in
      let left : drop max_count whole_window
          ≡ window blank r.data_ (ahead (length r.data_) r.read_pos n) (r.size - n) =
        drop-min max_count whole_window
        ∙ ap (λ t. drop (min max_count t) whole_window) size
        ∙ drop-window blank r.data_ r.read_pos n r.size bound in
      let moved : (read_samples r.data_ blank r.read_pos n).1 ≡ ahead capacity r.read_pos n =
        read_samples_end blank r.data_ r.read_pos n ∙ ap (λ t. ahead t r.read_pos n) ok.whole in
      elim (side r.size) [
        | inl empty ↦
            let is_empty : (r.size == 0) ≡ true = ground (arith, empty) in
            let no_samples : whole_window ≡ [] = no_items whole_window (size ∙ empty) in
            rw is_empty (record {
              same_reply = ap popped (sym (ap (take max_count) no_samples ∙ take-nil max_count));
              same_contents =
                  no_samples ∙ sym (ap (drop max_count) no_samples ∙ drop-nil max_count);
              still = ok;
            })
        | inr some ↦
            let is_some : (r.size == 0) ≡ false = ground (arith, some) in
            rw is_some (record {
              same_reply = ap popped (sym taken);
              same_contents =
                  ap (λ t. window blank r.data_ t (r.size - n))
                    (read_samples_end blank r.data_ r.read_pos n)
                  ∙ sym left;
              still = record {
                whole = ok.whole;
                reads = omega (
                  arith,
                  moved,
                  ahead-lt_suc capacity r.read_pos n ok.reads (omega (arith, ok.held)),
                );
                held = omega (arith, ok.held);
                writes =
                    ok.writes
                    ∙ ap (ahead capacity r.read_pos) {x = r.size} {y = n + (r.size - n)}
                        (omega arith)
                    ∙ sym (ahead-ahead capacity r.read_pos n (r.size - n))
                    ∙ ap (λ t. ahead capacity t (r.size - n)) (sym moved);
              };
            })
      ]
    where
      side : (n : ℕ) → (n ≡ 0) ⊎ (0 < n)
      side n = omega arith

  ring_step-Refines :
      (capacity : ℕ) (r : RingBuffer A) (op : Op A)
      → IsRing capacity r
      → Refines capacity (ring_step r op) (queue_step capacity (contents r) op)
  ring_step-Refines capacity r (push_op samples) ok = push-Refines capacity r samples ok
  ring_step-Refines capacity r (pop_op max_count) ok = pop-Refines capacity r max_count ok

  ring_run_lem :
      (capacity : ℕ) (r : RingBuffer A) (ops : List (Op A))
      → IsRing capacity r
      → ring_run r ops ≡ queue_run capacity (contents r) ops
  unfolding ring_run queue_run
  ring_run_lem capacity r [] ok = refl
  ring_run_lem capacity r (op ∷ ops) ok =
      let step = ring_step-Refines capacity r op ok in
      ap₂ ◌∷◌ step.same_reply (
        ring_run_lem capacity (ring_step r op).1 ops step.still
        ∙ ap (λ t. queue_run capacity t ops) step.same_contents)

  -- A ring of some capacity answers every sequence of pushes and pops, the two threads' operations
  -- in any order, as a first-in first-out queue of that capacity does: a push that does not fit is
  -- refused and changes nothing, any other is taken whole, and a pop returns the oldest samples.
  pub ring_run-queue_run :
      (capacity : ℕ) (ops : List (Op A))
      → 0 < capacity
      → ring_run (new_ring capacity blank) ops ≡ queue_run capacity [] ops
  unfolding new_ring read_samples
  ring_run-queue_run capacity ops pos =
      ring_run_lem capacity (new_ring capacity blank) ops (new_ring-IsRing capacity pos)
