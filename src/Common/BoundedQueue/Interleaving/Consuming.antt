-- ===== src/Common/BoundedQueue/Interleaving/Consuming.antt =====
-- The steps of `tryPop` of Runtime/include/common/boundedBlockingQueue.hpp, and the invariant.
use mathlib.Core.List.{append_assoc}
use mathlib.Core.Path.{subst}
use vision_runtime.Prelude.{
  ℕ, ◌+◌, ◌%◌, ◌≤◌, ◌<◌, false, ◌≡◌, refl, ap, sym, ◌∙◌, none, List, [], ◌∷◌, ◌++◌, length,
  length-set, arith, Bool-cases, inl, inr,
}
use vision_runtime.Common.BoundedQueue.{
  Queue, word, slot_at, capacity, is_empty, reset_slot, store_head,
}
use vision_runtime.Common.BoundedQueue.Slots.{Holds-set, slot_at-set_ne, distinct_slots}
use vision_runtime.Common.BoundedQueue.Threads.{
  Producer, Consumer, at_rest, to_store, to_write, to_read, to_reset, faulted, System, read_slot,
  move_consumer,
}
use vision_runtime.Common.BoundedQueue.Interleaving.State.{Stored, Prepared, Inv}

module _ {A : Type 0} where
  -- The reset of the oldest value's slot leaves alone what the producer has prepared.
  reset-Prepared :
      (p : Producer A) (q : Queue A) (live : List A)
      → 0 < length live
      → length live ≤ capacity q
      → q.tail ≡ q.head + length live
      → Prepared p q live
      → Prepared p (reset_slot q.head q) live
  unfolding reset_slot
  reset-Prepared at_rest q live n b l h = h
  reset-Prepared (to_write t w) q live n b l h =
      (h.0, omega (arith, h.1, length-set q.slots (q.head % capacity q) none))
  reset-Prepared (to_store t w) q live n b l h = (
    h.0,
    omega (arith, h.1, length-set q.slots (q.head % capacity q) none),
    slot_at-set_ne q.slots q.head q.tail none (
          distinct_slots (capacity q) q.head q.tail (omega arith) (omega arith)
            (omega (arith, h.1)))
        ∙ h.2,
  )

  take-Prepared :
      (p : Producer A) (q : Queue A) (x : A) (xs : List A)
      → Prepared p q (x ∷ xs)
      → Prepared p (store_head q.head q) xs
  unfolding store_head
  take-Prepared at_rest q x xs h = h
  take-Prepared (to_write t w) q x xs h = (h.0, omega (arith, h.1))
  take-Prepared (to_store t w) q x xs h = (h.0, omega (arith, h.1), h.2)

  look-Inv :
      (s : System A) (live : List A)
      → is_empty s.queue ≡ false
      → s.consumer ≡ at_rest
      → Inv s live
      → Inv (record s { consumer = to_read s.queue.head }) live
  unfolding is_empty
  look-Inv s [] m e i = absurd (ground (arith, i.placed))
  look-Inv s (x ∷ xs) m e i = record {
    bounded = i.bounded;
    placed = i.placed;
    small = i.small;
    stored = (refl, subst (λ c. Stored c s.queue (x ∷ xs)) e i.stored);
    prepared = i.prepared;
    accounted = i.accounted;
  }

  read-Inv :
      (h : ℕ) (s : System A) (live : List A)
      → Stored (to_read h) s.queue live
      → Inv s live
      → Inv (record s { consumer = read_slot h (slot_at s.queue.slots h) }) live
  unfolding read_slot
  read-Inv h s [] m i = absurd m
  read-Inv h s (x ∷ xs) m i =
      rw (ap (slot_at s.queue.slots) m.0, m.1.0, read_slot)
        (record {
          bounded = i.bounded;
          placed = i.placed;
          small = i.small;
          stored = (m.0, refl, m.1.1);
          prepared = i.prepared;
          accounted = i.accounted;
        })

  reset-Inv :
      (h : ℕ) (a : A) (s : System A) (live : List A)
      → Stored (to_reset h a) s.queue live
      → Inv s live
      → Inv (record s { queue = reset_slot h s.queue; consumer = to_store h a }) live
  unfolding reset_slot
  reset-Inv h a s [] m i = absurd m
  reset-Inv h a s (x ∷ xs) m i =
      let size = length-set s.queue.slots (s.queue.head % capacity s.queue) none in
      rw m.0 (record {
        bounded = omega (arith, i.bounded, size);
        placed = i.placed;
        small = i.small;
        stored = (
          refl,
          m.1,
          Holds-set s.queue.slots s.queue.head (s.queue.head + 1) none xs
              (λ k l u.
                distinct_slots (capacity s.queue) s.queue.head k (omega (arith, i.bounded))
                  (omega arith) (omega (arith, i.bounded)))
              m.2,
        );
        prepared =
            reset-Prepared s.producer s.queue (x ∷ xs) (omega arith) i.bounded i.placed i.prepared;
        accounted = i.accounted;
      })

  take-Inv :
      (h : ℕ) (a : A) (s : System A) (live : List A)
      → Stored (to_store h a) s.queue live
      → Inv s live
      → (live' : List A) × Inv
          (record s {
            queue = store_head h s.queue;
            consumer = at_rest;
            consumed = s.consumed ++ a ∷ [];
          })
          live'
  unfolding store_head
  take-Inv h a s [] m i = absurd m
  take-Inv h a s (x ∷ xs) m i =
      let next : word (s.queue.head + 1) ≡ s.queue.head + 1 = omega (arith, i.placed, i.small) in
      (
        xs,
        rw (m.0) (record {
          bounded = omega (arith, i.bounded);
          placed = omega (arith, i.placed, next);
          small = i.small;
          stored = rw next m.2;
          prepared = take-Prepared s.producer s.queue x xs i.prepared;
          accounted =
              i.accounted
              ∙ sym (append_assoc s.consumed (x ∷ []) xs)
              ∙ ap (λ y. (s.consumed ++ y ∷ []) ++ xs) m.1;
        }),
      )

  pub consume-Inv :
      (c : Consumer A) (s : System A) (live : List A)
      → s.consumer ≡ c
      → Inv s live
      → (live' : List A) × Inv (move_consumer c s) live'
  unfolding move_consumer
  consume-Inv at_rest s live e i = elim (Bool-cases (is_empty s.queue)) [
    | inl none_there ↦ (live, rw none_there i)
    | inr some_there ↦ (live, rw some_there (look-Inv s live some_there e i))
  ]
  consume-Inv (to_read h) s live e i =
      (live, read-Inv h s live (subst (λ c. Stored c s.queue live) e i.stored) i)
  consume-Inv (to_reset h a) s live e i =
      (live, reset-Inv h a s live (subst (λ c. Stored c s.queue live) e i.stored) i)
  consume-Inv (to_store h a) s live e i =
      take-Inv h a s live (subst (λ c. Stored c s.queue live) e i.stored) i
  consume-Inv faulted s live e i = absurd (subst (λ c. Stored c s.queue live) e i.stored)
