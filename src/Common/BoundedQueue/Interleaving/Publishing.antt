-- ===== src/Common/BoundedQueue/Interleaving/Publishing.antt =====
-- The steps of `tryPush` of Runtime/include/common/boundedBlockingQueue.hpp, and the invariant.
use mathlib.Core.List.{append_assoc}
use mathlib.Core.Path.{subst}
use vision_runtime.Prelude.{
  ℕ, ◌+◌, ◌%◌, ◌^◌, ◌≤◌, ◌<◌, true, ◌≡◌, refl, ap, sym, ◌∙◌, some, List, [], ◌∷◌, ◌++◌, length,
  length-append, length-set, set, arith, Bool-cases, inl, inr,
}
use vision_runtime.Common.BoundedQueue.{Queue, slot_at, capacity, may_push, write_slot, store_tail}
use vision_runtime.Common.BoundedQueue.Slots.{
  Holds, Holds-set, Holds-append, slot_at-set_self, distinct_slots,
}
use vision_runtime.Common.BoundedQueue.Threads.{
  Producer, Consumer, at_rest, to_store, to_write, to_read, to_reset, faulted, System,
  move_producer,
}
use vision_runtime.Common.BoundedQueue.Interleaving.State.{Stored, Prepared, Inv}

module _ {A : Type 0} where
  -- A write to the slot of the tail leaves alone the values before it.
  keeps :
      (q : Queue A) (i : ℕ) (xs : List A) (v : A)
      → length xs < capacity q
      → i + length xs ≤ q.tail
      → q.tail < i + capacity q
      → Holds q.slots i xs
      → Holds (set q.slots (q.tail % capacity q) (some v)) i xs
  keeps q i xs v l p d h =
      Holds-set q.slots q.tail i (some v) xs
        (λ k a b e.
          distinct_slots (capacity q) k q.tail (omega arith) (omega arith) (omega arith) (sym e))
        h

  write-Stored :
      (c : Consumer A) (q : Queue A) (live : List A) (v : A)
      → length live < capacity q
      → q.tail ≡ q.head + length live
      → Stored c q live
      → Stored c (write_slot q.tail v q) live
  unfolding write_slot
  write-Stored at_rest q live v l p h = keeps q q.head live v l (omega arith) (omega arith) h
  write-Stored (to_read i) q [] v l p h = h
  write-Stored (to_read i) q (x ∷ xs) v l p h =
      (h.0, keeps q q.head (x ∷ xs) v l (omega arith) (omega arith) h.1)
  write-Stored (to_reset i a) q [] v l p h = h
  write-Stored (to_reset i a) q (x ∷ xs) v l p h =
      (h.0, h.1, keeps q (q.head + 1) xs v (omega arith) (omega arith) (omega arith) h.2)
  write-Stored (to_store i a) q [] v l p h = h
  write-Stored (to_store i a) q (x ∷ xs) v l p h =
      (h.0, h.1, keeps q (q.head + 1) xs v (omega arith) (omega arith) (omega arith) h.2)
  write-Stored faulted q live v l p h = h

  shifted :
      (q : Queue A) (x : A) (xs : List A)
      → q.tail ≡ q.head + length (x ∷ xs)
      → q.tail ≡ q.head + 1 + length xs
  shifted q x xs p = omega arith

  -- The store of the tail makes the written slot part of the queue.
  publish-Stored :
      (c : Consumer A) (q : Queue A) (live : List A) (w : A)
      → q.tail ≡ q.head + length live
      → slot_at q.slots q.tail ≡ some w
      → Stored c q live
      → Stored c (store_tail q.tail q) (live ++ w ∷ [])
  unfolding store_tail
  publish-Stored at_rest q live w p e h = Holds-append q.slots q.head live w h (rw p at e)
  publish-Stored (to_read i) q [] w p e h = absurd h
  publish-Stored (to_read i) q (x ∷ xs) w p e h =
      (h.0, Holds-append q.slots q.head (x ∷ xs) w h.1 (rw p at e))
  publish-Stored (to_reset i a) q [] w p e h = absurd h
  publish-Stored (to_reset i a) q (x ∷ xs) w p e h =
      (h.0, h.1, Holds-append q.slots (q.head + 1) xs w h.2 (rw (shifted q x xs p) at e))
  publish-Stored (to_store i a) q [] w p e h = absurd h
  publish-Stored (to_store i a) q (x ∷ xs) w p e h =
      (h.0, h.1, Holds-append q.slots (q.head + 1) xs w h.2 (rw (shifted q x xs p) at e))
  publish-Stored faulted q live w p e h = h

  begin-Inv :
      (v : A) (s : System A) (live : List A)
      → may_push s.queue ≡ true
      → Inv s live
      → Inv (record s { producer = to_write s.queue.tail v }) live
  unfolding may_push
  begin-Inv v s live m i = record {
    bounded = i.bounded;
    placed = i.placed;
    small = i.small;
    stored = i.stored;
    prepared = (refl, ground (arith, i.placed, i.small, i.bounded));
    accounted = i.accounted;
  }

  write-Inv :
      (w : A) (s : System A) (live : List A)
      → length live < capacity s.queue
      → Inv s live
      → Inv
          (record s {
            queue = write_slot s.queue.tail w s.queue;
            producer = to_store s.queue.tail w;
          })
          live
  unfolding write_slot
  write-Inv w s live l i =
      let size = length-set s.queue.slots (s.queue.tail % capacity s.queue) (some w) in
      record {
        bounded = omega (arith, size);
        placed = i.placed;
        small = i.small;
        stored = write-Stored s.consumer s.queue live w l i.placed i.stored;
        prepared = (
          refl,
          omega (arith, size),
          slot_at-set_self s.queue.slots s.queue.tail (some w) (omega arith),
        );
        accounted = i.accounted;
      }

  publish-Inv :
      (w : A) (s : System A) (live : List A)
      → length live < capacity s.queue
      → slot_at s.queue.slots s.queue.tail ≡ some w
      → s.queue.tail + 1 < 2 ^ 64
      → Inv s live
      → Inv
          (record s {
            queue = store_tail s.queue.tail s.queue;
            producer = at_rest;
            published = s.published ++ w ∷ [];
          })
          (live ++ w ∷ [])
  unfolding store_tail
  publish-Inv w s live l e t i = record {
    bounded = omega (arith, length-append live (w ∷ []));
    placed = omega (arith, i.placed, length-append live (w ∷ []));
    small = omega arith;
    stored = publish-Stored s.consumer s.queue live w i.placed e i.stored;
    prepared = tt;
    accounted = ap (λ xs. xs ++ w ∷ []) i.accounted ∙ append_assoc s.consumed live (w ∷ []);
  }

  pub produce-Inv :
      (v : A) (p : Producer A) (s : System A) (live : List A)
      → s.producer ≡ p
      → s.queue.tail + 1 < 2 ^ 64
      → Inv s live
      → (live' : List A) × Inv (move_producer v p s) live'
  unfolding move_producer
  produce-Inv v at_rest s live e t i = elim (Bool-cases (may_push s.queue)) [
    | inl room ↦ (live, rw room (begin-Inv v s live room i))
    | inr no_room ↦ (live, rw no_room i)
  ]
  produce-Inv v (to_write u w) s live e t i =
      let (same, l) = subst (λ x. Prepared x s.queue live) e i.prepared in
      (live, rw same (write-Inv w s live l i))
  produce-Inv v (to_store u w) s live e t i =
      let (same, l, held) = subst (λ x. Prepared x s.queue live) e i.prepared in
      (live ++ w ∷ [], rw same (publish-Inv w s live l held t i))
