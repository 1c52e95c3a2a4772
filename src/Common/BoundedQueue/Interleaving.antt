-- ===== src/Common/BoundedQueue/Interleaving.antt =====
-- Whole interleavings of a producer and a consumer of Runtime/include/common/boundedBlockingQueue.hpp.
pub mod State
pub mod Publishing
pub mod Consuming
use mathlib.Core.List.{append_assoc}
use mathlib.Core.Path.{subst}
use vision_runtime.Prelude.{
  ℕ, zero, suc, ◌+◌, ◌-◌, ◌%◌, ◌^◌, ◌≤◌, ◌<◌, Bool, true, false, not, ◌&&◌, ◌≡◌, ◌≢◌, refl, ap, sym,
  ◌∙◌, Option, none, some, List, [], ◌∷◌, ◌++◌, length, length-append, length-set, length-replicate,
  set, leb, ltb, ◌==◌, if◌then◌else◌, arith, Bool-cases, inl, inr, ◌⊎◌, Option-cases,
}
use vision_runtime.Common.BoundedQueue.{
  Queue, word, slot_at, fresh, capacity, is_empty, close, may_push, write_slot, store_tail,
  reset_slot, store_head, distance,
}
use vision_runtime.Common.BoundedQueue.Slots.{
  Holds, Holds-set, Holds-append, slot_at-set_self, slot_at-set_ne, distinct_slots,
}
use vision_runtime.Common.BoundedQueue.Threads.{
  Producer, Consumer, at_rest, to_store, to_write, to_read, to_reset, faulted, System, Turn,
  produce, consume, shut, move_producer, read_slot, move_consumer, take_turn, play, start,
}
use vision_runtime.Common.BoundedQueue.Interleaving.State.{Stored, Prepared, Inv}
use vision_runtime.Common.BoundedQueue.Interleaving.Publishing.{produce-Inv}
use vision_runtime.Common.BoundedQueue.Interleaving.Consuming.{consume-Inv}

module _ {A : Type 0} where
  close-Stored :
      (c : Consumer A) (q : Queue A) (live : List A) → Stored c q live → Stored c (close q) live
  unfolding close
  close-Stored at_rest q live h = h
  close-Stored (to_read i) q [] h = h
  close-Stored (to_read i) q (x ∷ xs) h = h
  close-Stored (to_reset i a) q [] h = h
  close-Stored (to_reset i a) q (x ∷ xs) h = h
  close-Stored (to_store i a) q [] h = h
  close-Stored (to_store i a) q (x ∷ xs) h = h
  close-Stored faulted q live h = h

  close-Prepared :
      (p : Producer A) (q : Queue A) (live : List A) → Prepared p q live → Prepared p (close q) live
  unfolding close
  close-Prepared at_rest q live h = h
  close-Prepared (to_write t w) q live h = h
  close-Prepared (to_store t w) q live h = h

  turn-Inv :
      (t : Turn A) (s : System A) (live : List A)
      → s.queue.tail + 1 < 2 ^ 64
      → Inv s live
      → (live' : List A) × Inv (take_turn t s) live'
  unfolding take_turn close
  turn-Inv (produce v) s live l i = produce-Inv v s.producer s live refl l i
  turn-Inv consume s live l i = consume-Inv s.consumer s live refl i
  turn-Inv shut s live l i = (
    live,
    record {
      bounded = i.bounded;
      placed = i.placed;
      small = i.small;
      stored = close-Stored s.consumer s.queue live i.stored;
      prepared = close-Prepared s.producer s.queue live i.prepared;
      accounted = i.accounted;
    },
  )

  producer-tail :
      (v : A) (p : Producer A) (s : System A) (live : List A)
      → s.producer ≡ p
      → Inv s live
      → (move_producer v p s).queue.tail ≤ s.queue.tail + 1
  unfolding move_producer store_tail write_slot
  producer-tail v at_rest s live e i = ground arith
  producer-tail v (to_write t w) s live e i = ground arith
  producer-tail v (to_store t w) s live e i =
      let (same, _, _) = subst (λ x. Prepared x s.queue live) e i.prepared in ground (arith, same)

  consumer-tail : (c : Consumer A) (s : System A) → (move_consumer c s).queue.tail ≡ s.queue.tail
  unfolding move_consumer store_head reset_slot
  consumer-tail at_rest s = ground arith
  consumer-tail (to_read h) s = refl
  consumer-tail (to_reset h a) s = refl
  consumer-tail (to_store h a) s = refl
  consumer-tail faulted s = refl

  turn-tail :
      (t : Turn A) (s : System A) (live : List A)
      → Inv s live
      → (take_turn t s).queue.tail ≤ s.queue.tail + 1
  unfolding take_turn close
  turn-tail (produce v) s live i = producer-tail v s.producer s live refl i
  turn-tail consume s live i = omega (arith, consumer-tail s.consumer s)
  turn-tail shut s live i = omega arith

  play-Inv :
      (ts : List (Turn A)) (s : System A) (live : List A)
      → s.queue.tail + length ts < 2 ^ 64
      → Inv s live
      → (live' : List A) × Inv (play ts s) live'
  unfolding play
  play-Inv [] s live l i = (live, i)
  play-Inv (t ∷ ts) s live l i =
      let (live', i') = turn-Inv t s live (omega arith) i in
      play-Inv ts (take_turn t s) live' (omega (arith, turn-tail t s live i)) i'

  start-Inv : (n : ℕ) → Inv {A = A} (start n) []
  unfolding start fresh
  start-Inv n = ground arith

  not_faulted : (c : Consumer A) (q : Queue A) (live : List A) → Stored c q live → c ≢ faulted
  not_faulted at_rest q live h e = cc
  not_faulted (to_read i) q live h e = cc
  not_faulted (to_reset i a) q live h e = cc
  not_faulted (to_store i a) q live h e = cc
  not_faulted faulted q live h e = h

-- However one producer and one consumer interleave on a new queue, with the queue closed at any
-- time and fewer than 2^64 turns, the values consumed are a prefix of the values published, the
-- rest of those fit the capacity, and the consumer has not read an empty slot.
pub spsc_safe :
    {A : Type 0} (n : ℕ) (ts : List (Turn A))
    → length ts < 2 ^ 64
    → (live : List A) × ((play ts (start n)).published ≡ (play ts (start n)).consumed ++ live)
      × (length live ≤ capacity (play ts (start n)).queue)
      × ((play ts (start n)).consumer ≢ faulted)
unfolding start fresh
spsc_safe n ts l =
    let (live, i) = play-Inv ts (start n) [] (omega arith) (start-Inv n) in
    (live, i.accounted, i.bounded, not_faulted (play ts (start n)).consumer _ live i.stored)
