-- ===== src/Common/BoundedQueue/Interleaving/State.antt =====
-- The invariant of the queue of Runtime/include/common/boundedBlockingQueue.hpp and its two threads.
use vision_runtime.Prelude.{◌+◌, ◌^◌, ◌≤◌, ◌<◌, ◌≡◌, some, List, [], ◌∷◌, ◌++◌, length}
use vision_runtime.Common.BoundedQueue.{Queue, slot_at, capacity}
use vision_runtime.Common.BoundedQueue.Slots.{Holds}
use vision_runtime.Common.BoundedQueue.Threads.{
  Producer, Consumer, at_rest, to_store, to_write, to_read, to_reset, faulted, System,
}

module _ {A : Type 0} where
  -- The slots of the values in the queue, from where the consumer stands: the slot that it has reset
  -- is empty.
  abbrev pub Stored : Consumer A → Queue A → List A → Type 0
  Stored at_rest q live = Holds q.slots q.head live
  Stored (to_read h) q [] = ⊥
  Stored (to_read h) q (x ∷ xs) = (h ≡ q.head) × Holds q.slots q.head (x ∷ xs)
  Stored (to_reset h a) q [] = ⊥
  Stored (to_reset h a) q (x ∷ xs) = (h ≡ q.head) × (x ≡ a) × Holds q.slots (q.head + 1) xs
  Stored (to_store h a) q [] = ⊥
  Stored (to_store h a) q (x ∷ xs) = (h ≡ q.head) × (x ≡ a) × Holds q.slots (q.head + 1) xs
  Stored faulted q live = ⊥

  abbrev pub Prepared : Producer A → Queue A → List A → Type 0
  Prepared at_rest q live = Unit
  Prepared (to_write t w) q live = (t ≡ q.tail) × (length live < capacity q)
  Prepared (to_store t w) q live =
      (t ≡ q.tail) × (length live < capacity q) × (slot_at q.slots q.tail ≡ some w)

  -- What holds at every moment; `live` are the values published and not yet consumed.
  pub record Inv (s : System A) (live : List A) : Type 0 where
    pub bounded : length live ≤ capacity s.queue
    pub placed : s.queue.tail ≡ s.queue.head + length live
    pub small : s.queue.tail < 2 ^ 64
    pub stored : Stored s.consumer s.queue live
    pub prepared : Prepared s.producer s.queue live
    pub accounted : s.published ≡ s.consumed ++ live
