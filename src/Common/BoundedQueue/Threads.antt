-- ===== src/Common/BoundedQueue/Threads.antt =====
-- `tryPush` and `tryPop` of Runtime/include/common/boundedBlockingQueue.hpp as single reads and writes
-- of the shared memory, by one producer thread and one consumer thread.
use vision_runtime.Prelude.{ℕ, Option, none, some, List, [], ◌∷◌, ◌++◌, if◌then◌else◌}
use vision_runtime.Common.BoundedQueue.{
  Queue, slot_at, fresh, is_empty, close, may_push, write_slot, store_tail, reset_slot, store_head,
}

-- Where the producer stands in `tryPush`: before its loads, before the write of the slot that it
-- found free for the tail that it loaded, or before the store of the tail.
pub data Producer {ℓ} (A : Type ℓ) : Type ℓ where
  at_rest : Producer A
  to_write to_store : ℕ → A → Producer A

-- Where the consumer stands in `tryPop`, with the head that it loaded and the value it moved out.
pub data Consumer {ℓ} (A : Type ℓ) : Type ℓ where
  at_rest : Consumer A
  to_read : ℕ → Consumer A
  to_reset to_store : ℕ → A → Consumer A
  faulted : Consumer A

-- The shared queue, the two threads, what the consumer has returned and what the producer has
-- published, oldest first.
pub record System {ℓ} (A : Type ℓ) : Type ℓ where
  pub queue : Queue A
  pub producer : Producer A
  pub consumer : Consumer A
  pub published : List A
  pub consumed : List A

pub data Turn {ℓ} (A : Type ℓ) : Type ℓ where
  -- The producer moves; if it is at rest it begins to push this value.
  produce : A → Turn A
  consume : Turn A
  shut : Turn A

module _ {ℓ} {A : Type ℓ} where
  unfoldable pub move_producer : A → Producer A → System A → System A
  move_producer v at_rest s =
      if may_push s.queue then record s { producer = to_write s.queue.tail v } else s
  move_producer v (to_write t w) s = record s {
    queue = write_slot t w s.queue;
    producer = to_store t w;
  }
  move_producer v (to_store t w) s = record s {
    queue = store_tail t s.queue;
    producer = at_rest;
    published = s.published ++ w ∷ [];
  }

  unfoldable pub read_slot : ℕ → Option A → Consumer A
  read_slot h none = faulted
  read_slot h (some a) = to_reset h a

  unfoldable pub move_consumer : Consumer A → System A → System A
  move_consumer at_rest s =
      if is_empty s.queue then s else record s { consumer = to_read s.queue.head }
  move_consumer (to_read h) s = record s { consumer = read_slot h (slot_at s.queue.slots h) }
  move_consumer (to_reset h a) s = record s {
    queue = reset_slot h s.queue;
    consumer = to_store h a;
  }
  move_consumer (to_store h a) s = record s {
    queue = store_head h s.queue;
    consumer = at_rest;
    consumed = s.consumed ++ a ∷ [];
  }
  move_consumer faulted s = s

  unfoldable pub take_turn : Turn A → System A → System A
  take_turn (produce v) s = move_producer v s.producer s
  take_turn consume s = move_consumer s.consumer s
  take_turn shut s = record s { queue = close s.queue }

  unfoldable pub play : List (Turn A) → System A → System A
  play [] s = s
  play (t ∷ ts) s = play ts (take_turn t s)

  unfoldable pub start : ℕ → System A
  start n = record {
    queue = fresh n;
    producer = at_rest;
    consumer = at_rest;
    published = [];
    consumed = [];
  }
