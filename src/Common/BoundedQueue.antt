-- ===== src/Common/BoundedQueue.antt =====
-- Runtime/include/common/boundedBlockingQueue.hpp. The indices and epochs are size_t counters that
-- wrap at 2^64. The atomics are sequentially consistent here.
pub mod Slots
pub mod Fifo
pub mod Threads
pub mod Interleaving
use vision_runtime.Prelude.{
  ℕ, zero, suc, ◌+◌, ◌-◌, ◌%◌, ◌^◌, Bool, true, false, not, ◌&&◌, ◌||◌, Option, none, some, List,
  [], ◌∷◌, length, get_elem?, set, replicate, leb, ltb, ◌==◌, if◌then◌else◌,
}

pub record Queue {ℓ} (A : Type ℓ) : Type ℓ where
  pub slots : List (Option A)
  pub head : ℕ
  pub tail : ℕ
  pub closed : Bool
  pub data_epoch : ℕ
  pub space_epoch : ℕ

abbrev pub word : ℕ → ℕ
word n = n % 2 ^ 64

-- `tail - head` on size_t.
abbrev pub distance : ℕ → ℕ → ℕ
distance tail head = (tail + 2 ^ 64 - head) % 2 ^ 64

-- What `tryPop` ends in; a fault is a read of an optional that holds nothing.
pub data Popped {ℓ} (A : Type ℓ) : Type ℓ where
  nothing fault : Popped A
  value : A → Popped A

-- One round of the loop of `push`: it returns, or waits for room, or tries again.
pub data Pushing {ℓ} (A : Type ℓ) : Type ℓ where
  pushed : Bool → Queue A → Pushing A
  wait_for_space again : Pushing A

-- One round of the loop of `pop` or `popFor`: it returns, or waits.
pub data Popping {ℓ} (A : Type ℓ) : Type ℓ where
  popped : Popped A → Queue A → Popping A
  wait_for_data : Popping A

module _ {ℓ} {A : Type ℓ} where
  abbrev pub joined : Option (Option A) → Option A
  joined none = none
  joined (some o) = o

  -- The slot that an index falls into.
  abbrev pub slot_at : List (Option A) → ℕ → Option A
  slot_at slots i = joined (get_elem? slots (i % length slots))

  unfoldable pub fresh : ℕ → Queue A
  fresh capacity = record {
    slots = replicate capacity none;
    head = 0;
    tail = 0;
    closed = false;
    data_epoch = 0;
    space_epoch = 0;
  }

  abbrev pub capacity : Queue A → ℕ
  capacity q = length q.slots

  unfoldable pub is_empty : Queue A → Bool
  is_empty q = q.head == q.tail

  unfoldable pub is_full : Queue A → Bool
  is_full q = capacity q == 0 || leb (capacity q) (distance q.tail q.head)

  unfoldable pub close : Queue A → Queue A
  close q = record q {
    closed = true;
    data_epoch = word (q.data_epoch + 1);
    space_epoch = word (q.space_epoch + 1);
  }

  -- The tests of `tryPush`, at the loads of `closed_`, `tail_` and `head_`.
  unfoldable pub may_push : Queue A → Bool
  may_push q = not (q.closed || capacity q == 0) && not (leb (capacity q) (distance q.tail q.head))

  -- The write of `tryPush` into the slot of index `t`.
  unfoldable pub write_slot : ℕ → A → Queue A → Queue A
  write_slot t v q = record q { slots = set q.slots (t % capacity q) (some v) }

  -- The store of the tail that the producer loaded as `t`, and the wake-up of the consumer.
  unfoldable pub store_tail : ℕ → Queue A → Queue A
  store_tail t q = record q { tail = word (t + 1); data_epoch = word (q.data_epoch + 1) }

  unfoldable pub try_push : A → Queue A → Bool × Queue A
  try_push v q =
      if may_push q then (true, store_tail q.tail (write_slot q.tail v q)) else (false, q)

  abbrev pub read : Option A → Popped A
  read none = fault
  read (some a) = value a

  -- `slot.reset()` for the slot of index `h`.
  unfoldable pub reset_slot : ℕ → Queue A → Queue A
  reset_slot h q = record q { slots = set q.slots (h % capacity q) none }

  unfoldable pub store_head : ℕ → Queue A → Queue A
  store_head h q = record q { head = word (h + 1); space_epoch = word (q.space_epoch + 1) }

  unfoldable pub try_pop : Queue A → Popped A × Queue A
  try_pop q =
      if is_empty q
      then (nothing, q)
      else (read (slot_at q.slots q.head), store_head q.head (reset_slot q.head q))

  unfoldable pub push_round : A → Queue A → Pushing A
  push_round v q =
      let (done, q') = try_push v q in
      if capacity q == 0
      then pushed false q
      else if done
      then pushed true q'
      else if q.closed
      then pushed false q
      else if is_full q
      then wait_for_space
      else again

  unfoldable pub pop_round : Queue A → Popping A
  pop_round q =
      let (v, q') = try_pop q in
      if not (is_empty q) then popped v q' else if q.closed then popped nothing q else wait_for_data

  -- `popFor` tries at one moment, and tests at a later one whether the queue is closed and empty;
  -- `later` is the queue then, and `timed_out` says that the deadline is past.
  unfoldable pub pop_for_round : Queue A → Queue A → Bool → Popping A
  pop_for_round q later timed_out =
      let (v, q') = try_pop q in
      if not (is_empty q)
      then popped v q'
      else if (later.closed && is_empty later) || timed_out
      then popped nothing later
      else wait_for_data
