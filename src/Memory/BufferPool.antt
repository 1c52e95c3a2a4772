-- ===== src/Memory/BufferPool.antt =====
-- Runtime/include/memory/detail/bufferPool.hpp. Each section that holds the pool's mutex is one step.
-- A lease is the slot index that the deleter of the returned buffer's owner gives back.
pub mod Ownership
use vision_runtime.Prelude.{
  ℕ, zero, suc, ◌+◌, ◌-◌, Bool, true, false, not, ◌||◌, Option, none, some, List, [], ◌∷◌, ◌++◌,
  length, get_elem?, ◌==◌, if◌then◌else◌, String,
}
use vision_runtime.Core.Status.{
  Status, Result, success, failure, error, invalid_argument, invalid_state, cancelled,
  resource_exhausted,
}
use vision_runtime.Core.Buffer.{TensorBuffer, share_buffer, invalid}

-- `BufferPool::State`; the head of `available` is the back of the vector.
pub record Pool : Type 0 where
  pub slots : List TensorBuffer
  pub available : List ℕ
  pub buffer_capacity : ℕ

-- What an allocation may end in: a buffer or a failed status, or one of the two exceptions that
-- `create` catches.
pub data Allocation : Type 0 where
  allocated : Result TensorBuffer → Allocation
  bad_alloc length_error : Allocation

-- What `create` does with an allocation: the next part of the loop body gets the buffer.
unfoldable pub with_buffer : Allocation → (TensorBuffer → Result Pool) → Result Pool
with_buffer (allocated (success b)) next = next b
with_buffer (allocated (failure s)) next = failure s
with_buffer bad_alloc next = failure (error resource_exhausted "failed to allocate buffer pool")
with_buffer length_error next =
    failure (error invalid_argument "buffer count exceeds the supported pool size")

unfoldable pub push_slot : ℕ → ℕ → Pool → TensorBuffer → Pool
push_slot count index pool b = record pool {
  slots = pool.slots ++ b ∷ [];
  available = (count - index - 1) ∷ pool.available;
}

-- The loop of `create`: `left` rounds from `index`. `allocate` is what the allocator answers in the
-- round of an index.
unfoldable pub fill : (ℕ → ℕ → Allocation) → ℕ → ℕ → ℕ → Pool → Result Pool
fill allocate count zero index pool = success pool
fill allocate count (suc left) index pool =
    with_buffer (allocate index pool.buffer_capacity)
      λ b. fill allocate count left (index + 1) (push_slot count index pool b)

-- `BufferPool::create`; an allocator that is null is none.
unfoldable pub create : ℕ → ℕ → Option (ℕ → ℕ → Allocation) → Result Pool
create count capacity allocator =
    if count == 0 || capacity == 0
    then invalid "buffer pool dimensions must be greater than zero"
    else elim allocator [
      | none ↦ invalid "buffer pool allocator must not be null"
      | some allocate ↦
          fill allocate count count 0
            (record { slots = []; available = []; buffer_capacity = capacity })
    ]

-- Whether an acquisition may wait, and whether its stop token has been triggered.
pub data Wait : Type 0 where
  no_wait : Wait
  wait : Bool → Wait

-- The outcome of the locked section of `acquireImpl`: a slot index with the new state, a failure,
-- or a wait for the condition variable.
pub data Acquired : Type 0 where
  taken : ℕ → Pool → Acquired
  refused : Status → Acquired
  waiting : Acquired

-- The locked section of `acquireImpl`, at a moment when the calling thread holds the mutex. A wait
-- ends when a slot is available, or with its predicate false once stop is requested.
unfoldable pub take_slot : Wait → List ℕ → Pool → Acquired
take_slot w (index ∷ rest) p = taken index (record p { available = rest })
take_slot no_wait [] p = refused (error resource_exhausted "buffer pool is exhausted")
take_slot (wait true) [] p = refused (error cancelled "buffer acquisition was cancelled")
take_slot (wait false) [] p = waiting

unfoldable pub acquire_impl : Wait → Pool → Acquired
acquire_impl w p = take_slot w p.available p

-- The deleter of a lease.
unfoldable pub release : ℕ → Pool → Pool
release index p = record p { available = index ∷ p.available }

-- The buffer that `acquireImpl` returns for a slot: `lease` is the new owner's allocation.
unfoldable pub leased_buffer : ℕ → TensorBuffer → Result TensorBuffer
leased_buffer lease slot =
    share_buffer (some lease) slot.address slot.capacity slot.dev slot.memory_kind slot.writable

-- `acquire` and `available` of a pool whose state may be null.
unfoldable pub try_acquire : Option Pool → Acquired
try_acquire none = refused (error invalid_state "buffer pool is not initialized")
try_acquire (some p) = acquire_impl no_wait p

unfoldable pub available_count : Option Pool → ℕ
available_count none = 0
available_count (some p) = length p.available

-- The pool with the leases in use: what threads do to it, one locked section at a time.
pub record Use : Type 0 where
  pub pool : Pool
  pub leases : List ℕ

abbrev pub erase : ℕ → List ℕ → List ℕ
erase i [] = []
erase i (j ∷ js) = if i == j then js else j ∷ erase i js

pub data Action : Type 0 where
  acquires : Wait → Action
  -- The last owner of the lease on this slot goes away.
  drops : ℕ → Action

abbrev pub contains : ℕ → List ℕ → Bool
contains i [] = false
contains i (j ∷ js) = i == j || contains i js

unfoldable pub after_acquire : Use → Acquired → Use
after_acquire u (taken index p) = record { pool = p; leases = index ∷ u.leases }
after_acquire u (refused s) = u
after_acquire u waiting = u

unfoldable pub act : Use → Action → Use
unfolding after_acquire
act u (acquires w) = after_acquire u (acquire_impl w u.pool)
act u (drops i) =
    if contains i u.leases then record { pool = release i u.pool; leases = erase i u.leases } else u

unfoldable pub run : Use → List Action → Use
run u [] = u
run u (a ∷ rest) = run (act u a) rest
