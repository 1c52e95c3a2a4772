-- ===== src/Memory/Tests.antt =====
-- Tests of the buffer pool on a small run, and instances of what is proved of it.
use vision_runtime.Prelude.{
  ℕ, ◌+◌, true, false, ◌≡◌, refl, some, List, [], ◌∷◌, if◌then◌else◌, ltb, ◌*◌,
}
use vision_runtime.Core.Status.{success}
use vision_runtime.Core.DataType.{cpu_device}
use vision_runtime.Core.Buffer.{TensorBuffer, host}
use vision_runtime.Memory.BufferPool.{
  Pool, Allocation, allocated, create, fill, with_buffer, push_slot, no_wait, wait, Action,
  acquires, drops, act, after_acquire, acquire_impl, take_slot, release, run,
}
use vision_runtime.Memory.BufferPool.Ownership.{count, leases_exclusive}

abbrev storage : ℕ → TensorBuffer
storage i = record {
  owner = some i;
  address = 4096 * (i + 1);
  capacity = 64;
  dev = cpu_device;
  memory_kind = host;
  writable = true;
}

abbrev allocate : ℕ → ℕ → Allocation
allocate i size = allocated (success (storage i))

abbrev pool : Pool
pool = record { slots = storage 0 ∷ storage 1 ∷ []; available = 0 ∷ 1 ∷ []; buffer_capacity = 64 }

pool_created : create 2 64 (some allocate) ≡ success pool
unfolding create fill with_buffer push_slot
pool_created = refl

abbrev history : List Action
history =
    acquires no_wait
    ∷ acquires no_wait
    ∷ acquires no_wait
    ∷ drops 0
    ∷ drops 0
    ∷ acquires (wait false)
    ∷ drops 1
    ∷ []

-- A third lease is refused, a second drop of a lease does nothing, and slot 0 is leased again.
history-run :
    run (record { pool = pool; leases = [] }) history
    ≡ record { pool = record pool { available = 1 ∷ [] }; leases = 0 ∷ [] }
unfolding run act acquire_impl take_slot release after_acquire
history-run = refl

leases_exclusive_example :
    let u = run (record { pool = pool; leases = [] }) history in
    count 1 u.pool.available + count 1 u.leases ≡ (if ltb 1 2 then 1 else 0)
leases_exclusive_example = leases_exclusive 2 64 (some allocate) history pool_created 1
