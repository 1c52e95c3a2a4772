-- ===== src/Memory/BufferPool/Ownership.antt =====
-- The slots and the leases of Runtime/include/memory/detail/bufferPool.hpp.
use vision_runtime.Prelude.{
  ℕ, zero, suc, ◌+◌, true, false, ◌≡◌, refl, ◌∙◌, Option, none, some, List, [], ◌∷◌, arith, length,
  length-append, ◌==◌, if◌then◌else◌, ltb, ap,
}
use mathlib.Core.Path.{subst}
use vision_runtime.Core.Status.{Result, success, failure}
use vision_runtime.Core.Buffer.{TensorBuffer}
use vision_runtime.Memory.BufferPool.{
  Pool, Allocation, allocated, bad_alloc, length_error, fill, with_buffer, push_slot, create, Wait,
  no_wait, wait, take_slot, acquire_impl, release, Use, Action, acquires, drops, erase, contains,
  act, run, after_acquire,
}

abbrev pub count : ℕ → List ℕ → ℕ
count i [] = 0
count i (j ∷ js) = let rest = count i js in if i == j then suc rest else rest

-- Every slot index below the number of slots is either available or leased, exactly once; no other
-- index is.
pub record IsPartition (u : Use) : Type 0 where
  pub once :
      (i : ℕ)
      → count i u.pool.available + count i u.leases ≡ (if ltb i (length u.pool.slots) then 1 else 0)

count-erase :
    (i j : ℕ) (xs : List ℕ)
    → contains j xs ≡ true
    → count i (erase j xs) + (if i == j then 1 else 0) ≡ count i xs
count-erase i j [] h = cc
count-erase i j (x ∷ xs) h = ground (arith, count-erase i j xs)

acquire-count :
    (w : Wait) (free : List ℕ) (u : Use) (i : ℕ)
    → u.pool.available ≡ free
    → count i (after_acquire u (take_slot w free u.pool)).pool.available
        + count i (after_acquire u (take_slot w free u.pool)).leases
      ≡ count i u.pool.available + count i u.leases
unfolding take_slot after_acquire
acquire-count w (j ∷ free) u i e = ground arith
acquire-count no_wait [] u i e = refl
acquire-count (wait true) [] u i e = refl
acquire-count (wait false) [] u i e = refl

act-count :
    (u : Use) (a : Action) (i : ℕ)
    → count i (act u a).pool.available + count i (act u a).leases
      ≡ count i u.pool.available + count i u.leases
unfolding act acquire_impl release
act-count u (acquires w) i = acquire-count w u.pool.available u i refl
act-count u (drops j) i = ground (arith, count-erase i j u.leases)

acquire-slots :
    (w : Wait) (free : List ℕ) (u : Use)
    → (after_acquire u (take_slot w free u.pool)).pool.slots ≡ u.pool.slots
unfolding take_slot after_acquire
acquire-slots w (j ∷ free) u = refl
acquire-slots no_wait [] u = refl
acquire-slots (wait true) [] u = refl
acquire-slots (wait false) [] u = refl

act-slots : (u : Use) (a : Action) → (act u a).pool.slots ≡ u.pool.slots
unfolding act acquire_impl release
act-slots u (acquires w) = acquire-slots w u.pool.available u
act-slots u (drops j) = ground arith

act-IsPartition : (u : Use) (a : Action) → IsPartition u → IsPartition (act u a)
act-IsPartition u a p = record { once = λ i. rw (act-slots u a) (act-count u a i ∙ p.once i) }

run-slots : (u : Use) (history : List Action) → (run u history).pool.slots ≡ u.pool.slots
unfolding run
run-slots u [] = refl
run-slots u (a ∷ rest) = run-slots (act u a) rest ∙ act-slots u a

run-IsPartition : (u : Use) (history : List Action) → IsPartition u → IsPartition (run u history)
unfolding run
run-IsPartition u [] p = p
run-IsPartition u (a ∷ rest) p = run-IsPartition (act u a) rest (act-IsPartition u a p)

pool_injective : {p q : Pool} → ◌≡◌ {A = Result Pool} (success p) (success q) → p ≡ q
pool_injective e = cc

-- The state between two rounds of the loop of `create`.
record IsFilled (n left index : ℕ) (p : Pool) : Type 0 where
  rounds : index + left ≡ n
  filled : length p.slots ≡ index
  listed : (i : ℕ) → count i p.available ≡ (if ltb i n then (if ltb i left then 0 else 1) else 0)

with_buffer-eq-success :
    (a : Allocation) (next : TensorBuffer → Result Pool) {q : Pool}
    → with_buffer a next ≡ success q
    → (b : TensorBuffer) × (next b ≡ success q)
unfolding with_buffer
with_buffer-eq-success (allocated (success b)) next e = (b, e)
with_buffer-eq-success (allocated (failure s)) next e = cc
with_buffer-eq-success bad_alloc next e = cc
with_buffer-eq-success length_error next e = cc

push_slot-IsFilled :
    (n left index : ℕ) (p : Pool) (b : TensorBuffer)
    → IsFilled n (suc left) index p
    → IsFilled n left (index + 1) (push_slot n index p b)
unfolding push_slot
push_slot-IsFilled n left index p b f = record {
  rounds = omega (arith, f.rounds);
  filled = omega (arith, f.filled, length-append p.slots (b ∷ []));
  listed = λ i. ground (arith, f.listed i, f.rounds);
}

fill-IsFilled :
    (allocate : ℕ → ℕ → Allocation) (n left index : ℕ) (p : Pool) {q : Pool}
    → IsFilled n left index p
    → fill allocate n left index p ≡ success q
    → IsFilled n 0 n q
unfolding fill
fill-IsFilled allocate n zero index p {q} f e =
    subst (IsFilled n 0 n) (pool_injective e)
      (record { rounds = omega arith; filled = omega (arith, f.filled); listed = f.listed })
  where
    done : index ≡ n
    done = omega (arith, f.rounds)
fill-IsFilled allocate n (suc left) index p f e =
    let (b, e') = with_buffer-eq-success (allocate index p.buffer_capacity) _ e in
    fill-IsFilled allocate n left (index + 1) (push_slot n index p b)
      (push_slot-IsFilled n left index p b f) e'

-- A pool that `create` returns has all its slots, each of them available.
create-IsPartition :
    (n capacity : ℕ) (allocator : Option (ℕ → ℕ → Allocation)) {p : Pool}
    → create n capacity allocator ≡ success p
    → IsPartition (record { pool = p; leases = [] }) × (length p.slots ≡ n)
unfolding create
create-IsPartition n capacity none e = absurd (ground arith)
create-IsPartition n capacity (some allocate) {p} e =
    let start : IsFilled n n 0 (record { slots = []; available = []; buffer_capacity = capacity }) =
      record { rounds = omega arith; filled = refl; listed = λ i. ground arith } in
    let f = fill-IsFilled allocate n n 0 _ {q = p} start (ground arith) in
    (record { once = λ i. ground (arith, f.listed i, f.filled) }, f.filled)

-- Whatever threads do to a pool that `create` returned, each of its slots is at any time either
-- available or in exactly one lease, and never in two.
pub leases_exclusive :
    (n capacity : ℕ) (allocator : Option (ℕ → ℕ → Allocation)) (history : List Action) {p : Pool}
    → create n capacity allocator ≡ success p
    → let u = run (record { pool = p; leases = [] }) history in
      (i : ℕ) → count i u.pool.available + count i u.leases ≡ (if ltb i n then 1 else 0)
leases_exclusive n capacity allocator history {p} e i =
    let (start, size) = create-IsPartition n capacity allocator e in
    let fresh : Use = record { pool = p; leases = [] } in
    (run-IsPartition fresh history start).once i
    ∙ ap (λ k. if ltb i k then 1 else 0) (ap length (run-slots fresh history) ∙ size)
