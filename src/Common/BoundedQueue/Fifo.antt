-- ===== src/Common/BoundedQueue/Fifo.antt =====
-- The operations of Runtime/include/common/boundedBlockingQueue.hpp beside a bounded FIFO list.
use mathlib.Core.Path.{ap₂}
use vision_runtime.Prelude.{
  ℕ, ◌+◌, ◌%◌, ◌^◌, ◌≤◌, ◌<◌, Bool, true, false, not, ◌&&◌, ◌≡◌, refl, ap, sym, ◌∙◌, Option, none,
  some, List, [], ◌∷◌, ◌++◌, length, length-append, length-set, length-replicate, set, ltb, ◌==◌,
  if◌then◌else◌, arith, Bool-cases, inl, inr,
}
use vision_runtime.Common.BoundedQueue.{
  Queue, word, distance, fresh, capacity, is_empty, close, may_push, write_slot, store_tail,
  try_push, Popped, nothing, value, read, reset_slot, store_head, try_pop,
}
use vision_runtime.Common.BoundedQueue.Slots.{
  Holds, Holds-set, Holds-append, slot_at-set_self, distinct_slots,
}

module _ {ℓ} {A : Type ℓ} where
  -- The queue holds exactly these values, oldest first.
  pub record Refines (q : Queue A) (xs : List A) : Type ℓ where
    pub bounded : length xs ≤ capacity q
    pub placed : q.tail ≡ q.head + length xs
    pub small : q.tail < 2 ^ 64
    pub held : Holds q.slots q.head xs

  -- The bounded FIFO.
  abbrev pub fifo_push : ℕ → Bool → A → List A → Bool × List A
  fifo_push cap closed v xs =
      if not closed && ltb (length xs) cap then (true, xs ++ v ∷ []) else (false, xs)

  abbrev pub fifo_pop : List A → Popped A × List A
  fifo_pop [] = (nothing, [])
  fifo_pop (x ∷ xs) = (value x, xs)

  distance-length : (q : Queue A) (xs : List A) → Refines q xs → distance q.tail q.head ≡ length xs
  distance-length q xs r = omega (arith, r.placed, r.small)

  pub may_push_lem :
      (q : Queue A) (xs : List A)
      → Refines q xs
      → may_push q ≡ (not q.closed && ltb (length xs) (capacity q))
  unfolding may_push
  may_push_lem q xs r = rw (distance-length q xs r) (ground arith)

  written-Holds :
      (q : Queue A) (xs : List A) (v : A)
      → Refines q xs
      → length xs < capacity q
      → Holds (set q.slots (q.tail % capacity q) (some v)) q.head (xs ++ v ∷ [])
  written-Holds q xs v r h =
      Holds-append (set q.slots (q.tail % capacity q) (some v)) q.head xs v
        (Holds-set q.slots q.tail q.head (some v) xs
          (λ k a b e.
            distinct_slots (capacity q) k q.tail (omega arith) (omega (arith, r.placed))
              (omega (arith, r.placed)) (sym e))
          r.held)
        (rw (← r.placed) (slot_at-set_self q.slots q.tail (some v) (omega arith)))

  pub push-Refines :
      (q : Queue A) (xs : List A) (v : A)
      → Refines q xs
      → length xs < capacity q
      → q.tail + 1 < 2 ^ 64
      → Refines (store_tail q.tail (write_slot q.tail v q)) (xs ++ v ∷ [])
  unfolding store_tail write_slot
  push-Refines q xs v r h s = record {
    bounded =
        omega (arith, length-append xs (v ∷ []), length-set q.slots (q.tail % capacity q) (some v));
    placed = omega (arith, length-append xs (v ∷ []), r.placed);
    small = omega arith;
    held = written-Holds q xs v r h;
  }

  -- `tryPush` does what a push to the bounded FIFO does, in its answer and in what the queue holds.
  pub try_push-Refines :
      (q : Queue A) (xs : List A) (v : A)
      → Refines q xs
      → q.tail + 1 < 2 ^ 64
      → ((try_push v q).0 ≡ (fifo_push (capacity q) q.closed v xs).0)
        × Refines (try_push v q).1 (fifo_push (capacity q) q.closed v xs).1
  unfolding try_push
  try_push-Refines q xs v r s =
      rw (may_push_lem q xs r) (elim (Bool-cases (not q.closed && ltb (length xs) (capacity q))) [
        | inl room ↦ rw room (refl, push-Refines q xs v r (ground arith) s)
        | inr no_room ↦ rw no_room (refl, r)
      ])

  reset-Holds :
      (q : Queue A) (x : A) (xs : List A)
      → Refines q (x ∷ xs)
      → Holds (set q.slots (q.head % capacity q) none) (q.head + 1) xs
  reset-Holds q x xs r =
      Holds-set q.slots q.head (q.head + 1) none xs
        (λ k a b.
          distinct_slots (capacity q) q.head k (omega (arith, r.bounded)) (omega arith)
            (omega (arith, r.bounded)))
        r.held.1

  pub pop-Refines :
      (q : Queue A) (x : A) (xs : List A)
      → Refines q (x ∷ xs)
      → Refines (store_head q.head (reset_slot q.head q)) xs
  unfolding store_head reset_slot
  pop-Refines q x xs r =
      let next : word (q.head + 1) ≡ q.head + 1 = omega (arith, r.placed, r.small) in
      record {
        bounded = omega (arith, r.bounded, length-set q.slots (q.head % capacity q) none);
        placed = omega (arith, r.placed, next);
        small = r.small;
        held = rw next (reset-Holds q x xs r);
      }

  -- `tryPop` does what a pop of the FIFO does, and never reads an empty slot.
  pub try_pop-Refines :
      (q : Queue A) (xs : List A)
      → Refines q xs
      → ((try_pop q).0 ≡ (fifo_pop xs).0) × Refines (try_pop q).1 (fifo_pop xs).1
  unfolding try_pop is_empty
  try_pop-Refines q [] r =
      let same : (q.head == q.tail) ≡ true = ground (arith, r.placed) in rw same (refl, r)
  try_pop-Refines q (x ∷ xs) r =
      let differ : (q.head == q.tail) ≡ false = ground (arith, r.placed) in
      rw differ (ap read r.held.0, pop-Refines q x xs r)

-- What a client asks of the queue, and the answer.
pub data Op {ℓ} (A : Type ℓ) : Type ℓ where
  put : A → Op A
  get : Op A
  shut : Op A

pub data Reply {ℓ} (A : Type ℓ) : Type ℓ where
  stored : Bool → Reply A
  got : Popped A → Reply A
  done : Reply A

module _ {ℓ} {A : Type ℓ} where
  unfoldable pub step : Op A → Queue A → Reply A × Queue A
  step (put v) q = let (b, q') = try_push v q in (stored b, q')
  step get q = let (p, q') = try_pop q in (got p, q')
  step shut q = (done, close q)

  unfoldable pub replies : List (Op A) → Queue A → List (Reply A)
  replies [] q = []
  replies (o ∷ os) q = let (a, q') = step o q in a ∷ replies os q'

  -- The bounded FIFO of a capacity, with its closed flag, as a client sees it.
  pub fifo_step : ℕ → Op A → Bool × List A → Reply A × Bool × List A
  fifo_step cap (put v) (closed, xs) =
      let (b, ys) = fifo_push cap closed v xs in (stored b, closed, ys)
  fifo_step cap get (closed, xs) = let (p, ys) = fifo_pop xs in (got p, closed, ys)
  fifo_step cap shut (closed, xs) = (done, true, xs)

  pub fifo_replies : ℕ → List (Op A) → Bool × List A → List (Reply A)
  fifo_replies cap [] s = []
  fifo_replies cap (o ∷ os) s =
      let (a, closed, xs) = fifo_step cap o s in a ∷ fifo_replies cap os (closed, xs)

  -- The queue after a step against the FIFO after it.
  record Agrees (q : Queue A) (o : Op A) (xs : List A) : Type ℓ where
    same_reply : (step o q).0 ≡ (fifo_step (capacity q) o (q.closed, xs)).0
    same_closed : (step o q).1.closed ≡ (fifo_step (capacity q) o (q.closed, xs)).1
    same_capacity : capacity (step o q).1 ≡ capacity q
    refines : Refines (step o q).1 (fifo_step (capacity q) o (q.closed, xs)).2
    bounded_tail : (step o q).1.tail ≤ q.tail + 1

  try_push_frame :
      (v : A) (q : Queue A)
      → let q' = (try_push v q).1 in
        (q'.closed ≡ q.closed) × (capacity q' ≡ capacity q) × (q'.tail ≤ q.tail + 1)
  unfolding try_push store_tail write_slot
  try_push_frame v q = ground (arith, length-set q.slots (q.tail % capacity q) (some v))

  try_pop_frame :
      (q : Queue A)
      → let q' = (try_pop q).1 in
        (q'.closed ≡ q.closed) × (capacity q' ≡ capacity q) × (q'.tail ≤ q.tail + 1)
  unfolding try_pop store_head reset_slot
  try_pop_frame q = ground (arith, length-set q.slots (q.head % capacity q) none)

  step-Agrees :
      (q : Queue A) (o : Op A) (xs : List A) → Refines q xs → q.tail + 1 < 2 ^ 64 → Agrees q o xs
  unfolding step fifo_step close
  step-Agrees q (put v) xs r s =
      let (same, after) = try_push-Refines q xs v r s in
      let (c, k, t) = try_push_frame v q in
      record {
        same_reply = ap stored same;
        same_closed = c;
        same_capacity = k;
        refines = after;
        bounded_tail = t;
      }
  step-Agrees q get xs r s =
      let (same, after) = try_pop-Refines q xs r in
      let (c, k, t) = try_pop_frame q in
      record {
        same_reply = ap got same;
        same_closed = c;
        same_capacity = k;
        refines = after;
        bounded_tail = t;
      }
  step-Agrees q shut xs r s = record {
    same_reply = refl;
    same_closed = refl;
    same_capacity = refl;
    refines = record { bounded = r.bounded; placed = r.placed; small = r.small; held = r.held };
    bounded_tail = omega arith;
  }

  replies_refine :
      (os : List (Op A)) (q : Queue A) (xs : List A)
      → Refines q xs
      → q.tail + length os < 2 ^ 64
      → replies os q ≡ fifo_replies (capacity q) os (q.closed, xs)
  unfolding replies fifo_replies
  replies_refine [] q xs r s = refl
  replies_refine (o ∷ os) q xs r s =
      let a = step-Agrees q o xs r (omega arith) in
      let rest =
        replies_refine os (step o q).1 (fifo_step (capacity q) o (q.closed, xs)).2 a.refines
          (omega (arith, a.bounded_tail)) in
      let xs' = (fifo_step (capacity q) o (q.closed, xs)).2 in
      ap₂ ◌∷◌ a.same_reply (
        rest
        ∙ ap (λ k. fifo_replies k os ((step o q).1.closed, xs')) a.same_capacity
        ∙ ap (λ c. fifo_replies (capacity q) os (c, xs')) a.same_closed)

  fresh-Refines : (n : ℕ) → Refines {A = A} (fresh n) []
  unfolding fresh
  fresh-Refines n = record {
    bounded = omega arith;
    placed = omega arith;
    small = omega arith;
    held = tt;
  }

-- A client that makes fewer than 2^64 calls of `tryPush`, `tryPop` and `close`, one after the other,
-- on a new queue gets the answers of a FIFO list bounded by the capacity: no value is lost, doubled
-- or reordered, pushes fail exactly when the queue is full or closed, and no empty slot is read.
pub queue_is_fifo {ℓ} :
    {A : Type ℓ} (n : ℕ) (os : List (Op A))
    → length os < 2 ^ 64
    → replies os (fresh n) ≡ fifo_replies n os (false, [])
unfolding fresh
queue_is_fifo {A} n os h =
    replies_refine os (fresh n) [] (fresh-Refines n) (omega arith)
    ∙ ap (λ k. fifo_replies k os (false, [])) (length-replicate {A = Option A} n none)
