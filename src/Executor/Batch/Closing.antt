-- ===== src/Executor/Batch/Closing.antt =====
-- Runtime/include/executor/batchPipelineExecutor.hpp: the moment at which `collectBatch` gets nothing
-- from the ring buffer of prepared tasks.
use vision_runtime.Prelude.{◌+◌, ◌^◌, ◌<◌, Bool, true, false, not, ◌≡◌, refl, arith}
use vision_runtime.Common.BoundedQueue.{
  Queue, nothing, popped, is_empty, may_push, close, try_push, store_tail, write_slot,
  pop_for_round,
}

-- What `collectBatch` returns when `popFor` has returned nothing: true to go on, and false for a queue
-- that is closed and, by the comment, drained.
unfoldable pub goes_on {ℓ} : {A : Type ℓ} → Queue A → Bool
goes_on q = not q.closed

timed_out {ℓ} :
    {A : Type ℓ} (q later : Queue A)
    → is_empty q ≡ true
    → pop_for_round q later true ≡ popped nothing later
unfolding pop_for_round
timed_out q later e = ground (arith, e)

pushed_is_there {ℓ} :
    {A : Type ℓ} (v : A) (q : Queue A)
    → is_empty q ≡ true
    → may_push q ≡ true
    → q.tail + 1 < 2 ^ 64
    → is_empty (try_push v q).1 ≡ false
unfolding is_empty try_push store_tail write_slot
pushed_is_there v q e m l = ground (arith, e, m, l)

-- When the producer pushes a value and closes the queue after the last `tryPop` of a `popFor` that
-- found the queue empty, and the deadline passes before the next one, `popFor` returns nothing and
-- `collectBatch` reports the end of the input, although the value is still in the queue.
pub closed_is_not_drained {ℓ} :
    {A : Type ℓ} (v : A) (q : Queue A)
    → is_empty q ≡ true
    → may_push q ≡ true
    → q.tail + 1 < 2 ^ 64
    → let later = close (try_push v q).1 in
      (pop_for_round q later true ≡ popped nothing later)
      × (goes_on later ≡ false)
      × (is_empty later ≡ false)
unfolding goes_on close is_empty
closed_is_not_drained v q e m l = (timed_out q _ e, refl, pushed_is_there v q e m l)
