-- ===== src/Executor/Tests.antt =====
-- Tests of the executors on small runs, and instances of what is proved of them.
use vision_runtime.Prelude.{
  ◌^◌, ◌<◌, ℕ, ◌+◌, ◌≤◌, true, false, ◌≡◌, refl, List, [], ◌∷◌, ◌++◌, map, length, ltb→lt, ◌↔◌, ◌⊎◌,
  ◌==◌, if◌then◌else◌, arith,
}
use vision_runtime.Core.Status.{Result, success, failure, error, internal}
use vision_runtime.Common.BoundedQueue.{Queue, fresh, is_empty, may_push}
use vision_runtime.Executor.Task.{Shared, new_shared}
use vision_runtime.Executor.Serial.{
  drop, graceful, immediate, Outcome, returned, threw, Task, resting, null_task, releasing, ended,
  delivering, Executor, Event, submits, stops, cancels, runs, delivers, create, submit,
  request_stop, cancel_task, take_task, execute, deliver, move_runner, step, play, new_task,
  flagged, cancelled_result,
}
use vision_runtime.Executor.Serial.Order.{all_ids, fifo_delivery}
use vision_runtime.Executor.Serial.Ids.{range}
use vision_runtime.Executor.Serial.Stop.{immediate_stop_race}
use vision_runtime.Executor.Serial.Draining.{drain_turns, completion_of, stop-drains}

-- A pipeline that adds one, and throws on 0.
abbrev add_one : ℕ → Outcome ℕ
add_one n = if n == 0 then threw "no input" else returned (success (n + 1))

abbrev history : List (Event ℕ)
history =
    submits 5
    ∷ submits 0
    ∷ runs
    ∷ runs
    ∷ submits 7
    ∷ cancels 3
    ∷ runs
    ∷ runs
    ∷ runs
    ∷ delivers
    ∷ runs
    ∷ stops graceful
    ∷ []

abbrev idle : Executor ℕ ℕ
idle = create true 2 drop

-- The second task throws, the third is cancelled before it runs, and both are completed all the same.
history_completed :
    (play add_one
      (history
        ++ runs ∷ runs ∷ runs ∷ runs ∷ runs ∷ delivers ∷ runs ∷ runs ∷ runs ∷ runs ∷ runs ∷ delivers
          ∷ [])
      idle).completed
    ≡ (1, success 6)
      ∷ (2, failure (error internal "pipeline execution threw an exception: no input"))
      ∷ (3, cancelled_result)
      ∷ []
unfolding play step create submit request_stop cancel_task move_runner take_task execute deliver
history_completed = refl

fifo_delivery_example :
    let e = play add_one history (create true 2 drop) in
    (k : ℕ) × (all_ids e ≡ range 1 k)
    × (e.next_id ≡ k + 1)
    × (length e.queue ≤ e.queue_capacity)
    × (length e.dispatched ≤ e.queue_capacity)
fifo_delivery_example = fifo_delivery add_one true 2 drop history (ltb→lt _ _ refl)

-- Two tasks are queued, the first of them cancelled, when a stop is requested.
abbrev stopping : Executor ℕ ℕ
stopping = record {
  has_pipeline = true;
  queue_capacity = 2;
  policy = drop;
  next_id = 3;
  queue = flagged (new_task 1 5) ∷ new_task 2 0 ∷ [];
  runner = resting;
  running_task = null_task;
  accepting = false;
  stop_requested = true;
  dispatched = [];
  completed = [];
  crashed = false;
}

stop-drains_example :
    let e' = play add_one (drain_turns add_one stopping.queue) stopping in
    (e'.runner ≡ ended)
    × (e'.queue ≡ [])
    × (e'.dispatched ≡ [])
    × (e'.completed ≡ stopping.completed ++ map (completion_of add_one) stopping.queue)
stop-drains_example = stop-drains add_one stopping (omega arith) refl refl refl

-- The runner has moved its task to the dispatcher and not yet cleared `runningTask_`.
abbrev handing_over : List (Event ℕ)
handing_over = submits 5 ∷ runs ∷ runs ∷ runs ∷ runs ∷ []

not_crashed : (play add_one handing_over idle).crashed ≡ false
unfolding play step create submit move_runner take_task execute
not_crashed = refl

immediate_stop_race_example :
    let e = play add_one handing_over (create true 2 drop) in
    ((request_stop immediate e).crashed ≡ true)
    ↔ ((e.runner ≡ releasing) ⊎ ((t : Task ℕ) × (r : Result ℕ) × (e.runner ≡ delivering t r)))
immediate_stop_race_example = immediate_stop_race add_one true 2 drop handing_over not_crashed

abbrev pending_task : Shared ℕ
pending_task = new_shared

abbrev prepared : Queue ℕ
prepared = fresh 2

nothing_prepared : is_empty prepared ≡ true
unfolding is_empty fresh
nothing_prepared = refl

room_left : may_push prepared ≡ true
unfolding may_push fresh
room_left = refl

small_tail : prepared.tail + 1 < 2 ^ 64
unfolding fresh
small_tail = ltb→lt _ _ refl
