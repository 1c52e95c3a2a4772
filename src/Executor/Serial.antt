-- ===== src/Executor/Serial.antt =====
-- Runtime/include/executor/serialPipelineExecutor.hpp with the delivery thread of
-- Runtime/include/core/completionDispatcher.hpp. Each section under a mutex, and each call of the
-- pipeline, is one event; events of different threads come in any order. The dispatcher's queue is
-- a bounded FIFO list here; Common.BoundedQueue models its ring buffer.
pub mod Ids
pub mod Order
pub mod Draining
pub mod Stop
use vision_runtime.Prelude.{
  ℕ, zero, suc, ◌+◌, ◌%◌, ◌^◌, Bool, true, false, not, ◌&&◌, ◌||◌, Option, none, some, List, [],
  ◌∷◌, ◌++◌, map, length, leb, ltb, ◌==◌, if◌then◌else◌, String,
}
use Prim.Native.String.{◌++◌ as ◌++ₛ◌}
use vision_runtime.Core.Status.{
  Status, StatusCode, Result, success, failure, error, invalid_argument, invalid_state, queue_full,
  internal, cancelled,
}

pub data QueueFullPolicy : Type 0 where
  drop block : QueueFullPolicy

pub data StopMode : Type 0 where
  graceful immediate : StopMode

-- What a call of the pipeline ends in.
pub data Outcome (R : Type 0) : Type 0 where
  returned : Result R → Outcome R
  threw : String → Outcome R
  threw_unknown : Outcome R

pub record Task (P : Type 0) : Type 0 where
  pub id : ℕ
  pub packet : P
  pub cancel_requested : Bool

-- Where the runner thread stands: `settling` is before the move of the task into `queueCompletion`,
-- `delivering` after it.
pub data Runner (P R : Type 0) : Type 0 where
  resting releasing ended : Runner P R
  holding executing : Task P → Runner P R
  settling delivering : Task P → Result R → Runner P R

-- `runningTask_`: null, a task, or a task that was moved from, whose shared state is null.
pub data RunningTask : Type 0 where
  null_task live_task moved_task : RunningTask

pub record Executor (P R : Type 0) : Type 0 where
  pub has_pipeline : Bool
  pub queue_capacity : ℕ
  pub policy : QueueFullPolicy
  pub next_id : ℕ
  pub queue : List (Task P)
  pub runner : Runner P R
  pub running_task : RunningTask
  pub accepting : Bool
  pub stop_requested : Bool
  -- What waits in the completion dispatcher, and the completions delivered, oldest first.
  pub dispatched : List (Task P × Result R)
  pub completed : List (ℕ × Result R)
  -- A null pointer was dereferenced.
  pub crashed : Bool

pub data Submitted (P R : Type 0) : Type 0 where
  accepted : ℕ → Executor P R → Submitted P R
  rejected : Status → Submitted P R
  waits : Submitted P R

pub data Event (P : Type 0) : Type 0 where
  submits : P → Event P
  stops : StopMode → Event P
  cancels : ℕ → Event P
  runs delivers : Event P

abbrev pub is_block : QueueFullPolicy → Bool
is_block block = true
is_block drop = false

abbrev pub is_moved : RunningTask → Bool
is_moved moved_task = true
is_moved _ = false

abbrev pub new_task : {P : Type 0} → ℕ → P → Task P
new_task id packet = record { id = id; packet = packet; cancel_requested = false }

abbrev pub flagged : {P : Type 0} → Task P → Task P
flagged t = record t { cancel_requested = true }

abbrev pub flag_id : {P : Type 0} → ℕ → Task P → Task P
flag_id i t = if t.id == i then flagged t else t

abbrev pub cancelled_result : {R : Type 0} → Result R
cancelled_result = failure (error StatusCode.cancelled "task was cancelled")

-- `execute`, which turns exceptions into statuses.
unfoldable pub execute : {R : Type 0} → Outcome R → Result R
execute (returned r) = r
execute (threw what) = failure (error internal ("pipeline execution threw an exception: " ++ₛ what))
execute threw_unknown = failure (error internal "pipeline execution threw an unknown exception")

module _ {P R : Type 0} where
  unfoldable pub create : Bool → ℕ → QueueFullPolicy → Executor P R
  create has_pipeline capacity policy = record {
    has_pipeline = has_pipeline;
    queue_capacity = capacity;
    policy = policy;
    next_id = 1;
    queue = [];
    runner = resting;
    running_task = null_task;
    accepting = true;
    stop_requested = false;
    dispatched = [];
    completed = [];
    crashed = false;
  }

  abbrev pub enqueue : P → Executor P R → Executor P R
  enqueue packet e = record e {
    next_id = (e.next_id + 1) % 2 ^ 64;
    queue = e.queue ++ new_task e.next_id packet ∷ [];
  }

  -- `submit`, at a moment when the caller holds the mutex; `waits` is the wait for queue space.
  unfoldable pub submit : P → Executor P R → Submitted P R
  submit packet e =
      if not e.has_pipeline
      then rejected (error invalid_state "executor requires a pipeline")
      else if e.queue_capacity == 0
      then rejected (error invalid_argument "executor queue capacity must be greater than zero")
      else if not e.accepting
      then rejected (error invalid_state "executor has stopped accepting tasks")
      else if is_block e.policy && leb e.queue_capacity (length e.queue)
      then waits
      else if leb e.queue_capacity (length e.queue)
      then rejected (error queue_full "executor queue reached its capacity")
      else accepted e.next_id (enqueue packet e)

  abbrev pub flag_running : Runner P R → Runner P R
  flag_running (holding t) = holding (flagged t)
  flag_running (executing t) = executing (flagged t)
  flag_running (settling t r) = settling (flagged t) r
  flag_running w = w

  -- `runningTask_->requestCancellation()`, which flags a task that is there.
  abbrev pub cancel_running : RunningTask → Runner P R → Runner P R
  cancel_running live_task w = flag_running w
  cancel_running null_task w = w
  cancel_running moved_task w = w

  -- The locked section of `requestStop`.
  unfoldable pub request_stop : StopMode → Executor P R → Executor P R
  request_stop graceful e = record e { accepting = false; stop_requested = true }
  request_stop immediate e = record e {
    accepting = false;
    stop_requested = true;
    runner = cancel_running e.running_task e.runner;
    queue = map flagged e.queue;
    crashed = e.crashed || is_moved e.running_task;
  }

  abbrev pub flag_runner : ℕ → Runner P R → Runner P R
  flag_runner i (holding t) = holding (flag_id i t)
  flag_runner i (executing t) = executing (flag_id i t)
  flag_runner i (settling t r) = settling (flag_id i t) r
  flag_runner i w = w

  -- `TaskHandle::cancel` on the task of a number.
  unfoldable pub cancel_task : ℕ → Executor P R → Executor P R
  cancel_task i e = record e { queue = map (flag_id i) e.queue; runner = flag_runner i e.runner }

  -- The locked section at the head of the loop of `runTasks`.
  unfoldable pub take_task : List (Task P) → Executor P R → Executor P R
  take_task [] e = if e.stop_requested then record e { runner = ended } else e
  take_task (t ∷ ts) e = record e { queue = ts; runner = holding t; running_task = live_task }

  -- One round of `CompletionDispatcher::run`, which completes the task.
  unfoldable pub deliver : List (Task P × Result R) → Executor P R → Executor P R
  deliver [] e = e
  deliver ((t, r) ∷ rest) e = record e {
    dispatched = rest;
    completed = e.completed ++ (t.id, r) ∷ [];
  }

  abbrev pub after_submit : Executor P R → Submitted P R → Executor P R
  after_submit e (accepted i e') = e'
  after_submit e (rejected s) = e
  after_submit e waits = e

module _ {P R : Type 0} (run : P → Outcome R) where
  -- One step of the runner thread; a push to a full dispatcher waits.
  unfoldable pub move_runner : Runner P R → Executor P R → Executor P R
  move_runner resting e = take_task e.queue e
  move_runner (holding t) e = record e {
    runner = if t.cancel_requested then settling t cancelled_result else executing t;
  }
  move_runner (executing t) e = record e {
    runner = settling t (if t.cancel_requested then cancelled_result else execute (run t.packet));
  }
  move_runner (settling t r) e = record e { runner = delivering t r; running_task = moved_task }
  move_runner (delivering t r) e =
      if ltb (length e.dispatched) e.queue_capacity
      then record e { dispatched = e.dispatched ++ (t, r) ∷ []; runner = releasing }
      else e
  move_runner releasing e = record e { runner = resting; running_task = null_task }
  move_runner ended e = e

  unfoldable pub step : Event P → Executor P R → Executor P R
  step (submits p) e = after_submit e (submit p e)
  step (stops m) e = request_stop m e
  step (cancels i) e = cancel_task i e
  step runs e = move_runner e.runner e
  step delivers e = deliver e.dispatched e

  unfoldable pub play : List (Event P) → Executor P R → Executor P R
  play [] e = e
  play (v ∷ vs) e = play vs (step v e)
