-- ===== src/Executor/Staged.antt =====
-- What Runtime/include/executor/parallelPipelineExecutor.hpp and batchPipelineExecutor.hpp share: both
-- files have the same entry queue, and threads that take a task from one queue, call a stage of the
-- pipeline and push the task to the next queue.
pub mod Tasks
pub mod Right
pub mod Progress
use vision_runtime.Prelude.{
  ℕ, ◌+◌, ◌%◌, ◌^◌, Bool, true, false, not, ◌&&◌, ◌||◌, List, [], ◌∷◌, ◌++◌, map, length, leb, ltb,
  ◌==◌, if◌then◌else◌, String,
}
use Prim.Native.String.{◌++◌ as ◌++ₛ◌}
use vision_runtime.Core.Status.{
  Status, Result, success, failure, error, invalid_argument, invalid_state, queue_full, internal,
  ◌>>=◌,
}
use vision_runtime.Executor.Serial.{
  QueueFullPolicy, StopMode, graceful, immediate, Outcome, returned, threw, threw_unknown, is_block,
  cancelled_result,
}

-- A task with its number, the packet it was submitted with, and what the stages have made of it.
pub record Item (P A : Type 0) : Type 0 where
  pub id : ℕ
  pub packet : P
  pub value : Result A

-- The tasks' shared cancellation flags, as the numbers of the tasks whose flag is set, and
-- `immediateStopRequested_`.
pub record Flags : Type 0 where
  pub immediate_stop : Bool
  pub requested : List ℕ

-- Where a stage's thread stands: `holding` before its first test for cancellation, `calling` before
-- the second, and `handing` before it pushes the task.
pub data Worker (P A B : Type 0) : Type 0 where
  resting ended : Worker P A B
  holding calling : Item P A → Worker P A B
  handing : Item P B → Worker P A B

-- A stage's thread between its two queues.
pub record Link (P A B : Type 0) : Type 0 where
  pub input : List (Item P A)
  pub worker : Worker P A B
  pub output : List (Item P B)

-- What the entry mutex guards, with the options of the executor.
pub record Entry (P : Type 0) : Type 0 where
  pub has_pipeline : Bool
  pub queue_capacity : ℕ
  pub stage_capacity : ℕ
  pub policy : QueueFullPolicy
  pub next_id : ℕ
  pub queue : List (Item P P)
  pub accepting : Bool
  pub stop_requested : Bool
  pub flags : Flags

pub data Submitted (P : Type 0) : Type 0 where
  accepted : ℕ → Entry P → Submitted P
  rejected : Status → Submitted P
  waits : Submitted P

unfoldable pub mem : ℕ → List ℕ → Bool
mem i [] = false
mem i (j ∷ js) = (i == j) || mem i js

abbrev pub ids : {P A : Type 0} → List (Item P A) → List ℕ
ids = map λ t. t.id

-- `cancelled`.
unfoldable pub is_cancelled : Flags → ℕ → Bool
unfolding mem
is_cancelled f i = f.immediate_stop || mem i f.requested

-- `stageException`, around a call of the pipeline.
unfoldable pub stage_result : {B : Type 0} → String → Outcome B → Result B
stage_result stage (returned r) = r
stage_result stage (threw what) =
    failure (error internal ((stage ++ₛ " stage threw an exception: ") ++ₛ what))
stage_result stage threw_unknown =
    failure (error internal ((stage ++ₛ " stage threw an exception: ") ++ₛ "unknown exception"))

abbrev pub with_value : {P A B : Type 0} → Item P A → Result B → Item P B
with_value t r = record { id = t.id; packet = t.packet; value = r }

module _ {P : Type 0} where
  abbrev pub new_entry : Bool → ℕ → ℕ → QueueFullPolicy → Entry P
  new_entry has_pipeline capacity stage_capacity policy = record {
    has_pipeline = has_pipeline;
    queue_capacity = capacity;
    stage_capacity = stage_capacity;
    policy = policy;
    next_id = 1;
    queue = [];
    accepting = true;
    stop_requested = false;
    flags = record { immediate_stop = false; requested = [] };
  }

  abbrev pub new_item : ℕ → P → Item P P
  new_item id packet = record { id = id; packet = packet; value = success packet }

  abbrev pub enqueue : P → Entry P → Entry P
  enqueue packet e = record e {
    next_id = (e.next_id + 1) % 2 ^ 64;
    queue = e.queue ++ new_item e.next_id packet ∷ [];
  }

  -- `submit`, at a moment when the caller holds the mutex; `waits` is the wait for queue space. The
  -- message for a missing pipeline names the executor.
  unfoldable pub submit_entry : String → P → Entry P → Submitted P
  submit_entry requires packet e =
      if not e.has_pipeline
      then rejected (error invalid_state requires)
      else if (e.queue_capacity == 0) || (e.stage_capacity == 0)
      then rejected (error invalid_argument "executor queue capacities must be greater than zero")
      else if not e.accepting
      then rejected (error invalid_state "executor has stopped accepting tasks")
      else if is_block e.policy && leb e.queue_capacity (length e.queue)
      then waits
      else if leb e.queue_capacity (length e.queue)
      then rejected (error queue_full "executor queue reached its capacity")
      else accepted e.next_id (enqueue packet e)

  abbrev pub after_submit : Entry P → Submitted P → Entry P
  after_submit e (accepted i e') = e'
  after_submit e (rejected s) = e
  after_submit e waits = e

  -- The locked section of `requestStop`.
  unfoldable pub stop_entry : StopMode → Entry P → Entry P
  stop_entry graceful e = record e { accepting = false; stop_requested = true }
  stop_entry immediate e = record e {
    accepting = false;
    stop_requested = true;
    flags = record { immediate_stop = true; requested = ids e.queue ++ e.flags.requested };
  }

  -- `TaskHandle::cancel` on the task of a number, which there is a handle of once it was accepted; it
  -- sets no flag once the task is done.
  unfoldable pub cancel_entry : List ℕ → ℕ → Entry P → Entry P
  cancel_entry done i e =
      if ltb i e.next_id && not (mem i done)
      then record e { flags = record e.flags { requested = i ∷ e.flags.requested } }
      else e

abbrev pub is_ended : {P A B : Type 0} → Worker P A B → Bool
is_ended ended = true
is_ended _ = false

module _ {P A B : Type 0} where
  -- The head of a thread's loop: it takes a task, and ends when there is none and `last` holds.
  unfoldable pub take_item : Bool → List (Item P A) → Link P A B → Link P A B
  take_item last [] l = if last then record l { worker = ended } else l
  take_item last (t ∷ ts) l = record l { input = ts; worker = holding t }

  -- The push to a bounded queue, which waits while the queue is full.
  unfoldable pub hand_over : ℕ → Item P B → Link P A B → Link P A B
  hand_over capacity t l =
      if ltb (length l.output) capacity
      then record l { output = l.output ++ t ∷ []; worker = resting }
      else l

  -- One step of a stage's thread.
  unfoldable pub move_link :
      Bool → ℕ → Flags → (A → Result B) → Worker P A B → Link P A B → Link P A B
  move_link last capacity f call resting l = take_item last l.input l
  move_link last capacity f call (holding t) l = record l {
    worker = if is_cancelled f t.id then handing (with_value t cancelled_result) else calling t;
  }
  move_link last capacity f call (calling t) l = record l {
    worker =
        handing (with_value t (if is_cancelled f t.id then cancelled_result else t.value >>= call));
  }
  move_link last capacity f call (handing t) l = hand_over capacity t l
  move_link last capacity f call ended l = l
