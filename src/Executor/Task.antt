-- ===== src/Executor/Task.antt =====
-- Runtime/include/executor/taskHandle.hpp and Runtime/include/executor/executorTask.hpp.
pub mod Lifecycle
use vision_runtime.Prelude.{
  ℕ, Bool, true, false, ◌||◌, Option, none, some, List, [], ◌∷◌, if◌then◌else◌,
}
use vision_runtime.Core.Status.{Status, StatusCode, Result, success, failure}

pub data TaskState : Type 0 where
  queued running completed failed cancelled : TaskState

-- `detail::TaskSharedState`: what a task and its handles share. `delivered` is the promise's value.
pub record Shared (R : Type 0) : Type 0 where
  pub state : TaskState
  pub cancel_requested : Bool
  pub delivered : Option (Result R)

abbrev pub is_cancelled_code : StatusCode → Bool
is_cancelled_code StatusCode.cancelled = true
is_cancelled_code _ = false

abbrev pub is_pending : TaskState → Bool
is_pending queued = true
is_pending running = true
is_pending _ = false

-- The effect of `complete`: a second call sets a promise that is set, which ends the program.
pub data Completion (R : Type 0) : Type 0 where
  notified : Shared R → Completion R
  promise_already_satisfied : Completion R

module _ {R : Type 0} where
  abbrev pub new_shared : Shared R
  new_shared = record { state = queued; cancel_requested = false; delivered = none }

  -- `TaskHandle::state`; a default handle has no shared state.
  abbrev pub handle_state : Option (Shared R) → TaskState
  handle_state none = cancelled
  handle_state (some s) = s.state

  -- `TaskHandle::cancel`, with its answer.
  unfoldable pub cancel : Shared R → Shared R × Bool
  cancel s =
      if is_pending s.state
      then if s.cancel_requested then (s, false) else (record s { cancel_requested = true }, true)
      else (s, false)

  unfoldable pub mark_running : Shared R → Shared R
  mark_running s = record s { state = running }

  unfoldable pub request_cancellation : Shared R → Shared R
  request_cancellation s = record s { cancel_requested = true }

  abbrev pub final_state : Result R → TaskState
  final_state (success r) = completed
  final_state (failure s) = if is_cancelled_code s.code then cancelled else failed

  abbrev pub satisfy : Option (Result R) → Shared R → Completion R
  satisfy none s = notified s
  satisfy (some r) s = promise_already_satisfied

  unfoldable pub complete : Result R → Shared R → Completion R
  complete r s = satisfy s.delivered (record s { state = final_state r; delivered = some r })
