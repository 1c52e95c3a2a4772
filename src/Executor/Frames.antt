-- ===== src/Executor/Frames.antt =====
-- Runtime/include/executor/frameExecutor.hpp: one frame source that drives an executor. The source's
-- thread, which calls `onFrame`, the executor's threads, which call the completion callback, the timer
-- and the clients take their steps in any order; each locked section and each call is one step. Logs,
-- the users' callbacks and the pause between frames leave no trace in the state.
pub mod Accounting
pub mod Finishing
mod Tests
use vision_runtime.Prelude.{
  ℕ, ◌+◌, Bool, true, false, not, ◌&&◌, ◌||◌, Option, none, some, is_some, List, [], ◌∷◌, ◌++◌, ◌%◌,
  ◌^◌, length, leb, ◌==◌, if◌then◌else◌,
}
use vision_runtime.Prelude.Int.{ℤ, pos, negsuc}
use vision_runtime.Core.Status.{
  Status, StatusCode, Result, success, failure, error, invalid_argument, invalid_state, ◌>>◌,
  reject_if,
}
use vision_runtime.Executor.Serial.{StopMode, graceful, immediate}
use vision_runtime.Executor.Interface.{PipelineExecutor}

pub data SourceFailurePolicy : Type 0 where
  skip stop_all : SourceFailurePolicy

-- Durations are counts of milliseconds.
pub record Options : Type 0 where
  pub frame_count : Option ℕ
  pub duration : Option ℤ
  pub frame_interval : ℤ
  pub source_failure_policy : SourceFailurePolicy

pub record Summary : Type 0 where
  pub received : ℕ
  pub submitted : ℕ
  pub completed : ℕ
  pub failed : ℕ
  pub dropped : ℕ
  pub source_failures : ℕ

-- Where the source's thread stands in `onFrame`. The truth values are `reachedFrameCount` and
-- `stopForFailure`.
pub data SourceThread (F : Type 0) : Type 0 where
  idle : SourceThread F
  received_frame : Result F → Bool → SourceThread F
  answered : Result (Unit {0}) → Bool → SourceThread F
  deciding : Bool → Bool → SourceThread F

-- `size_t` is 64 bits wide.
abbrev pub add_count : ℕ → ℕ → ℕ
add_count n k = (n + k) % 2 ^ 64

abbrev pub no_frames : Summary
no_frames = record {
  received = 0;
  submitted = 0;
  completed = 0;
  failed = 0;
  dropped = 0;
  source_failures = 0;
}

abbrev pub is_negative : ℤ → Bool
is_negative (pos n) = false
is_negative (negsuc n) = true

abbrev pub is_positive : ℤ → Bool
is_positive (pos n) = not (n == 0)
is_positive (negsuc n) = false

abbrev pub count_is_zero : Option ℕ → Bool
count_is_zero none = false
count_is_zero (some n) = n == 0

abbrev pub not_positive : Option ℤ → Bool
not_positive none = false
not_positive (some d) = not (is_positive d)

abbrev pub reaches : Option ℕ → ℕ → Bool
reaches none received = false
reaches (some n) received = leb n received

abbrev pub is_queue_full : StatusCode → Bool
is_queue_full StatusCode.queue_full = true
is_queue_full _ = false

abbrev pub stops_on_failure : SourceFailurePolicy → Bool
stops_on_failure skip = false
stops_on_failure stop_all = true

unfoldable pub failures : {R : Type 0} → List (Result R) → ℕ
failures [] = 0
failures (success r ∷ rs) = failures rs
failures (failure s ∷ rs) = failures rs + 1

module _ {F R : Type 0} (X : PipelineExecutor F R) where
  pub record Session : Type 0 where
    pub options : Options
    pub has_source : Bool
    pub has_executor : Bool
    pub summary : Summary
    pub started : Bool
    pub stop_requested : Bool
    pub finished : Bool
    pub timer_cancelled : Bool
    pub thread : SourceThread F
    -- The source was asked to stop, and its thread has ended.
    pub source_stopped : Bool
    pub source_ended : Bool
    -- Stops of the executor that `requestStop` has still to call, after its locked section.
    pub relays : List StopMode
    pub executor : X.State

  pub data Event : Type 0 where
    frames : Result F → Event
    source_moves relays_stop timer_fires waits_for_source waits_for_executor : Event
    stops : StopMode → Event
    works : X.Work → Event

  unfoldable pub create : Options → Bool → Bool → X.State → Session
  create options has_source has_executor x = record {
    options = options;
    has_source = has_source;
    has_executor = has_executor;
    summary = no_frames;
    started = false;
    stop_requested = false;
    finished = false;
    timer_cancelled = false;
    thread = idle;
    source_stopped = false;
    source_ended = false;
    relays = [];
    executor = x;
  }

  -- The checks of `start`.
  unfoldable pub check_start : Session → Result (Unit {0})
  check_start e =
      reject_if (not e.has_source) (error invalid_state "frame executor requires a source")
      >> reject_if (not e.has_executor)
          (error invalid_state "frame executor requires a pipeline executor")
      >> reject_if (count_is_zero e.options.frame_count)
          (error invalid_argument "frame count must be greater than zero")
      >> reject_if (not_positive e.options.duration)
          (error invalid_argument "execution duration must be greater than zero")
      >> reject_if (is_negative e.options.frame_interval)
          (error invalid_argument "frame interval must not be negative")
      >> reject_if e.started (error invalid_state "frame executor has already started")

  -- `requestStop`: the locked section, the timer and the source; the executor's stop is relayed.
  unfoldable pub request_stop : StopMode → Session → Session
  request_stop m e = if e.finished then e else record e {
    stop_requested = true;
    timer_cancelled = true;
    source_stopped = true;
    relays = e.relays ++ m ∷ [];
  }

  -- The source's answer to `start`; a failed start stops everything, and then waits.
  unfoldable pub start_answered : Result (Unit {0}) → Session → Session × Result (Unit {0})
  unfolding request_stop
  start_answered (success u) e = (e, success u)
  start_answered (failure s) e = (request_stop immediate e, failure s)

  abbrev pub start_checked :
      Result (Unit {0}) → Result (Unit {0}) → Session → Session × Result (Unit {0})
  start_checked (failure s) source_answer e = (e, failure s)
  start_checked (success u) source_answer e =
      start_answered source_answer (record e { started = true })

  unfoldable pub start : Result (Unit {0}) → Session → Session × Result (Unit {0})
  unfolding check_start start_answered
  start source_answer e = start_checked (check_start e) source_answer e

  -- The head of `onFrame`.
  unfoldable pub receive : Result F → Session → Session
  receive frame e =
      let s = record e.summary { received = add_count e.summary.received 1 } in
      record e {
        summary = s;
        thread = received_frame frame (reaches e.options.frame_count s.received);
      }

  abbrev pub submitted_frame : Option (Result (Unit {0}) × X.State) → Bool → Session → Session
  submitted_frame none reached e = e
  submitted_frame (some (answer, x)) reached e = record e {
    executor = x;
    thread = answered answer reached;
  }

  -- The two branches of `onFrame`: a failure of the source, or a submission.
  unfoldable pub handle_frame : Result F → Bool → Session → Session
  handle_frame (failure s) reached e = record e {
    summary = record e.summary { source_failures = add_count e.summary.source_failures 1 };
    thread = deciding reached (stops_on_failure e.options.source_failure_policy);
  }
  handle_frame (success f) reached e = submitted_frame (X.submit f e.executor) reached e

  -- What `onFrame` counts after a submission.
  unfoldable pub count_answer : Result (Unit {0}) → Bool → Session → Session
  count_answer (success u) reached e = record e {
    summary = record e.summary { submitted = add_count e.summary.submitted 1 };
    thread = deciding reached false;
  }
  count_answer (failure s) reached e =
      if is_queue_full s.code
      then record e {
        summary = record e.summary { dropped = add_count e.summary.dropped 1 };
        thread = deciding reached false;
      }
      else record e { thread = deciding reached (not e.stop_requested) }

  -- The end of `onFrame`.
  unfoldable pub decide : Bool → Bool → Session → Session
  unfolding request_stop
  decide reached stop_for_failure e =
      if reached || stop_for_failure
      then request_stop (if stop_for_failure then immediate else graceful)
          (record e { thread = idle })
      else record e { thread = idle }

  -- One step of the source's thread in `onFrame`.
  unfoldable pub move_source : SourceThread F → Session → Session
  unfolding handle_frame count_answer decide
  move_source idle e = e
  move_source (received_frame frame reached) e = handle_frame frame reached e
  move_source (answered answer reached) e = count_answer answer reached e
  move_source (deciding reached stop) e = decide reached stop e

  -- The completion callbacks.
  unfoldable pub count_completions : List (Result R) → Session → Session
  unfolding failures
  count_completions rs e = record e {
    summary = record e.summary {
      completed = add_count e.summary.completed (length rs);
      failed = add_count e.summary.failed (failures rs);
    };
  }

  -- The calls of `executor_->requestStop` that are due.
  unfoldable pub relay : List StopMode → Session → Session
  relay [] e = e
  relay (m ∷ ms) e = record e { relays = ms; executor = X.stop m e.executor }

  -- The timer's thread, when the duration has passed.
  unfoldable pub fire_timer : Session → Session
  unfolding request_stop
  fire_timer e =
      if not (is_some e.options.duration) || not e.started || e.timer_cancelled
      then e
      else request_stop graceful e

  abbrev pub is_idle : SourceThread F → Bool
  is_idle idle = true
  is_idle _ = false

  -- `source_->wait()` and `requestStop()` in `wait`, once the source has ended.
  unfoldable pub end_source : Session → Session
  unfolding request_stop
  end_source e =
      if e.finished || not (is_idle e.thread)
      then e
      else request_stop graceful (record e { source_ended = true })

  -- `executor_->wait()` returns, whatever that says of the executor's tasks, and `wait` ends.
  unfoldable pub end_executor : Session → Session
  end_executor e = if e.source_ended then record e { finished = true } else e

  unfoldable pub step : Event → Session → Session
  unfolding receive move_source count_completions relay fire_timer end_source end_executor
      request_stop
  step (frames f) e = if is_idle e.thread && not e.source_ended then receive f e else e
  step source_moves e = move_source e.thread e
  step relays_stop e = relay e.relays e
  step timer_fires e = fire_timer e
  step waits_for_source e = end_source e
  step waits_for_executor e = end_executor e
  step (stops m) e = request_stop m e
  step (works w) e =
      let (x, rs) = X.advance w e.executor in count_completions rs (record e { executor = x })

  unfoldable pub play : List Event → Session → Session
  unfolding step
  play [] e = e
  play (v ∷ vs) e = play vs (step v e)
