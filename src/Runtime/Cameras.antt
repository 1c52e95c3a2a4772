-- ===== src/Runtime/Cameras.antt =====
-- Runtime/include/runtime/multiCameraSession.hpp: several sources that drive one executor. Each
-- source's thread, the executor's threads, the timer and the clients take their steps in any order;
-- each locked section and each call is one step. Logs and the users' callbacks leave no trace in the
-- state.
pub mod Sums
pub mod Counters
pub mod Finishing
mod Tests
use vision_runtime.Prelude.{
  ℕ, zero, suc, ◌+◌, Bool, true, false, not, ◌&&◌, ◌||◌, Option, none, some, is_some, List, [], ◌∷◌,
  ◌++◌, length, get_elem?, set, replicate, ◌==◌, if◌then◌else◌,
}
use vision_runtime.Prelude.Int.{ℤ}
use vision_runtime.Core.Status.{
  Status, Result, success, failure, error, invalid_argument, invalid_state, ◌>>◌, reject_if,
}
use vision_runtime.Executor.Serial.{StopMode, graceful, immediate}
use vision_runtime.Executor.Interface.{PipelineExecutor}
use vision_runtime.Executor.Frames.{add_count, not_positive, is_queue_full, failures}

pub record Summary : Type 0 where
  pub received : ℕ
  pub submitted : ℕ
  pub completed : ℕ
  pub failed : ℕ
  pub dropped : ℕ
  pub source_failures : ℕ
  pub dropped_per_source : List ℕ
  pub received_per_source : List ℕ

-- Where a source's thread stands in `onFrame`; `leaving` is before the stop of a refused submission.
pub data SourceThread (F : Type 0) : Type 0 where
  idle leaving : SourceThread F
  received_frame : Result F → SourceThread F
  answered : Result (Unit {0}) → SourceThread F

-- `++counts[index]`, for an index in range.
abbrev pub increment : List ℕ → ℕ → List ℕ
increment [] i = []
increment (n ∷ ns) zero = add_count n 1 ∷ ns
increment (n ∷ ns) (suc i) = n ∷ increment ns i

abbrev pub is_idle : {F : Type 0} → SourceThread F → Bool
is_idle idle = true
is_idle _ = false

abbrev pub all_idle : {F : Type 0} → List (SourceThread F) → Bool
all_idle [] = true
all_idle (t ∷ ts) = is_idle t && all_idle ts

module _ {F R : Type 0} (X : PipelineExecutor (F × ℕ) R) where
  -- The packet that is submitted is the frame with the number of its source.
  pub record Session : Type 0 where
    pub duration : Option ℤ
    pub has_executor : Bool
    pub summary : Summary
    pub started : Bool
    pub finished : Bool
    pub stop_requested : Bool
    pub timer_cancelled : Bool
    -- One thread for each source, and the sources that were started.
    pub threads : List (SourceThread F)
    pub running : ℕ
    pub sources_stopped : Bool
    pub sources_ended : Bool
    -- Stops of the executor that `requestStop` has still to call, after its locked section.
    pub relays : List StopMode
    pub executor : X.State

  pub data Event : Type 0 where
    frames : ℕ → Result F → Event
    source_moves : ℕ → Event
    relays_stop timer_fires waits_for_sources waits_for_executor : Event
    stops : StopMode → Event
    works : X.Work → Event

  unfoldable pub create : Option ℤ → ℕ → Bool → X.State → Session
  create duration sources has_executor x = record {
    duration = duration;
    has_executor = has_executor;
    summary = record {
      received = 0;
      submitted = 0;
      completed = 0;
      failed = 0;
      dropped = 0;
      source_failures = 0;
      dropped_per_source = replicate sources 0;
      received_per_source = replicate sources 0;
    };
    started = false;
    finished = false;
    stop_requested = false;
    timer_cancelled = false;
    threads = replicate sources idle;
    running = 0;
    sources_stopped = false;
    sources_ended = false;
    relays = [];
    executor = x;
  }

  -- The checks of `start`.
  unfoldable pub check_start : Session → Result (Unit {0})
  check_start e =
      reject_if (length e.threads == 0)
        (error invalid_argument "multi camera session requires at least one source")
      >> reject_if (not e.has_executor)
          (error invalid_state "multi camera session requires a pipeline executor")
      >> reject_if (not_positive e.duration)
          (error invalid_argument "execution duration must be greater than zero")
      >> reject_if e.started (error invalid_state "multi camera session has already started")

  -- The loop of `start` over the sources' answers. When a source does not start, those before it are
  -- stopped again and the timer is cancelled.
  unfoldable pub start_sources : List (Result (Unit {0})) → Session → Session × Result (Unit {0})
  start_sources [] e = (e, success tt)
  start_sources (success u ∷ answers) e =
      start_sources answers (record e { running = e.running + 1 })
  start_sources (failure s ∷ answers) e =
      (record e { running = 0; timer_cancelled = true }, failure s)

  abbrev pub start_checked :
      Result (Unit {0}) → List (Result (Unit {0})) → Session → Session × Result (Unit {0})
  start_checked (failure s) answers e = (e, failure s)
  start_checked (success u) answers e = start_sources answers (record e { started = true })

  -- `start`, with the answers of the sources in their order.
  unfoldable pub start : List (Result (Unit {0})) → Session → Session × Result (Unit {0})
  unfolding check_start start_sources
  start answers e = start_checked (check_start e) answers e

  -- `requestStop`: the locked section, the timer and the sources; the executor's stop is relayed.
  unfoldable pub request_stop : StopMode → Session → Session
  request_stop m e = if e.finished then e else record e {
    stop_requested = true;
    timer_cancelled = true;
    sources_stopped = true;
    relays = e.relays ++ m ∷ [];
  }

  abbrev pub with_thread : ℕ → SourceThread F → Session → Session
  with_thread i t e = record e { threads = set e.threads i t }

  -- The head of `onFrame`.
  unfoldable pub receive : ℕ → Result F → Session → Session
  receive i frame e = record e {
    summary = record e.summary {
      received = add_count e.summary.received 1;
      received_per_source = increment e.summary.received_per_source i;
    };
    threads = set e.threads i (received_frame frame);
  }

  abbrev pub submitted_frame : ℕ → Option (Result (Unit {0}) × X.State) → Session → Session
  submitted_frame i none e = e
  submitted_frame i (some (answer, x)) e = record e {
    executor = x;
    threads = set e.threads i (answered answer);
  }

  -- The two branches of `onFrame`: a failure of the source, or a submission.
  unfoldable pub handle_frame : ℕ → Result F → Session → Session
  handle_frame i (failure s) e = record e {
    summary = record e.summary { source_failures = add_count e.summary.source_failures 1 };
    threads = set e.threads i idle;
  }
  handle_frame i (success f) e = submitted_frame i (X.submit (f, i) e.executor) e

  -- What `onFrame` counts after a submission.
  unfoldable pub count_answer : ℕ → Result (Unit {0}) → Session → Session
  count_answer i (success u) e = record e {
    summary = record e.summary { submitted = add_count e.summary.submitted 1 };
    threads = set e.threads i idle;
  }
  count_answer i (failure s) e =
      if is_queue_full s.code
      then record e {
        summary = record e.summary {
          dropped = add_count e.summary.dropped 1;
          dropped_per_source = increment e.summary.dropped_per_source i;
        };
        threads = set e.threads i idle;
      }
      else with_thread i (if e.stop_requested then idle else leaving) e

  -- One step of the thread of a source in `onFrame`.
  unfoldable pub move_source : ℕ → Option (SourceThread F) → Session → Session
  unfolding handle_frame count_answer request_stop
  move_source i none e = e
  move_source i (some idle) e = e
  move_source i (some (received_frame frame)) e = handle_frame i frame e
  move_source i (some (answered answer)) e = count_answer i answer e
  move_source i (some leaving) e = request_stop immediate (with_thread i idle e)

  -- The completion callbacks.
  unfoldable pub count_completions : List (Result R) → Session → Session
  unfolding failures
  count_completions rs e = record e {
    summary = record e.summary {
      completed = add_count e.summary.completed (length rs);
      failed = add_count e.summary.failed (failures rs);
    };
  }

  -- The calls of `executor_->requestStop` that are due.
  unfoldable pub relay : List StopMode → Session → Session
  relay [] e = e
  relay (m ∷ ms) e = record e { relays = ms; executor = X.stop m e.executor }

  -- The timer's thread, when the duration has passed.
  unfoldable pub fire_timer : Session → Session
  unfolding request_stop
  fire_timer e =
      if not (is_some e.duration) || not e.started || e.timer_cancelled
      then e
      else request_stop graceful e

  -- The waits for the sources in `wait` and the stop that follows, once all sources have ended.
  unfoldable pub end_sources : Session → Session
  unfolding request_stop
  end_sources e =
      if e.finished || not (all_idle e.threads)
      then e
      else request_stop graceful (record e { sources_ended = true })

  -- `executor_->wait()` returns, whatever that says of the executor's tasks, and `wait` ends.
  unfoldable pub end_executor : Session → Session
  end_executor e = if e.sources_ended then record e { finished = true } else e

  abbrev pub receive_on : ℕ → Result F → Option (SourceThread F) → Session → Session
  receive_on i frame none e = e
  receive_on i frame (some t) e = if is_idle t && not e.sources_ended then receive i frame e else e

  unfoldable pub step : Event → Session → Session
  unfolding receive move_source count_completions relay fire_timer end_sources end_executor
      request_stop
  step (frames i f) e = receive_on i f (get_elem? e.threads i) e
  step (source_moves i) e = move_source i (get_elem? e.threads i) e
  step relays_stop e = relay e.relays e
  step timer_fires e = fire_timer e
  step waits_for_sources e = end_sources e
  step waits_for_executor e = end_executor e
  step (stops m) e = request_stop m e
  step (works w) e =
      let (x, rs) = X.advance w e.executor in count_completions rs (record e { executor = x })

  unfoldable pub play : List Event → Session → Session
  unfolding step
  play [] e = e
  play (v ∷ vs) e = play vs (step v e)
