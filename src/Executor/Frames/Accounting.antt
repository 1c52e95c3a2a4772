-- ===== src/Executor/Frames/Accounting.antt =====
-- The counters of Runtime/include/executor/frameExecutor.hpp.
use vision_runtime.Prelude.{
  ℕ, suc, ◌+◌, ◌≤◌, ◌<◌, ◌^◌, Bool, true, not, ◌&&◌, ◌||◌, ◌≡◌, refl, ap, is_some, List, [], ◌∷◌,
  length, arith, Bool-cases, Option-cases, inl, inr, if◌then◌else◌,
}
use vision_runtime.Core.Status.{Result, success, failure}
use vision_runtime.Executor.Serial.{StopMode, graceful, immediate}
use vision_runtime.Executor.Interface.{PipelineExecutor, IsLawful}
use vision_runtime.Executor.Frames.{
  SourceThread, idle, received_frame, answered, deciding, is_queue_full, failures, Session, Event,
  frames, source_moves, relays_stop, timer_fires, waits_for_source, waits_for_executor, stops,
  works, request_stop, receive, submitted_frame, handle_frame, count_answer, decide, move_source,
  count_completions, relay, fire_timer, is_idle, end_source, end_executor, step, play,
}

abbrev pub is_accepted {ℓ} : {A : Type ℓ} → Result A → ℕ
is_accepted (success a) = 1
is_accepted (failure s) = 0

-- A frame that `onFrame` has not counted yet, and a task that it has not counted.
abbrev pub uncounted_frame : {F : Type 0} → SourceThread F → ℕ
uncounted_frame (received_frame f r) = 1
uncounted_frame (answered a r) = 1
uncounted_frame idle = 0
uncounted_frame (deciding r s) = 0

abbrev pub uncounted_task : {F : Type 0} → SourceThread F → ℕ
uncounted_task (answered a r) = is_accepted a
uncounted_task (received_frame f r) = 0
uncounted_task idle = 0
uncounted_task (deciding r s) = 0

task_frame : {F : Type 0} (t : SourceThread F) → uncounted_task t ≤ uncounted_frame t
task_frame t = ground arith

pub failures-bound : {R : Type 0} (rs : List (Result R)) → failures rs ≤ length rs
unfolding failures
failures-bound [] = omega arith
failures-bound (success r ∷ rs) = omega (arith, failures-bound rs)
failures-bound (failure s ∷ rs) = omega (arith, failures-bound rs)

module _ {F R : Type 0} (X : PipelineExecutor F R) (lawful : IsLawful X) where
  -- Every task is counted once, and every frame at most once; `left` more frames can come without an
  -- overflow of the counters.
  pub record IsAccounted (start left : ℕ) (e : Session X) : Type 0 where
    pub tasks :
        X.in_flight e.executor + e.summary.completed
        ≡ start + (e.summary.submitted + uncounted_task e.thread)
    pub frames_counted :
        e.summary.submitted
          + (e.summary.dropped + (e.summary.source_failures + uncounted_frame e.thread))
        ≤ e.summary.received
    pub failed : e.summary.failed ≤ e.summary.completed
    pub few : start + e.summary.received + left < 2 ^ 64

  stop-IsAccounted :
      (n k : ℕ) (m : StopMode) (e : Session X)
      → IsAccounted n k e
      → IsAccounted n k (request_stop X m e)
  unfolding request_stop
  stop-IsAccounted n k m e a = elim (Bool-cases e.finished) [
    | inl over ↦ simp over a
    | inr going ↦ simp going (record {
      tasks = a.tasks;
      frames_counted = a.frames_counted;
      failed = a.failed;
      few = a.few;
    })
  ]

  submitted-IsAccounted :
      (n k : ℕ) (f : F) (reached : Bool) (e : Session X)
      → e.thread ≡ received_frame (success f) reached
      → IsAccounted n k e
      → IsAccounted n k (submitted_frame X (X.submit f e.executor) reached e)
  submitted-IsAccounted n k f reached e q a = elim (Option-cases (X.submit f e.executor)) [
    | inl waiting ↦ rw waiting a
    | inr ((success u, x), h) ↦ rw h (record {
      tasks =
          omega
            (arith, a.few, a.tasks, lawful.submit-accepted f e.executor x u h, ap uncounted_task q);
      frames_counted = omega (arith, a.few, a.frames_counted, ap uncounted_frame q);
      failed = a.failed;
      few = a.few;
    })
    | inr ((failure s, x), h) ↦ rw h (record {
      tasks = omega (
        arith,
        a.few,
        a.frames_counted,
        a.tasks,
        lawful.submit-refused f e.executor x s h,
        ap uncounted_task q,
      );
      frames_counted = omega (arith, a.few, a.frames_counted, ap uncounted_frame q);
      failed = a.failed;
      few = a.few;
    })
  ]

  handled-IsAccounted :
      (n k : ℕ) (f : Result F) (reached : Bool) (e : Session X)
      → e.thread ≡ received_frame f reached
      → IsAccounted n k e
      → IsAccounted n k (handle_frame X f reached e)
  unfolding handle_frame
  handled-IsAccounted n k (success f) reached e q a = submitted-IsAccounted n k f reached e q a
  handled-IsAccounted n k (failure s) reached e q a = record {
    tasks = omega (arith, a.few, a.frames_counted, a.tasks, ap uncounted_task q);
    frames_counted = omega (arith, a.few, a.frames_counted, ap uncounted_frame q);
    failed = a.failed;
    few = a.few;
  }

  count_answer-IsAccounted :
      (n k : ℕ) (r : Result (Unit {0})) (reached : Bool) (e : Session X)
      → e.thread ≡ answered r reached
      → IsAccounted n k e
      → IsAccounted n k (count_answer X r reached e)
  unfolding count_answer
  count_answer-IsAccounted n k (success u) reached e q a = record {
    tasks =
        omega (arith, a.few, a.frames_counted, a.tasks, ap uncounted_task q, ap uncounted_frame q);
    frames_counted = omega (arith, a.few, a.frames_counted, ap uncounted_frame q);
    failed = a.failed;
    few = a.few;
  }
  count_answer-IsAccounted n k (failure s) reached e q a =
      elim (Bool-cases (is_queue_full s.code)) [
        | inl full ↦ rw full (record {
          tasks = omega (arith, a.few, a.frames_counted, a.tasks, ap uncounted_task q);
          frames_counted = omega (arith, a.few, a.frames_counted, ap uncounted_frame q);
          failed = a.failed;
          few = a.few;
        })
        | inr other ↦ rw other (record {
          tasks = omega (arith, a.few, a.frames_counted, a.tasks, ap uncounted_task q);
          frames_counted = omega (arith, a.few, a.frames_counted, ap uncounted_frame q);
          failed = a.failed;
          few = a.few;
        })
      ]

  decided-IsAccounted :
      (n k : ℕ) (reached stop : Bool) (e : Session X)
      → e.thread ≡ deciding reached stop
      → IsAccounted n k e
      → IsAccounted n k (decide X reached stop e)
  unfolding decide
  decided-IsAccounted n k reached stop e q a =
      let quiet : IsAccounted n k (record e { thread = idle }) = record {
        tasks = omega (arith, a.few, a.frames_counted, a.tasks, ap uncounted_task q);
        frames_counted = omega (arith, a.few, a.frames_counted, ap uncounted_frame q);
        failed = a.failed;
        few = a.few;
      } in
      elim (Bool-cases (reached || stop)) [
        | inl end ↦ rw end (
            stop-IsAccounted n k (if stop then immediate else graceful) (record e { thread = idle })
              quiet)
        | inr more ↦ rw more quiet
      ]

  source-IsAccounted :
      (n k : ℕ) (t : SourceThread F) (e : Session X)
      → e.thread ≡ t
      → IsAccounted n k e
      → IsAccounted n k (move_source X t e)
  unfolding move_source
  source-IsAccounted n k idle e q a = a
  source-IsAccounted n k (received_frame f reached) e q a = handled-IsAccounted n k f reached e q a
  source-IsAccounted n k (answered r reached) e q a = count_answer-IsAccounted n k r reached e q a
  source-IsAccounted n k (deciding reached stop) e q a = decided-IsAccounted n k reached stop e q a

  relay-IsAccounted :
      (n k : ℕ) (ms : List StopMode) (e : Session X)
      → IsAccounted n k e
      → IsAccounted n k (relay X ms e)
  unfolding relay
  relay-IsAccounted n k [] e a = a
  relay-IsAccounted n k (m ∷ ms) e a = record {
    tasks = omega (arith, a.few, a.frames_counted, a.tasks, lawful.in_flight-stop m e.executor);
    frames_counted = a.frames_counted;
    failed = a.failed;
    few = a.few;
  }

  received-IsAccounted :
      (n k : ℕ) (f : Result F) (e : Session X)
      → is_idle X e.thread ≡ true
      → IsAccounted n (suc k) e
      → IsAccounted n k (receive X f e)
  unfolding receive
  received-IsAccounted n k f e q a =
      let quiet : (uncounted_task e.thread ≡ 0) × (uncounted_frame e.thread ≡ 0) =
        ground (arith, q) in
      record {
        tasks = omega (arith, a.few, a.frames_counted, a.tasks, quiet.0);
        frames_counted = omega (arith, a.few, a.frames_counted, quiet.1);
        failed = a.failed;
        few = omega (arith, a.few);
      }

  end_source-IsAccounted :
      (n k : ℕ) (e : Session X) → IsAccounted n k e → IsAccounted n k (end_source X e)
  unfolding end_source
  end_source-IsAccounted n k e a = elim (Bool-cases (e.finished || not (is_idle X e.thread))) [
    | inl same ↦ simp same a
    | inr ends ↦ simp ends (
        stop-IsAccounted n k graceful (record e { source_ended = true })
          (record {
            tasks = a.tasks;
            frames_counted = a.frames_counted;
            failed = a.failed;
            few = a.few;
          }))
  ]

  end_executor-IsAccounted :
      (n k : ℕ) (e : Session X) → IsAccounted n k e → IsAccounted n k (end_executor X e)
  unfolding end_executor
  end_executor-IsAccounted n k e a = elim (Bool-cases e.source_ended) [
    | inl ends ↦ simp ends (record {
      tasks = a.tasks;
      frames_counted = a.frames_counted;
      failed = a.failed;
      few = a.few;
    })
    | inr same ↦ simp same a
  ]

  later : (n k : ℕ) (e : Session X) → IsAccounted n (suc k) e → IsAccounted n k e
  later n k e a = record {
    tasks = a.tasks;
    frames_counted = a.frames_counted;
    failed = a.failed;
    few = omega (arith, a.few);
  }

  fewer : (n j k : ℕ) (e : Session X) → IsAccounted n (suc j + k) e → IsAccounted n (suc (j + k)) e
  fewer n j k e a = record {
    tasks = a.tasks;
    frames_counted = a.frames_counted;
    failed = a.failed;
    few = omega (arith, a.few);
  }

  step-IsAccounted :
      (n k : ℕ) (v : Event X) (e : Session X)
      → IsAccounted n (suc k) e
      → IsAccounted n k (step X v e)
  unfolding step count_completions fire_timer
  step-IsAccounted n k (frames f) e a =
      elim (Bool-cases (is_idle X e.thread && not e.source_ended)) [
        | inl takes ↦ simp takes (received-IsAccounted n k f e (ground (arith, takes)) a)
        | inr same ↦ simp same (later n k e a)
      ]
  step-IsAccounted n k source_moves e a = source-IsAccounted n k e.thread e refl (later n k e a)
  step-IsAccounted n k relays_stop e a = relay-IsAccounted n k e.relays e (later n k e a)
  step-IsAccounted n k timer_fires e a =
      elim (Bool-cases (not (is_some e.options.duration) || not e.started || e.timer_cancelled)) [
        | inl same ↦ simp same (later n k e a)
        | inr fires ↦ simp fires (stop-IsAccounted n k graceful e (later n k e a))
      ]
  step-IsAccounted n k waits_for_source e a = end_source-IsAccounted n k e (later n k e a)
  step-IsAccounted n k waits_for_executor e a = end_executor-IsAccounted n k e (later n k e a)
  step-IsAccounted n k (stops m) e a = stop-IsAccounted n k m e (later n k e a)
  step-IsAccounted n k (works w) e a = record {
    tasks = omega (
      arith,
      a.few,
      a.frames_counted,
      a.tasks,
      lawful.in_flight-advance w e.executor,
      task_frame e.thread,
    );
    frames_counted = a.frames_counted;
    failed = omega (
      arith,
      a.few,
      a.frames_counted,
      a.tasks,
      a.failed,
      failures-bound (X.advance w e.executor).1,
      lawful.in_flight-advance w e.executor,
      task_frame e.thread,
    );
    few = omega (arith, a.few);
  }

  pub play-IsAccounted :
      (n k : ℕ) (vs : List (Event X)) (e : Session X)
      → IsAccounted n (length vs + k) e
      → IsAccounted n k (play X vs e)
  unfolding play
  play-IsAccounted n k [] e a = record {
    tasks = a.tasks;
    frames_counted = a.frames_counted;
    failed = a.failed;
    few = omega (arith, a.few);
  }
  play-IsAccounted n k (v ∷ vs) e a =
      play-IsAccounted n k vs (step X v e)
        (step-IsAccounted n (length vs + k) v e (fewer n (length vs) k e a))
