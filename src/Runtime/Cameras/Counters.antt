-- ===== src/Runtime/Cameras/Counters.antt =====
-- The counters of Runtime/include/runtime/multiCameraSession.hpp.
use vision_runtime.Prelude.{
  ℕ, suc, ◌+◌, ◌≤◌, ◌<◌, ◌^◌, Bool, true, not, ◌&&◌, ◌≡◌, refl, ◌∙◌, sym, Option, none, some, List,
  [], ◌∷◌, length, get_elem?, set, replicate, length-set, arith, Bool-cases, Option-cases, inl, inr,
  if◌then◌else◌,
}
use vision_runtime.Prelude.Int.{ℤ}
use vision_runtime.Core.Status.{Result, success, failure}
use vision_runtime.Executor.Serial.{StopMode, immediate}
use vision_runtime.Executor.Interface.{PipelineExecutor, IsLawful}
use vision_runtime.Executor.Frames.{is_queue_full}
use vision_runtime.Executor.Frames.Accounting.{is_accepted, failures-bound}
use vision_runtime.Runtime.Cameras.{
  Summary, SourceThread, idle, leaving, received_frame, answered, is_idle, Session, Event, frames,
  source_moves, relays_stop, timer_fires, waits_for_sources, waits_for_executor, stops, works,
  create, request_stop, with_thread, receive, submitted_frame, handle_frame, count_answer,
  move_source, count_completions, relay, fire_timer, end_sources, end_executor, receive_on, step,
  play,
}
use vision_runtime.Runtime.Cameras.Sums.{
  sum, sum_of, sum_of-at, sum_of-below, sum-increment, length-increment, get_elem?-range,
  sum_of-set, length-replicate, sum_of-replicate, sum-replicate,
}

-- A frame that a source's thread has not counted yet, and a task that it has not counted.
abbrev pub uncounted_frame : {F : Type 0} → SourceThread F → ℕ
uncounted_frame (received_frame f) = 1
uncounted_frame (answered a) = 1
uncounted_frame idle = 0
uncounted_frame leaving = 0

abbrev pub uncounted_task : {F : Type 0} → SourceThread F → ℕ
uncounted_task (answered a) = is_accepted a
uncounted_task (received_frame f) = 0
uncounted_task idle = 0
uncounted_task leaving = 0

task_frame : {F : Type 0} (t : SourceThread F) → uncounted_task t ≤ uncounted_frame t
task_frame t = ground arith

module _ {F R : Type 0} (X : PipelineExecutor (F × ℕ) R) (lawful : IsLawful X) where
  -- Every task is counted once, every frame at most once, and the totals are those of the sources;
  -- `left` more frames can come without an overflow of the counters.
  pub record IsCounted (start left : ℕ) (e : Session X) : Type 0 where
    pub tasks :
        X.in_flight e.executor + e.summary.completed
        ≡ start + (e.summary.submitted + sum_of uncounted_task e.threads)
    pub frames_counted :
        e.summary.submitted
          + (e.summary.dropped + (e.summary.source_failures + sum_of uncounted_frame e.threads))
        ≤ e.summary.received
    pub failed : e.summary.failed ≤ e.summary.completed
    pub few : start + e.summary.received + left < 2 ^ 64
    pub received : e.summary.received ≡ sum e.summary.received_per_source
    pub dropped : e.summary.dropped ≡ sum e.summary.dropped_per_source
    pub received_size : length e.summary.received_per_source ≡ length e.threads
    pub dropped_size : length e.summary.dropped_per_source ≡ length e.threads

  -- Other flags, with the same counters, threads and tasks.
  unchanged :
      (n k : ℕ) (e e' : Session X)
      → e'.summary ≡ e.summary
      → e'.threads ≡ e.threads
      → X.in_flight e'.executor ≡ X.in_flight e.executor
      → IsCounted n k e
      → IsCounted n k e'
  unchanged n k e e' s t x a = record {
    tasks = rw (s, t, x) a.tasks;
    frames_counted = rw (s, t) a.frames_counted;
    failed = rw s a.failed;
    few = rw s a.few;
    received = rw s a.received;
    dropped = rw s a.dropped;
    received_size = rw (s, t) a.received_size;
    dropped_size = rw (s, t) a.dropped_size;
  }

  stop-IsCounted :
      (n k : ℕ) (m : StopMode) (e : Session X)
      → IsCounted n k e
      → IsCounted n k (request_stop X m e)
  unfolding request_stop
  stop-IsCounted n k m e a =
      unchanged n k e (request_stop X m e) (ground arith) (ground arith) (ground arith) a

  -- A thread takes another state, with the sums and the executor that this makes.
  moved :
      (n k l i : ℕ) (e : Session X) (t u : SourceThread F) (s : Summary) (x : X.State)
      → get_elem? e.threads i ≡ some t
      → X.in_flight x + s.completed + uncounted_task t + e.summary.submitted
        ≡ X.in_flight e.executor + e.summary.completed + uncounted_task u + s.submitted
      → s.submitted + s.dropped + s.source_failures + uncounted_frame u + e.summary.received
        ≤ e.summary.submitted
          + e.summary.dropped
          + e.summary.source_failures
          + uncounted_frame t
          + s.received
      → s.failed + e.summary.completed ≤ e.summary.failed + s.completed
      → s.received + sum e.summary.received_per_source
        ≡ e.summary.received + sum s.received_per_source
      → s.dropped + sum e.summary.dropped_per_source ≡ e.summary.dropped + sum s.dropped_per_source
      → length s.received_per_source ≡ length e.summary.received_per_source
      → length s.dropped_per_source ≡ length e.summary.dropped_per_source
      → n + s.received + k < 2 ^ 64
      → IsCounted n l e
      → IsCounted n k (record e { summary = s; executor = x; threads = set e.threads i u })
  moved n k l i e t u s x g ts fs f r d rs ds fw a =
      let tasks_set = sum_of-set uncounted_task e.threads i t u g in
      let frames_set = sum_of-set uncounted_frame e.threads i t u g in
      record {
        tasks = omega (arith, a.tasks, ts, tasks_set);
        frames_counted = omega (arith, a.frames_counted, fs, frames_set);
        failed = omega (arith, a.failed, f);
        few = fw;
        received = omega (arith, a.received, r);
        dropped = omega (arith, a.dropped, d);
        received_size = rs ∙ a.received_size ∙ sym (length-set e.threads i u);
        dropped_size = ds ∙ a.dropped_size ∙ sym (length-set e.threads i u);
      }

  received-IsCounted :
      (n k i : ℕ) (f : Result F) (t : SourceThread F) (e : Session X)
      → get_elem? e.threads i ≡ some t
      → is_idle t ≡ true
      → IsCounted n (suc k) e
      → IsCounted n k (receive X i f e)
  unfolding receive
  received-IsCounted n k i f t e g q a =
      let (z, w) : (uncounted_task t ≡ 0) × (uncounted_frame t ≡ 0) = ground (arith, q) in
      let one_more =
        sum-increment e.summary.received_per_source i
          (omega (arith, a.received_size, get_elem?-range e.threads i t g))
          (omega (arith, a.received, a.few)) in
      moved n k (suc k) i e t (received_frame f) _ e.executor g (omega (arith, z))
        (omega (arith, w, a.few)) (omega arith) (omega (arith, one_more, a.few)) (omega arith)
        (length-increment e.summary.received_per_source i) refl (omega (arith, a.few)) a

  submitted-IsCounted :
      (n k i : ℕ) (f : F) (e : Session X)
      → get_elem? e.threads i ≡ some (received_frame (success f))
      → IsCounted n k e
      → IsCounted n k (submitted_frame X i (X.submit (f, i) e.executor) e)
  submitted-IsCounted n k i f e g a = elim (Option-cases (X.submit (f, i) e.executor)) [
    | inl waiting ↦ rw waiting a
    | inr ((success u, x), h) ↦ rw h (
        moved n k k i e (received_frame (success f)) (answered (success u)) e.summary x g
          (omega (arith, lawful.submit-accepted (f, i) e.executor x u h)) (omega arith)
          (omega arith) (omega arith) (omega arith) refl refl a.few a)
    | inr ((failure s, x), h) ↦ rw h (
        moved n k k i e (received_frame (success f)) (answered (failure s)) e.summary x g
          (omega (arith, lawful.submit-refused (f, i) e.executor x s h)) (omega arith) (omega arith)
          (omega arith) (omega arith) refl refl a.few a)
  ]

  count_answer-IsCounted :
      (n k i : ℕ) (r : Result (Unit {0})) (e : Session X)
      → get_elem? e.threads i ≡ some (answered r)
      → IsCounted n k e
      → IsCounted n k (count_answer X i r e)
  unfolding count_answer
  count_answer-IsCounted n k i (success u) e g a =
      let held_success = sum_of-at uncounted_frame e.threads i (answered (success u)) g in
      moved n k k i e (answered (success u)) idle _ e.executor g
        (omega (arith, a.few, a.frames_counted, held_success))
        (omega (arith, a.few, a.frames_counted, held_success)) (omega arith) (omega arith)
        (omega arith) refl refl a.few a
  count_answer-IsCounted n k i (failure s) e g a = elim (Bool-cases (is_queue_full s.code)) [
    | inl full ↦
        let held = sum_of-at uncounted_frame e.threads i (answered (failure s)) g in
        let one_more =
          sum-increment e.summary.dropped_per_source i
            (omega (arith, a.dropped_size, get_elem?-range e.threads i (answered (failure s)) g))
            (omega (arith, a.dropped, a.few, a.frames_counted, held)) in
        rw full (
          moved n k k i e (answered (failure s)) idle _ e.executor g (omega arith)
            (omega (arith, a.few, a.frames_counted, held)) (omega arith) (omega arith)
            (omega (arith, one_more, a.few, a.frames_counted, held)) refl
            (length-increment e.summary.dropped_per_source i) a.few a)
    | inr other ↦ rw other (
        moved n k k i e (answered (failure s)) (if e.stop_requested then idle else leaving)
          e.summary e.executor g (ground arith) (ground arith) (omega arith) (omega arith)
          (omega arith) refl refl a.few a)
  ]

  source-IsCounted :
      (n k i : ℕ) (o : Option (SourceThread F)) (e : Session X)
      → get_elem? e.threads i ≡ o
      → IsCounted n k e
      → IsCounted n k (move_source X i o e)
  unfolding move_source handle_frame
  source-IsCounted n k i none e g a = a
  source-IsCounted n k i (some idle) e g a = a
  source-IsCounted n k i (some (received_frame (success f))) e g a =
      submitted-IsCounted n k i f e g a
  source-IsCounted n k i (some (received_frame (failure s))) e g a =
      moved n k k i e (received_frame (failure s)) idle _ e.executor g (omega arith)
        (omega (
          arith,
          a.few,
          a.frames_counted,
          sum_of-at uncounted_frame e.threads i (received_frame (failure s)) g,
        ))
        (omega arith) (omega arith) (omega arith) refl refl a.few a
  source-IsCounted n k i (some (answered r)) e g a = count_answer-IsCounted n k i r e g a
  source-IsCounted n k i (some leaving) e g a =
      stop-IsCounted n k immediate (with_thread X i idle e) (
        moved n k k i e leaving idle e.summary e.executor g (omega arith) (omega arith)
          (omega arith) (omega arith) (omega arith) refl refl a.few a)

  fewer : (n l k : ℕ) (e : Session X) → k ≤ l → IsCounted n l e → IsCounted n k e
  fewer n l k e h a = record {
    tasks = a.tasks;
    frames_counted = a.frames_counted;
    failed = a.failed;
    few = omega (arith, a.few, h);
    received = a.received;
    dropped = a.dropped;
    received_size = a.received_size;
    dropped_size = a.dropped_size;
  }

  later : (n k : ℕ) (e : Session X) → IsCounted n (suc k) e → IsCounted n k e
  later n k e a = fewer n (suc k) k e (omega arith) a

  frame-IsCounted :
      (n k i : ℕ) (f : Result F) (o : Option (SourceThread F)) (e : Session X)
      → get_elem? e.threads i ≡ o
      → IsCounted n (suc k) e
      → IsCounted n k (receive_on X i f o e)
  frame-IsCounted n k i f none e g a = later n k e a
  frame-IsCounted n k i f (some t) e g a = elim (Bool-cases (is_idle t && not e.sources_ended)) [
    | inl takes ↦ simp takes (received-IsCounted n k i f t e g (ground (arith, takes)) a)
    | inr same ↦ simp same (later n k e a)
  ]

  relay-IsCounted :
      (n k : ℕ) (ms : List StopMode) (e : Session X)
      → IsCounted n k e
      → IsCounted n k (relay X ms e)
  unfolding relay
  relay-IsCounted n k [] e a = a
  relay-IsCounted n k (m ∷ ms) e a =
      unchanged n k e _ refl refl (lawful.in_flight-stop m e.executor) a

  work-IsCounted :
      (n k : ℕ) (w : X.Work) (e : Session X) → IsCounted n k e → IsCounted n k (step X (works w) e)
  unfolding step count_completions
  work-IsCounted n k w e a = record {
    tasks = omega (
      arith,
      a.few,
      a.frames_counted,
      a.tasks,
      lawful.in_flight-advance w e.executor,
      sum_of-below uncounted_task uncounted_frame e.threads task_frame,
    );
    frames_counted = a.frames_counted;
    failed = omega (
      arith,
      a.few,
      a.frames_counted,
      a.tasks,
      a.failed,
      failures-bound (X.advance w e.executor).1,
      lawful.in_flight-advance w e.executor,
      sum_of-below uncounted_task uncounted_frame e.threads task_frame,
    );
    few = a.few;
    received = a.received;
    dropped = a.dropped;
    received_size = a.received_size;
    dropped_size = a.dropped_size;
  }

  step-IsCounted :
      (n k : ℕ) (v : Event X) (e : Session X) → IsCounted n (suc k) e → IsCounted n k (step X v e)
  unfolding step fire_timer end_sources end_executor request_stop
  step-IsCounted n k (frames i f) e a = frame-IsCounted n k i f (get_elem? e.threads i) e refl a
  step-IsCounted n k (source_moves i) e a =
      source-IsCounted n k i (get_elem? e.threads i) e refl (later n k e a)
  step-IsCounted n k relays_stop e a = relay-IsCounted n k e.relays e (later n k e a)
  step-IsCounted n k timer_fires e a =
      unchanged n k e _ (ground arith) (ground arith) (ground arith) (later n k e a)
  step-IsCounted n k waits_for_sources e a =
      unchanged n k e _ (ground arith) (ground arith) (ground arith) (later n k e a)
  step-IsCounted n k waits_for_executor e a =
      unchanged n k e _ (ground arith) (ground arith) (ground arith) (later n k e a)
  step-IsCounted n k (stops m) e a = stop-IsCounted n k m e (later n k e a)
  step-IsCounted n k (works w) e a = work-IsCounted n k w e (later n k e a)

  pub play-IsCounted :
      (n k : ℕ) (vs : List (Event X)) (e : Session X)
      → IsCounted n (length vs + k) e
      → IsCounted n k (play X vs e)
  unfolding play
  play-IsCounted n k [] e a = fewer n (0 + k) k e (omega arith) a
  play-IsCounted n k (v ∷ vs) e a = play-IsCounted n k vs (step X v e) (
      step-IsCounted n (length vs + k) v e
        (fewer n (suc (length vs) + k) (suc (length vs + k)) e (omega arith) a))

  pub create-IsCounted :
      (d : Option ℤ) (sources : ℕ) (has_executor : Bool) (x : X.State) (left : ℕ)
      → X.in_flight x + left < 2 ^ 64
      → IsCounted (X.in_flight x) left (create X d sources has_executor x)
  unfolding create
  create-IsCounted d sources has_executor x left l =
      let sizes : length (replicate {A = ℕ} sources 0)
          ≡ length (replicate {A = SourceThread F} sources idle) =
        length-replicate sources 0 ∙ sym (length-replicate {A = SourceThread F} sources idle) in
      record {
        tasks = omega (arith, sum_of-replicate (uncounted_task {F = F}) sources idle refl);
        frames_counted =
            omega (arith, sum_of-replicate (uncounted_frame {F = F}) sources idle refl);
        failed = omega arith;
        few = omega (arith, l);
        received = omega (arith, sum-replicate sources);
        dropped = omega (arith, sum-replicate sources);
        received_size = sizes;
        dropped_size = sizes;
      }
