-- ===== src/Runtime/Cameras/Finishing.antt =====
-- The end of a run of Runtime/include/runtime/multiCameraSession.hpp.
use vision_runtime.Prelude.{
  ℕ, ◌+◌, ◌≤◌, ◌<◌, ◌^◌, length, Bool, true, false, not, ◌&&◌, ◌≡◌, refl, Option, none, some, List,
  [], ◌∷◌, get_elem?, arith, Bool-cases, Option-cases, inl, inr, ◌⊎◌,
}
use vision_runtime.Prelude.Int.{ℤ}
use vision_runtime.Core.Status.{Result, success, failure}
use vision_runtime.Executor.Serial.{StopMode}
use vision_runtime.Executor.Interface.{PipelineExecutor, IsLawful}
use vision_runtime.Runtime.Cameras.{
  SourceThread, idle, leaving, received_frame, answered, is_idle, all_idle, Session, Event, frames,
  source_moves, relays_stop, timer_fires, waits_for_sources, waits_for_executor, stops, works,
  create, request_stop, receive, handle_frame, count_answer, move_source, count_completions, relay,
  fire_timer, end_sources, end_executor, receive_on, step, play,
}
use vision_runtime.Runtime.Cameras.Sums.{sum, all_idle-get, all_idle-sum}
use vision_runtime.Runtime.Cameras.Counters.{play-IsCounted, create-IsCounted, uncounted_task}

module _ {F R : Type 0} (X : PipelineExecutor (F × ℕ) R) (lawful : IsLawful X) where
  record IsEnding (e : Session X) : Type 0 where
    over : (e.finished ≡ false) ⊎ (e.sources_ended ≡ true)
    quiet : (e.sources_ended ≡ false) ⊎ (all_idle e.threads ≡ true)

  frame-IsEnding :
      (i : ℕ) (f : Result F) (o : Option (SourceThread F)) (e : Session X)
      → IsEnding e
      → IsEnding (receive_on X i f o e)
  unfolding receive
  frame-IsEnding i f none e a = a
  frame-IsEnding i f (some t) e a = elim (Bool-cases (is_idle t && not e.sources_ended)) [
    | inl takes ↦ simp takes (record { over = a.over; quiet = inl (ground (arith, takes)) })
    | inr same ↦ simp same a
  ]

  -- A thread that moves is not idle, so that not all sources have ended.
  source-IsEnding :
      (i : ℕ) (o : Option (SourceThread F)) (e : Session X)
      → get_elem? e.threads i ≡ o
      → IsEnding e
      → IsEnding (move_source X i o e)
  unfolding move_source handle_frame count_answer request_stop
  source-IsEnding i none e g a = a
  source-IsEnding i (some idle) e g a = a
  source-IsEnding i (some (received_frame (failure s))) e g a =
      ground (arith, g, a.over, a.quiet, all_idle-get e.threads i (received_frame (failure s)))
  source-IsEnding i (some (received_frame (success f))) e g a =
      elim (Option-cases (X.submit (f, i) e.executor)) [
        | inl waiting ↦ simp waiting a
        | inr ((u, x), h) ↦ simp h (
            ground
              (arith, g, a.over, a.quiet, all_idle-get e.threads i (received_frame (success f))))
      ]
  source-IsEnding i (some (answered r)) e g a =
      ground (arith, g, a.over, a.quiet, all_idle-get e.threads i (answered r))
  source-IsEnding i (some leaving) e g a =
      ground (arith, g, a.over, a.quiet, all_idle-get e.threads i leaving)

  relay-IsEnding : (ms : List StopMode) (e : Session X) → IsEnding e → IsEnding (relay X ms e)
  unfolding relay
  relay-IsEnding [] e a = a
  relay-IsEnding (m ∷ ms) e a = record { over = a.over; quiet = a.quiet }

  work-IsEnding : (w : X.Work) (e : Session X) → IsEnding e → IsEnding (step X (works w) e)
  unfolding step count_completions
  work-IsEnding w e a = record { over = a.over; quiet = a.quiet }

  step-IsEnding : (v : Event X) (e : Session X) → IsEnding e → IsEnding (step X v e)
  unfolding step fire_timer end_sources end_executor request_stop
  step-IsEnding (frames i f) e a = frame-IsEnding i f (get_elem? e.threads i) e a
  step-IsEnding (source_moves i) e a = source-IsEnding i (get_elem? e.threads i) e refl a
  step-IsEnding relays_stop e a = relay-IsEnding e.relays e a
  step-IsEnding timer_fires e a = ground (arith, a.over, a.quiet)
  step-IsEnding waits_for_sources e a = ground (arith, a.over, a.quiet)
  step-IsEnding waits_for_executor e a = ground (arith, a.over, a.quiet)
  step-IsEnding (stops m) e a = ground (arith, a.over, a.quiet)
  step-IsEnding (works w) e a = work-IsEnding w e a

  play-IsEnding : (vs : List (Event X)) (e : Session X) → IsEnding e → IsEnding (play X vs e)
  unfolding play
  play-IsEnding [] e a = a
  play-IsEnding (v ∷ vs) e a = play-IsEnding vs (step X v e) (step-IsEnding v e a)

  create-IsEnding :
      (d : Option ℤ) (sources : ℕ) (has_executor : Bool) (x : X.State)
      → IsEnding (create X d sources has_executor x)
  unfolding create
  create-IsEnding d sources has_executor x = record { over = inl refl; quiet = inl refl }

  -- Whatever the order of the turns of the sources' threads, the executor's threads and the clients, as
  -- long as the turns and the tasks that the executor had in hand are less than 2^64: the frames
  -- received and the frames dropped are the sums of those of the sources, at most as many tasks failed
  -- as were completed, and the submitted, dropped and failed frames of the sources are together at most
  -- the received ones.
  pub sources_add_up :
      (d : Option ℤ) (sources : ℕ) (has_executor : Bool) (x : X.State) (vs : List (Event X))
      → X.in_flight x + length vs < 2 ^ 64
      → let s = (play X vs (create X d sources has_executor x)).summary in
        (s.received ≡ sum s.received_per_source)
        × (s.dropped ≡ sum s.dropped_per_source)
        × (s.failed ≤ s.completed)
        × (s.submitted + (s.dropped + s.source_failures) ≤ s.received)
  sources_add_up d sources has_executor x vs l =
      let a =
        play-IsCounted X lawful (X.in_flight x) 0 vs (create X d sources has_executor x)
          (create-IsCounted X lawful d sources has_executor x (length vs + 0) (omega (arith, l))) in
      (a.received, a.dropped, a.failed, omega (arith, a.frames_counted))

  -- Of an executor that keeps the laws and had no task in hand, and less than 2^64 turns, in any order:
  -- once `wait` has finished and the executor has no task in hand any more, as many frames are
  -- completed as were submitted, and no source's thread has a frame in hand.
  pub cameras_finish :
      (d : Option ℤ) (sources : ℕ) (has_executor : Bool) (x : X.State) (vs : List (Event X))
      → X.in_flight x ≡ 0
      → length vs < 2 ^ 64
      → let e = play X vs (create X d sources has_executor x) in
        e.finished ≡ true
        → X.in_flight e.executor ≡ 0
        → (e.summary.completed ≡ e.summary.submitted) × (all_idle e.threads ≡ true)
  cameras_finish d sources has_executor x vs z l f none_left =
      let e = play X vs (create X d sources has_executor x) in
      let a = play-IsCounted X lawful (X.in_flight x) 0 vs (create X d sources has_executor x) (
        create-IsCounted X lawful d sources has_executor x (length vs + 0) (omega (arith, l, z))) in
      let n =
        play-IsEnding vs (create X d sources has_executor x)
          (create-IsEnding d sources has_executor x) in
      let still : all_idle e.threads ≡ true = ground (arith, n.over, n.quiet, f) in
      (
        omega (
          arith,
          a.tasks,
          none_left,
          z,
          all_idle-sum (uncounted_task {F = F}) e.threads refl still,
        ),
        still,
      )
