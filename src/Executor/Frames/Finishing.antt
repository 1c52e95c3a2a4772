-- ===== src/Executor/Frames/Finishing.antt =====
-- The end of a run of Runtime/include/executor/frameExecutor.hpp.
use vision_runtime.Prelude.{
  ℕ, ◌+◌, ◌≤◌, ◌<◌, ◌^◌, length, Bool, true, false, not, ◌&&◌, ◌||◌, ◌≡◌, refl, is_some, List, [],
  ◌∷◌, arith, Bool-cases, Option-cases, inl, inr, ◌⊎◌,
}
use vision_runtime.Core.Status.{Result, success, failure}
use vision_runtime.Executor.Serial.{StopMode, graceful}
use vision_runtime.Executor.Interface.{PipelineExecutor, IsLawful}
use vision_runtime.Executor.Frames.{
  Options, SourceThread, idle, received_frame, answered, deciding, reaches, add_count,
  count_is_zero, Session, Event, frames, source_moves, relays_stop, timer_fires, waits_for_source,
  waits_for_executor, stops, works, create, request_stop, receive, handle_frame, count_answer,
  decide, move_source, count_completions, relay, fire_timer, is_idle, end_source, end_executor,
  step, play,
}
use vision_runtime.Executor.Frames.Accounting.{
  IsAccounted, play-IsAccounted, uncounted_frame, uncounted_task,
}

-- `reachedFrameCount` of the frame in hand.
abbrev pub reached_flag : {F : Type 0} → SourceThread F → Bool
reached_flag idle = false
reached_flag (received_frame f r) = r
reached_flag (answered a r) = r
reached_flag (deciding r s) = r

module _ {F R : Type 0} (X : PipelineExecutor F R) (lawful : IsLawful X) where
  record IsEnding (e : Session X) : Type 0 where
    over : (e.finished ≡ false) ⊎ (e.source_ended ≡ true)
    quiet : (e.source_ended ≡ false) ⊎ (is_idle X e.thread ≡ true)
    due :
        (reaches e.options.frame_count e.summary.received ≡ false)
        ⊎ (e.stop_requested ≡ true)
        ⊎ (reached_flag e.thread ≡ true)

  stop-IsEnding : (m : StopMode) (e : Session X) → IsEnding e → IsEnding (request_stop X m e)
  unfolding request_stop
  stop-IsEnding m e a = elim (Bool-cases e.finished) [
    | inl over ↦ simp over a
    | inr going ↦ simp going (record { over = inl refl; quiet = a.quiet; due = inr (inl refl) })
  ]

  source-IsEnding :
      (t : SourceThread F) (e : Session X)
      → e.thread ≡ t
      → IsEnding e
      → IsEnding (move_source X t e)
  unfolding move_source handle_frame count_answer decide request_stop
  source-IsEnding idle e q a = a
  source-IsEnding (received_frame (failure s) r) e q a = ground (arith, q, a.over, a.quiet, a.due)
  source-IsEnding (received_frame (success f) r) e q a =
      elim (Option-cases (X.submit f e.executor)) [
        | inl waiting ↦ simp waiting a
        | inr ((u, x), h) ↦ simp h (ground (arith, q, a.over, a.quiet, a.due))
      ]
  source-IsEnding (answered r b) e q a = ground (arith, q, a.over, a.quiet, a.due)
  source-IsEnding (deciding r b) e q a = ground (arith, q, a.over, a.quiet, a.due)

  receive-IsEnding :
      (f : Result F) (e : Session X)
      → (is_idle X e.thread && not e.source_ended) ≡ true
      → IsEnding e
      → IsEnding (receive X f e)
  unfolding receive
  receive-IsEnding f e q a = record {
    over = a.over;
    quiet = inl (ground (arith, q));
    due = elim (Bool-cases (reaches e.options.frame_count (add_count e.summary.received 1))) [
      | inl last ↦ inr (inr last)
      | inr more ↦ inl more
    ];
  }

  relay-IsEnding : (ms : List StopMode) (e : Session X) → IsEnding e → IsEnding (relay X ms e)
  unfolding relay
  relay-IsEnding [] e a = a
  relay-IsEnding (m ∷ ms) e a = record { over = a.over; quiet = a.quiet; due = a.due }

  work-IsEnding : (w : X.Work) (e : Session X) → IsEnding e → IsEnding (step X (works w) e)
  unfolding step count_completions
  work-IsEnding w e a = record { over = a.over; quiet = a.quiet; due = a.due }

  end_source-IsEnding : (e : Session X) → IsEnding e → IsEnding (end_source X e)
  unfolding end_source request_stop
  end_source-IsEnding e a = ground (arith, a.over, a.quiet, a.due)

  end_executor-IsEnding : (e : Session X) → IsEnding e → IsEnding (end_executor X e)
  unfolding end_executor
  end_executor-IsEnding e a = ground (arith, a.over, a.quiet, a.due)

  step-IsEnding : (v : Event X) (e : Session X) → IsEnding e → IsEnding (step X v e)
  unfolding step fire_timer
  step-IsEnding (frames f) e a = elim (Bool-cases (is_idle X e.thread && not e.source_ended)) [
    | inl takes ↦ simp takes (receive-IsEnding f e takes a)
    | inr same ↦ simp same a
  ]
  step-IsEnding source_moves e a = source-IsEnding e.thread e refl a
  step-IsEnding relays_stop e a = relay-IsEnding e.relays e a
  step-IsEnding timer_fires e a =
      elim (Bool-cases (not (is_some e.options.duration) || not e.started || e.timer_cancelled)) [
        | inl same ↦ simp same a
        | inr fires ↦ simp fires (stop-IsEnding graceful e a)
      ]
  step-IsEnding waits_for_source e a = end_source-IsEnding e a
  step-IsEnding waits_for_executor e a = end_executor-IsEnding e a
  step-IsEnding (stops m) e a = stop-IsEnding m e a
  step-IsEnding (works w) e a = work-IsEnding w e a

  play-IsEnding : (vs : List (Event X)) (e : Session X) → IsEnding e → IsEnding (play X vs e)
  unfolding play
  play-IsEnding [] e a = a
  play-IsEnding (v ∷ vs) e a = play-IsEnding vs (step X v e) (step-IsEnding v e a)

  created-IsAccounted :
      (o : Options) (has_source has_executor : Bool) (x : X.State) (left : ℕ)
      → X.in_flight x ≡ 0
      → left < 2 ^ 64
      → IsAccounted X lawful 0 left (create X o has_source has_executor x)
  unfolding create
  created-IsAccounted o has_source has_executor x left z l = record {
    tasks = omega (arith, z);
    frames_counted = omega arith;
    failed = omega arith;
    few = omega (arith, l);
  }

  create-IsEnding :
      (o : Options) (has_source has_executor : Bool) (x : X.State)
      → count_is_zero o.frame_count ≡ false
      → IsEnding (create X o has_source has_executor x)
  unfolding create
  create-IsEnding o has_source has_executor x h = ground (arith, h)

  -- Of an executor that keeps the laws and had no task in hand, and less than 2^64 turns, in any
  -- order: once `wait` has finished and the executor has no task in hand any more, as many frames are
  -- completed as were submitted, at most as many failed, the submitted, dropped and failed frames of
  -- the source are together at most the received ones, and `onFrame` has no frame in hand.
  pub counters_at_end :
      (o : Options) (has_source has_executor : Bool) (x : X.State) (vs : List (Event X))
      → count_is_zero o.frame_count ≡ false
      → X.in_flight x ≡ 0
      → length vs < 2 ^ 64
      → let e = play X vs (create X o has_source has_executor x) in
        e.finished ≡ true
        → X.in_flight e.executor ≡ 0
        → (e.summary.completed ≡ e.summary.submitted)
          × (e.summary.submitted + (e.summary.dropped + e.summary.source_failures)
              ≤ e.summary.received)
          × (e.summary.failed ≤ e.summary.completed)
          × (is_idle X e.thread ≡ true)
  counters_at_end o has_source has_executor x vs h z l f none_left =
      let e = play X vs (create X o has_source has_executor x) in
      let n =
        play-IsEnding vs (create X o has_source has_executor x)
          (create-IsEnding o has_source has_executor x h) in
      let a =
        play-IsAccounted X lawful 0 0 vs (create X o has_source has_executor x)
          (created-IsAccounted o has_source has_executor x (length vs + 0) z (omega (arith, l))) in
      let still : is_idle X e.thread ≡ true = ground (arith, n.over, n.quiet, f) in
      let (t, u) : (uncounted_task e.thread ≡ 0) × (uncounted_frame e.thread ≡ 0) =
        ground (arith, still) in
      (omega (arith, a.tasks, none_left, t), omega (arith, a.frames_counted, u), a.failed, still)

  -- Once as many frames as the configured count were received and `onFrame` has returned, a stop is
  -- requested.
  pub frame_count_stops :
      (o : Options) (has_source has_executor : Bool) (x : X.State) (vs : List (Event X))
      → count_is_zero o.frame_count ≡ false
      → let e = play X vs (create X o has_source has_executor x) in
        reaches e.options.frame_count e.summary.received ≡ true
        → is_idle X e.thread ≡ true
        → e.stop_requested ≡ true
  frame_count_stops o has_source has_executor x vs h r i =
      let n =
        play-IsEnding vs (create X o has_source has_executor x)
          (create-IsEnding o has_source has_executor x h) in
      ground (arith, n.due, r, i)
