-- ===== src/Executor/Serial/Stop.antt =====
-- `requestStop` of Runtime/include/executor/serialPipelineExecutor.hpp.
use vision_runtime.Prelude.{
  Bool, ℕ, List, [], ◌∷◌, ◌<◌, true, false, ◌≡◌, refl, arith, inl, inr, ◌⊎◌, ◌↔◌,
}
use vision_runtime.Core.Status.{Result, error, invalid_state}
use vision_runtime.Executor.Serial.{
  StopMode, graceful, immediate, Outcome, QueueFullPolicy, Event, submits, stops, cancels, runs,
  delivers, RunningTask, null_task, live_task, moved_task, settling, create, step, play,
  move_runner, take_task, cancel_task, deliver, Task, Runner, resting, releasing, ended, holding,
  executing, delivering, Executor, rejected, submit, request_stop,
}

module _ {P R : Type 0} where
  -- After a stop request of either mode nothing more is accepted, and no caller waits for space: a
  -- submission with a pipeline and a capacity is refused as an invalid state.
  pub stop-refuses :
      (m : StopMode) (e : Executor P R) (p : P)
      → e.has_pipeline ≡ true
      → 0 < e.queue_capacity
      → submit p (request_stop m e)
        ≡ rejected (error invalid_state "executor has stopped accepting tasks")
  unfolding submit request_stop
  stop-refuses graceful e p h c = ground arith
  stop-refuses immediate e p h c = ground arith

  -- What `runningTask_` is at each point of the runner.
  abbrev pub pointer_at : Runner P R → RunningTask
  pointer_at resting = null_task
  pointer_at ended = null_task
  pointer_at (holding t) = live_task
  pointer_at (executing t) = live_task
  pointer_at (settling t r) = live_task
  pointer_at (delivering t r) = moved_task
  pointer_at releasing = moved_task

  stop-pointer :
      (m : StopMode) (e : Executor P R)
      → e.running_task ≡ pointer_at e.runner
      → (request_stop m e).running_task ≡ pointer_at (request_stop m e).runner
  unfolding request_stop
  stop-pointer m e h = ground (arith, h)

module _ {P R : Type 0} (run : P → Outcome R) where
  move-pointer :
      (w : Runner P R) (e : Executor P R)
      → e.runner ≡ w
      → e.running_task ≡ pointer_at e.runner
      → (move_runner run w e).running_task ≡ pointer_at (move_runner run w e).runner
  unfolding move_runner take_task
  move-pointer w e q h = ground (arith, q, h)

  step-pointer :
      (v : Event P) (e : Executor P R)
      → e.running_task ≡ pointer_at e.runner
      → (step run v e).running_task ≡ pointer_at (step run v e).runner
  unfolding step submit cancel_task deliver
  step-pointer (submits p) e h = ground (arith, h)
  step-pointer (stops m) e h = stop-pointer m e h
  step-pointer (cancels i) e h = ground (arith, h)
  step-pointer runs e h = move-pointer e.runner e refl h
  step-pointer delivers e h = ground (arith, h)

  play-pointer :
      (vs : List (Event P)) (e : Executor P R)
      → e.running_task ≡ pointer_at e.runner
      → (play run vs e).running_task ≡ pointer_at (play run vs e).runner
  unfolding play
  play-pointer [] e h = h
  play-pointer (v ∷ vs) e h = play-pointer vs (step run v e) (step-pointer v e h)

  race :
      (e : Executor P R)
      → e.running_task ≡ pointer_at e.runner
      → e.crashed ≡ false
      → ((request_stop immediate e).crashed ≡ true)
        ↔ ((e.runner ≡ releasing) ⊎ ((t : Task P) × (r : Result R) × (e.runner ≡ delivering t r)))
  unfolding request_stop
  race e h c = (moved_at e.runner refl, back)
    where
      moved_at :
          (w : Runner P R)
          → e.runner ≡ w
          → (request_stop immediate e).crashed ≡ true
          → (e.runner ≡ releasing) ⊎ ((t : Task P) × (r : Result R) × (e.runner ≡ delivering t r))
      moved_at releasing q k = inl q
      moved_at (delivering t r) q k = inr (t, r, q)
      moved_at resting q k = absurd (ground (arith, q, h, c, k))
      moved_at ended q k = absurd (ground (arith, q, h, c, k))
      moved_at (holding t) q k = absurd (ground (arith, q, h, c, k))
      moved_at (executing t) q k = absurd (ground (arith, q, h, c, k))
      moved_at (settling t r) q k = absurd (ground (arith, q, h, c, k))

      back :
          (e.runner ≡ releasing) ⊎ ((t : Task P) × (r : Result R) × (e.runner ≡ delivering t r))
          → (request_stop immediate e).crashed ≡ true
      back (inl q) = ground (arith, q, h)
      back (inr (t, r, q)) = ground (arith, q, h)

  -- After any history of clients and threads in which nothing has crashed, an immediate stop requests
  -- cancellation through the null state of a task that was moved from exactly when it comes between the
  -- runner's move of its task to the dispatcher and the locked section that clears `runningTask_`.
  pub immediate_stop_race :
      (has_pipeline : Bool) (capacity : ℕ) (policy : QueueFullPolicy) (vs : List (Event P))
      → let e = play run vs (create has_pipeline capacity policy) in
        e.crashed ≡ false
        → ((request_stop immediate e).crashed ≡ true)
          ↔ ((e.runner ≡ releasing) ⊎ ((t : Task P) × (r : Result R) × (e.runner ≡ delivering t r)))
  unfolding create
  immediate_stop_race has_pipeline capacity policy vs c =
      race (play run vs (create has_pipeline capacity policy))
        (play-pointer vs (create has_pipeline capacity policy) refl) c
