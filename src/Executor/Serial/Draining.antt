-- ===== src/Executor/Serial/Draining.antt =====
-- How the threads of Runtime/include/executor/serialPipelineExecutor.hpp work off the queue.
use mathlib.Core.List.{append_assoc, append-nil}
use vision_runtime.Prelude.{
  ℕ, ◌<◌, true, ltb, ◌≡◌, refl, ap, ◌∙◌, List, [], ◌∷◌, ◌++◌, map, arith, if◌then◌else◌,
}
use vision_runtime.Core.Status.{Result}
use vision_runtime.Executor.Serial.{
  Outcome, Task, RunningTask, null_task, resting, ended, Executor, Event, runs, delivers, take_task,
  move_runner, deliver, cancelled_result, step, play, execute,
}

module _ {P R : Type 0} (run : P → Outcome R) where
  -- What a task that nobody cancels any more is completed with.
  abbrev pub outcome_of : Task P → Result R
  outcome_of t = if t.cancel_requested then cancelled_result else execute (run t.packet)

  abbrev pub completion_of : Task P → ℕ × Result R
  completion_of t = (t.id, outcome_of t)

  -- The turns that one task takes: the runner takes it, runs it if it is not cancelled, moves it, hands it over
  -- and rests, and the delivery thread delivers it.
  abbrev pub task_turns : Task P → List (Event P)
  task_turns t =
      if t.cancel_requested
      then runs ∷ runs ∷ runs ∷ runs ∷ runs ∷ delivers ∷ []
      else runs ∷ runs ∷ runs ∷ runs ∷ runs ∷ runs ∷ delivers ∷ []

  abbrev pub drain_turns : List (Task P) → List (Event P)
  drain_turns [] = runs ∷ []
  drain_turns (t ∷ ts) = task_turns t ++ drain_turns ts

  pub play-append :
      (us vs : List (Event P)) (e : Executor P R)
      → play run (us ++ vs) e ≡ play run vs (play run us e)
  unfolding play
  play-append [] vs e = refl
  play-append (u ∷ us) vs e = play-append us vs (step run u e)

  -- What `runningTask_` is after these tasks.
  abbrev pub pointer_after : RunningTask → List (Task P) → RunningTask
  pointer_after p [] = p
  pointer_after p (t ∷ ts) = pointer_after null_task ts

  -- The executor with these queues and its runner at rest.
  abbrev pub resting_with :
      Executor P R → RunningTask → List (Task P) → List (ℕ × Result R) → Executor P R
  resting_with e p ts done = record e {
    queue = ts;
    runner = resting;
    running_task = p;
    dispatched = [];
    completed = done;
  }

  -- One task at the head of the queue, from rest to rest.
  task_played :
      (t : Task P) (ts : List (Task P)) (e : Executor P R) (p : RunningTask)
      (done : List (ℕ × Result R))
      → ltb 0 e.queue_capacity ≡ true
      → play run (task_turns t) (resting_with e p (t ∷ ts) done)
        ≡ resting_with e null_task ts (done ++ completion_of t ∷ [])
  unfolding play step move_runner take_task deliver
  task_played t ts e p done c = ground arith

  drained :
      (ts : List (Task P)) (e : Executor P R) (p : RunningTask) (done : List (ℕ × Result R))
      → ltb 0 e.queue_capacity ≡ true
      → e.stop_requested ≡ true
      → play run (drain_turns ts) (resting_with e p ts done)
        ≡ record (resting_with e (pointer_after p ts) [] (done ++ map completion_of ts)) {
          runner = ended;
        }
  unfolding play step move_runner take_task
  drained [] e p done c s = simp (s, append-nil) refl
  drained (t ∷ ts) e p done c s =
      play-append (task_turns t) (drain_turns ts) (resting_with e p (t ∷ ts) done)
      ∙ ap (play run (drain_turns ts)) (task_played t ts e p done c)
      ∙ drained ts e null_task (done ++ completion_of t ∷ []) c s
      ∙ ap (λ d. record (resting_with e (pointer_after null_task ts) [] d) { runner = ended })
          (append_assoc done (completion_of t ∷ []) (map completion_of ts))

  -- Once a stop is requested and no client cancels any more, a resting runner with nothing waiting for
  -- delivery works off its whole queue and ends: after the turns of `drain_turns` the queue is empty and every
  -- queued task has been delivered, in order, with the cancelled result if it was cancelled and
  -- otherwise with what the pipeline answers.
  pub stop-drains :
      (e : Executor P R)
      → 0 < e.queue_capacity
      → e.stop_requested ≡ true
      → e.runner ≡ resting
      → e.dispatched ≡ []
      → let e' = play run (drain_turns e.queue) e in
        (e'.runner ≡ ended)
        × (e'.queue ≡ [])
        × (e'.dispatched ≡ [])
        × (e'.completed ≡ e.completed ++ map completion_of e.queue)
  stop-drains e c s r d =
      let same : e ≡ resting_with e e.running_task e.queue e.completed = ground arith in
      let end =
        ap (play run (drain_turns e.queue)) same
        ∙ drained e.queue e e.running_task e.completed (ground arith) s in
      (
        ap (λ (x : Executor P R). x.runner) end,
        ap (λ (x : Executor P R). x.queue) end,
        ap (λ (x : Executor P R). x.dispatched) end,
        ap (λ (x : Executor P R). x.completed) end,
      )
