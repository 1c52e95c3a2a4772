-- ===== src/Executor/Interface/Serial.antt =====
-- Runtime/include/executor/serialPipelineExecutor.hpp as an executor of
-- Runtime/include/executor/iPipelineExecutor.hpp.
use vision_runtime.Prelude.{
  ℕ, ◌+◌, ◌≡◌, refl, ap, Bool-cases, inl, inr, ltb, Option, none, some, List, [], ◌∷◌, length,
  length-append, arith,
}
use vision_runtime.Core.Status.{Status, Result, success, failure}
use vision_runtime.Executor.Interface.{PipelineExecutor, IsLawful}
use vision_runtime.Executor.Serial.{
  StopMode, graceful, immediate, Outcome, Task, Runner, resting, releasing, ended, holding,
  executing, settling, RunningTask, delivering, Executor, Submitted, accepted, rejected, waits,
  submit, request_stop, cancel_task, move_runner, take_task, deliver, new_task, flagged, flag_id,
  cancel_running, flag_runner,
}
use vision_runtime.Executor.Serial.Ids.{length-map}

pub data SerialWork : Type 0 where
  runs delivers : SerialWork
  cancels : ℕ → SerialWork

module _ {P R : Type 0} where
  abbrev pub runner_tasks : Runner P R → ℕ
  runner_tasks (holding t) = 1
  runner_tasks (executing t) = 1
  runner_tasks (settling t r) = 1
  runner_tasks (delivering t r) = 1
  runner_tasks resting = 0
  runner_tasks releasing = 0
  runner_tasks ended = 0

  abbrev pub pending : Executor P R → ℕ
  pending e = length e.dispatched + (runner_tasks e.runner + length e.queue)

  abbrev answer : Executor P R → Submitted P R → Option (Result (Unit {0}) × Executor P R)
  answer e (accepted i e') = some (success tt, e')
  answer e (rejected s) = some (failure s, e)
  answer e waits = none

  abbrev delivered : List (Task P × Result R) → List (Result R)
  delivered [] = []
  delivered ((t, r) ∷ rest) = r ∷ []

  cancel_running-tasks :
      (p : RunningTask) (w : Runner P R) → runner_tasks (cancel_running p w) ≡ runner_tasks w
  cancel_running-tasks p w = ground arith

  flag_runner-tasks : (i : ℕ) (w : Runner P R) → runner_tasks (flag_runner i w) ≡ runner_tasks w
  flag_runner-tasks i w = ground arith

  stop-pending : (m : StopMode) (e : Executor P R) → pending (request_stop m e) ≡ pending e
  unfolding request_stop
  stop-pending graceful e = refl
  stop-pending immediate e =
      omega (arith, cancel_running-tasks e.running_task e.runner, length-map flagged e.queue)

  take_task-pending :
      (ts : List (Task P)) (e : Executor P R)
      → e.queue ≡ ts
      → e.runner ≡ resting
      → pending (take_task ts e) ≡ pending e
  unfolding take_task
  take_task-pending [] e q w = ground (arith, w)
  take_task-pending (t ∷ ts) e q w = omega (arith, ap length q, ap runner_tasks w)

  deliver-pending :
      (d : List (Task P × Result R)) (e : Executor P R)
      → e.dispatched ≡ d
      → pending (deliver d e) + length (delivered d) ≡ pending e
  unfolding deliver
  deliver-pending [] e q = omega arith
  deliver-pending ((t, r) ∷ rest) e q = omega (arith, ap length q)

  submit-pending :
      (p : P) (e e' : Executor P R) (u : Unit {0})
      → answer e (submit p e) ≡ some (success u, e')
      → pending e' ≡ pending e + 1
  unfolding submit
  submit-pending p e e' u h = ground (arith, h, length-append e.queue (new_task e.next_id p ∷ []))

  submit-refused_pending :
      (p : P) (e e' : Executor P R) (s : Status)
      → answer e (submit p e) ≡ some (failure s, e')
      → pending e' ≡ pending e
  unfolding submit
  submit-refused_pending p e e' s h = ground (arith, h)

module _ {P R : Type 0} (run : P → Outcome R) where
  unfoldable pub perform : SerialWork → Executor P R → Executor P R × List (Result R)
  unfolding move_runner deliver cancel_task
  perform runs e = (move_runner run e.runner e, [])
  perform delivers e = (deliver e.dispatched e, delivered e.dispatched)
  perform (cancels i) e = (cancel_task i e, [])

  dispatch-pending :
      (t : Task P) (r : Result R) (e : Executor P R)
      → e.runner ≡ delivering t r
      → pending (move_runner run (delivering t r) e) ≡ pending e
  unfolding move_runner
  dispatch-pending t r e q = elim (Bool-cases (ltb (length e.dispatched) e.queue_capacity)) [
    | inl room ↦
        rw room (omega (arith, ap runner_tasks q, length-append e.dispatched ((t, r) ∷ [])))
    | inr full ↦ rw full refl
  ]

  move_runner-pending :
      (w : Runner P R) (e : Executor P R) → e.runner ≡ w → pending (move_runner run w e) ≡ pending e
  unfolding move_runner
  move_runner-pending resting e q = take_task-pending e.queue e refl q
  move_runner-pending (holding t) e q = ground (arith, q)
  move_runner-pending (executing t) e q = omega (arith, ap runner_tasks q)
  move_runner-pending (settling t r) e q = omega (arith, ap runner_tasks q)
  move_runner-pending (delivering t r) e q = dispatch-pending t r e q
  move_runner-pending releasing e q = omega (arith, ap runner_tasks q)
  move_runner-pending ended e q = refl

  perform-pending :
      (w : SerialWork) (e : Executor P R)
      → pending (perform w e).0 + length (perform w e).1 ≡ pending e
  unfolding perform cancel_task
  perform-pending runs e = omega (arith, move_runner-pending e.runner e refl)
  perform-pending delivers e = deliver-pending e.dispatched e refl
  perform-pending (cancels i) e =
      omega (arith, flag_runner-tasks i e.runner, length-map (flag_id i) e.queue)

  abbrev pub serial_executor : PipelineExecutor P R
  serial_executor = record {
    State = Executor P R;
    Work = SerialWork;
    submit = λ p e. answer e (submit p e);
    stop = request_stop;
    advance = perform;
    in_flight = pending;
  }

  pub serial_executor-IsLawful : IsLawful serial_executor
  serial_executor-IsLawful = record {
    submit-accepted = λ p x y u h. submit-pending p x y u h;
    submit-refused = λ p x y e h. submit-refused_pending p x y e h;
    in_flight-stop = stop-pending;
    in_flight-advance = perform-pending;
  }
