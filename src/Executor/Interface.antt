-- ===== src/Executor/Interface.antt =====
-- Runtime/include/executor/iPipelineExecutor.hpp: what the sessions use of an executor.
pub mod Serial
use vision_runtime.Prelude.{ℕ, ◌+◌, ◌≡◌, Option, some, List, length}
use vision_runtime.Core.Status.{Status, Result, success, failure}
use vision_runtime.Executor.Serial.{StopMode}

-- `submit` is `none` while the caller waits for room. `advance` is a step of the executor's threads or
-- of a client that cancels, with the results of the tasks that it completes.
pub record PipelineExecutor (P R : Type 0) : Type 1 where
  pub State : Type 0
  pub Work : Type 0
  pub submit : P → State → Option (Result (Unit {0}) × State)
  pub stop : StopMode → State → State
  pub advance : Work → State → State × List (Result R)
  -- How many tasks were accepted and not completed.
  pub in_flight : State → ℕ

pub record IsLawful {P R : Type 0} (X : PipelineExecutor P R) : Type 0 where
  pub submit-accepted :
      (p : P) (x y : X.State) (u : Unit {0})
      → X.submit p x ≡ some (success u, y)
      → X.in_flight y ≡ X.in_flight x + 1
  pub submit-refused :
      (p : P) (x y : X.State) (e : Status)
      → X.submit p x ≡ some (failure e, y)
      → X.in_flight y ≡ X.in_flight x
  pub in_flight-stop : (m : StopMode) (x : X.State) → X.in_flight (X.stop m x) ≡ X.in_flight x
  pub in_flight-advance :
      (w : X.Work) (x : X.State)
      → X.in_flight (X.advance w x).0 + length (X.advance w x).1 ≡ X.in_flight x
