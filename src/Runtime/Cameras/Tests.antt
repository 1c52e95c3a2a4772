-- ===== src/Runtime/Cameras/Tests.antt =====
-- A test of Runtime/include/runtime/multiCameraSession.hpp with the executor of
-- Runtime/include/executor/serialPipelineExecutor.hpp, and instances of what is proved of it.
use vision_runtime.Prelude.{ltb→lt, ℕ, ◌+◌, ◌≤◌, true, ◌≡◌, refl, none, List, [], ◌∷◌, ◌++◌}
use vision_runtime.Core.Status.{success}
use vision_runtime.Executor.Serial.{
  drop, Outcome, returned, submit, request_stop as stop_serial, create as create_serial,
  Executor as SerialExecutor, take_task, move_runner, deliver, execute,
}
use vision_runtime.Executor.Interface.Serial.{
  runs, delivers, serial_executor, serial_executor-IsLawful, perform,
}
use vision_runtime.Executor.Frames.{failures}
use vision_runtime.Runtime.Cameras.{
  Session, Event, frames, source_moves, relays_stop, waits_for_sources, waits_for_executor, works,
  create, receive, handle_frame, count_answer, move_source, count_completions, relay, end_sources,
  end_executor, request_stop, step, play, all_idle,
}
use vision_runtime.Runtime.Cameras.Sums.{sum}
use vision_runtime.Runtime.Cameras.Finishing.{sources_add_up, cameras_finish}

abbrev add_source : ℕ × ℕ → Outcome ℕ
add_source packet = returned (success (packet.0 + packet.1))

abbrev first : SerialExecutor (ℕ × ℕ) ℕ
first = create_serial true 1 drop

-- The second source's frame finds the queue full.
abbrev history : List (Event (serial_executor add_source))
history =
    (frames 0 (success 5) ∷ frames 1 (success 7) ∷ source_moves 0 ∷ source_moves 1 ∷ [])
    ++ (source_moves 0 ∷ source_moves 1 ∷ [])
    ++ (works runs ∷ works runs ∷ works runs ∷ works runs ∷ works runs ∷ works delivers ∷ [])
    ++ (waits_for_sources ∷ relays_stop ∷ waits_for_executor ∷ [])

abbrev last : Session (serial_executor add_source)
last =
    play (serial_executor add_source) history
      (create (serial_executor add_source) none 2 true first)

last_summary : last.summary ≡ record {
  received = 2;
  submitted = 1;
  completed = 1;
  failed = 0;
  dropped = 1;
  source_failures = 0;
  dropped_per_source = 0 ∷ 1 ∷ [];
  received_per_source = 1 ∷ 1 ∷ [];
}
unfolding play step create receive handle_frame count_answer move_source count_completions relay
    end_sources end_executor request_stop failures perform submit move_runner take_task deliver
    execute stop_serial create_serial
last_summary = refl

sources_add_up_example :
    (last.summary.received ≡ sum last.summary.received_per_source)
    × (last.summary.dropped ≡ sum last.summary.dropped_per_source)
    × (last.summary.failed ≤ last.summary.completed)
    × (last.summary.submitted + (last.summary.dropped + last.summary.source_failures)
        ≤ last.summary.received)
unfolding create create_serial
sources_add_up_example =
    sources_add_up (serial_executor add_source) (serial_executor-IsLawful add_source) none 2 true
      first history (ltb→lt _ _ refl)

cameras_finish_example :
    (last.summary.completed ≡ last.summary.submitted) × (all_idle last.threads ≡ true)
unfolding play step create receive handle_frame count_answer move_source count_completions relay
    end_sources end_executor request_stop failures perform submit move_runner take_task deliver
    execute stop_serial create_serial
cameras_finish_example =
    cameras_finish (serial_executor add_source) (serial_executor-IsLawful add_source) none 2 true
      first history refl (ltb→lt _ _ refl) refl refl
