-- ===== src/Executor/Frames/Tests.antt =====
-- A test of Runtime/include/executor/frameExecutor.hpp with the executor of
-- Runtime/include/executor/serialPipelineExecutor.hpp, and instances of what is proved of it.
use vision_runtime.Prelude.{
  ℕ, ltb→lt, ◌+◌, ◌≤◌, ◌==◌, if◌then◌else◌, true, ◌≡◌, refl, none, some, List, [], ◌∷◌, ◌++◌,
}
use vision_runtime.Prelude.Int.{pos}
use vision_runtime.Core.Status.{success, failure, error, unavailable}
use vision_runtime.Executor.Serial.{
  drop, Outcome, returned, threw, submit, request_stop as stop_serial, create as create_serial,
  Executor as SerialExecutor, take_task, move_runner, deliver, execute,
}
use vision_runtime.Executor.Interface.Serial.{
  runs, delivers, serial_executor, serial_executor-IsLawful, perform,
}
use vision_runtime.Executor.Frames.{
  Options, skip, Session, Event, frames, source_moves, relays_stop, waits_for_source,
  waits_for_executor, works, create, receive, handle_frame, count_answer, decide, move_source,
  request_stop, count_completions, relay, end_source, end_executor, failures, step, play, is_idle,
}
use vision_runtime.Executor.Frames.Finishing.{counters_at_end, frame_count_stops}

abbrev add_one : ℕ → Outcome ℕ
add_one n = if n == 0 then threw "no input" else returned (success (n + 1))

abbrev two_frames : Options
two_frames = record {
  frame_count = some 2;
  duration = none;
  frame_interval = pos 0;
  source_failure_policy = skip;
}

abbrev first : SerialExecutor ℕ ℕ
first = create_serial true 4 drop

abbrev one_task : List (Event (serial_executor add_one))
one_task =
    works runs
    ∷ works runs
    ∷ works runs
    ∷ works runs
    ∷ works runs
    ∷ works runs
    ∷ works delivers
    ∷ []

-- A frame, a failure of the source that reaches the frame count, and the end of the run.
abbrev history : List (Event (serial_executor add_one))
history =
    (frames (success 5) ∷ source_moves ∷ source_moves ∷ source_moves ∷ [])
    ++ (frames (failure (error unavailable "no frame")) ∷ source_moves ∷ source_moves ∷ [])
    ++ one_task
    ++ (waits_for_source ∷ relays_stop ∷ waits_for_executor ∷ [])

abbrev last : Session (serial_executor add_one)
last =
    play (serial_executor add_one) history
      (create (serial_executor add_one) two_frames true true first)

last_summary : last.summary ≡ record {
  received = 2;
  submitted = 1;
  completed = 1;
  failed = 0;
  dropped = 0;
  source_failures = 1;
}
unfolding play step create receive handle_frame count_answer decide move_source count_completions
    relay end_source end_executor failures perform submit move_runner take_task deliver execute
    request_stop stop_serial create_serial
last_summary = refl

counters_at_end_example :
    (last.summary.completed ≡ last.summary.submitted)
    × (last.summary.submitted + (last.summary.dropped + last.summary.source_failures)
        ≤ last.summary.received)
    × (last.summary.failed ≤ last.summary.completed)
    × (is_idle (serial_executor add_one) last.thread ≡ true)
unfolding play step create receive handle_frame count_answer decide move_source count_completions
    relay end_source end_executor failures perform submit move_runner take_task deliver execute
    request_stop stop_serial create_serial
counters_at_end_example =
    counters_at_end (serial_executor add_one) (serial_executor-IsLawful add_one) two_frames true
      true first history refl refl (ltb→lt _ _ refl) refl refl

frame_count_stops_example : last.stop_requested ≡ true
unfolding play step create receive handle_frame count_answer decide move_source count_completions
    relay end_source end_executor failures perform submit move_runner take_task deliver execute
    request_stop stop_serial create_serial
frame_count_stops_example =
    frame_count_stops (serial_executor add_one) (serial_executor-IsLawful add_one) two_frames true
      true first history refl refl refl
