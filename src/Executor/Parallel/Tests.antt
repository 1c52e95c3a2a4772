-- ===== src/Executor/Parallel/Tests.antt =====
-- Tests of Runtime/include/executor/parallelPipelineExecutor.hpp on a small run, and instances of what
-- is proved of it.
use vision_runtime.Prelude.{
  ℕ, ◌+◌, ◌*◌, ◌≤◌, ◌==◌, if◌then◌else◌, true, ◌≡◌, refl, List, [], ◌∷◌, ◌++◌, map, length, ltb→lt,
}
use vision_runtime.Core.Status.{Result, success, failure, error, internal}
use vision_runtime.Executor.Serial.{drop, graceful, returned, threw, cancelled_result}
use vision_runtime.Executor.Staged.{
  ended, submit_entry, stop_entry, cancel_entry, move_link, take_item, hand_over, stage_result,
  is_cancelled, mem,
}
use vision_runtime.Executor.Staged.Tasks.{number}
use vision_runtime.Executor.Staged.Right.{AllStand}
use vision_runtime.Executor.Parallel.{
  Stages, Executor, Event, submits, cancels, preprocesses, infers, create, submit, request_stop,
  move_preprocess, move_inference, move_postprocess, deliver, call_preprocess, call_inference,
  call_postprocess, step, play,
}
use vision_runtime.Executor.Parallel.Order.{accepted_packets, all_tasks, pipeline_keeps_order}
use vision_runtime.Executor.Parallel.Results.{outcome_of, completed_right}
use vision_runtime.Executor.Parallel.Draining.{work, rounds}
use vision_runtime.Executor.Parallel.Completion.{stop_completes_all}

-- Stages that add one, double, and throw on 0.
abbrev sums : Stages ℕ ℕ ℕ ℕ
sums = record {
  preprocess = λ n. if n == 0 then threw "no input" else returned (success (n + 1));
  infer = λ n. returned (success (n * 2));
  postprocess = λ n. returned (success n);
}

abbrev idle : Executor ℕ ℕ ℕ ℕ
idle = create true 3 1 drop

-- Two tasks are on their way when a third one is cancelled.
abbrev history : List (Event ℕ)
history =
    submits 5
    ∷ submits 0
    ∷ submits 7
    ∷ preprocesses
    ∷ preprocesses
    ∷ preprocesses
    ∷ preprocesses
    ∷ infers
    ∷ cancels 3
    ∷ preprocesses
    ∷ []

abbrev stopped : Executor ℕ ℕ ℕ ℕ
stopped = request_stop graceful (play sums history idle)

history_completed :
    map {B = ℕ × Result ℕ} (λ t. (t.id, t.value)) (play sums (rounds sums 40) stopped).completed
    ≡ (1, success 12)
      ∷ (2, failure (error internal "preprocess stage threw an exception: no input"))
      ∷ (3, cancelled_result)
      ∷ []
unfolding play step create submit submit_entry request_stop stop_entry cancel_entry move_preprocess
    move_inference move_postprocess deliver move_link take_item hand_over stage_result is_cancelled
    mem call_preprocess call_inference call_postprocess
history_completed = refl

pipeline_keeps_order_example :
    let e = play sums history (create true 3 1 drop) in
    (all_tasks e ≡ number 1 (accepted_packets sums history (create true 3 1 drop)))
    × (e.entry.next_id ≡ length (accepted_packets sums history (create true 3 1 drop)) + 1)
    × (length e.entry.queue ≤ e.entry.queue_capacity)
    × (length e.prepared ≤ e.entry.stage_capacity)
    × (length e.inferred ≤ e.entry.stage_capacity)
    × (length e.dispatched ≤ e.entry.stage_capacity)
pipeline_keeps_order_example = pipeline_keeps_order sums true 3 1 drop history (ltb→lt _ _ refl)

completed_right_example :
    let e = play sums (history ++ rounds sums 40) (create true 3 1 drop) in
    AllStand e.entry.flags (outcome_of sums) e.completed
completed_right_example = completed_right sums true 3 1 drop (history ++ rounds sums 40)

stop_completes_all_example :
    let e = play sums (rounds sums (work stopped)) stopped in
    (e.entry.queue ≡ [])
    × (e.preprocessing ≡ ended)
    × (e.inference ≡ ended)
    × (e.postprocessing ≡ ended)
    × (map {B = ℕ × ℕ} (λ t. (t.id, t.packet)) e.completed
        ≡ number 1 (accepted_packets sums history (create true 3 1 drop)))
    × AllStand e.entry.flags (outcome_of sums) e.completed
stop_completes_all_example =
    stop_completes_all sums true 3 1 drop history graceful (ltb→lt _ _ refl) (ltb→lt _ _ refl)
