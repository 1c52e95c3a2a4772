-- ===== src/Executor/Batch/Tests.antt =====
-- Tests of Runtime/include/executor/batchPipelineExecutor.hpp on small runs, and instances of what is
-- proved of it.
use vision_runtime.Prelude.{
  ◌⊎◌, ℕ, ◌+◌, ◌*◌, ◌≤◌, ◌==◌, if◌then◌else◌, true, ◌≡◌, refl, List, [], ◌∷◌, ◌++◌, map, length,
  ltb→lt,
}
use vision_runtime.Core.Status.{Result, success}
use vision_runtime.Executor.Serial.{drop, graceful, returned, threw}
use vision_runtime.Executor.Serial.Ids.{length-map}
use vision_runtime.Executor.Staged.{
  Item, submit_entry, stop_entry, move_link, take_item, hand_over, stage_result, is_cancelled, mem,
}
use vision_runtime.Executor.Staged.Tasks.{number}
use vision_runtime.Executor.Batch.{
  BatchStages, Member, flushing, Executor, Event, submits, stops, preprocesses, batches, times_out,
  finishes, delivers, create, submit, request_stop, begin_batch, weigh, take_first, take_next,
  move_finisher, take_posted, time_out, deliver, give_outputs, end_batch, flush_batch,
  move_collector, move_preprocess, call_preprocess, call_infer_batch, call_postprocess, assign,
  step, play,
}
use vision_runtime.Executor.Batch.Counts.{count, tally}
use vision_runtime.Executor.Batch.Places.{accepted_packets, tasks_in_one_place, batch_sizes}
use vision_runtime.Executor.Batch.Results.{AllAnswered}
use vision_runtime.Executor.Batch.Histories.{members_served_in_place}
use vision_runtime.Executor.Batch.Stranding.{late_task_is_stranded}

-- Stages that add one, double each member of a batch, and throw on 0.
abbrev sums : BatchStages ℕ ℕ ℕ ℕ
sums = record {
  preprocess = λ n. if n == 0 then threw "no input" else returned (success (n + 1));
  infer_batch = λ ns. returned (success (map (λ n. n * 2) ns));
  postprocess = λ n. returned (success n);
}

sums_counted : (is os : List ℕ) → call_infer_batch sums is ≡ success os → length os ≡ length is
unfolding call_infer_batch stage_result
sums_counted is os h =
    let same : map (λ n. n * 2) is ≡ os = cc in rw (← same) (length-map (λ n. n * 2) is)

abbrev fresh : Executor ℕ ℕ ℕ ℕ
fresh = create 2 true 3 2 drop

abbrev prepare : List (Event ℕ)
prepare = preprocesses ∷ preprocesses ∷ preprocesses ∷ preprocesses ∷ []

-- Two packets are submitted and prepared, and make a batch.
abbrev history : List (Event ℕ)
history =
    (submits 5 ∷ submits 7 ∷ prepare)
    ++ prepare
    ++ (batches ∷ batches ∷ batches ∷ batches ∷ batches ∷ [])

abbrev whole : List (Event ℕ)
whole =
    history
    ++ batches ∷ batches ∷ batches ∷ batches ∷ finishes ∷ finishes ∷ delivers ∷ finishes ∷ finishes
      ∷ delivers ∷ []

history_completed :
    map {B = ℕ × Result ℕ} (λ t. (t.id, t.value)) (play sums whole fresh).completed
    ≡ (1, success 12) ∷ (2, success 16) ∷ []
unfolding play step create submit submit_entry move_preprocess move_link take_item hand_over
    stage_result is_cancelled mem begin_batch weigh take_first take_next move_finisher take_posted
    deliver give_outputs end_batch flush_batch move_collector assign call_preprocess
    call_infer_batch call_postprocess
history_completed = refl

tasks_in_one_place_example :
    (tally (λ t. t.0 == 2) (play sums history (create 2 true 3 2 drop))
      ≡ count (λ t. t.0 == 2) (number 1 (accepted_packets sums history (create 2 true 3 2 drop))))
    × (((play sums history (create 2 true 3 2 drop)).lost ≡ [])
        ⊎ ((play sums history (create 2 true 3 2 drop)).overlapped ≡ true))
tasks_in_one_place_example =
    tasks_in_one_place sums sums_counted 2 true 3 2 drop history (λ t. t.0 == 2) (ltb→lt _ _ refl)

abbrev both : List (Member ℕ ℕ)
both = record { id = 1; packet = 5; input = 6 } ∷ record { id = 2; packet = 7; input = 8 } ∷ []

full_batch : (play sums history (create 2 true 3 2 drop)).collector ≡ flushing true both
unfolding play step create submit submit_entry move_preprocess move_link take_item hand_over
    stage_result is_cancelled mem begin_batch weigh take_first take_next move_collector
    call_preprocess
full_batch = refl

batch_sizes_example : (1 ≤ length both) × (length both ≤ (if 2 == 0 then 1 else 2))
batch_sizes_example =
    batch_sizes sums sums_counted 2 true 3 2 drop history true both (ltb→lt _ _ refl) full_batch

members_served_in_place_example :
    let e = play sums whole (create 2 true 3 2 drop) in AllAnswered sums e.entry.flags e.completed
members_served_in_place_example = members_served_in_place sums 2 true 3 2 drop whole

-- The second task is prepared when `popFor` gives up after the first one.
abbrev late : List (Event ℕ)
late =
    submits 5 ∷ submits 7 ∷ stops graceful ∷ prepare
    ++ (batches ∷ batches ∷ times_out ∷ preprocesses ∷ preprocesses ∷ preprocesses ∷ [])

abbrev gave_up : Executor ℕ ℕ ℕ ℕ
gave_up = play sums late fresh

abbrev second : Item ℕ ℕ
second = record { id = 2; packet = 7; value = success 8 }

late_task_is_stranded_example :
    (play sums (preprocesses ∷ preprocesses ∷ batches ∷ batches ∷ batches ∷ []) gave_up).prepared
    ≡ second ∷ []
unfolding play step create submit submit_entry request_stop stop_entry move_preprocess move_link
    take_item hand_over stage_result is_cancelled mem begin_batch weigh take_first take_next
    time_out move_collector call_preprocess
late_task_is_stranded_example =
    late_task_is_stranded sums second (record { id = 1; packet = 5; input = 6 } ∷ []) gave_up
      (batches ∷ batches ∷ []) refl refl refl refl refl (ltb→lt _ _ refl)
