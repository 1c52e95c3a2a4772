-- ===== src/Executor/Parallel.antt =====
-- Runtime/include/executor/parallelPipelineExecutor.hpp: three threads, one for each stage of the
-- pipeline, with bounded queues between them, and the delivery thread of
-- Runtime/include/core/completionDispatcher.hpp. Each locked section and each test of a flag is one
-- step, and the threads take their steps in any order.
pub mod Order
pub mod Results
pub mod Draining
pub mod Completion
mod Tests
use vision_runtime.Prelude.{
  ℕ, zero, suc, ◌+◌, Bool, true, false, List, [], ◌∷◌, ◌++◌, if◌then◌else◌,
}
use vision_runtime.Core.Status.{Result, ◌>>=◌, success}
use vision_runtime.Executor.Serial.{QueueFullPolicy, StopMode, graceful, immediate, Outcome}
use vision_runtime.Executor.Staged.{
  Item, Flags, Worker, resting, ended, holding, calling, handing, Link, Entry, Submitted, new_entry,
  submit_entry, after_submit, stop_entry, cancel_entry, move_link, stage_result, ids, is_ended,
}

-- The three stages of the pipeline.
pub record Stages (P I O R : Type 0) : Type 0 where
  pub preprocess : P → Outcome I
  pub infer : I → Outcome O
  pub postprocess : O → Outcome R

-- The entry queue is the input of the preprocessing thread. A stage queue is closed when the thread
-- that pushes to it has ended.
pub record Executor (P I O R : Type 0) : Type 0 where
  pub entry : Entry P
  pub preprocessing : Worker P P I
  pub prepared : List (Item P I)
  pub inference : Worker P I O
  pub inferred : List (Item P O)
  pub postprocessing : Worker P O R
  -- What waits in the completion dispatcher, and the completions delivered, oldest first.
  pub dispatched : List (Item P R)
  pub completed : List (Item P R)

pub data Event (P : Type 0) : Type 0 where
  submits : P → Event P
  stops : StopMode → Event P
  cancels : ℕ → Event P
  preprocesses infers postprocesses delivers : Event P

unfoldable pub submit : {P : Type 0} → P → Entry P → Submitted P
unfolding submit_entry
submit packet e = submit_entry "parallel executor requires a staged pipeline" packet e

module _ {P I O R : Type 0} where
  unfoldable pub create : Bool → ℕ → ℕ → QueueFullPolicy → Executor P I O R
  create has_pipeline capacity stage_capacity policy = record {
    entry = new_entry has_pipeline capacity stage_capacity policy;
    preprocessing = resting;
    prepared = [];
    inference = resting;
    inferred = [];
    postprocessing = resting;
    dispatched = [];
    completed = [];
  }

  unfoldable pub request_stop : StopMode → Executor P I O R → Executor P I O R
  unfolding stop_entry
  request_stop m e = record e { entry = stop_entry m e.entry }

  abbrev pub preprocess_link : Executor P I O R → Link P P I
  preprocess_link e = record {
    input = e.entry.queue;
    worker = e.preprocessing;
    output = e.prepared;
  }

  abbrev pub inference_link : Executor P I O R → Link P I O
  inference_link e = record { input = e.prepared; worker = e.inference; output = e.inferred }

  abbrev pub postprocess_link : Executor P I O R → Link P O R
  postprocess_link e = record {
    input = e.inferred;
    worker = e.postprocessing;
    output = e.dispatched;
  }

  abbrev pub with_preprocess_link : Executor P I O R → Link P P I → Executor P I O R
  with_preprocess_link e l = record e {
    entry = record e.entry { queue = l.input };
    preprocessing = l.worker;
    prepared = l.output;
  }

  abbrev pub with_inference_link : Executor P I O R → Link P I O → Executor P I O R
  with_inference_link e l = record e {
    prepared = l.input;
    inference = l.worker;
    inferred = l.output;
  }

  abbrev pub with_postprocess_link : Executor P I O R → Link P O R → Executor P I O R
  with_postprocess_link e l = record e {
    inferred = l.input;
    postprocessing = l.worker;
    dispatched = l.output;
  }

  -- One round of `CompletionDispatcher::run`, which completes the task.
  unfoldable pub deliver : List (Item P R) → Executor P I O R → Executor P I O R
  deliver [] e = e
  deliver (t ∷ rest) e = record e { dispatched = rest; completed = e.completed ++ t ∷ [] }

module _ {P I O R : Type 0} (s : Stages P I O R) where
  -- `callPreprocess`, `callInference` and `callPostprocess`.
  unfoldable pub call_preprocess : P → Result I
  unfolding stage_result
  call_preprocess p = stage_result "preprocess" (s.preprocess p)

  unfoldable pub call_inference : I → Result O
  unfolding stage_result
  call_inference i = stage_result "inference" (s.infer i)

  unfoldable pub call_postprocess : O → Result R
  unfolding stage_result
  call_postprocess o = stage_result "postprocess" (s.postprocess o)

  -- One step of `runPreprocess`.
  unfoldable pub move_preprocess : Executor P I O R → Executor P I O R
  unfolding move_link call_preprocess
  move_preprocess e = with_preprocess_link e (
      move_link e.entry.stop_requested e.entry.stage_capacity e.entry.flags call_preprocess
        e.preprocessing (preprocess_link e))

  -- One step of `runInference`.
  unfoldable pub move_inference : Executor P I O R → Executor P I O R
  unfolding move_link call_inference
  move_inference e = with_inference_link e (
      move_link (is_ended e.preprocessing) e.entry.stage_capacity e.entry.flags call_inference
        e.inference (inference_link e))

  -- One step of `runPostprocess`; the push is that to the completion dispatcher.
  unfoldable pub move_postprocess : Executor P I O R → Executor P I O R
  unfolding move_link call_postprocess
  move_postprocess e = with_postprocess_link e (
      move_link (is_ended e.inference) e.entry.stage_capacity e.entry.flags call_postprocess
        e.postprocessing (postprocess_link e))

  unfoldable pub step : Event P → Executor P I O R → Executor P I O R
  unfolding submit request_stop cancel_entry move_preprocess move_inference move_postprocess deliver
  step (submits p) e = record e { entry = after_submit e.entry (submit p e.entry) }
  step (stops m) e = request_stop m e
  step (cancels i) e = record e { entry = cancel_entry (ids e.completed) i e.entry }
  step preprocesses e = move_preprocess e
  step infers e = move_inference e
  step postprocesses e = move_postprocess e
  step delivers e = deliver e.dispatched e

  unfoldable pub play : List (Event P) → Executor P I O R → Executor P I O R
  unfolding step
  play [] e = e
  play (v ∷ vs) e = play vs (step v e)
