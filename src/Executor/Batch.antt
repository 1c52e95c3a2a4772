-- ===== src/Executor/Batch.antt =====
-- Runtime/include/executor/batchPipelineExecutor.hpp: the preprocessing thread, the thread that
-- collects batches and runs one inference for each, the postprocessing thread, and the delivery
-- thread of Runtime/include/core/completionDispatcher.hpp. Each locked section, each test of a flag
-- and each push is one step, and the threads take their steps in any order.
pub mod Closing
pub mod Counts
pub mod Sizes
pub mod Places
pub mod Results
pub mod Serving
pub mod Histories
pub mod Stranding
mod Tests
use vision_runtime.Prelude.{
  ℕ, zero, suc, ◌+◌, Bool, true, false, not, ◌||◌, Option, none, some, List, [], ◌∷◌, ◌++◌, map,
  length, leb, ltb, ◌==◌, if◌then◌else◌,
}
use vision_runtime.Core.Status.{Status, Result, ◌>>=◌, success, failure}
use vision_runtime.Executor.Serial.{
  QueueFullPolicy, StopMode, graceful, immediate, Outcome, cancelled_result,
}
use vision_runtime.Executor.Staged.{
  Item, Flags, Worker, Link, Entry, Submitted, new_entry, submit_entry, after_submit, stop_entry,
  cancel_entry, move_link, stage_result, ids, is_ended, is_cancelled, with_value,
}

-- The stages of the pipeline that the executor calls.
pub record BatchStages (P I O R : Type 0) : Type 0 where
  pub preprocess : P → Outcome I
  pub infer_batch : List I → Outcome (List O)
  pub postprocess : O → Outcome R

-- A task in a batch, with its prepared input or its output.
pub record Member (P A : Type 0) : Type 0 where
  pub id : ℕ
  pub packet : P
  pub input : A

-- Where the batch thread stands. `timed_out` is between a `popFor` without a value and the call of
-- `isClosed`; `failing` and `posting` have the rest of a loop over the members. The truth value says
-- whether the thread goes on after this batch.
pub data Collector (P I O R : Type 0) : Type 0 where
  resting ended : Collector P I O R
  holding : Item P I → Collector P I O R
  gathering timed_out : List (Member P I) → Collector P I O R
  weighing : List (Member P I) → Item P I → Collector P I O R
  setting_aside : List (Member P I) → Item P R → Collector P I O R
  flushing : Bool → List (Member P I) → Collector P I O R
  failing : Bool → List (Item P R) → Collector P I O R
  posting : Bool → List (Member P O) → Collector P I O R

pub data Finisher (P R : Type 0) : Type 0 where
  idle over : Finisher P R
  handing : Item P R → Finisher P R

pub record Executor (P I O R : Type 0) : Type 0 where
  pub max_batch_size : ℕ
  pub entry : Entry P
  pub preprocessing : Worker P P I
  pub prepared : List (Item P I)
  pub collector : Collector P I O R
  pub postprocessed : List (Item P R)
  pub finisher : Finisher P R
  -- What waits in the completion dispatcher, and the completions delivered, oldest first.
  pub dispatched : List (Item P R)
  pub completed : List (Item P R)
  -- Completions that two pushes to the dispatcher's queue at once have lost, and whether there were
  -- such pushes.
  pub lost : List (Item P R)
  pub overlapped : Bool
  -- An output was read behind the end of the batch's outputs.
  pub crashed : Bool

-- `deadlines` is a test of the deadline at the head of `collectBatch`'s loop that finds it passed,
-- `times_out` a `popFor` that finds the queue empty for the last time; `loses_batched` and
-- `loses_finished` are pushes to the dispatcher whose value a push of the other thread replaces.
pub data Event (P : Type 0) : Type 0 where
  submits : P → Event P
  stops : StopMode → Event P
  cancels : ℕ → Event P
  preprocesses batches deadlines times_out finishes delivers : Event P
  loses_batched loses_finished : Event P

abbrev pub member_of : {P A B : Type 0} → Item P A → B → Member P B
member_of t x = record { id = t.id; packet = t.packet; input = x }

abbrev pub completion_of : {P A R : Type 0} → Member P A → Result R → Item P R
completion_of m r = record { id = m.id; packet = m.packet; value = r }

abbrev pub inputs_of : {P A : Type 0} → List (Member P A) → List A
inputs_of = map λ m. m.input

abbrev pub add_member :
    {P O : Type 0} → Member P O → Option (List (Member P O)) → Option (List (Member P O))
add_member m none = none
add_member m (some ms) = some (m ∷ ms)

-- The outputs by index; `none` when there are fewer outputs than members.
unfoldable pub assign : {P A O : Type 0} → List (Member P A) → List O → Option (List (Member P O))
assign [] os = some []
assign (m ∷ ms) [] = none
assign (m ∷ ms) (o ∷ os) =
    add_member (record { id = m.id; packet = m.packet; input = o }) (assign ms os)

abbrev pub is_over : {P R : Type 0} → Finisher P R → Bool
is_over over = true
is_over _ = false

abbrev pub is_handing : {P R : Type 0} → Finisher P R → Bool
is_handing (handing t) = true
is_handing _ = false

unfoldable pub submit : {P : Type 0} → P → Entry P → Submitted P
unfolding submit_entry
submit packet e = submit_entry "batch executor requires a staged pipeline" packet e

module _ {P I O R : Type 0} where
  abbrev pub collector_ended : Collector P I O R → Bool
  collector_ended ended = true
  collector_ended _ = false

  unfoldable pub create : ℕ → Bool → ℕ → ℕ → QueueFullPolicy → Executor P I O R
  create max_batch_size has_pipeline capacity stage_capacity policy = record {
    max_batch_size = if max_batch_size == 0 then 1 else max_batch_size;
    entry = new_entry has_pipeline capacity stage_capacity policy;
    preprocessing = Worker.resting;
    prepared = [];
    collector = resting;
    postprocessed = [];
    finisher = idle;
    dispatched = [];
    completed = [];
    lost = [];
    overlapped = false;
    crashed = false;
  }

  unfoldable pub request_stop : StopMode → Executor P I O R → Executor P I O R
  unfolding stop_entry
  request_stop m e = record e { entry = stop_entry m e.entry }

  abbrev pub preprocess_link : Executor P I O R → Link P P I
  preprocess_link e = record {
    input = e.entry.queue;
    worker = e.preprocessing;
    output = e.prepared;
  }

  abbrev pub with_preprocess_link : Executor P I O R → Link P P I → Executor P I O R
  with_preprocess_link e l = record e {
    entry = record e.entry { queue = l.input };
    preprocessing = l.worker;
    prepared = l.output;
  }

  -- `runBatchInference` goes on or leaves its loop.
  abbrev pub next_round : Bool → Collector P I O R
  next_round more = if more then resting else ended

  -- The first task of a batch that was not cancelled.
  abbrev pub first_member : Item P I → Result I → Collector P I O R
  first_member t (success x) = gathering (member_of t x ∷ [])
  first_member t (failure s) = failing true (with_value t (failure s) ∷ [])

  -- A further task that was not cancelled.
  abbrev pub further_member : List (Member P I) → Item P I → Result I → Collector P I O R
  further_member ms t (success x) = gathering (ms ++ member_of t x ∷ [])
  further_member ms t (failure s) = setting_aside ms (with_value t (failure s))

  -- The tests at the head of the loop of `runBatchInference`.
  unfoldable pub begin_batch : Flags → Item P I → Collector P I O R
  begin_batch f t =
      if is_cancelled f t.id
      then failing true (with_value t cancelled_result ∷ [])
      else first_member t t.value

  -- The tests in the loop of `collectBatch`.
  unfoldable pub weigh : Flags → List (Member P I) → Item P I → Collector P I O R
  weigh f ms t =
      if is_cancelled f t.id
      then setting_aside ms (with_value t cancelled_result)
      else further_member ms t t.value

  -- `pop`, at the head of the loop of `runBatchInference`.
  unfoldable pub take_first : List (Item P I) → Executor P I O R → Executor P I O R
  take_first [] e = if is_ended e.preprocessing then record e { collector = ended } else e
  take_first (t ∷ ts) e = record e { prepared = ts; collector = holding t }

  -- `popFor`, in the loop of `collectBatch`; it waits while the queue is open and empty.
  unfoldable pub take_next :
      List (Member P I) → List (Item P I) → Executor P I O R → Executor P I O R
  take_next ms [] e = if is_ended e.preprocessing then record e { collector = timed_out ms } else e
  take_next ms (t ∷ ts) e = record e { prepared = ts; collector = weighing ms t }

  abbrev pub gather : List (Member P I) → Executor P I O R → Executor P I O R
  gather ms e =
      if leb e.max_batch_size (length ms)
      then record e { collector = flushing true ms }
      else take_next ms e.prepared e

  -- `queueCompletion`, which waits while the dispatcher is full, and then the next state: a push that
  -- no push of the postprocessing thread overlaps. One that is overlapped may be `lose_batched`.
  abbrev pub dispatch : Item P R → Collector P I O R → Executor P I O R → Executor P I O R
  dispatch t next e =
      if ltb (length e.dispatched) e.entry.stage_capacity
      then record e { dispatched = e.dispatched ++ t ∷ []; collector = next }
      else e

  -- The push to the queue of the postprocessing thread.
  abbrev pub post : Item P R → Collector P I O R → Executor P I O R → Executor P I O R
  post t next e =
      if ltb (length e.postprocessed) e.entry.stage_capacity
      then record e { postprocessed = e.postprocessed ++ t ∷ []; collector = next }
      else e

  -- The head of the loop of `runPostprocess`.
  unfoldable pub take_posted : List (Item P R) → Executor P I O R → Executor P I O R
  take_posted [] e = if collector_ended e.collector then record e { finisher = over } else e
  take_posted (t ∷ ts) e = record e { postprocessed = ts; finisher = handing t }

  -- One step of `runPostprocess`. A push that overlaps one of the batch thread may be `lose_finished`.
  unfoldable pub move_finisher : Finisher P R → Executor P I O R → Executor P I O R
  move_finisher idle e = take_posted e.postprocessed e
  move_finisher (handing t) e =
      if ltb (length e.dispatched) e.entry.stage_capacity
      then record e { dispatched = e.dispatched ++ t ∷ []; finisher = idle }
      else e
  move_finisher over e = e

  abbrev pub is_dispatching : Collector P I O R → Bool
  is_dispatching (setting_aside ms t) = true
  is_dispatching (failing more (t ∷ ts)) = true
  is_dispatching _ = false

  abbrev pub replaced_batched : Collector P I O R → Executor P I O R → Executor P I O R
  replaced_batched (setting_aside ms t) e = record e {
    lost = e.lost ++ t ∷ [];
    overlapped = true;
    collector = gathering ms;
  }
  replaced_batched (failing more (t ∷ ts)) e = record e {
    lost = e.lost ++ t ∷ [];
    overlapped = true;
    collector = failing more ts;
  }
  replaced_batched _ e = e

  -- The dispatcher's queue is for one producer, and both threads push to it: when they do so at once,
  -- one value can replace the other. Then the position of the next push can be wrong too, so that
  -- later values can be lost as well.
  unfoldable pub lose_batched : Executor P I O R → Executor P I O R
  lose_batched e =
      if is_handing e.finisher || e.overlapped then replaced_batched e.collector e else e

  abbrev pub replaced_finished : Finisher P R → Executor P I O R → Executor P I O R
  replaced_finished (handing t) e = record e {
    lost = e.lost ++ t ∷ [];
    overlapped = true;
    finisher = idle;
  }
  replaced_finished _ e = e

  unfoldable pub lose_finished : Executor P I O R → Executor P I O R
  lose_finished e =
      if is_dispatching e.collector || e.overlapped then replaced_finished e.finisher e else e

  -- The deadline of `collectBatch` has passed.
  unfoldable pub pass_deadline : Collector P I O R → Executor P I O R → Executor P I O R
  pass_deadline (gathering ms) e = record e { collector = flushing true ms }
  pass_deadline _ e = e

  abbrev pub time_out_on : List (Member P I) → List (Item P I) → Executor P I O R → Executor P I O R
  time_out_on ms [] e = record e { collector = timed_out ms }
  time_out_on ms (t ∷ ts) e = e

  -- A `popFor` that gives up has found the queue empty.
  unfoldable pub time_out : Collector P I O R → Executor P I O R → Executor P I O R
  time_out (gathering ms) e =
      if leb e.max_batch_size (length ms) then e else time_out_on ms e.prepared e
  time_out _ e = e

  -- One round of `CompletionDispatcher::run`, which completes the task.
  unfoldable pub deliver : List (Item P R) → Executor P I O R → Executor P I O R
  deliver [] e = e
  deliver (t ∷ rest) e = record e { dispatched = rest; completed = e.completed ++ t ∷ [] }

  -- The end of `flushBatch`: the outputs of a batch, or its failure.
  unfoldable pub give_outputs :
      Bool → List (Member P I) → Option (List (Member P O)) → Executor P I O R → Executor P I O R
  give_outputs more ms none e = record e { crashed = true; collector = ended }
  give_outputs more ms (some os) e = record e { collector = posting more os }

  unfoldable pub end_batch :
      Bool → List (Member P I) → Result (List O) → Executor P I O R → Executor P I O R
  unfolding give_outputs assign
  end_batch more ms (success os) e = give_outputs more ms (assign ms os) e
  end_batch more ms (failure s) e = record e {
    collector = failing more (map (λ m. completion_of m (failure s)) ms);
  }

module _ {P I O R : Type 0} (s : BatchStages P I O R) where
  -- `callPreprocess`, `callInferBatch` and `callPostprocess`.
  unfoldable pub call_preprocess : P → Result I
  unfolding stage_result
  call_preprocess p = stage_result "preprocess" (s.preprocess p)

  unfoldable pub call_infer_batch : List I → Result (List O)
  unfolding stage_result
  call_infer_batch is = stage_result "inference" (s.infer_batch is)

  unfoldable pub call_postprocess : O → Result R
  unfolding stage_result
  call_postprocess o = stage_result "postprocess" (s.postprocess o)

  -- `flushBatch` up to the inference and its answer.
  unfoldable pub flush_batch : Bool → List (Member P I) → Executor P I O R → Executor P I O R
  unfolding call_infer_batch end_batch
  flush_batch more [] e = record e { collector = next_round more }
  flush_batch more (m ∷ ms) e = end_batch more (m ∷ ms) (call_infer_batch (inputs_of (m ∷ ms))) e

  -- One step of `runBatchInference`.
  unfoldable pub move_collector : Collector P I O R → Executor P I O R → Executor P I O R
  unfolding begin_batch weigh take_first take_next flush_batch call_postprocess
  move_collector resting e = take_first e.prepared e
  move_collector ended e = e
  move_collector (holding t) e = record e { collector = begin_batch e.entry.flags t }
  move_collector (gathering ms) e = gather ms e
  move_collector (timed_out ms) e = record e {
    collector = flushing (not (is_ended e.preprocessing)) ms;
  }
  move_collector (weighing ms t) e = record e { collector = weigh e.entry.flags ms t }
  move_collector (setting_aside ms t) e = dispatch t (gathering ms) e
  move_collector (flushing more ms) e = flush_batch more ms e
  move_collector (failing more []) e = record e { collector = next_round more }
  move_collector (failing more (t ∷ ts)) e = dispatch t (failing more ts) e
  move_collector (posting more []) e = record e { collector = next_round more }
  move_collector (posting more (m ∷ ms)) e =
      post (completion_of m (call_postprocess m.input)) (posting more ms) e

  -- One step of `runPreprocess`.
  unfoldable pub move_preprocess : Executor P I O R → Executor P I O R
  unfolding move_link call_preprocess
  move_preprocess e = with_preprocess_link e (
      move_link e.entry.stop_requested e.entry.stage_capacity e.entry.flags call_preprocess
        e.preprocessing (preprocess_link e))

  unfoldable pub step : Event P → Executor P I O R → Executor P I O R
  unfolding submit request_stop cancel_entry move_preprocess move_collector pass_deadline time_out
      move_finisher deliver lose_batched lose_finished
  step (submits p) e = record e { entry = after_submit e.entry (submit p e.entry) }
  step (stops m) e = request_stop m e
  step (cancels i) e = record e { entry = cancel_entry (ids e.completed) i e.entry }
  step preprocesses e = move_preprocess e
  step batches e = move_collector e.collector e
  step deadlines e = pass_deadline e.collector e
  step times_out e = time_out e.collector e
  step finishes e = move_finisher e.finisher e
  step delivers e = deliver e.dispatched e
  step loses_batched e = lose_batched e
  step loses_finished e = lose_finished e

  unfoldable pub play : List (Event P) → Executor P I O R → Executor P I O R
  unfolding step
  play [] e = e
  play (v ∷ vs) e = play vs (step v e)
