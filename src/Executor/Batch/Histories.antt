-- ===== src/Executor/Batch/Histories.antt =====
-- Histories of Runtime/include/executor/batchPipelineExecutor.hpp: the results of the completed tasks.
use vision_runtime.Prelude.{ℕ, Bool, ◌≡◌, refl, List, [], ◌∷◌, inl, inr}
use vision_runtime.Core.Status.{success}
use vision_runtime.Executor.Serial.{QueueFullPolicy, StopMode}
use vision_runtime.Executor.Staged.{
  Flags, Entry, after_submit, stop_entry, cancel_entry, enqueue, new_item, ids,
}
use vision_runtime.Executor.Staged.Tasks.{submit_cases, stop_entry-queue, cancel_entry-keeps}
use vision_runtime.Executor.Staged.Right.{
  Keeps, AllStand, Stands-keep, AllStand-keep, AllStand-snoc, WorkerStands-keep,
  move_link-LinkStands, stop_entry-Keeps, cancel_entry-Keeps,
}
use vision_runtime.Executor.Batch.{
  BatchStages, Collector, resting, ended, holding, gathering, timed_out, weighing, setting_aside,
  flushing, failing, posting, Finisher, idle, over, handing, Executor, Event, submits, stops,
  cancels, preprocesses, batches, deadlines, times_out, finishes, delivers, loses_batched,
  loses_finished, create, submit, request_stop, move_preprocess, preprocess_link, call_preprocess,
  step, play,
}
use vision_runtime.Executor.Batch.Results.{
  after_preprocess, AllAnswered, Answered-keep, AllAnswered-keep,
}
use vision_runtime.Executor.Batch.Serving.{
  move_collector-IsRight, pass_deadline-IsRight, time_out-IsRight, deliver-IsRight, finish-IsRight,
  lose_batched-IsRight, lose_finished-IsRight, CollectorRight, FinisherRight, IsRight,
}

module _ {P I O R : Type 0} (s : BatchStages P I O R) where
  -- More flags set change nothing for the threads' tasks.
  CollectorRight-keep :
      (f g : Flags) (c : Collector P I O R)
      → Keeps f g
      → CollectorRight s f c
      → CollectorRight s g c
  unfolding CollectorRight
  CollectorRight-keep f g resting k d = tt
  CollectorRight-keep f g ended k d = tt
  CollectorRight-keep f g (holding t) k d = Stands-keep f g (after_preprocess s) t k d
  CollectorRight-keep f g (gathering ms) k d = d
  CollectorRight-keep f g (timed_out ms) k d = d
  CollectorRight-keep f g (weighing ms t) k d = (d.0, Stands-keep f g (after_preprocess s) t k d.1)
  CollectorRight-keep f g (setting_aside ms t) k d = (d.0, Answered-keep s f g t k d.1)
  CollectorRight-keep f g (flushing more ms) k d = d
  CollectorRight-keep f g (failing more ts) k d = AllAnswered-keep s f g ts k d
  CollectorRight-keep f g (posting more ms) k d = d

  FinisherRight-keep :
      (f g : Flags) (w : Finisher P R) → Keeps f g → FinisherRight s f w → FinisherRight s g w
  unfolding FinisherRight
  FinisherRight-keep f g idle k d = tt
  FinisherRight-keep f g over k d = tt
  FinisherRight-keep f g (handing t) k d = Answered-keep s f g t k d

  entry-IsRight :
      (e : Executor P I O R) (n : Entry P)
      → Keeps e.entry.flags n.flags
      → AllStand n.flags success n.queue
      → IsRight s e
      → IsRight s (record e { entry = n })
  entry-IsRight e n k a r = record {
    queued = a;
    at_preprocess =
        WorkerStands-keep e.entry.flags n.flags success (after_preprocess s) e.preprocessing k
          r.at_preprocess;
    between = AllStand-keep e.entry.flags n.flags (after_preprocess s) e.prepared k r.between;
    collecting = CollectorRight-keep e.entry.flags n.flags e.collector k r.collecting;
    posted = AllAnswered-keep s e.entry.flags n.flags e.postprocessed k r.posted;
    finishing = FinisherRight-keep e.entry.flags n.flags e.finisher k r.finishing;
    waiting = AllAnswered-keep s e.entry.flags n.flags e.dispatched k r.waiting;
    done = AllAnswered-keep s e.entry.flags n.flags e.completed k r.done;
  }

  submit-IsRight :
      (p : P) (e : Executor P I O R)
      → IsRight s e
      → IsRight s (record e { entry = after_submit e.entry (submit p e.entry) })
  unfolding submit
  submit-IsRight p e r = elim (submit_cases "batch executor requires a staged pipeline" p e.entry) [
    | inl (same, nothing) ↦ rw same r
    | inr (room, added, taken, takes) ↦ rw added (
        entry-IsRight e (enqueue p e.entry) (λ i c. c)
          (AllStand-snoc e.entry.flags success e.entry.queue (new_item e.entry.next_id p) r.queued
            (inl refl))
          r)
  ]

  stop-IsRight : (m : StopMode) (e : Executor P I O R) → IsRight s e → IsRight s (request_stop m e)
  unfolding request_stop
  stop-IsRight m e r =
      entry-IsRight e (stop_entry m e.entry) (stop_entry-Keeps m e.entry)
        (rw (stop_entry-queue m e.entry) (
          AllStand-keep e.entry.flags (stop_entry m e.entry).flags success e.entry.queue
            (stop_entry-Keeps m e.entry) r.queued))
        r

  cancel_entry-queue : (d : List ℕ) (i : ℕ) (n : Entry P) → (cancel_entry d i n).queue ≡ n.queue
  cancel_entry-queue d i n = let (f, only) = cancel_entry-keeps d i n in rw only refl

  cancel-IsRight :
      (d : List ℕ) (i : ℕ) (e : Executor P I O R)
      → IsRight s e
      → IsRight s (record e { entry = cancel_entry d i e.entry })
  cancel-IsRight d i e r =
      entry-IsRight e (cancel_entry d i e.entry) (cancel_entry-Keeps d i e.entry)
        (rw (cancel_entry-queue d i e.entry) (
          AllStand-keep e.entry.flags (cancel_entry d i e.entry).flags success e.entry.queue
            (cancel_entry-Keeps d i e.entry) r.queued))
        r

  preprocess-IsRight : (e : Executor P I O R) → IsRight s e → IsRight s (move_preprocess s e)
  unfolding move_preprocess
  preprocess-IsRight e r =
      let l =
        move_link-LinkStands e.entry.flags success (call_preprocess s) e.entry.stop_requested
          e.entry.stage_capacity e.preprocessing (preprocess_link e) refl
          (record { entering = r.queued; working = r.at_preprocess; leaving = r.between }) in
      record {
        queued = l.entering;
        at_preprocess = l.working;
        between = l.leaving;
        collecting = r.collecting;
        posted = r.posted;
        finishing = r.finishing;
        waiting = r.waiting;
        done = r.done;
      }

  step-IsRight : (v : Event P) (e : Executor P I O R) → IsRight s e → IsRight s (step s v e)
  unfolding step
  step-IsRight (submits p) e r = submit-IsRight p e r
  step-IsRight (stops m) e r = stop-IsRight m e r
  step-IsRight (cancels i) e r = cancel-IsRight (ids e.completed) i e r
  step-IsRight preprocesses e r = preprocess-IsRight e r
  step-IsRight batches e r = move_collector-IsRight s e.collector e refl r.collecting r
  step-IsRight deadlines e r = pass_deadline-IsRight s e.collector e r.collecting r
  step-IsRight times_out e r = time_out-IsRight s e.collector e r.collecting r
  step-IsRight finishes e r = finish-IsRight s e.finisher e r.finishing r
  step-IsRight delivers e r = deliver-IsRight s e.dispatched e refl r
  step-IsRight loses_batched e r = lose_batched-IsRight s e r
  step-IsRight loses_finished e r = lose_finished-IsRight s e r

  play-IsRight :
      (vs : List (Event P)) (e : Executor P I O R) → IsRight s e → IsRight s (play s vs e)
  unfolding play
  play-IsRight [] e r = r
  play-IsRight (v ∷ vs) e r = play-IsRight vs (step s v e) (step-IsRight v e r)

  create-IsRight :
      (max_batch_size : ℕ) (has_pipeline : Bool) (capacity stage_capacity : ℕ)
      (policy : QueueFullPolicy)
      → IsRight s (create max_batch_size has_pipeline capacity stage_capacity policy)
  unfolding create CollectorRight FinisherRight
  create-IsRight max_batch_size has_pipeline capacity stage_capacity policy = record {
    queued = tt;
    at_preprocess = tt;
    between = tt;
    collecting = tt;
    posted = tt;
    finishing = tt;
    waiting = tt;
    done = tt;
  }

  -- Whatever the order of the turns and the deadlines, every completed task was cancelled and has the
  -- cancelled result, or its preprocessing failed and it has this failure, or its prepared input stood
  -- at some place of a batch and it has the failure of this batch's inference or the postprocessed
  -- output of the same place.
  pub members_served_in_place :
      (max_batch_size : ℕ) (has_pipeline : Bool) (capacity stage_capacity : ℕ)
      (policy : QueueFullPolicy) (vs : List (Event P))
      → let e = play s vs (create max_batch_size has_pipeline capacity stage_capacity policy) in
        AllAnswered s e.entry.flags e.completed
  members_served_in_place max_batch_size has_pipeline capacity stage_capacity policy vs =
      (play-IsRight vs (create max_batch_size has_pipeline capacity stage_capacity policy)
        (create-IsRight max_batch_size has_pipeline capacity stage_capacity policy)).done
