-- ===== src/Executor/Parallel/Results.antt =====
-- What Runtime/include/executor/parallelPipelineExecutor.hpp completes its tasks with.
use vision_runtime.Prelude.{ℕ, Bool, ◌≡◌, refl, List, [], ◌∷◌, inl, inr}
use vision_runtime.Core.Status.{Result, success}
use vision_runtime.Executor.Serial.{QueueFullPolicy, StopMode}
use vision_runtime.Executor.Staged.{
  is_ended, Item, Entry, after_submit, stop_entry, cancel_entry, enqueue, new_item, ids,
}
use vision_runtime.Executor.Staged.Tasks.{submit_cases}
use vision_runtime.Executor.Staged.Right.{
  Keeps, AllStand, AllStand-keep, AllStand-snoc, WorkerStands, WorkerStands-keep, through,
  move_link-LinkStands, stop_entry-Keeps, cancel_entry-Keeps,
}
use vision_runtime.Executor.Staged.Tasks.{stop_entry-queue, cancel_entry-keeps}
use vision_runtime.Executor.Parallel.{
  Stages, Executor, Event, submits, stops, cancels, preprocesses, infers, postprocesses, delivers,
  create, submit, request_stop, move_preprocess, move_inference, move_postprocess, deliver, step,
  play, preprocess_link, inference_link, postprocess_link, call_preprocess, call_inference,
  call_postprocess,
}

module _ {P I O R : Type 0} (s : Stages P I O R) where
  abbrev pub after_preprocess : P → Result I
  after_preprocess = through success (call_preprocess s)

  abbrev pub after_inference : P → Result O
  after_inference = through after_preprocess (call_inference s)

  -- What the pipeline makes of a packet, stage by stage.
  abbrev pub outcome_of : P → Result R
  outcome_of = through after_inference (call_postprocess s)

  pub record IsRight (e : Executor P I O R) : Type 0 where
    pub queued : AllStand e.entry.flags success e.entry.queue
    pub at_preprocess : WorkerStands e.entry.flags success after_preprocess e.preprocessing
    pub between : AllStand e.entry.flags after_preprocess e.prepared
    pub at_inference : WorkerStands e.entry.flags after_preprocess after_inference e.inference
    pub behind : AllStand e.entry.flags after_inference e.inferred
    pub at_postprocess : WorkerStands e.entry.flags after_inference outcome_of e.postprocessing
    pub waiting : AllStand e.entry.flags outcome_of e.dispatched
    pub done : AllStand e.entry.flags outcome_of e.completed

  pub create-IsRight :
      (has_pipeline : Bool) (capacity stage_capacity : ℕ) (policy : QueueFullPolicy)
      → IsRight (create has_pipeline capacity stage_capacity policy)
  unfolding create
  create-IsRight has_pipeline capacity stage_capacity policy = record {
    queued = tt;
    at_preprocess = tt;
    between = tt;
    at_inference = tt;
    behind = tt;
    at_postprocess = tt;
    waiting = tt;
    done = tt;
  }

  -- Another entry, with more flags set and a queue that is right.
  entry-IsRight :
      (e : Executor P I O R) (n : Entry P)
      → Keeps e.entry.flags n.flags
      → AllStand n.flags success n.queue
      → IsRight e
      → IsRight (record e { entry = n })
  entry-IsRight e n k a r = record {
    queued = a;
    at_preprocess =
        WorkerStands-keep e.entry.flags n.flags success after_preprocess e.preprocessing k
          r.at_preprocess;
    between = AllStand-keep e.entry.flags n.flags after_preprocess e.prepared k r.between;
    at_inference =
        WorkerStands-keep e.entry.flags n.flags after_preprocess after_inference e.inference k
          r.at_inference;
    behind = AllStand-keep e.entry.flags n.flags after_inference e.inferred k r.behind;
    at_postprocess =
        WorkerStands-keep e.entry.flags n.flags after_inference outcome_of e.postprocessing k
          r.at_postprocess;
    waiting = AllStand-keep e.entry.flags n.flags outcome_of e.dispatched k r.waiting;
    done = AllStand-keep e.entry.flags n.flags outcome_of e.completed k r.done;
  }

  submit-IsRight :
      (p : P) (e : Executor P I O R)
      → IsRight e
      → IsRight (record e { entry = after_submit e.entry (submit p e.entry) })
  unfolding submit
  submit-IsRight p e r =
      elim (submit_cases "parallel executor requires a staged pipeline" p e.entry) [
        | inl (same, nothing) ↦ rw same r
        | inr (room, added, taken, takes) ↦ rw added (
            entry-IsRight e (enqueue p e.entry) (λ i c. c)
              (AllStand-snoc e.entry.flags success e.entry.queue (new_item e.entry.next_id p)
                r.queued (inl refl))
              r)
      ]

  pub stop-IsRight : (m : StopMode) (e : Executor P I O R) → IsRight e → IsRight (request_stop m e)
  unfolding request_stop
  stop-IsRight m e r =
      entry-IsRight e (stop_entry m e.entry) (stop_entry-Keeps m e.entry)
        (rw (stop_entry-queue m e.entry) (
          AllStand-keep e.entry.flags (stop_entry m e.entry).flags success e.entry.queue
            (stop_entry-Keeps m e.entry) r.queued))
        r

  cancel_entry-queue : (d : List ℕ) (i : ℕ) (n : Entry P) → (cancel_entry d i n).queue ≡ n.queue
  cancel_entry-queue d i n = let (f, only) = cancel_entry-keeps d i n in rw only refl

  cancel-IsRight :
      (d : List ℕ) (i : ℕ) (e : Executor P I O R)
      → IsRight e
      → IsRight (record e { entry = cancel_entry d i e.entry })
  cancel-IsRight d i e r =
      entry-IsRight e (cancel_entry d i e.entry) (cancel_entry-Keeps d i e.entry)
        (rw (cancel_entry-queue d i e.entry) (
          AllStand-keep e.entry.flags (cancel_entry d i e.entry).flags success e.entry.queue
            (cancel_entry-Keeps d i e.entry) r.queued))
        r

  pub deliver-IsRight :
      (d : List (Item P R)) (e : Executor P I O R)
      → e.dispatched ≡ d
      → IsRight e
      → IsRight (deliver d e)
  unfolding deliver
  deliver-IsRight [] e q r = r
  deliver-IsRight (t ∷ rest) e q r =
      let (first, others) : AllStand e.entry.flags outcome_of (t ∷ rest) = rw q at r.waiting in
      record {
        queued = r.queued;
        at_preprocess = r.at_preprocess;
        between = r.between;
        at_inference = r.at_inference;
        behind = r.behind;
        at_postprocess = r.at_postprocess;
        waiting = others;
        done = AllStand-snoc e.entry.flags outcome_of e.completed t r.done first;
      }

  pub preprocess-IsRight : (e : Executor P I O R) → IsRight e → IsRight (move_preprocess s e)
  unfolding move_preprocess
  preprocess-IsRight e r =
      let l =
        move_link-LinkStands e.entry.flags success (call_preprocess s) e.entry.stop_requested
          e.entry.stage_capacity e.preprocessing (preprocess_link e) refl
          (record { entering = r.queued; working = r.at_preprocess; leaving = r.between }) in
      record {
        queued = l.entering;
        at_preprocess = l.working;
        between = l.leaving;
        at_inference = r.at_inference;
        behind = r.behind;
        at_postprocess = r.at_postprocess;
        waiting = r.waiting;
        done = r.done;
      }

  pub inference-IsRight : (e : Executor P I O R) → IsRight e → IsRight (move_inference s e)
  unfolding move_inference
  inference-IsRight e r =
      let l =
        move_link-LinkStands e.entry.flags after_preprocess (call_inference s)
          (is_ended e.preprocessing) e.entry.stage_capacity e.inference (inference_link e) refl
          (record { entering = r.between; working = r.at_inference; leaving = r.behind }) in
      record {
        queued = r.queued;
        at_preprocess = r.at_preprocess;
        between = l.entering;
        at_inference = l.working;
        behind = l.leaving;
        at_postprocess = r.at_postprocess;
        waiting = r.waiting;
        done = r.done;
      }

  pub postprocess-IsRight : (e : Executor P I O R) → IsRight e → IsRight (move_postprocess s e)
  unfolding move_postprocess
  postprocess-IsRight e r =
      let l =
        move_link-LinkStands e.entry.flags after_inference (call_postprocess s)
          (is_ended e.inference) e.entry.stage_capacity e.postprocessing (postprocess_link e) refl
          (record { entering = r.behind; working = r.at_postprocess; leaving = r.waiting }) in
      record {
        queued = r.queued;
        at_preprocess = r.at_preprocess;
        between = r.between;
        at_inference = r.at_inference;
        behind = l.entering;
        at_postprocess = l.working;
        waiting = l.leaving;
        done = r.done;
      }

  step-IsRight : (v : Event P) (e : Executor P I O R) → IsRight e → IsRight (step s v e)
  unfolding step
  step-IsRight (submits p) e r = submit-IsRight p e r
  step-IsRight (stops m) e r = stop-IsRight m e r
  step-IsRight (cancels i) e r = cancel-IsRight (ids e.completed) i e r
  step-IsRight preprocesses e r = preprocess-IsRight e r
  step-IsRight infers e r = inference-IsRight e r
  step-IsRight postprocesses e r = postprocess-IsRight e r
  step-IsRight delivers e r = deliver-IsRight e.dispatched e refl r

  pub play-IsRight :
      (vs : List (Event P)) (e : Executor P I O R) → IsRight e → IsRight (play s vs e)
  unfolding play
  play-IsRight [] e r = r
  play-IsRight (v ∷ vs) e r = play-IsRight vs (step s v e) (step-IsRight v e r)

  -- Whatever the order of the turns, every completed task has the result of the three stages on its
  -- packet, one after the other, up to the first that fails or throws; or it was cancelled, by its
  -- handle or by an immediate stop, and has the cancelled result.
  pub completed_right :
      (has_pipeline : Bool) (capacity stage_capacity : ℕ) (policy : QueueFullPolicy)
      (vs : List (Event P))
      → let e = play s vs (create has_pipeline capacity stage_capacity policy) in
        AllStand e.entry.flags outcome_of e.completed
  completed_right has_pipeline capacity stage_capacity policy vs =
      (play-IsRight vs (create has_pipeline capacity stage_capacity policy)
        (create-IsRight has_pipeline capacity stage_capacity policy)).done
