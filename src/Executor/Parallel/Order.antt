-- ===== src/Executor/Parallel/Order.antt =====
-- Where each task of Runtime/include/executor/parallelPipelineExecutor.hpp is.
use mathlib.Core.List.{append_assoc, map-append, append-nil}
use vision_runtime.Prelude.{
  ℕ, ◌+◌, ◌^◌, ◌≤◌, ◌<◌, Bool, ◌≡◌, refl, ap, ◌∙◌, sym, List, [], ◌∷◌, ◌++◌, length, length-append,
  arith, inl, inr,
}
use vision_runtime.Executor.Serial.{QueueFullPolicy, StopMode}
use vision_runtime.Executor.Staged.{
  is_ended, Item, after_submit, cancel_entry, enqueue, new_item, move_link, ids,
}
use vision_runtime.Executor.Staged.Tasks.{
  Task, number, number-snoc, tasks, worker_tasks, link_tasks, move_link-tasks, move_link-room,
  accepted_packet, submit_cases, stop_entry-queue, stop_entry-keeps, cancel_entry-keeps,
}
use vision_runtime.Executor.Parallel.{
  Stages, Executor, Event, submits, stops, cancels, preprocesses, infers, postprocesses, delivers,
  create, submit, request_stop, move_preprocess, move_inference, move_postprocess, deliver, step,
  play, preprocess_link, inference_link, postprocess_link, call_preprocess, call_inference,
  call_postprocess,
}

module _ {P I O R : Type 0} where
  -- The packet that an event gets accepted.
  unfoldable pub accepts : Event P → Executor P I O R → List P
  unfolding submit
  accepts (submits p) e = accepted_packet p (submit p e.entry)
  accepts _ e = []

  -- Every task in the executor's hands, those furthest along first.
  abbrev pub all_tasks : Executor P I O R → List (Task P)
  all_tasks e =
      tasks e.completed
      ++ (link_tasks (postprocess_link e)
          ++ (worker_tasks e.inference ++ link_tasks (preprocess_link e)))

  pub record IsOrdered (e : Executor P I O R) (ps : List P) : Type 0 where
    pub numbered : all_tasks e ≡ number 1 ps
    pub next : e.entry.next_id ≡ length ps + 1
    pub bounded : length e.entry.queue ≤ e.entry.queue_capacity
    pub prepared_bounded : length e.prepared ≤ e.entry.stage_capacity
    pub inferred_bounded : length e.inferred ≤ e.entry.stage_capacity
    pub dispatched_bounded : length e.dispatched ≤ e.entry.stage_capacity

  pub create-IsOrdered :
      (has_pipeline : Bool) (capacity stage_capacity : ℕ) (policy : QueueFullPolicy)
      → IsOrdered (create has_pipeline capacity stage_capacity policy) []
  unfolding create number
  create-IsOrdered has_pipeline capacity stage_capacity policy = record {
    numbered = refl;
    next = refl;
    bounded = omega arith;
    prepared_bounded = omega arith;
    inferred_bounded = omega arith;
    dispatched_bounded = omega arith;
  }

  enqueued-IsOrdered :
      (p : P) (e : Executor P I O R) (ps : List P)
      → length e.entry.queue < e.entry.queue_capacity
      → length ps + 2 < 2 ^ 64
      → IsOrdered e ps
      → IsOrdered (record e { entry = enqueue p e.entry }) (ps ++ p ∷ [])
  enqueued-IsOrdered p e ps room l o = record {
    numbered =
        simp (map-append, append_assoc) refl
        ∙ ap (λ x. x ++ (e.entry.next_id, p) ∷ []) o.numbered
        ∙ ap (λ i. number 1 ps ++ (i, p) ∷ []) (omega (arith, o.next))
        ∙ sym (number-snoc 1 ps p);
    next = omega (arith, o.next, length-append ps (p ∷ []));
    bounded = omega (arith, length-append e.entry.queue (new_item e.entry.next_id p ∷ []));
    prepared_bounded = o.prepared_bounded;
    inferred_bounded = o.inferred_bounded;
    dispatched_bounded = o.dispatched_bounded;
  }

  submit-IsOrdered :
      (p : P) (e : Executor P I O R) (ps : List P)
      → length ps + 2 < 2 ^ 64
      → IsOrdered e ps
      → IsOrdered
          (record e { entry = after_submit e.entry (submit p e.entry) })
          (ps ++ accepted_packet p (submit p e.entry))
  unfolding submit
  submit-IsOrdered p e ps l o =
      elim (submit_cases "parallel executor requires a staged pipeline" p e.entry) [
        | inl (same, nothing) ↦ rw (same, nothing, append-nil ps) o
        | inr (room, added, taken, takes) ↦ rw (added, taken) (enqueued-IsOrdered p e ps room l o)
      ]

  pub stop-IsOrdered :
      (m : StopMode) (e : Executor P I O R) (ps : List P)
      → IsOrdered e ps
      → IsOrdered (request_stop m e) ps
  unfolding request_stop
  stop-IsOrdered m e ps o =
      let (next, capacity, stage) = stop_entry-keeps m e.entry in
      record {
        numbered = rw (stop_entry-queue m e.entry) o.numbered;
        next = rw next o.next;
        bounded = rw (stop_entry-queue m e.entry, capacity) o.bounded;
        prepared_bounded = rw stage o.prepared_bounded;
        inferred_bounded = rw stage o.inferred_bounded;
        dispatched_bounded = rw stage o.dispatched_bounded;
      }

  cancel-IsOrdered :
      (done : List ℕ) (i : ℕ) (e : Executor P I O R) (ps : List P)
      → IsOrdered e ps
      → IsOrdered (record e { entry = cancel_entry done i e.entry }) ps
  cancel-IsOrdered done i e ps o =
      let (f, only) = cancel_entry-keeps done i e.entry in
      rw only (record {
        numbered = o.numbered;
        next = o.next;
        bounded = o.bounded;
        prepared_bounded = o.prepared_bounded;
        inferred_bounded = o.inferred_bounded;
        dispatched_bounded = o.dispatched_bounded;
      })

  pub deliver-IsOrdered :
      (d : List (Item P R)) (e : Executor P I O R) (ps : List P)
      → e.dispatched ≡ d
      → IsOrdered e ps
      → IsOrdered (deliver d e) ps
  unfolding deliver
  deliver-IsOrdered [] e ps q o = o
  deliver-IsOrdered (t ∷ rest) e ps q o = record {
    numbered = rw (map-append, append_assoc) (rw q at o.numbered);
    next = o.next;
    bounded = o.bounded;
    prepared_bounded = o.prepared_bounded;
    inferred_bounded = o.inferred_bounded;
    dispatched_bounded = omega (arith, o.dispatched_bounded, ap length q);
  }

-- The tasks of the inference thread side by side.
regroup :
    {A : Type 0} (c d w i v p r : List A)
    → c ++ ((d ++ (w ++ i)) ++ (v ++ (p ++ r))) ≡ (c ++ (d ++ w)) ++ ((i ++ (v ++ p)) ++ r)
regroup c d w i v p r = simp append_assoc refl

module _ {P I O R : Type 0} (s : Stages P I O R) where
  pub preprocess-IsOrdered :
      (e : Executor P I O R) (ps : List P) → IsOrdered e ps → IsOrdered (move_preprocess s e) ps
  unfolding move_preprocess
  preprocess-IsOrdered e ps o =
      let moved =
        move_link-tasks e.entry.stop_requested e.entry.stage_capacity e.entry.flags
          (call_preprocess s) e.preprocessing (preprocess_link e) refl in
      let (input, output) =
        move_link-room e.entry.stop_requested e.entry.stage_capacity e.entry.flags
          (call_preprocess s) e.preprocessing (preprocess_link e) o.prepared_bounded in
      record {
        numbered =
            ap
              (λ x.
                tasks e.completed
                ++ (link_tasks (postprocess_link e) ++ (worker_tasks e.inference ++ x)))
              moved
            ∙ o.numbered;
        next = o.next;
        bounded = omega (arith, input, o.bounded);
        prepared_bounded = output;
        inferred_bounded = o.inferred_bounded;
        dispatched_bounded = o.dispatched_bounded;
      }

  pub inference-IsOrdered :
      (e : Executor P I O R) (ps : List P) → IsOrdered e ps → IsOrdered (move_inference s e) ps
  unfolding move_inference
  inference-IsOrdered e ps o =
      let l =
        move_link (is_ended e.preprocessing) e.entry.stage_capacity e.entry.flags (call_inference s)
          e.inference (inference_link e) in
      let moved =
        move_link-tasks (is_ended e.preprocessing) e.entry.stage_capacity e.entry.flags
          (call_inference s) e.inference (inference_link e) refl in
      let (input, output) =
        move_link-room (is_ended e.preprocessing) e.entry.stage_capacity e.entry.flags
          (call_inference s) e.inference (inference_link e) o.inferred_bounded in
      let before = tasks e.completed ++ (tasks e.dispatched ++ worker_tasks e.postprocessing) in
      let behind = worker_tasks e.preprocessing ++ tasks e.entry.queue in
      record {
        numbered =
            regroup (tasks e.completed) (tasks e.dispatched) (worker_tasks e.postprocessing)
              (tasks l.output) (worker_tasks l.worker) (tasks l.input) behind
            ∙ ap (λ x. before ++ (x ++ behind)) moved
            ∙ sym (
                regroup (tasks e.completed) (tasks e.dispatched) (worker_tasks e.postprocessing)
                  (tasks e.inferred) (worker_tasks e.inference) (tasks e.prepared) behind)
            ∙ o.numbered;
        next = o.next;
        bounded = o.bounded;
        prepared_bounded = omega (arith, input, o.prepared_bounded);
        inferred_bounded = output;
        dispatched_bounded = o.dispatched_bounded;
      }

  pub postprocess-IsOrdered :
      (e : Executor P I O R) (ps : List P) → IsOrdered e ps → IsOrdered (move_postprocess s e) ps
  unfolding move_postprocess
  postprocess-IsOrdered e ps o =
      let moved =
        move_link-tasks (is_ended e.inference) e.entry.stage_capacity e.entry.flags
          (call_postprocess s) e.postprocessing (postprocess_link e) refl in
      let (input, output) =
        move_link-room (is_ended e.inference) e.entry.stage_capacity e.entry.flags
          (call_postprocess s) e.postprocessing (postprocess_link e) o.dispatched_bounded in
      record {
        numbered =
            ap
              (λ x.
                tasks e.completed
                ++ (x ++ (worker_tasks e.inference ++ link_tasks (preprocess_link e))))
              moved
            ∙ o.numbered;
        next = o.next;
        bounded = o.bounded;
        prepared_bounded = o.prepared_bounded;
        inferred_bounded = omega (arith, input, o.inferred_bounded);
        dispatched_bounded = output;
      }

  step-IsOrdered :
      (v : Event P) (e : Executor P I O R) (ps : List P)
      → length ps + 2 < 2 ^ 64
      → IsOrdered e ps
      → IsOrdered (step s v e) (ps ++ accepts v e)
  unfolding step accepts
  step-IsOrdered (submits p) e ps l o = submit-IsOrdered p e ps l o
  step-IsOrdered (stops m) e ps l o = rw (append-nil ps) (stop-IsOrdered m e ps o)
  step-IsOrdered (cancels i) e ps l o =
      rw (append-nil ps) (cancel-IsOrdered (ids e.completed) i e ps o)
  step-IsOrdered preprocesses e ps l o = rw (append-nil ps) (preprocess-IsOrdered e ps o)
  step-IsOrdered infers e ps l o = rw (append-nil ps) (inference-IsOrdered e ps o)
  step-IsOrdered postprocesses e ps l o = rw (append-nil ps) (postprocess-IsOrdered e ps o)
  step-IsOrdered delivers e ps l o = rw (append-nil ps) (deliver-IsOrdered e.dispatched e ps refl o)

  -- The packets accepted in the course of events, oldest first.
  unfoldable pub accepted_packets : List (Event P) → Executor P I O R → List P
  unfolding accepts
  accepted_packets [] e = []
  accepted_packets (v ∷ vs) e = accepts v e ++ accepted_packets vs (step s v e)

  accepts-length : (v : Event P) (e : Executor P I O R) → length (accepts v e) ≤ 1
  unfolding accepts
  accepts-length v e = ground arith

  pub play-IsOrdered :
      (vs : List (Event P)) (e : Executor P I O R) (ps : List P)
      → length ps + length vs + 1 < 2 ^ 64
      → IsOrdered e ps
      → IsOrdered (play s vs e) (ps ++ accepted_packets vs e)
  unfolding play accepted_packets
  play-IsOrdered [] e ps l o = rw (append-nil ps) o
  play-IsOrdered (v ∷ vs) e ps l o =
      let few : length (ps ++ accepts v e) ≤ length ps + 1 =
        omega (arith, length-append ps (accepts v e), accepts-length v e) in
      rw (← append_assoc ps (accepts v e) (accepted_packets vs (step s v e))) (
        play-IsOrdered vs (step s v e) (ps ++ accepts v e) (omega arith)
          (step-IsOrdered v e ps (omega arith) o))

  -- Whatever the order in which clients and the four threads take turns (fewer than 2^64 - 1 of
  -- them), the tasks delivered, waiting for delivery, in the hands of a thread and in the three
  -- queues, those furthest along first, are the packets accepted so far, in the order of their
  -- submission and numbered from 1: no task is lost, run twice or overtaken by another one. The entry
  -- queue stays within the queue capacity and the queues between the threads within the stage's.
  pub pipeline_keeps_order :
      (has_pipeline : Bool) (capacity stage_capacity : ℕ) (policy : QueueFullPolicy)
      (vs : List (Event P))
      → length vs + 1 < 2 ^ 64
      → let first = create has_pipeline capacity stage_capacity policy in
        let e = play s vs first in
        (all_tasks e ≡ number 1 (accepted_packets vs first))
        × (e.entry.next_id ≡ length (accepted_packets vs first) + 1)
        × (length e.entry.queue ≤ e.entry.queue_capacity)
        × (length e.prepared ≤ e.entry.stage_capacity)
        × (length e.inferred ≤ e.entry.stage_capacity)
        × (length e.dispatched ≤ e.entry.stage_capacity)
  pipeline_keeps_order has_pipeline capacity stage_capacity policy vs l =
      let o =
        play-IsOrdered vs (create has_pipeline capacity stage_capacity policy) [] (omega arith)
          (create-IsOrdered has_pipeline capacity stage_capacity policy) in
      (o.numbered, o.next, o.bounded, o.prepared_bounded, o.inferred_bounded, o.dispatched_bounded)
