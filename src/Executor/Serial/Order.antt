-- ===== src/Executor/Serial/Order.antt =====
-- The order of tasks in Runtime/include/executor/serialPipelineExecutor.hpp.
use mathlib.Core.List.{append_assoc, map-append}
use vision_runtime.Prelude.{
  ℕ, suc, ◌+◌, ◌^◌, ◌≤◌, ◌<◌, Bool, ltb, ◌≡◌, refl, ap, ◌∙◌, List, [], ◌∷◌, ◌++◌, length,
  length-append, arith, Bool-cases, inl, inr, ◌⊎◌,
}
use vision_runtime.Core.Status.{Result}
use vision_runtime.Executor.Serial.{
  QueueFullPolicy, StopMode, graceful, immediate, Outcome, Task, Runner, resting, releasing, ended,
  holding, executing, settling, RunningTask, delivering, Executor, Event, submits, stops, cancels,
  runs, delivers, create, submit, enqueue, flagged, flag_id, cancel_running, flag_runner,
  request_stop, cancel_task, take_task, move_runner, deliver, after_submit, step, play, new_task,
}
use vision_runtime.Executor.Serial.Ids.{
  range, range-snoc, task_ids, pair_ids, done_ids, runner_ids, flagged_ids, flag_id_ids, length-map,
}

module _ {P R : Type 0} where
  -- Every task in the executor's hands, those furthest along first.
  abbrev pub all_ids : Executor P R → List ℕ
  all_ids e =
      done_ids e.completed ++ (pair_ids e.dispatched ++ (runner_ids e.runner ++ task_ids e.queue))

  record IsOrdered (e : Executor P R) (k : ℕ) : Type 0 where
    numbered : all_ids e ≡ range 1 k
    next : e.next_id ≡ k + 1
    bounded : length e.queue ≤ e.queue_capacity
    buffered : length e.dispatched ≤ e.queue_capacity

  create-IsOrdered :
      (has_pipeline : Bool) (capacity : ℕ) (policy : QueueFullPolicy)
      → IsOrdered (create has_pipeline capacity policy) 0
  unfolding create
  create-IsOrdered has_pipeline capacity policy = ground arith

  -- A submission leaves the executor as it was, or finds room and appends its task.
  pub submit_cases :
      (p : P) (e : Executor P R)
      → (after_submit e (submit p e) ≡ e)
        ⊎ ((length e.queue < e.queue_capacity) × (after_submit e (submit p e) ≡ enqueue p e))
  unfolding submit
  submit_cases p e = ground arith

  enqueue-IsOrdered :
      (p : P) (e : Executor P R) (k : ℕ)
      → length e.queue < e.queue_capacity
      → k + 2 < 2 ^ 64
      → IsOrdered e k
      → IsOrdered (enqueue p e) (k + 1)
  enqueue-IsOrdered p e k room l o =
      let more : range 1 (k + 1) ≡ range 1 k ++ e.next_id ∷ [] =
        ap (range 1) {y = suc k} (omega arith)
        ∙ range-snoc 1 k
        ∙ ap (λ i. range 1 k ++ i ∷ []) (omega (arith, o.next)) in
      record {
        numbered = rw (more, ← o.numbered) (simp (map-append, append_assoc));
        next = omega (arith, o.next);
        bounded = omega (arith, length-append e.queue (new_task e.next_id p ∷ []));
        buffered = o.buffered;
      }

  submit-IsOrdered :
      (p : P) (e : Executor P R) (k : ℕ)
      → k + 2 < 2 ^ 64
      → IsOrdered e k
      → (k' : ℕ) × (k' ≤ k + 1) × IsOrdered (after_submit e (submit p e)) k'
  unfolding submit
  submit-IsOrdered p e k l o = elim (submit_cases p e) [
    | inl same ↦ (k, omega arith, rw same o)
    | inr (room, added) ↦ (k + 1, omega arith, rw added (enqueue-IsOrdered p e k room l o))
  ]

  cancel_running_ids :
      (p : RunningTask) (r : Runner P R) → runner_ids (cancel_running p r) ≡ runner_ids r
  cancel_running_ids p r = ground arith

  flag_runner_ids : (i : ℕ) (r : Runner P R) → runner_ids (flag_runner i r) ≡ runner_ids r
  flag_runner_ids i r = ground arith

  stop-IsOrdered :
      (m : StopMode) (e : Executor P R) (k : ℕ) → IsOrdered e k → IsOrdered (request_stop m e) k
  unfolding request_stop
  stop-IsOrdered graceful e k o = record {
    numbered = o.numbered;
    next = o.next;
    bounded = o.bounded;
    buffered = o.buffered;
  }
  stop-IsOrdered immediate e k o = record {
    numbered = rw (cancel_running_ids e.running_task e.runner, flagged_ids e.queue) o.numbered;
    next = o.next;
    bounded = omega (arith, o.bounded, length-map flagged e.queue);
    buffered = o.buffered;
  }

  cancel-IsOrdered :
      (i : ℕ) (e : Executor P R) (k : ℕ) → IsOrdered e k → IsOrdered (cancel_task i e) k
  unfolding cancel_task
  cancel-IsOrdered i e k o = record {
    numbered = rw (flag_runner_ids i e.runner, flag_id_ids i e.queue) o.numbered;
    next = o.next;
    bounded = omega (arith, o.bounded, length-map (flag_id i) e.queue);
    buffered = o.buffered;
  }

  deliver-IsOrdered :
      (d : List (Task P × Result R)) (e : Executor P R) (k : ℕ)
      → e.dispatched ≡ d
      → IsOrdered e k
      → IsOrdered (deliver d e) k
  unfolding deliver
  deliver-IsOrdered [] e k q o = o
  deliver-IsOrdered ((t, r) ∷ rest) e k q o = record {
    numbered = rw (map-append, append_assoc) (rw q at o.numbered);
    next = o.next;
    bounded = o.bounded;
    buffered = omega (arith, o.buffered, ap length q);
  }

  take-IsOrdered :
      (ts : List (Task P)) (e : Executor P R) (k : ℕ)
      → e.queue ≡ ts
      → e.runner ≡ resting
      → IsOrdered e k
      → IsOrdered (take_task ts e) k
  unfolding take_task
  take-IsOrdered [] e k q r o = elim (Bool-cases e.stop_requested) [
    | inl stop ↦ rw stop (record {
      numbered = rw r at o.numbered;
      next = o.next;
      bounded = o.bounded;
      buffered = o.buffered;
    })
    | inr more ↦ simp more o
  ]
  take-IsOrdered (t ∷ ts) e k q r o = record {
    numbered = rw (r, q) at o.numbered;
    next = o.next;
    bounded = omega (arith, o.bounded, ap length q);
    buffered = o.buffered;
  }

  -- A move of the runner thread that keeps its task.
  moved :
      (e : Executor P R) (r : Runner P R) (p : RunningTask) (k : ℕ)
      → IsOrdered e k
      → runner_ids e.runner ≡ runner_ids r
      → IsOrdered (record e { runner = r; running_task = p }) k
  moved e r p k o h = record {
    numbered = rw (← h) o.numbered;
    next = o.next;
    bounded = o.bounded;
    buffered = o.buffered;
  }

  dispatch-IsOrdered :
      (t : Task P) (r : Result R) (e : Executor P R) (k : ℕ)
      → e.runner ≡ delivering t r
      → length e.dispatched < e.queue_capacity
      → IsOrdered e k
      → IsOrdered (record e { dispatched = e.dispatched ++ (t, r) ∷ []; runner = releasing }) k
  dispatch-IsOrdered t r e k q room o = record {
    numbered = simp (map-append, append_assoc) (rw q at o.numbered);
    next = o.next;
    bounded = o.bounded;
    buffered = omega (arith, length-append e.dispatched ((t, r) ∷ []));
  }

module _ {P R : Type 0} (run : P → Outcome R) where
  move-IsOrdered :
      (r : Runner P R) (e : Executor P R) (k : ℕ)
      → e.runner ≡ r
      → IsOrdered e k
      → IsOrdered (move_runner run r e) k
  unfolding move_runner
  move-IsOrdered resting e k q o = take-IsOrdered e.queue e k refl q o
  move-IsOrdered (holding t) e k q o = moved e _ _ k o (rw q (ground arith))
  move-IsOrdered (executing t) e k q o = moved e _ _ k o (rw q refl)
  move-IsOrdered (settling t r) e k q o = moved e _ _ k o (rw q refl)
  move-IsOrdered (delivering t r) e k q o =
      elim (Bool-cases (ltb (length e.dispatched) e.queue_capacity)) [
        | inl room ↦ rw room (dispatch-IsOrdered t r e k q (ground arith) o)
        | inr full ↦ rw full o
      ]
  move-IsOrdered releasing e k q o = moved e _ _ k o (rw q refl)
  move-IsOrdered ended e k q o = o

  step-IsOrdered :
      (v : Event P) (e : Executor P R) (k : ℕ)
      → k + 2 < 2 ^ 64
      → IsOrdered e k
      → (k' : ℕ) × (k' ≤ k + 1) × IsOrdered (step run v e) k'
  unfolding step
  step-IsOrdered (submits p) e k l o = submit-IsOrdered p e k l o
  step-IsOrdered (stops m) e k l o = (k, omega arith, stop-IsOrdered m e k o)
  step-IsOrdered (cancels i) e k l o = (k, omega arith, cancel-IsOrdered i e k o)
  step-IsOrdered runs e k l o = (k, omega arith, move-IsOrdered e.runner e k refl o)
  step-IsOrdered delivers e k l o = (k, omega arith, deliver-IsOrdered e.dispatched e k refl o)

  play-IsOrdered :
      (vs : List (Event P)) (e : Executor P R) (k : ℕ)
      → k + length vs + 1 < 2 ^ 64
      → IsOrdered e k
      → (k' : ℕ) × IsOrdered (play run vs e) k'
  unfolding play
  play-IsOrdered [] e k l o = (k, o)
  play-IsOrdered (v ∷ vs) e k l o =
      let (k', b, o') = step-IsOrdered v e k (omega arith) o in
      play-IsOrdered vs (step run v e) k' (omega arith) o'

  -- Whatever the order in which clients, the runner and the delivery thread take turns (fewer than
  -- 2^64 - 1 of them), the numbers of the tasks delivered, waiting for delivery, running and queued,
  -- in this order, are 1, 2, 3, … up to the last task accepted: each accepted task is in one place,
  -- and tasks are delivered in the order of submission. Neither queue exceeds the capacity.
  pub fifo_delivery :
      (has_pipeline : Bool) (capacity : ℕ) (policy : QueueFullPolicy) (vs : List (Event P))
      → length vs + 1 < 2 ^ 64
      → let e = play run vs (create has_pipeline capacity policy) in
        (k : ℕ) × (all_ids e ≡ range 1 k)
        × (e.next_id ≡ k + 1)
        × (length e.queue ≤ e.queue_capacity)
        × (length e.dispatched ≤ e.queue_capacity)
  fifo_delivery has_pipeline capacity policy vs l =
      let (k, o) =
        play-IsOrdered vs (create has_pipeline capacity policy) 0 (omega arith)
          (create-IsOrdered has_pipeline capacity policy) in
      (k, o.numbered, o.next, o.bounded, o.buffered)
