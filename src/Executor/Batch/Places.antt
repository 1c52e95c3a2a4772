-- ===== src/Executor/Batch/Places.antt =====
-- Histories of Runtime/include/executor/batchPipelineExecutor.hpp: where the accepted tasks are.
use mathlib.Core.List.{append_assoc, append-nil}
use mathlib.Core.Path.{subst}
use vision_runtime.Prelude.{
  ℕ, ◌+◌, ◌^◌, ◌≤◌, ◌<◌, Bool, ◌==◌, ◌≡◌, refl, ap, ◌∙◌, List, [], ◌∷◌, ◌++◌, length, length-append,
  arith, inl, inr, ◌⊎◌, true, if◌then◌else◌,
}
use vision_runtime.Core.Status.{success}
use vision_runtime.Executor.Serial.{QueueFullPolicy, StopMode}
use vision_runtime.Executor.Staged.{
  Item, Entry, after_submit, stop_entry, cancel_entry, enqueue, new_item, ids,
}
use vision_runtime.Executor.Staged.Tasks.{
  Task, number, number-snoc, accepted_packet, submit_cases, stop_entry-queue, stop_entry-keeps,
  cancel_entry-keeps, tasks,
}
use vision_runtime.Executor.Batch.{
  BatchStages, Member, Collector, flushing, Finisher, Executor, Event, submits, stops, cancels,
  preprocesses, batches, deadlines, times_out, finishes, delivers, loses_batched, loses_finished,
  lose_batched, lose_finished, create, submit, request_stop, take_first, take_next, move_finisher,
  take_posted, pass_deadline, time_out, deliver, give_outputs, end_batch, flush_batch,
  move_collector, move_preprocess, call_infer_batch, step, play,
}
use vision_runtime.Executor.Batch.Counts.{
  count, count-append, tally, snoc_count, deliver-tally, move_finisher-tally, move_collector-tally,
  pass_deadline-tally, time_out-tally, lose_batched-tally, lose_finished-tally,
  move_preprocess-tally,
}
use vision_runtime.Executor.Batch.Sizes.{
  Sized, IsSized, move_collector-IsSized, pass_deadline-IsSized, time_out-IsSized,
  lose_batched-IsSized, lose_finished-IsSized,
}

module _ {P I O R : Type 0} where
  -- The packet that an event gets accepted.
  unfoldable pub accepts : Event P → Executor P I O R → List P
  unfolding submit
  accepts (submits p) e = accepted_packet p (submit p e.entry)
  accepts _ e = []

  -- Each accepted task is in the executor's hands once.
  pub record IsPlaced (m : ℕ) (e : Executor P I O R) (ps : List P) : Type 0 where
    pub placed : (f : Task P → Bool) → tally f e ≡ count f (number 1 ps)
    pub next : e.entry.next_id ≡ length ps + 1
    pub size : IsSized m e
    -- Nothing is lost unless two pushes overlapped.
    pub whole : (e.lost ≡ []) ⊎ (e.overlapped ≡ true)

  create-IsPlaced :
      (max_batch_size : ℕ) (has_pipeline : Bool) (capacity stage_capacity : ℕ)
      (policy : QueueFullPolicy)
      → IsPlaced
          (if max_batch_size == 0 then 1 else max_batch_size)
          (create max_batch_size has_pipeline capacity stage_capacity policy)
          []
  unfolding create number Sized
  create-IsPlaced max_batch_size has_pipeline capacity stage_capacity policy = record {
    placed = λ f. omega arith;
    next = refl;
    size = record { size = refl; positive = ground arith; sized = tt };
    whole = inl refl;
  }

  enqueued-IsPlaced :
      (m : ℕ) (p : P) (e : Executor P I O R) (ps : List P)
      → length ps + 2 < 2 ^ 64
      → IsPlaced m e ps
      → IsPlaced m (record e { entry = enqueue p e.entry }) (ps ++ p ∷ [])
  enqueued-IsPlaced m p e ps l o = record {
    placed = λ f. omega (
      arith,
      o.placed f,
      snoc_count f e.entry.queue (new_item e.entry.next_id p),
      ap (λ i. count f ((i, p) ∷ [])) {x = e.entry.next_id} {y = 1 + length ps}
          (omega (arith, o.next)),
      ap (count f) (number-snoc 1 ps p),
      count-append f (number 1 ps) ((1 + length ps, p) ∷ []),
    );
    next = omega (arith, o.next, length-append ps (p ∷ []));
    size = record { size = o.size.size; positive = o.size.positive; sized = o.size.sized };
    whole = o.whole;
  }

  submit-IsPlaced :
      (m : ℕ) (p : P) (e : Executor P I O R) (ps : List P)
      → length ps + 2 < 2 ^ 64
      → IsPlaced m e ps
      → IsPlaced m
          (record e { entry = after_submit e.entry (submit p e.entry) })
          (ps ++ accepted_packet p (submit p e.entry))
  unfolding submit
  submit-IsPlaced m p e ps l o =
      elim (submit_cases "batch executor requires a staged pipeline" p e.entry) [
        | inl (same, nothing) ↦ rw (same, nothing, append-nil ps) o
        | inr (room, added, taken, takes) ↦ rw (added, taken) (enqueued-IsPlaced m p e ps l o)
      ]

  -- Another entry with the same queue and numbers.
  entry-IsPlaced :
      (m : ℕ) (n : Entry P) (e : Executor P I O R) (ps : List P)
      → n.queue ≡ e.entry.queue
      → n.next_id ≡ e.entry.next_id
      → IsPlaced m e ps
      → IsPlaced m (record e { entry = n }) ps
  entry-IsPlaced m n e ps q i o = record {
    placed = λ f. omega (arith, o.placed f, ap (λ x. count f (tasks x)) q);
    next = i ∙ o.next;
    size = record { size = o.size.size; positive = o.size.positive; sized = o.size.sized };
    whole = o.whole;
  }

  stop-IsPlaced :
      (m : ℕ) (k : StopMode) (e : Executor P I O R) (ps : List P)
      → IsPlaced m e ps
      → IsPlaced m (request_stop k e) ps
  unfolding request_stop
  stop-IsPlaced m k e ps o =
      entry-IsPlaced m (stop_entry k e.entry) e ps (stop_entry-queue k e.entry)
        (stop_entry-keeps k e.entry).0 o

  cancel-IsPlaced :
      (m : ℕ) (done : List ℕ) (i : ℕ) (e : Executor P I O R) (ps : List P)
      → IsPlaced m e ps
      → IsPlaced m (record e { entry = cancel_entry done i e.entry }) ps
  cancel-IsPlaced m done i e ps o =
      let (f, only) = cancel_entry-keeps done i e.entry in
      entry-IsPlaced m (cancel_entry done i e.entry) e ps (ap (λ n. n.queue) only)
        (ap (λ n. n.next_id) only) o

  deliver-keeps :
      (m : ℕ) (d : List (Item P R)) (e : Executor P I O R)
      → IsSized m e
      → ((deliver d e).entry ≡ e.entry) × IsSized m (deliver d e)
  unfolding deliver
  deliver-keeps m [] e z = (refl, z)
  deliver-keeps m (t ∷ rest) e z =
      (refl, record { size = z.size; positive = z.positive; sized = z.sized })

  move_finisher-keeps :
      (m : ℕ) (w : Finisher P R) (e : Executor P I O R)
      → IsSized m e
      → ((move_finisher w e).entry ≡ e.entry) × IsSized m (move_finisher w e)
  unfolding move_finisher take_posted
  move_finisher-keeps m w e z = (
    ground arith,
    record {
      size = ground (arith, z.size);
      positive = z.positive;
      sized = subst (Sized m) {x = e.collector} (ground arith) z.sized;
    },
  )

module _ {P I O R : Type 0} (s : BatchStages P I O R) where
  move_collector-entry :
      (c : Collector P I O R) (e : Executor P I O R) → (move_collector s c e).entry ≡ e.entry
  unfolding move_collector take_first take_next flush_batch end_batch give_outputs
  move_collector-entry c e = ground arith

  move_collector-whole :
      (c : Collector P I O R) (e : Executor P I O R)
      → (e.lost ≡ []) ⊎ (e.overlapped ≡ true)
      → ((move_collector s c e).lost ≡ []) ⊎ ((move_collector s c e).overlapped ≡ true)
  unfolding move_collector take_first take_next flush_batch end_batch give_outputs
  move_collector-whole c e w = ground (arith, w)

  -- The packets accepted in the course of events, oldest first.
  unfoldable pub accepted_packets : List (Event P) → Executor P I O R → List P
  unfolding accepts
  accepted_packets [] e = []
  accepted_packets (v ∷ vs) e = accepts v e ++ accepted_packets vs (step s v e)

  accepts-length : (v : Event P) (e : Executor P I O R) → length (accepts v e) ≤ 1
  unfolding accepts
  accepts-length v e = ground arith

  preprocess-IsPlaced :
      (m : ℕ) (e : Executor P I O R) (ps : List P)
      → IsPlaced m e ps
      → IsPlaced m (move_preprocess s e) ps
  unfolding move_preprocess
  preprocess-IsPlaced m e ps o = record {
    placed = λ f. move_preprocess-tally f s e ∙ o.placed f;
    next = o.next;
    size = record { size = o.size.size; positive = o.size.positive; sized = o.size.sized };
    whole = o.whole;
  }

  pass_deadline-entry :
      (c : Collector P I O R) (e : Executor P I O R) → (pass_deadline c e).entry ≡ e.entry
  unfolding pass_deadline
  pass_deadline-entry c e = ground arith

  time_out-entry : (c : Collector P I O R) (e : Executor P I O R) → (time_out c e).entry ≡ e.entry
  unfolding time_out
  time_out-entry c e = ground arith

  -- A step that keeps the entry and the number of tasks that pass each test.
  kept :
      (m : ℕ) (e e' : Executor P I O R) (ps : List P)
      → e'.entry ≡ e.entry
      → ((f : Task P → Bool) → tally f e' ≡ tally f e)
      → IsSized m e'
      → ((e'.lost ≡ []) ⊎ (e'.overlapped ≡ true))
      → IsPlaced m e ps
      → IsPlaced m e' ps
  kept m e e' ps n c z w o = record {
    placed = λ f. c f ∙ o.placed f;
    next = ap (λ x. x.next_id) n ∙ o.next;
    size = z;
    whole = w;
  }

module _ {P I O R : Type 0} (s : BatchStages P I O R)
    (counted : (is : List I) (os : List O)
      → call_infer_batch s is ≡ success os
      → length os ≡ length is) where
  step-IsPlaced :
      (m : ℕ) (v : Event P) (e : Executor P I O R) (ps : List P)
      → length ps + 2 < 2 ^ 64
      → IsPlaced m e ps
      → IsPlaced m (step s v e) (ps ++ accepts v e)
  unfolding step accepts pass_deadline time_out move_finisher take_posted deliver lose_batched
      lose_finished
  step-IsPlaced m (submits p) e ps l o = submit-IsPlaced m p e ps l o
  step-IsPlaced m (stops k) e ps l o = rw (append-nil ps) (stop-IsPlaced m k e ps o)
  step-IsPlaced m (cancels i) e ps l o =
      rw (append-nil ps) (cancel-IsPlaced m (ids e.completed) i e ps o)
  step-IsPlaced m preprocesses e ps l o = rw (append-nil ps) (preprocess-IsPlaced s m e ps o)
  step-IsPlaced m batches e ps l o = rw (append-nil ps) (
      kept s m e (move_collector s e.collector e) ps (move_collector-entry s e.collector e)
        (λ f. move_collector-tally s f counted e.collector e refl)
        (move_collector-IsSized s m e.collector e refl o.size)
        (move_collector-whole s e.collector e o.whole) o)
  step-IsPlaced m deadlines e ps l o = rw (append-nil ps) (
      kept s m e (pass_deadline e.collector e) ps (pass_deadline-entry s e.collector e)
        (λ f. pass_deadline-tally f e.collector e refl)
        (pass_deadline-IsSized m e.collector e refl o.size) (ground (arith, o.whole)) o)
  step-IsPlaced m times_out e ps l o = rw (append-nil ps) (
      kept s m e (time_out e.collector e) ps (time_out-entry s e.collector e)
        (λ f. time_out-tally f e.collector e refl) (time_out-IsSized m e.collector e refl o.size)
        (ground (arith, o.whole)) o)
  step-IsPlaced m finishes e ps l o =
      let (same, z) = move_finisher-keeps m e.finisher e o.size in
      rw (append-nil ps) (
        kept s m e (move_finisher e.finisher e) ps same
          (λ f. move_finisher-tally f e.finisher e refl) z (ground (arith, o.whole)) o)
  step-IsPlaced m delivers e ps l o =
      let (same, z) = deliver-keeps m e.dispatched e o.size in
      rw (append-nil ps) (
        kept s m e (deliver e.dispatched e) ps same (λ f. deliver-tally f e.dispatched e refl) z
          (ground (arith, o.whole)) o)
  step-IsPlaced m loses_batched e ps l o = rw (append-nil ps) (
      kept s m e (lose_batched e) ps (ground arith) (λ f. lose_batched-tally f e)
        (lose_batched-IsSized m e o.size) (ground (arith, o.whole)) o)
  step-IsPlaced m loses_finished e ps l o = rw (append-nil ps) (
      kept s m e (lose_finished e) ps (ground arith) (λ f. lose_finished-tally f e)
        (lose_finished-IsSized m e o.size) (ground (arith, o.whole)) o)

  play-IsPlaced :
      (m : ℕ) (vs : List (Event P)) (e : Executor P I O R) (ps : List P)
      → length ps + length vs + 1 < 2 ^ 64
      → IsPlaced m e ps
      → IsPlaced m (play s vs e) (ps ++ accepted_packets s vs e)
  unfolding play accepted_packets
  play-IsPlaced m [] e ps l o = rw (append-nil ps) o
  play-IsPlaced m (v ∷ vs) e ps l o =
      let few : length (ps ++ accepts v e) ≤ length ps + 1 =
        omega (arith, length-append ps (accepts v e), accepts-length s v e) in
      rw (← append_assoc ps (accepts v e) (accepted_packets s vs (step s v e))) (
        play-IsPlaced m vs (step s v e) (ps ++ accepts v e) (omega arith)
          (step-IsPlaced m v e ps (omega arith) o))

  -- When the pipeline's batch inference answers one output for each input, then whatever the order in
  -- which clients and the four threads take turns (fewer than 2^64 - 1 of them), and whenever
  -- deadlines pass: for each test of tasks, as many of the tasks delivered, waiting for delivery, lost
  -- by overlapping pushes, in the hands of a thread and in the three queues pass it as of the accepted
  -- packets, numbered from 1 in the order of their submission. So each accepted task is in one place,
  -- and there is no other one. None is lost unless pushes of the batch thread and the postprocessing
  -- thread to the dispatcher overlapped.
  pub tasks_in_one_place :
      (max_batch_size : ℕ) (has_pipeline : Bool) (capacity stage_capacity : ℕ)
      (policy : QueueFullPolicy) (vs : List (Event P)) (f : Task P → Bool)
      → length vs + 1 < 2 ^ 64
      → let first = create max_batch_size has_pipeline capacity stage_capacity policy in
        (tally f (play s vs first) ≡ count f (number 1 (accepted_packets s vs first)))
        × (((play s vs first).lost ≡ []) ⊎ ((play s vs first).overlapped ≡ true))
  tasks_in_one_place max_batch_size has_pipeline capacity stage_capacity policy vs f l =
      let o =
        play-IsPlaced (if max_batch_size == 0 then 1 else max_batch_size) vs
          (create max_batch_size has_pipeline capacity stage_capacity policy) [] (omega arith)
          (create-IsPlaced max_batch_size has_pipeline capacity stage_capacity policy) in
      (o.placed f, o.whole)

  -- Under the same conditions, each batch that `flushBatch` is called with has at least one member and
  -- at most as many as the configured batch size, or one where 0 is configured.
  pub batch_sizes :
      (max_batch_size : ℕ) (has_pipeline : Bool) (capacity stage_capacity : ℕ)
      (policy : QueueFullPolicy) (vs : List (Event P)) (more : Bool) (ms : List (Member P I))
      → length vs + 1 < 2 ^ 64
      → (play s vs (create max_batch_size has_pipeline capacity stage_capacity policy)).collector
        ≡ flushing more ms
      → (1 ≤ length ms) × (length ms ≤ (if max_batch_size == 0 then 1 else max_batch_size))
  unfolding Sized
  batch_sizes max_batch_size has_pipeline capacity stage_capacity policy vs more ms l q =
      rw q at
        (play-IsPlaced (if max_batch_size == 0 then 1 else max_batch_size) vs
          (create max_batch_size has_pipeline capacity stage_capacity policy) [] (omega arith)
          (create-IsPlaced max_batch_size has_pipeline capacity stage_capacity policy)).size.sized
