-- ===== src/Executor/Batch/Stranding.antt =====
-- Runtime/include/executor/batchPipelineExecutor.hpp: a task that comes between the end of a `popFor`
-- and the call of `isClosed` in `collectBatch`.
use vision_runtime.Prelude.{
  ◌<◌, Bool, true, false, not, ltb, ◌≡◌, refl, ap, ◌∙◌, List, [], ◌∷◌, arith, inl, inr,
}
use vision_runtime.Core.Status.{Result-cases}
use vision_runtime.Executor.Staged.{Item, Worker, is_ended, move_link, take_item, hand_over}
use vision_runtime.Executor.Staged.Progress.{move_link-over}
use vision_runtime.Executor.Batch.{
  BatchStages, Member, Collector, resting, ended, holding, gathering, timed_out, weighing,
  setting_aside, flushing, failing, posting, Finisher, Executor, Event, submits, stops, cancels,
  preprocesses, batches, deadlines, times_out, finishes, delivers, loses_batched, loses_finished,
  lose_batched, lose_finished, move_finisher, take_posted, pass_deadline, time_out, deliver,
  give_outputs, end_batch, flush_batch, move_collector, move_preprocess, preprocess_link,
  with_preprocess_link, call_preprocess, call_infer_batch, inputs_of, step, play, request_stop,
}

module _ {P I O R : Type 0} where
  -- The batch thread is on its way to its end.
  abbrev pub is_leaving : Collector P I O R → Bool
  is_leaving ended = true
  is_leaving (flushing more ms) = not more
  is_leaving (failing more ts) = not more
  is_leaving (posting more ms) = not more
  is_leaving resting = false
  is_leaving (holding t) = false
  is_leaving (gathering ms) = false
  is_leaving (timed_out ms) = false
  is_leaving (weighing ms t) = false
  is_leaving (setting_aside ms t) = false

  -- The prepared tasks, with no thread left that pushes or takes one.
  record IsLeft (ts : List (Item P I)) (e : Executor P I O R) : Type 0 where
    left : e.prepared ≡ ts
    no_producer : is_ended e.preprocessing ≡ true
    no_consumer : is_leaving e.collector ≡ true

module _ {P I O R : Type 0} (s : BatchStages P I O R) where
  flush_leaves :
      (ms : List (Member P I)) (e : Executor P I O R)
      → is_leaving (flush_batch s false ms e).collector ≡ true
  unfolding flush_batch end_batch give_outputs
  flush_leaves [] e = refl
  flush_leaves (m ∷ ms) e = elim (Result-cases (call_infer_batch s (inputs_of (m ∷ ms)))) [
    | inl (os, a) ↦ rw a (ground arith)
    | inr (t, a) ↦ rw a refl
  ]

  collector_leaves :
      (c : Collector P I O R) (e : Executor P I O R)
      → e.collector ≡ c
      → is_leaving c ≡ true
      → is_leaving (move_collector s c e).collector ≡ true
  unfolding move_collector
  collector_leaves ended e q h = rw q refl
  collector_leaves (flushing false ms) e q h = flush_leaves ms e
  collector_leaves (flushing true ms) e q h = cc
  collector_leaves (failing false []) e q h = refl
  collector_leaves (failing false (t ∷ ts)) e q h = ground (arith, q)
  collector_leaves (failing true ts) e q h = cc
  collector_leaves (posting false []) e q h = refl
  collector_leaves (posting false (m ∷ ms)) e q h = ground (arith, q)
  collector_leaves (posting true ms) e q h = cc
  collector_leaves resting e q h = cc
  collector_leaves (holding t) e q h = cc
  collector_leaves (gathering ms) e q h = cc
  collector_leaves (timed_out ms) e q h = cc
  collector_leaves (weighing ms t) e q h = cc
  collector_leaves (setting_aside ms t) e q h = cc

  collector_keeps :
      (c : Collector P I O R) (e : Executor P I O R)
      → is_leaving c ≡ true
      → ((move_collector s c e).prepared ≡ e.prepared)
        × ((move_collector s c e).preprocessing ≡ e.preprocessing)
  unfolding move_collector flush_batch end_batch give_outputs
  collector_keeps c e h = ground (arith, h)

  preprocess-IsLeft :
      (ts : List (Item P I)) (e : Executor P I O R) → IsLeft ts e → IsLeft ts (move_preprocess s e)
  unfolding move_preprocess
  preprocess-IsLeft ts e l =
      rw
        (ap (with_preprocess_link e) (
          move_link-over e.entry.stop_requested e.entry.stage_capacity e.entry.flags
            (call_preprocess s) e.preprocessing (preprocess_link e) l.no_producer))
        l

  batch-IsLeft :
      (ts : List (Item P I)) (e : Executor P I O R)
      → IsLeft ts e
      → IsLeft ts (move_collector s e.collector e)
  batch-IsLeft ts e l =
      let (p, w) = collector_keeps e.collector e l.no_consumer in
      record {
        left = p ∙ l.left;
        no_producer = ap is_ended w ∙ l.no_producer;
        no_consumer = collector_leaves e.collector e refl l.no_consumer;
      }

  deadline_left :
      (c : Collector P I O R) (e : Executor P I O R) → is_leaving c ≡ true → pass_deadline c e ≡ e
  unfolding pass_deadline
  deadline_left c e h = ground (arith, h)

  time_out_left :
      (c : Collector P I O R) (e : Executor P I O R) → is_leaving c ≡ true → time_out c e ≡ e
  unfolding time_out
  time_out_left c e h = ground (arith, h)

  finish-IsLeft :
      (ts : List (Item P I)) (w : Finisher P R) (e : Executor P I O R)
      → IsLeft ts e
      → IsLeft ts (move_finisher w e)
  unfolding move_finisher take_posted
  finish-IsLeft ts w e l = record {
    left = ground (arith, l.left);
    no_producer = ground (arith, l.no_producer);
    no_consumer = ground (arith, l.no_consumer);
  }

  deliver-IsLeft :
      (ts : List (Item P I)) (d : List (Item P R)) (e : Executor P I O R)
      → IsLeft ts e
      → IsLeft ts (deliver d e)
  unfolding deliver
  deliver-IsLeft ts [] e l = l
  deliver-IsLeft ts (t ∷ rest) e l = record {
    left = l.left;
    no_producer = l.no_producer;
    no_consumer = l.no_consumer;
  }

  step-IsLeft :
      (ts : List (Item P I)) (v : Event P) (e : Executor P I O R)
      → IsLeft ts e
      → IsLeft ts (step s v e)
  unfolding step request_stop lose_batched lose_finished
  step-IsLeft ts (submits p) e l = record {
    left = l.left;
    no_producer = l.no_producer;
    no_consumer = l.no_consumer;
  }
  step-IsLeft ts (stops m) e l = record {
    left = l.left;
    no_producer = l.no_producer;
    no_consumer = l.no_consumer;
  }
  step-IsLeft ts (cancels i) e l = record {
    left = l.left;
    no_producer = l.no_producer;
    no_consumer = l.no_consumer;
  }
  step-IsLeft ts preprocesses e l = preprocess-IsLeft ts e l
  step-IsLeft ts batches e l = batch-IsLeft ts e l
  step-IsLeft ts deadlines e l = rw (deadline_left e.collector e l.no_consumer) l
  step-IsLeft ts times_out e l = rw (time_out_left e.collector e l.no_consumer) l
  step-IsLeft ts finishes e l = finish-IsLeft ts e.finisher e l
  step-IsLeft ts delivers e l = deliver-IsLeft ts e.dispatched e l
  step-IsLeft ts loses_batched e l = record {
    left = ground (arith, l.left);
    no_producer = ground (arith, l.no_producer);
    no_consumer = ground (arith, l.no_consumer);
  }
  step-IsLeft ts loses_finished e l = record {
    left = ground (arith, l.left);
    no_producer = ground (arith, l.no_producer);
    no_consumer = ground (arith, l.no_consumer);
  }

  play-IsLeft :
      (ts : List (Item P I)) (vs : List (Event P)) (e : Executor P I O R)
      → IsLeft ts e
      → IsLeft ts (play s vs e)
  unfolding play
  play-IsLeft ts [] e l = l
  play-IsLeft ts (v ∷ vs) e l = play-IsLeft ts vs (step s v e) (step-IsLeft ts v e l)

  -- The push of the last task, the end of the preprocessing thread, and the call of `isClosed`.
  last_push :
      (t : Item P I) (ms : List (Member P I)) (e : Executor P I O R)
      → e.collector ≡ timed_out ms
      → e.preprocessing ≡ Worker.handing t
      → e.prepared ≡ []
      → e.entry.queue ≡ []
      → e.entry.stop_requested ≡ true
      → 0 < e.entry.stage_capacity
      → IsLeft (t ∷ []) (play s (preprocesses ∷ preprocesses ∷ batches ∷ []) e)
  unfolding play step move_preprocess move_link hand_over take_item move_collector
  last_push t ms e c w p q h r =
      let room : ltb 0 e.entry.stage_capacity ≡ true = ground arith in
      let start : e ≡ record e {
        entry = record e.entry { queue = []; stop_requested = true };
        preprocessing = Worker.handing t;
        prepared = [];
        collector = timed_out ms;
      } =
        ground (arith, c, w, p, q, h) in
      rw start
        (record { left = rw room refl; no_producer = rw room refl; no_consumer = rw room refl })

  -- While the batch thread is between a `popFor` without a value and the call of `isClosed`, let the
  -- preprocessing thread push its last task and, after a stop, end. Then the batch thread takes the
  -- closed queue for a drained one, and whatever happens afterwards, the task stays in the queue of
  -- prepared tasks: it is never completed.
  pub late_task_is_stranded :
      (t : Item P I) (ms : List (Member P I)) (e : Executor P I O R) (vs : List (Event P))
      → e.collector ≡ timed_out ms
      → e.preprocessing ≡ Worker.handing t
      → e.prepared ≡ []
      → e.entry.queue ≡ []
      → e.entry.stop_requested ≡ true
      → 0 < e.entry.stage_capacity
      → (play s (preprocesses ∷ preprocesses ∷ batches ∷ vs) e).prepared ≡ t ∷ []
  unfolding play
  late_task_is_stranded t ms e vs c w p q h r =
      (play-IsLeft (t ∷ []) vs _ (last_push t ms e c w p q h r)).left
