-- ===== src/Executor/Batch/Serving.antt =====
-- The values of the tasks on their way through Runtime/include/executor/batchPipelineExecutor.hpp.
use mathlib.Core.List.{append_assoc}
use vision_runtime.Prelude.{
  ◌||◌, Bool, true, false, leb, ltb, ◌≡◌, refl, ◌∙◌, sym, List, [], ◌∷◌, ◌++◌, map, length,
  Bool-cases, Option-cases, inl, inr,
}
use vision_runtime.Core.Status.{Status, success, failure, Result-cases}
use vision_runtime.Executor.Staged.{Item, Flags, is_cancelled, is_ended}
use vision_runtime.Executor.Staged.Right.{Stands, AllStand, WorkerStands}
use vision_runtime.Executor.Batch.{
  BatchStages, Member, Collector, resting, ended, holding, gathering, timed_out, weighing,
  setting_aside, flushing, failing, posting, Finisher, idle, over, handing, Executor, member_of,
  completion_of, inputs_of, assign, begin_batch, weigh, take_first, take_next, gather, dispatch,
  replaced_batched, lose_batched, replaced_finished, lose_finished, is_handing, is_dispatching,
  post, move_finisher, take_posted, pass_deadline, time_out, time_out_on, deliver, give_outputs,
  end_batch, flush_batch, move_collector, collector_ended, call_infer_batch, call_postprocess,
}
use vision_runtime.Executor.Batch.Results.{
  after_preprocess, batch_failed, Answered, AllReady, AllOwed, AllAnswered, AllAnswered-snoc,
  AllReady-snoc, assign-AllOwed, get_elem?-middle,
}

module _ {P I O R : Type 0} (s : BatchStages P I O R) where
  unfoldable pub CollectorRight : Flags → Collector P I O R → Type 0
  CollectorRight f resting = Unit {0}
  CollectorRight f ended = Unit {0}
  CollectorRight f (holding t) = Stands f (after_preprocess s) t
  CollectorRight f (gathering ms) = AllReady s ms
  CollectorRight f (timed_out ms) = AllReady s ms
  CollectorRight f (weighing ms t) = AllReady s ms × Stands f (after_preprocess s) t
  CollectorRight f (setting_aside ms t) = AllReady s ms × Answered s f t
  CollectorRight f (flushing more ms) = AllReady s ms
  CollectorRight f (failing more ts) = AllAnswered s f ts
  CollectorRight f (posting more ms) = AllOwed s ms

  unfoldable pub FinisherRight : Flags → Finisher P R → Type 0
  FinisherRight f idle = Unit {0}
  FinisherRight f over = Unit {0}
  FinisherRight f (handing t) = Answered s f t

  pub record IsRight (e : Executor P I O R) : Type 0 where
    pub queued : AllStand e.entry.flags success e.entry.queue
    pub at_preprocess : WorkerStands e.entry.flags success (after_preprocess s) e.preprocessing
    pub between : AllStand e.entry.flags (after_preprocess s) e.prepared
    pub collecting : CollectorRight e.entry.flags e.collector
    pub posted : AllAnswered s e.entry.flags e.postprocessed
    pub finishing : FinisherRight e.entry.flags e.finisher
    pub waiting : AllAnswered s e.entry.flags e.dispatched
    pub done : AllAnswered s e.entry.flags e.completed

  begin_batch-Right :
      (f : Flags) (t : Item P I)
      → Stands f (after_preprocess s) t
      → CollectorRight f (begin_batch f t)
  unfolding CollectorRight begin_batch
  begin_batch-Right f t r = elim (Bool-cases (is_cancelled f t.id)) [
    | inl stop ↦ rw stop (inl (refl, stop), tt)
    | inr go ↦ rw go (elim (Result-cases t.value) [
      | inl (x, v) ↦ rw v (elim r [ inl q ↦ (sym q ∙ v, tt) | inr (q, c) ↦ cc ])
      | inr (e, v) ↦
          rw v (elim r [ inl q ↦ (inr (inl (e, sym q ∙ v, refl)), tt) | inr (q, c) ↦ cc ])
    ])
  ]

  weigh-Right :
      (f : Flags) (ms : List (Member P I)) (t : Item P I)
      → AllReady s ms
      → Stands f (after_preprocess s) t
      → CollectorRight f (weigh f ms t)
  unfolding CollectorRight weigh
  weigh-Right f ms t a r = elim (Bool-cases (is_cancelled f t.id)) [
    | inl stop ↦ rw stop (a, inl (refl, stop))
    | inr go ↦ rw go (elim (Result-cases t.value) [
      | inl (x, v) ↦
          rw v
            (elim r [ inl q ↦ AllReady-snoc s ms (member_of t x) a (sym q ∙ v) | inr (q, c) ↦ cc ])
      | inr (e, v) ↦ rw v (elim r [ inl q ↦ (a, inr (inl (e, sym q ∙ v, refl))) | inr (q, c) ↦ cc ])
    ])
  ]

  failed_batch :
      (f : Flags) (is : List I) (ms : List (Member P I)) (e : Status)
      → AllReady s ms
      → call_infer_batch s (is ++ inputs_of ms) ≡ failure e
      → AllAnswered s f (map (λ m. completion_of m (failure e)) ms)
  failed_batch f is [] e a c = tt
  failed_batch f is (m ∷ ms) e (r, a) c = (
    inr (
        inr (
          batch_failed (is ++ inputs_of (m ∷ ms)) (length is) m.input e r
            (get_elem?-middle is m.input (inputs_of ms)) c refl)),
    failed_batch f (is ++ m.input ∷ []) ms e a
        (rw (append_assoc is (m.input ∷ []) (inputs_of ms)) c),
  )

  -- Another state of the batch thread.
  collected :
      (e : Executor P I O R) (c : Collector P I O R)
      → IsRight e
      → CollectorRight e.entry.flags c
      → IsRight (record e { collector = c })
  collected e c r d = record {
    queued = r.queued;
    at_preprocess = r.at_preprocess;
    between = r.between;
    collecting = d;
    posted = r.posted;
    finishing = r.finishing;
    waiting = r.waiting;
    done = r.done;
  }

  answered-IsRight :
      (more : Bool) (ms : List (Member P I)) (e : Executor P I O R)
      → AllReady s ms
      → IsRight e
      → IsRight (end_batch more ms (call_infer_batch s (inputs_of ms)) e)
  unfolding end_batch give_outputs CollectorRight
  answered-IsRight more ms e a r = elim (Result-cases (call_infer_batch s (inputs_of ms))) [
    | inl (os, c) ↦ rw c (elim (Option-cases (assign ms os)) [
      | inl nothing ↦ rw nothing (record {
        queued = r.queued;
        at_preprocess = r.at_preprocess;
        between = r.between;
        collecting = tt;
        posted = r.posted;
        finishing = r.finishing;
        waiting = r.waiting;
        done = r.done;
      })
      | inr (ns, b) ↦
          rw b (collected e (posting more ns) r (assign-AllOwed s [] [] ms os ns refl a c b))
    ])
    | inr (t, c) ↦ rw c (collected e _ r (failed_batch e.entry.flags [] ms t a c))
  ]

  flush_batch-IsRight :
      (more : Bool) (ms : List (Member P I)) (e : Executor P I O R)
      → AllReady s ms
      → IsRight e
      → IsRight (flush_batch s more ms e)
  unfolding flush_batch CollectorRight
  flush_batch-IsRight true [] e a r = collected e resting r tt
  flush_batch-IsRight false [] e a r = collected e ended r tt
  flush_batch-IsRight more (m ∷ ms) e a r = answered-IsRight more (m ∷ ms) e a r

  take_first-IsRight :
      (ps : List (Item P I)) (e : Executor P I O R)
      → e.prepared ≡ ps
      → IsRight e
      → IsRight (take_first ps e)
  unfolding take_first CollectorRight
  take_first-IsRight [] e q r = elim (Bool-cases (is_ended e.preprocessing)) [
    | inl last ↦ rw last (collected e ended r tt)
    | inr more ↦ rw more r
  ]
  take_first-IsRight (t ∷ ts) e q r =
      let (first, rest) : AllStand e.entry.flags (after_preprocess s) (t ∷ ts) =
        rw q at r.between in
      record {
        queued = r.queued;
        at_preprocess = r.at_preprocess;
        between = rest;
        collecting = first;
        posted = r.posted;
        finishing = r.finishing;
        waiting = r.waiting;
        done = r.done;
      }

  take_next-IsRight :
      (ms : List (Member P I)) (ps : List (Item P I)) (e : Executor P I O R)
      → e.prepared ≡ ps
      → AllReady s ms
      → IsRight e
      → IsRight (take_next ms ps e)
  unfolding take_next CollectorRight
  take_next-IsRight ms [] e q a r = elim (Bool-cases (is_ended e.preprocessing)) [
    | inl last ↦ rw last (collected e (timed_out ms) r a)
    | inr more ↦ rw more r
  ]
  take_next-IsRight ms (t ∷ ts) e q a r =
      let (first, rest) : AllStand e.entry.flags (after_preprocess s) (t ∷ ts) =
        rw q at r.between in
      record {
        queued = r.queued;
        at_preprocess = r.at_preprocess;
        between = rest;
        collecting = (a, first);
        posted = r.posted;
        finishing = r.finishing;
        waiting = r.waiting;
        done = r.done;
      }

  gather-IsRight :
      (ms : List (Member P I)) (e : Executor P I O R)
      → AllReady s ms
      → IsRight e
      → IsRight (gather ms e)
  unfolding CollectorRight
  gather-IsRight ms e a r = elim (Bool-cases (leb e.max_batch_size (length ms))) [
    | inl full ↦ rw full (collected e (flushing true ms) r a)
    | inr room ↦ rw room (take_next-IsRight ms e.prepared e refl a r)
  ]

  dispatch-IsRight :
      (t : Item P R) (c : Collector P I O R) (e : Executor P I O R)
      → Answered s e.entry.flags t
      → CollectorRight e.entry.flags c
      → IsRight e
      → IsRight (dispatch t c e)
  dispatch-IsRight t c e a d r =
      elim (Bool-cases (ltb (length e.dispatched) e.entry.stage_capacity)) [
        | inl room ↦ rw room (record {
          queued = r.queued;
          at_preprocess = r.at_preprocess;
          between = r.between;
          collecting = d;
          posted = r.posted;
          finishing = r.finishing;
          waiting = AllAnswered-snoc s e.entry.flags e.dispatched t r.waiting a;
          done = r.done;
        })
        | inr full ↦ rw full r
      ]

  post-IsRight :
      (t : Item P R) (c : Collector P I O R) (e : Executor P I O R)
      → Answered s e.entry.flags t
      → CollectorRight e.entry.flags c
      → IsRight e
      → IsRight (post t c e)
  post-IsRight t c e a d r =
      elim (Bool-cases (ltb (length e.postprocessed) e.entry.stage_capacity)) [
        | inl room ↦ rw room (record {
          queued = r.queued;
          at_preprocess = r.at_preprocess;
          between = r.between;
          collecting = d;
          posted = AllAnswered-snoc s e.entry.flags e.postprocessed t r.posted a;
          finishing = r.finishing;
          waiting = r.waiting;
          done = r.done;
        })
        | inr full ↦ rw full r
      ]

  pub move_collector-IsRight :
      (c : Collector P I O R) (e : Executor P I O R)
      → e.collector ≡ c
      → CollectorRight e.entry.flags c
      → IsRight e
      → IsRight (move_collector s c e)
  unfolding move_collector CollectorRight
  move_collector-IsRight resting e q d r = take_first-IsRight e.prepared e refl r
  move_collector-IsRight ended e q d r = r
  move_collector-IsRight (holding t) e q d r = collected e _ r (begin_batch-Right e.entry.flags t d)
  move_collector-IsRight (gathering ms) e q d r = gather-IsRight ms e d r
  move_collector-IsRight (timed_out ms) e q d r = collected e _ r d
  move_collector-IsRight (weighing ms t) e q d r =
      collected e _ r (weigh-Right e.entry.flags ms t d.0 d.1)
  move_collector-IsRight (setting_aside ms t) e q d r =
      dispatch-IsRight t (gathering ms) e d.1 d.0 r
  move_collector-IsRight (flushing more ms) e q d r = flush_batch-IsRight more ms e d r
  move_collector-IsRight (failing true []) e q d r = collected e resting r tt
  move_collector-IsRight (failing false []) e q d r = collected e ended r tt
  move_collector-IsRight (failing more (t ∷ ts)) e q d r =
      dispatch-IsRight t (failing more ts) e d.0 d.1 r
  move_collector-IsRight (posting true []) e q d r = collected e resting r tt
  move_collector-IsRight (posting false []) e q d r = collected e ended r tt
  move_collector-IsRight (posting more (m ∷ ms)) e q d r =
      post-IsRight (completion_of m (call_postprocess s m.input)) (posting more ms) e
        (inr (inr d.0)) d.1 r

  pub pass_deadline-IsRight :
      (c : Collector P I O R) (e : Executor P I O R)
      → CollectorRight e.entry.flags c
      → IsRight e
      → IsRight (pass_deadline c e)
  unfolding pass_deadline CollectorRight
  pass_deadline-IsRight (gathering ms) e d r = collected e (flushing true ms) r d
  pass_deadline-IsRight resting e d r = r
  pass_deadline-IsRight ended e d r = r
  pass_deadline-IsRight (holding t) e d r = r
  pass_deadline-IsRight (timed_out ms) e d r = r
  pass_deadline-IsRight (weighing ms t) e d r = r
  pass_deadline-IsRight (setting_aside ms t) e d r = r
  pass_deadline-IsRight (flushing more ms) e d r = r
  pass_deadline-IsRight (failing more ts) e d r = r
  pass_deadline-IsRight (posting more ms) e d r = r

  gives_up-IsRight :
      (ms : List (Member P I)) (ps : List (Item P I)) (e : Executor P I O R)
      → AllReady s ms
      → IsRight e
      → IsRight (time_out_on ms ps e)
  unfolding CollectorRight
  gives_up-IsRight ms [] e a r = collected e (timed_out ms) r a
  gives_up-IsRight ms (t ∷ ts) e a r = r

  pub time_out-IsRight :
      (c : Collector P I O R) (e : Executor P I O R)
      → CollectorRight e.entry.flags c
      → IsRight e
      → IsRight (time_out c e)
  unfolding time_out CollectorRight
  time_out-IsRight (gathering ms) e d r = elim (Bool-cases (leb e.max_batch_size (length ms))) [
    | inl full ↦ rw full r
    | inr room ↦ rw room (gives_up-IsRight ms e.prepared e d r)
  ]
  time_out-IsRight resting e d r = r
  time_out-IsRight ended e d r = r
  time_out-IsRight (holding t) e d r = r
  time_out-IsRight (timed_out ms) e d r = r
  time_out-IsRight (weighing ms t) e d r = r
  time_out-IsRight (setting_aside ms t) e d r = r
  time_out-IsRight (flushing more ms) e d r = r
  time_out-IsRight (failing more ts) e d r = r
  time_out-IsRight (posting more ms) e d r = r

  pub deliver-IsRight :
      (d : List (Item P R)) (e : Executor P I O R)
      → e.dispatched ≡ d
      → IsRight e
      → IsRight (deliver d e)
  unfolding deliver
  deliver-IsRight [] e q r = r
  deliver-IsRight (t ∷ rest) e q r =
      let (first, others) : AllAnswered s e.entry.flags (t ∷ rest) = rw q at r.waiting in
      record {
        queued = r.queued;
        at_preprocess = r.at_preprocess;
        between = r.between;
        collecting = r.collecting;
        posted = r.posted;
        finishing = r.finishing;
        waiting = others;
        done = AllAnswered-snoc s e.entry.flags e.completed t r.done first;
      }

  take_posted-IsRight :
      (ts : List (Item P R)) (e : Executor P I O R)
      → e.postprocessed ≡ ts
      → IsRight e
      → IsRight (take_posted ts e)
  unfolding take_posted FinisherRight
  take_posted-IsRight [] e q r = elim (Bool-cases (collector_ended e.collector)) [
    | inl last ↦ rw last (record {
      queued = r.queued;
      at_preprocess = r.at_preprocess;
      between = r.between;
      collecting = r.collecting;
      posted = r.posted;
      finishing = tt;
      waiting = r.waiting;
      done = r.done;
    })
    | inr more ↦ rw more r
  ]
  take_posted-IsRight (t ∷ ts) e q r =
      let (first, others) : AllAnswered s e.entry.flags (t ∷ ts) = rw q at r.posted in
      record {
        queued = r.queued;
        at_preprocess = r.at_preprocess;
        between = r.between;
        collecting = r.collecting;
        posted = others;
        finishing = first;
        waiting = r.waiting;
        done = r.done;
      }

  pub finish-IsRight :
      (w : Finisher P R) (e : Executor P I O R)
      → FinisherRight e.entry.flags w
      → IsRight e
      → IsRight (move_finisher w e)
  unfolding move_finisher FinisherRight
  finish-IsRight idle e d r = take_posted-IsRight e.postprocessed e refl r
  finish-IsRight over e d r = r
  finish-IsRight (handing t) e d r =
      elim (Bool-cases (ltb (length e.dispatched) e.entry.stage_capacity)) [
        | inl room ↦ rw room (record {
          queued = r.queued;
          at_preprocess = r.at_preprocess;
          between = r.between;
          collecting = r.collecting;
          posted = r.posted;
          finishing = tt;
          waiting = AllAnswered-snoc s e.entry.flags e.dispatched t r.waiting d;
          done = r.done;
        })
        | inr full ↦ rw full r
      ]

  replaced_batched-IsRight :
      (c : Collector P I O R) (e : Executor P I O R)
      → CollectorRight e.entry.flags c
      → IsRight e
      → IsRight (replaced_batched c e)
  unfolding CollectorRight
  replaced_batched-IsRight (setting_aside ms t) e d r = record {
    queued = r.queued;
    at_preprocess = r.at_preprocess;
    between = r.between;
    collecting = d.0;
    posted = r.posted;
    finishing = r.finishing;
    waiting = r.waiting;
    done = r.done;
  }
  replaced_batched-IsRight (failing more (t ∷ ts)) e d r = record {
    queued = r.queued;
    at_preprocess = r.at_preprocess;
    between = r.between;
    collecting = d.1;
    posted = r.posted;
    finishing = r.finishing;
    waiting = r.waiting;
    done = r.done;
  }
  replaced_batched-IsRight (failing more []) e d r = r
  replaced_batched-IsRight resting e d r = r
  replaced_batched-IsRight ended e d r = r
  replaced_batched-IsRight (holding t) e d r = r
  replaced_batched-IsRight (gathering ms) e d r = r
  replaced_batched-IsRight (timed_out ms) e d r = r
  replaced_batched-IsRight (weighing ms t) e d r = r
  replaced_batched-IsRight (flushing more ms) e d r = r
  replaced_batched-IsRight (posting more ms) e d r = r

  pub lose_batched-IsRight : (e : Executor P I O R) → IsRight e → IsRight (lose_batched e)
  unfolding lose_batched
  lose_batched-IsRight e r = elim (Bool-cases (is_handing e.finisher || e.overlapped)) [
    | inl both ↦ rw both (replaced_batched-IsRight e.collector e r.collecting r)
    | inr one ↦ rw one r
  ]

  replaced_finished-IsRight :
      (w : Finisher P R) (e : Executor P I O R) → IsRight e → IsRight (replaced_finished w e)
  unfolding FinisherRight
  replaced_finished-IsRight (handing t) e r = record {
    queued = r.queued;
    at_preprocess = r.at_preprocess;
    between = r.between;
    collecting = r.collecting;
    posted = r.posted;
    finishing = tt;
    waiting = r.waiting;
    done = r.done;
  }
  replaced_finished-IsRight idle e r = r
  replaced_finished-IsRight over e r = r

  pub lose_finished-IsRight : (e : Executor P I O R) → IsRight e → IsRight (lose_finished e)
  unfolding lose_finished
  lose_finished-IsRight e r = elim (Bool-cases (is_dispatching e.collector || e.overlapped)) [
    | inl both ↦ rw both (replaced_finished-IsRight e.finisher e r)
    | inr one ↦ rw one r
  ]
