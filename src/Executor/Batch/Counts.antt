-- ===== src/Executor/Batch/Counts.antt =====
-- Where each task of Runtime/include/executor/batchPipelineExecutor.hpp is, and how large batches are.
use mathlib.Core.List.{map-append}
use vision_runtime.Executor.Serial.Ids.{length-map}
use vision_runtime.Prelude.{
  ◌||◌, ℕ, ◌+◌, Bool, true, false, not, leb, ltb, ◌≡◌, refl, ap, ◌∙◌, List, [], ◌∷◌, ◌++◌, map,
  length, arith, Bool-cases, inl, inr, if◌then◌else◌, some,
}
use vision_runtime.Core.Status.{Result, success, failure, Result-cases}
use vision_runtime.Executor.Staged.{Item, Flags, Link, is_cancelled, move_link, is_ended}
use vision_runtime.Executor.Staged.Tasks.{
  Task, task_of, tasks, worker_tasks, link_tasks, move_link-tasks,
}
use vision_runtime.Executor.Batch.{
  BatchStages, Member, Collector, resting, ended, holding, gathering, timed_out, weighing,
  setting_aside, flushing, failing, posting, Finisher, idle, over, handing, Executor, member_of,
  completion_of, inputs_of, assign, preprocess_link, begin_batch, weigh, take_first, take_next,
  gather, dispatch, post, replaced_batched, lose_batched, replaced_finished, lose_finished,
  is_handing, is_dispatching, take_posted, move_finisher, pass_deadline, time_out, time_out_on,
  deliver, give_outputs, end_batch, flush_batch, move_collector, move_preprocess, call_preprocess,
  call_infer_batch, call_postprocess,
}

-- How many elements pass a test.
abbrev pub count {ℓ} : {A : Type ℓ} → (A → Bool) → List A → ℕ
count f [] = 0
count f (x ∷ xs) = (if f x then 1 else 0) + count f xs

pub count-append {ℓ} :
    {A : Type ℓ} (f : A → Bool) (xs ys : List A) → count f (xs ++ ys) ≡ count f xs + count f ys
count-append f [] ys = omega arith
count-append f (x ∷ xs) ys = omega (arith, count-append f xs ys)

module _ {P : Type 0} where
  abbrev pub members : {A : Type 0} → List (Member P A) → List (Task P)
  members = map λ m. (m.id, m.packet)

  abbrev pub finisher_tasks : {R : Type 0} → Finisher P R → List (Task P)
  finisher_tasks (handing t) = task_of t ∷ []
  finisher_tasks idle = []
  finisher_tasks over = []

  abbrev pub collector_tasks : {I O R : Type 0} → Collector P I O R → List (Task P)
  collector_tasks resting = []
  collector_tasks ended = []
  collector_tasks (holding t) = task_of t ∷ []
  collector_tasks (gathering ms) = members ms
  collector_tasks (timed_out ms) = members ms
  collector_tasks (weighing ms t) = task_of t ∷ members ms
  collector_tasks (setting_aside ms t) = task_of t ∷ members ms
  collector_tasks (flushing more ms) = members ms
  collector_tasks (failing more ts) = tasks ts
  collector_tasks (posting more ms) = members ms

  -- The tasks in the executor's hands that pass a test.
  abbrev pub tally : {I O R : Type 0} → (Task P → Bool) → Executor P I O R → ℕ
  tally f e =
      count f (tasks e.completed)
      + (count f (tasks e.lost)
          + (count f (tasks e.dispatched)
              + (count f (finisher_tasks e.finisher)
                  + (count f (tasks e.postprocessed)
                      + (count f (collector_tasks e.collector)
                          + (count f (tasks e.prepared)
                              + (count f (worker_tasks e.preprocessing)
                                  + count f (tasks e.entry.queue))))))))

  link_count :
      {A B : Type 0} (f : Task P → Bool) (l : Link P A B)
      → count f (link_tasks l)
        ≡ count f (tasks l.output) + (count f (worker_tasks l.worker) + count f (tasks l.input))
  link_count f l = omega (
    arith,
    count-append f (tasks l.output) (worker_tasks l.worker ++ tasks l.input),
    count-append f (worker_tasks l.worker) (tasks l.input),
  )

  pub snoc_count :
      {A : Type 0} (f : Task P → Bool) (ts : List (Item P A)) (t : Item P A)
      → count f (tasks (ts ++ t ∷ [])) ≡ count f (tasks ts) + (if f (task_of t) then 1 else 0)
  snoc_count f ts t =
      ap (count f) (map-append task_of ts (t ∷ []))
      ∙ count-append f (tasks ts) (task_of t ∷ [])
      ∙ omega arith

  member_count :
      {A : Type 0} (f : Task P → Bool) (ms : List (Member P A)) (m : Member P A)
      → count f (members (ms ++ m ∷ []))
        ≡ count f (members ms) + (if f (m.id, m.packet) then 1 else 0)
  member_count f [] m = omega arith
  member_count f (n ∷ ms) m = omega (arith, member_count f ms m)

  failed_count :
      {I R : Type 0} (f : Task P → Bool) (r : Result R) (ms : List (Member P I))
      → count f (tasks (map (λ m. completion_of m r) ms)) ≡ count f (members ms)
  failed_count f r [] = refl
  failed_count f r (m ∷ ms) = omega (arith, failed_count f r ms)

  -- With as many outputs as members, each member gets one.
  assigned :
      {I O : Type 0} (f : Task P → Bool) (ms : List (Member P I)) (os : List O)
      → length os ≡ length ms
      → (ns : List (Member P O)) × (assign ms os ≡ some ns)
        × (count f (members ns) ≡ count f (members ms))
        × (length ns ≡ length ms)
  unfolding assign
  assigned f [] os l = ([], refl, refl, refl)
  assigned f (m ∷ ms) [] l = absurd (ground (arith, l))
  assigned f (m ∷ ms) (o ∷ os) l =
      let (ns, a, c, n) = assigned f ms os (omega (arith, l)) in
      (
        record { id = m.id; packet = m.packet; input = o } ∷ ns,
        rw a refl,
        omega (arith, c),
        omega (arith, n),
      )

module _ {P I O R : Type 0} (f : Task P → Bool) where
  pub deliver-tally :
      (d : List (Item P R)) (e : Executor P I O R)
      → e.dispatched ≡ d
      → tally f (deliver d e) ≡ tally f e
  unfolding deliver
  deliver-tally [] e q = refl
  deliver-tally (t ∷ rest) e q =
      omega (arith, ap (λ x. count f (tasks x)) q, snoc_count f e.completed t)

  pub move_finisher-tally :
      (w : Finisher P R) (e : Executor P I O R)
      → e.finisher ≡ w
      → tally f (move_finisher w e) ≡ tally f e
  unfolding move_finisher take_posted
  move_finisher-tally idle e q =
      elim e.postprocessed
          as (λ ps. e.postprocessed ≡ ps → tally f (take_posted ps e) ≡ tally f e) [
            | [] ↦ λ p. ground (arith, q, p)
            | t ∷ ts ↦ λ p.
                omega (arith, ap (λ x. count f (tasks x)) p, ap (λ x. count f (finisher_tasks x)) q)
          ]
        refl
  move_finisher-tally (handing t) e q =
      elim (Bool-cases (ltb (length e.dispatched) e.entry.stage_capacity)) [
        | inl room ↦
            rw room
              (omega (arith, ap (λ x. count f (finisher_tasks x)) q, snoc_count f e.dispatched t))
        | inr full ↦ rw full refl
      ]
  move_finisher-tally over e q = refl

  take_first-tally :
      (ps : List (Item P I)) (e : Executor P I O R)
      → e.prepared ≡ ps
      → e.collector ≡ resting
      → tally f (take_first ps e) ≡ tally f e
  unfolding take_first
  take_first-tally [] e q c = elim (Bool-cases (is_ended e.preprocessing)) [
    | inl last ↦ rw last (omega (arith, ap (λ x. count f (collector_tasks x)) c))
    | inr more ↦ rw more refl
  ]
  take_first-tally (t ∷ ts) e q c =
      omega (arith, ap (λ x. count f (tasks x)) q, ap (λ x. count f (collector_tasks x)) c)

  take_next-tally :
      (ms : List (Member P I)) (ps : List (Item P I)) (e : Executor P I O R)
      → e.prepared ≡ ps
      → e.collector ≡ gathering ms
      → tally f (take_next ms ps e) ≡ tally f e
  unfolding take_next
  take_next-tally ms [] e q c = elim (Bool-cases (is_ended e.preprocessing)) [
    | inl last ↦ rw last (omega (arith, ap (λ x. count f (collector_tasks x)) c))
    | inr more ↦ rw more refl
  ]
  take_next-tally ms (t ∷ ts) e q c =
      omega (arith, ap (λ x. count f (tasks x)) q, ap (λ x. count f (collector_tasks x)) c)

  -- Another state of the batch thread, with the same tasks.
  moved :
      (c : Collector P I O R) (e : Executor P I O R)
      → count f (collector_tasks e.collector) ≡ count f (collector_tasks c)
      → tally f (record e { collector = c }) ≡ tally f e
  moved c e q = omega (arith, q)

  dispatch-tally :
      (t : Item P R) (c : Collector P I O R) (e : Executor P I O R)
      → count f (collector_tasks e.collector)
        ≡ (if f (task_of t) then 1 else 0) + count f (collector_tasks c)
      → tally f (dispatch t c e) ≡ tally f e
  dispatch-tally t c e q = elim (Bool-cases (ltb (length e.dispatched) e.entry.stage_capacity)) [
    | inl room ↦ rw room (omega (arith, q, snoc_count f e.dispatched t))
    | inr full ↦ rw full refl
  ]

  post-tally :
      (t : Item P R) (c : Collector P I O R) (e : Executor P I O R)
      → count f (collector_tasks e.collector)
        ≡ (if f (task_of t) then 1 else 0) + count f (collector_tasks c)
      → tally f (post t c e) ≡ tally f e
  post-tally t c e q = elim (Bool-cases (ltb (length e.postprocessed) e.entry.stage_capacity)) [
    | inl room ↦ rw room (omega (arith, q, snoc_count f e.postprocessed t))
    | inr full ↦ rw full refl
  ]

  begin_batch-count :
      (g : Flags) (t : Item P I) (c : Collector P I O R)
      → c ≡ begin_batch g t
      → count f (collector_tasks c) ≡ (if f (task_of t) then 1 else 0)
  unfolding begin_batch
  begin_batch-count g t c q = rw q (elim (Bool-cases (is_cancelled g t.id)) [
    | inl stop ↦ rw stop (omega arith)
    | inr go ↦ rw go (elim (Result-cases t.value) [
      | inl (x, v) ↦ rw v (omega arith)
      | inr (x, v) ↦ rw v (omega arith)
    ])
  ])

  weigh-count :
      (g : Flags) (ms : List (Member P I)) (t : Item P I) (c : Collector P I O R)
      → c ≡ weigh g ms t
      → count f (collector_tasks c) ≡ (if f (task_of t) then 1 else 0) + count f (members ms)
  unfolding weigh
  weigh-count g ms t c q = rw q (elim (Bool-cases (is_cancelled g t.id)) [
    | inl stop ↦ rw stop refl
    | inr go ↦ rw go (elim (Result-cases t.value) [
      | inl (x, v) ↦ rw v (omega (arith, member_count f ms (member_of t x)))
      | inr (x, v) ↦ rw v refl
    ])
  ])

module _ {P I O R : Type 0} (s : BatchStages P I O R) (f : Task P → Bool)
    (counted : (is : List I) (os : List O)
      → call_infer_batch s is ≡ success os
      → length os ≡ length is) where
  answered-tally :
      (more : Bool) (ms : List (Member P I)) (e : Executor P I O R)
      → e.collector ≡ flushing more ms
      → tally f (end_batch more ms (call_infer_batch s (inputs_of ms)) e) ≡ tally f e
  unfolding end_batch give_outputs
  answered-tally more ms e q = elim (Result-cases (call_infer_batch s (inputs_of ms))) [
    | inl (os, a) ↦
        let (ns, b, c, n) =
          assigned f ms os (counted (inputs_of ms) os a ∙ length-map (λ m. m.input) ms) in
        rw (a, b) (omega (arith, c, ap (λ x. count f (collector_tasks x)) q))
    | inr (t, a) ↦
        rw a (omega (arith, ap (λ x. count f (collector_tasks x)) q, failed_count f (failure t) ms))
  ]

  flush_batch-tally :
      (more : Bool) (ms : List (Member P I)) (e : Executor P I O R)
      → e.collector ≡ flushing more ms
      → tally f (flush_batch s more ms e) ≡ tally f e
  unfolding flush_batch
  flush_batch-tally true [] e q = moved f resting e (ap (λ x. count f (collector_tasks x)) q)
  flush_batch-tally false [] e q = moved f ended e (ap (λ x. count f (collector_tasks x)) q)
  flush_batch-tally more (m ∷ ms) e q = answered-tally more (m ∷ ms) e q

  gather-tally :
      (ms : List (Member P I)) (e : Executor P I O R)
      → e.collector ≡ gathering ms
      → tally f (gather ms e) ≡ tally f e
  gather-tally ms e q = elim (Bool-cases (leb e.max_batch_size (length ms))) [
    | inl full ↦ rw full (moved f (flushing true ms) e (ap (λ x. count f (collector_tasks x)) q))
    | inr room ↦ rw room (take_next-tally f ms e.prepared e refl q)
  ]

  pub move_collector-tally :
      (c : Collector P I O R) (e : Executor P I O R)
      → e.collector ≡ c
      → tally f (move_collector s c e) ≡ tally f e
  unfolding move_collector
  move_collector-tally resting e q = take_first-tally f e.prepared e refl q
  move_collector-tally ended e q = refl
  move_collector-tally (holding t) e q = moved f (begin_batch e.entry.flags t) e (
      omega (
        arith,
        ap (λ x. count f (collector_tasks x)) q,
        begin_batch-count f e.entry.flags t (begin_batch e.entry.flags t) refl,
      ))
  move_collector-tally (gathering ms) e q = gather-tally ms e q
  move_collector-tally (timed_out ms) e q =
      moved f (flushing (not (is_ended e.preprocessing)) ms) e
        (ap (λ x. count f (collector_tasks x)) q)
  move_collector-tally (weighing ms t) e q = moved f (weigh e.entry.flags ms t) e (
      omega (
        arith,
        ap (λ x. count f (collector_tasks x)) q,
        weigh-count f e.entry.flags ms t (weigh e.entry.flags ms t) refl,
      ))
  move_collector-tally (setting_aside ms t) e q =
      dispatch-tally f t (gathering ms) e (ap (λ x. count f (collector_tasks x)) q)
  move_collector-tally (flushing more ms) e q = flush_batch-tally more ms e q
  move_collector-tally (failing true []) e q =
      moved f resting e (ap (λ x. count f (collector_tasks x)) q)
  move_collector-tally (failing false []) e q =
      moved f ended e (ap (λ x. count f (collector_tasks x)) q)
  move_collector-tally (failing more (t ∷ ts)) e q =
      dispatch-tally f t (failing more ts) e (ap (λ x. count f (collector_tasks x)) q)
  move_collector-tally (posting true []) e q =
      moved f resting e (ap (λ x. count f (collector_tasks x)) q)
  move_collector-tally (posting false []) e q =
      moved f ended e (ap (λ x. count f (collector_tasks x)) q)
  move_collector-tally (posting more (m ∷ ms)) e q =
      post-tally f (completion_of m (call_postprocess s m.input)) (posting more ms) e
        (ap (λ x. count f (collector_tasks x)) q)

module _ {P I O R : Type 0} (f : Task P → Bool) where
  pub pass_deadline-tally :
      (c : Collector P I O R) (e : Executor P I O R)
      → e.collector ≡ c
      → tally f (pass_deadline c e) ≡ tally f e
  unfolding pass_deadline
  pass_deadline-tally (gathering ms) e q =
      moved f (flushing true ms) e (ap (λ x. count f (collector_tasks x)) q)
  pass_deadline-tally resting e q = refl
  pass_deadline-tally ended e q = refl
  pass_deadline-tally (holding t) e q = refl
  pass_deadline-tally (timed_out ms) e q = refl
  pass_deadline-tally (weighing ms t) e q = refl
  pass_deadline-tally (setting_aside ms t) e q = refl
  pass_deadline-tally (flushing more ms) e q = refl
  pass_deadline-tally (failing more ts) e q = refl
  pass_deadline-tally (posting more ms) e q = refl

  gives_up-tally :
      (ms : List (Member P I)) (ps : List (Item P I)) (e : Executor P I O R)
      → e.collector ≡ gathering ms
      → tally f (time_out_on ms ps e) ≡ tally f e
  gives_up-tally ms [] e q = moved f (timed_out ms) e (ap (λ x. count f (collector_tasks x)) q)
  gives_up-tally ms (t ∷ ts) e q = refl

  pub time_out-tally :
      (c : Collector P I O R) (e : Executor P I O R)
      → e.collector ≡ c
      → tally f (time_out c e) ≡ tally f e
  unfolding time_out
  time_out-tally (gathering ms) e q = elim (Bool-cases (leb e.max_batch_size (length ms))) [
    | inl full ↦ rw full refl
    | inr room ↦ rw room (gives_up-tally ms e.prepared e q)
  ]
  time_out-tally resting e q = refl
  time_out-tally ended e q = refl
  time_out-tally (holding t) e q = refl
  time_out-tally (timed_out ms) e q = refl
  time_out-tally (weighing ms t) e q = refl
  time_out-tally (setting_aside ms t) e q = refl
  time_out-tally (flushing more ms) e q = refl
  time_out-tally (failing more ts) e q = refl
  time_out-tally (posting more ms) e q = refl

  pub move_preprocess-tally :
      (s : BatchStages P I O R) (e : Executor P I O R) → tally f (move_preprocess s e) ≡ tally f e
  unfolding move_preprocess
  move_preprocess-tally s e =
      let l =
        move_link e.entry.stop_requested e.entry.stage_capacity e.entry.flags (call_preprocess s)
          e.preprocessing (preprocess_link e) in
      let same =
        move_link-tasks e.entry.stop_requested e.entry.stage_capacity e.entry.flags
          (call_preprocess s) e.preprocessing (preprocess_link e) refl in
      omega (arith, ap (count f) same, link_count f l, link_count f (preprocess_link e))

  replaced_batched-tally :
      (c : Collector P I O R) (e : Executor P I O R)
      → e.collector ≡ c
      → tally f (replaced_batched c e) ≡ tally f e
  replaced_batched-tally (setting_aside ms t) e q =
      omega (arith, ap (λ x. count f (collector_tasks x)) q, snoc_count f e.lost t)
  replaced_batched-tally (failing more (t ∷ ts)) e q =
      omega (arith, ap (λ x. count f (collector_tasks x)) q, snoc_count f e.lost t)
  replaced_batched-tally (failing more []) e q = refl
  replaced_batched-tally resting e q = refl
  replaced_batched-tally ended e q = refl
  replaced_batched-tally (holding t) e q = refl
  replaced_batched-tally (gathering ms) e q = refl
  replaced_batched-tally (timed_out ms) e q = refl
  replaced_batched-tally (weighing ms t) e q = refl
  replaced_batched-tally (flushing more ms) e q = refl
  replaced_batched-tally (posting more ms) e q = refl

  pub lose_batched-tally : (e : Executor P I O R) → tally f (lose_batched e) ≡ tally f e
  unfolding lose_batched
  lose_batched-tally e = elim (Bool-cases (is_handing e.finisher || e.overlapped)) [
    | inl both ↦ rw both (replaced_batched-tally e.collector e refl)
    | inr one ↦ rw one refl
  ]

  replaced_finished-tally :
      (w : Finisher P R) (e : Executor P I O R)
      → e.finisher ≡ w
      → tally f (replaced_finished w e) ≡ tally f e
  replaced_finished-tally (handing t) e q =
      omega (arith, ap (λ x. count f (finisher_tasks x)) q, snoc_count f e.lost t)
  replaced_finished-tally idle e q = refl
  replaced_finished-tally over e q = refl

  pub lose_finished-tally : (e : Executor P I O R) → tally f (lose_finished e) ≡ tally f e
  unfolding lose_finished
  lose_finished-tally e = elim (Bool-cases (is_dispatching e.collector || e.overlapped)) [
    | inl both ↦ rw both (replaced_finished-tally e.finisher e refl)
    | inr one ↦ rw one refl
  ]
