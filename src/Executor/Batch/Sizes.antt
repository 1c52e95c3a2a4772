-- ===== src/Executor/Batch/Sizes.antt =====
-- How large the batches of Runtime/include/executor/batchPipelineExecutor.hpp get.
use mathlib.Core.Path.{subst}
use vision_runtime.Prelude.{
  ◌||◌, ℕ, ◌≤◌, ◌<◌, Bool, true, false, leb, ltb, ◌≡◌, refl, List, [], ◌∷◌, length, length-append,
  arith, Bool-cases, inl, inr, ◌⊎◌, none, some,
}
use vision_runtime.Core.Status.{Result-cases}
use vision_runtime.Executor.Staged.{Item, Flags, is_cancelled, is_ended}
use vision_runtime.Executor.Batch.{
  BatchStages, Member, Collector, resting, ended, holding, gathering, timed_out, weighing,
  setting_aside, flushing, failing, posting, Executor, member_of, begin_batch, weigh, take_first,
  take_next, gather, dispatch, replaced_batched, lose_batched, lose_finished, is_handing, post,
  pass_deadline, time_out, time_out_on, give_outputs, end_batch, flush_batch, move_collector,
  call_infer_batch, call_postprocess, inputs_of, completion_of, assign,
}

module _ {P I O R : Type 0} where
  -- The members of a batch, before it is full and when it is run.
  unfoldable pub Sized : ℕ → Collector P I O R → Type 0
  Sized m (gathering ms) = (1 ≤ length ms) × (length ms ≤ m)
  Sized m (timed_out ms) = (1 ≤ length ms) × (length ms ≤ m)
  Sized m (weighing ms t) = (1 ≤ length ms) × (length ms < m)
  Sized m (setting_aside ms t) = (1 ≤ length ms) × (length ms < m)
  Sized m (flushing more ms) = (1 ≤ length ms) × (length ms ≤ m)
  Sized m (posting more ms) = length ms ≤ m
  Sized m resting = Unit {0}
  Sized m ended = Unit {0}
  Sized m (holding t) = Unit {0}
  Sized m (failing more ts) = Unit {0}

  begin_batch-Sized :
      (m : ℕ) (g : Flags) (t : Item P I) (c : Collector P I O R)
      → c ≡ begin_batch g t
      → 1 ≤ m
      → Sized m c
  unfolding Sized begin_batch
  begin_batch-Sized m g t c q l = rw q (elim (Bool-cases (is_cancelled g t.id)) [
    | inl stop ↦ rw stop tt
    | inr go ↦ rw go (elim (Result-cases t.value) [
      | inl (x, v) ↦ rw v (omega arith, omega (arith, l))
      | inr (x, v) ↦ rw v tt
    ])
  ])

  weigh-Sized :
      (m : ℕ) (g : Flags) (ms : List (Member P I)) (t : Item P I) (c : Collector P I O R)
      → c ≡ weigh g ms t
      → 1 ≤ length ms
      → length ms < m
      → Sized m c
  unfolding Sized weigh
  weigh-Sized m g ms t c q a b = rw q (elim (Bool-cases (is_cancelled g t.id)) [
    | inl stop ↦ rw stop (a, b)
    | inr go ↦ rw go (elim (Result-cases t.value) [
      | inl (x, v) ↦ rw v (
        omega (arith, length-append ms (member_of t x ∷ [])),
        omega (arith, b, length-append ms (member_of t x ∷ [])),
      )
      | inr (x, v) ↦ rw v (a, b)
    ])
  ])

  -- What the batch thread keeps: the batch size, and a batch of the right size.
  pub record IsSized (m : ℕ) (e : Executor P I O R) : Type 0 where
    pub size : e.max_batch_size ≡ m
    pub positive : 1 ≤ m
    pub sized : Sized m e.collector

  resized :
      (m : ℕ) (e : Executor P I O R) (c : Collector P I O R)
      → IsSized m e
      → Sized m c
      → IsSized m (record e { collector = c })
  resized m e c z d = record { size = z.size; positive = z.positive; sized = d }

  take_first-IsSized :
      (m : ℕ) (ps : List (Item P I)) (e : Executor P I O R)
      → IsSized m e
      → IsSized m (take_first ps e)
  unfolding take_first Sized
  take_first-IsSized m [] e z = elim (Bool-cases (is_ended e.preprocessing)) [
    | inl last ↦ rw last (resized m e ended z tt)
    | inr more ↦ rw more z
  ]
  take_first-IsSized m (t ∷ ts) e z = record { size = z.size; positive = z.positive; sized = tt }

  take_next-IsSized :
      (m : ℕ) (ms : List (Member P I)) (ps : List (Item P I)) (e : Executor P I O R)
      → 1 ≤ length ms
      → length ms < m
      → IsSized m e
      → IsSized m (take_next ms ps e)
  unfolding take_next Sized
  take_next-IsSized m ms [] e a b z = elim (Bool-cases (is_ended e.preprocessing)) [
    | inl last ↦ rw last (resized m e (timed_out ms) z (a, omega (arith, b)))
    | inr more ↦ rw more z
  ]
  take_next-IsSized m ms (t ∷ ts) e a b z = record {
    size = z.size;
    positive = z.positive;
    sized = (a, b);
  }

  gather-IsSized :
      (m : ℕ) (ms : List (Member P I)) (e : Executor P I O R)
      → 1 ≤ length ms
      → length ms ≤ m
      → IsSized m e
      → IsSized m (gather ms e)
  unfolding Sized
  gather-IsSized m ms e a b z = elim (Bool-cases (leb e.max_batch_size (length ms))) [
    | inl full ↦ rw full (resized m e (flushing true ms) z (a, b))
    | inr room ↦ rw room (take_next-IsSized m ms e.prepared e a (ground (arith, room, z.size, b)) z)
  ]

  dispatch-IsSized :
      (m : ℕ) (t : Item P R) (c : Collector P I O R) (e : Executor P I O R)
      → Sized m c
      → IsSized m e
      → IsSized m (dispatch t c e)
  dispatch-IsSized m t c e d z =
      elim (Bool-cases (ltb (length e.dispatched) e.entry.stage_capacity)) [
        | inl room ↦ rw room (record { size = z.size; positive = z.positive; sized = d })
        | inr full ↦ rw full z
      ]

  post-IsSized :
      (m : ℕ) (t : Item P R) (c : Collector P I O R) (e : Executor P I O R)
      → Sized m c
      → IsSized m e
      → IsSized m (post t c e)
  post-IsSized m t c e d z =
      elim (Bool-cases (ltb (length e.postprocessed) e.entry.stage_capacity)) [
        | inl room ↦ rw room (record { size = z.size; positive = z.positive; sized = d })
        | inr full ↦ rw full z
      ]

assign-length :
    {P I O : Type 0} (ms : List (Member P I)) (os : List O)
    → (assign ms os ≡ none)
      ⊎ ((ns : List (Member P O)) × (assign ms os ≡ some ns) × (length ns ≡ length ms))
unfolding assign
assign-length [] os = inr ([], refl, refl)
assign-length (m ∷ ms) [] = inl refl
assign-length (m ∷ ms) (o ∷ os) = elim (assign-length ms os) [
  | inl nothing ↦ inl (rw nothing refl)
  | inr (ns, a, n) ↦
      inr (record { id = m.id; packet = m.packet; input = o } ∷ ns, rw a refl, omega (arith, n))
]

module _ {P I O R : Type 0} (s : BatchStages P I O R) where
  answered-IsSized :
      (m : ℕ) (more : Bool) (ms : List (Member P I)) (e : Executor P I O R)
      → length ms ≤ m
      → IsSized m e
      → IsSized m (end_batch more ms (call_infer_batch s (inputs_of ms)) e)
  unfolding end_batch give_outputs Sized
  answered-IsSized m more ms e l z = elim (Result-cases (call_infer_batch s (inputs_of ms))) [
    | inl (os, a) ↦ rw a (elim (assign-length ms os) [
      | inl nothing ↦ rw nothing (record { size = z.size; positive = z.positive; sized = tt })
      | inr (ns, b, n) ↦ rw b (resized m e (posting more ns) z (omega (arith, n, l)))
    ])
    | inr (t, a) ↦ rw a (resized m e _ z tt)
  ]

  flush_batch-IsSized :
      (m : ℕ) (more : Bool) (ms : List (Member P I)) (e : Executor P I O R)
      → length ms ≤ m
      → IsSized m e
      → IsSized m (flush_batch s more ms e)
  unfolding flush_batch Sized
  flush_batch-IsSized m true [] e l z = resized m e resting z tt
  flush_batch-IsSized m false [] e l z = resized m e ended z tt
  flush_batch-IsSized m more (n ∷ ns) e l z = answered-IsSized m more (n ∷ ns) e l z

  pub move_collector-IsSized :
      (m : ℕ) (c : Collector P I O R) (e : Executor P I O R)
      → e.collector ≡ c
      → IsSized m e
      → IsSized m (move_collector s c e)
  unfolding move_collector Sized
  move_collector-IsSized m resting e q z = take_first-IsSized m e.prepared e z
  move_collector-IsSized m ended e q z = z
  move_collector-IsSized m (holding t) e q z =
      resized m e _ z
        (begin_batch-Sized m e.entry.flags t (begin_batch e.entry.flags t) refl z.positive)
  move_collector-IsSized m (gathering ms) e q z =
      let (a, b) : (1 ≤ length ms) × (length ms ≤ m) = rw q at z.sized in
      gather-IsSized m ms e a b z
  move_collector-IsSized m (timed_out ms) e q z = resized m e _ z (rw q at z.sized)
  move_collector-IsSized m (weighing ms t) e q z =
      let (a, b) : (1 ≤ length ms) × (length ms < m) = rw q at z.sized in
      resized m e _ z (weigh-Sized m e.entry.flags ms t (weigh e.entry.flags ms t) refl a b)
  move_collector-IsSized m (setting_aside ms t) e q z =
      let (a, b) : (1 ≤ length ms) × (length ms < m) = rw q at z.sized in
      dispatch-IsSized m t (gathering ms) e (a, omega (arith, b)) z
  move_collector-IsSized m (flushing more ms) e q z =
      let (a, b) : (1 ≤ length ms) × (length ms ≤ m) = rw q at z.sized in
      flush_batch-IsSized m more ms e b z
  move_collector-IsSized m (failing true []) e q z = resized m e resting z tt
  move_collector-IsSized m (failing false []) e q z = resized m e ended z tt
  move_collector-IsSized m (failing more (t ∷ ts)) e q z =
      dispatch-IsSized m t (failing more ts) e tt z
  move_collector-IsSized m (posting true []) e q z = resized m e resting z tt
  move_collector-IsSized m (posting false []) e q z = resized m e ended z tt
  move_collector-IsSized m (posting more (n ∷ ns)) e q z =
      let l : length (n ∷ ns) ≤ m = rw q at z.sized in
      post-IsSized m (completion_of n (call_postprocess s n.input)) (posting more ns) e
        (omega (arith, l)) z

module _ {P I O R : Type 0} where
  pub pass_deadline-IsSized :
      (m : ℕ) (c : Collector P I O R) (e : Executor P I O R)
      → e.collector ≡ c
      → IsSized m e
      → IsSized m (pass_deadline c e)
  unfolding pass_deadline Sized
  pass_deadline-IsSized m (gathering ms) e q z = resized m e _ z (rw q at z.sized)
  pass_deadline-IsSized m resting e q z = z
  pass_deadline-IsSized m ended e q z = z
  pass_deadline-IsSized m (holding t) e q z = z
  pass_deadline-IsSized m (timed_out ms) e q z = z
  pass_deadline-IsSized m (weighing ms t) e q z = z
  pass_deadline-IsSized m (setting_aside ms t) e q z = z
  pass_deadline-IsSized m (flushing more ms) e q z = z
  pass_deadline-IsSized m (failing more ts) e q z = z
  pass_deadline-IsSized m (posting more ms) e q z = z

  gives_up-IsSized :
      (m : ℕ) (ms : List (Member P I)) (ps : List (Item P I)) (e : Executor P I O R)
      → 1 ≤ length ms
      → length ms ≤ m
      → IsSized m e
      → IsSized m (time_out_on ms ps e)
  unfolding Sized
  gives_up-IsSized m ms [] e a b z = resized m e (timed_out ms) z (a, b)
  gives_up-IsSized m ms (t ∷ ts) e a b z = z

  pub time_out-IsSized :
      (m : ℕ) (c : Collector P I O R) (e : Executor P I O R)
      → e.collector ≡ c
      → IsSized m e
      → IsSized m (time_out c e)
  unfolding time_out Sized
  time_out-IsSized m (gathering ms) e q z =
      let (a, b) : (1 ≤ length ms) × (length ms ≤ m) = rw q at z.sized in
      elim (Bool-cases (leb e.max_batch_size (length ms))) [
        | inl full ↦ rw full z
        | inr room ↦ rw room (gives_up-IsSized m ms e.prepared e a b z)
      ]
  time_out-IsSized m resting e q z = z
  time_out-IsSized m ended e q z = z
  time_out-IsSized m (holding t) e q z = z
  time_out-IsSized m (timed_out ms) e q z = z
  time_out-IsSized m (weighing ms t) e q z = z
  time_out-IsSized m (setting_aside ms t) e q z = z
  time_out-IsSized m (flushing more ms) e q z = z
  time_out-IsSized m (failing more ts) e q z = z
  time_out-IsSized m (posting more ms) e q z = z

  replaced_batched-IsSized :
      (m : ℕ) (c : Collector P I O R) (e : Executor P I O R)
      → e.collector ≡ c
      → IsSized m e
      → IsSized m (replaced_batched c e)
  unfolding Sized
  replaced_batched-IsSized m (setting_aside ms t) e q z = record {
    size = z.size;
    positive = z.positive;
    sized =
        let (a, b) : (1 ≤ length ms) × (length ms < m) = rw q at z.sized in (a, omega (arith, b));
  }
  replaced_batched-IsSized m (failing more (t ∷ ts)) e q z = record {
    size = z.size;
    positive = z.positive;
    sized = tt;
  }
  replaced_batched-IsSized m (failing more []) e q z = z
  replaced_batched-IsSized m resting e q z = z
  replaced_batched-IsSized m ended e q z = z
  replaced_batched-IsSized m (holding t) e q z = z
  replaced_batched-IsSized m (gathering ms) e q z = z
  replaced_batched-IsSized m (timed_out ms) e q z = z
  replaced_batched-IsSized m (weighing ms t) e q z = z
  replaced_batched-IsSized m (flushing more ms) e q z = z
  replaced_batched-IsSized m (posting more ms) e q z = z

  pub lose_batched-IsSized :
      (m : ℕ) (e : Executor P I O R) → IsSized m e → IsSized m (lose_batched e)
  unfolding lose_batched
  lose_batched-IsSized m e z = elim (Bool-cases (is_handing e.finisher || e.overlapped)) [
    | inl both ↦ rw both (replaced_batched-IsSized m e.collector e refl z)
    | inr one ↦ rw one z
  ]

  pub lose_finished-IsSized :
      (m : ℕ) (e : Executor P I O R) → IsSized m e → IsSized m (lose_finished e)
  unfolding lose_finished
  lose_finished-IsSized m e z = record {
    size = ground (arith, z.size);
    positive = z.positive;
    sized = subst (Sized m) {x = e.collector} (ground arith) z.sized;
  }
