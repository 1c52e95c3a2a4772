-- ===== src/Executor/Parallel/Draining.antt =====
-- How the threads of Runtime/include/executor/parallelPipelineExecutor.hpp work off the tasks and end.
use mathlib.Core.Path.{subst}
use vision_runtime.Prelude.{
  ℕ, zero, suc, ◌+◌, ◌*◌, ◌≤◌, ◌<◌, Bool, true, false, ◌≡◌, refl, ap, ◌∙◌, List, [], ◌∷◌, ◌++◌,
  length, arith, Bool-cases, inl, inr, ◌⊎◌,
}
use vision_runtime.Executor.Serial.{QueueFullPolicy, StopMode, graceful, immediate}
use vision_runtime.Executor.Staged.{
  Item, ended, is_ended, after_submit, stop_entry, cancel_entry, ids,
}
use vision_runtime.Executor.Staged.Tasks.{submit_cases, cancel_entry-keeps}
use vision_runtime.Executor.Staged.Progress.{
  worker_work, link_work, Waits, move_link-work, Settled, move_link-Settled, move_link-over,
}
use vision_runtime.Executor.Parallel.{
  Stages, Executor, Event, submits, stops, cancels, preprocesses, infers, postprocesses, delivers,
  create, submit, request_stop, move_preprocess, move_inference, move_postprocess, deliver, step,
  play, preprocess_link, inference_link, postprocess_link, call_preprocess, call_inference,
  call_postprocess, with_preprocess_link, with_inference_link, with_postprocess_link,
}

module _ {P I O R : Type 0} where
  -- The steps that the tasks in the executor's hands and its threads still need.
  unfoldable pub work : Executor P I O R → ℕ
  work e =
      link_work 9 (preprocess_link e)
      + (length e.inferred * 5 + worker_work 5 e.inference)
      + (length e.dispatched + worker_work 1 e.postprocessing)

  deliver-work :
      (d : List (Item P R)) (e : Executor P I O R)
      → e.dispatched ≡ d
      → ((deliver d e ≡ e) × (d ≡ [])) ⊎ (work (deliver d e) < work e)
  unfolding work deliver
  deliver-work [] e q = inl (refl, refl)
  deliver-work (t ∷ rest) e q = inr (omega (arith, ap length q))

  abbrev pub PreprocessWaits : Executor P I O R → Type 0
  PreprocessWaits e =
      Waits e.entry.stop_requested e.entry.stage_capacity (preprocess_link e) e.preprocessing

  abbrev pub InferenceWaits : Executor P I O R → Type 0
  InferenceWaits e =
      Waits (is_ended e.preprocessing) e.entry.stage_capacity (inference_link e) e.inference

  abbrev pub PostprocessWaits : Executor P I O R → Type 0
  PostprocessWaits e =
      Waits (is_ended e.inference) e.entry.stage_capacity (postprocess_link e) e.postprocessing

  -- What a thread that has ended has left behind.
  pub record IsSettled (e : Executor P I O R) : Type 0 where
    pub refusing : (e.entry.stop_requested ≡ false) ⊎ (e.entry.accepting ≡ false)
    pub preprocessed : Settled e.entry.stop_requested (is_ended e.preprocessing) e.entry.queue
    pub inferred_all : Settled (is_ended e.preprocessing) (is_ended e.inference) e.prepared
    pub postprocessed : Settled (is_ended e.inference) (is_ended e.postprocessing) e.inferred

module _ {P I O R : Type 0} (s : Stages P I O R) where
  preprocess-work :
      (e : Executor P I O R)
      → ((move_preprocess s e ≡ e) × PreprocessWaits e) ⊎ (work (move_preprocess s e) < work e)
  unfolding work move_preprocess
  preprocess-work e =
      elim (move_link-work 9 e.entry.stop_requested e.entry.stage_capacity e.entry.flags
        (call_preprocess s) e.preprocessing (preprocess_link e) refl) [
          | inl (same, w) ↦ inl (ap (with_preprocess_link e) same, w)
          | inr less ↦ inr (omega (arith, less))
        ]

  inference-work :
      (e : Executor P I O R)
      → ((move_inference s e ≡ e) × InferenceWaits e) ⊎ (work (move_inference s e) < work e)
  unfolding work move_inference
  inference-work e =
      elim (move_link-work 5 (is_ended e.preprocessing) e.entry.stage_capacity e.entry.flags
        (call_inference s) e.inference (inference_link e) refl) [
          | inl (same, w) ↦ inl (ap (with_inference_link e) same, w)
          | inr less ↦ inr (omega (arith, less))
        ]

  postprocess-work :
      (e : Executor P I O R)
      → ((move_postprocess s e ≡ e) × PostprocessWaits e) ⊎ (work (move_postprocess s e) < work e)
  unfolding work move_postprocess
  postprocess-work e =
      elim (move_link-work 1 (is_ended e.inference) e.entry.stage_capacity e.entry.flags
        (call_postprocess s) e.postprocessing (postprocess_link e) refl) [
          | inl (same, w) ↦ inl (ap (with_postprocess_link e) same, w)
          | inr less ↦ inr (omega (arith, less))
        ]

  preprocess-IsSettled : (e : Executor P I O R) → IsSettled e → IsSettled (move_preprocess s e)
  unfolding move_preprocess
  preprocess-IsSettled e t =
      let first =
        move_link-Settled e.entry.stop_requested e.entry.stage_capacity e.entry.flags
          (call_preprocess s) e.preprocessing (preprocess_link e) refl t.preprocessed in
      elim (Bool-cases (is_ended e.preprocessing)) [
        | inl over ↦
            rw
              (ap (with_preprocess_link e) (
                move_link-over e.entry.stop_requested e.entry.stage_capacity e.entry.flags
                  (call_preprocess s) e.preprocessing (preprocess_link e) over))
              t
        | inr going ↦ record {
          refusing = t.refusing;
          preprocessed = first;
          inferred_all = elim t.inferred_all [ inl more ↦ inl more | inr (over, none_left) ↦ cc ];
          postprocessed = t.postprocessed;
        }
      ]

  inference-IsSettled : (e : Executor P I O R) → IsSettled e → IsSettled (move_inference s e)
  unfolding move_inference
  inference-IsSettled e t =
      let second =
        move_link-Settled (is_ended e.preprocessing) e.entry.stage_capacity e.entry.flags
          (call_inference s) e.inference (inference_link e) refl t.inferred_all in
      elim (Bool-cases (is_ended e.inference)) [
        | inl over ↦
            rw
              (ap (with_inference_link e) (
                move_link-over (is_ended e.preprocessing) e.entry.stage_capacity e.entry.flags
                  (call_inference s) e.inference (inference_link e) over))
              t
        | inr going ↦ record {
          refusing = t.refusing;
          preprocessed = t.preprocessed;
          inferred_all = second;
          postprocessed = elim t.postprocessed [ inl more ↦ inl more | inr (over, none_left) ↦ cc ];
        }
      ]

  postprocess-IsSettled : (e : Executor P I O R) → IsSettled e → IsSettled (move_postprocess s e)
  unfolding move_postprocess
  postprocess-IsSettled e t = record {
    refusing = t.refusing;
    preprocessed = t.preprocessed;
    inferred_all = t.inferred_all;
    postprocessed =
        move_link-Settled (is_ended e.inference) e.entry.stage_capacity e.entry.flags
          (call_postprocess s) e.postprocessing (postprocess_link e) refl t.postprocessed;
  }

  deliver-IsSettled :
      (d : List (Item P R)) (e : Executor P I O R) → IsSettled e → IsSettled (deliver d e)
  unfolding deliver
  deliver-IsSettled [] e t = t
  deliver-IsSettled (x ∷ rest) e t = record {
    refusing = t.refusing;
    preprocessed = t.preprocessed;
    inferred_all = t.inferred_all;
    postprocessed = t.postprocessed;
  }

module _ {P I O R : Type 0} where
  -- With a stop requested, room in the stages' queues and nothing to deliver, all threads wait only
  -- when they have ended with nothing left.
  over_or_working :
      (e : Executor P I O R)
      → 0 < e.entry.stage_capacity
      → e.entry.stop_requested ≡ true
      → e.dispatched ≡ []
      → IsSettled e
      → PostprocessWaits e
      → InferenceWaits e
      → PreprocessWaits e
      → work e ≡ 0
  unfolding work
  over_or_working e c h d t w3 w2 w1 =
      ground (arith, c, h, d, t.preprocessed, t.inferred_all, t.postprocessed, w3, w2, w1)

  pub create-IsSettled :
      (has_pipeline : Bool) (capacity stage_capacity : ℕ) (policy : QueueFullPolicy)
      → IsSettled {P = P} {I = I} {O = O} {R = R}
          (create has_pipeline capacity stage_capacity policy)
  unfolding create
  create-IsSettled has_pipeline capacity stage_capacity policy = record {
    refusing = inl refl;
    preprocessed = inl refl;
    inferred_all = inl refl;
    postprocessed = inl refl;
  }

  submit-IsSettled :
      (p : P) (e : Executor P I O R)
      → IsSettled e
      → IsSettled (record e { entry = after_submit e.entry (submit p e.entry) })
  unfolding submit
  submit-IsSettled p e t =
      elim (submit_cases "parallel executor requires a staged pipeline" p e.entry) [
        | inl (same, nothing) ↦ rw same t
        | inr (room, added, taken, takes) ↦ rw added (record {
          refusing = t.refusing;
          preprocessed = inl (ground (arith, takes, t.refusing, t.preprocessed));
          inferred_all = t.inferred_all;
          postprocessed = t.postprocessed;
        })
      ]

  pub stop-IsSettled :
      (m : StopMode) (e : Executor P I O R) → IsSettled e → IsSettled (request_stop m e)
  unfolding request_stop stop_entry
  stop-IsSettled graceful e t = record {
    refusing = inr refl;
    preprocessed = elim t.preprocessed [
      | inl more ↦ inl more
      | inr (last, none_left) ↦ inr (refl, none_left)
    ];
    inferred_all = t.inferred_all;
    postprocessed = t.postprocessed;
  }
  stop-IsSettled immediate e t = record {
    refusing = inr refl;
    preprocessed = elim t.preprocessed [
      | inl more ↦ inl more
      | inr (last, none_left) ↦ inr (refl, none_left)
    ];
    inferred_all = t.inferred_all;
    postprocessed = t.postprocessed;
  }

  cancel-IsSettled :
      (done : List ℕ) (i : ℕ) (e : Executor P I O R)
      → IsSettled e
      → IsSettled (record e { entry = cancel_entry done i e.entry })
  cancel-IsSettled done i e t =
      let (f, only) = cancel_entry-keeps done i e.entry in
      rw only (record {
        refusing = t.refusing;
        preprocessed = t.preprocessed;
        inferred_all = t.inferred_all;
        postprocessed = t.postprocessed;
      })

  pub deliver-keeps : (d : List (Item P R)) (e : Executor P I O R) → (deliver d e).entry ≡ e.entry
  unfolding deliver
  deliver-keeps [] e = refl
  deliver-keeps (t ∷ rest) e = refl

  pub finished :
      (e : Executor P I O R)
      → work e ≡ 0
      → (e.entry.queue ≡ [])
        × (e.prepared ≡ [])
        × (e.inferred ≡ [])
        × (e.dispatched ≡ [])
        × (e.preprocessing ≡ ended)
        × (e.inference ≡ ended)
        × (e.postprocessing ≡ ended)
  unfolding work
  finished e z = ground (arith, z)

module _ {P I O R : Type 0} (s : Stages P I O R) where
  step-IsSettled : (v : Event P) (e : Executor P I O R) → IsSettled e → IsSettled (step s v e)
  unfolding step
  step-IsSettled (submits p) e t = submit-IsSettled p e t
  step-IsSettled (stops m) e t = stop-IsSettled m e t
  step-IsSettled (cancels i) e t = cancel-IsSettled (ids e.completed) i e t
  step-IsSettled preprocesses e t = preprocess-IsSettled s e t
  step-IsSettled infers e t = inference-IsSettled s e t
  step-IsSettled postprocesses e t = postprocess-IsSettled s e t
  step-IsSettled delivers e t = deliver-IsSettled s e.dispatched e t

  pub play-IsSettled :
      (vs : List (Event P)) (e : Executor P I O R) → IsSettled e → IsSettled (play s vs e)
  unfolding play
  play-IsSettled [] e t = t
  play-IsSettled (v ∷ vs) e t = play-IsSettled vs (step s v e) (step-IsSettled v e t)

  postprocess_no_more : (e : Executor P I O R) → work (move_postprocess s e) ≤ work e
  postprocess_no_more e = elim (postprocess-work s e) [
    | inl (same, w) ↦ rw same (omega arith)
    | inr less ↦ omega (arith, less)
  ]

  inference_no_more : (e : Executor P I O R) → work (move_inference s e) ≤ work e
  inference_no_more e = elim (inference-work s e) [
    | inl (same, w) ↦ rw same (omega arith)
    | inr less ↦ omega (arith, less)
  ]

  preprocess_no_more : (e : Executor P I O R) → work (move_preprocess s e) ≤ work e
  preprocess_no_more e = elim (preprocess-work s e) [
    | inl (same, w) ↦ rw same (omega arith)
    | inr less ↦ omega (arith, less)
  ]

  -- One turn of each of the four threads.
  abbrev pub round : List (Event P)
  round = delivers ∷ postprocesses ∷ infers ∷ preprocesses ∷ []

  abbrev pub rounds : ℕ → List (Event P)
  rounds zero = []
  rounds (suc n) = round ++ rounds n

  pub round-IsSettled : (e : Executor P I O R) → IsSettled e → IsSettled (play s round e)
  round-IsSettled e t = play-IsSettled round e t

  round-keeps :
      (e : Executor P I O R)
      → ((play s round e).entry.stage_capacity ≡ e.entry.stage_capacity)
        × ((play s round e).entry.stop_requested ≡ e.entry.stop_requested)
  unfolding play step move_preprocess move_inference move_postprocess
  round-keeps e =
      let same = deliver-keeps e.dispatched e in
      (ap (λ n. n.stage_capacity) same, ap (λ n. n.stop_requested) same)

  -- A round uses up work, or there is none left.
  round_works :
      (e : Executor P I O R)
      → 0 < e.entry.stage_capacity
      → e.entry.stop_requested ≡ true
      → IsSettled e
      → (work (play s round e) < work e) ⊎ (work e ≡ 0)
  unfolding play step
  round_works e c h t =
      let e1 = deliver e.dispatched e in
      let e2 = move_postprocess s e1 in
      let e3 = move_inference s e2 in
      let no_more2 = postprocess_no_more e1 in
      let no_more3 = inference_no_more e2 in
      let no_more4 = preprocess_no_more e3 in
      elim (deliver-work e.dispatched e refl) [
        | inr less ↦ inl (omega (arith, less, no_more2, no_more3, no_more4))
        | inl (same1, none_left) ↦ elim (postprocess-work s e1) [
          | inr less ↦ inl (omega (arith, less, ap work same1, no_more3, no_more4))
          | inl (same2, w3) ↦
              let back2 : e2 ≡ e = same2 ∙ same1 in
              elim (inference-work s e2) [
                | inr less ↦ inl (omega (arith, less, ap work back2, no_more4))
                | inl (same3, w2) ↦
                    let back3 : e3 ≡ e = same3 ∙ back2 in
                    elim (preprocess-work s e3) [
                      | inr less ↦ inl (omega (arith, less, ap work back3))
                      | inl (same4, w1) ↦ inr (
                          over_or_working e c h none_left t
                            (subst (λ x. PostprocessWaits x) same1 w3)
                            (subst (λ x. InferenceWaits x) back2 w2)
                            (subst (λ x. PreprocessWaits x) back3 w1))
                    ]
              ]
        ]
      ]

  pub play-append :
      (us vs : List (Event P)) (e : Executor P I O R)
      → play s (us ++ vs) e ≡ play s vs (play s us e)
  unfolding play
  play-append [] vs e = refl
  play-append (u ∷ us) vs e = play-append us vs (step s u e)

  round_no_more : (e : Executor P I O R) → work (play s round e) ≤ work e
  unfolding play step
  round_no_more e =
      let e1 = deliver e.dispatched e in
      let no_more1 : work e1 ≤ work e = elim (deliver-work e.dispatched e refl) [
        | inl (same, none_left) ↦ rw same (omega arith)
        | inr less ↦ omega (arith, less)
      ] in
      omega (
        arith,
        no_more1,
        postprocess_no_more e1,
        inference_no_more (move_postprocess s e1),
        preprocess_no_more (move_inference s (move_postprocess s e1)),
      )

  nothing_played : (e : Executor P I O R) → work (play s [] e) ≡ work e
  unfolding play
  nothing_played e = refl

  pub rounds_finish :
      (n : ℕ) (e : Executor P I O R)
      → 0 < e.entry.stage_capacity
      → e.entry.stop_requested ≡ true
      → IsSettled e
      → work e ≤ n
      → work (play s (rounds n) e) ≡ 0
  rounds_finish zero e c h t b = omega (arith, b, nothing_played e)
  rounds_finish (suc n) e c h t b =
      let (capacity, stop) = round-keeps e in
      rw (play-append round (rounds n) e) (
        rounds_finish n (play s round e) (rw capacity c) (rw stop h) (round-IsSettled e t)
          (elim (round_works e c h t) [
            | inl less ↦ omega (arith, less, b)
            | inr over ↦ omega (arith, over, round_no_more e)
          ]))
