-- ===== src/Executor/Parallel/Completion.antt =====
-- The end of a run of Runtime/include/executor/parallelPipelineExecutor.hpp.
use mathlib.Core.List.{append-nil}
use vision_runtime.Prelude.{
  ℕ, zero, suc, ◌+◌, ◌^◌, ◌<◌, Bool, true, inl, inr, ◌≡◌, refl, ap, ◌∙◌, List, [], ◌∷◌, length,
  arith,
}
use vision_runtime.Executor.Serial.{QueueFullPolicy, StopMode, graceful, immediate}
use vision_runtime.Executor.Staged.{Entry, after_submit, cancel_entry, ids, ended, stop_entry}
use vision_runtime.Executor.Staged.Tasks.{submit_cases, cancel_entry-keeps, number, tasks}
use vision_runtime.Executor.Staged.Right.{AllStand}
use vision_runtime.Executor.Parallel.{
  submit, submits, stops, cancels, preprocesses, infers, postprocesses, delivers, move_preprocess,
  move_inference, move_postprocess, Stages, Executor, Event, create, request_stop, play, step,
}
use vision_runtime.Executor.Parallel.Order.{
  IsOrdered, create-IsOrdered, play-IsOrdered, stop-IsOrdered, preprocess-IsOrdered,
  inference-IsOrdered, postprocess-IsOrdered, deliver-IsOrdered, accepted_packets,
}
use vision_runtime.Executor.Parallel.Results.{
  create-IsRight, play-IsRight, stop-IsRight, outcome_of,
}
use vision_runtime.Executor.Parallel.Draining.{
  create-IsSettled, play-IsSettled, stop-IsSettled, work, round, rounds, rounds_finish, finished,
  deliver-keeps,
}

module _ {P I O R : Type 0} (s : Stages P I O R) where
  round-IsOrdered :
      (e : Executor P I O R) (ps : List P) → IsOrdered e ps → IsOrdered (play s (round s) e) ps
  unfolding play step
  round-IsOrdered e ps o = preprocess-IsOrdered s _ ps (
      inference-IsOrdered s _ ps
        (postprocess-IsOrdered s _ ps (deliver-IsOrdered e.dispatched e ps refl o)))

  rounds-IsOrdered :
      (n : ℕ) (e : Executor P I O R) (ps : List P)
      → IsOrdered e ps
      → IsOrdered (play s (rounds s n) e) ps
  unfolding play
  rounds-IsOrdered zero e ps o = o
  rounds-IsOrdered (suc n) e ps o =
      rounds-IsOrdered n (play s (round s) e) ps (round-IsOrdered e ps o)

  stop_requested_lem :
      (m : StopMode) (e : Executor P I O R) → (request_stop m e).entry.stop_requested ≡ true
  unfolding request_stop stop_entry
  stop_requested_lem graceful e = refl
  stop_requested_lem immediate e = refl

  stop-capacity :
      (m : StopMode) (e : Executor P I O R)
      → (request_stop m e).entry.stage_capacity ≡ e.entry.stage_capacity
  unfolding request_stop stop_entry
  stop-capacity graceful e = refl
  stop-capacity immediate e = refl

  submit-capacity :
      (p : P) (n : Entry P) → (after_submit n (submit p n)).stage_capacity ≡ n.stage_capacity
  unfolding submit
  submit-capacity p n = elim (submit_cases "parallel executor requires a staged pipeline" p n) [
    | inl (same, nothing) ↦ rw same refl
    | inr (room, added, taken, takes) ↦ rw added refl
  ]

  cancel-capacity :
      (done : List ℕ) (i : ℕ) (n : Entry P)
      → (cancel_entry done i n).stage_capacity ≡ n.stage_capacity
  cancel-capacity done i n = let (f, only) = cancel_entry-keeps done i n in rw only refl

  step-capacity :
      (v : Event P) (e : Executor P I O R)
      → (step s v e).entry.stage_capacity ≡ e.entry.stage_capacity
  unfolding step move_preprocess move_inference move_postprocess
  step-capacity (submits p) e = submit-capacity p e.entry
  step-capacity (stops m) e = stop-capacity m e
  step-capacity (cancels i) e = cancel-capacity (ids e.completed) i e.entry
  step-capacity preprocesses e = refl
  step-capacity infers e = refl
  step-capacity postprocesses e = refl
  step-capacity delivers e = ap (λ n. n.stage_capacity) (deliver-keeps e.dispatched e)

  play-capacity :
      (vs : List (Event P)) (e : Executor P I O R)
      → (play s vs e).entry.stage_capacity ≡ e.entry.stage_capacity
  unfolding play
  play-capacity [] e = refl
  play-capacity (v ∷ vs) e = play-capacity vs (step s v e) ∙ step-capacity v e

  create-capacity :
      (has_pipeline : Bool) (capacity stage_capacity : ℕ) (policy : QueueFullPolicy)
      → (create {P = P} {I = I} {O = O} {R = R} has_pipeline capacity stage_capacity
          policy).entry.stage_capacity
        ≡ stage_capacity
  unfolding create
  create-capacity has_pipeline capacity stage_capacity policy = refl

  all_done :
      (e : Executor P I O R) (ps : List P)
      → IsOrdered e ps
      → work e ≡ 0
      → tasks e.completed ≡ number 1 ps
  all_done e ps o z =
      let (q0, q1, q2, q3, w1, w2, w3) = finished e z in
      rw (q0, q1, q2, q3, w1, w2, w3, append-nil (tasks e.completed)) at o.numbered

  -- After any turns in any order, and then a stop, of either kind, of an executor whose stage queues
  -- have room for a task: once each thread has had as many turns as there is work left, all three
  -- threads of the stages have ended, no task is left in a queue, and the completed tasks are the
  -- accepted packets in the order of their submission, each with the result of the three stages or,
  -- if it was cancelled, with the cancelled result.
  pub stop_completes_all :
      (has_pipeline : Bool) (capacity stage_capacity : ℕ) (policy : QueueFullPolicy)
      (vs : List (Event P)) (m : StopMode)
      → length vs + 1 < 2 ^ 64
      → 0 < stage_capacity
      → let first = create has_pipeline capacity stage_capacity policy in
        let stopped = request_stop m (play s vs first) in
        let e = play s (rounds s (work stopped)) stopped in
        (e.entry.queue ≡ [])
        × (e.preprocessing ≡ ended)
        × (e.inference ≡ ended)
        × (e.postprocessing ≡ ended)
        × (tasks e.completed ≡ number 1 (accepted_packets s vs first))
        × AllStand e.entry.flags (outcome_of s) e.completed
  stop_completes_all has_pipeline capacity stage_capacity policy vs m l c =
      let first : Executor P I O R = create has_pipeline capacity stage_capacity policy in
      let before = play s vs first in
      let stopped = request_stop m before in
      let e = play s (rounds s (work stopped)) stopped in
      let settled = stop-IsSettled m before (
        play-IsSettled s vs first (create-IsSettled has_pipeline capacity stage_capacity policy)) in
      let ordered = stop-IsOrdered m before (accepted_packets s vs first) (
        play-IsOrdered s vs first [] (omega arith)
          (create-IsOrdered has_pipeline capacity stage_capacity policy)) in
      let right = play-IsRight s (rounds s (work stopped)) stopped (
        stop-IsRight s m before (
          play-IsRight s vs first
            (create-IsRight s has_pipeline capacity stage_capacity policy))) in
      let roomy : 0 < stopped.entry.stage_capacity =
        rw
          (
            stop-capacity m before,
            play-capacity vs first,
            create-capacity has_pipeline capacity stage_capacity policy,
          )
          c in
      let none_left =
        rounds_finish s (work stopped) stopped roomy (stop_requested_lem m before) settled
          (omega arith) in
      let (q0, q1, q2, q3, w1, w2, w3) = finished e none_left in
      (
        q0,
        w1,
        w2,
        w3,
        all_done e (accepted_packets s vs first)
            (rounds-IsOrdered (work stopped) stopped (accepted_packets s vs first) ordered)
            none_left,
        right.done,
      )
