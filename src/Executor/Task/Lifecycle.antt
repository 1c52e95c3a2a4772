-- ===== src/Executor/Task/Lifecycle.antt =====
-- `complete` and `cancel` of Runtime/include/executor/executorTask.hpp and taskHandle.hpp.
use vision_runtime.Prelude.{
  ◌||◌, true, false, ◌≡◌, refl, ◌↔◌, inl, inr, none, some, arith, Bool-cases,
}
use vision_runtime.Core.Status.{Result, success, failure}
use vision_runtime.Executor.Task.{
  Shared, notified, new_shared, is_pending, cancel, complete, final_state, is_cancelled_code,
}

module _ {R : Type 0} where
  -- The shared state is pending while the promise is open, and otherwise the state of its value.
  pub record IsConsistent (s : Shared R) : Type 0 where
    pub pending : s.delivered ≡ none → is_pending s.state ≡ true
    pub final : (r : Result R) → s.delivered ≡ some r → s.state ≡ final_state r

  new_shared-IsConsistent : IsConsistent new_shared
  new_shared-IsConsistent = record { pending = λ e. refl; final = λ r e. absurd (ground arith) }

  settled : (r : Result R) → is_pending (final_state r) ≡ false
  settled (success x) = refl
  settled (failure x) = elim (Bool-cases (is_cancelled_code x.code)) [
    | inl c ↦ rw c refl
    | inr c ↦ rw c refl
  ]

  -- Completing a task whose promise is open sets it to the result and the state to the final one
  -- that the result calls for, and leaves the request to cancel as it was.
  pub complete_once :
      (r : Result R) (s : Shared R)
      → s.delivered ≡ none
      → (t : Shared R) × (complete r s ≡ notified t)
        × IsConsistent t
        × (t.delivered ≡ some r)
        × (is_pending t.state ≡ false)
        × (t.cancel_requested ≡ s.cancel_requested)
  unfolding complete
  complete_once r s e =
      let t : Shared R = record s { state = final_state r; delivered = some r } in
      (
        t,
        rw e refl,
        record { pending = λ q. cc; final = λ x q. ground arith },
        refl,
        settled r,
        refl,
      )

  -- A handle's request to cancel succeeds exactly when the task is pending and nobody asked before.
  -- Afterwards the task has a request if it had one or this one succeeded; the state and the result
  -- are as before, and a second request fails.
  pub cancel_lem :
      (s : Shared R)
      → (((cancel s).1 ≡ true) ↔ ((is_pending s.state ≡ true) × (s.cancel_requested ≡ false)))
        × ((cancel s).0.cancel_requested ≡ (s.cancel_requested || (cancel s).1))
        × ((cancel s).0.state ≡ s.state)
        × ((cancel s).0.delivered ≡ s.delivered)
        × ((cancel (cancel s).0).1 ≡ false)
  unfolding cancel
  cancel_lem s = ground arith
