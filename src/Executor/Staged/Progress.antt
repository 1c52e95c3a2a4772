-- ===== src/Executor/Staged/Progress.antt =====
-- How far the threads of Runtime/include/executor/parallelPipelineExecutor.hpp and
-- batchPipelineExecutor.hpp get: each of their steps uses up work, or the thread waits.
use vision_runtime.Prelude.{
  ℕ, ◌+◌, ◌*◌, ◌<◌, ◌≤◌, Bool, true, false, ltb, ◌≡◌, refl, List, [], ◌∷◌, length, length-append,
  arith, Bool-cases, inl, inr, ◌⊎◌,
}
use vision_runtime.Core.Status.{Result}
use vision_runtime.Executor.Staged.{
  Item, Flags, Worker, resting, ended, holding, calling, handing, Link, take_item, hand_over,
  move_link, is_cancelled, is_ended,
}

module _ {P A B : Type 0} where
  abbrev pub worker_work : ℕ → Worker P A B → ℕ
  worker_work cost (holding t) = cost + 4
  worker_work cost (calling t) = cost + 3
  worker_work cost (handing t) = cost + 2
  worker_work cost resting = 1
  worker_work cost ended = 0

  -- The steps that the tasks of a link still need, when each task in the output needs `cost`.
  abbrev pub link_work : ℕ → Link P A B → ℕ
  link_work cost l =
      length l.output * cost + (worker_work cost l.worker + length l.input * (cost + 4))

  -- The thread waits: for room in its output, for a task that can still come, or it has ended.
  abbrev pub Waits : Bool → ℕ → Link P A B → Worker P A B → Type 0
  Waits last capacity l resting = (l.input ≡ []) × (last ≡ false)
  Waits last capacity l ended = Unit {0}
  Waits last capacity l (handing t) = capacity ≤ length l.output
  Waits last capacity l (holding t) = ⊥
  Waits last capacity l (calling t) = ⊥

  take_item-work :
      (cost : ℕ) (last : Bool) (ts : List (Item P A)) (l : Link P A B)
      → l.input ≡ ts
      → l.worker ≡ resting
      → ((take_item last ts l ≡ l) × (ts ≡ []) × (last ≡ false))
        ⊎ (link_work cost (take_item last ts l) < link_work cost l)
  unfolding take_item
  take_item-work cost false [] l q r = inl (refl, refl, refl)
  take_item-work cost true [] l q r = inr (rw (r, q) (omega arith))
  take_item-work cost last (t ∷ ts) l q r = inr (rw (r, q) (omega arith))

  hand_over-work :
      (cost capacity : ℕ) (t : Item P B) (l : Link P A B)
      → l.worker ≡ handing t
      → ((hand_over capacity t l ≡ l) × (capacity ≤ length l.output))
        ⊎ (link_work cost (hand_over capacity t l) < link_work cost l)
  unfolding hand_over
  hand_over-work cost capacity t l q = elim (Bool-cases (ltb (length l.output) capacity)) [
    | inl room ↦ inr (rw (room, q, length-append l.output (t ∷ [])) (omega arith))
    | inr full ↦ inl (rw full refl, ground (arith, full))
  ]

  -- A step of a stage's thread uses up work, or changes nothing because the thread waits.
  pub move_link-work :
      (cost : ℕ) (last : Bool) (capacity : ℕ) (f : Flags) (call : A → Result B) (w : Worker P A B)
      (l : Link P A B)
      → l.worker ≡ w
      → ((move_link last capacity f call w l ≡ l) × Waits last capacity l w)
        ⊎ (link_work cost (move_link last capacity f call w l) < link_work cost l)
  unfolding move_link
  move_link-work cost last capacity f call resting l q =
      elim (take_item-work cost last l.input l refl q) [
        | inl (same, none_left, more) ↦ inl (same, (none_left, more))
        | inr less ↦ inr less
      ]
  move_link-work cost last capacity f call (holding t) l q =
      inr (elim (Bool-cases (is_cancelled f t.id)) [
        | inl stop ↦ rw (stop, q) (omega arith)
        | inr go ↦ rw (go, q) (omega arith)
      ])
  move_link-work cost last capacity f call (calling t) l q = inr (rw q (omega arith))
  move_link-work cost last capacity f call (handing t) l q = hand_over-work cost capacity t l q
  move_link-work cost last capacity f call ended l q = inl (refl, tt)

-- A thread that has ended has left no task in its input, which can get no further one.
abbrev pub Settled {ℓ} : {A : Type ℓ} → Bool → Bool → List A → Type ℓ
Settled last over input = (over ≡ false) ⊎ ((last ≡ true) × (input ≡ []))

module _ {P A B : Type 0} where
  take_item-Settled :
      (last : Bool) (ts : List (Item P A)) (l : Link P A B)
      → l.input ≡ ts
      → l.worker ≡ resting
      → Settled last (is_ended (take_item last ts l).worker) (take_item last ts l).input
  unfolding take_item
  take_item-Settled false [] l q r = inl (rw r refl)
  take_item-Settled true [] l q r = inr (refl, q)
  take_item-Settled last (t ∷ ts) l q r = inl refl

  hand_over-over :
      (capacity : ℕ) (t : Item P B) (l : Link P A B)
      → l.worker ≡ handing t
      → is_ended (hand_over capacity t l).worker ≡ false
  unfolding hand_over
  hand_over-over capacity t l q = elim (Bool-cases (ltb (length l.output) capacity)) [
    | inl room ↦ rw room refl
    | inr full ↦ rw (full, q) refl
  ]

  -- A step leaves a thread settled; a thread that has ended does nothing more.
  pub move_link-Settled :
      (last : Bool) (capacity : ℕ) (f : Flags) (call : A → Result B) (w : Worker P A B)
      (l : Link P A B)
      → l.worker ≡ w
      → Settled last (is_ended l.worker) l.input
      → Settled last
          (is_ended (move_link last capacity f call w l).worker)
          (move_link last capacity f call w l).input
  unfolding move_link
  move_link-Settled last capacity f call resting l q s = take_item-Settled last l.input l refl q
  move_link-Settled last capacity f call (holding t) l q s =
      elim (Bool-cases (is_cancelled f t.id)) [
        | inl stop ↦ rw stop (inl refl)
        | inr go ↦ rw go (inl refl)
      ]
  move_link-Settled last capacity f call (calling t) l q s = inl refl
  move_link-Settled last capacity f call (handing t) l q s = inl (hand_over-over capacity t l q)
  move_link-Settled last capacity f call ended l q s = s

  pub move_link-over :
      (last : Bool) (capacity : ℕ) (f : Flags) (call : A → Result B) (w : Worker P A B)
      (l : Link P A B)
      → is_ended w ≡ true
      → move_link last capacity f call w l ≡ l
  unfolding move_link
  move_link-over last capacity f call ended l h = refl
  move_link-over last capacity f call resting l h = cc
  move_link-over last capacity f call (holding t) l h = cc
  move_link-over last capacity f call (calling t) l h = cc
  move_link-over last capacity f call (handing t) l h = cc
