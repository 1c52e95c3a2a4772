-- ===== src/Executor/Staged/Tasks.antt =====
-- The tasks in the hands of a stage's thread, in the threads of
-- Runtime/include/executor/parallelPipelineExecutor.hpp and batchPipelineExecutor.hpp.
use mathlib.Core.List.{append_assoc, map-append}
use vision_runtime.Prelude.{
  ℕ, ◌+◌, ◌<◌, ◌≤◌, Bool, true, false, ltb, not, ◌&&◌, ◌≡◌, refl, ap, List, [], ◌∷◌, ◌++◌, map,
  length, length-append, arith, Bool-cases, inl, inr, ◌⊎◌, String,
}
use vision_runtime.Core.Status.{Result}
use vision_runtime.Executor.Serial.{StopMode, graceful, immediate}
use vision_runtime.Executor.Staged.{
  Item, Flags, Worker, resting, ended, holding, calling, handing, Link, Entry, Submitted, accepted,
  rejected, waits, submit_entry, after_submit, stop_entry, cancel_entry, take_item, hand_over,
  move_link, is_cancelled, enqueue, mem,
}

-- A task as the client knows it: its number and the packet.
abbrev pub Task : Type 0 → Type 0
Task P = ℕ × P

-- Packets with their numbers from i on.
unfoldable pub number : {P : Type 0} → ℕ → List P → List (Task P)
number i [] = []
number i (p ∷ ps) = (i, p) ∷ number (i + 1) ps

pub number-snoc :
    {P : Type 0} (i : ℕ) (ps : List P) (p : P)
    → number i (ps ++ p ∷ []) ≡ number i ps ++ (i + length ps, p) ∷ []
unfolding number
number-snoc i [] p = ap (λ k. (k, p) ∷ []) (omega arith)
number-snoc i (q ∷ ps) p =
    rw (number-snoc (i + 1) ps p)
      (ap (λ k. (i, q) ∷ (number (i + 1) ps ++ (k, p) ∷ [])) (omega arith))

module _ {P : Type 0} where
  abbrev pub task_of : {A : Type 0} → Item P A → Task P
  task_of t = (t.id, t.packet)

  abbrev pub tasks : {A : Type 0} → List (Item P A) → List (Task P)
  tasks = map task_of

  abbrev pub worker_tasks : {A B : Type 0} → Worker P A B → List (Task P)
  worker_tasks (holding t) = task_of t ∷ []
  worker_tasks (calling t) = task_of t ∷ []
  worker_tasks (handing t) = task_of t ∷ []
  worker_tasks resting = []
  worker_tasks ended = []

  -- The tasks of a link, those furthest along first.
  abbrev pub link_tasks : {A B : Type 0} → Link P A B → List (Task P)
  link_tasks l = tasks l.output ++ (worker_tasks l.worker ++ tasks l.input)

module _ {P A B : Type 0} where
  take_item-tasks :
      (last : Bool) (ts : List (Item P A)) (l : Link P A B)
      → l.input ≡ ts
      → l.worker ≡ resting
      → link_tasks (take_item last ts l) ≡ link_tasks l
  unfolding take_item
  take_item-tasks false [] l q r = refl
  take_item-tasks true [] l q r = rw r refl
  take_item-tasks last (t ∷ ts) l q r = rw (r, q) refl

  hand_over-tasks :
      (capacity : ℕ) (t : Item P B) (l : Link P A B)
      → l.worker ≡ handing t
      → link_tasks (hand_over capacity t l) ≡ link_tasks l
  unfolding hand_over
  hand_over-tasks capacity t l q = elim (Bool-cases (ltb (length l.output) capacity)) [
    | inl room ↦ rw (room, q) (simp (map-append, append_assoc) refl)
    | inr full ↦ rw full refl
  ]

  pub move_link-tasks :
      (last : Bool) (capacity : ℕ) (f : Flags) (call : A → Result B) (w : Worker P A B)
      (l : Link P A B)
      → l.worker ≡ w
      → link_tasks (move_link last capacity f call w l) ≡ link_tasks l
  unfolding move_link
  move_link-tasks last capacity f call resting l q = take_item-tasks last l.input l refl q
  move_link-tasks last capacity f call (holding t) l q = elim (Bool-cases (is_cancelled f t.id)) [
    | inl stop ↦ rw (stop, q) refl
    | inr go ↦ rw (go, q) refl
  ]
  move_link-tasks last capacity f call (calling t) l q = rw q refl
  move_link-tasks last capacity f call (handing t) l q = hand_over-tasks capacity t l q
  move_link-tasks last capacity f call ended l q = refl

module _ {P : Type 0} where
  -- The packet that a submission gets accepted.
  abbrev pub accepted_packet : P → Submitted P → List P
  accepted_packet p (accepted i e) = p ∷ []
  accepted_packet p (rejected s) = []
  accepted_packet p waits = []

  -- A submission leaves the entry as it was, or finds room and appends its task.
  pub submit_cases :
      (requires : String) (p : P) (e : Entry P)
      → ((after_submit e (submit_entry requires p e) ≡ e)
          × (accepted_packet p (submit_entry requires p e) ≡ []))
        ⊎ ((length e.queue < e.queue_capacity)
            × (after_submit e (submit_entry requires p e) ≡ enqueue p e)
            × (accepted_packet p (submit_entry requires p e) ≡ p ∷ [])
            × (e.accepting ≡ true))
  unfolding submit_entry
  submit_cases requires p e = ground arith

  -- The room that an entry leaves, and what a submission, a stop and a cancellation keep.
  pub stop_entry-queue : (m : StopMode) (e : Entry P) → (stop_entry m e).queue ≡ e.queue
  unfolding stop_entry
  stop_entry-queue graceful e = refl
  stop_entry-queue immediate e = refl

  pub stop_entry-keeps :
      (m : StopMode) (e : Entry P)
      → ((stop_entry m e).next_id ≡ e.next_id)
        × ((stop_entry m e).queue_capacity ≡ e.queue_capacity)
        × ((stop_entry m e).stage_capacity ≡ e.stage_capacity)
  unfolding stop_entry
  stop_entry-keeps graceful e = (refl, refl, refl)
  stop_entry-keeps immediate e = (refl, refl, refl)

  pub cancel_entry-keeps :
      (done : List ℕ) (i : ℕ) (e : Entry P)
      → (f : Flags) × (cancel_entry done i e ≡ record e { flags = f })
  unfolding cancel_entry
  cancel_entry-keeps done i e = elim (Bool-cases (ltb i e.next_id && not (mem i done))) [
    | inl set ↦ (record e.flags { requested = i ∷ e.flags.requested }, rw set refl)
    | inr same ↦ (e.flags, rw same refl)
  ]

module _ {P A B : Type 0} where
  take_item-input :
      (last : Bool) (ts : List (Item P A)) (l : Link P A B)
      → l.input ≡ ts
      → (length (take_item last ts l).input ≤ length l.input)
        × ((take_item last ts l).output ≡ l.output)
  unfolding take_item
  take_item-input false [] l q = (omega arith, refl)
  take_item-input true [] l q = (omega arith, refl)
  take_item-input last (t ∷ ts) l q = (rw q (omega arith), refl)

  hand_over-room :
      (capacity : ℕ) (t : Item P B) (l : Link P A B)
      → length l.output ≤ capacity
      → length (hand_over capacity t l).output ≤ capacity
  unfolding hand_over
  hand_over-room capacity t l b = elim (Bool-cases (ltb (length l.output) capacity)) [
    | inl room ↦ rw (room, length-append l.output (t ∷ [])) (ground (arith, room))
    | inr full ↦ rw full b
  ]

  hand_over-input :
      (capacity : ℕ) (t : Item P B) (l : Link P A B) → (hand_over capacity t l).input ≡ l.input
  unfolding hand_over
  hand_over-input capacity t l = ground arith

  -- A step adds nothing to the input, and does not overfill the output.
  pub move_link-room :
      (last : Bool) (capacity : ℕ) (f : Flags) (call : A → Result B) (w : Worker P A B)
      (l : Link P A B)
      → length l.output ≤ capacity
      → (length (move_link last capacity f call w l).input ≤ length l.input)
        × (length (move_link last capacity f call w l).output ≤ capacity)
  unfolding move_link
  move_link-room last capacity f call resting l b =
      let (i, o) = take_item-input last l.input l refl in (i, rw o b)
  move_link-room last capacity f call (holding t) l b = (omega arith, b)
  move_link-room last capacity f call (calling t) l b = (omega arith, b)
  move_link-room last capacity f call (handing t) l b =
      (rw (hand_over-input capacity t l) (omega arith), hand_over-room capacity t l b)
  move_link-room last capacity f call ended l b = (omega arith, b)
