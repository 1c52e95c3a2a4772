-- ===== src/Executor/Staged/Right.antt =====
-- The values of the tasks on their way (through before call) the stages of
-- Runtime/include/executor/parallelPipelineExecutor.hpp and batchPipelineExecutor.hpp.
use vision_runtime.Prelude.{
  ℕ, Bool, true, false, ltb, not, ◌&&◌, ◌≡◌, refl, ap, List, [], ◌∷◌, length, ◌++◌, arith,
  Bool-cases, inl, inr, ◌⊎◌, if◌then◌else◌,
}
use vision_runtime.Core.Status.{Result, ◌>>=◌}
use vision_runtime.Executor.Serial.{StopMode, graceful, immediate, cancelled_result}
use vision_runtime.Executor.Staged.{
  Item, Flags, Worker, resting, ended, holding, calling, handing, Link, Entry, stop_entry,
  cancel_entry, take_item, hand_over, move_link, is_cancelled, mem, with_value,
}

-- One set of flags is set where another is.
abbrev pub Keeps : Flags → Flags → Type 0
Keeps f g = (i : ℕ) → is_cancelled f i ≡ true → is_cancelled g i ≡ true

module _ {P A : Type 0} where
  -- A task has the value it should have, or it was cancelled and has the cancelled result.
  abbrev pub Stands : Flags → (P → Result A) → Item P A → Type 0
  Stands f want t =
      (t.value ≡ want t.packet) ⊎ ((t.value ≡ cancelled_result) × (is_cancelled f t.id ≡ true))

  abbrev pub AllStand : Flags → (P → Result A) → List (Item P A) → Type 0
  AllStand f want [] = Unit {0}
  AllStand f want (t ∷ ts) = Stands f want t × AllStand f want ts

  pub Stands-keep :
      (f g : Flags) (want : P → Result A) (t : Item P A)
      → Keeps f g
      → Stands f want t
      → Stands g want t
  Stands-keep f g want t k (inl q) = inl q
  Stands-keep f g want t k (inr (q, c)) = inr (q, k t.id c)

  pub AllStand-keep :
      (f g : Flags) (want : P → Result A) (ts : List (Item P A))
      → Keeps f g
      → AllStand f want ts
      → AllStand g want ts
  AllStand-keep f g want [] k a = tt
  AllStand-keep f g want (t ∷ ts) k (s, a) =
      (Stands-keep f g want t k s, AllStand-keep f g want ts k a)

  pub AllStand-snoc :
      (f : Flags) (want : P → Result A) (ts : List (Item P A)) (t : Item P A)
      → AllStand f want ts
      → Stands f want t
      → AllStand f want (ts ++ t ∷ [])
  AllStand-snoc f want [] t a s = (s, tt)
  AllStand-snoc f want (u ∷ ts) t (s', a) s = (s', AllStand-snoc f want ts t a s)

module _ {P A B : Type 0} where
  abbrev pub WorkerStands : Flags → (P → Result A) → (P → Result B) → Worker P A B → Type 0
  WorkerStands f before after (holding t) = Stands f before t
  WorkerStands f before after (calling t) = Stands f before t
  WorkerStands f before after (handing t) = Stands f after t
  WorkerStands f before after resting = Unit {0}
  WorkerStands f before after ended = Unit {0}

  pub record LinkStands (f : Flags) (before : P → Result A) (after : P → Result B) (l : Link P A B)
      : Type 0 where
    pub entering : AllStand f before l.input
    pub working : WorkerStands f before after l.worker
    pub leaving : AllStand f after l.output

  pub WorkerStands-keep :
      (f g : Flags) (before : P → Result A) (after : P → Result B) (w : Worker P A B)
      → Keeps f g
      → WorkerStands f before after w
      → WorkerStands g before after w
  WorkerStands-keep f g before after (holding t) k s = Stands-keep f g before t k s
  WorkerStands-keep f g before after (calling t) k s = Stands-keep f g before t k s
  WorkerStands-keep f g before after (handing t) k s = Stands-keep f g after t k s
  WorkerStands-keep f g before after resting k s = tt
  WorkerStands-keep f g before after ended k s = tt

-- What a stage makes of what should come in.
abbrev pub through : {P A B : Type 0} → (P → Result A) → (A → Result B) → P → Result B
through before call p = before p >>= call

module _ {P A B : Type 0} (f : Flags) (before : P → Result A) (call : A → Result B) where
  -- The second test for cancellation decides between the stage's answer and the cancelled result.
  pub called-Stands :
      (t : Item P A)
      → Stands f before t
      → Stands f
          (through before call)
          (with_value t (if is_cancelled f t.id then cancelled_result else t.value >>= call))
  called-Stands t s = elim (Bool-cases (is_cancelled f t.id)) [
    | inl stop ↦ rw stop (inr (refl, refl))
    | inr go ↦ rw go (elim s [
      | inl q ↦ inl (ap (λ v. v >>= call) q)
      | inr (q, c) ↦ inr (ap (λ v. v >>= call) q, cc)
    ])
  ]

  take_item-LinkStands :
      (last : Bool) (ts : List (Item P A)) (l : Link P A B)
      → l.input ≡ ts
      → LinkStands f before (through before call) l
      → LinkStands f before (through before call) (take_item last ts l)
  unfolding take_item
  take_item-LinkStands false [] l q s = s
  take_item-LinkStands true [] l q s = record {
    entering = s.entering;
    working = tt;
    leaving = s.leaving;
  }
  take_item-LinkStands last (t ∷ ts) l q s =
      let (first, rest) : AllStand f before (t ∷ ts) = rw q at s.entering in
      record { entering = rest; working = first; leaving = s.leaving }

  hand_over-LinkStands :
      (capacity : ℕ) (t : Item P B) (l : Link P A B)
      → Stands f (through before call) t
      → LinkStands f before (through before call) l
      → LinkStands f before (through before call) (hand_over capacity t l)
  unfolding hand_over
  hand_over-LinkStands capacity t l r s = elim (Bool-cases (ltb (length l.output) capacity)) [
    | inl room ↦ rw room (record {
      entering = s.entering;
      working = tt;
      leaving = AllStand-snoc f (through before call) l.output t s.leaving r;
    })
    | inr full ↦ rw full s
  ]

  held-LinkStands :
      (t : Item P A) (l : Link P A B)
      → Stands f before t
      → LinkStands f before (through before call) l
      → LinkStands f before (through before call) (record l {
        worker = if is_cancelled f t.id then handing (with_value t cancelled_result) else calling t;
      })
  held-LinkStands t l r s = elim (Bool-cases (is_cancelled f t.id)) [
    | inl stop ↦
        rw stop (record { entering = s.entering; working = inr (refl, stop); leaving = s.leaving })
    | inr go ↦ rw go (record { entering = s.entering; working = r; leaving = s.leaving })
  ]

  pub move_link-LinkStands :
      (last : Bool) (capacity : ℕ) (w : Worker P A B) (l : Link P A B)
      → l.worker ≡ w
      → LinkStands f before (through before call) l
      → LinkStands f before (through before call) (move_link last capacity f call w l)
  unfolding move_link
  move_link-LinkStands last capacity resting l q s = take_item-LinkStands last l.input l refl s
  move_link-LinkStands last capacity (holding t) l q s = held-LinkStands t l (rw q at s.working) s
  move_link-LinkStands last capacity (calling t) l q s = record {
    entering = s.entering;
    working = called-Stands t (rw q at s.working);
    leaving = s.leaving;
  }
  move_link-LinkStands last capacity (handing t) l q s =
      hand_over-LinkStands capacity t l (rw q at s.working) s
  move_link-LinkStands last capacity ended l q s = s

mem-append_left : (i : ℕ) (js ks : List ℕ) → mem i ks ≡ true → mem i (js ++ ks) ≡ true
unfolding mem
mem-append_left i [] ks h = h
mem-append_left i (j ∷ js) ks h = ground (arith, mem-append_left i js ks h)

module _ {P : Type 0} where
  pub stop_entry-Keeps : (m : StopMode) (e : Entry P) → Keeps e.flags (stop_entry m e).flags
  unfolding stop_entry is_cancelled
  stop_entry-Keeps graceful e i c = c
  stop_entry-Keeps immediate e i c = refl

  pub cancel_entry-Keeps :
      (done : List ℕ) (i : ℕ) (e : Entry P) → Keeps e.flags (cancel_entry done i e).flags
  unfolding cancel_entry is_cancelled mem
  cancel_entry-Keeps done i e j c = elim (Bool-cases (ltb i e.next_id && not (mem i done))) [
    | inl set ↦ rw set (ground (arith, c))
    | inr same ↦ rw same c
  ]
