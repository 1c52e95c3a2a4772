-- ===== src/Executor/Batch/Results.antt =====
-- What Runtime/include/executor/batchPipelineExecutor.hpp completes its tasks with.
use mathlib.Core.Path.{subst}
use mathlib.Core.List.{append_assoc}
use vision_runtime.Prelude.{
  some-injective, length-append, Option-cases, ℕ, true, ◌≡◌, refl, List, [], ◌∷◌, ◌++◌, length,
  get_elem?, arith, inl, inr, ◌⊎◌, some,
}
use vision_runtime.Core.Status.{Status, Result, success, failure}
use vision_runtime.Executor.Serial.{cancelled_result}
use vision_runtime.Executor.Staged.{Item, Flags, is_cancelled}
use vision_runtime.Executor.Staged.Right.{Keeps, through}
use vision_runtime.Executor.Batch.{
  BatchStages, Member, inputs_of, assign, call_preprocess, call_infer_batch, call_postprocess,
}

pub get_elem?-middle :
    {A : Type 0} (xs : List A) (y : A) (zs : List A) → get_elem? (xs ++ y ∷ zs) (length xs) ≡ some y
get_elem?-middle [] y zs = refl
get_elem?-middle (x ∷ xs) y zs = get_elem?-middle xs y zs

module _ {P I O R : Type 0} (s : BatchStages P I O R) where
  abbrev pub after_preprocess : P → Result I
  after_preprocess = through success (call_preprocess s)

  -- A task's prepared input stood at some place of a batch, and its value is the failure of the
  -- batch's inference, or the postprocessed output of the same place.
  pub data Served (p : P) (r : Result R) : Type 0 where
    batch_failed :
        (is : List I) (i : ℕ) (x : I) (e : Status)
        → after_preprocess p ≡ success x
        → get_elem? is i ≡ some x
        → call_infer_batch s is ≡ failure e
        → r ≡ failure e
        → Served p r
    batch_answered :
        (is : List I) (os : List O) (i : ℕ) (x : I) (o : O)
        → after_preprocess p ≡ success x
        → get_elem? is i ≡ some x
        → call_infer_batch s is ≡ success os
        → get_elem? os i ≡ some o
        → r ≡ call_postprocess s o
        → Served p r

  -- What a task may be completed with.
  abbrev pub Answered : Flags → Item P R → Type 0
  Answered f t =
      ((t.value ≡ cancelled_result) × (is_cancelled f t.id ≡ true))
      ⊎ ((e : Status) × (after_preprocess t.packet ≡ failure e) × (t.value ≡ failure e))
      ⊎ Served t.packet t.value

  abbrev pub Ready : Member P I → Type 0
  Ready m = after_preprocess m.packet ≡ success m.input

  abbrev pub AllReady : List (Member P I) → Type 0
  AllReady [] = Unit {0}
  AllReady (m ∷ ms) = Ready m × AllReady ms

  -- The output that a member was given is that of its place in the batch.
  abbrev pub AllOwed : List (Member P O) → Type 0
  AllOwed [] = Unit {0}
  AllOwed (m ∷ ms) = Served m.packet (call_postprocess s m.input) × AllOwed ms

  abbrev pub AllAnswered : Flags → List (Item P R) → Type 0
  AllAnswered f [] = Unit {0}
  AllAnswered f (t ∷ ts) = Answered f t × AllAnswered f ts

  pub Answered-keep : (f g : Flags) (t : Item P R) → Keeps f g → Answered f t → Answered g t
  Answered-keep f g t k (inl (v, c)) = inl (v, k t.id c)
  Answered-keep f g t k (inr (inl x)) = inr (inl x)
  Answered-keep f g t k (inr (inr x)) = inr (inr x)

  pub AllAnswered-keep :
      (f g : Flags) (ts : List (Item P R)) → Keeps f g → AllAnswered f ts → AllAnswered g ts
  AllAnswered-keep f g [] k a = tt
  AllAnswered-keep f g (t ∷ ts) k (a, b) = (Answered-keep f g t k a, AllAnswered-keep f g ts k b)

  pub AllAnswered-snoc :
      (f : Flags) (ts : List (Item P R)) (t : Item P R)
      → AllAnswered f ts
      → Answered f t
      → AllAnswered f (ts ++ t ∷ [])
  AllAnswered-snoc f [] t a b = (b, tt)
  AllAnswered-snoc f (u ∷ ts) t (c, a) b = (c, AllAnswered-snoc f ts t a b)

  pub AllReady-snoc :
      (ms : List (Member P I)) (m : Member P I) → AllReady ms → Ready m → AllReady (ms ++ m ∷ [])
  AllReady-snoc [] m a r = (r, tt)
  AllReady-snoc (n ∷ ms) m (b, a) r = (b, AllReady-snoc ms m a r)

  -- The members get the outputs of their places.
  pub assign-AllOwed :
      (is : List I) (os : List O) (ms : List (Member P I)) (rest : List O) (ns : List (Member P O))
      → length is ≡ length os
      → AllReady ms
      → call_infer_batch s (is ++ inputs_of ms) ≡ success (os ++ rest)
      → assign ms rest ≡ some ns
      → AllOwed ns
  unfolding assign
  assign-AllOwed is os [] rest ns l a c h = subst AllOwed {x = []} (some-injective h) tt
  assign-AllOwed is os (m ∷ ms) [] ns l a c h = cc
  assign-AllOwed is os (m ∷ ms) (o ∷ rest) ns l (r, a) c h = elim (Option-cases (assign ms rest)) [
    | inl nothing ↦ absurd (ground (arith, nothing, h))
    | inr (others, k) ↦
        let same : record { id = m.id; packet = m.packet; input = o } ∷ others ≡ ns =
          some-injective (rw k at h) in
        subst AllOwed same (
          batch_answered (is ++ inputs_of (m ∷ ms)) (os ++ o ∷ rest) (length is) m.input o r
              (get_elem?-middle is m.input (inputs_of ms)) c (rw l (get_elem?-middle os o rest))
              refl,
          assign-AllOwed (is ++ m.input ∷ []) (os ++ o ∷ []) ms rest others
              (omega (arith, l, length-append is (m.input ∷ []), length-append os (o ∷ []))) a
              (rw (append_assoc is (m.input ∷ []) (inputs_of ms), append_assoc os (o ∷ []) rest) c)
              k,
        )
  ]
