-- ===== src/Executor/Serial/Ids.antt =====
-- The numbers of the tasks that an executor of Runtime/include/executor/serialPipelineExecutor.hpp holds.
use mathlib.Core.Path.{ap₂}
use vision_runtime.Prelude.{
  ℕ, zero, suc, ◌+◌, ◌≡◌, refl, ap, ◌∙◌, List, [], ◌∷◌, ◌++◌, map, length, arith,
}
use vision_runtime.Core.Status.{Result}
use vision_runtime.Executor.Serial.{
  Task, Runner, resting, releasing, ended, holding, executing, settling, delivering, flagged,
  flag_id,
}

-- The numbers i, i + 1, …, of a count.
abbrev pub range : ℕ → ℕ → List ℕ
range i zero = []
range i (suc n) = i ∷ range (i + 1) n

pub range-snoc : (i n : ℕ) → range i (suc n) ≡ range i n ++ (i + n) ∷ []
range-snoc i zero = ap (λ k. k ∷ []) (omega arith)
range-snoc i (suc n) =
    ap (λ xs. i ∷ xs) (range-snoc (i + 1) n ∙ ap (λ k. range (i + 1) n ++ k ∷ []) (omega arith))

abbrev pub task_ids : {P : Type 0} → List (Task P) → List ℕ
task_ids = map λ t. t.id

abbrev pub pair_ids : {P R : Type 0} → List (Task P × Result R) → List ℕ
pair_ids = map λ x. x.0.id

abbrev pub done_ids : {R : Type 0} → List (ℕ × Result R) → List ℕ
done_ids = map λ x. x.0

abbrev pub runner_ids : {P R : Type 0} → Runner P R → List ℕ
runner_ids (holding t) = t.id ∷ []
runner_ids (executing t) = t.id ∷ []
runner_ids (delivering t r) = t.id ∷ []
runner_ids (settling t r) = t.id ∷ []
runner_ids resting = []
runner_ids releasing = []
runner_ids ended = []

pub flagged_ids : {P : Type 0} (ts : List (Task P)) → task_ids (map flagged ts) ≡ task_ids ts
flagged_ids [] = refl
flagged_ids (t ∷ ts) = ap (λ l. t.id ∷ l) (flagged_ids ts)

same_id : {P : Type 0} (i : ℕ) (t : Task P) → (flag_id i t).id ≡ t.id
same_id i t = ground arith

pub flag_id_ids :
    {P : Type 0} (i : ℕ) (ts : List (Task P)) → task_ids (map (flag_id i) ts) ≡ task_ids ts
flag_id_ids i [] = refl
flag_id_ids i (t ∷ ts) = ap₂ ◌∷◌ (same_id i t) (flag_id_ids i ts)

pub length-map {κ} :
    {A : Type 0} {B : Type κ} (f : A → B) (xs : List A) → length (map f xs) ≡ length xs
length-map f [] = refl
length-map f (x ∷ xs) = ap suc (length-map f xs)
