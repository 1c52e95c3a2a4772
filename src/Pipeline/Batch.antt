-- ===== src/Pipeline/Batch.antt =====
-- Runtime/include/pipeline/batchTensors.hpp: the split of a batch output into samples. A tensor map is
-- an association list.
pub mod Split
use vision_runtime.Prelude.{
  ℕ, zero, suc, ◌+◌, ◌-◌, ◌*◌, ◌/◌, ◌%◌, ◌^◌, Bool, true, false, not, ◌||◌, List, [], ◌∷◌, ◌==◌,
  ltb, if◌then◌else◌, String, replicate, Option,
}
use vision_runtime.Prelude.Int.{ℤ, pos, negsuc, eqb_ℤ}
use vision_runtime.Core.Status.{
  Result, success, failure, error, invalid_argument, ◌>>=◌, ◌>>◌, reject_if,
}
use vision_runtime.Core.Shape.{TensorShape}
use vision_runtime.Core.Spec.{TensorLayout, any}
use vision_runtime.Core.Tensor.{Tensor, subview, wrap}

abbrev pub TensorMap : Type 0
TensorMap = List (String × Tensor)

-- `static_cast<std::int64_t>` of a size_t.
abbrev pub int_of_size : ℕ → ℤ
int_of_size n = if ltb n (2 ^ 63) then pos n else negsuc (2 ^ 64 - 1 - n)

-- The test of a tensor before its split is false.
abbrev pub matches_batch : Tensor → ℕ → TensorShape → Bool
matches_batch t n [] = false
matches_batch t n (d ∷ ds) = if eqb_ℤ d (int_of_size n) then t.byte_size % n == 0 else false

-- `sampleDims`.
abbrev pub sample_shape : TensorShape → TensorShape
sample_shape [] = []
sample_shape (d ∷ ds) = pos 1 ∷ ds

-- The inner loop: `left` samples from `index`.
unfoldable pub split_from : Tensor → ℕ → TensorShape → ℕ → ℕ → Result (List Tensor)
split_from t size shape index zero = success []
split_from t size shape index (suc left) = do
  view ← subview t (wrap (index * size)) t.data_type shape any []
  rest ← split_from t size shape (index + 1) left
  success (view ∷ rest)

-- One round of the outer loop.
unfoldable pub split_tensor : Tensor → ℕ → Result (List Tensor)
unfolding split_from
split_tensor t n = do
  reject_if (not (matches_batch t n t.shape))
      (error invalid_argument "batch inference output does not match the batch size")
  split_from t (t.byte_size / n) (sample_shape t.shape) 0 n

-- `perSample[index].emplace(name, view)` for each index; the names of a map are distinct.
abbrev pub add_views : String → List Tensor → List TensorMap → List TensorMap
add_views name (v ∷ vs) (m ∷ ms) = ((name, v) ∷ m) ∷ add_views name vs ms
add_views name _ ms = ms

unfoldable pub split_into : TensorMap → ℕ → List TensorMap → Result (List TensorMap)
unfolding split_tensor
split_into [] n samples = success samples
split_into ((name, t) ∷ rest) n samples = do
  views ← split_tensor t n
  split_into rest n (add_views name views samples)

unfoldable pub split_batch_outputs : TensorMap → ℕ → Result (List TensorMap)
unfolding split_into
split_batch_outputs outputs n = split_into outputs n (replicate n [])
