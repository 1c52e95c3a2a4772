-- ===== src/Pipeline/Concat.antt =====
-- `concatBatchTensors` of Runtime/include/pipeline/batchTensors.hpp. The memory is a function from
-- addresses to bytes. A prepared input is given by its tensors.
pub mod Copies
pub mod RoundTrip
mod Tests
use vision_runtime.Prelude.{
  ℕ, ◌+◌, ◌-◌, ◌*◌, Bool, not, ◌&&◌, Option, none, some, List, [], ◌∷◌, ◌==◌, leb, ltb,
  if◌then◌else◌, String, length, true, false,
}
use vision_runtime.Prelude.Int.{ℤ, pos, eqb_ℤ}
use vision_runtime.Core.Status.{
  Result, success, failure, error, invalid_argument, ◌>>=◌, ◌>>◌, reject_if,
}
use vision_runtime.Core.DataType.{cpu_device}
use vision_runtime.Core.Shape.{TensorShape}
use vision_runtime.Core.Tensor.{Tensor, share, wrap}
use vision_runtime.Service.Map.{find, string_key}
use vision_runtime.Pipeline.Batch.{TensorMap, int_of_size}

abbrev pub Memory : Type 0
Memory = ℕ → ℕ

-- `Tensor::data() const` of a tensor that is not empty.
abbrev pub data_of : Tensor → ℕ
data_of t = t.buffer.address + t.byte_offset

-- `std::memcpy`, between areas that do not overlap.
abbrev pub copy_bytes : ℕ → ℕ → ℕ → Memory → Memory
copy_bytes to from size m a = if leb to a && ltb a (to + size) then m (from + (a - to)) else m a

-- What the inner loop does with the entry that `find` returns.
abbrev pub matching : ℕ → Option Tensor → Result Tensor
matching size none =
    failure (error invalid_argument "batch members must share identical tensor names and shapes")
matching size (some t) =
    if t.byte_size == size
    then success t
    else failure
        (error invalid_argument "batch members must share identical tensor names and shapes")

-- The inner loop, over the inputs from `index` on.
unfoldable pub concat_members : String → ℕ → ℕ → ℕ → List TensorMap → Memory → Result Memory
concat_members name size storage index [] m = success m
concat_members name size storage index (i ∷ rest) m = do
  t ← matching size (find name i)
  concat_members name size storage (index + 1) rest
      (copy_bytes (storage + index * size) (data_of t) size m)

abbrev pub is_single : TensorShape → Bool
is_single [] = false
is_single (d ∷ ds) = eqb_ℤ d (pos 1)

abbrev pub batch_shape : ℕ → TensorShape → TensorShape
batch_shape n [] = []
batch_shape n (d ∷ ds) = int_of_size n ∷ ds

-- One round of the outer loop, for a name and its tensor in the first input. `new` returns
-- `address`, and `fresh` is its allocation.
unfoldable pub concat_tensor :
    String → Tensor → List TensorMap → ℕ → ℕ → Memory → Result (Tensor × Memory)
unfolding concat_members
concat_tensor name first inputs fresh address m = do
  reject_if (not (is_single first.shape))
      (error invalid_argument "batch inference requires per-frame tensors with batch dimension 1")
  copied ← concat_members name first.byte_size address 0 inputs m
  t ←
      share (some fresh) address (wrap (first.byte_size * length inputs)) first.data_type
        (batch_shape (length inputs) first.shape) cpu_device first.layout []
  success (t, copied)

-- The outer loop; `storage` gives the allocation and the address of each `new`, and `inputs` are all
-- inputs.
unfoldable pub concat_into :
    TensorMap → List TensorMap → (ℕ → ℕ × ℕ) → ℕ → Memory → Result (TensorMap × Memory)
unfolding concat_tensor
concat_into [] inputs storage k m = success ([], m)
concat_into ((name, first) ∷ rest) inputs storage k m = do
  made ← concat_tensor name first inputs (storage k).0 (storage k).1 m
  others ← concat_into rest inputs storage (k + 1) made.1
  success ((name, made.0) ∷ others.0, others.1)

unfoldable pub concat_batch_tensors :
    List TensorMap → (ℕ → ℕ × ℕ) → Memory → Result (TensorMap × Memory)
unfolding concat_into
concat_batch_tensors [] storage m =
    failure (error invalid_argument "batch inference requires at least one input")
concat_batch_tensors (first ∷ rest) storage m = concat_into first (first ∷ rest) storage 0 m
