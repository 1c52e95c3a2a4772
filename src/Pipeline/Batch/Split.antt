-- ===== src/Pipeline/Batch/Split.antt =====
-- The samples that `splitBatchOutputs` of Runtime/include/pipeline/batchTensors.hpp makes.
use native.Mathlib.Nat.{mul-le-mul_right, one-mul, mul-div_right, mul-mod_right}
use vision_runtime.Prelude.{
  ℕ, zero, suc, ◌+◌, ◌*◌, ◌/◌, ◌%◌, ◌^◌, ◌≤◌, ◌<◌, true, false, List, [], ◌∷◌, ◌≡◌, refl, ap, ◌∙◌,
  arith, size_max,
}
use vision_runtime.Prelude.Int.{pos}
use vision_runtime.Core.Status.{success}
use vision_runtime.Core.DataType.{DataType, data_type_size}
use vision_runtime.Core.Shape.{TensorShape, is_concrete}
use vision_runtime.Core.Spec.{TensorLayout, any}
use vision_runtime.Core.Buffer.{TensorBuffer, buffer_empty}
use vision_runtime.Core.Tensor.{
  Tensor, Metadata, shared, subview, check_view, create, view_of, validate_metadata, wrap,
}
use vision_runtime.Core.Tensor.Counts.{product, row_major}
use vision_runtime.Core.Tensor.Layout.{validate_metadata_default}
use vision_runtime.Pipeline.Batch.{split_from, split_tensor, sample_shape, matches_batch}

-- A batch of `n` samples, whose default layout lies in its buffer.
pub record IsBatch (t : Tensor) (n : ℕ) (ds : TensorShape) : Type 0 where
  pub shaped : t.shape ≡ pos n ∷ ds
  pub concrete : is_concrete ds ≡ true
  pub sized : t.byte_size ≡ n * (product ds * data_type_size t.data_type)
  pub nonempty : buffer_empty t.buffer ≡ false
  pub inside : t.byte_offset + t.byte_size ≤ t.buffer.capacity
  pub addressable : t.buffer.capacity ≤ size_max

-- The view of a sample.
abbrev pub sample : Tensor → TensorShape → ℕ → Tensor
sample t ds i =
    view_of t.buffer (t.byte_offset + i * (product ds * data_type_size t.data_type)) t.data_type
      (pos 1 ∷ ds) any shared
      (record {
        count = product ds;
        byte_size = product ds * data_type_size t.data_type;
        byte_strides = row_major (data_type_size t.data_type) (pos 1 ∷ ds);
      })

sample_metadata :
    (t : DataType) (ds : TensorShape)
    → is_concrete ds ≡ true
    → product ds * data_type_size t ≤ size_max
    → validate_metadata t (pos 1 ∷ ds) []
      ≡ success (record {
        count = product ds;
        byte_size = product ds * data_type_size t;
        byte_strides = row_major (data_type_size t) (pos 1 ∷ ds);
      })
unfolding is_concrete
sample_metadata t ds c l =
    rw one-mul at
      (validate_metadata_default t (pos 1 ∷ ds) c (omega (arith, one-mul (product ds), l)))

pub created_at :
    (b : TensorBuffer) (offset : ℕ) (ty : DataType) (shape : TensorShape) (layout : TensorLayout)
    (m : Metadata)
    → buffer_empty b ≡ false
    → validate_metadata ty shape [] ≡ success m
    → offset + m.byte_size ≤ b.capacity
    → create b offset ty shape layout [] shared
      ≡ success (view_of b offset ty shape layout shared m)
unfolding create
created_at b offset ty shape layout m n valid fits = ground (arith, n, valid, fits)

-- A view that lies in its parent is made.
view_at :
    (p : Tensor) (r : ℕ) (ty : DataType) (shape : TensorShape) (m : Metadata)
    → buffer_empty p.buffer ≡ false
    → validate_metadata ty shape [] ≡ success m
    → r + m.byte_size ≤ p.byte_size
    → p.byte_offset + p.byte_size ≤ p.buffer.capacity
    → p.buffer.capacity ≤ size_max
    → subview p (wrap r) ty shape any []
      ≡ success (view_of p.buffer (p.byte_offset + r) ty shape any shared m)
unfolding subview check_view view_of
view_at p r ty shape m n valid fits inside small =
    ap (λ k. subview p k ty shape any []) {y = r} (omega arith) ∙ ground (arith, made, fits)
  where
    made :
        create p.buffer (wrap (p.byte_offset + r)) ty shape any [] shared
        ≡ success (view_of p.buffer (p.byte_offset + r) ty shape any shared m)
    made =
        ap (λ k. create p.buffer k ty shape any [] shared) {y = p.byte_offset + r} (omega arith)
        ∙ created_at p.buffer (p.byte_offset + r) ty shape any m n valid (omega arith)

sample_created :
    (t : Tensor) (n : ℕ) (ds : TensorShape) (i : ℕ)
    → IsBatch t n ds
    → i < n
    → subview t
        (wrap (i * (product ds * data_type_size t.data_type)))
        t.data_type
        (pos 1 ∷ ds)
        any
        []
      ≡ success (sample t ds i)
sample_created t n ds i b l =
    view_at t (i * k) t.data_type (pos 1 ∷ ds) _ b.nonempty
      (sample_metadata t.data_type ds b.concrete
        (omega (arith, reach, b.sized, b.inside, b.addressable)))
      (omega (arith, reach, b.sized)) b.inside b.addressable
  where
    k : ℕ
    k = product ds * data_type_size t.data_type

    reach : suc i * k ≤ n * k
    reach = mul-le-mul_right k l

-- The samples from an index on.
abbrev pub samples : Tensor → TensorShape → ℕ → ℕ → List Tensor
samples t ds i zero = []
samples t ds i (suc left) = sample t ds i ∷ samples t ds (i + 1) left

split_from_lem :
    (t : Tensor) (n : ℕ) (ds : TensorShape) (i left : ℕ)
    → IsBatch t n ds
    → i + left ≤ n
    → split_from t (product ds * data_type_size t.data_type) (pos 1 ∷ ds) i left
      ≡ success (samples t ds i left)
unfolding split_from
split_from_lem t n ds i zero b l = refl
split_from_lem t n ds i (suc left) b l =
    rw (sample_created t n ds i b (omega arith), split_from_lem t n ds (i + 1) left b (omega arith))
      refl

-- The split of a batch with its default layout into its samples succeeds. There are as many samples
-- as the batch has; each has the batch's data type and its shape with 1 for the batch dimension, and
-- they lie in the batch's buffer one after the other, from the batch's offset on, each with the bytes
-- of its elements.
pub split_tensor_lem :
    (t : Tensor) (n : ℕ) (ds : TensorShape)
    → IsBatch t n ds
    → 0 < n
    → n < 2 ^ 63
    → split_tensor t n ≡ success (samples t ds 0 n)
unfolding split_tensor
split_tensor_lem t n ds b p l =
    rw (matches, quotient, ap sample_shape b.shaped) (split_from_lem t n ds 0 n b (omega arith))
  where
    k : ℕ
    k = product ds * data_type_size t.data_type

    quotient : t.byte_size / n ≡ k
    quotient = rw b.sized (mul-div_right k p)

    remainder : t.byte_size % n ≡ 0
    remainder = rw b.sized (mul-mod_right n k)

    matches : matches_batch t n t.shape ≡ true
    matches = ap (matches_batch t n) b.shaped ∙ ground (arith, remainder, l)
