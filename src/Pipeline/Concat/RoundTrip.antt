-- ===== src/Pipeline/Concat/RoundTrip.antt =====
-- `concatBatchTensors` and `splitBatchOutputs` of Runtime/include/pipeline/batchTensors.hpp together.
use native.Mathlib.Nat.{mul_assoc}
use vision_runtime.Prelude.{
  ℕ, ◌+◌, ◌*◌, ◌^◌, ◌≤◌, ◌<◌, true, some, List, [], ◌∷◌, ◌≡◌, refl, ap, ◌∙◌, arith, size_max,
  String, length, get_elem?,
}
use vision_runtime.Prelude.Int.{pos}
use vision_runtime.Core.Status.{success}
use vision_runtime.Core.DataType.{cpu_device, data_type_size, data_type_size_pos}
use vision_runtime.Core.Shape.{TensorShape, is_concrete}
use vision_runtime.Core.Buffer.{TensorBuffer, host, share_buffer}
use vision_runtime.Core.Tensor.{Tensor, shared, share, create, view_of, validate_metadata, wrap}
use vision_runtime.Core.Tensor.Counts.{product, row_major, product_pos}
use vision_runtime.Core.Tensor.Layout.{validate_metadata_default}
use vision_runtime.Pipeline.Batch.{TensorMap, split_tensor, int_of_size}
use vision_runtime.Pipeline.Batch.Split.{IsBatch, sample, samples, split_tensor_lem, created_at}
use vision_runtime.Pipeline.Concat.{Memory, data_of, concat_members, concat_tensor}
use vision_runtime.Pipeline.Concat.Copies.{
  AreMembers, copied, concat_members-copied, copied-read, AreMembers-length, get_elem?-below,
}

-- A tensor with batch dimension 1 and its default layout.
pub record IsSingle (t : Tensor) (ds : TensorShape) : Type 0 where
  pub shaped : t.shape ≡ pos 1 ∷ ds
  pub concrete : is_concrete ds ≡ true
  pub sized : t.byte_size ≡ product ds * data_type_size t.data_type

-- The storage of the batch.
abbrev storage : Tensor → ℕ → ℕ → ℕ → TensorBuffer
storage first n fresh address = record {
  owner = some fresh;
  address = address;
  capacity = wrap (first.byte_size * n);
  dev = cpu_device;
  memory_kind = host;
  writable = true;
}

-- The batch, for the first tensor and the number of inputs.
abbrev batch : Tensor → TensorShape → ℕ → ℕ → ℕ → Tensor
batch first ds n fresh address =
    view_of (storage first n fresh address) 0 first.data_type (pos n ∷ ds) first.layout shared
      (record {
        count = n * product ds;
        byte_size = n * product ds * data_type_size first.data_type;
        byte_strides = row_major (data_type_size first.data_type) (pos n ∷ ds);
      })

int_of_small : (n : ℕ) → n < 2 ^ 63 → int_of_size n ≡ pos n
int_of_small n l = ground arith

module _ (first : Tensor) (ds : TensorShape) (n fresh address : ℕ) (single : IsSingle first ds)
    (some_input : 0 < n) (few : n < 2 ^ 63) (small : n * first.byte_size ≤ size_max)
    (placed : 0 < address) where
  size : n * product ds * data_type_size first.data_type ≡ n * first.byte_size
  size = rw single.sized (grind arith)

  capacity_lem : wrap (first.byte_size * n) ≡ n * first.byte_size
  capacity_lem = grind arith

  positive : 0 < n * first.byte_size
  positive =
      rw single.sized
        (grind (arith, product_pos ds single.concrete, data_type_size_pos first.data_type))

  made :
      share_buffer (some fresh) address (wrap (first.byte_size * n)) cpu_device host true
      ≡ success (storage first n fresh address)
  unfolding share_buffer
  made = ground (arith, positive, capacity_lem)

  concrete_batch : is_concrete (pos n ∷ ds) ≡ true
  unfolding is_concrete
  concrete_batch = ground (arith, single.concrete)

  valid :
      validate_metadata first.data_type (pos n ∷ ds) []
      ≡ success (record {
        count = n * product ds;
        byte_size = n * product ds * data_type_size first.data_type;
        byte_strides = row_major (data_type_size first.data_type) (pos n ∷ ds);
      })
  valid =
      validate_metadata_default first.data_type (pos n ∷ ds) concrete_batch (omega (arith, size))

  share-batch :
      share
        (some fresh)
        address
        (wrap (first.byte_size * n))
        first.data_type
        (pos n ∷ ds)
        cpu_device
        first.layout
        []
      ≡ success (batch first ds n fresh address)
  unfolding share create share_buffer
  share-batch = rw made (
      created_at (storage first n fresh address) 0 first.data_type (pos n ∷ ds) first.layout _ refl
        valid (omega (arith, size, capacity_lem)))

  batch-IsBatch : IsBatch (batch first ds n fresh address) n ds
  unfolding view_of
  batch-IsBatch = record {
    shaped = refl;
    concrete = single.concrete;
    sized = mul_assoc n (product ds) (data_type_size first.data_type);
    nonempty = refl;
    inside = omega (arith, size, capacity_lem);
    addressable = omega arith;
  }

-- The batch of tensors that have batch dimension 1, their default layout, the same size and the same
-- name in their maps, and whose bytes lie outside its storage: `concatBatchTensors` makes it,
-- `splitBatchOutputs` divides it into as many samples as there are inputs, and each byte of a sample
-- is the byte that its input had before.
pub concat-split :
    (name : String) (first : Tensor) (ds : TensorShape) (inputs : List TensorMap) (ts : List Tensor)
    (fresh address i a : ℕ) (m : Memory) (t : Tensor)
    → IsSingle first ds
    → AreMembers name first.byte_size address (address + length inputs * first.byte_size) inputs ts
    → length inputs < 2 ^ 63
    → length inputs * first.byte_size ≤ size_max
    → 0 < address
    → get_elem? ts i ≡ some t
    → a < first.byte_size
    → (b : Tensor) × (after : Memory) × (concat_tensor name first inputs fresh address m
        ≡ success (b, after))
      × (split_tensor b (length inputs) ≡ success (samples b ds 0 (length inputs)))
      × (after (data_of (sample b ds i) + a) ≡ m (data_of t + a))
unfolding concat_tensor view_of
concat-split name first ds inputs ts fresh address i a m t single members few small placed g k = (
  batch first ds (length inputs) fresh address,
  copied first.byte_size address ts m,
  concat_made,
  split_tensor_lem _ (length inputs) ds
      (batch-IsBatch first ds (length inputs) fresh address single some_input few small placed)
      some_input few,
  ap (copied first.byte_size address ts m) {y = address + i * first.byte_size + a} place
      ∙ copied-read name first.byte_size address _ address i a inputs ts m t members (omega arith)
          (rw same_length (omega arith)) g k,
)
  where
    same_length : length ts ≡ length inputs
    same_length = AreMembers-length name first.byte_size address _ inputs ts members

    some_input : 0 < length inputs
    some_input = omega (arith, same_length, get_elem?-below ts i t g)

    place :
        address + (0 + i * (product ds * data_type_size first.data_type)) + a
        ≡ address + i * first.byte_size + a
    place = rw single.sized (omega arith)

    copying :
        concat_members name first.byte_size address 0 inputs m
        ≡ success (copied first.byte_size address ts m)
    copying =
        concat_members-copied name first.byte_size address 0 address _ inputs ts m members
        ∙ ap (λ p. success (copied first.byte_size p ts m)) {y = address} (omega arith)

    concat_made :
        concat_tensor name first inputs fresh address m
        ≡ success
            (batch first ds (length inputs) fresh address, copied first.byte_size address ts m)
    concat_made =
        rw
          (
            single.shaped,
            copying,
            int_of_small (length inputs) few,
            share-batch first ds (length inputs) fresh address single some_input few small placed,
          )
          refl
