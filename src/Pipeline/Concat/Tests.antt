-- ===== src/Pipeline/Concat/Tests.antt =====
-- Tests of the concatenation of batches, and an instance of what is proved of it.
use vision_runtime.Prelude.{ℕ, ◌+◌, ◌≡◌, refl, [], ◌∷◌, some, inl, inr, true, ltb→lt, leb→le, arith}
use vision_runtime.Prelude.Int.{pos}
use vision_runtime.Core.Status.{success, failure, error, invalid_argument}
use vision_runtime.Core.DataType.{float32, cpu_device}
use vision_runtime.Core.Shape.{is_concrete}
use vision_runtime.Core.Spec.{nchw}
use vision_runtime.Core.Buffer.{host}
use vision_runtime.Core.Tensor.{Tensor, shared}
use vision_runtime.Pipeline.Batch.{TensorMap, split_tensor}
use vision_runtime.Pipeline.Batch.Split.{sample, samples}
use vision_runtime.Pipeline.Concat.{
  Memory, data_of, concat_tensor, concat_members, concat_into, concat_batch_tensors,
}
use vision_runtime.Pipeline.Concat.Copies.{AreMembers, no_members, member}
use vision_runtime.Pipeline.Concat.RoundTrip.{IsSingle, concat-split}

-- One sample of three 4-byte elements, in an allocation of its own.
abbrev scores : ℕ → ℕ → Tensor
scores owner address = record {
  buffer = record {
    owner = some owner;
    address = address;
    capacity = 64;
    dev = cpu_device;
    memory_kind = host;
    writable = true;
  };
  byte_offset = 8;
  byte_size = 12;
  count = 3;
  data_type = float32;
  shape = pos 1 ∷ pos 3 ∷ [];
  byte_strides = 12 ∷ 4 ∷ [];
  dev = cpu_device;
  layout = nchw;
  ownership = shared;
}

abbrev first_input : TensorMap
first_input = ("scores", scores 1 4096) ∷ []

abbrev second_input : TensorMap
second_input = ("scores", scores 2 65536) ∷ []

abbrev nameless_input : TensorMap
nameless_input = ("boxes", scores 2 65536) ∷ []

-- Every address holds its own number.
abbrev memory : Memory
memory a = a

-- The second input has no tensor of this name.
other_names :
    concat_batch_tensors (first_input ∷ nameless_input ∷ []) (λ k. (7, 16384)) memory
    ≡ failure (error invalid_argument "batch members must share identical tensor names and shapes")
unfolding concat_batch_tensors concat_into concat_tensor concat_members
other_names = refl

concrete : is_concrete (pos 3 ∷ []) ≡ true
unfolding is_concrete
concrete = refl

scores-IsSingle : IsSingle (scores 1 4096) (pos 3 ∷ [])
scores-IsSingle = record { shaped = refl; concrete = concrete; sized = refl }

scores-AreMembers :
    AreMembers "scores" 12 16384 16408
      (first_input ∷ second_input ∷ [])
      (scores 1 4096 ∷ scores 2 65536 ∷ [])
scores-AreMembers =
    member refl refl (inl (leb→le _ _ refl)) (member refl refl (inr (leb→le _ _ refl)) no_members)

concat-split_example :
    (b : Tensor) × (after : Memory) × (concat_tensor "scores"
        (scores 1 4096)
        (first_input ∷ second_input ∷ [])
        7
        16384
        memory
      ≡ success (b, after))
    × (split_tensor b 2 ≡ success (samples b (pos 3 ∷ []) 0 2))
    × (after (data_of (sample b (pos 3 ∷ []) 1) + 5) ≡ 65549)
concat-split_example =
    concat-split "scores" (scores 1 4096) (pos 3 ∷ []) (first_input ∷ second_input ∷ [])
      (scores 1 4096 ∷ scores 2 65536 ∷ []) 7 16384 1 5 memory (scores 2 65536) scores-IsSingle
      scores-AreMembers (ltb→lt _ _ refl) (leb→le _ _ refl) (omega arith) refl (omega arith)
