-- ===== src/Pipeline/Tests.antt =====
-- Tests of the split of batches, and an instance of what is proved of it.
use vision_runtime.Prelude.{true, ◌≡◌, refl, some, [], ◌∷◌, ltb→lt, leb→le, arith}
use vision_runtime.Prelude.Int.{pos}
use vision_runtime.Core.Status.{success, failure, error, invalid_argument}
use vision_runtime.Core.DataType.{float32, cpu_device}
use vision_runtime.Core.Shape.{is_concrete}
use vision_runtime.Core.Spec.{nchw}
use vision_runtime.Core.Buffer.{TensorBuffer, host}
use vision_runtime.Core.Tensor.{Tensor, shared}
use vision_runtime.Pipeline.Batch.{split_tensor, split_batch_outputs, split_into}
use vision_runtime.Pipeline.Batch.Split.{IsBatch, samples, split_tensor_lem}

abbrev storage : TensorBuffer
storage = record {
  owner = some 1;
  address = 4096;
  capacity = 64;
  dev = cpu_device;
  memory_kind = host;
  writable = true;
}

-- Two samples of three 4-byte elements, at offset 8.
abbrev batch : Tensor
batch = record {
  buffer = storage;
  byte_offset = 8;
  byte_size = 24;
  count = 6;
  data_type = float32;
  shape = pos 2 ∷ pos 3 ∷ [];
  byte_strides = 12 ∷ 4 ∷ [];
  dev = cpu_device;
  layout = nchw;
  ownership = shared;
}

-- A batch of two is not one of three.
wrong_size :
    split_batch_outputs (("scores", batch) ∷ []) 3
    ≡ failure (error invalid_argument "batch inference output does not match the batch size")
unfolding split_batch_outputs split_into split_tensor
wrong_size = refl

concrete : is_concrete (pos 3 ∷ []) ≡ true
unfolding is_concrete
concrete = refl

batch-IsBatch : IsBatch batch 2 (pos 3 ∷ [])
batch-IsBatch = record {
  shaped = refl;
  concrete = concrete;
  sized = refl;
  nonempty = refl;
  inside = leb→le _ _ refl;
  addressable = leb→le _ _ refl;
}

split_tensor_lem_example : split_tensor batch 2 ≡ success (samples batch (pos 3 ∷ []) 0 2)
split_tensor_lem_example =
    split_tensor_lem batch 2 (pos 3 ∷ []) batch-IsBatch (omega arith) (ltb→lt _ _ refl)
