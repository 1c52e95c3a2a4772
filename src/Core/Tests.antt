-- ===== src/Core/Tests.antt =====
-- Tests of the core types on small inputs, and instances of what is proved of them.
use vision_runtime.Prelude.{
  ◌+◌, ◌*◌, ◌≤◌, true, false, ◌≡◌, refl, none, some, [], ◌∷◌, arith, leb→le,
}
use vision_runtime.Prelude.Int.{pos, negsuc}
use vision_runtime.Core.Status.{success, failure, error, invalid_argument}
use vision_runtime.Core.DataType.{float32, data_type_size, cpu_device}
use vision_runtime.Core.Shape.{
  TensorShape, shape_accepts, shape_is_valid, is_concrete, accepts_dimensions,
}
use vision_runtime.Core.Spec.{
  TensorSpec, nchw, any, spec_accepts, spec_is_valid, covers, layout_accepts, all_some,
}
use vision_runtime.Core.Buffer.{
  TensorBuffer, host, share_buffer, slice_buffer, IsBuffer, share_buffer-IsBuffer,
}
use vision_runtime.Core.Tensor.{
  Tensor, shared, create, subview, check_view, view_of, validate_metadata, measure, bytes_from,
  element_count, count_from, contiguous_byte_strides, strides_from, extend_strides,
  required_byte_size,
}
use vision_runtime.Core.Tensor.Layout.{validate_metadata_default}
use vision_runtime.Core.Tensor.Counts.{product, row_major}
use vision_runtime.Core.Tensor.Bounds.{IsTensor, element_offset, element-in-buffer, create-IsTensor}
use vision_runtime.Core.Tensor.Views.{subview-inside}

abbrev storage : TensorBuffer
storage = record {
  owner = some 1;
  address = 4096;
  capacity = 64;
  dev = cpu_device;
  memory_kind = host;
  writable = true;
}

abbrev two_by_three : TensorShape
two_by_three = pos 2 ∷ pos 3 ∷ []

-- A 2×3 tensor of 4-byte elements at offset 8.
abbrev tensor : Tensor
tensor = record {
  buffer = storage;
  byte_offset = 8;
  byte_size = 24;
  count = 6;
  data_type = float32;
  shape = two_by_three;
  byte_strides = 12 ∷ 4 ∷ [];
  dev = cpu_device;
  layout = nchw;
  ownership = shared;
}

tensor_created : create storage 8 float32 two_by_three nchw [] shared ≡ success tensor
unfolding create view_of validate_metadata measure bytes_from element_count count_from
    contiguous_byte_strides strides_from extend_strides is_concrete
tensor_created = refl

tensor_metadata :
    validate_metadata float32 two_by_three []
    ≡ success (record { count = 6; byte_size = 24; byte_strides = 12 ∷ 4 ∷ [] })
unfolding validate_metadata measure bytes_from element_count count_from contiguous_byte_strides
    strides_from extend_strides is_concrete
tensor_metadata = refl

-- The second row of the tensor as a view of its own.
abbrev second_row : Tensor
second_row = record {
  buffer = storage;
  byte_offset = 20;
  byte_size = 12;
  count = 3;
  data_type = float32;
  shape = pos 3 ∷ [];
  byte_strides = 4 ∷ [];
  dev = cpu_device;
  layout = any;
  ownership = shared;
}

second_row_created : subview tensor 12 float32 (pos 3 ∷ []) any [] ≡ success second_row
unfolding subview check_view create view_of validate_metadata measure bytes_from element_count
    count_from contiguous_byte_strides strides_from extend_strides is_concrete
second_row_created = refl

-- A view that is too long for its parent is refused.
long_view_refused :
    subview tensor 16 float32 (pos 3 ∷ []) any []
    ≡ failure (error invalid_argument "tensor subview exceeds its parent view")
unfolding subview check_view create view_of validate_metadata measure bytes_from element_count
    count_from contiguous_byte_strides strides_from extend_strides is_concrete
long_view_refused = refl

tensor-IsTensor : IsTensor tensor
tensor-IsTensor = (create-IsTensor storage 8 float32 two_by_three nchw [] shared tensor_created).0

concrete : is_concrete two_by_three ≡ true
unfolding is_concrete
concrete = refl

element-in-buffer_example :
    (element_offset (1 ∷ 2 ∷ []) tensor.byte_strides + data_type_size tensor.data_type
      ≤ tensor.byte_size)
    × (tensor.byte_offset
          + element_offset (1 ∷ 2 ∷ []) tensor.byte_strides
          + data_type_size tensor.data_type
        ≤ tensor.buffer.capacity)
element-in-buffer_example =
    element-in-buffer tensor (1 ∷ 2 ∷ []) tensor-IsTensor (omega arith, (omega arith, tt))

validate_metadata_default_example :
    validate_metadata float32 two_by_three []
    ≡ success (record {
      count = product two_by_three;
      byte_size = product two_by_three * data_type_size float32;
      byte_strides = row_major (data_type_size float32) two_by_three;
    })
validate_metadata_default_example =
    validate_metadata_default float32 two_by_three concrete (leb→le _ _ refl)

abbrev huge : TensorShape
huge = pos 4294967296 ∷ pos 4294967296 ∷ []

huge-is_concrete : is_concrete huge ≡ true
unfolding is_concrete
huge-is_concrete = refl

create-IsTensor_example :
    IsTensor tensor
    × (tensor.buffer ≡ storage)
    × (tensor.byte_offset ≡ 8)
    × (tensor.ownership ≡ shared)
create-IsTensor_example =
    create-IsTensor storage 8 float32 two_by_three nchw [] shared tensor_created

subview-inside_example :
    IsTensor second_row
    × (second_row.buffer ≡ tensor.buffer)
    × (second_row.byte_offset ≡ tensor.byte_offset + 12)
    × (second_row.byte_offset + second_row.byte_size ≤ tensor.byte_offset + tensor.byte_size)
subview-inside_example =
    subview-inside tensor 12 float32 (pos 3 ∷ []) any [] tensor-IsTensor (leb→le _ _ refl)
      second_row_created

bytes_required : required_byte_size float32 two_by_three [] ≡ success 24
unfolding required_byte_size validate_metadata measure bytes_from element_count count_from
    contiguous_byte_strides strides_from extend_strides is_concrete
bytes_required = refl

abbrev batch_of_any_size : TensorShape
batch_of_any_size = negsuc 0 ∷ pos 3 ∷ []

abbrev batch_of_two : TensorShape
batch_of_two = pos 2 ∷ pos 3 ∷ []

abbrev wanted : TensorSpec
wanted = record {
  data_type = some float32;
  shape = some batch_of_any_size;
  device = none;
  layout = any;
}

abbrev produced : TensorSpec
produced = record {
  data_type = some float32;
  shape = some batch_of_two;
  device = some cpu_device;
  layout = nchw;
}

shape_fits : shape_accepts batch_of_any_size batch_of_two ≡ true
unfolding shape_accepts shape_is_valid accepts_dimensions
shape_fits = refl

-- A shape without a wildcard does not accept the wildcard.
wildcard_refused : shape_accepts batch_of_two batch_of_any_size ≡ false
unfolding shape_accepts shape_is_valid accepts_dimensions
wildcard_refused = refl

same_shape_fits : shape_accepts batch_of_two batch_of_two ≡ true
unfolding shape_accepts shape_is_valid accepts_dimensions
same_shape_fits = refl

spec_fits : spec_accepts wanted produced ≡ true
unfolding spec_accepts spec_is_valid all_some covers layout_accepts shape_accepts shape_is_valid
    accepts_dimensions
spec_fits = refl

wanted-is_valid : spec_is_valid wanted ≡ true
unfolding spec_is_valid all_some shape_is_valid
wanted-is_valid = refl

storage_shared : share_buffer (some 1) 4096 64 cpu_device host true ≡ success storage
unfolding share_buffer
storage_shared = refl

storage-IsBuffer : IsBuffer storage
storage-IsBuffer = (share_buffer-IsBuffer (some 1) 4096 64 cpu_device host true storage_shared).0

abbrev tail_half : TensorBuffer
tail_half = record storage { address = 4128; capacity = 32 }

tail_sliced : slice_buffer storage 32 32 ≡ success tail_half
unfolding slice_buffer
tail_sliced = refl
