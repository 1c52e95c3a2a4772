-- ===== src/Core/Tensor.antt =====
-- Runtime/include/core/tensor.hpp. `size_t` is 64 bits wide; each sum and product of the code is
-- written with its wrap-around, which the guards before it rule out.
pub mod Counts
pub mod Layout
pub mod Bounds
pub mod Views
use vision_runtime.Prelude.{
  ℕ, zero, suc, ◌+◌, ◌-◌, ◌*◌, ◌/◌, ◌%◌, ◌^◌, Bool, true, false, ◌&&◌, ◌||◌, not, Option, List, [],
  ◌∷◌, leb, ltb, ◌==◌, if◌then◌else◌, length, size_max, String, is_some, none, some, list_eq,
}
use vision_runtime.Prelude.Int.{ℤ, pos, negsuc}
use vision_runtime.Core.Status.{
  Status, Result, success, failure, error, invalid_argument, ◌>>=◌, ◌>>◌, reject_if,
}
use vision_runtime.Core.DataType.{DataType, data_type_size, Device, eqb_type, cpu}
use vision_runtime.Core.Shape.{TensorShape, is_concrete, is_positive}
use vision_runtime.Core.Spec.{TensorLayout}
use vision_runtime.Core.Buffer.{
  TensorBuffer, MemoryKind, host, device, buffer_empty, share_buffer, take_buffer, invalid,
}

pub data TensorOwnership : Type 0 where
  owned shared borrowed : TensorOwnership

abbrev pub wrap : ℕ → ℕ
wrap n = n % 2 ^ 64

-- `static_cast<std::size_t>` of an int64_t.
abbrev pub size_of_int : ℤ → ℕ
size_of_int (pos n) = n
size_of_int (negsuc n) = 2 ^ 64 - suc n

-- The loop of `elementCount`, from the count so far.
unfoldable pub count_from : ℕ → TensorShape → ℕ
count_from count [] = count
count_from count (d ∷ ds) =
    let rest = count_from (wrap (count * size_of_int d)) ds in
    if not (is_positive d) || ltb (size_max / size_of_int d) count then 0 else rest

unfoldable pub element_count : TensorShape → ℕ
element_count shape = count_from 1 shape

-- One round of the loop of `contiguousByteStrides`, from the stride so far and those found; none
-- where the code returns {}.
unfoldable pub extend_strides : ℤ → Option (ℕ × List ℕ) → Option (ℕ × List ℕ)
extend_strides d none = none
extend_strides d (some (stride, found)) =
    if not (is_positive d) || ltb (size_max / size_of_int d) stride
    then none
    else some (wrap (stride * size_of_int d), stride ∷ found)

-- The loop runs from the last index to the first.
unfoldable pub strides_from : ℕ → TensorShape → Option (ℕ × List ℕ)
unfolding extend_strides
strides_from size [] = some (size, [])
strides_from size (d ∷ ds) = extend_strides d (strides_from size ds)

abbrev pub found_strides : Option (ℕ × List ℕ) → List ℕ
found_strides none = []
found_strides (some (stride, found)) = found

unfoldable pub contiguous_byte_strides : TensorShape → DataType → List ℕ
contiguous_byte_strides shape t = found_strides (strides_from (data_type_size t) shape)

pub record Metadata : Type 0 where
  pub count : ℕ
  pub byte_size : ℕ
  pub byte_strides : List ℕ

-- `static_cast<std::size_t>(dimension - 1)`.
abbrev pub extent_of : ℤ → ℕ
extent_of (pos zero) = 2 ^ 64 - 1
extent_of (pos (suc n)) = n
extent_of (negsuc n) = 2 ^ 64 - 2 - n

-- The last loop of `validateMetadata`, from the bytes required so far.
unfoldable pub bytes_from : ℕ → TensorShape → List ℕ → Result ℕ
bytes_from required (d ∷ ds) (s ∷ ss) =
    let rest = bytes_from (wrap (required + wrap (extent_of d * s))) ds ss in
    if not (extent_of d == 0) && ltb ((size_max - required) / extent_of d) s
    then invalid "tensor byte strides overflow size_t"
    else rest
bytes_from required _ _ = success required

abbrev pub is_nil {ℓ} : {A : Type ℓ} → List A → Bool
is_nil [] = true
is_nil (x ∷ xs) = false

abbrev pub strides_or : List ℕ → List ℕ → List ℕ
strides_or given default = if is_nil given then default else given

-- The part of `validateMetadata` after the strides are chosen.
unfoldable pub measure : DataType → TensorShape → List ℕ → Result Metadata
measure t shape strides = do
  reject_if (not (length strides == length shape))
      (error invalid_argument "tensor stride rank does not match shape rank")
  required ← bytes_from (data_type_size t) shape strides
  success (record { count = element_count shape; byte_size = required; byte_strides = strides })

unfoldable pub validate_metadata : DataType → TensorShape → List ℕ → Result Metadata
validate_metadata t shape strides = do
  reject_if (not (is_concrete shape)) (error invalid_argument "tensor shape must be concrete")
  reject_if (element_count shape == 0 || ltb (size_max / data_type_size t) (element_count shape))
      (error invalid_argument "tensor element count overflows size_t")
  measure t shape (strides_or strides (contiguous_byte_strides shape t))

-- `Tensor::requiredByteSize`.
unfoldable pub required_byte_size : DataType → TensorShape → List ℕ → Result ℕ
required_byte_size t shape strides = do m ← validate_metadata t shape strides; success m.byte_size

pub record Tensor : Type 0 where
  pub buffer : TensorBuffer
  pub byte_offset : ℕ
  pub byte_size : ℕ
  pub count : ℕ
  pub data_type : DataType
  pub shape : TensorShape
  pub byte_strides : List ℕ
  pub dev : Device
  pub layout : TensorLayout
  pub ownership : TensorOwnership

-- The private constructor, which counts the elements once more.
unfoldable pub view_of :
    TensorBuffer → ℕ → DataType → TensorShape → TensorLayout → TensorOwnership → Metadata → Tensor
view_of b offset t shape layout ownership m = record {
  buffer = b;
  byte_offset = offset;
  byte_size = m.byte_size;
  count = element_count shape;
  data_type = t;
  shape = shape;
  byte_strides = m.byte_strides;
  dev = b.dev;
  layout = layout;
  ownership = ownership;
}

unfoldable pub create :
    TensorBuffer
    → ℕ
    → DataType
    → TensorShape
    → TensorLayout
    → List ℕ
    → TensorOwnership
    → Result Tensor
create b offset t shape layout strides ownership = do
  reject_if (buffer_empty b) (error invalid_argument "tensor buffer must not be empty")
  m ← validate_metadata t shape strides
  reject_if (ltb b.capacity offset || ltb (b.capacity - offset) m.byte_size)
      (error invalid_argument "tensor buffer capacity is smaller than its layout")
  success (view_of b offset t shape layout ownership m)

-- `Tensor::wrap`.
unfoldable pub wrap_buffer :
    TensorBuffer → DataType → TensorShape → TensorLayout → List ℕ → ℕ → Result Tensor
wrap_buffer b t shape layout strides offset = create b offset t shape layout strides shared

-- The memory kind that `share`, `borrow` and `takeOwnership` pass on.
abbrev pub kind_of_device : Device → MemoryKind
kind_of_device d = if eqb_type d.type cpu then host else device

-- `Tensor::share`; `storage` is the allocation that the pointer keeps alive.
unfoldable pub share :
    Option ℕ → ℕ → ℕ → DataType → TensorShape → Device → TensorLayout → List ℕ → Result Tensor
share storage address capacity t shape dev layout strides = do
  reject_if (not (is_some storage)) (error invalid_argument "tensor storage must not be null")
  b ← share_buffer storage address capacity dev (kind_of_device dev) true
  create b 0 t shape layout strides shared

-- `Tensor::borrow`; the owner's deleter does nothing, and `fresh` is its allocation.
unfoldable pub borrow :
    ℕ → ℕ → ℕ → DataType → TensorShape → Device → TensorLayout → List ℕ → Result Tensor
borrow address fresh capacity t shape dev layout strides = do
  reject_if (address == 0) (error invalid_argument "tensor data must not be null")
  b ← share_buffer (some fresh) address capacity dev (kind_of_device dev) true
  create b 0 t shape layout strides borrowed

-- `Tensor::takeOwnership`.
unfoldable pub take_ownership :
    ℕ → Bool → ℕ → ℕ → DataType → TensorShape → Device → TensorLayout → List ℕ → Result Tensor
take_ownership address has_deleter fresh capacity t shape dev layout strides = do
  reject_if (address == 0) (error invalid_argument "tensor data must not be null")
  reject_if (not has_deleter) (error invalid_argument "owned tensor requires a deleter")
  b ← take_buffer address capacity has_deleter fresh dev (kind_of_device dev) true
  create b 0 t shape layout strides owned

-- The test that `subview` makes of the view that `create` returned.
unfoldable pub check_view : ℕ → Result Tensor → Result Tensor
check_view room (success v) =
    if ltb room v.byte_size then invalid "tensor subview exceeds its parent view" else success v
check_view room (failure s) = failure s

-- `Tensor::subview`.
unfoldable pub subview : Tensor → ℕ → DataType → TensorShape → TensorLayout → List ℕ → Result Tensor
subview p relative t shape layout strides =
    if ltb p.byte_size relative
    then invalid "tensor subview offset exceeds its byte size"
    else check_view (p.byte_size - relative)
        (create p.buffer (wrap (p.byte_offset + relative)) t shape layout strides shared)

-- `Tensor::isContiguous`.
unfoldable pub is_contiguous : Tensor → Bool
is_contiguous v = list_eq v.byte_strides (contiguous_byte_strides v.shape v.data_type)
