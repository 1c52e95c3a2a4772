-- ===== src/Vision/Frame.antt =====
-- Runtime/include/vision/frame.hpp. `size_t` is 64 bits wide; sums and products are written with
-- their wrap-around, which the guards before them rule out.
pub mod Bounds
use vision_runtime.Prelude.{
  ℕ, ◌+◌, ◌-◌, ◌*◌, ◌/◌, Bool, ◌||◌, Option, some, List, [], ◌∷◌, ltb, ◌==◌, if◌then◌else◌,
  size_max, String, none, ◌%◌, ◌^◌,
}
use vision_runtime.Core.Status.{
  Result, success, failure, error, invalid_argument, ◌>>=◌, ◌>>◌, reject_if,
}
use vision_runtime.Core.Buffer.{TensorBuffer, buffer_empty, host}
use vision_runtime.Core.DataType.{cpu_device}
use vision_runtime.Vision.FrameSpec.{PixelFormat, pixel_format_size, FrameSpec}

-- Runtime/include/vision/frameMetadata.hpp; times are counts of clock ticks.
pub record FrameMetadata : Type 0 where
  pub sequence_number : ℕ
  pub captured_at : ℕ
  pub hardware_timestamp : Option ℕ

pub record Frame : Type 0 where
  pub buffer : TensorBuffer
  pub byte_offset : ℕ
  pub byte_size : ℕ
  pub width : ℕ
  pub height : ℕ
  pub row_stride : ℕ
  pub pixel_format : PixelFormat
  pub metadata : FrameMetadata

abbrev pub word : ℕ → ℕ
word n = n % 2 ^ 64

-- The stride that `create` uses: one packed row where the caller gives none.
abbrev pub stride_or : ℕ → ℕ → ℕ
stride_or given row_bytes = if given == 0 then row_bytes else given

-- The part of `Frame::create` after the row size and stride are known.
unfoldable pub place : TensorBuffer → ℕ → ℕ → PixelFormat → ℕ → ℕ → FrameMetadata → ℕ → Result Frame
place b width height format row_bytes stride metadata offset = do
  reject_if (ltb stride row_bytes)
      (error invalid_argument "frame row stride is smaller than one pixel row")
  reject_if (ltb ((size_max - row_bytes) / stride) (height - 1))
      (error invalid_argument "frame byte size overflows size_t")
  let byte_size = word (word ((height - 1) * stride) + row_bytes)
  reject_if (ltb b.capacity offset || ltb (b.capacity - offset) byte_size)
      (error invalid_argument "frame view exceeds its buffer capacity")
  success (record {
    buffer = b;
    byte_offset = offset;
    byte_size = byte_size;
    width = width;
    height = height;
    row_stride = stride;
    pixel_format = format;
    metadata = metadata;
  })

-- `Frame::create`.
unfoldable pub create : TensorBuffer → ℕ → ℕ → PixelFormat → ℕ → FrameMetadata → ℕ → Result Frame
create b width height format row_stride metadata offset = do
  reject_if (buffer_empty b) (error invalid_argument "frame buffer must not be empty")
  reject_if (width == 0 || height == 0)
      (error invalid_argument "frame dimensions must be greater than zero")
  let pixel_bytes = pixel_format_size format
  reject_if (pixel_bytes == 0) (error invalid_argument "frame pixel format is invalid")
  reject_if (ltb (size_max / pixel_bytes) width)
      (error invalid_argument "frame row size overflows size_t")
  let row_bytes = word (width * pixel_bytes)
  place b width height format row_bytes (stride_or row_stride row_bytes) metadata offset

-- `Frame::spec`.
abbrev pub spec : Frame → FrameSpec
spec f = record {
  pixel_formats = f.pixel_format ∷ [];
  width = some f.width;
  height = some f.height;
  device = some f.buffer.dev;
}
