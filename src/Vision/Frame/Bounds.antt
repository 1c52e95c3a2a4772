-- ===== src/Vision/Frame/Bounds.antt =====
-- The bytes of the frames of Runtime/include/vision/frame.hpp, and where their pixels lie.
use native.Mathlib.Nat.{mul-le-mul_right}
use vision_runtime.Prelude.{
  ℕ, zero, suc, ◌+◌, ◌-◌, ◌*◌, ◌/◌, ◌≤◌, ◌<◌, false, ◌≡◌, refl, ap, ◌||◌, arith, ltb, ◌==◌,
  size_max,
}
use vision_runtime.Core.Status.{success}
use vision_runtime.Core.Buffer.{TensorBuffer, buffer_empty}
use vision_runtime.Core.Tensor.Counts.{quotient_guard, quotient_guard_holds}
use vision_runtime.Vision.FrameSpec.{PixelFormat, pixel_format_size}
use vision_runtime.Vision.Frame.{Frame, FrameMetadata, word, stride_or, place, create}

-- What `create` establishes.
pub record IsFrame (f : Frame) : Type 0 where
  pub nonempty : buffer_empty f.buffer ≡ false
  pub wide : 0 < f.width
  pub high : 0 < f.height
  pub rows : f.width * pixel_format_size f.pixel_format ≤ f.row_stride
  pub sized :
      f.byte_size ≡ (f.height - 1) * f.row_stride + f.width * pixel_format_size f.pixel_format
  pub inside : f.byte_offset + f.byte_size ≤ f.buffer.capacity

pub pixel_format_size_pos : (p : PixelFormat) → 0 < pixel_format_size p
pixel_format_size_pos p = ground arith

place-IsFrame :
    (b : TensorBuffer) (width height : ℕ) (format : PixelFormat) (row_bytes stride : ℕ)
    (metadata : FrameMetadata) (offset : ℕ) {f : Frame}
    → buffer_empty b ≡ false
    → 0 < width
    → 0 < height
    → row_bytes ≡ width * pixel_format_size format
    → 0 < row_bytes
    → row_bytes ≤ size_max
    → place b width height format row_bytes stride metadata offset ≡ success f
    → IsFrame f
      × (f.buffer ≡ b)
      × (f.byte_offset ≡ offset)
      × (f.width ≡ width)
      × (f.height ≡ height)
unfolding place
place-IsFrame b width height format row_bytes stride metadata offset {f} n w h r p m e = (
  record {
    nonempty = ground arith;
    wide = ground arith;
    high = ground arith;
    rows = ground arith;
    sized = ground (arith, total);
    inside = ground arith;
  },
  ground arith,
  ground arith,
  ground arith,
  ground arith,
)
  where
    fits : ltb ((size_max - row_bytes) / stride) (height - 1) ≡ false
    fits = ground arith

    total : word (word ((height - 1) * stride) + row_bytes) ≡ (height - 1) * stride + row_bytes
    total =
        omega (arith, quotient_guard (height - 1) stride (size_max - row_bytes) (ground arith) fits)

row_bytes_pos : (w p : ℕ) → 0 < w → 0 < p → 0 < w * p
row_bytes_pos w p h k = grind arith

create-place :
    (b : TensorBuffer) (width height : ℕ) (format : PixelFormat) (row_stride : ℕ)
    (metadata : FrameMetadata) (offset : ℕ) {f : Frame}
    → create b width height format row_stride metadata offset ≡ success f
    → let row = word (width * pixel_format_size format) in
      (buffer_empty b ≡ false)
      × (0 < width)
      × (0 < height)
      × (ltb (size_max / pixel_format_size format) width ≡ false)
      × (place b width height format row (stride_or row_stride row) metadata offset ≡ success f)
unfolding create
create-place b width height format row_stride metadata offset e = ground arith

-- A frame that `create` returns is well formed over the given buffer, offset and dimensions: its
-- rows hold its pixels, its byte size is the true one, and its bytes lie inside the buffer.
pub create-IsFrame :
    (b : TensorBuffer) (width height : ℕ) (format : PixelFormat) (row_stride : ℕ)
    (metadata : FrameMetadata) (offset : ℕ) {f : Frame}
    → create b width height format row_stride metadata offset ≡ success f
    → IsFrame f
      × (f.buffer ≡ b)
      × (f.byte_offset ≡ offset)
      × (f.width ≡ width)
      × (f.height ≡ height)
create-IsFrame b width height format row_stride metadata offset e =
    let px = pixel_format_size format in
    let (n, w, h, g, e') = create-place b width height format row_stride metadata offset e in
    let q = quotient_guard width px size_max (pixel_format_size_pos format) g in
    let r : word (width * px) ≡ width * px = omega arith in
    place-IsFrame b width height format (word (width * px))
      (stride_or row_stride (word (width * px))) metadata offset n w h r
      (rw r (row_bytes_pos width px w (pixel_format_size_pos format))) (omega arith) e'

-- Where a pixel starts, from the start of the frame's bytes.
abbrev pub pixel_offset : Frame → ℕ → ℕ → ℕ
pixel_offset f x y = y * f.row_stride + x * pixel_format_size f.pixel_format

pixel_inside :
    (f : Frame) (x y : ℕ)
    → IsFrame f
    → x < f.width
    → y < f.height
    → (pixel_offset f x y + pixel_format_size f.pixel_format ≤ f.byte_size)
      × (f.byte_offset + pixel_offset f x y + pixel_format_size f.pixel_format ≤ f.buffer.capacity)
pixel_inside f x y w hx hy = omega (arith, w.inside, w.sized, column, row)
  where
    row : y * f.row_stride ≤ (f.height - 1) * f.row_stride
    row = mul-le-mul_right f.row_stride (omega arith)

    column : suc x * pixel_format_size f.pixel_format ≤ f.width * pixel_format_size f.pixel_format
    column = mul-le-mul_right (pixel_format_size f.pixel_format) hx

rows_apart :
    (f : Frame) (x x' y y' : ℕ)
    → IsFrame f
    → x < f.width
    → y < y'
    → pixel_offset f x y + pixel_format_size f.pixel_format ≤ pixel_offset f x' y'
rows_apart f x x' y y' w hx hy = omega (arith, w.rows, column, row)
  where
    row : suc y * f.row_stride ≤ y' * f.row_stride
    row = mul-le-mul_right f.row_stride hy

    column : suc x * pixel_format_size f.pixel_format ≤ f.width * pixel_format_size f.pixel_format
    column = mul-le-mul_right (pixel_format_size f.pixel_format) hx

-- Every pixel of a frame that `create` returns lies inside the frame's bytes and inside the buffer, from
-- the given offset on.
pub pixel-in-buffer :
    (b : TensorBuffer) (width height : ℕ) (format : PixelFormat) (row_stride : ℕ)
    (metadata : FrameMetadata) (offset x y : ℕ) {f : Frame}
    → create b width height format row_stride metadata offset ≡ success f
    → x < width
    → y < height
    → (pixel_offset f x y + pixel_format_size f.pixel_format ≤ f.byte_size)
      × (offset + pixel_offset f x y + pixel_format_size f.pixel_format ≤ b.capacity)
pixel-in-buffer b width height format row_stride metadata offset x y {f} e hx hy =
    let (v, same, o, w, h) = create-IsFrame b width height format row_stride metadata offset e in
    let (in_bytes, in_buffer) =
      pixel_inside f x y v (omega (arith, w, hx)) (omega (arith, h, hy)) in
    (in_bytes, omega (arith, in_buffer, o, ap (λ (k : TensorBuffer). k.capacity) same))

-- Pixels of different rows of a frame that `create` returns do not overlap: a pixel ends before any
-- pixel of a later row starts.
pub rows_do_not_overlap :
    (b : TensorBuffer) (width height : ℕ) (format : PixelFormat) (row_stride : ℕ)
    (metadata : FrameMetadata) (offset x x' y y' : ℕ) {f : Frame}
    → create b width height format row_stride metadata offset ≡ success f
    → x < width
    → y < y'
    → pixel_offset f x y + pixel_format_size f.pixel_format ≤ pixel_offset f x' y'
rows_do_not_overlap b width height format row_stride metadata offset x x' y y' {f} e hx hy =
    let (v, same, o, w, h) = create-IsFrame b width height format row_stride metadata offset e in
    rows_apart f x x' y y' v (omega (arith, w, hx)) hy

pub split_rows : (h r : ℕ) → 0 < h → (h - 1) * r + r ≡ h * r
split_rows zero r p = absurd (omega arith)
split_rows (suc h) r p = let e : suc h - 1 ≡ h = omega arith in rw e (omega arith)

-- A nonempty buffer that holds a packed image at an offset makes a frame with packed rows.
pub packed_create :
    (b : TensorBuffer) (width height : ℕ) (format : PixelFormat) (metadata : FrameMetadata)
    (offset : ℕ)
    → buffer_empty b ≡ false
    → 0 < width
    → 0 < height
    → b.capacity ≤ size_max
    → offset + height * (width * pixel_format_size format) ≤ b.capacity
    → (f : Frame) × (create b width height format 0 metadata offset ≡ success f)
      × (f.row_stride ≡ width * pixel_format_size format)
      × (f.byte_size ≡ height * (width * pixel_format_size format))
unfolding create place
packed_create b width height format metadata offset n w h c l = (f, made, refl, refl)
  where
    px : ℕ
    px = pixel_format_size format

    row : ℕ
    row = width * px

    row_pos : 0 < row
    row_pos = row_bytes_pos width px w (pixel_format_size_pos format)

    row_le : row ≤ height * row
    row_le = grind (arith, row_pos)

    split : (height - 1) * row + row ≡ height * row
    split = split_rows height row h

    f : Frame
    f = record {
      buffer = b;
      byte_offset = offset;
      byte_size = height * row;
      width = width;
      height = height;
      row_stride = row;
      pixel_format = format;
      metadata = metadata;
    }

    dims : (width == 0 || height == 0) ≡ false
    dims = ground arith

    format_ok : (px == 0) ≡ false
    format_ok = ground (arith, pixel_format_size_pos format)

    row_fits : ltb (size_max / px) width ≡ false
    row_fits =
        quotient_guard_holds width px size_max (pixel_format_size_pos format)
          (omega (arith, row_le))

    row_word : word (width * px) ≡ row
    row_word = omega (arith, row_le)

    packed : stride_or 0 row ≡ row
    packed = refl

    not_small : ltb row row ≡ false
    not_small = ground arith

    rows_fit : ltb ((size_max - row) / row) (height - 1) ≡ false
    rows_fit = quotient_guard_holds (height - 1) row (size_max - row) row_pos (omega (arith, split))

    total : word (word ((height - 1) * row) + row) ≡ height * row
    total = omega (arith, split)

    placed : (ltb b.capacity offset || ltb (b.capacity - offset) (height * row)) ≡ false
    placed = ground arith

    made : create b width height format 0 metadata offset ≡ success f
    made = rw (n, dims, format_ok, row_fits, row_word, not_small, rows_fit, total, placed) refl
