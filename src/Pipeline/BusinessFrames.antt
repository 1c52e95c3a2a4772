-- ===== src/Pipeline/BusinessFrames.antt =====
-- Runtime/include/pipeline/businessFramePool.hpp on Runtime/include/memory/cpuBufferPool.hpp: a pool of
-- buffers for frames of one layout.
use vision_runtime.Prelude.{
  ℕ, zero, suc, ◌+◌, ◌-◌, ◌*◌, ◌/◌, ◌≤◌, ◌<◌, false, ◌||◌, ◌≡◌, refl, Option, none, some, [],
  get_elem?, ltb, ◌==◌, size_max, arith, inl, inr, ◌∙◌, Bool-cases,
}
use vision_runtime.Core.Status.{
  Result, success, failure, error, invalid_argument, internal, ◌>>=◌, ◌>>◌, reject_if,
}
use vision_runtime.Core.Buffer.{TensorBuffer, buffer_empty}
use vision_runtime.Memory.BufferPool.{
  Pool, Allocation, allocated, bad_alloc, length_error, with_buffer, push_slot, fill, Acquired,
  taken, refused, waiting, acquire_impl, no_wait, leased_buffer, create as create_buffers,
}
use vision_runtime.Core.Tensor.Counts.{quotient_guard, quotient_guard_holds}
use vision_runtime.Vision.Frame.Bounds.{split_rows, pixel_format_size_pos}
use vision_runtime.Vision.FrameSpec.{PixelFormat, pixel_format_size}
use vision_runtime.Vision.Frame.{
  create as create_frame, Frame, FrameMetadata, word, stride_or, place,
}

pub record FramePool : Type 0 where
  pub pool : Pool
  pub width : ℕ
  pub height : ℕ
  pub row_stride : ℕ
  pub pixel_format : PixelFormat

-- `BusinessFramePool::create` after the row size and the stride are known.
unfoldable pub create_pool :
    ℕ → ℕ → ℕ → PixelFormat → ℕ → ℕ → (ℕ → ℕ → Allocation) → Result FramePool
create_pool count width height format row_bytes stride allocate = do
  reject_if (ltb stride row_bytes || ltb (size_max / stride) height)
      (error invalid_argument "business frame layout is invalid")
  pool ← create_buffers count (word (height * stride)) (some allocate)
  success (record {
    pool = pool;
    width = width;
    height = height;
    row_stride = stride;
    pixel_format = format;
  })

-- `BusinessFramePool::create`; the allocator is that of CpuBufferPool.
unfoldable pub create : ℕ → ℕ → ℕ → PixelFormat → ℕ → (ℕ → ℕ → Allocation) → Result FramePool
unfolding create_pool
create count width height format row_stride allocate = do
  reject_if (width == 0 || height == 0)
      (error invalid_argument "business frame dimensions must be greater than zero")
  let pixel_bytes = pixel_format_size format
  reject_if (pixel_bytes == 0) (error invalid_argument "business frame pixel format is invalid")
  reject_if (ltb (size_max / pixel_bytes) width)
      (error invalid_argument "business frame row size overflows size_t")
  let row_bytes = word (width * pixel_bytes)
  create_pool count width height format row_bytes (stride_or row_stride row_bytes) allocate

-- The frame over a buffer that the pool returned.
unfoldable pub frame_over : TensorBuffer → FrameMetadata → FramePool → Result Frame
frame_over b metadata p = create_frame b p.width p.height p.pixel_format p.row_stride metadata 0

-- The pool gives out only the indices of its slots, and does not wait here, so that the two errors
-- without a counterpart in the source do not occur.
abbrev pub leased_frame :
    FrameMetadata → FramePool → ℕ → Option TensorBuffer → ℕ → Pool → Result Frame × FramePool
leased_frame metadata p lease none index pool = (failure (error internal "no such slot"), p)
leased_frame metadata p lease (some slot) index pool =
    (leased_buffer lease slot >>= (λ b. frame_over b metadata p), record p { pool = pool })

-- `acquire`, with the number of the allocation that its lease makes.
unfoldable pub acquired_frame : ℕ → FrameMetadata → FramePool → Acquired → Result Frame × FramePool
unfolding frame_over
acquired_frame lease metadata p (taken index pool) =
    leased_frame metadata p lease (get_elem? p.pool.slots index) index pool
acquired_frame lease metadata p (refused s) = (failure s, p)
acquired_frame lease metadata p waiting = (failure (error internal "acquire does not wait"), p)

unfoldable pub acquire : ℕ → FrameMetadata → FramePool → Result Frame × FramePool
unfolding acquired_frame
acquire lease metadata p = acquired_frame lease metadata p (acquire_impl no_wait p.pool)

-- What the loop of the pool keeps.
fill-capacity :
    (allocate : ℕ → ℕ → Allocation) (count left index : ℕ) (pool : Pool) {q : Pool}
    → fill allocate count left index pool ≡ success q
    → q.buffer_capacity ≡ pool.buffer_capacity
unfolding fill with_buffer push_slot
fill-capacity allocate count zero index pool h = cc
fill-capacity allocate count (suc left) index pool {q = q} h =
    elim (allocate index pool.buffer_capacity)
        as (λ a.
          with_buffer a (λ b. fill allocate count left (index + 1) (push_slot count index pool b))
            ≡ success q
          → q.buffer_capacity ≡ pool.buffer_capacity) [
            | allocated (success b) ↦
                λ k. fill-capacity allocate count left (index + 1) (push_slot count index pool b) k
            | allocated (failure s) ↦ λ k. cc
            | bad_alloc ↦ λ k. cc
            | length_error ↦ λ k. cc
          ]
      h

create_buffers-capacity :
    (count capacity : ℕ) (allocate : ℕ → ℕ → Allocation) {q : Pool}
    → create_buffers count capacity (some allocate) ≡ success q
    → q.buffer_capacity ≡ capacity
unfolding create_buffers
create_buffers-capacity count capacity allocate h =
    elim (Bool-cases (count == 0 || capacity == 0)) [
      | inl empty ↦ cc
      | inr fine ↦
          fill-capacity allocate count count 0
            (record { slots = []; available = []; buffer_capacity = capacity }) (rw fine at h)
    ]

-- What a successful `create` has established, with the pool of buffers it made.
created :
    (count width height : ℕ) (format : PixelFormat) (row_stride : ℕ) (allocate : ℕ → ℕ → Allocation)
    {p : FramePool}
    → create count width height format row_stride allocate ≡ success p
    → let row = word (width * pixel_format_size format) in
      let stride = stride_or row_stride row in
      (0 < width)
      × (0 < height)
      × (ltb (size_max / pixel_format_size format) width ≡ false)
      × (row ≤ stride)
      × (ltb (size_max / stride) height ≡ false)
      × (create_buffers count (word (height * stride)) (some allocate) ≡ success p.pool)
      × (p.width ≡ width)
      × (p.height ≡ height)
      × (p.row_stride ≡ stride)
      × (p.pixel_format ≡ format)
unfolding create create_pool
created count width height format row_stride allocate h = ground (arith, h)

row_pos : (w p : ℕ) → 0 < w → 0 < p → 0 < w * p
row_pos w p h k = grind arith

-- A nonempty buffer of `height` strides holds a frame with this stride.
strided_frame :
    (b : TensorBuffer) (width height stride : ℕ) (format : PixelFormat) (metadata : FrameMetadata)
    → buffer_empty b ≡ false
    → 0 < width
    → 0 < height
    → width * pixel_format_size format ≤ stride
    → height * stride ≤ size_max
    → b.capacity ≡ height * stride
    → (f : Frame) × (create_frame b width height format stride metadata 0 ≡ success f)
      × (f.width ≡ width)
      × (f.height ≡ height)
      × (f.byte_size ≤ b.capacity)
unfolding create_frame place
strided_frame b width height stride format metadata n w h r l c =
    (f, made, refl, refl, omega (arith, total, c))
  where
    row : ℕ
    row = width * pixel_format_size format

    some_row : 0 < row
    some_row = row_pos width (pixel_format_size format) w (pixel_format_size_pos format)

    total : (height - 1) * stride + stride ≡ height * stride
    total = split_rows height stride h

    f : Frame
    f = record {
      buffer = b;
      byte_offset = 0;
      byte_size = (height - 1) * stride + row;
      width = width;
      height = height;
      row_stride = stride;
      pixel_format = format;
      metadata = metadata;
    }

    row_fits : ltb (size_max / pixel_format_size format) width ≡ false
    row_fits =
        quotient_guard_holds width (pixel_format_size format) size_max
          (pixel_format_size_pos format) (omega (arith, r, l, total))

    rows_fit : ltb ((size_max - row) / stride) (height - 1) ≡ false
    rows_fit =
        quotient_guard_holds (height - 1) stride (size_max - row) (omega (arith, some_row, r))
          (omega (arith, r, l, total))

    row_word : word row ≡ row
    row_word = omega (arith, r, l, total)

    given : stride_or stride row ≡ stride
    given = ground (arith, some_row, r)

    wide_enough : ltb stride row ≡ false
    wide_enough = ground (arith, r)

    dims : (width == 0 || height == 0) ≡ false
    dims = ground (arith, w, h)

    format_ok : (pixel_format_size format == 0) ≡ false
    format_ok = ground (arith, pixel_format_size_pos format)

    size : word (word ((height - 1) * stride) + row) ≡ (height - 1) * stride + row
    size = omega (arith, r, l, total)

    placed : (ltb b.capacity 0 || ltb (b.capacity - 0) ((height - 1) * stride + row)) ≡ false
    placed = ground (arith, c, r, total)

    made : create_frame b width height format stride metadata 0 ≡ success f
    made =
        rw (n, dims, format_ok, row_fits, row_word, given, wide_enough, rows_fit, size, placed) refl

-- The pool's buffers are of the size that its frames need: over any nonempty buffer of this size
-- there is a frame of the pool's width and height, which `Frame::create` does not refuse.
pub business_frames_fit :
    (count width height : ℕ) (format : PixelFormat) (row_stride : ℕ) (allocate : ℕ → ℕ → Allocation)
    (metadata : FrameMetadata) (b : TensorBuffer) (p : FramePool)
    → create count width height format row_stride allocate ≡ success p
    → buffer_empty b ≡ false
    → b.capacity ≡ p.pool.buffer_capacity
    → (f : Frame) × (frame_over b metadata p ≡ success f)
      × (f.width ≡ width)
      × (f.height ≡ height)
      × (f.byte_size ≤ b.capacity)
unfolding frame_over
business_frames_fit count width height format row_stride allocate metadata b p h n c =
    let px = pixel_format_size format in
    let row = word (width * px) in
    let stride = stride_or row_stride row in
    let (w, g, fits, r, q, made, pw, ph, ps, pf) =
      created count width height format row_stride allocate h in
    let whole = quotient_guard width px size_max (pixel_format_size_pos format) fits in
    let same : row ≡ width * px = omega (arith, whole) in
    let some_row : 0 < row = rw same (row_pos width px w (pixel_format_size_pos format)) in
    let bytes = quotient_guard height stride size_max (omega (arith, some_row, r)) q in
    let capacity = create_buffers-capacity count (word (height * stride)) allocate made in
    let exact : word (height * stride) ≡ height * stride = omega (arith, bytes) in
    rw (pw, ph, ps, pf)
      (strided_frame b width height stride format metadata n w g (omega (arith, same, r)) bytes
        (c ∙ capacity ∙ exact))
