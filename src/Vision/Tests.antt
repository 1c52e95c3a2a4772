-- ===== src/Vision/Tests.antt =====
-- Tests of frames on small inputs, and instances of what is proved of them.
use vision_runtime.Prelude.{◌+◌, ◌≤◌, true, ◌≡◌, refl, none, some, [], ◌∷◌, arith}
use vision_runtime.Core.Status.{success, failure, error, invalid_argument}
use vision_runtime.Core.DataType.{cpu_device}
use vision_runtime.Core.Spec.{covers, all_some}
use vision_runtime.Core.Buffer.{TensorBuffer, host}
use vision_runtime.Vision.FrameSpec.{
  bgr8, rgb8, pixel_format_size, FrameSpec, frame_spec_is_valid, frame_spec_accepts, formats_accept,
  all_contained, contains_format,
}
use vision_runtime.Vision.Frame.{Frame, FrameMetadata, create, place, spec}
use vision_runtime.Vision.Frame.Bounds.{
  IsFrame, create-IsFrame, pixel_offset, pixel-in-buffer, rows_do_not_overlap,
}

abbrev storage : TensorBuffer
storage = record {
  owner = some 1;
  address = 4096;
  capacity = 64;
  dev = cpu_device;
  memory_kind = host;
  writable = true;
}

abbrev first_capture : FrameMetadata
first_capture = record { sequence_number = 1; captured_at = 0; hardware_timestamp = none }

-- A 4×3 image of three-byte pixels whose rows are 16 bytes apart.
abbrev frame : Frame
frame = record {
  buffer = storage;
  byte_offset = 8;
  byte_size = 44;
  width = 4;
  height = 3;
  row_stride = 16;
  pixel_format = bgr8;
  metadata = first_capture;
}

frame_created : create storage 4 3 bgr8 16 first_capture 8 ≡ success frame
unfolding create place
frame_created = refl

-- A stride that is shorter than a row is refused.
short_stride_refused :
    create storage 4 3 bgr8 11 first_capture 8
    ≡ failure (error invalid_argument "frame row stride is smaller than one pixel row")
unfolding create place
short_stride_refused = refl

create-IsFrame_example :
    IsFrame frame
    × (frame.buffer ≡ storage)
    × (frame.byte_offset ≡ 8)
    × (frame.width ≡ 4)
    × (frame.height ≡ 3)
create-IsFrame_example = create-IsFrame storage 4 3 bgr8 16 first_capture 8 frame_created

pixel-in-buffer_example :
    (pixel_offset frame 3 2 + pixel_format_size frame.pixel_format ≤ frame.byte_size)
    × (frame.byte_offset + pixel_offset frame 3 2 + pixel_format_size frame.pixel_format
        ≤ frame.buffer.capacity)
pixel-in-buffer_example =
    pixel-in-buffer storage 4 3 bgr8 16 first_capture 8 3 2 frame_created (omega arith)
      (omega arith)

rows_do_not_overlap_example :
    pixel_offset frame 3 0 + pixel_format_size frame.pixel_format ≤ pixel_offset frame 0 1
rows_do_not_overlap_example =
    rows_do_not_overlap storage 4 3 bgr8 16 first_capture 8 3 0 0 1 frame_created (omega arith)
      (omega arith)

abbrev colour : FrameSpec
colour = record { pixel_formats = bgr8 ∷ rgb8 ∷ []; width = none; height = none; device = none }

colour_fits : frame_spec_accepts colour colour ≡ true
unfolding frame_spec_accepts frame_spec_is_valid all_some formats_accept all_contained
    contains_format covers
colour_fits = refl

frame_fits : frame_spec_accepts colour (spec frame) ≡ true
unfolding frame_spec_accepts frame_spec_is_valid all_some formats_accept all_contained
    contains_format covers
frame_fits = refl
