-- ===== src/Pipeline/FrameTests.antt =====
-- Tests of packets and business frames, and instances of what is proved of them.
use vision_runtime.Prelude.{ℕ, ◌≤◌, true, ◌≡◌, refl, none, some, List, [], ◌∷◌}
use vision_runtime.Core.Status.{success}
use vision_runtime.Core.DataType.{cpu_device}
use vision_runtime.Core.Buffer.{TensorBuffer, host}
use vision_runtime.Memory.BufferPool.{
  Allocation, allocated, fill, with_buffer, push_slot, create as create_buffers,
}
use vision_runtime.Vision.FrameSpec.{bgr8}
use vision_runtime.Vision.Frame.{Frame, FrameMetadata}
use vision_runtime.Pipeline.BusinessFrames.{
  FramePool, create, create_pool, frame_over, business_frames_fit,
}
use vision_runtime.Pipeline.Packet.{
  Packet, after_image_preparation, after_postprocess, new_packet, Action, prepares, takes_camera,
  takes_business, finishes, moves, act, handed_out, complete_image_preparation, take_camera_frame,
  take_business_frame, finish_postprocess, move_packet,
}

abbrev storage : TensorBuffer
storage = record {
  owner = some 1;
  address = 4096;
  capacity = 36;
  dev = cpu_device;
  memory_kind = host;
  writable = true;
}

abbrev allocator : ℕ → ℕ → Allocation
allocator index capacity = allocated (success storage)

-- Frames of 4×3 three-byte pixels.
abbrev frame_pool : FramePool
frame_pool = record {
  pool = record { slots = storage ∷ []; available = 0 ∷ []; buffer_capacity = 36 };
  width = 4;
  height = 3;
  row_stride = 12;
  pixel_format = bgr8;
}

pool_created : create 1 4 3 bgr8 0 allocator ≡ success frame_pool
unfolding create create_pool create_buffers fill with_buffer push_slot
pool_created = refl

abbrev capture : FrameMetadata
capture = record { sequence_number = 1; captured_at = 0; hardware_timestamp = none }

business_frames_fit_example :
    (f : Frame) × (frame_over storage capture frame_pool ≡ success f)
    × (f.width ≡ 4)
    × (f.height ≡ 3)
    × (f.byte_size ≤ 36)
business_frames_fit_example =
    business_frames_fit 1 4 3 bgr8 0 allocator capture storage frame_pool pool_created refl refl

abbrev frame : Frame
frame = record {
  buffer = storage;
  byte_offset = 0;
  byte_size = 36;
  width = 4;
  height = 3;
  row_stride = 12;
  pixel_format = bgr8;
  metadata = capture;
}

abbrev packet : Packet
packet = record {
  camera_frame = some frame;
  business_frame = none;
  options = record {
    camera_frame_release = after_image_preparation;
    business_frame_release = after_postprocess;
  };
  execution_id = 1;
  source_id = none;
}

packet_made : new_packet frame packet.options none 1 ≡ (packet, 2)
unfolding new_packet
packet_made = refl

abbrev actions : List Action
actions =
    moves ∷ prepares (some frame) ∷ takes_camera ∷ takes_business ∷ takes_business ∷ finishes ∷ []

-- The camera's frame is released after the preparation, the business frame is handed out once.
one_frame_out : handed_out actions packet ≡ 1
unfolding handed_out act complete_image_preparation take_camera_frame take_business_frame
    finish_postprocess move_packet
one_frame_out = refl
