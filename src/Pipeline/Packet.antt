-- ===== src/Pipeline/Packet.antt =====
-- Runtime/include/pipeline/pipelinePacket.hpp and Runtime/include/pipeline/frameRetentionPolicy.hpp: a
-- packet of one frame with the business frame made of it.
use vision_runtime.Prelude.{ℕ, ◌+◌, ◌%◌, ◌^◌, ◌≤◌, Option, none, some, List, [], ◌∷◌, arith}
use vision_runtime.Vision.Frame.{Frame}

pub data FrameReleaseStage : Type 0 where
  after_image_preparation after_postprocess : FrameReleaseStage

pub record OwnershipOptions : Type 0 where
  pub camera_frame_release : FrameReleaseStage
  pub business_frame_release : FrameReleaseStage

pub record Packet : Type 0 where
  pub camera_frame : Option Frame
  pub business_frame : Option Frame
  pub options : OwnershipOptions
  pub execution_id : ℕ
  pub source_id : Option ℕ

-- The constructor, with the counter of executions before it and after it.
unfoldable pub new_packet : Frame → OwnershipOptions → Option ℕ → ℕ → Packet × ℕ
new_packet frame options source next = (
  record {
    camera_frame = some frame;
    business_frame = none;
    options = options;
    execution_id = next;
    source_id = source;
  },
  (next + 1) % 2 ^ 64,
)

-- A move into a new or another packet: that packet, and what is left of the old one.
unfoldable pub move_packet : Packet → Packet × Packet
move_packet p = (p, record p { camera_frame = none; business_frame = none })

unfoldable pub set_source_id : Option ℕ → Packet → Packet
set_source_id source p = record p { source_id = source }

abbrev pub release : FrameReleaseStage → Option Frame → Option Frame
release after_image_preparation f = none
release after_postprocess f = f

unfoldable pub complete_image_preparation : Option Frame → Packet → Packet
complete_image_preparation business p = record p {
  business_frame = release p.options.business_frame_release business;
  camera_frame = release p.options.camera_frame_release p.camera_frame;
}

unfoldable pub finish_postprocess : Packet → Packet
finish_postprocess p = record p { camera_frame = none; business_frame = none }

unfoldable pub take_camera_frame : Packet → Option Frame × Packet
take_camera_frame p = (p.camera_frame, record p { camera_frame = none })

unfoldable pub take_business_frame : Packet → Option Frame × Packet
take_business_frame p = (p.business_frame, record p { business_frame = none })

pub data Action : Type 0 where
  prepares : Option Frame → Action
  marks : Option ℕ → Action
  takes_camera takes_business finishes moves : Action

-- An action on a packet, with the frames that it hands out. A move goes on with the new packet.
unfoldable pub act : Action → Packet → Option Frame × Packet
unfolding complete_image_preparation take_camera_frame take_business_frame finish_postprocess
    move_packet set_source_id
act (prepares f) p = (none, complete_image_preparation f p)
act (marks source) p = (none, set_source_id source p)
act takes_camera p = take_camera_frame p
act takes_business p = take_business_frame p
act finishes p = (none, finish_postprocess p)
act moves p = (none, (move_packet p).0)

abbrev pub amount : Option Frame → ℕ
amount none = 0
amount (some f) = 1

abbrev offered : Action → ℕ
offered (prepares f) = amount f
offered (marks source) = 0
offered takes_camera = 0
offered takes_business = 0
offered finishes = 0
offered moves = 0

-- How many frames the actions hand out, and how many they put into the packet.
unfoldable pub handed_out : List Action → Packet → ℕ
unfolding act
handed_out [] p = 0
handed_out (a ∷ rest) p = amount (act a p).0 + handed_out rest (act a p).1

unfoldable pub put_in : List Action → ℕ
put_in [] = 0
put_in (a ∷ rest) = offered a + put_in rest

act-amounts :
    (a : Action) (p : Packet)
    → amount (act a p).0 + (amount (act a p).1.camera_frame + amount (act a p).1.business_frame)
      ≤ amount p.camera_frame + (amount p.business_frame + offered a)
unfolding act complete_image_preparation take_camera_frame take_business_frame finish_postprocess
    move_packet set_source_id
act-amounts a p = ground arith

-- Whatever is done with a packet, it hands out at most as many frames as it holds and is given: no
-- frame is handed out twice.
pub frames_leave_once :
    (rest : List Action) (p : Packet)
    → handed_out rest p ≤ amount p.camera_frame + (amount p.business_frame + put_in rest)
unfolding handed_out put_in
frames_leave_once [] p = omega arith
frames_leave_once (a ∷ rest) p = omega (arith, act-amounts a p, frames_leave_once rest (act a p).1)
