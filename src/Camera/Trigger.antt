-- ===== src/Camera/Trigger.antt =====
-- Runtime/src/camera/timedTriggerSource.cpp: a source that triggers a camera, waits for its frame and
-- triggers again. The scheduling thread, the camera's thread, which calls `onDeviceFrame`, and the
-- clients take their steps in any order; each locked section and each call outside it is one step.
-- The camera's answers come with the events, and clock readings are milliseconds.
pub mod Scheduling
mod Tests
use vision_runtime.Prelude.{
  ℕ, ◌+◌, Bool, true, false, not, ◌&&◌, ◌||◌, List, [], ◌∷◌, ◌++◌, if◌then◌else◌, ltb, leb,
}
use vision_runtime.Prelude.Int.{ℤ}
use vision_runtime.Core.Status.{
  Status, Result, success, failure, error, invalid_argument, invalid_state, unsupported,
  deadline_exceeded, with_context, ◌>>◌, reject_if, has_value,
}
use vision_runtime.Executor.Frames.{is_negative, is_positive}

pub record Options : Type 0 where
  pub trigger_interval : ℤ
  pub response_timeout : ℤ

-- Where the scheduling thread stands: before its first lock, in the call of `softwareTrigger`, before
-- an error is delivered, and in the three waits of the loop.
pub data Scheduler : Type 0 where
  absent waits_for_start triggering waits_for_response waits_for_callback : Scheduler
  waits_for_deadline ended : Scheduler
  failing : Status → Scheduler

-- Where the camera's thread stands in `onDeviceFrame`.
pub data CameraThread (F : Type 0) : Type 0 where
  idle delivered : CameraThread F
  delivering : Result F → CameraThread F

pub record Source (F : Type 0) : Type 0 where
  pub started : Bool
  pub running : Bool
  pub activated : Bool
  pub stop_requested : Bool
  pub response_arrived : Bool
  pub callback_completed : Bool
  pub terminal : Bool
  pub scheduler : Scheduler
  pub camera : CameraThread F
  -- What the camera was asked, and what the callback was given, oldest first.
  pub triggers : ℕ
  pub camera_stopped : Bool
  pub calls : List (Result F)

pub data Event (F : Type 0) : Type 0 where
  -- A turn of the scheduling thread, with the answer of `softwareTrigger` where it calls it.
  schedules : Result (Unit {0}) → Event F
  -- The time of the wait at which the scheduling thread stands is over.
  times_out : Event F
  arrives : Result F → Event F
  camera_moves stops : Event F

unfoldable pub is_valid : Options → Bool
is_valid o = not (is_negative o.trigger_interval) && is_positive o.response_timeout

-- `TimedTriggerSource::create`.
unfoldable pub check_create : Bool → Options → Bool → Result (Unit {0})
unfolding is_valid
check_create has_device o supports_trigger =
    reject_if (not has_device) (error invalid_argument "timed trigger source requires a device")
    >> reject_if (not (is_valid o)) (error invalid_argument "invalid timed trigger source options")
    >> reject_if (not supports_trigger)
        (error unsupported "camera device does not support software trigger")

module _ {F : Type 0} where
  unfoldable pub create : Source F
  create = record {
    started = false;
    running = false;
    activated = false;
    stop_requested = false;
    response_arrived = false;
    callback_completed = false;
    terminal = false;
    scheduler = absent;
    camera = idle;
    triggers = 0;
    camera_stopped = false;
    calls = [];
  }

  unfoldable pub check_start : Bool → Source F → Result (Unit {0})
  check_start has_callback e =
      reject_if e.started (error invalid_state "timed trigger source has already started")
      >> reject_if (not has_callback) (error invalid_argument "frame callback must not be empty")

  -- The scheduling thread is created and waits.
  abbrev pub with_scheduler : Source F → Source F
  with_scheduler e = record e {
    activated = false;
    stop_requested = false;
    response_arrived = false;
    callback_completed = false;
    terminal = false;
    scheduler = waits_for_start;
  }

  -- The answer of `startAcquisition`; after a failure the scheduling thread is stopped and joined.
  abbrev pub acquired : Result (Unit {0}) → Source F → Source F
  acquired (success u) e = record e { started = true; running = true; activated = true }
  acquired (failure s) e = record e {
    stop_requested = true;
    running = false;
    camera_stopped = true;
    scheduler = ended;
  }

  abbrev pub start_checked : Result (Unit {0}) → Result (Unit {0}) → Source F → Source F
  start_checked (failure s) answer e = e
  start_checked (success u) answer e = acquired answer (with_scheduler e)

  unfoldable pub start : Bool → Result (Unit {0}) → Source F → Source F × Result (Unit {0})
  unfolding check_start
  start has_callback answer e =
      (start_checked (check_start has_callback e) answer e, check_start has_callback e >> answer)

  unfoldable pub request_stop : Source F → Source F
  request_stop e = record e { stop_requested = true; running = false; camera_stopped = true }

  -- The end of `run`.
  abbrev pub leave : Source F → Source F
  leave e = record e { running = false; camera_stopped = true; scheduler = ended }

  -- The head of the loop of `run`.
  unfoldable pub next_round : Source F → Source F
  next_round e = if e.stop_requested || e.terminal then leave e else record e {
    response_arrived = false;
    callback_completed = false;
    scheduler = triggering;
    triggers = e.triggers + 1;
  }

  -- `softwareTrigger` has returned.
  unfoldable pub trigger_returns : Result (Unit {0}) → Source F → Source F
  unfolding with_context
  trigger_returns (success u) e = record e { scheduler = waits_for_response }
  trigger_returns (failure s) e =
      if e.response_arrived then record e { scheduler = waits_for_response } else record e {
        terminal = true;
        scheduler = failing (with_context s "software trigger failed");
      }

  -- The wait for the frame ends without a timeout.
  unfoldable pub hear_response : Source F → Source F
  hear_response e =
      if e.stop_requested
      then leave e
      else if e.response_arrived || e.terminal
      then record e { scheduler = waits_for_callback }
      else e

  unfoldable pub hear_callback : Source F → Source F
  hear_callback e =
      if not (e.callback_completed || e.stop_requested)
      then e
      else if e.stop_requested || e.terminal
      then leave e
      else record e { scheduler = waits_for_deadline }

  -- One turn of `run`.
  unfoldable pub move_scheduler : Scheduler → Result (Unit {0}) → Source F → Source F
  unfolding next_round trigger_returns hear_response hear_callback
  move_scheduler absent r e = e
  move_scheduler ended r e = e
  move_scheduler waits_for_start r e = if e.activated || e.stop_requested then next_round e else e
  move_scheduler triggering r e = trigger_returns r e
  move_scheduler (failing s) r e = leave (record e { calls = e.calls ++ failure s ∷ [] })
  move_scheduler waits_for_response r e = hear_response e
  move_scheduler waits_for_callback r e = hear_callback e
  move_scheduler waits_for_deadline r e = if e.stop_requested || e.terminal then next_round e else e

  -- The time of a wait is over.
  unfoldable pub time_out : Scheduler → Source F → Source F
  unfolding next_round hear_response
  time_out waits_for_response e =
      if e.response_arrived || e.stop_requested || e.terminal then hear_response e else record e {
        terminal = true;
        scheduler =
            failing
              (error deadline_exceeded "camera did not respond to software trigger before timeout");
      }
  time_out waits_for_deadline e = next_round e
  time_out _ e = e

  -- The first locked section of `onDeviceFrame`.
  unfoldable pub arrive : Result F → Source F → Source F
  arrive frame e =
      if e.stop_requested || e.terminal || (has_value frame && e.response_arrived)
      then e
      else if has_value frame
      then record e { response_arrived = true; camera = delivering frame }
      else record e { terminal = true; camera = delivering frame }

  -- The rest of `onDeviceFrame`.
  unfoldable pub move_camera : CameraThread F → Source F → Source F
  move_camera idle e = e
  move_camera (delivering frame) e = record e { calls = e.calls ++ frame ∷ []; camera = delivered }
  move_camera delivered e = record e { callback_completed = true; camera = idle }

  abbrev pub is_idle : CameraThread F → Bool
  is_idle idle = true
  is_idle _ = false

  unfoldable pub step : Event F → Source F → Source F
  unfolding move_scheduler time_out arrive move_camera request_stop
  step (schedules r) e = move_scheduler e.scheduler r e
  step times_out e = time_out e.scheduler e
  step (arrives f) e = if is_idle e.camera then arrive f e else e
  step camera_moves e = move_camera e.camera e
  step stops e = request_stop e

  unfoldable pub play : List (Event F) → Source F → Source F
  unfolding step
  play [] e = e
  play (v ∷ vs) e = play vs (step v e)
