-- ===== src/Camera/Trigger/Tests.antt =====
-- A test of Runtime/src/camera/timedTriggerSource.cpp on a small run, and instances of what is proved
-- of it.
use vision_runtime.Prelude.{ℕ, ◌+◌, ◌≤◌, ◌≡◌, refl, List, [], ◌∷◌}
use vision_runtime.Core.Status.{
  Status, Result, success, failure, error, unavailable, deadline_exceeded, with_context,
}
use vision_runtime.Camera.Trigger.{
  ended, failing, delivering, Source, Event, schedules, times_out, arrives, camera_moves, stops,
  create, check_start, start, request_stop, next_round, trigger_returns, hear_response,
  hear_callback, move_scheduler, time_out, arrive, move_camera, step, play,
}
use vision_runtime.Camera.Trigger.Scheduling.{
  frames_taken, started_source, one_frame_per_trigger, wait_is_final, stop_ends_scheduling,
  failures_at_once,
}

abbrev done : Result (Unit {0})
done = success tt

-- A trigger with its frame, and one that the camera does not answer in time.
abbrev history : List (Event ℕ)
history =
    schedules done
    ∷ schedules done
    ∷ arrives (success 7)
    ∷ camera_moves
    ∷ camera_moves
    ∷ schedules done
    ∷ schedules done
    ∷ times_out
    ∷ schedules done
    ∷ times_out
    ∷ schedules done
    ∷ []

abbrev over : Source ℕ
over = play history (started_source done)

over_calls :
    over.calls
    ≡ success 7
      ∷ failure
          (error deadline_exceeded "camera did not respond to software trigger before timeout")
      ∷ []
unfolding play step create check_start start next_round trigger_returns hear_response hear_callback
    move_scheduler time_out arrive move_camera
over_calls = refl

one_frame_per_trigger_example : frames_taken over ≤ over.triggers + 1
one_frame_per_trigger_example = one_frame_per_trigger done history

wait_is_final_example : (play (arrives (success 8) ∷ stops ∷ []) over).calls ≡ over.calls
unfolding play step create check_start start next_round trigger_returns hear_response hear_callback
    move_scheduler time_out arrive move_camera
wait_is_final_example = wait_is_final done history (arrives (success 8) ∷ stops ∷ []) refl refl

abbrev stopping : Source ℕ
stopping = play (schedules done ∷ stops ∷ []) (started_source done)

stop_ends_scheduling_example :
    (play (schedules done ∷ schedules done ∷ []) stopping).scheduler ≡ ended
unfolding play step create check_start start next_round move_scheduler request_stop
stop_ends_scheduling_example = stop_ends_scheduling done done stopping refl (λ h. cc)

abbrev no_signal : Status
no_signal = error unavailable "no signal"

abbrev triggered : Source ℕ
triggered = play (schedules done ∷ []) (started_source done)

failures_at_once_example :
    let e = play (arrives (failure no_signal) ∷ schedules (failure no_signal) ∷ []) triggered in
    (e.camera ≡ delivering (failure no_signal))
    × (e.scheduler ≡ failing (with_context no_signal "software trigger failed"))
unfolding play step create check_start start next_round move_scheduler
failures_at_once_example = failures_at_once no_signal no_signal triggered refl refl refl refl refl
