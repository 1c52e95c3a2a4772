-- ===== src/Camera/Trigger/Scheduling.antt =====
-- The turns of the threads of Runtime/src/camera/timedTriggerSource.cpp.
use vision_runtime.Prelude.{
  ℕ, ◌+◌, ◌≤◌, Bool, true, false, ◌||◌, ◌≡◌, ◌≢◌, refl, ap, ◌∙◌, List, [], ◌∷◌, ◌++◌, arith,
  Bool-cases, inl, inr, if◌then◌else◌,
}
use vision_runtime.Core.Status.{Status, Result, success, failure, with_context}
use vision_runtime.Camera.Trigger.{
  Scheduler, absent, waits_for_start, triggering, waits_for_response, waits_for_callback,
  waits_for_deadline, ended, failing, CameraThread, idle, delivered, delivering, Source, Event,
  schedules, times_out, arrives, camera_moves, stops, create, check_start, start, request_stop,
  next_round, trigger_returns, hear_response, hear_callback, move_scheduler, time_out, arrive,
  move_camera, is_idle, step, play,
}

abbrev pub successes {ℓ} : {A : Type ℓ} → List (Result A) → ℕ
successes [] = 0
successes (success a ∷ rs) = successes rs + 1
successes (failure s ∷ rs) = successes rs

successes-snoc :
    {A : Type 0} (rs : List (Result A)) (r : Result A)
    → successes (rs ++ r ∷ []) ≡ successes rs + successes (r ∷ [])
successes-snoc [] r = omega arith
successes-snoc (success a ∷ rs) r = omega (arith, successes-snoc rs r)
successes-snoc (failure s ∷ rs) r = successes-snoc rs r

-- The scheduling thread ends, or delivers an error, only when no frame is accepted any more.
abbrev closes : Scheduler → Bool → Bool → Bool
closes ended stop terminal = stop || terminal
closes (failing s) stop terminal = terminal
closes absent stop terminal = true
closes waits_for_start stop terminal = true
closes triggering stop terminal = true
closes waits_for_response stop terminal = true
closes waits_for_callback stop terminal = true
closes waits_for_deadline stop terminal = true

module _ {F : Type 0} where
  abbrev pub in_delivery : CameraThread F → ℕ
  in_delivery (delivering f) = successes (f ∷ [])
  in_delivery idle = 0
  in_delivery delivered = 0

  -- The frames that were accepted from the camera.
  abbrev pub frames_taken : Source F → ℕ
  frames_taken e = successes e.calls + in_delivery e.camera

  record IsScheduled (e : Source F) : Type 0 where
    paced : frames_taken e + (if e.response_arrived then 0 else 1) ≤ e.triggers + 1
    closing : closes e.scheduler e.stop_requested e.terminal ≡ true

  next_round-IsScheduled : (e : Source F) → IsScheduled e → IsScheduled (next_round e)
  unfolding next_round
  next_round-IsScheduled e i = ground (arith, i.paced, i.closing)

  fails-IsScheduled :
      (s : Status) (e : Source F)
      → e.terminal ≡ true
      → IsScheduled e
      → IsScheduled (move_scheduler (failing s) (success tt) e)
  unfolding move_scheduler
  fails-IsScheduled s e t i = record {
    paced = omega (arith, i.paced, successes-snoc e.calls (failure s));
    closing = ground (arith, t);
  }

  either_way :
      (b : Bool) (e e' : Source F)
      → IsScheduled e
      → IsScheduled e'
      → IsScheduled (if b then e else e')
  either_way true e e' i j = i
  either_way false e e' i j = j

  scheduler-IsScheduled :
      (w : Scheduler) (r : Result (Unit {0})) (e : Source F)
      → e.scheduler ≡ w
      → IsScheduled e
      → IsScheduled (move_scheduler w r e)
  unfolding move_scheduler trigger_returns hear_response hear_callback
  scheduler-IsScheduled absent r e q i = i
  scheduler-IsScheduled ended r e q i = i
  scheduler-IsScheduled waits_for_start r e q i =
      either_way (e.activated || e.stop_requested) (next_round e) e (next_round-IsScheduled e i) i
  scheduler-IsScheduled triggering (success u) e q i = record { paced = i.paced; closing = refl }
  scheduler-IsScheduled triggering (failure s) e q i = ground (arith, i.paced)
  scheduler-IsScheduled (failing s) r e q i = fails-IsScheduled s e (ground (arith, q, i.closing)) i
  scheduler-IsScheduled waits_for_response r e q i = ground (arith, i.paced, i.closing)
  scheduler-IsScheduled waits_for_callback r e q i = ground (arith, i.paced, i.closing)
  scheduler-IsScheduled waits_for_deadline r e q i =
      either_way (e.stop_requested || e.terminal) (next_round e) e (next_round-IsScheduled e i) i

  time_out-IsScheduled : (w : Scheduler) (e : Source F) → IsScheduled e → IsScheduled (time_out w e)
  unfolding time_out hear_response
  time_out-IsScheduled waits_for_response e i = ground (arith, i.paced, i.closing)
  time_out-IsScheduled waits_for_deadline e i = next_round-IsScheduled e i
  time_out-IsScheduled absent e i = i
  time_out-IsScheduled ended e i = i
  time_out-IsScheduled waits_for_start e i = i
  time_out-IsScheduled triggering e i = i
  time_out-IsScheduled waits_for_callback e i = i
  time_out-IsScheduled (failing s) e i = i

  -- A frame is accepted only while none has arrived since the last trigger.
  arrive-IsScheduled :
      (f : Result F) (e : Source F)
      → is_idle e.camera ≡ true
      → IsScheduled e
      → IsScheduled (arrive f e)
  unfolding arrive
  arrive-IsScheduled (success f) e q i = ground (arith, q, i.paced, i.closing)
  arrive-IsScheduled (failure s) e q i = ground (arith, q, i.paced, i.closing)

  camera-IsScheduled :
      (c : CameraThread F) (e : Source F)
      → e.camera ≡ c
      → IsScheduled e
      → IsScheduled (move_camera c e)
  unfolding move_camera
  camera-IsScheduled idle e q i = i
  camera-IsScheduled (delivering f) e q i = record {
    paced = omega (arith, i.paced, ap in_delivery q, successes-snoc e.calls f);
    closing = i.closing;
  }
  camera-IsScheduled delivered e q i = record {
    paced = omega (arith, i.paced, ap in_delivery q);
    closing = i.closing;
  }

  step-IsScheduled : (v : Event F) (e : Source F) → IsScheduled e → IsScheduled (step v e)
  unfolding step request_stop
  step-IsScheduled (schedules r) e i = scheduler-IsScheduled e.scheduler r e refl i
  step-IsScheduled times_out e i = time_out-IsScheduled e.scheduler e i
  step-IsScheduled (arrives f) e i = elim (Bool-cases (is_idle e.camera)) [
    | inl free ↦ simp free (arrive-IsScheduled f e free i)
    | inr busy ↦ simp busy i
  ]
  step-IsScheduled camera_moves e i = camera-IsScheduled e.camera e refl i
  step-IsScheduled stops e i = ground (arith, i.paced, i.closing)

  play-IsScheduled : (vs : List (Event F)) (e : Source F) → IsScheduled e → IsScheduled (play vs e)
  unfolding play
  play-IsScheduled [] e i = i
  play-IsScheduled (v ∷ vs) e i = play-IsScheduled vs (step v e) (step-IsScheduled v e i)

  -- A source that was started, with the answer of `startAcquisition`.
  abbrev pub started_source : Result (Unit {0}) → Source F
  started_source answer = (start true answer create).0

  start-IsScheduled : (answer : Result (Unit {0})) → IsScheduled (started_source answer)
  unfolding start check_start create
  start-IsScheduled (success u) = record { paced = omega arith; closing = refl }
  start-IsScheduled (failure s) = record { paced = omega arith; closing = refl }

  -- Whatever the order of the turns after `start`, the camera has at most one frame accepted for each
  -- trigger, and one before the first trigger.
  pub one_frame_per_trigger :
      (answer : Result (Unit {0})) (vs : List (Event F))
      → let e = play vs (started_source answer) in frames_taken e ≤ e.triggers + 1
  one_frame_per_trigger answer vs =
      let i = play-IsScheduled vs (started_source answer) (start-IsScheduled answer) in
      omega (arith, i.paced)

  quiet_step :
      (v : Event F) (e : Source F)
      → e.scheduler ≡ ended
      → e.camera ≡ idle
      → (e.stop_requested || e.terminal) ≡ true
      → ((step v e).scheduler ≡ ended)
        × ((step v e).camera ≡ idle)
        × (((step v e).stop_requested || (step v e).terminal) ≡ true)
        × ((step v e).calls ≡ e.calls)
  unfolding step move_scheduler time_out arrive move_camera request_stop
  quiet_step v e s c h = ground (arith, s, c, h)

  quiet_play :
      (vs : List (Event F)) (e : Source F)
      → e.scheduler ≡ ended
      → e.camera ≡ idle
      → (e.stop_requested || e.terminal) ≡ true
      → (play vs e).calls ≡ e.calls
  unfolding play
  quiet_play [] e s c h = refl
  quiet_play (v ∷ vs) e s c h =
      let (s', c', h', same) = quiet_step v e s c h in quiet_play vs (step v e) s' c' h' ∙ same

  -- Once the scheduling thread has ended and the camera's thread is not in `onDeviceFrame`, as when
  -- `wait` returns, the callback gets nothing more, whatever happens afterwards.
  pub wait_is_final :
      (answer : Result (Unit {0})) (vs ws : List (Event F))
      → let e = play vs (started_source answer) in
        e.scheduler ≡ ended → e.camera ≡ idle → (play ws e).calls ≡ e.calls
  wait_is_final answer vs ws s c =
      let i = play-IsScheduled vs (started_source answer) (start-IsScheduled answer) in
      quiet_play ws (play vs (started_source answer)) s c (ground (arith, s, i.closing))

  -- Once a stop is requested, two turns of the scheduling thread end it, wherever it stands after
  -- `start` and whatever the camera answers.
  pub stop_ends_scheduling :
      (r r' : Result (Unit {0})) (e : Source F)
      → e.stop_requested ≡ true
      → e.scheduler ≢ absent
      → (play (schedules r ∷ schedules r' ∷ []) e).scheduler ≡ ended
  unfolding play step move_scheduler next_round trigger_returns hear_response hear_callback
  stop_ends_scheduling r r' e h a = ground (arith, h, a)

  -- When the camera reports a failure while `softwareTrigger` is running, and `softwareTrigger` fails
  -- too, both threads are about to call the callback at the same time, each with its failure.
  pub failures_at_once :
      (s t : Status) (e : Source F)
      → e.scheduler ≡ triggering
      → e.camera ≡ idle
      → e.stop_requested ≡ false
      → e.terminal ≡ false
      → e.response_arrived ≡ false
      → let e' = play (arrives (failure s) ∷ schedules (failure t) ∷ []) e in
        (e'.camera ≡ delivering (failure s))
        × (e'.scheduler ≡ failing (with_context t "software trigger failed"))
  unfolding play step arrive move_scheduler trigger_returns
  failures_at_once s t e w c h k a = ground (arith, w, c, h, k, a)
