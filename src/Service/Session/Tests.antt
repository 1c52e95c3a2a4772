-- ===== src/Service/Session/Tests.antt =====
-- Tests of the session controller on small histories, and instances of what is proved of it.
use vision_runtime.Prelude.{true, false, ◌&&◌, some, List, [], ◌∷◌, ◌++◌, is_some, ◌≡◌, ◌≢◌, refl}
use vision_runtime.Core.Status.{
  Result, success, failure, error, backend_error, to_string, status_code_name,
}
use vision_runtime.Executor.Serial.{immediate}
use vision_runtime.Service.Session.{
  idle, configuring, running, SessionCounters, zero_counters, finished, waiting, Controller,
  new_controller, adopt, configure, join_watch, join_control, launch_control, launch_watch,
  move_client, away, start, request_stop, note_error, live_counters, move_control, move_watch,
  Event, configures, starts, client_moves, stops, controls, watches, step, play,
}
use vision_runtime.Service.Session.Runs.{states_follow_runs}
use vision_runtime.Service.Session.Consistency.{is_busy, owns, runs, under_way}
use vision_runtime.Service.Session.Ending.{IsOver, turns, run_ends, stop_reports}
use vision_runtime.Service.Session.Restart.{restart_terminates}

abbrev opens : Result (Unit {0})
opens = success tt

abbrev summary : SessionCounters
summary = record (zero_counters 2) { received = 9; completed = 9 }

-- A configured session is started, and its control thread waits for a stop.
abbrev started : List Event
started =
    configures (some 7) 2
    ∷ client_moves
    ∷ client_moves
    ∷ client_moves
    ∷ starts
    ∷ client_moves
    ∷ client_moves
    ∷ controls opens summary
    ∷ controls opens summary
    ∷ []

-- The sources end by themselves, which the watch thread sees.
abbrev ended_by_itself : List Event
ended_by_itself =
    started
    ++ watches false
      ∷ watches false
      ∷ controls opens summary
      ∷ controls opens summary
      ∷ controls opens summary
      ∷ []

run_completed : (play ended_by_itself new_controller).reports ≡ summary ∷ []
unfolding play step configure adopt start join_watch join_control launch_control launch_watch
    move_client move_control move_watch request_stop
run_completed = refl

-- A session that cannot be opened leaves its error and is given back.
open_failed :
    let c =
      play
        (configures (some 7) 2
          ∷ client_moves
          ∷ client_moves
          ∷ client_moves
          ∷ starts
          ∷ client_moves
          ∷ client_moves
          ∷ turns (failure (error backend_error "no model")) summary 5)
        new_controller in
    (c.last_error ≡ "BackendError: no model") × (c.session ≡ some 7) × (c.lifecycle ≡ idle)
unfolding play step configure adopt start join_watch join_control launch_control launch_watch
    move_client move_control note_error to_string status_code_name
open_failed = (refl, refl, refl)

states_follow_runs_example :
    let c = play started new_controller in
    (is_some (live_counters summary c) ≡ under_way c)
    × (is_busy c.lifecycle ≡ under_way c)
    × ((is_some c.session && owns c.control) ≡ false)
    × (c.lifecycle ≢ configuring)
states_follow_runs_example = states_follow_runs started summary

runs_on : runs (play started new_controller).control ≡ true
unfolding play step configure adopt start join_watch join_control launch_control launch_watch
    move_client move_control
runs_on = refl

alive : (play started new_controller).terminated ≡ false
unfolding play step configure adopt start join_watch join_control launch_control launch_watch
    move_client move_control
alive = refl

run_ends_example :
    IsOver (play (turns opens summary 5) (request_stop immediate (play started new_controller)))
run_ends_example = run_ends started immediate opens summary runs_on alive

abbrev in_run : Controller
in_run = record new_controller {
  lifecycle = running;
  running_session = some 7;
  source_count = 2;
  control = waiting 7;
}

stop_reports_example :
    let d = play (stops immediate ∷ turns opens summary 3) in_run in
    (d.forwarded ≡ [] ++ (7, immediate) ∷ [])
    × (d.reports ≡ [] ++ summary ∷ [])
    × (d.counters ≡ summary)
    × (d.session ≡ some 7)
    × (d.lifecycle ≡ idle)
stop_reports_example = stop_reports immediate opens summary 7 in_run refl refl refl

run_finished : (play ended_by_itself new_controller).control ≡ finished
unfolding play step configure adopt start join_watch join_control launch_control launch_watch
    move_client move_control move_watch request_stop
run_finished = refl

nobody_calls : (play ended_by_itself new_controller).client ≡ away
unfolding play step configure adopt start join_watch join_control launch_control launch_watch
    move_client move_control move_watch request_stop
nobody_calls = refl

restart_terminates_example :
    (play (starts ∷ client_moves ∷ []) (play ended_by_itself new_controller)).terminated ≡ true
restart_terminates_example = restart_terminates ended_by_itself run_finished nobody_calls
