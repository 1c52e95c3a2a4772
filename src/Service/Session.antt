-- ===== src/Service/Session.antt =====
-- Service/include/session/sessionController.hpp and Service/src/session/sessionController.cpp. Each
-- locked section, each join, each launch of a thread and each call of the session is one step of a
-- client, of the control thread or of the completion watch thread, in any order. One client calls
-- `configure` and `start`, one call at a time: their joins and launches stand outside of the lock, so
-- that two such calls at once are a data race. The other operations are called by any client at any
-- time. What the session answers comes with the events.
pub mod Consistency
pub mod Runs
pub mod Ending
pub mod Restart
mod Tests
use vision_runtime.Prelude.{
  ℕ, String, Bool, true, false, not, ◌&&◌, ◌||◌, Option, none, some, List, [], ◌∷◌, ◌++◌, replicate,
  ◌==◌, is_some, if◌then◌else◌,
}
use vision_runtime.Core.Status.{
  Status, Result, success, failure, error, invalid_argument, invalid_state, to_string, is_empty,
  ◌>>◌, reject_if,
}
use vision_runtime.Executor.Serial.{StopMode, graceful}

pub data SessionLifecycle : Type 0 where
  idle configuring running stopping : SessionLifecycle

unfoldable pub session_lifecycle_name : SessionLifecycle → String
session_lifecycle_name idle = "idle"
session_lifecycle_name configuring = "configuring"
session_lifecycle_name running = "running"
session_lifecycle_name stopping = "stopping"

pub record SessionCounters : Type 0 where
  pub received : ℕ
  pub submitted : ℕ
  pub completed : ℕ
  pub failed : ℕ
  pub dropped : ℕ
  pub source_failures : ℕ
  pub received_per_source : List ℕ
  pub dropped_per_source : List ℕ

abbrev pub zero_counters : ℕ → SessionCounters
zero_counters sources = record {
  received = 0;
  submitted = 0;
  completed = 0;
  failed = 0;
  dropped = 0;
  source_failures = 0;
  received_per_source = replicate sources 0;
  dropped_per_source = replicate sources 0;
}

-- Where `controlThreadMain` stands; the session that it owns is a number. A thread object that is
-- not `absent` is joinable, also when its thread has finished.
pub data Control : Type 0 where
  absent taking reporting finished : Control
  opening waiting draining : ℕ → Control
  noting : ℕ → Status → Control
  giving_back : ℕ → Control

-- Where `completionWatchMain` stands.
pub data Watch : Type 0 where
  absent polling finished : Watch
  checking : ℕ → Watch

-- Where the client stands in `configure`, at a join or at its locked section, or in `start`, after its
-- locked section.
pub data Client : Type 0 where
  away launching_control launching_watch : Client
  joining_watch joining_control adopting : Option ℕ → ℕ → Client

pub record Controller : Type 0 where
  pub lifecycle : SessionLifecycle
  pub session : Option ℕ
  pub running_session : Option ℕ
  pub pending_stop_mode : StopMode
  pub source_count : ℕ
  pub counters : SessionCounters
  pub last_error : String
  pub control : Control
  pub watch : Watch
  pub client : Client
  -- The stop requests that reached a session, and what the completion callback was called with.
  pub forwarded : List (ℕ × StopMode)
  pub reports : List SessionCounters
  -- `std::terminate` was called.
  pub terminated : Bool

abbrev pub new_controller : Controller
new_controller = record {
  lifecycle = idle;
  session = none;
  running_session = none;
  pending_stop_mode = graceful;
  source_count = 0;
  counters = zero_counters 0;
  last_error = "";
  control = absent;
  watch = absent;
  client = away;
  forwarded = [];
  reports = [];
  terminated = false;
}

abbrev pub control_joinable : Control → Bool
control_joinable absent = false
control_joinable _ = true

abbrev pub watch_joinable : Watch → Bool
watch_joinable absent = false
watch_joinable _ = true

abbrev pub control_ended : Control → Bool
control_ended absent = true
control_ended finished = true
control_ended _ = false

abbrev pub watch_ended : Watch → Bool
watch_ended absent = true
watch_ended finished = true
watch_ended _ = false

-- What a call has returned so far.
pub data Reply : Type 0 where
  replied : Result (Unit {0}) → Reply
  goes_on : Reply

abbrev pub check_start : Controller → Result (Unit {0})
check_start c = elim c.lifecycle [
  | running ↦ failure (error invalid_state "session is already running")
  | stopping ↦ failure (error invalid_state "session is stopping; wait for it to reach idle")
  | _ ↦ reject_if (not (is_some c.session)) (error invalid_state "session has not been configured")
]

abbrev pub check_configure : Option ℕ → ℕ → Result (Unit {0})
check_configure session sources = do
  reject_if (not (is_some session))
      (error invalid_argument "session controller requires an assembled session")
  reject_if (sources == 0)
      (error invalid_argument "session controller requires at least one source")

abbrev pub configure_if : Result (Unit {0}) → Option ℕ → ℕ → Controller → Reply × Controller
configure_if (failure s) session sources c = (replied (failure s), c)
configure_if (success u) session sources c =
    (goes_on, record c { client = joining_watch session sources })

-- `configure` up to `waitForIdle`.
unfoldable pub configure : Option ℕ → ℕ → Controller → Reply × Controller
configure session sources c = configure_if (check_configure session sources) session sources c

-- The first and the second join of `waitForIdle`; a join waits for its thread.
unfoldable pub join_watch : Option ℕ → ℕ → Controller → Controller
join_watch session sources c =
    if watch_ended c.watch
    then record c { watch = absent; client = joining_control session sources }
    else c

unfoldable pub join_control : Option ℕ → ℕ → Controller → Controller
join_control session sources c =
    if control_ended c.control
    then record c { control = absent; client = adopting session sources }
    else c

-- The locked section of `configure`.
unfoldable pub adopt : Option ℕ → ℕ → Controller → Controller
adopt session sources c = record c {
  session = session;
  source_count = sources;
  counters = zero_counters sources;
  lifecycle = idle;
  client = away;
}

-- The locked section of `start`.
abbrev pub start_if : Result (Unit {0}) → Controller → Reply × Controller
start_if (failure s) c = (replied (failure s), c)
start_if (success u) c = (
  goes_on,
  record c {
    lifecycle = running;
    running_session = c.session;
    counters = zero_counters c.source_count;
    pending_stop_mode = graceful;
    client = launching_control;
  },
)

unfoldable pub start : Controller → Reply × Controller
start c = start_if (check_start c) c

-- The launches of the two threads; an assignment to a joinable `std::thread` calls `std::terminate`.
unfoldable pub launch_control : Controller → Controller
launch_control c = record c {
  terminated = control_joinable c.control;
  control = taking;
  client = launching_watch;
}

unfoldable pub launch_watch : Controller → Controller
launch_watch c = record c { terminated = watch_joinable c.watch; watch = polling; client = away }

-- One step of the client in a call of `configure` or `start`.
unfoldable pub move_client : Client → Controller → Controller
unfolding join_watch join_control adopt launch_control launch_watch
move_client away c = c
move_client (joining_watch session sources) c = join_watch session sources c
move_client (joining_control session sources) c = join_control session sources c
move_client (adopting session sources) c = adopt session sources c
move_client launching_control c = launch_control c
move_client launching_watch c = launch_watch c

abbrev pub is_away : Client → Bool
is_away away = true
is_away _ = false

unfoldable pub request_stop : StopMode → Controller → Controller
request_stop mode c = elim c.lifecycle [
  | running ↦ record c { lifecycle = stopping; pending_stop_mode = mode }
  | stopping ↦ record c { lifecycle = stopping; pending_stop_mode = mode }
  | _ ↦ c
]

unfoldable pub note_error : Status → Controller → Controller
note_error s c = if is_empty c.last_error then record c { last_error = to_string s } else c

-- `liveCounters`: `summary` is what the running session answers.
unfoldable pub live_counters : SessionCounters → Controller → Option SessionCounters
live_counters summary c = elim c.lifecycle [
  | running ↦ if is_some c.running_session then some summary else none
  | stopping ↦ if is_some c.running_session then some summary else none
  | _ ↦ none
]

-- The end of a run: the session goes back to the controller.
abbrev pub give_back : ℕ → Controller → Controller
give_back s c = record c { session = some s; running_session = none; lifecycle = idle }

abbrev pub take_session : Option ℕ → Controller → Controller
take_session none c = record c { running_session = none; lifecycle = idle; control = finished }
take_session (some s) c = record c { session = none; control = opening s }

abbrev pub opened : ℕ → Result (Unit {0}) → Controller → Controller
opened s (success u) c = record c { control = waiting s }
opened s (failure e) c = record c { control = noting s e }

-- The wait ends by a notification, a timeout or spuriously; the loop goes on unless a stop is wanted.
abbrev pub woken : ℕ → SessionLifecycle → Controller → Controller
woken s stopping c = record c {
  control = draining s;
  forwarded = c.forwarded ++ (s, c.pending_stop_mode) ∷ [];
}
woken s _ c = c

-- One step of the control thread: `answer` is the session's answer to `start`, `summary` what its
-- `wait` returns.
unfoldable pub move_control :
    Result (Unit {0}) → SessionCounters → Control → Controller → Controller
unfolding note_error
move_control answer summary absent c = c
move_control answer summary taking c = take_session c.session c
move_control answer summary (opening s) c = opened s answer c
move_control answer summary (noting s e) c = record (note_error e c) { control = giving_back s }
move_control answer summary (giving_back s) c = record (give_back s c) { control = finished }
move_control answer summary (waiting s) c = woken s c.lifecycle c
move_control answer summary (draining s) c = record (give_back s c) {
  counters = summary;
  control = reporting;
}
move_control answer summary reporting c = record c {
  reports = c.reports ++ c.counters ∷ [];
  control = finished;
}
move_control answer summary finished c = c

abbrev pub watched : Option ℕ → SessionLifecycle → Watch
watched (some s) running = checking s
watched _ _ = finished

-- One step of the watch thread: `any_running` says whether a source of the session still runs.
unfoldable pub move_watch : Bool → Watch → Controller → Controller
unfolding request_stop
move_watch any_running absent c = c
move_watch any_running polling c = record c { watch = watched c.running_session c.lifecycle }
move_watch true (checking s) c = record c { watch = polling }
move_watch false (checking s) c = record (request_stop graceful c) { watch = finished }
move_watch any_running finished c = c

pub data Event : Type 0 where
  configures : Option ℕ → ℕ → Event
  starts client_moves : Event
  stops : StopMode → Event
  controls : Result (Unit {0}) → SessionCounters → Event
  watches : Bool → Event

unfoldable pub step : Event → Controller → Controller
unfolding configure start move_client request_stop move_control move_watch
step (configures session sources) c =
    if is_away c.client then (configure session sources c).1 else c
step starts c = if is_away c.client then (start c).1 else c
step client_moves c = move_client c.client c
step (stops mode) c = request_stop mode c
step (controls answer summary) c = move_control answer summary c.control c
step (watches any_running) c = move_watch any_running c.watch c

-- A program that was terminated does nothing more.
unfoldable pub play : List Event → Controller → Controller
play [] c = c
play (e ∷ es) c = if c.terminated then c else play es (step e c)
