-- ===== src/Service/Session/Consistency.antt =====
-- The fields of Service/src/session/sessionController.cpp at each point of its control thread.
use vision_runtime.Prelude.{Bool, true, false, not, ◌||◌, none, some, is_some, ◌≡◌, refl, arith}
use vision_runtime.Executor.Serial.{StopMode, graceful}
use vision_runtime.Service.Session.{
  SessionLifecycle, idle, running, stopping, Control, absent, taking, reporting, finished, opening,
  waiting, draining, noting, giving_back, Watch, polling, checking, Controller, Client,
  launching_control, adopting, request_stop, move_watch,
}

abbrev pub is_busy : SessionLifecycle → Bool
is_busy running = true
is_busy stopping = true
is_busy _ = false

-- The control thread has taken the session and not yet given it back.
abbrev pub owns : Control → Bool
owns absent = false
owns taking = false
owns reporting = false
owns finished = false
owns (opening s) = true
owns (waiting s) = true
owns (draining s) = true
owns (noting s e) = true
owns (giving_back s) = true

-- A run is under way.
abbrev pub runs : Control → Bool
runs taking = true
runs k = owns k

-- What the fields are while the control thread stands at a point.
abbrev pub Consistent : Control → Controller → Type 0
Consistent absent c = (c.lifecycle ≡ idle) × (c.running_session ≡ none)
Consistent reporting c =
    (c.lifecycle ≡ idle) × (c.running_session ≡ none) × (is_some c.session ≡ true)
Consistent finished c =
    (c.lifecycle ≡ idle) × (c.running_session ≡ none) × (is_some c.session ≡ true)
Consistent taking c =
    (is_busy c.lifecycle ≡ true) × (c.running_session ≡ c.session) × (is_some c.session ≡ true)
Consistent (opening s) c =
    (is_busy c.lifecycle ≡ true) × (c.running_session ≡ some s) × (c.session ≡ none)
Consistent (waiting s) c =
    (is_busy c.lifecycle ≡ true) × (c.running_session ≡ some s) × (c.session ≡ none)
Consistent (noting s e) c =
    (is_busy c.lifecycle ≡ true) × (c.running_session ≡ some s) × (c.session ≡ none)
Consistent (giving_back s) c =
    (is_busy c.lifecycle ≡ true) × (c.running_session ≡ some s) × (c.session ≡ none)
Consistent (draining s) c =
    (c.lifecycle ≡ stopping) × (c.running_session ≡ some s) × (c.session ≡ none)

-- `start` has set the state, and its control thread is not launched yet.
abbrev pub is_launching : Client → Bool
is_launching launching_control = true
is_launching _ = false

abbrev pub under_way : Controller → Bool
under_way c = is_launching c.client || runs c.control

-- The control thread has given the session back, or there is none.
abbrev pub rests : Control → Bool
rests k = not (runs k)

abbrev pub Stands : Client → Controller → Type 0
Stands launching_control c =
    (rests c.control ≡ true)
    × (is_busy c.lifecycle ≡ true)
    × (c.running_session ≡ c.session)
    × (is_some c.session ≡ true)
Stands (adopting s n) c = Consistent c.control c × (c.control ≡ absent)
Stands _ c = Consistent c.control c

pub record IsController (c : Controller) : Type 0 where
  pub stands : Stands c.client c

pub stop-Consistent :
    (mode : StopMode) (k : Control) (c : Controller)
    → Consistent k c
    → Consistent k (request_stop mode c)
unfolding request_stop
stop-Consistent mode absent c v = ground arith
stop-Consistent mode taking c v = ground arith
stop-Consistent mode reporting c v = ground arith
stop-Consistent mode finished c v = ground arith
stop-Consistent mode (opening s) c v = ground arith
stop-Consistent mode (waiting s) c v = ground arith
stop-Consistent mode (draining s) c v = ground arith
stop-Consistent mode (noting s e) c v = ground arith
stop-Consistent mode (giving_back s) c v = ground arith

-- Only three fields matter.
pub same-Consistent :
    (k : Control) (c d : Controller)
    → c.lifecycle ≡ d.lifecycle
    → c.running_session ≡ d.running_session
    → c.session ≡ d.session
    → Consistent k c
    → Consistent k d
same-Consistent absent c d l r s v = ground arith
same-Consistent taking c d l r s v = ground arith
same-Consistent reporting c d l r s v = ground arith
same-Consistent finished c d l r s v = ground arith
same-Consistent (opening t) c d l r s v = ground arith
same-Consistent (waiting t) c d l r s v = ground arith
same-Consistent (draining t) c d l r s v = ground arith
same-Consistent (noting t e) c d l r s v = ground arith
same-Consistent (giving_back t) c d l r s v = ground arith

pub watch-Consistent :
    (any_running : Bool) (w : Watch) (k : Control) (c : Controller)
    → Consistent k c
    → Consistent k (move_watch any_running w c)
unfolding move_watch
watch-Consistent any_running Watch.absent k c v = v
watch-Consistent any_running polling k c v = same-Consistent k c _ refl refl refl v
watch-Consistent any_running Watch.finished k c v = v
watch-Consistent true (checking s) k c v = same-Consistent k c _ refl refl refl v
watch-Consistent false (checking s) k c v =
    same-Consistent k (request_stop graceful c) _ refl refl refl (stop-Consistent graceful k c v)

-- The control thread does not move when the watch thread or a stop does.
pub watch_leaves_control :
    (any_running : Bool) (w : Watch) (c : Controller)
    → (move_watch any_running w c).control ≡ c.control
unfolding move_watch request_stop
watch_leaves_control any_running Watch.absent c = refl
watch_leaves_control any_running polling c = refl
watch_leaves_control any_running Watch.finished c = refl
watch_leaves_control true (checking s) c = refl
watch_leaves_control false (checking s) c = ground arith

pub stop_leaves_control :
    (mode : StopMode) (c : Controller) → (request_stop mode c).control ≡ c.control
unfolding request_stop
stop_leaves_control mode c = ground arith
