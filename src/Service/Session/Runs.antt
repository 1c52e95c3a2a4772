-- ===== src/Service/Session/Runs.antt =====
-- Histories of Service/src/session/sessionController.cpp.
use vision_runtime.Prelude.{
  ℕ, Bool, true, false, ◌&&◌, ◌||◌, Option, none, some, List, [], ◌∷◌, is_some, if◌then◌else◌, ◌≡◌,
  ◌≢◌, refl, ap, ◌∙◌, arith,
}
use mathlib.Core.Path.{subst, sym}
use vision_runtime.Core.Status.{Result, success, failure}
use vision_runtime.Executor.Serial.{StopMode, graceful}
use vision_runtime.Service.Session.{
  SessionLifecycle, idle, configuring, running, stopping, SessionCounters, Control, absent, taking,
  reporting, finished, opening, waiting, draining, noting, giving_back, Watch, polling, checking,
  Client, away, launching_control, launching_watch, joining_watch, joining_control, adopting,
  Controller, new_controller, control_ended, watch_ended, check_start, check_configure, adopt,
  configure_if, configure, join_watch, join_control, launch_control, launch_watch, move_client,
  is_away, start_if, start, request_stop, note_error, live_counters, take_session, woken,
  move_control, move_watch, Event, configures, starts, client_moves, stops, controls, watches, step,
  play,
}
use vision_runtime.Service.Session.Consistency.{
  is_busy, owns, runs, rests, is_launching, under_way, Consistent, Stands, IsController,
  stop-Consistent, same-Consistent,
}

take-Consistent :
    (o : Option ℕ) (c : Controller)
    → c.session ≡ o
    → Consistent taking c
    → Consistent (take_session o c).control (take_session o c)
take-Consistent none c e v = ground arith
take-Consistent (some s) c e v = (v.0, v.1 ∙ e, refl)

woken-Consistent :
    (s : ℕ) (l : SessionLifecycle) (c : Controller)
    → c.lifecycle ≡ l
    → c.control ≡ waiting s
    → Consistent (waiting s) c
    → Consistent (woken s l c).control (woken s l c)
woken-Consistent s stopping c e k v = (e, v.1, v.2)
woken-Consistent s idle c e k v = subst (λ x. Consistent x c) (sym k) v
woken-Consistent s configuring c e k v = subst (λ x. Consistent x c) (sym k) v
woken-Consistent s running c e k v = subst (λ x. Consistent x c) (sym k) v

control-Consistent :
    (answer : Result (Unit {0})) (summary : SessionCounters) (k : Control) (c : Controller)
    → Consistent k c
    → c.control ≡ k
    → let d = move_control answer summary k c in Consistent d.control d
unfolding move_control note_error
control-Consistent answer summary absent c v e = subst (λ k. Consistent k c) (sym e) v
control-Consistent answer summary finished c v e = subst (λ k. Consistent k c) (sym e) v
control-Consistent answer summary reporting c v e = v
control-Consistent answer summary taking c v e = take-Consistent c.session c refl v
control-Consistent (success u) summary (opening s) c v e = v
control-Consistent (failure s') summary (opening s) c v e = v
control-Consistent answer summary (waiting s) c v e = woken-Consistent s c.lifecycle c refl e v
control-Consistent answer summary (draining s) c v e = (refl, refl, refl)
control-Consistent answer summary (noting s x) c v e =
    same-Consistent (giving_back s) c (move_control answer summary (noting s x) c) (ground arith)
      (ground arith) (ground arith) v
control-Consistent answer summary (giving_back s) c v e = (refl, refl, refl)

ended_is_idle :
    (k : Control) (c : Controller)
    → Consistent k c
    → control_ended k ≡ true
    → (c.lifecycle ≡ idle) × (c.running_session ≡ none)
ended_is_idle absent c v e = v
ended_is_idle finished c v e = (v.0, v.1)
ended_is_idle taking c v e = cc
ended_is_idle reporting c v e = cc
ended_is_idle (opening s) c v e = cc
ended_is_idle (waiting s) c v e = cc
ended_is_idle (draining s) c v e = cc
ended_is_idle (noting s x) c v e = cc
ended_is_idle (giving_back s) c v e = cc

if-keeps :
    {A : Type 0} (P : A → Type 0) (b : Bool) {x y : A}
    → (b ≡ true → P x)
    → P y
    → P (if b then x else y)
if-keeps P true p q = p refl
if-keeps P false p q = q

-- A step that leaves the control thread and the sessions alone, and a busy controller busy.
aside-Stands :
    (w : Client) (c d : Controller)
    → d.control ≡ c.control
    → d.session ≡ c.session
    → d.running_session ≡ c.running_session
    → (is_busy c.lifecycle ≡ true → is_busy d.lifecycle ≡ true)
    → ((k : Control) → Consistent k c → Consistent k d)
    → Stands w c
    → Stands w d
aside-Stands away c d k s r b f v = subst (λ x. Consistent x d) (sym k) (f c.control v)
aside-Stands launching_watch c d k s r b f v = subst (λ x. Consistent x d) (sym k) (f c.control v)
aside-Stands (joining_watch o n) c d k s r b f v =
    subst (λ x. Consistent x d) (sym k) (f c.control v)
aside-Stands (joining_control o n) c d k s r b f v =
    subst (λ x. Consistent x d) (sym k) (f c.control v)
aside-Stands (adopting o n) c d k s r b f v =
    (subst (λ x. Consistent x d) (sym k) (f c.control v.0), k ∙ v.1)
aside-Stands launching_control c d k s r b f v =
    (ap rests k ∙ v.0, b v.1, r ∙ v.2 ∙ sym s, ap is_some s ∙ v.3)

stop-busy :
    (mode : StopMode) (c : Controller)
    → is_busy c.lifecycle ≡ true
    → is_busy (request_stop mode c).lifecycle ≡ true
unfolding request_stop
stop-busy mode c h = ground (arith, h)

stop-Stands :
    (mode : StopMode) (c : Controller) → IsController c → IsController (request_stop mode c)
unfolding request_stop
stop-Stands mode c v = record {
  stands =
      subst (λ w. Stands w (request_stop mode c)) {x = c.client} (ground arith)
        (aside-Stands c.client c (request_stop mode c) (ground arith) (ground arith) (ground arith)
          (stop-busy mode c) (λ k. stop-Consistent mode k c) v.stands);
}

-- A change of other fields.
untouched :
    (c d : Controller)
    → d.client ≡ c.client
    → d.control ≡ c.control
    → d.lifecycle ≡ c.lifecycle
    → d.running_session ≡ c.running_session
    → d.session ≡ c.session
    → IsController c
    → Stands d.client d
untouched c d w k l r s v =
    subst (λ x. Stands x d) (sym w)
      (aside-Stands c.client c d k s r (λ b. ap is_busy l ∙ b)
        (λ k. same-Consistent k c d (sym l) (sym r) (sym s)) v.stands)

watch-Stands :
    (any_running : Bool) (w : Watch) (c : Controller)
    → IsController c
    → IsController (move_watch any_running w c)
unfolding move_watch
watch-Stands any_running Watch.absent c v = v
watch-Stands any_running polling c v = record {
  stands = untouched c (move_watch any_running polling c) refl refl refl refl refl v;
}
watch-Stands any_running Watch.finished c v = v
watch-Stands true (checking s) c v = record {
  stands = untouched c (move_watch true (checking s) c) refl refl refl refl refl v;
}
watch-Stands false (checking s) c v = record {
  stands =
      untouched (request_stop graceful c) (move_watch false (checking s) c) refl refl refl refl refl
        (stop-Stands graceful c v);
}

resting-Stands :
    (answer : Result (Unit {0})) (summary : SessionCounters) (k : Control) (c : Controller)
    → c.control ≡ k
    → Stands launching_control c
    → Stands launching_control (move_control answer summary k c)
unfolding move_control
resting-Stands answer summary absent c e v = v
resting-Stands answer summary finished c e v = v
resting-Stands answer summary reporting c e v = (refl, v.1, v.2, v.3)
resting-Stands answer summary taking c e v = absurd (ground (arith, e, v.0))
resting-Stands answer summary (opening s) c e v = absurd (ground (arith, e, v.0))
resting-Stands answer summary (waiting s) c e v = absurd (ground (arith, e, v.0))
resting-Stands answer summary (draining s) c e v = absurd (ground (arith, e, v.0))
resting-Stands answer summary (noting s x) c e v = absurd (ground (arith, e, v.0))
resting-Stands answer summary (giving_back s) c e v = absurd (ground (arith, e, v.0))

unmoved :
    (o : Option ℕ) (n : ℕ) (answer : Result (Unit {0})) (summary : SessionCounters) (k : Control)
    (c : Controller)
    → k ≡ absent
    → Stands (adopting o n) c
    → Stands (adopting o n) (move_control answer summary k c)
unfolding move_control
unmoved o n answer summary absent c e v = v
unmoved o n answer summary taking c e v = cc
unmoved o n answer summary reporting c e v = cc
unmoved o n answer summary finished c e v = cc
unmoved o n answer summary (opening s) c e v = cc
unmoved o n answer summary (waiting s) c e v = cc
unmoved o n answer summary (draining s) c e v = cc
unmoved o n answer summary (noting s x) c e v = cc
unmoved o n answer summary (giving_back s) c e v = cc

control-Stands :
    (answer : Result (Unit {0})) (summary : SessionCounters) (w : Client) (c : Controller)
    → Stands w c
    → Stands w (move_control answer summary c.control c)
control-Stands answer summary away c v = control-Consistent answer summary c.control c v refl
control-Stands answer summary launching_watch c v =
    control-Consistent answer summary c.control c v refl
control-Stands answer summary (joining_watch o n) c v =
    control-Consistent answer summary c.control c v refl
control-Stands answer summary (joining_control o n) c v =
    control-Consistent answer summary c.control c v refl
control-Stands answer summary (adopting o n) c v = unmoved o n answer summary c.control c v.1 v
control-Stands answer summary launching_control c v =
    resting-Stands answer summary c.control c refl v

control-client :
    (answer : Result (Unit {0})) (summary : SessionCounters) (k : Control) (c : Controller)
    → (move_control answer summary k c).client ≡ c.client
unfolding move_control note_error
control-client answer summary k c = ground arith

client-Stands :
    (w : Client) (c : Controller)
    → c.client ≡ w
    → IsController c
    → Stands w c
    → IsController (move_client w c)
unfolding move_client join_watch join_control adopt launch_control launch_watch
client-Stands away c e v x = v
client-Stands (joining_watch o n) c e v x =
    if-keeps IsController (watch_ended c.watch)
      (λ h. record { stands = same-Consistent c.control c _ refl refl refl x }) v
client-Stands (joining_control o n) c e v x =
    if-keeps IsController (control_ended c.control)
      (λ h. record { stands = (ended_is_idle c.control c x h, refl) }) v
client-Stands (adopting o n) c e v x =
    let (l, r) = subst (λ k. Consistent k c) x.1 x.0 in
    record { stands = subst (λ k. Consistent k (adopt o n c)) (sym x.1) (refl, r) }
client-Stands launching_control c e v x = record { stands = (x.1, x.2, x.3) }
client-Stands launching_watch c e v x = record {
  stands = same-Consistent c.control c (launch_watch c) refl refl refl x;
}

configure_if-IsController :
    (r : Result (Unit {0})) (session : Option ℕ) (sources : ℕ) (c : Controller)
    → c.client ≡ away
    → IsController c
    → IsController (configure_if r session sources c).1
configure_if-IsController (failure s) session sources c e v = v
configure_if-IsController (success u) session sources c e v = record {
  stands =
      same-Consistent c.control c (configure_if (success u) session sources c).1 refl refl refl
        (subst (λ w. Stands w c) e v.stands);
}

-- What the locked section of `start` finds when its checks succeed.
startable :
    (k : Control) (c : Controller)
    → is_busy c.lifecycle ≡ false
    → is_some c.session ≡ true
    → Consistent k c
    → (rests k ≡ true) × (true ≡ true) × (c.session ≡ c.session) × (is_some c.session ≡ true)
startable k c b i v = ground (arith, b, i, v)

start_if-IsController :
    (r : Result (Unit {0})) (c : Controller)
    → check_start c ≡ r
    → c.client ≡ away
    → IsController c
    → IsController (start_if r c).1
start_if-IsController (failure s) c e a v = v
start_if-IsController (success u) c e a v = record {
  stands =
      startable c.control c (ground (arith, e)) (ground (arith, e))
        (subst (λ w. Stands w c) a v.stands);
}

away_when : (w : Client) → is_away w ≡ true → w ≡ away
away_when w h = ground (arith, h)

step-IsController : (e : Event) (c : Controller) → IsController c → IsController (step e c)
unfolding step configure start
step-IsController (configures session sources) c v =
    if-keeps IsController (is_away c.client)
      (λ h.
        configure_if-IsController (check_configure session sources) session sources c
          (away_when c.client h) v)
      v
step-IsController starts c v =
    if-keeps IsController (is_away c.client)
      (λ h. start_if-IsController (check_start c) c refl (away_when c.client h) v) v
step-IsController client_moves c v = client-Stands c.client c refl v v.stands
step-IsController (stops mode) c v = stop-Stands mode c v
step-IsController (controls answer summary) c v = record {
  stands =
      subst (λ w. Stands w (move_control answer summary c.control c))
        (sym (control-client answer summary c.control c))
        (control-Stands answer summary c.client c v.stands);
}
step-IsController (watches any_running) c v = watch-Stands any_running c.watch c v

play-IsController : (es : List Event) (c : Controller) → IsController c → IsController (play es c)
unfolding play
play-IsController [] c v = v
play-IsController (e ∷ es) c v =
    if-keeps IsController c.terminated (λ dead. v)
      (play-IsController es (step e c) (step-IsController e c v))

new-IsController : IsController new_controller
new-IsController = record { stands = (refl, refl) }

pub played-IsController : (es : List Event) → IsController (play es new_controller)
played-IsController es = play-IsController es new_controller new-IsController

-- While the control thread has a run under way, the fields are those of its point.
pub run_fields :
    (w : Client) (c : Controller) → Stands w c → runs c.control ≡ true → Consistent c.control c
run_fields away c v r = v
run_fields launching_watch c v r = v
run_fields (joining_watch o n) c v r = v
run_fields (joining_control o n) c v r = v
run_fields (adopting o n) c v r = v.0
run_fields launching_control c v r = absurd (ground (arith, v.0, r))

live_states :
    (k : Control) (c : Controller) (summary : SessionCounters)
    → Consistent k c
    → (is_some (live_counters summary c) ≡ runs k)
      × (is_busy c.lifecycle ≡ runs k)
      × ((is_some c.session && owns k) ≡ false)
      × (c.lifecycle ≢ configuring)
unfolding live_counters
live_states absent c summary v = ground arith
live_states taking c summary v = ground arith
live_states reporting c summary v = ground arith
live_states finished c summary v = ground arith
live_states (opening s) c summary v = ground arith
live_states (waiting s) c summary v = ground arith
live_states (draining s) c summary v = ground arith
live_states (noting s x) c summary v = ground arith
live_states (giving_back s) c summary v = ground arith

rests-owns : (k : Control) → rests k ≡ true → owns k ≡ false
rests-owns k h = ground (arith, h)

standing_states :
    (w : Client) (c : Controller) (summary : SessionCounters)
    → Stands w c
    → (is_some (live_counters summary c) ≡ (is_launching w || runs c.control))
      × (is_busy c.lifecycle ≡ (is_launching w || runs c.control))
      × ((is_some c.session && owns c.control) ≡ false)
      × (c.lifecycle ≢ configuring)
unfolding live_counters
standing_states away c summary v = live_states c.control c summary v
standing_states launching_watch c summary v = live_states c.control c summary v
standing_states (joining_watch o n) c summary v = live_states c.control c summary v
standing_states (joining_control o n) c summary v = live_states c.control c summary v
standing_states (adopting o n) c summary v = live_states c.control c summary v.0
standing_states launching_control c summary v =
    ground (arith, v.1, v.2, v.3, rests-owns c.control v.0)

-- Whatever the client that calls `configure` and `start`, the other clients and the controller's
-- threads do, in any order: live counters are given and the lifecycle is running or stopping exactly
-- while a run is under way, from the locked section of `start` on, the controller and its control
-- thread never both own the session, and the lifecycle is never configuring.
pub states_follow_runs :
    (es : List Event) (summary : SessionCounters)
    → let c = play es new_controller in
      (is_some (live_counters summary c) ≡ under_way c)
      × (is_busy c.lifecycle ≡ under_way c)
      × ((is_some c.session && owns c.control) ≡ false)
      × (c.lifecycle ≢ configuring)
states_follow_runs es summary =
    standing_states (play es new_controller).client (play es new_controller) summary
      (played-IsController es).stands
