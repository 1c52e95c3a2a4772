-- ===== src/Service/Session/Ending.antt =====
-- How a run of Service/src/session/sessionController.cpp ends.
use vision_runtime.Prelude.{
  ℕ, suc, Bool, true, false, Option, none, some, List, [], ◌∷◌, ◌++◌, zero, replicate, ap, sym,
  is_some, if◌then◌else◌, ◌≡◌, refl, ◌∙◌, arith,
}
use mathlib.Core.Path.{subst}
use vision_runtime.Core.Status.{Status, Result, success, failure}
use vision_runtime.Executor.Serial.{StopMode}
use vision_runtime.Service.Session.{
  idle, running, stopping, SessionCounters, Control, absent, taking, reporting, finished, opening,
  waiting, draining, noting, giving_back, Controller, new_controller, request_stop, note_error,
  take_session, opened, woken, move_control, Event, stops, controls, step, play,
}
use vision_runtime.Service.Session.Runs.{played-IsController, run_fields}
use vision_runtime.Service.Session.Consistency.{
  Consistent, runs, stop_leaves_control, stop-Consistent,
}

-- What a run ends in, if it ends: the controller is idle and has the session back.
pub record IsOver (c : Controller) : Type 0 where
  pub ended : c.control ≡ finished
  pub rests : c.lifecycle ≡ idle
  pub returned : is_some c.session ≡ true
  pub unwatched : c.running_session ≡ none

module _ (answer : Result (Unit {0})) (summary : SessionCounters) where
  -- Turns of the control thread, with these answers of the session.
  abbrev pub turns : ℕ → List Event
  turns n = replicate n (controls answer summary)

  advance :
      (k : Control) (n : ℕ) (c : Controller)
      → c.control ≡ k
      → c.terminated ≡ false
      → play (turns (suc n)) c ≡ play (turns n) (move_control answer summary k c)
  unfolding play step
  advance k n c e t =
      if_false c.terminated _ _ t ∙ ap (λ x. play (turns n) (move_control answer summary x c)) e
    where
      if_false : (b : Bool) (x y : Controller) → b ≡ false → (if b then x else y) ≡ y
      if_false false x y h = refl
      if_false true x y h = cc

  -- A thread that stands at a point where the next step leads to an end reaches it.
  goes_on :
      (k : Control) (n : ℕ) (c : Controller)
      → c.control ≡ k
      → c.terminated ≡ false
      → IsOver (play (turns n) (move_control answer summary k c))
      → IsOver (play (turns (suc n)) c)
  goes_on k n c e t o = subst IsOver (sym (advance k n c e t)) o

  stays_put : (n : ℕ) (c : Controller) → IsOver c → c.terminated ≡ false → IsOver (play (turns n) c)
  unfolding play move_control
  stays_put zero c o t = o
  stays_put (suc n) c o t = goes_on finished n c o.ended t (stays_put n c o t)

  from_reporting :
      (n : ℕ) (c : Controller)
      → c.control ≡ reporting
      → Consistent reporting c
      → c.terminated ≡ false
      → IsOver (play (turns (suc n)) c)
  unfolding move_control
  from_reporting n c e v t =
      goes_on reporting n c e t
        (stays_put n _ (record { ended = refl; rests = v.0; returned = v.2; unwatched = v.1 }) t)

  from_draining :
      (s n : ℕ) (c : Controller)
      → c.control ≡ draining s
      → c.terminated ≡ false
      → IsOver (play (turns (suc (suc n))) c)
  unfolding move_control
  from_draining s n c e t =
      goes_on (draining s) (suc n) c e t (from_reporting n _ refl (refl, refl, refl) t)

  from_giving_back :
      (s n : ℕ) (c : Controller)
      → c.control ≡ giving_back s
      → c.terminated ≡ false
      → IsOver (play (turns (suc n)) c)
  unfolding move_control
  from_giving_back s n c e t =
      goes_on (giving_back s) n c e t
        (stays_put n _ (record { ended = refl; rests = refl; returned = refl; unwatched = refl }) t)

  from_noting :
      (s n : ℕ) (x : Status) (c : Controller)
      → c.control ≡ noting s x
      → c.terminated ≡ false
      → IsOver (play (turns (suc (suc n))) c)
  unfolding move_control note_error
  from_noting s n x c e t =
      goes_on (noting s x) (suc n) c e t (from_giving_back s n _ refl (ground arith))

  from_waiting :
      (s n : ℕ) (c : Controller)
      → c.control ≡ waiting s
      → c.lifecycle ≡ stopping
      → c.terminated ≡ false
      → IsOver (play (turns (suc (suc (suc n)))) c)
  unfolding move_control
  from_waiting s n c e l t = goes_on (waiting s) (suc (suc n)) c e t (
      subst (λ x. IsOver (play (turns (suc (suc n))) (woken s x c))) (sym l)
        (from_draining s n _ refl t))

  from_opening :
      (r : Result (Unit {0})) (s n : ℕ) (c : Controller)
      → answer ≡ r
      → c.control ≡ opening s
      → c.lifecycle ≡ stopping
      → c.terminated ≡ false
      → IsOver (play (turns (suc (suc (suc (suc n))))) c)
  unfolding move_control
  from_opening (success u) s n c a e l t = goes_on (opening s) (suc (suc (suc n))) c e t (
      subst (λ x. IsOver (play (turns (suc (suc (suc n)))) (opened s x c))) (sym a)
        (from_waiting s n _ refl l t))
  from_opening (failure x) s n c a e l t = goes_on (opening s) (suc (suc (suc n))) c e t (
      subst (λ y. IsOver (play (turns (suc (suc (suc n)))) (opened s y c))) (sym a)
        (from_noting s (suc n) x _ refl t))

  from_taking :
      (o : Option ℕ) (n : ℕ) (c : Controller)
      → c.session ≡ o
      → is_some c.session ≡ true
      → c.control ≡ taking
      → c.lifecycle ≡ stopping
      → c.terminated ≡ false
      → IsOver (play (turns (suc (suc (suc (suc (suc n)))))) c)
  unfolding move_control
  from_taking none n c q i e l t = cc
  from_taking (some s) n c q i e l t = goes_on taking (suc (suc (suc (suc n)))) c e t (
      subst (λ x. IsOver (play (turns (suc (suc (suc (suc n))))) (take_session x c))) (sym q)
        (from_opening answer s n _ refl refl l t))

  ends :
      (k : Control) (c : Controller)
      → c.control ≡ k
      → Consistent k c
      → runs k ≡ true
      → c.lifecycle ≡ stopping
      → c.terminated ≡ false
      → IsOver (play (turns 5) c)
  ends absent c e v r l t = cc
  ends reporting c e v r l t = cc
  ends finished c e v r l t = cc
  ends (giving_back s) c e v r l t = from_giving_back s 4 c e t
  ends (draining s) c e v r l t = from_draining s 3 c e t
  ends (noting s x) c e v r l t = from_noting s 3 x c e t
  ends (waiting s) c e v r l t = from_waiting s 2 c e l t
  ends (opening s) c e v r l t = from_opening answer s 1 c refl e l t
  ends taking c e v r l t = from_taking c.session 0 c refl v.2 e l t

stop_stops :
    (mode : StopMode) (k : Control) (c : Controller)
    → Consistent k c
    → runs k ≡ true
    → (request_stop mode c).lifecycle ≡ stopping
unfolding request_stop
stop_stops mode absent c v r = cc
stop_stops mode reporting c v r = cc
stop_stops mode finished c v r = cc
stop_stops mode (giving_back s) c v r = ground arith
stop_stops mode (draining s) c v r = ground arith
stop_stops mode (noting s x) c v r = ground arith
stop_stops mode (waiting s) c v r = ground arith
stop_stops mode (opening s) c v r = ground arith
stop_stops mode taking c v r = ground arith

stop-terminated :
    (mode : StopMode) (c : Controller) → (request_stop mode c).terminated ≡ c.terminated
unfolding request_stop
stop-terminated mode c = ground arith

-- A run that is under way ends when a stop is requested, at whatever point its control thread stands
-- and whatever the session answers: after five turns of the control thread at most, the controller
-- is idle and has the session back.
pub run_ends :
    (es : List Event) (mode : StopMode) (answer : Result (Unit {0})) (summary : SessionCounters)
    → runs (play es new_controller).control ≡ true
    → (play es new_controller).terminated ≡ false
    → IsOver (play (turns answer summary 5) (request_stop mode (play es new_controller)))
run_ends es mode answer summary r t =
    ends answer summary c.control (request_stop mode c) (stop_leaves_control mode c)
      (stop-Consistent mode c.control c v) r (stop_stops mode c.control c v r)
      (stop-terminated mode c ∙ t)
  where
    c : Controller
    c = play es new_controller

    v : Consistent c.control c
    v = run_fields c.client c (played-IsController es).stands r

-- A stop of a session that waits for it passes the mode on to the session, reports what the session's
-- `wait` returns as the final counters, once, and gives the session back.
pub stop_reports :
    (mode : StopMode) (answer : Result (Unit {0})) (summary : SessionCounters) (s : ℕ)
    (c : Controller)
    → c.control ≡ waiting s
    → c.lifecycle ≡ running
    → c.terminated ≡ false
    → let d = play (stops mode ∷ turns answer summary 3) c in
      (d.forwarded ≡ c.forwarded ++ (s, mode) ∷ [])
      × (d.reports ≡ c.reports ++ summary ∷ [])
      × (d.counters ≡ summary)
      × (d.session ≡ some s)
      × (d.lifecycle ≡ idle)
unfolding play step request_stop move_control
stop_reports mode answer summary s c e l t = (
  ap (λ (x : Controller). x.forwarded) end,
  ap (λ (x : Controller). x.reports) end,
  ap (λ (x : Controller). x.counters) end,
  ap (λ (x : Controller). x.session) end,
  ap (λ (x : Controller). x.lifecycle) end,
)
  where
    same : c ≡ record c { control = waiting s; lifecycle = running; terminated = false }
    same = ground (arith, e, l, t)

    end : play (stops mode ∷ turns answer summary 3) c ≡ record c {
      control = finished;
      lifecycle = idle;
      terminated = false;
      session = some s;
      running_session = none;
      pending_stop_mode = mode;
      counters = summary;
      forwarded = c.forwarded ++ (s, mode) ∷ [];
      reports = c.reports ++ summary ∷ [];
    }
    end = ap (play (stops mode ∷ turns answer summary 3)) same
