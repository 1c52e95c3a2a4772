-- ===== src/Service/Session/Restart.antt =====
-- What a second start does in Service/src/session/sessionController.cpp.
use vision_runtime.Prelude.{true, List, [], ◌∷◌, ◌≡◌, arith}
use mathlib.Core.Path.{subst}
use vision_runtime.Core.Status.{success}
use vision_runtime.Service.Session.{
  finished, away, Controller, new_controller, check_start, launch_control, Event, starts,
  client_moves, step, play, start, move_client,
}
use vision_runtime.Service.Session.Consistency.{Consistent, Stands}
use vision_runtime.Service.Session.Runs.{played-IsController}

checks_succeed : (c : Controller) → Consistent finished c → check_start c ≡ success tt
checks_succeed c v = ground (arith, v.0, v.2)

-- The locked section of `start` and the launch of the control thread.
relaunched :
    (c : Controller)
    → c.client ≡ away
    → c.control ≡ finished
    → check_start c ≡ success tt
    → (play (starts ∷ client_moves ∷ []) c).terminated ≡ true
unfolding play step start launch_control move_client
relaunched c a k h = ground (arith, a, k, h)

-- After any history in which the control thread has finished a run, nobody configured the controller
-- since and no call of `configure` or `start` is under way, the next start terminates the program when
-- it launches its control thread: it assigns to a thread that is joinable.
pub restart_terminates :
    (es : List Event)
    → (play es new_controller).control ≡ finished
    → (play es new_controller).client ≡ away
    → (play (starts ∷ client_moves ∷ []) (play es new_controller)).terminated ≡ true
restart_terminates es e a =
    let c = play es new_controller in
    let v : Stands away c = subst (λ w. Stands w c) a (played-IsController es).stands in
    relaunched c a e (checks_succeed c (subst (λ k. Consistent k c) e v))
