-- ===== src/Peer/Ready/System.antt =====
-- internal/peer/ready.go: two sessions joined by two channels that lose nothing and keep the order.
use cablecheck.Base.{ℕ, zero, suc, true, List, [], ◌∷◌, ◌++◌}
use cablecheck.Peer.Ready.{
  Frame, ready_frame, start_confirmation, Session, Handled, handled, invalid, send_local_ready,
  handle_peer_ready, handle_start_confirmation, on_countdown_tick,
}

-- The coordinator, the worker, and the frames on the way to the worker and back.
pub record System : Type 0 where
  pub one : Session
  pub two : Session
  pub forth : List Frame
  pub back : List Frame

-- One side is started, or the next frame arrives at one side.
pub data Action : Type 0 where
  start_one start_two to_one to_two : Action

-- The session after a frame, and the frames of the barrier that it sends.
abbrev pub settled : Session → Handled → Session × List Frame
settled s (handled r) = r
settled s invalid = (s, [])

abbrev pub handle : Frame → Session → Session × List Frame
handle (ready_frame b) s = settled s (handle_peer_ready true s)
handle (start_confirmation sc) s = settled s (handle_start_confirmation sc s)

abbrev pub from_one : Session × List Frame → System → System
from_one (s, frames) x = record x { one = s; forth = x.forth ++ frames }

abbrev pub from_two : Session × List Frame → System → System
from_two (s, frames) x = record x { two = s; back = x.back ++ frames }

unfoldable pub step : Action → System → System
step start_one x = from_one (send_local_ready true true x.one) x
step start_two x = from_two (send_local_ready true true x.two) x
step to_one x = elim x.back [
  | [] ↦ x
  | f ∷ frames ↦ from_one (handle f x.one) (record x { back = frames })
]
step to_two x = elim x.forth [
  | [] ↦ x
  | f ∷ frames ↦ from_two (handle f x.two) (record x { forth = frames })
]

abbrev pub steps : List Action → System → System
steps [] x = x
steps (a ∷ actions) x = steps actions (step a x)

-- The countdown of a session, tick by tick.
abbrev pub ticks : ℕ → Session → Session
ticks zero s = s
ticks (suc n) s = ticks n (on_countdown_tick s)
