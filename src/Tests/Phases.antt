-- ===== src/Tests/Phases.antt =====
-- The theorem of Pipeline at one recording and its reconnection.
use bilive_rec.Prelude.{refl}
use bilive_rec.Pipeline.StateMachine.{RoomState, can_transition_to, requires_active_session}
use bilive_rec.Pipeline.Phases.{Reaches, here, next, Starts, path-Starts}

reconnecting : Reaches RoomState.idle RoomState.waiting_reconnect
unfolding can_transition_to
reconnecting =
    next RoomState.waiting_reconnect
      (next RoomState.recording (next RoomState.resolving here refl) refl) refl

path-Starts_example : Starts reconnecting
unfolding requires_active_session
path-Starts_example = path-Starts reconnecting refl refl
