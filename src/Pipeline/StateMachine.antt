-- ===== src/Pipeline/StateMachine.antt =====
-- src/pipeline/state_machine.rs.
use bilive_rec.Prelude.{Bool, true, false}

pub data RoomState : Type 0 where
  idle resolving offline recording re_resolving waiting_reconnect failed : RoomState

unfoldable pub requires_active_session : RoomState → Bool
requires_active_session RoomState.recording = true
requires_active_session RoomState.re_resolving = true
requires_active_session RoomState.waiting_reconnect = true
requires_active_session _ = false

-- With the equality test of the source as the clauses on equal states.
unfoldable pub can_transition_to : RoomState → RoomState → Bool
can_transition_to RoomState.idle RoomState.idle = true
can_transition_to RoomState.resolving RoomState.resolving = true
can_transition_to RoomState.offline RoomState.offline = true
can_transition_to RoomState.recording RoomState.recording = true
can_transition_to RoomState.re_resolving RoomState.re_resolving = true
can_transition_to RoomState.waiting_reconnect RoomState.waiting_reconnect = true
can_transition_to RoomState.failed RoomState.failed = true
can_transition_to RoomState.idle RoomState.resolving = true
can_transition_to RoomState.resolving RoomState.offline = true
can_transition_to RoomState.resolving RoomState.recording = true
can_transition_to RoomState.resolving RoomState.failed = true
can_transition_to RoomState.offline RoomState.idle = true
can_transition_to RoomState.recording RoomState.re_resolving = true
can_transition_to RoomState.recording RoomState.waiting_reconnect = true
can_transition_to RoomState.recording RoomState.failed = true
can_transition_to RoomState.re_resolving RoomState.recording = true
can_transition_to RoomState.re_resolving RoomState.waiting_reconnect = true
can_transition_to RoomState.re_resolving RoomState.failed = true
can_transition_to RoomState.waiting_reconnect RoomState.re_resolving = true
can_transition_to RoomState.waiting_reconnect RoomState.recording = true
can_transition_to RoomState.waiting_reconnect RoomState.idle = true
can_transition_to RoomState.waiting_reconnect RoomState.failed = true
can_transition_to RoomState.failed RoomState.idle = true
can_transition_to _ _ = false
