-- ===== src/Transitions/Guards.antt =====
-- src/state/transitions.rs: what a transition requires of the session, the room and the segment
-- before it writes.
use bilive_rec.Prelude.{
  ℕ, String, Bool, true, false, Option, none, some, not, ◌==◌, is_none_or, is_some_and,
}
use bilive_rec.Errors.{
  session_does_not_exist, segment_does_not_exist, session_is_not_open, room_has_no_state,
  room_is_not_owned_by_session, closed_session_cannot_claim, room_is_owned_by_another_session,
  submission_does_not_exist,
}
use bilive_rec.Model.{Uuid}
use bilive_rec.Model.Session.{LiveSession, SessionLifecycle, is_open}
use bilive_rec.Model.Segment.{Segment}
use bilive_rec.Model.Submission.{Submission}
use bilive_rec.Model.Room.{RoomLifecycle, room_lifecycle_eq}
use bilive_rec.Store.Txn.{
  Txn, pure, fail_if, or_fail, now, get_session, get_segment, get_submission, get_room_state,
  put_room_state, ◌>>=◌, ◌>>◌,
}

unfoldable pub require_session : Uuid → Txn LiveSession
require_session session_id = do found ← get_session session_id; or_fail found session_does_not_exist

unfoldable pub require_segment : Uuid → ℕ → Txn Segment
require_segment session_id index = do
  found ← get_segment session_id index
  or_fail found segment_does_not_exist

unfoldable pub require_submission : Uuid → Txn Submission
require_submission session_id = do
  found ← get_submission session_id
  or_fail found submission_does_not_exist

-- room_state: the row that is written with the present time.
unfoldable pub put_room : ℕ → RoomLifecycle → Option String → Txn (Unit {0})
put_room room_id lifecycle message = do
  changed_at ← now
  put_room_state room_id
      (record { lifecycle = lifecycle; changed_at = changed_at; message = message })

abbrev pub owns : RoomLifecycle → Uuid → Bool
owns (RoomLifecycle.owned session_id) id = session_id == id
owns _ id = false

unfoldable pub require_room_owner : LiveSession → Txn (Unit {0})
require_room_owner session = do
  found ← get_room_state session.room_id
  room ← or_fail found room_has_no_state
  fail_if (not (owns room.lifecycle session.id)) room_is_not_owned_by_session

unfoldable pub require_open_owned_session : LiveSession → Txn (Unit {0})
unfolding require_room_owner
require_open_owned_session session = do
  fail_if (not (is_open session.lifecycle)) session_is_not_open
  require_room_owner session

abbrev pub claimable : RoomLifecycle → Uuid → Bool
claimable RoomLifecycle.ready id = true
claimable (RoomLifecycle.owned session_id) id = session_id == id
claimable (RoomLifecycle.blocked session_id) id = session_id == id

-- The ownership row that an unclosed session wants, with its message.
abbrev pub desired_room : SessionLifecycle → Uuid → Option (RoomLifecycle × Option String)
desired_room SessionLifecycle.opened id = some (RoomLifecycle.owned id, none)
desired_room (SessionLifecycle.recovery_required reason _) id =
    some (RoomLifecycle.blocked id, some reason)
desired_room (SessionLifecycle.closed _) id = none

abbrev pub put_room_unless : Bool → ℕ → RoomLifecycle → Option String → Txn (Unit {0})
put_room_unless true room_id lifecycle message = pure tt
put_room_unless false room_id lifecycle message = put_room room_id lifecycle message

unfoldable pub require_or_claim_recovery_owner : LiveSession → Txn (Unit {0})
require_or_claim_recovery_owner session = do
  desired ← or_fail (desired_room session.lifecycle session.id) closed_session_cannot_claim
  current ← get_room_state session.room_id
  fail_if (not (is_none_or current (λ room. claimable room.lifecycle session.id)))
      room_is_owned_by_another_session
  put_room_unless (is_some_and current (λ room. room_lifecycle_eq room.lifecycle desired.0))
      session.room_id desired.0 desired.1
