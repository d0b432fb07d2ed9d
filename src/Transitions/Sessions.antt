-- ===== src/Transitions/Sessions.antt =====
-- src/state/transitions.rs: opening a session, requiring its recovery, and failing an artifact.
use bilive_rec.Prelude.{
  ℕ, String, Bool, true, false, Option, none, some, not, ◌||◌, ◌&&◌, ◌==◌, [], ◌∷◌, ◌++◌, any,
  is_empty, is_some, is_some_and, or_option, str_eq, is_blank, decimal, ◌<>◌, if◌then◌else◌,
}
use bilive_rec.Errors.{
  must_be_open_when_created, must_not_have_recording_events, output_dir_must_be_absolute,
  recording_credential_must_be_absolute, upload_line_or_threads_missing, expected_mid_is_zero,
  upload_credential_must_be_absolute, session_already_exists, room_has_non_closed_session,
  room_is_already_owned, failure_reason_is_empty, session_is_closed, unexpected_artifact,
  recovery_reason_is_empty,
}
use bilive_rec.Model.{Uuid, Timestamp}
use bilive_rec.Model.Session.{
  LiveSession, SessionLifecycle, RecordingEvent, is_open, is_closed, upload_plan,
}
use bilive_rec.Model.Target.{UploadPlan, UploadTarget, UploadTargetGate, target_of}
use bilive_rec.Model.Segment.{Segment, ArtifactState, SegmentCloseReason, can_fail, close_reason}
use bilive_rec.Model.Room.{RoomLifecycle, room_lifecycle_eq}
use bilive_rec.Store.Txn.{
  Env, Txn, pure, raise, fail_if, asks, now, write, get_session, put_session, list_sessions,
  get_room_state, put_segment, get_upload_target_state, ◌>>=◌, ◌>>◌,
}
use bilive_rec.Transitions.Guards.{
  require_session, require_segment, require_or_claim_recovery_owner, put_room,
}
use bilive_rec.Transitions.Targets.{put_target_gate}

abbrev pub validate_new_upload : Option UploadPlan → Txn (Unit {0})
validate_new_upload none = pure tt
validate_new_upload (some upload) = do
  fail_if (upload.threads == 0 || is_blank upload.line) upload_line_or_threads_missing
  fail_if (upload.principal.expected_mid == 0) expected_mid_is_zero
  fail_if (not upload.principal.credential.cookie_file.is_absolute)
      upload_credential_must_be_absolute

abbrev pub put_ready_unless : Bool → UploadTarget → Txn (Unit {0})
put_ready_unless true target = pure tt
put_ready_unless false target = put_target_gate target UploadTargetGate.ready

-- A target that has no gate yet gets an open one.
abbrev pub add_gate : Option UploadPlan → Txn (Unit {0})
add_gate none = pure tt
add_gate (some plan) = do
  found ← get_upload_target_state (target_of plan)
  put_ready_unless (is_some found) (target_of plan)

abbrev pub holds_room : ℕ → LiveSession → Bool
holds_room room_id existing = existing.room_id == room_id && not (is_closed existing.lifecycle)

unfoldable pub create_session : LiveSession → Txn (Unit {0})
create_session session = do
  fail_if (not (is_open session.lifecycle)) must_be_open_when_created
  fail_if (not (is_empty session.recording_events)) must_not_have_recording_events
  fail_if (not session.recording_plan.output_dir.is_absolute) output_dir_must_be_absolute
  fail_if
      (is_some_and session.recording_plan.credential
        (λ credential. not credential.cookie_file.is_absolute))
      recording_credential_must_be_absolute
  validate_new_upload (upload_plan session.output_plan)
  write (do
    found ← get_session session.id
    fail_if (is_some found) session_already_exists
    sessions ← list_sessions
    fail_if (any (holds_room session.room_id) sessions) room_has_non_closed_session
    room ← get_room_state session.room_id
    fail_if (is_some_and room (λ r. not (room_lifecycle_eq r.lifecycle RoomLifecycle.ready)))
        room_is_already_owned
    put_session session
    put_room session.room_id (RoomLifecycle.owned session.id) none
    add_gate (upload_plan session.output_plan)
    pure tt)

abbrev pub recorded_as : String → RecordingEvent → Bool
recorded_as reason (RecordingEvent.recovery_required _ recorded) = str_eq recorded reason
recorded_as reason _ = false

-- The event is appended unless its reason is in the history already.
unfoldable pub note_reason : LiveSession → String → Timestamp → LiveSession
note_reason session reason detected_at =
    if any (recorded_as reason) session.recording_events then session else record session {
      recording_events =
          session.recording_events ++ RecordingEvent.recovery_required detected_at reason ∷ [];
    }

abbrev pub require_recovery_of : LiveSession → String → Timestamp → LiveSession × String
require_recovery_of session reason detected_at = elim session.lifecycle [
  | SessionLifecycle.recovery_required primary _ ↦ (session, primary)
  | _ ↦
      (record session { lifecycle = SessionLifecycle.recovery_required reason detected_at }, reason)
]

-- The session with the reason recorded, and the reason that comes first.
unfoldable pub record_recovery_reason : LiveSession → String → Timestamp → LiveSession × String
record_recovery_reason session reason detected_at =
    require_recovery_of (note_reason session reason detected_at) reason detected_at

abbrev pub segment_failed_text : Env → Uuid → ℕ → String → String
segment_failed_text env session_id index reason =
    "segment " <> env.uuid_text session_id <> "/" <> decimal index <> " failed: " <> reason

unfoldable pub fail_artifact : Uuid → ℕ → String → Option SegmentCloseReason → Txn Segment
fail_artifact session_id index reason given = do
  fail_if (is_blank reason) failure_reason_is_empty
  write (do
    session ← require_session session_id
    fail_if (is_closed session.lifecycle) session_is_closed
    require_or_claim_recovery_owner session
    segment ← require_segment session_id index
    fail_if (not (can_fail segment.artifact)) unexpected_artifact
    let segment' = record segment {
      artifact = ArtifactState.failed reason (or_option given (close_reason segment.artifact));
    }
    put_segment segment'
    recovery_reason ← asks (λ env. segment_failed_text env session_id index reason)
    detected_at ← now
    let recorded = record_recovery_reason session recovery_reason detected_at
    put_session recorded.0
    put_room session.room_id (RoomLifecycle.blocked session_id) (some recorded.1)
    pure segment')

abbrev pub put_event_if : Bool → LiveSession → String → Txn (Unit {0})
put_event_if false session reason = pure tt
put_event_if true session reason = do
  detected_at ← now
  put_session (record session {
    recording_events =
        session.recording_events ++ RecordingEvent.recovery_required detected_at reason ∷ [];
  })

-- A session that is in recovery already: a new reason joins the history, the first stays in force.
unfoldable pub require_recovery_again : Uuid → LiveSession → String → String → Txn SessionLifecycle
require_recovery_again session_id session current reason = do
  put_event_if
      (not (str_eq current reason) && not (any (recorded_as reason) session.recording_events))
      session reason
  require_or_claim_recovery_owner session
  put_room session.room_id (RoomLifecycle.blocked session_id) (some current)
  pure session.lifecycle

unfoldable pub require_recovery_first : Uuid → LiveSession → String → Txn SessionLifecycle
require_recovery_first session_id session reason = do
  require_or_claim_recovery_owner session
  detected_at ← now
  put_session (record session {
    lifecycle = SessionLifecycle.recovery_required reason detected_at;
    recording_events =
        session.recording_events ++ RecordingEvent.recovery_required detected_at reason ∷ [];
  })
  put_room session.room_id (RoomLifecycle.blocked session_id) (some reason)
  pure (SessionLifecycle.recovery_required reason detected_at)

unfoldable pub require_recovery_in :
    Uuid → LiveSession → SessionLifecycle → String → Txn SessionLifecycle
require_recovery_in session_id session SessionLifecycle.opened reason =
    require_recovery_first session_id session reason
require_recovery_in session_id session (SessionLifecycle.recovery_required current _) reason =
    require_recovery_again session_id session current reason
require_recovery_in session_id session (SessionLifecycle.closed _) reason = raise session_is_closed

unfoldable pub require_recovery : Uuid → String → Txn SessionLifecycle
unfolding require_recovery_in require_recovery_first require_recovery_again
require_recovery session_id reason = do
  fail_if (is_blank reason) recovery_reason_is_empty
  write (do
    session ← require_session session_id
    require_recovery_in session_id session session.lifecycle reason)
