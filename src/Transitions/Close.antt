-- ===== src/Transitions/Close.antt =====
-- src/state/transitions.rs: close_session, the one way in which a session is closed.
use bilive_rec.Prelude.{
  ℕ, String, Bool, true, false, Option, none, some, not, ◌==◌, List, [], ◌∷◌, ◌++◌, any, find,
  is_some, is_some_and, decimal, ◌<>◌, if◌then◌else◌,
}
use bilive_rec.Errors.{
  StateError, must_be_open_for_natural_close, does_not_require_recovery, session_is_closed,
  has_submission_and_cannot_be_abandoned, owns_blocked_target, unresolved_artifact_intent,
  segment_is_failed,
}
use bilive_rec.Model.{Uuid, Timestamp}
use bilive_rec.Model.Session.{
  LiveSession, SessionLifecycle, SessionClosure, RecordingEvent, RecordingDecision, is_open,
  is_recovery_required, is_closed, upload_plan,
}
use bilive_rec.Model.Target.{
  UploadPlan, UploadTargetGate, UploadTargetState, target_of, operation_session_id,
}
use bilive_rec.Model.Segment.{
  Segment, ArtifactState, UploadState, has_open_intent, is_failed, is_usable,
}
use bilive_rec.Model.Room.{RoomLifecycle}
use bilive_rec.Store.Txn.{
  Env, Txn, pure, raise, lift, fail_if, asks, now, write, put_session, list_segments, put_segment,
  get_submission, get_upload_target_state, ◌>>=◌, ◌>>◌,
}
use bilive_rec.Transitions.Guards.{
  require_session, require_room_owner, require_or_claim_recovery_owner, put_room,
}
use bilive_rec.Transitions.Sessions.{record_recovery_reason}
use bilive_rec.Transitions.UploadSteps.{abandon_upload}

pub data CloseSessionRequest : Type 0 where
  natural : (note : Option String) → CloseSessionRequest
  recover : (exclude_failed : Bool) (note : Option String) → CloseSessionRequest
  abandon : (note : Option String) → CloseSessionRequest

pub record CloseSessionResult : Type 0 where
  pub session_id : Uuid
  pub lifecycle : SessionLifecycle
  pub excluded_segments : List ℕ

-- The lifecycle that each request asks for.
unfoldable pub require_closable : CloseSessionRequest → SessionLifecycle → Txn (Unit {0})
require_closable (CloseSessionRequest.natural _) lifecycle =
    fail_if (not (is_open lifecycle)) must_be_open_for_natural_close
require_closable (CloseSessionRequest.recover _ _) lifecycle =
    fail_if (not (is_recovery_required lifecycle)) does_not_require_recovery
require_closable (CloseSessionRequest.abandon _) lifecycle =
    fail_if (is_closed lifecycle) session_is_closed

-- The room that each request asks for.
unfoldable pub require_closer : CloseSessionRequest → LiveSession → Txn (Unit {0})
require_closer (CloseSessionRequest.natural _) session = require_room_owner session
require_closer (CloseSessionRequest.recover _ _) session = require_or_claim_recovery_owner session
require_closer (CloseSessionRequest.abandon _) session = require_or_claim_recovery_owner session

unfoldable pub mark_recovery_required : LiveSession → String → Txn CloseSessionResult
mark_recovery_required session reason = do
  detected_at ← now
  let recorded = record_recovery_reason session reason detected_at
  put_session recorded.0
  put_room recorded.0.room_id (RoomLifecycle.blocked recorded.0.id) (some recorded.1)
  pure (record {
    session_id = recorded.0.id;
    lifecycle = recorded.0.lifecycle;
    excluded_segments = [];
  })

abbrev pub is_blocked_by : Uuid → UploadTargetState → Bool
is_blocked_by session_id state = elim state.gate [
  | UploadTargetGate.blocked owner _ _ ↦ operation_session_id owner == session_id
  | _ ↦ false
]

abbrev pub require_no_blocked_target : Uuid → Option UploadPlan → Txn (Unit {0})
require_no_blocked_target session_id none = pure tt
require_no_blocked_target session_id (some plan) = do
  found ← get_upload_target_state (target_of plan)
  fail_if (is_some_and found (is_blocked_by session_id)) owns_blocked_target

-- The loop over the segments of a session that is abandoned.
unfoldable pub abandon_segments : List Segment → Txn (Unit {0})
abandon_segments [] = pure tt
abandon_segments (segment ∷ segments) = do
  fail_if (has_open_intent segment.artifact) unresolved_artifact_intent
  abandoned_at ← now
  segment' ← lift (abandon_upload segment abandoned_at)
  put_segment segment'
  abandon_segments segments

unfoldable pub abandon_session :
    Uuid → LiveSession → List Segment → Option String → Txn CloseSessionResult
abandon_session session_id session segments note = do
  submission ← get_submission session_id
  fail_if (is_some submission) has_submission_and_cannot_be_abandoned
  require_no_blocked_target session_id (upload_plan session.output_plan)
  abandon_segments segments
  closed_at ← now
  let closed = SessionLifecycle.closed (SessionClosure.abandoned closed_at note)
  put_session (record session {
    lifecycle = closed;
    recording_events =
        session.recording_events
        ++ RecordingEvent.operator_resolved closed_at RecordingDecision.abandoned note ∷ [];
  })
  put_room session.room_id RoomLifecycle.ready none
  pure (record { session_id = session_id; lifecycle = closed; excluded_segments = [] })

abbrev pub unresolved_text : Env → Uuid → Segment → String
unresolved_text env session_id segment =
    "segment "
    <> env.uuid_text session_id
    <> "/"
    <> decimal segment.index
    <> " has unresolved artifact intent "
    <> env.artifact_text segment.artifact

abbrev pub failed_text : Env → Uuid → Segment → String
failed_text env session_id segment =
    "segment "
    <> env.uuid_text session_id
    <> "/"
    <> decimal segment.index
    <> " is Failed and requires exclusion or abandonment"

abbrev pub exclude_segment : Segment → String → Segment
exclude_segment segment reason = record segment {
  artifact = ArtifactState.excluded ("operator excluded failed segment: " <> reason);
  upload = UploadState.not_planned;
}

-- What the loop makes of one segment: its replacement, if it is Failed.
unfoldable pub exclusion : Segment → Option Segment
exclusion segment = elim segment.artifact [
  | ArtifactState.failed reason _ ↦ some (exclude_segment segment reason)
  | _ ↦ none
]

-- The loop that excludes the failed segments: all segments as they are now, and the indexes of those
-- that it excluded.
unfoldable pub exclude_failed_segments : List Segment → Txn (List Segment × List ℕ)
exclude_failed_segments [] = pure ([], [])
exclude_failed_segments (segment ∷ segments) = elim (exclusion segment) [
  | none ↦ (do rest ← exclude_failed_segments segments; pure (segment ∷ rest.0, rest.1))
  | some segment' ↦ (do
    put_segment segment'
    rest ← exclude_failed_segments segments
    pure (segment' ∷ rest.0, segment'.index ∷ rest.1))
]

abbrev pub exclude_if : Bool → List Segment → Txn (List Segment × List ℕ)
exclude_if true segments = exclude_failed_segments segments
exclude_if false segments = pure (segments, [])

abbrev pub closure_of : Bool → Timestamp → Option String → SessionClosure
closure_of true closed_at note = SessionClosure.completed closed_at note
closure_of false closed_at _ =
    SessionClosure.no_usable_recording closed_at "session closed without a usable recording segment"

abbrev pub events_on_close :
    Bool → Timestamp → Option String → List RecordingEvent → List RecordingEvent
events_on_close true closed_at note events =
    events ++ RecordingEvent.operator_resolved closed_at RecordingDecision.finalized note ∷ []
events_on_close false closed_at _ events = events

-- The session is closed: no segment is in the way any more.
unfoldable pub finish_closing :
    Uuid → LiveSession → List Segment → Bool → Bool → Option String → Txn CloseSessionResult
finish_closing session_id session segments exclude_failed is_recover note = do
  remaining ← exclude_if exclude_failed segments
  closed_at ← now
  let closure = closure_of (any (λ s. is_usable s.artifact) remaining.0) closed_at note
  put_session (record session {
    lifecycle = SessionLifecycle.closed closure;
    recording_events = events_on_close is_recover closed_at note session.recording_events;
  })
  put_room session.room_id RoomLifecycle.ready none
  pure (record {
    session_id = session_id;
    lifecycle = SessionLifecycle.closed closure;
    excluded_segments = remaining.1;
  })

-- A segment in the way: an operator's request is refused, a natural close asks for recovery.
unfoldable pub refuse_closing : Bool → StateError → LiveSession → String → Txn CloseSessionResult
refuse_closing true error session reason = raise error
refuse_closing false error session reason = mark_recovery_required session reason

unfoldable pub close_or_recover :
    Uuid → LiveSession → List Segment → Bool → Bool → Option String → Txn CloseSessionResult
close_or_recover session_id session segments exclude_failed is_recover note =
    elim (find (λ s. has_open_intent s.artifact) segments) [
      | some segment ↦ (do
        reason ← asks (λ env. unresolved_text env session_id segment)
        refuse_closing is_recover unresolved_artifact_intent session reason)
      | none ↦ elim (if exclude_failed then none else find (λ s. is_failed s.artifact) segments) [
        | some segment ↦ (do
          reason ← asks (λ env. failed_text env session_id segment)
          refuse_closing is_recover segment_is_failed session reason)
        | none ↦ finish_closing session_id session segments exclude_failed is_recover note
      ]
    ]

unfoldable pub close_by :
    Uuid → LiveSession → List Segment → CloseSessionRequest → Txn CloseSessionResult
close_by session_id session segments (CloseSessionRequest.natural note) =
    close_or_recover session_id session segments false false note
close_by session_id session segments (CloseSessionRequest.recover exclude_failed note) =
    close_or_recover session_id session segments exclude_failed true note
close_by session_id session segments (CloseSessionRequest.abandon note) =
    abandon_session session_id session segments note

unfoldable pub close_session : Uuid → CloseSessionRequest → Txn CloseSessionResult
close_session session_id request = write (do
  session ← require_session session_id
  segments ← list_segments session_id
  require_closable request session.lifecycle
  require_closer request session
  close_by session_id session segments request)
