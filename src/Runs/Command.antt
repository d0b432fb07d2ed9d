-- ===== src/Runs/Command.antt =====
-- The public functions of src/state/transitions.rs that change the store, with their arguments.
use bilive_rec.Prelude.{ℕ, String, Option, ◌≡◌}
use bilive_rec.Model.{Uuid, Timestamp}
use bilive_rec.Model.Session.{LiveSession}
use bilive_rec.Model.Segment.{
  Segment, SegmentCloseReason, ArtifactResolutionDecision, RemoteAttempt, UploadedPart,
}
use bilive_rec.Transitions.Close.{CloseSessionRequest}
use bilive_rec.Segments.Step.{Actor}
use bilive_rec.Segments.Closing.{MayClose}

pub data Command : Type 0 where
  create_session : LiveSession → Command
  open_segment : Segment → Command
  begin_artifact_finalization : Uuid → ℕ → SegmentCloseReason → Command
  complete_artifact_finalization : Uuid → ℕ → Command
  begin_artifact_discard : Uuid → ℕ → SegmentCloseReason → Command
  complete_artifact_discard : Uuid → ℕ → Command
  begin_artifact_conflict_resolution :
      Uuid → ℕ → ArtifactResolutionDecision → Option String → Command
  complete_artifact_conflict_resolution : Uuid → ℕ → Command
  exclude_artifact_conflict : Uuid → ℕ → Command
  fail_artifact : Uuid → ℕ → String → Option SegmentCloseReason → Command
  begin_artifact_delete : Uuid → ℕ → Command
  complete_artifact_delete : Uuid → ℕ → Command
  require_recovery : Uuid → String → Command
  close_session : Uuid → CloseSessionRequest → Command
  begin_upload : Uuid → ℕ → RemoteAttempt → Command
  complete_upload : Uuid → ℕ → Uuid → UploadedPart → Command
  schedule_upload_retry : Uuid → ℕ → Uuid → String → Timestamp → Command
  schedule_upload_target_retry : Uuid → ℕ → Uuid → String → Timestamp → ℕ → Command
  block_upload : Uuid → ℕ → Uuid → String → Command
  block_upload_for_target : Uuid → ℕ → Uuid → String → Command
  mark_upload_ambiguous : Uuid → ℕ → Uuid → String → Command
  resolve_upload_not_uploaded : Uuid → ℕ → Option String → Command
  resolve_upload_uploaded : Uuid → ℕ → UploadedPart → Option String → Command
  begin_submission : Uuid → RemoteAttempt → Command
  complete_submission : Uuid → Uuid → Option ℕ → Option String → Command
  schedule_submission_retry : Uuid → Uuid → String → Timestamp → Command
  schedule_submission_target_retry : Uuid → Uuid → String → Timestamp → ℕ → Command
  block_submission : Uuid → Uuid → String → Command
  block_submission_for_target : Uuid → Uuid → String → Command
  mark_submission_ambiguous : Uuid → Uuid → String → Command
  resolve_submission_not_submitted : Uuid → Option String → Command
  resolve_submission_submitted : Uuid → Option ℕ → Option String → Option String → Command
  reconcile_interrupted_remote_attempts : Command

-- The program gives every command but those by which an operator decides on an upload or abandons a
-- session.
abbrev pub MayGive : Actor → Command → Type 0
MayGive a (Command.close_session _ request) = MayClose a request
MayGive a (Command.resolve_upload_not_uploaded _ _ _) = a ≡ Actor.human
MayGive a (Command.resolve_upload_uploaded _ _ _ _) = a ≡ Actor.human
MayGive a _ = Unit
