-- ===== src/Transitions/Uploads.antt =====
-- src/state/transitions.rs: uploading a segment, and what an operator records of an upload.
use bilive_rec.Prelude.{ℕ, String, Option, not, ◌==◌, is_some}
use bilive_rec.Errors.{
  Result, lifecycle_does_not_permit_upload, is_local_only, already_has_submission,
  target_failures_is_zero,
}
use bilive_rec.Model.{Uuid, Timestamp}
use bilive_rec.Model.Session.{LiveSession, permits_upload, upload_plan}
use bilive_rec.Model.Target.{RemoteOperationRef, target_of}
use bilive_rec.Model.Segment.{
  Segment, UploadState, RemoteAttempt, UploadedPart, UploadResolutionDecision,
}
use bilive_rec.Store.Txn.{
  Txn, pure, lift, fail_if, or_fail, now, write, get_submission, put_segment, ◌>>=◌, ◌>>◌,
}
use bilive_rec.Transitions.Guards.{require_session, require_segment}
use bilive_rec.Transitions.Targets.{
  AttemptTargetGate, session_upload_target, consume_target_ready, put_attempt_target_gate,
  clear_target_gate_if_owner, upload_operation_ref,
}
use bilive_rec.Transitions.History.{current_upload_attempt, recoverable_upload_attempt_id}
use bilive_rec.Transitions.UploadSteps.{
  claim_upload, validate_uploaded_part, confirm_upload, retry_upload, block_with, make_ambiguous,
  upload_after_denial, resolve_with,
}

unfoldable pub begin_upload : Uuid → ℕ → RemoteAttempt → Txn Segment
begin_upload session_id index attempt = write (do
  session ← require_session session_id
  fail_if (not (permits_upload session.lifecycle)) lifecycle_does_not_permit_upload
  plan ← or_fail (upload_plan session.output_plan) is_local_only
  consume_target_ready (target_of plan) attempt.started_at
  submission ← get_submission session_id
  fail_if (is_some submission) already_has_submission
  segment ← require_segment session_id index
  segment' ← lift (claim_upload attempt segment)
  put_segment segment'
  pure segment')

unfoldable pub complete_upload : Uuid → ℕ → Uuid → UploadedPart → Txn Segment
complete_upload session_id index attempt_id proof = do
  lift (validate_uploaded_part proof)
  write (do
    segment ← require_segment session_id index
    lift (current_upload_attempt segment.upload attempt_id)
    finished_at ← now
    segment' ← lift (confirm_upload attempt_id proof segment finished_at)
    put_segment segment'
    pure segment')

-- finish_upload_attempt, and schedule_upload_retry_with_target_gate, which has the same text.
unfoldable pub finish_upload_attempt :
    Uuid → ℕ → Uuid → AttemptTargetGate → (Segment → Timestamp → Result Segment) → Txn Segment
finish_upload_attempt session_id index attempt_id gate update = write (do
  target ← session_upload_target session_id
  segment ← require_segment session_id index
  lift (current_upload_attempt segment.upload attempt_id)
  finished_at ← now
  segment' ← lift (update segment finished_at)
  put_segment segment'
  put_attempt_target_gate target gate finished_at
  pure segment')

unfoldable pub schedule_upload_retry : Uuid → ℕ → Uuid → String → Timestamp → Txn Segment
unfolding finish_upload_attempt
schedule_upload_retry session_id index attempt_id reason retry_at =
    finish_upload_attempt session_id index attempt_id AttemptTargetGate.unchanged
      (retry_upload attempt_id reason retry_at)

unfoldable pub schedule_upload_target_retry : Uuid → ℕ → Uuid → String → Timestamp → ℕ → Txn Segment
unfolding finish_upload_attempt
schedule_upload_target_retry session_id index attempt_id reason retry_at failures = do
  fail_if (failures == 0) target_failures_is_zero
  finish_upload_attempt session_id index attempt_id
      (AttemptTargetGate.backoff (RemoteOperationRef.upload session_id index attempt_id) failures
        retry_at reason)
      (retry_upload attempt_id reason retry_at)

unfoldable pub block_upload : Uuid → ℕ → Uuid → String → Txn Segment
unfolding finish_upload_attempt
block_upload session_id index attempt_id reason =
    finish_upload_attempt session_id index attempt_id AttemptTargetGate.unchanged
      (block_with attempt_id reason)

unfoldable pub block_upload_for_target : Uuid → ℕ → Uuid → String → Txn Segment
unfolding finish_upload_attempt
block_upload_for_target session_id index attempt_id reason =
    finish_upload_attempt session_id index attempt_id
      (AttemptTargetGate.blocked (RemoteOperationRef.upload session_id index attempt_id) reason)
      (block_with attempt_id reason)

unfoldable pub mark_upload_ambiguous : Uuid → ℕ → Uuid → String → Txn Segment
unfolding finish_upload_attempt
mark_upload_ambiguous session_id index attempt_id reason =
    finish_upload_attempt session_id index attempt_id AttemptTargetGate.unchanged
      (make_ambiguous attempt_id reason)

-- The part that the two resolutions share; the new state of the upload is a function of the session
-- and the time.
unfoldable pub resolve_upload_as :
    Uuid
    → ℕ
    → UploadResolutionDecision
    → Option String
    → (LiveSession → Timestamp → UploadState)
    → Txn Segment
resolve_upload_as session_id index decision note upload = write (do
  session ← require_session session_id
  plan ← or_fail (upload_plan session.output_plan) is_local_only
  submission ← get_submission session_id
  fail_if (is_some submission) already_has_submission
  segment ← require_segment session_id index
  attempt_id ← lift (recoverable_upload_attempt_id segment.upload)
  resolved_at ← now
  segment' ←
      lift (resolve_with decision note (upload session resolved_at) attempt_id segment resolved_at)
  put_segment segment'
  clear_target_gate_if_owner (target_of plan) (upload_operation_ref session_id index attempt_id)
  pure segment')

unfoldable pub resolve_upload_not_uploaded : Uuid → ℕ → Option String → Txn Segment
unfolding resolve_upload_as
resolve_upload_not_uploaded session_id index note =
    resolve_upload_as session_id index UploadResolutionDecision.confirmed_not_uploaded note
      λ session. upload_after_denial session.lifecycle

unfoldable pub resolve_upload_uploaded : Uuid → ℕ → UploadedPart → Option String → Txn Segment
unfolding resolve_upload_as
resolve_upload_uploaded session_id index proof note = do
  lift (validate_uploaded_part proof)
  resolve_upload_as session_id index (UploadResolutionDecision.confirmed_uploaded proof) note
      λ session now. UploadState.uploaded proof
