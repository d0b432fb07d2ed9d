-- ===== src/Transitions/Submissions.antt =====
-- src/state/transitions.rs: submitting a session, what an operator records of a submission, and the
-- attempts that a restart finds unfinished.
use bilive_rec.Prelude.{ℕ, String, Option, not, ◌==◌, List, [], ◌∷◌, ◌++◌}
use bilive_rec.Errors.{
  Result, is_not_completed, is_local_only, no_uploaded_parts, target_failures_is_zero,
  does_not_permit_submission_recovery,
}
use bilive_rec.Model.{Uuid, Timestamp}
use bilive_rec.Model.Session.{permits_submission, upload_plan}
use bilive_rec.Model.Target.{RemoteOperationRef, target_of}
use bilive_rec.Model.Segment.{Segment, UploadState, RemoteAttempt}
use bilive_rec.Model.Submission.{Submission, SubmissionState, SubmissionResolutionDecision}
use bilive_rec.Store.Txn.{
  Txn, pure, lift, fail_if, or_fail, now, write, list_segments, list_all_segments, list_submissions,
  get_submission, put_submission, ◌>>=◌, ◌>>◌,
}
use bilive_rec.Transitions.Guards.{require_session, require_submission}
use bilive_rec.Transitions.Targets.{
  AttemptTargetGate, session_upload_target, consume_target_ready, put_attempt_target_gate,
  clear_target_gate_if_owner, submission_operation_ref,
}
use bilive_rec.Transitions.History.{current_submission_attempt, recoverable_submission_attempt_id}
use bilive_rec.Transitions.SubmissionSteps.{
  count_parts, claim_submission, record_submission_attempt, validate_submission_proof,
  confirm_submission, retry_submission, block_with, make_ambiguous, resolve_with,
}
use bilive_rec.Transitions.Uploads.{mark_upload_ambiguous}

unfoldable pub require_submission_parts : Uuid → Txn (Unit {0})
require_submission_parts session_id = do
  segments ← list_segments session_id
  uploaded ← lift (count_parts segments)
  fail_if (uploaded == 0) no_uploaded_parts

unfoldable pub begin_submission : Uuid → RemoteAttempt → Txn Submission
begin_submission session_id attempt = write (do
  session ← require_session session_id
  fail_if (not (permits_submission session.lifecycle)) is_not_completed
  plan ← or_fail (upload_plan session.output_plan) is_local_only
  consume_target_ready (target_of plan) attempt.started_at
  require_submission_parts session_id
  found ← get_submission session_id
  claimed ← lift (claim_submission session_id attempt found)
  submission ← lift (record_submission_attempt attempt claimed)
  put_submission submission
  pure submission)

unfoldable pub complete_submission : Uuid → Uuid → Option ℕ → Option String → Txn Submission
complete_submission session_id attempt_id aid bvid = do
  lift (validate_submission_proof aid bvid)
  write (do
    submission ← require_submission session_id
    lift (current_submission_attempt submission.state attempt_id)
    finished_at ← now
    submission' ← lift (confirm_submission attempt_id aid bvid submission finished_at)
    put_submission submission'
    pure submission')

-- finish_submission_attempt, and schedule_submission_retry_with_target_gate, which has the same
-- text.
unfoldable pub finish_submission_attempt :
    Uuid → Uuid → AttemptTargetGate → (Submission → Timestamp → Result Submission) → Txn Submission
finish_submission_attempt session_id attempt_id gate update = write (do
  target ← session_upload_target session_id
  submission ← require_submission session_id
  lift (current_submission_attempt submission.state attempt_id)
  finished_at ← now
  submission' ← lift (update submission finished_at)
  put_submission submission'
  put_attempt_target_gate target gate finished_at
  pure submission')

unfoldable pub schedule_submission_retry : Uuid → Uuid → String → Timestamp → Txn Submission
unfolding finish_submission_attempt
schedule_submission_retry session_id attempt_id reason retry_at =
    finish_submission_attempt session_id attempt_id AttemptTargetGate.unchanged
      (retry_submission attempt_id reason retry_at)

unfoldable pub schedule_submission_target_retry :
    Uuid → Uuid → String → Timestamp → ℕ → Txn Submission
unfolding finish_submission_attempt
schedule_submission_target_retry session_id attempt_id reason retry_at failures = do
  fail_if (failures == 0) target_failures_is_zero
  finish_submission_attempt session_id attempt_id
      (AttemptTargetGate.backoff (RemoteOperationRef.submission session_id attempt_id) failures
        retry_at reason)
      (retry_submission attempt_id reason retry_at)

unfoldable pub block_submission : Uuid → Uuid → String → Txn Submission
unfolding finish_submission_attempt
block_submission session_id attempt_id reason =
    finish_submission_attempt session_id attempt_id AttemptTargetGate.unchanged
      (block_with attempt_id reason)

unfoldable pub block_submission_for_target : Uuid → Uuid → String → Txn Submission
unfolding finish_submission_attempt
block_submission_for_target session_id attempt_id reason =
    finish_submission_attempt session_id attempt_id
      (AttemptTargetGate.blocked (RemoteOperationRef.submission session_id attempt_id) reason)
      (block_with attempt_id reason)

unfoldable pub mark_submission_ambiguous : Uuid → Uuid → String → Txn Submission
unfolding finish_submission_attempt
mark_submission_ambiguous session_id attempt_id reason =
    finish_submission_attempt session_id attempt_id AttemptTargetGate.unchanged
      (make_ambiguous attempt_id reason)

-- The part that the two resolutions share.
unfoldable pub resolve_submission_as :
    Uuid
    → SubmissionResolutionDecision
    → Option String
    → (Timestamp → SubmissionState)
    → Txn Submission
resolve_submission_as session_id decision note state = write (do
  session ← require_session session_id
  fail_if (not (permits_submission session.lifecycle)) does_not_permit_submission_recovery
  plan ← or_fail (upload_plan session.output_plan) is_local_only
  submission ← require_submission session_id
  attempt_id ← lift (recoverable_submission_attempt_id submission.state)
  resolved_at ← now
  submission' ←
      lift (resolve_with decision note (state resolved_at) attempt_id submission resolved_at)
  put_submission submission'
  clear_target_gate_if_owner (target_of plan) (submission_operation_ref session_id attempt_id)
  pure submission')

unfoldable pub resolve_submission_not_submitted : Uuid → Option String → Txn Submission
unfolding resolve_submission_as
resolve_submission_not_submitted session_id note =
    resolve_submission_as session_id SubmissionResolutionDecision.confirmed_not_submitted note
      λ now. SubmissionState.retry_authorized now

unfoldable pub resolve_submission_submitted :
    Uuid → Option ℕ → Option String → Option String → Txn Submission
unfolding resolve_submission_as
resolve_submission_submitted session_id aid bvid note = do
  lift (validate_submission_proof aid bvid)
  resolve_submission_as session_id (SubmissionResolutionDecision.confirmed_submitted aid bvid) note
      λ now. SubmissionState.submitted aid bvid

-- A message of the reconciliation: which upload or submission was marked.
pub data Reconciled : Type 0 where
  marked_upload : (session_id : Uuid) (index : ℕ) → Reconciled
  marked_submission : (session_id : Uuid) → Reconciled

-- One round of each of the two loops of reconcile_interrupted_remote_attempts.
abbrev pub reconcile_upload : Segment → UploadState → Txn (List Reconciled)
reconcile_upload segment (UploadState.attempting attempt) = do
  mark_upload_ambiguous segment.session_id segment.index attempt.id
      "process ended before the remote upload result was durably confirmed"
  pure (Reconciled.marked_upload segment.session_id segment.index ∷ [])
reconcile_upload segment _ = pure []

abbrev pub reconcile_submission : Submission → SubmissionState → Txn (List Reconciled)
reconcile_submission submission (SubmissionState.attempting attempt) = do
  mark_submission_ambiguous submission.session_id attempt.id
      "process ended before the remote submission result was durably confirmed"
  pure (Reconciled.marked_submission submission.session_id ∷ [])
reconcile_submission submission _ = pure []

unfoldable pub reconcile_uploads : List Segment → Txn (List Reconciled)
reconcile_uploads [] = pure []
reconcile_uploads (segment ∷ segments) = do
  message ← reconcile_upload segment segment.upload
  messages ← reconcile_uploads segments
  pure (message ++ messages)

unfoldable pub reconcile_submissions : List Submission → Txn (List Reconciled)
reconcile_submissions [] = pure []
reconcile_submissions (submission ∷ submissions) = do
  message ← reconcile_submission submission submission.state
  messages ← reconcile_submissions submissions
  pure (message ++ messages)

-- Each round is a transaction of its own.
unfoldable pub reconcile_interrupted_remote_attempts : Txn (List Reconciled)
reconcile_interrupted_remote_attempts = do
  segments ← list_all_segments
  uploads ← reconcile_uploads segments
  submissions ← list_submissions
  others ← reconcile_submissions submissions
  pure (uploads ++ others)
