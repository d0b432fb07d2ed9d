-- ===== src/Transitions/History.antt =====
-- src/state/transitions.rs: the attempt histories of segments and submissions.
use bilive_rec.Prelude.{Option, some, List, [], ◌∷◌, ◌||◌, ◌==◌, is_some, is_none, if◌then◌else◌}
use bilive_rec.Errors.{
  Result, ok, state_error, ◌>>=◌, not_owned_by_attempt, no_history_record, attempt_already_finished,
  no_operator_resolution_required,
}
use bilive_rec.Model.{Uuid, Timestamp}
use bilive_rec.Model.Segment.{
  Segment, UploadState, UploadAttempt, UploadAttemptOutcome, RemoteAttempt,
}
use bilive_rec.Model.Submission.{
  Submission, SubmissionState, SubmissionAttempt, SubmissionAttemptOutcome,
}

-- `iter_mut().find(..)` and the writes to what it finds.
unfoldable pub finish_attempts :
    List UploadAttempt → Uuid → Timestamp → UploadAttemptOutcome → Result (List UploadAttempt)
finish_attempts [] attempt_id finished_at outcome = state_error no_history_record
finish_attempts (r ∷ rs) attempt_id finished_at outcome =
    let rest = finish_attempts rs attempt_id finished_at outcome in
    if r.attempt.id == attempt_id
    then (if is_some r.finished_at || is_some r.outcome
        then state_error attempt_already_finished
        else ok (record r { finished_at = some finished_at; outcome = some outcome } ∷ rs))
    else (do rs' ← rest; ok (r ∷ rs'))

unfoldable pub finish_upload_history :
    Segment → Uuid → Timestamp → UploadAttemptOutcome → Result Segment
finish_upload_history segment attempt_id finished_at outcome = do
  attempts ← finish_attempts segment.upload_attempts attempt_id finished_at outcome
  ok (record segment { upload_attempts = attempts })

unfoldable pub current_upload_attempt : UploadState → Uuid → Result RemoteAttempt
current_upload_attempt (UploadState.attempting attempt) attempt_id =
    if attempt.id == attempt_id then ok attempt else state_error not_owned_by_attempt
current_upload_attempt _ attempt_id = state_error not_owned_by_attempt

-- Only a record that has no outcome yet is changed.
unfoldable pub finish_attempts_as_ambiguous :
    List UploadAttempt → Uuid → Timestamp → Result (List UploadAttempt)
finish_attempts_as_ambiguous [] attempt_id now = state_error no_history_record
finish_attempts_as_ambiguous (r ∷ rs) attempt_id now =
    let rest = finish_attempts_as_ambiguous rs attempt_id now in
    if r.attempt.id == attempt_id
    then ok (
        (if is_none r.outcome
          then record r {
            finished_at = some now;
            outcome =
                some (UploadAttemptOutcome.ambiguous "operator resolved an interrupted attempt");
          }
          else r)
        ∷ rs)
    else (do rs' ← rest; ok (r ∷ rs'))

unfoldable pub finish_unfinished_upload_as_ambiguous : Segment → Uuid → Timestamp → Result Segment
finish_unfinished_upload_as_ambiguous segment attempt_id now = do
  attempts ← finish_attempts_as_ambiguous segment.upload_attempts attempt_id now
  ok (record segment { upload_attempts = attempts })

unfoldable pub recoverable_upload_attempt_id : UploadState → Result (Option Uuid)
recoverable_upload_attempt_id (UploadState.attempting attempt) = ok (some attempt.id)
recoverable_upload_attempt_id (UploadState.ambiguous attempt _) = ok (some attempt.id)
recoverable_upload_attempt_id (UploadState.blocked attempt_id _) = ok attempt_id
recoverable_upload_attempt_id _ = state_error no_operator_resolution_required

-- The same for submissions.
unfoldable pub finish_submission_attempts :
    List SubmissionAttempt
    → Uuid
    → Timestamp
    → SubmissionAttemptOutcome
    → Result (List SubmissionAttempt)
finish_submission_attempts [] attempt_id finished_at outcome = state_error no_history_record
finish_submission_attempts (r ∷ rs) attempt_id finished_at outcome =
    let rest = finish_submission_attempts rs attempt_id finished_at outcome in
    if r.attempt.id == attempt_id
    then (if is_some r.finished_at || is_some r.outcome
        then state_error attempt_already_finished
        else ok (record r { finished_at = some finished_at; outcome = some outcome } ∷ rs))
    else (do rs' ← rest; ok (r ∷ rs'))

unfoldable pub finish_submission_history :
    Submission → Uuid → Timestamp → SubmissionAttemptOutcome → Result Submission
finish_submission_history submission attempt_id finished_at outcome = do
  attempts ← finish_submission_attempts submission.attempts attempt_id finished_at outcome
  ok (record submission { attempts = attempts })

unfoldable pub current_submission_attempt : SubmissionState → Uuid → Result RemoteAttempt
current_submission_attempt (SubmissionState.attempting attempt) attempt_id =
    if attempt.id == attempt_id then ok attempt else state_error not_owned_by_attempt
current_submission_attempt _ attempt_id = state_error not_owned_by_attempt

unfoldable pub finish_submission_attempts_as_ambiguous :
    List SubmissionAttempt → Uuid → Timestamp → Result (List SubmissionAttempt)
finish_submission_attempts_as_ambiguous [] attempt_id now = state_error no_history_record
finish_submission_attempts_as_ambiguous (r ∷ rs) attempt_id now =
    let rest = finish_submission_attempts_as_ambiguous rs attempt_id now in
    if r.attempt.id == attempt_id
    then ok (
        (if is_none r.outcome
          then record r {
            finished_at = some now;
            outcome =
                some
                  (SubmissionAttemptOutcome.ambiguous "operator resolved an interrupted attempt");
          }
          else r)
        ∷ rs)
    else (do rs' ← rest; ok (r ∷ rs'))

unfoldable pub finish_unfinished_submission_as_ambiguous :
    Submission → Uuid → Timestamp → Result Submission
finish_unfinished_submission_as_ambiguous submission attempt_id now = do
  attempts ← finish_submission_attempts_as_ambiguous submission.attempts attempt_id now
  ok (record submission { attempts = attempts })

unfoldable pub recoverable_submission_attempt_id : SubmissionState → Result (Option Uuid)
recoverable_submission_attempt_id (SubmissionState.attempting attempt) = ok (some attempt.id)
recoverable_submission_attempt_id (SubmissionState.ambiguous attempt _) = ok (some attempt.id)
recoverable_submission_attempt_id (SubmissionState.blocked attempt_id _) = ok attempt_id
recoverable_submission_attempt_id _ = state_error no_operator_resolution_required
