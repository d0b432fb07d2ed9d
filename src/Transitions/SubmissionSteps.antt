-- ===== src/Transitions/SubmissionSteps.antt =====
-- src/state/transitions.rs: what the submission transitions do to the submission itself, as
-- functions on it. `Submissions` puts them into transactions.
use bilive_rec.Prelude.{
  ℕ, suc, ◌%◌, String, false, Option, none, some, ◌==◌, List, [], ◌∷◌, ◌++◌, any, count_where,
  is_none, is_some_and, if◌then◌else◌,
}
use bilive_rec.Errors.{
  Result, ok, state_error, attempt_already_exists, submission_not_ready_for_attempt,
  segment_not_ready_for_submission, aid_is_zero, proof_is_missing, bvid_is_invalid, ◌>>=◌,
}
use bilive_rec.Model.{Uuid, Timestamp, u32_mod}
use bilive_rec.Model.Segment.{Segment, ArtifactState, UploadState, RemoteAttempt}
use bilive_rec.Model.Submission.{
  Submission, SubmissionState, SubmissionAttempt, SubmissionAttemptOutcome,
  SubmissionResolutionDecision, is_due, is_retry,
}
use bilive_rec.Transitions.History.{
  finish_submission_history, current_submission_attempt, finish_unfinished_submission_as_ambiguous,
}
use bilive_rec.Transitions.UploadSteps.{bad_text}

-- What require_submission_parts makes of one segment: to be left out, a part, or in the way.
pub data PartStatus : Type 0 where
  skipped part unready : PartStatus

unfoldable pub part_status : ArtifactState → UploadState → PartStatus
part_status (ArtifactState.filtered _) upload = PartStatus.skipped
part_status (ArtifactState.excluded _) upload = PartStatus.skipped
part_status (ArtifactState.ready _) (UploadState.uploaded _) = PartStatus.part
part_status ArtifactState.deleting (UploadState.uploaded _) = PartStatus.part
part_status ArtifactState.deleted (UploadState.uploaded _) = PartStatus.part
part_status _ _ = PartStatus.unready

-- The loop of require_submission_parts: how many parts are uploaded.
unfoldable pub count_parts : List Segment → Result ℕ
count_parts [] = ok 0
count_parts (segment ∷ segments) =
    let rest = count_parts segments in
    elim (part_status segment.artifact segment.upload) [
      | PartStatus.skipped ↦ rest
      | PartStatus.part ↦ (do n ← rest; ok (suc n))
      | PartStatus.unready ↦ state_error segment_not_ready_for_submission
    ]

-- begin_submission: a first submission, or one that is due again, becomes Attempting.
unfoldable pub claim_submission : Uuid → RemoteAttempt → Option Submission → Result Submission
claim_submission session_id attempt none = ok (record {
  session_id = session_id;
  state = SubmissionState.attempting attempt;
  attempts = [];
  resolutions = [];
})
claim_submission session_id attempt (some submission) =
    if is_due submission.state attempt.started_at
    then ok (record submission { state = SubmissionState.attempting attempt })
    else state_error submission_not_ready_for_attempt

unfoldable pub record_submission_attempt : RemoteAttempt → Submission → Result Submission
record_submission_attempt attempt submission =
    if any (λ r. r.attempt.id == attempt.id) submission.attempts
    then state_error attempt_already_exists
    else ok (record submission {
      attempts =
          submission.attempts
          ++ record { attempt = attempt; finished_at = none; outcome = none } ∷ [];
    })

unfoldable pub validate_submission_proof : Option ℕ → Option String → Result (Unit {0})
validate_submission_proof aid bvid =
    if is_some_and aid (λ n. n == 0)
    then state_error aid_is_zero
    else if (if is_none aid then is_none bvid else false)
    then state_error proof_is_missing
    else if is_some_and bvid bad_text
    then state_error bvid_is_invalid
    else ok tt

-- complete_submission
unfoldable pub confirm_submission :
    Uuid → Option ℕ → Option String → Submission → Timestamp → Result Submission
confirm_submission attempt_id aid bvid submission now = do
  submission' ←
      finish_submission_history submission attempt_id now
        (SubmissionAttemptOutcome.submitted aid bvid)
  ok (record submission' { state = SubmissionState.submitted aid bvid })

abbrev pub submission_failures : List SubmissionAttempt → ℕ
submission_failures attempts = count_where (λ r. is_retry r.outcome) attempts % u32_mod

-- schedule_submission_retry_with_target_gate
unfoldable pub retry_submission :
    Uuid → String → Timestamp → Submission → Timestamp → Result Submission
retry_submission attempt_id reason retry_at submission now = do
  submission' ←
      finish_submission_history submission attempt_id now
        (SubmissionAttemptOutcome.retry_scheduled reason)
  ok (record submission' {
    state =
        SubmissionState.retry_scheduled (submission_failures submission'.attempts) retry_at reason;
  })

-- block_submission, block_submission_for_target
unfoldable pub block_with : Uuid → String → Submission → Timestamp → Result Submission
block_with attempt_id reason submission now = do
  submission' ←
      finish_submission_history submission attempt_id now (SubmissionAttemptOutcome.blocked reason)
  ok (record submission' { state = SubmissionState.blocked (some attempt_id) reason })

-- mark_submission_ambiguous
unfoldable pub make_ambiguous : Uuid → String → Submission → Timestamp → Result Submission
make_ambiguous attempt_id reason submission now = do
  attempt ← current_submission_attempt submission.state attempt_id
  submission' ←
      finish_submission_history submission attempt_id now
        (SubmissionAttemptOutcome.ambiguous reason)
  ok (record submission' { state = SubmissionState.ambiguous attempt reason })

abbrev pub finish_if_named : Option Uuid → Submission → Timestamp → Result Submission
finish_if_named none submission now = ok submission
finish_if_named (some attempt_id) submission now =
    finish_unfinished_submission_as_ambiguous submission attempt_id now

-- resolve_submission_not_submitted, resolve_submission_submitted
unfoldable pub resolve_with :
    SubmissionResolutionDecision
    → Option String
    → SubmissionState
    → Option Uuid
    → Submission
    → Timestamp
    → Result Submission
resolve_with decision note state attempt_id submission now = do
  submission' ← finish_if_named attempt_id submission now
  ok (record submission' {
    resolutions =
        submission'.resolutions
        ++ record { attempt_id = attempt_id; resolved_at = now; decision = decision; note = note }
          ∷ [];
    state = state;
  })
