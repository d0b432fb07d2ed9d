-- ===== src/Transitions/UploadSteps.antt =====
-- src/state/transitions.rs: what the upload transitions do to the segment itself, as functions on
-- the segment. `Uploads` puts them into transactions.
use bilive_rec.Prelude.{
  ℕ, ◌%◌, String, Bool, Option, none, some, not, ◌||◌, ◌==◌, List, [], ◌∷◌, ◌++◌, any, count_where,
  if◌then◌else◌, is_blank, has_control,
}
use bilive_rec.Errors.{
  Result, ok, state_error, not_a_due_upload, attempt_already_exists, uploaded_part_is_invalid,
  ◌>>=◌,
}
use bilive_rec.Model.{Uuid, Timestamp, u32_mod}
use bilive_rec.Model.Session.{SessionLifecycle, SessionClosure}
use bilive_rec.Model.Segment.{
  Segment, UploadState, RemoteAttempt, UploadedPart, UploadAttempt, UploadAttemptOutcome,
  UploadResolutionDecision, is_ready, is_pending, is_due, is_retry, pending_upload,
}
use bilive_rec.Transitions.History.{
  finish_upload_history, current_upload_attempt, finish_unfinished_upload_as_ambiguous,
}

-- begin_upload
unfoldable pub claim_upload : RemoteAttempt → Segment → Result Segment
claim_upload attempt segment =
    if not (is_ready segment.artifact)
      || not (is_pending segment.upload)
      || not (is_due segment.upload attempt.started_at)
    then state_error not_a_due_upload
    else if any (λ r. r.attempt.id == attempt.id) segment.upload_attempts
    then state_error attempt_already_exists
    else ok (record segment {
      upload_attempts =
          segment.upload_attempts
          ++ record { attempt = attempt; finished_at = none; outcome = none } ∷ [];
      upload = UploadState.attempting attempt;
    })

abbrev pub bad_text : String → Bool
bad_text value = is_blank value || has_control value

unfoldable pub validate_uploaded_part : UploadedPart → Result (Unit {0})
validate_uploaded_part proof =
    if bad_text proof.bili_filename || bad_text proof.part_title
    then state_error uploaded_part_is_invalid
    else ok tt

-- complete_upload
unfoldable pub confirm_upload : Uuid → UploadedPart → Segment → Timestamp → Result Segment
confirm_upload attempt_id proof segment now = do
  segment' ← finish_upload_history segment attempt_id now (UploadAttemptOutcome.confirmed proof)
  ok (record segment' { upload = UploadState.uploaded proof })

-- The retries counted in the history, `as u32`.
abbrev pub upload_failures : List UploadAttempt → ℕ
upload_failures attempts = count_where (λ r. is_retry r.outcome) attempts % u32_mod

-- schedule_upload_retry_with_target_gate
unfoldable pub retry_upload : Uuid → String → Timestamp → Segment → Timestamp → Result Segment
retry_upload attempt_id reason retry_at segment now = do
  segment' ←
      finish_upload_history segment attempt_id now (UploadAttemptOutcome.retry_scheduled reason)
  ok (record segment' {
    upload =
        UploadState.pending (upload_failures segment'.upload_attempts) (some retry_at)
          (some reason);
  })

-- block_upload, block_upload_for_target
unfoldable pub block_with : Uuid → String → Segment → Timestamp → Result Segment
block_with attempt_id reason segment now = do
  segment' ← finish_upload_history segment attempt_id now (UploadAttemptOutcome.blocked reason)
  ok (record segment' { upload = UploadState.blocked (some attempt_id) reason })

-- mark_upload_ambiguous
unfoldable pub make_ambiguous : Uuid → String → Segment → Timestamp → Result Segment
make_ambiguous attempt_id reason segment now = do
  attempt ← current_upload_attempt segment.upload attempt_id
  segment' ← finish_upload_history segment attempt_id now (UploadAttemptOutcome.ambiguous reason)
  ok (record segment' { upload = UploadState.ambiguous attempt reason })

abbrev pub finish_if_named : Option Uuid → Segment → Timestamp → Result Segment
finish_if_named none segment now = ok segment
finish_if_named (some attempt_id) segment now =
    finish_unfinished_upload_as_ambiguous segment attempt_id now

-- What becomes of an upload that the operator says did not happen.
abbrev pub upload_after_denial : SessionLifecycle → Timestamp → UploadState
upload_after_denial (SessionLifecycle.closed (SessionClosure.abandoned _ _)) now =
    UploadState.cancelled now "operator confirmed no remote upload for a closed session"
upload_after_denial (SessionLifecycle.closed (SessionClosure.no_usable_recording _ _)) now =
    UploadState.cancelled now "operator confirmed no remote upload for a closed session"
upload_after_denial _ now = pending_upload

-- resolve_upload_not_uploaded, resolve_upload_uploaded: the attempt in question is closed as
-- ambiguous if it has no outcome, the decision is appended, and the upload gets its new state.
unfoldable pub resolve_with :
    UploadResolutionDecision
    → Option String
    → UploadState
    → Option Uuid
    → Segment
    → Timestamp
    → Result Segment
resolve_with decision note upload attempt_id segment now = do
  segment' ← finish_if_named attempt_id segment now
  ok (record segment' {
    upload_resolutions =
        segment'.upload_resolutions
        ++ record { attempt_id = attempt_id; resolved_at = now; decision = decision; note = note }
          ∷ [];
    upload = upload;
  })

abbrev pub abandon_by : UploadState → Segment → Timestamp → Result Segment
abandon_by (UploadState.attempting attempt) segment now = do
  segment' ← finish_unfinished_upload_as_ambiguous segment attempt.id now
  ok (record segment' {
    upload = UploadState.ambiguous attempt "session was abandoned while upload outcome was unknown";
  })
abandon_by (UploadState.pending _ _ _) segment now =
    ok (record segment { upload = UploadState.cancelled now "session was abandoned" })
abandon_by (UploadState.blocked _ _) segment now =
    ok (record segment { upload = UploadState.cancelled now "session was abandoned" })
abandon_by _ segment now = ok segment

-- abandon_upload
unfoldable pub abandon_upload : Segment → Timestamp → Result Segment
abandon_upload segment now = abandon_by segment.upload segment now
