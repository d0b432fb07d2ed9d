-- ===== src/Recovery.antt =====
-- src/state/recovery.rs: an operator's decisions, each a call of one transition.
use bilive_rec.Prelude.{ℕ, String, Bool, Option}
use bilive_rec.Model.{Uuid}
use bilive_rec.Model.Segment.{Segment, UploadedPart}
use bilive_rec.Model.Submission.{Submission}
use bilive_rec.Store.Txn.{Txn}
use bilive_rec.Transitions.Close.{CloseSessionRequest, CloseSessionResult, close_session}
use bilive_rec.Transitions.Uploads.{resolve_upload_not_uploaded, resolve_upload_uploaded}
use bilive_rec.Transitions.Submissions.{
  resolve_submission_not_submitted, resolve_submission_submitted,
}

pub data RecordingResolutionTarget : Type 0 where
  finalize : (exclude_failed : Bool) → RecordingResolutionTarget
  abandon : RecordingResolutionTarget

pub data UploadResolutionTarget : Type 0 where
  not_uploaded : UploadResolutionTarget
  uploaded : (proof : UploadedPart) → UploadResolutionTarget

pub data SubmissionResolutionTarget : Type 0 where
  not_submitted : SubmissionResolutionTarget
  submitted : (aid : Option ℕ) (bvid : Option String) → SubmissionResolutionTarget

abbrev pub request_of : RecordingResolutionTarget → Option String → CloseSessionRequest
request_of (RecordingResolutionTarget.finalize exclude_failed) note =
    CloseSessionRequest.recover exclude_failed note
request_of RecordingResolutionTarget.abandon note = CloseSessionRequest.abandon note

unfoldable pub resolve_recording :
    Uuid → RecordingResolutionTarget → Option String → Txn CloseSessionResult
unfolding close_session
resolve_recording session_id target note = close_session session_id (request_of target note)

unfoldable pub resolve_upload : Uuid → ℕ → UploadResolutionTarget → Option String → Txn Segment
unfolding resolve_upload_not_uploaded resolve_upload_uploaded
resolve_upload session_id segment_index UploadResolutionTarget.not_uploaded note =
    resolve_upload_not_uploaded session_id segment_index note
resolve_upload session_id segment_index (UploadResolutionTarget.uploaded proof) note =
    resolve_upload_uploaded session_id segment_index proof note

unfoldable pub resolve_submission :
    Uuid → SubmissionResolutionTarget → Option String → Txn Submission
unfolding resolve_submission_not_submitted resolve_submission_submitted
resolve_submission session_id SubmissionResolutionTarget.not_submitted note =
    resolve_submission_not_submitted session_id note
resolve_submission session_id (SubmissionResolutionTarget.submitted aid bvid) note =
    resolve_submission_submitted session_id aid bvid note
