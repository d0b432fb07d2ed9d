-- ===== src/Rooms/Others.antt =====
-- The transitions that write no session and no room.
use bilive_rec.Prelude.{ℕ, String, Option}
use bilive_rec.Model.{Uuid, Timestamp}
use bilive_rec.Model.Segment.{Segment, RemoteAttempt, UploadedPart}
use bilive_rec.Store.Effects.{Quiet}
use bilive_rec.Transitions.Artifacts.{
  open_segment, begin_artifact_delete, complete_artifact_delete, update_artifact,
}
use bilive_rec.Transitions.Uploads.{
  begin_upload, complete_upload, schedule_upload_retry, schedule_upload_target_retry, block_upload,
  block_upload_for_target, mark_upload_ambiguous, resolve_upload_not_uploaded,
  resolve_upload_uploaded, finish_upload_attempt, resolve_upload_as,
}
use bilive_rec.Transitions.Submissions.{
  begin_submission, complete_submission, schedule_submission_retry,
  schedule_submission_target_retry, block_submission, block_submission_for_target,
  mark_submission_ambiguous, resolve_submission_not_submitted, resolve_submission_submitted,
  finish_submission_attempt, resolve_submission_as,
}
use bilive_rec.Rooms.Rules.{own}
use bilive_rec.Rooms.Claims.{own_quiet}

pub open_segment-own : (a : Segment) → Quiet own (open_segment a)
unfolding open_segment
open_segment-own a = search own_quiet depth 16

pub begin_artifact_delete-own : (a : Uuid) (b : ℕ) → Quiet own (begin_artifact_delete a b)
unfolding begin_artifact_delete
begin_artifact_delete-own a b = search own_quiet depth 16

pub complete_artifact_delete-own : (a : Uuid) (b : ℕ) → Quiet own (complete_artifact_delete a b)
unfolding complete_artifact_delete update_artifact
complete_artifact_delete-own a b = search own_quiet depth 16

pub begin_upload-own : (a : Uuid) (b : ℕ) (c : RemoteAttempt) → Quiet own (begin_upload a b c)
unfolding begin_upload
begin_upload-own a b c = search own_quiet depth 16

pub complete_upload-own :
    (a : Uuid) (b : ℕ) (c : Uuid) (d : UploadedPart) → Quiet own (complete_upload a b c d)
unfolding complete_upload
complete_upload-own a b c d = search own_quiet depth 16

pub schedule_upload_retry-own :
    (a : Uuid) (b : ℕ) (c : Uuid) (d : String) (e : Timestamp)
    → Quiet own (schedule_upload_retry a b c d e)
unfolding schedule_upload_retry finish_upload_attempt
schedule_upload_retry-own a b c d e = search own_quiet depth 16

pub schedule_upload_target_retry-own :
    (a : Uuid) (b : ℕ) (c : Uuid) (d : String) (e : Timestamp) (f : ℕ)
    → Quiet own (schedule_upload_target_retry a b c d e f)
unfolding schedule_upload_target_retry finish_upload_attempt
schedule_upload_target_retry-own a b c d e f = search own_quiet depth 16

pub block_upload-own : (a : Uuid) (b : ℕ) (c : Uuid) (d : String) → Quiet own (block_upload a b c d)
unfolding block_upload finish_upload_attempt
block_upload-own a b c d = search own_quiet depth 16

pub block_upload_for_target-own :
    (a : Uuid) (b : ℕ) (c : Uuid) (d : String) → Quiet own (block_upload_for_target a b c d)
unfolding block_upload_for_target finish_upload_attempt
block_upload_for_target-own a b c d = search own_quiet depth 16

pub mark_upload_ambiguous-own :
    (a : Uuid) (b : ℕ) (c : Uuid) (d : String) → Quiet own (mark_upload_ambiguous a b c d)
unfolding mark_upload_ambiguous finish_upload_attempt
mark_upload_ambiguous-own a b c d = search own_quiet depth 16

pub resolve_upload_not_uploaded-own :
    (a : Uuid) (b : ℕ) (c : Option String) → Quiet own (resolve_upload_not_uploaded a b c)
unfolding resolve_upload_not_uploaded resolve_upload_as
resolve_upload_not_uploaded-own a b c = search own_quiet depth 16

pub resolve_upload_uploaded-own :
    (a : Uuid) (b : ℕ) (c : UploadedPart) (d : Option String)
    → Quiet own (resolve_upload_uploaded a b c d)
unfolding resolve_upload_uploaded resolve_upload_as
resolve_upload_uploaded-own a b c d = search own_quiet depth 16

pub begin_submission-own : (a : Uuid) (b : RemoteAttempt) → Quiet own (begin_submission a b)
unfolding begin_submission
begin_submission-own a b = search own_quiet depth 16

pub complete_submission-own :
    (a : Uuid) (b : Uuid) (c : Option ℕ) (d : Option String)
    → Quiet own (complete_submission a b c d)
unfolding complete_submission
complete_submission-own a b c d = search own_quiet depth 16

pub schedule_submission_retry-own :
    (a : Uuid) (b : Uuid) (c : String) (d : Timestamp)
    → Quiet own (schedule_submission_retry a b c d)
unfolding schedule_submission_retry finish_submission_attempt
schedule_submission_retry-own a b c d = search own_quiet depth 16

pub schedule_submission_target_retry-own :
    (a : Uuid) (b : Uuid) (c : String) (d : Timestamp) (e : ℕ)
    → Quiet own (schedule_submission_target_retry a b c d e)
unfolding schedule_submission_target_retry finish_submission_attempt
schedule_submission_target_retry-own a b c d e = search own_quiet depth 16

pub block_submission-own : (a : Uuid) (b : Uuid) (c : String) → Quiet own (block_submission a b c)
unfolding block_submission finish_submission_attempt
block_submission-own a b c = search own_quiet depth 16

pub block_submission_for_target-own :
    (a : Uuid) (b : Uuid) (c : String) → Quiet own (block_submission_for_target a b c)
unfolding block_submission_for_target finish_submission_attempt
block_submission_for_target-own a b c = search own_quiet depth 16

pub mark_submission_ambiguous-own :
    (a : Uuid) (b : Uuid) (c : String) → Quiet own (mark_submission_ambiguous a b c)
unfolding mark_submission_ambiguous finish_submission_attempt
mark_submission_ambiguous-own a b c = search own_quiet depth 16

pub resolve_submission_not_submitted-own :
    (a : Uuid) (b : Option String) → Quiet own (resolve_submission_not_submitted a b)
unfolding resolve_submission_not_submitted resolve_submission_as
resolve_submission_not_submitted-own a b = search own_quiet depth 16

pub resolve_submission_submitted-own :
    (a : Uuid) (b : Option ℕ) (c : Option String) (d : Option String)
    → Quiet own (resolve_submission_submitted a b c d)
unfolding resolve_submission_submitted resolve_submission_as
resolve_submission_submitted-own a b c d = search own_quiet depth 16
