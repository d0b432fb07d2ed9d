-- ===== src/Tests/Play.antt =====
-- Running commands on a new store, with every definition of the model open.
use bilive_rec.Store.Txn.{
  pure, raise, lift, fail_if, or_fail, now, asks, gets, modify, ◌>>=◌, write,
}
use bilive_rec.Store.Range.{take_prefix, range_scan}
use bilive_rec.Model.Target.{target_of, operation_session_id, operation_eq}
use bilive_rec.Model.Segment.{
  local_path, close_reason, is_usable, pending_upload, is_due as is_due_segment, uploaded_part,
  is_writing, is_ready, is_failed, can_fail, has_open_intent, is_pending, is_uploaded,
  is_retry as is_retry_segment, is_exclude,
}
use bilive_rec.Model.Submission.{
  is_due as is_due_submission, is_submitted, is_retry as is_retry_submission,
}
use bilive_rec.Model.Session.{
  is_open, is_recovery_required, is_closed, permits_upload, permits_submission, upload_plan,
  submission_spec,
}
use bilive_rec.Model.Room.{room_session_id, room_lifecycle_eq}
use bilive_rec.Transitions.History.{
  finish_attempts, finish_upload_history, current_upload_attempt, finish_attempts_as_ambiguous,
  finish_unfinished_upload_as_ambiguous, recoverable_upload_attempt_id, finish_submission_attempts,
  finish_submission_history, current_submission_attempt, finish_submission_attempts_as_ambiguous,
  finish_unfinished_submission_as_ambiguous, recoverable_submission_attempt_id,
}
use bilive_rec.Transitions.Sessions.{
  create_session, note_reason, record_recovery_reason, fail_artifact, require_recovery_again,
  require_recovery_first, require_recovery_in, require_recovery,
}
use bilive_rec.Transitions.SubmissionSteps.{
  part_status, count_parts, claim_submission, record_submission_attempt, validate_submission_proof,
  confirm_submission, retry_submission, block_with as block_with_submissionsteps,
  make_ambiguous as make_ambiguous_submissionsteps, resolve_with as resolve_with_submissionsteps,
}
use bilive_rec.Transitions.Guards.{
  require_session, require_segment, require_submission, put_room, require_room_owner,
  require_open_owned_session, require_or_claim_recovery_owner,
}
use bilive_rec.Transitions.Submissions.{
  require_submission_parts, begin_submission, complete_submission, finish_submission_attempt,
  schedule_submission_retry, schedule_submission_target_retry, block_submission,
  block_submission_for_target, mark_submission_ambiguous, resolve_submission_as,
  resolve_submission_not_submitted, resolve_submission_submitted, reconcile_uploads,
  reconcile_submissions, reconcile_interrupted_remote_attempts,
}
use bilive_rec.Transitions.Artifacts.{
  open_segment, update_artifact, update_recording_artifact, begin_artifact_finalization,
  complete_artifact_finalization, begin_artifact_discard, complete_artifact_discard,
  begin_artifact_conflict_resolution, complete_artifact_conflict_resolution,
  exclude_artifact_conflict, begin_artifact_delete, complete_artifact_delete,
}
use bilive_rec.Transitions.Targets.{
  session_upload_target, put_attempt_target_gate, consume_target_ready, clear_target_gate_if_owner,
}
use bilive_rec.Transitions.Uploads.{
  begin_upload, complete_upload, finish_upload_attempt, schedule_upload_retry,
  schedule_upload_target_retry, block_upload, block_upload_for_target, mark_upload_ambiguous,
  resolve_upload_as, resolve_upload_not_uploaded, resolve_upload_uploaded,
}
use bilive_rec.Transitions.Close.{
  require_closable, require_closer, mark_recovery_required, abandon_segments, abandon_session,
  exclusion, exclude_failed_segments, finish_closing, refuse_closing, close_or_recover, close_by,
  close_session,
}
use bilive_rec.Transitions.UploadSteps.{
  claim_upload, validate_uploaded_part, confirm_upload, retry_upload,
  block_with as block_with_uploadsteps, make_ambiguous as make_ambiguous_uploadsteps,
  resolve_with as resolve_with_uploadsteps, abandon_upload,
}
use bilive_rec.Runs.Execute.{execute, run}
use bilive_rec.Prelude.{is_whitespace, is_control, is_blank, has_control, decimal, path_eq}
use bilive_rec.Prelude.{List, any, find, count_where}
use bilive_rec.Store.Table.{get, put}
use bilive_rec.Store.Txn.{Db}
use bilive_rec.Runs.Command.{Command}
use bilive_rec.Runs.Execute.{new_store}
use bilive_rec.Tests.Data.{env}

unfoldable pub play : List Command → Db
unfolding pure raise lift fail_if or_fail now asks gets modify ◌>>=◌ write take_prefix range_scan
    target_of operation_session_id operation_eq local_path close_reason is_usable pending_upload
    is_due_segment uploaded_part is_writing is_ready is_failed can_fail has_open_intent is_pending
    is_uploaded is_retry_segment is_exclude is_due_submission is_submitted is_retry_submission
    is_open is_recovery_required is_closed permits_upload permits_submission upload_plan
    submission_spec room_session_id room_lifecycle_eq finish_attempts finish_upload_history
    current_upload_attempt finish_attempts_as_ambiguous finish_unfinished_upload_as_ambiguous
    recoverable_upload_attempt_id finish_submission_attempts finish_submission_history
    current_submission_attempt finish_submission_attempts_as_ambiguous
    finish_unfinished_submission_as_ambiguous recoverable_submission_attempt_id create_session
    note_reason record_recovery_reason fail_artifact require_recovery_again require_recovery_first
    require_recovery_in require_recovery part_status count_parts claim_submission
    record_submission_attempt validate_submission_proof confirm_submission retry_submission
    block_with_submissionsteps make_ambiguous_submissionsteps resolve_with_submissionsteps
    require_session require_segment require_submission put_room require_room_owner
    require_open_owned_session require_or_claim_recovery_owner require_submission_parts
    begin_submission complete_submission finish_submission_attempt schedule_submission_retry
    schedule_submission_target_retry block_submission block_submission_for_target
    mark_submission_ambiguous resolve_submission_as resolve_submission_not_submitted
    resolve_submission_submitted reconcile_uploads reconcile_submissions
    reconcile_interrupted_remote_attempts open_segment update_artifact update_recording_artifact
    begin_artifact_finalization complete_artifact_finalization begin_artifact_discard
    complete_artifact_discard begin_artifact_conflict_resolution
    complete_artifact_conflict_resolution exclude_artifact_conflict begin_artifact_delete
    complete_artifact_delete session_upload_target put_attempt_target_gate consume_target_ready
    clear_target_gate_if_owner begin_upload complete_upload finish_upload_attempt
    schedule_upload_retry schedule_upload_target_retry block_upload block_upload_for_target
    mark_upload_ambiguous resolve_upload_as resolve_upload_not_uploaded resolve_upload_uploaded
    require_closable require_closer mark_recovery_required abandon_segments abandon_session
    exclusion exclude_failed_segments finish_closing refuse_closing close_or_recover close_by
    close_session claim_upload validate_uploaded_part confirm_upload retry_upload
    block_with_uploadsteps make_ambiguous_uploadsteps resolve_with_uploadsteps abandon_upload
    execute run is_whitespace is_control is_blank has_control decimal path_eq any find count_where
    get put
play cs = run cs env new_store
