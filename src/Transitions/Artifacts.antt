-- ===== src/Transitions/Artifacts.antt =====
-- src/state/transitions.rs: a segment's artifact, from its opening to its deletion. What the source
-- passes as a closure to `update_recording_artifact` is a function on the segment here.
use bilive_rec.Prelude.{
  ℕ, ◌+◌, ◌-◌, min, String, Bool, true, false, Option, none, some, not, ◌||◌, ◌==◌, [], ◌∷◌, ◌++◌,
  last, if◌then◌else◌, is_some, is_some_and, path_eq,
}
use bilive_rec.Errors.{
  Result, ok, state_error, paths_must_differ, paths_must_be_absolute, segment_already_exists,
  out_of_sequence, new_segment_must_be_writing, unexpected_artifact, must_be_recovery_required,
  decision_is_exclude, decision_is_not_exclude, refusing_artifact_deletion, delete_not_permitted,
  submission_is_not_submitted, must_be_ready_and_uploaded, session_is_closed,
}
use bilive_rec.Model.{Uuid, Timestamp, u32_mod}
use bilive_rec.Model.Session.{
  OutputPlan, is_recovery_required, is_closed, permits_submission, upload_plan,
}
use bilive_rec.Model.Segment.{
  Segment, ArtifactState, SegmentCloseReason, ArtifactResolutionDecision, UploadState, is_writing,
  is_ready, is_uploaded, is_exclude, pending_upload,
}
use bilive_rec.Model.Submission.{is_submitted}
use bilive_rec.Store.Txn.{
  Txn, pure, lift, fail_if, or_fail, now, write, get_segment, put_segment, list_segments,
  get_submission, ◌>>=◌, ◌>>◌,
}
use bilive_rec.Transitions.Guards.{
  require_session, require_segment, require_open_owned_session, require_or_claim_recovery_owner,
}

abbrev pub u32_max : ℕ
u32_max = u32_mod - 1

-- `last.index.saturating_add(1)`, or 1 for the first segment.
abbrev pub next_index : Option Segment → ℕ
next_index none = 1
next_index (some segment) = min (segment.index + 1) u32_max

abbrev pub planned_upload : OutputPlan → UploadState
planned_upload OutputPlan.local_only = UploadState.not_planned
planned_upload (OutputPlan.bilibili _ _) = pending_upload

unfoldable pub open_segment : Segment → Txn Segment
open_segment segment = do
  fail_if (path_eq segment.part_path segment.final_path) paths_must_differ
  fail_if (not segment.part_path.is_absolute || not segment.final_path.is_absolute)
      paths_must_be_absolute
  write (do
    session ← require_session segment.session_id
    require_open_owned_session session
    existing ← get_segment segment.session_id segment.index
    fail_if (is_some existing) segment_already_exists
    segments ← list_segments segment.session_id
    fail_if (not (segment.index == next_index (last segments))) out_of_sequence
    fail_if (not (is_writing segment.artifact)) new_segment_must_be_writing
    let fresh = record segment {
      upload = planned_upload session.output_plan;
      artifact_resolutions = [];
      upload_attempts = [];
      upload_resolutions = [];
    }
    put_segment fresh
    pure fresh)

unfoldable pub update_artifact : Uuid → ℕ → (Segment → Result Segment) → Txn Segment
update_artifact session_id index update = write (do
  segment ← require_segment session_id index
  segment' ← lift (update segment)
  put_segment segment'
  pure segment')

abbrev pub require_recordable : Bool → Uuid → Txn (Unit {0})
require_recordable true session_id = do
  session ← require_session session_id
  require_open_owned_session session
require_recordable false session_id = do
  session ← require_session session_id
  fail_if (is_closed session.lifecycle) session_is_closed
  require_or_claim_recovery_owner session

unfoldable pub update_recording_artifact :
    Uuid → ℕ → Bool → (Segment → Result Segment) → Txn Segment
update_recording_artifact session_id index require_open update = write (do
  require_recordable require_open session_id
  segment ← require_segment session_id index
  segment' ← lift (update segment)
  put_segment segment'
  pure segment')

abbrev pub begin_finalizing : SegmentCloseReason → Segment → Result Segment
begin_finalizing reason segment =
    if is_writing segment.artifact
    then ok (record segment { artifact = ArtifactState.finalizing reason })
    else state_error unexpected_artifact

unfoldable pub begin_artifact_finalization : Uuid → ℕ → SegmentCloseReason → Txn Segment
unfolding update_recording_artifact
begin_artifact_finalization session_id index reason =
    update_recording_artifact session_id index true (begin_finalizing reason)

abbrev pub finish_finalizing : Segment → Result Segment
finish_finalizing segment = elim segment.artifact [
  | ArtifactState.finalizing reason ↦ ok (record segment { artifact = ArtifactState.ready reason })
  | _ ↦ state_error unexpected_artifact
]

unfoldable pub complete_artifact_finalization : Uuid → ℕ → Txn Segment
unfolding update_recording_artifact
complete_artifact_finalization session_id index =
    update_recording_artifact session_id index false finish_finalizing

abbrev pub begin_discarding : SegmentCloseReason → Segment → Result Segment
begin_discarding reason segment =
    if is_writing segment.artifact
    then ok (record segment { artifact = ArtifactState.discarding reason })
    else state_error unexpected_artifact

unfoldable pub begin_artifact_discard : Uuid → ℕ → SegmentCloseReason → Txn Segment
unfolding update_recording_artifact
begin_artifact_discard session_id index reason =
    update_recording_artifact session_id index true (begin_discarding reason)

abbrev pub finish_discarding : Segment → Result Segment
finish_discarding segment = elim segment.artifact [
  | ArtifactState.discarding reason ↦ ok (record segment {
    artifact = ArtifactState.filtered reason;
    upload = UploadState.not_planned;
  })
  | _ ↦ state_error unexpected_artifact
]

unfoldable pub complete_artifact_discard : Uuid → ℕ → Txn Segment
unfolding update_recording_artifact
complete_artifact_discard session_id index =
    update_recording_artifact session_id index false finish_discarding

abbrev pub resolve_with :
    SegmentCloseReason
    → ArtifactResolutionDecision
    → Option String
    → Timestamp
    → Segment
    → Result Segment
resolve_with reason decision note decided_at segment = ok (record segment {
  artifact_resolutions =
      segment.artifact_resolutions
      ++ record { decided_at = decided_at; decision = decision; note = note } ∷ [];
  artifact = ArtifactState.resolving_conflict reason decision;
})

abbrev pub conflict_reason : ArtifactState → Result SegmentCloseReason
conflict_reason (ArtifactState.finalizing reason) = ok reason
conflict_reason (ArtifactState.discarding reason) = ok reason
conflict_reason _ = state_error unexpected_artifact

unfoldable pub begin_artifact_conflict_resolution :
    Uuid → ℕ → ArtifactResolutionDecision → Option String → Txn Segment
begin_artifact_conflict_resolution session_id index decision note = write (do
  session ← require_session session_id
  fail_if (not (is_recovery_required session.lifecycle)) must_be_recovery_required
  require_or_claim_recovery_owner session
  segment ← require_segment session_id index
  reason ← lift (conflict_reason segment.artifact)
  decided_at ← now
  segment' ← lift (resolve_with reason decision note decided_at segment)
  put_segment segment'
  pure segment')

abbrev pub keep_resolved : Segment → Result Segment
keep_resolved segment = elim segment.artifact [
  | ArtifactState.resolving_conflict reason decision ↦
      if is_exclude decision
      then state_error decision_is_exclude
      else ok (record segment { artifact = ArtifactState.ready reason })
  | _ ↦ state_error unexpected_artifact
]

unfoldable pub complete_artifact_conflict_resolution : Uuid → ℕ → Txn Segment
unfolding update_recording_artifact
complete_artifact_conflict_resolution session_id index =
    update_recording_artifact session_id index false keep_resolved

abbrev pub exclude_resolved : Segment → Result Segment
exclude_resolved segment = elim segment.artifact [
  | ArtifactState.resolving_conflict reason decision ↦
      if is_exclude decision
      then ok (record segment {
        artifact =
            ArtifactState.excluded "operator excluded a conflicting part/final artifact pair";
        upload = UploadState.not_planned;
      })
      else state_error decision_is_not_exclude
  | _ ↦ state_error unexpected_artifact
]

unfoldable pub exclude_artifact_conflict : Uuid → ℕ → Txn Segment
unfolding update_recording_artifact
exclude_artifact_conflict session_id index =
    update_recording_artifact session_id index false exclude_resolved

abbrev pub mark_deleting : Segment → Result Segment
mark_deleting segment =
    if not (is_ready segment.artifact) || not (is_uploaded segment.upload)
    then state_error must_be_ready_and_uploaded
    else ok (record segment { artifact = ArtifactState.deleting })

unfoldable pub begin_artifact_delete : Uuid → ℕ → Txn Segment
begin_artifact_delete session_id index = write (do
  session ← require_session session_id
  fail_if (not (permits_submission session.lifecycle)) refusing_artifact_deletion
  fail_if (not (is_some_and (upload_plan session.output_plan) (λ plan. plan.delete_after_submit)))
      delete_not_permitted
  found ← get_submission session_id
  submission ← or_fail found refusing_artifact_deletion
  fail_if (not (is_submitted submission.state)) submission_is_not_submitted
  segment ← require_segment session_id index
  segment' ← lift (mark_deleting segment)
  put_segment segment'
  pure segment')

abbrev pub finish_deleting : Segment → Result Segment
finish_deleting segment = elim segment.artifact [
  | ArtifactState.deleting ↦ ok (record segment { artifact = ArtifactState.deleted })
  | _ ↦ state_error unexpected_artifact
]

unfoldable pub complete_artifact_delete : Uuid → ℕ → Txn Segment
unfolding update_artifact
complete_artifact_delete session_id index = update_artifact session_id index finish_deleting
