-- ===== src/Segments/Refines.antt =====
-- Every transition of src/state/transitions.rs that rewrites one segment evolves the table of
-- segments by a step of that segment, and no other entry changes.
use bilive_rec.Prelude.{ℕ, String, ◌≡◌, Bool, true, false, Option}
use bilive_rec.Errors.{Result, ok}
use bilive_rec.Model.{Uuid, Timestamp}
use bilive_rec.Model.Session.{LiveSession}
use bilive_rec.Model.Segment.{
  Segment, SegmentCloseReason, ArtifactResolutionDecision, RemoteAttempt, UploadedPart,
  UploadResolutionDecision, UploadState,
}
use bilive_rec.Store.Effects.{Effect-bind}
use bilive_rec.Transitions.Targets.{AttemptTargetGate}
use bilive_rec.Transitions.History.{current_upload_attempt, recoverable_upload_attempt_id}
use bilive_rec.Transitions.UploadSteps.{resolve_with}
use bilive_rec.Transitions.Artifacts.{
  update_artifact, update_recording_artifact, begin_artifact_finalization,
  complete_artifact_finalization, begin_artifact_discard, complete_artifact_discard,
  begin_artifact_conflict_resolution, complete_artifact_conflict_resolution,
  exclude_artifact_conflict, begin_artifact_delete, complete_artifact_delete,
}
use bilive_rec.Transitions.Uploads.{
  begin_upload, complete_upload, finish_upload_attempt, schedule_upload_retry,
  schedule_upload_target_retry, block_upload, block_upload_for_target, mark_upload_ambiguous,
  resolve_upload_as, resolve_upload_not_uploaded, resolve_upload_uploaded,
}
use bilive_rec.Segments.Step.{
  Segments, Actor, SegmentStep, artifact, worker, operator, finalize, finalized, discard, discarded,
  resolve, kept, excluded, delete, deleted, claim, confirm, retry, block, ambiguous, deny, affirm,
}
use bilive_rec.Segments.Rules.{Evolving, evolving_rules}

module _ {a : Actor} {x : Segments} (session_id : Uuid) (index : ℕ) where
  pub Evolving-update_artifact :
      (update : Segment → Result Segment)
      → ((s s' : Segment) → update s ≡ ok s' → SegmentStep a s s')
      → Evolving a x (update_artifact session_id index update)
  unfolding update_artifact
  Evolving-update_artifact update h = search (evolving_rules, h) depth 9

  pub Evolving-update_recording_artifact :
      (require_open : Bool) (update : Segment → Result Segment)
      → ((s s' : Segment) → update s ≡ ok s' → SegmentStep a s s')
      → Evolving a x (update_recording_artifact session_id index require_open update)
  unfolding update_recording_artifact
  Evolving-update_recording_artifact require_open update h = search (evolving_rules, h) depth 9

  pub Evolving-begin_artifact_finalization :
      (reason : SegmentCloseReason)
      → Evolving a x (begin_artifact_finalization session_id index reason)
  unfolding begin_artifact_finalization
  Evolving-begin_artifact_finalization reason =
      Evolving-update_recording_artifact true _ λ s s' e. artifact (finalize reason e)

  pub Evolving-complete_artifact_finalization :
      Evolving a x (complete_artifact_finalization session_id index)
  unfolding complete_artifact_finalization
  Evolving-complete_artifact_finalization =
      Evolving-update_recording_artifact false _ λ s s' e. artifact (finalized e)

  pub Evolving-begin_artifact_discard :
      (reason : SegmentCloseReason) → Evolving a x (begin_artifact_discard session_id index reason)
  unfolding begin_artifact_discard
  Evolving-begin_artifact_discard reason =
      Evolving-update_recording_artifact true _ λ s s' e. artifact (discard reason e)

  pub Evolving-complete_artifact_discard : Evolving a x (complete_artifact_discard session_id index)
  unfolding complete_artifact_discard
  Evolving-complete_artifact_discard =
      Evolving-update_recording_artifact false _ λ s s' e. artifact (discarded e)

  pub Evolving-complete_artifact_conflict_resolution :
      Evolving a x (complete_artifact_conflict_resolution session_id index)
  unfolding complete_artifact_conflict_resolution
  Evolving-complete_artifact_conflict_resolution =
      Evolving-update_recording_artifact false _ λ s s' e. artifact (kept e)

  pub Evolving-exclude_artifact_conflict : Evolving a x (exclude_artifact_conflict session_id index)
  unfolding exclude_artifact_conflict
  Evolving-exclude_artifact_conflict =
      Evolving-update_recording_artifact false _ λ s s' e. artifact (excluded e)

  pub Evolving-complete_artifact_delete : Evolving a x (complete_artifact_delete session_id index)
  unfolding complete_artifact_delete
  Evolving-complete_artifact_delete = Evolving-update_artifact _ λ s s' e. artifact (deleted e)

  pub Evolving-begin_artifact_conflict_resolution :
      (decision : ArtifactResolutionDecision) (remark : Option String)
      → Evolving a x (begin_artifact_conflict_resolution session_id index decision remark)
  unfolding begin_artifact_conflict_resolution
  Evolving-begin_artifact_conflict_resolution decision remark =
      search (evolving_rules, artifact, resolve) depth 12

  pub Evolving-begin_artifact_delete : Evolving a x (begin_artifact_delete session_id index)
  unfolding begin_artifact_delete
  Evolving-begin_artifact_delete = search (evolving_rules, artifact, delete) depth 14

  pub Evolving-begin_upload :
      (attempt : RemoteAttempt) → Evolving a x (begin_upload session_id index attempt)
  unfolding begin_upload
  Evolving-begin_upload attempt = search (evolving_rules, worker, claim) depth 14

  pub Evolving-complete_upload :
      (id : Uuid) (proof : UploadedPart) → Evolving a x (complete_upload session_id index id proof)
  unfolding complete_upload
  Evolving-complete_upload id proof = search (evolving_rules, worker, confirm) depth 14

  pub Evolving-finish_upload_attempt :
      (id : Uuid) (gate : AttemptTargetGate) (update : Segment → Timestamp → Result Segment)
      → ((s s' : Segment) (now : Timestamp) (attempt : RemoteAttempt)
          → current_upload_attempt s.upload id ≡ ok attempt
          → update s now ≡ ok s'
          → SegmentStep a s s')
      → Evolving a x (finish_upload_attempt session_id index id gate update)
  unfolding finish_upload_attempt
  Evolving-finish_upload_attempt id gate update h = search (evolving_rules, h) depth 14

  pub Evolving-schedule_upload_retry :
      (id : Uuid) (reason : String) (retry_at : Timestamp)
      → Evolving a x (schedule_upload_retry session_id index id reason retry_at)
  unfolding schedule_upload_retry
  Evolving-schedule_upload_retry id reason retry_at =
      Evolving-finish_upload_attempt id _ _
        λ s s' now attempt c e. worker (retry id reason retry_at now c e)

  pub Evolving-schedule_upload_target_retry :
      (id : Uuid) (reason : String) (retry_at : Timestamp) (failures : ℕ)
      → Evolving a x (schedule_upload_target_retry session_id index id reason retry_at failures)
  unfolding schedule_upload_target_retry
  Evolving-schedule_upload_target_retry id reason retry_at failures =
      Effect-bind _ _ (search evolving_rules) λ _.
        Evolving-finish_upload_attempt id _ _
          λ s s' now attempt c e. worker (retry id reason retry_at now c e)

  pub Evolving-block_upload :
      (id : Uuid) (reason : String) → Evolving a x (block_upload session_id index id reason)
  unfolding block_upload
  Evolving-block_upload id reason =
      Evolving-finish_upload_attempt id _ _ λ s s' now attempt c e. worker (block id reason now c e)

  pub Evolving-block_upload_for_target :
      (id : Uuid) (reason : String)
      → Evolving a x (block_upload_for_target session_id index id reason)
  unfolding block_upload_for_target
  Evolving-block_upload_for_target id reason =
      Evolving-finish_upload_attempt id _ _ λ s s' now attempt c e. worker (block id reason now c e)

  pub Evolving-mark_upload_ambiguous :
      (id : Uuid) (reason : String)
      → Evolving a x (mark_upload_ambiguous session_id index id reason)
  unfolding mark_upload_ambiguous
  Evolving-mark_upload_ambiguous id reason =
      Evolving-finish_upload_attempt id _ _
        λ s s' now attempt c e. worker (ambiguous id reason now c e)

  pub Evolving-resolve_upload_as :
      (decision : UploadResolutionDecision) (remark : Option String)
      (upload : LiveSession → Timestamp → UploadState)
      → ((session : LiveSession) (s s' : Segment) (now : Timestamp) (id : Option Uuid)
          → recoverable_upload_attempt_id s.upload ≡ ok id
          → resolve_with decision remark (upload session now) id s now ≡ ok s'
          → SegmentStep a s s')
      → Evolving a x (resolve_upload_as session_id index decision remark upload)
  unfolding resolve_upload_as
  Evolving-resolve_upload_as decision remark upload h = search (evolving_rules, h) depth 16

  pub Evolving-resolve_upload_not_uploaded :
      a ≡ Actor.human
      → (remark : Option String)
      → Evolving a x (resolve_upload_not_uploaded session_id index remark)
  unfolding resolve_upload_not_uploaded
  Evolving-resolve_upload_not_uploaded by remark =
      Evolving-resolve_upload_as _ _ _
        λ session s s' now id c e. operator by (deny session.lifecycle remark id now c e)

  pub Evolving-resolve_upload_uploaded :
      a ≡ Actor.human
      → (proof : UploadedPart) (remark : Option String)
      → Evolving a x (resolve_upload_uploaded session_id index proof remark)
  unfolding resolve_upload_uploaded
  Evolving-resolve_upload_uploaded by proof remark = Effect-bind _ _ (search evolving_rules) λ _.
      Evolving-resolve_upload_as _ _ _
        λ session s s' now id c e. operator by (affirm proof remark id now c e)
