-- ===== src/Segments/Step.antt =====
-- The steps that a stored segment can take, one for each way in which src/state/transitions.rs
-- rewrites a segment, and the changes of the table of segments that are made of such steps.
use bilive_rec.Prelude.{String, ◌≡◌, true, false, Option, none, some, []}
use bilive_rec.Errors.{ok}
use bilive_rec.Model.{Uuid, Timestamp}
use bilive_rec.Model.Session.{SessionLifecycle, OutputPlan}
use bilive_rec.Model.Segment.{
  Segment, ArtifactState, SegmentCloseReason, ArtifactResolutionDecision, RemoteAttempt,
  UploadedPart, UploadState, UploadResolutionDecision, can_fail, has_open_intent,
}
use bilive_rec.Store.Table.{Table, get, put}
use bilive_rec.Store.Keys.{SegmentKey, segment_key}
use bilive_rec.Transitions.Artifacts.{
  begin_finalizing, finish_finalizing, begin_discarding, finish_discarding, conflict_reason,
  resolve_with as resolve_artifact, keep_resolved, exclude_resolved, mark_deleting, finish_deleting,
  planned_upload,
}
use bilive_rec.Transitions.Close.{exclusion}
use bilive_rec.Transitions.History.{current_upload_attempt, recoverable_upload_attempt_id}
use bilive_rec.Transitions.UploadSteps.{
  claim_upload, confirm_upload, retry_upload, block_with, make_ambiguous, upload_after_denial,
  resolve_with, abandon_upload,
}

-- Steps of the artifact: recording, the operator's decision on a conflict, clean-up, failure.
pub data ArtifactStep (s s' : Segment) : Type 0 where
  finalize : (reason : SegmentCloseReason) → begin_finalizing reason s ≡ ok s' → ArtifactStep s s'
  finalized : finish_finalizing s ≡ ok s' → ArtifactStep s s'
  discard : (reason : SegmentCloseReason) → begin_discarding reason s ≡ ok s' → ArtifactStep s s'
  discarded : finish_discarding s ≡ ok s' → ArtifactStep s s'
  resolve :
      (reason : SegmentCloseReason) (decision : ArtifactResolutionDecision) (note : Option String)
      (decided_at : Timestamp)
      → conflict_reason s.artifact ≡ ok reason
      → resolve_artifact reason decision note decided_at s ≡ ok s'
      → ArtifactStep s s'
  kept : keep_resolved s ≡ ok s' → ArtifactStep s s'
  excluded : exclude_resolved s ≡ ok s' → ArtifactStep s s'
  delete : mark_deleting s ≡ ok s' → ArtifactStep s s'
  deleted : finish_deleting s ≡ ok s' → ArtifactStep s s'
  fail :
      (reason : String) (close_reason : Option SegmentCloseReason)
      → can_fail s.artifact ≡ true
      → s' ≡ record s { artifact = ArtifactState.failed reason close_reason }
      → ArtifactStep s s'
  exclude_failed : exclusion s ≡ some s' → ArtifactStep s s'

-- Steps of the upload that the worker takes by itself.
pub data WorkerStep (s s' : Segment) : Type 0 where
  claim : (attempt : RemoteAttempt) → claim_upload attempt s ≡ ok s' → WorkerStep s s'
  confirm :
      (id : Uuid) (proof : UploadedPart) (now : Timestamp) {attempt : RemoteAttempt}
      → current_upload_attempt s.upload id ≡ ok attempt
      → confirm_upload id proof s now ≡ ok s'
      → WorkerStep s s'
  retry :
      (id : Uuid) (reason : String) (retry_at now : Timestamp) {attempt : RemoteAttempt}
      → current_upload_attempt s.upload id ≡ ok attempt
      → retry_upload id reason retry_at s now ≡ ok s'
      → WorkerStep s s'
  block :
      (id : Uuid) (reason : String) (now : Timestamp) {attempt : RemoteAttempt}
      → current_upload_attempt s.upload id ≡ ok attempt
      → block_with id reason s now ≡ ok s'
      → WorkerStep s s'
  ambiguous :
      (id : Uuid) (reason : String) (now : Timestamp) {attempt : RemoteAttempt}
      → current_upload_attempt s.upload id ≡ ok attempt
      → make_ambiguous id reason s now ≡ ok s'
      → WorkerStep s s'

-- Steps of the upload that an operator takes.
pub data OperatorStep (s s' : Segment) : Type 0 where
  deny :
      (lifecycle : SessionLifecycle) (note : Option String) (id : Option Uuid) (now : Timestamp)
      → recoverable_upload_attempt_id s.upload ≡ ok id
      → resolve_with UploadResolutionDecision.confirmed_not_uploaded note
          (upload_after_denial lifecycle now)
          id
          s
          now
        ≡ ok s'
      → OperatorStep s s'
  affirm :
      (proof : UploadedPart) (note : Option String) (id : Option Uuid) (now : Timestamp)
      → recoverable_upload_attempt_id s.upload ≡ ok id
      → resolve_with
          (UploadResolutionDecision.confirmed_uploaded proof)
          note
          (UploadState.uploaded proof)
          id
          s
          now
        ≡ ok s'
      → OperatorStep s s'
  abandon :
      (now : Timestamp)
      → has_open_intent s.artifact ≡ false
      → abandon_upload s now ≡ ok s'
      → OperatorStep s s'

-- On whose account a change is made: the program alone, or an operator's decision too.
pub data Actor : Type 0 where
  program human : Actor

pub data SegmentStep (a : Actor) (s s' : Segment) : Type 0 where
  artifact : ArtifactStep s s' → SegmentStep a s s'
  worker : WorkerStep s s' → SegmentStep a s s'
  operator : a ≡ Actor.human → OperatorStep s s' → SegmentStep a s s'

-- A segment as `open_segment` stores it.
pub record IsNew (s : Segment) : Type 0 where
  pub is_writing : s.artifact ≡ ArtifactState.writing
  pub plan : OutputPlan
  pub upload : s.upload ≡ planned_upload plan
  pub no_attempts : s.upload_attempts ≡ []

abbrev pub Segments : Type 0
Segments = Table SegmentKey Segment

abbrev pub key_of : Segment → SegmentKey
key_of s = (s.session_id, s.index)

-- A table becomes another by steps of stored segments and by new segments.
pub data Evolves (a : Actor) (m : Segments) : Segments → Type 0 where
  here : Evolves a m m
  step :
      {n : Segments} (k : SegmentKey) {s s' : Segment}
      → Evolves a m n
      → get n k ≡ some s
      → SegmentStep a s s'
      → Evolves a m (put (key_of s') s' n)
  opened :
      {n : Segments} {s : Segment}
      → Evolves a m n
      → get n (key_of s) ≡ none
      → IsNew s
      → Evolves a m (put (key_of s) s n)
