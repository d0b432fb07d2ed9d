-- ===== src/Model/Segment.antt =====
-- src/state/model.rs: the segment aggregate, its artifact and its upload.
use bilive_rec.Prelude.{
  ℕ, String, FilePath, Bool, true, false, Option, none, some, List, leb, is_none_or,
}
use bilive_rec.Model.{Uuid, Timestamp}

pub data SegmentRotationTrigger : Type 0 where
  header_changed : SegmentRotationTrigger
  size_limit : (current_size limit : ℕ) → SegmentRotationTrigger
  time_limit : (elapsed_ms limit_ms : ℕ) → SegmentRotationTrigger

pub data SegmentCloseReason : Type 0 where
  rotation : (triggers : List SegmentRotationTrigger) → SegmentCloseReason
  stream_ended connection_dropped : SegmentCloseReason
  idle_timeout : (seconds : ℕ) → SegmentCloseReason
  graceful_shutdown repeated_media_data : SegmentCloseReason

pub data ArtifactResolutionDecision : Type 0 where
  keep_part keep_final exclude : ArtifactResolutionDecision

pub record ArtifactResolution : Type 0 where
  pub decided_at : Timestamp
  pub decision : ArtifactResolutionDecision
  pub note : Option String

pub data ArtifactState : Type 0 where
  writing : ArtifactState
  finalizing ready discarding : SegmentCloseReason → ArtifactState
  resolving_conflict : SegmentCloseReason → ArtifactResolutionDecision → ArtifactState
  filtered : SegmentCloseReason → ArtifactState
  failed : (reason : String) (close_reason : Option SegmentCloseReason) → ArtifactState
  excluded : (reason : String) → ArtifactState
  deleting deleted : ArtifactState

pub record RemoteAttempt : Type 0 where
  pub id : Uuid
  pub started_at : Timestamp

pub record UploadedPart : Type 0 where
  pub bili_filename : String
  pub part_title : String

pub data UploadState : Type 0 where
  not_planned : UploadState
  pending : (failures : ℕ) (retry_at : Option Timestamp) (last_error : Option String) → UploadState
  attempting : RemoteAttempt → UploadState
  blocked : (attempt_id : Option Uuid) (reason : String) → UploadState
  ambiguous : RemoteAttempt → (reason : String) → UploadState
  uploaded : (proof : UploadedPart) → UploadState
  cancelled : (cancelled_at : Timestamp) (reason : String) → UploadState

pub data UploadAttemptOutcome : Type 0 where
  confirmed : (proof : UploadedPart) → UploadAttemptOutcome
  retry_scheduled blocked ambiguous : (reason : String) → UploadAttemptOutcome

pub record UploadAttempt : Type 0 where
  pub attempt : RemoteAttempt
  pub finished_at : Option Timestamp
  pub outcome : Option UploadAttemptOutcome

pub data UploadResolutionDecision : Type 0 where
  confirmed_not_uploaded : UploadResolutionDecision
  confirmed_uploaded : (proof : UploadedPart) → UploadResolutionDecision

pub record UploadResolution : Type 0 where
  pub attempt_id : Option Uuid
  pub resolved_at : Timestamp
  pub decision : UploadResolutionDecision
  pub note : Option String

pub record Segment : Type 0 where
  pub session_id : Uuid
  pub index : ℕ
  pub part_path : FilePath
  pub final_path : FilePath
  pub artifact : ArtifactState
  pub artifact_resolutions : List ArtifactResolution
  pub upload : UploadState
  pub upload_attempts : List UploadAttempt
  pub upload_resolutions : List UploadResolution

unfoldable pub local_path : Segment → FilePath
local_path segment = elim segment.artifact [
  | ArtifactState.ready _ ↦ segment.final_path
  | ArtifactState.filtered _ ↦ segment.final_path
  | ArtifactState.deleting ↦ segment.final_path
  | ArtifactState.deleted ↦ segment.final_path
  | _ ↦ segment.part_path
]

-- ArtifactState::close_reason
unfoldable pub close_reason : ArtifactState → Option SegmentCloseReason
close_reason (ArtifactState.finalizing r) = some r
close_reason (ArtifactState.ready r) = some r
close_reason (ArtifactState.discarding r) = some r
close_reason (ArtifactState.filtered r) = some r
close_reason (ArtifactState.resolving_conflict r _) = some r
close_reason (ArtifactState.failed _ r) = r
close_reason _ = none

-- ArtifactState::is_usable
unfoldable pub is_usable : ArtifactState → Bool
is_usable (ArtifactState.ready _) = true
is_usable ArtifactState.deleting = true
is_usable ArtifactState.deleted = true
is_usable _ = false

-- UploadState::pending
unfoldable pub pending_upload : UploadState
pending_upload = UploadState.pending 0 none none

-- UploadState::is_due
unfoldable pub is_due : UploadState → Timestamp → Bool
is_due (UploadState.pending _ retry_at _) now = is_none_or retry_at (λ at. leb at now)
is_due _ now = false

-- Segment::uploaded_part
unfoldable pub uploaded_part : UploadState → Option UploadedPart
uploaded_part (UploadState.uploaded proof) = some proof
uploaded_part _ = none

-- The `matches!` tests that the transitions make.
unfoldable pub is_writing : ArtifactState → Bool
is_writing ArtifactState.writing = true
is_writing _ = false

unfoldable pub is_ready : ArtifactState → Bool
is_ready (ArtifactState.ready _) = true
is_ready _ = false

unfoldable pub is_failed : ArtifactState → Bool
is_failed (ArtifactState.failed _ _) = true
is_failed _ = false

-- Writing, Finalizing, Discarding or ResolvingConflict
unfoldable pub can_fail : ArtifactState → Bool
can_fail ArtifactState.writing = true
can_fail (ArtifactState.finalizing _) = true
can_fail (ArtifactState.discarding _) = true
can_fail (ArtifactState.resolving_conflict _ _) = true
can_fail _ = false

-- Those, or Deleting: a file operation was announced and has not been settled.
unfoldable pub has_open_intent : ArtifactState → Bool
unfolding can_fail
has_open_intent ArtifactState.deleting = true
has_open_intent artifact = can_fail artifact

unfoldable pub is_pending : UploadState → Bool
is_pending (UploadState.pending _ _ _) = true
is_pending _ = false

unfoldable pub is_uploaded : UploadState → Bool
is_uploaded (UploadState.uploaded _) = true
is_uploaded _ = false

unfoldable pub is_retry : Option UploadAttemptOutcome → Bool
is_retry (some (UploadAttemptOutcome.retry_scheduled _)) = true
is_retry _ = false

unfoldable pub is_exclude : ArtifactResolutionDecision → Bool
is_exclude ArtifactResolutionDecision.exclude = true
is_exclude _ = false
