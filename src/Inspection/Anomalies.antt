-- ===== src/Inspection/Anomalies.antt =====
-- src/state/inspection.rs: the anomalies of one row. An anomaly is its kind: the texts, which name
-- the row and advise the operator, are left out.
use bilive_rec.Prelude.{
  ℕ, Bool, true, false, not, ◌&&◌, ◌||◌, ◌==◌, Option, none, some, List, [], ◌∷◌, ◌++◌, is_some_and,
  FilePath, path_eq, if◌then◌else◌,
}
use bilive_rec.Model.{Uuid}
use bilive_rec.Model.Session.{LiveSession, SessionLifecycle, OutputPlan, permits_submission}
use bilive_rec.Model.Segment.{Segment, ArtifactState, UploadState, is_usable}
use bilive_rec.Model.Submission.{Submission, SubmissionState}
use bilive_rec.Model.Room.{RoomState, RoomLifecycle, room_lifecycle_eq}
use bilive_rec.Model.Target.{UploadTargetGate, UploadTargetState}

pub data FilePresence : Type 0 where
  missing regular_file other unreadable : FilePresence

unfoldable pub is_present : FilePresence → Bool
is_present FilePresence.missing = false
is_present FilePresence.regular_file = true
is_present FilePresence.other = true
is_present FilePresence.unreadable = false

pub record SegmentFilePresence : Type 0 where
  pub session_id : Uuid
  pub segment_index : ℕ
  pub part : FilePresence
  pub final_file : FilePresence

-- `look` is FilePresence::inspect, which asks the file system.
abbrev pub inspect : (look : FilePath → FilePresence) → Segment → SegmentFilePresence
inspect look segment = record {
  session_id = segment.session_id;
  segment_index = segment.index;
  part = look segment.part_path;
  final_file = look segment.final_path;
}

pub data AnomalyKind : Type 0 where
  open_session session_recovery_required room_ownership_mismatch : AnomalyKind
  orphan_segment orphan_submission invalid_segment_paths interrupted_segment : AnomalyKind
  finalization_conflict artifact_resolution_pending discard_conflict : AnomalyKind
  deletion_conflict failed_segment missing_segment_file unexpected_segment_file : AnomalyKind
  inaccessible_segment_path invalid_upload_state interrupted_upload ambiguous_upload : AnomalyKind
  blocked_upload invalid_submission_state interrupted_submission : AnomalyKind
  ambiguous_submission blocked_submission upload_target_backoff : AnomalyKind
  upload_target_blocked : AnomalyKind

-- An anomaly that is pushed if a condition holds.
unfoldable pub push_if : Bool → AnomalyKind → List AnomalyKind
push_if true kind = kind ∷ []
push_if false kind = []

abbrev pub row_is : RoomLifecycle → Option RoomState → Bool
unfolding room_lifecycle_eq
row_is wanted room = is_some_and room (λ r. room_lifecycle_eq r.lifecycle wanted)

unfoldable pub inspect_lifecycle : Uuid → SessionLifecycle → Option RoomState → List AnomalyKind
unfolding row_is push_if
inspect_lifecycle id SessionLifecycle.opened room =
    if row_is (RoomLifecycle.owned id) room then open_session ∷ [] else room_ownership_mismatch ∷ []
inspect_lifecycle id (SessionLifecycle.recovery_required reason at) room =
    session_recovery_required
    ∷ push_if (not (row_is (RoomLifecycle.blocked id) room)) room_ownership_mismatch
inspect_lifecycle id (SessionLifecycle.closed c) room = []

unfoldable pub inspect_session : LiveSession → Option RoomState → List AnomalyKind
unfolding inspect_lifecycle
inspect_session session room = inspect_lifecycle session.id session.lifecycle room

-- The pairs of states of a room and of the session that it names.
abbrev pub is_owner_of : RoomLifecycle → SessionLifecycle → Bool
is_owner_of (RoomLifecycle.owned _) SessionLifecycle.opened = true
is_owner_of (RoomLifecycle.blocked _) (SessionLifecycle.recovery_required _ _) = true
is_owner_of _ _ = false

abbrev pub is_valid_owner : ℕ → RoomLifecycle → Option LiveSession → Bool
is_valid_owner room_id lifecycle session =
    is_some_and session (λ s. s.room_id == room_id && is_owner_of lifecycle s.lifecycle)

-- `session_of` looks a session up.
unfoldable pub inspect_room_lifecycle :
    ℕ → RoomLifecycle → (session_of : Uuid → Option LiveSession) → List AnomalyKind
unfolding push_if
inspect_room_lifecycle room_id RoomLifecycle.ready session_of = []
inspect_room_lifecycle room_id (RoomLifecycle.owned id) session_of =
    push_if (not (is_valid_owner room_id (RoomLifecycle.owned id) (session_of id)))
      room_ownership_mismatch
inspect_room_lifecycle room_id (RoomLifecycle.blocked id) session_of =
    push_if (not (is_valid_owner room_id (RoomLifecycle.blocked id) (session_of id)))
      room_ownership_mismatch

unfoldable pub inspect_room :
    ℕ → RoomState → (session_of : Uuid → Option LiveSession) → List AnomalyKind
unfolding inspect_room_lifecycle
inspect_room room_id room session_of = inspect_room_lifecycle room_id room.lifecycle session_of

abbrev pub is_unreadable : FilePresence → Bool
is_unreadable FilePresence.unreadable = true
is_unreadable _ = false

abbrev pub is_missing : FilePresence → Bool
is_missing FilePresence.missing = true
is_missing _ = false

abbrev pub is_other : FilePresence → Bool
is_other FilePresence.other = true
is_other _ = false

abbrev pub is_regular : FilePresence → Bool
is_regular FilePresence.regular_file = true
is_regular _ = false

-- The rename endpoints of a finalization.
unfoldable pub inspect_finalizing : FilePresence → FilePresence → List AnomalyKind
inspect_finalizing FilePresence.regular_file FilePresence.missing = interrupted_segment ∷ []
inspect_finalizing FilePresence.missing FilePresence.regular_file = interrupted_segment ∷ []
inspect_finalizing FilePresence.regular_file FilePresence.regular_file = finalization_conflict ∷ []
inspect_finalizing FilePresence.missing FilePresence.missing = missing_segment_file ∷ []
inspect_finalizing part final_file =
    if is_other part || is_other final_file then finalization_conflict ∷ [] else []

unfoldable pub inspect_discarding : FilePresence → FilePresence → List AnomalyKind
unfolding is_present push_if
inspect_discarding part final_file =
    if is_present final_file
    then discard_conflict ∷ []
    else if is_missing final_file
    then if is_regular part || is_missing part
      then interrupted_segment ∷ []
      else push_if (is_other part) discard_conflict
    else []

-- The matrix of both files against the state of the artifact.
unfoldable pub inspect_artifact : ArtifactState → FilePresence → FilePresence → List AnomalyKind
unfolding is_present push_if inspect_finalizing inspect_discarding
inspect_artifact ArtifactState.writing part final_file =
    interrupted_segment ∷ push_if (is_present final_file) finalization_conflict
inspect_artifact (ArtifactState.finalizing _) part final_file = inspect_finalizing part final_file
inspect_artifact (ArtifactState.resolving_conflict _ _) part final_file =
    artifact_resolution_pending ∷ []
inspect_artifact (ArtifactState.discarding _) part final_file = inspect_discarding part final_file
inspect_artifact (ArtifactState.ready _) part final_file =
    push_if (is_missing final_file || is_other final_file) missing_segment_file
    ++ push_if (is_present part) unexpected_segment_file
inspect_artifact (ArtifactState.filtered _) part final_file =
    push_if (is_present part || is_present final_file) unexpected_segment_file
inspect_artifact (ArtifactState.failed _ _) part final_file = failed_segment ∷ []
inspect_artifact (ArtifactState.excluded _) part final_file = []
inspect_artifact ArtifactState.deleting part final_file =
    interrupted_segment ∷ push_if (is_other final_file) deletion_conflict
    ++ push_if (is_present part) unexpected_segment_file
inspect_artifact ArtifactState.deleted part final_file =
    push_if (is_present part || is_present final_file) unexpected_segment_file

unfoldable pub inspect_segment_files : Segment → SegmentFilePresence → List AnomalyKind
unfolding path_eq push_if inspect_artifact
inspect_segment_files segment files =
    push_if (path_eq segment.part_path segment.final_path) invalid_segment_paths
    ++ push_if (is_unreadable files.part) inaccessible_segment_path
    ++ push_if (is_unreadable files.final_file) inaccessible_segment_path
    ++ inspect_artifact segment.artifact files.part files.final_file

-- `state_is_valid` where uploads are planned.
unfoldable pub is_valid_planned : ArtifactState → UploadState → Bool
unfolding is_usable
is_valid_planned (ArtifactState.discarding _) UploadState.not_planned = true
is_valid_planned (ArtifactState.filtered _) UploadState.not_planned = true
is_valid_planned (ArtifactState.excluded _) UploadState.not_planned = true
is_valid_planned ArtifactState.deleting (UploadState.uploaded _) = true
is_valid_planned ArtifactState.deleted (UploadState.uploaded _) = true
is_valid_planned artifact (UploadState.uploaded _) = is_usable artifact
is_valid_planned _ UploadState.not_planned = false
is_valid_planned ArtifactState.deleting _ = false
is_valid_planned ArtifactState.deleted _ = false
is_valid_planned (ArtifactState.discarding _) _ = false
is_valid_planned (ArtifactState.filtered _) _ = false
is_valid_planned (ArtifactState.excluded _) _ = false
is_valid_planned _ _ = true

abbrev pub is_not_planned : UploadState → Bool
is_not_planned UploadState.not_planned = true
is_not_planned _ = false

unfoldable pub state_is_valid : OutputPlan → ArtifactState → UploadState → Bool
unfolding is_valid_planned
state_is_valid OutputPlan.local_only artifact upload = is_not_planned upload
state_is_valid (OutputPlan.bilibili _ _) artifact upload = is_valid_planned artifact upload

unfoldable pub inspect_upload_state : UploadState → List AnomalyKind
inspect_upload_state (UploadState.attempting _) = interrupted_upload ∷ []
inspect_upload_state (UploadState.ambiguous _ _) = ambiguous_upload ∷ []
inspect_upload_state (UploadState.blocked _ _) = blocked_upload ∷ []
inspect_upload_state _ = []

unfoldable pub inspect_upload : Segment → Option LiveSession → List AnomalyKind
unfolding push_if state_is_valid inspect_upload_state
inspect_upload segment session =
    push_if
      (is_some_and session λ s. not (state_is_valid s.output_plan segment.artifact segment.upload))
      invalid_upload_state
    ++ inspect_upload_state segment.upload

abbrev pub is_bilibili : OutputPlan → Bool
is_bilibili (OutputPlan.bilibili _ _) = true
is_bilibili OutputPlan.local_only = false

unfoldable pub inspect_owner : Option LiveSession → List AnomalyKind
unfolding push_if permits_submission
inspect_owner none = orphan_submission ∷ []
inspect_owner (some session) =
    push_if (not (is_bilibili session.output_plan) || not (permits_submission session.lifecycle))
      invalid_submission_state

unfoldable pub inspect_submission_state : SubmissionState → List AnomalyKind
inspect_submission_state (SubmissionState.attempting _) = interrupted_submission ∷ []
inspect_submission_state (SubmissionState.ambiguous _ _) = ambiguous_submission ∷ []
inspect_submission_state (SubmissionState.blocked _ _) = blocked_submission ∷ []
inspect_submission_state _ = []

unfoldable pub inspect_submission : Submission → Option LiveSession → List AnomalyKind
unfolding inspect_owner inspect_submission_state
inspect_submission submission session =
    inspect_owner session ++ inspect_submission_state submission.state

unfoldable pub inspect_gate : UploadTargetGate → List AnomalyKind
inspect_gate UploadTargetGate.ready = []
inspect_gate (UploadTargetGate.backoff _ _ _ _) = upload_target_backoff ∷ []
inspect_gate (UploadTargetGate.blocked _ _ _) = upload_target_blocked ∷ []

unfoldable pub inspect_upload_target : UploadTargetState → List AnomalyKind
unfolding inspect_gate
inspect_upload_target target = inspect_gate target.gate
