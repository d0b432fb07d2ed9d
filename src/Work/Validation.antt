-- ===== src/Work/Validation.antt =====
-- src/uploader/validation.rs: the local facts that are checked before an upload is claimed.
use bilive_rec.Prelude.{
  ℕ, ◌+◌, Bool, true, false, not, ◌&&◌, ◌||◌, Option, none, some, List, [], ◌∷◌, last, codes, leb,
  ◌==◌, is_some, is_none, is_some_and, FilePath, path_eq, if◌then◌else◌,
}
use bilive_rec.Prelude.Outcome.{Outcome, ok, err}
use bilive_rec.Prelude.Bytes.{bytes_eq}
use bilive_rec.Model.{Uuid, Timestamp}
use bilive_rec.Model.Session.{LiveSession, permits_upload, upload_plan}
use bilive_rec.Model.Segment.{Segment, is_ready, is_pending, is_due}
use bilive_rec.Model.Submission.{Submission}
use bilive_rec.Model.Target.{UploadTargetGate, UploadTargetState}
use bilive_rec.Store.Txn.{Txn, pure, get_session, get_submission, get_segment, ◌>>=◌}

-- The texts, without the values that they print.
pub data UploadRefusal : Type 0 where
  session_not_found does_not_permit_upload upload_not_planned has_submission : UploadRefusal
  segment_not_found not_due path_mismatch not_regular_file not_flv : UploadRefusal

pub record ReadySegmentForUpload : Type 0 where
  pub session_id : Uuid
  pub segment_index : ℕ
  pub path : FilePath

-- What follows the last dot.
abbrev after_last_dot : List ℕ → Option (List ℕ)
after_last_dot [] = none
after_last_dot (c ∷ name) = elim (after_last_dot name) [
  | some extension ↦ some extension
  | none ↦ if c == 0x2e then some name else none
]

-- Path::extension of a name: a dot at its start is no separator.
abbrev extension_of : List ℕ → Option (List ℕ)
extension_of [] = none
extension_of (c ∷ name) = after_last_dot name

abbrev lower : ℕ → ℕ
lower c = if leb 0x41 c && leb c 0x5a then c + 32 else c

abbrev lower_all : List ℕ → List ℕ
lower_all [] = []
lower_all (c ∷ name) = lower c ∷ lower_all name

-- extension().is_some_and(|extension| extension.eq_ignore_ascii_case("flv"))
unfoldable pub has_flv_extension : FilePath → Bool
has_flv_extension path =
    is_some_and (last path.components)
      λ name. is_some_and (extension_of (codes name)) λ e. bytes_eq (lower_all e) (codes "flv")

-- `is_file` asks the file system.
module _ (is_file : FilePath → Bool) where
  unfoldable pub validate_segment :
      Uuid
      → ℕ
      → Option FilePath
      → Timestamp
      → Option Segment
      → Outcome UploadRefusal ReadySegmentForUpload
  unfolding is_ready is_pending is_due path_eq has_flv_extension
  validate_segment session_id index expected_path now none = err segment_not_found
  validate_segment session_id index expected_path now (some segment) =
      if not (is_ready segment.artifact)
        || not (is_pending segment.upload)
        || not (is_due segment.upload now)
      then err not_due
      else if is_some_and expected_path (λ expected. not (path_eq segment.final_path expected))
      then err path_mismatch
      else if not (is_file segment.final_path)
      then err not_regular_file
      else if not (has_flv_extension segment.final_path)
      then err not_flv
      else ok (record { session_id = session_id; segment_index = index; path = segment.final_path })

  unfoldable pub validate_session :
      Uuid
      → ℕ
      → Option FilePath
      → Timestamp
      → Option LiveSession
      → Option Submission
      → Option Segment
      → Outcome UploadRefusal ReadySegmentForUpload
  unfolding permits_upload upload_plan validate_segment
  validate_session session_id index expected_path now none submission segment =
      err session_not_found
  validate_session session_id index expected_path now (some session) submission segment =
      if not (permits_upload session.lifecycle)
      then err does_not_permit_upload
      else if is_none (upload_plan session.output_plan)
      then err upload_not_planned
      else if is_some submission
      then err has_submission
      else validate_segment session_id index expected_path now segment

  -- The store is only read, so that the reads may come first.
  unfoldable pub validate_ready_segment_for_upload :
      Uuid → ℕ → Option FilePath → Timestamp → Txn (Outcome UploadRefusal ReadySegmentForUpload)
  unfolding validate_session ◌>>=◌
  validate_ready_segment_for_upload session_id segment_index expected_path now = do
    session ← get_session session_id
    submission ← get_submission session_id
    segment ← get_segment session_id segment_index
    pure (validate_session session_id segment_index expected_path now session submission segment)

abbrev pub gate_is_ready : UploadTargetGate → Timestamp → Bool
gate_is_ready UploadTargetGate.ready now = true
gate_is_ready (UploadTargetGate.backoff _ _ retry_at _) now = leb retry_at now
gate_is_ready (UploadTargetGate.blocked _ _ _) now = false

unfoldable pub upload_target_is_ready : UploadTargetState → Timestamp → Bool
upload_target_is_ready state now = gate_is_ready state.gate now
