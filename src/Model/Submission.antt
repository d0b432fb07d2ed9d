-- ===== src/Model/Submission.antt =====
-- src/state/model.rs: the submission aggregate.
use bilive_rec.Prelude.{ℕ, String, Bool, true, false, Option, some, List, leb}
use bilive_rec.Model.{Uuid, Timestamp}
use bilive_rec.Model.Segment.{RemoteAttempt}

pub data SubmissionState : Type 0 where
  retry_scheduled : (failures : ℕ) (retry_at : Timestamp) (last_error : String) → SubmissionState
  attempting : RemoteAttempt → SubmissionState
  blocked : (attempt_id : Option Uuid) (reason : String) → SubmissionState
  ambiguous : RemoteAttempt → (reason : String) → SubmissionState
  retry_authorized : (authorized_at : Timestamp) → SubmissionState
  submitted : (aid : Option ℕ) (bvid : Option String) → SubmissionState

pub data SubmissionAttemptOutcome : Type 0 where
  submitted : (aid : Option ℕ) (bvid : Option String) → SubmissionAttemptOutcome
  retry_scheduled blocked ambiguous : (reason : String) → SubmissionAttemptOutcome

pub record SubmissionAttempt : Type 0 where
  pub attempt : RemoteAttempt
  pub finished_at : Option Timestamp
  pub outcome : Option SubmissionAttemptOutcome

pub data SubmissionResolutionDecision : Type 0 where
  confirmed_not_submitted : SubmissionResolutionDecision
  confirmed_submitted : (aid : Option ℕ) (bvid : Option String) → SubmissionResolutionDecision

pub record SubmissionResolution : Type 0 where
  pub attempt_id : Option Uuid
  pub resolved_at : Timestamp
  pub decision : SubmissionResolutionDecision
  pub note : Option String

pub record Submission : Type 0 where
  pub session_id : Uuid
  pub state : SubmissionState
  pub attempts : List SubmissionAttempt
  pub resolutions : List SubmissionResolution

-- SubmissionState::is_due
unfoldable pub is_due : SubmissionState → Timestamp → Bool
is_due (SubmissionState.retry_scheduled _ retry_at _) now = leb retry_at now
is_due (SubmissionState.retry_authorized _) now = true
is_due _ now = false

unfoldable pub is_submitted : SubmissionState → Bool
is_submitted (SubmissionState.submitted _ _) = true
is_submitted _ = false

unfoldable pub is_retry : Option SubmissionAttemptOutcome → Bool
is_retry (some (SubmissionAttemptOutcome.retry_scheduled _)) = true
is_retry _ = false
