-- ===== src/Model/Session.antt =====
-- src/state/model.rs: the session aggregate with its frozen plans.
use bilive_rec.Prelude.{ℕ, String, FilePath, Bool, true, false, Option, none, some, List}
use bilive_rec.Model.{Uuid, Timestamp, CredentialRef}
use bilive_rec.Model.Target.{UploadPlan}

pub data SessionClosure : Type 0 where
  completed : (closed_at : Timestamp) (note : Option String) → SessionClosure
  no_usable_recording : (closed_at : Timestamp) (reason : String) → SessionClosure
  abandoned : (closed_at : Timestamp) (note : Option String) → SessionClosure

pub data SessionLifecycle : Type 0 where
  opened : SessionLifecycle
  recovery_required : (reason : String) (detected_at : Timestamp) → SessionLifecycle
  closed : SessionClosure → SessionLifecycle

pub data RecordingDecision : Type 0 where
  finalized abandoned : RecordingDecision

pub data RecordingEvent : Type 0 where
  recovery_required : (detected_at : Timestamp) (reason : String) → RecordingEvent
  operator_resolved :
      (resolved_at : Timestamp) (decision : RecordingDecision) (note : Option String)
      → RecordingEvent

pub record RecordingPlan : Type 0 where
  pub credential : Option CredentialRef
  pub output_dir : FilePath
  pub segment_time_ms : Option ℕ
  pub segment_size : Option ℕ
  pub min_segment_size : ℕ
  pub qn : ℕ
  pub cdn : List String

pub data Copyright : Type 0 where
  original reprint : Copyright

pub record SubmissionSpec : Type 0 where
  pub title : String
  pub description : String
  pub category_id : ℕ
  pub copyright : Copyright
  pub source : String
  pub tags : List String
  pub is_private : Bool
  pub dynamic : String
  pub forbid_reprint : Bool
  pub charging_panel : Bool
  pub close_reply : Bool
  pub close_danmu : Bool
  pub featured_reply : Bool

pub data OutputPlan : Type 0 where
  local_only : OutputPlan
  bilibili : (upload : UploadPlan) (submission : SubmissionSpec) → OutputPlan

pub record LiveSession : Type 0 where
  pub id : Uuid
  pub room_id : ℕ
  pub room_name : String
  pub title : String
  pub started_at : Timestamp
  pub lifecycle : SessionLifecycle
  pub recording_plan : RecordingPlan
  pub output_plan : OutputPlan
  pub recording_events : List RecordingEvent

-- SessionLifecycle::is_open, and the `matches!` on the other two variants.
unfoldable pub is_open : SessionLifecycle → Bool
is_open SessionLifecycle.opened = true
is_open _ = false

unfoldable pub is_recovery_required : SessionLifecycle → Bool
is_recovery_required (SessionLifecycle.recovery_required _ _) = true
is_recovery_required _ = false

unfoldable pub is_closed : SessionLifecycle → Bool
is_closed (SessionLifecycle.closed _) = true
is_closed _ = false

unfoldable pub permits_upload : SessionLifecycle → Bool
permits_upload SessionLifecycle.opened = true
permits_upload (SessionLifecycle.closed (SessionClosure.completed _ _)) = true
permits_upload _ = false

unfoldable pub permits_submission : SessionLifecycle → Bool
permits_submission (SessionLifecycle.closed (SessionClosure.completed _ _)) = true
permits_submission _ = false

unfoldable pub upload_plan : OutputPlan → Option UploadPlan
upload_plan OutputPlan.local_only = none
upload_plan (OutputPlan.bilibili upload _) = some upload

unfoldable pub submission_spec : OutputPlan → Option SubmissionSpec
submission_spec OutputPlan.local_only = none
submission_spec (OutputPlan.bilibili _ submission) = some submission
