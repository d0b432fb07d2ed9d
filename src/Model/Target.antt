-- ===== src/Model/Target.antt =====
-- src/state/model.rs: upload plans, upload targets, their gates, and the remote operations that own
-- a gate.
use bilive_rec.Prelude.{ℕ, String, Bool, false, ◌&&◌, ◌==◌}
use bilive_rec.Model.{Uuid, Timestamp, UploadPrincipal}

pub data SubmitApi : Type 0 where
  app web b_cut_android : SubmitApi

pub record UploadPlan : Type 0 where
  pub principal : UploadPrincipal
  pub line : String
  pub threads : ℕ
  pub submit_api : SubmitApi
  pub delete_after_submit : Bool

pub record UploadTarget : Type 0 where
  pub principal : UploadPrincipal
  pub line : String
  pub threads : ℕ
  pub submit_api : SubmitApi

-- UploadTarget::from
unfoldable pub target_of : UploadPlan → UploadTarget
target_of plan = record {
  principal = plan.principal;
  line = plan.line;
  threads = plan.threads;
  submit_api = plan.submit_api;
}

pub data RemoteOperationRef : Type 0 where
  upload : (session_id : Uuid) (segment_index : ℕ) (attempt_id : Uuid) → RemoteOperationRef
  submission : (session_id attempt_id : Uuid) → RemoteOperationRef

-- RemoteOperationRef::session_id
unfoldable pub operation_session_id : RemoteOperationRef → Uuid
operation_session_id (RemoteOperationRef.upload session_id _ _) = session_id
operation_session_id (RemoteOperationRef.submission session_id _) = session_id

-- The derived `PartialEq`.
unfoldable pub operation_eq : RemoteOperationRef → RemoteOperationRef → Bool
operation_eq (RemoteOperationRef.upload s i a) (RemoteOperationRef.upload t j b) =
    s == t && i == j && a == b
operation_eq (RemoteOperationRef.submission s a) (RemoteOperationRef.submission t b) =
    s == t && a == b
operation_eq _ _ = false

pub data UploadTargetGate : Type 0 where
  ready : UploadTargetGate
  backoff :
      (owner : RemoteOperationRef) (failures : ℕ) (retry_at : Timestamp) (last_error : String)
      → UploadTargetGate
  blocked : (owner : RemoteOperationRef) (since : Timestamp) (reason : String) → UploadTargetGate

pub record UploadTargetState : Type 0 where
  pub target : UploadTarget
  pub gate : UploadTargetGate
