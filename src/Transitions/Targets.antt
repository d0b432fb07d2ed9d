-- ===== src/Transitions/Targets.antt =====
-- src/state/transitions.rs: the gate of an upload target, and how an attempt's result moves it.
use bilive_rec.Prelude.{ℕ, String, Bool, false, Option, none, some, leb, if◌then◌else◌}
use bilive_rec.Errors.{is_local_only, no_target_gate, target_in_backoff, target_is_blocked}
use bilive_rec.Model.{Uuid, Timestamp}
use bilive_rec.Model.Session.{upload_plan}
use bilive_rec.Model.Target.{
  RemoteOperationRef, UploadTarget, UploadTargetGate, UploadTargetState, target_of, operation_eq,
}
use bilive_rec.Store.Txn.{
  Txn, pure, raise, or_fail, get_upload_target_state, put_upload_target_state, ◌>>=◌,
}
use bilive_rec.Transitions.Guards.{require_session}

pub data AttemptTargetGate : Type 0 where
  unchanged : AttemptTargetGate
  backoff :
      (owner : RemoteOperationRef) (failures : ℕ) (retry_at : Timestamp) (last_error : String)
      → AttemptTargetGate
  blocked : (owner : RemoteOperationRef) (reason : String) → AttemptTargetGate

unfoldable pub session_upload_target : Uuid → Txn UploadTarget
session_upload_target session_id = do
  session ← require_session session_id
  plan ← or_fail (upload_plan session.output_plan) is_local_only
  pure (target_of plan)

abbrev pub put_target_gate : UploadTarget → UploadTargetGate → Txn (Unit {0})
put_target_gate target gate = put_upload_target_state (record { target = target; gate = gate })

unfoldable pub put_attempt_target_gate :
    UploadTarget → AttemptTargetGate → Timestamp → Txn (Unit {0})
put_attempt_target_gate target AttemptTargetGate.unchanged now = pure tt
put_attempt_target_gate target (AttemptTargetGate.backoff owner failures retry_at last_error) now =
    put_target_gate target (UploadTargetGate.backoff owner failures retry_at last_error)
put_attempt_target_gate target (AttemptTargetGate.blocked owner reason) now =
    put_target_gate target (UploadTargetGate.blocked owner now reason)

abbrev pub consume_gate : UploadTarget → Timestamp → UploadTargetGate → Txn (Unit {0})
consume_gate target now UploadTargetGate.ready = pure tt
consume_gate target now (UploadTargetGate.backoff _ _ retry_at _) =
    if leb retry_at now
    then put_target_gate target UploadTargetGate.ready
    else raise target_in_backoff
consume_gate target now (UploadTargetGate.blocked _ _ _) = raise target_is_blocked

unfoldable pub consume_target_ready : UploadTarget → Timestamp → Txn (Unit {0})
consume_target_ready target now = do
  found ← get_upload_target_state target
  state ← or_fail found no_target_gate
  consume_gate target now state.gate

abbrev pub gate_has_owner : UploadTargetGate → RemoteOperationRef → Bool
gate_has_owner UploadTargetGate.ready expected = false
gate_has_owner (UploadTargetGate.backoff owner _ _ _) expected = operation_eq owner expected
gate_has_owner (UploadTargetGate.blocked owner _ _) expected = operation_eq owner expected

abbrev pub clear_gate_of :
    UploadTarget → RemoteOperationRef → Option UploadTargetState → Txn (Unit {0})
clear_gate_of target expected none = pure tt
clear_gate_of target expected (some state) =
    if gate_has_owner state.gate expected
    then put_target_gate target UploadTargetGate.ready
    else pure tt

unfoldable pub clear_target_gate_if_owner :
    UploadTarget → Option RemoteOperationRef → Txn (Unit {0})
clear_target_gate_if_owner target none = pure tt
clear_target_gate_if_owner target (some expected) = do
  found ← get_upload_target_state target
  clear_gate_of target expected found

abbrev pub upload_operation_ref : Uuid → ℕ → Option Uuid → Option RemoteOperationRef
upload_operation_ref session_id segment_index none = none
upload_operation_ref session_id segment_index (some attempt_id) =
    some (RemoteOperationRef.upload session_id segment_index attempt_id)

abbrev pub submission_operation_ref : Uuid → Option Uuid → Option RemoteOperationRef
submission_operation_ref session_id none = none
submission_operation_ref session_id (some attempt_id) =
    some (RemoteOperationRef.submission session_id attempt_id)
