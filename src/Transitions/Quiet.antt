-- ===== src/Transitions/Quiet.antt =====
-- Which parts of the tables the shared steps of src/state/transitions.rs leave alone.
use bilive_rec.Prelude.{ℕ, String, ◌≡◌, Bool, true, false, Option, none, some}
use bilive_rec.Model.{Uuid, Timestamp}
use bilive_rec.Model.Session.{LiveSession}
use bilive_rec.Model.Room.{RoomLifecycle, RoomState}
use bilive_rec.Model.Target.{UploadTarget, UploadTargetGate, UploadTargetState, RemoteOperationRef}
use bilive_rec.Store.Table.{Table}
use bilive_rec.Store.Txn.{Tables, put_upload_target_state}
use bilive_rec.Store.Effects.{Quiet, Quiet-modify, Quiet-bind, Quiet-pure, quiet_rules}
use bilive_rec.Transitions.Guards.{
  require_session, require_segment, require_submission, require_room_owner,
  require_open_owned_session, require_or_claim_recovery_owner, put_room, put_room_unless,
}
use bilive_rec.Transitions.Targets.{
  AttemptTargetGate, session_upload_target, put_attempt_target_gate, consume_target_ready,
  consume_gate, clear_gate_of, clear_target_gate_if_owner,
}
use bilive_rec.Transitions.Artifacts.{require_recordable}
use bilive_rec.Transitions.Submissions.{require_submission_parts}

-- What only reads leaves everything alone.
module _ {X : Type 0} {π : Tables → X} where
  pub Quiet-require_session : (id : Uuid) → Quiet π (require_session id)
  unfolding require_session
  Quiet-require_session id = search quiet_rules

  pub Quiet-require_segment : (id : Uuid) (index : ℕ) → Quiet π (require_segment id index)
  unfolding require_segment
  Quiet-require_segment id index = search quiet_rules

  pub Quiet-require_submission : (id : Uuid) → Quiet π (require_submission id)
  unfolding require_submission
  Quiet-require_submission id = search quiet_rules

  pub Quiet-require_room_owner : (s : LiveSession) → Quiet π (require_room_owner s)
  unfolding require_room_owner
  Quiet-require_room_owner s = search quiet_rules

  pub Quiet-require_open_owned_session : (s : LiveSession) → Quiet π (require_open_owned_session s)
  unfolding require_open_owned_session
  Quiet-require_open_owned_session s = search quiet_rules depth 8

  pub Quiet-session_upload_target : (id : Uuid) → Quiet π (session_upload_target id)
  unfolding session_upload_target
  Quiet-session_upload_target id = search (quiet_rules, Quiet-require_session)

  pub Quiet-require_submission_parts : (id : Uuid) → Quiet π (require_submission_parts id)
  unfolding require_submission_parts
  Quiet-require_submission_parts id = search quiet_rules

pub ruleset read_rules = (
  quiet_rules, Quiet-require_session, Quiet-require_segment, Quiet-require_submission,
  Quiet-require_room_owner, Quiet-require_open_owned_session, Quiet-session_upload_target,
  Quiet-require_submission_parts,
)

-- What writes rooms leaves alone what does not see them.
module _ {X : Type 0} {π : Tables → X}
    (blind : (t : Tables) (rooms : Table ℕ RoomState)
      → π (record t { room_states = rooms }) ≡ π t) where
  pub Quiet-put_room :
      (room_id : ℕ) (lifecycle : RoomLifecycle) (message : Option String)
      → Quiet π (put_room room_id lifecycle message)
  unfolding put_room
  Quiet-put_room room_id lifecycle message =
      Quiet-bind _ _ (search quiet_rules) λ changed_at. Quiet-modify _ (λ t. blind t _)

  pub Quiet-put_room_unless :
      (b : Bool) (room_id : ℕ) (lifecycle : RoomLifecycle) (message : Option String)
      → Quiet π (put_room_unless b room_id lifecycle message)
  Quiet-put_room_unless true room_id lifecycle message = Quiet-pure tt
  Quiet-put_room_unless false room_id lifecycle message = Quiet-put_room room_id lifecycle message

  pub Quiet-require_or_claim_recovery_owner :
      (s : LiveSession) → Quiet π (require_or_claim_recovery_owner s)
  unfolding require_or_claim_recovery_owner
  Quiet-require_or_claim_recovery_owner s = search (quiet_rules, Quiet-put_room_unless) depth 8

  pub Quiet-require_recordable : (b : Bool) (id : Uuid) → Quiet π (require_recordable b id)
  Quiet-require_recordable true id = search read_rules
  Quiet-require_recordable false id =
      search (read_rules, Quiet-require_or_claim_recovery_owner) depth 8

-- What writes gates leaves alone what does not see them.
module _ {X : Type 0} {π : Tables → X}
    (blind : (t : Tables) (targets : Table UploadTarget UploadTargetState)
      → π (record t { upload_targets = targets }) ≡ π t) where
  pub Quiet-put_gate : (gate : UploadTargetState) → Quiet π (put_upload_target_state gate)
  Quiet-put_gate gate = Quiet-modify _ (λ t. blind t _)

  pub Quiet-put_attempt_target_gate :
      (target : UploadTarget) (gate : AttemptTargetGate) (now : Timestamp)
      → Quiet π (put_attempt_target_gate target gate now)
  unfolding put_attempt_target_gate
  Quiet-put_attempt_target_gate target AttemptTargetGate.unchanged now = Quiet-pure tt
  Quiet-put_attempt_target_gate target (AttemptTargetGate.backoff _ _ _ _) now = Quiet-put_gate _
  Quiet-put_attempt_target_gate target (AttemptTargetGate.blocked _ _) now = Quiet-put_gate _

  Quiet-consume_gate :
      (target : UploadTarget) (now : Timestamp) (gate : UploadTargetGate)
      → Quiet π (consume_gate target now gate)
  Quiet-consume_gate target now UploadTargetGate.ready = Quiet-pure tt
  Quiet-consume_gate target now (UploadTargetGate.backoff _ _ _ _) =
      search (quiet_rules, Quiet-put_gate)
  Quiet-consume_gate target now (UploadTargetGate.blocked _ _ _) = search quiet_rules

  pub Quiet-consume_target_ready :
      (target : UploadTarget) (now : Timestamp) → Quiet π (consume_target_ready target now)
  unfolding consume_target_ready
  Quiet-consume_target_ready target now = search (quiet_rules, Quiet-consume_gate)

  Quiet-clear_gate_of :
      (target : UploadTarget) (expected : RemoteOperationRef) (found : Option UploadTargetState)
      → Quiet π (clear_gate_of target expected found)
  Quiet-clear_gate_of target expected none = Quiet-pure tt
  Quiet-clear_gate_of target expected (some state) = search (quiet_rules, Quiet-put_gate)

  pub Quiet-clear_target_gate_if_owner :
      (target : UploadTarget) (owner : Option RemoteOperationRef)
      → Quiet π (clear_target_gate_if_owner target owner)
  unfolding clear_target_gate_if_owner
  Quiet-clear_target_gate_if_owner target none = Quiet-pure tt
  Quiet-clear_target_gate_if_owner target (some expected) =
      search (quiet_rules, Quiet-clear_gate_of)
