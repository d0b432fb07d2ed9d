-- ===== src/Rooms/Claims.antt =====
-- require_or_claim_recovery_owner of src/state/transitions.rs where the rooms agree with the sessions.
use bilive_rec.Prelude.{
  ℕ, String, ◌≡◌, refl, sym, subst, Bool, true, false, Option, none, some, is_some_and, ==_iff,
}
use bilive_rec.Model.{Timestamp}
use bilive_rec.Model.Session.{LiveSession}
use bilive_rec.Model.Room.{RoomState, RoomLifecycle, room_lifecycle_eq}
use bilive_rec.Model.Target.{UploadTarget, RemoteOperationRef}
use bilive_rec.Model.Segment.{Segment}
use bilive_rec.Model.Submission.{Submission}
use bilive_rec.Store.Table.{get}
use bilive_rec.Store.Keys.{id_key}
use bilive_rec.Store.Txn.{put_segment, put_submission}
use bilive_rec.Store.Effects.{Quiet, Quiet-modify, Quiet-pure}
use bilive_rec.Transitions.Guards.{desired_room, put_room_unless, require_or_claim_recovery_owner}
use bilive_rec.Transitions.Targets.{
  AttemptTargetGate, consume_target_ready, put_attempt_target_gate, clear_target_gate_if_owner,
}
use bilive_rec.Transitions.Quiet.{
  read_rules, Quiet-put_gate, Quiet-consume_target_ready, Quiet-put_attempt_target_gate,
  Quiet-clear_target_gate_if_owner,
}
use bilive_rec.Rooms.Owned.{RowFits, SessionFits}
use bilive_rec.Rooms.Rules.{
  Own, own, Agreed, Still, Still-Quiet, Still-bind, Still-or_fail, Still-gets,
}

-- What writes no session and no room.
pub own-put_segment : (s : Segment) → Quiet own (put_segment s)
own-put_segment s = Quiet-modify _ (λ t. refl)

pub own-put_submission : (s : Submission) → Quiet own (put_submission s)
own-put_submission s = Quiet-modify _ (λ t. refl)

pub own-consume_target_ready :
    (target : UploadTarget) (now : Timestamp) → Quiet own (consume_target_ready target now)
own-consume_target_ready = Quiet-consume_target_ready (λ t r. refl)

pub own-put_attempt_target_gate :
    (target : UploadTarget) (gate : AttemptTargetGate) (now : Timestamp)
    → Quiet own (put_attempt_target_gate target gate now)
own-put_attempt_target_gate = Quiet-put_attempt_target_gate (λ t r. refl)

pub own-clear_target_gate_if_owner :
    (target : UploadTarget) (owner : Option RemoteOperationRef)
    → Quiet own (clear_target_gate_if_owner target owner)
own-clear_target_gate_if_owner = Quiet-clear_target_gate_if_owner (λ t r. refl)

pub ruleset own_quiet = (
  read_rules, own-put_segment, own-put_submission, own-consume_target_ready,
  own-put_attempt_target_gate, own-clear_target_gate_if_owner,
)

same_lifecycle : (l : RoomLifecycle) → room_lifecycle_eq l l ≡ true
unfolding room_lifecycle_eq
same_lifecycle RoomLifecycle.ready = refl
same_lifecycle (RoomLifecycle.owned s) = (==_iff s s).1 refl
same_lifecycle (RoomLifecycle.blocked s) = (==_iff s s).1 refl

row_is_wanted :
    (d : RoomLifecycle × Option String) (row : Option RoomState)
    → RowFits (some d) row
    → is_some_and row (λ r. room_lifecycle_eq r.lifecycle d.0) ≡ true
row_is_wanted d none h = absurd h
row_is_wanted d (some r) h =
    subst (λ l. room_lifecycle_eq l d.0 ≡ true) (sym h) (same_lifecycle d.0)

Still-unless :
    {x : Own} (b : Bool) (room_id : ℕ) (l : RoomLifecycle) (message : Option String)
    → b ≡ true
    → Still x (put_room_unless b room_id l message)
Still-unless true room_id l message h = Still-Quiet _ (Quiet-pure tt)
Still-unless false room_id l message h = cc

pub Still-claim :
    {x : Own} (s : LiveSession)
    → RowFits (desired_room s.lifecycle s.id) (get x.1 s.room_id)
    → Still x (require_or_claim_recovery_owner s)
unfolding require_or_claim_recovery_owner
Still-claim {x} s h = Still-or_fail _ _ _ λ d wanted.
    Still-gets (λ y. get y.1 s.room_id) _
      (Still-bind _ _ (Still-Quiet _ (search own_quiet)) λ _.
        Still-unless _ _ _ _ (
          row_is_wanted d (get x.1 s.room_id)
            (subst (λ o. RowFits o (get x.1 s.room_id)) wanted h)))

-- The row of a session that is found.
pub row_of :
    {x : Own} (id : ℕ) (s : LiveSession)
    → Agreed x
    → get x.0 id ≡ some s
    → (s.id ≡ id) × RowFits (desired_room s.lifecycle s.id) (get x.1 s.room_id)
row_of {x} id s agree found = subst (λ o. SessionFits id o x.1) found (agree.session id)
