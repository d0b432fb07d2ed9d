-- ===== src/Segments/Rules.antt =====
-- The rules of Store.Effects at the table of segments.
use bilive_rec.Prelude.{ℕ, String, ◌≡◌, refl, sym, subst, Option, none, some, Bool, inl}
use bilive_rec.Errors.{segment_does_not_exist}
use bilive_rec.Model.{Uuid}
use bilive_rec.Model.Segment.{Segment}
use bilive_rec.Store.Table.{get, put}
use bilive_rec.Store.Keys.{SegmentKey, segment_key}
use bilive_rec.Model.{Timestamp}
use bilive_rec.Model.Session.{LiveSession}
use bilive_rec.Model.Room.{RoomLifecycle}
use bilive_rec.Model.Target.{UploadTarget, RemoteOperationRef}
use bilive_rec.Store.Txn.{Env, Db, Tables, Txn, put_segment, put_session, or_fail, ◌>>=◌}
use bilive_rec.Store.Effects.{
  Quiet, Effect, Changed, Quiet-modify, Effect-bind, Effect-gets, Effect-or_fail, Effect-modify,
  Effect-write, Effect-lift,
}
use bilive_rec.Transitions.Guards.{require_segment, require_or_claim_recovery_owner, put_room}
use bilive_rec.Transitions.Artifacts.{require_recordable}
use bilive_rec.Transitions.Targets.{
  AttemptTargetGate, consume_target_ready, put_attempt_target_gate, clear_target_gate_if_owner,
}
use bilive_rec.Transitions.Quiet.{
  read_rules, Quiet-require_recordable, Quiet-require_or_claim_recovery_owner, Quiet-put_room,
  Quiet-consume_target_ready, Quiet-put_attempt_target_gate, Quiet-clear_target_gate_if_owner,
}
use bilive_rec.Segments.Step.{Segments, Actor, SegmentStep, key_of, Evolves, here, step}

abbrev pub segments_of : Tables → Segments
segments_of t = t.segments

-- An action evolves the table of segments, if that is `x` before it.
abbrev pub Evolving : Actor → Segments → {A : Type 0} → Txn A → Type 0
Evolving a x m = Effect segments_of (Evolves a) x m

module _ {B : Type 0} {a : Actor} {x : Segments} where
  found_or_not :
      (o : Option Segment) (f : Segment → Txn B) (env : Env) (db : Db)
      → db.segments ≡ x
      → ((s : Segment) → o ≡ some s → Evolving a x (f s))
      → Changed (Evolves a) x ((or_fail o segment_does_not_exist >>= f) env db).1.segments
  unfolding ◌>>=◌
  found_or_not none f env db e h = inl e
  found_or_not (some s) f env db e h = (h s refl).at env db e

  pub Evolving-require_segment :
      (session_id : Uuid) (index : ℕ) (f : Segment → Txn B)
      → ((s : Segment) → get x (session_id, index) ≡ some s → Evolving a x (f s))
      → Evolving a x (require_segment session_id index >>= f)
  unfolding require_segment ◌>>=◌
  Evolving-require_segment session_id index f h = record {
    at = λ env db e.
        found_or_not (get db.segments (session_id, index)) f env db e
          (λ s found. h s (subst (λ y. get y (session_id, index) ≡ some s) e found));
  }

  pub Evolving-put_segment :
      (k : SegmentKey) (s s' : Segment) (f : Unit {0} → Txn B)
      → get x k ≡ some s
      → SegmentStep a s s'
      → Quiet segments_of (f tt)
      → Evolving a x (put_segment s' >>= f)
  Evolving-put_segment k s s' f found st q =
      Effect-modify _ f
        (λ t e. subst (λ y. Evolves a x (put (key_of s') s' y)) (sym e) (step k here found st)) q

-- The shared steps of the transitions leave the segments alone.
pub segments-require_recordable :
    (b : Bool) (id : Uuid) → Quiet segments_of (require_recordable b id)
segments-require_recordable = Quiet-require_recordable (λ t r. refl)

pub segments-require_or_claim_recovery_owner :
    (s : LiveSession) → Quiet segments_of (require_or_claim_recovery_owner s)
segments-require_or_claim_recovery_owner = Quiet-require_or_claim_recovery_owner (λ t r. refl)

pub segments-put_room :
    (room_id : ℕ) (lifecycle : RoomLifecycle) (message : Option String)
    → Quiet segments_of (put_room room_id lifecycle message)
segments-put_room = Quiet-put_room (λ t r. refl)

pub segments-put_session : (s : LiveSession) → Quiet segments_of (put_session s)
segments-put_session s = Quiet-modify _ (λ t. refl)

pub segments-consume_target_ready :
    (target : UploadTarget) (now : Timestamp) → Quiet segments_of (consume_target_ready target now)
segments-consume_target_ready = Quiet-consume_target_ready (λ t r. refl)

pub segments-put_attempt_target_gate :
    (target : UploadTarget) (gate : AttemptTargetGate) (now : Timestamp)
    → Quiet segments_of (put_attempt_target_gate target gate now)
segments-put_attempt_target_gate = Quiet-put_attempt_target_gate (λ t r. refl)

pub segments-clear_target_gate_if_owner :
    (target : UploadTarget) (owner : Option RemoteOperationRef)
    → Quiet segments_of (clear_target_gate_if_owner target owner)
segments-clear_target_gate_if_owner = Quiet-clear_target_gate_if_owner (λ t r. refl)

pub ruleset segments_quiet = (
  read_rules, segments-require_recordable, segments-require_or_claim_recovery_owner,
  segments-put_room, segments-put_session, segments-consume_target_ready,
  segments-put_attempt_target_gate, segments-clear_target_gate_if_owner,
)

pub ruleset evolving_rules = (
  Effect-write, Effect-lift, Effect-bind, Evolving-require_segment, Evolving-put_segment,
  segments_quiet,
)
