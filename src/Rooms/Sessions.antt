-- ===== src/Rooms/Sessions.antt =====
-- Following create_session, require_recovery and fail_artifact of src/state/transitions.rs with the
-- rules of Rooms.
use bilive_rec.Prelude.{
  ℕ, String, ◌≡◌, refl, sym, ◌∙◌, subst, Bool, true, false, not, Option, none, some, is_some,
  is_some_and, arith, str_eq, any, ◌&&◌,
}
use bilive_rec.Model.{Uuid, Timestamp}
use bilive_rec.Model.Session.{LiveSession, SessionLifecycle, is_open, is_closed}
use bilive_rec.Model.Segment.{SegmentCloseReason}
use bilive_rec.Model.Target.{UploadPlan, UploadTarget}
use bilive_rec.Model.Room.{RoomState, RoomLifecycle, room_lifecycle_eq, room_session_id}
use bilive_rec.Store.Table.{get}
use bilive_rec.Store.Keys.{id_key}
use bilive_rec.Store.Txn.{pure, ◌>>=◌}
use bilive_rec.Store.Effects.{Quiet, Quiet-modify, Quiet-pure}
use bilive_rec.Transitions.Guards.{desired_room, put_room, require_or_claim_recovery_owner}
use bilive_rec.Transitions.Sessions.{
  create_session, add_gate, put_ready_unless, require_recovery, require_recovery_in,
  require_recovery_first, require_recovery_again, put_event_if, fail_artifact, recorded_as,
}
use bilive_rec.Runs.Quiet.{validate_new_upload-Quiet}
use bilive_rec.Rooms.Owned.{RowFits, IsFreeFor, IsOfRoom, NamesOnly, put_both-Agree}
use bilive_rec.Rooms.Rewrites.{put_session-Agree, put_room-Agree}
use bilive_rec.Rooms.Rules.{
  Own, own, Agreed, Leads, Agreeing, Leads-Still, Still-Quiet, Leads-bind, Leads-gets,
  Leads-fail_if, Leads-raise, Leads-require_session, Leads-assoc, Leads-put_session, Leads-put_room,
  Agreeing-write, Agreeing-bind, Agreeing-fail_if, Agreeing-Quiet,
}
use bilive_rec.Rooms.Claims.{own_quiet, Still-claim, row_of}
use bilive_rec.Rooms.Both.{row, Leads-block, record_recovery_reason-IsRecorded}

put_ready_unless-own : (b : Bool) (target : UploadTarget) → Quiet own (put_ready_unless b target)
put_ready_unless-own true target = Quiet-pure tt
put_ready_unless-own false target = Quiet-modify _ (λ t. refl)

add_gate-own : (plan : Option UploadPlan) → Quiet own (add_gate plan)
add_gate-own none = Quiet-pure tt
add_gate-own (some plan) = search (own_quiet, put_ready_unless-own)

is_none_of {ℓ} : {A : Type ℓ} (o : Option A) → is_some o ≡ false → o ≡ none
is_none_of o h = ground arith

free_of_ready :
    (id : Uuid) (r : Option RoomState)
    → is_some_and r (λ r. not (room_lifecycle_eq r.lifecycle RoomLifecycle.ready)) ≡ false
    → IsFreeFor id r
unfolding room_lifecycle_eq room_session_id
free_of_ready id none h = tt
free_of_ready id (some r) h = free_lifecycle id r.lifecycle h
  where
    free_lifecycle :
        (id : Uuid) (l : RoomLifecycle)
        → not (room_lifecycle_eq l RoomLifecycle.ready) ≡ false
        → NamesOnly id (room_session_id l)
    free_lifecycle id RoomLifecycle.ready h = tt
    free_lifecycle id (RoomLifecycle.owned s) h = cc
    free_lifecycle id (RoomLifecycle.blocked s) h = cc

opened_of : (l : SessionLifecycle) → not (is_open l) ≡ false → l ≡ SessionLifecycle.opened
unfolding is_open
opened_of l h = ground arith

pub create_session-Agreeing : (s : LiveSession) → Agreeing (create_session s)
unfolding create_session room_session_id is_closed
create_session-Agreeing s = Agreeing-fail_if _ _ _ λ starts.
    Agreeing-bind _ _ (Agreeing-Quiet _ (search own_quiet)) λ _.
      Agreeing-bind _ _ (Agreeing-Quiet _ (search own_quiet)) λ _.
        Agreeing-bind _ _ (Agreeing-Quiet _ (search own_quiet)) λ _.
          Agreeing-bind _ _ (Agreeing-Quiet _ (validate_new_upload-Quiet _)) λ _.
            Agreeing-write _ λ x agree.
              Leads-gets (λ y. get y.0 s.id) _
                (Leads-fail_if _ _ _ λ absent.
                  Leads-bind _ _ (Still-Quiet _ (search own_quiet)) λ sessions.
                    Leads-bind _ _ (Still-Quiet _ (search own_quiet)) λ _.
                      Leads-gets (λ y. get y.1 s.room_id) _
                        (Leads-fail_if _ _ _ λ ready. Leads-put_session _ _ (
                          Leads-put_room _ _ _ _ λ at.
                            let opened = opened_of s.lifecycle starts in
                            Leads-Still _
                              (put_both-Agree s (row (RoomLifecycle.owned s.id) at none) agree
                                (free_of_ready s.id (get x.1 s.room_id) ready)
                                (subst (IsOfRoom s.room_id) (sym (is_none_of (get x.0 s.id) absent))
                                  tt)
                                (subst
                                  (λ l.
                                    RowFits (desired_room l s.id)
                                      (some (row (RoomLifecycle.owned s.id) at none)))
                                  (sym opened) refl)
                                (refl, subst (λ l. is_closed l ≡ false) (sym opened) refl))
                              (Still-Quiet _ (search (own_quiet, add_gate-own))))))

unclosed_of : (l : SessionLifecycle) → l ≡ SessionLifecycle.opened → is_closed l ≡ false
unfolding is_closed
unclosed_of l e = ground arith

row_found :
    (d : RoomLifecycle × Option String) (r : Option RoomState)
    → RowFits (some d) r
    → (q : RoomState) × (r ≡ some q) × (q.lifecycle ≡ d.0)
row_found d none h = absurd h
row_found d (some q) h = (q, refl, h)

-- What follows the event of require_recovery on a session that is in recovery.
again-Leads :
    {y : Own} (id : Uuid) (s : LiveSession) (current : String) (since : Timestamp)
    → Agreed y
    → s.id ≡ id
    → s.lifecycle ≡ SessionLifecycle.recovery_required current since
    → RowFits (desired_room s.lifecycle s.id) (get y.1 s.room_id)
    → Leads y (
        require_or_claim_recovery_owner s >>= λ _.
        put_room s.room_id (RoomLifecycle.blocked id) (some current) >>= λ _. pure s.lifecycle)
again-Leads {y} id s current since agree own_id e fits = Leads-bind _ _ (Still-claim s fits) λ _.
    Leads-put_room _ _ _ _ λ at.
      let (q, there, state) =
        row_found (RoomLifecycle.blocked s.id, some current) (get y.1 s.room_id)
          (subst (λ l. RowFits (desired_room l s.id) (get y.1 s.room_id)) e fits) in
      Leads-Still _
        (put_room-Agree agree s.room_id q (row (RoomLifecycle.blocked id) at (some current)) there
          ((λ i. RoomLifecycle.blocked (sym own_id i)) ∙ sym state))
        (Still-Quiet _ (Quiet-pure _))

require_recovery_again-Leads :
    {x : Own} (id : Uuid) (s : LiveSession) (current reason : String) (since : Timestamp)
    → Agreed x
    → get x.0 id ≡ some s
    → s.lifecycle ≡ SessionLifecycle.recovery_required current since
    → Leads x (require_recovery_again id s current reason)
unfolding require_recovery_again
require_recovery_again-Leads {x} id s current reason since agree found e =
    let (own_id, fits) = row_of id s agree found in
    noted (not (str_eq current reason) && not (any (recorded_as reason) s.recording_events)) own_id
      fits
  where
    noted :
        (b : Bool)
        → s.id ≡ id
        → RowFits (desired_room s.lifecycle s.id) (get x.1 s.room_id)
        → Leads x (
            put_event_if b s reason >>= λ _. require_or_claim_recovery_owner s >>= λ _.
            put_room s.room_id (RoomLifecycle.blocked id) (some current) >>= λ _. pure s.lifecycle)
    noted false own_id fits =
        Leads-bind _ _ (Still-Quiet _ (Quiet-pure tt))
          λ _. again-Leads id s current since agree own_id e fits
    noted true own_id fits = Leads-assoc _ _ _ (
        Leads-bind _ _ (Still-Quiet _ (search own_quiet)) λ at. Leads-put_session _ _ (
          again-Leads id s current since
            (put_session-Agree agree s _ (subst (λ k. get x.0 k ≡ some s) (sym own_id) found) refl
              refl)
            own_id e fits))

require_recovery_in-Leads :
    {x : Own} (id : Uuid) (s : LiveSession) (l : SessionLifecycle) (reason : String)
    → Agreed x
    → get x.0 id ≡ some s
    → s.lifecycle ≡ l
    → Leads x (require_recovery_in id s l reason)
unfolding require_recovery_in require_recovery_first
require_recovery_in-Leads id s SessionLifecycle.opened reason agree found e =
    let (own_id, fits) = row_of id s agree found in
    Leads-bind _ _ (Still-claim s fits) λ _. Leads-bind _ _ (Still-Quiet _ (search own_quiet)) λ at.
      Leads-block agree id s found (unclosed_of s.lifecycle e) _ reason at s.room_id id
        (some reason) _ refl refl refl own_id refl (Quiet-pure _)
require_recovery_in-Leads id s (SessionLifecycle.recovery_required current since) reason agree found
      e =
    require_recovery_again-Leads id s current reason since agree found e
require_recovery_in-Leads id s (SessionLifecycle.closed c) reason agree found e = Leads-raise _

pub require_recovery-Agreeing :
    (id : Uuid) (reason : String) → Agreeing (require_recovery id reason)
unfolding require_recovery
require_recovery-Agreeing id reason = Agreeing-bind _ _ (Agreeing-Quiet _ (search own_quiet)) λ _.
    Agreeing-write _ λ x agree.
      Leads-require_session id _
        λ s found. require_recovery_in-Leads id s s.lifecycle reason agree found refl

pub fail_artifact-Agreeing :
    (id : Uuid) (index : ℕ) (reason : String) (given : Option SegmentCloseReason)
    → Agreeing (fail_artifact id index reason given)
unfolding fail_artifact
fail_artifact-Agreeing id index reason given =
    Agreeing-bind _ _ (Agreeing-Quiet _ (search own_quiet)) λ _. Agreeing-write _ λ x agree.
      Leads-require_session id _ λ s found. Leads-fail_if _ _ _ λ unclosed.
        let (own_id, fits) = row_of id s agree found in
        Leads-bind _ _ (Still-claim s fits) λ _.
          Leads-bind _ _ (Still-Quiet _ (search own_quiet)) λ segment.
            Leads-bind _ _ (Still-Quiet _ (search own_quiet)) λ _.
              Leads-bind _ _ (Still-Quiet _ (search own_quiet)) λ _.
                Leads-bind _ _ (Still-Quiet _ (search own_quiet)) λ text.
                  Leads-bind _ _ (Still-Quiet _ (search own_quiet)) λ at.
                    let r = record_recovery_reason-IsRecorded s text at unclosed in
                    Leads-block agree id s found unclosed _ r.reason r.since s.room_id id _ _ r.id
                      r.room_id r.room_id (r.id ∙ own_id) r.lifecycle (Quiet-pure _)
