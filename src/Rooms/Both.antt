-- ===== src/Rooms/Both.antt =====
-- The writes of a session and of its room's row in one transaction.
use bilive_rec.Prelude.{ℕ, String, ◌≡◌, refl, sym, ◌∙◌, subst, false, Option, none, some, ap, arith}
use bilive_rec.Model.{Uuid, Timestamp}
use bilive_rec.Model.Session.{LiveSession, SessionLifecycle, SessionClosure, is_closed}
use bilive_rec.Model.Room.{RoomState, RoomLifecycle, room_session_id}
use bilive_rec.Store.Table.{get, put}
use bilive_rec.Store.Keys.{id_key}
use bilive_rec.Store.Txn.{Txn, put_session, ◌>>=◌}
use bilive_rec.Store.Effects.{Quiet}
use bilive_rec.Transitions.Guards.{desired_room, put_room}
use bilive_rec.Transitions.Sessions.{record_recovery_reason, note_reason, require_recovery_of}
use bilive_rec.Rooms.Owned.{
  RowFits, IsFreeFor, IsOfRoom, NamesOpen, Agree, put_both-Agree, free_for,
}
use bilive_rec.Rooms.Rules.{
  Own, own, Agreed, Leads, Leads-Still, Still-Quiet, Leads-put_session, Leads-put_room,
}
use bilive_rec.Rooms.Claims.{row_of}

abbrev pub row : RoomLifecycle → Timestamp → Option String → RoomState
row l changed_at message = record { lifecycle = l; changed_at = changed_at; message = message }

module _ {B : Type 0} {x : Own} (agree : Agreed x) (id : Uuid) (s : LiveSession)
    (found : get x.0 id ≡ some s) (unclosed : is_closed s.lifecycle ≡ false) where
  -- A session that was found unclosed is written again, with the row of its room.
  pub Leads-put_both :
      (s' : LiveSession) (room_id : ℕ) (l : RoomLifecycle) (message : Option String)
      (f : Unit {0} → Txn B)
      → s'.id ≡ s.id
      → s'.room_id ≡ s.room_id
      → s'.room_id ≡ room_id
      → ((at : Timestamp) → RowFits (desired_room s'.lifecycle s'.id) (some (row l at message)))
      → NamesOpen s' (room_session_id l)
      → Quiet own (f tt)
      → Leads x (put_session s' >>= λ _. put_room room_id l message >>= f)
  Leads-put_both s' room_id l message f same_id same_room at_room fits named q =
      let (own_id, row_fits) = row_of id s agree found in
      let free : IsFreeFor s'.id (get x.1 s'.room_id) =
        subst (λ k. IsFreeFor k (get x.1 s'.room_id)) (sym same_id)
          (subst (λ r. IsFreeFor s.id (get x.1 r)) (sym same_room)
            (free_for s _ unclosed row_fits)) in
      let there : get x.0 s'.id ≡ some s =
        subst (λ k. get x.0 k ≡ some s) (sym (same_id ∙ own_id)) found in
      let of_room : IsOfRoom s'.room_id (get x.0 s'.id) =
        subst (IsOfRoom s'.room_id) (sym there) (sym same_room) in
      Leads-put_session _ _ (
        Leads-put_room _ _ _ _ λ at.
          Leads-Still _
            (subst (λ k. Agree (put s'.id s' x.0) (put k (row l at message) x.1)) at_room
              (put_both-Agree s' (row l at message) agree free of_room (fits at) named))
            (Still-Quiet _ q))

  pub Leads-close :
      (s' : LiveSession) (c : SessionClosure) (f : Unit {0} → Txn B)
      → s'.id ≡ s.id
      → s'.room_id ≡ s.room_id
      → s'.lifecycle ≡ SessionLifecycle.closed c
      → Quiet own (f tt)
      → Leads x (put_session s' >>= λ _. put_room s.room_id RoomLifecycle.ready none >>= f)
  unfolding room_session_id
  Leads-close s' c f same_id same_room closed q =
      Leads-put_both s' s.room_id RoomLifecycle.ready none f same_id same_room same_room
        (λ at.
          subst (λ l. RowFits (desired_room l s'.id) (some (row RoomLifecycle.ready at none)))
            (sym closed) tt)
        tt q

  pub Leads-block :
      (s' : LiveSession) (reason : String) (since : Timestamp) (room_id k : ℕ)
      (message : Option String) (f : Unit {0} → Txn B)
      → s'.id ≡ s.id
      → s'.room_id ≡ s.room_id
      → s'.room_id ≡ room_id
      → s'.id ≡ k
      → s'.lifecycle ≡ SessionLifecycle.recovery_required reason since
      → Quiet own (f tt)
      → Leads x (put_session s' >>= λ _. put_room room_id (RoomLifecycle.blocked k) message >>= f)
  unfolding room_session_id is_closed
  Leads-block s' reason since room_id k message f same_id same_room at_room is_k state q =
      Leads-put_both s' room_id (RoomLifecycle.blocked k) message f same_id same_room at_room
        (λ at.
          subst
            (λ l. RowFits (desired_room l s'.id) (some (row (RoomLifecycle.blocked k) at message)))
            (sym state) (λ i. RoomLifecycle.blocked (sym is_k i)))
        (sym is_k, subst (λ l. is_closed l ≡ false) (sym state) refl) q

-- The session as record_recovery_reason leaves it.
pub record IsRecorded (s s' : LiveSession) : Type 0 where
  pub id : s'.id ≡ s.id
  pub room_id : s'.room_id ≡ s.room_id
  pub reason : String
  pub since : Timestamp
  pub lifecycle : s'.lifecycle ≡ SessionLifecycle.recovery_required reason since

note_shape :
    (s : LiveSession) (reason : String) (at : Timestamp)
    → ((note_reason s reason at).id ≡ s.id)
      × ((note_reason s reason at).room_id ≡ s.room_id)
      × ((note_reason s reason at).lifecycle ≡ s.lifecycle)
unfolding note_reason
note_shape s reason at = ground arith

required-IsRecorded :
    (n : LiveSession) (l : SessionLifecycle) (reason : String) (at : Timestamp)
    → n.lifecycle ≡ l
    → is_closed l ≡ false
    → IsRecorded n (require_recovery_of n reason at).0
unfolding is_closed
required-IsRecorded n SessionLifecycle.opened reason at e h =
    rw e (record { id = refl; room_id = refl; reason = reason; since = at; lifecycle = refl })
required-IsRecorded n (SessionLifecycle.recovery_required primary since) reason at e h =
    rw e (record { id = refl; room_id = refl; reason = primary; since = since; lifecycle = refl })
required-IsRecorded n (SessionLifecycle.closed c) reason at e h = cc

pub record_recovery_reason-IsRecorded :
    (s : LiveSession) (reason : String) (at : Timestamp)
    → is_closed s.lifecycle ≡ false
    → IsRecorded s (record_recovery_reason s reason at).0
unfolding record_recovery_reason
record_recovery_reason-IsRecorded s reason at h =
    let n = note_reason s reason at in
    let (same_id, same_room, same) = note_shape s reason at in
    let r = required-IsRecorded n n.lifecycle reason at refl (ap is_closed same ∙ h) in
    record {
      id = r.id ∙ same_id;
      room_id = r.room_id ∙ same_room;
      reason = r.reason;
      since = r.since;
      lifecycle = r.lifecycle;
    }
