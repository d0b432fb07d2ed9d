-- ===== src/Rooms/Rewrites.antt =====
-- Writing a session or a row again, where the lifecycle stays.
use bilive_rec.Prelude.{
  ℕ, ◌≡◌, refl, sym, ◌∙◌, subst, Option, none, some, inl, inr, arith, Bool-cases, ◌==◌, ==_iff,
  String, ap,
}
use bilive_rec.Model.{Uuid}
use bilive_rec.Model.Session.{LiveSession, is_closed}
use bilive_rec.Model.Room.{RoomState, RoomLifecycle, room_session_id}
use bilive_rec.Store.Table.{get, put, get-put_self, get-put_ne}
use bilive_rec.Store.Keys.{id_key}
use bilive_rec.Transitions.Guards.{desired_room}
use bilive_rec.Rooms.Owned.{
  Sessions, Rooms, RowFits, SessionFits, IsOwner, NamedFits, RoomFits, Agree,
}

module _ {sessions : Sessions} {rooms : Rooms} (agree : Agree sessions rooms) where
  module _ (s s' : LiveSession) (found : get sessions s'.id ≡ some s)
      (same_room : s'.room_id ≡ s.room_id) (same_lifecycle : s'.lifecycle ≡ s.lifecycle) where
    renamed :
        (room_id : ℕ) (named : Option Uuid)
        → NamedFits room_id named sessions
        → NamedFits room_id named (put s'.id s' sessions)
    renamed room_id none h = tt
    renamed room_id (some i) h = elim (Bool-cases (s'.id == i)) [
      | inl equal ↦
          let e : s'.id ≡ i = (==_iff s'.id i).0 equal in
          let owner : IsOwner room_id (some s) =
            subst (IsOwner room_id) found
              (subst (λ k. IsOwner room_id (get sessions k)) (sym e) h) in
          subst (λ k. IsOwner room_id (get (put s'.id s' sessions) k)) e
            (subst (IsOwner room_id) (sym (get-put_self s'.id s' sessions))
              (same_room ∙ owner.0, ap is_closed same_lifecycle ∙ owner.1))
      | inr apart ↦
          subst (IsOwner room_id)
            (sym (get-put_ne s'.id s' sessions i (λ e. ground (arith, (==_iff s'.id i).1 e)))) h
    ]

    re_room :
        (room_id : ℕ) (o : Option RoomState)
        → RoomFits room_id o sessions
        → RoomFits room_id o (put s'.id s' sessions)
    re_room room_id none h = tt
    re_room room_id (some room) h = renamed room_id (room_session_id room.lifecycle) h

    pub put_session-Agree : Agree (put s'.id s' sessions) rooms
    put_session-Agree = record {
      session = λ id. elim (Bool-cases (s'.id == id)) [
        | inl equal ↦
            let e : s'.id ≡ id = (==_iff s'.id id).0 equal in
            let (own, row) = subst (λ o. SessionFits s'.id o rooms) found (agree.session s'.id) in
            let row' : RowFits (desired_room s'.lifecycle s'.id) (get rooms s'.room_id) =
              subst (λ l. RowFits (desired_room l s'.id) (get rooms s'.room_id))
                (sym same_lifecycle)
                (subst (λ k. RowFits (desired_room s.lifecycle s'.id) (get rooms k)) (sym same_room)
                  (subst (λ k. RowFits (desired_room s.lifecycle k) (get rooms s.room_id)) own
                    row)) in
            subst (λ k. SessionFits k (get (put s'.id s' sessions) k) rooms) e
              (subst (λ o. SessionFits s'.id o rooms) (sym (get-put_self s'.id s' sessions))
                (refl, row'))
        | inr apart ↦
            subst (λ o. SessionFits id o rooms)
              (sym (get-put_ne s'.id s' sessions id (λ e. ground (arith, (==_iff s'.id id).1 e))))
              (agree.session id)
      ];
      room = λ room_id. re_room room_id (get rooms room_id) (agree.room room_id);
    }

  module _ (k : ℕ) (q r : RoomState) (found : get rooms k ≡ some q)
      (same : r.lifecycle ≡ q.lifecycle) where
    re_row :
        (d : Option (RoomLifecycle × Option String)) (j : ℕ)
        → RowFits d (get rooms j)
        → RowFits d (get (put k r rooms) j)
    re_row none j h = tt
    re_row (some d) j h = elim (Bool-cases (k == j)) [
      | inl equal ↦
          let e : k ≡ j = (==_iff k j).0 equal in
          let old : RowFits (some d) (some q) =
            subst (RowFits (some d)) found
              (subst (λ i. RowFits (some d) (get rooms i)) (sym e) h) in
          subst (λ i. RowFits (some d) (get (put k r rooms) i)) e
            (subst (RowFits (some d)) (sym (get-put_self k r rooms)) (same ∙ old))
      | inr apart ↦
          subst (RowFits (some d))
            (sym (get-put_ne k r rooms j (λ e. ground (arith, (==_iff k j).1 e)))) h
    ]

    re_session :
        (id : ℕ) (o : Option LiveSession)
        → SessionFits id o rooms
        → SessionFits id o (put k r rooms)
    re_session id none h = tt
    re_session id (some t) h = (h.0, re_row (desired_room t.lifecycle t.id) t.room_id h.1)

    pub put_room-Agree : Agree sessions (put k r rooms)
    put_room-Agree = record {
      session = λ id. re_session id (get sessions id) (agree.session id);
      room = λ j. elim (Bool-cases (k == j)) [
        | inl equal ↦
            let e : k ≡ j = (==_iff k j).0 equal in
            let old : RoomFits k (some q) sessions =
              subst (λ o. RoomFits k o sessions) found (agree.room k) in
            subst (λ i. RoomFits i (get (put k r rooms) i) sessions) e
              (subst (λ o. RoomFits k o sessions) (sym (get-put_self k r rooms))
                (subst (λ l. NamedFits k (room_session_id l) sessions) (sym same) old))
        | inr apart ↦
            subst (λ o. RoomFits j o sessions)
              (sym (get-put_ne k r rooms j (λ e. ground (arith, (==_iff k j).1 e)))) (agree.room j)
      ];
    }
