-- ===== src/Rooms/Owned.antt =====
-- When the rooms agree with the sessions, and writing both.
use bilive_rec.Prelude.{
  ℕ, ◌≡◌, refl, sym, ◌∙◌, subst, ◌≢◌, false, Option, none, some, ◌⊎◌, inl, inr, arith, Bool-cases,
  ◌==◌, ==_iff, String,
}
use bilive_rec.Model.{Uuid}
use bilive_rec.Model.Session.{LiveSession, SessionLifecycle, is_closed}
use bilive_rec.Model.Room.{RoomState, RoomLifecycle, room_session_id}
use bilive_rec.Store.Table.{Table, get, put, get-put_self, get-put_ne}
use bilive_rec.Store.Keys.{id_key}
use bilive_rec.Transitions.Guards.{desired_room}

abbrev pub Sessions : Type 0
Sessions = Table ℕ LiveSession

abbrev pub Rooms : Type 0
Rooms = Table ℕ RoomState

-- A session that is not closed finds its room's row as it wants it.
abbrev pub RowFits : Option (RoomLifecycle × Option String) → Option RoomState → Type 0
RowFits none row = Unit
RowFits (some wanted) none = ⊥
RowFits (some wanted) (some room) = room.lifecycle ≡ wanted.0

abbrev pub SessionFits : ℕ → Option LiveSession → Rooms → Type 0
SessionFits id none rooms = Unit
SessionFits id (some s) rooms =
    (s.id ≡ id) × RowFits (desired_room s.lifecycle s.id) (get rooms s.room_id)

-- The session that a row names is there, is not closed, and is of that room.
abbrev pub IsOwner : ℕ → Option LiveSession → Type 0
IsOwner room_id none = ⊥
IsOwner room_id (some s) = (s.room_id ≡ room_id) × (is_closed s.lifecycle ≡ false)

abbrev pub NamedFits : ℕ → Option Uuid → Sessions → Type 0
NamedFits room_id none sessions = Unit
NamedFits room_id (some id) sessions = IsOwner room_id (get sessions id)

abbrev pub RoomFits : ℕ → Option RoomState → Sessions → Type 0
RoomFits room_id none sessions = Unit
RoomFits room_id (some room) sessions = NamedFits room_id (room_session_id room.lifecycle) sessions

pub record Agree (sessions : Sessions) (rooms : Rooms) : Type 0 where
  pub session : (id : ℕ) → SessionFits id (get sessions id) rooms
  pub room : (room_id : ℕ) → RoomFits room_id (get rooms room_id) sessions

-- No session other than `id` has the room.
abbrev pub NamesOnly : Uuid → Option Uuid → Type 0
NamesOnly id none = Unit
NamesOnly id (some owner) = owner ≡ id

abbrev pub IsFreeFor : Uuid → Option RoomState → Type 0
IsFreeFor id none = Unit
IsFreeFor id (some room) = NamesOnly id (room_session_id room.lifecycle)

-- A session that is there already is of the same room.
abbrev pub IsOfRoom : ℕ → Option LiveSession → Type 0
IsOfRoom room_id none = Unit
IsOfRoom room_id (some s) = s.room_id ≡ room_id

-- A row that names a session names this one, and it is not closed.
abbrev pub NamesOpen : LiveSession → Option Uuid → Type 0
NamesOpen s none = Unit
NamesOpen s (some owner) = (owner ≡ s.id) × (is_closed s.lifecycle ≡ false)

-- The room of an unclosed session is free only for it.
only_owner :
    (l : SessionLifecycle) (owner id : Uuid) (row : Option RoomState)
    → RowFits (desired_room l owner) row
    → IsFreeFor id row
    → (owner ≡ id) ⊎ (desired_room l owner ≡ none)
unfolding room_session_id
only_owner SessionLifecycle.opened owner id none h free = absurd h
only_owner SessionLifecycle.opened owner id (some room) h free =
    inl (subst (λ l. NamesOnly id (room_session_id l)) h free)
only_owner (SessionLifecycle.recovery_required reason at) owner id none h free = absurd h
only_owner (SessionLifecycle.recovery_required reason at) owner id (some room) h free =
    inl (subst (λ l. NamesOnly id (room_session_id l)) h free)
only_owner (SessionLifecycle.closed c) owner id row h free = inr refl

module _ {sessions : Sessions} {rooms : Rooms} (s' : LiveSession) (r : RoomState)
    (agree : Agree sessions rooms) (free : IsFreeFor s'.id (get rooms s'.room_id)) where
  other_session :
      (id : ℕ) (o : Option LiveSession)
      → s'.id ≢ id
      → SessionFits id o rooms
      → SessionFits id o (put s'.room_id r rooms)
  other_session id none other h = tt
  other_session id (some t) other h = elim (Bool-cases (s'.room_id == t.room_id)) [
    | inl same ↦
        let e : s'.room_id ≡ t.room_id = (==_iff s'.room_id t.room_id).0 same in
        elim (only_owner t.lifecycle t.id s'.id (get rooms t.room_id) h.1
          (subst (λ k. IsFreeFor s'.id (get rooms k)) e free)) [
            | inl clash ↦ absurd (other (sym clash ∙ h.0))
            | inr closed ↦ (
              h.0,
              subst (λ d. RowFits d (get (put s'.room_id r rooms) t.room_id)) (sym closed) tt,
            )
          ]
    | inr apart ↦ (
      h.0,
      subst (RowFits (desired_room t.lifecycle t.id))
          (sym (
            get-put_ne s'.room_id r rooms t.room_id
              (λ e. ground (arith, (==_iff s'.room_id t.room_id).1 e))))
          h.1,
    )
  ]

  module _ (same : IsOfRoom s'.room_id (get sessions s'.id)) where
    not_moved :
        (room_id : ℕ) (o : Option LiveSession)
        → IsOfRoom s'.room_id o
        → IsOwner room_id o
        → s'.room_id ≡ room_id
    not_moved room_id none of h = absurd h
    not_moved room_id (some s) of h = sym of ∙ h.0

    other_named :
        (room_id : ℕ) (named : Option Uuid)
        → s'.room_id ≢ room_id
        → NamedFits room_id named sessions
        → NamedFits room_id named (put s'.id s' sessions)
    other_named room_id none other h = tt
    other_named room_id (some i) other h = elim (Bool-cases (s'.id == i)) [
      | inl equal ↦
          let e : s'.id ≡ i = (==_iff s'.id i).0 equal in
          absurd (
            other (
              not_moved room_id (get sessions s'.id) same
                (subst (λ k. IsOwner room_id (get sessions k)) (sym e) h)))
      | inr apart ↦
          subst (IsOwner room_id)
            (sym (get-put_ne s'.id s' sessions i (λ e. ground (arith, (==_iff s'.id i).1 e)))) h
    ]

    other_room :
        (room_id : ℕ) (o : Option RoomState)
        → s'.room_id ≢ room_id
        → RoomFits room_id o sessions
        → RoomFits room_id o (put s'.id s' sessions)
    other_room room_id none other h = tt
    other_room room_id (some room) other h =
        other_named room_id (room_session_id room.lifecycle) other h

    named_here :
        (named : Option Uuid)
        → NamesOpen s' named
        → NamedFits s'.room_id named (put s'.id s' sessions)
    named_here none h = tt
    named_here (some owner) h =
        subst (λ k. IsOwner s'.room_id (get (put s'.id s' sessions) k)) (sym h.0)
          (subst (IsOwner s'.room_id) (sym (get-put_self s'.id s' sessions)) (refl, h.1))

    -- A session is written with the row of its room.
    pub put_both-Agree :
        RowFits (desired_room s'.lifecycle s'.id) (some r)
        → NamesOpen s' (room_session_id r.lifecycle)
        → Agree (put s'.id s' sessions) (put s'.room_id r rooms)
    put_both-Agree fits named = record {
      session = λ id. elim (Bool-cases (s'.id == id)) [
        | inl equal ↦
            let e : s'.id ≡ id = (==_iff s'.id id).0 equal in
            subst (λ o. SessionFits id o (put s'.room_id r rooms))
              (sym (
                subst (λ k. get (put s'.id s' sessions) k ≡ some s') e
                  (get-put_self s'.id s' sessions)))
              (
                e,
                subst (RowFits (desired_room s'.lifecycle s'.id))
                    (sym (get-put_self s'.room_id r rooms)) fits,
              )
        | inr apart ↦
            let other : s'.id ≢ id = λ e. ground (arith, (==_iff s'.id id).1 e) in
            subst (λ o. SessionFits id o (put s'.room_id r rooms))
              (sym (get-put_ne s'.id s' sessions id other))
              (other_session id _ other (agree.session id))
      ];
      room = λ room_id. elim (Bool-cases (s'.room_id == room_id)) [
        | inl equal ↦
            let e : s'.room_id ≡ room_id = (==_iff s'.room_id room_id).0 equal in
            subst (λ k. RoomFits k (get (put s'.room_id r rooms) k) (put s'.id s' sessions)) e
              (subst (λ o. RoomFits s'.room_id o (put s'.id s' sessions))
                (sym (get-put_self s'.room_id r rooms)) (named_here _ named))
        | inr apart ↦
            let other : s'.room_id ≢ room_id =
              λ e. ground (arith, (==_iff s'.room_id room_id).1 e) in
            subst (λ o. RoomFits room_id o (put s'.id s' sessions))
              (sym (get-put_ne s'.room_id r rooms room_id other))
              (other_room room_id _ other (agree.room room_id))
      ];
    }

open_wants : (l : SessionLifecycle) (id : Uuid) → is_closed l ≡ false → desired_room l id ≢ none
unfolding is_closed
open_wants SessionLifecycle.opened id h e = cc
open_wants (SessionLifecycle.recovery_required _ _) id h e = cc
open_wants (SessionLifecycle.closed _) id h e = cc

free_by :
    (l : SessionLifecycle) (id : Uuid) (row : Option RoomState)
    → is_closed l ≡ false
    → RowFits (desired_room l id) row
    → IsFreeFor id row
unfolding is_closed room_session_id
free_by SessionLifecycle.opened id none h r = tt
free_by SessionLifecycle.opened id (some room) h r =
    subst (λ l. NamesOnly id (room_session_id l)) (sym r) refl
free_by (SessionLifecycle.recovery_required _ _) id none h r = tt
free_by (SessionLifecycle.recovery_required _ _) id (some room) h r =
    subst (λ l. NamesOnly id (room_session_id l)) (sym r) refl
free_by (SessionLifecycle.closed _) id row h r = cc

pub free_for :
    (s : LiveSession) (row : Option RoomState)
    → is_closed s.lifecycle ≡ false
    → RowFits (desired_room s.lifecycle s.id) row
    → IsFreeFor s.id row
free_for s row h r = free_by s.lifecycle s.id row h r

-- In each room at most one session is not closed.
pub one_session :
    {sessions : Sessions} {rooms : Rooms} {i j : ℕ} (s t : LiveSession)
    → Agree sessions rooms
    → get sessions i ≡ some s
    → get sessions j ≡ some t
    → s.room_id ≡ t.room_id
    → is_closed s.lifecycle ≡ false
    → is_closed t.lifecycle ≡ false
    → i ≡ j
one_session {sessions} {rooms} {i} {j} s t agree at_i at_j same open_s open_t =
    let (own_i, row_i) = subst (λ o. SessionFits i o rooms) at_i (agree.session i) in
    let (own_j, row_j) = subst (λ o. SessionFits j o rooms) at_j (agree.session j) in
    elim (only_owner s.lifecycle s.id t.id (get rooms s.room_id) row_i
      (subst (λ k. IsFreeFor t.id (get rooms k)) (sym same) (free_for t _ open_t row_j))) [
        | inl equal ↦ sym own_i ∙ equal ∙ own_j
        | inr closed ↦ absurd (open_wants s.lifecycle s.id open_s closed)
      ]
