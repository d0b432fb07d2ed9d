-- ===== src/Audit/Passes.antt =====
-- Where sessions and rooms agree, the audit finds no conflict and nothing to repair.
use bilive_rec.Prelude.{
  ℕ, ◌≡◌, ◌≤◌, refl, sym, subst, true, false, Option, none, some, List, [], ◌∷◌, All, any, find,
  count_where, ◌==◌, ltb, arith, Bool-cases, inl, inr, ==_iff,
}
use bilive_rec.Errors.{ok, StateError}
use bilive_rec.Model.{Uuid}
use bilive_rec.Model.Session.{LiveSession, SessionLifecycle, is_closed}
use bilive_rec.Model.Room.{RoomState, RoomLifecycle, room_session_id}
use bilive_rec.Store.Table.{get, values}
use bilive_rec.Store.Keys.{id_key}
use bilive_rec.Store.Txn.{Env, Db, pure, ◌>>=◌}
use bilive_rec.Transitions.Guards.{desired_room}
use bilive_rec.Rooms.Owned.{
  Sessions, Rooms, Agree, SessionFits, RoomFits, NamedFits, IsOwner, RowFits,
}
use bilive_rec.Audit.Ownership.{
  non_closed, has_multiple, check_named, check_room, first_error, check_rooms, check_owner,
  check_row, check_sessions, detect_hard_conflicts, is_exact_for, is_exact, insert_session,
  sort_sessions, comes_before, repair_all, audit,
}
use bilive_rec.Audit.Listed.{
  IsAscending, Stored, Stored-self, Listed, non_closed-Listed, one_of_room, find-non_closed,
}

any_none :
    (list whole : List LiveSession)
    → ((room_id : ℕ) → count_where (λ t. t.room_id == room_id) whole ≤ 1)
    → any (λ s. ltb 1 (count_where (λ t. t.room_id == s.room_id) whole)) list ≡ false
unfolding any
any_none [] whole h = refl
any_none (s ∷ list) whole h =
    let one : ltb 1 (count_where (λ t. t.room_id == s.room_id) whole) ≡ false =
      ground (arith, h s.room_id) in
    rw one (any_none list whole h)

-- A row that is as an unclosed session wants it names that session, and is exact.
abbrev Passed : Uuid → SessionLifecycle → RoomLifecycle → Type 0
Passed id l row = (check_owner id (room_session_id row) ≡ none) × (is_exact_for id l row ≡ true)

row_passes :
    (id : Uuid) (l : SessionLifecycle) (row : Option RoomState)
    → is_closed l ≡ false
    → RowFits (desired_room l id) row
    → (room : RoomState) × (row ≡ some room) × Passed id l room.lifecycle
unfolding is_closed room_session_id
row_passes id SessionLifecycle.opened none h fits = absurd fits
row_passes id SessionLifecycle.opened (some room) h fits =
    let same : (id == id) ≡ true = ground arith in
    (room, refl, subst (Passed id SessionLifecycle.opened) (sym fits) (rw same refl, same))
row_passes id (SessionLifecycle.recovery_required r t) none h fits = absurd fits
row_passes id (SessionLifecycle.recovery_required r t) (some room) h fits =
    let same : (id == id) ≡ true = ground arith in
    (
      room,
      refl,
      subst (Passed id (SessionLifecycle.recovery_required r t)) (sym fits) (rw same refl, same),
    )
row_passes id (SessionLifecycle.closed c) row h fits = cc

module _ (P : LiveSession → Type 0) where
  All-insert :
      (s : LiveSession) (list : List LiveSession) → P s → All P list → All P (insert_session s list)
  unfolding insert_session
  All-insert s [] p h = (p, tt)
  All-insert s (t ∷ list) p (q, h) = elim (Bool-cases (comes_before t s)) [
    | inl later ↦ rw (insert_session, later) (q, All-insert s list p h)
    | inr here ↦ rw (insert_session, here) (p, (q, h))
  ]

  All-sort : (list : List LiveSession) → All P list → All P (sort_sessions list)
  unfolding sort_sessions
  All-sort [] h = tt
  All-sort (s ∷ list) (p, h) = All-insert s (sort_sessions list) p (All-sort list h)

both_none : (a b : Option StateError) → a ≡ none → b ≡ none → first_error a b ≡ none
both_none a b p q = rw (p, q) refl

module _ (sessions : Sessions) (rooms : Rooms) (agree : Agree sessions rooms)
    (ascending : IsAscending sessions) (ascending_rooms : IsAscending rooms) where
  abbrev pub list : List LiveSession
  list = non_closed (values sessions)

  stored : Stored sessions sessions
  stored = Stored-self sessions ascending

  single : has_multiple list ≡ false
  unfolding has_multiple
  single =
      any_none list list
        (λ room_id. one_of_room sessions rooms agree room_id sessions ascending stored)

  row_of :
      (s : LiveSession)
      → Listed sessions rooms agree s
      → (room : RoomState) × (get rooms s.room_id ≡ some room)
        × Passed s.id s.lifecycle room.lifecycle
  row_of s l =
      let fits = (subst (λ o. SessionFits s.id o rooms) l.stored (agree.session s.id)).1 in
      row_passes s.id s.lifecycle (get rooms s.room_id) l.unclosed fits

  owner_found :
      (room_id id : ℕ) (o : Option LiveSession)
      → get sessions id ≡ o
      → IsOwner room_id o
      → check_named room_id (find (λ s. s.id == id) list) ≡ none
  owner_found room_id id none e h = absurd h
  owner_found room_id id (some s) e (same, open_s) =
      let matches : (s.room_id == room_id) ≡ true = (==_iff _ _).1 same in
      subst (λ f. check_named room_id f ≡ none)
        (sym (find-non_closed sessions rooms agree id s sessions stored e open_s)) (rw matches refl)

  named_passes :
      (room_id : ℕ) (named : Option Uuid)
      → NamedFits room_id named sessions
      → check_room list room_id named ≡ none
  unfolding check_room
  named_passes room_id none h = refl
  named_passes room_id (some id) h = owner_found room_id id (get sessions id) refl h

  rooms_pass : (part : Rooms) → Stored rooms part → check_rooms list part ≡ none
  unfolding check_rooms
  rooms_pass [] h = refl
  rooms_pass ((room_id, room) ∷ part) (e, h) =
      both_none _ _
        (named_passes room_id (room_session_id room.lifecycle)
          (subst (λ o. RoomFits room_id o sessions) e (agree.room room_id)))
        (rooms_pass part h)

  row_check :
      (s : LiveSession)
      → Listed sessions rooms agree s
      → check_row s.id (get rooms s.room_id) ≡ none
  unfolding check_row
  row_check s l = let (room, e, p) = row_of s l in rw e p.0

  sessions_pass :
      (part : List LiveSession)
      → All (Listed sessions rooms agree) part
      → check_sessions part rooms ≡ none
  unfolding check_sessions
  sessions_pass [] h = refl
  sessions_pass (s ∷ part) (l, h) = both_none _ _ (row_check s l) (sessions_pass part h)

  listed : All (Listed sessions rooms agree) list
  listed = non_closed-Listed sessions rooms agree sessions stored

  no_conflict : detect_hard_conflicts list rooms ≡ none
  unfolding detect_hard_conflicts
  no_conflict =
      rw (detect_hard_conflicts, single)
        (both_none _ _ (rooms_pass rooms (Stored-self rooms ascending_rooms))
          (sessions_pass list listed))

  exact : (s : LiveSession) → Listed sessions rooms agree s → is_exact s rooms ≡ true
  unfolding is_exact
  exact s l = let (room, e, p) = row_of s l in rw (is_exact, e) p.1

  no_repair :
      (part : List LiveSession)
      → All (Listed sessions rooms agree) part
      → repair_all part rooms ≡ pure []
  unfolding repair_all
  no_repair [] h = refl
  no_repair (s ∷ part) (l, h) = rw (repair_all, exact s l) (no_repair part h)

-- In a store in which sessions and rooms agree, and whose tables are in key order, the audit finds
-- no conflict, repairs nothing and changes nothing.
pub audit-passes :
    (env : Env) (db : Db)
    → Agree db.sessions db.room_states
    → IsAscending db.sessions
    → IsAscending db.room_states
    → audit env db ≡ (ok [], db)
unfolding audit ◌>>=◌ pure
audit-passes env db agree sessions rooms =
    rw
      (
        no_conflict db.sessions db.room_states agree sessions rooms,
        no_repair db.sessions db.room_states agree sessions rooms
            (sort_sessions (list db.sessions db.room_states agree sessions rooms))
            (All-sort (Listed db.sessions db.room_states agree)
              (list db.sessions db.room_states agree sessions rooms)
              (listed db.sessions db.room_states agree sessions rooms)),
      )
      refl
