-- ===== src/Audit/Ownership.antt =====
-- src/state/ownership.rs, function by function.
use bilive_rec.Prelude.{
  ℕ, String, Bool, false, not, ◌&&◌, ◌||◌, Option, none, some, List, [], ◌∷◌, any, find, keep,
  count_where, ◌==◌, ltb, decimal, ◌<>◌, if◌then◌else◌,
}
use bilive_rec.Errors.{
  StateError, multiple_non_closed_sessions, room_points_to_missing_session,
  session_belongs_to_another_room, room_points_to_another_session,
}
use bilive_rec.Model.{Uuid}
use bilive_rec.Model.Session.{LiveSession, SessionLifecycle, is_closed}
use bilive_rec.Model.Room.{RoomState, RoomLifecycle, room_session_id}
use bilive_rec.Store.Table.{Table, get, values}
use bilive_rec.Store.Keys.{id_key}
use bilive_rec.Store.Txn.{Txn, pure, raise, asks, gets, ◌>>=◌, ◌>>◌}
use bilive_rec.Transitions.Sessions.{require_recovery}

abbrev Rooms : Type 0
Rooms = Table ℕ RoomState

-- The sessions of a snapshot that are not closed.
unfoldable pub non_closed : List LiveSession → List LiveSession
unfolding keep is_closed
non_closed sessions = keep (λ s. not (is_closed s.lifecycle)) sessions

-- by_room.values().any(|ids| ids.len() > 1): a room's list has the sessions of that room.
unfoldable pub has_multiple : List LiveSession → Bool
unfolding any count_where
has_multiple sessions =
    any (λ s. ltb 1 (count_where (λ t. t.room_id == s.room_id) sessions)) sessions

-- What the second loop says of a room whose row names a session.
abbrev pub check_named : ℕ → Option LiveSession → Option StateError
check_named room_id none = some room_points_to_missing_session
check_named room_id (some session) =
    if session.room_id == room_id then none else some session_belongs_to_another_room

unfoldable pub check_room : List LiveSession → ℕ → Option Uuid → Option StateError
unfolding find
check_room sessions room_id none = none
check_room sessions room_id (some session_id) =
    check_named room_id (find (λ s. s.id == session_id) sessions)

abbrev pub first_error : Option StateError → Option StateError → Option StateError
first_error none rest = rest
first_error (some e) rest = some e

-- The rows are in the order of their keys, as the source sorts them.
unfoldable pub check_rooms : List LiveSession → Rooms → Option StateError
unfolding check_room room_session_id
check_rooms sessions [] = none
check_rooms sessions ((room_id, room) ∷ rooms) =
    first_error (check_room sessions room_id (room_session_id room.lifecycle))
      (check_rooms sessions rooms)

-- The third loop: another owner in the row of a session's room.
abbrev pub check_owner : Uuid → Option Uuid → Option StateError
check_owner id none = none
check_owner id (some owner) = if owner == id then none else some room_points_to_another_session

unfoldable pub check_row : Uuid → Option RoomState → Option StateError
unfolding room_session_id
check_row id none = none
check_row id (some room) = check_owner id (room_session_id room.lifecycle)

unfoldable pub check_sessions : List LiveSession → Rooms → Option StateError
unfolding check_row get
check_sessions [] rooms = none
check_sessions (s ∷ sessions) rooms =
    first_error (check_row s.id (get rooms s.room_id)) (check_sessions sessions rooms)

unfoldable pub detect_hard_conflicts : List LiveSession → Rooms → Option StateError
unfolding has_multiple check_rooms check_sessions
detect_hard_conflicts sessions rooms =
    if has_multiple sessions
    then some multiple_non_closed_sessions
    else first_error (check_rooms sessions rooms) (check_sessions sessions rooms)

-- `exact`
abbrev pub is_exact_for : Uuid → SessionLifecycle → RoomLifecycle → Bool
is_exact_for id SessionLifecycle.opened (RoomLifecycle.owned session_id) = session_id == id
is_exact_for id (SessionLifecycle.recovery_required _ _) (RoomLifecycle.blocked session_id) =
    session_id == id
is_exact_for _ _ _ = false

abbrev pub is_exact_row : LiveSession → Option RoomState → Bool
is_exact_row s none = false
is_exact_row s (some room) = is_exact_for s.id s.lifecycle room.lifecycle

unfoldable pub is_exact : LiveSession → Rooms → Bool
unfolding get
is_exact s rooms = is_exact_row s (get rooms s.room_id)

-- sort_by_key(|session| (session.room_id, session.id)), which keeps the order of equal keys.
abbrev pub comes_before : LiveSession → LiveSession → Bool
comes_before s t = ltb s.room_id t.room_id || (s.room_id == t.room_id && ltb s.id t.id)

unfoldable pub insert_session : LiveSession → List LiveSession → List LiveSession
insert_session s [] = s ∷ []
insert_session s (t ∷ sessions) =
    let later = insert_session s sessions in
    if comes_before t s then t ∷ later else s ∷ t ∷ sessions

unfoldable pub sort_sessions : List LiveSession → List LiveSession
unfolding insert_session
sort_sessions [] = []
sort_sessions (s ∷ sessions) = insert_session s (sort_sessions sessions)

abbrev mismatch : String → LiveSession → String
mismatch id_text s =
    "durable ownership mismatch for room " <> decimal s.room_id <> " and session " <> id_text

abbrev repaired : String → LiveSession → String
repaired id_text s =
    "normalized room "
    <> decimal s.room_id
    <> " and session "
    <> id_text
    <> " to RecoveryRequired/Blocked"

-- One session of the loop, then the others, and their repairs.
unfoldable pub repair_all : List LiveSession → Rooms → Txn (List String)
unfolding is_exact require_recovery decimal
repair_all [] rooms = pure []
repair_all (s ∷ sessions) rooms =
    let others = repair_all sessions rooms in
    if is_exact s rooms then others else do
      id_text ← asks (λ env. env.uuid_text s.id)
      require_recovery s.id (mismatch id_text s)
      repairs ← others
      pure (repaired id_text s ∷ repairs)

abbrev pub raise_conflict : Option StateError → Txn (Unit {0})
raise_conflict none = pure tt
raise_conflict (some e) = raise e

unfoldable pub audit : Txn (List String)
unfolding non_closed detect_hard_conflicts sort_sessions repair_all
audit = do
  sessions ← gets (λ t. non_closed (values t.sessions))
  rooms ← gets (λ t. t.room_states)
  raise_conflict (detect_hard_conflicts sessions rooms)
  repair_all (sort_sessions sessions) rooms
