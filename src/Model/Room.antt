-- ===== src/Model/Room.antt =====
-- src/state/model.rs: the durable state of a room.
use bilive_rec.Prelude.{ℕ, String, Bool, false, ◌==◌, Option, none, some, true}

pub data RoomLifecycle : Type 0 where
  ready : RoomLifecycle
  owned blocked : ℕ → RoomLifecycle

pub record RoomState : Type 0 where
  pub lifecycle : RoomLifecycle
  pub changed_at : ℕ
  pub message : Option String

unfoldable pub room_session_id : RoomLifecycle → Option ℕ
room_session_id RoomLifecycle.ready = none
room_session_id (RoomLifecycle.owned session_id) = some session_id
room_session_id (RoomLifecycle.blocked session_id) = some session_id

-- The derived `PartialEq`.
unfoldable pub room_lifecycle_eq : RoomLifecycle → RoomLifecycle → Bool
room_lifecycle_eq RoomLifecycle.ready RoomLifecycle.ready = true
room_lifecycle_eq (RoomLifecycle.owned s) (RoomLifecycle.owned t) = s == t
room_lifecycle_eq (RoomLifecycle.blocked s) (RoomLifecycle.blocked t) = s == t
room_lifecycle_eq _ _ = false
