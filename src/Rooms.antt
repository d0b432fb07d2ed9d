-- ===== src/Rooms.antt =====
-- Who owns a room: the sessions and the rows of rooms that src/state/transitions.rs writes together.
pub mod Owned
pub mod Rewrites
pub mod Rules
pub mod Claims
pub mod Both
pub mod Sessions
pub mod Closing
pub mod Others
pub mod Reachable
