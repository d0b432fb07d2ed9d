-- ===== src/Store.antt =====
-- src/state/store.rs: the tables (Table, Keys), and transactions over them (Txn).
pub mod Table
pub mod Keys
pub mod Range
pub mod Sorted
pub mod Txn
pub mod Effects
pub mod Scan
