-- ===== src/Snapshot.antt =====
-- src/snapshot.rs: the codec of a checkpoint.
pub mod Bytes
pub mod Words
pub mod Values
pub mod Ops
pub mod Konts
pub mod Exprs
pub mod Stmts
pub mod Patterns
pub mod Controls
pub mod Stores
pub mod Strings
pub mod Trees
pub mod Objects
