-- ===== src/Cekh.antt =====
-- src/cekh.rs: the machine's state, its walks over the continuation, jumps and effects.
pub mod State
pub mod Walk
pub mod Jumps
pub mod Rebuild
pub mod Perform
pub mod Push
pub mod Exprs
pub mod Stmts
pub mod Coerce
pub mod Operators
pub mod Properties
pub mod Match
pub mod Call
pub mod Frames
pub mod Apply
pub mod Run
