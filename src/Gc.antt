-- ===== src/Gc.antt =====
-- src/gc.rs: the collector marks what it reaches from the roots with a work list, then sweeps.
pub mod Items
pub mod Trace
pub mod Collect
pub mod Reach
pub mod Visit
pub mod Invariant
pub mod Advance
pub mod Arenas
pub mod Reached
pub mod Rounds
