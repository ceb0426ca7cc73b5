-- ===== src/Runtime.antt =====
-- src/runtime.rs: the runtime's state, its fibers, the effects it handles, and the scheduler. The log
-- of src/replay.rs is off.
pub mod Log
pub mod State
pub mod Fibers
pub mod Joins
pub mod Effects
pub mod Schedule
pub mod Entry
pub mod Moves
pub mod Quiet
pub mod Handled
pub mod Turns
pub mod Budget
