-- ===== src/Runtime/Log.antt =====
-- src/replay.rs: the mode of the log and its events. A log that is recorded is the list of the events
-- that are written, each with the step count at which it is.
use kryhtajs.Prelude.{ℕ, Bool, true, false, Option, List, Text, JsError}
use kryhtajs.Fiber.{HostValue, HostValues}

pub data LogEvent : Type 0 where
  host_answer : ℕ → Text → HostValues → HostValue → LogEvent
  continue : LogEvent
  done : Option HostValue → LogEvent
  refuel : ℕ → LogEvent

-- With the result written or not, where it is recorded.
pub data LogMode : Type 0 where
  off : LogMode
  armed : Text → LogMode
  recording : List (ℕ × LogEvent) → Bool → LogMode
  replaying : LogMode

abbrev pub is_replaying : LogMode → Bool
is_replaying LogMode.replaying = true
is_replaying _ = false

abbrev pub is_frozen : LogMode → Bool
is_frozen (LogMode.recording events finished) = true
is_frozen LogMode.replaying = true
is_frozen _ = false

-- The writing of an event to the file of the log, and the error that it may give.
abbrev pub Append : Type 0
Append = ℕ → LogEvent → Option JsError
