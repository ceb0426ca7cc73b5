-- ===== src/Fuel.antt =====
-- src/fuel.rs: meters with a step budget, carved from a parent at a fork; and the slice allowance
-- that src/runtime.rs takes from them. `None` is an unlimited meter. An index that the source
-- would panic on changes nothing here; the fibers' meters are always slots.
pub mod Conservation
pub mod Carve
use kryhtajs.Prelude.{
  ℕ, ◌+◌, ◌-◌, ◌%◌, ◌^◌, ◌<◌, ◌≡◌, Bool, true, false, Option, none, some, List, [], ◌∷◌, ◌++◌,
  length, get_elem?, set, min, ltb, if◌then◌else◌, Result, ok, err, JsError, message, ascii,
  decimal,
}

pub record Meter : Type 0 where
  pub remaining : Option ℕ
  pub parent : Option ℕ

abbrev pub Meters : Type 0
Meters = List Meter

abbrev pub root : ℕ
root = 0

abbrev pub u64_max : ℕ
u64_max = 2 ^ 64 - 1

unfoldable pub new : Meters
new = record { remaining = none; parent = none } ∷ []

abbrev remaining_of : Option Meter → Option ℕ
remaining_of none = none
remaining_of (some s) = s.remaining

unfoldable pub remaining : Meters → ℕ → Option ℕ
remaining m id = remaining_of (get_elem? m id)

-- `if let Some(rem) = &mut self.slots[id].remaining { *rem = f(*rem) }`
abbrev pub update_slot : (ℕ → ℕ) → Meters → ℕ → Option Meter → Meters
update_slot f m id none = m
update_slot f m id (some s) = elim s.remaining [
  | none ↦ m
  | some rem ↦ set m id (record s { remaining = some (f rem) })
]

unfoldable pub set_root_budget : Meters → Option ℕ → Meters
set_root_budget [] budget = []
set_root_budget (s ∷ slots) budget = record s { remaining = budget } ∷ slots

unfoldable pub charge : Meters → ℕ → ℕ → Meters
charge m id spent = update_slot (λ rem. rem - spent) m id (get_elem? m id)

unfoldable pub add : Meters → ℕ → ℕ → Meters
add m id amount = update_slot (λ rem. min (rem + amount) u64_max) m id (get_elem? m id)

pub insufficient : ℕ → ℕ → JsError
insufficient amount rem = message (
    ascii "Fork: insufficient fuel (requested "
    ++ (decimal amount ++ (ascii ", remaining " ++ (decimal rem ++ ascii ")"))))

-- The tail of `carve`: a fresh slot at the end.
abbrev push_child : ℕ → ℕ → Meters → Meters × ℕ
push_child from amount m =
    (m ++ record { remaining = some amount; parent = some from } ∷ [], length m % 2 ^ 32)

unfoldable carve_from : Option ℕ → Meters → ℕ → ℕ → Result (Meters × ℕ)
carve_from none m from amount = ok (push_child from amount m)
carve_from (some rem) m from amount =
    if ltb rem amount
    then err (insufficient amount rem)
    else ok (push_child from amount (update_slot (λ r. r - amount) m from (get_elem? m from)))

unfoldable pub carve : Meters → ℕ → ℕ → Result (Meters × ℕ)
unfolding carve_from remaining
carve m from amount = carve_from (remaining m from) m from amount

-- `remaining.take().unwrap_or(0)`
abbrev pub or_zero : Option ℕ → ℕ
or_zero none = 0
or_zero (some n) = n

abbrev pub refund_slot : Meters → ℕ → Meter → Option ℕ → Meters
refund_slot m id s none = m
refund_slot m id s (some parent) =
    update_slot (λ rem. min (rem + or_zero s.remaining) u64_max)
      (set m id (record s { remaining = some 0 })) parent
      (get_elem? (set m id (record s { remaining = some 0 })) parent)

abbrev refund_found : Meters → ℕ → Option Meter → Meters
refund_found m id none = m
refund_found m id (some s) = refund_slot m id s s.parent

unfoldable pub refund_into_parent : Meters → ℕ → Meters
refund_into_parent m id = refund_found m id (get_elem? m id)

-- The allowance of a slice in `run_scheduler`; `none` where the meter is empty, and the run pauses
-- or the fiber fails instead.
unfoldable pub allowance : ℕ → Option ℕ → Option ℕ
allowance quantum none = some quantum
allowance quantum (some rem) = if ltb 0 rem then some (min quantum rem) else none
