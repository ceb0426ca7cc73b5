-- ===== src/Examples/Meters.antt =====
-- src/fuel.rs: a root meter, one fork and a refund.
use kryhtajs.Prelude.{◌≡◌, ◌≤◌, ◌+◌, refl, arith, none, some, [], ◌∷◌, get_elem?}
use kryhtajs.Fuel.{
  Meter, Meters, new, set_root_budget, carve, charge, remaining, allowance, refund_into_parent,
}
use kryhtajs.Fuel.Carve.{get_elem?-refund, refund_idempotent}
use kryhtajs.Fuel.Conservation.{
  Spends, stop, slice, fork, refund, total, Spends-bounded, budget_bounds_steps,
}

abbrev root_meter : Meter
root_meter = record { remaining = some 10; parent = none }

abbrev child_meter : Meter
child_meter = record { remaining = some 4; parent = some 0 }

-- The root of 10 after a fork of 4.
abbrev forked : Meters
forked = record { remaining = some 6; parent = none } ∷ child_meter ∷ []

-- The child has run 3 of its 4 steps and gives the last one back.
abbrev refunded : Meters
refunded =
    record { remaining = some 7; parent = none }
    ∷ record { remaining = some 0; parent = some 0 }
    ∷ []

-- A fork of 4, a slice of 3 steps of the child, and its refund.
history : Spends 100 refunded (set_root_budget new (some 10)) 3
unfolding carve remaining charge allowance refund_into_parent set_root_budget new
history =
    fork 0 4 1 forked (omega arith) refl
      (slice 1 3 4 (omega arith) refl (omega arith) (refund 1 stop))

budget_bounds_steps_example : 3 ≤ 10
budget_bounds_steps_example =
    budget_bounds_steps {quantum = 100} {n = 3} {budget = 10} {last = refunded} history

Spends-bounded_example : total refunded + 3 ≤ total (set_root_budget new (some 10))
unfolding set_root_budget new
Spends-bounded_example = Spends-bounded {quantum = 100} {last = refunded} ((10, refl), tt) history

get_elem?-refund_example : get_elem? (refund_into_parent forked 1) 0 ≡ some root_meter
get_elem?-refund_example =
    get_elem?-refund forked 1 0 child_meter (record root_meter { remaining = some 6 }) 6 refl refl
      refl refl (λ e. omega arith) 0

refund_idempotent_example :
    get_elem? (refund_into_parent (refund_into_parent forked 1) 1) 0
    ≡ get_elem? (refund_into_parent forked 1) 0
refund_idempotent_example =
    refund_idempotent forked 1 0 child_meter (record root_meter { remaining = some 6 }) 6 refl refl
      refl refl (λ e. omega arith) 0
