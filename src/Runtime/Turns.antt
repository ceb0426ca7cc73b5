-- ===== src/Runtime/Turns.antt =====
-- src/runtime.rs: what follows a slice, and the selection of a fiber, move the meters by forks and
-- refunds only.
use kryhtajs.Prelude.{
  ℕ, refl, Bool, true, Option, some, List, [], ◌∷◌, ◌++◌, Bool-cases, inl, inr, JsError, Result, ok,
  err, ◌==◌,
}
use kryhtajs.Value.{JsValue}
use kryhtajs.Fiber.{Fiber, FiberId, FiberStatus}
use kryhtajs.Fuel as Fuel
use kryhtajs.Fuel.{Meters, remaining, allowance, charge, set_root_budget}
use kryhtajs.Cekh.Run.{Outcome}
use kryhtajs.Runtime.State.{Runtime, EffectResult, PendingCall, and_then}
use kryhtajs.Runtime.Fibers.{is_ready, find_fiber, select_from, select_found, set_status}
use kryhtajs.Runtime.Effects.{WriteSnapshot, collect_if_due}
use kryhtajs.Runtime.Schedule as Schedule
use kryhtajs.Runtime.Schedule.{
  Round, again, ended, Rounds, leave, leave_current, paused, pending_or_done, fail_or_end,
  queue_back, after_effect, after_outcome, charged, after_run, out_of_fuel_round, slice_with,
  selected, round_at, round, next_round, run_scheduler, pending_calls,
}
use kryhtajs.Runtime.Moves.{
  Moves, MovesIf, MovesIn, stays, itself, and_then-MovesIn, then-MovesIn, first_then,
  IsMetered-update,
}
use kryhtajs.Runtime.Quiet.{
  same_fibers, save-Moves, complete-Moves, fail-Moves, collect_if_due-Moves,
}
use kryhtajs.Runtime.Handled.{after, handle_effect-Moves}

abbrev pub runtime_of : Round → Runtime
runtime_of (again main rt) = rt
runtime_of (ended o rt) = rt

abbrev pub MovesRound : Runtime → Rounds → Type 0
MovesRound = MovesIn runtime_of

left-Moves : (rt : Runtime) → Moves rt (leave_current rt)
left-Moves rt = same_fibers rt (leave_current rt) refl refl refl refl

leave-Moves :
    (main : JsValue) (rt : Runtime) (o : Option Runtime)
    → MovesIf rt o
    → MovesRound rt (leave main o)
leave-Moves main rt o m = then-MovesIn itself runtime_of rt o _ m left-Moves

pub fail_or_end-Moves :
    (main : JsValue) (e : JsError) (rt : Runtime) → MovesRound rt (fail_or_end main e rt)
unfolding fail_or_end
fail_or_end-Moves main e rt = elim (Bool-cases (Schedule.is_root rt.current)) [
  | inl root ↦ rw (fail_or_end, root) (same_fibers rt rt refl refl refl refl)
  | inr child ↦ rw (fail_or_end, child) (leave-Moves main rt _ (fail-Moves e rt))
]

queue_back-Moves : (main : JsValue) (rt : Runtime) → MovesRound rt (queue_back main rt)
unfolding queue_back
queue_back-Moves main rt = then-MovesIn itself runtime_of rt _ _ (save-Moves rt) λ rt'.
    and_then-MovesIn runtime_of rt' rt'.current _ λ id.
      let q : Runtime = record (leave_current rt') { ready_queue = rt'.ready_queue ++ id ∷ [] } in
      first_then runtime_of rt' q (and_then (collect_if_due q) (λ rt''. some (again main rt'')))
        (same_fibers rt' q refl refl refl refl)
        (then-MovesIn itself runtime_of q (collect_if_due q) (λ rt''. some (again main rt''))
          (collect_if_due-Moves q) (λ rt''. same_fibers rt'' rt'' refl refl refl refl))

after_effect-Moves :
    (main : JsValue) (r : Runtime × Result EffectResult)
    → MovesRound (after r) (after_effect main r)
unfolding after_effect
after_effect-Moves main (rt, ok EffectResult.resume) = same_fibers rt rt refl refl refl refl
after_effect-Moves main (rt, ok EffectResult.block) = left-Moves rt
after_effect-Moves main (rt, ok (EffectResult.spawned id)) = same_fibers rt _ refl refl refl refl
after_effect-Moves main (rt, err e) = fail_or_end-Moves main e rt

pub after_outcome-Moves :
    (write : WriteSnapshot) (main : JsValue) (o : Outcome) (rt : Runtime)
    → MovesRound rt (after_outcome write main o rt)
unfolding after_outcome
after_outcome-Moves write main (Outcome.finished v) rt = leave-Moves _ rt _ (complete-Moves v rt)
after_outcome-Moves write main (Outcome.suspended effect args) rt =
    then-MovesIn after runtime_of rt _ _ (handle_effect-Moves write effect args rt)
      (after_effect-Moves main)
after_outcome-Moves write main Outcome.preempted rt = queue_back-Moves main rt

pub out_of_fuel-Moves :
    (main : JsValue) (meter : ℕ) (rt : Runtime) → MovesRound rt (out_of_fuel_round main meter rt)
unfolding out_of_fuel_round
out_of_fuel-Moves main meter rt = elim (Bool-cases (meter == Fuel.root)) [
  | inl root ↦
      rw (out_of_fuel_round, root)
        (then-MovesIn itself runtime_of rt _ paused (save-Moves rt) (λ rt'.
          and_then-MovesIn runtime_of rt' rt'.current _
            (λ id. same_fibers rt' _ refl refl refl refl)))
  | inr child ↦ rw (out_of_fuel_round, child) (leave-Moves main rt _ (fail-Moves _ rt))
]

pub pending_or_done-Moves :
    (calls : List PendingCall) (main : JsValue) (rt : Runtime)
    → MovesRound rt (pending_or_done calls main rt)
pending_or_done-Moves [] main rt = same_fibers rt rt refl refl refl refl
pending_or_done-Moves (c ∷ calls) main rt = same_fibers rt rt refl refl refl refl

abbrev pub picked : Runtime × Bool → Runtime
picked (rt, b) = rt

select_found-Moves :
    (f : Fiber) (id : FiberId) (rest : List FiberId) (rt : Runtime)
    → MovesIf rt (select_found f id rest rt)
select_found-Moves f id rest rt = elim (Bool-cases (is_ready f.status)) [
  | inl ready ↦
      rw (select_found, ready)
        (stays rt _ refl refl refl
          (IsMetered-update rt.meters (set_status FiberStatus.running) id rt.fibers (λ f. refl)))
  | inr busy ↦ rw (select_found, busy) tt
]

pub select-Moves : (queue : List FiberId) (rt : Runtime) → MovesIn picked rt (select_from queue rt)
select-Moves [] rt = same_fibers rt rt refl refl refl refl
select-Moves (id ∷ rest) rt = and_then-MovesIn picked rt (find_fiber id rt.fibers) _ λ f.
    then-MovesIn itself picked rt (select_found f id rest rt) (λ rt'. some (rt', true))
      (select_found-Moves f id rest rt) (λ rt'. same_fibers rt' rt' refl refl refl refl)
