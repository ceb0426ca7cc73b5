-- ===== src/Runtime/Schedule.antt =====
-- src/runtime.rs: `run_scheduler`, round by round, and the entries to it.
use kryhtajs.Prelude.{
  ℕ, zero, suc, ◌+◌, ◌%◌, ◌^◌, Bool, true, false, Option, none, some, List, [], ◌∷◌, ◌++◌, ◌==◌,
  if◌then◌else◌, ascii, JsError, message, Result, ok, err,
}
use kryhtajs.Value.{JsValue}
use kryhtajs.Ast.{AstArena}
use kryhtajs.Fiber.{Fiber, FiberId, FiberStatus}
use kryhtajs.Floats.{Floats}
use kryhtajs.Fuel as Fuel
use kryhtajs.Fuel.{remaining, charge, allowance, set_root_budget}
use kryhtajs.Host.{name_of}
use kryhtajs.Cekh.State.{Cekh}
use kryhtajs.Cekh.Run.{Outcome, Ran, stopped, failed, run}
use kryhtajs.Runtime.State.{Runtime, EffectResult, RunOutcome, PendingCall, and_then}
use kryhtajs.Runtime.Fibers.{select_next_fiber, current_fiber_meter, save_current_fiber_state}
use kryhtajs.Runtime.Joins.{complete_current_fiber, fail_current_fiber}
use kryhtajs.Runtime.Effects.{WriteSnapshot, with_control, collect_if_due, handle_effect}

abbrev pending_call : Cekh → Fiber → List PendingCall
pending_call m f = elim f.status [
  | FiberStatus.blocked_on_host effect args ↦
      record { id = f.id; effect = name_of m effect; args = args } ∷ []
  | _ ↦ []
]

unfoldable pub pending_calls : Cekh → List Fiber → List PendingCall
pending_calls m [] = []
pending_calls m (f ∷ fs) = pending_call m f ++ pending_calls m fs

abbrev completed_value : Fiber → Option JsValue
completed_value f = elim f.status [ FiberStatus.completed v ↦ some v | _ ↦ none ]

-- The result of the root fiber, where it is recorded.
unfoldable pub root_result : List Fiber → Option JsValue
root_result [] = none
root_result (f ∷ fs) =
    let rest = root_result fs in
    if f.id == 0 then elim (completed_value f) [ none ↦ rest | some v ↦ some v ] else rest

-- Where a round leads: to the next with the value of the root so far, or to the end.
pub data Round : Type 0 where
  again : JsValue → Runtime → Round
  ended : Result RunOutcome → Runtime → Round

abbrev pub Rounds : Type 0
Rounds = Option Round

-- `self.current = None`
abbrev pub leave_current : Runtime → Runtime
leave_current rt = record rt { current = none }

abbrev pub leave : JsValue → Option Runtime → Rounds
leave main o = and_then o λ rt. some (again main (leave_current rt))

abbrev pub is_root : Option FiberId → Bool
is_root none = false
is_root (some id) = id == 0

-- The root's failure is the program's; another fiber's is contained.
unfoldable pub fail_or_end : JsValue → JsError → Runtime → Rounds
unfolding fail_current_fiber
fail_or_end main e rt =
    if is_root rt.current then some (ended (err e) rt) else leave main (fail_current_fiber e rt)

-- The fiber goes to the back of the queue, and a collection may follow.
unfoldable pub queue_back : JsValue → Runtime → Rounds
unfolding save_current_fiber_state collect_if_due
queue_back main rt = and_then (save_current_fiber_state rt) λ rt'. and_then rt'.current λ id.
    and_then
      (collect_if_due (record (leave_current rt') { ready_queue = rt'.ready_queue ++ id ∷ [] }))
      λ rt''. some (again main rt'')

unfoldable pub after_effect : JsValue → Runtime × Result EffectResult → Rounds
unfolding fail_or_end
after_effect main (rt, ok EffectResult.resume) = some (again main rt)
after_effect main (rt, ok EffectResult.block) = some (again main (leave_current rt))
after_effect main (rt, ok (EffectResult.spawned id)) =
    some (again main (with_control (JsValue.int id) rt))
after_effect main (rt, err e) = fail_or_end main e rt

unfoldable pub after_outcome : WriteSnapshot → JsValue → Outcome → Runtime → Rounds
unfolding complete_current_fiber after_effect handle_effect queue_back
after_outcome write main (Outcome.finished v) rt =
    leave (if is_root rt.current then v else main) (complete_current_fiber v rt)
after_outcome write main (Outcome.suspended effect args) rt =
    and_then (handle_effect write effect args rt) (after_effect main)
after_outcome write main Outcome.preempted rt = queue_back main rt

-- The slice's steps are charged to the fiber's meter.
unfoldable pub charged : ℕ → ℕ → Cekh → Runtime → Runtime
unfolding charge
charged meter spent m rt = record rt {
  interpreter = m;
  meters = charge rt.meters meter spent;
  steps_total = (rt.steps_total + spent) % 2 ^ 64;
}

unfoldable pub after_run : WriteSnapshot → JsValue → ℕ → Ran → Runtime → Rounds
unfolding after_outcome charged fail_or_end
after_run write main meter (stopped outcome spent m) rt =
    after_outcome write main outcome (charged meter spent m rt)
after_run write main meter (failed e spent m) rt = fail_or_end main e (charged meter spent m rt)

-- The root's meter is empty: the run pauses, with the fiber at the front of the queue.
abbrev pub paused : Runtime → Rounds
paused rt = and_then rt.current λ id. some (
    ended (ok (RunOutcome.out_of_fuel rt.steps_total))
      (record (leave_current rt) { ready_queue = id ∷ rt.ready_queue }))

unfoldable pub out_of_fuel_round : JsValue → ℕ → Runtime → Rounds
unfolding save_current_fiber_state fail_current_fiber
out_of_fuel_round main meter rt =
    if meter == Fuel.root
    then and_then (save_current_fiber_state rt) paused
    else leave main (fail_current_fiber (message (ascii "out_of_fuel")) rt)

abbrev pub pending_or_done : List PendingCall → JsValue → Runtime → Rounds
pending_or_done (c ∷ calls) main rt = some (ended (ok (RunOutcome.pending (c ∷ calls))) rt)
pending_or_done [] main rt =
    some
      (ended (ok (RunOutcome.done (elim (root_result rt.fibers) [ none ↦ main | some v ↦ v ]))) rt)

abbrev pub next_round : (JsValue → Runtime → Rounds) → Round → Rounds
next_round continue (ended o rt) = some (ended o rt)
next_round continue (again main rt) = continue main rt

module _ ⦃fl : Floats⦄ (write : WriteSnapshot) (ast : AstArena) where
  abbrev pub slice_with : Option ℕ → JsValue → ℕ → Runtime → Rounds
  slice_with none main meter rt = out_of_fuel_round main meter rt
  slice_with (some bound) main meter rt =
      and_then (run ast bound rt.interpreter) λ r. after_run write main meter r rt

  -- The current fiber's slice.
  unfoldable pub slice : JsValue → Runtime → Rounds
  unfolding current_fiber_meter allowance remaining run after_run out_of_fuel_round
  slice main rt =
      and_then (current_fiber_meter rt)
        λ meter. slice_with (allowance rt.quantum (remaining rt.meters meter)) main meter rt

  abbrev pub selected : JsValue → Runtime × Bool → Rounds
  selected main (rt, true) = slice main rt
  selected main (rt, false) = pending_or_done (pending_calls rt.interpreter rt.fibers) main rt

  abbrev pub round_at : Option FiberId → JsValue → Runtime → Rounds
  round_at none main rt = and_then (select_next_fiber rt) (selected main)
  round_at (some id) main rt = slice main rt

  -- A round of the loop; `none` where the source panics or does not return.
  unfoldable pub round : JsValue → Runtime → Rounds
  unfolding slice select_next_fiber pending_calls root_result
  round main rt = round_at rt.current main rt

  -- So many rounds at most.
  unfoldable pub run_scheduler : ℕ → JsValue → Runtime → Rounds
  unfolding round
  run_scheduler zero main rt = some (again main rt)
  run_scheduler (suc n) main rt = and_then (round main rt) (next_round (run_scheduler n))
