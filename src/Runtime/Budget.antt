-- ===== src/Runtime/Budget.antt =====
-- src/runtime.rs: the rounds of the scheduler are a history of src/fuel.rs, so that a finite budget
-- bounds the steps of the whole run.
use kryhtajs.Prelude.{
  ℕ, zero, suc, ◌+◌, ◌%◌, ◌<◌, ◌≤◌, ◌^◌, ◌≡◌, refl, sym, ◌∙◌, subst, Bool, true, false, Option,
  none, some, length, Option-cases, inl, inr, arith,
}
use kryhtajs.Value.{JsValue}
use kryhtajs.Ast.{AstArena}
use kryhtajs.Floats.{Floats}
use kryhtajs.Fuel as Fuel
use kryhtajs.Fuel.{Meters, remaining, allowance, charge, set_root_budget}
use kryhtajs.Fuel.Conservation.{Spends, budget_bounds_steps}
use kryhtajs.Cekh.State.{Cekh}
use kryhtajs.Cekh.Run.{Ran, stopped, failed, run}
use kryhtajs.Cekh.Run.Slices.{run-within, steps_of}
use kryhtajs.Runtime.State.{Runtime, and_then}
use kryhtajs.Runtime.Fibers.{select_next_fiber, current_fiber_meter}
use kryhtajs.Runtime.Effects.{WriteSnapshot}
use kryhtajs.Runtime.Schedule.{
  Round, again, ended, Rounds, charged, after_run, slice_with, slice, selected, round_at, round,
  next_round, run_scheduler, pending_calls,
}
use kryhtajs.Runtime.Entry.{fresh_run}
use kryhtajs.Runtime.Moves.{IsMetered, Moved, MovesIn, length-charge}
use kryhtajs.Runtime.Quiet.{same_fibers}
use kryhtajs.Runtime.Handled.{current_meter-lt}
use kryhtajs.Runtime.Turns.{
  runtime_of, picked, after_outcome-Moves, fail_or_end-Moves, out_of_fuel-Moves,
  pending_or_done-Moves, select-Moves,
}

-- Operations that take `steps` steps.
record Advanced (rt rt' : Runtime) : Type 0 where
  steps : ℕ
  metered : IsMetered rt'.meters rt'.fibers
  history :
      (last : Meters) (n : ℕ)
      → Spends rt.quantum last rt'.meters n
      → Spends rt.quantum last rt.meters (steps + n)
  same_quantum : rt'.quantum ≡ rt.quantum
  total : rt'.steps_total % 2 ^ 64 ≡ (rt.steps_total + steps) % 2 ^ 64
  in_range : rt.steps_total < 2 ^ 64 → rt'.steps_total < 2 ^ 64

abbrev AdvancedIn : {B : Type 0} → (B → Runtime) → Runtime → Option B → Type 0
AdvancedIn of rt none = Unit
AdvancedIn of rt (some b) = Advanced rt (of b)

quiet : (a b : Runtime) → Moved a b → Advanced a b
quiet a b m = record {
  steps = 0;
  metered = m.metered;
  history =
      λ last n h. subst (λ k. Spends a.quantum last a.meters k) (omega arith) (m.history last n h);
  same_quantum = m.same_quantum;
  total = omega (arith, m.same_steps);
  in_range = λ lt. omega (arith, m.same_steps);
}

Advanced-trans : (a b c : Runtime) → Advanced a b → Advanced b c → Advanced a c
Advanced-trans a b c p q = record {
  steps = p.steps + q.steps;
  metered = q.metered;
  history = λ last n h.
      subst (λ k. Spends a.quantum last a.meters k) (omega arith)
        (p.history last (q.steps + n) (
          subst (λ k. Spends k last b.meters (q.steps + n)) p.same_quantum
            (q.history last n (subst (λ k. Spends k last c.meters n) (sym p.same_quantum) h))));
  same_quantum = q.same_quantum ∙ p.same_quantum;
  total = omega (arith, p.total, q.total);
  in_range = λ lt. q.in_range (p.in_range lt);
}

then_quiet :
    {B : Type 0} (of : B → Runtime) (a b : Runtime) (o : Option B)
    → Advanced a b
    → MovesIn of b o
    → AdvancedIn of a o
then_quiet of a b none p m = tt
then_quiet of a b (some c) p m = Advanced-trans a b (of c) p (quiet b (of c) (m p.metered))

after_advance :
    {B : Type 0} (of : B → Runtime) (a b : Runtime) (o : Option B)
    → Advanced a b
    → AdvancedIn of b o
    → AdvancedIn of a o
after_advance of a b none p q = tt
after_advance of a b (some c) p q = Advanced-trans a b (of c) p q

unmoved : (rt : Runtime) → IsMetered rt.meters rt.fibers → Advanced rt rt
unmoved rt w = quiet rt rt (same_fibers rt rt refl refl refl refl w)

-- The steps of a slice are charged.
charged-Advanced :
    (meter spent bound : ℕ) (m : Cekh) (rt : Runtime)
    → IsMetered rt.meters rt.fibers
    → meter < length rt.meters
    → allowance rt.quantum (remaining rt.meters meter) ≡ some bound
    → spent ≤ bound
    → Advanced rt (charged meter spent m rt)
unfolding charged
charged-Advanced meter spent bound m rt w lt h le = record {
  steps = spent;
  metered = rw (length-charge rt.meters meter spent) w;
  history = λ last n s. Spends.slice meter spent bound lt h le s;
  same_quantum = refl;
  total = omega arith;
  in_range = λ small. omega arith;
}

quietly :
    {B : Type 0} (of : B → Runtime) (rt : Runtime) (o : Option B)
    → IsMetered rt.meters rt.fibers
    → MovesIn of rt o
    → AdvancedIn of rt o
quietly of rt none w m = tt
quietly of rt (some c) w m = quiet rt (of c) (m w)

after_run-Advanced :
    (write : WriteSnapshot) (main : JsValue) (meter bound : ℕ) (r : Ran) (rt : Runtime)
    → IsMetered rt.meters rt.fibers
    → meter < length rt.meters
    → allowance rt.quantum (remaining rt.meters meter) ≡ some bound
    → steps_of r ≤ bound
    → AdvancedIn runtime_of rt (after_run write main meter r rt)
unfolding after_run
after_run-Advanced write main meter bound (stopped o spent m) rt w lt h le =
    then_quiet runtime_of rt (charged meter spent m rt) _
      (charged-Advanced meter spent bound m rt w lt h le)
      (after_outcome-Moves write main o (charged meter spent m rt))
after_run-Advanced write main meter bound (failed e spent m) rt w lt h le =
    then_quiet runtime_of rt (charged meter spent m rt) _
      (charged-Advanced meter spent bound m rt w lt h le)
      (fail_or_end-Moves main e (charged meter spent m rt))

followed :
    (continue : JsValue → Runtime → Rounds) (rt : Runtime) (o : Rounds)
    → ((main : JsValue) (rt' : Runtime)
        → IsMetered rt'.meters rt'.fibers
        → AdvancedIn runtime_of rt' (continue main rt'))
    → AdvancedIn runtime_of rt o
    → AdvancedIn runtime_of rt (and_then o (next_round continue))
followed continue rt none every p = tt
followed continue rt (some (ended o rt')) every p = p
followed continue rt (some (again main rt')) every p =
    after_advance runtime_of rt rt' (continue main rt') p (every main rt' p.metered)

module _ ⦃fl : Floats⦄ (write : WriteSnapshot) (ast : AstArena) where
  slice_with-Advanced :
      (o : Option ℕ) (main : JsValue) (meter : ℕ) (rt : Runtime)
      → IsMetered rt.meters rt.fibers
      → meter < length rt.meters
      → allowance rt.quantum (remaining rt.meters meter) ≡ o
      → AdvancedIn runtime_of rt (slice_with write ast o main meter rt)
  slice_with-Advanced none main meter rt w lt h =
      quietly runtime_of rt _ w (out_of_fuel-Moves main meter rt)
  slice_with-Advanced (some bound) main meter rt w lt h =
      elim (Option-cases (run ast bound rt.interpreter)) [
        | inl e ↦ rw e tt
        | inr (r, e) ↦ rw e (
            after_run-Advanced write main meter bound r rt w lt h
              (run-within ast bound rt.interpreter r e))
      ]

  slice-Advanced :
      (main : JsValue) (rt : Runtime)
      → IsMetered rt.meters rt.fibers
      → AdvancedIn runtime_of rt (slice write ast main rt)
  unfolding slice
  slice-Advanced main rt w = elim (Option-cases (current_fiber_meter rt)) [
    | inl e ↦ rw (slice, e) tt
    | inr (meter, e) ↦
        rw (slice, e)
          (slice_with-Advanced (allowance rt.quantum (remaining rt.meters meter)) main meter rt w
            (current_meter-lt rt meter w e) refl)
  ]

  selected-Advanced :
      (main : JsValue) (r : Runtime × Bool)
      → IsMetered (picked r).meters (picked r).fibers
      → AdvancedIn runtime_of (picked r) (selected write ast main r)
  selected-Advanced main (rt, true) w = slice-Advanced main rt w
  selected-Advanced main (rt, false) w =
      quietly runtime_of rt _ w
        (pending_or_done-Moves (pending_calls rt.interpreter rt.fibers) main rt)

  from_picked :
      (main : JsValue) (rt : Runtime) (o : Option (Runtime × Bool))
      → IsMetered rt.meters rt.fibers
      → MovesIn picked rt o
      → AdvancedIn runtime_of rt (and_then o (selected write ast main))
  from_picked main rt none w m = tt
  from_picked main rt (some r) w m =
      after_advance runtime_of rt (picked r) (selected write ast main r) (quiet rt (picked r) (m w))
        (selected-Advanced main r ((m w).metered))

  round_at-Advanced :
      (current : Option ℕ) (main : JsValue) (rt : Runtime)
      → IsMetered rt.meters rt.fibers
      → AdvancedIn runtime_of rt (round_at write ast current main rt)
  unfolding select_next_fiber
  round_at-Advanced none main rt w =
      from_picked main rt (select_next_fiber rt) w (select-Moves rt.ready_queue rt)
  round_at-Advanced (some id) main rt w = slice-Advanced main rt w

  round-Advanced :
      (main : JsValue) (rt : Runtime)
      → IsMetered rt.meters rt.fibers
      → AdvancedIn runtime_of rt (round write ast main rt)
  unfolding round
  round-Advanced main rt w = round_at-Advanced rt.current main rt w

  scheduler-Advanced :
      (n : ℕ) (main : JsValue) (rt : Runtime)
      → IsMetered rt.meters rt.fibers
      → AdvancedIn runtime_of rt (run_scheduler write ast n main rt)
  unfolding run_scheduler
  scheduler-Advanced zero main rt w = unmoved rt w
  scheduler-Advanced (suc n) main rt w =
      followed (run_scheduler write ast n) rt (round write ast main rt)
        (λ main' rt' w'. scheduler-Advanced n main' rt' w') (round-Advanced main rt w)

  -- From a state whose fibers have meters that are slots, any number of rounds of the scheduler
  -- leads to a state whose meters a history of forks, refunds and slices within their allowances
  -- joins to the first ones; the counter of steps has grown by the steps of these slices, modulo 2
  -- ^ 64, and the fibers' meters are still slots.
  pub run_scheduler-Spends :
      (n : ℕ) (main : JsValue) (rt : Runtime) (r : Round)
      → IsMetered rt.meters rt.fibers
      → run_scheduler write ast n main rt ≡ some r
      → (steps : ℕ) × Spends rt.quantum (runtime_of r).meters rt.meters steps
        × ((runtime_of r).steps_total % 2 ^ 64 ≡ (rt.steps_total + steps) % 2 ^ 64)
        × IsMetered (runtime_of r).meters (runtime_of r).fibers
  run_scheduler-Spends n main rt r w h =
      let p = subst (AdvancedIn runtime_of rt) h (scheduler-Advanced n main rt w) in
      (
        p.steps,
        subst (λ k. Spends rt.quantum (runtime_of r).meters rt.meters k) (omega arith)
            (p.history (runtime_of r).meters 0 Spends.stop),
        p.total,
        p.metered,
      )

  -- When a fresh run starts with a root budget below 2 ^ 64, then after any number of rounds of the
  -- scheduler, whatever fibers are forked, joined and fail, the steps that all fibers took together
  -- are at most the budget.
  pub scheduler_within_budget :
      (n budget : ℕ) (main : JsValue) (rt : Runtime) (r : Round)
      → remaining rt.meters Fuel.root ≡ some budget
      → budget < 2 ^ 64
      → run_scheduler write ast n main (fresh_run ast rt) ≡ some r
      → (runtime_of r).steps_total ≤ budget
  unfolding fresh_run
  scheduler_within_budget n budget main rt r limit small h =
      let p =
        subst (AdvancedIn runtime_of (fresh_run ast rt)) h
          (scheduler-Advanced n main (fresh_run ast rt) (omega arith, tt)) in
      let spends : Spends (fresh_run ast rt).quantum (runtime_of r).meters
          (set_root_budget Fuel.new (some budget)) (p.steps + 0) =
        subst
          (λ o.
            Spends (fresh_run ast rt).quantum (runtime_of r).meters (set_root_budget Fuel.new o)
              (p.steps + 0))
          limit (p.history (runtime_of r).meters 0 Spends.stop) in
      omega (arith, p.total, p.in_range (omega arith), budget_bounds_steps spends)
