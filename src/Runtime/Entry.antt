-- ===== src/Runtime/Entry.antt =====
-- src/runtime.rs: the entries to the scheduler and the answers of the host.
use kryhtajs.Prelude.{
  ℕ, Bool, true, false, Option, none, some, List, [], ◌∷◌, ◌++◌, ◌==◌, if◌then◌else◌, Text, ascii,
  decimal, message, Result, ok, err,
}
use kryhtajs.Value.{JsValue}
use kryhtajs.Ast.{AstArena}
use kryhtajs.Fiber.{Fiber, FiberId, FiberStatus, HostValue}
use kryhtajs.Floats.{Floats}
use kryhtajs.Fuel as Fuel
use kryhtajs.Fuel.{remaining, set_root_budget}
use kryhtajs.Host.{name_of, to_host_value, from_host_value}
use kryhtajs.Cekh.State.{Cekh}
use kryhtajs.Cekh.Run.{fresh_exec_setup}
use kryhtajs.Runtime.Log.{LogEvent, LogMode, Append, is_replaying}
use kryhtajs.Runtime.State.{Runtime, RunOutcome, and_then, logged}
use kryhtajs.Runtime.Fibers.{unblock_fiber}
use kryhtajs.Runtime.Effects.{WriteSnapshot}
use kryhtajs.Runtime.Schedule.{Round, again, ended, Rounds, run_scheduler}

-- A fresh run: a root fiber, and meters with what the root's budget has left.
unfoldable pub fresh_run : AstArena → Runtime → Runtime
unfolding fresh_exec_setup set_root_budget remaining Fuel.new
fresh_run ast rt =
    let m = (fresh_exec_setup ast rt.interpreter).0 in
    let root_fiber : Fiber = record {
      id = 0;
      control = m.control;
      cont = m.cont;
      env = m.env;
      status = FiberStatus.ready;
      meter = Fuel.root;
    } in
    record rt {
      interpreter = m;
      fibers = root_fiber ∷ [];
      ready_queue = 0 ∷ [];
      join_waiters = [];
      current = none;
      meters = set_root_budget Fuel.new (remaining rt.meters Fuel.root);
      steps_total = 0;
      next_fiber_id = 1;
    }

abbrev waits_for_host : FiberStatus → Bool
waits_for_host (FiberStatus.blocked_on_host effect args) = true
waits_for_host _ = false

abbrev pending_event_of : Cekh → HostValue → Fiber → LogEvent
pending_event_of m answer f = elim f.status [
  | FiberStatus.blocked_on_host effect args ↦
      LogEvent.host_answer f.id (name_of m effect) args answer
  | _ ↦ LogEvent.continue
]

-- The event of the first fiber with the id that waits for the host, where there is one.
unfoldable pub answer_event : Cekh → FiberId → HostValue → List Fiber → Option LogEvent
answer_event m id answer [] = none
answer_event m id answer (f ∷ fs) =
    let rest = answer_event m id answer fs in
    if f.id == id
    then (if waits_for_host f.status then some (pending_event_of m answer f) else rest)
    else rest

unfoldable pub apply_host_answer : FiberId → HostValue → Runtime → Option Runtime
unfolding from_host_value unblock_fiber
apply_host_answer id value rt =
    let (m, v) = from_host_value rt.interpreter value in
    unblock_fiber id v (record rt { interpreter = m })

abbrev answered : FiberId → HostValue → Result Runtime → Option (Result Runtime)
answered id value (err e) = some (err e)
answered id value (ok rt) = and_then (apply_host_answer id value rt) λ rt'. some (ok rt')

-- `none` where the source panics.
unfoldable pub resume_with : Append → FiberId → HostValue → Runtime → Option (Result Runtime)
unfolding apply_host_answer answer_event logged
resume_with append id value rt =
    if is_replaying rt.log
    then some (err (message (ascii "resume_with: runtime is replaying; answers come from the log")))
    else elim (answer_event rt.interpreter id value rt.fibers) [
      | none ↦
          some (err (message (ascii "resume_with: no pending host call for fiber " ++ decimal id)))
      | some event ↦ answered id value (logged append event rt)
    ]

abbrev crossing : Result HostValue → Option HostValue
crossing (ok h) = some h
crossing (err e) = none

abbrev result_written : RunOutcome → Result Runtime → Runtime → Runtime × Result RunOutcome
result_written outcome (err e) rt = (rt, err e)
result_written outcome (ok rt') rt = elim rt'.log [
  | LogMode.recording events finished ↦
      (record rt' { log = LogMode.recording events true }, ok outcome)
  | _ ↦ (rt', ok outcome)
]

abbrev finish_done : Append → JsValue → Runtime → Option (Runtime × Result RunOutcome)
finish_done append v rt = elim rt.log [
  | LogMode.recording events false ↦ and_then (to_host_value rt.interpreter v) λ h.
      some (result_written (RunOutcome.done v) (logged append (LogEvent.done (crossing h)) rt) rt)
  | _ ↦ some (rt, ok (RunOutcome.done v))
]

-- The result of a run that is recorded is written once.
unfoldable pub finish_run :
    Append → Result RunOutcome → Runtime → Option (Runtime × Result RunOutcome)
unfolding logged to_host_value
finish_run append (ok (RunOutcome.done v)) rt = finish_done append v rt
finish_run append result rt = some (rt, result)

abbrev finished : Option (Runtime × Result RunOutcome) → Rounds
finished none = none
finished (some (rt, o)) = some (ended o rt)

-- The end of the scheduler's run, where its rounds reach it.
abbrev finish : Append → Round → Rounds
finish append (again main rt) = some (again main rt)
finish append (ended o rt) = finished (finish_run append o rt)

abbrev refused : Text → Runtime → Rounds
refused text rt = some (ended (err (message text)) rt)

abbrev is_off : LogMode → Bool
is_off LogMode.off = true
is_off _ = false

-- The event of an entry after the first is written until the run has a result.
abbrev continued : Append → Runtime → Result Runtime
continued append rt = elim rt.log [
  | LogMode.recording events false ↦ logged append LogEvent.continue rt
  | _ ↦ ok rt
]

module _ ⦃fl : Floats⦄ (append : Append) (write : WriteSnapshot) (ast : AstArena) where
  -- So many rounds at most.
  unfoldable pub run_hosted_fresh : ℕ → Runtime → Rounds
  unfolding fresh_run run_scheduler finish_run
  run_hosted_fresh n rt =
      and_then (run_scheduler write ast n JsValue.undefined (fresh_run ast rt)) (finish append)

  unfoldable pub run_hosted : ℕ → Runtime → Rounds
  unfolding run_hosted_fresh
  run_hosted n rt =
      if is_off rt.log
      then run_hosted_fresh n rt
      else refused
          (ascii
            "run_hosted: a recorded run must start via eval_hosted (the log header embeds the source text)")
          rt

  abbrev pub continue_scheduler : ℕ → Result Runtime → Runtime → Rounds
  continue_scheduler n (err e) rt = some (ended (err e) rt)
  continue_scheduler n (ok rt') rt =
      and_then (run_scheduler write ast n JsValue.undefined rt') (finish append)

  -- The tree of the runtime is an argument.
  unfoldable pub run_hosted_continue : ℕ → Runtime → Rounds
  unfolding run_scheduler finish_run logged
  run_hosted_continue n rt =
      if is_replaying rt.log
      then refused (ascii "run_hosted_continue: runtime is replaying") rt
      else continue_scheduler n (continued append rt) rt

-- `run`, on the outcome of `run_hosted`; `none` where the source panics.
unfoldable pub run_result : RunOutcome → Option (Result JsValue)
run_result (RunOutcome.done v) = some (ok v)
run_result (RunOutcome.pending []) = none
run_result (RunOutcome.pending (c ∷ calls)) = some (
    err (
      message (
        ascii "effect '"
        ++ (c.effect ++ ascii "' suspended to the host; use run_hosted/eval_hosted"))))
run_result (RunOutcome.out_of_fuel spent) = some (
    err (
      message (
        ascii "run out of fuel after "
        ++ (decimal spent ++ ascii " steps; use run_hosted/eval_hosted and add_fuel to resume"))))
