-- ===== src/Runtime/State.antt =====
-- src/runtime.rs: the state of the runtime and its settings.
use kryhtajs.Prelude.{
  ℕ, zero, suc, Bool, true, false, Option, none, some, List, [], ◌∷◌, ◌++◌, ◌==◌, if◌then◌else◌,
  Text, ascii, Result, ok, err, message, insert, nat_key,
}
use kryhtajs.Value.{JsValue, StrId}
use kryhtajs.Fiber.{Fiber, FiberId, HostValues, EffectKind, BuiltinEffect}
use kryhtajs.Fuel as Fuel
use kryhtajs.Fuel.{Meters, remaining, set_root_budget, add}
use kryhtajs.Gc.Collect as Collector
use kryhtajs.Gc.Collect.{Gc}
use kryhtajs.StringPool.{intern}
use kryhtajs.Cekh.State.{Cekh}
use kryhtajs.Runtime.Log.{LogEvent, LogMode, Append, is_replaying, is_frozen}

-- `none` stands for a panic of the source, which ends what follows.
abbrev pub and_then {ℓ κ} : {A : Type ℓ} {B : Type κ} → Option A → (A → Option B) → Option B
and_then none f = none
and_then (some a) f = f a

pub record Runtime : Type 0 where
  pub interpreter : Cekh
  pub fibers : List Fiber
  pub ready_queue : List FiberId
  pub current : Option FiberId
  pub next_fiber_id : ℕ
  pub join_waiters : List (FiberId × List FiberId)
  pub gc : Gc
  pub effects : List (StrId × EffectKind)
  pub meters : Meters
  pub quantum : ℕ
  pub steps_total : ℕ
  pub log : LogMode

pub data EffectResult : Type 0 where
  resume block : EffectResult
  spawned : FiberId → EffectResult

pub record PendingCall : Type 0 where
  pub id : FiberId
  pub effect : Text
  pub args : HostValues

pub data RunOutcome : Type 0 where
  done : JsValue → RunOutcome
  pending : List PendingCall → RunOutcome
  out_of_fuel : ℕ → RunOutcome

unfoldable pub default_quantum : ℕ
default_quantum = 10000

-- The effect names that every runtime knows.
unfoldable pub builtin_effects : Cekh → Cekh × List (StrId × EffectKind)
unfolding intern
builtin_effects m =
    let (p1, print) = intern (ascii "Print") m.strings in
    let (p2, fork) = intern (ascii "Fork") p1 in
    let (p3, join) = intern (ascii "Join") p2 in
    let (p4, gc) = intern (ascii "Gc") p3 in
    let (p5, snapshot) = intern (ascii "Snapshot") p4 in
    (
      record m { strings = p5 },
      (print, EffectKind.builtin BuiltinEffect.print)
          ∷ (fork, EffectKind.builtin BuiltinEffect.fork)
          ∷ (join, EffectKind.builtin BuiltinEffect.join)
          ∷ (gc, EffectKind.builtin BuiltinEffect.gc)
          ∷ (snapshot, EffectKind.builtin BuiltinEffect.snapshot)
          ∷ [],
    )

-- `Runtime::new`, on the machine that `CEKH::new` builds.
unfoldable pub new : Cekh → Runtime
unfolding builtin_effects Collector.new Fuel.new default_quantum
new m =
    let (interpreter, effects) = builtin_effects m in
    record {
      interpreter = interpreter;
      fibers = [];
      ready_queue = [];
      current = none;
      next_fiber_id = 0;
      join_waiters = [];
      gc = Collector.new;
      effects = effects;
      meters = Fuel.new;
      quantum = default_quantum;
      steps_total = 0;
      log = LogMode.off;
    }

-- Where the log is recorded, an event is written before what it tells of happens.
unfoldable pub logged : Append → LogEvent → Runtime → Result Runtime
logged append event rt = elim rt.log [
  | LogMode.recording events finished ↦ elim (append rt.steps_total event) [
    | some e ↦ err e
    | none ↦
        ok (record rt { log = LogMode.recording (events ++ (rt.steps_total, event) ∷ []) finished })
  ]
  | _ ↦ ok rt
]

unfoldable pub grant : Text → Runtime → Result Runtime
unfolding intern
grant name rt =
    let (strings, id) = intern name rt.interpreter.strings in
    if is_frozen rt.log
    then err (message (ascii "grant: grants are frozen once a recorded run starts"))
    else ok (record rt {
      interpreter = record rt.interpreter { strings = strings };
      effects = insert id EffectKind.host rt.effects;
    })

abbrev is_fresh : Runtime → Bool
is_fresh rt = elim rt.fibers [ [] ↦ rt.next_fiber_id == 0 | _ ∷ _ ↦ false ]

unfoldable pub set_fuel : Option ℕ → Runtime → Result Runtime
unfolding set_root_budget
set_fuel budget rt =
    if is_frozen rt.log
    then err
        (message (ascii "set_fuel: fuel config is frozen while a log is recording or replaying"))
    else if is_fresh rt
    then ok (record rt { meters = set_root_budget rt.meters budget })
    else err (
        message (ascii "set_fuel: requires a fresh runtime (budget is part of the run's identity)"))

unfoldable pub set_quantum : ℕ → Runtime → Result Runtime
set_quantum zero rt = err (message (ascii "set_quantum: quantum must be at least 1"))
set_quantum (suc q) rt =
    if is_frozen rt.log
    then err
        (message (ascii "set_quantum: fuel config is frozen while a log is recording or replaying"))
    else if is_fresh rt
    then ok (record rt { quantum = suc q })
    else err (message (ascii "set_quantum: requires a fresh runtime"))

abbrev is_empty : Option ℕ → Bool
is_empty (some zero) = true
is_empty _ = false

abbrev pub topped_up : ℕ → Result Runtime → Result Runtime
topped_up amount (err e) = err e
topped_up amount (ok rt) = ok (record rt { meters = add rt.meters Fuel.root amount })

unfoldable pub add_fuel : Append → ℕ → Runtime → Result Runtime
unfolding add remaining logged
add_fuel append amount rt =
    if is_replaying rt.log
    then err (message (ascii "add_fuel: runtime is replaying; refuels come from the log"))
    else if is_empty (remaining rt.meters Fuel.root)
    then topped_up amount (logged append (LogEvent.refuel amount) rt)
    else err (message (ascii "add_fuel: runtime is not out of fuel"))
