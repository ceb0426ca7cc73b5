-- ===== src/Runtime/Effects.antt =====
-- src/runtime.rs: the effects that reach the runtime.
use kryhtajs.Prelude.{
  ℕ, ◌^◌, Option, none, some, List, [], ◌∷◌, ◌++◌, get_elem?, if◌then◌else◌, ltb, Text, ascii,
  JsError, type_error, internal_error, message, Result, ok, err, lookup, insert, nat_key,
}
use kryhtajs.Value.{JsValue, StrId, ObjId, ContId}
use kryhtajs.Arena as Slots
use kryhtajs.Arena.{alloc}
use kryhtajs.Cont.{Kont}
use kryhtajs.Fiber.{
  Fiber, FiberId, FiberStatus, EffectKind, BuiltinEffect, HostValues, no_values, a_value,
}
use kryhtajs.Fuel.{Meters, carve}
use kryhtajs.Gc.Collect.{should_collect, collect}
use kryhtajs.Host.{to_host_value}
use kryhtajs.Object as Obj
use kryhtajs.Object.{Object, ObjectKind, FunctionData}
use kryhtajs.StringPool as Pool
use kryhtajs.StringPool.{intern}
use kryhtajs.Cekh.State.{Cekh, Control}
use kryhtajs.Cekh.Properties.{or_undefined}
use kryhtajs.Runtime.Log.{is_replaying}
use kryhtajs.Runtime.State.{Runtime, EffectResult, and_then}
use kryhtajs.Runtime.Fibers.{
  find_fiber, with_fiber, set_status, current_fiber_meter, save_current_fiber_state, remove_fiber,
  spawn_fiber,
}
use kryhtajs.Runtime.Joins.{join_result, error_value}

-- The runtime after an effect, and its result; `none` where the source panics.
abbrev pub Handled : Type 0
Handled = Option (Runtime × Result EffectResult)

abbrev refuse : JsError → Runtime → Handled
refuse e rt = some (rt, err e)

abbrev first_arg : List JsValue → JsValue
first_arg args = or_undefined (get_elem? args 0)

-- `self.interpreter.control = Control::Value(v)`
abbrev pub with_control : JsValue → Runtime → Runtime
with_control v rt = record rt { interpreter = record rt.interpreter { control = Control.value v } }

abbrev resumed : JsValue → Runtime → Handled
resumed v rt = some (with_control v rt, ok EffectResult.resume)

abbrev blocked : Option Runtime → Handled
blocked o = and_then o λ rt. some (rt, ok EffectResult.block)

-- The collection of `handle_effect`, of `handle_gc` and after a preemption.
unfoldable pub collect_now : Runtime → Option Runtime
unfolding collect
collect_now rt =
    and_then (collect rt.gc rt.interpreter rt.fibers rt.effects)
      λ r. some (record rt { gc = r.0; interpreter = r.1 })

unfoldable pub collect_if_due : Runtime → Option Runtime
unfolding should_collect collect_now
collect_if_due rt =
    and_then (should_collect rt.gc rt.interpreter) λ due. if due then collect_now rt else some rt

unfoldable pub convert_args : Cekh → List JsValue → Option (Result HostValues)
unfolding to_host_value
convert_args m [] = some (ok no_values)
convert_args m (v ∷ vs) = elim (to_host_value m v) [
  | none ↦ none
  | some (err e) ↦ some (err e)
  | some (ok h) ↦ elim (convert_args m vs) [
    | none ↦ none
    | some (err e) ↦ some (err e)
    | some (ok hs) ↦ some (ok (a_value h hs))
  ]
]

abbrev pub block_on_host : StrId → Result HostValues → Runtime → Handled
block_on_host effect (err e) rt = refuse e rt
block_on_host effect (ok args) rt = and_then rt.current λ id.
    and_then (save_current_fiber_state rt)
      λ rt'. blocked (with_fiber (set_status (FiberStatus.blocked_on_host effect args)) id rt')

unfoldable pub handle_host_effect : StrId → List JsValue → Runtime → Handled
unfolding convert_args save_current_fiber_state with_fiber
handle_host_effect effect args rt =
    and_then (convert_args rt.interpreter args) λ r. block_on_host effect r rt

abbrev fork_control : FunctionData → Control
fork_control f = elim f.expr_body [ none ↦ Control.stmt f.body | some e ↦ Control.expr e ]

-- The child's meter, with the runtime that finding it leaves.
abbrev pub ChildMeter : Type 0
ChildMeter = Runtime × Result ℕ

abbrev pub carved_meter : Result (Meters × ℕ) → Runtime → ChildMeter
carved_meter (err e) rt = (rt, err e)
carved_meter (ok (meters, child)) rt = (record rt { meters = meters }, ok child)

abbrev fuel_error : JsError
fuel_error = type_error (ascii "Fork: fuel must be a non-negative integer")

abbrev pub fuel_meter : Option JsValue → ℕ → Runtime → ChildMeter
fuel_meter none parent rt = (rt, ok parent)
fuel_meter (some JsValue.undefined) parent rt = (rt, ok parent)
fuel_meter (some (JsValue.int n)) parent rt =
    if ltb n (2 ^ 31) then carved_meter (carve rt.meters parent n) rt else (rt, err fuel_error)
fuel_meter (some _) parent rt = (rt, err fuel_error)

abbrev pub options_object : Option Object → StrId → ℕ → Runtime → ChildMeter
options_object none key parent rt = (rt, err (internal_error (ascii "Invalid options object")))
options_object (some o) key parent rt = fuel_meter (Obj.get o key) parent rt

unfoldable pub options_meter : ObjId → ℕ → Runtime → ChildMeter
unfolding intern Obj.get carve
options_meter id parent rt =
    let (strings, key) = intern (ascii "fuel") rt.interpreter.strings in
    let rt' : Runtime = record rt { interpreter = record rt.interpreter { strings = strings } } in
    options_object (Slots.get rt'.interpreter.objects id) key parent rt'

unfoldable pub child_meter : Option JsValue → ℕ → Runtime → ChildMeter
unfolding options_meter
child_meter none parent rt = (rt, ok parent)
child_meter (some JsValue.undefined) parent rt = (rt, ok parent)
child_meter (some (JsValue.object id)) parent rt = options_meter id parent rt
child_meter (some _) parent rt = (rt, err (type_error (ascii "Fork: options must be an object")))

abbrev pub spawn_child : ContId → FunctionData → ChildMeter → Handled
spawn_child cont f (rt, err e) = refuse e rt
spawn_child cont f (rt, ok meter) =
    let (rt', id) = spawn_fiber cont f.env (fork_control f) meter rt in
    some (rt', ok (EffectResult.spawned id))

unfoldable pub fork_closure : FunctionData → Option JsValue → Runtime → Handled
unfolding child_meter spawn_fiber current_fiber_meter
fork_closure f options rt =
    let (conts, cont) = alloc Kont.halt rt.interpreter.conts in
    let rt' : Runtime = record rt { interpreter = record rt.interpreter { conts = conts } } in
    and_then (current_fiber_meter rt') λ parent. spawn_child cont f (child_meter options parent rt')

abbrev pub fork_kind : ObjectKind → Option JsValue → Runtime → Handled
fork_kind (ObjectKind.function f) options rt = fork_closure f options rt
fork_kind _ options rt = refuse (type_error (ascii "Fork: not a function")) rt

abbrev pub fork_object : Option Object → Option JsValue → Runtime → Handled
fork_object none options rt = refuse (internal_error (ascii "Invalid function object")) rt
fork_object (some o) options rt = fork_kind o.kind options rt

abbrev pub fork_value : JsValue → Option JsValue → Runtime → Handled
fork_value (JsValue.function id) options rt =
    fork_object (Slots.get rt.interpreter.objects id) options rt
fork_value _ options rt = refuse (type_error (ascii "Fork: expected function")) rt

unfoldable pub handle_fork : List JsValue → Runtime → Handled
unfolding fork_closure
handle_fork args rt = fork_value (first_arg args) (get_elem? args 1) rt

abbrev waiters_of : Option (List FiberId) → List FiberId
waiters_of none = []
waiters_of (some ids) = ids

-- The result of a fiber that is done, which is consumed.
unfoldable pub join_done : Text → JsValue → FiberId → Runtime → Handled
unfolding join_result remove_fiber
join_done key v id rt =
    let (rt', result) = join_result key v rt in
    some (remove_fiber id (with_control result rt'), ok EffectResult.resume)

abbrev pub join_failed : JsError → FiberId → Runtime → Handled
join_failed e id rt = let (rt', v) = error_value e rt in join_done (ascii "err") v id rt'

abbrev pub join_status : FiberStatus → FiberId → FiberId → Runtime → Handled
join_status (FiberStatus.completed v) id current rt = join_done (ascii "ok") v id rt
join_status (FiberStatus.failed e) id current rt = join_failed e id rt
join_status _ id current rt = blocked (
    save_current_fiber_state (record rt {
      join_waiters =
          insert id (waiters_of (lookup id rt.join_waiters) ++ current ∷ []) rt.join_waiters;
    }))

abbrev pub join_found : Option Fiber → FiberId → FiberId → Runtime → Handled
join_found none id current rt = refuse (internal_error (ascii "Join: fiber not found")) rt
join_found (some f) id current rt = join_status f.status id current rt

abbrev pub join_value : JsValue → Runtime → Handled
join_value (JsValue.int id) rt =
    and_then rt.current λ current. join_found (find_fiber id rt.fibers) id current rt
join_value _ rt = refuse (type_error (ascii "Join: expected fiber id")) rt

unfoldable pub handle_join : List JsValue → Runtime → Handled
unfolding join_done error_value save_current_fiber_state
handle_join args rt = join_value (first_arg args) rt

-- Printing writes to the console.
unfoldable pub handle_print : Runtime → Handled
handle_print rt = resumed JsValue.undefined rt

unfoldable pub handle_gc : Runtime → Handled
unfolding collect_now
handle_gc rt = and_then (collect_now rt) (resumed JsValue.undefined)

-- The writing of a checkpoint to a path with a ready queue, and the error that it may give.
abbrev pub WriteSnapshot : Type 0
WriteSnapshot = Text → List FiberId → Runtime → Option JsError

abbrev path_of : Option Text → Text
path_of none = []
path_of (some s) = s

abbrev pub written : Option JsError → StrId → Runtime → Handled
written none saved rt = resumed (JsValue.string saved) rt
written (some e) saved rt = refuse e rt

abbrev snapshot_to : WriteSnapshot → Text → FiberId → Runtime → Handled
snapshot_to write path id rt =
    let (p1, restored) = intern (ascii "restored") rt.interpreter.strings in
    let (p2, saved) = intern (ascii "saved") p1 in
    and_then
      (save_current_fiber_state (
        with_control (JsValue.string restored)
          (record rt { interpreter = record rt.interpreter { strings = p2 } })))
      λ rt'.
        written (if is_replaying rt'.log then none else write path (id ∷ rt'.ready_queue) rt') saved
          rt'

abbrev pub snapshot_value : WriteSnapshot → JsValue → Runtime → Handled
snapshot_value write (JsValue.string s) rt =
    and_then rt.current λ id. snapshot_to write (path_of (Pool.get rt.interpreter.strings s)) id rt
snapshot_value write _ rt = refuse (type_error (ascii "Snapshot: expected file path string")) rt

unfoldable pub handle_snapshot : WriteSnapshot → List JsValue → Runtime → Handled
unfolding save_current_fiber_state intern
handle_snapshot write args rt = snapshot_value write (first_arg args) rt

abbrev effect_name : Option Text → Text
effect_name none = ascii "?"
effect_name (some s) = s

abbrev not_granted : Text → JsError
not_granted name = message (ascii "effect '" ++ (name ++ ascii "' is not handled and not granted"))

abbrev pub dispatch : WriteSnapshot → Option EffectKind → StrId → List JsValue → Runtime → Handled
dispatch write (some (EffectKind.builtin BuiltinEffect.print)) effect args rt = handle_print rt
dispatch write (some (EffectKind.builtin BuiltinEffect.fork)) effect args rt = handle_fork args rt
dispatch write (some (EffectKind.builtin BuiltinEffect.join)) effect args rt = handle_join args rt
dispatch write (some (EffectKind.builtin BuiltinEffect.gc)) effect args rt = handle_gc rt
dispatch write (some (EffectKind.builtin BuiltinEffect.snapshot)) effect args rt =
    handle_snapshot write args rt
dispatch write (some EffectKind.host) effect args rt = handle_host_effect effect args rt
dispatch write none effect args rt =
    refuse (not_granted (effect_name (Pool.get rt.interpreter.strings effect))) rt

unfoldable pub handle_effect : WriteSnapshot → StrId → List JsValue → Runtime → Handled
unfolding collect_if_due handle_print handle_fork handle_join handle_gc handle_snapshot
    handle_host_effect
handle_effect write effect args rt =
    and_then (collect_if_due rt) λ rt'. dispatch write (lookup effect rt'.effects) effect args rt'
