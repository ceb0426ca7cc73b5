-- ===== src/Runtime/Handled.antt =====
-- src/runtime.rs: an effect moves the meters by a carve or a refund only.
use kryhtajs.Prelude.{
  ℕ, suc, ◌<◌, ◌^◌, ◌≡◌, refl, subst, Option, none, some, List, [], ◌∷◌, length, Option-cases,
  Bool-cases, inl, inr, arith, Text, JsError, ascii, Result, ok, err, ltb, lookup, nat_key,
  get_elem?,
}
use kryhtajs.Value.{JsValue, StrId, ObjId, ContId}
use kryhtajs.Arena as Slots
use kryhtajs.Arena.{alloc}
use kryhtajs.Cont.{Kont}
use kryhtajs.Fiber.{Fiber, FiberId, FiberStatus, EffectKind, BuiltinEffect, HostValues}
use kryhtajs.Fuel.{Meters, carve}
use kryhtajs.Fuel.Conservation.{fork}
use kryhtajs.Object as Obj
use kryhtajs.Object.{Object, ObjectKind, FunctionData}
use kryhtajs.StringPool.{intern}
use kryhtajs.Runtime.State.{Runtime, EffectResult, and_then}
use kryhtajs.Runtime.Fibers.{find_fiber, current_fiber_meter, save_current_fiber_state, spawn_fiber}
use kryhtajs.Runtime.Joins.{join_result, error_value}
use kryhtajs.Runtime.Effects.{
  Handled, WriteSnapshot, ChildMeter, with_control, handle_effect, dispatch, handle_print,
  handle_fork, handle_join, handle_gc, handle_snapshot, handle_host_effect, convert_args,
  block_on_host, fork_value, fork_object, fork_kind, fork_closure, child_meter, options_meter,
  options_object, fuel_meter, carved_meter, spawn_child, join_value, join_found, join_status,
  join_done, written, snapshot_value,
}
use kryhtajs.Runtime.Moves.{
  IsMetered, Moved, Moves, MovesIf, MovesIn, Moves_trans, itself, and_then-MovesIn, then-MovesIn,
  first_then, when_metered, All-find_fiber, All-append_one, carve-lt,
}
use kryhtajs.Runtime.Quiet.{
  same_fibers, with_fiber-Moves, save-Moves, remove-Moves, join_result-Moves, error_value-Moves,
  collect_now-Moves, collect_if_due-Moves,
}

abbrev pub after : Runtime × Result EffectResult → Runtime
after (rt, r) = rt

abbrev pub MovesHandled : Runtime → Handled → Type 0
MovesHandled = MovesIn after

refused : (rt : Runtime) → Moves rt rt
refused rt = same_fibers rt rt refl refl refl refl

resumed-Moves : (v : JsValue) (rt : Runtime) → Moves rt (with_control v rt)
resumed-Moves v rt = same_fibers rt (with_control v rt) refl refl refl refl

blocked-Moves :
    (rt : Runtime) (o : Option Runtime)
    → MovesIf rt o
    → MovesHandled rt (and_then o λ rt'. some (rt', ok EffectResult.block))
blocked-Moves rt o m = then-MovesIn itself after rt o _ m refused

block_on_host-Moves :
    (effect : StrId) (r : Result HostValues) (rt : Runtime)
    → MovesHandled rt (block_on_host effect r rt)
block_on_host-Moves effect (err e) rt = refused rt
block_on_host-Moves effect (ok args) rt = and_then-MovesIn after rt rt.current _ λ id.
    then-MovesIn itself after rt _ _ (save-Moves rt)
      (λ rt'. blocked-Moves rt' _ (with_fiber-Moves _ id rt' (λ f. refl)))

host-Moves :
    (effect : StrId) (args : List JsValue) (rt : Runtime)
    → MovesHandled rt (handle_host_effect effect args rt)
unfolding handle_host_effect
host-Moves effect args rt =
    and_then-MovesIn after rt (convert_args rt.interpreter args) _
      (λ r. block_on_host-Moves effect r rt)

-- A child's meter that is found moves the meters by a fork, and is a slot.
abbrev MovesChild : Runtime → ChildMeter → Type 0
MovesChild rt (rt', err e) = Moves rt rt'
MovesChild rt (rt', ok child) =
    IsMetered rt.meters rt.fibers → Moved rt rt' × (child < length rt'.meters)

abbrev FromSlot : ℕ → Runtime → ChildMeter → Type 0
FromSlot parent rt c = parent < length rt.meters → MovesChild rt c

shared_meter : (parent : ℕ) (rt : Runtime) → FromSlot parent rt (rt, ok parent)
shared_meter parent rt lt w = (refused rt w, lt)

carved-Moves :
    (parent amount : ℕ) (rt : Runtime) (r : Result (Meters × ℕ))
    → carve rt.meters parent amount ≡ r
    → FromSlot parent rt (carved_meter r rt)
carved-Moves parent amount rt (err e) h lt = refused rt
carved-Moves parent amount rt (ok (meters, child)) h lt = λ w.
    let (len, small) = carve-lt rt.meters meters parent amount child h in
    (
      record {
        metered = more_slots rt.fibers w len;
        history = λ last n rest. fork parent amount child meters lt h rest;
        same_quantum = refl;
        same_steps = refl;
        no_shrink = omega (arith, len);
      },
      small,
    )
  where
    more_slots :
        (fs : List Fiber)
        → IsMetered rt.meters fs
        → length meters ≡ suc (length rt.meters)
        → IsMetered meters fs
    more_slots [] every len = tt
    more_slots (f ∷ fs) every len = (omega (arith, every.0, len), more_slots fs every.1 len)

fuel-Moves :
    (o : Option JsValue) (parent : ℕ) (rt : Runtime) → FromSlot parent rt (fuel_meter o parent rt)
fuel-Moves none parent rt lt = shared_meter parent rt lt
fuel-Moves (some JsValue.undefined) parent rt lt = shared_meter parent rt lt
fuel-Moves (some (JsValue.int n)) parent rt lt = elim (Bool-cases (ltb n (2 ^ 31))) [
  | inl fits ↦ rw fits (carved-Moves parent n rt (carve rt.meters parent n) refl lt)
  | inr negative ↦ rw negative (refused rt)
]
fuel-Moves (some _) parent rt lt = refused rt

-- A change before it that keeps the meters and the fibers.
child_later : (a b : Runtime) (c : ChildMeter) → Moves a b → MovesChild b c → MovesChild a c
child_later a b (rt, err e) f g = Moves_trans a b rt f g
child_later a b (rt, ok child) f g =
    λ w. let (moved, lt) = g (f w).metered in (Moves_trans a b rt f (λ w'. (g w').0) w, lt)

options_object-Moves :
    (o : Option Object) (key : StrId) (parent : ℕ) (rt : Runtime)
    → FromSlot parent rt (options_object o key parent rt)
options_object-Moves none key parent rt lt = refused rt
options_object-Moves (some o) key parent rt lt = fuel-Moves (Obj.get o key) parent rt lt

options-Moves :
    (id : ObjId) (parent : ℕ) (rt : Runtime) → FromSlot parent rt (options_meter id parent rt)
unfolding options_meter
options-Moves id parent rt lt =
    let (strings, key) = intern (ascii "fuel") rt.interpreter.strings in
    let rt' : Runtime = record rt { interpreter = record rt.interpreter { strings = strings } } in
    child_later rt rt' _ (same_fibers rt rt' refl refl refl refl)
      (options_object-Moves (Slots.get rt'.interpreter.objects id) key parent rt' lt)

child-Moves :
    (o : Option JsValue) (parent : ℕ) (rt : Runtime) → FromSlot parent rt (child_meter o parent rt)
unfolding child_meter
child-Moves none parent rt lt = shared_meter parent rt lt
child-Moves (some JsValue.undefined) parent rt lt = shared_meter parent rt lt
child-Moves (some (JsValue.object id)) parent rt lt = options-Moves id parent rt lt
child-Moves (some _) parent rt lt = refused rt

spawn-Moves :
    (cont : ContId) (f : FunctionData) (rt : Runtime) (c : ChildMeter)
    → MovesChild rt c
    → MovesHandled rt (spawn_child cont f c)
unfolding spawn_fiber
spawn-Moves cont f rt (rt', err e) m = m
spawn-Moves cont f rt (rt', ok child) m = λ w.
    let (moved, lt) = m w in
    record {
      metered = All-append_one (λ g. g.meter < length rt'.meters) rt'.fibers _ moved.metered lt;
      history = moved.history;
      same_quantum = moved.same_quantum;
      same_steps = moved.same_steps;
      no_shrink = moved.no_shrink;
    }

-- The current fiber's meter is a slot.
pub current_meter-lt :
    (rt : Runtime) (meter : ℕ)
    → IsMetered rt.meters rt.fibers
    → current_fiber_meter rt ≡ some meter
    → meter < length rt.meters
unfolding current_fiber_meter
current_meter-lt rt meter w h = elim (Option-cases rt.current) [
  | inl e ↦ absurd (let k = rw (current_fiber_meter, e) at h in cc)
  | inr (id, e) ↦ elim (Option-cases (find_fiber id rt.fibers)) [
    | inl gone ↦ absurd (let k = rw (current_fiber_meter, e, gone) at h in cc)
    | inr (f, found) ↦
        let k = rw (current_fiber_meter, e, found) at h in
        let same : f.meter ≡ meter = cc in
        subst (λ n. n < length rt.meters) same
          (All-find_fiber (λ g. g.meter < length rt.meters) id rt.fibers f found w)
  ]
]

forked-Moves :
    (cont : ContId) (f : FunctionData) (options : Option JsValue) (rt : Runtime) (o : Option ℕ)
    → current_fiber_meter rt ≡ o
    → MovesHandled rt (and_then o λ parent. spawn_child cont f (child_meter options parent rt))
forked-Moves cont f options rt none h = tt
forked-Moves cont f options rt (some parent) h =
    when_metered after rt (spawn_child cont f (child_meter options parent rt)) λ w.
      spawn-Moves cont f rt (child_meter options parent rt)
        (child-Moves options parent rt (current_meter-lt rt parent w h))

closure-Moves :
    (f : FunctionData) (options : Option JsValue) (rt : Runtime)
    → MovesHandled rt (fork_closure f options rt)
unfolding fork_closure
closure-Moves f options rt =
    let (conts, cont) = alloc Kont.halt rt.interpreter.conts in
    let rt' : Runtime = record rt { interpreter = record rt.interpreter { conts = conts } } in
    first_then after rt rt' _ (same_fibers rt rt' refl refl refl refl)
      (forked-Moves cont f options rt' (current_fiber_meter rt') refl)

fork_kind-Moves :
    (kind : ObjectKind) (options : Option JsValue) (rt : Runtime)
    → MovesHandled rt (fork_kind kind options rt)
fork_kind-Moves (ObjectKind.function f) options rt = closure-Moves f options rt
fork_kind-Moves _ options rt = refused rt

fork_object-Moves :
    (o : Option Object) (options : Option JsValue) (rt : Runtime)
    → MovesHandled rt (fork_object o options rt)
fork_object-Moves none options rt = refused rt
fork_object-Moves (some o) options rt = fork_kind-Moves o.kind options rt

fork_value-Moves :
    (v : JsValue) (options : Option JsValue) (rt : Runtime)
    → MovesHandled rt (fork_value v options rt)
fork_value-Moves (JsValue.function id) options rt =
    fork_object-Moves (Slots.get rt.interpreter.objects id) options rt
fork_value-Moves _ options rt = refused rt

join_done-Moves :
    (key : Text) (v : JsValue) (id : FiberId) (rt : Runtime)
    → MovesHandled rt (join_done key v id rt)
unfolding join_done
join_done-Moves key v id rt =
    let rt' = (join_result key v rt).0 in
    let result = (join_result key v rt).1 in
    Moves_trans rt rt' _ (join_result-Moves key v rt) (
      Moves_trans rt' (with_control result rt') _ (resumed-Moves result rt')
        (remove-Moves id (with_control result rt')))

waiting-Moves :
    (rt rt' : Runtime)
    → Moves rt rt'
    → MovesHandled rt
        (and_then (save_current_fiber_state rt') λ rt''. some (rt'', ok EffectResult.block))
waiting-Moves rt rt' m = first_then after rt rt' _ m (blocked-Moves rt' _ (save-Moves rt'))

join_status-Moves :
    (status : FiberStatus) (id current : FiberId) (rt : Runtime)
    → MovesHandled rt (join_status status id current rt)
join_status-Moves (FiberStatus.completed v) id current rt = join_done-Moves _ v id rt
join_status-Moves (FiberStatus.failed e) id current rt =
    first_then after rt (error_value e rt).0 _ (error_value-Moves e rt)
      (join_done-Moves _ (error_value e rt).1 id (error_value e rt).0)
join_status-Moves _ id current rt = waiting-Moves rt _ (same_fibers rt _ refl refl refl refl)

join_found-Moves :
    (o : Option Fiber) (id current : FiberId) (rt : Runtime)
    → MovesHandled rt (join_found o id current rt)
join_found-Moves none id current rt = refused rt
join_found-Moves (some f) id current rt = join_status-Moves f.status id current rt

join_value-Moves : (v : JsValue) (rt : Runtime) → MovesHandled rt (join_value v rt)
join_value-Moves (JsValue.int id) rt =
    and_then-MovesIn after rt rt.current _
      (λ current. join_found-Moves (find_fiber id rt.fibers) id current rt)
join_value-Moves _ rt = refused rt

written-Moves :
    (o : Option JsError) (saved : StrId) (rt : Runtime) → MovesHandled rt (written o saved rt)
written-Moves none saved rt = resumed-Moves _ rt
written-Moves (some e) saved rt = refused rt

snapshot-Moves :
    (write : WriteSnapshot) (v : JsValue) (rt : Runtime)
    → MovesHandled rt (snapshot_value write v rt)
snapshot-Moves write (JsValue.string s) rt = and_then-MovesIn after rt rt.current _ λ id.
    first_then after rt _ _ (same_fibers rt _ refl refl refl refl)
      (then-MovesIn itself after _ _ _ (save-Moves _) (λ rt'. written-Moves _ _ rt'))
snapshot-Moves write _ rt = refused rt

dispatch-Moves :
    (write : WriteSnapshot) (kind : Option EffectKind) (effect : StrId) (args : List JsValue)
    (rt : Runtime)
    → MovesHandled rt (dispatch write kind effect args rt)
unfolding handle_print handle_fork handle_join handle_gc handle_snapshot
dispatch-Moves write (some (EffectKind.builtin BuiltinEffect.print)) effect args rt =
    resumed-Moves _ rt
dispatch-Moves write (some (EffectKind.builtin BuiltinEffect.fork)) effect args rt =
    fork_value-Moves _ (get_elem? args 1) rt
dispatch-Moves write (some (EffectKind.builtin BuiltinEffect.join)) effect args rt =
    join_value-Moves _ rt
dispatch-Moves write (some (EffectKind.builtin BuiltinEffect.gc)) effect args rt =
    then-MovesIn itself after rt _ _ (collect_now-Moves rt) (λ rt'. resumed-Moves _ rt')
dispatch-Moves write (some (EffectKind.builtin BuiltinEffect.snapshot)) effect args rt =
    snapshot-Moves write _ rt
dispatch-Moves write (some EffectKind.host) effect args rt = host-Moves effect args rt
dispatch-Moves write none effect args rt = refused rt

pub handle_effect-Moves :
    (write : WriteSnapshot) (effect : StrId) (args : List JsValue) (rt : Runtime)
    → MovesHandled rt (handle_effect write effect args rt)
unfolding handle_effect
handle_effect-Moves write effect args rt =
    then-MovesIn itself after rt _ _ (collect_if_due-Moves rt)
      (λ rt'. dispatch-Moves write (lookup effect rt'.effects) effect args rt')
