-- ===== src/Runtime/Joins.antt =====
-- src/runtime.rs: the fate of a fiber, delivered to those that wait for it.
use kryhtajs.Prelude.{
  Option, none, some, List, [], ◌∷◌, ◌==◌, if◌then◌else◌, Text, ascii, JsError, display, lookup,
  nat_key,
}
use kryhtajs.Value.{JsValue}
use kryhtajs.Arena.{alloc}
use kryhtajs.Fiber.{FiberId, FiberStatus}
use kryhtajs.Object as Obj
use kryhtajs.StringPool.{intern}
use kryhtajs.Runtime.State.{Runtime, and_then}
use kryhtajs.Runtime.Fibers.{with_fiber, set_status, unblock_fiber, remove_fiber}

unfoldable pub error_value : JsError → Runtime → Runtime × JsValue
unfolding intern
error_value e rt =
    let (strings, id) = intern (display e) rt.interpreter.strings in
    (record rt { interpreter = record rt.interpreter { strings = strings } }, JsValue.string id)

-- `{ok: value}` or `{err: value}`
unfoldable pub join_result : Text → JsValue → Runtime → Runtime × JsValue
unfolding intern Obj.set Obj.new
join_result key v rt =
    let (strings, k) = intern key rt.interpreter.strings in
    let (objects, id) = alloc (Obj.set Obj.new k v) rt.interpreter.objects in
    (
      record rt { interpreter = record rt.interpreter { strings = strings; objects = objects } },
      JsValue.object id,
    )

-- Each waiter gets an object of its own.
unfoldable pub deliver : Text → JsValue → List FiberId → Runtime → Option Runtime
unfolding join_result unblock_fiber
deliver key v [] rt = some rt
deliver key v (id ∷ ids) rt =
    let (rt', result) = join_result key v rt in
    and_then (unblock_fiber id result rt') (deliver key v ids)

abbrev pub remove_key : FiberId → List (FiberId × List FiberId) → List (FiberId × List FiberId)
remove_key id [] = []
remove_key id ((k, v) ∷ m) = if k == id then m else (k, v) ∷ remove_key id m

-- A fiber that others wait for is consumed.
unfoldable pub settle : Text → JsValue → FiberId → Runtime → Option Runtime
unfolding deliver remove_fiber
settle key v id rt = elim (lookup id rt.join_waiters) [
  | none ↦ some rt
  | some waiters ↦
      and_then (deliver key v waiters (record rt { join_waiters = remove_key id rt.join_waiters }))
        λ rt'. some (remove_fiber id rt')
]

unfoldable pub complete_current_fiber : JsValue → Runtime → Option Runtime
unfolding settle with_fiber
complete_current_fiber v rt = and_then rt.current λ id.
    and_then (with_fiber (set_status (FiberStatus.completed v)) id rt) (settle (ascii "ok") v id)

unfoldable pub fail_current_fiber : JsError → Runtime → Option Runtime
unfolding settle with_fiber error_value
fail_current_fiber e rt = and_then rt.current λ id.
    let (rt', v) = error_value e rt in
    and_then (with_fiber (set_status (FiberStatus.failed e)) id rt') (settle (ascii "err") v id)
