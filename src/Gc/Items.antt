-- ===== src/Gc/Items.antt =====
-- src/gc.rs: the work items, and what each slot and each root holds.
use kryhtajs.Prelude.{Option, none, some, List, [], ◌∷◌, ◌++◌, map}
use kryhtajs.Value.{JsValue, StrId, EnvId, ContId, ObjId}
use kryhtajs.Cont.{Kont}
use kryhtajs.Env.{Env, entries}
use kryhtajs.Fiber.{Fiber, FiberStatus, EffectKind}
use kryhtajs.Handler.{Handler}
use kryhtajs.Object.{Object, ObjectKind, Property}
use kryhtajs.Cekh.State.{Cekh, Control}

pub data WorkItem : Type 0 where
  value : JsValue → WorkItem
  env : EnvId → WorkItem
  cont : ContId → WorkItem

abbrev pub value_items : List JsValue → List WorkItem
value_items = map WorkItem.value

abbrev pub entry_items : List (StrId × JsValue) → List WorkItem
entry_items = map λ e. WorkItem.value e.1

abbrev pub property_items : List (StrId × Property) → List WorkItem
property_items = map λ e. WorkItem.value e.1.value

-- What each `trace_` function pushes, the first first.
unfoldable pub kont_items : Kont → List WorkItem
kont_items Kont.halt = []
kont_items (Kont.unary_k _ k) = WorkItem.cont k ∷ []
kont_items (Kont.binary_left_k _ _ e k) = WorkItem.env e ∷ WorkItem.cont k ∷ []
kont_items (Kont.binary_right_k _ v k) = WorkItem.value v ∷ WorkItem.cont k ∷ []
kont_items (Kont.and_k _ e k) = WorkItem.env e ∷ WorkItem.cont k ∷ []
kont_items (Kont.or_k _ e k) = WorkItem.env e ∷ WorkItem.cont k ∷ []
kont_items (Kont.nullish_k _ e k) = WorkItem.env e ∷ WorkItem.cont k ∷ []
kont_items (Kont.member_k _ k) = WorkItem.cont k ∷ []
kont_items (Kont.index_obj_k _ e k) = WorkItem.env e ∷ WorkItem.cont k ∷ []
kont_items (Kont.index_key_k v k) = WorkItem.value v ∷ WorkItem.cont k ∷ []
kont_items (Kont.assign_var_k _ e k) = WorkItem.env e ∷ WorkItem.cont k ∷ []
kont_items (Kont.update_var_k _ _ _ e k) = WorkItem.env e ∷ WorkItem.cont k ∷ []
kont_items (Kont.assign_member_obj_k _ _ e k) = WorkItem.env e ∷ WorkItem.cont k ∷ []
kont_items (Kont.assign_member_val_k v _ k) = WorkItem.value v ∷ WorkItem.cont k ∷ []
kont_items (Kont.assign_index_obj_k _ _ e k) = WorkItem.env e ∷ WorkItem.cont k ∷ []
kont_items (Kont.assign_index_key_k v _ e k) =
    WorkItem.value v ∷ WorkItem.env e ∷ WorkItem.cont k ∷ []
kont_items (Kont.assign_index_val_k v v2 k) =
    WorkItem.value v ∷ WorkItem.value v2 ∷ WorkItem.cont k ∷ []
kont_items (Kont.if_k _ _ e k) = WorkItem.env e ∷ WorkItem.cont k ∷ []
kont_items (Kont.cond_k _ _ e k) = WorkItem.env e ∷ WorkItem.cont k ∷ []
kont_items (Kont.while_k _ _ e k) = WorkItem.env e ∷ WorkItem.cont k ∷ []
kont_items (Kont.while_body_k _ _ e k) = WorkItem.env e ∷ WorkItem.cont k ∷ []
kont_items (Kont.for_test_k _ _ _ e k) = WorkItem.env e ∷ WorkItem.cont k ∷ []
kont_items (Kont.for_test_result_k _ _ _ e k) = WorkItem.env e ∷ WorkItem.cont k ∷ []
kont_items (Kont.for_body_k _ _ _ e k) = WorkItem.env e ∷ WorkItem.cont k ∷ []
kont_items (Kont.for_update_k _ _ _ e k) = WorkItem.env e ∷ WorkItem.cont k ∷ []
kont_items (Kont.callee_k _ _ e k) = WorkItem.env e ∷ WorkItem.cont k ∷ []
kont_items (Kont.args_k v done _ _ _ e k) =
    WorkItem.value v ∷ value_items done ++ (WorkItem.env e ∷ WorkItem.cont k ∷ [])
kont_items (Kont.return_k e k) = WorkItem.env e ∷ WorkItem.cont k ∷ []
kont_items (Kont.return_expr_k k) = WorkItem.cont k ∷ []
kont_items (Kont.array_k done _ _ _ e k) =
    value_items done ++ (WorkItem.env e ∷ WorkItem.cont k ∷ [])
kont_items (Kont.object_k done _ _ _ e k) =
    entry_items done ++ (WorkItem.env e ∷ WorkItem.cont k ∷ [])
kont_items (Kont.let_k _ e k) = WorkItem.env e ∷ WorkItem.cont k ∷ []
kont_items (Kont.const_k _ e k) = WorkItem.env e ∷ WorkItem.cont k ∷ []
kont_items (Kont.var_k _ e k) = WorkItem.env e ∷ WorkItem.cont k ∷ []
kont_items (Kont.seq_k _ _ _ e k) = WorkItem.env e ∷ WorkItem.cont k ∷ []
kont_items (Kont.expr_stmt_k k) = WorkItem.cont k ∷ []
kont_items (Kont.block_k _ _ _ _ e k) = WorkItem.env e ∷ WorkItem.cont k ∷ []
kont_items (Kont.match_k _ _ _ e k) = WorkItem.env e ∷ WorkItem.cont k ∷ []
kont_items (Kont.handler_k _ _ e _ _ k) = WorkItem.env e ∷ WorkItem.cont k ∷ []
kont_items (Kont.perform_args_k _ done _ _ _ e k) =
    value_items done ++ (WorkItem.env e ∷ WorkItem.cont k ∷ [])
kont_items (Kont.handle_with_k _ e k) = WorkItem.env e ∷ WorkItem.cont k ∷ []

abbrev parent_items : Option EnvId → List WorkItem
parent_items none = []
parent_items (some p) = WorkItem.env p ∷ []

unfoldable pub env_items : Env → List WorkItem
unfolding entries
env_items e = parent_items e.parent ++ entry_items (entries e.bindings)

abbrev prototype_items : Option ObjId → List WorkItem
prototype_items none = []
prototype_items (some p) = WorkItem.value (JsValue.object p) ∷ []

unfoldable pub kind_items : ObjectKind → List WorkItem
kind_items (ObjectKind.array elements) = value_items elements
kind_items (ObjectKind.function f) = WorkItem.env f.env ∷ []
kind_items (ObjectKind.bound_function b) =
    WorkItem.value (JsValue.function b.target)
    ∷ WorkItem.value b.this_arg
    ∷ value_items b.bound_args
kind_items _ = []

unfoldable pub object_items : Object → List WorkItem
unfolding kind_items
object_items o = property_items o.properties ++ (prototype_items o.prototype ++ kind_items o.kind)

abbrev pub handler_items : Handler → List WorkItem
handler_items h = WorkItem.env h.env ∷ []

unfoldable pub control_items : Control → List WorkItem
control_items (Control.value v) = WorkItem.value v ∷ []
control_items (Control.returning v) = WorkItem.value v ∷ []
control_items (Control.halted v) = WorkItem.value v ∷ []
control_items (Control.suspend effect args) = value_items args
control_items _ = []

unfoldable pub status_items : FiberStatus → List WorkItem
status_items (FiberStatus.completed v) = WorkItem.value v ∷ []
status_items (FiberStatus.blocked effect args) = value_items args
status_items (FiberStatus.blocked_on_host effect args) = WorkItem.value (JsValue.string effect) ∷ []
status_items _ = []

unfoldable pub fiber_items : Fiber → List WorkItem
unfolding control_items status_items
fiber_items f =
    control_items f.control ++ (WorkItem.env f.env ∷ WorkItem.cont f.cont ∷ status_items f.status)

abbrev pub fibers_items : List Fiber → List WorkItem
fibers_items [] = []
fibers_items (f ∷ fs) = fiber_items f ++ fibers_items fs

abbrev pub effect_items : List (StrId × EffectKind) → List WorkItem
effect_items = map λ e. WorkItem.value (JsValue.string e.0)

-- The roots, in the order of their pushes.
unfoldable pub roots : Cekh → List Fiber → List (StrId × EffectKind) → List WorkItem
unfolding control_items fiber_items
roots m fibers effects =
    effect_items effects
    ++ (control_items m.control
        ++ (WorkItem.env m.env
            ∷ WorkItem.cont m.cont
            ∷ (entry_items m.globals ++ fibers_items fibers)))
