-- ===== src/Cekh/Frames.antt =====
-- src/cekh.rs, `apply_cont`: the blocks of its arms.
use kryhtajs.Prelude.{
  ℕ, zero, suc, ◌+◌, Bool, true, false, Option, none, some, List, [], ◌∷◌, ◌++◌, get_elem?,
  if◌then◌else◌, ltb, leb, Result, ok, err, bind, syntax_error, internal_error, ascii, insert,
  nat_key,
}
use kryhtajs.Value.{JsValue, StrId, EnvId, ContId}
use kryhtajs.Ast.{
  AstArena, ExprId, StmtId, PropEntry, is_none, is_some, get_expr_list, get_prop_list,
  get_stmt_list,
}
use kryhtajs.Arena as Slots
use kryhtajs.Arena.{alloc, take}
use kryhtajs.Cont.{Kont}
use kryhtajs.Env.{assign, bind_one}
use kryhtajs.Handler.{Handler}
use kryhtajs.Object as Obj
use kryhtajs.Object.{Object, ObjectKind, Property, with_kind, plain}
use kryhtajs.StringPool.{StringPool}
use kryhtajs.Cekh.State.{Cekh, Control}
use kryhtajs.Cekh.Exprs.{Ends}
use kryhtajs.Cekh.Jumps.{go_on}
use kryhtajs.Cekh.Perform.{do_perform}
use kryhtajs.Cekh.Properties.{Objects}

-- The value, on the frame below.
abbrev pub pass : JsValue → ContId → Cekh → Result Cekh
pass v k m = ok (record m { control = Control.value v; cont = k })

-- The control and the environment, on the frame below.
abbrev pub proceed : Control → EnvId → ContId → Cekh → Result Cekh
proceed control env k m = ok (record m { control = control; env = env; cont = k })

abbrev pub on_value : Result JsValue → ContId → Cekh → Result Cekh
on_value r k m = bind r λ v. pass v k m

abbrev pub on_objects : Result Objects → JsValue → ContId → Cekh → Result Cekh
on_objects r v k m = bind r λ objects. pass v k (record m { objects = objects })

-- A result of an operator, with the pool that it leaves.
abbrev pub on_result : StringPool × JsValue → ContId → Cekh → Result Cekh
on_result (strings, v) k m = pass v k (record m { strings = strings })

abbrev pub on_binary : Option (StringPool × JsValue) → ContId → Cekh → Ends
on_binary none k m = none
on_binary (some r) k m = some (on_result r k m)

-- `and`, `or` and `??`: the value, or the operand on the right.
abbrev pub short_circuit : Bool → JsValue → ExprId → EnvId → ContId → Cekh → Result Cekh
short_circuit stop v right env k m =
    if stop then pass v k m else proceed (Control.expr right) env k m

unfoldable pub is_nullish : JsValue → Bool
is_nullish JsValue.null = true
is_nullish JsValue.undefined = true
is_nullish _ = false

-- An assignment to a name that no frame has goes to the globals.
unfoldable pub assign_or_global : StrId → JsValue → EnvId → Cekh → Cekh
unfolding assign
assign_or_global name v env m =
    let (envs, found) = assign m.envs env name v in
    if found
    then record m { envs = envs }
    else record m { envs = envs; globals = insert name v m.globals }

abbrev pub stmt_or_undefined : StmtId → Control
stmt_or_undefined s = if is_some s then Control.stmt s else Control.value JsValue.undefined

abbrev pub test_or_true : ExprId → Control
test_or_true test = if is_some test then Control.expr test else Control.value (JsValue.bool true)

unfoldable pub apply_for_test : ExprId → ExprId → StmtId → EnvId → ContId → Cekh → Result Cekh
apply_for_test test update body env k m =
    if is_some test
    then go_on (Control.expr test) env (Kont.for_test_result_k test update body env k) m
    else go_on (Control.stmt body) env (Kont.for_body_k test update body env k) m

unfoldable pub apply_for_body : ExprId → ExprId → StmtId → EnvId → ContId → Cekh → Result Cekh
apply_for_body test update body env k m =
    if is_some update
    then go_on (Control.expr update) env (Kont.for_update_k test update body env k) m
    else go_on (test_or_true test) env (Kont.for_test_k test update body env k) m

-- The element at the index; the source panics where the list has none.
abbrev pub evaluate_nth : List ExprId → ℕ → EnvId → Kont → Cekh → Ends
evaluate_nth es i env kont m = elim (get_elem? es i) [
  | none ↦ none
  | some e ↦ some (go_on (Control.expr e) env kont m)
]

unfoldable pub finish_array : List JsValue → ContId → Cekh → Result Cekh
unfolding with_kind
finish_array elements k m =
    let (objects, id) = alloc (with_kind (ObjectKind.array elements)) m.objects in
    pass (JsValue.array id) k (record m { objects = objects })

unfoldable pub insert_properties :
    List (StrId × JsValue) → List (StrId × Property) → List (StrId × Property)
unfolding plain
insert_properties [] m = m
insert_properties ((key, v) ∷ kvs) m = insert_properties kvs (insert key (plain v) m)

unfoldable pub finish_object : List (StrId × JsValue) → ContId → Cekh → Result Cekh
unfolding insert_properties Obj.new
finish_object done k m =
    let o : Object = record Obj.new { properties = insert_properties done [] } in
    let (objects, id) = alloc o m.objects in
    pass (JsValue.object id) k (record m { objects = objects })

-- The entry before the index, whose value has come.
abbrev entry_before : List PropEntry → ℕ → Option PropEntry
entry_before props zero = none
entry_before props (suc i) = get_elem? props i

abbrev next_property :
    List PropEntry → List (StrId × JsValue) → ℕ → ℕ → ℕ → EnvId → ContId → Cekh → Ends
next_property props done start idx count env k m =
    if leb count idx then some (finish_object done k m) else elim (get_elem? props idx) [
      | none ↦ none
      | some p ↦
          some (go_on (Control.expr p.value) env (Kont.object_k done start (idx + 1) count env k) m)
    ]

unfoldable pub apply_object :
    JsValue → List (StrId × JsValue) → ℕ → ℕ → ℕ → EnvId → ContId → AstArena → Cekh → Ends
unfolding finish_object
apply_object v done start idx count env k ast m =
    let props = get_prop_list ast start count in
    elim (entry_before props idx) [
      | none ↦ none
      | some p ↦ next_property props (done ++ (p.key, v) ∷ []) start idx count env k m
    ]

unfoldable pub apply_seq : JsValue → ℕ → ℕ → ℕ → EnvId → ContId → AstArena → Cekh → Ends
apply_seq v start idx count env k ast m =
    if leb count idx
    then some (pass v k m)
    else elim (get_elem? (get_stmt_list ast start count) idx) [
      | none ↦ none
      | some s ↦ some (
          if ltb (idx + 1) count
          then go_on (Control.stmt s) env (Kont.seq_k start (idx + 1) count env k) m
          else proceed (Control.stmt s) env k m)
    ]

unfoldable pub apply_block : ℕ → ℕ → ℕ → ExprId → EnvId → ContId → AstArena → Cekh → Ends
apply_block start idx count final_expr env k ast m =
    if ltb idx count
    then elim (get_elem? (get_stmt_list ast start count) idx) [
      | none ↦ none
      | some s ↦
          some (go_on (Control.stmt s) env (Kont.block_k start (idx + 1) count final_expr env k) m)
    ]
    else if is_none final_expr
    then some (proceed (Control.value JsValue.undefined) env k m)
    else some (proceed (Control.expr final_expr) env k m)

abbrev with_handler : Option Handler → ExprId → EnvId → ContId → Cekh → Result Cekh
with_handler none body env k m = err (internal_error (ascii "Invalid handler"))
with_handler (some h) body env k m =
    go_on (Control.expr body) env
      (Kont.handler_k h.clauses_start h.clauses_count h.env h.return_body h.return_param k) m

unfoldable pub apply_handle_with : JsValue → ExprId → EnvId → ContId → Cekh → Result Cekh
apply_handle_with (JsValue.handler id) body env k m =
    with_handler (Slots.get m.handlers id) body env k m
apply_handle_with _ body env k m = err (syntax_error (ascii "Expected handler") 0 0)

-- The return clause of a handler, where there is one.
unfoldable pub apply_handler : JsValue → ExprId → StrId → EnvId → ContId → Cekh → Result Cekh
unfolding bind_one
apply_handler v return_body return_param env k m =
    let (envs, return_env) = bind_one m.envs env return_param v in
    if is_some return_body
    then proceed (Control.expr return_body) return_env k (record m { envs = envs })
    else pass v k m

abbrev pub performed : Option Cekh → Ends
performed none = none
performed (some m) = some (ok m)

unfoldable pub apply_perform_args :
    JsValue → StrId → List JsValue → ℕ → ℕ → ℕ → EnvId → ContId → AstArena → Cekh → Ends
unfolding do_perform
apply_perform_args v effect done start idx count env k ast m =
    if ltb idx count
    then evaluate_nth (get_expr_list ast start count) idx env
        (Kont.perform_args_k effect (done ++ v ∷ []) start (idx + 1) count env k) m
    else performed (do_perform effect (done ++ v ∷ []) ast (record m { cont = k }))

unfoldable pub apply_array :
    JsValue → List JsValue → ℕ → ℕ → ℕ → EnvId → ContId → AstArena → Cekh → Ends
unfolding finish_array
apply_array v done start idx count env k ast m =
    if leb count idx
    then some (finish_array (done ++ v ∷ []) k m)
    else evaluate_nth (get_expr_list ast start count) idx env
        (Kont.array_k (done ++ v ∷ []) start (idx + 1) count env k) m
