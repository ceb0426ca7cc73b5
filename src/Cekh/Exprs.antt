-- ===== src/Cekh/Exprs.antt =====
-- src/cekh.rs, `step_expr`: the first step of an expression.
pub mod Pushes
use kryhtajs.Prelude.{
  ℕ, Bool, true, false, Option, none, some, List, [], ◌∷◌, ascii, type_error, internal_error,
  Result, ok, err, if◌then◌else◌, ltb, ◌==◌, lookup, nat_key,
}
use kryhtajs.Value.{JsValue, StrId}
use kryhtajs.Ast.{
  AstArena, ExprId, StmtId, Expr, UnaryOp, BinaryOp, PropEntry, is_none, get_expr, get_float,
  get_expr_list, get_prop_list, get_stmt_list,
}
use kryhtajs.Arena.{alloc}
use kryhtajs.Cont.{Kont}
use kryhtajs.Env.{lookup_name}
use kryhtajs.Handler.{Handler}
use kryhtajs.Object as Obj
use kryhtajs.Object.{
  Object, ObjectKind, FunctionData, new_function, arrow_expr, arrow_block, closure, with_kind,
}
use kryhtajs.Cekh.State.{Control, Cekh}
use kryhtajs.Cekh.Push.{push, evaluate, done}
use kryhtajs.Cekh.Perform.{do_perform}

-- A step that ends, with its result; `none` where the source panics or does not return.
abbrev pub Ends : Type 0
Ends = Option (Result Cekh)

abbrev or_else_value : Option JsValue → JsValue → JsValue
or_else_value none d = d
or_else_value (some v) d = v

abbrev float_or_zero : Option ℕ → ℕ
float_or_zero none = 0
float_or_zero (some f) = f

-- A variable of the environment, else a global, else undefined.
abbrev read_name : StrId → Cekh → JsValue
read_name name m = elim (lookup_name m.envs m.env name) [
  | some v ↦ v
  | none ↦ or_else_value (lookup name m.globals) JsValue.undefined
]

abbrev pub is_update : UnaryOp → Bool
is_update UnaryOp.pre_inc = true
is_update UnaryOp.post_inc = true
is_update UnaryOp.pre_dec = true
is_update UnaryOp.post_dec = true
is_update _ = false

abbrev pub is_pre : UnaryOp → Bool
is_pre UnaryOp.pre_inc = true
is_pre UnaryOp.pre_dec = true
is_pre _ = false

abbrev pub is_inc : UnaryOp → Bool
is_inc UnaryOp.pre_inc = true
is_inc UnaryOp.post_inc = true
is_inc _ = false

-- The frame of an update: the variable's where the operand is one, else the plain operator's.
abbrev pub update_frame : Option Expr → UnaryOp → Cekh → Kont
update_frame (some (Expr.identifier name)) op m =
    Kont.update_var_k name (is_pre op) (is_inc op) m.env m.cont
update_frame _ op m = Kont.unary_k op m.cont

abbrev pub unary_frame : Option Expr → UnaryOp → Cekh → Kont
unary_frame operand op m =
    if is_update op then update_frame operand op m else Kont.unary_k op m.cont

abbrev pub binary_frame : BinaryOp → ExprId → Cekh → Kont
binary_frame BinaryOp.and right m = Kont.and_k right m.env m.cont
binary_frame BinaryOp.or right m = Kont.or_k right m.env m.cont
binary_frame BinaryOp.nullish_coalesce right m = Kont.nullish_k right m.env m.cont
binary_frame op right m = Kont.binary_left_k op right m.env m.cont

abbrev pub step_assign : Option Expr → ExprId → Cekh → Result Cekh
step_assign (some (Expr.identifier name)) value m =
    evaluate value (Kont.assign_var_k name m.env m.cont) m
step_assign (some (Expr.member object property)) value m =
    evaluate object (Kont.assign_member_obj_k property value m.env m.cont) m
step_assign (some (Expr.index object index)) value m =
    evaluate object (Kont.assign_index_obj_k index value m.env m.cont) m
step_assign (some _) value m = err (type_error (ascii "Invalid assignment target"))
step_assign none value m = err (internal_error (ascii "Invalid assignment target"))

-- A new object as the value.
abbrev allocate : Object → (ℕ → JsValue) → Cekh → Result Cekh
allocate object value m =
    let (objects, id) = alloc object m.objects in done (value id) (record m { objects = objects })

-- The first of a list; the source indexes it and panics where there is none.
abbrev pub evaluate_first : List ExprId → Kont → Cekh → Ends
evaluate_first [] kont m = none
evaluate_first (e ∷ es) kont m = some (evaluate e kont m)

abbrev pub evaluate_first_value : List PropEntry → Kont → Cekh → Ends
evaluate_first_value [] kont m = none
evaluate_first_value (p ∷ ps) kont m = some (evaluate p.value kont m)

abbrev pub run_first : List StmtId → Kont → Cekh → Ends
run_first [] kont m = none
run_first (s ∷ ss) kont m = some (ok (push kont (record m { control = Control.stmt s })))

abbrev function_name : StrId → Option StrId
function_name name = if name == 0 then none else some name

abbrev arrow_data : ℕ → ℕ → ExprId → Bool → Cekh → FunctionData
arrow_data start count body true m = arrow_block start count body m.env
arrow_data start count body false m = arrow_expr start count body m.env

abbrev performed : Option Cekh → Ends
performed none = none
performed (some m) = some (ok m)

abbrev step_handler : Handler → Cekh → Result Cekh
step_handler h m =
    let (handlers, id) = alloc h m.handlers in
    done (JsValue.handler id) (record m { handlers = handlers })

unfoldable pub step_expr_at : Expr → AstArena → Cekh → Ends
unfolding with_kind
step_expr_at Expr.empty ast m = some (done JsValue.undefined m)
step_expr_at Expr.undefined ast m = some (done JsValue.undefined m)
step_expr_at Expr.null ast m = some (done JsValue.null m)
step_expr_at (Expr.bool b) ast m = some (done (JsValue.bool b) m)
step_expr_at (Expr.int n) ast m = some (done (JsValue.int n) m)
step_expr_at (Expr.float idx) ast m =
    some (done (JsValue.float (float_or_zero (get_float ast idx))) m)
step_expr_at (Expr.string s) ast m = some (done (JsValue.string s) m)
step_expr_at (Expr.identifier name) ast m = some (done (read_name name m) m)
step_expr_at Expr.this ast m = some (done JsValue.undefined m)
step_expr_at (Expr.unary op operand) ast m =
    some (evaluate operand (unary_frame (get_expr ast operand) op m) m)
step_expr_at (Expr.binary op left right) ast m = some (evaluate left (binary_frame op right m) m)
step_expr_at (Expr.member object property) ast m =
    some (evaluate object (Kont.member_k property m.cont) m)
step_expr_at (Expr.index object index) ast m =
    some (evaluate object (Kont.index_obj_k index m.env m.cont) m)
step_expr_at (Expr.assign target value) ast m = some (step_assign (get_expr ast target) value m)
step_expr_at (Expr.conditional test consequent alternate) ast m =
    some (evaluate test (Kont.cond_k consequent alternate m.env m.cont) m)
step_expr_at (Expr.array start count) ast m =
    if count == 0
    then some (allocate (with_kind (ObjectKind.array [])) JsValue.array m)
    else evaluate_first (get_expr_list ast start count) (Kont.array_k [] start 1 count m.env m.cont)
        m
step_expr_at (Expr.object start count) ast m =
    if count == 0
    then some (allocate Obj.new JsValue.object m)
    else evaluate_first_value (get_prop_list ast start count)
        (Kont.object_k [] start 1 count m.env m.cont) m
step_expr_at (Expr.call callee start count) ast m =
    some (evaluate callee (Kont.callee_k start count m.env m.cont) m)
step_expr_at (Expr.function name start count body) ast m = some (
    allocate (closure (new_function start count body m.env (function_name name))) JsValue.function
      m)
step_expr_at (Expr.arrow start count body is_block) ast m =
    some (allocate (closure (arrow_data start count body is_block m)) JsValue.function m)
step_expr_at (Expr.block start count final_expr) ast m =
    if count == 0
    then (if is_none final_expr
        then some (done JsValue.undefined m)
        else some (ok (record m { control = Control.expr final_expr })))
    else run_first (get_stmt_list ast start count)
        (Kont.block_k start 1 count final_expr m.env m.cont) m
step_expr_at (Expr.match scrutinee start count) ast m =
    some (evaluate scrutinee (Kont.match_k start 0 count m.env m.cont) m)
step_expr_at (Expr.perform effect start count) ast m =
    if ltb 0 count
    then evaluate_first (get_expr_list ast start count)
        (Kont.perform_args_k effect [] start 1 count m.env m.cont) m
    else performed (do_perform effect [] ast m)
step_expr_at (Expr.handle body start count param return_body) ast m =
    some (evaluate body (Kont.handler_k start count m.env return_body param m.cont) m)
step_expr_at (Expr.handler start count param return_body) ast m = some (
    step_handler
      (record {
        clauses_start = start;
        clauses_count = count;
        return_param = param;
        return_body = return_body;
        env = m.env;
      })
      m)
step_expr_at (Expr.handle_with body handler) ast m =
    some (evaluate handler (Kont.handle_with_k body m.env m.cont) m)

abbrev step_expr_found : Option Expr → AstArena → Cekh → Ends
step_expr_found none ast m = some (err (internal_error (ascii "Invalid expression ID")))
step_expr_found (some e) ast m = step_expr_at e ast m

unfoldable pub step_expr : ExprId → AstArena → Cekh → Ends
unfolding step_expr_at
step_expr id ast m = step_expr_found (get_expr ast id) ast m
