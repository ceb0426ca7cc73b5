-- ===== src/Cekh/Stmts.antt =====
-- src/cekh.rs, `step_stmt`: the first step of a statement.
pub mod Pushes
use kryhtajs.Prelude.{
  ℕ, Bool, true, false, Option, none, some, List, [], ◌∷◌, ascii, syntax_error, internal_error,
  Result, ok, err, if◌then◌else◌, insert, nat_key,
}
use kryhtajs.Value.{JsValue, StrId, EnvId}
use kryhtajs.Ast.{AstArena, ExprId, StmtId, Stmt, is_none, is_some, get_stmt, get_stmt_list}
use kryhtajs.Arena.{alloc}
use kryhtajs.Cont.{Kont}
use kryhtajs.Env.{extend, define}
use kryhtajs.Object.{new_function, closure}
use kryhtajs.Cekh.State.{Control, Cekh}
use kryhtajs.Cekh.Push.{push, evaluate, done}
use kryhtajs.Cekh.Jumps.{handle_break, handle_continue}

-- The first of a list of statements, with a frame for the others where there are any.
abbrev pub start_list : List StmtId → ℕ → ℕ → Cekh → Cekh
start_list [] start count m = m
start_list (s ∷ []) start count m = record m { control = Control.stmt s }
start_list (s ∷ s' ∷ ss) start count m =
    push (Kont.seq_k start 1 count m.env m.cont) (record m { control = Control.stmt s })

-- A fresh environment below the current one.
abbrev pub enter : Cekh → Cekh
enter m = let (envs, env) = extend m.envs m.env in record m { envs = envs; env = env }

abbrev pub step_block : List StmtId → ℕ → ℕ → Cekh → Result Cekh
step_block [] start count m = done JsValue.undefined m
step_block (s ∷ ss) start count m = ok (start_list (s ∷ ss) start count (enter m))

abbrev pub step_declarations : List StmtId → ℕ → ℕ → Cekh → Result Cekh
step_declarations [] start count m = done JsValue.undefined m
step_declarations (s ∷ ss) start count m = ok (start_list (s ∷ ss) start count m)

abbrev pub step_for : StmtId → ExprId → ExprId → StmtId → Cekh → Result Cekh
step_for init test update body m =
    if is_some init
    then ok (
        push (Kont.for_test_k test update body m.env m.cont)
          (record m { control = Control.stmt init }))
    else ok (
        push (Kont.for_test_k test update body m.env m.cont)
          (record m { control = Control.expr test }))

-- A function statement allocates its closure and binds it in the environment and the globals.
abbrev step_function : StrId → ℕ → ℕ → StmtId → Cekh → Result Cekh
step_function name start count body m =
    let (objects, id) =
      alloc (closure (new_function start count body m.env (some name))) m.objects in
    done JsValue.undefined (record m {
      objects = objects;
      envs = define m.envs m.env name (JsValue.function id);
      globals = insert name (JsValue.function id) m.globals;
    })

unfoldable pub step_stmt_at : Stmt → AstArena → Cekh → Result Cekh
step_stmt_at Stmt.empty ast m = done JsValue.undefined m
step_stmt_at (Stmt.expr e) ast m = evaluate e (Kont.expr_stmt_k m.cont) m
step_stmt_at (Stmt.let_stmt name init) ast m =
    if is_some init
    then evaluate init (Kont.let_k name m.env m.cont) m
    else done JsValue.undefined (record m { envs = define m.envs m.env name JsValue.undefined })
step_stmt_at (Stmt.const_stmt name init) ast m =
    if is_some init
    then evaluate init (Kont.const_k name m.env m.cont) m
    else err (syntax_error (ascii "const requires initializer") 0 0)
step_stmt_at (Stmt.var_stmt name init) ast m =
    if is_some init
    then evaluate init (Kont.var_k name m.env m.cont) m
    else done JsValue.undefined (record m { globals = insert name JsValue.undefined m.globals })
step_stmt_at (Stmt.if_stmt test consequent alternate) ast m =
    evaluate test (Kont.if_k consequent alternate m.env m.cont) m
step_stmt_at (Stmt.while_stmt test body) ast m =
    evaluate test (Kont.while_k test body m.env m.cont) m
step_stmt_at (Stmt.for_stmt init test update body) ast m = step_for init test update body (enter m)
step_stmt_at (Stmt.block start count) ast m =
    step_block (get_stmt_list ast start count) start count m
step_stmt_at (Stmt.declarations start count) ast m =
    step_declarations (get_stmt_list ast start count) start count m
step_stmt_at (Stmt.return e) ast m =
    if is_some e
    then evaluate e (Kont.return_expr_k m.cont) m
    else ok (record m { control = Control.returning JsValue.undefined })
step_stmt_at Stmt.break ast m = handle_break m
step_stmt_at Stmt.continue ast m = handle_continue m
step_stmt_at (Stmt.function name start count body) ast m = step_function name start count body m

abbrev step_found : Option Stmt → AstArena → Cekh → Result Cekh
step_found none ast m = err (internal_error (ascii "Invalid statement ID"))
step_found (some s) ast m = step_stmt_at s ast m

unfoldable pub step_stmt : StmtId → AstArena → Cekh → Result Cekh
unfolding step_stmt_at
step_stmt id ast m =
    if is_none id then done JsValue.undefined m else step_found (get_stmt ast id) ast m
