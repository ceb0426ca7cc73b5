-- ===== src/Examples/Machine.antt =====
-- src/cekh.rs: an effect inside a handler inside a loop inside a call.
use kryhtajs.Prelude.{ℕ, ◌≡◌, refl, false, none, some, List, [], ◌∷◌, arith, ok}
use kryhtajs.Value.{JsValue}
use kryhtajs.Ast as Tree
use kryhtajs.Ast.{AstArena, EffectClause, Stmt, Expr, BinaryOp}
use kryhtajs.Arena.{Arena, get, IsWellFormed, empty}
use kryhtajs.Cont.{Kont, outer, is_loop}
use kryhtajs.Env.{Env, Bindings, unused, get_local}
use kryhtajs.Cekh.State.{Cekh, Control, ContArena}
use kryhtajs.Cekh.Walk.{Nearest, here, further, Stack, on, last}
use kryhtajs.Cekh.Jumps.{handle_return, handle_break, handle_continue, stops_return, stops_loop}
use kryhtajs.Cekh.Jumps.Targets.{handle_return-Nearest, handle_break-Nearest}
use kryhtajs.Cekh.Jumps.Loops.{GoesOn, handle_continue-Nearest}
use kryhtajs.Cekh.Jumps.Ends.{LoopJumps, ReturnJump, jumps_on_stack}
use kryhtajs.Cekh.Apply.{apply_kont}
use kryhtajs.Examples.Numbers.{whole_floats}
use kryhtajs.Cekh.Rebuild.{rebuilt, rebuilt_lem}
use kryhtajs.Cekh.Perform.{stops_effect, do_perform, rebase_continuation, is_handler, stops_capture}
use kryhtajs.Cekh.Perform.Handled.{do_perform-Nearest, do_perform-halt}
use kryhtajs.Cekh.Perform.Rebased.{Capture, handler, inner, StandsOn, rebase_continuation-Capture}
use kryhtajs.Cekh.Push.{push}
use kryhtajs.Cekh.Push.Tops.{Tops}
use kryhtajs.Cekh.Stmts.{step_stmt}
use kryhtajs.Cekh.Stmts.Pushes.{step_stmt-Tops}
use kryhtajs.Cekh.Exprs.{step_expr}
use kryhtajs.Cekh.Exprs.Pushes.{step_expr-Tops}
use kryhtajs.Arena.{alloc}
use kryhtajs.StringPool as Pool

abbrev call_frame : Kont
call_frame = Kont.return_k 0 0

abbrev loop_frame : Kont
loop_frame = Kont.while_k 5 6 0 1

abbrev handler_frame : Kont
handler_frame = Kont.handler_k 0 1 0 7 8 2

abbrev stmt_frame : Kont
stmt_frame = Kont.expr_stmt_k 3

abbrev frames : ContArena
frames = record {
  slots = Kont.halt ∷ call_frame ∷ loop_frame ∷ handler_frame ∷ stmt_frame ∷ [];
  free_list = [];
  marks = false ∷ false ∷ false ∷ false ∷ false ∷ [];
  allocations = 5;
}

frames-IsWellFormed : IsWellFormed frames
frames-IsWellFormed = record { marked = refl; in_range = tt; distinct = tt; small = omega arith }

abbrev globals_only : Arena Env
globals_only = record {
  slots = record { bindings = Bindings.small unused unused 0; parent = none } ∷ [];
  free_list = [];
  marks = false ∷ [];
  allocations = 1;
}

globals_only-IsWellFormed : IsWellFormed globals_only
globals_only-IsWellFormed = record {
  marked = refl;
  in_range = tt;
  distinct = tt;
  small = omega arith;
}

abbrev machine_at : ℕ → Cekh
machine_at k = record {
  control = Control.returning JsValue.null;
  env = 0;
  cont = k;
  envs = globals_only;
  conts = frames;
  handlers = empty;
  objects = empty;
  strings = Pool.new;
  globals = [];
}

return_from_four : Nearest stops_return frames 4 call_frame
unfolding get stops_return outer
return_from_four = further stmt_frame 3 refl refl refl (
    further handler_frame 2 refl refl refl
      (further loop_frame 1 refl refl refl (here call_frame refl refl)))

loop_from_four : Nearest stops_loop frames 4 loop_frame
unfolding get stops_loop is_loop outer
loop_from_four =
    further stmt_frame 3 refl refl refl
      (further handler_frame 2 refl refl refl (here loop_frame refl refl))

handle_return-Nearest_example :
    handle_return JsValue.null (machine_at 4)
    ≡ record (machine_at 4) { env = 0; cont = 0; control = Control.value JsValue.null }
handle_return-Nearest_example =
    handle_return-Nearest (machine_at 4) JsValue.null 0 0 return_from_four

handle_break-Nearest_example :
    handle_break (machine_at 4)
    ≡ ok (record (machine_at 4) { control = Control.value JsValue.undefined; cont = 1 })
unfolding is_loop outer
handle_break-Nearest_example =
    handle_break-Nearest (machine_at 4) loop_frame 1 loop_from_four refl refl

-- A statement in the body of a `for` loop with the test 5 and the update 8.
abbrev counted : Kont
counted = Kont.for_body_k 5 8 6 0 0

abbrev in_for : Cekh
in_for = record (machine_at 2) {
  conts = record frames { slots = Kont.halt ∷ counted ∷ Kont.expr_stmt_k 1 ∷ [] };
}

for_from_two : Nearest is_loop in_for.conts 2 counted
unfolding get is_loop outer
for_from_two = further (Kont.expr_stmt_k 1) 1 refl refl refl (here counted refl refl)

handle_continue-Nearest_example :
    GoesOn counted in_for (handle_continue in_for)
    × (apply_kont counted JsValue.null Tree.new in_for ≡ some (handle_continue in_for))
handle_continue-Nearest_example =
    handle_continue-Nearest JsValue.null Tree.new in_for counted for_from_two

-- Two statements in a call, without a loop.
abbrev called : List Kont
called = Kont.expr_stmt_k 2 ∷ Kont.expr_stmt_k 1 ∷ call_frame ∷ Kont.halt ∷ []

abbrev in_call : Cekh
in_call = record (machine_at 3) {
  conts = record frames {
    slots = Kont.halt ∷ call_frame ∷ Kont.expr_stmt_k 1 ∷ Kont.expr_stmt_k 2 ∷ [];
  };
}

in_call-Stack : Stack in_call.conts 3 called
unfolding get outer
in_call-Stack =
    on (Kont.expr_stmt_k 2) 2 refl refl
      (on (Kont.expr_stmt_k 1) 1 refl refl (on call_frame 0 refl refl (last Kont.halt refl refl)))

jumps_on_stack_example :
    LoopJumps called in_call (handle_break in_call) (handle_continue in_call)
    × ReturnJump called JsValue.null in_call (handle_return JsValue.null in_call)
jumps_on_stack_example = jumps_on_stack in_call JsValue.null called in_call-Stack

rebuilt_lem_example :
    (outer (rebuilt handler_frame 9) ≡ some 9)
    × (rebuilt (rebuilt handler_frame 9) 2 ≡ handler_frame)
unfolding outer
rebuilt_lem_example = rebuilt_lem handler_frame 2 9 refl

-- One clause, for the effect 9, with the parameters 11 and 12.
abbrev clause_nine : EffectClause
clause_nine = record { effect = 9; params_start = 0; params_count = 2; body = 13 }

abbrev tree : AstArena
tree = record Tree.new { param_lists = 11 ∷ 12 ∷ []; effect_clauses = clause_nine ∷ [] }

effect_from_four : Nearest (stops_effect tree 9) frames 4 handler_frame
unfolding get stops_effect outer Tree.get_effect_clause_list Tree.new
effect_from_four = further stmt_frame 3 refl refl refl (here handler_frame refl refl)

do_perform-Nearest_example :
    (m' : Cekh) × (frame : Env) × (do_perform 9 (JsValue.null ∷ []) tree (machine_at 4) ≡ some m')
    × (m'.control ≡ Control.expr 13)
    × (m'.cont ≡ 2)
    × (get m'.envs m'.env ≡ some frame)
    × (frame.parent ≡ some 0)
    × (get_local frame 12 ≡ some (JsValue.continuation 4 0))
unfolding Tree.get_effect_clause_list Tree.get_param_list Tree.new
do_perform-Nearest_example =
    do_perform-Nearest tree 9 (JsValue.null ∷ []) (machine_at 4) 0 1 0 7 8 2 clause_nine (11 ∷ [])
      12 globals_only-IsWellFormed effect_from_four refl refl

-- No handler of the chain has a clause for the effect 10.
do_perform-halt_example :
    do_perform 10 [] tree (machine_at 4)
    ≡ some (record (machine_at 4) { control = Control.suspend 10 [] })
unfolding get stops_effect outer Tree.get_effect_clause_list Tree.new
do_perform-halt_example = do_perform-halt tree 10 [] (machine_at 4) (
    further stmt_frame 3 refl refl refl (
      further handler_frame 2 refl refl refl (
        further loop_frame 1 refl refl refl
          (further call_frame 0 refl refl refl (here Kont.halt refl refl)))))

Capture-from_four : Capture frames 4 (stmt_frame ∷ []) handler_frame
unfolding get stops_capture is_handler outer
Capture-from_four = inner stmt_frame 3 refl refl refl (handler handler_frame refl refl)

rebase_continuation-Capture_example :
    StandsOn
      (rebase_continuation frames 4 1).0
      (rebase_continuation frames 4 1).1
      (stmt_frame ∷ handler_frame ∷ [])
      1
    × IsWellFormed (rebase_continuation frames 4 1).0
    × (get (rebase_continuation frames 4 1).0 3 ≡ get frames 3)
rebase_continuation-Capture_example =
    rebase_continuation-Capture frames 4 1 3 (stmt_frame ∷ []) handler_frame frames-IsWellFormed
      (omega arith) Capture-from_four (record { exists = omega arith; taken = refl })

-- A loop as statement 0 and a sum as expression 0.
abbrev steps_tree : AstArena
steps_tree = record Tree.new {
  stmts = Stmt.while_stmt 5 6 ∷ [];
  exprs = Expr.binary BinaryOp.add 1 2 ∷ [];
}

-- The machine at frame 4 after a step that puts `kont` on it and evaluates `e`.
abbrev one_more : Tree.ExprId → Kont → Cekh
one_more e kont = record (machine_at 4) {
  control = Control.expr e;
  cont = 5;
  conts = record {
    slots = Kont.halt ∷ call_frame ∷ loop_frame ∷ handler_frame ∷ stmt_frame ∷ kont ∷ [];
    free_list = [];
    marks = false ∷ false ∷ false ∷ false ∷ false ∷ false ∷ [];
    allocations = 6;
  };
}

step_stmt-Tops_example : Tops (machine_at 4) 3 (one_more 5 (Kont.while_k 5 6 0 4))
unfolding step_stmt push alloc Tree.get_stmt Tree.new
step_stmt-Tops_example =
    step_stmt-Tops (machine_at 4) 3 frames-IsWellFormed (omega arith)
      (record { exists = omega arith; taken = refl }) 0 (Stmt.while_stmt 5 6) steps_tree
      (one_more 5 (Kont.while_k 5 6 0 4)) refl refl refl

step_expr-Tops_example : Tops (machine_at 4) 3 (one_more 1 (Kont.binary_left_k BinaryOp.add 2 0 4))
unfolding step_expr push alloc Tree.get_expr Tree.new
step_expr-Tops_example =
    step_expr-Tops (machine_at 4) 3 frames-IsWellFormed (omega arith)
      (record { exists = omega arith; taken = refl }) 0 (Expr.binary BinaryOp.add 1 2) steps_tree
      (one_more 1 (Kont.binary_left_k BinaryOp.add 2 0 4)) refl refl refl
