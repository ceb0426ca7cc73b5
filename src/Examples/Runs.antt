-- ===== src/Examples/Runs.antt =====
-- src/cekh.rs: a run of the expression `null` in slices.
use kryhtajs.Prelude.{◌+◌, ◌≤◌, ◌≡◌, refl, false, some, [], ◌∷◌, arith}
use kryhtajs.Value.{JsValue}
use kryhtajs.Ast as Tree
use kryhtajs.Ast.{AstArena, Expr}
use kryhtajs.Arena.{Arena, take, empty}
use kryhtajs.Cont.{Kont}
use kryhtajs.Env as Frames
use kryhtajs.Cekh.State.{Cekh, Control}
use kryhtajs.Cekh.Apply.{apply_cont}
use kryhtajs.Cekh.Exprs.{step_expr}
use kryhtajs.Cekh.Run.{Outcome, stopped, run, step, at_rest, stop}
use kryhtajs.Cekh.Run.Slices.{
  Steps, none_taken, one_more, Ended, later_all, run-Ended, run-within, run-run, run-Steps,
}
use kryhtajs.StringPool as Pool
use kryhtajs.Examples.Numbers.{whole_floats}

abbrev tree : AstArena
tree = record Tree.new { exprs = Expr.null ∷ [] }

abbrev halt_only : Arena Kont
halt_only = record { slots = Kont.halt ∷ []; free_list = []; marks = false ∷ []; allocations = 1 }

abbrev machine : Control → Cekh
machine control = record {
  control = control;
  env = 0;
  cont = 0;
  envs = Frames.new;
  conts = halt_only;
  handlers = empty;
  objects = empty;
  strings = Pool.new;
  globals = [];
}

first_slice :
    run tree 1 (machine (Control.expr 0))
    ≡ some (stopped Outcome.preempted 1 (machine (Control.value JsValue.null)))
unfolding run step_expr Tree.get_expr Tree.new
first_slice = refl

whole_run :
    run tree 5 (machine (Control.expr 0))
    ≡ some (stopped (Outcome.finished JsValue.null) 2 (machine (Control.halted JsValue.null)))
unfolding run step_expr apply_cont take Tree.get_expr Tree.new
whole_run = refl

two_steps : Steps tree (machine (Control.expr 0)) 2 (machine (Control.halted JsValue.null))
unfolding step at_rest step_expr apply_cont take Tree.get_expr Tree.new
two_steps = one_more refl refl (one_more refl refl none_taken)

run-run_example :
    run tree (1 + 4) (machine (Control.expr 0))
    ≡ later_all 1 (run tree 4 (machine (Control.value JsValue.null)))
run-run_example =
    run-run tree 1 4 (machine (Control.expr 0)) (machine (Control.value JsValue.null)) 1 first_slice

run-Ended_example :
    Ended tree 5 0
      (machine (Control.expr 0))
      (stopped (Outcome.finished JsValue.null) 2 (machine (Control.halted JsValue.null)))
run-Ended_example =
    run-Ended tree 5 (machine (Control.expr 0))
      (stopped (Outcome.finished JsValue.null) 2 (machine (Control.halted JsValue.null))) whole_run

run-within_example : 2 ≤ 5
run-within_example =
    run-within tree 5 (machine (Control.expr 0))
      (stopped (Outcome.finished JsValue.null) 2 (machine (Control.halted JsValue.null))) whole_run

run-Steps_example :
    run tree 5 (machine (Control.expr 0))
    ≡ some (stop (Outcome.finished JsValue.null, machine (Control.halted JsValue.null)) 2)
unfolding at_rest
run-Steps_example =
    run-Steps tree 5 2 (machine (Control.expr 0)) (machine (Control.halted JsValue.null))
      (Outcome.finished JsValue.null, machine (Control.halted JsValue.null)) two_steps refl
      (omega arith)
