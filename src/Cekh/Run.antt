-- ===== src/Cekh/Run.antt =====
-- src/cekh.rs: `step`, `run` and `fresh_exec_setup`.
pub mod Slices
use kryhtajs.Prelude.{
  ℕ, zero, suc, ◌+◌, ◌^◌, ◌%◌, Bool, true, false, Option, none, some, List, [], ◌∷◌, length,
  JsError, Result, ok, err, if◌then◌else◌, ltb,
}
use kryhtajs.Value.{JsValue, StrId}
use kryhtajs.Ast.{AstArena, StmtId, get_stmt_list}
use kryhtajs.Arena.{take}
use kryhtajs.Cont.{Kont}
use kryhtajs.Floats.{Floats}
use kryhtajs.Cekh.State.{Cekh, Control}
use kryhtajs.Cekh.Apply.{apply_cont}
use kryhtajs.Cekh.Exprs.{Ends, step_expr}
use kryhtajs.Cekh.Jumps.{handle_return}
use kryhtajs.Cekh.Push.{push}
use kryhtajs.Cekh.Stmts.{step_stmt}

-- src/runtime.rs: how a run ends.
pub data Outcome : Type 0 where
  finished : JsValue → Outcome
  suspended : StrId → List JsValue → Outcome
  preempted : Outcome

-- The result of `run`: its outcome or its error, `steps_spent` and the machine.
pub data Ran : Type 0 where
  stopped : Outcome → ℕ → Cekh → Ran
  failed : JsError → ℕ → Cekh → Ran

-- The value of an empty program, or the machine at the first statement.
abbrev setup_list : List StmtId → AstArena → Cekh → Cekh × JsValue
setup_list [] ast m = (m, JsValue.undefined)
setup_list (s ∷ []) ast m = (record m { control = Control.stmt s; env = 0; cont = 0 }, JsValue.null)
setup_list (s ∷ s' ∷ ss) ast m = (
  push (Kont.seq_k ast.root_start 1 ast.root_count 0 0)
      (record m { control = Control.stmt s; env = 0; cont = 0 }),
  JsValue.null,
)

unfoldable pub fresh_exec_setup : AstArena → Cekh → Cekh × JsValue
unfolding push get_stmt_list
fresh_exec_setup ast m = setup_list (get_stmt_list ast ast.root_start ast.root_count) ast m

-- The allocations of the arenas that the collector sweeps.
unfoldable pub total_allocations : Cekh → ℕ
total_allocations m =
    m.objects.allocations + m.envs.allocations + m.conts.allocations + m.handlers.allocations

-- The outcome of a machine whose control ends the loop; a suspension takes its arguments out.
abbrev pub rest_at : Control → Cekh → Option (Outcome × Cekh)
rest_at (Control.halted v) m = some (Outcome.finished v, m)
rest_at (Control.suspend effect args) m =
    some (Outcome.suspended effect args, record m { control = Control.suspend effect [] })
rest_at _ m = none

unfoldable pub at_rest : Cekh → Option (Outcome × Cekh)
at_rest m = rest_at m.control m

unfoldable pub stop : Outcome × Cekh → ℕ → Ran
stop (outcome, m) spent = stopped outcome spent m

-- The machine after a step that fails: the control is taken, and so is the frame that a value is
-- given to; no step changes more before its error.
unfoldable pub abandoned : Cekh → Cekh
unfolding take
abandoned m = elim m.control [
  | Control.value v ↦ record m {
    control = Control.value JsValue.undefined;
    conts = (take Kont.halt m.conts m.cont).1;
  }
  | _ ↦ record m { control = Control.value JsValue.undefined }
]

module _ ⦃fl : Floats⦄ where
  unfoldable pub step_at : Control → AstArena → Cekh → Ends
  unfolding step_expr step_stmt apply_cont handle_return
  step_at (Control.expr e) ast m = step_expr e ast m
  step_at (Control.stmt s) ast m = some (step_stmt s ast m)
  step_at (Control.value v) ast m = apply_cont v ast m
  step_at (Control.returning v) ast m = some (ok (handle_return v m))
  step_at (Control.halted v) ast m = some (ok (record m { control = Control.halted v }))
  step_at (Control.suspend effect args) ast m =
      some (ok (record m { control = Control.suspend effect args }))

  unfoldable pub step : AstArena → Cekh → Ends
  unfolding step_at
  step ast m = step_at m.control ast (record m { control = Control.value JsValue.undefined })

  abbrev pub after_step : Ends → ℕ → Cekh → (Cekh → Option Ran) → Option Ran
  after_step none spent m continue = none
  after_step (some (err e)) spent m continue = some (failed e spent (abandoned m))
  after_step (some (ok next)) spent m continue = continue next

  -- The loop, on the steps that are left of the allowance and those that are spent; `none` where a
  -- step does not end.
  unfoldable pub run_loop : ℕ → ℕ → AstArena → Cekh → Option Ran
  unfolding step at_rest stop abandoned
  run_loop zero spent ast m = elim (at_rest m) [
    | some r ↦ some (stop r spent)
    | none ↦ some (stop (Outcome.preempted, m) spent)
  ]
  run_loop (suc left) spent ast m = elim (at_rest m) [
    | some r ↦ some (stop r spent)
    | none ↦ after_step (step ast m) spent m (run_loop left (spent + 1) ast)
  ]

  unfoldable pub run : AstArena → ℕ → Cekh → Option Ran
  unfolding run_loop
  run ast allowance m = run_loop allowance 0 ast m
