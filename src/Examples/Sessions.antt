-- ===== src/Examples/Sessions.antt =====
-- src/runtime.rs: rounds of the program `null;` with a budget of two steps. src/host.rs: a cycle.
use kryhtajs.Prelude.{
  ℕ, ◌+◌, ◌%◌, ◌≤◌, ◌^◌, ◌≡◌, refl, false, none, some, [], ◌∷◌, arith, message, err, ascii, Result,
}
use kryhtajs.Value.{JsValue}
use kryhtajs.Ast as Tree
use kryhtajs.Ast.{AstArena, Expr, Stmt}
use kryhtajs.Arena.{Arena, alloc, empty}
use kryhtajs.Cont.{Kont}
use kryhtajs.Env as Frames
use kryhtajs.Fuel as Fuel
use kryhtajs.Fuel.{remaining, set_root_budget}
use kryhtajs.Fuel.Conservation.{Spends}
use kryhtajs.Cekh.State.{Cekh, Control}
use kryhtajs.Fiber.{HostValue}
use kryhtajs.Host.{to_host_value}
use kryhtajs.Host.Converts.{to_host_value_ends}
use kryhtajs.Object.{ObjectKind, with_kind}
use kryhtajs.Runtime.State as State
use kryhtajs.Runtime.State.{Runtime}
use kryhtajs.Runtime.Effects.{WriteSnapshot}
use kryhtajs.Runtime.Schedule.{Round, ended, Rounds, run_scheduler}
use kryhtajs.Runtime.Entry.{fresh_run}
use kryhtajs.Runtime.Moves.{IsMetered}
use kryhtajs.Runtime.Turns.{runtime_of}
use kryhtajs.Runtime.Budget.{run_scheduler-Spends, scheduler_within_budget}
use kryhtajs.StringPool as Pool
use kryhtajs.Examples.Numbers.{whole_floats}

abbrev program : AstArena
program = record Tree.new {
  exprs = Expr.null ∷ [];
  stmts = Stmt.expr 0 ∷ [];
  stmt_lists = 0 ∷ [];
  root_start = 0;
  root_count = 1;
}

abbrev one_frame : Arena Kont
one_frame = record { slots = Kont.halt ∷ []; free_list = []; marks = false ∷ []; allocations = 1 }

abbrev two_steps_left : Runtime
two_steps_left =
    record (State.new (record {
      control = Control.value JsValue.undefined;
      env = 0;
      cont = 0;
      envs = Frames.new;
      conts = one_frame;
      handlers = empty;
      objects = empty;
      strings = Pool.new;
      globals = [];
    })) { meters = set_root_budget Fuel.new (some 2) }

abbrev unwritten : WriteSnapshot
unwritten path queue rt = none

abbrev started : Runtime
started = fresh_run program two_steps_left

abbrev or_start : Rounds → Round
or_start none = ended (err (message (ascii ""))) started
or_start (some r) = r

abbrev paused : Round
paused = or_start (run_scheduler unwritten program 3 JsValue.undefined started)

three_rounds : run_scheduler unwritten program 3 JsValue.undefined started ≡ some paused
unfolding run_scheduler fresh_run State.new Tree.get_stmt empty Frames.new alloc
three_rounds = refl

two_taken : (runtime_of paused).steps_total ≡ 2
unfolding run_scheduler fresh_run State.new Tree.get_stmt empty Frames.new alloc
two_taken = refl

limited : remaining two_steps_left.meters Fuel.root ≡ some 2
unfolding remaining set_root_budget Fuel.new
limited = refl

started-IsMetered : IsMetered started.meters started.fibers
unfolding fresh_run remaining set_root_budget Fuel.new
started-IsMetered = (omega arith, tt)

run_scheduler-Spends_example :
    (steps : ℕ) × Spends started.quantum (runtime_of paused).meters started.meters steps
    × ((runtime_of paused).steps_total % 2 ^ 64 ≡ (started.steps_total + steps) % 2 ^ 64)
    × IsMetered (runtime_of paused).meters (runtime_of paused).fibers
run_scheduler-Spends_example =
    run_scheduler-Spends unwritten program 3 JsValue.undefined started paused started-IsMetered
      three_rounds

scheduler_within_budget_example : (runtime_of paused).steps_total ≤ 2
scheduler_within_budget_example =
    scheduler_within_budget unwritten program 3 2 JsValue.undefined two_steps_left paused limited
      (omega arith) three_rounds

-- A machine with one array that holds itself.
abbrev cyclic : Cekh
cyclic = record two_steps_left.interpreter {
  objects = record {
    slots = with_kind (ObjectKind.array (JsValue.array 0 ∷ [])) ∷ [];
    free_list = [];
    marks = false ∷ [];
    allocations = 1;
  };
}

to_host_value_ends_example :
    (r : Result HostValue) × (to_host_value cyclic (JsValue.array 0) ≡ some r)
to_host_value_ends_example = to_host_value_ends cyclic (JsValue.array 0)
