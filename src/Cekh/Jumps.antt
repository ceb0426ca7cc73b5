-- ===== src/Cekh/Jumps.antt =====
-- src/cekh.rs: `handle_return`, `handle_break` and `handle_continue` unwind the continuation to a
-- call or to a loop.
pub mod Targets
pub mod Loops
pub mod Ends
use kryhtajs.Prelude.{
  ℕ, Bool, true, false, Option, none, some, ascii, JsError, syntax_error, Result, ok, err,
  if◌then◌else◌,
}
use kryhtajs.Value.{JsValue, EnvId, ContId}
use kryhtajs.Ast.{ExprId, StmtId, is_some}
use kryhtajs.Arena.{alloc}
use kryhtajs.Cont.{Kont, is_loop}
use kryhtajs.Cekh.State.{Control, Cekh}
use kryhtajs.Cekh.Walk.{nearest}

-- Where a return stops: a call's frame or the halt frame.
unfoldable pub stops_return : Kont → Bool
stops_return Kont.halt = true
stops_return (Kont.return_k env k) = true
stops_return _ = false

-- The arms that end the loop of `handle_return`, and its end without a frame.
unfoldable return_at : Option Kont → JsValue → Cekh → Cekh
return_at (some (Kont.return_k env k)) val m = record m {
  env = env;
  cont = k;
  control = Control.value val;
}
return_at _ val m = record m { control = Control.halted val }

unfoldable pub handle_return : JsValue → Cekh → Cekh
unfolding return_at stops_return nearest
handle_return val m = return_at (nearest stops_return m.conts m.cont) val m

-- Where `break` and `continue` stop: a loop's frame or the halt frame.
unfoldable pub stops_loop : Kont → Bool
unfolding is_loop
stops_loop Kont.halt = true
stops_loop kont = is_loop kont

pub break_outside_loop : JsError
break_outside_loop = syntax_error (ascii "break outside loop") 0 0

pub continue_outside_loop : JsError
continue_outside_loop = syntax_error (ascii "continue outside loop") 0 0

abbrev leave : ContId → Cekh → Result Cekh
leave k m = ok (record m { control = Control.value JsValue.undefined; cont = k })

unfoldable pub break_at : Option Kont → Cekh → Result Cekh
break_at (some (Kont.while_k test body env k)) m = leave k m
break_at (some (Kont.while_body_k test body env k)) m = leave k m
break_at (some (Kont.for_test_k test update body env k)) m = leave k m
break_at (some (Kont.for_test_result_k test update body env k)) m = leave k m
break_at (some (Kont.for_body_k test update body env k)) m = leave k m
break_at (some (Kont.for_update_k test update body env k)) m = leave k m
break_at _ m = err break_outside_loop

unfoldable pub handle_break : Cekh → Result Cekh
unfolding break_at stops_loop nearest
handle_break m = break_at (nearest stops_loop m.conts m.cont) m

-- The control, the environment and the new frame of a loop that goes on.
abbrev pub go_on : Control → EnvId → Kont → Cekh → Result Cekh
go_on control env kont m =
    let (conts, k) = alloc kont m.conts in
    ok (record m { control = control; env = env; conts = conts; cont = k })

abbrev continue_while : ExprId → StmtId → EnvId → ContId → Cekh → Result Cekh
continue_while test body env k m = go_on (Control.expr test) env (Kont.while_k test body env k) m

abbrev pub continue_for : ExprId → ExprId → StmtId → EnvId → ContId → Cekh → Result Cekh
continue_for test update body env k m =
    if is_some update
    then go_on (Control.expr update) env (Kont.for_update_k test update body env k) m
    else if is_some test
    then go_on (Control.expr test) env (Kont.for_test_k test update body env k) m
    else go_on (Control.value (JsValue.bool true)) env (Kont.for_test_k test update body env k) m

unfoldable pub continue_at : Option Kont → Cekh → Result Cekh
continue_at (some (Kont.while_k test body env k)) m = continue_while test body env k m
continue_at (some (Kont.while_body_k test body env k)) m = continue_while test body env k m
continue_at (some (Kont.for_test_k test update body env k)) m =
    continue_for test update body env k m
continue_at (some (Kont.for_test_result_k test update body env k)) m =
    continue_for test update body env k m
continue_at (some (Kont.for_body_k test update body env k)) m =
    continue_for test update body env k m
continue_at (some (Kont.for_update_k test update body env k)) m =
    continue_for test update body env k m
continue_at _ m = err continue_outside_loop

unfoldable pub handle_continue : Cekh → Result Cekh
unfolding continue_at stops_loop nearest
handle_continue m = continue_at (nearest stops_loop m.conts m.cont) m
