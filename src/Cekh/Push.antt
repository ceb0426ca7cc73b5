-- ===== src/Cekh/Push.antt =====
-- src/cekh.rs: what the arms of `step_expr` and `step_stmt` share.
pub mod Tops
use kryhtajs.Prelude.{Result, ok}
use kryhtajs.Value.{JsValue}
use kryhtajs.Ast.{ExprId}
use kryhtajs.Arena.{alloc}
use kryhtajs.Cont.{Kont}
use kryhtajs.Cekh.State.{Control, Cekh}

-- `self.cont = self.conts.alloc(kont)`
unfoldable pub push : Kont → Cekh → Cekh
push kont m = let (conts, k) = alloc kont m.conts in record m { conts = conts; cont = k }

-- `self.control = Control::Expr(e)`, then a frame for its value.
abbrev pub evaluate : ExprId → Kont → Cekh → Result Cekh
evaluate e kont m = ok (push kont (record m { control = Control.expr e }))

abbrev pub done : JsValue → Cekh → Result Cekh
done v m = ok (record m { control = Control.value v })
