-- ===== src/Cekh/State.antt =====
-- src/cekh.rs: the control and the state of the machine. The continuation arena of src/cont.rs is
-- the plain arena, with the halt frame in slot 0.
use kryhtajs.Prelude.{List}
use kryhtajs.Value.{JsValue, StrId, EnvId, ContId}
use kryhtajs.Ast.{ExprId, StmtId}
use kryhtajs.Arena.{Arena}
use kryhtajs.Cont.{Kont}
use kryhtajs.Env.{EnvArena}
use kryhtajs.Handler.{Handler}
use kryhtajs.Object.{Object}
use kryhtajs.StringPool.{StringPool}

pub data Control : Type 0 where
  expr : ExprId → Control
  stmt : StmtId → Control
  value : JsValue → Control
  returning : JsValue → Control
  halted : JsValue → Control
  suspend : StrId → List JsValue → Control

abbrev pub ContArena : Type 0
ContArena = Arena Kont

abbrev HandlerArena : Type 0
HandlerArena = Arena Handler

-- The counter `steps_spent`, which `run` alone writes, is a part of the result of `run`.
pub record Cekh : Type 0 where
  pub control : Control
  pub env : EnvId
  pub cont : ContId
  pub envs : EnvArena
  pub conts : ContArena
  pub handlers : HandlerArena
  pub objects : Arena Object
  pub strings : StringPool
  pub globals : List (StrId × JsValue)
