-- ===== src/Handler.antt =====
-- src/handler.rs: a first-class effect handler.
use kryhtajs.Prelude.{ℕ}
use kryhtajs.Value.{StrId, EnvId}
use kryhtajs.Ast.{ExprId}

pub record Handler : Type 0 where
  pub clauses_start : ℕ
  pub clauses_count : ℕ
  pub return_param : StrId
  pub return_body : ExprId
  pub env : EnvId
