-- ===== src/Cont.antt =====
-- src/cont.rs: continuation frames, each with the index of the frame below it.
use kryhtajs.Prelude.{ℕ, Bool, true, false, Option, none, some, List}
use kryhtajs.Value.{JsValue, StrId, EnvId, ContId}
use kryhtajs.Ast.{ExprId, StmtId, BinaryOp, UnaryOp}

pub data Kont : Type 0 where
  halt : Kont
  unary_k : UnaryOp → ContId → Kont
  binary_left_k : BinaryOp → ExprId → EnvId → ContId → Kont
  binary_right_k : BinaryOp → JsValue → ContId → Kont
  and_k : ExprId → EnvId → ContId → Kont
  or_k : ExprId → EnvId → ContId → Kont
  nullish_k : ExprId → EnvId → ContId → Kont
  member_k : StrId → ContId → Kont
  index_obj_k : ExprId → EnvId → ContId → Kont
  index_key_k : JsValue → ContId → Kont
  assign_var_k : StrId → EnvId → ContId → Kont
  update_var_k : StrId → Bool → Bool → EnvId → ContId → Kont
  assign_member_obj_k : StrId → ExprId → EnvId → ContId → Kont
  assign_member_val_k : JsValue → StrId → ContId → Kont
  assign_index_obj_k : ExprId → ExprId → EnvId → ContId → Kont
  assign_index_key_k : JsValue → ExprId → EnvId → ContId → Kont
  assign_index_val_k : JsValue → JsValue → ContId → Kont
  if_k : StmtId → StmtId → EnvId → ContId → Kont
  cond_k : ExprId → ExprId → EnvId → ContId → Kont
  while_k : ExprId → StmtId → EnvId → ContId → Kont
  while_body_k : ExprId → StmtId → EnvId → ContId → Kont
  for_test_k : ExprId → ExprId → StmtId → EnvId → ContId → Kont
  for_test_result_k : ExprId → ExprId → StmtId → EnvId → ContId → Kont
  for_body_k : ExprId → ExprId → StmtId → EnvId → ContId → Kont
  for_update_k : ExprId → ExprId → StmtId → EnvId → ContId → Kont
  callee_k : ℕ → ℕ → EnvId → ContId → Kont
  args_k : JsValue → List JsValue → ℕ → ℕ → ℕ → EnvId → ContId → Kont
  return_k : EnvId → ContId → Kont
  return_expr_k : ContId → Kont
  array_k : List JsValue → ℕ → ℕ → ℕ → EnvId → ContId → Kont
  object_k : List (StrId × JsValue) → ℕ → ℕ → ℕ → EnvId → ContId → Kont
  let_k : StrId → EnvId → ContId → Kont
  const_k : StrId → EnvId → ContId → Kont
  var_k : StrId → EnvId → ContId → Kont
  seq_k : ℕ → ℕ → ℕ → EnvId → ContId → Kont
  expr_stmt_k : ContId → Kont
  block_k : ℕ → ℕ → ℕ → ExprId → EnvId → ContId → Kont
  match_k : ℕ → ℕ → ℕ → EnvId → ContId → Kont
  handler_k : ℕ → ℕ → EnvId → ExprId → StrId → ContId → Kont
  perform_args_k : StrId → List JsValue → ℕ → ℕ → ℕ → EnvId → ContId → Kont
  handle_with_k : ExprId → EnvId → ContId → Kont

-- The frame below.
unfoldable pub outer : Kont → Option ContId
outer Kont.halt = none
outer (Kont.unary_k _ k) = some k
outer (Kont.binary_left_k _ _ _ k) = some k
outer (Kont.binary_right_k _ _ k) = some k
outer (Kont.and_k _ _ k) = some k
outer (Kont.or_k _ _ k) = some k
outer (Kont.nullish_k _ _ k) = some k
outer (Kont.member_k _ k) = some k
outer (Kont.index_obj_k _ _ k) = some k
outer (Kont.index_key_k _ k) = some k
outer (Kont.assign_var_k _ _ k) = some k
outer (Kont.update_var_k _ _ _ _ k) = some k
outer (Kont.assign_member_obj_k _ _ _ k) = some k
outer (Kont.assign_member_val_k _ _ k) = some k
outer (Kont.assign_index_obj_k _ _ _ k) = some k
outer (Kont.assign_index_key_k _ _ _ k) = some k
outer (Kont.assign_index_val_k _ _ k) = some k
outer (Kont.if_k _ _ _ k) = some k
outer (Kont.cond_k _ _ _ k) = some k
outer (Kont.while_k _ _ _ k) = some k
outer (Kont.while_body_k _ _ _ k) = some k
outer (Kont.for_test_k _ _ _ _ k) = some k
outer (Kont.for_test_result_k _ _ _ _ k) = some k
outer (Kont.for_body_k _ _ _ _ k) = some k
outer (Kont.for_update_k _ _ _ _ k) = some k
outer (Kont.callee_k _ _ _ k) = some k
outer (Kont.args_k _ _ _ _ _ _ k) = some k
outer (Kont.return_k _ k) = some k
outer (Kont.return_expr_k k) = some k
outer (Kont.array_k _ _ _ _ _ k) = some k
outer (Kont.object_k _ _ _ _ _ k) = some k
outer (Kont.let_k _ _ k) = some k
outer (Kont.const_k _ _ k) = some k
outer (Kont.var_k _ _ k) = some k
outer (Kont.seq_k _ _ _ _ k) = some k
outer (Kont.expr_stmt_k k) = some k
outer (Kont.block_k _ _ _ _ _ k) = some k
outer (Kont.match_k _ _ _ _ k) = some k
outer (Kont.handler_k _ _ _ _ _ k) = some k
outer (Kont.perform_args_k _ _ _ _ _ _ k) = some k
outer (Kont.handle_with_k _ _ k) = some k

-- A frame of a loop, where `break` and `continue` stop.
unfoldable pub is_loop : Kont → Bool
is_loop (Kont.while_k _ _ _ _) = true
is_loop (Kont.while_body_k _ _ _ _) = true
is_loop (Kont.for_test_k _ _ _ _ _) = true
is_loop (Kont.for_test_result_k _ _ _ _ _) = true
is_loop (Kont.for_body_k _ _ _ _ _) = true
is_loop (Kont.for_update_k _ _ _ _ _) = true
is_loop _ = false
