-- ===== src/Snapshot/Exprs/RoundTrip.antt =====
-- src/snapshot.rs: expressions survive a checkpoint.
use kryhtajs.Prelude.{◌≡◌, ◌++◌, append_assoc, arith, ok, nat_key}
use kryhtajs.Snapshot.Bytes.{Bytes}
use kryhtajs.Snapshot.Words.{u8_lem, u16_lem, u32_lem, i32_lem, bool_lem}
use kryhtajs.Snapshot.Ops.{binary_op_lem, unary_op_lem}
use kryhtajs.Ast.{Expr}
use kryhtajs.Snapshot.Exprs.{write_expr, read_expr, IsExpr}

-- An expression of any kind whose words fit their widths is read back as it was written, and the
-- reader stops where it ends.
pub expr_lem :
    (x : Expr) → IsExpr x → (rest : Bytes) → read_expr (write_expr x ++ rest) ≡ ok (x, rest)
unfolding write_expr read_expr
expr_lem Expr.empty fits rest = simp (u8_lem 0 (omega arith))
expr_lem Expr.undefined fits rest = simp (u8_lem 1 (omega arith))
expr_lem Expr.null fits rest = simp (u8_lem 2 (omega arith))
expr_lem (Expr.bool b) fits rest = simp (append_assoc, u8_lem 3 (omega arith), bool_lem b)
expr_lem (Expr.int n) fits rest = simp (append_assoc, u8_lem 4 (omega arith), i32_lem n fits)
expr_lem (Expr.float idx) fits rest = simp (append_assoc, u8_lem 5 (omega arith), u32_lem idx fits)
expr_lem (Expr.string s) fits rest = simp (append_assoc, u8_lem 6 (omega arith), u32_lem s fits)
expr_lem (Expr.identifier s) fits rest = simp (append_assoc, u8_lem 7 (omega arith), u32_lem s fits)
expr_lem (Expr.binary op left right) fits rest = simp (
  append_assoc,
  u8_lem 8 (omega arith),
  binary_op_lem op,
  u32_lem left fits.0,
  u32_lem right fits.1,
)
expr_lem (Expr.unary op operand) fits rest =
    simp (append_assoc, u8_lem 9 (omega arith), unary_op_lem op, u32_lem operand fits)
expr_lem (Expr.call callee args_start args_count) fits rest = simp (
  append_assoc,
  u8_lem 10 (omega arith),
  u32_lem callee fits.0,
  u32_lem args_start fits.1,
  u16_lem args_count fits.2,
)
expr_lem (Expr.member object property) fits rest =
    simp (append_assoc, u8_lem 11 (omega arith), u32_lem object fits.0, u32_lem property fits.1)
expr_lem (Expr.index object index) fits rest =
    simp (append_assoc, u8_lem 12 (omega arith), u32_lem object fits.0, u32_lem index fits.1)
expr_lem (Expr.assign target value) fits rest =
    simp (append_assoc, u8_lem 13 (omega arith), u32_lem target fits.0, u32_lem value fits.1)
expr_lem (Expr.conditional test consequent alternate) fits rest = simp (
  append_assoc,
  u8_lem 14 (omega arith),
  u32_lem test fits.0,
  u32_lem consequent fits.1,
  u32_lem alternate fits.2,
)
expr_lem (Expr.array elems_start elems_count) fits rest =
    simp (
      append_assoc,
      u8_lem 15 (omega arith),
      u32_lem elems_start fits.0,
      u16_lem elems_count fits.1,
    )
expr_lem (Expr.object props_start props_count) fits rest =
    simp (
      append_assoc,
      u8_lem 16 (omega arith),
      u32_lem props_start fits.0,
      u16_lem props_count fits.1,
    )
expr_lem (Expr.function name params_start params_count body) fits rest = simp (
  append_assoc,
  u8_lem 17 (omega arith),
  u32_lem name fits.0,
  u32_lem params_start fits.1,
  u16_lem params_count fits.2,
  u32_lem body fits.3,
)
expr_lem (Expr.handler clauses_start clauses_count return_param return_body) fits rest = simp (
  append_assoc,
  u8_lem 18 (omega arith),
  u32_lem clauses_start fits.0,
  u16_lem clauses_count fits.1,
  u32_lem return_param fits.2,
  u32_lem return_body fits.3,
)
expr_lem (Expr.arrow params_start params_count body is_block) fits rest = simp (
  append_assoc,
  u8_lem 19 (omega arith),
  u32_lem params_start fits.0,
  u16_lem params_count fits.1,
  u32_lem body fits.2,
  bool_lem is_block,
)
expr_lem Expr.this fits rest = simp (u8_lem 20 (omega arith))
expr_lem (Expr.block stmts_start stmts_count final_expr) fits rest = simp (
  append_assoc,
  u8_lem 21 (omega arith),
  u32_lem stmts_start fits.0,
  u32_lem stmts_count fits.1,
  u32_lem final_expr fits.2,
)
expr_lem (Expr.match scrutinee arms_start arms_count) fits rest = simp (
  append_assoc,
  u8_lem 22 (omega arith),
  u32_lem scrutinee fits.0,
  u32_lem arms_start fits.1,
  u16_lem arms_count fits.2,
)
expr_lem (Expr.perform effect args_start args_count) fits rest = simp (
  append_assoc,
  u8_lem 23 (omega arith),
  u32_lem effect fits.0,
  u32_lem args_start fits.1,
  u16_lem args_count fits.2,
)
expr_lem (Expr.handle body clauses_start clauses_count return_param return_body) fits rest = simp (
  append_assoc,
  u8_lem 24 (omega arith),
  u32_lem body fits.0,
  u32_lem clauses_start fits.1,
  u16_lem clauses_count fits.2,
  u32_lem return_param fits.3,
  u32_lem return_body fits.4,
)
expr_lem (Expr.handle_with body handler) fits rest =
    simp (append_assoc, u8_lem 25 (omega arith), u32_lem body fits.0, u32_lem handler fits.1)
