-- ===== src/Snapshot/Stmts/RoundTrip.antt =====
-- src/snapshot.rs: statements survive a checkpoint.
use kryhtajs.Prelude.{◌≡◌, ◌++◌, append_assoc, arith, ok, nat_key}
use kryhtajs.Snapshot.Bytes.{Bytes}
use kryhtajs.Snapshot.Words.{u8_lem, u16_lem, u32_lem}
use kryhtajs.Ast.{Stmt}
use kryhtajs.Snapshot.Stmts.{write_stmt, read_stmt, IsStmt}

-- A statement of any kind whose words fit their widths is read back as it was written, and the
-- reader stops where it ends.
pub stmt_lem :
    (x : Stmt) → IsStmt x → (rest : Bytes) → read_stmt (write_stmt x ++ rest) ≡ ok (x, rest)
unfolding write_stmt read_stmt
stmt_lem Stmt.empty fits rest = simp (u8_lem 0 (omega arith))
stmt_lem (Stmt.expr e) fits rest = simp (append_assoc, u8_lem 1 (omega arith), u32_lem e fits)
stmt_lem (Stmt.let_stmt name init) fits rest =
    simp (append_assoc, u8_lem 2 (omega arith), u32_lem name fits.0, u32_lem init fits.1)
stmt_lem (Stmt.const_stmt name init) fits rest =
    simp (append_assoc, u8_lem 3 (omega arith), u32_lem name fits.0, u32_lem init fits.1)
stmt_lem (Stmt.var_stmt name init) fits rest =
    simp (append_assoc, u8_lem 4 (omega arith), u32_lem name fits.0, u32_lem init fits.1)
stmt_lem (Stmt.if_stmt test consequent alternate) fits rest = simp (
  append_assoc,
  u8_lem 5 (omega arith),
  u32_lem test fits.0,
  u32_lem consequent fits.1,
  u32_lem alternate fits.2,
)
stmt_lem (Stmt.while_stmt test body) fits rest =
    simp (append_assoc, u8_lem 6 (omega arith), u32_lem test fits.0, u32_lem body fits.1)
stmt_lem (Stmt.for_stmt init test update body) fits rest = simp (
  append_assoc,
  u8_lem 7 (omega arith),
  u32_lem init fits.0,
  u32_lem test fits.1,
  u32_lem update fits.2,
  u32_lem body fits.3,
)
stmt_lem (Stmt.block stmts_start stmts_count) fits rest =
    simp
      (append_assoc, u8_lem 8 (omega arith), u32_lem stmts_start fits.0, u32_lem stmts_count fits.1)
stmt_lem (Stmt.declarations stmts_start stmts_count) fits rest =
    simp
      (append_assoc, u8_lem 9 (omega arith), u32_lem stmts_start fits.0, u32_lem stmts_count fits.1)
stmt_lem (Stmt.return e) fits rest = simp (append_assoc, u8_lem 10 (omega arith), u32_lem e fits)
stmt_lem Stmt.break fits rest = simp (u8_lem 11 (omega arith))
stmt_lem Stmt.continue fits rest = simp (u8_lem 12 (omega arith))
stmt_lem (Stmt.function name params_start params_count body) fits rest = simp (
  append_assoc,
  u8_lem 13 (omega arith),
  u32_lem name fits.0,
  u32_lem params_start fits.1,
  u16_lem params_count fits.2,
  u32_lem body fits.3,
)
