-- ===== src/Snapshot/Stmts.antt =====
-- src/snapshot.rs: statements, by tag and fields.
pub mod RoundTrip
use kryhtajs.Prelude.{
  ℕ, zero, suc, ◌+◌, ◌^◌, ◌<◌, ◌≡◌, refl, Bool, true, false, Option, none, some, List, [], ◌∷◌,
  ◌++◌, append_assoc, arith, Text, ascii, decimal, message, Result, ok, err, length, All, ◌==◌,
  if◌then◌else◌, insert, nat_key, insert_all, map, length-append,
}
use kryhtajs.Snapshot.Bytes.{
  Bytes, Reader, ◌>>=◌, pure, fail, u8, u16, u32, u64, i32, f64, bool_, str_, read_u8, read_u16,
  read_u32, read_u64, read_i32, read_f64, read_bool_, read_str_, read_n, write_all,
}
use kryhtajs.Snapshot.Values.{
  write_value, read_value, IsValue, value_lem, write_seq_values, read_seq_values, IsValues,
  seq_values_lem, write_entries, read_entries, IsEntries, entries_lem, write_opt_u32, read_opt_u32,
  FitsOpt, opt_u32_lem,
}
use kryhtajs.Snapshot.Ops.{
  write_binary_op, read_binary_op, binary_op_lem, write_unary_op, read_unary_op, unary_op_lem,
}
use kryhtajs.Ast.{Stmt}

unfoldable pub write_stmt : Stmt → Bytes
write_stmt Stmt.empty = u8 0
write_stmt (Stmt.expr e) = u8 1 ++ u32 e
write_stmt (Stmt.let_stmt name init) = u8 2 ++ (u32 name ++ u32 init)
write_stmt (Stmt.const_stmt name init) = u8 3 ++ (u32 name ++ u32 init)
write_stmt (Stmt.var_stmt name init) = u8 4 ++ (u32 name ++ u32 init)
write_stmt (Stmt.if_stmt test consequent alternate) =
    u8 5 ++ (u32 test ++ (u32 consequent ++ u32 alternate))
write_stmt (Stmt.while_stmt test body) = u8 6 ++ (u32 test ++ u32 body)
write_stmt (Stmt.for_stmt init test update body) =
    u8 7 ++ (u32 init ++ (u32 test ++ (u32 update ++ u32 body)))
write_stmt (Stmt.block stmts_start stmts_count) = u8 8 ++ (u32 stmts_start ++ u32 stmts_count)
write_stmt (Stmt.declarations stmts_start stmts_count) =
    u8 9 ++ (u32 stmts_start ++ u32 stmts_count)
write_stmt (Stmt.return e) = u8 10 ++ u32 e
write_stmt Stmt.break = u8 11
write_stmt Stmt.continue = u8 12
write_stmt (Stmt.function name params_start params_count body) =
    u8 13 ++ (u32 name ++ (u32 params_start ++ (u16 params_count ++ u32 body)))

-- The words of a statement fit their widths.
abbrev pub IsStmt : Stmt → Type 0
IsStmt Stmt.empty = Unit
IsStmt (Stmt.expr e) = (e < 2 ^ 32)
IsStmt (Stmt.let_stmt name init) = (name < 2 ^ 32) × (init < 2 ^ 32)
IsStmt (Stmt.const_stmt name init) = (name < 2 ^ 32) × (init < 2 ^ 32)
IsStmt (Stmt.var_stmt name init) = (name < 2 ^ 32) × (init < 2 ^ 32)
IsStmt (Stmt.if_stmt test consequent alternate) =
    (test < 2 ^ 32) × (consequent < 2 ^ 32) × (alternate < 2 ^ 32)
IsStmt (Stmt.while_stmt test body) = (test < 2 ^ 32) × (body < 2 ^ 32)
IsStmt (Stmt.for_stmt init test update body) =
    (init < 2 ^ 32) × (test < 2 ^ 32) × (update < 2 ^ 32) × (body < 2 ^ 32)
IsStmt (Stmt.block stmts_start stmts_count) = (stmts_start < 2 ^ 32) × (stmts_count < 2 ^ 32)
IsStmt (Stmt.declarations stmts_start stmts_count) = (stmts_start < 2 ^ 32) × (stmts_count < 2 ^ 32)
IsStmt (Stmt.return e) = (e < 2 ^ 32)
IsStmt Stmt.break = Unit
IsStmt Stmt.continue = Unit
IsStmt (Stmt.function name params_start params_count body) =
    (name < 2 ^ 32) × (params_start < 2 ^ 32) × (params_count < 2 ^ 16) × (body < 2 ^ 32)

-- The arms of the match on the tag.
unfoldable stmt_of_tag : ℕ → Reader Stmt
stmt_of_tag tag =
    if tag == 0
    then pure Stmt.empty
    else if tag == 1
    then (do e ← read_u32; pure (Stmt.expr e))
    else if tag == 2
    then (do name ← read_u32; init ← read_u32; pure (Stmt.let_stmt name init))
    else if tag == 3
    then (do name ← read_u32; init ← read_u32; pure (Stmt.const_stmt name init))
    else if tag == 4
    then (do name ← read_u32; init ← read_u32; pure (Stmt.var_stmt name init))
    else if tag == 5
    then (do
      test ← read_u32
      consequent ← read_u32
      alternate ← read_u32
      pure (Stmt.if_stmt test consequent alternate))
    else if tag == 6
    then (do test ← read_u32; body ← read_u32; pure (Stmt.while_stmt test body))
    else if tag == 7
    then (do
      init ← read_u32
      test ← read_u32
      update ← read_u32
      body ← read_u32
      pure (Stmt.for_stmt init test update body))
    else if tag == 8
    then (do
      stmts_start ← read_u32
      stmts_count ← read_u32
      pure (Stmt.block stmts_start stmts_count))
    else if tag == 9
    then (do
      stmts_start ← read_u32
      stmts_count ← read_u32
      pure (Stmt.declarations stmts_start stmts_count))
    else if tag == 10
    then (do e ← read_u32; pure (Stmt.return e))
    else if tag == 11
    then pure Stmt.break
    else if tag == 12
    then pure Stmt.continue
    else if tag == 13
    then (do
      name ← read_u32
      params_start ← read_u32
      params_count ← read_u16
      body ← read_u32
      pure (Stmt.function name params_start params_count body))
    else fail (message (ascii "snapshot: bad stmt tag " ++ decimal tag))

unfoldable pub read_stmt : Reader Stmt
unfolding stmt_of_tag
read_stmt = do tag ← read_u8; stmt_of_tag tag
