-- ===== src/Snapshot/Exprs.antt =====
-- src/snapshot.rs: expressions, by tag and fields.
pub mod RoundTrip
use kryhtajs.Prelude.{
  ℕ, zero, suc, ◌+◌, ◌^◌, ◌<◌, ◌≡◌, refl, Bool, true, false, Option, none, some, List, [], ◌∷◌,
  ◌++◌, append_assoc, arith, Text, ascii, decimal, message, Result, ok, err, length, All, ◌==◌,
  if◌then◌else◌, insert, nat_key, insert_all, map, length-append,
}
use kryhtajs.Snapshot.Bytes.{
  Bytes, Reader, ◌>>=◌, pure, fail, u8, u16, u32, u64, i32, f64, bool_, str_, read_u8, read_u16,
  read_u32, read_u64, read_i32, read_f64, read_bool_, read_str_, read_n, write_all,
}
use kryhtajs.Snapshot.Values.{
  write_value, read_value, IsValue, value_lem, write_seq_values, read_seq_values, IsValues,
  seq_values_lem, write_entries, read_entries, IsEntries, entries_lem, write_opt_u32, read_opt_u32,
  FitsOpt, opt_u32_lem,
}
use kryhtajs.Snapshot.Ops.{
  write_binary_op, read_binary_op, binary_op_lem, write_unary_op, read_unary_op, unary_op_lem,
}
use kryhtajs.Ast.{Expr}

unfoldable pub write_expr : Expr → Bytes
write_expr Expr.empty = u8 0
write_expr Expr.undefined = u8 1
write_expr Expr.null = u8 2
write_expr (Expr.bool b) = u8 3 ++ bool_ b
write_expr (Expr.int n) = u8 4 ++ i32 n
write_expr (Expr.float idx) = u8 5 ++ u32 idx
write_expr (Expr.string s) = u8 6 ++ u32 s
write_expr (Expr.identifier s) = u8 7 ++ u32 s
write_expr (Expr.binary op left right) = u8 8 ++ (write_binary_op op ++ (u32 left ++ u32 right))
write_expr (Expr.unary op operand) = u8 9 ++ (write_unary_op op ++ u32 operand)
write_expr (Expr.call callee args_start args_count) =
    u8 10 ++ (u32 callee ++ (u32 args_start ++ u16 args_count))
write_expr (Expr.member object property) = u8 11 ++ (u32 object ++ u32 property)
write_expr (Expr.index object index) = u8 12 ++ (u32 object ++ u32 index)
write_expr (Expr.assign target value) = u8 13 ++ (u32 target ++ u32 value)
write_expr (Expr.conditional test consequent alternate) =
    u8 14 ++ (u32 test ++ (u32 consequent ++ u32 alternate))
write_expr (Expr.array elems_start elems_count) = u8 15 ++ (u32 elems_start ++ u16 elems_count)
write_expr (Expr.object props_start props_count) = u8 16 ++ (u32 props_start ++ u16 props_count)
write_expr (Expr.function name params_start params_count body) =
    u8 17 ++ (u32 name ++ (u32 params_start ++ (u16 params_count ++ u32 body)))
write_expr (Expr.handler clauses_start clauses_count return_param return_body) =
    u8 18 ++ (u32 clauses_start ++ (u16 clauses_count ++ (u32 return_param ++ u32 return_body)))
write_expr (Expr.arrow params_start params_count body is_block) =
    u8 19 ++ (u32 params_start ++ (u16 params_count ++ (u32 body ++ bool_ is_block)))
write_expr Expr.this = u8 20
write_expr (Expr.block stmts_start stmts_count final_expr) =
    u8 21 ++ (u32 stmts_start ++ (u32 stmts_count ++ u32 final_expr))
write_expr (Expr.match scrutinee arms_start arms_count) =
    u8 22 ++ (u32 scrutinee ++ (u32 arms_start ++ u16 arms_count))
write_expr (Expr.perform effect args_start args_count) =
    u8 23 ++ (u32 effect ++ (u32 args_start ++ u16 args_count))
write_expr (Expr.handle body clauses_start clauses_count return_param return_body) =
    u8 24
    ++ (u32 body
        ++ (u32 clauses_start ++ (u16 clauses_count ++ (u32 return_param ++ u32 return_body))))
write_expr (Expr.handle_with body handler) = u8 25 ++ (u32 body ++ u32 handler)

-- The words of an expression fit their widths.
abbrev pub IsExpr : Expr → Type 0
IsExpr Expr.empty = Unit
IsExpr Expr.undefined = Unit
IsExpr Expr.null = Unit
IsExpr (Expr.bool b) = Unit
IsExpr (Expr.int n) = (n < 2 ^ 32)
IsExpr (Expr.float idx) = (idx < 2 ^ 32)
IsExpr (Expr.string s) = (s < 2 ^ 32)
IsExpr (Expr.identifier s) = (s < 2 ^ 32)
IsExpr (Expr.binary op left right) = (left < 2 ^ 32) × (right < 2 ^ 32)
IsExpr (Expr.unary op operand) = (operand < 2 ^ 32)
IsExpr (Expr.call callee args_start args_count) =
    (callee < 2 ^ 32) × (args_start < 2 ^ 32) × (args_count < 2 ^ 16)
IsExpr (Expr.member object property) = (object < 2 ^ 32) × (property < 2 ^ 32)
IsExpr (Expr.index object index) = (object < 2 ^ 32) × (index < 2 ^ 32)
IsExpr (Expr.assign target value) = (target < 2 ^ 32) × (value < 2 ^ 32)
IsExpr (Expr.conditional test consequent alternate) =
    (test < 2 ^ 32) × (consequent < 2 ^ 32) × (alternate < 2 ^ 32)
IsExpr (Expr.array elems_start elems_count) = (elems_start < 2 ^ 32) × (elems_count < 2 ^ 16)
IsExpr (Expr.object props_start props_count) = (props_start < 2 ^ 32) × (props_count < 2 ^ 16)
IsExpr (Expr.function name params_start params_count body) =
    (name < 2 ^ 32) × (params_start < 2 ^ 32) × (params_count < 2 ^ 16) × (body < 2 ^ 32)
IsExpr (Expr.handler clauses_start clauses_count return_param return_body) =
    (clauses_start < 2 ^ 32)
    × (clauses_count < 2 ^ 16)
    × (return_param < 2 ^ 32)
    × (return_body < 2 ^ 32)
IsExpr (Expr.arrow params_start params_count body is_block) =
    (params_start < 2 ^ 32) × (params_count < 2 ^ 16) × (body < 2 ^ 32)
IsExpr Expr.this = Unit
IsExpr (Expr.block stmts_start stmts_count final_expr) =
    (stmts_start < 2 ^ 32) × (stmts_count < 2 ^ 32) × (final_expr < 2 ^ 32)
IsExpr (Expr.match scrutinee arms_start arms_count) =
    (scrutinee < 2 ^ 32) × (arms_start < 2 ^ 32) × (arms_count < 2 ^ 16)
IsExpr (Expr.perform effect args_start args_count) =
    (effect < 2 ^ 32) × (args_start < 2 ^ 32) × (args_count < 2 ^ 16)
IsExpr (Expr.handle body clauses_start clauses_count return_param return_body) =
    (body < 2 ^ 32)
    × (clauses_start < 2 ^ 32)
    × (clauses_count < 2 ^ 16)
    × (return_param < 2 ^ 32)
    × (return_body < 2 ^ 32)
IsExpr (Expr.handle_with body handler) = (body < 2 ^ 32) × (handler < 2 ^ 32)

-- The arms of the match on the tag.
unfoldable expr_of_tag : ℕ → Reader Expr
expr_of_tag tag =
    if tag == 0
    then pure Expr.empty
    else if tag == 1
    then pure Expr.undefined
    else if tag == 2
    then pure Expr.null
    else if tag == 3
    then (do b ← read_bool_; pure (Expr.bool b))
    else if tag == 4
    then (do n ← read_i32; pure (Expr.int n))
    else if tag == 5
    then (do idx ← read_u32; pure (Expr.float idx))
    else if tag == 6
    then (do s ← read_u32; pure (Expr.string s))
    else if tag == 7
    then (do s ← read_u32; pure (Expr.identifier s))
    else if tag == 8
    then (do
      op ← read_binary_op
      left ← read_u32
      right ← read_u32
      pure (Expr.binary op left right))
    else if tag == 9
    then (do op ← read_unary_op; operand ← read_u32; pure (Expr.unary op operand))
    else if tag == 10
    then (do
      callee ← read_u32
      args_start ← read_u32
      args_count ← read_u16
      pure (Expr.call callee args_start args_count))
    else if tag == 11
    then (do object ← read_u32; property ← read_u32; pure (Expr.member object property))
    else if tag == 12
    then (do object ← read_u32; index ← read_u32; pure (Expr.index object index))
    else if tag == 13
    then (do target ← read_u32; value ← read_u32; pure (Expr.assign target value))
    else if tag == 14
    then (do
      test ← read_u32
      consequent ← read_u32
      alternate ← read_u32
      pure (Expr.conditional test consequent alternate))
    else if tag == 15
    then (do
      elems_start ← read_u32
      elems_count ← read_u16
      pure (Expr.array elems_start elems_count))
    else if tag == 16
    then (do
      props_start ← read_u32
      props_count ← read_u16
      pure (Expr.object props_start props_count))
    else if tag == 17
    then (do
      name ← read_u32
      params_start ← read_u32
      params_count ← read_u16
      body ← read_u32
      pure (Expr.function name params_start params_count body))
    else if tag == 18
    then (do
      clauses_start ← read_u32
      clauses_count ← read_u16
      return_param ← read_u32
      return_body ← read_u32
      pure (Expr.handler clauses_start clauses_count return_param return_body))
    else if tag == 19
    then (do
      params_start ← read_u32
      params_count ← read_u16
      body ← read_u32
      is_block ← read_bool_
      pure (Expr.arrow params_start params_count body is_block))
    else if tag == 20
    then pure Expr.this
    else if tag == 21
    then (do
      stmts_start ← read_u32
      stmts_count ← read_u32
      final_expr ← read_u32
      pure (Expr.block stmts_start stmts_count final_expr))
    else if tag == 22
    then (do
      scrutinee ← read_u32
      arms_start ← read_u32
      arms_count ← read_u16
      pure (Expr.match scrutinee arms_start arms_count))
    else if tag == 23
    then (do
      effect ← read_u32
      args_start ← read_u32
      args_count ← read_u16
      pure (Expr.perform effect args_start args_count))
    else if tag == 24
    then (do
      body ← read_u32
      clauses_start ← read_u32
      clauses_count ← read_u16
      return_param ← read_u32
      return_body ← read_u32
      pure (Expr.handle body clauses_start clauses_count return_param return_body))
    else if tag == 25
    then (do body ← read_u32; handler ← read_u32; pure (Expr.handle_with body handler))
    else fail (message (ascii "snapshot: bad expr tag " ++ decimal tag))

unfoldable pub read_expr : Reader Expr
unfolding expr_of_tag
read_expr = do tag ← read_u8; expr_of_tag tag
