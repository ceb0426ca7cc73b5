-- ===== src/Snapshot/Trees.antt =====
-- src/snapshot.rs: the syntax tree.
pub mod RoundTrip
use kryhtajs.Prelude.{ℕ, List, ◌++◌, length}
use kryhtajs.Ast.{AstArena, PropEntry, PatternField, MatchArm, EffectClause}
use kryhtajs.Snapshot.Bytes.{
  Bytes, Reader, ◌>>=◌, pure, u16, u32, f64, read_u16, read_u32, read_f64, read_n, write_all,
}
use kryhtajs.Snapshot.Exprs.{write_expr, read_expr}
use kryhtajs.Snapshot.Stmts.{write_stmt, read_stmt}
use kryhtajs.Snapshot.Patterns.{write_pattern, read_pattern}

-- The length of a vector and its elements.
module _ {A : Type 0} where
  unfoldable pub write_seq : (A → Bytes) → List A → Bytes
  unfolding write_all
  write_seq write xs = u32 (length xs) ++ write_all write xs

  unfoldable pub read_seq : Reader A → Reader (List A)
  unfolding read_n
  read_seq read = do n ← read_u32; read_n n read

unfoldable pub write_prop_entry : PropEntry → Bytes
write_prop_entry p = u32 p.key ++ u32 p.value

unfoldable pub read_prop_entry : Reader PropEntry
read_prop_entry = do key ← read_u32; value ← read_u32; pure (record { key = key; value = value })

unfoldable pub write_pattern_field : PatternField → Bytes
write_pattern_field f = u32 f.key ++ u32 f.pattern_id

unfoldable pub read_pattern_field : Reader PatternField
read_pattern_field = do
  key ← read_u32
  pattern_id ← read_u32
  pure (record { key = key; pattern_id = pattern_id })

unfoldable pub write_arm : MatchArm → Bytes
write_arm a = u32 a.pattern_id ++ (u32 a.guard ++ u32 a.body)

unfoldable pub read_arm : Reader MatchArm
read_arm = do
  pattern_id ← read_u32
  guard ← read_u32
  body ← read_u32
  pure (record { pattern_id = pattern_id; guard = guard; body = body })

unfoldable pub write_effect_clause : EffectClause → Bytes
write_effect_clause c = u32 c.effect ++ (u32 c.params_start ++ (u16 c.params_count ++ u32 c.body))

unfoldable pub read_effect_clause : Reader EffectClause
read_effect_clause = do
  effect ← read_u32
  params_start ← read_u32
  params_count ← read_u16
  body ← read_u32
  pure (record {
    effect = effect;
    params_start = params_start;
    params_count = params_count;
    body = body;
  })

unfoldable pub write_ast : AstArena → Bytes
write_ast ast =
    write_seq write_expr ast.exprs
    ++ (write_seq write_stmt ast.stmts
        ++ (write_seq write_pattern ast.patterns
            ++ (write_seq u32 ast.expr_lists
                ++ (write_seq u32 ast.stmt_lists
                    ++ (write_seq u32 ast.param_lists
                        ++ (write_seq write_prop_entry ast.prop_lists
                            ++ (write_seq u32 ast.pattern_lists
                                ++ (write_seq write_pattern_field ast.pattern_fields
                                    ++ (write_seq write_arm ast.arms
                                        ++ (write_seq write_effect_clause ast.effect_clauses
                                            ++ (write_seq f64 ast.floats
                                                ++ (u32 ast.root_start
                                                    ++ u32 ast.root_count))))))))))))

unfoldable pub read_ast : Reader AstArena
read_ast = do
  exprs ← read_seq read_expr
  stmts ← read_seq read_stmt
  patterns ← read_seq read_pattern
  expr_lists ← read_seq read_u32
  stmt_lists ← read_seq read_u32
  param_lists ← read_seq read_u32
  prop_lists ← read_seq read_prop_entry
  pattern_lists ← read_seq read_u32
  pattern_fields ← read_seq read_pattern_field
  arms ← read_seq read_arm
  effect_clauses ← read_seq read_effect_clause
  floats ← read_seq read_f64
  root_start ← read_u32
  root_count ← read_u32
  pure (record {
    exprs = exprs;
    stmts = stmts;
    patterns = patterns;
    expr_lists = expr_lists;
    stmt_lists = stmt_lists;
    param_lists = param_lists;
    prop_lists = prop_lists;
    pattern_lists = pattern_lists;
    pattern_fields = pattern_fields;
    arms = arms;
    effect_clauses = effect_clauses;
    floats = floats;
    root_start = root_start;
    root_count = root_count;
  })
