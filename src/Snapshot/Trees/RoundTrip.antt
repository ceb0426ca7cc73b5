-- ===== src/Snapshot/Trees/RoundTrip.antt =====
-- src/snapshot.rs: a syntax tree survives a checkpoint.
use kryhtajs.Prelude.{ℕ, List, ◌^◌, ◌<◌, ◌≡◌, ◌++◌, append_assoc, ok, length, All}
use kryhtajs.Ast.{AstArena, PropEntry, PatternField, MatchArm, EffectClause}
use kryhtajs.Snapshot.Bytes.{Bytes, Reader, u32, f64, read_u32, read_f64}
use kryhtajs.Snapshot.Words.{u16_lem, u32_lem, f64_lem, read_n-write_all}
use kryhtajs.Snapshot.Exprs.{write_expr, read_expr, IsExpr}
use kryhtajs.Snapshot.Exprs.RoundTrip.{expr_lem}
use kryhtajs.Snapshot.Stmts.{write_stmt, read_stmt, IsStmt}
use kryhtajs.Snapshot.Stmts.RoundTrip.{stmt_lem}
use kryhtajs.Snapshot.Patterns.{write_pattern, read_pattern, IsPattern}
use kryhtajs.Snapshot.Patterns.RoundTrip.{pattern_lem}
use kryhtajs.Snapshot.Trees.{
  write_seq, read_seq, write_prop_entry, read_prop_entry, write_pattern_field, read_pattern_field,
  write_arm, read_arm, write_effect_clause, read_effect_clause, write_ast, read_ast,
}

abbrev pub IsU32 : ℕ → Type 0
IsU32 n = n < 2 ^ 32

-- The elements of a vector fit their format, and its length fits the word for it.
abbrev pub FitsSeq : {A : Type 0} → (A → Type 0) → List A → Type 0
FitsSeq P xs = (length xs < 2 ^ 32) × All P xs

pub seq_lem :
    {A : Type 0} (write : A → Bytes) (read : Reader A) (P : A → Type 0)
    → ((x : A) → P x → (rest : Bytes) → read (write x ++ rest) ≡ ok (x, rest))
    → (xs : List A) → FitsSeq P xs
    → (rest : Bytes) → read_seq read (write_seq write xs ++ rest) ≡ ok (xs, rest)
unfolding write_seq read_seq
seq_lem write read P one xs fits rest =
    simp (append_assoc, u32_lem (length xs) fits.0, read_n-write_all write read P one xs fits.1)

abbrev pub IsPropEntry : PropEntry → Type 0
IsPropEntry p = IsU32 p.key × IsU32 p.value

prop_entry_lem :
    (p : PropEntry)
    → IsPropEntry p
    → (rest : Bytes) → read_prop_entry (write_prop_entry p ++ rest) ≡ ok (p, rest)
unfolding write_prop_entry read_prop_entry
prop_entry_lem p fits rest = simp (append_assoc, u32_lem p.key fits.0, u32_lem p.value fits.1)

abbrev pub IsPatternField : PatternField → Type 0
IsPatternField f = IsU32 f.key × IsU32 f.pattern_id

pattern_field_lem :
    (f : PatternField)
    → IsPatternField f
    → (rest : Bytes) → read_pattern_field (write_pattern_field f ++ rest) ≡ ok (f, rest)
unfolding write_pattern_field read_pattern_field
pattern_field_lem f fits rest =
    simp (append_assoc, u32_lem f.key fits.0, u32_lem f.pattern_id fits.1)

abbrev pub IsArm : MatchArm → Type 0
IsArm a = IsU32 a.pattern_id × IsU32 a.guard × IsU32 a.body

arm_lem : (a : MatchArm) → IsArm a → (rest : Bytes) → read_arm (write_arm a ++ rest) ≡ ok (a, rest)
unfolding write_arm read_arm
arm_lem a (p, g, b) rest =
    simp (append_assoc, u32_lem a.pattern_id p, u32_lem a.guard g, u32_lem a.body b)

abbrev pub IsEffectClause : EffectClause → Type 0
IsEffectClause c = IsU32 c.effect × IsU32 c.params_start × (c.params_count < 2 ^ 16) × IsU32 c.body

effect_clause_lem :
    (c : EffectClause)
    → IsEffectClause c
    → (rest : Bytes) → read_effect_clause (write_effect_clause c ++ rest) ≡ ok (c, rest)
unfolding write_effect_clause read_effect_clause
effect_clause_lem c (e, s, n, b) rest = simp (
  append_assoc,
  u32_lem c.effect e,
  u32_lem c.params_start s,
  u16_lem c.params_count n,
  u32_lem c.body b,
)

-- The words of a tree fit their widths.
pub record FitsAst (ast : AstArena) : Type 0 where
  pub exprs : FitsSeq IsExpr ast.exprs
  pub stmts : FitsSeq IsStmt ast.stmts
  pub patterns : FitsSeq IsPattern ast.patterns
  pub expr_lists : FitsSeq IsU32 ast.expr_lists
  pub stmt_lists : FitsSeq IsU32 ast.stmt_lists
  pub param_lists : FitsSeq IsU32 ast.param_lists
  pub prop_lists : FitsSeq IsPropEntry ast.prop_lists
  pub pattern_lists : FitsSeq IsU32 ast.pattern_lists
  pub pattern_fields : FitsSeq IsPatternField ast.pattern_fields
  pub arms : FitsSeq IsArm ast.arms
  pub effect_clauses : FitsSeq IsEffectClause ast.effect_clauses
  pub floats : FitsSeq (λ f. f < 2 ^ 64) ast.floats
  pub root : IsU32 ast.root_start × IsU32 ast.root_count

-- A syntax tree whose words and lengths fit their widths is read back unchanged, and the reader
-- stops where it ends.
pub ast_lem :
    (ast : AstArena)
    → FitsAst ast
    → (rest : Bytes) → read_ast (write_ast ast ++ rest) ≡ ok (ast, rest)
unfolding write_ast read_ast
ast_lem ast fits rest = simp (
  append_assoc,
  seq_lem write_expr read_expr IsExpr expr_lem ast.exprs fits.exprs,
  seq_lem write_stmt read_stmt IsStmt stmt_lem ast.stmts fits.stmts,
  seq_lem write_pattern read_pattern IsPattern pattern_lem ast.patterns fits.patterns,
  seq_lem u32 read_u32 IsU32 u32_lem ast.expr_lists fits.expr_lists,
  seq_lem u32 read_u32 IsU32 u32_lem ast.stmt_lists fits.stmt_lists,
  seq_lem u32 read_u32 IsU32 u32_lem ast.param_lists fits.param_lists,
  seq_lem write_prop_entry read_prop_entry IsPropEntry prop_entry_lem ast.prop_lists
      fits.prop_lists,
  seq_lem u32 read_u32 IsU32 u32_lem ast.pattern_lists fits.pattern_lists,
  seq_lem write_pattern_field read_pattern_field IsPatternField pattern_field_lem ast.pattern_fields
      fits.pattern_fields,
  seq_lem write_arm read_arm IsArm arm_lem ast.arms fits.arms,
  seq_lem write_effect_clause read_effect_clause IsEffectClause effect_clause_lem ast.effect_clauses
      fits.effect_clauses,
  seq_lem f64 read_f64 (λ f. f < 2 ^ 64) f64_lem ast.floats fits.floats,
  u32_lem ast.root_start fits.root.0,
  u32_lem ast.root_count fits.root.1,
)
