-- ===== src/Ast.antt =====
-- src/ast.rs: the arena-based syntax tree. Ids are indices; `u32::MAX` stands for none.
use kryhtajs.Prelude.{
  ℕ, ◌+◌, ◌%◌, ◌^◌, Bool, true, false, Option, none, List, [], ◌∷◌, ◌++◌, length, get_elem?, take,
  drop, leb, ◌==◌, if◌then◌else◌,
}
use kryhtajs.Value.{StrId, u32_max}

abbrev pub ExprId : Type 0
ExprId = ℕ

abbrev pub StmtId : Type 0
StmtId = ℕ

abbrev pub PatternId : Type 0
PatternId = ℕ

unfoldable pub is_none : ℕ → Bool
is_none id = id == u32_max

unfoldable pub is_some : ℕ → Bool
is_some id = if id == u32_max then false else true

pub data Pattern : Type 0 where
  wildcard : Pattern
  literal : ExprId → Pattern
  var : StrId → Pattern
  array : ℕ → ℕ → Pattern
  object : ℕ → ℕ → Pattern

pub data BinaryOp : Type 0 where
  add sub mul div modulo pow eq ne lt le gt ge and or bit_and bit_or bit_xor shl shr u_shr
        nullish_coalesce :
      BinaryOp

pub data UnaryOp : Type 0 where
  neg not bit_not type_of plus pre_inc pre_dec post_inc post_dec : UnaryOp

pub data Expr : Type 0 where
  empty : Expr
  undefined : Expr
  null : Expr
  bool : Bool → Expr
  int : ℕ → Expr
  float : ℕ → Expr
  string : StrId → Expr
  identifier : StrId → Expr
  binary : BinaryOp → ExprId → ExprId → Expr
  unary : UnaryOp → ExprId → Expr
  call : ExprId → ℕ → ℕ → Expr
  member : ExprId → StrId → Expr
  index : ExprId → ExprId → Expr
  assign : ExprId → ExprId → Expr
  conditional : ExprId → ExprId → ExprId → Expr
  array : ℕ → ℕ → Expr
  object : ℕ → ℕ → Expr
  function : StrId → ℕ → ℕ → StmtId → Expr
  handler : ℕ → ℕ → StrId → ExprId → Expr
  arrow : ℕ → ℕ → ExprId → Bool → Expr
  this : Expr
  block : ℕ → ℕ → ExprId → Expr
  match : ExprId → ℕ → ℕ → Expr
  perform : StrId → ℕ → ℕ → Expr
  handle : ExprId → ℕ → ℕ → StrId → ExprId → Expr
  handle_with : ExprId → ExprId → Expr

pub data Stmt : Type 0 where
  empty : Stmt
  expr : ExprId → Stmt
  let_stmt : StrId → ExprId → Stmt
  const_stmt : StrId → ExprId → Stmt
  var_stmt : StrId → ExprId → Stmt
  if_stmt : ExprId → StmtId → StmtId → Stmt
  while_stmt : ExprId → StmtId → Stmt
  for_stmt : StmtId → ExprId → ExprId → StmtId → Stmt
  block : ℕ → ℕ → Stmt
  declarations : ℕ → ℕ → Stmt
  return : ExprId → Stmt
  break : Stmt
  continue : Stmt
  function : StrId → ℕ → ℕ → StmtId → Stmt

pub record PatternField : Type 0 where
  pub key : StrId
  pub pattern_id : PatternId

pub record MatchArm : Type 0 where
  pub pattern_id : PatternId
  pub guard : ExprId
  pub body : ExprId

pub record EffectClause : Type 0 where
  pub effect : StrId
  pub params_start : ℕ
  pub params_count : ℕ
  pub body : ExprId

pub record PropEntry : Type 0 where
  pub key : StrId
  pub value : ExprId

pub record AstArena : Type 0 where
  pub exprs : List Expr
  pub stmts : List Stmt
  pub patterns : List Pattern
  pub expr_lists : List ExprId
  pub stmt_lists : List StmtId
  pub param_lists : List StrId
  pub prop_lists : List PropEntry
  pub pattern_lists : List PatternId
  pub pattern_fields : List PatternField
  pub arms : List MatchArm
  pub effect_clauses : List EffectClause
  pub floats : List ℕ
  pub root_start : ℕ
  pub root_count : ℕ

unfoldable pub new : AstArena
new = record {
  exprs = [];
  stmts = [];
  patterns = [];
  expr_lists = [];
  stmt_lists = [];
  param_lists = [];
  prop_lists = [];
  pattern_lists = [];
  pattern_fields = [];
  arms = [];
  effect_clauses = [];
  floats = [];
  root_start = 0;
  root_count = 0;
}

unfoldable alloc_expr : AstArena → Expr → AstArena × ExprId
alloc_expr a e = (record a { exprs = a.exprs ++ e ∷ [] }, length a.exprs % 2 ^ 32)

unfoldable alloc_stmt : AstArena → Stmt → AstArena × StmtId
alloc_stmt a s = (record a { stmts = a.stmts ++ s ∷ [] }, length a.stmts % 2 ^ 32)

unfoldable alloc_pattern : AstArena → Pattern → AstArena × PatternId
alloc_pattern a p = (record a { patterns = a.patterns ++ p ∷ [] }, length a.patterns % 2 ^ 32)

unfoldable pub get_expr : AstArena → ExprId → Option Expr
unfolding is_none
get_expr a id = if is_none id then none else get_elem? a.exprs id

unfoldable pub get_stmt : AstArena → StmtId → Option Stmt
unfolding is_none
get_stmt a id = if is_none id then none else get_elem? a.stmts id

unfoldable pub get_pattern : AstArena → PatternId → Option Pattern
unfolding is_none
get_pattern a id = if is_none id then none else get_elem? a.patterns id

unfoldable pub get_float : AstArena → ℕ → Option ℕ
get_float a idx = get_elem? a.floats idx

-- `&list[start..start + count]`, empty where the range does not fit. The eight list getters of the
-- source differ only in the list.
unfoldable sub_list {ℓ} : {A : Type ℓ} → List A → ℕ → ℕ → List A
sub_list xs start count = if leb (start + count) (length xs) then take count (drop start xs) else []

unfoldable pub get_expr_list : AstArena → ℕ → ℕ → List ExprId
unfolding sub_list
get_expr_list a = sub_list a.expr_lists

unfoldable pub get_stmt_list : AstArena → ℕ → ℕ → List StmtId
unfolding sub_list
get_stmt_list a = sub_list a.stmt_lists

unfoldable pub get_param_list : AstArena → ℕ → ℕ → List StrId
unfolding sub_list
get_param_list a = sub_list a.param_lists

unfoldable pub get_prop_list : AstArena → ℕ → ℕ → List PropEntry
unfolding sub_list
get_prop_list a = sub_list a.prop_lists

unfoldable pub get_pattern_list : AstArena → ℕ → ℕ → List PatternId
unfolding sub_list
get_pattern_list a = sub_list a.pattern_lists

unfoldable pub get_pattern_field_list : AstArena → ℕ → ℕ → List PatternField
unfolding sub_list
get_pattern_field_list a = sub_list a.pattern_fields

unfoldable pub get_arm_list : AstArena → ℕ → ℕ → List MatchArm
unfolding sub_list
get_arm_list a = sub_list a.arms

unfoldable pub get_effect_clause_list : AstArena → ℕ → ℕ → List EffectClause
unfolding sub_list
get_effect_clause_list a = sub_list a.effect_clauses
