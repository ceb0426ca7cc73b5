-- ===== src/Cekh/Exprs/Pushes.antt =====
-- src/cekh.rs: the continuation after the first step of an expression.
use kryhtajs.Prelude.{
  ◌+◌, ◌^◌, ◌<◌, ◌≡◌, refl, subst, Bool, true, false, Option, none, some, List, [], ◌∷◌, inl, inr,
  length, ok, ltb, ◌==◌, Bool-cases, arith,
}
use kryhtajs.Value.{ContId}
use kryhtajs.Ast.{
  AstArena, ExprId, StmtId, Expr, UnaryOp, BinaryOp, PropEntry, get_expr, get_expr_list,
  get_prop_list, get_stmt_list, is_none,
}
use kryhtajs.Arena.{IsWellFormed, IsLive}
use kryhtajs.Cont.{Kont, outer}
use kryhtajs.Cekh.State.{Control, Cekh}
use kryhtajs.Cekh.Push.{evaluate}
use kryhtajs.Cekh.Push.Tops.{Tops, TopsOf, stay, push-Tops, evaluate-TopsOf}
use kryhtajs.Cekh.Exprs.{
  Ends, is_update, update_frame, unary_frame, binary_frame, step_assign, evaluate_first,
  evaluate_first_value, run_first, step_expr_at, step_expr,
}

-- A `perform` without arguments, which goes to a handler at once.
abbrev is_effect : Expr → Bool
is_effect (Expr.perform effect start count) = count == 0
is_effect _ = false

abbrev TopsOfEnds : Cekh → ContId → Ends → Type 0
TopsOfEnds m i none = Unit
TopsOfEnds m i (some r) = TopsOf m i r

outer-update_frame :
    (operand : Option Expr) (op : UnaryOp) (m : Cekh)
    → outer (update_frame operand op m) ≡ some m.cont
unfolding outer
outer-update_frame (some (Expr.identifier name)) op m = refl
outer-update_frame _ op m = refl

outer-unary_frame :
    (operand : Option Expr) (op : UnaryOp) (m : Cekh)
    → outer (unary_frame operand op m) ≡ some m.cont
unfolding outer
outer-unary_frame operand op m = elim (Bool-cases (is_update op)) [
  | inl update ↦ rw update (outer-update_frame operand op m)
  | inr plain ↦ rw plain refl
]

outer-binary_frame :
    (op : BinaryOp) (right : ExprId) (m : Cekh) → outer (binary_frame op right m) ≡ some m.cont
unfolding outer
outer-binary_frame BinaryOp.and right m = refl
outer-binary_frame BinaryOp.or right m = refl
outer-binary_frame BinaryOp.nullish_coalesce right m = refl
outer-binary_frame _ right m = refl

module _ (m : Cekh) (i : ContId) (w : IsWellFormed m.conts)
    (room : length m.conts.slots + 1 < 2 ^ 32) (live : IsLive m.conts i) where
  evaluated : (e : ExprId) (kont : Kont) → outer kont ≡ some m.cont → TopsOf m i (evaluate e kont m)
  evaluated e kont below = evaluate-TopsOf m i w room live e kont below

  same_frame : (m' : Cekh) → m'.conts ≡ m.conts → m'.cont ≡ m.cont → Tops m i m'
  same_frame = stay m i w room live

  step_assign-TopsOf :
      (target : Option Expr) (value : ExprId) → TopsOf m i (step_assign target value m)
  unfolding outer
  step_assign-TopsOf (some (Expr.identifier name)) value = evaluated _ _ refl
  step_assign-TopsOf (some (Expr.member object property)) value = evaluated _ _ refl
  step_assign-TopsOf (some (Expr.index object index)) value = evaluated _ _ refl
  step_assign-TopsOf (some _) value = tt
  step_assign-TopsOf none value = tt

  evaluate_first-TopsOfEnds :
      (es : List ExprId) (kont : Kont)
      → outer kont ≡ some m.cont
      → TopsOfEnds m i (evaluate_first es kont m)
  evaluate_first-TopsOfEnds [] kont below = tt
  evaluate_first-TopsOfEnds (e ∷ es) kont below = evaluated e kont below

  evaluate_first_value-TopsOfEnds :
      (ps : List PropEntry) (kont : Kont)
      → outer kont ≡ some m.cont
      → TopsOfEnds m i (evaluate_first_value ps kont m)
  evaluate_first_value-TopsOfEnds [] kont below = tt
  evaluate_first_value-TopsOfEnds (p ∷ ps) kont below = evaluated p.value kont below

  run_first-TopsOfEnds :
      (ss : List StmtId) (kont : Kont)
      → outer kont ≡ some m.cont
      → TopsOfEnds m i (run_first ss kont m)
  run_first-TopsOfEnds [] kont below = tt
  run_first-TopsOfEnds (s ∷ ss) kont below =
      push-Tops m i w room live kont (record m { control = Control.stmt s }) refl below

  step_expr_at-TopsOfEnds :
      (e : Expr) (ast : AstArena) → is_effect e ≡ false → TopsOfEnds m i (step_expr_at e ast m)
  unfolding step_expr_at outer
  step_expr_at-TopsOfEnds (Expr.unary op operand) ast quiet =
      evaluated operand _ (outer-unary_frame (get_expr ast operand) op m)
  step_expr_at-TopsOfEnds (Expr.binary op left right) ast quiet =
      evaluated left _ (outer-binary_frame op right m)
  step_expr_at-TopsOfEnds (Expr.member object property) ast quiet = evaluated _ _ refl
  step_expr_at-TopsOfEnds (Expr.index object index) ast quiet = evaluated _ _ refl
  step_expr_at-TopsOfEnds (Expr.assign target value) ast quiet =
      step_assign-TopsOf (get_expr ast target) value
  step_expr_at-TopsOfEnds (Expr.conditional test consequent alternate) ast quiet =
      evaluated _ _ refl
  step_expr_at-TopsOfEnds (Expr.array start count) ast quiet = elim (Bool-cases (count == 0)) [
    | inl bare ↦ rw bare (same_frame _ refl refl)
    | inr has ↦ rw has (evaluate_first-TopsOfEnds (get_expr_list ast start count) _ refl)
  ]
  step_expr_at-TopsOfEnds (Expr.object start count) ast quiet = elim (Bool-cases (count == 0)) [
    | inl bare ↦ rw bare (same_frame _ refl refl)
    | inr has ↦ rw has (evaluate_first_value-TopsOfEnds (get_prop_list ast start count) _ refl)
  ]
  step_expr_at-TopsOfEnds (Expr.call callee start count) ast quiet = evaluated _ _ refl
  step_expr_at-TopsOfEnds (Expr.block start count final_expr) ast quiet =
      elim (Bool-cases (count == 0)) [
        | inl bare ↦ elim (Bool-cases (is_none final_expr)) [
          | inl absent ↦ rw (bare, absent) (same_frame _ refl refl)
          | inr there ↦ rw (bare, there) (same_frame _ refl refl)
        ]
        | inr has ↦ rw has (run_first-TopsOfEnds (get_stmt_list ast start count) _ refl)
      ]
  step_expr_at-TopsOfEnds (Expr.match scrutinee start count) ast quiet = evaluated _ _ refl
  step_expr_at-TopsOfEnds (Expr.perform effect start count) ast quiet =
      let some_args : ltb 0 count ≡ true = ground (arith, quiet) in
      rw some_args (evaluate_first-TopsOfEnds (get_expr_list ast start count) _ refl)
  step_expr_at-TopsOfEnds (Expr.handle body start count param return_body) ast quiet =
      evaluated _ _ refl
  step_expr_at-TopsOfEnds (Expr.handle_with body handler) ast quiet = evaluated _ _ refl
  step_expr_at-TopsOfEnds _ ast quiet = same_frame _ refl refl

  -- With a well-formed continuation arena that has room for a frame, a step of an expression that
  -- ends without an error, unless it performs an effect without arguments, leaves the machine on
  -- its frame or puts one new frame on it; the arena stays well formed, and a frame in use is as it
  -- was.
  pub step_expr-Tops :
      (id : ExprId) (e : Expr) (ast : AstArena) (m' : Cekh)
      → get_expr ast id ≡ some e
      → is_effect e ≡ false
      → step_expr id ast m ≡ some (ok m')
      → Tops m i m'
  unfolding step_expr
  step_expr-Tops id e ast m' found quiet h =
      subst (TopsOfEnds m i) (rw found at h) (step_expr_at-TopsOfEnds e ast quiet)
