-- ===== src/Cekh/Stmts/Pushes.antt =====
-- src/cekh.rs: the continuation after the first step of a statement.
use kryhtajs.Prelude.{
  ℕ, ◌+◌, ◌^◌, ◌<◌, ◌≡◌, refl, ap, subst, Bool, true, false, some, List, [], ◌∷◌, inl, inr, length,
  ok, Bool-cases,
}
use kryhtajs.Value.{ContId}
use kryhtajs.Ast.{AstArena, ExprId, StmtId, Stmt, is_none, is_some, get_stmt, get_stmt_list}
use kryhtajs.Arena.{IsWellFormed, IsLive}
use kryhtajs.Cont.{outer}
use kryhtajs.Cekh.State.{Cekh}
use kryhtajs.Cekh.Push.Tops.{Tops, TopsOf, stay, push-Tops, evaluate-TopsOf}
use kryhtajs.Cekh.Stmts.{
  start_list, enter, step_block, step_declarations, step_for, step_stmt_at, step_stmt,
}

-- Whether the statement leaves frames behind.
abbrev is_jump : Stmt → Bool
is_jump Stmt.break = true
is_jump Stmt.continue = true
is_jump _ = false

module _ (m : Cekh) (i : ContId) (w : IsWellFormed m.conts)
    (room : length m.conts.slots + 1 < 2 ^ 32) (live : IsLive m.conts i) where
  start_list-Tops :
      (ss : List StmtId) (start count : ℕ) (m' : Cekh)
      → m'.conts ≡ m.conts
      → m'.cont ≡ m.cont
      → Tops m i (start_list ss start count m')
  unfolding outer
  start_list-Tops [] start count m' c k = stay m i w room live m' c k
  start_list-Tops (s ∷ []) start count m' c k = stay m i w room live _ c k
  start_list-Tops (s ∷ s' ∷ ss) start count m' c k = push-Tops m i w room live _ _ c (ap some k)

  step_block-TopsOf :
      (ss : List StmtId) (start count : ℕ) → TopsOf m i (step_block ss start count m)
  step_block-TopsOf [] start count = stay m i w room live _ refl refl
  step_block-TopsOf (s ∷ ss) start count = start_list-Tops (s ∷ ss) start count (enter m) refl refl

  step_declarations-TopsOf :
      (ss : List StmtId) (start count : ℕ) → TopsOf m i (step_declarations ss start count m)
  step_declarations-TopsOf [] start count = stay m i w room live _ refl refl
  step_declarations-TopsOf (s ∷ ss) start count = start_list-Tops (s ∷ ss) start count m refl refl

  step_for-TopsOf :
      (init : StmtId) (test update : ExprId) (body : StmtId)
      → TopsOf m i (step_for init test update body (enter m))
  unfolding outer
  step_for-TopsOf init test update body = elim (Bool-cases (is_some init)) [
    | inl has ↦ rw has (push-Tops m i w room live _ _ refl refl)
    | inr bare ↦ rw bare (push-Tops m i w room live _ _ refl refl)
  ]

  step_stmt_at-TopsOf :
      (s : Stmt) (ast : AstArena) → is_jump s ≡ false → TopsOf m i (step_stmt_at s ast m)
  unfolding step_stmt_at outer
  step_stmt_at-TopsOf Stmt.empty ast quiet = stay m i w room live _ refl refl
  step_stmt_at-TopsOf (Stmt.expr e) ast quiet = evaluate-TopsOf m i w room live _ _ refl
  step_stmt_at-TopsOf (Stmt.let_stmt name init) ast quiet = elim (Bool-cases (is_some init)) [
    | inl has ↦ rw has (evaluate-TopsOf m i w room live _ _ refl)
    | inr bare ↦ rw bare (stay m i w room live _ refl refl)
  ]
  step_stmt_at-TopsOf (Stmt.const_stmt name init) ast quiet = elim (Bool-cases (is_some init)) [
    | inl has ↦ rw has (evaluate-TopsOf m i w room live _ _ refl)
    | inr bare ↦ rw bare tt
  ]
  step_stmt_at-TopsOf (Stmt.var_stmt name init) ast quiet = elim (Bool-cases (is_some init)) [
    | inl has ↦ rw has (evaluate-TopsOf m i w room live _ _ refl)
    | inr bare ↦ rw bare (stay m i w room live _ refl refl)
  ]
  step_stmt_at-TopsOf (Stmt.if_stmt test consequent alternate) ast quiet =
      evaluate-TopsOf m i w room live _ _ refl
  step_stmt_at-TopsOf (Stmt.while_stmt test body) ast quiet =
      evaluate-TopsOf m i w room live _ _ refl
  step_stmt_at-TopsOf (Stmt.for_stmt init test update body) ast quiet =
      step_for-TopsOf init test update body
  step_stmt_at-TopsOf (Stmt.block start count) ast quiet =
      step_block-TopsOf (get_stmt_list ast start count) start count
  step_stmt_at-TopsOf (Stmt.declarations start count) ast quiet =
      step_declarations-TopsOf (get_stmt_list ast start count) start count
  step_stmt_at-TopsOf (Stmt.return e) ast quiet = elim (Bool-cases (is_some e)) [
    | inl has ↦ rw has (evaluate-TopsOf m i w room live _ _ refl)
    | inr bare ↦ rw bare (stay m i w room live _ refl refl)
  ]
  step_stmt_at-TopsOf Stmt.break ast quiet = cc
  step_stmt_at-TopsOf Stmt.continue ast quiet = cc
  step_stmt_at-TopsOf (Stmt.function name start count body) ast quiet =
      stay m i w room live _ refl refl

  -- With a well-formed continuation arena that has room for a frame, a step of a statement other
  -- than break and continue that ends without an error leaves the machine on its frame or puts one
  -- new frame on it; the arena stays well formed, and a frame in use is as it was.
  pub step_stmt-Tops :
      (id : StmtId) (s : Stmt) (ast : AstArena) (m' : Cekh)
      → get_stmt ast id ≡ some s
      → is_jump s ≡ false
      → step_stmt id ast m ≡ ok m'
      → Tops m i m'
  unfolding step_stmt
  step_stmt-Tops id s ast m' e quiet h = elim (Bool-cases (is_none id)) [
    | inl absent ↦ subst (TopsOf m i) (rw absent at h) (stay m i w room live _ refl refl)
    | inr there ↦ subst (TopsOf m i) (rw (there, e) at h) (step_stmt_at-TopsOf s ast quiet)
  ]
