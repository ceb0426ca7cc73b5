-- ===== src/Cekh/Jumps/Loops.antt =====
-- src/cekh.rs: `continue` goes on with the next round of the loop, as the end of its body does.
use kryhtajs.Prelude.{◌≡◌, refl, ap, ◌∙◌, Bool-cases, inl, inr, true, false, some, ok, Result}
use kryhtajs.Value.{JsValue, EnvId, ContId}
use kryhtajs.Arena.{alloc}
use kryhtajs.Ast.{AstArena, ExprId, StmtId, is_some}
use kryhtajs.Cont.{Kont, outer, is_loop}
use kryhtajs.Floats.{Floats}
use kryhtajs.Cekh.State.{Control, Cekh, ContArena}
use kryhtajs.Cekh.Walk.{Nearest, here, further, nearest-Nearest}
use kryhtajs.Cekh.Frames.{apply_for_body}
use kryhtajs.Cekh.Apply.{apply_kont}
use kryhtajs.Cekh.Jumps.{stops_loop, continue_at, continue_for, handle_continue}

-- A frame of a `while` loop with its test, its body, its environment and the frame below.
pub data InWhile : Kont → ExprId → StmtId → EnvId → ContId → Type 0 where
  at_test :
      {test : ExprId} {body : StmtId} {env : EnvId} {k : ContId}
      → InWhile (Kont.while_k test body env k) test body env k
  in_body :
      {test : ExprId} {body : StmtId} {env : EnvId} {k : ContId}
      → InWhile (Kont.while_body_k test body env k) test body env k

-- A frame of a `for` loop with its test, its update, its body, its environment and the frame below.
pub data InFor : Kont → ExprId → ExprId → StmtId → EnvId → ContId → Type 0 where
  before_test :
      {test update : ExprId} {body : StmtId} {env : EnvId} {k : ContId}
      → InFor (Kont.for_test_k test update body env k) test update body env k
  after_test :
      {test update : ExprId} {body : StmtId} {env : EnvId} {k : ContId}
      → InFor (Kont.for_test_result_k test update body env k) test update body env k
  in_body :
      {test update : ExprId} {body : StmtId} {env : EnvId} {k : ContId}
      → InFor (Kont.for_body_k test update body env k) test update body env k
  in_update :
      {test update : ExprId} {body : StmtId} {env : EnvId} {k : ContId}
      → InFor (Kont.for_update_k test update body env k) test update body env k

-- What the loop of a frame does next after its body: the control, the environment and the frame. A
-- `for` loop without a test goes on as if its test were true.
pub data NextRound (kont : Kont) : Control → EnvId → Kont → Type 0 where
  tests_again :
      {test : ExprId} {body : StmtId} {env : EnvId} {k : ContId}
      → InWhile kont test body env k
      → NextRound kont (Control.expr test) env (Kont.while_k test body env k)
  updates :
      {test update : ExprId} {body : StmtId} {env : EnvId} {k : ContId}
      → InFor kont test update body env k
      → is_some update ≡ true
      → NextRound kont (Control.expr update) env (Kont.for_update_k test update body env k)
  only_tests :
      {test update : ExprId} {body : StmtId} {env : EnvId} {k : ContId}
      → InFor kont test update body env k
      → is_some update ≡ false
      → is_some test ≡ true
      → NextRound kont (Control.expr test) env (Kont.for_test_k test update body env k)
  untested :
      {test update : ExprId} {body : StmtId} {env : EnvId} {k : ContId}
      → InFor kont test update body env k
      → is_some update ≡ false
      → is_some test ≡ false
      → NextRound kont
          (Control.value (JsValue.bool true))
          env
          (Kont.for_test_k test update body env k)

-- The frame on which the body of a frame's loop runs.
abbrev pub body_frame : Kont → Kont
body_frame (Kont.while_k test body env k) = Kont.while_body_k test body env k
body_frame (Kont.for_test_k test update body env k) = Kont.for_body_k test update body env k
body_frame (Kont.for_test_result_k test update body env k) = Kont.for_body_k test update body env k
body_frame (Kont.for_update_k test update body env k) = Kont.for_body_k test update body env k
body_frame kont = kont

-- The machine in a control and an environment on a new frame.
abbrev pub resumed_on : Control → EnvId → Kont → Cekh → Cekh
resumed_on control env kont m = record m {
  control = control;
  env = env;
  conts = (alloc kont m.conts).0;
  cont = (alloc kont m.conts).1;
}

pub stops_loop-outer :
    (kont : Kont) (k : ContId) → outer kont ≡ some k → stops_loop kont ≡ is_loop kont
unfolding stops_loop outer
stops_loop-outer Kont.halt k h = cc
stops_loop-outer _ k h = refl

pub stops_loop-is_loop : (kont : Kont) → is_loop kont ≡ true → stops_loop kont ≡ true
unfolding stops_loop is_loop
stops_loop-is_loop Kont.halt h = cc
stops_loop-is_loop _ h = h

-- The nearest loop frame is also where the walk of `break` and `continue` stops.
pub loop-Nearest :
    {conts : ContArena} {k : ContId} {kont : Kont}
    → Nearest is_loop conts k kont
    → Nearest stops_loop conts k kont
loop-Nearest (here kont e loop) = here kont e (stops_loop-is_loop kont loop)
loop-Nearest (further passed k' e away o rest) =
    further passed k' e (stops_loop-outer passed k' o ∙ away) o (loop-Nearest rest)

found_loop :
    {conts : ContArena} {k : ContId} {kont : Kont}
    → Nearest is_loop conts k kont
    → is_loop kont ≡ true
found_loop (here kont e loop) = loop
found_loop (further passed k' e away o rest) = found_loop rest

-- The next round of the loop of a frame, and the machine that is in it.
abbrev pub GoesOn : Kont → Cekh → Result Cekh → Type 0
GoesOn kont m r =
    (control : Control) × (env : EnvId) × (next : Kont) × NextRound kont control env next
    × (r ≡ ok (resumed_on control env next m))

continue_for-GoesOn :
    (kont : Kont) (test update : ExprId) (body : StmtId) (env : EnvId) (k : ContId) (m : Cekh)
    → InFor kont test update body env k
    → GoesOn kont m (continue_for test update body env k m)
continue_for-GoesOn kont test update body env k m f = elim (Bool-cases (is_some update)) [
  | inl u ↦
      rw u (Control.expr update, env, Kont.for_update_k test update body env k, updates f u, refl)
  | inr bare ↦ elim (Bool-cases (is_some test)) [
    | inl t ↦
        rw (bare, t)
          (
            Control.expr test,
            env,
            Kont.for_test_k test update body env k,
            only_tests f bare t,
            refl,
          )
    | inr n ↦
        rw (bare, n)
          (
            Control.value (JsValue.bool true),
            env,
            Kont.for_test_k test update body env k,
            untested f bare n,
            refl,
          )
  ]
]

pub continue_at-GoesOn :
    (kont : Kont) (m : Cekh) → is_loop kont ≡ true → GoesOn kont m (continue_at (some kont) m)
unfolding continue_at is_loop
continue_at-GoesOn (Kont.while_k test body env k) m loop =
    (Control.expr test, env, Kont.while_k test body env k, tests_again InWhile.at_test, refl)
continue_at-GoesOn (Kont.while_body_k test body env k) m loop =
    (Control.expr test, env, Kont.while_k test body env k, tests_again InWhile.in_body, refl)
continue_at-GoesOn (Kont.for_test_k test update body env k) m loop =
    continue_for-GoesOn _ test update body env k m InFor.before_test
continue_at-GoesOn (Kont.for_test_result_k test update body env k) m loop =
    continue_for-GoesOn _ test update body env k m InFor.after_test
continue_at-GoesOn (Kont.for_body_k test update body env k) m loop =
    continue_for-GoesOn _ test update body env k m InFor.in_body
continue_at-GoesOn (Kont.for_update_k test update body env k) m loop =
    continue_for-GoesOn _ test update body env k m InFor.in_update
continue_at-GoesOn _ m loop = cc

apply_for_body-continue_for :
    (test update : ExprId) (body : StmtId) (env : EnvId) (k : ContId) (m : Cekh)
    → apply_for_body test update body env k m ≡ continue_for test update body env k m
unfolding apply_for_body
apply_for_body-continue_for test update body env k m = elim (Bool-cases (is_some update)) [
  | inl u ↦ rw (apply_for_body, u) refl
  | inr bare ↦ elim (Bool-cases (is_some test)) [
    | inl t ↦ rw (apply_for_body, bare, t) refl
    | inr n ↦ rw (apply_for_body, bare, n) refl
  ]
]

module _ ⦃fl : Floats⦄ (v : JsValue) (ast : AstArena) where
  body_end :
      (kont : Kont) (m : Cekh)
      → is_loop kont ≡ true
      → apply_kont (body_frame kont) v ast m ≡ some (continue_at (some kont) m)
  unfolding apply_kont continue_at is_loop
  body_end (Kont.while_k test body env k) m loop = refl
  body_end (Kont.while_body_k test body env k) m loop = refl
  body_end (Kont.for_test_k test update body env k) m loop =
      ap some (apply_for_body-continue_for test update body env k m)
  body_end (Kont.for_test_result_k test update body env k) m loop =
      ap some (apply_for_body-continue_for test update body env k m)
  body_end (Kont.for_body_k test update body env k) m loop =
      ap some (apply_for_body-continue_for test update body env k m)
  body_end (Kont.for_update_k test update body env k) m loop =
      ap some (apply_for_body-continue_for test update body env k m)
  body_end _ m loop = absurd cc

  -- When the frame of a loop is the nearest one, handle_continue goes on with the loop's next
  -- round: the test of a while loop, or the update of a for loop, else its test, else true, in the
  -- loop's environment and on a new frame with the loop's fields that says where the round stands,
  -- everything else unchanged; this is also what giving any value to the frame of the loop's body
  -- does.
  pub handle_continue-Nearest :
      (m : Cekh) (kont : Kont)
      → Nearest is_loop m.conts m.cont kont
      → GoesOn kont m (handle_continue m)
        × (apply_kont (body_frame kont) v ast m ≡ some (handle_continue m))
  unfolding handle_continue
  handle_continue-Nearest m kont n =
      let loop = found_loop n in
      rw (nearest-Nearest stops_loop m.conts (loop-Nearest n))
        (continue_at-GoesOn kont m loop, body_end kont m loop)
