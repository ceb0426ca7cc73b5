-- ===== src/Cekh/Run/Slices.antt =====
-- src/cekh.rs: the slices of `run` against the steps of the machine.
use kryhtajs.Prelude.{
  ℕ, zero, suc, ◌+◌, ◌≤◌, ◌<◌, JsError, ◌≡◌, ◌≢◌, refl, ap, ◌∙◌, Option, none, some, inl, inr,
  arith, ok, err, Option-cases,
}
use kryhtajs.Ast.{AstArena}
use kryhtajs.Floats.{Floats}
use kryhtajs.Cekh.State.{Cekh, Control}
use kryhtajs.Cekh.Exprs.{Ends}
use kryhtajs.Cekh.Run.{
  Outcome, Ran, stopped, failed, at_rest, rest_at, stop, step, run_loop, run, after_step, abandoned,
}

abbrev pub steps_of : Ran → ℕ
steps_of (stopped o n m) = n
steps_of (failed e n m) = n

-- A run whose counter starts at `n`.
abbrev pub later : ℕ → Ran → Ran
later n (stopped o spent m) = stopped o (n + spent) m
later n (failed e spent m) = failed e (n + spent) m

abbrev pub later_all : ℕ → Option Ran → Option Ran
later_all n none = none
later_all n (some r) = some (later n r)

module _ ⦃fl : Floats⦄ (ast : AstArena) where
  -- So many steps, none of them from a machine that is done.
  pub data Steps : Cekh → ℕ → Cekh → Type 0 where
    none_taken : {m : Cekh} → Steps m 0 m
    one_more :
        {m next last : Cekh} {n : ℕ}
        → at_rest m ≡ none
        → step ast m ≡ some (ok next)
        → Steps next n last
        → Steps m (suc n) last

  -- How a loop ends that may take `left` steps after `spent`: at rest, at the allowance, or where a
  -- step fails.
  pub data Ended (left spent : ℕ) (m : Cekh) (r : Ran) : Type 0 where
    rested :
        (n : ℕ) (last : Cekh) (p : Outcome × Cekh)
        → n ≤ left
        → Steps m n last
        → at_rest last ≡ some p
        → r ≡ stop p (spent + n)
        → Ended left spent m r
    cut :
        (last : Cekh)
        → Steps m left last
        → at_rest last ≡ none
        → r ≡ stop (Outcome.preempted, last) (spent + left)
        → Ended left spent m r
    broken :
        (n : ℕ) (last : Cekh) (e : JsError)
        → n < left
        → Steps m n last
        → at_rest last ≡ none
        → step ast last ≡ some (err e)
        → r ≡ failed e (spent + n) (abandoned last)
        → Ended left spent m r

  one_before :
      (left spent : ℕ) (m next : Cekh) (r : Ran)
      → at_rest m ≡ none
      → step ast m ≡ some (ok next)
      → Ended left (spent + 1) next r
      → Ended (suc left) spent m r
  one_before left spent m next r busy st (rested n last p le s e q) =
      rested (suc n) last p (omega arith) (one_more busy st s) e (q ∙ ap (stop p) (omega arith))
  one_before left spent m next r busy st (cut last s e q) =
      cut last (one_more busy st s) e (q ∙ ap (stop (Outcome.preempted, last)) (omega arith))
  one_before left spent m next r busy st (broken n last e le s b f q) =
      broken (suc n) last e (omega arith) (one_more busy st s) b f
        (q ∙ ap (λ k. failed e k (abandoned last)) (omega arith))

  stepped :
      (left spent : ℕ) (m : Cekh) (r : Ran)
      → at_rest m ≡ none
      → ((next : Cekh) (r : Ran)
          → run_loop left (spent + 1) ast next ≡ some r
          → Ended left (spent + 1) next r)
      → (o : Ends) → step ast m ≡ o
      → after_step o spent m (run_loop left (spent + 1) ast) ≡ some r
      → Ended (suc left) spent m r
  stepped left spent m r busy ih none st h = cc
  stepped left spent m r busy ih (some (err e)) st h =
      broken 0 m e (omega arith) none_taken busy st (let z : spent + 0 ≡ spent = omega arith in cc)
  stepped left spent m r busy ih (some (ok next)) st h =
      one_before left spent m next r busy st (ih next r h)

  run_loop-Ended :
      (left spent : ℕ) (m : Cekh) (r : Ran)
      → run_loop left spent ast m ≡ some r
      → Ended left spent m r
  unfolding run_loop
  run_loop-Ended zero spent m r h = elim (Option-cases (at_rest m)) [
    | inl busy ↦
        cut m none_taken busy
          (let k = rw (run_loop, busy) at h in let z : spent + 0 ≡ spent = omega arith in cc)
    | inr (p, e) ↦
        rested 0 m p (omega arith) none_taken e
          (let k = rw (run_loop, e) at h in let z : spent + 0 ≡ spent = omega arith in cc)
  ]
  run_loop-Ended (suc left) spent m r h = elim (Option-cases (at_rest m)) [
    | inl busy ↦
        stepped left spent m r busy (run_loop-Ended left (spent + 1)) (step ast m) refl
          (rw (run_loop, busy) at h)
    | inr (p, e) ↦
        rested 0 m p (omega arith) none_taken e
          (let k = rw (run_loop, e) at h in let z : spent + 0 ≡ spent = omega arith in cc)
  ]

  -- A run that returns ends after a number of steps of the machine within its allowance, each from
  -- a machine that is not at rest: at the first machine at rest with its outcome, or preempted
  -- after exactly its allowance, or where a step fails with its error; its counter is the number of
  -- steps.
  pub run-Ended :
      (allowance : ℕ) (m : Cekh) (r : Ran) → run ast allowance m ≡ some r → Ended allowance 0 m r
  unfolding run
  run-Ended allowance m r h = run_loop-Ended allowance 0 m r h

  -- The counter of steps that a run leaves, also where it fails, is at most its allowance.
  pub run-within :
      (allowance : ℕ) (m : Cekh) (r : Ran) → run ast allowance m ≡ some r → steps_of r ≤ allowance
  unfolding stop
  run-within allowance m r h = elim (run-Ended allowance m r h) [
    | rested n last p le s e q ↦ rw q (omega arith)
    | cut last s e q ↦ rw q (omega arith)
    | broken n last e le s b f q ↦ rw q (omega arith)
  ]

  loop_rests :
      {m last : Cekh} {n : ℕ}
      → Steps m n last
      → (left spent : ℕ) (p : Outcome × Cekh) → n ≤ left
      → at_rest last ≡ some p
      → run_loop left spent ast m ≡ some (stop p (spent + n))
  unfolding run_loop
  loop_rests none_taken zero spent p le e =
      let z : spent + 0 ≡ spent = omega arith in rw (run_loop, e, z) refl
  loop_rests none_taken (suc left) spent p le e =
      let z : spent + 0 ≡ spent = omega arith in rw (run_loop, e, z) refl
  loop_rests (one_more b st s) zero spent p le e = absurd (omega arith)
  loop_rests (one_more {m} {next} {last} {n} b st s) (suc left) spent p le e =
      rw (run_loop, b, st)
        (loop_rests s left (spent + 1) p (omega arith) e ∙ ap (λ k. some (stop p k)) (omega arith))

  loop_goes_on :
      {m last : Cekh} {n : ℕ}
      → Steps m n last
      → (more spent : ℕ) → run_loop (n + more) spent ast m ≡ run_loop more (spent + n) ast last
  unfolding run_loop
  loop_goes_on (none_taken {m}) more spent =
      let z : spent + 0 ≡ spent = omega arith in
      let y : 0 + more ≡ more = omega arith in rw (z, y) refl
  loop_goes_on (one_more {m} {next} {last} {n} b st s) more spent =
      let y : suc n + more ≡ suc (n + more) = omega arith in
      rw (y, run_loop, b, st)
        (loop_goes_on s more (spent + 1) ∙ ap (λ k. run_loop more k ast last) (omega arith))

  after_step_later :
      (extra spent : ℕ) (o : Ends) (m : Cekh) (f g : Cekh → Option Ran)
      → ((next : Cekh) → g next ≡ later_all extra (f next))
      → after_step o (extra + spent) m g ≡ later_all extra (after_step o spent m f)
  after_step_later extra spent none m f g h = refl
  after_step_later extra spent (some (err e)) m f g h = refl
  after_step_later extra spent (some (ok next)) m f g h = h next

  loop_later :
      (left extra spent : ℕ) (m : Cekh)
      → run_loop left (extra + spent) ast m ≡ later_all extra (run_loop left spent ast m)
  unfolding run_loop stop
  loop_later zero extra spent m = elim (Option-cases (at_rest m)) [
    | inl busy ↦ rw (run_loop, busy) refl
    | inr (p, e) ↦ rw (run_loop, e) refl
  ]
  loop_later (suc left) extra spent m = elim (Option-cases (at_rest m)) [
    | inl busy ↦
        rw (run_loop, busy)
          (after_step_later extra spent (step ast m) m _ _ (λ next.
            ap (λ k. run_loop left k ast next) (omega arith)
            ∙ loop_later left extra (spent + 1) next))
    | inr (p, e) ↦ rw (run_loop, e) refl
  ]

  rest_at-preempted : (c : Control) (m last : Cekh) → rest_at c m ≢ some (Outcome.preempted, last)
  rest_at-preempted (Control.halted v) m last h = cc
  rest_at-preempted (Control.suspend effect args) m last h = cc
  rest_at-preempted _ m last h = cc

  -- When a run with the allowance a is preempted, a run with a + b from the same machine is the run
  -- with b from where the first stopped, with a more steps on its counter: a preemption does not
  -- change what is computed.
  pub run-run :
      (a b : ℕ) (m m' : Cekh) (spent : ℕ)
      → run ast a m ≡ some (stopped Outcome.preempted spent m')
      → run ast (a + b) m ≡ later_all a (run ast b m')
  unfolding run stop at_rest
  run-run a b m m' spent h = elim (run-Ended a m (stopped Outcome.preempted spent m') h) [
    | rested n last (o, m2) le s e q ↦ absurd (rest_at-preempted last.control last m2 cc)
    | cut last s e q ↦
        let same : m' ≡ last = cc in
        rw same (
          loop_goes_on s b 0
          ∙ ap (λ k. run_loop b k ast last) (omega arith)
          ∙ loop_later b a 0 last)
    | broken n last e le s b f q ↦ cc
  ]

  -- When the machine comes to rest after n steps, a run with an allowance of at least n returns
  -- with that outcome and with n on its counter.
  pub run-Steps :
      (allowance n : ℕ) (m last : Cekh) (p : Outcome × Cekh)
      → Steps m n last
      → at_rest last ≡ some p
      → n ≤ allowance
      → run ast allowance m ≡ some (stop p n)
  unfolding run
  run-Steps allowance n m last p s e le =
      loop_rests s allowance 0 p le e ∙ ap (λ k. some (stop p k)) (omega arith)
