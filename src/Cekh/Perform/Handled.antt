-- ===== src/Cekh/Perform/Handled.antt =====
-- src/cekh.rs: an effect runs the clause of the nearest handler that has one, with the captured
-- continuation as the last parameter; without a handler the machine is suspended.
use kryhtajs.Prelude.{
  ℕ, ◌≡◌, refl, ◌∙◌, some, List, [], ◌∷◌, ◌++◌, arith, insert, nat_key, DistinctKeys,
  insert-DistinctKeys, lookup-insert, ==_refl,
}
use kryhtajs.Value.{JsValue, StrId, EnvId, ContId}
use kryhtajs.Ast.{AstArena, EffectClause, get_effect_clause_list, get_param_list, ExprId}
use kryhtajs.Arena.{get, IsWellFormed}
use kryhtajs.Arena.Live.{get-alloc_new}
use kryhtajs.Cont.{Kont}
use kryhtajs.Env.{Env, Entry, extend_with, with_binding_slice, get_local}
use kryhtajs.Env.Slices.{
  last_value, get_local-with_binding_slice, last_value-lookup, parent-with_binding_slice,
}
use kryhtajs.Cekh.State.{Control, Cekh}
use kryhtajs.Cekh.Walk.{Nearest, nearest-Nearest}
use kryhtajs.Cekh.Perform.{
  find_clause, stops_effect, bind_params, bind_resume, handle_clause, perform_at, do_perform,
}

bind_params-DistinctKeys :
    (ps : List StrId) (args : List JsValue) (kvs : List Entry)
    → DistinctKeys kvs
    → DistinctKeys (bind_params ps args kvs)
unfolding bind_params
bind_params-DistinctKeys [] args kvs d = d
bind_params-DistinctKeys (p ∷ ps) [] kvs d = d
bind_params-DistinctKeys (p ∷ ps) (a ∷ args) kvs d =
    bind_params-DistinctKeys ps args (insert p a kvs) (insert-DistinctKeys p a kvs d)

bind_resume-last :
    (ps : List StrId) (p : StrId) (r : JsValue) (kvs : List Entry)
    → bind_resume (ps ++ p ∷ []) r kvs ≡ insert p r kvs
unfolding bind_resume
bind_resume-last [] p r kvs = refl
bind_resume-last (q ∷ []) p r kvs = refl
bind_resume-last (q ∷ q' ∷ ps) p r kvs = bind_resume-last (q' ∷ ps) p r kvs

-- The last parameter has the continuation.
resume_bound :
    (params : List StrId) (args : List JsValue) (ps : List StrId) (p : StrId) (r : JsValue)
    → params ≡ ps ++ p ∷ []
    → last_value (bind_resume params r (bind_params params args [])) p ≡ some r
resume_bound params args ps p r e =
    let kvs = bind_params (ps ++ p ∷ []) args [] in
    let d = insert-DistinctKeys p r kvs (bind_params-DistinctKeys (ps ++ p ∷ []) args [] tt) in
    rw (e, bind_resume-last ps p r kvs)
      (last_value-lookup (insert p r kvs) p d ∙ ground (arith, lookup-insert p p r kvs, ==_refl p))

module _ (ast : AstArena) (effect : StrId) (args : List JsValue) (m : Cekh) where
  perform_at-handler :
      (start count : ℕ) (env : EnvId) (body : ExprId) (param : StrId) (kk : ContId)
      (clause : EffectClause)
      → find_clause effect (get_effect_clause_list ast start count) ≡ some clause
      → perform_at (some (Kont.handler_k start count env body param kk)) effect args ast m
        ≡ some (handle_clause clause env kk args ast m)
  unfolding perform_at
  perform_at-handler start count env body param kk clause found = rw found refl

  -- When the nearest frame that is the halt frame or has a clause for an effect is a handler with
  -- such a clause, whose parameters end in p, do_perform returns; the machine goes on with the
  -- clause's body below the handler's frame, in a new frame of variables on the handler's
  -- environment where p is the continuation captured at the effect.
  pub do_perform-Nearest :
      (start count : ℕ) (env : EnvId) (body : ExprId) (param : StrId) (kk : ContId)
      (clause : EffectClause) (ps : List StrId) (p : StrId)
      → IsWellFormed m.envs
      → Nearest
          (stops_effect ast effect)
          m.conts
          m.cont
          (Kont.handler_k start count env body param kk)
      → find_clause effect (get_effect_clause_list ast start count) ≡ some clause
      → get_param_list ast clause.params_start clause.params_count ≡ ps ++ p ∷ []
      → (m' : Cekh) × (frame : Env) × (do_perform effect args ast m ≡ some m')
        × (m'.control ≡ Control.expr clause.body)
        × (m'.cont ≡ kk)
        × (get m'.envs m'.env ≡ some frame)
        × (frame.parent ≡ some env)
        × (get_local frame p ≡ some (JsValue.continuation m.cont m.env))
  unfolding do_perform handle_clause extend_with
  do_perform-Nearest start count env body param kk clause ps p w n found last =
      let params = get_param_list ast clause.params_start clause.params_count in
      let resume = JsValue.continuation m.cont m.env in
      let kvs = bind_resume params resume (bind_params params args []) in
      (
        handle_clause clause env kk args ast m,
        with_binding_slice kvs (some env),
        rw (nearest-Nearest (stops_effect ast effect) m.conts n)
            (perform_at-handler start count env body param kk clause found),
        refl,
        refl,
        get-alloc_new m.envs (with_binding_slice kvs (some env)) w,
        parent-with_binding_slice kvs (some env),
        get_local-with_binding_slice kvs (some env) p ∙ resume_bound params args ps p resume last,
      )

  -- When no handler from the current frame to the halt frame has a clause for an effect, do_perform
  -- returns and the machine is suspended with the effect and its arguments, everything else
  -- unchanged.
  pub do_perform-halt :
      Nearest (stops_effect ast effect) m.conts m.cont Kont.halt
      → do_perform effect args ast m ≡ some (record m { control = Control.suspend effect args })
  unfolding do_perform
  do_perform-halt n = rw (nearest-Nearest (stops_effect ast effect) m.conts n) refl
