-- ===== src/Cekh/Perform.antt =====
-- src/cekh.rs: `do_perform` finds the handler of an effect and captures the continuation;
-- `rebase_continuation` puts a captured one on the frame of the call that resumes it.
pub mod Handled
pub mod Rebased
use kryhtajs.Prelude.{
  ℕ, zero, suc, Bool, true, false, Option, none, some, List, [], ◌∷◌, ◌++◌, length, ◌==◌,
  if◌then◌else◌, insert, nat_key,
}
use kryhtajs.Value.{JsValue, StrId, EnvId, ContId}
use kryhtajs.Ast.{AstArena, EffectClause, get_effect_clause_list, get_param_list}
use kryhtajs.Arena.{alloc, get}
use kryhtajs.Cont.{Kont, outer}
use kryhtajs.Env.{Entry, extend_with}
use kryhtajs.Cekh.State.{Control, Cekh, ContArena}
use kryhtajs.Cekh.Walk.{nearest}
use kryhtajs.Cekh.Rebuild.{rebuilt, rebuild_kont_with_k}

-- `clauses.iter().find(|c| c.effect == effect)`
abbrev pub find_clause : StrId → List EffectClause → Option EffectClause
find_clause effect [] = none
find_clause effect (c ∷ cs) = if c.effect == effect then some c else find_clause effect cs

abbrev has_clause : Option EffectClause → Bool
has_clause none = false
has_clause (some c) = true

-- Where an effect stops: the halt frame, or a handler that has a clause for it.
unfoldable pub stops_effect : AstArena → StrId → Kont → Bool
stops_effect ast effect Kont.halt = true
stops_effect ast effect (Kont.handler_k start count env body param k) =
    has_clause (find_clause effect (get_effect_clause_list ast start count))
stops_effect ast effect _ = false

-- Each parameter gets the argument in its place, where there is one.
unfoldable pub bind_params : List StrId → List JsValue → List Entry → List Entry
bind_params [] args m = m
bind_params (p ∷ ps) [] m = m
bind_params (p ∷ ps) (a ∷ args) m = bind_params ps args (insert p a m)

-- The last parameter gets the continuation.
unfoldable pub bind_resume : List StrId → JsValue → List Entry → List Entry
bind_resume [] resume m = m
bind_resume (p ∷ []) resume m = insert p resume m
bind_resume (p ∷ q ∷ ps) resume m = bind_resume (q ∷ ps) resume m

-- The clause runs in the handler's environment, below the handler's frame.
unfoldable pub handle_clause : EffectClause → EnvId → ContId → List JsValue → AstArena → Cekh → Cekh
unfolding bind_params bind_resume extend_with
handle_clause clause env kk args ast m =
    let params = get_param_list ast clause.params_start clause.params_count in
    let resume = JsValue.continuation m.cont m.env in
    let (envs, clause_env) =
      extend_with m.envs env (bind_resume params resume (bind_params params args [])) in
    record m { envs = envs; env = clause_env; control = Control.expr clause.body; cont = kk }

abbrev handle_found :
    Option EffectClause → EnvId → ContId → List JsValue → AstArena → Cekh → Option Cekh
handle_found none env kk args ast m = none
handle_found (some clause) env kk args ast m = some (handle_clause clause env kk args ast m)

-- `none` where a frame of the walk is missing: the source's loop does not end then.
unfoldable pub perform_at : Option Kont → StrId → List JsValue → AstArena → Cekh → Option Cekh
unfolding handle_clause
perform_at (some Kont.halt) effect args ast m =
    some (record m { control = Control.suspend effect args })
perform_at (some (Kont.handler_k start count env body param kk)) effect args ast m =
    handle_found (find_clause effect (get_effect_clause_list ast start count)) env kk args ast m
perform_at _ effect args ast m = none

unfoldable pub do_perform : StrId → List JsValue → AstArena → Cekh → Option Cekh
unfolding perform_at stops_effect nearest
do_perform effect args ast m =
    perform_at (nearest (stops_effect ast effect) m.conts m.cont) effect args ast m

-- The handler frame ends the first loop of `rebase_continuation`, and so does the halt frame.
unfoldable pub stops_capture : Kont → Bool
stops_capture Kont.halt = true
stops_capture (Kont.handler_k start count env body param k) = true
stops_capture _ = false

unfoldable pub is_handler : Kont → Bool
is_handler (Kont.handler_k start count env body param k) = true
is_handler _ = false

abbrev push_frame : Kont → Option (List Kont × Kont) → Option (List Kont × Kont)
push_frame kont none = none
push_frame kont (some (stack, h)) = some (kont ∷ stack, h)

-- The stack of frames, the innermost first, and the handler that the first loop finds; `none` at
-- the halt frame and where a frame is missing.
unfoldable pub captured : ℕ → ContArena → ContId → Option (List Kont × Kont)
unfolding outer stops_capture is_handler
captured zero conts k = none
captured (suc fuel) conts k = elim (get conts k) [
  | none ↦ none
  | some kont ↦ elim (stops_capture kont) [
    | true ↦ if is_handler kont then some ([], kont) else none
    | false ↦ elim (outer kont) [ none ↦ none | some k' ↦ push_frame kont (captured fuel conts k') ]
  ]
]

-- The second loop: the stack is rebuilt from the handler's end.
unfoldable pub rebuild_stack : List Kont → ContArena × ContId → ContArena × ContId
rebuild_stack [] result = result
rebuild_stack (kont ∷ stack) result =
    let (conts, k) = rebuild_stack stack result in rebuild_kont_with_k conts kont k

abbrev rebase_at : Option (List Kont × Kont) → ContArena → ContId → ContId → ContArena × ContId
rebase_at none conts cont new_return_k = (conts, cont)
rebase_at (some (stack, h)) conts cont new_return_k =
    rebuild_stack stack (alloc (rebuilt h new_return_k) conts)

unfoldable pub rebase_continuation : ContArena → ContId → ContId → ContArena × ContId
unfolding captured rebuild_stack
rebase_continuation conts cont new_return_k =
    rebase_at (captured (suc (length conts.slots)) conts cont) conts cont new_return_k
