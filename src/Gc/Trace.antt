-- ===== src/Gc/Trace.antt =====
-- src/gc.rs: the `trace_` functions and the loop of `mark`. The work list is a stack, kept here with
-- its top first.
use kryhtajs.Prelude.{
  ℕ, zero, suc, ◌+◌, Bool, true, false, Option, none, some, List, [], ◌∷◌, if◌then◌else◌,
}
use kryhtajs.Value.{JsValue, EnvId, ContId, ObjId}
use kryhtajs.Arena.{Arena, get, mark, is_marked}
use kryhtajs.StringPool as Pool
use kryhtajs.Cekh.State.{Cekh}
use kryhtajs.Gc.Items.{WorkItem, env_items, kont_items, object_items, handler_items}

-- The machine after a trace, and what it pushes; `none` where the source panics.
abbrev pub Traced : Type 0
Traced = Option (Cekh × List WorkItem)

-- A slot that is marked is left; another is marked, and what it holds is pushed.
abbrev pub trace_slot {ℓ} :
    {A : Type ℓ} → Traced → (A → List WorkItem) → Arena A → ℕ → (Arena A → Cekh) → Cekh → Traced
trace_slot missing items a id with_arena m =
    if is_marked a id
    then some (m, [])
    else elim (get a id) [ none ↦ missing | some x ↦ some (with_arena (mark a id), items x) ]

unfoldable pub trace_env : EnvId → Cekh → Traced
unfolding is_marked mark get env_items
trace_env id m = trace_slot none env_items m.envs id (λ envs. record m { envs = envs }) m

-- A mark of a missing slot changes nothing.
unfoldable pub trace_cont : ContId → Cekh → Traced
unfolding is_marked mark get kont_items
trace_cont id m =
    trace_slot (some (m, [])) kont_items m.conts id (λ conts. record m { conts = conts }) m

unfoldable pub trace_object : ObjId → Cekh → Traced
unfolding is_marked mark get object_items
trace_object id m =
    trace_slot (some (m, [])) object_items m.objects id (λ objects. record m { objects = objects })
      m

unfoldable pub trace_handler : ℕ → Cekh → Traced
unfolding is_marked mark get
trace_handler id m =
    trace_slot (some (m, [])) handler_items m.handlers id
      (λ handlers. record m { handlers = handlers }) m

unfoldable pub trace_value : JsValue → Cekh → Traced
unfolding trace_object trace_handler Pool.mark
trace_value (JsValue.string s) m = some (record m { strings = Pool.mark m.strings s }, [])
trace_value (JsValue.object id) m = trace_object id m
trace_value (JsValue.array id) m = trace_object id m
trace_value (JsValue.function id) m = trace_object id m
trace_value (JsValue.handler id) m = trace_handler id m
trace_value (JsValue.continuation k e) m = some (m, WorkItem.env e ∷ WorkItem.cont k ∷ [])
trace_value _ m = some (m, [])

unfoldable pub trace : WorkItem → Cekh → Traced
unfolding trace_value trace_env trace_cont
trace (WorkItem.value v) m = trace_value v m
trace (WorkItem.env id) m = trace_env id m
trace (WorkItem.cont id) m = trace_cont id m

unfoldable pub push_all : List WorkItem → List WorkItem → List WorkItem
push_all [] work = work
push_all (i ∷ items) work = push_all items (i ∷ work)

abbrev pub then_mark : Traced → List WorkItem → (Cekh → List WorkItem → Option Cekh) → Option Cekh
then_mark none work continue = none
then_mark (some (m, items)) work continue = continue m (push_all items work)

-- The loop of `mark`, a round for each item; `none` where it panics or the fuel ends.
unfoldable pub mark_loop : ℕ → Cekh → List WorkItem → Option Cekh
unfolding trace push_all
mark_loop zero m work = none
mark_loop (suc fuel) m [] = some m
mark_loop (suc fuel) m (i ∷ work) = then_mark (trace i m) work (mark_loop fuel)

-- The rounds that an item may take of itself, and those that the slots that are not marked may.
abbrev pub weight : WorkItem → ℕ
weight (WorkItem.value (JsValue.continuation k e)) = 3
weight _ = 1

abbrev pub weights : List WorkItem → ℕ
weights [] = 0
weights (i ∷ items) = weight i + weights items

abbrev pub unmarked_weight {ℓ} : {A : Type ℓ} → (A → List WorkItem) → List A → List Bool → ℕ
unmarked_weight items [] marks = 0
unmarked_weight items (x ∷ xs) [] = 0
unmarked_weight items (x ∷ xs) (true ∷ marks) = unmarked_weight items xs marks
unmarked_weight items (x ∷ xs) (false ∷ marks) = weights (items x) + unmarked_weight items xs marks

abbrev pub arena_weight {ℓ} : {A : Type ℓ} → (A → List WorkItem) → Arena A → ℕ
arena_weight items a = unmarked_weight items a.slots a.marks

unfoldable pub machine_weight : Cekh → ℕ
unfolding env_items kont_items object_items
machine_weight m =
    arena_weight env_items m.envs
    + (arena_weight kont_items m.conts
        + (arena_weight object_items m.objects + arena_weight handler_items m.handlers))
