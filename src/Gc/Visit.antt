-- ===== src/Gc/Visit.antt =====
-- src/gc.rs: each trace visits the slot that its item names, names slots by other items, or does
-- nothing to the slots.
use kryhtajs.Prelude.{
  ℕ, ◌≡◌, refl, true, Option, none, some, List, [], ◌∷◌, get_elem?, set, if◌then◌else◌,
  Option-cases, inl, inr,
}
use kryhtajs.Value.{JsValue}
use kryhtajs.Arena.{get, mark, is_marked}
use kryhtajs.Cekh.State.{Cekh}
use kryhtajs.Gc.Items.{WorkItem}
use kryhtajs.Gc.Trace.{
  Traced, trace, trace_value, trace_env, trace_cont, trace_object, trace_handler,
}
use kryhtajs.Gc.Reach.{
  Kind, envs, conts, objects, handlers, Slot, targets, marks_of, content, with_marks, marked, strip,
}
use kryhtajs.StringPool as Pool

abbrev pub missing : Kind → Cekh → Traced
missing envs m = none
missing _ m = some (m, [])

abbrev pub visit_at : Option (List WorkItem) → Slot → Cekh → Traced
visit_at none (kind, id) m = missing kind m
visit_at (some inside) (kind, id) m =
    some (with_marks kind (set (marks_of kind m) id true) m, inside)

abbrev pub visit : Slot → Cekh → Traced
visit s m = if marked m s then some (m, []) else visit_at (content m s) s m

-- What a trace does.
pub data Visits (i : WorkItem) (m : Cekh) : Type 0 where
  nothing :
      (m' : Cekh)
      → targets i ≡ []
      → trace i m ≡ some (m', [])
      → ((kind : Kind) → marks_of kind m' ≡ marks_of kind m)
      → ((s : Slot) → content m' s ≡ content m s)
      → strip m' ≡ strip m
      → Visits i m
  renamed :
      (k e : ℕ)
      → i ≡ WorkItem.value (JsValue.continuation k e)
      → trace i m ≡ some (m, WorkItem.env e ∷ WorkItem.cont k ∷ [])
      → Visits i m
  one_slot : (s : Slot) → targets i ≡ s ∷ [] → trace i m ≡ visit s m → Visits i m

trace_env-visit : (id : ℕ) (m : Cekh) → trace_env id m ≡ visit (envs, id) m
unfolding trace_env is_marked mark get
trace_env-visit id m = elim (Option-cases (get_elem? m.envs.slots id)) [
  | inl e ↦ rw (e, get) refl
  | inr (x, e) ↦ rw (e, get) refl
]

trace_cont-visit : (id : ℕ) (m : Cekh) → trace_cont id m ≡ visit (conts, id) m
unfolding trace_cont is_marked mark get
trace_cont-visit id m = elim (Option-cases (get_elem? m.conts.slots id)) [
  | inl e ↦ rw (e, get) refl
  | inr (x, e) ↦ rw (e, get) refl
]

trace_object-visit : (id : ℕ) (m : Cekh) → trace_object id m ≡ visit (objects, id) m
unfolding trace_object is_marked mark get
trace_object-visit id m = elim (Option-cases (get_elem? m.objects.slots id)) [
  | inl e ↦ rw (e, get) refl
  | inr (x, e) ↦ rw (e, get) refl
]

trace_handler-visit : (id : ℕ) (m : Cekh) → trace_handler id m ≡ visit (handlers, id) m
unfolding trace_handler is_marked mark get
trace_handler-visit id m = elim (Option-cases (get_elem? m.handlers.slots id)) [
  | inl e ↦ rw (e, get) refl
  | inr (x, e) ↦ rw (e, get) refl
]

pub trace-Visits : (i : WorkItem) (m : Cekh) → Visits i m
unfolding trace trace_value
trace-Visits (WorkItem.env id) m = one_slot (envs, id) refl (trace_env-visit id m)
trace-Visits (WorkItem.cont id) m = one_slot (conts, id) refl (trace_cont-visit id m)
trace-Visits (WorkItem.value (JsValue.object id)) m =
    one_slot (objects, id) refl (trace_object-visit id m)
trace-Visits (WorkItem.value (JsValue.array id)) m =
    one_slot (objects, id) refl (trace_object-visit id m)
trace-Visits (WorkItem.value (JsValue.function id)) m =
    one_slot (objects, id) refl (trace_object-visit id m)
trace-Visits (WorkItem.value (JsValue.handler id)) m =
    one_slot (handlers, id) refl (trace_handler-visit id m)
trace-Visits (WorkItem.value (JsValue.continuation k e)) m = renamed k e refl refl
trace-Visits (WorkItem.value (JsValue.string s)) m =
    nothing (record m { strings = Pool.mark m.strings s }) refl refl same_marks same_content refl
  where
    same_marks :
        (kind : Kind)
        → marks_of kind (record m { strings = Pool.mark m.strings s }) ≡ marks_of kind m
    same_marks envs = refl
    same_marks conts = refl
    same_marks objects = refl
    same_marks handlers = refl

    same_content :
        (t : Slot) → content (record m { strings = Pool.mark m.strings s }) t ≡ content m t
    same_content (envs, id) = refl
    same_content (conts, id) = refl
    same_content (objects, id) = refl
    same_content (handlers, id) = refl
trace-Visits (WorkItem.value _) m = nothing m refl refl (λ kind. refl) (λ s. refl) refl
