-- ===== src/Gc/Rounds.antt =====
-- src/gc.rs: the loop of `mark` ends within its rounds.
use kryhtajs.Prelude.{
  ℕ, zero, suc, ◌+◌, ◌<◌, ◌≡◌, ◌≢◌, refl, sym, ap, ◌∙◌, subst, Bool, true, false, Option, none,
  some, List, [], ◌∷◌, length, get_elem?, set, Option-cases, Bool-cases, inl, inr, arith,
  get_elem?-some,
}
use kryhtajs.Value.{JsValue, StrId}
use kryhtajs.Arena.{get}
use kryhtajs.Cekh.State.{Cekh}
use kryhtajs.Fiber.{Fiber, EffectKind}
use kryhtajs.Gc.Items.{WorkItem, roots, env_items, kont_items, object_items, handler_items}
use kryhtajs.Gc.Trace.{trace, push_all, mark_loop, weight, weights, unmarked_weight, machine_weight}
use kryhtajs.Gc.Collect.{Gc, collect, swept, mark_from}
use kryhtajs.Gc.Reach.{
  Kind, envs, conts, objects, handlers, marks_of, content, items_at, strip, with_marks, marked,
  read_mark, Reach, HasMarks,
}
use kryhtajs.Gc.Visit.{nothing, renamed, one_slot, trace-Visits, visit, missing}
use kryhtajs.Gc.Invariant.{Marking, advance}
use kryhtajs.Gc.Advance.{trace-Advance}
use kryhtajs.Gc.Arenas.{AreWellFormed, Unmarked, Exists}
use kryhtajs.Gc.Reached.{start}
use mathlib.Core.List.{Memᴰ}

abbrev weight_of : Kind → Cekh → List Bool → ℕ
weight_of envs m marks = unmarked_weight env_items m.envs.slots marks
weight_of conts m marks = unmarked_weight kont_items m.conts.slots marks
weight_of objects m marks = unmarked_weight object_items m.objects.slots marks
weight_of handlers m marks = unmarked_weight handler_items m.handlers.slots marks

abbrev total : Cekh → (Kind → List Bool) → ℕ
total m marks =
    weight_of envs m (marks envs)
    + (weight_of conts m (marks conts)
        + (weight_of objects m (marks objects) + weight_of handlers m (marks handlers)))

machine_weight_lem : (m : Cekh) → machine_weight m ≡ total (strip m) (λ kind. marks_of kind m)
unfolding machine_weight
machine_weight_lem m = refl

unmarked_weight-set :
    {A : Type 0} (items : A → List WorkItem) (xs : List A) (marks : List Bool) (id : ℕ)
    (inside : List WorkItem)
    → items_at items (get_elem? xs id) ≡ some inside
    → get_elem? marks id ≡ some false
    → unmarked_weight items xs (set marks id true) + weights inside ≡ unmarked_weight items xs marks
unmarked_weight-set items [] marks id inside e open_slot = cc
unmarked_weight-set items (x ∷ xs) [] id inside e open_slot = cc
unmarked_weight-set items (x ∷ xs) (true ∷ marks) zero inside e open_slot = cc
unmarked_weight-set items (x ∷ xs) (false ∷ marks) zero inside e open_slot =
    let same : items x ≡ inside = cc in omega (arith, ap weights same)
unmarked_weight-set items (x ∷ xs) (true ∷ marks) (suc id) inside e open_slot =
    unmarked_weight-set items xs marks id inside e open_slot
unmarked_weight-set items (x ∷ xs) (false ∷ marks) (suc id) inside e open_slot =
    omega (arith, unmarked_weight-set items xs marks id inside e open_slot)

visited_weight :
    (kind : Kind) (m : Cekh) (id : ℕ) (inside : List WorkItem)
    → content m (kind, id) ≡ some inside
    → get_elem? (marks_of kind m) id ≡ some false
    → machine_weight (with_marks kind (set (marks_of kind m) id true) m) + weights inside
      ≡ machine_weight m
unfolding machine_weight get
visited_weight envs m id inside e o =
    omega (arith, unmarked_weight-set env_items m.envs.slots m.envs.marks id inside e o)
visited_weight conts m id inside e o =
    omega (arith, unmarked_weight-set kont_items m.conts.slots m.conts.marks id inside e o)
visited_weight objects m id inside e o =
    omega (arith, unmarked_weight-set object_items m.objects.slots m.objects.marks id inside e o)
visited_weight handlers m id inside e o =
    omega (arith, unmarked_weight-set handler_items m.handlers.slots m.handlers.marks id inside e o)

-- A trace that ends, and leaves fewer rounds.
abbrev Lighter : WorkItem → Cekh → Type 0
Lighter i m =
    (m' : Cekh) × (pushed : List WorkItem) × (trace i m ≡ some (m', pushed))
    × (weights pushed + machine_weight m' < weight i + machine_weight m)

weight-pos : (i : WorkItem) → 0 < weight i
weight-pos (WorkItem.value (JsValue.continuation k e)) = omega arith
weight-pos _ = omega arith

not_marked :
    (marks : List Bool) (id : ℕ)
    → id < length marks
    → read_mark marks id ≡ false
    → get_elem? marks id ≡ some false
not_marked marks id lt h =
    let (b, e) = get_elem?-some marks id lt in let k = rw (read_mark, e) at h in e ∙ ap some k

missing-other : (kind : Kind) (m : Cekh) → kind ≢ envs → missing kind m ≡ some (m, [])
missing-other envs m other = absurd (other refl)
missing-other conts m other = refl
missing-other objects m other = refl
missing-other handlers m other = refl

visit-Lighter :
    (i : WorkItem) (m : Cekh) (kind : Kind) (id : ℕ)
    → HasMarks m
    → trace i m ≡ visit (kind, id) m
    → ((e : kind ≡ envs) → Exists m (kind, id))
    → Lighter i m
visit-Lighter i m kind id have traced there = elim (Bool-cases (marked m (kind, id))) [
  | inl hit ↦ (m, [], rw hit at traced, omega (arith, weight-pos i))
  | inr o ↦ elim (Option-cases (content m (kind, id))) [
    | inl gone ↦
        let no_env : kind ≢ envs = λ q. let (inside, e) = there q in cc in
        (m, [], rw (o, gone) at traced ∙ missing-other kind m no_env, omega (arith, weight-pos i))
    | inr (inside, e) ↦ (
      with_marks kind (set (marks_of kind m) id true) m,
      inside,
      rw (o, e) at traced,
      omega (
        arith,
        weight-pos i,
        visited_weight kind m id inside e
            (not_marked (marks_of kind m) id (have.has_mark kind id inside e) o),
      ),
    )
  ]
]

same_weight :
    (m m' : Cekh)
    → strip m' ≡ strip m
    → ((kind : Kind) → marks_of kind m' ≡ marks_of kind m)
    → machine_weight m' ≡ machine_weight m
same_weight m m' rest marks =
    machine_weight_lem m'
    ∙ (ap (λ q. total q λ kind. marks_of kind m') rest
        ∙ (omega (
          arith,
          ap (weight_of envs (strip m)) (marks envs),
          ap (weight_of conts (strip m)) (marks conts),
          ap (weight_of objects (strip m)) (marks objects),
          ap (weight_of handlers (strip m)) (marks handlers),
        )
            ∙ sym (machine_weight_lem m)))

-- The environments that are reached are slots.
abbrev pub HasEnvs : Cekh → List WorkItem → Type 0
HasEnvs m items = (id : ℕ) → Reach m items (envs, id) → Exists m (envs, id)

module _ (m₀ : Cekh) (items : List WorkItem) (env_there : HasEnvs m₀ items) where
  trace-Lighter :
      (i : WorkItem) (m : Cekh) (work : List WorkItem) → Marking m₀ items m (i ∷ work) → Lighter i m
  trace-Lighter i m work inv = elim (trace-Visits i m) [
    | nothing m' bare traced marks contents rest ↦
        (m', [], traced, omega (arith, weight-pos i, same_weight m m' rest marks))
    | renamed k e names traced ↦
        (m, WorkItem.env e ∷ WorkItem.cont k ∷ [], traced, omega (arith, ap weight names))
    | one_slot (kind, id) names traced ↦ visit-Lighter i m kind id inv.have_marks traced (λ is_env.
        let reached : Reach m₀ items (kind, id) =
          inv.work_reached i (kind, id) (Memᴰ.head refl)
            (subst (λ ts. Memᴰ (kind, id) ts) (sym names) (Memᴰ.head refl)) in
        let (inside, e) = env_there id (subst (λ q. Reach m₀ items (q, id)) is_env reached) in
        (inside, inv.same_content (kind, id) ∙ (ap (λ q. content m₀ (q, id)) is_env ∙ e)))
  ]

  weights-push_all :
      (pushed work : List WorkItem) → weights (push_all pushed work) ≡ weights pushed + weights work
  unfolding push_all
  weights-push_all [] work = omega arith
  weights-push_all (i ∷ pushed) work = omega (arith, weights-push_all pushed (i ∷ work))

  mark_loop_ends :
      (fuel : ℕ) (m : Cekh) (work : List WorkItem)
      → weights work + machine_weight m < fuel
      → Marking m₀ items m work
      → (last : Cekh) × (mark_loop fuel m work ≡ some last)
  unfolding mark_loop
  mark_loop_ends zero m work few inv = absurd (omega arith)
  mark_loop_ends (suc fuel) m [] few inv = (m, refl)
  mark_loop_ends (suc fuel) m (i ∷ work) few inv =
      let (m', pushed, traced, lighter) = trace-Lighter i m work inv in
      let (last, e) =
        mark_loop_ends fuel m' (push_all pushed work)
          (omega (arith, weights-push_all pushed work, lighter, few))
          (advance m₀ items i m m' pushed work inv
            (trace-Advance m₀ m inv.same_content inv.have_marks i m' pushed traced)) in
      (last, rw (mark_loop, traced) e)

swept_ends :
    (o : Option Cekh) (gc : Gc) (last : Cekh)
    → o ≡ some last
    → (gc' : Gc) × (m' : Cekh) × (swept o gc ≡ some (gc', m'))
swept_ends none gc last e = cc
swept_ends (some m) gc last e = (_, _, refl)

-- For a machine with four well-formed arenas and no mark, in which every environment that is
-- reached from the roots exists, the collection returns.
pub collect_ends :
    (gc : Gc) (m : Cekh) (fibers : List Fiber) (effects : List (StrId × EffectKind))
    → AreWellFormed m
    → Unmarked m
    → HasEnvs m (roots m fibers effects)
    → (gc' : Gc) × (m' : Cekh) × (collect gc m fibers effects ≡ some (gc', m'))
unfolding collect mark_from
collect_ends gc m fibers effects w clean there =
    let items = roots m fibers effects in
    let (last, e) =
      mark_loop_ends m items there (suc (weights items + machine_weight m)) m (push_all items [])
        (omega (arith, weights-push_all m items there items [])) (start m items w clean) in
    swept_ends (mark_from m items) gc last e
