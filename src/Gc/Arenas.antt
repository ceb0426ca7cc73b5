-- ===== src/Gc/Arenas.antt =====
-- src/gc.rs: the four arenas together, and what a marking and a sweep keep of them.
use kryhtajs.Prelude.{
  ℕ, ◌<◌, ◌≡◌, ◌↔◌, refl, sym, ap, ◌∙◌, true, false, some, List, [], length, get_elem?,
  Option-cases, inl, inr, arith, get_elem?-lt, get_elem?-some,
}
use kryhtajs.Arena.{Arena, get, sweep, is_marked, IsWellFormed, IsLive}
use kryhtajs.Arena.Sweep.{sweep-IsLive, sweep-IsWellFormed}
use kryhtajs.Cekh.State.{Cekh}
use kryhtajs.Gc.Items.{WorkItem, env_items, kont_items, object_items, handler_items}
use kryhtajs.Gc.Collect.{sweep_all}
use kryhtajs.Gc.Reach.{
  Kind, envs, conts, objects, handlers, Slot, marks_of, content, items_at, strip, marked, HasMarks,
}

-- No slot is marked.
abbrev pub Unmarked : Cekh → Type 0
Unmarked m = (s : Slot) → marked m s ≡ false

-- The four arenas are well formed.
pub record AreWellFormed (m : Cekh) : Type 0 where
  pub well_envs : IsWellFormed m.envs
  pub well_conts : IsWellFormed m.conts
  pub well_objects : IsWellFormed m.objects
  pub well_handlers : IsWellFormed m.handlers

abbrev pub Live : Cekh → Slot → Type 0
Live m (envs, id) = IsLive m.envs id
Live m (conts, id) = IsLive m.conts id
Live m (objects, id) = IsLive m.objects id
Live m (handlers, id) = IsLive m.handlers id

-- The slot is one of its arena.
abbrev pub Exists : Cekh → Slot → Type 0
Exists m s = (inside : List WorkItem) × (content m s ≡ some inside)

items_at-some :
    {A : Type 0} (items : A → List WorkItem) (xs : List A) (id : ℕ) (inside : List WorkItem)
    → items_at items (get_elem? xs id) ≡ some inside
    → id < length xs
items_at-some items xs id inside h = elim (Option-cases (get_elem? xs id)) [
  | inl e ↦ cc (rw e at h)
  | inr (x, e) ↦ get_elem?-lt xs id x e
]

pub AreWellFormed-HasMarks : (m : Cekh) → AreWellFormed m → HasMarks m
unfolding get
AreWellFormed-HasMarks m w = record { has_mark = has }
  where
    has :
        (kind : Kind) (id : ℕ) (inside : List WorkItem)
        → content m (kind, id) ≡ some inside
        → id < length (marks_of kind m)
    has envs id inside e =
        omega (arith, w.well_envs.marked, items_at-some env_items m.envs.slots id inside e)
    has conts id inside e =
        omega (arith, w.well_conts.marked, items_at-some kont_items m.conts.slots id inside e)
    has objects id inside e =
        omega (arith, w.well_objects.marked, items_at-some object_items m.objects.slots id inside e)
    has handlers id inside e =
        omega
          (arith, w.well_handlers.marked, items_at-some handler_items m.handlers.slots id inside e)

remarked :
    {A : Type 0} (a b : Arena A)
    → record b { marks = [] } ≡ record a { marks = [] }
    → length b.marks ≡ length a.marks
    → IsWellFormed a
    → IsWellFormed b
remarked a b rest lengths w =
    let slots : b.slots ≡ a.slots = ap (λ q. q.slots) rest in
    let free : b.free_list ≡ a.free_list = ap (λ q. q.free_list) rest in
    record {
      marked = lengths ∙ (w.marked ∙ ap length (sym slots));
      in_range = rw (slots, free) w.in_range;
      distinct = rw free w.distinct;
      small = rw slots w.small;
    }

pub same_arenas-AreWellFormed :
    (m₀ m : Cekh)
    → strip m ≡ strip m₀
    → ((kind : Kind) → length (marks_of kind m) ≡ length (marks_of kind m₀))
    → AreWellFormed m₀
    → AreWellFormed m
same_arenas-AreWellFormed m₀ m rest lengths w = record {
  well_envs = remarked m₀.envs m.envs (ap (λ q. q.envs) rest) (lengths envs) w.well_envs;
  well_conts = remarked m₀.conts m.conts (ap (λ q. q.conts) rest) (lengths conts) w.well_conts;
  well_objects =
      remarked m₀.objects m.objects (ap (λ q. q.objects) rest) (lengths objects) w.well_objects;
  well_handlers =
      remarked m₀.handlers m.handlers (ap (λ q. q.handlers) rest) (lengths handlers)
        w.well_handlers;
}

pub sweep_all-AreWellFormed : (m : Cekh) → AreWellFormed m → AreWellFormed (sweep_all m)
unfolding sweep_all
sweep_all-AreWellFormed m w = record {
  well_envs = sweep-IsWellFormed m.envs w.well_envs;
  well_conts = sweep-IsWellFormed m.conts w.well_conts;
  well_objects = sweep-IsWellFormed m.objects w.well_objects;
  well_handlers = sweep-IsWellFormed m.handlers w.well_handlers;
}

pub sweep_all-Live :
    (m : Cekh)
    → AreWellFormed m
    → (s : Slot) → (Live (sweep_all m) s ↔ (marked m s ≡ true)) × (marked (sweep_all m) s ≡ false)
unfolding sweep_all is_marked
sweep_all-Live m w (envs, id) = sweep-IsLive m.envs w.well_envs id
sweep_all-Live m w (conts, id) = sweep-IsLive m.conts w.well_conts id
sweep_all-Live m w (objects, id) = sweep-IsLive m.objects w.well_objects id
sweep_all-Live m w (handlers, id) = sweep-IsLive m.handlers w.well_handlers id

pub content-sweep_all : (m : Cekh) (s : Slot) → content (sweep_all m) s ≡ content m s
unfolding sweep_all sweep get
content-sweep_all m (envs, id) = refl
content-sweep_all m (conts, id) = refl
content-sweep_all m (objects, id) = refl
content-sweep_all m (handlers, id) = refl

Exists-lt :
    {A : Type 0} (items : A → List WorkItem) (xs : List A) (id : ℕ)
    → id < length xs
    → (inside : List WorkItem) × (items_at items (get_elem? xs id) ≡ some inside)
Exists-lt items xs id lt = let (x, e) = get_elem?-some xs id lt in (items x, rw e refl)

pub Live-Exists : (m : Cekh) (s : Slot) → Live m s → Exists m s
unfolding get
Live-Exists m (envs, id) l = Exists-lt env_items m.envs.slots id l.exists
Live-Exists m (conts, id) l = Exists-lt kont_items m.conts.slots id l.exists
Live-Exists m (objects, id) l = Exists-lt object_items m.objects.slots id l.exists
Live-Exists m (handlers, id) l = Exists-lt handler_items m.handlers.slots id l.exists
