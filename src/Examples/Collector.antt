-- ===== src/Examples/Collector.antt =====
-- src/gc.rs: a collection that frees one of two objects.
use mathlib.Core.List.{Memᴰ}
use mathlib.Core.List.Memᴰ
use kryhtajs.Prelude.{
  inl, inr, subst, sym, All, zero, suc, none, ◌≡◌, ◌↔◌, refl, false, some, [], ◌∷◌, arith, List,
}
use kryhtajs.Value.{JsValue}
use kryhtajs.Arena.{Arena, IsWellFormed, empty, get}
use kryhtajs.Cont.{Kont}
use kryhtajs.Env.{Env, Bindings, unused, entries}
use kryhtajs.Object as Obj
use kryhtajs.Object.{Object}
use kryhtajs.Cekh.State.{Cekh, Control}
use kryhtajs.Gc.Items.{env_items, kont_items, object_items, roots}
use kryhtajs.Gc.Collect as Collector
use kryhtajs.Gc.Collect.{Gc, collect}
use kryhtajs.Gc.Reach.{Kind, Slot, Reach, targets, named, held, content, marked}
use kryhtajs.Gc.Arenas.{AreWellFormed, Unmarked, Live, Exists}
use kryhtajs.Gc.Reached.{collect-Reach}
use kryhtajs.Gc.Rounds.{HasEnvs, collect_ends}
use kryhtajs.StringPool as Pool

abbrev globals_only : Arena Env
globals_only = record {
  slots = record { bindings = Bindings.small unused unused 0; parent = none } ∷ [];
  free_list = [];
  marks = false ∷ [];
  allocations = 1;
}

abbrev halt_only : Arena Kont
halt_only = record { slots = Kont.halt ∷ []; free_list = []; marks = false ∷ []; allocations = 1 }

-- Object 0 is a global's value, and nothing names object 1.
abbrev two_objects : Arena Object
two_objects = record {
  slots = Obj.new ∷ Obj.new ∷ [];
  free_list = [];
  marks = false ∷ false ∷ [];
  allocations = 2;
}

abbrev machine : Cekh
machine = record {
  control = Control.value JsValue.null;
  env = 0;
  cont = 0;
  envs = globals_only;
  conts = halt_only;
  handlers = empty;
  objects = two_objects;
  strings = Pool.new;
  globals = (5, JsValue.object 0) ∷ [];
}

one_slot-IsWellFormed : IsWellFormed globals_only
one_slot-IsWellFormed = record { marked = refl; in_range = tt; distinct = tt; small = omega arith }

halt_only-IsWellFormed : IsWellFormed halt_only
halt_only-IsWellFormed = record { marked = refl; in_range = tt; distinct = tt; small = omega arith }

two_objects-IsWellFormed : IsWellFormed two_objects
two_objects-IsWellFormed = record {
  marked = refl;
  in_range = tt;
  distinct = tt;
  small = omega arith;
}

machine-AreWellFormed : AreWellFormed machine
unfolding empty
machine-AreWellFormed = record {
  well_envs = one_slot-IsWellFormed;
  well_conts = halt_only-IsWellFormed;
  well_objects = two_objects-IsWellFormed;
  well_handlers = record { marked = refl; in_range = tt; distinct = tt; small = omega arith };
}

machine-Unmarked : Unmarked machine
unfolding empty
machine-Unmarked (Kind.envs, zero) = refl
machine-Unmarked (Kind.envs, suc id) = refl
machine-Unmarked (Kind.conts, zero) = refl
machine-Unmarked (Kind.conts, suc id) = refl
machine-Unmarked (Kind.objects, zero) = refl
machine-Unmarked (Kind.objects, suc zero) = refl
machine-Unmarked (Kind.objects, suc (suc id)) = refl
machine-Unmarked (Kind.handlers, id) = refl

abbrev collected : Cekh
collected = record machine { objects = record two_objects { free_list = 1 ∷ [] } }

abbrev collector : Gc
collector = record {
  stats = record { collections = 1; objects_freed = 0; strings_freed = 0 };
  threshold = 1000;
  alloc_snapshot = 4;
}

runs : collect Collector.new machine [] [] ≡ some (collector, collected)
unfolding collect Collector.new empty Obj.new get
runs = refl

collect-Reach_example :
    (Live collected (Kind.objects, 1)
      ↔ (Reach machine (roots machine [] []) (Kind.objects, 1) × Exists machine (Kind.objects, 1)))
    × (content collected (Kind.objects, 1) ≡ content machine (Kind.objects, 1))
    × (marked collected (Kind.objects, 1) ≡ false)
collect-Reach_example =
    collect-Reach Collector.new collector machine collected [] [] (Kind.objects, 1)
      machine-AreWellFormed machine-Unmarked runs

All-Memᴰ : {A : Type 0} (P : A → Type 0) (xs : List A) {x : A} → All P xs → Memᴰ x xs → P x
All-Memᴰ P [] every h = absurd (Memᴰ.not-nil h)
All-Memᴰ P (y ∷ ys) every h = elim (Memᴰ.cases_cons h) [
  | inl e ↦ subst P (sym e) every.0
  | inr rest ↦ All-Memᴰ P ys every.1 rest
]

abbrev Bare : Slot → Type 0
Bare s = content machine s ≡ some []

roots-Bare : All (λ i. All Bare (targets i)) (roots machine [] [])
unfolding roots get entries Obj.new env_items kont_items object_items
roots-Bare = (tt, ((refl, tt), ((refl, tt), ((refl, tt), tt))))

-- The three slots that are reached hold nothing.
Reach-Bare : {s : Slot} → Reach machine (roots machine [] []) s → Bare s
Reach-Bare (named i s in_items names) =
    All-Memᴰ Bare (targets i)
      (All-Memᴰ (λ j. All Bare (targets j)) (roots machine [] []) roots-Bare in_items) names
Reach-Bare (held t inside i s r e in_inside names) =
    let bare = Reach-Bare r in
    let same : inside ≡ [] = cc in absurd (Memᴰ.not-nil (subst (λ l. Memᴰ i l) same in_inside))

machine-HasEnvs : HasEnvs machine (roots machine [] [])
machine-HasEnvs id r = ([], Reach-Bare r)

collect_ends_example :
    (gc' : Gc) × (m' : Cekh) × (collect Collector.new machine [] [] ≡ some (gc', m'))
collect_ends_example =
    collect_ends Collector.new machine [] [] machine-AreWellFormed machine-Unmarked machine-HasEnvs
