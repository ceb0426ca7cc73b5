-- ===== src/Gc/Reach.antt =====
-- src/gc.rs: the slots of the four arenas that the collector sweeps, and the slots that are reached
-- from given items through what the slots hold.
use kryhtajs.Prelude.{
  ℕ, ◌<◌, ◌≡◌, refl, Bool, true, false, Option, none, some, List, [], ◌∷◌, length, get_elem?,
  if◌then◌else◌,
}
use kryhtajs.Value.{JsValue}
use kryhtajs.Arena.{get}
use kryhtajs.Cekh.State.{Cekh}
use kryhtajs.Gc.Items.{WorkItem, env_items, kont_items, object_items, handler_items}
use kryhtajs.StringPool as Pool
use mathlib.Core.List.{Memᴰ}

pub data Kind : Type 0 where
  envs conts objects handlers : Kind

abbrev pub Slot : Type 0
Slot = Kind × ℕ

abbrev pub same_kind : Kind → Kind → Bool
same_kind envs envs = true
same_kind conts conts = true
same_kind objects objects = true
same_kind handlers handlers = true
same_kind _ _ = false

-- The slots that an item names.
abbrev pub targets : WorkItem → List Slot
targets (WorkItem.env id) = (envs, id) ∷ []
targets (WorkItem.cont id) = (conts, id) ∷ []
targets (WorkItem.value (JsValue.object id)) = (objects, id) ∷ []
targets (WorkItem.value (JsValue.array id)) = (objects, id) ∷ []
targets (WorkItem.value (JsValue.function id)) = (objects, id) ∷ []
targets (WorkItem.value (JsValue.handler id)) = (handlers, id) ∷ []
targets (WorkItem.value (JsValue.continuation k e)) = (envs, e) ∷ (conts, k) ∷ []
targets (WorkItem.value _) = []

abbrev pub marks_of : Kind → Cekh → List Bool
marks_of envs m = m.envs.marks
marks_of conts m = m.conts.marks
marks_of objects m = m.objects.marks
marks_of handlers m = m.handlers.marks

abbrev pub items_at {ℓ} : {A : Type ℓ} → (A → List WorkItem) → Option A → Option (List WorkItem)
items_at items none = none
items_at items (some x) = some (items x)

-- What a slot holds; none where there is no such slot.
abbrev pub content : Cekh → Slot → Option (List WorkItem)
content m (envs, id) = items_at env_items (get m.envs id)
content m (conts, id) = items_at kont_items (get m.conts id)
content m (objects, id) = items_at object_items (get m.objects id)
content m (handlers, id) = items_at handler_items (get m.handlers id)

abbrev pub with_marks : Kind → List Bool → Cekh → Cekh
with_marks envs marks m = record m { envs = record m.envs { marks = marks } }
with_marks conts marks m = record m { conts = record m.conts { marks = marks } }
with_marks objects marks m = record m { objects = record m.objects { marks = marks } }
with_marks handlers marks m = record m { handlers = record m.handlers { marks = marks } }

-- The machine without its marks and its strings, which alone a trace changes.
abbrev pub strip : Cekh → Cekh
strip m = record m {
  envs = record m.envs { marks = [] };
  conts = record m.conts { marks = [] };
  objects = record m.objects { marks = [] };
  handlers = record m.handlers { marks = [] };
  strings = Pool.new;
}

abbrev pub read_mark : List Bool → ℕ → Bool
read_mark marks id = elim (get_elem? marks id) [ none ↦ false | some b ↦ b ]

abbrev pub marked : Cekh → Slot → Bool
marked m (kind, id) = read_mark (marks_of kind m) id

-- A slot is reached when an item names it, or when a slot that is reached holds such an item.
pub data Reach (m : Cekh) (items : List WorkItem) : Slot → Type 0 where
  named : (i : WorkItem) (s : Slot) → Memᴰ i items → Memᴰ s (targets i) → Reach m items s
  held :
      (s : Slot) (inside : List WorkItem) (i : WorkItem) (t : Slot)
      → Reach m items s
      → content m s ≡ some inside
      → Memᴰ i inside
      → Memᴰ t (targets i)
      → Reach m items t

-- Every slot has a mark.
pub record HasMarks (m : Cekh) : Type 0 where
  pub has_mark :
      (kind : Kind) (id : ℕ) (inside : List WorkItem)
      → content m (kind, id) ≡ some inside
      → id < length (marks_of kind m)

pub marks_of-with_marks :
    (kind other : Kind) (marks : List Bool) (m : Cekh)
    → marks_of other (with_marks kind marks m)
      ≡ (if same_kind kind other then marks else marks_of other m)
marks_of-with_marks envs envs marks m = refl
marks_of-with_marks envs _ marks m = refl
marks_of-with_marks conts conts marks m = refl
marks_of-with_marks conts _ marks m = refl
marks_of-with_marks objects objects marks m = refl
marks_of-with_marks objects _ marks m = refl
marks_of-with_marks handlers handlers marks m = refl
marks_of-with_marks handlers _ marks m = refl

pub strip-with_marks :
    (kind : Kind) (marks : List Bool) (m : Cekh) → strip (with_marks kind marks m) ≡ strip m
strip-with_marks envs marks m = refl
strip-with_marks conts marks m = refl
strip-with_marks objects marks m = refl
strip-with_marks handlers marks m = refl

pub content-with_marks :
    (kind : Kind) (marks : List Bool) (m : Cekh) (s : Slot)
    → content (with_marks kind marks m) s ≡ content m s
unfolding get
content-with_marks envs marks m (envs, id) = refl
content-with_marks envs marks m (_, id) = refl
content-with_marks conts marks m (conts, id) = refl
content-with_marks conts marks m (_, id) = refl
content-with_marks objects marks m (objects, id) = refl
content-with_marks objects marks m (_, id) = refl
content-with_marks handlers marks m (handlers, id) = refl
content-with_marks handlers marks m (_, id) = refl

pub same_kind-eq : (a b : Kind) → same_kind a b ≡ true → a ≡ b
same_kind-eq envs envs h = refl
same_kind-eq conts conts h = refl
same_kind-eq objects objects h = refl
same_kind-eq handlers handlers h = refl
same_kind-eq _ _ h = cc

pub same_kind_refl : (a : Kind) → same_kind a a ≡ true
same_kind_refl envs = refl
same_kind_refl conts = refl
same_kind_refl objects = refl
same_kind_refl handlers = refl
