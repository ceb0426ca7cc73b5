-- ===== src/Env/Frame.antt =====
-- src/env.rs: both representations of a frame are one map from names to values.
use kryhtajs.Prelude.{
  zero, suc, ◌≤◌, ◌≡◌, refl, true, false, none, some, List, [], ◌∷◌, arith, ◌==◌, ==_iff,
  if◌then◌else◌, lookup, insert, contains_key, nat_key, lookup-insert, Bool-cases, inl, inr,
  DistinctKeys, insert-DistinctKeys,
}
use kryhtajs.Value.{JsValue, StrId}
use kryhtajs.Env.{Bindings, Entry, used, find, contains, bind_name, small_env_capacity}

-- The count of a small frame is within its array, and no name stands twice.
abbrev pub IsFrame : Bindings → Type 0
IsFrame (Bindings.small a b len) = (len ≤ small_env_capacity) × DistinctKeys (used a b len)
IsFrame (Bindings.large m) = DistinctKeys m

-- In a well-formed frame, a name that is bound is found with its new value, and every other name is
-- found as before, across the change of representation.
pub find-bind_name :
    (b : Bindings) (name other : StrId) (v : JsValue)
    → IsFrame b
    → find (bind_name b name v) other ≡ (if name == other then some v else find b other)
unfolding find bind_name
find-bind_name (Bindings.small (i, x) (j, y) zero) name other v h = ground arith
find-bind_name (Bindings.small (i, x) (j, y) (suc zero)) name other v h =
    ground (arith, ==_iff i name, ==_iff name other)
find-bind_name (Bindings.small (i, x) (j, y) (suc (suc zero))) name other v h = ground (
  arith,
  ==_iff i name,
  ==_iff j name,
  ==_iff name other,
  ==_iff i other,
  ==_iff j other,
  ==_iff i j,
  h.1,
)
find-bind_name (Bindings.small (i, x) (j, y) (suc (suc (suc n)))) name other v h =
    absurd (omega (arith, h.0))
find-bind_name (Bindings.large m) name other v h = lookup-insert name other v m

-- Binding a name keeps a frame well formed: a small frame is within its array, and no name stands
-- twice.
pub bind_name-IsFrame :
    (b : Bindings) (name : StrId) (v : JsValue) → IsFrame b → IsFrame (bind_name b name v)
unfolding bind_name
bind_name-IsFrame (Bindings.small (i, x) (j, y) zero) name v h = (omega arith, (refl, tt))
bind_name-IsFrame (Bindings.small (i, x) (j, y) (suc zero)) name v h = ground (arith, ==_iff i name)
bind_name-IsFrame (Bindings.small (i, x) (j, y) (suc (suc zero))) name v h =
    elim (Bool-cases (i == name)) [
      | inl first ↦ rw first (omega arith, h.1)
      | inr apart ↦ elim (Bool-cases (j == name)) [
        | inl second ↦ rw (apart, second) (omega arith, h.1)
        | inr neither ↦
            rw (apart, neither)
              (insert-DistinctKeys name v (insert j y ((i, x) ∷ []))
                (insert-DistinctKeys j y ((i, x) ∷ []) (refl, tt)))
      ]
    ]
bind_name-IsFrame (Bindings.small (i, x) (j, y) (suc (suc (suc n)))) name v h =
    absurd (omega (arith, h.0))
bind_name-IsFrame (Bindings.large m) name v h = insert-DistinctKeys name v m h

contains_key-lookup :
    (m : List Entry) (name : StrId)
    → contains_key name m ≡ (elim (lookup name m) [ none ↦ false | some v ↦ true ])
contains_key-lookup [] name = refl
contains_key-lookup ((k, v) ∷ m) name = ground (arith, contains_key-lookup m name)

-- A frame contains exactly the names that it finds.
pub contains_lem :
    (b : Bindings) (name : StrId)
    → contains b name ≡ (elim (find b name) [ none ↦ false | some v ↦ true ])
unfolding contains find
contains_lem (Bindings.small a b len) name = contains_key-lookup (used a b len) name
contains_lem (Bindings.large m) name = contains_key-lookup m name
