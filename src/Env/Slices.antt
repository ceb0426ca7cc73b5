-- ===== src/Env/Slices.antt =====
-- src/env.rs: a frame built from a slice binds each name to its last value, whichever
-- representation the number of entries selects.
use kryhtajs.Prelude.{
  ◌≡◌, refl, Bool-cases, inl, inr, Option, none, some, List, [], ◌∷◌, arith, length, leb, ◌==◌,
  if◌then◌else◌, lookup, insert, insert_all, nat_key, lookup-insert, DistinctKeys, contains_key,
  false, ==_iff,
}
use kryhtajs.Value.{JsValue, StrId, EnvId}
use kryhtajs.Env.{
  Bindings, Entry, find, bind_name, new_bindings, bind_all, with_binding_slice, get_local,
}
use kryhtajs.Env.Frame.{IsFrame, find-bind_name, bind_name-IsFrame}

abbrev or_else : Option JsValue → Option JsValue → Option JsValue
or_else none d = d
or_else (some v) d = some v

-- The value of the last entry of a name.
abbrev pub last_value : List Entry → StrId → Option JsValue
last_value [] name = none
last_value ((k, v) ∷ kvs) name = or_else (last_value kvs name) (if k == name then some v else none)

find-bind_all :
    (b : Bindings) (kvs : List Entry) (name : StrId)
    → IsFrame b
    → find (bind_all b kvs) name ≡ or_else (last_value kvs name) (find b name)
unfolding bind_all
find-bind_all b [] name h = refl
find-bind_all b ((k, v) ∷ kvs) name h = ground (
  arith,
  find-bind_all (bind_name b k v) kvs name (bind_name-IsFrame b k v h),
  find-bind_name b k name v h,
)

lookup-insert_all :
    (kvs m : List Entry) (name : StrId)
    → lookup name (insert_all kvs m) ≡ or_else (last_value kvs name) (lookup name m)
lookup-insert_all [] m name = refl
lookup-insert_all ((k, v) ∷ kvs) m name =
    ground (arith, lookup-insert_all kvs (insert k v m) name, lookup-insert k name v m)

new_bindings-IsFrame : IsFrame new_bindings
unfolding new_bindings
new_bindings-IsFrame = (omega arith, tt)

find-new_bindings : (name : StrId) → find new_bindings name ≡ none
unfolding find new_bindings
find-new_bindings name = refl

-- A frame built from a slice of bindings finds for each name the value of its last binding in the
-- slice, and nothing for another name, whichever representation the size selects.
pub get_local-with_binding_slice :
    (kvs : List Entry) (parent : Option EnvId) (name : StrId)
    → get_local (with_binding_slice kvs parent) name ≡ last_value kvs name
unfolding get_local with_binding_slice
get_local-with_binding_slice kvs parent name = elim (Bool-cases (leb (length kvs) 2)) [
  | inl few ↦ rw few (
      ground
        (arith, find-bind_all new_bindings kvs name new_bindings-IsFrame, find-new_bindings name))
  | inr many ↦ rw many (unfold find in ground (arith, lookup-insert_all kvs [] name))
]

last_value-absent :
    (kvs : List Entry) (name : StrId) → contains_key name kvs ≡ false → last_value kvs name ≡ none
last_value-absent [] name h = refl
last_value-absent ((k, v) ∷ kvs) name h = ground (arith, last_value-absent kvs name)

pub last_value-lookup :
    (kvs : List Entry) (name : StrId) → DistinctKeys kvs → last_value kvs name ≡ lookup name kvs
last_value-lookup [] name d = refl
last_value-lookup ((k, v) ∷ kvs) name d =
    ground (arith, last_value-lookup kvs name d.1, last_value-absent kvs name, d.0, ==_iff k name)

pub parent-with_binding_slice :
    (kvs : List Entry) (parent : Option EnvId) → (with_binding_slice kvs parent).parent ≡ parent
unfolding with_binding_slice
parent-with_binding_slice kvs parent = elim (Bool-cases (leb (length kvs) 2)) [
  | inl few ↦ rw few refl
  | inr many ↦ rw many refl
]
