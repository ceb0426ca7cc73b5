-- ===== src/Env.antt =====
-- src/env.rs: environment frames in an arena, each with its bindings and its parent.
pub mod Frame
pub mod Slices
pub mod Chain
pub mod Assign
use kryhtajs.Prelude.{
  ℕ, zero, suc, ◌+◌, ◌<◌, ◌≤◌, ◌≡◌, Bool, true, false, Option, none, some, List, [], ◌∷◌, ◌++◌,
  length, get_elem?, set, take, leb, ltb, ◌==◌, ◌&&◌, if◌then◌else◌, lookup, insert, insert_all,
  contains_key, nat_key,
}
use kryhtajs.Value.{JsValue, StrId, EnvId}
use kryhtajs.Arena.{Arena, alloc, get, put, empty}

abbrev pub Entry : Type 0
Entry = StrId × JsValue

-- `small` holds its array of two entries and how many are in use.
pub data Bindings : Type 0 where
  small : Entry → Entry → ℕ → Bindings
  large : List Entry → Bindings

abbrev pub small_env_capacity : ℕ
small_env_capacity = 2

abbrev pub unused : Entry
unused = (0, JsValue.undefined)

-- The entries in use.
abbrev pub used : Entry → Entry → ℕ → List Entry
used a b len = take len (a ∷ b ∷ [])

unfoldable pub new_bindings : Bindings
new_bindings = Bindings.small unused unused 0

-- The loop over the entries in use finds the first of the name, as a list lookup does.
unfoldable pub find : Bindings → StrId → Option JsValue
find (Bindings.small a b len) name = lookup name (used a b len)
find (Bindings.large m) name = lookup name m

unfoldable pub contains : Bindings → StrId → Bool
contains (Bindings.small a b len) name = contains_key name (used a b len)
contains (Bindings.large m) name = contains_key name m

abbrev rename : Entry → JsValue → Entry
rename (k, v) w = (k, w)

-- The tail of `insert` for a small frame that does not have the name.
append_entry : Entry → Entry → ℕ → StrId → JsValue → Bindings
append_entry a b zero name v = Bindings.small (name, v) b 1
append_entry a b (suc zero) name v = Bindings.small a (name, v) 2
append_entry a b (suc (suc n)) name v =
    Bindings.large (insert name v (insert b.0 b.1 (insert a.0 a.1 [])))

unfoldable pub bind_name : Bindings → StrId → JsValue → Bindings
unfolding append_entry
bind_name (Bindings.small a b len) name v =
    if ltb 0 len && a.0 == name
    then Bindings.small (rename a v) b len
    else if ltb 1 len && b.0 == name
    then Bindings.small a (rename b v) len
    else append_entry a b len name v
bind_name (Bindings.large m) name v = Bindings.large (insert name v m)

-- `iter` and `to_hashmap`; a frame has no name twice.
unfoldable pub entries : Bindings → List Entry
entries (Bindings.small a b len) = used a b len
entries (Bindings.large m) = m

pub record Env : Type 0 where
  pub bindings : Bindings
  pub parent : Option EnvId

unfoldable empty_env : Env
unfolding new_bindings
empty_env = record { bindings = new_bindings; parent = none }

unfoldable pub with_parent : EnvId → Env
unfolding new_bindings
with_parent p = record { bindings = new_bindings; parent = some p }

unfoldable pub bind_all : Bindings → List Entry → Bindings
bind_all b [] = b
bind_all b ((k, v) ∷ kvs) = bind_all (bind_name b k v) kvs

-- `with_binding_slice`, and `with_bindings` on the entries of a map.
unfoldable pub with_binding_slice : List Entry → Option EnvId → Env
unfolding bind_all new_bindings
with_binding_slice kvs parent =
    if leb (length kvs) small_env_capacity
    then record { bindings = bind_all new_bindings kvs; parent = parent }
    else record { bindings = Bindings.large (insert_all kvs []); parent = parent }

unfoldable pub get_local : Env → StrId → Option JsValue
get_local env name = find env.bindings name

unfoldable pub set_local : Env → StrId → JsValue → Env
set_local env name v = record env { bindings = bind_name env.bindings name v }

unfoldable pub has_local : Env → StrId → Bool
has_local env name = contains env.bindings name

abbrev pub EnvArena : Type 0
EnvArena = Arena Env

-- The global environment is slot 0.
unfoldable pub new : EnvArena
unfolding empty_env
new = (alloc empty_env empty).0

unfoldable pub extend : EnvArena → EnvId → EnvArena × EnvId
extend envs parent = alloc (with_parent parent) envs

unfoldable pub extend_with_slice : EnvArena → EnvId → List Entry → EnvArena × EnvId
extend_with_slice envs parent kvs = alloc (with_binding_slice kvs (some parent)) envs

-- `with_bindings` takes the entries of a map.
unfoldable pub extend_with : EnvArena → EnvId → List Entry → EnvArena × EnvId
extend_with envs parent m = alloc (with_binding_slice m (some parent)) envs

unfoldable pub bind_one : EnvArena → EnvId → StrId → JsValue → EnvArena × EnvId
bind_one envs parent name v = alloc (with_binding_slice ((name, v) ∷ []) (some parent)) envs

-- The walk of `lookup`, one round for each frame; an unallocated id ends it.
unfoldable pub lookup_from : ℕ → EnvArena → StrId → Option EnvId → Option JsValue
lookup_from zero envs name current = none
lookup_from (suc fuel) envs name none = none
lookup_from (suc fuel) envs name (some id) = elim (get envs id) [
  | none ↦ none
  | some env ↦ elim (get_local env name) [
    | some v ↦ some v
    | none ↦ lookup_from fuel envs name env.parent
  ]
]

-- A chain without cycles visits each slot once at most, so a round for each slot and one more is
-- enough.
abbrev pub rounds : EnvArena → ℕ
rounds envs = suc (length envs.slots)

unfoldable pub lookup_name : EnvArena → EnvId → StrId → Option JsValue
unfolding lookup_from
lookup_name envs id name = lookup_from (rounds envs) envs name (some id)

-- The walk of `assign`; whether a frame of the chain had the name.
unfoldable pub assign_from : ℕ → EnvArena → StrId → JsValue → Option EnvId → EnvArena × Bool
assign_from zero envs name v current = (envs, false)
assign_from (suc fuel) envs name v none = (envs, false)
assign_from (suc fuel) envs name v (some id) = elim (get envs id) [
  | none ↦ (envs, false)
  | some env ↦ elim (has_local env name) [
    | true ↦ (put envs id (set_local env name v), true)
    | false ↦ assign_from fuel envs name v env.parent
  ]
]

unfoldable pub assign : EnvArena → EnvId → StrId → JsValue → EnvArena × Bool
unfolding assign_from
assign envs id name v = assign_from (rounds envs) envs name v (some id)

abbrev define_found : EnvArena → EnvId → StrId → JsValue → Option Env → EnvArena
define_found envs id name v none = envs
define_found envs id name v (some env) = put envs id (set_local env name v)

unfoldable pub define : EnvArena → EnvId → StrId → JsValue → EnvArena
define envs id name v = define_found envs id name v (get envs id)
