-- ===== src/Examples/Stores.antt =====
-- src/arena.rs, src/env.rs, src/string_pool.rs: an arena with a free slot, two frames and a pool.
use kryhtajs.Prelude.{
  ℕ, zero, suc, ◌<◌, ◌≡◌, refl, subst, ◌↔◌, ◌⊎◌, ◌==◌, if◌then◌else◌, arith, true, false, none,
  some, List, [], ◌∷◌, length, ascii,
}
use kryhtajs.Value.{JsValue, EnvId}
use kryhtajs.Arena.{Arena, alloc, get, sweep, is_marked, IsWellFormed, IsLive}
use kryhtajs.Arena.Live.{alloc-IsWellFormed, alloc-IsLive}
use kryhtajs.Arena.Sweep.{sweep-IsWellFormed, sweep-IsLive}
use kryhtajs.Env.{
  Bindings, Env, EnvArena, Entry, unused, find, bind_name, with_binding_slice, get_local,
  lookup_name, assign, rounds,
}
use kryhtajs.Env.Frame.{IsFrame, find-bind_name, bind_name-IsFrame}
use kryhtajs.Env.Slices.{get_local-with_binding_slice}
use kryhtajs.Arena.Links.{top, frame}
use kryhtajs.Env.Chain.{Chain, innermost, Chain-fits, lookup_name-Chain}
use kryhtajs.Env.Assign.{AreFrames, assign_missing, lookup_name-assign}
use kryhtajs.StringPool as Pool
use kryhtajs.StringPool.Interning.{
  new-IsConsistent, intern-IsConsistent, get-intern, intern_again, get-intern_old,
}

-- Slot 0 is free; slot 1 is live and marked.
abbrev two_slots : Arena ℕ
two_slots = record {
  slots = 10 ∷ 11 ∷ [];
  free_list = 0 ∷ [];
  marks = false ∷ true ∷ [];
  allocations = 2;
}

two_slots-IsWellFormed : IsWellFormed two_slots
two_slots-IsWellFormed = record {
  marked = refl;
  in_range = (omega arith, tt);
  distinct = (refl, tt);
  small = omega arith;
}

alloc-IsWellFormed_example : IsWellFormed (alloc 12 two_slots).0
alloc-IsWellFormed_example = alloc-IsWellFormed two_slots 12 two_slots-IsWellFormed (omega arith)

alloc-IsLive_example :
    IsLive (alloc 12 two_slots).0 0 ↔ (IsLive two_slots 0 ⊎ (0 ≡ (alloc 12 two_slots).1))
alloc-IsLive_example = alloc-IsLive two_slots 12 0 two_slots-IsWellFormed

sweep-IsWellFormed_example : IsWellFormed (sweep two_slots)
sweep-IsWellFormed_example = sweep-IsWellFormed two_slots two_slots-IsWellFormed

sweep-IsLive_example :
    (IsLive (sweep two_slots) 1 ↔ (is_marked two_slots 1 ≡ true))
    × (is_marked (sweep two_slots) 1 ≡ false)
sweep-IsLive_example = sweep-IsLive two_slots two_slots-IsWellFormed 1

abbrev global_frame : Env
global_frame = record {
  bindings = Bindings.small (1, JsValue.int 5) (2, JsValue.null) 2;
  parent = none;
}

abbrev inner_frame : Env
inner_frame = record { bindings = Bindings.small (2, JsValue.int 6) unused 1; parent = some 0 }

abbrev two_frames : EnvArena
two_frames = record {
  slots = global_frame ∷ inner_frame ∷ [];
  free_list = [];
  marks = false ∷ false ∷ [];
  allocations = 2;
}

two_frames-Chain : Chain two_frames (some 1) (1 ∷ 0 ∷ [])
unfolding get
two_frames-Chain = frame inner_frame refl (frame global_frame refl top)

two_frames_at : (id : EnvId) (env : Env) → get two_frames id ≡ some env → IsFrame env.bindings
unfolding get
two_frames_at zero env e =
    let same : global_frame ≡ env = cc in
    subst (λ (x : Env). IsFrame x.bindings) same (omega arith, (refl, (refl, tt)))
two_frames_at (suc zero) env e =
    let same : inner_frame ≡ env = cc in
    subst (λ (x : Env). IsFrame x.bindings) same (omega arith, (refl, tt))
two_frames_at (suc (suc id)) env e = cc

two_frames-AreFrames : AreFrames two_frames
two_frames-AreFrames = record { at = two_frames_at }

-- The chain finds the global's name 1.
finds_one : lookup_name two_frames 1 1 ≡ some (JsValue.int 5)
unfolding lookup_name get get_local find
finds_one = refl

lacks_nine : lookup_name two_frames 1 9 ≡ none
unfolding lookup_name get get_local find
lacks_nine = refl

lookup_name-assign_example :
    ((assign two_frames 1 1 JsValue.null).1 ≡ true)
    × (lookup_name (assign two_frames 1 1 JsValue.null).0 1 2
        ≡ (if 1 == 2 then some JsValue.null else lookup_name two_frames 1 2))
lookup_name-assign_example =
    lookup_name-assign two_frames two_frames-AreFrames 1 JsValue.null 1 two_frames-Chain 2
      (JsValue.int 5) finds_one

assign_missing_example : assign two_frames 1 9 JsValue.null ≡ (two_frames, false)
assign_missing_example =
    assign_missing two_frames two_frames-AreFrames 9 JsValue.null 1 two_frames-Chain lacks_nine

lookup_name-Chain_example : lookup_name two_frames 1 1 ≡ innermost two_frames 1 (1 ∷ 0 ∷ [])
lookup_name-Chain_example = lookup_name-Chain two_frames 1 1 two_frames-Chain

Chain-fits_example : length {A = ℕ} (1 ∷ 0 ∷ []) < rounds two_frames
Chain-fits_example = Chain-fits two_frames two_frames-Chain

-- Three entries make a large frame, and the last of a name counts.
abbrev three_entries : List Entry
three_entries = (1, JsValue.int 5) ∷ (2, JsValue.null) ∷ (1, JsValue.int 7) ∷ []

get_local-with_binding_slice_example :
    get_local (with_binding_slice three_entries none) 1 ≡ some (JsValue.int 7)
get_local-with_binding_slice_example = get_local-with_binding_slice three_entries none 1

find-bind_name_example :
    find (bind_name global_frame.bindings 3 (JsValue.int 8)) 2
    ≡ (if 3 == 2 then some (JsValue.int 8) else find global_frame.bindings 2)
find-bind_name_example =
    find-bind_name global_frame.bindings 3 2 (JsValue.int 8) (omega arith, (refl, (refl, tt)))

bind_name-IsFrame_example : IsFrame (bind_name global_frame.bindings 3 (JsValue.int 8))
bind_name-IsFrame_example =
    bind_name-IsFrame global_frame.bindings 3 (JsValue.int 8) (omega arith, (refl, (refl, tt)))

intern-IsConsistent_example : Pool.IsConsistent (Pool.intern (ascii "k") Pool.new).0
unfolding Pool.new
intern-IsConsistent_example =
    intern-IsConsistent (ascii "k") Pool.new new-IsConsistent (omega arith)

get-intern_example :
    Pool.get (Pool.intern (ascii "k") Pool.new).0 (Pool.intern (ascii "k") Pool.new).1
    ≡ some (ascii "k")
unfolding Pool.new
get-intern_example = get-intern (ascii "k") Pool.new new-IsConsistent (omega arith)

intern_again_example :
    Pool.intern (ascii "k") (Pool.intern (ascii "k") Pool.new).0 ≡ Pool.intern (ascii "k") Pool.new
unfolding Pool.new
intern_again_example = intern_again (ascii "k") Pool.new new-IsConsistent (omega arith)

get-intern_old_example : Pool.get (Pool.intern (ascii "k") Pool.new).0 0 ≡ some []
unfolding Pool.new Pool.get
get-intern_old_example =
    get-intern_old (ascii "k") Pool.new new-IsConsistent (omega arith) 0 [] refl
