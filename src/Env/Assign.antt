-- ===== src/Env/Assign.antt =====
-- src/env.rs: `assign` writes the variable that `lookup` reads, and no other.
use kryhtajs.Prelude.{
  ℕ, zero, suc, ◌<◌, ◌≡◌, refl, sym, ◌∙◌, subst, Bool, true, false, Bool-cases, Option-cases, inl,
  inr, Option, none, some, List, [], ◌∷◌, arith, length, ◌==◌, ==_iff, ==_refl, if◌then◌else◌,
  get_elem?-lt, get_elem?-set,
}
use kryhtajs.Value.{JsValue, StrId, EnvId}
use kryhtajs.Arena.{get, put}
use kryhtajs.Env.{
  Env, EnvArena, get_local, set_local, has_local, lookup_name, assign_from, assign, rounds,
}
use kryhtajs.Env.Frame.{IsFrame, find-bind_name, contains_lem}
use kryhtajs.Arena.Links.{top, dangling, frame}
use kryhtajs.Env.Chain.{Chain, local_at, innermost, Chain-fits, lookup_name-Chain}

-- Every frame of the arena is well formed.
pub record AreFrames (envs : EnvArena) : Type 0 where
  pub at : (id : EnvId) (env : Env) → get envs id ≡ some env → IsFrame env.bindings

abbrev has_at : Option Env → StrId → Bool
has_at none name = false
has_at (some env) name = has_local env name

abbrev write_at : EnvArena → EnvId → StrId → JsValue → Option Env → EnvArena
write_at envs id name v none = envs
write_at envs id name v (some env) = put envs id (set_local env name v)

-- The first frame that has the name is written.
assigned : EnvArena → StrId → JsValue → List EnvId → EnvArena × Bool
assigned envs name v [] = (envs, false)
assigned envs name v (id ∷ ids) =
    if has_at (get envs id) name
    then (write_at envs id name v (get envs id), true)
    else assigned envs name v ids

assign_from-Chain :
    (envs : EnvArena) (name : StrId) (v : JsValue) {current : Option EnvId} {ids : List EnvId}
    (fuel : ℕ)
    → Chain envs current ids
    → length ids < fuel
    → assign_from fuel envs name v current ≡ assigned envs name v ids
unfolding assign_from assigned
assign_from-Chain envs name v zero c h = absurd (omega arith)
assign_from-Chain envs name v (suc fuel) top h = refl
assign_from-Chain envs name v (suc fuel) (dangling e) h = ground arith
assign_from-Chain envs name v (suc fuel) (frame env e rest) h =
    ground (arith, e, assign_from-Chain envs name v fuel rest (omega arith))

has_local-get_local :
    (env : Env) (name : StrId)
    → has_local env name ≡ (elim (get_local env name) [ none ↦ false | some v ↦ true ])
unfolding has_local get_local
has_local-get_local env name = contains_lem env.bindings name

module _ (envs : EnvArena) (frames : AreFrames envs) (name : StrId) (v : JsValue) where
  module _ (o : EnvId) (env : Env) (e : get envs o ≡ some env) where
    get-put :
        (j : EnvId)
        → get (put envs o (set_local env name v)) j
          ≡ (if j == o then some (set_local env name v) else get envs j)
    unfolding get put
    get-put j =
        get_elem?-set envs.slots o j (set_local env name v) (get_elem?-lt envs.slots o env e)

    local-put :
        (other : StrId)
        → get_local (set_local env name v) other
          ≡ (if name == other then some v else get_local env other)
    unfolding get_local set_local
    local-put other = find-bind_name env.bindings name other v (frames.at o env e)

    -- A write keeps every chain.
    Chain-put :
        {current : Option EnvId} {ids : List EnvId}
        → Chain envs current ids
        → Chain (put envs o (set_local env name v)) current ids
    unfolding set_local
    Chain-put top = top
    Chain-put (dangling {id} d) = dangling (ground (arith, get-put id, ==_iff id o, d, e))
    Chain-put (frame {id} f {ids} q rest) = elim (Bool-cases (id == o)) [
      | inl same ↦
          let agree : f ≡ env = ground (arith, ==_iff id o, q, e) in
          frame (set_local env name v) (ground (arith, get-put id, same)) (
            subst (λ (x : Env). Chain (put envs o (set_local env name v)) x.parent ids) agree
              (Chain-put rest))
      | inr apart ↦ frame f (ground (arith, get-put id, apart, q)) (Chain-put rest)
    ]

    innermost-put_ne :
        (other : StrId) (ids : List EnvId)
        → (name == other) ≡ false
        → innermost (put envs o (set_local env name v)) other ids ≡ innermost envs other ids
    unfolding innermost
    innermost-put_ne other [] ne = refl
    innermost-put_ne other (j ∷ ids) ne =
        ground (arith, e, ==_iff j o, get-put j, local-put other, innermost-put_ne other ids ne)

  unchanged_local :
      (j : EnvId) → has_at (get envs j) name ≡ false → local_at (get envs j) name ≡ none
  unchanged_local j lacks = elim (Option-cases (get envs j)) [
    | inl gone ↦ rw gone
    | inr (env, e) ↦ ground (arith, e, lacks, has_local-get_local env name)
  ]

  -- The frame that is written now has the value, and it is the first that has the name.
  innermost-assigned :
      (ids : List EnvId)
      → (assigned envs name v ids).1 ≡ true
      → (o : EnvId) × (env : Env) × (get envs o ≡ some env)
        × (has_local env name ≡ true)
        × ((assigned envs name v ids).0 ≡ put envs o (set_local env name v))
        × (innermost (put envs o (set_local env name v)) name ids ≡ some v)
  unfolding assigned innermost
  innermost-assigned [] h = cc
  innermost-assigned (j ∷ ids) h = elim (Bool-cases (has_at (get envs j) name)) [
    | inl has ↦ elim (Option-cases (get envs j)) [
      | inl gone ↦ ground (arith, gone, has)
      | inr (env, e) ↦ (
        j,
        env,
        e,
        ground (arith, e, has),
        ground (arith, e, has),
        ground (arith, get-put j env e j, ==_refl j, local-put j env e name, ==_refl name),
      )
    ]
    | inr lacks ↦
        let (o, env, e, owns, wrote, now) = innermost-assigned ids (ground (arith, lacks)) in
        (
          o,
          env,
          e,
          owns,
          ground (arith, lacks, wrote),
          ground
              (arith, get-put o env e j, ==_iff j o, e, owns, lacks, now, unchanged_local j lacks),
        )
  ]

  assigned-none :
      (ids : List EnvId) → innermost envs name ids ≡ none → assigned envs name v ids ≡ (envs, false)
  unfolding assigned innermost
  assigned-none [] h = refl
  assigned-none (j ∷ ids) h = elim (Option-cases (get envs j)) [
    | inl gone ↦ ground (arith, gone, assigned-none ids)
    | inr (env, e) ↦ ground (arith, e, has_local-get_local env name, assigned-none ids)
  ]

  assigned-some :
      (ids : List EnvId) (w : JsValue)
      → innermost envs name ids ≡ some w
      → (assigned envs name v ids).1 ≡ true
  unfolding assigned innermost
  assigned-some [] w h = cc
  assigned-some (j ∷ ids) w h = elim (Option-cases (get envs j)) [
    | inl gone ↦ ground (arith, gone, assigned-some ids w)
    | inr (env, e) ↦ ground (arith, e, has_local-get_local env name, assigned-some ids w)
  ]

  module _ (id : EnvId) {ids : List EnvId} (c : Chain envs (some id) ids) where
    assign_lem : assign envs id name v ≡ assigned envs name v ids
    unfolding assign
    assign_lem = assign_from-Chain envs name v (rounds envs) c (Chain-fits envs c)

    -- In an arena of well-formed frames, from a frame whose chain of parents ends, assigning a name
    -- that lookup does not find reports failure and changes nothing.
    pub assign_missing : lookup_name envs id name ≡ none → assign envs id name v ≡ (envs, false)
    assign_missing h = assign_lem ∙ assigned-none ids (sym (lookup_name-Chain envs id name c) ∙ h)

    -- In an arena of well-formed frames, from a frame whose chain of parents ends, assigning a name
    -- that lookup finds reports success; lookup from the same frame then gives the new value for
    -- that name and the old result for every other name.
    pub lookup_name-assign :
        (other : StrId) (w : JsValue)
        → lookup_name envs id name ≡ some w
        → ((assign envs id name v).1 ≡ true)
          × (lookup_name (assign envs id name v).0 id other
              ≡ (if name == other then some v else lookup_name envs id other))
    lookup_name-assign other w h =
        let found = assigned-some ids w (sym (lookup_name-Chain envs id name c) ∙ h) in
        let (o, env, e, owns, wrote, now) = innermost-assigned ids found in
        rw (assign_lem, wrote)
          (
            found,
            (lookup_name-Chain _ id other (Chain-put o env e c)
                ∙ ground (
                  arith,
                  ==_iff name other,
                  now,
                  innermost-put_ne o env e other ids,
                  lookup_name-Chain envs id other c,
                )),
          )
