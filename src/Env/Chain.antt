-- ===== src/Env/Chain.antt =====
-- src/env.rs: `lookup` walks the parents. On every chain that ends, the rounds that it is given are
-- enough, and it returns the value of the innermost frame that has the name.
use kryhtajs.Prelude.{
  ℕ, zero, suc, ◌<◌, ◌≡◌, refl, Option, none, some, List, [], ◌∷◌, arith, length,
}
use kryhtajs.Value.{JsValue, StrId, EnvId}
use kryhtajs.Arena.{get}
use kryhtajs.Arena.Links.{Links, top, dangling, frame, length-Links}
use kryhtajs.Env.{Env, EnvArena, get_local, lookup_from, lookup_name, rounds}

-- The frames from an id outward.
abbrev parent_of : Env → Option EnvId
parent_of env = env.parent

abbrev pub Chain : EnvArena → Option EnvId → List EnvId → Type 0
Chain envs = Links parent_of envs

abbrev pub or_else : Option JsValue → Option JsValue → Option JsValue
or_else none d = d
or_else (some v) d = some v

abbrev pub local_at : Option Env → StrId → Option JsValue
local_at none name = none
local_at (some env) name = get_local env name

-- The value of the first frame that has the name.
unfoldable pub innermost : EnvArena → StrId → List EnvId → Option JsValue
innermost envs name [] = none
innermost envs name (id ∷ ids) = or_else (local_at (get envs id) name) (innermost envs name ids)

lookup_from-Chain :
    (envs : EnvArena) (name : StrId) {current : Option EnvId} {ids : List EnvId} (fuel : ℕ)
    → Chain envs current ids
    → length ids < fuel
    → lookup_from fuel envs name current ≡ innermost envs name ids
unfolding lookup_from innermost
lookup_from-Chain envs name zero c h = absurd (omega arith)
lookup_from-Chain envs name (suc fuel) top h = refl
lookup_from-Chain envs name (suc fuel) (dangling e) h = ground arith
lookup_from-Chain envs name (suc fuel) (frame env e rest) h =
    ground (arith, e, lookup_from-Chain envs name fuel rest (omega arith))

-- A chain of parents that ends has fewer frames than the rounds that lookup and assign are given,
-- so neither walk is cut short.
pub Chain-fits :
    (envs : EnvArena) {current : Option EnvId} {ids : List EnvId}
    → Chain envs current ids
    → length ids < rounds envs
Chain-fits envs c = omega (arith, length-Links parent_of envs c)

-- From a frame whose chain of parents ends, lookup gives the value of the innermost frame of the
-- chain that has the name, or none.
pub lookup_name-Chain :
    (envs : EnvArena) (id : EnvId) (name : StrId) {ids : List EnvId}
    → Chain envs (some id) ids
    → lookup_name envs id name ≡ innermost envs name ids
unfolding lookup_name
lookup_name-Chain envs id name c = lookup_from-Chain envs name (rounds envs) c (Chain-fits envs c)
