-- ===== src/Runtime/Fibers.antt =====
-- src/runtime.rs: single fibers. `none` stands for a panic of the source.
use kryhtajs.Prelude.{
  ℕ, ◌+◌, ◌%◌, ◌^◌, Bool, true, false, not, ◌&&◌, ◌||◌, Option, none, some, List, [], ◌∷◌, ◌++◌,
  ◌==◌, if◌then◌else◌, set,
}
use kryhtajs.Value.{JsValue, EnvId, ContId}
use kryhtajs.Arena.{pop}
use kryhtajs.Fiber.{Fiber, FiberId, FiberStatus}
use kryhtajs.Fuel.{refund_into_parent}
use kryhtajs.Cekh.State.{Cekh, Control}
use kryhtajs.Runtime.State.{Runtime, and_then}

-- `iter().find(|f| f.id == id)`
abbrev pub find_fiber : FiberId → List Fiber → Option Fiber
find_fiber id [] = none
find_fiber id (f ∷ fs) = if f.id == id then some f else find_fiber id fs

-- A write to the fiber that `iter_mut().find(..)` gives.
abbrev pub update_fiber : (Fiber → Fiber) → FiberId → List Fiber → List Fiber
update_fiber g id [] = []
update_fiber g id (f ∷ fs) = if f.id == id then g f ∷ fs else f ∷ update_fiber g id fs

unfoldable pub with_fiber : (Fiber → Fiber) → FiberId → Runtime → Option Runtime
with_fiber g id rt =
    and_then (find_fiber id rt.fibers)
      λ f. some (record rt { fibers = update_fiber g id rt.fibers })

abbrev pub is_ready : FiberStatus → Bool
is_ready FiberStatus.ready = true
is_ready _ = false

abbrev pub set_status : FiberStatus → Fiber → Fiber
set_status status f = record f { status = status }

abbrev pub select_found : Fiber → FiberId → List FiberId → Runtime → Option Runtime
select_found f id rest rt =
    if is_ready f.status
    then some (record rt {
      current = some id;
      ready_queue = rest;
      interpreter = record rt.interpreter { control = f.control; cont = f.cont; env = f.env };
      fibers = update_fiber (set_status FiberStatus.running) id rt.fibers;
    })
    else none

abbrev pub select_from : List FiberId → Runtime → Option (Runtime × Bool)
select_from [] rt = some (rt, false)
select_from (id ∷ rest) rt =
    and_then (find_fiber id rt.fibers)
      λ f. and_then (select_found f id rest rt) λ rt'. some (rt', true)

-- Whether a fiber was selected; `current` says which.
unfoldable pub select_next_fiber : Runtime → Option (Runtime × Bool)
select_next_fiber rt = select_from rt.ready_queue rt

unfoldable pub current_fiber_meter : Runtime → Option ℕ
current_fiber_meter rt =
    and_then rt.current λ id. and_then (find_fiber id rt.fibers) λ f. some f.meter

-- The state of the machine in a fiber that is not running.
abbrev saved : Cekh → Fiber → Fiber
saved m f = record f { control = m.control; cont = m.cont; env = m.env; status = FiberStatus.ready }

unfoldable pub save_current_fiber_state : Runtime → Option Runtime
unfolding with_fiber
save_current_fiber_state rt = and_then rt.current λ id. with_fiber (saved rt.interpreter) id rt

unfoldable pub unblock_fiber : FiberId → JsValue → Runtime → Option Runtime
unfolding with_fiber
unblock_fiber id v rt =
    and_then
      (with_fiber (λ f. record f { control = Control.value v; status = FiberStatus.ready }) id rt)
      λ rt'. some (record rt' { ready_queue = rt'.ready_queue ++ id ∷ [] })

-- `iter().any(..)` of the fibers that share the meter.
abbrev pub shares : FiberId → ℕ → List Fiber → Bool
shares id meter [] = false
shares id meter (f ∷ fs) = (not (f.id == id) && f.meter == meter) || shares id meter fs

abbrev pub position : FiberId → List Fiber → ℕ
position id [] = 0
position id (f ∷ fs) = let rest = position id fs in if f.id == id then 0 else rest + 1

-- The last element takes the place of the one that is removed.
unfoldable pub swap_remove {ℓ} : {A : Type ℓ} → List A → ℕ → List A
swap_remove xs i = elim (pop xs) [ none ↦ xs | some (last, rest) ↦ set rest i last ]

abbrev remove_found : Option Fiber → FiberId → Runtime → Runtime
remove_found none id rt = rt
remove_found (some f) id rt = record rt {
  meters = if shares id f.meter rt.fibers then rt.meters else refund_into_parent rt.meters f.meter;
  fibers = swap_remove rt.fibers (position id rt.fibers);
}

unfoldable pub remove_fiber : FiberId → Runtime → Runtime
unfolding swap_remove refund_into_parent
remove_fiber id rt = remove_found (find_fiber id rt.fibers) id rt

unfoldable pub spawn_fiber : ContId → EnvId → Control → ℕ → Runtime → Runtime × FiberId
spawn_fiber cont env control meter rt =
    let id = rt.next_fiber_id in
    let f : Fiber = record {
      id = id;
      control = control;
      cont = cont;
      env = env;
      status = FiberStatus.ready;
      meter = meter;
    } in
    (
      record rt {
        next_fiber_id = (id + 1) % 2 ^ 32;
        fibers = rt.fibers ++ f ∷ [];
        ready_queue = rt.ready_queue ++ id ∷ [];
      },
      id,
    )
