-- ===== src/Runtime/Quiet.antt =====
-- src/runtime.rs: the operations on fibers and joins move the meters by refunds only.
use kryhtajs.Prelude.{
  ◌<◌, ◌≡◌, refl, Bool, true, false, Option, none, some, List, [], ◌∷◌, length, Option-cases,
  Bool-cases, inl, inr, arith, Text, JsError, lookup, nat_key, if◌then◌else◌,
}
use kryhtajs.Value.{JsValue}
use kryhtajs.Fiber.{Fiber, FiberId}
use kryhtajs.Fuel.Conservation.{refund}
use kryhtajs.Gc.Collect.{collect, should_collect}
use kryhtajs.Runtime.State.{Runtime, and_then}
use kryhtajs.Runtime.Fibers.{
  find_fiber, update_fiber, with_fiber, save_current_fiber_state, unblock_fiber, remove_fiber,
  shares, position,
}
use kryhtajs.Runtime.Joins.{
  join_result, error_value, remove_key, deliver, settle, complete_current_fiber, fail_current_fiber,
}
use kryhtajs.Runtime.Effects.{collect_now, collect_if_due}
use kryhtajs.Runtime.Moves.{
  Moves, MovesIf, stays, itself, and_then-MovesIn, then-MovesIn, first_then, IsMetered-update,
  All-swap_remove, length-refund,
}

-- A change that touches neither the meters nor the fibers.
pub same_fibers :
    (rt rt' : Runtime)
    → rt'.meters ≡ rt.meters
    → rt'.quantum ≡ rt.quantum
    → rt'.steps_total ≡ rt.steps_total
    → rt'.fibers ≡ rt.fibers
    → Moves rt rt'
same_fibers rt rt' m q s f = stays rt rt' m q s (λ w. rw f w)

pub with_fiber-Moves :
    (g : Fiber → Fiber) (id : FiberId) (rt : Runtime)
    → ((f : Fiber) → (g f).meter ≡ f.meter)
    → MovesIf rt (with_fiber g id rt)
unfolding with_fiber
with_fiber-Moves g id rt same = and_then-MovesIn itself rt (find_fiber id rt.fibers) _ λ f.
    stays rt (record rt { fibers = update_fiber g id rt.fibers }) refl refl refl
      (IsMetered-update rt.meters g id rt.fibers same)

pub save-Moves : (rt : Runtime) → MovesIf rt (save_current_fiber_state rt)
unfolding save_current_fiber_state
save-Moves rt = and_then-MovesIn itself rt rt.current _ λ id. with_fiber-Moves _ id rt (λ f. refl)

unblock-Moves : (id : FiberId) (v : JsValue) (rt : Runtime) → MovesIf rt (unblock_fiber id v rt)
unfolding unblock_fiber
unblock-Moves id v rt =
    then-MovesIn itself itself rt _ _ (with_fiber-Moves _ id rt (λ f. refl))
      λ rt'. same_fibers rt' _ refl refl refl refl

pub remove-Moves : (id : FiberId) (rt : Runtime) → Moves rt (remove_fiber id rt)
unfolding remove_fiber
remove-Moves id rt = elim (Option-cases (find_fiber id rt.fibers)) [
  | inl e ↦ rw (remove_fiber, e) (same_fibers rt rt refl refl refl refl)
  | inr (f, e) ↦ elim (Bool-cases (shares id f.meter rt.fibers)) [
    | inl shared ↦
        rw (remove_fiber, e, shared)
          (stays rt _ refl refl refl
            (All-swap_remove (λ f. f.meter < length rt.meters) rt.fibers (position id rt.fibers)))
    | inr last ↦
        rw (remove_fiber, e, last)
          (λ w. record {
            metered = rw (length-refund rt.meters f.meter) (
                All-swap_remove (λ f. f.meter < length rt.meters) rt.fibers (position id rt.fibers)
                  w);
            history = λ end n h. refund f.meter h;
            same_quantum = refl;
            same_steps = refl;
            no_shrink = omega (arith, length-refund rt.meters f.meter);
          })
  ]
]

pub join_result-Moves :
    (key : Text) (v : JsValue) (rt : Runtime) → Moves rt (join_result key v rt).0
unfolding join_result
join_result-Moves key v rt = same_fibers rt _ refl refl refl refl

pub error_value-Moves : (e : JsError) (rt : Runtime) → Moves rt (error_value e rt).0
unfolding error_value
error_value-Moves e rt = same_fibers rt _ refl refl refl refl

deliver-Moves :
    (key : Text) (v : JsValue) (ids : List FiberId) (rt : Runtime)
    → MovesIf rt (deliver key v ids rt)
unfolding deliver
deliver-Moves key v [] rt = same_fibers rt rt refl refl refl refl
deliver-Moves key v (id ∷ ids) rt =
    first_then itself rt (join_result key v rt).0 _ (join_result-Moves key v rt) (
      then-MovesIn itself itself (join_result key v rt).0 _ (deliver key v ids)
        (unblock-Moves id (join_result key v rt).1 (join_result key v rt).0)
        (λ rt'. deliver-Moves key v ids rt'))

settle-Moves :
    (key : Text) (v : JsValue) (id : FiberId) (rt : Runtime) → MovesIf rt (settle key v id rt)
unfolding settle
settle-Moves key v id rt = settle_at (lookup id rt.join_waiters)
  where
    settle_at :
        (o : Option (List FiberId))
        → MovesIf rt (elim o [
          | none ↦ some rt
          | some waiters ↦
              and_then
                (deliver key v waiters (record rt { join_waiters = remove_key id rt.join_waiters }))
                λ rt'. some (remove_fiber id rt')
        ])
    settle_at none = same_fibers rt rt refl refl refl refl
    settle_at (some waiters) =
        first_then itself rt (record rt { join_waiters = remove_key id rt.join_waiters }) _
          (same_fibers rt _ refl refl refl refl)
          (then-MovesIn itself itself _ _ _ (deliver-Moves key v waiters _)
            λ rt'. remove-Moves id rt')

pub complete-Moves : (v : JsValue) (rt : Runtime) → MovesIf rt (complete_current_fiber v rt)
unfolding complete_current_fiber
complete-Moves v rt = and_then-MovesIn itself rt rt.current _ λ id.
    then-MovesIn itself itself rt _ _ (with_fiber-Moves _ id rt (λ f. refl))
      (λ rt'. settle-Moves _ v id rt')

pub fail-Moves : (e : JsError) (rt : Runtime) → MovesIf rt (fail_current_fiber e rt)
unfolding fail_current_fiber
fail-Moves e rt = and_then-MovesIn itself rt rt.current _ λ id.
    first_then itself rt (error_value e rt).0 _ (error_value-Moves e rt) (
      then-MovesIn itself itself (error_value e rt).0 _ _
        (with_fiber-Moves _ id (error_value e rt).0 (λ f. refl))
        (λ rt'. settle-Moves _ (error_value e rt).1 id rt'))

pub collect_now-Moves : (rt : Runtime) → MovesIf rt (collect_now rt)
unfolding collect_now
collect_now-Moves rt =
    and_then-MovesIn itself rt (collect rt.gc rt.interpreter rt.fibers rt.effects) _
      λ r. same_fibers rt _ refl refl refl refl

pub collect_if_due-Moves : (rt : Runtime) → MovesIf rt (collect_if_due rt)
unfolding collect_if_due
collect_if_due-Moves rt =
    and_then-MovesIn itself rt (should_collect rt.gc rt.interpreter) _ due_or_not
  where
    due_or_not : (due : Bool) → MovesIf rt (if due then collect_now rt else some rt)
    due_or_not true = collect_now-Moves rt
    due_or_not false = same_fibers rt rt refl refl refl refl
