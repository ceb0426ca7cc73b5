-- ===== src/Gc/Collect.antt =====
-- src/gc.rs: the collector: when it runs, and `collect`.
use kryhtajs.Prelude.{ℕ, suc, ◌+◌, ◌-◌, Bool, Option, none, some, List, [], ltb, if◌then◌else◌}
use kryhtajs.Value.{StrId}
use kryhtajs.Arena.{sweep}
use kryhtajs.Fiber.{Fiber, EffectKind}
use kryhtajs.Cekh.State.{Cekh}
use kryhtajs.Cekh.Run.{total_allocations}
use kryhtajs.Gc.Items.{WorkItem, roots}
use kryhtajs.Gc.Trace.{mark_loop, push_all, weights, machine_weight}

-- The counts of freed objects and strings are never written.
pub record GcStats : Type 0 where
  pub collections : ℕ
  pub objects_freed : ℕ
  pub strings_freed : ℕ

pub record Gc : Type 0 where
  pub stats : GcStats
  pub threshold : ℕ
  pub alloc_snapshot : ℕ

unfoldable pub new : Gc
new = record {
  stats = record { collections = 0; objects_freed = 0; strings_freed = 0 };
  threshold = 1000;
  alloc_snapshot = 0;
}

-- `none` where the subtraction overflows.
unfoldable pub should_collect : Gc → Cekh → Option Bool
unfolding total_allocations
should_collect gc m =
    let total = total_allocations m in
    if ltb total gc.alloc_snapshot
    then none
    else some (ltb gc.threshold (total - gc.alloc_snapshot))

unfoldable pub reprime_baseline : Gc → Cekh → Gc
unfolding total_allocations
reprime_baseline gc m = record gc { alloc_snapshot = total_allocations m }

unfoldable pub sweep_all : Cekh → Cekh
unfolding sweep
sweep_all m = record m {
  objects = sweep m.objects;
  envs = sweep m.envs;
  conts = sweep m.conts;
  handlers = sweep m.handlers;
}

-- Every push is an item of a slot that is marked then, a root, or one of two for a continuation.
unfoldable pub mark_from : Cekh → List WorkItem → Option Cekh
unfolding mark_loop machine_weight push_all
mark_from m items = mark_loop (suc (weights items + machine_weight m)) m (push_all items [])

abbrev pub swept : Option Cekh → Gc → Option (Gc × Cekh)
swept none gc = none
swept (some m) gc = some (
  record gc {
    alloc_snapshot = total_allocations (sweep_all m);
    stats = record gc.stats { collections = gc.stats.collections + 1 };
  },
  sweep_all m,
)

unfoldable pub collect : Gc → Cekh → List Fiber → List (StrId × EffectKind) → Option (Gc × Cekh)
unfolding mark_from roots sweep_all total_allocations
collect gc m fibers effects = swept (mark_from m (roots m fibers effects)) gc
