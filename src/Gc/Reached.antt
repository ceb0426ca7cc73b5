-- ===== src/Gc/Reached.antt =====
-- src/gc.rs: after a collection exactly the slots that are reached from the roots are in use.
use kryhtajs.Prelude.{
  ℕ, zero, suc, ◌+◌, ◌≡◌, ◌↔◌, refl, sym, ◌∙◌, subst, true, false, Option, none, some, List, [],
  ◌∷◌, inl, inr,
}
use kryhtajs.Value.{StrId}
use kryhtajs.Cekh.State.{Cekh}
use kryhtajs.Fiber.{Fiber, EffectKind}
use kryhtajs.Gc.Items.{WorkItem, roots}
use kryhtajs.Gc.Trace.{Traced, trace, push_all, mark_loop, then_mark, weights, machine_weight}
use kryhtajs.Gc.Collect.{Gc, collect, swept, mark_from, sweep_all}
use kryhtajs.Gc.Reach.{Slot, content, marked, Reach, named, held}
use kryhtajs.Gc.Invariant.{Pending, Marking, advance, push_all-cases, push_all-new}
use kryhtajs.Gc.Arenas.{
  AreWellFormed, Live, Exists, Unmarked, AreWellFormed-HasMarks, same_arenas-AreWellFormed,
  sweep_all-Live, content-sweep_all, Live-Exists,
}
use kryhtajs.Gc.Advance.{trace-Advance}
use mathlib.Core.List.Memᴰ

module _ (m₀ : Cekh) (items : List WorkItem) where
  then_mark-Marking :
      (i : WorkItem) (m : Cekh) (work : List WorkItem) (t : Traced)
      (continue : Cekh → List WorkItem → Option Cekh) (last : Cekh)
      → ((m : Cekh) (work : List WorkItem)
          → continue m work ≡ some last
          → Marking m₀ items m work
          → Marking m₀ items last [])
      → trace i m ≡ t
      → then_mark t work continue ≡ some last
      → Marking m₀ items m (i ∷ work)
      → Marking m₀ items last []
  then_mark-Marking i m work none continue last ih e h inv = cc
  then_mark-Marking i m work (some (m', pushed)) continue last ih e h inv =
      ih m' (push_all pushed work) h (
        advance m₀ items i m m' pushed work inv
          (trace-Advance m₀ m inv.same_content inv.have_marks i m' pushed e))

  mark_loop-Marking :
      (fuel : ℕ) (m : Cekh) (work : List WorkItem) (last : Cekh)
      → mark_loop fuel m work ≡ some last
      → Marking m₀ items m work
      → Marking m₀ items last []
  unfolding mark_loop
  mark_loop-Marking zero m work last h inv = cc
  mark_loop-Marking (suc fuel) m [] last h inv =
      let e : m ≡ last = cc in subst (λ q. Marking m₀ items q []) e inv
  mark_loop-Marking (suc fuel) m (i ∷ work) last h inv =
      then_mark-Marking i m work (trace i m) (mark_loop fuel) last
        (λ m' work' h' inv'. mark_loop-Marking fuel m' work' last h' inv') refl h inv

module _ (m : Cekh) (items : List WorkItem) where
  pub start : AreWellFormed m → Unmarked m → Marking m items m (push_all items [])
  start w clean = record {
    same_content = λ s. refl;
    have_marks = AreWellFormed-HasMarks m w;
    same_rest = refl;
    same_lengths = λ kind. refl;
    named_pending = λ i s in_items names. inr (inr (i, push_all-new i items [] in_items, names));
    held_pending = λ s inside i t marks. absurd (let no_mark = clean s in cc);
    work_reached = λ i s in_work names. elim (push_all-cases i items [] in_work) [
      | inl in_items ↦ named i s in_items names
      | inr none_left ↦ absurd (Memᴰ.not-nil none_left)
    ];
    marks_reached = λ s marks. absurd (let no_mark = clean s in cc);
  }

  mark_from-Marking :
      (last : Cekh)
      → AreWellFormed m
      → Unmarked m
      → mark_from m items ≡ some last
      → Marking m items last []
  unfolding mark_from
  mark_from-Marking last w clean h =
      mark_loop-Marking m items (suc (weights items + machine_weight m)) m (push_all items []) last
        h (start w clean)

  settled : (last : Cekh) (s : Slot) → Pending m last [] s → Exists m s → marked last s ≡ true
  settled last s (inl marks) there = marks
  settled last s (inr (inl gone)) (inside, e) = cc
  settled last s (inr (inr (i, none_left, names))) there = absurd (Memᴰ.not-nil none_left)

  Reach-marked :
      (last : Cekh)
      → Marking m items last []
      → {s : Slot} → Reach m items s
      → Exists m s
      → marked last s ≡ true
  Reach-marked last inv (named i s in_items names) there =
      settled last s (inv.named_pending i s in_items names) there
  Reach-marked last inv (held s inside i t r e in_inside names) there =
      settled last t
        (inv.held_pending s inside i t (Reach-marked last inv r (inside, e)) e in_inside names)
        there

  swept_exactly :
      (last : Cekh)
      → AreWellFormed m
      → Marking m items last []
      → (s : Slot)
      → (Live (sweep_all last) s ↔ (Reach m items s × Exists m s))
        × (content (sweep_all last) s ≡ content m s)
        × (marked (sweep_all last) s ≡ false)
  swept_exactly last w inv s =
      let w' = same_arenas-AreWellFormed m last inv.same_rest inv.same_lengths w in
      let (live, clean) = sweep_all-Live last w' s in
      let same = content-sweep_all last s ∙ inv.same_content s in
      (
        (
          λ l. (
            inv.marks_reached s (live.0 l),
            let (inside, e) = Live-Exists (sweep_all last) s l in (inside, sym same ∙ e),
          ),
          λ (r, there). live.1 (Reach-marked last inv r there),
        ),
        same,
        clean,
      )

swept-some :
    (o : Option Cekh) (gc gc' : Gc) (m' : Cekh)
    → swept o gc ≡ some (gc', m')
    → (last : Cekh) × (o ≡ some last) × (sweep_all last ≡ m')
swept-some none gc gc' m' h = cc
swept-some (some last) gc gc' m' h = (last, refl, cc)

-- When a collection of a machine with four well-formed arenas and no mark returns, a slot is live
-- after it exactly when it exists and is reached from the roots, every slot holds what it held, and
-- no slot is marked.
pub collect-Reach :
    (gc gc' : Gc) (m m' : Cekh) (fibers : List Fiber) (effects : List (StrId × EffectKind))
    (s : Slot)
    → AreWellFormed m
    → Unmarked m
    → collect gc m fibers effects ≡ some (gc', m')
    → (Live m' s ↔ (Reach m (roots m fibers effects) s × Exists m s))
      × (content m' s ≡ content m s)
      × (marked m' s ≡ false)
unfolding collect
collect-Reach gc gc' m m' fibers effects s w clean h =
    let items = roots m fibers effects in
    let (last, e, same) = swept-some (mark_from m items) gc gc' m' h in
    subst
      (λ q.
        (Live q s ↔ (Reach m items s × Exists m s))
        × (content q s ≡ content m s)
        × (marked q s ≡ false))
      same (swept_exactly m items last w (mark_from-Marking m items last w clean e) s)
