-- ===== src/Gc/Invariant.antt =====
-- src/gc.rs: what the loop of `mark` keeps: what is marked is reached, and what is named by the items
-- at the start or held by a marked slot is marked, missing or on the work list.
use kryhtajs.Prelude.{◌≡◌, ◌⊎◌, refl, ◌∙◌, subst, true, none, some, List, [], ◌∷◌, length, inl, inr}
use kryhtajs.Cekh.State.{Cekh}
use kryhtajs.Gc.Items.{WorkItem}
use kryhtajs.Gc.Trace.{push_all}
use kryhtajs.Gc.Reach.{Kind, Slot, targets, marks_of, content, marked, strip, Reach, held, HasMarks}
use mathlib.Core.List.{Memᴰ}
use mathlib.Core.List.Memᴰ

module _ (m₀ : Cekh) where
  -- A slot that is marked, missing, or named by an item that is still to come.
  abbrev pub Pending : Cekh → List WorkItem → Slot → Type 0
  Pending m work s =
      (marked m s ≡ true)
      ⊎ ((content m₀ s ≡ none) ⊎ ((i : WorkItem) × Memᴰ i work × Memᴰ s (targets i)))

  pub record Marking (items : List WorkItem) (m : Cekh) (work : List WorkItem) : Type 0 where
    pub same_content : (s : Slot) → content m s ≡ content m₀ s
    pub have_marks : HasMarks m
    pub same_rest : strip m ≡ strip m₀
    pub same_lengths : (kind : Kind) → length (marks_of kind m) ≡ length (marks_of kind m₀)
    pub named_pending :
        (i : WorkItem) (s : Slot) → Memᴰ i items → Memᴰ s (targets i) → Pending m work s
    pub held_pending :
        (s : Slot) (inside : List WorkItem) (i : WorkItem) (t : Slot)
        → marked m s ≡ true
        → content m₀ s ≡ some inside
        → Memᴰ i inside
        → Memᴰ t (targets i)
        → Pending m work t
    pub work_reached :
        (i : WorkItem) (s : Slot) → Memᴰ i work → Memᴰ s (targets i) → Reach m₀ items s
    pub marks_reached : (s : Slot) → marked m s ≡ true → Reach m₀ items s

  -- What a trace of the item does that pushes the items.
  pub record Advance (i : WorkItem) (m m' : Cekh) (pushed : List WorkItem) : Type 0 where
    pub keeps_content : (s : Slot) → content m' s ≡ content m s
    pub keeps_marks : HasMarks m'
    pub keeps_rest : strip m' ≡ strip m
    pub keeps_lengths : (kind : Kind) → length (marks_of kind m') ≡ length (marks_of kind m)
    pub grows : (s : Slot) → marked m s ≡ true → marked m' s ≡ true
    pub fresh :
        (s : Slot)
        → marked m' s ≡ true
        → (marked m s ≡ true) ⊎ (Memᴰ s (targets i) × (content m₀ s ≡ some pushed))
    pub covered : (s : Slot) → Memᴰ s (targets i) → Pending m' pushed s
    pub traced_from :
        (j : WorkItem) (s : Slot)
        → Memᴰ j pushed
        → Memᴰ s (targets j)
        → Memᴰ s (targets i) ⊎ ((t : Slot) × Memᴰ t (targets i) × (content m₀ t ≡ some pushed))

pub push_all-cases :
    (j : WorkItem) (items work : List WorkItem)
    → Memᴰ j (push_all items work)
    → Memᴰ j items ⊎ Memᴰ j work
unfolding push_all
push_all-cases j [] work h = inr h
push_all-cases j (i ∷ items) work h = elim (push_all-cases j items (i ∷ work) h) [
  | inl in_items ↦ inl (Memᴰ.tail in_items)
  | inr in_work ↦ elim (Memᴰ.cases_cons in_work) [ inl e ↦ inl (Memᴰ.head e) | inr old ↦ inr old ]
]

push_all-old :
    (j : WorkItem) (items work : List WorkItem) → Memᴰ j work → Memᴰ j (push_all items work)
unfolding push_all
push_all-old j [] work h = h
push_all-old j (i ∷ items) work h = push_all-old j items (i ∷ work) (Memᴰ.tail h)

pub push_all-new :
    (j : WorkItem) (items work : List WorkItem) → Memᴰ j items → Memᴰ j (push_all items work)
unfolding push_all
push_all-new j [] work h = absurd (Memᴰ.not-nil h)
push_all-new j (i ∷ items) work h = elim (Memᴰ.cases_cons h) [
  | inl e ↦ push_all-old j items (i ∷ work) (Memᴰ.head e)
  | inr t ↦ push_all-new j items (i ∷ work) t
]

module _ (m₀ : Cekh) (items : List WorkItem) (i : WorkItem) (m m' : Cekh)
    (pushed work : List WorkItem) (inv : Marking m₀ items m (i ∷ work))
    (a : Advance m₀ i m m' pushed) where
  after : List WorkItem
  after = push_all pushed work

  still : (s : Slot) → Pending m₀ m' pushed s → Pending m₀ m' after s
  unfolding after
  still s (inl marks) = inl marks
  still s (inr (inl gone)) = inr (inl gone)
  still s (inr (inr (j, in_pushed, names))) =
      inr (inr (j, push_all-new j pushed work in_pushed, names))

  carried : (s : Slot) → Pending m₀ m (i ∷ work) s → Pending m₀ m' after s
  unfolding after
  carried s (inl marks) = inl (a.grows s marks)
  carried s (inr (inl gone)) = inr (inl gone)
  carried s (inr (inr (j, in_work, names))) = elim (Memᴰ.cases_cons in_work) [
    | inl e ↦ still s (a.covered s (subst (λ k. Memᴰ s (targets k)) e names))
    | inr old ↦ inr (inr (j, push_all-old j pushed work old, names))
  ]

  item_reached : (s : Slot) → Memᴰ s (targets i) → Reach m₀ items s
  item_reached s names = inv.work_reached i s (Memᴰ.head refl) names

  pushed_reached : (j : WorkItem) (s : Slot) → Memᴰ j pushed → Memᴰ s (targets j) → Reach m₀ items s
  pushed_reached j s in_pushed names = elim (a.traced_from j s in_pushed names) [
    | inl of_item ↦ item_reached s of_item
    | inr (t, of_item, e) ↦ held t pushed j s (item_reached t of_item) e in_pushed names
  ]

  held_on :
      (s : Slot) (inside : List WorkItem) (j : WorkItem) (t : Slot)
      → marked m' s ≡ true
      → content m₀ s ≡ some inside
      → Memᴰ j inside
      → Memᴰ t (targets j)
      → Pending m₀ m' after t
  unfolding after
  held_on s inside j t marks e in_inside names = elim (a.fresh s marks) [
    | inl old ↦ carried t (inv.held_pending s inside j t old e in_inside names)
    | inr (of_item, e') ↦
        let same : inside ≡ pushed = cc in
        inr (inr (j, push_all-new j pushed work (subst (λ l. Memᴰ j l) same in_inside), names))
  ]

  pub advance : Marking m₀ items m' (push_all pushed work)
  unfolding after
  advance = record {
    same_content = λ s. a.keeps_content s ∙ inv.same_content s;
    have_marks = a.keeps_marks;
    same_rest = a.keeps_rest ∙ inv.same_rest;
    same_lengths = λ kind. a.keeps_lengths kind ∙ inv.same_lengths kind;
    named_pending = λ j s in_items names. carried s (inv.named_pending j s in_items names);
    held_pending = held_on;
    work_reached = λ j s in_after names. elim (push_all-cases j pushed work in_after) [
      | inl in_pushed ↦ pushed_reached j s in_pushed names
      | inr old ↦ inv.work_reached j s (Memᴰ.tail old) names
    ];
    marks_reached = λ s marks. elim (a.fresh s marks) [
      | inl old ↦ inv.marks_reached s old
      | inr (of_item, e) ↦ item_reached s of_item
    ];
  }
