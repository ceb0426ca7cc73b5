-- ===== src/Gc/Advance.antt =====
-- src/gc.rs: each trace advances the marking.
use kryhtajs.Prelude.{
  ℕ, ◌<◌, ◌≡◌, ◌⊎◌, refl, sym, ap, ◌∙◌, subst, Bool, true, none, some, List, [], ◌∷◌, length, set,
  if◌then◌else◌, Option-cases, Bool-cases, inl, inr, arith, ◌==◌, length-set, get_elem?-set, ==_iff,
}
use kryhtajs.Value.{JsValue}
use kryhtajs.Cekh.State.{Cekh}
use kryhtajs.Gc.Items.{WorkItem}
use kryhtajs.Gc.Trace.{trace}
use kryhtajs.Gc.Reach.{
  Kind, Slot, targets, marks_of, content, with_marks, marked, read_mark, HasMarks, strip,
  strip-with_marks, same_kind, marks_of-with_marks, content-with_marks, same_kind-eq,
  same_kind_refl,
}
use kryhtajs.Gc.Visit.{nothing, renamed, one_slot, trace-Visits, visit, missing}
use kryhtajs.Gc.Invariant.{Advance}
use mathlib.Core.List.{Memᴰ}
use mathlib.Core.List.Memᴰ

read_mark-set :
    (marks : List Bool) (id j : ℕ)
    → id < length marks
    → read_mark (set marks id true) j ≡ (if j == id then true else read_mark marks j)
read_mark-set marks id j fits = ground (arith, get_elem?-set marks id j true fits)

-- A mark of a slot that has one is the only change.
mark_slot :
    (m : Cekh) (kind : Kind) (id : ℕ) (k : Kind) (j : ℕ)
    → id < length (marks_of kind m)
    → marked (with_marks kind (set (marks_of kind m) id true) m) (k, j)
      ≡ (if same_kind kind k then (if j == id then true else marked m (k, j)) else marked m (k, j))
mark_slot m kind id k j fits =
    let law = marks_of-with_marks kind k (set (marks_of kind m) id true) m in
    elim (Bool-cases (same_kind kind k)) [
      | inl same ↦ rw same (
          ap (λ marks. read_mark marks j) (rw same at law)
          ∙ (read_mark-set (marks_of kind m) id j fits
              ∙ ap (λ q. if j == id then true else marked m (q, j)) (same_kind-eq kind k same)))
      | inr other ↦ rw other (ap (λ marks. read_mark marks j) (rw other at law))
    ]

module _ (m₀ m : Cekh) (kind : Kind) (id : ℕ) (inside : List WorkItem)
    (same : (s : Slot) → content m s ≡ content m₀ s) (have : HasMarks m)
    (e : content m (kind, id) ≡ some inside) where
  unfoldable pub visited : Cekh
  visited = with_marks kind (set (marks_of kind m) id true) m

  fits : id < length (marks_of kind m)
  fits = have.has_mark kind id inside e

  visited-mark :
      (k : Kind) (j : ℕ)
      → marked visited (k, j) ≡ (
          if same_kind kind k then (if j == id then true else marked m (k, j)) else marked m (k, j))
  unfolding visited
  visited-mark k j = mark_slot m kind id k j fits

  visited-grows : (s : Slot) → marked m s ≡ true → marked visited s ≡ true
  visited-grows (k, j) h = visited-mark k j ∙ ground (arith, h)

  visited-hit : marked visited (kind, id) ≡ true
  visited-hit = visited-mark kind id ∙ ground (arith, same_kind_refl kind)

  visited-fresh : (s : Slot) → marked visited s ≡ true → (marked m s ≡ true) ⊎ (s ≡ (kind, id))
  visited-fresh (k, j) h = elim (Bool-cases (same_kind kind k)) [
    | inl alike ↦ elim (Bool-cases (j == id)) [
      | inl here ↦ inr (
          ap (λ q. (q, j)) (sym (same_kind-eq kind k alike))
          ∙ ap (λ n. (kind, n)) ((==_iff j id).0 here))
      | inr away ↦ inl (let law = visited-mark k j in sym (rw (alike, away) at law) ∙ h)
    ]
    | inr other ↦ inl (let law = visited-mark k j in sym (rw other at law) ∙ h)
  ]

  visited-length : (k : Kind) → length (marks_of k visited) ≡ length (marks_of k m)
  unfolding visited
  visited-length k =
      let law = marks_of-with_marks kind k (set (marks_of kind m) id true) m in
      elim (Bool-cases (same_kind kind k)) [
        | inl alike ↦
            ap length (rw alike at law)
            ∙ (length-set (marks_of kind m) id true
                ∙ ap (λ q. length (marks_of q m)) (same_kind-eq kind k alike))
        | inr other ↦ ap length (rw other at law)
      ]

  visited-content : (s : Slot) → content visited s ≡ content m s
  unfolding visited
  visited-content s = content-with_marks kind (set (marks_of kind m) id true) m s

  visited-has : HasMarks visited
  visited-has = record {
    has_mark = λ k j inside' e'.
        let before = have.has_mark k j inside' (sym (visited-content (k, j)) ∙ e') in
        omega (arith, visited-length k, before);
  }

  -- The visit of a slot that is not marked.
  pub visited-Advance : (i : WorkItem) → targets i ≡ (kind, id) ∷ [] → Advance m₀ i m visited inside
  unfolding visited
  visited-Advance i names = record {
    keeps_content = visited-content;
    keeps_marks = visited-has;
    keeps_rest = strip-with_marks kind (set (marks_of kind m) id true) m;
    keeps_lengths = visited-length;
    grows = visited-grows;
    fresh = λ s h. elim (visited-fresh s h) [
      | inl old ↦ inl old
      | inr here ↦ inr (
        subst (λ ts. Memᴰ s ts) (sym names) (Memᴰ.head here),
        ap (content m₀) here ∙ (sym (same (kind, id)) ∙ e),
      )
    ];
    covered = λ s h. inl (
        ap (marked visited) (Memᴰ.eq_of_singleton (subst (λ ts. Memᴰ s ts) names h)) ∙ visited-hit);
    traced_from = λ j s in_inside h. inr (
      (kind, id),
      subst (λ ts. Memᴰ (kind, id) ts) (sym names) (Memᴰ.head refl),
      sym (same (kind, id)) ∙ e,
    );
  }

missing-some :
    (kind : Kind) (m : Cekh) {m' : Cekh} {pushed : List WorkItem}
    → missing kind m ≡ some (m', pushed)
    → Path (Cekh × List WorkItem) (m, []) (m', pushed)
missing-some Kind.envs m h = cc
missing-some Kind.conts m h = cc
missing-some Kind.objects m h = cc
missing-some Kind.handlers m h = cc

module _ (m₀ m : Cekh) (same : (s : Slot) → content m s ≡ content m₀ s) (have : HasMarks m) where
  -- Nothing is marked and nothing pushed: the item's slots are marked or missing.
  unchanged-Advance :
      (i : WorkItem) (m' : Cekh)
      → ((kind : Kind) → marks_of kind m' ≡ marks_of kind m)
      → ((s : Slot) → content m' s ≡ content m s)
      → strip m' ≡ strip m
      → ((s : Slot) → Memᴰ s (targets i) → (marked m s ≡ true) ⊎ (content m₀ s ≡ none))
      → Advance m₀ i m m' []
  unchanged-Advance i m' marks contents rest known = record {
    keeps_content = contents;
    keeps_marks = record {
      has_mark = λ k j inside e.
          let before = have.has_mark k j inside (sym (contents (k, j)) ∙ e) in
          omega (arith, ap length (marks k), before);
    };
    keeps_rest = rest;
    keeps_lengths = λ k. ap length (marks k);
    grows = λ s h. same_mark s ∙ h;
    fresh = λ s h. inl (sym (same_mark s) ∙ h);
    covered =
        λ s h. elim (known s h) [ inl hit ↦ inl (same_mark s ∙ hit) | inr gone ↦ inr (inl gone) ];
    traced_from = λ j s none_pushed h. absurd (Memᴰ.not-nil none_pushed);
  }
    where
      same_mark : (s : Slot) → marked m' s ≡ marked m s
      same_mark (k, j) = ap (λ marks. read_mark marks j) (marks k)

  renamed-Advance :
      (k e : ℕ)
      → Advance m₀
          (WorkItem.value (JsValue.continuation k e))
          m
          m
          (WorkItem.env e ∷ WorkItem.cont k ∷ [])
  renamed-Advance k e = record {
    keeps_content = λ s. refl;
    keeps_marks = have;
    keeps_rest = refl;
    keeps_lengths = λ kind. refl;
    grows = λ s h. h;
    fresh = λ s h. inl h;
    covered = λ s h. elim (Memᴰ.cases_cons h) [
      | inl here ↦ inr (inr (WorkItem.env e, Memᴰ.head refl, Memᴰ.head here))
      | inr rest ↦ inr (inr (WorkItem.cont k, Memᴰ.tail (Memᴰ.head refl), rest))
    ];
    traced_from = λ j s in_pushed h. inl (elim (Memᴰ.cases_cons in_pushed) [
      | inl here ↦ Memᴰ.head (Memᴰ.eq_of_singleton (subst (λ q. Memᴰ s (targets q)) here h))
      | inr rest ↦ Memᴰ.tail (subst (λ q. Memᴰ s (targets q)) (Memᴰ.eq_of_singleton rest) h)
    ]);
  }

  missed-Advance :
      (i : WorkItem) (kind : Kind) (id : ℕ) (m' : Cekh) (pushed : List WorkItem)
      → targets i ≡ (kind, id) ∷ []
      → content m (kind, id) ≡ none
      → missing kind m ≡ some (m', pushed)
      → Advance m₀ i m m' pushed
  missed-Advance i kind id m' pushed names gone h =
      let same_end : Path (Cekh × List WorkItem) (m, []) (m', pushed) = missing-some kind m h in
      subst (λ r. Advance m₀ i m r.0 r.1) same_end
        (unchanged-Advance i m (λ k. refl) (λ s. refl) refl
          (λ s is. inr (
            ap (content m₀) (Memᴰ.eq_of_singleton (subst (λ ts. Memᴰ s ts) names is))
            ∙ (sym (same (kind, id)) ∙ gone))))

  visit-Advance :
      (i : WorkItem) (kind : Kind) (id : ℕ) (m' : Cekh) (pushed : List WorkItem)
      → targets i ≡ (kind, id) ∷ []
      → visit (kind, id) m ≡ some (m', pushed)
      → Advance m₀ i m m' pushed
  unfolding visited
  visit-Advance i kind id m' pushed names h = elim (Bool-cases (marked m (kind, id))) [
    | inl hit ↦
        let end = rw hit at h in
        let same_end : Path (Cekh × List WorkItem) (m, []) (m', pushed) = cc in
        subst (λ r. Advance m₀ i m r.0 r.1) same_end
          (unchanged-Advance i m (λ k. refl) (λ s. refl) refl
            (λ s is.
              inl (ap (marked m) (Memᴰ.eq_of_singleton (subst (λ ts. Memᴰ s ts) names is)) ∙ hit)))
    | inr open_slot ↦ elim (Option-cases (content m (kind, id))) [
      | inl gone ↦ missed-Advance i kind id m' pushed names gone (rw (open_slot, gone) at h)
      | inr (inside, e) ↦
          let end = rw (open_slot, e) at h in
          let same_end : Path (Cekh × List WorkItem)
              (visited m₀ m kind id inside same have e, inside) (m', pushed) =
            cc in
          subst (λ r. Advance m₀ i m r.0 r.1) same_end
            (visited-Advance m₀ m kind id inside same have e i names)
    ]
  ]

  pub trace-Advance :
      (i : WorkItem) (m' : Cekh) (pushed : List WorkItem)
      → trace i m ≡ some (m', pushed)
      → Advance m₀ i m m' pushed
  trace-Advance i m' pushed h = elim (trace-Visits i m) [
    | nothing mm bare e marks contents rest ↦
        let same_end : Path (Cekh × List WorkItem) (mm, []) (m', pushed) = cc in
        subst (λ r. Advance m₀ i m r.0 r.1) same_end
          (unchanged-Advance i mm marks contents rest
            (λ s is. absurd (Memᴰ.not-nil (subst (λ ts. Memᴰ s ts) bare is))))
    | renamed k e names traced ↦
        let same_end : Path (Cekh × List WorkItem) (m, WorkItem.env e ∷ WorkItem.cont k ∷ [])
            (m', pushed) =
          cc in
        subst (λ r. Advance m₀ i m r.0 r.1) same_end
          (subst (λ q. Advance m₀ q m m (WorkItem.env e ∷ WorkItem.cont k ∷ [])) (sym names)
            (renamed-Advance k e))
    | one_slot (kind, id) names traced ↦ visit-Advance i kind id m' pushed names (sym traced ∙ h)
  ]
