-- ===== src/Arena/Sweep.antt =====
-- src/arena.rs: after `sweep` exactly the marked slots are live, and no slot is marked.
use kryhtajs.Prelude.{
  ℕ, zero, suc, ◌+◌, ◌%◌, ◌^◌, ◌<◌, ◌≤◌, ◌≡◌, refl, ◌↔◌, Bool, true, false, not, some, List, [],
  ◌∷◌, arith, length, get_elem?, All, get_elem?-lt, get_elem?-some, Option-cases, inl, inr,
}
use kryhtajs.Arena.{
  Arena, is_marked, unmarked_from, cleared, sweep, elem, NoRepeat, IsWellFormed, IsLive,
}

length-cleared : (ms : List Bool) → length (cleared ms) ≡ length ms
unfolding cleared
length-cleared [] = refl
length-cleared (m ∷ ms) = omega (arith, length-cleared ms)

get_elem?-cleared : (ms : List Bool) (i : ℕ) → i < length ms → get_elem? (cleared ms) i ≡ some false
unfolding cleared
get_elem?-cleared [] i h = elim h [ ]
get_elem?-cleared (m ∷ ms) zero h = refl
get_elem?-cleared (m ∷ ms) (suc i) h = get_elem?-cleared ms i (omega arith)

-- No index below the start of the scan is pushed.
elem-unmarked_from_lt :
    (k : ℕ) (ms : List Bool) (i : ℕ)
    → i < k
    → k + length ms ≤ 2 ^ 32
    → elem i (unmarked_from k ms) ≡ false
unfolding unmarked_from
elem-unmarked_from_lt k [] i h fits = refl
elem-unmarked_from_lt k (true ∷ ms) i h fits =
    elem-unmarked_from_lt (suc k) ms i (omega arith) (omega arith)
elem-unmarked_from_lt k (false ∷ ms) i h fits =
    ground (arith, elem-unmarked_from_lt (suc k) ms i (omega arith) (omega arith))

elem-unmarked_from :
    (k : ℕ) (ms : List Bool) (i j : ℕ) (b : Bool)
    → i ≡ k + j
    → k + length ms ≤ 2 ^ 32
    → get_elem? ms j ≡ some b
    → elem i (unmarked_from k ms) ≡ not b
unfolding unmarked_from
elem-unmarked_from k [] i j b e fits h = cc
elem-unmarked_from k (true ∷ ms) i zero b e fits h =
    ground (arith, elem-unmarked_from_lt (suc k) ms i (omega arith) (omega arith))
elem-unmarked_from k (true ∷ ms) i (suc j) b e fits h =
    elem-unmarked_from (suc k) ms i j b (omega arith) (omega arith) h
elem-unmarked_from k (false ∷ ms) i zero b e fits h = ground arith
elem-unmarked_from k (false ∷ ms) i (suc j) b e fits h =
    ground (arith, elem-unmarked_from (suc k) ms i j b (omega arith) (omega arith) h)

All-unmarked_from :
    (k n : ℕ) (ms : List Bool)
    → k + length ms ≤ n
    → n ≤ 2 ^ 32
    → All (λ i. i < n) (unmarked_from k ms)
unfolding unmarked_from
All-unmarked_from k n [] h fits = tt
All-unmarked_from k n (true ∷ ms) h fits = All-unmarked_from (suc k) n ms (omega arith) fits
All-unmarked_from k n (false ∷ ms) h fits =
    (omega arith, All-unmarked_from (suc k) n ms (omega arith) fits)

NoRepeat-unmarked_from :
    (k : ℕ) (ms : List Bool) → k + length ms ≤ 2 ^ 32 → NoRepeat (unmarked_from k ms)
unfolding unmarked_from
NoRepeat-unmarked_from k [] fits = tt
NoRepeat-unmarked_from k (true ∷ ms) fits = NoRepeat-unmarked_from (suc k) ms (omega arith)
NoRepeat-unmarked_from k (false ∷ ms) fits = (
  ground (arith, elem-unmarked_from_lt (suc k) ms (k % 2 ^ 32) (omega arith) (omega arith)),
  NoRepeat-unmarked_from (suc k) ms (omega arith),
)

module _ {ℓ} {A : Type ℓ} (a : Arena A) (w : IsWellFormed a) where
  -- Sweep keeps an arena well formed.
  pub sweep-IsWellFormed : IsWellFormed (sweep a)
  unfolding sweep
  sweep-IsWellFormed = record {
    marked = omega (arith, length-cleared a.marks, w.marked);
    in_range =
        All-unmarked_from 0 (length a.slots) a.marks (omega (arith, w.marked))
          (omega (arith, w.small));
    distinct = NoRepeat-unmarked_from 0 a.marks (omega (arith, w.marked, w.small));
    small = w.small;
  }

  free : (i : ℕ) (b : Bool) → get_elem? a.marks i ≡ some b → elem i (sweep a).free_list ≡ not b
  unfolding sweep
  free i b = elem-unmarked_from 0 a.marks i i b (omega arith) (omega (arith, w.marked, w.small))

  marked_in_range : (i : ℕ) → is_marked a i ≡ true → i < length a.slots
  unfolding is_marked
  marked_in_range i m = elim (Option-cases (get_elem? a.marks i)) [
    | inl e ↦ cc (rw (e, is_marked) at m)
    | inr (b, e) ↦ omega (arith, get_elem?-lt a.marks i b e, w.marked)
  ]

  -- In a well-formed arena, a slot is live after sweep exactly when it was marked before, and no
  -- slot is marked after it.
  pub sweep-IsLive :
      (i : ℕ) → (IsLive (sweep a) i ↔ (is_marked a i ≡ true)) × (is_marked (sweep a) i ≡ false)
  unfolding sweep is_marked
  sweep-IsLive i = (
    (
      λ live.
          let (b, e) = get_elem?-some a.marks i (omega (arith, live.exists, w.marked)) in
          ground (arith, e, free i b e, live.taken),
      λ m. record {
        exists = marked_in_range i m;
        taken = elim (Option-cases (get_elem? a.marks i)) [
          | inl e ↦ cc (rw (e, is_marked) at m)
          | inr (b, e) ↦ ground (arith, e, free i b e)
        ];
      },
    ),
    elim (Option-cases (get_elem? (cleared a.marks) i)) [
      | inl e ↦ rw (e, is_marked)
      | inr (b, e) ↦ ground (
        arith,
        e,
        get_elem?-cleared a.marks i,
        get_elem?-lt (cleared a.marks) i b e,
        length-cleared a.marks,
      )
    ],
  )
