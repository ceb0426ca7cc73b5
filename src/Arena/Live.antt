-- ===== src/Arena/Live.antt =====
-- src/arena.rs: `alloc` hands out a slot that is not live, and changes no other.
use kryhtajs.Prelude.{
  ℕ, ◌+◌, ◌^◌, ◌<◌, ◌≤◌, ◌≡◌, refl, ap, ◌⊎◌, ◌↔◌, ◌≢◌, inl, inr, true, false, ◌||◌, none, some,
  List, [], ◌∷◌, ◌++◌, arith, length, All, ◌==◌, ==_iff, ==_refl, length-append, length-set,
  get_elem?-set, get_elem?-append_one, Option-cases, Bool-cases, if◌then◌else◌,
}
use kryhtajs.Arena.{Arena, pop, alloc, get, elem, NoRepeat, IsWellFormed, IsLive}

pop-cons-ne-none {ℓ} : {A : Type ℓ} (x : A) (xs : List A) → pop (x ∷ xs) ≢ none
pop-cons-ne-none x xs h = elim (Option-cases (pop xs)) [
  | inl e ↦ cc (rw e at h)
  | inr ((z, r), e) ↦ cc (rw e at h)
]

pop-eq-none {ℓ} : {A : Type ℓ} (xs : List A) → pop xs ≡ none → xs ≡ []
pop-eq-none [] h = refl
pop-eq-none (x ∷ xs) h = absurd (pop-cons-ne-none x xs h)

pub pop-eq-some {ℓ} :
    {A : Type ℓ} (xs : List A) {y : A} {rest : List A}
    → pop xs ≡ some (y, rest)
    → xs ≡ rest ++ y ∷ []
pop-eq-some [] h = cc
pop-eq-some (x ∷ xs) {y} {rest} h = elim (Option-cases (pop xs)) [
  | inl e ↦ let h' = rw e at h in ground (arith, pop-eq-none xs e)
  | inr ((z, r), e) ↦ let h' = rw e at h in ground (arith, pop-eq-some xs e)
]

elem-append : (i : ℕ) (xs ys : List ℕ) → elem i (xs ++ ys) ≡ (elem i xs || elem i ys)
elem-append i [] ys = refl
elem-append i (x ∷ xs) ys = ground (arith, elem-append i xs ys)

All-append {κ} : (P : ℕ → Type κ) (xs ys : List ℕ) → All P (xs ++ ys) → All P xs × All P ys
All-append P [] ys h = (tt, h)
All-append P (x ∷ xs) ys h = let t = All-append P xs ys h.1 in ((h.0, t.0), t.1)

NoRepeat-append :
    (xs : List ℕ) (y : ℕ) → NoRepeat (xs ++ y ∷ []) → NoRepeat xs × (elem y xs ≡ false)
NoRepeat-append [] y h = (tt, refl)
NoRepeat-append (x ∷ xs) y h =
    let t = NoRepeat-append xs y h.1 in
    (
      (ground (arith, elem-append x xs (y ∷ []), h.0), t.0),
      ground (arith, elem-append x xs (y ∷ []), h.0, t.1, ==_iff x y, ==_iff y x),
    )

All-mono : (m n : ℕ) (xs : List ℕ) → m ≤ n → All (λ i. i < m) xs → All (λ i. i < n) xs
All-mono m n [] le h = tt
All-mono m n (x ∷ xs) le h = (omega arith, All-mono m n xs le h.1)

-- A free index below every bound of the list is on it only if it is in range.
elem-lt : (n i : ℕ) (xs : List ℕ) → All (λ j. j < n) xs → elem i xs ≡ true → i < n
elem-lt n i [] h e = cc
elem-lt n i (x ∷ xs) h e = ground (arith, h.0, elem-lt n i xs h.1)

module _ {ℓ} {A : Type ℓ} (a : Arena A) (v : A) where
  -- Both ways to find a slot: the last index of the free list, or one past the slots.
  alloc-cases :
      IsWellFormed a
      → ((y : ℕ) × (rest : List ℕ) × (pop a.free_list ≡ some (y, rest))
          × (a.free_list ≡ rest ++ y ∷ [])
          × (y < length a.slots)
          × All (λ i. i < length a.slots) rest
          × NoRepeat rest
          × (elem y rest ≡ false))
        ⊎ ((pop a.free_list ≡ none) × (a.free_list ≡ []))
  alloc-cases w = elim (Option-cases (pop a.free_list)) [
    | inl e ↦ inr (e, pop-eq-none a.free_list e)
    | inr ((y, rest), e) ↦
        let split = pop-eq-some a.free_list e in
        let bound = All-append _ rest (y ∷ []) (rw split at w.in_range) in
        let apart = NoRepeat-append rest y (rw split at w.distinct) in
        inl (y, rest, e, split, bound.1.0, bound.0, apart.0, apart.1)
  ]

  -- With fewer than 2 ^ 32 - 1 slots, alloc keeps an arena well formed: one mark for each slot, and
  -- a free list of distinct slots.
  pub alloc-IsWellFormed : IsWellFormed a → length a.slots + 1 < 2 ^ 32 → IsWellFormed (alloc v a).0
  unfolding alloc
  alloc-IsWellFormed w room = elim (alloc-cases w) [
    | inl (y, rest, e, split, lt, bound, apart, out) ↦ rw e (record {
      marked = omega (arith, w.marked, length-set a.marks y false, length-set a.slots y v);
      in_range = rw length-set bound;
      distinct = apart;
      small = rw length-set w.small;
    })
    | inr (e, nil) ↦ rw e (record {
      marked =
          omega
            (arith, w.marked, length-append a.marks (false ∷ []), length-append a.slots (v ∷ []));
      in_range = rw nil tt;
      distinct = w.distinct;
      small = omega (arith, room, length-append a.slots (v ∷ []));
    })
  ]

  -- In a well-formed arena, the slot that alloc returns was not live.
  alloc_fresh : IsWellFormed a → ¬ IsLive a (alloc v a).1
  unfolding alloc
  alloc_fresh w live = elim (alloc-cases w) [
    | inl (y, rest, e, split, lt, bound, apart, out) ↦
        let live' = rw e at live in
        ground (arith, live'.taken, elem-append y rest (y ∷ []), ==_iff y y, ap (elem y) split)
    | inr (e, nil) ↦ let live' = rw e at live in omega (arith, live'.exists, w.small)
  ]

  -- In a well-formed arena, the live slots after alloc are exactly those that were live before and
  -- the slot that it returns.
  pub alloc-IsLive :
      (i : ℕ) → IsWellFormed a → IsLive (alloc v a).0 i ↔ (IsLive a i ⊎ (i ≡ (alloc v a).1))
  unfolding alloc
  alloc-IsLive i w = elim (alloc-cases w) [
    | inl (y, rest, e, split, lt, bound, apart, out) ↦ rw e (
      (λ live. elim (Bool-cases (i == y)) [
        | inl same ↦ inr ((==_iff i y).0 same)
        | inr other ↦ inl (record {
          exists = rw length-set at live.exists;
          taken = rw split (ground (arith, elem-append i rest (y ∷ []), live.taken, other));
        })
      ]),
      λ h. record {
        exists = elim h [ inl l ↦ rw length-set l.exists | inr q ↦ rw (q, length-set) lt ];
        taken = elim h [
          | inl l ↦ ground (arith, elem-append i rest (y ∷ []), ap (elem i) split, l.taken)
          | inr q ↦ rw q out
        ];
      },
    )
    | inr (e, nil) ↦ rw e (
      λ live. elim (Bool-cases (i == length a.slots)) [
        | inl same ↦ inr (ground (arith, w.small))
        | inr other ↦ inl (record {
          exists = ground (arith, live.exists, length-append a.slots (v ∷ []));
          taken = live.taken;
        })
      ],
      λ h. record {
        exists = elim h [
          | inl l ↦ omega (arith, l.exists, length-append a.slots (v ∷ []))
          | inr q ↦ omega (arith, w.small, length-append a.slots (v ∷ []))
        ];
        taken = rw nil refl;
      },
    )
  ]

  -- In a well-formed arena, the slot that alloc returns holds the new value, and every other slot
  -- holds what it held.
  pub get-alloc :
      (j : ℕ)
      → IsWellFormed a
      → get (alloc v a).0 j ≡ (if j == (alloc v a).1 then some v else get a j)
  unfolding alloc get
  get-alloc j w = elim (alloc-cases w) [
    | inl (y, rest, e, split, lt, bound, apart, out) ↦ rw e (get_elem?-set a.slots y j v lt)
    | inr (e, nil) ↦ rw e (ground (arith, get_elem?-append_one a.slots j v, w.small))
  ]

  pub get-alloc_new : IsWellFormed a → get (alloc v a).0 (alloc v a).1 ≡ some v
  get-alloc_new w = ground (arith, get-alloc (alloc v a).1 w, ==_refl (alloc v a).1)

  -- No live slot is overwritten.
  pub get-alloc_live : (i : ℕ) → IsWellFormed a → IsLive a i → get (alloc v a).0 i ≡ get a i
  get-alloc_live i w live = elim (Bool-cases (i == (alloc v a).1)) [
    | inl same ↦ absurd (alloc_fresh w (rw ((==_iff i (alloc v a).1).0 same) at live))
    | inr other ↦ ground (arith, get-alloc i w, other)
  ]

  pub IsLive-alloc_old : (i : ℕ) → IsWellFormed a → IsLive a i → IsLive (alloc v a).0 i
  IsLive-alloc_old i w live = (alloc-IsLive i w).1 (inl live)

  pub IsLive-alloc_new : IsWellFormed a → IsLive (alloc v a).0 (alloc v a).1
  IsLive-alloc_new w = (alloc-IsLive (alloc v a).1 w).1 (inr refl)

  pub length-alloc : length (alloc v a).0.slots ≤ length a.slots + 1
  unfolding alloc
  length-alloc = elim (Option-cases (pop a.free_list)) [
    | inl e ↦ rw e (omega (arith, length-append a.slots (v ∷ [])))
    | inr ((y, rest), e) ↦ rw e (omega (arith, length-set a.slots y v))
  ]
