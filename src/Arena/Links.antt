-- ===== src/Arena/Links.antt =====
-- src/arena.rs: chains of slots, each with the index of the next. A chain that ends visits no slot
-- twice, so it is shorter than the arena and one round more.
use kryhtajs.Prelude.{
  ℕ, zero, suc, ◌+◌, ◌<◌, ◌≤◌, ◌≡◌, refl, true, false, Bool-cases, inl, inr, Option, none, some,
  List, [], ◌∷◌, arith, length, All, ◌==◌, ==_iff, if◌then◌else◌, get_elem?-lt,
}
use kryhtajs.Arena.{Arena, get, elem, NoRepeat}

-- The slots from an index on: the walk ends at a missing index or an unallocated one.
pub data Links {A : Type 0} (next : A → Option ℕ) (a : Arena A) : Option ℕ → List ℕ → Type 0 where
  top : Links next a none []
  dangling : {id : ℕ} → get a id ≡ none → Links next a (some id) []
  frame :
      {id : ℕ} (v : A) {ids : List ℕ}
      → get a id ≡ some v
      → Links next a (next v) ids
      → Links next a (some id) (id ∷ ids)

-- A list without `k`.
without : ℕ → List ℕ → List ℕ
without k [] = []
without k (x ∷ xs) = let rest = without k xs in if x == k then rest else x ∷ rest

without-absent : (k : ℕ) (xs : List ℕ) → elem k xs ≡ false → without k xs ≡ xs
unfolding without
without-absent k [] h = refl
without-absent k (x ∷ xs) h = ground (arith, without-absent k xs, ==_iff x k, ==_iff k x)

elem-without : (k j : ℕ) (xs : List ℕ) → elem j xs ≡ false → elem j (without k xs) ≡ false
unfolding without
elem-without k j [] h = refl
elem-without k j (x ∷ xs) h = ground (arith, elem-without k j xs)

without-NoRepeat :
    (k : ℕ) (xs : List ℕ)
    → NoRepeat xs
    → NoRepeat (without k xs) × (length xs ≤ suc (length (without k xs)))
unfolding without
without-NoRepeat k [] h = (tt, omega arith)
without-NoRepeat k (x ∷ xs) h = elim (Bool-cases (x == k)) [
  | inl same ↦ rw same (
      let absent = without-absent k xs (ground (arith, h.0, ==_iff x k)) in
      rw absent (h.1, omega arith))
  | inr apart ↦
      let ih = without-NoRepeat k xs h.1 in
      rw apart ((elem-without k x xs h.0, ih.0), omega (arith, ih.1))
]

without-All : (n : ℕ) (xs : List ℕ) → All (λ i. i < suc n) xs → All (λ i. i < n) (without n xs)
unfolding without
without-All n [] h = tt
without-All n (x ∷ xs) h = elim (Bool-cases (x == n)) [
  | inl same ↦ rw same (without-All n xs h.1)
  | inr apart ↦ rw apart (ground (arith, h.0), without-All n xs h.1)
]

-- Distinct numbers below `n` are at most `n`.
pub length-NoRepeat : (n : ℕ) (xs : List ℕ) → All (λ i. i < n) xs → NoRepeat xs → length xs ≤ n
length-NoRepeat n [] h d = omega arith
length-NoRepeat zero (x ∷ xs) h d = absurd (omega (arith, h.0))
length-NoRepeat (suc n) (x ∷ xs) h d =
    let less = without-NoRepeat n (x ∷ xs) d in
    omega (arith, length-NoRepeat n (without n (x ∷ xs)) (without-All n (x ∷ xs) h) less.0, less.1)

module _ {A : Type 0} (next : A → Option ℕ) (a : Arena A) where
  -- The number of slots, by the same walk.
  count_from : ℕ → Option ℕ → ℕ
  count_from zero current = 0
  count_from (suc fuel) none = 0
  count_from (suc fuel) (some id) = elim (get a id) [
    | none ↦ 0
    | some v ↦ suc (count_from fuel (next v))
  ]

  count_from-Links :
      (fuel : ℕ) {current : Option ℕ} {ids : List ℕ}
      → Links next a current ids
      → length ids < fuel
      → count_from fuel current ≡ length ids
  unfolding count_from
  count_from-Links zero c h = absurd (omega arith)
  count_from-Links (suc fuel) top h = refl
  count_from-Links (suc fuel) (dangling e) h = ground arith
  count_from-Links (suc fuel) (frame v e rest) h =
      ground (arith, e, count_from-Links fuel rest (omega arith))

  length-Links_unique :
      {current : Option ℕ} {ids js : List ℕ}
      → Links next a current ids
      → Links next a current js
      → length ids ≡ length js
  length-Links_unique {ids = ids} {js = js} p q =
      let fuel = suc (length ids + length js) in
      omega (arith, count_from-Links fuel p (omega arith), count_from-Links fuel q (omega arith))

  -- A slot of a chain starts a chain that is no longer.
  suffix :
      (id : ℕ) {current : Option ℕ} {ids : List ℕ}
      → Links next a current ids
      → elem id ids ≡ true
      → (js : List ℕ) × Links next a (some id) js × (length js ≤ length ids)
  suffix id top h = cc
  suffix id (dangling e) h = cc
  suffix id (frame {id = k} v {ids} e rest) h = elim (Bool-cases (id == k)) [
    | inl same ↦ (k ∷ ids, rw ((==_iff id k).0 same) (frame v e rest), omega arith)
    | inr apart ↦ let (js, c, le) = suffix id rest (ground arith) in (js, c, omega arith)
  ]

  Links-NoRepeat : {current : Option ℕ} {ids : List ℕ} → Links next a current ids → NoRepeat ids
  Links-NoRepeat top = tt
  Links-NoRepeat (dangling e) = tt
  Links-NoRepeat (frame {id = k} v {ids} e rest) = (
    elim (Bool-cases (elem k ids)) [
      | inl again ↦
          let (js, c, le) = suffix k rest again in
          absurd (omega (arith, length-Links_unique c (frame v e rest)))
      | inr fresh ↦ fresh
    ],
    Links-NoRepeat rest,
  )

  Links-in_range :
      {current : Option ℕ} {ids : List ℕ}
      → Links next a current ids
      → All (λ i. i < length a.slots) ids
  unfolding get
  Links-in_range top = tt
  Links-in_range (dangling e) = tt
  Links-in_range (frame v e rest) = (get_elem?-lt a.slots _ v e, Links-in_range rest)

  -- A chain that ends has at most one link for each slot.
  pub length-Links :
      {current : Option ℕ} {ids : List ℕ} → Links next a current ids → length ids ≤ length a.slots
  length-Links {ids = ids} c =
      length-NoRepeat (length a.slots) ids (Links-in_range c) (Links-NoRepeat c)
