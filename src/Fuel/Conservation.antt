-- ===== src/Fuel/Conservation.antt =====
-- src/fuel.rs: fuel moves between meters and is never created, so that a finite budget bounds the
-- steps of all fibers together.
use kryhtajs.Prelude.{
  ℕ, zero, suc, ◌+◌, ◌-◌, ◌<◌, ◌≤◌, ◌≡◌, refl, ap, Option, none, some, [], ◌∷◌, ◌++◌, arith, length,
  get_elem?, set, All, get_elem?-some, Option-cases, inl, inr, ok, min,
}
use kryhtajs.Fuel.{
  Meter, Meters, new, update_slot, remaining, set_root_budget, charge, carve, refund_slot,
  refund_into_parent, or_zero, allowance, u64_max,
}

-- The fuel in all finite meters.
abbrev pub total : Meters → ℕ
total [] = 0
total (s ∷ m) = or_zero s.remaining + total m

abbrev IsLimited : Meter → Type 0
IsLimited s = (n : ℕ) × (s.remaining ≡ some n)

-- No meter is unlimited.
abbrev IsFinite : Meters → Type 0
IsFinite m = All IsLimited m

total-set :
    (m : Meters) (id : ℕ) (s t : Meter)
    → get_elem? m id ≡ some s
    → total (set m id t) + or_zero s.remaining ≡ total m + or_zero t.remaining
total-set [] id s t h = cc
total-set (x ∷ m) zero s t h = ground arith
total-set (x ∷ m) (suc id) s t h = omega (arith, total-set m id s t h)

total-append : (m : Meters) (s : Meter) → total (m ++ s ∷ []) ≡ total m + or_zero s.remaining
total-append [] s = omega arith
total-append (x ∷ m) s = omega (arith, total-append m s)

IsFinite-set : (m : Meters) (id : ℕ) (t : Meter) → IsFinite m → IsLimited t → IsFinite (set m id t)
IsFinite-set [] id t h l = tt
IsFinite-set (x ∷ m) zero t h l = (l, h.1)
IsFinite-set (x ∷ m) (suc id) t h l = (h.0, IsFinite-set m id t h.1 l)

IsFinite-append : (m : Meters) (t : Meter) → IsFinite m → IsLimited t → IsFinite (m ++ t ∷ [])
IsFinite-append [] t h l = (l, tt)
IsFinite-append (x ∷ m) t h l = (h.0, IsFinite-append m t h.1 l)

IsLimited-get :
    (m : Meters) (id : ℕ) (s : Meter) → IsFinite m → get_elem? m id ≡ some s → IsLimited s
IsLimited-get [] id s h e = cc
IsLimited-get (x ∷ m) zero s h e = (h.0.0, ground (arith, h.0.1))
IsLimited-get (x ∷ m) (suc id) s h e = IsLimited-get m id s h.1 e

-- The history of the meters of a run, up to `last`: slices of `steps` steps within the allowance,
-- forks with a carved budget, and refunds, each on a meter that is a slot, with the number of steps that all slices took together.
pub data Spends (quantum : ℕ) (last : Meters) : Meters → ℕ → Type 0 where
  stop : Spends quantum last last 0
  slice :
      {m : Meters} (id steps bound : ℕ) {n : ℕ}
      → id < length m
      → allowance quantum (remaining m id) ≡ some bound
      → steps ≤ bound
      → Spends quantum last (charge m id steps) n
      → Spends quantum last m (steps + n)
  fork :
      {m : Meters} (from amount child : ℕ) {n : ℕ} (carved : Meters)
      → from < length m
      → carve m from amount ≡ ok (carved, child)
      → Spends quantum last carved n
      → Spends quantum last m n
  refund :
      {m : Meters} (id : ℕ) {n : ℕ}
      → Spends quantum last (refund_into_parent m id) n
      → Spends quantum last m n

-- An operation keeps every meter finite and, with what it spends, creates no fuel.
record Keeps (m m' : Meters) (spent : ℕ) : Type 0 where
  finite : IsFinite m'
  bounded : total m' + spent ≤ total m

-- A finite slot and its fuel.
finite_slot :
    (m : Meters) (id : ℕ)
    → IsFinite m
    → id < length m
    → (s : Meter) × (rem : ℕ) × (get_elem? m id ≡ some s) × (s.remaining ≡ some rem)
finite_slot m id fin lt =
    let (s, e) = get_elem?-some m id lt in
    let (rem, r) = IsLimited-get m id s fin e in (s, rem, e, r)

-- The slot's fuel `rem` becomes `f rem`, and the total changes by as much.
module _ (f : ℕ → ℕ) (m : Meters) (id : ℕ) (fin : IsFinite m) (s : Meter) (rem : ℕ)
    (e : get_elem? m id ≡ some s) (r : s.remaining ≡ some rem) where
  update-IsFinite : IsFinite (update_slot f m id (some s))
  update-IsFinite =
      rw r (IsFinite-set m id (record s { remaining = some (f rem) }) fin (f rem, refl))

  total-update : total (update_slot f m id (some s)) + rem ≡ total m + f rem
  total-update =
      rw r (omega (arith, total-set m id s (record s { remaining = some (f rem) }) e, ap or_zero r))

charge-Keeps :
    (quantum : ℕ) (m : Meters) (id steps bound : ℕ)
    → IsFinite m
    → id < length m
    → allowance quantum (remaining m id) ≡ some bound
    → steps ≤ bound
    → Keeps m (charge m id steps) steps
unfolding charge remaining allowance
charge-Keeps quantum m id steps bound fin lt h le =
    let (s, rem, e, r) = finite_slot m id fin lt in
    let within : steps ≤ rem = ground (arith, h, e, r) in
    rw e (record {
      finite = update-IsFinite (λ n. n - steps) m id fin s rem e r;
      bounded = omega (arith, total-update (λ n. n - steps) m id fin s rem e r);
    })

carve-Keeps :
    (m : Meters) (from amount child : ℕ) (m' : Meters)
    → IsFinite m
    → from < length m
    → carve m from amount ≡ ok (m', child)
    → Keeps m m' 0
unfolding carve
carve-Keeps m from amount child m' fin lt h =
    let (s, rem, e, r) = finite_slot m from fin lt in
    let fin' = update-IsFinite (λ n. n - amount) m from fin s rem e r in
    let tot = total-update (λ n. n - amount) m from fin s rem e r in
    let low : amount ≤ rem = ground (arith, h, e, r) in
    let m₁ = update_slot (λ n. n - amount) m from (some s) in
    let c : Meter = record { remaining = some amount; parent = some from } in
    let same : m₁ ++ c ∷ [] ≡ m' = ground (arith, h, e, r) in
    rw (← same) (record {
      finite = IsFinite-append m₁ c fin' (amount, refl);
      bounded = omega (arith, total-append m₁ c, tot);
    })

refund_slot-Keeps :
    (m : Meters) (id : ℕ) (parent : Option ℕ)
    → IsFinite m
    → (s : Meter) → get_elem? m id ≡ some s
    → Keeps m (refund_slot m id s parent) 0
refund_slot-Keeps m id none fin s e = record { finite = fin; bounded = omega arith }
refund_slot-Keeps m id (some parent) fin s e =
    let (rem, r) = IsLimited-get m id s fin e in
    let emptied = set m id (record s { remaining = some 0 }) in
    let fin' : IsFinite emptied = IsFinite-set m id _ fin (0, refl) in
    let tot = total-set m id s (record s { remaining = some 0 }) e in
    let f : ℕ → ℕ = λ n. min (n + or_zero s.remaining) u64_max in
    elim (Option-cases (get_elem? emptied parent)) [
      | inl none_there ↦ rw none_there (record { finite = fin'; bounded = omega arith })
      | inr (t, there) ↦
          let (own, q) = IsLimited-get emptied parent t fin' there in
          rw there (record {
            finite = update-IsFinite f emptied parent fin' t own there q;
            bounded = omega (arith, total-update f emptied parent fin' t own there q);
          })
    ]

refund-Keeps : (m : Meters) (id : ℕ) → IsFinite m → Keeps m (refund_into_parent m id) 0
unfolding refund_into_parent
refund-Keeps m id fin = elim (Option-cases (get_elem? m id)) [
  | inl e ↦ rw e (record { finite = fin; bounded = omega arith })
  | inr (s, e) ↦ rw e (refund_slot-Keeps m id s.parent fin s e)
]

-- From meters that are all finite, the steps of a history of slices, forks and refunds and the fuel
-- that is left are together at most the fuel that there was.
pub Spends-bounded :
    {quantum : ℕ} {last m : Meters} {n : ℕ}
    → IsFinite m
    → Spends quantum last m n
    → total last + n ≤ total m
Spends-bounded fin stop = omega arith
Spends-bounded fin (slice {m} id steps bound lt h le rest) =
    let k = charge-Keeps _ m id steps bound fin lt h le in
    omega (arith, k.bounded, Spends-bounded k.finite rest)
Spends-bounded fin (fork {m} from amount child carved lt h rest) =
    let k = carve-Keeps m from amount child carved fin lt h in
    omega (arith, k.bounded, Spends-bounded k.finite rest)
Spends-bounded fin (refund {m} id rest) =
    let k = refund-Keeps m id fin in omega (arith, k.bounded, Spends-bounded k.finite rest)

-- From a single root meter with a finite budget, every history of forks, refunds and slices within
-- their allowances takes at most the budget in steps, all fibers together.
pub budget_bounds_steps :
    {quantum n budget : ℕ} {last : Meters}
    → Spends quantum last (set_root_budget new (some budget)) n
    → n ≤ budget
unfolding set_root_budget new
budget_bounds_steps {budget = budget} h = omega (arith, Spends-bounded ((budget, refl), tt) h)
