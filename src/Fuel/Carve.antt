-- ===== src/Fuel/Carve.antt =====
-- src/fuel.rs: what `carve` does on each branch, and a refund that is done twice.
use kryhtajs.Prelude.{
  ℕ, ◌+◌, ◌-◌, ◌^◌, ◌<◌, ◌≤◌, ◌≡◌, ◌≢◌, refl, some, [], ◌∷◌, ◌++◌, arith, length, get_elem?, set,
  ◌==◌, ==_iff, if◌then◌else◌, get_elem?-lt, get_elem?-set, get_elem?-append_one, length-set, ok,
  err, min,
}
use kryhtajs.Fuel.{
  Meter, Meters, remaining, carve, insufficient, refund_into_parent, or_zero, u64_max,
}

-- A finite meter with less than `amount` refuses, and says how much it has.
carve-insufficient :
    (m : Meters) (from amount rem : ℕ)
    → remaining m from ≡ some rem
    → rem < amount
    → carve m from amount ≡ err (insufficient amount rem)
unfolding carve
carve-insufficient m from amount rem h lt = rw h (ground arith)

-- With fewer than 2 ^ 32 meters, carving an amount that a finite meter can pay gives a child at the
-- end of the meters with that amount and that parent; the parent has that much less, and no other
-- meter changes.
pub carve_success :
    (m : Meters) (from amount rem : ℕ) (s : Meter)
    → get_elem? m from ≡ some s
    → s.remaining ≡ some rem
    → amount ≤ rem
    → length m < 2 ^ 32
    → (m' : Meters) × (carve m from amount ≡ ok (m', length m))
      × ((j : ℕ)
          → get_elem? m' j ≡ (
              if j == length m
              then some (record { remaining = some amount; parent = some from })
              else if j == from
              then some (record s { remaining = some (rem - amount) })
              else get_elem? m j))
unfolding carve remaining
carve_success m from amount rem s e r le small =
    let less : Meter = record s { remaining = some (rem - amount) } in
    let child : Meter = record { remaining = some amount; parent = some from } in
    let lt = get_elem?-lt m from s e in
    let len = length-set m from less in
    (
      set m from less ++ child ∷ [],
      ground (arith, e, r, len),
      λ j. ground (
        arith,
        get_elem?-append_one (set m from less) j child,
        get_elem?-set m from j less lt,
        len,
      ),
    )

-- Refunding a meter into another, finite one leaves it empty, adds its leftover to the parent up to
-- the largest u64, and changes no other meter.
pub get_elem?-refund :
    (m : Meters) (id p : ℕ) (s t : Meter) (r : ℕ)
    → get_elem? m id ≡ some s
    → s.parent ≡ some p
    → get_elem? m p ≡ some t
    → t.remaining ≡ some r
    → p ≢ id
    → (j : ℕ)
    → get_elem? (refund_into_parent m id) j ≡ (
        if j == p
        then some (record t { remaining = some (min (r + or_zero s.remaining) u64_max) })
        else if j == id
        then some (record s { remaining = some 0 })
        else get_elem? m j)
unfolding refund_into_parent
get_elem?-refund m id p s t r e up there q ne j =
    let empty : Meter = record s { remaining = some 0 } in
    let lt = get_elem?-lt m id s e in
    let more : Meter = record t { remaining = some (min (r + or_zero s.remaining) u64_max) } in
    let under : get_elem? (set m id empty) p ≡ some t =
      ground (arith, get_elem?-set m id p empty lt, ==_iff p id) in
    ground (
      arith,
      e,
      up,
      q,
      under,
      get_elem?-set (set m id empty) p j more (get_elem?-lt (set m id empty) p t under),
      get_elem?-set m id j empty lt,
    )

-- Refunding the same meter twice into another, finite one is refunding it once.
pub refund_idempotent :
    (m : Meters) (id p : ℕ) (s t : Meter) (r : ℕ)
    → get_elem? m id ≡ some s
    → s.parent ≡ some p
    → get_elem? m p ≡ some t
    → t.remaining ≡ some r
    → p ≢ id
    → (j : ℕ)
    → get_elem? (refund_into_parent (refund_into_parent m id) id) j
      ≡ get_elem? (refund_into_parent m id) j
refund_idempotent m id p s t r e up there q ne j =
    let once = get_elem?-refund m id p s t r e up there q ne in
    let kept = min (r + or_zero s.remaining) u64_max in
    let low : kept ≤ u64_max = omega arith in
    let again =
      get_elem?-refund (refund_into_parent m id) id p (record s { remaining = some 0 })
        (record t { remaining = some kept }) kept
        (ground (arith, once id, ==_iff p id, ==_iff id p)) up (ground (arith, once p)) refl ne in
    ground (arith, again j, once j)
