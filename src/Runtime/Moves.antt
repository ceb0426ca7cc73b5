-- ===== src/Runtime/Moves.antt =====
-- src/runtime.rs: what an operation between two slices does to the meters: forks and refunds only,
-- and every fiber's meter is a slot before and after.
use kryhtajs.Prelude.{
  ℕ, zero, suc, ◌%◌, ◌-◌, ◌<◌, ◌^◌, ◌≡◌, refl, sym, ap, ◌∙◌, subst, Option, none, some, List, [],
  ◌∷◌, ◌++◌, length, get_elem?, set, All, Option-cases, Bool-cases, inl, inr, arith, ok, Result,
  length-set, length-append, ltb, ◌==◌,
}
use kryhtajs.Arena.{pop}
use kryhtajs.Arena.Live.{pop-eq-some}
use kryhtajs.Fiber.{Fiber, FiberId}
use kryhtajs.Fuel.{
  Meter, Meters, update_slot, charge, carve, remaining, refund_into_parent, refund_slot,
}
use kryhtajs.Fuel.Conservation.{Spends}
use kryhtajs.Runtime.State.{Runtime, and_then}
use kryhtajs.Runtime.Fibers.{find_fiber, update_fiber, swap_remove}

-- Every fiber's meter is a slot.
abbrev pub IsMetered : Meters → List Fiber → Type 0
IsMetered m fibers = All (λ f. f.meter < length m) fibers

pub record Moved (rt rt' : Runtime) : Type 0 where
  pub metered : IsMetered rt'.meters rt'.fibers
  pub history :
      (last : Meters) (n : ℕ)
      → Spends rt.quantum last rt'.meters n
      → Spends rt.quantum last rt.meters n
  pub same_quantum : rt'.quantum ≡ rt.quantum
  pub same_steps : rt'.steps_total ≡ rt.steps_total
  pub no_shrink : length rt.meters < suc (length rt'.meters)

-- An operation on a runtime whose fibers are metered.
abbrev pub Moves : Runtime → Runtime → Type 0
Moves rt rt' = IsMetered rt.meters rt.fibers → Moved rt rt'

-- The same of an operation that may panic, by the runtime in its result.
abbrev pub MovesIn : {B : Type 0} → (B → Runtime) → Runtime → Option B → Type 0
MovesIn of rt none = Unit
MovesIn of rt (some b) = Moves rt (of b)

abbrev pub itself : Runtime → Runtime
itself rt = rt

abbrev pub MovesIf : Runtime → Option Runtime → Type 0
MovesIf = MovesIn itself

pub and_then-MovesIn :
    {A B : Type 0} (of : B → Runtime) (rt : Runtime) (o : Option A) (f : A → Option B)
    → ((a : A) → MovesIn of rt (f a))
    → MovesIn of rt (and_then o f)
and_then-MovesIn of rt none f h = tt
and_then-MovesIn of rt (some a) f h = h a

pub Moves_trans : (a b c : Runtime) → Moves a b → Moves b c → Moves a c
Moves_trans a b c f g w =
    let p = f w in
    let q = g p.metered in
    record {
      metered = q.metered;
      history = λ last n h. p.history last n (
          subst (λ k. Spends k last b.meters n) p.same_quantum
            (q.history last n (subst (λ k. Spends k last c.meters n) (sym p.same_quantum) h)));
      same_quantum = q.same_quantum ∙ p.same_quantum;
      same_steps = q.same_steps ∙ p.same_steps;
      no_shrink = omega (arith, p.no_shrink, q.no_shrink);
    }

pub first_then :
    {B : Type 0} (of : B → Runtime) (a b : Runtime) (o : Option B)
    → Moves a b
    → MovesIn of b o
    → MovesIn of a o
first_then of a b none f g = tt
first_then of a b (some c) f g = Moves_trans a b (of c) f g

-- An argument may use that the fibers are metered.
pub when_metered :
    {B : Type 0} (of : B → Runtime) (rt : Runtime) (o : Option B)
    → (IsMetered rt.meters rt.fibers → MovesIn of rt o)
    → MovesIn of rt o
when_metered of rt none h = tt
when_metered of rt (some b) h = λ w. h w w

pub then-MovesIn :
    {A B : Type 0} (from : A → Runtime) (of : B → Runtime) (rt : Runtime) (o : Option A)
    (f : A → Option B)
    → MovesIn from rt o
    → ((a : A) → MovesIn of (from a) (f a))
    → MovesIn of rt (and_then o f)
then-MovesIn from of rt none f m h = tt
then-MovesIn from of rt (some a) f m h = first_then of rt (from a) (f a) m (h a)

-- The meters, the quantum and the steps stay.
pub stays :
    (rt rt' : Runtime)
    → rt'.meters ≡ rt.meters
    → rt'.quantum ≡ rt.quantum
    → rt'.steps_total ≡ rt.steps_total
    → (IsMetered rt.meters rt.fibers → IsMetered rt.meters rt'.fibers)
    → Moves rt rt'
stays rt rt' m q s keep w = record {
  metered = rw m (keep w);
  history = λ last n h. rw m at h;
  same_quantum = q;
  same_steps = s;
  no_shrink = rw m (omega arith);
}

All-update_fiber :
    (P : Fiber → Type 0) (g : Fiber → Fiber) (id : FiberId) (fs : List Fiber)
    → ((f : Fiber) → P f → P (g f))
    → All P fs
    → All P (update_fiber g id fs)
All-update_fiber P g id [] keep every = tt
All-update_fiber P g id (f ∷ fs) keep every = elim (Bool-cases (f.id == id)) [
  | inl here ↦ rw here (keep f every.0, every.1)
  | inr away ↦ rw away (every.0, All-update_fiber P g id fs keep every.1)
]

pub All-find_fiber :
    (P : Fiber → Type 0) (id : FiberId) (fs : List Fiber) (f : Fiber)
    → find_fiber id fs ≡ some f
    → All P fs
    → P f
All-find_fiber P id [] f e every = cc
All-find_fiber P id (g ∷ fs) f e every = elim (Bool-cases (g.id == id)) [
  | inl here ↦ let e' = rw here at e in let same : g ≡ f = cc in subst P same every.0
  | inr away ↦ All-find_fiber P id fs f (rw away at e) every.1
]

pub All-append_one :
    {A : Type 0} (P : A → Type 0) (xs : List A) (x : A) → All P xs → P x → All P (xs ++ x ∷ [])
All-append_one P [] x every px = (px, tt)
All-append_one P (y ∷ ys) x every px = (every.0, All-append_one P ys x every.1 px)

All-split :
    {A : Type 0} (P : A → Type 0) (xs : List A) (x : A) → All P (xs ++ x ∷ []) → All P xs × P x
All-split P [] x every = (tt, every.0)
All-split P (y ∷ ys) x every = let (a, b) = All-split P ys x every.1 in ((every.0, a), b)

All-set :
    {A : Type 0} (P : A → Type 0) (xs : List A) (i : ℕ) (x : A)
    → All P xs
    → P x
    → All P (set xs i x)
All-set P [] i x every px = tt
All-set P (y ∷ ys) zero x every px = (px, every.1)
All-set P (y ∷ ys) (suc i) x every px = (every.0, All-set P ys i x every.1 px)

pub All-swap_remove :
    {A : Type 0} (P : A → Type 0) (xs : List A) (i : ℕ) → All P xs → All P (swap_remove xs i)
unfolding swap_remove
All-swap_remove P xs i every = elim (Option-cases (pop xs)) [
  | inl e ↦ rw (swap_remove, e) every
  | inr ((last, rest), e) ↦
      let (a, b) = All-split P rest last (subst (λ l. All P l) (pop-eq-some xs e) every) in
      rw (swap_remove, e) (All-set P rest i last a b)
]

pub IsMetered-update :
    (m : Meters) (g : Fiber → Fiber) (id : FiberId) (fs : List Fiber)
    → ((f : Fiber) → (g f).meter ≡ f.meter)
    → IsMetered m fs
    → IsMetered m (update_fiber g id fs)
IsMetered-update m g id fs same =
    All-update_fiber (λ f. f.meter < length m) g id fs (λ f lt. rw (same f) lt)

length-update_slot :
    (f : ℕ → ℕ) (m : Meters) (id : ℕ) (o : Option Meter) → length (update_slot f m id o) ≡ length m
length-update_slot f m id none = refl
length-update_slot f m id (some s) = elim (Option-cases s.remaining) [
  | inl e ↦ rw e refl
  | inr (rem, e) ↦ rw e (length-set m id (record s { remaining = some (f rem) }))
]

pub length-charge : (m : Meters) (id n : ℕ) → length (charge m id n) ≡ length m
unfolding charge
length-charge m id n = length-update_slot (λ rem. rem - n) m id (get_elem? m id)

length-refund_slot :
    (m : Meters) (id : ℕ) (s : Meter) (parent : Option ℕ)
    → length (refund_slot m id s parent) ≡ length m
length-refund_slot m id s none = refl
length-refund_slot m id s (some parent) =
    length-update_slot _ (set m id (record s { remaining = some 0 })) parent _
    ∙ length-set m id (record s { remaining = some 0 })

pub length-refund : (m : Meters) (id : ℕ) → length (refund_into_parent m id) ≡ length m
unfolding refund_into_parent
length-refund m id = elim (Option-cases (get_elem? m id)) [
  | inl e ↦ rw e refl
  | inr (s, e) ↦ rw e (length-refund_slot m id s s.parent)
]

pushed-lt :
    (m₁ m' : Meters) (c : Meter) (child : ℕ)
    → Path (Result (Meters × ℕ)) (ok (m₁ ++ c ∷ [], length m₁ % 2 ^ 32)) (ok (m', child))
    → (length m' ≡ suc (length m₁)) × (child < length m')
pushed-lt m₁ m' c child h =
    let same : m₁ ++ c ∷ [] ≡ m' = cc in
    let id : length m₁ % 2 ^ 32 ≡ child = cc in
    let len = ap length same in
    (
      omega (arith, len, length-append m₁ (c ∷ [])),
      omega (arith, len, id, length-append m₁ (c ∷ [])),
    )

-- A carved child is a slot.
pub carve-lt :
    (m m' : Meters) (from amount child : ℕ)
    → carve m from amount ≡ ok (m', child)
    → (length m' ≡ suc (length m)) × (child < length m')
unfolding carve
carve-lt m m' from amount child h = elim (Option-cases (remaining m from)) [
  | inl e ↦ pushed-lt m m' _ child (rw e at h)
  | inr (rem, e) ↦ elim (Bool-cases (ltb rem amount)) [
    | inl low ↦ absurd (let k = rw (e, low) at h in cc)
    | inr fits ↦
        let (len, lt) = pushed-lt _ m' _ child (rw (e, fits) at h) in
        (len ∙ ap suc (length-update_slot _ m from _), lt)
  ]
]
