-- ===== src/Cekh/Walk.antt =====
-- src/cekh.rs: the walk from a frame outward that `handle_return`, `handle_break`,
-- `handle_continue`, `do_perform` and `rebase_continuation` share: each stops at the first frame of
-- its kind, at the halt frame, or where a frame is missing.
use kryhtajs.Prelude.{
  ℕ, zero, suc, ◌<◌, ◌≤◌, ◌≡◌, Bool, true, false, Option, none, some, List, [], ◌∷◌, arith, length,
  ◌∙◌, refl, ap, Bool-cases, inl, inr, if◌then◌else◌,
}
use kryhtajs.Value.{ContId}
use kryhtajs.Arena.{get}
use kryhtajs.Arena.Links.{Links, frame, dangling, top, length-Links}
use kryhtajs.Cont.{Kont, outer}
use kryhtajs.Cekh.State.{ContArena}

-- A round of the loop for each frame.
unfoldable seek : (Kont → Bool) → ℕ → ContArena → ContId → Option Kont
unfolding outer
seek stop zero conts k = none
seek stop (suc fuel) conts k = elim (get conts k) [
  | none ↦ none
  | some kont ↦ elim (stop kont) [
    | true ↦ some kont
    | false ↦ elim (outer kont) [ none ↦ none | some k' ↦ seek stop fuel conts k' ]
  ]
]

-- The frames of a walk are distinct slots, so a round for each slot and one more is enough.
unfoldable pub nearest : (Kont → Bool) → ContArena → ContId → Option Kont
unfolding seek
nearest stop conts k = seek stop (suc (length conts.slots)) conts k

-- The first frame from `k` outward that stops the walk.
pub data Nearest (stop : Kont → Bool) (conts : ContArena) : ContId → Kont → Type 0 where
  here :
      {k : ContId} (kont : Kont)
      → get conts k ≡ some kont
      → stop kont ≡ true
      → Nearest stop conts k kont
  further :
      {k : ContId} (passed : Kont) (k' : ContId) {found : Kont}
      → get conts k ≡ some passed
      → stop passed ≡ false
      → outer passed ≡ some k'
      → Nearest stop conts k' found
      → Nearest stop conts k found

-- The next frame, where the walk goes on.
abbrev onward : (Kont → Bool) → Kont → Option ℕ
onward stop kont = elim (stop kont) [ true ↦ none | false ↦ outer kont ]

module _ (stop : Kont → Bool) (conts : ContArena) where
  seek_here :
      (fuel : ℕ) (k : ContId) (kont : Kont)
      → get conts k ≡ some kont
      → stop kont ≡ true
      → 0 < fuel
      → seek stop fuel conts k ≡ some kont
  unfolding seek
  seek_here zero k kont e s le = absurd (omega arith)
  seek_here (suc fuel) k kont e s le = ground (arith, e, s)

  seek_further :
      (fuel : ℕ) (k : ContId) (passed : Kont) (k' : ContId)
      → get conts k ≡ some passed
      → stop passed ≡ false
      → outer passed ≡ some k'
      → seek stop (suc fuel) conts k ≡ seek stop fuel conts k'
  unfolding seek
  seek_further fuel k passed k' e s o = ground (arith, e, s, o)

  -- The frames of the walk make a chain, and a round for each is enough.
  walked :
      {k : ContId} {found : Kont}
      → Nearest stop conts k found
      → (ids : List ℕ) × Links (onward stop) conts (some k) ids
        × ((fuel : ℕ) → length ids ≤ fuel → seek stop fuel conts k ≡ some found)
  walked (here {k} kont e s) = (
    k ∷ [],
    frame kont e (rw (s, onward) top),
    λ fuel le. seek_here fuel k kont e s (omega arith),
  )
  walked (further {k} passed k' {found} e s o rest) =
      let (ids, c, enough) = walked rest in
      (
        k ∷ ids,
        frame passed e (rw (s, o, onward) c),
        λ fuel le.
            elim fuel as (λ n. length (k ∷ ids) ≤ n → seek stop n conts k ≡ some found) [
              | zero ↦ λ few. absurd (omega arith)
              | suc n ↦ λ few. seek_further n k passed k' e s o ∙ enough n (omega arith)
            ]
              le,
      )

  -- The walk finds the nearest frame that stops it.
  pub nearest-Nearest :
      {k : ContId} {found : Kont} → Nearest stop conts k found → nearest stop conts k ≡ some found
  unfolding nearest
  nearest-Nearest n =
      let (ids, c, enough) = walked n in
      enough (suc (length conts.slots)) (omega (arith, length-Links (onward stop) conts c))

-- The frames from `k` outward, up to one without an outer frame or to a missing slot.
pub data Stack (conts : ContArena) : ContId → List Kont → Type 0 where
  missing : {k : ContId} → get conts k ≡ none → Stack conts k []
  last :
      {k : ContId} (kont : Kont)
      → get conts k ≡ some kont
      → outer kont ≡ none
      → Stack conts k (kont ∷ [])
  on :
      {k : ContId} (kont : Kont) (k' : ContId) {konts : List Kont}
      → get conts k ≡ some kont
      → outer kont ≡ some k'
      → Stack conts k' konts
      → Stack conts k (kont ∷ konts)

-- The innermost frame of a kind.
abbrev pub innermost : (Kont → Bool) → List Kont → Option Kont
innermost p [] = none
innermost p (f ∷ fs) = if p f then some f else innermost p fs

module _ (conts : ContArena) where
  -- The slots of a stack make a chain.
  Stack-Links :
      {k : ContId} {konts : List Kont}
      → Stack conts k konts
      → (ids : List ℕ) × Links outer conts (some k) ids × (length ids ≡ length konts)
  Stack-Links (missing e) = ([], dangling e, refl)
  Stack-Links (last {k} kont e o) = (k ∷ [], frame kont e (rw o top), refl)
  Stack-Links (on {k} kont k' e o rest) =
      let (ids, c, len) = Stack-Links rest in (k ∷ ids, frame kont e (rw o c), ap suc len)

  seek-Stack :
      (stop : Kont → Bool) (fuel : ℕ) {k : ContId} {konts : List Kont}
      → Stack conts k konts
      → length konts ≤ fuel
      → seek stop fuel conts k ≡ innermost stop konts
  unfolding seek
  seek-Stack stop zero (missing e) le = refl
  seek-Stack stop (suc fuel) (missing e) le = rw (seek, e) refl
  seek-Stack stop zero (last kont e o) le = absurd (omega arith)
  seek-Stack stop (suc fuel) (last kont e o) le = elim (Bool-cases (stop kont)) [
    | inl s ↦ rw (seek, e, s) refl
    | inr s ↦ rw (seek, e, s, o) refl
  ]
  seek-Stack stop zero (on kont k' e o rest) le = absurd (omega arith)
  seek-Stack stop (suc fuel) (on kont k' e o rest) le = elim (Bool-cases (stop kont)) [
    | inl s ↦ rw (seek, e, s) refl
    | inr s ↦ rw (seek, e, s, o) (seek-Stack stop fuel rest (omega arith))
  ]

  -- The walk finds the innermost frame of the stack that stops it, and nothing where there is none.
  pub nearest-Stack :
      (stop : Kont → Bool) {k : ContId} {konts : List Kont}
      → Stack conts k konts
      → nearest stop conts k ≡ innermost stop konts
  unfolding nearest
  nearest-Stack stop s =
      let (ids, c, len) = Stack-Links s in
      seek-Stack stop (suc (length conts.slots)) s (omega (arith, len, length-Links outer conts c))
