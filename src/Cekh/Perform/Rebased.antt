-- ===== src/Cekh/Perform/Rebased.antt =====
-- src/cekh.rs: `rebase_continuation` copies the captured frames up to the nearest handler onto the
-- frame of the call that resumes them, and changes no frame that is in use.
use kryhtajs.Prelude.{
  ℕ, zero, suc, ◌+◌, ◌^◌, ◌<◌, ◌≤◌, ◌≡◌, ◌∙◌, refl, true, false, Option, none, some, List, [], ◌∷◌,
  ◌++◌, arith, length,
}
use kryhtajs.Value.{ContId}
use kryhtajs.Arena.{alloc, get, IsWellFormed, IsLive}
use kryhtajs.Arena.Live.{
  alloc-IsWellFormed, get-alloc_new, get-alloc_live, IsLive-alloc_old, IsLive-alloc_new,
  length-alloc,
}
use kryhtajs.Arena.Links.{Links, frame, top, length-Links}
use kryhtajs.Cont.{Kont, outer}
use kryhtajs.Cekh.State.{ContArena}
use kryhtajs.Cekh.Rebuild.{rebuilt, rebuild_kont_with_k}
use kryhtajs.Cekh.Perform.{stops_capture, is_handler, captured, rebuild_stack, rebase_continuation}

-- The frames from `k` to the nearest handler.
pub data Capture (conts : ContArena) : ContId → List Kont → Kont → Type 0 where
  handler :
      {k : ContId} (h : Kont) → get conts k ≡ some h → is_handler h ≡ true → Capture conts k [] h
  inner :
      {k : ContId} (kont : Kont) (k' : ContId) {stack : List Kont} {h : Kont}
      → get conts k ≡ some kont
      → stops_capture kont ≡ false
      → outer kont ≡ some k'
      → Capture conts k' stack h
      → Capture conts k (kont ∷ stack) h

-- Copies of the frames stand one on the other from `k` on, in slots in use, the last one on `n`.
abbrev pub StandsOn : ContArena → ContId → List Kont → ContId → Type 0
StandsOn conts k [] n = k ≡ n
StandsOn conts k (kont ∷ stack) n =
    (k' : ContId) × IsLive conts k
    × (get conts k ≡ some (rebuilt kont k'))
    × StandsOn conts k' stack n

-- The slots in use of `conts` are in use in `conts'`, with the same frames.
record Keeps (conts conts' : ContArena) : Type 0 where
  same : (i : ContId) → IsLive conts i → get conts' i ≡ get conts i
  live : (i : ContId) → IsLive conts i → IsLive conts' i

StandsOn-Keeps :
    (conts conts' : ContArena) (k : ContId) (stack : List Kont) (n : ContId)
    → Keeps conts conts'
    → StandsOn conts k stack n
    → StandsOn conts' k stack n
StandsOn-Keeps conts conts' k [] n keeps s = s
StandsOn-Keeps conts conts' k (kont ∷ stack) n keeps (k', live, e, s) =
    (k', keeps.live k live, keeps.same k live ∙ e, StandsOn-Keeps conts conts' k' stack n keeps s)

alloc-Keeps :
    (conts : ContArena) (kont : Kont) → IsWellFormed conts → Keeps conts (alloc kont conts).0
alloc-Keeps conts kont w = record {
  same = λ i live. get-alloc_live conts kont i w live;
  live = λ i live. IsLive-alloc_old conts kont i w live;
}

-- What one more allocation adds to a rebuilt stack.
record Rebuilt (conts : ContArena) (stack : List Kont) (n : ContId) (more : ℕ)
    (r : ContArena × ContId) : Type 0 where
  well : IsWellFormed r.0
  grows : length r.0.slots ≤ length conts.slots + more
  keeps : Keeps conts r.0
  stands : StandsOn r.0 r.1 stack n

push-Rebuilt :
    (conts : ContArena) (stack : List Kont) (n : ContId) (more : ℕ) (r : ContArena × ContId)
    (kont : Kont)
    → length conts.slots + suc more < 2 ^ 32
    → Rebuilt conts stack n more r
    → Rebuilt conts (kont ∷ stack) n (suc more) (rebuild_kont_with_k r.0 kont r.1)
unfolding rebuild_kont_with_k
push-Rebuilt conts stack n more (c, k) kont room b =
    let new = rebuilt kont k in
    let step = alloc-Keeps c new b.well in
    record {
      well = alloc-IsWellFormed c new b.well (omega (arith, b.grows));
      grows = omega (arith, b.grows, length-alloc c new);
      keeps = record {
        same = λ i live. step.same i (b.keeps.live i live) ∙ b.keeps.same i live;
        live = λ i live. step.live i (b.keeps.live i live);
      };
      stands = (
        k,
        IsLive-alloc_new c new b.well,
        get-alloc_new c new b.well,
        StandsOn-Keeps c (alloc new c).0 k stack n step b.stands,
      );
    }

unchanged-Rebuilt :
    (conts : ContArena) (n : ContId) → IsWellFormed conts → Rebuilt conts [] n 0 (conts, n)
unchanged-Rebuilt conts n w = record {
  well = w;
  grows = omega arith;
  keeps = record { same = λ i live. refl; live = λ i live. live };
  stands = refl;
}

rebuild_stack-Rebuilt :
    (conts : ContArena) (stack : List Kont) (h : Kont) (n : ContId)
    → IsWellFormed conts
    → length conts.slots + suc (length stack) < 2 ^ 32
    → Rebuilt conts
        (stack ++ h ∷ [])
        n
        (suc (length stack))
        (rebuild_stack stack (alloc (rebuilt h n) conts))
unfolding rebuild_stack rebuild_kont_with_k
rebuild_stack-Rebuilt conts [] h n w room =
    push-Rebuilt conts [] n 0 (conts, n) h (omega arith) (unchanged-Rebuilt conts n w)
rebuild_stack-Rebuilt conts (kont ∷ stack) h n w room =
    push-Rebuilt conts (stack ++ h ∷ []) n (suc (length stack))
      (rebuild_stack stack (alloc (rebuilt h n) conts)) kont (omega arith)
      (rebuild_stack-Rebuilt conts stack h n w (omega arith))

-- The frame where the walk goes on.
abbrev onward : Kont → Option ℕ
onward kont = elim (stops_capture kont) [ true ↦ none | false ↦ outer kont ]

stops-handler : (h : Kont) → is_handler h ≡ true → stops_capture h ≡ true
unfolding is_handler stops_capture
stops-handler (Kont.handler_k start count env body param k) e = refl
stops-handler _ e = cc

captured_here :
    (conts : ContArena) (fuel : ℕ) (k : ContId) (h : Kont)
    → get conts k ≡ some h
    → is_handler h ≡ true
    → 0 < fuel
    → captured fuel conts k ≡ some ([], h)
unfolding captured
captured_here conts zero k h e i le = absurd (omega arith)
captured_here conts (suc fuel) k h e i le = ground (arith, e, i, stops-handler h i)

captured_inner :
    (conts : ContArena) (fuel : ℕ) (k : ContId) (kont : Kont) (k' : ContId) (stack : List Kont)
    (h : Kont)
    → get conts k ≡ some kont
    → stops_capture kont ≡ false
    → outer kont ≡ some k'
    → captured fuel conts k' ≡ some (stack, h)
    → captured (suc fuel) conts k ≡ some (kont ∷ stack, h)
unfolding captured
captured_inner conts fuel k kont k' stack h e s o below = ground (arith, e, s, o, below)

-- The frames of the walk make a chain, and a round for each is enough.
walked :
    (conts : ContArena) {k : ContId} {stack : List Kont} {h : Kont}
    → Capture conts k stack h
    → (ids : List ℕ) × Links onward conts (some k) ids
      × ((fuel : ℕ) → length ids ≤ fuel → captured fuel conts k ≡ some (stack, h))
walked conts (handler {k} h e i) = (
  k ∷ [],
  frame h e (rw (stops-handler h i, onward) top),
  λ fuel le. captured_here conts fuel k h e i (omega arith),
)
walked conts (inner {k} kont k' {stack} {h} e s o rest) =
    let (ids, c, enough) = walked conts rest in
    (
      k ∷ ids,
      frame kont e (rw (s, o, onward) c),
      λ fuel le.
          elim fuel as (λ n. length (k ∷ ids) ≤ n → captured n conts k ≡ some (kont ∷ stack, h)) [
            | zero ↦ λ few. absurd (omega arith)
            | suc n ↦ λ few. captured_inner conts n k kont k' stack h e s o (enough n (omega arith))
          ]
            le,
    )

captured-Capture :
    (conts : ContArena) {k : ContId} {stack : List Kont} {h : Kont}
    → Capture conts k stack h
    → captured (suc (length conts.slots)) conts k ≡ some (stack, h)
captured-Capture conts c =
    let (ids, links, enough) = walked conts c in
    enough (suc (length conts.slots)) (omega (arith, length-Links onward conts links))

-- In a well-formed continuation arena with room for the copies, when the frames from k to the
-- nearest handler frame, whichever effects it handles, are the stack and then h,
-- rebase_continuation returns copies of these frames standing one on the other with the last on n;
-- the arena stays well formed, and a frame in use is as it was.
pub rebase_continuation-Capture :
    (conts : ContArena) (k n i : ContId) (stack : List Kont) (h : Kont)
    → IsWellFormed conts
    → length conts.slots + suc (length stack) < 2 ^ 32
    → Capture conts k stack h
    → IsLive conts i
    → StandsOn
        (rebase_continuation conts k n).0
        (rebase_continuation conts k n).1
        (stack ++ h ∷ [])
        n
      × IsWellFormed (rebase_continuation conts k n).0
      × (get (rebase_continuation conts k n).0 i ≡ get conts i)
unfolding rebase_continuation
rebase_continuation-Capture conts k n i stack h w room c live =
    let b = rebuild_stack-Rebuilt conts stack h n w room in
    rw (captured-Capture conts c) (b.stands, b.well, b.keeps.same i live)
