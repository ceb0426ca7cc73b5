-- ===== src/Cekh/Push/Tops.antt =====
-- src/cekh.rs: a step that leaves the continuation as it is or puts one frame on it.
use kryhtajs.Prelude.{◌+◌, ◌^◌, ◌<◌, ◌≡◌, refl, some, ◌⊎◌, inl, inr, length, Result, ok, err}
use kryhtajs.Value.{ContId}
use kryhtajs.Ast.{ExprId}
use kryhtajs.Arena.{get, IsWellFormed, IsLive}
use kryhtajs.Arena.Live.{alloc-IsWellFormed, get-alloc_new, get-alloc_live}
use kryhtajs.Cont.{Kont, outer}
use kryhtajs.Cekh.State.{Control, Cekh}
use kryhtajs.Cekh.Push.{push, evaluate}

-- The machine stays on its frame or stands on one new frame on it; the continuations are well
-- formed, and the frame at `i` is as it was.
pub record Tops (m : Cekh) (i : ContId) (m' : Cekh) : Type 0 where
  pub well : IsWellFormed m'.conts
  pub same : get m'.conts i ≡ get m.conts i
  pub stands :
      (m'.cont ≡ m.cont)
      ⊎ ((kont : Kont) × (get m'.conts m'.cont ≡ some kont) × (outer kont ≡ some m.cont))

abbrev pub TopsOf : Cekh → ContId → Result Cekh → Type 0
TopsOf m i (ok m') = Tops m i m'
TopsOf m i (err e) = Unit

module _ (m : Cekh) (i : ContId) (w : IsWellFormed m.conts)
    (room : length m.conts.slots + 1 < 2 ^ 32) (live : IsLive m.conts i) where
  pub stay : (m' : Cekh) → m'.conts ≡ m.conts → m'.cont ≡ m.cont → Tops m i m'
  stay m' c k = record { well = rw c w; same = rw c refl; stands = inl k }

  pub push-Tops :
      (kont : Kont) (m' : Cekh)
      → m'.conts ≡ m.conts
      → outer kont ≡ some m.cont
      → Tops m i (push kont m')
  unfolding push
  push-Tops kont m' c below = record {
    well = rw c (alloc-IsWellFormed m.conts kont w room);
    same = rw c (get-alloc_live m.conts kont i w live);
    stands = inr (kont, rw c (get-alloc_new m.conts kont w), below);
  }

  pub evaluate-TopsOf :
      (e : ExprId) (kont : Kont) → outer kont ≡ some m.cont → TopsOf m i (evaluate e kont m)
  evaluate-TopsOf e kont below = push-Tops kont (record m { control = Control.expr e }) refl below
