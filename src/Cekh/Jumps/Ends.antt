-- ===== src/Cekh/Jumps/Ends.antt =====
-- src/cekh.rs: a jump succeeds exactly where the stack has a frame for it.
use kryhtajs.Prelude.{
  ◌≡◌, refl, ◌∙◌, Bool, Bool-cases, ◌⊎◌, inl, inr, true, false, none, some, List, Result, ok, err,
}
use kryhtajs.Value.{JsValue, EnvId, ContId}
use kryhtajs.Cont.{Kont, outer, is_loop}
use kryhtajs.Cekh.State.{Control, Cekh, ContArena}
use kryhtajs.Cekh.Walk.{Stack, missing, last, on, innermost, nearest-Stack}
use kryhtajs.Cekh.Jumps.{
  stops_return, return_at, handle_return, stops_loop, break_at, handle_break, break_outside_loop,
  continue_at, handle_continue, continue_outside_loop,
}
use kryhtajs.Cekh.Jumps.Targets.{break_at-loop}
use kryhtajs.Cekh.Jumps.Loops.{GoesOn, continue_at-GoesOn, stops_loop-outer, stops_loop-is_loop}

-- The frame of a call.
abbrev pub is_call : Kont → Bool
is_call (Kont.return_k env k) = true
is_call _ = false

-- What `break` and `continue` do on a stack: without a loop both are errors, and otherwise the
-- innermost loop is left, or goes on.
abbrev pub LoopJumps : List Kont → Cekh → Result Cekh → Result Cekh → Type 0
LoopJumps konts m broken continued =
    ((innermost is_loop konts ≡ none)
      × (broken ≡ err break_outside_loop)
      × (continued ≡ err continue_outside_loop))
    ⊎ ((loop : Kont) × (k : ContId) × (innermost is_loop konts ≡ some loop)
        × (outer loop ≡ some k)
        × (broken ≡ ok (record m { control = Control.value JsValue.undefined; cont = k }))
        × GoesOn loop m continued)

-- What a return does on a stack: without a call it halts the machine, and otherwise it goes on below
-- the innermost call, in its environment.
abbrev pub ReturnJump : List Kont → JsValue → Cekh → Cekh → Type 0
ReturnJump konts val m returned =
    ((innermost is_call konts ≡ none) × (returned ≡ record m { control = Control.halted val }))
    ⊎ ((env : EnvId) × (k : ContId) × (innermost is_call konts ≡ some (Kont.return_k env k))
        × (returned ≡ record m { env = env; cont = k; control = Control.value val }))

only_halt : (kont : Kont) → outer kont ≡ none → kont ≡ Kont.halt
unfolding outer
only_halt Kont.halt h = refl
only_halt _ h = cc

stops_return-outer :
    (kont : Kont) (k : ContId) → outer kont ≡ some k → stops_return kont ≡ is_call kont
unfolding stops_return outer
stops_return-outer Kont.halt k h = cc
stops_return-outer _ k h = refl

call_frame_of :
    (kont : Kont)
    → is_call kont ≡ true
    → (env : EnvId) × (k : ContId) × (kont ≡ Kont.return_k env k)
call_frame_of (Kont.return_k env k) h = (env, k, refl)
call_frame_of _ h = absurd cc

-- At the innermost frame that stops the walk.
loop_jumps :
    {conts : ContArena} {k : ContId} {konts : List Kont} (m : Cekh)
    → Stack conts k konts
    → LoopJumps konts m
        (break_at (innermost stops_loop konts) m)
        (continue_at (innermost stops_loop konts) m)
unfolding break_at continue_at stops_loop is_loop
loop_jumps m (missing e) = inl (refl, refl, refl)
loop_jumps m (last kont e o) = rw (only_halt kont o) (inl (refl, refl, refl))
loop_jumps m (on kont k' {konts} e o rest) = elim (Bool-cases (is_loop kont)) [
  | inl loop ↦
      rw (stops_loop-is_loop kont loop, loop)
        (inr (kont, k', refl, o, break_at-loop kont m k' loop o, continue_at-GoesOn kont m loop))
  | inr away ↦ rw (stops_loop-outer kont k' o ∙ away, away) (loop_jumps m rest)
]

return_jump :
    {conts : ContArena} {k : ContId} {konts : List Kont} (val : JsValue) (m : Cekh)
    → Stack conts k konts
    → ReturnJump konts val m (return_at (innermost stops_return konts) val m)
unfolding return_at stops_return
return_jump val m (missing e) = inl (refl, refl)
return_jump val m (last kont e o) = rw (only_halt kont o) (inl (refl, refl))
return_jump val m (on kont k' e o rest) = elim (Bool-cases (is_call kont)) [
  | inl call ↦ let (env, k, same) = call_frame_of kont call in rw same (inr (env, k, refl, refl))
  | inr away ↦ rw (stops_return-outer kont k' o ∙ away, away) (return_jump val m rest)
]

-- On a stack that ends, break and continue are their syntax errors exactly when no frame of the
-- stack is a loop's, and otherwise break leaves the innermost loop and continue goes on with its
-- next round; a return halts the machine with its value exactly when no frame of the stack is a
-- call's, and otherwise goes on below the innermost call in its environment.
pub jumps_on_stack :
    (m : Cekh) (val : JsValue) (konts : List Kont)
    → Stack m.conts m.cont konts
    → LoopJumps konts m (handle_break m) (handle_continue m)
      × ReturnJump konts val m (handle_return val m)
unfolding handle_break handle_continue handle_return
jumps_on_stack m val konts s = (
  rw (nearest-Stack m.conts stops_loop s) (loop_jumps m s),
  rw (nearest-Stack m.conts stops_return s) (return_jump val m s),
)
