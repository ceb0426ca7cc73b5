-- ===== src/Cekh/Jumps/Targets.antt =====
-- src/cekh.rs: the frame at which a return or a `break` goes on.
use kryhtajs.Prelude.{◌≡◌, refl, true, some, ok}
use kryhtajs.Value.{JsValue, EnvId, ContId}
use kryhtajs.Cont.{Kont, outer, is_loop}
use kryhtajs.Cekh.State.{Control, Cekh}
use kryhtajs.Cekh.Walk.{Nearest, nearest-Nearest}
use kryhtajs.Cekh.Jumps.{stops_return, handle_return, stops_loop, break_at, handle_break}

-- When the nearest call or halt frame is a call's frame with env on k, handle_return goes on at k
-- in env with the value, everything else unchanged.
pub handle_return-Nearest :
    (m : Cekh) (val : JsValue) (env : EnvId) (k : ContId)
    → Nearest stops_return m.conts m.cont (Kont.return_k env k)
    → handle_return val m ≡ record m { env = env; cont = k; control = Control.value val }
unfolding handle_return
handle_return-Nearest m val env k n = rw (nearest-Nearest stops_return m.conts n) refl

pub break_at-loop :
    (kont : Kont) (m : Cekh) (k : ContId)
    → is_loop kont ≡ true
    → outer kont ≡ some k
    → break_at (some kont) m ≡ ok (record m { control = Control.value JsValue.undefined; cont = k })
unfolding break_at is_loop outer
break_at-loop (Kont.while_k test body env j) m k loop below = cc
break_at-loop (Kont.while_body_k test body env j) m k loop below = cc
break_at-loop (Kont.for_test_k test update body env j) m k loop below = cc
break_at-loop (Kont.for_test_result_k test update body env j) m k loop below = cc
break_at-loop (Kont.for_body_k test update body env j) m k loop below = cc
break_at-loop (Kont.for_update_k test update body env j) m k loop below = cc
break_at-loop _ m k loop below = cc

-- When the nearest loop or halt frame is a loop's frame on k, handle_break succeeds and the machine
-- goes on at k with undefined, everything else unchanged.
pub handle_break-Nearest :
    (m : Cekh) (kont : Kont) (k : ContId)
    → Nearest stops_loop m.conts m.cont kont
    → is_loop kont ≡ true
    → outer kont ≡ some k
    → handle_break m ≡ ok (record m { control = Control.value JsValue.undefined; cont = k })
unfolding handle_break
handle_break-Nearest m kont k n loop below =
    rw (nearest-Nearest stops_loop m.conts n) (break_at-loop kont m k loop below)
