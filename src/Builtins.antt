-- ===== src/Builtins.antt =====
-- src/builtins.rs: the native functions.
use kryhtajs.Prelude.{ℕ, true, false, ◌||◌, if◌then◌else◌}
use kryhtajs.Value.{JsValue, is_nan, is_zero, u32_max}
use kryhtajs.Floats.{Floats}
use kryhtajs.Object.{NativeFn}
use kryhtajs.Cekh.Coerce.{number_value, one}

-- `0.5`
abbrev half : ℕ
half = 0x3fe0_0000_0000_0000

module _ ⦃fl : Floats⦄ where
  -- A text is no number here, unlike in `CEKH::to_number`.
  unfoldable to_number : JsValue → ℕ
  to_number JsValue.undefined = fl.nan
  to_number JsValue.null = 0
  to_number (JsValue.bool true) = one
  to_number (JsValue.bool false) = 0
  to_number (JsValue.int n) = fl.from_i32 n
  to_number (JsValue.float f) = f
  to_number _ = fl.nan

  unfoldable call_sign : ℕ → JsValue
  unfolding is_nan is_zero
  call_sign n =
      if is_nan n
      then JsValue.float fl.nan
      else if is_zero n
      then JsValue.int 0
      else if fl.lt 0 n
      then JsValue.int 1
      else JsValue.int u32_max

  abbrev unless_nan : ℕ → ℕ → JsValue → JsValue
  unless_nan n0 n1 v = if is_nan n0 || is_nan n1 then JsValue.float fl.nan else v

  unfoldable call_on : NativeFn → ℕ → ℕ → JsValue
  unfolding number_value call_sign is_nan
  call_on NativeFn.math_floor n0 n1 = number_value (fl.floor n0)
  call_on NativeFn.math_ceil n0 n1 = number_value (fl.ceil n0)
  call_on NativeFn.math_round n0 n1 = number_value (fl.floor (fl.add n0 half))
  call_on NativeFn.math_abs n0 n1 = number_value (fl.abs n0)
  call_on NativeFn.math_sqrt n0 n1 = number_value (fl.sqrt n0)
  call_on NativeFn.math_pow n0 n1 = number_value (fl.powf n0 n1)
  call_on NativeFn.math_min n0 n1 = unless_nan n0 n1 (number_value (fl.least n0 n1))
  call_on NativeFn.math_max n0 n1 = unless_nan n0 n1 (number_value (fl.greatest n0 n1))
  call_on NativeFn.math_sin n0 n1 = number_value (fl.sin n0)
  call_on NativeFn.math_cos n0 n1 = number_value (fl.cos n0)
  call_on NativeFn.math_log n0 n1 = number_value (fl.ln n0)
  call_on NativeFn.math_exp n0 n1 = number_value (fl.exp n0)
  call_on NativeFn.math_trunc n0 n1 = number_value (fl.trunc n0)
  call_on NativeFn.math_sign n0 n1 = call_sign n0

  unfoldable pub call_native : NativeFn → JsValue → JsValue → JsValue
  unfolding call_on to_number
  call_native f arg0 arg1 = call_on f (to_number arg0) (to_number arg1)
