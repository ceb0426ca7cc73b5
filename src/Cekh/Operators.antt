-- ===== src/Cekh/Operators.antt =====
-- src/cekh.rs: `apply_unary` and `apply_binary`.
use Prim.Native.Nat.{bit_and, bit_or, bit_xor}
use kryhtajs.Prelude.{
  ℕ, ◌+◌, ◌-◌, ◌*◌, ◌/◌, ◌%◌, ◌^◌, Bool, true, false, not, ◌||◌, Option, none, some, ltb, ◌++◌,
  if◌then◌else◌,
}
use kryhtajs.Value.{JsValue, type_of, u32_max}
use kryhtajs.Ast.{UnaryOp, BinaryOp}
use kryhtajs.Floats.{Floats}
use kryhtajs.StringPool.{StringPool, intern}
use kryhtajs.Cekh.Coerce.{
  is_truthy, to_number, to_i32, to_string, strict_equals, number_value, i32_sign, one,
}

-- `l << r`, `l >> r` and `(l as u32) >> r` on the patterns of `i32`.
unfoldable pub shl : ℕ → ℕ → ℕ
shl l r = (l * 2 ^ r) % 2 ^ 32

-- The sign fills the upper half of 64 bits before the shift.
unfoldable pub shr : ℕ → ℕ → ℕ
shr l r = if ltb l i32_sign then l / 2 ^ r else ((l + (2 ^ 64 - 2 ^ 32)) / 2 ^ r) % 2 ^ 32

unfoldable pub ushr : ℕ → ℕ → ℕ
ushr l r = l / 2 ^ r

abbrev is_string : JsValue → Bool
is_string (JsValue.string s) = true
is_string _ = false

abbrev interned : StringPool × ℕ → StringPool × JsValue
interned (strings, id) = (strings, JsValue.string id)

module _ ⦃fl : Floats⦄ where
  -- The result, and the pool, where `typeof` interns the name.
  unfoldable pub apply_unary : StringPool → UnaryOp → JsValue → StringPool × JsValue
  unfolding is_truthy to_number to_i32 number_value type_of intern
  apply_unary strings UnaryOp.neg v = (strings, JsValue.float (fl.neg (to_number strings v)))
  apply_unary strings UnaryOp.plus v = (strings, JsValue.float (to_number strings v))
  apply_unary strings UnaryOp.not v = (strings, JsValue.bool (not (is_truthy strings v)))
  apply_unary strings UnaryOp.bit_not v = (strings, JsValue.int (u32_max - to_i32 strings v))
  apply_unary strings UnaryOp.type_of v = interned (intern (type_of v) strings)
  apply_unary strings UnaryOp.pre_inc v = (strings, number_value (fl.add (to_number strings v) one))
  apply_unary strings UnaryOp.post_inc v =
      (strings, number_value (fl.add (to_number strings v) one))
  apply_unary strings UnaryOp.pre_dec v = (strings, number_value (fl.sub (to_number strings v) one))
  apply_unary strings UnaryOp.post_dec v =
      (strings, number_value (fl.sub (to_number strings v) one))

  abbrev on_numbers {ℓ} : {A : Type ℓ} → (ℕ → ℕ → A) → StringPool → JsValue → JsValue → A
  on_numbers f strings l r = f (to_number strings l) (to_number strings r)

  -- The pool as it was, and the result.
  abbrev kept : StringPool → JsValue → Option (StringPool × JsValue)
  kept strings v = some (strings, v)

  abbrev shifted : (ℕ → ℕ → ℕ) → StringPool → JsValue → JsValue → Option (StringPool × JsValue)
  shifted f strings l r =
      kept strings (JsValue.int (f (to_i32 strings l) (bit_and (to_i32 strings r) 0x1f)))

  abbrev bits : (ℕ → ℕ → ℕ) → StringPool → JsValue → JsValue → Option (StringPool × JsValue)
  bits f strings l r = kept strings (JsValue.int (f (to_i32 strings l) (to_i32 strings r)))

  unfoldable pub apply_add : StringPool → JsValue → JsValue → StringPool × JsValue
  unfolding to_number number_value to_string intern
  apply_add strings l r =
      if is_string l || is_string r
      then interned (intern (to_string strings l ++ to_string strings r) strings)
      else (strings, number_value (on_numbers fl.add strings l r))

  -- `none` where the source panics: the operators that `step_expr` handles.
  unfoldable pub apply_binary :
      StringPool → BinaryOp → JsValue → JsValue → Option (StringPool × JsValue)
  unfolding to_number to_i32 number_value strict_equals apply_add shl shr ushr
  apply_binary strings BinaryOp.add l r = some (apply_add strings l r)
  apply_binary strings BinaryOp.sub l r =
      kept strings (number_value (on_numbers fl.sub strings l r))
  apply_binary strings BinaryOp.mul l r =
      kept strings (number_value (on_numbers fl.mul strings l r))
  apply_binary strings BinaryOp.div l r =
      kept strings (JsValue.float (on_numbers fl.div strings l r))
  apply_binary strings BinaryOp.modulo l r =
      kept strings (JsValue.float (on_numbers fl.rem strings l r))
  apply_binary strings BinaryOp.pow l r =
      kept strings (JsValue.float (on_numbers fl.powf strings l r))
  apply_binary strings BinaryOp.eq l r = kept strings (JsValue.bool (strict_equals l r))
  apply_binary strings BinaryOp.ne l r = kept strings (JsValue.bool (not (strict_equals l r)))
  apply_binary strings BinaryOp.lt l r = kept strings (JsValue.bool (on_numbers fl.lt strings l r))
  apply_binary strings BinaryOp.le l r = kept strings (JsValue.bool (on_numbers fl.le strings l r))
  apply_binary strings BinaryOp.gt l r = kept strings (JsValue.bool (on_numbers fl.lt strings r l))
  apply_binary strings BinaryOp.ge l r = kept strings (JsValue.bool (on_numbers fl.le strings r l))
  apply_binary strings BinaryOp.bit_and l r = bits bit_and strings l r
  apply_binary strings BinaryOp.bit_or l r = bits bit_or strings l r
  apply_binary strings BinaryOp.bit_xor l r = bits bit_xor strings l r
  apply_binary strings BinaryOp.shl l r = shifted shl strings l r
  apply_binary strings BinaryOp.shr l r = shifted shr strings l r
  apply_binary strings BinaryOp.u_shr l r = shifted ushr strings l r
  apply_binary strings BinaryOp.and l r = none
  apply_binary strings BinaryOp.or l r = none
  apply_binary strings BinaryOp.nullish_coalesce l r = none
