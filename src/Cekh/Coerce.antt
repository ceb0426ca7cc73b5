-- ===== src/Cekh/Coerce.antt =====
-- src/cekh.rs: the conversions of values: `is_truthy`, `to_number`, `to_i32`, `to_string`,
-- `strict_equals`, `number_value`.
use kryhtajs.Prelude.{
  ℕ, ◌-◌, ◌^◌, Bool, true, false, not, ◌&&◌, Option, none, some, ltb, ◌==◌, Text, ascii, decimal,
  [], ◌++◌, if◌then◌else◌,
}
use kryhtajs.Value.{JsValue, is_nan, is_zero}
use kryhtajs.Floats.{Floats}
use kryhtajs.StringPool.{StringPool, get}

abbrev not_empty : Option Text → Bool
not_empty none = false
not_empty (some []) = false
not_empty (some s) = true

unfoldable pub is_truthy : StringPool → JsValue → Bool
unfolding is_nan is_zero
is_truthy strings JsValue.undefined = false
is_truthy strings JsValue.null = false
is_truthy strings (JsValue.bool b) = b
is_truthy strings (JsValue.int n) = not (n == 0)
is_truthy strings (JsValue.float f) = not (is_zero f) && not (is_nan f)
is_truthy strings (JsValue.string s) = not_empty (get strings s)
is_truthy strings _ = true

abbrev pub i32_sign : ℕ
i32_sign = 2 ^ 31

abbrev pub i32_max : ℕ
i32_max = 2 ^ 31 - 1

-- `1.0`
abbrev pub one : ℕ
one = 0x3ff0_0000_0000_0000

-- `n.to_string()` of an `i32`
unfoldable pub i32_text : ℕ → Text
i32_text n = if ltb n i32_sign then decimal n else ascii "-" ++ decimal (2 ^ 32 - n)

abbrev or_empty : Option Text → Text
or_empty none = []
or_empty (some s) = s

module _ ⦃fl : Floats⦄ where
  abbrev parsed : Option Text → ℕ
  parsed none = fl.nan
  parsed (some s) = elim (fl.parse s) [ none ↦ fl.nan | some f ↦ f ]

  unfoldable pub to_number : StringPool → JsValue → ℕ
  to_number strings JsValue.undefined = fl.nan
  to_number strings JsValue.null = 0
  to_number strings (JsValue.bool true) = one
  to_number strings (JsValue.bool false) = 0
  to_number strings (JsValue.int n) = fl.from_i32 n
  to_number strings (JsValue.float f) = f
  to_number strings (JsValue.string s) = parsed (get strings s)
  to_number strings _ = fl.nan

  unfoldable pub to_i32 : StringPool → JsValue → ℕ
  unfolding to_number
  to_i32 strings (JsValue.int n) = n
  to_i32 strings (JsValue.float f) = fl.as_i32 f
  to_i32 strings v = fl.as_i32 (to_number strings v)

  unfoldable float_text : ℕ → Text
  unfolding is_nan
  float_text f =
      if is_nan f
      then ascii "NaN"
      else if fl.is_infinite f
      then (if fl.lt 0 f then ascii "Infinity" else ascii "-Infinity")
      else fl.display_float f

  unfoldable pub to_string : StringPool → JsValue → Text
  unfolding i32_text float_text
  to_string strings JsValue.undefined = ascii "undefined"
  to_string strings JsValue.null = ascii "null"
  to_string strings (JsValue.bool true) = ascii "true"
  to_string strings (JsValue.bool false) = ascii "false"
  to_string strings (JsValue.int n) = i32_text n
  to_string strings (JsValue.float f) = float_text f
  to_string strings (JsValue.string s) = or_empty (get strings s)
  to_string strings (JsValue.object o) = ascii "[object Object]"
  to_string strings (JsValue.array o) = ascii "[object Array]"
  to_string strings (JsValue.function o) = ascii "[object Function]"
  to_string strings (JsValue.continuation k e) = ascii "[cont Continuation]"
  to_string strings (JsValue.handler h) = ascii "[handler Handler]"

  unfoldable pub strict_equals : JsValue → JsValue → Bool
  strict_equals JsValue.undefined JsValue.undefined = true
  strict_equals JsValue.null JsValue.null = true
  strict_equals (JsValue.bool true) (JsValue.bool b) = b
  strict_equals (JsValue.bool false) (JsValue.bool b) = not b
  strict_equals (JsValue.int a) (JsValue.int b) = a == b
  strict_equals (JsValue.float a) (JsValue.float b) = fl.eq a b
  strict_equals (JsValue.int a) (JsValue.float b) = fl.eq (fl.from_i32 a) b
  strict_equals (JsValue.float a) (JsValue.int b) = fl.eq a (fl.from_i32 b)
  strict_equals (JsValue.string a) (JsValue.string b) = a == b
  strict_equals (JsValue.object a) (JsValue.object b) = a == b
  strict_equals (JsValue.array a) (JsValue.array b) = a == b
  strict_equals (JsValue.function a) (JsValue.function b) = a == b
  strict_equals (JsValue.continuation a _) (JsValue.continuation b _) = a == b
  strict_equals (JsValue.handler a) (JsValue.handler b) = a == b
  strict_equals _ _ = false

  -- `number_value`, and `num_result` of src/builtins.rs, which is the same.
  unfoldable pub number_value : ℕ → JsValue
  unfolding is_zero
  number_value n =
      if is_zero (fl.fract n) && (fl.le (fl.from_i32 i32_sign) n && fl.le n (fl.from_i32 i32_max))
      then JsValue.int (fl.as_i32 n)
      else JsValue.float n
