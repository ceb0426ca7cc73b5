-- ===== src/Value.antt =====
-- src/value.rs: the values of the language. Ids are their indices. An `i32` is its bit pattern, a
-- number below 2 ^ 32 in two's complement, and an `f64` its IEEE bit pattern, below 2 ^ 64.
use kryhtajs.Prelude.{
  ℕ, ◌^◌, ◌%◌, Bool, true, false, not, ◌&&◌, Option, none, some, ltb, ◌==◌, Text, ascii,
}

abbrev pub StrId : Type 0
StrId = ℕ

abbrev pub ObjId : Type 0
ObjId = ℕ

abbrev pub EnvId : Type 0
EnvId = ℕ

abbrev pub ContId : Type 0
ContId = ℕ

abbrev HandlerId : Type 0
HandlerId = ℕ

abbrev pub u32_max : ℕ
u32_max = 0xffff_ffff

pub data JsValue : Type 0 where
  undefined null : JsValue
  bool : Bool → JsValue
  int : ℕ → JsValue
  float : ℕ → JsValue
  string : StrId → JsValue
  object : ObjId → JsValue
  function : ObjId → JsValue
  array : ObjId → JsValue
  handler : HandlerId → JsValue
  continuation : ContId → EnvId → JsValue

-- The pattern without its sign bit; infinity's is the largest that is a number.
abbrev magnitude : ℕ → ℕ
magnitude bits = bits % 2 ^ 63

unfoldable pub is_nan : ℕ → Bool
is_nan bits = ltb 0x7ff0_0000_0000_0000 (magnitude bits)

-- `f == 0.0`, which both zeros satisfy.
unfoldable pub is_zero : ℕ → Bool
is_zero bits = magnitude bits == 0

unfoldable is_truthy : JsValue → Bool
unfolding is_nan is_zero
is_truthy undefined = false
is_truthy null = false
is_truthy (bool b) = b
is_truthy (int n) = not (n == 0)
is_truthy (float f) = not (is_zero f) && not (is_nan f)
is_truthy (string s) = not (s == 0)
is_truthy _ = true

unfoldable is_nullish : JsValue → Bool
is_nullish undefined = true
is_nullish null = true
is_nullish _ = false

unfoldable pub type_of : JsValue → Text
type_of undefined = ascii "undefined"
type_of null = ascii "object"
type_of (bool b) = ascii "boolean"
type_of (int n) = ascii "number"
type_of (float f) = ascii "number"
type_of (string s) = ascii "string"
type_of (object o) = ascii "object"
type_of (array o) = ascii "object"
type_of (function o) = ascii "function"
type_of (continuation k e) = ascii "function"
type_of (handler h) = ascii "handler"

unfoldable as_object : JsValue → Option ObjId
as_object (object id) = some id
as_object (array id) = some id
as_object (function id) = some id
as_object _ = none

unfoldable as_int : JsValue → Option ℕ
as_int (int n) = some n
as_int _ = none

unfoldable as_bool : JsValue → Option Bool
as_bool (bool b) = some b
as_bool _ = none
