-- ===== src/Examples/Numbers.antt =====
-- A stand-in for the `f64` operations: whole numbers, with none of the special values.
use kryhtajs.Prelude.{◌+◌, ◌-◌, ◌*◌, ◌/◌, ◌%◌, ◌^◌, false, none, ltb, leb, ◌==◌, min, max, decimal}
use kryhtajs.Floats.{Floats}

instance abbrev pub whole_floats : Floats
whole_floats = record {
  nan = 0x7ff8_0000_0000_0000;
  add = λ a b. a + b;
  sub = λ a b. a - b;
  mul = λ a b. a * b;
  div = λ a b. a / b;
  rem = λ a b. a % b;
  powf = λ a b. a ^ b;
  neg = λ a. a;
  eq = λ a b. a == b;
  lt = ltb;
  le = leb;
  is_infinite = λ a. false;
  from_i32 = λ n. n;
  as_i32 = λ a. a;
  fract = λ a. 0;
  floor = λ a. a;
  ceil = λ a. a;
  trunc = λ a. a;
  abs = λ a. a;
  sqrt = λ a. a;
  sin = λ a. a;
  cos = λ a. a;
  ln = λ a. a;
  exp = λ a. a;
  least = min;
  greatest = max;
  parse = λ s. none;
  display_float = decimal;
}
