-- ===== src/Floats.antt =====
-- The `f64` operations of the language's standard library that src/cekh.rs and src/builtins.rs
-- call, on bit patterns. They are not this repository's code, so they are a parameter.
use kryhtajs.Prelude.{ℕ, Bool, Option, Text}

pub record Floats : Type 0 where
  pub nan : ℕ
  pub add : ℕ → ℕ → ℕ
  pub sub : ℕ → ℕ → ℕ
  pub mul : ℕ → ℕ → ℕ
  pub div : ℕ → ℕ → ℕ
  pub rem : ℕ → ℕ → ℕ
  pub powf : ℕ → ℕ → ℕ
  pub neg : ℕ → ℕ
  pub eq : ℕ → ℕ → Bool
  pub lt : ℕ → ℕ → Bool
  pub le : ℕ → ℕ → Bool
  pub is_infinite : ℕ → Bool
  -- `n as f64` and `f as i32`
  pub from_i32 : ℕ → ℕ
  pub as_i32 : ℕ → ℕ
  pub fract : ℕ → ℕ
  pub floor : ℕ → ℕ
  pub ceil : ℕ → ℕ
  pub trunc : ℕ → ℕ
  pub abs : ℕ → ℕ
  pub sqrt : ℕ → ℕ
  pub sin : ℕ → ℕ
  pub cos : ℕ → ℕ
  pub ln : ℕ → ℕ
  pub exp : ℕ → ℕ
  pub least : ℕ → ℕ → ℕ
  pub greatest : ℕ → ℕ → ℕ
  -- `s.trim().parse::<f64>().ok()` and `f.to_string()`
  pub parse : Text → Option ℕ
  pub display_float : ℕ → Text
