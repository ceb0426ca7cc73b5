-- ===== src/Prelude/Errors.antt =====
-- src/error.rs: the errors of the engine, and `Result` with its `?` operator as bind. A text is
-- the list of its UTF-8 bytes.
use Prim.Native.Nat.{ℕ, zero, suc, ◌+◌, ◌/◌, ◌%◌}
use Prim.Native.String.{String}
use Prim.Native.Char.{code}
use mathlib.Core.Path.{◌≡◌, refl}
use mathlib.Core.List.{List, [], ◌∷◌, ◌++◌}
use kryhtajs.Prelude.Tests.{ltb, if◌then◌else◌}

abbrev pub Text : Type 0
Text = List ℕ

-- The bytes of an ASCII literal.
abbrev pub ascii : String → Text
ascii String.[] = []
ascii (String.◌∷◌ c s) = code c ∷ ascii s

decimal_digits : ℕ → ℕ → Text → Text
decimal_digits zero n tail = tail
decimal_digits (suc f) n tail =
    let digit = 48 + n % 10 in
    let rest = decimal_digits f (n / 10) (digit ∷ tail) in if ltb n 10 then digit ∷ tail else rest

-- `{}` of a number in `format!`; each round divides by ten, so `n + 1` rounds are enough.
unfoldable pub decimal : ℕ → Text
unfolding decimal_digits
decimal n = decimal_digits (suc n) n []

pub data JsError : Type 0 where
  syntax_error : Text → ℕ → ℕ → JsError
  type_error : Text → JsError
  reference_error : Text → JsError
  range_error : Text → JsError
  internal_error : Text → JsError
  message : Text → JsError
  out_of_memory stack_overflow : JsError

unfoldable pub display : JsError → Text
unfolding decimal
display (syntax_error m line column) =
    if ltb 0 line
    then ascii "SyntaxError: "
      ++ (m ++ (ascii " at " ++ (decimal line ++ (ascii ":" ++ decimal column))))
    else ascii "SyntaxError: " ++ m
display (type_error m) = ascii "TypeError: " ++ m
display (reference_error name) = ascii "ReferenceError: " ++ (name ++ ascii " is not defined")
display (range_error m) = ascii "RangeError: " ++ m
display (internal_error m) = ascii "InternalError: " ++ m
display (message m) = m
display out_of_memory = ascii "OutOfMemory"
display stack_overflow = ascii "StackOverflow"

pub data Result {ℓ} (A : Type ℓ) : Type ℓ where
  ok : A → Result A
  err : JsError → Result A

abbrev pub bind {ℓ κ} : {A : Type ℓ} {B : Type κ} → Result A → (A → Result B) → Result B
bind (ok a) f = f a
bind (err e) f = err e

decimal_1204 : decimal 1204 ≡ ascii "1204"
unfolding decimal
decimal_1204 = refl
