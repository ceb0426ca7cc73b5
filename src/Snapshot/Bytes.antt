-- ===== src/Snapshot/Bytes.antt =====
-- src/snapshot.rs, `ByteWriter` and `ByteReader`: little-endian words and length-prefixed texts. A
-- write is the bytes that it appends to the buffer. A reader stands as the bytes from `pos` on, and
-- a read returns what is left of them; an error ends the whole read.
use kryhtajs.Prelude.{
  ℕ, zero, suc, ◌+◌, ◌*◌, ◌/◌, ◌%◌, Bool, true, false, not, ◌&&◌, Option, none, some, List, [], ◌∷◌,
  ◌++◌, Text, ascii, JsError, message, Result, ok, err, bind, length, take, drop, ltb, leb, ◌==◌,
  if◌then◌else◌,
}

abbrev pub Bytes : Type 0
Bytes = List ℕ

abbrev pub Reader {ℓ} : Type ℓ → Type ℓ
Reader A = Bytes → Result (A × Bytes)

module _ {ℓ κ} {A : Type ℓ} {B : Type κ} where
  infixl 5 ◌>>=◌
  abbrev pub ◌>>=◌ : Reader A → (A → Reader B) → Reader B
  p >>= f = λ r. bind (p r) λ (a, rest). f a rest

abbrev pub pure {ℓ} : {A : Type ℓ} → A → Reader A
pure a r = ok (a, r)

abbrev pub fail {ℓ} : {A : Type ℓ} → JsError → Reader A
fail e r = err e

-- `to_le_bytes` of a word of `w` bytes, and `from_le_bytes`.
unfoldable pub le_bytes : ℕ → ℕ → Bytes
le_bytes zero n = []
le_bytes (suc w) n = (n % 256) ∷ le_bytes w (n / 256)

unfoldable pub from_le_bytes : Bytes → ℕ
from_le_bytes [] = 0
from_le_bytes (b ∷ bs) = b + 256 * from_le_bytes bs

unfoldable pub u8 : ℕ → Bytes
u8 n = (n % 256) ∷ []

unfoldable pub u16 : ℕ → Bytes
unfolding le_bytes
u16 = le_bytes 2

unfoldable pub u32 : ℕ → Bytes
unfolding le_bytes
u32 = le_bytes 4

unfoldable pub u64 : ℕ → Bytes
unfolding le_bytes
u64 = le_bytes 8

unfoldable pub i32 : ℕ → Bytes
unfolding le_bytes
i32 = le_bytes 4

unfoldable pub f64 : ℕ → Bytes
unfolding le_bytes
f64 = le_bytes 8

abbrev bit : Bool → ℕ
bit true = 1
bit false = 0

unfoldable pub bool_ : Bool → Bytes
bool_ v = bit v ∷ []

unfoldable pub str_ : Text → Bytes
unfolding u32
str_ s = u32 (length s) ++ s

pub truncated : JsError
truncated = message (ascii "snapshot: truncated input")

-- `take` of the reader; an overflow of `pos + n` gives the same error.
unfoldable pub take_bytes : ℕ → Reader Bytes
take_bytes n r = if ltb (length r) n then err truncated else ok (take n r, drop n r)

abbrev head_or_zero : Bytes → ℕ
head_or_zero [] = 0
head_or_zero (b ∷ bs) = b

unfoldable pub read_u8 : Reader ℕ
unfolding take_bytes
read_u8 = do bytes ← take_bytes 1; pure (head_or_zero bytes)

unfoldable pub read_word : ℕ → Reader ℕ
read_word w = do bytes ← take_bytes w; pure (from_le_bytes bytes)

unfoldable pub read_u16 : Reader ℕ
unfolding read_word
read_u16 = read_word 2

unfoldable pub read_u32 : Reader ℕ
unfolding read_word
read_u32 = read_word 4

unfoldable pub read_u64 : Reader ℕ
unfolding read_word
read_u64 = read_word 8

unfoldable pub read_i32 : Reader ℕ
unfolding read_word
read_i32 = read_word 4

unfoldable pub read_f64 : Reader ℕ
unfolding read_word
read_f64 = read_word 8

unfoldable pub read_bool_ : Reader Bool
unfolding read_u8
read_bool_ = do b ← read_u8; pure (not (b == 0))

-- What follows the first byte of a UTF-8 sequence: how many bytes, and the range of the next one.
abbrev lead : ℕ → Option (ℕ × ℕ × ℕ)
lead b =
    if leb b 0x7f
    then some (0, 0x80, 0xbf)
    else if ltb b 0xc2
    then none
    else if leb b 0xdf
    then some (1, 0x80, 0xbf)
    else if b == 0xe0
    then some (2, 0xa0, 0xbf)
    else if b == 0xed
    then some (2, 0x80, 0x9f)
    else if leb b 0xef
    then some (2, 0x80, 0xbf)
    else if b == 0xf0
    then some (3, 0x90, 0xbf)
    else if leb b 0xf3
    then some (3, 0x80, 0xbf)
    else if b == 0xf4
    then some (3, 0x80, 0x8f)
    else none

utf8_from : ℕ → ℕ → ℕ → Bytes → Bool
utf8_from need lo hi [] = need == 0
utf8_from zero lo hi (b ∷ bs) = elim (lead b) [
  | none ↦ false
  | some (need, lo', hi') ↦ utf8_from need lo' hi' bs
]
utf8_from (suc need) lo hi (b ∷ bs) =
    let rest = utf8_from need 0x80 0xbf bs in if leb lo b && leb b hi then rest else false

-- `String::from_utf8` accepts the bytes.
unfoldable pub is_utf8 : Bytes → Bool
unfolding utf8_from
is_utf8 = utf8_from 0 0x80 0xbf

unfoldable pub read_str_ : Reader Text
unfolding read_u32 take_bytes is_utf8
read_str_ = do
  len ← read_u32
  bytes ← take_bytes len
  if is_utf8 bytes then pure bytes else fail (message (ascii "snapshot: invalid UTF-8"))

-- `for _ in 0..n { out.push(read(r)?) }`
unfoldable pub read_n {ℓ} : {A : Type ℓ} → ℕ → Reader A → Reader (List A)
read_n zero read = pure []
read_n (suc n) read = do a ← read; rest ← read_n n read; pure (a ∷ rest)

-- `for v in vs { write(w, v) }`
unfoldable pub write_all {ℓ} : {A : Type ℓ} → (A → Bytes) → List A → Bytes
write_all write [] = []
write_all write (x ∷ xs) = write x ++ write_all write xs
