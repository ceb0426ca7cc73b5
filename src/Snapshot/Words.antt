-- ===== src/Snapshot/Words.antt =====
-- src/snapshot.rs: what `ByteWriter` appends, `ByteReader` reads back, whatever follows.
use kryhtajs.Prelude.{
  ℕ, zero, suc, ◌*◌, ◌/◌, ◌^◌, ◌<◌, ◌≡◌, refl, Bool, true, false, List, [], ◌∷◌, ◌++◌, arith, Text,
  ok, length, append_assoc, All, take-append, drop-append, length-append,
}
use kryhtajs.Snapshot.Bytes.{
  Bytes, Reader, le_bytes, from_le_bytes, u8, u16, u32, u64, i32, f64, bool_, str_, take_bytes,
  read_u8, read_word, read_u16, read_u32, read_u64, read_i32, read_f64, read_bool_, is_utf8,
  read_str_, read_n, write_all,
}

-- The values that `w` bytes hold.
bound : ℕ → ℕ
bound zero = 1
bound (suc w) = 256 * bound w

from_le_bytes-le_bytes : (w n : ℕ) → n < bound w → from_le_bytes (le_bytes w n) ≡ n
unfolding from_le_bytes le_bytes bound
from_le_bytes-le_bytes zero n h = omega arith
from_le_bytes-le_bytes (suc w) n h = omega (arith, from_le_bytes-le_bytes w (n / 256) (omega arith))

length-le_bytes : (w n : ℕ) → length (le_bytes w n) ≡ w
unfolding le_bytes
length-le_bytes zero n = refl
length-le_bytes (suc w) n = omega (arith, length-le_bytes w (n / 256))

take_bytes-append : (xs rest : Bytes) → take_bytes (length xs) (xs ++ rest) ≡ ok (xs, rest)
unfolding take_bytes
take_bytes-append xs rest =
    ground (arith, take-append xs rest, drop-append xs rest, length-append xs rest)

read_word_lem :
    (w n : ℕ) (rest : Bytes) → n < bound w → read_word w (le_bytes w n ++ rest) ≡ ok (n, rest)
unfolding read_word
read_word_lem w n rest h =
    let taken = rw (length-le_bytes w n) at (take_bytes-append (le_bytes w n) rest) in
    rw (taken, from_le_bytes-le_bytes w n h)

pub u8_lem : (n : ℕ) → n < 256 → (rest : Bytes) → read_u8 (u8 n ++ rest) ≡ ok (n, rest)
unfolding read_u8 u8
u8_lem n h rest = ground arith

pub u16_lem : (n : ℕ) → n < 2 ^ 16 → (rest : Bytes) → read_u16 (u16 n ++ rest) ≡ ok (n, rest)
unfolding read_u16 u16 bound
u16_lem n h rest = read_word_lem 2 n rest h

pub u32_lem : (n : ℕ) → n < 2 ^ 32 → (rest : Bytes) → read_u32 (u32 n ++ rest) ≡ ok (n, rest)
unfolding read_u32 u32 bound
u32_lem n h rest = read_word_lem 4 n rest h

pub u64_lem : (n : ℕ) → n < 2 ^ 64 → (rest : Bytes) → read_u64 (u64 n ++ rest) ≡ ok (n, rest)
unfolding read_u64 u64 bound
u64_lem n h rest = read_word_lem 8 n rest h

pub i32_lem : (n : ℕ) → n < 2 ^ 32 → (rest : Bytes) → read_i32 (i32 n ++ rest) ≡ ok (n, rest)
unfolding read_i32 i32 bound
i32_lem n h rest = read_word_lem 4 n rest h

pub f64_lem : (n : ℕ) → n < 2 ^ 64 → (rest : Bytes) → read_f64 (f64 n ++ rest) ≡ ok (n, rest)
unfolding read_f64 f64 bound
f64_lem n h rest = read_word_lem 8 n rest h

pub bool_lem : (v : Bool) (rest : Bytes) → read_bool_ (bool_ v ++ rest) ≡ ok (v, rest)
unfolding read_bool_ bool_
bool_lem true rest = ground arith
bool_lem false rest = ground arith

-- The texts that a length-prefixed write can hold: valid UTF-8 of less than 4 GiB.
pub record IsText (s : Text) : Type 0 where
  pub utf8 : is_utf8 s ≡ true
  pub fits : length s < 2 ^ 32

-- A text of valid UTF-8 shorter than 2 ^ 32 bytes is read back as it was written, and the reader
-- stops where it ends.
pub str_lem : (s : Text) → IsText s → (rest : Bytes) → read_str_ (str_ s ++ rest) ≡ ok (s, rest)
unfolding read_str_ str_
str_lem s h rest = simp (u32_lem (length s) h.fits, take_bytes-append s rest, h.utf8)

-- Reading back each item of a list, whatever follows it.
pub read_n-write_all {ℓ} :
    {A : Type ℓ} (write : A → Bytes) (read : Reader A) (P : A → Type 0)
    → ((a : A) → P a → (rest : Bytes) → read (write a ++ rest) ≡ ok (a, rest))
    → (xs : List A) → All P xs
    → (rest : Bytes) → read_n (length xs) read (write_all write xs ++ rest) ≡ ok (xs, rest)
unfolding read_n write_all
read_n-write_all write read P one [] h rest = refl
read_n-write_all write read P one (x ∷ xs) h rest =
    simp (append_assoc, one x h.0, read_n-write_all write read P one xs h.1)
