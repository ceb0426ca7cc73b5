-- ===== src/Snapshot/Values.antt =====
-- src/snapshot.rs: values, lists of values and bindings, and optional ids.
use kryhtajs.Prelude.{
  ℕ, ◌^◌, ◌<◌, ◌≡◌, Bool, true, false, Option, none, some, List, ◌++◌, append_assoc, arith, ascii,
  decimal, message, ok, length, All, ◌==◌, if◌then◌else◌, nat_key,
}
use kryhtajs.Snapshot.Bytes.{
  Bytes, Reader, ◌>>=◌, pure, fail, u8, u32, i32, f64, bool_, read_u8, read_u32, read_i32, read_f64,
  read_bool_, read_n, write_all,
}
use kryhtajs.Snapshot.Words.{u8_lem, u32_lem, i32_lem, f64_lem, bool_lem, read_n-write_all}
use kryhtajs.Value.{JsValue}

unfoldable pub write_value : JsValue → Bytes
write_value JsValue.undefined = u8 0
write_value JsValue.null = u8 1
write_value (JsValue.bool b) = u8 2 ++ bool_ b
write_value (JsValue.int n) = u8 3 ++ i32 n
write_value (JsValue.float f) = u8 4 ++ f64 f
write_value (JsValue.string s) = u8 5 ++ u32 s
write_value (JsValue.object o) = u8 6 ++ u32 o
write_value (JsValue.function o) = u8 7 ++ u32 o
write_value (JsValue.array o) = u8 8 ++ u32 o
write_value (JsValue.handler h) = u8 9 ++ u32 h
write_value (JsValue.continuation k e) = u8 10 ++ (u32 k ++ u32 e)

-- The words of a value fit their widths.
abbrev pub IsValue : JsValue → Type 0
IsValue JsValue.undefined = Unit
IsValue JsValue.null = Unit
IsValue (JsValue.bool b) = Unit
IsValue (JsValue.int n) = (n < 2 ^ 32)
IsValue (JsValue.float f) = (f < 2 ^ 64)
IsValue (JsValue.string s) = (s < 2 ^ 32)
IsValue (JsValue.object o) = (o < 2 ^ 32)
IsValue (JsValue.function o) = (o < 2 ^ 32)
IsValue (JsValue.array o) = (o < 2 ^ 32)
IsValue (JsValue.handler h) = (h < 2 ^ 32)
IsValue (JsValue.continuation k e) = (k < 2 ^ 32) × (e < 2 ^ 32)

-- The arms of the match on the tag.
unfoldable value_of_tag : ℕ → Reader JsValue
value_of_tag tag =
    if tag == 0
    then pure JsValue.undefined
    else if tag == 1
    then pure JsValue.null
    else if tag == 2
    then (do b ← read_bool_; pure (JsValue.bool b))
    else if tag == 3
    then (do n ← read_i32; pure (JsValue.int n))
    else if tag == 4
    then (do f ← read_f64; pure (JsValue.float f))
    else if tag == 5
    then (do s ← read_u32; pure (JsValue.string s))
    else if tag == 6
    then (do o ← read_u32; pure (JsValue.object o))
    else if tag == 7
    then (do o ← read_u32; pure (JsValue.function o))
    else if tag == 8
    then (do o ← read_u32; pure (JsValue.array o))
    else if tag == 9
    then (do h ← read_u32; pure (JsValue.handler h))
    else if tag == 10
    then (do k ← read_u32; e ← read_u32; pure (JsValue.continuation k e))
    else fail (message (ascii "snapshot: bad value tag " ++ decimal tag))

unfoldable pub read_value : Reader JsValue
unfolding value_of_tag
read_value = do tag ← read_u8; value_of_tag tag

-- A value of any kind whose words fit their widths is read back as it was written, and the reader
-- stops where it ends.
pub value_lem :
    (x : JsValue) → IsValue x → (rest : Bytes) → read_value (write_value x ++ rest) ≡ ok (x, rest)
unfolding write_value read_value
value_lem JsValue.undefined fits rest = simp (u8_lem 0 (omega arith))
value_lem JsValue.null fits rest = simp (u8_lem 1 (omega arith))
value_lem (JsValue.bool b) fits rest = simp (append_assoc, u8_lem 2 (omega arith), bool_lem b)
value_lem (JsValue.int n) fits rest = simp (append_assoc, u8_lem 3 (omega arith), i32_lem n fits)
value_lem (JsValue.float f) fits rest = simp (append_assoc, u8_lem 4 (omega arith), f64_lem f fits)
value_lem (JsValue.string s) fits rest = simp (append_assoc, u8_lem 5 (omega arith), u32_lem s fits)
value_lem (JsValue.object o) fits rest = simp (append_assoc, u8_lem 6 (omega arith), u32_lem o fits)
value_lem (JsValue.function o) fits rest =
    simp (append_assoc, u8_lem 7 (omega arith), u32_lem o fits)
value_lem (JsValue.array o) fits rest = simp (append_assoc, u8_lem 8 (omega arith), u32_lem o fits)
value_lem (JsValue.handler h) fits rest =
    simp (append_assoc, u8_lem 9 (omega arith), u32_lem h fits)
value_lem (JsValue.continuation k e) fits rest =
    simp (append_assoc, u8_lem 10 (omega arith), u32_lem k fits.0, u32_lem e fits.1)

unfoldable pub write_seq_values : List JsValue → Bytes
write_seq_values vs = u32 (length vs) ++ write_all write_value vs

unfoldable pub read_seq_values : Reader (List JsValue)
read_seq_values = do n ← read_u32; read_n n read_value

pub record IsValues (vs : List JsValue) : Type 0 where
  pub few : length vs < 2 ^ 32
  pub each : All IsValue vs

-- A sequence of fewer than 2 ^ 32 values whose words fit their widths is read back as it was
-- written, and the reader stops where it ends.
pub seq_values_lem :
    (vs : List JsValue)
    → IsValues vs
    → (rest : Bytes) → read_seq_values (write_seq_values vs ++ rest) ≡ ok (vs, rest)
unfolding write_seq_values read_seq_values
seq_values_lem vs fits rest = simp (
  append_assoc,
  u32_lem (length vs) fits.few,
  read_n-write_all write_value read_value IsValue value_lem vs fits.each,
)

-- A key and its value, as in a frame's bindings, the globals and a literal under evaluation.
abbrev write_entry : ℕ × JsValue → Bytes
write_entry (k, v) = u32 k ++ write_value v

abbrev read_entry : Reader (ℕ × JsValue)
read_entry = do k ← read_u32; v ← read_value; pure (k, v)

abbrev IsEntry : ℕ × JsValue → Type 0
IsEntry (k, v) = (k < 2 ^ 32) × IsValue v

entry_lem :
    (x : ℕ × JsValue)
    → IsEntry x
    → (rest : Bytes) → read_entry (write_entry x ++ rest) ≡ ok (x, rest)
entry_lem (k, v) fits rest = simp (append_assoc, u32_lem k fits.0, value_lem v fits.1)

unfoldable pub write_entries : List (ℕ × JsValue) → Bytes
write_entries kvs = u32 (length kvs) ++ write_all write_entry kvs

unfoldable pub read_entries : Reader (List (ℕ × JsValue))
read_entries = do n ← read_u32; read_n n read_entry

pub record IsEntries (kvs : List (ℕ × JsValue)) : Type 0 where
  pub few : length kvs < 2 ^ 32
  pub each : All IsEntry kvs

pub entries_lem :
    (kvs : List (ℕ × JsValue))
    → IsEntries kvs
    → (rest : Bytes) → read_entries (write_entries kvs ++ rest) ≡ ok (kvs, rest)
unfolding write_entries read_entries
entries_lem kvs fits rest = simp (
  append_assoc,
  u32_lem (length kvs) fits.few,
  read_n-write_all write_entry read_entry IsEntry entry_lem kvs fits.each,
)

unfoldable pub write_opt_u32 : Option ℕ → Bytes
write_opt_u32 (some x) = bool_ true ++ u32 x
write_opt_u32 none = bool_ false

abbrev opt_of_flag : Bool → Reader (Option ℕ)
opt_of_flag true = do x ← read_u32; pure (some x)
opt_of_flag false = pure none

unfoldable pub read_opt_u32 : Reader (Option ℕ)
read_opt_u32 = do flag ← read_bool_; opt_of_flag flag

abbrev pub FitsOpt : Option ℕ → Type 0
FitsOpt none = Unit
FitsOpt (some x) = x < 2 ^ 32

pub opt_u32_lem :
    (o : Option ℕ)
    → FitsOpt o
    → (rest : Bytes) → read_opt_u32 (write_opt_u32 o ++ rest) ≡ ok (o, rest)
unfolding write_opt_u32 read_opt_u32
opt_u32_lem none fits rest = simp (bool_lem false)
opt_u32_lem (some x) fits rest = simp (append_assoc, bool_lem true, u32_lem x fits)
