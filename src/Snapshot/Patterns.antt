-- ===== src/Snapshot/Patterns.antt =====
-- src/snapshot.rs: patterns, by tag and fields.
pub mod RoundTrip
use kryhtajs.Prelude.{
  ℕ, zero, suc, ◌+◌, ◌^◌, ◌<◌, ◌≡◌, refl, Bool, true, false, Option, none, some, List, [], ◌∷◌,
  ◌++◌, append_assoc, arith, Text, ascii, decimal, message, Result, ok, err, length, All, ◌==◌,
  if◌then◌else◌, insert, nat_key, insert_all, map, length-append,
}
use kryhtajs.Snapshot.Bytes.{
  Bytes, Reader, ◌>>=◌, pure, fail, u8, u16, u32, u64, i32, f64, bool_, str_, read_u8, read_u16,
  read_u32, read_u64, read_i32, read_f64, read_bool_, read_str_, read_n, write_all,
}
use kryhtajs.Snapshot.Values.{
  write_value, read_value, IsValue, value_lem, write_seq_values, read_seq_values, IsValues,
  seq_values_lem, write_entries, read_entries, IsEntries, entries_lem, write_opt_u32, read_opt_u32,
  FitsOpt, opt_u32_lem,
}
use kryhtajs.Snapshot.Ops.{
  write_binary_op, read_binary_op, binary_op_lem, write_unary_op, read_unary_op, unary_op_lem,
}
use kryhtajs.Ast.{Pattern}

unfoldable pub write_pattern : Pattern → Bytes
write_pattern Pattern.wildcard = u8 0
write_pattern (Pattern.literal e) = u8 1 ++ u32 e
write_pattern (Pattern.var s) = u8 2 ++ u32 s
write_pattern (Pattern.array elems_start elems_count) = u8 3 ++ (u32 elems_start ++ u16 elems_count)
write_pattern (Pattern.object fields_start fields_count) =
    u8 4 ++ (u32 fields_start ++ u16 fields_count)

-- The words of a pattern fit their widths.
abbrev pub IsPattern : Pattern → Type 0
IsPattern Pattern.wildcard = Unit
IsPattern (Pattern.literal e) = (e < 2 ^ 32)
IsPattern (Pattern.var s) = (s < 2 ^ 32)
IsPattern (Pattern.array elems_start elems_count) = (elems_start < 2 ^ 32) × (elems_count < 2 ^ 16)
IsPattern (Pattern.object fields_start fields_count) =
    (fields_start < 2 ^ 32) × (fields_count < 2 ^ 16)

-- The arms of the match on the tag.
unfoldable pattern_of_tag : ℕ → Reader Pattern
pattern_of_tag tag =
    if tag == 0
    then pure Pattern.wildcard
    else if tag == 1
    then (do e ← read_u32; pure (Pattern.literal e))
    else if tag == 2
    then (do s ← read_u32; pure (Pattern.var s))
    else if tag == 3
    then (do
      elems_start ← read_u32
      elems_count ← read_u16
      pure (Pattern.array elems_start elems_count))
    else if tag == 4
    then (do
      fields_start ← read_u32
      fields_count ← read_u16
      pure (Pattern.object fields_start fields_count))
    else fail (message (ascii "snapshot: bad pattern tag " ++ decimal tag))

unfoldable pub read_pattern : Reader Pattern
unfolding pattern_of_tag
read_pattern = do tag ← read_u8; pattern_of_tag tag
