-- ===== src/Snapshot/Controls.antt =====
-- src/snapshot.rs: the control of a fiber, by tag and fields.
pub mod RoundTrip
use kryhtajs.Prelude.{
  ℕ, zero, suc, ◌+◌, ◌^◌, ◌<◌, ◌≡◌, refl, Bool, true, false, Option, none, some, List, [], ◌∷◌,
  ◌++◌, append_assoc, arith, Text, ascii, decimal, message, Result, ok, err, length, All, ◌==◌,
  if◌then◌else◌, insert, nat_key, insert_all, map, length-append,
}
use kryhtajs.Snapshot.Bytes.{
  Bytes, Reader, ◌>>=◌, pure, fail, u8, u16, u32, u64, i32, f64, bool_, str_, read_u8, read_u16,
  read_u32, read_u64, read_i32, read_f64, read_bool_, read_str_, read_n, write_all,
}
use kryhtajs.Snapshot.Values.{
  write_value, read_value, IsValue, value_lem, write_seq_values, read_seq_values, IsValues,
  seq_values_lem, write_entries, read_entries, IsEntries, entries_lem, write_opt_u32, read_opt_u32,
  FitsOpt, opt_u32_lem,
}
use kryhtajs.Snapshot.Ops.{
  write_binary_op, read_binary_op, binary_op_lem, write_unary_op, read_unary_op, unary_op_lem,
}
use kryhtajs.Cekh.State.{Control}

unfoldable pub write_control : Control → Bytes
write_control (Control.expr e) = u8 0 ++ u32 e
write_control (Control.stmt s) = u8 1 ++ u32 s
write_control (Control.value v) = u8 2 ++ write_value v
write_control (Control.returning v) = u8 3 ++ write_value v
write_control (Control.halted v) = u8 4 ++ write_value v
write_control (Control.suspend effect args) = u8 5 ++ (u32 effect ++ write_seq_values args)

-- The words of a control fit their widths.
abbrev pub IsControl : Control → Type 0
IsControl (Control.expr e) = (e < 2 ^ 32)
IsControl (Control.stmt s) = (s < 2 ^ 32)
IsControl (Control.value v) = IsValue v
IsControl (Control.returning v) = IsValue v
IsControl (Control.halted v) = IsValue v
IsControl (Control.suspend effect args) = (effect < 2 ^ 32) × IsValues args

-- The arms of the match on the tag.
unfoldable control_of_tag : ℕ → Reader Control
control_of_tag tag =
    if tag == 0
    then (do e ← read_u32; pure (Control.expr e))
    else if tag == 1
    then (do s ← read_u32; pure (Control.stmt s))
    else if tag == 2
    then (do v ← read_value; pure (Control.value v))
    else if tag == 3
    then (do v ← read_value; pure (Control.returning v))
    else if tag == 4
    then (do v ← read_value; pure (Control.halted v))
    else if tag == 5
    then (do effect ← read_u32; args ← read_seq_values; pure (Control.suspend effect args))
    else fail (message (ascii "snapshot: bad control tag " ++ decimal tag))

unfoldable pub read_control : Reader Control
unfolding control_of_tag
read_control = do tag ← read_u8; control_of_tag tag
