-- ===== src/Snapshot/Konts/RoundTrip.antt =====
-- src/snapshot.rs: continuation frames survive a checkpoint.
use kryhtajs.Prelude.{◌≡◌, ◌++◌, append_assoc, arith, ok, nat_key}
use kryhtajs.Snapshot.Bytes.{Bytes}
use kryhtajs.Snapshot.Words.{u8_lem, u16_lem, u32_lem, bool_lem}
use kryhtajs.Snapshot.Values.{value_lem, seq_values_lem, entries_lem}
use kryhtajs.Snapshot.Ops.{binary_op_lem, unary_op_lem}
use kryhtajs.Cont.{Kont}
use kryhtajs.Snapshot.Konts.{write_kont, IsKont}
use kryhtajs.Snapshot.Konts.Read.{read_kont}

-- A continuation frame of any of the 41 kinds whose words fit their widths is read back as it was
-- written, and the reader stops where the frame ends, whatever bytes follow.
pub kont_lem :
    (x : Kont) → IsKont x → (rest : Bytes) → read_kont (write_kont x ++ rest) ≡ ok (x, rest)
unfolding write_kont read_kont
kont_lem Kont.halt fits rest = simp (u8_lem 0 (omega arith))
kont_lem (Kont.unary_k op k) fits rest =
    simp (append_assoc, u8_lem 1 (omega arith), unary_op_lem op, u32_lem k fits)
kont_lem (Kont.binary_left_k op right env k) fits rest = simp (
  append_assoc,
  u8_lem 2 (omega arith),
  binary_op_lem op,
  u32_lem right fits.0,
  u32_lem env fits.1,
  u32_lem k fits.2,
)
kont_lem (Kont.binary_right_k op left k) fits rest = simp (
  append_assoc,
  u8_lem 3 (omega arith),
  binary_op_lem op,
  value_lem left fits.0,
  u32_lem k fits.1,
)
kont_lem (Kont.and_k right env k) fits rest = simp (
  append_assoc,
  u8_lem 4 (omega arith),
  u32_lem right fits.0,
  u32_lem env fits.1,
  u32_lem k fits.2,
)
kont_lem (Kont.or_k right env k) fits rest = simp (
  append_assoc,
  u8_lem 5 (omega arith),
  u32_lem right fits.0,
  u32_lem env fits.1,
  u32_lem k fits.2,
)
kont_lem (Kont.nullish_k right env k) fits rest = simp (
  append_assoc,
  u8_lem 6 (omega arith),
  u32_lem right fits.0,
  u32_lem env fits.1,
  u32_lem k fits.2,
)
kont_lem (Kont.member_k property k) fits rest =
    simp (append_assoc, u8_lem 7 (omega arith), u32_lem property fits.0, u32_lem k fits.1)
kont_lem (Kont.index_obj_k index env k) fits rest = simp (
  append_assoc,
  u8_lem 8 (omega arith),
  u32_lem index fits.0,
  u32_lem env fits.1,
  u32_lem k fits.2,
)
kont_lem (Kont.index_key_k obj k) fits rest =
    simp (append_assoc, u8_lem 9 (omega arith), value_lem obj fits.0, u32_lem k fits.1)
kont_lem (Kont.assign_var_k name env k) fits rest = simp (
  append_assoc,
  u8_lem 10 (omega arith),
  u32_lem name fits.0,
  u32_lem env fits.1,
  u32_lem k fits.2,
)
kont_lem (Kont.update_var_k name is_pre is_inc env k) fits rest = simp (
  append_assoc,
  u8_lem 11 (omega arith),
  u32_lem name fits.0,
  bool_lem is_pre,
  bool_lem is_inc,
  u32_lem env fits.1,
  u32_lem k fits.2,
)
kont_lem (Kont.assign_member_obj_k property value env k) fits rest = simp (
  append_assoc,
  u8_lem 12 (omega arith),
  u32_lem property fits.0,
  u32_lem value fits.1,
  u32_lem env fits.2,
  u32_lem k fits.3,
)
kont_lem (Kont.assign_member_val_k obj property k) fits rest = simp (
  append_assoc,
  u8_lem 13 (omega arith),
  value_lem obj fits.0,
  u32_lem property fits.1,
  u32_lem k fits.2,
)
kont_lem (Kont.assign_index_obj_k index value env k) fits rest = simp (
  append_assoc,
  u8_lem 14 (omega arith),
  u32_lem index fits.0,
  u32_lem value fits.1,
  u32_lem env fits.2,
  u32_lem k fits.3,
)
kont_lem (Kont.assign_index_key_k obj value env k) fits rest = simp (
  append_assoc,
  u8_lem 15 (omega arith),
  value_lem obj fits.0,
  u32_lem value fits.1,
  u32_lem env fits.2,
  u32_lem k fits.3,
)
kont_lem (Kont.assign_index_val_k obj key k) fits rest = simp (
  append_assoc,
  u8_lem 16 (omega arith),
  value_lem obj fits.0,
  value_lem key fits.1,
  u32_lem k fits.2,
)
kont_lem (Kont.if_k consequent alternate env k) fits rest = simp (
  append_assoc,
  u8_lem 17 (omega arith),
  u32_lem consequent fits.0,
  u32_lem alternate fits.1,
  u32_lem env fits.2,
  u32_lem k fits.3,
)
kont_lem (Kont.cond_k consequent alternate env k) fits rest = simp (
  append_assoc,
  u8_lem 18 (omega arith),
  u32_lem consequent fits.0,
  u32_lem alternate fits.1,
  u32_lem env fits.2,
  u32_lem k fits.3,
)
kont_lem (Kont.while_k test body env k) fits rest = simp (
  append_assoc,
  u8_lem 19 (omega arith),
  u32_lem test fits.0,
  u32_lem body fits.1,
  u32_lem env fits.2,
  u32_lem k fits.3,
)
kont_lem (Kont.while_body_k test body env k) fits rest = simp (
  append_assoc,
  u8_lem 20 (omega arith),
  u32_lem test fits.0,
  u32_lem body fits.1,
  u32_lem env fits.2,
  u32_lem k fits.3,
)
kont_lem (Kont.for_test_k test update body env k) fits rest = simp (
  append_assoc,
  u8_lem 21 (omega arith),
  u32_lem test fits.0,
  u32_lem update fits.1,
  u32_lem body fits.2,
  u32_lem env fits.3,
  u32_lem k fits.4,
)
kont_lem (Kont.for_test_result_k test update body env k) fits rest = simp (
  append_assoc,
  u8_lem 22 (omega arith),
  u32_lem test fits.0,
  u32_lem update fits.1,
  u32_lem body fits.2,
  u32_lem env fits.3,
  u32_lem k fits.4,
)
kont_lem (Kont.for_body_k test update body env k) fits rest = simp (
  append_assoc,
  u8_lem 23 (omega arith),
  u32_lem test fits.0,
  u32_lem update fits.1,
  u32_lem body fits.2,
  u32_lem env fits.3,
  u32_lem k fits.4,
)
kont_lem (Kont.for_update_k test update body env k) fits rest = simp (
  append_assoc,
  u8_lem 24 (omega arith),
  u32_lem test fits.0,
  u32_lem update fits.1,
  u32_lem body fits.2,
  u32_lem env fits.3,
  u32_lem k fits.4,
)
kont_lem (Kont.callee_k args_start args_count env k) fits rest = simp (
  append_assoc,
  u8_lem 25 (omega arith),
  u32_lem args_start fits.0,
  u16_lem args_count fits.1,
  u32_lem env fits.2,
  u32_lem k fits.3,
)
kont_lem (Kont.args_k callee done args_start args_idx args_count env k) fits rest = simp (
  append_assoc,
  u8_lem 26 (omega arith),
  value_lem callee fits.0,
  seq_values_lem done fits.1,
  u32_lem args_start fits.2,
  u16_lem args_idx fits.3,
  u16_lem args_count fits.4,
  u32_lem env fits.5,
  u32_lem k fits.6,
)
kont_lem (Kont.return_k env k) fits rest =
    simp (append_assoc, u8_lem 27 (omega arith), u32_lem env fits.0, u32_lem k fits.1)
kont_lem (Kont.return_expr_k k) fits rest =
    simp (append_assoc, u8_lem 28 (omega arith), u32_lem k fits)
kont_lem (Kont.array_k done elems_start elems_idx elems_count env k) fits rest = simp (
  append_assoc,
  u8_lem 29 (omega arith),
  seq_values_lem done fits.0,
  u32_lem elems_start fits.1,
  u16_lem elems_idx fits.2,
  u16_lem elems_count fits.3,
  u32_lem env fits.4,
  u32_lem k fits.5,
)
kont_lem (Kont.object_k done props_start props_idx props_count env k) fits rest = simp (
  append_assoc,
  u8_lem 30 (omega arith),
  entries_lem done fits.0,
  u32_lem props_start fits.1,
  u16_lem props_idx fits.2,
  u16_lem props_count fits.3,
  u32_lem env fits.4,
  u32_lem k fits.5,
)
kont_lem (Kont.let_k name env k) fits rest = simp (
  append_assoc,
  u8_lem 31 (omega arith),
  u32_lem name fits.0,
  u32_lem env fits.1,
  u32_lem k fits.2,
)
kont_lem (Kont.const_k name env k) fits rest = simp (
  append_assoc,
  u8_lem 32 (omega arith),
  u32_lem name fits.0,
  u32_lem env fits.1,
  u32_lem k fits.2,
)
kont_lem (Kont.var_k name env k) fits rest = simp (
  append_assoc,
  u8_lem 33 (omega arith),
  u32_lem name fits.0,
  u32_lem env fits.1,
  u32_lem k fits.2,
)
kont_lem (Kont.seq_k stmts_start stmts_idx stmts_count env k) fits rest = simp (
  append_assoc,
  u8_lem 34 (omega arith),
  u32_lem stmts_start fits.0,
  u32_lem stmts_idx fits.1,
  u32_lem stmts_count fits.2,
  u32_lem env fits.3,
  u32_lem k fits.4,
)
kont_lem (Kont.expr_stmt_k k) fits rest =
    simp (append_assoc, u8_lem 35 (omega arith), u32_lem k fits)
kont_lem (Kont.block_k stmts_start stmts_idx stmts_count final_expr env k) fits rest = simp (
  append_assoc,
  u8_lem 36 (omega arith),
  u32_lem stmts_start fits.0,
  u32_lem stmts_idx fits.1,
  u32_lem stmts_count fits.2,
  u32_lem final_expr fits.3,
  u32_lem env fits.4,
  u32_lem k fits.5,
)
kont_lem (Kont.match_k arms_start arms_idx arms_count env k) fits rest = simp (
  append_assoc,
  u8_lem 37 (omega arith),
  u32_lem arms_start fits.0,
  u16_lem arms_idx fits.1,
  u16_lem arms_count fits.2,
  u32_lem env fits.3,
  u32_lem k fits.4,
)
kont_lem (Kont.handler_k clauses_start clauses_count env return_body return_param k) fits rest =
    simp (
      append_assoc,
      u8_lem 38 (omega arith),
      u32_lem clauses_start fits.0,
      u16_lem clauses_count fits.1,
      u32_lem env fits.2,
      u32_lem return_body fits.3,
      u32_lem return_param fits.4,
      u32_lem k fits.5,
    )
kont_lem (Kont.perform_args_k effect done args_start args_idx args_count env k) fits rest = simp (
  append_assoc,
  u8_lem 39 (omega arith),
  u32_lem effect fits.0,
  seq_values_lem done fits.1,
  u32_lem args_start fits.2,
  u16_lem args_idx fits.3,
  u16_lem args_count fits.4,
  u32_lem env fits.5,
  u32_lem k fits.6,
)
kont_lem (Kont.handle_with_k body env k) fits rest = simp (
  append_assoc,
  u8_lem 40 (omega arith),
  u32_lem body fits.0,
  u32_lem env fits.1,
  u32_lem k fits.2,
)
