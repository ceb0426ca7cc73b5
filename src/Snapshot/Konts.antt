-- ===== src/Snapshot/Konts.antt =====
-- src/snapshot.rs: continuation frames, by tag and fields; Read has the reader.
pub mod Read
pub mod RoundTrip
use kryhtajs.Prelude.{
  ℕ, zero, suc, ◌+◌, ◌^◌, ◌<◌, ◌≡◌, refl, Bool, true, false, Option, none, some, List, [], ◌∷◌,
  ◌++◌, append_assoc, arith, Text, ascii, decimal, message, Result, ok, err, length, All, ◌==◌,
  if◌then◌else◌, insert, nat_key, insert_all, map, length-append,
}
use kryhtajs.Snapshot.Bytes.{
  Bytes, Reader, ◌>>=◌, pure, fail, u8, u16, u32, u64, i32, f64, bool_, str_, read_u8, read_u16,
  read_u32, read_u64, read_i32, read_f64, read_bool_, read_str_, read_n, write_all,
}
use kryhtajs.Snapshot.Values.{
  write_value, read_value, IsValue, value_lem, write_seq_values, read_seq_values, IsValues,
  seq_values_lem, write_entries, read_entries, IsEntries, entries_lem, write_opt_u32, read_opt_u32,
  FitsOpt, opt_u32_lem,
}
use kryhtajs.Snapshot.Ops.{
  write_binary_op, read_binary_op, binary_op_lem, write_unary_op, read_unary_op, unary_op_lem,
}
use kryhtajs.Cont.{Kont}

unfoldable pub write_kont : Kont → Bytes
write_kont Kont.halt = u8 0
write_kont (Kont.unary_k op k) = u8 1 ++ (write_unary_op op ++ u32 k)
write_kont (Kont.binary_left_k op right env k) =
    u8 2 ++ (write_binary_op op ++ (u32 right ++ (u32 env ++ u32 k)))
write_kont (Kont.binary_right_k op left k) =
    u8 3 ++ (write_binary_op op ++ (write_value left ++ u32 k))
write_kont (Kont.and_k right env k) = u8 4 ++ (u32 right ++ (u32 env ++ u32 k))
write_kont (Kont.or_k right env k) = u8 5 ++ (u32 right ++ (u32 env ++ u32 k))
write_kont (Kont.nullish_k right env k) = u8 6 ++ (u32 right ++ (u32 env ++ u32 k))
write_kont (Kont.member_k property k) = u8 7 ++ (u32 property ++ u32 k)
write_kont (Kont.index_obj_k index env k) = u8 8 ++ (u32 index ++ (u32 env ++ u32 k))
write_kont (Kont.index_key_k obj k) = u8 9 ++ (write_value obj ++ u32 k)
write_kont (Kont.assign_var_k name env k) = u8 10 ++ (u32 name ++ (u32 env ++ u32 k))
write_kont (Kont.update_var_k name is_pre is_inc env k) =
    u8 11 ++ (u32 name ++ (bool_ is_pre ++ (bool_ is_inc ++ (u32 env ++ u32 k))))
write_kont (Kont.assign_member_obj_k property value env k) =
    u8 12 ++ (u32 property ++ (u32 value ++ (u32 env ++ u32 k)))
write_kont (Kont.assign_member_val_k obj property k) =
    u8 13 ++ (write_value obj ++ (u32 property ++ u32 k))
write_kont (Kont.assign_index_obj_k index value env k) =
    u8 14 ++ (u32 index ++ (u32 value ++ (u32 env ++ u32 k)))
write_kont (Kont.assign_index_key_k obj value env k) =
    u8 15 ++ (write_value obj ++ (u32 value ++ (u32 env ++ u32 k)))
write_kont (Kont.assign_index_val_k obj key k) =
    u8 16 ++ (write_value obj ++ (write_value key ++ u32 k))
write_kont (Kont.if_k consequent alternate env k) =
    u8 17 ++ (u32 consequent ++ (u32 alternate ++ (u32 env ++ u32 k)))
write_kont (Kont.cond_k consequent alternate env k) =
    u8 18 ++ (u32 consequent ++ (u32 alternate ++ (u32 env ++ u32 k)))
write_kont (Kont.while_k test body env k) = u8 19 ++ (u32 test ++ (u32 body ++ (u32 env ++ u32 k)))
write_kont (Kont.while_body_k test body env k) =
    u8 20 ++ (u32 test ++ (u32 body ++ (u32 env ++ u32 k)))
write_kont (Kont.for_test_k test update body env k) =
    u8 21 ++ (u32 test ++ (u32 update ++ (u32 body ++ (u32 env ++ u32 k))))
write_kont (Kont.for_test_result_k test update body env k) =
    u8 22 ++ (u32 test ++ (u32 update ++ (u32 body ++ (u32 env ++ u32 k))))
write_kont (Kont.for_body_k test update body env k) =
    u8 23 ++ (u32 test ++ (u32 update ++ (u32 body ++ (u32 env ++ u32 k))))
write_kont (Kont.for_update_k test update body env k) =
    u8 24 ++ (u32 test ++ (u32 update ++ (u32 body ++ (u32 env ++ u32 k))))
write_kont (Kont.callee_k args_start args_count env k) =
    u8 25 ++ (u32 args_start ++ (u16 args_count ++ (u32 env ++ u32 k)))
write_kont (Kont.args_k callee done args_start args_idx args_count env k) =
    u8 26
    ++ (write_value callee
        ++ (write_seq_values done
            ++ (u32 args_start ++ (u16 args_idx ++ (u16 args_count ++ (u32 env ++ u32 k))))))
write_kont (Kont.return_k env k) = u8 27 ++ (u32 env ++ u32 k)
write_kont (Kont.return_expr_k k) = u8 28 ++ u32 k
write_kont (Kont.array_k done elems_start elems_idx elems_count env k) =
    u8 29
    ++ (write_seq_values done
        ++ (u32 elems_start ++ (u16 elems_idx ++ (u16 elems_count ++ (u32 env ++ u32 k)))))
write_kont (Kont.object_k done props_start props_idx props_count env k) =
    u8 30
    ++ (write_entries done
        ++ (u32 props_start ++ (u16 props_idx ++ (u16 props_count ++ (u32 env ++ u32 k)))))
write_kont (Kont.let_k name env k) = u8 31 ++ (u32 name ++ (u32 env ++ u32 k))
write_kont (Kont.const_k name env k) = u8 32 ++ (u32 name ++ (u32 env ++ u32 k))
write_kont (Kont.var_k name env k) = u8 33 ++ (u32 name ++ (u32 env ++ u32 k))
write_kont (Kont.seq_k stmts_start stmts_idx stmts_count env k) =
    u8 34 ++ (u32 stmts_start ++ (u32 stmts_idx ++ (u32 stmts_count ++ (u32 env ++ u32 k))))
write_kont (Kont.expr_stmt_k k) = u8 35 ++ u32 k
write_kont (Kont.block_k stmts_start stmts_idx stmts_count final_expr env k) =
    u8 36
    ++ (u32 stmts_start
        ++ (u32 stmts_idx ++ (u32 stmts_count ++ (u32 final_expr ++ (u32 env ++ u32 k)))))
write_kont (Kont.match_k arms_start arms_idx arms_count env k) =
    u8 37 ++ (u32 arms_start ++ (u16 arms_idx ++ (u16 arms_count ++ (u32 env ++ u32 k))))
write_kont (Kont.handler_k clauses_start clauses_count env return_body return_param k) =
    u8 38
    ++ (u32 clauses_start
        ++ (u16 clauses_count ++ (u32 env ++ (u32 return_body ++ (u32 return_param ++ u32 k)))))
write_kont (Kont.perform_args_k effect done args_start args_idx args_count env k) =
    u8 39
    ++ (u32 effect
        ++ (write_seq_values done
            ++ (u32 args_start ++ (u16 args_idx ++ (u16 args_count ++ (u32 env ++ u32 k))))))
write_kont (Kont.handle_with_k body env k) = u8 40 ++ (u32 body ++ (u32 env ++ u32 k))

-- The words of a frame fit their widths.
abbrev pub IsKont : Kont → Type 0
IsKont Kont.halt = Unit
IsKont (Kont.unary_k op k) = (k < 2 ^ 32)
IsKont (Kont.binary_left_k op right env k) = (right < 2 ^ 32) × (env < 2 ^ 32) × (k < 2 ^ 32)
IsKont (Kont.binary_right_k op left k) = IsValue left × (k < 2 ^ 32)
IsKont (Kont.and_k right env k) = (right < 2 ^ 32) × (env < 2 ^ 32) × (k < 2 ^ 32)
IsKont (Kont.or_k right env k) = (right < 2 ^ 32) × (env < 2 ^ 32) × (k < 2 ^ 32)
IsKont (Kont.nullish_k right env k) = (right < 2 ^ 32) × (env < 2 ^ 32) × (k < 2 ^ 32)
IsKont (Kont.member_k property k) = (property < 2 ^ 32) × (k < 2 ^ 32)
IsKont (Kont.index_obj_k index env k) = (index < 2 ^ 32) × (env < 2 ^ 32) × (k < 2 ^ 32)
IsKont (Kont.index_key_k obj k) = IsValue obj × (k < 2 ^ 32)
IsKont (Kont.assign_var_k name env k) = (name < 2 ^ 32) × (env < 2 ^ 32) × (k < 2 ^ 32)
IsKont (Kont.update_var_k name is_pre is_inc env k) =
    (name < 2 ^ 32) × (env < 2 ^ 32) × (k < 2 ^ 32)
IsKont (Kont.assign_member_obj_k property value env k) =
    (property < 2 ^ 32) × (value < 2 ^ 32) × (env < 2 ^ 32) × (k < 2 ^ 32)
IsKont (Kont.assign_member_val_k obj property k) = IsValue obj × (property < 2 ^ 32) × (k < 2 ^ 32)
IsKont (Kont.assign_index_obj_k index value env k) =
    (index < 2 ^ 32) × (value < 2 ^ 32) × (env < 2 ^ 32) × (k < 2 ^ 32)
IsKont (Kont.assign_index_key_k obj value env k) =
    IsValue obj × (value < 2 ^ 32) × (env < 2 ^ 32) × (k < 2 ^ 32)
IsKont (Kont.assign_index_val_k obj key k) = IsValue obj × IsValue key × (k < 2 ^ 32)
IsKont (Kont.if_k consequent alternate env k) =
    (consequent < 2 ^ 32) × (alternate < 2 ^ 32) × (env < 2 ^ 32) × (k < 2 ^ 32)
IsKont (Kont.cond_k consequent alternate env k) =
    (consequent < 2 ^ 32) × (alternate < 2 ^ 32) × (env < 2 ^ 32) × (k < 2 ^ 32)
IsKont (Kont.while_k test body env k) =
    (test < 2 ^ 32) × (body < 2 ^ 32) × (env < 2 ^ 32) × (k < 2 ^ 32)
IsKont (Kont.while_body_k test body env k) =
    (test < 2 ^ 32) × (body < 2 ^ 32) × (env < 2 ^ 32) × (k < 2 ^ 32)
IsKont (Kont.for_test_k test update body env k) =
    (test < 2 ^ 32) × (update < 2 ^ 32) × (body < 2 ^ 32) × (env < 2 ^ 32) × (k < 2 ^ 32)
IsKont (Kont.for_test_result_k test update body env k) =
    (test < 2 ^ 32) × (update < 2 ^ 32) × (body < 2 ^ 32) × (env < 2 ^ 32) × (k < 2 ^ 32)
IsKont (Kont.for_body_k test update body env k) =
    (test < 2 ^ 32) × (update < 2 ^ 32) × (body < 2 ^ 32) × (env < 2 ^ 32) × (k < 2 ^ 32)
IsKont (Kont.for_update_k test update body env k) =
    (test < 2 ^ 32) × (update < 2 ^ 32) × (body < 2 ^ 32) × (env < 2 ^ 32) × (k < 2 ^ 32)
IsKont (Kont.callee_k args_start args_count env k) =
    (args_start < 2 ^ 32) × (args_count < 2 ^ 16) × (env < 2 ^ 32) × (k < 2 ^ 32)
IsKont (Kont.args_k callee done args_start args_idx args_count env k) =
    IsValue callee
    × IsValues done
    × (args_start < 2 ^ 32)
    × (args_idx < 2 ^ 16)
    × (args_count < 2 ^ 16)
    × (env < 2 ^ 32)
    × (k < 2 ^ 32)
IsKont (Kont.return_k env k) = (env < 2 ^ 32) × (k < 2 ^ 32)
IsKont (Kont.return_expr_k k) = (k < 2 ^ 32)
IsKont (Kont.array_k done elems_start elems_idx elems_count env k) =
    IsValues done
    × (elems_start < 2 ^ 32)
    × (elems_idx < 2 ^ 16)
    × (elems_count < 2 ^ 16)
    × (env < 2 ^ 32)
    × (k < 2 ^ 32)
IsKont (Kont.object_k done props_start props_idx props_count env k) =
    IsEntries done
    × (props_start < 2 ^ 32)
    × (props_idx < 2 ^ 16)
    × (props_count < 2 ^ 16)
    × (env < 2 ^ 32)
    × (k < 2 ^ 32)
IsKont (Kont.let_k name env k) = (name < 2 ^ 32) × (env < 2 ^ 32) × (k < 2 ^ 32)
IsKont (Kont.const_k name env k) = (name < 2 ^ 32) × (env < 2 ^ 32) × (k < 2 ^ 32)
IsKont (Kont.var_k name env k) = (name < 2 ^ 32) × (env < 2 ^ 32) × (k < 2 ^ 32)
IsKont (Kont.seq_k stmts_start stmts_idx stmts_count env k) =
    (stmts_start < 2 ^ 32)
    × (stmts_idx < 2 ^ 32)
    × (stmts_count < 2 ^ 32)
    × (env < 2 ^ 32)
    × (k < 2 ^ 32)
IsKont (Kont.expr_stmt_k k) = (k < 2 ^ 32)
IsKont (Kont.block_k stmts_start stmts_idx stmts_count final_expr env k) =
    (stmts_start < 2 ^ 32)
    × (stmts_idx < 2 ^ 32)
    × (stmts_count < 2 ^ 32)
    × (final_expr < 2 ^ 32)
    × (env < 2 ^ 32)
    × (k < 2 ^ 32)
IsKont (Kont.match_k arms_start arms_idx arms_count env k) =
    (arms_start < 2 ^ 32)
    × (arms_idx < 2 ^ 16)
    × (arms_count < 2 ^ 16)
    × (env < 2 ^ 32)
    × (k < 2 ^ 32)
IsKont (Kont.handler_k clauses_start clauses_count env return_body return_param k) =
    (clauses_start < 2 ^ 32)
    × (clauses_count < 2 ^ 16)
    × (env < 2 ^ 32)
    × (return_body < 2 ^ 32)
    × (return_param < 2 ^ 32)
    × (k < 2 ^ 32)
IsKont (Kont.perform_args_k effect done args_start args_idx args_count env k) =
    (effect < 2 ^ 32)
    × IsValues done
    × (args_start < 2 ^ 32)
    × (args_idx < 2 ^ 16)
    × (args_count < 2 ^ 16)
    × (env < 2 ^ 32)
    × (k < 2 ^ 32)
IsKont (Kont.handle_with_k body env k) = (body < 2 ^ 32) × (env < 2 ^ 32) × (k < 2 ^ 32)
