-- ===== src/Snapshot/Konts/Read.antt =====
-- src/snapshot.rs: the reader of continuation frames.
use kryhtajs.Prelude.{ℕ, ◌++◌, ascii, decimal, message, ◌==◌, if◌then◌else◌, nat_key}
use kryhtajs.Snapshot.Bytes.{Reader, ◌>>=◌, pure, fail, read_u8, read_u16, read_u32, read_bool_}
use kryhtajs.Snapshot.Values.{read_value, read_seq_values, read_entries}
use kryhtajs.Snapshot.Ops.{read_binary_op, read_unary_op}
use kryhtajs.Cont.{Kont}

-- The arms of the match on the tag.
unfoldable kont_of_tag : ℕ → Reader Kont
kont_of_tag tag =
    if tag == 0
    then pure Kont.halt
    else if tag == 1
    then (do op ← read_unary_op; k ← read_u32; pure (Kont.unary_k op k))
    else if tag == 2
    then (do
      op ← read_binary_op
      right ← read_u32
      env ← read_u32
      k ← read_u32
      pure (Kont.binary_left_k op right env k))
    else if tag == 3
    then (do
      op ← read_binary_op
      left ← read_value
      k ← read_u32
      pure (Kont.binary_right_k op left k))
    else if tag == 4
    then (do right ← read_u32; env ← read_u32; k ← read_u32; pure (Kont.and_k right env k))
    else if tag == 5
    then (do right ← read_u32; env ← read_u32; k ← read_u32; pure (Kont.or_k right env k))
    else if tag == 6
    then (do right ← read_u32; env ← read_u32; k ← read_u32; pure (Kont.nullish_k right env k))
    else if tag == 7
    then (do property ← read_u32; k ← read_u32; pure (Kont.member_k property k))
    else if tag == 8
    then (do index ← read_u32; env ← read_u32; k ← read_u32; pure (Kont.index_obj_k index env k))
    else if tag == 9
    then (do obj ← read_value; k ← read_u32; pure (Kont.index_key_k obj k))
    else if tag == 10
    then (do name ← read_u32; env ← read_u32; k ← read_u32; pure (Kont.assign_var_k name env k))
    else if tag == 11
    then (do
      name ← read_u32
      is_pre ← read_bool_
      is_inc ← read_bool_
      env ← read_u32
      k ← read_u32
      pure (Kont.update_var_k name is_pre is_inc env k))
    else if tag == 12
    then (do
      property ← read_u32
      value ← read_u32
      env ← read_u32
      k ← read_u32
      pure (Kont.assign_member_obj_k property value env k))
    else if tag == 13
    then (do
      obj ← read_value
      property ← read_u32
      k ← read_u32
      pure (Kont.assign_member_val_k obj property k))
    else if tag == 14
    then (do
      index ← read_u32
      value ← read_u32
      env ← read_u32
      k ← read_u32
      pure (Kont.assign_index_obj_k index value env k))
    else if tag == 15
    then (do
      obj ← read_value
      value ← read_u32
      env ← read_u32
      k ← read_u32
      pure (Kont.assign_index_key_k obj value env k))
    else if tag == 16
    then (do
      obj ← read_value
      key ← read_value
      k ← read_u32
      pure (Kont.assign_index_val_k obj key k))
    else if tag == 17
    then (do
      consequent ← read_u32
      alternate ← read_u32
      env ← read_u32
      k ← read_u32
      pure (Kont.if_k consequent alternate env k))
    else if tag == 18
    then (do
      consequent ← read_u32
      alternate ← read_u32
      env ← read_u32
      k ← read_u32
      pure (Kont.cond_k consequent alternate env k))
    else if tag == 19
    then (do
      test ← read_u32
      body ← read_u32
      env ← read_u32
      k ← read_u32
      pure (Kont.while_k test body env k))
    else if tag == 20
    then (do
      test ← read_u32
      body ← read_u32
      env ← read_u32
      k ← read_u32
      pure (Kont.while_body_k test body env k))
    else if tag == 21
    then (do
      test ← read_u32
      update ← read_u32
      body ← read_u32
      env ← read_u32
      k ← read_u32
      pure (Kont.for_test_k test update body env k))
    else if tag == 22
    then (do
      test ← read_u32
      update ← read_u32
      body ← read_u32
      env ← read_u32
      k ← read_u32
      pure (Kont.for_test_result_k test update body env k))
    else if tag == 23
    then (do
      test ← read_u32
      update ← read_u32
      body ← read_u32
      env ← read_u32
      k ← read_u32
      pure (Kont.for_body_k test update body env k))
    else if tag == 24
    then (do
      test ← read_u32
      update ← read_u32
      body ← read_u32
      env ← read_u32
      k ← read_u32
      pure (Kont.for_update_k test update body env k))
    else if tag == 25
    then (do
      args_start ← read_u32
      args_count ← read_u16
      env ← read_u32
      k ← read_u32
      pure (Kont.callee_k args_start args_count env k))
    else if tag == 26
    then (do
      callee ← read_value
      done ← read_seq_values
      args_start ← read_u32
      args_idx ← read_u16
      args_count ← read_u16
      env ← read_u32
      k ← read_u32
      pure (Kont.args_k callee done args_start args_idx args_count env k))
    else if tag == 27
    then (do env ← read_u32; k ← read_u32; pure (Kont.return_k env k))
    else if tag == 28
    then (do k ← read_u32; pure (Kont.return_expr_k k))
    else if tag == 29
    then (do
      done ← read_seq_values
      elems_start ← read_u32
      elems_idx ← read_u16
      elems_count ← read_u16
      env ← read_u32
      k ← read_u32
      pure (Kont.array_k done elems_start elems_idx elems_count env k))
    else if tag == 30
    then (do
      done ← read_entries
      props_start ← read_u32
      props_idx ← read_u16
      props_count ← read_u16
      env ← read_u32
      k ← read_u32
      pure (Kont.object_k done props_start props_idx props_count env k))
    else if tag == 31
    then (do name ← read_u32; env ← read_u32; k ← read_u32; pure (Kont.let_k name env k))
    else if tag == 32
    then (do name ← read_u32; env ← read_u32; k ← read_u32; pure (Kont.const_k name env k))
    else if tag == 33
    then (do name ← read_u32; env ← read_u32; k ← read_u32; pure (Kont.var_k name env k))
    else if tag == 34
    then (do
      stmts_start ← read_u32
      stmts_idx ← read_u32
      stmts_count ← read_u32
      env ← read_u32
      k ← read_u32
      pure (Kont.seq_k stmts_start stmts_idx stmts_count env k))
    else if tag == 35
    then (do k ← read_u32; pure (Kont.expr_stmt_k k))
    else if tag == 36
    then (do
      stmts_start ← read_u32
      stmts_idx ← read_u32
      stmts_count ← read_u32
      final_expr ← read_u32
      env ← read_u32
      k ← read_u32
      pure (Kont.block_k stmts_start stmts_idx stmts_count final_expr env k))
    else if tag == 37
    then (do
      arms_start ← read_u32
      arms_idx ← read_u16
      arms_count ← read_u16
      env ← read_u32
      k ← read_u32
      pure (Kont.match_k arms_start arms_idx arms_count env k))
    else if tag == 38
    then (do
      clauses_start ← read_u32
      clauses_count ← read_u16
      env ← read_u32
      return_body ← read_u32
      return_param ← read_u32
      k ← read_u32
      pure (Kont.handler_k clauses_start clauses_count env return_body return_param k))
    else if tag == 39
    then (do
      effect ← read_u32
      done ← read_seq_values
      args_start ← read_u32
      args_idx ← read_u16
      args_count ← read_u16
      env ← read_u32
      k ← read_u32
      pure (Kont.perform_args_k effect done args_start args_idx args_count env k))
    else if tag == 40
    then (do body ← read_u32; env ← read_u32; k ← read_u32; pure (Kont.handle_with_k body env k))
    else fail (message (ascii "snapshot: bad kont tag " ++ decimal tag))

unfoldable pub read_kont : Reader Kont
unfolding kont_of_tag
read_kont = do tag ← read_u8; kont_of_tag tag
