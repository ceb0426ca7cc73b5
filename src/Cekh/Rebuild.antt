-- ===== src/Cekh/Rebuild.antt =====
-- src/cekh.rs, `rebuild_kont_with_k`: a copy of a frame on another frame below.
use kryhtajs.Prelude.{◌≡◌, refl, some}
use kryhtajs.Value.{ContId}
use kryhtajs.Arena.{alloc}
use kryhtajs.Cont.{Kont, outer}
use kryhtajs.Cekh.State.{ContArena}

-- The match of the source.
unfoldable pub rebuilt : Kont → ContId → Kont
rebuilt Kont.halt n = Kont.halt
rebuilt (Kont.unary_k op k) n = Kont.unary_k op n
rebuilt (Kont.binary_left_k op right env k) n = Kont.binary_left_k op right env n
rebuilt (Kont.binary_right_k op left k) n = Kont.binary_right_k op left n
rebuilt (Kont.and_k right env k) n = Kont.and_k right env n
rebuilt (Kont.or_k right env k) n = Kont.or_k right env n
rebuilt (Kont.nullish_k right env k) n = Kont.nullish_k right env n
rebuilt (Kont.member_k property k) n = Kont.member_k property n
rebuilt (Kont.index_obj_k index env k) n = Kont.index_obj_k index env n
rebuilt (Kont.index_key_k obj k) n = Kont.index_key_k obj n
rebuilt (Kont.assign_var_k name env k) n = Kont.assign_var_k name env n
rebuilt (Kont.update_var_k name is_pre is_inc env k) n = Kont.update_var_k name is_pre is_inc env n
rebuilt (Kont.assign_member_obj_k property value env k) n =
    Kont.assign_member_obj_k property value env n
rebuilt (Kont.assign_member_val_k obj property k) n = Kont.assign_member_val_k obj property n
rebuilt (Kont.assign_index_obj_k index value env k) n = Kont.assign_index_obj_k index value env n
rebuilt (Kont.assign_index_key_k obj value env k) n = Kont.assign_index_key_k obj value env n
rebuilt (Kont.assign_index_val_k obj key k) n = Kont.assign_index_val_k obj key n
rebuilt (Kont.if_k consequent alternate env k) n = Kont.if_k consequent alternate env n
rebuilt (Kont.cond_k consequent alternate env k) n = Kont.cond_k consequent alternate env n
rebuilt (Kont.while_k test body env k) n = Kont.while_k test body env n
rebuilt (Kont.while_body_k test body env k) n = Kont.while_body_k test body env n
rebuilt (Kont.for_test_k test update body env k) n = Kont.for_test_k test update body env n
rebuilt (Kont.for_test_result_k test update body env k) n =
    Kont.for_test_result_k test update body env n
rebuilt (Kont.for_body_k test update body env k) n = Kont.for_body_k test update body env n
rebuilt (Kont.for_update_k test update body env k) n = Kont.for_update_k test update body env n
rebuilt (Kont.callee_k args_start args_count env k) n = Kont.callee_k args_start args_count env n
rebuilt (Kont.args_k callee done args_start args_idx args_count env k) n =
    Kont.args_k callee done args_start args_idx args_count env n
rebuilt (Kont.return_k env k) n = Kont.return_k env n
rebuilt (Kont.return_expr_k k) n = Kont.return_expr_k n
rebuilt (Kont.array_k done elems_start elems_idx elems_count env k) n =
    Kont.array_k done elems_start elems_idx elems_count env n
rebuilt (Kont.object_k done props_start props_idx props_count env k) n =
    Kont.object_k done props_start props_idx props_count env n
rebuilt (Kont.let_k name env k) n = Kont.let_k name env n
rebuilt (Kont.const_k name env k) n = Kont.const_k name env n
rebuilt (Kont.var_k name env k) n = Kont.var_k name env n
rebuilt (Kont.seq_k stmts_start stmts_idx stmts_count env k) n =
    Kont.seq_k stmts_start stmts_idx stmts_count env n
rebuilt (Kont.expr_stmt_k k) n = Kont.expr_stmt_k n
rebuilt (Kont.block_k stmts_start stmts_idx stmts_count final_expr env k) n =
    Kont.block_k stmts_start stmts_idx stmts_count final_expr env n
rebuilt (Kont.match_k arms_start arms_idx arms_count env k) n =
    Kont.match_k arms_start arms_idx arms_count env n
rebuilt (Kont.handler_k clauses_start clauses_count env return_body return_param k) n =
    Kont.handler_k clauses_start clauses_count env return_body return_param n
rebuilt (Kont.perform_args_k effect done args_start args_idx args_count env k) n =
    Kont.perform_args_k effect done args_start args_idx args_count env n
rebuilt (Kont.handle_with_k body env k) n = Kont.handle_with_k body env n

unfoldable pub rebuild_kont_with_k : ContArena → Kont → ContId → ContArena × ContId
rebuild_kont_with_k conts kont new_k = alloc (rebuilt kont new_k) conts

-- A rebuilt frame stands on the new frame.
outer-rebuilt : (kont : Kont) (k n : ContId) → outer kont ≡ some k → outer (rebuilt kont n) ≡ some n
unfolding outer rebuilt
outer-rebuilt Kont.halt j n h = cc
outer-rebuilt (Kont.unary_k op k) j n h = refl
outer-rebuilt (Kont.binary_left_k op right env k) j n h = refl
outer-rebuilt (Kont.binary_right_k op left k) j n h = refl
outer-rebuilt (Kont.and_k right env k) j n h = refl
outer-rebuilt (Kont.or_k right env k) j n h = refl
outer-rebuilt (Kont.nullish_k right env k) j n h = refl
outer-rebuilt (Kont.member_k property k) j n h = refl
outer-rebuilt (Kont.index_obj_k index env k) j n h = refl
outer-rebuilt (Kont.index_key_k obj k) j n h = refl
outer-rebuilt (Kont.assign_var_k name env k) j n h = refl
outer-rebuilt (Kont.update_var_k name is_pre is_inc env k) j n h = refl
outer-rebuilt (Kont.assign_member_obj_k property value env k) j n h = refl
outer-rebuilt (Kont.assign_member_val_k obj property k) j n h = refl
outer-rebuilt (Kont.assign_index_obj_k index value env k) j n h = refl
outer-rebuilt (Kont.assign_index_key_k obj value env k) j n h = refl
outer-rebuilt (Kont.assign_index_val_k obj key k) j n h = refl
outer-rebuilt (Kont.if_k consequent alternate env k) j n h = refl
outer-rebuilt (Kont.cond_k consequent alternate env k) j n h = refl
outer-rebuilt (Kont.while_k test body env k) j n h = refl
outer-rebuilt (Kont.while_body_k test body env k) j n h = refl
outer-rebuilt (Kont.for_test_k test update body env k) j n h = refl
outer-rebuilt (Kont.for_test_result_k test update body env k) j n h = refl
outer-rebuilt (Kont.for_body_k test update body env k) j n h = refl
outer-rebuilt (Kont.for_update_k test update body env k) j n h = refl
outer-rebuilt (Kont.callee_k args_start args_count env k) j n h = refl
outer-rebuilt (Kont.args_k callee done args_start args_idx args_count env k) j n h = refl
outer-rebuilt (Kont.return_k env k) j n h = refl
outer-rebuilt (Kont.return_expr_k k) j n h = refl
outer-rebuilt (Kont.array_k done elems_start elems_idx elems_count env k) j n h = refl
outer-rebuilt (Kont.object_k done props_start props_idx props_count env k) j n h = refl
outer-rebuilt (Kont.let_k name env k) j n h = refl
outer-rebuilt (Kont.const_k name env k) j n h = refl
outer-rebuilt (Kont.var_k name env k) j n h = refl
outer-rebuilt (Kont.seq_k stmts_start stmts_idx stmts_count env k) j n h = refl
outer-rebuilt (Kont.expr_stmt_k k) j n h = refl
outer-rebuilt (Kont.block_k stmts_start stmts_idx stmts_count final_expr env k) j n h = refl
outer-rebuilt (Kont.match_k arms_start arms_idx arms_count env k) j n h = refl
outer-rebuilt (Kont.handler_k clauses_start clauses_count env return_body return_param k) j n h =
    refl
outer-rebuilt (Kont.perform_args_k effect done args_start args_idx args_count env k) j n h = refl
outer-rebuilt (Kont.handle_with_k body env k) j n h = refl

-- Rebuilding on the old frame gives the old frame back.
rebuilt_twice :
    (kont : Kont) (k n : ContId) → outer kont ≡ some k → rebuilt (rebuilt kont n) k ≡ kont
unfolding outer rebuilt
rebuilt_twice Kont.halt j n h = cc
rebuilt_twice (Kont.unary_k op k) j n h = cc
rebuilt_twice (Kont.binary_left_k op right env k) j n h = cc
rebuilt_twice (Kont.binary_right_k op left k) j n h = cc
rebuilt_twice (Kont.and_k right env k) j n h = cc
rebuilt_twice (Kont.or_k right env k) j n h = cc
rebuilt_twice (Kont.nullish_k right env k) j n h = cc
rebuilt_twice (Kont.member_k property k) j n h = cc
rebuilt_twice (Kont.index_obj_k index env k) j n h = cc
rebuilt_twice (Kont.index_key_k obj k) j n h = cc
rebuilt_twice (Kont.assign_var_k name env k) j n h = cc
rebuilt_twice (Kont.update_var_k name is_pre is_inc env k) j n h = cc
rebuilt_twice (Kont.assign_member_obj_k property value env k) j n h = cc
rebuilt_twice (Kont.assign_member_val_k obj property k) j n h = cc
rebuilt_twice (Kont.assign_index_obj_k index value env k) j n h = cc
rebuilt_twice (Kont.assign_index_key_k obj value env k) j n h = cc
rebuilt_twice (Kont.assign_index_val_k obj key k) j n h = cc
rebuilt_twice (Kont.if_k consequent alternate env k) j n h = cc
rebuilt_twice (Kont.cond_k consequent alternate env k) j n h = cc
rebuilt_twice (Kont.while_k test body env k) j n h = cc
rebuilt_twice (Kont.while_body_k test body env k) j n h = cc
rebuilt_twice (Kont.for_test_k test update body env k) j n h = cc
rebuilt_twice (Kont.for_test_result_k test update body env k) j n h = cc
rebuilt_twice (Kont.for_body_k test update body env k) j n h = cc
rebuilt_twice (Kont.for_update_k test update body env k) j n h = cc
rebuilt_twice (Kont.callee_k args_start args_count env k) j n h = cc
rebuilt_twice (Kont.args_k callee done args_start args_idx args_count env k) j n h = cc
rebuilt_twice (Kont.return_k env k) j n h = cc
rebuilt_twice (Kont.return_expr_k k) j n h = cc
rebuilt_twice (Kont.array_k done elems_start elems_idx elems_count env k) j n h = cc
rebuilt_twice (Kont.object_k done props_start props_idx props_count env k) j n h = cc
rebuilt_twice (Kont.let_k name env k) j n h = cc
rebuilt_twice (Kont.const_k name env k) j n h = cc
rebuilt_twice (Kont.var_k name env k) j n h = cc
rebuilt_twice (Kont.seq_k stmts_start stmts_idx stmts_count env k) j n h = cc
rebuilt_twice (Kont.expr_stmt_k k) j n h = cc
rebuilt_twice (Kont.block_k stmts_start stmts_idx stmts_count final_expr env k) j n h = cc
rebuilt_twice (Kont.match_k arms_start arms_idx arms_count env k) j n h = cc
rebuilt_twice (Kont.handler_k clauses_start clauses_count env return_body return_param k) j n h = cc
rebuilt_twice (Kont.perform_args_k effect done args_start args_idx args_count env k) j n h = cc
rebuilt_twice (Kont.handle_with_k body env k) j n h = cc

-- A frame that stands on k, rebuilt on n, stands on n, and rebuilding it on k again gives the frame
-- back, so that no other field is lost.
pub rebuilt_lem :
    (kont : Kont) (k n : ContId)
    → outer kont ≡ some k
    → (outer (rebuilt kont n) ≡ some n) × (rebuilt (rebuilt kont n) k ≡ kont)
rebuilt_lem kont k n below = (outer-rebuilt kont k n below, rebuilt_twice kont k n below)
