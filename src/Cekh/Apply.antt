-- ===== src/Cekh/Apply.antt =====
-- src/cekh.rs: `apply_cont`, a value given to the frame on top.
use kryhtajs.Prelude.{
  ℕ, ◌+◌, Bool, not, none, some, List, [], ◌∷◌, ◌++◌, if◌then◌else◌, leb, ◌==◌, err, internal_error,
  ascii, insert, nat_key, ok,
}
use kryhtajs.Value.{JsValue, StrId, EnvId, ContId}
use kryhtajs.Ast.{AstArena, get_expr_list}
use kryhtajs.Arena.{take}
use kryhtajs.Cont.{Kont}
use kryhtajs.Env.{define}
use kryhtajs.Floats.{Floats}
use kryhtajs.Cekh.State.{Cekh, Control}
use kryhtajs.Cekh.Call.{call_function}
use kryhtajs.Cekh.Coerce.{is_truthy, to_number, number_value, one}
use kryhtajs.Cekh.Exprs.{Ends}
use kryhtajs.Cekh.Frames.{
  pass, proceed, on_value, on_objects, on_result, on_binary, short_circuit, is_nullish,
  assign_or_global, stmt_or_undefined, test_or_true, apply_for_test, apply_for_body, evaluate_nth,
  apply_object, apply_seq, apply_block, apply_handle_with, apply_handler, apply_perform_args,
  apply_array,
}
use kryhtajs.Cekh.Jumps.{go_on}
use kryhtajs.Cekh.Match.{try_match_arms}
use kryhtajs.Cekh.Operators.{apply_unary, apply_binary}
use kryhtajs.Cekh.Properties.{get_property, set_property, get_index, set_index}

module _ ⦃fl : Floats⦄ where
  -- `++` and `--` of a variable.
  unfoldable pub apply_update : JsValue → StrId → Bool → Bool → EnvId → ContId → Cekh → Cekh
  unfolding to_number number_value assign_or_global
  apply_update v name is_pre is_inc env k m =
      let n = to_number m.strings v in
      let new_val = number_value (if is_inc then fl.add n one else fl.sub n one) in
      record (assign_or_global name new_val env m) {
        control = Control.value (if is_pre then new_val else v);
        cont = k;
      }

  unfoldable pub apply_args :
      JsValue → JsValue → List JsValue → ℕ → ℕ → ℕ → EnvId → ContId → AstArena → Cekh → Ends
  unfolding call_function
  apply_args v callee done start idx count env k ast m =
      if leb count idx
      then some (call_function callee (done ++ v ∷ []) k ast m)
      else evaluate_nth (get_expr_list ast start count) idx env
          (Kont.args_k callee (done ++ v ∷ []) start (idx + 1) count env k) m

  unfoldable pub apply_callee : JsValue → ℕ → ℕ → EnvId → ContId → AstArena → Cekh → Ends
  unfolding call_function
  apply_callee v start count env k ast m =
      if count == 0
      then some (call_function v [] k ast m)
      else evaluate_nth (get_expr_list ast start count) 0 env (Kont.args_k v [] start 1 count env k)
          m

  -- The arms of `apply_cont`.
  unfoldable pub apply_kont : Kont → JsValue → AstArena → Cekh → Ends
  unfolding is_truthy apply_unary apply_binary get_property set_property get_index set_index
      is_nullish assign_or_global apply_update apply_for_test apply_for_body apply_args apply_callee
      apply_array apply_object apply_seq apply_block apply_handle_with apply_handler
      apply_perform_args define try_match_arms
  apply_kont Kont.halt v ast m = some (ok (record m { control = Control.halted v }))
  apply_kont (Kont.unary_k op k) v ast m = some (on_result (apply_unary m.strings op v) k m)
  apply_kont (Kont.binary_left_k op right env k) v ast m =
      some (go_on (Control.expr right) env (Kont.binary_right_k op v k) m)
  apply_kont (Kont.binary_right_k op left k) v ast m =
      on_binary (apply_binary m.strings op left v) k m
  apply_kont (Kont.and_k right env k) v ast m =
      some (short_circuit (not (is_truthy m.strings v)) v right env k m)
  apply_kont (Kont.or_k right env k) v ast m =
      some (short_circuit (is_truthy m.strings v) v right env k m)
  apply_kont (Kont.nullish_k right env k) v ast m =
      some (short_circuit (not (is_nullish v)) v right env k m)
  apply_kont (Kont.member_k property k) v ast m =
      some (on_value (get_property m.strings m.objects v property) k m)
  apply_kont (Kont.index_obj_k index env k) v ast m =
      some (go_on (Control.expr index) env (Kont.index_key_k v k) m)
  apply_kont (Kont.index_key_k obj k) v ast m =
      some (on_value (get_index m.strings m.objects obj v) k m)
  apply_kont (Kont.assign_var_k name env k) v ast m =
      some (pass v k (assign_or_global name v env m))
  apply_kont (Kont.update_var_k name is_pre is_inc env k) v ast m =
      some (ok (apply_update v name is_pre is_inc env k m))
  apply_kont (Kont.assign_member_obj_k property value env k) v ast m =
      some (go_on (Control.expr value) env (Kont.assign_member_val_k v property k) m)
  apply_kont (Kont.assign_member_val_k obj property k) v ast m =
      some (on_objects (set_property m.objects obj property v) v k m)
  apply_kont (Kont.assign_index_obj_k index value env k) v ast m =
      some (go_on (Control.expr index) env (Kont.assign_index_key_k v value env k) m)
  apply_kont (Kont.assign_index_key_k obj value env k) v ast m =
      some (go_on (Control.expr value) env (Kont.assign_index_val_k obj v k) m)
  apply_kont (Kont.assign_index_val_k obj key k) v ast m =
      some (on_objects (set_index m.strings m.objects obj key v) v k m)
  apply_kont (Kont.if_k consequent alternate env k) v ast m = some (
      proceed (stmt_or_undefined (if is_truthy m.strings v then consequent else alternate)) env k m)
  apply_kont (Kont.cond_k consequent alternate env k) v ast m =
      some
        (proceed (Control.expr (if is_truthy m.strings v then consequent else alternate)) env k m)
  apply_kont (Kont.while_k test body env k) v ast m = some (
      if is_truthy m.strings v
      then go_on (Control.stmt body) env (Kont.while_body_k test body env k) m
      else pass JsValue.undefined k m)
  apply_kont (Kont.while_body_k test body env k) v ast m =
      some (go_on (Control.expr test) env (Kont.while_k test body env k) m)
  apply_kont (Kont.for_test_k test update body env k) v ast m =
      some (apply_for_test test update body env k m)
  apply_kont (Kont.for_test_result_k test update body env k) v ast m = some (
      if is_truthy m.strings v
      then go_on (Control.stmt body) env (Kont.for_body_k test update body env k) m
      else pass JsValue.undefined k m)
  apply_kont (Kont.for_body_k test update body env k) v ast m =
      some (apply_for_body test update body env k m)
  apply_kont (Kont.for_update_k test update body env k) v ast m =
      some (go_on (test_or_true test) env (Kont.for_test_k test update body env k) m)
  apply_kont (Kont.callee_k start count env k) v ast m = apply_callee v start count env k ast m
  apply_kont (Kont.args_k callee done start idx count env k) v ast m =
      apply_args v callee done start idx count env k ast m
  apply_kont (Kont.handle_with_k body env k) v ast m = some (apply_handle_with v body env k m)
  apply_kont (Kont.return_k env k) v ast m = some (proceed (Control.value v) env k m)
  apply_kont (Kont.return_expr_k k) v ast m =
      some (ok (record m { cont = k; control = Control.returning v }))
  apply_kont (Kont.array_k done start idx count env k) v ast m =
      apply_array v done start idx count env k ast m
  apply_kont (Kont.object_k done start idx count env k) v ast m =
      apply_object v done start idx count env k ast m
  apply_kont (Kont.let_k name env k) v ast m =
      some (pass JsValue.undefined k (record m { envs = define m.envs env name v }))
  apply_kont (Kont.const_k name env k) v ast m =
      some (pass JsValue.undefined k (record m { envs = define m.envs env name v }))
  apply_kont (Kont.var_k name env k) v ast m =
      some (pass JsValue.undefined k (record m { globals = insert name v m.globals }))
  apply_kont (Kont.seq_k start idx count env k) v ast m = apply_seq v start idx count env k ast m
  apply_kont (Kont.expr_stmt_k k) v ast m = some (pass v k m)
  apply_kont (Kont.block_k start idx count final_expr env k) v ast m =
      apply_block start idx count final_expr env k ast m
  apply_kont (Kont.match_k start idx count env k) v ast m =
      try_match_arms v start idx count env k ast m
  apply_kont (Kont.handler_k start count env return_body return_param k) v ast m =
      some (apply_handler v return_body return_param env k m)
  apply_kont (Kont.perform_args_k effect done start idx count env k) v ast m =
      apply_perform_args v effect done start idx count env k ast m

  -- The frame is taken, and the halt frame is left in its slot.
  unfoldable pub apply_cont : JsValue → AstArena → Cekh → Ends
  unfolding apply_kont
  apply_cont v ast m =
      let (taken, conts) = take Kont.halt m.conts m.cont in
      elim taken [
        | none ↦ some (err (internal_error (ascii "Invalid continuation")))
        | some kont ↦ apply_kont kont v ast (record m { conts = conts })
      ]
