-- ===== src/Cekh/Call.antt =====
-- src/cekh.rs: `call_function`.
use kryhtajs.Prelude.{
  ℕ, zero, suc, Option, none, some, List, [], ◌∷◌, get_elem?, if◌then◌else◌, Result, ok, err,
  type_error, internal_error, ascii,
}
use kryhtajs.Value.{JsValue, StrId, EnvId, ContId}
use kryhtajs.Ast.{AstArena, is_some, get_param_list}
use kryhtajs.Arena as Slots
use kryhtajs.Builtins.{call_native}
use kryhtajs.Cont.{Kont}
use kryhtajs.Env.{Entry, extend_with_slice}
use kryhtajs.Floats.{Floats}
use kryhtajs.Object.{Object, ObjectKind, FunctionData}
use kryhtajs.Cekh.State.{Cekh, Control}
use kryhtajs.Cekh.Perform.{rebase_continuation}
use kryhtajs.Cekh.Properties.{or_undefined}
use kryhtajs.Cekh.Push.{push}

-- The first eight parameters at most, each with the argument in its place or undefined.
unfoldable pub call_bindings : ℕ → List StrId → List JsValue → List Entry
call_bindings zero params args = []
call_bindings (suc n) [] args = []
call_bindings (suc n) (p ∷ ps) [] = (p, JsValue.undefined) ∷ call_bindings n ps []
call_bindings (suc n) (p ∷ ps) (a ∷ args) = (p, a) ∷ call_bindings n ps args

abbrev pub max_bindings : ℕ
max_bindings = 8

-- The body of a call, on the frame that returns from it.
unfoldable pub enter_body : FunctionData → Cekh → Cekh
unfolding push
enter_body f m = elim f.expr_body [
  | some e ↦ push (Kont.return_expr_k m.cont) (record m { control = Control.expr e })
  | none ↦
      if is_some f.body
      then record m { control = Control.stmt f.body }
      else record m { control = Control.value JsValue.undefined }
]

unfoldable pub call_closure : FunctionData → List JsValue → ContId → AstArena → Cekh → Cekh
unfolding call_bindings extend_with_slice enter_body push
call_closure f args k ast m =
    let params = get_param_list ast f.params_start f.params_count in
    let (envs, call_env) =
      extend_with_slice m.envs f.env (call_bindings max_bindings params args) in
    enter_body f
      (record (push (Kont.return_k m.env k) (record m { envs = envs })) { env = call_env })

-- The captured continuation goes on below the call.
unfoldable pub resume : ContId → EnvId → JsValue → ContId → Cekh → Cekh
unfolding rebase_continuation
resume cont env v k m =
    let (conts, rebased) = rebase_continuation m.conts cont k in
    record m { conts = conts; cont = rebased; env = env; control = Control.value v }

module _ ⦃fl : Floats⦄ where
  abbrev call_kind : ObjectKind → List JsValue → ContId → AstArena → Cekh → Result Cekh
  call_kind (ObjectKind.native_function f) args k ast m = ok (record m {
    control =
        Control.value
          (call_native f (or_undefined (get_elem? args 0)) (or_undefined (get_elem? args 1)));
    cont = k;
  })
  call_kind (ObjectKind.function f) args k ast m = ok (call_closure f args k ast m)
  call_kind _ args k ast m = err (type_error (ascii "not a function"))

  abbrev call_object : Option Object → List JsValue → ContId → AstArena → Cekh → Result Cekh
  call_object none args k ast m = err (internal_error (ascii "Invalid function object"))
  call_object (some o) args k ast m = call_kind o.kind args k ast m

  unfoldable pub call_function : JsValue → List JsValue → ContId → AstArena → Cekh → Result Cekh
  unfolding call_native call_closure resume
  call_function (JsValue.function id) args k ast m =
      call_object (Slots.get m.objects id) args k ast m
  call_function (JsValue.continuation cont env) args k ast m =
      ok (resume cont env (or_undefined (get_elem? args 0)) k m)
  call_function _ args k ast m = err (type_error (ascii "not a function"))
