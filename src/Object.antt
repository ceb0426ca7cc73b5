-- ===== src/Object.antt =====
-- src/object.rs: objects of the heap. A `HashMap` is an association list.
use kryhtajs.Prelude.{ℕ, Bool, true, false, Option, none, some, List, [], lookup, insert, nat_key}
use kryhtajs.Value.{JsValue, StrId, ObjId, EnvId, u32_max}
use kryhtajs.Ast.{ExprId, StmtId}

pub record Property : Type 0 where
  pub value : JsValue
  pub writable : Bool
  pub enumerable : Bool
  pub configurable : Bool

-- `Property::value` and `Property::readonly`
unfoldable pub plain : JsValue → Property
plain v = record { value = v; writable = true; enumerable = true; configurable = true }

unfoldable readonly : JsValue → Property
readonly v = record { value = v; writable = false; enumerable = true; configurable = false }

pub data NativeFn : Type 0 where
  math_floor math_ceil math_round math_abs math_sqrt math_pow math_min math_max math_sin : NativeFn
  math_cos math_log math_exp math_trunc math_sign : NativeFn

pub record FunctionData : Type 0 where
  pub params_start : ℕ
  pub params_count : ℕ
  pub body : StmtId
  pub expr_body : Option ExprId
  pub env : EnvId
  pub name : Option StrId

pub record BoundFunctionData : Type 0 where
  pub target : ObjId
  pub this_arg : JsValue
  pub bound_args : List JsValue

-- `array` holds the elements of its `ArrayData`.
pub data ObjectKind : Type 0 where
  ordinary : ObjectKind
  array : List JsValue → ObjectKind
  function : FunctionData → ObjectKind
  bound_function : BoundFunctionData → ObjectKind
  native_function : NativeFn → ObjectKind

pub record Object : Type 0 where
  pub properties : List (StrId × Property)
  pub prototype : Option ObjId
  pub kind : ObjectKind

unfoldable pub new_function : ℕ → ℕ → StmtId → EnvId → Option StrId → FunctionData
new_function start count body env name = record {
  params_start = start;
  params_count = count;
  body = body;
  expr_body = none;
  env = env;
  name = name;
}

unfoldable pub arrow_expr : ℕ → ℕ → ExprId → EnvId → FunctionData
arrow_expr start count body env = record {
  params_start = start;
  params_count = count;
  body = u32_max;
  expr_body = some body;
  env = env;
  name = none;
}

unfoldable pub arrow_block : ℕ → ℕ → StmtId → EnvId → FunctionData
arrow_block start count body env = record {
  params_start = start;
  params_count = count;
  body = body;
  expr_body = none;
  env = env;
  name = none;
}

unfoldable pub with_kind : ObjectKind → Object
with_kind kind = record { properties = []; prototype = none; kind = kind }

unfoldable pub new : Object
unfolding with_kind
new = with_kind ObjectKind.ordinary

unfoldable pub closure : FunctionData → Object
unfolding with_kind
closure f = with_kind (ObjectKind.function f)

unfoldable native_object : NativeFn → Object
unfolding with_kind
native_object f = with_kind (ObjectKind.native_function f)

abbrev value_of : Option Property → Option JsValue
value_of none = none
value_of (some p) = some p.value

unfoldable pub get : Object → StrId → Option JsValue
get o key = value_of (lookup key o.properties)

unfoldable pub set : Object → StrId → JsValue → Object
unfolding plain
set o key v = record o { properties = insert key (plain v) o.properties }
