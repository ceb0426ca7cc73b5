-- ===== src/Snapshot/Objects.antt =====
-- src/snapshot.rs: objects.
pub mod RoundTrip
use kryhtajs.Prelude.{
  ℕ, true, false, List, [], ◌∷◌, ◌++◌, ascii, decimal, message, ◌==◌, if◌then◌else◌, nat_key,
  insert_all,
}
use kryhtajs.Value.{StrId}
use kryhtajs.Object.{Object, ObjectKind, Property, NativeFn, FunctionData, BoundFunctionData}
use kryhtajs.Snapshot.Bytes.{
  Bytes, Reader, ◌>>=◌, pure, fail, u8, u16, u32, bool_, read_u8, read_u16, read_u32, read_bool_,
}
use kryhtajs.Snapshot.Trees.{write_seq, read_seq}
use kryhtajs.Snapshot.Values.{
  write_value, read_value, write_seq_values, read_seq_values, write_opt_u32, read_opt_u32,
}

unfoldable pub write_property : StrId × Property → Bytes
write_property (key, p) =
    u32 key
    ++ (write_value p.value ++ (bool_ p.writable ++ (bool_ p.enumerable ++ bool_ p.configurable)))

unfoldable pub read_property : Reader (StrId × Property)
read_property = do
  key ← read_u32
  value ← read_value
  writable ← read_bool_
  enumerable ← read_bool_
  configurable ← read_bool_
  pure (
    key,
    record {
      value = value;
      writable = writable;
      enumerable = enumerable;
      configurable = configurable;
    },
  )

unfoldable pub write_native_fn : NativeFn → Bytes
write_native_fn NativeFn.math_floor = u8 0
write_native_fn NativeFn.math_ceil = u8 1
write_native_fn NativeFn.math_round = u8 2
write_native_fn NativeFn.math_abs = u8 3
write_native_fn NativeFn.math_sqrt = u8 4
write_native_fn NativeFn.math_pow = u8 5
write_native_fn NativeFn.math_min = u8 6
write_native_fn NativeFn.math_max = u8 7
write_native_fn NativeFn.math_sin = u8 8
write_native_fn NativeFn.math_cos = u8 9
write_native_fn NativeFn.math_log = u8 10
write_native_fn NativeFn.math_exp = u8 11
write_native_fn NativeFn.math_trunc = u8 12
write_native_fn NativeFn.math_sign = u8 13

unfoldable pub read_native_fn : ℕ → Reader NativeFn
read_native_fn tag =
    if tag == 0
    then pure NativeFn.math_floor
    else if tag == 1
    then pure NativeFn.math_ceil
    else if tag == 2
    then pure NativeFn.math_round
    else if tag == 3
    then pure NativeFn.math_abs
    else if tag == 4
    then pure NativeFn.math_sqrt
    else if tag == 5
    then pure NativeFn.math_pow
    else if tag == 6
    then pure NativeFn.math_min
    else if tag == 7
    then pure NativeFn.math_max
    else if tag == 8
    then pure NativeFn.math_sin
    else if tag == 9
    then pure NativeFn.math_cos
    else if tag == 10
    then pure NativeFn.math_log
    else if tag == 11
    then pure NativeFn.math_exp
    else if tag == 12
    then pure NativeFn.math_trunc
    else if tag == 13
    then pure NativeFn.math_sign
    else fail (message (ascii "snapshot: bad native fn tag " ++ decimal tag))

unfoldable pub read_native : Reader NativeFn
unfolding read_native_fn
read_native = do tag ← read_u8; read_native_fn tag

unfoldable pub write_function_data : FunctionData → Bytes
write_function_data f =
    u32 f.params_start
    ++ (u16 f.params_count
        ++ (u32 f.body ++ (write_opt_u32 f.expr_body ++ (u32 f.env ++ write_opt_u32 f.name))))

unfoldable pub read_function_data : Reader FunctionData
read_function_data = do
  params_start ← read_u32
  params_count ← read_u16
  body ← read_u32
  expr_body ← read_opt_u32
  env ← read_u32
  name ← read_opt_u32
  pure (record {
    params_start = params_start;
    params_count = params_count;
    body = body;
    expr_body = expr_body;
    env = env;
    name = name;
  })

unfoldable pub write_bound_data : BoundFunctionData → Bytes
write_bound_data b = u32 b.target ++ (write_value b.this_arg ++ write_seq_values b.bound_args)

unfoldable pub read_bound_data : Reader BoundFunctionData
read_bound_data = do
  target ← read_u32
  this_arg ← read_value
  bound_args ← read_seq_values
  pure (record { target = target; this_arg = this_arg; bound_args = bound_args })

unfoldable pub write_object_kind : ObjectKind → Bytes
write_object_kind ObjectKind.ordinary = u8 0
write_object_kind (ObjectKind.array elements) = u8 1 ++ write_seq_values elements
write_object_kind (ObjectKind.function f) = u8 2 ++ write_function_data f
write_object_kind (ObjectKind.bound_function b) = u8 3 ++ write_bound_data b
write_object_kind (ObjectKind.native_function f) = u8 4 ++ write_native_fn f

unfoldable object_kind_of_tag : ℕ → Reader ObjectKind
object_kind_of_tag tag =
    if tag == 0
    then pure ObjectKind.ordinary
    else if tag == 1
    then (do elements ← read_seq_values; pure (ObjectKind.array elements))
    else if tag == 2
    then (do f ← read_function_data; pure (ObjectKind.function f))
    else if tag == 3
    then (do b ← read_bound_data; pure (ObjectKind.bound_function b))
    else if tag == 4
    then (do f ← read_native; pure (ObjectKind.native_function f))
    else fail (message (ascii "snapshot: bad object kind tag " ++ decimal tag))

unfoldable pub read_object_kind : Reader ObjectKind
unfolding object_kind_of_tag
read_object_kind = do tag ← read_u8; object_kind_of_tag tag

unfoldable pub write_object : Object → Bytes
write_object o =
    write_seq write_property o.properties ++ (write_opt_u32 o.prototype ++ write_object_kind o.kind)

-- The properties are put into a map one after the other.
unfoldable pub read_object : Reader Object
read_object = do
  properties ← read_seq read_property
  prototype ← read_opt_u32
  kind ← read_object_kind
  pure (record { properties = insert_all properties []; prototype = prototype; kind = kind })
