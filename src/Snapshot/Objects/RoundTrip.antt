-- ===== src/Snapshot/Objects/RoundTrip.antt =====
-- src/snapshot.rs: an object survives a checkpoint.
use kryhtajs.Prelude.{
  ℕ, ◌^◌, ◌<◌, ◌≡◌, refl, sym, subst, ◌∙◌, true, false, List, [], ◌∷◌, ◌++◌, append_assoc,
  append-nil, arith, ok, nat_key, insert, insert_all, contains_key, DistinctKeys, ==_iff,
  Bool-cases, inl, inr, ◌==◌,
}
use kryhtajs.Value.{StrId}
use kryhtajs.Object.{Object, ObjectKind, Property, NativeFn, FunctionData, BoundFunctionData}
use kryhtajs.Snapshot.Bytes.{Bytes}
use kryhtajs.Snapshot.Words.{u8_lem, u16_lem, u32_lem, bool_lem}
use kryhtajs.Snapshot.Values.{IsValue, value_lem, IsValues, seq_values_lem, FitsOpt, opt_u32_lem}
use kryhtajs.Snapshot.Trees.RoundTrip.{FitsSeq, seq_lem, IsU32}
use kryhtajs.Snapshot.Objects.{
  write_property, read_property, write_native_fn, read_native, write_function_data,
  read_function_data, write_bound_data, read_bound_data, write_object_kind, read_object_kind,
  write_object, read_object,
}

abbrev pub IsProperty : StrId × Property → Type 0
IsProperty (key, p) = IsU32 key × IsValue p.value

property_lem :
    (x : StrId × Property)
    → IsProperty x
    → (rest : Bytes) → read_property (write_property x ++ rest) ≡ ok (x, rest)
unfolding write_property read_property
property_lem (key, p) fits rest = simp (
  append_assoc,
  u32_lem key fits.0,
  value_lem p.value fits.1,
  bool_lem p.writable,
  bool_lem p.enumerable,
  bool_lem p.configurable,
)

pub record FitsFunction (f : FunctionData) : Type 0 where
  pub params : IsU32 f.params_start × (f.params_count < 2 ^ 16)
  pub bodies : IsU32 f.body × FitsOpt f.expr_body
  pub env : IsU32 f.env
  pub name : FitsOpt f.name

function_lem :
    (f : FunctionData)
    → FitsFunction f
    → (rest : Bytes) → read_function_data (write_function_data f ++ rest) ≡ ok (f, rest)
unfolding write_function_data read_function_data
function_lem f fits rest = simp (
  append_assoc,
  u32_lem f.params_start fits.params.0,
  u16_lem f.params_count fits.params.1,
  u32_lem f.body fits.bodies.0,
  opt_u32_lem f.expr_body fits.bodies.1,
  u32_lem f.env fits.env,
  opt_u32_lem f.name fits.name,
)

abbrev pub FitsBound : BoundFunctionData → Type 0
FitsBound b = IsU32 b.target × IsValue b.this_arg × IsValues b.bound_args

bound_lem :
    (b : BoundFunctionData)
    → FitsBound b
    → (rest : Bytes) → read_bound_data (write_bound_data b ++ rest) ≡ ok (b, rest)
unfolding write_bound_data read_bound_data
bound_lem b (t, a, args) rest =
    simp
      (append_assoc, u32_lem b.target t, value_lem b.this_arg a, seq_values_lem b.bound_args args)

native_lem : (f : NativeFn) (rest : Bytes) → read_native (write_native_fn f ++ rest) ≡ ok (f, rest)
unfolding write_native_fn read_native
native_lem NativeFn.math_floor rest = simp (u8_lem 0 (omega arith))
native_lem NativeFn.math_ceil rest = simp (u8_lem 1 (omega arith))
native_lem NativeFn.math_round rest = simp (u8_lem 2 (omega arith))
native_lem NativeFn.math_abs rest = simp (u8_lem 3 (omega arith))
native_lem NativeFn.math_sqrt rest = simp (u8_lem 4 (omega arith))
native_lem NativeFn.math_pow rest = simp (u8_lem 5 (omega arith))
native_lem NativeFn.math_min rest = simp (u8_lem 6 (omega arith))
native_lem NativeFn.math_max rest = simp (u8_lem 7 (omega arith))
native_lem NativeFn.math_sin rest = simp (u8_lem 8 (omega arith))
native_lem NativeFn.math_cos rest = simp (u8_lem 9 (omega arith))
native_lem NativeFn.math_log rest = simp (u8_lem 10 (omega arith))
native_lem NativeFn.math_exp rest = simp (u8_lem 11 (omega arith))
native_lem NativeFn.math_trunc rest = simp (u8_lem 12 (omega arith))
native_lem NativeFn.math_sign rest = simp (u8_lem 13 (omega arith))

abbrev pub FitsKind : ObjectKind → Type 0
FitsKind ObjectKind.ordinary = Unit
FitsKind (ObjectKind.array elements) = IsValues elements
FitsKind (ObjectKind.function f) = FitsFunction f
FitsKind (ObjectKind.bound_function b) = FitsBound b
FitsKind (ObjectKind.native_function f) = Unit

kind_lem :
    (k : ObjectKind)
    → FitsKind k
    → (rest : Bytes) → read_object_kind (write_object_kind k ++ rest) ≡ ok (k, rest)
unfolding write_object_kind read_object_kind
kind_lem ObjectKind.ordinary fits rest = simp (u8_lem 0 (omega arith))
kind_lem (ObjectKind.array elements) fits rest =
    simp (append_assoc, u8_lem 1 (omega arith), seq_values_lem elements fits)
kind_lem (ObjectKind.function f) fits rest =
    simp (append_assoc, u8_lem 2 (omega arith), function_lem f fits)
kind_lem (ObjectKind.bound_function b) fits rest =
    simp (append_assoc, u8_lem 3 (omega arith), bound_lem b fits)
kind_lem (ObjectKind.native_function f) fits rest =
    simp (append_assoc, u8_lem 4 (omega arith), native_lem f)

insert-absent :
    {V : Type 0} (k : ℕ) (v : V) (m : List (ℕ × V))
    → contains_key k m ≡ false
    → insert k v m ≡ m ++ (k, v) ∷ []
insert-absent k v [] h = refl
insert-absent k v ((j, w) ∷ m) h = ground (arith, insert-absent k v m)

contains_key-here :
    {V : Type 0} (k : ℕ) (v : V) (m kvs : List (ℕ × V)) → contains_key k (m ++ (k, v) ∷ kvs) ≡ true
contains_key-here k v [] kvs = ground (arith, ==_iff k k)
contains_key-here k v ((j, w) ∷ m) kvs = ground (arith, contains_key-here k v m kvs)

contains_key-middle :
    {V : Type 0} (k : ℕ) (v : V) (m kvs : List (ℕ × V))
    → DistinctKeys (m ++ (k, v) ∷ kvs)
    → contains_key k m ≡ false
contains_key-middle k v [] kvs d = refl
contains_key-middle k v ((j, w) ∷ m) kvs d = elim (Bool-cases (j == k)) [
  | inl same ↦ absurd (
      let at : j ≡ k = (==_iff j k).0 same in
      let here : contains_key j (m ++ (k, v) ∷ kvs) ≡ true = rw at (contains_key-here k v m kvs) in
      cc)
  | inr apart ↦ rw apart (contains_key-middle k v m kvs d.1)
]

insert_all-append :
    {V : Type 0} (kvs m : List (ℕ × V)) → DistinctKeys (m ++ kvs) → insert_all kvs m ≡ m ++ kvs
insert_all-append [] m d = sym (append-nil m)
insert_all-append ((k, v) ∷ kvs) m d =
    let absent = insert-absent k v m (contains_key-middle k v m kvs d) in
    let shift : (m ++ (k, v) ∷ []) ++ kvs ≡ m ++ (k, v) ∷ kvs = simp append_assoc in
    rw absent (insert_all-append kvs (m ++ (k, v) ∷ []) (subst DistinctKeys (sym shift) d) ∙ shift)

-- The words of an object fit their widths, and no key stands twice.
pub record FitsObject (o : Object) : Type 0 where
  pub properties : FitsSeq IsProperty o.properties
  pub distinct : DistinctKeys o.properties
  pub prototype : FitsOpt o.prototype
  pub kind : FitsKind o.kind

-- An object whose words and lengths fit their widths and in which no key stands twice is read back
-- unchanged, properties, prototype and kind, and the reader stops where it ends.
pub object_lem :
    (o : Object)
    → FitsObject o
    → (rest : Bytes) → read_object (write_object o ++ rest) ≡ ok (o, rest)
unfolding write_object read_object
object_lem o fits rest = simp (
  append_assoc,
  seq_lem write_property read_property IsProperty property_lem o.properties fits.properties,
  opt_u32_lem o.prototype fits.prototype,
  kind_lem o.kind fits.kind,
  insert_all-append o.properties [] fits.distinct,
)
