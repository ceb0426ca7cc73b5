-- ===== src/Host.antt =====
-- src/host.rs: values that cross to the host and back.
pub mod Converts
use kryhtajs.Prelude.{
  ℕ, zero, suc, Bool, true, false, Option, none, some, List, [], ◌∷◌, length, ltb, ◌==◌,
  if◌then◌else◌, Text, ascii, Result, ok, err, message, internal_error, JsError,
}
use kryhtajs.Value.{JsValue, StrId}
use kryhtajs.Arena as Slots
use kryhtajs.Arena.{alloc, elem}
use kryhtajs.Fiber.{HostValue, HostValues, HostFields, no_values, a_value, no_fields, a_field}
use kryhtajs.Object as Obj
use kryhtajs.Object.{Object, ObjectKind, Property, with_kind}
use kryhtajs.StringPool as Pool
use kryhtajs.StringPool.{intern}
use kryhtajs.Cekh.State.{Cekh}

-- The result of a recursion; `none` where the fuel ran out.
abbrev pub Converted : Type 0 → Type 0
Converted A = Option (Result A)

abbrev pub then_converted {ℓ κ} :
    {A : Type ℓ} {B : Type κ} → Option (Result A) → (A → Option (Result B)) → Option (Result B)
then_converted none f = none
then_converted (some (err e)) f = some (err e)
then_converted (some (ok a)) f = f a

abbrev pub name_of : Cekh → StrId → Text
name_of m id = elim (Pool.get m.strings id) [ none ↦ [] | some s ↦ s ]

-- The order of texts by their bytes.
abbrev text_less : Text → Text → Bool
text_less [] [] = false
text_less [] (y ∷ ys) = true
text_less (x ∷ xs) [] = false
text_less (x ∷ xs) (y ∷ ys) = if x == y then text_less xs ys else ltb x y

-- `pairs.sort_by` on the keys, which keeps the order of equal ones.
unfoldable pub insert_sorted : Text → HostValue → HostFields → HostFields
insert_sorted key v no_fields = a_field key v no_fields
insert_sorted key v (a_field k w fields) =
    let rest = insert_sorted key v fields in
    if text_less k key then a_field k w rest else a_field key v (a_field k w fields)

abbrev Convert : Type 0
Convert = JsValue → Option (Result HostValue)

unfoldable pub convert_elements : Convert → List JsValue → Option (Result HostValues)
convert_elements convert [] = some (ok no_values)
convert_elements convert (v ∷ vs) =
    then_converted (convert v)
      λ h. then_converted (convert_elements convert vs) λ hs. some (ok (a_value h hs))

unfoldable pub convert_properties :
    Convert → Cekh → List (StrId × Property) → Option (Result HostFields)
unfolding insert_sorted
convert_properties convert m [] = some (ok no_fields)
convert_properties convert m ((key, p) ∷ ps) = then_converted (convert p.value) λ h.
    then_converted (convert_properties convert m ps)
      λ fields. some (ok (insert_sorted (name_of m key) h fields))

cyclic : JsError
cyclic = message (ascii "host boundary: cyclic object cannot cross")

dangling : JsError
dangling = internal_error (ascii "host boundary: dangling object id")

a_function : JsError
a_function = message (ascii "host boundary: cannot convert a function to a host value")

code : JsError
code =
    message
      (ascii "host boundary: cannot convert code (function/handler/continuation) to a host value")

unfoldable pub convert_object : Convert → Cekh → Option Object → Option (Result HostValue)
unfolding convert_elements convert_properties dangling a_function
convert_object convert m none = some (err dangling)
convert_object convert m (some o) = elim o.kind [
  | ObjectKind.array elements ↦
      then_converted (convert_elements convert elements) λ hs. some (ok (HostValue.array hs))
  | ObjectKind.ordinary ↦
      then_converted (convert_properties convert m o.properties)
        λ fields. some (ok (HostValue.object fields))
  | _ ↦ some (err a_function)
]

-- An object on the path to the value is an error; each level adds one to the path.
unfoldable pub convert_out : ℕ → Cekh → JsValue → List ℕ → Option (Result HostValue)
unfolding convert_object cyclic code
convert_out zero m v visiting = none
convert_out (suc fuel) m JsValue.undefined visiting = some (ok HostValue.undefined)
convert_out (suc fuel) m JsValue.null visiting = some (ok HostValue.null)
convert_out (suc fuel) m (JsValue.bool b) visiting = some (ok (HostValue.bool b))
convert_out (suc fuel) m (JsValue.int n) visiting = some (ok (HostValue.int n))
convert_out (suc fuel) m (JsValue.float f) visiting = some (ok (HostValue.float f))
convert_out (suc fuel) m (JsValue.string s) visiting = some (ok (HostValue.str (name_of m s)))
convert_out (suc fuel) m (JsValue.array id) visiting =
    let inside =
      convert_object (λ v. convert_out fuel m v (id ∷ visiting)) m (Slots.get m.objects id) in
    if elem id visiting then some (err cyclic) else inside
convert_out (suc fuel) m (JsValue.object id) visiting =
    let inside =
      convert_object (λ v. convert_out fuel m v (id ∷ visiting)) m (Slots.get m.objects id) in
    if elem id visiting then some (err cyclic) else inside
convert_out (suc fuel) m _ visiting = some (err code)

-- A path has each slot once at most.
unfoldable pub to_host_value : Cekh → JsValue → Option (Result HostValue)
unfolding convert_out
to_host_value m v = convert_out (suc (suc (length m.objects.slots))) m v []

abbrev add_object : Object → (ℕ → JsValue) → Cekh → Cekh × JsValue
add_object o value m =
    let (objects, id) = alloc o m.objects in (record m { objects = objects }, value id)

-- Every field is converted before the first key is interned.
unfoldable pub set_fields : List (Text × JsValue) → Object → Cekh → Cekh × Object
unfolding intern Obj.set
set_fields [] o m = (m, o)
set_fields ((k, v) ∷ kvs) o m =
    let (strings, key) = intern k m.strings in
    set_fields kvs (Obj.set o key v) (record m { strings = strings })

unfoldable mutual
  pub from_host_value : Cekh → HostValue → Cekh × JsValue
  from_host_value m HostValue.undefined = (m, JsValue.undefined)
  from_host_value m HostValue.null = (m, JsValue.null)
  from_host_value m (HostValue.bool b) = (m, JsValue.bool b)
  from_host_value m (HostValue.int n) = (m, JsValue.int n)
  from_host_value m (HostValue.float f) = (m, JsValue.float f)
  from_host_value m (HostValue.str s) =
      let (strings, id) = intern s m.strings in (record m { strings = strings }, JsValue.string id)
  from_host_value m (HostValue.array hs) =
      let (m', elements) = from_host_values m hs in
      add_object (with_kind (ObjectKind.array elements)) JsValue.array m'
  from_host_value m (HostValue.object fields) =
      let (m', values) = from_host_fields m fields in
      let (m'', o) = set_fields values Obj.new m' in add_object o JsValue.object m''

  pub from_host_values : Cekh → HostValues → Cekh × List JsValue
  from_host_values m no_values = (m, [])
  from_host_values m (a_value h hs) =
      let (m', v) = from_host_value m h in let (m'', vs) = from_host_values m' hs in (m'', v ∷ vs)

  pub from_host_fields : Cekh → HostFields → Cekh × List (Text × JsValue)
  from_host_fields m no_fields = (m, [])
  from_host_fields m (a_field k h fields) =
      let (m', v) = from_host_value m h in
      let (m'', kvs) = from_host_fields m' fields in (m'', (k, v) ∷ kvs)
