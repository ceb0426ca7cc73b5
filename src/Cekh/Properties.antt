-- ===== src/Cekh/Properties.antt =====
-- src/cekh.rs: `get_property`, `set_property`, `get_index` and `set_index`.
use kryhtajs.Prelude.{
  ℕ, ◌+◌, ◌-◌, ◌%◌, ◌^◌, Bool, false, Option, none, some, List, ◌++◌, length, get_elem?, set,
  replicate, ltb, leb, if◌then◌else◌, Result, ok, err, type_error, internal_error, ascii, Text,
  text_eq,
}
use kryhtajs.Value.{JsValue, StrId, ObjId}
use kryhtajs.Arena as Slots
use kryhtajs.Arena.{Arena, put}
use kryhtajs.Floats.{Floats}
use kryhtajs.Object as Obj
use kryhtajs.Object.{Object, ObjectKind}
use kryhtajs.StringPool as Pool
use kryhtajs.StringPool.{StringPool}
use kryhtajs.Cekh.Coerce.{to_i32, i32_sign}

abbrev pub Objects : Type 0
Objects = Arena Object

-- The object that `get_property` and `set_property` read.
abbrev object_of : JsValue → Option ObjId
object_of (JsValue.object id) = some id
object_of (JsValue.array id) = some id
object_of (JsValue.function id) = some id
object_of _ = none

abbrev pub or_undefined : Option JsValue → JsValue
or_undefined none = JsValue.undefined
or_undefined (some v) = v

abbrev is_length : Option Text → Bool
is_length none = false
is_length (some s) = text_eq s (ascii "length")

unfoldable pub property_of : StringPool → Object → StrId → JsValue
unfolding Obj.get Pool.get
property_of strings o property = elim o.kind [
  | ObjectKind.array elements ↦
      if is_length (Pool.get strings property)
      then JsValue.int (length elements % 2 ^ 32)
      else or_undefined (Obj.get o property)
  | _ ↦ or_undefined (Obj.get o property)
]

abbrev found_object {ℓ} : {A : Type ℓ} → Option Object → (Object → A) → Result A
found_object none f = err (internal_error (ascii "Invalid object"))
found_object (some o) f = ok (f o)

abbrev get_property_at : Option ObjId → StringPool → Objects → StrId → Result JsValue
get_property_at none strings objects property = ok JsValue.undefined
get_property_at (some id) strings objects property =
    found_object (Slots.get objects id) λ o. property_of strings o property

unfoldable pub get_property : StringPool → Objects → JsValue → StrId → Result JsValue
unfolding property_of
get_property strings objects v property = get_property_at (object_of v) strings objects property

abbrev set_property_at : Option ObjId → Objects → StrId → JsValue → Result Objects
set_property_at none objects property v =
    err (type_error (ascii "Cannot set property of non-object"))
set_property_at (some id) objects property v =
    found_object (Slots.get objects id) λ o. put objects id (Obj.set o property v)

unfoldable pub set_property : Objects → JsValue → StrId → JsValue → Result Objects
unfolding Obj.set
set_property objects obj property v = set_property_at (object_of obj) objects property v

-- `elements.resize(idx + 1, undefined)` where it is shorter, and the write.
unfoldable pub write_element : List JsValue → ℕ → JsValue → List JsValue
write_element elements idx v =
    if leb (length elements) idx
    then set (elements ++ replicate (idx + 1 - length elements) JsValue.undefined) idx v
    else set elements idx v

-- An array's elements at an index that is not negative; nothing on another object.
unfoldable pub with_element : Object → ℕ → JsValue → Object
unfolding write_element
with_element o idx v = elim o.kind [
  | ObjectKind.array elements ↦
      if ltb idx i32_sign
      then record o { kind = ObjectKind.array (write_element elements idx v) }
      else o
  | _ ↦ o
]

unfoldable pub element_of : Object → ℕ → JsValue
element_of o idx = elim o.kind [
  | ObjectKind.array elements ↦
      if ltb idx i32_sign then or_undefined (get_elem? elements idx) else JsValue.undefined
  | _ ↦ JsValue.undefined
]

module _ ⦃fl : Floats⦄ where
  abbrev get_element : StringPool → Objects → ObjId → JsValue → Result JsValue
  get_element strings objects id key =
      found_object (Slots.get objects id) λ o. element_of o (to_i32 strings key)

  unfoldable pub get_index : StringPool → Objects → JsValue → JsValue → Result JsValue
  unfolding get_property to_i32 element_of
  get_index strings objects (JsValue.array id) key = get_element strings objects id key
  get_index strings objects (JsValue.object id) (JsValue.string s) =
      get_property strings objects (JsValue.object id) s
  get_index strings objects (JsValue.object id) key = get_element strings objects id key
  get_index strings objects (JsValue.function id) (JsValue.string s) =
      get_property strings objects (JsValue.function id) s
  get_index strings objects (JsValue.function id) key = get_element strings objects id key
  get_index strings objects _ key = ok JsValue.undefined

  abbrev set_element : StringPool → Objects → ObjId → JsValue → JsValue → Result Objects
  set_element strings objects id key v =
      found_object (Slots.get objects id)
        λ o. put objects id (with_element o (to_i32 strings key) v)

  unfoldable pub set_index : StringPool → Objects → JsValue → JsValue → JsValue → Result Objects
  unfolding set_property to_i32 with_element
  set_index strings objects (JsValue.array id) key v = set_element strings objects id key v
  set_index strings objects (JsValue.object id) (JsValue.string s) v =
      set_property objects (JsValue.object id) s v
  set_index strings objects (JsValue.object id) key v = set_element strings objects id key v
  set_index strings objects (JsValue.function id) (JsValue.string s) v =
      set_property objects (JsValue.function id) s v
  set_index strings objects (JsValue.function id) key v = set_element strings objects id key v
  set_index strings objects _ key v = err (type_error (ascii "Cannot set index of non-object"))
