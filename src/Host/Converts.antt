-- ===== src/Host/Converts.antt =====
-- src/host.rs: a value is converted or refused, also where its objects form a cycle.
use kryhtajs.Prelude.{
  ℕ, zero, suc, ◌+◌, ◌<◌, ◌≡◌, refl, none, some, List, [], ◌∷◌, length, All, Option-cases,
  Bool-cases, inl, inr, arith, JsError, Result, ok, err, if◌then◌else◌, get_elem?-lt,
}
use kryhtajs.Value.{JsValue, StrId}
use kryhtajs.Arena as Slots
use kryhtajs.Arena.{elem, NoRepeat}
use kryhtajs.Arena.Links.{length-NoRepeat}
use kryhtajs.Cekh.State.{Cekh}
use kryhtajs.Fiber.{HostValue}
use kryhtajs.Host.{
  Converted, then_converted, convert_elements, convert_properties, convert_object, convert_out,
  to_host_value,
}
use kryhtajs.Object.{Object, ObjectKind, Property}

-- Whether the recursion ends.
abbrev Ends : {A : Type 0} → Converted A → Type 0
Ends {A} o = (r : Result A) × (o ≡ some r)

then_converted-Ends :
    {A B : Type 0} (o : Converted A) (f : A → Converted B)
    → Ends o
    → ((a : A) → Ends (f a))
    → Ends (then_converted o f)
then_converted-Ends none f h every = absurd (let e = h.1 in cc)
then_converted-Ends (some (err e)) f h every = (err e, refl)
then_converted-Ends (some (ok a)) f h every = every a

convert_elements-Ends :
    (convert : JsValue → Converted HostValue) (vs : List JsValue)
    → ((v : JsValue) → Ends (convert v))
    → Ends (convert_elements convert vs)
unfolding convert_elements
convert_elements-Ends convert [] every = (ok _, refl)
convert_elements-Ends convert (v ∷ vs) every = then_converted-Ends (convert v) _ (every v) λ h.
    then_converted-Ends (convert_elements convert vs) _ (convert_elements-Ends convert vs every)
      (λ hs. (ok _, refl))

convert_properties-Ends :
    (convert : JsValue → Converted HostValue) (m : Cekh) (ps : List (StrId × Property))
    → ((v : JsValue) → Ends (convert v))
    → Ends (convert_properties convert m ps)
unfolding convert_properties
convert_properties-Ends convert m [] every = (ok _, refl)
convert_properties-Ends convert m ((key, p) ∷ ps) every =
    then_converted-Ends (convert p.value) _ (every p.value) λ h.
      then_converted-Ends (convert_properties convert m ps) _
        (convert_properties-Ends convert m ps every) (λ fields. (ok _, refl))

convert_kind-Ends :
    (convert : JsValue → Converted HostValue) (m : Cekh) (o : Object) (kind : ObjectKind)
    → o.kind ≡ kind
    → ((v : JsValue) → Ends (convert v))
    → Ends (convert_object convert m (some o))
unfolding convert_object
convert_kind-Ends convert m o ObjectKind.ordinary e every =
    rw (convert_object, e)
      (then_converted-Ends (convert_properties convert m o.properties) _
        (convert_properties-Ends convert m o.properties every) (λ fields. (ok _, refl)))
convert_kind-Ends convert m o (ObjectKind.array elements) e every =
    rw (convert_object, e)
      (then_converted-Ends (convert_elements convert elements) _
        (convert_elements-Ends convert elements every) (λ hs. (ok _, refl)))
convert_kind-Ends convert m o (ObjectKind.function f) e every = rw (convert_object, e) (err _, refl)
convert_kind-Ends convert m o (ObjectKind.bound_function f) e every =
    rw (convert_object, e) (err _, refl)
convert_kind-Ends convert m o (ObjectKind.native_function f) e every =
    rw (convert_object, e) (err _, refl)

-- The objects on the path to a value.
record IsPath (m : Cekh) (visiting : List ℕ) : Type 0 where
  exist : All (λ i. i < length m.objects.slots) visiting
  distinct : NoRepeat visiting

object-Ends :
    (convert : JsValue → Converted HostValue) (m : Cekh) (id : ℕ) (visiting : List ℕ) (e : JsError)
    → IsPath m visiting
    → (IsPath m (id ∷ visiting) → (v : JsValue) → Ends (convert v))
    → Ends (
        if elem id visiting
        then some (err e)
        else convert_object convert m (Slots.get m.objects id))
unfolding convert_object Slots.get
object-Ends convert m id visiting e path every = elim (Bool-cases (elem id visiting)) [
  | inl cycle ↦ rw cycle (err e, refl)
  | inr fresh ↦ elim (Option-cases (Slots.get m.objects id)) [
    | inl gone ↦ rw (fresh, gone) (err _, refl)
    | inr (o, found) ↦
        rw (fresh, found)
          (convert_kind-Ends convert m o o.kind refl (
            every record {
              exist = (get_elem?-lt m.objects.slots id o found, path.exist);
              distinct = (fresh, path.distinct);
            }))
  ]
]

-- Distinct objects on the path leave enough fuel for the rest of it.
convert_out-Ends :
    (fuel : ℕ) (m : Cekh) (v : JsValue) (visiting : List ℕ)
    → IsPath m visiting
    → suc (length m.objects.slots) < fuel + length visiting
    → Ends (convert_out fuel m v visiting)
unfolding convert_out Slots.get
convert_out-Ends zero m v visiting path enough =
    absurd
      (omega (arith, length-NoRepeat (length m.objects.slots) visiting path.exist path.distinct))
convert_out-Ends (suc fuel) m JsValue.undefined visiting path enough = (ok _, refl)
convert_out-Ends (suc fuel) m JsValue.null visiting path enough = (ok _, refl)
convert_out-Ends (suc fuel) m (JsValue.bool b) visiting path enough = (ok _, refl)
convert_out-Ends (suc fuel) m (JsValue.int n) visiting path enough = (ok _, refl)
convert_out-Ends (suc fuel) m (JsValue.float f) visiting path enough = (ok _, refl)
convert_out-Ends (suc fuel) m (JsValue.string s) visiting path enough = (ok _, refl)
convert_out-Ends (suc fuel) m (JsValue.array id) visiting path enough =
    object-Ends (λ v. convert_out fuel m v (id ∷ visiting)) m id visiting _ path
      λ longer v. convert_out-Ends fuel m v (id ∷ visiting) longer (omega arith)
convert_out-Ends (suc fuel) m (JsValue.object id) visiting path enough =
    object-Ends (λ v. convert_out fuel m v (id ∷ visiting)) m id visiting _ path
      λ longer v. convert_out-Ends fuel m v (id ∷ visiting) longer (omega arith)
convert_out-Ends (suc fuel) m (JsValue.function id) visiting path enough = (err _, refl)
convert_out-Ends (suc fuel) m (JsValue.handler id) visiting path enough = (err _, refl)
convert_out-Ends (suc fuel) m (JsValue.continuation k env) visiting path enough = (err _, refl)

-- Every value is converted to a host value or refused with an error, also where its objects form a
-- cycle or do not exist: the fuel of the conversion is enough.
pub to_host_value_ends :
    (m : Cekh) (v : JsValue) → (r : Result HostValue) × (to_host_value m v ≡ some r)
unfolding to_host_value
to_host_value_ends m v =
    convert_out-Ends (suc (suc (length m.objects.slots))) m v []
      record { exist = tt; distinct = tt } (omega arith)
