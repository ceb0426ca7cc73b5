-- ===== src/Cekh/Match.antt =====
-- src/cekh.rs: `match_pattern`, `eval_literal` and `try_match_arms`.
use kryhtajs.Prelude.{
  ℕ, zero, suc, Option, none, some, List, [], ◌∷◌, length, ◌==◌, if◌then◌else◌, Result, ok, err,
  internal_error, ascii, insert_all, nat_key, drop,
}
use kryhtajs.Value.{JsValue, EnvId, ContId}
use kryhtajs.Ast.{
  AstArena, ExprId, PatternId, Expr, Pattern, PatternField, MatchArm, get_expr, get_float,
  get_pattern, get_pattern_list, get_pattern_field_list, get_arm_list,
}
use kryhtajs.Arena as Slots
use kryhtajs.Env.{Entry, extend_with}
use kryhtajs.Floats.{Floats}
use kryhtajs.Object as Obj
use kryhtajs.Object.{Object, ObjectKind}
use kryhtajs.Cekh.State.{Cekh, Control}
use kryhtajs.Cekh.Coerce.{strict_equals}
use kryhtajs.Cekh.Properties.{Objects}

-- The bindings of a match, or none.
abbrev pub Bound : Type 0
Bound = Option (List Entry)

-- The result of a recursion; `none` where the fuel ran out.
abbrev pub Matched : Type 0
Matched = Option (Result Bound)

unfoldable pub literal_of : Expr → AstArena → Result JsValue
unfolding get_float
literal_of Expr.undefined ast = ok JsValue.undefined
literal_of Expr.null ast = ok JsValue.null
literal_of (Expr.bool b) ast = ok (JsValue.bool b)
literal_of (Expr.int n) ast = ok (JsValue.int n)
literal_of (Expr.float idx) ast = elim (get_float ast idx) [
  | none ↦ ok (JsValue.float 0)
  | some f ↦ ok (JsValue.float f)
]
literal_of (Expr.string s) ast = ok (JsValue.string s)
literal_of _ ast = err (internal_error (ascii "Expected literal in pattern"))

unfoldable pub eval_literal : ExprId → AstArena → Result JsValue
unfolding literal_of get_expr
eval_literal id ast = elim (get_expr ast id) [
  | none ↦ err (internal_error (ascii "Invalid expression ID"))
  | some e ↦ literal_of e ast
]

abbrev pub Matcher : Type 0
Matcher = PatternId → JsValue → Matched

-- One element's result, then the others', whose bindings come later.
abbrev pub then_match : Matched → Matched → Matched
then_match none rest = none
then_match (some (err e)) rest = some (err e)
then_match (some (ok none)) rest = some (ok none)
then_match (some (ok (some bindings))) none = none
then_match (some (ok (some bindings))) (some (err e)) = some (err e)
then_match (some (ok (some bindings))) (some (ok none)) = some (ok none)
then_match (some (ok (some bindings))) (some (ok (some later))) =
    some (ok (some (insert_all later bindings)))

-- The loops of the array's and the object's patterns, on what matches one pattern.
unfoldable pub match_elements : Matcher → List PatternId → List JsValue → Matched
match_elements match [] elements = some (ok (some []))
match_elements match (p ∷ ps) [] = some (ok (some []))
match_elements match (p ∷ ps) (v ∷ vs) = then_match (match p v) (match_elements match ps vs)

unfoldable pub match_fields : Matcher → Object → List PatternField → Matched
unfolding Obj.get
match_fields match o [] = some (ok (some []))
match_fields match o (f ∷ fs) = elim (Obj.get o f.key) [
  | none ↦ some (ok none)
  | some v ↦ then_match (match f.pattern_id v) (match_fields match o fs)
]

module _ ⦃fl : Floats⦄ where
  abbrev match_literal : JsValue → Result JsValue → Result Bound
  match_literal v (err e) = err e
  match_literal v (ok l) = ok (if strict_equals v l then some [] else none)

  abbrev match_array : Matcher → List PatternId → Option Object → Matched
  match_array match ps none = some (err (internal_error (ascii "Invalid array")))
  match_array match ps (some o) = elim o.kind [
    | ObjectKind.array elements ↦
        if length ps == length elements then match_elements match ps elements else some (ok none)
    | _ ↦ some (ok none)
  ]

  abbrev match_object : Matcher → List PatternField → Option Object → Matched
  match_object match fs none = some (err (internal_error (ascii "Invalid object")))
  match_object match fs (some o) = match_fields match o fs

  -- The arms of `match_pattern`, on what matches the patterns inside.
  unfoldable pub match_at : Matcher → Objects → AstArena → Pattern → JsValue → Matched
  unfolding match_elements match_fields eval_literal strict_equals
  match_at match objects ast Pattern.wildcard v = some (ok (some []))
  match_at match objects ast (Pattern.var name) v = some (ok (some ((name, v) ∷ [])))
  match_at match objects ast (Pattern.literal e) v = some (match_literal v (eval_literal e ast))
  match_at match objects ast (Pattern.array start count) (JsValue.array id) =
      match_array match (get_pattern_list ast start count) (Slots.get objects id)
  match_at match objects ast (Pattern.array start count) v = some (ok none)
  match_at match objects ast (Pattern.object start count) (JsValue.object id) =
      match_object match (get_pattern_field_list ast start count) (Slots.get objects id)
  match_at match objects ast (Pattern.object start count) v = some (ok none)

  abbrev match_found : Matcher → Objects → AstArena → Option Pattern → JsValue → Matched
  match_found match objects ast none v = some (err (internal_error (ascii "Invalid pattern ID")))
  match_found match objects ast (some p) v = match_at match objects ast p v

  -- A round for each level of the pattern.
  unfoldable pub match_from : ℕ → Objects → AstArena → PatternId → JsValue → Matched
  unfolding match_at get_pattern
  match_from zero objects ast p v = none
  match_from (suc fuel) objects ast p v =
      match_found (match_from fuel objects ast) objects ast (get_pattern ast p) v

  unfoldable pub match_pattern : Objects → AstArena → PatternId → JsValue → Matched
  unfolding match_from
  match_pattern objects ast p v = match_from (suc (length ast.patterns)) objects ast p v

  -- The body of the arm whose pattern matches; its guard is not evaluated.
  unfoldable pub enter_arm : MatchArm → List Entry → EnvId → ContId → Cekh → Cekh
  unfolding extend_with
  enter_arm arm bindings env k m =
      let (envs, match_env) = extend_with m.envs env bindings in
      record m { envs = envs; env = match_env; control = Control.expr arm.body; cont = k }

  abbrev no_match : Result Cekh
  no_match = err (internal_error (ascii "No pattern matched in match expression"))

  abbrev try_result :
      Matched → MatchArm → EnvId → ContId → Cekh → Option (Result Cekh) → Option (Result Cekh)
  try_result none arm env k m rest = none
  try_result (some (err e)) arm env k m rest = some (err e)
  try_result (some (ok none)) arm env k m rest = rest
  try_result (some (ok (some bindings))) arm env k m rest =
      some (ok (enter_arm arm bindings env k m))

  -- The loop over the arms.
  unfoldable pub try_arms :
      List MatchArm → JsValue → EnvId → ContId → AstArena → Cekh → Option (Result Cekh)
  unfolding match_pattern enter_arm
  try_arms [] v env k ast m = some no_match
  try_arms (arm ∷ arms) v env k ast m =
      try_result (match_pattern m.objects ast arm.pattern_id v) arm env k m
        (try_arms arms v env k ast m)

  unfoldable pub try_match_arms :
      JsValue → ℕ → ℕ → ℕ → EnvId → ContId → AstArena → Cekh → Option (Result Cekh)
  unfolding try_arms
  try_match_arms v start idx count env k ast m =
      try_arms (drop idx (get_arm_list ast start count)) v env k ast m
