-- ===== src/Examples/Codec.antt =====
-- src/snapshot.rs: one item of each kind, written and read back with a byte that follows it.
use kryhtajs.Prelude.{ℕ, ◌≡◌, refl, arith, true, false, some, List, [], ◌∷◌, ◌++◌, ascii, ok}
use kryhtajs.Value.{JsValue, StrId}
use kryhtajs.Arena.{Arena}
use kryhtajs.Env.{Env, Bindings, entries, get_local}
use kryhtajs.Snapshot.Stores.{write_env, read_env, write_arena, read_arena}
use kryhtajs.Snapshot.Stores.RoundTrip.{env_lem, arena_lem}
use kryhtajs.Ast as Tree
use kryhtajs.Ast.{AstArena, Expr, Stmt, Pattern, BinaryOp}
use kryhtajs.Object.{Object, closure, new_function, plain}
use kryhtajs.Snapshot.Objects.{write_object, read_object}
use kryhtajs.Snapshot.Objects.RoundTrip.{FitsObject, object_lem}
use kryhtajs.Snapshot.Trees.{write_ast, read_ast}
use kryhtajs.Snapshot.Trees.RoundTrip.{FitsAst, ast_lem}
use kryhtajs.Cont.{Kont}
use kryhtajs.Cekh.State.{Control}
use kryhtajs.Snapshot.Bytes.{Bytes, is_utf8}
use kryhtajs.Snapshot.Strings.{write_strings, read_strings}
use kryhtajs.Snapshot.Strings.RoundTrip.{strings_lem}
use kryhtajs.StringPool as Pool
use kryhtajs.StringPool.{StringPool, intern}
use kryhtajs.StringPool.Interning.{new-IsConsistent, intern-IsConsistent}
use kryhtajs.Snapshot.Values.{
  write_value, read_value, IsValue, value_lem, IsValues, write_entries, read_entries, entries_lem,
}
use kryhtajs.Snapshot.Konts.{write_kont}
use kryhtajs.Snapshot.Konts.Read.{read_kont}
use kryhtajs.Snapshot.Konts.RoundTrip.{kont_lem}
use kryhtajs.Snapshot.Stmts.{write_stmt, read_stmt}
use kryhtajs.Snapshot.Stmts.RoundTrip.{stmt_lem}

abbrev next : Bytes
next = 7 ∷ []

abbrev values : List JsValue
values = JsValue.int 300 ∷ JsValue.continuation 1 2 ∷ []

values-IsValues : IsValues values
values-IsValues = record {
  few = omega arith;
  each = (omega arith, ((omega arith, omega arith), tt));
}

abbrev call : Kont
call = Kont.args_k (JsValue.function 3) values 4 1 2 0 9

kont_lem_example : read_kont (write_kont call ++ next) ≡ ok (call, next)
kont_lem_example =
    kont_lem call
      (
        omega arith,
        values-IsValues,
        omega arith,
        omega arith,
        omega arith,
        omega arith,
        omega arith,
      )
      next

abbrev sum_expr : Expr
sum_expr = Expr.binary BinaryOp.add 1 2

abbrev loop_stmt : Stmt
loop_stmt = Stmt.while_stmt 5 6

stmt_lem_example : read_stmt (write_stmt loop_stmt ++ next) ≡ ok (loop_stmt, next)
stmt_lem_example = stmt_lem loop_stmt (omega arith, omega arith) next

abbrev var_pattern : Pattern
var_pattern = Pattern.var 8

abbrev paused : Control
paused = Control.suspend 12 values

value_lem_example :
    read_value (write_value (JsValue.float 0x4000_0000_0000_0000) ++ next)
    ≡ ok (JsValue.float 0x4000_0000_0000_0000, next)
value_lem_example = value_lem (JsValue.float 0x4000_0000_0000_0000) (omega arith) next

abbrev bindings : List (ℕ × JsValue)
bindings = (1, JsValue.null) ∷ (2, JsValue.bool true) ∷ []

entries_lem_example : read_entries (write_entries bindings ++ next) ≡ ok (bindings, next)
entries_lem_example =
    entries_lem bindings
      (record { few = omega arith; each = ((omega arith, tt), ((omega arith, tt), tt)) }) next

abbrev two_strings : StringPool
two_strings = (intern (ascii "k") Pool.new).0

strings_lem_example :
    (q : StringPool) × (read_strings (write_strings two_strings ++ next) ≡ ok (q, next))
    × (q.strings ≡ [] ∷ ascii "k" ∷ [])
    × Pool.IsConsistent q
unfolding intern Pool.new is_utf8
strings_lem_example =
    strings_lem two_strings (ascii "k" ∷ []) next
      (intern-IsConsistent (ascii "k") Pool.new new-IsConsistent (omega arith)) refl (omega arith)
      (record { utf8 = refl; fits = omega arith }, (record { utf8 = refl; fits = omega arith }, tt))

-- Three names make a large frame.
abbrev large_frame : Env
large_frame = record {
  bindings = Bindings.large ((1, JsValue.null) ∷ (2, JsValue.bool true) ∷ (3, JsValue.int 4) ∷ []);
  parent = some 0;
}

env_lem_example :
    (env' : Env) × (read_env (write_env large_frame ++ next) ≡ ok (env', next))
    × (env'.parent ≡ some 0)
    × ((name : StrId) → get_local env' name ≡ get_local large_frame name)
unfolding entries
env_lem_example =
    env_lem large_frame next (refl, (refl, (refl, tt)))
      (record {
        few = omega arith;
        each = ((omega arith, tt), ((omega arith, tt), ((omega arith, omega arith), tt)));
      })
      (omega arith)

-- A slot in use and a free one.
abbrev value_arena : Arena JsValue
value_arena = record {
  slots = JsValue.int 7 ∷ JsValue.null ∷ [];
  free_list = 1 ∷ [];
  marks = true ∷ false ∷ [];
  allocations = 2;
}

arena_lem_example :
    read_arena read_value (write_arena write_value value_arena ++ next)
    ≡ ok (record value_arena { marks = false ∷ false ∷ [] }, next)
arena_lem_example =
    arena_lem write_value read_value IsValue value_lem value_arena
      (record {
        slots = (omega arith, (omega arith, (tt, tt)));
        free = (omega arith, (omega arith, tt));
        allocations = omega arith;
      })
      next

-- The program `null;`.
abbrev null_program : AstArena
null_program = record Tree.new {
  exprs = Expr.null ∷ [];
  stmts = Stmt.expr 0 ∷ [];
  stmt_lists = 0 ∷ [];
  root_start = 0;
  root_count = 1;
}

null_program-FitsAst : FitsAst null_program
unfolding Tree.new
null_program-FitsAst = record {
  exprs = (omega arith, (tt, tt));
  stmts = (omega arith, (omega arith, tt));
  patterns = (omega arith, tt);
  expr_lists = (omega arith, tt);
  stmt_lists = (omega arith, (omega arith, tt));
  param_lists = (omega arith, tt);
  prop_lists = (omega arith, tt);
  pattern_lists = (omega arith, tt);
  pattern_fields = (omega arith, tt);
  arms = (omega arith, tt);
  effect_clauses = (omega arith, tt);
  floats = (omega arith, tt);
  root = (omega arith, omega arith);
}

ast_lem_example : read_ast (write_ast null_program ++ next) ≡ ok (null_program, next)
ast_lem_example = ast_lem null_program null_program-FitsAst next

-- A function with a property.
abbrev with_property : Object
with_property = record (closure (new_function 0 2 3 1 (some 9))) {
  properties = (5, plain (JsValue.int 7)) ∷ [];
}

with_property-FitsObject : FitsObject with_property
unfolding closure new_function plain
with_property-FitsObject = record {
  properties = (omega arith, ((omega arith, omega arith), tt));
  distinct = (refl, tt);
  prototype = tt;
  kind = record {
    params = (omega arith, omega arith);
    bodies = (omega arith, tt);
    env = omega arith;
    name = omega arith;
  };
}

object_lem_example : read_object (write_object with_property ++ next) ≡ ok (with_property, next)
object_lem_example = object_lem with_property with_property-FitsObject next
