-- ===== src/Lib.antt =====
-- KryhtaJS is a small JavaScript engine with algebraic effects, fibers, fuel and checkpoints. This
-- library models its stores, its control flow, its fuel and its snapshot format, translated from
-- the Rust sources.
--
-- The parts and how they interact:
--
-- The engine is a CEKH machine (src/cekh.rs): a control, an environment, a continuation and
-- handlers. Environments, continuations, handlers and objects live in arenas with a free list
-- (src/arena.rs); an id is an index into one. Names are interned in a pool (src/string_pool.rs).
-- The parser gives a syntax tree in flat vectors (src/ast.rs). A garbage collector marks what is
-- reachable and sweeps the arenas. The runtime (src/runtime.rs) runs fibers in slices, each within
-- an allowance that it takes from the fiber's meter (src/fuel.rs), and a checkpoint writes the
-- whole state as bytes (src/snapshot.rs).
--
-- The files, each with the source that it models:
--   Prelude and its children: src/error.rs (`JsError`, `display`, `Result`), `HashMap` as an
--     association list without repeated keys, and lists over the native numbers.
--   Arena: `Arena` of src/arena.rs: `alloc`, `get`, `put` (a write through `get_mut`), `take`,
--     `mark`, `is_marked`, `sweep`, `from_parts`. Arena/Live is about `alloc`, Arena/Sweep about
--     `sweep`, Arena/Links about chains of slots, as environments and continuations are.
--   Fuel: `Meters` of src/fuel.rs and the allowance that `run_scheduler` of src/runtime.rs
--     takes. Fuel/Carve is about single operations, Fuel/Conservation about histories of them.
--   StringPool, StringPool/Interning: src/string_pool.rs.
--   Value, Ast, Object, Cont, Handler: the data of src/value.rs, src/ast.rs, src/object.rs,
--     src/cont.rs and src/handler.rs, each constructor under its Rust name in this library's
--     spelling.
--   Cekh: src/cekh.rs. State has the machine's state, Walk the walk over the continuation that
--     several operations share, Jumps `handle_return`, `handle_break` and `handle_continue`,
--     Rebuild `rebuild_kont_with_k`, Perform `do_perform` and `rebase_continuation`, Push what
--     the arms of a step share, Exprs `step_expr` and Stmts `step_stmt`, Coerce the conversions
--     of values, Operators `apply_unary` and `apply_binary`, Properties the reads and writes of
--     objects, Match `match_pattern` and `try_match_arms`, Call `call_function`, Frames and
--     Apply `apply_cont`, Run `step`, `run` and `fresh_exec_setup`. Jumps/Targets,
--     Jumps/Loops, Jumps/Ends, Perform/Handled, Perform/Rebased, Push/Tops, Exprs/Pushes,
--     Stmts/Pushes and Run/Slices are about them.
--   Floats: the `f64` operations, a parameter. Builtins: src/builtins.rs. Fiber: the data of
--     src/runtime.rs and src/host.rs that describe fibers and effects.
--   Gc: src/gc.rs. Items has what slots and roots hold, Trace the trace of a slot and the loop,
--     Collect `collect`. Gc/Reach defines what is reached; Gc/Visit, Gc/Invariant, Gc/Advance,
--     Gc/Arenas, Gc/Reached and Gc/Rounds are about the collection.
--   Env: the frames of src/env.rs with both representations, `lookup`, `assign` and `define`.
--     Env/Frame is about one frame, Env/Slices about frames built from a slice, Env/Chain about
--     `lookup` and Env/Assign about `assign`.
--   Snapshot: src/snapshot.rs. Bytes has the writer and the reader, Values, Ops, Konts, Exprs,
--     Stmts, Patterns, Controls, Stores (environments, handlers, arenas), Strings, Trees and
--     Objects the format of each kind of item, their children RoundTrip and Words the proofs.
--   Host: `to_host_value` and `from_host_value` of src/host.rs; Host/Converts is about the
--     first.
--   Runtime: src/runtime.rs. Log has the events and the mode of the log (src/replay.rs), State
--     the runtime, its settings and `logged`, the write of an event; Fibers the operations on
--     single fibers, Joins what happens when one ends, Effects `handle_effect` and its handlers,
--     Schedule `run_scheduler`, Entry `run_hosted`, `run_hosted_continue`, `resume_with` and
--     `finish_run`. Moves, Quiet, Handled and Turns are about what the pieces of a round do to
--     the meters, Budget about `run_scheduler`.
--   Examples: concrete inputs for the theorems.
--
-- How the code corresponds: a mutation through `&mut self` is a function that returns the new
-- state; an id is its index; a machine integer is a number with its wrap-around written out; an
-- `i32` and an `f64` are their bit patterns. A writer is the bytes that it appends, a reader takes
-- the bytes from its position on and returns what is left of them. `?` is bind.
--
-- Bounds: the walks of `lookup` and `assign` run on one round for each slot and one more, which is
-- enough for every chain that ends, as Env/Chain shows; on a cycle of parents the source does not
-- return. The walks over the continuation have the same rounds, which are enough wherever they
-- reach a frame that stops them and on every stack that ends, as Cekh/Walk shows; `do_perform` is
-- none where the source's loop does not end, at a missing frame, and `step_expr` there and where
-- the source indexes an empty list. `decimal` has a round for each digit. `run` is structural on
-- its allowance, and its counter `steps_spent` is a part of its result; it is none where a step
-- does not end. The loop of the collector has the weight of the roots and of what every unmarked
-- slot holds as its rounds, which is enough, as Gc/Rounds shows. `match_pattern` has a round for
-- each pattern of the tree and one more, which is enough for patterns that do not contain
-- themselves. The scheduler takes a number of rounds and says where they lead, since a program
-- need not end; `to_host_value` has one round for each object and two more, which is enough, as
-- Host/Converts shows. All other recursion is structural.
--
-- Not modelled: the built-in Math object's construction, the format of the replay log and the
-- replay (src/replay.rs), the lexer and the parser, the WebAssembly bindings and the command line;
-- the parts of src/snapshot.rs for fibers, host values and the whole runtime. The `f64` operations
-- belong to the platform and are a parameter, as are the conversions between numbers and text that
-- use them. The writing of a file, a checkpoint or an event of the log, is a parameter that says
-- whether it fails. The order of a `HashMap` is unspecified: the association list's order is one
-- that it may have.
pub mod Prelude
pub mod Arena
pub mod Fuel
pub mod StringPool
pub mod Value
pub mod Ast
pub mod Object
pub mod Cont
pub mod Handler
pub mod Env
pub mod Cekh
pub mod Floats
pub mod Fiber
pub mod Host
pub mod Gc
pub mod Runtime
pub mod Builtins
pub mod Snapshot
pub mod Examples
