-- ===== src/Snapshot/Stores.antt =====
-- src/snapshot.rs: environments, handlers and whole arenas.
pub mod RoundTrip
use kryhtajs.Prelude.{ℕ, Option, List, ◌++◌, length, ok}
use kryhtajs.Arena.{Arena, from_parts}
use kryhtajs.Env.{Env, Entry, entries, with_binding_slice}
use kryhtajs.Handler.{Handler}
use kryhtajs.Snapshot.Bytes.{
  Bytes, Reader, ◌>>=◌, pure, u16, u32, u64, read_u16, read_u32, read_u64, read_n, write_all,
}
use kryhtajs.Snapshot.Values.{write_entries, read_entries, write_opt_u32, read_opt_u32}

unfoldable pub write_env : Env → Bytes
unfolding entries
write_env env = write_entries (entries env.bindings) ++ write_opt_u32 env.parent

unfoldable pub read_env : Reader Env
read_env = do pairs ← read_entries; parent ← read_opt_u32; pure (with_binding_slice pairs parent)

unfoldable pub write_handler : Handler → Bytes
write_handler h =
    u32 h.clauses_start
    ++ (u16 h.clauses_count ++ (u32 h.return_param ++ (u32 h.return_body ++ u32 h.env)))

unfoldable pub read_handler : Reader Handler
read_handler = do
  clauses_start ← read_u32
  clauses_count ← read_u16
  return_param ← read_u32
  return_body ← read_u32
  env ← read_u32
  pure (record {
    clauses_start = clauses_start;
    clauses_count = clauses_count;
    return_param = return_param;
    return_body = return_body;
    env = env;
  })

module _ {A : Type 0} where
  unfoldable pub write_arena : (A → Bytes) → Arena A → Bytes
  write_arena write_elem a =
      u32 (length a.slots)
      ++ (write_all write_elem a.slots
          ++ (u32 (length a.free_list) ++ (write_all u32 a.free_list ++ u64 a.allocations)))

  unfoldable pub read_arena : Reader A → Reader (Arena A)
  unfolding from_parts
  read_arena read_elem = do
    n ← read_u32
    slots ← read_n n read_elem
    free_n ← read_u32
    free_list ← read_n free_n read_u32
    allocations ← read_u64
    pure (from_parts slots free_list allocations)
