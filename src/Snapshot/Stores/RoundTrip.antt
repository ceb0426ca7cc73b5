-- ===== src/Snapshot/Stores/RoundTrip.antt =====
-- src/snapshot.rs: environments, handlers and arenas survive a checkpoint.
use kryhtajs.Prelude.{
  ◌^◌, ◌<◌, ◌≡◌, ◌∙◌, refl, sym, false, ◌++◌, append_assoc, ok, length, All, replicate, lookup,
  DistinctKeys, nat_key,
}
use kryhtajs.Value.{StrId}
use kryhtajs.Arena.{Arena}
use kryhtajs.Env.{Bindings, Env, entries, find, get_local, with_binding_slice}
use kryhtajs.Env.Frame.{IsFrame}
use kryhtajs.Env.Slices.{last_value-lookup, get_local-with_binding_slice, parent-with_binding_slice}
use kryhtajs.Handler.{Handler}
use kryhtajs.Snapshot.Bytes.{Bytes, Reader, u32, read_u32}
use kryhtajs.Snapshot.Words.{u16_lem, u32_lem, u64_lem, read_n-write_all}
use kryhtajs.Snapshot.Values.{IsEntries, entries_lem, FitsOpt, opt_u32_lem}
use kryhtajs.Snapshot.Stores.{
  write_env, read_env, write_handler, read_handler, write_arena, read_arena,
}

find-entries : (b : Bindings) (name : StrId) → find b name ≡ lookup name (entries b)
unfolding find entries
find-entries (Bindings.small a b len) name = refl
find-entries (Bindings.large m) name = refl

entries-DistinctKeys : (b : Bindings) → IsFrame b → DistinctKeys (entries b)
unfolding entries
entries-DistinctKeys (Bindings.small a b len) h = h.1
entries-DistinctKeys (Bindings.large m) h = h

read_env-write_env :
    (env : Env) (rest : Bytes)
    → IsEntries (entries env.bindings)
    → FitsOpt env.parent
    → read_env (write_env env ++ rest)
      ≡ ok (with_binding_slice (entries env.bindings) env.parent, rest)
unfolding read_env write_env
read_env-write_env env rest fits up =
    simp (append_assoc, entries_lem (entries env.bindings) fits, opt_u32_lem env.parent up)

-- A well-formed frame of variables whose words fit their widths is read back as a frame with the
-- same parent in which every name has the same value, in whichever representation, and the reader
-- stops where it ends.
pub env_lem :
    (env : Env) (rest : Bytes)
    → IsFrame env.bindings
    → IsEntries (entries env.bindings)
    → FitsOpt env.parent
    → (env' : Env) × (read_env (write_env env ++ rest) ≡ ok (env', rest))
      × (env'.parent ≡ env.parent)
      × ((name : StrId) → get_local env' name ≡ get_local env name)
unfolding get_local
env_lem env rest w fits up = (
  with_binding_slice (entries env.bindings) env.parent,
  read_env-write_env env rest fits up,
  parent-with_binding_slice (entries env.bindings) env.parent,
  λ name.
      get_local-with_binding_slice (entries env.bindings) env.parent name
      ∙ (last_value-lookup (entries env.bindings) name (entries-DistinctKeys env.bindings w)
          ∙ sym (find-entries env.bindings name)),
)

-- The words of a handler fit their widths.
record IsHandler (h : Handler) : Type 0 where
  pub clauses : (h.clauses_start < 2 ^ 32) × (h.clauses_count < 2 ^ 16)
  pub return : (h.return_param < 2 ^ 32) × (h.return_body < 2 ^ 32)
  pub env : h.env < 2 ^ 32

handler_lem :
    (h : Handler)
    → IsHandler h
    → (rest : Bytes) → read_handler (write_handler h ++ rest) ≡ ok (h, rest)
unfolding read_handler write_handler
handler_lem h fits rest = simp (
  append_assoc,
  u32_lem h.clauses_start fits.clauses.0,
  u16_lem h.clauses_count fits.clauses.1,
  u32_lem h.return_param fits.return.0,
  u32_lem h.return_body fits.return.1,
  u32_lem h.env fits.env,
)

-- The words of an arena fit their widths.
pub record FitsArena {A : Type 0} (P : A → Type 0) (a : Arena A) : Type 0 where
  pub slots : (length a.slots < 2 ^ 32) × All P a.slots
  pub free : (length a.free_list < 2 ^ 32) × All (λ i. i < 2 ^ 32) a.free_list
  pub allocations : a.allocations < 2 ^ 64

-- For any element format that reads back what it writes, an arena whose words fit their widths is
-- read back with the same slots, free list and number of allocations and with no mark, and the
-- reader stops where it ends.
pub arena_lem :
    {A : Type 0} (write : A → Bytes) (read : Reader A) (P : A → Type 0)
    → ((x : A) → P x → (rest : Bytes) → read (write x ++ rest) ≡ ok (x, rest))
    → (a : Arena A) → FitsArena P a
    → (rest : Bytes)
    → read_arena read (write_arena write a ++ rest)
      ≡ ok (record a { marks = replicate (length a.slots) false }, rest)
unfolding read_arena write_arena
arena_lem write read P one a fits rest = simp (
  append_assoc,
  u32_lem (length a.slots) fits.slots.0,
  read_n-write_all write read P one a.slots fits.slots.1,
  u32_lem (length a.free_list) fits.free.0,
  read_n-write_all u32 read_u32 (λ i. i < 2 ^ 32) u32_lem a.free_list fits.free.1,
  u64_lem a.allocations fits.allocations,
)
