-- ===== src/Snapshot/Strings.antt =====
-- src/snapshot.rs: the string pool, which is read by interning its strings in order.
pub mod RoundTrip
use kryhtajs.Prelude.{ℕ, zero, suc, ◌++◌, length, ok}
use kryhtajs.StringPool.{StringPool, intern, new}
use kryhtajs.Snapshot.Bytes.{Bytes, Reader, ◌>>=◌, pure, u32, str_, read_u32, read_str_, write_all}

unfoldable pub write_strings : StringPool → Bytes
write_strings pool = u32 (length pool.strings) ++ write_all str_ pool.strings

-- The loop over the strings.
unfoldable pub read_interned : ℕ → StringPool → Reader StringPool
read_interned zero pool = pure pool
read_interned (suc n) pool = do s ← read_str_; read_interned n (intern s pool).0

unfoldable pub read_strings : Reader StringPool
unfolding read_interned
read_strings = do n ← read_u32; read_interned n new
