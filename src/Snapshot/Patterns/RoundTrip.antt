-- ===== src/Snapshot/Patterns/RoundTrip.antt =====
-- src/snapshot.rs: patterns survive a checkpoint.
use kryhtajs.Prelude.{◌≡◌, ◌++◌, append_assoc, arith, ok, nat_key}
use kryhtajs.Snapshot.Bytes.{Bytes}
use kryhtajs.Snapshot.Words.{u8_lem, u16_lem, u32_lem}
use kryhtajs.Ast.{Pattern}
use kryhtajs.Snapshot.Patterns.{write_pattern, read_pattern, IsPattern}

-- A pattern of any kind whose words fit their widths is read back as it was written, and the reader
-- stops where it ends.
pub pattern_lem :
    (x : Pattern)
    → IsPattern x
    → (rest : Bytes) → read_pattern (write_pattern x ++ rest) ≡ ok (x, rest)
unfolding write_pattern read_pattern
pattern_lem Pattern.wildcard fits rest = simp (u8_lem 0 (omega arith))
pattern_lem (Pattern.literal e) fits rest =
    simp (append_assoc, u8_lem 1 (omega arith), u32_lem e fits)
pattern_lem (Pattern.var s) fits rest = simp (append_assoc, u8_lem 2 (omega arith), u32_lem s fits)
pattern_lem (Pattern.array elems_start elems_count) fits rest =
    simp
      (append_assoc, u8_lem 3 (omega arith), u32_lem elems_start fits.0, u16_lem elems_count fits.1)
pattern_lem (Pattern.object fields_start fields_count) fits rest =
    simp (
      append_assoc,
      u8_lem 4 (omega arith),
      u32_lem fields_start fits.0,
      u16_lem fields_count fits.1,
    )
