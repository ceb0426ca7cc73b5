-- ===== src/Snapshot/Controls/RoundTrip.antt =====
-- src/snapshot.rs: the control of a fiber survive a checkpoint.
use kryhtajs.Prelude.{◌≡◌, ◌++◌, append_assoc, arith, ok, nat_key}
use kryhtajs.Snapshot.Bytes.{Bytes}
use kryhtajs.Snapshot.Words.{u8_lem, u32_lem}
use kryhtajs.Snapshot.Values.{value_lem, seq_values_lem}
use kryhtajs.Cekh.State.{Control}
use kryhtajs.Snapshot.Controls.{write_control, read_control, IsControl}

-- The control of a fiber, of any kind, whose words fit their widths is read back as it was written,
-- and the reader stops where it ends.
pub control_lem :
    (x : Control)
    → IsControl x
    → (rest : Bytes) → read_control (write_control x ++ rest) ≡ ok (x, rest)
unfolding write_control read_control
control_lem (Control.expr e) fits rest = simp (append_assoc, u8_lem 0 (omega arith), u32_lem e fits)
control_lem (Control.stmt s) fits rest = simp (append_assoc, u8_lem 1 (omega arith), u32_lem s fits)
control_lem (Control.value v) fits rest =
    simp (append_assoc, u8_lem 2 (omega arith), value_lem v fits)
control_lem (Control.returning v) fits rest =
    simp (append_assoc, u8_lem 3 (omega arith), value_lem v fits)
control_lem (Control.halted v) fits rest =
    simp (append_assoc, u8_lem 4 (omega arith), value_lem v fits)
control_lem (Control.suspend effect args) fits rest =
    simp (append_assoc, u8_lem 5 (omega arith), u32_lem effect fits.0, seq_values_lem args fits.1)
