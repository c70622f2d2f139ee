-- ===== src/Sim/Register.antt =====
-- tools/riscc_sim.py, the register-format branch of `Sim.step`, and the choice between the formats.
pub mod Alias
use riscc.Prelude.{ℕ, ◌+◌, ◌*◌, ◌%◌, ◌^◌, true, false, not, ◌||◌, ltb, ◌==◌, if◌then◌else◌, bit_and}
use riscc.Prelude.Result.{Result, ok, err, ◌>>=◌}
use riscc.Sim.State.{Sim}
use riscc.Sim.Memory.{load_word, ldb, stb}
use riscc.Sim.Alu.{
  Undefined, load_sub_op, byte_load_sub_op, slli_outside_full, funnel_selector, funnel_in_nano,
  stb_sub_op, register_format, alu, shift_right, funnel_left, funnel_right,
}
use riscc.Sim.Exec.{
  opc, ddd, aaa, f5, bbb, set_reg, Next, exec_long, exec_mem, exec_imm, exec_mdu, exec_sys,
}

-- SRLI, SRAI, SLLI, FSL1 and FSR1.
unfoldable pub exec_shift : Sim → ℕ → ℕ → Result Undefined Next
unfolding shift_right funnel_left funnel_right
exec_shift m ir pc_next =
    let d = ddd ir in
    let v = m.r (aaa ir) in
    if f5 ir == 0x0c || f5 ir == 0x0d
    then (let n = (if m.nano then 1 else if m.shifts then bbb ir + 1 else 1) in
        ok (set_reg m d (shift_right (f5 ir == 0x0d) n v), pc_next))
    else if f5 ir == 0x0f
    then (if m.nano || not m.shifts
        then err slli_outside_full
        else ok (set_reg m d (v * 2 ^ (bbb ir + 1) % 2 ^ 16), pc_next))
    else if ltb 1 (bbb ir)
    then err funnel_selector
    else if m.nano
    then err funnel_in_nano
    else ok (
      set_reg m d (if bbb ir == 0 then funnel_left (m.r d) v else funnel_right (m.r d) v),
      pc_next,
    )

-- LDX, LDB, LDBS and STB.
unfoldable pub exec_direct : Sim → ℕ → ℕ → Result Undefined Next
exec_direct m ir pc_next =
    let d = ddd ir in
    let a = m.r (aaa ir) in
    if f5 ir == 0x08
    then (let (val, m') = load_word m ((a + m.r (bbb ir)) % 2 ^ 16) in
        ok (set_reg m' d val, pc_next))
    else if f5 ir == 0x0a
    then (if bbb ir == 0 then ok (set_reg m d (ldb m a false), pc_next) else err load_sub_op)
    else if f5 ir == 0x0e
    then (if bbb ir == 0 then ok (set_reg m d (ldb m a true), pc_next) else err byte_load_sub_op)
    else if bbb ir == 0
    then ok (stb m a (m.r d), pc_next)
    else err stb_sub_op

unfoldable pub exec_register : Sim → ℕ → ℕ → Result Undefined Next
unfolding exec_direct exec_shift
exec_register m ir pc_next =
    if ltb (f5 ir) 0x08
    then (alu m.profile (f5 ir) (m.r (aaa ir)) (m.r (bbb ir)) >>= λ res.
        ok (set_reg m (ddd ir) res, pc_next))
    else if f5 ir == 0x08 || f5 ir == 0x0a || f5 ir == 0x0e || f5 ir == 0x0b
    then exec_direct m ir pc_next
    else if f5 ir == 0x0c || f5 ir == 0x0d || f5 ir == 0x0f || f5 ir == 0x11
    then exec_shift m ir pc_next
    else if f5 ir == 0x10 || f5 ir == 0x14
    then exec_mdu m ir pc_next
    else if f5 ir == 0x1f
    then exec_sys m ir pc_next
    else err register_format

-- The dispatch on the format: long, memory, immediate, and every other word as register format.
unfoldable pub execute : Sim → ℕ → ℕ → Result Undefined Next
execute m ir pc_next =
    if bit_and ir 0xc7ff == 0x0034
    then exec_long m ir pc_next
    else if opc ir == 1
    then exec_mem m ir pc_next
    else if opc ir == 2
    then exec_imm m ir pc_next
    else exec_register m ir pc_next
