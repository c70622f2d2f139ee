-- ===== src/Sim/Exec.antt =====
-- tools/riscc_sim.py, the body of `Sim.step` after the interrupt test: one function for each group
-- of instructions. Each takes the state, the instruction word and the address of the next
-- instruction, and returns the state with the next program counter, or raises.
pub mod Mdu
use riscc.Prelude.{
  ℕ, ◌+◌, ◌*◌, ◌/◌, ◌%◌, ◌^◌, Bool, true, not, ◌&&◌, ◌||◌, ltb, leb, ◌==◌, if◌then◌else◌, bit_and,
  bit_or, bit_xor,
}
use riscc.Prelude.Int.{ℤ, pos, negsuc, ◌+ℤ◌, ◌-ℤ◌, low_bits, eqb_ℤ}
use riscc.Prelude.Result.{Result, ok, err}
use riscc.Sim.State.{Sim, update, has_bits, sx8}
use riscc.Sim.Memory.{load_word, store_word}
use riscc.Sim.Alu.{
  Undefined, long_instruction, cmpi_in_nano, branch_cc, mdu_missing, mulhu_registers,
  divu_registers, divu_operands, non_jalr_in_nano, iflush_field, cli_sti_field, control_selector,
  system_sub_op,
}

abbrev pub opc : ℕ → ℕ
opc ir = ir / 2 ^ 14

abbrev pub ddd : ℕ → ℕ
ddd ir = ir / 2 ^ 11 % 2 ^ 3

abbrev pub aaa : ℕ → ℕ
aaa ir = ir / 2 ^ 8 % 2 ^ 3

abbrev pub f5 : ℕ → ℕ
f5 ir = ir / 2 ^ 3 % 2 ^ 5

abbrev pub bbb : ℕ → ℕ
bbb ir = ir % 2 ^ 3

abbrev pub imm8 : ℕ → ℕ
imm8 ir = ir % 2 ^ 8

abbrev pub set_reg : Sim → ℕ → ℕ → Sim
set_reg m d v = record m { r = update m.r d v }

abbrev pub set_sreg : Sim → ℕ → ℕ → Sim
set_sreg m d v = record m { s = update m.s d v }

-- `S[d] = link` unless d is 0
abbrev pub link_sreg : Sim → ℕ → ℕ → Sim
link_sreg m d v = if d == 0 then m else set_sreg m d v

-- The state and the next program counter.
abbrev pub Next : Type 0
Next = Sim × ℕ

unfoldable pub exec_long : Sim → ℕ → ℕ → Result Undefined Next
exec_long m ir pc_next =
    if not m.long_jall
    then err long_instruction
    else let extension = m.mem (pc_next % 2 ^ 15) in
      ok (link_sreg m (ddd ir) ((m.pc + 2) * 2 % 2 ^ 16), extension / 2 % 2 ^ 15)

unfoldable pub exec_mem : Sim → ℕ → ℕ → Result Undefined Next
unfolding sx8 ◌+ℤ◌
exec_mem m ir pc_next =
    let addr = low_bits 16 (pos (m.r (aaa ir)) +ℤ sx8 (bit_and (imm8 ir) 0xfe)) in
    if has_bits ir 1
    then ok (store_word m addr (m.r (ddd ir)) 3, pc_next)
    else let (val, m') = load_word m addr in ok (set_reg m' (ddd ir) val, pc_next)

-- The condition of a branch, `[...][ddd]`.
abbrev pub branch_taken : ℕ → ℕ → Bool
branch_taken cc r0 =
    if cc == 0
    then r0 == 0
    else if cc == 1
    then not (r0 == 0)
    else if cc == 2
    then has_bits r0 0x8000
    else not (has_bits r0 0x8000)

-- `sx8((imm8 >> 1) | ((imm8 & 1) << 7))`
unfoldable pub branch_rel : ℕ → ℤ
unfolding sx8
branch_rel imm = sx8 (bit_or (imm / 2) (bit_and imm 1 * 2 ^ 7))

unfoldable pub exec_branch : Sim → ℕ → ℕ → Result Undefined Next
unfolding branch_rel ◌+ℤ◌
exec_branch m ir pc_next =
    let rel = branch_rel (imm8 ir) in
    let target = low_bits 15 (pos pc_next +ℤ rel) in
    if ltb (ddd ir) 4
    then ok (m, (if branch_taken (ddd ir) (m.r 0) then target else pc_next))
    else if ddd ir == 4
    then ok ((if eqb_ℤ rel (negsuc 0) then record m { halted = true } else m), target)
    else err branch_cc

unfoldable pub exec_imm : Sim → ℕ → ℕ → Result Undefined Next
unfolding sx8 ◌+ℤ◌ ◌-ℤ◌ exec_branch
exec_imm m ir pc_next =
    let d = ddd ir in
    let imm = imm8 ir in
    if aaa ir == 0
    then ok (set_reg m d imm, pc_next)
    else if aaa ir == 1
    then ok (set_reg m d (imm * 2 ^ 8 % 2 ^ 16), pc_next)
    else if aaa ir == 2
    then ok (set_reg m d (low_bits 16 (pos (m.r d) +ℤ sx8 imm)), pc_next)
    else if aaa ir == 3
    then (if m.nano
        then err cmpi_in_nano
        else ok (set_reg m 0 (low_bits 16 (pos (m.r d) -ℤ sx8 imm)), pc_next))
    else if aaa ir == 4
    then ok (set_reg m d (bit_and (m.r d) imm), pc_next)
    else if aaa ir == 5
    then ok (set_reg m d (bit_or (m.r d) imm), pc_next)
    else if aaa ir == 6
    then ok (set_reg m d (bit_xor (m.r d) imm), pc_next)
    else exec_branch m ir pc_next

-- DIVU and MULHU.
unfoldable pub exec_mdu : Sim → ℕ → ℕ → Result Undefined Next
exec_mdu m ir pc_next =
    let d = ddd ir in
    let a = aaa ir in
    let b = bbb ir in
    if not m.mdu
    then err mdu_missing
    else if f5 ir == 0x14
    then (if d == a
        then err mulhu_registers
        else let product = m.r a * m.r b in
          ok (set_reg (set_reg m d (product % 2 ^ 16)) a (product / 2 ^ 16 % 2 ^ 16), pc_next))
    else if d == a || d == b || a == b
    then err divu_registers
    else let dividend = bit_or (m.r d * 2 ^ 16) (m.r a) in
      let divisor = m.r b in
      if divisor == 0 || leb divisor (m.r d)
      then err divu_operands
      else ok (set_reg (set_reg m a (dividend / divisor)) d (dividend % divisor), pc_next)

-- The control subgroup, `bbb = 0`.
unfoldable pub exec_control : Sim → ℕ → ℕ → Result Undefined Next
exec_control m ir pc_next =
    let d = ddd ir in
    let a = aaa ir in
    if d == 0
    then ok (m, m.s a / 2 % 2 ^ 15)
    else if d == 5 && m.sys_tier
    then ok (record m { ie = 1 }, m.s a / 2 % 2 ^ 15)
    else if d == 3 && m.iflush
    then (if a == 0 then ok (m, pc_next) else err iflush_field)
    else if (d == 2 || d == 7) && m.sys_tier
    then (if a == 0
        then ok (record m { ie = if d == 7 then 1 else 0 }, pc_next)
        else err cli_sti_field)
    else err control_selector

-- The system group, `f5 = 0x1F`. In Nano the only operation is JALR with a link in `rd`.
unfoldable pub exec_sys : Sim → ℕ → ℕ → Result Undefined Next
unfolding exec_control
exec_sys m ir pc_next =
    let d = ddd ir in
    let a = aaa ir in
    let target = m.r a / 2 % 2 ^ 15 in
    let link = pc_next * 2 % 2 ^ 16 in
    if m.nano
    then (if bbb ir == 1
        then ok ((if d == 0 then m else set_reg m d link), target)
        else err non_jalr_in_nano)
    else if bbb ir == 0
    then exec_control m ir pc_next
    else if bbb ir == 1
    then ok (link_sreg m d link, target)
    else if bbb ir == 2
    then ok (set_reg m d (m.s a), pc_next)
    else if bbb ir == 3
    then ok (set_sreg m d (m.r a), pc_next)
    else err system_sub_op
