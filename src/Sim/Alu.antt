-- ===== src/Sim/Alu.antt =====
-- tools/riscc_sim.py, `Sim.step`: the values that the register-format instructions compute, and
-- the reasons for which an encoding is undefined.
pub mod Shifts
pub mod Words
use riscc.Prelude.{
  ℕ, zero, suc, ◌+◌, ◌*◌, ◌/◌, ◌%◌, ◌^◌, Bool, ◌&&◌, ltb, ◌==◌, if◌then◌else◌, bit_and, bit_or,
  bit_xor,
}
use riscc.Prelude.Int.{ltb_ℤ, pos, ◌-ℤ◌, low_bits}
use riscc.Prelude.Result.{Result, ok, err}
use riscc.Sim.State.{Profile, has_bits, sx16}

-- The messages of the exception `Undefined`.
pub data Undefined : Type 0 where
  long_instruction cmpi_in_nano branch_cc mul_outside_full load_sub_op byte_load_sub_op : Undefined
  slli_outside_full mdu_missing mulhu_registers divu_registers divu_operands : Undefined
  funnel_selector funnel_in_nano stb_sub_op non_jalr_in_nano iflush_field cli_sti_field : Undefined
  control_selector system_sub_op register_format : Undefined

-- The ALU group, `f5 < 0x08`.
unfoldable pub alu : Profile → ℕ → ℕ → ℕ → Result Undefined ℕ
unfolding sx16 ◌-ℤ◌
alu p f5 a b =
    if f5 == 0
    then ok ((a + b) % 2 ^ 16)
    else if f5 == 1
    then ok (low_bits 16 (pos a -ℤ pos b))
    else if f5 == 2
    then ok
        (if p.nano then (if ltb a b then 1 else 0) else (if ltb_ℤ (sx16 a) (sx16 b) then 1 else 0))
    else if f5 == 3
    then ok (if ltb a b then 1 else 0)
    else if f5 == 4
    then ok (bit_and a b)
    else if f5 == 5
    then ok (bit_or a b)
    else if f5 == 6
    then ok (bit_xor a b)
    else if p.full
    then ok (a * b % 2 ^ 16)
    else err mul_outside_full

-- The loop of SRLI and SRAI.
unfoldable pub shift_right : Bool → ℕ → ℕ → ℕ
shift_right signed zero v = v
shift_right signed (suc n) v =
    let fill = (if signed && has_bits v 0x8000 then 0x8000 else 0) in
    shift_right signed n (bit_or (v / 2) fill)

unfoldable pub funnel_left : ℕ → ℕ → ℕ
funnel_left shifted endpoint = bit_or (shifted * 2) (endpoint / 2 ^ 15) % 2 ^ 16

unfoldable pub funnel_right : ℕ → ℕ → ℕ
funnel_right shifted endpoint = bit_or (shifted / 2) (bit_and endpoint 1 * 2 ^ 15)
