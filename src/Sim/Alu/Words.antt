-- ===== src/Sim/Alu/Words.antt =====
-- tools/riscc_sim.py: the ALU group against an independent description on 16-bit words.
use riscc.Prelude.{
  ℕ, ◌+◌, ◌-◌, ◌*◌, ◌%◌, ◌^◌, ◌<◌, ◌≡◌, ap, refl, arith, ltb, if◌then◌else◌, bit_and, bit_or,
  bit_xor,
}
use riscc.Prelude.Int.{pos, low_bits, ◌-ℤ◌, ltb_ℤ}
use riscc.Prelude.Result.{Result, ok, err}
use riscc.Sim.State.{Profile, sx16}
use riscc.Sim.Memory.Bytes.{word_sign}
use riscc.Sim.Alu.{Undefined, mul_outside_full, alu}

-- The eight operations of the group, in the order of their codes.
pub data AluOp : Type 0 where
  add sub slt sltu and_ or_ xor_ mul : AluOp

abbrev pub alu_code : AluOp → ℕ
alu_code add = 0
alu_code sub = 1
alu_code slt = 2
alu_code sltu = 3
alu_code and_ = 4
alu_code or_ = 5
alu_code xor_ = 6
alu_code mul = 7

-- Modular arithmetic, and a signed comparison by the biased words.
abbrev pub alu_meaning : AluOp → ℕ → ℕ → ℕ
alu_meaning add a b = (a + b) % 2 ^ 16
alu_meaning sub a b = (a + 2 ^ 16 - b) % 2 ^ 16
alu_meaning slt a b = if ltb ((a + 2 ^ 15) % 2 ^ 16) ((b + 2 ^ 15) % 2 ^ 16) then 1 else 0
alu_meaning sltu a b = if ltb a b then 1 else 0
alu_meaning and_ a b = bit_and a b
alu_meaning or_ a b = bit_or a b
alu_meaning xor_ a b = bit_xor a b
alu_meaning mul a b = a * b % 2 ^ 16

-- MUL wants the full profile; Nano compares unsigned in SLT.
abbrev pub alu_result : Profile → AluOp → ℕ → ℕ → Result Undefined ℕ
alu_result p mul a b = if p.full then ok (alu_meaning mul a b) else err mul_outside_full
alu_result p slt a b = ok (if p.nano then alu_meaning sltu a b else alu_meaning slt a b)
alu_result p op a b = ok (alu_meaning op a b)

sub_wraps :
    (a b : ℕ) → a < 2 ^ 16 → b < 2 ^ 16 → low_bits 16 (pos a -ℤ pos b) ≡ (a + 2 ^ 16 - b) % 2 ^ 16
unfolding ◌-ℤ◌
sub_wraps a b ha hb = ground arith

-- The order of the signed values is the order of the biased words.
slt_biased :
    (a b : ℕ)
    → a < 2 ^ 16
    → b < 2 ^ 16
    → ltb_ℤ (sx16 a) (sx16 b) ≡ ltb ((a + 2 ^ 15) % 2 ^ 16) ((b + 2 ^ 15) % 2 ^ 16)
unfolding sx16
slt_biased a b ha hb = rw (word_sign a ha, word_sign b hb) (ground arith)

-- On 16-bit operands, the value of each of the eight operations, under each profile, is the
-- independent description: modular sums, differences and products, comparisons as 1 or 0, the
-- signed one on biased words (Nano: unsigned), and MUL raises outside the full profile.
pub alu-eq-result :
    (p : Profile) (op : AluOp) (a b : ℕ)
    → a < 2 ^ 16
    → b < 2 ^ 16
    → alu p (alu_code op) a b ≡ alu_result p op a b
unfolding alu
alu-eq-result p add a b ha hb = refl
alu-eq-result p sub a b ha hb = ap ok (sub_wraps a b ha hb)
alu-eq-result p slt a b ha hb = rw (slt_biased a b ha hb) refl
alu-eq-result p sltu a b ha hb = refl
alu-eq-result p and_ a b ha hb = refl
alu-eq-result p or_ a b ha hb = refl
alu-eq-result p xor_ a b ha hb = refl
alu-eq-result p mul a b ha hb = refl
