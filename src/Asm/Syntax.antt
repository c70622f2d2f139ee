-- ===== src/Asm/Syntax.antt =====
-- tools/riscc_asm.py: the mnemonics with their codes (I_OP, BR_CC, R_FUNC, SYS_SUB, CONTROL_CCC,
-- MNEMONIC_ALIASES), the registers, the sections and `Item`.
use riscc.Prelude.{ℕ, ◌-◌, Bool, ◌&&◌, List, [], ◌∷◌, Option, none, some, leb, ◌==◌, if◌then◌else◌}
use riscc.Prelude.Int.{ℤ}
use riscc.Prelude.Result.{Result, ok, err}
use riscc.Asm.Text.{Text, codes, strip, upper}
use riscc.Asm.Expr.{AsmError, expected_reg, expected_sreg, lookup}

pub data ImmOp : Type 0 where
  ldi lui addi cmpi andi ori xori : ImmOp

pub data Cond : Type 0 where
  beqz bnez bltz bgez jmp8 : Cond

pub data RegOp : Type 0 where
  add sub slt sltu and_ or_ xor_ mul divu mulhu : RegOp

pub data ShiftOp : Type 0 where
  srli srai slli : ShiftOp

pub data Mnemonic : Type 0 where
  jal16 jmp16 ret reti ldi16 nop ld st mov shl1 fsl1 fsr1 ldx ldb ldbs stb jalr jmp : Mnemonic
  iflush_ cli sti mfs mts mfepc mtepc halt unknown : Mnemonic
  imm : ImmOp → Mnemonic
  branch : Cond → Mnemonic
  three : RegOp → Mnemonic
  shift : ShiftOp → Mnemonic

-- The spellings; JALL and JMPL are aliases of JAL16 and JMP16.
abbrev pub mnemonics : List (Text × Mnemonic)
mnemonics =
    (codes "JAL16", jal16)
    ∷ (codes "JALL", jal16)
    ∷ (codes "JMP16", jmp16)
    ∷ (codes "JMPL", jmp16)
    ∷ (codes "RET", ret)
    ∷ (codes "RETI", reti)
    ∷ (codes "LDI16", ldi16)
    ∷ (codes "NOP", nop)
    ∷ (codes "LD", ld)
    ∷ (codes "ST", st)
    ∷ (codes "LDI", imm ldi)
    ∷ (codes "LDI8", imm ldi)
    ∷ (codes "LUI", imm lui)
    ∷ (codes "LUI8", imm lui)
    ∷ (codes "ADDI", imm addi)
    ∷ (codes "ADDI8", imm addi)
    ∷ (codes "CMPI", imm cmpi)
    ∷ (codes "CMPI8", imm cmpi)
    ∷ (codes "ANDI", imm andi)
    ∷ (codes "ANDI8", imm andi)
    ∷ (codes "ORI", imm ori)
    ∷ (codes "ORI8", imm ori)
    ∷ (codes "XORI", imm xori)
    ∷ (codes "XORI8", imm xori)
    ∷ (codes "BEQZ", branch beqz)
    ∷ (codes "BNEZ", branch bnez)
    ∷ (codes "BLTZ", branch bltz)
    ∷ (codes "BGEZ", branch bgez)
    ∷ (codes "JMP8", branch jmp8)
    ∷ (codes "MOV", mov)
    ∷ (codes "SHL1", shl1)
    ∷ (codes "FSL1", fsl1)
    ∷ (codes "FSR1", fsr1)
    ∷ (codes "ADD", three add)
    ∷ (codes "SUB", three sub)
    ∷ (codes "AND", three and_)
    ∷ (codes "OR", three or_)
    ∷ (codes "XOR", three xor_)
    ∷ (codes "SLT", three slt)
    ∷ (codes "SLTU", three sltu)
    ∷ (codes "MUL", three mul)
    ∷ (codes "DIVU", three divu)
    ∷ (codes "MULHU", three mulhu)
    ∷ (codes "SLLI", shift slli)
    ∷ (codes "SRLI", shift srli)
    ∷ (codes "SRAI", shift srai)
    ∷ (codes "LDX", ldx)
    ∷ (codes "LDB", ldb)
    ∷ (codes "LDBS", ldbs)
    ∷ (codes "STB", stb)
    ∷ (codes "JALR", jalr)
    ∷ (codes "JMP", jmp)
    ∷ (codes "IFLUSH", iflush_)
    ∷ (codes "CLI", cli)
    ∷ (codes "STI", sti)
    ∷ (codes "MFS", mfs)
    ∷ (codes "MTS", mts)
    ∷ (codes "MFEPC", mfepc)
    ∷ (codes "MTEPC", mtepc)
    ∷ (codes "HALT", halt)
    ∷ []

abbrev known : Option Mnemonic → Mnemonic
known none = unknown
known (some op) = op

unfoldable pub mnemonic : Text → Mnemonic
unfolding upper lookup
mnemonic word = known (lookup (upper word) mnemonics)

abbrev pub imm_code : ImmOp → ℕ
imm_code ldi = 0
imm_code lui = 1
imm_code addi = 2
imm_code cmpi = 3
imm_code andi = 4
imm_code ori = 5
imm_code xori = 6

abbrev pub cond_code : Cond → ℕ
cond_code beqz = 0
cond_code bnez = 1
cond_code bltz = 2
cond_code bgez = 3
cond_code jmp8 = 4

abbrev pub reg_func : RegOp → ℕ
reg_func add = 0x00
reg_func sub = 0x01
reg_func slt = 0x02
reg_func sltu = 0x03
reg_func and_ = 0x04
reg_func or_ = 0x05
reg_func xor_ = 0x06
reg_func mul = 0x07
reg_func divu = 0x10
reg_func mulhu = 0x14

abbrev pub shift_func : ShiftOp → ℕ
shift_func srli = 0x0c
shift_func srai = 0x0d
shift_func slli = 0x0f

-- The digit of a two-character name, `R0` to `R7` or `S0` to `S7`.
abbrev pub numbered : ℕ → Text → Option ℕ
numbered letter (c ∷ d ∷ []) =
    if c == letter && leb b'0' d && leb d b'7' then some (d - b'0') else none
numbered letter _ = none

abbrev pub found : AsmError → Option ℕ → Result AsmError ℕ
found e none = err e
found e (some n) = ok n

unfoldable pub reg : Text → Result AsmError ℕ
unfolding strip upper
reg token = found expected_reg (numbered b'R' (upper (strip token)))

unfoldable pub sreg : Text → Result AsmError ℕ
unfolding strip upper
sreg token = found expected_sreg (numbered b'S' (upper (strip token)))

pub data Section : Type 0 where
  vectors text_ rodata data_ bss : Section

abbrev pub section_order : List Section
section_order = vectors ∷ text_ ∷ rodata ∷ data_ ∷ bss ∷ []

pub data Kind : Type 0 where
  insn : Mnemonic → List Text → Kind
  byte word : List Text → Kind
  ascii : Bool → Text → Kind
  space : Kind

-- A size is signed: `.align` by a bound that is not positive may move backwards.
pub record Item : Type 0 where
  pub section : Section
  pub offset : ℕ
  pub size : ℤ
  pub kind : Kind
  pub lineno : ℕ
