-- ===== src/Asm/Insn.antt =====
-- tools/riscc_asm.py: `encode_insn`, one group of mnemonics after the other.
pub mod Size
use riscc.Prelude.{
  ℕ, ◌+◌, ◌-◌, ◌/◌, ◌^◌, Bool, true, false, not, ◌&&◌, List, [], ◌∷◌, ◌++◌, Option, none, some,
  ◌==◌, if◌then◌else◌, bit_and,
}
use riscc.Prelude.Int.{ℤ, pos, negsuc, leb_ℤ, low_bits, pos_part, ◌-ℤ◌, shr_ℤ}
use riscc.Prelude.Lists.{length, get_or}
use riscc.Prelude.Result.{Result, ok, err, ◌>>=◌, ◌>>◌, raise_if}
use riscc.Asm.Text.{Text, strip, upper}
use riscc.Asm.Expr.{
  AsmError, operand_count, odd_displacement, misaligned, shift_amount, invalid_mem, iflush_missing,
  unknown_instruction, Python, Labels, eval_expr,
}
use riscc.Asm.Syntax.{
  ImmOp, lui, addi, cmpi, ori, Cond, RegOp, ShiftOp, Mnemonic, jal16, jmp16, ret, reti, ldi16, nop,
  ld, st, mov, shl1, fsl1, fsr1, ldx, ldb, ldbs, stb, jalr, jmp, iflush_, cli, sti, mfs, mts, mfepc,
  mtepc, halt, unknown, imm, branch, three, shift, imm_code, cond_code, reg_func, shift_func,
  numbered, reg, sreg,
}
use riscc.Asm.Encode.{
  enc_u8, enc_i8, encode_word, is_odd, code_addr, enc_mem_i, enc_i, enc_r, enc_branch, enc_long,
  parse_mem,
}

-- `R_FUNC["SYS"]`, the subgroups `SYS_SUB` and the control selectors `CONTROL_CCC`.
abbrev pub sys_func : ℕ
sys_func = 0x1f

abbrev pub Bytes : Type 0
Bytes = Result AsmError (List ℕ)

abbrev pub n_ops : ℕ → List Text → Result AsmError (Unit {0})
n_ops count operands = raise_if (not (length operands == count)) operand_count

-- `operands[i]`, after `n_ops`
abbrev pub operand : ℕ → List Text → Text
operand i operands = get_or operands i []

abbrev pub word_of : ℕ → Bytes
word_of w = ok (encode_word w)

-- The displacement of LD and ST: none is zero.
abbrev pub displacement : Python → Labels → List Text → Result AsmError ℤ
displacement py labels (base ∷ disp ∷ []) = eval_expr py disp labels
displacement py labels _ = ok (pos 0)

module _ (py : Python) (operands : List Text) (labels : Labels) where
  unfoldable pub encode_long : Bool → Bytes
  unfolding enc_long
  encode_long links = do
    n_ops (if links then 2 else 1) operands
    sd ← if links then sreg (operand 0 operands) else ok 0
    target ← eval_expr py (operand (if links then 1 else 0) operands) labels
    addr ← code_addr target
    ok (enc_long sd addr)

  unfoldable pub encode_ldi16 : Bytes
  encode_ldi16 = do
    n_ops 2 operands
    rd ← reg (operand 0 operands)
    value ← eval_expr py (operand 1 operands) labels
    let imm16 = low_bits 16 value
    ok (
        encode_word (enc_i rd (imm_code lui) (bit_and (imm16 / 2 ^ 8) 0xff))
        ++ encode_word (enc_i rd (imm_code ori) (bit_and imm16 0xff)))

  unfoldable pub encode_mem : Bool → Bytes
  encode_mem store = do
    n_ops 2 operands
    rd ← reg (operand 0 operands)
    mem ← parse_mem (operand 1 operands)
    ra ← reg (operand 0 mem)
    disp ← displacement py labels mem
    raise_if (is_odd disp) odd_displacement
    imm8 ← enc_i8 disp
    word_of (enc_mem_i store rd ra imm8)

  -- ADDI and CMPI take a signed byte; the others take the low byte of any value.
  abbrev pub imm_field : ImmOp → ℤ → Result AsmError ℕ
  imm_field addi value = enc_i8 value
  imm_field cmpi value = enc_i8 value
  imm_field op value = enc_u8 (pos (low_bits 8 value))

  unfoldable pub encode_imm : ImmOp → Bytes
  encode_imm op = do
    n_ops 2 operands
    rd ← reg (operand 0 operands)
    value ← eval_expr py (operand 1 operands) labels
    field ← imm_field op value
    word_of (enc_i rd (imm_code op) field)

  unfoldable pub encode_branch : Cond → ℕ → Bytes
  encode_branch cc pc = do
    n_ops 1 operands
    target ← eval_expr py (operand 0 operands) labels
    raise_if (is_odd target) misaligned
    rel ← enc_i8 (shr_ℤ target 1 -ℤ pos (pc / 2 + 1))
    word_of (enc_branch (cond_code cc) rel)

  unfoldable pub encode_shift : ShiftOp → Bytes
  encode_shift op = do
    n_ops 3 operands
    amount ← eval_expr py (operand 2 operands) labels
    raise_if (not (leb_ℤ (pos 1) amount && leb_ℤ amount (pos 8))) shift_amount
    rd ← reg (operand 0 operands)
    ra ← reg (operand 1 operands)
    word_of (enc_r rd ra (shift_func op) (pos_part amount - 1))

  -- MOV, SHL1, FSL1 and FSR1: two registers and fixed fields.
  unfoldable pub encode_two : ℕ → (ℕ → ℕ) → Bytes
  encode_two func rb = do
    n_ops 2 operands
    rd ← reg (operand 0 operands)
    ra ← reg (operand 1 operands)
    word_of (enc_r rd ra func (rb ra))

  unfoldable pub encode_three : RegOp → Bytes
  encode_three op = do
    n_ops 3 operands
    rd ← reg (operand 0 operands)
    ra ← reg (operand 1 operands)
    rb ← reg (operand 2 operands)
    word_of (enc_r rd ra (reg_func op) rb)

  unfoldable pub encode_ldx : Bytes
  encode_ldx = do
    n_ops 2 operands
    rd ← reg (operand 0 operands)
    mem ← parse_mem (operand 1 operands)
    raise_if (not (length mem == 2)) invalid_mem
    ra ← reg (operand 0 mem)
    rb ← reg (operand 1 mem)
    word_of (enc_r rd ra 0x08 rb)

  -- LDB, LDBS and STB.
  unfoldable pub encode_direct : ℕ → Bytes
  encode_direct func = do
    n_ops 2 operands
    rd ← reg (operand 0 operands)
    mem ← parse_mem (operand 1 operands)
    raise_if (not (length mem == 1)) invalid_mem
    ra ← reg (operand 0 mem)
    word_of (enc_r rd ra func 0)

  -- The link of JALR may be spelled as a general register.
  abbrev pub link_number : Option ℕ → Result AsmError ℕ
  link_number (some n) = ok n
  link_number none = sreg (operand 0 operands)

  unfoldable pub encode_jalr : Bytes
  unfolding strip upper
  encode_jalr = do
    n_ops 2 operands
    d ← link_number (numbered b'R' (upper (strip (operand 0 operands))))
    ra ← reg (operand 1 operands)
    word_of (enc_r d ra sys_func 1)

  -- RET, RETI, JMP, MFS, MTS, MFEPC and MTEPC.
  unfoldable pub encode_ret : ℕ → Bytes
  encode_ret ccc = do
    n_ops 1 operands
    sa ← sreg (operand 0 operands)
    word_of (enc_r ccc sa sys_func 0)

  unfoldable pub encode_jmp : Bytes
  encode_jmp = do n_ops 1 operands; ra ← reg (operand 0 operands); word_of (enc_r 0 ra sys_func 1)

  unfoldable pub encode_mfs : Bytes
  encode_mfs = do
    n_ops 2 operands
    rd ← reg (operand 0 operands)
    sa ← sreg (operand 1 operands)
    word_of (enc_r rd sa sys_func 2)

  unfoldable pub encode_mts : Bytes
  encode_mts = do
    n_ops 2 operands
    sd ← sreg (operand 0 operands)
    ra ← reg (operand 1 operands)
    word_of (enc_r sd ra sys_func 3)

  unfoldable pub encode_epc : Bool → Bytes
  encode_epc reads = do
    n_ops 1 operands
    r ← reg (operand 0 operands)
    word_of (if reads then enc_r r 0 sys_func 2 else enc_r 0 r sys_func 3)

  -- NOP, CLI, STI and IFLUSH, which have no operand.
  unfoldable pub encode_fixed : ℕ → Bytes
  encode_fixed word = do n_ops 0 operands; word_of word

  unfoldable pub encode_insn : Mnemonic → ℕ → Bool → Bytes
  unfolding encode_long encode_ldi16 encode_mem encode_imm encode_branch encode_shift encode_two
      encode_three encode_ldx encode_direct encode_jalr encode_ret encode_jmp encode_mfs encode_mts
      encode_epc encode_fixed
  encode_insn jal16 pc iflush = encode_long true
  encode_insn jmp16 pc iflush = encode_long false
  encode_insn ret pc iflush = encode_ret 0
  encode_insn reti pc iflush = encode_ret 5
  encode_insn ldi16 pc iflush = encode_ldi16
  encode_insn nop pc iflush = encode_fixed (enc_r 0 0 (reg_func RegOp.or_) 0)
  encode_insn ld pc iflush = encode_mem false
  encode_insn st pc iflush = encode_mem true
  encode_insn (imm op) pc iflush = encode_imm op
  encode_insn (branch cc) pc iflush = encode_branch cc pc
  encode_insn mov pc iflush = encode_two (reg_func RegOp.or_) (λ ra. ra)
  encode_insn shl1 pc iflush = encode_two (reg_func RegOp.add) (λ ra. ra)
  encode_insn fsl1 pc iflush = encode_two 0x11 (λ _. 0)
  encode_insn fsr1 pc iflush = encode_two 0x11 (λ _. 1)
  encode_insn (three op) pc iflush = encode_three op
  encode_insn (shift op) pc iflush = encode_shift op
  encode_insn ldx pc iflush = encode_ldx
  encode_insn ldb pc iflush = encode_direct 0x0a
  encode_insn ldbs pc iflush = encode_direct 0x0e
  encode_insn stb pc iflush = encode_direct 0x0b
  encode_insn jalr pc iflush = encode_jalr
  encode_insn jmp pc iflush = encode_jmp
  encode_insn iflush_ pc iflush =
      if not iflush then err iflush_missing else encode_fixed (enc_r 3 0 sys_func 0)
  encode_insn cli pc iflush = encode_fixed (enc_r 2 0 sys_func 0)
  encode_insn sti pc iflush = encode_fixed (enc_r 7 0 sys_func 0)
  encode_insn mfs pc iflush = encode_mfs
  encode_insn mts pc iflush = encode_mts
  encode_insn mfepc pc iflush = encode_epc true
  encode_insn mtepc pc iflush = encode_epc false
  encode_insn halt pc iflush = do
    n_ops 0 operands
    rel ← enc_i8 (negsuc 0)
    word_of (enc_branch (cond_code Cond.jmp8) rel)
  encode_insn unknown pc iflush = err unknown_instruction
