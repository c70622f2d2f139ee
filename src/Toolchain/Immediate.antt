-- ===== src/Toolchain/Immediate.antt =====
-- tools/riscc_asm.py and tools/riscc_sim.py: an assembled immediate instruction computes what its
-- mnemonic says of the value that the assembler evaluated.
use riscc.Prelude.{
  ℕ, ◌*◌, ◌%◌, ◌^◌, ◌<◌, ◌≡◌, ◌∙◌, refl, Bool, true, false, not, arith, if◌then◌else◌, ◌==◌, List,
  bit_and, bit_or, bit_xor,
}
use riscc.Prelude.Int.{ℤ, pos, ◌+ℤ◌, ◌-ℤ◌, low_bits, low_bits-lt}
use riscc.Prelude.Lists.{length}
use riscc.Prelude.Result.{Result, ok, err, ◌>>=◌, bind-ok, raise_if-ok}
use riscc.Sim.State.{Sim, sx8}
use riscc.Sim.Alu.{Undefined, cmpi_in_nano}
use riscc.Sim.Exec.{ddd, aaa, imm8, set_reg, Next, exec_imm}
use riscc.Sim.Register.{execute}
use riscc.Asm.Text.{Text}
use riscc.Asm.Expr.{Python, Labels, operand_count, eval_expr}
use riscc.Asm.Syntax.{ImmOp, ldi, lui, addi, cmpi, andi, ori, xori, imm_code, reg}
use riscc.Asm.Encode.{enc_u8, enc_i, encode_word}
use riscc.Asm.Encode.Fields.{enc_i8_lem}
use riscc.Asm.Insn.{encode_imm, imm_field, operand}
use riscc.Toolchain.Decode.{enc_i-fields, execute-enc_i}
use riscc.Toolchain.Inversion.{reg-lt}

-- ADDI and CMPI work with the value itself, the others with its low byte; CMPI writes r0.
abbrev pub after_imm : Sim → ImmOp → ℕ → ℤ → Result Undefined Sim
after_imm m ldi rd value = ok (set_reg m rd (low_bits 8 value))
after_imm m lui rd value = ok (set_reg m rd (low_bits 8 value * 2 ^ 8))
after_imm m addi rd value = ok (set_reg m rd (low_bits 16 (pos (m.r rd) +ℤ value)))
after_imm m cmpi rd value =
    if m.nano then err cmpi_in_nano else ok (set_reg m 0 (low_bits 16 (pos (m.r rd) -ℤ value)))
after_imm m andi rd value = ok (set_reg m rd (bit_and (m.r rd) (low_bits 8 value)))
after_imm m ori rd value = ok (set_reg m rd (bit_or (m.r rd) (low_bits 8 value)))
after_imm m xori rd value = ok (set_reg m rd (bit_xor (m.r rd) (low_bits 8 value)))

-- What the field of each operation holds.
abbrev Holds : ImmOp → ℤ → ℕ → Type 0
Holds addi value field = sx8 field ≡ value
Holds cmpi value field = sx8 field ≡ value
Holds op value field = field ≡ low_bits 8 value

enc_u8-low :
    (value : ℤ) {b : ℕ}
    → enc_u8 (pos (low_bits 8 value)) ≡ ok b
    → (b < 256) × (b ≡ low_bits 8 value)
unfolding enc_u8
enc_u8-low value h = ground (arith, low_bits-lt 8 value)

field_lem :
    (py : Python) (operands : List Text) (labels : Labels) (op : ImmOp) (value : ℤ) {b : ℕ}
    → imm_field py operands labels op value ≡ ok b
    → (b < 256) × Holds op value b
field_lem py operands labels addi value h = enc_i8_lem value h
field_lem py operands labels cmpi value h = enc_i8_lem value h
field_lem py operands labels ldi value h = enc_u8-low value h
field_lem py operands labels lui value h = enc_u8-low value h
field_lem py operands labels andi value h = enc_u8-low value h
field_lem py operands labels ori value h = enc_u8-low value h
field_lem py operands labels xori value h = enc_u8-low value h

abbrev to_next : ℕ → Sim → Result Undefined Next
to_next pc_next m = ok (m, pc_next)

code-lt : (op : ImmOp) → imm_code op < 8
code-lt ldi = omega arith
code-lt lui = omega arith
code-lt addi = omega arith
code-lt cmpi = omega arith
code-lt andi = omega arith
code-lt ori = omega arith
code-lt xori = omega arith

imm_executes_field :
    (m : Sim) (op : ImmOp) (w rd field : ℕ) (value : ℤ) (pc_next : ℕ)
    → ddd w ≡ rd
    → aaa w ≡ imm_code op
    → imm8 w ≡ field
    → field < 256
    → Holds op value field
    → exec_imm m w pc_next ≡ (after_imm m op rd value >>= to_next pc_next)
unfolding exec_imm
imm_executes_field m ldi w rd field value pc_next d a i lt h = rw (d, a, i, h) refl
imm_executes_field m lui w rd field value pc_next d a i lt h =
    let fits : field * 2 ^ 8 % 2 ^ 16 ≡ field * 2 ^ 8 = omega arith in rw (d, a, i, fits, h) refl
imm_executes_field m addi w rd field value pc_next d a i lt h = rw (d, a, i, h) refl
imm_executes_field m cmpi w rd field value pc_next d a i lt h =
    rw (d, a, i, h) (in_profile m.nano _)
  where
    in_profile :
        (nano : Bool) (x : Sim)
        → (if nano then err cmpi_in_nano else to_next pc_next x)
          ≡ ((if nano then err cmpi_in_nano else ok x) >>= to_next pc_next)
    in_profile true x = refl
    in_profile false x = refl
imm_executes_field m andi w rd field value pc_next d a i lt h = rw (d, a, i, h) refl
imm_executes_field m ori w rd field value pc_next d a i lt h = rw (d, a, i, h) refl
imm_executes_field m xori w rd field value pc_next d a i lt h = rw (d, a, i, h) refl

-- The word of an immediate instruction that the assembler accepts.
pub record EncodesImm (py : Python) (operands : List Text) (labels : Labels) (op : ImmOp)
    (bs : List ℕ) : Type 0 where
  pub rd : ℕ
  pub value : ℤ
  pub field : ℕ
  pub rd_of : reg (operand 0 operands) ≡ ok rd
  pub value_of : eval_expr py (operand 1 operands) labels ≡ ok value
  pub field_of : imm_field py operands labels op value ≡ ok field
  pub bytes : bs ≡ encode_word (enc_i rd (imm_code op) field)

pub encode_imm-EncodesImm :
    (py : Python) (operands : List Text) (labels : Labels) (op : ImmOp) {bs : List ℕ}
    → encode_imm py operands labels op ≡ ok bs
    → EncodesImm py operands labels op bs
unfolding encode_imm
encode_imm-EncodesImm py operands labels op {bs} h =
    let g = raise_if-ok (not (length operands == 2)) operand_count _ h in
    let (rd, er, hr) = bind-ok (reg (operand 0 operands)) _ g.1 in
    let (v, ev, hv) = bind-ok (eval_expr py (operand 1 operands) labels) _ hr in
    let (f, ef, hf) = bind-ok (imm_field py operands labels op v) _ hv in
    record { rd = rd; value = v; field = f; rd_of = er; value_of = ev; field_of = ef; bytes = cc }

-- If the assembler accepts an LDI, LUI, ADDI, CMPI, ANDI, ORI or XORI, its bytes are a word that
-- the simulator executes as the named operation on the register that the first operand names and
-- the value of the second: on the value itself for ADDI and CMPI, on its low byte for the others.
-- CMPI leaves the difference in r0, and is undefined in Nano.
pub imm_executes :
    (py : Python) (operands : List Text) (labels : Labels) (op : ImmOp) (m : Sim) (pc_next : ℕ)
    {bs : List ℕ}
    → encode_imm py operands labels op ≡ ok bs
    → (e : EncodesImm py operands labels op bs) × (w : ℕ) × (bs ≡ encode_word w)
      × (execute m w pc_next ≡ (after_imm m op e.rd e.value >>= λ m'. ok (m', pc_next)))
imm_executes py operands labels op m pc_next h =
    let e = encode_imm-EncodesImm py operands labels op h in
    let hd = reg-lt _ e.rd_of in
    let (hf, holds) = field_lem py operands labels op e.value e.field_of in
    let w = enc_i e.rd (imm_code op) e.field in
    let f = enc_i-fields e.rd (imm_code op) e.field hd (code-lt op) hf in
    (
      e,
      w,
      e.bytes,
      execute-enc_i e.rd (imm_code op) e.field hd (code-lt op) hf m pc_next
          ∙ imm_executes_field m op w e.rd e.field e.value pc_next f.0 f.1 f.2 hf holds,
    )
