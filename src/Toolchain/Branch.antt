-- ===== src/Toolchain/Branch.antt =====
-- tools/riscc_asm.py and tools/riscc_sim.py: an assembled branch goes where its operand says.
use riscc.Prelude.{
  ℕ, ◌+◌, ◌*◌, ◌/◌, ◌%◌, ◌^◌, ◌<◌, ◌≡◌, ◌∙◌, ap, sym, refl, Bool, true, false, arith, if◌then◌else◌,
  leb, ◌==◌, List, not, ltb,
}
use riscc.Prelude.Int.{ℤ, pos, negsuc, ◌+ℤ◌, ◌-ℤ◌, shr_ℤ, low_bits, eqb_ℤ}
use riscc.Prelude.Lists.{length}
use riscc.Prelude.Result.{raise_if-ok, Result, ok, err, bind-ok}
use riscc.Sim.State.{Sim}
use riscc.Sim.Memory.Bytes.{word_sign}
use riscc.Sim.Alu.{Undefined, branch_cc}
use riscc.Sim.Exec.{Next, ddd, aaa, imm8, branch_rel, branch_taken, exec_branch, exec_imm}
use riscc.Sim.Register.{execute}
use riscc.Asm.Text.{Text}
use riscc.Asm.Expr.{Python, Labels, operand_count, misaligned, eval_expr}
use riscc.Asm.Syntax.{Cond, beqz, bnez, bltz, bgez, jmp8, cond_code}
use riscc.Asm.Encode.{enc_i8, is_odd, enc_i, enc_branch, encode_word}
use riscc.Asm.Encode.Fields.{enc_branch_sum, enc_i_sum, enc_i8_lem, branch_rel-field}
use riscc.Asm.Insn.{encode_branch, operand}
use riscc.Toolchain.Decode.{enc_i-fields, execute-enc_i}

-- The conditions, on the word in r0.
abbrev pub holds : Cond → ℕ → Bool
holds beqz r0 = r0 == 0
holds bnez r0 = not (r0 == 0)
holds bltz r0 = leb 0x8000 r0
holds bgez r0 = not (leb 0x8000 r0)
holds jmp8 r0 = true

-- JMP8 to its own address halts the simulator.
abbrev pub halts : Cond → ℤ → Bool
halts jmp8 rel = eqb_ℤ rel (negsuc 0)
halts _ rel = false

abbrev pub after_branch : Sim → Cond → ℤ → Sim
after_branch m cc rel = if halts cc rel then record m { halted = true } else m

code-lt : (cc : Cond) → cond_code cc < 8
code-lt beqz = omega arith
code-lt bnez = omega arith
code-lt bltz = omega arith
code-lt bgez = omega arith
code-lt jmp8 = omega arith

-- The displacement from the next instruction, taken modulo the address space, is the target.
target_of_lem : (p : ℕ) (z : ℤ) → low_bits 15 (pos (p % 2 ^ 15) +ℤ (z -ℤ pos p)) ≡ low_bits 15 z
unfolding ◌+ℤ◌ ◌-ℤ◌
target_of_lem p z = ground arith

exec_branch-open :
    (m : Sim) (ir pc_next : ℕ)
    → exec_branch m ir pc_next ≡ (
        if ltb (ddd ir) 4
        then ok (
          m,
          (if branch_taken (ddd ir) (m.r 0)
              then low_bits 15 (pos pc_next +ℤ branch_rel (imm8 ir))
              else pc_next),
        )
        else if ddd ir == 4
        then ok (
          (if eqb_ℤ (branch_rel (imm8 ir)) (negsuc 0) then record m { halted = true } else m),
          low_bits 15 (pos pc_next +ℤ branch_rel (imm8 ir)),
        )
        else err branch_cc)
exec_branch-open m ir pc_next = unfold exec_branch in refl

abbrev returned : Sim × ℕ → Result Undefined Next
returned n = ok n

by_condition :
    (m : Sim) (cc : Cond) (rel : ℤ) (target pc_next : ℕ)
    → m.r 0 < 2 ^ 16
    → (if ltb (cond_code cc) 4
        then ok (m, (if branch_taken (cond_code cc) (m.r 0) then target else pc_next))
        else if cond_code cc == 4
        then ok ((if eqb_ℤ rel (negsuc 0) then record m { halted = true } else m), target)
        else err branch_cc)
      ≡ returned (after_branch m cc rel, (if holds cc (m.r 0) then target else pc_next))
by_condition m beqz rel target pc_next h = refl
by_condition m bnez rel target pc_next h = refl
by_condition m bltz rel target pc_next h = rw (word_sign (m.r 0) h) refl
by_condition m bgez rel target pc_next h = rw (word_sign (m.r 0) h) refl
by_condition m jmp8 rel target pc_next h = refl

exec_imm-branch :
    (m : Sim) (ir pc_next : ℕ) → aaa ir ≡ 7 → exec_imm m ir pc_next ≡ exec_branch m ir pc_next
unfolding exec_imm
exec_imm-branch m ir pc_next h = rw h refl

-- The word of a branch that the assembler accepts at the byte address `pc`, with its target `t`.
pub record EncodesBranch (py : Python) (operands : List Text) (labels : Labels) (cc : Cond) (pc : ℕ)
    (bs : List ℕ) : Type 0 where
  pub target : ℤ
  pub rel : ℕ
  pub target_of : eval_expr py (operand 0 operands) labels ≡ ok target
  pub even : is_odd target ≡ false
  pub rel_of : enc_i8 (shr_ℤ target 1 -ℤ pos (pc / 2 + 1)) ≡ ok rel
  pub bytes : bs ≡ encode_word (enc_branch (cond_code cc) rel)

pub encode_branch-EncodesBranch :
    (py : Python) (operands : List Text) (labels : Labels) (cond : Cond) (pc : ℕ) {bs : List ℕ}
    → encode_branch py operands labels cond pc ≡ ok bs
    → EncodesBranch py operands labels cond pc bs
unfolding encode_branch
encode_branch-EncodesBranch py operands labels cond pc {bs} h =
    let g = raise_if-ok (not (length operands == 1)) operand_count _ h in
    let (t, et, ht) = bind-ok (eval_expr py (operand 0 operands) labels) _ g.1 in
    let k = raise_if-ok (is_odd t) misaligned _ ht in
    let (rel, er, hr) = bind-ok (enc_i8 (shr_ℤ t 1 -ℤ pos (pc / 2 + 1))) _ k.1 in
    record { target = t; rel = rel; target_of = et; even = k.0; rel_of = er; bytes = cc }

-- A branch that the assembler accepts at the byte address `pc` is a word that the simulator, with
-- a 16-bit r0, executes from that address by going to the halfword of the target, modulo the
-- address space, if the condition holds of r0, and to the next instruction otherwise; JMP8 to its
-- own address also halts.
pub branch_executes :
    (py : Python) (operands : List Text) (labels : Labels) (cond : Cond) (pc : ℕ) {bs : List ℕ}
    (m : Sim)
    → m.r 0 < 2 ^ 16
    → encode_branch py operands labels cond pc ≡ ok bs
    → (e : EncodesBranch py operands labels cond pc bs) × (w : ℕ) × (bs ≡ encode_word w)
      × (execute m w ((pc / 2 + 1) % 2 ^ 15)
          ≡ ok (
            after_branch m cond (shr_ℤ e.target 1 -ℤ pos (pc / 2 + 1)),
            (if holds cond (m.r 0) then low_bits 15 (shr_ℤ e.target 1) else (pc / 2 + 1) % 2 ^ 15),
          ))
branch_executes py operands labels cond pc m h0 h =
    let e = encode_branch-EncodesBranch py operands labels cond pc h in
    let z = shr_ℤ e.target 1 -ℤ pos (pc / 2 + 1) in
    let p = (pc / 2 + 1) % 2 ^ 15 in
    let (hb, hz) = enc_i8_lem z e.rel_of in
    let field : ℕ = e.rel * 2 % 256 + e.rel / 128 in
    let hf : field < 256 = omega arith in
    let w = enc_i (cond_code cond) 7 field in
    let same : enc_branch (cond_code cond) e.rel ≡ w =
      enc_branch_sum (cond_code cond) e.rel (code-lt cond) hb
      ∙ sym (enc_i_sum (cond_code cond) 7 field (code-lt cond) (omega arith) hf) in
    let f = enc_i-fields (cond_code cond) 7 field (code-lt cond) (omega arith) hf in
    let rel_back : branch_rel (imm8 w) ≡ z = ap branch_rel f.2 ∙ branch_rel-field e.rel hb ∙ hz in
    (
      e,
      w,
      e.bytes ∙ ap encode_word same,
      execute-enc_i (cond_code cond) 7 field (code-lt cond) (omega arith) hf m p
          ∙ exec_imm-branch m w p f.1
          ∙ exec_branch-open m w p
          ∙ rw (f.0, rel_back, target_of_lem (pc / 2 + 1) (shr_ℤ e.target 1))
              (by_condition m cond z _ p h0),
    )
