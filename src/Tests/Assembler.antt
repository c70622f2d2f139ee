-- ===== src/Tests/Assembler.antt =====
-- Concrete instructions of tools/riscc_asm.py, for the theorems on the assembler.
use riscc.Prelude.{ℕ, ◌≡◌, ◌<◌, ◌%◌, ◌^◌, refl, true, false, List, [], ◌∷◌, arith, if◌then◌else◌}
use riscc.Prelude.Int.{pos, negsuc, shr_ℤ, low_bits, ◌-ℤ◌}
use riscc.Prelude.Result.{ok, ◌>>=◌}
use riscc.Sim.State.{Sim, init, sx8}
use riscc.Sim.Alu.Words.{AluOp, alu_result}
use riscc.Sim.Exec.{set_reg}
use riscc.Sim.Register.{execute}
use riscc.Asm.Text.{Text, codes}
use riscc.Asm.Expr.{eval_expr}
use riscc.Asm.Syntax.{reg, bnez, reg_func}
use riscc.Asm.Encode.{enc_r, enc_i8, enc_branch, encode_word}
use riscc.Asm.Encode.Fields.{enc_i8_lem}
use riscc.Asm.Insn.{encode_three, encode_branch}
use mathlib.Core.List.{Memᴰ}
use riscc.Asm.Text.{split_first, strip}
use riscc.Asm.Source.{strip_comment}
use riscc.Asm.Syntax.{
  addi, ldi, ldi16, imm, insn, Item, Section, vectors, text_, rodata, data_, bss,
}
use riscc.Asm.Encode.{insn_size, enc_i}
use riscc.Asm.Insn.{encode_imm, encode_insn}
use riscc.Asm.Insn.Size.{HasLength, encode_insn-HasLength}
use riscc.Asm.Preprocess.{member, define_name, directive_of, newline, preprocess_loop}
use riscc.Asm.Preprocess.Blocks.{conditional_lem}
use riscc.Asm.Parse.{Parser, parse_source}
use riscc.Asm.Layout.{emit_item, layout_sections, section_size}
use riscc.Asm.Layout.Sizes.{EmitsSize, emit_item-EmitsSize}
use riscc.Asm.Layout.Places.{Follows, layout_sections_lem}
use riscc.Toolchain.Immediate.{EncodesImm, after_imm, imm_executes}
use riscc.Toolchain.Access.{EncodesMem, access, mem_executes}
use riscc.Asm.Insn.{encode_mem}
use riscc.Asm.Encode.{parse_mem, enc_mem_i}
use riscc.Prelude.Int.{◌+ℤ◌}
use riscc.Toolchain.Alu.{reg_op, Encodes, three_executes}
use riscc.Toolchain.Branch.{EncodesBranch, holds, after_branch, branch_executes}
use riscc.Tests.Programs.{sys_options}
use riscc.Tests.Python.{small_python}

-- Every register is 5.
abbrev machine : Sim
machine = record (init [] sys_options []) { r = λ _. 5 }

abbrev add_operands : List Text
add_operands = codes "r1" ∷ codes " R2" ∷ codes "r3" ∷ []

three_executes_example :
    (e : Encodes add_operands (reg_func (reg_op AluOp.add)) (0x03 ∷ 0xca ∷ [])) × (w : ℕ) × (w
      < 2 ^ 16)
    × ((0x03 ∷ 0xca ∷ []) ≡ encode_word w)
    × (execute machine w 9 ≡ (
        alu_result machine.profile AluOp.add (machine.r e.ra) (machine.r e.rb) >>= λ v.
        ok (set_reg machine e.rd v, 9)))
unfolding encode_three reg enc_r encode_word
three_executes_example =
    three_executes machine 9 small_python add_operands [] AluOp.add (λ _. omega arith) refl

abbrev loop_label : List (Text × ℕ)
loop_label = (codes "LOOP", 2) ∷ []

branch_executes_example :
    (e : EncodesBranch small_python (codes "loop" ∷ []) loop_label bnez 6 (0xfb ∷ 0x8f ∷ []))
    × (w : ℕ) × ((0xfb ∷ 0x8f ∷ []) ≡ encode_word w)
    × (execute machine w 4
        ≡ ok (
          after_branch machine bnez (shr_ℤ e.target 1 -ℤ pos 4),
          (if holds bnez 5 then low_bits 15 (shr_ℤ e.target 1) else 4),
        ))
unfolding encode_branch eval_expr enc_i8 enc_branch encode_word
branch_executes_example =
    branch_executes small_python (codes "loop" ∷ []) loop_label bnez 6 machine (omega arith) refl

enc_i8_lem_example : (0xfe < 256) × (sx8 0xfe ≡ negsuc 1)
unfolding enc_i8
enc_i8_lem_example = enc_i8_lem (negsuc 1) refl

imm_executes_example :
    (e : EncodesImm small_python (codes "r1" ∷ codes "-1" ∷ []) [] addi (0xff ∷ 0x8a ∷ []))
    × (w : ℕ) × ((0xff ∷ 0x8a ∷ []) ≡ encode_word w)
    × (execute machine w 9 ≡ (after_imm machine addi e.rd e.value >>= λ m'. ok (m', 9)))
unfolding encode_imm eval_expr reg enc_i8 enc_i encode_word
imm_executes_example =
    imm_executes small_python (codes "r1" ∷ codes "-1" ∷ []) [] addi machine 9 refl

-- A label, an instruction and a byte.
abbrev three_items : List Text
three_items = codes "start: LDI r1, 3 ; three" ∷ codes " .byte 7, start" ∷ codes " .align" ∷ []

parsed_items : (p : Parser) × (parse_source small_python three_items ≡ ok p)
unfolding parse_source eval_expr
parsed_items = (_, refl)

abbrev first_item : Item
first_item = record {
  section = text_;
  offset = 0;
  size = pos 2;
  kind = insn (imm ldi) (codes "r1" ∷ codes "3" ∷ []);
  lineno = 1;
}

emit_item-EmitsSize_example :
    EmitsSize (pos 2) (emit_item small_python [] (λ _. 0) false first_item)
unfolding parsed_items
emit_item-EmitsSize_example =
    emit_item-EmitsSize small_python three_items parsed_items.1 (Memᴰ.head refl) [] (λ _. 0) false

conditional_lem_example :
    preprocess_loop []
      (codes ".ifndef FAST" ∷ codes "NOP" ∷ codes ".else" ∷ codes "HALT" ∷ codes ".endif" ∷ [])
      (record { stack = []; active = true })
    ≡ ok (newline ∷ codes "NOP" ∷ newline ∷ newline ∷ newline ∷ [])
unfolding define_name preprocess_loop strip_comment split_first strip directive_of member
conditional_lem_example =
    conditional_lem [] false (codes ".ifndef FAST") (codes ".else") (codes ".endif")
      (codes "NOP" ∷ []) (codes "HALT" ∷ []) [] (record { stack = []; active = true }) refl refl
      refl (refl, tt) refl (refl, tt) refl

encode_insn-HasLength_example :
    HasLength 4 (encode_insn small_python (codes "r1" ∷ codes "258" ∷ []) [] ldi16 6 false)
unfolding insn_size
encode_insn-HasLength_example =
    encode_insn-HasLength small_python (codes "r1" ∷ codes "258" ∷ []) [] ldi16 6 false

layout_sections_lem_example :
    (layout_sections (first_item ∷ []) vectors ≡ 0)
    × ((s : Section) → layout_sections (first_item ∷ []) s % 2 ≡ 0)
    × Follows (layout_sections (first_item ∷ [])) (section_size (first_item ∷ [])) vectors text_
    × Follows (layout_sections (first_item ∷ [])) (section_size (first_item ∷ [])) text_ rodata
    × Follows (layout_sections (first_item ∷ [])) (section_size (first_item ∷ [])) rodata data_
    × Follows (layout_sections (first_item ∷ [])) (section_size (first_item ∷ [])) data_ bss
layout_sections_lem_example = layout_sections_lem (first_item ∷ [])

mem_executes_example :
    (e : EncodesMem small_python (codes "r2" ∷ codes "[r3 + 6]" ∷ []) [] true (0x07 ∷ 0x53 ∷ []))
    × (w : ℕ) × ((0x07 ∷ 0x53 ∷ []) ≡ encode_word w)
    × (execute machine w 9
        ≡ ok (access machine true e.rd (low_bits 16 (pos (machine.r e.ra) +ℤ e.disp)), 9))
unfolding encode_mem parse_mem eval_expr reg enc_i8 enc_mem_i encode_word
mem_executes_example =
    mem_executes small_python (codes "r2" ∷ codes "[r3 + 6]" ∷ []) [] true machine 9 refl
