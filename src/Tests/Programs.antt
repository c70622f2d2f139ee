-- ===== src/Tests/Programs.antt =====
-- A program that counts down and reports, assembled and run.
use riscc.Prelude.{ℕ, ◌≡◌, refl, true, false, List, [], ◌∷◌, Option, none, some}
use riscc.Prelude.Int.{pos}
use riscc.Prelude.Result.{Result, ok, err}
use riscc.Sim.State.{Sim, Options, init}
use riscc.Sim.Alu.{Undefined, alu}
use riscc.Sim.Exec.{exec_imm}
use riscc.Sim.Register.{exec_register}
use riscc.Sim.Run.{Outcome, halt, run}
use riscc.Sim.Step.{step}
use riscc.Asm.Text.{Text, codes}
use riscc.Asm.Expr.{AsmError, eval_expr}
use riscc.Asm.Syntax.{reg}
use riscc.Asm.Encode.{enc_u8, enc_i8, enc_i, enc_r, enc_branch}
use riscc.Asm.Layout.{assemble}
use riscc.Asm.Layout.Image.{Assembled, assemble-Assembled}
use riscc.Tests.Python.{small_python}

abbrev pub countdown : List Text
countdown =
    codes "start: LDI r1, 3   ; three rounds"
    ∷ codes "loop:  ADDI r1, -1"
    ∷ codes "  MOV r0, r1"
    ∷ codes "  BNEZ loop"
    ∷ codes ".ifdef REPORT"
    ∷ codes "  LDI r2, 7"
    ∷ codes ".else"
    ∷ codes "  LDI r2, 9"
    ∷ codes ".endif"
    ∷ codes "  HALT"
    ∷ []

assembled : Result AsmError (List ℕ)
unfolding assemble
assembled = assemble small_python countdown [] false

-- LDI, ADDI, MOV (an OR), BNEZ two back, LDI of the `.else` branch, and HALT.
abbrev countdown_image : List ℕ
countdown_image =
    0x03 ∷ 0x88 ∷ 0xff ∷ 0x8a ∷ 0x29 ∷ 0xc1 ∷ 0xfb ∷ 0x8f ∷ 0x09 ∷ 0x90 ∷ 0xff ∷ 0xa7 ∷ []

assembled_bytes : assembled ≡ ok countdown_image
unfolding assembled reg eval_expr enc_u8 enc_i8 enc_i enc_r enc_branch
assembled_bytes = refl

assemble-Assembled_example : Assembled small_python countdown [] false countdown_image
unfolding assembled
assemble-Assembled_example = assemble-Assembled small_python countdown [] false assembled_bytes

abbrev pub sys_options : Options
sys_options = record {
  sys_tier = true;
  full = false;
  mdu = false;
  nano = false;
  trace = false;
  uart = false;
  iflush = false;
}

abbrev image_of : Result AsmError (List ℕ) → List ℕ
image_of (ok bs) = bs
image_of (err e) = []

abbrev summary : Option (Result Undefined (Outcome × Sim)) → Option (Outcome × ℕ × ℕ × ℕ)
summary (some (ok (o, m))) = some (o, m.insns, m.r 1, m.r 2)
summary _ = none

ran : Option (Outcome × ℕ × ℕ × ℕ)
unfolding assembled run step init
ran = summary (run (pos 100) none 20000 50 (init (image_of assembled) sys_options []))

-- One LDI, three rounds of three instructions, LDI and HALT.
ran_summary : ran ≡ some (halt, 12, 0, 9)
unfolding ran reg eval_expr enc_u8 enc_i8 enc_i exec_imm enc_r exec_register alu enc_branch
ran_summary = refl
