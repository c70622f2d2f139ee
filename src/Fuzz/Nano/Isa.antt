-- ===== src/Fuzz/Nano/Isa.antt =====
-- tools/riscc_fuzz.py, `NanoGen.supported_isa_ops`: a block that executes every instruction of
-- Nano.
use riscc.Prelude.{List, [], ◌∷◌}
use riscc.Asm.Text.{Text, codes}
use riscc.Fuzz.Format.{cat, hex4, hex_padded}
use riscc.Fuzz.Config.{win}
use riscc.Fuzz.Random.{Random, pure, ◌>>=◌, Method, new_label}

unfoldable pub isa_ops : Text → Text → Text → Text → Text → Text → Text → List Text
unfolding hex_padded
isa_ops beq bne blt bge after_jmp sub done =
    cat (codes "    LDI16 r7, 0x" ∷ hex4 win ∷ [])
    ∷ codes "    LDI16 r1, 0x80A5"
    ∷ codes "    ST    r1, [r7+0]"
    ∷ codes "    LD    r2, [r7+0]"
    ∷ codes "    LDI   r3, 0"
    ∷ codes "    LDX   r2, [r7+r3]"
    ∷ codes "    LDB   r2, [r7]"
    ∷ codes "    STB   r1, [r7]"
    ∷ codes "    LDI   r1, 0x12"
    ∷ codes "    LUI   r2, 0x34"
    ∷ codes "    ADDI  r1, -1"
    ∷ codes "    ANDI  r2, 0x7F"
    ∷ codes "    ORI   r2, 0x40"
    ∷ codes "    XORI  r2, 0x55"
    ∷ codes "    ADD   r3, r1, r2"
    ∷ codes "    SUB   r3, r3, r1"
    ∷ codes "    SLTU  r4, r1, r2"
    ∷ codes "    AND   r4, r1, r2"
    ∷ codes "    OR    r4, r1, r2"
    ∷ codes "    XOR   r4, r1, r2"
    ∷ codes "    SRLI  r4, r2, 1"
    ∷ codes "    SRAI  r4, r2, 1"
    ∷ codes "    LDI   r0, 0"
    ∷ cat (codes "    BEQZ  " ∷ beq ∷ [])
    ∷ cat (beq ∷ codes ":" ∷ [])
    ∷ cat (codes "    BNEZ  " ∷ bne ∷ [])
    ∷ cat (bne ∷ codes ":" ∷ [])
    ∷ codes "    ADDI  r0, -1"
    ∷ cat (codes "    BLTZ  " ∷ blt ∷ [])
    ∷ cat (blt ∷ codes ":" ∷ [])
    ∷ cat (codes "    BGEZ  " ∷ bge ∷ [])
    ∷ cat (bge ∷ codes ":" ∷ [])
    ∷ cat (codes "    JMP8  " ∷ after_jmp ∷ [])
    ∷ codes "    LDI   r6, 0x5A"
    ∷ cat (after_jmp ∷ codes ":" ∷ [])
    ∷ cat (codes "    LDI16 r1, " ∷ sub ∷ [])
    ∷ codes "    JALR  r7, r1"
    ∷ cat (codes "    JMP8  " ∷ done ∷ [])
    ∷ cat (sub ∷ codes ":" ∷ [])
    ∷ codes "    JMP   r7"
    ∷ cat (done ∷ codes ":" ∷ [])
    ∷ []

unfoldable pub supported_isa_ops : (R : Random) → Method R (List Text)
unfolding isa_ops new_label
supported_isa_ops R = do
  beq ← new_label R (codes "cover_beq")
  bne ← new_label R (codes "cover_bne")
  blt ← new_label R (codes "cover_blt")
  bge ← new_label R (codes "cover_bge")
  after_jmp ← new_label R (codes "cover_after_jmp")
  sub ← new_label R (codes "cover_sub")
  done ← new_label R (codes "cover_done")
  pure (isa_ops beq bne blt bge after_jmp sub done)
