-- ===== src/Fuzz/Rc16/Isa.antt =====
-- tools/riscc_fuzz.py, `Gen.supported_isa_ops`: a block that executes every instruction of the
-- configuration.
use riscc.Prelude.{List, [], ◌∷◌, ◌++◌, if◌then◌else◌}
use riscc.Asm.Text.{Text, codes}
use riscc.Fuzz.Format.{cat, hex4, hex_padded}
use riscc.Fuzz.Config.{Config, win}
use riscc.Fuzz.Random.{Random, pure, ◌>>=◌, Method, new_label}

-- The instructions of every profile, over the seven labels.
unfoldable pub base_ops : Text → Text → Text → Text → Text → Text → Text → List Text
unfolding hex_padded
base_ops beq bne blt bge after_jmp reg_sub reg_done =
    cat (codes "    LDI16 r7, 0x" ∷ hex4 win ∷ [])
    ∷ codes "    LDI16 r1, 0x80A5"
    ∷ codes "    ST    r1, [r7+0]"
    ∷ codes "    LD    r2, [r7+0]"
    ∷ codes "    LDI   r3, 0"
    ∷ codes "    LDX   r2, [r7+r3]"
    ∷ codes "    LDB   r2, [r7]"
    ∷ codes "    LDBS  r2, [r7]"
    ∷ codes "    STB   r1, [r7]"
    ∷ codes "    LDI   r1, 0x12"
    ∷ codes "    LUI   r2, 0x34"
    ∷ codes "    ADDI  r1, -1"
    ∷ codes "    CMPI  r1, 0x11"
    ∷ codes "    ANDI  r2, 0x7F"
    ∷ codes "    ORI   r2, 0x40"
    ∷ codes "    XORI  r2, 0x55"
    ∷ codes "    ADD   r3, r1, r2"
    ∷ codes "    SUB   r3, r3, r1"
    ∷ codes "    SLT   r4, r1, r2"
    ∷ codes "    SLTU  r4, r1, r2"
    ∷ codes "    AND   r4, r1, r2"
    ∷ codes "    OR    r4, r1, r2"
    ∷ codes "    XOR   r4, r1, r2"
    ∷ codes "    SRLI  r4, r2, 1"
    ∷ codes "    SRAI  r4, r2, 1"
    ∷ codes "    FSL1  r4, r1"
    ∷ codes "    FSR1  r4, r1"
    ∷ codes "    LDI   r0, 0"
    ∷ cat (codes "    BEQZ  " ∷ beq ∷ [])
    ∷ cat (beq ∷ codes ":" ∷ [])
    ∷ cat (codes "    BNEZ  " ∷ bne ∷ [])
    ∷ cat (bne ∷ codes ":" ∷ [])
    ∷ codes "    ADDI  r0, -1"
    ∷ cat (codes "    BLTZ  " ∷ blt ∷ [])
    ∷ cat (blt ∷ codes ":" ∷ [])
    ∷ cat (codes "    BGEZ  " ∷ bge ∷ [])
    ∷ cat (bge ∷ codes ":" ∷ [])
    ∷ cat (codes "    JMP8  " ∷ after_jmp ∷ [])
    ∷ codes "    LDI   r6, 0x5A"
    ∷ cat (after_jmp ∷ codes ":" ∷ [])
    ∷ codes "    MTS   S5, r1"
    ∷ codes "    MFS   r2, S5"
    ∷ cat (codes "    LDI16 r3, " ∷ reg_sub ∷ [])
    ∷ codes "    JALR  S4, r3"
    ∷ cat (codes "    JMP8  " ∷ reg_done ∷ [])
    ∷ cat (reg_sub ∷ codes ":" ∷ [])
    ∷ codes "    RET   S4"
    ∷ cat (reg_done ∷ codes ":" ∷ [])
    ∷ []

abbrev pub full_ops : List Text
full_ops =
    codes "    SLLI  r4, r2, 4"
    ∷ codes "    SRLI  r4, r2, 4"
    ∷ codes "    SRAI  r4, r2, 4"
    ∷ codes "    MUL   r4, r1, r2"
    ∷ []

abbrev pub mulhu_ops : List Text
mulhu_ops =
    codes "    LDI16 r3, 0x1234" ∷ codes "    LDI16 r4, 0x4321" ∷ codes "    MULHU r5, r3, r4" ∷ []

abbrev pub divu_ops : List Text
divu_ops =
    codes "    LDI   r3, 1"
    ∷ codes "    LDI16 r4, 0x2345"
    ∷ codes "    LDI16 r5, 0x0123"
    ∷ codes "    DIVU  r3, r4, r5"
    ∷ []

abbrev pub sys_ops : Text → Text → Text → List Text
sys_ops long_sub long_done after_reti =
    cat (codes "    JALL  S6, " ∷ long_sub ∷ [])
    ∷ cat (codes "    JMPL  " ∷ long_done ∷ [])
    ∷ cat (long_sub ∷ codes ":" ∷ [])
    ∷ codes "    RET   S6"
    ∷ cat (long_done ∷ codes ":" ∷ [])
    ∷ codes "    CLI"
    ∷ cat (codes "    LDI16 r3, " ∷ after_reti ∷ [])
    ∷ codes "    MTS   S0, r3"
    ∷ codes "    RETI  S0"
    ∷ cat (after_reti ∷ codes ":" ∷ [])
    ∷ codes "    STI"
    ∷ []

module _ (R : Random) (cfg : Config) where
  abbrev pub sys_block : Method R (List Text)
  sys_block = do
    long_sub ← new_label R (codes "cover_long_sub")
    long_done ← new_label R (codes "cover_long_done")
    after_reti ← new_label R (codes "cover_after_reti")
    pure (sys_ops long_sub long_done after_reti)

  unfoldable pub supported_isa_ops : Method R (List Text)
  unfolding new_label base_ops
  supported_isa_ops = do
    beq ← new_label R (codes "cover_beq")
    bne ← new_label R (codes "cover_bne")
    blt ← new_label R (codes "cover_blt")
    bge ← new_label R (codes "cover_bge")
    after_jmp ← new_label R (codes "cover_after_jmp")
    reg_sub ← new_label R (codes "cover_reg_sub")
    reg_done ← new_label R (codes "cover_reg_done")
    sys_lines ← if cfg.sys then sys_block else pure []
    pure (
        base_ops beq bne blt bge after_jmp reg_sub reg_done
        ++ ((if cfg.full then full_ops else [])
            ++ ((if cfg.mulhu then mulhu_ops else [])
                ++ ((if cfg.divu then divu_ops else []) ++ sys_lines))))
