-- ===== src/Fuzz/Rc32/Isa.antt =====
-- tools/riscc_fuzz.py, `RC32Gen.supported_isa_ops`: a block that executes every instruction of the
-- profile.
use riscc.Prelude.{ℕ, zero, suc, ◌+◌, Bool, List, [], ◌∷◌, ◌++◌, if◌then◌else◌}
use riscc.Asm.Text.{Text, codes}
use riscc.Fuzz.Format.{cat, decimal}
use riscc.Fuzz.Config.{Config}
use riscc.Fuzz.Random.{Random, Draw, pure, ◌>>=◌, Method}
use riscc.Fuzz.Rc32.{new_label, literal, literal_value}

-- The instructions of every profile, over the six labels.
unfoldable pub base_ops : Text → Text → Text → Text → Text → Text → List Text
base_ops beq bne blt bge after_jmp jump_literal =
    codes "    ldi   r1, 0x12"
    ∷ codes "    ldi   r2, 0x34"
    ∷ codes "    addi  r1, -1"
    ∷ codes "    cmpi  r1, 0x11"
    ∷ codes "    andi  r2, 0xf0"
    ∷ codes "    ori   r2, 3"
    ∷ codes "    xori  r2, 0x55"
    ∷ codes "    add   r3, r1, r2"
    ∷ codes "    sub   r3, r3, r1"
    ∷ codes "    slt   r4, r1, r2"
    ∷ codes "    sltu  r4, r1, r2"
    ∷ codes "    and   r4, r1, r2"
    ∷ codes "    or    r4, r1, r2"
    ∷ codes "    xor   r4, r1, r2"
    ∷ codes "    srli  r4, r2, 1"
    ∷ codes "    srai  r4, r2, 1"
    ∷ codes "    fsl1  r4, r1"
    ∷ codes "    fsr1  r4, r1"
    ∷ codes "    ldi   r5, 0"
    ∷ codes "    st    r1, [r7]"
    ∷ codes "    ld    r3, [r7]"
    ∷ codes "    ldx   r3, [r7 + r5]"
    ∷ codes "    ldb   r3, [r7]"
    ∷ codes "    ldbs  r3, [r7]"
    ∷ codes "    ldh   r3, [r7]"
    ∷ codes "    ldhs  r3, [r7]"
    ∷ codes "    stb   r3, [r7]"
    ∷ codes "    sth   r3, [r7]"
    ∷ codes "    mts   s5, r3"
    ∷ codes "    mfs   r3, s5"
    ∷ codes "    or    r0, r5, r5"
    ∷ cat (codes "    beqz  " ∷ beq ∷ [])
    ∷ cat (beq ∷ codes ":" ∷ [])
    ∷ cat (codes "    bnez  " ∷ bne ∷ [])
    ∷ cat (bne ∷ codes ":" ∷ [])
    ∷ codes "    addi  r0, -1"
    ∷ cat (codes "    bltz  " ∷ blt ∷ [])
    ∷ cat (blt ∷ codes ":" ∷ [])
    ∷ cat (codes "    bgez  " ∷ bge ∷ [])
    ∷ cat (bge ∷ codes ":" ∷ [])
    ∷ cat (codes "    ldpc  r4, " ∷ jump_literal ∷ [])
    ∷ codes "    jmp   r4"
    ∷ codes "    .balign 4"
    ∷ cat (jump_literal ∷ codes ":" ∷ [])
    ∷ cat (codes "    .long " ∷ after_jmp ∷ [])
    ∷ cat (after_jmp ∷ codes ":" ∷ [])
    ∷ []

-- `for amount in range(amount, amount + count)`
unfoldable pub shift_ops : ℕ → ℕ → List Text
unfolding decimal
shift_ops amount zero = []
shift_ops amount (suc count) =
    cat (codes "    slli  r4, r2, " ∷ decimal amount ∷ [])
    ∷ cat (codes "    srli  r4, r2, " ∷ decimal amount ∷ [])
    ∷ cat (codes "    srai  r4, r2, " ∷ decimal amount ∷ [])
    ∷ shift_ops (amount + 1) count

unfoldable pub full_ops : List Text
unfolding shift_ops decimal
full_ops = shift_ops 1 8 ++ (codes "    mul   r4, r1, r2" ∷ [])

module _ (R : Random) where
  unfoldable pub sys_ops : Method R (List Text)
  unfolding literal
  sys_ops = do
    long_sub ← new_label R (codes "cover_long_sub")
    long_done ← new_label R (codes "cover_long_done")
    after_reti ← new_label R (codes "cover_after_reti")
    lines ← literal R (codes "r3") after_reti
    pure (
        cat (codes "    jall  s4, " ∷ long_sub ∷ [])
        ∷ cat (codes "    jmpl  " ∷ long_done ∷ [])
        ∷ cat (long_sub ∷ codes ":" ∷ [])
        ∷ codes "    ret   s4"
        ∷ cat (long_done ∷ codes ":" ∷ [])
        ∷ codes "    cli"
        ∷ (lines
            ++ (codes "    mts   s0, r3"
                ∷ codes "    reti  s0"
                ∷ cat (after_reti ∷ codes ":" ∷ [])
                ∷ codes "    sti"
                ∷ [])))

  unfoldable pub mulhu_ops : Method R (List Text)
  unfolding literal_value
  mulhu_ops = do
    ones ← literal_value R (codes "r1") 0xffffffff
    top ← literal_value R (codes "r1") 0x80000000
    pure (
        ones
        ++ (codes "    mulhu r3, r1, r1"
            ∷ (top
                ++ (codes "    ldi   r3, 2"
                    ∷ codes "    mulhu r3, r1, r3"
                    ∷ codes "    ldi   r0, 1"
                    ∷ codes "    mulhu r3, r0, r0"
                    ∷ codes "    mulhu r0, r1, r3"
                    ∷ []))))

  unfoldable pub divu_ops : Method R (List Text)
  unfolding literal_value
  divu_ops = do
    remainder ← literal_value R (codes "r3") 0x12345678
    quotient ← literal_value R (codes "r1") 0x9abcdef0
    divisor ← literal_value R (codes "r2") 0x80000001
    pure (remainder ++ (quotient ++ (divisor ++ (codes "    divu  r3, r1, r2" ∷ []))))

  -- `if present: lines += ...`
  abbrev when : Bool → Method R (List Text) → Method R (List Text)
  when present m = if present then m else pure []

  unfoldable pub supported_isa_ops : Config → Method R (List Text)
  unfolding base_ops sys_ops full_ops mulhu_ops divu_ops riscc.Fuzz.Random.new_label
  supported_isa_ops cfg = do
    beq ← new_label R (codes "cover_beq")
    bne ← new_label R (codes "cover_bne")
    blt ← new_label R (codes "cover_blt")
    bge ← new_label R (codes "cover_bge")
    after_jmp ← new_label R (codes "cover_after_jmp")
    jump_literal ← new_label R (codes "cover_jump_literal")
    sys_lines ← when (cfg.sys) sys_ops
    mulhu_lines ← when (cfg.mulhu) mulhu_ops
    divu_lines ← when (cfg.divu) divu_ops
    pure (
        base_ops beq bne blt bge after_jmp jump_literal
        ++ (sys_lines ++ ((if cfg.full then full_ops else []) ++ (mulhu_lines ++ divu_lines))))
