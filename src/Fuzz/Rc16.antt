-- ===== src/Fuzz/Rc16.antt =====
-- tools/riscc_fuzz.py, class Gen: the random pieces of an RC16 program. A number drawn from
-- `random()` stands in units of 2 ** -53.
pub mod Isa
pub mod Registers
pub mod Operands
pub mod Product
pub mod Body
pub mod Program
use riscc.Prelude.{
  ℕ, zero, suc, ◌+◌, ◌-◌, ◌*◌, Bool, true, false, not, ◌&&◌, ◌||◌, List, [], ◌∷◌, ◌++◌, Option,
  none, some, ltb, ◌==◌, if◌then◌else◌,
}
use riscc.Prelude.Int.{ℤ, pos, negsuc}
use riscc.Prelude.Lists.{get_or}
use riscc.Asm.Text.{Text, codes}
use riscc.Asm.Syntax.{ImmOp, ldi, lui, addi, cmpi, andi, ori, xori}
use riscc.Fuzz.Format.{
  cat, decimal, signed, hex4, hex_padded, pad5, contains, rstrip, ends_with_text,
}
use riscc.Fuzz.Search.{search}
use riscc.Fuzz.Lines.{
  three_line, two_line, ldi16_line, imm_name, byte_address, word_access, store_byte, pick,
}
use riscc.Fuzz.Config.{Config, win, win_words}
use riscc.Fuzz.Random.{
  Random, Draw, pure, ◌>>=◌, times, under, Method, random, randrange, sample, randint, choice,
  new_label, reg_name, reg, p35, p50, p65, p70, p80, p85, p90,
}

-- `op in ("ADDI", "CMPI")`
abbrev pub is_signed : ImmOp → Bool
is_signed addi = true
is_signed cmpi = true
is_signed _ = false

abbrev pub alu_names : List Text
alu_names =
    codes "ADD"
    ∷ codes "SUB"
    ∷ codes "SLT"
    ∷ codes "SLTU"
    ∷ codes "AND"
    ∷ codes "OR"
    ∷ codes "XOR"
    ∷ []

abbrev pub imm_ops : List ImmOp
imm_ops = ldi ∷ lui ∷ addi ∷ cmpi ∷ andi ∷ ori ∷ xori ∷ []

module _ (R : Random) (cfg : Config) where
  unfoldable pub op_alu : Method R (List Text)
  unfolding pad5
  op_alu = do
    op ← choice R [] alu_names
    a ← reg R
    b ← reg R
    c ← reg R
    pure (three_line op a b c ∷ [])

  -- The value of an immediate: signed operations draw a negative one half of the time.
  unfoldable pub imm_value : ImmOp → Method R ℤ
  imm_value op =
      let small = (if is_signed op then 127 else 255) in
      let positive : Method R ℤ = randint R 0 small >>= λ n. pure (pos n) in
      let negative : Method R ℤ = randrange R 128 >>= λ n. pure (negsuc (127 - n)) in
      let either : Method R ℤ = random R >>= λ k. if under k p50 then negative else positive in
      if is_signed op then either else positive

  unfoldable pub op_imm : Method R (List Text)
  unfolding imm_value pad5 signed
  op_imm = do
    op ← choice R ldi imm_ops
    v ← imm_value op
    r ← reg R
    pure (two_line (imm_name op) r (signed v) ∷ [])

  unfoldable pub op_shift : Method R (List Text)
  unfolding pad5 decimal
  op_shift = do
    op ← choice R [] (
        if cfg.shifts
        then codes "SRLI" ∷ codes "SRAI" ∷ codes "SLLI" ∷ []
        else codes "SRLI" ∷ codes "SRAI" ∷ [])
    n ← if cfg.shifts then randint R 1 8 else pure 1
    a ← reg R
    b ← reg R
    pure (three_line op a b (decimal n) ∷ [])

  unfoldable pub op_mul : Method R (List Text)
  op_mul = do
    a ← reg R
    b ← reg R
    c ← reg R
    pure (cat (codes "    MUL   " ∷ a ∷ codes ", " ∷ b ∷ codes ", " ∷ c ∷ []) ∷ [])

  unfoldable pub op_divu : Method R (List Text)
  unfolding decimal hex_padded
  op_divu = do
    indices ← sample R 6 3
    divisor ← randint R 1 0xffff
    remainder ← randrange R divisor
    quotient ← randint R 0 0xffff
    pure (
        ldi16_line (pick indices 0) remainder
        ∷ ldi16_line (pick indices 1) quotient
        ∷ ldi16_line (pick indices 2) divisor
        ∷ cat (
            codes "    DIVU  "
            ∷ reg_name (pick indices 0)
            ∷ codes ", "
            ∷ reg_name (pick indices 1)
            ∷ codes ", "
            ∷ reg_name (pick indices 2)
            ∷ [])
        ∷ [])

  unfoldable pub op_mulhu : Method R (List Text)
  unfolding decimal hex_padded
  op_mulhu = do
    indices ← sample R 6 2
    source ← randint R 1 6
    high_value ← randint R 0 0xffff
    source_value ← randint R 0 0xffff
    pure (
        ldi16_line (pick indices 1) high_value
        ∷ ((if source == pick indices 1 then [] else ldi16_line source source_value ∷ [])
            ++ (cat (
                  codes "    MULHU "
                  ∷ reg_name (pick indices 0)
                  ∷ codes ", "
                  ∷ reg_name (pick indices 1)
                  ∷ codes ", "
                  ∷ reg_name source
                  ∷ [])
                ∷ [])))

  unfoldable pub op_mdu : Method R (List Text)
  unfolding op_divu op_mulhu
  op_mdu =
      let drawn : Method R (List Text) =
        random R >>= λ k. if under k p50 then op_divu else op_mulhu in
      if cfg.divu then drawn else op_mulhu

  unfoldable pub load_byte : Method R (List Text)
  unfolding decimal pad5
  load_byte = do
    boff ← randrange R (win_words * 2)
    op ← choice R [] (codes "LDB" ∷ codes "LDBS" ∷ [])
    r ← reg R
    pure (
        byte_address boff
        ++ (cat (codes "    " ∷ pad5 op ∷ codes " " ∷ r ∷ codes ", [r0]" ∷ []) ∷ []))

  unfoldable pub op_mem : Method R (List Text)
  unfolding decimal hex_padded load_byte store_byte
  op_mem = do
    word ← randrange R win_words
    k ← random R
    lines ←
        if under k p35
        then word_access R (codes "    ST   ") (word * 2)
        else if under k p70
        then word_access R (codes "    LD   ") (word * 2)
        else if under k p85
        then load_byte
        else store_byte R
    pure (ldi16_line 7 win ∷ lines)

  unfoldable pub op_sreg : Method R (List Text)
  unfolding decimal
  op_sreg = do
    s ← randint R 4 6
    k ← random R
    r ← reg R
    pure (
        (if under k p50
          then cat (codes "    MTS   S" ∷ decimal s ∷ codes ", " ∷ r ∷ [])
          else cat (codes "    MFS   " ∷ r ∷ codes ", S" ∷ decimal s ∷ []))
        ∷ [])

  -- One round of `simple_op`.
  unfoldable pub simple_lines : Method R (List Text)
  unfolding op_alu op_imm op_shift op_mdu op_mul op_sreg
  simple_lines = random R >>= λ k.
      if under k p35
      then op_alu
      else if under k p65
      then op_imm
      else if under k p80
      then op_shift
      else if under k p90 && cfg.full
      then (if cfg.mulhu
          then (random R >>= λ j. if under j p50 then op_mdu else op_mul)
          else op_mul)
      else op_sreg

  unfoldable pub simple_op : ℕ → Option Text → Method R (List Text)
  unfolding simple_lines search
  simple_op rounds exclude = search simple_lines rounds exclude
