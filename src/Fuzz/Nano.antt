-- ===== src/Fuzz/Nano.antt =====
-- tools/riscc_fuzz.py, class NanoGen: the random pieces of a Nano program. A number drawn from
-- `random()` stands in units of 2 ** -53.
pub mod Isa
pub mod Body
pub mod Program
use riscc.Prelude.{
  ℕ, ◌-◌, ◌*◌, Bool, true, false, ◌&&◌, List, [], ◌∷◌, ◌++◌, Option, none, some, if◌then◌else◌,
}
use riscc.Prelude.Int.{ℤ, pos, negsuc}
use riscc.Asm.Text.{Text, codes, text_eq}
use riscc.Asm.Syntax.{ImmOp, ldi, lui, addi, andi, ori, xori}
use riscc.Fuzz.Format.{cat, decimal, signed, hex_padded, pad5}
use riscc.Fuzz.Config.{win, win_words}
use riscc.Fuzz.Random.{
  Random, Draw, pure, ◌>>=◌, under, Method, random, randrange, randint, choice, reg, p35, p40, p50,
  p70, p75, p85,
}
use riscc.Fuzz.Search.{search}
use riscc.Fuzz.Lines.{
  three_line, two_line, ldi16_line, imm_name, byte_address, word_access, store_byte,
}

abbrev alu_names : List Text
alu_names = codes "ADD" ∷ codes "SUB" ∷ codes "SLTU" ∷ codes "AND" ∷ codes "OR" ∷ codes "XOR" ∷ []

abbrev imm_ops : List ImmOp
imm_ops = ldi ∷ lui ∷ addi ∷ andi ∷ ori ∷ xori ∷ []

-- `op == "ADDI"`
abbrev is_addi : ImmOp → Bool
is_addi addi = true
is_addi _ = false

-- `exclude == "r7"`
abbrev is_r7 : Option Text → Bool
is_r7 none = false
is_r7 (some name) = text_eq name (codes "r7")

module _ (R : Random) where
  unfoldable pub op_alu : Method R (List Text)
  unfolding pad5
  op_alu = do
    op ← choice R [] alu_names
    a ← reg R
    b ← reg R
    c ← reg R
    pure (three_line op a b c ∷ [])

  -- The value of an immediate: ADDI draws a negative one half of the time.
  unfoldable pub imm_value : ImmOp → Method R ℤ
  imm_value op =
      let small = (if is_addi op then 127 else 255) in
      let positive : Method R ℤ = randint R 0 small >>= λ n. pure (pos n) in
      let negative : Method R ℤ = randrange R 128 >>= λ n. pure (negsuc (127 - n)) in
      let either : Method R ℤ = random R >>= λ k. if under k p50 then negative else positive in
      if is_addi op then either else positive

  unfoldable pub op_imm : Method R (List Text)
  unfolding imm_value pad5 signed
  op_imm = do
    op ← choice R ldi imm_ops
    v ← imm_value op
    r ← reg R
    pure (two_line (imm_name op) r (signed v) ∷ [])

  unfoldable pub shift_one_right : Method R (List Text)
  unfolding pad5
  shift_one_right = do
    op ← choice R [] (codes "SRLI" ∷ codes "SRAI" ∷ [])
    a ← reg R
    b ← reg R
    pure (three_line op a b (codes "1") ∷ [])

  unfoldable pub shift_one_left : Method R (List Text)
  shift_one_left = do
    a ← reg R
    b ← reg R
    pure (cat (codes "    SHL1  " ∷ a ∷ codes ", " ∷ b ∷ []) ∷ [])

  unfoldable pub op_shift : Method R (List Text)
  unfolding shift_one_right shift_one_left
  op_shift = random R >>= λ k. if under k p75 then shift_one_right else shift_one_left

  unfoldable pub load_byte : Method R (List Text)
  unfolding decimal
  load_byte = do
    boff ← randrange R (win_words * 2)
    r ← reg R
    pure (byte_address boff ++ (cat (codes "    LDB   " ∷ r ∷ codes ", [r0]" ∷ []) ∷ []))

  unfoldable pub op_mem : Method R (List Text)
  unfolding hex_padded decimal load_byte store_byte
  op_mem = do
    word ← randrange R win_words
    k ← random R
    lines ←
        if under k p35
        then word_access R (codes "    ST   ") (word * 2)
        else if under k p70
        then word_access R (codes "    LD   ") (word * 2)
        else if under k p85
        then load_byte
        else store_byte R
    pure (ldi16_line 7 win ∷ lines)

  -- One round of `simple_op`.
  unfoldable pub simple_lines : Option Text → Method R (List Text)
  unfolding op_alu op_imm op_shift op_mem
  simple_lines exclude = random R >>= λ k.
      if under k p40
      then op_alu
      else if under k p70
      then op_imm
      else if under k p85
      then op_shift
      else if is_r7 exclude
      then op_alu
      else op_mem

  unfoldable pub simple_op : ℕ → Option Text → Method R (List Text)
  unfolding simple_lines search
  simple_op rounds exclude = search (simple_lines exclude) rounds exclude
