-- ===== src/Fuzz/Rc32.antt =====
-- tools/riscc_fuzz.py, class RC32Gen: the random pieces of an RC32 program, whose wide constants
-- lie in literal pools among the code.
pub mod Isa
pub mod Body
pub mod Program
use riscc.Prelude.{
  ℕ, ◌+◌, ◌-◌, ◌*◌, ◌%◌, ◌^◌, Bool, true, false, ◌&&◌, ◌||◌, List, [], ◌∷◌, ◌++◌, Option, none,
  some, if◌then◌else◌, ◌==◌, ltb,
}
use riscc.Prelude.Int.{ℤ, pos, negsuc}
use riscc.Prelude.Lists.{get_or}
use riscc.Asm.Text.{Text, codes, text_eq}
use riscc.Fuzz.Format.{cat, decimal, signed, hex_padded, pad5}
use riscc.Fuzz.Config.{Config, rc32_win, rc32_win_words}
use riscc.Fuzz.Random.{
  Random, Draw, pure, ◌>>=◌, under, Method, random, randrange, sample, randint, choice, getrandbits,
  reg_name, reg, p40, p50, p70, p80,
}
use riscc.Fuzz.Search.{search}
use riscc.Fuzz.Lines.{three_line, two_line, label_line}

-- `"    .balign 4"` and the like need no formatting; `"    %s%s"` of a start and an operand.
abbrev pub one_line : Text → Text → Text
one_line start operand = cat (start ∷ operand ∷ [])

-- `randint(-128, 127)` from `randrange(256)`.
abbrev signed_byte : ℕ → ℤ
signed_byte n = if ltb n 128 then negsuc (127 - n) else pos (n - 128)

abbrev imm_names : List Text
imm_names =
    codes "ldi" ∷ codes "addi" ∷ codes "cmpi" ∷ codes "andi" ∷ codes "ori" ∷ codes "xori" ∷ []

module _ (R : Random) where
  abbrev pub new_label : Text → Method R Text
  new_label stem = riscc.Fuzz.Random.new_label R (codes "." ++ stem)

  abbrev pub any_byte : Method R ℤ
  any_byte = randrange R 256 >>= λ n. pure (signed_byte n)

  unfoldable pub literal : Text → Text → Method R (List Text)
  unfolding riscc.Fuzz.Random.new_label
  literal reg value = do
    lit ← new_label (codes "literal")
    after ← new_label (codes "after_literal")
    pure (
        cat (codes "    ldpc  " ∷ reg ∷ codes ", " ∷ lit ∷ [])
        ∷ one_line (codes "    jmp8  ") after
        ∷ codes "    .balign 4"
        ∷ label_line lit
        ∷ one_line (codes "    .long ") value
        ∷ label_line after
        ∷ [])

  unfoldable pub literal_value : Text → ℕ → Method R (List Text)
  unfolding literal hex_padded
  literal_value reg value = literal reg (codes "0x" ++ hex_padded 8 (value % 2 ^ 32))

module _ (R : Random) (cfg : Config) where
  unfoldable pub op_alu : Method R (List Text)
  unfolding pad5
  op_alu = do
    op ← choice R [] (
        codes "add"
        ∷ codes "sub"
        ∷ codes "slt"
        ∷ codes "sltu"
        ∷ codes "and"
        ∷ codes "or"
        ∷ codes "xor"
        ∷ (if cfg.full then codes "mul" ∷ [] else []))
    a ← reg R
    b ← reg R
    c ← reg R
    pure (three_line op a b c ∷ [])

  unfoldable pub op_imm : Method R (List Text)
  unfolding pad5 signed text_eq
  op_imm = do
    op ← choice R [] imm_names
    value ←
        if text_eq op (codes "addi") || text_eq op (codes "cmpi")
        then any_byte R
        else (randint R 0 255 >>= λ n. pure (pos n))
    r ← reg R
    pure (two_line op r (signed value) ∷ [])

  unfoldable pub op_shift : Method R (List Text)
  unfolding pad5 decimal
  op_shift = do
    op ← choice R [] (codes "srli" ∷ codes "srai" ∷ (if cfg.full then codes "slli" ∷ [] else []))
    amount ← if cfg.full then randint R 1 8 else pure 1
    a ← reg R
    b ← reg R
    pure (three_line op a b (decimal amount) ∷ [])

  -- The access of `op_mem` at the address in r7.
  abbrev word_access : Text → ℕ → Method R (List Text)
  word_access start offset = do
    r ← reg R
    pure (cat (start ∷ r ∷ codes ", [r7 + " ∷ decimal offset ∷ codes "]" ∷ []) ∷ [])

  -- The access of `op_mem` at a multiple of `step` from the window's start: one of the named loads,
  -- or the store.
  abbrev indexed : ℕ → ℕ → Method R Text → Method R (List Text)
  indexed count step named = do
    index ← randrange R count
    lines ← literal_value R (codes "r0") (index * step)
    name ← named
    r ← reg R
    pure (
        lines
        ++ (codes "    add   r0, r7, r0"
            ∷ cat (codes "    " ∷ name ∷ codes "   " ∷ r ∷ codes ", [r0]" ∷ [])
            ∷ []))

  abbrev access : ℕ → ℕ → Method R (List Text)
  access kind offset =
      if kind == 0
      then word_access (codes "    st    ") offset
      else if kind == 1
      then word_access (codes "    ld    ") offset
      else if kind == 2
      then indexed (rc32_win_words * 4) 1 (choice R [] (codes "ldb" ∷ codes "ldbs" ∷ []))
      else if kind == 3
      then indexed (rc32_win_words * 4) 1 (pure (codes "stb"))
      else if kind == 4
      then indexed (rc32_win_words * 2) 2 (choice R [] (codes "ldh" ∷ codes "ldhs" ∷ []))
      else indexed (rc32_win_words * 2) 2 (pure (codes "sth"))

  unfoldable pub op_mem : Method R (List Text)
  unfolding literal_value decimal
  op_mem = do
    kind ← randrange R 6
    word ← randrange R rc32_win_words
    lines ← literal_value R (codes "r7") rc32_win
    more ← access kind (word * 4)
    pure (lines ++ more)

  -- `"    divu  r%d, r%d, r%d"` and `"    mulhu r%d, r%d, r%d"`
  abbrev mdu_line : Text → ℕ → ℕ → ℕ → Text
  mdu_line start a b c =
      cat (start ∷ reg_name a ∷ codes ", " ∷ reg_name b ∷ codes ", " ∷ reg_name c ∷ [])

  unfoldable pub op_divu : Method R (List Text)
  unfolding literal_value decimal
  op_divu = do
    indices ← sample R 7 3
    let remainder = get_or indices 0 0
    let quotient = get_or indices 1 0
    let source = get_or indices 2 0
    divisor ← randint R 1 0xffffffff
    high ← randrange R divisor
    high_lines ← literal_value R (reg_name remainder) high
    low ← getrandbits R 32
    low_lines ← literal_value R (reg_name quotient) low
    divisor_lines ← literal_value R (reg_name source) divisor
    pure (
        high_lines
        ++ (low_lines
            ++ (divisor_lines ++ (mdu_line (codes "    divu  ") remainder quotient source ∷ []))))

  abbrev source_literal : ℕ → Method R (List Text)
  source_literal source = getrandbits R 32 >>= λ value. literal_value R (reg_name source) value

  unfoldable pub op_mulhu : Method R (List Text)
  unfolding literal_value decimal
  op_mulhu = do
    indices ← sample R 7 2
    let low = get_or indices 0 0
    let high = get_or indices 1 0
    source ← randrange R 7
    value ← getrandbits R 32
    lines ← literal_value R (reg_name high) value
    more ← if source == high then pure [] else source_literal source
    pure (lines ++ (more ++ (mdu_line (codes "    mulhu ") low high source ∷ [])))

  unfoldable pub op_mdu : Method R (List Text)
  unfolding op_divu op_mulhu
  op_mdu =
      let drawn : Method R (List Text) =
        random R >>= λ k. if under k p50 then op_divu else op_mulhu in
      if cfg.divu then drawn else op_mulhu

  -- One round of `simple_op`.
  unfoldable pub simple_lines : Method R (List Text)
  unfolding op_alu op_imm op_shift op_mem op_mdu
  simple_lines =
      let drawn : Method R (List Text) = random R >>= λ j. if under j p50 then op_mdu else op_alu in
      random R >>= λ k.
      if under k p40
      then (if cfg.mulhu then drawn else op_alu)
      else if under k p70
      then op_imm
      else if under k p80
      then op_shift
      else op_mem

  unfoldable pub simple_op : ℕ → Option Text → Method R (List Text)
  unfolding simple_lines search
  simple_op rounds exclude = search simple_lines rounds exclude
