-- ===== src/Fuzz/Rc32/Body.antt =====
-- tools/riscc_fuzz.py, class RC32Gen: the composed pieces, and `body`.
use riscc.Prelude.{
  ℕ, zero, suc, ◌+◌, ◌*◌, ◌&&◌, List, [], ◌∷◌, ◌++◌, Option, none, some, if◌then◌else◌,
}
use riscc.Asm.Text.{Text, codes}
use riscc.Fuzz.Format.{cat, decimal, signed, pad5}
use riscc.Fuzz.Config.{Config, rc32_win, rc32_win_words}
use riscc.Fuzz.Random.{
  Random, Draw, pure, ◌>>=◌, times, under, Method, random, randint, choice, getrandbits, reg, p55,
  p76, p90, p95,
}
use riscc.Fuzz.Lines.{label_line, Sub}
use riscc.Fuzz.Rc32.{new_label, any_byte, literal_value, op_mem, simple_op}
use riscc.Fuzz.Rc32.Isa.{supported_isa_ops}

module _ (R : Random) (cfg : Config) (rounds : ℕ) where
  abbrev op : Option Text → Method R (List Text)
  op exclude = simple_op R cfg rounds exclude

  unfoldable pub op_ie_window : Method R (List Text)
  unfolding simple_op
  op_ie_window = do inner ← op none; pure (codes "    cli" ∷ (inner ++ (codes "    sti" ∷ [])))

  unfoldable pub op_branch_block : Method R (List Text)
  unfolding riscc.Fuzz.Random.new_label signed pad5 times simple_op
  op_branch_block = do
    target ← new_label R (codes "branch")
    cc ← choice R [] (codes "beqz" ∷ codes "bnez" ∷ codes "bltz" ∷ codes "bgez" ∷ [])
    r ← reg R
    v ← any_byte R
    count ← randint R 1 3
    inner ← times count (op none)
    pure (
        cat (codes "    cmpi  " ∷ r ∷ codes ", " ∷ signed v ∷ [])
        ∷ cat (codes "    " ∷ pad5 cc ∷ codes " " ∷ target ∷ [])
        ∷ (inner ++ (label_line target ∷ [])))

  unfoldable pub op_loop : Method R (List Text)
  unfolding riscc.Fuzz.Random.new_label decimal times simple_op
  op_loop = do
    target ← new_label R (codes "loop")
    cnt ← reg R
    count ← randint R 1 2
    inner ← times count (op (some cnt))
    n ← randint R 1 5
    pure (
        cat (codes "    ldi   " ∷ cnt ∷ codes ", " ∷ decimal n ∷ [])
        ∷ label_line target
        ∷ (inner
            ++ (cat (codes "    addi  " ∷ cnt ∷ codes ", -1" ∷ [])
                ∷ cat (codes "    or    r0, " ∷ cnt ∷ codes ", " ∷ cnt ∷ [])
                ∷ cat (codes "    bnez  " ∷ target ∷ [])
                ∷ [])))

  -- One round of the loop of `body`.
  unfoldable pub piece : Method R (List Text)
  unfolding simple_op op_mem op_branch_block op_ie_window op_loop
  piece = random R >>= λ k.
      if under k p55
      then op none
      else if under k p76
      then op_mem R cfg
      else if under k p90
      then op_branch_block
      else if cfg.sys && under k p95
      then op_ie_window
      else op_loop

  -- The data window is filled with random words.
  unfoldable pub fill_window : ℕ → ℕ → Method R (List Text)
  unfolding literal_value decimal
  fill_window word zero = pure []
  fill_window word (suc count) = do
    value ← getrandbits R 32
    lines ← literal_value R (codes "r1") value
    more ← fill_window (word + 1) count
    pure
        (lines ++ (cat (codes "    st    r1, [r7 + " ∷ decimal (word * 4) ∷ codes "]" ∷ []) ∷ more))

  -- The lines, and the subroutine that stands at the program's end.
  unfoldable pub body : Method R (List Text × Sub)
  unfolding fill_window supported_isa_ops times piece literal_value riscc.Fuzz.Random.new_label
  body = do
    window ← literal_value R (codes "r7") rc32_win
    filled ← fill_window 0 rc32_win_words
    cover ← supported_isa_ops R cfg
    count ← randint R 20 32
    pieces ← times count piece
    sub ← new_label R (codes "sub")
    lit ← new_label R (codes "sub_literal")
    after ← new_label R (codes "after_sub_literal")
    pure (
      window
          ++ (filled
              ++ (cover
                  ++ (pieces
                      ++ (cat (codes "    ldpc  r4, " ∷ lit ∷ [])
                          ∷ codes "    jalr  s3, r4"
                          ∷ cat (codes "    jmp8  " ∷ after ∷ [])
                          ∷ codes "    .balign 4"
                          ∷ label_line lit
                          ∷ cat (codes "    .long " ∷ sub ∷ [])
                          ∷ label_line after
                          ∷ codes "    ldi   r4, 0"
                          ∷ [])))),
      (sub, codes "    add   r5, r5, r5" ∷ codes "    ret   s3" ∷ []),
    )
