-- ===== src/Fuzz/Rc16/Body.antt =====
-- tools/riscc_fuzz.py, class Gen: the composed pieces, and `body`.
use riscc.Prelude.{ℕ, zero, suc, false, List, [], ◌∷◌, ◌++◌, none, some, if◌then◌else◌}
use riscc.Asm.Text.{Text, codes}
use riscc.Fuzz.Format.{cat, decimal, hex_padded, pad5}
use riscc.Fuzz.Config.{Config, win, win_words}
use riscc.Fuzz.Random.{
  Random, pure, ◌>>=◌, times, under, Method, random, randint, choice, new_label, reg, p45, p50, p60,
  p72, p82, p90,
}
use riscc.Fuzz.Lines.{ldi16_line, label_line, Sub, fill_window}
use riscc.Fuzz.Rc16.{op_mem, simple_op}
use riscc.Fuzz.Rc16.Isa.{supported_isa_ops}

module _ (R : Random) (cfg : Config) (rounds : ℕ) where
  abbrev pub op : Method R (List Text)
  op = simple_op R cfg rounds none

  unfoldable pub op_branch_block : Method R (List Text)
  unfolding new_label decimal pad5 times simple_op
  op_branch_block = do
    lab ← new_label R (codes "fwd")
    cc ← choice R [] (codes "BEQZ" ∷ codes "BNEZ" ∷ codes "BLTZ" ∷ codes "BGEZ" ∷ [])
    r ← reg R
    v ← randint R 0 127
    count ← randint R 1 4
    inner ← times count op
    pure (
        cat (codes "    CMPI  " ∷ r ∷ codes ", " ∷ decimal v ∷ [])
        ∷ cat (codes "    " ∷ pad5 cc ∷ codes " " ∷ lab ∷ [])
        ∷ (inner ++ (label_line lab ∷ [])))

  unfoldable pub op_loop : Method R (List Text)
  unfolding new_label decimal times simple_op
  op_loop = do
    lab ← new_label R (codes "loop")
    cnt ← reg R
    count ← randint R 1 3
    inner ← times count (simple_op R cfg rounds (some cnt))
    n ← randint R 1 5
    pure (
        cat (codes "    LDI   " ∷ cnt ∷ codes ", " ∷ decimal n ∷ [])
        ∷ label_line lab
        ∷ (inner
            ++ (cat (codes "    ADDI  " ∷ cnt ∷ codes ", -1" ∷ [])
                ∷ cat (codes "    MOV   r0, " ∷ cnt ∷ [])
                ∷ cat (codes "    BNEZ  " ∷ lab ∷ [])
                ∷ [])))

  -- The call, and the subroutine that it adds.
  unfoldable pub op_call : Method R (List Text × List Sub)
  unfolding new_label decimal times simple_op
  op_call = do
    lab ← new_label R (codes "sub")
    count ← randint R 1 3
    inner ← times count op
    let sub : Sub = (label_line lab, inner ++ (codes "    RET S7" ∷ []))
    direct ← if cfg.long_calls then (random R >>= λ k. pure (under k p50)) else pure false
    call ←
        if direct
        then pure (cat (codes "    JALL S7, " ∷ lab ∷ []) ∷ [])
        else reg R >>= λ r. pure (
            cat (codes "    LDI16 " ∷ r ∷ codes ", " ∷ lab ∷ [])
            ∷ cat (codes "    JALR S7, " ∷ r ∷ [])
            ∷ [])
    pure (call, sub ∷ [])

  unfoldable pub op_ie_window : Method R (List Text)
  unfolding simple_op
  op_ie_window = do inner ← op; pure (codes "    CLI" ∷ (inner ++ (codes "    STI" ∷ [])))

  -- A piece that adds no subroutine.
  abbrev pub alone : Method R (List Text) → Method R (List Text × List Sub)
  alone m = m >>= λ lines. pure (lines, [])

  -- One round of the loop of `body`.
  unfoldable pub piece : Method R (List Text × List Sub)
  unfolding simple_op op_mem op_branch_block op_loop op_call op_ie_window
  piece = random R >>= λ k.
      if under k p45
      then alone op
      else if under k p60
      then alone (op_mem R cfg)
      else if under k p72
      then alone op_branch_block
      else if under k p82
      then alone op_loop
      else if under k p90
      then op_call
      else if cfg.sys
      then alone op_ie_window
      else alone op

  unfoldable pub pieces : ℕ → Method R (List Text × List Sub)
  unfolding piece
  pieces zero = pure ([], [])
  pieces (suc count) = do p ← piece; q ← pieces count; pure (p.0 ++ q.0, p.1 ++ q.1)

  unfoldable pub body : Method R (List Text × List Sub)
  unfolding fill_window supported_isa_ops pieces hex_padded decimal
  body = do
    filled ← fill_window R 0 win_words
    cover ← supported_isa_ops R cfg
    count ← randint R 25 45
    p ← pieces count
    pure (ldi16_line 7 win ∷ (filled ++ (cover ++ p.0)), p.1)
