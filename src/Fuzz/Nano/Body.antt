-- ===== src/Fuzz/Nano/Body.antt =====
-- tools/riscc_fuzz.py, class NanoGen: the composed pieces, and `body`.
use riscc.Prelude.{ℕ, zero, suc, List, [], ◌∷◌, ◌++◌, Option, none, some, if◌then◌else◌}
use riscc.Asm.Text.{Text, codes}
use riscc.Fuzz.Format.{cat, decimal, hex_padded, pad5}
use riscc.Fuzz.Config.{win, win_words}
use riscc.Fuzz.Random.{
  Random, pure, ◌>>=◌, times, under, Method, random, randint, choice, new_label, reg, p48, p66, p80,
  p91,
}
use riscc.Fuzz.Lines.{ldi16_line, label_line, Sub, fill_window}
use riscc.Fuzz.Nano.{op_mem, simple_op}
use riscc.Fuzz.Nano.Isa.{supported_isa_ops}

module _ (R : Random) (rounds : ℕ) where
  abbrev op : Option Text → Method R (List Text)
  op exclude = simple_op R rounds exclude

  unfoldable pub op_branch_block : Method R (List Text)
  unfolding new_label decimal pad5 times simple_op
  op_branch_block = do
    lab ← new_label R (codes "fwd")
    cc ← choice R [] (codes "BEQZ" ∷ codes "BNEZ" ∷ codes "BLTZ" ∷ codes "BGEZ" ∷ [])
    v ← randint R 0 127
    r ← reg R
    count ← randint R 1 4
    inner ← times count (op none)
    pure (
        cat (codes "    LDI   r0, " ∷ decimal v ∷ [])
        ∷ cat (codes "    SUB   r0, " ∷ r ∷ codes ", r0" ∷ [])
        ∷ cat (codes "    " ∷ pad5 cc ∷ codes " " ∷ lab ∷ [])
        ∷ (inner ++ (label_line lab ∷ [])))

  unfoldable pub op_loop : Method R (List Text)
  unfolding new_label decimal times simple_op
  op_loop = do
    lab ← new_label R (codes "loop")
    cnt ← reg R
    count ← randint R 1 3
    inner ← times count (op (some cnt))
    n ← randint R 1 5
    pure (
        cat (codes "    LDI   " ∷ cnt ∷ codes ", " ∷ decimal n ∷ [])
        ∷ label_line lab
        ∷ (inner
            ++ (cat (codes "    ADDI  " ∷ cnt ∷ codes ", -1" ∷ [])
                ∷ cat (codes "    MOV   r0, " ∷ cnt ∷ [])
                ∷ cat (codes "    BNEZ  " ∷ lab ∷ [])
                ∷ [])))

  -- The call, and the subroutine that it adds: its code leaves r7 alone, which holds the return
  -- address.
  unfoldable pub op_call : Method R (List Text × List Sub)
  unfolding new_label times simple_op
  op_call = do
    lab ← new_label R (codes "nsub")
    count ← randint R 1 3
    inner ← times count (op (some (codes "r7")))
    let sub : Sub = (label_line lab, inner ++ (codes "    JMP   r7" ∷ []))
    pure (cat (codes "    LDI16 r1, " ∷ lab ∷ []) ∷ codes "    JALR  r7, r1" ∷ [], sub ∷ [])

  -- A piece that adds no subroutine.
  abbrev alone : Method R (List Text) → Method R (List Text × List Sub)
  alone m = m >>= λ lines. pure (lines, [])

  -- One round of the loop of `body`.
  unfoldable pub piece : Method R (List Text × List Sub)
  unfolding simple_op op_mem op_branch_block op_loop op_call
  piece = random R >>= λ k.
      if under k p48
      then alone (op none)
      else if under k p66
      then alone (op_mem R)
      else if under k p80
      then alone op_branch_block
      else if under k p91
      then alone op_loop
      else op_call

  unfoldable pub pieces : ℕ → Method R (List Text × List Sub)
  unfolding piece
  pieces zero = pure ([], [])
  pieces (suc count) = do p ← piece; q ← pieces count; pure (p.0 ++ q.0, p.1 ++ q.1)

  unfoldable pub body : Method R (List Text × List Sub)
  unfolding fill_window supported_isa_ops pieces hex_padded decimal
  body = do
    filled ← fill_window R 0 win_words
    cover ← supported_isa_ops R
    count ← randint R 25 45
    p ← pieces count
    pure (ldi16_line 7 win ∷ (filled ++ (cover ++ p.0)), p.1)
