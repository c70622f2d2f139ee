-- ===== src/Fuzz/Rc32/Program.antt =====
-- tools/riscc_fuzz.py, class RC32Gen: `store_result`, `check_reg` and `emit`.
use riscc.Prelude.{
  ℕ, zero, suc, ◌+◌, ◌*◌, Bool, true, false, List, [], ◌∷◌, ◌++◌, Option, none, some, if◌then◌else◌,
}
use riscc.Asm.Text.{Text, codes}
use riscc.Fuzz.Format.{cat, decimal, join_lines}
use riscc.Fuzz.Config.{Config, rc32_win, test_irq, result_addr, irq_marker, fail_base}
use riscc.Fuzz.Random.{Random, Draw, GenState, pure, ◌>>=◌, Method, reg_name}
use riscc.Fuzz.Lines.{label_line, Sub, joined}
use riscc.Fuzz.Rc32.{new_label, literal_value}
use riscc.Fuzz.Rc32.Body.{body}

-- What the probe run left: the registers, the S-registers, the words of the window, and the words
-- of it that are checked.
pub record Expect : Type 0 where
  pub r : ℕ → ℕ
  pub s : ℕ → ℕ
  pub mem : ℕ → ℕ
  pub probes : List ℕ

module _ (R : Random) where
  unfoldable pub store_result : ℕ → Method R (List Text)
  unfolding literal_value
  store_result value = do
    first ← literal_value R (codes "r7") value
    second ← literal_value R (codes "r6") result_addr
    pure (first ++ (second ++ (codes "    sth   r7, [r6]" ∷ codes "    halt" ∷ [])))

  unfoldable pub check_reg : Text → ℕ → ℕ → Method R (List Text)
  unfolding literal_value store_result riscc.Fuzz.Random.new_label
  check_reg reg value code = do
    done ← new_label R (codes "check_ok")
    first ← literal_value R (codes "r7") value
    second ← store_result code
    pure (
        first
        ++ (cat (codes "    sub   r0, " ∷ reg ∷ codes ", r7" ∷ [])
            ∷ cat (codes "    beqz  " ∷ done ∷ [])
            ∷ (second ++ (label_line done ∷ []))))

  -- Each pass through these loops takes the next fail code.
  unfoldable pub check_regs : Expect → ℕ → ℕ → ℕ → Method R (List Text)
  unfolding check_reg decimal
  check_regs e index zero code = pure []
  check_regs e index (suc count) code = do
    lines ← check_reg (reg_name index) (e.r index) code
    more ← check_regs e (index + 1) count (code + 1)
    pure (lines ++ more)

  unfoldable pub check_sregs : Expect → List ℕ → ℕ → Method R (List Text)
  unfolding check_reg decimal
  check_sregs e [] code = pure []
  check_sregs e (sreg ∷ rest) code = do
    lines ← check_reg (codes "r6") (e.s sreg) code
    more ← check_sregs e rest (code + 1)
    pure (cat (codes "    mfs   r6, s" ∷ decimal sreg ∷ []) ∷ (lines ++ more))

  unfoldable pub check_words : Expect → List ℕ → ℕ → Method R (List Text)
  unfolding check_reg literal_value
  check_words e [] code = pure []
  check_words e (word ∷ rest) code = do
    address ← literal_value R (codes "r7") (rc32_win + word * 4)
    lines ← check_reg (codes "r6") (e.mem word) code
    more ← check_words e rest (code + 1)
    pure (address ++ (codes "    ld    r6, [r7 + 0]" ∷ (lines ++ more)))

  unfoldable pub irq_vectors : Bool → Method R (List Text)
  unfolding literal_value
  irq_vectors false = pure []
  irq_vectors true = literal_value R (codes "r1") test_irq >>= λ lines. pure (
      codes "    jall  s7, start"
      ∷ codes "    jmpl  .irq_handler"
      ∷ codes ".irq_handler:"
      ∷ codes "    mts   s1, r0"
      ∷ codes "    mts   s2, r1"
      ∷ (lines
          ++ (codes "    ldh   r0, [r1]"
              ∷ codes "    mfs   r1, s2"
              ∷ codes "    mfs   r0, s1"
              ∷ codes "    reti  s0"
              ∷ [])))

  -- The store that ends the part of the body that may be interrupted.
  unfoldable pub marker_lines : Bool → Method R (List Text)
  unfolding literal_value
  marker_lines false = pure []
  marker_lines true = literal_value R (codes "r7") irq_marker >>= λ lines.
      pure (lines ++ (codes "    sth   r7, [r7]" ∷ []))

  abbrev checked_sregs : Bool → List ℕ
  checked_sregs sys = if sys then 3 ∷ 4 ∷ 5 ∷ 6 ∷ [] else 3 ∷ 4 ∷ 5 ∷ []

  abbrev sregs_end : Bool → ℕ
  sregs_end sys = fail_base + (if sys then 10 else 9)

  -- The end of the probe build, and of the self-checking build.
  unfoldable pub tail_lines : Bool → Option Expect → Method R (List Text)
  unfolding store_result check_regs check_sregs check_words
  tail_lines sys none = do
    last ← store_result 0x600d
    pure (codes "    mts   s4, r6" ∷ codes "    mts   s5, r7" ∷ last)
  tail_lines sys (some e) = do
    regs ← check_regs e 1 5 (fail_base + 1)
    sregs ← check_sregs e (checked_sregs sys) (fail_base + 6)
    words ← check_words e e.probes (sregs_end sys)
    last ← store_result 0x600d
    pure
        (codes "    mts   s4, r6" ∷ codes "    mts   s5, r7" ∷ (regs ++ (sregs ++ (words ++ last))))

module _ (R : Random) (cfg : Config) (rounds seed : ℕ) (config : Text) where
  abbrev start_lines : List Text
  start_lines =
      codes "start:"
      ∷ (if cfg.sys
          then codes "    ldi   r0, 0" ∷ codes "    mts   s6, r0" ∷ codes "    sti" ∷ []
          else [])

  abbrev name_lines : List Text
  name_lines =
      cat (
        codes "; generated by riscc_fuzz.py seed="
        ∷ decimal seed
        ∷ codes " family=rc32 config="
        ∷ config
        ∷ [])
      ∷ codes ".text"
      ∷ codes ".globl start"
      ∷ []

  -- The lines before the tail, and the subroutine.
  unfoldable pub front : Method R (List Text × Sub)
  unfolding irq_vectors body marker_lines decimal
  front = do
    vectors ← irq_vectors R (cfg.sys)
    b ← body R cfg rounds
    marker ← marker_lines R (cfg.sys)
    pure (name_lines ++ (vectors ++ (start_lines ++ (b.0 ++ marker))), b.1)

  -- `self.rng = random.Random(self.seed)`, `self.label = 0`
  abbrev pub begin : GenState (R.Source)
  begin = record { rng = R.seed seed; label = 0 }

  abbrev pub with_tail : Option Expect → List Text × Sub → Method R (List Text)
  with_tail expect (lines, (sub, sub_body)) = tail_lines R (cfg.sys) expect >>= λ tail.
      pure (lines ++ (tail ++ (label_line sub ∷ sub_body)))

  abbrev pub program : Option Expect → Method R (List Text)
  program expect = front >>= with_tail expect

  abbrev lines_of : Option (List Text × GenState (R.Source)) → Option (List Text)
  lines_of none = none
  lines_of (some (lines, s)) = some lines

  unfoldable pub emit_lines : Option Expect → Option (List Text)
  unfolding front tail_lines
  emit_lines expect = lines_of (program expect begin)

  unfoldable pub emit : Option Expect → Option Text
  unfolding emit_lines join_lines
  emit expect = joined (emit_lines expect)
