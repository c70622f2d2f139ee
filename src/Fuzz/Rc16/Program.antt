-- ===== src/Fuzz/Rc16/Program.antt =====
-- tools/riscc_fuzz.py, class Gen: `check_reg` and `emit`. The probe build and the self-checking build
-- are made from the same seed.
use riscc.Prelude.{
  ℕ, zero, suc, ◌+◌, ◌*◌, List, [], ◌∷◌, ◌++◌, Option, none, some, if◌then◌else◌, ◌==◌,
}
use riscc.Asm.Text.{Text, codes}
use riscc.Fuzz.Format.{cat, decimal, hex_small, hex4, hex_padded, join_lines}
use riscc.Fuzz.Config.{Config, win, test_irq, result_addr, irq_marker, fail_base}
use riscc.Fuzz.Random.{Random, GenState, reg_name}
use riscc.Fuzz.Lines.{ldi16_line, Sub, sub_lines, joined}
use riscc.Fuzz.Rc16.Body.{body}

-- What the probe run left: the registers, `r7`, the S-registers, the words of the window, and the
-- words of it that are checked.
pub record Expect : Type 0 where
  pub r : ℕ → ℕ
  pub r7 : ℕ
  pub s : ℕ → ℕ
  pub mem : ℕ → ℕ
  pub probes : List ℕ

-- The general registers by number; `scratch` is r7, or r6 for r7 itself.
unfoldable pub check_reg : ℕ → ℕ → ℕ → List Text
unfolding decimal hex_padded hex_small
check_reg reg want code =
    let scratch = (if reg == 7 then 6 else 7) in
    ldi16_line scratch want
    ∷ cat (codes "    SUB   r0, " ∷ reg_name reg ∷ codes ", " ∷ reg_name scratch ∷ [])
    ∷ cat (codes "    BEQZ  ok_" ∷ hex_small code ∷ [])
    ∷ ldi16_line 7 code
    ∷ ldi16_line 6 result_addr
    ∷ codes "    ST   r7, [r6+0]"
    ∷ codes "    HALT"
    ∷ cat (codes "ok_" ∷ hex_small code ∷ codes ":" ∷ [])
    ∷ []

abbrev pub vector_lines : Config → List Text
vector_lines cfg =
    if cfg.sys
    then (if cfg.long_calls
        then codes "    JMPL reset_tramp" ∷ codes "    JMPL irq_h" ∷ codes "    JMPL brk_h" ∷ []
        else codes "    JMP8 reset_tramp" ∷ codes "    LDI   r0, 0" ∷ codes "    JMP8 irq_h" ∷ [])
    else []

abbrev pub start_lines : List Text
start_lines =
    codes ".text"
    ∷ codes "reset_tramp:"
    ∷ codes "    LDI16 r0, start"
    ∷ codes "    JMP   r0"
    ∷ codes "fail:"
    ∷ codes "    LDI16 r7, 0x0BAD"
    ∷ cat (codes "    LDI16 r6, 0x" ∷ hex4 result_addr ∷ [])
    ∷ codes "    ST   r7, [r6+0]"
    ∷ codes "    HALT"
    ∷ []

abbrev pub handler_lines : List Text
handler_lines =
    codes "irq_h:"
    ∷ codes "    MTS   S2, r1"
    ∷ cat (codes "    LDI16 r1, 0x" ∷ hex4 test_irq ∷ [])
    ∷ codes "    LD   r1, [r1+0]"
    ∷ codes "    MFS   r1, S2"
    ∷ codes "    RETI S0"
    ∷ codes "brk_h:"
    ∷ codes "    MTS   S2, r1"
    ∷ codes "    MFS   r1, S3"
    ∷ codes "    ADDI  r1, 1"
    ∷ codes "    MTS   S3, r1"
    ∷ codes "    MFS   r1, S2"
    ∷ codes "    RETI S0"
    ∷ []

-- The lines before the body: vectors, start, handlers and subroutines.
unfoldable pub head_lines : ℕ → Text → Config → List Sub → List Text
unfolding decimal hex_padded sub_lines
head_lines seed config cfg subs =
    cat (codes "; generated by riscc_fuzz.py seed=" ∷ decimal seed ∷ codes " config=" ∷ config ∷ [])
    ∷ codes ".vectors"
    ∷ (vector_lines cfg
        ++ (start_lines
            ++ ((if cfg.sys then handler_lines else [])
                ++ (sub_lines subs
                    ++ (codes "start:" ∷ (if cfg.sys then codes "    STI" ∷ [] else []))))))

-- The store that ends the part of the body that may be interrupted.
abbrev pub marker_lines : Config → List Text
marker_lines cfg =
    if cfg.sys then ldi16_line 7 irq_marker ∷ codes "    ST    r7, [r7+0]" ∷ [] else []

-- Each pass through these loops takes the next fail code.
unfoldable pub check_regs : Expect → ℕ → ℕ → ℕ → List Text
unfolding check_reg
check_regs e k zero code = []
check_regs e k (suc count) code = check_reg k (e.r k) code ++ check_regs e (k + 1) count (code + 1)

unfoldable pub check_sregs : Expect → List ℕ → ℕ → List Text
unfolding check_reg decimal
check_sregs e [] code = []
check_sregs e (sidx ∷ rest) code =
    cat (codes "    MFS   r6, S" ∷ decimal sidx ∷ [])
    ∷ (check_reg 6 (e.s sidx) code ++ check_sregs e rest (code + 1))

unfoldable pub check_words : Expect → List ℕ → ℕ → List Text
unfolding check_reg decimal hex_padded
check_words e [] code = []
check_words e (w ∷ rest) code =
    ldi16_line 7 (win + 2 * w)
    ∷ codes "    LD   r6, [r7+0]"
    ∷ (check_reg 6 (e.mem w) code ++ check_words e rest (code + 1))

-- The end of the probe build, and of the self-checking build.
unfoldable pub probe_tail : List Text
unfolding decimal hex_padded
probe_tail =
    codes "    MTS   S4, r7"
    ∷ codes "    LDI16 r7, 0x600D"
    ∷ ldi16_line 0 result_addr
    ∷ codes "    ST   r7, [r0+0]"
    ∷ codes "    HALT"
    ∷ []

unfoldable pub check_tail : Expect → List Text
unfolding check_regs check_sregs check_words check_reg decimal hex_padded
check_tail e =
    codes "    MTS   S4, r7"
    ∷ (check_regs e 1 6 (fail_base + 1)
        ++ (codes "    MFS   r6, S4"
            ∷ (check_reg 6 e.r7 (fail_base + 7)
                ++ (check_sregs e (1 ∷ 5 ∷ 6 ∷ []) (fail_base + 8)
                    ++ (check_words e e.probes (fail_base + 11)
                        ++ (codes "    LDI16 r7, 0x600D"
                            ∷ ldi16_line 6 result_addr
                            ∷ codes "    ST   r7, [r6+0]"
                            ∷ codes "    HALT"
                            ∷ []))))))

abbrev pub tail_lines : Option Expect → List Text
tail_lines none = probe_tail
tail_lines (some e) = check_tail e

module _ (R : Random) (rounds seed : ℕ) (config : Text) (cfg : Config) where
  -- `self.rng = random.Random(self.seed)`, `self.label = 0`
  abbrev pub begin : GenState (R.Source)
  begin = record { rng = R.seed seed; label = 0 }

  abbrev pub program :
      Option Expect → Option ((List Text × List Sub) × GenState (R.Source)) → Option (List Text)
  program expect none = none
  program expect (some ((lines, subs), s)) =
      some (head_lines seed config cfg subs ++ (lines ++ (marker_lines cfg ++ tail_lines expect)))

  unfoldable pub emit_lines : Option Expect → Option (List Text)
  unfolding body head_lines probe_tail check_tail
  emit_lines expect = program expect (body R cfg rounds begin)

  unfoldable pub emit : Option Expect → Option Text
  unfolding emit_lines join_lines
  emit expect = joined (emit_lines expect)
