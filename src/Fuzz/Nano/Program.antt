-- ===== src/Fuzz/Nano/Program.antt =====
-- tools/riscc_fuzz.py, class NanoGen: `save_regs`, `check_word` and `emit`.
use riscc.Prelude.{ℕ, zero, suc, ◌+◌, ◌*◌, List, [], ◌∷◌, ◌++◌, Option, none, some}
use riscc.Asm.Text.{Text, codes}
use riscc.Fuzz.Format.{cat, decimal, hex_small, hex4, hex_padded, join_lines}
use riscc.Fuzz.Config.{win, result_addr, fail_base, nano_scratch}
use riscc.Fuzz.Random.{Random, GenState, reg_name}
use riscc.Fuzz.Lines.{ldi16_line, Sub, sub_lines, joined}
use riscc.Fuzz.Nano.Body.{body}

-- What the probe run left: the registers, the words of the window, and the words of it that are
-- checked.
pub record Expect : Type 0 where
  pub r : ℕ → ℕ
  pub mem : ℕ → ℕ
  pub probes : List ℕ

-- `for r in range(first, first + count)`
unfoldable pub save_from : ℕ → ℕ → List Text
unfolding decimal
save_from r zero = []
save_from r (suc count) =
    cat (codes "    ST   " ∷ reg_name r ∷ codes ", [r0+" ∷ decimal (r * 2) ∷ codes "]" ∷ [])
    ∷ save_from (r + 1) count

unfoldable pub save_regs : List Text
unfolding save_from hex_padded decimal
save_regs = ldi16_line 0 nano_scratch ∷ save_from 1 7

unfoldable pub check_word : List Text → ℕ → ℕ → List Text
unfolding hex_padded hex_small decimal
check_word load_lines want code =
    load_lines
    ++ (ldi16_line 3 want
        ∷ codes "    SUB   r0, r2, r3"
        ∷ cat (codes "    BEQZ  nok_" ∷ hex_small code ∷ [])
        ∷ ldi16_line 7 code
        ∷ ldi16_line 6 result_addr
        ∷ codes "    ST   r7, [r6+0]"
        ∷ codes "    HALT"
        ∷ cat (codes "nok_" ∷ hex_small code ∷ codes ":" ∷ [])
        ∷ [])

-- Each pass through these loops takes the next fail code.
unfoldable pub check_regs : Expect → ℕ → ℕ → ℕ → List Text
unfolding check_word decimal hex_padded
check_regs e r zero code = []
check_regs e r (suc count) code =
    check_word
      (ldi16_line 5 nano_scratch
        ∷ cat (codes "    LD   r2, [r5+" ∷ decimal (r * 2) ∷ codes "]" ∷ [])
        ∷ [])
      (e.r r) code
    ++ check_regs e (r + 1) count (code + 1)

unfoldable pub check_words : Expect → List ℕ → ℕ → List Text
unfolding check_word decimal hex_padded
check_words e [] code = []
check_words e (w ∷ rest) code =
    check_word (ldi16_line 5 (win + 2 * w) ∷ codes "    LD   r2, [r5+0]" ∷ []) (e.mem w) code
    ++ check_words e rest (code + 1)

-- `RESULT` gets 0x600D.
abbrev passed_lines : List Text
passed_lines =
    codes "    LDI16 r7, 0x600D"
    ∷ ldi16_line 6 result_addr
    ∷ codes "    ST   r7, [r6+0]"
    ∷ codes "    HALT"
    ∷ []

-- The end of the probe build, and of the self-checking build.
unfoldable pub tail_lines : Option Expect → List Text
unfolding save_regs check_regs check_words hex_padded decimal
tail_lines none = save_regs ++ passed_lines
tail_lines (some e) =
    save_regs
    ++ (check_regs e 1 7 (fail_base + 1)
        ++ (check_words e e.probes (fail_base + 8) ++ passed_lines))

-- The lines before the body.
unfoldable pub head_lines : ℕ → Text → List Sub → List Text
unfolding decimal hex_padded sub_lines
head_lines seed config subs =
    cat (
      codes "; generated by riscc_fuzz.py seed="
      ∷ decimal seed
      ∷ codes " family=nano config="
      ∷ config
      ∷ [])
    ∷ codes ".vectors"
    ∷ codes ".text"
    ∷ codes "reset_tramp:"
    ∷ codes "    LDI16 r0, start"
    ∷ codes "    JMP   r0"
    ∷ codes "fail:"
    ∷ codes "    LDI16 r7, 0x0BAD"
    ∷ cat (codes "    LDI16 r6, 0x" ∷ hex4 result_addr ∷ [])
    ∷ codes "    ST   r7, [r6+0]"
    ∷ codes "    HALT"
    ∷ (sub_lines subs ++ (codes "start:" ∷ []))

module _ (R : Random) (rounds seed : ℕ) (config : Text) where
  -- `self.rng = random.Random(self.seed)`, `self.label = 0`
  abbrev pub begin : GenState (R.Source)
  begin = record { rng = R.seed seed; label = 0 }

  abbrev pub program :
      Option Expect → Option ((List Text × List Sub) × GenState (R.Source)) → Option (List Text)
  program expect none = none
  program expect (some ((lines, subs), s)) =
      some (head_lines seed config subs ++ (lines ++ tail_lines expect))

  unfoldable pub emit_lines : Option Expect → Option (List Text)
  unfolding body head_lines tail_lines
  emit_lines expect = program expect (body R rounds begin)

  unfoldable pub emit : Option Expect → Option Text
  unfolding emit_lines join_lines
  emit expect = joined (emit_lines expect)
