-- ===== src/Fuzz/Lines.antt =====
-- tools/riscc_fuzz.py: the lines that the classes Gen and NanoGen both make.
use riscc.Prelude.{ℕ, zero, suc, ◌+◌, ◌*◌, List, [], ◌∷◌, ◌++◌, Option, none, some}
use riscc.Prelude.Lists.{get_or}
use riscc.Asm.Text.{Text, codes}
use riscc.Asm.Syntax.{ImmOp, ldi, lui, addi, cmpi, andi, ori, xori}
use riscc.Fuzz.Format.{cat, decimal, hex4, hex_padded, pad5, join_lines}
use riscc.Fuzz.Config.{win_words}
use riscc.Fuzz.Random.{Random, pure, ◌>>=◌, Method, randrange, randint, reg_name, reg}

-- `"    %-5s %s, %s, %s"`
abbrev pub three_line : Text → Text → Text → Text → Text
three_line op a b c =
    cat (codes "    " ∷ pad5 op ∷ codes " " ∷ a ∷ codes ", " ∷ b ∷ codes ", " ∷ c ∷ [])

-- `"    %-5s %s, %s"`
abbrev pub two_line : Text → Text → Text → Text
two_line op a b = cat (codes "    " ∷ pad5 op ∷ codes " " ∷ a ∷ codes ", " ∷ b ∷ [])

-- `"    LDI16 r%d, 0x%04X"`
abbrev pub ldi16_line : ℕ → ℕ → Text
ldi16_line r value = cat (codes "    LDI16 " ∷ reg_name r ∷ codes ", 0x" ∷ hex4 value ∷ [])

abbrev pub imm_name : ImmOp → Text
imm_name ldi = codes "LDI"
imm_name lui = codes "LUI"
imm_name addi = codes "ADDI"
imm_name cmpi = codes "CMPI"
imm_name andi = codes "ANDI"
imm_name ori = codes "ORI"
imm_name xori = codes "XORI"

-- `[r0 + boff]` in r0.
abbrev pub byte_address : ℕ → List Text
byte_address boff =
    cat (codes "    LDI   r0, " ∷ decimal boff ∷ []) ∷ codes "    ADD   r0, r7, r0" ∷ []

-- `"%s:" % label`
abbrev pub label_line : Text → Text
label_line label = label ++ codes ":"

-- A subroutine: its label's line and its code.
abbrev pub Sub : Type 0
Sub = Text × List Text

-- `range(1, 7)[i]` of a sample of indices
abbrev pub pick : List ℕ → ℕ → ℕ
pick indices i = 1 + get_or indices i 0

-- `for lab, code_lines in subs`
unfoldable pub sub_lines : List Sub → List Text
sub_lines [] = []
sub_lines ((lab, code_lines) ∷ rest) = lab ∷ (code_lines ++ sub_lines rest)

abbrev pub joined : Option (List Text) → Option Text
joined none = none
joined (some lines) = some (join_lines lines)

module _ (R : Random) where
  -- `"    ST   %s, [r7+%d]"` and `"    LD   %s, [r7+%d]"`
  abbrev pub word_access : Text → ℕ → Method R (List Text)
  word_access start off = do
    r ← reg R
    pure (cat (start ∷ r ∷ codes ", [r7+" ∷ decimal off ∷ codes "]" ∷ []) ∷ [])

  unfoldable pub store_byte : Method R (List Text)
  unfolding decimal
  store_byte = do
    boff ← randrange R (win_words * 2)
    r ← reg R
    pure (byte_address boff ++ (cat (codes "    STB   " ∷ r ∷ codes ", [r0]" ∷ []) ∷ []))

  -- The data window is filled with random words.
  unfoldable pub fill_window : ℕ → ℕ → Method R (List Text)
  unfolding decimal hex_padded
  fill_window w zero = pure []
  fill_window w (suc count) = do
    v ← randint R 0 0xffff
    more ← fill_window (w + 1) count
    pure
        (ldi16_line 1 v ∷ cat (codes "    ST   r1, [r7+" ∷ decimal (w * 2) ∷ codes "]" ∷ []) ∷ more)
