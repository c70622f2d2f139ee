-- ===== src/Asm/Parse.antt =====
-- tools/riscc_asm.py: `parse_section_name` and `parse_source`.
pub mod Fits
use riscc.Prelude.{
  ℕ, zero, suc, ◌+◌, ◌*◌, Bool, true, false, List, [], ◌∷◌, ◌++◌, Option, none, some, ◌==◌,
  if◌then◌else◌,
}
use riscc.Prelude.Int.{ℤ, pos, ◌+ℤ◌, ◌-ℤ◌, and_ℤ, pos_part, ltb_ℤ}
use riscc.Prelude.Lists.{length}
use riscc.Prelude.Result.{Result, ok, err, ◌>>=◌, ◌>>◌, raise_if}
use riscc.Asm.Text.{
  Text, codes, strip, upper, lower, starts_with, split_first, is_empty, match_ident,
}
use riscc.Asm.Source.{strip_comment, split_operands}
use riscc.Asm.Expr.{
  AsmError, duplicate_label, negative_space, unsupported_directive, Python, lookup, parse_string,
  eval_expr,
}
use riscc.Asm.Syntax.{
  Section, vectors, text_, rodata, data_, bss, Kind, insn, byte, word, ascii, space, Item, mnemonic,
}
use riscc.Asm.Encode.{insn_size}

abbrev pub section_beq : Section → Section → Bool
section_beq vectors vectors = true
section_beq text_ text_ = true
section_beq rodata rodata = true
section_beq data_ data_ = true
section_beq bss bss = true
section_beq _ _ = false

abbrev pub Definitions : Type 0
Definitions = List (Text × (Section × ℕ))

-- The state of the loop; the items and the labels stand in the order of the source.
pub record Parser : Type 0 where
  pub items : List Item
  pub labels : Definitions
  pub offsets : Section → ℕ
  pub section : Section

pub data Directive : Type 0 where
  section_ : Section → Directive
  byte_ word_ ascii_ asciz_ space_ align_ unsupported : Directive

abbrev pub directives : List (Text × Directive)
directives =
    (codes ".vectors", section_ vectors)
    ∷ (codes ".text", section_ text_)
    ∷ (codes ".rodata", section_ rodata)
    ∷ (codes ".data", section_ data_)
    ∷ (codes ".bss", section_ bss)
    ∷ (codes ".byte", byte_)
    ∷ (codes ".word", word_)
    ∷ (codes ".ascii", ascii_)
    ∷ (codes ".asciz", asciz_)
    ∷ (codes ".space", space_)
    ∷ (codes ".align", align_)
    ∷ []

abbrev known_directive : Option Directive → Directive
known_directive none = unsupported
known_directive (some d) = d

-- `offsets[section] += size`
abbrev pub advance : (Section → ℕ) → Section → ℤ → Section → ℕ
advance offsets here size s =
    if section_beq s here then pos_part (pos (offsets here) +ℤ size) else offsets s

-- Append an item at the current offset and move on by its size.
unfoldable pub add_item : ℕ → ℤ → Kind → Parser → Parser
unfolding ◌+ℤ◌
add_item lineno size kind p = record p {
  items =
      p.items
      ++ (record {
        section = p.section;
        offset = p.offsets p.section;
        size = size;
        kind = kind;
        lineno = lineno;
      })
        ∷ [];
  offsets = advance p.offsets p.section size;
}

-- `(cursor + align - 1) & -align`
unfoldable pub align_up : ℕ → ℤ → ℤ
unfolding ◌+ℤ◌ ◌-ℤ◌ and_ℤ
align_up cursor align = and_ℤ (pos cursor +ℤ align -ℤ pos 1) (pos 0 -ℤ align)

-- `^([A-Za-z_][A-Za-z0-9_]*)\s*:\s*(.*)$`
abbrev after_colon : Option (Text × Text) → Option (Text × Text)
after_colon none = none
after_colon (some (name, [])) = none
after_colon (some (name, c ∷ rest)) = if c == b':' then some (upper name, strip rest) else none

unfoldable pub match_label : Text → Option (Text × Text)
unfolding match_ident upper strip
match_label rest = after_colon (match_ident rest)

-- `labels[name] = (section, offsets[section])`, unless the label is there.
unfoldable pub add_label : Text → Parser → Result AsmError Parser
unfolding lookup
add_label name p = elim (lookup name p.labels) [
  | some _ ↦ err duplicate_label
  | none ↦ ok (record p { labels = p.labels ++ (name, (p.section, p.offsets p.section)) ∷ [] })
]

-- The labels at the beginning of a line; each match shortens the line, so its length is fuel.
unfoldable pub label_loop : ℕ → Text → Parser → Result AsmError (Parser × Text)
unfolding match_label add_label
label_loop zero rest p = ok (p, rest)
label_loop (suc fuel) rest p = elim (match_label rest) [
  | none ↦ ok (p, rest)
  | some (name, rest') ↦ add_label name p >>= label_loop fuel rest'
]

module _ (py : Python) (lineno : ℕ) where
  unfoldable pub parse_ascii : Bool → Text → Parser → Result AsmError Parser
  parse_ascii terminated arg p = do
    value ← parse_string py (strip arg)
    ok (
        add_item lineno (pos (length value + (if terminated then 1 else 0)))
          (ascii terminated value) p)

  unfoldable pub parse_space : Text → Parser → Result AsmError Parser
  parse_space arg p = do
    size ← eval_expr py arg []
    raise_if (ltb_ℤ size (pos 0)) negative_space
    ok (add_item lineno size space p)

  unfoldable pub parse_align : Text → Parser → Result AsmError Parser
  unfolding ◌-ℤ◌
  parse_align arg p = do
    align ← if is_empty arg then ok (pos 2) else eval_expr py arg []
    let cur = p.offsets p.section
    ok (add_item lineno (align_up cur align -ℤ pos cur) space p)

  unfoldable pub parse_directive : Directive → Text → Parser → Result AsmError Parser
  unfolding split_operands parse_ascii parse_space parse_align add_item
  parse_directive (section_ s) arg p = ok (record p { section = s })
  parse_directive byte_ arg p =
      let ops = split_operands arg in ok (add_item lineno (pos (length ops)) (byte ops) p)
  parse_directive word_ arg p =
      let ops = split_operands arg in ok (add_item lineno (pos (2 * length ops)) (word ops) p)
  parse_directive ascii_ arg p = parse_ascii false arg p
  parse_directive asciz_ arg p = parse_ascii true arg p
  parse_directive space_ arg p = parse_space arg p
  parse_directive align_ arg p = parse_align arg p
  parse_directive unsupported arg p = err unsupported_directive

  -- What is left of a line after its labels.
  unfoldable pub parse_statement : Text → Parser → Result AsmError Parser
  unfolding parse_directive mnemonic insn_size lookup lower split_first
  parse_statement rest p =
      let (first, arg) = split_first rest in
      if is_empty rest
      then ok p
      else if starts_with b'.' rest
      then parse_directive (known_directive (lookup (lower first) directives)) arg p
      else let op = mnemonic first in
        ok (add_item lineno (pos (insn_size op)) (insn op (split_operands arg)) p)

  unfoldable pub parse_line : Text → Parser → Result AsmError Parser
  unfolding label_loop parse_statement strip_comment
  parse_line raw p = do
    let line = strip_comment raw
    q ← label_loop (suc (length line)) line p
    parse_statement q.1 q.0

unfoldable pub parse_lines : Python → ℕ → List Text → Parser → Result AsmError Parser
unfolding parse_line
parse_lines py lineno [] p = ok p
parse_lines py lineno (raw ∷ lines) p =
    parse_line py lineno raw p >>= parse_lines py (lineno + 1) lines

abbrev pub start : Parser
start = record { items = []; labels = []; offsets = λ _. 0; section = text_ }

unfoldable pub parse_source : Python → List Text → Result AsmError Parser
unfolding parse_lines
parse_source py lines = parse_lines py 1 lines start
