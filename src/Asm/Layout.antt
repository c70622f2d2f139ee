-- ===== src/Asm/Layout.antt =====
-- tools/riscc_asm.py: `layout_sections`, `final_label_map`, `emit_item` and `assemble`.
pub mod Sizes
pub mod Places
pub mod Image
use riscc.Prelude.{
  ℕ, ◌+◌, ◌-◌, ◌%◌, Bool, not, ◌&&◌, ◌||◌, List, [], ◌∷◌, ◌++◌, map, ltb, ◌==◌, if◌then◌else◌,
}
use Prim.Native.Nat.{max}
use riscc.Prelude.Int.{ℤ, pos, negsuc, ◌+ℤ◌, low_bits, pos_part, eqb_ℤ}
use riscc.Prelude.Lists.{length, take, drop, replicate}
use riscc.Prelude.Result.{Result, ok, err, ◌>>=◌, ◌>>◌, raise_if}
use riscc.Asm.Text.{Text, codes}
use riscc.Asm.Expr.{
  AsmError, instruction_address, size_mismatch, profile_missing, value_error, encode_error, Python,
  Labels, eval_expr,
}
use riscc.Asm.Syntax.{Section, section_order, insn, byte, word, ascii, space, Item}
use riscc.Asm.Encode.{encode_word}
use riscc.Asm.Insn.{encode_insn}
use riscc.Asm.Preprocess.{member, preprocess_source}
use riscc.Asm.Parse.{section_beq, Definitions, align_up, parse_source}

-- `item.offset + item.size`, which is never negative.
unfoldable pub item_end : Item → ℕ
unfolding ◌+ℤ◌
item_end item = pos_part (pos item.offset +ℤ item.size)

-- The size of a section: the largest end of its items.
unfoldable pub section_size : List Item → Section → ℕ
unfolding item_end
section_size [] s = 0
section_size (item ∷ rest) s =
    let others = section_size rest s in
    if section_beq item.section s then max (item_end item) others else others

-- `(cursor + align - 1) & -align` with the alignment of every section, 2.
unfoldable pub align_section : ℕ → ℕ
unfolding align_up
align_section cursor = pos_part (align_up cursor (pos 2))

-- The base of a section: the cursor that the sections before it leave, aligned.
unfoldable pub base_from : (Section → ℕ) → ℕ → List Section → Section → ℕ
unfolding align_section
base_from sizes cursor [] s = 0
base_from sizes cursor (t ∷ rest) s =
    let later = base_from sizes (align_section cursor + sizes t) rest s in
    if section_beq t s then align_section cursor else later

unfoldable pub layout_sections : List Item → Section → ℕ
unfolding base_from section_size
layout_sections items = base_from (section_size items) 0 section_order

unfoldable pub final_label_map : Definitions → (Section → ℕ) → Labels
final_label_map labels bases = map (λ d. (d.0, bases d.1.0 + d.1.1)) labels

-- `.byte` and `.word`: each operand's low byte, or low halfword.
unfoldable pub emit_bytes : Python → Labels → List Text → Result AsmError (List ℕ)
emit_bytes py labels [] = ok []
emit_bytes py labels (t ∷ rest) =
    let others = emit_bytes py labels rest in
    do v ← eval_expr py t labels; bs ← others; ok (low_bits 8 v ∷ bs)

unfoldable pub emit_words : Python → Labels → List Text → Result AsmError (List ℕ)
emit_words py labels [] = ok []
emit_words py labels (t ∷ rest) =
    let others = emit_words py labels rest in
    do v ← eval_expr py t labels; bs ← others; ok (encode_word (low_bits 16 v) ++ bs)

-- `value.encode("latin1")`
unfoldable pub latin1 : Text → Result AsmError (List ℕ)
latin1 [] = ok []
latin1 (c ∷ s) =
    let rest = latin1 s in if ltb c 256 then (rest >>= λ bs. ok (c ∷ bs)) else err encode_error

-- `bytes(n)`
abbrev pub zero_bytes : ℤ → Result AsmError (List ℕ)
zero_bytes (pos n) = ok (replicate n 0)
zero_bytes (negsuc n) = err value_error

unfoldable pub emit_item : Python → Labels → (Section → ℕ) → Bool → Item → Result AsmError (List ℕ)
unfolding emit_bytes emit_words latin1 encode_insn
emit_item py labels bases iflush item =
    let pc = bases item.section + item.offset in
    elim (item.kind) [
      | insn op operands ↦
          raise_if (pc % 2 == 1) instruction_address >> encode_insn py operands labels op pc iflush
      | byte operands ↦ emit_bytes py labels operands
      | word operands ↦ emit_words py labels operands
      | ascii terminated value ↦
          latin1 value >>= λ bs. ok (bs ++ (if terminated then 0 ∷ [] else []))
      | space ↦ zero_bytes item.size
    ]

-- `blob[offset:offset + len(bytes)] = bytes`, inside the blob.
unfoldable pub write_at : ℕ → List ℕ → List ℕ → List ℕ
write_at offset bs blob = take offset blob ++ (bs ++ drop (offset + length bs) blob)

abbrev pub Blobs : Type 0
Blobs = Section → List ℕ

abbrev pub write_item : Item → List ℕ → Blobs → Blobs
write_item item bs blobs s =
    if section_beq s item.section then write_at item.offset bs (blobs s) else blobs s

module _ (py : Python) (labels : Labels) (bases : Section → ℕ) (iflush : Bool) where
  unfoldable pub emit_all : List Item → Blobs → Result AsmError Blobs
  unfolding emit_item write_at
  emit_all [] blobs = ok blobs
  emit_all (item ∷ rest) blobs = do
    bs ← emit_item py labels bases iflush item
    raise_if (not (eqb_ℤ (pos (length bs)) item.size)) size_mismatch
    emit_all rest (write_item item bs blobs)

-- The image: every section at its aligned base, the gaps filled with zeros.
unfoldable pub link : Blobs → List Section → List ℕ → List ℕ
unfolding align_section
link blobs [] image = image
link blobs (s ∷ rest) image =
    let base = align_section (length image) in
    link blobs rest ((image ++ replicate (base - length image) 0) ++ blobs s)

unfoldable pub assemble : Python → List Text → List Text → Bool → Result AsmError (List ℕ)
unfolding preprocess_source parse_source layout_sections final_label_map emit_all link member
assemble py lines defines iflush = do
  raise_if
      (iflush && not (member (codes "RISCC_SYS") defines || member (codes "RISCC_FULL") defines))
      profile_missing
  filtered ← preprocess_source lines defines
  parsed ← parse_source py filtered
  let bases = layout_sections parsed.items
  let labels = final_label_map parsed.labels bases
  blobs ←
      emit_all py labels bases iflush parsed.items (λ s. replicate (section_size parsed.items s) 0)
  ok (link blobs section_order [])
