-- ===== src/Asm/Layout/Sizes.antt =====
-- tools/riscc_asm.py: the sizes that `parse_source` lays out are the sizes that `emit_item` emits.
use riscc.Prelude.{
  ℕ, ◌+◌, ◌*◌, ◌≡◌, refl, ap, ◌∙◌, sym, Bool, true, false, List, [], ◌∷◌, ◌++◌, arith,
  if◌then◌else◌,
}
use riscc.Prelude.Int.{ℤ, pos, negsuc}
use riscc.Prelude.Lists.{length, length-append, length-replicate}
use riscc.Prelude.Result.{Result, ok, err, ◌>>=◌, ◌>>◌, raise_if}
use riscc.Asm.Text.{Text}
use riscc.Asm.Expr.{AsmError, Python, Labels}
use riscc.Asm.Syntax.{Kind, insn, byte, word, ascii, space, Item, Section}
use riscc.Asm.Encode.{encode_word}
use riscc.Asm.Insn.{encode_insn}
use riscc.Asm.Insn.Size.{HasLength, encode_insn-HasLength}
use riscc.Asm.Layout.{emit_bytes, emit_words, latin1, zero_bytes, emit_item}
use mathlib.Core.Path.{subst}
use mathlib.Core.List.{Memᴰ}
use riscc.Asm.Parse.{Parser, parse_source}
use riscc.Asm.Parse.Fits.{TakesSize, AllFit, Fits, parse_source-Fits}

-- The bytes of each kind.
module _ (py : Python) (labels : Labels) where
  emit_bytes-HasLength : (ops : List Text) → HasLength (length ops) (emit_bytes py labels ops)
  unfolding emit_bytes
  emit_bytes-HasLength [] = refl
  emit_bytes-HasLength (t ∷ rest) = ground (arith, emit_bytes-HasLength rest)

  emit_words-HasLength : (ops : List Text) → HasLength (2 * length ops) (emit_words py labels ops)
  unfolding emit_words encode_word
  emit_words-HasLength [] = refl
  emit_words-HasLength (t ∷ rest) = ground (arith, emit_words-HasLength rest)

latin1-HasLength : (s : Text) → HasLength (length s) (latin1 s)
unfolding latin1
latin1-HasLength [] = refl
latin1-HasLength (c ∷ s) = ground (arith, latin1-HasLength s)

-- The bytes that a kind of item takes its size of.
abbrev pub EmitsSize : ℤ → Result AsmError (List ℕ) → Type 0
EmitsSize size (ok bs) = pos (length bs) ≡ size
EmitsSize size (err e) = Unit

of_length :
    {n : ℕ} {size : ℤ} (r : Result AsmError (List ℕ))
    → size ≡ pos n
    → HasLength n r
    → EmitsSize size r
of_length (ok bs) e h = ap pos h ∙ sym e
of_length (err e') e h = tt

terminated_length :
    (r : Result AsmError (List ℕ)) (n : ℕ) (terminated : Bool)
    → HasLength n r
    → HasLength
        (n + (if terminated then 1 else 0))
        (r >>= λ bs. ok (bs ++ (if terminated then 0 ∷ [] else [])))
terminated_length (ok bs) n terminated h =
    ground (arith, length-append bs (if terminated then 0 ∷ [] else []))
terminated_length (err e) n terminated h = tt

guarded :
    (size : ℤ) (b : Bool) (e : AsmError) (r : Result AsmError (List ℕ))
    → EmitsSize size r
    → EmitsSize size (raise_if b e >> r)
guarded size true e r h = tt
guarded size false e r h = h

zero_bytes-EmitsSize : (size : ℤ) → EmitsSize size (zero_bytes size)
zero_bytes-EmitsSize (pos n) = ap pos (length-replicate n 0)
zero_bytes-EmitsSize (negsuc n) = tt

kind-EmitsSize :
    (py : Python) (labels : Labels) (bases : Section → ℕ) (iflush : Bool) (item : Item)
    (kind : Kind)
    → item.kind ≡ kind
    → TakesSize kind item.size
    → EmitsSize item.size (emit_item py labels bases iflush item)
unfolding emit_item
kind-EmitsSize py labels bases iflush item (insn op operands) e h =
    rw (e, EmitsSize)
      (guarded _ _ _ _ (
        of_length (encode_insn py operands labels op _ iflush) h
          (encode_insn-HasLength py operands labels op _ iflush)))
kind-EmitsSize py labels bases iflush item (byte operands) e h =
    rw (e, EmitsSize) (of_length _ h (emit_bytes-HasLength py labels operands))
kind-EmitsSize py labels bases iflush item (word operands) e h =
    rw (e, EmitsSize) (of_length _ h (emit_words-HasLength py labels operands))
kind-EmitsSize py labels bases iflush item (ascii terminated value) e h =
    rw (e, EmitsSize)
      (of_length _ h
        (terminated_length (latin1 value) (length value) terminated (latin1-HasLength value)))
kind-EmitsSize py labels bases iflush item space e h =
    rw (e, EmitsSize) (zero_bytes-EmitsSize item.size)

AllFit-TakesSize :
    (items : List Item) {item : Item}
    → Memᴰ item items
    → AllFit items
    → TakesSize item.kind item.size
AllFit-TakesSize [] k h = elim k [ ]
AllFit-TakesSize (i ∷ items) (Memᴰ.head e) h =
    subst (λ (x : Item). TakesSize x.kind x.size) (sym e) h.0
AllFit-TakesSize (i ∷ items) (Memᴰ.tail k) h = AllFit-TakesSize items k h.1

-- If `parse_source` accepts the lines, each of its items is emitted, whatever the labels and the
-- bases, as exactly as many bytes as were laid out for it, unless an error is raised: the internal
-- size check never fails.
pub emit_item-EmitsSize :
    (py : Python) (lines : List Text) {p : Parser} {item : Item}
    → parse_source py lines ≡ ok p
    → Memᴰ item p.items
    → (labels : Labels) (bases : Section → ℕ) (iflush : Bool)
    → EmitsSize item.size (emit_item py labels bases iflush item)
emit_item-EmitsSize py lines {p} {item} parsed k labels bases iflush =
    kind-EmitsSize py labels bases iflush item item.kind refl
      (AllFit-TakesSize p.items k (subst Fits parsed (parse_source-Fits py lines)))
