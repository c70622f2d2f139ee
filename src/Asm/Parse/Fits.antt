-- ===== src/Asm/Parse/Fits.antt =====
-- tools/riscc_asm.py: the size of every item that `parse_source` makes.
use riscc.Prelude.{
  ℕ, zero, suc, ◌+◌, ◌*◌, ◌≡◌, refl, sym, Bool, true, false, List, [], ◌∷◌, ◌++◌, none, some, arith,
  if◌then◌else◌, if_both, inl, inr, Option-cases,
}
use mathlib.Core.Path.{subst}
use riscc.Prelude.Int.{ℤ, pos, ltb_ℤ}
use riscc.Prelude.Lists.{length}
use riscc.Prelude.Result.{Result, ok, err, ◌>>=◌, ◌>>◌, raise_if, Result-cases}
use riscc.Asm.Text.{Text, strip, is_empty, starts_with}
use riscc.Asm.Source.{strip_comment}
use riscc.Asm.Expr.{AsmError, Python, eval_expr, parse_string, negative_space}
use riscc.Asm.Syntax.{Kind, insn, byte, word, ascii, space, Item}
use riscc.Asm.Encode.{insn_size}
use riscc.Asm.Parse.{
  Parser, Directive, section_, byte_, word_, ascii_, asciz_, space_, align_, unsupported, add_item,
  parse_ascii, parse_space, parse_align, parse_directive, parse_statement, label_loop, add_label,
  match_label, parse_line, parse_lines, parse_source,
}

-- The size that a kind of item takes; a gap may have any size.
abbrev pub TakesSize : Kind → ℤ → Type 0
TakesSize (insn op operands) size = size ≡ pos (insn_size op)
TakesSize (byte operands) size = size ≡ pos (length operands)
TakesSize (word operands) size = size ≡ pos (2 * length operands)
TakesSize (ascii terminated value) size = size ≡ pos (length value + (if terminated then 1 else 0))
TakesSize space size = Unit

abbrev pub AllFit : List Item → Type 0
AllFit [] = Unit
AllFit (item ∷ rest) = TakesSize item.kind item.size × AllFit rest

abbrev pub Fits : Result AsmError Parser → Type 0
Fits (ok p) = AllFit p.items
Fits (err e) = Unit

AllFit-append :
    (items : List Item) (item : Item)
    → AllFit items
    → TakesSize item.kind item.size
    → AllFit (items ++ item ∷ [])
AllFit-append [] item h f = (f, tt)
AllFit-append (i ∷ items) item h f = (h.0, AllFit-append items item h.1 f)

module _ (lineno : ℕ) (p : Parser) (h : AllFit p.items) where
  add_item-Fits :
      (size : ℤ) (kind : Kind) → TakesSize kind size → Fits (ok (add_item lineno size kind p))
  unfolding add_item
  add_item-Fits size kind f = AllFit-append p.items _ h f

  module _ (py : Python) where
    parse_ascii-Fits :
        (terminated : Bool) (arg : Text) → Fits (parse_ascii py lineno terminated arg p)
    unfolding parse_ascii
    parse_ascii-Fits terminated arg = elim (Result-cases (parse_string py (strip arg))) [
      | inl (v, e) ↦ rw e (add_item-Fits _ (ascii terminated v) refl)
      | inr (e, q) ↦ rw q tt
    ]

    parse_space-Fits : (arg : Text) → Fits (parse_space py lineno arg p)
    unfolding parse_space
    parse_space-Fits arg = elim (Result-cases (eval_expr py arg [])) [
      | inl (v, e) ↦ rw e (guarded _ (ltb_ℤ v (pos 0)) (add_item-Fits v space tt))
      | inr (e, q) ↦ rw q tt
    ]
      where
        guarded :
            (q : Parser) (b : Bool) → AllFit q.items → Fits (raise_if b negative_space >> ok q)
        guarded q true g = tt
        guarded q false g = g

    parse_align-Fits : (arg : Text) → Fits (parse_align py lineno arg p)
    unfolding parse_align
    parse_align-Fits arg =
        elim (Result-cases (if is_empty arg then ok (pos 2) else eval_expr py arg [])) [
          | inl (v, e) ↦ rw e (add_item-Fits _ space tt)
          | inr (e, q) ↦ rw q tt
        ]

    parse_directive-Fits : (d : Directive) (arg : Text) → Fits (parse_directive py lineno d arg p)
    unfolding parse_directive
    parse_directive-Fits (section_ s) arg = h
    parse_directive-Fits byte_ arg = add_item-Fits _ (byte _) refl
    parse_directive-Fits word_ arg = add_item-Fits _ (word _) refl
    parse_directive-Fits ascii_ arg = parse_ascii-Fits false arg
    parse_directive-Fits asciz_ arg = parse_ascii-Fits true arg
    parse_directive-Fits space_ arg = parse_space-Fits arg
    parse_directive-Fits align_ arg = parse_align-Fits arg
    parse_directive-Fits unsupported arg = tt

    parse_statement-Fits : (rest : Text) → Fits (parse_statement py lineno rest p)
    unfolding parse_statement
    parse_statement-Fits rest = if_both Fits (is_empty rest) h (
        if_both Fits (starts_with b'.' rest) (parse_directive-Fits _ _)
          (add_item-Fits _ (insn _ _) refl))

-- Labels add no items.
abbrev LoopFits : Result AsmError (Parser × Text) → Type 0
LoopFits (ok q) = AllFit q.0.items
LoopFits (err e) = Unit

add_label-Fits : (name : Text) (p : Parser) → AllFit p.items → Fits (add_label name p)
unfolding add_label
add_label-Fits name p h = ground arith

-- What comes after a parser that fits.
next-Fits :
    (r : Result AsmError Parser) (f : Parser → Result AsmError Parser)
    → Fits r
    → ((q : Parser) → AllFit q.items → Fits (f q))
    → Fits (r >>= f)
next-Fits (ok q) f h g = g q h
next-Fits (err e) f h g = tt

next-LoopFits :
    (r : Result AsmError Parser) (f : Parser → Result AsmError (Parser × Text))
    → Fits r
    → ((q : Parser) → AllFit q.items → LoopFits (f q))
    → LoopFits (r >>= f)
next-LoopFits (ok q) f h g = g q h
next-LoopFits (err e) f h g = tt

label_loop-done :
    (fuel : ℕ) (rest : Text) (p : Parser)
    → match_label rest ≡ none
    → label_loop (suc fuel) rest p ≡ ok (p, rest)
unfolding label_loop
label_loop-done fuel rest p e = rw (e, label_loop)

label_loop-next :
    (fuel : ℕ) (rest : Text) (p : Parser) {name rest' : Text}
    → match_label rest ≡ some (name, rest')
    → label_loop (suc fuel) rest p ≡ (add_label name p >>= label_loop fuel rest')
unfolding label_loop
label_loop-next fuel rest p e = rw (e, label_loop)

label_loop-Fits :
    (fuel : ℕ) (rest : Text) (p : Parser) → AllFit p.items → LoopFits (label_loop fuel rest p)
unfolding label_loop
label_loop-Fits zero rest p h = h
label_loop-Fits (suc fuel) rest p h = elim (Option-cases (match_label rest)) [
  | inl e ↦ subst LoopFits (sym (label_loop-done fuel rest p e)) h
  | inr ((name, rest'), e) ↦ subst LoopFits (sym (label_loop-next fuel rest p e)) (
      next-LoopFits (add_label name p) (label_loop fuel rest') (add_label-Fits name p h)
        (label_loop-Fits fuel rest'))
]

parse_line-Fits :
    (py : Python) (lineno : ℕ) (raw : Text) (p : Parser)
    → AllFit p.items
    → Fits (parse_line py lineno raw p)
unfolding parse_line
parse_line-Fits py lineno raw p h =
    let line = strip_comment raw in
    statement (label_loop (suc (length line)) line p) (label_loop-Fits (suc (length line)) line p h)
  where
    statement :
        (r : Result AsmError (Parser × Text))
        → LoopFits r
        → Fits (r >>= λ q. parse_statement py lineno q.1 q.0)
    statement (ok q) f = parse_statement-Fits lineno q.0 f py q.1
    statement (err e) f = tt

parse_lines-Fits :
    (py : Python) (lineno : ℕ) (lines : List Text) (p : Parser)
    → AllFit p.items
    → Fits (parse_lines py lineno lines p)
unfolding parse_lines
parse_lines-Fits py lineno [] p h = h
parse_lines-Fits py lineno (raw ∷ lines) p h =
    next-Fits (parse_line py lineno raw p) _ (parse_line-Fits py lineno raw p h)
      (parse_lines-Fits py (lineno + 1) lines)

-- Every item that `parse_source` makes has the size that its kind takes.
pub parse_source-Fits : (py : Python) (lines : List Text) → Fits (parse_source py lines)
unfolding parse_source
parse_source-Fits py lines = parse_lines-Fits py 1 lines _ tt
