-- ===== src/Asm/Preprocess.antt =====
-- tools/riscc_asm.py: `define_name` and `preprocess_source`.
pub mod Lines
pub mod Blocks
use riscc.Prelude.{Bool, true, false, not, ◌&&◌, ◌||◌, List, [], ◌∷◌, ◌==◌, if◌then◌else◌}
use riscc.Prelude.Result.{Result, ok, err, ◌>>=◌, ◌>>◌, raise_if}
use riscc.Asm.Text.{
  Text, codes, text_eq, strip, upper, lower, starts_with, split_first, is_empty, is_alpha, is_digit,
}
use riscc.Asm.Source.{strip_comment}
use riscc.Asm.Expr.{
  AsmError, invalid_define, directive_symbol, stray_else, duplicate_else, stray_endif, unterminated,
}

-- `text in defines`
unfoldable pub member : Text → List Text → Bool
unfolding text_eq
member name [] = false
member name (d ∷ rest) = text_eq d name || member name rest

-- `s.split("=", 1)[0]`
unfoldable pub before_equals : Text → Text
before_equals [] = []
before_equals (c ∷ s) = let rest = before_equals s in if c == b'=' then [] else c ∷ rest

unfoldable pub all_name_chars : Text → Bool
all_name_chars [] = true
all_name_chars (c ∷ s) = (is_alpha c || is_digit c) && all_name_chars s

-- `^[A-Z_][A-Z0-9_]*$` on a text in upper case.
abbrev pub is_define_name : Text → Bool
is_define_name [] = false
is_define_name (c ∷ s) = is_alpha c && all_name_chars s

unfoldable pub define_name : Text → Result AsmError Text
unfolding upper strip before_equals all_name_chars
define_name source =
    let name = upper (before_equals (strip source)) in
    if is_define_name name then ok name else err invalid_define

-- A stack entry: the parent was active, the condition holds, `.else` has been seen.
abbrev pub Frame : Type 0
Frame = Bool × Bool × Bool

pub data Directive : Type 0 where
  ifdef ifndef else_ endif other : Directive

-- The first word of the line, if it begins with a dot.
unfoldable pub directive_of : Text → Directive
unfolding text_eq lower
directive_of word =
    if not (starts_with b'.' word)
    then other
    else if text_eq (lower word) (codes ".ifdef")
    then ifdef
    else if text_eq (lower word) (codes ".ifndef")
    then ifndef
    else if text_eq (lower word) (codes ".else")
    then else_
    else if text_eq (lower word) (codes ".endif")
    then endif
    else other

pub record State : Type 0 where
  pub stack : List Frame
  pub active : Bool

abbrev pub newline : Text
newline = 10 ∷ []

unfoldable pub open_if : Bool → List Text → Text → State → Result AsmError State
unfolding define_name member
open_if wanted defines arg st = do
  raise_if (is_empty arg) directive_symbol
  name ← define_name arg
  let cond = (if wanted then member name defines else not (member name defines))
  ok (record { stack = (st.active, cond, false) ∷ st.stack; active = st.active && cond })

abbrev pub switch_else : List Frame → Result AsmError State
switch_else [] = err stray_else
switch_else ((parent, cond, seen_else) ∷ rest) =
    if seen_else
    then err duplicate_else
    else ok (record { stack = (parent, cond, true) ∷ rest; active = parent && not cond })

abbrev pub close_if : List Frame → Result AsmError State
close_if [] = err stray_endif
close_if ((parent, cond, seen_else) ∷ rest) = ok (record { stack = rest; active = parent })

-- What one line does to the state, and the line that replaces it.
unfoldable pub preprocess_line : List Text → Text → State → Result AsmError (State × Text)
unfolding strip_comment split_first directive_of open_if strip
preprocess_line defines raw st =
    let (word, rest) = split_first (strip_comment raw) in
    elim (directive_of word) [
      | ifdef ↦ open_if true defines (strip rest) st >>= λ st'. ok (st', newline)
      | ifndef ↦ open_if false defines (strip rest) st >>= λ st'. ok (st', newline)
      | else_ ↦ switch_else st.stack >>= λ st'. ok (st', newline)
      | endif ↦ close_if st.stack >>= λ st'. ok (st', newline)
      | other ↦ ok (st, (if st.active then raw else newline))
    ]

abbrev pub closed : List Frame → Result AsmError (List Text)
closed [] = ok []
closed (f ∷ rest) = err unterminated

-- The loop over the lines; what is left on the stack at the end is an error.
unfoldable pub preprocess_loop : List Text → List Text → State → Result AsmError (List Text)
unfolding preprocess_line
preprocess_loop defines [] st = closed st.stack
preprocess_loop defines (raw ∷ lines) st = preprocess_line defines raw st >>= λ p.
    preprocess_loop defines lines p.0 >>= λ out. ok (p.1 ∷ out)

unfoldable pub preprocess_source : List Text → List Text → Result AsmError (List Text)
unfolding preprocess_loop
preprocess_source lines defines =
    preprocess_loop defines lines (record { stack = []; active = true })
