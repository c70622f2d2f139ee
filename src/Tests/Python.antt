-- ===== src/Tests/Python.antt =====
-- A small stand-in for Python's parser, enough for the programs below: decimal numbers, names,
-- a sign, and quoted texts.
use riscc.Prelude.{
  ℕ, ◌+◌, ◌-◌, ◌*◌, Bool, true, ◌&&◌, [], ◌∷◌, Option, none, some, ◌==◌, if◌then◌else◌,
}
use mathlib.Core.List.{foldl}
use riscc.Asm.Text.{Text, is_digit, is_alpha}
use riscc.Asm.Expr.{Expr, constant, minus, name, Python, Literal, text, malformed}
use riscc.Asm.Encode.{inside}

abbrev all_digits : Text → Bool
all_digits [] = true
all_digits (c ∷ s) = is_digit c && all_digits s

abbrev decimal : Text → ℕ
decimal = foldl (λ n c. n * 10 + (c - b'0')) 0

abbrev parse_atom : Text → Option Expr
parse_atom [] = none
parse_atom (c ∷ s) =
    if all_digits (c ∷ s)
    then some (constant (decimal (c ∷ s)))
    else if is_alpha c
    then some (name (c ∷ s))
    else none

abbrev negated : Option Expr → Option Expr
negated none = none
negated (some e) = some (minus e)

abbrev parse_small : Text → Option Expr
parse_small [] = none
parse_small (c ∷ s) = if c == b'-' then negated (parse_atom s) else parse_atom (c ∷ s)

abbrev read_quoted : Text → Literal
read_quoted [] = malformed
read_quoted (c ∷ s) = text (inside (c ∷ s))

abbrev pub small_python : Python
small_python = record { parse_eval = parse_small; literal_eval = read_quoted }
