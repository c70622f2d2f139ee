-- ===== src/Asm/Expr.antt =====
-- tools/riscc_asm.py: the errors, `parse_string` and `eval_expr`. Python's own parser, `ast.parse`
-- and `ast.literal_eval`, is not part of the program: it is the parameter `Python`.
use riscc.Prelude.{ℕ, Bool, ◌&&◌, ◌||◌, List, [], ◌∷◌, Option, none, some, if◌then◌else◌}
use riscc.Prelude.Int.{ℤ, pos, negsuc, ◌+ℤ◌, ◌-ℤ◌, and_ℤ, or_ℤ, shl_ℤ, shr_ℤ}
use riscc.Prelude.Result.{Result, ok, err, ◌>>=◌}
use riscc.Asm.Text.{Text, text_eq, strip, upper, starts_with, ends_with}

-- The reasons of `AsmError`; the last two are Python's ValueError (a negative shift count, a
-- negative size of `bytes`) and UnicodeEncodeError, which the program does not catch.
pub data AsmError : Type 0 where
  invalid_string expected_string char_length invalid_expr unsupported_expr : AsmError
  unknown_symbol expected_reg expected_sreg out_of_u8 out_of_i8 invalid_mem : AsmError
  unknown_section misaligned address_range invalid_define directive_symbol stray_else : AsmError
  duplicate_else stray_endif unterminated duplicate_label negative_space : AsmError
  unsupported_directive operand_count odd_displacement shift_amount iflush_missing : AsmError
  unknown_instruction instruction_address size_mismatch profile_missing : AsmError
  mdu_profile iflush_profile : AsmError
  value_error encode_error : AsmError

pub data BinOp : Type 0 where
  add sub lshift rshift bit_or bit_and : BinOp

-- The syntax tree that `ast.parse` makes, as far as `visit` looks at it; `other` is any node that
-- it does not support.
pub data Expr : Type 0 where
  constant : ℕ → Expr
  minus plus : Expr → Expr
  binary : BinOp → Expr → Expr → Expr
  name : Text → Expr
  other : Expr

-- What `ast.literal_eval` returns: a text, another value, or an exception.
pub data Literal : Type 0 where
  text : Text → Literal
  not_text malformed : Literal

pub record Python : Type 0 where
  pub parse_eval : Text → Option Expr
  pub literal_eval : Text → Literal

abbrev pub Labels : Type 0
Labels = List (Text × ℕ)

unfoldable pub lookup {ℓ} : {A : Type ℓ} → Text → List (Text × A) → Option A
unfolding text_eq
lookup key [] = none
lookup key ((k, v) ∷ rest) = if text_eq k key then some v else lookup key rest

-- The shifts raise on a negative count.
abbrev pub shift_by : (ℤ → ℕ → ℤ) → ℤ → ℤ → Result AsmError ℤ
shift_by f a (pos k) = ok (f a k)
shift_by f a (negsuc k) = err value_error

unfoldable pub apply_bin : BinOp → ℤ → ℤ → Result AsmError ℤ
unfolding ◌+ℤ◌ ◌-ℤ◌ and_ℤ or_ℤ shl_ℤ shr_ℤ
apply_bin add a b = ok (a +ℤ b)
apply_bin sub a b = ok (a -ℤ b)
apply_bin lshift a b = shift_by shl_ℤ a b
apply_bin rshift a b = shift_by shr_ℤ a b
apply_bin bit_or a b = ok (or_ℤ a b)
apply_bin bit_and a b = ok (and_ℤ a b)

abbrev pub symbol_value : Option ℕ → Result AsmError ℤ
symbol_value none = err unknown_symbol
symbol_value (some v) = ok (pos v)

unfoldable pub visit : Labels → Expr → Result AsmError ℤ
unfolding apply_bin lookup upper
visit labels (constant n) = ok (pos n)
visit labels (minus e) = do v ← visit labels e; ok (pos 0 -ℤ v)
visit labels (plus e) = visit labels e
visit labels (binary op l r) =
    let right = visit labels r in do a ← visit labels l; b ← right; apply_bin op a b
visit labels (name id) = symbol_value (lookup (upper id) labels)
visit labels other = err unsupported_expr

abbrev pub string_value : Literal → Result AsmError Text
string_value (text s) = ok s
string_value not_text = err expected_string
string_value malformed = err invalid_string

unfoldable pub parse_string : Python → Text → Result AsmError Text
parse_string py token = string_value (py.literal_eval token)

-- A character literal's code.
abbrev pub char_value : Text → Result AsmError ℤ
char_value (c ∷ []) = ok (pos c)
char_value _ = err char_length

abbrev pub visit_parsed : Labels → Option Expr → Result AsmError ℤ
visit_parsed labels none = err invalid_expr
visit_parsed labels (some e) = visit labels e

abbrev pub is_quoted : Text → Bool
is_quoted token =
    starts_with 39 token && ends_with 39 token || starts_with b'"' token && ends_with b'"' token

unfoldable pub eval_expr : Python → Text → Labels → Result AsmError ℤ
unfolding visit parse_string strip ends_with
eval_expr py source labels =
    let token = strip source in
    if is_quoted token
    then (parse_string py token >>= char_value)
    else visit_parsed labels (py.parse_eval token)
