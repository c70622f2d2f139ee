-- ===== src/Asm/Source.antt =====
-- tools/riscc_asm.py: `strip_comment` and `split_operands`.
use riscc.Prelude.{
  ℕ, Bool, false, not, ◌&&◌, ◌||◌, List, [], ◌∷◌, ◌++◌, Option, none, some, ◌==◌, if◌then◌else◌,
}
use riscc.Prelude.Int.{ℤ, pos, ◌+ℤ◌, ◌-ℤ◌, eqb_ℤ}
use riscc.Asm.Text.{Text, is_empty, strip}

abbrev pub is_comment_char : ℕ → Bool
is_comment_char c = c == b';' || c == b'#'

-- The open quote after a character, and whether the next one is escaped.
abbrev pub next_quote : Option ℕ → Bool → ℕ → Option ℕ
next_quote none escape c = if c == b'"' || c == 39 then some c else none
next_quote (some q) escape c = if not escape && not (c == b'\\') && c == q then none else some q

abbrev pub next_escape : Option ℕ → Bool → ℕ → Bool
next_escape none escape c = false
next_escape (some q) escape c = not escape && c == b'\\'

abbrev pub ends_here : Option ℕ → ℕ → Bool
ends_here none c = is_comment_char c
ends_here (some q) c = false

-- The characters up to a comment that is outside quotes.
unfoldable pub uncommented : Option ℕ → Bool → Text → Text
uncommented quote escape [] = []
uncommented quote escape (c ∷ s) =
    let rest = uncommented (next_quote quote escape c) (next_escape quote escape c) s in
    if ends_here quote c then [] else c ∷ rest

unfoldable pub strip_comment : Text → Text
unfolding uncommented strip
strip_comment line = strip (uncommented none false line)

-- `part = "".join(cur).strip(); if part: parts.append(part)`
abbrev pub add_part : Text → List Text → List Text
add_part cur parts = let part = strip cur in if is_empty part then parts else part ∷ parts

abbrev pub next_depth : ℤ → ℕ → ℤ
next_depth depth c =
    if c == b'[' then depth +ℤ pos 1 else if c == b']' then depth -ℤ pos 1 else depth

unfoldable pub split_loop : Text → Text → ℤ → List Text
split_loop [] cur depth = add_part cur []
split_loop (c ∷ s) cur depth =
    let separates = c == b',' && eqb_ℤ depth (pos 0) in
    let rest = split_loop s (if separates then [] else cur ++ c ∷ []) (next_depth depth c) in
    if separates then add_part cur rest else rest

unfoldable pub split_operands : Text → List Text
unfolding split_loop strip ◌+ℤ◌ ◌-ℤ◌
split_operands text = split_loop text [] (pos 0)
