-- ===== src/Fuzz/Compare/Output.antt =====
-- tools/riscc_fuzz.py: the lines of a run's output, over ASCII code points.
use riscc.Prelude.{
  ℕ, ◌+◌, ◌-◌, ◌*◌, Bool, false, ◌&&◌, ◌||◌, List, [], ◌∷◌, Option, none, some, leb, ◌==◌,
  if◌then◌else◌,
}
use riscc.Asm.Text.{Text, codes, strip, is_digit, starts_with, is_empty}
use riscc.Prelude.Result.{Result, ok, err}
use riscc.Fuzz.Format.{is_prefix}
use riscc.Fuzz.Compare.{CompareError, no_last_line}

-- The ends of lines of `str.splitlines`.
abbrev is_break : ℕ → Bool
is_break c = leb 10 c && leb c 13 || leb 28 c && leb c 30

-- A character before the first of the lines.
abbrev extend : ℕ → List Text → List Text
extend c [] = (c ∷ []) ∷ []
extend c (line ∷ lines) = (c ∷ line) ∷ lines

-- `t.splitlines()`; a carriage return before a line feed ends no line of its own.
unfoldable pub splitlines : Text → List Text
splitlines [] = []
splitlines (c ∷ t) =
    let rest = splitlines t in
    if c == 13 && starts_with 10 t then rest else if is_break c then [] ∷ rest else extend c rest

-- The lines with a prefix.
unfoldable pub lines_with : Text → List Text → List Text
lines_with start [] = []
lines_with start (line ∷ lines) =
    let rest = lines_with start lines in if is_prefix start line then line ∷ rest else rest

unfoldable pub trace_lines : Text → List Text
unfolding splitlines lines_with
trace_lines output = lines_with (codes "TRACE ") (splitlines output)

unfoldable pub memory_lines : Text → List Text
unfolding splitlines lines_with
memory_lines output = lines_with (codes "MEM ") (splitlines output)

-- `int(...)` of the digits that the text begins with, after those of `n`.
unfoldable pub leading_number : ℕ → Text → ℕ
leading_number n [] = n
leading_number n (c ∷ t) =
    let number = leading_number (n * 10 + (c - b'0')) t in if is_digit c then number else n

abbrev begins_with_digit : Text → Bool
begins_with_digit [] = false
begins_with_digit (c ∷ t) = is_digit c

-- The text after a prefix of it.
abbrev after : Text → Text → Text
after [] t = t
after (p ∷ part) [] = []
after (p ∷ part) (c ∷ t) = after part t

abbrev marker_start : Text
marker_start = codes "MARKER cycle="

-- `MARKER_RE.search(output)`, with the number of its group.
unfoldable pub marker_cycle : Text → Option ℕ
unfolding leading_number
marker_cycle [] = none
marker_cycle (c ∷ t) =
    let later = marker_cycle t in
    if is_prefix marker_start (c ∷ t) && begins_with_digit (after marker_start (c ∷ t))
    then some (leading_number 0 (after marker_start (c ∷ t)))
    else later

abbrev last_of : List Text → Result CompareError Text
last_of [] = err no_last_line
last_of (line ∷ []) = ok line
last_of (line ∷ next ∷ lines) = last_of (next ∷ lines)

-- `stdout.strip().splitlines()[-1] if stdout else "?"`
unfoldable pub last_line : Text → Result CompareError Text
unfolding splitlines strip
last_line stdout = if is_empty stdout then ok (codes "?") else last_of (splitlines (strip stdout))
