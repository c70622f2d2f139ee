-- ===== src/Asm/Text.antt =====
-- Python's text operations as tools/riscc_asm.py uses them, over ASCII code points. A source line
-- has no line break inside.
use Prim.Native.Char.{code}
use Prim.Native.String.{String}
use riscc.Prelude.{
  ℕ, ◌+◌, ◌-◌, Bool, true, false, ◌&&◌, ◌||◌, List, [], ◌∷◌, Option, none, some, leb, ◌==◌,
  if◌then◌else◌,
}
use mathlib.Core.List.{reverse}

abbrev pub Text : Type 0
Text = List ℕ

abbrev pub codes : String → Text
codes String.[] = []
codes (String.◌∷◌ c s) = code c ∷ codes s

-- `s == t`
unfoldable pub text_eq : Text → Text → Bool
text_eq [] [] = true
text_eq [] (d ∷ t) = false
text_eq (c ∷ s) [] = false
text_eq (c ∷ s) (d ∷ t) = c == d && text_eq s t

abbrev pub is_empty : Text → Bool
is_empty [] = true
is_empty (c ∷ s) = false

abbrev pub is_space : ℕ → Bool
is_space c = c == 32 || leb 9 c && leb c 13 || leb 28 c && leb c 31

-- `s.lstrip()` and `s.strip()`
unfoldable pub lstrip : Text → Text
lstrip [] = []
lstrip (c ∷ s) = let rest = lstrip s in if is_space c then rest else c ∷ s

unfoldable pub strip : Text → Text
unfolding lstrip
strip s = reverse (lstrip (reverse (lstrip s)))

abbrev pub upper_char : ℕ → ℕ
upper_char c = if leb b'a' c && leb c b'z' then c - 32 else c

abbrev pub lower_char : ℕ → ℕ
lower_char c = if leb b'A' c && leb c b'Z' then c + 32 else c

unfoldable pub upper : Text → Text
upper [] = []
upper (c ∷ s) = upper_char c ∷ upper s

unfoldable pub lower : Text → Text
lower [] = []
lower (c ∷ s) = lower_char c ∷ lower s

abbrev pub starts_with : ℕ → Text → Bool
starts_with c [] = false
starts_with c (d ∷ s) = d == c

unfoldable pub ends_with : ℕ → Text → Bool
ends_with c s = starts_with c (reverse s)

-- The longest prefix without white space, and what follows it.
unfoldable pub first_word : Text → Text × Text
first_word [] = ([], [])
first_word (c ∷ s) =
    let (w, rest) = first_word s in if is_space c then ([], c ∷ s) else (c ∷ w, rest)

-- `s.split(None, 1)`: the first word and the rest with its leading white space off; the rest is
-- empty where the list has one part, and both are where it has none.
unfoldable pub split_first : Text → Text × Text
unfolding first_word lstrip
split_first s = let (w, rest) = first_word (lstrip s) in (w, lstrip rest)

abbrev pub is_alpha : ℕ → Bool
is_alpha c = leb b'A' c && leb c b'Z' || leb b'a' c && leb c b'z' || c == b'_'

abbrev pub is_digit : ℕ → Bool
is_digit c = leb b'0' c && leb c b'9'

-- `[A-Za-z0-9_]*`
unfoldable pub ident_rest : Text → Text × Text
ident_rest [] = ([], [])
ident_rest (c ∷ s) =
    let (w, rest) = ident_rest s in if is_alpha c || is_digit c then (c ∷ w, rest) else ([], c ∷ s)

-- `^([A-Za-z_][A-Za-z0-9_]*)\s*(.*)$`: the identifier and what follows the white space.
unfoldable pub match_ident : Text → Option (Text × Text)
unfolding ident_rest lstrip
match_ident [] = none
match_ident (c ∷ s) =
    if is_alpha c then (let (w, rest) = ident_rest s in some (c ∷ w, lstrip rest)) else none
