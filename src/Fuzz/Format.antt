-- ===== src/Fuzz/Format.antt =====
-- tools/riscc_fuzz.py: Python's text formatting as the program generators use it.
use riscc.Prelude.{
  ℕ, zero, suc, ◌+◌, ◌-◌, ◌/◌, ◌%◌, Bool, true, false, ◌||◌, List, [], ◌∷◌, ◌++◌, ltb, ◌==◌,
  if◌then◌else◌, ◌&&◌,
}
use mathlib.Core.List.{reverse}
use riscc.Prelude.Int.{ℤ, pos, negsuc}
use riscc.Prelude.Lists.{length, replicate}
use riscc.Asm.Text.{Text, lstrip}

-- The pieces of a formatted text, one after the other.
abbrev pub cat : List Text → Text
cat [] = []
cat (t ∷ rest) = t ++ cat rest

-- A digit in base 16, in capitals from the code of `A` or small from that of `a`.
abbrev pub digit_char : ℕ → ℕ → ℕ
digit_char letter d = if ltb d 10 then 48 + d else letter + (d - 10)

-- The digits of a number; each round divides it, so the number is fuel.
unfoldable pub digits_from : ℕ → ℕ → ℕ → ℕ → Text
digits_from base letter zero n = digit_char letter n ∷ []
digits_from base letter (suc fuel) n = elim (ltb n base) [
  | true ↦ digit_char letter n ∷ []
  | false ↦ digits_from base letter fuel (n / base) ++ digit_char letter (n % base) ∷ []
]

-- `"%d"`, of a number that is not negative and of any number.
unfoldable pub decimal : ℕ → Text
unfolding digits_from
decimal n = digits_from 10 b'a' n n

unfoldable pub signed : ℤ → Text
unfolding decimal
signed (pos n) = decimal n
signed (negsuc n) = b'-' ∷ decimal (suc n)

-- `"%x"`, `"%04X"` and `"%08X"`
unfoldable pub hex_small : ℕ → Text
unfolding digits_from
hex_small n = digits_from 16 b'a' n n

unfoldable pub hex_padded : ℕ → ℕ → Text
unfolding digits_from
hex_padded width n = let ds = digits_from 16 b'A' n n in replicate (width - length ds) b'0' ++ ds

abbrev pub hex4 : ℕ → Text
hex4 n = hex_padded 4 n

-- `"%-5s"`
unfoldable pub pad5 : Text → Text
pad5 t = t ++ replicate (5 - length t) 32

-- `part in t`
abbrev pub is_prefix : Text → Text → Bool
is_prefix [] t = true
is_prefix (c ∷ part) [] = false
is_prefix (c ∷ part) (d ∷ t) = c == d && is_prefix part t

unfoldable pub contains : Text → Text → Bool
contains part [] = is_prefix part []
contains part (c ∷ t) = is_prefix part (c ∷ t) || contains part t

-- `t.rstrip()` and `t.endswith(last)`
unfoldable pub rstrip : Text → Text
unfolding lstrip
rstrip t = reverse (lstrip (reverse t))

unfoldable pub ends_with_text : Text → Text → Bool
ends_with_text last t = is_prefix (reverse last) (reverse t)

-- `"\n".join(lines) + "\n"`
abbrev ended_lines : List Text → Text
ended_lines [] = []
ended_lines (l ∷ rest) = l ++ 10 ∷ ended_lines rest

unfoldable pub join_lines : List Text → Text
join_lines [] = 10 ∷ []
join_lines (l ∷ rest) = ended_lines (l ∷ rest)
