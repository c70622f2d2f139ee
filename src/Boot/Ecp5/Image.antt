-- ===== src/Boot/Ecp5/Image.antt =====
-- tools/update_ecp5_bootram.py, `image`: the words of an accepted image.
use riscc.Prelude.{
  ℕ, zero, suc, ◌+◌, ◌*◌, ◌^◌, ◌<◌, ◌≡◌, refl, ap, true, not, List, [], ◌∷◌, arith, ◌==◌,
}
use mathlib.Core.Path.{subst}
use native.Mathlib.Nat.{pow-suc}
use riscc.Prelude.Lists.{length, get_or}
use riscc.Prelude.Result.{Result, ok, bind-ok, raise_if-ok}
use riscc.Asm.Text.{Text}
use riscc.Fuzz.Compare.Output.{splitlines}
use riscc.Fuzz.Random.{AllBelow}
use riscc.Boot.Memh.Words.{number}
use riscc.Boot.Ecp5.Lanes.{low_digits, high_digits, banks-number}
use riscc.Boot.Ecp5.{banks, bank_words}
use riscc.Boot.Ecp5.{
  image, words_of, hex_number, hex_value, is_hex, all_hex, is_image_word, image_words, ImageError,
  bad_line, line_count,
}

hex_value-lt : (c : ℕ) → is_hex c ≡ true → hex_value c < 16
hex_value-lt c h = ground arith

hex_head : (c : ℕ) (t : Text) → all_hex (c ∷ t) ≡ true → (is_hex c ≡ true) × (all_hex t ≡ true)
hex_head c t h = ground arith

next_place : (bound k : ℕ) → bound * 16 * 16 ^ k ≡ bound * 16 ^ suc k
next_place bound k = rw (pow-suc 16 k) (grind arith)

-- Hexadecimal digits after a number.
hex_number-lt :
    (n bound : ℕ) (t : Text) → n < bound → all_hex t ≡ true → hex_number n t < bound * 16 ^ length t
hex_number-lt n bound [] low h = omega (arith, low)
hex_number-lt n bound (c ∷ t) low h =
    let (head, rest) = hex_head c t h in
    let digit = hex_value-lt c head in
    let later =
      hex_number-lt (n * 16 + hex_value c) (bound * 16) t (omega (arith, low, digit)) rest in
    subst (λ b. hex_number (n * 16 + hex_value c) t < b) (next_place bound (length t)) later

ok_value : (x y : List ℕ) → ◌≡◌ {A = Result ImageError (List ℕ)} (ok x) (ok y) → x ≡ y
ok_value x y h = cc

word-lt : (line : Text) → is_image_word line ≡ true → hex_number 0 line < 2 ^ 32
word-lt line h =
    let both : (length line ≡ 8) × (all_hex line ≡ true) = ground arith in
    let low = hex_number-lt 0 1 line (omega arith) (both.1) in
    subst (λ k. hex_number 0 line < 1 * 16 ^ k) both.0 low

words_of-lt :
    (n : ℕ) (lines : List Text) (words : List ℕ)
    → words_of n lines ≡ ok words
    → (length words ≡ length lines) × AllBelow (2 ^ 32) words
unfolding words_of
words_of-lt n [] [] h = (refl, tt)
words_of-lt n [] (w ∷ words) h = cc
words_of-lt n (line ∷ lines) words h =
    let (good, rest) = raise_if-ok (not (is_image_word line)) (bad_line n) _ h in
    let (later, accepted, same) = bind-ok (words_of (n + 1) lines) _ rest in
    let (long, low) = words_of-lt (n + 1) lines later accepted in
    subst (λ ws. (length ws ≡ suc (length lines)) × AllBelow (2 ^ 32) ws)
      (ok_value (hex_number 0 line ∷ later) words same)
      (ap suc long, (word-lt line (ground (arith, good)), low))

get_or-lt :
    (bound : ℕ) (words : List ℕ) (i : ℕ)
    → 0 < bound
    → AllBelow bound words
    → get_or words i 0 < bound
get_or-lt bound [] i pos low = pos
get_or-lt bound (w ∷ words) zero pos (first, rest) = first
get_or-lt bound (w ∷ words) (suc i) pos (first, rest) = get_or-lt bound words i pos rest

-- Of an accepted image, the words at an even and at the next index are the base-16 numbers of the low
-- and of the high digits of the eight banks at half the index: the image can be read back from its
-- banks.
pub image-banks :
    (text : Text) (words : List ℕ) (a : ℕ)
    → image text ≡ ok words
    → a < bank_words
    → (length words ≡ image_words)
      × (number 16 (low_digits (banks words) a) ≡ get_or words (2 * a) 0)
      × (number 16 (high_digits (banks words) a) ≡ get_or words (2 * a + 1) 0)
unfolding image
image-banks text words a h inside =
    let lines = splitlines text in
    let (count, rest) =
      raise_if-ok (not (length lines == image_words)) (line_count (length lines)) _ h in
    let (long, low) = words_of-lt 1 lines words rest in
    let e =
      banks-number words a inside (get_or-lt _ words (2 * a) (omega arith) low)
        (get_or-lt _ words (2 * a + 1) (omega arith) low) in
    (ground (arith, long, count), e.0, e.1)
