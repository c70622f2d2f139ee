-- ===== src/Boot/Ecp5/Lanes.antt =====
-- tools/update_ecp5_bootram.py, `banks`: the words of the image in the lanes.
use riscc.Prelude.{
  ℕ, zero, suc, ◌+◌, ◌*◌, ◌/◌, ◌%◌, ◌^◌, ◌<◌, ◌≡◌, ◌∙◌, refl, sym, ap, List, [], ◌∷◌, arith,
  bit_and,
}
use native.Mathlib.Nat.{
  pow-suc, pow-zero, one-le-pow, div-div-eq-div-mul, div-add-mod, mod-lt, mod-eq_of_lt,
  add-mul-mod_self_left,
}
use riscc.Prelude.Bits.{bit_and_mask, bit_or_fields_rev}
use riscc.Prelude.Lists.{get_or}
use riscc.Boot.Memh.Words.{number}
use riscc.Boot.Ecp5.{bank_word, bank_from, banks_from, banks, bank_words, lanes}

pow_lane : (lane : ℕ) → 2 ^ (4 * lane) ≡ 16 ^ lane
pow_lane zero = refl
pow_lane (suc lane) =
    let e : 4 * suc lane ≡ suc (suc (suc (suc (4 * lane)))) = omega arith in
    rw (e, pow-suc) (rw pow-suc (omega (arith, pow_lane lane)))

-- The digit of a word in a lane.
abbrev digit : ℕ → ℕ → ℕ
digit word lane = word / 16 ^ lane % 16

nibble : (word lane : ℕ) → bit_and (word / 2 ^ (4 * lane)) 0xf ≡ digit word lane
nibble word lane = bit_and_mask 4 (word / 2 ^ (4 * lane)) ∙ ap (λ p. word / p % 16) (pow_lane lane)

-- A configuration word holds the digits of two neighbours.
bank_word-digits :
    (words : List ℕ) (lane address : ℕ)
    → bank_word words lane address
      ≡ digit (get_or words (2 * address + 1) 0) lane * 16
        + digit (get_or words (2 * address) 0) lane
bank_word-digits words lane address =
    rw (nibble (get_or words (2 * address) 0) lane, nibble (get_or words (2 * address + 1) 0) lane)
      (bit_or_fields_rev 4 (digit (get_or words (2 * address + 1) 0) lane)
        (digit (get_or words (2 * address) 0) lane) (omega arith))

bank_from-get :
    (words : List ℕ) (lane address count a : ℕ)
    → a < count
    → get_or (bank_from words lane address count) a 0 ≡ bank_word words lane (address + a)
unfolding bank_from
bank_from-get words lane address zero a h = grind arith
bank_from-get words lane address (suc count) zero h = ap (bank_word words lane) (omega arith)
bank_from-get words lane address (suc count) (suc a) h =
    bank_from-get words lane (address + 1) count a (omega (arith, h))
    ∙ ap (bank_word words lane) (omega arith)

-- The low and the high digit of each bank at an address.
abbrev pub low_digits : List (List ℕ) → ℕ → List ℕ
low_digits [] a = []
low_digits (bank ∷ rest) a = get_or bank a 0 % 16 ∷ low_digits rest a

abbrev pub high_digits : List (List ℕ) → ℕ → List ℕ
high_digits [] a = []
high_digits (bank ∷ rest) a = get_or bank a 0 / 16 ∷ high_digits rest a

mod_digits : (q place : ℕ) → 0 < place → q % 16 + 16 * (q / 16 % place) ≡ q % (place * 16)
mod_digits q place pos =
    let r = q % 16 + 16 * (q / 16 % place) in
    let k = q / 16 / place in
    let below : r < place * 16 = omega (arith, mod-lt (q / 16) pos) in
    let whole : q ≡ r + place * 16 * k =
      grind (arith, div-add-mod q 16, div-add-mod (q / 16) place) in
    sym (
      ap (λ x. x % (place * 16)) whole
      ∙ add-mul-mod_self_left r (place * 16) k
      ∙ mod-eq_of_lt below)

digit_step :
    (word lane count : ℕ)
    → digit word lane + 16 * (word / 16 ^ suc lane % 16 ^ count) ≡ word / 16 ^ lane % 16 ^ suc count
digit_step word lane count =
    rw (pow-suc 16 lane, sym (div-div-eq-div-mul word (16 ^ lane) 16), pow-suc 16 count)
      (mod_digits (word / 16 ^ lane) (16 ^ count) (one-le-pow count 16 (omega arith)))

digits_of :
    (words : List ℕ) (lane a : ℕ)
    → a < bank_words
    → (get_or (bank_from words lane 0 bank_words) a 0 % 16 ≡ digit (get_or words (2 * a) 0) lane)
      × (get_or (bank_from words lane 0 bank_words) a 0 / 16
          ≡ digit (get_or words (2 * a + 1) 0) lane)
digits_of words lane a h =
    let e =
      bank_from-get words lane 0 bank_words a h
      ∙ ap (bank_word words lane) (omega arith)
      ∙ bank_word-digits words lane a in
    omega (arith, e)

lows-number :
    (words : List ℕ) (lane count a : ℕ)
    → a < bank_words
    → number 16 (low_digits (banks_from words lane count) a)
      ≡ get_or words (2 * a) 0 / 16 ^ lane % 16 ^ count
unfolding banks_from
lows-number words lane zero a h = rw (pow-zero 16) (omega arith)
lows-number words lane (suc count) a h =
    rw ((digits_of words lane a h).0, lows-number words (lane + 1) count a h)
      (ap
          (λ l.
            digit (get_or words (2 * a) 0) lane
            + 16 * (get_or words (2 * a) 0 / 16 ^ l % 16 ^ count))
          (omega arith)
        ∙ digit_step (get_or words (2 * a) 0) lane count)

highs-number :
    (words : List ℕ) (lane count a : ℕ)
    → a < bank_words
    → number 16 (high_digits (banks_from words lane count) a)
      ≡ get_or words (2 * a + 1) 0 / 16 ^ lane % 16 ^ count
unfolding banks_from
highs-number words lane zero a h = rw (pow-zero 16) (omega arith)
highs-number words lane (suc count) a h =
    rw ((digits_of words lane a h).1, highs-number words (lane + 1) count a h)
      (ap
          (λ l.
            digit (get_or words (2 * a + 1) 0) lane
            + 16 * (get_or words (2 * a + 1) 0 / 16 ^ l % 16 ^ count))
          (omega arith)
        ∙ digit_step (get_or words (2 * a + 1) 0) lane count)

-- The 32-bit words at an even and at the next index are the base-16 numbers of the low and of the high
-- digits of the eight banks at half the index: an image can be read back from its banks.
pub banks-number :
    (words : List ℕ) (a : ℕ)
    → a < bank_words
    → get_or words (2 * a) 0 < 2 ^ 32
    → get_or words (2 * a + 1) 0 < 2 ^ 32
    → (number 16 (low_digits (banks words) a) ≡ get_or words (2 * a) 0)
      × (number 16 (high_digits (banks words) a) ≡ get_or words (2 * a + 1) 0)
unfolding banks
banks-number words a h low high = (
  lows-number words 0 lanes a h ∙ omega (arith, low),
  highs-number words 0 lanes a h ∙ omega (arith, high),
)
