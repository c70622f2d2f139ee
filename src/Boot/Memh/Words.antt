-- ===== src/Boot/Memh/Words.antt =====
-- tools/bin_to_memh.py: the words of the image as numbers.
use riscc.Prelude.{
  ℕ, zero, suc, ◌+◌, ◌-◌, ◌*◌, ◌^◌, ◌<◌, ◌≤◌, ◌≡◌, ◌∙◌, refl, sym, List, [], ◌∷◌, ◌++◌, Option,
  none, some, arith, bit_or,
}
use native.Mathlib.Nat.{pow-zero, pow-suc, mul-le-mul_right}
use riscc.Prelude.Bits.{bit_or_fields_rev}
use riscc.Prelude.Lists.{length, drop, take, replicate}
use riscc.Prelude.Result.{ok}
use riscc.Sim.Bounds.Values.{AreBytes}
use riscc.Boot.Memh.{
  Width, w16, w32, bytes_per_word, gather, words_from, word_count, padded, memory_image,
}

-- The number whose little-endian digits in a base are these.
abbrev pub number : ℕ → List ℕ → ℕ
number base [] = 0
number base (d ∷ ds) = d + base * number base ds

pow_byte : (byte : ℕ) → 2 ^ ((byte + 1) * 8) ≡ 2 ^ (byte * 8) * 256
pow_byte byte =
    let e : (byte + 1) * 8 ≡ suc (suc (suc (suc (suc (suc (suc (suc (byte * 8)))))))) =
      omega arith in
    rw e (rw pow-suc (omega arith))

add_byte-lt : (b word place : ℕ) → b < 256 → word < place → b * place + word < place * 256
add_byte-lt b word place hb h =
    let m : b * place ≤ 255 * place = mul-le-mul_right place (omega (arith, hb)) in
    omega (arith, m, h)

-- A word gathered so far lies below the next byte.
gather_lem :
    (count byte : ℕ) (rest : List ℕ) (word : ℕ)
    → AreBytes rest
    → word < 2 ^ (byte * 8)
    → gather count byte rest word ≡ word + 2 ^ (byte * 8) * number 256 (take count rest)
unfolding gather
gather_lem zero byte rest word bs h = omega arith
gather_lem (suc count) byte [] word bs h = omega arith
gather_lem (suc count) byte (b ∷ rest) word (hb, bs) h =
    let e = bit_or_fields_rev (byte * 8) b word h in
    let p = pow_byte byte in
    let below : bit_or word (b * 2 ^ (byte * 8)) < 2 ^ ((byte + 1) * 8) =
      rw (e, p) (add_byte-lt b word (2 ^ (byte * 8)) hb h) in
    gather_lem count (byte + 1) rest (bit_or word (b * 2 ^ (byte * 8))) bs below
    ∙ rw (e, p) (grind arith)

number-split :
    (base n : ℕ) (ds : List ℕ)
    → number base ds ≡ number base (take n ds) + base ^ n * number base (drop n ds)
number-split base zero ds = rw (pow-zero base) (omega arith)
number-split base (suc n) [] = grind arith
number-split base (suc n) (d ∷ ds) = rw (pow-suc base n, number-split base n ds) (grind arith)

AreBytes-drop : (n : ℕ) (bytes : List ℕ) → AreBytes bytes → AreBytes (drop n bytes)
AreBytes-drop zero bytes bs = bs
AreBytes-drop (suc n) [] bs = tt
AreBytes-drop (suc n) (b ∷ bytes) (hb, bs) = AreBytes-drop n bytes bs

length-drop : (n : ℕ) (bytes : List ℕ) → length (drop n bytes) ≡ length bytes - n
length-drop zero bytes = omega arith
length-drop (suc n) [] = omega arith
length-drop (suc n) (b ∷ bytes) = omega (arith, length-drop n bytes)

-- As many words as the bytes need have the bytes' value.
pub words_from-number :
    (size count : ℕ) (bytes : List ℕ)
    → AreBytes bytes
    → length bytes ≤ size * count
    → number (256 ^ size) (words_from size count bytes) ≡ number 256 bytes
unfolding words_from
words_from-number size zero [] bs h = refl
words_from-number size zero (b ∷ bytes) bs h = grind arith
words_from-number size (suc count) bytes bs h =
    let rest =
      words_from-number size count (drop size bytes) (AreBytes-drop size bytes bs)
        (omega (arith, length-drop size bytes)) in
    rw (rest, gather_lem size 0 bytes 0 bs (omega arith))
      (omega (arith, number-split 256 size bytes))

number-replicate : (base n : ℕ) → number base (replicate n 0) ≡ 0
number-replicate base zero = refl
number-replicate base (suc n) = rw (number-replicate base n) (grind arith)

number-append_zeros :
    (base n : ℕ) (ds : List ℕ) → number base (ds ++ replicate n 0) ≡ number base ds
number-append_zeros base n [] = number-replicate base n
number-append_zeros base n (d ∷ ds) = rw (number-append_zeros base n ds) refl

enough :
    (width : Width) (bytes : List ℕ) → length bytes ≤ bytes_per_word width * word_count width bytes
enough w16 bytes = omega arith
enough w32 bytes = omega arith

padded-number :
    (base : ℕ) (depth : Option ℕ) (image : List ℕ)
    → number base (padded depth image) ≡ number base image
padded-number base none image = refl
padded-number base (some depth) image = number-append_zeros base (depth - length image) image

pub accepted :
    (width : Width) (depth : Option ℕ) (bytes image : List ℕ)
    → memory_image width depth bytes ≡ ok image
    → padded depth (words_from (bytes_per_word width) (word_count width bytes) bytes) ≡ image
unfolding memory_image
accepted width none bytes image h = cc
accepted width (some depth) bytes image h = ground arith

-- The words of an accepted image of bytes, padding included, are the digits of the number whose
-- little-endian bytes the image has.
pub memory_image-number :
    (width : Width) (depth : Option ℕ) (bytes image : List ℕ)
    → AreBytes bytes
    → memory_image width depth bytes ≡ ok image
    → number (256 ^ bytes_per_word width) image ≡ number 256 bytes
memory_image-number width depth bytes image bs h = rw (sym (accepted width depth bytes image h)) (
    padded-number _ depth _
    ∙ words_from-number (bytes_per_word width) (word_count width bytes) bytes bs
        (enough width bytes))
