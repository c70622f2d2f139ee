-- ===== src/Boot/Memh/Load.antt =====
-- tools/bin_to_memh.py and `Sim.__init__` of tools/riscc_sim.py: the same words of the same bytes.
use riscc.Prelude.{
  ℕ, zero, suc, ◌+◌, ◌-◌, ◌*◌, ◌^◌, ◌<◌, ◌≤◌, ◌≡◌, ◌∙◌, refl, sym, ap, List, [], ◌∷◌, ◌++◌, Option,
  none, some, arith, bit_or,
}
use native.Mathlib.Decide.{dec_lt}
use riscc.Prelude.Bits.{bit_or-zero, zero-bit_or}
use riscc.Prelude.Lists.{length, get_or, drop, replicate}
use riscc.Prelude.Result.{ok}
use riscc.Sim.State.{load_image}
use riscc.Boot.Memh.{w16, gather, words_from, word_count, padded, memory_image}
use riscc.Boot.Memh.Words.{accepted}

drop_none : (n : ℕ) → drop {A = ℕ} n [] ≡ []
drop_none zero = refl
drop_none (suc n) = refl

later_sum : (n m : ℕ) → suc (n + m) ≡ suc n + m
later_sum n m = omega arith

drop-drop : (m n : ℕ) (bytes : List ℕ) → drop m (drop n bytes) ≡ drop (n + m) bytes
drop-drop m zero bytes = ap (λ k. drop k bytes) (omega arith)
drop-drop m (suc n) [] = drop_none m ∙ sym (drop_none (suc n + m))
drop-drop m (suc n) (b ∷ bytes) = drop-drop m n bytes ∙ ap (λ k. drop k (b ∷ bytes)) (later_sum n m)

-- The word at an index, or nothing beyond the words.
words_from-get :
    (size count : ℕ) (bytes : List ℕ) (i : ℕ)
    → i < count
    → get_or (words_from size count bytes) i 0 ≡ gather size 0 (drop (size * i) bytes) 0
unfolding words_from
words_from-get size zero bytes i h = grind arith
words_from-get size (suc count) bytes zero h = let e : size * 0 ≡ 0 = omega arith in rw e refl
words_from-get size (suc count) bytes (suc i) h =
    words_from-get size count (drop size bytes) i (omega (arith, h))
    ∙ ap (λ n. gather size 0 n 0)
        (drop-drop (size * i) size bytes ∙ ap (λ n. drop n bytes) (grind arith))

get_or-beyond : (ds : List ℕ) (i : ℕ) → length ds ≤ i → get_or ds i 0 ≡ 0
get_or-beyond [] i h = refl
get_or-beyond (d ∷ ds) zero h = grind arith
get_or-beyond (d ∷ ds) (suc i) h = get_or-beyond ds i (omega (arith, h))

length-words_from : (size count : ℕ) (bytes : List ℕ) → length (words_from size count bytes) ≡ count
unfolding words_from
length-words_from size zero bytes = refl
length-words_from size (suc count) bytes = ap suc (length-words_from size count (drop size bytes))

get_or-append_zeros :
    (n : ℕ) (ds : List ℕ) (i : ℕ) → get_or (ds ++ replicate n 0) i 0 ≡ get_or ds i 0
get_or-append_zeros zero [] i = refl
get_or-append_zeros (suc n) [] zero = refl
get_or-append_zeros (suc n) [] (suc i) = get_or-append_zeros n [] i
get_or-append_zeros n (d ∷ ds) zero = refl
get_or-append_zeros n (d ∷ ds) (suc i) = get_or-append_zeros n ds i

padded-get : (depth : Option ℕ) (ds : List ℕ) (i : ℕ) → get_or (padded depth ds) i 0 ≡ get_or ds i 0
padded-get none ds i = refl
padded-get (some depth) ds i = get_or-append_zeros (depth - length ds) ds i

get_or-drop : (n i : ℕ) (bytes : List ℕ) → get_or (drop n bytes) i 0 ≡ get_or bytes (n + i) 0
get_or-drop zero i bytes = ap (λ k. get_or bytes k 0) (omega arith)
get_or-drop (suc n) i [] = refl
get_or-drop (suc n) i (b ∷ bytes) =
    get_or-drop n i bytes ∙ ap (λ k. get_or (b ∷ bytes) k 0) (later_sum n i)

gather_two :
    (bytes : List ℕ) → gather 2 0 bytes 0 ≡ bit_or (get_or bytes 0 0) (get_or bytes 1 0 * 2 ^ 8)
unfolding gather
gather_two [] = refl
gather_two (a ∷ []) = zero-bit_or (a * 1) ∙ omega (arith, bit_or-zero a)
gather_two (a ∷ b ∷ bytes) = ap (λ v. bit_or v (b * 256)) (zero-bit_or (a * 1) ∙ omega arith)

inside :
    (bytes : List ℕ) (i : ℕ)
    → i < word_count w16 bytes
    → get_or (words_from 2 (word_count w16 bytes) bytes) i 0
      ≡ bit_or (get_or bytes (2 * i) 0) (get_or bytes (2 * i + 1) 0 * 2 ^ 8)
inside bytes i h =
    words_from-get 2 (word_count w16 bytes) bytes i h
    ∙ gather_two (drop (2 * i) bytes)
    ∙ rw (get_or-drop (2 * i) 0 bytes, get_or-drop (2 * i) 1 bytes)
        (ap (λ k. bit_or (get_or bytes k 0) (get_or bytes (2 * i + 1) 0 * 2 ^ 8)) (omega arith))

loaded :
    (bytes : List ℕ) (i : ℕ)
    → i < 2 ^ 15
    → get_or (words_from 2 (word_count w16 bytes) bytes) i 0 ≡ load_image bytes i
unfolding load_image
loaded bytes i low = elim (dec_lt i (word_count w16 bytes)) [
  | yes p ↦ ground (arith, inside bytes i p)
  | no p ↦ ground (
    arith,
    get_or-beyond (words_from 2 (word_count w16 bytes) bytes) i
        (omega (arith, length-words_from 2 (word_count w16 bytes) bytes, p)),
  )
]

-- A 16-bit image is what the simulator loads: the word at each address below 2 ^ 15 is the one in the
-- memory that its constructor makes of the same bytes.
pub memory_image-load :
    (depth : Option ℕ) (bytes image : List ℕ) (i : ℕ)
    → memory_image w16 depth bytes ≡ ok image
    → i < 2 ^ 15
    → get_or image i 0 ≡ load_image bytes i
memory_image-load depth bytes image i h low =
    rw (sym (accepted w16 depth bytes image h)) (padded-get depth _ i ∙ loaded bytes i low)
