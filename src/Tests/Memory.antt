-- ===== src/Tests/Memory.antt =====
-- The theorems on the tools that make memory contents, at concrete inputs.
use riscc.Prelude.{ℕ, zero, suc, ◌^◌, ◌≡◌, refl, List, [], ◌∷◌, ◌++◌, some, arith}
use riscc.Prelude.Lists.{length, get_or, replicate}
use riscc.Asm.Text.{Text, codes}
use riscc.Sim.State.{load_image}
use riscc.Fuzz.Random.{Distinct}
use riscc.Boot.Memh.{w32, memory_image}
use riscc.Boot.Memh.Words.{number, memory_image-number}
use riscc.Boot.Memh.Load.{memory_image-load}
use riscc.Boot.Ecp5.{Block, image, banks, bank_from, select, splice}
use riscc.Boot.Ecp5.Lanes.{low_digits, high_digits}
use riscc.Boot.Ecp5.Image.{image-banks}
use riscc.Boot.Ecp5.Selection.{Matched, select_lem}
use riscc.Boot.Ecp5.Splice.{Placed, edits_of, splice_lem}

abbrev three_bytes : List ℕ
three_bytes = 0x03 ∷ 0x88 ∷ 0x41 ∷ []

memory_image-load_example : get_or (0x8803 ∷ 0x41 ∷ 0 ∷ 0 ∷ []) 1 0 ≡ load_image three_bytes 1
unfolding memory_image
memory_image-load_example =
    memory_image-load (some 4) three_bytes (0x8803 ∷ 0x41 ∷ 0 ∷ 0 ∷ []) 1 refl (omega arith)

memory_image-number_example : number (256 ^ 4) (0x418803 ∷ 0 ∷ []) ≡ number 256 three_bytes
unfolding memory_image
memory_image-number_example =
    memory_image-number w32 (some 2) three_bytes (0x418803 ∷ 0 ∷ [])
      (omega arith, (omega arith, (omega arith, tt))) refl

-- Two blocks, the last one first.
abbrev two_blocks : List Placed
two_blocks =
    record {
      gap = codes " b ";
      old_data = codes "00";
      new_data = codes "11";
      ident = codes "b";
      values = [];
    }
    ∷ record {
      gap = codes "a ";
      old_data = codes "0";
      new_data = codes "1";
      ident = codes "a";
      values = [];
    }
    ∷ []

splice_lem_example : splice (edits_of two_blocks) (codes "a 0 b 00 c") ≡ codes "a 1 b 11 c"
splice_lem_example = splice_lem two_blocks (codes " c")

-- The first words of the eight banks differ.
abbrev one_word : List ℕ
one_word = 0x76543210 ∷ []

abbrev block : ℕ → Block
block lane = record { ident = []; start = 0; end = 0; values = bank_from one_word lane 0 2048 }

abbrev eight_blocks : List Block
eight_blocks = block 1 ∷ block 0 ∷ block 2 ∷ block 3 ∷ block 4 ∷ block 5 ∷ block 6 ∷ block 7 ∷ []

abbrev chosen : List ℕ
chosen = 1 ∷ 0 ∷ 2 ∷ 3 ∷ 4 ∷ 5 ∷ 6 ∷ 7 ∷ []

select_lem_example : Matched eight_blocks (banks one_word) chosen × Distinct chosen
unfolding select banks
select_lem_example = select_lem one_word eight_blocks chosen refl

-- As many lines.
abbrev repeated : ℕ → Text → Text
repeated zero line = []
repeated (suc n) line = line ++ repeated n line

abbrev image_text : Text
image_text = repeated 4096 (codes "89abcDEF\n")

abbrev repeated_words : List ℕ
repeated_words = replicate 4096 0x89abcdef

image-banks_example :
    (length repeated_words ≡ 4096)
    × (number 16 (low_digits (banks repeated_words) 7) ≡ get_or repeated_words 14 0)
    × (number 16 (high_digits (banks repeated_words) 7) ≡ get_or repeated_words 15 0)
unfolding image
image-banks_example = image-banks image_text repeated_words 7 refl (omega arith)
