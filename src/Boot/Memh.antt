-- ===== src/Boot/Memh.antt =====
-- tools/bin_to_memh.py: the words of a little-endian image, and the file of them.
pub mod Words
pub mod Load
use riscc.Prelude.{
  ℕ, zero, suc, ◌+◌, ◌-◌, ◌*◌, ◌/◌, ◌^◌, List, [], ◌∷◌, ◌++◌, Option, none, some, ltb, bit_or,
  if◌then◌else◌,
}
use riscc.Prelude.Lists.{length, drop, replicate}
use riscc.Prelude.Result.{Result, ok, err, raise_if, ◌>>◌}
use riscc.Asm.Text.{Text, codes}
use riscc.Fuzz.Format.{cat, decimal, digits_from}

pub data Width : Type 0 where
  w16 w32 : Width

pub data Format : Type 0 where
  memh mif : Format

-- `ap.error`: the depth is smaller than the image.
pub data MemhError : Type 0 where
  depth_error : ℕ → ℕ → MemhError

abbrev pub bits : Width → ℕ
bits w16 = 16
bits w32 = 32

abbrev pub bytes_per_word : Width → ℕ
bytes_per_word w16 = 2
bytes_per_word w32 = 4

-- `word |= data[i + byte] << (byte * 8)` for each byte of a word that the image has.
unfoldable pub gather : ℕ → ℕ → List ℕ → ℕ → ℕ
gather zero byte rest word = word
gather (suc count) byte [] word = word
gather (suc count) byte (b ∷ rest) word =
    gather count (byte + 1) rest (bit_or word (b * 2 ^ (byte * 8)))

-- A number of words, from the bytes that are left.
unfoldable pub words_from : ℕ → ℕ → List ℕ → List ℕ
unfolding gather
words_from size zero bytes = []
words_from size (suc count) bytes = gather size 0 bytes 0 ∷ words_from size count (drop size bytes)

abbrev pub word_count : Width → List ℕ → ℕ
word_count width bytes = (length bytes + bytes_per_word width - 1) / bytes_per_word width

abbrev pub padded : Option ℕ → List ℕ → List ℕ
padded none image = image
padded (some depth) image = image ++ replicate (depth - length image) 0

abbrev too_small : Option ℕ → ℕ → Result MemhError (Unit {0})
too_small none words = ok tt
too_small (some depth) words = raise_if (ltb depth words) (depth_error depth words)

unfoldable pub memory_image : Width → Option ℕ → List ℕ → Result MemhError (List ℕ)
unfolding words_from
memory_image width depth bytes =
    too_small depth (word_count width bytes)
    >> ok (padded depth (words_from (bytes_per_word width) (word_count width bytes) bytes))

-- `"%0*x"` of the width in digits.
unfoldable pub hex_word : Width → ℕ → Text
unfolding digits_from
hex_word width word =
    let ds = digits_from 16 b'a' word word in replicate (bits width / 4 - length ds) b'0' ++ ds

unfoldable pub memh_lines : Width → List ℕ → Text
unfolding hex_word
memh_lines width [] = []
memh_lines width (word ∷ image) = hex_word width word ++ 10 ∷ memh_lines width image

unfoldable pub mif_lines : Width → ℕ → List ℕ → Text
unfolding hex_word decimal
mif_lines width address [] = []
mif_lines width address (word ∷ image) =
    cat (codes "    " ∷ decimal address ∷ codes " : " ∷ hex_word width word ∷ codes ";\n" ∷ [])
    ++ mif_lines width (address + 1) image

-- The text of the output file.
unfoldable pub file_text : Format → Width → List ℕ → Text
unfolding memh_lines mif_lines decimal
file_text memh width image = memh_lines width image
file_text mif width image = cat (
    codes "WIDTH="
    ∷ decimal (bits width)
    ∷ codes ";\nDEPTH="
    ∷ decimal (length image)
    ∷ codes ";\n\nADDRESS_RADIX=UNS;\nDATA_RADIX=HEX;\n\nCONTENT BEGIN\n"
    ∷ mif_lines width 0 image
    ∷ codes "END;\n"
    ∷ [])
