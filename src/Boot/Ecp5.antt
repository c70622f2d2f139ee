-- ===== src/Boot/Ecp5.antt =====
-- tools/update_ecp5_bootram.py: the words and the banks of an image, and the choice and the text of the
-- blocks that are replaced. The image is given as the text of its file, over ASCII code points, the
-- blocks as the regular expressions find them; the paths in the errors are left out.
pub mod Lanes
pub mod Image
pub mod Splice
pub mod Selection
use riscc.Prelude.{
  ℕ, zero, suc, ltb, ◌+◌, ◌-◌, ◌*◌, ◌/◌, ◌^◌, Bool, true, false, not, List, [], ◌∷◌, ◌++◌, Option,
  none, some, bit_and, bit_or, leb, ◌&&◌, ◌||◌, ◌==◌, if◌then◌else◌,
}
use riscc.Prelude.Lists.{length, get_or, take, drop, replicate}
use riscc.Prelude.Result.{Result, ok, err, raise_if, ◌>>◌, ◌>>=◌}
use riscc.Asm.Text.{Text, is_digit}
use riscc.Fuzz.Compare.Output.{splitlines}
use riscc.Fuzz.Format.{digits_from}

abbrev pub lanes : ℕ
lanes = 8

abbrev pub bank_words : ℕ
bank_words = 2048

abbrev pub image_words : ℕ
image_words = 4096

pub data ImageError : Type 0 where
  line_count : ℕ → ImageError
  bad_line : ℕ → ImageError

abbrev pub is_hex : ℕ → Bool
is_hex c = is_digit c || leb b'a' c && leb c b'f' || leb b'A' c && leb c b'F'

abbrev pub hex_value : ℕ → ℕ
hex_value c = if is_digit c then c - b'0' else if leb b'a' c then c - b'a' + 10 else c - b'A' + 10

abbrev pub all_hex : Text → Bool
all_hex [] = true
all_hex (c ∷ t) = is_hex c && all_hex t

-- `IMAGE_WORD.fullmatch(line)`
abbrev pub is_image_word : Text → Bool
is_image_word line = length line == 8 && all_hex line

-- `int(line, 16)`, after the digits of a number.
abbrev pub hex_number : ℕ → Text → ℕ
hex_number n [] = n
hex_number n (c ∷ t) = hex_number (n * 16 + hex_value c) t

-- The words of the lines; the first bad line, counted from 1, is an error.
unfoldable pub words_of : ℕ → List Text → Result ImageError (List ℕ)
words_of n [] = ok []
words_of n (line ∷ lines) =
    raise_if (not (is_image_word line)) (bad_line n)
    >> (words_of (n + 1) lines >>= λ words. ok (hex_number 0 line ∷ words))

unfoldable pub image : Text → Result ImageError (List ℕ)
unfolding splitlines words_of
image text =
    let lines = splitlines text in
    raise_if (not (length lines == image_words)) (line_count (length lines)) >> words_of 1 lines

-- `(words[2 * address] >> (4 * lane)) & 0xF`, and the next word's above it.
abbrev pub bank_word : List ℕ → ℕ → ℕ → ℕ
bank_word words lane address =
    bit_or (bit_and (get_or words (2 * address) 0 / 2 ^ (4 * lane)) 0xf)
      (bit_and (get_or words (2 * address + 1) 0 / 2 ^ (4 * lane)) 0xf * 2 ^ 4)

-- A lane's words from an address on.
unfoldable pub bank_from : List ℕ → ℕ → ℕ → ℕ → List ℕ
bank_from words lane address zero = []
bank_from words lane address (suc count) =
    bank_word words lane address ∷ bank_from words lane (address + 1) count

unfoldable pub banks_from : List ℕ → ℕ → ℕ → List (List ℕ)
unfolding bank_from
banks_from words lane zero = []
banks_from words lane (suc count) =
    bank_from words lane 0 bank_words ∷ banks_from words (lane + 1) count

unfoldable pub banks : List ℕ → List (List ℕ)
unfolding banks_from
banks words = banks_from words 0 lanes

-- A `.bram_init` block: its name, where its data begins and ends in the text, and its values.
pub record Block : Type 0 where
  pub ident : Text
  pub start : ℕ
  pub end : ℕ
  pub values : List ℕ

pub data UpdateError : Type 0 where
  bank_matches : ℕ → ℕ → UpdateError
  lanes_not_distinct : UpdateError

unfoldable pub values_eq : List ℕ → List ℕ → Bool
values_eq [] [] = true
values_eq [] (b ∷ bank) = false
values_eq (a ∷ values) [] = false
values_eq (a ∷ values) (b ∷ bank) =
    let rest = values_eq values bank in if a == b then rest else false

-- `[index for index, block in enumerate(blocks) if block[3] == bank]`
unfoldable pub matches_from : ℕ → List Block → List ℕ → List ℕ
unfolding values_eq
matches_from index [] bank = []
matches_from index (block ∷ blocks) bank =
    let rest = matches_from (index + 1) blocks bank in
    if values_eq block.values bank then index ∷ rest else rest

-- The only match of a lane's bank.
abbrev pub only : ℕ → List ℕ → Result UpdateError ℕ
only lane [] = err (bank_matches lane 0)
only lane (index ∷ []) = ok index
only lane (index ∷ next ∷ found) = err (bank_matches lane (length found + 2))

unfoldable pub select_from : ℕ → List (List ℕ) → List Block → Result UpdateError (List ℕ)
unfolding matches_from
select_from lane [] blocks = ok []
select_from lane (bank ∷ old) blocks = only lane (matches_from 0 blocks bank) >>= λ index.
    select_from (lane + 1) old blocks >>= λ selected. ok (index ∷ selected)

abbrev pub occurs : ℕ → List ℕ → Bool
occurs n [] = false
occurs n (m ∷ ns) = let rest = occurs n ns in if n == m then true else rest

-- `len(set(selected))`
unfoldable pub distinct_count : List ℕ → ℕ
distinct_count [] = 0
distinct_count (n ∷ ns) = let rest = distinct_count ns in if occurs n ns then rest else rest + 1

unfoldable pub select : List (List ℕ) → List Block → Result UpdateError (List ℕ)
unfolding select_from distinct_count
select old blocks = select_from 0 old blocks >>= λ selected.
    raise_if (not (distinct_count selected == lanes)) lanes_not_distinct >> ok selected

-- `f"{value:03x}"`
unfoldable pub hex3 : ℕ → Text
unfolding digits_from
hex3 value = let ds = digits_from 16 b'a' value value in replicate (3 - length ds) b'0' ++ ds

-- `" ".join(...)`
abbrev spaced : List ℕ → Text
spaced [] = []
spaced (value ∷ []) = hex3 value
spaced (value ∷ next ∷ values) = hex3 value ++ 32 ∷ spaced (next ∷ values)

unfoldable pub rows_from : ℕ → List ℕ → Text
unfolding hex3
rows_from zero values = []
rows_from (suc rows) values = spaced (take 8 values) ++ 10 ∷ rows_from rows (drop 8 values)

unfoldable pub replacement : List ℕ → Text
unfolding rows_from
replacement values = rows_from (bank_words / 8) values

abbrev pub no_block : Block
no_block = record { ident = []; start = 0; end = 0; values = [] }

-- The block and the new data of each lane.
abbrev pub Edit : Type 0
Edit = Block × Text

unfoldable pub edits : List Block → List ℕ → List (List ℕ) → List Edit
unfolding replacement
edits blocks [] new = []
edits blocks (index ∷ selected) [] = []
edits blocks (index ∷ selected) (bank ∷ new) =
    (get_or blocks index no_block, replacement bank) ∷ edits blocks selected new

-- `sorted(..., key=start, reverse=True)`
abbrev insert : Edit → List Edit → List Edit
insert e [] = e ∷ []
insert e (f ∷ rest) =
    let later = insert e rest in if ltb e.0.start f.0.start then f ∷ later else e ∷ f ∷ rest

unfoldable pub last_first : List Edit → List Edit
last_first [] = []
last_first (e ∷ rest) = insert e (last_first rest)

-- `config[:start] + replacement(...) + config[end:]`
unfoldable pub splice : List Edit → Text → Text
splice [] config = config
splice ((block, new_data) ∷ rest) config =
    splice rest (take block.start config ++ (new_data ++ drop block.end config))

abbrev idents : List Block → List ℕ → List Text
idents blocks [] = []
idents blocks (index ∷ selected) = (get_or blocks index no_block).ident ∷ idents blocks selected

-- The new text, and the names of the blocks.
unfoldable pub update : List Block → Text → List ℕ → List ℕ → Result UpdateError (Text × List Text)
unfolding banks select edits last_first splice
update blocks config from_words to_words = select (banks from_words) blocks >>= λ selected.
    ok (splice (last_first (edits blocks selected (banks to_words))) config, idents blocks selected)
