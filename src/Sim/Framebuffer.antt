-- ===== src/Sim/Framebuffer.antt =====
-- tools/riscc_sim.py: `framebuffer_pixels`, the picture in the upper half of the memory.
use riscc.Prelude.{
  ℕ, zero, suc, ◌+◌, ◌*◌, ◌/◌, ◌%◌, ◌^◌, ◌<◌, ◌≡◌, ◌∙◌, ap, refl, List, [], ◌∷◌, map, arith,
}
use riscc.Prelude.Lists.{length, get_or}

abbrev pub fb_base_w : ℕ
fb_base_w = 0x4000

abbrev pub fb_width : ℕ
fb_width = 160

abbrev pub fb_height : ℕ
fb_height = 120

abbrev pub Rgb : Type 0
Rgb = ℕ × ℕ × ℕ

abbrev pub fb_palette : List Rgb
fb_palette =
    (0x02, 0x04, 0x0a)
    ∷ (0x06, 0x11, 0x2b)
    ∷ (0x0a, 0x1f, 0x4d)
    ∷ (0x0d, 0x32, 0x74)
    ∷ (0x10, 0x49, 0x9c)
    ∷ (0x14, 0x64, 0xc4)
    ∷ (0x1a, 0x82, 0xe6)
    ∷ (0x25, 0xa4, 0xff)
    ∷ (0x45, 0xbd, 0xff)
    ∷ (0x6d, 0xd3, 0xff)
    ∷ (0x98, 0xe5, 0xff)
    ∷ (0xbd, 0xf1, 0xff)
    ∷ (0xd8, 0xf8, 0xff)
    ∷ (0xea, 0xfc, 0xff)
    ∷ (0xf6, 0xfe, 0xff)
    ∷ (0xff, 0xff, 0xff)
    ∷ []

-- `range(start, start + count)`
abbrev count_up : ℕ → ℕ → List ℕ
count_up start zero = []
count_up start (suc count) = start ∷ count_up (start + 1) count

-- The word of a pixel, and its colour: four bits, the lowest for the first of four pixels. A colour
-- number is below 16, so the default is never taken.
abbrev pub pixel_word : ℕ → ℕ
pixel_word pix = fb_base_w + pix / 2 ^ 2

abbrev pub pixel_colour : (ℕ → ℕ) → ℕ → ℕ
pixel_colour mem pix = mem (pixel_word pix) / 2 ^ (pix % 2 ^ 2 * 4) % 2 ^ 4

unfoldable pub fb_row : (ℕ → ℕ) → ℕ → List Rgb
fb_row mem y =
    map (λ x. get_or fb_palette (pixel_colour mem (y * fb_width + x)) (0, 0, 0))
      (count_up 0 fb_width)

unfoldable pub framebuffer_pixels : (ℕ → ℕ) → List (List Rgb)
unfolding fb_row
framebuffer_pixels mem = map (fb_row mem) (count_up 0 fb_height)

module _ {ℓ} {A : Type ℓ} (f : ℕ → A) where
  length-count : (start count : ℕ) → length (map f (count_up start count)) ≡ count
  length-count start zero = refl
  length-count start (suc count) = ap suc (length-count (start + 1) count)

  get_or-count :
      (start count i : ℕ) (d : A)
      → i < count
      → get_or (map f (count_up start count)) i d ≡ f (start + i)
  get_or-count start zero i d h = absurd (omega arith)
  get_or-count start (suc count) zero d h = ap f (omega arith)
  get_or-count start (suc count) (suc i) d h =
      get_or-count (start + 1) count i d (omega arith) ∙ ap f (omega arith)

  get_or-range : (count i : ℕ) (d : A) → i < count → get_or (map f (count_up 0 count)) i d ≡ f i
  get_or-range count i d h =
      let same : 0 + i ≡ i = omega arith in get_or-count 0 count i d h ∙ ap f same

-- The sixteen shades, as numbers 0xRRGGBB.
abbrev shades : List ℕ
shades =
    0x02040a ∷ 0x06112b ∷ 0x0a1f4d ∷ 0x0d3274 ∷ 0x10499c ∷ 0x1464c4 ∷ 0x1a82e6 ∷ 0x25a4ff ∷ 0x45bdff
    ∷ 0x6dd3ff ∷ 0x98e5ff ∷ 0xbdf1ff ∷ 0xd8f8ff ∷ 0xeafcff ∷ 0xf6feff ∷ 0xffffff ∷ []

abbrev unpack : ℕ → Rgb
unpack n = (n / 2 ^ 16, n / 2 ^ 8 % 2 ^ 8, n % 2 ^ 8)

-- The shade of a number below 16.
abbrev pub shade : ℕ → Rgb
shade d = unpack (get_or shades d 0)

get_or-map :
    {A : Type 0} (f : ℕ → A) (list : List ℕ) (i d : ℕ)
    → get_or (map f list) i (f d) ≡ f (get_or list i d)
get_or-map f [] i d = refl
get_or-map f (n ∷ list) zero d = refl
get_or-map f (n ∷ list) (suc i) d = get_or-map f list i d

palette-shade : (d : ℕ) → get_or fb_palette d (0, 0, 0) ≡ shade d
palette-shade d = get_or-map unpack shades d 0

-- The pixel in column `x` of row `y`.
abbrev pub pixel : List (List Rgb) → ℕ → ℕ → Rgb
pixel picture x y = get_or (get_or picture y []) x (0, 0, 0)

fb_row-get_or :
    (mem : ℕ → ℕ) (x y : ℕ)
    → x < 160
    → y < 120
    → pixel (framebuffer_pixels mem) x y
      ≡ get_or fb_palette (pixel_colour mem (y * 160 + x)) (0, 0, 0)
unfolding framebuffer_pixels fb_row
fb_row-get_or mem x y hx hy =
    ap (λ r. get_or r x (0, 0, 0)) (get_or-range (fb_row mem) 120 y [] hy)
    ∙ get_or-range (λ x'. get_or fb_palette (pixel_colour mem (y * fb_width + x')) (0, 0, 0)) 160 x
        (0, 0, 0) hx

-- The colour number of the pixel `i` of the word `q`.
pixel_colour-digit :
    (mem : ℕ → ℕ) (q i w : ℕ)
    → i < 4
    → mem (0x4000 + q) ≡ w
    → pixel_colour mem (4 * q + i) ≡ w / 2 ^ (4 * i) % 2 ^ 4
pixel_colour-digit mem q i w hi e =
    let address : pixel_word (4 * q + i) ≡ 0x4000 + q = omega arith in
    let place : (4 * q + i) % 2 ^ 2 * 4 ≡ 4 * i = omega arith in
    let value : mem (pixel_word (4 * q + i)) ≡ w = ap mem address ∙ e in
    ap (λ v. v / 2 ^ ((4 * q + i) % 2 ^ 2 * 4) % 2 ^ 4) value ∙ ap (λ k. w / 2 ^ k % 2 ^ 4) place

pixel-shade :
    (mem : ℕ → ℕ) (q i w d : ℕ)
    → q < 4800
    → i < 4
    → mem (0x4000 + q) ≡ w
    → w / 2 ^ (4 * i) % 2 ^ 4 ≡ d
    → pixel (framebuffer_pixels mem) (q % 40 * 4 + i) (q / 40) ≡ shade d
pixel-shade mem q i w d hq hi e digit =
    let number : q / 40 * 160 + (q % 40 * 4 + i) ≡ 4 * q + i = omega arith in
    fb_row-get_or mem (q % 40 * 4 + i) (q / 40) (omega arith) (omega arith)
    ∙ ap (λ n. get_or fb_palette n (0, 0, 0))
        (ap (pixel_colour mem) number ∙ pixel_colour-digit mem q i w hi e ∙ digit)
    ∙ palette-shade d

-- The picture has 120 rows of 160 pixels. Each of its 4800 words, from word 0x4000 on, has four
-- pixels side by side, forty words to a row: if the base-16 digits of the word are `d₀` to `d₃`, the
-- lowest first, the pixels have from left to right the shades of these digits.
pub framebuffer_pixels_lem :
    (mem : ℕ → ℕ) (q d₀ d₁ d₂ d₃ : ℕ)
    → q < 4800
    → (d₀ < 16) × (d₁ < 16) × (d₂ < 16) × (d₃ < 16)
    → mem (0x4000 + q) ≡ d₀ + 16 * d₁ + 256 * d₂ + 4096 * d₃
    → (length (framebuffer_pixels mem) ≡ 120)
      × (length (get_or (framebuffer_pixels mem) (q / 40) []) ≡ 160)
      × (pixel (framebuffer_pixels mem) (q % 40 * 4) (q / 40) ≡ shade d₀)
      × (pixel (framebuffer_pixels mem) (q % 40 * 4 + 1) (q / 40) ≡ shade d₁)
      × (pixel (framebuffer_pixels mem) (q % 40 * 4 + 2) (q / 40) ≡ shade d₂)
      × (pixel (framebuffer_pixels mem) (q % 40 * 4 + 3) (q / 40) ≡ shade d₃)
unfolding framebuffer_pixels fb_row
framebuffer_pixels_lem mem q d₀ d₁ d₂ d₃ hq (h0, h1, h2, h3) e =
    let first : q % 40 * 4 ≡ q % 40 * 4 + 0 = omega arith in
    (
      length-count (fb_row mem) 0 120,
      ap length (get_or-range (fb_row mem) 120 (q / 40) [] (omega arith))
          ∙ length-count
              (λ x'. get_or fb_palette (pixel_colour mem (q / 40 * fb_width + x')) (0, 0, 0)) 0 160,
      ap (λ x. pixel (framebuffer_pixels mem) x (q / 40)) first
          ∙ pixel-shade mem q 0 _ d₀ hq (omega arith) e (omega arith),
      pixel-shade mem q 1 _ d₁ hq (omega arith) e (omega arith),
      pixel-shade mem q 2 _ d₂ hq (omega arith) e (omega arith),
      pixel-shade mem q 3 _ d₃ hq (omega arith) e (omega arith),
    )
