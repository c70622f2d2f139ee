-- ===== src/Asm/Layout/Places.antt =====
-- tools/riscc_asm.py: where `layout_sections` places the sections, and where `assemble` puts them.
use riscc.Prelude.{
  ℕ, ◌+◌, ◌-◌, ◌*◌, ◌/◌, ◌%◌, ◌≡◌, ◌≤◌, ◌∙◌, ap, refl, sym, Bool, true, false, ◌||◌, List, [], ◌∷◌,
  ◌++◌, arith, inl, inr, Bool-cases,
}
use mathlib.Core.Path.{subst, fun_ext}
use mathlib.Core.List.{append_assoc, append-nil}
use riscc.Prelude.Bits.{bit_and_mask, bit_xor_low}
use riscc.Prelude.Int.{and_ℤ, ◌+ℤ◌, ◌-ℤ◌}
use riscc.Prelude.Lists.{length, length-append, length-replicate, replicate}
use riscc.Asm.Syntax.{Section, section_order, vectors, text_, rodata, data_, bss, Item}
use riscc.Asm.Parse.{section_beq, align_up}
use riscc.Asm.Layout.{align_section, base_from, layout_sections, section_size, Blobs, link}

-- `(cursor + 1) & -2` is the next even number.
align_section_lem : (cursor : ℕ) → align_section cursor ≡ (cursor + 1) / 2 * 2
unfolding align_section align_up and_ℤ ◌+ℤ◌ ◌-ℤ◌
align_section_lem cursor = ground (arith, bit_and_mask 1 (cursor + 1), bit_xor_low (cursor + 1))

abbrev occurs : Section → List Section → Bool
occurs s [] = false
occurs s (t ∷ order) = section_beq t s || occurs s order

pub beq-eq : (s t : Section) → section_beq s t ≡ true → s ≡ t
beq-eq vectors vectors h = refl
beq-eq text_ text_ h = refl
beq-eq rodata rodata h = refl
beq-eq data_ data_ h = refl
beq-eq bss bss h = refl
beq-eq s t h = cc

-- The image up to the aligned end.
abbrev padded : List ℕ → List ℕ
padded image = image ++ replicate (align_section (length image) - length image) 0

length-padded : (image : List ℕ) → length (padded image) ≡ align_section (length image)
length-padded image = omega (
  arith,
  length-append image (replicate (align_section (length image) - length image) 0),
  length-replicate {A = ℕ} (align_section (length image) - length image) 0,
  align_section_lem (length image),
)

-- Linking only appends.
link-extends :
    (blobs : Blobs) (order : List Section) (image : List ℕ)
    → (more : List ℕ) × (link blobs order image ≡ image ++ more)
unfolding link
link-extends blobs [] image = ([], sym (append-nil image))
link-extends blobs (s ∷ order) image =
    let (more, e) = link-extends blobs order (padded image ++ blobs s) in
    let pad = replicate (align_section (length image) - length image) 0 in
    (
      pad ++ (blobs s ++ more),
      e ∙ append_assoc (padded image) (blobs s) more ∙ append_assoc image pad (blobs s ++ more),
    )

-- A section in an image: the bytes from its base on are its own, and others may follow.
abbrev pub StandsAt : List ℕ → ℕ → List ℕ → Type 0
StandsAt image base blob =
    (before : List ℕ) × (after : List ℕ) × (image ≡ before ++ (blob ++ after))
    × (length before ≡ base)

module _ (blobs : Blobs) (s : Section) where
  abbrev sizes : Section → ℕ
  sizes t = length (blobs t)

  first-StandsAt :
      (order : List Section) (image : List ℕ)
      → StandsAt (link blobs (s ∷ order) image) (align_section (length image)) (blobs s)
  unfolding link
  first-StandsAt order image =
      let (more, e) = link-extends blobs order (padded image ++ blobs s) in
      (padded image, more, e ∙ append_assoc (padded image) (blobs s) more, length-padded image)

  link-StandsAt :
      (order : List Section) (image : List ℕ)
      → occurs s order ≡ true
      → StandsAt (link blobs order image) (base_from sizes (length image) order s) (blobs s)
  unfolding link base_from
  link-StandsAt [] image h = cc
  link-StandsAt (t ∷ order) image h = elim (Bool-cases (section_beq t s)) [
    | inl e ↦ rw e (
        subst
          (λ t. StandsAt (link blobs (t ∷ order) image) (align_section (length image)) (blobs s))
          (sym (beq-eq t s e)) (first-StandsAt order image))
    | inr e ↦ rw e (
        subst
          (λ n.
            StandsAt (link blobs order (padded image ++ blobs t)) (base_from sizes n order s)
              (blobs s))
          (length-append (padded image) (blobs t)
            ∙ ap (λ n. n + length (blobs t)) (length-padded image))
          (link-StandsAt order (padded image ++ blobs t) (later (section_beq t s) e h)))
  ]
    where
      later : (b : Bool) → b ≡ false → (b || occurs s order) ≡ true → occurs s order ≡ true
      later true e k = cc
      later false e k = k

all_occur : (s : Section) → occurs s section_order ≡ true
all_occur vectors = refl
all_occur text_ = refl
all_occur rodata = refl
all_occur data_ = refl
all_occur bss = refl

-- If the blobs have the sizes of their sections, each stands in the linked image at the base that
-- `layout_sections`, and so every label and every instruction address, gives to its section.
pub link-section :
    (items : List Item) (blobs : Blobs)
    → ((t : Section) → length (blobs t) ≡ section_size items t)
    → (s : Section) → StandsAt (link blobs section_order []) (layout_sections items s) (blobs s)
unfolding layout_sections
link-section items blobs sized s =
    subst
      (λ size_of.
        StandsAt (link blobs section_order []) (base_from size_of 0 section_order s) (blobs s))
      (fun_ext sized) (link-StandsAt blobs s section_order [] (all_occur s))

aligns : (c : ℕ) → (c ≤ align_section c) × (align_section c ≤ c + 1)
aligns c = omega (arith, align_section_lem c)

align_section-even : (c : ℕ) → align_section c % 2 ≡ 0
align_section-even c = omega (arith, align_section_lem c)

even_base : (items : List Item) (s : Section) → layout_sections items s % 2 ≡ 0
unfolding layout_sections base_from
even_base items vectors = refl
even_base items text_ = align_section-even _
even_base items rodata = align_section-even _
even_base items data_ = align_section-even _
even_base items bss = align_section-even _

-- The end of the section before it, as far as the alignment.
abbrev pub Follows : (Section → ℕ) → (Section → ℕ) → Section → Section → Type 0
Follows bases sizes s t = (bases s + sizes s ≤ bases t) × (bases t ≤ bases s + sizes s + 1)

-- The sections begin at even addresses, the vectors at 0, and each section begins at the end of the
-- one before it or one byte later: they do not overlap.
pub layout_sections_lem :
    (items : List Item)
    → (layout_sections items vectors ≡ 0)
      × ((s : Section) → layout_sections items s % 2 ≡ 0)
      × Follows (layout_sections items) (section_size items) vectors text_
      × Follows (layout_sections items) (section_size items) text_ rodata
      × Follows (layout_sections items) (section_size items) rodata data_
      × Follows (layout_sections items) (section_size items) data_ bss
unfolding layout_sections base_from
layout_sections_lem items = (refl, even_base items, aligns _, aligns _, aligns _, aligns _)
