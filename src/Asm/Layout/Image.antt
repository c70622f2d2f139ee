-- ===== src/Asm/Layout/Image.antt =====
-- tools/riscc_asm.py, `assemble`: the emitted items keep to their sections, and the image is the
-- sections at the addresses that the labels were computed from.
use riscc.Prelude.{
  ℕ, zero, suc, ◌+◌, ◌-◌, ◌≡◌, ◌≤◌, ◌∙◌, ap, refl, sym, Bool, true, false, not, ◌&&◌, ◌||◌, List,
  [], ◌∷◌, ◌++◌, arith, Bool-cases, inl, inr,
}
use mathlib.Core.Path.{subst}
use riscc.Prelude.Int.{ℤ, pos, negsuc, eqb_ℤ, ◌+ℤ◌}
use riscc.Prelude.Lists.{length, take, drop, length-append, length-replicate, replicate}
use riscc.Prelude.Result.{raise_if-ok, ok, bind-ok}
use riscc.Asm.Text.{Text, codes}
use riscc.Asm.Expr.{Python, Labels, size_mismatch, profile_missing}
use riscc.Asm.Syntax.{Section, section_order, Item}
use riscc.Asm.Preprocess.{member, preprocess_source}
use riscc.Asm.Parse.{section_beq, Parser, parse_source}
use riscc.Asm.Layout.{
  item_end, section_size, layout_sections, final_label_map, emit_item, write_at, write_item, Blobs,
  emit_all, link, assemble,
}
use riscc.Asm.Layout.Places.{StandsAt, link-section, beq-eq}

module _ {ℓ} {A : Type ℓ} where
  length-take : (n : ℕ) (xs : List A) → n ≤ length xs → length (take n xs) ≡ n
  length-take zero xs h = refl
  length-take (suc n) [] h = absurd (omega arith)
  length-take (suc n) (x ∷ xs) h = ap suc (length-take n xs (omega arith))

  length-drop : (n : ℕ) (xs : List A) → length (drop n xs) ≡ length xs - n
  length-drop zero xs = omega arith
  length-drop (suc n) [] = omega arith
  length-drop (suc n) (x ∷ xs) = omega (arith, length-drop n xs)

length-write_at :
    (offset : ℕ) (bs blob : List ℕ)
    → offset + length bs ≤ length blob
    → length (write_at offset bs blob) ≡ length blob
unfolding write_at
length-write_at offset bs blob h = omega (
  arith,
  length-append (take offset blob) (bs ++ drop (offset + length bs) blob),
  length-append bs (drop (offset + length bs) blob),
  length-take offset blob (omega arith),
  length-drop (offset + length bs) blob,
)

-- Every item ends inside the blob of its section.
abbrev Inside : (Section → ℕ) → List Item → Type 0
Inside sizes [] = Unit
Inside sizes (item ∷ rest) = (item_end item ≤ sizes item.section) × Inside sizes rest

Inside-le :
    (f g : Section → ℕ) (items : List Item)
    → ((s : Section) → f s ≤ g s)
    → Inside f items
    → Inside g items
Inside-le f g [] le h = tt
Inside-le f g (item ∷ rest) le h = (omega (arith, h.0, le item.section), Inside-le f g rest le h.1)

beq_refl : (s : Section) → section_beq s s ≡ true
beq_refl Section.vectors = refl
beq_refl Section.text_ = refl
beq_refl Section.rodata = refl
beq_refl Section.data_ = refl
beq_refl Section.bss = refl

section_size-Inside : (items : List Item) → Inside (section_size items) items
unfolding section_size
section_size-Inside [] = tt
section_size-Inside (item ∷ rest) = (
  ground (arith, beq_refl item.section),
  Inside-le (section_size rest) _ rest (λ s. ground arith) (section_size-Inside rest),
)

eqb-eq : (n : ℕ) (size : ℤ) → eqb_ℤ (pos n) size ≡ true → pos n ≡ size
eqb-eq n (pos k) h = ground arith
eqb-eq n (negsuc k) h = ground arith

not-false : (b : Bool) → not b ≡ false → b ≡ true
not-false true h = refl
not-false false h = cc

item_end-sum : (item : Item) (n : ℕ) → pos n ≡ item.size → item_end item ≡ item.offset + n
unfolding item_end ◌+ℤ◌
item_end-sum item n h = rw (sym h) (ground arith)

write_item-length :
    (item : Item) (bs : List ℕ) (blobs : Blobs)
    → item_end item ≤ length (blobs item.section)
    → pos (length bs) ≡ item.size
    → (s : Section) → length (write_item item bs blobs s) ≡ length (blobs s)
write_item-length item bs blobs inside size s = elim (Bool-cases (section_beq s item.section)) [
  | inl e ↦
      let here : s ≡ item.section = beq-eq s item.section e in
      let same : length (blobs item.section) ≡ length (blobs s) =
        ap (λ t. length (blobs t)) (sym here) in
      rw e (
        length-write_at item.offset bs (blobs s)
          (omega (arith, inside, same, item_end-sum item (length bs) size)))
  | inr e ↦ rw e refl
]

module _ (py : Python) (labels : Labels) (bases : Section → ℕ) (iflush : Bool) where
  emit_all-length :
      (items : List Item) (blobs : Blobs) {blobs' : Blobs}
      → Inside (λ s. length (blobs s)) items
      → emit_all py labels bases iflush items blobs ≡ ok blobs'
      → (s : Section) → length (blobs' s) ≡ length (blobs s)
  unfolding emit_all
  emit_all-length [] blobs {blobs'} inside h s =
      let same : blobs' ≡ blobs = cc in ap (λ b. length (b s)) same
  emit_all-length (item ∷ rest) blobs {blobs'} inside h s =
      let (bs, emitted, h₁) = bind-ok (emit_item py labels bases iflush item) _ h in
      let (checked, h₂) =
        raise_if-ok (not (eqb_ℤ (pos (length bs)) item.size)) size_mismatch
          (emit_all py labels bases iflush rest (write_item item bs blobs)) h₁ in
      let size : pos (length bs) ≡ item.size = eqb-eq (length bs) item.size (not-false _ checked) in
      let kept = write_item-length item bs blobs inside.0 size in
      emit_all-length rest (write_item item bs blobs)
        (Inside-le _ _ rest (λ t. omega (arith, kept t)) inside.1) h₂ s
      ∙ kept s

-- What an accepted program went through, and where its sections stand in the image.
pub record Assembled (py : Python) (lines defines : List Text) (iflush : Bool) (image : List ℕ)
    : Type 0 where
  pub filtered : List Text
  pub parser : Parser
  pub blobs : Blobs
  pub preprocessed : preprocess_source lines defines ≡ ok filtered
  pub parsed : parse_source py filtered ≡ ok parser
  pub emitted :
      emit_all py
        (final_label_map parser.labels (layout_sections parser.items))
        (layout_sections parser.items)
        iflush
        parser.items
        (λ s. replicate (section_size parser.items s) 0)
      ≡ ok blobs
  pub sized : (s : Section) → length (blobs s) ≡ section_size parser.items s
  pub placed : (s : Section) → StandsAt image (layout_sections parser.items s) (blobs s)

-- If `assemble` accepts the lines, they preprocess, parse and emit, and the image is, for each
-- section, some bytes up to the base of the section, then as many bytes as its items take, then
-- others. The bases are those that the labels and the instruction addresses were computed from.
pub assemble-Assembled :
    (py : Python) (lines defines : List Text) (iflush : Bool) {image : List ℕ}
    → assemble py lines defines iflush ≡ ok image
    → Assembled py lines defines iflush image
unfolding assemble
assemble-Assembled py lines defines iflush {image} h =
    let g =
      raise_if-ok
        (iflush && not (member (codes "RISCC_SYS") defines || member (codes "RISCC_FULL") defines))
        profile_missing _ h in
    let (filtered, e₁, h₁) = bind-ok (preprocess_source lines defines) _ g.1 in
    let (p, e₂, h₂) = bind-ok (parse_source py filtered) _ h₁ in
    let bases = layout_sections p.items in
    let zeros : Blobs = λ s. replicate (section_size p.items s) 0 in
    let (blobs, e₃, h₃) =
      bind-ok (emit_all py (final_label_map p.labels bases) bases iflush p.items zeros) _ h₂ in
    let linked : link blobs section_order [] ≡ image = cc in
    let inside =
      Inside-le (section_size p.items) (λ s. length (zeros s)) p.items
        (λ s. omega (arith, length-replicate {A = ℕ} (section_size p.items s) 0))
        (section_size-Inside p.items) in
    let sized : (s : Section) → length (blobs s) ≡ section_size p.items s = λ s.
      emit_all-length py (final_label_map p.labels bases) bases iflush p.items zeros inside e₃ s
      ∙ length-replicate {A = ℕ} (section_size p.items s) 0 in
    record {
      filtered = filtered;
      parser = p;
      blobs = blobs;
      preprocessed = e₁;
      parsed = e₂;
      emitted = e₃;
      sized = sized;
      placed = λ s.
          subst (λ i. StandsAt i (bases s) (blobs s)) linked (link-section p.items blobs sized s);
    }
