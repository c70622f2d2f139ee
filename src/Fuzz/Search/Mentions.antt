-- ===== src/Fuzz/Search/Mentions.antt =====
-- tools/riscc_fuzz.py, `simple_op`: what it is for a line to mention a register.
use mathlib.Core.List.{reverse, reverse-append, reverse-reverse}
use riscc.Prelude.{
  ◌≡◌, ◌⊎◌, ◌↔◌, inl, inr, refl, sym, ◌∙◌, ap, Bool, true, false, ◌&&◌, ◌||◌, List, [], ◌∷◌, ◌++◌,
  Option, none, some, arith, Bool-cases, ◌==◌, ==_iff,
}
use riscc.Asm.Text.{Text, codes}
use riscc.Fuzz.Format.{is_prefix, contains, rstrip, ends_with_text}
use riscc.Fuzz.Search.{mentions, mentions_excluded}

-- A line mentions a register if somewhere in it the register's name stands before a comma, or the
-- line, less the white space at its end, ends in the name.
abbrev pub Mentions : Text → Text → Type 0
Mentions name l =
    ((before : Text) × (after : Text) × (l ≡ before ++ ((name ++ codes ",") ++ after)))
    ⊎ ((before : Text) × (rstrip l ≡ before ++ name))

-- None of the lines mentions the register, if there is one to exclude.
abbrev AvoidsName : Text → List Text → Type 0
AvoidsName name [] = Unit
AvoidsName name (l ∷ lines) = (¬ Mentions name l) × AvoidsName name lines

abbrev pub Avoids : Option Text → List Text → Type 0
Avoids none lines = Unit
Avoids (some name) lines = AvoidsName name lines

and_parts : (p q : Bool) → (p && q) ≡ true → (p ≡ true) × (q ≡ true)
and_parts p q h = ground arith

or_parts : (p q : Bool) → (p || q) ≡ true → (p ≡ true) ⊎ (q ≡ true)
or_parts true q h = inl refl
or_parts false q h = inr h

or_false : (p q : Bool) → (p || q) ≡ false → (p ≡ false) × (q ≡ false)
or_false true q h = cc
or_false false q h = (refl, h)

absurd_bool : true ≡ false → ⊥
absurd_bool e = cc

or_right : (p q : Bool) → q ≡ true → (p || q) ≡ true
or_right true q h = refl
or_right false q h = h

prefix-rest : (part t : Text) → is_prefix part t ≡ true → (rest : Text) × (t ≡ part ++ rest)
prefix-rest [] t h = (t, refl)
prefix-rest (c ∷ part) [] h = cc
prefix-rest (c ∷ part) (d ∷ t) h =
    let (same, later) = and_parts (c == d) (is_prefix part t) h in
    let (rest, e) = prefix-rest part t later in
    let first : c ≡ d = (==_iff c d).0 same in
    let whole : ◌≡◌ {A = Text} (d ∷ t) (c ∷ (part ++ rest)) = cc in (rest, whole)

rest-prefix : (part rest : Text) → is_prefix part (part ++ rest) ≡ true
rest-prefix [] rest = refl
rest-prefix (c ∷ part) rest = rw ((==_iff c c).1 refl, rest-prefix part rest) refl

contains-split :
    (part t : Text)
    → contains part t ≡ true
    → (before : Text) × (after : Text) × (t ≡ before ++ (part ++ after))
unfolding contains
contains-split part [] h = let (rest, e) = prefix-rest part [] h in ([], rest, e)
contains-split part (c ∷ t) h = elim (or_parts (is_prefix part (c ∷ t)) (contains part t) h) [
  | inl here ↦ let (rest, e) = prefix-rest part (c ∷ t) here in ([], rest, e)
  | inr later ↦
      let (before, after, e) = contains-split part t later in (c ∷ before, after, ap (λ r. c ∷ r) e)
]

contains-start : (part t : Text) → is_prefix part t ≡ true → contains part t ≡ true
unfolding contains
contains-start part [] h = h
contains-start part (c ∷ t) h = rw h refl

split-contains : (part before after : Text) → contains part (before ++ (part ++ after)) ≡ true
unfolding contains
split-contains part [] after = contains-start part (part ++ after) (rest-prefix part after)
split-contains part (c ∷ before) after = or_right _ _ (split-contains part before after)

ends-split : (last t : Text) → ends_with_text last t ≡ true → (before : Text) × (t ≡ before ++ last)
unfolding ends_with_text
ends-split last t h =
    let (rest, e) = prefix-rest (reverse last) (reverse t) h in
    (
      reverse rest,
      sym (reverse-reverse t)
          ∙ ap reverse e
          ∙ reverse-append (reverse last) rest
          ∙ ap (λ x. reverse rest ++ x) (reverse-reverse last),
    )

split-ends : (last before : Text) → ends_with_text last (before ++ last) ≡ true
unfolding ends_with_text
split-ends last before =
    rw (reverse-append before last) (rest-prefix (reverse last) (reverse before))

-- The test of one line.
abbrev in_line : Text → Text → Bool
in_line name l = contains (name ++ codes ",") l || ends_with_text name (rstrip l)

in_line-Mentions : (name l : Text) → in_line name l ≡ true → Mentions name l
in_line-Mentions name l h = elim (or_parts (contains (name ++ codes ",") l) _ h) [
  | inl inside ↦ inl (contains-split (name ++ codes ",") l inside)
  | inr last ↦ inr (ends-split name (rstrip l) last)
]

Mentions-in_line : (name l : Text) → Mentions name l → in_line name l ≡ true
Mentions-in_line name l (inl (before, after, e)) =
    let inside : contains (name ++ codes ",") l ≡ true =
      ap (contains (name ++ codes ",")) e ∙ split-contains (name ++ codes ",") before after in
    rw inside refl
Mentions-in_line name l (inr (before, e)) =
    or_right _ _ (ap (ends_with_text name) e ∙ split-ends name before)

mentions-AvoidsName :
    (name : Text) (lines : List Text) → mentions name lines ≡ false → AvoidsName name lines
unfolding mentions
mentions-AvoidsName name [] h = tt
mentions-AvoidsName name (l ∷ lines) h =
    let (first, rest) = or_false (in_line name l) (mentions name lines) h in
    (
      (λ m. absurd_bool (sym (Mentions-in_line name l m) ∙ first)),
      mentions-AvoidsName name lines rest,
    )

AvoidsName-mentions :
    (name : Text) (lines : List Text) → AvoidsName name lines → mentions name lines ≡ false
unfolding mentions
AvoidsName-mentions name [] h = refl
AvoidsName-mentions name (l ∷ lines) (first, rest) = elim (Bool-cases (in_line name l)) [
  | inl e ↦ absurd (first (in_line-Mentions name l e))
  | inr e ↦ (ap (λ b. b || mentions name lines) e ∙ AvoidsName-mentions name lines rest)
]

pub Avoids-iff :
    (exclude : Option Text) (lines : List Text)
    → (mentions_excluded exclude lines ≡ false) ↔ Avoids exclude lines
Avoids-iff none lines = (λ h. tt, λ h. refl)
Avoids-iff (some name) lines = (mentions-AvoidsName name lines, AvoidsName-mentions name lines)

pub not_Avoids-iff :
    (exclude : Option Text) (lines : List Text)
    → (mentions_excluded exclude lines ≡ true) ↔ (¬ Avoids exclude lines)
not_Avoids-iff exclude lines = (
  λ h a. absurd_bool (sym h ∙ (Avoids-iff exclude lines).1 a),
  λ n. elim (Bool-cases (mentions_excluded exclude lines)) [
    | inl e ↦ e
    | inr e ↦ absurd (n ((Avoids-iff exclude lines).0 e))
  ],
)
