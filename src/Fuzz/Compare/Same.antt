-- ===== src/Fuzz/Compare/Same.antt =====
-- tools/riscc_fuzz.py: what the comparisons of lists of lines decide.
use riscc.Prelude.{
  ℕ, ◌+◌, ◌≡◌, ◌↔◌, refl, ◌∙◌, Bool, true, false, ◌&&◌, List, [], ◌∷◌, Option, none, some, arith,
  ◌==◌,
}
use mathlib.Core.Path.{subst}
use riscc.Prelude.Lists.{length}
use riscc.Asm.Text.{Text, text_eq}
use riscc.Fuzz.Shape.{text_eq-eq}
use riscc.Fuzz.Compare.Checks.{first_difference, lines_message, lines_eq}

pub text_eq_refl : (t : Text) → text_eq t t ≡ true
unfolding text_eq
text_eq_refl [] = refl
text_eq_refl (c ∷ t) = ground (arith, text_eq_refl t)

abbrev pub is_none {ℓ} : {A : Type ℓ} → Option A → Bool
is_none none = true
is_none (some a) = false

difference_later :
    (index : ℕ) (a b : Text) (iss rtl : List Text)
    → is_none (first_difference index (a ∷ iss) (b ∷ rtl)) ≡ true
    → (text_eq a b ≡ true) × (is_none (first_difference (index + 1) iss rtl) ≡ true)
unfolding first_difference
difference_later index a b iss rtl h = ground arith

no_difference-same :
    (index : ℕ) (iss rtl : List Text)
    → is_none (first_difference index iss rtl) ≡ true
    → length iss ≡ length rtl
    → iss ≡ rtl
no_difference-same index [] [] h e = refl
no_difference-same index [] (b ∷ rtl) h e = grind arith
no_difference-same index (a ∷ iss) [] h e = grind arith
no_difference-same index (a ∷ iss) (b ∷ rtl) h e =
    let (same, later) = difference_later index a b iss rtl h in
    let rest = no_difference-same (index + 1) iss rtl later (omega (arith, e)) in
    rw (text_eq-eq a b same, rest) refl

first_difference_self : (index : ℕ) (lines : List Text) → first_difference index lines lines ≡ none
unfolding first_difference
first_difference_self index [] = refl
first_difference_self index (a ∷ lines) =
    rw (text_eq_refl a) (first_difference_self (index + 1) lines)

message_parts :
    (at differ : Text) (iss rtl : List Text)
    → is_none (lines_message at differ iss rtl)
      ≡ (is_none (first_difference 0 iss rtl) && (length iss == length rtl))
unfolding lines_message
message_parts at differ iss rtl = ground arith

message_self :
    (at differ : Text) (lines : List Text) → is_none (lines_message at differ lines lines) ≡ true
message_self at differ lines =
    message_parts at differ lines lines ∙ rw (first_difference_self 0 lines) (ground arith)

eq_head :
    (a b : Text) (iss rtl : List Text)
    → lines_eq (a ∷ iss) (b ∷ rtl) ≡ true
    → (text_eq a b ≡ true) × (lines_eq iss rtl ≡ true)
unfolding lines_eq
eq_head a b iss rtl h = ground arith

lines_eq-same : (iss rtl : List Text) → lines_eq iss rtl ≡ true → iss ≡ rtl
unfolding lines_eq
lines_eq-same [] [] h = refl
lines_eq-same [] (b ∷ rtl) h = cc
lines_eq-same (a ∷ iss) [] h = cc
lines_eq-same (a ∷ iss) (b ∷ rtl) h =
    let (same, rest) = eq_head a b iss rtl h in
    rw (text_eq-eq a b same, lines_eq-same iss rtl rest) refl

lines_eq_self : (lines : List Text) → lines_eq lines lines ≡ true
unfolding lines_eq
lines_eq_self [] = refl
lines_eq_self (a ∷ lines) = rw (text_eq_refl a) (lines_eq_self lines)

-- The comparison of two memories decides whether they are the same.
pub lines_eq_iff : (iss rtl : List Text) → (lines_eq iss rtl ≡ true) ↔ (iss ≡ rtl)
lines_eq_iff iss rtl =
    (lines_eq-same iss rtl, λ e. subst (λ x. lines_eq iss x ≡ true) e (lines_eq_self iss))

-- There is no message exactly if the two lists are the same.
pub lines_message_iff :
    (at differ : Text) (iss rtl : List Text)
    → (is_none (lines_message at differ iss rtl) ≡ true) ↔ (iss ≡ rtl)
lines_message_iff at differ iss rtl = (
  λ h.
      let both : (is_none (first_difference 0 iss rtl) ≡ true) × (length iss ≡ length rtl) =
        ground (arith, message_parts at differ iss rtl) in
      no_difference-same 0 iss rtl (both.0) (both.1),
  λ e. subst (λ x. is_none (lines_message at differ iss x) ≡ true) e (message_self at differ iss),
)
