-- ===== src/Boot/Ecp5/Splice.antt =====
-- tools/update_ecp5_bootram.py, `update`: the new text of the configuration.
use riscc.Prelude.{ℕ, ◌+◌, ◌≡◌, ◌∙◌, refl, sym, ap, List, [], ◌∷◌, ◌++◌}
use mathlib.Core.List.{append_assoc}
use riscc.Prelude.Lists.{length, take, drop, length-append}
use riscc.Asm.Text.{Text}
use riscc.Boot.Ecp5.{Edit, splice}

-- A block of a text: the text before it up to the block before, its data, and the new data.
pub record Placed : Type 0 where
  pub gap : Text
  pub old_data : Text
  pub new_data : Text
  pub ident : Text
  pub values : List ℕ

-- A text of blocks, the last one first, with the old and with the new data.
abbrev pub old_text : List Placed → Text → Text
old_text [] rest = rest
old_text (p ∷ before) rest = old_text before (p.gap ++ (p.old_data ++ rest))

abbrev pub new_text : List Placed → Text → Text
new_text [] rest = rest
new_text (p ∷ before) rest = new_text before (p.gap ++ (p.new_data ++ rest))

-- The edits of the blocks, at their places in the old text.
abbrev pub edits_of : List Placed → List Edit
edits_of [] = []
edits_of (p ∷ before) =
    let start = length (old_text before p.gap) in
    (
      record { ident = p.ident; start = start; end = start + length p.old_data; values = p.values },
      p.new_data,
    )
    ∷ edits_of before

old_text-append :
    (before : List Placed) (a b : Text) → old_text before (a ++ b) ≡ old_text before a ++ b
old_text-append [] a b = refl
old_text-append (p ∷ before) a b =
    ap (old_text before) (simp append_assoc) ∙ old_text-append before (p.gap ++ (p.old_data ++ a)) b

take-append : (a b : Text) → take (length a) (a ++ b) ≡ a
take-append [] b = refl
take-append (c ∷ a) b = ap (λ t. c ∷ t) (take-append a b)

drop-append : (a b : Text) → drop (length a) (a ++ b) ≡ b
drop-append [] b = refl
drop-append (c ∷ a) b = drop-append a b

rest_of : (h d rest : Text) → drop (length h + length d) (h ++ (d ++ rest)) ≡ rest
rest_of h d rest =
    ap (drop (length h + length d)) (sym (append_assoc h d rest))
    ∙ ap (λ n. drop n ((h ++ d) ++ rest)) (sym (length-append h d))
    ∙ drop-append (h ++ d) rest

edit_at :
    (h d n rest : Text)
    → take (length h) (h ++ (d ++ rest)) ++ (n ++ drop (length h + length d) (h ++ (d ++ rest)))
      ≡ h ++ (n ++ rest)
edit_at h d n rest =
    ap (λ t. t ++ (n ++ drop (length h + length d) (h ++ (d ++ rest)))) (take-append h (d ++ rest))
    ∙ ap (λ t. h ++ (n ++ t)) (rest_of h d rest)

-- The first edit changes the last block.
one_edit :
    (p : Placed) (before : List Placed) (rest : Text)
    → take (length (old_text before p.gap)) (old_text before (p.gap ++ (p.old_data ++ rest)))
        ++ (p.new_data
            ++ drop
                (length (old_text before p.gap) + length p.old_data)
                (old_text before (p.gap ++ (p.old_data ++ rest))))
      ≡ old_text before (p.gap ++ (p.new_data ++ rest))
one_edit p before rest =
    ap
      (λ t.
        take (length (old_text before p.gap)) t
        ++ (p.new_data ++ drop (length (old_text before p.gap) + length p.old_data) t))
      (old_text-append before p.gap (p.old_data ++ rest))
    ∙ edit_at (old_text before p.gap) p.old_data p.new_data rest
    ∙ sym (old_text-append before p.gap (p.new_data ++ rest))

-- Made at the places of the blocks, the last one first, the edits put the new data of each block in
-- place of its old data, and leave the text between the blocks as it is.
pub splice_lem :
    (blocks : List Placed) (rest : Text)
    → splice (edits_of blocks) (old_text blocks rest) ≡ new_text blocks rest
unfolding splice
splice_lem [] rest = refl
splice_lem (p ∷ before) rest =
    ap (splice (edits_of before)) (one_edit p before rest)
    ∙ splice_lem before (p.gap ++ (p.new_data ++ rest))
