-- ===== src/Asm/Preprocess/Blocks.antt =====
-- tools/riscc_asm.py, `preprocess_source`: plain lines, and a conditional, which keeps the lines of
-- one of its branches.
use riscc.Prelude.{
  ◌≡◌, ◌∙◌, ap, refl, sym, Bool, true, false, not, ◌&&◌, List, [], ◌∷◌, ◌++◌, map, if◌then◌else◌,
}
use mathlib.Core.List.{append_assoc, append-nil}
use riscc.Prelude.Result.{Result, ok, err, ◌>>=◌}
use riscc.Asm.Text.{Text, split_first, strip, is_empty}
use riscc.Asm.Source.{strip_comment}
use riscc.Asm.Expr.{AsmError}
use riscc.Asm.Preprocess.{
  member, define_name, Directive, ifdef, ifndef, else_, endif, other, directive_of, State, newline,
  open_if, switch_else, close_if, preprocess_line, preprocess_loop, preprocess_source,
}

-- What a line's first word makes of it, and its argument.
abbrev pub directive : Text → Directive
directive raw = directive_of (split_first (strip_comment raw)).0

abbrev pub argument : Text → Text
argument raw = strip (split_first (strip_comment raw)).1

-- Lines that are no directives.
abbrev pub ArePlain : List Text → Type 0
ArePlain [] = Unit
ArePlain (raw ∷ lines) = (directive raw ≡ other) × ArePlain lines

-- Plain lines in an active or an inactive place.
abbrev pub shown : Bool → List Text → List Text
shown true lines = lines
shown false lines = map (λ _. newline) lines

module _ (defines : List Text) where
  line-other :
      (raw : Text) (st : State)
      → directive raw ≡ other
      → preprocess_line defines raw st ≡ ok (st, (if st.active then raw else newline))
  unfolding preprocess_line
  line-other raw st h = rw (h, preprocess_line)

  line-else :
      (raw : Text) (st : State)
      → directive raw ≡ else_
      → preprocess_line defines raw st ≡ (switch_else st.stack >>= λ st'. ok (st', newline))
  unfolding preprocess_line
  line-else raw st h = rw (h, preprocess_line)

  line-endif :
      (raw : Text) (st : State)
      → directive raw ≡ endif
      → preprocess_line defines raw st ≡ (close_if st.stack >>= λ st'. ok (st', newline))
  unfolding preprocess_line
  line-endif raw st h = rw (h, preprocess_line)

  line-ifdef :
      (raw : Text) (st : State)
      → directive raw ≡ ifdef
      → preprocess_line defines raw st
        ≡ (open_if true defines (argument raw) st >>= λ st'. ok (st', newline))
  unfolding preprocess_line
  line-ifdef raw st h = rw (h, preprocess_line)

  line-ifndef :
      (raw : Text) (st : State)
      → directive raw ≡ ifndef
      → preprocess_line defines raw st
        ≡ (open_if false defines (argument raw) st >>= λ st'. ok (st', newline))
  unfolding preprocess_line
  line-ifndef raw st h = rw (h, preprocess_line)

-- What follows, with lines put before it.
abbrev pub prefixed : List Text → Result AsmError (List Text) → Result AsmError (List Text)
prefixed before (ok out) = ok (before ++ out)
prefixed before (err e) = err e

prefixed-nil : (r : Result AsmError (List Text)) → prefixed [] r ≡ r
prefixed-nil (ok out) = refl
prefixed-nil (err e) = refl

prefixed-cons :
    (t : Text) (before : List Text) (r : Result AsmError (List Text))
    → prefixed (t ∷ []) (prefixed before r) ≡ prefixed (t ∷ before) r
prefixed-cons t before (ok out) = refl
prefixed-cons t before (err e) = refl

prefixed-append :
    (a b : List Text) (r : Result AsmError (List Text))
    → prefixed a (prefixed b r) ≡ prefixed (a ++ b) r
prefixed-append a b (ok out) = ap ok (sym (append_assoc a b out))
prefixed-append a b (err e) = refl

module _ (defines : List Text) where
  loop-line :
      (raw : Text) (lines : List Text) (st : State) {st' : State} {text : Text}
      → preprocess_line defines raw st ≡ ok (st', text)
      → preprocess_loop defines (raw ∷ lines) st
        ≡ prefixed (text ∷ []) (preprocess_loop defines lines st')
  unfolding preprocess_loop
  loop-line raw lines st {st'} {text} e =
      rw (e, preprocess_loop) (then_cons (preprocess_loop defines lines st'))
    where
      then_cons :
          (r : Result AsmError (List Text))
          → (r >>= λ out. ok (text ∷ out)) ≡ prefixed (text ∷ []) r
      then_cons (ok out) = refl
      then_cons (err e) = refl

  loop-plain :
      (block rest : List Text) (st : State)
      → ArePlain block
      → preprocess_loop defines (block ++ rest) st
        ≡ prefixed (shown st.active block) (preprocess_loop defines rest st)
  loop-plain [] rest st h = empty st.active
    where
      empty :
          (active : Bool)
          → preprocess_loop defines rest st
            ≡ prefixed (shown active []) (preprocess_loop defines rest st)
      empty true = sym (prefixed-nil _)
      empty false = sym (prefixed-nil _)
  loop-plain (raw ∷ block) rest st h =
      loop-line raw (block ++ rest) st (line-other defines raw st h.0)
      ∙ ap (prefixed ((if st.active then raw else newline) ∷ [])) (loop-plain block rest st h.1)
      ∙ prefixed-cons _ _ _
      ∙ ap (λ b. prefixed b (preprocess_loop defines rest st)) (shown-cons st.active raw block)
    where
      shown-cons :
          (active : Bool) (t : Text) (ts : List Text)
          → (if active then t else newline) ∷ shown active ts ≡ shown active (t ∷ ts)
      shown-cons true t ts = refl
      shown-cons false t ts = refl

  -- What `.ifdef` and `.ifndef` ask of the set of symbols.
  abbrev pub asks : Bool → Text → Bool
  asks wanted name = if wanted then member name defines else not (member name defines)

  abbrev pub opens : Bool → Directive
  opens true = ifdef
  opens false = ifndef

  line-open :
      (wanted : Bool) (raw : Text) (st : State) {name : Text}
      → directive raw ≡ opens wanted
      → is_empty (argument raw) ≡ false
      → define_name (argument raw) ≡ ok name
      → preprocess_line defines raw st
        ≡ ok (
          record {
            stack = (st.active, asks wanted name, false) ∷ st.stack;
            active = st.active && asks wanted name;
          },
          newline,
        )
  unfolding open_if
  line-open true raw st d n e = line-ifdef defines raw st d ∙ rw (n, e) refl
  line-open false raw st d n e = line-ifndef defines raw st d ∙ rw (n, e) refl

  -- A conditional of two plain branches, with a symbol in its head, is replaced by as many lines:
  -- where the place is active and the condition holds the first branch is kept, where the place is
  -- active and it does not hold the second, and all else is blank. The lines after it are treated as
  -- the lines before it are.
  pub conditional_lem :
      (wanted : Bool) (head middle last : Text) (first second rest : List Text) (st : State)
      {name : Text}
      → directive head ≡ opens wanted
      → is_empty (argument head) ≡ false
      → define_name (argument head) ≡ ok name
      → ArePlain first
      → directive middle ≡ else_
      → ArePlain second
      → directive last ≡ endif
      → preprocess_loop defines (head ∷ (first ++ (middle ∷ (second ++ (last ∷ rest))))) st
        ≡ prefixed
            (newline
              ∷ (shown (st.active && asks wanted name) first
                  ++ (newline
                      ∷ (shown (st.active && not (asks wanted name)) second ++ (newline ∷ [])))))
            (preprocess_loop defines rest st)
  conditional_lem wanted head middle last first second rest st {name} dh n e pf dm ps dl =
      loop-line head _ st (line-open wanted head st dh n e)
      ∙ ap (prefixed (newline ∷ [])) (
          loop-plain first _ opened pf
          ∙ ap (prefixed a) (
              loop-line middle _ opened (line-else defines middle opened dm)
              ∙ ap (prefixed (newline ∷ [])) (
                  loop-plain second _ turned ps
                  ∙ ap (prefixed b)
                      (loop-line last rest turned (line-endif defines last turned dl)))))
      ∙ flatten
    where
      c : Bool
      c = asks wanted name

      opened : State
      opened = record { stack = (st.active, c, false) ∷ st.stack; active = st.active && c }

      turned : State
      turned = record { stack = (st.active, c, true) ∷ st.stack; active = st.active && not c }

      a : List Text
      a = shown (st.active && c) first

      b : List Text
      b = shown (st.active && not c) second

      r : Result AsmError (List Text)
      r = preprocess_loop defines rest st

      flatten :
          prefixed
            (newline ∷ [])
            (prefixed a (prefixed (newline ∷ []) (prefixed b (prefixed (newline ∷ []) r))))
          ≡ prefixed (newline ∷ (a ++ (newline ∷ (b ++ (newline ∷ []))))) r
      flatten =
          ap (λ q. prefixed (newline ∷ []) (prefixed a (prefixed (newline ∷ []) q)))
            (prefixed-append b (newline ∷ []) r)
          ∙ ap (λ q. prefixed (newline ∷ []) (prefixed a q))
              (prefixed-cons newline (b ++ (newline ∷ [])) r)
          ∙ ap (prefixed (newline ∷ [])) (prefixed-append a _ r)
          ∙ prefixed-cons newline _ r

-- If no line is a directive, every line is kept as it is.
preprocess_source-plain :
    (lines defines : List Text) → ArePlain lines → preprocess_source lines defines ≡ ok lines
unfolding preprocess_source
preprocess_source-plain lines defines h =
    ap (λ ls. preprocess_loop defines ls begin) (sym (append-nil lines))
    ∙ loop-plain defines lines [] begin h
    ∙ at_end (preprocess_loop defines [] begin) (unfold preprocess_loop in refl)
  where
    begin : State
    begin = record { stack = []; active = true }

    at_end : (r : Result AsmError (List Text)) → r ≡ ok [] → prefixed lines r ≡ ok lines
    at_end (ok out) e =
        let none_left : out ≡ [] = cc in
        ap (λ o. ok (lines ++ o)) none_left ∙ ap ok (append-nil lines)
    at_end (err e) h = cc
