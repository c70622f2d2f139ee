-- ===== src/Asm/Preprocess/Lines.antt =====
-- tools/riscc_asm.py, `preprocess_source`: lines are replaced one for one.
use riscc.Prelude.{suc, ◌≡◌, ◌∙◌, ap, List, [], ◌∷◌}
use riscc.Prelude.Lists.{length}
use riscc.Prelude.Result.{ok, bind-ok}
use riscc.Asm.Text.{Text}
use riscc.Asm.Preprocess.{Frame, State, preprocess_line, closed, preprocess_loop, preprocess_source}

-- Each line gives one line.
loop-length :
    (defines lines : List Text) (st : State) {out : List Text}
    → preprocess_loop defines lines st ≡ ok out
    → length out ≡ length lines
unfolding preprocess_loop
loop-length defines [] st {out} h = nothing st.stack h
  where
    nothing : (stack : List Frame) {out : List Text} → closed stack ≡ ok out → length out ≡ 0
    nothing [] h = cc
    nothing (f ∷ rest) h = cc
loop-length defines (raw ∷ lines) st {out} h =
    let (p, e, k) = bind-ok (preprocess_line defines raw st) _ h in
    let (rest, e', k') = bind-ok (preprocess_loop defines lines p.0) _ k in
    let same : out ≡ p.1 ∷ rest = cc in ap length same ∙ ap suc (loop-length defines lines p.0 e')

-- If `preprocess_source` accepts, it returns as many lines as it was given.
preprocess_source-length :
    (lines defines : List Text) {out : List Text}
    → preprocess_source lines defines ≡ ok out
    → length out ≡ length lines
unfolding preprocess_source
preprocess_source-length lines defines h = loop-length defines lines _ h
