-- ===== src/Fuzz/Campaign/Stages.antt =====
-- tools/riscc_fuzz.py, `main`: the stages of a campaign in general, and when they end it cleanly.
use mathlib.Core.Path.{ap}
use riscc.Prelude.{
  ℕ, ◌≡◌, refl, sym, ◌∙◌, Bool, true, false, ◌&&◌, List, [], ◌∷◌, arith, ◌==◌, if◌then◌else◌,
}
use riscc.Prelude.Result.{Result, ok, err, ◌>>=◌}
use riscc.Asm.Text.{Text}
use riscc.Fuzz.Compare.{Verdict}
use riscc.Fuzz.Campaign.{Tally, Stopped, count_result, status}

abbrev pub every {ℓ} : {A : Type ℓ} → (A → Bool) → List A → Bool
every test [] = true
every test (a ∷ list) = test a && every test list

module _ {E : Type 0} where
  abbrev pub is_ok {ℓ} : {A : Type ℓ} → Result E A → Bool
  is_ok (err e) = false
  is_ok (ok a) = true

-- A campaign that ran to its end without a divergence.
abbrev pub clean : {E : Type 0} → Result (Stopped E) Tally → Bool
clean (err e) = false
clean (ok t) = t.fails == 0

pub and_assoc : (a b c : Bool) → ((a && b) && c) ≡ (a && (b && c))
and_assoc true b c = refl
and_assoc false b c = refl

pub and_false : (a : Bool) → (a && false) ≡ false
and_false true = refl
and_false false = refl

pub fails-count_result :
    (core config : Text) (seed : ℕ) (v : Verdict) (t : Tally)
    → ((count_result core config seed v t).fails == 0) ≡ ((t.fails == 0) && v.passed)
unfolding count_result
fails-count_result core config seed v t = ground arith

-- A stage whose counts the next stage goes on from.
pub clean-bind :
    {E : Type 0} (counted : Result (Stopped E) Tally) (next : Tally → Result (Stopped E) Tally)
    (later : Bool)
    → ((t : Tally) → clean (next t) ≡ ((t.fails == 0) && later))
    → clean (counted >>= next) ≡ (clean counted && later)
clean-bind (err e) next later h = refl
clean-bind (ok t) next later h = h t

-- A stage without counts, whose value the next stage goes on from.
pub stage-bind :
    {E A : Type 0} (first : Result (Stopped E) A) (next : A → Result (Stopped E) Tally)
    (none_failed fine rest : Bool)
    → is_ok first ≡ fine
    → ((a : A) → first ≡ ok a → clean (next a) ≡ (none_failed && rest))
    → clean (first >>= next) ≡ (none_failed && (fine && rest))
stage-bind (err e) next none_failed fine rest f h =
    sym (and_false none_failed) ∙ ap (λ b. none_failed && (b && rest)) f
stage-bind (ok a) next none_failed fine rest f h = h a refl ∙ ap (λ b. none_failed && (b && rest)) f

pub regroup : (a b c d : Bool) → (a && (b && (c && d))) ≡ ((a && (b && c)) && d)
regroup true true c d = refl
regroup true false c d = refl
regroup false b c d = refl

pub status-clean :
    {E : Type 0} (r : Result (Stopped E) Tally) → status r ≡ (if clean r then 0 else 1)
status-clean (err e) = refl
status-clean (ok t) = refl

pub every-cong :
    {A : Type 0} (test other : A → Bool) (list : List A)
    → ((a : A) → test a ≡ other a)
    → every test list ≡ every other list
every-cong test other [] h = refl
every-cong test other (a ∷ list) h = rw (h a, every-cong test other list h) refl

-- One step of a stage, which makes a value of each of its inputs.
module _ {E B : Type 0} (made : Result E Text) (rest : Result (Stopped E) (List B))
    (fail : E → Stopped E) (pair : Text → B) where
  abbrev stage : Result (Stopped E) (List B)
  stage = elim made [ err e ↦ err (fail e) | ok a ↦ rest >>= λ list. ok (pair a ∷ list) ]

pub stage-is_ok :
    {E B : Type 0} (made : Result E Text) (rest : Result (Stopped E) (List B))
    (fail : E → Stopped E) (pair : Text → B)
    → is_ok (stage made rest fail pair) ≡ (is_ok made && is_ok rest)
stage-is_ok (err e) rest fail pair = refl
stage-is_ok (ok a) (err e) fail pair = refl
stage-is_ok (ok a) (ok list) fail pair = refl

pub stage-every :
    {E B : Type 0} (made : Result E Text) (rest : Result (Stopped E) (List B))
    (fail : E → Stopped E) (pair : Text → B) (test : B → Bool) (list : List B) (later : Bool)
    → stage made rest fail pair ≡ ok list
    → ((others : List B) → rest ≡ ok others → later ≡ every test others)
    → (elim made [ err e ↦ false | ok a ↦ test (pair a) ] && later) ≡ every test list
stage-every (err e) rest fail pair test list later h l = cc
stage-every (ok a) (err e) fail pair test list later h l = cc
stage-every (ok a) (ok others) fail pair test [] later h l = cc
stage-every (ok a) (ok others) fail pair test (b ∷ list) later h l =
    let head : pair a ≡ b = cc in
    let tail : others ≡ list = cc in rw (l others refl, head, tail) refl
