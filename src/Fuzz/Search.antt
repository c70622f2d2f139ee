-- ===== src/Fuzz/Search.antt =====
-- tools/riscc_fuzz.py: the `while True` of `Gen.simple_op` and `NanoGen.simple_op`, which draws
-- again until the lines do not mention a register.
pub mod Mentions
pub mod Rounds
use riscc.Prelude.{
  ℕ, zero, suc, Bool, true, false, ◌||◌, List, [], ◌∷◌, ◌++◌, Option, none, some, if◌then◌else◌,
}
use riscc.Asm.Text.{Text, codes}
use riscc.Fuzz.Format.{contains, rstrip, ends_with_text}
use riscc.Fuzz.Random.{Draw, pure, ◌>>=◌}

-- `any((exclude + ",") in l or l.rstrip().endswith(exclude) for l in lines)`
unfoldable pub mentions : Text → List Text → Bool
unfolding contains rstrip ends_with_text
mentions exclude [] = false
mentions exclude (l ∷ lines) =
    contains (exclude ++ codes ",") l || ends_with_text exclude (rstrip l) || mentions exclude lines

abbrev pub mentions_excluded : Option Text → List Text → Bool
mentions_excluded none lines = false
mentions_excluded (some exclude) lines = mentions exclude lines

-- At most so many rounds.
unfoldable pub search : {S : Type 0} → Draw S (List Text) → ℕ → Option Text → Draw S (List Text)
unfolding mentions
search round zero exclude s = none
search round (suc rounds) exclude s =
    let retry = search round rounds exclude in
    (round >>= λ lines. if mentions_excluded exclude lines then retry else pure lines) s
