-- ===== src/Fuzz/Search/Rounds.antt =====
-- tools/riscc_fuzz.py, `simple_op`: the lines that its `while True` returns.
use mathlib.Core.Path.{subst}
use riscc.Prelude.{
  ℕ, zero, suc, ◌<◌, ◌≡◌, ◌∙◌, ◌↔◌, refl, Bool, true, false, List, Option, none, some, arith, inl,
  inr, Bool-cases, if◌then◌else◌,
}
use riscc.Asm.Text.{Text}
use riscc.Fuzz.Random.{Draw, GenState, Random, and_then, pure}
use riscc.Fuzz.Config.{Config}
use riscc.Fuzz.Rc16
use riscc.Fuzz.Nano
use riscc.Fuzz.Rc32
use riscc.Fuzz.Search.Mentions.{Avoids, Avoids-iff, not_Avoids-iff}
use riscc.Fuzz.Search.{search, mentions_excluded}

module _ {S : Type 0} (round : Draw S (List Text)) (exclude : Option Text) where
  -- The result of a search has no line that mentions the excluded register.
  abbrev Excludes : Option (List Text × GenState S) → Type 0
  Excludes none = Unit
  Excludes (some (lines, s)) = mentions_excluded exclude lines ≡ false

  -- What a drawn piece leads to.
  abbrev settled : ℕ → Option (List Text × GenState S) → Option (List Text × GenState S)
  settled rounds drawn =
      and_then drawn (λ lines.
        if mentions_excluded exclude lines then search round rounds exclude else pure lines)

  settled-Excludes :
      (rounds : ℕ)
      → ((s : GenState S) → Excludes (search round rounds exclude s))
      → (drawn : Option (List Text × GenState S)) → Excludes (settled rounds drawn)
  settled-Excludes rounds h none = tt
  settled-Excludes rounds h (some (lines, s)) =
      elim (Bool-cases (mentions_excluded exclude lines)) [ inl e ↦ rw e (h s) | inr e ↦ rw e e ]

  -- The lines that `search` returns do not mention the excluded register.
  search-Excludes : (rounds : ℕ) (s : GenState S) → Excludes (search round rounds exclude s)
  unfolding search
  search-Excludes zero s = tt
  search-Excludes (suc rounds) s = settled-Excludes rounds (search-Excludes rounds) (round s)

  -- The `while True` as a relation: the lines of the round with this number, and the state after it,
  -- when they do not mention the excluded register, and those of every round before it do.
  pub data Attempts : GenState S → ℕ → List Text → GenState S → Type 0 where
    returned :
        {s s' : GenState S} {lines : List Text}
        → round s ≡ some (lines, s')
        → Avoids exclude lines
        → Attempts s 0 lines s'
    again :
        {s s₁ s' : GenState S} {drawn lines : List Text} {n : ℕ}
        → round s ≡ some (drawn, s₁)
        → (¬ Avoids exclude drawn)
        → Attempts s₁ n lines s'
        → Attempts s (suc n) lines s'

  attempts-found :
      {s' : GenState S} {lines : List Text} (rounds n : ℕ) (s : GenState S)
      → n < rounds
      → Attempts s n lines s'
      → search round rounds exclude s ≡ some (lines, s')
  unfolding search
  attempts-found zero n s h found = grind arith
  attempts-found (suc rounds) n s h (returned {lines = lines} drawn accepted) =
      rw (drawn, (Avoids-iff exclude lines).1 accepted) refl
  attempts-found (suc rounds) _ s h (again {s₁ = s₁} {drawn = l} {n = n} drawn refused later) =
      rw (drawn, (not_Avoids-iff exclude l).1 refused)
        (attempts-found rounds n s₁ (omega arith) later)

  -- A state and lines that some round before this number returns.
  abbrev FoundBefore : ℕ → GenState S → List Text → GenState S → Type 0
  FoundBefore rounds s lines s' = (n : ℕ) × (n < rounds) × Attempts s n lines s'

  one_more :
      {s s₁ s' : GenState S} {drawn lines : List Text} (rounds : ℕ)
      → round s ≡ some (drawn, s₁)
      → mentions_excluded exclude drawn ≡ true
      → FoundBefore rounds s₁ lines s'
      → FoundBefore (suc rounds) s lines s'
  one_more {drawn = l} rounds drawn refused (n, h, later) =
      (suc n, omega arith, again drawn ((not_Avoids-iff exclude l).0 refused) later)

  -- What the conditional of a round takes, its test known.
  chosen :
      {test : Bool} (b : Bool) (lines : List Text) (retry : Draw S (List Text)) (s : GenState S)
      (r : Option (List Text × GenState S))
      → test ≡ b
      → (if test then retry else pure lines) s ≡ r
      → (if b then retry else pure lines) s ≡ r
  chosen b lines retry s r e h = subst (λ t. (if t then retry else pure lines) s ≡ r) e h

  at_once :
      {s s₁ s' : GenState S} {l lines : List Text} (rounds : ℕ)
      → round s ≡ some (l, s₁)
      → mentions_excluded exclude l ≡ false
      → ◌≡◌ {A = Option (List Text × GenState S)} (some (l, s₁)) (some (lines, s'))
      → FoundBefore (suc rounds) s lines s'
  at_once {l = l} {lines = lines} rounds e accepted same =
      let lines_same : l ≡ lines = cc in
      (
        0,
        omega arith,
        returned (e ∙ same) (
            (Avoids-iff exclude lines).0
              (subst (λ x. mentions_excluded exclude x ≡ false) lines_same accepted)),
      )

  settled-found :
      {s s' : GenState S} {lines : List Text} (rounds : ℕ)
      → ((s₁ : GenState S)
          → search round rounds exclude s₁ ≡ some (lines, s')
          → FoundBefore rounds s₁ lines s')
      → (drawn : Option (List Text × GenState S)) → round s ≡ drawn
      → settled rounds drawn ≡ some (lines, s')
      → FoundBefore (suc rounds) s lines s'
  settled-found rounds earlier none e h = cc
  settled-found rounds earlier (some (l, s₁)) e h =
      elim (Bool-cases (mentions_excluded exclude l)) [
        | inl refused ↦
            one_more rounds e refused
              (earlier s₁ (chosen true l (search round rounds exclude) s₁ _ refused h))
        | inr accepted ↦
            at_once rounds e accepted (chosen false l (search round rounds exclude) s₁ _ accepted h)
      ]

  found-attempts :
      {s' : GenState S} {lines : List Text} (rounds : ℕ) (s : GenState S)
      → search round rounds exclude s ≡ some (lines, s')
      → FoundBefore rounds s lines s'
  unfolding search
  found-attempts zero s h = cc
  found-attempts (suc rounds) s h = settled-found rounds (found-attempts rounds) (round s) refl h

  search-attempts :
      (rounds : ℕ) (s s' : GenState S) (lines : List Text)
      → (search round rounds exclude s ≡ some (lines, s'))
        ↔ ((n : ℕ) × (n < rounds) × Attempts s n lines s')
  search-attempts rounds s s' lines =
      (found-attempts rounds s, λ (n, h, found). attempts-found rounds n s h found)

module _ (R : Random) (cfg : Config) (rounds : ℕ) (exclude : Option Text)
    (s s' : GenState (R.Source)) (lines : List Text) where
  -- In fewer rounds than are given, the `while True` over this round returns the lines.
  abbrev pub ReturnedBy : Draw (R.Source) (List Text) → Type 0
  ReturnedBy round = (n : ℕ) × (n < rounds) × Attempts round exclude s n lines s'

  -- In each of the three generators, `simple_op` returns lines in a state exactly when they are those
  -- of the first of its rounds in whose lines the excluded register is neither before a comma nor
  -- at the end of a line, white space left aside; without a register to exclude, of the first round.
  pub simple_op-attempts :
      ((Rc16.simple_op R cfg rounds exclude s ≡ some (lines, s'))
        ↔ ReturnedBy (Rc16.simple_lines R cfg))
      × ((Nano.simple_op R rounds exclude s ≡ some (lines, s'))
          ↔ ReturnedBy (Nano.simple_lines R exclude))
      × ((Rc32.simple_op R cfg rounds exclude s ≡ some (lines, s'))
          ↔ ReturnedBy (Rc32.simple_lines R cfg))
  unfolding Rc16.simple_op Nano.simple_op Rc32.simple_op
  simple_op-attempts = (
    search-attempts (Rc16.simple_lines R cfg) exclude rounds s s' lines,
    search-attempts (Nano.simple_lines R exclude) exclude rounds s s' lines,
    search-attempts (Rc32.simple_lines R cfg) exclude rounds s s' lines,
  )
