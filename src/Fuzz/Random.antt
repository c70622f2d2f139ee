-- ===== src/Fuzz/Random.antt =====
-- tools/riscc_fuzz.py: the source of random numbers, and what the methods of a generator do: they
-- draw from it, make labels, and may give up.
use riscc.Prelude.{
  ◌^◌, ℕ, ◌+◌, ◌-◌, ◌<◌, ◌≤◌, ◌≡◌, Bool, List, [], ◌∷◌, ◌++◌, Option, none, some, zero, suc, ltb,
}
use riscc.Prelude.Lists.{length, get_or}
use riscc.Asm.Text.{Text, codes}
use riscc.Fuzz.Format.{cat, decimal}

-- Every number of a list is below a bound, and none occurs twice.
abbrev pub AllBelow : ℕ → List ℕ → Type 0
AllBelow n [] = Unit
AllBelow n (x ∷ xs) = (x < n) × AllBelow n xs

abbrev pub Fresh : ℕ → List ℕ → Type 0
Fresh x [] = Unit
Fresh x (y ∷ ys) = ¬ (x ≡ y) × Fresh x ys

abbrev pub Distinct : List ℕ → Type 0
Distinct [] = Unit
Distinct (x ∷ xs) = Fresh x xs × Distinct xs

-- Python's `random.Random`: `random()` in units of 2 ** -53, `randrange(n)`,
-- `sample(range(n), k)` and `getrandbits(k)`, with what its documentation says of them.
pub record Random : Type 1 where
  pub Source : Type 0
  pub seed : ℕ → Source
  pub random : Source → ℕ × Source
  pub randrange : ℕ → Source → ℕ × Source
  pub sample : ℕ → ℕ → Source → List ℕ × Source
  pub getrandbits : ℕ → Source → ℕ × Source
  pub getrandbits-lt : (k : ℕ) (s : Source) → (getrandbits k s).0 < 2 ^ k
  pub randrange-lt : (n : ℕ) (s : Source) → 0 < n → (randrange n s).0 < n
  pub sample-length : (n k : ℕ) (s : Source) → k ≤ n → length (sample n k s).0 ≡ k
  pub sample-AllBelow : (n k : ℕ) (s : Source) → k ≤ n → AllBelow n (sample n k s).0
  pub sample-Distinct : (n k : ℕ) (s : Source) → k ≤ n → Distinct (sample n k s).0

-- The fields `rng` and `label` of a generator.
pub record GenState (S : Type 0) : Type 0 where
  pub rng : S
  pub label : ℕ

-- A method returns, or is still in a `while True` when its rounds are used up.
abbrev pub Draw {ℓ} : Type 0 → Type ℓ → Type ℓ
Draw S A = GenState S → Option (A × GenState S)

abbrev pub pure {ℓ} : {S : Type 0} {A : Type ℓ} → A → Draw S A
pure a s = some (a, s)

abbrev pub and_then {ℓ κ} :
    {S : Type 0} {A : Type ℓ} {B : Type κ}
    → Option (A × GenState S)
    → (A → Draw S B)
    → Option (B × GenState S)
and_then none next = none
and_then (some (a, s)) next = next a s

abbrev pub ◌>>=◌ {ℓ κ} :
    {S : Type 0} {A : Type ℓ} {B : Type κ} → Draw S A → (A → Draw S B) → Draw S B
◌>>=◌ first next s = and_then (first s) next

infixl 5 ◌>>=◌
-- `for _ in range(count): lines += m()`
unfoldable pub times : {S : Type 0} → ℕ → Draw S (List Text) → Draw S (List Text)
times zero m = pure []
times (suc count) m = m >>= λ lines. times count m >>= λ more. pure (lines ++ more)

-- `k < 0.35` and the like, `k` in units of 2 ** -53: the least number of units that is not below.
abbrev pub under : ℕ → ℕ → Bool
under k bound = ltb k bound

abbrev pub p35 : ℕ
p35 = 3152519739159347

abbrev pub p40 : ℕ
p40 = 3602879701896397

abbrev pub p45 : ℕ
p45 = 4053239664633447

abbrev pub p48 : ℕ
p48 = 4323455642275676

abbrev pub p50 : ℕ
p50 = 4503599627370496

abbrev pub p55 : ℕ
p55 = 4953959590107546

abbrev pub p60 : ℕ
p60 = 5404319552844595

abbrev pub p65 : ℕ
p65 = 5854679515581645

abbrev pub p66 : ℕ
p66 = 5944751508129055

abbrev pub p70 : ℕ
p70 = 6305039478318694

abbrev pub p72 : ℕ
p72 = 6485183463413514

abbrev pub p75 : ℕ
p75 = 6755399441055744

abbrev pub p76 : ℕ
p76 = 6845471433603154

abbrev pub p80 : ℕ
p80 = 7205759403792794

abbrev pub p82 : ℕ
p82 = 7385903388887613

abbrev pub p85 : ℕ
p85 = 7656119366529843

abbrev pub p90 : ℕ
p90 = 8106479329266893

abbrev pub p91 : ℕ
p91 = 8196551321814303

abbrev pub p95 : ℕ
p95 = 8556839292003942

-- `"r%d" % n`
abbrev pub reg_name : ℕ → Text
reg_name n = cat (codes "r" ∷ decimal n ∷ [])

module _ (R : Random) where
  abbrev pub Method {ℓ} : Type ℓ → Type ℓ
  Method A = Draw (R.Source) A

  abbrev drawn {ℓ} : {A : Type ℓ} → ℕ → A × R.Source → Option (A × GenState (R.Source))
  drawn label (a, rng) = some (a, record { rng = rng; label = label })

  abbrev pub random : Method ℕ
  random s = drawn s.label (R.random s.rng)

  abbrev pub randrange : ℕ → Method ℕ
  randrange n s = drawn s.label (R.randrange n s.rng)

  abbrev pub sample : ℕ → ℕ → Method (List ℕ)
  sample n k s = drawn s.label (R.sample n k s.rng)

  abbrev pub getrandbits : ℕ → Method ℕ
  getrandbits k s = drawn s.label (R.getrandbits k s.rng)

  -- `randint(low, high)` of numbers that are not negative.
  abbrev pub randint : ℕ → ℕ → Method ℕ
  randint low high = randrange (high - low + 1) >>= λ k. pure (low + k)

  -- `choice(options)`
  abbrev pub choice {ℓ} : {A : Type ℓ} → A → List A → Method A
  choice default options = randrange (length options) >>= λ k. pure (get_or options k default)

  -- `"%s_%d" % (stem, label)`
  unfoldable pub new_label : Text → Method Text
  unfolding decimal
  new_label stem s =
      some (cat (stem ∷ codes "_" ∷ decimal (s.label + 1) ∷ []), record s { label = s.label + 1 })

  -- `self.reg()`
  abbrev pub reg : Method Text
  reg = randint 1 6 >>= λ n. pure (reg_name n)
