-- ===== src/Boot/Ecp5/Selection.antt =====
-- tools/update_ecp5_bootram.py, `update`: the blocks that are chosen for the lanes.
use riscc.Prelude.{
  ℕ, zero, suc, ◌+◌, ◌<◌, ◌≤◌, ◌≡◌, ◌∙◌, ◌⊎◌, inl, inr, refl, sym, ap, true, false, not, List, [],
  ◌∷◌, arith, ◌==◌, Bool-cases,
}
use mathlib.Core.Path.{subst}
use riscc.Prelude.Lists.{length, get_or}
use riscc.Prelude.Result.{Result, ok, bind-ok, raise_if-ok}
use riscc.Fuzz.Random.{Fresh, Distinct}
use riscc.Boot.Ecp5.{
  Block, values_eq, matches_from, only, select_from, select, occurs, distinct_count, no_block,
  lanes, banks, banks_from, UpdateError, lanes_not_distinct,
}

values_eq-same : (values bank : List ℕ) → values_eq values bank ≡ true → values ≡ bank
unfolding values_eq
values_eq-same [] [] h = refl
values_eq-same [] (b ∷ bank) h = cc
values_eq-same (a ∷ values) [] h = cc
values_eq-same (a ∷ values) (b ∷ bank) h =
    let both : (a ≡ b) × (values_eq values bank ≡ true) = ground arith in
    rw (both.0, values_eq-same values bank (both.1)) refl

values_eq_self : (values : List ℕ) → values_eq values values ≡ true
unfolding values_eq
values_eq_self [] = refl
values_eq_self (a ∷ values) = ground (arith, values_eq_self values)

abbrev InList : ℕ → List ℕ → Type 0
InList n [] = ⊥
InList n (m ∷ ns) = (n ≡ m) ⊎ InList n ns

-- The values of the block at an index.
abbrev pub values_at : List Block → ℕ → List ℕ
values_at blocks index = (get_or blocks index no_block).values

matches_yes :
    (index : ℕ) (block : Block) (blocks : List Block) (bank : List ℕ)
    → values_eq block.values bank ≡ true
    → matches_from index (block ∷ blocks) bank ≡ index ∷ matches_from (index + 1) blocks bank
unfolding matches_from
matches_yes index block blocks bank e = rw e refl

matches_no :
    (index : ℕ) (block : Block) (blocks : List Block) (bank : List ℕ)
    → values_eq block.values bank ≡ false
    → matches_from index (block ∷ blocks) bank ≡ matches_from (index + 1) blocks bank
unfolding matches_from
matches_no index block blocks bank e = rw e refl

abbrev MatchesAt : ℕ → List Block → List ℕ → ℕ → Type 0
MatchesAt index blocks bank n =
    (k : ℕ) × (n ≡ index + k) × (k < length blocks) × (values_at blocks k ≡ bank)

found_later :
    (index : ℕ) (block : Block) (blocks : List Block) (bank : List ℕ) (n : ℕ)
    → MatchesAt (index + 1) blocks bank n
    → MatchesAt index (block ∷ blocks) bank n
found_later index block blocks bank n (k, at, low, same) =
    (suc k, omega (arith, at), omega (arith, low), same)

-- The matches are the indices, from the first on, of the blocks with these values.
match-found :
    (index : ℕ) (blocks : List Block) (bank : List ℕ) (n : ℕ)
    → InList n (matches_from index blocks bank)
    → MatchesAt index blocks bank n
unfolding matches_from
match-found index [] bank n h = elim h [ ]
match-found index (block ∷ blocks) bank n h = elim (Bool-cases (values_eq block.values bank)) [
  | inl e ↦ elim (subst (InList n) (matches_yes index block blocks bank e) h) [
    | inl here ↦ (0, omega (arith, here), omega arith, values_eq-same _ _ e)
    | inr there ↦
        found_later index block blocks bank n (match-found (index + 1) blocks bank n there)
  ]
  | inr e ↦ found_later index block blocks bank n (
      match-found (index + 1) blocks bank n
        (subst (InList n) (matches_no index block blocks bank e) h))
]

next_index : (index k : ℕ) → index + 1 + k ≡ index + suc k
next_index index k = omega arith

found-match :
    (index : ℕ) (blocks : List Block) (bank : List ℕ) (k : ℕ)
    → k < length blocks
    → values_at blocks k ≡ bank
    → InList (index + k) (matches_from index blocks bank)
unfolding matches_from
found-match index [] bank k low same = grind arith
found-match index (block ∷ blocks) bank zero low same =
    subst (InList (index + 0))
      (sym (
        matches_yes index block blocks bank
          (subst (λ v. values_eq block.values v ≡ true) same (values_eq_self block.values))))
      (inl (omega arith))
found-match index (block ∷ blocks) bank (suc k) low same =
    let later = found-match (index + 1) blocks bank k (omega (arith, low)) same in
    let shifted =
      subst (λ n. InList n (matches_from (index + 1) blocks bank)) (next_index index k) later in
    elim (Bool-cases (values_eq block.values bank)) [
      | inl e ↦
          subst (InList (index + suc k)) (sym (matches_yes index block blocks bank e)) (inr shifted)
      | inr e ↦ subst (InList (index + suc k)) (sym (matches_no index block blocks bank e)) shifted
    ]

-- The block at this index, and no other, has the values of the bank.
pub record OnlyMatch (blocks : List Block) (bank : List ℕ) (index : ℕ) : Type 0 where
  pub inside : index < length blocks
  pub matches : values_at blocks index ≡ bank
  pub unique : (k : ℕ) → k < length blocks → values_at blocks k ≡ bank → k ≡ index

only-one : (lane : ℕ) (ns : List ℕ) (index : ℕ) → only lane ns ≡ ok index → ns ≡ index ∷ []
only-one lane [] index h = cc
only-one lane (n ∷ []) index h = cc
only-one lane (n ∷ m ∷ ns) index h = cc

only-OnlyMatch :
    (lane : ℕ) (blocks : List Block) (bank : List ℕ) (index : ℕ)
    → only lane (matches_from 0 blocks bank) ≡ ok index
    → OnlyMatch blocks bank index
only-OnlyMatch lane blocks bank index h =
    let one = only-one lane (matches_from 0 blocks bank) index h in
    let (k, at, low, same) =
      match-found 0 blocks bank index (subst (InList index) (sym one) (inl refl)) in
    let e : k ≡ index = omega (arith, at) in
    record {
      inside = omega (arith, at, low);
      matches = ap (values_at blocks) (sym e) ∙ same;
      unique = λ j within equal.
          elim (subst (InList (0 + j)) one (found-match 0 blocks bank j within equal)) [
            | inl here ↦ omega (arith, here)
            | inr there ↦ elim there [ ]
          ];
    }

-- Each bank has its only match.
abbrev pub Matched : List Block → List (List ℕ) → List ℕ → Type 0
Matched blocks [] [] = Unit
Matched blocks [] (index ∷ selected) = ⊥
Matched blocks (bank ∷ old) [] = ⊥
Matched blocks (bank ∷ old) (index ∷ selected) =
    OnlyMatch blocks bank index × Matched blocks old selected

ok_value : (x y : List ℕ) → ◌≡◌ {A = Result UpdateError (List ℕ)} (ok x) (ok y) → x ≡ y
ok_value x y h = cc

select-Matched :
    (lane : ℕ) (old : List (List ℕ)) (blocks : List Block) (selected : List ℕ)
    → select_from lane old blocks ≡ ok selected
    → Matched blocks old selected
unfolding select_from
select-Matched lane [] blocks [] h = tt
select-Matched lane [] blocks (n ∷ selected) h = cc
select-Matched lane (bank ∷ old) blocks selected h =
    let (index, first, later) = bind-ok (only lane (matches_from 0 blocks bank)) _ h in
    let (rest, others, all) = bind-ok (select_from (lane + 1) old blocks) _ later in
    let same : index ∷ rest ≡ selected = ok_value (index ∷ rest) selected all in
    subst (Matched blocks (bank ∷ old)) same (
      only-OnlyMatch lane blocks bank index first,
      select-Matched (lane + 1) old blocks rest others,
    )

distinct_count-le : (ns : List ℕ) → distinct_count ns ≤ length ns
unfolding distinct_count
distinct_count-le [] = omega arith
distinct_count-le (n ∷ ns) = ground (arith, distinct_count-le ns)

not_occurs-Fresh : (n : ℕ) (ns : List ℕ) → occurs n ns ≡ false → Fresh n ns
not_occurs-Fresh n [] h = tt
not_occurs-Fresh n (m ∷ ns) h =
    let both : ¬ (n ≡ m) × (occurs n ns ≡ false) = ground arith in
    (both.0, not_occurs-Fresh n ns (both.1))

distinct_count-Distinct : (ns : List ℕ) → distinct_count ns ≡ length ns → Distinct ns
unfolding distinct_count
distinct_count-Distinct [] h = tt
distinct_count-Distinct (n ∷ ns) h =
    let both : (occurs n ns ≡ false) × (distinct_count ns ≡ length ns) =
      ground (arith, distinct_count-le ns) in
    (not_occurs-Fresh n ns (both.0), distinct_count-Distinct ns (both.1))

Matched-length :
    (blocks : List Block) (old : List (List ℕ)) (selected : List ℕ)
    → Matched blocks old selected
    → length selected ≡ length old
Matched-length blocks [] [] h = refl
Matched-length blocks [] (n ∷ selected) h = elim h [ ]
Matched-length blocks (bank ∷ old) [] h = elim h [ ]
Matched-length blocks (bank ∷ old) (n ∷ selected) (first, rest) =
    ap suc (Matched-length blocks old selected rest)

chosen-Matched :
    (old : List (List ℕ)) (blocks : List Block) (selected : List ℕ)
    → length old ≡ lanes
    → select old blocks ≡ ok selected
    → Matched blocks old selected × Distinct selected
unfolding select
chosen-Matched old blocks selected eight h =
    let (chosen, first, rest) = bind-ok (select_from 0 old blocks) _ h in
    let (count, same) =
      raise_if-ok (not (distinct_count chosen == lanes)) lanes_not_distinct (ok chosen) rest in
    let matched = select-Matched 0 old blocks chosen first in
    let all : distinct_count chosen ≡ length chosen =
      ground (arith, count, Matched-length blocks old chosen matched, eight) in
    subst (λ ns. Matched blocks old ns × Distinct ns) (ok_value chosen selected same)
      (matched, distinct_count-Distinct chosen all)

eight_banks : (words : List ℕ) → length (banks words) ≡ lanes
unfolding banks banks_from
eight_banks words = refl

-- If blocks are chosen for the banks of an image, each bank has the values of its block and of no
-- other, and the blocks are distinct.
pub select_lem :
    (words : List ℕ) (blocks : List Block) (selected : List ℕ)
    → select (banks words) blocks ≡ ok selected
    → Matched blocks (banks words) selected × Distinct selected
select_lem words blocks selected h =
    chosen-Matched (banks words) blocks selected (eight_banks words) h
