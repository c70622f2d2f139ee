-- ===== src/Fuzz/Shape.antt =====
-- tools/riscc_fuzz.py: the configurations that `parse_config` accepts.
use mathlib.Core.Path.{subst}
use riscc.Prelude.{
  ℕ, ◌≢◌, ◌∙◌, leb, ◌≡◌, refl, Bool, true, false, ◌&&◌, ◌||◌, List, [], ◌∷◌, inl, inr, arith, ◌==◌,
  ==_iff, Bool-cases,
}
use riscc.Prelude.Result.{Result, ok, err}
use riscc.Asm.Text.{Text, codes, text_eq}
use riscc.Asm.Preprocess.{member}
use riscc.Fuzz.Config.{Config, ConfigError, parse_config, partition, rc16_configs}

-- What both parts of a conjunction give.
and_parts : (p q : Bool) → (p && q) ≡ true → (p ≡ true) × (q ≡ true)
and_parts p q h = ground arith

or_right : (p q : Bool) → p ≡ false → (p || q) ≡ true → q ≡ true
or_right p q e h = ground arith

pub text_eq-eq : (s t : Text) → text_eq s t ≡ true → s ≡ t
unfolding text_eq
text_eq-eq [] [] h = refl
text_eq-eq [] (d ∷ t) h = cc
text_eq-eq (c ∷ s) [] h = cc
text_eq-eq (c ∷ s) (d ∷ t) h =
    let (same, rest) = and_parts (c == d) (text_eq s t) h in
    rw ((==_iff c d).0 same, text_eq-eq s t rest) refl

abbrev All : (Text → Type 0) → List Text → Type 0
All P [] = Unit
All P (d ∷ rest) = P d × All P rest

-- The five machines that the fuzzer can build a program for.
pub data Machine : Type 0 where
  min sys full full_mulh full_muldiv : Machine

abbrev pub machine_name : Machine → Text
machine_name min = codes "min"
machine_name sys = codes "sys"
machine_name full = codes "full"
machine_name full_mulh = codes "full-mulh"
machine_name full_muldiv = codes "full-muldiv"

-- The profile alone in each machine's name.
abbrev profile_name : Machine → Text
profile_name min = codes "min"
profile_name sys = codes "sys"
profile_name full = codes "full"
profile_name full_mulh = codes "full"
profile_name full_muldiv = codes "full"

-- How much a machine has: the system tier, the full profile, the multiplier, the divider, each with
-- what is before it.
abbrev pub tier : Machine → ℕ
tier min = 0
tier sys = 1
tier full = 2
tier full_mulh = 3
tier full_muldiv = 4

abbrev pub machine_config : Machine → Config
machine_config m = record {
  profile = profile_name m;
  sys = leb 1 (tier m);
  shifts = leb 2 (tier m);
  long_calls = leb 1 (tier m);
  full = leb 2 (tier m);
  mulhu = leb 3 (tier m);
  divu = leb 4 (tier m);
  mdu = leb 3 (tier m);
}

parse_name : (m : Machine) → parse_config (machine_name m) ≡ ok (machine_config m)
unfolding parse_config partition text_eq member
parse_name min = refl
parse_name sys = refl
parse_name full = refl
parse_name full_mulh = refl
parse_name full_muldiv = refl

-- A name among the names of some machines.
named :
    (c : Text) (ds : List Text)
    → All (λ d. (m : Machine) × (machine_name m ≡ d)) ds
    → member c ds ≡ true
    → (m : Machine) × (machine_name m ≡ c)
unfolding member
named c [] all h = cc
named c (d ∷ rest) ((m, e), others) h = elim (Bool-cases (text_eq d c)) [
  | inl same ↦ (m, e ∙ text_eq-eq d c same)
  | inr other ↦ named c rest others (or_right (text_eq d c) (member c rest) other h)
]

known_names : All (λ d. (m : Machine) × (machine_name m ≡ d)) rc16_configs
known_names =
    ((min, refl), ((sys, refl), ((full, refl), ((full_mulh, refl), ((full_muldiv, refl), tt)))))

-- What `parse_config` makes of a text: the configuration of the machine that it names, or an error
-- that has the text, which then names no machine.
abbrev pub IsParsed : Text → Result ConfigError Config → Type 0
IsParsed config (ok c) = (m : Machine) × (machine_name m ≡ config) × (c ≡ machine_config m)
IsParsed config (err e) =
    ((m : Machine) → machine_name m ≢ config) × (e ≡ ConfigError.unknown_config config)

known : (m : Machine) → member (machine_name m) rc16_configs ≡ true
unfolding member text_eq
known min = refl
known sys = refl
known full = refl
known full_mulh = refl
known full_muldiv = refl

rejected :
    (config : Text) → member config rc16_configs ≡ false → (m : Machine) → machine_name m ≢ config
rejected config h m same =
    let listed : member config rc16_configs ≡ true =
      subst (λ c. member c rc16_configs ≡ true) same (known m) in
    cc

unknown :
    (config : Text)
    → member config rc16_configs ≡ false
    → parse_config config ≡ err (ConfigError.unknown_config config)
unfolding parse_config
unknown config e = rw e refl

-- Of each name of a machine `parse_config` makes its configuration; every other text it rejects, and
-- the error has the text.
pub parse_config-IsParsed : (config : Text) → IsParsed config (parse_config config)
parse_config-IsParsed config = elim (Bool-cases (member config rc16_configs)) [
  | inl e ↦
      let (m, same) = named config rc16_configs known_names e in
      subst (λ c. IsParsed c (parse_config c)) same (rw (parse_name m) (m, refl, refl))
  | inr e ↦ rw (unknown config e) (rejected config e, refl)
]
