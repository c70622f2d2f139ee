-- ===== src/Asm/Cli.antt =====
-- tools/riscc_asm.py, `main`: the symbols that the options define, and the assembly with them. The
-- parsing of the arguments and the files are left out.
use riscc.Prelude.{
  ℕ, ◌≡◌, refl, Bool, true, false, not, ◌&&◌, ◌||◌, List, [], ◌∷◌, ◌++◌, if◌then◌else◌,
}
use riscc.Prelude.Result.{Result, ok, ◌>>=◌, ◌>>◌, raise_if, raise_if-ok, bind-ok}
use riscc.Asm.Text.{Text, codes, text_eq}
use riscc.Asm.Expr.{AsmError, mdu_profile, iflush_profile, Python}
use riscc.Asm.Preprocess.{member, define_name}
use riscc.Asm.Layout.{assemble}

pub data AsmProfile : Type 0 where
  min sys full nano : AsmProfile

pub record Arguments : Type 0 where
  pub profile : AsmProfile
  pub mdu : Bool
  pub iflush : Bool
  pub define : List Text

abbrev pub is_sys : AsmProfile → Bool
is_sys sys = true
is_sys _ = false

abbrev pub is_full : AsmProfile → Bool
is_full full = true
is_full _ = false

-- `f"RISCC_{args.profile.upper()}"`
abbrev pub profile_symbol : AsmProfile → Text
profile_symbol min = codes "RISCC_MIN"
profile_symbol sys = codes "RISCC_SYS"
profile_symbol full = codes "RISCC_FULL"
profile_symbol nano = codes "RISCC_NANO"

-- `{define_name(name) for name in args.define}`
unfoldable pub define_names : List Text → Result AsmError (List Text)
unfolding define_name
define_names [] = ok []
define_names (t ∷ rest) = define_name t >>= λ name. define_names rest >>= λ names. ok (name ∷ names)

-- A set of symbols is a list, of which only the membership is used.
abbrev pub added_symbols : Arguments → List Text
added_symbols a =
    profile_symbol a.profile
    ∷ ((if is_full a.profile then codes "RISCC_SYS" ∷ [] else [])
        ++ ((if a.mdu
              then codes "RISCC_MDU" ∷ codes "RISCC_MULHU" ∷ codes "RISCC_DIVU" ∷ []
              else [])
            ++ (if a.iflush then codes "RISCC_IFLUSH" ∷ [] else [])))

unfoldable pub symbols : Arguments → Result AsmError (List Text)
unfolding define_names
symbols a = do
  given ← define_names a.define
  raise_if (a.mdu && not (is_full a.profile)) mdu_profile
  raise_if (a.iflush && not (is_sys a.profile || is_full a.profile)) iflush_profile
  ok (added_symbols a ++ given)

unfoldable pub main_image : Python → Arguments → List Text → Result AsmError (List ℕ)
unfolding symbols assemble
main_image py a lines = symbols a >>= λ defines. assemble py lines defines a.iflush

-- What accepted options say, and the set that they make.
pub symbols-ok :
    (a : Arguments) {defines : List Text}
    → symbols a ≡ ok defines
    → (given : List Text) × (define_names a.define ≡ ok given)
      × ((a.mdu && not (is_full a.profile)) ≡ false)
      × ((a.iflush && not (is_sys a.profile || is_full a.profile)) ≡ false)
      × (defines ≡ added_symbols a ++ given)
unfolding symbols
symbols-ok a {defines} h =
    let (given, e, h₁) = bind-ok (define_names a.define) _ h in
    let (m, h₂) = raise_if-ok (a.mdu && not (is_full a.profile)) mdu_profile _ h₁ in
    let (i, h₃) =
      raise_if-ok (a.iflush && not (is_sys a.profile || is_full a.profile)) iflush_profile _ h₂ in
    (given, e, m, i, cc)

profile_known :
    (p : AsmProfile) (iflush : Bool) (rest : List Text)
    → (iflush && not (is_sys p || is_full p)) ≡ false
    → (iflush
        && not (
            member (codes "RISCC_SYS") (profile_symbol p ∷ rest)
            || member (codes "RISCC_FULL") (profile_symbol p ∷ rest)))
      ≡ false
unfolding member text_eq
profile_known min true rest h = cc
profile_known nano true rest h = cc
profile_known sys true rest h = refl
profile_known full true rest h = or_true (member (codes "RISCC_SYS") rest)
  where
    or_true : (b : Bool) → not (b || true) ≡ false
    or_true true = refl
    or_true false = refl
profile_known min false rest h = refl
profile_known sys false rest h = refl
profile_known full false rest h = refl
profile_known nano false rest h = refl

-- With the symbols that `main` defines, the profile check of `assemble` does not raise.
symbols-profile :
    (a : Arguments) {defines : List Text}
    → symbols a ≡ ok defines
    → (a.iflush && not (member (codes "RISCC_SYS") defines || member (codes "RISCC_FULL") defines))
      ≡ false
symbols-profile a h =
    let (given, e, m, i, d) = symbols-ok a h in rw d (profile_known a.profile a.iflush _ i)
