-- ===== src/Fuzz/Config.antt =====
-- tools/riscc_fuzz.py: `parse_config`, the constants of the generated programs, and
-- `interrupt_supported`.
use riscc.Prelude.{ℕ, Bool, not, ◌||◌, List, [], ◌∷◌, if◌then◌else◌, ◌==◌}
use riscc.Prelude.Result.{Result, ok, err}
use riscc.Asm.Text.{Text, codes, text_eq, is_empty}
use riscc.Asm.Preprocess.{member}

abbrev pub win : ℕ
win = 0xfc00

abbrev pub win_words : ℕ
win_words = 32

abbrev pub nano_scratch : ℕ
nano_scratch = 0xfb00

abbrev pub test_irq : ℕ
test_irq = 0xfffa

abbrev pub result_addr : ℕ
result_addr = 0xfffe

abbrev pub irq_marker : ℕ
irq_marker = 0x7ef0

abbrev pub fail_base : ℕ
fail_base = 0x0b00

abbrev pub rc32_win : ℕ
rc32_win = 0xfc00

abbrev pub rc32_win_words : ℕ
rc32_win_words = 16

abbrev pub rc16_configs : List Text
rc16_configs =
    codes "min" ∷ codes "sys" ∷ codes "full" ∷ codes "full-mulh" ∷ codes "full-muldiv" ∷ []

pub record Config : Type 0 where
  pub profile : Text
  pub sys : Bool
  pub shifts : Bool
  pub long_calls : Bool
  pub full : Bool
  pub mulhu : Bool
  pub divu : Bool
  pub mdu : Bool

pub data ConfigError : Type 0 where
  unknown_config : Text → ConfigError

-- `config.partition("-")`, without the separator.
unfoldable pub partition : Text → Text × Text
partition [] = ([], [])
partition (c ∷ t) =
    let (before, after) = partition t in if c == b'-' then ([], t) else (c ∷ before, after)

unfoldable pub parse_config : Text → Result ConfigError Config
unfolding member partition text_eq
parse_config config =
    let (profile, extension) = partition config in
    if not (member config rc16_configs)
    then err (unknown_config config)
    else ok (record {
      profile = profile;
      sys = not (text_eq profile (codes "min"));
      shifts = text_eq profile (codes "full");
      long_calls = text_eq profile (codes "sys") || text_eq profile (codes "full");
      full = text_eq profile (codes "full");
      mulhu = text_eq extension (codes "mulh") || text_eq extension (codes "muldiv");
      divu = text_eq extension (codes "muldiv");
      mdu = not (is_empty extension);
    })
