-- ===== src/Fuzz/Compare.antt =====
-- tools/riscc_fuzz.py: the comparison of a core's run with the simulator's. The subprocess runs,
-- `zlib.crc32` and the random source are parameters.
pub mod Output
pub mod Args
pub mod Agreement
pub mod Same
pub mod Checks
pub mod Trace
use riscc.Prelude.{ℕ, ◌+◌, Bool, List, [], ◌∷◌, ◌++◌}
use riscc.Prelude.Int.{ℤ}
use riscc.Asm.Text.{Text}
use riscc.Fuzz.Config.{ConfigError}

-- A finished subprocess.
pub record Completed : Type 0 where
  pub returncode : ℤ
  pub stdout : Text
  pub stderr : Text

-- What a comparison raises: a configuration that `parse_config` rejects, or `[-1]` of no line.
pub data CompareError : Type 0 where
  config_error : ConfigError → CompareError
  no_last_line : CompareError

-- The tuple that a comparison returns.
pub record Verdict : Type 0 where
  pub passed : Bool
  pub detail : Text
  pub iss_output : Text
  pub rtl_output : Text
