-- ===== src/Sim/Cli.antt =====
-- tools/riscc_sim.py, `main`: the checks of the options, and the simulator that they make. The
-- parsing of the arguments, the files and the printing are left out.
use riscc.Prelude.{ℕ, ◌≡◌, Bool, not, ◌&&◌, ◌||◌, List, arith}
use riscc.Prelude.Result.{Result, ok, ◌>>◌, raise_if}
use riscc.Sim.State.{Options, Sim, make_profile, init}

-- The messages of `ap.error`.
pub data UsageError : Type 0 where
  min_and_full nano_and_profile mdu_without_full iflush_without_profile : UsageError

-- The options that choose the profile, and whether any of the UART's options is given.
pub record Arguments : Type 0 where
  pub min : Bool
  pub full : Bool
  pub mdu : Bool
  pub iflush : Bool
  pub nano : Bool
  pub trace : Bool
  pub uart : Bool

unfoldable pub check_arguments : Arguments → Result UsageError (Unit {0})
check_arguments a = do
  raise_if (a.min && a.full) min_and_full
  raise_if (a.nano && (a.min || a.full)) nano_and_profile
  raise_if (a.mdu && not a.full) mdu_without_full
  raise_if (a.iflush && (a.min || a.nano)) iflush_without_profile

abbrev pub options : Arguments → Options
options a = record {
  sys_tier = not a.min;
  full = a.full;
  mdu = a.mdu;
  nano = a.nano;
  trace = a.trace;
  uart = a.uart;
  iflush = a.iflush;
}

unfoldable pub make_sim : Arguments → List ℕ → List ℕ → Result UsageError Sim
unfolding check_arguments init
make_sim a image uart_in = check_arguments a >> ok (init image (options a) uart_in)

-- Every option of accepted arguments is honoured: the profile that the constructor derives has each
-- extension that was asked for and no other, the system tier unless Min or Nano was asked for, the
-- long jumps with the system tier, and the shifts in Nano and the full profile.
pub check_arguments_lem :
    (a : Arguments)
    → check_arguments a ≡ ok tt
    → ((make_profile (options a)).nano ≡ a.nano)
      × ((make_profile (options a)).full ≡ a.full)
      × ((make_profile (options a)).mdu ≡ a.mdu)
      × ((make_profile (options a)).iflush ≡ a.iflush)
      × ((make_profile (options a)).sys_tier ≡ not (a.min || a.nano))
      × ((make_profile (options a)).long_jall ≡ not (a.min || a.nano))
      × ((make_profile (options a)).shifts ≡ (a.nano || a.full))
unfolding check_arguments make_profile
check_arguments_lem a h = ground arith
