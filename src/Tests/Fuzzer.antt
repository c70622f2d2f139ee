-- ===== src/Tests/Fuzzer.antt =====
-- The theorems on tools/riscc_fuzz.py at concrete inputs, with a small random source.
use riscc.Prelude.{
  ℕ, zero, suc, ◌+◌, ◌*◌, ◌%◌, ◌^◌, ◌<◌, ◌≤◌, ◌≡◌, ◌↔◌, refl, ap, List, [], ◌∷◌, ◌++◌, true, false,
  Option, some, arith,
}
use native.Mathlib.Nat.{mod-lt, one-le-pow}
use riscc.Prelude.Lists.{length}
use riscc.Prelude.Int.{pos}
use riscc.Prelude.Result.{Result, ok}
use riscc.Asm.Text.{Text, codes}
use riscc.Asm.Preprocess.{member}
use riscc.Asm.Text.{text_eq}
use riscc.Sim.State.{Sim, init}
use riscc.Fuzz.Campaign.{campaign_seeds, campaign_cores, campaign_status}
use riscc.Fuzz.Campaign.Exit.{campaign_status-passes}
use riscc.Fuzz.Config.{Config, parse_config, partition}
use riscc.Fuzz.Shape.{IsParsed, parse_config-IsParsed}
use riscc.Fuzz.Rc16.Operands.{DividesDefined, op_divu-DividesDefined}
use riscc.Fuzz.Rc16.Product.{MultipliesDefined, op_mulhu-MultipliesDefined}
use riscc.Fuzz.Compare.{Completed}
use riscc.Fuzz.Compare.Args.{sim_base_args, sim_trace_args, interrupt_supported}
use riscc.Fuzz.Compare.Trace.{compare_trace, compare_final_state}
use riscc.Fuzz.Compare.Agreement.{passes}
use riscc.Fuzz.Compare.Agreement.Trace.{TraceAgrees, compare_trace_iff}
use riscc.Fuzz.Compare.Agreement.Final.{FinalAgrees, compare_final_state_iff}
use riscc.Fuzz.Search.{search}
use riscc.Fuzz.Search.Rounds.{ReturnedBy, simple_op-attempts}
use riscc.Fuzz.Nano
use riscc.Fuzz.Rc32
use riscc.Fuzz.Rc16
use riscc.Fuzz.Random.{Random, GenState, AllBelow, Fresh, Distinct}

-- The numbers from `first` on.
abbrev count_up : ℕ → ℕ → List ℕ
count_up first zero = []
count_up first (suc n) = first ∷ count_up (suc first) n

count_up-length : (first n : ℕ) → length (count_up first n) ≡ n
count_up-length first zero = refl
count_up-length first (suc n) = ap suc (count_up-length (suc first) n)

count_up-AllBelow : (first n bound : ℕ) → first + n ≤ bound → AllBelow bound (count_up first n)
count_up-AllBelow first zero bound h = tt
count_up-AllBelow first (suc n) bound h =
    (omega (arith, h), count_up-AllBelow (suc first) n bound (omega (arith, h)))

count_up-Fresh : (x first n : ℕ) → x < first → Fresh x (count_up first n)
count_up-Fresh x first zero h = tt
count_up-Fresh x first (suc n) h =
    (omega (arith, h), count_up-Fresh x (suc first) n (omega (arith, h)))

count_up-Distinct : (first n : ℕ) → Distinct (count_up first n)
count_up-Distinct first zero = tt
count_up-Distinct first (suc n) =
    (count_up-Fresh first (suc first) n (omega arith), count_up-Distinct (suc first) n)

-- A linear congruential generator.
abbrev next : ℕ → ℕ
next s = (s * 1103515245 + 12345) % 2 ^ 31

abbrev congruential : Random
congruential = record {
  Source = ℕ;
  seed = λ n. n;
  random = λ s. (s * 2 ^ 22, next s);
  randrange = λ n s. (s % n, next s);
  sample = λ n k s. (count_up 0 k, next s);
  getrandbits = λ k s. (s % 2 ^ k, next s);
  getrandbits-lt = λ k s. mod-lt s {m = 2 ^ k} (one-le-pow k 2 (omega arith));
  randrange-lt = λ n s h. mod-lt s h;
  sample-length = λ n k s h. count_up-length 0 k;
  sample-AllBelow = λ n k s h. count_up-AllBelow 0 k n (omega (arith, h));
  sample-Distinct = λ n k s h. count_up-Distinct 0 k;
}

abbrev begin : ℕ → GenState ℕ
begin n = record { rng = n; label = 0 }

abbrev muldiv : Config
muldiv = record {
  profile = codes "full";
  sys = true;
  shifts = true;
  long_calls = true;
  full = true;
  mulhu = true;
  divu = true;
  mdu = true;
}

parse_config-IsParsed_example : IsParsed (codes "full-muldiv") (ok muldiv)
unfolding parse_config partition text_eq member
parse_config-IsParsed_example = parse_config-IsParsed (codes "full-muldiv")

-- The first round from this state draws `ADD r4, r5, r2`.
abbrev byte_load : List Text
byte_load =
    codes "    LDI16 r7, 0xFC00"
    ∷ codes "    LDI   r0, 57"
    ∷ codes "    ADD   r0, r7, r0"
    ∷ codes "    LDB   r3, [r0]"
    ∷ []

abbrev round : GenState ℕ → Option (List Text × GenState ℕ)
round = Nano.simple_lines congruential (some (codes "r4"))

simple_op-attempts_example :
    ((Rc16.simple_op congruential muldiv 2 (some (codes "r4")) (begin 1)
        ≡ some (byte_load, begin 267834847))
      ↔ ReturnedBy congruential muldiv 2
          (some (codes "r4"))
          (begin 1)
          (begin 267834847)
          byte_load
          (Rc16.simple_lines congruential muldiv))
    × ((Nano.simple_op congruential 2 (some (codes "r4")) (begin 1)
          ≡ some (byte_load, begin 267834847))
        ↔ ReturnedBy congruential muldiv 2
            (some (codes "r4"))
            (begin 1)
            (begin 267834847)
            byte_load
            (Nano.simple_lines congruential (some (codes "r4"))))
    × ((Rc32.simple_op congruential muldiv 2 (some (codes "r4")) (begin 1)
          ≡ some (byte_load, begin 267834847))
        ↔ ReturnedBy congruential muldiv 2
            (some (codes "r4"))
            (begin 1)
            (begin 267834847)
            byte_load
            (Rc32.simple_lines congruential muldiv))
simple_op-attempts_example =
    simple_op-attempts congruential muldiv 2 (some (codes "r4")) (begin 1) (begin 267834847)
      byte_load

second_round : search round 2 (some (codes "r4")) (begin 1) ≡ some (byte_load, begin 267834847)
unfolding search Nano.simple_lines Nano.op_alu Nano.op_imm Nano.op_shift Nano.op_mem text_eq
second_round = refl

abbrev divider : Sim
divider =
    init []
      (record {
        sys_tier = true;
        full = true;
        mdu = true;
        nano = false;
        trace = false;
        uart = false;
        iflush = false;
      })
      []

abbrev division : List Text
division =
    codes "    LDI16 r1, 0x002A"
    ∷ codes "    LDI16 r2, 0xD768"
    ∷ codes "    LDI16 r3, 0x013B"
    ∷ codes "    DIVU  r1, r2, r3"
    ∷ []

op_divu-DividesDefined_example : DividesDefined divider 7 division
unfolding Rc16.op_divu init
op_divu-DividesDefined_example =
    op_divu-DividesDefined divider 7 refl congruential muldiv (begin 5) (begin 2089129857) division
      refl

abbrev multiplication : List Text
multiplication =
    codes "    LDI16 r2, 0x1A8B" ∷ codes "    LDI16 r3, 0xD768" ∷ codes "    MULHU r1, r2, r3" ∷ []

op_mulhu-MultipliesDefined_example : MultipliesDefined divider 7 multiplication
unfolding Rc16.op_mulhu init
op_mulhu-MultipliesDefined_example =
    op_mulhu-MultipliesDefined divider 7 refl congruential muldiv (begin 5) (begin 2089129857)
      multiplication refl

-- Both runs end like this.
abbrev agreeing : List Text → Completed
agreeing args = record {
  returncode = pos 0;
  stdout = codes "TRACE 0\nMEM 1\nMARKER cycle=200\nPASS\n";
  stderr = [];
}

abbrev no_crc : Text → ℕ
no_crc t = 0

abbrev sim_args : List Text
sim_args = codes "sim" ∷ codes "a.bin" ∷ []

compare_trace_iff_example :
    (passes (
        compare_trace congruential agreeing no_crc
          (codes "sim")
          (codes "rc16-8")
          (codes "rc16")
          (codes "sys")
          3
          (codes "a.bin")
          (codes "tb"))
      ≡ true)
    ↔ TraceAgrees congruential agreeing no_crc
        (codes "sim")
        (codes "rc16-8")
        (codes "rc16")
        (codes "sys")
        3
        (codes "a.bin")
        (codes "tb")
        (agreeing [])
        (agreeing [])
        true
unfolding sim_trace_args interrupt_supported
compare_trace_iff_example =
    compare_trace_iff congruential agreeing no_crc (codes "sim") (codes "rc16-8") (codes "rc16")
      (codes "sys") 3 (codes "a.bin") (codes "tb")
      (sim_args ++ (codes "--trace" ∷ codes "--dump-written" ∷ [])) true refl refl

compare_final_state_iff_example :
    (passes (
        compare_final_state congruential agreeing no_crc
          (codes "sim")
          (codes "fast-dsp")
          (codes "rc16")
          (codes "sys")
          3
          (codes "a.bin")
          (codes "tb"))
      ≡ true)
    ↔ FinalAgrees congruential agreeing no_crc
        (codes "sim")
        (codes "fast-dsp")
        (codes "rc16")
        (codes "sys")
        3
        (codes "a.bin")
        (codes "tb")
        (agreeing [])
        (agreeing [])
        true
unfolding sim_base_args interrupt_supported
compare_final_state_iff_example =
    compare_final_state_iff congruential agreeing no_crc (codes "sim") (codes "fast-dsp")
      (codes "rc16") (codes "sys") 3 (codes "a.bin") (codes "tb") sim_args true refl refl

agreement_passes :
    passes (
      compare_trace congruential agreeing no_crc
        (codes "sim")
        (codes "rc16-8")
        (codes "rc16")
        (codes "sys")
        3
        (codes "a.bin")
        (codes "tb"))
    ≡ true
unfolding compare_trace
agreement_passes = refl

abbrev saved_image : ℕ → Text → Text → Result Text Text
saved_image seed family config = ok (codes "a.bin")

abbrev built_bench : Text → Text → Text → Result Text Text
built_bench core family config = ok (codes "tb")

campaign_status-passes_example :
    campaign_status {E = Text} congruential agreeing no_crc
      (codes "sim")
      saved_image
      built_bench
      (codes "rc16")
      (some (codes "rc16-8" ∷ codes "fast-dsp" ∷ []))
      3
      2
      (codes "sys" ∷ [])
    ≡ 0
unfolding compare_trace compare_final_state campaign_seeds campaign_cores
campaign_status-passes_example =
    campaign_status-passes {E = Text} congruential agreeing no_crc (codes "sim") saved_image
      built_bench (codes "rc16") (some (codes "rc16-8" ∷ codes "fast-dsp" ∷ [])) 3 2
      (codes "sys" ∷ [])
