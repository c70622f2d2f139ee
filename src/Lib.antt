-- ===== src/Lib.antt =====
-- RISC-C host tools: the instruction-set simulator, the assembler, the differential fuzzer and the
-- memory file tools.
--
-- The repository defines a 16-bit processor. Its host tools in Python are modelled here: the
-- simulator tools/riscc_sim.py, which executes an image one architectural step at a time, the
-- assembler tools/riscc_asm.py, which makes an image of a source text, and the fuzzer
-- tools/riscc_fuzz.py, which generates programs and compares the runs of a core and of a simulator.
-- The assembler's words are the simulator's instructions, and the modules of Toolchain join the two.
--
-- Prelude, and the modules below it, hold what all parts share: tests on native numbers, bit
-- operations by splitting, integers over the native numbers, lists, and computations that may raise.
--
-- Simulator (tools/riscc_sim.py):
--   Sim.State     the fields of class Sim (a record), `__init__`, `service_uart`, `uart_irq`, `sx8`,
--                 `sx16`. A list of words is a function of the index, which the source masks.
--   Sim.Memory    `load_word`, `store_word`, `ldb`, `stb`, with the test and UART registers.
--   Sim.Alu       the values of the register-format operations, and the reasons of `Undefined`.
--   Sim.Exec      the groups of instructions of `step`: long, memory, immediate, branch, multiply and
--                 divide, control and system.
--   Sim.Register  the register format and the dispatch between the formats.
--   Sim.Step      `emit_trace` and `step`: UART service, interrupt entry, fetch, instruction.
--   Sim.Run       `run`. The callback is given by its answer to each of its calls.
--   Sim.Cli       the checks of the options in `main`, and the simulator that they make.
--   Sim.Framebuffer  `framebuffer_pixels`.
--   Proofs: Sim.Memory.Bytes and Roundtrip, Sim.Alu.Shifts and Words, Sim.Exec.Mdu,
--   Sim.Register.Alias, Sim.Step.Interrupt and Entry (when a step is an interrupt), Sim.Bounds (the
--   widths of the state), Sim.Frame (what an instruction leaves alone), Sim.Progress (what a step counts), and Sim.Run.Rounds, Termination and
--   Reach (the loop). A step that raises returns the reason; the half-changed state that Python keeps
--   at that point is not modelled. Trace lines are values in a list.
--
-- Assembler (tools/riscc_asm.py):
--   Asm.Text        Python's text operations, on lists of ASCII code points.
--   Asm.Source      `strip_comment`, `split_operands`.
--   Asm.Expr        `AsmError`, `parse_string`, `eval_expr`. Python's parser is a parameter.
--   Asm.Syntax      the tables of mnemonics, registers and sections, and `Item`.
--   Asm.Encode      the range checks, `parse_mem`, `insn_size` and the field encoders.
--   Asm.Insn        `encode_insn`, one function for each group of mnemonics.
--   Asm.Preprocess  `define_name`, `preprocess_source`.
--   Asm.Parse       `parse_source`: labels, directives, instructions.
--   Asm.Layout      `layout_sections`, `final_label_map`, `emit_item`, `assemble`.
--   Asm.Cli         the symbols that the options of `main` define.
--   Proofs: Asm.Encode.Fields, Asm.Insn.Size and Asm.Parse.Fits (sizes), Asm.Preprocess.Lines and
--   Blocks, Asm.Layout.Sizes, Places and Image. The errors keep their reason; their texts and line
--   numbers are left out.
--
-- Fuzzer (tools/riscc_fuzz.py):
--   Fuzz.Format   Python's text formatting, as far as the generators use it.
--   Fuzz.Config   the constants and `parse_config`.
--   Fuzz.Random   the random source, and the methods of a generator as functions of its state. The
--                 source is a parameter, a record with what the documentation of Python's `random`
--                 says of `randrange`, `sample` and `getrandbits`; `random()` counts units of 2 ** -53,
--                 and a probability stands as the least number of units that is not below it.
--   Fuzz.Search   the `while True` of `simple_op`, on so many rounds.
--   Fuzz.Lines    the lines that two generators share.
--   Fuzz.Rc16     class `Gen`: its pieces; below it Isa (`supported_isa_ops`), Body (the blocks and
--                 `body`) and Program (`check_reg`, `emit`).
--   Fuzz.Nano     class `NanoGen`, and Fuzz.Rc32 class `RC32Gen`, in the same modules.
--   Fuzz.Compare  `compare_trace` and `compare_final_state`: Args (the command lines), Output (the
--                 lines of an output), Checks and Trace. A subprocess is a parameter: a function from
--                 its arguments to its return code and outputs.
--   Fuzz.Campaign  `main`: the checks of the arguments, the choice of configurations and cores, and a
--                 campaign's stages, counters and exit status. `make_case` and `build_tb` are
--                 parameters.
--   Proofs: Fuzz.Shape (`parse_config`), Fuzz.Search.Mentions and Rounds, Fuzz.Rc16.Registers,
--   Operands and Product (the drawn DIVU and MULHU in the assembler and the simulator),
--   Fuzz.Compare.Same, Fuzz.Compare.Agreement and Fuzz.Campaign.Exit.
--
-- Memory files:
--   Boot.Memh     tools/bin_to_memh.py: the words of an image, and the text of both formats.
--   Boot.Ecp5     tools/update_ecp5_bootram.py: `image`, `banks`, `replacement`, and of `update` the
--                 choice of the blocks and the new text. The blocks are given as the regular
--                 expressions find them.
--   Proofs: Boot.Memh.Words and Load, Boot.Ecp5.Lanes, Image, Selection and Splice.
--
-- Toolchain.Decode, Inversion, Alu, Branch, Immediate and Access say what the simulator does on the
-- assembler's words. Tests holds a small parser, a program that is assembled and run, and concrete
-- machines.
--
-- Fuel: `Sim.run` runs on fuel, one round of its loop each; Sim.Run.Termination says how much is
-- enough. `label_loop` has the length of its line and one more as fuel, and each label shortens the
-- line. `simple_op` runs on rounds, and gives no result when they are used up; Fuzz.Search.Rounds
-- relates them to the loop without a bound. The digits of a number have the number as fuel, which each
-- round divides.
--
-- Not modelled: argument parsing, files and printing of the tools, the framebuffer window and the PNG
-- writer, the fuzzer's cases and test benches, the drivers of external tools, the C++ simulator, the
-- hardware and the firmware.
pub mod Prelude
pub mod Sim
pub mod Asm
pub mod Toolchain
pub mod Fuzz
pub mod Boot
pub mod Tests
