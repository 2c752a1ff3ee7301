-- ===== src/Lib.antt =====
-- arc-tests: benchmarks that run on RISC-V cores simulated by Arcilator and by Verilator. The driver of a
-- core (rocket/rocket-main.cpp) loads an ELF file, steps the simulated designs in lockstep, compares their
-- ports, and plays the memory and the devices on the other side of two AXI ports. The program that runs on the
-- core (benchmarks/) talks to the driver through the words `tohost` and `fromhost`.
--
-- The parts, and what models them:
--   Prelude   numbers, tests, lists, words of 8, 32 and 64 bits, and the bit operations.
--   Axi       `AxiPort` of rocket/rocket-main.cpp with the structures of rocket/rocket-model.h. `update_a` and
--             `update_b` are functions of the port and of the state `S` that the closures behind it share.
--             Cycle has one round of the driver for one port, and logs what passes on its channels.
--   Host      the driver's memory: the loader's loop over segments (Loader), and the four closures behind the
--             ports (Device), over a record `Host` of the memory, `finished` and the console. Consistent sets the port
--             with plain memory against a memory of words, and Endless is about segments that are too large.
--   Guest     the runtime of the benchmarks, benchmarks/common/syscalls.c: `syscall` over a bus (Syscall),
--             the string functions (Strings, Copy), numbers (Number), `printstr`, `putchar` and `exit` (Stdio),
--             `vprintfmt` (Format), whose variable arguments are a list of 64-bit values, `printf` and
--             `sprintf` (Print), and `atol` (Atol). Barrier is `barrier` of benchmarks/common/util.h: threads on
--             shared variables, and a run is the list of the threads in the order in which they act.
--             Util has the other functions of that file, and Startup `setStats`, `init_tls`, `thread_entry` and `_init`
--             of syscalls.c, where the registers, the linker's addresses and the program's `main` are parameters.
--   Console   the two sides together: a guest whose bus is the driver's device: what its lines
--             and texts make the driver print (Strings, Lines, Chunks, Text), up to its end (Ending).
--   Driver    `ComparingRocketModel` (Compare, Trace) and the loop of `main` (Loop), over a `Design`: a record of the
--             operations of `RocketModel`; Widths and Aborts have the states that the loop goes through. Args has the command
--             line, Dispatch the virtual calls on objects of two classes, and Main puts `main` together, from the arguments
--             to the exit.
--   Models    the classes that implement `RocketModel` and `BoomModel`, rocket/rocket-model-arc.cpp and its
--             siblings. They wrap a `Generated` model: its signals, and a hidden state that only the evaluation
--             sees, which Arcilator or Verilator generates and which is a parameter, as are the widths of its fields.
--             Contract has what the drivers rely on in a class; Lockstep brings the two models of a core and the drivers together.
--   Boom      boom/boom-main.cpp, the driver of another core: translated again from its own text, on the state of
--             the modules Axi, Host and Driver, and compared with the driver of Rocket (Same, Ends).
--   Dhrystone the benchmark of benchmarks/dhrystone: its procedures on numbers, arrays and texts (Scalars), those on
--             records (Records), the loop over the runs (Run), and `main` around it (Measure), whose clock is a parameter.
--   Riscinator the driver of a third core, riscinator/riscinator-main.cpp: byte enables and indices (Words), the
--             simulation with its memory (Simulate), the tests (Check), the programs that they load (Image) and
--             `main` (Main, Exit), over a record `Core` of the operations of the model that Arcilator generates.
--             Riscinator/Verilator is riscinator/riscinator-verilator-main.cpp, over a record `VCore` of what the
--             driver uses of the class that Verilator generates.
--
-- Integers are natural numbers. Where the code's type has w bits, what it computes is taken modulo 2 ^ w. A
-- pointer is the number of its first byte. An assertion that fails is `none`. The memory of the driver is a
-- function from the keys of its `std::map` to an optional word; a read that inserts a zero is a write of
-- it.
--
-- Loops on fuel: the string functions take the number of rounds, and one more than the text has characters is
-- enough. `send_words` has 9: eight words and the last test. The digits of `printnum` have 64, the size of its
-- array. `vprintfmt` takes one round for each conversion and each other character. `wait` polls as often as it
-- is told; the driver answers the first poll. The loop of `main` takes its limit as an argument, which the
-- program sets to a million. The inner loops of Dhrystone run at most twice and test once more: fuel 3 is
-- enough. Its measurements are counted down from a number that is given, and one is enough while the clock goes
-- on. The cycles of Riscinator are counted down from the limit that the code gives. `verify` takes a round for
-- each pair, and one more. The loops of `_init` are those of `memcpy`, `memset`, `vprintfmt` and `strlen`, with
-- one fuel.
--
-- Not modelled: of the drivers, the times, the text of their messages and the format of the traces, which the
-- tools write; a trace is the list of the samples taken. ELFIO is a vendored library, and the loader takes from
-- it the list of the segments, or that a file cannot be opened. The image of Dhrystone for Riscinator, machine
-- code in riscinator/dhrystone_mem.h, is a parameter of its test. A `main` whose loader never ends, at a
-- segment of 4 gigabytes or more, is `none`, as is one of Riscinator on a failed assertion; an exception that
-- nobody catches is `aborted`. The shifts of `AxiPort::update_a` on `int` are undefined for beats of 32 bytes
-- and more, which no bus of 64 bits has; the mask of the model is then not cut. In `barrier` the accesses of a
-- thread take effect in the order of its code. Of Dhrystone, what `debug_printf` is given is left out, for it
-- does nothing. Its texts stand for arrays of characters, `strcpy` is an assignment of a text, and `strcmp` is
-- the difference of two texts, as in Guest.Cstring. Its two records are named by the order of their allocation.
pub mod Prelude
pub mod Axi
pub mod Host
pub mod Guest
pub mod Console
pub mod Driver
pub mod Dhrystone
pub mod Riscinator
pub mod Boom
pub mod Models
