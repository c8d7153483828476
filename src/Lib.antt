-- ===== src/Lib.antt =====
-- Verification library of the Yosys F4PGA plugins.
--
-- The plugins are Yosys passes and Tcl commands in C++, one directory each. A pass reads and rewrites
-- RTLIL, the netlist of Yosys, which this repository does not contain: what a pass uses of it (SigMap,
-- RTLIL::Const, attributes, selections) is a parameter of the model, and cells, wires and signals are
-- records and lists of what the pass reads and writes.
--
-- Files:
--   Prelude           names of the libraries, tests, lists, integers, bit operations, texts, words,
--                     lines, failing steps and hashed containers
--   Lut/Table         truth tables: the index that the inputs' levels spell
--   Lut/Dedup         ql-qlf-plugin/ql_opt_lut_dedup.cc (OptLutDedupPass::execute)
--   Lut/Eqn           ql-qlf-plugin/quicklogic_eqn.cc (init2eqn, execute)
--   Bram/Types        ql-qlf-plugin/ql_bram_types.cc, ql_sdp_bram_types.cc, ql_bramecc_types.cc,
--                     ql_sdp_bramecc_types.cc (width_for_mode, execute)
--   Bram/Init         ql-qlf-plugin/pp3_braminit.cc (run_pp3_braminit, from the opened file on)
--   Sdc/Writer        sdc-plugin/sdc_writer.h and sdc_writer.cc, without WriteClocks
--   Sdc/Commands      sdc-plugin/set_false_path.cc, set_max_delay.cc, set_clock_groups.cc (execute),
--                     sdc.cc (which command is run, read_sdc from Tcl_EvalFile on)
--   Sdc/Clocks        sdc-plugin/clocks.cc, clocks.h (Clock, Clocks), sdc_writer.cc (WriteClocks)
--   Iob/Pinmap        ql-iob-plugin/pinmap_parser.cc (PinmapParser)
--   Iob/Pcf           ql-iob-plugin/pcf_parser.cc (PcfParser)
--   Iob/Locate        ql-iob-plugin/ql-iob.cc: cell specifications, maps, choosePinmapEntry
--   Iob/Cells         ql-iob-plugin/ql-iob.cc: execute
--   Introspection     design_introspection-plugin/get_count.cc, get_cmd.cc (ParseCommand)
--   Inverters         integrateinv-plugin/integrateinv.cc (the whole pass on a module)
--   Rules             dsp-ff-plugin/dsp_ff.cc: load_rules, the rules file
--   Registers         dsp-ff-plugin/dsp_ff.cc: ConnMap, checkFlop, getFlopData, processRegister,
--                     checkFlopDataAgainstDspRegister, and the loops of execute
--   Xdc               xdc-plugin/xdc.cc: set_property; common/utils.h: trim
--
-- Conventions. C++ ints that hold indices, widths and counters are natural numbers; where a
-- subtraction or a shift could leave the range, the file says why it does not. `log_error` and
-- `log_cmd_error` end the run, and are an outcome of their own. Log messages are not modelled.
-- Loops over collections are recursions on lists. Three loops take fuel: `while (any_changed)` of
-- opt_lut_dedup, the arguments of set_clock_groups, and the tokens of a line of pp3_braminit; more fuel
-- than there are LUT inputs, arguments or characters is enough, which is proved for each. A file is its
-- text, and a text a list of character codes.
--
-- Not modelled: clock propagation, buffers.cc and the other commands of sdc.cc; of xdc-plugin, get_iobanks
-- and the bank tiles; fasm-plugin, params-plugin and clockgating-plugin; of ql-qlf-plugin,
-- synth_quicklogic.cc, ql-edif.cc, ql_ioff.cc, ql_io_translate.cc, the DSP passes, and the passes that
-- split, merge and resize RAM blocks. They work on the whole netlist, or on the results of generated
-- pattern matchers. The SystemVerilog and UHDM front ends translate the object model of a library that
-- is not here, and the techmap libraries are Verilog.
pub mod Prelude
pub mod Bram
pub mod Introspection
pub mod Inverters
pub mod Iob
pub mod Lut
pub mod Registers
pub mod Rules
pub mod Sdc
pub mod Xdc
