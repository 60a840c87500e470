-- ===== src/Lib.antt =====
-- Xkernel changes the value of a constant of a running kernel. Its Python part (the directory src/)
-- finds where a build of the kernel uses a constant, keeps what it found in five tables under
-- /dev/shm/xkernel, and loads or unloads the BPF programs that change the value. This library
-- models parts of that Python code.
--
-- Files:
-- - Base: numbers, text, dictionaries and results of calls, as Python has them.
-- - Tables: the five tables. Tables/Index is get_or_add_cs_index and get_or_add_ss_index of
--   src/codegen.py; Tables/Scope is next_const_id, remove_constid_entries and
--   add_scope_table_entry_multi_cs; Tables/Single is add_scope_table_entry;
--   Tables/Raw is add_cs_raw_entry and add_ss_raw_entry;
--   Tables/Query is src/table.py with _collect_constids_to_delete of src/cli.py; Tables/Status is
--   update_status, update_status_by_file and update_all_status of src/cli.py.
-- - Asm: the symbolic execution of x86 instructions, class SymbolicExecutor of src/codegen.py.
--   Asm/Register is get_base_register and get_register_family; Asm/Operand is get_anonymous_reg,
--   parse_operand and _split_asm_operands; Asm/Execute and Asm/Arith are the branches of
--   execute_instruction, and Asm/Run its chain of tests and run_symbolic_exec_on_instructions;
--   Asm/Effects is get_written_effects, get_read_effects, get_instruction_effects and
--   filter_changed_instructions_by_effects. Asm/Sound compares the expressions with a register
--   machine whose values and operations are any, and Asm/Sound/Lines does so for the lines of a
--   block; a name stands there for its base register, so that the width of a sub-register is left
--   out, as it is in the source.
-- - Analysis: the comparison of builds. Analysis/Ranges is find_changed_ranges and
--   Analysis/Jump is get_insn_byte_count and check_jump_optimizable of src/codegen.py;
--   Analysis/Compare is compare_expressions, Analysis/Varying is extract_varying_constant,
--   Analysis/Offsets is extract_bb_offsets and extract_changed_offsets, and Analysis/Reads is
--   instruction_reads_register.
-- - Runtime: the loading and unloading of ConstIDs. Runtime/Maps is the writing of BPF maps and
--   their discovery, get_map_info_for_constid and bump_epoch of src/loader.py; Runtime/Unload is
--   unload_constid and _reverse_transition_single of src/cli.py; Runtime/Stop is cmd_unload,
--   _cleanup_bpf_pins, _unload_kfuncs_module and _unload_active_constids; Runtime/Spans is the
--   loading of critical and safe spans; Runtime/SpanFiles is generate_cs_file and generate_ss_file;
--   Runtime/Load is resolve_constid_to_bpf, generate_cs_artifact_header, ensure_kfuncs_loaded and
--   load_and_attach_per_constid; Runtime/Start is cmd_load; Runtime/Delete
--   is cmd_table up to its call of src/table.py. Runtime/Keeps, Runtime/Ensures and
--   Runtime/Returns are rules for actions.
--   Runtime/JumpOpt is try_jump_optimization, check_kprobe_optimized and patch_bpf_sec_offset of
--   src/loader.py; Runtime/JumpOpt/Listing says what the kernel's list shows, apart from the code, and
--   Runtime/JumpOpt/Reached which states of the outside a run goes through.
-- - Diff: the comparison of two disassemblies, src/diff.py. Diff/Lines reads a line of objdump;
--   Diff/Signature is normalize_instruction_for_comparison; Diff/Filter is
--   filter_address_offset_diff; Diff/Functions is find_function_for_address_in_file,
--   detect_affected_functions_from_diff and parse_functions_from_disassembly; Diff/Instructions is
--   parse_instructions_from_disassembly; Diff/Block is find_basic_block_for_address, and
--   Diff/Block/Extract the loop of main over the changed instructions; Diff/Offsets is
--   parse_vmlinux_diff_with_offsets and find_next_instruction_offset; Diff/LineSet is
--   parse_lines_argument.
-- - Blocks: the files of basic blocks that src/codegen.py reads. Blocks/Parse is parse_instruction,
--   parse_basic_block and extract_immediate_values; Blocks and Blocks/Offsets are
--   extract_all_basic_blocks_from_file and extract_function_base_from_bb_file; Blocks/Info is
--   extract_function_info_from_bb_file; Blocks/Translate is
--   translate_kprobe_offsets_to_vmlinux.
-- - Config: src/config.py, the tunables of a file and, in Config/Backfill, the safe spans that an
--   analysis fills in.
-- - Gen: src/gen.py, which runs src/diff.py and keeps what it says of the blocks.
--
-- Outside. What bpftool, the kernel modules, the kernel's log, the clock and the file system answer
-- is a parameter, the record Host: any function of a state of its own that each call may change. A
-- world is the runtime state file, the tables, the two span files, the guards of
-- cs_artifact.bpf.h, the log of the commands given, and the host's state. An action takes a world
-- and gives the world after it, also where it raises or leaves the program. The runtime state file
-- holds JSON as save_runtime_state wrote it, or none; bpftool prints JSON of the shape that it
-- documents. The loop that polls for a reverse transition for thirty seconds has sixty-one turns of
-- fuel, and its end raises an exception of the model's own, `unfinished`. With a clock that a sleep
-- of half a second moves on by half a second the fuel is enough: each turn but the last sleeps, which
-- uses the thirty seconds up. With a clock that stands still and a log that says nothing, the loop of
-- the source does not end.
--
-- The same holds for the other parts: a Toolchain is what compiling, loading and the list of kprobes
-- answer over a state of its own; an Analysis is what the checkout of the analysis has; the
-- disassemblies of the running kernel, the commands that src/gen.py runs, and a document that
-- tomllib has read are arguments. A disassembly is the list of its lines.
--
-- State. A table is what Python's csv module reads from its file: no file, or a list of rows of
-- cells. That the module reads back the rows that it wrote is assumed. The status updates of
-- src/cli.py split lines at tabs themselves; their rows are rows whose cells need no quotes. An
-- operation takes the tables and returns the tables after it, or the exception that it raises. The
-- executor is a record of the fields of its class. An expression, which the source holds as the
-- text of an f-string, is a term that `show` prints.
--
-- Text is a list of code points. Spaces, case and decimal digits are those of ASCII, and `int`
-- takes no underscore; `str.isdigit` also takes the digits that are no decimal digits, which `int`
-- refuses, and leaves out the decimal digits of other scripts. The other loops are recursion on a
-- list or on a number that the source counts, so that no fuel is needed.
--
-- Not modelled: printing, the parsing of the other command lines, the descriptions that
-- execute_instruction returns for the log, the linear fits over several builds, which are in floating
-- point, the listing of what is loaded, the loading of all
-- programs at once, the text of cs_artifact.bpf.h (its guards are data), the generation of C code,
-- and the builds: the calls of make, git, objdump and diff.
pub mod Base
pub mod Tables
pub mod Asm
pub mod Analysis
pub mod Runtime
pub mod Config
pub mod Diff
pub mod Blocks
pub mod Gen
