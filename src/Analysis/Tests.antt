-- ===== src/Analysis/Tests.antt =====
-- Runs of the analyses of src/codegen.py, and their theorems at concrete inputs.
use xkernel.Analysis.Reads.{instruction_reads_register, is_call, mnemonic_of, is_argument}
use xkernel.Analysis.Reads.{mentions, family_regs, operand_str, reads_part}
use xkernel.Analysis.Reads.{asm_part, after_tab, last_of, reads_instruction, token_of}
use xkernel.Analysis.Reads.{first_token, but_last, is_write_only, name_at, reads_operands}
use xkernel.Analysis.Reads.{reads_other}
use xkernel.Base.{true, ◌↔◌, none, some, nat_eq, contains, get_elem?, All, ◌≤◌, ◌+◌, arith}
use xkernel.Base.{ℕ, ◌≡◌, refl, List, [], ◌∷◌, drop, keep, length, take, list_beq}
use xkernel.Analysis.Varying.{pure_constants, extract_varying_constant, normalize, extract_nums}
use xkernel.Analysis.Varying.{all_three, try_parse_pure, pure_base, take_while, is_hex, is_word}
use xkernel.Analysis.Varying.{starts_word}
use xkernel.Analysis.Varying.Laws.{DifferAt, extract_varying_constant_lem}
use xkernel.Analysis.Offsets.{extract_changed_offsets, entries_of, IsLaidOut}
use xkernel.Analysis.Offsets.{extract_changed_offsets-Covers, span_of_entries, add_sized}
use xkernel.Analysis.Offsets.{address_of, unmarked, lowest, end_of, last_entry}
use xkernel.Analysis.Compare.{Step, compare_expressions, indices_of, differ}
use xkernel.Analysis.Compare.{compare_expressions-differ}
use xkernel.Base.Int.{pos, ◌+ℤ◌, ◌-ℤ◌}
use xkernel.Analysis.Ranges.{find_changed_ranges, ranges_loop, expand}
use xkernel.Base.Text.{Text, text, starts_with, strip, rstrip, lstrip, parse_nat, before}
use xkernel.Base.Text.{is_space, lower, lower_char, map_option, parse_int, parse_signed}
use xkernel.Base.Text.{skip_prefix, is_digit, split, join, split_onto}
use xkernel.Analysis.Jump.{relative, Verdict, check_jump_optimizable, cover, get_insn_byte_count}
use xkernel.Analysis.Jump.{bytes_and_asm, at_colon, without_marker, at_tab, words, keep_word}
use xkernel.Analysis.Jump.{words_onto, conclude, first_relative, between, has_part, or_else}
use xkernel.Analysis.Jump.{second}
use xkernel.Analysis.Jump.Laws.{IsAbsolute, byte_count, covered_lines, has_bytes}
use xkernel.Analysis.Jump.Laws.{check_jump_optimizable_lem}
use xkernel.Asm.Operand.{cut, split_asm_operands, split_loop}
use xkernel.Base.Text.Number.{digit_value, parse_digits}
use xkernel.Asm.Register.{families}
use xkernel.Asm.Run.{base_mnemonic, is_suffix}
use xkernel.Base.Dict.{get, lookup}

abbrev indices : List ℕ
indices = 2 ∷ 3 ∷ 4 ∷ 7 ∷ 9 ∷ 10 ∷ []

ranges_run : find_changed_ranges indices ≡ (2, 4) ∷ (7, 7) ∷ (9, 10) ∷ []
unfolding find_changed_ranges ranges_loop
ranges_run = refl

-- `1: 90 90`, `2: 90 90 90` and `3: e8`.
abbrev lines : List Text
lines =
    (b'1' ∷ b':' ∷ 32 ∷ b'9' ∷ b'0' ∷ 32 ∷ b'9' ∷ b'0' ∷ [])
    ∷ (b'2' ∷ b':' ∷ 32 ∷ b'9' ∷ b'0' ∷ 32 ∷ b'9' ∷ b'0' ∷ 32 ∷ b'9' ∷ b'0' ∷ [])
    ∷ (b'3' ∷ b':' ∷ 32 ∷ b'e' ∷ b'8' ∷ [])
    ∷ []

jump_run : check_jump_optimizable lines 0 ≡ Verdict.optimizable 5
unfolding check_jump_optimizable cover get_insn_byte_count bytes_and_asm at_colon cut without_marker
    starts_with text strip rstrip lstrip at_tab words keep_word words_onto conclude first_relative
    between has_part or_else relative second list_beq digit_value parse_digits parse_nat before
    is_space lower lower_char map_option parse_int parse_signed skip_prefix
jump_run = refl

short_run : check_jump_optimizable lines 2 ≡ Verdict.too_short 1
unfolding check_jump_optimizable cover get_insn_byte_count bytes_and_asm at_colon cut without_marker
    starts_with text strip rstrip lstrip at_tab words keep_word words_onto
short_run = refl

check_jump_optimizable_example :
    let covered = covered_lines lines 0 in
    (5 ≤ 5)
    × (byte_count covered ≡ 5)
    × (covered ≡ take (length covered) (keep has_bytes (drop 0 lines)))
    × All IsAbsolute covered
check_jump_optimizable_example = check_jump_optimizable_lem lines 0 5 jump_run

-- `s>3`, `s>2` and `s>1`.
abbrev shift_by : ℕ → Text
shift_by digit = b's' ∷ b'>' ∷ digit ∷ []

shifts_not_pure : pure_constants (shift_by b'3') (shift_by b'2') (shift_by b'1') ≡ none
unfolding pure_constants all_three try_parse_pure parse_int parse_signed strip rstrip lstrip
    map_option parse_nat skip_prefix pure_base starts_with text
shifts_not_pure = refl

extract_varying_constant_lem_example :
    (extract_varying_constant (shift_by b'3') (shift_by b'2') (shift_by b'1')
      ≡ some (pos 3, pos 2, pos 1))
    ↔ ((normalize (shift_by b'3') ≡ normalize (shift_by b'2'))
        × (normalize (shift_by b'3') ≡ normalize (shift_by b'1'))
        × DifferAt
            (extract_nums (shift_by b'3'))
            (extract_nums (shift_by b'2'))
            (extract_nums (shift_by b'1'))
            3
            2
            1)
extract_varying_constant_lem_example =
    extract_varying_constant_lem (shift_by b'3') (shift_by b'2') (shift_by b'1') 3 2 1
      shifts_not_pure

-- `1: 90` and `2: 90 90`.
abbrev changed : List Text
changed =
    (b'1' ∷ b':' ∷ 32 ∷ b'9' ∷ b'0' ∷ [])
    ∷ (b'2' ∷ b':' ∷ 32 ∷ b'9' ∷ b'0' ∷ 32 ∷ b'9' ∷ b'0' ∷ [])
    ∷ []

changed_run : extract_changed_offsets changed ≡ some (1, 4)
unfolding extract_changed_offsets span_of_entries entries_of add_sized address_of starts_with text
    take_while unmarked strip rstrip lstrip is_hex is_digit parse_nat lowest end_of last_entry
    get_insn_byte_count at_colon at_tab bytes_and_asm keep_word without_marker words words_onto cut
    digit_value parse_digits before is_space
changed_run = refl

changed-IsLaidOut : IsLaidOut (entries_of changed)
unfolding entries_of add_sized address_of starts_with text take_while unmarked strip rstrip lstrip
    is_hex is_digit parse_nat get_insn_byte_count bytes_and_asm at_colon cut without_marker at_tab
    keep_word words words_onto digit_value parse_digits before is_space
changed-IsLaidOut = (omega arith, omega arith, omega arith)

extract_changed_offsets-Covers_example : All (λ e. (1 ≤ e.0) × (e.0 + e.1 ≤ 4)) (entries_of changed)
extract_changed_offsets-Covers_example =
    extract_changed_offsets-Covers changed 1 4 changed_run changed-IsLaidOut

abbrev step : ℕ → Step
step d = record { instruction = []; expressions = ((b'r' ∷ []), (d ∷ [])) ∷ [] }

compare_expressions-differ_example :
    contains
      (expand (
        find_changed_ranges
          (indices_of (compare_expressions (step 1 ∷ step 2 ∷ []) (step 1 ∷ step 3 ∷ [])))))
      1
    ≡ differ (get_elem? (step 1 ∷ step 2 ∷ []) 1) (get_elem? (step 1 ∷ step 3 ∷ []) 1)
compare_expressions-differ_example =
    compare_expressions-differ (step 1 ∷ step 2 ∷ []) (step 1 ∷ step 3 ∷ []) 1

-- A tab and `add %cx,x`.
abbrev reading_line : Text
reading_line = 9 ∷ b'a' ∷ b'd' ∷ b'd' ∷ 32 ∷ b'%' ∷ b'c' ∷ b'x' ∷ b',' ∷ b'x' ∷ []

reading_run : instruction_reads_register reading_line (text "cx") ≡ true
unfolding instruction_reads_register text reads_part asm_part strip rstrip lstrip after_tab split
    last_of reads_instruction is_call list_beq mnemonic_of lower token_of first_token words
    keep_word words_onto but_last family_regs is_argument is_write_only mentions name_at operand_str
    reads_operands reads_other is_word starts_word split_asm_operands split_loop families
    base_mnemonic is_suffix get lookup ◌+ℤ◌ ◌-ℤ◌ contains before is_digit is_space join lower_char
    split_onto starts_with
reading_run = refl
