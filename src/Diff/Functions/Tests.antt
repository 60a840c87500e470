-- ===== src/Diff/Functions/Tests.antt =====
-- A run of the search for a function in a small disassembly.
use xkernel.Base.{◌≡◌, refl, none, some, List, [], ◌∷◌, list_beq, contains}
use xkernel.Base.Int.{ℤ, pos, ◌-ℤ◌}
use xkernel.Base.Text.{Text, text, parse_int, parse_signed, strip, rstrip, lstrip, map_option}
use xkernel.Base.Text.{parse_nat, skip_prefix, starts_with, digit, show_nat, before, is_digit}
use xkernel.Base.Text.{is_space}
use xkernel.Diff.Functions.{FunctionInfo, find_function_for_address_in_file}
use xkernel.Diff.Functions.{detect_affected_functions, find_at, info_of, search_lines}
use xkernel.Diff.Functions.{search_line, search_kind, section_in, at_instruction, at_line}
use xkernel.Diff.Functions.{count_all, count_back, count_line, distance, ends_function, ends_text}
use xkernel.Diff.Functions.{function_info, inst_address, is_function, is_nearer, is_target}
use xkernel.Diff.Functions.{no_match, not_colon, or_end, read_address, scan_function_end}
use xkernel.Diff.Functions.{search_header, section_function, section_matches, starts_at}
use xkernel.Diff.Functions.{functions_at, changed_addresses, is_file_header, add_changed_address}
use xkernel.Diff.Functions.{add_name}
use xkernel.Diff.Functions.Found.{FoundIn, find_function_for_address-FoundIn}
use xkernel.Analysis.Varying.{is_hex, take_while}
use xkernel.Base.Text.Number.{digit_value, parse_digits, show_digits}
use xkernel.Diff.Instructions.{begins_space, function_header, indented_address, name_in}
use xkernel.Diff.Instructions.{not_closing, with_digits}
use xkernel.Diff.Lines.{after_spaces, later, split_address}
use xkernel.Diff.Block.Extract.{signed_address}

abbrev listing : List Text
listing =
    text "0 <__pfx_f>:"
    ∷ text " 0: 90 nop"
    ∷ text "1 <f>:"
    ∷ text " 1: 90 nop"
    ∷ text " 2: c3 ret"
    ∷ text "3 <g>:"
    ∷ text " 3: c3 ret"
    ∷ []

abbrev f_info : FunctionInfo
f_info = record {
  name = text "f";
  start_addr = text "1";
  end_addr = text "2";
  size = pos 1;
  instruction_count = 2;
}

f_found : find_function_for_address_in_file listing (text "2") none ≡ some f_info
unfolding find_function_for_address_in_file find_at parse_int parse_signed strip rstrip lstrip text
    map_option parse_nat skip_prefix info_of search_lines search_line search_kind section_in
    starts_with is_hex take_while ◌-ℤ◌ list_beq digit digit_value parse_digits show_digits show_nat
    before is_digit is_space at_instruction at_line count_all count_back count_line distance
    ends_function ends_text function_info inst_address is_function is_nearer is_target no_match
    not_colon or_end read_address scan_function_end search_header section_function section_matches
    starts_at begins_space function_header indented_address name_in not_closing with_digits
    after_spaces later split_address
f_found = refl

affected :
    detect_affected_functions (text "- 2: c3 ret" ∷ text "+ 2: 90 nop" ∷ []) listing ≡ text "f" ∷ []
unfolding detect_affected_functions functions_at changed_addresses starts_with text is_file_header
    add_changed_address signed_address lstrip begins_space split_address list_beq take_while is_hex
    is_digit add_name find_function_for_address_in_file ◌-ℤ◌ contains digit digit_value parse_digits
    parse_nat show_digits show_nat before is_space map_option parse_int parse_signed rstrip
    skip_prefix strip at_instruction at_line count_all count_back count_line distance ends_function
    ends_text find_at function_info info_of inst_address is_function is_nearer is_target no_match
    not_colon or_end read_address scan_function_end search_header search_kind search_line
    search_lines section_function section_in section_matches starts_at function_header
    indented_address name_in not_closing with_digits after_spaces later
affected = refl

find_function_for_address-FoundIn_example :
    (addr : ℤ) × (parse_int 16 (text "2") ≡ some addr) × FoundIn listing addr f_info
find_function_for_address-FoundIn_example =
    find_function_for_address-FoundIn listing (text "2") none f_info f_found
