-- ===== src/Diff/Tests.antt =====
-- Runs of src/diff.py, and its theorems at concrete inputs.
use xkernel.Base.{ℕ, zero, suc, arith, ◌-◌, ◌≡◌, refl, inl, inr, none, some, List, [], ◌∷◌, ◌++◌}
use xkernel.Base.{false, contains, nat_eq, list_beq, ◌≢◌}
use xkernel.Base.Int.{pos, ◌-ℤ◌}
use xkernel.Base.Text.{Text, text, split, strip, is_space, is_digit, starts_with, parse_nat}
use xkernel.Base.Text.{lstrip, join, before, rstrip, parse_int, parse_signed, map_option}
use xkernel.Base.Text.{skip_prefix, split_onto, lower, lower_char}
use xkernel.Diff.Lines.{extract_instruction_bytes, extract_mnemonic, after_spaces, later}
use xkernel.Diff.Lines.{split_address, joined, behind_address, at_rest, skip_sign, bytes_run}
use xkernel.Diff.Lines.{nonempty, hex_or_space, after_bytes, lower_word, is_lower}
use xkernel.Diff.Lines.{is_basic_block_terminator}
use xkernel.Diff.Signature.{normalize_instruction_for_comparison, is_offset_inst}
use xkernel.Diff.Signature.Moved.{IsAt, diff_line, normalize-moved, SameJump, HasOpcode}
use xkernel.Diff.Signature.Moved.{mnemonic_at, bytes_at}
use xkernel.Diff.Filter.{is_minus, is_plus, filter_address_offset_diff}
use xkernel.Diff.Filter.Entries.{lines_with}
use xkernel.Diff.Filter.Matching.{filter_address_offset_diff-counts}
use xkernel.Diff.Instructions.{parse_instructions_from_disassembly, begins_space}
use xkernel.Diff.Instructions.{instructions_from, add_line, label_header, function_header}
use xkernel.Diff.Instructions.{with_digits, add_addressed, indented_address, add_instruction}
use xkernel.Diff.Instructions.{add_label, ends_block, labels_of, name_in, not_closing}
use xkernel.Diff.Block.{label_at, ends_at, find_basic_block_for_address}
use xkernel.Diff.Block.Named.{find_basic_block_for_address-named}
use xkernel.Diff.Block.Extract.{Changed, extract_basic_blocks, is_diff_header, signed_address}
use xkernel.Diff.Block.Extract.{index_of_line}
use xkernel.Diff.Block.Extract.Stays.{Settled, key_of}
use xkernel.Diff.Block.Extract.Covers.{block_for, Stands, extract_basic_blocks-Settled}
use xkernel.Diff.Offsets.{find_next_instruction_offset, extract_function_start, addresses}
use xkernel.Diff.Offsets.{find_next_instruction_offset_lem, or_next, start_in, if_found}
use xkernel.Diff.Offsets.{exact_name, line_address, spaced}
use xkernel.Diff.LineSet.{parse_lines_argument, IsSorted, names_line, parse_lines_argument_lem}
use xkernel.Diff.LineSet.{add_parts, add_part, part_bounds, single, natural, add_range, bounds_of}
use xkernel.Diff.LineSet.{in_order, insert_line}
use xkernel.Analysis.Varying.{is_hex, take_while}
use xkernel.Analysis.Jump.{keep_word, words, words_onto}
use xkernel.Base.Text.Number.{digit_value, parse_digits}

-- The bytes of a line take hexadecimal letters of the mnemonic with them.
bytes_spill : extract_instruction_bytes (text "- 1: 90 cmp") ≡ some (text "90 c")
unfolding extract_instruction_bytes joined behind_address at_rest split_address list_beq take_while
    lstrip skip_sign text is_hex is_digit starts_with after_spaces later bytes_run nonempty
    hex_or_space keep_word words words_onto is_space join
bytes_spill = refl

-- The last byte of a line that only goes on with bytes is read as a mnemonic if it is a letter.
mnemonic_run : extract_mnemonic (text "- 1: 00 ff") ≡ some (text "ff")
unfolding extract_mnemonic behind_address at_rest split_address list_beq take_while lstrip skip_sign
    text is_hex is_digit starts_with after_spaces later after_bytes lower_word nonempty is_lower
    is_space
mnemonic_run = refl

abbrev diff_lines : List Text
diff_lines = text "@@ -1 +1 @@" ∷ text "- 1: 90 nop" ∷ text "- 2: 90 nop" ∷ text "+ 5: 90 nop" ∷ []

filter_address_offset_diff-counts_example :
    (lines_with is_minus (text "nop:none") (filter_address_offset_diff diff_lines)
      ≡ lines_with is_minus (text "nop:none") diff_lines
        - lines_with is_plus (text "nop:none") diff_lines)
    × (lines_with is_plus (text "nop:none") (filter_address_offset_diff diff_lines)
        ≡ lines_with is_plus (text "nop:none") diff_lines
          - lines_with is_minus (text "nop:none") diff_lines)
filter_address_offset_diff-counts_example =
    filter_address_offset_diff-counts (text "nop:none") diff_lines

removed : IsAt b'-' (32 ∷ []) (b'1' ∷ [])
unfolding is_space is_hex is_digit
removed = record {
  signed = inl refl;
  spaced = (refl, tt);
  addressed = (refl, tt);
  nonempty = λ e. cc;
}

added : IsAt b'+' [] (b'f' ∷ b'0' ∷ [])
unfolding is_hex is_digit
added = record {
  signed = inr refl;
  spaced = tt;
  addressed = (refl, (refl, tt));
  nonempty = λ e. cc;
}

abbrev jump : Text
jump = text " eb 05 jmp 8"

abbrev moved_jump : Text
moved_jump = text " eb 07 jmp b"

no_0f : lower (text "eb") ≢ text "0f"
unfolding lower lower_char text
no_0f e = cc e

two_jumps : SameJump jump moved_jump
unfolding is_offset_inst starts_with text bytes_at joined after_spaces is_space later bytes_run
    nonempty take_while hex_or_space is_hex is_digit join words keep_word words_onto mnemonic_at
    after_bytes lower_word is_lower contains list_beq lower lower_char
two_jumps = record {
  mnemonic = text "jmp";
  is_jump = refl;
  first_byte = b'e';
  first_byte' = b'e';
  bytes_str = b'b' ∷ 32 ∷ text "05";
  bytes_str' = b'b' ∷ 32 ∷ text "07";
  opcode_bytes = text "eb" ∷ [];
  left = refl;
  right = refl;
  named = refl;
  named' = refl;
  code = HasOpcode.short_jump (text "eb") (text "05") [] no_0f refl;
  code' = HasOpcode.short_jump (text "eb") (text "07") [] no_0f refl;
}

normalize-moved_example :
    normalize_instruction_for_comparison (diff_line b'-' (32 ∷ []) (b'1' ∷ []) jump)
    ≡ normalize_instruction_for_comparison (diff_line b'+' [] (b'f' ∷ b'0' ∷ []) moved_jump)
normalize-moved_example =
    normalize-moved jump moved_jump b'-' b'+' (32 ∷ []) [] (b'1' ∷ []) (b'f' ∷ b'0' ∷ []) removed
      added (inr two_jumps)

abbrev file : List Text
file = text "0 <f>:" ∷ text " 0: 90 nop" ∷ text " 1: c3 ret" ∷ []

find_basic_block_for_address-named_example :
    find_basic_block_for_address file (text "0") (b'f' ∷ []) ≡ none
find_basic_block_for_address-named_example =
    find_basic_block_for_address-named file (text "0") b'f' []

abbrev code : List Text
code = text " 0: 90 nop" ∷ text " 1: c3 ret" ∷ []

abbrev change : Changed
change = record { line = text "- 0: 90 nop"; line_num = some 1 }

no_label : (i : ℕ) → label_at (parse_instructions_from_disassembly code) i ≡ false
unfolding label_at parse_instructions_from_disassembly instructions_from add_line label_header
    function_header list_beq take_while lstrip text is_hex is_digit with_digits after_spaces
    starts_with add_addressed indented_address begins_space contains before is_space rstrip strip
    add_instruction add_label labels_of name_in not_closing later nonempty split_address
no_label zero = refl
no_label (suc zero) = refl
no_label (suc (suc i)) = refl

stands : Stands (parse_instructions_from_disassembly code) 2 change 1 0
unfolding is_diff_header starts_with text list_beq strip rstrip lstrip signed_address begins_space
    split_address take_while is_hex is_digit index_of_line parse_instructions_from_disassembly
    instructions_from add_line contains before is_space add_addressed add_instruction add_label
    function_header indented_address label_header labels_of name_in not_closing with_digits
    after_spaces later nonempty
stands = record {
  no_header = refl;
  address = (text "0", text " 90 nop");
  addressed = refl;
  numbered = refl;
  positive = omega arith;
  in_file = omega arith;
  found = refl;
}

no_end : ends_at (parse_instructions_from_disassembly code) 0 ≡ false
unfolding ends_at parse_instructions_from_disassembly instructions_from add_line label_header
    function_header list_beq take_while lstrip text is_hex is_digit with_digits after_spaces
    starts_with add_addressed indented_address begins_space contains before is_space rstrip strip
    add_instruction add_label ends_block labels_of name_in not_closing after_bytes at_rest
    behind_address extract_mnemonic is_basic_block_terminator is_lower later lower_word nonempty
    skip_sign split_address
no_end = refl

extract_basic_blocks-Settled_example :
    Settled 1
      (key_of (block_for (parse_instructions_from_disassembly code) 0))
      (extract_basic_blocks code ([] ++ (change ∷ [])))
extract_basic_blocks-Settled_example =
    extract_basic_blocks-Settled code [] [] change 1 0 (λ i h. cc (no_label i)) stands no_end

start_of_f : extract_function_start (text "f") file ≡ some 0
unfolding extract_function_start or_next start_in if_found after_spaces take_while text is_hex
    is_digit is_space later exact_name starts_with parse_nat
start_of_f = refl

addresses_of_f : addresses file ≡ [] ++ (0 ∷ 1 ∷ [])
unfolding addresses line_address spaced split_address list_beq take_while lstrip text is_hex
    is_digit starts_with begins_space parse_nat
addresses_of_f = refl

find_next_instruction_offset_example :
    find_next_instruction_offset file (text "f") (pos 0 -ℤ pos 0) ≡ some (pos 1 -ℤ pos 0)
find_next_instruction_offset_example =
    find_next_instruction_offset_lem file (text "f") 0 0 1 [] [] start_of_f addresses_of_f tt

parse_lines_argument_example :
    IsSorted (parse_lines_argument (text "7-5,2,x"))
    × ((n : ℕ)
        → contains (parse_lines_argument (text "7-5,2,x")) n
          ≡ names_line (split b',' (text "7-5,2,x")) n)
parse_lines_argument_example = parse_lines_argument_lem (text "7-5,2,x")

lines_run : parse_lines_argument (text "7-5,2,x") ≡ 2 ∷ 5 ∷ 6 ∷ 7 ∷ []
unfolding parse_lines_argument add_parts split text add_part part_bounds contains strip rstrip
    lstrip single natural parse_int parse_signed map_option parse_nat skip_prefix add_range
    digit_value parse_digits before is_space split_onto bounds_of in_order insert_line
lines_run = refl
