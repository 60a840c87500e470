-- ===== src/Blocks/Tests.antt =====
-- Runs of the reading of blocks of src/codegen.py, and its theorems at concrete inputs.
use xkernel.Base.{get_elem?, ◌≡◌, ◌⊎◌, refl, none, some, List, [], ◌∷◌, ◌++◌, map, nat_eq}
use xkernel.Base.{list_eq, list_beq}
use xkernel.Base.Int.{pos, ◌+ℤ◌, ◌-ℤ◌}
use xkernel.Base.Text.{Text, text, starts_with, strip, rstrip, lstrip, is_digit, before, is_space}
use xkernel.Base.Text.{split, split_onto, parse_nat, show_int, show_nat}
use xkernel.Blocks.{candidates_from, blocks_from, is_boundary, begins_block, add_candidate}
use xkernel.Blocks.{reads_family}
use xkernel.Blocks.Info.{extract_function_info, convert_instruction_address_to_offset}
use xkernel.Blocks.Info.{not_newline, addresses_found, all_four, info_from, at_marked}
use xkernel.Blocks.Info.{marked_address, address_digits, address_behind, first_line, name_line}
use xkernel.Blocks.Info.{no_info, plain_address}
use xkernel.Blocks.Parse.{parse_instruction, parse_addressed, drop_marker, with_address}
use xkernel.Blocks.Parse.{after_byte_chars, is_byte_char, tab_word, is_tab, not_space}
use xkernel.Blocks.Parse.{parsed_operands, function_name_in}
use xkernel.Blocks.Candidates.{Site, sites_before, addr_of, EndsAtReader, candidates_from_lem}
use xkernel.Blocks.Candidates.{all_raw_lines, inner_lines, blocks_from-lines}
use xkernel.Blocks.Translate.{KernelInstruction, Kprobe, preceding_bytes, translate_each}
use xkernel.Blocks.Translate.{address_and_bytes, bytes_behind, clean, sized_number, inst_offset}
use xkernel.Blocks.Translate.{scan_bytes}
use xkernel.Blocks.Translate.Found.{HasNone, IsBehind, translate_each-IsBehind, met}
use xkernel.Diff.Lines.{split_address, after_spaces, later, nonempty}
use xkernel.Analysis.Varying.{take_while, is_hex}
use xkernel.Asm.Operand.{split_asm_operands, split_loop}
use xkernel.Diff.Signature.{first_piece}
use xkernel.Diff.Instructions.{begins_space}
use xkernel.Base.Text.Number.{digit_value, parse_digits}
use xkernel.Diff.Functions.{read_address}
use xkernel.Diff.Offsets.{or_next}

abbrev later_lines : List Text
later_lines = text "7: 00 00" ∷ text "9: 90 nop" ∷ text "Basic Block: lines 3-4" ∷ []

-- The address of a line that only goes on with bytes is a candidate.
candidates_run : candidates_from none later_lines ≡ text "7" ∷ text "9" ∷ []
unfolding candidates_from is_boundary begins_block starts_with text strip rstrip lstrip
    add_candidate split_address list_beq take_while is_hex is_digit reads_family
candidates_run = refl

candidates_from_example :
    (pre : List Site) × (post : List Site) × (sites_before later_lines ≡ pre ++ post)
    × (candidates_from (some (text "eax")) later_lines ≡ map addr_of pre)
    × EndsAtReader (some (text "eax")) pre post
candidates_from_example = candidates_from_lem (some (text "eax")) later_lines

abbrev bb_lines : List Text
bb_lines = text "Basic Block: lines 1-2" ∷ text "Function: f" ∷ text "1: 90 nop" ∷ []

blocks_from-lines_example : all_raw_lines (blocks_from none bb_lines) ≡ inner_lines bb_lines
blocks_from-lines_example = blocks_from-lines bb_lines

parsed_run :
    parse_instruction (text "1: 90 \tadd %ax,%bx # x")
    ≡ some (text "1", text "add", text "%ax" ∷ text "%bx" ∷ [])
unfolding parse_instruction parse_addressed split_address list_beq take_while lstrip drop_marker
    starts_with text is_hex is_digit with_address after_spaces later after_byte_chars is_byte_char
    tab_word is_tab split_asm_operands split_loop ◌+ℤ◌ ◌-ℤ◌ before is_space rstrip split split_onto
    strip not_space parsed_operands first_piece
parsed_run = refl

abbrev kernel_code : List KernelInstruction
kernel_code =
    record { offset = pos 16; bytes = text "90" ∷ [] }
    ∷ record { offset = pos 17; bytes = text "c3" ∷ [] }
    ∷ []

abbrev kprobe : Kprobe
kprobe = record {
  function_name = text "f";
  kprobe_offset = pos 1;
  candidate_offsets = [];
  seed_offset = none;
  all_instructions = text "0: 90 nop" ∷ [];
}

preceding_run : preceding_bytes none (pos 1) (text "0: 90 nop" ∷ []) ≡ some (text "90" ∷ [])
unfolding preceding_bytes address_and_bytes bytes_behind split_address list_beq take_while clean
    drop_marker starts_with text lstrip strip rstrip is_hex is_digit begins_space sized_number
    parse_nat ◌+ℤ◌ ◌-ℤ◌ digit_value parse_digits before is_space inst_offset scan_bytes
preceding_run = refl

translate_each-IsBehind_example :
    (kp' : Kprobe) × (get_elem? (translate_each kernel_code none [] (kprobe ∷ kprobe ∷ [])) 1
      ≡ some kp')
    × (((kp' ≡ kprobe)
          × HasNone kernel_code (text "90" ∷ []) (met none (text "90" ∷ []) (kprobe ∷ [])))
        ⊎ IsBehind kernel_code
            (text "90" ∷ [])
            (met none (text "90" ∷ []) (kprobe ∷ []))
            kp'.kprobe_offset)
translate_each-IsBehind_example =
    translate_each-IsBehind kernel_code none (kprobe ∷ []) [] kprobe (text "90" ∷ []) preceding_run

-- A changed instruction that is the first of the file has no address before it: nothing is found.
first_changed :
    extract_function_info (text "Function: f" ∷ text "[*] 10: 90 nop" ∷ text "11: c3 ret" ∷ [])
    ≡ none
unfolding extract_function_info addresses_found all_four info_from at_marked marked_address
    starts_with text strip rstrip lstrip address_digits split_address list_beq take_while is_hex
    is_digit before is_space address_behind first_line name_line no_info plain_address
    function_name_in after_spaces later nonempty or_next
first_changed = refl

offset_line :
    convert_instruction_address_to_offset (text "202: c1 shr") (pos 16) ≡ text "1f2: c1 shr"
unfolding text convert_instruction_address_to_offset list_beq take_while is_space is_hex is_digit
    starts_with show_int ◌-ℤ◌ read_address parse_nat show_nat not_newline
offset_line = refl
