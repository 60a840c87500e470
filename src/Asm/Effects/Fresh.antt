-- ===== src/Asm/Effects/Fresh.antt =====
-- Each instruction's effects are named by an executor of its own.
use xkernel.Base.{◌≡◌, refl, List, [], ◌∷◌, ◌++◌, map, some, contains, list_beq}
use xkernel.Base.Dict.{Dict, get, insert, lookup}
use xkernel.Base.Text.{Text, text, strip, lower, lower_char, digit, parse_nat, show_int, show_nat}
use xkernel.Base.Text.{all, before, is_digit, is_space, join, lstrip, lstrip_char, map_option}
use xkernel.Base.Text.{parse_int, parse_signed, rstrip, skip_prefix, split, split_onto}
use xkernel.Base.Text.{starts_with}
use xkernel.Asm.Register.{families, base_registers, get_base_register}
use xkernel.Asm.Effects.{Effects, get_instruction_effects, get_written_effects, is_writing}
use xkernel.Asm.Effects.{writing_mnemonics, add_target, add_last, add_parsed, add_operand, add}
use xkernel.Asm.Effects.{add_register, add_sources, get_read_effects, is_comparing}
use xkernel.Asm.Run.{base_mnemonic, is_suffix}
use xkernel.Asm.Operand.{parse_operand, parse_stripped, strip_segment, anonymous, assign, cut}
use xkernel.Asm.Operand.{get_anonymous_reg, inside, is_hex_digit, is_hex_prefixed}
use xkernel.Asm.Operand.{is_lower_letter, is_offset, is_unsigned, match_memory, memory_expr}
use xkernel.Asm.Operand.{offset_part, parse_literal, parse_memory, parse_nonimmediate}
use xkernel.Asm.Operand.{parse_other, part_of, read_literal, scaled_by, parse_matched}
use xkernel.Asm.{new_executor}
use xkernel.Base.Text.Number.{digit_value, parse_digits, show_digits}
use xkernel.Tables.Raw.{hex_offset}

-- The names of all the registers.
unfoldable pub members : Dict Text (List Text) → List Text
members [] = []
members ((family, names) ∷ rest) = names ++ members rest

-- What `mov` into a register writes.
unfoldable pub written_by_mov : Text → Text → Effects
written_by_mov source register =
    (get_instruction_effects (some (text "mov", source ∷ (b'%' ∷ register) ∷ []))).0

-- Whatever register `mov` writes, the effect is the register `r0`: instructions that write
-- different registers are given the same effect.
written_by_mov-members :
    (source : Text)
    → map (written_by_mov source) (members families)
      ≡ map (λ register. (text "r0" ∷ [], [])) (members families)
unfolding members families written_by_mov get_instruction_effects get_written_effects is_writing
    contains writing_mnemonics list_beq base_mnemonic lower lower_char is_suffix add_target add_last
    add_parsed add_operand parse_operand parse_stripped strip_segment add add_register add_sources
    get_read_effects is_comparing anonymous assign cut get_anonymous_reg inside is_hex_digit
    is_hex_prefixed is_lower_letter is_offset is_unsigned match_memory memory_expr offset_part
    parse_literal parse_memory parse_nonimmediate parse_other part_of read_literal scaled_by
    base_registers get_base_register new_executor get insert lookup digit digit_value parse_digits
    parse_nat show_digits show_int show_nat all before is_digit is_space join lstrip lstrip_char
    map_option parse_int parse_signed rstrip skip_prefix split split_onto starts_with strip text
    hex_offset parse_matched
written_by_mov-members source = refl
