-- ===== src/Blocks/Parse.antt =====
-- Lines of a file of basic blocks (src/codegen.py): `parse_instruction`, `parse_basic_block` and
-- `extract_immediate_values`.
use xkernel.Base.{ℕ, Bool, true, false, not, ◌&&◌, ◌||◌, Option, none, some, List, [], ◌∷◌, ◌++◌}
use xkernel.Base.{if◌then◌else◌, ◌==◌, list_eq, nat_eq, contains, leb, length, drop}
use xkernel.Base.Text.{Text, text, is_space, is_digit, lstrip, strip, split, lower, starts_with}
use xkernel.Base.Text.{parse_nat, all}
use xkernel.Asm.Operand.{split_asm_operands}
use xkernel.Analysis.Varying.{take_while, is_hex, is_word}
use xkernel.Diff.Lines.{later, after_spaces, split_address, nonempty}
use xkernel.Diff.Signature.{first_piece}
use xkernel.Diff.Instructions.{begins_space}

-- `re.sub(r'^\s*\[\*\]\s*', '', line)`
unfoldable pub drop_marker : Text → Text
drop_marker line =
    if starts_with (lstrip line) (text "[*]") then lstrip (drop 3 (lstrip line)) else line

unfoldable pub is_byte_char : ℕ → Bool
is_byte_char c = is_digit c || (leb b'a' c && leb c b'f') || c == 32

-- `[0-9a-f ]+`, as long as it can be, and a pattern that must follow it.
unfoldable pub after_byte_chars {ℓ} : {A : Type ℓ} → (Text → Option A) → Text → Option A
after_byte_chars pattern [] = none
after_byte_chars pattern (c ∷ s) =
    if is_byte_char c then later (after_byte_chars pattern s) (pattern s) else none

unfoldable pub is_tab : ℕ → Bool
is_tab c = c == 9

unfoldable pub not_space : ℕ → Bool
not_space c = not (is_space c)

-- `\t+(\S+)\s*(.*)$`
unfoldable pub tab_word : Text → Option (Text × Text)
tab_word s =
    let rest = drop (length (take_while is_tab s)) s in
    let word = take_while not_space rest in
    if starts_with s (9 ∷ []) && not (word == [])
    then some (word, lstrip (drop (length word) rest))
    else none

unfoldable pub parsed_operands : Text → List Text
parsed_operands operands_str =
    let operands = strip (first_piece (split b'#' (strip operands_str))) in
    if operands == [] then [] else split_asm_operands operands

unfoldable pub with_address : Text → Option (Text × Text) → Option (Text × Text × List Text)
with_address address none = none
with_address address (some (mnemonic, operands_str)) =
    some (address, mnemonic, parsed_operands operands_str)

unfoldable pub parse_addressed : Option (Text × Text) → Option (Text × Text × List Text)
parse_addressed none = none
parse_addressed (some (address, rest)) =
    with_address address (after_spaces (after_byte_chars tab_word) rest)

unfoldable pub parse_instruction : Text → Option (Text × Text × List Text)
parse_instruction line = parse_addressed (split_address (lstrip (drop_marker line)))

-- `^\s+[0-9a-f ]+\s*$` on the end of a stripped line, which ends in no space.
unfoldable pub only_bytes : Text → Bool
only_bytes rest = begins_space rest && not (lstrip rest == []) && all is_byte_char (lstrip rest)

unfoldable pub or_bytes : Option (Text × Text) → Bool
or_bytes none = false
or_bytes (some (address, rest)) = not (only_bytes rest)

-- A line with an address, and not only bytes behind it.
unfoldable pub is_instruction_line : Text → Bool
is_instruction_line line = or_bytes (split_address (drop_marker line))

unfoldable pub function_name_in : Text → Option Text
function_name_in line =
    if starts_with line (text "Function:") then after_spaces nonempty (drop 9 line) else none

-- `Basic Block:\s+lines\s+(\d+)-(\d+)$`
unfoldable pub at_line_numbers : Text → Option Text
at_line_numbers s =
    let first = take_while is_digit s in
    let rest = drop (length first) s in
    let second = take_while is_digit (drop 1 rest) in
    if not (first == [])
      && starts_with rest (text "-")
      && not (second == [])
      && drop (length second) (drop 1 rest) == []
    then some s
    else none

unfoldable pub after_lines : Text → Option Text
after_lines s =
    if starts_with s (text "lines") then after_spaces at_line_numbers (drop 5 s) else none

unfoldable pub lines_info_in : Text → Option Text
lines_info_in line =
    if starts_with line (text "Basic Block:") then after_spaces after_lines (drop 12 line) else none

pub record ParsedBlock : Type 0 where
  pub function_name : Option Text
  pub lines_info : Option Text
  pub instructions : List Text

unfoldable pub or_line : Option Text → Option Text → Text → ParsedBlock → ParsedBlock
or_line (some numbers) name line block = record block { lines_info = some line }
or_line none (some name) line block = record block { function_name = some name }
or_line none none line block =
    if is_instruction_line line
    then record block { instructions = block.instructions ++ (line ∷ []) }
    else block

unfoldable pub parse_lines : List Text → ParsedBlock → ParsedBlock
parse_lines [] block = block
parse_lines (line ∷ lines) block =
    let stripped = strip line in
    parse_lines lines (
      if stripped == []
      then block
      else or_line (lines_info_in stripped) (function_name_in stripped) stripped block)

unfoldable pub parse_basic_block : List Text → ParsedBlock
parse_basic_block lines =
    parse_lines lines (record { function_name = none; lines_info = none; instructions = [] })

-- `\$((?:0x[0-9a-fA-F]+)|(?:\d+))`, whatever the case of the `x`.
unfoldable pub is_hex_prefix : Text → Bool
is_hex_prefix s = starts_with s (text "0x") || starts_with s (text "0X")

unfoldable pub immediate_at : Text → Option ℕ
immediate_at s =
    let digits = take_while is_hex (drop 2 s) in
    if is_hex_prefix s && not (digits == [])
    then parse_nat 16 digits
    else parse_nat 10 (take_while is_digit s)

unfoldable pub add_value : Option ℕ → List ℕ → List ℕ
add_value none values = values
add_value (some v) values = v ∷ values

unfoldable pub values_in : Text → List ℕ
values_in [] = []
values_in (c ∷ s) =
    let rest = values_in s in if c == b'$' then add_value (immediate_at s) rest else rest

-- `\t(\w+)\s+`, at the first tab where it fits.
unfoldable pub word_at : Text → Option Text
word_at s =
    let word = take_while is_word s in
    if not (word == []) && begins_space (drop (length word) s) then some word else none

unfoldable pub first_word : Text → Option Text
first_word [] = none
first_word (c ∷ s) =
    let rest = first_word s in
    if c == 9 then elim (word_at s) [ none ↦ rest | some word ↦ some word ] else rest

-- `%\w+\s*$` from here on, without the `%`.
unfoldable pub last_register_at : Text → Option Text
last_register_at s =
    let word = take_while is_word s in
    if not (word == []) && strip (drop (length word) s) == [] then some word else none

-- `\t\w+\s+(%\w+)\s*$`
unfoldable pub register_alone_at : Text → Bool
register_alone_at s =
    let word = take_while is_word s in
    let rest = lstrip (drop (length word) s) in
    not (word == [])
    && begins_space (drop (length word) s)
    && starts_with rest (text "%")
    && elim (last_register_at (drop 1 rest)) [ none ↦ false | some _ ↦ true ]

unfoldable pub register_alone : Text → Bool
register_alone [] = false
register_alone (c ∷ s) = (c == 9 && register_alone_at s) || register_alone s

unfoldable pub shift_rotate_ops : List Text
shift_rotate_ops =
    text "shr"
    ∷ text "shl"
    ∷ text "sar"
    ∷ text "sal"
    ∷ text "rol"
    ∷ text "ror"
    ∷ text "rcl"
    ∷ text "rcr"
    ∷ []

unfoldable pub is_shift : Option Text → Bool
is_shift none = false
is_shift (some mnemonic) = contains shift_rotate_ops (lower mnemonic)

unfoldable pub or_implicit : Text → List ℕ → List ℕ
or_implicit line (v ∷ values) = v ∷ values
or_implicit line [] = if is_shift (first_word line) && register_alone line then 1 ∷ [] else []

unfoldable pub extract_immediate_values : Text → List ℕ
extract_immediate_values inst_line =
    let line = drop_marker inst_line in or_implicit line (values_in line)
