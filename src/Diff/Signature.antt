-- ===== src/Diff/Signature.antt =====
-- The signature by which src/diff.py compares instructions: `normalize_instruction_for_comparison`.
pub mod Moved
use xkernel.Base.{ℕ, Bool, true, false, not, ◌&&◌, ◌||◌, Option, none, some, List, [], ◌∷◌, ◌++◌}
use xkernel.Base.{map, if◌then◌else◌, ◌==◌, list_eq, nat_eq, contains, leb, length, drop, take}
use xkernel.Base.Text.{Text, text, is_digit, lstrip, strip, split, join, starts_with, lower}
use xkernel.Base.Text.{parse_nat}
use xkernel.Analysis.Jump.{words}
use xkernel.Analysis.Varying.{take_while, is_hex}
use xkernel.Diff.Lines.{extract_instruction_bytes, extract_mnemonic, operands_of, nonempty}

unfoldable pub first_piece : List Text → Text
first_piece [] = []
first_piece (p ∷ ps) = p

-- The operands before a comment.
unfoldable pub without_comment : Text → Text
without_comment s = strip (first_piece (split b'#' s))

unfoldable pub is_hex_or_x : ℕ → Bool
is_hex_or_x c = is_hex c || c == b'x'

unfoldable pub or_zero : Text → Text
or_zero [] = text "0"
or_zero (c ∷ s) = c ∷ s

unfoldable pub memory_type : Text → Text
memory_type op =
    let offset = take_while is_hex_or_x op in
    if starts_with (lstrip (drop (length offset) op)) (text "(")
    then text "mem:" ++ or_zero offset
    else text "mem"

unfoldable pub any_digit : Text → Bool
any_digit [] = false
any_digit (c ∷ s) = is_digit c || any_digit s

unfoldable pub operand_type : Text → Text
operand_type op =
    if starts_with op (text "$")
    then text "imm"
    else if contains op b'(' || contains op b'['
    then memory_type op
    else if contains op b'<'
        || contains op b'>'
        || (not (starts_with op (text "%")) && not (any_digit op))
    then text "label"
    else text "reg"

unfoldable pub types_of : List Text → List Text
types_of [] = []
types_of (op ∷ ops) =
    let rest = types_of ops in if strip op == [] then rest else operand_type (strip op) ∷ rest

unfoldable pub operand_types : Option Text → List Text
operand_types none = []
operand_types (some operands) =
    if strip operands == [] then [] else types_of (split b',' (without_comment (strip operands)))

unfoldable pub extract_operand_types : Text → List Text
extract_operand_types line = operand_types (operands_of line)

-- `re.findall(r'\$0x([0-9a-fA-F]+)', operands)`
unfoldable pub add_digits : Text → List Text → List Text
add_digits [] found = found
add_digits (c ∷ s) found = (c ∷ s) ∷ found

unfoldable pub immediates : Text → List Text
immediates [] = []
immediates (c ∷ s) =
    let rest = immediates s in
    if starts_with (c ∷ s) (text "$0x")
    then add_digits (take_while is_hex (drop 2 s)) rest
    else rest

unfoldable pub immediate_values : Option Text → List Text
immediate_values none = []
immediate_values (some operands) = immediates (without_comment operands)

unfoldable pub is_offset_inst : Text → Bool
is_offset_inst mnemonic =
    starts_with mnemonic (text "j")
    || starts_with mnemonic (text "call")
    || starts_with mnemonic (text "loop")

-- A byte from 0x70 to 0x7f, in two digits.
unfoldable pub in_range : Option ℕ → Bool
in_range none = false
in_range (some n) = leb 0x70 n && leb n 0x7f

unfoldable pub is_short_jump : Text → Bool
is_short_jump byte = leb (length byte) 2 && leb 2 (length byte) && in_range (parse_nat 16 byte)

unfoldable pub opcode : Text → List Text → Text
opcode first bytes_list =
    if lower first == text "0f" && leb 3 (length bytes_list)
    then join (text " ") (take 2 bytes_list)
    else if contains (text "e8" ∷ text "e9" ∷ text "eb" ∷ []) (lower first)
        || is_short_jump (lower first)
    then first
    else join (text " ") (take 2 bytes_list)

-- With fewer than two bytes there is no signature.
unfoldable pub jump_signature : Text → List Text → Option Text
jump_signature mnemonic [] = none
jump_signature mnemonic (byte ∷ []) = none
jump_signature mnemonic (first ∷ second ∷ rest) =
    some (mnemonic ++ (text ":" ++ opcode first (first ∷ second ∷ rest)))

unfoldable pub pattern_of : List Text → Text
pattern_of [] = text "none"
pattern_of (t ∷ ts) = join (text ",") (t ∷ ts)

unfoldable pub with_immediates : Text → List Text → Text
with_immediates signature [] = signature
with_immediates signature (v ∷ vs) = signature ++ (text ":imm=" ++ join (text ",") (v ∷ vs))

unfoldable pub plain_signature : Text → Text → Text
plain_signature mnemonic line =
    with_immediates (mnemonic ++ (text ":" ++ pattern_of (extract_operand_types line)))
      (immediate_values (operands_of line))

unfoldable pub signature_of : Text → Text → Option Text → Option Text
signature_of line bytes_str none = some (text "bytes:" ++ bytes_str)
signature_of line bytes_str (some mnemonic) =
    if is_offset_inst mnemonic
    then jump_signature mnemonic (words bytes_str)
    else some (plain_signature mnemonic line)

unfoldable pub of_bytes : Text → Option Text → Option Text
of_bytes line none = none
of_bytes line (some []) = none
of_bytes line (some (c ∷ s)) = signature_of line (c ∷ s) (extract_mnemonic line)

unfoldable pub normalize_instruction_for_comparison : Text → Option Text
normalize_instruction_for_comparison line = of_bytes line (extract_instruction_bytes line)
