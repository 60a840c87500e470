-- ===== src/Diff/Instructions.antt =====
-- The instructions of a disassembly (src/diff.py): `parse_instructions_from_disassembly`.
use xkernel.Base.{ℕ, suc, Bool, false, not, ◌&&◌, Option, none, some, List, [], ◌∷◌, ◌++◌}
use xkernel.Base.{if◌then◌else◌, ◌==◌, list_eq, nat_eq, contains, length, drop}
use xkernel.Base.Text.{Text, text, is_space, lstrip, strip, starts_with}
use xkernel.Analysis.Varying.{take_while, is_hex}
use xkernel.Diff.Lines.{split_address, after_spaces, nonempty, extract_mnemonic}
use xkernel.Diff.Lines.{is_basic_block_terminator}

pub record Instruction : Type 0 where
  pub addr : Text
  pub inst_line : Text
  pub is_label : Bool
  pub line_num : ℕ

unfoldable pub not_closing : ℕ → Bool
not_closing c = not (c == b'>')

-- `<([^>]+)>:`
unfoldable pub name_in : Text → Option Text
name_in s =
    let name = take_while not_closing (drop 1 s) in
    if starts_with s (text "<")
      && not (name == [])
      && starts_with (drop (length name) (drop 1 s)) (text ">:")
    then some name
    else none

unfoldable pub with_digits : Text → Option Text → Option (Text × Text)
with_digits digits none = none
with_digits digits (some name) = some (digits, name)

-- `^([0-9a-fA-F]+)\s+<([^>]+)>:`
unfoldable pub function_header : Text → Option (Text × Text)
function_header line =
    let digits = take_while is_hex line in
    if digits == []
    then none
    else with_digits digits (after_spaces name_in (drop (length digits) line))

-- `^\s*([0-9a-fA-F]+)\s+<([^>]+)>:`
unfoldable pub label_header : Text → Option (Text × Text)
label_header line = function_header (lstrip line)

unfoldable pub add_label : Option (Text × Text) → List Text → List Text
add_label none labels = labels
add_label (some (addr, name)) labels = addr ∷ labels

unfoldable pub labels_of : List Text → List Text
labels_of [] = []
labels_of (line ∷ lines) = add_label (label_header line) (labels_of lines)

unfoldable pub begins_space : Text → Bool
begins_space [] = false
begins_space (c ∷ s) = is_space c

-- `^\s+([0-9a-fA-F]+):`, with what follows it.
unfoldable pub indented_address : Text → Option (Text × Text)
indented_address line = if begins_space line then split_address (lstrip line) else none

unfoldable pub add_instruction :
    List Text → ℕ → Text → Option Text → List Instruction → List Instruction
add_instruction labels line_num addr none rest = rest
add_instruction labels line_num addr (some inst_line) rest =
    record {
      addr = addr;
      inst_line = strip inst_line;
      is_label = contains labels addr;
      line_num = line_num;
    }
    ∷ rest

unfoldable pub add_addressed :
    List Text → ℕ → Option (Text × Text) → List Instruction → List Instruction
add_addressed labels line_num none rest = rest
add_addressed labels line_num (some (addr, line)) rest =
    add_instruction labels line_num addr (after_spaces nonempty line) rest

-- A section header and a function header are skipped.
unfoldable pub add_line :
    List Text → ℕ → Text → Option (Text × Text) → List Instruction → List Instruction
add_line labels line_num line (some header) rest = rest
add_line labels line_num line none rest =
    if starts_with line (text "Disassembly of section")
    then rest
    else add_addressed labels line_num (indented_address line) rest

unfoldable pub instructions_from : List Text → ℕ → List Text → List Instruction
instructions_from labels line_num [] = []
instructions_from labels line_num (line ∷ lines) =
    add_line labels line_num line (label_header line)
      (instructions_from labels (suc line_num) lines)

unfoldable pub parse_instructions_from_disassembly : List Text → List Instruction
parse_instructions_from_disassembly lines = instructions_from (labels_of lines) 1 lines

-- The mnemonic of an instruction, read from its address and its text.
unfoldable pub ends_block : Instruction → Bool
ends_block inst =
    is_basic_block_terminator
      (extract_mnemonic (text "  " ++ (inst.addr ++ (text ": " ++ inst.inst_line))))
