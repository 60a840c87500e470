-- ===== src/Blocks/Info.antt =====
-- The first changed instruction of a block file (src/codegen.py):
-- `extract_function_info_from_bb_file`.
use xkernel.Base.{ℕ, Bool, not, ◌&&◌, Option, none, some, List, [], ◌∷◌, ◌++◌, if◌then◌else◌}
use xkernel.Base.{◌==◌, list_eq, nat_eq, length, drop}
use xkernel.Analysis.Varying.{take_while, is_hex}
use xkernel.Base.Int.{ℤ, pos, ◌-ℤ◌}
use xkernel.Base.Text.{Text, text, is_space, strip, lstrip, starts_with, show_int}
use xkernel.Diff.Lines.{split_address}
use xkernel.Diff.Offsets.{or_next}
use xkernel.Diff.Functions.{read_address}
use xkernel.Blocks.{extract_function_base}
use xkernel.Blocks.Parse.{function_name_in}

pub record InfoFound : Type 0 where
  pub function_name : Option Text
  pub first_addr : Option Text
  pub changed_addr : Option Text
  pub kprobe_addr : Option Text

unfoldable pub address_digits : Option (Text × Text) → Option Text
address_digits none = none
address_digits (some (addr, rest)) = some addr

-- `^\s*([0-9a-fA-F]+):` on a stripped line.
unfoldable pub plain_address : Text → Option Text
plain_address stripped = address_digits (split_address stripped)

-- `^\s*\[\*\]\s*([0-9a-fA-F]+):` on a stripped line.
unfoldable pub marked_address : Text → Option Text
marked_address stripped =
    if starts_with stripped (text "[*]")
    then address_digits (split_address (lstrip (drop 3 stripped)))
    else none

-- The address behind the changed instruction, also beyond the end of its block.
unfoldable pub address_behind : List Text → Option Text
address_behind [] = none
address_behind (line ∷ lines) = or_next (plain_address (strip line)) (address_behind lines)

unfoldable pub name_line : Text → InfoFound → InfoFound
name_line stripped info =
    if starts_with stripped (text "Function:")
    then record info { function_name = or_next (function_name_in stripped) info.function_name }
    else info

unfoldable pub first_line : Text → InfoFound → InfoFound
first_line stripped info = record info {
  first_addr = or_next info.first_addr (plain_address stripped);
}

-- The loop stops at the first changed instruction.
unfoldable pub at_marked : Option Text → List Text → InfoFound → InfoFound → InfoFound
at_marked none later_lines info rest = rest
at_marked (some addr) later_lines info rest = record info {
  changed_addr = some addr;
  kprobe_addr = address_behind later_lines;
}

unfoldable pub info_from : InfoFound → List Text → InfoFound
info_from info [] = info
info_from info (line ∷ lines) =
    let info' = first_line (strip line) (name_line (strip line) info) in
    at_marked (marked_address (strip line)) lines info' (info_from info' lines)

-- Without a base the addresses are left as they are.
unfoldable pub rebased : Option ℤ → Text → Text
rebased none addr = addr
rebased (some func_base) addr = show_int 16 (pos (read_address addr) -ℤ func_base)

unfoldable pub all_four :
    List Text
    → Option Text
    → Option Text
    → Option Text
    → Option Text
    → Option (Text × Text × Text × Text)
all_four lines (some name) (some first) (some changed) (some kprobe) =
    let base = extract_function_base name lines in
    some (name, rebased base first, rebased base changed, rebased base kprobe)
all_four lines _ _ _ _ = none

unfoldable pub addresses_found : List Text → InfoFound → Option (Text × Text × Text × Text)
addresses_found lines info =
    all_four lines info.function_name info.first_addr info.changed_addr info.kprobe_addr

unfoldable pub no_info : InfoFound
no_info = record {
  function_name = none;
  first_addr = none;
  changed_addr = none;
  kprobe_addr = none;
}

unfoldable pub extract_function_info : List Text → Option (Text × Text × Text × Text)
extract_function_info lines = addresses_found lines (info_from no_info lines)

unfoldable pub not_newline : ℕ → Bool
not_newline c = not (c == 10)

-- `^(\s*)([0-9a-fA-F]+)(:.*)`: the address of a line as an offset.
unfoldable pub convert_instruction_address_to_offset : Text → ℤ → Text
convert_instruction_address_to_offset instruction func_base =
    let indent = take_while is_space instruction in
    let s = drop (length indent) instruction in
    let digits = take_while is_hex s in
    let rest = drop (length digits) s in
    if not (digits == []) && starts_with rest (text ":")
    then indent
      ++ (show_int 16 (pos (read_address digits) -ℤ func_base) ++ take_while not_newline rest)
    else instruction
