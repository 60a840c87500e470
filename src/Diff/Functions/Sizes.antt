-- ===== src/Diff/Functions/Sizes.antt =====
-- The functions of a disassembly with their sizes (src/diff.py): `parse_functions_from_disassembly`.
use xkernel.Base.{Option, none, some, List, [], ◌∷◌, ◌++◌, if◌then◌else◌, list_eq, nat_eq}
use xkernel.Base.Int.{ℤ, pos, ◌-ℤ◌}
use xkernel.Base.Dict.{Dict, insert}
use xkernel.Base.Text.{Text}
use xkernel.Diff.Instructions.{function_header}
use xkernel.Diff.Functions.{section_in, is_function, inst_address, read_address}

-- The start of a function, its end and its size, by its name.
abbrev pub Functions : Type 0
Functions = Dict Text (Text × Text × ℤ)

unfoldable pub put_function : Text → Text → Text → Functions → Functions
put_function name start_addr end_addr functions =
    insert name (start_addr, end_addr, pos (read_address end_addr) -ℤ pos (read_address start_addr))
      functions

unfoldable pub last_or : Option Text → Text → Text
last_or none start_addr = start_addr
last_or (some section_last_addr) start_addr = section_last_addr

-- A function ends where the next one of its section begins, the last one at the last instruction.
unfoldable pub put_section : Option Text → List (Text × Text) → Functions → Functions
put_section section_last_addr [] functions = functions
put_section section_last_addr ((start_addr, name) ∷ []) functions =
    put_function name start_addr (last_or section_last_addr start_addr) functions
put_section section_last_addr ((start_addr, name) ∷ (next, other) ∷ rest) functions =
    put_section section_last_addr ((next, other) ∷ rest)
      (put_function name start_addr next functions)

pub record Sections : Type 0 where
  pub functions : Functions
  pub current_section : Option Text
  pub section_functions : List (Text × Text)
  pub section_last_addr : Option Text

unfoldable pub end_section : Sections → Functions
end_section s = put_section s.section_last_addr s.section_functions s.functions

unfoldable pub add_function : Option (Text × Text) → Sections → Sections
add_function none s = s
add_function (some (start_addr, name)) s =
    if is_function name
    then record s { section_functions = s.section_functions ++ ((start_addr, name) ∷ []) }
    else s

unfoldable pub set_last : Option Text → Option Text → Sections → Sections
set_last none inst s = s
set_last (some section) none s = s
set_last (some section) (some addr) s = record s { section_last_addr = some addr }

unfoldable pub section_line : Option Text → Text → Sections → Sections
section_line none line s =
    set_last s.current_section (inst_address line) (add_function (function_header line) s)
section_line (some section) line s = record {
  functions = end_section s;
  current_section = some section;
  section_functions = [];
  section_last_addr = none;
}

unfoldable pub sections_from : List Text → Sections → Sections
sections_from [] s = s
sections_from (line ∷ lines) s = sections_from lines (section_line (section_in line) line s)

unfoldable pub parse_functions_from_disassembly : List Text → Functions
parse_functions_from_disassembly lines = end_section (
    sections_from lines (record {
      functions = [];
      current_section = none;
      section_functions = [];
      section_last_addr = none;
    }))
