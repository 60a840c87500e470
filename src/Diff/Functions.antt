-- ===== src/Diff/Functions.antt =====
-- The functions of a disassembly (src/diff.py): which one has an instruction at an address, where it
-- ends, and which ones a diff has changed.
pub mod Found
pub mod Sizes
pub mod Tests
use xkernel.Base.{ℕ, zero, suc, ◌+◌, ◌-◌, Bool, true, false, not, ◌&&◌, ◌||◌, Option, none, some}
use xkernel.Base.{List, [], ◌∷◌, ◌++◌, if◌then◌else◌, ◌==◌, ltb, length, drop, take, contains}
use xkernel.Base.{list_eq, nat_eq}
use xkernel.Base.Int.{ℤ, pos, ◌-ℤ◌, leb_ℤ, int_eq}
use xkernel.Base.Dict.{Dict, insert}
use xkernel.Base.Text.{Text, text, lstrip, starts_with, show_nat, parse_nat, parse_int}
use xkernel.Analysis.Varying.{take_while}
use xkernel.Diff.Instructions.{function_header, indented_address}
use xkernel.Diff.Block.Extract.{signed_address}

unfoldable pub not_colon : ℕ → Bool
not_colon c = not (c == b':')

-- `^Disassembly of section (\.text[^:]+):`
unfoldable pub section_in : Text → Option Text
section_in line =
    let rest = drop 23 line in
    let name = take_while not_colon rest in
    if starts_with line (text "Disassembly of section ")
      && starts_with name (text ".text")
      && ltb 5 (length name)
      && starts_with (drop (length name) rest) (text ":")
    then some name
    else none

unfoldable pub ends_text : Text → Text → Bool
ends_text s tail = drop (length s - length tail) s == tail

-- A prefix symbol or a cold part is not a function of its own.
unfoldable pub is_function : Text → Bool
is_function func_name =
    not (starts_with func_name (text "__pfx_")) && not (ends_text func_name (text ".cold"))

unfoldable pub inst_address : Text → Option Text
inst_address line = elim (indented_address line) [ none ↦ none | some (addr, rest) ↦ some addr ]

-- A number of hexadecimal digits, which the pattern has matched.
unfoldable pub read_address : Text → ℕ
read_address digits = elim (parse_nat 16 digits) [ none ↦ 0 | some n ↦ n ]

unfoldable pub section_function : Text → Text
section_function section =
    if starts_with section (text ".text.unlikely.")
    then drop 15 section
    else if starts_with section (text ".text.")
    then drop 6 section
    else section

unfoldable pub section_matches : Option Text → Text → Bool
section_matches none func = true
section_matches (some section) func = section_function section == func

unfoldable pub count_line : Text → ℕ → ℕ
count_line line n = elim (inst_address line) [ none ↦ n | some addr ↦ suc n ]

unfoldable pub starts_at : Text → Option (Text × Text) → Bool
starts_at func_start none = false
starts_at func_start (some (addr, name)) = addr == func_start

-- The instructions back to the header of the function, in the lines before, the last one first;
-- `none` where there is no such header.
unfoldable pub count_back : Text → List Text → Option ℕ
count_back func_start [] = none
count_back func_start (line ∷ before) =
    let rest = count_back func_start before in
    if starts_at func_start (function_header line)
    then some 0
    else elim rest [ none ↦ none | some n ↦ some (count_line line n) ]

unfoldable pub or_end : Option Text → ℕ → ℕ
or_end none func_end = func_end
or_end (some addr) func_end = read_address addr

unfoldable pub ends_function : Text → Bool
ends_function line = elim (function_header line) [
  | none ↦ starts_with line (text "Disassembly of section")
  | some header ↦ true
]

-- The last address of the function and the number of its instructions behind the one that was found.
unfoldable pub scan_function_end : ℕ → ℕ → List Text → ℕ × ℕ
scan_function_end func_end count [] = (func_end, count)
scan_function_end func_end count (line ∷ lines) =
    let rest =
      scan_function_end (or_end (inst_address line) func_end) (count_line line count) lines in
    if ends_function line then (func_end, count) else rest

pub record FunctionInfo : Type 0 where
  pub name : Text
  pub start_addr : Text
  pub end_addr : Text
  pub size : ℤ
  pub instruction_count : ℕ

unfoldable pub count_all : Option ℕ → ℕ → ℕ
count_all none after = 0
count_all (some before) after = before + after

unfoldable pub function_info : Text → Text → Option ℕ → ℕ × ℕ → FunctionInfo
function_info name start_addr back found = record {
  name = name;
  start_addr = start_addr;
  end_addr = show_nat 16 found.0;
  size = pos found.0 -ℤ pos (read_address start_addr);
  instruction_count = count_all back found.1;
}

unfoldable pub distance : ℕ → ℕ → ℕ
distance a b = (a - b) + (b - a)

-- Without a line number the last match is taken, with one the nearest.
unfoldable pub is_nearer : Option ℕ → ℕ → Option (FunctionInfo × ℕ) → Bool
is_nearer none line best = true
is_nearer (some line_number) line none = true
is_nearer (some line_number) line (some (info, best_line)) =
    ltb (distance line line_number) (distance best_line line_number)

-- The search's variables: the section, the function with its start, and the best match with its line.
pub record Search : Type 0 where
  pub current_section : Option Text
  pub current_func : Option (Text × Text)
  pub best_match : Option (FunctionInfo × ℕ)

module _ (addr : ℤ) (line_number : Option ℕ) where
  unfoldable pub is_target : Option Text → Text → Text → Text → Bool
  is_target section name start_addr inst_addr =
      pos (read_address inst_addr) == addr
      && leb_ℤ (pos (read_address start_addr)) addr
      && section_matches section name

  -- The line `line`, number `n`, is an instruction of the function.
  unfoldable pub at_instruction :
      ℕ → Text → List Text → List Text → Text × Text → Text → Search → Search
  at_instruction n line before after (name, start_addr) inst_addr s =
      if is_target s.current_section name start_addr inst_addr
        && is_nearer line_number n s.best_match
      then record s {
        best_match = some (
          function_info name start_addr (count_back start_addr (line ∷ before))
              (scan_function_end (read_address inst_addr) 0 after),
          n,
        );
      }
      else s

  unfoldable pub at_line :
      ℕ → Text → List Text → List Text → Option (Text × Text) → Option Text → Search → Search
  at_line n line before after none inst_addr s = s
  at_line n line before after (some func) none s = s
  at_line n line before after (some func) (some inst_addr) s =
      at_instruction n line before after func inst_addr s

  unfoldable pub search_header : Text × Text → Search → Search
  search_header (start_addr, name) s =
      if is_function name then record s { current_func = some (name, start_addr) } else s

  unfoldable pub search_kind :
      ℕ → Text → List Text → List Text → Option Text → Option (Text × Text) → Search → Search
  search_kind n line before after (some section) header s = record s {
    current_section = some section;
    current_func = none;
  }
  search_kind n line before after none (some header) s = search_header header s
  search_kind n line before after none none s =
      at_line n line before after s.current_func (inst_address line) s

  unfoldable pub search_line : ℕ → Text → List Text → List Text → Search → Search
  search_line n line before after s =
      search_kind n line before after (section_in line) (function_header line) s

  unfoldable pub search_lines : ℕ → List Text → List Text → Search → Search
  search_lines n before [] s = s
  search_lines n before (line ∷ lines) s =
      search_lines (suc n) (line ∷ before) lines (search_line n line before lines s)

unfoldable pub no_match : Search
no_match = record { current_section = none; current_func = none; best_match = none }

unfoldable pub info_of : Option (FunctionInfo × ℕ) → Option FunctionInfo
info_of none = none
info_of (some (info, line)) = some info

unfoldable pub find_at : List Text → Option ℕ → Option ℤ → Option FunctionInfo
find_at lines line_number none = none
find_at lines line_number (some addr) =
    info_of (search_lines addr line_number 1 [] lines no_match).best_match

unfoldable pub find_function_for_address_in_file : List Text → Text → Option ℕ → Option FunctionInfo
find_function_for_address_in_file lines addr_str line_number =
    find_at lines line_number (parse_int 16 addr_str)

unfoldable pub is_file_header : Text → Bool
is_file_header line = starts_with line (text "---") || starts_with line (text "+++")

unfoldable pub add_changed_address : Option (Text × Text) → List Text → List Text
add_changed_address none rest = rest
add_changed_address (some (addr, s)) rest = addr ∷ rest

-- The addresses of the changed lines of a diff.
unfoldable pub changed_addresses : List Text → List Text
changed_addresses [] = []
changed_addresses (line ∷ lines) =
    let rest = changed_addresses lines in
    if (starts_with line (text "-") || starts_with line (text "+")) && not (is_file_header line)
    then add_changed_address (signed_address (lstrip line)) rest
    else rest

unfoldable pub add_name : Option FunctionInfo → List Text → List Text
add_name none functions = functions
add_name (some info) functions =
    if contains functions info.name then functions else info.name ∷ functions

unfoldable pub functions_at : List Text → List Text → List Text
functions_at disas [] = []
functions_at disas (addr ∷ addrs) =
    add_name (find_function_for_address_in_file disas addr none) (functions_at disas addrs)

-- The set of the names; a diff that is empty has no lines.
unfoldable pub detect_affected_functions : List Text → List Text → List Text
detect_affected_functions diff disas = functions_at disas (changed_addresses diff)
