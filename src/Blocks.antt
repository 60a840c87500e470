-- ===== src/Blocks.antt =====
-- The files of basic blocks (src/codegen.py): `extract_all_basic_blocks_from_file`.
pub mod Parse
pub mod Translate
mod Tests
pub mod Candidates
pub mod Offsets
pub mod Info
use xkernel.Base.{ℕ, Bool, true, false, not, ◌&&◌, ◌||◌, Option, none, some, List, [], ◌∷◌, ◌++◌}
use xkernel.Base.{map, if◌then◌else◌, ◌==◌, list_eq, nat_eq, length, drop}
use xkernel.Base.Int.{ℤ, pos, ◌-ℤ◌}
use xkernel.Base.Text.{Text, text, strip, starts_with, parse_nat}
use xkernel.Asm.Register.{get_register_family}
use xkernel.Analysis.Reads.{instruction_reads_register}
use xkernel.Analysis.Varying.{take_while, is_hex}
use xkernel.Diff.Lines.{after_spaces, split_address}
use xkernel.Diff.Offsets.{or_next}
use xkernel.Blocks.Parse.{drop_marker, only_bytes, function_name_in, extract_immediate_values}
use xkernel.Blocks.Parse.{last_register_at}

pub record BasicBlock : Type 0 where
  pub function_name : Option Text
  pub first_addr : Option Text
  pub changed_addr : Option Text
  pub kprobe_addr : Option Text
  pub changed_instruction : Option Text
  pub changed_instructions : List Text
  pub all_instructions : List Text
  pub immediate_value : Option ℕ
  pub raw_lines : List Text
  pub candidate_addrs : List Text

unfoldable pub new_block : BasicBlock
new_block = record {
  function_name = none;
  first_addr = none;
  changed_addr = none;
  kprobe_addr = none;
  changed_instruction = none;
  changed_instructions = [];
  all_instructions = [];
  immediate_value = none;
  raw_lines = [];
  candidate_addrs = [];
}

unfoldable pub begins_block : Text → Bool
begins_block stripped = starts_with stripped (text "Basic Block:")

unfoldable pub is_boundary : Text → Bool
is_boundary stripped = begins_block stripped || starts_with stripped (text "Function:")

-- `%(\w+)\s*$`: the register that ends the line.
unfoldable pub last_register : Text → Option Text
last_register [] = none
last_register (c ∷ s) =
    let rest = last_register s in
    if c == b'%' then elim (last_register_at s) [ none ↦ rest | some word ↦ some word ] else rest

-- A family that is empty counts as none.
unfoldable pub reads_family : Option Text → Text → Bool
reads_family none line = false
reads_family (some reg) line =
    not (get_register_family reg == []) && instruction_reads_register line (get_register_family reg)

-- The addresses behind the changed instruction, up to the first that reads its target.
unfoldable pub add_candidate : Bool → Option (Text × Text) → List Text → List Text
add_candidate reads none rest = rest
add_candidate reads (some (addr, _)) rest = if reads then addr ∷ [] else addr ∷ rest

unfoldable pub candidates_from : Option Text → List Text → List Text
candidates_from target [] = []
candidates_from target (line ∷ lines) =
    let stripped = strip line in
    let rest = candidates_from target lines in
    if is_boundary stripped
    then []
    else add_candidate (reads_family target stripped) (split_address stripped) rest

unfoldable pub first_of {ℓ} : {A : Type ℓ} → List A → Option A
first_of [] = none
first_of (x ∷ xs) = some x

unfoldable pub is_none {ℓ} : {A : Type ℓ} → Option A → Bool
is_none none = true
is_none (some a) = false

unfoldable pub set_first : Text → BasicBlock → BasicBlock
set_first addr bb = if is_none bb.first_addr then record bb { first_addr = some addr } else bb

unfoldable pub set_changed : Text → Text → List Text → BasicBlock → BasicBlock
set_changed addr stripped later_lines bb =
    let candidates = candidates_from (last_register stripped) later_lines in
    if is_none bb.changed_addr
    then record bb {
      changed_addr = some addr;
      changed_instruction = some stripped;
      immediate_value = first_of (extract_immediate_values stripped);
      kprobe_addr = first_of candidates;
      candidate_addrs = candidates;
    }
    else bb

unfoldable pub add_instruction_line : Text → Text → List Text → BasicBlock → BasicBlock
add_instruction_line addr stripped later_lines bb =
    let bb1 = set_first addr bb in
    let bb2 = record bb1 { all_instructions = bb1.all_instructions ++ (stripped ∷ []) } in
    if starts_with stripped (text "[*]")
    then set_changed addr stripped later_lines
        (record bb2 { changed_instructions = bb2.changed_instructions ++ (stripped ∷ []) })
    else bb2

-- A line that only goes on with bytes is no instruction.
unfoldable pub add_addressed_line :
    Option (Text × Text) → Text → List Text → BasicBlock → BasicBlock
add_addressed_line none stripped later_lines bb = bb
add_addressed_line (some (addr, rest)) stripped later_lines bb =
    if only_bytes rest then bb else add_instruction_line addr stripped later_lines bb

unfoldable pub set_name : Option Text → BasicBlock → BasicBlock
set_name none bb = bb
set_name (some name) bb = record bb { function_name = some name }

unfoldable pub add_block_line : Text → List Text → BasicBlock → BasicBlock
add_block_line line later_lines bb =
    let stripped = strip line in
    let bb' = record bb { raw_lines = bb.raw_lines ++ (line ∷ []) } in
    if starts_with stripped (text "Function:")
    then set_name (function_name_in stripped) bb'
    else add_addressed_line (split_address (drop_marker stripped)) stripped later_lines bb'

unfoldable pub close_block : Option BasicBlock → List BasicBlock → List BasicBlock
close_block none blocks = blocks
close_block (some bb) blocks = bb ∷ blocks

unfoldable pub add_to : Text → List Text → Option BasicBlock → Option BasicBlock
add_to line later_lines none = none
add_to line later_lines (some bb) = some (add_block_line line later_lines bb)

unfoldable pub blocks_from : Option BasicBlock → List Text → List BasicBlock
blocks_from current_bb [] = close_block current_bb []
blocks_from current_bb (line ∷ lines) =
    let next = close_block current_bb (blocks_from (some new_block) lines) in
    let same = blocks_from (add_to line lines current_bb) lines in
    if begins_block (strip line) then next else same

-- `([0-9a-fA-F]+)\s+<name\+0x([0-9a-fA-F]+)>`, at the first place where it fits.
unfoldable pub reference : Text → Text → Option Text
reference function_name s =
    let name = text "<" ++ (function_name ++ text "+0x") in
    let digits = take_while is_hex (drop (length name) s) in
    if starts_with s name
      && not (digits == [])
      && starts_with (drop (length digits) (drop (length name) s)) (text ">")
    then some digits
    else none

unfoldable pub difference : Option ℕ → Option ℕ → Option ℤ
difference (some addr) (some offset) = some (pos addr -ℤ pos offset)
difference _ _ = none

unfoldable pub base_of_reference : Text → Option Text → Option ℤ
base_of_reference digits none = none
base_of_reference digits (some offset) = difference (parse_nat 16 digits) (parse_nat 16 offset)

unfoldable pub base_at : Text → Text → Option ℤ
base_at function_name s =
    let digits = take_while is_hex s in
    base_of_reference digits (after_spaces (reference function_name) (drop (length digits) s))

unfoldable pub base_in : Text → Text → Option ℤ
base_in function_name [] = none
base_in function_name (c ∷ s) = or_next (base_at function_name (c ∷ s)) (base_in function_name s)

unfoldable pub extract_function_base : Text → List Text → Option ℤ
extract_function_base function_name [] = none
extract_function_base function_name (line ∷ lines) =
    or_next (base_in function_name line) (extract_function_base function_name lines)
