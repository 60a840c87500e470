-- ===== src/Diff/Block.antt =====
-- The basic block around an instruction (src/diff.py): the two loops of
-- `find_basic_block_for_address` and of `main`, and the blocks that `main` extracts.
pub mod Starts
pub mod Laws
pub mod Named
pub mod Extract
use xkernel.Base.{ℕ, zero, suc, ◌-◌, Bool, true, false, ◌&&◌, ◌||◌, Option, none, some, List, []}
use xkernel.Base.{◌∷◌, map, if◌then◌else◌, ◌==◌, list_eq, nat_eq, length, get_elem?, take, drop}
use xkernel.Base.{ltb}
use xkernel.Base.Int.{ℤ, pos, int_beq, ltb_ℤ}
use xkernel.Base.Text.{Text, text, parse_int, parse_nat}
use xkernel.Diff.Instructions.{Instruction, parse_instructions_from_disassembly, ends_block}
use xkernel.Diff.Instructions.{label_header}

unfoldable pub label_at : List Instruction → ℕ → Bool
label_at insts i = elim (get_elem? insts i) [ none ↦ false | some inst ↦ inst.is_label ]

unfoldable pub ends_at : List Instruction → ℕ → Bool
ends_at insts i = elim (get_elem? insts i) [ none ↦ false | some inst ↦ ends_block inst ]

-- The instruction after a terminator; `none` where the terminator is the last instruction.
unfoldable pub next_in : List Instruction → ℕ → Option ℕ
next_in insts i = if ltb (suc i) (length insts) then some (suc i) else none

-- Backwards, to a label or behind a terminator.
unfoldable pub find_start : List Instruction → ℕ → Option ℕ
find_start insts zero =
    if label_at insts 0 then some 0 else if ends_at insts 0 then next_in insts 0 else some 0
find_start insts (suc i) =
    let rest = find_start insts i in
    if label_at insts (suc i)
    then some (suc i)
    else if ends_at insts (suc i)
    then next_in insts (suc i)
    else rest

-- Forwards, to a terminator or before a label; `left` instructions are left.
unfoldable pub find_end_from : List Instruction → ℕ → ℕ → ℕ → ℕ → ℕ
find_end_from insts start_idx zero i end_idx = end_idx
find_end_from insts start_idx (suc left) i end_idx =
    let rest = find_end_from insts start_idx left (suc i) i in
    if label_at insts i && ltb start_idx i then i - 1 else if ends_at insts i then i else rest

unfoldable pub find_end : List Instruction → ℕ → ℕ
find_end insts start_idx =
    find_end_from insts start_idx (length insts - start_idx) start_idx start_idx

unfoldable pub pair_of : Instruction → Text × Text
pair_of inst = (inst.addr, inst.inst_line)

unfoldable pub block_at : List Instruction → ℕ → List Instruction
block_at insts start_idx = take (suc (find_end insts start_idx) - start_idx) (drop start_idx insts)

-- The search for an address stops at a larger one.
unfoldable pub find_target : ℤ → ℕ → List Instruction → Option ℕ
find_target target i [] = none
find_target target i (inst ∷ insts) =
    let rest = find_target target (suc i) insts in
    elim (parse_nat 16 inst.addr) [
      | none ↦ rest
      | some n ↦
          if int_beq (pos n) target then some i else if ltb_ℤ target (pos n) then none else rest
    ]

unfoldable pub nonempty_block : List Instruction → Option (List (Text × Text))
nonempty_block [] = none
nonempty_block (inst ∷ insts) = some (map pair_of (inst ∷ insts))

unfoldable pub block_from : List Instruction → Option ℕ → Option (List (Text × Text))
block_from insts none = none
block_from insts (some start_idx) = nonempty_block (block_at insts start_idx)

unfoldable pub block_of_target : List Instruction → Option ℕ → Option (List (Text × Text))
block_of_target insts none = none
block_of_target insts (some i) = block_from insts (find_start insts i)

unfoldable pub block_in : List Instruction → ℤ → Option (List (Text × Text))
block_in insts target = block_of_target insts (find_target target 0 insts)

unfoldable pub has_name : Text → Option (Text × Text) → Bool
has_name name none = false
has_name name (some (addr, found)) = found == name

-- The instruction whose own line is the header of the function.
unfoldable pub names_function : List Text → Text → Instruction → Bool
names_function lines name inst = inst.is_label && elim (get_elem? lines (inst.line_num - 1)) [
  | none ↦ false
  | some line ↦ has_name name (label_header line)
]

unfoldable pub until_label : List Instruction → List Instruction
until_label [] = []
until_label (inst ∷ insts) = if inst.is_label then [] else inst ∷ until_label insts

unfoldable pub function_instructions :
    List Text → Text → List Instruction → Option (List Instruction)
function_instructions lines name [] = none
function_instructions lines name (inst ∷ insts) =
    if names_function lines name inst
    then some (inst ∷ until_label insts)
    else function_instructions lines name insts

unfoldable pub block_in_function : Option (List Instruction) → ℤ → Option (List (Text × Text))
block_in_function none target = none
block_in_function (some insts) target = block_in insts target

-- An empty name, and no name, mean all functions.
unfoldable pub block_named : List Text → Text → ℤ → Option (List (Text × Text))
block_named lines [] target = block_in (parse_instructions_from_disassembly lines) target
block_named lines (c ∷ name) target =
    block_in_function
      (function_instructions lines (c ∷ name) (parse_instructions_from_disassembly lines)) target

unfoldable pub at_address : List Text → Text → Option ℤ → Option (List (Text × Text))
at_address lines name none = none
at_address lines name (some target) = block_named lines name target

unfoldable pub find_basic_block_for_address : List Text → Text → Text → Option (List (Text × Text))
find_basic_block_for_address lines addr_str function_name =
    at_address lines function_name (parse_int 16 addr_str)
