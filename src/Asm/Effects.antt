-- ===== src/Asm/Effects.antt =====
-- The registers and memory that an instruction writes and reads, and the filter over changed
-- instructions (src/codegen.py).
pub mod Fresh
use xkernel.Base.{ℕ, suc, Bool, true, false, not, ◌&&◌, ◌||◌, List, [], ◌∷◌, ◌++◌, Option, some}
use xkernel.Base.{none, keep, ◌==◌, list_eq, nat_eq, if◌then◌else◌, contains, drop}
use xkernel.Base.Dict.{Dict, lookup, insert}
use xkernel.Base.Text.{Text, text, lower, starts_with, strip}
use xkernel.Asm.{Executor, new_executor}
use xkernel.Asm.Register.{get_base_register}
use xkernel.Asm.Operand.{Operand, parse_operand, get_anonymous_reg}
use xkernel.Asm.Run.{Line, base_mnemonic}

-- `s.add(x)` on a set, in the order of insertion.
unfoldable pub add : Text → List Text → List Text
add x s = if contains s x then s else s ++ (x ∷ [])

-- Registers and memory.
abbrev pub Effects : Type 0
Effects = List Text × List Text

unfoldable pub add_register : Text → Effects → Executor → Effects × Executor
add_register [] e m = (e, m)
add_register (c ∷ s) (regs, mems) m =
    let (anon, n) = get_anonymous_reg (get_base_register (c ∷ s)) m in ((add anon regs, mems), n)

unfoldable pub add_operand : Operand → Effects → Executor → Effects × Executor
add_operand (Operand.reg s) e m = add_register s e m
add_operand (Operand.mem v base) (regs, mems) m = ((regs, add v mems), m)
add_operand _ e m = (e, m)

-- One operand, parsed and added.
unfoldable pub add_parsed : Text → Effects → Executor → Effects × Executor
add_parsed operand e m = let (o, n) = parse_operand operand m in add_operand o e n

unfoldable pub writing_mnemonics : List Text
writing_mnemonics =
    text "mov"
    ∷ text "movabs"
    ∷ text "add"
    ∷ text "sub"
    ∷ text "and"
    ∷ text "or"
    ∷ text "xor"
    ∷ text "shl"
    ∷ text "shr"
    ∷ text "sar"
    ∷ text "sal"
    ∷ text "movzbl"
    ∷ text "movzwl"
    ∷ text "movslq"
    ∷ text "movsbl"
    ∷ text "movsbq"
    ∷ text "movswl"
    ∷ text "movswq"
    ∷ text "sbb"
    ∷ text "lea"
    ∷ text "imul"
    ∷ []

unfoldable pub is_writing : Text → Bool
is_writing base_mn = contains writing_mnemonics base_mn || starts_with base_mn (text "cmov")

unfoldable pub is_comparing : Text → Bool
is_comparing base_mn = base_mn == text "cmp" || base_mn == text "test"

-- `operands[-1]`, where there are two operands or more.
unfoldable pub add_last : List Text → Effects → Executor → Effects × Executor
add_last [] e m = (e, m)
add_last (a ∷ []) e m = add_parsed a e m
add_last (a ∷ b ∷ operands) e m = add_last (b ∷ operands) e m

unfoldable pub add_target : List Text → Effects → Executor → Effects × Executor
add_target (a ∷ b ∷ operands) e m = add_last (b ∷ operands) e m
add_target _ e m = (e, m)

-- All operands but the last.
unfoldable pub add_sources : List Text → Effects → Executor → Effects × Executor
add_sources (a ∷ b ∷ operands) e m = let (f, n) = add_parsed a e m in add_sources (b ∷ operands) f n
add_sources _ e m = (e, m)

unfoldable pub get_written_effects : Text → List Text → Executor → Effects × Executor
get_written_effects mnemonic operands m =
    if is_writing (base_mnemonic (lower mnemonic))
    then add_target operands ([], []) m
    else (([], []), m)

unfoldable pub get_read_effects : Text → List Text → Executor → Effects × Executor
get_read_effects mnemonic operands m =
    let base_mn = base_mnemonic (lower mnemonic) in
    let (sources, n) = add_sources operands ([], []) m in
    if is_comparing base_mn
    then add_target operands sources n
    else if is_writing base_mn
    then (sources, n)
    else (([], []), m)

-- What is written and what is read: each instruction by an executor of its own.
unfoldable pub get_instruction_effects : Line → Effects × Effects
get_instruction_effects none = (([], []), ([], []))
get_instruction_effects (some (mnemonic, operands)) =
    let (written, n) = get_written_effects mnemonic operands new_executor in
    (written, (get_read_effects mnemonic operands n).0)

-- `pending_effects`, registers and memory apart.
unfoldable pub add_all : List Text → List Text → List Text
add_all [] s = s
add_all (x ∷ xs) s = add_all xs (add x s)

unfoldable pub discard_all : List Text → List Text → List Text
discard_all xs s = keep (λ y. not (contains xs y)) s

unfoldable pub is_empty : Effects → Bool
is_empty ([], []) = true
is_empty _ = false

-- A changed instruction at an index: the line to use, if there is one.
abbrev pub Changes : Type 0
Changes = Dict ℕ (Option Line)

unfoldable pub produced : Line → Effects → Effects
produced line (regs, mems) =
    let ((wr, wm), reads) = get_instruction_effects line in (add_all wr regs, add_all wm mems)

unfoldable pub consumed : Line → Effects → Effects
consumed line (regs, mems) =
    let (writes, (rr, rm)) = get_instruction_effects line in
    (discard_all rr regs, discard_all rm mems)

-- The loop from the first changed instruction: the indices, from 1, and the lines of the result.
-- `started` says that there is a result before.
unfoldable pub filter_loop : Changes → ℕ → Bool → List Line → Effects → List (ℕ × Line)
filter_loop changes i started [] pending = []
filter_loop changes i started (line ∷ lines) pending = elim (lookup i changes) [
  | none ↦ filter_loop changes (suc i) started lines (consumed line pending)
  | some none ↦
      let left = consumed line pending in
      let rest = filter_loop changes (suc i) started lines left in
      if is_empty left && started then [] else rest
  | some (some changed) ↦
      let left = consumed line (produced changed pending) in
      let rest = filter_loop changes (suc i) true lines left in
      (suc i, changed) ∷ (if is_empty left then [] else rest)
]

-- `{diff[0]: diff for diff in differences}`
unfoldable pub changes_of : List (ℕ × Option Line) → Changes → Changes
changes_of [] changes = changes
changes_of ((i, line) ∷ differences) changes = changes_of differences (insert i line changes)

unfoldable pub filter_changed_instructions_by_effects :
    List (ℕ × Option Line) → List Line → List (ℕ × Line)
filter_changed_instructions_by_effects [] full_sequence = []
filter_changed_instructions_by_effects ((first, line) ∷ differences) full_sequence =
    filter_loop (changes_of ((first, line) ∷ differences) []) first false (drop first full_sequence)
      ([], [])
