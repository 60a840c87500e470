-- ===== src/Asm/Sound/Lines.antt =====
-- A block of lines that read as a program of moves and operations is executed soundly
-- (src/codegen.py, execute_instruction and run_symbolic_exec_on_instructions).
use xkernel.Base.{◌≡◌, List, [], ◌∷◌, some, list_eq, nat_eq}
use xkernel.Base.Text.{Text, lower}
use xkernel.Asm.{Op, Executor}
use xkernel.Asm.Operand.{Operand, parse_operand, get_anonymous_reg}
use xkernel.Asm.Run.{Kind, Line, classify, base_mnemonic}
use xkernel.Asm.Sound.Compute.{operand_of}
use xkernel.Asm.Sound.Program.{Instr, source_of, target_of, read_source}

-- The branch of `execute_instruction` for an instruction.
abbrev pub kind_of : Instr → Kind
kind_of (Instr.move src c r) = Kind.is_mov
kind_of (Instr.compute Op.plus src c r) = Kind.is_add
kind_of (Instr.compute Op.minus src c r) = Kind.is_sub
kind_of (Instr.compute Op.times src c r) = Kind.is_imul
kind_of (Instr.compute Op.band src c r) = Kind.is_and
kind_of (Instr.compute Op.bor src c r) = Kind.is_or
kind_of (Instr.compute Op.bxor src c r) = Kind.is_xor
kind_of (Instr.compute Op.left src c r) = Kind.is_shl
kind_of (Instr.compute Op.right src c r) = Kind.is_shr

-- A line of a block reads as the instruction: `execute_instruction` takes its mnemonic, without a
-- last letter b, w, l or q, for the instruction's branch, and its two operands for the instruction's.
pub record IsLineOf (i : Instr) (line : Line) : Type 0 where
  pub mnemonic : Text
  pub first : Text
  pub second : Text
  pub is_line : line ≡ some (mnemonic, first ∷ second ∷ [])
  pub branch : classify (base_mnemonic (lower mnemonic)) (lower mnemonic) ≡ kind_of i
  pub reads_first :
      (m : Executor)
      → parse_operand first m ≡ (operand_of (source_of i), read_source (source_of i) m)
  pub reads_second :
      (m : Executor)
      → parse_operand second m ≡ (Operand.reg (target_of i), (get_anonymous_reg (target_of i) m).1)

abbrev pub AreLinesOf : List Instr → List Line → Type 0
AreLinesOf [] [] = Unit
AreLinesOf [] (line ∷ lines) = ⊥
AreLinesOf (i ∷ is) [] = ⊥
AreLinesOf (i ∷ is) (line ∷ lines) = IsLineOf i line × AreLinesOf is lines
