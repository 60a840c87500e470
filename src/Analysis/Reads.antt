-- ===== src/Analysis/Reads.antt =====
-- `instruction_reads_register` (src/codegen.py): whether a line of objdump reads a register family.
use xkernel.Base.{◌≡◌, arith, Bool, true, false, not, ◌&&◌, ◌||◌, ◌⊎◌, List, [], ◌∷◌}
use xkernel.Base.{if◌then◌else◌, ◌=ℕ◌, ◌==◌, list_eq, nat_eq, contains, length, drop}
use xkernel.Base.Dict.{get}
use xkernel.Base.Text.{Text, text, strip, split, join, lower, starts_with}
use xkernel.Asm.Register.{families}
use xkernel.Asm.Operand.{split_asm_operands}
use xkernel.Asm.Run.{base_mnemonic}
use xkernel.Analysis.Jump.{words}
use xkernel.Analysis.Varying.{starts_word}

-- The names of a family; the source has the table of get_register_family here once more.
unfoldable pub family_regs : Text → List Text
family_regs reg_family = get reg_family (reg_family ∷ []) families

-- The search for `%` and a name of the family that is no part of a longer word.
unfoldable pub name_at : List Text → Text → Bool
name_at [] s = false
name_at (reg ∷ regs) s =
    (starts_with s reg && not (starts_word (drop (length reg) s))) || name_at regs s

unfoldable pub mentions : List Text → Text → Bool
mentions regs [] = false
mentions regs (c ∷ s) = (c =ℕ b'%' && name_at regs s) || mentions regs s

-- The assembler part of a line: what stands after the last tab, if there is one.
unfoldable pub last_of : List Text → Text
last_of [] = []
last_of (p ∷ []) = p
last_of (p ∷ q ∷ ps) = last_of (q ∷ ps)

unfoldable pub after_tab : List Text → Text
after_tab [] = []
after_tab (p ∷ ps) = last_of ps

unfoldable pub asm_part : Text → Text
asm_part inst_line = strip (after_tab (split 9 inst_line))

unfoldable pub first_token : List Text → Text
first_token [] = []
first_token (t ∷ ts) = t

unfoldable pub token_of : Text → Text
token_of inst_line = first_token (words (asm_part inst_line))

unfoldable pub mnemonic_of : Text → Text
mnemonic_of inst_line = lower (token_of inst_line)

unfoldable pub operand_str : Text → Text
operand_str inst_line = strip (drop (length (token_of inst_line)) (asm_part inst_line))

unfoldable pub is_call : Text → Bool
is_call mnemonic = mnemonic == text "call" || mnemonic == text "callq"

unfoldable pub is_argument : Text → Bool
is_argument = contains (text "di" ∷ text "si" ∷ text "dx" ∷ text "cx" ∷ text "r8" ∷ text "r9" ∷ [])

unfoldable pub is_write_only : Text → Bool
is_write_only = contains (
    text "mov"
    ∷ text "lea"
    ∷ text "movzb"
    ∷ text "movsb"
    ∷ text "movs"
    ∷ text "movabs"
    ∷ text "movsx"
    ∷ text "movzx"
    ∷ text "movsxd"
    ∷ [])

-- The operands but the last, and the last.
unfoldable pub but_last : List Text → List Text
but_last [] = []
but_last (p ∷ []) = []
but_last (p ∷ q ∷ ps) = p ∷ but_last (q ∷ ps)

unfoldable pub reads_operands : List Text → List Text → Bool
reads_operands regs (p ∷ q ∷ ps) =
    let dst = strip (last_of (p ∷ q ∷ ps)) in
    mentions regs (join (text ",") (but_last (p ∷ q ∷ ps)))
    || (contains dst b'(' && mentions regs dst)
reads_operands regs _ = true

unfoldable pub reads_other : Text → List Text → Text → Bool
reads_other base_mn regs operands =
    if mentions regs operands
    then (if is_write_only base_mn then reads_operands regs (split_asm_operands operands) else true)
    else false

unfoldable pub reads_instruction : Text → Text → List Text → Text → Bool
reads_instruction mnemonic reg_family regs operands =
    if is_call mnemonic
    then is_argument reg_family || mentions regs operands
    else reads_other (base_mnemonic mnemonic) regs operands

unfoldable pub reads_part : Text → Text → Text → Bool
reads_part [] inst_line reg_family = false
reads_part (c ∷ asm) inst_line reg_family =
    reads_instruction (mnemonic_of inst_line) reg_family (family_regs reg_family)
      (operand_str inst_line)

unfoldable pub instruction_reads_register : Text → Text → Bool
instruction_reads_register inst_line reg_family =
    reads_part (asm_part inst_line) inst_line reg_family

-- A line that reads a register family is a call, of a family that holds arguments, or names a
-- register of the family in its operands.
reads-mentions :
    (inst_line reg_family : Text)
    → (instruction_reads_register inst_line reg_family ≡ true
        → ((is_call (mnemonic_of inst_line) ≡ true) × (is_argument reg_family ≡ true))
          ⊎ (mentions (family_regs reg_family) (operand_str inst_line) ≡ true))
unfolding instruction_reads_register reads_part reads_instruction reads_other
reads-mentions inst_line reg_family = by_part (asm_part inst_line)
  where
    by_part :
        (asm : Text)
        → reads_part asm inst_line reg_family ≡ true
        → ((is_call (mnemonic_of inst_line) ≡ true) × (is_argument reg_family ≡ true))
          ⊎ (mentions (family_regs reg_family) (operand_str inst_line) ≡ true)
    by_part [] h = ground (arith, h)
    by_part (c ∷ asm) h = ground (arith, h)
