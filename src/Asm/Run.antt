-- ===== src/Asm/Run.antt =====
-- `execute_instruction`, the run over a block, and the effects of an instruction (src/codegen.py).
use xkernel.Base.{ℕ, Bool, true, false, ◌||◌, List, [], ◌∷◌, Option, some, none, ◌=ℕ◌, ◌==◌}
use xkernel.Base.{list_eq, nat_eq, if◌then◌else◌}
use xkernel.Base.Dict.{Dict}
use xkernel.Base.Text.{Text, text, lower, starts_with}
use xkernel.Asm.{Expr, Executor, new_executor}
use xkernel.Asm.Operand.{Operand, parse_operand, get_anonymous_reg}
use xkernel.Asm.Execute.{expr_of, set_state, mem_atom, exec_mov, exec_movabs, exec_lea, exec_cmov}
use xkernel.Asm.Execute.{exec_movzbl}
use xkernel.Asm.Arith.{exec_add, exec_sub, exec_imul2, exec_imul3, exec_and, exec_or, exec_xor}
use xkernel.Asm.Arith.{exec_shl, exec_shr, exec_sbb}

unfoldable pub is_suffix : ℕ → Bool
is_suffix c = c =ℕ b'b' || c =ℕ b'w' || c =ℕ b'l' || c =ℕ b'q'

-- `re.sub(r'[bwlq]$', '', mnemonic_lower)`: the last letter goes if it is one of these, whether or
-- not it is a size.
unfoldable pub base_mnemonic : Text → Text
base_mnemonic [] = []
base_mnemonic (c ∷ []) = if is_suffix c then [] else c ∷ []
base_mnemonic (c ∷ d ∷ s) = c ∷ base_mnemonic (d ∷ s)

-- The value that CMP and TEST compare: `if src_expr and dst_expr` wants a text that is not empty.
unfoldable pub nonempty_expr : Expr → Option Expr
nonempty_expr (Expr.atom []) = none
nonempty_expr e = some e

unfoldable pub compared_register : Text → Executor → Option Expr × Executor
compared_register [] m = (none, m)
compared_register (c ∷ s) m =
    let (anon, n) = get_anonymous_reg (c ∷ s) m in (nonempty_expr (expr_of anon n), n)

unfoldable pub compared_source : Operand → Executor → Option Expr × Executor
compared_source (Operand.imm v) m = (nonempty_expr (Expr.atom v), m)
compared_source (Operand.reg s) m = compared_register s m
compared_source (Operand.mem v base) m = (some (mem_atom v), m)
compared_source (Operand.label v) m = (none, m)

unfoldable pub compared_target : Operand → Executor → Option Expr × Executor
compared_target (Operand.reg s) m = compared_register s m
compared_target (Operand.mem v base) m = (some (mem_atom v), m)
compared_target _ m = (none, m)

unfoldable pub set_flags : Bool → Option Expr → Option Expr → Executor → Executor
set_flags true (some src) (some dst) m = set_state (text "FLAGS") (Expr.compared dst src) m
set_flags _ _ _ m = m

unfoldable pub exec_cmp : Bool → Operand → Operand → Executor → Executor
exec_cmp is_cmp src dst m =
    let (a, m1) = compared_source src m in
    let (b, m2) = compared_target dst m1 in set_flags is_cmp a b m2

-- The two operands, parsed from left to right.
unfoldable pub with_two :
    (Operand → Operand → Executor → Executor) → List Text → Executor → Executor
with_two f (a ∷ b ∷ []) m =
    let (src, m1) = parse_operand a m in let (dst, m2) = parse_operand b m1 in f src dst m2
with_two f _ m = m

unfoldable pub imul_operands : List Text → Executor → Executor
imul_operands (a ∷ b ∷ c ∷ []) m =
    let (factor, m1) = parse_operand a m in
    let (src, m2) = parse_operand b m1 in
    let (dst, m3) = parse_operand c m2 in exec_imul3 factor src dst m3
imul_operands operands m = with_two exec_imul2 operands m

-- The branches of the chain of tests on the mnemonic. Jumps, calls and what is not known change
-- nothing.
pub data Kind : Type 0 where
  is_mov is_add is_sub is_and is_or is_xor is_shl is_shr is_movabs is_lea is_imul is_cmov is_movzbl
        is_sbb is_cmp is_test is_other :
      Kind

unfoldable pub classify : Text → Text → Kind
classify base mnemonic =
    if base == text "mov"
    then Kind.is_mov
    else if base == text "add"
    then Kind.is_add
    else if base == text "sub"
    then Kind.is_sub
    else if base == text "and"
    then Kind.is_and
    else if base == text "or"
    then Kind.is_or
    else if base == text "xor"
    then Kind.is_xor
    else if base == text "shl"
    then Kind.is_shl
    else if base == text "shr"
    then Kind.is_shr
    else if mnemonic == text "movabs"
    then Kind.is_movabs
    else if mnemonic == text "lea"
    then Kind.is_lea
    else if base == text "imul"
    then Kind.is_imul
    else if starts_with mnemonic (text "cmov")
    then Kind.is_cmov
    else if mnemonic == text "movzbl"
    then Kind.is_movzbl
    else if base == text "sbb"
    then Kind.is_sbb
    else if base == text "cmp"
    then Kind.is_cmp
    else if base == text "test"
    then Kind.is_test
    else Kind.is_other

unfoldable pub perform : Kind → List Text → Executor → Executor
perform Kind.is_mov operands m = with_two exec_mov operands m
perform Kind.is_add operands m = with_two exec_add operands m
perform Kind.is_sub operands m = with_two exec_sub operands m
perform Kind.is_and operands m = with_two exec_and operands m
perform Kind.is_or operands m = with_two exec_or operands m
perform Kind.is_xor operands m = with_two exec_xor operands m
perform Kind.is_shl operands m = with_two exec_shl operands m
perform Kind.is_shr operands m = with_two exec_shr operands m
perform Kind.is_movabs operands m = with_two exec_movabs operands m
perform Kind.is_lea operands m = with_two exec_lea operands m
perform Kind.is_imul operands m = imul_operands operands m
perform Kind.is_cmov operands m = with_two exec_cmov operands m
perform Kind.is_movzbl operands m = with_two exec_movzbl operands m
perform Kind.is_sbb operands m = with_two exec_sbb operands m
perform Kind.is_cmp operands m = with_two (exec_cmp true) operands m
perform Kind.is_test operands m = with_two (exec_cmp false) operands m
perform Kind.is_other operands m = m

unfoldable pub execute_instruction : Text → List Text → Executor → Executor
execute_instruction mnemonic [] m = m
execute_instruction mnemonic (a ∷ operands) m =
    perform (classify (base_mnemonic (lower mnemonic)) (lower mnemonic)) (a ∷ operands) m

-- A line of a block as `parse_instruction` gives it: no instruction, or a mnemonic with operands.
abbrev pub Line : Type 0
Line = Option (Text × List Text)

unfoldable pub execute_line : Line → Executor → Executor
execute_line none m = m
execute_line (some (mnemonic, operands)) m = execute_instruction mnemonic operands m

-- The states after each line, and the executor at the end.
unfoldable pub run_lines : List Line → Executor → List (Dict Text Expr × Dict Text Expr) × Executor
run_lines [] m = ([], m)
run_lines (line ∷ lines) m =
    let n = execute_line line m in
    let (states, last) = run_lines lines n in ((n.state, n.state_alt) ∷ states, last)

-- `{v: k for k, v in reg_map.items()}`, where no value comes twice.
unfoldable pub inverted : Dict Text Text → Dict Text Text
inverted [] = []
inverted ((k, v) ∷ d) = (v, k) ∷ inverted d

unfoldable pub run_symbolic_exec_on_instructions :
    List Line → List (Dict Text Expr × Dict Text Expr) × Dict Text Text
run_symbolic_exec_on_instructions lines =
    let (states, last) = run_lines lines new_executor in (states, inverted last.reg_map)
