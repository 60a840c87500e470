-- ===== src/Asm/Keeps/Run.antt =====
-- Every instruction keeps the numbering of the anonymous registers: the dispatch and the run.
use xkernel.Base.{Bool, true, false, List, [], ◌∷◌, Option, some, none}
use xkernel.Base.Text.{Text, lower}
use xkernel.Asm.{Op, Expr, Executor}
use xkernel.Asm.Operand.{Operand}
use xkernel.Asm.Operand.Names.{IsNumbered, get_anonymous_reg-IsNumbered, parse_operand-IsNumbered}
use xkernel.Asm.Execute.{movabs_to, exec_mov, exec_movabs, set_state, lea_to, exec_lea, cmov_to}
use xkernel.Asm.Execute.{exec_cmov, movzbl_to, exec_movzbl}
use xkernel.Asm.Arith.{arithmetic_to, exec_add, exec_sub, exec_imul2, bitwise_to, exec_and}
use xkernel.Asm.Arith.{exec_or, exec_xor, shift_to, exec_shl, exec_shr, sbb_to, exec_sbb}
use xkernel.Asm.Run.{compared_register, compared_source, compared_target, set_flags, exec_cmp}
use xkernel.Asm.Run.{with_two, imul_operands, perform, Kind, classify, execute_instruction}
use xkernel.Asm.Run.{execute_line, Line, run_lines, base_mnemonic}
use xkernel.Asm.Keeps.{Keeps, to_register-Keeps, movabs_to-Keeps, exec_mov-Keeps}
use xkernel.Asm.Keeps.{arithmetic_to-Keeps, bitwise_to-Keeps, shift_to-Keeps, lea_to-Keeps}
use xkernel.Asm.Keeps.{cmov_to-Keeps, movzbl_to-Keeps, sbb_to-Keeps, exec_imul3-Keeps}

register-IsNumbered :
    (r : Text) (m : Executor) → IsNumbered m → IsNumbered (compared_register r m).1
unfolding compared_register
register-IsNumbered [] m h = h
register-IsNumbered (c ∷ s) m h = get_anonymous_reg-IsNumbered (c ∷ s) m h

source-IsNumbered : (o : Operand) (m : Executor) → IsNumbered m → IsNumbered (compared_source o m).1
unfolding compared_source
source-IsNumbered (Operand.imm v) m h = h
source-IsNumbered (Operand.reg s) m h = register-IsNumbered s m h
source-IsNumbered (Operand.mem v b) m h = h
source-IsNumbered (Operand.label v) m h = h

target-IsNumbered : (o : Operand) (m : Executor) → IsNumbered m → IsNumbered (compared_target o m).1
unfolding compared_target
target-IsNumbered (Operand.imm v) m h = h
target-IsNumbered (Operand.reg s) m h = register-IsNumbered s m h
target-IsNumbered (Operand.mem v b) m h = h
target-IsNumbered (Operand.label v) m h = h

set_flags-Keeps : (b : Bool) (x y : Option Expr) → Keeps (set_flags b x y)
unfolding set_flags set_state
set_flags-Keeps true (some x) (some y) m h = h
set_flags-Keeps true (some x) none m h = h
set_flags-Keeps true none y m h = h
set_flags-Keeps false x y m h = h

exec_cmp-Keeps : (b : Bool) (src dst : Operand) → Keeps (exec_cmp b src dst)
unfolding exec_cmp
exec_cmp-Keeps b src dst m h =
    set_flags-Keeps b _ _ _ (target-IsNumbered dst _ (source-IsNumbered src m h))

with_two-Keeps :
    (f : Operand → Operand → Executor → Executor)
    → ((src dst : Operand) → Keeps (f src dst))
    → (operands : List Text) → Keeps (with_two f operands)
unfolding with_two
with_two-Keeps f k [] m h = h
with_two-Keeps f k (a ∷ []) m h = h
with_two-Keeps f k (a ∷ b ∷ []) m h =
    k _ _ _ (parse_operand-IsNumbered b _ (parse_operand-IsNumbered a m h))
with_two-Keeps f k (a ∷ b ∷ c ∷ s) m h = h

imul_operands-Keeps : (operands : List Text) → Keeps (imul_operands operands)
unfolding imul_operands exec_imul2
imul_operands-Keeps (a ∷ b ∷ c ∷ []) m h =
    exec_imul3-Keeps _ _ _ _
      (parse_operand-IsNumbered c _ (parse_operand-IsNumbered b _ (parse_operand-IsNumbered a m h)))
imul_operands-Keeps [] m h =
    with_two-Keeps exec_imul2 (to_register-Keeps _ (arithmetic_to-Keeps Op.times)) [] m h
imul_operands-Keeps (a ∷ []) m h =
    with_two-Keeps exec_imul2 (to_register-Keeps _ (arithmetic_to-Keeps Op.times)) (a ∷ []) m h
imul_operands-Keeps (a ∷ b ∷ []) m h =
    with_two-Keeps exec_imul2 (to_register-Keeps _ (arithmetic_to-Keeps Op.times)) (a ∷ b ∷ []) m h
imul_operands-Keeps (a ∷ b ∷ c ∷ d ∷ s) m h =
    with_two-Keeps exec_imul2 (to_register-Keeps _ (arithmetic_to-Keeps Op.times))
      (a ∷ b ∷ c ∷ d ∷ s) m h

perform-Keeps : (kind : Kind) (operands : List Text) → Keeps (perform kind operands)
unfolding perform exec_movabs exec_add exec_sub exec_and exec_or exec_xor exec_shl exec_shr exec_lea
    exec_cmov exec_movzbl exec_sbb
perform-Keeps Kind.is_mov operands m h = with_two-Keeps exec_mov exec_mov-Keeps operands m h
perform-Keeps Kind.is_add operands m h =
    with_two-Keeps exec_add
      (to_register-Keeps (arithmetic_to Op.plus) (arithmetic_to-Keeps Op.plus)) operands m h
perform-Keeps Kind.is_sub operands m h =
    with_two-Keeps exec_sub
      (to_register-Keeps (arithmetic_to Op.minus) (arithmetic_to-Keeps Op.minus)) operands m h
perform-Keeps Kind.is_and operands m h =
    with_two-Keeps exec_and (to_register-Keeps (bitwise_to Op.band) (bitwise_to-Keeps Op.band))
      operands m h
perform-Keeps Kind.is_or operands m h =
    with_two-Keeps exec_or (to_register-Keeps (bitwise_to Op.bor) (bitwise_to-Keeps Op.bor))
      operands m h
perform-Keeps Kind.is_xor operands m h =
    with_two-Keeps exec_xor (to_register-Keeps (bitwise_to Op.bxor) (bitwise_to-Keeps Op.bxor))
      operands m h
perform-Keeps Kind.is_shl operands m h =
    with_two-Keeps exec_shl
      (to_register-Keeps (shift_to Op.left Expr.scaled) (shift_to-Keeps Op.left Expr.scaled))
      operands m h
perform-Keeps Kind.is_shr operands m h =
    with_two-Keeps exec_shr
      (to_register-Keeps (shift_to Op.right Expr.quotient) (shift_to-Keeps Op.right Expr.quotient))
      operands m h
perform-Keeps Kind.is_movabs operands m h =
    with_two-Keeps exec_movabs (to_register-Keeps movabs_to movabs_to-Keeps) operands m h
perform-Keeps Kind.is_lea operands m h =
    with_two-Keeps exec_lea (to_register-Keeps lea_to lea_to-Keeps) operands m h
perform-Keeps Kind.is_imul operands m h = imul_operands-Keeps operands m h
perform-Keeps Kind.is_cmov operands m h =
    with_two-Keeps exec_cmov (to_register-Keeps cmov_to cmov_to-Keeps) operands m h
perform-Keeps Kind.is_movzbl operands m h =
    with_two-Keeps exec_movzbl (to_register-Keeps movzbl_to movzbl_to-Keeps) operands m h
perform-Keeps Kind.is_sbb operands m h =
    with_two-Keeps exec_sbb (to_register-Keeps sbb_to sbb_to-Keeps) operands m h
perform-Keeps Kind.is_cmp operands m h =
    with_two-Keeps (exec_cmp true) (exec_cmp-Keeps true) operands m h
perform-Keeps Kind.is_test operands m h =
    with_two-Keeps (exec_cmp false) (exec_cmp-Keeps false) operands m h
perform-Keeps Kind.is_other operands m h = h

-- Every instruction, known or not, keeps the numbering.
pub execute_instruction-IsNumbered :
    (mnemonic : Text) (operands : List Text) (m : Executor)
    → IsNumbered m
    → IsNumbered (execute_instruction mnemonic operands m)
unfolding execute_instruction
execute_instruction-IsNumbered mnemonic [] m h = h
execute_instruction-IsNumbered mnemonic (a ∷ operands) m h =
    perform-Keeps (classify (base_mnemonic (lower mnemonic)) (lower mnemonic)) (a ∷ operands) m h

line-IsNumbered : (line : Line) → Keeps (execute_line line)
unfolding execute_line
line-IsNumbered none m h = h
line-IsNumbered (some (mnemonic, operands)) m h =
    execute_instruction-IsNumbered mnemonic operands m h

pub run_lines-IsNumbered :
    (lines : List Line) (m : Executor) → IsNumbered m → IsNumbered (run_lines lines m).1
unfolding run_lines
run_lines-IsNumbered [] m h = h
run_lines-IsNumbered (line ∷ lines) m h = run_lines-IsNumbered lines _ (line-IsNumbered line m h)
