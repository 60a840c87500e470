-- ===== src/Asm/Arith.antt =====
-- The arithmetic of `execute_instruction` (src/codegen.py): ADD, SUB, IMUL, AND, OR, XOR, SHL, SHR, SBB.
use xkernel.Base.{ℕ, ◌^◌, ◌∷◌, Option, some, list_eq, nat_eq}
use xkernel.Base.Int.{ℤ, pos}
use xkernel.Base.Dict.{insert, erase}
use xkernel.Base.Text.{Text}
use xkernel.Asm.{Op, Expr, Executor}
use xkernel.Asm.Operand.{Operand, parse_literal}
use xkernel.Asm.Execute.{expr_of, alt_of, set_both, set_state, with_register, to_register}

-- ADD, SUB and the two-operand IMUL: both versions of the destination.
unfoldable pub combine : Op → Text → Expr → Expr → Executor → Executor
combine o d e e_alt m =
    let dst = expr_of d m in
    set_both d (Expr.binary o dst e) (Expr.binary o (alt_of d dst m) e_alt) m

unfoldable pub arithmetic_to : Op → Operand → Text → Executor → Executor
arithmetic_to o (Operand.imm v) d m = combine o d (Expr.atom v) (Expr.atom v) m
arithmetic_to o (Operand.reg s) d m =
    with_register s (λ a n. combine o d (expr_of a n) (alt_of a (expr_of a n) n) n) m
arithmetic_to o _ d m = m

unfoldable pub exec_add : Operand → Operand → Executor → Executor
exec_add = to_register (arithmetic_to Op.plus)

unfoldable pub exec_sub : Operand → Operand → Executor → Executor
exec_sub = to_register (arithmetic_to Op.minus)

unfoldable pub exec_imul2 : Operand → Operand → Executor → Executor
exec_imul2 = to_register (arithmetic_to Op.times)

-- `imul $imm, %src, %dst`
unfoldable pub multiply : Text → Text → Text → Executor → Executor
multiply v d a m =
    let e = expr_of a m in
    set_both d (Expr.binary Op.times e (Expr.atom v))
      (Expr.binary Op.times (alt_of a e m) (Expr.atom v)) m

unfoldable pub multiply_to : Text → Operand → Operand → Executor → Executor
multiply_to v (Operand.reg (c ∷ s)) (Operand.reg r) m =
    with_register r (λ d. with_register (c ∷ s) (multiply v d)) m
multiply_to v _ _ m = m

unfoldable pub exec_imul3 : Operand → Operand → Operand → Executor → Executor
exec_imul3 (Operand.imm v) src dst m = multiply_to v src dst m
exec_imul3 _ src dst m = m

-- AND, OR and XOR leave the alternative version as it is.
unfoldable pub combine_one : Op → Text → Expr → Executor → Executor
combine_one o d e m = set_state d (Expr.binary o (expr_of d m) e) m

unfoldable pub bitwise_to : Op → Operand → Text → Executor → Executor
bitwise_to o (Operand.imm v) d m = combine_one o d (Expr.atom v) m
bitwise_to o (Operand.reg s) d m = with_register s (λ a n. combine_one o d (expr_of a n) n) m
bitwise_to o _ d m = m

unfoldable pub exec_and : Operand → Operand → Executor → Executor
exec_and = to_register (bitwise_to Op.band)

unfoldable pub exec_or : Operand → Operand → Executor → Executor
exec_or = to_register (bitwise_to Op.bor)

unfoldable pub exec_xor : Operand → Operand → Executor → Executor
exec_xor = to_register (bitwise_to Op.bxor)

-- SHL and SHR by a number have a multiplication or a division as the alternative. A value that
-- `parse_operand` gives is no number below zero: it prints one as `0x-…`, which `int` refuses.
unfoldable pub shift_imm : Op → (Expr → ℕ → Expr) → Text → Text → Option ℤ → Executor → Executor
shift_imm o alt v d (some (pos n)) m =
    let dst = expr_of d m in
    set_both d (Expr.binary o dst (Expr.atom v)) (alt (alt_of d dst m) (2 ^ n)) m
shift_imm o alt v d _ m = set_state d (Expr.binary o (expr_of d m) (Expr.atom v)) m

-- By a register: no alternative is left.
unfoldable pub shift_reg : Op → Text → Text → Executor → Executor
shift_reg o d a m =
    let e = Expr.binary o (expr_of d m) (expr_of a m) in
    record m { state = insert d e m.state; state_alt = erase d m.state_alt }

unfoldable pub shift_to : Op → (Expr → ℕ → Expr) → Operand → Text → Executor → Executor
shift_to o alt (Operand.imm v) d m = shift_imm o alt v d (parse_literal v) m
shift_to o alt (Operand.reg s) d m = with_register s (shift_reg o d) m
shift_to o alt _ d m = m

unfoldable pub exec_shl : Operand → Operand → Executor → Executor
exec_shl = to_register (shift_to Op.left Expr.scaled)

unfoldable pub exec_shr : Operand → Operand → Executor → Executor
exec_shr = to_register (shift_to Op.right Expr.quotient)

unfoldable pub sbb_to : Operand → Text → Executor → Executor
sbb_to (Operand.reg s) d m =
    with_register s (λ a n. set_state d (Expr.borrow (expr_of d n) (expr_of a n)) n) m
sbb_to _ d m = m

unfoldable pub exec_sbb : Operand → Operand → Executor → Executor
exec_sbb = to_register sbb_to
