-- ===== src/Asm/Keeps.antt =====
-- Every instruction keeps the numbering of the anonymous registers: what it does to its operands.
pub mod Run
use xkernel.Base.{◌≡◌, refl, Bool, true, false, if◌then◌else◌, List, [], ◌∷◌, Option, some, none}
use xkernel.Base.{ℕ}
use xkernel.Base.Int.{ℤ, pos, negsuc}
use xkernel.Base.Text.{Text, text, lower}
use xkernel.Asm.{Op, Expr, Executor, new_executor}
use xkernel.Asm.Operand.{Operand, parse_operand, get_anonymous_reg, parse_literal}
use xkernel.Asm.Operand.Names.{IsNumbered, get_anonymous_reg-IsNumbered, parse_operand-IsNumbered}
use xkernel.Asm.Execute.{with_register, to_register, mov_to, movabs_to, mov_to_mem, exec_mov}
use xkernel.Asm.Execute.{exec_movabs, copy, set_both, set_state, lea_to, exec_lea, choose}
use xkernel.Asm.Execute.{cmov_to, exec_cmov, movzbl_to, exec_movzbl, expr_of}
use xkernel.Asm.Arith.{combine, arithmetic_to, exec_add, exec_sub, exec_imul2, exec_imul3}
use xkernel.Asm.Arith.{multiply, multiply_to, combine_one, bitwise_to, exec_and, exec_or}
use xkernel.Asm.Arith.{exec_xor, shift_imm, shift_reg, shift_to, exec_shl, exec_shr, sbb_to}
use xkernel.Asm.Arith.{exec_sbb}
use xkernel.Asm.Run.{nonempty_expr, compared_register, compared_source, compared_target}
use xkernel.Asm.Run.{set_flags, exec_cmp, with_two, imul_operands, perform, classify}
use xkernel.Asm.Run.{execute_instruction, execute_line, Line, run_lines, base_mnemonic}

abbrev pub Keeps : (Executor → Executor) → Type 0
Keeps f = (m : Executor) → IsNumbered m → IsNumbered (f m)

pub with_register-Keeps :
    (r : Text) (f : Text → Executor → Executor)
    → ((anon : Text) → Keeps (f anon))
    → Keeps (with_register r f)
unfolding with_register
with_register-Keeps [] f k m h = h
with_register-Keeps (c ∷ s) f k m h = k _ _ (get_anonymous_reg-IsNumbered (c ∷ s) m h)

pub to_register-Keeps :
    (f : Operand → Text → Executor → Executor)
    → ((src : Operand) (d : Text) → Keeps (f src d))
    → (src dst : Operand) → Keeps (to_register f src dst)
unfolding to_register
to_register-Keeps f k src (Operand.reg r) m h = with_register-Keeps r (f src) (k src) m h
to_register-Keeps f k src (Operand.imm v) m h = h
to_register-Keeps f k src (Operand.mem v b) m h = h
to_register-Keeps f k src (Operand.label v) m h = h

pub mov_to-Keeps : (src : Operand) (d : Text) → Keeps (mov_to src d)
unfolding mov_to set_both copy
mov_to-Keeps (Operand.imm v) d m h = h
mov_to-Keeps (Operand.reg s) d m h = with_register-Keeps s (copy d) (λ a m h. h) m h
mov_to-Keeps (Operand.mem v b) d m h = h
mov_to-Keeps (Operand.label v) d m h = h

pub movabs_to-Keeps : (src : Operand) (d : Text) → Keeps (movabs_to src d)
unfolding movabs_to set_both copy
movabs_to-Keeps (Operand.imm v) d m h = h
movabs_to-Keeps (Operand.reg s) d m h = with_register-Keeps s (copy d) (λ a m h. h) m h
movabs_to-Keeps (Operand.mem v b) d m h = h
movabs_to-Keeps (Operand.label v) d m h = h

mov_to_mem-Keeps : (src : Operand) (v : Text) → Keeps (mov_to_mem src v)
unfolding mov_to_mem set_both
mov_to_mem-Keeps (Operand.imm w) v m h = h
mov_to_mem-Keeps (Operand.reg s) v m h = with_register-Keeps s _ (λ a m h. h) m h
mov_to_mem-Keeps (Operand.mem w b) v m h = h
mov_to_mem-Keeps (Operand.label w) v m h = h

pub exec_mov-Keeps : (src dst : Operand) → Keeps (exec_mov src dst)
unfolding exec_mov
exec_mov-Keeps src (Operand.imm v) = to_register-Keeps mov_to mov_to-Keeps src (Operand.imm v)
exec_mov-Keeps src (Operand.reg r) = to_register-Keeps mov_to mov_to-Keeps src (Operand.reg r)
exec_mov-Keeps src (Operand.mem v b) = mov_to_mem-Keeps src v
exec_mov-Keeps src (Operand.label v) = to_register-Keeps mov_to mov_to-Keeps src (Operand.label v)

pub arithmetic_to-Keeps : (o : Op) (src : Operand) (d : Text) → Keeps (arithmetic_to o src d)
unfolding arithmetic_to combine set_both
arithmetic_to-Keeps o (Operand.imm v) d m h = h
arithmetic_to-Keeps o (Operand.reg s) d m h = with_register-Keeps s _ (λ a m h. h) m h
arithmetic_to-Keeps o (Operand.mem v b) d m h = h
arithmetic_to-Keeps o (Operand.label v) d m h = h

pub bitwise_to-Keeps : (o : Op) (src : Operand) (d : Text) → Keeps (bitwise_to o src d)
unfolding bitwise_to combine_one set_state
bitwise_to-Keeps o (Operand.imm v) d m h = h
bitwise_to-Keeps o (Operand.reg s) d m h = with_register-Keeps s _ (λ a m h. h) m h
bitwise_to-Keeps o (Operand.mem v b) d m h = h
bitwise_to-Keeps o (Operand.label v) d m h = h

shift_imm-Keeps :
    (o : Op) (alt : Expr → ℕ → Expr) (v d : Text) (n : Option ℤ) → Keeps (shift_imm o alt v d n)
unfolding shift_imm set_both set_state
shift_imm-Keeps o alt v d none m h = h
shift_imm-Keeps o alt v d (some (pos n)) m h = h
shift_imm-Keeps o alt v d (some (negsuc n)) m h = h

pub shift_to-Keeps :
    (o : Op) (alt : Expr → ℕ → Expr) (src : Operand) (d : Text) → Keeps (shift_to o alt src d)
unfolding shift_to shift_reg
shift_to-Keeps o alt (Operand.imm v) d m h = shift_imm-Keeps o alt v d (parse_literal v) m h
shift_to-Keeps o alt (Operand.reg s) d m h = with_register-Keeps s _ (λ a m h. h) m h
shift_to-Keeps o alt (Operand.mem v b) d m h = h
shift_to-Keeps o alt (Operand.label v) d m h = h

pub lea_to-Keeps : (src : Operand) (d : Text) → Keeps (lea_to src d)
unfolding lea_to set_both
lea_to-Keeps (Operand.imm v) d m h = h
lea_to-Keeps (Operand.reg s) d m h = h
lea_to-Keeps (Operand.mem [] b) d m h = h
lea_to-Keeps (Operand.mem (c ∷ v) b) d m h = h
lea_to-Keeps (Operand.label v) d m h = h

pub cmov_to-Keeps : (src : Operand) (d : Text) → Keeps (cmov_to src d)
unfolding cmov_to choose set_both
cmov_to-Keeps (Operand.imm v) d m h = h
cmov_to-Keeps (Operand.reg s) d m h = with_register-Keeps s _ (λ a m h. h) m h
cmov_to-Keeps (Operand.mem v b) d m h = h
cmov_to-Keeps (Operand.label v) d m h = h

pub movzbl_to-Keeps : (src : Operand) (d : Text) → Keeps (movzbl_to src d)
unfolding movzbl_to set_state
movzbl_to-Keeps (Operand.imm v) d m h = h
movzbl_to-Keeps (Operand.reg s) d m h = with_register-Keeps s _ (λ a m h. h) m h
movzbl_to-Keeps (Operand.mem v b) d m h = h
movzbl_to-Keeps (Operand.label v) d m h = h

pub sbb_to-Keeps : (src : Operand) (d : Text) → Keeps (sbb_to src d)
unfolding sbb_to set_state
sbb_to-Keeps (Operand.imm v) d m h = h
sbb_to-Keeps (Operand.reg s) d m h = with_register-Keeps s _ (λ a m h. h) m h
sbb_to-Keeps (Operand.mem v b) d m h = h
sbb_to-Keeps (Operand.label v) d m h = h

multiply_to-Keeps : (v : Text) (a b : Operand) → Keeps (multiply_to v a b)
unfolding multiply_to multiply set_both
multiply_to-Keeps v (Operand.reg (c ∷ s)) (Operand.reg r) m h =
    with_register-Keeps r _ (λ d. with_register-Keeps (c ∷ s) _ (λ a m h. h)) m h
multiply_to-Keeps v (Operand.reg (c ∷ s)) (Operand.imm w) m h = h
multiply_to-Keeps v (Operand.reg (c ∷ s)) (Operand.mem w x) m h = h
multiply_to-Keeps v (Operand.reg (c ∷ s)) (Operand.label w) m h = h
multiply_to-Keeps v (Operand.reg []) b m h = h
multiply_to-Keeps v (Operand.imm w) b m h = h
multiply_to-Keeps v (Operand.mem w x) b m h = h
multiply_to-Keeps v (Operand.label w) b m h = h

pub exec_imul3-Keeps : (a b c : Operand) → Keeps (exec_imul3 a b c)
unfolding exec_imul3
exec_imul3-Keeps (Operand.imm v) b c m h = multiply_to-Keeps v b c m h
exec_imul3-Keeps (Operand.reg r) b c m h = h
exec_imul3-Keeps (Operand.mem w x) b c m h = h
exec_imul3-Keeps (Operand.label w) b c m h = h
