-- ===== src/Asm/Execute.antt =====
-- The moves of `execute_instruction` (src/codegen.py), a function for each kind of instruction. The
-- description that the source returns is for its log alone, and left out.
use xkernel.Base.{[], ◌∷◌, ◌++◌, list_eq, nat_eq}
use xkernel.Base.Dict.{get, insert}
use xkernel.Base.Text.{Text, text}
use xkernel.Asm.{Expr, Executor}
use xkernel.Asm.Operand.{Operand, get_anonymous_reg}

-- `state.get(anon, anon)`
unfoldable pub expr_of : Text → Executor → Expr
expr_of anon m = get anon (Expr.atom anon) m.state

-- `state_alt.get(anon, default)`
unfoldable pub alt_of : Text → Expr → Executor → Expr
alt_of anon default m = get anon default m.state_alt

unfoldable pub set_both : Text → Expr → Expr → Executor → Executor
set_both anon new new_alt m = record m {
  state = insert anon new m.state;
  state_alt = insert anon new_alt m.state_alt;
}

unfoldable pub set_state : Text → Expr → Executor → Executor
set_state anon new m = record m { state = insert anon new m.state }

unfoldable pub mem_atom : Text → Expr
mem_atom v = Expr.atom (text "mem" ++ v)

-- `reg and …`: a register operand that has a name, and its anonymous register.
unfoldable pub with_register : Text → (Text → Executor → Executor) → Executor → Executor
with_register [] f m = m
with_register (c ∷ s) f m = let (anon, n) = get_anonymous_reg (c ∷ s) m in f anon n

-- What an instruction does to its destination register, by the anonymous name of that.
unfoldable pub to_register :
    (Operand → Text → Executor → Executor) → Operand → Operand → Executor → Executor
to_register f src (Operand.reg r) m = with_register r (f src) m
to_register f src _ m = m

-- MOV and MOVABS into a register.
unfoldable pub copy : Text → Text → Executor → Executor
copy d a m = let e = expr_of a m in set_both d e (alt_of a e m) m

unfoldable pub mov_to : Operand → Text → Executor → Executor
mov_to (Operand.imm v) d m = set_both d (Expr.atom v) (Expr.atom v) m
mov_to (Operand.reg s) d m = with_register s (copy d) m
mov_to (Operand.mem v base) d m = set_both d (mem_atom v) (mem_atom v) m
mov_to (Operand.label v) d m = m

unfoldable pub movabs_to : Operand → Text → Executor → Executor
movabs_to (Operand.imm v) d m = set_both d (Expr.atom v) (Expr.atom v) m
movabs_to (Operand.reg s) d m = with_register s (copy d) m
movabs_to _ d m = m

unfoldable pub mov_to_mem : Operand → Text → Executor → Executor
mov_to_mem (Operand.reg s) v m =
    with_register s (λ a n. record n { memory = insert v (expr_of a n) n.memory }) m
mov_to_mem (Operand.imm w) v m = set_both (text "mem:" ++ v) (Expr.atom w) (Expr.atom w) m
mov_to_mem _ v m = m

unfoldable pub exec_mov : Operand → Operand → Executor → Executor
exec_mov src (Operand.mem v base) m = mov_to_mem src v m
exec_mov src dst m = to_register mov_to src dst m

unfoldable pub exec_movabs : Operand → Operand → Executor → Executor
exec_movabs = to_register movabs_to

-- LEA: `src_val[1:-1]`, the address without its brackets, which `parse_operand` always puts.
unfoldable pub drop_last : Text → Text
drop_last [] = []
drop_last (c ∷ []) = []
drop_last (c ∷ d ∷ s) = c ∷ drop_last (d ∷ s)

unfoldable pub lea_to : Operand → Text → Executor → Executor
lea_to (Operand.mem (c ∷ v) base) d m =
    set_both d (Expr.atom (drop_last v)) (Expr.atom (drop_last v)) m
lea_to _ d m = m

unfoldable pub exec_lea : Operand → Operand → Executor → Executor
exec_lea = to_register lea_to

-- CMOV: both values are kept, the condition is not.
unfoldable pub choose : Text → Expr → Expr → Executor → Executor
choose d e e_alt m =
    let dst = expr_of d m in set_both d (Expr.cmov e dst) (Expr.cmov e_alt (alt_of d dst m)) m

unfoldable pub cmov_to : Operand → Text → Executor → Executor
cmov_to (Operand.reg s) d m =
    with_register s (λ a n. choose d (expr_of a n) (alt_of a (expr_of a n) n) n) m
cmov_to (Operand.imm v) d m = choose d (Expr.atom v) (Expr.atom v) m
cmov_to (Operand.mem v base) d m = choose d (mem_atom v) (mem_atom v) m
cmov_to (Operand.label v) d m = m

unfoldable pub exec_cmov : Operand → Operand → Executor → Executor
exec_cmov = to_register cmov_to

unfoldable pub movzbl_to : Operand → Text → Executor → Executor
movzbl_to (Operand.reg s) d m = with_register s (λ a n. set_state d (Expr.zext (expr_of a n)) n) m
movzbl_to (Operand.mem v base) d m = set_state d (Expr.zext (mem_atom v)) m
movzbl_to _ d m = m

unfoldable pub exec_movzbl : Operand → Operand → Executor → Executor
exec_movzbl = to_register movzbl_to
