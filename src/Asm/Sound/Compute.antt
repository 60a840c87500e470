-- ===== src/Asm/Sound/Compute.antt =====
-- The instructions that compute a register are sound.
use xkernel.Base.{ℕ, ◌≡◌, refl, ◌∷◌, Option, some, none, list_eq, nat_eq}
use xkernel.Base.Int.{ℤ, pos, negsuc}
use xkernel.Base.Dict.{lookup}
use xkernel.Base.Text.{Text}
use xkernel.Asm.{Op, Expr, Executor}
use xkernel.Asm.Operand.{Operand, parse_literal}
use xkernel.Asm.Execute.{expr_of, alt_of, set_both, set_state, with_register, to_register}
use xkernel.Asm.Arith.{combine, arithmetic_to, exec_add, exec_sub, exec_imul2, combine_one}
use xkernel.Asm.Arith.{bitwise_to, exec_and, exec_or, exec_xor, shift_imm, shift_reg, shift_to}
use xkernel.Asm.Arith.{exec_shl, exec_shr}
use xkernel.Asm.Sound.{Meaning, base, eval, Tracks, write}
use xkernel.Asm.Sound.Step.{Extends, binary-Tracks}

-- The second operand of an instruction: a number, or a register with a name.
pub data Source : Type 0 where
  constant : Text → Source
  register : ℕ → Text → Source

abbrev pub operand_of : Source → Operand
operand_of (Source.constant v) = Operand.imm v
operand_of (Source.register c s) = Operand.reg (c ∷ s)

abbrev pub source_value : {W : Type 0} → Meaning W → (Text → W) → Source → W
source_value M now (Source.constant v) = M.atom v
source_value M now (Source.register c s) = now (base (c ∷ s))

-- The instruction for each operation.
unfoldable pub exec_op : Op → Operand → Operand → Executor → Executor
exec_op Op.plus = exec_add
exec_op Op.minus = exec_sub
exec_op Op.times = exec_imul2
exec_op Op.band = exec_and
exec_op Op.bor = exec_or
exec_op Op.bxor = exec_xor
exec_op Op.left = exec_shl
exec_op Op.right = exec_shr

-- What an instruction does to its destination, where the source is a number and where it is a
-- register.
unfoldable pub on_constant : Op → Text → Text → Executor → Executor
on_constant Op.plus v d m = combine Op.plus d (Expr.atom v) (Expr.atom v) m
on_constant Op.minus v d m = combine Op.minus d (Expr.atom v) (Expr.atom v) m
on_constant Op.times v d m = combine Op.times d (Expr.atom v) (Expr.atom v) m
on_constant Op.band v d m = combine_one Op.band d (Expr.atom v) m
on_constant Op.bor v d m = combine_one Op.bor d (Expr.atom v) m
on_constant Op.bxor v d m = combine_one Op.bxor d (Expr.atom v) m
on_constant Op.left v d m = shift_imm Op.left Expr.scaled v d (parse_literal v) m
on_constant Op.right v d m = shift_imm Op.right Expr.quotient v d (parse_literal v) m

unfoldable pub on_register : Op → Text → Text → Executor → Executor
on_register Op.plus d a m = combine Op.plus d (expr_of a m) (alt_of a (expr_of a m) m) m
on_register Op.minus d a m = combine Op.minus d (expr_of a m) (alt_of a (expr_of a m) m) m
on_register Op.times d a m = combine Op.times d (expr_of a m) (alt_of a (expr_of a m) m) m
on_register Op.band d a m = combine_one Op.band d (expr_of a m) m
on_register Op.bor d a m = combine_one Op.bor d (expr_of a m) m
on_register Op.bxor d a m = combine_one Op.bxor d (expr_of a m) m
on_register Op.left d a m = shift_reg Op.left d a m
on_register Op.right d a m = shift_reg Op.right d a m

pub exec_op-constant :
    (o : Op) (v r : Text) (m : Executor)
    → exec_op o (Operand.imm v) (Operand.reg r) m ≡ with_register r (on_constant o v) m
unfolding exec_op on_constant exec_add exec_sub exec_imul2 exec_and exec_or exec_xor exec_shl
    exec_shr to_register arithmetic_to bitwise_to shift_to
exec_op-constant Op.plus v r m = refl
exec_op-constant Op.minus v r m = refl
exec_op-constant Op.times v r m = refl
exec_op-constant Op.band v r m = refl
exec_op-constant Op.bor v r m = refl
exec_op-constant Op.bxor v r m = refl
exec_op-constant Op.left v r m = refl
exec_op-constant Op.right v r m = refl

pub exec_op-register :
    (o : Op) (s r : Text) (m : Executor)
    → exec_op o (Operand.reg s) (Operand.reg r) m
      ≡ with_register r (λ d. with_register s (on_register o d)) m
unfolding exec_op on_register exec_add exec_sub exec_imul2 exec_and exec_or exec_xor exec_shl
    exec_shr to_register arithmetic_to bitwise_to shift_to
exec_op-register Op.plus s r m = refl
exec_op-register Op.minus s r m = refl
exec_op-register Op.times s r m = refl
exec_op-register Op.band s r m = refl
exec_op-register Op.bor s r m = refl
exec_op-register Op.bxor s r m = refl
exec_op-register Op.left s r m = refl
exec_op-register Op.right s r m = refl

shift-Extends :
    (o : Op) (alt : Expr → ℕ → Expr) (v d : Text) (n : Option ℤ) (m : Executor)
    → Extends m.reg_map (shift_imm o alt v d n m).reg_map
unfolding shift_imm set_both set_state
shift-Extends o alt v d none m b a l = l
shift-Extends o alt v d (some (pos n)) m b a l = l
shift-Extends o alt v d (some (negsuc n)) m b a l = l

pub constant-Extends :
    (o : Op) (v d : Text) (m : Executor) → Extends m.reg_map (on_constant o v d m).reg_map
unfolding on_constant combine combine_one set_both set_state
constant-Extends Op.plus v d m b a l = l
constant-Extends Op.minus v d m b a l = l
constant-Extends Op.times v d m b a l = l
constant-Extends Op.band v d m b a l = l
constant-Extends Op.bor v d m b a l = l
constant-Extends Op.bxor v d m b a l = l
constant-Extends Op.left v d m b a l =
    shift-Extends Op.left Expr.scaled v d (parse_literal v) m b a l
constant-Extends Op.right v d m b a l =
    shift-Extends Op.right Expr.quotient v d (parse_literal v) m b a l

pub register-Extends :
    (o : Op) (d a : Text) (m : Executor) → Extends m.reg_map (on_register o d a m).reg_map
unfolding on_register combine combine_one set_both set_state shift_reg
register-Extends Op.plus d x m b a l = l
register-Extends Op.minus d x m b a l = l
register-Extends Op.times d x m b a l = l
register-Extends Op.band d x m b a l = l
register-Extends Op.bor d x m b a l = l
register-Extends Op.bxor d x m b a l = l
register-Extends Op.left d x m b a l = l
register-Extends Op.right d x m b a l = l

module _ {W : Type 0} (M : Meaning W) (start now : Text → W) where
  abbrev pub result : Op → Text → W → Text → W
  result o b w = write M b (M.apply o (now b) w) now

  shift-Tracks :
      (o : Op) (alt : Expr → ℕ → Expr) (v b d : Text) (n : Option ℤ) (m : Executor)
      → Tracks M start now m
      → lookup b m.reg_map ≡ some d
      → Tracks M start (result o b (M.atom v)) (shift_imm o alt v d n m)
  unfolding shift_imm set_both set_state eval
  shift-Tracks o alt v b d (some (pos n)) m t l =
      binary-Tracks M start now o b d (Expr.atom v) (Expr.atom v) _ m t l
  shift-Tracks o alt v b d (some (negsuc n)) m t l =
      binary-Tracks M start now o b d (Expr.atom v) (Expr.atom v) m.state_alt m t l
  shift-Tracks o alt v b d none m t l =
      binary-Tracks M start now o b d (Expr.atom v) (Expr.atom v) m.state_alt m t l

  pub constant-Tracks :
      (o : Op) (v b d : Text) (m : Executor)
      → Tracks M start now m
      → lookup b m.reg_map ≡ some d
      → Tracks M start (result o b (M.atom v)) (on_constant o v d m)
  unfolding on_constant combine combine_one set_both set_state eval
  constant-Tracks Op.plus v b d m =
      binary-Tracks M start now Op.plus b d (Expr.atom v) (Expr.atom v) _ m
  constant-Tracks Op.minus v b d m =
      binary-Tracks M start now Op.minus b d (Expr.atom v) (Expr.atom v) _ m
  constant-Tracks Op.times v b d m =
      binary-Tracks M start now Op.times b d (Expr.atom v) (Expr.atom v) _ m
  constant-Tracks Op.band v b d m =
      binary-Tracks M start now Op.band b d (Expr.atom v) (Expr.atom v) m.state_alt m
  constant-Tracks Op.bor v b d m =
      binary-Tracks M start now Op.bor b d (Expr.atom v) (Expr.atom v) m.state_alt m
  constant-Tracks Op.bxor v b d m =
      binary-Tracks M start now Op.bxor b d (Expr.atom v) (Expr.atom v) m.state_alt m
  constant-Tracks Op.left v b d m = shift-Tracks Op.left Expr.scaled v b d (parse_literal v) m
  constant-Tracks Op.right v b d m = shift-Tracks Op.right Expr.quotient v b d (parse_literal v) m

  pub register-Tracks :
      (o : Op) (b d a : Text) (m : Executor)
      → Tracks M start now m
      → lookup b m.reg_map ≡ some d
      → Tracks M start (result o b (eval M (expr_of a m))) (on_register o d a m)
  unfolding on_register combine combine_one set_both set_state shift_reg
  register-Tracks Op.plus b d a m =
      binary-Tracks M start now Op.plus b d (expr_of a m) (expr_of a m) _ m
  register-Tracks Op.minus b d a m =
      binary-Tracks M start now Op.minus b d (expr_of a m) (expr_of a m) _ m
  register-Tracks Op.times b d a m =
      binary-Tracks M start now Op.times b d (expr_of a m) (expr_of a m) _ m
  register-Tracks Op.band b d a m =
      binary-Tracks M start now Op.band b d (expr_of a m) (expr_of a m) _ m
  register-Tracks Op.bor b d a m =
      binary-Tracks M start now Op.bor b d (expr_of a m) (expr_of a m) _ m
  register-Tracks Op.bxor b d a m =
      binary-Tracks M start now Op.bxor b d (expr_of a m) (expr_of a m) _ m
  register-Tracks Op.left b d a m =
      binary-Tracks M start now Op.left b d (expr_of a m) (expr_of a m) _ m
  register-Tracks Op.right b d a m =
      binary-Tracks M start now Op.right b d (expr_of a m) (expr_of a m) _ m
