-- ===== src/Asm/Sound/Program.antt =====
-- A program of moves and operations on registers is executed soundly.
use xkernel.Base.{ℕ, ◌≡◌, refl, List, [], ◌∷◌, some, list_eq, nat_eq}
use xkernel.Base.Dict.{lookup}
use xkernel.Base.Text.{Text}
use xkernel.Asm.{Op, Expr, Executor, new_executor}
use xkernel.Asm.Operand.{Operand, get_anonymous_reg}
use xkernel.Asm.Execute.{expr_of, set_both, with_register, to_register, mov_to, copy, exec_mov}
use xkernel.Asm.Sound.{Meaning, base, eval, Names, Tracks, write, set_both-Tracks}
use xkernel.Asm.Sound.{get_anonymous_reg-Tracks}
use xkernel.Asm.Sound.Step.{Extends, Extends-get_anonymous_reg, Extends-with_register}
use xkernel.Asm.Sound.Step.{with_register-Tracks}
use xkernel.Asm.Sound.Compute.{Source, operand_of, source_value, exec_op, on_constant}
use xkernel.Asm.Sound.Compute.{on_register, result, exec_op-constant, exec_op-register}
use xkernel.Asm.Sound.Compute.{constant-Extends, register-Extends, constant-Tracks}
use xkernel.Asm.Sound.Compute.{register-Tracks}

-- A move or an operation, with its source and its destination register.
pub data Instr : Type 0 where
  move : Source → ℕ → Text → Instr
  compute : Op → Source → ℕ → Text → Instr

unfoldable pub exec_instr : Instr → Executor → Executor
exec_instr (Instr.move src c r) = exec_mov (operand_of src) (Operand.reg (c ∷ r))
exec_instr (Instr.compute o src c r) = exec_op o (operand_of src) (Operand.reg (c ∷ r))

abbrev pub source_of : Instr → Source
source_of (Instr.move src c r) = src
source_of (Instr.compute o src c r) = src

abbrev pub target_of : Instr → Text
target_of (Instr.move src c r) = c ∷ r
target_of (Instr.compute o src c r) = c ∷ r

-- What reading an operand leaves behind: a register without an anonymous name is given one.
unfoldable pub read_source : Source → Executor → Executor
read_source (Source.constant v) m = m
read_source (Source.register c s) m = (get_anonymous_reg (c ∷ s) m).1

unfoldable pub read_both : Instr → Executor → Executor
read_both i m = (get_anonymous_reg (target_of i) (read_source (source_of i) m)).1

-- The handlers, each behind the reading of its operands.
unfoldable pub exec_program : List Instr → Executor → Executor
exec_program [] m = m
exec_program (i ∷ is) m = exec_program is (exec_instr i (read_both i m))

-- The register machine.
abbrev pub machine_step : {W : Type 0} → Meaning W → Instr → (Text → W) → Text → W
machine_step M (Instr.move src c r) now = write M (base (c ∷ r)) (source_value M now src) now
machine_step M (Instr.compute o src c r) now =
    write M (base (c ∷ r)) (M.apply o (now (base (c ∷ r))) (source_value M now src)) now

unfoldable pub machine_run : {W : Type 0} → Meaning W → List Instr → (Text → W) → Text → W
machine_run M [] now = now
machine_run M (i ∷ is) now = machine_run M is (machine_step M i now)

copy-Extends : (d a : Text) (m : Executor) → Extends m.reg_map (copy d a m).reg_map
unfolding copy set_both
copy-Extends d x m b a l = l

mov_to-Extends :
    (src : Source) (d : Text) (m : Executor)
    → Extends m.reg_map (mov_to (operand_of src) d m).reg_map
unfolding mov_to set_both
mov_to-Extends (Source.constant v) d m b a l = l
mov_to-Extends (Source.register c s) d m b a l =
    Extends-with_register (c ∷ s) (copy d) m (λ x n. copy-Extends d x n) b a l

instr-Extends : (i : Instr) (m : Executor) → Extends m.reg_map (exec_instr i m).reg_map
unfolding exec_instr exec_mov to_register
instr-Extends (Instr.move src c r) m b a l =
    Extends-with_register (c ∷ r) (mov_to (operand_of src)) m (mov_to-Extends src) b a l
instr-Extends (Instr.compute o (Source.constant v) c r) m b a l =
    rw (exec_op-constant o v (c ∷ r) m)
      (Extends-with_register (c ∷ r) (on_constant o v) m (constant-Extends o v) b a l)
instr-Extends (Instr.compute o (Source.register x s) c r) m b a l =
    rw (exec_op-register o (x ∷ s) (c ∷ r) m) (
      Extends-with_register (c ∷ r) (λ d. with_register (x ∷ s) (on_register o d)) m
        (λ d n. Extends-with_register (x ∷ s) (on_register o d) n (register-Extends o d)) b a l)

read_source-Extends : (src : Source) (m : Executor) → Extends m.reg_map (read_source src m).reg_map
unfolding read_source
read_source-Extends (Source.constant v) m b a l = l
read_source-Extends (Source.register c s) m b a l = Extends-get_anonymous_reg (c ∷ s) m b a l

read_both-Extends : (i : Instr) (m : Executor) → Extends m.reg_map (read_both i m).reg_map
unfolding read_both
read_both-Extends i m b a l =
    Extends-get_anonymous_reg (target_of i) (read_source (source_of i) m) b a
      (read_source-Extends (source_of i) m b a l)

program-Extends : (is : List Instr) (m : Executor) → Extends m.reg_map (exec_program is m).reg_map
unfolding exec_program
program-Extends [] m b a l = l
program-Extends (i ∷ is) m b a l =
    program-Extends is (exec_instr i (read_both i m)) b a
      (instr-Extends i (read_both i m) b a (read_both-Extends i m b a l))

module _ {W : Type 0} (M : Meaning W) (start : Text → W) where
  copy-Tracks :
      (now : Text → W) (b c d a : Text) (m : Executor)
      → Tracks M start now m
      → lookup b m.reg_map ≡ some d
      → lookup c m.reg_map ≡ some a
      → Tracks M start (write M b (now c) now) (copy d a m)
  unfolding copy
  copy-Tracks now b c d a m t lb lc =
      let r : Tracks M start (write M b (eval M (expr_of a m)) now) (copy d a m) =
        set_both-Tracks M start now b d (expr_of a m) _ m t lb in
      rw (t.value c a lc) at r

  mov_to-Tracks :
      (now : Text → W) (src : Source) (b d : Text) (m : Executor)
      → Tracks M start now m
      → lookup b m.reg_map ≡ some d
      → Names M start (mov_to (operand_of src) d m)
      → Tracks M start (write M b (source_value M now src) now) (mov_to (operand_of src) d m)
  unfolding mov_to eval
  mov_to-Tracks now (Source.constant v) b d m t l names =
      set_both-Tracks M start now b d (Expr.atom v) (Expr.atom v) m t l
  mov_to-Tracks now (Source.register c s) b d m t l names =
      with_register-Tracks M start now c s (copy d) _ m (copy-Extends d)
        (λ a n u la ext names'. copy-Tracks now b (base (c ∷ s)) d a n u (ext b d l) la) t names

  on_register-Tracks :
      (now : Text → W) (o : Op) (b c d a : Text) (m : Executor)
      → Tracks M start now m
      → lookup b m.reg_map ≡ some d
      → lookup c m.reg_map ≡ some a
      → Tracks M start (result M start now o b (now c)) (on_register o d a m)
  on_register-Tracks now o b c d a m t lb lc =
      let r : Tracks M start (result M start now o b (eval M (expr_of a m))) (on_register o d a m) =
        register-Tracks M start now o b d a m t lb in
      rw (t.value c a lc) at r

  instr-Tracks :
      (now : Text → W) (i : Instr) (m : Executor)
      → Tracks M start now m
      → Names M start (exec_instr i m)
      → Tracks M start (machine_step M i now) (exec_instr i m)
  unfolding exec_instr exec_mov to_register
  instr-Tracks now (Instr.move src c r) m t names =
      with_register-Tracks M start now c r (mov_to (operand_of src)) _ m (mov_to-Extends src)
        (λ d n u l ext names'. mov_to-Tracks now src (base (c ∷ r)) d n u l names') t names
  instr-Tracks now (Instr.compute o (Source.constant v) c r) m t names =
      rw (exec_op-constant o v (c ∷ r) m) (
        with_register-Tracks M start now c r (on_constant o v) _ m (constant-Extends o v)
          (λ d n u l ext names'. constant-Tracks M start now o v (base (c ∷ r)) d n u l) t
          (rw (exec_op-constant o v (c ∷ r) m) at names))
  instr-Tracks now (Instr.compute o (Source.register x s) c r) m t names =
      rw (exec_op-register o (x ∷ s) (c ∷ r) m) (
        with_register-Tracks M start now c r (λ d. with_register (x ∷ s) (on_register o d)) _ m
          (λ d n. Extends-with_register (x ∷ s) (on_register o d) n (register-Extends o d))
          (λ d n u l ext names'.
            with_register-Tracks M start now x s (on_register o d) _ n (register-Extends o d)
              (λ a k v la ext' _.
                on_register-Tracks now o (base (c ∷ r)) (base (x ∷ s)) d a k v (ext' _ _ l) la)
              u names')
          t (rw (exec_op-register o (x ∷ s) (c ∷ r) m) at names))

  read_source-Tracks :
      (now : Text → W) (src : Source) (m : Executor)
      → Tracks M start now m
      → Names M start (read_source src m)
      → Tracks M start now (read_source src m)
  unfolding read_source
  read_source-Tracks now (Source.constant v) m t names = t
  read_source-Tracks now (Source.register c s) m t names =
      get_anonymous_reg-Tracks M start now (c ∷ s) m t names

  read_both-Tracks :
      (now : Text → W) (i : Instr) (m : Executor)
      → Tracks M start now m
      → Names M start (read_both i m)
      → Tracks M start now (read_both i m)
  unfolding read_both
  read_both-Tracks now i m t names =
      let first : Names M start (read_source (source_of i) m) = (λ b a l.
        names b a (Extends-get_anonymous_reg (target_of i) (read_source (source_of i) m) b a l)) in
      get_anonymous_reg-Tracks M start now (target_of i) (read_source (source_of i) m)
        (read_source-Tracks now (source_of i) m t first) names

  pub program-Tracks :
      (now : Text → W) (is : List Instr) (m : Executor)
      → Tracks M start now m
      → Names M start (exec_program is m)
      → Tracks M start (machine_run M is now) (exec_program is m)
  unfolding exec_program machine_run
  program-Tracks now [] m t names = t
  program-Tracks now (i ∷ is) m t names =
      let after : Names M start (exec_instr i (read_both i m)) =
        (λ b a l. names b a (program-Extends is (exec_instr i (read_both i m)) b a l)) in
      let ready : Names M start (read_both i m) =
        (λ b a l. after b a (instr-Extends i (read_both i m) b a l)) in
      program-Tracks (machine_step M i now) is (exec_instr i (read_both i m))
        (instr-Tracks now i (read_both i m) (read_both-Tracks now i m t ready) after) names

  pub new_executor-Tracks : Tracks M start start new_executor
  unfolding new_executor lookup
  new_executor-Tracks = record {
    numbered = (refl, tt);
    value = λ b a l. absurd (cc l);
    unused = λ b l. refl;
    fresh = λ k le. refl;
  }
