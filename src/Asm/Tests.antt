-- ===== src/Asm/Tests.antt =====
-- Runs of the executor, and the theorems at concrete instructions.
use xkernel.Base.{refl, List, [], ◌∷◌, some, list_eq, nat_eq, ℕ, ◌+◌}
use xkernel.Base.{All}
use xkernel.Base.Text.{Text}
use xkernel.Asm.{new_executor, Op}
use xkernel.Asm.Operand.Names.{IsNumbered}
use xkernel.Asm.Run.{Line, execute_instruction}
use xkernel.Asm.Operand.{Operand}
use xkernel.Asm.Keeps.Run.{execute_instruction-IsNumbered}
use xkernel.Asm.Sound.{Meaning}
use xkernel.Asm.Sound.Compute.{Source}
use xkernel.Asm.Sound.Program.{Instr}
use xkernel.Asm.Split.{IsWhole, is_whole}

abbrev one : Text
one = b'$' ∷ b'1' ∷ []

abbrev eax : Text
eax = b'%' ∷ b'e' ∷ b'a' ∷ b'x' ∷ []

abbrev add : Text
add = b'a' ∷ b'd' ∷ b'd' ∷ b'l' ∷ []

abbrev rax : Text
rax = b'r' ∷ b'a' ∷ b'x' ∷ []

abbrev r0 : Text
r0 = b'r' ∷ b'0' ∷ []

abbrev block : List Line
block = some (add, one ∷ eax ∷ []) ∷ []

empty-IsNumbered : IsNumbered new_executor
unfolding new_executor
empty-IsNumbered = (refl, tt)

execute_instruction-IsNumbered_example :
    IsNumbered (execute_instruction add (one ∷ eax ∷ []) new_executor)
execute_instruction-IsNumbered_example =
    execute_instruction-IsNumbered add (one ∷ eax ∷ []) new_executor empty-IsNumbered

-- Every atom is 0, and every operation an addition.
abbrev sums : Meaning ℕ
sums = record {
  atom = λ s. 0;
  apply = λ o a b. a + b;
  scaled = λ a n. a;
  quotient = λ a n. a;
  cmov = λ a b. a;
  zext = λ a. a;
  borrow = λ a b. a;
  compared = λ a b. a;
}

abbrev eax_name : Text
eax_name = b'e' ∷ b'a' ∷ b'x' ∷ []

abbrev subl : Text
subl = b's' ∷ b'u' ∷ b'b' ∷ b'l' ∷ []

abbrev hex_one : Text
hex_one = b'0' ∷ b'x' ∷ b'1' ∷ []

abbrev program : List Instr
program = Instr.compute Op.minus (Source.constant hex_one) b'e' (b'a' ∷ b'x' ∷ []) ∷ []

abbrev program_lines : List Line
program_lines = some (subl, one ∷ eax ∷ []) ∷ []

eax-IsWhole : All IsWhole (eax ∷ [])
unfolding is_whole
eax-IsWhole = (((λ e. cc e), refl), tt)
