-- ===== src/Asm/Ignored.antt =====
-- The mnemonics that end in a letter of `[bwlq]` which is no size.
use xkernel.Base.{◌≡◌, refl, List, ◌∷◌, list_beq}
use xkernel.Base.Text.{Text, text, lower, lower_char, starts_with}
use xkernel.Asm.{Executor}
use xkernel.Asm.Run.{execute_instruction, with_two, imul_operands, perform, base_mnemonic}
use xkernel.Asm.Run.{is_suffix, classify}
use xkernel.Asm.Arith.{exec_sub, exec_shl, exec_sbb}

-- Without a size suffix, `sub`, `shl`, `imul` and `sbb` change nothing, although with `l` they are
-- executed.
execute_instruction_unsized :
    (a : Text) (operands : List Text) (m : Executor)
    → (execute_instruction (text "sub") (a ∷ operands) m ≡ m)
      × (execute_instruction (text "shl") (a ∷ operands) m ≡ m)
      × (execute_instruction (text "imul") (a ∷ operands) m ≡ m)
      × (execute_instruction (text "sbb") (a ∷ operands) m ≡ m)
      × (execute_instruction (text "subl") (a ∷ operands) m ≡ with_two exec_sub (a ∷ operands) m)
      × (execute_instruction (text "shll") (a ∷ operands) m ≡ with_two exec_shl (a ∷ operands) m)
      × (execute_instruction (text "imull") (a ∷ operands) m ≡ imul_operands (a ∷ operands) m)
      × (execute_instruction (text "sbbl") (a ∷ operands) m ≡ with_two exec_sbb (a ∷ operands) m)
unfolding execute_instruction perform list_beq base_mnemonic lower text lower_char is_suffix
    starts_with classify
execute_instruction_unsized a operands m = (refl, refl, refl, refl, refl, refl, refl, refl)
