-- ===== src/Asm/Register.antt =====
-- Register names: the base register of a sub-register, and its family (src/codegen.py).
use xkernel.Base.{true, false, List, [], ◌∷◌, list_eq, nat_eq, contains}
use xkernel.Base.Dict.{Dict, get}
use xkernel.Base.Text.{Text, text, lower, lstrip_char}

-- `reg32_to_64`, `reg16_to_64` and `reg8_to_64`, looked up in this order.
unfoldable pub base_registers : Dict Text Text
unfolding text
base_registers =
    (text "eax", text "rax")
    ∷ (text "ebx", text "rbx")
    ∷ (text "ecx", text "rcx")
    ∷ (text "edx", text "rdx")
    ∷ (text "esi", text "rsi")
    ∷ (text "edi", text "rdi")
    ∷ (text "ebp", text "rbp")
    ∷ (text "esp", text "rsp")
    ∷ (text "r8d", text "r8")
    ∷ (text "r9d", text "r9")
    ∷ (text "r10d", text "r10")
    ∷ (text "r11d", text "r11")
    ∷ (text "r12d", text "r12")
    ∷ (text "r13d", text "r13")
    ∷ (text "r14d", text "r14")
    ∷ (text "r15d", text "r15")
    ∷ (text "ax", text "rax")
    ∷ (text "bx", text "rbx")
    ∷ (text "cx", text "rcx")
    ∷ (text "dx", text "rdx")
    ∷ (text "si", text "rsi")
    ∷ (text "di", text "rdi")
    ∷ (text "bp", text "rbp")
    ∷ (text "sp", text "rsp")
    ∷ (text "al", text "rax")
    ∷ (text "bl", text "rbx")
    ∷ (text "cl", text "rcx")
    ∷ (text "dl", text "rdx")
    ∷ (text "sil", text "rsi")
    ∷ (text "dil", text "rdi")
    ∷ (text "bpl", text "rbp")
    ∷ (text "spl", text "rsp")
    ∷ (text "r8b", text "r8")
    ∷ (text "r9b", text "r9")
    ∷ (text "r10b", text "r10")
    ∷ (text "r11b", text "r11")
    ∷ (text "r12b", text "r12")
    ∷ (text "r13b", text "r13")
    ∷ (text "r14b", text "r14")
    ∷ (text "r15b", text "r15")
    ∷ []

unfoldable pub get_base_register : Text → Text
get_base_register name = get (lower name) (lower name) base_registers

unfoldable pub families : Dict Text (List Text)
unfolding text
families =
    (text "ax", text "rax" ∷ text "eax" ∷ text "ax" ∷ text "al" ∷ text "ah" ∷ [])
    ∷ (text "bx", text "rbx" ∷ text "ebx" ∷ text "bx" ∷ text "bl" ∷ text "bh" ∷ [])
    ∷ (text "cx", text "rcx" ∷ text "ecx" ∷ text "cx" ∷ text "cl" ∷ text "ch" ∷ [])
    ∷ (text "dx", text "rdx" ∷ text "edx" ∷ text "dx" ∷ text "dl" ∷ text "dh" ∷ [])
    ∷ (text "si", text "rsi" ∷ text "esi" ∷ text "si" ∷ text "sil" ∷ [])
    ∷ (text "di", text "rdi" ∷ text "edi" ∷ text "di" ∷ text "dil" ∷ [])
    ∷ (text "bp", text "rbp" ∷ text "ebp" ∷ text "bp" ∷ text "bpl" ∷ [])
    ∷ (text "sp", text "rsp" ∷ text "esp" ∷ text "sp" ∷ text "spl" ∷ [])
    ∷ (text "r8", text "r8" ∷ text "r8d" ∷ text "r8w" ∷ text "r8b" ∷ [])
    ∷ (text "r9", text "r9" ∷ text "r9d" ∷ text "r9w" ∷ text "r9b" ∷ [])
    ∷ (text "r10", text "r10" ∷ text "r10d" ∷ text "r10w" ∷ text "r10b" ∷ [])
    ∷ (text "r11", text "r11" ∷ text "r11d" ∷ text "r11w" ∷ text "r11b" ∷ [])
    ∷ (text "r12", text "r12" ∷ text "r12d" ∷ text "r12w" ∷ text "r12b" ∷ [])
    ∷ (text "r13", text "r13" ∷ text "r13d" ∷ text "r13w" ∷ text "r13b" ∷ [])
    ∷ (text "r14", text "r14" ∷ text "r14d" ∷ text "r14w" ∷ text "r14b" ∷ [])
    ∷ (text "r15", text "r15" ∷ text "r15d" ∷ text "r15w" ∷ text "r15b" ∷ [])
    ∷ []

-- The loop over the families: the first that has the register, else the register itself.
unfoldable pub find_family : Text → Dict Text (List Text) → Text
find_family reg [] = reg
find_family reg ((family, members) ∷ rest) = elim (contains members reg) [
  | true ↦ family
  | false ↦ find_family reg rest
]

unfoldable pub get_register_family : Text → Text
get_register_family name = find_family (lstrip_char b'%' (lower name)) families
