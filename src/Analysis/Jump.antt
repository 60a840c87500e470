-- ===== src/Analysis/Jump.antt =====
-- `get_insn_byte_count` and `check_jump_optimizable` (src/codegen.py): whether the five bytes of a
-- jump fit at an instruction.
pub mod Laws
use xkernel.Base.{ℕ, suc, ◌+◌, Bool, true, false, ◌&&◌, ◌||◌, List, [], ◌∷◌, Option, some, none}
use xkernel.Base.{drop, length, leb, ltb, ◌=ℕ◌, ◌==◌, list_eq, nat_eq, if◌then◌else◌}
use xkernel.Base.Int.{ℤ, pos, leb_ℤ}
use xkernel.Base.Text.{Text, text, is_space, strip, lstrip, starts_with, lower, parse_int}
use xkernel.Asm.Operand.{cut}

-- `re.sub(r'^\s*\[\*\]\s*', '', line.strip())`
unfoldable pub without_marker : Text → Text
without_marker s = if starts_with s (text "[*]") then lstrip (drop 3 s) else s

-- `s.split()`: the word that the text begins with, and the words after it.
unfoldable pub keep_word : Text → List Text → List Text
keep_word [] words = words
keep_word (c ∷ w) words = (c ∷ w) ∷ words

unfoldable pub words_onto : Text → Text × List Text
words_onto [] = ([], [])
words_onto (c ∷ s) =
    let (w, ws) = words_onto s in if is_space c then ([], keep_word w ws) else (c ∷ w, ws)

unfoldable pub words : Text → List Text
words s = let (w, ws) = words_onto s in keep_word w ws

-- What stands after the colon: the bytes, and the assembler text after a tab.
unfoldable pub at_tab : Text → Option (Text × Text) → List Text × Text
at_tab after_colon none = (words after_colon, [])
at_tab after_colon (some (hex_part, asm_part)) = (words hex_part, asm_part)

unfoldable pub at_colon : Option (Text × Text) → List Text × Text
at_colon none = ([], [])
at_colon (some (address, after_colon)) = at_tab after_colon (cut 9 after_colon)

unfoldable pub bytes_and_asm : Text → List Text × Text
bytes_and_asm inst_line = at_colon (cut b':' (without_marker (strip inst_line)))

unfoldable pub get_insn_byte_count : Text → ℕ
get_insn_byte_count inst_line = length (bytes_and_asm inst_line).0

-- The reason of a refusal for a line, and the answer with what its reason names.
pub data Reason : Type 0 where
  call_rel32 : Reason
  jmp jcc_rel8 jcc_rel32 : Text → Reason
  rip_relative : Reason

pub data Verdict : Type 0 where
  too_short : ℕ → Verdict
  refused : Reason → Verdict
  optimizable : ℕ → Verdict

-- The lines that the jump covers, and their bytes, from a number of bytes on.
unfoldable pub cover : List Text → ℕ → List Text × ℕ
cover [] total_bytes = ([], total_bytes)
cover (line ∷ lines) total_bytes =
    let n = get_insn_byte_count line in
    let skipped = cover lines total_bytes in
    let (covered, total) = cover lines (total_bytes + n) in
    if n =ℕ 0
    then skipped
    else if leb 5 (total_bytes + n)
    then (line ∷ [], total_bytes + n)
    else (line ∷ covered, total)

-- `lo <= int(s, 16) <= hi`, and false where `s` is no number.
unfoldable pub between : ℕ → ℕ → Option ℤ → Bool
between lo hi none = false
between lo hi (some n) = leb_ℤ (pos lo) n && leb_ℤ n (pos hi)

unfoldable pub has_part : Text → Text → Bool
has_part part [] = starts_with [] part
has_part part (c ∷ s) = starts_with (c ∷ s) part || has_part part s

unfoldable pub second : List Text → Text
second [] = []
second (t ∷ ts) = lower t

-- A relative address among the first bytes or in the assembler text.
unfoldable pub relative : List Text × Text → Option Reason
relative ([], asm_part) = none
relative ((t ∷ ts), asm_part) =
    let b0 = lower t in
    let b1 = second ts in
    if b0 == text "e8"
    then some Reason.call_rel32
    else if b0 == text "e9" || b0 == text "eb"
    then some (Reason.jmp b0)
    else if between 112 127 (parse_int 16 b0)
    then some (Reason.jcc_rel8 b0)
    else if b0 == text "0f" && between 128 143 (parse_int 16 b1)
    then some (Reason.jcc_rel32 b1)
    else if has_part (text "(%rip)") asm_part
    then some Reason.rip_relative
    else none

unfoldable pub or_else : Option Reason → Option Reason → Option Reason
or_else none o = o
or_else (some v) o = some v

unfoldable pub first_relative : List Text → Option Reason
first_relative [] = none
first_relative (line ∷ lines) = or_else (relative (bytes_and_asm line)) (first_relative lines)

unfoldable pub conclude : ℕ → Option Reason → Verdict
conclude total_bytes none = Verdict.optimizable total_bytes
conclude total_bytes (some v) = Verdict.refused v

unfoldable pub check_jump_optimizable : List Text → ℕ → Verdict
check_jump_optimizable all_insts idx =
    let (covered, total_bytes) = cover (drop idx all_insts) 0 in
    if ltb total_bytes 5
    then Verdict.too_short total_bytes
    else conclude total_bytes (first_relative covered)
