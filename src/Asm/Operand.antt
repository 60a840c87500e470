-- ===== src/Asm/Operand.antt =====
-- Anonymous registers, and the operands of an instruction (src/codegen.py).
pub mod Names
use xkernel.Base.{ℕ, zero, suc, ◌+◌, Bool, true, false, ◌&&◌, ◌||◌, List, [], ◌∷◌, ◌++◌, map}
use xkernel.Base.{Option, some, none, ltb, leb, ◌=ℕ◌, ◌==◌, list_eq, nat_eq, if◌then◌else◌}
use xkernel.Base.{length, get_or, drop}
use xkernel.Base.Int.{ℤ, pos, ◌+ℤ◌, ◌-ℤ◌, int_beq}
use xkernel.Base.Dict.{lookup, insert}
use xkernel.Base.Text.{Text, text, all, is_digit, lower, lstrip_char, strip, split, join}
use xkernel.Base.Text.{starts_with, parse_int, show_int, show_nat}
use xkernel.Tables.Raw.{hex_offset}
use xkernel.Asm.{Executor}
use xkernel.Asm.Register.{get_base_register}

unfoldable pub anonymous : ℕ → Text
anonymous k = b'r' ∷ show_nat 10 k

unfoldable pub assign : Text → Executor → Option Text → Text × Executor
assign base_reg m none = (
  anonymous m.reg_counter,
  record m {
    reg_map = insert base_reg (anonymous m.reg_counter) m.reg_map;
    reg_counter = suc m.reg_counter;
    used_regs = m.used_regs ++ (anonymous m.reg_counter ∷ []);
  },
)
assign base_reg m (some anon_reg) = (anon_reg, m)

unfoldable pub get_anonymous_reg : Text → Executor → Text × Executor
get_anonymous_reg real_reg m =
    let base_reg = get_base_register (strip (lower real_reg)) in
    assign base_reg m (lookup base_reg m.reg_map)

-- The type, the value and the register that `parse_operand` returns.
pub data Operand : Type 0 where
  imm : Text → Operand
  mem : Text → Text → Operand
  reg : Text → Operand
  label : Text → Operand

unfoldable pub is_lower_letter : ℕ → Bool
is_lower_letter c = leb b'a' c && leb c b'z'

-- `re.sub(r'^%[a-z]{2,3}:', '', operand)`
unfoldable pub strip_segment : Text → Text
unfolding is_lower_letter
strip_segment (p ∷ a ∷ b ∷ c ∷ s) =
    if p =ℕ b'%' && is_lower_letter a && is_lower_letter b && c =ℕ b':' then s else elim s [
      | [] ↦ p ∷ a ∷ b ∷ c ∷ []
      | d ∷ t ↦
          if p =ℕ b'%' && is_lower_letter a && is_lower_letter b && is_lower_letter c && d =ℕ b':'
          then t
          else p ∷ a ∷ b ∷ c ∷ d ∷ t
    ]
strip_segment s = s

-- `imm_str`: a number is printed again, anything else kept.
unfoldable pub is_hex_prefixed : Text → Bool
unfolding starts_with text
is_hex_prefixed s = starts_with s (text "0x") || starts_with s (text "0X")

unfoldable pub parse_literal : Text → Option ℤ
parse_literal s = if is_hex_prefixed s then parse_int 16 s else parse_int 10 s

unfoldable pub read_literal : Text → Text
read_literal s = elim (parse_literal s) [ none ↦ s | some value ↦ hex_offset value ]

-- What stands before the first `c`, and what follows it.
unfoldable pub cut : ℕ → Text → Option (Text × Text)
cut c [] = none
cut c (d ∷ s) =
    if d =ℕ c
    then some ([], s)
    else elim (cut c s) [ none ↦ none | some (front, back) ↦ some (d ∷ front, back) ]

unfoldable pub is_hex_digit : ℕ → Bool
is_hex_digit c = is_digit c || (leb b'a' c && leb c b'f') || (leb b'A' c && leb c b'F')

unfoldable pub is_unsigned : Text → Bool
unfolding all is_digit is_hex_digit
is_unsigned [] = false
is_unsigned (c ∷ []) = is_digit c
is_unsigned (c ∷ d ∷ []) = is_digit c && is_digit d
is_unsigned (c ∷ d ∷ e ∷ s) =
    (c =ℕ b'0' && d =ℕ b'x' && all is_hex_digit (e ∷ s)) || all is_digit (c ∷ d ∷ e ∷ s)

-- `(-?0x[0-9a-fA-F]+|-?\d+)?` before the parenthesis. No such offset holds a `(`, so the match is at
-- the first one.
unfoldable pub is_offset : Text → Bool
is_offset [] = true
is_offset (c ∷ s) = if c =ℕ b'-' then is_unsigned s else is_unsigned (c ∷ s)

-- The offset and the registers of a memory operand: `([^)]+)` is not empty.
unfoldable pub inside : Text × Text → Option (Text × Text)
inside (offset, rest) =
    if is_offset offset
    then elim (cut b')' rest) [
      | none ↦ none
      | some (regs, after) ↦ elim regs [ [] ↦ none | c ∷ cs ↦ some (offset, c ∷ cs) ]
    ]
    else none

unfoldable pub match_memory : Text → Option (Text × Text)
match_memory operand = elim (cut b'(' operand) [ none ↦ none | some p ↦ inside p ]

unfoldable pub offset_part : Text → List Text
offset_part [] = []
offset_part (c ∷ s) = if (c ∷ s) == text "0" then [] else (c ∷ s) ∷ []

-- An empty register name gets no anonymous register.
unfoldable pub part_of : Text → Executor → List Text × Executor
part_of [] m = ([], m)
part_of (c ∷ s) m =
    let (anon, m1) = get_anonymous_reg (lstrip_char b'%' (c ∷ s)) m in (anon ∷ [], m1)

unfoldable pub scaled_by : Text → Text → Text
scaled_by scale anon = if scale == text "1" then anon else anon ++ text "*" ++ scale

unfoldable pub memory_expr : List Text → Text
memory_expr [] = text "0"
memory_expr (p ∷ ps) = join (text "+") (p ∷ ps)

unfoldable pub parse_memory : Text → Text → Executor → Operand × Executor
parse_memory offset regs m =
    let reg_parts = map strip (split b',' regs) in
    let base_reg = get_or reg_parts 0 [] in
    let scale = get_or reg_parts 2 (text "1") in
    let (base_part, m1) = part_of base_reg m in
    let (index_part, m2) = part_of (get_or reg_parts 1 []) m1 in
    let parts = offset_part offset ++ base_part ++ map (scaled_by scale) index_part in
    (Operand.mem (text "[" ++ memory_expr parts ++ text "]") (lstrip_char b'%' base_reg), m2)

unfoldable pub parse_other : Text → Executor → Operand × Executor
parse_other [] m = (Operand.label [], m)
parse_other (c ∷ s) m =
    if c =ℕ b'%' then (Operand.reg s, (get_anonymous_reg s m).1) else (Operand.label (c ∷ s), m)

unfoldable pub parse_matched : Text → Option (Text × Text) → Executor → Operand × Executor
parse_matched s none m = parse_other s m
parse_matched s (some (offset, regs)) m = parse_memory offset regs m

unfoldable pub parse_nonimmediate : Text → Executor → Operand × Executor
parse_nonimmediate s = parse_matched s (match_memory s)

unfoldable pub parse_stripped : Text → Executor → Operand × Executor
parse_stripped [] m = parse_nonimmediate [] m
parse_stripped (c ∷ s) m =
    if c =ℕ b'$' then (Operand.imm (read_literal s), m) else parse_nonimmediate (c ∷ s) m

unfoldable pub parse_operand : Text → Executor → Operand × Executor
parse_operand operand = parse_stripped (strip_segment (strip operand))

-- `_split_asm_operands`: the loop, with the operands so far, the current one and the depth. A current
-- operand that is empty at the end is dropped.
unfoldable pub split_loop : Text → Text → ℤ → List Text
split_loop [] [] depth = []
split_loop [] (c ∷ cs) depth = (c ∷ cs) ∷ []
split_loop (ch ∷ s) current depth =
    let opened = split_loop s (current ++ (ch ∷ [])) (depth +ℤ pos 1) in
    let closed = split_loop s (current ++ (ch ∷ [])) (depth -ℤ pos 1) in
    let ended = current ∷ split_loop s [] depth in
    let taken = split_loop s (current ++ (ch ∷ [])) depth in
    if ch =ℕ b'('
    then opened
    else if ch =ℕ b')'
    then closed
    else if ch =ℕ b',' && int_beq depth (pos 0)
    then ended
    else taken

unfoldable pub split_asm_operands : Text → List Text
split_asm_operands s = split_loop s [] (pos 0)
