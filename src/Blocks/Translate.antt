-- ===== src/Blocks/Translate.antt =====
-- Offsets of an object file translated to those of the running kernel (src/codegen.py):
-- `translate_kprobe_offsets_to_vmlinux`. The disassemblies of the kernel are its argument.
pub mod Found
use xkernel.Base.{ℕ, suc, ◌+◌, Bool, true, false, not, ◌&&◌, ◌||◌, Option, none, some, List, []}
use xkernel.Base.{◌∷◌, ◌++◌, if◌then◌else◌, ◌==◌, ◌=ℕ◌, list_eq, nat_eq, length, get_elem?}
use xkernel.Base.{contains}
use xkernel.Base.Dict.{Dict, get, insert}
use xkernel.Base.Int.{ℤ, pos, ◌+ℤ◌, ◌-ℤ◌, int_eq}
use xkernel.Base.Text.{Text, text, is_space, strip, lstrip, parse_nat}
use xkernel.Analysis.Varying.{is_hex}
use xkernel.Diff.Lines.{split_address}
use xkernel.Diff.Instructions.{begins_space}
use xkernel.Diff.Offsets.{or_next}
use xkernel.Blocks.{base_in}
use xkernel.Blocks.Parse.{drop_marker}

-- An instruction of the running kernel.
pub record KernelInstruction : Type 0 where
  pub offset : ℤ
  pub bytes : List Text

pub record Kprobe : Type 0 where
  pub function_name : Text
  pub kprobe_offset : ℤ
  pub candidate_offsets : List ℤ
  pub seed_offset : Option ℤ
  pub all_instructions : List Text

-- The scan of `(?:[0-9a-fA-F]{2}\s+)+`: what was read of a byte.
pub data ByteScan : Type 0 where
  between : ByteScan
  first_digit : ℕ → ByteScan
  second_digit : ℕ → ℕ → ByteScan
  behind : ByteScan

unfoldable pub scan_bytes : ByteScan → Text → List Text
scan_bytes _ [] = []
scan_bytes between (c ∷ s) =
    let rest = scan_bytes (first_digit c) s in if is_hex c then rest else []
scan_bytes (first_digit a) (c ∷ s) =
    let rest = scan_bytes (second_digit a c) s in if is_hex c then rest else []
scan_bytes (second_digit a b) (c ∷ s) =
    let rest = scan_bytes behind s in if is_space c then (a ∷ b ∷ []) ∷ rest else []
scan_bytes behind (c ∷ s) =
    let more = scan_bytes behind s in
    let next = scan_bytes (first_digit c) s in
    if is_space c then more else if is_hex c then next else []

unfoldable pub sized_number : Option ℕ → List Text → Option (ℕ × List Text)
sized_number none bytes = none
sized_number (some addr) [] = none
sized_number (some addr) (b ∷ bytes) = some (addr, b ∷ bytes)

-- `([0-9a-fA-F]+):\s+((?:[0-9a-fA-F]{2}\s+)+)`
unfoldable pub bytes_behind : Option (Text × Text) → Option (ℕ × List Text)
bytes_behind none = none
bytes_behind (some (digits, rest)) =
    if begins_space rest
    then sized_number (parse_nat 16 digits) (scan_bytes between (lstrip rest))
    else none

unfoldable pub clean : Text → Text
clean inst = drop_marker (strip inst)

unfoldable pub address_and_bytes : Text → Option (ℕ × List Text)
address_and_bytes inst = bytes_behind (split_address (clean inst))

-- The index of the occurrence of a byte pattern.
unfoldable pub find_from : List Text → ℕ → ℕ → ℕ → List KernelInstruction → Option ℕ
find_from pattern_bytes occurrence count idx [] = none
find_from pattern_bytes occurrence count idx (instr ∷ instrs) =
    let found = instr.bytes == pattern_bytes in
    let rest =
      find_from pattern_bytes occurrence (if found then suc count else count) (suc idx) instrs in
    if found && count =ℕ occurrence then some idx else rest

unfoldable pub find_byte_pattern : List KernelInstruction → List Text → ℕ → Option ℕ
find_byte_pattern instrs pattern_bytes occurrence = find_from pattern_bytes occurrence 0 0 instrs

unfoldable pub func_base_of : Text → List Text → Option ℤ
func_base_of func_name [] = none
func_base_of func_name (inst ∷ insts) =
    or_next (base_in func_name (clean inst)) (func_base_of func_name insts)

unfoldable pub inst_offset : Option ℤ → ℕ → ℤ
inst_offset none addr = pos addr
inst_offset (some func_base) addr = pos addr -ℤ func_base

-- The bytes of the instruction that ends where the kprobe stands.
unfoldable pub preceding_bytes : Option ℤ → ℤ → List Text → Option (List Text)
preceding_bytes base o_offset [] = none
preceding_bytes base o_offset (inst ∷ insts) = elim (address_and_bytes inst) [
  | none ↦ preceding_bytes base o_offset insts
  | some (addr, bytes) ↦
      if inst_offset base addr +ℤ pos (length bytes) == o_offset
      then some bytes
      else preceding_bytes base o_offset insts
]

-- The bytes of the instruction at the seed.
unfoldable pub seed_bytes : Option ℤ → ℤ → List Text → Option (List Text)
seed_bytes base seed [] = none
seed_bytes base seed (inst ∷ insts) = elim (address_and_bytes inst) [
  | none ↦ seed_bytes base seed insts
  | some (addr, bytes) ↦
      if inst_offset base addr == seed then some bytes else seed_bytes base seed insts
]

unfoldable pub offset_at : List KernelInstruction → ℕ → Option ℤ
offset_at instrs i = elim (get_elem? instrs i) [ none ↦ none | some instr ↦ some instr.offset ]

unfoldable pub set_seed : Option ℤ → Kprobe → Kprobe
set_seed none kp = kp
set_seed (some new_seed) kp = record kp { seed_offset = some new_seed }

unfoldable pub seed_at : List KernelInstruction → Option ℕ → Option ℤ
seed_at instrs none = none
seed_at instrs (some i) = offset_at instrs i

unfoldable pub new_seed : List KernelInstruction → Option (List Text) → Option ℤ
new_seed instrs none = none
new_seed instrs (some bytes) = seed_at instrs (find_byte_pattern instrs bytes 0)

unfoldable pub translate_seed : List KernelInstruction → Option ℤ → Option ℤ → Kprobe → Kprobe
translate_seed instrs base none kp = kp
translate_seed instrs base (some old_seed) kp =
    set_seed (new_seed instrs (seed_bytes base old_seed kp.all_instructions)) kp

unfoldable pub set_offset : ℤ → Kprobe → Kprobe
set_offset new_offset kp =
    if new_offset == kp.kprobe_offset
    then kp
    else record kp { kprobe_offset = new_offset; candidate_offsets = new_offset ∷ [] }

-- The instruction behind the match is the new place; the last instruction has none behind it.
unfoldable pub move_behind : List KernelInstruction → Option ℤ → Option ℤ → Kprobe → Kprobe
move_behind instrs base none kp = kp
move_behind instrs base (some new_offset) kp =
    translate_seed instrs base kp.seed_offset (set_offset new_offset kp)

unfoldable pub at_match : List KernelInstruction → Option ℤ → Option ℕ → Kprobe → Kprobe
at_match instrs base none kp = kp
at_match instrs base (some match_idx) kp =
    move_behind instrs base (offset_at instrs (suc match_idx)) kp

abbrev pub Counters : Type 0
Counters = Dict (List Text) ℕ

unfoldable pub with_bytes :
    List KernelInstruction → Option ℤ → Counters → Option (List Text) → Kprobe → Counters × Kprobe
with_bytes instrs base counters none kp = (counters, kp)
with_bytes instrs base counters (some bytes) kp =
    let occ = get bytes 0 counters in
    (insert bytes (suc occ) counters, at_match instrs base (find_byte_pattern instrs bytes occ) kp)

unfoldable pub translate_kprobe :
    List KernelInstruction → Option ℤ → Counters → Kprobe → Counters × Kprobe
translate_kprobe instrs base counters kp =
    with_bytes instrs base counters (preceding_bytes base kp.kprobe_offset kp.all_instructions) kp

unfoldable pub translate_each :
    List KernelInstruction → Option ℤ → Counters → List Kprobe → List Kprobe
translate_each instrs base counters [] = []
translate_each instrs base counters (kp ∷ kps) =
    let (counters', kp') = translate_kprobe instrs base counters kp in
    kp' ∷ translate_each instrs base counters' kps

-- The kprobes of one function; the first gives the base.
unfoldable pub translate_group : List KernelInstruction → List Kprobe → List Kprobe
translate_group instrs [] = []
translate_group instrs (kp ∷ kps) =
    translate_each instrs (func_base_of kp.function_name kp.all_instructions) [] (kp ∷ kps)

unfoldable pub of_function : Text → List Kprobe → List Kprobe
of_function func_name [] = []
of_function func_name (kp ∷ kps) =
    let rest = of_function func_name kps in
    if kp.function_name == func_name then kp ∷ rest else rest

-- The kprobes of a function are changed in place.
unfoldable pub replace : Text → List Kprobe → List Kprobe → List Kprobe
replace func_name new [] = []
replace func_name [] (kp ∷ kps) = kp ∷ kps
replace func_name (n ∷ new) (kp ∷ kps) =
    let hit = replace func_name new kps in
    let miss = replace func_name (n ∷ new) kps in
    if kp.function_name == func_name then n ∷ hit else kp ∷ miss

unfoldable pub names_of : List Text → List Kprobe → List Text
names_of seen [] = []
names_of seen (kp ∷ kps) =
    let old = names_of seen kps in
    let new = names_of (kp.function_name ∷ seen) kps in
    if contains seen kp.function_name then old else kp.function_name ∷ new

-- A function that cannot be disassembled keeps its offsets.
unfoldable pub translate_function : Text → List KernelInstruction → List Kprobe → List Kprobe
translate_function func_name [] kps = kps
translate_function func_name (instr ∷ instrs) kps =
    replace func_name (translate_group (instr ∷ instrs) (of_function func_name kps)) kps

unfoldable pub translate_names :
    (Text → List KernelInstruction) → List Text → List Kprobe → List Kprobe
translate_names disassemble [] kps = kps
translate_names disassemble (func_name ∷ names) kps =
    translate_names disassemble names (translate_function func_name (disassemble func_name) kps)

unfoldable pub translate_kprobe_offsets_to_vmlinux :
    (Text → List KernelInstruction) → List Kprobe → List Kprobe
translate_kprobe_offsets_to_vmlinux disassemble kps =
    translate_names disassemble (names_of [] kps) kps
