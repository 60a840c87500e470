-- ===== src/Diff/Block/Extract.antt =====
-- The blocks of the changed instructions (src/diff.py): the loop of `main` that extracts them.
pub mod Stays
pub mod Order
pub mod Covers
use xkernel.Base.{ℕ, suc, ◌-◌, ◌≡◌, ◌↔◌, arith, Bool, true, false, ◌&&◌, ◌||◌, Option, none, some}
use xkernel.Base.{List, [], ◌∷◌, ◌++◌, map, if◌then◌else◌, ◌==◌, ◌=ℕ◌, HasTest, list_eq, nat_eq}
use xkernel.Base.{length, ltb, leb}
use xkernel.Base.Dict.{Dict, has, insert}
use xkernel.Base.Text.{Text, text, text_iff, lstrip, strip, starts_with}
use xkernel.Diff.Lines.{split_address}
use xkernel.Diff.Instructions.{Instruction, parse_instructions_from_disassembly, begins_space}
use xkernel.Diff.Block.{find_start, block_at, pair_of}

-- The first and the last address of a block.
abbrev pub Key : Type 0
Key = Text × Text

unfoldable pub key_beq : Key → Key → Bool
key_beq (a, b) (c, d) = a == c && b == d

pub key_beq_iff : (x y : Key) → (key_beq x y ≡ true) ↔ (x ≡ y)
unfolding key_beq
key_beq_iff (a, b) (c, d) = ground (arith, text_iff a c, text_iff b d)

instance abbrev pub key_eq : HasTest Key
key_eq = record { test = key_beq; means = key_beq_iff }

pub record Seen : Type 0 where
  pub seen_blocks : Dict Key (List (Text × Text))
  pub seen_line_ranges : List (ℕ × ℕ)

-- A changed line of the diff, with its number in the disassembly.
pub record Changed : Type 0 where
  pub line : Text
  pub line_num : Option ℕ

unfoldable pub final_instruction : Instruction → List Instruction → Instruction
final_instruction inst [] = inst
final_instruction inst (next ∷ insts) = final_instruction next insts

unfoldable pub get_basic_block_key : Instruction → List Instruction → Key
get_basic_block_key inst insts = (inst.addr, (final_instruction inst insts).addr)

unfoldable pub record_block : Seen → List Instruction → Seen
record_block seen [] = seen
record_block seen (inst ∷ insts) =
    let key = get_basic_block_key inst insts in
    if has key seen.seen_blocks then seen else record {
      seen_blocks = insert key (map pair_of (inst ∷ insts)) seen.seen_blocks;
      seen_line_ranges =
          seen.seen_line_ranges ++ ((inst.line_num, (final_instruction inst insts).line_num) ∷ []);
    }

unfoldable pub covered : ℕ → List (ℕ × ℕ) → Bool
covered n [] = false
covered n ((start_line, end_line) ∷ ranges) =
    (leb start_line n && leb n end_line) || covered n ranges

-- Behind the last terminator there is no next instruction: the target itself begins the block.
unfoldable pub or_target : ℕ → Option ℕ → ℕ
or_target target none = target
or_target target (some start_idx) = start_idx

unfoldable pub extract_at : List Instruction → Seen → Option ℕ → Seen
extract_at insts seen none = seen
extract_at insts seen (some target) =
    record_block seen (block_at insts (or_target target (find_start insts target)))

-- The index of the instruction at a line.
unfoldable pub index_of_line : ℕ → ℕ → List Instruction → Option ℕ
index_of_line n i [] = none
index_of_line n i (inst ∷ insts) =
    let rest = index_of_line n (suc i) insts in if inst.line_num =ℕ n then some i else rest

unfoldable pub extract_line : List Instruction → ℕ → Seen → Option ℕ → Seen
extract_line insts count seen none = seen
extract_line insts count seen (some n) =
    if ltb n 1 || ltb count n
    then seen
    else if covered n seen.seen_line_ranges
    then seen
    else extract_at insts seen (index_of_line n 0 insts)

unfoldable pub is_diff_header : Text → Bool
is_diff_header line =
    starts_with line (text "---")
    || starts_with line (text "+++")
    || starts_with line (text "@@")
    || strip line == []

-- `^\s*[-+]\s+([0-9a-fA-F]+):`
unfoldable pub signed_address : Text → Option (Text × Text)
signed_address [] = none
signed_address (c ∷ s) =
    if (c == b'-' || c == b'+') && begins_space s then split_address (lstrip s) else none

unfoldable pub if_addressed : Option (Text × Text) → Seen → Seen → Seen
if_addressed none seen seen' = seen
if_addressed (some found) seen seen' = seen'

unfoldable pub extract_block : List Instruction → ℕ → Seen → Changed → Seen
extract_block insts count seen changed =
    if is_diff_header changed.line
    then seen
    else if_addressed (signed_address (lstrip changed.line)) seen
        (extract_line insts count seen changed.line_num)

unfoldable pub extract_blocks : List Instruction → ℕ → Seen → List Changed → Seen
extract_blocks insts count seen [] = seen
extract_blocks insts count seen (c ∷ changed) =
    extract_blocks insts count (extract_block insts count seen c) changed

unfoldable pub extract_basic_blocks : List Text → List Changed → Seen
extract_basic_blocks original_lines changed =
    extract_blocks (parse_instructions_from_disassembly original_lines) (length original_lines)
      (record { seen_blocks = []; seen_line_ranges = [] }) changed
