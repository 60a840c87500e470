-- ===== src/Blocks/Offsets.antt =====
-- The addresses of a block file as offsets in the function (src/codegen.py), the last step of
-- `extract_all_basic_blocks_from_file`.
use xkernel.Base.{Option, none, some, List, [], ◌∷◌, map}
use xkernel.Base.Int.{ℤ, pos, ◌-ℤ◌}
use xkernel.Base.Text.{Text}
use xkernel.Diff.Functions.{read_address}
use xkernel.Blocks.{BasicBlock, blocks_from, extract_function_base}

pub record BlockOffsets : Type 0 where
  pub first_addr_offset : ℤ
  pub changed_addr_offset : ℤ
  pub kprobe_addr_offset : Option ℤ
  pub candidate_offsets : Option (List ℤ)

-- Without a base the addresses are taken for offsets.
unfoldable pub offset_from : Option ℤ → Text → ℤ
offset_from none addr = pos (read_address addr)
offset_from (some func_base) addr = pos (read_address addr) -ℤ func_base

unfoldable pub kprobe_offset_of : Option ℤ → Option Text → Option ℤ
kprobe_offset_of base none = none
kprobe_offset_of base (some addr) = some (offset_from base addr)

unfoldable pub candidate_offsets_of : Option ℤ → List Text → Option (List ℤ)
candidate_offsets_of base [] = none
candidate_offsets_of base (addr ∷ addrs) = some (map (offset_from base) (addr ∷ addrs))

unfoldable pub convert :
    List Text → BasicBlock → Option Text → Option Text → Option Text → Option BlockOffsets
convert lines bb (some function_name) (some first_addr) (some changed_addr) =
    let base = extract_function_base function_name lines in
    some (record {
      first_addr_offset = offset_from base first_addr;
      changed_addr_offset = offset_from base changed_addr;
      kprobe_addr_offset = kprobe_offset_of base bb.kprobe_addr;
      candidate_offsets = candidate_offsets_of base bb.candidate_addrs;
    })
convert lines bb _ _ _ = none

unfoldable pub convert_block : List Text → BasicBlock → BasicBlock × Option BlockOffsets
convert_block lines bb = (bb, convert lines bb bb.function_name bb.first_addr bb.changed_addr)

unfoldable pub extract_all_basic_blocks_from_file :
    List Text → List (BasicBlock × Option BlockOffsets)
extract_all_basic_blocks_from_file lines = map (convert_block lines) (blocks_from none lines)
