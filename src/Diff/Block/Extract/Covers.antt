-- ===== src/Diff/Block/Extract/Covers.antt =====
-- The lines that the extracted blocks cover (src/diff.py).
use xkernel.Base.{ℕ, suc, ◌+◌, ◌-◌, ◌≤◌, ◌<◌, ◌≡◌, inl, inr, refl, sym, ap, subst, ◌∙◌}
use xkernel.Base.{arith, true, false, ◌||◌, some, List, [], ◌∷◌, ◌++◌, length}
use xkernel.Base.{get_elem?, ◌=ℕ◌, take, drop, ltb, if◌then◌else◌, Bool-cases}
use xkernel.Base.Dict.{has}
use xkernel.Base.Text.{Text, lstrip}
use xkernel.Diff.Instructions.{Instruction, parse_instructions_from_disassembly}
use xkernel.Diff.Block.Extract.Order.{InOrder, drop-InOrder, take-InOrder, get_elem?-drop}
use xkernel.Diff.Block.Extract.Order.{get_elem?-take, All-at, last-bound, parse-InOrder}
use xkernel.Diff.Block.{label_at, ends_at, find_start, find_end, block_at}
use xkernel.Diff.Block.Laws.{find_start-IsBlock}
use xkernel.Diff.Block.Extract.{Seen, Changed, key_eq, final_instruction}
use xkernel.Diff.Block.Extract.{get_basic_block_key, record_block, covered, or_target, extract_at}
use xkernel.Diff.Block.Extract.{index_of_line, extract_line, is_diff_header, signed_address}
use xkernel.Diff.Block.Extract.{if_addressed, extract_block, extract_blocks, extract_basic_blocks}
use xkernel.Diff.Block.Extract.Stays.{Settled, covered-new, extract_blocks-Settled, key_of}

-- Recording a block settles the lines between its first and its last instruction.
record_block-new :
    (n k : ℕ) (seen : Seen) (block : List Instruction) (inst : Instruction)
    → InOrder block
    → get_elem? block k ≡ some inst
    → inst.line_num ≡ n
    → Settled n (key_of block) (record_block seen block)
unfolding record_block key_of
record_block-new n k seen [] inst order found e = cc
record_block-new n k seen (first ∷ rest) inst order found e =
    let low : first.line_num ≤ inst.line_num =
      All-at (λ y. first.line_num ≤ y.line_num) (first ∷ rest) k inst (omega arith, order.0)
        found in
    let high : inst.line_num ≤ (final_instruction first rest).line_num =
      All-at (λ y. y.line_num ≤ (final_instruction first rest).line_num) (first ∷ rest) k inst
        (last-bound first rest order) found in
    elim (Bool-cases (has (get_basic_block_key first rest) seen.seen_blocks)) [
      | inl old ↦ rw old (inr old)
      | inr new ↦ rw new (
          inl (
            covered-new n first.line_num (final_instruction first rest).line_num
              seen.seen_line_ranges (omega arith) (omega arith)))
    ]

index_of_line_sound :
    (n i t : ℕ) (insts : List Instruction)
    → index_of_line n i insts ≡ some t
    → (k : ℕ) × (inst : Instruction) × (t ≡ i + k)
      × (k < length insts)
      × (get_elem? insts k ≡ some inst)
      × (inst.line_num ≡ n)
unfolding index_of_line
index_of_line_sound n i t [] h = cc
index_of_line_sound n i t (inst ∷ insts) h = elim (Bool-cases (inst.line_num =ℕ n)) [
  | inl same ↦ (0, inst, ground arith, omega arith, refl, ground arith)
  | inr other ↦
      let (k, inst', e, lt, found, line) = index_of_line_sound n (suc i) t insts (ground arith) in
      (suc k, inst', omega arith, omega arith, found, line)
]

-- The block that the loop finds for the instruction at an index.
unfoldable pub block_for : List Instruction → ℕ → List Instruction
block_for insts target = block_at insts (or_target target (find_start insts target))

-- A changed line that stands for the instruction at an index.
pub record Stands (insts : List Instruction) (count : ℕ) (c : Changed) (n t : ℕ) : Type 0 where
  pub no_header : is_diff_header c.line ≡ false
  pub address : Text × Text
  pub addressed : signed_address (lstrip c.line) ≡ some address
  pub numbered : c.line_num ≡ some n
  pub positive : 1 ≤ n
  pub in_file : n ≤ count
  pub found : index_of_line n 0 insts ≡ some t

module _ (insts : List Instruction) (count : ℕ) (c : Changed) (n t : ℕ)
    (order : InOrder insts) where
  block_for-Settled :
      ((i : ℕ) → label_at insts i ≡ true → ends_at insts i ≡ false)
      → index_of_line n 0 insts ≡ some t
      → ends_at insts t ≡ false
      → (seen : Seen)
      → Settled n (key_of (block_for insts t)) (record_block seen (block_for insts t))
  unfolding block_for block_at
  block_for-Settled plain at' more seen =
      let (k, inst, eq, lt, here, line) = index_of_line_sound n 0 t insts at' in
      let (s, start, low, high, block) = find_start-IsBlock insts plain t (omega arith) more in
      let same : s + (t - s) ≡ t = omega arith in
      let same' : k ≡ t = omega arith in
      let in_block : get_elem? (take (suc (find_end insts s) - s) (drop s insts)) (t - s)
          ≡ some inst =
        get_elem?-take _ (t - s) (drop s insts) (omega arith)
        ∙ get_elem?-drop s (t - s) insts
        ∙ ap (get_elem? insts) same
        ∙ subst (λ j. get_elem? insts j ≡ some inst) same' here in
      subst
        (λ o.
          Settled n (key_of (block_at insts (or_target t o)))
            (record_block seen (block_at insts (or_target t o))))
        (sym start)
        (unfold or_target in
          record_block-new n (t - s) seen _ inst
            (take-InOrder _ (drop s insts) (drop-InOrder s insts order)) in_block line)

  extract_line-new :
      ((i : ℕ) → label_at insts i ≡ true → ends_at insts i ≡ false)
      → 1 ≤ n
      → n ≤ count
      → index_of_line n 0 insts ≡ some t
      → ends_at insts t ≡ false
      → (seen : Seen)
      → Settled n (key_of (block_for insts t)) (extract_line insts count seen (some n))
  unfolding extract_line
  extract_line-new plain low high at' more seen =
      let inside : (ltb n 1 || ltb count n) ≡ false = ground arith in
      let block = extract_at insts seen (index_of_line n 0 insts) in
      subst
        (λ b.
          Settled n (key_of (block_for insts t))
            (if b then seen else if covered n seen.seen_line_ranges then seen else block))
        (sym inside)
        (elim (Bool-cases (covered n seen.seen_line_ranges)) [
          | inl old ↦ rw old (inl old)
          | inr new ↦ rw new (at_index (block_for-Settled plain at' more seen))
        ])
    where
      at_index :
          Settled n (key_of (block_for insts t)) (record_block seen (block_for insts t))
          → Settled n (key_of (block_for insts t)) (extract_at insts seen (index_of_line n 0 insts))
      at_index h =
          subst (λ o. Settled n (key_of (block_for insts t)) (extract_at insts seen o)) (sym at')
            (unfold extract_at block_for in h)

  extract_block-new :
      ((i : ℕ) → label_at insts i ≡ true → ends_at insts i ≡ false)
      → Stands insts count c n t
      → ends_at insts t ≡ false
      → (seen : Seen) → Settled n (key_of (block_for insts t)) (extract_block insts count seen c)
  unfolding extract_block if_addressed
  extract_block-new plain stands more seen =
      rw (stands.no_header, stands.addressed, stands.numbered)
        (extract_line-new plain stands.positive stands.in_file stands.found more seen)

-- After the loop each changed line that stands for an instruction which ends no block is covered:
-- a block was extracted that covers the line, or a block whose first and last addresses are those
-- of the block around the instruction. No label may end a block.
pub extract_basic_blocks-Settled :
    (lines : List Text) (before after : List Changed) (c : Changed) (n t : ℕ)
    → ((i : ℕ)
        → label_at (parse_instructions_from_disassembly lines) i ≡ true
        → ends_at (parse_instructions_from_disassembly lines) i ≡ false)
    → Stands (parse_instructions_from_disassembly lines) (length lines) c n t
    → ends_at (parse_instructions_from_disassembly lines) t ≡ false
    → Settled n
        (key_of (block_for (parse_instructions_from_disassembly lines) t))
        (extract_basic_blocks lines (before ++ (c ∷ after)))
unfolding extract_basic_blocks extract_blocks
extract_basic_blocks-Settled lines before after c n t plain stands more = through before _
  where
    through :
        (before : List Changed) (seen : Seen)
        → Settled n (key_of (block_for (parse_instructions_from_disassembly lines) t)) (
            extract_blocks
              (parse_instructions_from_disassembly lines)
              (length lines)
              seen
              (before ++ (c ∷ after)))
    through [] seen = extract_blocks-Settled _ (length lines) n _ _ after (
        extract_block-new (parse_instructions_from_disassembly lines) (length lines) c n t
          (parse-InOrder lines) plain stands more seen)
    through (b ∷ before) seen = through before _
