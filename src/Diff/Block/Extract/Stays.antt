-- ===== src/Diff/Block/Extract/Stays.antt =====
-- What the loop over the changed instructions has settled stays settled (src/diff.py).
use xkernel.Base.{ℕ, ◌≤◌, ◌≡◌, ◌⊎◌, inl, inr, refl, sym, subst}
use xkernel.Base.{arith, true, ◌||◌, Option, none, some, List, [], ◌∷◌, ◌++◌}
use xkernel.Base.{◌==◌, ltb, if◌then◌else◌, Bool-cases, Option-cases}
use xkernel.Base.Dict.{has, insert, lookup-insert}
use xkernel.Base.Text.{Text, lstrip}
use xkernel.Diff.Instructions.{Instruction}
use xkernel.Diff.Block.Extract.{Seen, Changed, Key, key_eq}
use xkernel.Diff.Block.Extract.{get_basic_block_key, record_block, covered, extract_at}
use xkernel.Diff.Block.Extract.{index_of_line, extract_line, is_diff_header, signed_address}
use xkernel.Diff.Block.Extract.{if_addressed, extract_block, extract_blocks}

-- A line is settled: a block was extracted that covers it, or one with the key of its block.
abbrev pub Settled : ℕ → Key → Seen → Type 0
Settled n key seen = (covered n seen.seen_line_ranges ≡ true) ⊎ (has key seen.seen_blocks ≡ true)

covered-append :
    (n : ℕ) (ranges more : List (ℕ × ℕ))
    → covered n ranges ≡ true
    → covered n (ranges ++ more) ≡ true
unfolding covered
covered-append n [] more h = cc
covered-append n ((a, b) ∷ ranges) more h = ground (arith, covered-append n ranges more)

pub covered-new :
    (n a b : ℕ) (ranges : List (ℕ × ℕ)) → a ≤ n → n ≤ b → covered n (ranges ++ ((a, b) ∷ [])) ≡ true
unfolding covered
covered-new n a b [] h k = ground arith
covered-new n a b ((c, d) ∷ ranges) h k = ground (arith, covered-new n a b ranges h k)

has-insert :
    (key new : Key) (v : List (Text × Text)) (d : List (Key × List (Text × Text)))
    → has key d ≡ true
    → has key (insert new v d) ≡ true
unfolding has
has-insert key new v d h = elim (Bool-cases (key == new)) [
  | inl same ↦ rw (lookup-insert new key v d, has) (rw same refl)
  | inr other ↦ rw (lookup-insert new key v d, has) (rw other h)
]

-- A recorded block settles what was settled before.
record_block-Settled :
    (n : ℕ) (key : Key) (seen : Seen) (block : List Instruction)
    → Settled n key seen
    → Settled n key (record_block seen block)
unfolding record_block
record_block-Settled n key seen [] h = h
record_block-Settled n key seen (inst ∷ insts) h =
    elim (Bool-cases (has (get_basic_block_key inst insts) seen.seen_blocks)) [
      | inl old ↦ rw old h
      | inr new ↦ rw new (elim h [
        | inl c ↦ inl (covered-append n seen.seen_line_ranges _ c)
        | inr k ↦ inr (has-insert key _ _ seen.seen_blocks k)
      ])
    ]

module _ (insts : List Instruction) (count : ℕ) (n : ℕ) (key : Key) where
  extract_at-Settled :
      (seen : Seen) (o : Option ℕ) → Settled n key seen → Settled n key (extract_at insts seen o)
  unfolding extract_at
  extract_at-Settled seen none h = h
  extract_at-Settled seen (some t) h = record_block-Settled n key seen _ h

  extract_line-Settled :
      (seen : Seen) (o : Option ℕ)
      → Settled n key seen
      → Settled n key (extract_line insts count seen o)
  unfolding extract_line
  extract_line-Settled seen none h = h
  extract_line-Settled seen (some m) h = elim (Bool-cases (ltb m 1 || ltb count m)) [
    | inl out ↦
        subst
          (λ b. Settled n key (
            if b
            then seen
            else if covered m seen.seen_line_ranges
            then seen
            else extract_at insts seen (index_of_line m 0 insts)))
          (sym out) h
    | inr in' ↦
        subst
          (λ b. Settled n key (
            if b
            then seen
            else if covered m seen.seen_line_ranges
            then seen
            else extract_at insts seen (index_of_line m 0 insts)))
          (sym in')
          (elim (Bool-cases (covered m seen.seen_line_ranges)) [
            | inl old ↦ rw old h
            | inr new ↦ rw new (extract_at-Settled seen _ h)
          ])
  ]

  extract_block-Settled :
      (seen : Seen) (c : Changed)
      → Settled n key seen
      → Settled n key (extract_block insts count seen c)
  unfolding extract_block if_addressed
  extract_block-Settled seen c h = elim (Bool-cases (is_diff_header c.line)) [
    | inl head ↦ rw head h
    | inr other ↦ rw other (elim (Option-cases (signed_address (lstrip c.line))) [
      | inl none' ↦ rw none' h
      | inr (found, e) ↦ rw e (extract_line-Settled seen c.line_num h)
    ])
  ]

  pub extract_blocks-Settled :
      (seen : Seen) (changed : List Changed)
      → Settled n key seen
      → Settled n key (extract_blocks insts count seen changed)
  unfolding extract_blocks
  extract_blocks-Settled seen [] h = h
  extract_blocks-Settled seen (c ∷ changed) h =
      extract_blocks-Settled (extract_block insts count seen c) changed
        (extract_block-Settled seen c h)

unfoldable pub key_of : List Instruction → Key
key_of [] = ([], [])
key_of (inst ∷ insts) = get_basic_block_key inst insts
