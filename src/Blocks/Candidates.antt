-- ===== src/Blocks/Candidates.antt =====
-- The kprobe candidates behind a changed instruction, and the lines of the blocks (src/codegen.py).
use xkernel.Base.{◌≡◌, ◌⊎◌, inl, inr, refl, ap, ◌∙◌, Bool, true, false, not}
use xkernel.Base.{Option, none, some, List, [], ◌∷◌, ◌++◌, append_assoc, map}
use xkernel.Base.{if◌then◌else◌, Bool-cases, keep}
use xkernel.Base.Text.{Text, text, strip, starts_with}
use xkernel.Diff.Lines.{split_address}
use xkernel.Blocks.Parse.{drop_marker, only_bytes, function_name_in}
use xkernel.Blocks.{BasicBlock, new_block, begins_block, is_boundary, reads_family, add_candidate}
use xkernel.Blocks.{candidates_from, is_none, set_first, set_changed, add_instruction_line}
use xkernel.Blocks.{add_addressed_line, set_name, add_block_line, close_block, add_to}
use xkernel.Blocks.{blocks_from}

-- A line with an address, stripped.
pub record Site : Type 0 where
  pub addr : Text
  pub line : Text

unfoldable pub add_site : Text → Option (Text × Text) → List Site → List Site
add_site line none sites = sites
add_site line (some (addr, rest)) sites = record { addr = addr; line = line } ∷ sites

-- The lines with an address before the next block or function.
unfoldable pub sites_before : List Text → List Site
sites_before [] = []
sites_before (line ∷ lines) =
    if is_boundary (strip line)
    then []
    else add_site (strip line) (split_address (strip line)) (sites_before lines)

-- All sites, or those through the first that reads the target.
abbrev pub EndsAtReader : Option Text → List Site → List Site → Type 0
EndsAtReader target [] left = left ≡ []
EndsAtReader target (site ∷ []) left =
    (reads_family target site.line ≡ true) ⊎ ((reads_family target site.line ≡ false) × (left ≡ []))
EndsAtReader target (site ∷ next ∷ sites) left =
    (reads_family target site.line ≡ false) × EndsAtReader target (next ∷ sites) left

unfoldable pub addr_of : Site → Text
addr_of site = site.addr

Split : Option Text → List Site → List Text → Type 0
Split target sites candidates =
    (pre : List Site) × (post : List Site) × (sites ≡ pre ++ post)
    × (candidates ≡ map addr_of pre)
    × EndsAtReader target pre post

EndsAtReader-cons :
    (target : Option Text) (site : Site) (pre post : List Site)
    → reads_family target site.line ≡ false
    → EndsAtReader target pre post
    → EndsAtReader target (site ∷ pre) post
EndsAtReader-cons target site [] post quiet h = inr (quiet, h)
EndsAtReader-cons target site (next ∷ pre) post quiet h = (quiet, h)

Split-site :
    (target : Option Text) (stripped : Text) (o : Option (Text × Text)) (sites : List Site)
    (rest : List Text)
    → Split target sites rest
    → Split target (add_site stripped o sites) (add_candidate (reads_family target stripped) o rest)
unfolding Split add_site add_candidate addr_of
Split-site target stripped none sites rest h = h
Split-site target stripped (some (addr, s)) sites rest (pre, post, all, here, ends) =
    let site : Site = record { addr = addr; line = stripped } in
    elim (Bool-cases (reads_family target stripped)) [
      | inl reads ↦ rw reads (site ∷ [], sites, refl, refl, inl reads)
      | inr quiet ↦ rw quiet (
        site ∷ pre,
        post,
        ap (λ l. site ∷ l) all,
        ap (λ l. addr ∷ l) here,
        EndsAtReader-cons target site pre post quiet ends,
      )
    ]

candidates-Split :
    (target : Option Text) (lines : List Text)
    → Split target (sites_before lines) (candidates_from target lines)
unfolding candidates_from sites_before
candidates-Split target [] = unfold Split in ([], [], refl, refl, refl)
candidates-Split target (line ∷ lines) = elim (Bool-cases (is_boundary (strip line))) [
  | inl stop ↦ rw stop (unfold Split in ([], [], refl, refl, refl))
  | inr on ↦ rw on (
      Split-site target (strip line) (split_address (strip line)) _ _
        (candidates-Split target lines))
]

-- Take the lines behind a changed instruction, up to the next block or function, that begin with an
-- address; a line that goes on with the bytes of the one before it is one of them, and a line with
-- the marker `[*]` of a changed instruction, which begins with the marker, is not, whatever it reads.
-- The candidates for a kprobe are the addresses of the first of these lines: none but the last
-- candidate's line reads the register that the changed instruction writes, and some of these lines
-- are left out only behind one that reads it.
pub candidates_from_lem :
    (target : Option Text) (lines : List Text)
    → (pre : List Site) × (post : List Site) × (sites_before lines ≡ pre ++ post)
      × (candidates_from target lines ≡ map addr_of pre)
      × EndsAtReader target pre post
unfolding Split
candidates_from_lem target lines = candidates-Split target lines

-- The raw lines of blocks, one after the other.
unfoldable pub all_raw_lines : List BasicBlock → List Text
all_raw_lines [] = []
all_raw_lines (bb ∷ blocks) = bb.raw_lines ++ all_raw_lines blocks

unfoldable pub is_inner : Text → Bool
is_inner line = not (begins_block (strip line))

-- The lines behind the first head of a block, without the other heads.
unfoldable pub inner_lines : List Text → List Text
inner_lines [] = []
inner_lines (line ∷ lines) =
    if begins_block (strip line) then keep is_inner lines else inner_lines lines

set_first-raw : (addr : Text) (bb : BasicBlock) → (set_first addr bb).raw_lines ≡ bb.raw_lines
unfolding set_first
set_first-raw addr bb = elim (Bool-cases (is_none bb.first_addr)) [
  | inl first ↦ rw first refl
  | inr other ↦ rw other refl
]

set_changed-raw :
    (addr stripped : Text) (later_lines : List Text) (bb : BasicBlock)
    → (set_changed addr stripped later_lines bb).raw_lines ≡ bb.raw_lines
unfolding set_changed
set_changed-raw addr stripped later_lines bb = elim (Bool-cases (is_none bb.changed_addr)) [
  | inl first ↦ rw first refl
  | inr other ↦ rw other refl
]

add_instruction_line-raw :
    (addr stripped : Text) (later_lines : List Text) (bb : BasicBlock)
    → (add_instruction_line addr stripped later_lines bb).raw_lines ≡ bb.raw_lines
unfolding add_instruction_line
add_instruction_line-raw addr stripped later_lines bb =
    elim (Bool-cases (starts_with stripped (text "[*]"))) [
      | inl marked ↦ rw marked (set_changed-raw addr stripped later_lines _ ∙ set_first-raw addr bb)
      | inr other ↦ rw other (set_first-raw addr bb)
    ]

add_addressed_line-raw :
    (o : Option (Text × Text)) (stripped : Text) (later_lines : List Text) (bb : BasicBlock)
    → (add_addressed_line o stripped later_lines bb).raw_lines ≡ bb.raw_lines
unfolding add_addressed_line
add_addressed_line-raw none stripped later_lines bb = refl
add_addressed_line-raw (some (addr, rest)) stripped later_lines bb =
    elim (Bool-cases (only_bytes rest)) [
      | inl more ↦ rw more refl
      | inr instruction ↦ rw instruction (add_instruction_line-raw addr stripped later_lines bb)
    ]

set_name-raw : (o : Option Text) (bb : BasicBlock) → (set_name o bb).raw_lines ≡ bb.raw_lines
unfolding set_name
set_name-raw none bb = refl
set_name-raw (some name) bb = refl

add_block_line-raw :
    (line : Text) (later_lines : List Text) (bb : BasicBlock)
    → (add_block_line line later_lines bb).raw_lines ≡ bb.raw_lines ++ (line ∷ [])
unfolding add_block_line
add_block_line-raw line later_lines bb =
    elim (Bool-cases (starts_with (strip line) (text "Function:"))) [
      | inl function ↦ rw function (set_name-raw (function_name_in (strip line)) _)
      | inr other ↦
          rw other
            (add_addressed_line-raw (split_address (drop_marker (strip line))) _ later_lines _)
    ]

blocks_from-raw :
    (bb : BasicBlock) (lines : List Text)
    → all_raw_lines (blocks_from (some bb) lines) ≡ bb.raw_lines ++ keep is_inner lines
unfolding blocks_from close_block all_raw_lines keep is_inner add_to new_block
blocks_from-raw bb [] = refl
blocks_from-raw bb (line ∷ lines) = elim (Bool-cases (begins_block (strip line))) [
  | inl head ↦ rw head (ap (λ l. bb.raw_lines ++ l) (blocks_from-raw new_block lines))
  | inr inner ↦ rw inner (
      blocks_from-raw (add_block_line line lines bb) lines
      ∙ ap (λ l. l ++ keep is_inner lines) (add_block_line-raw line lines bb)
      ∙ append_assoc bb.raw_lines (line ∷ []) (keep is_inner lines))
]

-- Each line behind the head of the first block is a line of one block, in the order of the file,
-- but for the heads of the blocks.
pub blocks_from-lines :
    (lines : List Text) → all_raw_lines (blocks_from none lines) ≡ inner_lines lines
unfolding blocks_from close_block all_raw_lines inner_lines add_to keep new_block
blocks_from-lines [] = refl
blocks_from-lines (line ∷ lines) = elim (Bool-cases (begins_block (strip line))) [
  | inl head ↦ rw head (blocks_from-raw new_block lines)
  | inr inner ↦ rw inner (blocks_from-lines lines)
]
