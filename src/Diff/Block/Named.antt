-- ===== src/Diff/Block/Named.antt =====
-- The search for a basic block inside a named function (src/diff.py).
use xkernel.Base.{ℕ, suc, ◌-◌, ◌≡◌, refl, sym, ap, subst, ◌∙◌, arith, Bool, true, false, ◌&&◌}
use xkernel.Base.{none, some, List, [], ◌∷◌, ◌++◌, append_assoc, length, get_elem?, All}
use xkernel.Base.{length-append, Bool-cases, Option-cases, inl, inr}
use xkernel.Base.Text.{Text, text, parse_int, starts_with}
use xkernel.Diff.Lines.{after_spaces, nonempty}
use xkernel.Diff.Instructions.{Instruction, label_header, indented_address, add_line}
use xkernel.Diff.Instructions.{add_addressed, add_instruction, instructions_from}
use xkernel.Diff.Instructions.{parse_instructions_from_disassembly}
use xkernel.Diff.Block.{names_function, has_name, function_instructions, block_in_function}
use xkernel.Diff.Block.{block_named, at_address, find_basic_block_for_address}

-- The line of an instruction is no header.
abbrev IsPlain : List Text → Instruction → Type 0
IsPlain lines inst = (name : Text) → names_function lines name inst ≡ false

get_elem?-append :
    (before after : List Text) (line : Text)
    → get_elem? (before ++ (line ∷ after)) (length before) ≡ some line
get_elem?-append [] after line = refl
get_elem?-append (b ∷ before) after line = get_elem?-append before after line

name_at_line : List Text → Text → ℕ → Bool
name_at_line lines name n = elim (get_elem? lines n) [
  | none ↦ false
  | some line ↦ has_name name (label_header line)
]

names_function_lem :
    (lines : List Text) (name : Text) (inst : Instruction)
    → names_function lines name inst
      ≡ (inst.is_label && name_at_line lines name (inst.line_num - 1))
unfolding names_function name_at_line
names_function_lem lines name inst = refl

no_name :
    (lines : List Text) (name : Text) (n : ℕ) (line : Text)
    → get_elem? lines n ≡ some line
    → label_header line ≡ none
    → name_at_line lines name n ≡ false
unfolding name_at_line has_name
no_name lines name n line found plain = rw (found, name_at_line) (rw plain refl)

and_false : (b : Bool) → (b && false) ≡ false
and_false true = refl
and_false false = refl

module _ (labels : List Text) (before after : List Text) (line : Text)
    (plain : label_header line ≡ none) where
  IsPlain-here :
      (inst : Instruction)
      → inst.line_num ≡ suc (length before)
      → IsPlain (before ++ (line ∷ after)) inst
  IsPlain-here inst e name =
      let here : inst.line_num - 1 ≡ length before = omega arith in
      let found =
        subst (λ n. get_elem? (before ++ (line ∷ after)) n ≡ some line) (sym here)
          (get_elem?-append before after line) in
      names_function_lem _ name inst
      ∙ ap (λ b. inst.is_label && b) (no_name _ name _ line found plain)
      ∙ and_false inst.is_label

  IsPlain-line :
      (n : ℕ) (rest : List Instruction)
      → n ≡ suc (length before)
      → All (IsPlain (before ++ (line ∷ after))) rest
      → All (IsPlain (before ++ (line ∷ after))) (add_line labels n line none rest)
  unfolding add_line add_addressed add_instruction
  IsPlain-line n rest e h = elim (Bool-cases (starts_with line (text "Disassembly of section"))) [
    | inl section ↦ rw section h
    | inr other ↦ rw other (elim (Option-cases (indented_address line)) [
      | inl none' ↦ rw none' h
      | inr ((addr, s), found) ↦ rw found (elim (Option-cases (after_spaces nonempty s)) [
        | inl none' ↦ rw none' h
        | inr (inst_line, found') ↦ rw found' (IsPlain-here _ e, h)
      ])
    ])
  ]

IsPlain-from :
    (labels : List Text) (n : ℕ) (before lines : List Text)
    → n ≡ suc (length before)
    → All (IsPlain (before ++ lines)) (instructions_from labels n lines)
unfolding instructions_from add_line
IsPlain-from labels n before [] e = tt
IsPlain-from labels n before (line ∷ lines) e =
    let ih =
      IsPlain-from labels (suc n) (before ++ (line ∷ [])) lines
        (omega (arith, length-append {0} before (line ∷ []))) in
    let ih' =
      subst (λ all. All (IsPlain all) (instructions_from labels (suc n) lines))
        (append_assoc before (line ∷ []) lines) ih in
    elim (Option-cases (label_header line)) [
      | inl plain ↦
          subst
            (λ o.
              All (IsPlain (before ++ (line ∷ lines)))
                (add_line labels n line o (instructions_from labels (suc n) lines)))
            (sym plain) (IsPlain-line labels before lines line plain n _ e ih')
      | inr (header, found) ↦
          subst
            (λ o.
              All (IsPlain (before ++ (line ∷ lines)))
                (add_line labels n line o (instructions_from labels (suc n) lines)))
            (sym found) ih'
    ]

function_instructions-plain :
    (lines : List Text) (name : Text) (insts : List Instruction)
    → All (IsPlain lines) insts
    → function_instructions lines name insts ≡ none
unfolding function_instructions
function_instructions-plain lines name [] h = refl
function_instructions-plain lines name (inst ∷ insts) h =
    rw (h.0 name) (function_instructions-plain lines name insts h.1)

-- With the name of a function, `find_basic_block_for_address` finds no block, whatever the file and
-- the address are: it looks for the name in the lines of the instructions, and the headers are
-- other lines.
pub find_basic_block_for_address-named :
    (lines : List Text) (addr_str : Text) (c : ℕ) (name : Text)
    → find_basic_block_for_address lines addr_str (c ∷ name) ≡ none
unfolding find_basic_block_for_address at_address block_named
find_basic_block_for_address-named lines addr_str c name =
    elim (Option-cases (parse_int 16 addr_str)) [
      | inl none' ↦ rw none' refl
      | inr (target, found) ↦
          rw (found, function_instructions-plain lines (c ∷ name) _ (plain lines))
            (unfold block_in_function in refl)
    ]
  where
    plain : (lines : List Text) → All (IsPlain lines) (parse_instructions_from_disassembly lines)
    plain lines = unfold parse_instructions_from_disassembly in IsPlain-from _ 1 [] lines refl
