-- ===== src/Diff/Block/Extract/Order.antt =====
-- The order of the parsed instructions, and the parts of their list (src/diff.py).
use xkernel.Base.{ℕ, zero, suc, ◌+◌, ◌≤◌, ◌<◌, ◌≡◌, refl, ap, subst, ◌∙◌, arith, Option, none}
use xkernel.Base.{some, List, [], ◌∷◌, get_elem?, take, drop, All, Bool-cases, Option-cases, inl}
use xkernel.Base.{inr}
use xkernel.Base.Text.{Text, text, starts_with}
use xkernel.Diff.Lines.{after_spaces, nonempty}
use xkernel.Diff.Instructions.{Instruction, parse_instructions_from_disassembly, label_header}
use xkernel.Diff.Instructions.{indented_address, instructions_from, labels_of, add_line}
use xkernel.Diff.Instructions.{add_addressed, add_instruction}
use xkernel.Diff.Block.Extract.{final_instruction}

-- The instructions stand in the order of their lines.
abbrev pub InOrder : List Instruction → Type 0
InOrder [] = Unit
InOrder (inst ∷ insts) = All (λ later. inst.line_num ≤ later.line_num) insts × InOrder insts

pub drop-InOrder : (n : ℕ) (insts : List Instruction) → InOrder insts → InOrder (drop n insts)
drop-InOrder zero insts h = h
drop-InOrder (suc n) [] h = tt
drop-InOrder (suc n) (inst ∷ insts) h = drop-InOrder n insts h.1

All-take :
    (P : Instruction → Type 0) (n : ℕ) (insts : List Instruction)
    → All P insts
    → All P (take n insts)
All-take P zero insts h = tt
All-take P (suc n) [] h = tt
All-take P (suc n) (inst ∷ insts) h = (h.0, All-take P n insts h.1)

pub take-InOrder : (n : ℕ) (insts : List Instruction) → InOrder insts → InOrder (take n insts)
take-InOrder zero insts h = tt
take-InOrder (suc n) [] h = tt
take-InOrder (suc n) (inst ∷ insts) h = (All-take _ n insts h.0, take-InOrder n insts h.1)

pub get_elem?-drop :
    (s k : ℕ) (insts : List Instruction) → get_elem? (drop s insts) k ≡ get_elem? insts (s + k)
get_elem?-drop zero k insts = rw (zero_add k) refl
  where
    zero_add : (k : ℕ) → 0 + k ≡ k
    zero_add k = omega arith
get_elem?-drop (suc s) k [] = refl
get_elem?-drop (suc s) k (inst ∷ insts) =
    get_elem?-drop s k insts ∙ ap (get_elem? (inst ∷ insts)) (suc_add s k)
  where
    suc_add : (s k : ℕ) → suc (s + k) ≡ suc s + k
    suc_add s k = omega arith

pub get_elem?-take :
    (n k : ℕ) (insts : List Instruction) → k < n → get_elem? (take n insts) k ≡ get_elem? insts k
get_elem?-take zero k insts h = absurd (omega arith)
get_elem?-take (suc n) k [] h = refl
get_elem?-take (suc n) zero (inst ∷ insts) h = refl
get_elem?-take (suc n) (suc k) (inst ∷ insts) h = get_elem?-take n k insts (omega arith)

-- An instruction of a block stands between its first and its last.
pub All-at :
    (P : Instruction → Type 0) (insts : List Instruction) (k : ℕ) (inst : Instruction)
    → All P insts
    → get_elem? insts k ≡ some inst
    → P inst
All-at P [] k inst h e = cc
All-at P (x ∷ insts) zero inst h e = let same : x ≡ inst = cc in subst P same h.0
All-at P (x ∷ insts) (suc k) inst h e = All-at P insts k inst h.1 e

pub last-bound :
    (x : Instruction) (insts : List Instruction)
    → InOrder (x ∷ insts)
    → All (λ y. y.line_num ≤ (final_instruction x insts).line_num) (x ∷ insts)
unfolding final_instruction
last-bound x [] h = (omega arith, tt)
last-bound x (y ∷ insts) h = let ih = last-bound y insts h.1 in (omega (arith, ih.0, h.0.0), ih)

-- The parsed instructions stand in the order of their lines.
AfterLine : ℕ → List Instruction → Type 0
AfterLine n insts = All (λ inst. n ≤ inst.line_num) insts × InOrder insts

AfterLine-weaken :
    (n : ℕ) (insts : List Instruction)
    → All (λ inst. suc n ≤ inst.line_num) insts
    → All (λ inst. n ≤ inst.line_num) insts
AfterLine-weaken n [] h = tt
AfterLine-weaken n (inst ∷ insts) h = (omega (arith, h.0), AfterLine-weaken n insts h.1)

add_line-AfterLine :
    (labels : List Text) (n : ℕ) (line : Text) (o : Option (Text × Text)) (rest : List Instruction)
    → AfterLine (suc n) rest
    → AfterLine n (add_line labels n line o rest)
unfolding AfterLine add_line add_addressed add_instruction
add_line-AfterLine labels n line (some header) rest h = (AfterLine-weaken n rest h.0, h.1)
add_line-AfterLine labels n line none rest h =
    let same : AfterLine n rest = (AfterLine-weaken n rest h.0, h.1) in
    elim (Bool-cases (starts_with line (text "Disassembly of section"))) [
      | inl section ↦ rw section same
      | inr other ↦ rw other (elim (Option-cases (indented_address line)) [
        | inl none' ↦ rw none' same
        | inr ((addr, s), found) ↦ rw found (elim (Option-cases (after_spaces nonempty s)) [
          | inl none' ↦ rw none' same
          | inr (inst_line, found') ↦
              rw found'
                ((omega arith, AfterLine-weaken n rest h.0), (AfterLine-weaken n rest h.0, h.1))
        ])
      ])
    ]

instructions_from-AfterLine :
    (labels : List Text) (n : ℕ) (lines : List Text)
    → AfterLine n (instructions_from labels n lines)
unfolding instructions_from
instructions_from-AfterLine labels n [] = unfold AfterLine in (tt, tt)
instructions_from-AfterLine labels n (line ∷ lines) =
    add_line-AfterLine labels n line (label_header line) _
      (instructions_from-AfterLine labels (suc n) lines)

pub parse-InOrder : (lines : List Text) → InOrder (parse_instructions_from_disassembly lines)
unfolding parse_instructions_from_disassembly AfterLine
parse-InOrder lines = (instructions_from-AfterLine (labels_of lines) 1 lines).1
