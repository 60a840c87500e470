-- ===== src/Asm/Split.antt =====
-- Operands joined by commas are split into the same operands.
use xkernel.Base.{◌≡◌, ◌≢◌, refl, sym, ap, ◌∙◌, arith, Bool, true, false, ◌&&◌, List, [], ◌∷◌}
use xkernel.Base.{◌++◌, All, ◌=ℕ◌, if◌then◌else◌, append-nil, append_assoc}
use xkernel.Base.Int.{ℤ, pos, ◌+ℤ◌, ◌-ℤ◌, int_beq, int_beq_iff}
use xkernel.Base.Text.{Text, join}
use xkernel.Asm.Operand.{split_loop, split_asm_operands}

-- Parentheses close at the end, and no comma stands outside them.
unfoldable pub is_whole : ℤ → Text → Bool
is_whole depth [] = int_beq depth (pos 0)
is_whole depth (ch ∷ s) =
    if ch =ℕ b'('
    then is_whole (depth +ℤ pos 1) s
    else if ch =ℕ b')'
    then is_whole (depth -ℤ pos 1) s
    else if ch =ℕ b',' && int_beq depth (pos 0)
    then false
    else is_whole depth s

abbrev pub IsWhole : Text → Type 0
IsWhole s = (s ≢ []) × (is_whole (pos 0) s ≡ true)

split_loop-whole :
    (depth : ℤ) (s rest current : Text)
    → is_whole depth s ≡ true
    → split_loop (s ++ rest) current depth ≡ split_loop rest (current ++ s) (pos 0)
unfolding split_loop is_whole
split_loop-whole depth [] rest current h = cc ((int_beq_iff depth (pos 0)).0 h, append-nil current)
split_loop-whole depth (ch ∷ s) rest current h =
    let next : (current ++ (ch ∷ [])) ++ s ≡ current ++ (ch ∷ s) =
      append_assoc current (ch ∷ []) s in
    ground (
      arith,
      next,
      split_loop-whole (depth +ℤ pos 1) s rest (current ++ (ch ∷ [])),
      split_loop-whole (depth -ℤ pos 1) s rest (current ++ (ch ∷ [])),
      split_loop-whole depth s rest (current ++ (ch ∷ [])),
    )

split_loop-join :
    (s : Text) (ss : List Text)
    → All IsWhole (s ∷ ss)
    → split_loop (join (b',' ∷ []) (s ∷ ss)) [] (pos 0) ≡ s ∷ ss
unfolding join split_loop
split_loop-join [] ss h = absurd (h.0.0 refl)
split_loop-join (c ∷ s) [] h =
    ap (λ t. split_loop t [] (pos 0)) (sym (append-nil (c ∷ s)))
    ∙ split_loop-whole (pos 0) (c ∷ s) [] [] h.0.1
split_loop-join (c ∷ s) (t ∷ ss) h =
    split_loop-whole (pos 0) (c ∷ s) (b',' ∷ join (b',' ∷ []) (t ∷ ss)) [] h.0.1
    ∙ ap (λ r. (c ∷ s) ∷ r) (split_loop-join t ss h.1)

-- Operands that are whole, joined by commas, are split into the same operands.
split_asm_operands-join :
    (operands : List Text)
    → All IsWhole operands
    → split_asm_operands (join (b',' ∷ []) operands) ≡ operands
unfolding split_asm_operands join split_loop
split_asm_operands-join [] h = refl
split_asm_operands-join (s ∷ ss) h = split_loop-join s ss h
