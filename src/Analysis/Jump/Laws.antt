-- ===== src/Analysis/Jump/Laws.antt =====
-- What a positive answer of `check_jump_optimizable` promises.
use xkernel.Base.{ℕ, ◌+◌, ◌≤◌, ◌≡◌, refl, ap, arith, Bool, false, not, List, [], ◌∷◌, Option}
use xkernel.Base.{some, none, All, drop, take, length, keep, leb, ltb, ◌=ℕ◌, Bool-cases, inl, inr}
use xkernel.Base.{if◌then◌else◌}
use xkernel.Base.Text.{Text}
use xkernel.Analysis.Jump.{Verdict, Reason, get_insn_byte_count, bytes_and_asm, cover, relative}
use xkernel.Analysis.Jump.{or_else, first_relative, conclude, check_jump_optimizable}

-- The bytes of some lines together, and the lines that have any.
unfoldable pub byte_count : List Text → ℕ
byte_count [] = 0
byte_count (line ∷ lines) = get_insn_byte_count line + byte_count lines

abbrev pub has_bytes : Text → Bool
has_bytes line = not (get_insn_byte_count line =ℕ 0)

cover-byte_count :
    (lines : List Text) (t : ℕ) → (cover lines t).1 ≡ t + byte_count (cover lines t).0
unfolding cover byte_count
cover-byte_count [] t = omega arith
cover-byte_count (line ∷ lines) t =
    ground (arith, cover-byte_count lines t, cover-byte_count lines (t + get_insn_byte_count line))

cover-take :
    (lines : List Text) (t : ℕ)
    → (cover lines t).0 ≡ take (length (cover lines t).0) (keep has_bytes lines)
unfolding cover keep
cover-take [] t = refl
cover-take (line ∷ lines) t = elim (Bool-cases (get_insn_byte_count line =ℕ 0)) [
  | inl empty ↦ rw empty (cover-take lines t)
  | inr some_bytes ↦ elim (Bool-cases (leb 5 (t + get_insn_byte_count line))) [
    | inl enough ↦ rw (some_bytes, enough) refl
    | inr more ↦
        rw (some_bytes, more) (ap (λ r. line ∷ r) (cover-take lines (t + get_insn_byte_count line)))
  ]
]

or_else-none : (a b : Option Reason) → or_else a b ≡ none → (a ≡ none) × (b ≡ none)
unfolding or_else
or_else-none none b e = (refl, e)
or_else-none (some v) b e = absurd (cc e)

-- A line whose instruction holds no relative address.
abbrev pub IsAbsolute : Text → Type 0
IsAbsolute line = relative (bytes_and_asm line) ≡ none

first_relative-IsAbsolute : (lines : List Text) → first_relative lines ≡ none → All IsAbsolute lines
unfolding first_relative
first_relative-IsAbsolute [] e = tt
first_relative-IsAbsolute (line ∷ lines) e =
    let (here, rest) = or_else-none _ _ e in (here, first_relative-IsAbsolute lines rest)

-- The parts of a positive answer.
conclude-optimizable :
    (t n : ℕ) (o : Option Reason)
    → (if ltb t 5 then Verdict.too_short t else conclude t o) ≡ Verdict.optimizable n
    → (5 ≤ n) × (t ≡ n) × (o ≡ none)
unfolding conclude
conclude-optimizable t n o e = elim (Bool-cases (ltb t 5)) [
  | inl short ↦
      let clash : Verdict.too_short t ≡ Verdict.optimizable n = rw short at e in absurd (cc clash)
  | inr long ↦ at_reason t n o long (rw long at e)
]
  where
    at_reason :
        (t n : ℕ) (o : Option Reason)
        → ltb t 5 ≡ false
        → conclude t o ≡ Verdict.optimizable n
        → (5 ≤ n) × (t ≡ n) × (o ≡ none)
    at_reason t n none long f = let same : t ≡ n = cc f in (ground (arith, same, long), same, refl)
    at_reason t n (some v) long f = absurd (cc f)

-- The lines that the jump at an index covers.
abbrev pub covered_lines : List Text → ℕ → List Text
covered_lines all_insts idx = (cover (drop idx all_insts) 0).0

-- A positive answer names the bytes of the covered lines together, five or more; the covered lines
-- are the first ones from the index on that have bytes, and none of them holds a relative address.
pub check_jump_optimizable_lem :
    (all_insts : List Text) (idx n : ℕ)
    → check_jump_optimizable all_insts idx ≡ Verdict.optimizable n
    → let covered = covered_lines all_insts idx in
      (5 ≤ n)
      × (byte_count covered ≡ n)
      × (covered ≡ take (length covered) (keep has_bytes (drop idx all_insts)))
      × All IsAbsolute covered
unfolding check_jump_optimizable
check_jump_optimizable_lem all_insts idx n e =
    let (five, total, none_relative) = conclude-optimizable _ n _ e in
    let counted = cover-byte_count (drop idx all_insts) 0 in
    (
      five,
      omega (arith, counted, total),
      cover-take (drop idx all_insts) 0,
      first_relative-IsAbsolute _ none_relative,
    )
