-- ===== src/Asm/Operand/Names.antt =====
-- The anonymous registers are numbered in the order of first use, and parsing keeps that.
use xkernel.Base.{ℕ, suc, ◌≡◌, refl, sym, ap, [], ◌∷◌, Option, some, none, list_eq, nat_eq, ◌=ℕ◌}
use xkernel.Base.{◌==◌, Bool-cases, get_or, map, inl, inr}
use xkernel.Base.Dict.{Dict, lookup, insert, NodupKeys, insert-NodupKeys}
use xkernel.Base.Text.{Text, strip, lstrip_char, split}
use xkernel.Asm.{Executor}
use xkernel.Asm.Operand.{anonymous, assign, get_anonymous_reg, part_of, parse_memory, parse_other}
use xkernel.Asm.Operand.{parse_nonimmediate, parse_matched, parse_stripped, parse_operand}
use xkernel.Asm.Operand.{match_memory, strip_segment}

-- The names of a register map are those from `k` on, up to the counter.
abbrev pub Numbered : ℕ → Dict Text Text → ℕ → Type 0
Numbered k [] counter = k ≡ counter
Numbered k ((base_reg, anon) ∷ d) counter = (anon ≡ anonymous k) × Numbered (suc k) d counter

abbrev pub IsNumbered : Executor → Type 0
IsNumbered m = Numbered 0 m.reg_map m.reg_counter × NodupKeys m.reg_map

Numbered-insert :
    (k counter : ℕ) (b : Text) (d : Dict Text Text)
    → lookup b d ≡ none
    → Numbered k d counter
    → Numbered k (insert b (anonymous counter) d) (suc counter)
unfolding lookup insert
Numbered-insert k counter b [] new h = (ap anonymous (sym h), ap suc h)
Numbered-insert k counter b ((j, a) ∷ d) new h = elim (Bool-cases (b == j)) [
  | inl same ↦ cc (rw same at new)
  | inr other ↦ rw other (h.0, Numbered-insert (suc k) counter b d (rw other at new) h.1)
]

assign-IsNumbered :
    (b : Text) (m : Executor) (o : Option Text)
    → lookup b m.reg_map ≡ o
    → IsNumbered m
    → IsNumbered (assign b m o).1
unfolding assign
assign-IsNumbered b m none e h =
    (Numbered-insert 0 m.reg_counter b m.reg_map e h.0, insert-NodupKeys b _ m.reg_map h.1)
assign-IsNumbered b m (some a) e h = h

pub get_anonymous_reg-IsNumbered :
    (r : Text) (m : Executor) → IsNumbered m → IsNumbered (get_anonymous_reg r m).1
unfolding get_anonymous_reg
get_anonymous_reg-IsNumbered r m h = assign-IsNumbered _ m _ refl h

part_of-IsNumbered : (r : Text) (m : Executor) → IsNumbered m → IsNumbered (part_of r m).1
unfolding part_of
part_of-IsNumbered [] m h = h
part_of-IsNumbered (c ∷ s) m h = get_anonymous_reg-IsNumbered (lstrip_char b'%' (c ∷ s)) m h

parse_memory-IsNumbered :
    (offset regs : Text) (m : Executor) → IsNumbered m → IsNumbered (parse_memory offset regs m).1
unfolding parse_memory
parse_memory-IsNumbered offset regs m h =
    let parts = map strip (split b',' regs) in
    part_of-IsNumbered (get_or parts 1 []) _ (part_of-IsNumbered (get_or parts 0 []) m h)

parse_other-IsNumbered : (s : Text) (m : Executor) → IsNumbered m → IsNumbered (parse_other s m).1
unfolding parse_other
parse_other-IsNumbered [] m h = h
parse_other-IsNumbered (c ∷ s) m h = elim (Bool-cases (c =ℕ b'%')) [
  | inl e ↦ rw e (get_anonymous_reg-IsNumbered s m h)
  | inr e ↦ rw e h
]

matched-IsNumbered :
    (s : Text) (o : Option (Text × Text)) (m : Executor)
    → IsNumbered m
    → IsNumbered (parse_matched s o m).1
unfolding parse_matched
matched-IsNumbered s none m h = parse_other-IsNumbered s m h
matched-IsNumbered s (some (offset, regs)) m h = parse_memory-IsNumbered offset regs m h

nonimmediate-IsNumbered :
    (s : Text) (m : Executor) → IsNumbered m → IsNumbered (parse_nonimmediate s m).1
unfolding parse_nonimmediate
nonimmediate-IsNumbered s = matched-IsNumbered s (match_memory s)

stripped-IsNumbered : (s : Text) (m : Executor) → IsNumbered m → IsNumbered (parse_stripped s m).1
unfolding parse_stripped
stripped-IsNumbered [] m h = nonimmediate-IsNumbered [] m h
stripped-IsNumbered (c ∷ s) m h = elim (Bool-cases (c =ℕ b'$')) [
  | inl e ↦ rw e h
  | inr e ↦ rw e (nonimmediate-IsNumbered (c ∷ s) m h)
]

pub parse_operand-IsNumbered :
    (s : Text) (m : Executor) → IsNumbered m → IsNumbered (parse_operand s m).1
unfolding parse_operand
parse_operand-IsNumbered s = stripped-IsNumbered (strip_segment (strip s))
