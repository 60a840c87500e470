-- ===== src/Asm/Inverse.antt =====
-- The map from anonymous registers to real ones that a run returns.
use xkernel.Base.{◌<◌, ℕ, suc, ◌≡◌, ◌≤◌, refl, sym, ap, ◌∙◌, arith, List, [], ◌∷◌, some, list_eq}
use xkernel.Base.{nat_eq, ◌==◌, Bool-cases, inl, inr, beq_ne, beq_refl}
use xkernel.Base.Dict.{Dict, lookup}
use xkernel.Base.Text.{Text, text_iff, show_nat, parse_nat}
use xkernel.Base.Text.Number.{parse_nat-show_nat}
use xkernel.Asm.{new_executor}
use xkernel.Asm.Operand.{anonymous}
use xkernel.Asm.Operand.Names.{Numbered, IsNumbered}
use xkernel.Asm.Run.{Line, run_lines, inverted, run_symbolic_exec_on_instructions}
use xkernel.Asm.Keeps.Run.{run_lines-IsNumbered}

-- The text after the first character.
abbrev digits_of : Text → Text
digits_of [] = []
digits_of (c ∷ s) = s

pub anonymous_inj : (i j : ℕ) → anonymous i ≡ anonymous j → i ≡ j
unfolding anonymous
anonymous_inj i j e =
    let f : parse_nat 10 (show_nat 10 i) ≡ parse_nat 10 (show_nat 10 j) =
      ap (λ s. parse_nat 10 (digits_of s)) e in
    let g : some i ≡ some j =
      sym (parse_nat-show_nat 10 (omega arith) (omega arith) i)
      ∙ f
      ∙ parse_nat-show_nat 10 (omega arith) (omega arith) j in
    cc g

Numbered-le : (k c : ℕ) (d : Dict Text Text) → Numbered k d c → k ≤ c
Numbered-le k c [] h = omega (arith, h)
Numbered-le k c (p ∷ d) h = omega (arith, Numbered-le (suc k) c d h.1)

pub Numbered-lookup :
    (k c : ℕ) (d : Dict Text Text) (b a : Text)
    → Numbered k d c
    → lookup b d ≡ some a
    → (i : ℕ) × (a ≡ anonymous i) × (k ≤ i) × (i < c)
unfolding lookup
Numbered-lookup k c [] b a h e = absurd (cc e)
Numbered-lookup k c ((j, x) ∷ d) b a h e = elim (Bool-cases (b == j)) [
  | inl same ↦
      let here : some x ≡ some a = rw same at e in
      let le = Numbered-le (suc k) c d h.1 in (k, cc (here, h.0), omega arith, omega arith)
  | inr other ↦
      let (i, named, le, lt) = Numbered-lookup (suc k) c d b a h.1 (rw other at e) in
      (i, named, omega arith, lt)
]

pub lookup-inverted :
    (k c : ℕ) (d : Dict Text Text) (b a : Text)
    → Numbered k d c
    → lookup b d ≡ some a
    → lookup a (inverted d) ≡ some b
unfolding lookup inverted
lookup-inverted k c [] b a h e = absurd (cc e)
lookup-inverted k c ((j, x) ∷ d) b a h e = elim (Bool-cases (b == j)) [
  | inl same ↦
      let here : some x ≡ some a = rw same at e in
      let at_x : x ≡ a = cc here in
      rw (sym at_x) (rw (beq_refl x) (ap some (sym ((text_iff b j).0 same))))
  | inr other ↦
      let (i, named, le, lt) = Numbered-lookup (suc k) c d b a h.1 (rw other at e) in
      rw
        (beq_ne {a = a} {b = x}
          (λ f. absurd (later k i (anonymous_inj i k (sym named ∙ f ∙ h.0)) le)))
        (lookup-inverted (suc k) c d b a h.1 (rw other at e))
]
  where
    later : (k i : ℕ) → i ≡ k → suc k ≤ i → ⊥
    later k i e le = omega arith

new_executor-IsNumbered : IsNumbered new_executor
unfolding new_executor
new_executor-IsNumbered = (refl, tt)

-- In the map that a run returns, the anonymous name of a register stands for that register.
anon_to_real-reg_map :
    (lines : List Line) (base_reg anon : Text)
    → lookup base_reg (run_lines lines new_executor).1.reg_map ≡ some anon
    → lookup anon (run_symbolic_exec_on_instructions lines).1 ≡ some base_reg
unfolding run_symbolic_exec_on_instructions
anon_to_real-reg_map lines base_reg anon e =
    let h = run_lines-IsNumbered lines new_executor new_executor-IsNumbered in
    lookup-inverted 0 _ _ base_reg anon h.0 e
