-- ===== src/Asm/Sound/Step.antt =====
-- Soundness of what is done to a named register.
use xkernel.Base.{ℕ, ◌≡◌, refl, sym, ◌∙◌, [], ◌∷◌, Option, some, none, list_eq, nat_eq, ◌==◌}
use xkernel.Base.{Bool-cases, inl, inr, beq_refl}
use xkernel.Base.Dict.{Dict, lookup, lookup-insert}
use xkernel.Base.Text.{Text, text_iff}
use xkernel.Asm.{Op, Expr, Executor}
use xkernel.Asm.Operand.{anonymous, assign, get_anonymous_reg}
use xkernel.Asm.Execute.{expr_of, set_both, with_register}
use xkernel.Asm.Sound.{Meaning, base, eval, Names, Tracks, write, get_anonymous_reg-Tracks}
use xkernel.Asm.Sound.{set_both-Tracks}

abbrev pub Map : Type 0
Map = Dict Text Text

-- The second map has what the first one has.
abbrev pub Extends : Map → Map → Type 0
Extends d d' = (b a : Text) → lookup b d ≡ some a → lookup b d' ≡ some a

Extends-assign :
    (b : Text) (m : Executor) (o : Option Text)
    → lookup b m.reg_map ≡ o
    → Extends m.reg_map (assign b m o).1.reg_map
unfolding assign
Extends-assign b m (some x) e c a l = l
Extends-assign b m none e c a l = elim (Bool-cases (c == b)) [
  | inl same ↦
      let c_is : c ≡ b = (text_iff c b).0 same in
      let clash : none ≡ some a = sym e ∙ rw (sym c_is) l in absurd (cc clash)
  | inr other ↦ lookup-insert b c (anonymous m.reg_counter) m.reg_map ∙ rw other l
]

pub Extends-get_anonymous_reg :
    (r : Text) (m : Executor) → Extends m.reg_map (get_anonymous_reg r m).1.reg_map
unfolding get_anonymous_reg
Extends-get_anonymous_reg r m = Extends-assign (base r) m _ refl

lookup-assign :
    (b : Text) (m : Executor) (o : Option Text)
    → lookup b m.reg_map ≡ o
    → lookup b (assign b m o).1.reg_map ≡ some (assign b m o).0
unfolding assign
lookup-assign b m (some x) e = e
lookup-assign b m none e =
    lookup-insert b b (anonymous m.reg_counter) m.reg_map ∙ rw (beq_refl b) refl

lookup-get_anonymous_reg :
    (r : Text) (m : Executor)
    → lookup (base r) (get_anonymous_reg r m).1.reg_map ≡ some (get_anonymous_reg r m).0
unfolding get_anonymous_reg
lookup-get_anonymous_reg r m = lookup-assign (base r) m _ refl

pub Extends-with_register :
    (r : Text) (f : Text → Executor → Executor) (m : Executor)
    → ((anon : Text) (n : Executor) → Extends n.reg_map (f anon n).reg_map)
    → Extends m.reg_map (with_register r f m).reg_map
unfolding with_register
Extends-with_register [] f m k b a l = l
Extends-with_register (c ∷ s) f m k b a l = k _ _ b a (Extends-get_anonymous_reg (c ∷ s) m b a l)

module _ {W : Type 0} (M : Meaning W) (start now : Text → W) where
  -- What is done to a named register is sound if it is sound for the register's anonymous name.
  pub with_register-Tracks :
      (c : ℕ) (s : Text) (f : Text → Executor → Executor) (new : Text → W) (m : Executor)
      → ((anon : Text) (n : Executor) → Extends n.reg_map (f anon n).reg_map)
      → ((anon : Text) (n : Executor)
          → Tracks M start now n
          → lookup (base (c ∷ s)) n.reg_map ≡ some anon
          → Extends m.reg_map n.reg_map
          → Names M start (f anon n)
          → Tracks M start new (f anon n))
      → Tracks M start now m
      → Names M start (with_register (c ∷ s) f m)
      → Tracks M start new (with_register (c ∷ s) f m)
  unfolding with_register
  with_register-Tracks c s f new m grow k t names =
      k _ _ (get_anonymous_reg-Tracks M start now (c ∷ s) m t (λ b a l. names b a (grow _ _ b a l)))
        (lookup-get_anonymous_reg (c ∷ s) m) (Extends-get_anonymous_reg (c ∷ s) m) names

  -- The alternative versions have no part in it.
  pub any_alt :
      (new : Text → W) (m : Executor) (alt : Dict Text Expr)
      → Tracks M start new m
      → Tracks M start new (record m { state_alt = alt })
  unfolding expr_of
  any_alt new m alt t = record {
    numbered = t.numbered;
    value = t.value;
    unused = t.unused;
    fresh = t.fresh;
  }

  -- A register that becomes an operation on itself and an expression.
  pub binary-Tracks :
      (o : Op) (b d : Text) (e e_alt : Expr) (alt : Dict Text Expr) (m : Executor)
      → Tracks M start now m
      → lookup b m.reg_map ≡ some d
      → Tracks M start
          (write M b (M.apply o (now b) (eval M e)) now)
          (record (set_both d (Expr.binary o (expr_of d m) e) e_alt m) { state_alt = alt })
  unfolding eval
  binary-Tracks o b d e e_alt alt m t l =
      let r : Tracks M start (write M b (M.apply o (eval M (expr_of d m)) (eval M e)) now)
          (set_both d (Expr.binary o (expr_of d m) e) e_alt m) =
        set_both-Tracks M start now b d (Expr.binary o (expr_of d m) e) e_alt m t l in
      any_alt _ _ alt (rw (t.value b d l) at r)
