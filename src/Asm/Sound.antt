-- ===== src/Asm/Sound.antt =====
-- What the executor's expressions mean: values of the registers at the end of a block, in terms of
-- those at its start.
pub mod Step
pub mod Compute
pub mod Lines
pub mod Program
use xkernel.Base.{ℕ, suc, ◌≤◌, ◌<◌, ◌≡◌, ◌≢◌, refl, sym, ap, ◌∙◌, arith, Bool, true, false, List}
use xkernel.Base.{[], ◌∷◌, Option, some, none, list_eq, nat_eq, ◌==◌, if◌then◌else◌, Bool-cases}
use xkernel.Base.{Option-cases, inl, inr, beq_ne, beq_refl}
use xkernel.Base.Dict.{or_default, lookup, get, insert, lookup-insert}
use xkernel.Base.Text.{Text, text_iff, lower, strip}
use xkernel.Asm.{Op, Expr, Executor}
use xkernel.Asm.Register.{get_base_register}
use xkernel.Asm.Operand.{anonymous, assign, get_anonymous_reg}
use xkernel.Asm.Operand.Names.{IsNumbered, get_anonymous_reg-IsNumbered}
use xkernel.Asm.Execute.{expr_of, set_both, set_state}
use xkernel.Asm.Inverse.{Numbered-lookup, anonymous_inj, lookup-inverted}

-- The meaning of atoms and operations over any values.
pub record Meaning (W : Type 0) : Type 0 where
  pub atom : Text → W
  pub apply : Op → W → W → W
  pub scaled : W → ℕ → W
  pub quotient : W → ℕ → W
  pub cmov : W → W → W
  pub zext : W → W
  pub borrow : W → W → W
  pub compared : W → W → W

abbrev pub base : Text → Text
base r = get_base_register (strip (lower r))

expr_unset : (a : Text) (m : Executor) → lookup a m.state ≡ none → expr_of a m ≡ Expr.atom a
unfolding expr_of get
expr_unset a m e = rw e refl

expr_set :
    (d a : Text) (e e_alt : Expr) (m : Executor)
    → expr_of a (set_both d e e_alt m) ≡ (if a == d then e else expr_of a m)
unfolding expr_of get set_both
expr_set d a e e_alt m =
    rw (lookup-insert d a e m.state) (choice e (lookup a m.state) (Expr.atom a) (a == d))
  where
    choice :
        (e : Expr) (o : Option Expr) (x : Expr) (b : Bool)
        → or_default x (if b then some e else o) ≡ (if b then e else or_default x o)
    choice e o x true = refl
    choice e o x false = refl

too_large : (i k n : ℕ) → k ≡ i → n ≤ k → i < n → ⊥
too_large i k n e le lt = omega arith

differs :
    (b c d a : Text) (m : Executor)
    → lookup b m.reg_map ≡ some d
    → lookup c m.reg_map ≡ some a
    → (a == d) ≡ false
    → c ≢ b
differs b c d a m lb lc other e =
    let same : a ≡ d = cc (e, lb, lc) in
    let clash : true ≡ false = sym ((text_iff a d).1 same) ∙ other in absurd (cc clash)

module _ {W : Type 0} (M : Meaning W) where
  unfoldable pub eval : Expr → W
  eval (Expr.atom s) = M.atom s
  eval (Expr.binary o a b) = M.apply o (eval a) (eval b)
  eval (Expr.scaled a n) = M.scaled (eval a) n
  eval (Expr.quotient a n) = M.quotient (eval a) n
  eval (Expr.cmov a b) = M.cmov (eval a) (eval b)
  eval (Expr.zext a) = M.zext (eval a)
  eval (Expr.borrow a b) = M.borrow (eval a) (eval b)
  eval (Expr.compared a b) = M.compared (eval a) (eval b)

  -- Each anonymous name of the map is the value of its register at the start.
  abbrev pub Names : (Text → W) → Executor → Type 0
  Names start m = (b a : Text) → lookup b m.reg_map ≡ some a → M.atom a ≡ start b

  -- The registers of the map have the values of their expressions, and the others have not changed.
  pub record Tracks (start now : Text → W) (m : Executor) : Type 0 where
    pub numbered : IsNumbered m
    pub value : (b a : Text) → lookup b m.reg_map ≡ some a → eval (expr_of a m) ≡ now b
    pub unused : (b : Text) → lookup b m.reg_map ≡ none → now b ≡ start b
    pub fresh : (k : ℕ) → m.reg_counter ≤ k → lookup (anonymous k) m.state ≡ none

  abbrev pub write : Text → W → (Text → W) → Text → W
  write b w now c = if c == b then w else now c

  unset_value : (a : Text) (m : Executor) → lookup a m.state ≡ none → eval (expr_of a m) ≡ M.atom a
  unfolding eval
  unset_value a m e = ap eval (expr_unset a m e)

  -- A register that has just been given its name has the value that it had at the start.
  module _ (start now : Text → W) where
    new_value :
        (b c a : Text) (m : Executor)
        → Tracks start now m
        → lookup b m.reg_map ≡ none
        → (M.atom a ≡ start c)
        → (if c == b then some (anonymous m.reg_counter) else lookup c m.reg_map) ≡ some a
        → eval (expr_of a m) ≡ now c
    new_value b c a m t e named l = elim (Bool-cases (c == b)) [
      | inl same ↦
          let fits : some (anonymous m.reg_counter) ≡ some a = rw same at l in
          let at_a : anonymous m.reg_counter ≡ a = cc fits in
          let c_is : c ≡ b = (text_iff c b).0 same in
          let none_c : lookup c m.reg_map ≡ none = rw c_is e in
          let none_a : lookup a m.state ≡ none =
            rw (sym at_a) (t.fresh m.reg_counter (omega arith)) in
          unset_value a m none_a ∙ named ∙ sym (t.unused c none_c)
      | inr other ↦ t.value c a (rw other at l)
    ]

    still_unused :
        (b c a : Text) (m : Executor)
        → Tracks start now m
        → (if c == b then some a else lookup c m.reg_map) ≡ none
        → now c ≡ start c
    still_unused b c a m t l = elim (Bool-cases (c == b)) [
      | inl same ↦ let clash : some a ≡ none = rw same at l in absurd (cc clash)
      | inr other ↦ t.unused c (rw other at l)
    ]

    assign-Tracks :
        (b : Text) (m : Executor) (o : Option Text)
        → lookup b m.reg_map ≡ o
        → Tracks start now m
        → Names start (assign b m o).1
        → IsNumbered (assign b m o).1
        → Tracks start now (assign b m o).1
    unfolding assign expr_of
    assign-Tracks b m (some a) e t names num = t
    assign-Tracks b m none e t names num = record {
      numbered = num;
      value = λ c a l.
          new_value b c a m t e (names c a l)
            (sym (lookup-insert b c (anonymous m.reg_counter) m.reg_map) ∙ l);
      unused = λ c l.
          still_unused b c (anonymous m.reg_counter) m t
            (sym (lookup-insert b c (anonymous m.reg_counter) m.reg_map) ∙ l);
      fresh = λ k le. t.fresh k (omega arith);
    }

    pub get_anonymous_reg-Tracks :
        (r : Text) (m : Executor)
        → Tracks start now m
        → Names start (get_anonymous_reg r m).1
        → Tracks start now (get_anonymous_reg r m).1
    unfolding get_anonymous_reg
    get_anonymous_reg-Tracks r m t names =
        assign-Tracks _ m _ refl t names (get_anonymous_reg-IsNumbered r m t.numbered)

    same_register :
        (b c d : Text) (m : Executor)
        → Tracks start now m
        → lookup b m.reg_map ≡ some d
        → lookup c m.reg_map ≡ some d
        → b ≡ c
    same_register b c d m t lb lc =
        let eb = lookup-inverted 0 _ _ b d t.numbered.0 lb in
        let ec = lookup-inverted 0 _ _ c d t.numbered.0 lc in cc (eb, ec)

    set_value :
        (b c d a : Text) (e e_alt : Expr) (m : Executor)
        → Tracks start now m
        → lookup b m.reg_map ≡ some d
        → lookup c m.reg_map ≡ some a
        → eval (expr_of a (set_both d e e_alt m)) ≡ write b (eval e) now c
    set_value b c d a e e_alt m t lb lc = elim (Bool-cases (a == d)) [
      | inl same ↦
          let a_is : a ≡ d = (text_iff a d).0 same in
          let c_is : c ≡ b = same_register c b d m t (rw a_is at lc) lb in
          rw (expr_set d a e e_alt m, same, c_is, beq_refl b) refl
      | inr other ↦
          rw (expr_set d a e e_alt m, other, beq_ne (differs b c d a m lb lc other))
            (t.value c a lc)
    ]

    set_unused :
        (b c d : Text) (w : W) (m : Executor)
        → Tracks start now m
        → lookup b m.reg_map ≡ some d
        → lookup c m.reg_map ≡ none
        → write b w now c ≡ start c
    set_unused b c d w m t lb lc = elim (Bool-cases (c == b)) [
      | inl same ↦
          let c_is : c ≡ b = (text_iff c b).0 same in
          let clash : some d ≡ none = sym lb ∙ rw c_is at lc in absurd (cc clash)
      | inr other ↦ rw other (t.unused c lc)
    ]

    set_fresh :
        (b d : Text) (e : Expr) (m : Executor) (k : ℕ)
        → Tracks start now m
        → lookup b m.reg_map ≡ some d
        → m.reg_counter ≤ k
        → lookup (anonymous k) (insert d e m.state) ≡ none
    set_fresh b d e m k t lb le =
        let (i, named, _, lt) = Numbered-lookup 0 _ _ b d t.numbered.0 lb in
        rw
          (
            lookup-insert d (anonymous k) e m.state,
            beq_ne (λ f. too_large i k m.reg_counter (anonymous_inj k i (f ∙ named)) le lt),
          )
          (t.fresh k le)

    pub set_both-Tracks :
        (b d : Text) (e e_alt : Expr) (m : Executor)
        → Tracks start now m
        → lookup b m.reg_map ≡ some d
        → Tracks start (write b (eval e) now) (set_both d e e_alt m)
    unfolding set_both
    set_both-Tracks b d e e_alt m t lb = record {
      numbered = t.numbered;
      value = λ c a l. set_value b c d a e e_alt m t lb l;
      unused = λ c l. set_unused b c d (eval e) m t lb l;
      fresh = λ k le. set_fresh b d e m k t lb le;
    }
