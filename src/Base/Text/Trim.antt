-- ===== src/Base/Text/Trim.antt =====
-- Stripped text has nothing more to strip.
use Prim.Native.Nat.{ℕ}
use mathlib.Core.Path.{◌≡◌, refl, ◌∙◌, ap}
use mathlib.Core.Logic.{inl, inr}
use mathlib.Core.Bool.{true, false}
use mathlib.Core.List.{[], ◌∷◌}
use xkernel.Base.Tests.{Bool-cases}
use xkernel.Base.Text.{Text, is_space, lstrip, before, rstrip, strip}

before_space : (c : ℕ) → is_space c ≡ true → before c [] ≡ []
unfolding before
before_space c h = rw h

before_solid : (c : ℕ) → is_space c ≡ false → before c [] ≡ c ∷ []
unfolding before
before_solid c h = rw h

lstrip_solid : (c : ℕ) (s : Text) → is_space c ≡ false → lstrip (c ∷ s) ≡ c ∷ s
unfolding lstrip
lstrip_solid c s h = rw h

lstrip-before : (c : ℕ) (s : Text) → is_space c ≡ false → lstrip (before c s) ≡ before c s
lstrip-before c [] h = rw (before_solid c h) (lstrip_solid c [] h)
lstrip-before c (d ∷ s) h = unfold before in lstrip_solid c (d ∷ s) h

lstrip-rstrip-lstrip : (s : Text) → lstrip (rstrip (lstrip s)) ≡ rstrip (lstrip s)
unfolding lstrip rstrip
lstrip-rstrip-lstrip [] = refl
lstrip-rstrip-lstrip (c ∷ s) = elim (Bool-cases (is_space c)) [
  | inl space ↦ rw space (lstrip-rstrip-lstrip s)
  | inr solid ↦ rw solid (lstrip-before c (rstrip s) solid)
]

rstrip-before : (c : ℕ) (s : Text) → rstrip s ≡ s → rstrip (before c s) ≡ before c s
unfolding rstrip
rstrip-before c [] h = elim (Bool-cases (is_space c)) [
  | inl space ↦ rw (before_space c space) refl
  | inr solid ↦ rw (before_solid c solid) (before_solid c solid)
]
rstrip-before c (d ∷ s) h = unfold before in ap (before c) h

rstrip-rstrip : (s : Text) → rstrip (rstrip s) ≡ rstrip s
unfolding rstrip
rstrip-rstrip [] = refl
rstrip-rstrip (c ∷ s) = rstrip-before c (rstrip s) (rstrip-rstrip s)

pub strip-strip : (s : Text) → strip (strip s) ≡ strip s
unfolding strip
strip-strip s = ap rstrip (lstrip-rstrip-lstrip s) ∙ rstrip-rstrip (lstrip s)
