-- ===== src/Base/Text/Laws.antt =====
-- Printed numbers survive `strip`, `isdigit` and `int`.
use Prim.Native.Nat.{ℕ, suc, ◌+◌, ◌-◌, ◌*◌, ◌≤◌}
use mathlib.Core.Path.{◌≡◌, refl, ◌∙◌}
use mathlib.Core.Logic.{◌≢◌, inl, inr}
use mathlib.Core.Bool.{false, true}
use mathlib.Core.Option.{some}
use mathlib.Core.List.{[], ◌∷◌}
use native.Mathlib.Omega.{arith}
use xkernel.Base.Tests.{Bool-cases}
use xkernel.Base.Lists.{All}
use xkernel.Base.Int.{ℤ, pos, negsuc}
use xkernel.Base.Text.{Text, is_space, is_digit, all, isdigit, lstrip, before, rstrip, strip}
use xkernel.Base.Text.{show_int, show_nat, parse_int, parse_signed, skip_prefix, map_option}
use xkernel.Base.Text.{parse_nat, digit}
use xkernel.Base.Text.Number.{parse_digits, parse_digits-digit, IsPrinted, parse_nat-show_nat}
use xkernel.Base.Text.Number.{show_nat-ne-nil, show_nat-IsPrinted}

abbrev pub IsSolid : Text → Type 0
IsSolid s = All (λ c. is_space c ≡ false) s

lstrip_solid : (s : Text) → IsSolid s → lstrip s ≡ s
unfolding lstrip
lstrip_solid [] h = refl
lstrip_solid (c ∷ s) h = rw h.0

before_solid : (c : ℕ) (s : Text) → is_space c ≡ false → before c s ≡ c ∷ s
unfolding before
before_solid c [] h = rw h
before_solid c (d ∷ s) h = refl

rstrip_solid : (s : Text) → IsSolid s → rstrip s ≡ s
unfolding rstrip
rstrip_solid [] h = refl
rstrip_solid (c ∷ s) h = rw (rstrip_solid s h.1) (before_solid c s h.0)

-- Text without spaces is its own `strip`.
pub strip_solid : (s : Text) → IsSolid s → strip s ≡ s
unfolding strip
strip_solid s h = rw (lstrip_solid s h) (rstrip_solid s h)

module _ (base : ℕ) (sixteen : base ≤ 16) where
  IsPrinted-solid : (c : ℕ) → IsPrinted base c → is_space c ≡ false
  unfolding is_space digit
  IsPrinted-solid c (d, lt, e) = ground arith

  pub printed-IsSolid : (s : Text) → All (IsPrinted base) s → IsSolid s
  printed-IsSolid [] h = tt
  printed-IsSolid (c ∷ s) h = (IsPrinted-solid c h.0, printed-IsSolid s h.1)

  skip_prefix_printed : (s : Text) → All (IsPrinted base) s → skip_prefix base s ≡ s
  unfolding skip_prefix digit
  skip_prefix_printed [] h = refl
  skip_prefix_printed (c ∷ []) h = refl
  skip_prefix_printed (c ∷ d ∷ s) (_, ((v, lt, e), h)) = ground arith

  -- A printed natural number has no sign.
  parse_signed_printed :
      (s : Text)
      → s ≢ []
      → All (IsPrinted base) s
      → parse_signed base s ≡ map_option pos (parse_nat base s)
  unfolding parse_signed digit
  parse_signed_printed [] ne h = absurd (ne refl)
  parse_signed_printed (c ∷ s) ne ((d, lt, e), h) =
      rw (skip_prefix_printed (c ∷ s) ((d, lt, e), h)) (ground arith)

module _ (base : ℕ) (two : 2 ≤ base) (sixteen : base ≤ 16) where
  show_int-IsSolid : (z : ℤ) → IsSolid (show_int base z)
  unfolding show_int is_space
  show_int-IsSolid (pos n) = printed-IsSolid base sixteen _ (show_nat-IsPrinted base two sixteen n)
  show_int-IsSolid (negsuc n) =
      (refl, printed-IsSolid base sixteen _ (show_nat-IsPrinted base two sixteen (suc n)))

  parse_signed-show_int : (z : ℤ) → parse_signed base (show_int base z) ≡ some z
  unfolding show_int map_option
  parse_signed-show_int (pos n) = rw (
    parse_signed_printed base sixteen _ (show_nat-ne-nil base two sixteen n)
        (show_nat-IsPrinted base two sixteen n),
    parse_nat-show_nat base two sixteen n,
  )
  parse_signed-show_int (negsuc n) =
      unfold parse_signed in
      rw
        (
          skip_prefix_printed base sixteen _ (show_nat-IsPrinted base two sixteen (suc n)),
          parse_nat-show_nat base two sixteen (suc n),
        )
        (ground arith)

  -- `int(str(z)) == z` at base 10, and `int(f"{z:x}", 16) == z` at base 16.
  pub parse_int-show_int : (z : ℤ) → parse_int base (show_int base z) ≡ some z
  unfolding parse_int
  parse_int-show_int z = rw (strip_solid _ (show_int-IsSolid z)) (parse_signed-show_int z)

all-is_digit : (s : Text) → All (IsPrinted 10) s → all is_digit s ≡ true
unfolding all is_digit digit
all-is_digit [] h = refl
all-is_digit (c ∷ s) ((d, lt, e), h) = ground (arith, all-is_digit s h)

isdigit_nonempty : (s : Text) → s ≢ [] → isdigit s ≡ all is_digit s
unfolding isdigit
isdigit_nonempty [] h = absurd (h refl)
isdigit_nonempty (c ∷ s) h = refl

-- `str(n).isdigit()`
pub isdigit-show_nat : (n : ℕ) → isdigit (show_nat 10 n) ≡ true
isdigit-show_nat n =
    rw (isdigit_nonempty _ (show_nat-ne-nil 10 (omega arith) (omega arith) n))
      (all-is_digit _ (show_nat-IsPrinted 10 (omega arith) (omega arith) n))

digit-of_is_digit : (c : ℕ) → is_digit c ≡ true → IsPrinted 10 c
unfolding is_digit digit
digit-of_is_digit c h = (c - 48, ground arith, ground arith)

IsPrinted-of_all : (s : Text) → all is_digit s ≡ true → All (IsPrinted 10) s
unfolding all
IsPrinted-of_all [] h = tt
IsPrinted-of_all (c ∷ s) h = elim (Bool-cases (is_digit c)) [
  | inl yes' ↦ (digit-of_is_digit c yes', IsPrinted-of_all s (rw yes' at h))
  | inr no' ↦ cc (rw no' at h)
]

parse_digits_printed :
    (acc : ℕ) (s : Text) → All (IsPrinted 10) s → (n : ℕ) × (parse_digits 10 acc s ≡ some n)
unfolding parse_digits
parse_digits_printed acc [] h = (acc, refl)
parse_digits_printed acc (c ∷ s) ((d, lt, e), h) =
    let (n, rest) = parse_digits_printed (acc * 10 + d) s h in
    (n, rw (← e) (parse_digits-digit 10 (omega arith) (omega arith) acc d s lt ∙ rest))

-- Text that passes `isdigit` is read by `int` as a number of zero or more.
pub parse_int-isdigit : (s : Text) → isdigit s ≡ true → (n : ℕ) × (parse_int 10 s ≡ some (pos n))
unfolding isdigit parse_int parse_nat map_option
parse_int-isdigit [] h = cc
parse_int-isdigit (c ∷ s) h =
    let printed = IsPrinted-of_all (c ∷ s) h in
    let (n, read) = parse_digits_printed 0 (c ∷ s) printed in
    (
      n,
      rw
          (
            strip_solid (c ∷ s) (printed-IsSolid 10 (omega arith) (c ∷ s) printed),
            parse_signed_printed 10 (omega arith) (c ∷ s) (λ e. cc) printed,
            read,
          )
          refl,
    )
