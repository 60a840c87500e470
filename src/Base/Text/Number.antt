-- ===== src/Base/Text/Number.antt =====
-- Python's `int(s, base)`, `str(n)` and `f"{n:x}"`, and that printing and parsing agree.
use Prim.Native.Nat.{ℕ, zero, suc, ◌+◌, ◌-◌, ◌*◌, ◌/◌, ◌%◌, ◌<◌, ◌≤◌}
use mathlib.Core.Path.{◌≡◌, refl, ◌∙◌, subst}
use mathlib.Core.Bool.{false, ◌&&◌}
use mathlib.Core.Logic.{inl, inr, ◌≢◌}
use mathlib.Core.Option.{Option, none, some}
use mathlib.Core.List.{List, [], ◌∷◌, ◌++◌, append_assoc, append-nil}
use native.Mathlib.Omega.{arith}
use native.Mathlib.Nat.{mod-lt, div-add-mod', div-lt_self}
use xkernel.Base.Tests.{ltb, leb, if◌then◌else◌, Bool-cases}
use xkernel.Base.Lists.{All}
use xkernel.Base.Int.{ℤ, pos, negsuc}

-- The digit of a value below 16, in lower case.
unfoldable pub digit : ℕ → ℕ
digit d = if ltb d 10 then 48 + d else 87 + d

unfoldable pub digit_value : ℕ → Option ℕ
digit_value c =
    if leb 48 c && leb c 57
    then some (c - 48)
    else if leb 97 c && leb c 102
    then some (c - 87)
    else if leb 65 c && leb c 70
    then some (c - 55)
    else none

-- The digits of `n`. Each round divides by the base, so `n + 1` rounds are enough.
unfoldable pub show_digits : ℕ → ℕ → ℕ → List ℕ
unfolding digit
show_digits base zero n = []
show_digits base (suc fuel) n =
    let more = show_digits base fuel (n / base) ++ (digit (n % base) ∷ []) in
    if ltb n base then digit n ∷ [] else more

unfoldable pub show_nat : ℕ → ℕ → List ℕ
unfolding show_digits
show_nat base n = show_digits base (suc n) n

-- `str(z)` at base 10 and `f"{z:x}"` at base 16.
unfoldable pub show_int : ℕ → ℤ → List ℕ
show_int base (pos n) = show_nat base n
show_int base (negsuc n) = 45 ∷ show_nat base (suc n)

unfoldable pub parse_digits : ℕ → ℕ → List ℕ → Option ℕ
unfolding digit_value
parse_digits base acc [] = some acc
parse_digits base acc (c ∷ s) = elim (digit_value c) [
  | none ↦ none
  | some d ↦ if ltb d base then parse_digits base (acc * base + d) s else none
]

unfoldable pub parse_nat : ℕ → List ℕ → Option ℕ
unfolding parse_digits
parse_nat base [] = none
parse_nat base (c ∷ s) = parse_digits base 0 (c ∷ s)

-- The characters that `show_nat base` writes.
abbrev pub IsPrinted : ℕ → ℕ → Type 0
IsPrinted base c = (d : ℕ) × (d < base) × (digit d ≡ c)

All-IsPrinted-append :
    (base : ℕ) (s t : List ℕ)
    → All (IsPrinted base) s
    → All (IsPrinted base) t
    → All (IsPrinted base) (s ++ t)
All-IsPrinted-append base [] t hs ht = ht
All-IsPrinted-append base (c ∷ s) t hs ht = (hs.0, All-IsPrinted-append base s t hs.1 ht)

append-ne-nil : (s : List ℕ) (c : ℕ) → s ++ (c ∷ []) ≢ []
append-ne-nil [] c = λ e. cc
append-ne-nil (d ∷ s) c = λ e. cc

parse_nat-eq-parse_digits :
    (base : ℕ) (s : List ℕ) → s ≢ [] → parse_nat base s ≡ parse_digits base 0 s
unfolding parse_nat
parse_nat-eq-parse_digits base [] h = absurd (h refl)
parse_nat-eq-parse_digits base (c ∷ s) h = refl

module _ (base : ℕ) (two : 2 ≤ base) (sixteen : base ≤ 16) where
  digit_value-digit : (d : ℕ) → d < 16 → digit_value (digit d) ≡ some d
  unfolding digit_value digit
  digit_value-digit d h = ground arith

  pub parse_digits-digit :
      (acc d : ℕ) (s : List ℕ)
      → d < base
      → parse_digits base acc (digit d ∷ s) ≡ parse_digits base (acc * base + d) s
  unfolding parse_digits
  parse_digits-digit acc d s h = ground (arith, digit_value-digit d)

  div-lt : (n fuel : ℕ) → ltb n base ≡ false → n < suc fuel → n / base < fuel
  div-lt n fuel more h =
      let pos : zero < n = ground arith in
      omega (arith, div-lt_self {n = n} {k = base} pos (omega arith))

  parse_digits-show_digits :
      (fuel n : ℕ) (s : List ℕ)
      → n < fuel
      → parse_digits base 0 (show_digits base fuel n ++ s) ≡ parse_digits base n s
  unfolding show_digits
  parse_digits-show_digits zero n s h = elim h [ ]
  parse_digits-show_digits (suc fuel) n s h = elim (Bool-cases (ltb n base)) [
    | inl one ↦
        let e : 0 * base + n ≡ n = omega arith in
        rw one (parse_digits-digit 0 n s (ground arith) ∙ rw e)
    | inr more ↦
        rw (more, append_assoc, parse_digits-show_digits fuel (n / base) _ (div-lt n fuel more h))
          (parse_digits-digit (n / base) (n % base) s (mod-lt n (omega arith))
            ∙ rw (div-add-mod' n base))
  ]

  show_digits-ne-nil : (fuel n : ℕ) → show_digits base (suc fuel) n ≢ []
  unfolding show_digits
  show_digits-ne-nil fuel n = elim (Bool-cases (ltb n base)) [
    | inl one ↦ rw one (λ e. cc)
    | inr more ↦ rw more (append-ne-nil (show_digits base fuel (n / base)) (digit (n % base)))
  ]

  pub show_digits-IsPrinted :
      (fuel n : ℕ) → n < fuel → All (IsPrinted base) (show_digits base fuel n)
  unfolding show_digits
  show_digits-IsPrinted zero n h = elim h [ ]
  show_digits-IsPrinted (suc fuel) n h = elim (Bool-cases (ltb n base)) [
    | inl one ↦ rw one ((n, ground arith, refl), tt)
    | inr more ↦ rw more (
        All-IsPrinted-append base _ _ (show_digits-IsPrinted fuel (n / base) (div-lt n fuel more h))
          ((n % base, omega (arith, mod-lt n {m = base} (omega arith)), refl), tt))
  ]

  -- A printed number is read back.
  pub parse_nat-show_nat : (n : ℕ) → parse_nat base (show_nat base n) ≡ some n
  unfolding parse_digits show_nat
  parse_nat-show_nat n =
      parse_nat-eq-parse_digits base _ (show_digits-ne-nil n n)
      ∙ subst (λ s. parse_digits base 0 s ≡ some n) (append-nil (show_digits base (suc n) n))
          (parse_digits-show_digits (suc n) n [] (omega arith))

  pub show_nat-ne-nil : (n : ℕ) → show_nat base n ≢ []
  unfolding show_nat
  show_nat-ne-nil n = show_digits-ne-nil n n

  pub show_nat-IsPrinted : (n : ℕ) → All (IsPrinted base) (show_nat base n)
  unfolding show_nat
  show_nat-IsPrinted n = show_digits-IsPrinted (suc n) n (omega arith)
