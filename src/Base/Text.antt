-- ===== src/Base/Text.antt =====
-- Text as a list of code points, with the parts of Python's `str` and `int` that the program uses
-- on ASCII text: literals, decimal and hexadecimal numbers, `strip`, `split`, `join`.
pub mod Number
pub mod Laws
pub mod Trim
unfoldable pub use Number.{show_int, show_nat, digit, parse_nat}
use Prim.Native.Nat.{ℕ, zero, suc, ◌+◌, ◌-◌, ◌*◌}
use Prim.Native.Char.{code}
use Prim.Native.String.{String}
use mathlib.Core.Bool.{Bool, true, false, ◌&&◌, ◌||◌, not}
use mathlib.Core.Option.{Option, none, some}
use mathlib.Core.List.{List, [], ◌∷◌, ◌++◌}
use xkernel.Base.Int.{ℤ, pos, negsuc, sub_ℕ}
use mathlib.Core.Path.{◌≡◌}
use mathlib.Core.Logic.{◌↔◌}
use xkernel.Base.Tests.{◌==◌, nat_eq, list_eq, list_beq_iff, ltb, leb, ◌=ℕ◌, if◌then◌else◌}
use Prim.Native.String

abbrev pub Text : Type 0
Text = List ℕ

pub text_iff : (s t : Text) → ((s == t) ≡ true) ↔ (s ≡ t)
text_iff = list_beq_iff

-- A literal of the source.
unfoldable pub text : String → Text
text String.[] = []
text (String.◌∷◌ c s) = code c ∷ text s

unfoldable pub is_space : ℕ → Bool
is_space c = c =ℕ 32 || (leb 9 c && leb c 13) || (leb 28 c && leb c 31)

unfoldable pub is_digit : ℕ → Bool
is_digit c = leb 48 c && leb c 57

unfoldable pub all : (ℕ → Bool) → Text → Bool
all p [] = true
all p (c ∷ s) = if p c then all p s else false

-- Digits that are no decimal digits, which `int` refuses: superscripts, subscripts, numbers in
-- circles, in parentheses and before a full stop, and the digits of some scripts.
unfoldable pub is_other_digit : ℕ → Bool
is_other_digit c =
    (c =ℕ 0xb2)
    || (c =ℕ 0xb3)
    || (c =ℕ 0xb9)
    || (leb 0x1369 c && leb c 0x1371)
    || (c =ℕ 0x19da)
    || (c =ℕ 0x2070)
    || (leb 0x2074 c && leb c 0x2079)
    || (leb 0x2080 c && leb c 0x2089)
    || (leb 0x2460 c && leb c 0x2468)
    || (leb 0x2474 c && leb c 0x247c)
    || (leb 0x2488 c && leb c 0x2490)
    || (c =ℕ 0x24ea)
    || (leb 0x24f5 c && leb c 0x24fd)
    || (c =ℕ 0x24ff)
    || (leb 0x2776 c && leb c 0x277e)
    || (leb 0x2780 c && leb c 0x2788)
    || (leb 0x278a c && leb c 0x2792)
    || (leb 0x10a40 c && leb c 0x10a43)
    || (leb 0x10e60 c && leb c 0x10e68)
    || (leb 0x11052 c && leb c 0x1105a)
    || (leb 0x1f100 c && leb c 0x1f10a)

unfoldable pub counts_as_digit : ℕ → Bool
counts_as_digit c = is_digit c || is_other_digit c

-- `str.isdigit`, but for the decimal digits that are not ASCII
unfoldable pub str_isdigit : Text → Bool
str_isdigit [] = false
str_isdigit (c ∷ s) = all counts_as_digit (c ∷ s)

-- A text of ASCII digits.
unfoldable pub isdigit : Text → Bool
unfolding all is_digit
isdigit [] = false
isdigit (c ∷ s) = all is_digit (c ∷ s)

unfoldable pub lstrip : Text → Text
unfolding is_space
lstrip [] = []
lstrip (c ∷ s) = if is_space c then lstrip s else c ∷ s

-- A character before text that has lost its trailing spaces.
unfoldable pub before : ℕ → Text → Text
before c [] = if is_space c then [] else c ∷ []
before c (d ∷ s) = c ∷ d ∷ s

unfoldable pub rstrip : Text → Text
unfolding before is_space
rstrip [] = []
rstrip (c ∷ s) = before c (rstrip s)

unfoldable pub strip : Text → Text
strip s = rstrip (lstrip s)

unfoldable pub starts_with : Text → Text → Bool
starts_with s [] = true
starts_with [] (p ∷ ps) = false
starts_with (c ∷ s) (p ∷ ps) = if c =ℕ p then starts_with s ps else false

-- The first piece of a split, and the others.
unfoldable pub split_onto : ℕ → Text → Text × List Text
split_onto sep [] = ([], [])
split_onto sep (c ∷ s) =
    let (piece, pieces) = split_onto sep s in
    if c =ℕ sep then ([], piece ∷ pieces) else (c ∷ piece, pieces)

-- `s.split(sep)` for a one-character separator: never empty.
unfoldable pub split : ℕ → Text → List Text
unfolding split_onto
split sep s = let (piece, pieces) = split_onto sep s in piece ∷ pieces

-- `sep.join(pieces)`
unfoldable pub join : Text → List Text → Text
join sep [] = []
join sep (p ∷ []) = p
join sep (p ∷ q ∷ ps) = p ++ (sep ++ join sep (q ∷ ps))

unfoldable pub map_option {ℓ κ} : {A : Type ℓ} {B : Type κ} → (A → B) → Option A → Option B
map_option f none = none
map_option f (some a) = some (f a)

-- `int(s, 16)` reads an optional `0x`.
unfoldable pub skip_prefix : ℕ → Text → Text
skip_prefix base s = elim s [
  | [] ↦ []
  | c ∷ r ↦ elim r [
    | [] ↦ c ∷ []
    | d ∷ t ↦ if base =ℕ 16 && c =ℕ b'0' && (d =ℕ b'x' || d =ℕ b'X') then t else c ∷ d ∷ t
  ]
]

-- An optional sign. What follows it is a number below zero after `-`.
unfoldable pub parse_signed : ℕ → Text → Option ℤ
parse_signed base [] = none
parse_signed base (c ∷ s) =
    if c =ℕ b'-'
    then map_option (λ n. sub_ℕ 0 n) (parse_nat base (skip_prefix base s))
    else if c =ℕ b'+'
    then map_option pos (parse_nat base (skip_prefix base s))
    else map_option pos (parse_nat base (skip_prefix base (c ∷ s)))

-- Python's `int(s, base)` on ASCII text; `none` is its `ValueError`. (An underscore between digits,
-- which Python also takes, is refused here: neither objdump nor the tables write one.)
unfoldable pub parse_int : ℕ → Text → Option ℤ
parse_int base s = parse_signed base (strip s)

-- `c.lower()` and `s.lower()`
unfoldable pub lower_char : ℕ → ℕ
lower_char c = if leb b'A' c && leb c b'Z' then c + 32 else c

unfoldable pub lower : Text → Text
lower [] = []
lower (c ∷ s) = lower_char c ∷ lower s

-- `s.lstrip(c)`
unfoldable pub lstrip_char : ℕ → Text → Text
lstrip_char c [] = []
lstrip_char c (d ∷ s) = if d =ℕ c then lstrip_char c s else d ∷ s
