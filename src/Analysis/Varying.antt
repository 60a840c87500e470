-- ===== src/Analysis/Varying.antt =====
-- The constant that varies over three expressions (src/codegen.py, extract_varying_constant).
pub mod Laws
use xkernel.Base.{ℕ, zero, suc, ◌+◌, ◌-◌, Bool, true, false, not, ◌&&◌, ◌||◌, List, [], ◌∷◌}
use xkernel.Base.{Option, some, none, if◌then◌else◌, leb, ◌=ℕ◌, ◌==◌, list_eq, nat_eq, length}
use xkernel.Base.{drop}
use xkernel.Base.Int.{ℤ, pos}
use xkernel.Base.Text.{Text, text, is_digit, starts_with, strip, parse_int, parse_nat}

-- `try_parse_pure`
unfoldable pub pure_base : Text → ℕ
pure_base s = if starts_with s (text "0x") || starts_with s (text "0X") then 16 else 10

unfoldable pub try_parse_pure : Text → Option ℤ
try_parse_pure e = parse_int (pure_base (strip e)) (strip e)

abbrev pub Triple : Type 0
Triple = ℤ × ℤ × ℤ

unfoldable pub all_three : Option ℤ → Option ℤ → Option ℤ → Option Triple
all_three (some c1) (some c2) (some c3) = some (c1, c2, c3)
all_three _ _ _ = none

unfoldable pub pure_constants : Text → Text → Text → Option Triple
pure_constants e1 e2 e3 = all_three (try_parse_pure e1) (try_parse_pure e2) (try_parse_pure e3)

-- The pattern `0x[0-9a-fA-F]+|\b\d+\b`, whose first branch that matches is taken.
unfoldable pub is_hex : ℕ → Bool
is_hex c = is_digit c || (leb b'a' c && leb c b'f') || (leb b'A' c && leb c b'F')

unfoldable pub is_word : ℕ → Bool
is_word c = is_digit c || (leb b'a' c && leb c b'z') || (leb b'A' c && leb c b'Z') || c =ℕ b'_'

unfoldable pub take_while : (ℕ → Bool) → Text → Text
take_while p [] = []
take_while p (c ∷ s) = if p c then c ∷ take_while p s else []

unfoldable pub starts_word : Text → Bool
starts_word [] = false
starts_word (c ∷ s) = is_word c

-- The characters of a match but the first, and its number.
unfoldable pub sized : ℕ → Option ℕ → Option (ℕ × ℕ)
sized more none = none
sized more (some n) = some (more, n)

unfoldable pub hex_number : Text → Option (ℕ × ℕ)
hex_number [] = none
hex_number (d ∷ digits) = sized (2 + length digits) (parse_nat 16 (d ∷ digits))

unfoldable pub decimal_number : Bool → Text → Option (ℕ × ℕ)
decimal_number at_edge [] = none
decimal_number at_edge (d ∷ digits) =
    if at_edge then sized (length digits) (parse_nat 10 (d ∷ digits)) else none

unfoldable pub or_number : Option (ℕ × ℕ) → Option (ℕ × ℕ) → Option (ℕ × ℕ)
or_number none m = m
or_number (some n) m = some n

unfoldable pub number_at : Bool → Text → Option (ℕ × ℕ)
number_at after_word s =
    let digits = take_while is_digit s in
    let at_edge = not after_word && not (starts_word (drop (length digits) s)) in
    or_number
      (if starts_with s (text "0x") then hex_number (take_while is_hex (drop 2 s)) else none)
      (decimal_number at_edge digits)

-- An expression is cut into its numbers and its other characters. `skip` characters belong to the
-- number before.
pub data Piece : Type 0 where
  letter : ℕ → Piece
  number : ℕ → Piece

unfoldable pub piece_of : ℕ → Option (ℕ × ℕ) → Piece
piece_of c none = letter c
piece_of c (some (more, n)) = number n

unfoldable pub skip_of : Option (ℕ × ℕ) → ℕ
skip_of none = 0
skip_of (some (more, n)) = more

unfoldable pub pieces : ℕ → Bool → Text → List Piece
pieces skip after_word [] = []
pieces (suc skip) after_word (c ∷ s) = pieces skip (is_word c) s
pieces zero after_word (c ∷ s) =
    let m = number_at after_word (c ∷ s) in piece_of c m ∷ pieces (skip_of m) (is_word c) s

unfoldable pub numbers : List Piece → List ℕ
numbers [] = []
numbers (letter c ∷ ps) = numbers ps
numbers (number n ∷ ps) = n ∷ numbers ps

unfoldable pub template : List Piece → Text
template [] = []
template (letter c ∷ ps) = c ∷ template ps
template (number n ∷ ps) = b'N' ∷ template ps

unfoldable pub extract_nums : Text → List ℕ
extract_nums e = numbers (pieces 0 false e)

unfoldable pub normalize : Text → Text
normalize e = template (pieces 0 false e)

-- The positions where the numbers are not all equal, and the only one.
unfoldable pub varying : List ℕ → List ℕ → List ℕ → List (ℕ × ℕ × ℕ)
varying (a ∷ n1) (b ∷ n2) (c ∷ n3) =
    let rest = varying n1 n2 n3 in if a =ℕ b && b =ℕ c then rest else (a, b, c) ∷ rest
varying _ _ _ = []

unfoldable pub only : List (ℕ × ℕ × ℕ) → Option Triple
only ((a, b, c) ∷ []) = some (pos a, pos b, pos c)
only _ = none

unfoldable pub same_length : List ℕ → List ℕ → List ℕ → Bool
same_length n1 n2 n3 = length n1 =ℕ length n2 && length n1 =ℕ length n3

unfoldable pub structured_constant : Text → Text → Text → Option Triple
structured_constant e1 e2 e3 =
    if normalize e1 == normalize e2 && normalize e1 == normalize e3
    then (if same_length (extract_nums e1) (extract_nums e2) (extract_nums e3)
        then only (varying (extract_nums e1) (extract_nums e2) (extract_nums e3))
        else none)
    else none

unfoldable pub or_triple : Option Triple → Option Triple → Option Triple
or_triple none t = t
or_triple (some t) u = some t

unfoldable pub extract_varying_constant : Text → Text → Text → Option Triple
extract_varying_constant e1 e2 e3 =
    or_triple (pure_constants e1 e2 e3) (structured_constant e1 e2 e3)
