-- ===== src/Tables/Scope/Fresh.antt =====
-- `next_const_id` gives a number that no row of the scope table has.
use xkernel.Base.{ℕ, suc, ◌≤◌, ◌<◌, ◌≡◌, refl, ◌∙◌, ◌≢◌, ap, true, false, List, [], ◌∷◌, some}
use xkernel.Base.{arith, max, ok, All, inl, inr, Bool-cases}
use xkernel.Base.Int.{ℤ, pos, ◌+ℤ◌, max_ℤ, int_laws}
use xkernel.Base.Text.{Text, isdigit, str_isdigit, all, is_digit, is_other_digit, counts_as_digit}
use xkernel.Base.Text.{parse_int, show_int, show_nat}
use xkernel.Base.Text.Laws.{parse_int-show_int, parse_int-isdigit, isdigit-show_nat}
use xkernel.Tables.{Row, File, init_table, scope_table_header}
use xkernel.Tables.Scope.{skip_header, max_id, next_const_id}

-- The row is not the row of ConstID `n`.
abbrev pub Avoids : ℕ → Row → Type 0
Avoids n [] = Unit
Avoids n (cell ∷ cells) = cell ≢ show_nat 10 n

max_pos : (m n : ℕ) → max_ℤ (pos m) (pos n) ≡ pos (max m n)
unfolding max_ℤ
max_pos m n = ground arith

-- A cell that reads as another number is not the printed one.
read_ne : (cell : Text) (k n : ℕ) → parse_int 10 cell ≡ some (pos k) → k ≢ n → cell ≢ show_nat 10 n
unfolding show_int
read_ne cell k n read ne same =
    let own = parse_int-show_int 10 (omega arith) (omega arith) (pos n) in
    ground (arith, own, ap (parse_int 10) same)

no_digits : (cell : Text) (n : ℕ) → isdigit cell ≡ false → cell ≢ show_nat 10 n
no_digits cell n other same = ground (arith, ap isdigit same, isdigit-show_nat n)

max_id-number :
    (cell : Text) (cells : List Text) (rows : List Row) (m k : ℕ)
    → str_isdigit cell ≡ true
    → parse_int 10 cell ≡ some (pos k)
    → max_id ((cell ∷ cells) ∷ rows) (pos m) ≡ max_id rows (pos (max m k))
unfolding max_id
max_id-number cell cells rows m k number read = rw (number, max_id) (rw (read, max_id) (rw max_pos))

max_id-other :
    (cell : Text) (cells : List Text) (rows : List Row) (m : ℤ)
    → str_isdigit cell ≡ false
    → max_id ((cell ∷ cells) ∷ rows) m ≡ max_id rows m
unfolding max_id
max_id-other cell cells rows m other = rw (other, max_id)

max_id-blank : (rows : List Row) (m : ℤ) → max_id ([] ∷ rows) m ≡ max_id rows m
unfolding max_id
max_id-blank rows m = refl

ascii_digit : (c : ℕ) → c < 128 → counts_as_digit c ≡ is_digit c
unfolding counts_as_digit is_other_digit is_digit
ascii_digit c h = ground arith

all_ascii : (s : Text) → All (λ c. c < 128) s → all counts_as_digit s ≡ all is_digit s
unfolding all
all_ascii [] h = refl
all_ascii (c ∷ s) h = rw (ascii_digit c h.0, all_ascii s h.1) refl

str_isdigit-ascii : (s : Text) → All (λ c. c < 128) s → str_isdigit s ≡ isdigit s
unfolding str_isdigit isdigit
str_isdigit-ascii [] h = refl
str_isdigit-ascii (c ∷ s) h = all_ascii (c ∷ s) h

-- The first cell of a row is ASCII text.
abbrev pub BeginsAscii : Row → Type 0
BeginsAscii [] = Unit
BeginsAscii (cell ∷ cells) = All (λ c. c < 128) cell

-- The loop returns a number of at least its start, and later numbers than it are in no row.
max_id_lem :
    (rows : List Row) (m : ℕ)
    → All BeginsAscii rows
    → (k : ℕ) × (max_id rows (pos m) ≡ ok (pos k))
      × (m ≤ k)
      × ((n : ℕ) → suc k ≤ n → All (Avoids n) rows)
max_id_lem [] m ascii = unfold max_id in (m, refl, omega arith, λ n h. tt)
max_id_lem ([] ∷ rows) m ascii =
    let (k, e, le, avoids) = max_id_lem rows m ascii.1 in
    (k, max_id-blank rows (pos m) ∙ e, le, λ n h. (tt, avoids n h))
max_id_lem ((cell ∷ cells) ∷ rows) m ascii = elim (Bool-cases (isdigit cell)) [
  | inl number ↦
      let (j, read) = parse_int-isdigit cell number in
      let (k, e, le, avoids) = max_id_lem rows (max m j) ascii.1 in
      (
        k,
        max_id-number cell cells rows m j (str_isdigit-ascii cell ascii.0 ∙ number) read ∙ e,
        omega arith,
        λ n h. (read_ne cell j n read (omega arith), avoids n h),
      )
  | inr other ↦
      let (k, e, le, avoids) = max_id_lem rows m ascii.1 in
      (
        k,
        max_id-other cell cells rows (pos m) (str_isdigit-ascii cell ascii.0 ∙ other) ∙ e,
        le,
        λ n h. (no_digits cell n other, avoids n h),
      )
]

-- Where the first cell of each row below the header is ASCII text, `next_const_id` returns, with a
-- positive number, and no such row has it as ConstID.
pub next_const_id_fresh :
    (f : File)
    → All BeginsAscii (skip_header (init_table scope_table_header f))
    → (n : ℕ) × (next_const_id f ≡ ok (pos n, init_table scope_table_header f))
      × (1 ≤ n)
      × All (Avoids n) (skip_header (init_table scope_table_header f))
unfolding next_const_id
next_const_id_fresh f ascii =
    let (k, e, le, avoids) = max_id_lem (skip_header (init_table scope_table_header f)) 0 ascii in
    let one : pos k +ℤ pos 1 ≡ pos (suc k) = omega int_laws in
    (suc k, rw (e, one) refl, omega arith, avoids (suc k) (omega arith))
