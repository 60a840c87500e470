-- ===== src/Diff/LineSet.antt =====
-- The lines that the option `--lines` names (src/diff.py): `parse_lines_argument`.
use xkernel.Base.{ℕ, zero, suc, ◌+◌, ◌-◌, ◌≤◌, ◌<◌, ◌≡◌, refl, ◌∙◌, arith, Bool, true, false}
use xkernel.Base.{◌&&◌, ◌||◌, Option, none, some, List, [], ◌∷◌, if◌then◌else◌, ◌=ℕ◌, nat_eq}
use xkernel.Base.{contains, ltb, leb, All, Bool-cases, inl, inr}
use xkernel.Base.Int.{ℤ, pos, negsuc}
use xkernel.Base.Text.{Text, strip, split, parse_int}

-- No minus sign stands in what is read, so that no number is below zero.
unfoldable pub natural : Option ℤ → Option ℕ
natural none = none
natural (some (pos n)) = some n
natural (some (negsuc n)) = none

unfoldable pub in_order : Option ℕ → Option ℕ → Option (ℕ × ℕ)
in_order (some start) (some end) = if ltb end start then some (end, start) else some (start, end)
in_order _ _ = none

-- `start, end = part.split("-")` wants two pieces.
unfoldable pub bounds_of : List Text → Option (ℕ × ℕ)
bounds_of (a ∷ b ∷ []) = in_order (natural (parse_int 10 a)) (natural (parse_int 10 b))
bounds_of _ = none

unfoldable pub single : Option ℕ → Option (ℕ × ℕ)
single none = none
single (some n) = some (n, n)

-- The first and the last line of a part; what cannot be read is left out.
unfoldable pub part_bounds : Text → Option (ℕ × ℕ)
part_bounds part =
    let s = strip part in
    if contains s b'-' then bounds_of (split b'-' s) else single (natural (parse_int 10 s))

-- A set of lines in order.
unfoldable pub insert_line : ℕ → List ℕ → List ℕ
insert_line n [] = n ∷ []
insert_line n (m ∷ ms) =
    if ltb n m then n ∷ m ∷ ms else if n =ℕ m then m ∷ ms else m ∷ insert_line n ms

unfoldable pub add_range : ℕ → ℕ → List ℕ → List ℕ
add_range start zero lines = lines
add_range start (suc count) lines = insert_line start (add_range (suc start) count lines)

unfoldable pub add_part : Option (ℕ × ℕ) → List ℕ → List ℕ
add_part none lines = lines
add_part (some (start, end)) lines = add_range start (suc end - start) lines

unfoldable pub add_parts : List Text → List ℕ → List ℕ
add_parts [] lines = lines
add_parts (part ∷ parts) lines = add_parts parts (add_part (part_bounds part) lines)

unfoldable pub parse_lines_argument : Text → List ℕ
parse_lines_argument lines_str = add_parts (split b',' lines_str) []

unfoldable pub within : Option (ℕ × ℕ) → ℕ → Bool
within none n = false
within (some (start, end)) n = leb start n && leb n end

-- Whether the line `n` lies between two numbers, the smaller of which may be either one.
unfoldable pub between : Option ℤ → Option ℤ → ℕ → Bool
between (some (pos x)) (some (pos y)) n = (leb x n && leb n y) || (leb y n && leb n x)
between _ _ n = false

unfoldable pub is_number : Option ℤ → ℕ → Bool
is_number (some (pos x)) n = x =ℕ n
is_number _ n = false

unfoldable pub between_pieces : List Text → ℕ → Bool
between_pieces (a ∷ b ∷ []) n = between (parse_int 10 a) (parse_int 10 b) n
between_pieces _ n = false

-- Whether a part names a line: two numbers with a dash between them, or one number.
unfoldable pub names_in_part : Text → ℕ → Bool
names_in_part s n =
    if contains s b'-' then between_pieces (split b'-' s) n else is_number (parse_int 10 s) n

unfoldable pub names_line : List Text → ℕ → Bool
names_line [] n = false
names_line (part ∷ parts) n = names_in_part (strip part) n || names_line parts n

within-between :
    (a b : Option ℤ) (n : ℕ) → within (in_order (natural a) (natural b)) n ≡ between a b n
unfolding within in_order natural between
within-between none b n = refl
within-between (some (negsuc x)) b n = refl
within-between (some (pos x)) none n = refl
within-between (some (pos x)) (some (negsuc y)) n = refl
within-between (some (pos x)) (some (pos y)) n = ground arith

within-single : (a : Option ℤ) (n : ℕ) → within (single (natural a)) n ≡ is_number a n
unfolding within single natural is_number
within-single none n = refl
within-single (some (negsuc x)) n = refl
within-single (some (pos x)) n = ground arith

within-pieces : (l : List Text) (n : ℕ) → within (bounds_of l) n ≡ between_pieces l n
unfolding bounds_of between_pieces
within-pieces [] n = unfold within in refl
within-pieces (a ∷ []) n = unfold within in refl
within-pieces (a ∷ b ∷ []) n = within-between (parse_int 10 a) (parse_int 10 b) n
within-pieces (a ∷ b ∷ c ∷ l) n = unfold within in refl

within-part_bounds :
    (part : Text) (n : ℕ) → within (part_bounds part) n ≡ names_in_part (strip part) n
unfolding part_bounds names_in_part
within-part_bounds part n = elim (Bool-cases (contains (strip part) b'-')) [
  | inl dash ↦ rw dash (within-pieces (split b'-' (strip part)) n)
  | inr no_dash ↦ rw no_dash (within-single (parse_int 10 (strip part)) n)
]

abbrev pub IsSorted : List ℕ → Type 0
IsSorted [] = Unit
IsSorted (n ∷ ns) = All (λ m. n < m) ns × IsSorted ns

insert_line-contains :
    (k n : ℕ) (ms : List ℕ) → contains (insert_line n ms) k ≡ ((n =ℕ k) || contains ms k)
unfolding insert_line contains
insert_line-contains k n [] = ground arith
insert_line-contains k n (m ∷ ms) = ground (arith, insert_line-contains k n ms)

add_range-contains :
    (k start count : ℕ) (lines : List ℕ)
    → contains (add_range start count lines) k
      ≡ ((leb start k && ltb k (start + count)) || contains lines k)
unfolding add_range
add_range-contains k start zero lines = ground arith
add_range-contains k start (suc count) lines = ground (
  arith,
  insert_line-contains k start (add_range (suc start) count lines),
  add_range-contains k (suc start) count lines,
)

in_order-le : (a b : Option ℕ) (s e : ℕ) → in_order a b ≡ some (s, e) → s ≤ e
unfolding in_order
in_order-le none b s e h = cc
in_order-le (some a) none s e h = cc
in_order-le (some a) (some b) s e h = ground arith

part_bounds-le : (part : Text) (s e : ℕ) → part_bounds part ≡ some (s, e) → s ≤ e
unfolding part_bounds
part_bounds-le part s e h = by_test (contains (strip part) b'-') h
  where
    two : (pieces : List Text) → bounds_of pieces ≡ some (s, e) → s ≤ e
    two [] h = unfold bounds_of in cc h
    two (a ∷ []) h = unfold bounds_of in cc h
    two (a ∷ b ∷ []) h =
        in_order-le (natural (parse_int 10 a)) (natural (parse_int 10 b)) s e
          (unfold bounds_of in h)
    two (a ∷ b ∷ c ∷ r) h = unfold bounds_of in cc h

    one : (o : Option ℕ) → single o ≡ some (s, e) → s ≤ e
    one none h = unfold single in cc h
    one (some n) h = unfold single in ground arith

    by_test :
        (b : Bool)
        → (if b
            then bounds_of (split b'-' (strip part))
            else single (natural (parse_int 10 (strip part))))
          ≡ some (s, e)
        → s ≤ e
    by_test true h = two _ h
    by_test false h = one _ h

add_part-contains :
    (k : ℕ) (o : Option (ℕ × ℕ)) (lines : List ℕ)
    → ((s e : ℕ) → o ≡ some (s, e) → s ≤ e)
    → contains (add_part o lines) k ≡ (within o k || contains lines k)
unfolding add_part within
add_part-contains k none lines h = refl
add_part-contains k (some (s, e)) lines h =
    ground (arith, add_range-contains k s (suc e - s) lines, h s e refl)

add_parts-contains :
    (k : ℕ) (parts : List Text) (lines : List ℕ)
    → contains (add_parts parts lines) k ≡ (names_line parts k || contains lines k)
unfolding add_parts names_line
add_parts-contains k [] lines = refl
add_parts-contains k (part ∷ parts) lines = ground (
  arith,
  add_parts-contains k parts (add_part (part_bounds part) lines),
  add_part-contains k (part_bounds part) lines (part_bounds-le part),
  within-part_bounds part k,
)

All-less : (n m : ℕ) (ms : List ℕ) → n < m → All (λ k. m < k) ms → All (λ k. n < k) ms
All-less n m [] h k = tt
All-less n m (x ∷ ms) h k = (omega (arith, k.0), All-less n m ms h k.1)

insert_line-All :
    (n m : ℕ) (ms : List ℕ) → n < m → All (λ k. n < k) ms → All (λ k. n < k) (insert_line m ms)
unfolding insert_line
insert_line-All n m [] h k = (h, tt)
insert_line-All n m (x ∷ ms) h k = ground (arith, insert_line-All n m ms h k.1)

insert_line-IsSorted : (n : ℕ) (ms : List ℕ) → IsSorted ms → IsSorted (insert_line n ms)
unfolding insert_line
insert_line-IsSorted n [] h = (tt, tt)
insert_line-IsSorted n (m ∷ ms) h =
    let ih = insert_line-IsSorted n ms h.1 in
    ground
      (arith, λ (q : n < m). All-less n m ms q h.0, λ (q : m < n). insert_line-All m n ms q h.0)

add_range-IsSorted :
    (start count : ℕ) (lines : List ℕ) → IsSorted lines → IsSorted (add_range start count lines)
unfolding add_range
add_range-IsSorted start zero lines h = h
add_range-IsSorted start (suc count) lines h =
    insert_line-IsSorted start _ (add_range-IsSorted (suc start) count lines h)

add_parts-IsSorted :
    (parts : List Text) (lines : List ℕ) → IsSorted lines → IsSorted (add_parts parts lines)
unfolding add_parts
add_parts-IsSorted [] lines h = h
add_parts-IsSorted (part ∷ parts) lines h =
    add_parts-IsSorted parts _ (added (part_bounds part) lines h)
  where
    added : (o : Option (ℕ × ℕ)) (lines : List ℕ) → IsSorted lines → IsSorted (add_part o lines)
    added none lines h = unfold add_part in h
    added (some (s, e)) lines h = unfold add_part in add_range-IsSorted s (suc e - s) lines h

or_false : (b : Bool) → (b || false) ≡ b
or_false true = refl
or_false false = refl

-- The lines of the option are in order, each once, and they are those that one of its parts names:
-- a part with one dash between two numbers names the lines from the smaller to the larger of them,
-- whichever comes first, a number names itself, and any other part names none.
pub parse_lines_argument_lem :
    (s : Text)
    → IsSorted (parse_lines_argument s)
      × ((n : ℕ) → contains (parse_lines_argument s) n ≡ names_line (split b',' s) n)
unfolding parse_lines_argument contains
parse_lines_argument_lem s = (
  add_parts-IsSorted (split b',' s) [] tt,
  λ n. add_parts-contains n (split b',' s) [] ∙ or_false (names_line (split b',' s) n),
)
