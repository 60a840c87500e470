-- ===== src/Analysis/Ranges.antt =====
-- `find_changed_ranges` (src/codegen.py): the indices of changed instructions as ranges.
use xkernel.Base.{ℕ, zero, suc, ◌+◌, ◌-◌, ◌≤◌, ◌≡◌, ◌≢◌, refl, sym, ap, ◌∙◌, arith, List, [], ◌∷◌}
use xkernel.Base.{◌++◌, append_assoc, ◌=ℕ◌, if◌then◌else◌, Bool-cases, inl, inr, =ℕ_iff}

-- The loop: the range so far, and the indices that follow.
unfoldable pub ranges_loop : ℕ → ℕ → List ℕ → List (ℕ × ℕ)
ranges_loop start_idx end_idx [] = (start_idx, end_idx) ∷ []
ranges_loop start_idx end_idx (current_idx ∷ indices) =
    let contiguous = ranges_loop start_idx current_idx indices in
    let after_gap = ranges_loop current_idx current_idx indices in
    if current_idx =ℕ suc end_idx then contiguous else (start_idx, end_idx) ∷ after_gap

unfoldable pub find_changed_ranges : List ℕ → List (ℕ × ℕ)
find_changed_ranges [] = []
find_changed_ranges (i ∷ indices) = ranges_loop i i indices

-- The numbers of a range, and of ranges one after the other.
unfoldable pub count : ℕ → ℕ → List ℕ
count s zero = []
count s (suc n) = s ∷ count (suc s) n

unfoldable pub expand : List (ℕ × ℕ) → List ℕ
expand [] = []
expand ((s, e) ∷ ranges) = count s (suc e - s) ++ expand ranges

-- Every range but the first begins elsewhere than right after the range before it.
abbrev pub After : ℕ → List (ℕ × ℕ) → Type 0
After end_idx [] = Unit
After end_idx ((s, e) ∷ ranges) = (s ≢ suc end_idx) × After e ranges

abbrev pub IsSeparated : List (ℕ × ℕ) → Type 0
IsSeparated [] = Unit
IsSeparated ((s, e) ∷ ranges) = After e ranges

count-suc : (s n : ℕ) → count s (suc n) ≡ count s n ++ ((s + n) ∷ [])
unfolding count
count-suc s zero = ap (λ k. k ∷ []) (omega arith)
count-suc s (suc n) =
    let e : suc s + n ≡ s + suc n = omega arith in
    ap (λ r. s ∷ r) (count-suc (suc s) n ∙ ap (λ k. count (suc s) n ++ (k ∷ [])) e)

count-extend : (s e : ℕ) → s ≤ e → count s (suc (suc e) - s) ≡ count s (suc e - s) ++ (suc e ∷ [])
count-extend s e le =
    let more : suc (suc e) - s ≡ suc (suc e - s) = omega arith in
    let last : s + (suc e - s) ≡ suc e = omega arith in
    ap (count s) more ∙ count-suc s (suc e - s) ∙ ap (λ k. count s (suc e - s) ++ (k ∷ [])) last

count_one : (i : ℕ) → count i (suc i - i) ≡ i ∷ []
unfolding count
count_one i = let e : suc i - i ≡ 1 = omega arith in rw e refl

expand-ranges_loop :
    (s e : ℕ) (is : List ℕ) → s ≤ e → expand (ranges_loop s e is) ≡ count s (suc e - s) ++ is
unfolding expand ranges_loop
expand-ranges_loop s e [] le = refl
expand-ranges_loop s e (i ∷ is) le = elim (Bool-cases (i =ℕ suc e)) [
  | inl next ↦
      let i_is : i ≡ suc e = (=ℕ_iff i (suc e)).0 next in
      let le' : s ≤ i = omega arith in
      let extended : count s (suc i - s) ≡ count s (suc e - s) ++ (i ∷ []) =
        rw i_is (count-extend s e le) in
      rw next (
        expand-ranges_loop s i is le'
        ∙ ap (λ r. r ++ is) extended
        ∙ append_assoc (count s (suc e - s)) (i ∷ []) is)
  | inr gap ↦ rw gap (
      ap (λ r. count s (suc e - s) ++ r)
        (expand-ranges_loop i i is (omega arith) ∙ ap (λ r. r ++ is) (count_one i)))
]

-- The first range of the loop ends at `e` or later; what comes before it ends elsewhere.
ranges_loop-After :
    (before s e : ℕ) (is : List ℕ) → s ≢ suc before → After before (ranges_loop s e is)
unfolding ranges_loop
ranges_loop-After before s e [] ne = (ne, tt)
ranges_loop-After before s e (i ∷ is) ne = elim (Bool-cases (i =ℕ suc e)) [
  | inl next ↦ rw next (ranges_loop-After before s i is ne)
  | inr gap ↦
      let apart : i ≢ suc e = λ f. absurd (cc (sym gap ∙ (=ℕ_iff i (suc e)).1 f)) in
      rw gap (ne, ranges_loop-After e i i is apart)
]

ranges_loop-IsSeparated : (s e : ℕ) (is : List ℕ) → IsSeparated (ranges_loop s e is)
unfolding ranges_loop
ranges_loop-IsSeparated s e [] = tt
ranges_loop-IsSeparated s e (i ∷ is) = elim (Bool-cases (i =ℕ suc e)) [
  | inl next ↦ rw next (ranges_loop-IsSeparated s i is)
  | inr gap ↦
      let apart : i ≢ suc e = λ f. absurd (cc (sym gap ∙ (=ℕ_iff i (suc e)).1 f)) in
      rw gap (ranges_loop-After e i i is apart)
]

-- The ranges hold exactly the indices, in their order, and no two that follow each other could be
-- joined.
pub find_changed_ranges_lem :
    (indices : List ℕ)
    → (expand (find_changed_ranges indices) ≡ indices) × IsSeparated (find_changed_ranges indices)
unfolding find_changed_ranges expand
find_changed_ranges_lem [] = (refl, tt)
find_changed_ranges_lem (i ∷ is) = (
  expand-ranges_loop i i is (omega arith) ∙ ap (λ r. r ++ is) (count_one i),
  ranges_loop-IsSeparated i i is,
)
