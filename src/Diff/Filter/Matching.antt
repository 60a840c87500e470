-- ===== src/Diff/Filter/Matching.antt =====
-- The pairing of removed and added instructions in a diff (src/diff.py).
use xkernel.Base.{ℕ, ◌-◌, ◌≡◌, ◌≢◌, refl, sym, ap, subst, ◌∙◌, arith, Bool, true, false}
use xkernel.Base.{some, List, [], ◌∷◌, if◌then◌else◌, list_eq, contains, All}
use xkernel.Base.{Bool-cases, Option-cases, inl, inr, nat_eq}
use xkernel.Base.Dict.{Dict, get, lookup, insert, lookup-insert}
use xkernel.Base.Text.{Text}
use xkernel.Diff.Filter.{DiffEntry, is_minus, is_plus, entries_from, find_plus, match_lines}
use xkernel.Diff.Filter.{mark_unmatched, mark_matched, line_map_of, filter_address_offset_diff}
use xkernel.Diff.Filter.{map_others}
use xkernel.Diff.Filter.Entries.{lines_with, count_sig, kept_sig, free_sig, Absent, Distinct}
use xkernel.Diff.Filter.Entries.{Disjoint, entries_from-Distinct, entries_from-Disjoint}
use xkernel.Diff.Filter.Entries.{lines_with-count, lines_with-filter, minus-plain, plus-plain}
use xkernel.Diff.Filter.Pairs.{get-insert_ne, get-insert_self, match_lines-none, match_lines-some}
use xkernel.Diff.Filter.Pairs.{match_lines-minus, match_lines-free}

-- A matched line is marked to be dropped.
-- A matched line is marked to be dropped.
module _ (j : ℕ) where
  abbrev Marked : List ℕ × Dict ℕ Bool → Type 0
  Marked (matched, m) = contains matched j ≡ true → lookup j m ≡ some false

  Marked-after :
      (i p : ℕ) (matched : List ℕ) (m : Dict ℕ Bool)
      → i ≢ j
      → Marked (matched, m)
      → Marked (p ∷ matched, insert p false (insert i false m))
  unfolding contains
  Marked-after i p matched m ne h =
      ground (arith, lookup-insert p j false (insert i false m), lookup-insert i j false m)

  match_lines-Marked :
      (minus plus : List DiffEntry) (matched : List ℕ) (m : Dict ℕ Bool)
      → Absent j minus
      → Marked (matched, m)
      → Marked (match_lines minus plus matched m)
  match_lines-Marked [] plus matched m a h = unfold match_lines in h
  match_lines-Marked ((i, s) ∷ minus) plus matched m a h =
      elim (Option-cases (find_plus s matched plus)) [
        | inl none' ↦ subst Marked (sym (match_lines-none i s minus plus matched m none')) (
            match_lines-Marked minus plus matched (insert i true m) a.1
              (λ c. get-insert_ne i j true m a.0 ∙ h c))
        | inr (p, found) ↦ subst Marked (sym (match_lines-some i s minus plus matched m found)) (
            match_lines-Marked minus plus (p ∷ matched) (insert p false (insert i false m)) a.1
              (Marked-after i p matched m a.0 h))
      ]

  mark_unmatched-lookup :
      (plus : List DiffEntry) (matched : List ℕ) (m : Dict ℕ Bool)
      → Absent j plus
      → lookup j (mark_unmatched plus matched m) ≡ lookup j m
  unfolding mark_unmatched
  mark_unmatched-lookup [] matched m a = refl
  mark_unmatched-lookup ((i, s) ∷ plus) matched m a =
      let i-ne : i ≢ j = a.0 in
      elim (Bool-cases (contains matched i)) [
        | inl in' ↦ rw in' (mark_unmatched-lookup plus matched m a.1)
        | inr out ↦ rw out (
            mark_unmatched-lookup plus matched (insert i true m) a.1
            ∙ get-insert_ne i j true m i-ne)
      ]

Marked-insert :
    (i : ℕ) (plus : List DiffEntry) (matched : List ℕ) (m : Dict ℕ Bool)
    → Absent i plus
    → All (λ e. Marked e.0 (matched, m)) plus
    → All (λ e. Marked e.0 (matched, insert i true m)) plus
Marked-insert i [] matched m a h = tt
Marked-insert i ((j, s) ∷ plus) matched m a h = (
  λ c. get-insert_ne i j true m (λ e. a.0 (sym e)) ∙ h.0 c,
  Marked-insert i plus matched m a.1 h.1,
)

-- The unmatched added lines are kept, and no others.
mark_unmatched-plus :
    (plus : List DiffEntry) (matched : List ℕ) (m : Dict ℕ Bool) (t : Text)
    → Distinct plus
    → All (λ e. Marked e.0 (matched, m)) plus
    → kept_sig t (mark_unmatched plus matched m) plus ≡ free_sig t matched plus
unfolding mark_unmatched kept_sig free_sig get
mark_unmatched-plus [] matched m t d h = refl
mark_unmatched-plus ((i, s) ∷ plus) matched m t d h =
    let goal =
      λ (r : Dict ℕ Bool). kept_sig t r ((i, s) ∷ plus) ≡ free_sig t matched ((i, s) ∷ plus) in
    elim (Bool-cases (contains matched i)) [
      | inl in' ↦
          subst goal
            (ap (λ b. mark_unmatched plus matched (if b then m else insert i true m)) (sym in'))
            (ground (
              arith,
              mark_unmatched-lookup i plus matched m d.0,
              h.0 in',
              mark_unmatched-plus plus matched m t d.1 h.1,
            ))
      | inr out ↦
          subst goal
            (ap (λ b. mark_unmatched plus matched (if b then m else insert i true m)) (sym out))
            (ground (
              arith,
              mark_unmatched-lookup i plus matched (insert i true m) d.0,
              get-insert_self i true m,
              mark_unmatched-plus plus matched (insert i true m) t d.1
                  (Marked-insert i plus matched m d.0 h.1),
            ))
    ]

-- The marks of the removed lines do not change.
mark_unmatched-minus :
    (minus plus : List DiffEntry) (matched : List ℕ) (m : Dict ℕ Bool) (t : Text)
    → Disjoint minus plus
    → kept_sig t (mark_unmatched plus matched m) minus ≡ kept_sig t m minus
unfolding kept_sig get
mark_unmatched-minus [] plus matched m t a = refl
mark_unmatched-minus ((i, s) ∷ minus) plus matched m t a =
    rw (mark_unmatched-lookup i plus matched m a.0, mark_unmatched-minus minus plus matched m t a.1)

Disjoint-sym : (minus plus : List DiffEntry) → Disjoint minus plus → Disjoint plus minus
Disjoint-sym minus [] a = tt
Disjoint-sym minus ((j, s) ∷ plus) a = (first minus a, Disjoint-sym minus plus (others minus a))
  where
    first : (minus : List DiffEntry) → Disjoint minus ((j, s) ∷ plus) → Absent j minus
    first [] a = tt
    first (e ∷ minus) a = (λ q. a.0.0 (sym q), first minus a.1)

    others : (minus : List DiffEntry) → Disjoint minus ((j, s) ∷ plus) → Disjoint minus plus
    others [] a = tt
    others (e ∷ minus) a = (a.0.1, others minus a.1)

all-Marked :
    (minus plus plus' : List DiffEntry) (m : Dict ℕ Bool)
    → Disjoint plus minus
    → All (λ e. Marked e.0 (match_lines minus plus' [] m)) plus
all-Marked minus [] plus' m a = tt
all-Marked minus (e ∷ plus) plus' m a = (
  match_lines-Marked e.0 minus plus' [] m a.0 (unfold contains in λ c. cc),
  all-Marked minus plus plus' m a.1,
)

free_sig-nil : (s : Text) (plus : List DiffEntry) → free_sig s [] plus ≡ count_sig s plus
unfolding free_sig count_sig contains
free_sig-nil s [] = refl
free_sig-nil s ((i, t) ∷ plus) = ground (arith, free_sig-nil s plus)

-- The filter keeps, for each signature of an instruction, as many removed lines as there are more
-- removed than added ones, and as many added lines as there are more added than removed ones: each
-- pair of a removed and an added line with one signature is dropped, and no other removed or added
-- line that has a signature.
pub filter_address_offset_diff-counts :
    (s : Text) (lines : List Text)
    → (lines_with is_minus s (filter_address_offset_diff lines)
        ≡ lines_with is_minus s lines - lines_with is_plus s lines)
      × (lines_with is_plus s (filter_address_offset_diff lines)
          ≡ lines_with is_plus s lines - lines_with is_minus s lines)
unfolding filter_address_offset_diff line_map_of mark_matched
filter_address_offset_diff-counts s lines =
    let minus = entries_from is_minus 0 lines in
    let plus = entries_from is_plus 0 lines in
    let m = map_others 0 lines [] in
    let r = match_lines minus plus [] m in
    let apart = entries_from-Disjoint 0 lines in
    let dm = entries_from-Distinct is_minus 0 lines in
    let dp = entries_from-Distinct is_plus 0 lines in
    let fm = lines_with-filter is_minus minus-plain s (mark_unmatched plus r.0 r.1) 0 lines in
    let fp = lines_with-filter is_plus plus-plain s (mark_unmatched plus r.0 r.1) 0 lines in
    let km = mark_unmatched-minus minus plus r.0 r.1 s apart in
    let kp =
      mark_unmatched-plus plus r.0 r.1 s dp
        (all-Marked minus plus plus m (Disjoint-sym minus plus apart)) in
    let mm = match_lines-minus minus plus [] m s dm dp apart in
    let mf = match_lines-free minus plus [] m s dp in
    let cm = lines_with-count is_minus s 0 lines in
    let cp = lines_with-count is_plus s 0 lines in
    let nil = free_sig-nil s plus in
    (omega (arith, fm, km, mm, cm, cp, nil), omega (arith, fp, kp, mf, cm, cp, nil))
