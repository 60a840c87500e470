-- ===== src/Diff/Filter/Pairs.antt =====
-- What the matching of removed and added lines leaves free (src/diff.py).
use xkernel.Base.{ℕ, ◌+◌, ◌-◌, ◌≡◌, ◌≢◌, refl, sym, subst, ◌∙◌, arith, Bool, true, false, not}
use xkernel.Base.{◌&&◌, none, some, List, [], ◌∷◌, if◌then◌else◌, ◌==◌, list_eq, contains}
use xkernel.Base.{Bool-cases, Option-cases, inl, inr, nat_eq, beq_ne}
use xkernel.Base.Dict.{Dict, get, lookup, insert, lookup-insert}
use xkernel.Base.Text.{Text, text_iff}
use xkernel.Diff.Filter.{DiffEntry, find_plus, match_lines}
use xkernel.Diff.Filter.Entries.{count_sig, kept_sig, free_sig, Absent, Distinct, Disjoint}

pub get-insert_ne :
    (i j : ℕ) (b : Bool) (m : Dict ℕ Bool) → i ≢ j → lookup j (insert i b m) ≡ lookup j m
get-insert_ne i j b m ne = ground (arith, lookup-insert i j b m)

pub get-insert_self : (i : ℕ) (b : Bool) (m : Dict ℕ Bool) → lookup i (insert i b m) ≡ some b
get-insert_self i b m = ground (arith, lookup-insert i i b m)

-- What `find_plus` finds stands among the entries.
find_plus-ne :
    (s : Text) (matched : List ℕ) (plus : List DiffEntry) (j p : ℕ)
    → Absent j plus
    → find_plus s matched plus ≡ some p
    → p ≢ j
unfolding find_plus
find_plus-ne s matched [] j p a h = cc
find_plus-ne s matched ((i, t) ∷ plus) j p a h =
    elim (Bool-cases (not (contains matched i) && s == t)) [
      | inl found ↦ let h' = rw found at h in λ e. a.0 (cc)
      | inr other ↦ find_plus-ne s matched plus j p a.1 (rw other at h)
    ]

free_sig-none :
    (s : Text) (matched : List ℕ) (plus : List DiffEntry)
    → find_plus s matched plus ≡ none
    → free_sig s matched plus ≡ 0
unfolding find_plus free_sig
free_sig-none s matched [] h = refl
free_sig-none s matched ((i, t) ∷ plus) h = ground (arith, free_sig-none s matched plus)

free_sig-Absent :
    (s : Text) (p : ℕ) (matched : List ℕ) (plus : List DiffEntry)
    → Absent p plus
    → free_sig s (p ∷ matched) plus ≡ free_sig s matched plus
unfolding free_sig contains
free_sig-Absent s p matched [] a = refl
free_sig-Absent s p matched ((i, t) ∷ plus) a =
    rw (beq_ne {a = i} {b = p} a.0, free_sig-Absent s p matched plus a.1)

-- Taking the line that was found uses up one free line of its signature.
free_sig-found :
    (s : Text) (matched : List ℕ) (plus : List DiffEntry) (p : ℕ) (t : Text)
    → Distinct plus
    → find_plus s matched plus ≡ some p
    → free_sig t matched plus ≡ (if t == s then 1 else 0) + free_sig t (p ∷ matched) plus
unfolding find_plus free_sig contains
free_sig-found s matched [] p t d h = cc
free_sig-found s matched ((i, u) ∷ plus) p t d h =
    elim (Bool-cases (not (contains matched i) && s == u)) [
      | inl found ↦
          let h' = rw found at h in
          let same : i ≡ p = cc in
          ground
            (arith, text_iff s u, text_iff t s, text_iff t u, free_sig-Absent t i matched plus d.0)
      | inr other ↦
          let h' = rw other at h in
          let ne = find_plus-ne s matched plus i p d.0 h' in
          ground (arith, free_sig-found s matched plus p t d.1 h')
    ]

contains_self : (p : ℕ) (matched : List ℕ) → contains (p ∷ matched) p ≡ true
unfolding contains
contains_self p matched = ground arith

module _ (i : ℕ) (s : Text) (minus plus : List DiffEntry) (matched : List ℕ) (m : Dict ℕ Bool) where
  pub match_lines-none :
      find_plus s matched plus ≡ none
      → match_lines ((i, s) ∷ minus) plus matched m
        ≡ match_lines minus plus matched (insert i true m)
  unfolding match_lines
  match_lines-none h = rw (h, match_lines) refl

  pub match_lines-some :
      {p : ℕ}
      → find_plus s matched plus ≡ some p
      → match_lines ((i, s) ∷ minus) plus matched m
        ≡ match_lines minus plus (p ∷ matched) (insert p false (insert i false m))
  unfolding match_lines
  match_lines-some h = rw (h, match_lines) refl

-- The index of a removed line that is treated keeps its mark.
match_lines-lookup :
    (minus plus : List DiffEntry) (matched : List ℕ) (m : Dict ℕ Bool) (j : ℕ)
    → Absent j minus
    → Absent j plus
    → lookup j (match_lines minus plus matched m).1 ≡ lookup j m
match_lines-lookup [] plus matched m j a b = unfold match_lines in refl
match_lines-lookup ((i, s) ∷ minus) plus matched m j a b =
    elim (Option-cases (find_plus s matched plus)) [
      | inl none' ↦
          rw (match_lines-none i s minus plus matched m none')
            (match_lines-lookup minus plus matched _ j a.1 b ∙ get-insert_ne i j true m a.0)
      | inr (p, found) ↦ rw (match_lines-some i s minus plus matched m found) (
          match_lines-lookup minus plus (p ∷ matched) _ j a.1 b
          ∙ get-insert_ne p j false _ (find_plus-ne s matched plus j p b found)
          ∙ get-insert_ne i j false m a.0)
    ]

-- Of the removed lines with a signature, those beyond the free added ones are kept.
pub match_lines-minus :
    (minus plus : List DiffEntry) (matched : List ℕ) (m : Dict ℕ Bool) (t : Text)
    → Distinct minus
    → Distinct plus
    → Disjoint minus plus
    → kept_sig t (match_lines minus plus matched m).1 minus
      ≡ count_sig t minus - free_sig t matched plus
unfolding kept_sig count_sig get
match_lines-minus [] plus matched m t d e a = omega arith
match_lines-minus ((i, s) ∷ minus) plus matched m t d e a =
    let goal = λ (r : List ℕ × Dict ℕ Bool).
      kept_sig t r.1 ((i, s) ∷ minus) ≡ count_sig t ((i, s) ∷ minus) - free_sig t matched plus in
    elim (Option-cases (find_plus s matched plus)) [
      | inl none' ↦ subst goal (sym (match_lines-none i s minus plus matched m none')) (
          ground (
            arith,
            text_iff t s,
            free_sig-none s matched plus none',
            match_lines-lookup minus plus matched (insert i true m) i d.0 a.0,
            get-insert_self i true m,
            match_lines-minus minus plus matched (insert i true m) t d.1 e a.1,
          ))
      | inr (p, found) ↦
          let m' = insert p false (insert i false m) in
          subst goal (sym (match_lines-some i s minus plus matched m found)) (
            ground (
              arith,
              text_iff t s,
              free_sig-found s matched plus p t e found,
              match_lines-lookup minus plus (p ∷ matched) m' i d.0 a.0,
              get-insert_ne p i false (insert i false m)
                  (find_plus-ne s matched plus i p a.0 found),
              get-insert_self i false m,
              match_lines-minus minus plus (p ∷ matched) m' t d.1 e a.1,
            ))
    ]

-- What is matched afterwards.
pub match_lines-free :
    (minus plus : List DiffEntry) (matched : List ℕ) (m : Dict ℕ Bool) (t : Text)
    → Distinct plus
    → free_sig t (match_lines minus plus matched m).0 plus
      ≡ free_sig t matched plus - count_sig t minus
unfolding count_sig
match_lines-free [] plus matched m t e = unfold match_lines in omega arith
match_lines-free ((i, s) ∷ minus) plus matched m t e =
    elim (Option-cases (find_plus s matched plus)) [
      | inl none' ↦ rw (match_lines-none i s minus plus matched m none') (
          ground (
            arith,
            text_iff t s,
            free_sig-none s matched plus none',
            match_lines-free minus plus matched (insert i true m) t e,
          ))
      | inr (p, found) ↦ rw (match_lines-some i s minus plus matched m found) (
          ground (
            arith,
            text_iff t s,
            free_sig-found s matched plus p t e found,
            match_lines-free minus plus (p ∷ matched) (insert p false (insert i false m)) t e,
          ))
    ]
