-- ===== src/Diff/Filter/Entries.antt =====
-- The entries of a diff by side and signature (src/diff.py): their indices, and how many there are.
use xkernel.Base.{ℕ, suc, ◌≤◌, ◌≡◌, ◌≢◌, refl, arith, Bool, true, false, not, ◌&&◌, Option, none}
use xkernel.Base.{some, List, [], ◌∷◌, if◌then◌else◌, ◌==◌, list_eq, contains, All, nat_eq}
use xkernel.Base.{Bool-cases, Option-cases, inl, inr}
use xkernel.Base.Dict.{Dict, get}
use xkernel.Base.Text.{Text, text, starts_with}
use xkernel.Diff.Signature.{normalize_instruction_for_comparison}
use xkernel.Diff.Filter.{DiffEntry, is_minus, is_plus, add_diff_entry, entries_from, filter_from}

-- Whether the signature is the one in question.
unfoldable pub signed : Text → Option Text → Bool
signed s none = false
signed s (some t) = s == t

-- How many lines of one side have a signature.
unfoldable pub lines_with : (Text → Bool) → Text → List Text → ℕ
lines_with side s [] = 0
lines_with side s (line ∷ lines) =
    let rest = lines_with side s lines in
    if side line && signed s (normalize_instruction_for_comparison line) then suc rest else rest

unfoldable pub count_sig : Text → List DiffEntry → ℕ
count_sig s [] = 0
count_sig s ((i, t) ∷ es) = if s == t then suc (count_sig s es) else count_sig s es

unfoldable pub kept_sig : Text → Dict ℕ Bool → List DiffEntry → ℕ
kept_sig s m [] = 0
kept_sig s m ((i, t) ∷ es) =
    if s == t && get i true m then suc (kept_sig s m es) else kept_sig s m es

unfoldable pub free_sig : Text → List ℕ → List DiffEntry → ℕ
free_sig s matched [] = 0
free_sig s matched ((i, t) ∷ es) =
    if s == t && not (contains matched i)
    then suc (free_sig s matched es)
    else free_sig s matched es

abbrev pub Absent : ℕ → List DiffEntry → Type 0
Absent j = All (λ e. e.0 ≢ j)

abbrev pub Distinct : List DiffEntry → Type 0
Distinct [] = Unit
Distinct ((i, _) ∷ es) = Absent i es × Distinct es

abbrev pub Disjoint : List DiffEntry → List DiffEntry → Type 0
Disjoint minus plus = All (λ e. Absent e.0 plus) minus

abbrev Above : ℕ → List DiffEntry → Type 0
Above i = All (λ e. i ≤ e.0)

Above-weaken : (i : ℕ) (es : List DiffEntry) → Above (suc i) es → Above i es
Above-weaken i [] h = tt
Above-weaken i (e ∷ es) h = (omega (arith, h.0), Above-weaken i es h.1)

Absent-Above : (i : ℕ) (es : List DiffEntry) → Above (suc i) es → Absent i es
Absent-Above i [] h = tt
Absent-Above i (e ∷ es) h = (λ q. omega (arith, h.0), Absent-Above i es h.1)

module _ (side : Text → Bool) where
  entries_from-Above : (i : ℕ) (lines : List Text) → Above i (entries_from side i lines)
  unfolding entries_from add_diff_entry
  entries_from-Above i [] = tt
  entries_from-Above i (line ∷ lines) =
      let ih = Above-weaken i _ (entries_from-Above (suc i) lines) in
      elim (Bool-cases (side line)) [
        | inl on ↦ elim (Option-cases (normalize_instruction_for_comparison line)) [
          | inl none' ↦ rw (on, none') ih
          | inr (s, some') ↦ rw (on, some') (omega arith, ih)
        ]
        | inr off ↦ rw off ih
      ]

  pub entries_from-Distinct : (i : ℕ) (lines : List Text) → Distinct (entries_from side i lines)
  unfolding entries_from add_diff_entry
  entries_from-Distinct i [] = tt
  entries_from-Distinct i (line ∷ lines) =
      let ih = entries_from-Distinct (suc i) lines in
      elim (Bool-cases (side line)) [
        | inl on ↦ elim (Option-cases (normalize_instruction_for_comparison line)) [
          | inl none' ↦ rw (on, none') ih
          | inr (s, some') ↦
              rw (on, some') (Absent-Above i _ (entries_from-Above (suc i) lines), ih)
        ]
        | inr off ↦ rw off ih
      ]

  pub lines_with-count :
      (s : Text) (i : ℕ) (lines : List Text)
      → lines_with side s lines ≡ count_sig s (entries_from side i lines)
  unfolding lines_with count_sig entries_from add_diff_entry signed
  lines_with-count s i [] = refl
  lines_with-count s i (line ∷ lines) = ground (arith, lines_with-count s (suc i) lines)

  -- The filter keeps the lines of a side by the map alone.
  pub lines_with-filter :
      ((line : Text) → side line ≡ true → starts_with line (text "@@") ≡ false)
      → (s : Text) (m : Dict ℕ Bool) (i : ℕ) (lines : List Text)
      → lines_with side s (filter_from m i lines) ≡ kept_sig s m (entries_from side i lines)
  unfolding lines_with kept_sig entries_from add_diff_entry signed filter_from
  lines_with-filter plain s m i [] = refl
  lines_with-filter plain s m i (line ∷ lines) =
      ground (arith, lines_with-filter plain s m (suc i) lines, plain line)

-- A line of one side is neither of the other side nor the head of a hunk.
pub minus-plain : (line : Text) → is_minus line ≡ true → starts_with line (text "@@") ≡ false
unfolding is_minus starts_with text
minus-plain [] h = cc
minus-plain (c ∷ s) h = ground arith

pub plus-plain : (line : Text) → is_plus line ≡ true → starts_with line (text "@@") ≡ false
unfolding is_plus starts_with text
plus-plain [] h = cc
plus-plain (c ∷ s) h = ground arith

minus-not-plus : (line : Text) → is_minus line ≡ true → is_plus line ≡ false
unfolding is_plus is_minus starts_with text
minus-not-plus [] h = cc
minus-not-plus (c ∷ s) h = ground arith

Disjoint-cons :
    (i : ℕ) (s : Text) (minus plus : List DiffEntry)
    → Above (suc i) minus
    → Disjoint minus plus
    → Disjoint minus ((i, s) ∷ plus)
Disjoint-cons i s [] plus a h = tt
Disjoint-cons i s (e ∷ minus) plus a h =
    ((λ q. omega (arith, a.0), h.0), Disjoint-cons i s minus plus a.1 h.1)

pub entries_from-Disjoint :
    (i : ℕ) (lines : List Text)
    → Disjoint (entries_from is_minus i lines) (entries_from is_plus i lines)
unfolding entries_from add_diff_entry
entries_from-Disjoint i [] = tt
entries_from-Disjoint i (line ∷ lines) =
    let ih = entries_from-Disjoint (suc i) lines in
    let above = entries_from-Above is_minus (suc i) lines in
    let above' = entries_from-Above is_plus (suc i) lines in
    elim (Bool-cases (is_minus line)) [
      | inl on ↦ elim (Option-cases (normalize_instruction_for_comparison line)) [
        | inl none' ↦ rw (on, minus-not-plus line on, none') ih
        | inr (s, some') ↦ rw (on, minus-not-plus line on, some') (Absent-Above i _ above', ih)
      ]
      | inr off ↦ elim (Bool-cases (is_plus line)) [
        | inl on ↦ elim (Option-cases (normalize_instruction_for_comparison line)) [
          | inl none' ↦ rw (off, on, none') ih
          | inr (s, some') ↦ rw (off, on, some') (Disjoint-cons i s _ _ above ih)
        ]
        | inr off' ↦ rw (off, off') ih
      ]
    ]
