-- ===== src/Analysis/Compare.antt =====
-- `compare_expressions` (src/codegen.py): where the symbolic states of two builds differ.
use xkernel.Base.{ℕ, zero, suc, ◌+◌, ◌≡◌, refl, ap, ◌∙◌, arith, Bool, true, false, not, ◌&&◌}
use xkernel.Base.{List, [], ◌∷◌, Option, some, none, if◌then◌else◌, ◌<◌, ◌=ℕ◌, ◌==◌, list_eq}
use xkernel.Base.{nat_eq, length, get_elem?, contains}
use xkernel.Base.Dict.{Dict, lookup}
use xkernel.Base.Text.{Text}
use xkernel.Analysis.Ranges.{find_changed_ranges, expand, find_changed_ranges_lem}

-- A step of a run: the instruction's text, and the expressions of the registers after it.
pub record Step : Type 0 where
  pub instruction : Text
  pub expressions : Dict Text Text

-- The index, the two instructions and the two dictionaries of a difference.
pub record Difference : Type 0 where
  pub index : ℕ
  pub inst1 : Option Text
  pub inst2 : Option Text
  pub expr1 : Dict Text Text
  pub expr2 : Dict Text Text

-- Equality of dictionaries without double keys.
unfoldable pub has_entry : Option Text → Text → Bool
has_entry none v = false
has_entry (some w) v = w == v

unfoldable pub entries_in : Dict Text Text → Dict Text Text → Bool
entries_in d [] = true
entries_in d ((k, v) ∷ rest) = has_entry (lookup k d) v && entries_in d rest

unfoldable pub dict_eq : Dict Text Text → Dict Text Text → Bool
dict_eq d e = length d =ℕ length e && entries_in e d

unfoldable pub add_difference : ℕ → Step → Step → List Difference → List Difference
add_difference i a b rest =
    if dict_eq a.expressions b.expressions
    then rest
    else record {
      index = i;
      inst1 = some a.instruction;
      inst2 = some b.instruction;
      expr1 = a.expressions;
      expr2 = b.expressions;
    }
      ∷ rest

unfoldable pub compare_from : ℕ → List Step → List Step → List Difference
compare_from i [] [] = []
compare_from i [] (b ∷ seq2) =
    record {
      index = i;
      inst1 = none;
      inst2 = some b.instruction;
      expr1 = [];
      expr2 = b.expressions;
    }
    ∷ compare_from (suc i) [] seq2
compare_from i (a ∷ seq1) [] =
    record {
      index = i;
      inst1 = some a.instruction;
      inst2 = none;
      expr1 = a.expressions;
      expr2 = [];
    }
    ∷ compare_from (suc i) seq1 []
compare_from i (a ∷ seq1) (b ∷ seq2) = add_difference i a b (compare_from (suc i) seq1 seq2)

unfoldable pub compare_expressions : List Step → List Step → List Difference
compare_expressions seq1 seq2 = compare_from 0 seq1 seq2

-- The states at a step are there in one run only, or are not equal.
unfoldable pub differ : Option Step → Option Step → Bool
differ none none = false
differ (some a) (some b) = not (dict_eq a.expressions b.expressions)
differ _ _ = true

abbrev pub indices_of : List Difference → List ℕ
indices_of [] = []
indices_of (d ∷ ds) = d.index ∷ indices_of ds

indices_of-add_difference :
    (i : ℕ) (a b : Step) (rest : List Difference)
    → indices_of (add_difference i a b rest)
      ≡ (if dict_eq a.expressions b.expressions then indices_of rest else i ∷ indices_of rest)
unfolding add_difference
indices_of-add_difference i a b rest = by_test (dict_eq a.expressions b.expressions)
  where
    by_test :
        (t : Bool)
        → indices_of (
            if t
            then rest
            else record {
              index = i;
              inst1 = some a.instruction;
              inst2 = some b.instruction;
              expr1 = a.expressions;
              expr2 = b.expressions;
            }
              ∷ rest)
          ≡ (if t then indices_of rest else i ∷ indices_of rest)
    by_test true = refl
    by_test false = refl

module _ (i : ℕ) (l : List ℕ) where
  contains-here : (t : Bool) → contains l i ≡ false → contains (if t then l else i ∷ l) i ≡ not t
  unfolding contains
  contains-here true h = h
  contains-here false h = ground arith

  contains-later :
      (t : Bool) (n : ℕ) → contains (if t then l else i ∷ l) (i + suc n) ≡ contains l (suc i + n)
  unfolding contains
  contains-later true n = ap (contains l) (omega arith)
  contains-later false n =
      let apart : (i + suc n =ℕ i) ≡ false = ground arith in
      rw apart (ap (contains l) (omega arith))

  contains-below :
      (t : Bool) (m : ℕ)
      → m < i
      → contains l m ≡ false
      → contains (if t then l else i ∷ l) m ≡ false
  unfolding contains
  contains-below true m h k = k
  contains-below false m h k = let apart : (m =ℕ i) ≡ false = ground arith in rw apart k

-- No index is below the one that the comparison starts from.
compare_from-below :
    (i m : ℕ) (seq1 seq2 : List Step)
    → m < i
    → contains (indices_of (compare_from i seq1 seq2)) m ≡ false
unfolding compare_from
compare_from-below i m [] [] h = unfold contains in refl
compare_from-below i m [] (b ∷ seq2) h =
    contains-below i _ false m h (compare_from-below (suc i) m [] seq2 (omega (arith, h)))
compare_from-below i m (a ∷ seq1) [] h =
    contains-below i _ false m h (compare_from-below (suc i) m seq1 [] (omega (arith, h)))
compare_from-below i m (a ∷ seq1) (b ∷ seq2) h =
    ap (λ l. contains l m) (indices_of-add_difference i a b _)
    ∙ contains-below i _ _ m h (compare_from-below (suc i) m seq1 seq2 (omega (arith, h)))

-- The indices_of from `i` on are those of the steps that differ.
compare_from-differ :
    (i n : ℕ) (seq1 seq2 : List Step)
    → contains (indices_of (compare_from i seq1 seq2)) (i + n)
      ≡ differ (get_elem? seq1 n) (get_elem? seq2 n)
unfolding compare_from differ
compare_from-differ i n [] [] = unfold contains in refl
compare_from-differ i zero [] (b ∷ seq2) =
    ap (contains _) (omega arith)
    ∙ contains-here i _ false (compare_from-below (suc i) i [] seq2 (omega arith))
compare_from-differ i (suc n) [] (b ∷ seq2) =
    contains-later i _ false n ∙ compare_from-differ (suc i) n [] seq2
compare_from-differ i zero (a ∷ seq1) [] =
    ap (contains _) (omega arith)
    ∙ contains-here i _ false (compare_from-below (suc i) i seq1 [] (omega arith))
compare_from-differ i (suc n) (a ∷ seq1) [] =
    contains-later i _ false n ∙ compare_from-differ (suc i) n seq1 []
compare_from-differ i zero (a ∷ seq1) (b ∷ seq2) =
    ap (contains _) (omega arith)
    ∙ ap (λ l. contains l i) (indices_of-add_difference i a b _)
    ∙ contains-here i _ _ (compare_from-below (suc i) i seq1 seq2 (omega arith))
compare_from-differ i (suc n) (a ∷ seq1) (b ∷ seq2) =
    ap (λ l. contains l (i + suc n)) (indices_of-add_difference i a b _)
    ∙ contains-later i _ _ n
    ∙ compare_from-differ (suc i) n seq1 seq2

-- The ranges of the differences of two runs hold exactly the steps whose states are not the same in
-- both: a step that only one run has, or one after which the dictionaries of the registers differ.
pub compare_expressions-differ :
    (seq1 seq2 : List Step) (n : ℕ)
    → contains (expand (find_changed_ranges (indices_of (compare_expressions seq1 seq2)))) n
      ≡ differ (get_elem? seq1 n) (get_elem? seq2 n)
unfolding compare_expressions
compare_expressions-differ seq1 seq2 n =
    ap (λ l. contains l n) (find_changed_ranges_lem (indices_of (compare_expressions seq1 seq2))).0
    ∙ ap (contains _) (omega arith)
    ∙ compare_from-differ 0 n seq1 seq2
