-- ===== src/Tables/Scope/Removal.antt =====
-- `remove_constid_entries` takes out one ConstID's rows and no others.
use xkernel.Base.{◌≡◌, refl, not, List, [], ◌∷◌, some, none, arith, keep, ◌==◌, list_eq, nat_eq}
use xkernel.Base.{if◌then◌else◌}
use xkernel.Base.Text.{Text, text_iff}
use xkernel.Tables.{Row, File, Tables, body}
use xkernel.Tables.Scope.{has_id, remove_rows, remove_constid_entries}

-- The rows of a ConstID below the header.
abbrev pub rows_of : Text → File → List Row
rows_of id f = keep (has_id id) (body f)

keep-has_id :
    (id other : Text) (rows : List Row)
    → keep (has_id other) (keep (λ row. not (has_id id row)) rows)
      ≡ (if other == id then [] else keep (has_id other) rows)
unfolding keep has_id
keep-has_id id other [] = ground arith
keep-has_id id other ([] ∷ rows) = keep-has_id id other rows
keep-has_id id other ((cell ∷ cells) ∷ rows) =
    ground
      (arith, text_iff cell id, text_iff cell other, text_iff other id, keep-has_id id other rows)

rows_of-remove_rows :
    (id other : Text) (f : File)
    → rows_of other (remove_rows id f) ≡ (if other == id then [] else rows_of other f)
unfolding remove_rows body keep
rows_of-remove_rows id other none = ground arith
rows_of-remove_rows id other (some []) = ground arith
rows_of-remove_rows id other (some ([] ∷ rows)) = ground arith
rows_of-remove_rows id other (some ((h ∷ hs) ∷ rows)) = keep-has_id id other rows

-- In the scope table and the two raw tables the ConstID has no row left, and every other ConstID
-- has the rows it had, in order. The numbered tables are as they were.
pub remove_constid_entries_rows :
    (id other : Text) (t : Tables)
    → let u = remove_constid_entries id t in
      (rows_of other u.scope ≡ (if other == id then [] else rows_of other t.scope))
      × (rows_of other u.cs_raw ≡ (if other == id then [] else rows_of other t.cs_raw))
      × (rows_of other u.ss_raw ≡ (if other == id then [] else rows_of other t.ss_raw))
      × (u.cs ≡ t.cs)
      × (u.ss ≡ t.ss)
unfolding remove_constid_entries
remove_constid_entries_rows id other t = (
  rows_of-remove_rows id other t.scope,
  rows_of-remove_rows id other t.cs_raw,
  rows_of-remove_rows id other t.ss_raw,
  refl,
  refl,
)
