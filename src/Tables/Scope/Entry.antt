-- ===== src/Tables/Scope/Entry.antt =====
-- `add_scope_table_entry_multi_cs` leaves the ConstID with the new row, and other ConstIDs alone.
use xkernel.Base.{ℕ, zero, suc, ◌≡◌, refl, ◌∙◌, inl, inr, ◌≢◌, true, false, List, [], ◌∷◌, ◌++◌}
use xkernel.Base.{some, none, arith, keep, Bool-cases, append-nil, drop, length, All, list_eq}
use xkernel.Base.{nat_eq, ok, beq_refl}
use xkernel.Base.Text.{Text, text_iff}
use xkernel.Tables.{HasHeader, Row, File, Tables, body, init_table, init_all_tables}
use xkernel.Tables.{scope_table_header}
use xkernel.Tables.Scope.{has_id, Fields, new_row, update_row, update_first, enter_row}
use xkernel.Tables.Scope.{add_scope_table_entry_multi_cs}
use xkernel.Tables.Scope.Removal.{rows_of}

-- A row of the ConstID has the eight cells of the header.
abbrev pub IsFull : Text → Row → Type 0
IsFull id row = has_id id row ≡ true → length row ≡ 8

drop_all : (n : ℕ) (r : Row) → length r ≡ n → drop n r ≡ []
drop_all zero [] e = refl
drop_all zero (c ∷ r) e = ground arith
drop_all (suc n) [] e = refl
drop_all (suc n) (c ∷ r) e = drop_all n r (omega arith)

module _ (id : Text) (f : Fields) where
  update_row_full : (row : Row) → length row ≡ 8 → update_row id f row ≡ ok (new_row id f)
  unfolding update_row
  update_row_full (c0 ∷ c1 ∷ c2 ∷ c3 ∷ c4 ∷ more) e =
      rw (drop_all 3 more (omega arith), append-nil) refl
  update_row_full _ e = absurd (omega arith)

  has_id-new_row : has_id id (new_row id f) ≡ true
  unfolding has_id new_row
  has_id-new_row = beq_refl id

  other-new_row : (other : Text) → other ≢ id → has_id other (new_row id f) ≡ false
  unfolding has_id new_row
  other-new_row other ne = ground (arith, text_iff id other)

  other-row :
      (other : Text) (row : Row) → other ≢ id → has_id id row ≡ true → has_id other row ≡ false
  unfolding has_id
  other-row other [] ne h = refl
  other-row other (cell ∷ cells) ne h = ground (arith, text_iff cell id, text_iff cell other)

  -- What the loop over the entries has done.
  data Updated (rows : List Row) : Type 0 where
    missing : update_first id f rows ≡ ok none → keep (has_id id) rows ≡ [] → Updated rows
    replaced :
        (new : List Row)
        → update_first id f rows ≡ ok (some new)
        → keep (has_id id) new ≡ new_row id f ∷ drop 1 (keep (has_id id) rows)
        → ((other : Text) → other ≢ id → keep (has_id other) new ≡ keep (has_id other) rows)
        → Updated rows

  Updated-cons :
      (row : Row) (rows : List Row) → has_id id row ≡ false → Updated rows → Updated (row ∷ rows)
  unfolding update_first keep
  Updated-cons row rows other (missing e gone) =
      missing (rw (other, update_first) (rw e refl)) (rw other gone)
  Updated-cons row rows other (replaced new e own others) =
      replaced (row ∷ new) (rw (other, update_first) (rw e refl)) (rw other own)
        (λ o ne. rw (others o ne) refl)

  update_first-Updated : (rows : List Row) → All (IsFull id) rows → Updated rows
  unfolding update_first keep
  update_first-Updated [] full = missing refl refl
  update_first-Updated (row ∷ rows) full = elim (Bool-cases (has_id id row)) [
    | inl own ↦
        replaced (new_row id f ∷ rows)
          (rw (own, update_first) (rw (update_row_full row (full.0 own)) refl))
          (rw (has_id-new_row, own) refl)
          (λ other ne. rw (other-new_row other ne, other-row other row ne own) refl)
    | inr other ↦ Updated-cons row rows other (update_first-Updated rows full.1)
  ]

  keep-append_new :
      (rows : List Row)
      → keep (has_id id) (rows ++ (new_row id f ∷ []))
        ≡ keep (has_id id) rows ++ (new_row id f ∷ [])
  unfolding keep
  keep-append_new [] = rw has_id-new_row refl
  keep-append_new (row ∷ rows) = rw (keep-append_new rows) (ground arith)

  keep-append_new_other :
      (other : Text) (rows : List Row)
      → other ≢ id
      → keep (has_id other) (rows ++ (new_row id f ∷ [])) ≡ keep (has_id other) rows
  unfolding keep
  keep-append_new_other other [] ne = rw (other-new_row other ne) refl
  keep-append_new_other other (row ∷ rows) ne = rw (keep-append_new_other other rows ne) refl

  -- The scope table `g` that an entry leaves, against the table `s` before it.
  abbrev IsEntered : File → File → Type 0
  IsEntered s g =
      (rows_of id g ≡ new_row id f ∷ drop 1 (rows_of id s))
      × ((other : Text) → other ≢ id → rows_of other g ≡ rows_of other s)

  enter :
      (h : Text) (hs : Row) (rows : List Row)
      → Updated rows
      → let s = some ((h ∷ hs) ∷ rows) in (g : File) × (enter_row id f s ≡ ok g) × IsEntered s g
  unfolding enter_row body scope_table_header
  enter h hs rows (missing none' gone) = (
    some ((h ∷ hs) ∷ (rows ++ (new_row id f ∷ []))),
    rw none' refl,
    (keep-append_new rows ∙ rw gone refl, λ o ne. keep-append_new_other o rows ne),
  )
  enter h hs rows (replaced new same own others) =
      (some (scope_table_header ∷ new), rw same refl, (own, others))

  enter_file :
      (s : File)
      → HasHeader s
      → All (IsFull id) (body s)
      → (g : File) × (enter_row id f (init_table scope_table_header s) ≡ ok g) × IsEntered s g
  unfolding init_table body scope_table_header
  enter_file none h full = enter _ _ [] (update_first-Updated [] tt)
  enter_file (some []) h full = absurd h
  enter_file (some ([] ∷ rows)) h full = absurd h
  enter_file (some ((c ∷ cs) ∷ rows)) h full = enter c cs rows (update_first-Updated rows full)

-- In a scope table with a header, where the ConstID's rows have their eight cells, the call succeeds: the first of them, if there is
-- one, has become the new row, or else the new row is added; any other ConstID keeps its rows.
pub add_scope_table_entry_lem :
    (id other : Text) (f : Fields) (t : Tables)
    → other ≢ id
    → HasHeader t.scope
    → All (IsFull id) (body t.scope)
    → (u : Tables) × (add_scope_table_entry_multi_cs id f t ≡ ok u)
      × (rows_of id u.scope ≡ new_row id f ∷ drop 1 (rows_of id t.scope))
      × (rows_of other u.scope ≡ rows_of other t.scope)
unfolding add_scope_table_entry_multi_cs init_all_tables
add_scope_table_entry_lem id other f t ne h full =
    let (g, e, (own, others)) = enter_file id f t.scope h full in
    (record (init_all_tables t) { scope = g }, rw e refl, own, others other ne)
