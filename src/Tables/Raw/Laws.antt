-- ===== src/Tables/Raw/Laws.antt =====
-- A span is entered once, and touches no other ConstID.
use xkernel.Base.{◌≡◌, refl, true, List, [], ◌∷◌, ◌++◌, some, none, arith, keep, Bool-cases, inl}
use xkernel.Base.{inr, list_eq, nat_eq, beq_refl, ◌≢◌}
use xkernel.Base.Int.{ℤ}
use xkernel.Base.Text.{Text, text_iff}
use xkernel.Tables.{HasHeader, Row, File, body, init_table, raw_header}
use xkernel.Tables.Scope.{has_id}
use xkernel.Tables.Scope.Removal.{rows_of}
use xkernel.Tables.Raw.{is_entry, any_entry, add_ss_raw_entry, add_cs_raw_entry, hex_offset}

module _ (id func soff eoff : Text) where
  abbrev entry : Row
  entry = id ∷ func ∷ soff ∷ eoff ∷ []

  is_entry-entry : is_entry id func soff eoff entry ≡ true
  unfolding is_entry
  is_entry-entry = rw (beq_refl id, beq_refl func, beq_refl soff, beq_refl eoff)

  any_entry-append : (rows : List Row) → any_entry id func soff eoff (rows ++ (entry ∷ [])) ≡ true
  unfolding any_entry
  any_entry-append [] = rw is_entry-entry
  any_entry-append (row ∷ rows) = rw (any_entry-append rows) (ground arith)

  keep-append_other :
      (other : Text) (rows : List Row)
      → other ≢ id
      → keep (has_id other) (rows ++ (entry ∷ [])) ≡ keep (has_id other) rows
  unfolding keep has_id
  keep-append_other other [] ne = ground (arith, text_iff id other)
  keep-append_other other (row ∷ rows) ne = rw (keep-append_other other rows ne) refl

  abbrev Entered : File → Type 0
  Entered f =
      let g = add_ss_raw_entry id func soff eoff f in
      (any_entry id func soff eoff (body g) ≡ true)
      × (add_ss_raw_entry id func soff eoff g ≡ g)
      × ((other : Text) → other ≢ id → rows_of other g ≡ rows_of other f)

  Entered-rows : (c : Text) (cs : Row) (rows : List Row) → Entered (some ((c ∷ cs) ∷ rows))
  unfolding add_ss_raw_entry init_table body
  Entered-rows c cs rows = elim (Bool-cases (any_entry id func soff eoff rows)) [
    | inl old ↦ rw old (old, rw old refl, λ other ne. refl)
    | inr new ↦
        let there = any_entry-append rows in
        rw new (there, rw there refl, λ other ne. keep-append_other other rows ne)
  ]

  Entered-none : Entered none
  unfolding add_ss_raw_entry init_table raw_header body
  Entered-none = Entered-rows _ _ []

  entered : (f : File) → HasHeader f → Entered f
  entered none h = Entered-none
  entered (some []) h = absurd h
  entered (some ([] ∷ rows)) h = absurd h
  entered (some ((c ∷ cs) ∷ rows)) h = Entered-rows c cs rows

-- The span is in the table after the call, a second call changes nothing, and the rows of every
-- other ConstID are as they were, if the file is missing or has a header.
add_ss_raw_entry_lem :
    (id func soff eoff other : Text) (f : File)
    → HasHeader f
    → other ≢ id
    → let g = add_ss_raw_entry id func soff eoff f in
      (any_entry id func soff eoff (body g) ≡ true)
      × (add_ss_raw_entry id func soff eoff g ≡ g)
      × (rows_of other g ≡ rows_of other f)
add_ss_raw_entry_lem id func soff eoff other f h ne =
    let (there, again, others) = entered id func soff eoff f h in (there, again, others other ne)

-- `add_cs_raw_entry` is the same entry with printed offsets.
pub add_cs_raw-add_ss_raw :
    (id func : Text) (soff eoff : ℤ) (f : File)
    → add_cs_raw_entry id func soff eoff f
      ≡ add_ss_raw_entry id func (hex_offset soff) (hex_offset eoff) f
unfolding add_cs_raw_entry add_ss_raw_entry
add_cs_raw-add_ss_raw id func soff eoff f = refl
