-- ===== src/Tables/Status/Laws.antt =====
-- What a status update changes: the Status cell of the rows that match, in a table with the
-- standard header.
use xkernel.Base.{◌≡◌, refl, ◌∙◌, ap, ◌≢◌, List, [], ◌∷◌, map, some, arith, list_beq, ◌==◌}
use xkernel.Base.{list_eq, nat_eq, if◌then◌else◌}
use xkernel.Base.Text.{Text, text, text_iff}
use xkernel.Tables.{Row, File, scope_table_header}
use xkernel.Tables.Status.{column, cell_is, update_line, update_lines, update_status}
use xkernel.Tables.Status.{update_all_status, set_status}

-- A scope table with the rows.
abbrev pub table : List Row → File
table rows = some (scope_table_header ∷ rows)

const_id_column : column (text "ConstID") scope_table_header ≡ some 0
unfolding column scope_table_header text list_beq
const_id_column = refl

bpf_file_column : column (text "BPF_File") scope_table_header ≡ some 5
unfolding column scope_table_header text list_beq
bpf_file_column = refl

status_column : column (text "Status") scope_table_header ≡ some 6
unfolding column scope_table_header text list_beq
status_column = refl

pub update_status-table :
    (id s : Text) (rows : List Row)
    → update_status id s (table rows) ≡ table (map (update_line 0 6 id s) rows)
unfolding update_status update_lines
update_status-table id s rows =
    rw (const_id_column, update_lines) (rw (status_column, update_lines) refl)

update_all_status-table :
    (s : Text) (rows : List Row)
    → update_all_status s (table rows) ≡ table (map (set_status 6 s) rows)
unfolding update_all_status
update_all_status-table s rows = rw (status_column, update_all_status) refl

-- A row of seven or more cells is known by its cells; a shorter one is left alone.
update_line_long :
    (id s c0 c1 c2 c3 c4 c5 c6 : Text) (more : Row)
    → update_line 0 6 id s (c0 ∷ c1 ∷ c2 ∷ c3 ∷ c4 ∷ c5 ∷ c6 ∷ more)
      ≡ c0 ∷ c1 ∷ c2 ∷ c3 ∷ c4 ∷ c5 ∷ (if c0 == id then s else c6) ∷ more
unfolding update_line cell_is
update_line_long id s c0 c1 c2 c3 c4 c5 c6 more = ground arith

update_line_twice :
    (id s t : Text) (row : Row)
    → update_line 0 6 id s (update_line 0 6 id t row) ≡ update_line 0 6 id s row
unfolding update_line cell_is
update_line_twice id s t (c0 ∷ c1 ∷ c2 ∷ c3 ∷ c4 ∷ c5 ∷ c6 ∷ more) = ground arith
update_line_twice id s t _ = refl

update_line_swap :
    (id j s t : Text) (row : Row)
    → id ≢ j
    → update_line 0 6 id s (update_line 0 6 j t row)
      ≡ update_line 0 6 j t (update_line 0 6 id s row)
unfolding update_line cell_is
update_line_swap id j s t (c0 ∷ c1 ∷ c2 ∷ c3 ∷ c4 ∷ c5 ∷ c6 ∷ more) ne =
    ground (arith, text_iff c0 id, text_iff c0 j)
update_line_swap id j s t _ ne = refl

set_status-update_line :
    (id s t : Text) (row : Row) → set_status 6 s (update_line 0 6 id t row) ≡ set_status 6 s row
unfolding update_line cell_is set_status
set_status-update_line id s t (c0 ∷ c1 ∷ c2 ∷ c3 ∷ c4 ∷ c5 ∷ c6 ∷ more) = ground arith
set_status-update_line id s t _ = refl

map_fuse :
    (f g h k : Row → Row)
    → ((r : Row) → f (g r) ≡ h (k r))
    → (rows : List Row) → map f (map g rows) ≡ map h (map k rows)
map_fuse f g h k e [] = refl
map_fuse f g h k e (r ∷ rows) = rw (e r, map_fuse f g h k e rows) refl

map_id : (rows : List Row) → map (λ r. r) rows ≡ rows
map_id [] = refl
map_id (r ∷ rows) = rw (map_id rows) refl

pub update_all_status-update_status :
    (id s t : Text) (rows : List Row)
    → update_all_status s (update_status id t (table rows)) ≡ update_all_status s (table rows)
update_all_status-update_status id s t rows =
    rw (update_status-table, update_all_status-table, update_all_status-table)
      (ap table
        (map_fuse _ _ _ (λ r. r) (set_status-update_line id s t) rows ∙ ap (map _) (map_id rows)))

-- In a table with the standard header the last status written for a ConstID holds, updates of two
-- different ConstIDs may be swapped, and `update_all_status` overrides them all.
update_status_order :
    (id j s t : Text) (rows : List Row)
    → id ≢ j
    → (update_status id s (update_status id t (table rows)) ≡ update_status id s (table rows))
      × (update_status id s (update_status j t (table rows))
          ≡ update_status j t (update_status id s (table rows)))
      × (update_all_status s (update_status id t (table rows)) ≡ update_all_status s (table rows))
update_status_order id j s t rows ne = (
  rw (update_status-table, update_status-table, update_status-table)
      (ap table
        (map_fuse _ _ _ (λ r. r) (update_line_twice id s t) rows ∙ ap (map _) (map_id rows))),
  rw (update_status-table, update_status-table)
      (rw (update_status-table, update_status-table)
        (ap table (map_fuse _ _ _ _ (λ r. update_line_swap id j s t r ne) rows))),
  update_all_status-update_status id s t rows,
)
