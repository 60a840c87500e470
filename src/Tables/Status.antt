-- ===== src/Tables/Status.antt =====
-- The status updates of the command line (src/cli.py). They split a line at tabs, so a row here is
-- a line whose cells hold no tab, no line end and no quote, as the tables' own cells do.
pub mod Laws
use xkernel.Base.{ℕ, zero, suc, ◌<◌, Bool, true, false, ◌&&◌, List, [], ◌∷◌, map, Option, some}
use xkernel.Base.{none, max, ◌==◌, list_eq, nat_eq, if◌then◌else◌, ltb, length, set, get_elem?}
use xkernel.Base.Text.{Text, text}
use xkernel.Tables.{Row, File}

-- `header.index(name)`
unfoldable pub column : Text → Row → Option ℕ
column name [] = none
column name (h ∷ hs) = elim (h == name) [
  | true ↦ some 0
  | false ↦ elim (column name hs) [ none ↦ none | some i ↦ some (suc i) ]
]

unfoldable pub cell_is : ℕ → Text → Row → Bool
cell_is i wanted row = elim (get_elem? row i) [ none ↦ false | some c ↦ c == wanted ]

-- `fields[st_col] = new_status`, if the row is long enough and its key cell matches.
unfoldable pub update_line : ℕ → ℕ → Text → Text → Row → Row
update_line key_col st_col key new_status fields =
    if ltb (max key_col st_col) (length fields) && cell_is key_col key fields
    then set fields st_col new_status
    else fields

unfoldable pub update_lines : Text → Text → Text → File → File
update_lines key_name key new_status none = none
update_lines key_name key new_status (some []) = some []
update_lines key_name key new_status (some (header ∷ rows)) = elim (column key_name header) [
  | none ↦ some (header ∷ rows)
  | some key_col ↦ elim (column (text "Status") header) [
    | none ↦ some (header ∷ rows)
    | some st_col ↦ some (header ∷ map (update_line key_col st_col key new_status) rows)
  ]
]

unfoldable pub update_status : Text → Text → File → File
update_status const_id = update_lines (text "ConstID") const_id

unfoldable pub update_status_by_file : Text → Text → File → File
update_status_by_file bpf_file = update_lines (text "BPF_File") bpf_file

unfoldable pub set_status : ℕ → Text → Row → Row
set_status st_col new_status fields =
    if ltb st_col (length fields) then set fields st_col new_status else fields

unfoldable pub update_all_status : Text → File → File
update_all_status new_status none = none
update_all_status new_status (some []) = some []
update_all_status new_status (some (header ∷ rows)) = elim (column (text "Status") header) [
  | none ↦ some (header ∷ rows)
  | some st_col ↦ some (header ∷ map (set_status st_col new_status) rows)
]
