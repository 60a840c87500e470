-- ===== src/Tables/Scope.antt =====
-- The scope table (src/codegen.py): fresh ConstIDs, removal of a ConstID, and the entry that a build
-- writes for its ConstID.
pub mod Fresh
pub mod Removal
pub mod Entry
use xkernel.Base.{ℕ, Bool, true, false, not, List, [], ◌∷◌, ◌++◌, map, Option, some, none, drop}
use xkernel.Base.{keep, ◌==◌, list_eq, nat_eq, if◌then◌else◌, Result, ok, raised, value_error}
use xkernel.Base.{index_error, ◌>>=◌, or_raise}
use xkernel.Base.Int.{ℤ, pos, ◌+ℤ◌, max_ℤ}
use xkernel.Base.Text.{Text, text, str_isdigit, parse_int, show_int, join}
use xkernel.Tables.{Row, File, Tables, init_table, init_all_tables, body, scope_table_header}

-- The rows below the first line, whatever that is: `next(reader, None)`.
unfoldable pub skip_header : File → List Row
skip_header none = []
skip_header (some []) = []
skip_header (some (header ∷ rows)) = rows

-- The loop of `next_const_id`: the largest first cell that is a number.
unfoldable pub max_id : List Row → ℤ → Result ℤ
max_id [] m = ok m
max_id ([] ∷ rows) m = max_id rows m
max_id ((cell ∷ cells) ∷ rows) m = elim (str_isdigit cell) [
  | true ↦ elim (parse_int 10 cell) [ none ↦ raised value_error | some n ↦ max_id rows (max_ℤ m n) ]
  | false ↦ max_id rows m
]

-- The next ConstID, and the scope table that the call may have created.
unfoldable pub next_const_id : File → Result (ℤ × File)
next_const_id f =
    let g = init_table scope_table_header f in
    max_id (skip_header g) (pos 0) >>= λ m. ok (m +ℤ pos 1, g)

-- `row[0] == const_id`, where there is a cell.
unfoldable pub has_id : Text → Row → Bool
has_id id [] = false
has_id id (cell ∷ cells) = cell == id

-- One file's part of `remove_constid_entries`: written back only if there is a header.
unfoldable pub remove_rows : Text → File → File
remove_rows id none = none
remove_rows id (some []) = some []
remove_rows id (some ([] ∷ rows)) = some ([] ∷ rows)
remove_rows id (some ((h ∷ hs) ∷ rows)) = some ((h ∷ hs) ∷ keep (λ row. not (has_id id row)) rows)

unfoldable pub remove_constid_entries : Text → Tables → Tables
remove_constid_entries id t = record t {
  scope = remove_rows id t.scope;
  cs_raw = remove_rows id t.cs_raw;
  ss_raw = remove_rows id t.ss_raw;
}

-- What a build writes for its ConstID, next to the empty SS index.
pub record Fields : Type 0 where
  pub val : ℤ
  pub expression : Text
  pub cs_indices : List Text
  pub bpf_file : Text
  pub status : Text
  pub candidates : Text

unfoldable pub new_row : Text → Fields → Row
new_row id f =
    id
    ∷ show_int 10 f.val
    ∷ f.expression
    ∷ join (text ",") f.cs_indices
    ∷ []
    ∷ f.bpf_file
    ∷ f.status
    ∷ f.candidates
    ∷ []

-- The assignments to `entry[1]`, …, `entry[4]` want five cells; then the row is filled up to eight.
unfoldable pub update_row : Text → Fields → Row → Result Row
update_row id f (c0 ∷ c1 ∷ c2 ∷ c3 ∷ c4 ∷ more) = ok (new_row id f ++ drop 3 more)
update_row id f _ = raised index_error

-- The loop over the entries: the first of the ConstID is updated, and `none` says that there is none.
unfoldable pub update_first : Text → Fields → List Row → Result (Option (List Row))
update_first id f [] = ok none
update_first id f (row ∷ rows) = elim (has_id id row) [
  | true ↦ update_row id f row >>= λ new. ok (some (new ∷ rows))
  | false ↦
      update_first id f rows >>= λ o. elim o [ none ↦ ok none | some rest ↦ ok (some (row ∷ rest)) ]
]

-- `writerow` in append mode, and a rewrite below a fresh header.
abbrev pub append_row : Row → File → File
append_row row none = some (row ∷ [])
append_row row (some rows) = some (rows ++ (row ∷ []))

abbrev pub written : Text → Fields → File → Option (List Row) → File
written id f g none = append_row (new_row id f) g
written id f g (some rows) = some (scope_table_header ∷ rows)

-- The part of `add_scope_table_entry_multi_cs` that follows `init_all_tables`.
unfoldable pub enter_row : Text → Fields → File → Result File
enter_row id f g = update_first id f (body g) >>= λ o. ok (written id f g o)

unfoldable pub add_scope_table_entry_multi_cs : Text → Fields → Tables → Result Tables
add_scope_table_entry_multi_cs id f t =
    let u = init_all_tables t in enter_row id f u.scope >>= λ g. ok (record u { scope = g })
