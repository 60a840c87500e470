-- ===== src/Tables/Query.antt =====
-- Reading, querying and deleting (src/table.py), and the command line's own copy of the delete
-- filter (`_collect_constids_to_delete` of src/cli.py).
pub mod Resolve
pub mod Delete
pub mod Multi
pub mod Affected
use xkernel.Base.{ℕ, Bool, true, false, not, ◌&&◌, ◌||◌, List, [], ◌∷◌, ◌++◌, map, Option, some}
use xkernel.Base.{none, keep, ◌==◌, list_eq, nat_eq, if◌then◌else◌, length, contains, suc}
use xkernel.Base.Int.{ℤ, int_eq}
use xkernel.Base.Dict.{Dict, insert, lookup}
use xkernel.Base.Text.{Text, text, parse_int, show_int, strip}
use xkernel.Tables.{Row, File, Tables, scope_table_header, cs_table_header, ss_table_header}
use xkernel.Tables.{raw_header}
use xkernel.Tables.Scope.{skip_header}

-- The loop of `read_cs_table` and `read_ss_table`: rows whose index is no number are passed over.
unfoldable pub read_rows : List Row → Dict ℤ Text → Dict ℤ Text
read_rows [] d = d
read_rows ([] ∷ rows) d = read_rows rows d
read_rows ((a ∷ []) ∷ rows) d = read_rows rows d
read_rows ((cell ∷ content ∷ more) ∷ rows) d =
    read_rows rows (elim (parse_int 10 cell) [ none ↦ d | some index ↦ insert index content d ])

unfoldable pub read_cs_table : File → Dict ℤ Text
read_cs_table f = read_rows (skip_header f) []

unfoldable pub read_ss_table : File → Dict ℤ Text
read_ss_table f = read_rows (skip_header f) []

-- The text that an index cell stands for; `label` is "CS" or "SS".
unfoldable pub resolve : Text → Text → Dict ℤ Text → Text
resolve label [] d = []
resolve label (c ∷ cell) d = elim (parse_int 10 (c ∷ cell)) [
  | none ↦ text "[Invalid " ++ label ++ text " index: " ++ (c ∷ cell) ++ text "]"
  | some index ↦ elim (lookup index d) [
    | none ↦ text "[" ++ label ++ text "#" ++ show_int 10 index ++ text " not found]"
    | some content ↦ content
  ]
]

pub record ScopeEntry : Type 0 where
  pub const_id : Text
  pub val : Text
  pub expression : Text
  pub cs_index : Text
  pub ss_index : Text
  pub cs : Text
  pub ss : Text
  pub bpf_file : Text
  pub status : Text
  pub candidates : Text

-- Rows with seven cells or more are read; the eighth is optional.
unfoldable pub optional_cell : Row → Text
optional_cell [] = []
optional_cell (c ∷ more) = strip c

unfoldable pub scope_entries : Dict ℤ Text → Dict ℤ Text → List Row → List ScopeEntry
scope_entries cs_map ss_map [] = []
scope_entries cs_map ss_map ((c0 ∷ c1 ∷ c2 ∷ c3 ∷ c4 ∷ c5 ∷ c6 ∷ more) ∷ rows) =
    record {
      const_id = strip c0;
      val = strip c1;
      expression = strip c2;
      cs_index = strip c3;
      ss_index = strip c4;
      cs = resolve (text "CS") (strip c3) cs_map;
      ss = resolve (text "SS") (strip c4) ss_map;
      bpf_file = strip c5;
      status = strip c6;
      candidates = optional_cell more;
    }
    ∷ scope_entries cs_map ss_map rows
scope_entries cs_map ss_map (_ ∷ rows) = scope_entries cs_map ss_map rows

unfoldable pub read_scope_table : Tables → List ScopeEntry
read_scope_table t = scope_entries (read_cs_table t.cs) (read_ss_table t.ss) (skip_header t.scope)

unfoldable pub entry_cells : ScopeEntry → Row
entry_cells e =
    e.const_id ∷ e.val ∷ e.expression ∷ e.cs_index ∷ e.ss_index ∷ e.bpf_file ∷ e.status
    ∷ e.candidates ∷ []

unfoldable pub write_scope_table : List ScopeEntry → File
write_scope_table entries = some (scope_table_header ∷ map entry_cells entries)

-- A filter is given if it is neither `None` nor the empty text.
pub record Filter : Type 0 where
  pub const_id : Option Text
  pub val : Option Text
  pub status : Option Text

unfoldable pub given : Option Text → Bool
given none = false
given (some []) = false
given (some (c ∷ s)) = true

-- `flt and cell != flt`
unfoldable pub differs : Option Text → Text → Bool
differs none cell = false
differs (some []) cell = false
differs (some (c ∷ s)) cell = not (cell == (c ∷ s))

-- `flt and cell == flt`
unfoldable pub agrees : Option Text → Text → Bool
agrees none cell = false
agrees (some []) cell = false
agrees (some (c ∷ s)) cell = cell == (c ∷ s)

-- The three tests of `query_entries`, each of which may clear the flag.
unfoldable pub matches : Filter → Text → Text → Text → Bool
matches q id val status =
    let first = if differs q.const_id id then false else true in
    let second = if differs q.val val then false else first in
    if differs q.status status then false else second

unfoldable pub query_entries : Filter → Tables → List ScopeEntry
query_entries q t = keep (λ e. matches q e.const_id e.val e.status) (read_scope_table t)

-- The six tests of `delete_entries`: three that set the flag, and three that clear it.
unfoldable pub should_delete : Filter → ScopeEntry → Bool
should_delete q e =
    let s1 = if agrees q.const_id e.const_id then true else false in
    let s2 = if agrees q.val e.val then true else s1 in
    let s3 = if agrees q.status e.status then true else s2 in
    let s4 = if differs q.const_id e.const_id then false else s3 in
    let s5 = if differs q.val e.val then false else s4 in
    if differs q.status e.status then false else s5

abbrev pub cleared : Row → File → File
cleared header none = none
cleared header (some rows) = some (header ∷ [])

-- The number of entries deleted, and the tables after the call. The scope table is rewritten only
-- if something is deleted.
unfoldable pub delete_all_entries : Tables → ℕ × Tables
delete_all_entries t =
    let entries = read_scope_table t in
    (
      length entries,
      record {
        scope = if 0 == length entries then t.scope else write_scope_table [];
        cs = cleared cs_table_header t.cs;
        cs_raw = cleared raw_header t.cs_raw;
        ss = cleared ss_table_header t.ss;
        ss_raw = cleared raw_header t.ss_raw;
      },
    )

unfoldable pub delete_matching : Filter → Tables → ℕ × Tables
delete_matching q t =
    let entries = read_scope_table t in
    let deleted_count = length (keep (should_delete q) entries) in
    let to_keep = keep (λ e. not (should_delete q e)) entries in
    (
      deleted_count,
      record t { scope = if 0 == deleted_count then t.scope else write_scope_table to_keep },
    )

-- Nothing is done where there is no scope table.
unfoldable pub delete_present : Filter → Bool → Tables → File → ℕ × Tables
delete_present q delete_all t none = (0, t)
delete_present q delete_all t (some rows) =
    if delete_all then delete_all_entries t else delete_matching q t

unfoldable pub delete_entries : Filter → Bool → Tables → ℕ × Tables
delete_entries q delete_all t = delete_present q delete_all t t.scope

-- The rows that the command line takes to be affected by a delete.
unfoldable pub is_affected : Filter → Bool → Row → Bool
is_affected q delete_all (c0 ∷ c1 ∷ c2 ∷ c3 ∷ c4 ∷ c5 ∷ c6 ∷ more) =
    if delete_all
    then true
    else matches q (strip c0) (strip c1) (strip c6)
      && (given q.const_id || given q.val || given q.status)
is_affected q delete_all _ = false

unfoldable pub first_cell : Row → Text
first_cell [] = []
first_cell (c ∷ cells) = strip c

-- `affected.add(entry_cid)` for each such row: a set, in the order of first insertion.
unfoldable pub collect : Filter → Bool → List Row → List Text → List Text
collect q delete_all [] affected = affected
collect q delete_all (row ∷ rows) affected = collect q delete_all rows (
    if is_affected q delete_all row && not (contains affected (first_cell row))
    then affected ++ (first_cell row ∷ [])
    else affected)

unfoldable pub collect_constids_to_delete : Filter → Bool → File → List Text
collect_constids_to_delete q delete_all none = []
collect_constids_to_delete q delete_all (some []) = []
collect_constids_to_delete q delete_all (some ([] ∷ rows)) = []
collect_constids_to_delete q delete_all (some ((h ∷ hs) ∷ rows)) = collect q delete_all rows []
