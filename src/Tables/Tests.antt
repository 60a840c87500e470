-- ===== src/Tables/Tests.antt =====
-- Runs of the table operations, and the theorems at concrete tables.
use xkernel.Base.{ℕ, ◌≡◌, refl, ◌≤◌, ◌≢◌, false, not, [], ◌∷◌, ◌++◌, map, keep, some, none, All}
use xkernel.Base.{arith, length, drop, if◌then◌else◌, ◌==◌, list_eq, nat_eq, ok, list_beq}
use xkernel.Base.{contains}
use xkernel.Base.Int.{ℤ, pos, int_eq, ◌+ℤ◌, max_ℤ}
use xkernel.Base.Dict.{lookup}
use xkernel.Base.Text.{Text, text, text_iff, show_nat, join, str_isdigit, counts_as_digit}
use xkernel.Base.Text.{is_other_digit, parse_int, parse_signed, strip, rstrip, lstrip, map_option}
use xkernel.Base.Text.{parse_nat, skip_prefix, show_int, all, is_digit}
use xkernel.Tables.{Row, File, Tables, init_table, scope_table_header, body}
use xkernel.Tables.Index.{get_or_add_index}
use xkernel.Tables.Index.Refines.{file_of, number_of, add_text, get_or_add_index-file_of}
use xkernel.Tables.Scope.{next_const_id, remove_constid_entries, Fields, new_row, skip_header}
use xkernel.Tables.Scope.{add_scope_table_entry_multi_cs, max_id}
use xkernel.Tables.Scope.Fresh.{Avoids, BeginsAscii, next_const_id_fresh}
use xkernel.Tables.Scope.Removal.{rows_of, remove_constid_entries_rows}
use xkernel.Tables.Scope.Entry.{IsFull, add_scope_table_entry_lem}
use xkernel.Tables.Query.{Filter, matches, should_delete, query_entries, delete_entries}
use xkernel.Tables.Query.{read_scope_table, write_scope_table, read_cs_table, resolve}
use xkernel.Tables.Query.{collect_constids_to_delete, collect, delete_present, delete_matching}
use xkernel.Tables.Query.{scope_entries, differs, agrees, is_affected, given, first_cell}
use xkernel.Tables.Query.Resolve.{get_or_add-read_cs_table}
use xkernel.Tables.Query.Delete.{read-write_scope_table, delete_entries-query}
use xkernel.Tables.Query.Affected.{escapes, collect_constids-covers-delete}
use xkernel.Tables.Query.Multi.{resolve_several}
use xkernel.Tables.Single.{single_fields, add_scope_table_entry, add_scope_table_entry-resolve}

abbrev two : Text
two = 50 ∷ []

abbrev three : Text
three = 51 ∷ []

three-two : three ≢ two
unfolding list_beq
three-two e = cc ((text_iff three two).1 e)

abbrev built : Text
built = 66 ∷ []

-- A row of the scope table.
abbrev row_of : Text → Row
row_of id = id ∷ two ∷ three ∷ (49 ∷ []) ∷ [] ∷ (120 ∷ []) ∷ built ∷ [] ∷ []

abbrev head : Row
head = (73 ∷ []) ∷ []

abbrev some_tables : Tables
some_tables = record {
  scope = some (head ∷ row_of two ∷ row_of three ∷ []);
  cs = some (head ∷ ((49 ∷ []) ∷ (97 ∷ []) ∷ []) ∷ []);
  cs_raw = some (head ∷ (two ∷ (102 ∷ []) ∷ three ∷ three ∷ []) ∷ []);
  ss = none;
  ss_raw = none;
}

abbrev fields : Fields
fields = record {
  val = pos 5;
  expression = 120 ∷ [];
  cs_indices = (49 ∷ []) ∷ [];
  bpf_file = [];
  status = built;
  candidates = [];
}

abbrev by_id : Filter
by_id = record { const_id = some two; val = none; status = none }

fresh_run : next_const_id some_tables.scope ≡ ok (pos 4, some_tables.scope)
unfolding next_const_id max_id skip_header init_table str_isdigit counts_as_digit is_other_digit
    parse_int parse_signed strip rstrip lstrip map_option parse_nat skip_prefix ◌+ℤ◌ max_ℤ all
    is_digit
fresh_run = refl

deleted_run : (delete_entries by_id false some_tables).0 ≡ 1
unfolding delete_entries read_scope_table delete_present delete_matching keep scope_entries
    skip_header should_delete differs list_beq strip rstrip lstrip agrees
deleted_run = refl

affected_run : collect_constids_to_delete by_id false some_tables.scope ≡ two ∷ []
unfolding collect_constids_to_delete collect is_affected matches differs list_beq strip rstrip
    lstrip given contains first_cell
affected_run = refl

get_or_add_index-file_of_example :
    get_or_add_index head two (file_of (73 ∷ []) [] (three ∷ []))
    ≡ ok (pos (number_of two (three ∷ [])), file_of (73 ∷ []) [] (add_text two (three ∷ [])))
get_or_add_index-file_of_example = get_or_add_index-file_of (73 ∷ []) [] two (three ∷ [])

remove_constid_entries_rows_example :
    let u = remove_constid_entries two some_tables in
    (rows_of two u.scope ≡ (if two == two then [] else rows_of two some_tables.scope))
    × (rows_of two u.cs_raw ≡ (if two == two then [] else rows_of two some_tables.cs_raw))
    × (rows_of two u.ss_raw ≡ (if two == two then [] else rows_of two some_tables.ss_raw))
    × (u.cs ≡ some_tables.cs)
    × (u.ss ≡ some_tables.ss)
remove_constid_entries_rows_example = remove_constid_entries_rows two two some_tables

some_rows-IsFull : All (IsFull two) (row_of three ∷ [])
some_rows-IsFull = ((λ e. refl), tt)

some_tables-IsFull : All (IsFull two) (body some_tables.scope)
unfolding body
some_tables-IsFull = ((λ e. refl), some_rows-IsFull)

add_scope_table_entry_example :
    (u : Tables) × (add_scope_table_entry_multi_cs two fields some_tables ≡ ok u)
    × (rows_of two u.scope ≡ new_row two fields ∷ drop 1 (rows_of two some_tables.scope))
    × (rows_of three u.scope ≡ rows_of three some_tables.scope)
add_scope_table_entry_example =
    add_scope_table_entry_lem two three fields some_tables three-two tt some_tables-IsFull

first_cells : All BeginsAscii (skip_header (init_table scope_table_header some_tables.scope))
unfolding skip_header init_table
first_cells = ((omega arith, tt), ((omega arith, tt), tt))

next_const_id_fresh_example :
    (n : ℕ) × (next_const_id some_tables.scope
      ≡ ok (pos n, init_table scope_table_header some_tables.scope))
    × (1 ≤ n)
    × All (Avoids n) (skip_header (init_table scope_table_header some_tables.scope))
next_const_id_fresh_example = next_const_id_fresh some_tables.scope first_cells

get_or_add-read_cs_table_example :
    (index : ℤ) × (g : File) × (get_or_add_index head two (file_of (73 ∷ []) [] (three ∷ []))
      ≡ ok (index, g))
    × (lookup index (read_cs_table g) ≡ some two)
get_or_add-read_cs_table_example = get_or_add-read_cs_table (73 ∷ []) [] two (three ∷ [])

read-write_scope_table_example :
    let kept = keep (should_delete by_id) (read_scope_table some_tables) in
    read_scope_table (record some_tables { scope = write_scope_table kept }) ≡ kept
read-write_scope_table_example = read-write_scope_table (should_delete by_id) some_tables

delete_entries-query_example :
    let u = (delete_entries by_id false some_tables).1 in
    ((delete_entries by_id false some_tables).0 ≡ length (query_entries by_id some_tables))
    × (query_entries by_id u ≡ [])
    × (read_scope_table u
        ≡ keep (λ e. not (matches by_id e.const_id e.val e.status)) (read_scope_table some_tables))
unfolding given
delete_entries-query_example = delete_entries-query by_id some_tables refl refl

collect_constids-covers-delete_example :
    keep
      (escapes by_id false (collect_constids_to_delete by_id false some_tables.scope))
      (read_scope_table some_tables)
    ≡ []
collect_constids-covers-delete_example = collect_constids-covers-delete by_id false some_tables tt

resolve_several_example :
    let cell = join (text ",") (map (show_nat 10) (1 ∷ 2 ∷ [])) in
    resolve two cell [] ≡ text "[Invalid " ++ two ++ text " index: " ++ cell ++ text "]"
resolve_several_example = resolve_several 1 2 [] two []

abbrev numbered_tables : Tables
numbered_tables = record some_tables {
  cs = file_of (text "Index") (text "CS_Content" ∷ []) (two ∷ []);
}

add_scope_table_entry-resolve_example :
    (u : Tables) × (index : ℤ) × (add_scope_table_entry two
        (pos 5)
        []
        three
        []
        built
        numbered_tables
      ≡ ok u)
    × (rows_of two u.scope
        ≡ new_row two (single_fields (pos 5) [] index [] built)
          ∷ drop 1 (rows_of two some_tables.scope))
    × (rows_of three u.scope ≡ rows_of three some_tables.scope)
    × (resolve two (show_int 10 index) (read_cs_table u.cs) ≡ three)
add_scope_table_entry-resolve_example =
    add_scope_table_entry-resolve two three [] three [] built two (pos 5) (two ∷ []) numbered_tables
      refl three-two tt some_tables-IsFull
