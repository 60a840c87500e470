-- ===== src/Tables.antt =====
-- The five tables under /dev/shm/xkernel (src/codegen.py). A table file is missing, or holds the
-- rows that Python's `csv` reads back, its header first. A blank line is the empty row.
pub mod Index
pub mod Scope
pub mod Raw
pub mod Query
pub mod Status
pub mod Single
mod Tests
use xkernel.Base.{◌∷◌, [], List, Option, some, none}
use xkernel.Base.Text.{Text, text}

abbrev pub Row : Type 0
Row = List Text

abbrev pub File : Type 0
File = Option (List Row)

pub record Tables : Type 0 where
  pub scope : File
  pub cs : File
  pub cs_raw : File
  pub ss : File
  pub ss_raw : File

unfoldable pub scope_table_header : Row
unfolding text
scope_table_header =
    text "ConstID"
    ∷ text "Val"
    ∷ text "Expression"
    ∷ text "CS_Index"
    ∷ text "SS_Index"
    ∷ text "BPF_File"
    ∷ text "Status"
    ∷ text "Candidates"
    ∷ []

unfoldable pub cs_table_header : Row
unfolding text
cs_table_header = text "Index" ∷ text "CS_Content" ∷ []

unfoldable pub raw_header : Row
unfolding text
raw_header = text "ConstID" ∷ text "FunctionName" ∷ text "StartOffset" ∷ text "EndOffset" ∷ []

unfoldable pub ss_table_header : Row
unfolding text
ss_table_header = text "Index" ∷ text "SS_Ranges" ∷ []

-- Creates the file with its header, if there is none.
unfoldable pub init_table : Row → File → File
init_table header none = some (header ∷ [])
init_table header (some rows) = some rows

unfoldable pub init_all_tables : Tables → Tables
unfolding init_table
init_all_tables t = record {
  scope = init_table scope_table_header t.scope;
  cs = init_table cs_table_header t.cs;
  cs_raw = init_table raw_header t.cs_raw;
  ss = init_table ss_table_header t.ss;
  ss_raw = init_table raw_header t.ss_raw;
}

unfoldable pub clear_all_tables : Tables → Tables
clear_all_tables t = record {
  scope = some (scope_table_header ∷ []);
  cs = some (cs_table_header ∷ []);
  cs_raw = some (raw_header ∷ []);
  ss = some (ss_table_header ∷ []);
  ss_raw = some (raw_header ∷ []);
}

-- The rows below the header. `next(reader, None)` gives no header for an empty file, and `if header`
-- refuses a blank one: then nothing is read.
unfoldable pub body : File → List Row
body none = []
body (some []) = []
body (some ([] ∷ rows)) = []
body (some ((c ∷ cs) ∷ rows)) = rows

-- The file is missing, or its first line is no blank line: what every writer of the tables leaves.
abbrev pub HasHeader : File → Type 0
HasHeader none = Unit
HasHeader (some []) = ⊥
HasHeader (some ([] ∷ rows)) = ⊥
HasHeader (some ((h ∷ hs) ∷ rows)) = Unit
