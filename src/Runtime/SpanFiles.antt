-- ===== src/Runtime/SpanFiles.antt =====
-- `generate_cs_file` and `generate_ss_file` (src/cli.py).
use xkernel.Base.{Bool, true, false, List, [], ◌∷◌, ◌++◌, Option, some, none, if◌then◌else◌, ◌==◌}
use xkernel.Base.{list_eq, nat_eq, contains}
use xkernel.Base.Text.{Text, text, strip, split, join}
use xkernel.Tables.{Row, File}
use xkernel.Tables.Scope.{skip_header}
use xkernel.Runtime.{Host, Run, ◌>>=◌, ◌>>◌, pure, ask, gets, set_cs_file, set_ss_file}
use xkernel.Runtime.Spans.{file_lines}

-- `line.strip().split('\t')` of a row's line.
unfoldable pub line_parts : Row → List Text
line_parts row = split 9 (strip (join (9 ∷ []) row))

-- `f"{func_name},{func_addr},{soff},{eoff}"`
unfoldable pub span_line : Text → Text → Text → Text → Text
span_line func_name func_addr soff eoff = join (text ",") (func_name ∷ func_addr ∷ soff ∷ eoff ∷ [])

unfoldable pub add_entry : Text → Text → Text → Option Text → List Text → List Text
add_entry func_name soff eoff none entries = entries
add_entry func_name soff eoff (some addr) entries =
    entries ++ (span_line func_name (text "0x" ++ addr) soff eoff ∷ [])

module _ ⦃host : Host⦄ where
  unfoldable pub add_address : Text → Text → Text → List Text → Run (List Text)
  add_address func_name soff eoff entries = do
    addr ← ask (host.function_address func_name)
    pure (add_entry func_name soff eoff addr entries)

  -- The loop over the rows of a raw table.
  unfoldable pub add_cs_row : List Text → List Text → List Text → Run (List Text)
  add_cs_row const_ids (cid ∷ func_name ∷ soff ∷ eoff ∷ more) entries =
      if contains const_ids cid then add_address func_name soff eoff entries else pure entries
  add_cs_row const_ids _ entries = pure entries

  unfoldable pub collect_cs : List Text → List Row → List Text → Run (List Text)
  collect_cs const_ids [] entries = pure entries
  collect_cs const_ids (row ∷ rows) entries = do
    more ← add_cs_row const_ids (line_parts row) entries
    collect_cs const_ids rows more

  unfoldable pub write_cs : List Text → Run Bool
  write_cs [] = pure false
  write_cs (e ∷ es) = do set_cs_file (e ∷ es); pure true

  unfoldable pub generate_from : List Text → File → Run Bool
  generate_from const_ids none = pure false
  generate_from const_ids (some rows) = do
    set_cs_file []
    entries ← collect_cs const_ids (skip_header (some rows)) []
    write_cs entries

  unfoldable pub generate_cs_file : Text → Run Bool
  generate_cs_file const_ids_str = do
    raw ← gets (λ w. w.tables.cs_raw)
    generate_from (split b',' const_ids_str) raw

  -- The flag says that there is a row for the ConstIDs. A span of no width is passed over.
  unfoldable pub add_ss_row : List Text → List Text → Bool × List Text → Run (Bool × List Text)
  add_ss_row const_ids (cid ∷ func_name ∷ soff ∷ eoff ∷ more) (has_ss_raw, entries) =
      if contains const_ids cid
      then (if soff == eoff
          then pure (true, entries)
          else (add_address func_name soff eoff entries >>= λ es. pure (true, es)))
      else pure (has_ss_raw, entries)
  add_ss_row const_ids _ found = pure found

  unfoldable pub collect_ss : List Text → List Row → Bool × List Text → Run (Bool × List Text)
  collect_ss const_ids [] found = pure found
  collect_ss const_ids (row ∷ rows) found = do
    more ← add_ss_row const_ids (line_parts row) found
    collect_ss const_ids rows more

  unfoldable pub write_ss : List Text → Run Bool
  write_ss [] = pure false
  write_ss (e ∷ es) = do set_ss_file (e ∷ es); pure true

  -- Without rows for the ConstIDs the CS file is taken.
  unfoldable pub or_cs_file : Bool × List Text → Option (List Text) → List Text
  or_cs_file (false, []) cs_file = file_lines cs_file
  or_cs_file (has_ss_raw, entries) cs_file = entries

  unfoldable pub generate_ss_file : Text → Run Bool
  generate_ss_file const_ids_str = do
    set_ss_file []
    raw ← gets (λ w. w.tables.ss_raw)
    found ← collect_ss (split b',' const_ids_str) (skip_header raw) (false, [])
    cs_file ← gets (λ w. w.cs_file)
    write_ss (or_cs_file found cs_file)
