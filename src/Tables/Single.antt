-- ===== src/Tables/Single.antt =====
-- `add_scope_table_entry` (src/codegen.py): the entry of a ConstID with a single critical span.
use xkernel.Base.{◌≡◌, ◌≢◌, refl, sym, ap, ◌∙◌, List, [], ◌∷◌, none, some, All, drop, Result, ok}
use xkernel.Base.{raised, ◌>>=◌, arith, list_eq, nat_eq}
use xkernel.Base.Int.{ℤ, int_eq}
use xkernel.Base.Dict.{Dict, lookup}
use xkernel.Base.Text.{Text, text, show_int, parse_int, parse_signed, strip, lstrip, rstrip}
use xkernel.Base.Text.Laws.{parse_int-show_int}
use xkernel.Tables.{File, Tables, HasHeader, body, init_all_tables, init_table, cs_table_header}
use xkernel.Tables.Index.{get_or_add_cs_index}
use xkernel.Tables.Index.Refines.{file_of}
use xkernel.Tables.Scope.{skip_header, Fields, new_row, enter_row, add_scope_table_entry_multi_cs}
use xkernel.Tables.Scope.Removal.{rows_of}
use xkernel.Tables.Scope.Entry.{IsFull, add_scope_table_entry_lem}
use xkernel.Tables.Query.{read_cs_table, read_rows, resolve}
use xkernel.Tables.Query.Resolve.{get_or_add-read_cs_table}

-- The fields of an entry with one CS index: no candidates.
unfoldable pub single_fields : ℤ → Text → ℤ → Text → Text → Fields
single_fields val expression cs_index bpf_file status = record {
  val = val;
  expression = expression;
  cs_indices = show_int 10 cs_index ∷ [];
  bpf_file = bpf_file;
  status = status;
  candidates = [];
}

unfoldable pub add_scope_table_entry : Text → ℤ → Text → Text → Text → Text → Tables → Result Tables
add_scope_table_entry id val expression cs_content bpf_file status t =
    get_or_add_cs_index cs_content t.cs >>= λ (cs_index, g).
    add_scope_table_entry_multi_cs id (single_fields val expression cs_index bpf_file status)
      (record t { cs = g })

-- The call for a ConstID leaves the CS table as it is.
cs-entered :
    (r : Result File) (u v : Tables) → (r >>= λ g. ok (record u { scope = g })) ≡ ok v → u.cs ≡ v.cs
cs-entered (ok g) u v e = let same : record u { scope = g } ≡ v = cc e in ap (λ w. w.cs) same
cs-entered (raised x) u v e = absurd (cc e)

parse_int-nil : (i : ℤ) → parse_int 10 [] ≢ some i
unfolding parse_int parse_signed strip lstrip rstrip
parse_int-nil i e = absurd (cc e)

resolve_found :
    (label cell s : Text) (i : ℤ) (d : Dict ℤ Text)
    → parse_int 10 cell ≡ some i
    → lookup i d ≡ some s
    → resolve label cell d ≡ s
unfolding resolve
resolve_found label [] s i d read found = absurd (parse_int-nil i read)
resolve_found label (c ∷ cell) s i d read found = rw (read, found, resolve) refl

cs-kept :
    (g : File) (i : ℤ) (s : Text) (t : Tables)
    → t.cs ≡ g
    → lookup i (read_cs_table g) ≡ some s
    → (init_all_tables t).cs ≡ t.cs
unfolding read_cs_table skip_header read_rows lookup init_all_tables init_table
cs-kept none i s t e found = absurd (cc found)
cs-kept (some rows) i s t e found = rw e refl

-- Where the CS table holds some texts and the scope table has a header and full rows for the
-- ConstID, the call succeeds, the ConstID's first row is the new one with a CS index, other ConstIDs
-- keep their rows, and the index is shown as the critical span that was given.
pub add_scope_table_entry-resolve :
    (id other expression cs_content bpf_file status label : Text) (val : ℤ) (cs : List Text)
    (t : Tables)
    → t.cs ≡ file_of (text "Index") (text "CS_Content" ∷ []) cs
    → other ≢ id
    → HasHeader t.scope
    → All (IsFull id) (body t.scope)
    → (u : Tables) × (index : ℤ) × (add_scope_table_entry id val expression cs_content bpf_file
          status t
        ≡ ok u)
      × (rows_of id u.scope
          ≡ new_row id (single_fields val expression index bpf_file status)
            ∷ drop 1 (rows_of id t.scope))
      × (rows_of other u.scope ≡ rows_of other t.scope)
      × (resolve label (show_int 10 index) (read_cs_table u.cs) ≡ cs_content)
unfolding add_scope_table_entry get_or_add_cs_index cs_table_header add_scope_table_entry_multi_cs
add_scope_table_entry-resolve id other expression cs_content bpf_file status label val cs t e ne h
      full =
    let (i, g, indexed, found) =
      get_or_add-read_cs_table (text "Index") (text "CS_Content" ∷ []) cs_content cs in
    let f = single_fields val expression i bpf_file status in
    let t1 = record t { cs = g } in
    let (u, entered, mine, others) = add_scope_table_entry_lem id other f t1 ne h full in
    let kept : (init_all_tables t1).cs ≡ g = cs-kept g i cs_content t1 refl found in
    let same : g ≡ u.cs =
      sym kept
      ∙ cs-entered (enter_row id f (init_all_tables t1).scope) (init_all_tables t1) u entered in
    (
      u,
      i,
      rw (e, indexed) entered,
      mine,
      others,
      resolve_found label (show_int 10 i) cs_content i (read_cs_table u.cs)
          (parse_int-show_int 10 (omega arith) (omega arith) i) (rw (sym same) found),
    )
