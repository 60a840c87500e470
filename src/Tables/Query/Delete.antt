-- ===== src/Tables/Query/Delete.antt =====
-- `delete_entries` deletes what `query_entries` shows, and the command line unloads it before.
use xkernel.Base.{◌≡◌, refl, sym, ◌∙◌, ap, Bool, true, false, not, ◌&&◌, ◌||◌, List, [], ◌∷◌}
use xkernel.Base.{Option, some, none, arith, Bool-cases, inl, inr, length, keep, keep_ext}
use xkernel.Base.{keep-keep-not, keep-not_all, ◌==◌, list_eq, nat_eq, if◌then◌else◌, All, map}
use xkernel.Base.Text.{Text, text, strip, lstrip, rstrip}
use xkernel.Tables.{Row, Tables}
use xkernel.Tables.Query.{ScopeEntry, Filter, given, differs, agrees, matches, should_delete}
use xkernel.Tables.Query.{scope_entries, entry_cells, optional_cell, resolve, write_scope_table}
use xkernel.Tables.Query.{query_entries, delete_matching, delete_present, delete_entries}
use xkernel.Tables.Query.{read_scope_table}
use xkernel.Base.Dict.{Dict}
use xkernel.Base.Int.{ℤ}
use xkernel.Base.Text.Trim.{strip-strip}
use xkernel.Tables.Scope.{skip_header}

abbrev pub any_given : Filter → Bool
any_given q = given q.const_id || given q.val || given q.status

-- A test that does not differ from a given filter agrees with it.
agrees-differs : (o : Option Text) (cell : Text) → differs o cell ≡ (given o && not (agrees o cell))
unfolding differs agrees given
agrees-differs none cell = refl
agrees-differs (some []) cell = refl
agrees-differs (some (c ∷ s)) cell = refl

agrees-given : (o : Option Text) (cell : Text) → agrees o cell ≡ true → given o ≡ true
unfolding agrees given
agrees-given none cell h = h
agrees-given (some []) cell h = h
agrees-given (some (c ∷ s)) cell h = refl

-- The six tests of a delete are the three tests of a query, if there is a filter.
pub should_delete-matches :
    (q : Filter) (e : ScopeEntry)
    → should_delete q e ≡ (matches q e.const_id e.val e.status && any_given q)
unfolding should_delete matches
should_delete-matches q e = ground (
  arith,
  agrees-differs q.const_id e.const_id,
  agrees-differs q.val e.val,
  agrees-differs q.status e.status,
  agrees-given q.const_id e.const_id,
  agrees-given q.val e.val,
  agrees-given q.status e.status,
)

module _ (cs_map ss_map : Dict ℤ Text) where
  -- An entry as `read_scope_table` makes it: stripped cells, and the texts that its indices stand for.
  record IsRead (e : ScopeEntry) : Type 0 where
    trimmed_id : strip e.const_id ≡ e.const_id
    trimmed_val : strip e.val ≡ e.val
    trimmed_expression : strip e.expression ≡ e.expression
    trimmed_cs : strip e.cs_index ≡ e.cs_index
    trimmed_ss : strip e.ss_index ≡ e.ss_index
    trimmed_file : strip e.bpf_file ≡ e.bpf_file
    trimmed_status : strip e.status ≡ e.status
    trimmed_candidates : strip e.candidates ≡ e.candidates
    resolved_cs : e.cs ≡ resolve (text "CS") e.cs_index cs_map
    resolved_ss : e.ss ≡ resolve (text "SS") e.ss_index ss_map

  optional_cell-trimmed : (more : Row) → strip (optional_cell more) ≡ optional_cell more
  unfolding optional_cell strip lstrip rstrip
  optional_cell-trimmed [] = refl
  optional_cell-trimmed (c ∷ more) = strip-strip c

  scope_entries-IsRead : (rows : List Row) → All IsRead (scope_entries cs_map ss_map rows)
  unfolding scope_entries
  scope_entries-IsRead [] = tt
  scope_entries-IsRead ((c0 ∷ c1 ∷ c2 ∷ c3 ∷ c4 ∷ c5 ∷ c6 ∷ more) ∷ rows) = (
    record {
      trimmed_id = strip-strip c0;
      trimmed_val = strip-strip c1;
      trimmed_expression = strip-strip c2;
      trimmed_cs = strip-strip c3;
      trimmed_ss = strip-strip c4;
      trimmed_file = strip-strip c5;
      trimmed_status = strip-strip c6;
      trimmed_candidates = optional_cell-trimmed more;
      resolved_cs = refl;
      resolved_ss = refl;
    },
    scope_entries-IsRead rows,
  )
  scope_entries-IsRead (_ ∷ rows) = scope_entries-IsRead rows

  reread :
      (es : List ScopeEntry) → All IsRead es → scope_entries cs_map ss_map (map entry_cells es) ≡ es
  unfolding scope_entries entry_cells optional_cell
  reread [] h = refl
  reread (e ∷ es) (r, h) = ground (arith, reread es h)

  All-keep : (p : ScopeEntry → Bool) (es : List ScopeEntry) → All IsRead es → All IsRead (keep p es)
  unfolding keep
  All-keep p [] h = tt
  All-keep p (e ∷ es) h = elim (Bool-cases (p e)) [
    | inl in' ↦ rw in' (h.0, All-keep p es h.1)
    | inr out ↦ rw out (All-keep p es h.1)
  ]

-- What is written back is read as it was: a rewrite of the scope table loses no entry that is kept.
pub read-write_scope_table :
    (p : ScopeEntry → Bool) (t : Tables)
    → let kept = keep p (read_scope_table t) in
      read_scope_table (record t { scope = write_scope_table kept }) ≡ kept
unfolding read_scope_table write_scope_table skip_header
read-write_scope_table p t =
    reread _ _ _ (All-keep _ _ p _ (scope_entries-IsRead _ _ (skip_header t.scope)))

-- Deleting the entries for which `p` holds, as `delete_matching` does it.
abbrev without : (ScopeEntry → Bool) → Tables → Tables
without p t =
    let entries = read_scope_table t in
    record t {
      scope =
          if 0 == length (keep p entries)
          then t.scope
          else write_scope_table (keep (λ e. not (p e)) entries);
    }

read-without :
    (p : ScopeEntry → Bool) (t : Tables)
    → read_scope_table (without p t) ≡ keep (λ e. not (p e)) (read_scope_table t)
read-without p t = elim (Bool-cases (0 == length (keep p (read_scope_table t)))) [
  | inl nothing ↦
      let none' : length (keep p (read_scope_table t)) ≡ 0 = ground arith in
      rw nothing (sym (keep-not_all p (read_scope_table t) none'))
  | inr some' ↦ rw some' (read-write_scope_table (λ e. not (p e)) t)
]

module _ (q : Filter) where
  deleted_present :
      (t : Tables) (rows : List Row)
      → t.scope ≡ some rows
      → delete_entries q false t
        ≡ (length (keep (should_delete q) (read_scope_table t)), without (should_delete q) t)
  unfolding delete_entries delete_present delete_matching
  deleted_present t rows exists = ap (delete_present q false t) exists

  module _ (filtered : any_given q ≡ true) where
    matching : (e : ScopeEntry) → should_delete q e ≡ matches q e.const_id e.val e.status
    matching e = ground (arith, should_delete-matches q e)

    matching_count :
        (t : Tables)
        → length (keep (should_delete q) (read_scope_table t)) ≡ length (query_entries q t)
    unfolding query_entries
    matching_count t = ap length (keep_ext _ _ matching (read_scope_table t))

    query-without : (t : Tables) → query_entries q (without (should_delete q) t) ≡ []
    unfolding query_entries
    query-without t =
        sym (keep_ext _ _ matching _)
        ∙ ap (keep (should_delete q)) (read-without (should_delete q) t)
        ∙ keep-keep-not (should_delete q) (read_scope_table t)

    read-without_matching :
        (t : Tables)
        → read_scope_table (without (should_delete q) t)
          ≡ keep (λ e. not (matches q e.const_id e.val e.status)) (read_scope_table t)
    read-without_matching t =
        read-without (should_delete q) t
        ∙ keep_ext _ _ (λ e. ap not (matching e)) (read_scope_table t)

-- With a scope table and a filter, a delete reports as many entries as a query shows, a second query shows
-- none, and the entries that the query did not show are still there, in order.
pub delete_entries-query :
    (q : Filter) (t : Tables) {rows : List Row}
    → t.scope ≡ some rows
    → any_given q ≡ true
    → let u = (delete_entries q false t).1 in
      ((delete_entries q false t).0 ≡ length (query_entries q t))
      × (query_entries q u ≡ [])
      × (read_scope_table u
          ≡ keep (λ e. not (matches q e.const_id e.val e.status)) (read_scope_table t))
delete_entries-query q t {rows} exists filtered =
    rw (deleted_present q t rows exists)
      (matching_count q filtered t, query-without q filtered t, read-without_matching q filtered t)
