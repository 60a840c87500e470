-- ===== src/Tables/Query/Affected.antt =====
-- The command line unloads, before a delete, every ConstID of which the delete takes a row away.
use xkernel.Base.{◌≡◌, refl, ◌∙◌, Bool, true, false, not, ◌&&◌, ◌||◌, List, [], ◌∷◌, ◌++◌, some}
use xkernel.Base.{none, arith, Bool-cases, inl, inr, keep, contains, list_eq, nat_eq, beq_refl}
use xkernel.Base.Text.{Text, strip}
use xkernel.Base.Dict.{Dict}
use xkernel.Base.Int.{ℤ}
use xkernel.Tables.{HasHeader, Row, File, Tables}
use xkernel.Tables.Query.{ScopeEntry, Filter, should_delete, scope_entries, is_affected}
use xkernel.Tables.Query.{first_cell, collect, collect_constids_to_delete, read_scope_table}
use xkernel.Tables.Query.{read_cs_table, read_ss_table}
use xkernel.Tables.Query.Delete.{should_delete-matches}
use xkernel.Tables.Scope.{skip_header}

contains-append_left :
    (xs : List Text) (a b : Text) → contains xs a ≡ true → contains (xs ++ (b ∷ [])) a ≡ true
unfolding contains
contains-append_left [] a b h = cc
contains-append_left (x ∷ xs) a b h = ground (arith, contains-append_left xs a b)

contains-append_self : (xs : List Text) (a : Text) → contains (xs ++ (a ∷ [])) a ≡ true
unfolding contains
contains-append_self [] a = rw (beq_refl a) refl
contains-append_self (x ∷ xs) a = rw (contains-append_self xs a) (ground arith)

keep-cons_false :
    (p : ScopeEntry → Bool) (e : ScopeEntry) (es : List ScopeEntry)
    → p e ≡ false
    → keep p (e ∷ es) ≡ keep p es
unfolding keep
keep-cons_false p e es h = rw h refl

module _ (q : Filter) (da : Bool) where
  collect-keeps :
      (rows : List Row) (ids : List Text) (a : Text)
      → contains ids a ≡ true
      → contains (collect q da rows ids) a ≡ true
  unfolding collect
  collect-keeps [] ids a h = h
  collect-keeps (row ∷ rows) ids a h =
      collect-keeps rows _ a (ground (arith, contains-append_left ids a (first_cell row)))

  collect-cons :
      (row : Row) (rows : List Row) (ids : List Text)
      → is_affected q da row ≡ true
      → contains (collect q da (row ∷ rows) ids) (first_cell row) ≡ true
  unfolding collect
  collect-cons row rows ids h =
      collect-keeps rows _ _ (rw h (ground (arith, contains-append_self ids (first_cell row))))

  -- The entry is deleted, but its ConstID is not among those to unload.
  abbrev pub escapes : List Text → ScopeEntry → Bool
  escapes ids e = (da || should_delete q e) && not (contains ids e.const_id)

  module _ (c0 c1 c2 c3 c4 c5 c6 : Text) (more : Row) where
    abbrev long_row : Row
    long_row = c0 ∷ c1 ∷ c2 ∷ c3 ∷ c4 ∷ c5 ∷ c6 ∷ more

    long_row-affected :
        (e : ScopeEntry)
        → e.const_id ≡ strip c0
        → e.val ≡ strip c1
        → e.status ≡ strip c6
        → is_affected q da long_row ≡ (da || should_delete q e)
    unfolding is_affected
    long_row-affected e e0 e1 e6 = rw (should_delete-matches, e0, e1, e6) (ground arith)

    long_row-unloaded :
        (e : ScopeEntry) (rows : List Row) (ids : List Text)
        → e.const_id ≡ strip c0
        → e.val ≡ strip c1
        → e.status ≡ strip c6
        → escapes (collect q da (long_row ∷ rows) ids) e ≡ false
    long_row-unloaded e rows ids e0 e1 e6 = elim (Bool-cases (da || should_delete q e)) [
      | inl deleted ↦
          let listed = collect-cons long_row rows ids (long_row-affected e e0 e1 e6 ∙ deleted) in
          rw (deleted, e0) (cell listed)
      | inr kept ↦ rw kept refl
    ]
      where
        cell :
            contains (collect q da (long_row ∷ rows) ids) (first_cell long_row) ≡ true
            → not (contains (collect q da (long_row ∷ rows) ids) (strip c0)) ≡ false
        cell h = unfold first_cell in rw h refl

  collect-covers :
      (cs_map ss_map : Dict ℤ Text) (rows : List Row) (ids : List Text)
      → keep (escapes (collect q da rows ids)) (scope_entries cs_map ss_map rows) ≡ []
  unfolding scope_entries collect keep
  collect-covers cs_map ss_map [] ids = refl
  collect-covers cs_map ss_map ((c0 ∷ c1 ∷ c2 ∷ c3 ∷ c4 ∷ c5 ∷ c6 ∷ more) ∷ rows) ids =
      keep-cons_false (escapes _) _ _
        (long_row-unloaded c0 c1 c2 c3 c4 c5 c6 more _ rows ids refl refl refl)
      ∙ collect-covers cs_map ss_map rows _
  collect-covers cs_map ss_map (row ∷ rows) ids = collect-covers cs_map ss_map rows _

at_file :
    (q : Filter) (da : Bool) (cs_map ss_map : Dict ℤ Text) (f : File)
    → HasHeader f
    → keep
        (escapes q da (collect_constids_to_delete q da f))
        (scope_entries cs_map ss_map (skip_header f))
      ≡ []
unfolding collect_constids_to_delete skip_header scope_entries keep
at_file q da cs_map ss_map none h = refl
at_file q da cs_map ss_map (some []) h = absurd h
at_file q da cs_map ss_map (some ([] ∷ rows)) h = absurd h
at_file q da cs_map ss_map (some ((c ∷ cs) ∷ rows)) h = collect-covers q da cs_map ss_map rows []

-- Of the entries that the delete takes away (all of them, or those of the filter) none has a ConstID
-- that the command line does not unload before, in a scope table with a header.
pub collect_constids-covers-delete :
    (q : Filter) (da : Bool) (t : Tables)
    → HasHeader t.scope
    → keep (escapes q da (collect_constids_to_delete q da t.scope)) (read_scope_table t) ≡ []
unfolding read_scope_table
collect_constids-covers-delete q da t h =
    at_file q da (read_cs_table t.cs) (read_ss_table t.ss) t.scope h
