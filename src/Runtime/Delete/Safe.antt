-- ===== src/Runtime/Delete/Safe.antt =====
-- The runtime state after what `table delete` does first (src/cli.py, src/table.py).
use xkernel.Base.{ℕ, ◌≡◌, refl, arith, Bool, true, false, ◌&&◌, list_eq, nat_eq, beq_refl, List}
use xkernel.Base.{[], ◌∷◌, keep, Option, none, if◌then◌else◌, contains}
use xkernel.Base.Dict.{Dict, lookup, has, NodupKeys}
use xkernel.Base.Text.{Text, text}
use xkernel.Tables.{HasHeader}
use xkernel.Tables.Query.{Filter, ScopeEntry, should_delete, read_scope_table}
use xkernel.Tables.Query.{collect_constids_to_delete}
use xkernel.Tables.Query.Affected.{escapes, collect_constids-covers-delete}
use xkernel.Runtime.{Host, World, Command, Active, Outcome, returned, raised, exited, state_of}
use xkernel.Runtime.{gets, pure, ◌>>=◌, continue}
use xkernel.Runtime.Ensures.{EndsIn}
use xkernel.Runtime.Stop.{unload_active_constids}
use xkernel.Runtime.Stop.Entries.{entry}
use xkernel.Runtime.Stop.Affected.{unload_active_constids-entries}
use xkernel.Runtime.Delete.{parse_filter, no_value, no_filter, affected_by, unload_some}
use xkernel.Runtime.Delete.{before_delete}

-- An entry that the delete takes away, of a ConstID that the runtime state has.
abbrev pub is_lost : Filter → Bool → Dict Text Active → ScopeEntry → Bool
is_lost q delete_all active e =
    (if delete_all then true else should_delete q e) && has e.const_id active

module _ ⦃host : Host⦄
    (works : (cid : Text) (k : host.K) → (host.command (Command.remove_pins cid) k).0 ≡ true) where
  unload_some-entries :
      (ids : List Text) (other : Text) (w : World)
      → NodupKeys (state_of w.runtime).active_const_ids
      → EndsIn
          (λ u. ⊥)
          (λ n u. entry other u ≡ (if contains ids other then none else entry other w))
          (unload_some ids w)
  unfolding unload_some contains ◌>>=◌ continue pure
  unload_some-entries [] other w nd = refl
  unload_some-entries (cid ∷ cids) other w nd =
      by_outcome (unload_active_constids (cid ∷ cids) w)
        (unload_active_constids-entries works (cid ∷ cids) other w nd)
    where
      by_outcome :
          (r : Outcome ℕ × World)
          → EndsIn
              (λ u. ⊥)
              (λ n u. entry other u ≡ (if contains (cid ∷ cids) other then none else entry other w))
              r
          → EndsIn
              (λ u. ⊥)
              (λ n u. entry other u ≡ (if contains (cid ∷ cids) other then none else entry other w))
              (continue r.0 (λ n. pure tt) r.1)
      by_outcome (returned n, v) h = h
      by_outcome (raised e, v) h = h
      by_outcome (exited, v) h = h

keep-nothing :
    (p q : ScopeEntry → Bool) (es : List ScopeEntry)
    → ((e : ScopeEntry) → p e ≡ true → q e ≡ true)
    → keep q es ≡ []
    → keep p es ≡ []
unfolding keep
keep-nothing p q [] h k = refl
keep-nothing p q (e ∷ es) h k = by_test (q e) refl k (keep-nothing p q es h)
  where
    by_test :
        (b : Bool)
        → q e ≡ b
        → (if b then e ∷ keep q es else keep q es) ≡ []
        → (keep q es ≡ [] → keep p es ≡ [])
        → (if p e then e ∷ keep p es else keep p es) ≡ []
    by_test true f k ih = cc
    by_test false f k ih = ground (arith, h e, ih k)

-- An entry that is lost would have escaped the unloading.
lost-escapes :
    (q : Filter) (da : Bool) (ids : List Text) (active : Dict Text Active) (o : Option Active)
    (e : ScopeEntry)
    → lookup e.const_id active ≡ (if contains ids e.const_id then none else o)
    → is_lost q da active e ≡ true
    → escapes q da ids e ≡ true
unfolding has
lost-escapes q da ids active o e h l = ground (arith, h, l)

module _ ⦃host : Host⦄
    (works : (cid : Text) (k : host.K) → (host.command (Command.remove_pins cid) k).0 ≡ true) where
  -- Where pins can be removed and the scope table has its header, what `table delete` does before it
  -- changes the tables returns, and every entry that the filter of its arguments, as the command line
  -- reads them, takes away has a ConstID that the runtime state no longer has.
  pub before_delete-is_lost :
      (args : List Text) (w : World)
      → NodupKeys (state_of w.runtime).active_const_ids
      → HasHeader w.tables.scope
      → EndsIn
          (λ u. ⊥)
          (λ a u.
            keep
              (is_lost
                (parse_filter no_value args no_filter)
                (contains args (text "--all"))
                (state_of u.runtime).active_const_ids)
              (read_scope_table w.tables)
            ≡ [])
          (before_delete (text "delete" ∷ args) w)
  unfolding before_delete gets ◌>>=◌ continue affected_by
  before_delete-is_lost args w nd hh =
      rw (beq_refl (text "delete"))
        (by_outcome (unload_some ids w) (λ other. unload_some-entries works ids other w nd))
    where
      q : Filter
      q = parse_filter no_value args no_filter

      da : Bool
      da = contains args (text "--all")

      ids : List Text
      ids = collect_constids_to_delete q da w.tables.scope

      by_outcome :
          (r : Outcome Unit × World)
          → ((other : Text)
              → EndsIn
                  (λ u. ⊥)
                  (λ n u. entry other u ≡ (if contains ids other then none else entry other w))
                  r)
          → EndsIn
              (λ u. ⊥)
              (λ a u.
                keep
                  (is_lost q da (state_of u.runtime).active_const_ids)
                  (read_scope_table w.tables)
                ≡ [])
              r
      by_outcome (returned n, v) h =
          keep-nothing _ _ (read_scope_table w.tables)
            (λ e.
              lost-escapes q da ids (state_of v.runtime).active_const_ids (entry e.const_id w) e
                (h e.const_id))
            (collect_constids-covers-delete q da w.tables hh)
      by_outcome (raised e, v) h = h []
      by_outcome (exited, v) h = h []
