-- ===== src/Runtime/Load/Programs.antt =====
-- What the guards, the modules and the loading of programs leave as it is.
use xkernel.Base.{ℕ, Bool, true, false, List, [], ◌∷◌, Option, some, none}
use xkernel.Base.Int.{ℤ}
use xkernel.Base.Text.{Text}
use xkernel.Tables.{Tables}
use xkernel.Runtime.{Host, Command, State, Run, pure}
use xkernel.Runtime.Keeps.{Keeps, On, keeps_rules, Keeps-update, Keeps-pure, Keeps-bind}
use xkernel.Runtime.Keeps.{Keeps-ask}
use xkernel.Runtime.Maps.{snapshot_map_ids, resolve_map_names}
use xkernel.Runtime.Unload.Kept.{Keeps-set_bss_variable, Keeps-is_kfuncs_loaded}
use xkernel.Runtime.Stop.Kept.{Flagged}
use xkernel.Runtime.Load.{write_guards, generate_cs_artifact, mark_kfuncs, after_insmod}
use xkernel.Runtime.Load.{insmod_kfuncs, built, insert_kfuncs, ensure_kfuncs_loaded}
use xkernel.Runtime.Load.{load_existing, and_then, load_files, attached}
use xkernel.Runtime.Load.{load_and_attach_per_constid}

module _ ⦃host : Host⦄ {Q : Option State → Tables → Type 0} where
  Keeps-write_guards : (o : Option (List (Text × ℤ × ℤ))) → Keeps (On Q) (write_guards o)
  unfolding write_guards
  Keeps-write_guards none = search keeps_rules
  Keeps-write_guards (some guards) = search keeps_rules

  pub Keeps-generate_cs_artifact : (b : Bool) → Keeps (On Q) (generate_cs_artifact b)
  unfolding generate_cs_artifact
  Keeps-generate_cs_artifact false = search keeps_rules
  Keeps-generate_cs_artifact true = search (keeps_rules, Keeps-write_guards)

  pub Keeps-built :
      (exists : host.K → Bool × host.K) (c : Command) (b : Bool) → Keeps (On Q) (built exists c b)
  unfolding built
  Keeps-built exists c true = search keeps_rules
  Keeps-built exists c false = search keeps_rules

  Keeps-after_insmod : Flagged Q → (b : Bool) → Keeps (On Q) (after_insmod b)
  unfolding after_insmod mark_kfuncs
  Keeps-after_insmod f false = search keeps_rules
  Keeps-after_insmod f true = Keeps-update _ (pure true) (f true) (Keeps-pure true)

  Keeps-insmod_kfuncs : Flagged Q → (b : Bool) → Keeps (On Q) (insmod_kfuncs b)
  unfolding insmod_kfuncs
  Keeps-insmod_kfuncs f false = search keeps_rules
  Keeps-insmod_kfuncs f true = search (keeps_rules, Keeps-after_insmod)

  Keeps-insert_kfuncs : Flagged Q → (b : Bool) → Keeps (On Q) (insert_kfuncs b)
  unfolding insert_kfuncs
  Keeps-insert_kfuncs f true = search keeps_rules
  Keeps-insert_kfuncs f false = search (keeps_rules, Keeps-built, Keeps-insmod_kfuncs)

  pub Keeps-ensure_kfuncs : Flagged Q → Keeps (On Q) ensure_kfuncs_loaded
  unfolding ensure_kfuncs_loaded
  Keeps-ensure_kfuncs f = search (keeps_rules, Keeps-is_kfuncs_loaded, Keeps-insert_kfuncs)

  Keeps-load_existing : (cid file : Text) (b : Bool) → Keeps (On Q) (load_existing cid file b)
  unfolding load_existing
  Keeps-load_existing cid file false = search keeps_rules
  Keeps-load_existing cid file true = search keeps_rules

  Keeps-and_then : (b : Bool) (m : Run Bool) → Keeps (On Q) m → Keeps (On Q) (and_then b m)
  unfolding and_then
  Keeps-and_then false m k = search keeps_rules
  Keeps-and_then true m k = k

  Keeps-load_files : (cid : Text) (files : List Text) → Keeps (On Q) (load_files cid files)
  unfolding load_files
  Keeps-load_files cid [] = search keeps_rules
  Keeps-load_files cid (f ∷ files) = Keeps-bind _ _ (Keeps-ask _) (λ there.
      Keeps-bind _ _ (Keeps-load_existing cid f there)
        (λ loaded. Keeps-and_then loaded _ (Keeps-load_files cid files)))

  Keeps-snapshot : Keeps (On Q) snapshot_map_ids
  unfolding snapshot_map_ids
  Keeps-snapshot = search keeps_rules

  Keeps-resolve_map_names : (ids : List ℕ) → Keeps (On Q) (resolve_map_names ids)
  unfolding resolve_map_names
  Keeps-resolve_map_names [] = search keeps_rules
  Keeps-resolve_map_names (i ∷ ids) = search keeps_rules

  Keeps-attached : (mode : ℕ) (before : List ℕ) (b : Bool) → Keeps (On Q) (attached mode before b)
  unfolding attached
  Keeps-attached mode before false = search keeps_rules
  Keeps-attached mode before true =
      search (keeps_rules, Keeps-snapshot, Keeps-resolve_map_names, Keeps-set_bss_variable) depth 9

  pub Keeps-load_and_attach :
      (files : List Text) (cid : Text) (mode : ℕ)
      → Keeps (On Q) (load_and_attach_per_constid files cid mode)
  unfolding load_and_attach_per_constid
  Keeps-load_and_attach files cid mode =
      search (keeps_rules, Keeps-snapshot, Keeps-load_files, Keeps-attached)
