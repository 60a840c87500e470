-- ===== src/Runtime/Stop/Entries.antt =====
-- The entries of the runtime state after the command `unload` (src/cli.py).
use xkernel.Base.{◌≡◌, ◌≢◌, refl, sym, subst, ap, ◌∙◌, Bool, true, false, list_eq, nat_eq, List}
use xkernel.Base.{Option, some, none, if◌then◌else◌, contains}
use xkernel.Base.Dict.{lookup, NodupKeys, lookup-erase_ne}
use xkernel.Base.Text.{Text}
use xkernel.Tables.{Tables}
use xkernel.Runtime.{Outcome, returned, raised, exited, Host, World, Active, State, state_of}
use xkernel.Runtime.{when, get_runtime_state, set_runtime, ◌>>◌}
use xkernel.Runtime.Keeps.{Keeps, On, keeps_rules}
use xkernel.Runtime.Ensures.{Ensures, EndsIn, Ensures-bind, Ensures-Keeps, Ensures-gets}
use xkernel.Runtime.Ensures.{Ensures-value, Ensures-failing}
use xkernel.Runtime.Unload.Kept.{Stable}
use xkernel.Runtime.Stop.{cleanup_bpf_pins, unload_kfuncs_if_loaded, cmd_unload_some}
use xkernel.Runtime.Stop.Kept.{without, lookup-without, Flagged, Tabled, Keeps-cleanup}
use xkernel.Runtime.Stop.Kept.{Keeps-unload_kfuncs, Gives-unload_each}

-- The entry of a ConstID in the runtime state.
abbrev pub EntryIs : Text → Option Active → Option State → Tables → Type 0
EntryIs cid x r t = lookup cid (state_of r).active_const_ids ≡ x

pub EntryIs-Flagged : (cid : Text) (x : Option Active) → Flagged (EntryIs cid x)
unfolding state_of
EntryIs-Flagged cid x b r t h = h

pub EntryIs-Stable :
    (other cid : Text) (x : Option Active) → other ≢ cid → Stable (EntryIs other x) cid
unfolding state_of
EntryIs-Stable other cid x ne = record {
  flagged = EntryIs-Flagged other x;
  erased = λ r t h. lookup-erase_ne cid other (state_of r).active_const_ids ne ∙ h;
}

-- What the command leaves of an entry: nothing of a ConstID that is named, all of another. Where it
-- does not return, an entry that is not named is left.
abbrev pub Left : Text → Option Active → Bool → Option State → Tables → Type 0
Left other x true r t = Unit
Left other x false r t = EntryIs other x r t

Left-Stable :
    (args : List Text) (other : Text) (x : Option Active) (b : Bool)
    → contains args other ≡ b
    → (cid : Text) → contains args cid ≡ true
    → Stable (Left other x b) cid
Left-Stable args other x true e cid m = record { flagged = λ b r t h. tt; erased = λ r t h. tt }
Left-Stable args other x false e cid m =
    EntryIs-Stable other cid x (λ p. let q = ap (contains args) p in cc)

Left-Tabled : (other : Text) (x : Option Active) (b : Bool) → Tabled (Left other x b)
Left-Tabled other x true r t t' h = tt
Left-Tabled other x false r t t' h = h

module _ ⦃host : Host⦄ where
  -- The entry of a ConstID in a world.
  abbrev pub entry : Text → World → Option Active
  entry cid w = lookup cid (state_of w.runtime).active_const_ids

  Keeps-rest :
      {Q : Option State → Tables → Type 0} (b : Bool)
      → Flagged Q
      → Keeps (On Q) (when b (cleanup_bpf_pins >> unload_kfuncs_if_loaded))
  Keeps-rest b f = search (keeps_rules, Keeps-cleanup, Keeps-unload_kfuncs)

  Gives-set_runtime :
      {P : World → Type 0} {Q : Option State → Tables → Type 0} {F : World → Type 0} (s : State)
      → ((t : Tables) → Q (some s) t)
      → Ensures P F (set_runtime s) (λ u. On Q)
  unfolding set_runtime
  Gives-set_runtime s h = record { at = λ w p. record { holds = h w.tables } }

  EntryIs-Left :
      (other : Text) (x : Option Active) (b : Bool) (w : World)
      → On (EntryIs other (if b then none else x)) w
      → On (Left other x b) w
  EntryIs-Left other x true w h = record { holds = tt }
  EntryIs-Left other x false w h = record { holds = h.holds }

  cmd_unload_some-On :
      (args : List Text) (other : Text) (b : Bool) (w : World)
      → contains args other ≡ b
      → NodupKeys (state_of w.runtime).active_const_ids
      → On (Left other (entry other w) b) w
      → Ensures
          (λ v. v ≡ w)
          (On (Left other (entry other w) b))
          (cmd_unload_some args)
          (λ u. On (EntryIs other (if b then none else entry other w)))
  unfolding cmd_unload_some get_runtime_state state_of
  cmd_unload_some-On args other b w e nd start =
      let active = (state_of w.runtime).active_const_ids in
      Ensures-value (state_of w.runtime) _ _
        (Ensures-gets _ (λ v h. (
          ap (λ (u : World). state_of u.runtime) h,
          subst (On (Left other (entry other w) b)) (sym h) start,
        )))
        (Ensures-value (without args active) _ _
          (Gives-unload_each (Left-Tabled other _ b) args active (Left-Stable args other _ b e))
          (Ensures-bind _ _
            (Gives-set_runtime _ (λ t.
              lookup-without args other active nd
              ∙ ap (λ c. if c then none else lookup other active) e))
            (λ u.
              Ensures-failing (EntryIs-Left other _ b)
                (Ensures-Keeps (Keeps-rest _ (EntryIs-Flagged other _))))))

  finish :
      (args : List Text) (other : Text) (b : Bool) (w : World) (r : Outcome Unit) (v : World)
      → contains args other ≡ b
      → EndsIn
          (On (Left other (entry other w) b))
          (λ u. On (EntryIs other (if b then none else entry other w)))
          (r, v)
      → EndsIn
          (λ u. contains args other ≡ false → entry other u ≡ entry other w)
          (λ a u. entry other u ≡ (if contains args other then none else entry other w))
          (r, v)
  finish args other b w (returned a) v e h = rw e h.holds
  finish args other true w (raised x) v e h = λ f. cc
  finish args other false w (raised x) v e h = λ f. h.holds
  finish args other true w exited v e h = λ f. cc
  finish args other false w exited v e h = λ f. h.holds

  Left-start : (other : Text) (b : Bool) (w : World) → On (Left other (entry other w) b) w
  Left-start other true w = record { holds = tt }
  Left-start other false w = record { holds = refl }

  -- Where the command `unload` of some ConstIDs returns, the entries of these are gone from the
  -- runtime state and those of all others are as before, whatever the outside answers, also where
  -- the pins of a ConstID could not be removed. Where it does not return, the entries of the
  -- others are as before.
  pub cmd_unload_some-entries :
      (args : List Text) (other : Text) (w : World)
      → NodupKeys (state_of w.runtime).active_const_ids
      → EndsIn
          (λ v. contains args other ≡ false → entry other v ≡ entry other w)
          (λ u v. entry other v ≡ (if contains args other then none else entry other w))
          (cmd_unload_some args w)
  cmd_unload_some-entries args other w nd =
      let b = contains args other in
      let (r, v) = cmd_unload_some args w in
      finish args other b w r v refl
        ((cmd_unload_some-On args other b w refl nd (Left-start other b w)).at w refl)
