-- ===== src/Runtime/Stop/Kept.antt =====
-- What the command `unload` leaves as it is, and what it forgets.
use xkernel.Base.{ℕ, zero, suc, ◌≡◌, refl, sym, arith, list_beq_iff, beq_refl, Bool, true, false}
use xkernel.Base.{list_eq, nat_eq, List, [], ◌∷◌, Option, some, none, if◌then◌else◌, contains}
use xkernel.Base.{◌==◌}
use xkernel.Base.Dict.{Dict, lookup, erase, NodupKeys, lookup-erase, lookup-erase_ne}
use xkernel.Base.Dict.{erase-NodupKeys}
use xkernel.Base.Text.{Text}
use xkernel.Tables.{Tables}
use xkernel.Runtime.{Host, Active, State, Run, state_of, pure, set_tables}
use xkernel.Runtime.Keeps.{Keeps, On, keeps_rules, Keeps-update, Keeps-pure, Keeps-bind}
use xkernel.Runtime.Keeps.{Keeps-give}
use xkernel.Runtime.Ensures.{Ensures, Ensures-bind, Ensures-Keeps, Ensures-pure, Ensures-value}
use xkernel.Runtime.Unload.Kept.{Stable, Keeps-reverse_transition, Keeps-is_kfuncs_loaded}
use xkernel.Runtime.Stop.{cleanup_bpf_pins, forget_kfuncs, try_again, after_attempt}
use xkernel.Runtime.Stop.{attempt_rmmod, unload_kfuncs_module, unload_kfuncs_if_loaded}
use xkernel.Runtime.Stop.{mark_status, unload_one, unload_each}

-- The dictionary without the keys of a list.
abbrev pub without : List Text → Dict Text Active → Dict Text Active
without [] active = active
without (cid ∷ args) active = without args (erase cid active)

erase-absent : (k : Text) (d : Dict Text Active) → lookup k d ≡ none → erase k d ≡ d
unfolding lookup erase
erase-absent k [] h = refl
erase-absent k ((j, a) ∷ d) h = ground (arith, erase-absent k d)

lookup-erase_if :
    (k j : Text) (d : Dict Text Active)
    → NodupKeys d
    → lookup j (erase k d) ≡ (if j == k then none else lookup j d)
lookup-erase_if k j d h =
    ground (arith, list_beq_iff j k, lookup-erase k d h, lookup-erase_ne k j d)

pub lookup-without :
    (args : List Text) (other : Text) (active : Dict Text Active)
    → NodupKeys active
    → lookup other (without args active)
      ≡ (if contains args other then none else lookup other active)
unfolding contains
lookup-without [] other active h = refl
lookup-without (cid ∷ args) other active h = ground (
  arith,
  lookup-without args other (erase cid active) (erase-NodupKeys cid active h),
  lookup-erase_if cid other active h,
)

-- The flag of the module is all that its removal changes.
abbrev pub Flagged : (Option State → Tables → Type 0) → Type 0
Flagged Q =
    (b : Bool) (r : Option State) (t : Tables)
    → Q r t
    → Q (some (record (state_of r) { kfuncs_loaded = b })) t

-- The tables do not matter.
abbrev pub Tabled : (Option State → Tables → Type 0) → Type 0
Tabled Q = (r : Option State) (t t' : Tables) → Q r t → Q r t'

module _ ⦃host : Host⦄ {Q : Option State → Tables → Type 0} where
  pub Keeps-cleanup : Keeps (On Q) cleanup_bpf_pins
  unfolding cleanup_bpf_pins
  Keeps-cleanup = search keeps_rules

  Keeps-try_again : (n : ℕ) (m : Run Bool) → Keeps (On Q) m → Keeps (On Q) (try_again n m)
  unfolding try_again
  Keeps-try_again zero m k = search keeps_rules
  Keeps-try_again (suc n) m k = search keeps_rules

  Keeps-after_attempt :
      Flagged Q
      → (n : ℕ) (b : Bool) (m : Run Bool) → Keeps (On Q) m
      → Keeps (On Q) (after_attempt n b m)
  unfolding after_attempt forget_kfuncs
  Keeps-after_attempt f n true m k = Keeps-update _ (pure true) (f false) (Keeps-pure true)
  Keeps-after_attempt f n false m k = search Keeps-try_again

  Keeps-attempt_rmmod : Flagged Q → (n : ℕ) → Keeps (On Q) (attempt_rmmod n)
  unfolding attempt_rmmod
  Keeps-attempt_rmmod f zero = search keeps_rules
  Keeps-attempt_rmmod f (suc n) =
      Keeps-bind _ _ (Keeps-give _) (λ b. Keeps-after_attempt f n b _ (Keeps-attempt_rmmod f n))

  pub Keeps-unload_kfuncs : Flagged Q → Keeps (On Q) unload_kfuncs_if_loaded
  unfolding unload_kfuncs_if_loaded unload_kfuncs_module
  Keeps-unload_kfuncs f = search (keeps_rules, Keeps-is_kfuncs_loaded, Keeps-attempt_rmmod)

  pub Keeps-mark_status : Tabled Q → (cid status : Text) → Keeps (On Q) (mark_status cid status)
  unfolding mark_status set_tables
  Keeps-mark_status f cid status = record {
    at = λ w h. record { holds = f w.runtime w.tables _ h.holds };
  }

  Gives-unload_one :
      Tabled Q
      → (cid : Text) (o : Option Active) (active : Dict Text Active) → o ≡ lookup cid active
      → Stable Q cid
      → Ensures
          (On Q)
          (On Q)
          (unload_one cid o active)
          (λ left w. (left ≡ erase cid active) × On Q w)
  unfolding unload_one
  Gives-unload_one f cid none active e s =
      Ensures-pure active (λ w h. (sym (erase-absent cid active (sym e)), h))
  Gives-unload_one f cid (some info) active e s =
      Ensures-bind _ _ (Ensures-Keeps (Keeps-reverse_transition s info)) (λ b.
        Ensures-bind _ _ (Ensures-Keeps (Keeps-mark_status f cid _))
          (λ u. Ensures-pure (erase cid active) (λ w h. (refl, h))))

  pub Gives-unload_each :
      Tabled Q
      → (args : List Text) (active : Dict Text Active)
      → ((cid : Text) → contains args cid ≡ true → Stable Q cid)
      → Ensures
          (On Q)
          (On Q)
          (unload_each args active)
          (λ left w. (left ≡ without args active) × On Q w)
  unfolding unload_each contains
  Gives-unload_each f [] active s = Ensures-pure active (λ w h. (refl, h))
  Gives-unload_each f (cid ∷ args) active s =
      Ensures-value (erase cid active) _ _
        (Gives-unload_one f cid (lookup cid active) active refl (s cid (rw (beq_refl cid) refl)))
        (Gives-unload_each f args (erase cid active) (λ c e. s c (ground (arith, e))))
