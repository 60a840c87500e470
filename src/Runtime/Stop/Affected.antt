-- ===== src/Runtime/Stop/Affected.antt =====
-- The entries of the runtime state after the unloading before `table delete` (src/cli.py).
use xkernel.Base.{ℕ, ◌≡◌, refl, sym, subst, ap, ◌∙◌, arith, Bool, true, false, list_eq, nat_eq}
use xkernel.Base.{list_beq_iff, List, [], ◌∷◌, Option, some, none, if◌then◌else◌, contains, ◌==◌}
use xkernel.Base.{Bool-cases, inl, inr, ◌⊎◌}
use xkernel.Base.Dict.{Dict, lookup, has, erase, NodupKeys, lookup-erase, lookup-erase_ne}
use xkernel.Base.Dict.{erase-NodupKeys}
use xkernel.Base.Text.{Text, text}
use xkernel.Tables.{Tables}
use xkernel.Tables.Index.{text_lt}
use xkernel.Runtime.{Host, World, Command, Active, State, state_of, pure, give, get_runtime_state}
use xkernel.Runtime.{set_runtime, gets, set_tables, ◌>>=◌, continue}
use xkernel.Runtime.Keeps.{On}
use xkernel.Runtime.Ensures.{Ensures, EndsIn, Ensures-bind, Ensures-pure, Ensures-gets}
use xkernel.Runtime.Ensures.{Ensures-value, Ensures-returning}
use xkernel.Runtime.Unload.{forget, unload_constid, unload_removed}
use xkernel.Runtime.Stop.{insert_text, sort_texts, mark_status, unload_affected, unload_sorted}
use xkernel.Runtime.Stop.{unload_active_constids}
use xkernel.Runtime.Stop.Kept.{Keeps-mark_status}
use xkernel.Runtime.Stop.Entries.{entry}

insert_text-contains :
    (s : Text) (l : List Text) (x : Text) → contains (insert_text s l) x ≡ contains (s ∷ l) x
unfolding insert_text contains
insert_text-contains s [] x = refl
insert_text-contains s (t ∷ l) x = by_test (text_lt t s) (insert_text-contains s l x)
  where
    by_test :
        (b : Bool)
        → contains (insert_text s l) x ≡ contains (s ∷ l) x
        → contains (if b then t ∷ insert_text s l else s ∷ t ∷ l) x ≡ contains (s ∷ t ∷ l) x
    by_test true ih = rw ih (ground arith)
    by_test false ih = refl

sort_texts-contains : (l : List Text) (x : Text) → contains (sort_texts l) x ≡ contains l x
unfolding sort_texts contains
sort_texts-contains [] x = refl
sort_texts-contains (s ∷ l) x =
    insert_text-contains s (sort_texts l) x
    ∙ ap (λ b. if x == s then true else b) (sort_texts-contains l x)

-- The runtime state has no double key, and this entry of a ConstID.
abbrev pub Holds : Text → Option Active → Option State → Tables → Type 0
Holds other x r t =
    NodupKeys (state_of r).active_const_ids × (lookup other (state_of r).active_const_ids ≡ x)

erase-entry :
    (cid other : Text) (x : Option Active) (d : Dict Text Active)
    → NodupKeys d
    → lookup other d ≡ x
    → lookup other (erase cid d) ≡ (if other == cid then none else x)
erase-entry cid other x d n h =
    ground (arith, list_beq_iff other cid, lookup-erase cid d n, lookup-erase_ne cid other d)

module _ ⦃host : Host⦄
    (works : (cid : Text) (k : host.K) → (host.command (Command.remove_pins cid) k).0 ≡ true) where
  unload_constid-Holds :
      (cid other : Text) (x : Option Active) (F : World → Type 0)
      → Ensures
          (On (Holds other x))
          F
          (unload_constid cid)
          (λ b. On (Holds other (if other == cid then none else x)))
  unfolding unload_constid unload_removed give forget get_runtime_state gets set_runtime pure ◌>>=◌
      continue state_of
  unload_constid-Holds cid other x F = record {
    at = λ w h. rw (works cid w.kernel) (record {
      holds = (erase-NodupKeys cid _ h.holds.0, erase-entry cid other x _ h.holds.0 h.holds.1);
    });
  }

  unload_affected-Holds :
      (b : Bool) (cid other : Text) (x : Option Active) (F : World → Type 0)
      → (b ≡ false → other ≡ cid → x ≡ none)
      → Ensures
          (On (Holds other x))
          F
          (unload_affected b cid)
          (λ u. On (Holds other (if other == cid then none else x)))
  unfolding unload_affected mark_status set_tables
  unload_affected-Holds false cid other x F h =
      let same : x ≡ (if other == cid then none else x) =
        ground (arith, list_beq_iff other cid, h refl) in
      Ensures-pure tt (λ w k. subst (λ y. On (Holds other y) w) same k)
  unload_affected-Holds true cid other x F h =
      Ensures-bind _ _ (unload_constid-Holds cid other x F) (λ b. record {
        at = λ w k.
            (Keeps-mark_status {Q = Holds other (if other == cid then none else x)} (λ r t t' q. q)
                cid (text "ready")).at
              w k;
      })

  absent :
      (cid other : Text) (active : Dict Text Active) (x : Option Active)
      → (x ≡ lookup other active) ⊎ (x ≡ none)
      → has cid active ≡ false
      → other ≡ cid
      → x ≡ none
  unfolding has
  absent cid other active x (inr e) h p = e
  absent cid other active x (inl e) h p =
      e ∙ none_of (lookup other active) (ap (λ c. has c active) p ∙ h)
    where
      none_of : (o : Option Active) → (elim o [ none ↦ false | some a ↦ true ]) ≡ false → o ≡ none
      none_of none k = refl
      none_of (some a) k = cc

  unload_sorted-Holds :
      (cids : List Text) (other : Text) (active : Dict Text Active) (n : ℕ) (x : Option Active)
      (F : World → Type 0)
      → (x ≡ lookup other active) ⊎ (x ≡ none)
      → Ensures
          (On (Holds other x))
          F
          (unload_sorted cids active n)
          (λ u. On (Holds other (if contains cids other then none else x)))
  unfolding unload_sorted contains
  unload_sorted-Holds [] other active n x F h = Ensures-pure n (λ w k. k)
  unload_sorted-Holds (cid ∷ cids) other active n x F h =
      let step : Option Active = if other == cid then none else x in
      let same : (if contains cids other then none else step)
          ≡ (if contains (cid ∷ cids) other then none else x) =
        ground arith in
      let next : (step ≡ lookup other active) ⊎ (step ≡ none) = elim (Bool-cases (other == cid)) [
        | inl e ↦ inr (rw e refl)
        | inr e ↦ rw e h
      ] in
      Ensures-bind _ _
        (unload_affected-Holds (has cid active) cid other x F (absent cid other active x h))
        (λ u.
          Ensures-returning (λ m w k. subst (λ y. On (Holds other y) w) same k)
            (unload_sorted-Holds cids other active _ step F next))

  unload_active-Holds :
      (ids : List Text) (other : Text) (w : World)
      → NodupKeys (state_of w.runtime).active_const_ids
      → Ensures
          (λ v. v ≡ w)
          (λ u. ⊥)
          (unload_active_constids ids)
          (λ n u. entry other u ≡ (if contains ids other then none else entry other w))
  unfolding unload_active_constids get_runtime_state
  unload_active-Holds ids other w nd =
      Ensures-value (state_of w.runtime) _ _
        (Ensures-gets _ (λ v e. (
          ap (λ (u : World). state_of u.runtime) e,
          subst (On (Holds other (entry other w))) (sym e) (record { holds = (nd, refl) }),
        )))
        (Ensures-returning
          (λ n u k.
            k.holds.1 ∙ ap (λ b. if b then none else entry other w) (sort_texts-contains ids other))
          (unload_sorted-Holds (sort_texts ids) other (state_of w.runtime).active_const_ids 0
            (entry other w) (λ u. ⊥) (inl refl)))

  -- Where pins can be removed, the unloading before `table delete` returns; the entries of the ConstIDs
  -- that the delete affects are gone then, and those of all others are as before.
  pub unload_active_constids-entries :
      (ids : List Text) (other : Text) (w : World)
      → NodupKeys (state_of w.runtime).active_const_ids
      → EndsIn
          (λ u. ⊥)
          (λ n u. entry other u ≡ (if contains ids other then none else entry other w))
          (unload_active_constids ids w)
  unload_active_constids-entries ids other w nd = (unload_active-Holds ids other w nd).at w refl
