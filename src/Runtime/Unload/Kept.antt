-- ===== src/Runtime/Unload/Kept.antt =====
-- What unloading leaves as it is.
use xkernel.Base.{ℕ, zero, suc, Bool, list_eq, nat_eq, true, false, List, [], ◌∷◌, Option, some}
use xkernel.Base.{none}
use xkernel.Base.Dict.{Dict, erase}
use xkernel.Base.Text.{Text}
use xkernel.Tables.{Tables}
use xkernel.Runtime.{Host, Active, State, Run, state_of, pure, ask}
use xkernel.Runtime.Keeps.{Keeps, On, keeps_rules, Keeps-update, Keeps-pure, Keeps-bind}
use xkernel.Runtime.Keeps.{Keeps-ask}
use xkernel.Runtime.Maps.{pack_or_raise, set_map, set_bss_variable, collect_maps, collect_listed}
use xkernel.Runtime.Maps.{get_map_info_for_constid, bump_found, bump_epoch, deactivate_constid}
use xkernel.Runtime.Unload.{forget, is_kfuncs_loaded, is_consistency_loaded, unload_constid}
use xkernel.Runtime.Unload.{unload_removed, poll_turn, poll_within, poll_reverse, poll_from_now}
use xkernel.Runtime.Unload.{after_rmmod, remove_consistency, reverse_mode, unload_leftover}
use xkernel.Runtime.Unload.{reverse_found, reverse_transition_single}
use xkernel.Runtime.Maps

-- A property that unloading a ConstID, and the flag of the module, do not change.
pub record Stable (Q : Option State → Tables → Type 0) (cid : Text) : Type 0 where
  pub flagged :
      (b : Bool) (r : Option State) (t : Tables)
      → Q r t
      → Q (some (record (state_of r) { kfuncs_loaded = b })) t
  pub erased :
      (r : Option State) (t : Tables)
      → Q r t
      → Q
          (some
            (record (state_of r) { active_const_ids = erase cid (state_of r).active_const_ids }))
          t

module _ ⦃host : Host⦄ {Q : Option State → Tables → Type 0} where
  pub Keeps-pack_or_raise : (o : Option (List ℕ)) → Keeps (On Q) (pack_or_raise o)
  unfolding pack_or_raise
  Keeps-pack_or_raise none = search keeps_rules
  Keeps-pack_or_raise (some b) = search keeps_rules

  pub Keeps-set_map : (o : Option ℕ) (v : ℕ) → Keeps (On Q) (set_map o v)
  unfolding set_map Maps.update_map_by_id
  Keeps-set_map none v = search keeps_rules
  Keeps-set_map (some i) v = search (keeps_rules, Keeps-pack_or_raise)

  pub Keeps-set_bss_variable :
      (d : Dict Text ℕ) (n : Text) (v : ℕ) → Keeps (On Q) (set_bss_variable d n v)
  unfolding set_bss_variable
  Keeps-set_bss_variable d n v = search (keeps_rules, Keeps-set_map)

  Keeps-collect_maps :
      (cid : Text) (names : List Text) (d : Dict Text ℕ) → Keeps (On Q) (collect_maps cid names d)
  unfolding collect_maps
  Keeps-collect_maps cid [] d = search keeps_rules
  Keeps-collect_maps cid (n ∷ names) d = search (keeps_rules, Keeps-collect_maps cid names)

  Keeps-collect_listed : (cid : Text) (o : Option (List Text)) → Keeps (On Q) (collect_listed cid o)
  unfolding collect_listed
  Keeps-collect_listed cid none = search keeps_rules
  Keeps-collect_listed cid (some names) = search (keeps_rules, Keeps-collect_maps)

  Keeps-get_map_info : (cid : Text) → Keeps (On Q) (get_map_info_for_constid cid)
  unfolding get_map_info_for_constid
  Keeps-get_map_info cid = search (keeps_rules, Keeps-collect_listed)

  Keeps-bump_found : (d : Dict Text ℕ) (o : Option ℕ) → Keeps (On Q) (bump_found d o)
  unfolding bump_found
  Keeps-bump_found d none = search keeps_rules
  Keeps-bump_found d (some i) = search (keeps_rules, Keeps-set_bss_variable)

  Keeps-bump_epoch : (d : Dict Text ℕ) → Keeps (On Q) (bump_epoch d)
  unfolding bump_epoch
  Keeps-bump_epoch d = search Keeps-bump_found

  Keeps-deactivate : (d : Dict Text ℕ) → Keeps (On Q) (deactivate_constid d)
  unfolding deactivate_constid
  Keeps-deactivate d = search Keeps-set_bss_variable

  pub Keeps-is_kfuncs_loaded : Keeps (On Q) is_kfuncs_loaded
  unfolding is_kfuncs_loaded
  Keeps-is_kfuncs_loaded = search keeps_rules

  pub Keeps-is_consistency_loaded : Keeps (On Q) is_consistency_loaded
  unfolding is_consistency_loaded
  Keeps-is_consistency_loaded = search keeps_rules

  Keeps-poll_turn : (b : Bool) (m : Run Bool) → Keeps (On Q) m → Keeps (On Q) (poll_turn b m)
  unfolding poll_turn
  Keeps-poll_turn true m k = search keeps_rules
  Keeps-poll_turn false m k = search keeps_rules

  Keeps-poll_within : (b : Bool) (m : Run Bool) → Keeps (On Q) m → Keeps (On Q) (poll_within b m)
  unfolding poll_within
  Keeps-poll_within true m k = search (keeps_rules, Keeps-poll_turn)
  Keeps-poll_within false m k = search keeps_rules

  Keeps-poll_reverse : (fuel start : ℕ) → Keeps (On Q) (poll_reverse fuel start)
  unfolding poll_reverse
  Keeps-poll_reverse zero start = search keeps_rules
  Keeps-poll_reverse (suc fuel) start =
      Keeps-bind (ask host.time) _ (Keeps-ask _)
        (λ now. Keeps-poll_within _ _ (Keeps-poll_reverse fuel start))

  Keeps-after_rmmod : (b : Bool) → Keeps (On Q) (after_rmmod b)
  unfolding after_rmmod poll_from_now
  Keeps-after_rmmod true = search (keeps_rules, Keeps-poll_reverse)
  Keeps-after_rmmod false = search keeps_rules

  Keeps-remove_consistency : (b : Bool) → Keeps (On Q) (remove_consistency b)
  unfolding remove_consistency
  Keeps-remove_consistency true = search (keeps_rules, Keeps-after_rmmod)
  Keeps-remove_consistency false = search keeps_rules

  module _ {cid : Text} (s : Stable Q cid) where
    Keeps-unload_removed : (b : Bool) → Keeps (On Q) (unload_removed cid b)
    unfolding unload_removed forget
    Keeps-unload_removed true = Keeps-update _ (pure true) s.erased (Keeps-pure true)
    Keeps-unload_removed false = search keeps_rules

    pub Keeps-unload_constid : Keeps (On Q) (unload_constid cid)
    unfolding unload_constid
    Keeps-unload_constid = search (keeps_rules, Keeps-unload_removed)

    Keeps-reverse_mode : (mode : ℕ) (d : Dict Text ℕ) → Keeps (On Q) (reverse_mode mode cid d)
    unfolding reverse_mode
    Keeps-reverse_mode zero d = search (keeps_rules, Keeps-unload_constid, Keeps-deactivate)
    Keeps-reverse_mode (suc zero) d =
        search (keeps_rules, Keeps-unload_constid, Keeps-deactivate, Keeps-bump_epoch)
    Keeps-reverse_mode (suc (suc zero)) d = search (
      keeps_rules, Keeps-unload_constid, Keeps-deactivate, Keeps-is_consistency_loaded,
      Keeps-remove_consistency,
    )
    Keeps-reverse_mode (suc (suc (suc n))) d = search Keeps-unload_constid

    Keeps-unload_leftover : (b : Bool) → Keeps (On Q) (unload_leftover cid b)
    unfolding unload_leftover
    Keeps-unload_leftover true = search Keeps-unload_constid
    Keeps-unload_leftover false = search keeps_rules

    Keeps-reverse_found :
        (info : Active) (d : Dict Text ℕ) → Keeps (On Q) (reverse_found cid info d)
    unfolding reverse_found
    Keeps-reverse_found info [] = search (keeps_rules, Keeps-unload_leftover)
    Keeps-reverse_found info (p ∷ d) = Keeps-reverse_mode info.mode (p ∷ d)

    pub Keeps-reverse_transition :
        (info : Active) → Keeps (On Q) (reverse_transition_single cid info)
    unfolding reverse_transition_single
    Keeps-reverse_transition info = search (keeps_rules, Keeps-get_map_info, Keeps-reverse_found)
