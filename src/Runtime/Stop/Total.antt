-- ===== src/Runtime/Stop/Total.antt =====
-- Whether the command `unload` returns (src/cli.py).
use xkernel.Base.{ℕ, zero, suc, ◌^◌, ◌<◌, arith, Bool, true, false, List, [], ◌∷◌, Option, some}
use xkernel.Base.{none, contains, list_eq, nat_eq, ◌||◌}
use xkernel.Base.Dict.{Dict}
use xkernel.Base.Text.{Text, text}
use xkernel.Runtime.{Host, World, Run, Active, continue, ask, ◌>>=◌, get_runtime_state}
use xkernel.Runtime.Returns.{Returns, IsReturned, returns_rules, Returns-bind, Returns-ask}
use xkernel.Runtime.Returns.{Returns-give, Returns-if, Returns-pure}
use xkernel.Runtime.Maps.{current_epoch, pack_or_raise, update_map_by_id, set_map}
use xkernel.Runtime.Maps.{set_bss_variable, deactivate_constid, bump_found, bump_epoch}
use xkernel.Runtime.Maps.{collect_maps, collect_listed, get_map_info_for_constid}
use xkernel.Runtime.Unload.Poll.{Clock, Returns-poll_from_now}
use xkernel.Runtime.Maps.Epoch.{pack-fits}
use xkernel.Runtime.Unload.{forget, is_kfuncs_loaded, is_consistency_loaded, unload_constid}
use xkernel.Runtime.Unload.{unload_removed}
use xkernel.Runtime.Unload.{after_rmmod, remove_consistency, reverse_mode, unload_leftover}
use xkernel.Runtime.Unload.{reverse_found, reverse_transition_single}
use xkernel.Runtime.Stop.{cleanup_bpf_pins, forget_kfuncs, try_again, after_attempt}
use xkernel.Runtime.Stop.{attempt_rmmod, unload_kfuncs_module, unload_kfuncs_if_loaded}
use xkernel.Runtime.Stop.{mark_status, reverse_all, unload_active, cmd_unload_all, unload_one}
use xkernel.Runtime.Stop.{unload_each, cmd_unload_some, cmd_unload, no_items}

module _ ⦃host : Host⦄ where
  Returns-set_map : (o : Option ℕ) (v : ℕ) → v < 256 ^ 4 → Returns (set_map o v)
  unfolding set_map update_map_by_id pack_or_raise
  Returns-set_map none v h = search returns_rules
  Returns-set_map (some i) v h = rw (pack-fits 4 v h) (search returns_rules)

  Returns-deactivate : (d : Dict Text ℕ) → Returns (deactivate_constid d)
  unfolding deactivate_constid set_bss_variable
  Returns-deactivate d = Returns-set_map _ 0 (omega arith)

  Returns-collect_maps :
      (cid : Text) (names : List Text) (d : Dict Text ℕ) → Returns (collect_maps cid names d)
  unfolding collect_maps
  Returns-collect_maps cid [] d = search returns_rules
  Returns-collect_maps cid (n ∷ names) d =
      Returns-bind _ _ (Returns-ask _) (λ found. Returns-collect_maps cid names _)

  Returns-get_map_info : (cid : Text) → Returns (get_map_info_for_constid cid)
  unfolding get_map_info_for_constid collect_listed
  Returns-get_map_info cid = Returns-bind _ _ (Returns-ask _) by_names
    where
      by_names : (o : Option (List Text)) → Returns (collect_listed cid o)
      by_names none = search returns_rules
      by_names (some names) = Returns-collect_maps cid names []

  Returns-is_kfuncs_loaded : Returns is_kfuncs_loaded
  unfolding is_kfuncs_loaded
  Returns-is_kfuncs_loaded = search returns_rules

  Returns-is_consistency_loaded : Returns is_consistency_loaded
  unfolding is_consistency_loaded
  Returns-is_consistency_loaded = search returns_rules

  Returns-unload_removed : (cid : Text) (b : Bool) → Returns (unload_removed cid b)
  unfolding unload_removed forget get_runtime_state
  Returns-unload_removed cid true = search returns_rules
  Returns-unload_removed cid false = search returns_rules

  Returns-unload_constid : (cid : Text) → Returns (unload_constid cid)
  unfolding unload_constid
  Returns-unload_constid cid = search (returns_rules, Returns-unload_removed)

  Returns-cleanup : Returns cleanup_bpf_pins
  unfolding cleanup_bpf_pins
  Returns-cleanup = search returns_rules

  Returns-try_again : (n : ℕ) (m : Run Bool) → Returns m → Returns (try_again n m)
  unfolding try_again
  Returns-try_again zero m k = search returns_rules
  Returns-try_again (suc n) m k = search returns_rules

  Returns-after_attempt :
      (n : ℕ) (b : Bool) (m : Run Bool) → Returns m → Returns (after_attempt n b m)
  unfolding after_attempt forget_kfuncs get_runtime_state
  Returns-after_attempt n true m k = search returns_rules
  Returns-after_attempt n false m k = Returns-try_again n m k

  Returns-attempt_rmmod : (n : ℕ) → Returns (attempt_rmmod n)
  unfolding attempt_rmmod
  Returns-attempt_rmmod zero = search returns_rules
  Returns-attempt_rmmod (suc n) =
      Returns-bind _ _ (Returns-give _) (λ b. Returns-after_attempt n b _ (Returns-attempt_rmmod n))

  Returns-unload_kfuncs : Returns unload_kfuncs_if_loaded
  unfolding unload_kfuncs_if_loaded unload_kfuncs_module
  Returns-unload_kfuncs = search (returns_rules, Returns-is_kfuncs_loaded, Returns-attempt_rmmod)

  Returns-mark_status : (cid status : Text) → Returns (mark_status cid status)
  unfolding mark_status
  Returns-mark_status cid status = search returns_rules

  module _ (clock : Clock host)
      (below : (i : ℕ) (k : host.K) → current_epoch (host.map_dump i k).0 < 4294967295) where
    Returns-after_rmmod : (b : Bool) → Returns (after_rmmod b)
    unfolding after_rmmod
    Returns-after_rmmod true = Returns-poll_from_now clock
    Returns-after_rmmod false = search returns_rules

    Returns-remove_consistency : (b : Bool) → Returns (remove_consistency b)
    unfolding remove_consistency
    Returns-remove_consistency true = search (returns_rules, Returns-after_rmmod)
    Returns-remove_consistency false = search returns_rules

    Returns-bump_found : (d : Dict Text ℕ) (o : Option ℕ) → Returns (bump_found d o)
    unfolding bump_found set_bss_variable ◌>>=◌ continue ask
    Returns-bump_found d none = search returns_rules
    Returns-bump_found d (some i) = record {
      at = λ w. (Returns-set_map _ _ (omega (arith, below i w.kernel))).at _;
    }

    Returns-bump_epoch : (d : Dict Text ℕ) → Returns (bump_epoch d)
    unfolding bump_epoch
    Returns-bump_epoch d = Returns-bump_found d _

    Returns-reverse_mode :
        (mode : ℕ) (cid : Text) (d : Dict Text ℕ) → Returns (reverse_mode mode cid d)
    unfolding reverse_mode
    Returns-reverse_mode zero cid d =
        search (returns_rules, Returns-deactivate, Returns-unload_constid)
    Returns-reverse_mode (suc zero) cid d =
        search (returns_rules, Returns-deactivate, Returns-bump_epoch, Returns-unload_constid)
    Returns-reverse_mode (suc (suc zero)) cid d = search (
      returns_rules, Returns-deactivate, Returns-is_consistency_loaded, Returns-remove_consistency,
      Returns-unload_constid,
    )
    Returns-reverse_mode (suc (suc (suc n))) cid d = Returns-unload_constid cid

    Returns-reverse_found :
        (cid : Text) (info : Active) (d : Dict Text ℕ) → Returns (reverse_found cid info d)
    unfolding reverse_found unload_leftover
    Returns-reverse_found cid info [] = Returns-bind _ _ (Returns-ask _) by_test
      where
        by_test : (b : Bool) → Returns (unload_leftover cid b)
        by_test true = Returns-unload_constid cid
        by_test false = Returns-pure false
    Returns-reverse_found cid info (p ∷ d) = Returns-reverse_mode info.mode cid (p ∷ d)

    Returns-reverse : (cid : Text) (info : Active) → Returns (reverse_transition_single cid info)
    unfolding reverse_transition_single
    Returns-reverse cid info = search (returns_rules, Returns-get_map_info, Returns-reverse_found)

    Returns-reverse_all : (active : Dict Text Active) → Returns (reverse_all active)
    unfolding reverse_all
    Returns-reverse_all [] = search returns_rules
    Returns-reverse_all ((cid, info) ∷ active) =
        Returns-bind _ _ (Returns-reverse cid info)
          (λ b. Returns-bind _ _ (Returns-mark_status cid _) (λ u. Returns-reverse_all active))

    Returns-unload_active : (active : Dict Text Active) → Returns (unload_active active)
    unfolding unload_active
    Returns-unload_active [] = search (returns_rules, Returns-is_consistency_loaded)
    Returns-unload_active (p ∷ active) = Returns-reverse_all (p ∷ active)

    Returns-cmd_unload_all : Returns cmd_unload_all
    unfolding cmd_unload_all get_runtime_state
    Returns-cmd_unload_all =
        search (returns_rules, Returns-unload_active, Returns-cleanup, Returns-unload_kfuncs) depth
          9

    Returns-unload_one :
        (cid : Text) (o : Option Active) (active : Dict Text Active)
        → Returns (unload_one cid o active)
    unfolding unload_one
    Returns-unload_one cid none active = search returns_rules
    Returns-unload_one cid (some info) active =
        search (returns_rules, Returns-reverse, Returns-mark_status)

    Returns-unload_each :
        (args : List Text) (active : Dict Text Active) → Returns (unload_each args active)
    unfolding unload_each
    Returns-unload_each [] active = search returns_rules
    Returns-unload_each (cid ∷ args) active =
        Returns-bind _ _ (Returns-unload_one cid _ active) (λ left. Returns-unload_each args left)

    Returns-cmd_unload_some : (args : List Text) → Returns (cmd_unload_some args)
    unfolding cmd_unload_some get_runtime_state
    Returns-cmd_unload_some args =
        search (returns_rules, Returns-unload_each, Returns-cleanup, Returns-unload_kfuncs) depth 9

    -- The command `unload` returns from every world, whatever its arguments are, if the clock does not
    -- go back and a sleep lasts at least as long as it is told to, and if no map holds the largest
    -- epoch; the other answers of the outside are any.
    pub cmd_unload-IsReturned : (args : List Text) (w : World) → IsReturned (cmd_unload args w).0
    unfolding cmd_unload
    cmd_unload-IsReturned args w =
        (Returns-if (contains args (text "--all") || no_items args) _ _ Returns-cmd_unload_all
            (Returns-cmd_unload_some args)).at
          w
