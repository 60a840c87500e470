-- ===== src/Runtime/Stop.antt =====
-- The command `unload`, and what `table delete` unloads (src/cli.py).
pub mod Kept
pub mod Entries
pub mod Total
pub mod Affected
use xkernel.Base.{ℕ, zero, suc, ◌-◌, Bool, true, false, not, ◌||◌, List, [], ◌∷◌, ◌++◌, map}
use xkernel.Base.{Option, some, none, if◌then◌else◌, ltb, ◌==◌, list_eq, nat_eq, contains, length}
use xkernel.Base.Dict.{Dict, lookup, has, erase}
use xkernel.Base.Text.{Text, text, starts_with, lower}
use xkernel.Tables.{Tables}
use xkernel.Tables.Index.{text_lt}
use xkernel.Tables.Status.{update_status, update_all_status}
use xkernel.Analysis.Jump.{has_part}
use xkernel.Runtime.{Host, World, Run, Command, Active, State, ◌>>=◌, ◌>>◌, pure, ask, give, when}
use xkernel.Runtime.{get_runtime_state, set_runtime, set_tables}
use xkernel.Runtime.Maps.{get_map_info_for_constid, deactivate_constid, bump_epoch}
use xkernel.Runtime.Unload.{is_kfuncs_loaded, is_consistency_loaded, unload_constid}
use xkernel.Runtime.Unload.{reverse_transition_single}

unfoldable pub insert_text : Text → List Text → List Text
insert_text s [] = s ∷ []
insert_text s (t ∷ ts) = if text_lt t s then t ∷ insert_text s ts else s ∷ t ∷ ts

unfoldable pub sort_texts : List Text → List Text
sort_texts [] = []
sort_texts (s ∷ ss) = insert_text s (sort_texts ss)

unfoldable pub no_items {ℓ} : {A : Type ℓ} → List A → Bool
no_items [] = true
no_items (x ∷ xs) = false

module _ ⦃host : Host⦄ where
  -- The pins of all ConstIDs; the test afterwards only warns.
  unfoldable pub cleanup_bpf_pins : Run Bool
  cleanup_bpf_pins = do
    removed ← give Command.remove_all_pins
    when removed (give Command.test_all_pins >> pure tt)
    give (Command.sleep 2000)

  unfoldable pub forget_kfuncs : State → Run Unit
  forget_kfuncs state = set_runtime (record state { kfuncs_loaded = false })

  -- The attempts that are left, with two seconds between them.
  unfoldable pub try_again : ℕ → Run Bool → Run Bool
  try_again zero again = pure false
  try_again (suc n) again = do give (Command.sleep 2000); again

  unfoldable pub after_attempt : ℕ → Bool → Run Bool → Run Bool
  after_attempt left true again = do state ← get_runtime_state; forget_kfuncs state; pure true
  after_attempt left false again = try_again left again

  unfoldable pub attempt_rmmod : ℕ → Run Bool
  attempt_rmmod zero = pure false
  attempt_rmmod (suc left) = do
    removed ← give Command.rmmod_kfuncs
    after_attempt left removed (attempt_rmmod left)

  unfoldable pub unload_kfuncs_module : Run Bool
  unload_kfuncs_module = attempt_rmmod 5

  unfoldable pub mark_status : Text → Text → Run Unit
  mark_status cid new_status =
      set_tables (λ t. record t { scope = update_status cid new_status t.scope })

  unfoldable pub reverse_all : Dict Text Active → Run Unit
  reverse_all [] = pure tt
  reverse_all ((cid, info) ∷ active) = do
    reverse_transition_single cid info
    mark_status cid (text "ready")
    reverse_all active

  -- With no ConstID active, a consistency module that is stuck is removed.
  unfoldable pub unload_active : Dict Text Active → Run Unit
  unload_active [] = do
    loaded ← is_consistency_loaded
    when loaded (give Command.rmmod_consistency >> pure tt)
  unload_active (p ∷ active) = reverse_all (p ∷ active)

  unfoldable pub unload_kfuncs_if_loaded : Run Unit
  unload_kfuncs_if_loaded = do
    loaded ← is_kfuncs_loaded
    when loaded (unload_kfuncs_module >> pure tt)

  unfoldable pub cmd_unload_all : Run Unit
  cmd_unload_all = do
    state ← get_runtime_state
    unload_active state.active_const_ids
    cleanup_bpf_pins
    unload_kfuncs_if_loaded
    set_runtime (record { kfuncs_loaded = false; active_const_ids = [] })
    set_tables (λ t. record t { scope = update_all_status (text "ready") t.scope })

  -- The ConstIDs of the command line, one after the other, and what is still active then.
  unfoldable pub unload_one : Text → Option Active → Dict Text Active → Run (Dict Text Active)
  unload_one cid none active = pure active
  unload_one cid (some info) active = do
    reverse_transition_single cid info
    mark_status cid (text "ready")
    pure (erase cid active)

  unfoldable pub unload_each : List Text → Dict Text Active → Run (Dict Text Active)
  unload_each [] active = pure active
  unload_each (cid ∷ args) active = do
    left ← unload_one cid (lookup cid active) active
    unload_each args left

  unfoldable pub cmd_unload_some : List Text → Run Unit
  cmd_unload_some args = do
    state ← get_runtime_state
    left ← unload_each args state.active_const_ids
    set_runtime (record state { active_const_ids = left })
    when (no_items left) (cleanup_bpf_pins >> unload_kfuncs_if_loaded)

  unfoldable pub cmd_unload : List Text → Run Unit
  cmd_unload args =
      if contains args (text "--all") || no_items args then cmd_unload_all else cmd_unload_some args

  -- What `table delete` unloads first, of the ConstIDs that it affects, and how many these are.
  unfoldable pub unload_affected : Bool → Text → Run Unit
  unload_affected false cid = pure tt
  unload_affected true cid = do unload_constid cid; mark_status cid (text "ready")

  unfoldable pub unload_sorted : List Text → Dict Text Active → ℕ → Run ℕ
  unload_sorted [] active unloaded = pure unloaded
  unload_sorted (cid ∷ cids) active unloaded = do
    unload_affected (has cid active) cid
    unload_sorted cids active (if has cid active then suc unloaded else unloaded)

  unfoldable pub unload_active_constids : List Text → Run ℕ
  unload_active_constids const_ids = do
    state ← get_runtime_state
    unload_sorted (sort_texts const_ids) state.active_const_ids 0
