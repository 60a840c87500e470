-- ===== src/Runtime/Unload.antt =====
-- Unloading (src/loader.py, src/cli.py): one ConstID, and its reverse transition.
pub mod Order
pub mod Poll
pub mod Kept
use xkernel.Base.{ℕ, zero, suc, ◌-◌, Bool, true, false, not, ◌||◌, List, [], ◌∷◌, ◌++◌, map}
use xkernel.Base.{Option, some, none, if◌then◌else◌, ltb, ◌==◌, list_eq, nat_eq, contains, length}
use xkernel.Base.{unfinished}
use xkernel.Base.Dict.{Dict, lookup, has, erase}
use xkernel.Base.Text.{Text, text, starts_with, lower}
use xkernel.Tables.{Tables}
use xkernel.Tables.Index.{text_lt}
use xkernel.Tables.Status.{update_status, update_all_status}
use xkernel.Analysis.Jump.{has_part}
use xkernel.Runtime.{Host, World, Run, Command, Active, State, ◌>>=◌, ◌>>◌, pure, ask, give, when}
use xkernel.Runtime.{get_runtime_state, set_runtime, set_tables, raise}
use xkernel.Runtime.Maps.{get_map_info_for_constid, deactivate_constid, bump_epoch}

-- Some line of a query's output has a property.
unfoldable pub any_line : (Text → Bool) → List Text → Bool
any_line p [] = false
any_line p (line ∷ lines) = p line || any_line p lines

unfoldable pub some_line : (Text → Bool) → Option (List Text) → Bool
some_line p none = false
some_line p (some lines) = any_line p lines

-- `'reverse transition' in output or 'module unloaded' in output`
unfoldable pub is_reversed : Text → Bool
is_reversed line =
    has_part (text "reverse transition") (lower line)
    || has_part (text "module unloaded") (lower line)

module _ ⦃host : Host⦄ where
  unfoldable pub is_kfuncs_loaded : Run Bool
  is_kfuncs_loaded = do
    lines ← ask host.lsmod
    pure (some_line (λ line. starts_with line (text "xk_kfuncs ")) lines)

  unfoldable pub is_consistency_loaded : Run Bool
  is_consistency_loaded = do
    lines ← ask host.lsmod
    pure (some_line (λ line. starts_with line (text "xk_consistency ")) lines)

  unfoldable pub forget : Text → State → Run Unit
  forget const_id state =
      set_runtime (record state { active_const_ids = erase const_id state.active_const_ids })

  unfoldable pub unload_removed : Text → Bool → Run Bool
  unload_removed const_id false = pure false
  unload_removed const_id true = do state ← get_runtime_state; forget const_id state; pure true

  unfoldable pub unload_constid : Text → Run Bool
  unload_constid const_id = do
    removed ← give (Command.remove_pins const_id)
    unload_removed const_id removed

  -- The poll for the end of a reverse transition: at most 30 seconds from `start`, by turns of at least
  -- half a second. A loop that goes on after its last turn of fuel is unfinished.
  unfoldable pub poll_turn : Bool → Run Bool → Run Bool
  poll_turn true again = pure true
  poll_turn false again = do give (Command.sleep 500); again

  unfoldable pub poll_within : Bool → Run Bool → Run Bool
  poll_within false again = pure false
  poll_within true again = do
    output ← ask host.recent_dmesg
    poll_turn (some_line is_reversed output) again

  unfoldable pub poll_reverse : ℕ → ℕ → Run Bool
  poll_reverse zero start = raise unfinished
  poll_reverse (suc fuel) start = do
    now ← ask host.time
    poll_within (ltb (now - start) 30000) (poll_reverse fuel start)

  unfoldable pub poll_from_now : Run Bool
  poll_from_now = do start ← ask host.time; poll_reverse 61 start

  unfoldable pub after_rmmod : Bool → Run Bool
  after_rmmod false = pure false
  after_rmmod true = poll_from_now

  unfoldable pub remove_consistency : Bool → Run Bool
  remove_consistency false = pure false
  remove_consistency true = do removed ← give Command.rmmod_consistency; after_rmmod removed

  -- The branches of `_reverse_transition_single` on the mode.
  unfoldable pub reverse_mode : ℕ → Text → Dict Text ℕ → Run Bool
  reverse_mode zero cid map_info = do deactivate_constid map_info; unload_constid cid
  reverse_mode (suc zero) cid map_info = do
    deactivate_constid map_info
    bump_epoch map_info
    give (Command.sleep 2000)
    unload_constid cid
  reverse_mode (suc (suc zero)) cid map_info = do
    deactivate_constid map_info
    loaded ← is_consistency_loaded
    remove_consistency loaded
    unload_constid cid
  reverse_mode _ cid map_info = unload_constid cid

  unfoldable pub pin_dir : Text → Text
  pin_dir cid = text "/sys/fs/bpf/xkernel/" ++ cid

  unfoldable pub unload_leftover : Text → Bool → Run Bool
  unload_leftover cid false = pure false
  unload_leftover cid true = unload_constid cid

  unfoldable pub reverse_found : Text → Active → Dict Text ℕ → Run Bool
  reverse_found cid info [] = do
    there ← ask (host.file_exists (pin_dir cid))
    unload_leftover cid there
  reverse_found cid info (p ∷ map_info) = reverse_mode info.mode cid (p ∷ map_info)

  unfoldable pub reverse_transition_single : Text → Active → Run Bool
  reverse_transition_single cid info = do
    map_info ← get_map_info_for_constid cid
    reverse_found cid info map_info
