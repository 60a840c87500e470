-- ===== src/Runtime/Start/Outcomes.antt =====
-- How the command `load` ends (src/cli.py).
use xkernel.Base.{ℕ, ◌≡◌, ◌≢◌, refl, ap, arith, Bool, true, false, not, list_eq, nat_eq, ◌<◌}
use xkernel.Base.{List, ◌∷◌, Option, some, none, ltb}
use xkernel.Base.Int.{ℤ, pos, negsuc}
use xkernel.Base.Dict.{Dict, lookup, has}
use xkernel.Base.Text.{Text, text, parse_int}
use xkernel.Tables.Status.{update_status}
use xkernel.Runtime.{Outcome, returned, raised, exited, Host, World, Active, exit, raise, gets}
use xkernel.Runtime.{get_runtime_state, ◌>>=◌, continue}
use xkernel.Runtime.Keeps.{On}
use xkernel.Runtime.Ensures.{EndsIn}
use xkernel.Runtime.Load.{resolve_constid_to_bpf}
use xkernel.Runtime.Stop.Entries.{entry}
use xkernel.Runtime.Start.{exit_unless, load_new, load_unless, load_id, load_mode, is_const_id}
use xkernel.Runtime.Start.{cmd_load}
use xkernel.Runtime.Start.Transaction.{Unloaded, active_entry, IsStarted, Commits-load_mode}

has-some :
    (cid : Text) (d : Dict Text Active) (a : Active) → lookup cid d ≡ some a → has cid d ≡ true
unfolding has
has-some cid d a h = ground arith

module _ ⦃host : Host⦄ where
  -- Of a ConstID, another one, and the world before: how the command ends.
  abbrev pub IsTransaction : Text → Text → Text → World → Outcome Unit × World → Type 0
  IsTransaction mode cid other w =
      EndsIn (λ u. (entry cid u ≡ none) × (entry other u ≡ entry other w) × (u.tables ≡ w.tables))
        (λ a u.
          (m : ℕ) × (parse_int 10 mode ≡ some (pos m))
          × (m < 3)
          × (entry cid u ≡ some (active_entry m (resolve_constid_to_bpf cid w.tables.scope)))
          × (entry other u ≡ entry other w)
          × (u.tables
              ≡ record w.tables { scope = update_status cid (text "active") w.tables.scope }))

  finish :
      (cid other mode : Text) (w : World) (r : Outcome Unit) (v : World)
      → (ne : other ≢ cid)
      → EndsIn
          (On (Unloaded cid other (entry other w) w.tables))
          (λ u. On (IsStarted cid other (entry other w) w.tables ne (parse_int 10 mode)))
          (r, v)
      → IsTransaction mode cid other w (r, v)
  finish cid other mode w (returned a) v ne h =
      let q = h.holds in (q.0, q.1, q.2, q.3.0, q.3.1, q.3.2)
  finish cid other mode w (raised e) v ne h = (h.holds.0, h.holds.1, h.holds.2)
  finish cid other mode w exited v ne h = (h.holds.0, h.holds.1, h.holds.2)

  -- The command `load` of a ConstID that is not active is a transaction, whatever the outside
  -- answers. Where it returns, the mode is 0, 1 or 2, the ConstID has the entry with the mode and
  -- with the file that the scope table names, and its status there is active; nothing else of the
  -- tables, and no other entry, has changed. Where it raises or leaves the program, the ConstID has
  -- no entry, and no table and no other entry has changed.
  pub cmd_load-transaction :
      (mode cid : Text) (more : List Text) (other : Text) (w : World)
      → other ≢ cid
      → entry cid w ≡ none
      → IsTransaction mode cid other w (cmd_load (mode ∷ cid ∷ more) w)
  unfolding cmd_load
  cmd_load-transaction mode cid more other w ne h =
      let (r, v) = load_mode (parse_int 10 mode) cid more w in
      finish cid other mode w r v ne (
        (Commits-load_mode cid other (entry other w) w.tables ne (parse_int 10 mode) more).at w
          (record { holds = (h, refl, refl) }))

  -- A ConstID that is active is not loaded again: the command changes nothing.
  cmd_load-active :
      (mode cid : Text) (more : List Text) (a : Active) (w : World)
      → entry cid w ≡ some a
      → (cmd_load (mode ∷ cid ∷ more) w).1 ≡ w
  unfolding cmd_load exit_unless exit load_id load_mode raise load_unless get_runtime_state gets
      ◌>>=◌ continue
  cmd_load-active mode cid more a w h = by_mode (parse_int 10 mode)
    where
      by_test :
          (m : ℕ) (b c : Bool)
          → (exit_unless b
              (exit_unless c (get_runtime_state >>= λ state. load_unless m cid more state))
              w).1
            ≡ w
      by_test m false c = refl
      by_test m true false = refl
      by_test m true true =
          ap (λ b. (exit_unless (not b) (load_new m cid more) w).1) (has-some cid _ a h)

      by_mode : (o : Option ℤ) → (load_mode o cid more w).1 ≡ w
      by_mode none = refl
      by_mode (some (negsuc n)) = refl
      by_mode (some (pos m)) = by_test m (ltb m 3) (is_const_id cid)
