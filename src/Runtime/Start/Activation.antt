-- ===== src/Runtime/Start/Activation.antt =====
-- The activation at the end of a global transition (src/cli.py).
use xkernel.Base.{ℕ, zero, suc, ◌≡◌, refl, ◌||◌, Bool, true, List, [], ◌∷◌, ◌++◌, Option}
use xkernel.Base.{some, none, drop}
use xkernel.Base.Dict.{Dict}
use xkernel.Base.Int.{ℤ, pos, ◌+ℤ◌}
use xkernel.Base.Text.{Text, text, lstrip_char}
use xkernel.Runtime.{Host, World, Run, Command, Outcome, returned, raised, exited, continue, pure}
use xkernel.Runtime.{give, ◌>>=◌}
use xkernel.Runtime.Returns.{Returns, IsReturned, returns_rules, Returns-bind, Returns-give}
use xkernel.Runtime.Returns.{Returns-ask, Returns-if, Returns-pure}
use xkernel.Runtime.Maps.{find_map, zero_key, le_bytes, pin_name, underscored, pack}
use xkernel.Runtime.Maps.{pack_or_raise, update_map_by_id, set_map, set_bss_variable}
use xkernel.Runtime.Maps.{activate_constid}
use xkernel.Runtime.Unload.{any_line}
use xkernel.Runtime.Load.{last_done, is_timed_out, turns}
use xkernel.Runtime.Start.{is_true, poll_lines, poll_output, poll_transition}
use xkernel.Runtime.Start.{after_insmod_consistency}

module _ ⦃host : Host⦄ where
  Returns-poll_output :
      (n : ℕ) (o : Option (List Text)) (m : Run Bool) → Returns m → Returns (poll_output n o m)
  unfolding poll_output poll_lines
  Returns-poll_output n none m k = k
  Returns-poll_output n (some l) m k =
      Returns-if (is_true (last_done (drop n l)) || any_line is_timed_out (drop n l)) _ _
        (Returns-pure _) k

  Returns-poll_transition : (left n : ℕ) → Returns (poll_transition left n)
  unfolding poll_transition
  Returns-poll_transition zero n = search returns_rules
  Returns-poll_transition (suc left) n = Returns-bind _ _ (Returns-give _) (λ b.
      Returns-bind _ _ (Returns-ask _)
        (λ o. Returns-poll_output n o _ (Returns-poll_transition left n)))

  -- The call has returned, and its last command sets the map to one.
  abbrev pub IsActivated : {A : Type 0} → ℕ → Outcome A × World → Type 0
  IsActivated i (returned a, w) =
      (before : List Command) × (w.log
        ≡ before ++ (Command.map_update i zero_key (1 ∷ 0 ∷ 0 ∷ 0 ∷ []) ∷ []))
  IsActivated i (raised e, w) = ⊥
  IsActivated i (exited, w) = ⊥

  activate-IsActivated :
      (d : Dict Text ℕ) (i : ℕ) (w : World)
      → find_map (text ".bss.xk_active") (text "_bss_xk_active") d ≡ some i
      → IsActivated i ((activate_constid d >>= λ b. pure tt) w)
  unfolding activate_constid set_bss_variable set_map pin_name underscored lstrip_char text pack
      pack_or_raise update_map_by_id le_bytes give pure ◌>>=◌ continue
  activate-IsActivated d i w h = simp h (w.log, refl)

  -- If the maps of the ConstID have one named `xk_active`, then after the consistency module is
  -- inserted the ConstID is activated whatever the kernel's log says, also where it reports that the transition timed out: the call returns, and the last command
  -- sets the map `xk_active` to one.
  pub after_insmod_consistency-IsActivated :
      (const_id : Text) (map_info : Dict Text ℕ) (timeout : ℤ) (baseline i : ℕ) (w : World)
      → find_map (text ".bss.xk_active") (text "_bss_xk_active") map_info ≡ some i
      → IsActivated i (after_insmod_consistency const_id map_info timeout baseline true w)
  unfolding after_insmod_consistency continue ◌>>=◌
  after_insmod_consistency-IsActivated const_id map_info timeout baseline i w h =
      let poll : Run Bool = poll_transition (turns (timeout +ℤ pos 5)) baseline in
      by_outcome (poll w) ((Returns-poll_transition (turns (timeout +ℤ pos 5)) baseline).at w)
    where
      by_outcome :
          (r : Outcome Bool × World)
          → IsReturned r.0
          → IsActivated i (continue r.0 (λ b. activate_constid map_info >>= λ c. pure tt) r.1)
      by_outcome (returned b, v) k = activate-IsActivated map_info i v h
      by_outcome (raised e, v) k = absurd k
      by_outcome (exited, v) k = absurd k
