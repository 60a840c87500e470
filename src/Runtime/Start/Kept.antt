-- ===== src/Runtime/Start/Kept.antt =====
-- What the steps of the command `load` leave as it is until the last.
use xkernel.Base.{ℕ, zero, suc, Bool, true, false, List, Option, some, none, ◌||◌}
use xkernel.Base.Dict.{Dict}
use xkernel.Base.Int.{ℤ}
use xkernel.Base.Text.{Text}
use xkernel.Tables.{Tables}
use xkernel.Runtime.{Host, State, Run}
use xkernel.Runtime.Keeps.{Keeps, On, keeps_rules, Keeps-bind, Keeps-give, Keeps-ask, Keeps-if}
use xkernel.Runtime.Keeps.{Keeps-pure}
use xkernel.Runtime.Maps.{activate_constid}
use xkernel.Runtime.Unload.{any_line}
use xkernel.Runtime.Load.{last_done, is_timed_out}
use xkernel.Runtime.Unload.Kept.{Stable, Keeps-unload_constid, Keeps-set_bss_variable}
use xkernel.Runtime.Unload.Kept.{Keeps-is_consistency_loaded}
use xkernel.Runtime.Load.Programs.{Keeps-built}
use xkernel.Runtime.Start.{is_true, poll_lines, poll_output, poll_transition, give_up}
use xkernel.Runtime.Start.{after_insmod_consistency, insmod_with, run_transition}
use xkernel.Runtime.Start.{global_transition, activate_mode}

module _ ⦃host : Host⦄ {Q : Option State → Tables → Type 0} where
  pub Keeps-activate : (d : Dict Text ℕ) → Keeps (On Q) (activate_constid d)
  unfolding activate_constid
  Keeps-activate d = search Keeps-set_bss_variable

  Keeps-poll_lines : (l : List Text) (m : Run Bool) → Keeps (On Q) m → Keeps (On Q) (poll_lines l m)
  unfolding poll_lines
  Keeps-poll_lines l m k =
      Keeps-if (is_true (last_done l) || any_line is_timed_out l) _ _ (Keeps-pure _) k

  Keeps-poll_output :
      (n : ℕ) (o : Option (List Text)) (m : Run Bool)
      → Keeps (On Q) m
      → Keeps (On Q) (poll_output n o m)
  unfolding poll_output
  Keeps-poll_output n none m k = k
  Keeps-poll_output n (some l) m k = Keeps-poll_lines _ m k

  Keeps-poll_transition : (left n : ℕ) → Keeps (On Q) (poll_transition left n)
  unfolding poll_transition
  Keeps-poll_transition zero n = search keeps_rules
  Keeps-poll_transition (suc left) n = Keeps-bind _ _ (Keeps-give _) (λ b.
      Keeps-bind _ _ (Keeps-ask _) (λ o. Keeps-poll_output n o _ (Keeps-poll_transition left n)))

  module _ {cid : Text} (s : Stable Q cid) where
    Keeps-give_up : Keeps (On Q) (give_up cid)
    unfolding give_up
    Keeps-give_up = search (keeps_rules, Keeps-unload_constid)

    Keeps-after_insmod_consistency :
        (d : Dict Text ℕ) (t : ℤ) (n : ℕ) (b : Bool)
        → Keeps (On Q) (after_insmod_consistency cid d t n b)
    unfolding after_insmod_consistency
    Keeps-after_insmod_consistency d t n false = search (keeps_rules, Keeps-give_up)
    Keeps-after_insmod_consistency d t n true =
        search (keeps_rules, Keeps-poll_transition, Keeps-activate)

    Keeps-insmod_with : (d : Dict Text ℕ) (o : Option ℤ) → Keeps (On Q) (insmod_with cid d o)
    unfolding insmod_with
    Keeps-insmod_with d none = search keeps_rules
    Keeps-insmod_with d (some t) = search (keeps_rules, Keeps-after_insmod_consistency)

    Keeps-run_transition :
        (more : List Text) (d : Dict Text ℕ) (b : Bool) → Keeps (On Q) (run_transition cid more d b)
    unfolding run_transition
    Keeps-run_transition more d false = search (keeps_rules, Keeps-give_up)
    Keeps-run_transition more d true =
        search (keeps_rules, Keeps-is_consistency_loaded, Keeps-insmod_with) depth 9

    Keeps-global_transition :
        (more : List Text) (d : Dict Text ℕ) → Keeps (On Q) (global_transition cid more d)
    unfolding global_transition
    Keeps-global_transition more d = search (keeps_rules, Keeps-built, Keeps-run_transition)

    pub Keeps-activate_mode :
        (mode : ℕ) (more : List Text) (d : Dict Text ℕ)
        → Keeps (On Q) (activate_mode mode cid more d)
    unfolding activate_mode
    Keeps-activate_mode zero more d = search keeps_rules
    Keeps-activate_mode (suc zero) more d = search (keeps_rules, Keeps-activate)
    Keeps-activate_mode (suc (suc zero)) more d = search Keeps-global_transition
    Keeps-activate_mode (suc (suc (suc n))) more d = search keeps_rules
