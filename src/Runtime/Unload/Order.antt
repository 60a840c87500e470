-- ===== src/Runtime/Unload/Order.antt =====
-- The order of the commands of a reverse transition (src/cli.py).
use xkernel.Base.{ℕ, zero, suc, ◌<◌, ◌≡◌, refl, sym, subst, ap, ◌∙◌, arith, Bool, true, false}
use xkernel.Base.{List, [], ◌∷◌, ◌++◌, append-nil, append_assoc, Option, some, none, All}
use xkernel.Base.Dict.{Dict}
use xkernel.Base.Text.{Text, text, lstrip_char}
use xkernel.Runtime.{Host, World, Run, Command, ask, give, pure, continue, ◌>>=◌}
use xkernel.Runtime.{get_runtime_state, set_runtime, gets}
use xkernel.Runtime.Keeps.{Keeps, keeps_rules, Keeps-bind}
use xkernel.Runtime.Ensures.{Ensures, EndsIn, Ensures-bind, Ensures-Keeps}
use xkernel.Runtime.Maps.{find_map, zero_key, le_bytes, pin_name, underscored, pack}
use xkernel.Runtime.Maps.{pack_or_raise, update_map_by_id, set_map, set_bss_variable}
use xkernel.Runtime.Maps.{deactivate_constid, bump_found, bump_epoch}
use xkernel.Runtime.Unload.{forget, is_consistency_loaded, unload_constid, unload_removed}
use xkernel.Runtime.Unload.{poll_turn, poll_within, poll_reverse, poll_from_now, after_rmmod}
use xkernel.Runtime.Unload.{remove_consistency, reverse_mode}

-- The command takes the pins of programs and maps away.
abbrev pub is_removal : Command → Bool
is_removal (Command.remove_pins cid) = true
is_removal Command.remove_all_pins = true
is_removal _ = false

abbrev pub IsNoRemoval : Command → Type 0
IsNoRemoval c = is_removal c ≡ false

All-snoc :
    (cs : List Command) (c : Command)
    → All IsNoRemoval cs
    → IsNoRemoval c
    → All IsNoRemoval (cs ++ (c ∷ []))
All-snoc [] c h k = (k, tt)
All-snoc (d ∷ cs) c h k = (h.0, All-snoc cs c h.1 k)

module _ ⦃host : Host⦄ where
  -- Since `before`, commands were given, and none is a removal.
  pub record Quiet (before : List Command) (w : World) : Type 0 where
    pub given : List Command
    pub log_is : w.log ≡ before ++ given
    pub no_removal : All IsNoRemoval given

  module _ {before : List Command} where
    Quiet-ask : {A : Type 0} (q : host.K → A × host.K) → Keeps (Quiet before) (ask q)
    unfolding ask
    Quiet-ask q = record {
      at = λ w h. record { given = h.given; log_is = h.log_is; no_removal = h.no_removal };
    }

    Quiet-give : (c : Command) → IsNoRemoval c → Keeps (Quiet before) (give c)
    unfolding give
    Quiet-give c k = record {
      at = λ w h. record {
        given = h.given ++ (c ∷ []);
        log_is = ap (λ l. l ++ (c ∷ [])) h.log_is ∙ append_assoc before h.given (c ∷ []);
        no_removal = All-snoc h.given c h.no_removal k;
      };
    }

    Quiet-pack_or_raise : (o : Option (List ℕ)) → Keeps (Quiet before) (pack_or_raise o)
    unfolding pack_or_raise
    Quiet-pack_or_raise none = search keeps_rules
    Quiet-pack_or_raise (some b) = search keeps_rules

    Quiet-set_map : (o : Option ℕ) (v : ℕ) → Keeps (Quiet before) (set_map o v)
    unfolding set_map update_map_by_id
    Quiet-set_map none v = search keeps_rules
    Quiet-set_map (some i) v =
        Keeps-bind _ _ (Quiet-pack_or_raise _)
          (λ val. Quiet-give (Command.map_update i zero_key val) refl)

    Quiet-bump_epoch : (d : Dict Text ℕ) → Keeps (Quiet before) (bump_epoch d)
    unfolding bump_epoch bump_found set_bss_variable
    Quiet-bump_epoch d = Quiet-bump_found (find_map (text ".bss.xk_epoch") (text "_bss_xk_epoch") d)
      where
        Quiet-bump_found : (o : Option ℕ) → Keeps (Quiet before) (bump_found d o)
        Quiet-bump_found none = search keeps_rules
        Quiet-bump_found (some i) = Keeps-bind _ _ (Quiet-ask _) (λ raw. Quiet-set_map _ _)

    Quiet-is_consistency_loaded : Keeps (Quiet before) is_consistency_loaded
    unfolding is_consistency_loaded
    Quiet-is_consistency_loaded = search (keeps_rules, Quiet-ask)

    Quiet-poll_turn :
        (b : Bool) (m : Run Bool) → Keeps (Quiet before) m → Keeps (Quiet before) (poll_turn b m)
    unfolding poll_turn
    Quiet-poll_turn true m k = search keeps_rules
    Quiet-poll_turn false m k = Keeps-bind _ _ (Quiet-give (Command.sleep 500) refl) (λ b. k)

    Quiet-poll_within :
        (b : Bool) (m : Run Bool) → Keeps (Quiet before) m → Keeps (Quiet before) (poll_within b m)
    unfolding poll_within
    Quiet-poll_within true m k = Keeps-bind _ _ (Quiet-ask _) (λ output. Quiet-poll_turn _ m k)
    Quiet-poll_within false m k = search keeps_rules

    Quiet-poll_reverse : (fuel start : ℕ) → Keeps (Quiet before) (poll_reverse fuel start)
    unfolding poll_reverse
    Quiet-poll_reverse zero start = search keeps_rules
    Quiet-poll_reverse (suc fuel) start =
        Keeps-bind _ _ (Quiet-ask _) (λ now. Quiet-poll_within _ _ (Quiet-poll_reverse fuel start))

    Quiet-after_rmmod : (b : Bool) → Keeps (Quiet before) (after_rmmod b)
    unfolding after_rmmod poll_from_now
    Quiet-after_rmmod true = Keeps-bind _ _ (Quiet-ask _) (λ start. Quiet-poll_reverse _ start)
    Quiet-after_rmmod false = search keeps_rules

    Quiet-remove_consistency : (b : Bool) → Keeps (Quiet before) (remove_consistency b)
    unfolding remove_consistency
    Quiet-remove_consistency true =
        Keeps-bind _ _ (Quiet-give Command.rmmod_consistency refl) (λ b. Quiet-after_rmmod b)
    Quiet-remove_consistency false = search keeps_rules

  -- Since `before`, the last command is the removal of a ConstID's pins, and no other is a removal.
  pub record Removed (before : List Command) (cid : Text) (w : World) : Type 0 where
    pub given : List Command
    pub log_is : w.log ≡ before ++ (given ++ (Command.remove_pins cid ∷ []))
    pub no_removal : All IsNoRemoval given

  module _ (before : List Command) (cid : Text) where
    abbrev Ends : {A : Type 0} → Run A → Type 0
    Ends m = Ensures (Quiet before) (Quiet before) m (λ b. Removed before cid)

    give-Removed :
        Ensures
          (Quiet before)
          (Quiet before)
          (give (Command.remove_pins cid))
          (λ b. Removed before cid)
    unfolding give
    give-Removed = record {
      at = λ w h. record {
        given = h.given;
        log_is =
            ap (λ l. l ++ (Command.remove_pins cid ∷ [])) h.log_is ∙ append_assoc before h.given _;
        no_removal = h.no_removal;
      };
    }

    unload_removed-Removed :
        (b : Bool)
        → Ensures
            (Removed before cid)
            (Quiet before)
            (unload_removed cid b)
            (λ c. Removed before cid)
    unfolding unload_removed ◌>>=◌ continue get_runtime_state gets forget set_runtime pure
    unload_removed-Removed true = record {
      at = λ w h. record { given = h.given; log_is = h.log_is; no_removal = h.no_removal };
    }
    unload_removed-Removed false = record { at = λ w h. h }

    Ends-unload : Ends (unload_constid cid)
    unfolding unload_constid
    Ends-unload = Ensures-bind _ _ give-Removed unload_removed-Removed

    after :
        {A : Type 0} {m : Run A} {f : A → Run Bool}
        → Keeps (Quiet before) m
        → ((a : A) → Ends (f a))
        → Ends (m >>= f)
    after {m} {f} k kf = Ensures-bind m f (Ensures-Keeps k) kf

    deactivate-Quiet :
        (d : Dict Text ℕ) (i : ℕ) (w : World)
        → find_map (text ".bss.xk_active") (text "_bss_xk_active") d ≡ some i
        → before ≡ w.log ++ (Command.map_update i zero_key zero_key ∷ [])
        → EndsIn (Quiet before) (λ b. Quiet before) (deactivate_constid d w)
    unfolding deactivate_constid set_bss_variable set_map pin_name underscored lstrip_char text pack
        pack_or_raise update_map_by_id le_bytes give pure ◌>>=◌ continue
    deactivate-Quiet d i w h e = simp h (record {
      given = [];
      log_is = ap (λ l. l) (sym e) ∙ sym (append-nil before);
      no_removal = tt;
    })

  -- If the maps of the ConstID have one named `xk_active`, a reverse transition of mode 0, 1 or 2
  -- switches the new values off before it removes anything:
  -- its first command is the update of the map `xk_active` to zero, and its last is the removal of
  -- the ConstID's pins, the only one. Where it raises, only the update and commands that remove
  -- nothing were given.
  pub reverse_mode-order :
      (mode : ℕ) (cid : Text) (map_info : Dict Text ℕ) (i : ℕ) (w : World)
      → mode < 3
      → find_map (text ".bss.xk_active") (text "_bss_xk_active") map_info ≡ some i
      → EndsIn
          (Quiet (w.log ++ (Command.map_update i zero_key zero_key ∷ [])))
          (λ b. Removed (w.log ++ (Command.map_update i zero_key zero_key ∷ [])) cid)
          (reverse_mode mode cid map_info w)
  unfolding reverse_mode
  reverse_mode-order mode cid map_info i w l h = (by_mode mode l).at w refl
    where
      before : List Command
      before = w.log ++ (Command.map_update i zero_key zero_key ∷ [])

      off : Ensures (λ v. v ≡ w) (Quiet before) (deactivate_constid map_info) (λ b. Quiet before)
      off = record {
        at = λ v e.
            subst (λ u. EndsIn (Quiet before) (λ b. Quiet before) (deactivate_constid map_info u))
              (sym e) (deactivate-Quiet before cid map_info i w h refl);
      }

      by_mode :
          (m : ℕ)
          → m < 3
          → Ensures
              (λ v. v ≡ w)
              (Quiet before)
              (reverse_mode m cid map_info)
              (λ b. Removed before cid)
      by_mode zero k = Ensures-bind _ _ off (λ a. Ends-unload before cid)
      by_mode (suc zero) k = Ensures-bind _ _ off (λ a.
          after before cid (Quiet-bump_epoch map_info) (λ b.
            after before cid (Quiet-give (Command.sleep 2000) refl) (λ c. Ends-unload before cid)))
      by_mode (suc (suc zero)) k = Ensures-bind _ _ off (λ a.
          after before cid Quiet-is_consistency_loaded
            (λ b. after before cid (Quiet-remove_consistency b) (λ c. Ends-unload before cid)))
      by_mode (suc (suc (suc n))) k = absurd (omega (arith, k))
