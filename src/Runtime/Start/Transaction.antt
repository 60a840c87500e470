-- ===== src/Runtime/Start/Transaction.antt =====
-- The steps of the command `load` on the runtime state and the tables (src/cli.py).
use xkernel.Base.{ℕ, ◌≡◌, ◌≢◌, refl, ap, ◌∙◌, arith, Bool, true, false, list_eq, nat_eq, beq_refl}
use xkernel.Base.{beq_ne, ltb→lt, ◌<◌, List, [], ◌∷◌, Option, some, none, ltb, ◌=ℕ◌}
use xkernel.Base.Int.{ℤ, pos, negsuc}
use xkernel.Base.Dict.{Dict, lookup, erase, lookup-insert, lookup-erase_ne}
use xkernel.Base.Text.{Text, text}
use xkernel.Tables.{Tables}
use xkernel.Tables.Status.{update_status}
use xkernel.Runtime.{Host, World, Command, Active, State, Run, state_of, exit, give, gets}
use xkernel.Runtime.{get_runtime_state, set_runtime, set_tables, ◌>>=◌, ◌>>◌, continue}
use xkernel.Runtime.Keeps.{Keeps, On, Keeps-ask, Keeps-give, Keeps-gets}
use xkernel.Runtime.Ensures.{Ensures, Ensures-bind, Ensures-Keeps, Ensures-exit, Ensures-raise}
use xkernel.Runtime.Ensures.{Ensures-gets, Ensures-value, Ensures-returning}
use xkernel.Runtime.Unload.Kept.{Stable}
use xkernel.Runtime.Load.{resolve_constid_to_bpf, generate_cs_artifact}
use xkernel.Runtime.Load.Kept.{Keeps-generate_cs_file, Keeps-generate_ss_file}
use xkernel.Runtime.Load.Kept.{Keeps-load_critical_spans, Keeps-load_safe_spans}
use xkernel.Runtime.Load.Programs.{Keeps-generate_cs_artifact, Keeps-ensure_kfuncs}
use xkernel.Runtime.Load.Programs.{Keeps-load_and_attach}
use xkernel.Runtime.Stop.Entries.{EntryIs}
use xkernel.Runtime.SpanFiles.{generate_cs_file, generate_ss_file}
use xkernel.Runtime.Start.{record_active, commit, start, exit_unless, load_programs, load_file}
use xkernel.Runtime.Start.{load_new, load_unless, load_id, load_mode, is_const_id}
use xkernel.Runtime.Start.Kept.{Keeps-activate_mode}
use xkernel.Runtime.Stop

-- The ConstID has no entry, another one has this, and the tables are these.
abbrev pub Unloaded : Text → Text → Option Active → Tables → Option State → Tables → Type 0
Unloaded cid other x tables r t = EntryIs cid none r t × EntryIs other x r t × (t ≡ tables)

abbrev pub active_entry : ℕ → Text → Active
active_entry mode name = record { mode = mode; bpf_file = name; status = text "active" }

-- The ConstID has its entry, and its status in the scope table is active.
abbrev pub IsLoaded :
    ℕ → Text → Text → Text → Option Active → Tables → Option State → Tables → Type 0
IsLoaded mode name cid other x tables r t =
    EntryIs cid (some (active_entry mode name)) r t
    × EntryIs other x r t
    × (t ≡ record tables { scope = update_status cid (text "active") tables.scope })

lookup-erase-none :
    (cid : Text) (d : Dict Text Active) → lookup cid d ≡ none → lookup cid (erase cid d) ≡ none
unfolding lookup erase
lookup-erase-none cid [] h = refl
lookup-erase-none cid ((j, a) ∷ d) h = ground (arith, lookup-erase-none cid d)

Unloaded-Stable :
    (cid other : Text) (x : Option Active) (tables : Tables)
    → other ≢ cid
    → Stable (Unloaded cid other x tables) cid
unfolding state_of
Unloaded-Stable cid other x tables ne = record {
  flagged = λ b r t h. h;
  erased = λ r t h. (lookup-erase-none cid _ h.0, lookup-erase_ne cid other _ ne ∙ h.1, h.2);
}

module _ ⦃host : Host⦄ (cid other : Text) (x : Option Active) (tables : Tables)
    (ne : other ≢ cid) where
  abbrev Before : World → Type 0
  Before = On (Unloaded cid other x tables)

  abbrev Commits : ℕ → Text → Run Unit → Type 0
  Commits mode name m = Ensures Before Before m (λ u. On (IsLoaded mode name cid other x tables))

  Commits-commit : (mode : ℕ) (name : Text) → Commits mode name (commit mode cid name)
  unfolding commit Stop.mark_status set_tables get_runtime_state gets record_active set_runtime
      state_of ◌>>=◌ continue
  Commits-commit mode name = record {
    at = λ w h. record {
      holds = (
        lookup-insert cid cid _ _ ∙ rw (beq_refl cid) refl,
        lookup-insert cid other _ _ ∙ rw (beq_ne ne) h.holds.1,
        ap (λ (t : Tables). record t { scope = update_status cid (text "active") t.scope })
            h.holds.2,
      );
    };
  }

  stable : Stable (Unloaded cid other x tables) cid
  stable = Unloaded-Stable cid other x tables ne

  module _ (mode : ℕ) (name : Text) where
    after :
        {A : Type 0} (m : Run A) (f : A → Run Unit)
        → Keeps Before m
        → ((a : A) → Commits mode name (f a))
        → Commits mode name (m >>= f)
    after m f k kf = Ensures-bind m f (Ensures-Keeps k) kf

    Commits-exit : Commits mode name exit
    Commits-exit = Ensures-exit (λ w h. h)

    Commits-unless :
        (b : Bool) (m : Run Unit) → Commits mode name m → Commits mode name (exit_unless b m)
    unfolding exit_unless
    Commits-unless false m k = Commits-exit
    Commits-unless true m k = k

    Commits-start :
        (more : List Text) (o : Option (Dict Text ℕ))
        → Commits mode name (start mode cid more name o)
    unfolding start
    Commits-start more none = Commits-exit
    Commits-start more (some d) = after _ _ (Keeps-load_critical_spans d) (λ u.
        after _ _ (Keeps-load_safe_spans d)
          (λ v. after _ _ (Keeps-activate_mode stable mode more d) (λ y. Commits-commit mode name)))

    Commits-load_programs :
        (more : List Text) → Commits mode name (load_programs mode cid more name)
    unfolding load_programs
    Commits-load_programs more = after _ _ (Keeps-ensure_kfuncs stable.flagged) (λ loaded.
        Commits-unless loaded _
          (after _ _ (Keeps-load_and_attach _ cid mode) (λ o. Commits-start more o)))

    Commits-files :
        (more : List Text) (c_path : Text)
        → Commits mode name do
          generate_cs_file cid
          generate_ss_file cid
          generate_cs_artifact (mode =ℕ 1)
          compiled ← give (Command.compile c_path)
          exit_unless compiled (load_programs mode cid more name)
    Commits-files more c_path = after _ _ (Keeps-generate_cs_file cid) (λ a.
        after _ _ (Keeps-generate_ss_file cid) (λ b. after _ _ (Keeps-generate_cs_artifact _) (λ d.
          after _ _ (Keeps-give _)
            (λ compiled. Commits-unless compiled _ (Commits-load_programs more)))))

  Commits-load_file :
      (mode : ℕ) (more : List Text) (name : Text) → Commits mode name (load_file mode cid more name)
  unfolding load_file
  Commits-load_file mode more [] = Commits-exit mode []
  Commits-load_file mode more (c ∷ name) =
      after mode (c ∷ name) _ _ (Keeps-ask _)
        (λ there. Commits-unless mode (c ∷ name) there _ (Commits-files mode (c ∷ name) more _))

  Commits-load_new :
      (mode : ℕ) (more : List Text)
      → Commits mode (resolve_constid_to_bpf cid tables.scope) (load_new mode cid more)
  unfolding load_new
  Commits-load_new mode more =
      Ensures-value (resolve_constid_to_bpf cid tables.scope) _ _
        (Ensures-gets _
          (λ w h. (ap (λ (t : Tables). resolve_constid_to_bpf cid t.scope) h.holds.2, h)))
        (Commits-load_file mode more _)

  Commits-load_id :
      (mode : ℕ) (more : List Text)
      → Commits mode (resolve_constid_to_bpf cid tables.scope) (load_id mode cid more)
  unfolding load_id get_runtime_state load_unless
  Commits-load_id mode more =
      let name = resolve_constid_to_bpf cid tables.scope in
      Commits-unless mode name (is_const_id cid) _ (
        after mode name _ _ (Keeps-gets _)
          (λ state. Commits-unless mode name _ _ (Commits-load_new mode more)))

  -- The mode that the command line says.
  abbrev pub IsStarted : Option ℤ → Option State → Tables → Type 0
  IsStarted o r t =
      (mode : ℕ) × (o ≡ some (pos mode))
      × (mode < 3)
      × IsLoaded mode (resolve_constid_to_bpf cid tables.scope) cid other x tables r t

  pub Commits-load_mode :
      (o : Option ℤ) (more : List Text)
      → Ensures Before Before (load_mode o cid more) (λ u. On (IsStarted o))
  unfolding load_mode exit_unless
  Commits-load_mode none more = Ensures-raise _ (λ w h. h)
  Commits-load_mode (some (negsuc n)) more = Ensures-exit (λ w h. h)
  Commits-load_mode (some (pos mode)) more = by_test (ltb mode 3) refl
    where
      by_test :
          (b : Bool)
          → ltb mode 3 ≡ b
          → Ensures Before Before
              (exit_unless b (load_id mode cid more))
              (λ u. On (IsStarted (some (pos mode))))
      by_test false e = Ensures-exit (λ w h. h)
      by_test true e =
          Ensures-returning (λ u w h. record { holds = (mode, refl, ltb→lt mode 3 e, h.holds) })
            (Commits-load_id mode more)
