-- ===== src/Runtime/Load/Kept.antt =====
-- What the span files, the span maps and the loading of programs leave as it is: the entries of the
-- runtime state, and the tables.
use xkernel.Base.{ℕ, suc, Bool, List, [], ◌∷◌, Option, some, none, contains, list_eq, nat_eq}
use xkernel.Base.{◌==◌}
use xkernel.Base.Dict.{Dict}
use xkernel.Base.Text.{Text}
use xkernel.Tables.{Tables, Row, File}
use xkernel.Runtime.{Host, State, Run}
use xkernel.Runtime.Keeps.{Keeps, On, keeps_rules, Keeps-pure, Keeps-bind, Keeps-give, Keeps-if}
use xkernel.Runtime.Maps.{update_map_by_id}
use xkernel.Runtime.Unload.Kept.{Keeps-pack_or_raise}
use xkernel.Runtime.Spans.{Span, update_spans, update_map_spans, update_length, update_cs}
use xkernel.Runtime.Spans.{update_ss, with_spans, sort_spans, load_lines}
use xkernel.Runtime.Spans.{load_critical_spans_for_constid, load_safe_spans_for_constid}
use xkernel.Runtime.SpanFiles.{add_address, add_cs_row, collect_cs, write_cs, generate_from}
use xkernel.Runtime.SpanFiles.{generate_cs_file, add_ss_row, collect_ss, write_ss}
use xkernel.Runtime.SpanFiles.{generate_ss_file}

module _ ⦃host : Host⦄ {Q : Option State → Tables → Type 0} where
  Keeps-add_address : (f s e : Text) (l : List Text) → Keeps (On Q) (add_address f s e l)
  unfolding add_address
  Keeps-add_address f s e l = search keeps_rules

  Keeps-add_cs_row : (ids : List Text) (parts l : List Text) → Keeps (On Q) (add_cs_row ids parts l)
  unfolding add_cs_row
  Keeps-add_cs_row ids [] l = search keeps_rules
  Keeps-add_cs_row ids (a ∷ []) l = search keeps_rules
  Keeps-add_cs_row ids (a ∷ b ∷ []) l = search keeps_rules
  Keeps-add_cs_row ids (a ∷ b ∷ c ∷ []) l = search keeps_rules
  Keeps-add_cs_row ids (cid ∷ f ∷ s ∷ e ∷ more) l =
      Keeps-if (contains ids cid) _ _ (Keeps-add_address f s e l) (Keeps-pure l)

  Keeps-collect_cs :
      (ids : List Text) (rows : List Row) (l : List Text) → Keeps (On Q) (collect_cs ids rows l)
  unfolding collect_cs
  Keeps-collect_cs ids [] l = search keeps_rules
  Keeps-collect_cs ids (r ∷ rows) l =
      Keeps-bind _ _ (Keeps-add_cs_row ids _ l) (λ more. Keeps-collect_cs ids rows more)

  Keeps-write_cs : (l : List Text) → Keeps (On Q) (write_cs l)
  unfolding write_cs
  Keeps-write_cs [] = search keeps_rules
  Keeps-write_cs (e ∷ es) = search keeps_rules

  Keeps-generate_from : (ids : List Text) (f : File) → Keeps (On Q) (generate_from ids f)
  unfolding generate_from
  Keeps-generate_from ids none = search keeps_rules
  Keeps-generate_from ids (some rows) = search (keeps_rules, Keeps-collect_cs, Keeps-write_cs)

  pub Keeps-generate_cs_file : (ids : Text) → Keeps (On Q) (generate_cs_file ids)
  unfolding generate_cs_file
  Keeps-generate_cs_file ids = search (keeps_rules, Keeps-generate_from)

  Keeps-add_ss_row :
      (ids : List Text) (parts : List Text) (l : Bool × List Text)
      → Keeps (On Q) (add_ss_row ids parts l)
  unfolding add_ss_row
  Keeps-add_ss_row ids [] l = search keeps_rules
  Keeps-add_ss_row ids (a ∷ []) l = search keeps_rules
  Keeps-add_ss_row ids (a ∷ b ∷ []) l = search keeps_rules
  Keeps-add_ss_row ids (a ∷ b ∷ c ∷ []) l = search keeps_rules
  Keeps-add_ss_row ids (cid ∷ f ∷ s ∷ e ∷ more) (has_ss_raw, l) =
      Keeps-if (contains ids cid) _ _
        (Keeps-if (s == e) _ _ (Keeps-pure _)
          (Keeps-bind _ _ (Keeps-add_address f s e l) (λ es. Keeps-pure _)))
        (Keeps-pure _)

  Keeps-collect_ss :
      (ids : List Text) (rows : List Row) (l : Bool × List Text)
      → Keeps (On Q) (collect_ss ids rows l)
  unfolding collect_ss
  Keeps-collect_ss ids [] l = search keeps_rules
  Keeps-collect_ss ids (r ∷ rows) l =
      Keeps-bind _ _ (Keeps-add_ss_row ids _ l) (λ more. Keeps-collect_ss ids rows more)

  Keeps-write_ss : (l : List Text) → Keeps (On Q) (write_ss l)
  unfolding write_ss
  Keeps-write_ss [] = search keeps_rules
  Keeps-write_ss (e ∷ es) = search keeps_rules

  pub Keeps-generate_ss_file : (ids : Text) → Keeps (On Q) (generate_ss_file ids)
  unfolding generate_ss_file
  Keeps-generate_ss_file ids = search (keeps_rules, Keeps-collect_ss, Keeps-write_ss)

  Keeps-update_spans : (m i : ℕ) (ss : List Span) → Keeps (On Q) (update_spans m i ss)
  unfolding update_spans update_map_by_id
  Keeps-update_spans m i [] = search keeps_rules
  Keeps-update_spans m i (s ∷ ss) = Keeps-bind _ _ (Keeps-pack_or_raise _) (λ key.
      Keeps-bind _ _ (Keeps-pack_or_raise _)
        (λ val. Keeps-bind _ _ (Keeps-give _) (λ b. Keeps-update_spans m (suc i) ss)))

  Keeps-update_map_spans : (o : Option ℕ) (ss : List Span) → Keeps (On Q) (update_map_spans o ss)
  unfolding update_map_spans
  Keeps-update_map_spans none ss = search keeps_rules
  Keeps-update_map_spans (some m) ss = Keeps-update_spans m 0 ss

  Keeps-update_length : (m : ℕ) (ss : List Span) → Keeps (On Q) (update_length m ss)
  unfolding update_length update_map_by_id
  Keeps-update_length m ss = search (keeps_rules, Keeps-pack_or_raise)

  Keeps-update_cs : (l o : Option ℕ) (ss : List Span) → Keeps (On Q) (update_cs l o ss)
  unfolding update_cs
  Keeps-update_cs none o ss = search Keeps-update_map_spans
  Keeps-update_cs (some l) o ss = search (keeps_rules, Keeps-update_length, Keeps-update_map_spans)

  Keeps-update_ss : (l o : Option ℕ) (ss : List Span) → Keeps (On Q) (update_ss l o ss)
  unfolding update_ss
  Keeps-update_ss none o ss = search keeps_rules
  Keeps-update_ss (some l) o ss = search (keeps_rules, Keeps-update_length, Keeps-update_map_spans)

  Keeps-load_lines :
      (update : List Span → Run Unit) (ls : List Text)
      → ((ss : List Span) → Keeps (On Q) (update ss))
      → Keeps (On Q) (load_lines update ls)
  unfolding load_lines with_spans
  Keeps-load_lines update [] k = search keeps_rules
  Keeps-load_lines update (l ∷ ls) k = Keeps-with_spans update _ k
    where
      Keeps-with_spans :
          (update : List Span → Run Unit) (o : Option (List Span))
          → ((ss : List Span) → Keeps (On Q) (update ss))
          → Keeps (On Q) (with_spans update o)
      Keeps-with_spans update none k = search keeps_rules
      Keeps-with_spans update (some ss) k = k (sort_spans ss)

  pub Keeps-load_critical_spans :
      (d : Dict Text ℕ) → Keeps (On Q) (load_critical_spans_for_constid d)
  unfolding load_critical_spans_for_constid
  Keeps-load_critical_spans d = search (keeps_rules, Keeps-load_lines, Keeps-update_cs)

  pub Keeps-load_safe_spans : (d : Dict Text ℕ) → Keeps (On Q) (load_safe_spans_for_constid d)
  unfolding load_safe_spans_for_constid
  Keeps-load_safe_spans d = search (keeps_rules, Keeps-load_lines, Keeps-update_ss)
