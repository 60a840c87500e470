-- ===== src/Config/Backfill.antt =====
-- The safe spans that an analysis fills in (src/config.py): `_parse_func_offset_json` and
-- `_backfill_safe_spans_from_analysis`. The checkout of the analysis, its script and its files are
-- a parameter.
pub mod Ordered
use xkernel.Base.{ℕ, ◌+◌, ◌≡◌, ◌≢◌, inl, inr, refl, sym, ap, subst, arith, Bool, true, false, not}
use xkernel.Base.{◌&&◌, ◌||◌, Option, none, some, List, [], ◌∷◌, ◌++◌, if◌then◌else◌, ◌==◌}
use xkernel.Base.{HasTest, ◌↔◌, list_eq, nat_eq, contains, length, drop, leb→le, ◌⊎◌, All}
use xkernel.Base.{Bool-cases, Option-cases}
use xkernel.Base.Int.{ℤ, leb_ℤ, ◌≤ℤ◌, pos, negsuc}
use xkernel.Base.Text.{Text, text, text_iff, strip, starts_with, parse_int}
use xkernel.Config.{SpanTexts, TunableConfig, Checked, accepted, refused, ◌>>=◌, Refusal, filled}

-- An entry of a file; an offset that is not there is an empty text.
pub record OffsetEntry : Type 0 where
  pub function : Option Text
  pub offset : Text

pub record Analysis : Type 0 where
  pub is_there : Bool
  pub has_dataset : Text → Bool
  pub succeeds : Text → Bool
  pub files : Text → List (Option (List OffsetEntry))

unfoldable pub dash : Text
dash = text " - "

-- What stands in front of the first ` - ` and behind it.
unfoldable pub put_first : ℕ → Option (Text × Text) → Option (Text × Text)
put_first c none = none
put_first c (some (front, behind)) = some (c ∷ front, behind)

unfoldable pub cut_dash : Text → Option (Text × Text)
cut_dash [] = none
cut_dash (c ∷ s) =
    if starts_with (c ∷ s) dash then some ([], drop 2 s) else put_first c (cut_dash s)

unfoldable pub or_bad_offset : Option ℤ → Checked ℤ
or_bad_offset none = refused Refusal.bad_offset
or_bad_offset (some z) = accepted z

unfoldable pub read_offset : Text → Checked ℤ
read_offset s = or_bad_offset (parse_int 16 s)

-- The smaller offset comes first.
unfoldable pub ordered_span : Text → Text → Text → Checked SpanTexts
ordered_span func soff eoff = do
  a ← read_offset soff
  b ← read_offset eoff
  accepted (if leb_ℤ b a then (func, eoff, soff) else (func, soff, eoff))

unfoldable pub analysed_span : Text → Text × Text → Checked SpanTexts
analysed_span func (front, behind) = ordered_span func (strip front) (strip behind)

unfoldable pub entry_span : Option Text → Option (Text × Text) → Option (Checked SpanTexts)
entry_span none cut = none
entry_span (some func) none = none
entry_span (some func) (some offsets) = some (analysed_span func offsets)

unfoldable pub add_span :
    Option (Checked SpanTexts) → Checked (List SpanTexts) → Checked (List SpanTexts)
add_span none rest = rest
add_span (some checked) rest = do span ← checked; spans ← rest; accepted (span ∷ spans)

unfoldable pub spans_of_entries : List OffsetEntry → Checked (List SpanTexts)
spans_of_entries [] = accepted []
spans_of_entries (entry ∷ entries) =
    add_span (entry_span (filled entry.function) (cut_dash entry.offset)) (spans_of_entries entries)

-- A file that cannot be read has no spans.
unfoldable pub parse_func_offset_json : Option (List OffsetEntry) → Checked (List SpanTexts)
parse_func_offset_json none = accepted []
parse_func_offset_json (some entries) = spans_of_entries entries

unfoldable pub span_beq : SpanTexts → SpanTexts → Bool
span_beq (a, b, c) (d, e, f) = a == d && b == e && c == f

pub span_beq_iff : (x y : SpanTexts) → (span_beq x y ≡ true) ↔ (x ≡ y)
unfolding span_beq
span_beq_iff (a, b, c) (d, e, f) = ground (arith, text_iff a d, text_iff b e, text_iff c f)

instance abbrev pub span_eq : HasTest SpanTexts
span_eq = record { test = span_beq; means = span_beq_iff }

-- The spans that were not seen before.
unfoldable pub add_new : List SpanTexts → List SpanTexts → List SpanTexts
add_new all [] = all
add_new all (span ∷ spans) = add_new (if contains all span then all else all ++ (span ∷ [])) spans

unfoldable pub collect_files :
    List SpanTexts → List (Option (List OffsetEntry)) → Checked (List SpanTexts)
collect_files all [] = accepted all
collect_files all (file ∷ files) = do
  spans ← parse_func_offset_json file
  collect_files (add_new all spans) files

unfoldable pub with_found_spans : TunableConfig → List SpanTexts → TunableConfig
with_found_spans config [] = config
with_found_spans config (span ∷ spans) = record config { safe_spans = some (span ∷ spans) }

unfoldable pub analysed : TunableConfig → Checked (List SpanTexts) → Checked TunableConfig
analysed config (refused e) = refused e
analysed config (accepted spans) = accepted (with_found_spans config spans)

module _ (analysis : Analysis) where
  unfoldable pub resolve_missing : TunableConfig → Checked TunableConfig
  resolve_missing config =
      if analysis.has_dataset config.name && analysis.succeeds config.name
      then analysed config (collect_files [] (analysis.files config.name))
      else accepted config

  unfoldable pub resolve_as : Option (List SpanTexts) → TunableConfig → Checked TunableConfig
  resolve_as none config = resolve_missing config
  resolve_as (some spans) config = accepted config

  unfoldable pub resolve_entry : TunableConfig → Checked TunableConfig
  resolve_entry config = resolve_as config.safe_spans config

  unfoldable pub resolve_each : List TunableConfig → Checked (List TunableConfig)
  resolve_each [] = accepted []
  resolve_each (config ∷ configs) = do
    c ← resolve_entry config
    cs ← resolve_each configs
    accepted (c ∷ cs)

  -- Where all have spans, or the analysis is not there, nothing changes.
  unfoldable pub all_have_spans : List TunableConfig → Bool
  all_have_spans [] = true
  all_have_spans (config ∷ configs) = elim config.safe_spans [
    | none ↦ false
    | some spans ↦ all_have_spans configs
  ]

  unfoldable pub backfill_safe_spans : List TunableConfig → Checked (List TunableConfig)
  backfill_safe_spans configs =
      if all_have_spans configs || not analysis.is_there
      then accepted configs
      else resolve_each configs
