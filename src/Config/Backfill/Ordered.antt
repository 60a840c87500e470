-- ===== src/Config/Backfill/Ordered.antt =====
-- The safe spans that an analysis gives (src/config.py).
use xkernel.Base.{All-append, ◌≡◌, ◌≢◌, ◌⊎◌, inl, inr, refl, sym, ap, subst, arith, Bool, true}
use xkernel.Base.{false, not, ◌&&◌, ◌||◌, Option, none, some, List, [], ◌∷◌, if◌then◌else◌}
use xkernel.Base.{contains, leb→le, All, Bool-cases}
use xkernel.Base.Int.{ℤ, leb_ℤ, ◌≤ℤ◌}
use xkernel.Base.Text.{Text, strip, parse_int}
use xkernel.Config.{SpanTexts, TunableConfig, Checked, accepted, refused, filled}
use xkernel.Config.Valid.{>>=-accepted, accepted_inj}
use xkernel.Config.Backfill.{OffsetEntry, Analysis, cut_dash, or_bad_offset, read_offset}
use xkernel.Config.Backfill.{ordered_span, analysed_span, entry_span, add_span, spans_of_entries}
use xkernel.Config.Backfill.{parse_func_offset_json, span_eq, add_new, collect_files}
use xkernel.Config.Backfill.{with_found_spans, analysed, resolve_missing, resolve_as}
use xkernel.Config.Backfill.{resolve_entry, resolve_each, all_have_spans, backfill_safe_spans}

-- The offsets of a span are numbers, and the first is at most the second.
abbrev pub IsOrdered : SpanTexts → Type 0
IsOrdered (func, soff, eoff) =
    (a : ℤ) × (b : ℤ) × (parse_int 16 soff ≡ some a) × (parse_int 16 eoff ≡ some b) × (a ≤ℤ b)

or_bad_offset-some : (o : Option ℤ) (z : ℤ) → or_bad_offset o ≡ accepted z → o ≡ some z
unfolding or_bad_offset
or_bad_offset-some none z h = cc
or_bad_offset-some (some y) z h = cc

ordered_span-IsOrdered :
    (func soff eoff : Text) (span : SpanTexts)
    → ordered_span func soff eoff ≡ accepted span
    → IsOrdered span
unfolding ordered_span read_offset
ordered_span-IsOrdered func soff eoff span h =
    let (a, ea, h1) = >>=-accepted (or_bad_offset (parse_int 16 soff)) _ h in
    let (b, eb, h2) = >>=-accepted (or_bad_offset (parse_int 16 eoff)) _ h1 in
    let ra = or_bad_offset-some (parse_int 16 soff) a ea in
    let rb = or_bad_offset-some (parse_int 16 eoff) b eb in
    subst IsOrdered (accepted_inj _ span h2) (in_order a b ra rb)
  where
    in_order :
        (a b : ℤ)
        → parse_int 16 soff ≡ some a
        → parse_int 16 eoff ≡ some b
        → IsOrdered (if leb_ℤ b a then (func, eoff, soff) else (func, soff, eoff))
    in_order a b ra rb = elim (Bool-cases (leb_ℤ b a)) [
      | inl swapped ↦
          subst (λ t. IsOrdered (if t then (func, eoff, soff) else (func, soff, eoff)))
            (sym swapped) (b, a, rb, ra, leb→le _ _ swapped)
      | inr kept ↦
          subst (λ t. IsOrdered (if t then (func, eoff, soff) else (func, soff, eoff))) (sym kept)
            (a, b, ra, rb, ground arith)
    ]

add_span-IsOrdered :
    (o : Option (Checked SpanTexts)) (rest : Checked (List SpanTexts)) (spans : List SpanTexts)
    → ((span : SpanTexts) → o ≡ some (accepted span) → IsOrdered span)
    → ((more : List SpanTexts) → rest ≡ accepted more → All IsOrdered more)
    → add_span o rest ≡ accepted spans
    → All IsOrdered spans
unfolding add_span
add_span-IsOrdered none rest spans one more h = more spans h
add_span-IsOrdered (some checked) rest spans one more h =
    let (span, e, h1) = >>=-accepted checked _ h in
    let (tail, f, h2) = >>=-accepted rest _ h1 in
    subst (All IsOrdered) (accepted_inj (span ∷ tail) spans h2) (one span (ap some e), more tail f)

entry_span-IsOrdered :
    (func : Option Text) (cut : Option (Text × Text)) (span : SpanTexts)
    → entry_span func cut ≡ some (accepted span)
    → IsOrdered span
unfolding entry_span analysed_span
entry_span-IsOrdered none cut span h = cc
entry_span-IsOrdered (some func) none span h = cc
entry_span-IsOrdered (some func) (some (front, behind)) span h =
    ordered_span-IsOrdered func (strip front) (strip behind) span (some_inj _ _ h)
  where
    some_inj : (x y : Checked SpanTexts) → some x ≡ some y → x ≡ y
    some_inj x y e = cc

-- Each span that is read from a file of the analysis begins at a number that is at most the one at
-- which it ends.
pub spans_of_entries-IsOrdered :
    (entries : List OffsetEntry) (spans : List SpanTexts)
    → spans_of_entries entries ≡ accepted spans
    → All IsOrdered spans
unfolding spans_of_entries
spans_of_entries-IsOrdered [] spans h = subst (All IsOrdered) (accepted_inj [] spans h) tt
spans_of_entries-IsOrdered (entry ∷ entries) spans h =
    add_span-IsOrdered _ (spans_of_entries entries) spans
      (entry_span-IsOrdered (filled entry.function) (cut_dash entry.offset))
      (spans_of_entries-IsOrdered entries) h

add_new-IsOrdered :
    (all spans : List SpanTexts)
    → All IsOrdered all
    → All IsOrdered spans
    → All IsOrdered (add_new all spans)
unfolding add_new
add_new-IsOrdered all [] h k = h
add_new-IsOrdered all (span ∷ spans) h k = elim (Bool-cases (contains all span)) [
  | inl old ↦ rw old (add_new-IsOrdered all spans h k.1)
  | inr new ↦ rw new (add_new-IsOrdered _ spans (All-append IsOrdered all span h k.0) k.1)
]

file-IsOrdered :
    (file : Option (List OffsetEntry)) (spans : List SpanTexts)
    → parse_func_offset_json file ≡ accepted spans
    → All IsOrdered spans
unfolding parse_func_offset_json
file-IsOrdered none spans h = subst (All IsOrdered) (accepted_inj [] spans h) tt
file-IsOrdered (some entries) spans h = spans_of_entries-IsOrdered entries spans h

collect_files-IsOrdered :
    (all : List SpanTexts) (files : List (Option (List OffsetEntry))) (spans : List SpanTexts)
    → All IsOrdered all
    → collect_files all files ≡ accepted spans
    → All IsOrdered spans
unfolding collect_files
collect_files-IsOrdered all [] spans k h = subst (All IsOrdered) (accepted_inj all spans h) k
collect_files-IsOrdered all (file ∷ files) spans k h =
    let (more, e, h1) = >>=-accepted (parse_func_offset_json file) _ h in
    collect_files-IsOrdered (add_new all more) files spans
      (add_new-IsOrdered all more k (file-IsOrdered file more e)) h1

-- What the analysis may change of a configuration: its spans, if it had none, to ordered ones.
pub Resolved : TunableConfig → TunableConfig → Type 0
Resolved config c =
    (c ≡ config)
    ⊎ ((config.safe_spans ≡ none)
        × ((spans : List SpanTexts) × (c ≡ record config { safe_spans = some spans })
            × (spans ≢ [])
            × All IsOrdered spans))

with_found_spans-Resolved :
    (config : TunableConfig) (spans : List SpanTexts)
    → config.safe_spans ≡ none
    → All IsOrdered spans
    → Resolved config (with_found_spans config spans)
unfolding with_found_spans Resolved
with_found_spans-Resolved config [] e h = inl refl
with_found_spans-Resolved config (span ∷ spans) e h = inr (e, (span ∷ spans, refl, (λ q. cc), h))

analysed-Resolved :
    (config c : TunableConfig) (r : Checked (List SpanTexts))
    → config.safe_spans ≡ none
    → ((spans : List SpanTexts) → r ≡ accepted spans → All IsOrdered spans)
    → analysed config r ≡ accepted c
    → Resolved config c
unfolding analysed
analysed-Resolved config c (refused e) n k h = cc
analysed-Resolved config c (accepted spans) n k h =
    subst (Resolved config) (accepted_inj _ c h)
      (with_found_spans-Resolved config spans n (k spans refl))

module _ (analysis : Analysis) where
  resolve_missing-Resolved :
      (config c : TunableConfig)
      → config.safe_spans ≡ none
      → resolve_missing analysis config ≡ accepted c
      → Resolved config c
  unfolding resolve_missing
  resolve_missing-Resolved config c n h =
      by_test (analysis.has_dataset config.name && analysis.succeeds config.name) h
    where
      by_test :
          (b : Bool)
          → (if b
              then analysed config (collect_files [] (analysis.files config.name))
              else accepted config)
            ≡ accepted c
          → Resolved config c
      by_test true h =
          analysed-Resolved config c _ n (λ spans e. collect_files-IsOrdered [] _ spans tt e) h
      by_test false h =
          subst (Resolved config) (accepted_inj config c h) (unfold Resolved in inl refl)

  resolve_as-Resolved :
      (o : Option (List SpanTexts)) (config c : TunableConfig)
      → config.safe_spans ≡ o
      → resolve_as analysis o config ≡ accepted c
      → Resolved config c
  unfolding resolve_as
  resolve_as-Resolved none config c n h = resolve_missing-Resolved config c n h
  resolve_as-Resolved (some spans) config c n h =
      subst (Resolved config) (accepted_inj config c h) (unfold Resolved in inl refl)

-- The configurations correspond one to one.
pub AllResolved : List TunableConfig → List TunableConfig → Type 0
AllResolved [] [] = Unit
AllResolved (config ∷ configs) (c ∷ cs) = Resolved config c × AllResolved configs cs
AllResolved _ _ = ⊥

AllResolved-refl : (configs : List TunableConfig) → AllResolved configs configs
unfolding AllResolved Resolved
AllResolved-refl [] = tt
AllResolved-refl (config ∷ configs) = (inl refl, AllResolved-refl configs)

resolve_each-AllResolved :
    (analysis : Analysis) (configs cs : List TunableConfig)
    → resolve_each analysis configs ≡ accepted cs
    → AllResolved configs cs
unfolding resolve_each resolve_entry AllResolved
resolve_each-AllResolved analysis [] cs h = subst (AllResolved []) (accepted_inj [] cs h) tt
resolve_each-AllResolved analysis (config ∷ configs) cs h =
    let (c, e, h1) = >>=-accepted (resolve_as analysis config.safe_spans config) _ h in
    let (rest, f, h2) = >>=-accepted (resolve_each analysis configs) _ h1 in
    subst (AllResolved (config ∷ configs)) (accepted_inj (c ∷ rest) cs h2) (
      resolve_as-Resolved analysis config.safe_spans config c refl e,
      resolve_each-AllResolved analysis configs rest f,
    )

-- The analysis leaves each configuration as it is, or gives one that had no safe spans a list of
-- them that is not empty: each begins at a number that is at most the one at which it ends. Nothing
-- else of a configuration changes, and the order and the number of them stay.
pub backfill_safe_spans-AllResolved :
    (analysis : Analysis) (configs cs : List TunableConfig)
    → backfill_safe_spans analysis configs ≡ accepted cs
    → AllResolved configs cs
unfolding backfill_safe_spans
backfill_safe_spans-AllResolved analysis configs cs h =
    by_test (all_have_spans analysis configs || not analysis.is_there) h
  where
    by_test :
        (b : Bool)
        → (if b then accepted configs else resolve_each analysis configs) ≡ accepted cs
        → AllResolved configs cs
    by_test true h =
        subst (AllResolved configs) (accepted_inj configs cs h) (AllResolved-refl configs)
    by_test false h = resolve_each-AllResolved analysis configs cs h
