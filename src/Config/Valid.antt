-- ===== src/Config/Valid.antt =====
-- What a configuration that is read has (src/config.py).
use xkernel.Base.{ℕ, ◌≡◌, ◌≢◌, refl, ap, subst, arith, Option, none, some, List, [], ◌∷◌, length}
use xkernel.Base.{◌∙◌}
use xkernel.Base.Text.{Text, text}
use xkernel.Config.{Listed, items, scalar, SpanTable, ConfigEntry, SpanTexts, TunableConfig}
use xkernel.Config.{Refusal, Checked, accepted, refused, ◌>>=◌, required, list_of, filled}
use xkernel.Config.{span_field, parse_span, parse_span_list, some_spans, parse_safe_spans}
use xkernel.Config.{source_of, parse_tunable}

-- The span is that of the table: the function, the start and the end, and none is empty.
abbrev pub IsSpanOf : SpanTable → SpanTexts → Type 0
IsSpanOf span (func, soff, eoff) =
    ((span.function ≡ some func) × (func ≢ []))
    × ((span.start_offset ≡ some soff) × (soff ≢ []))
    × ((span.end_offset ≡ some eoff) × (eoff ≢ []))

-- The spans are those of the tables, in their order.
abbrev pub AreSpansOf : List SpanTable → List SpanTexts → Type 0
AreSpansOf [] [] = Unit
AreSpansOf [] (s ∷ spans) = ⊥
AreSpansOf (span ∷ tables) [] = ⊥
AreSpansOf (span ∷ tables) (s ∷ spans) = IsSpanOf span s × AreSpansOf tables spans

-- Without tables there are no safe spans.
abbrev pub HasSpans : Option (List SpanTable) → Option (List SpanTexts) → Type 0
HasSpans none o = o ≡ none
HasSpans (some []) o = o ≡ none
HasSpans (some (span ∷ tables)) o =
    (spans : List SpanTexts) × (o ≡ some spans) × AreSpansOf (span ∷ tables) spans

-- The option `lines`, where an empty text is as none.
abbrev pub HasLines : Option Text → Option Text → Type 0
HasLines none o = o ≡ none
HasLines (some []) o = o ≡ none
HasLines (some (c ∷ s)) o = o ≡ some (c ∷ s)

pub >>=-accepted :
    {A B : Type 0} (m : Checked A) (f : A → Checked B) {b : B}
    → (m >>= f) ≡ accepted b
    → (a : A) × (m ≡ accepted a) × (f a ≡ accepted b)
>>=-accepted (accepted a) f h = (a, refl, h)
>>=-accepted (refused e) f h = cc

pub accepted_inj : {A : Type 0} (a b : A) → accepted a ≡ accepted b → a ≡ b
accepted_inj a b h = cc

list_of-items :
    {A : Type 0} (n : ℕ) (e : Refusal) (l : Listed A) {xs : List A}
    → list_of n e l ≡ accepted xs
    → (l ≡ items xs) × (length xs ≡ n)
unfolding list_of
list_of-items n e scalar h = cc
list_of-items n e (items ys) {xs} h =
    let same : ys ≡ xs = ground arith in (ap items same, ground arith)

filled-HasLines : (o : Option Text) → HasLines o (filled o)
unfolding filled
filled-HasLines none = refl
filled-HasLines (some []) = refl
filled-HasLines (some (c ∷ s)) = refl

span_field-filled :
    (o : Option Text) (s : Text) → span_field (filled o) ≡ accepted s → (o ≡ some s) × (s ≢ [])
unfolding span_field filled
span_field-filled none s h = cc
span_field-filled (some []) s h = cc
span_field-filled (some (c ∷ t)) s h = (cc, λ e. cc)

parse_span-IsSpanOf :
    (span : SpanTable) (s : SpanTexts) → parse_span span ≡ accepted s → IsSpanOf span s
unfolding parse_span
parse_span-IsSpanOf span s h =
    let (func, f, h1) = >>=-accepted (span_field (filled span.function)) _ h in
    let (soff, g, h2) = >>=-accepted (span_field (filled span.start_offset)) _ h1 in
    let (eoff, k, h3) = >>=-accepted (span_field (filled span.end_offset)) _ h2 in
    let same : (func, soff, eoff) ≡ s = cc in
    subst (IsSpanOf span) same (
      span_field-filled span.function func f,
      span_field-filled span.start_offset soff g,
      span_field-filled span.end_offset eoff k,
    )

parse_span_list-AreSpansOf :
    (tables : List SpanTable) (spans : List SpanTexts)
    → parse_span_list tables ≡ accepted spans
    → AreSpansOf tables spans
unfolding parse_span_list
parse_span_list-AreSpansOf [] spans h = let same : [] ≡ spans = cc in subst (AreSpansOf []) same tt
parse_span_list-AreSpansOf (span ∷ tables) spans h =
    let (s, one, h1) = >>=-accepted (parse_span span) _ h in
    let (rest, more, h2) = >>=-accepted (parse_span_list tables) _ h1 in
    let same : s ∷ rest ≡ spans = cc in
    subst (AreSpansOf (span ∷ tables)) same
      (parse_span-IsSpanOf span s one, parse_span_list-AreSpansOf tables rest more)

some_spans-some :
    (r : Checked (List SpanTexts)) (o : Option (List SpanTexts))
    → some_spans r ≡ accepted o
    → (spans : List SpanTexts) × (o ≡ some spans) × (r ≡ accepted spans)
unfolding some_spans
some_spans-some (refused e) o k = cc
some_spans-some (accepted spans) o k = (spans, cc, refl)

parse_safe_spans-HasSpans :
    (tables : Option (List SpanTable)) (o : Option (List SpanTexts))
    → parse_safe_spans tables ≡ accepted o
    → HasSpans tables o
unfolding parse_safe_spans
parse_safe_spans-HasSpans none o h = cc
parse_safe_spans-HasSpans (some []) o h = cc
parse_safe_spans-HasSpans (some (span ∷ tables)) o h =
    let (spans, same, read) = some_spans-some (parse_span_list (span ∷ tables)) o h in
    (spans, same, parse_span_list-AreSpansOf (span ∷ tables) spans read)

required-some :
    {A : Type 0} (field : Text) (o : Option A) {a : A} → required field o ≡ accepted a → o ≡ some a
unfolding required
required-some field none h = cc
required-some field (some b) h = cc

-- The configuration has what the entry and its source table have.
pub record Agrees (entry : ConfigEntry) (config : TunableConfig) : Type 0 where
  pub same_name : entry.name ≡ some config.name
  pub same_description : entry.description ≡ some config.description
  pub same_file : (source_of entry).file ≡ some config.file
  pub same_original : (source_of entry).original ≡ some config.original
  pub same_modified : (source_of entry).modified ≡ some (items config.modified)
  pub same_values : (source_of entry).values ≡ some (items config.values)
  pub two_modified : length config.modified ≡ 2
  pub three_values : length config.values ≡ 3
  pub same_lines : HasLines (source_of entry).lines config.lines
  pub same_spans : HasSpans entry.safe_spans config.safe_spans

-- A tunable that is read has, field by field, what its table has: the required texts, a list of two
-- replacements and one of three values, the lines, if their text is not empty, and a safe span for
-- each table of spans, in their order, with its function, its start and its end, none of them empty.
pub parse_tunable-Agrees :
    (entry : ConfigEntry) (config : TunableConfig)
    → parse_tunable entry ≡ accepted config
    → Agrees entry config
unfolding parse_tunable
parse_tunable-Agrees entry config h0 =
    let (name, e1, h1) = >>=-accepted (required (text "name") entry.name) _ h0 in
    let (description, e2, h2) =
      >>=-accepted (required (text "description") entry.description) _ h1 in
    let (file, e3, h3) = >>=-accepted (required (text "file") (source_of entry).file) _ h2 in
    let (original, e4, h4) =
      >>=-accepted (required (text "original") (source_of entry).original) _ h3 in
    let (modified_field, e5, h5) =
      >>=-accepted (required (text "modified") (source_of entry).modified) _ h4 in
    let (values_field, e6, h6) =
      >>=-accepted (required (text "values") (source_of entry).values) _ h5 in
    let (modified, e7, h7) =
      >>=-accepted (list_of 2 Refusal.modified_not_two modified_field) _ h6 in
    let (values, e8, h8) = >>=-accepted (list_of 3 Refusal.values_not_three values_field) _ h7 in
    let (safe_spans, e9, h9) = >>=-accepted (parse_safe_spans entry.safe_spans) _ h8 in
    let made : TunableConfig = record {
      name = name;
      description = description;
      file = file;
      original = original;
      modified = modified;
      values = values;
      lines = filled (source_of entry).lines;
      safe_spans = safe_spans;
    } in
    let same = accepted_inj made config h9 in
    subst (Agrees entry) same (record {
      same_name = required-some _ entry.name e1;
      same_description = required-some _ entry.description e2;
      same_file = required-some _ (source_of entry).file e3;
      same_original = required-some _ (source_of entry).original e4;
      same_modified =
          required-some _ (source_of entry).modified e5
          ∙ ap some (list_of-items 2 _ modified_field e7).0;
      same_values =
          required-some _ (source_of entry).values e6
          ∙ ap some (list_of-items 3 _ values_field e8).0;
      two_modified = (list_of-items 2 _ modified_field e7).1;
      three_values = (list_of-items 3 _ values_field e8).1;
      same_lines = filled-HasLines (source_of entry).lines;
      same_spans = parse_safe_spans-HasSpans entry.safe_spans safe_spans e9;
    })
