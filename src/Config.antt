-- ===== src/Config.antt =====
-- The TOML files of tunables (src/config.py): `_parse_tunable`, `load_config` and `load_configs`.
-- The parser of TOML is outside: a table that it gives has the keys and the types that the
-- documentation of the file names, but for what the code tests itself.
mod Tests
pub mod Valid
pub mod Backfill
use xkernel.Base.{ℕ, Bool, true, false, not, ◌&&◌, ◌||◌, Option, none, some, List, [], ◌∷◌}
use xkernel.Base.{if◌then◌else◌, ◌==◌, ◌=ℕ◌, list_eq, nat_eq, length}
use xkernel.Base.Int.{ℤ}
use xkernel.Base.Text.{Text, text}

-- A value where the code asks for a list.
pub data Listed (A : Type 0) : Type 0 where
  items : List A → Listed A
  scalar : Listed A

pub record SourceTable : Type 0 where
  pub file : Option Text
  pub original : Option Text
  pub modified : Option (Listed Text)
  pub values : Option (Listed ℤ)
  pub lines : Option Text

pub record SpanTable : Type 0 where
  pub function : Option Text
  pub start_offset : Option Text
  pub end_offset : Option Text

-- A table for one tunable; the fields of the source may stand in it or in a table of their own.
pub record ConfigEntry : Type 0 where
  pub name : Option Text
  pub description : Option Text
  pub source : Option SourceTable
  pub inline_source : SourceTable
  pub safe_spans : Option (List SpanTable)

abbrev pub SpanTexts : Type 0
SpanTexts = Text × Text × Text

pub record TunableConfig : Type 0 where
  pub name : Text
  pub description : Text
  pub file : Text
  pub original : Text
  pub modified : List Text
  pub values : List ℤ
  pub lines : Option Text
  pub safe_spans : Option (List SpanTexts)

-- The messages of the errors.
pub data Refusal : Type 0 where
  missing_field : Text → Refusal
  modified_not_two values_not_three bad_span no_kernel_dir no_tunables bad_offset : Refusal

pub data Checked (A : Type 0) : Type 0 where
  accepted : A → Checked A
  refused : Refusal → Checked A

infixl 5 ◌>>=◌
abbrev pub ◌>>=◌ : {A B : Type 0} → Checked A → (A → Checked B) → Checked B
accepted a >>= f = f a
refused e >>= f = refused e

unfoldable pub required : {A : Type 0} → Text → Option A → Checked A
required field none = refused (missing_field field)
required field (some a) = accepted a

unfoldable pub list_of : {A : Type 0} → ℕ → Refusal → Listed A → Checked (List A)
list_of n e scalar = refused e
list_of n e (items xs) = if length xs =ℕ n then accepted xs else refused e

-- An empty text counts as none.
unfoldable pub filled : Option Text → Option Text
filled none = none
filled (some []) = none
filled (some (c ∷ s)) = some (c ∷ s)

unfoldable pub span_field : Option Text → Checked Text
span_field none = refused bad_span
span_field (some s) = accepted s

unfoldable pub parse_span : SpanTable → Checked SpanTexts
parse_span span = do
  func ← span_field (filled span.function)
  soff ← span_field (filled span.start_offset)
  eoff ← span_field (filled span.end_offset)
  accepted (func, soff, eoff)

unfoldable pub parse_span_list : List SpanTable → Checked (List SpanTexts)
parse_span_list [] = accepted []
parse_span_list (span ∷ spans) = do
  s ← parse_span span
  rest ← parse_span_list spans
  accepted (s ∷ rest)

-- No spans, and an empty list of them, are the same.
unfoldable pub some_spans : Checked (List SpanTexts) → Checked (Option (List SpanTexts))
some_spans (accepted spans) = accepted (some spans)
some_spans (refused e) = refused e

unfoldable pub parse_safe_spans : Option (List SpanTable) → Checked (Option (List SpanTexts))
parse_safe_spans none = accepted none
parse_safe_spans (some []) = accepted none
parse_safe_spans (some (span ∷ spans)) = some_spans (parse_span_list (span ∷ spans))

unfoldable pub source_of : ConfigEntry → SourceTable
source_of entry = elim entry.source [ none ↦ entry.inline_source | some source ↦ source ]

unfoldable pub parse_tunable : ConfigEntry → Checked TunableConfig
parse_tunable entry = do
  name ← required (text "name") entry.name
  description ← required (text "description") entry.description
  file ← required (text "file") (source_of entry).file
  original ← required (text "original") (source_of entry).original
  modified_field ← required (text "modified") (source_of entry).modified
  values_field ← required (text "values") (source_of entry).values
  modified ← list_of 2 modified_not_two modified_field
  values ← list_of 3 values_not_three values_field
  safe_spans ← parse_safe_spans entry.safe_spans
  accepted (record {
    name = name;
    description = description;
    file = file;
    original = original;
    modified = modified;
    values = values;
    lines = filled (source_of entry).lines;
    safe_spans = safe_spans;
  })

-- A file: one tunable at the top, or an array of them.
pub record Document : Type 0 where
  pub kernel_dir : Option Text
  pub top : ConfigEntry
  pub tunables : Option (List ConfigEntry)

unfoldable pub parse_entries : List ConfigEntry → Checked (List TunableConfig)
parse_entries [] = accepted []
parse_entries (entry ∷ entries) = do
  config ← parse_tunable entry
  configs ← parse_entries entries
  accepted (config ∷ configs)

unfoldable pub config_entries : Document → List ConfigEntry
config_entries doc = elim doc.tunables [ none ↦ doc.top ∷ [] | some entries ↦ entries ]

-- `KERNEL_DIR` of the environment comes before the field of the file.
unfoldable pub kernel_dir_of : Option Text → Option Text → Checked Text
kernel_dir_of (some dir) toml = accepted dir
kernel_dir_of none (some dir) = accepted dir
kernel_dir_of none none = refused no_kernel_dir

unfoldable pub first_config : Text × List TunableConfig → Checked (Text × TunableConfig)
first_config (dir, []) = refused no_tunables
first_config (dir, config ∷ configs) = accepted (dir, config)

-- `expanduser` and the analysis that fills in safe spans are outside.
module _ (expanduser : Text → Text) where
  unfoldable pub load_configs :
      (List TunableConfig → Checked (List TunableConfig))
      → Option Text
      → Bool
      → Document
      → Checked (Text × List TunableConfig)
  load_configs backfill env_kernel_dir run_analysis doc = do
    dir ← kernel_dir_of (filled env_kernel_dir) (filled doc.kernel_dir)
    configs ← parse_entries (config_entries doc)
    filled_in ← if run_analysis then backfill configs else accepted configs
    accepted (expanduser dir, filled_in)

  unfoldable pub load_config : Option Text → Document → Checked (Text × TunableConfig)
  load_config env_kernel_dir doc =
      load_configs (λ configs. accepted configs) env_kernel_dir false doc >>= first_config
