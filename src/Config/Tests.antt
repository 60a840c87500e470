-- ===== src/Config/Tests.antt =====
-- Runs of src/config.py, and its theorems at concrete inputs.
use xkernel.Base.{◌≡◌, refl, none, some, [], ◌∷◌, true, contains, list_beq}
use xkernel.Base.Int.{pos}
use xkernel.Base.Text.{text, strip, starts_with, parse_nat, before, is_space, lstrip, map_option}
use xkernel.Base.Text.{parse_int, parse_signed, rstrip, skip_prefix}
use xkernel.Config.{Listed, ConfigEntry, TunableConfig, accepted, parse_tunable, required}
use xkernel.Config.{source_of, list_of, parse_safe_spans, some_spans, parse_span_list, parse_span}
use xkernel.Config.{span_field, filled}
use xkernel.Config.Valid.{Agrees, parse_tunable-Agrees}
use xkernel.Config.Backfill.{dash, Analysis, backfill_safe_spans, all_have_spans, resolve_each}
use xkernel.Config.Backfill.{resolve_entry, resolve_as, resolve_missing, analysed, collect_files}
use xkernel.Config.Backfill.{parse_func_offset_json, spans_of_entries, add_span, entry_span}
use xkernel.Config.Backfill.{cut_dash, put_first, add_new, or_bad_offset, ordered_span}
use xkernel.Config.Backfill.{read_offset, span_beq, analysed_span, with_found_spans}
use xkernel.Config.Backfill.Ordered.{AllResolved, backfill_safe_spans-AllResolved}
use xkernel.Base.Text.Number.{digit_value, parse_digits}

abbrev entry : ConfigEntry
entry = record {
  name = some (text "A");
  description = some (text "B");
  source = none;
  inline_source = record {
    file = some (text "f.c");
    original = some (text "8");
    modified = some (Listed.items (text "16" ∷ text "32" ∷ []));
    values = some (Listed.items (pos 8 ∷ pos 16 ∷ pos 32 ∷ []));
    lines = some [];
  };
  safe_spans = some (
      record {
        function = some (text "f");
        start_offset = some (text "0x1");
        end_offset = some (text "0x2");
      }
      ∷ []);
}

abbrev config : TunableConfig
config = record {
  name = text "A";
  description = text "B";
  file = text "f.c";
  original = text "8";
  modified = text "16" ∷ text "32" ∷ [];
  values = pos 8 ∷ pos 16 ∷ pos 32 ∷ [];
  lines = none;
  safe_spans = some ((text "f", text "0x1", text "0x2") ∷ []);
}

parsed : parse_tunable entry ≡ accepted config
unfolding parse_tunable required source_of list_of parse_safe_spans some_spans parse_span_list
    parse_span span_field filled text
parsed = refl

parse_tunable-Agrees_example : Agrees entry config
parse_tunable-Agrees_example = parse_tunable-Agrees entry config parsed

abbrev bare : TunableConfig
bare = record {
  name = text "A";
  description = text "B";
  file = text "f.c";
  original = text "8";
  modified = text "16" ∷ text "32" ∷ [];
  values = pos 8 ∷ pos 16 ∷ pos 32 ∷ [];
  lines = none;
  safe_spans = none;
}

abbrev spanned : TunableConfig
spanned = record bare { safe_spans = some ((text "f", text "0x1", text "0x2") ∷ []) }

abbrev analysis : Analysis
analysis = record {
  is_there = true;
  has_dataset = λ name. true;
  succeeds = λ name. true;
  files = λ name. some (record { function = some (text "f"); offset = text "0x2 - 0x1" } ∷ []) ∷ [];
}

filled_in : backfill_safe_spans analysis (bare ∷ []) ≡ accepted (spanned ∷ [])
unfolding backfill_safe_spans all_have_spans resolve_each resolve_entry resolve_as resolve_missing
    analysed collect_files parse_func_offset_json spans_of_entries add_span entry_span filled text
    cut_dash starts_with dash put_first contains list_beq digit_value parse_digits parse_nat before
    is_space lstrip map_option parse_int parse_signed rstrip skip_prefix strip add_new or_bad_offset
    ordered_span read_offset span_beq analysed_span with_found_spans
filled_in = refl

backfill_safe_spans-AllResolved_example : AllResolved (bare ∷ []) (spanned ∷ [])
backfill_safe_spans-AllResolved_example =
    backfill_safe_spans-AllResolved analysis (bare ∷ []) (spanned ∷ []) filled_in
