-- ===== src/Runtime/Spans.antt =====
-- The spans of a span file, and the maps that hold them (src/loader.py).
pub mod Order
pub mod Update
use xkernel.Base.{ℕ, zero, suc, ◌^◌, Bool, true, false, ◌&&◌, ◌||◌, not, List, [], ◌∷◌, ◌++◌, map}
use xkernel.Base.{Option, some, none, keep, if◌then◌else◌, ◌==◌, list_eq, nat_eq, contains}
use xkernel.Base.{length, value_error}
use xkernel.Base.Int.{ℤ, pos, negsuc, ◌+ℤ◌, ltb_ℤ, int_beq}
use xkernel.Base.Dict.{Dict, lookup}
use xkernel.Base.Text.{Text, text, strip, split, join, parse_int}
use xkernel.Tables.{Row, File}
use xkernel.Tables.Scope.{skip_header}
use xkernel.Runtime.Maps.{pack, update_map_by_id, zero_key, pack_or_raise}
use xkernel.Runtime.{Host, World, Run, Command, ◌>>=◌, ◌>>◌, pure, raise, ask, gets, set_cs_file}
use xkernel.Runtime.{set_ss_file}

-- `[l.strip() for l in f if l.strip()]`
unfoldable pub nonblank : Text → Bool
nonblank [] = false
nonblank (c ∷ s) = true

unfoldable pub file_lines : Option (List Text) → List Text
file_lines none = []
file_lines (some lines) = keep nonblank (map strip lines)

-- A span of addresses, from `soff` to `eoff`.
abbrev pub Span : Type 0
Span = ℤ × ℤ

-- A line with fewer than four parts is passed over. `none` is a `ValueError`.
unfoldable pub span_of : Option ℤ → Option ℤ → Option ℤ → Option Span
span_of (some addr) (some soff) (some eoff) = some (addr +ℤ soff, addr +ℤ eoff)
span_of _ _ _ = none

unfoldable pub cons_span : Option Span → Option (List Span) → Option (List Span)
cons_span (some s) (some ss) = some (s ∷ ss)
cons_span _ _ = none

unfoldable pub add_parsed_span : List Text → Option (List Span) → Option (List Span)
add_parsed_span (name ∷ addr ∷ soff ∷ eoff ∷ more) rest =
    cons_span (span_of (parse_int 16 addr) (parse_int 16 soff) (parse_int 16 eoff)) rest
add_parsed_span _ rest = rest

unfoldable pub parse_spans : List Text → Option (List Span)
parse_spans [] = some []
parse_spans (line ∷ lines) = add_parsed_span (split b',' line) (parse_spans lines)

-- `spans.sort(key=lambda x: (x[0], -x[1]))`, which is stable.
unfoldable pub key_lt : Span → Span → Bool
key_lt (a, b) (c, d) = ltb_ℤ a c || (int_beq a c && ltb_ℤ d b)

unfoldable pub insert_span : Span → List Span → List Span
insert_span s [] = s ∷ []
insert_span s (t ∷ ts) = if key_lt t s then t ∷ insert_span s ts else s ∷ t ∷ ts

unfoldable pub sort_spans : List Span → List Span
sort_spans [] = []
sort_spans (s ∷ ss) = insert_span s (sort_spans ss)

-- `struct.pack('<QQ', soff, eoff)`
unfoldable pub pack_integer : ℕ → ℤ → Option (List ℕ)
pack_integer width (pos n) = pack width n
pack_integer width (negsuc n) = none

unfoldable pub both_bytes : Option (List ℕ) → Option (List ℕ) → Option (List ℕ)
both_bytes (some a) (some b) = some (a ++ b)
both_bytes _ _ = none

unfoldable pub pack_span : Span → Option (List ℕ)
pack_span (soff, eoff) = both_bytes (pack_integer 8 soff) (pack_integer 8 eoff)

module _ ⦃host : Host⦄ where
  -- The entries of a span map, from an index on.
  unfoldable pub update_spans : ℕ → ℕ → List Span → Run Unit
  update_spans map_id i [] = pure tt
  update_spans map_id i (s ∷ ss) = do
    key ← pack_or_raise (pack 4 i)
    val ← pack_or_raise (pack_span s)
    update_map_by_id map_id key val
    update_spans map_id (suc i) ss

  unfoldable pub update_map_spans : Option ℕ → List Span → Run Unit
  update_map_spans none spans = pure tt
  update_map_spans (some map_id) spans = update_spans map_id 0 spans

  unfoldable pub update_length : ℕ → List Span → Run Bool
  update_length map_id spans = do
    val ← pack_or_raise (pack 4 (length spans))
    update_map_by_id map_id zero_key val

  -- Without a length map the critical spans are loaded all the same, the safe spans are not.
  unfoldable pub update_cs : Option ℕ → Option ℕ → List Span → Run Unit
  update_cs none map_id spans = update_map_spans map_id spans
  update_cs (some len_id) map_id spans = do
    update_length len_id spans
    update_map_spans map_id spans

  unfoldable pub update_ss : Option ℕ → Option ℕ → List Span → Run Unit
  update_ss none map_id spans = pure tt
  update_ss (some len_id) map_id spans = do
    update_length len_id spans
    update_map_spans map_id spans

  unfoldable pub with_spans : (List Span → Run Unit) → Option (List Span) → Run Unit
  with_spans update none = raise value_error
  with_spans update (some spans) = update (sort_spans spans)

  -- A missing or blank file loads nothing.
  unfoldable pub load_lines : (List Span → Run Unit) → List Text → Run Unit
  load_lines update [] = pure tt
  load_lines update (line ∷ lines) = with_spans update (parse_spans (line ∷ lines))

  unfoldable pub load_critical_spans_for_constid : Dict Text ℕ → Run Unit
  load_critical_spans_for_constid map_info = do
    cs_file ← gets (λ w. w.cs_file)
    load_lines (update_cs (lookup (text ".bss.cs_len") map_info) (lookup (text "cs_map") map_info))
        (file_lines cs_file)

  unfoldable pub load_safe_spans_for_constid : Dict Text ℕ → Run Unit
  load_safe_spans_for_constid map_info = do
    ss_file ← gets (λ w. w.ss_file)
    load_lines (update_ss (lookup (text ".bss.ss_len") map_info) (lookup (text "ss_map") map_info))
        (file_lines ss_file)
