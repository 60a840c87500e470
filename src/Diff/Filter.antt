-- ===== src/Diff/Filter.antt =====
-- `filter_address_offset_diff` (src/diff.py): the lines of a diff without the moved instructions.
pub mod Pairs
pub mod Entries
pub mod Matching
use xkernel.Base.{ℕ, suc, Bool, true, false, not, ◌&&◌, ◌||◌, Option, none, some, List, [], ◌∷◌}
use xkernel.Base.{if◌then◌else◌, ◌==◌, list_eq, nat_eq, contains}
use xkernel.Base.Dict.{Dict, get, insert}
use xkernel.Base.Text.{Text, text, starts_with}
use xkernel.Diff.Signature.{normalize_instruction_for_comparison}

-- The index of a line in the diff, and its signature.
abbrev pub DiffEntry : Type 0
DiffEntry = ℕ × Text

unfoldable pub is_minus : Text → Bool
is_minus line = starts_with line (text "-")

unfoldable pub is_plus : Text → Bool
is_plus line = starts_with line (text "+")

unfoldable pub add_diff_entry : ℕ → Option Text → List DiffEntry → List DiffEntry
add_diff_entry i none entries = entries
add_diff_entry i (some signature) entries = (i, signature) ∷ entries

-- The lines of one side, with a signature, from an index on.
unfoldable pub entries_from : (Text → Bool) → ℕ → List Text → List DiffEntry
entries_from side i [] = []
entries_from side i (line ∷ lines) =
    let rest = entries_from side (suc i) lines in
    if side line then add_diff_entry i (normalize_instruction_for_comparison line) rest else rest

-- The other lines are kept.
unfoldable pub keep_unsigned : ℕ → Option Text → Dict ℕ Bool → Dict ℕ Bool
keep_unsigned i none line_map = insert i true line_map
keep_unsigned i (some signature) line_map = line_map

unfoldable pub map_others : ℕ → List Text → Dict ℕ Bool → Dict ℕ Bool
map_others i [] line_map = line_map
map_others i (line ∷ lines) line_map = map_others (suc i) lines (
    if is_minus line || is_plus line
    then keep_unsigned i (normalize_instruction_for_comparison line) line_map
    else insert i true line_map)

unfoldable pub find_plus : Text → List ℕ → List DiffEntry → Option ℕ
find_plus minus_sig matched_plus [] = none
find_plus minus_sig matched_plus ((plus_idx, plus_sig) ∷ plus_lines) =
    if not (contains matched_plus plus_idx) && minus_sig == plus_sig
    then some plus_idx
    else find_plus minus_sig matched_plus plus_lines

unfoldable pub match_lines :
    List DiffEntry → List DiffEntry → List ℕ → Dict ℕ Bool → List ℕ × Dict ℕ Bool
match_lines [] plus_lines matched_plus line_map = (matched_plus, line_map)
match_lines ((minus_idx, minus_sig) ∷ minus_lines) plus_lines matched_plus line_map =
    elim (find_plus minus_sig matched_plus plus_lines) [
      | none ↦ match_lines minus_lines plus_lines matched_plus (insert minus_idx true line_map)
      | some plus_idx ↦
          match_lines minus_lines plus_lines (plus_idx ∷ matched_plus)
            (insert plus_idx false (insert minus_idx false line_map))
    ]

unfoldable pub mark_unmatched : List DiffEntry → List ℕ → Dict ℕ Bool → Dict ℕ Bool
mark_unmatched [] matched_plus line_map = line_map
mark_unmatched ((plus_idx, _) ∷ plus_lines) matched_plus line_map =
    mark_unmatched plus_lines matched_plus
      (if contains matched_plus plus_idx then line_map else insert plus_idx true line_map)

unfoldable pub mark_matched : List DiffEntry → List ℕ × Dict ℕ Bool → Dict ℕ Bool
mark_matched plus_lines (matched_plus, line_map) = mark_unmatched plus_lines matched_plus line_map

unfoldable pub line_map_of : List Text → Dict ℕ Bool
line_map_of diff_lines =
    let plus_lines = entries_from is_plus 0 diff_lines in
    mark_matched plus_lines
      (match_lines (entries_from is_minus 0 diff_lines) plus_lines [] (map_others 0 diff_lines []))

-- Whether a line is kept before the next hunk or header.
unfoldable pub ends_hunk : Text → Bool
ends_hunk line =
    starts_with line (text "@@") || starts_with line (text "---") || starts_with line (text "+++")

unfoldable pub has_kept_changes : Dict ℕ Bool → ℕ → List Text → Bool
has_kept_changes line_map j [] = false
has_kept_changes line_map j (line ∷ lines) =
    let rest = has_kept_changes line_map (suc j) lines in
    if ends_hunk line
    then false
    else if get j true line_map && (is_minus line || is_plus line)
    then true
    else rest

unfoldable pub filter_from : Dict ℕ Bool → ℕ → List Text → List Text
filter_from line_map i [] = []
filter_from line_map i (line ∷ lines) =
    let rest = filter_from line_map (suc i) lines in
    let kept =
      if starts_with line (text "@@")
      then has_kept_changes line_map (suc i) lines
      else get i true line_map in
    if kept then line ∷ rest else rest

unfoldable pub filter_address_offset_diff : List Text → List Text
filter_address_offset_diff diff_lines = filter_from (line_map_of diff_lines) 0 diff_lines
