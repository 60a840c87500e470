-- ===== src/Runtime/JumpOpt/Patch.antt =====
-- The kprobes with their candidates in a BPF source, and the change of an offset (src/loader.py).
use xkernel.Base.{ℕ, zero, suc, ◌-◌, Bool, not, ◌&&◌, ◌||◌, Option, none, some, List, [], ◌∷◌}
use xkernel.Base.{◌++◌, if◌then◌else◌, ◌==◌, list_eq, nat_eq, length, drop, take, Result, ok}
use xkernel.Base.{◌>>=◌, or_raise, value_error}
use xkernel.Base.Int.{ℤ, pos}
use xkernel.Base.Text.{Text, text, is_digit, strip, lstrip, split, starts_with, show_int}
use xkernel.Base.Text.{parse_int, parse_nat, map_option}
use xkernel.Analysis.Varying.{take_while, is_hex, is_word}

pub record KprobeEntry : Type 0 where
  pub func_name : Text
  pub current_offset : ℤ
  pub candidates : List ℤ

-- `s.replace(old, new)` for a text `old` that is not empty; `skip` characters belong to a match.
unfoldable pub replace_from : Text → Text → ℕ → Text → Text
replace_from old new skip [] = []
replace_from old new (suc skip) (c ∷ s) = replace_from old new skip s
replace_from old new zero (c ∷ s) =
    let hit = new ++ replace_from old new (length old - 1) s in
    let miss = c ∷ replace_from old new 0 s in if starts_with (c ∷ s) old then hit else miss

unfoldable pub replace_text : Text → Text → Text → Text
replace_text old new s = replace_from old new 0 s

-- `f"{offset:x}"`
unfoldable pub hex_of : ℤ → Text
hex_of offset = show_int 16 offset

unfoldable pub safe_char : ℕ → ℕ
safe_char c = if c == b'.' || c == b'-' then b'_' else c

unfoldable pub safe_name : Text → Text
safe_name [] = []
safe_name (c ∷ s) = safe_char c ∷ safe_name s

unfoldable pub section_of : Text → ℤ → Text
section_of func_name offset =
    text "SEC(\"kprobe/" ++ (func_name ++ (text "+0x" ++ (hex_of offset ++ text "\")")))

unfoldable pub probe_of : Text → ℤ → Text
probe_of func_name offset =
    text "BPF_KPROBE(" ++ (safe_name func_name ++ (text "_0x" ++ (hex_of offset ++ text ")")))

unfoldable pub xtune_of : Text → ℤ → Text
xtune_of func_name offset =
    text "(" ++ (func_name ++ (text ", \"+0x" ++ (hex_of offset ++ text "\")")))

unfoldable pub patch_bpf_sec_offset : Text → ℤ → ℤ → Text → Text
patch_bpf_sec_offset func_name old_offset new_offset content =
    replace_text (xtune_of func_name old_offset) (xtune_of func_name new_offset) (
      replace_text (probe_of func_name old_offset) (probe_of func_name new_offset)
        (replace_text (section_of func_name old_offset) (section_of func_name new_offset) content))

-- `part in s`
unfoldable pub contains_text : Text → Text → Bool
contains_text part [] = part == []
contains_text part (c ∷ s) = starts_with (c ∷ s) part || contains_text part s

unfoldable pub parse_candidates : List Text → Result (List ℤ)
parse_candidates [] = ok []
parse_candidates (c ∷ cs) = do
  z ← or_raise value_error (parse_int 16 (strip c))
  zs ← parse_candidates cs
  ok (z ∷ zs)

-- `// Candidates:\s*(.+)` on a stripped line; after the colon stands no newline.
unfoldable pub candidates_text : Text → Option Text
candidates_text stripped =
    let rest = drop 14 stripped in
    if starts_with stripped (text "// Candidates:") && not (rest == [])
    then some (strip rest)
    else none

unfoldable pub not_quote : ℕ → Bool
not_quote c = not (c == 34)

-- The last `+0x` of a text before a name's end: what stands in front of it and behind it.
unfoldable pub last_mark : Text → Option (Text × Text)
last_mark [] = none
last_mark (c ∷ s) = elim (last_mark s) [
  | some (front, behind) ↦ some (c ∷ front, behind)
  | none ↦ if starts_with (c ∷ s) (text "+0x") then some ([], drop 2 s) else none
]

unfoldable pub all_hex : Text → Bool
all_hex s = not (s == []) && take_while is_hex s == s

unfoldable pub numbered_place : Text → Text → Option (Text × ℤ)
numbered_place func_name digits = map_option (λ n. (func_name, pos n)) (parse_nat 16 digits)

unfoldable pub marked_place : Option (Text × Text) → Option (Text × ℤ)
marked_place none = none
marked_place (some ([], digits)) = none
marked_place (some (c ∷ func_name, digits)) =
    if all_hex digits then numbered_place (c ∷ func_name) digits else none

-- `SEC\("kprobe/([^"]+)\+0x([0-9a-fA-F]+)"\)`
unfoldable pub section_place : Text → Option (Text × ℤ)
section_place stripped =
    let body = take_while not_quote (drop 12 stripped) in
    if starts_with stripped (text "SEC(\"kprobe/")
      && starts_with (drop (length body) (drop 12 stripped)) (text "\")")
    then marked_place (last_mark body)
    else none

-- `X_TUNE_\d+\((\w+),\s*"\+0x([0-9a-fA-F]+)"\)`
unfoldable pub xtune_arguments : Text → Option (Text × ℤ)
xtune_arguments s =
    let name = take_while is_word s in
    let rest = lstrip (drop 1 (drop (length name) s)) in
    let digits = take_while is_hex (drop 4 rest) in
    if not (name == [])
      && starts_with (drop (length name) s) (text ",")
      && starts_with rest (text "\"+0x")
      && not (digits == [])
      && starts_with (drop (length digits) (drop 4 rest)) (text "\")")
    then numbered_place name digits
    else none

unfoldable pub xtune_place : Text → Option (Text × ℤ)
xtune_place stripped =
    let rest = drop 7 stripped in
    let index = take_while is_digit rest in
    if starts_with stripped (text "X_TUNE_")
      && not (index == [])
      && starts_with (drop (length index) rest) (text "(")
    then xtune_arguments (drop 1 (drop (length index) rest))
    else none

unfoldable pub either_place : Option (Text × ℤ) → Option (Text × ℤ) → Option (Text × ℤ)
either_place (some place) other = some place
either_place none other = other

unfoldable pub first_place : List Text → Option (Text × ℤ)
first_place [] = none
first_place (line ∷ lines) =
    either_place (either_place (section_place (strip line)) (xtune_place (strip line)))
      (first_place lines)

unfoldable pub add_kprobe : Option (Text × ℤ) → List ℤ → List KprobeEntry → List KprobeEntry
add_kprobe none cands kps = kps
add_kprobe (some (func_name, offset)) cands kps =
    record { func_name = func_name; current_offset = offset; candidates = cands } ∷ kps

-- The place stands in one of the four lines behind the comment.
unfoldable pub entries_at :
    Option Text → List Text → Result (List KprobeEntry) → Result (List KprobeEntry)
entries_at none lines rest = rest
entries_at (some cands) lines rest = do
  zs ← parse_candidates (split b',' cands)
  kps ← rest
  ok (add_kprobe (first_place (take 4 lines)) zs kps)

unfoldable pub kprobe_entries : List Text → Result (List KprobeEntry)
kprobe_entries [] = ok []
kprobe_entries (line ∷ lines) =
    entries_at (candidates_text (strip line)) lines (kprobe_entries lines)

unfoldable pub kprobes_in : Text → Result (List KprobeEntry)
kprobes_in content = kprobe_entries (split 10 content)
