-- ===== src/Gen/Tests.antt =====
-- The steps of an output of src/diff.py at concrete inputs (src/gen.py).
use xkernel.Base.{◌≡◌, refl, true, false, not, List, [], ◌∷◌, ◌++◌, keep}
use xkernel.Base.Text.{Text, text, starts_with}
use xkernel.Gen.{begins_11b, ends_11b, step_lines, tells_line, step_lines_lem}

abbrev front : List Text
front = text "11. Extracting" ∷ []

abbrev head : Text
head = text "11b."

abbrev block : List Text
block = text "Basic Block: lines 1-2" ∷ []

abbrev last : Text
last = text "12."

front_bare : begins_11b (text "11. Extracting") ≡ false
unfolding begins_11b starts_with text
front_bare = refl

head_begins : begins_11b head ≡ true
unfolding begins_11b starts_with text
head_begins = refl

block_bare : begins_11b (text "Basic Block: lines 1-2") ≡ false
unfolding begins_11b starts_with text
block_bare = refl

block_open : ends_11b (text "Basic Block: lines 1-2") ≡ false
unfolding ends_11b starts_with text
block_open = refl

last_bare : begins_11b last ≡ false
unfolding begins_11b starts_with text
last_bare = refl

last_ends : ends_11b last ≡ true
unfolding ends_11b starts_with text
last_ends = refl

step_lines_example :
    step_lines begins_11b ends_11b false (front ++ (head ∷ (block ++ (last ∷ []))))
    ≡ keep (λ line. not (tells_line line)) block
step_lines_example =
    step_lines_lem begins_11b ends_11b front block [] head last (front_bare, tt) head_begins
      ((block_bare, block_open), tt) last_bare last_ends
