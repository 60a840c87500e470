-- ===== src/Diff/Lines.antt =====
-- A line of objdump, and what src/diff.py reads in it: the bytes, the mnemonic and the operands.
use xkernel.Base.{ℕ, Bool, true, false, ◌&&◌, ◌||◌, Option, none, some, [], ◌∷◌, if◌then◌else◌}
use xkernel.Base.{◌==◌, list_eq, nat_eq, contains, leb, length, drop}
use xkernel.Base.Text.{Text, text, is_space, lstrip, join, starts_with}
use xkernel.Analysis.Jump.{words}
use xkernel.Analysis.Varying.{take_while, is_hex}

unfoldable pub is_lower : ℕ → Bool
is_lower c = leb b'a' c && leb c b'z'

-- A match that was tried later in the text wins over an earlier one.
unfoldable pub later {ℓ} : {A : Type ℓ} → Option A → Option A → Option A
later none earlier = earlier
later (some a) earlier = some a

-- `[0-9a-fA-F\s]+`, as long as it can be, and a pattern that must follow it.
unfoldable pub after_bytes {ℓ} : {A : Type ℓ} → (Text → Option A) → Text → Option A
after_bytes pattern [] = none
after_bytes pattern (c ∷ s) =
    if is_hex c || is_space c then later (after_bytes pattern s) (pattern s) else none

-- `\s+`, as long as it can be, and a pattern that must follow it.
unfoldable pub after_spaces {ℓ} : {A : Type ℓ} → (Text → Option A) → Text → Option A
after_spaces pattern [] = none
after_spaces pattern (c ∷ s) =
    if is_space c then later (after_spaces pattern s) (pattern s) else none

unfoldable pub nonempty : Text → Option Text
nonempty [] = none
nonempty (c ∷ s) = some (c ∷ s)

unfoldable pub skip_sign : Text → Text
skip_sign [] = []
skip_sign (c ∷ s) = if c == b'-' || c == b'+' then s else c ∷ s

-- What stands behind `[0-9a-fA-F]+:`, with the digits.
unfoldable pub split_address : Text → Option (Text × Text)
split_address s =
    let digits = take_while is_hex s in
    let rest = drop (length digits) s in
    if digits == []
    then none
    else if starts_with rest (text ":")
    then some (digits, drop 1 rest)
    else none

-- `^\s*[-+]?\s*[0-9a-fA-F]+:`, and a pattern for what follows it.
unfoldable pub at_rest {ℓ} : {A : Type ℓ} → (Text → Option A) → Option (Text × Text) → Option A
at_rest pattern none = none
at_rest pattern (some (digits, rest)) = pattern rest

unfoldable pub behind_address {ℓ} : {A : Type ℓ} → (Text → Option A) → Text → Option A
behind_address pattern line = at_rest pattern (split_address (lstrip (skip_sign (lstrip line))))

unfoldable pub hex_or_space : ℕ → Bool
hex_or_space c = is_hex c || is_space c

unfoldable pub bytes_run : Text → Option Text
bytes_run s = nonempty (take_while hex_or_space s)

unfoldable pub joined : Option Text → Option Text
joined none = none
joined (some run) = some (join (text " ") (words run))

unfoldable pub extract_instruction_bytes : Text → Option Text
extract_instruction_bytes line = joined (behind_address (after_spaces bytes_run) line)

-- `[a-z]+`
unfoldable pub lower_word : Text → Option Text
lower_word s = nonempty (take_while is_lower s)

unfoldable pub extract_mnemonic : Text → Option Text
extract_mnemonic line = behind_address (after_spaces (after_bytes (after_spaces lower_word))) line

-- `[a-z]+\s+(.+)`
unfoldable pub operands_behind : Text → Option Text
operands_behind s =
    let word = take_while is_lower s in
    if word == [] then none else after_spaces nonempty (drop (length word) s)

unfoldable pub operands_of : Text → Option Text
operands_of line = behind_address (after_spaces (after_bytes (after_spaces operands_behind))) line

unfoldable pub is_basic_block_terminator : Option Text → Bool
is_basic_block_terminator none = false
is_basic_block_terminator (some mnemonic) =
    mnemonic == text "jmp"
    || (starts_with mnemonic (text "j") && (if mnemonic == text "jmp" then false else true))
    || mnemonic == text "call"
    || contains (text "ret" ∷ text "retq" ∷ text "retn" ∷ []) mnemonic
