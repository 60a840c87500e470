-- ===== src/Diff/Offsets.antt =====
-- The offsets of changed instructions in a function of vmlinux (src/diff.py).
use xkernel.Base.{ℕ, ◌≡◌, ◌≢◌, refl, sym, ap, ◌∙◌, arith, Bool, true, false, not, ◌&&◌, Option}
use xkernel.Base.{none, some, List, [], ◌∷◌, ◌++◌, if◌then◌else◌, ◌==◌, list_eq, nat_eq, length}
use xkernel.Base.{drop, beq_refl, beq_ne, All}
use xkernel.Base.Int.{ℤ, pos, ◌+ℤ◌, ◌-ℤ◌, int_eq, eq_of_parts, +ℤ_parts, -ℤ_parts}
use xkernel.Base.Text.{Text, text, lstrip, strip, starts_with, parse_nat, show_int, map_option}
use xkernel.Analysis.Varying.{take_while, is_hex}
use xkernel.Diff.Lines.{split_address, after_spaces}
use xkernel.Diff.Instructions.{begins_space}

-- `<name>:`
unfoldable pub exact_name : Text → Text → Option Text
exact_name func_name s =
    let name = text "<" ++ (func_name ++ text ">:") in
    if starts_with s name then some name else none

unfoldable pub if_found {ℓ κ} : {A : Type ℓ} {B : Type κ} → Option A → Option B → Option B
if_found none result = none
if_found (some a) result = result

-- `^([0-9a-fA-F]+)\s+<name>:`, the digits read at base 16.
unfoldable pub start_in : Text → Text → Option ℕ
start_in func_name line =
    let digits = take_while is_hex line in
    if_found (after_spaces (exact_name func_name) (drop (length digits) line)) (parse_nat 16 digits)

unfoldable pub or_next {ℓ} : {A : Type ℓ} → Option A → Option A → Option A
or_next none rest = rest
or_next (some a) rest = some a

unfoldable pub extract_function_start : Text → List Text → Option ℕ
extract_function_start func_name [] = none
extract_function_start func_name (line ∷ lines) =
    or_next (start_in func_name line) (extract_function_start func_name lines)

pub record ChangedInstruction : Type 0 where
  pub offset : Text
  pub line : Text
  pub is_original : Bool

unfoldable pub changed_address : Option (Text × Text) → Option ℕ
changed_address none = none
changed_address (some (digits, rest)) = parse_nat 16 digits

unfoldable pub add_changed :
    ℕ → Text → Bool → Option ℕ → List ChangedInstruction → List ChangedInstruction
add_changed func_start line is_original none rest = rest
add_changed func_start line is_original (some addr) rest =
    record {
      offset = text "0x" ++ show_int 16 (pos addr -ℤ pos func_start);
      line = strip line;
      is_original = is_original;
    }
    ∷ rest

unfoldable pub changed_from : ℕ → List Text → List ChangedInstruction
changed_from func_start [] = []
changed_from func_start (line ∷ lines) =
    let rest = changed_from func_start lines in
    let addr = changed_address (split_address (lstrip (drop 1 line))) in
    if starts_with line (text "-") && not (starts_with line (text "---"))
    then add_changed func_start line true addr rest
    else if starts_with line (text "+") && not (starts_with line (text "+++"))
    then add_changed func_start line false addr rest
    else rest

unfoldable pub from_start {ℓ} : {A : Type ℓ} → Option ℕ → (ℕ → A) → A → A
from_start none f default = default
from_start (some func_start) f default = f func_start

unfoldable pub parse_vmlinux_diff_with_offsets :
    List Text → List Text → Text → List ChangedInstruction
parse_vmlinux_diff_with_offsets filtered_diff disas func_name =
    from_start (extract_function_start func_name disas) (λ s. changed_from s filtered_diff) []

-- `^\s*([0-9a-fA-F]+):\s+`, the digits read at base 16.
unfoldable pub spaced : Option (Text × Text) → Option ℕ
spaced none = none
spaced (some (digits, rest)) = if begins_space rest then parse_nat 16 digits else none

unfoldable pub line_address : Text → Option ℕ
line_address line = spaced (split_address (lstrip line))

-- The address of the first instruction behind the changed one.
unfoldable pub next_address : ℤ → Bool → List Text → Option ℕ
next_address changed_addr found [] = none
next_address changed_addr found (line ∷ lines) = elim (line_address line) [
  | none ↦ next_address changed_addr found lines
  | some addr ↦
      let rest =
        next_address changed_addr (if pos addr == changed_addr then true else found) lines in
      if found then some addr else rest
]

unfoldable pub find_next_instruction_offset : List Text → Text → ℤ → Option ℤ
find_next_instruction_offset disas func_name changed_offset =
    from_start (extract_function_start func_name disas)
      (λ s.
        map_option (λ addr. pos addr -ℤ pos s) (next_address (pos s +ℤ changed_offset) false disas))
      none

-- The addresses of the instruction lines of a file, in order.
unfoldable pub addresses : List Text → List ℕ
addresses [] = []
addresses (line ∷ lines) = elim (line_address line) [
  | none ↦ addresses lines
  | some a ↦ a ∷ addresses lines
]

next_of : ℤ → Bool → List ℕ → Option ℕ
next_of target found [] = none
next_of target found (a ∷ as') =
    if found then some a else next_of target (if pos a == target then true else found) as'

-- What the loop does at an address that it has read.
step_at : ℤ → Bool → Option ℕ → List Text → Option ℕ
step_at target found o lines = elim o [
  | none ↦ next_address target found lines
  | some a ↦
      if found then some a else next_address target (if pos a == target then true else found) lines
]

addresses_at : Option ℕ → List ℕ → List ℕ
addresses_at none rest = rest
addresses_at (some a) rest = a ∷ rest

next_address-step :
    (target : ℤ) (found : Bool) (line : Text) (lines : List Text)
    → next_address target found (line ∷ lines) ≡ step_at target found (line_address line) lines
unfolding next_address step_at
next_address-step target found line lines = refl

addresses-step :
    (line : Text) (lines : List Text)
    → addresses (line ∷ lines) ≡ addresses_at (line_address line) (addresses lines)
unfolding addresses addresses_at
addresses-step line lines = ground arith

next_address-addresses :
    (target : ℤ) (found : Bool) (lines : List Text)
    → next_address target found lines ≡ next_of target found (addresses lines)
next_address-addresses target found [] = unfold next_address addresses next_of in refl
next_address-addresses target found (line ∷ lines) =
    next_address-step target found line lines
    ∙ at_step (line_address line) (next_address-addresses target found lines)
        (λ a. next_address-addresses target (if pos a == target then true else found) lines)
    ∙ ap (next_of target found) (sym (addresses-step line lines))
  where
    at_step :
        (o : Option ℕ)
        → next_address target found lines ≡ next_of target found (addresses lines)
        → ((a : ℕ)
            → next_address target (if pos a == target then true else found) lines
              ≡ next_of target (if pos a == target then true else found) (addresses lines))
        → step_at target found o lines ≡ next_of target found (addresses_at o (addresses lines))
    at_step none same later = unfold step_at addresses_at in same
    at_step (some a) same later =
        unfold step_at addresses_at next_of in ap (λ r. if found then some a else r) (later a)

next_of-after :
    (a b : ℕ) (before after : List ℕ)
    → All (λ c. c ≢ a) before
    → next_of (pos a) false (before ++ (a ∷ b ∷ after)) ≡ some b
unfolding next_of
next_of-after a b [] after h = rw (beq_refl (pos a)) refl
next_of-after a b (c ∷ before) after h =
    rw (beq_ne {a = pos c} {b = pos a} (λ e. h.0 (cc))) (next_of-after a b before after h.1)

-- Take the addresses of the lines of the file that begin with one, also those of lines that only go
-- on with the bytes of a long instruction. If these are some that are not that of the changed
-- instruction, then this one, then another, the offset of this other one is found: it is that of the
-- next line with an address, which for a long instruction stands inside the instruction.
pub find_next_instruction_offset_lem :
    (disas : List Text) (func_name : Text) (s a b : ℕ) (before after : List ℕ)
    → extract_function_start func_name disas ≡ some s
    → addresses disas ≡ before ++ (a ∷ b ∷ after)
    → All (λ c. c ≢ a) before
    → find_next_instruction_offset disas func_name (pos a -ℤ pos s) ≡ some (pos b -ℤ pos s)
unfolding find_next_instruction_offset
find_next_instruction_offset_lem disas func_name s a b before after start all h =
    let back : pos s +ℤ (pos a -ℤ pos s) ≡ pos a =
      eq_of_parts _ _
        (omega (arith, +ℤ_parts (pos s) (pos a -ℤ pos s), -ℤ_parts (pos a) (pos s))) in
    rw (start) (
      unfold from_start in
      rw (back, next_address-addresses (pos a) false disas, all, next_of-after a b before after h)
        (unfold map_option in refl))
