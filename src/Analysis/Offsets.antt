-- ===== src/Analysis/Offsets.antt =====
-- The offsets of a basic block and of its changed instructions (src/codegen.py).
use xkernel.Base.{ℕ, ◌+◌, ◌≤◌, ◌<◌, ◌≡◌, sym, ap, subst, lt→ltb, arith, true, List, [], ◌∷◌}
use xkernel.Base.{Option, some, none, All, if◌then◌else◌, ltb, length, drop}
use xkernel.Base.Text.{Text, text, starts_with, strip, parse_nat}
use xkernel.Analysis.Jump.{get_insn_byte_count}
use xkernel.Analysis.Varying.{take_while, is_hex}

unfoldable pub unmarked : Text → Text
unmarked inst = if starts_with inst (text "[*]") then strip (drop 3 inst) else inst

-- `re.match(r'([0-9a-fA-F]+):', inst)`, read at base 16.
unfoldable pub address_of : Text → Option ℕ
address_of inst =
    let digits = take_while is_hex inst in
    if starts_with (drop (length digits) inst) (text ":") then parse_nat 16 digits else none

unfoldable pub add_offset : Option ℕ → List ℕ → List ℕ
add_offset none offsets = offsets
add_offset (some addr) offsets = addr ∷ offsets

unfoldable pub offsets_of : List Text → List ℕ
offsets_of [] = []
offsets_of (inst ∷ insts) = add_offset (address_of (unmarked (strip inst))) (offsets_of insts)

-- `min` and `max` of a list that begins with a number.
unfoldable pub minimum : ℕ → List ℕ → ℕ
minimum m [] = m
minimum m (n ∷ ns) = minimum (if ltb n m then n else m) ns

unfoldable pub maximum : ℕ → List ℕ → ℕ
maximum m [] = m
maximum m (n ∷ ns) = maximum (if ltb m n then n else m) ns

unfoldable pub ends_of : List ℕ → Option (ℕ × ℕ)
ends_of [] = none
ends_of (n ∷ ns) = some (minimum n ns, maximum n ns)

unfoldable pub extract_bb_offsets : List Text → Option (ℕ × ℕ)
extract_bb_offsets all_instructions = ends_of (offsets_of all_instructions)

-- The address and the number of bytes of each changed instruction.
unfoldable pub add_sized : Option ℕ → ℕ → List (ℕ × ℕ) → List (ℕ × ℕ)
add_sized none byte_count entries = entries
add_sized (some addr) byte_count entries = (addr, byte_count) ∷ entries

unfoldable pub entries_of : List Text → List (ℕ × ℕ)
entries_of [] = []
entries_of (inst ∷ insts) =
    let line = unmarked (strip inst) in
    add_sized (address_of line) (get_insn_byte_count line) (entries_of insts)

unfoldable pub lowest : ℕ → List (ℕ × ℕ) → ℕ
lowest m [] = m
lowest m ((addr, n) ∷ es) = lowest (if ltb addr m then addr else m) es

-- `max(entries, key=lambda e: e[0])`, which is the first of the largest.
unfoldable pub last_entry : ℕ × ℕ → List (ℕ × ℕ) → ℕ × ℕ
last_entry e [] = e
last_entry (addr, n) ((addr', n') ∷ es) =
    last_entry (if ltb addr addr' then (addr', n') else (addr, n)) es

unfoldable pub end_of : ℕ × ℕ → ℕ
end_of (addr, n) = addr + n

unfoldable pub span_of_entries : List (ℕ × ℕ) → Option (ℕ × ℕ)
span_of_entries [] = none
span_of_entries ((addr, n) ∷ es) = some (lowest addr es, end_of (last_entry (addr, n) es))

unfoldable pub extract_changed_offsets : List Text → Option (ℕ × ℕ)
extract_changed_offsets changed_instructions = span_of_entries (entries_of changed_instructions)

smaller_bound : (a m : ℕ) → ((if ltb a m then a else m) ≤ m) × ((if ltb a m then a else m) ≤ a)
smaller_bound a m = ground arith

lowest_bound : (m : ℕ) (es : List (ℕ × ℕ)) → (lowest m es ≤ m) × All (λ e. lowest m es ≤ e.0) es
unfolding lowest
lowest_bound m [] = (omega arith, tt)
lowest_bound m ((addr, n) ∷ es) =
    let ih = lowest_bound (if ltb addr m then addr else m) es in
    let b = smaller_bound addr m in (omega (arith, ih.0, b.0), (omega (arith, ih.0, b.1), ih.1))

-- The instructions stand one after the other, and none is empty.
abbrev pub IsLaidOut : List (ℕ × ℕ) → Type 0
IsLaidOut [] = Unit
IsLaidOut ((addr, n) ∷ []) = 0 < n
IsLaidOut ((addr, n) ∷ (addr', n') ∷ es) =
    (0 < n) × (addr + n ≤ addr') × IsLaidOut ((addr', n') ∷ es)

end_bound :
    (addr n : ℕ) (es : List (ℕ × ℕ))
    → IsLaidOut ((addr, n) ∷ es)
    → (addr + n ≤ end_of (last_entry (addr, n) es))
      × All (λ e. e.0 + e.1 ≤ end_of (last_entry (addr, n) es)) es
unfolding last_entry end_of
end_bound addr n [] h = (omega arith, tt)
end_bound addr n ((addr', n') ∷ es) h =
    let ih = end_bound addr' n' es h.2 in
    let later : ltb addr addr' ≡ true = lt→ltb addr addr' (omega (arith, h.0, h.1)) in
    let same : last_entry (addr, n) ((addr', n') ∷ es) ≡ last_entry (addr', n') es =
      ap (λ t. last_entry (if t then (addr', n') else (addr, n)) es) later in
    subst (λ l. (addr + n ≤ end_of l) × All (λ e. e.0 + e.1 ≤ end_of l) ((addr', n') ∷ es))
      (sym same) (omega (arith, ih.0, h.1), (ih.0, ih.1))

All-both :
    (P Q : ℕ × ℕ → Type 0) (es : List (ℕ × ℕ)) → All P es → All Q es → All (λ e. P e × Q e) es
All-both P Q [] h k = tt
All-both P Q (e ∷ es) h k = ((h.0, k.0), All-both P Q es h.1 k.1)

-- The span that extract_changed_offsets gives holds every line with an address that it is given, with
-- the bytes that the line shows, if these stand one after the other. The bytes of a long instruction
-- that stand on further lines are counted only where these lines are given too.
pub extract_changed_offsets-Covers :
    (insts : List Text) (soff eoff : ℕ)
    → extract_changed_offsets insts ≡ some (soff, eoff)
    → IsLaidOut (entries_of insts)
    → All (λ e. (soff ≤ e.0) × (e.0 + e.1 ≤ eoff)) (entries_of insts)
unfolding extract_changed_offsets span_of_entries
extract_changed_offsets-Covers insts soff eoff h l = covered (entries_of insts) h l
  where
    covered :
        (es : List (ℕ × ℕ))
        → span_of_entries es ≡ some (soff, eoff)
        → IsLaidOut es
        → All (λ e. (soff ≤ e.0) × (e.0 + e.1 ≤ eoff)) es
    covered [] h l = tt
    covered ((addr, n) ∷ es) h l =
        let low = lowest_bound addr es in
        let high = end_bound addr n es l in
        let p : lowest addr es ≡ soff = cc in
        let q : end_of (last_entry (addr, n) es) ≡ eoff = cc in
        subst (λ s. All (λ e. (s ≤ e.0) × (e.0 + e.1 ≤ eoff)) ((addr, n) ∷ es)) p
          (subst (λ t. All (λ e. (lowest addr es ≤ e.0) × (e.0 + e.1 ≤ t)) ((addr, n) ∷ es)) q
            ((low.0, high.0), All-both _ _ es low.1 high.1))
