-- ===== src/Blocks/Translate/Found.antt =====
-- The place that a kprobe is translated to (src/codegen.py).
use xkernel.Base.{ℕ, suc, ◌+◌, ◌≤◌, ◌≡◌, ◌⊎◌, inl, inr, refl, sym, ap, subst, ◌∙◌, arith, false}
use xkernel.Base.{Option, none, some, List, [], ◌∷◌, if◌then◌else◌, ◌==◌, ◌=ℕ◌, list_eq, nat_eq}
use xkernel.Base.{get_elem?, take, Bool-cases, Option-cases, list_beq_iff, ◌++◌, length}
use xkernel.Base.Dict.{get, or_default, lookup, lookup-insert}
use xkernel.Base.Int.{ℤ, int_eq, int_beq_iff}
use xkernel.Base.Text.{Text}
use xkernel.Blocks.Translate.{KernelInstruction, Kprobe, Counters, find_from, find_byte_pattern}
use xkernel.Blocks.Translate.{offset_at, set_seed, new_seed, seed_bytes, translate_seed}
use xkernel.Blocks.Translate.{set_offset, move_behind, at_match, with_bytes, preceding_bytes}
use xkernel.Blocks.Translate.{translate_kprobe, translate_each}

-- How often a byte pattern stands in a list of instructions.
unfoldable pub occurrences : List Text → List KernelInstruction → ℕ
occurrences bytes [] = 0
occurrences bytes (instr ∷ instrs) =
    if instr.bytes == bytes then suc (occurrences bytes instrs) else occurrences bytes instrs

-- The instruction at an index has the bytes, and so have `occ` instructions before it.
pub record IsMatch (instrs : List KernelInstruction) (bytes : List Text) (occ i : ℕ) : Type 0 where
  pub instr : KernelInstruction
  pub at : get_elem? instrs i ≡ some instr
  pub same : instr.bytes ≡ bytes
  pub earlier : occurrences bytes (take i instrs) ≡ occ

find_from-IsMatch :
    (bytes : List Text) (occ count idx i : ℕ) (instrs : List KernelInstruction)
    → find_from bytes occ count idx instrs ≡ some i
    → (k : ℕ) × (instr : KernelInstruction) × (i ≡ idx + k)
      × (get_elem? instrs k ≡ some instr)
      × (instr.bytes ≡ bytes)
      × (count + occurrences bytes (take k instrs) ≡ occ)
unfolding find_from occurrences
find_from-IsMatch bytes occ count idx i [] h = cc
find_from-IsMatch bytes occ count idx i (instr ∷ instrs) h =
    elim (Bool-cases (instr.bytes == bytes)) [
      | inl same ↦ elim (Bool-cases (count =ℕ occ)) [
        | inl last ↦
            (0, instr, ground arith, refl, (list_beq_iff instr.bytes bytes).0 same, ground arith)
        | inr more ↦
            let (k, found, e, here, eq, n) =
              find_from-IsMatch bytes occ (suc count) (suc idx) i instrs (ground arith) in
            (suc k, found, omega arith, here, eq, rw same (omega arith))
      ]
      | inr other ↦
          let (k, found, e, here, eq, n) =
            find_from-IsMatch bytes occ count (suc idx) i instrs (ground arith) in
          (suc k, found, omega arith, here, eq, rw other n)
    ]

find_byte_pattern-IsMatch :
    (instrs : List KernelInstruction) (bytes : List Text) (occ i : ℕ)
    → find_byte_pattern instrs bytes occ ≡ some i
    → IsMatch instrs bytes occ i
unfolding find_byte_pattern
find_byte_pattern-IsMatch instrs bytes occ i h =
    let (k, instr, e, here, eq, n) = find_from-IsMatch bytes occ 0 0 i instrs h in
    let same : k ≡ i = omega arith in
    record {
      instr = instr;
      at = subst (λ j. get_elem? instrs j ≡ some instr) same here;
      same = eq;
      earlier = subst (λ j. occurrences bytes (take j instrs) ≡ occ) same (omega arith);
    }

find_from-none :
    (bytes : List Text) (occ count idx : ℕ) (instrs : List KernelInstruction)
    → count ≤ occ
    → find_from bytes occ count idx instrs ≡ none
    → count + occurrences bytes instrs ≤ occ
unfolding find_from occurrences
find_from-none bytes occ count idx [] le h = omega arith
find_from-none bytes occ count idx (instr ∷ instrs) le h =
    elim (Bool-cases (instr.bytes == bytes)) [
      | inl same ↦
          let more : (count =ℕ occ) ≡ false = ground arith in
          let ih =
            find_from-none bytes occ (suc count) (suc idx) instrs (ground arith) (ground arith) in
          rw same (omega (arith, ih))
      | inr other ↦ rw other (find_from-none bytes occ count (suc idx) instrs le (ground arith))
    ]

find_byte_pattern-none :
    (instrs : List KernelInstruction) (bytes : List Text) (occ : ℕ)
    → find_byte_pattern instrs bytes occ ≡ none
    → occurrences bytes instrs ≤ occ
unfolding find_byte_pattern
find_byte_pattern-none instrs bytes occ h =
    omega (arith, find_from-none bytes occ 0 0 instrs (omega arith) h)

-- A seed is translated without a change of the kprobe's place.
translate_seed-offset :
    (instrs : List KernelInstruction) (base o : Option ℤ) (kp : Kprobe)
    → (translate_seed instrs base o kp).kprobe_offset ≡ kp.kprobe_offset
unfolding translate_seed set_seed
translate_seed-offset instrs base none kp = refl
translate_seed-offset instrs base (some old_seed) kp =
    elim (Option-cases (new_seed instrs (seed_bytes base old_seed kp.all_instructions))) [
      | inl none' ↦ rw none' refl
      | inr (z, e) ↦ rw e refl
    ]

set_offset_lem : (z : ℤ) (kp : Kprobe) → (set_offset z kp).kprobe_offset ≡ z
unfolding set_offset
set_offset_lem z kp = elim (Bool-cases (z == kp.kprobe_offset)) [
  | inl same ↦ rw same (sym ((int_beq_iff z kp.kprobe_offset).0 same))
  | inr other ↦ rw other refl
]

-- The instruction in front of a kprobe in the object file stands in front of it in the kernel.
pub IsBehind : List KernelInstruction → List Text → ℕ → ℤ → Type 0
IsBehind instrs bytes occ offset =
    (i : ℕ) × IsMatch instrs bytes occ i × (offset_at instrs (suc i) ≡ some offset)

-- There are not so many instructions with the bytes, or none stands behind the one in question.
pub HasNone : List KernelInstruction → List Text → ℕ → Type 0
HasNone instrs bytes occ =
    (occurrences bytes instrs ≤ occ)
    ⊎ ((i : ℕ) × IsMatch instrs bytes occ i × (offset_at instrs (suc i) ≡ none))

Placed : List KernelInstruction → List Text → ℕ → Kprobe → Kprobe → Type 0
Placed instrs bytes occ kp kp' =
    ((kp' ≡ kp) × HasNone instrs bytes occ) ⊎ IsBehind instrs bytes occ kp'.kprobe_offset

move_behind-offset :
    (instrs : List KernelInstruction) (base : Option ℤ) (bytes : List Text) (occ i : ℕ)
    (kp : Kprobe)
    → IsMatch instrs bytes occ i
    → (o : Option ℤ) → offset_at instrs (suc i) ≡ o
    → Placed instrs bytes occ kp (move_behind instrs base o kp)
unfolding move_behind Placed IsBehind HasNone
move_behind-offset instrs base bytes occ i kp m none e = inl (refl, inr (i, m, e))
move_behind-offset instrs base bytes occ i kp m (some z) e = inr (
  i,
  m,
  e
      ∙ ap some (
          sym (
            translate_seed-offset instrs base kp.seed_offset (set_offset z kp)
            ∙ set_offset_lem z kp)),
)

at_match-Placed :
    (instrs : List KernelInstruction) (base : Option ℤ) (bytes : List Text) (occ : ℕ) (kp : Kprobe)
    → Placed instrs bytes occ kp (at_match instrs base (find_byte_pattern instrs bytes occ) kp)
at_match-Placed instrs base bytes occ kp =
    elim (Option-cases (find_byte_pattern instrs bytes occ)) [
      | inl none' ↦ rw none' (
          unfold at_match Placed HasNone in
          inl (refl, inl (find_byte_pattern-none instrs bytes occ none')))
      | inr (i, e) ↦ rw e (
          unfold at_match in
          move_behind-offset instrs base bytes occ i kp
            (find_byte_pattern-IsMatch instrs bytes occ i e) (offset_at instrs (suc i)) refl)
    ]

unfoldable pub met_by : Option (List Text) → List Text → ℕ → ℕ
met_by none bytes n = n
met_by (some own) bytes n = if bytes == own then suc n else n

-- How many of the kprobes stand behind an instruction with these bytes.
unfoldable pub met : Option ℤ → List Text → List Kprobe → ℕ
met base bytes [] = 0
met base bytes (kp ∷ kps) =
    met_by (preceding_bytes base kp.kprobe_offset kp.all_instructions) bytes (met base bytes kps)

-- A counter counts the kprobes behind its bytes.
with_bytes-counters :
    (instrs : List KernelInstruction) (base : Option ℤ) (counters : Counters)
    (o : Option (List Text)) (kp : Kprobe) (bytes : List Text)
    → get bytes 0 (with_bytes instrs base counters o kp).0 ≡ met_by o bytes (get bytes 0 counters)
unfolding with_bytes met_by get
with_bytes-counters instrs base counters none kp bytes = refl
with_bytes-counters instrs base counters (some own) kp bytes = elim (Bool-cases (bytes == own)) [
  | inl same ↦
      rw (lookup-insert own bytes (suc (get own 0 counters)) counters, same)
        (unfold or_default in
          ap (λ b. suc (get b 0 counters)) (sym ((list_beq_iff bytes own).0 same)))
  | inr other ↦ rw (lookup-insert own bytes (suc (get own 0 counters)) counters, other) refl
]

met_by-sum :
    (o : Option (List Text)) (bytes : List Text) (m n : ℕ)
    → m + met_by o bytes n ≡ met_by o bytes m + n
unfolding met_by
met_by-sum none bytes m n = refl
met_by-sum (some own) bytes m n = ground arith

translate_kprobe-counters :
    (instrs : List KernelInstruction) (base : Option ℤ) (counters : Counters) (kp : Kprobe)
    (bytes : List Text) (m : ℕ)
    → m + get bytes 0 (translate_kprobe instrs base counters kp).0
      ≡ met_by (preceding_bytes base kp.kprobe_offset kp.all_instructions) bytes m
        + get bytes 0 counters
unfolding translate_kprobe
translate_kprobe-counters instrs base counters kp bytes m =
    let o = preceding_bytes base kp.kprobe_offset kp.all_instructions in
    ap (λ n. m + n) (with_bytes-counters instrs base counters o kp bytes)
    ∙ met_by-sum o bytes m (get bytes 0 counters)

module _ (instrs : List KernelInstruction) (base : Option ℤ) (kp : Kprobe) (bytes : List Text)
    (found : preceding_bytes base kp.kprobe_offset kp.all_instructions ≡ some bytes) where
  Placed-with_bytes :
      (counters : Counters)
      → Placed instrs bytes (get bytes 0 counters) kp (translate_kprobe instrs base counters kp).1
  unfolding translate_kprobe
  Placed-with_bytes counters =
      rw found (unfold with_bytes in at_match-Placed instrs base bytes (get bytes 0 counters) kp)

  translate_each-Placed :
      (before after : List Kprobe) (counters : Counters)
      → (kp' : Kprobe) × (get_elem?
            (translate_each instrs base counters (before ++ (kp ∷ after)))
            (length before)
          ≡ some kp')
        × Placed instrs bytes (met base bytes before + get bytes 0 counters) kp kp'
  unfolding translate_each met
  translate_each-Placed [] after counters = (
    (translate_kprobe instrs base counters kp).1,
    refl,
    subst (λ n. Placed instrs bytes n kp (translate_kprobe instrs base counters kp).1) (omega arith)
        (Placed-with_bytes counters),
  )
  translate_each-Placed (first ∷ before) after counters =
      let (kp', at, placed) =
        translate_each-Placed before after (translate_kprobe instrs base counters first).0 in
      (
        kp',
        at,
        subst (λ n. Placed instrs bytes n kp kp')
            (translate_kprobe-counters instrs base counters first bytes (met base bytes before))
            placed,
      )

-- Of the kprobes of one function that are translated one after the other, take one that stands
-- behind an instruction of the object file. It is placed behind an instruction of the running kernel
-- that has the same bytes; before that one stand as many instructions with these bytes as kprobes
-- before this one stand behind such an instruction in the object file. It is left as it is only where
-- the kernel has no such instruction, or none behind it.
pub translate_each-IsBehind :
    (instrs : List KernelInstruction) (base : Option ℤ) (before after : List Kprobe) (kp : Kprobe)
    (bytes : List Text)
    → preceding_bytes base kp.kprobe_offset kp.all_instructions ≡ some bytes
    → (kp' : Kprobe) × (get_elem?
          (translate_each instrs base [] (before ++ (kp ∷ after)))
          (length before)
        ≡ some kp')
      × (((kp' ≡ kp) × HasNone instrs bytes (met base bytes before))
          ⊎ IsBehind instrs bytes (met base bytes before) kp'.kprobe_offset)
unfolding Placed
translate_each-IsBehind instrs base before after kp bytes found =
    let (kp', at, placed) = translate_each-Placed instrs base kp bytes found before after [] in
    (kp', at, subst (λ n. Placed instrs bytes n kp kp') (no_counter _) placed)
  where
    no_counter : (n : ℕ) → n + get bytes 0 [] ≡ n
    no_counter n = unfold get lookup or_default in omega arith
