-- ===== src/Diff/Block/Starts.antt =====
-- Where the search for the start of a block stops (src/diff.py).
use xkernel.Base.{ℕ, zero, suc, ◌≤◌, ◌<◌, ◌≡◌, ◌⊎◌, inl, inr, refl, subst, arith}
use xkernel.Base.{true, false, none, some, List, if◌then◌else◌, length, ltb, lt→ltb}
use xkernel.Base.{Bool-cases}
use native.Mathlib.Decide.{dec_lt}
use xkernel.Diff.Instructions.{Instruction}
use xkernel.Diff.Block.{label_at, ends_at, next_in, find_start}

-- What the loop backwards finds, from an instruction that ends no block or is a label.
pub record Starts (insts : List Instruction) (t s : ℕ) : Type 0 where
  pub at_most : s ≤ t
  pub plain : (i : ℕ) → s ≤ i → i < t → ends_at insts i ≡ false
  pub bare : (i : ℕ) → s < i → i ≤ t → label_at insts i ≡ false
  pub left :
      (s ≡ 0) ⊎ ((label_at insts s ≡ true) ⊎ ((p : ℕ) × (s ≡ suc p) × (ends_at insts p ≡ true)))

module _ (insts : List Instruction) where
  at_label : (t : ℕ) → label_at insts t ≡ true → find_start insts t ≡ some t
  unfolding find_start
  at_label zero h = rw h refl
  at_label (suc t) h = rw h refl

  Starts-self : (t : ℕ) → label_at insts t ≡ true → Starts insts t t
  Starts-self t h = record {
    at_most = omega arith;
    plain = λ i a b. absurd (omega arith);
    bare = λ i a b. absurd (omega arith);
    left = inr (inl h);
  }

  starts_behind :
      (t : ℕ)
      → suc t < length insts
      → label_at insts t ≡ false
      → ends_at insts t ≡ true
      → find_start insts t ≡ some (suc t)
  unfolding find_start next_in
  starts_behind zero lt h k = rw (h, k, lt→ltb 1 (length insts) lt) refl
  starts_behind (suc t) lt h k = rw (h, k, lt→ltb (suc (suc t)) (length insts) lt) refl

  Starts-later :
      (t s : ℕ)
      → ends_at insts t ≡ false
      → label_at insts (suc t) ≡ false
      → Starts insts t s
      → Starts insts (suc t) s
  Starts-later t s more bare h = record {
    at_most = omega (arith, h.at_most);
    plain = λ i a b. elim (dec_lt i t) [
      | yes q ↦ h.plain i a q
      | no q ↦ subst (λ k. ends_at insts k ≡ false) (omega arith) more
    ];
    bare = λ i a b. elim (dec_lt t i) [
      | yes q ↦ subst (λ k. label_at insts k ≡ false) (omega arith) bare
      | no q ↦ h.bare i a (omega arith)
    ];
    left = h.left;
  }

  back_bare :
      ((i : ℕ) → label_at insts i ≡ true → ends_at insts i ≡ false)
      → (t : ℕ) → t < length insts
      → label_at insts t ≡ false
      → ends_at insts t ≡ false
      → (s : ℕ) × (find_start insts t ≡ some s) × Starts insts t s
  unfolding find_start next_in
  back_bare plain zero lt h k = (
    0,
    rw (h, k) refl,
    record {
      at_most = omega arith;
      plain = λ i a b. absurd (omega arith);
      bare = λ i a b. absurd (omega arith);
      left = inl refl;
    },
  )
  back_bare plain (suc t) lt h k = elim (Bool-cases (label_at insts t)) [
    | inl head ↦
        (t, rw (h, k) (at_label t head), Starts-later t t (plain t head) h (Starts-self t head))
    | inr bare ↦ elim (Bool-cases (ends_at insts t)) [
      | inl end' ↦ (
        suc t,
        rw (h, k) (starts_behind t lt bare end'),
        record {
          at_most = omega arith;
          plain = λ i a b. absurd (omega arith);
          bare = λ i a b. absurd (omega arith);
          left = inr (inr (t, refl, end'));
        },
      )
      | inr more ↦
          let (s, found, starts) = back_bare plain t (omega arith) bare more in
          (s, rw (h, k) found, Starts-later t s more h starts)
    ]
  ]

  -- Where the loop backwards stops, and what it passed.
  pub back :
      ((i : ℕ) → label_at insts i ≡ true → ends_at insts i ≡ false)
      → (t : ℕ) → t < length insts
      → ends_at insts t ≡ false
      → (s : ℕ) × (find_start insts t ≡ some s) × Starts insts t s
  back plain t lt k = elim (Bool-cases (label_at insts t)) [
    | inl head ↦ (t, at_label t head, Starts-self t head)
    | inr none' ↦ back_bare plain t lt none' k
  ]

  -- The block that is found for a terminator begins behind it, and so leaves it out.
  pub find_start-terminator :
      (t : ℕ)
      → label_at insts t ≡ false
      → ends_at insts t ≡ true
      → find_start insts t ≡ (if ltb (suc t) (length insts) then some (suc t) else none)
  unfolding find_start next_in
  find_start-terminator zero h k = rw (h, k) refl
  find_start-terminator (suc t) h k = rw (h, k) refl
