-- ===== src/Diff/Block/Laws.antt =====
-- The bounds of a basic block (src/diff.py).
use xkernel.Base.{ℕ, zero, suc, ◌+◌, ◌-◌, ◌≤◌, ◌<◌, ◌≡◌, ◌⊎◌, inl, inr, refl, sym, subst, arith}
use xkernel.Base.{true, false, ◌&&◌, some, List, length, ltb}
use xkernel.Base.{Bool-cases}
use native.Mathlib.Decide.{dec_lt}
use xkernel.Diff.Instructions.{Instruction}
use xkernel.Diff.Block.{label_at, ends_at, find_start, find_end_from, find_end}
use xkernel.Diff.Block.Starts.{Starts, back}

-- The instructions from `s` to `e` are a block: none before the last ends a block, none after the
-- first is a label, and no instruction can be added at either side.
pub record IsBlock (insts : List Instruction) (s e : ℕ) : Type 0 where
  pub ordered : s ≤ e
  pub inside : e < length insts
  pub unbroken : (i : ℕ) → s ≤ i → i < e → ends_at insts i ≡ false
  pub unlabelled : (i : ℕ) → s < i → i ≤ e → label_at insts i ≡ false
  pub first :
      (s ≡ 0) ⊎ ((label_at insts s ≡ true) ⊎ ((p : ℕ) × (s ≡ suc p) × (ends_at insts p ≡ true)))
  pub last : (suc e ≡ length insts) ⊎ ((ends_at insts e ≡ true) ⊎ (label_at insts (suc e) ≡ true))

-- What the loop forwards finds from `i` on.
record Ends (insts : List Instruction) (s i e : ℕ) : Type 0 where
  at_least : s ≤ e
  in_list : e < length insts
  plain_on : (j : ℕ) → i ≤ j → j < e → ends_at insts j ≡ false
  bare_on : (j : ℕ) → i ≤ j → s < j → j ≤ e → label_at insts j ≡ false
  right : (suc e ≡ length insts) ⊎ ((ends_at insts e ≡ true) ⊎ (label_at insts (suc e) ≡ true))

module _ (insts : List Instruction) where
  Ends-earlier :
      (s i e : ℕ)
      → ends_at insts i ≡ false
      → (s < i → label_at insts i ≡ false)
      → Ends insts s (suc i) e
      → Ends insts s i e
  Ends-earlier s i e more bare h = record {
    at_least = h.at_least;
    in_list = h.in_list;
    plain_on = λ j a b. elim (dec_lt i j) [
      | yes q ↦ h.plain_on j (omega arith) b
      | no q ↦ subst (λ k. ends_at insts k ≡ false) (omega arith) more
    ];
    bare_on = λ j a b c. elim (dec_lt i j) [
      | yes q ↦ h.bare_on j (omega arith) b c
      | no q ↦
          let same : i ≡ j = omega arith in
          subst (λ k. label_at insts k ≡ false) same (bare (omega arith))
    ];
    right = h.right;
  }

  -- From a terminator the search goes on behind it.
  module _ (s l i e : ℕ) where
    loop_stop : (label_at insts i && ltb s i) ≡ true → find_end_from insts s (suc l) i e ≡ i - 1
    unfolding find_end_from
    loop_stop h = ground arith

    loop_last :
        (label_at insts i && ltb s i) ≡ false
        → ends_at insts i ≡ true
        → find_end_from insts s (suc l) i e ≡ i
    unfolding find_end_from
    loop_last h k = ground arith

    loop_more :
        (label_at insts i && ltb s i) ≡ false
        → ends_at insts i ≡ false
        → find_end_from insts s (suc l) i e ≡ find_end_from insts s l (suc i) i
    unfolding find_end_from
    loop_more h k = ground arith

  Ends-loop :
      (s left i e : ℕ)
      → s ≤ i
      → i + left ≡ length insts
      → (suc e ≡ i) ⊎ (0 < left)
      → s ≤ e
      → Ends insts s i (find_end_from insts s left i e)
  Ends-loop s zero i e le sum (inl eq) low =
      unfold find_end_from in
      record {
        at_least = low;
        in_list = omega arith;
        plain_on = λ j a b. absurd (omega arith);
        bare_on = λ j a b c. absurd (omega arith);
        right = inl (omega arith);
      }
  Ends-loop s zero i e le sum (inr lt) low = absurd (omega arith)
  Ends-loop s (suc l) i e le sum pre low = elim (Bool-cases (label_at insts i && ltb s i)) [
    | inl stop ↦
        let after : s < i = ground arith in
        let head : label_at insts i ≡ true = ground arith in
        let same : suc (i - 1) ≡ i = omega arith in
        subst (Ends insts s i) (sym (loop_stop s l i e stop)) (record {
          at_least = omega arith;
          in_list = omega arith;
          plain_on = λ j a b. absurd (omega arith);
          bare_on = λ j a b c. absurd (omega arith);
          right = inr (inr (subst (λ k. label_at insts k ≡ true) (sym same) head));
        })
    | inr on ↦
        let bare_here : s < i → label_at insts i ≡ false = λ q. ground arith in
        elim (Bool-cases (ends_at insts i)) [
          | inl last' ↦ subst (Ends insts s i) (sym (loop_last s l i e on last')) (record {
            at_least = le;
            in_list = omega arith;
            plain_on = λ j a b. absurd (omega arith);
            bare_on = λ j a b c.
                subst (λ k. label_at insts k ≡ false) (omega arith) (bare_here (omega arith));
            right = inr (inl last');
          })
          | inr more ↦
              let ih = Ends-loop s l (suc i) i (omega arith) (omega arith) (inl refl) le in
              subst (Ends insts s i) (sym (loop_more s l i e on more))
                (Ends-earlier s i _ more bare_here ih)
        ]
  ]

  find_end-Ends : (s : ℕ) → s < length insts → Ends insts s s (find_end insts s)
  unfolding find_end
  find_end-Ends s lt =
      Ends-loop s (length insts - s) s s (omega arith) (omega arith) (inr (omega arith))
        (omega arith)

  -- The block that is found for an instruction that ends no block holds this instruction, and is as
  -- long as a block can be, if no label ends a block.
  pub find_start-IsBlock :
      ((i : ℕ) → label_at insts i ≡ true → ends_at insts i ≡ false)
      → (t : ℕ) → t < length insts
      → ends_at insts t ≡ false
      → (s : ℕ) × (find_start insts t ≡ some s)
        × (s ≤ t)
        × (t ≤ find_end insts s)
        × IsBlock insts s (find_end insts s)
  find_start-IsBlock plain t lt k =
      let (s, found, starts) = back insts plain t lt k in
      let inside : s < length insts = omega (arith, starts.at_most) in
      let ends = find_end-Ends s inside in
      (
        s,
        found,
        starts.at_most,
        holds s t starts ends lt k,
        record {
          ordered = ends.at_least;
          inside = ends.in_list;
          unbroken = ends.plain_on;
          unlabelled = λ i a b. ends.bare_on i (omega arith) a b;
          first = starts.left;
          last = ends.right;
        },
      )
    where
      holds :
          (s t : ℕ)
          → Starts insts t s
          → Ends insts s s (find_end insts s)
          → t < length insts
          → ends_at insts t ≡ false
          → t ≤ find_end insts s
      holds s t starts ends lt k = elim (dec_lt (find_end insts s) t) [
        | no q ↦ omega arith
        | yes q ↦ absurd (elim ends.right [
          | inl len ↦ omega (arith, len)
          | inr (inl end') ↦ cc (starts.plain (find_end insts s) ends.at_least q)
          | inr (inr head) ↦
              cc (starts.bare (suc (find_end insts s)) (omega (arith, ends.at_least)) (omega arith))
        ])
      ]
