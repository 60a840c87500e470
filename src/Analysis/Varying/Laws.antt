-- ===== src/Analysis/Varying/Laws.antt =====
-- What the constant is that extract_varying_constant finds.
use xkernel.Base.{ℕ, suc, ◌≡◌, ◌↔◌, refl, sym, ap, ◌∙◌, arith, Bool, true, false, ◌&&◌, List, []}
use xkernel.Base.{◌∷◌, ◌++◌, some, none, if◌then◌else◌, ◌=ℕ◌, ◌==◌, list_eq, nat_eq, list_beq_iff}
use xkernel.Base.{length}
use xkernel.Base.Int.{pos}
use xkernel.Base.Text.{Text}
use xkernel.Analysis.Varying.{pure_constants, normalize, extract_nums, varying, only, same_length}
use xkernel.Analysis.Varying.{structured_constant, or_triple, extract_varying_constant}

-- The lists are equal but at one position, where the first has `a`, the second `b` and the third
-- `c`, which are not all equal.
pub record DifferAt (n1 n2 n3 : List ℕ) (a b c : ℕ) : Type 0 where
  pub before : List ℕ
  pub after : List ℕ
  pub first : n1 ≡ before ++ (a ∷ after)
  pub second : n2 ≡ before ++ (b ∷ after)
  pub third : n3 ≡ before ++ (c ∷ after)
  pub not_equal : (a =ℕ b && b =ℕ c) ≡ false

varying-same : (n : List ℕ) → varying n n n ≡ []
unfolding varying
varying-same [] = refl
varying-same (a ∷ n) = rw (varying-same n) (ground arith)

varying-append :
    (before after : List ℕ) (a b c : ℕ)
    → (a =ℕ b && b =ℕ c) ≡ false
    → varying (before ++ (a ∷ after)) (before ++ (b ∷ after)) (before ++ (c ∷ after))
      ≡ (a, b, c) ∷ []
unfolding varying
varying-append [] after a b c h = rw (varying-same after, h) refl
varying-append (x ∷ before) after a b c h = rw (varying-append before after a b c h) (ground arith)

-- Lists of one length without a varying position are equal.
varying-none :
    (n1 n2 n3 : List ℕ)
    → length n1 ≡ length n2
    → length n1 ≡ length n3
    → varying n1 n2 n3 ≡ []
    → (n1 ≡ n2) × (n1 ≡ n3)
unfolding varying
varying-none [] [] [] h k e = (refl, refl)
varying-none (a ∷ n1) [] n3 h k e = absurd (omega (arith, h))
varying-none [] (b ∷ n2) n3 h k e = absurd (omega (arith, h))
varying-none [] [] (c ∷ n3) h k e = absurd (omega (arith, k))
varying-none (a ∷ n1) (b ∷ n2) [] h k e = absurd (omega (arith, k))
varying-none (a ∷ n1) (b ∷ n2) (c ∷ n3) h k e =
    by_test (a =ℕ b && b =ℕ c) refl e (varying-none n1 n2 n3 (omega (arith, h)) (omega (arith, k)))
  where
    by_test :
        (t : Bool)
        → (a =ℕ b && b =ℕ c) ≡ t
        → (if t then varying n1 n2 n3 else (a, b, c) ∷ varying n1 n2 n3) ≡ []
        → (varying n1 n2 n3 ≡ [] → (n1 ≡ n2) × (n1 ≡ n3))
        → ((a ∷ n1) ≡ (b ∷ n2)) × ((a ∷ n1) ≡ (c ∷ n3))
    by_test true f e ih =
        let r = ih e in
        let p : a ≡ b = ground arith in let q : a ≡ c = ground arith in (cc (p, r.0), cc (q, r.1))
    by_test false f e ih = cc

varying-one :
    (n1 n2 n3 : List ℕ) (a b c : ℕ)
    → length n1 ≡ length n2
    → length n1 ≡ length n3
    → varying n1 n2 n3 ≡ (a, b, c) ∷ []
    → DifferAt n1 n2 n3 a b c
unfolding varying
varying-one [] [] [] a b c h k e = cc
varying-one (x ∷ n1) [] n3 a b c h k e = absurd (omega (arith, h))
varying-one [] (y ∷ n2) n3 a b c h k e = absurd (omega (arith, h))
varying-one [] [] (z ∷ n3) a b c h k e = absurd (omega (arith, k))
varying-one (x ∷ n1) (y ∷ n2) [] a b c h k e = absurd (omega (arith, k))
varying-one (x ∷ n1) (y ∷ n2) (z ∷ n3) a b c h k e =
    by_test (x =ℕ y && y =ℕ z) refl e
      (varying-one n1 n2 n3 a b c (omega (arith, h)) (omega (arith, k)))
  where
    by_test :
        (t : Bool)
        → (x =ℕ y && y =ℕ z) ≡ t
        → (if t then varying n1 n2 n3 else (x, y, z) ∷ varying n1 n2 n3) ≡ ((a, b, c) ∷ [])
        → (varying n1 n2 n3 ≡ ((a, b, c) ∷ []) → DifferAt n1 n2 n3 a b c)
        → DifferAt (x ∷ n1) (y ∷ n2) (z ∷ n3) a b c
    by_test true f e ih =
        let r = ih e in
        let p : x ≡ y = ground arith in
        let q : x ≡ z = ground arith in
        record {
          before = x ∷ r.before;
          after = r.after;
          first = ap (λ l. x ∷ l) r.first;
          second = cc (p, r.second);
          third = cc (q, r.third);
          not_equal = r.not_equal;
        }
    by_test false f e ih =
        let empty : varying n1 n2 n3 ≡ [] = cc in
        let same = varying-none n1 n2 n3 (omega (arith, h)) (omega (arith, k)) empty in
        let xa : x ≡ a = cc in
        let yb : y ≡ b = cc in
        let zc : z ≡ c = cc in
        record {
          before = [];
          after = n1;
          first = cc;
          second = cc (same.0);
          third = cc (same.1);
          not_equal = cc (xa, yb, zc, f);
        }

only_one :
    (l : List (ℕ × ℕ × ℕ)) (a b c : ℕ) → only l ≡ some (pos a, pos b, pos c) → l ≡ (a, b, c) ∷ []
unfolding only
only_one [] a b c h = cc
only_one ((x, y, z) ∷ []) a b c h = cc
only_one (p ∷ q ∷ l) a b c h = cc

DifferAt-length :
    {n1 n2 n3 : List ℕ} {a b c : ℕ}
    → DifferAt n1 n2 n3 a b c
    → (length n1 ≡ length n2) × (length n1 ≡ length n3)
DifferAt-length d = (
  ap length d.first ∙ equal_length d.before d.after _ _ ∙ sym (ap length d.second),
  ap length d.first ∙ equal_length d.before d.after _ _ ∙ sym (ap length d.third),
)
  where
    equal_length :
        (before after : List ℕ) (x y : ℕ)
        → length (before ++ (x ∷ after)) ≡ length (before ++ (y ∷ after))
    equal_length [] after x y = refl
    equal_length (z ∷ before) after x y = ap suc (equal_length before after x y)

both_equal : (s t u : Text) → (s == t && s == u) ≡ true → (s ≡ t) × (s ≡ u)
both_equal s t u h = (ground (arith, list_beq_iff s t), ground (arith, list_beq_iff s u))

equal_both : (s t u : Text) → s ≡ t → s ≡ u → (s == t && s == u) ≡ true
equal_both s t u h k = ground (arith, list_beq_iff s t, list_beq_iff s u)

same_length_iff :
    (n1 n2 n3 : List ℕ)
    → (same_length n1 n2 n3 ≡ true) ↔ ((length n1 ≡ length n2) × (length n1 ≡ length n3))
unfolding same_length
same_length_iff n1 n2 n3 = ground arith

-- Where the expressions are not all plain numbers, extract_varying_constant finds three numbers
-- exactly if the expressions agree but for their numbers, and these agree at all positions but one,
-- where they are the three.
pub extract_varying_constant_lem :
    (e1 e2 e3 : Text) (a b c : ℕ)
    → pure_constants e1 e2 e3 ≡ none
    → (extract_varying_constant e1 e2 e3 ≡ some (pos a, pos b, pos c)) ↔ (
        (normalize e1 ≡ normalize e2)
        × (normalize e1 ≡ normalize e3)
        × DifferAt (extract_nums e1) (extract_nums e2) (extract_nums e3) a b c)
unfolding extract_varying_constant or_triple structured_constant only
extract_varying_constant_lem e1 e2 e3 a b c h = rw h (there, back)
  where
    found :
        (t : Bool) (l : Bool)
        → (normalize e1 == normalize e2 && normalize e1 == normalize e3) ≡ t
        → same_length (extract_nums e1) (extract_nums e2) (extract_nums e3) ≡ l
        → (if t
            then (if l
                then only (varying (extract_nums e1) (extract_nums e2) (extract_nums e3))
                else none)
            else none)
          ≡ some (pos a, pos b, pos c)
        → (normalize e1 ≡ normalize e2)
          × (normalize e1 ≡ normalize e3)
          × DifferAt (extract_nums e1) (extract_nums e2) (extract_nums e3) a b c
    found true true p q k =
        let t = both_equal _ _ _ p in
        let l = (same_length_iff _ _ _).0 q in
        (t.0, t.1, varying-one _ _ _ a b c l.0 l.1 (only_one _ a b c k))
    found true false p q k = cc
    found false l p q k = cc

    there :
        structured_constant e1 e2 e3 ≡ some (pos a, pos b, pos c)
        → (normalize e1 ≡ normalize e2)
          × (normalize e1 ≡ normalize e3)
          × DifferAt (extract_nums e1) (extract_nums e2) (extract_nums e3) a b c
    there k = found _ _ refl refl k

    back :
        (normalize e1 ≡ normalize e2)
          × (normalize e1 ≡ normalize e3)
          × DifferAt (extract_nums e1) (extract_nums e2) (extract_nums e3) a b c
        → structured_constant e1 e2 e3 ≡ some (pos a, pos b, pos c)
    back k =
        let d = k.2 in
        let one : varying (extract_nums e1) (extract_nums e2) (extract_nums e3) ≡ (a, b, c) ∷ [] =
          rw (d.first, d.second, d.third) (varying-append d.before d.after a b c d.not_equal) in
        rw
          (
            equal_both (normalize e1) (normalize e2) (normalize e3) k.0 k.1,
            (same_length_iff _ _ _).1 (DifferAt-length d),
            one,
          )
          refl
